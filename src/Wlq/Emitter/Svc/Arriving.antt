-- ===== src/Wlq/Emitter/Svc/Arriving.antt =====
-- A results set of the PLQ stage arrives.
use native.Mathlib.Nat.{le-div_iff_mul-le, div-lt_iff_lt-mul}
use elastic_ppq.Common.{
  ℕ, ◌+◌, ◌-◌, ◌*◌, ◌/◌, ◌^◌, ◌≤◌, ◌<◌, ◌≡◌, ◌≢◌, refl, ap, ◌∙◌, subst, inl, inr, ◌&&◌, List, ◌++◌,
  Option, none, some, arith, get_or, length, length-append, leb, and_then, if◌then◌else◌,
}
use elastic_ppq.ResultsSet.{Derived}
use elastic_ppq.Panes.{first_win, last_win}
use elastic_ppq.Panes.Windows.{window-first-last}
use elastic_ppq.Wlq.Emitter.{Task, WinDescr, sum_ins, update_count}
use elastic_ppq.Wlq.Emitter.Svc.{WlqEmitter, local_id, new_descrs, grow, join_windows, arrive}
use elastic_ppq.Wlq.Emitter.Svc.Assigning.{at_rest}
use elastic_ppq.Wlq.Emitter.Svc.Growing.{
  length-new_descrs, pending-append, pending-new_descrs, new_descrs-open, append-open,
  Windows-append, new_descrs-Windows,
}
use elastic_ppq.Wlq.Emitter.Svc.Invariant.{IsRunning, local_id_lem}
use elastic_ppq.Wlq.Emitter.Svc.Traffic.{Windows}
use elastic_ppq.Wlq.Emitter.Svc.Joining.{join-Joined}

-- A pane is in a window at least.
first-last : (wp sp q : ℕ) → 0 < sp → sp ≤ wp → first_win wp sp q ≤ last_win sp q
first-last wp sp q pos le =
    let w : ℕ = q / sp in
    let low = le-div_iff_mul-le {k = sp} {x = w} {y = q} pos in
    let high = div-lt_iff_lt-mul {k = sp} {x = q} {y = w + 1} pos in
    let below : w * sp ≤ q = low.0 (omega arith) in
    let above : q < (w + 1) * sp = high.0 (omega arith) in
    let wide : q < w * sp + wp = omega (arith, above, le) in
    let (a, c) = (window-first-last wp sp q w pos).1 (below, wide) in omega (arith, a, c)

-- Another results set of the windows from `lo` to `hi`.
abbrev pub one_more : ℕ → ℕ → (ℕ → ℕ) → ℕ → ℕ
one_more lo hi arrived k = if leb lo k && leb k hi then arrived k + 1 else arrived k

module _ {S : Type 0} ⦃b : Derived S⦄ (num : ℕ) (new_set : ℕ → ℕ → ℕ → S) (wp sp : ℕ) where
  -- What the PLQ stage promises of a results set: its windows are not finalized yet, and it is not one
  -- more than the partitions that its windows wait for, once all of them have told their number.
  pub record Expected (arrived : ℕ → ℕ) (e : WlqEmitter S) (p : S) : Type 0 where
    pub start : e.first_win_id ≤ first_win wp sp (b.base p).id
    pub small : last_win sp (b.base p).id < 2 ^ 64
    pub opened :
        (m : ℕ)
        → first_win wp sp (b.base p).id ≤ e.first_win_id + m
        → e.first_win_id + m ≤ last_win sp (b.base p).id
        → m < length e.descr_set
        → get_or e.descr_set m none ≢ none
    pub promised :
        (m : ℕ) (wd : WinDescr S)
        → first_win wp sp (b.base p).id ≤ e.first_win_id + m
        → e.first_win_id + m ≤ last_win sp (b.base p).id
        → get_or (grow new_set wp sp e.first_win_id (last_win sp (b.base p).id) e.descr_set) m none
          ≡ some wd
        → (c : ℕ) → sum_ins (update_count wd p).cnt_ins ≡ some c
        → arrived (e.first_win_id + m) < c

  pub arrive-IsRunning :
      (arrived : ℕ → ℕ) (e : WlqEmitter S) (ws : List (Option (Task S))) (p : S)
      → 0 < sp
      → sp ≤ wp
      → ((j : ℕ) → (b.base (new_set 1 j 1)).id ≡ j)
      → IsRunning num arrived e (at_rest ws)
      → Expected arrived e p
      → (e' : WlqEmitter S) × (arrive new_set wp sp p e ≡ some e')
        × (e'.pool ≡ e.pool)
        × (e'.wlq_terminated ≡ e.wlq_terminated)
        × IsRunning num
            (one_more (first_win wp sp (b.base p).id) (last_win sp (b.base p).id) arrived)
            e'
            (at_rest ws)
  unfolding arrive grow
  arrive-IsRunning arrived e ws p pos wide named v x =
      let q = (b.base p).id in
      let lo : ℕ = first_win wp sp q in
      let hi : ℕ = last_win sp q in
      let g = one_more lo hi arrived in
      let first = e.first_win_id in
      let l = e.descr_set in
      let order : lo ≤ hi = first-last wp sp q pos wide in
      let at_lo = local_id_lem first lo x.start (omega (arith, order, x.small)) in
      let at_hi = local_id_lem first hi (omega (arith, x.start, order)) x.small in
      let i : ℕ = lo - first in
      let n : ℕ = hi - first + 1 - (lo - first) in
      let new : ℕ = hi - first + 1 - length l in
      let more = new_descrs new_set wp sp (length l + first) new in
      let grown = l ++ more in
      let same : grow new_set wp sp first hi l ≡ grown =
        ap (λ y. l ++ new_descrs new_set wp sp (length l + first) (y + 1 - length l)) at_hi in
      let size =
        length-append l more
        ∙ ap (λ z. length l + z) (length-new_descrs new_set wp sp (length l + first) new) in
      let wide_enough : hi < first + length grown = omega (arith, size, x.start, order) in
      let windows = Windows-append arrived (at_rest ws) first l more v.windows (
        subst (λ k. Windows arrived (at_rest ws) k more) (omega arith)
          (new_descrs-Windows arrived ws new_set wp sp (length l + first) new named
            (λ j ge. v.future j (omega (arith, ge))))) in
      let (l', f, y) =
        join-Joined p arrived g ws i n first grown windows
          (omega (arith, x.start, order, wide_enough))
          (λ m ge lt.
            append-open l more m
              (λ here. x.opened m (omega (arith, ge)) (omega (arith, lt, x.start, order)) here)
              (λ there.
                new_descrs-open new_set wp sp (length l + first) new (m - length l)
                  (omega (arith, lt, there, x.start, order))))
          (λ m wd ge lt h.
            x.promised m wd (omega (arith, ge)) (omega (arith, lt, x.start, order))
              (ap (λ z. get_or z m none) same ∙ h))
          (λ m ge lt. ground (arith, ge, lt, x.start, order))
          (λ m c. elim c [
            | inl z ↦ ground (arith, z, x.start, order)
            | inr z ↦ ground (arith, z, x.start, order)
          ]) in
      let finish : ℕ → List (Option (WinDescr S)) → Option (WlqEmitter S) =
        λ c r. some (record e { descr_set = r; n_pendingtasks = e.n_pendingtasks + c }) in
      let run : ℕ → ℕ → Option (WlqEmitter S) = λ x y.
        and_then
          (join_windows p x (y + 1 - x)
            (l ++ new_descrs new_set wp sp (length l + first) (y + 1 - length l)))
          (finish (y + 1 - x)) in
      (
        record e { descr_set = l'; n_pendingtasks = e.n_pendingtasks + n },
        ap (λ z. run z (local_id first hi)) at_lo
            ∙ ap (run i) at_hi
            ∙ ap (λ o. and_then o (finish n)) f,
        refl,
        refl,
        record {
          size = v.size;
          windows = y.windows;
          past = v.past;
          future = λ k ge.
              let far : hi < k = omega (arith, ge, y.size, wide_enough) in
              let h = v.future k (omega (arith, ge, y.size, size)) in
              record {
                none_arrived = ground (arith, far, h.none_arrived);
                sent_loads = h.sent_loads;
                todo_loads = h.todo_loads;
                finals = h.finals;
              };
          bound = omega (arith, v.bound, y.size, size, x.small, x.start, order);
          tasks = omega (
            arith,
            v.tasks,
            y.count,
            pending-append l more,
            pending-new_descrs new_set wp sp (length l + first) new,
          );
          ready = v.ready;
          idle = v.idle;
          wide = v.wide;
          turn = v.turn;
          sane = v.sane;
          found = tt;
        },
      )
