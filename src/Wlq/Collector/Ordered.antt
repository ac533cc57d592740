-- ===== src/Wlq/Collector/Ordered.antt =====
-- What the collector keeps while it handles one window after another.
use mathlib.Core.Path.{ap₂}
use mathlib.Core.List.{map-append, perm_middle}
use mathlib.Core.List.Perm
use elastic_ppq.Common.{
  ℕ, zero, suc, ◌+◌, ◌-◌, ◌%◌, ◌^◌, ◌≤◌, ◌<◌, ◌≡◌, refl, sym, ap, ◌∙◌, subst, inl, inr, Bool, true,
  false, List, [], ◌∷◌, ◌++◌, append_assoc, append-nil, Perm, Option, none, some, arith, length,
  exists, ltb, ◌==◌, Bool-cases,
}
use elastic_ppq.Common.Perms.{exists-perm, exists-append}
use elastic_ppq.ResultsSet.{Derived}
use elastic_ppq.Wlq.Collector.{Collector, send_behind, buffer, svc}
use elastic_ppq.Wlq.Collector.Slots.{
  range, held, IsAhead, id_of, win_ids, IsPlaced, Run, send_run-Run, buffer-Put, absent-is_free,
  IsAhead-buffer,
}

range-append :
    (base m n k t : ℕ) → k ≡ base + m → t ≡ m + n → range base m ++ range k n ≡ range base t
range-append base zero n k t e f = ap₂ range (omega (arith, e)) (omega (arith, f))
range-append base (suc m) n k zero e f = absurd (omega (arith, f))
range-append base (suc m) n k (suc t) e f =
    ap (◌∷◌ base) (range-append (base + 1) m n k t (omega (arith, e)) (omega (arith, f)))

-- Is n one of the numbers?
abbrev pub is_in : ℕ → List ℕ → Bool
is_in n = exists (λ m. m == n)

pub is_in-range : (n base k : ℕ) → base ≤ n → n < base + k → is_in n (range base k) ≡ true
is_in-range n base zero le lt = absurd (omega (arith, le, lt))
is_in-range n base (suc k) le lt = elim (Bool-cases (base == n)) [
  | inl h ↦ rw h refl
  | inr h ↦ rw h (is_in-range n (base + 1) k (ground (arith, le)) (omega (arith, lt)))
]

pub is_in-range_out : (n base k : ℕ) → base + k ≤ n → is_in n (range base k) ≡ false
is_in-range_out n base zero le = refl
is_in-range_out n base (suc k) le =
    ground (arith, le, is_in-range_out n (base + 1) k (omega (arith, le)))

module _ {S : Type 0} ⦃b : Derived S⦄ where
  -- the windows of some results sets are all different, each below 2^64, and none of them is in a list
  abbrev pub IsFresh : List ℕ → List S → Type 0
  IsFresh ns [] = Unit
  IsFresh ns (w ∷ ws) =
      (is_in (id_of w) ns ≡ false) × (id_of w < 2 ^ 64) × IsFresh (id_of w ∷ ns) ws

  -- The collector after it got some results sets and sent others.
  pub record Inv (c : Collector S) (out got : List S) : Type 0 where
    pub sent : win_ids out ≡ range 0 c.next_win_id
    pub placed : IsPlaced c.next_win_id c.win_set
    pub ahead : IsAhead c.win_set
    pub all : Perm (out ++ held c.win_set) got

  send_behind-Run :
      (base : ℕ) (l : List (Option S))
      → IsPlaced base l
      → IsAhead l
      → Run (base + 1) l (send_behind l)
  unfolding send_behind
  send_behind-Run base [] h a = record { sent_ids = refl; whole = refl; placed = tt; ahead = tt }
  send_behind-Run base (none ∷ l) h a =
      let v = send_run-Run (base + 1) l h in
      record { sent_ids = v.sent_ids; whole = v.whole; placed = v.placed; ahead = v.ahead }
  send_behind-Run base (some s ∷ l) h a = absurd a

  -- a window that was not got was neither sent nor is held
  absent :
      (c : Collector S) (out got : List S) (n : ℕ)
      → Inv c out got
      → is_in n (win_ids got) ≡ false
      → (c.next_win_id ≤ n) × (is_in n (win_ids (held c.win_set)) ≡ false)
  absent c out got n v f =
      let same : is_in n (win_ids out ++ win_ids (held c.win_set)) ≡ false =
        ap (is_in n) (sym (map-append id_of out (held c.win_set)))
        ∙ exists-perm (λ m. m == n) (Perm.map id_of v.all)
        ∙ f in
      let both =
        sym (exists-append (λ m. m == n) (win_ids out) (win_ids (held c.win_set))) ∙ same in
      let not_sent : is_in n (range 0 c.next_win_id) ≡ false =
        ap (is_in n) (sym v.sent) ∙ ground (arith, both) in
      (
        elim (Bool-cases (ltb n c.next_win_id)) [
          | inl h ↦ absurd (
              ground
                (arith, not_sent, is_in-range n 0 c.next_win_id (omega arith) (ground (arith, h))))
          | inr h ↦ ground (arith, h)
        ],
        ground (arith, both),
      )

  joined :
      (out us vs got : List S) (w : S)
      → Perm us (w ∷ vs)
      → Perm (out ++ vs) got
      → Perm (out ++ us) (w ∷ got)
  joined out us vs got w p q =
      Perm.trans (Perm.append (Perm.refl out) p) (Perm.trans (perm_middle out vs) (Perm.cons w q))

  next-Inv :
      (c : Collector S) (out got : List S) (w : S)
      → id_of w ≡ c.next_win_id
      → Inv c out got
      → let r = send_behind c.win_set in
        Inv
          (record { next_win_id = c.next_win_id + 1 + length r.0; win_set = r.1 })
          (out ++ w ∷ r.0)
          (w ∷ got)
  next-Inv c out got w e v =
      let r = send_behind c.win_set in
      let go = send_behind-Run c.next_win_id c.win_set v.placed v.ahead in
      record {
        sent =
            map-append id_of out (w ∷ r.0)
            ∙ ap₂ ◌++◌ v.sent (ap₂ ◌∷◌ e go.sent_ids)
            ∙ range-append 0 c.next_win_id (suc (length r.0)) c.next_win_id
                (c.next_win_id + 1 + length r.0) (omega arith) (omega arith);
        placed = go.placed;
        ahead = go.ahead;
        all =
            subst (λ l. Perm l (w ∷ got)) (sym (append_assoc out (w ∷ r.0) (held r.1)))
              (joined out (w ∷ (r.0 ++ held r.1)) (held c.win_set) got w
                (subst (λ l. Perm (w ∷ l) (w ∷ held c.win_set)) go.whole (Perm.refl _)) v.all);
      }

  buffer-Inv :
      (c : Collector S) (out got : List S) (w : S) (i : ℕ)
      → id_of w ≡ c.next_win_id + suc i
      → is_in (id_of w) (win_ids (held c.win_set)) ≡ false
      → Inv c out got
      → Inv (record c { win_set = buffer (suc i) w c.win_set }) (out ++ []) (w ∷ got)
  buffer-Inv c out got w i e f v =
      let free = absent-is_free c.next_win_id (suc i) (id_of w) c.win_set e v.placed f in
      let put = buffer-Put c.next_win_id (suc i) w c.win_set e v.placed free in
      record {
        sent = ap win_ids (append-nil out) ∙ v.sent;
        placed = put.placed;
        ahead = IsAhead-buffer i w c.win_set v.ahead;
        all =
            subst (λ l. Perm (l ++ held (buffer (suc i) w c.win_set)) (w ∷ got))
              (sym (append-nil out))
              (joined out (held (buffer (suc i) w c.win_set)) (held c.win_set) got w put.perm
                v.all);
      }

  pub svc-Inv :
      (c : Collector S) (out got : List S) (w : S)
      → is_in (id_of w) (win_ids got) ≡ false
      → id_of w < 2 ^ 64
      → Inv c out got
      → Inv (svc c w).0 (out ++ (svc c w).1) (w ∷ got)
  unfolding svc
  svc-Inv c out got w f top v =
      let (ge, gone) = absent c out got (id_of w) v f in
      elim (Bool-cases (id_of w == c.next_win_id)) [
        | inl h ↦ rw h (next-Inv c out got w (ground (arith, h)) v)
        | inr h ↦
            let more : c.next_win_id < id_of w = ground (arith, h, ge) in
            let i : ℕ = id_of w - c.next_win_id - 1 in
            let place : (id_of w + 2 ^ 64 - c.next_win_id) % 2 ^ 64 ≡ suc i =
              omega (arith, more, top) in
            rw (h, place) (buffer-Inv c out got w i (omega (arith, more)) gone v)
      ]
