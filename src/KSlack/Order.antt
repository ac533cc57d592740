-- ===== src/KSlack/Order.antt =====
-- The reordering buffer `KSlack_Buffer`: what it takes in and what it gives out.
use mathlib.Core.Path.{ap₂}
use elastic_ppq.Common.{
  ℕ, zero, suc, ◌+◌, ◌-◌, ◌≤◌, ◌<◌, ◌≡◌, refl, sym, ap, ◌∙◌, subst, inl, inr, ◌⊎◌, true, false,
  Perm, List, [], ◌∷◌, ◌++◌, append_assoc, length-append, none, some, All, arith, length, take,
  drop, get_elem?, drop-append, take-drop, length-take, get_elem?-append, leb, ◌==◌, Bool-cases,
}
use elastic_ppq.Message.{Tuple}
use elastic_ppq.KSlack.Delay.{IsSlack, Progress, advance-Progress, note-IsSlack, advance-IsSlack}
use elastic_ppq.KSlack.{
  Buffer, insert, count_upto, insert_tuple, emit_next, extract_tuple, extract_all, advance,
}
use elastic_ppq.KSlack.Sorting.{
  IsSorted, insert-IsSorted, insert-perm, length-insert, count_upto_lem,
}

module _ {W : Type 0} where
  extract-stop :
      (b : Buffer W)
      → b.to_emit ≡ true
      → b.first_tuple ≡ b.last_tuple
      → extract_tuple b ≡ (record b { tuples = drop b.last_tuple b.tuples; to_emit = false }, none)
  unfolding extract_tuple
  extract-stop b e h =
      let same : (b.first_tuple == b.last_tuple) ≡ true = ground (arith, h) in rw (e, same) refl

  extract-next :
      (b : Buffer W)
      → b.to_emit ≡ true
      → b.first_tuple < b.last_tuple
      → extract_tuple b
        ≡ (record b { first_tuple = b.first_tuple + 1 }, get_elem? b.tuples b.first_tuple)
  unfolding extract_tuple
  extract-next b e h =
      let same : (b.first_tuple == b.last_tuple) ≡ false = ground (arith, h) in rw (e, same) refl

  -- From a buffer that is to emit the tuples `mid` next, the loop takes out just these, in order, and
  -- the buffer keeps those behind them.
  pub extract_all_lem :
      (fuel : ℕ) (b : Buffer W) (before mid after : List (Tuple W))
      → length mid < fuel
      → b.to_emit ≡ true
      → b.tuples ≡ before ++ (mid ++ after)
      → b.first_tuple ≡ length before
      → b.last_tuple ≡ length before + length mid
      → extract_all fuel b
        ≡ (record b { tuples = after; to_emit = false; first_tuple = b.last_tuple }, mid)
  unfolding extract_all
  extract_all_lem zero b before mid after h e r f l = absurd (omega (arith, h))
  extract_all_lem (suc fuel) b before [] after h e r f l =
      let stop = extract-stop b e (omega (arith, f, l)) in
      let rest : drop b.last_tuple b.tuples ≡ after =
        ap₂ drop (omega (arith, l)) r ∙ drop-append before after in
      ap (λ x. emit_next x (extract_all fuel)) stop
      ∙ ap₂ (λ us n. (record b { tuples = us; to_emit = false; first_tuple = n }, [])) rest
          (omega (arith, f, l))
  extract_all_lem (suc fuel) b before (t ∷ mid) after h e r f l =
      let b1 : Buffer W = record b { first_tuple = b.first_tuple + 1 } in
      let got : get_elem? b.tuples b.first_tuple ≡ some t =
        ap₂ get_elem? r f ∙ get_elem?-append before t (mid ++ after) in
      let next = extract-next b e (omega (arith, f, l)) ∙ ap (λ o. (b1, o)) got in
      let size = length-append before (t ∷ []) in
      let ih =
        extract_all_lem fuel b1 (before ++ t ∷ []) mid after (omega (arith, h)) e
          (r ∙ sym (append_assoc before (t ∷ []) (mid ++ after))) (omega (arith, f, size))
          (omega (arith, l, size)) in
      ap (λ x. emit_next x (extract_all fuel)) next ∙ ap (λ z. (z.0, t ∷ z.1)) ih

  -- a buffer with nothing to emit gives nothing
  extract-idle : (fuel : ℕ) (b : Buffer W) → b.to_emit ≡ false → extract_all fuel b ≡ (b, [])
  unfolding extract_all extract_tuple
  extract-idle zero b e = refl
  extract-idle (suc fuel) b e = rw e refl

  -- Between two tuples: the buffer is sorted, its slack is in order, and nothing is to be emitted.
  pub record IsIdle (b : Buffer W) : Type 0 where
    pub sorted : IsSorted b.tuples
    pub slack : IsSlack b.slack
    pub idle : b.to_emit ≡ false

  IsSorted-drop : (n : ℕ) (us : List (Tuple W)) → IsSorted us → IsSorted (drop n us)
  IsSorted-drop zero us s = s
  IsSorted-drop (suc n) [] s = tt
  IsSorted-drop (suc n) (u ∷ us) s = IsSorted-drop n us s.1

  -- The timestamp of t is above all before: the slack k follows the delays, and of the tuples just those
  -- come out that are k behind t, or more.
  pub record Emitted (b : Buffer W) (t : Tuple W) (r : Buffer W × List (Tuple W)) : Type 0 where
    pub bound : ℕ
    pub progress : Progress b.slack r.0.slack t.app_ts bound
    pub out_le : All (λ u. u.app_ts ≤ bound) r.1
    pub rest_gt : All (λ u. bound < u.app_ts) r.0.tuples

  -- The timestamp of t is not above all before: it is noted, and no tuple comes out.
  pub record Held (b : Buffer W) (t : Tuple W) (r : Buffer W × List (Tuple W)) : Type 0 where
    pub not_later : t.app_ts ≤ b.slack.tcurr
    pub nothing_out : r.1 ≡ []
    pub noted : r.0.slack ≡ record b.slack { ts_vect = b.slack.ts_vect ++ t.app_ts ∷ [] }

  -- What one tuple makes the buffer do: the tuples that come out and those that stay are together those
  -- before and the new one, sorted.
  pub record Received (b : Buffer W) (t : Tuple W) (r : Buffer W × List (Tuple W)) : Type 0 where
    pub order : r.1 ++ r.0.tuples ≡ insert t b.tuples
    pub sorted : IsSorted (r.1 ++ r.0.tuples)
    pub kept : Perm (r.1 ++ r.0.tuples) (t ∷ b.tuples)
    pub ready : IsIdle r.0
    pub emission : Held b t r ⊎ Emitted b t r

  -- the buffer after a tuple that is not later than all before, and after one that is
  noted : Buffer W → Tuple W → Buffer W
  noted b t = record b {
    slack = record b.slack { ts_vect = b.slack.ts_vect ++ t.app_ts ∷ [] };
    tuples = insert t b.tuples;
  }

  advanced : Buffer W → Tuple W → Buffer W
  advanced b t =
      let next = advance (record b.slack { ts_vect = b.slack.ts_vect ++ t.app_ts ∷ [] }) t.app_ts in
      record {
        slack = next;
        tuples = insert t b.tuples;
        to_emit = true;
        first_tuple = 0;
        last_tuple = count_upto (next.tcurr - next.k) (insert t b.tuples);
      }

  insert_tuple_lem :
      (b : Buffer W) (t : Tuple W)
      → ((t.app_ts ≤ b.slack.tcurr) × ((insert_tuple b t).0 ≡ noted b t))
        ⊎ ((b.slack.tcurr < t.app_ts) × ((insert_tuple b t).0 ≡ advanced b t))
  unfolding insert_tuple noted advanced
  insert_tuple_lem b t = elim (Bool-cases (leb t.app_ts b.slack.tcurr)) [
    | inl k ↦ rw k (inl (ground arith, refl))
    | inr k ↦ rw k (inr (ground arith, refl))
  ]

  noted-Received :
      (fuel : ℕ) (b : Buffer W) (t : Tuple W)
      → IsIdle b
      → t.app_ts ≤ b.slack.tcurr
      → Received b t (extract_all fuel (noted b t))
  unfolding noted
  noted-Received fuel b t v le =
      subst (Received b t) (sym (extract-idle fuel (noted b t) v.idle)) (record {
        order = refl;
        sorted = insert-IsSorted t b.tuples v.sorted;
        kept = insert-perm t b.tuples;
        ready = record {
          sorted = insert-IsSorted t b.tuples v.sorted;
          slack = note-IsSlack b.slack t.app_ts v.slack le;
          idle = v.idle;
        };
        emission = inl (record { not_later = le; nothing_out = refl; noted = refl });
      })

  advanced-Received :
      (fuel : ℕ) (b : Buffer W) (t : Tuple W)
      → IsIdle b
      → b.slack.tcurr < t.app_ts
      → length b.tuples + 1 < fuel
      → Received b t (extract_all fuel (advanced b t))
  unfolding advanced
  advanced-Received fuel b t v lt h =
      let all : List (Tuple W) = insert t b.tuples in
      let sorted : IsSorted all = insert-IsSorted t b.tuples v.sorted in
      let next = advance (record b.slack { ts_vect = b.slack.ts_vect ++ t.app_ts ∷ [] }) t.app_ts in
      let bound : ℕ = next.tcurr - next.k in
      let n : ℕ = count_upto bound all in
      let cut = count_upto_lem bound all sorted in
      let size : length all ≡ suc (length b.tuples) = length-insert t b.tuples in
      let out =
        extract_all_lem fuel (advanced b t) [] (take n all) (drop n all)
          (omega (arith, h, size, length-take n all cut.2, cut.2)) refl (sym (take-drop n all)) refl
          (omega (arith, length-take n all cut.2)) in
      subst (Received b t) (sym out) (record {
        order = take-drop n all;
        sorted = subst IsSorted (sym (take-drop n all)) sorted;
        kept =
            subst (λ us. Perm us (t ∷ b.tuples)) (sym (take-drop n all)) (insert-perm t b.tuples);
        ready = record {
          sorted = IsSorted-drop n all sorted;
          slack = advance-IsSlack b.slack t.app_ts v.slack lt;
          idle = refl;
        };
        emission = inr (record {
          bound = bound;
          progress = advance-Progress b.slack t.app_ts v.slack lt;
          out_le = cut.0;
          rest_gt = cut.1;
        });
      })

  -- For an idle buffer that takes in a tuple and is then emptied by the emitter's loop, the tuples that
  -- come out and those that stay are, in this order, the tuples from before and the new one, sorted, with
  -- the new one in front of those of the same timestamp. If its timestamp is not above the highest one seen, none comes out. If it is, just those
  -- come out that are the slack behind it or more, where the slack is the one from before, or a larger
  -- delay of a tuple since the last time, and at least every such delay. Two rounds more than the buffer
  -- has tuples are enough.
  pub insert_tuple-Received :
      (fuel : ℕ) (b : Buffer W) (t : Tuple W)
      → IsIdle b
      → length b.tuples + 1 < fuel
      → Received b t (extract_all fuel (insert_tuple b t).0)
  insert_tuple-Received fuel b t v h = elim (insert_tuple_lem b t) [
    | inl (le, e) ↦
        subst (λ x. Received b t (extract_all fuel x)) (sym e) (noted-Received fuel b t v le)
    | inr (lt, e) ↦
        subst (λ x. Received b t (extract_all fuel x)) (sym e) (advanced-Received fuel b t v lt h)
  ]
