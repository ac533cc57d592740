-- ===== src/Plq/Sched/Passing.antt =====
-- The panes that the stream passes, one after another.
use elastic_ppq.Common.{
  ℕ, zero, suc, ◌+◌, ◌-◌, ◌%◌, ◌≤◌, ◌<◌, ◌≡◌, refl, sym, ap, ◌∙◌, subst, inl, inr, ◌⊎◌, Bool, true,
  false, List, [], ◌∷◌, ◌++◌, length-append, none, some, arith, get_or, set, length, ◌==◌, ltb,
  Bool-cases, All, All-append, if◌then◌else◌,
}
use elastic_ppq.Double.{Double}
use mathlib.Core.Path.{ap₂}
use elastic_ppq.Message.{Tuple, Kind, empty, create_lull}
use elastic_ppq.Query.TData.{resize}
use elastic_ppq.Plq.Sched.{
  Sched, find_activated, first_found, get_rr_w, note_pane, send_lull, complete_pane, complete_panes,
}

find_activated_lem :
    (ws : List Bool) (i n : ℕ)
    → ((find_activated ws i n ≡ none) × ((j : ℕ) → i ≤ j → j < i + n → get_or ws j false ≡ false))
      ⊎ ((k : ℕ) × (find_activated ws i n ≡ some k) × (get_or ws k false ≡ true))
unfolding find_activated
find_activated_lem ws i zero = inl (refl, λ j le lt. absurd (omega (arith, le, lt)))
find_activated_lem ws i (suc n) = elim (Bool-cases (get_or ws i false)) [
  | inl h ↦ inr (i, rw h refl, h)
  | inr h ↦ elim (find_activated_lem ws (i + 1) n) [
    | inl (e, f) ↦ inl (
      rw h e,
      λ j le lt. elim (Bool-cases (j == i)) [
        | inl q ↦ subst (λ m. get_or ws m false ≡ false) (ground (arith, q)) h
        | inr q ↦ f j (ground (arith, q, le)) (omega (arith, lt))
      ],
    )
    | inr (k, e, t) ↦ inr (k, rw h e, t)
  ]
]

module _ (num w : ℕ) where
  pub get_rr_w_lem :
      (s : Sched)
      → w < num
      → get_or s.activated_worker w false ≡ true
      → (k : ℕ) × (get_rr_w num s ≡ some (record s { last_w = (k + 1) % num }, k))
        × (get_or s.activated_worker k false ≡ true)
  unfolding get_rr_w first_found
  get_rr_w_lem s lt t = elim (find_activated_lem s.activated_worker s.last_w (num - s.last_w)) [
    | inr (k, e, u) ↦ (k, rw e refl, u)
    | inl (e, f) ↦ elim (find_activated_lem s.activated_worker 0 s.last_w) [
      | inr (k, e', u) ↦ (k, rw e (rw e' refl), u)
      | inl (e', f') ↦ elim (Bool-cases (ltb w s.last_w)) [
        | inl h ↦ absurd (ground (arith, t, f' w (omega arith) (ground (arith, h))))
        | inr h ↦ absurd (ground (arith, t, f w (ground (arith, h)) (ground (arith, h, lt))))
      ]
    ]
  ]

-- The panes without tuples among the n panes from i on.
unfoldable pub empty_at : List ℕ → ℕ → List ℕ
empty_at sizes i = if get_or sizes i 0 == 0 then i ∷ [] else []

unfoldable pub empty_panes : List ℕ → ℕ → ℕ → List ℕ
empty_panes sizes i zero = []
empty_panes sizes i (suc n) = empty_at sizes i ++ empty_panes sizes (i + 1) n

-- The panes of the LULL messages among some that were sent.
unfoldable pub lull_of : Kind → ℕ → List ℕ
lull_of Kind.lull i = i ∷ []
lull_of _ i = []

unfoldable pub lulls : {W : Type 0} → List (ℕ × Tuple W) → List ℕ
lulls [] = []
lulls ((w, t) ∷ l) = lull_of t.kind t.pane_id ++ lulls l

unfoldable pub IsActivated : Sched → ℕ → Type 0
IsActivated s w = get_or s.activated_worker w false ≡ true

append_assoc_nat : (xs ys zs : List ℕ) → (xs ++ ys) ++ zs ≡ xs ++ (ys ++ zs)
append_assoc_nat [] ys zs = refl
append_assoc_nat (x ∷ xs) ys zs = ap (◌∷◌ x) (append_assoc_nat xs ys zs)

pub get_or-resize :
    (n : ℕ) (xs : List ℕ) (j : ℕ) → j < n → get_or (resize n 0 xs) j 0 ≡ get_or xs j 0
unfolding resize
get_or-resize zero xs j lt = absurd (omega (arith, lt))
get_or-resize (suc n) [] zero lt = refl
get_or-resize (suc n) [] (suc j) lt = get_or-resize n [] j (omega (arith, lt))
get_or-resize (suc n) (x ∷ xs) zero lt = refl
get_or-resize (suc n) (x ∷ xs) (suc j) lt = get_or-resize n xs j (omega (arith, lt))

module _ {W : Type 0} ⦃o : Double W⦄ where
  pub lulls-append : (xs ys : List (ℕ × Tuple W)) → lulls (xs ++ ys) ≡ lulls xs ++ lulls ys
  unfolding lulls
  lulls-append [] ys = refl
  lulls-append ((w, t) ∷ xs) ys =
      ap (◌++◌ (lull_of t.kind t.pane_id)) (lulls-append xs ys)
      ∙ sym (append_assoc_nat (lull_of t.kind t.pane_id) (lulls xs) (lulls ys))

  -- What a part of the work leaves as it was, and what it sends.
  pub record Passed (s : Sched) (ids : List ℕ) (m : ℕ) (r : Sched × List (ℕ × Tuple W))
      : Type 0 where
    pub workers : r.0.activated_worker ≡ s.activated_worker
    pub sizes : r.0.pane_size ≡ s.pane_size
    pub noted : length r.0.cm_panes_split ≡ length s.cm_panes_split + m
    pub sent : lulls r.1 ≡ ids
    pub targets : All (λ q. IsActivated s q.0) r.1

  module _ (num w : ℕ) where
    complete_pane-Passed :
        (i : ℕ) (s : Sched)
        → w < num
        → IsActivated s w
        → (r : Sched × List (ℕ × Tuple W)) × (complete_pane num i s ≡ some r)
          × Passed s (empty_at s.pane_size i) 0 r
    unfolding complete_pane send_lull empty_at lulls lull_of IsActivated create_lull
    complete_pane-Passed i s lt t = elim (Bool-cases (get_or s.pane_size i 0 == 0)) [
      | inr h ↦ (
        (s, []),
        rw h refl,
        record {
          workers = refl;
          sizes = refl;
          noted = omega arith;
          sent = rw h refl;
          targets = tt;
        },
      )
      | inl h ↦
          let s' = record s { p_instances = set s.p_instances i 1 } in
          let (k, e, u) = get_rr_w_lem num w s' lt t in
          (
            (record s' { last_w = (k + 1) % num }, (k, create_lull empty i) ∷ []),
            rw h (rw e refl),
            record {
              workers = refl;
              sizes = refl;
              noted = omega arith;
              sent = rw h refl;
              targets = (u, tt);
            },
          )
    ]

    pub complete_panes-Passed :
        (i n : ℕ) (s : Sched)
        → w < num
        → IsActivated s w
        → (r : Sched × List (ℕ × Tuple W)) × (complete_panes num i n s ≡ some r)
          × Passed s (empty_panes s.pane_size i n) n r
    unfolding complete_panes empty_panes note_pane IsActivated lulls
    complete_panes-Passed i zero s lt t = (
      (s, []),
      refl,
      record { workers = refl; sizes = refl; noted = omega arith; sent = refl; targets = tt },
    )
    complete_panes-Passed i (suc n) s lt t =
        let (r, e, v) = complete_pane-Passed i s lt t in
        let m = note_pane i r.0 in
        let (q, e', v') =
          complete_panes-Passed (i + 1) n m lt
            (subst (λ ws. get_or ws w false ≡ true) (sym v.workers) t) in
        (
          (q.0, r.1 ++ q.1),
          rw e (rw e' refl),
          record {
            workers = v'.workers ∙ v.workers;
            sizes = v'.sizes ∙ v.sizes;
            noted = omega (
              arith,
              v.noted,
              v'.noted,
              length-append r.0.cm_panes_split (get_or r.0.p_instances i 0 ∷ []),
            );
            sent =
                lulls-append r.1 q.1
                ∙ ap₂ ◌++◌ v.sent (v'.sent ∙ ap (λ z. empty_panes z (i + 1) n) v.sizes);
            targets =
                All-append (λ x. get_or s.activated_worker x.0 false ≡ true) r.1 q.1 v.targets
                  (subst (λ ws. All (λ x. get_or ws x.0 false ≡ true) q.1) v.workers v'.targets);
          },
        )
