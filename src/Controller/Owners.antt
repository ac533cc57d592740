-- ===== src/Controller/Owners.antt =====
-- The owners of the resources, and resources that go over to another one.
use elastic_ppq.Common.{
  ℕ, zero, suc, ◌+◌, ◌<◌, ◌≡◌, ◌≢◌, refl, sym, ap, ◌∙◌, inl, inr, ◌⊎◌, Bool, true, false, ◌||◌,
  List, [], ◌∷◌, arith, ℕ_discrete, get_or, length, length-set, get_or-set_other, get_or-set_self,
  ◌==◌, if◌then◌else◌,
}
use elastic_ppq.Plq.Sched.{has}
use elastic_ppq.Controller.{Owner, Resource, same_owner, owner_of, nobodys, set_owner}

-- Whether the owner of a resource is o.
abbrev pub owned : List Resource → Owner → ℕ → Bool
owned pool o k = same_owner (owner_of pool k) o

-- How many numbers below n pass a test.
unfoldable pub count_below : (ℕ → Bool) → ℕ → ℕ
count_below f zero = 0
count_below f (suc n) = let rest = count_below f n in if f n then rest + 1 else rest

pub count_below-same :
    (f g : ℕ → Bool) (n : ℕ) → ((k : ℕ) → k < n → f k ≡ g k) → count_below f n ≡ count_below g n
unfolding count_below
count_below-same f g zero h = refl
count_below-same f g (suc n) h =
    ground (arith, h n (omega arith), count_below-same f g n (λ k lt. h k (omega (arith, lt))))

-- One number more passes the first test than the second.
pub count_below-less :
    (f g : ℕ → Bool) (w n : ℕ)
    → w < n
    → f w ≡ true
    → g w ≡ false
    → ((k : ℕ) → k ≢ w → f k ≡ g k)
    → count_below f n ≡ count_below g n + 1
unfolding count_below
count_below-less f g w zero lt a b h = absurd (omega (arith, lt))
count_below-less f g w (suc n) lt a b h = elim (ℕ_discrete n w) [
  | yes e ↦
      let rest = count_below-same f g n (λ k less. h k (λ q. omega (arith, q, less, e))) in
      ground (arith, rest, ap f e, ap g e, a, b)
  | no ne ↦
      let rest = count_below-less f g w n (omega (arith, lt, ne)) a b h in
      ground (arith, rest, h n ne)
]

pub count_below_none :
    (f : ℕ → Bool) (n : ℕ) → ((k : ℕ) → k < n → f k ≡ false) → count_below f n ≡ 0
unfolding count_below
count_below_none f zero h = refl
count_below_none f (suc n) h =
    ground (arith, h n (omega arith), count_below_none f n (λ k lt. h k (omega (arith, lt))))

pub owner_self : (o : Owner) → same_owner o o ≡ true
unfolding same_owner
owner_self Owner.plq = refl
owner_self Owner.wlq = refl
owner_self Owner.no_owner = refl

pub owned_set :
    (pool : List Resource) (id : ℕ) (o : Owner)
    → id < length pool
    → owner_of (set_owner pool id o) id ≡ o
unfolding set_owner
owned_set pool id o lt =
    ap (λ r. r.owner)
      (get_or-set_self pool id (record (get_or pool id nobodys) { owner = o }) nobodys lt)

pub owned-set_other :
    (pool : List Resource) (id k : ℕ) (o : Owner)
    → k ≢ id
    → owner_of (set_owner pool id o) k ≡ owner_of pool k
unfolding set_owner
owned-set_other pool id k o ne =
    ap (λ r. r.owner)
      (get_or-set_other pool id k (record (get_or pool id nobodys) { owner = o }) nobodys ne)

pub length-set_owner :
    (pool : List Resource) (id : ℕ) (o : Owner) → length (set_owner pool id o) ≡ length pool
unfolding set_owner
length-set_owner pool id o = length-set pool id _

-- No identifier twice.
abbrev pub AllDistinct : List ℕ → Type 0
AllDistinct [] = Unit
AllDistinct (w ∷ ws) = (has w ws ≡ false) × AllDistinct ws

-- Resources of owner a, pairwise different, went over to owner b, and no others.
pub record Passed (pool : List Resource) (a b : Owner) (r : List Resource × List ℕ) : Type 0 where
  pub size : length r.0 ≡ length pool
  pub distinct : AllDistinct r.1
  pub before : (k : ℕ) → has k r.1 ≡ true → (owner_of pool k ≡ a) × (k < length pool)
  pub after : (k : ℕ) → has k r.1 ≡ true → owner_of r.0 k ≡ b
  pub others : (k : ℕ) → has k r.1 ≡ false → owner_of r.0 k ≡ owner_of pool k

pub owner-eq : (a b : Owner) → same_owner a b ≡ true → a ≡ b
unfolding same_owner
owner-eq Owner.plq Owner.plq h = refl
owner-eq Owner.wlq Owner.wlq h = refl
owner-eq Owner.no_owner Owner.no_owner h = refl
owner-eq Owner.plq Owner.wlq h = cc
owner-eq Owner.plq Owner.no_owner h = cc
owner-eq Owner.wlq Owner.plq h = cc
owner-eq Owner.wlq Owner.no_owner h = cc
owner-eq Owner.no_owner Owner.plq h = cc
owner-eq Owner.no_owner Owner.wlq h = cc

pub has_none : (k : ℕ) → has k [] ≢ true
unfolding has
has_none k h = cc

pub has_cons : (k w : ℕ) (ws : List ℕ) → has k (w ∷ ws) ≡ ((w == k) || has k ws)
unfolding has
has_cons k w ws = refl

pub Passed-none : (pool : List Resource) (a b : Owner) → Passed pool a b (pool, [])
Passed-none pool a b = record {
  size = refl;
  distinct = tt;
  before = λ k h. absurd (has_none k h);
  after = λ k h. absurd (has_none k h);
  others = λ k h. refl;
}

-- One resource goes over first.
pub Passed-cons :
    (pool : List Resource) (a b : Owner) (id : ℕ) (r : List Resource × List ℕ)
    → owner_of pool id ≡ a
    → id < length pool
    → has id r.1 ≡ false
    → Passed (set_owner pool id b) a b r
    → Passed pool a b (r.0, id ∷ r.1)
Passed-cons pool a b id r e lt new v =
    let known : (k : ℕ) → has k (id ∷ r.1) ≡ true → (k ≡ id) ⊎ ((k ≢ id) × (has k r.1 ≡ true)) =
      λ k h. elim (ℕ_discrete k id) [
        | yes q ↦ inl q
        | no ne ↦ inr (ne, ground (arith, h, has_cons k id r.1, ne))
      ] in
    record {
      size = v.size ∙ length-set_owner pool id b;
      distinct = (new, v.distinct);
      before = λ k h. elim (known k h) [
        | inl q ↦ (ap (owner_of pool) q ∙ e, omega (arith, q, lt))
        | inr (ne, g) ↦
            let (x, y) = v.before k g in
            (sym (owned-set_other pool id k b ne) ∙ x, omega (arith, y, length-set_owner pool id b))
      ];
      after = λ k h. elim (known k h) [
        | inl q ↦ ap (owner_of r.0) q ∙ v.others id new ∙ owned_set pool id b lt
        | inr (ne, g) ↦ v.after k g
      ];
      others = λ k h.
          let ne : k ≢ id = λ q. absurd (ground (arith, h, has_cons k id r.1, q)) in
          v.others k (ground (arith, h, has_cons k id r.1, ne)) ∙ owned-set_other pool id k b ne;
    }
