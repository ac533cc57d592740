-- ===== src/Pid/Limits.antt =====
-- The output and the integral term of a PID, and its boundaries.
use elastic_ppq.Common.{◌≡◌, Bool, false, not, ◌||◌, List, [], ◌∷◌, All, inl, inr, Bool-cases}
use elastic_ppq.Double.{Real}
use elastic_ppq.Pid.{
  Pid, nought, no_input, clamp, set_gains, create, initialize, set_input, first_input, compute,
  process, set_output_limits, is_same, set_mode, set_set_point, set_reversed, Command, step, run,
}

-- What is relied on of the comparison of two doubles: no value is less than itself, NaN included.
pub record IsIrreflexive (R : Type 0) ⦃y : Real R⦄ : Type 0 where
  pub less_irrefl : (x : R) → y.less x x ≡ false

module _ {R : Type 0} ⦃y : Real R⦄ where
  -- No value of these is outside of the boundaries, and the boundaries are in order.
  pub record IsWithin (lo hi x : R) : Type 0 where
    pub below : y.less hi x ≡ false
    pub above : y.less x lo ≡ false

  pub record IsLimited (s : Pid R) : Type 0 where
    pub order : y.less s.out_max s.out_min ≡ false
    pub output : IsWithin s.out_min s.out_max s.output
    pub i_term : IsWithin s.out_min s.out_max s.i_term

  -- The boundaries have nought between them, as those that the program sets.
  abbrev pub AroundNought : Command R → Type 0
  AroundNought (Command.to_limits lo hi) = IsWithin lo hi nought
  AroundNought _ = Unit

module _ {R : Type 0} ⦃y : Real R⦄ (laws : IsIrreflexive R) where
  clamp-IsWithin : (lo hi x : R) → y.less hi lo ≡ false → IsWithin lo hi (clamp lo hi x)
  unfolding clamp
  clamp-IsWithin lo hi x o = elim (Bool-cases (y.less hi x)) [
    | inl h ↦ rw h (record { below = laws.less_irrefl hi; above = o })
    | inr h ↦ elim (Bool-cases (y.less x lo)) [
      | inl k ↦ rw h (rw k (record { below = o; above = laws.less_irrefl lo }))
      | inr k ↦ rw h (rw k (record { below = h; above = k }))
    ]
  ]

  record IsCentred (s : Pid R) : Type 0 where
    limited : IsLimited s
    nought_within : IsWithin s.out_min s.out_max nought

  set_gains-IsCentred : (p i d : R) (s : Pid R) → IsCentred s → IsCentred (set_gains p i d s)
  unfolding set_gains
  set_gains-IsCentred p i d s v =
      elim (Bool-cases (y.less p nought || (y.less i nought || y.less d nought))) [
        | inl h ↦ rw h v
        | inr h ↦ elim (Bool-cases s.is_reversed) [
          | inl k ↦ rw h (
              rw k (record {
                limited = record {
                  order = v.limited.order;
                  output = v.limited.output;
                  i_term = v.limited.i_term;
                };
                nought_within = v.nought_within;
              }))
          | inr k ↦ rw h (
              rw k (record {
                limited = record {
                  order = v.limited.order;
                  output = v.limited.output;
                  i_term = v.limited.i_term;
                };
                nought_within = v.nought_within;
              }))
        ]
      ]

  first_input-IsCentred : (s : Pid R) → IsCentred s → IsCentred (first_input s)
  unfolding first_input
  first_input-IsCentred s v = elim (Bool-cases (y.same s.last_input no_input)) [
    | inl h ↦ rw h (record {
      limited = record {
        order = v.limited.order;
        output = v.limited.output;
        i_term = v.limited.i_term;
      };
      nought_within = v.nought_within;
    })
    | inr h ↦ rw h v
  ]

  process-IsCentred : (s : Pid R) → IsCentred s → IsCentred (process s).0
  unfolding process compute
  process-IsCentred s v =
      let v' = first_input-IsCentred s v in
      elim (Bool-cases (first_input s).in_auto) [
        | inl h ↦ rw h (record {
          limited = record {
            order = v'.limited.order;
            output = clamp-IsWithin _ _ _ v'.limited.order;
            i_term = clamp-IsWithin _ _ _ v'.limited.order;
          };
          nought_within = v'.nought_within;
        })
        | inr h ↦ rw h (record {
          limited = record {
            order = v'.limited.order;
            output = v'.limited.output;
            i_term = v'.limited.i_term;
          };
          nought_within = v'.nought_within;
        })
      ]

  set_mode-IsCentred : (auto : Bool) (s : Pid R) → IsCentred s → IsCentred (set_mode auto s)
  unfolding set_mode initialize
  set_mode-IsCentred auto s v = elim (Bool-cases (is_same auto (not s.in_auto))) [
    | inl h ↦ rw h (record {
      limited = record {
        order = v.limited.order;
        output = v.limited.output;
        i_term = clamp-IsWithin _ _ _ v.limited.order;
      };
      nought_within = v.nought_within;
    })
    | inr h ↦ rw h (record {
      limited = record {
        order = v.limited.order;
        output = v.limited.output;
        i_term = v.limited.i_term;
      };
      nought_within = v.nought_within;
    })
  ]

  step-IsCentred : (s : Pid R) (c : Command R) → AroundNought c → IsCentred s → IsCentred (step s c)
  unfolding step set_input set_output_limits set_set_point set_reversed
  step-IsCentred s (Command.to_input x) f v = record {
    limited = record {
      order = v.limited.order;
      output = v.limited.output;
      i_term = v.limited.i_term;
    };
    nought_within = v.nought_within;
  }
  step-IsCentred s Command.to_process f v = process-IsCentred s v
  step-IsCentred s (Command.to_gains p i d) f v = set_gains-IsCentred p i d s v
  step-IsCentred s (Command.to_limits lo hi) f v = elim (Bool-cases (y.less hi lo)) [
    | inl h ↦ rw h v
    | inr h ↦ rw h (record {
      limited = record {
        order = h;
        output = clamp-IsWithin lo hi s.output h;
        i_term = clamp-IsWithin lo hi s.i_term h;
      };
      nought_within = f;
    })
  ]
  step-IsCentred s (Command.to_mode auto) f v = set_mode-IsCentred auto s v
  step-IsCentred s (Command.to_set_point target) f v = record {
    limited = record {
      order = v.limited.order;
      output = v.nought_within;
      i_term = v.nought_within;
    };
    nought_within = v.nought_within;
  }
  step-IsCentred s (Command.to_reversed r) f v = record {
    limited = record {
      order = v.limited.order;
      output = v.limited.output;
      i_term = v.limited.i_term;
    };
    nought_within = v.nought_within;
  }

  run-IsCentred :
      (s : Pid R) (cs : List (Command R)) → All AroundNought cs → IsCentred s → IsCentred (run s cs)
  unfolding run
  run-IsCentred s [] f v = v
  run-IsCentred s (c ∷ cs) (f, fs) v = run-IsCentred (step s c) cs fs (step-IsCentred s c f v)

  -- Whatever is done with a new PID whose boundaries are in order around nought, and are changed only to
  -- such ones, its output and its integral term are never outside of the boundaries in force.
  pub run-IsLimited :
      (g p i d target lo hi : R) (auto reversed : Bool) (cs : List (Command R))
      → y.less hi lo ≡ false
      → IsWithin lo hi nought
      → All AroundNought cs
      → IsLimited (run (create g p i d target lo hi auto reversed) cs)
  unfolding create
  run-IsLimited g p i d target lo hi auto reversed cs o w f =
      let v = run-IsCentred (create g p i d target lo hi auto reversed) cs f (
        set_gains-IsCentred p i d _
          (record { limited = record { order = o; output = w; i_term = w }; nought_within = w })) in
      v.limited
