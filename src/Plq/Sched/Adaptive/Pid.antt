-- ===== src/Plq/Sched/Adaptive/Pid.antt =====
-- `class Adaptive_Sched_PID` of include/sched_plq.hpp: the threshold of a split is corrected by a factor
-- that a PID controls. The utilization that it reads, `computePLQRho` of statistics of the threads, is an
-- argument, and so are the two readings of the clock; `low` and `high` are the bounds 0.1 and 20.
use elastic_ppq.Common.{
  ℕ, ◌+◌, ◌-◌, ◌%◌, ◌^◌, ◌<◌, ◌≤◌, ◌≡◌, refl, inl, inr, Bool, true, false, ◌||◌, List, [], ◌∷◌,
  ◌++◌, Option, none, some, get_or, set, replicate, leb, and_then, Bool-cases, if◌then◌else◌,
}
use elastic_ppq.Double.{Double, Real}
use elastic_ppq.Message.{Tuple, Kind}
use elastic_ppq.Pid.{Pid, set_input, process}
use elastic_ppq.Pid.Limits.{IsIrreflexive, IsWithin}
use elastic_ppq.Plq.Sched.Adaptive
use elastic_ppq.Plq.Sched.Adaptive.{Adaptive, Stats, sched_by}
use elastic_ppq.Plq.Sched.Adaptive.Sound.{IsSound}
use elastic_ppq.Plq.Sched.Adaptive.Scheduling.{sched_by-IsSound}

pub record AdaptivePid (R : Type 0) : Type 0 where
  pub sched : Adaptive R
  pub pid : Pid R
  pub alpha : R
  pub pid_tuples : List ℕ
  pub pid_punc : ℕ
  pub last_sample : ℕ

-- the worker of the last of some messages, the tuple's
unfoldable pub last_target : {W : Type 0} → List (ℕ × Tuple W) → Option ℕ
last_target [] = none
last_target ((w, t) ∷ []) = some w
last_target (m ∷ (n ∷ l)) = last_target (n ∷ l)

unfoldable pub count_at : Option ℕ → List ℕ → List ℕ
count_at none l = l
count_at (some w) l = set l w (get_or l w 0 + 1)

module _ {R : Type 0} ⦃y : Real R⦄ (low high : R) where
  unfoldable pub bound_alpha : R → R
  bound_alpha a = if y.less a low then low else if y.less high a then high else a

  -- a sample: the PID makes a new output, and the snapshot starts anew
  unfoldable pub sample : ℕ → R → ℕ → AdaptivePid R → AdaptivePid R
  sample num rho now s =
      let p = (process (set_input rho s.pid)).0 in
      record s {
        last_sample = now;
        pid = p;
        alpha = bound_alpha (y.plus s.alpha p.output);
        pid_tuples = replicate num 0;
        pid_punc = 0;
      }

  unfoldable pub sample_if : Bool → ℕ → R → ℕ → AdaptivePid R → AdaptivePid R
  sample_if true num rho now s = sample num rho now s
  sample_if false num rho now s = s

  unfoldable pub is_below : R → ℕ → Stats R → Bool
  is_below alpha a_tuples m =
      y.le (y.of_nat a_tuples) (y.times (y.over (y.of_nat 1) alpha) (y.plus m.avg_size m.std_size))
      || m.warmup

  module _ {W : Type 0} ⦃o : Double W⦄ (usecs : ℕ → ℕ) (sampling : ℕ) where
    unfoldable pub sched_to_worker :
        ℕ
        → (ℕ → ℕ)
        → R
        → (ℕ → ℕ)
        → Tuple W
        → AdaptivePid R
        → Option (AdaptivePid R × List (ℕ × Tuple W))
    sched_to_worker num queue rho ticks t s' =
        let due = leb sampling (usecs ((ticks 0 + 2 ^ 64 - s'.last_sample) % 2 ^ 64)) in
        let s = sample_if due num rho (ticks 1) s' in
        and_then (sched_by num queue (is_below s.alpha) t s.sched) (λ r.
          some
            (record s { sched = r.0; pid_tuples = count_at (last_target r.1) s.pid_tuples }, r.1))

    unfoldable pub execute_stream_progress :
        ℕ → ℕ → ℕ → AdaptivePid R → Option (AdaptivePid R × List (ℕ × Tuple W))
    execute_stream_progress num ts p_id s =
        and_then (Adaptive.execute_stream_progress num ts p_id s.sched)
          (λ r. some (record s { sched = r.0; pid_punc = s.pid_punc + 1 }, r.1))

  module _ (laws : IsIrreflexive R) where
    sample_if-IsWithin :
        (due : Bool) (num : ℕ) (rho : R) (now : ℕ) (s : AdaptivePid R)
        → y.less high low ≡ false
        → IsWithin low high s.alpha
        → IsWithin low high (sample_if due num rho now s).alpha
          × ((sample_if due num rho now s).sched ≡ s.sched)
    unfolding sample_if sample bound_alpha
    sample_if-IsWithin false num rho now s order v = (v, refl)
    sample_if-IsWithin true num rho now s order v =
        (bounded (y.plus s.alpha (process (set_input rho s.pid)).0.output), refl)
      where
        bounded :
            (a : R)
            → IsWithin low high (if y.less a low then low else if y.less high a then high else a)
        bounded a = elim (Bool-cases (y.less a low)) [
          | inl h ↦ rw h (record { below = order; above = laws.less_irrefl low })
          | inr h ↦ elim (Bool-cases (y.less high a)) [
            | inl k ↦ rw h (rw k (record { below = laws.less_irrefl high; above = order }))
            | inr k ↦ rw h (rw k (record { below = k; above = h }))
          ]
        ]

    -- With an activated worker, the scheduler that a PID corrects does not abort either on a tuple of an
    -- open pane, whatever the PID says: the factor stays between its bounds, and every holder of an open
    -- pane is activated and was told last how many instances the pane has, if it was so before.
    pub sched_to_worker_lem :
        {W : Type 0} ⦃o : Double W⦄ (usecs : ℕ → ℕ) (sampling num w : ℕ) (queue : ℕ → ℕ) (rho : R)
        (ticks : ℕ → ℕ) (t : Tuple W) (s : AdaptivePid R) (hist : List (ℕ × Tuple W))
        → y.less high low ≡ false
        → IsWithin low high s.alpha
        → IsSound num s.sched hist
        → w < num
        → get_or s.sched.base.activated_worker w false ≡ true
        → ((i : ℕ) → queue i < 2 ^ 64 - 1)
        → t.kind ≡ Kind.regular
        → s.sched.base.next_pane_id ≤ t.pane_id
        → (r : AdaptivePid R × List (ℕ × Tuple W)) × (sched_to_worker usecs sampling num queue rho
              ticks t s
            ≡ some r)
          × IsWithin low high r.0.alpha
          × IsSound num r.0.sched (hist ++ r.1)
    unfolding sched_to_worker
    sched_to_worker_lem usecs sampling num w queue rho ticks t s hist order v sound lt act short k
          ge =
        let due = leb sampling (usecs ((ticks 0 + 2 ^ 64 - s.last_sample) % 2 ^ 64)) in
        let z = sample_if due num rho (ticks 1) s in
        let (within, same) = sample_if-IsWithin due num rho (ticks 1) s order v in
        let (r, f, x) =
          sched_by-IsSound num w queue (is_below z.alpha) t s.sched hist sound lt act short k ge in
        (
          (record z { sched = r.0; pid_tuples = count_at (last_target r.1) z.pid_tuples }, r.1),
          rw same (rw f refl),
          within,
          x,
        )
