-- ===== src/Controller/Tests.antt =====
-- Tests of the controller on a machine with four cores for workers.
use elastic_ppq.Common.{ℕ, ◌≡◌, refl, false, List, [], ◌∷◌, map, Option, none, some, arith}
use elastic_ppq.Plq.Sched.{first_activated}
use elastic_ppq.Wlq.Pool.{last_activated}
use elastic_ppq.Controller.{
  Owner, Resource, Machine, first_owner, create_row, create_rows, create_pool, same_owner,
  set_owner, acquire_from, acquire_resources, find_least, release_resources, Reconf, add_if,
  get_reconf, Controller, control_step,
}
use elastic_ppq.Controller.Agree.{CanObey, obey}
use elastic_ppq.Controller.Steps.{IsAgreed, control_step-IsAgreed}
use elastic_ppq.Controller.Start.{start, start-IsAgreed}

abbrev machine : Machine
machine = record { threads = 4; cores = 4; start_idx = 6; context_offset = 16; core_offset = 1 }

-- Two threads on each core, which take all contexts behind the cores for the WLQ.
abbrev two_threads : Machine
two_threads = record machine { threads = 8 }

abbrev owners : List Resource → List Owner
owners pool = map (λ r. r.owner) pool

owners-machine :
    owners (create_pool machine 1 2) ≡ Owner.plq ∷ Owner.no_owner ∷ Owner.wlq ∷ Owner.wlq ∷ []
unfolding create_pool create_rows create_row first_owner
owners-machine = refl

-- Six resources count as the WLQ's, where its degree is 2.
owners-two_threads :
    owners (create_pool two_threads 1 2)
    ≡ Owner.plq ∷ Owner.no_owner ∷ Owner.wlq ∷ Owner.wlq ∷ Owner.wlq ∷ Owner.wlq ∷ Owner.wlq
      ∷ Owner.wlq ∷ []
unfolding create_pool create_rows create_row first_owner
owners-two_threads = refl

abbrev queues : ℕ → ℕ → ℕ
queues i k = 3

abbrev reconfs : Option (Controller × Reconf × Reconf) → Reconf × Reconf
reconfs none = (Reconf.no_reconf, Reconf.no_reconf)
reconfs (some r) = (r.1, r.2)

-- The PLQ gets the free resource and no more, and the WLQ gives back its first one.
control_step-reconfs :
    reconfs (control_step queues queues (3, 1) false (start machine 1 2))
    ≡ (Reconf.add (1 ∷ []), Reconf.remove (2 ∷ []))
unfolding control_step get_reconf acquire_resources acquire_from add_if release_resources find_least
    same_owner set_owner create_pool create_rows create_row first_owner
control_step-reconfs = refl

start-IsAgreed_example : IsAgreed (start machine 1 2) (first_activated 4 1) (last_activated 4 2)
start-IsAgreed_example = start-IsAgreed machine 1 2 (omega arith) refl (omega arith)

control_step-IsAgreed_example :
    (c : Controller) × (p : Reconf) × (q : Reconf) × (control_step queues queues
        (3, 1)
        false
        (start machine 1 2)
      ≡ some (c, p, q))
    × CanObey p (first_activated 4 1)
    × CanObey q (last_activated 4 2)
    × IsAgreed c (obey p (first_activated 4 1)) (obey q (last_activated 4 2))
control_step-IsAgreed_example =
    control_step-IsAgreed queues queues (3, 1) false (start machine 1 2) (first_activated 4 1)
      (last_activated 4 2) (λ i k. omega arith) (λ i k. omega arith)
      (start-IsAgreed machine 1 2 (omega arith) refl (omega arith))
