-- ===== src/Wlq/Pool/Tests.antt =====
-- Tests of the pool of workers.
use elastic_ppq.Common.{◌≡◌, refl, true, false, [], ◌∷◌, none, some}
use elastic_ppq.Wlq.Pool.{
  Pool, is_idle, find_idle, count_idle, select_idle_worker, get_num_idle_workers, deactivate,
  remove_workers, wake_all, check_termination,
}

-- three workers, of which the last one is not activated
abbrev three : Pool
three = record {
  nw_wlq = 2;
  last_w = 1;
  worker_ready = true ∷ true ∷ true ∷ [];
  activated_worker = true ∷ true ∷ false ∷ [];
  n_ready_workers = 3;
}

-- The search goes on from the first worker.
select_idle_worker-three :
    (select_idle_worker 3 three ≡ some (record three { last_w = 0 }, 0))
    × (get_num_idle_workers 3 three ≡ 2)
unfolding select_idle_worker get_num_idle_workers find_idle count_idle is_idle
select_idle_worker-three = (refl, refl)

-- A worker that is not activated cannot be removed, and at the end all are activated.
remove_workers-three :
    (remove_workers 1 (2 ∷ []) three ≡ none)
    × (check_termination 3 3 0 three
        ≡ (record three { activated_worker = true ∷ true ∷ true ∷ [] }, true))
unfolding remove_workers deactivate check_termination wake_all
remove_workers-three = (refl, refl)
