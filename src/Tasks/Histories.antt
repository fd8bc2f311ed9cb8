-- ===== src/Tasks/Histories.antt =====
-- Histories of calls on supervised tasks, between calls of the delivery core.
use codex_background_task_ha.Base.{ℕ, Bool, Option, List, [], ◌∷◌, Result, ok, err}
use codex_background_task_ha.Models.{NewJob, NewTask, TaskFinishUpdate}
use codex_background_task_ha.Delivery.Calls.{Env, Call, step, empty_store}
use codex_background_task_ha.Tasks.{Supervision}
use codex_background_task_ha.Tasks.Calls.{
  create_task_with_job_for_supervisor_generation, delete_unstarted_task_with_job, mark_task_started,
  request_task_cancel, finish_task, fail_supervised_task_with_job,
}
use codex_background_task_ha.Tasks.Recovery.{RecoveryEnv, fail_lost_tasks_matching_excluding_with}

pub data TaskCall : Type 0 where
  delivery : Call → TaskCall
  create : NewJob → NewTask → (generation : Option ℕ) → TaskCall
  delete_unstarted : (task job : ℕ) → TaskCall
  start : (task pid : ℕ) → (identity : Option ℕ) → (now : ℕ) → TaskCall
  cancel : (task now : ℕ) → TaskCall
  finish : TaskFinishUpdate → TaskCall
  fail_supervised : (id job reason : ℕ) → TaskFinishUpdate → (attempts window : ℕ) → TaskCall
  -- the recovery, with the daemon's test of a generation and its answers on active tasks
  recover : (Option ℕ → Bool) → (ℕ → Result Bool) → (now : ℕ) → TaskCall

-- A call that fails leaves everything as it was.
abbrev pub keep {ℓ} : {A : Type ℓ} → Supervision → Result (Supervision × A) → Supervision
keep s (ok p) = p.0
keep s (err x) = s

abbrev pub keep_state : Supervision → Result Supervision → Supervision
keep_state s (ok t) = t
keep_state s (err x) = s

module _ (e : Env) (r : RecoveryEnv) where
  unfoldable pub supervise : Supervision → TaskCall → Supervision
  supervise s (delivery c) = record s { store = step e s.store c }
  supervise s (create j t generation) =
      keep s (create_task_with_job_for_supervisor_generation s j t generation)
  supervise s (delete_unstarted task job) = keep_state s (delete_unstarted_task_with_job s task job)
  supervise s (start task pid identity now) = keep s (mark_task_started s task pid identity now)
  supervise s (cancel task now) = keep s (request_task_cancel s task now)
  supervise s (finish u) = keep s (finish_task s u)
  supervise s (fail_supervised id job reason u attempts window) =
      keep_state s (fail_supervised_task_with_job r.bytes id s job reason u attempts window)
  supervise s (recover matches_generation is_active now) =
      (fail_lost_tasks_matching_excluding_with r matches_generation is_active now s).0

  unfoldable pub supervise_all : Supervision → List TaskCall → Supervision
  unfolding supervise
  supervise_all s [] = s
  supervise_all s (c ∷ cs) = supervise_all (supervise s c) cs

-- A new database.
abbrev pub no_tasks : Supervision
no_tasks = record { store = empty_store; tasks = [] }
