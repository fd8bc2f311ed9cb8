-- ===== src/Tasks/Preserve.antt =====
-- The recovery of lost tasks and histories keep the invariant.
use codex_background_task_ha.Base.{ℕ, refl, List, [], ◌∷◌, Result, ok, err, Post}
use codex_background_task_ha.Models.{JobStatus, is_active, JobRecord, TaskRecord, BatchRecord}
use codex_background_task_ha.Store.{Store}
use codex_background_task_ha.Store.Jobs.{fail_job}
use codex_background_task_ha.Delivery.Moves.{Moves}
use codex_background_task_ha.Delivery.Refine.Jobs.{fail_job-Moves}
use codex_background_task_ha.Delivery.Calls.{Env, step}
use codex_background_task_ha.Delivery.Histories.{step-Moves, empty-Inv}
use codex_background_task_ha.Tasks.Histories.{
  TaskCall, keep, keep_state, supervise, supervise_all, no_tasks,
}
use codex_background_task_ha.Tasks.Loop.{recovery_keeps}
use codex_background_task_ha.Tasks.{Supervision}
use codex_background_task_ha.Tasks.Calls.{
  finish_task, clamp_redelivery_window_seconds_for_timestamp,
}
use codex_background_task_ha.Tasks.Recovery.{
  RecoveryEnv, LostTaskRecovery, lost_reason, lost_update, Outcome, fail_lost_job, finish_lost_task,
  recover_task,
}
use codex_background_task_ha.Tasks.Invariant.{TaskInv}
use codex_background_task_ha.Tasks.Upkeep.{
  Moves-TaskInv, start-TaskInv, cancel-TaskInv, finish-TaskInv, create-TaskInv, delete-TaskInv,
  fail_supervised-TaskInv,
}

-- The recovery keeps the invariant also where it fails on the way.
module _ (e : RecoveryEnv) where
  fail_lost-TaskInv :
      (now : ℕ) (s : Supervision) (t : LostTaskRecovery)
      → TaskInv s
      → TaskInv (fail_lost_job e now s t).0
  unfolding fail_lost_job
  fail_lost-TaskInv now s t v = go t.job_status
    where
      inner :
          (m : Result (Store × BatchRecord))
          → Post m (λ p. Moves s.store p.0)
          → TaskInv
              (elim m as (λ _. Outcome e (Unit {0})) [
                | ok p ↦ (record s { store = p.0 }, ok tt)
                | err x ↦ (s, err x)
              ]).0
      inner (ok p) h = Moves-TaskInv s p.0 v (h p refl)
      inner (err x) h = v

      go :
          (st : JobStatus)
          → TaskInv
              (elim st as (λ _. Outcome e (Unit {0})) [
                | JobStatus.pending ↦
                    elim (fail_job
                      (e.new_id t.job_id)
                      s.store
                      t.job_id
                      (lost_reason e t)
                      now
                      t.max_delivery_attempts
                      (clamp_redelivery_window_seconds_for_timestamp now
                        t.redelivery_window_seconds)) [
                          | ok p ↦ (record s { store = p.0 }, ok tt)
                          | err x ↦ (s, err x)
                        ]
                | _ ↦ (s, ok tt)
              ]).0
      go JobStatus.pending = inner _ (
          fail_job-Moves (e.new_id t.job_id) s.store t.job_id (lost_reason e t) now
            t.max_delivery_attempts
            (clamp_redelivery_window_seconds_for_timestamp now t.redelivery_window_seconds)
            v.core.jobs_keyed)
      go JobStatus.completed = v
      go JobStatus.failed = v

  finish_lost-TaskInv :
      (now : ℕ) (o : Outcome e (Unit {0})) (t : LostTaskRecovery)
      → TaskInv o.0
      → TaskInv (finish_lost_task e now o t).0
  unfolding finish_lost_task
  finish_lost-TaskInv now (s, ok _) t v =
      go (finish_task s (lost_update e now t)) (finish-TaskInv s v (lost_update e now t))
    where
      go :
          (m : Result (Supervision × TaskRecord))
          → Post m (λ p. TaskInv p.0)
          → TaskInv
              (elim m as (λ _. Outcome e (Unit {0})) [ ok p ↦ (p.0, ok tt) | err x ↦ (s, err x) ]).0
      go (ok p) h = h p refl
      go (err x) h = v
  finish_lost-TaskInv now (s, err x) t v = v

  pub recover_task-TaskInv :
      (now : ℕ) (s : Supervision) (t : LostTaskRecovery)
      → TaskInv s
      → TaskInv (recover_task e now s t).0
  unfolding recover_task
  recover_task-TaskInv now s t v =
      finish_lost-TaskInv now (fail_lost_job e now s t) t (fail_lost-TaskInv now s t v)

module _ (e : Env) (r : RecoveryEnv) where
  keep-TaskInv :
      {A : Type 0} (s : Supervision) (m : Result (Supervision × A))
      → TaskInv s
      → Post m (λ p. TaskInv p.0)
      → TaskInv (keep s m)
  keep-TaskInv s (ok p) v h = h p refl
  keep-TaskInv s (err x) v h = v

  keep_state-TaskInv :
      (s : Supervision) (m : Result Supervision)
      → TaskInv s
      → Post m TaskInv
      → TaskInv (keep_state s m)
  keep_state-TaskInv s (ok t) v h = h t refl
  keep_state-TaskInv s (err x) v h = v

  pub supervise-TaskInv : (s : Supervision) (c : TaskCall) → TaskInv s → TaskInv (supervise e r s c)
  unfolding supervise
  supervise-TaskInv s (TaskCall.delivery c) v =
      Moves-TaskInv s (step e s.store c) v (step-Moves e s.store c v.core)
  supervise-TaskInv s (TaskCall.create j t generation) v =
      keep-TaskInv {A = JobRecord × TaskRecord} s _ v (create-TaskInv s v j t generation)
  supervise-TaskInv s (TaskCall.delete_unstarted task job) v =
      keep_state-TaskInv s _ v (delete-TaskInv s v task job)
  supervise-TaskInv s (TaskCall.start task pid identity now) v =
      keep-TaskInv s _ v (start-TaskInv s v task pid identity now)
  supervise-TaskInv s (TaskCall.cancel task now) v =
      keep-TaskInv s _ v (cancel-TaskInv s v task now)
  supervise-TaskInv s (TaskCall.finish u) v = keep-TaskInv s _ v (finish-TaskInv s v u)
  supervise-TaskInv s (TaskCall.fail_supervised id job reason u attempts window) v =
      keep_state-TaskInv s _ v (fail_supervised-TaskInv s v r.bytes id job reason u attempts window)
  supervise-TaskInv s (TaskCall.recover matches_generation is_active now) v =
      recovery_keeps r matches_generation is_active now TaskInv (recover_task-TaskInv r now) s v

  pub supervise_all-TaskInv :
      (s : Supervision) (cs : List TaskCall) → TaskInv s → TaskInv (supervise_all e r s cs)
  unfolding supervise_all
  supervise_all-TaskInv s [] v = v
  supervise_all-TaskInv s (c ∷ cs) v =
      supervise_all-TaskInv (supervise e r s c) cs (supervise-TaskInv s c v)

  -- Every history of calls on tasks, between calls of the delivery core, on a new database leaves
  -- well-formed tables: those of the delivery core, unique keys of tasks, one task for a job, a job
  -- for every task, and a time of completion on exactly the tasks that are neither queued nor
  -- running.
  pub run-TaskInv : (cs : List TaskCall) → TaskInv (supervise_all e r no_tasks cs)
  run-TaskInv cs =
      supervise_all-TaskInv no_tasks cs
        (record { core = empty-Inv; ids = tt; jobs = tt; owned = tt; ends = tt })
