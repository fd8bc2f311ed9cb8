-- ===== src/Tasks/Owners.antt =====
-- The calls of store.rs that recover the lost tasks of all owners, of none, or of one, each in terms
-- of the general call; and `create_task_with_job`, which has no owner.
use codex_background_task_ha.Base.{ℕ, Bool, true, false, none, List, column_eq, is_none, Result, ok}
use codex_background_task_ha.Models.{JobRecord, TaskRecord, NewJob, NewTask, LostPendingTaskProcess}
use codex_background_task_ha.Tasks.{Supervision, lost_pending_task_processes_matching}
use codex_background_task_ha.Tasks.Calls.{create_task_with_job_for_supervisor_generation}
use codex_background_task_ha.Tasks.Recovery.{
  RecoveryEnv, Outcome, fail_lost_tasks_matching_excluding_with,
}

unfoldable pub create_task_with_job :
    Supervision → NewJob → NewTask → Result (Supervision × (JobRecord × TaskRecord))
unfolding create_task_with_job_for_supervisor_generation
create_task_with_job s j t = create_task_with_job_for_supervisor_generation s j t none

unfoldable pub lost_pending_task_processes : Supervision → Result (List LostPendingTaskProcess)
unfolding lost_pending_task_processes_matching
lost_pending_task_processes s = lost_pending_task_processes_matching s (λ _. true)

unfoldable pub lost_pending_task_processes_without_supervisor_generation :
    Supervision → Result (List LostPendingTaskProcess)
unfolding lost_pending_task_processes_matching
lost_pending_task_processes_without_supervisor_generation s =
    lost_pending_task_processes_matching s is_none

unfoldable pub lost_pending_task_processes_for_supervisor_generation :
    Supervision → ℕ → Result (List LostPendingTaskProcess)
unfolding lost_pending_task_processes_matching
lost_pending_task_processes_for_supervisor_generation s generation =
    lost_pending_task_processes_matching s (λ g. column_eq g generation)

module _ (e : RecoveryEnv) where
  unfoldable pub fail_lost_tasks_excluding_with : Supervision → ℕ → (ℕ → Result Bool) → Outcome e ℕ
  unfolding fail_lost_tasks_matching_excluding_with
  fail_lost_tasks_excluding_with s now is_active =
      fail_lost_tasks_matching_excluding_with e (λ _. true) is_active now s

  unfoldable pub fail_lost_tasks_excluding : Supervision → ℕ → (ℕ → Bool) → Outcome e ℕ
  unfolding fail_lost_tasks_excluding_with
  fail_lost_tasks_excluding s now active = fail_lost_tasks_excluding_with s now (λ k. ok (active k))

  unfoldable pub fail_lost_tasks : Supervision → ℕ → Outcome e ℕ
  unfolding fail_lost_tasks_excluding
  fail_lost_tasks s now = fail_lost_tasks_excluding s now (λ _. false)

  unfoldable pub fail_lost_tasks_without_supervisor_generation_excluding_with :
      Supervision → ℕ → (ℕ → Result Bool) → Outcome e ℕ
  unfolding fail_lost_tasks_matching_excluding_with
  fail_lost_tasks_without_supervisor_generation_excluding_with s now is_active =
      fail_lost_tasks_matching_excluding_with e is_none is_active now s

  unfoldable pub fail_lost_tasks_for_supervisor_generation_excluding_with :
      Supervision → ℕ → ℕ → (ℕ → Result Bool) → Outcome e ℕ
  unfolding fail_lost_tasks_matching_excluding_with
  fail_lost_tasks_for_supervisor_generation_excluding_with s now generation is_active =
      fail_lost_tasks_matching_excluding_with e (λ g. column_eq g generation) is_active now s
