-- ===== src/Tasks/Recovery.antt =====
-- The recovery of lost tasks in store.rs, `fail_lost_tasks_matching_excluding_with`. Each call in its
-- loop is a transaction of its own, so that what was done before an error stays.
use codex_background_task_ha.Base.{
  ℕ, suc, Bool, true, false, ◌&&◌, ◌||◌, Option, none, some, List, [], ◌∷◌, ltb, ◌==◌, is_some,
  coalesce, or_else, find_where, select_where, order_by, if◌then◌else◌, not, Result, ok, err, ◌>>=◌,
}
use codex_background_task_ha.Models.{
  JobRecord, TaskRecord, TaskFinishUpdate, JobStatus, TaskEnd, is_live_task,
}
use codex_background_task_ha.Store.Jobs.{fail_job}
use codex_background_task_ha.Tasks.{Supervision, supervisor_generation_matches_recovery_owners}
use codex_background_task_ha.Tasks.Reasons.{task_status_from_failure_reason}
use codex_background_task_ha.Tasks.Calls.{
  finish_task, clamp_redelivery_window_seconds_for_timestamp,
}

-- What the recovery takes from its surroundings: the texts that it writes, the bytes of texts, and
-- the identifier that `new_id` returns for the batch of a job.
pub record RecoveryEnv : Type 0 where
  pub bytes : ℕ → List ℕ
  pub task_cancelled : ℕ
  pub task_supervisor_lost : ℕ
  pub job_failed_before_restart : ℕ
  pub stdout_log_path : ℕ → ℕ
  pub stderr_log_path : ℕ → ℕ
  pub new_id : ℕ → ℕ

pub record LostTaskRecovery : Type 0 where
  pub task_id : ℕ
  pub job_id : ℕ
  pub job_status : JobStatus
  pub job_completed_at : Option ℕ
  pub job_failed_at : Option ℕ
  pub job_failure_reason : Option ℕ
  pub max_delivery_attempts : ℕ
  pub redelivery_window_seconds : ℕ
  pub cancel_requested_at : Option ℕ
  pub supervisor_daemon_generation : Option ℕ

unfoldable pub lost_row : TaskRecord → JobRecord → LostTaskRecovery
lost_row t j = record {
  task_id = t.task_id;
  job_id = t.job_id;
  job_status = j.status;
  job_completed_at = j.completed_at;
  job_failed_at = j.failed_at;
  job_failure_reason = j.failure_reason;
  max_delivery_attempts = t.max_delivery_attempts;
  redelivery_window_seconds = t.redelivery_window_seconds;
  cancel_requested_at = t.cancel_requested_at;
  supervisor_daemon_generation = t.supervisor_daemon_generation;
}

-- ORDER BY created_at ASC, task_id ASC.
abbrev pub is_earlier : TaskRecord → TaskRecord → Bool
is_earlier t u =
    ltb t.created_at u.created_at || t.created_at == u.created_at && ltb t.task_id u.task_id

-- The join with `jobs`. A job's status is always one of the three that the query asks for.
unfoldable pub join_job : List JobRecord → List TaskRecord → List LostTaskRecovery
unfolding lost_row
join_job jobs [] = []
join_job jobs (t ∷ ts) =
    let rest = join_job jobs ts in
    elim (find_where (λ j. j.job_id == t.job_id) jobs) [
      | none ↦ rest
      | some j ↦ lost_row t j ∷ rest
    ]

unfoldable pub lost_tasks : Supervision → List LostTaskRecovery
unfolding join_job
lost_tasks s =
    join_job s.store.jobs (order_by is_earlier (select_where (λ t. is_live_task t.status) s.tasks))

module _ (e : RecoveryEnv) where
  -- The end of a lost task, with its log files and no output.
  abbrev pub ending : ℕ → TaskEnd → ℕ → Option ℕ → Option ℕ → TaskFinishUpdate
  ending task_id status completed_at exit_code reason = record {
    task_id = task_id;
    status = status;
    completed_at = completed_at;
    exit_code = exit_code;
    signal = none;
    failure_reason = reason;
    stdout_log_path = some (e.stdout_log_path task_id);
    stderr_log_path = some (e.stderr_log_path task_id);
    stdout_bytes = 0;
    stderr_bytes = 0;
    stdout_truncated = false;
    stderr_truncated = false;
  }

  abbrev pub lost_end : LostTaskRecovery → TaskEnd
  lost_end t = if is_some t.cancel_requested_at then TaskEnd.cancelled else TaskEnd.lost

  abbrev pub lost_reason : LostTaskRecovery → ℕ
  lost_reason t = if is_some t.cancel_requested_at then e.task_cancelled else e.task_supervisor_lost

  abbrev pub failed_reason : LostTaskRecovery → ℕ
  failed_reason t = coalesce t.job_failure_reason e.job_failed_before_restart

  -- How the row of a lost task ends, by the status of its job.
  unfoldable pub lost_update : ℕ → LostTaskRecovery → TaskFinishUpdate
  lost_update now t = elim t.job_status [
    | JobStatus.pending ↦ ending t.task_id (lost_end t) now none (some (lost_reason t))
    | JobStatus.completed ↦
        ending t.task_id TaskEnd.succeeded (coalesce t.job_completed_at now) (some 0) none
    | JobStatus.failed ↦
        ending t.task_id
          (coalesce (task_status_from_failure_reason (e.bytes (failed_reason t))) TaskEnd.failed)
          (coalesce (or_else t.job_failed_at t.job_completed_at) now) none (some (failed_reason t))
  ]

  -- A state and how a call on it went; the state of a failed call is what was committed before.
  abbrev pub Outcome : Type 0 → Type 0
  Outcome A = Supervision × Result A

  -- The transaction of `fail_job`.
  unfoldable pub fail_lost_job : ℕ → Supervision → LostTaskRecovery → Outcome (Unit {0})
  unfolding clamp_redelivery_window_seconds_for_timestamp
  fail_lost_job now s t = elim t.job_status [
    | JobStatus.pending ↦
        elim (fail_job (e.new_id t.job_id) s.store t.job_id (lost_reason t) now
          t.max_delivery_attempts
          (clamp_redelivery_window_seconds_for_timestamp now t.redelivery_window_seconds)) [
            | ok p ↦ (record s { store = p.0 }, ok tt)
            | err x ↦ (s, err x)
          ]
    | _ ↦ (s, ok tt)
  ]

  -- The transaction of `finish_task` after it.
  unfoldable pub finish_lost_task : ℕ → Outcome (Unit {0}) → LostTaskRecovery → Outcome (Unit {0})
  unfolding lost_update
  finish_lost_task now (s, ok _) t = elim (finish_task s (lost_update now t)) [
    | ok p ↦ (p.0, ok tt)
    | err x ↦ (s, err x)
  ]
  finish_lost_task now (s, err x) t = (s, err x)

  unfoldable pub recover_task : ℕ → Supervision → LostTaskRecovery → Outcome (Unit {0})
  unfolding fail_lost_job finish_lost_task
  recover_task now s t = finish_lost_task now (fail_lost_job now s t) t

  module _ (matches_generation : Option ℕ → Bool) (is_active : ℕ → Result Bool) (now : ℕ) where
    -- The two tests that pass a task over.
    unfoldable pub is_chosen : LostTaskRecovery → Result Bool
    is_chosen t =
        if matches_generation t.supervisor_daemon_generation
        then (do active ← is_active t.task_id; ok (not active))
        else ok false

    -- The loop; `recovered` counts the tasks that were ended.
    unfoldable pub recover_tasks : List LostTaskRecovery → ℕ → Supervision → Outcome ℕ
    unfolding recover_task is_chosen
    recover_tasks [] recovered s = (s, ok recovered)
    recover_tasks (t ∷ ts) recovered s = elim (is_chosen t) [
      | err x ↦ (s, err x)
      | ok chosen ↦ elim chosen [
        | false ↦ recover_tasks ts recovered s
        | true ↦
            (let (s', r) = recover_task now s t in
              elim r [ ok _ ↦ recover_tasks ts (suc recovered) s' | err x ↦ (s', err x) ])
      ]
    ]

    unfoldable pub fail_lost_tasks_matching_excluding_with : Supervision → Outcome ℕ
    unfolding recover_tasks lost_tasks
    fail_lost_tasks_matching_excluding_with s = recover_tasks (lost_tasks s) 0 s

  unfoldable pub fail_lost_tasks_for_recovery_owners_excluding_with :
      Supervision → ℕ → Bool → (ℕ → Bool) → (ℕ → Result Bool) → Outcome ℕ
  unfolding fail_lost_tasks_matching_excluding_with supervisor_generation_matches_recovery_owners
  fail_lost_tasks_for_recovery_owners_excluding_with s now include_unowned owners is_active =
      fail_lost_tasks_matching_excluding_with
        (λ g. supervisor_generation_matches_recovery_owners g include_unowned owners) is_active now
        s
