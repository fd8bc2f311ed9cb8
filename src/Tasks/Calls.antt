-- ===== src/Tasks/Calls.antt =====
-- The calls of store.rs on one task: creation with its job, start, cancellation, end, deletion before
-- the start, and the failure of a task together with its job.
use codex_background_task_ha.Base.{
  ℕ, Bool, false, not, ◌&&◌, ◌||◌, Option, none, some, List, [], ◌∷◌, ◌++◌, ◌-◌, min, ◌==◌, is_none,
  if◌then◌else◌, coalesce, or_else, update_where, any_where, select_where, Error, Result, ok, ◌>>=◌,
  ◌>>◌, guard,
}
use codex_background_task_ha.Models.{
  JobRecord, TaskRecord, NewJob, NewTask, TaskFinishUpdate, JobStatus, TaskStatus, TaskEnd, ended,
  is_succeeded, is_pending, is_queued, background_job_failed, i64_max,
}
use codex_background_task_ha.Store.{Store, query_job_tx, checked_timestamp_add}
use codex_background_task_ha.Store.Batches.{insert_batch_tx}
use codex_background_task_ha.Store.Jobs.{new_job_row, fail_job_row, update_job}
use codex_background_task_ha.Tasks.{Supervision, query_task_tx}
use codex_background_task_ha.Tasks.Reasons.{task_status_from_failure_reason}

unfoldable pub new_task_row : NewTask → Option ℕ → TaskRecord
new_task_row t generation = record {
  task_id = t.task_id;
  job_id = t.job_id;
  source_thread_id = t.source_thread_id;
  status = TaskStatus.queued;
  summary = t.summary;
  command = t.command_json;
  cwd = t.cwd;
  timeout_seconds = t.timeout_seconds;
  max_delivery_attempts = t.max_delivery_attempts;
  redelivery_window_seconds = t.redelivery_window_seconds;
  pid = none;
  pid_identity = none;
  created_at = t.created_at;
  started_at = none;
  completed_at = none;
  exit_code = none;
  signal = none;
  failure_reason = none;
  stdout_log_path = none;
  stderr_log_path = none;
  stdout_bytes = 0;
  stderr_bytes = 0;
  stdout_truncated = false;
  stderr_truncated = false;
  cancel_requested_at = none;
  supervisor_daemon_generation = generation;
}

-- INSERT INTO tasks, under its keys; the job that the row refers to is there.
unfoldable pub insert_task : Supervision → TaskRecord → Result Supervision
insert_task s row = do
  guard (not (any_where (λ t. t.task_id == row.task_id) s.tasks)) Error.constraint
  guard (not (any_where (λ t. t.job_id == row.job_id) s.tasks)) Error.constraint
  ok (record s { tasks = s.tasks ++ row ∷ [] })

-- INSERT INTO jobs.
unfoldable pub insert_task_job : Store → NewJob → Option ℕ → Result Store
insert_task_job s j generation = do
  guard (not (any_where (λ r. r.job_id == j.job_id) s.jobs)) Error.constraint
  ok (record s { jobs = s.jobs ++ new_job_row j generation ∷ [] })

unfoldable pub create_task_with_job_for_supervisor_generation :
    Supervision → NewJob → NewTask → Option ℕ → Result (Supervision × (JobRecord × TaskRecord))
unfolding new_task_row insert_task insert_task_job
create_task_with_job_for_supervisor_generation s j t generation = do
  guard (j.job_id == t.job_id) Error.job_mismatch
  guard (j.source_thread_id == t.source_thread_id) Error.thread_mismatch
  with_job ← insert_task_job s.store j generation
  s' ← insert_task (record s { store = with_job }) (new_task_row t generation)
  job ← query_job_tx s'.store t.job_id
  task ← query_task_tx s' t.task_id
  ok (s', (job, task))

abbrev pub without {ℓ} : {A : Type ℓ} → (A → Bool) → List A → List A
without test xs = select_where (λ x. not (test x)) xs

-- DELETE FROM jobs, with what refers to the job.
unfoldable pub delete_job : Store → ℕ → Store
delete_job s k = record s {
  jobs = without (λ j. j.job_id == k) s.jobs;
  artifacts = without (λ f. f.job_id == k) s.artifacts;
  batch_jobs = without (λ l. l.job_id == k) s.batch_jobs;
  plugin_delivery_requests = without (λ p. p.job_id == k) s.plugin_delivery_requests;
}

-- Not started, not ended.
abbrev pub is_unstarted : TaskRecord → Bool
is_unstarted t = is_queued t.status && is_none t.started_at && is_none t.completed_at

abbrev pub is_unfinished : JobRecord → Bool
is_unfinished j = is_pending j.status && is_none j.completed_at && is_none j.failed_at

-- The tasks of the job go with it.
unfoldable pub delete_unstarted_task_with_job : Supervision → ℕ → ℕ → Result Supervision
unfolding delete_job
delete_unstarted_task_with_job s task_id job_id = do
  t ← query_task_tx s task_id
  guard (t.job_id == job_id) Error.task_attached_elsewhere
  guard (is_unstarted t) Error.task_not_unstarted
  j ← query_job_tx s.store job_id
  guard (is_unfinished j) Error.job_not_pending
  ok (record {
    store = delete_job s.store job_id;
    tasks = without (λ u. u.task_id == task_id || u.job_id == job_id) s.tasks;
  })

unfoldable pub ensure_task_not_terminal : TaskRecord → Result (Unit {0})
ensure_task_not_terminal t = guard (is_none t.completed_at) Error.task_terminal

unfoldable pub update_task : Supervision → ℕ → (TaskRecord → TaskRecord) → Supervision
update_task s k f = record s { tasks = update_where (λ t. t.task_id == k) f s.tasks }

-- Reading the row back after an update.
unfoldable pub task_reply : Supervision → ℕ → Result (Supervision × TaskRecord)
task_reply s k = do t ← query_task_tx s k; ok (s, t)

unfoldable pub start_row : ℕ → Option ℕ → ℕ → TaskRecord → TaskRecord
start_row pid identity now t = record t {
  status = TaskStatus.running;
  pid = some pid;
  pid_identity = identity;
  started_at = some (coalesce t.started_at now);
}

unfoldable pub mark_task_started :
    Supervision → ℕ → ℕ → Option ℕ → ℕ → Result (Supervision × TaskRecord)
unfolding ensure_task_not_terminal update_task task_reply start_row
mark_task_started s k pid identity now = do
  t ← query_task_tx s k
  ensure_task_not_terminal t
  task_reply (update_task s k (start_row pid identity now)) k

unfoldable pub cancel_row : ℕ → TaskRecord → TaskRecord
cancel_row now t = record t { cancel_requested_at = some (coalesce t.cancel_requested_at now) }

unfoldable pub request_task_cancel : Supervision → ℕ → ℕ → Result (Supervision × TaskRecord)
unfolding update_task task_reply cancel_row
request_task_cancel s k now = do
  t ← query_task_tx s k
  task_reply (if is_none t.completed_at then update_task s k (cancel_row now) else s) k

unfoldable pub finish_row : TaskFinishUpdate → TaskRecord → TaskRecord
finish_row u t = record t {
  status = ended u.status;
  completed_at = some u.completed_at;
  exit_code = u.exit_code;
  signal = u.signal;
  failure_reason = u.failure_reason;
  stdout_log_path = u.stdout_log_path;
  stderr_log_path = u.stderr_log_path;
  stdout_bytes = u.stdout_bytes;
  stderr_bytes = u.stderr_bytes;
  stdout_truncated = u.stdout_truncated;
  stderr_truncated = u.stderr_truncated;
}

unfoldable pub finish_task : Supervision → TaskFinishUpdate → Result (Supervision × TaskRecord)
unfolding ensure_task_not_terminal update_task task_reply finish_row
finish_task s u = do
  t ← query_task_tx s u.task_id
  ensure_task_not_terminal t
  task_reply (update_task s u.task_id (finish_row u)) u.task_id

-- `i64::MAX.saturating_sub(now)`.
unfoldable pub clamp_redelivery_window_seconds_for_timestamp : ℕ → ℕ → ℕ
clamp_redelivery_window_seconds_for_timestamp now window = min window (i64_max - now)

-- A pending job fails, and its batch is queued. `id` is what `new_id` returns.
unfoldable pub fail_pending_job :
    ℕ → Store → ℕ → ℕ → ℕ → ℕ → ℕ → JobRecord → Result (Store × JobRecord)
unfolding clamp_redelivery_window_seconds_for_timestamp
fail_pending_job id s k reason now max_delivery_attempts window j =
    if is_pending j.status
    then (do
      let failed_ = update_job s k (fail_job_row reason now)
      i ← query_job_tx failed_ k
      redelivery_window_ends_at ←
          checked_timestamp_add now (clamp_redelivery_window_seconds_for_timestamp now window)
      s' ←
          insert_batch_tx failed_
            (record {
              batch_id = id;
              source_thread_id = i.source_thread_id;
              summary = background_job_failed reason;
              created_at = now;
              redelivery_window_ends_at = redelivery_window_ends_at;
              max_delivery_attempts = max_delivery_attempts;
              policy = i.delivery_policy;
              inline_payload_bytes = 0;
              requires_artifact_read = false;
            })
            i.job_id
      ok (s', i))
    else ok (s, j)

module _ (bytes : ℕ → List ℕ) where
  unfoldable pub task_status_for_supervised_job_terminal : JobRecord → TaskEnd → TaskEnd
  task_status_for_supervised_job_terminal j fallback = elim j.status [
    | JobStatus.completed ↦ TaskEnd.succeeded
    | JobStatus.failed ↦ elim j.failure_reason [
      | none ↦ fallback
      | some reason ↦ coalesce (task_status_from_failure_reason (bytes reason)) fallback
    ]
    | JobStatus.pending ↦ fallback
  ]

  -- What the row of the task takes from its job.
  unfoldable pub settle_update : JobRecord → TaskFinishUpdate → TaskFinishUpdate
  unfolding task_status_for_supervised_job_terminal
  settle_update j u =
      let status = task_status_for_supervised_job_terminal j u.status in
      record u {
        status = status;
        completed_at = elim j.status [
          | JobStatus.completed ↦ coalesce j.completed_at u.completed_at
          | JobStatus.failed ↦ coalesce j.failed_at u.completed_at
          | JobStatus.pending ↦ u.completed_at
        ];
        failure_reason = if is_succeeded status then none else elim j.status [
          | JobStatus.failed ↦ or_else j.failure_reason u.failure_reason
          | _ ↦ u.failure_reason
        ];
        exit_code = if is_succeeded status && is_none u.exit_code then some 0 else u.exit_code;
      }

  unfoldable pub fail_supervised_task_with_job :
      ℕ → Supervision → ℕ → ℕ → TaskFinishUpdate → ℕ → ℕ → Result Supervision
  unfolding fail_pending_job settle_update update_task finish_row
  fail_supervised_task_with_job id s job_id reason u max_delivery_attempts window = do
    pending_ ← query_job_tx s.store job_id
    p ←
        fail_pending_job id s.store job_id reason u.completed_at max_delivery_attempts window
          pending_
    let s' = record s { store = p.0 }
    t ← query_task_tx s' u.task_id
    ok (
        if is_none t.completed_at
        then update_task s' u.task_id (finish_row (settle_update p.1 u))
        else s')
