-- ===== src/Tasks/Failure.antt =====
-- The failure of a task together with its job, field by field (`fail_supervised_task_with_job`).
use codex_background_task_ha.Base.{
  ℕ, ◌+◌, ◌≤◌, ◌≡◌, refl, ap, ◌∙◌, true, false, some, List, [], ◌∷◌, ◌++◌, ◌==◌, is_none, any_where,
  ok,
}
use codex_background_task_ha.Models.{
  JobStatus, TaskEnd, ended, is_succeeded, i64_max, is_pending, is_open, JobRecord, TaskRecord,
  BatchRecord, TaskFinishUpdate,
}
use codex_background_task_ha.Store.{Store, query_job_tx, query_batch_tx}
use codex_background_task_ha.Store.Batches.{new_batch_row}
use codex_background_task_ha.Store.Jobs.{fail_job_row, update_job}
use codex_background_task_ha.Base.{min, coalesce}
use codex_background_task_ha.Tasks.{Supervision, query_task_tx}
use codex_background_task_ha.Tasks.Reasons.{task_status_from_failure_reason}
use codex_background_task_ha.Tasks.Calls.{
  update_task, finish_row, task_status_for_supervised_job_terminal, settle_update,
  fail_supervised_task_with_job,
}
use codex_background_task_ha.Tasks.Endings.{
  clamped_end, failed_batch, queued_store, failed_job, batch_there,
}
use codex_background_task_ha.Tasks.Settling.{ended_row, fail_supervised_lem}

module _ (bytes : ℕ → List ℕ) (u : TaskFinishUpdate) (reason : ℕ) where
  -- The status that the text of the reason names, or else the one that was asked for.
  abbrev pub end_status : TaskEnd
  end_status = coalesce (task_status_from_failure_reason (bytes reason)) u.status

  -- The job has failed for the reason.
  abbrev pub JobFailed : Supervision → ℕ → JobRecord → Type 0
  JobFailed s job_id j =
      (k : JobRecord) × (query_job_tx s.store job_id ≡ ok k)
      × (k.status ≡ JobStatus.failed)
      × (k.failed_at ≡ some u.completed_at)
      × (k.failure_reason ≡ some reason)
      × (k.source_thread_id ≡ j.source_thread_id)

  -- The task has ended with the status and the reason.
  abbrev pub TaskFailed : Supervision → Type 0
  TaskFailed s =
      (t : TaskRecord) × (query_task_tx s u.task_id ≡ ok t)
      × (t.status ≡ ended end_status)
      × (t.completed_at ≡ some u.completed_at)
      × (t.failure_reason ≡ some reason)
      × (t.exit_code ≡ u.exit_code)

  -- One open batch more, of the job's thread, with the job alone in it.
  abbrev pub BatchQueued :
      Supervision → Supervision → JobRecord → (id job_id attempts window : ℕ) → Type 0
  BatchQueued s s' j id job_id attempts window =
      (b : BatchRecord) × (s'.store.batches ≡ s.store.batches ++ b ∷ [])
      × (query_batch_tx s'.store id ≡ ok b)
      × (is_open b.state ≡ true)
      × (b.source_thread_id ≡ j.source_thread_id)
      × (b.created_at ≡ u.completed_at)
      × (b.redelivery_window_ends_at ≡ min (u.completed_at + window) i64_max)
      × (b.max_delivery_attempts ≡ attempts)
      × (b.delivery_attempt_count ≡ 0)
      × (s'.store.batch_jobs
          ≡ s.store.batch_jobs ++ record { batch_id = id; job_id = job_id; position = 0 } ∷ [])

  task_end :
      (job_id : ℕ) (s : Supervision) (j : JobRecord) (t : TaskRecord)
      → query_task_tx s u.task_id ≡ ok t
      → is_succeeded end_status ≡ false
      → TaskFailed (
          update_task s u.task_id
            (finish_row (settle_update bytes (fail_job_row reason u.completed_at j) u)))
  unfolding finish_row settle_update fail_job_row task_status_for_supervised_job_terminal
  task_end job_id s j t has failed_ =
      let v = settle_update bytes (fail_job_row reason u.completed_at j) u in
      (finish_row v t, ended_row s u.task_id v t has, refl, refl, rw failed_ refl, rw failed_ refl)

  queued_lem :
      (s s' : Supervision) (j : JobRecord) (id job_id attempts window : ℕ)
      → u.completed_at ≤ i64_max
      → any_where (λ (b : BatchRecord). b.batch_id == id) s.store.batches ≡ false
      → s'.store ≡ queued_store id job_id reason u.completed_at attempts window s.store j
      → BatchQueued s s' j id job_id attempts window
  unfolding query_batch_tx new_batch_row update_job
  queued_lem s s' j id job_id attempts window in_time fresh same =
      let b = new_batch_row (failed_batch id job_id reason u.completed_at attempts window j) in
      (
        b,
        ap (λ z. z.batches) same,
        ap (λ (z : Store). query_batch_tx z id) same
            ∙ batch_there id job_id reason u.completed_at attempts window s.store.batches
                (failed_batch id job_id reason u.completed_at attempts window j) fresh,
        refl,
        refl,
        refl,
        clamped_end u.completed_at window in_time,
        refl,
        refl,
        ap (λ z. z.batch_jobs) same,
      )

-- For a pending job and a task that has not ended, with an unused identifier for the batch, a time
-- that fits an i64 and a reason that does not name success: the call succeeds. The job has failed for
-- the reason at that time. The task has ended at that time for the reason, with the status that the
-- reason names or else the one asked for. One open batch is added, for the thread of the job and the
-- job alone; its window ends as asked, or at the last second of an i64 where that is sooner.
pub failure_ends_job_and_task :
    (bytes : ℕ → List ℕ) (id : ℕ) (s : Supervision) (job_id reason : ℕ) (u : TaskFinishUpdate)
    (attempts window : ℕ) (j : JobRecord) (t : TaskRecord)
    → query_job_tx s.store job_id ≡ ok j
    → is_pending j.status ≡ true
    → query_task_tx s u.task_id ≡ ok t
    → is_none t.completed_at ≡ true
    → u.completed_at ≤ i64_max
    → any_where (λ (b : BatchRecord). b.batch_id == id) s.store.batches ≡ false
    → is_succeeded (end_status bytes u reason) ≡ false
    → (s' : Supervision) × (fail_supervised_task_with_job bytes id s job_id reason u attempts window
        ≡ ok s')
      × JobFailed bytes u reason s' job_id j
      × TaskFailed bytes u reason s'
      × BatchQueued bytes u reason s s' j id job_id attempts window
unfolding fail_job_row update_task query_job_tx query_task_tx
failure_ends_job_and_task bytes id s job_id reason u attempts window j t there pending has live
      in_time fresh failed_ =
    let middle = record s {
      store = queued_store id job_id reason u.completed_at attempts window s.store j;
    } in
    let after =
      update_task middle u.task_id
        (finish_row (settle_update bytes (fail_job_row reason u.completed_at j) u)) in
    (
      after,
      fail_supervised_lem bytes id s job_id reason u attempts window j t there pending has live
          in_time fresh,
      (
        fail_job_row reason u.completed_at j,
        failed_job id job_id reason u.completed_at attempts window s.store j there,
        refl,
        refl,
        refl,
        refl,
      ),
      task_end bytes u reason job_id middle j t has failed_,
      queued_lem bytes u reason s after j id job_id attempts window in_time fresh refl,
    )
