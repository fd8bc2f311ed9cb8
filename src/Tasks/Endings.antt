-- ===== src/Tasks/Endings.antt =====
-- What the calls that end a job or a task leave, step by step (`fail_job`, `finish_task`).
use codex_background_task_ha.Base.{
  min, ℕ, ◌+◌, ◌≤◌, ◌≡◌, refl, ap, ◌∙◌, true, false, List, [], ◌∷◌, ◌++◌, arith, ◌==◌,
  if◌then◌else◌, is_none, ==_refl, find_where, any_where, find_test, find-append, find-update,
  Error, ok, guard, found, bind_of, seq_of, found-some,
}
use codex_background_task_ha.Models.{
  i64_max, is_pending, Summary, JobRecord, TaskRecord, BatchRecord, NewBatch, BatchJob,
  TaskFinishUpdate,
}
use codex_background_task_ha.Store.{
  Store, query_job_tx, query_batch_tx, checked_add, checked_timestamp_add,
}
use codex_background_task_ha.Store.Batches.{new_batch_row, insert_batch_tx}
use codex_background_task_ha.Store.Guards.{ensure_job_pending}
use codex_background_task_ha.Store.Jobs.{fail_job_row, update_job, queue_batch, fail_job}
use codex_background_task_ha.Tasks.Calls.{
  ensure_task_not_terminal, update_task, task_reply, finish_row, finish_task,
  clamp_redelivery_window_seconds_for_timestamp,
}
use codex_background_task_ha.Base.{find-update, find-append}
use codex_background_task_ha.Tasks.{Supervision, query_task_tx}

-- The clamped window never overflows.
pub clamped_add :
    (now window : ℕ)
    → now ≤ i64_max
    → checked_timestamp_add now (clamp_redelivery_window_seconds_for_timestamp now window)
      ≡ ok (now + clamp_redelivery_window_seconds_for_timestamp now window)
unfolding checked_timestamp_add checked_add clamp_redelivery_window_seconds_for_timestamp
clamped_add now window h = ground arith

-- A pending job fails, whatever its window is.
module _ (id k reason now attempts window : ℕ) where
  abbrev pub failed_store : Store → Store
  failed_store s = update_job s k (fail_job_row reason now)

  abbrev pub failed_batch : JobRecord → NewBatch
  failed_batch j = record {
    batch_id = id;
    source_thread_id = j.source_thread_id;
    summary = Summary.background_job_failed reason;
    created_at = now;
    redelivery_window_ends_at = now + clamp_redelivery_window_seconds_for_timestamp now window;
    max_delivery_attempts = attempts;
    policy = j.delivery_policy;
    inline_payload_bytes = 0;
    requires_artifact_read = false;
  }

  abbrev batch_link : BatchJob
  batch_link = record { batch_id = id; job_id = k; position = 0 }

  abbrev pub queued_store : Store → JobRecord → Store
  queued_store s j = record (failed_store s) {
    batches = s.batches ++ new_batch_row (failed_batch j) ∷ [];
    batch_jobs = s.batch_jobs ++ batch_link ∷ [];
  }

  pub failed_job :
      (s : Store) (j : JobRecord)
      → query_job_tx s k ≡ ok j
      → query_job_tx (failed_store s) k ≡ ok (fail_job_row reason now j)
  unfolding query_job_tx update_job found fail_job_row
  failed_job s j there =
      let here = found-some _ _ _ there in
      ap (λ o. found o Error.job_not_found)
        (find-update (λ x. x.job_id == k) (λ x. x.job_id == k) (fail_job_row reason now) s.jobs j
          (λ x _. refl) here (find_test _ s.jobs j here))

  pub insert_lem :
      (s : Store) (b : NewBatch)
      → any_where (λ c. c.batch_id == b.batch_id) s.batches ≡ false
      → insert_batch_tx s b k
        ≡ ok (record s {
          batches = s.batches ++ new_batch_row b ∷ [];
          batch_jobs =
              s.batch_jobs ++ record { batch_id = b.batch_id; job_id = k; position = 0 } ∷ [];
        })
  unfolding insert_batch_tx guard
  insert_lem s b fresh =
      seq_of _ _ (ap (λ x. guard (if x then false else true) Error.constraint) fresh)

  pub batch_there :
      (bs : List BatchRecord) (b : NewBatch)
      → any_where (λ c. c.batch_id == b.batch_id) bs ≡ false
      → found
          (find_where (λ c. c.batch_id == b.batch_id) (bs ++ new_batch_row b ∷ []))
          Error.batch_not_found
        ≡ ok (new_batch_row b)
  unfolding new_batch_row found
  batch_there bs b fresh =
      ap (λ o. found o Error.batch_not_found)
        (find-append (λ c. c.batch_id == b.batch_id) bs (new_batch_row b) fresh
          (==_refl b.batch_id))

  pub fail_job_lem :
      (s : Store) (j : JobRecord)
      → query_job_tx s k ≡ ok j
      → is_pending j.status ≡ true
      → now ≤ i64_max
      → any_where (λ c. c.batch_id == id) s.batches ≡ false
      → fail_job id s k reason now attempts
          (clamp_redelivery_window_seconds_for_timestamp now window)
        ≡ ok (queued_store s j, new_batch_row (failed_batch j))
  unfolding fail_job queue_batch guard ensure_job_pending fail_job_row update_job query_batch_tx
      found
  fail_job_lem s j there pending in_time fresh =
      let found_batch : query_batch_tx (queued_store s j) id ≡ ok (new_batch_row (failed_batch j)) =
        batch_there s.batches (failed_batch j) fresh in
      bind_of _ _ j there
      ∙ seq_of _ _ (ap (λ x. guard x Error.job_not_pending) pending)
      ∙ bind_of _ _ (fail_job_row reason now j) (failed_job s j there)
      ∙ bind_of _ _ (now + clamp_redelivery_window_seconds_for_timestamp now window)
          (clamped_add now window in_time)
      ∙ bind_of _ _ (queued_store s j) (insert_lem (failed_store s) (failed_batch j) fresh)
      ∙ bind_of _ _ (new_batch_row (failed_batch j)) found_batch

-- The end of a task that has not ended.
pub finish_task_lem :
    (s : Supervision) (u : TaskFinishUpdate) (t : TaskRecord)
    → query_task_tx s u.task_id ≡ ok t
    → is_none t.completed_at ≡ true
    → finish_task s u ≡ ok (update_task s u.task_id (finish_row u), finish_row u t)
unfolding finish_task ensure_task_not_terminal guard task_reply query_task_tx update_task finish_row
    found
finish_task_lem s u t there live =
    let here = found-some _ _ _ there in
    bind_of _ _ t there
    ∙ seq_of _ _ (ap (λ x. guard x Error.task_terminal) live)
    ∙ bind_of _ _ (finish_row u t) (
        ap (λ o. found o Error.task_not_found)
          (find-update (λ x. x.task_id == u.task_id) (λ x. x.task_id == u.task_id) (finish_row u)
            s.tasks t (λ x _. refl) here (find_test _ s.tasks t here)))

-- The clamped window ends at the wish or at the last second of an i64.
pub clamped_end :
    (now window : ℕ)
    → now ≤ i64_max
    → now + clamp_redelivery_window_seconds_for_timestamp now window ≡ min (now + window) i64_max
unfolding clamp_redelivery_window_seconds_for_timestamp
clamped_end now window h = ground arith

-- The end of a clamped redelivery window is in range whatever the window is: the checked sum at a time
-- that fits an i64 never overflows, and is the sum that was asked for, or the last second of an i64
-- where that is sooner.
pub clamped_window_never_overflows :
    (now window : ℕ)
    → now ≤ i64_max
    → checked_timestamp_add now (clamp_redelivery_window_seconds_for_timestamp now window)
      ≡ ok (min (now + window) i64_max)
clamped_window_never_overflows now window h =
    clamped_add now window h ∙ ap ok (clamped_end now window h)
