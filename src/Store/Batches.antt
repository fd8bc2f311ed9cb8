-- ===== src/Store/Batches.antt =====
-- The updates of `batches`, and of the attempts of a batch: insertion, closing, handing a batch
-- over to manual resolution, counting a delivery (store.rs).
use codex_background_task_ha.Base.{
  ℕ, suc, Bool, true, false, ◌&&◌, Option, none, some, List, [], ◌∷◌, ◌++◌, max, ltb, ◌==◌,
  if◌then◌else◌, update_where, any_where, select_where, count_where, Error, Result, ok, ◌>>=◌, ◌>>◌,
  guard,
}
use codex_background_task_ha.Models.{
  BatchRecord, NewBatch, DeliveryAttemptRecord, BatchState, AttemptState, automatic,
  manual_resolution_only, cli, is_open, is_active, adapter_eq, default_redelivery_window_seconds,
  post_close_artifact_ttl_seconds,
}
use codex_background_task_ha.Store.{Store, checked_timestamp_add}
use codex_background_task_ha.Store.Fences.{
  invalidate_cli_managed_session_activity_tx, park_cli_managed_session_tx,
}

-- The row of a new batch: open, automatic, with no delivery counted.
unfoldable pub new_batch_row : NewBatch → BatchRecord
new_batch_row b = record {
  batch_id = b.batch_id;
  source_thread_id = b.source_thread_id;
  state = BatchState.open_;
  replay_policy = automatic;
  close_reason = none;
  close_note = none;
  summary = b.summary;
  created_at = b.created_at;
  updated_at = b.created_at;
  closed_at = none;
  redelivery_window_ends_at = b.redelivery_window_ends_at;
  max_delivery_attempts = b.max_delivery_attempts;
  delivery_attempt_count = 0;
  delivery_policy = b.policy;
  inline_payload_bytes = b.inline_payload_bytes;
  requires_artifact_read = b.requires_artifact_read;
}

-- Every caller gives one job, so the loop over `job_ids` runs once, at position 0.
unfoldable pub insert_batch_tx : Store → NewBatch → ℕ → Result Store
unfolding new_batch_row
insert_batch_tx s b job_id = do
  guard (if any_where (λ c. c.batch_id == b.batch_id) s.batches then false else true)
      Error.constraint
  ok (record s {
    batches = s.batches ++ new_batch_row b ∷ [];
    batch_jobs =
        s.batch_jobs ++ record { batch_id = b.batch_id; job_id = job_id; position = 0 } ∷ [];
  })

-- The (session, epoch) pairs of the active CLI attempts of a batch.
unfoldable pub query_active_cli_attempt_session_fences_for_batch_tx :
    Store → ℕ → List DeliveryAttemptRecord
query_active_cli_attempt_session_fences_for_batch_tx s k =
    select_where (λ a. a.batch_id == k && adapter_eq a.adapter_kind cli && is_active a.state)
      s.delivery_attempts

unfoldable pub invalidate_fences : List DeliveryAttemptRecord → ℕ → Store → Store
invalidate_fences [] now s = s
invalidate_fences (a ∷ rest) now s =
    invalidate_fences rest now
      (invalidate_cli_managed_session_activity_tx s a.managed_session_id a.session_epoch now)

unfoldable pub close_batch : ℕ → Option ℕ → ℕ → BatchRecord → BatchRecord
close_batch reason note now b = record b {
  state = BatchState.closed;
  close_reason = some reason;
  close_note = note;
  updated_at = now;
  closed_at = some now;
}

unfoldable pub close_attempt : ℕ → DeliveryAttemptRecord → DeliveryAttemptRecord
close_attempt now a = record a {
  state = AttemptState.closed;
  updated_at = now;
  closed_at = some now;
}

unfoldable pub is_open_batch : ℕ → BatchRecord → Bool
is_open_batch k b = b.batch_id == k && is_open b.state

unfoldable pub close_batch_rows : Store → ℕ → ℕ → Option ℕ → ℕ → Store
unfolding close_batch close_attempt is_open_batch
close_batch_rows s k reason note now = record s {
  batches = update_where (is_open_batch k) (close_batch reason note now) s.batches;
  delivery_attempts =
      update_where (λ a. a.batch_id == k && is_active a.state) (close_attempt now)
        s.delivery_attempts;
}

unfoldable pub close_batch_tx : Store → ℕ → ℕ → Option ℕ → ℕ → Result Store
unfolding query_active_cli_attempt_session_fences_for_batch_tx invalidate_fences close_batch_rows
close_batch_tx s k reason note now =
    let fences = query_active_cli_attempt_session_fences_for_batch_tx s k in
    guard (any_where (is_open_batch k) s.batches) Error.batch_not_open
    >> ok (invalidate_fences fences now (close_batch_rows s k reason note now))

-- `SELECT job_id FROM batch_jobs WHERE batch_id = ?`.
unfoldable pub is_job_of : Store → ℕ → ℕ → Bool
is_job_of s k job = any_where (λ r. r.batch_id == k && r.job_id == job) s.batch_jobs

-- The artifacts that the code hands on to the manifest writer are left out of the result.
unfoldable pub extend_closed_batch_artifact_retention_tx : Store → ℕ → ℕ → Result Store
unfolding is_job_of
extend_closed_batch_artifact_retention_tx s k now = do
  retention_until ← checked_timestamp_add now post_close_artifact_ttl_seconds
  ok (record s {
    artifacts =
        update_where (λ f. is_job_of s k f.job_id)
          (λ f. record f { retention_until = max f.retention_until retention_until }) s.artifacts;
  })

unfoldable pub manualize_batch : ℕ → ℕ → BatchRecord → BatchRecord
manualize_batch window now b = record b {
  replay_policy = manual_resolution_only;
  redelivery_window_ends_at = max b.redelivery_window_ends_at window;
  updated_at = now;
}

-- UPDATE batches SET replay_policy = 'manual_resolution_only', …
unfoldable pub manualize_rows : Store → ℕ → ℕ → ℕ → Store
unfolding manualize_batch is_open_batch
manualize_rows s k window now = record s {
  batches = update_where (is_open_batch k) (manualize_batch window now) s.batches;
}

unfoldable pub manualize_codex_app_server_batch_tx :
    Store → DeliveryAttemptRecord → ℕ → Result Store
unfolding manualize_rows
manualize_codex_app_server_batch_tx s a now = do
  window ← checked_timestamp_add now default_redelivery_window_seconds
  ok (manualize_rows s a.batch_id window now)

unfoldable pub manualize_cli_batch_after_pre_accept_rejection_tx :
    Store → DeliveryAttemptRecord → ℕ → Result Store
unfolding manualize_rows
manualize_cli_batch_after_pre_accept_rejection_tx s a now = do
  window ← checked_timestamp_add now default_redelivery_window_seconds
  ok (park_cli_managed_session_tx (manualize_rows s a.batch_id window now) a.managed_session_id now)

unfoldable pub invalidate_and_park : Store → Option ℕ → Option ℕ → ℕ → Store
invalidate_and_park s session epoch now =
    park_cli_managed_session_tx (invalidate_cli_managed_session_activity_tx s session epoch now)
      session now

unfoldable pub manualize_cli_batch_after_observation_loss_tx :
    Store → DeliveryAttemptRecord → ℕ → Result Store
unfolding manualize_rows invalidate_and_park
manualize_cli_batch_after_observation_loss_tx s a now = do
  window ← checked_timestamp_add now default_redelivery_window_seconds
  ok (
      invalidate_and_park (manualize_rows s a.batch_id window now) a.managed_session_id
        a.session_epoch now)

unfoldable pub count_delivery : ℕ → BatchRecord → BatchRecord
count_delivery now b = record b {
  delivery_attempt_count = suc b.delivery_attempt_count;
  updated_at = now;
}

unfoldable pub has_budget : ℕ → BatchRecord → Bool
has_budget k b =
    b.batch_id == k && is_open b.state && ltb b.delivery_attempt_count b.max_delivery_attempts

-- UPDATE batches SET delivery_attempt_count = delivery_attempt_count + 1, …, which must change
-- one row.
unfoldable pub count_delivery_tx : Store → ℕ → ℕ → Result Store
unfolding count_delivery has_budget
count_delivery_tx s k now = do
  guard (count_where (has_budget k) s.batches == 1) Error.no_remaining_attempts
  ok (record s { batches = update_where (has_budget k) (count_delivery now) s.batches })
