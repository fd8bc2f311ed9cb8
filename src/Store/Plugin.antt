-- ===== src/Store/Plugin.antt =====
-- The calls of store.rs that enqueue a plugin delivery under an idempotency key.
pub mod Queries
pub mod Validation
pub mod Accepted
use codex_background_task_ha.Base.{
  ℕ, Bool, true, false, not, ◌&&◌, ◌||◌, Option, none, some, List, [], ◌∷◌, ◌++◌, map, ltb, leb,
  ◌==◌, is_some, if◌then◌else◌, find_where, any_where, select_where, order_by, max_of, Error,
  Result, ok, err, found, ◌>>=◌, ◌>>◌, guard,
}
use codex_background_task_ha.FsLayout.{
  same_text, validate_id_path_component, relative_artifact_payload_path, is_absolute, escapes,
}
use codex_background_task_ha.Models.{
  JobRecord, ArtifactRecord, BatchRecord, BatchJob, BatchJobRecord, BatchInspect,
  DeliveryAttemptRecord, PluginDeliveryRequestRecord, PluginDeliveryArtifactInput,
  NewPluginDelivery, PluginDeliveryEnqueueRecord, PluginDeliveryInspectRecord,
  NewCodexAppServerAcceptPendingAttempt, JobStatus, text, is_open,
}
use codex_background_task_ha.Store.{
  Store, query_job_tx, query_batch_tx, checked_timestamp_add, batch_is_thread_head_tx,
}
use codex_background_task_ha.Store.Batches.{insert_batch_tx}
use codex_background_task_ha.Store.Guards.{ensure_nonempty_value, ensure_positive_value}
use codex_background_task_ha.Store.Attempts.{
  validate_codex_app_server_accept_pending_attempt,
  begin_codex_app_server_accept_pending_attempt_tx,
}
use codex_background_task_ha.Store.Plugin.Queries.{
  is_request, query_plugin_delivery_request_tx, query_plugin_delivery_request_by_job,
  query_plugin_delivery_request_by_batch, join_jobs, query_batch_jobs_tx, query_batch_inspect_tx,
  query_delivery_attempts_for_batch, known_request, replay_plugin_delivery_enqueue, inspect_request,
  inspect_plugin_delivery,
}
use codex_background_task_ha.Store.Plugin.Validation.{
  is_path_component, validate_plugin_delivery_artifact_reference, validate_plugin_artifact,
  validate_new_plugin_delivery,
}

unfoldable pub plugin_delivery_batch_created_at_tx : Store → ℕ → ℕ → Result ℕ
plugin_delivery_batch_created_at_tx s thread requested =
    elim (max_of (
      map (λ (b : BatchRecord). b.created_at)
        (select_where (λ b. b.source_thread_id == thread && is_open b.state) s.batches))) [
          | none ↦ ok requested
          | some latest ↦
              if leb requested latest then checked_timestamp_add latest 1 else ok requested
        ]

unfoldable pub plugin_job_row : NewPluginDelivery → JobRecord
plugin_job_row d = record {
  job_id = d.job_id;
  source_thread_id = d.source_thread_id;
  status = JobStatus.completed;
  summary = d.summary;
  metadata = d.metadata_json;
  created_at = d.created_at;
  updated_at = d.created_at;
  completed_at = some d.created_at;
  failed_at = none;
  result_artifact_id = elim d.artifact [ none ↦ none | some f ↦ some f.artifact_id ];
  failure_reason = none;
  delivery_policy = d.policy;
  supervisor_daemon_generation = none;
}

unfoldable pub plugin_artifact_row :
    NewPluginDelivery → PluginDeliveryArtifactInput → ArtifactRecord
plugin_artifact_row d f = record {
  artifact_id = f.artifact_id;
  job_id = d.job_id;
  relative_path = f.relative_path;
  original_filename = f.original_filename;
  size_bytes = f.size_bytes;
  sha256 = f.sha256;
  created_at = d.created_at;
  retention_until = f.retention_until;
  manifest_synced_retention_until = 0;
  manifest_sync_attempted_at = 0;
  gc_attempted_at = 0;
}

unfoldable pub insert_plugin_artifact : Store → NewPluginDelivery → Result Store
unfolding plugin_artifact_row
insert_plugin_artifact s d = elim d.artifact [
  | none ↦ ok s
  | some f ↦ do
    guard (not (any_where (λ r. r.artifact_id == f.artifact_id) s.artifacts)) Error.constraint
    guard (not (any_where (λ r. r.job_id == d.job_id) s.artifacts)) Error.constraint
    ok (record s { artifacts = s.artifacts ++ plugin_artifact_row d f ∷ [] })
]

unfoldable pub plugin_request_row : NewPluginDelivery → PluginDeliveryRequestRecord
plugin_request_row d = record {
  plugin_name = d.plugin_name;
  idempotency_key = d.idempotency_key;
  plugin_instance_id = d.plugin_instance_id;
  request_fingerprint = d.request_fingerprint;
  job_id = d.job_id;
  batch_id = d.batch_id;
  created_at = d.created_at;
  updated_at = d.created_at;
}

unfoldable pub insert_plugin_job : Store → NewPluginDelivery → Result Store
unfolding plugin_job_row
insert_plugin_job s d = do
  guard (not (any_where (λ r. r.job_id == d.job_id) s.jobs)) Error.constraint
  ok (record s { jobs = s.jobs ++ plugin_job_row d ∷ [] })

unfoldable pub insert_plugin_batch : Store → NewPluginDelivery → Result Store
unfolding plugin_delivery_batch_created_at_tx
insert_plugin_batch s d = do
  created_at ← plugin_delivery_batch_created_at_tx s d.source_thread_id d.created_at
  redelivery_window_ends_at ← checked_timestamp_add created_at d.redelivery_window_seconds
  insert_batch_tx s
      (record {
        batch_id = d.batch_id;
        source_thread_id = d.source_thread_id;
        summary = text d.summary;
        created_at = created_at;
        redelivery_window_ends_at = redelivery_window_ends_at;
        max_delivery_attempts = d.max_delivery_attempts;
        policy = d.policy;
        inline_payload_bytes = d.inline_payload_bytes;
        requires_artifact_read = is_some d.artifact;
      })
      d.job_id

-- No row has the primary key of the request: the query before found none.
unfoldable pub new_request :
    Store → NewPluginDelivery → Result (Store × PluginDeliveryEnqueueRecord)
unfolding insert_plugin_job insert_plugin_artifact insert_plugin_batch plugin_request_row
    query_batch_inspect_tx
new_request s d = do
  with_job ← insert_plugin_job s d
  with_artifact ← insert_plugin_artifact with_job d
  with_batch ← insert_plugin_batch with_artifact d
  let s' = record with_batch {
    plugin_delivery_requests = with_batch.plugin_delivery_requests ++ plugin_request_row d ∷ [];
  }
  job ← query_job_tx s' d.job_id
  batch ← query_batch_inspect_tx s' d.batch_id
  ok (s', record { created = true; idempotency_key = d.idempotency_key; job = job; batch = batch })

unfoldable pub enqueue_plugin_delivery_tx :
    Store → NewPluginDelivery → Result (Store × PluginDeliveryEnqueueRecord)
unfolding query_plugin_delivery_request_tx known_request new_request
enqueue_plugin_delivery_tx s d =
    elim (query_plugin_delivery_request_tx s d.plugin_name d.idempotency_key) [
      | none ↦ new_request s d
      | some existing ↦
          known_request s d.idempotency_key d.request_fingerprint existing >>= λ r. ok (s, r)
    ]

-- The attempt that is started at once where the new batch is the head of its thread.
unfoldable pub attempt_if_head :
    Store
    → PluginDeliveryEnqueueRecord
    → BatchRecord
    → NewCodexAppServerAcceptPendingAttempt
    → Result (Store × Option DeliveryAttemptRecord)
attempt_if_head s r b attempt =
    if r.created && batch_is_thread_head_tx s b
    then (begin_codex_app_server_accept_pending_attempt_tx s attempt >>= λ p. ok (p.0, some p.1.0))
    else ok (s, none)

module _ (bytes : ℕ → List ℕ) where
  unfoldable pub enqueue_plugin_delivery :
      Store → NewPluginDelivery → Result (Store × PluginDeliveryEnqueueRecord)
  unfolding validate_new_plugin_delivery enqueue_plugin_delivery_tx
  enqueue_plugin_delivery s d = do
    validate_new_plugin_delivery bytes d
    enqueue_plugin_delivery_tx s d

  unfoldable pub enqueue_plugin_delivery_with_codex_app_server_attempt_if_head :
      Store
      → NewPluginDelivery
      → NewCodexAppServerAcceptPendingAttempt
      → Result (Store × (PluginDeliveryEnqueueRecord × Option DeliveryAttemptRecord))
  unfolding validate_new_plugin_delivery enqueue_plugin_delivery_tx attempt_if_head
  enqueue_plugin_delivery_with_codex_app_server_attempt_if_head s d attempt = do
    validate_new_plugin_delivery bytes d
    validate_codex_app_server_accept_pending_attempt (is_path_component bytes) attempt
    guard (attempt.batch_id == d.batch_id) Error.request_mismatch
    p ← enqueue_plugin_delivery_tx s d
    b ← query_batch_tx p.0 d.batch_id
    q ← attempt_if_head p.0 p.1 b attempt
    ok (q.0, (p.1, q.1))
