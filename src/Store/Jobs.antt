-- ===== src/Store/Jobs.antt =====
-- The calls of store.rs that submit and finish a job, and the operator's calls on a batch: closing
-- the head of a thread, handing a batch over to manual resolution.
use codex_background_task_ha.Base.{
  ℕ, Bool, true, false, not, ◌&&◌, Option, none, some, [], ◌∷◌, ◌++◌, ◌==◌, coalesce, update_where,
  any_where, Error, Result, ok, found, ◌>>=◌, ◌>>◌, guard,
}
use codex_background_task_ha.Models.{
  JobRecord, NewJob, ArtifactRecord, NewArtifact, BatchRecord, Summary, text, background_job_failed,
  background_task_failed, JobStatus, DeliveryAttemptRecord, AttemptState, AdapterKind, cli, desktop,
  codex_app_server, RpcState, ObservationState, pending_acceptance, rejected_before_accept,
  tracking, is_active, default_redelivery_window_seconds,
}
use codex_background_task_ha.Store.{
  Store, query_job_tx, query_batch_tx, head_batch, checked_timestamp_add,
}
use codex_background_task_ha.Store.Batches.{
  insert_batch_tx, close_batch_tx, extend_closed_batch_artifact_retention_tx, manualize_rows,
}
use codex_background_task_ha.Store.Guards.{
  ensure_job_pending, ensure_batch_open, ensure_nonempty_value,
}

unfoldable pub new_job_row : NewJob → Option ℕ → JobRecord
new_job_row j generation = record {
  job_id = j.job_id;
  source_thread_id = j.source_thread_id;
  status = JobStatus.pending;
  summary = j.summary;
  metadata = j.metadata_json;
  created_at = j.created_at;
  updated_at = j.created_at;
  completed_at = none;
  failed_at = none;
  result_artifact_id = none;
  failure_reason = none;
  delivery_policy = j.policy;
  supervisor_daemon_generation = generation;
}

unfoldable pub submit_job_for_supervisor_generation :
    Store → NewJob → Option ℕ → Result (Store × JobRecord)
unfolding new_job_row
submit_job_for_supervisor_generation s j generation = do
  guard (not (any_where (λ r. r.job_id == j.job_id) s.jobs)) Error.constraint
  let s' = record s { jobs = s.jobs ++ new_job_row j generation ∷ [] }
  r ← query_job_tx s' j.job_id
  ok (s', r)

unfoldable pub submit_job : Store → NewJob → Result (Store × JobRecord)
unfolding submit_job_for_supervisor_generation
submit_job s j = submit_job_for_supervisor_generation s j none

unfoldable pub new_artifact_row : NewArtifact → ArtifactRecord
new_artifact_row f = record {
  artifact_id = f.artifact_id;
  job_id = f.job_id;
  relative_path = f.relative_path;
  original_filename = f.original_filename;
  size_bytes = f.size_bytes;
  sha256 = f.sha256;
  created_at = f.created_at;
  retention_until = f.retention_until;
  manifest_synced_retention_until = f.retention_until;
  manifest_sync_attempted_at = 0;
  gc_attempted_at = 0;
}

unfoldable pub insert_artifact : Store → NewArtifact → Result Store
unfolding new_artifact_row
insert_artifact s f = do
  guard (not (any_where (λ r. r.artifact_id == f.artifact_id) s.artifacts)) Error.constraint
  guard (not (any_where (λ r. r.job_id == f.job_id) s.artifacts)) Error.constraint
  ok (record s { artifacts = s.artifacts ++ new_artifact_row f ∷ [] })

unfoldable pub complete_job_row : ℕ → ℕ → JobRecord → JobRecord
complete_job_row artifact_id now j = record j {
  status = JobStatus.completed;
  updated_at = now;
  completed_at = some now;
  result_artifact_id = some artifact_id;
}

unfoldable pub fail_job_row : ℕ → ℕ → JobRecord → JobRecord
fail_job_row reason now j = record j {
  status = JobStatus.failed;
  updated_at = now;
  failed_at = some now;
  failure_reason = some reason;
}

unfoldable pub fail_job_with_artifact_row : ℕ → ℕ → ℕ → JobRecord → JobRecord
unfolding fail_job_row
fail_job_with_artifact_row reason artifact_id now j = record (fail_job_row reason now j) {
  result_artifact_id = some artifact_id;
}

unfoldable pub update_job : Store → ℕ → (JobRecord → JobRecord) → Store
update_job s k f = record s { jobs = update_where (λ j. j.job_id == k) f s.jobs }

-- The tail that the finishing calls share: the job's batch is queued for delivery. `id` is what
-- `new_id` returns.
unfoldable pub queue_batch :
    Store → ℕ → ℕ → (JobRecord → Summary) → ℕ → ℕ → ℕ → Bool → Result (Store × BatchRecord)
queue_batch s id job_id summary now max_delivery_attempts window artifact_read = do
  j ← query_job_tx s job_id
  redelivery_window_ends_at ← checked_timestamp_add now window
  s' ←
      insert_batch_tx s
        (record {
          batch_id = id;
          source_thread_id = j.source_thread_id;
          summary = summary j;
          created_at = now;
          redelivery_window_ends_at = redelivery_window_ends_at;
          max_delivery_attempts = max_delivery_attempts;
          policy = j.delivery_policy;
          inline_payload_bytes = 0;
          requires_artifact_read = artifact_read;
        })
        job_id
  b ← query_batch_tx s' id
  ok (s', b)

-- The row of `artifact_ingests` that the call deletes is outside the model.
unfoldable pub complete_job :
    ℕ → Store → NewArtifact → Option ℕ → ℕ → ℕ → ℕ → Result (Store × BatchRecord)
unfolding insert_artifact update_job complete_job_row queue_batch
complete_job id s f summary now max_delivery_attempts window = do
  j ← query_job_tx s f.job_id
  ensure_job_pending j
  s' ← insert_artifact s f
  queue_batch (update_job s' f.job_id (complete_job_row f.artifact_id now)) id f.job_id
      (λ r. text (coalesce summary r.summary)) now max_delivery_attempts window true

unfoldable pub fail_job_with_artifact :
    ℕ → Store → NewArtifact → ℕ → ℕ → ℕ → ℕ → Result (Store × BatchRecord)
unfolding insert_artifact update_job fail_job_with_artifact_row queue_batch
fail_job_with_artifact id s f reason now max_delivery_attempts window = do
  j ← query_job_tx s f.job_id
  ensure_job_pending j
  s' ← insert_artifact s f
  queue_batch (update_job s' f.job_id (fail_job_with_artifact_row reason f.artifact_id now)) id
      f.job_id (λ _. background_task_failed reason) now max_delivery_attempts window true

unfoldable pub fail_job : ℕ → Store → ℕ → ℕ → ℕ → ℕ → ℕ → Result (Store × BatchRecord)
unfolding update_job fail_job_row queue_batch
fail_job id s k reason now max_delivery_attempts window = do
  j ← query_job_tx s k
  ensure_job_pending j
  queue_batch (update_job s k (fail_job_row reason now)) id k (λ _. background_job_failed reason)
      now max_delivery_attempts window false

unfoldable pub close_head : Store → ℕ → ℕ → Option ℕ → ℕ → Result (Store × BatchRecord)
close_head s thread reason note now = do
  b ← found (head_batch s.batches thread) Error.no_open_batch
  s' ← close_batch_tx s b.batch_id reason note now
  s'' ← extend_closed_batch_artifact_retention_tx s' b.batch_id now
  c ← query_batch_tx s'' b.batch_id
  ok (s'', c)

-- The CASE expressions of `manualize_plugin_delivery`.
unfoldable pub withdrawn_rpc_state : AdapterKind → Option RpcState → Option RpcState
withdrawn_rpc_state codex_app_server (some pending_acceptance) = some RpcState.unknown
withdrawn_rpc_state cli (some pending_acceptance) = some rejected_before_accept
withdrawn_rpc_state desktop (some pending_acceptance) = some rejected_before_accept
withdrawn_rpc_state _ r = r

unfoldable pub withdrawn_observation : Option ObservationState → Option ObservationState
withdrawn_observation (some tracking) = some ObservationState.abandoned
withdrawn_observation o = o

unfoldable pub withdraw_row : ℕ → DeliveryAttemptRecord → DeliveryAttemptRecord
unfolding withdrawn_rpc_state withdrawn_observation
withdraw_row now a = record a {
  state = AttemptState.abandoned;
  delivery_rpc_state = withdrawn_rpc_state a.adapter_kind a.delivery_rpc_state;
  delivery_observation_state = withdrawn_observation a.delivery_observation_state;
  updated_at = now;
  abandoned_at = some now;
}

unfoldable pub withdraw_rows : Store → ℕ → ℕ → Store
unfolding withdraw_row
withdraw_rows s k now = record s {
  delivery_attempts =
      update_where (λ a. a.batch_id == k && is_active a.state) (withdraw_row now)
        s.delivery_attempts;
}

unfoldable pub manualize_plugin_delivery : Store → ℕ → ℕ → ℕ → Result (Store × BatchRecord)
unfolding withdraw_rows
manualize_plugin_delivery s k reason now = do
  ensure_nonempty_value k
  ensure_nonempty_value reason
  b ← query_batch_tx s k
  ensure_batch_open b
  window ← checked_timestamp_add now default_redelivery_window_seconds
  let s' = withdraw_rows (manualize_rows s k window now) k now
  c ← query_batch_tx s' k
  ok (s', c)
