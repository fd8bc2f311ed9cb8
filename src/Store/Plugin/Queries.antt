-- ===== src/Store/Plugin/Queries.antt =====
-- The queries of store.rs on plugin deliveries, the replay of an enqueue and the inspection.
use codex_background_task_ha.Base.{
  ℕ, Bool, false, ◌&&◌, ◌||◌, Option, none, some, List, [], ◌∷◌, ltb, ◌==◌, find_where,
  select_where, order_by, Error, Result, ok, err, found, ◌>>=◌, ◌>>◌, guard,
}
use codex_background_task_ha.Models.{
  BatchJob, BatchJobRecord, BatchInspect, DeliveryAttemptRecord, PluginDeliveryRequestRecord,
  PluginDeliveryEnqueueRecord, PluginDeliveryInspectRecord,
}
use codex_background_task_ha.Store.{Store, query_job_tx, query_batch_tx}
use codex_background_task_ha.Store.Guards.{ensure_nonempty_value}

abbrev pub is_request : ℕ → ℕ → PluginDeliveryRequestRecord → Bool
is_request plugin key p = p.plugin_name == plugin && p.idempotency_key == key

unfoldable pub query_plugin_delivery_request_tx : Store → ℕ → ℕ → Option PluginDeliveryRequestRecord
query_plugin_delivery_request_tx s plugin key =
    find_where (is_request plugin key) s.plugin_delivery_requests

unfoldable pub query_plugin_delivery_request_by_job :
    Store → ℕ → ℕ → Option PluginDeliveryRequestRecord
query_plugin_delivery_request_by_job s plugin job =
    find_where (λ p. p.plugin_name == plugin && p.job_id == job) s.plugin_delivery_requests

unfoldable pub query_plugin_delivery_request_by_batch :
    Store → ℕ → ℕ → Option PluginDeliveryRequestRecord
query_plugin_delivery_request_by_batch s plugin batch =
    find_where (λ p. p.plugin_name == plugin && p.batch_id == batch) s.plugin_delivery_requests

-- The join of `batch_jobs` with `jobs`, and with the artifact of each job.
unfoldable pub join_jobs : Store → List BatchJob → List BatchJobRecord
join_jobs s [] = []
join_jobs s (l ∷ links) =
    let rest = join_jobs s links in
    elim (find_where (λ j. j.job_id == l.job_id) s.jobs) [
      | none ↦ rest
      | some j ↦
          record { job = j; artifact = find_where (λ f. f.job_id == j.job_id) s.artifacts } ∷ rest
    ]

unfoldable pub query_batch_jobs_tx : Store → ℕ → List BatchJobRecord
unfolding join_jobs
query_batch_jobs_tx s k =
    join_jobs s (
      order_by (λ l m. ltb l.position m.position)
        (select_where (λ l. l.batch_id == k) s.batch_jobs))

unfoldable pub query_batch_inspect_tx : Store → ℕ → Result BatchInspect
unfolding query_batch_jobs_tx
query_batch_inspect_tx s k = do
  b ← query_batch_tx s k
  ok (record { batch = b; jobs = query_batch_jobs_tx s k })

unfoldable pub query_delivery_attempts_for_batch : Store → ℕ → List DeliveryAttemptRecord
query_delivery_attempts_for_batch s k =
    order_by
      (λ a b.
        ltb a.generation b.generation
        || a.generation == b.generation && ltb a.attempt_id b.attempt_id)
      (select_where (λ a. a.batch_id == k) s.delivery_attempts)

-- The answer to a key that was used before.
unfoldable pub known_request :
    Store → ℕ → ℕ → PluginDeliveryRequestRecord → Result PluginDeliveryEnqueueRecord
unfolding query_batch_inspect_tx
known_request s key fingerprint existing = do
  guard (existing.request_fingerprint == fingerprint) Error.fingerprint_mismatch
  job ← query_job_tx s existing.job_id
  batch ← query_batch_inspect_tx s existing.batch_id
  ok (record { created = false; idempotency_key = key; job = job; batch = batch })

unfoldable pub replay_plugin_delivery_enqueue :
    Store → ℕ → ℕ → ℕ → Result (Option PluginDeliveryEnqueueRecord)
unfolding query_plugin_delivery_request_tx known_request
replay_plugin_delivery_enqueue s plugin key fingerprint = do
  ensure_nonempty_value plugin
  ensure_nonempty_value key
  ensure_nonempty_value fingerprint
  elim (query_plugin_delivery_request_tx s plugin key) [
    | none ↦ ok none
    | some existing ↦ known_request s key fingerprint existing >>= λ r. ok (some r)
  ]

unfoldable pub inspect_request :
    Store → Option PluginDeliveryRequestRecord → Result PluginDeliveryInspectRecord
unfolding query_batch_inspect_tx query_delivery_attempts_for_batch
inspect_request s request = do
  existing ← found request Error.request_not_found
  job ← query_job_tx s existing.job_id
  batch ← query_batch_inspect_tx s existing.batch_id
  ok (record {
    job = some job;
    batch = some batch;
    attempts = query_delivery_attempts_for_batch s batch.batch.batch_id;
  })

unfoldable pub inspect_plugin_delivery :
    Store → ℕ → Option ℕ → Option ℕ → Option ℕ → Result PluginDeliveryInspectRecord
unfolding inspect_request query_plugin_delivery_request_tx query_plugin_delivery_request_by_job
    query_plugin_delivery_request_by_batch
inspect_plugin_delivery s plugin (some key) none none = do
  ensure_nonempty_value plugin
  ensure_nonempty_value key
  inspect_request s (query_plugin_delivery_request_tx s plugin key)
inspect_plugin_delivery s plugin none (some job) none = do
  ensure_nonempty_value plugin
  inspect_request s (query_plugin_delivery_request_by_job s plugin job)
inspect_plugin_delivery s plugin none none (some batch) = do
  ensure_nonempty_value plugin
  inspect_request s (query_plugin_delivery_request_by_batch s plugin batch)
inspect_plugin_delivery s plugin _ _ _ = err Error.one_selector
