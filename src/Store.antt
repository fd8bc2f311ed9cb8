-- ===== src/Store.antt =====
-- The tables of the store (store.rs, `migrate`) that the delivery core reads and writes, and the
-- queries on them. An identifier, like every free text, is a number that stands for the text's
-- place in the bytewise order; the empty text is 0. Times and counters are the non-negative i64.
pub mod Fences
pub mod Guards
pub mod Batches
pub mod Attempts
pub mod Outcomes
pub mod Observe
pub mod Sweep
pub mod Sessions
pub mod Notes
pub mod Jobs
pub mod Plugin
use codex_background_task_ha.Base.{
  ℕ, suc, ◌+◌, Bool, true, false, not, ◌&&◌, ◌||◌, Option, none, some, List, [], ◌∷◌, ◌++◌, map,
  ltb, leb, ◌==◌, if◌then◌else◌, column_eq, find_where, any_where, select_where, first_by, max_of,
  Result, ok, err, found, ◌>>=◌, ◌>>◌, guard, Error,
}
use codex_background_task_ha.Models.{
  JobRecord, ArtifactRecord, BatchRecord, BatchJob, DeliveryAttemptRecord, CliManagedSessionRecord,
  AuditDecision, PluginDeliveryRequestRecord, is_open, is_active, is_retired, i64_max,
}

pub record Store : Type 0 where
  pub jobs : List JobRecord
  pub artifacts : List ArtifactRecord
  pub batches : List BatchRecord
  pub batch_jobs : List BatchJob
  pub cli_managed_sessions : List CliManagedSessionRecord
  pub delivery_attempts : List DeliveryAttemptRecord
  pub plugin_delivery_requests : List PluginDeliveryRequestRecord
  pub audit_decisions : List AuditDecision

unfoldable pub query_job_tx : Store → ℕ → Result JobRecord
query_job_tx s k = found (find_where (λ j. j.job_id == k) s.jobs) Error.job_not_found

unfoldable pub query_batch_tx : Store → ℕ → Result BatchRecord
query_batch_tx s k = found (find_where (λ b. b.batch_id == k) s.batches) Error.batch_not_found

unfoldable pub query_delivery_attempt_tx : Store → ℕ → Result DeliveryAttemptRecord
query_delivery_attempt_tx s k =
    found (find_where (λ a. a.attempt_id == k) s.delivery_attempts) Error.attempt_not_found

unfoldable pub query_delivery_attempt_by_rpc_request_id_tx :
    Store → ℕ → Option DeliveryAttemptRecord
query_delivery_attempt_by_rpc_request_id_tx s k =
    find_where (λ a. column_eq a.delivery_rpc_request_id k) s.delivery_attempts

unfoldable pub query_cli_managed_session_tx : Store → ℕ → Result CliManagedSessionRecord
query_cli_managed_session_tx s k =
    found (find_where (λ c. c.managed_session_id == k) s.cli_managed_sessions)
      Error.session_not_found

-- ORDER BY created_at ASC, batch_id ASC.
abbrev pub is_before : BatchRecord → BatchRecord → Bool
is_before b c =
    ltb b.created_at c.created_at || b.created_at == c.created_at && ltb b.batch_id c.batch_id

-- The open batch that is delivered next to a thread.
unfoldable pub head_batch : List BatchRecord → ℕ → Option BatchRecord
head_batch bs thread =
    first_by is_before (select_where (λ b. b.source_thread_id == thread && is_open b.state) bs)

unfoldable pub batch_is_thread_head_tx : Store → BatchRecord → Bool
batch_is_thread_head_tx s b = elim (head_batch s.batches b.source_thread_id) [
  | none ↦ false
  | some h ↦ h.batch_id == b.batch_id
]

-- `… JOIN batches ON batches.batch_id = … WHERE batches.state = 'open'`.
unfoldable pub batch_open_in : List BatchRecord → ℕ → Bool
batch_open_in bs k = any_where (λ b. b.batch_id == k && is_open b.state) bs

-- An active attempt of a thread whose batch is open.
unfoldable pub in_flight : List BatchRecord → ℕ → DeliveryAttemptRecord → Bool
in_flight bs thread a =
    a.source_thread_id == thread && is_active a.state && batch_open_in bs a.batch_id

-- SELECT MAX(generation) FROM delivery_attempts WHERE batch_id = ?
unfoldable pub max_generation : List DeliveryAttemptRecord → ℕ → Option ℕ
max_generation rows k =
    max_of
      (map (λ (a : DeliveryAttemptRecord). a.generation) (select_where (λ a. a.batch_id == k) rows))

unfoldable pub checked_add : ℕ → ℕ → Error → Result ℕ
checked_add a b e = if leb (a + b) i64_max then ok (a + b) else err e

unfoldable pub checked_timestamp_add : ℕ → ℕ → Result ℕ
unfolding checked_add
checked_timestamp_add now delta = checked_add now delta Error.timestamp_overflow

unfoldable pub next_attempt_generation_tx : Store → ℕ → Result ℕ
next_attempt_generation_tx s k = elim (max_generation s.delivery_attempts k) [
  | none ↦ checked_add 0 1 Error.generation_overflow
  | some g ↦ checked_add g 1 Error.generation_overflow
]

-- INSERT INTO delivery_attempts, under the keys: primary, foreign and unique.
unfoldable pub insert_delivery_attempt : Store → DeliveryAttemptRecord → Result Store
insert_delivery_attempt s row = do
  guard (not (any_where (λ a. a.attempt_id == row.attempt_id) s.delivery_attempts)) Error.constraint
  guard (any_where (λ b. b.batch_id == row.batch_id) s.batches) Error.constraint
  guard
      (not (
        any_where
          (λ a. elim row.delivery_rpc_request_id [
            | none ↦ false
            | some k ↦ column_eq a.delivery_rpc_request_id k
          ])
          s.delivery_attempts))
      Error.constraint
  guard
      (not (
        any_where (λ a. a.batch_id == row.batch_id && a.generation == row.generation)
          s.delivery_attempts))
      Error.constraint
  ok (record s { delivery_attempts = s.delivery_attempts ++ row ∷ [] })
