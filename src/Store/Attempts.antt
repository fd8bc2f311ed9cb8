-- ===== src/Store/Attempts.antt =====
-- The calls of store.rs that start a delivery attempt.
use codex_background_task_ha.Base.{
  ℕ, Bool, true, false, none, some, Error, Result, ok, ◌>>=◌, ◌>>◌, guard,
}
use codex_background_task_ha.Models.{
  BatchRecord, DeliveryAttemptRecord, CliManagedSessionRecord, NewCliAcceptPendingAttempt,
  NewCodexAppServerAcceptPendingAttempt, AuthorizationMode, trusted_all, cli, codex_app_server,
  accept_pending, pending_acceptance, turn_start,
}
use codex_background_task_ha.Store.{
  Store, query_batch_tx, query_delivery_attempt_tx, query_delivery_attempt_by_rpc_request_id_tx,
  query_cli_managed_session_tx, next_attempt_generation_tx, insert_delivery_attempt,
}
use codex_background_task_ha.Store.Guards.{
  ensure_batch_open, ensure_batch_is_thread_head_tx, ensure_batch_allows_automatic_delivery,
  ensure_batch_is_not_plugin_delivery_tx, ensure_batch_allows_cli_delivery_for_authorization,
  ensure_attempt_budget_remaining, ensure_batch_redelivery_window_open,
  ensure_no_active_attempt_for_thread_tx, ensure_positive_value, ensure_nonempty_value,
  ensure_value, ensure_cli_session_allows_delivery,
  ensure_cli_attempt_has_current_managed_session_tx, ensure_existing_cli_accept_matches_request,
  ensure_existing_codex_app_server_accept_matches_request,
}

abbrev pub Reply : Type 0
Reply = Result (Store × DeliveryAttemptRecord)

-- Reading the row back after the updates.
unfoldable pub reply : Store → ℕ → Reply
reply s k = do record_ ← query_delivery_attempt_tx s k; ok (s, record_)

-- The row that `begin_cli_accept_pending_attempt` inserts.
unfoldable pub cli_attempt_row :
    NewCliAcceptPendingAttempt
    → AuthorizationMode
    → BatchRecord
    → CliManagedSessionRecord
    → ℕ
    → DeliveryAttemptRecord
cli_attempt_row r mode b c generation = record {
  attempt_id = r.attempt_id;
  batch_id = r.batch_id;
  source_thread_id = b.source_thread_id;
  adapter_kind = cli;
  authorization_mode = mode;
  state = accept_pending;
  generation = generation;
  delivery_rpc_request_id = some r.delivery_rpc_request_id;
  delivery_rpc_kind = r.delivery_rpc_kind;
  delivery_rpc_state = some pending_acceptance;
  delivery_rpc_correlation_marker = some r.delivery_rpc_correlation_marker;
  delivery_rpc_started_at = some r.delivery_rpc_started_at;
  managed_session_id = some r.managed_session_id;
  session_epoch = some r.session_epoch;
  session_activity_revision = c.activity_revision;
  session_capability_revision = c.capability_revision;
  delivery_turn_id = none;
  delivery_accepted_at = none;
  delivery_observation_state = none;
  delivery_observation_deadline = none;
  last_observed_turn_event = none;
  last_observed_turn_event_at = none;
  bridge_request_id = none;
  bridge_arm_lease_id = none;
  bridge_arm_lease_deadline = none;
  arm_pending_since = none;
  arm_pending_deadline = none;
  desktop_armed_at = none;
  created_at = r.delivery_rpc_started_at;
  updated_at = r.delivery_rpc_started_at;
  abandoned_at = none;
  closed_at = none;
}

-- The path of a request that no attempt carries yet.
unfoldable pub begin_cli_new : Store → NewCliAcceptPendingAttempt → AuthorizationMode → Reply
unfolding cli_attempt_row
begin_cli_new s r mode = do
  batch ← query_batch_tx s r.batch_id
  ensure_batch_open batch
  ensure_batch_is_thread_head_tx s batch
  ensure_batch_allows_automatic_delivery batch
  ensure_batch_is_not_plugin_delivery_tx s batch
  ensure_batch_allows_cli_delivery_for_authorization batch mode
  session ← query_cli_managed_session_tx s r.managed_session_id
  ensure_cli_session_allows_delivery session batch.source_thread_id r.session_epoch
      r.delivery_rpc_kind mode
  ensure_attempt_budget_remaining batch
  ensure_no_active_attempt_for_thread_tx s batch.source_thread_id
  generation ← next_attempt_generation_tx s r.batch_id
  s' ← insert_delivery_attempt s (cli_attempt_row r mode batch session generation)
  reply s' r.attempt_id

-- The path of a request that was made before: the attempt is returned, and nothing changes.
unfoldable pub begin_cli_again :
    Store → NewCliAcceptPendingAttempt → AuthorizationMode → DeliveryAttemptRecord → Reply
begin_cli_again s r mode existing = do
  ensure_existing_cli_accept_matches_request existing r mode
  ensure_cli_attempt_has_current_managed_session_tx s existing
  ok (s, existing)

unfoldable pub begin_cli_accept_pending_attempt : Store → NewCliAcceptPendingAttempt → Reply
unfolding begin_cli_new begin_cli_again
begin_cli_accept_pending_attempt s r = do
  mode ← ensure_value r.authorization_mode
  elim (query_delivery_attempt_by_rpc_request_id_tx s r.delivery_rpc_request_id) [
    | none ↦ begin_cli_new s r mode
    | some existing ↦ begin_cli_again s r mode existing
  ]

-- The row that `begin_codex_app_server_accept_pending_attempt_tx` inserts.
unfoldable pub codex_attempt_row :
    NewCodexAppServerAcceptPendingAttempt → BatchRecord → ℕ → DeliveryAttemptRecord
codex_attempt_row r b generation = record {
  attempt_id = r.attempt_id;
  batch_id = r.batch_id;
  source_thread_id = b.source_thread_id;
  adapter_kind = codex_app_server;
  authorization_mode = trusted_all;
  state = accept_pending;
  generation = generation;
  delivery_rpc_request_id = some r.delivery_rpc_request_id;
  delivery_rpc_kind = some turn_start;
  delivery_rpc_state = some pending_acceptance;
  delivery_rpc_correlation_marker = some r.delivery_rpc_correlation_marker;
  delivery_rpc_started_at = some r.delivery_rpc_started_at;
  managed_session_id = some r.managed_session_id;
  session_epoch = some r.session_epoch;
  session_activity_revision = 0;
  session_capability_revision = 0;
  delivery_turn_id = none;
  delivery_accepted_at = none;
  delivery_observation_state = none;
  delivery_observation_deadline = none;
  last_observed_turn_event = none;
  last_observed_turn_event_at = none;
  bridge_request_id = none;
  bridge_arm_lease_id = none;
  bridge_arm_lease_deadline = none;
  arm_pending_since = none;
  arm_pending_deadline = none;
  desktop_armed_at = none;
  created_at = r.delivery_rpc_started_at;
  updated_at = r.delivery_rpc_started_at;
  abandoned_at = none;
  closed_at = none;
}

-- The reply says whether the attempt was created.
abbrev pub CreatedReply : Type 0
CreatedReply = Result (Store × (DeliveryAttemptRecord × Bool))

unfoldable pub begin_codex_new : Store → NewCodexAppServerAcceptPendingAttempt → CreatedReply
unfolding codex_attempt_row
begin_codex_new s r = do
  batch ← query_batch_tx s r.batch_id
  ensure_batch_open batch
  ensure_batch_is_thread_head_tx s batch
  ensure_batch_allows_automatic_delivery batch
  ensure_batch_redelivery_window_open batch r.delivery_rpc_started_at
  ensure_attempt_budget_remaining batch
  ensure_no_active_attempt_for_thread_tx s batch.source_thread_id
  generation ← next_attempt_generation_tx s r.batch_id
  p ← insert_delivery_attempt s (codex_attempt_row r batch generation) >>= λ s'.
      reply s' r.attempt_id
  ok (p.0, (p.1, true))

-- `is_path_component` is `validate_id_path_component` of fs_layout.rs, a test of the text's bytes.
unfoldable pub validate_codex_app_server_accept_pending_attempt :
    (ℕ → Bool) → NewCodexAppServerAcceptPendingAttempt → Result (Unit {0})
validate_codex_app_server_accept_pending_attempt is_path_component r = do
  guard (is_path_component r.attempt_id) Error.unsupported_value
  ensure_nonempty_value r.managed_session_id
  ensure_positive_value r.session_epoch
  ensure_nonempty_value r.delivery_rpc_request_id
  ensure_nonempty_value r.delivery_rpc_correlation_marker

unfoldable pub begin_codex_app_server_accept_pending_attempt_tx :
    Store → NewCodexAppServerAcceptPendingAttempt → CreatedReply
unfolding begin_codex_new
begin_codex_app_server_accept_pending_attempt_tx s r =
    elim (query_delivery_attempt_by_rpc_request_id_tx s r.delivery_rpc_request_id) [
      | none ↦ begin_codex_new s r
      | some existing ↦
          ensure_existing_codex_app_server_accept_matches_request existing r
          >> ok (s, (existing, false))
    ]

unfoldable pub begin_codex_app_server_accept_pending_attempt_with_created :
    (ℕ → Bool) → Store → NewCodexAppServerAcceptPendingAttempt → CreatedReply
unfolding validate_codex_app_server_accept_pending_attempt
    begin_codex_app_server_accept_pending_attempt_tx
begin_codex_app_server_accept_pending_attempt_with_created is_path_component s r = do
  validate_codex_app_server_accept_pending_attempt is_path_component r
  begin_codex_app_server_accept_pending_attempt_tx s r
