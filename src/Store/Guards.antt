-- ===== src/Store/Guards.antt =====
-- The `ensure_*` checks of store.rs.
use codex_background_task_ha.Base.{
  ℕ, Bool, false, not, ◌&&◌, ◌||◌, Option, none, some, ltb, leb, ◌==◌, if◌then◌else◌, column_eq,
  is_some, any_where, Error, Result, ok, err, found, ◌>>=◌, ◌>>◌, guard,
}
use codex_background_task_ha.Models.{
  JobRecord, BatchRecord, DeliveryAttemptRecord, CliManagedSessionRecord,
  NewCliAcceptPendingAttempt, NewCodexAppServerAcceptPendingAttempt, AuthorizationMode, strict_safe,
  trusted_all, ActivityState, active, idle, unknown, AdapterKind, cli, codex_app_server, RpcKind,
  turn_start, turn_steer, TurnEvent, is_pending, is_open, is_automatic, is_attached, activity_eq,
  adapter_eq, mode_eq, rpc_kind_eq, is_accept_pending, is_cooldown, is_abandoned, is_ended,
  is_pending_acceptance, is_accepted, is_tracking, is_expired, is_lost, is_unsettled,
  is_terminal_event, is_turn_completed, event_eq,
}
use codex_background_task_ha.Store.{
  Store, query_batch_tx, query_cli_managed_session_tx, batch_is_thread_head_tx, in_flight,
  max_generation,
}

abbrev Check : Type 0
Check = Result (Unit {0})

unfoldable pub ensure_job_pending : JobRecord → Check
ensure_job_pending j = guard (is_pending j.status) Error.job_not_pending

unfoldable pub ensure_batch_open : BatchRecord → Check
ensure_batch_open b = guard (is_open b.state) Error.batch_not_open

unfoldable pub ensure_batch_is_thread_head_tx : Store → BatchRecord → Check
ensure_batch_is_thread_head_tx s b = guard (batch_is_thread_head_tx s b) Error.batch_not_head

unfoldable pub ensure_batch_allows_automatic_delivery : BatchRecord → Check
ensure_batch_allows_automatic_delivery b =
    guard (is_automatic b.replay_policy) Error.batch_not_automatic

unfoldable pub ensure_batch_is_not_plugin_delivery_tx : Store → BatchRecord → Check
ensure_batch_is_not_plugin_delivery_tx s b =
    guard (not (any_where (λ p. p.batch_id == b.batch_id) s.plugin_delivery_requests))
      Error.batch_reserved_for_plugin

unfoldable pub ensure_batch_allows_detached_cli_delivery : BatchRecord → Check
ensure_batch_allows_detached_cli_delivery b =
    guard
      (p.delivery_read_only
        && not p.delivery_requires_approval
        && not p.delivery_requires_network
        && not p.delivery_requires_write_access
        && not b.requires_artifact_read)
      Error.batch_not_detached
  where
    open b use {delivery_policy as p}

unfoldable pub ensure_batch_allows_cli_delivery_for_authorization :
    BatchRecord → AuthorizationMode → Check
unfolding ensure_batch_allows_detached_cli_delivery
ensure_batch_allows_cli_delivery_for_authorization b strict_safe =
    ensure_batch_allows_detached_cli_delivery b
ensure_batch_allows_cli_delivery_for_authorization b trusted_all = ok tt

unfoldable pub ensure_attempt_budget_remaining : BatchRecord → Check
ensure_attempt_budget_remaining b =
    guard (ltb b.delivery_attempt_count b.max_delivery_attempts) Error.attempts_exhausted

unfoldable pub ensure_batch_redelivery_window_open : BatchRecord → ℕ → Check
ensure_batch_redelivery_window_open b now =
    guard (ltb now b.redelivery_window_ends_at) Error.window_closed

unfoldable pub ensure_no_active_attempt_for_thread_tx : Store → ℕ → Check
ensure_no_active_attempt_for_thread_tx s thread =
    guard (not (any_where (in_flight s.batches thread) s.delivery_attempts))
      Error.thread_has_active_attempt

unfoldable pub ensure_attempt_is_current_generation_tx : Store → DeliveryAttemptRecord → Check
ensure_attempt_is_current_generation_tx s a =
    guard (column_eq (max_generation s.delivery_attempts a.batch_id) a.generation)
      Error.attempt_not_current

unfoldable pub ensure_positive_value : ℕ → Check
ensure_positive_value n = guard (ltb 0 n) Error.must_be_positive

unfoldable pub ensure_nonempty_value : ℕ → Check
ensure_nonempty_value text = guard (not (text == 0)) Error.must_not_be_empty

-- An argument's text names a value of its column, or is refused.
unfoldable pub ensure_value {ℓ} : {A : Type ℓ} → Option A → Result A
ensure_value value = found value Error.unsupported_value

unfoldable pub ensure_cli_session_activity_value : ActivityState → Check
ensure_cli_session_activity_value unknown = err Error.unsupported_value
ensure_cli_session_activity_value active = ok tt
ensure_cli_session_activity_value idle = ok tt

-- Sessions.
unfoldable pub ensure_cli_session_epoch_matches : CliManagedSessionRecord → ℕ → Check
ensure_cli_session_epoch_matches c epoch =
    guard (c.session_epoch == epoch) Error.session_epoch_mismatch

unfoldable pub ensure_cli_session_attachable : CliManagedSessionRecord → Check
ensure_cli_session_attachable c = guard (is_attached c.session_state) Error.session_not_attachable

unfoldable pub cli_session_startup_permissions_are_pinned : CliManagedSessionRecord → Bool
cli_session_startup_permissions_are_pinned c =
    is_some c.startup_session_allows_approval
    && is_some c.startup_session_allows_network
    && is_some c.startup_session_allows_write_access
    && is_some c.startup_permission_snapshot_json

unfoldable pub cli_session_current_permission_snapshot_is_fresh : CliManagedSessionRecord → Bool
cli_session_current_permission_snapshot_is_fresh c =
    is_some c.last_permission_snapshot_json && ltb 0 c.permission_snapshot_revision

unfoldable pub ensure_cli_session_has_minimum_turn_start_capabilities :
    CliManagedSessionRecord → Check
ensure_cli_session_has_minimum_turn_start_capabilities c =
    guard
      ((c.capability_thread_resume || c.capability_thread_start)
        && c.capability_turn_start
        && c.capability_current_state_sync
        && c.capability_turn_completed_event
        && c.capability_negative_terminal_events)
      Error.session_incapable

-- The checks that only a `strict_safe` attempt makes.
unfoldable pub ensure_cli_session_strict_safe : CliManagedSessionRecord → AuthorizationMode → Check
unfolding cli_session_startup_permissions_are_pinned
    cli_session_current_permission_snapshot_is_fresh
ensure_cli_session_strict_safe c trusted_all = ok tt
ensure_cli_session_strict_safe c strict_safe = do
  guard
      (not (
        cli_session_startup_permissions_are_pinned c
        && not (cli_session_current_permission_snapshot_is_fresh c)))
      Error.session_snapshot_stale
  guard
      (not c.session_allows_approval
        && not c.session_allows_network
        && not c.session_allows_write_access)
      Error.session_not_eligible

unfoldable pub ensure_cli_session_identity_allows_delivery :
    CliManagedSessionRecord → ℕ → ℕ → AuthorizationMode → Check
unfolding ensure_cli_session_epoch_matches ensure_cli_session_strict_safe
ensure_cli_session_identity_allows_delivery c thread epoch mode = do
  guard (c.bound_thread_id == thread) Error.session_bound_elsewhere
  ensure_cli_session_epoch_matches c epoch
  guard (is_attached c.session_state) Error.session_not_live
  ensure_cli_session_strict_safe c mode

-- The proof that the session can take a turn of this kind now.
unfoldable pub ensure_cli_session_ready_for : CliManagedSessionRecord → Option RpcKind → Check
unfolding ensure_cli_session_has_minimum_turn_start_capabilities
ensure_cli_session_ready_for c none = err Error.unsupported_value
ensure_cli_session_ready_for c (some turn_steer) = err Error.steer_not_implemented
ensure_cli_session_ready_for c (some turn_start) = do
  ensure_cli_session_has_minimum_turn_start_capabilities c
  guard (activity_eq c.activity_state idle) Error.session_not_idle

unfoldable pub ensure_cli_session_allows_delivery :
    CliManagedSessionRecord → ℕ → ℕ → Option RpcKind → AuthorizationMode → Check
unfolding ensure_cli_session_identity_allows_delivery ensure_cli_session_ready_for
ensure_cli_session_allows_delivery c thread epoch kind mode = do
  ensure_cli_session_identity_allows_delivery c thread epoch mode
  ensure_cli_session_ready_for c kind

-- Attempts.
unfoldable pub ensure_cli_attempt_has_recorded_detached_delivery_proof_snapshot :
    DeliveryAttemptRecord → Result RpcKind
ensure_cli_attempt_has_recorded_detached_delivery_proof_snapshot a = do
  kind ← found a.delivery_rpc_kind Error.no_rpc_kind
  elim kind [
    | turn_start ↦
        guard (ltb 0 a.session_activity_revision && ltb 0 a.session_capability_revision)
          Error.no_proof
        >> ok turn_start
    | turn_steer ↦ err Error.steer_not_implemented
  ]

unfoldable pub ensure_cli_attempt_has_recorded_detached_delivery_proof :
    DeliveryAttemptRecord → CliManagedSessionRecord → Check
ensure_cli_attempt_has_recorded_detached_delivery_proof a c = do
  kind ← ensure_cli_attempt_has_recorded_detached_delivery_proof_snapshot a
  elim kind [
    | turn_start ↦
        guard (leb a.session_capability_revision c.capability_revision) Error.stale_proof
        >> ensure_cli_session_has_minimum_turn_start_capabilities c
    | turn_steer ↦ err Error.steer_not_implemented
  ]

unfoldable pub ensure_cli_attempt_has_current_managed_session_for_batch_tx :
    Store → DeliveryAttemptRecord → BatchRecord → Check
ensure_cli_attempt_has_current_managed_session_for_batch_tx s a b = do
  managed_session_id ← found a.managed_session_id Error.no_session
  session_epoch ← found a.session_epoch Error.no_epoch
  session ← query_cli_managed_session_tx s managed_session_id
  ensure_cli_session_identity_allows_delivery session b.source_thread_id session_epoch
      a.authorization_mode
  ensure_cli_attempt_has_recorded_detached_delivery_proof a session

unfoldable pub ensure_cli_attempt_has_current_managed_session_tx :
    Store → DeliveryAttemptRecord → Check
ensure_cli_attempt_has_current_managed_session_tx s a = do
  batch ← query_batch_tx s a.batch_id
  ensure_cli_attempt_has_current_managed_session_for_batch_tx s a batch

unfoldable pub ensure_existing_cli_accept_matches_request :
    DeliveryAttemptRecord → NewCliAcceptPendingAttempt → AuthorizationMode → Check
ensure_existing_cli_accept_matches_request a r mode =
    guard
      (adapter_eq a.adapter_kind cli
        && a.batch_id == r.batch_id
        && column_eq a.managed_session_id r.managed_session_id
        && column_eq a.session_epoch r.session_epoch
        && rpc_kind_eq a.delivery_rpc_kind r.delivery_rpc_kind
        && mode_eq a.authorization_mode mode)
      Error.request_mismatch

unfoldable pub ensure_existing_codex_app_server_accept_matches_request :
    DeliveryAttemptRecord → NewCodexAppServerAcceptPendingAttempt → Check
ensure_existing_codex_app_server_accept_matches_request a r =
    guard
      (adapter_eq a.adapter_kind codex_app_server
        && a.batch_id == r.batch_id
        && column_eq a.managed_session_id r.managed_session_id
        && column_eq a.session_epoch r.session_epoch
        && rpc_kind_eq a.delivery_rpc_kind (some turn_start))
      Error.request_mismatch

unfoldable pub ensure_attempt_accept_pending_for_adapter :
    DeliveryAttemptRecord → AdapterKind → Check
ensure_attempt_accept_pending_for_adapter a kind =
    guard
      (adapter_eq a.adapter_kind kind
        && is_accept_pending a.state
        && is_pending_acceptance a.delivery_rpc_state)
      Error.not_accept_pending

unfoldable pub ensure_cli_turn_observation_matches_attempt : DeliveryAttemptRecord → ℕ → Check
ensure_cli_turn_observation_matches_attempt a turn =
    guard (column_eq a.delivery_turn_id turn) Error.turn_mismatch

unfoldable pub ensure_attempt_tracking_turn_observation_for_adapter :
    DeliveryAttemptRecord → AdapterKind → Check
ensure_attempt_tracking_turn_observation_for_adapter a kind =
    guard
      (adapter_eq a.adapter_kind kind
        && is_cooldown a.state
        && is_accepted a.delivery_rpc_state
        && is_tracking a.delivery_observation_state
        && is_some a.delivery_turn_id)
      Error.not_tracking

unfoldable pub is_idempotent_terminal_cli_turn_observation :
    DeliveryAttemptRecord → TurnEvent → Bool
is_idempotent_terminal_cli_turn_observation a event =
    is_ended a.state && event_eq a.last_observed_turn_event event

unfoldable pub can_record_late_cli_turn_evidence : DeliveryAttemptRecord → TurnEvent → Bool
can_record_late_cli_turn_evidence a event =
    is_abandoned a.state
    && is_lost a.delivery_observation_state
    && is_unsettled a.last_observed_turn_event
    && is_terminal_event event

unfoldable pub cli_turn_observation_is_after_deadline : DeliveryAttemptRecord → ℕ → Result Bool
cli_turn_observation_is_after_deadline a observed_at = do
  deadline ← found a.delivery_observation_deadline Error.no_deadline
  ok (leb deadline observed_at)

unfoldable pub can_complete_delayed_cli_turn_after_expiry :
    DeliveryAttemptRecord → TurnEvent → ℕ → Result Bool
unfolding cli_turn_observation_is_after_deadline
can_complete_delayed_cli_turn_after_expiry a event observed_at =
    if is_turn_completed event
      && is_abandoned a.state
      && is_accepted a.delivery_rpc_state
      && is_expired a.delivery_observation_state
      && is_unsettled a.last_observed_turn_event
    then (do late ← cli_turn_observation_is_after_deadline a observed_at; ok (not late))
    else ok false
