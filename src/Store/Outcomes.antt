-- ===== src/Store/Outcomes.antt =====
-- The calls of store.rs that accept, refuse or give up a pending attempt.
use codex_background_task_ha.Base.{
  ℕ, suc, Bool, true, false, ◌&&◌, ◌||◌, some, leb, ◌==◌, if◌then◌else◌, column_eq, update_where,
  count_where, Error, Result, ok, is_ok, ◌>>=◌, ◌>>◌, guard,
}
use codex_background_task_ha.Models.{
  BatchRecord, DeliveryAttemptRecord, AttemptState, ObservationState, RpcState, cli,
  codex_app_server, accepted, rejected_before_accept, tracking, is_accept_pending, is_cooldown,
  is_abandoned, is_pending_acceptance, is_accepted, is_rejected_before_accept, is_unknown,
  is_tracking, is_lost,
}
use codex_background_task_ha.Store.{Store, query_batch_tx, query_delivery_attempt_tx}
use codex_background_task_ha.Store.Fences.{invalidate_cli_managed_session_activity_tx}
use codex_background_task_ha.Store.Batches.{
  manualize_codex_app_server_batch_tx, manualize_cli_batch_after_pre_accept_rejection_tx,
  manualize_cli_batch_after_observation_loss_tx, count_delivery_tx,
}
use codex_background_task_ha.Store.Attempts.{Reply, reply}
use codex_background_task_ha.Store.Guards.{
  ensure_batch_open, ensure_batch_is_thread_head_tx, ensure_batch_allows_automatic_delivery,
  ensure_batch_allows_cli_delivery_for_authorization, ensure_attempt_budget_remaining,
  ensure_attempt_is_current_generation_tx, ensure_nonempty_value,
  ensure_cli_attempt_has_current_managed_session_for_batch_tx,
  ensure_cli_attempt_has_current_managed_session_tx, ensure_attempt_accept_pending_for_adapter,
  ensure_attempt_tracking_turn_observation_for_adapter, cli_turn_observation_is_after_deadline,
}

-- `WHERE attempt_id = ? AND state = 'accept_pending' AND delivery_rpc_state = 'pending_acceptance'`.
unfoldable pub is_pending_attempt : ℕ → DeliveryAttemptRecord → Bool
is_pending_attempt k a =
    a.attempt_id == k && is_accept_pending a.state && is_pending_acceptance a.delivery_rpc_state

-- `WHERE attempt_id = ? AND state = 'cooldown' AND delivery_observation_state = 'tracking'`.
unfoldable pub is_tracked_attempt : ℕ → DeliveryAttemptRecord → Bool
is_tracked_attempt k a =
    a.attempt_id == k && is_cooldown a.state && is_tracking a.delivery_observation_state

unfoldable pub accept_row : ℕ → ℕ → ℕ → DeliveryAttemptRecord → DeliveryAttemptRecord
accept_row turn now deadline a = record a {
  state = AttemptState.cooldown;
  delivery_rpc_state = some accepted;
  delivery_turn_id = some turn;
  delivery_accepted_at = some now;
  delivery_observation_state = some tracking;
  delivery_observation_deadline = some deadline;
  updated_at = now;
}

unfoldable pub accept_rows : Store → ℕ → ℕ → ℕ → ℕ → Store
unfolding accept_row is_pending_attempt
accept_rows s k turn now deadline = record s {
  delivery_attempts =
      update_where (is_pending_attempt k) (accept_row turn now deadline) s.delivery_attempts;
}

-- A pending attempt that ends without a turn, in the RPC state `rpc`.
unfoldable pub refuse_row : RpcState → ℕ → DeliveryAttemptRecord → DeliveryAttemptRecord
refuse_row rpc now a = record a {
  state = AttemptState.abandoned;
  delivery_rpc_state = some rpc;
  delivery_observation_state = some ObservationState.abandoned;
  updated_at = now;
  abandoned_at = some now;
}

unfoldable pub refuse_rows : Store → ℕ → RpcState → ℕ → Store
unfolding refuse_row is_pending_attempt
refuse_rows s k rpc now = record s {
  delivery_attempts = update_where (is_pending_attempt k) (refuse_row rpc now) s.delivery_attempts;
}

-- A repeated acceptance of the same turn.
unfoldable pub is_accepted_turn : DeliveryAttemptRecord → ℕ → Bool
is_accepted_turn a turn =
    is_cooldown a.state && is_accepted a.delivery_rpc_state && column_eq a.delivery_turn_id turn

unfoldable pub accept_cli_pending : Store → DeliveryAttemptRecord → ℕ → ℕ → ℕ → ℕ → Reply
unfolding accept_rows
accept_cli_pending s a k turn now deadline = do
  ensure_attempt_accept_pending_for_adapter a cli
  batch ← query_batch_tx s a.batch_id
  ensure_batch_open batch
  ensure_batch_is_thread_head_tx s batch
  ensure_batch_allows_automatic_delivery batch
  ensure_batch_allows_cli_delivery_for_authorization batch a.authorization_mode
  ensure_cli_attempt_has_current_managed_session_for_batch_tx s a batch
  ensure_attempt_budget_remaining batch
  ensure_attempt_is_current_generation_tx s a
  s' ← count_delivery_tx (accept_rows s k turn now deadline) a.batch_id now
  reply s' k

unfoldable pub accept_cli_attempt : Store → ℕ → ℕ → ℕ → ℕ → Reply
unfolding accept_cli_pending is_accepted_turn
accept_cli_attempt s k turn now deadline = do
  ensure_nonempty_value turn
  a ← query_delivery_attempt_tx s k
  if is_accepted_turn a turn
      then ensure_cli_attempt_has_current_managed_session_tx s a >> ok (s, a)
      else accept_cli_pending s a k turn now deadline

unfoldable pub accept_codex_pending : Store → DeliveryAttemptRecord → ℕ → ℕ → ℕ → ℕ → Reply
unfolding accept_rows
accept_codex_pending s a k turn now deadline = do
  ensure_attempt_accept_pending_for_adapter a codex_app_server
  batch ← query_batch_tx s a.batch_id
  ensure_batch_open batch
  ensure_batch_is_thread_head_tx s batch
  ensure_batch_allows_automatic_delivery batch
  ensure_attempt_budget_remaining batch
  ensure_attempt_is_current_generation_tx s a
  s' ← count_delivery_tx (accept_rows s k turn now deadline) a.batch_id now
  reply s' k

unfoldable pub accept_codex_app_server_attempt : Store → ℕ → ℕ → ℕ → ℕ → Reply
unfolding accept_codex_pending is_accepted_turn
accept_codex_app_server_attempt s k turn now deadline = do
  ensure_nonempty_value turn
  a ← query_delivery_attempt_tx s k
  if is_accepted_turn a turn then ok (s, a) else accept_codex_pending s a k turn now deadline

-- A call that is not asked for manual resolution leaves the store alone.
abbrev pub when : Bool → Store → Result Store → Result Store
when true s m = m
when false s m = ok s

unfoldable pub fence_attempt : Store → DeliveryAttemptRecord → ℕ → Store
fence_attempt s a now =
    invalidate_cli_managed_session_activity_tx s a.managed_session_id a.session_epoch now

unfoldable pub reject_cli_again : Store → DeliveryAttemptRecord → ℕ → ℕ → Bool → Reply
unfolding fence_attempt
reject_cli_again s a k now manual =
    if manual
    then (do
      s' ← manualize_cli_batch_after_pre_accept_rejection_tx s a now
      reply (fence_attempt s' a now) k)
    else ok (s, a)

unfoldable pub reject_cli_pending : Store → DeliveryAttemptRecord → ℕ → ℕ → Bool → Reply
unfolding refuse_rows fence_attempt
reject_cli_pending s a k now manual = do
  ensure_attempt_accept_pending_for_adapter a cli
  batch ← query_batch_tx s a.batch_id
  ensure_batch_open batch
  ensure_batch_is_thread_head_tx s batch
  ensure_attempt_is_current_generation_tx s a
  ensure_cli_attempt_has_current_managed_session_for_batch_tx s a batch
  let s' = refuse_rows s k rejected_before_accept now
  s'' ← when manual s' (manualize_cli_batch_after_pre_accept_rejection_tx s' a now)
  reply (fence_attempt s'' a now) k

unfoldable pub reject_cli_attempt_before_accept : Store → ℕ → ℕ → Bool → Reply
unfolding reject_cli_again reject_cli_pending
reject_cli_attempt_before_accept s k now manual = do
  a ← query_delivery_attempt_tx s k
  if is_abandoned a.state && is_rejected_before_accept a.delivery_rpc_state
      then reject_cli_again s a k now manual
      else reject_cli_pending s a k now manual

unfoldable pub reject_codex_again : Store → DeliveryAttemptRecord → ℕ → ℕ → Bool → Reply
reject_codex_again s a k now manual =
    if manual then (do s' ← manualize_codex_app_server_batch_tx s a now; reply s' k) else ok (s, a)

-- The refusal counts against the budget, and the last one hands the batch to manual resolution.
unfoldable pub reject_codex_pending : Store → DeliveryAttemptRecord → ℕ → ℕ → Bool → Reply
unfolding refuse_rows
reject_codex_pending s a k now manual = do
  ensure_attempt_accept_pending_for_adapter a codex_app_server
  batch ← query_batch_tx s a.batch_id
  ensure_batch_open batch
  ensure_batch_is_thread_head_tx s batch
  ensure_attempt_is_current_generation_tx s a
  guard (count_where (is_pending_attempt k) s.delivery_attempts == 1) Error.not_accept_pending
  s' ← count_delivery_tx (refuse_rows s k rejected_before_accept now) a.batch_id now
  s'' ←
      when (manual || leb batch.max_delivery_attempts (suc batch.delivery_attempt_count)) s'
        (manualize_codex_app_server_batch_tx s' a now)
  reply s'' k

unfoldable pub reject_codex_app_server_attempt_before_accept : Store → ℕ → ℕ → Bool → Reply
unfolding reject_codex_again reject_codex_pending
reject_codex_app_server_attempt_before_accept s k now manual = do
  a ← query_delivery_attempt_tx s k
  if is_abandoned a.state && is_rejected_before_accept a.delivery_rpc_state
      then reject_codex_again s a k now manual
      else reject_codex_pending s a k now manual

unfoldable pub abandon_codex_pending : Store → DeliveryAttemptRecord → ℕ → ℕ → Bool → Reply
unfolding refuse_rows
abandon_codex_pending s a k now manual = do
  ensure_attempt_accept_pending_for_adapter a codex_app_server
  batch ← query_batch_tx s a.batch_id
  ensure_batch_open batch
  ensure_attempt_is_current_generation_tx s a
  let s' = refuse_rows s k RpcState.unknown now
  s'' ← when manual s' (manualize_codex_app_server_batch_tx s' a now)
  reply s'' k

unfoldable pub abandon_codex_app_server_attempt_as_unknown : Store → ℕ → ℕ → Bool → Reply
unfolding reject_codex_again abandon_codex_pending
abandon_codex_app_server_attempt_as_unknown s k now manual = do
  a ← query_delivery_attempt_tx s k
  if is_abandoned a.state && is_unknown a.delivery_rpc_state
      then reject_codex_again s a k now manual
      else abandon_codex_pending s a k now manual

-- A tracked turn that ends unobserved, in the observation state `observation`.
unfoldable pub expire_row : ObservationState → ℕ → DeliveryAttemptRecord → DeliveryAttemptRecord
expire_row observation now a = record a {
  state = AttemptState.abandoned;
  delivery_observation_state = some observation;
  updated_at = now;
  abandoned_at = some now;
}

unfoldable pub expire_rows : Store → ℕ → ObservationState → ℕ → Store
unfolding expire_row is_tracked_attempt
expire_rows s k observation now = record s {
  delivery_attempts =
      update_where (is_tracked_attempt k) (expire_row observation now) s.delivery_attempts;
}

-- An observation expires; without its session's proof it is abandoned.
unfoldable pub expired_state : Store → DeliveryAttemptRecord → BatchRecord → ObservationState
expired_state s a b =
    if is_ok (ensure_cli_attempt_has_current_managed_session_for_batch_tx s a b)
    then ObservationState.expired
    else ObservationState.abandoned

unfoldable pub expire_cli_tracked : Store → DeliveryAttemptRecord → ℕ → ℕ → Reply
unfolding expire_rows expired_state
expire_cli_tracked s a k now = do
  ensure_attempt_tracking_turn_observation_for_adapter a cli
  late ← cli_turn_observation_is_after_deadline a now
  guard late Error.deadline_not_elapsed
  batch ← query_batch_tx s a.batch_id
  ensure_batch_open batch
  ensure_batch_is_thread_head_tx s batch
  ensure_attempt_is_current_generation_tx s a
  s' ←
      manualize_cli_batch_after_observation_loss_tx (expire_rows s k (expired_state s a batch) now)
        a now
  reply s' k

unfoldable pub expire_cli_observation : Store → ℕ → ℕ → Reply
unfolding expire_cli_tracked
expire_cli_observation s k now = do
  a ← query_delivery_attempt_tx s k
  if is_abandoned a.state && is_lost a.delivery_observation_state
      then ok (s, a)
      else expire_cli_tracked s a k now
