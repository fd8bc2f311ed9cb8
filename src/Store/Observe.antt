-- ===== src/Store/Observe.antt =====
-- The turn events that an adapter reports of an accepted attempt (store.rs, `observe_*`). The
-- manifests that the code rewrites after the transaction are files, outside the model.
use codex_background_task_ha.Base.{
  ℕ, Bool, ◌&&◌, Option, none, some, ◌==◌, if◌then◌else◌, update_where, count_where, Error, Result,
  ok, is_ok, ◌>>=◌, ◌>>◌, guard,
}
use codex_background_task_ha.Models.{
  BatchRecord, DeliveryAttemptRecord, AttemptState, ObservationState, TurnEvent, turn_started,
  turn_completed, turn_failed, turn_interrupted, turn_replaced, cli, codex_app_server, adapter_eq,
  is_abandoned, is_lost, is_unsettled,
}
use codex_background_task_ha.Store.{Store, query_batch_tx, query_delivery_attempt_tx}
use codex_background_task_ha.Store.Batches.{
  manualize_codex_app_server_batch_tx, manualize_cli_batch_after_observation_loss_tx,
  close_batch_tx, extend_closed_batch_artifact_retention_tx,
}
use codex_background_task_ha.Store.Attempts.{Reply, reply}
use codex_background_task_ha.Store.Outcomes.{is_tracked_attempt}
use codex_background_task_ha.Store.Guards.{
  ensure_batch_open, ensure_batch_is_thread_head_tx, ensure_batch_allows_automatic_delivery,
  ensure_attempt_is_current_generation_tx, ensure_nonempty_value, ensure_value,
  ensure_cli_attempt_has_current_managed_session_for_batch_tx,
  ensure_cli_attempt_has_recorded_detached_delivery_proof_snapshot,
  ensure_cli_turn_observation_matches_attempt, ensure_attempt_tracking_turn_observation_for_adapter,
  is_idempotent_terminal_cli_turn_observation, can_record_late_cli_turn_evidence,
  cli_turn_observation_is_after_deadline, can_complete_delayed_cli_turn_after_expiry,
}

-- The event is written down, and nothing else of the attempt changes.
unfoldable pub note_event : TurnEvent → ℕ → DeliveryAttemptRecord → DeliveryAttemptRecord
note_event event now a = record a {
  last_observed_turn_event = some event;
  last_observed_turn_event_at = some now;
  updated_at = now;
}

unfoldable pub note_event_tx : Store → ℕ → TurnEvent → ℕ → Store
unfolding note_event
note_event_tx s k event now = record s {
  delivery_attempts =
      update_where (is_tracked_attempt k) (note_event event now) s.delivery_attempts;
}

unfoldable pub abandon_turn :
    TurnEvent → ObservationState → ℕ → DeliveryAttemptRecord → DeliveryAttemptRecord
abandon_turn event observation now a = record a {
  state = AttemptState.abandoned;
  delivery_observation_state = some observation;
  last_observed_turn_event = some event;
  last_observed_turn_event_at = some now;
  updated_at = now;
  abandoned_at = some now;
}

unfoldable pub abandon_cli_turn_observation_tx :
    Store → DeliveryAttemptRecord → TurnEvent → ObservationState → ℕ → Store
unfolding abandon_turn
abandon_cli_turn_observation_tx s a event observation now = record s {
  delivery_attempts =
      update_where (is_tracked_attempt a.attempt_id) (abandon_turn event observation now)
        s.delivery_attempts;
}

unfoldable pub is_unsettled_attempt : ℕ → DeliveryAttemptRecord → Bool
is_unsettled_attempt k a =
    a.attempt_id == k && is_abandoned a.state && is_unsettled a.last_observed_turn_event

unfoldable pub record_late_cli_turn_evidence_tx :
    Store → DeliveryAttemptRecord → TurnEvent → ℕ → Store
unfolding note_event is_unsettled_attempt
record_late_cli_turn_evidence_tx s a event now = record s {
  delivery_attempts =
      update_where (is_unsettled_attempt a.attempt_id) (note_event event now) s.delivery_attempts;
}

unfoldable pub complete_turn : ℕ → DeliveryAttemptRecord → DeliveryAttemptRecord
complete_turn now a = record a {
  delivery_observation_state = some ObservationState.completed;
  last_observed_turn_event = some turn_completed;
  last_observed_turn_event_at = some now;
  updated_at = now;
}

unfoldable pub complete_delayed_turn : ℕ → DeliveryAttemptRecord → DeliveryAttemptRecord
complete_delayed_turn now a = record a {
  state = AttemptState.cooldown;
  delivery_observation_state = some ObservationState.completed;
  last_observed_turn_event = some turn_completed;
  last_observed_turn_event_at = some now;
  updated_at = now;
  abandoned_at = none;
}

unfoldable pub is_lost_attempt : ℕ → DeliveryAttemptRecord → Bool
is_lost_attempt k a =
    a.attempt_id == k && is_abandoned a.state && is_lost a.delivery_observation_state

-- `note` is the close note, which names the adapter.
unfoldable pub deliver_batch : Store → ℕ → ℕ → ℕ → ℕ → Result Store
deliver_batch s batch_id delivered note now = do
  s' ← close_batch_tx s batch_id delivered (some note) now
  extend_closed_batch_artifact_retention_tx s' batch_id now

-- The texts 'delivered', 'observed CLI turn completion' and the note of the app server.
pub record CloseTexts : Type 0 where
  pub delivered : ℕ
  pub cli_note : ℕ
  pub codex_note : ℕ

module _ (t : CloseTexts) where
  open t use {delivered, cli_note, codex_note}

  unfoldable pub complete_delayed_cli_turn_after_expiry_tx :
      Store → DeliveryAttemptRecord → ℕ → Result Store
  unfolding is_lost_attempt complete_delayed_turn deliver_batch
  complete_delayed_cli_turn_after_expiry_tx s a now = do
    batch ← query_batch_tx s a.batch_id
    ensure_batch_open batch
    ensure_batch_is_thread_head_tx s batch
    ensure_attempt_is_current_generation_tx s a
    guard (count_where (is_lost_attempt a.attempt_id) s.delivery_attempts == 1)
        Error.not_delayed_eligible
    deliver_batch
        (record s {
          delivery_attempts =
              update_where (is_lost_attempt a.attempt_id) (complete_delayed_turn now)
                s.delivery_attempts;
        })
        a.batch_id delivered cli_note now

  -- A completion that arrives after the expiry, but happened before the deadline.
  unfoldable pub observe_delayed_completion :
      Store → DeliveryAttemptRecord → ℕ → TurnEvent → ℕ → Reply
  unfolding complete_delayed_cli_turn_after_expiry_tx
  observe_delayed_completion s a k event now =
      if is_ok (ensure_cli_attempt_has_recorded_detached_delivery_proof_snapshot a)
      then (do s' ← complete_delayed_cli_turn_after_expiry_tx s a now; reply s' k)
      else reply (record_late_cli_turn_evidence_tx s a event now) k

  unfoldable pub complete_rows : Store → ℕ → ℕ → Store
  unfolding complete_turn
  complete_rows s k now = record s {
    delivery_attempts = update_where (is_tracked_attempt k) (complete_turn now) s.delivery_attempts;
  }

  -- `note` and `lose` differ between the adapters.
  unfoldable pub observe_completion :
      Store → DeliveryAttemptRecord → BatchRecord → ℕ → ℕ → ℕ → Result Store
  unfolding complete_rows deliver_batch
  observe_completion s a batch k note now = do
    ensure_batch_allows_automatic_delivery batch
    deliver_batch (complete_rows s k now) a.batch_id delivered note now

  unfoldable pub observe_cli_loss :
      Store → DeliveryAttemptRecord → TurnEvent → ObservationState → ℕ → Result Store
  observe_cli_loss s a event observation now =
      manualize_cli_batch_after_observation_loss_tx
        (abandon_cli_turn_observation_tx s a event observation now) a now

  unfoldable pub observe_codex_loss :
      Store → DeliveryAttemptRecord → TurnEvent → ObservationState → ℕ → Result Store
  observe_codex_loss s a event observation now =
      manualize_codex_app_server_batch_tx
        (abandon_cli_turn_observation_tx s a event observation now) a now

  -- The match on `turn_event`, within the deadline.
  unfoldable pub apply_cli_event :
      Store → DeliveryAttemptRecord → BatchRecord → ℕ → TurnEvent → ℕ → Result Store
  unfolding observe_completion observe_cli_loss
  apply_cli_event s a batch k turn_started now = ok (note_event_tx s k turn_started now)
  apply_cli_event s a batch k turn_completed now = observe_completion s a batch k cli_note now
  apply_cli_event s a batch k turn_failed now =
      observe_cli_loss s a turn_failed ObservationState.abandoned now
  apply_cli_event s a batch k turn_interrupted now =
      observe_cli_loss s a turn_interrupted ObservationState.abandoned now
  apply_cli_event s a batch k turn_replaced now =
      observe_cli_loss s a turn_replaced ObservationState.abandoned now

  unfoldable pub apply_codex_event :
      Store → DeliveryAttemptRecord → BatchRecord → ℕ → TurnEvent → ℕ → Result Store
  unfolding observe_completion observe_codex_loss
  apply_codex_event s a batch k turn_started now = ok (note_event_tx s k turn_started now)
  apply_codex_event s a batch k turn_completed now = observe_completion s a batch k codex_note now
  apply_codex_event s a batch k turn_failed now =
      observe_codex_loss s a turn_failed ObservationState.abandoned now
  apply_codex_event s a batch k turn_interrupted now =
      observe_codex_loss s a turn_interrupted ObservationState.abandoned now
  apply_codex_event s a batch k turn_replaced now =
      observe_codex_loss s a turn_replaced ObservationState.abandoned now

  unfoldable pub observe_cli_tracked : Store → DeliveryAttemptRecord → ℕ → TurnEvent → ℕ → Reply
  unfolding apply_cli_event observe_cli_loss
  observe_cli_tracked s a k event now = do
    ensure_attempt_tracking_turn_observation_for_adapter a cli
    batch ← query_batch_tx s a.batch_id
    ensure_batch_open batch
    ensure_batch_is_thread_head_tx s batch
    ensure_attempt_is_current_generation_tx s a
    if is_ok (ensure_cli_attempt_has_current_managed_session_for_batch_tx s a batch)
        then (do
          late ← cli_turn_observation_is_after_deadline a now
          s' ←
              if late
              then observe_cli_loss s a event ObservationState.expired now
              else apply_cli_event s a batch k event now
          reply s' k)
        else (do s' ← observe_cli_loss s a event ObservationState.abandoned now; reply s' k)

  unfoldable pub observe_cli_turn_event : Store → ℕ → ℕ → Option TurnEvent → ℕ → Reply
  unfolding observe_delayed_completion observe_cli_tracked
  observe_cli_turn_event s k turn turn_event now = do
    ensure_nonempty_value turn
    event ← ensure_value turn_event
    a ← query_delivery_attempt_tx s k
    guard (adapter_eq a.adapter_kind cli) Error.not_cli_attempt
    ensure_cli_turn_observation_matches_attempt a turn
    if is_idempotent_terminal_cli_turn_observation a event then ok (s, a) else (do
      delayed ← can_complete_delayed_cli_turn_after_expiry a event now
      if delayed
          then observe_delayed_completion s a k event now
          else if can_record_late_cli_turn_evidence a event
          then reply (record_late_cli_turn_evidence_tx s a event now) k
          else observe_cli_tracked s a k event now)

  unfoldable pub observe_codex_tracked : Store → DeliveryAttemptRecord → ℕ → TurnEvent → ℕ → Reply
  unfolding apply_codex_event observe_codex_loss
  observe_codex_tracked s a k event now = do
    ensure_attempt_tracking_turn_observation_for_adapter a codex_app_server
    batch ← query_batch_tx s a.batch_id
    ensure_batch_open batch
    ensure_batch_is_thread_head_tx s batch
    ensure_attempt_is_current_generation_tx s a
    late ← cli_turn_observation_is_after_deadline a now
    s' ←
        if late
        then observe_codex_loss s a event ObservationState.expired now
        else apply_codex_event s a batch k event now
    reply s' k

  unfoldable pub observe_codex_app_server_turn_event : Store → ℕ → ℕ → Option TurnEvent → ℕ → Reply
  unfolding observe_codex_tracked
  observe_codex_app_server_turn_event s k turn turn_event now = do
    ensure_nonempty_value turn
    event ← ensure_value turn_event
    a ← query_delivery_attempt_tx s k
    ensure_cli_turn_observation_matches_attempt a turn
    if is_idempotent_terminal_cli_turn_observation a event
        then ok (s, a)
        else if can_record_late_cli_turn_evidence a event
        then reply (record_late_cli_turn_evidence_tx s a event now) k
        else observe_codex_tracked s a k event now
