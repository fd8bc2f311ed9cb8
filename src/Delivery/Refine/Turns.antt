-- ===== src/Delivery/Refine/Turns.antt =====
-- What one turn event does to an attempt and its batch, as a run of moves.
use codex_background_task_ha.Base.{
  ℕ, ◌≡◌, ◌⊎◌, inl, inr, true, some, arith, Post, post_bind, post_seq, post_ok,
}
use codex_background_task_ha.Models.{
  ObservationState, TurnEvent, BatchRecord, DeliveryAttemptRecord,
}
use codex_background_task_ha.Store.{Store}
use codex_background_task_ha.Store.Outcomes.{is_tracked_attempt}
use codex_background_task_ha.Store.Observe.{
  note_event, note_event_tx, abandon_turn, abandon_cli_turn_observation_tx, is_unsettled_attempt,
  record_late_cli_turn_evidence_tx, complete_turn, deliver_batch, CloseTexts, complete_rows,
  observe_completion, observe_cli_loss, observe_codex_loss, apply_cli_event, apply_codex_event,
}
use codex_background_task_ha.Delivery.Edges.{Calm}
use codex_background_task_ha.Delivery.Moves.{Moves}
use codex_background_task_ha.Delivery.Refine.{after, Calm-update, extend-Moves}
use codex_background_task_ha.Delivery.Refine.Settle.{manualize_codex-Moves, manualize_loss-Moves}
use codex_background_task_ha.Delivery.Refine.Close.{close_batch-Moves}

note-Calm :
    (k : ℕ) (event : TurnEvent) (now : ℕ) (a : DeliveryAttemptRecord)
    → (is_tracked_attempt k a ≡ true) ⊎ (is_unsettled_attempt k a ≡ true)
    → Calm a (note_event event now a)
unfolding is_tracked_attempt is_unsettled_attempt note_event
note-Calm k event now a h = ground arith

abandon-Calm :
    (k : ℕ) (event : TurnEvent) (observation : ObservationState) (now : ℕ)
    (a : DeliveryAttemptRecord)
    → is_tracked_attempt k a ≡ true
    → Calm a (abandon_turn event observation now a)
unfolding is_tracked_attempt abandon_turn
abandon-Calm k event observation now a h = ground arith

complete-Calm :
    (k now : ℕ) (a : DeliveryAttemptRecord)
    → is_tracked_attempt k a ≡ true
    → Calm a (complete_turn now a)
unfolding is_tracked_attempt complete_turn
complete-Calm k now a h = ground arith

module _ (s : Store) where
  pub note-Moves : (k : ℕ) (event : TurnEvent) (now : ℕ) → Moves s (note_event_tx s k event now)
  unfolding note_event_tx
  note-Moves k event now =
      Calm-update s (is_tracked_attempt k) (note_event event now)
        λ a h. note-Calm k event now a (inl h)

  pub late-Moves :
      (a : DeliveryAttemptRecord) (event : TurnEvent) (now : ℕ)
      → Moves s (record_late_cli_turn_evidence_tx s a event now)
  unfolding record_late_cli_turn_evidence_tx
  late-Moves a event now =
      Calm-update s (is_unsettled_attempt a.attempt_id) (note_event event now)
        λ x h. note-Calm a.attempt_id event now x (inr h)

  abandon-Moves :
      (a : DeliveryAttemptRecord) (event : TurnEvent) (observation : ObservationState) (now : ℕ)
      → Moves s (abandon_cli_turn_observation_tx s a event observation now)
  unfolding abandon_cli_turn_observation_tx
  abandon-Moves a event observation now =
      Calm-update s (is_tracked_attempt a.attempt_id) (abandon_turn event observation now)
        (abandon-Calm a.attempt_id event observation now)

  complete-Moves : (t : CloseTexts) (k now : ℕ) → Moves s (complete_rows t s k now)
  unfolding complete_rows
  complete-Moves t k now =
      Calm-update s (is_tracked_attempt k) (complete_turn now) (complete-Calm k now)

  deliver-Moves : (k delivered note now : ℕ) → Post (deliver_batch s k delivered note now) (Moves s)
  unfolding deliver_batch
  deliver-Moves k delivered note now = post_bind _ _ λ u e.
      after (λ v. v) _ (close_batch-Moves s k delivered (some note) now u e) (extend-Moves u k now)

module _ (t : CloseTexts) (s : Store) where
  completion-Moves :
      (a : DeliveryAttemptRecord) (b : BatchRecord) (k note now : ℕ)
      → Post (observe_completion t s a b k note now) (Moves s)
  unfolding observe_completion
  completion-Moves a b k note now = post_seq _ _ λ _.
      after (λ v. v) _ (complete-Moves s t k now)
        (deliver-Moves (complete_rows t s k now) a.batch_id t.delivered note now)

  pub cli_loss-Moves :
      (a : DeliveryAttemptRecord) (event : TurnEvent) (observation : ObservationState) (now : ℕ)
      → Post (observe_cli_loss t s a event observation now) (Moves s)
  unfolding observe_cli_loss
  cli_loss-Moves a event observation now =
      after (λ v. v) _ (abandon-Moves s a event observation now) (manualize_loss-Moves _ a now)

  pub codex_loss-Moves :
      (a : DeliveryAttemptRecord) (event : TurnEvent) (observation : ObservationState) (now : ℕ)
      → Post (observe_codex_loss t s a event observation now) (Moves s)
  unfolding observe_codex_loss
  codex_loss-Moves a event observation now =
      after (λ v. v) _ (abandon-Moves s a event observation now) (manualize_codex-Moves _ a now)

  pub apply_cli-Moves :
      (a : DeliveryAttemptRecord) (b : BatchRecord) (k : ℕ) (event : TurnEvent) (now : ℕ)
      → Post (apply_cli_event t s a b k event now) (Moves s)
  unfolding apply_cli_event
  apply_cli-Moves a b k TurnEvent.turn_started now =
      post_ok (Moves s) _ (note-Moves s k TurnEvent.turn_started now)
  apply_cli-Moves a b k TurnEvent.turn_completed now = completion-Moves a b k t.cli_note now
  apply_cli-Moves a b k TurnEvent.turn_failed now = cli_loss-Moves a _ _ now
  apply_cli-Moves a b k TurnEvent.turn_interrupted now = cli_loss-Moves a _ _ now
  apply_cli-Moves a b k TurnEvent.turn_replaced now = cli_loss-Moves a _ _ now

  pub apply_codex-Moves :
      (a : DeliveryAttemptRecord) (b : BatchRecord) (k : ℕ) (event : TurnEvent) (now : ℕ)
      → Post (apply_codex_event t s a b k event now) (Moves s)
  unfolding apply_codex_event
  apply_codex-Moves a b k TurnEvent.turn_started now =
      post_ok (Moves s) _ (note-Moves s k TurnEvent.turn_started now)
  apply_codex-Moves a b k TurnEvent.turn_completed now = completion-Moves a b k t.codex_note now
  apply_codex-Moves a b k TurnEvent.turn_failed now = codex_loss-Moves a _ _ now
  apply_codex-Moves a b k TurnEvent.turn_interrupted now = codex_loss-Moves a _ _ now
  apply_codex-Moves a b k TurnEvent.turn_replaced now = codex_loss-Moves a _ _ now
