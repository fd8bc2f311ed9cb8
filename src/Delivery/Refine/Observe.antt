-- ===== src/Delivery/Refine/Observe.antt =====
-- The turn events that an adapter reports, as runs of moves.
use codex_background_task_ha.Base.{
  ℕ, ◌≡◌, refl, ap, Bool, true, false, ◌&&◌, Option, some, arith, ◌==◌, if◌then◌else◌, All-map,
  update_where, find_test, Keyed, Keyed-find, Pointwise, Pointwise-update_twice, ok, is_ok, Post,
  post_bind, post_seq, post_guard, post_ok, post_if, found-some,
}
use codex_background_task_ha.Models.{ObservationState, TurnEvent, is_active, DeliveryAttemptRecord}
use codex_background_task_ha.Store.{Store, query_delivery_attempt_tx}
use codex_background_task_ha.Store.Batches.{
  query_active_cli_attempt_session_fences_for_batch_tx, close_attempt, close_batch_tx,
}
use codex_background_task_ha.Store.Guards.{
  ensure_cli_attempt_has_recorded_detached_delivery_proof_snapshot,
  ensure_cli_attempt_has_current_managed_session_for_batch_tx,
  is_idempotent_terminal_cli_turn_observation, can_record_late_cli_turn_evidence,
}
use codex_background_task_ha.Store.Observe.{
  complete_delayed_turn, is_lost_attempt, deliver_batch, CloseTexts,
  complete_delayed_cli_turn_after_expiry_tx, observe_delayed_completion, observe_cli_tracked,
  observe_cli_turn_event, observe_codex_tracked, observe_codex_app_server_turn_event,
}
use codex_background_task_ha.Delivery.Edges.{Calm}
use codex_background_task_ha.Delivery.Moves.{Moves, stay, Moves-trans}
use codex_background_task_ha.Delivery.Refine.{
  Calm-refl, after, reply-Moves, extend-Moves, invalidate_fences-Moves,
}
use codex_background_task_ha.Delivery.Refine.Close.{close_attempt-Calm, close_rows-Moves}
use codex_background_task_ha.Delivery.Refine.Turns.{
  late-Moves, cli_loss-Moves, codex_loss-Moves, apply_cli-Moves, apply_codex-Moves,
}

abbrev closed_with : ℕ → ℕ → DeliveryAttemptRecord → DeliveryAttemptRecord
closed_with batch now b =
    if b.batch_id == batch && is_active b.state then close_attempt now b else b

closed_with-Calm :
    (batch now : ℕ) (a : DeliveryAttemptRecord) (t : Bool)
    → (a.batch_id == batch && is_active a.state) ≡ t
    → Calm a (if t then close_attempt now a else a)
closed_with-Calm batch now a true h = close_attempt-Calm now a (ground arith)
closed_with-Calm batch now a false h = Calm-refl a

-- A lost attempt that completes after all is closed with its batch.
lost-Calm :
    (k batch now : ℕ) (a : DeliveryAttemptRecord)
    → is_lost_attempt k a ≡ true
    → a.batch_id ≡ batch
    → Calm a (closed_with batch now (complete_delayed_turn now a))
unfolding is_lost_attempt complete_delayed_turn close_attempt
lost-Calm k batch now a h same = ground arith

delayed-Calm :
    (k batch now : ℕ) (a : DeliveryAttemptRecord) (t : Bool)
    → is_lost_attempt k a ≡ t
    → (is_lost_attempt k a ≡ true → a.batch_id ≡ batch)
    → Calm a (closed_with batch now (if t then complete_delayed_turn now a else a))
delayed-Calm k batch now a true h same = lost-Calm k batch now a h (same h)
delayed-Calm k batch now a false h same = closed_with-Calm batch now a _ refl

module _ (t : CloseTexts) (s : Store) where
  cli_tracked-Moves :
      (a : DeliveryAttemptRecord) (k : ℕ) (event : TurnEvent) (now : ℕ)
      → Post (observe_cli_tracked t s a k event now) (λ p. Moves s p.0)
  unfolding observe_cli_tracked
  cli_tracked-Moves a k event now = post_seq _ _ λ _. post_bind _ _ λ b _. post_seq _ _ λ _.
      post_seq _ _ λ _. post_seq _ _ λ _.
        post_if (is_ok (ensure_cli_attempt_has_current_managed_session_for_batch_tx s a b)) _ _
          (λ _. post_bind _ _ λ late _. post_bind _ _ λ u e. reply-Moves u k (
            post_if late _ _ (λ _. cli_loss-Moves t s a event ObservationState.expired now)
              (λ _. apply_cli-Moves t s a b k event now) u e))
          (λ _.
            post_bind _ _ λ u e.
              reply-Moves u k (cli_loss-Moves t s a event ObservationState.abandoned now u e))

  codex_tracked-Moves :
      (a : DeliveryAttemptRecord) (k : ℕ) (event : TurnEvent) (now : ℕ)
      → Post (observe_codex_tracked t s a k event now) (λ p. Moves s p.0)
  unfolding observe_codex_tracked
  codex_tracked-Moves a k event now = post_seq _ _ λ _. post_bind _ _ λ b _. post_seq _ _ λ _.
      post_seq _ _ λ _. post_seq _ _ λ _. post_bind _ _ λ late _. post_bind _ _ λ u e.
        reply-Moves u k (
          post_if late _ _ (λ _. codex_loss-Moves t s a event ObservationState.expired now)
            (λ _. apply_codex-Moves t s a b k event now) u e)

  pub observe_codex_app_server_turn_event-Moves :
      (k turn : ℕ) (turn_event : Option TurnEvent) (now : ℕ)
      → Post (observe_codex_app_server_turn_event t s k turn turn_event now) (λ p. Moves s p.0)
  unfolding observe_codex_app_server_turn_event
  observe_codex_app_server_turn_event-Moves k turn turn_event now = post_seq _ _ λ _.
      post_bind _ _ λ event _. post_bind _ _ λ a there. post_seq _ _ λ _.
        post_if (is_idempotent_terminal_cli_turn_observation a event) _ _
          (λ _. post_ok (λ p. Moves s p.0) _ stay)
          (λ _.
            post_if (can_record_late_cli_turn_evidence a event) _ _
              (λ _. reply-Moves _ k (late-Moves s a event now))
              (λ _. codex_tracked-Moves a k event now))

  delayed_rows :
      (k now : ℕ) (a : DeliveryAttemptRecord)
      → Keyed (λ a. a.attempt_id) s.delivery_attempts
      → query_delivery_attempt_tx s k ≡ ok a
      → Pointwise Calm s.delivery_attempts (
          update_where
            (λ x. x.batch_id == a.batch_id && is_active x.state)
            (close_attempt now)
            (update_where
              (is_lost_attempt a.attempt_id)
              (complete_delayed_turn now)
              s.delivery_attempts))
  unfolding query_delivery_attempt_tx is_lost_attempt
  delayed_rows k now a keyed there =
      Pointwise-update_twice Calm (is_lost_attempt a.attempt_id) (complete_delayed_turn now)
        (λ x. x.batch_id == a.batch_id && is_active x.state) (close_attempt now) s.delivery_attempts
        (All-map (λ x. (x.attempt_id == k) ≡ true → x ≡ a) _ s.delivery_attempts
          (λ x same. delayed-Calm a.attempt_id a.batch_id now x _ refl (λ h.
            ap (λ z. z.batch_id) (same (ground (arith, find_test _ _ _ (found-some _ _ _ there))))))
          (Keyed-find (λ x. x.attempt_id) k s.delivery_attempts a keyed (found-some _ _ _ there)))

  delayed-Moves :
      (a : DeliveryAttemptRecord) (k now : ℕ)
      → Keyed (λ a. a.attempt_id) s.delivery_attempts
      → query_delivery_attempt_tx s k ≡ ok a
      → Post (complete_delayed_cli_turn_after_expiry_tx t s a now) (Moves s)
  unfolding complete_delayed_cli_turn_after_expiry_tx deliver_batch close_batch_tx
  delayed-Moves a k now keyed there =
      let u' = record s {
        delivery_attempts =
            update_where (is_lost_attempt a.attempt_id) (complete_delayed_turn now)
              s.delivery_attempts;
      } in
      post_bind _ _ λ b _. post_seq _ _ λ _. post_seq _ _ λ _. post_seq _ _ λ _. post_seq _ _ λ _.
        post_bind _ _ λ u e.
          after (λ v. v) _
            (post_guard {P = Moves s} _ _ _
              (λ _. post_ok (Moves s) _ (
                Moves-trans
                  (close_rows-Moves s _ a.batch_id t.delivered (some t.cli_note) now
                    (delayed_rows k now a keyed there))
                  (invalidate_fences-Moves
                    (query_active_cli_attempt_session_fences_for_batch_tx u' a.batch_id) now _)))
              u e)
            (extend-Moves u a.batch_id now)

  pub observe_cli_turn_event-Moves :
      (k turn : ℕ) (turn_event : Option TurnEvent) (now : ℕ)
      → Keyed (λ a. a.attempt_id) s.delivery_attempts
      → Post (observe_cli_turn_event t s k turn turn_event now) (λ p. Moves s p.0)
  unfolding observe_cli_turn_event observe_delayed_completion
  observe_cli_turn_event-Moves k turn turn_event now keyed = post_seq _ _ λ _.
      post_bind _ _ λ event _. post_bind _ _ λ a there. post_seq _ _ λ _. post_seq _ _ λ _.
        post_if (is_idempotent_terminal_cli_turn_observation a event) _ _
          (λ _. post_ok (λ p. Moves s p.0) _ stay)
          (λ _. post_bind _ _ λ delayed _.
            post_if delayed _ _
              (λ _.
                post_if (is_ok (ensure_cli_attempt_has_recorded_detached_delivery_proof_snapshot a))
                  _ _
                  (λ _.
                    post_bind _ _ λ u e. reply-Moves u k (delayed-Moves a k now keyed there u e))
                  (λ _. reply-Moves _ k (late-Moves s a event now)))
              (λ _.
                post_if (can_record_late_cli_turn_evidence a event) _ _
                  (λ _. reply-Moves _ k (late-Moves s a event now))
                  (λ _. cli_tracked-Moves a k event now)))
