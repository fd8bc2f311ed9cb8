-- ===== src/Delivery/Refine/Close.antt =====
-- Closing a batch with its active attempts, as a run of moves.
use codex_background_task_ha.Base.{
  ℕ, ◌≡◌, refl, true, false, ◌&&◌, Option, List, [], ◌∷◌, arith, ◌==◌, update_where, any_where,
  Pointwise, Pointwise-update, Post, post_guard, post_ok,
}
use codex_background_task_ha.Models.{is_active, DeliveryAttemptRecord}
use codex_background_task_ha.Store.{Store}
use codex_background_task_ha.Store.Batches.{
  query_active_cli_attempt_session_fences_for_batch_tx, close_attempt, close_batch_rows,
  close_batch_tx,
}
use codex_background_task_ha.Delivery.Edges.{Calm}
use codex_background_task_ha.Delivery.Moves.{edit_attempts, close, Moves, follow, one, Moves-trans}
use codex_background_task_ha.Delivery.Refine.{Calm-refl, invalidate_fences-Moves}

pub close_attempt-Calm :
    (now : ℕ) (a : DeliveryAttemptRecord) → is_active a.state ≡ true → Calm a (close_attempt now a)
unfolding close_attempt
close_attempt-Calm now a h = ground arith

-- No attempt of the batch is active once its active attempts are closed.
pub closed_none_active :
    (k now : ℕ) (rows : List DeliveryAttemptRecord)
    → any_where
        (λ a. a.batch_id == k && is_active a.state)
        (update_where (λ a. a.batch_id == k && is_active a.state) (close_attempt now) rows)
      ≡ false
unfolding any_where update_where close_attempt
closed_none_active k now [] = refl
closed_none_active k now (a ∷ rows) = ground (arith, closed_none_active k now rows)

-- From a store whose attempts the closing rows follow calmly.
pub close_rows-Moves :
    (s : Store) (rows : List DeliveryAttemptRecord) (k reason : ℕ) (note : Option ℕ) (now : ℕ)
    → Pointwise Calm s.delivery_attempts
        (update_where (λ a. a.batch_id == k && is_active a.state) (close_attempt now) rows)
    → Moves s (close_batch_rows (record s { delivery_attempts = rows }) k reason note now)
unfolding close_batch_rows
close_rows-Moves s rows k reason note now p =
    follow (one (edit_attempts _ p)) (close k reason note now (closed_none_active k now rows))

pub close_batch-Moves :
    (s : Store) (k reason : ℕ) (note : Option ℕ) (now : ℕ)
    → Post (close_batch_tx s k reason note now) (Moves s)
unfolding close_batch_tx
close_batch-Moves s k reason note now = post_guard _ _ _ λ _. post_ok (Moves s) _ (
    Moves-trans
      (close_rows-Moves s s.delivery_attempts k reason note now (
        Pointwise-update Calm Calm-refl _ (close_attempt now) s.delivery_attempts
          λ a h. close_attempt-Calm now a (ground arith)))
      (invalidate_fences-Moves (query_active_cli_attempt_session_fences_for_batch_tx s k) now _))
