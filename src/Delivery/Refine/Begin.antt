-- ===== src/Delivery/Refine/Begin.antt =====
-- The calls that start a delivery attempt, as runs of moves.
use codex_background_task_ha.Base.{
  ℕ, ◌≡◌, refl, Bool, true, false, some, arith, ◌==◌, find_where, any_where, Post, post_bind,
  post_seq, post_guard, post_ok, post_option, found-some,
}
use codex_background_task_ha.Models.{
  AuthorizationMode, is_open, is_automatic, BatchRecord, DeliveryAttemptRecord,
  NewCliAcceptPendingAttempt, NewCodexAppServerAcceptPendingAttempt,
}
use codex_background_task_ha.Store.{
  Store, query_batch_tx, query_delivery_attempt_by_rpc_request_id_tx, in_flight,
  insert_delivery_attempt,
}
use codex_background_task_ha.Store.Guards.{
  ensure_batch_open, ensure_batch_allows_automatic_delivery, ensure_no_active_attempt_for_thread_tx,
}
use codex_background_task_ha.Store.Attempts.{
  cli_attempt_row, begin_cli_new, begin_cli_again, begin_cli_accept_pending_attempt,
  codex_attempt_row, begin_codex_new, begin_codex_app_server_accept_pending_attempt_tx,
  begin_codex_app_server_accept_pending_attempt_with_created,
}
use codex_background_task_ha.Delivery.Edges.{spends}
use codex_background_task_ha.Delivery.Moves.{add_attempt, Moves, stay, one}
use codex_background_task_ha.Delivery.Refine.{reply-Moves}

module _ (s : Store) where
  insert-Moves :
      (row : DeliveryAttemptRecord) (b : BatchRecord)
      → find_where (λ c. c.batch_id == row.batch_id) s.batches ≡ some b
      → is_open b.state ≡ true
      → is_automatic b.replay_policy ≡ true
      → any_where (in_flight s.batches row.source_thread_id) s.delivery_attempts ≡ false
      → spends row ≡ false
      → Post (insert_delivery_attempt s row) (Moves s)
  unfolding insert_delivery_attempt
  insert-Moves row b there open_ automatic idle unspent = post_guard _ _ _ λ fresh.
      post_guard _ _ _ λ _. post_guard _ _ _ λ _. post_guard _ _ _ λ _.
        post_ok (Moves s) _
          (one (add_attempt row b there open_ automatic idle (ground arith) unspent))

  begin_cli_new-Moves :
      (r : NewCliAcceptPendingAttempt) (mode : AuthorizationMode)
      → Post (begin_cli_new s r mode) (λ p. Moves s p.0)
  unfolding begin_cli_new query_batch_tx ensure_batch_open ensure_batch_allows_automatic_delivery
      ensure_no_active_attempt_for_thread_tx cli_attempt_row
  begin_cli_new-Moves r mode = post_bind _ _ λ b there. post_guard _ _ _ λ open_. post_seq _ _ λ _.
      post_guard _ _ _ λ automatic. post_seq _ _ λ _. post_seq _ _ λ _. post_bind _ _ λ c _.
        post_seq _ _ λ _. post_seq _ _ λ _. post_guard _ _ _ λ idle. post_bind _ _ λ n _.
          post_bind _ _ λ t e. reply-Moves t r.attempt_id (
            insert-Moves (cli_attempt_row r mode b c n) b (found-some _ _ _ there) open_ automatic
              (ground arith) refl t e)

  begin_cli_again-Moves :
      (r : NewCliAcceptPendingAttempt) (mode : AuthorizationMode) (a : DeliveryAttemptRecord)
      → Post (begin_cli_again s r mode a) (λ p. Moves s p.0)
  unfolding begin_cli_again
  begin_cli_again-Moves r mode a =
      post_seq _ _ λ _. post_seq _ _ λ _. post_ok (λ p. Moves s p.0) _ stay

  pub begin_cli_accept_pending_attempt-Moves :
      (r : NewCliAcceptPendingAttempt)
      → Post (begin_cli_accept_pending_attempt s r) (λ p. Moves s p.0)
  unfolding begin_cli_accept_pending_attempt
  begin_cli_accept_pending_attempt-Moves r = post_bind _ _ λ mode _.
      post_option (query_delivery_attempt_by_rpc_request_id_tx s r.delivery_rpc_request_id) _ _
        (λ _. begin_cli_new-Moves r mode) (λ a _. begin_cli_again-Moves r mode a)

  begin_codex_new-Moves :
      (r : NewCodexAppServerAcceptPendingAttempt) → Post (begin_codex_new s r) (λ p. Moves s p.0)
  unfolding begin_codex_new query_batch_tx ensure_batch_open ensure_batch_allows_automatic_delivery
      ensure_no_active_attempt_for_thread_tx codex_attempt_row
  begin_codex_new-Moves r = post_bind _ _ λ b there. post_guard _ _ _ λ open_. post_seq _ _ λ _.
      post_guard _ _ _ λ automatic. post_seq _ _ λ _. post_seq _ _ λ _. post_guard _ _ _ λ idle.
        post_bind _ _ λ n _. post_bind _ _ λ p made.
          post_ok (λ q. Moves s q.0) _
            (post_bind {P = λ q. Moves s q.0} _ _
              (λ t e. reply-Moves t r.attempt_id (
                insert-Moves (codex_attempt_row r b n) b (found-some _ _ _ there) open_ automatic
                  (ground arith) refl t e))
              p made)

  pub begin_codex_app_server_accept_pending_attempt_tx-Moves :
      (r : NewCodexAppServerAcceptPendingAttempt)
      → Post (begin_codex_app_server_accept_pending_attempt_tx s r) (λ p. Moves s p.0)
  unfolding begin_codex_app_server_accept_pending_attempt_tx
  begin_codex_app_server_accept_pending_attempt_tx-Moves r =
      post_option (query_delivery_attempt_by_rpc_request_id_tx s r.delivery_rpc_request_id) _ _
        (λ _. begin_codex_new-Moves r) (λ a _. post_seq _ _ λ _. post_ok (λ p. Moves s p.0) _ stay)

  pub begin_codex_app_server_accept_pending_attempt_with_created-Moves :
      (valid : ℕ → Bool) (r : NewCodexAppServerAcceptPendingAttempt)
      → Post
          (begin_codex_app_server_accept_pending_attempt_with_created valid s r)
          (λ p. Moves s p.0)
  unfolding begin_codex_app_server_accept_pending_attempt_with_created
  begin_codex_app_server_accept_pending_attempt_with_created-Moves valid r =
      post_seq _ _ λ _. begin_codex_app_server_accept_pending_attempt_tx-Moves r
