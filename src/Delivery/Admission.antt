-- ===== src/Delivery/Admission.antt =====
-- When a delivery attempt may start, and what a new attempt is.
use codex_background_task_ha.Base.{
  ℕ, ◌<◌, ◌≡◌, refl, sym, ap, ◌∙◌, Bool, true, false, Option, none, some, arith, ok, ◌>>◌, Post,
  post_bind, post_seq, post_ok, post_guard,
}
use codex_background_task_ha.Models.{
  BatchRecord, DeliveryAttemptRecord, NewCodexAppServerAcceptPendingAttempt,
}
use codex_background_task_ha.Store.{Store, query_delivery_attempt_by_rpc_request_id_tx}
use codex_background_task_ha.Store.Guards.{
  ensure_batch_open, ensure_batch_is_thread_head_tx, ensure_batch_allows_automatic_delivery,
  ensure_attempt_budget_remaining, ensure_batch_redelivery_window_open,
  ensure_no_active_attempt_for_thread_tx, ensure_existing_codex_app_server_accept_matches_request,
}
use codex_background_task_ha.Store.Attempts.{
  codex_attempt_row, begin_codex_new, validate_codex_app_server_accept_pending_attempt,
  begin_codex_app_server_accept_pending_attempt_tx,
  begin_codex_app_server_accept_pending_attempt_with_created,
}
use codex_background_task_ha.Delivery.Starting.{BatchAdmits, Started, insert_then_reply}

module _ (s : Store) where
  begin_codex_new_admits :
      (r : NewCodexAppServerAcceptPendingAttempt)
      → Post (begin_codex_new s r) (λ p.
        (b : BatchRecord) × (n : ℕ) × BatchAdmits s r.batch_id b
        × (r.delivery_rpc_started_at < b.redelivery_window_ends_at)
        × Started s p.0 (codex_attempt_row r b n) p.1.0
        × (p.1.1 ≡ true))
  unfolding begin_codex_new ensure_batch_open ensure_batch_is_thread_head_tx
      ensure_batch_allows_automatic_delivery ensure_batch_redelivery_window_open
      ensure_attempt_budget_remaining ensure_no_active_attempt_for_thread_tx codex_attempt_row
  begin_codex_new_admits r = post_bind _ _ λ b there. post_guard _ _ _ λ open_.
      post_guard _ _ _ λ head. post_guard _ _ _ λ automatic. post_guard _ _ _ λ window.
        post_guard _ _ _ λ budget. post_guard _ _ _ λ idle. post_bind _ _ λ n next.
          post_bind _ _ λ q e.
            post_ok
              (λ (p : Store × (DeliveryAttemptRecord × Bool)).
                (b : BatchRecord) × (n : ℕ) × BatchAdmits s r.batch_id b
                × (r.delivery_rpc_started_at < b.redelivery_window_ends_at)
                × Started s p.0 (codex_attempt_row r b n) p.1.0
                × (p.1.1 ≡ true))
              _
              (
                b,
                n,
                record {
                  there = there;
                  open_ = open_;
                  head = head;
                  automatic = automatic;
                  in_budget = ground arith;
                  idle_thread = ground arith;
                },
                ground arith,
                insert_then_reply s (codex_attempt_row r b n) r.attempt_id refl next q e,
                refl,
              )

  -- The two paths of the request.
  pub begin_codex_unseen :
      (r : NewCodexAppServerAcceptPendingAttempt)
      → query_delivery_attempt_by_rpc_request_id_tx s r.delivery_rpc_request_id ≡ none
      → begin_codex_app_server_accept_pending_attempt_tx s r ≡ begin_codex_new s r
  unfolding begin_codex_app_server_accept_pending_attempt_tx
  begin_codex_unseen r unseen =
      ap
        (λ (o : Option DeliveryAttemptRecord). elim o [
          | none ↦ begin_codex_new s r
          | some a ↦
              ensure_existing_codex_app_server_accept_matches_request a r >> ok (s, (a, false))
        ])
        unseen

  pub begin_codex_seen :
      (r : NewCodexAppServerAcceptPendingAttempt) (a : DeliveryAttemptRecord)
      → query_delivery_attempt_by_rpc_request_id_tx s r.delivery_rpc_request_id ≡ some a
      → begin_codex_app_server_accept_pending_attempt_tx s r
        ≡ (ensure_existing_codex_app_server_accept_matches_request a r >> ok (s, (a, false)))
  unfolding begin_codex_app_server_accept_pending_attempt_tx
  begin_codex_seen r a seen =
      ap
        (λ (o : Option DeliveryAttemptRecord). elim o [
          | none ↦ begin_codex_new s r
          | some b ↦
              ensure_existing_codex_app_server_accept_matches_request b r >> ok (s, (b, false))
        ])
        seen

  valid_id :
      (valid : ℕ → Bool) (r : NewCodexAppServerAcceptPendingAttempt)
      → Post
          (validate_codex_app_server_accept_pending_attempt valid r)
          (λ _. valid r.attempt_id ≡ true)
  unfolding validate_codex_app_server_accept_pending_attempt
  valid_id valid r = post_guard _ _ _ λ h _ _. h

  pub begin_codex-admission :
      (valid : ℕ → Bool) (r : NewCodexAppServerAcceptPendingAttempt)
      (p : Store × (DeliveryAttemptRecord × Bool))
      → query_delivery_attempt_by_rpc_request_id_tx s r.delivery_rpc_request_id ≡ none
      → begin_codex_app_server_accept_pending_attempt_with_created valid s r ≡ ok p
      → (valid r.attempt_id ≡ true)
        × ((b : BatchRecord) × (n : ℕ) × BatchAdmits s r.batch_id b
            × (r.delivery_rpc_started_at < b.redelivery_window_ends_at)
            × Started s p.0 (codex_attempt_row r b n) p.1.0
            × (p.1.1 ≡ true))
  unfolding begin_codex_app_server_accept_pending_attempt_with_created
  begin_codex-admission valid r p unseen begun =
      post_seq
        {P = λ p.
          (valid r.attempt_id ≡ true)
          × ((b : BatchRecord) × (n : ℕ) × BatchAdmits s r.batch_id b
              × (r.delivery_rpc_started_at < b.redelivery_window_ends_at)
              × Started s p.0 (codex_attempt_row r b n) p.1.0
              × (p.1.1 ≡ true))}
        (validate_codex_app_server_accept_pending_attempt valid r)
        (begin_codex_app_server_accept_pending_attempt_tx s r)
        (λ passed q e.
          let e' : begin_codex_new s r ≡ ok q = sym (begin_codex_unseen r unseen) ∙ e in
          (valid_id valid r tt passed, begin_codex_new_admits r q e'))
        p begun
