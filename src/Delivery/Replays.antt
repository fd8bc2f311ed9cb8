-- ===== src/Delivery/Replays.antt =====
-- Repeated requests of the app server (`begin_codex_app_server_accept_pending_attempt_with_created`).
use codex_background_task_ha.Base.{
  ℕ, ◌≡◌, refl, sym, ap, ◌∙◌, subst, inl, inr, Bool, false, none, some, [], ◌∷◌, ◌++◌, arith,
  column_eq, ==_refl, Option-cases, find-append, none_found, ok, ◌>>◌, guard, Post, post_seq,
  post_ok, seq_of,
}
use codex_background_task_ha.Models.{
  BatchRecord, DeliveryAttemptRecord, NewCodexAppServerAcceptPendingAttempt,
}
use codex_background_task_ha.Store.{Store, query_delivery_attempt_by_rpc_request_id_tx}
use codex_background_task_ha.Store.Guards.{ensure_existing_codex_app_server_accept_matches_request}
use codex_background_task_ha.Store.Attempts.{
  codex_attempt_row, begin_codex_app_server_accept_pending_attempt_tx,
  begin_codex_app_server_accept_pending_attempt_with_created,
}
use codex_background_task_ha.Delivery.Admission.{begin_codex_seen, begin_codex-admission}

module _ (s : Store) where
  seen_again :
      (k : ℕ) (row : DeliveryAttemptRecord)
      → query_delivery_attempt_by_rpc_request_id_tx s k ≡ none
      → row.delivery_rpc_request_id ≡ some k
      → query_delivery_attempt_by_rpc_request_id_tx
          (record s { delivery_attempts = s.delivery_attempts ++ row ∷ [] })
          k
        ≡ some row
  unfolding query_delivery_attempt_by_rpc_request_id_tx
  seen_again k row unseen same =
      find-append (λ a. column_eq a.delivery_rpc_request_id k) s.delivery_attempts row
        (none_found _ _ unseen) (ap (λ o. column_eq o k) same ∙ ==_refl k)

  codex_row_matches :
      (r : NewCodexAppServerAcceptPendingAttempt) (b : BatchRecord) (n : ℕ)
      → ensure_existing_codex_app_server_accept_matches_request (codex_attempt_row r b n) r ≡ ok tt
  unfolding ensure_existing_codex_app_server_accept_matches_request codex_attempt_row guard
  codex_row_matches r b n = ground arith

  row_request :
      (r : NewCodexAppServerAcceptPendingAttempt) (b : BatchRecord) (n : ℕ)
      → (codex_attempt_row r b n).delivery_rpc_request_id ≡ some r.delivery_rpc_request_id
  unfolding codex_attempt_row
  row_request r b n = refl

  -- The call goes through whenever its arguments pass and the attempt of the request is there.
  codex_again :
      (valid : ℕ → Bool) (r : NewCodexAppServerAcceptPendingAttempt) (t : Store)
      (a : DeliveryAttemptRecord)
      → query_delivery_attempt_by_rpc_request_id_tx t r.delivery_rpc_request_id ≡ some a
      → ensure_existing_codex_app_server_accept_matches_request a r ≡ ok tt
      → Post (begin_codex_app_server_accept_pending_attempt_with_created valid s r) (λ _.
        begin_codex_app_server_accept_pending_attempt_with_created valid t r ≡ ok (t, (a, false)))
  unfolding begin_codex_app_server_accept_pending_attempt_with_created
  codex_again valid r t a seen same = post_seq _ _ λ passed _ _.
      let found_ : begin_codex_app_server_accept_pending_attempt_tx t r ≡ ok (t, (a, false)) =
        begin_codex_seen t r a seen ∙ seq_of _ _ same in
      seq_of _ _ passed ∙ found_

  codex_seen :
      (valid : ℕ → Bool) (r : NewCodexAppServerAcceptPendingAttempt) (a : DeliveryAttemptRecord)
      → query_delivery_attempt_by_rpc_request_id_tx s r.delivery_rpc_request_id ≡ some a
      → Post
          (begin_codex_app_server_accept_pending_attempt_with_created valid s r)
          (λ p. p ≡ (s, (a, false)))
  unfolding begin_codex_app_server_accept_pending_attempt_with_created
  codex_seen valid r a seen =
      post_seq _ (begin_codex_app_server_accept_pending_attempt_tx s r) λ _ p e.
        let e' : (ensure_existing_codex_app_server_accept_matches_request a r >> ok (s, (a, false)))
            ≡ ok p =
          sym (begin_codex_seen s r a seen) ∙ e in
        post_seq _ _ (λ _. post_ok (λ p. p ≡ (s, (a, false))) _ refl) p e'

-- A repeated app-server request leaves the store alone and replies with the attempt of the first
-- reply, as not created.
pub begin_codex-replay :
    (valid : ℕ → Bool) (s : Store) (r : NewCodexAppServerAcceptPendingAttempt)
    (p : Store × (DeliveryAttemptRecord × Bool))
    → begin_codex_app_server_accept_pending_attempt_with_created valid s r ≡ ok p
    → begin_codex_app_server_accept_pending_attempt_with_created valid p.0 r
      ≡ ok (p.0, (p.1.0, false))
begin_codex-replay valid s r p begun =
    elim (Option-cases (query_delivery_attempt_by_rpc_request_id_tx s r.delivery_rpc_request_id)) [
      | inl unseen ↦
          let (_, (b, n, _, _, started, _)) = begin_codex-admission s valid r p unseen begun in
          let row = codex_attempt_row r b n in
          let t = record s { delivery_attempts = s.delivery_attempts ++ row ∷ [] } in
          let again =
            codex_again s valid r t row
              (seen_again s r.delivery_rpc_request_id row unseen (row_request s r b n))
              (codex_row_matches s r b n) p begun in
          rw (started.store, started.reply) again
      | inr (a, seen) ↦
          let q = codex_seen s valid r a seen p begun in
          subst
            (λ z.
              begin_codex_app_server_accept_pending_attempt_with_created valid z.0 r
              ≡ ok (z.0, (z.1.0, false)))
            (sym q) (begun ∙ ap ok q)
    ]
