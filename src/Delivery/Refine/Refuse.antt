-- ===== src/Delivery/Refine/Refuse.antt =====
-- The calls that refuse, give up or expire an attempt, as runs of moves.
use codex_background_task_ha.Base.{
  ℕ, ◌≡◌, ap, ◌∙◌, Bool, true, false, ◌&&◌, arith, ◌==◌, All-map, Keyed, Keyed-find,
  Pointwise-update_All, Result, ok, Post, post_bind, post_seq, post_ok, post_if, found-some,
}
use codex_background_task_ha.Models.{
  AdapterKind, RpcState, adapter_eq, is_abandoned, is_rejected_before_accept, is_unknown, is_lost,
  DeliveryAttemptRecord,
}
use codex_background_task_ha.Store.{Store, query_delivery_attempt_tx}
use codex_background_task_ha.Store.Outcomes.{
  is_pending_attempt, refuse_row, refuse_rows, when, reject_cli_again, reject_cli_pending,
  reject_cli_attempt_before_accept, reject_codex_again, reject_codex_pending,
  reject_codex_app_server_attempt_before_accept, abandon_codex_pending,
  abandon_codex_app_server_attempt_as_unknown, expired_state, expire_cli_tracked,
  expire_cli_observation,
}
use codex_background_task_ha.Delivery.Edges.{spends, Calm}
use codex_background_task_ha.Delivery.Moves.{edit_attempts, Moves, stay, one, Moves-trans}
use codex_background_task_ha.Delivery.Refine.{Calm-refl, after, reply-Moves}
use codex_background_task_ha.Delivery.Refine.Settle.{
  refuse-AttemptEdge, cli_refusal-Calm, unknown-Moves, expire-Moves, manualize_codex-Moves,
  manualize_loss-Moves, manualize_rejection-Moves, fence-Moves, spend-Moves, pending_of,
}

when-Moves :
    {r : Store} (manual : Bool) (s : Store) (m : Result Store)
    → Moves r s
    → Post m (Moves s)
    → Post (when manual s m) (Moves r)
when-Moves true s m p h = after (λ t. t) m p h
when-Moves {r} false s m p h = post_ok (Moves r) s p

module _ (s : Store) where
  cli_refusal-Moves :
      (k : ℕ) (a : DeliveryAttemptRecord) (now : ℕ)
      → Keyed (λ a. a.attempt_id) s.delivery_attempts
      → query_delivery_attempt_tx s k ≡ ok a
      → adapter_eq a.adapter_kind AdapterKind.cli ≡ true
      → Moves s (refuse_rows s k RpcState.rejected_before_accept now)
  unfolding refuse_rows query_delivery_attempt_tx is_pending_attempt
  cli_refusal-Moves k a now keyed there is_cli = one (
      edit_attempts _ (
        Pointwise-update_All Calm Calm-refl (is_pending_attempt k)
          (refuse_row RpcState.rejected_before_accept now) s.delivery_attempts
          (All-map (λ x. (x.attempt_id == k) ≡ true → x ≡ a) _ s.delivery_attempts
            (λ x same t.
              cli_refusal-Calm k now x
                (ap (λ z. adapter_eq z.adapter_kind AdapterKind.cli) (same (ground arith)) ∙ is_cli)
                t)
            (Keyed-find (λ x. x.attempt_id) k s.delivery_attempts a keyed
              (found-some _ _ _ there)))))

  reject_cli_again-Moves :
      (a : DeliveryAttemptRecord) (k now : ℕ) (manual : Bool)
      → Post (reject_cli_again s a k now manual) (λ p. Moves s p.0)
  unfolding reject_cli_again
  reject_cli_again-Moves a k now manual =
      post_if manual _ _
        (λ _. post_bind _ _ λ t e.
          reply-Moves _ k
            (Moves-trans (manualize_rejection-Moves s a now t e) (fence-Moves t a now)))
        (λ _. post_ok (λ p. Moves s p.0) _ stay)

  reject_cli_pending-Moves :
      (a : DeliveryAttemptRecord) (k now : ℕ) (manual : Bool)
      → Keyed (λ a. a.attempt_id) s.delivery_attempts
      → query_delivery_attempt_tx s k ≡ ok a
      → Post (reject_cli_pending s a k now manual) (λ p. Moves s p.0)
  unfolding reject_cli_pending
  reject_cli_pending-Moves a k now manual keyed there = post_seq _ _ λ pending. post_bind _ _ λ b _.
      post_seq _ _ λ _. post_seq _ _ λ _. post_seq _ _ λ _. post_seq _ _ λ _. post_bind _ _ λ t e.
        reply-Moves _ k (
          Moves-trans
            (when-Moves manual _ _
              (cli_refusal-Moves k a now keyed there
                (pending_of s k AdapterKind.cli a there pending).1)
              (manualize_rejection-Moves _ a now) t e)
            (fence-Moves t a now))

  pub reject_cli_attempt_before_accept-Moves :
      (k now : ℕ) (manual : Bool)
      → Keyed (λ a. a.attempt_id) s.delivery_attempts
      → Post (reject_cli_attempt_before_accept s k now manual) (λ p. Moves s p.0)
  unfolding reject_cli_attempt_before_accept
  reject_cli_attempt_before_accept-Moves k now manual keyed = post_bind _ _ λ a there.
      post_if (is_abandoned a.state && is_rejected_before_accept a.delivery_rpc_state) _ _
        (λ _. reject_cli_again-Moves a k now manual)
        (λ _. reject_cli_pending-Moves a k now manual keyed there)

  reject_codex_again-Moves :
      (a : DeliveryAttemptRecord) (k now : ℕ) (manual : Bool)
      → Post (reject_codex_again s a k now manual) (λ p. Moves s p.0)
  unfolding reject_codex_again
  reject_codex_again-Moves a k now manual =
      post_if manual _ _
        (λ _. post_bind _ _ λ t e. reply-Moves _ k (manualize_codex-Moves s a now t e))
        (λ _. post_ok (λ p. Moves s p.0) _ stay)

  codex_refusal_spends :
      (a : DeliveryAttemptRecord) (now : ℕ)
      → adapter_eq a.adapter_kind AdapterKind.codex_app_server ≡ true
      → spends (refuse_row RpcState.rejected_before_accept now a) ≡ true
  unfolding refuse_row
  codex_refusal_spends a now h = ground arith

  reject_codex_pending-Moves :
      (a : DeliveryAttemptRecord) (k now : ℕ) (manual : Bool)
      → query_delivery_attempt_tx s k ≡ ok a
      → Post (reject_codex_pending s a k now manual) (λ p. Moves s p.0)
  unfolding reject_codex_pending refuse_rows
  reject_codex_pending-Moves a k now manual there = post_seq _ _ λ pending. post_bind _ _ λ b _.
      post_seq _ _ λ _. post_seq _ _ λ _. post_seq _ _ λ _. post_seq _ _ λ _. post_bind _ _ λ t e.
        let (p, codex) = pending_of s k AdapterKind.codex_app_server a there pending in
        post_bind _ _ λ u f. reply-Moves u k (
          when-Moves _ t _
            (spend-Moves s k a (refuse_row RpcState.rejected_before_accept now) now there p
              (codex_refusal_spends a now codex)
              (refuse-AttemptEdge k RpcState.rejected_before_accept now) t e)
            (manualize_codex-Moves t a now) u f)

  pub reject_codex_app_server_attempt_before_accept-Moves :
      (k now : ℕ) (manual : Bool)
      → Post (reject_codex_app_server_attempt_before_accept s k now manual) (λ p. Moves s p.0)
  unfolding reject_codex_app_server_attempt_before_accept
  reject_codex_app_server_attempt_before_accept-Moves k now manual = post_bind _ _ λ a there.
      post_if (is_abandoned a.state && is_rejected_before_accept a.delivery_rpc_state) _ _
        (λ _. reject_codex_again-Moves a k now manual)
        (λ _. reject_codex_pending-Moves a k now manual there)

  pub abandon_codex_app_server_attempt_as_unknown-Moves :
      (k now : ℕ) (manual : Bool)
      → Post (abandon_codex_app_server_attempt_as_unknown s k now manual) (λ p. Moves s p.0)
  unfolding abandon_codex_app_server_attempt_as_unknown abandon_codex_pending
  abandon_codex_app_server_attempt_as_unknown-Moves k now manual = post_bind _ _ λ a there.
      post_if (is_abandoned a.state && is_unknown a.delivery_rpc_state) _ _
        (λ _. reject_codex_again-Moves a k now manual)
        (λ _. post_seq _ _ λ _. post_bind _ _ λ b _. post_seq _ _ λ _. post_seq _ _ λ _.
          post_bind _ _ λ t e.
            reply-Moves t k
              (when-Moves manual _ _ (unknown-Moves s k now) (manualize_codex-Moves _ a now) t e))

  pub expire_cli_observation-Moves :
      (k now : ℕ) → Post (expire_cli_observation s k now) (λ p. Moves s p.0)
  unfolding expire_cli_observation expire_cli_tracked
  expire_cli_observation-Moves k now = post_bind _ _ λ a there.
      post_if (is_abandoned a.state && is_lost a.delivery_observation_state) _ _
        (λ _. post_ok (λ p. Moves s p.0) _ stay)
        (λ _. post_seq _ _ λ _. post_bind _ _ λ late _. post_seq _ _ λ _. post_bind _ _ λ b _.
          post_seq _ _ λ _. post_seq _ _ λ _. post_seq _ _ λ _. post_bind _ _ λ t e.
            reply-Moves t k (
              Moves-trans (expire-Moves s k (expired_state s a b) now)
                (manualize_loss-Moves _ a now t e)))
