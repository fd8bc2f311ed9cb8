-- ===== src/Delivery/Refine/Settle.antt =====
-- The calls that accept an attempt, as runs of moves, and the parts that refusals share.
use codex_background_task_ha.Base.{
  ℕ, ◌≡◌, refl, true, arith, ◌==◌, update_where, find_test, ok, Post, post_bind, post_seq,
  post_guard, post_ok, post_if, guard-true, found-some,
}
use codex_background_task_ha.Models.{
  AdapterKind, RpcState, ObservationState, adapter_eq, DeliveryAttemptRecord,
}
use codex_background_task_ha.Store.{Store, query_delivery_attempt_tx}
use codex_background_task_ha.Store.Batches.{
  manualize_codex_app_server_batch_tx, manualize_cli_batch_after_pre_accept_rejection_tx,
  manualize_cli_batch_after_observation_loss_tx, count_delivery_tx,
}
use codex_background_task_ha.Store.Guards.{ensure_attempt_accept_pending_for_adapter}
use codex_background_task_ha.Store.Outcomes.{
  is_pending_attempt, is_tracked_attempt, accept_row, accept_rows, refuse_row, refuse_rows,
  is_accepted_turn, accept_cli_pending, accept_cli_attempt, accept_codex_pending,
  accept_codex_app_server_attempt, fence_attempt, expire_row, expire_rows,
}
use codex_background_task_ha.Delivery.Edges.{spends, AttemptEdge, Calm}
use codex_background_task_ha.Delivery.Moves.{spend, Moves, stay, one, Moves-trans}
use codex_background_task_ha.Delivery.Refine.{
  Calm-update, reply-Moves, invalidate-Moves, park-Moves, manualize-Moves,
  invalidate_and_park-Moves,
}

accept-AttemptEdge :
    (k turn now deadline : ℕ) (a : DeliveryAttemptRecord)
    → is_pending_attempt k a ≡ true
    → AttemptEdge a (accept_row turn now deadline a)
unfolding is_pending_attempt accept_row
accept-AttemptEdge k turn now deadline a h = ground arith

pub refuse-AttemptEdge :
    (k : ℕ) (rpc : RpcState) (now : ℕ) (a : DeliveryAttemptRecord)
    → is_pending_attempt k a ≡ true
    → AttemptEdge a (refuse_row rpc now a)
unfolding is_pending_attempt refuse_row
refuse-AttemptEdge k rpc now a h = ground arith

unknown-Calm :
    (k now : ℕ) (a : DeliveryAttemptRecord)
    → is_pending_attempt k a ≡ true
    → Calm a (refuse_row RpcState.unknown now a)
unfolding is_pending_attempt refuse_row
unknown-Calm k now a h = ground arith

pub cli_refusal-Calm :
    (k now : ℕ) (a : DeliveryAttemptRecord)
    → adapter_eq a.adapter_kind AdapterKind.cli ≡ true
    → is_pending_attempt k a ≡ true
    → Calm a (refuse_row RpcState.rejected_before_accept now a)
unfolding is_pending_attempt refuse_row
cli_refusal-Calm k now a c h = ground arith

expire-Calm :
    (k : ℕ) (observation : ObservationState) (now : ℕ) (a : DeliveryAttemptRecord)
    → is_tracked_attempt k a ≡ true
    → Calm a (expire_row observation now a)
unfolding is_tracked_attempt expire_row
expire-Calm k observation now a h = ground arith

module _ (s : Store) where
  pub unknown-Moves : (k now : ℕ) → Moves s (refuse_rows s k RpcState.unknown now)
  unfolding refuse_rows
  unknown-Moves k now =
      Calm-update s (is_pending_attempt k) (refuse_row RpcState.unknown now) (unknown-Calm k now)

  pub expire-Moves :
      (k : ℕ) (observation : ObservationState) (now : ℕ) → Moves s (expire_rows s k observation now)
  unfolding expire_rows
  expire-Moves k observation now =
      Calm-update s (is_tracked_attempt k) (expire_row observation now)
        (expire-Calm k observation now)

  pub manualize_codex-Moves :
      (a : DeliveryAttemptRecord) (now : ℕ)
      → Post (manualize_codex_app_server_batch_tx s a now) (Moves s)
  unfolding manualize_codex_app_server_batch_tx
  manualize_codex-Moves a now =
      post_bind _ _ λ window _. post_ok (Moves s) _ (manualize-Moves s a.batch_id window now)

  pub manualize_loss-Moves :
      (a : DeliveryAttemptRecord) (now : ℕ)
      → Post (manualize_cli_batch_after_observation_loss_tx s a now) (Moves s)
  unfolding manualize_cli_batch_after_observation_loss_tx
  manualize_loss-Moves a now = post_bind _ _ λ window _. post_ok (Moves s) _ (
      Moves-trans (manualize-Moves s a.batch_id window now)
        (invalidate_and_park-Moves _ a.managed_session_id a.session_epoch now))

  pub manualize_rejection-Moves :
      (a : DeliveryAttemptRecord) (now : ℕ)
      → Post (manualize_cli_batch_after_pre_accept_rejection_tx s a now) (Moves s)
  unfolding manualize_cli_batch_after_pre_accept_rejection_tx
  manualize_rejection-Moves a now = post_bind _ _ λ window _. post_ok (Moves s) _ (
      Moves-trans (manualize-Moves s a.batch_id window now) (park-Moves _ a.managed_session_id now))

  pub fence-Moves : (a : DeliveryAttemptRecord) (now : ℕ) → Moves s (fence_attempt s a now)
  unfolding fence_attempt
  fence-Moves a now = invalidate-Moves s a.managed_session_id a.session_epoch now

  -- A pending attempt, under the update `f`, with the delivery that the call counts.
  pub spend-Moves :
      (k : ℕ) (a : DeliveryAttemptRecord) (f : DeliveryAttemptRecord → DeliveryAttemptRecord)
      (now : ℕ)
      → query_delivery_attempt_tx s k ≡ ok a
      → is_pending_attempt k a ≡ true
      → spends (f a) ≡ true
      → ((x : DeliveryAttemptRecord) → is_pending_attempt k x ≡ true → AttemptEdge x (f x))
      → Post
          (count_delivery_tx
            (record s {
              delivery_attempts = update_where (is_pending_attempt k) f s.delivery_attempts;
            })
            a.batch_id
            now)
          (Moves s)
  unfolding count_delivery_tx query_delivery_attempt_tx
  spend-Moves k a f now there p sp e = post_guard _ _ _ λ one_row.
      post_ok (Moves s) _ (one (spend k a f now (found-some _ _ _ there) p sp e (ground arith)))

  pub pending_of :
      (k : ℕ) (kind : AdapterKind) (a : DeliveryAttemptRecord)
      → query_delivery_attempt_tx s k ≡ ok a
      → ensure_attempt_accept_pending_for_adapter a kind ≡ ok tt
      → (is_pending_attempt k a ≡ true) × (adapter_eq a.adapter_kind kind ≡ true)
  unfolding query_delivery_attempt_tx ensure_attempt_accept_pending_for_adapter is_pending_attempt
  pending_of k kind a there e =
      let t : (a.attempt_id == k) ≡ true =
        find_test (λ x. x.attempt_id == k) s.delivery_attempts a (found-some _ _ _ there) in
      let g = guard-true _ _ e in ground arith

  accept_cli_pending-Moves :
      (a : DeliveryAttemptRecord) (k turn now deadline : ℕ)
      → query_delivery_attempt_tx s k ≡ ok a
      → Post (accept_cli_pending s a k turn now deadline) (λ p. Moves s p.0)
  unfolding accept_cli_pending accept_rows accept_row
  accept_cli_pending-Moves a k turn now deadline there = post_seq _ _ λ pending.
      post_bind _ _ λ b _. post_seq _ _ λ _. post_seq _ _ λ _. post_seq _ _ λ _. post_seq _ _ λ _.
        post_seq _ _ λ _. post_seq _ _ λ _. post_seq _ _ λ _. post_bind _ _ λ t e. reply-Moves t k (
          spend-Moves k a (accept_row turn now deadline) now there
            (pending_of k AdapterKind.cli a there pending).0 refl
            (accept-AttemptEdge k turn now deadline) t e)

  pub accept_cli_attempt-Moves :
      (k turn now deadline : ℕ) → Post (accept_cli_attempt s k turn now deadline) (λ p. Moves s p.0)
  unfolding accept_cli_attempt
  accept_cli_attempt-Moves k turn now deadline = post_seq _ _ λ _. post_bind _ _ λ a there.
      post_if (is_accepted_turn a turn) _ _
        (λ _. post_seq _ _ λ _. post_ok (λ p. Moves s p.0) _ stay)
        (λ _. accept_cli_pending-Moves a k turn now deadline there)

  accept_codex_pending-Moves :
      (a : DeliveryAttemptRecord) (k turn now deadline : ℕ)
      → query_delivery_attempt_tx s k ≡ ok a
      → Post (accept_codex_pending s a k turn now deadline) (λ p. Moves s p.0)
  unfolding accept_codex_pending accept_rows accept_row
  accept_codex_pending-Moves a k turn now deadline there = post_seq _ _ λ pending.
      post_bind _ _ λ b _. post_seq _ _ λ _. post_seq _ _ λ _. post_seq _ _ λ _. post_seq _ _ λ _.
        post_seq _ _ λ _. post_bind _ _ λ t e. reply-Moves t k (
          spend-Moves k a (accept_row turn now deadline) now there
            (pending_of k AdapterKind.codex_app_server a there pending).0 refl
            (accept-AttemptEdge k turn now deadline) t e)

  pub accept_codex_app_server_attempt-Moves :
      (k turn now deadline : ℕ)
      → Post (accept_codex_app_server_attempt s k turn now deadline) (λ p. Moves s p.0)
  unfolding accept_codex_app_server_attempt
  accept_codex_app_server_attempt-Moves k turn now deadline = post_seq _ _ λ _.
      post_bind _ _ λ a there.
        post_if (is_accepted_turn a turn) _ _ (λ _. post_ok (λ p. Moves s p.0) _ stay)
          (λ _. accept_codex_pending-Moves a k turn now deadline there)
