-- ===== src/Delivery/Refine/Sweep.antt =====
-- The maintenance sweep as a run of moves.
use codex_background_task_ha.Base.{
  ℕ, ◌≡◌, ◌⊎◌, inl, inr, true, some, List, [], ◌∷◌, arith, Result, Post, post_bind, post_ok,
}
use codex_background_task_ha.Models.{
  AdapterKind, ObservationState, is_prepared, is_arm_pending, BatchRecord, DeliveryAttemptRecord,
}
use codex_background_task_ha.Store.{Store}
use codex_background_task_ha.Store.Outcomes.{expired_state}
use codex_background_task_ha.Store.Sweep.{
  cli_accept_pending_timeout_seconds, stale_acceptances, expire_stale_cli_acceptance, for_each,
  try_for_each, expire_stale_cli_acceptances_tx, expire_due_cli_observation,
  expire_due_cli_observations_tx, expire_stale_codex_acceptance,
  expire_stale_codex_app_server_acceptances_tx, expire_due_codex_observation,
  expire_due_codex_app_server_observations_tx, give_up_row,
  expire_expired_desktop_prepared_attempts_tx, expire_expired_desktop_arm_pending_attempts_tx,
  close_expired_batch, SweepTexts, close_expired_manual_batches_tx,
  close_expired_automatic_batches_tx, sweep, sweep_codex_app_server_delivery_cleanup,
}
use codex_background_task_ha.Delivery.Edges.{Calm}
use codex_background_task_ha.Delivery.Moves.{Moves, stay, Moves-trans}
use codex_background_task_ha.Delivery.Refine.{
  after, Calm-update, manualize-Moves, extend-Moves, invalidate_and_park-Moves,
}
use codex_background_task_ha.Delivery.Refine.Settle.{
  unknown-Moves, expire-Moves, manualize_codex-Moves,
}
use codex_background_task_ha.Delivery.Refine.Close.{close_batch-Moves}

for_each-Moves :
    (body : DeliveryAttemptRecord → Store → Store)
    → ((a : DeliveryAttemptRecord) (s : Store) → Moves s (body a s))
    → (rows : List DeliveryAttemptRecord) (s : Store) → Moves s (for_each rows body s)
unfolding for_each
for_each-Moves body h [] s = stay
for_each-Moves body h (a ∷ rest) s = Moves-trans (h a s) (for_each-Moves body h rest (body a s))

try_for_each-Moves {ℓ} :
    {A : Type ℓ} (body : A → Store → Result Store)
    → ((a : A) (s : Store) → Post (body a s) (Moves s))
    → (rows : List A) (s : Store) → Post (try_for_each rows body s) (Moves s)
unfolding try_for_each
try_for_each-Moves body h [] s = post_ok (Moves s) s stay
try_for_each-Moves body h (a ∷ rest) s =
    post_bind _ _ λ t e. after (λ u. u) _ (h a s t e) (try_for_each-Moves body h rest t)

module _ (s : Store) (now : ℕ) where
  expire_stale_cli_acceptances-Moves : Post (expire_stale_cli_acceptances_tx s now) (Moves s)
  unfolding expire_stale_cli_acceptances_tx expire_stale_cli_acceptance
  expire_stale_cli_acceptances-Moves = post_bind _ _ λ window _. post_ok (Moves s) _ (
      for_each-Moves _
        (λ a t.
          Moves-trans
            (Moves-trans (unknown-Moves t a.attempt_id now)
              (manualize-Moves _ a.batch_id window now))
            (invalidate_and_park-Moves _ a.managed_session_id a.session_epoch now))
        (stale_acceptances s AdapterKind.cli cli_accept_pending_timeout_seconds now) s)

  expire_due_cli_observations-Moves : Post (expire_due_cli_observations_tx s now) (Moves s)
  unfolding expire_due_cli_observations_tx expire_due_cli_observation
  expire_due_cli_observations-Moves = post_bind _ _ λ window _.
      try_for_each-Moves _
        (λ row t. post_bind _ _ λ a _. post_bind _ _ λ b _. post_ok (Moves t) _ (
          Moves-trans
            (Moves-trans (expire-Moves t row.attempt_id (expired_state t a b) now)
              (manualize-Moves _ row.batch_id window now))
            (invalidate_and_park-Moves _ row.managed_session_id row.session_epoch now)))
        _ s

  expire_stale_codex_acceptances-Moves :
      Post (expire_stale_codex_app_server_acceptances_tx s now) (Moves s)
  unfolding expire_stale_codex_app_server_acceptances_tx expire_stale_codex_acceptance
  expire_stale_codex_acceptances-Moves =
      try_for_each-Moves _
        (λ row t. post_bind _ _ λ a _.
          after (λ u. u) _ (unknown-Moves t row.attempt_id now) (manualize_codex-Moves _ a now))
        _ s

  expire_due_codex_observations-Moves :
      Post (expire_due_codex_app_server_observations_tx s now) (Moves s)
  unfolding expire_due_codex_app_server_observations_tx expire_due_codex_observation
  expire_due_codex_observations-Moves =
      try_for_each-Moves _
        (λ row t. post_bind _ _ λ a _.
          after (λ u. u) _ (expire-Moves t row.attempt_id ObservationState.expired now)
            (manualize_codex-Moves _ a now))
        _ s

  give_up-Calm :
      (a : DeliveryAttemptRecord)
      → (is_prepared a.state ≡ true) ⊎ (is_arm_pending a.state ≡ true)
      → Calm a (give_up_row now a)
  unfolding give_up_row
  give_up-Calm a h = ground arith

  expire_prepared-Moves : Moves s (expire_expired_desktop_prepared_attempts_tx s now)
  unfolding expire_expired_desktop_prepared_attempts_tx
  expire_prepared-Moves =
      Calm-update s _ (give_up_row now) λ a h. give_up-Calm a (inl (ground arith))

  expire_arm_pending-Moves : Moves s (expire_expired_desktop_arm_pending_attempts_tx s now)
  unfolding expire_expired_desktop_arm_pending_attempts_tx
  expire_arm_pending-Moves =
      Calm-update s _ (give_up_row now) λ a h. give_up-Calm a (inr (ground arith))

  close_expired_batches-Moves :
      (reason note : ℕ) (bs : List BatchRecord)
      → Post (try_for_each bs (close_expired_batch reason note now) s) (Moves s)
  unfolding close_expired_batch
  close_expired_batches-Moves reason note bs =
      try_for_each-Moves _
        (λ b t. post_bind _ _ λ u e.
          after (λ v. v) _ (close_batch-Moves t b.batch_id reason (some note) now u e)
            (extend-Moves u b.batch_id now))
        bs s

pub sweep-Moves : (t : SweepTexts) (s : Store) (now : ℕ) → Post (sweep t s now) (Moves s)
unfolding sweep close_expired_manual_batches_tx close_expired_automatic_batches_tx
sweep-Moves t s now = post_bind _ _ λ a p. post_bind _ _ λ b q. post_bind _ _ λ c r.
    post_bind _ _ λ d u.
      let f = expire_expired_desktop_prepared_attempts_tx d now in
      let g = expire_expired_desktop_arm_pending_attempts_tx f now in
      post_bind _ _ λ h v.
        after (λ x. x) _
          (Moves-trans (expire_stale_cli_acceptances-Moves s now a p) (
            Moves-trans (expire_due_cli_observations-Moves a now b q) (
              Moves-trans (expire_stale_codex_acceptances-Moves b now c r) (
                Moves-trans (expire_due_codex_observations-Moves c now d u) (
                  Moves-trans (expire_prepared-Moves d now) (
                    Moves-trans (expire_arm_pending-Moves f now)
                      (close_expired_batches-Moves g now _ _ _ h v)))))))
          (close_expired_batches-Moves h now _ _ _)

pub sweep_codex_app_server_delivery_cleanup-Moves :
    (s : Store) (now : ℕ) → Post (sweep_codex_app_server_delivery_cleanup s now) (Moves s)
unfolding sweep_codex_app_server_delivery_cleanup
sweep_codex_app_server_delivery_cleanup-Moves s now = post_bind _ _ λ t e.
    after (λ u. u) _ (expire_stale_codex_acceptances-Moves s now t e)
      (expire_due_codex_observations-Moves t now)
