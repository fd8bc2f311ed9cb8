-- ===== src/Store/Sweep.antt =====
-- The database part of the maintenance sweep (store.rs, `sweep`): stale acceptances, due
-- observations, expired desktop attempts, expired batches. Each SELECT orders its rows and takes
-- 100 at most.
use codex_background_task_ha.Base.{
  ℕ, ◌+◌, Bool, false, not, ◌&&◌, ◌||◌, Option, none, some, List, [], ◌∷◌, leb, ltb, ◌==◌,
  column_le, coalesce, update_where, any_where, select_where, order_by_limit, Result, ok, ◌>>=◌,
}
use codex_background_task_ha.Models.{
  BatchRecord, DeliveryAttemptRecord, AttemptState, ObservationState, AdapterKind, RpcState, cli,
  desktop, codex_app_server, adapter_eq, is_open, is_active, is_automatic, is_accept_pending,
  is_cooldown, is_prepared, is_arm_pending, is_pending_acceptance, is_tracking,
  default_redelivery_window_seconds,
}
use codex_background_task_ha.Store.{
  Store, query_batch_tx, query_delivery_attempt_tx, batch_open_in, checked_timestamp_add,
}
use codex_background_task_ha.Store.Batches.{
  manualize_codex_app_server_batch_tx, manualize_rows, invalidate_and_park, close_batch_tx,
  extend_closed_batch_artifact_retention_tx,
}
use codex_background_task_ha.Store.Outcomes.{refuse_rows, expire_rows, expired_state}

abbrev pub max_expired_batches_per_sweep : ℕ
max_expired_batches_per_sweep = 100

abbrev pub cli_accept_pending_timeout_seconds : ℕ
cli_accept_pending_timeout_seconds = 300

abbrev pub codex_app_server_accept_pending_timeout_seconds : ℕ
codex_app_server_accept_pending_timeout_seconds = 120

-- `started_at <= now - timeout`, as a sum.
unfoldable pub started_by : ℕ → ℕ → DeliveryAttemptRecord → Bool
started_by timeout now a = elim a.delivery_rpc_started_at [
  | none ↦ false
  | some t ↦ leb (t + timeout) now
]

-- ORDER BY column ASC, attempt_id ASC.
abbrev pub sooner :
    (DeliveryAttemptRecord → Option ℕ) → DeliveryAttemptRecord → DeliveryAttemptRecord → Bool
sooner column a b =
    ltb (coalesce (column a) 0) (coalesce (column b) 0)
    || coalesce (column a) 0 == coalesce (column b) 0 && ltb a.attempt_id b.attempt_id

unfoldable pub stale_acceptances : Store → AdapterKind → ℕ → ℕ → List DeliveryAttemptRecord
unfolding started_by
stale_acceptances s kind timeout now =
    order_by_limit (sooner λ a. a.delivery_rpc_started_at) max_expired_batches_per_sweep (
      select_where
        (λ a.
          adapter_eq a.adapter_kind kind
          && is_accept_pending a.state
          && is_pending_acceptance a.delivery_rpc_state
          && started_by timeout now a
          && batch_open_in s.batches a.batch_id)
        s.delivery_attempts)

unfoldable pub due_observations : Store → AdapterKind → ℕ → List DeliveryAttemptRecord
due_observations s kind now =
    order_by_limit (sooner λ a. a.delivery_observation_deadline) max_expired_batches_per_sweep (
      select_where
        (λ a.
          adapter_eq a.adapter_kind kind
          && is_cooldown a.state
          && is_tracking a.delivery_observation_state
          && column_le a.delivery_observation_deadline now
          && batch_open_in s.batches a.batch_id)
        s.delivery_attempts)

-- One turn of the loop of `expire_stale_cli_acceptances_tx`.
unfoldable pub expire_stale_cli_acceptance : ℕ → ℕ → DeliveryAttemptRecord → Store → Store
expire_stale_cli_acceptance window now a s =
    invalidate_and_park
      (manualize_rows (refuse_rows s a.attempt_id RpcState.unknown now) a.batch_id window now)
      a.managed_session_id a.session_epoch now

-- `for … in &rows`, where no turn can fail.
unfoldable pub for_each :
    List DeliveryAttemptRecord → (DeliveryAttemptRecord → Store → Store) → Store → Store
for_each [] body s = s
for_each (a ∷ rest) body s = for_each rest body (body a s)

-- `for … in &rows`, where a turn may fail.
unfoldable pub try_for_each {ℓ} :
    {A : Type ℓ} → List A → (A → Store → Result Store) → Store → Result Store
try_for_each [] body s = ok s
try_for_each (a ∷ rest) body s = body a s >>= try_for_each rest body

unfoldable pub expire_stale_cli_acceptances_tx : Store → ℕ → Result Store
unfolding stale_acceptances expire_stale_cli_acceptance for_each
expire_stale_cli_acceptances_tx s now = do
  window ← checked_timestamp_add now default_redelivery_window_seconds
  ok (
      for_each (stale_acceptances s cli cli_accept_pending_timeout_seconds now)
        (expire_stale_cli_acceptance window now) s)

unfoldable pub expire_due_cli_observation : ℕ → ℕ → DeliveryAttemptRecord → Store → Result Store
expire_due_cli_observation window now row s = do
  a ← query_delivery_attempt_tx s row.attempt_id
  batch ← query_batch_tx s row.batch_id
  ok (
      invalidate_and_park
        (manualize_rows (expire_rows s row.attempt_id (expired_state s a batch) now) row.batch_id
          window now)
        row.managed_session_id row.session_epoch now)

unfoldable pub expire_due_cli_observations_tx : Store → ℕ → Result Store
unfolding due_observations expire_due_cli_observation try_for_each
expire_due_cli_observations_tx s now = do
  window ← checked_timestamp_add now default_redelivery_window_seconds
  try_for_each (due_observations s cli now) (expire_due_cli_observation window now) s

unfoldable pub expire_stale_codex_acceptance : ℕ → DeliveryAttemptRecord → Store → Result Store
expire_stale_codex_acceptance now row s = do
  a ← query_delivery_attempt_tx s row.attempt_id
  manualize_codex_app_server_batch_tx (refuse_rows s row.attempt_id RpcState.unknown now) a now

unfoldable pub expire_stale_codex_app_server_acceptances_tx : Store → ℕ → Result Store
unfolding stale_acceptances expire_stale_codex_acceptance try_for_each
expire_stale_codex_app_server_acceptances_tx s now =
    try_for_each
      (stale_acceptances s codex_app_server codex_app_server_accept_pending_timeout_seconds now)
      (expire_stale_codex_acceptance now) s

unfoldable pub expire_due_codex_observation : ℕ → DeliveryAttemptRecord → Store → Result Store
expire_due_codex_observation now row s = do
  a ← query_delivery_attempt_tx s row.attempt_id
  manualize_codex_app_server_batch_tx (expire_rows s row.attempt_id ObservationState.expired now) a
      now

unfoldable pub expire_due_codex_app_server_observations_tx : Store → ℕ → Result Store
unfolding due_observations expire_due_codex_observation try_for_each
expire_due_codex_app_server_observations_tx s now =
    try_for_each (due_observations s codex_app_server now) (expire_due_codex_observation now) s

-- A desktop attempt gives up its place.
unfoldable pub give_up_row : ℕ → DeliveryAttemptRecord → DeliveryAttemptRecord
give_up_row now a = record a {
  state = AttemptState.abandoned;
  delivery_observation_state = some ObservationState.abandoned;
  updated_at = now;
  abandoned_at = some now;
}

unfoldable pub is_automatic_batch : ℕ → BatchRecord → Bool
is_automatic_batch k b = b.batch_id == k && is_open b.state && is_automatic b.replay_policy

unfoldable pub is_expired_automatic_batch : ℕ → ℕ → BatchRecord → Bool
unfolding is_automatic_batch
is_expired_automatic_batch k now b = is_automatic_batch k b && leb b.redelivery_window_ends_at now

unfoldable pub expire_expired_desktop_prepared_attempts_tx : Store → ℕ → Store
unfolding give_up_row is_expired_automatic_batch
expire_expired_desktop_prepared_attempts_tx s now = record s {
  delivery_attempts =
      update_where
        (λ a.
          adapter_eq a.adapter_kind desktop
          && is_prepared a.state
          && any_where (is_expired_automatic_batch a.batch_id now) s.batches)
        (give_up_row now) s.delivery_attempts;
}

unfoldable pub expire_expired_desktop_arm_pending_attempts_tx : Store → ℕ → Store
unfolding give_up_row is_automatic_batch is_expired_automatic_batch
expire_expired_desktop_arm_pending_attempts_tx s now = record s {
  delivery_attempts =
      update_where
        (λ a.
          adapter_eq a.adapter_kind desktop
          && is_arm_pending a.state
          && any_where (is_automatic_batch a.batch_id) s.batches
          && (leb (coalesce a.bridge_arm_lease_deadline 0) now
              || leb (coalesce a.arm_pending_deadline 0) now
              || any_where (is_expired_automatic_batch a.batch_id now) s.batches))
        (give_up_row now) s.delivery_attempts;
}

-- ORDER BY redelivery_window_ends_at ASC, batch_id ASC.
abbrev pub ends_sooner : BatchRecord → BatchRecord → Bool
ends_sooner b c =
    ltb b.redelivery_window_ends_at c.redelivery_window_ends_at
    || b.redelivery_window_ends_at == c.redelivery_window_ends_at && ltb b.batch_id c.batch_id

-- Open batches under the policy, past their window, with no active attempt.
unfoldable pub expired_batches : Store → (BatchRecord → Bool) → ℕ → List BatchRecord
expired_batches s has_policy now = order_by_limit ends_sooner max_expired_batches_per_sweep (
    select_where
      (λ b.
        is_open b.state
        && has_policy b
        && leb b.redelivery_window_ends_at now
        && not (any_where (λ a. a.batch_id == b.batch_id && is_active a.state) s.delivery_attempts))
      s.batches)

unfoldable pub close_expired_batch : ℕ → ℕ → ℕ → BatchRecord → Store → Result Store
close_expired_batch reason note now b s = do
  s' ← close_batch_tx s b.batch_id reason (some note) now
  extend_closed_batch_artifact_retention_tx s' b.batch_id now

-- The texts of the two close reasons, and 'closed by maintenance sweep'.
pub record SweepTexts : Type 0 where
  pub manual_resolution_expired : ℕ
  pub redelivery_window_exhausted : ℕ
  pub sweep_note : ℕ

module _ (t : SweepTexts) where
  open t use {manual_resolution_expired, redelivery_window_exhausted, sweep_note}

  unfoldable pub close_expired_manual_batches_tx : Store → ℕ → Result Store
  unfolding expired_batches close_expired_batch try_for_each
  close_expired_manual_batches_tx s now =
      try_for_each (expired_batches s (λ b. not (is_automatic b.replay_policy)) now)
        (close_expired_batch manual_resolution_expired sweep_note now) s

  unfoldable pub close_expired_automatic_batches_tx : Store → ℕ → Result Store
  unfolding expired_batches close_expired_batch try_for_each
  close_expired_automatic_batches_tx s now =
      try_for_each (expired_batches s (λ b. is_automatic b.replay_policy) now)
        (close_expired_batch redelivery_window_exhausted sweep_note now) s

  -- The first transaction of `sweep`; the files that it deletes afterwards are outside the model.
  unfoldable pub sweep : Store → ℕ → Result Store
  unfolding close_expired_manual_batches_tx close_expired_automatic_batches_tx
  sweep s now = do
    s₁ ← expire_stale_cli_acceptances_tx s now
    s₂ ← expire_due_cli_observations_tx s₁ now
    s₃ ← expire_stale_codex_app_server_acceptances_tx s₂ now
    s₄ ← expire_due_codex_app_server_observations_tx s₃ now
    let s₅ = expire_expired_desktop_prepared_attempts_tx s₄ now
    let s₆ = expire_expired_desktop_arm_pending_attempts_tx s₅ now
    s₇ ← close_expired_manual_batches_tx s₆ now
    close_expired_automatic_batches_tx s₇ now

unfoldable pub sweep_codex_app_server_delivery_cleanup : Store → ℕ → Result Store
sweep_codex_app_server_delivery_cleanup s now = do
  s' ← expire_stale_codex_app_server_acceptances_tx s now
  expire_due_codex_app_server_observations_tx s' now
