-- ===== src/Store/Sessions.antt =====
-- The calls of store.rs that bind a thread to a CLI managed session, and that retire a session.
use codex_background_task_ha.Base.{
  ℕ, suc, Bool, true, false, not, ◌&&◌, ◌||◌, Option, none, some, List, [], ◌∷◌, ◌++◌, ltb, ◌==◌,
  if◌then◌else◌, column_eq, bool_eq, update_where, any_where, select_where, first_by, Error, Result,
  ok, err, is_ok, ◌>>=◌, ◌>>◌, guard,
}
use codex_background_task_ha.Models.{
  DeliveryAttemptRecord, CliManagedSessionRecord, CliManagedSessionProfile,
  CliManagedSessionProfileRequirement, AttemptState, ObservationState, live, detached, parked,
  stale, retired, unknown, cli, is_retired, is_active, adapter_eq, is_automatic, is_cooldown,
  is_tracking, is_abandoned, is_expired, default_redelivery_window_seconds,
}
use codex_background_task_ha.Store.{
  Store, query_cli_managed_session_tx, batch_open_in, head_batch, checked_timestamp_add,
}
use codex_background_task_ha.Store.Fences.{
  no_capabilities, clear_all_proofs, park_cli_managed_session_tx,
}
use codex_background_task_ha.Store.Batches.{manualize_rows}
use codex_background_task_ha.Store.Guards.{ensure_cli_session_attachable, ensure_nonempty_value}

abbrev pub SessionReply : Type 0
SessionReply = Result (Store × CliManagedSessionRecord)

unfoldable pub session_reply : Store → ℕ → SessionReply
session_reply s k = do c ← query_cli_managed_session_tx s k; ok (s, c)

-- `requirement.is_none_or(|required| value == required)`.
abbrev matches_required : Option Bool → Bool → Bool
matches_required none b = true
matches_required (some r) b = bool_eq b r

unfoldable pub profile_matches :
    CliManagedSessionRecord → CliManagedSessionProfileRequirement → Bool
profile_matches c r =
    matches_required r.session_allows_approval c.session_allows_approval
    && matches_required r.session_allows_network c.session_allows_network
    && matches_required r.session_allows_write_access c.session_allows_write_access

-- Newest first: ORDER BY created_at DESC, managed_session_id DESC.
abbrev newer : CliManagedSessionRecord → CliManagedSessionRecord → Bool
newer c d =
    ltb d.created_at c.created_at
    || c.created_at == d.created_at && ltb d.managed_session_id c.managed_session_id

unfoldable pub query_non_retired_cli_managed_session_by_thread_tx :
    Store → ℕ → Option CliManagedSessionRecord
query_non_retired_cli_managed_session_by_thread_tx s thread = first_by newer (
    select_where (λ c. c.bound_thread_id == thread && not (is_retired c.session_state))
      s.cli_managed_sessions)

-- A thread whose head batch waits for a person.
unfoldable pub has_manual_head : Store → ℕ → Bool
has_manual_head s thread = elim (head_batch s.batches thread) [
  | none ↦ false
  | some b ↦ not (is_automatic b.replay_policy)
]

unfoldable pub ensure_cli_session_has_no_recovery_blockers_tx :
    Store → CliManagedSessionRecord → Result (Unit {0})
unfolding has_manual_head
ensure_cli_session_has_no_recovery_blockers_tx s c = do
  guard
      (not (
        any_where
          (λ a.
            adapter_eq a.adapter_kind cli
            && column_eq a.managed_session_id c.managed_session_id
            && is_active a.state)
          s.delivery_attempts))
      Error.session_has_active_attempt
  guard (not (has_manual_head s c.bound_thread_id)) Error.session_blocked_by_manual_head

unfoldable pub ensure_cli_session_retire_eligible_tx :
    Store → CliManagedSessionRecord → Result (Unit {0})
unfolding ensure_cli_session_has_no_recovery_blockers_tx
ensure_cli_session_retire_eligible_tx s c = elim c.session_state [
  | live ↦ err Error.session_live
  | retired ↦ err Error.session_retired
  | detached ↦ ensure_cli_session_has_no_recovery_blockers_tx s c
  | parked ↦ ensure_cli_session_has_no_recovery_blockers_tx s c
  | stale ↦ ensure_cli_session_has_no_recovery_blockers_tx s c
]

-- `id` is what `new_id` returns.
unfoldable pub new_session_row : ℕ → ℕ → CliManagedSessionProfile → ℕ → CliManagedSessionRecord
new_session_row id thread p now = record {
  managed_session_id = id;
  bound_thread_id = thread;
  session_epoch = 1;
  session_state = live;
  activity_state = unknown;
  activity_revision = 0;
  capability_revision = 0;
  capabilities = no_capabilities;
  session_allows_approval = p.session_allows_approval;
  session_allows_network = p.session_allows_network;
  session_allows_write_access = p.session_allows_write_access;
  startup_session_allows_approval = none;
  startup_session_allows_network = none;
  startup_session_allows_write_access = none;
  startup_permission_snapshot_json = none;
  last_permission_snapshot_json = none;
  permission_snapshot_revision = 0;
  created_at = now;
  updated_at = now;
  retired_at = none;
}

-- INSERT, under the primary key and the unique index on threads whose session is not retired.
unfoldable pub create_cli_managed_session_tx :
    Store → ℕ → ℕ → CliManagedSessionProfile → ℕ → SessionReply
unfolding new_session_row
create_cli_managed_session_tx s id thread p now = do
  guard (not (any_where (λ c. c.managed_session_id == id) s.cli_managed_sessions)) Error.constraint
  guard
      (not (
        any_where (λ c. c.bound_thread_id == thread && not (is_retired c.session_state))
          s.cli_managed_sessions))
      Error.constraint
  session_reply
      (record s {
        cli_managed_sessions = s.cli_managed_sessions ++ new_session_row id thread p now ∷ [];
      })
      id

unfoldable pub retire_row : ℕ → CliManagedSessionRecord → CliManagedSessionRecord
unfolding clear_all_proofs
retire_row now c = record (clear_all_proofs now c) {
  session_state = retired;
  retired_at = some now;
}

-- `audit_id` is what `new_id` returns.
unfoldable pub retire_cli_managed_session_tx :
    Store → ℕ → CliManagedSessionRecord → ℕ → ℕ → ℕ → SessionReply
unfolding retire_row
retire_cli_managed_session_tx s audit_id c decision reason now =
    session_reply
      (record s {
        cli_managed_sessions =
            update_where
              (λ d.
                d.managed_session_id == c.managed_session_id && not (is_retired d.session_state))
              (retire_row now) s.cli_managed_sessions;
        audit_decisions =
            s.audit_decisions
            ++ record {
              audit_id = audit_id;
              recorded_at = now;
              source_thread_id = c.bound_thread_id;
              managed_session_id = c.managed_session_id;
              session_epoch = c.session_epoch;
              decision = decision;
              reason = reason;
              previous_session_state = c.session_state;
            }
              ∷ [];
      })
      c.managed_session_id

-- A turn that the session tracks, or lost by expiry: both end with the epoch.
unfoldable pub is_observed_attempt : DeliveryAttemptRecord → Bool
is_observed_attempt a =
    is_cooldown a.state && is_tracking a.delivery_observation_state
    || is_abandoned a.state && is_expired a.delivery_observation_state

unfoldable pub lose_row : ℕ → DeliveryAttemptRecord → DeliveryAttemptRecord
lose_row now a = record a {
  state = AttemptState.abandoned;
  delivery_observation_state = some ObservationState.abandoned;
  updated_at = now;
  abandoned_at = some now;
}

unfoldable pub lose_attempt : ℕ → ℕ → DeliveryAttemptRecord → Store → Store
unfolding lose_row is_observed_attempt
lose_attempt window now row s =
    manualize_rows
      (record s {
        delivery_attempts =
            update_where (λ a. a.attempt_id == row.attempt_id && is_observed_attempt a)
              (lose_row now) s.delivery_attempts;
      })
      row.batch_id window now

unfoldable pub lose_attempts : ℕ → ℕ → List DeliveryAttemptRecord → Store → Store
unfolding lose_attempt
lose_attempts window now [] s = s
lose_attempts window now (a ∷ rest) s = lose_attempts window now rest (lose_attempt window now a s)

abbrev pub park_if_any : List DeliveryAttemptRecord → Store → ℕ → ℕ → Store
park_if_any [] s k now = s
park_if_any (_ ∷ _) s k now = park_cli_managed_session_tx s (some k) now

unfoldable pub abandon_cli_observations_for_session_epoch_loss_tx : Store → ℕ → ℕ → Result Store
unfolding is_observed_attempt lose_attempts
abandon_cli_observations_for_session_epoch_loss_tx s k now = do
  window ← checked_timestamp_add now default_redelivery_window_seconds
  let attempts =
      select_where
        (λ a.
          adapter_eq a.adapter_kind cli
          && column_eq a.managed_session_id k
          && batch_open_in s.batches a.batch_id
          && is_observed_attempt a)
        s.delivery_attempts
  ok (park_if_any attempts (lose_attempts window now attempts s) k now)

unfoldable pub reattach_row : ℕ → CliManagedSessionRecord → CliManagedSessionRecord
unfolding clear_all_proofs
reattach_row now c = record (clear_all_proofs now c) {
  session_state = live;
  session_epoch = suc c.session_epoch;
}

-- The outcome of a bind, with the session.
pub data Attach : Type 0 where
  created attached replaced : CliManagedSessionRecord → Attach

unfoldable pub reattach_cli_managed_session :
    Store → CliManagedSessionRecord → ℕ → Result (Store × Attach)
unfolding reattach_row
reattach_cli_managed_session s existing now = do
  ensure_cli_session_has_no_recovery_blockers_tx s existing
  s' ← abandon_cli_observations_for_session_epoch_loss_tx s existing.managed_session_id now
  (s'', c) ←
      session_reply
        (record s' {
          cli_managed_sessions =
              update_where (λ c. c.managed_session_id == existing.managed_session_id)
                (reattach_row now) s'.cli_managed_sessions;
        })
        existing.managed_session_id
  ok (s'', attached c)

-- The two texts of `auto_replace`, and the ids that the call draws.
pub record BindTexts : Type 0 where
  pub auto_replace : ℕ
  pub auto_replaced_by_bind : ℕ
  pub session_id : ℕ
  pub audit_id : ℕ

unfoldable pub replace_cli_managed_session :
    BindTexts
    → Store
    → CliManagedSessionRecord
    → ℕ
    → CliManagedSessionProfile
    → ℕ
    → Result (Store × Attach)
replace_cli_managed_session t s existing thread p now = do
  ensure_cli_session_retire_eligible_tx s existing
  (s', _) ←
      retire_cli_managed_session_tx s t.audit_id existing t.auto_replace t.auto_replaced_by_bind now
  (s'', c) ← create_cli_managed_session_tx s' t.session_id thread p now
  ok (s'', replaced c)

unfoldable pub attach_or_create_cli_managed_session :
    BindTexts
    → Store
    → ℕ
    → CliManagedSessionProfile
    → CliManagedSessionProfileRequirement
    → ℕ
    → Result (Store × Attach)
unfolding reattach_cli_managed_session replace_cli_managed_session
attach_or_create_cli_managed_session t s thread p requirement now =
    elim (query_non_retired_cli_managed_session_by_thread_tx s thread) [
      | none ↦ (do
        (s', c) ← create_cli_managed_session_tx s t.session_id thread p now
        ok (s', created c))
      | some existing ↦
          if profile_matches existing requirement && is_ok (ensure_cli_session_attachable existing)
          then reattach_cli_managed_session s existing now
          else replace_cli_managed_session t s existing thread p now
    ]

-- `operator_retire` is the decision's text, `audit_id` what `new_id` returns.
unfoldable pub retire_cli_managed_session : ℕ → ℕ → Store → ℕ → ℕ → ℕ → SessionReply
retire_cli_managed_session operator_retire audit_id s k reason now = do
  ensure_nonempty_value reason
  c ← query_cli_managed_session_tx s k
  ensure_cli_session_retire_eligible_tx s c
  retire_cli_managed_session_tx s audit_id c operator_retire reason now
