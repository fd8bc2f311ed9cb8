-- ===== src/Store/Notes.antt =====
-- What a running adapter notes of its CLI managed session: activity, capabilities, permissions,
-- and the loss of its proofs (store.rs).
use codex_background_task_ha.Base.{
  ℕ, suc, Bool, false, not, ◌&&◌, ◌||◌, Option, none, some, leb, ltb, ◌==◌, if◌then◌else◌,
  column_eq, is_none, bool_eq, update_where, Error, Result, ok, ◌>>=◌, ◌>>◌, guard,
}
use codex_background_task_ha.Models.{
  CliManagedSessionRecord, CliManagedSessionCapabilities, CliManagedSessionPermissions,
  NewCliManagedSessionPermissionSnapshot, ActivityState, unknown, is_attached, activity_eq, i64_max,
}
use codex_background_task_ha.Store.{Store, query_cli_managed_session_tx, checked_add}
use codex_background_task_ha.Store.Fences.{
  invalidate_cli_managed_session_activity_tx, detach_cli_managed_session_tx,
}
use codex_background_task_ha.Store.Sessions.{
  SessionReply, session_reply, abandon_cli_observations_for_session_epoch_loss_tx,
}
use codex_background_task_ha.Store.Guards.{
  ensure_cli_session_attachable, ensure_cli_session_epoch_matches, ensure_positive_value,
  ensure_nonempty_value, ensure_value, ensure_cli_session_activity_value,
  cli_session_startup_permissions_are_pinned,
}

unfoldable pub update_session :
    Store → ℕ → (CliManagedSessionRecord → CliManagedSessionRecord) → Store
update_session s k f = record s {
  cli_managed_sessions = update_where (λ c. c.managed_session_id == k) f s.cli_managed_sessions;
}

-- `revision.checked_add(1) == Some(next)`.
abbrev is_next : ℕ → ℕ → Bool
is_next revision next = next == suc revision && leb next i64_max

unfoldable pub activity_revision_can_advance : CliManagedSessionRecord → ActivityState → ℕ → Bool
activity_revision_can_advance c activity revision =
    revision == c.activity_revision && activity_eq activity c.activity_state
    || is_next c.activity_revision revision

unfoldable pub note_cli_managed_session_activity :
    Store → ℕ → ℕ → Option ActivityState → ℕ → ℕ → SessionReply
unfolding update_session activity_revision_can_advance
note_cli_managed_session_activity s k epoch activity_state revision now = do
  activity ← ensure_value activity_state
  ensure_cli_session_activity_value activity
  ensure_positive_value revision
  c ← query_cli_managed_session_tx s k
  ensure_cli_session_epoch_matches c epoch
  ensure_cli_session_attachable c
  guard (activity_revision_can_advance c activity revision) Error.activity_revision_gap
  if c.activity_revision == revision
      then ok (s, c)
      else session_reply
          (update_session s k λ d. record d {
            activity_state = activity;
            activity_revision = revision;
            updated_at = now;
          })
          k

unfoldable pub cli_session_capabilities_match :
    CliManagedSessionRecord → CliManagedSessionCapabilities → Bool
cli_session_capabilities_match c p =
    bool_eq c.capability_thread_resume p.capability_thread_resume
    && bool_eq c.capability_turn_start p.capability_turn_start
    && bool_eq c.capability_current_state_sync p.capability_current_state_sync
    && bool_eq c.capability_turn_completed_event p.capability_turn_completed_event
    && bool_eq c.capability_negative_terminal_events p.capability_negative_terminal_events
    && bool_eq c.capability_thread_start p.capability_thread_start
    && bool_eq c.capability_turn_steer p.capability_turn_steer

unfoldable pub capability_revision_can_advance :
    CliManagedSessionRecord → CliManagedSessionCapabilities → ℕ → Bool
unfolding cli_session_capabilities_match
capability_revision_can_advance c p revision =
    revision == c.capability_revision && cli_session_capabilities_match c p
    || is_next c.capability_revision revision

unfoldable pub note_cli_managed_session_capabilities :
    Store → ℕ → ℕ → ℕ → CliManagedSessionCapabilities → ℕ → SessionReply
unfolding update_session capability_revision_can_advance
note_cli_managed_session_capabilities s k epoch revision p now = do
  ensure_positive_value revision
  c ← query_cli_managed_session_tx s k
  ensure_cli_session_epoch_matches c epoch
  ensure_cli_session_attachable c
  guard (capability_revision_can_advance c p revision) Error.capability_revision_gap
  if c.capability_revision == revision
      then ok (s, c)
      else session_reply
          (update_session s k
            λ d. record d { capability_revision = revision; capabilities = p; updated_at = now })
          k

abbrev column_is : Option Bool → Bool → Bool
column_is none b = false
column_is (some a) b = bool_eq a b

unfoldable pub startup_permissions_can_pin :
    CliManagedSessionRecord → CliManagedSessionPermissions → ℕ → Bool
startup_permissions_can_pin c p snapshot =
    not (cli_session_startup_permissions_are_pinned c)
    || column_is c.startup_session_allows_approval p.session_allows_approval
      && column_is c.startup_session_allows_network p.session_allows_network
      && column_is c.startup_session_allows_write_access p.session_allows_write_access
      && column_eq c.startup_permission_snapshot_json snapshot

-- A snapshot without startup permissions needs them pinned already.
unfoldable pub ensure_startup_snapshot :
    CliManagedSessionRecord → NewCliManagedSessionPermissionSnapshot → Result (Unit {0})
unfolding startup_permissions_can_pin
ensure_startup_snapshot c n = elim n.startup [
  | none ↦ guard (cli_session_startup_permissions_are_pinned c) Error.session_no_startup_snapshot
  | some p ↦ guard (startup_permissions_can_pin c p n.snapshot_json) Error.session_startup_pinned
]

-- The startup columns are written once.
unfoldable pub pin_startup :
    CliManagedSessionRecord
    → NewCliManagedSessionPermissionSnapshot
    → CliManagedSessionRecord
    → CliManagedSessionRecord
pin_startup c n d = elim n.startup [
  | none ↦ d
  | some p ↦ if cli_session_startup_permissions_are_pinned c then d else record d {
    startup_session_allows_approval = some p.session_allows_approval;
    startup_session_allows_network = some p.session_allows_network;
    startup_session_allows_write_access = some p.session_allows_write_access;
    startup_permission_snapshot_json = some n.snapshot_json;
  }
]

unfoldable pub note_cli_managed_session_permissions :
    Store → ℕ → ℕ → NewCliManagedSessionPermissionSnapshot → ℕ → SessionReply
unfolding update_session ensure_startup_snapshot pin_startup
note_cli_managed_session_permissions s k epoch n now = do
  ensure_nonempty_value n.snapshot_json
  c ← query_cli_managed_session_tx s k
  ensure_cli_session_epoch_matches c epoch
  ensure_cli_session_attachable c
  ensure_startup_snapshot c n
  next_revision ← checked_add c.permission_snapshot_revision 1 Error.permission_revision_overflow
  session_reply
      (update_session s k λ d. record (pin_startup c n d) {
        session_allows_approval = n.effective.session_allows_approval;
        session_allows_network = n.effective.session_allows_network;
        session_allows_write_access = n.effective.session_allows_write_access;
        last_permission_snapshot_json = some n.snapshot_json;
        permission_snapshot_revision = next_revision;
        updated_at = now;
      })
      k

unfoldable pub cli_session_proof_is_clear : CliManagedSessionRecord → Bool
cli_session_proof_is_clear c =
    activity_eq c.activity_state unknown
    && c.activity_revision == 0
    && c.capability_revision == 0
    && not c.capability_thread_resume
    && not c.capability_turn_start
    && not c.capability_current_state_sync
    && not c.capability_turn_completed_event
    && not c.capability_negative_terminal_events
    && not c.capability_thread_start
    && not c.capability_turn_steer
    && is_none c.last_permission_snapshot_json
    && c.permission_snapshot_revision == 0

unfoldable pub invalidate_proof : Store → ℕ → ℕ → ℕ → SessionReply
invalidate_proof s k epoch now = do
  s' ← abandon_cli_observations_for_session_epoch_loss_tx s k now
  session_reply (invalidate_cli_managed_session_activity_tx s' (some k) (some epoch) now) k

unfoldable pub invalidate_cli_managed_session_proof : Store → ℕ → ℕ → ℕ → SessionReply
unfolding cli_session_proof_is_clear invalidate_proof
invalidate_cli_managed_session_proof s k epoch now = do
  ensure_positive_value epoch
  c ← query_cli_managed_session_tx s k
  if not (is_attached c.session_state)
      then ok (s, c)
      else if not (c.session_epoch == epoch)
          && ltb epoch c.session_epoch
          && cli_session_proof_is_clear c
      then ok (s, c)
      else ensure_cli_session_epoch_matches c epoch >> invalidate_proof s k epoch now

unfoldable pub invalidate_cli_managed_session_current_proof : Store → ℕ → ℕ → ℕ → SessionReply
invalidate_cli_managed_session_current_proof s k thread now = do
  c ← query_cli_managed_session_tx s k
  guard (c.bound_thread_id == thread) Error.session_bound_elsewhere
  if not (is_attached c.session_state) then ok (s, c) else (do
    s' ← abandon_cli_observations_for_session_epoch_loss_tx s k now
    session_reply
        (detach_cli_managed_session_tx
          (invalidate_cli_managed_session_activity_tx s' (some k) (some c.session_epoch) now) k now)
        k)
