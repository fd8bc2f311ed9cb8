-- ===== src/Store/Fences.antt =====
-- The updates of `cli_managed_sessions` that fence a session off: a new epoch with the proofs
-- cleared, detaching, and parking for manual resolution (store.rs).
use codex_background_task_ha.Base.{ℕ, suc, false, ◌&&◌, Option, none, some, ◌==◌, update_where}
use codex_background_task_ha.Models.{
  CliManagedSessionRecord, CliManagedSessionCapabilities, detached, parked, unknown, is_attached,
  is_parkable,
}
use codex_background_task_ha.Store.{Store}

abbrev pub no_capabilities : CliManagedSessionCapabilities
no_capabilities = record {
  capability_thread_resume = false;
  capability_turn_start = false;
  capability_current_state_sync = false;
  capability_turn_completed_event = false;
  capability_negative_terminal_events = false;
  capability_thread_start = false;
  capability_turn_steer = false;
}

-- SET activity_state = 'unknown', … permission_snapshot_revision = 0, updated_at = ?
unfoldable pub clear_proof : ℕ → CliManagedSessionRecord → CliManagedSessionRecord
clear_proof now c = record c {
  activity_state = unknown;
  activity_revision = 0;
  capability_revision = 0;
  capabilities = no_capabilities;
  last_permission_snapshot_json = none;
  permission_snapshot_revision = 0;
  updated_at = now;
}

-- The same with the startup columns set to NULL.
unfoldable pub clear_all_proofs : ℕ → CliManagedSessionRecord → CliManagedSessionRecord
clear_all_proofs now c = record c {
  activity_state = unknown;
  activity_revision = 0;
  capability_revision = 0;
  capabilities = no_capabilities;
  startup_session_allows_approval = none;
  startup_session_allows_network = none;
  startup_session_allows_write_access = none;
  startup_permission_snapshot_json = none;
  last_permission_snapshot_json = none;
  permission_snapshot_revision = 0;
  updated_at = now;
}

unfoldable pub next_epoch : ℕ → CliManagedSessionRecord → CliManagedSessionRecord
unfolding clear_proof
next_epoch now c = record (clear_proof now c) { session_epoch = suc c.session_epoch }

unfoldable pub invalidate_cli_managed_session_activity_tx : Store → Option ℕ → Option ℕ → ℕ → Store
invalidate_cli_managed_session_activity_tx s none _ now = s
invalidate_cli_managed_session_activity_tx s (some k) none now = s
invalidate_cli_managed_session_activity_tx s (some k) (some epoch) now = record s {
  cli_managed_sessions =
      update_where
        (λ c. c.managed_session_id == k && c.session_epoch == epoch && is_attached c.session_state)
        (next_epoch now) s.cli_managed_sessions;
}

unfoldable pub detach_cli_managed_session_tx : Store → ℕ → ℕ → Store
detach_cli_managed_session_tx s k now = record s {
  cli_managed_sessions =
      update_where (λ c. c.managed_session_id == k && is_attached c.session_state)
        (λ c. record c { session_state = detached; updated_at = now }) s.cli_managed_sessions;
}

unfoldable pub park_session : ℕ → CliManagedSessionRecord → CliManagedSessionRecord
unfolding clear_all_proofs
park_session now c = record (clear_all_proofs now c) { session_state = parked }

unfoldable pub park_cli_managed_session_tx : Store → Option ℕ → ℕ → Store
park_cli_managed_session_tx s none now = s
park_cli_managed_session_tx s (some k) now = record s {
  cli_managed_sessions =
      update_where (λ c. c.managed_session_id == k && is_parkable c.session_state)
        (park_session now) s.cli_managed_sessions;
}
