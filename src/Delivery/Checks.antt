-- ===== src/Delivery/Checks.antt =====
-- The rows of the small history, found where the calls leave them.
use codex_background_task_ha.Base.{
  ◌≡◌, refl, none, update_where, find_where, any_where, count_where, select_where, first_by, max_of,
  ok, ◌>>=◌, ◌>>◌, guard, found,
}
use codex_background_task_ha.Models.{ObservationState, i64_max}
use codex_background_task_ha.Store.{
  query_job_tx, query_batch_tx, query_delivery_attempt_tx,
  query_delivery_attempt_by_rpc_request_id_tx, query_cli_managed_session_tx, head_batch,
  batch_is_thread_head_tx, batch_open_in, in_flight, max_generation, checked_add,
  checked_timestamp_add, next_attempt_generation_tx, insert_delivery_attempt,
}
use codex_background_task_ha.Store.Fences.{
  clear_proof, clear_all_proofs, next_epoch, invalidate_cli_managed_session_activity_tx,
  park_session, park_cli_managed_session_tx,
}
use codex_background_task_ha.Store.Batches.{
  new_batch_row, insert_batch_tx, query_active_cli_attempt_session_fences_for_batch_tx,
  invalidate_fences, close_batch, close_attempt, is_open_batch, close_batch_rows, close_batch_tx,
  is_job_of, extend_closed_batch_artifact_retention_tx, manualize_batch, manualize_rows,
  invalidate_and_park, manualize_cli_batch_after_observation_loss_tx, count_delivery, has_budget,
  count_delivery_tx,
}
use codex_background_task_ha.Store.Guards.{
  ensure_job_pending, ensure_batch_open, ensure_batch_is_thread_head_tx,
  ensure_batch_allows_automatic_delivery, ensure_batch_is_not_plugin_delivery_tx,
  ensure_batch_allows_detached_cli_delivery, ensure_batch_allows_cli_delivery_for_authorization,
  ensure_attempt_budget_remaining, ensure_no_active_attempt_for_thread_tx,
  ensure_attempt_is_current_generation_tx, ensure_positive_value, ensure_nonempty_value,
  ensure_value, ensure_cli_session_activity_value, ensure_cli_session_epoch_matches,
  ensure_cli_session_attachable, cli_session_startup_permissions_are_pinned,
  cli_session_current_permission_snapshot_is_fresh,
  ensure_cli_session_has_minimum_turn_start_capabilities, ensure_cli_session_strict_safe,
  ensure_cli_session_identity_allows_delivery, ensure_cli_session_ready_for,
  ensure_cli_session_allows_delivery,
  ensure_cli_attempt_has_recorded_detached_delivery_proof_snapshot,
  ensure_cli_attempt_has_recorded_detached_delivery_proof,
  ensure_cli_attempt_has_current_managed_session_for_batch_tx,
  ensure_cli_attempt_has_current_managed_session_tx, ensure_existing_cli_accept_matches_request,
  ensure_attempt_accept_pending_for_adapter, ensure_cli_turn_observation_matches_attempt,
  ensure_attempt_tracking_turn_observation_for_adapter, is_idempotent_terminal_cli_turn_observation,
  can_record_late_cli_turn_evidence, cli_turn_observation_is_after_deadline,
  can_complete_delayed_cli_turn_after_expiry,
}
use codex_background_task_ha.Store.Attempts.{
  reply, cli_attempt_row, begin_cli_new, begin_cli_again, begin_cli_accept_pending_attempt,
}
use codex_background_task_ha.Store.Outcomes.{
  is_pending_attempt, is_tracked_attempt, accept_row, accept_rows, is_accepted_turn,
  accept_cli_pending, accept_cli_attempt, expire_row, expire_rows, expired_state,
  expire_cli_tracked, expire_cli_observation,
}
use codex_background_task_ha.Store.Observe.{
  note_event, note_event_tx, abandon_turn, abandon_cli_turn_observation_tx, is_unsettled_attempt,
  record_late_cli_turn_evidence_tx, complete_turn, complete_delayed_turn, is_lost_attempt,
  deliver_batch, complete_delayed_cli_turn_after_expiry_tx, observe_delayed_completion,
  complete_rows, observe_completion, observe_cli_loss, apply_cli_event, observe_cli_tracked,
  observe_cli_turn_event,
}
use codex_background_task_ha.Store.Sessions.{
  session_reply, profile_matches, query_non_retired_cli_managed_session_by_thread_tx,
  has_manual_head, ensure_cli_session_has_no_recovery_blockers_tx,
  ensure_cli_session_retire_eligible_tx, new_session_row, create_cli_managed_session_tx, retire_row,
  retire_cli_managed_session_tx, is_observed_attempt, lose_row, lose_attempt, lose_attempts,
  abandon_cli_observations_for_session_epoch_loss_tx, reattach_row, reattach_cli_managed_session,
  replace_cli_managed_session, attach_or_create_cli_managed_session,
}
use codex_background_task_ha.Store.Notes.{
  update_session, activity_revision_can_advance, note_cli_managed_session_activity,
  cli_session_capabilities_match, capability_revision_can_advance,
  note_cli_managed_session_capabilities,
}
use codex_background_task_ha.Store.Jobs.{
  new_job_row, submit_job_for_supervisor_generation, fail_job_row, update_job, queue_batch,
  fail_job,
}
use codex_background_task_ha.Delivery.Calls.{keep, perform, step, run}
use codex_background_task_ha.Delivery.Samples.{
  cli_request, queued, store_of, begun, accepted_cli, delivered_cli, expired_cli, job_failed,
  batch_queued, batch_accepted, batch_delivered, batch_manual, session_idle, session_parked,
  attempt_pending, attempt_accepted, attempt_delivered,
}

pub queued_rows :
    (query_batch_tx (store_of queued) 20 ≡ ok batch_queued)
    × (query_cli_managed_session_tx (store_of queued) 30 ≡ ok session_idle)
    × (query_job_tx (store_of queued) 1 ≡ ok job_failed)
unfolding abandon_cli_observations_for_session_epoch_loss_tx activity_revision_can_advance any_where
    attach_or_create_cli_managed_session batch_open_in capability_revision_can_advance checked_add
    checked_timestamp_add clear_all_proofs cli_session_capabilities_match
    create_cli_managed_session_tx ensure_cli_session_activity_value ensure_cli_session_attachable
    ensure_cli_session_epoch_matches ensure_cli_session_has_no_recovery_blockers_tx
    ensure_cli_session_retire_eligible_tx ensure_job_pending ensure_positive_value ensure_value
    fail_job fail_job_row find_where first_by found guard has_manual_head head_batch i64_max
    insert_batch_tx is_observed_attempt is_open_batch keep lose_attempt lose_attempts lose_row
    manualize_batch manualize_rows new_batch_row new_job_row new_session_row
    note_cli_managed_session_activity note_cli_managed_session_capabilities
    park_cli_managed_session_tx park_session perform profile_matches query_batch_tx
    query_cli_managed_session_tx query_job_tx query_non_retired_cli_managed_session_by_thread_tx
    queue_batch reattach_cli_managed_session reattach_row replace_cli_managed_session
    retire_cli_managed_session_tx retire_row run select_where session_reply step
    submit_job_for_supervisor_generation update_job update_session update_where ◌>>=◌ ◌>>◌
queued_rows = (refl, refl, refl)

pub begin_cli_succeeds :
    (begin_cli_accept_pending_attempt (store_of queued) cli_request
      ≡ ok (store_of begun, attempt_pending))
    × (query_delivery_attempt_by_rpc_request_id_tx (store_of queued) 41 ≡ none)
    × (query_delivery_attempt_tx (store_of begun) 40 ≡ ok attempt_pending)
    × (query_cli_managed_session_tx (store_of begun) 30 ≡ ok session_idle)
unfolding abandon_cli_observations_for_session_epoch_loss_tx activity_revision_can_advance any_where
    attach_or_create_cli_managed_session batch_is_thread_head_tx batch_open_in
    begin_cli_accept_pending_attempt begin_cli_again begin_cli_new capability_revision_can_advance
    checked_add checked_timestamp_add clear_all_proofs cli_attempt_row
    cli_session_capabilities_match cli_session_current_permission_snapshot_is_fresh
    cli_session_startup_permissions_are_pinned create_cli_managed_session_tx
    ensure_attempt_budget_remaining ensure_batch_allows_automatic_delivery
    ensure_batch_allows_cli_delivery_for_authorization ensure_batch_allows_detached_cli_delivery
    ensure_batch_is_not_plugin_delivery_tx ensure_batch_is_thread_head_tx ensure_batch_open
    ensure_cli_attempt_has_current_managed_session_for_batch_tx
    ensure_cli_attempt_has_current_managed_session_tx
    ensure_cli_attempt_has_recorded_detached_delivery_proof
    ensure_cli_attempt_has_recorded_detached_delivery_proof_snapshot
    ensure_cli_session_activity_value ensure_cli_session_allows_delivery
    ensure_cli_session_attachable ensure_cli_session_epoch_matches
    ensure_cli_session_has_minimum_turn_start_capabilities
    ensure_cli_session_has_no_recovery_blockers_tx ensure_cli_session_identity_allows_delivery
    ensure_cli_session_ready_for ensure_cli_session_retire_eligible_tx
    ensure_cli_session_strict_safe ensure_existing_cli_accept_matches_request ensure_job_pending
    ensure_no_active_attempt_for_thread_tx ensure_positive_value ensure_value fail_job fail_job_row
    find_where first_by found guard has_manual_head head_batch i64_max in_flight insert_batch_tx
    insert_delivery_attempt is_observed_attempt is_open_batch keep lose_attempt lose_attempts
    lose_row manualize_batch manualize_rows max_generation max_of new_batch_row new_job_row
    new_session_row next_attempt_generation_tx note_cli_managed_session_activity
    note_cli_managed_session_capabilities park_cli_managed_session_tx park_session perform
    profile_matches query_batch_tx query_cli_managed_session_tx
    query_delivery_attempt_by_rpc_request_id_tx query_delivery_attempt_tx query_job_tx
    query_non_retired_cli_managed_session_by_thread_tx queue_batch reattach_cli_managed_session
    reattach_row replace_cli_managed_session reply retire_cli_managed_session_tx retire_row run
    select_where session_reply step submit_job_for_supervisor_generation update_job update_session
    update_where ◌>>=◌ ◌>>◌
begin_cli_succeeds = (refl, refl, refl, refl)

pub accept_cli_succeeds :
    (accept_cli_attempt (store_of begun) 40 43 1011 2000
      ≡ ok (store_of accepted_cli, attempt_accepted))
    × (query_delivery_attempt_tx (store_of accepted_cli) 40 ≡ ok attempt_accepted)
    × (query_batch_tx (store_of accepted_cli) 20 ≡ ok batch_accepted)
unfolding abandon_cli_observations_for_session_epoch_loss_tx accept_cli_attempt accept_cli_pending
    accept_row accept_rows activity_revision_can_advance any_where
    attach_or_create_cli_managed_session batch_is_thread_head_tx batch_open_in
    begin_cli_accept_pending_attempt begin_cli_again begin_cli_new capability_revision_can_advance
    checked_add checked_timestamp_add clear_all_proofs cli_attempt_row
    cli_session_capabilities_match cli_session_current_permission_snapshot_is_fresh
    cli_session_startup_permissions_are_pinned count_delivery count_delivery_tx count_where
    create_cli_managed_session_tx ensure_attempt_accept_pending_for_adapter
    ensure_attempt_budget_remaining ensure_attempt_is_current_generation_tx
    ensure_batch_allows_automatic_delivery ensure_batch_allows_cli_delivery_for_authorization
    ensure_batch_allows_detached_cli_delivery ensure_batch_is_not_plugin_delivery_tx
    ensure_batch_is_thread_head_tx ensure_batch_open
    ensure_cli_attempt_has_current_managed_session_for_batch_tx
    ensure_cli_attempt_has_current_managed_session_tx
    ensure_cli_attempt_has_recorded_detached_delivery_proof
    ensure_cli_attempt_has_recorded_detached_delivery_proof_snapshot
    ensure_cli_session_activity_value ensure_cli_session_allows_delivery
    ensure_cli_session_attachable ensure_cli_session_epoch_matches
    ensure_cli_session_has_minimum_turn_start_capabilities
    ensure_cli_session_has_no_recovery_blockers_tx ensure_cli_session_identity_allows_delivery
    ensure_cli_session_ready_for ensure_cli_session_retire_eligible_tx
    ensure_cli_session_strict_safe ensure_existing_cli_accept_matches_request ensure_job_pending
    ensure_no_active_attempt_for_thread_tx ensure_nonempty_value ensure_positive_value ensure_value
    fail_job fail_job_row find_where first_by found guard has_budget has_manual_head head_batch
    i64_max in_flight insert_batch_tx insert_delivery_attempt is_accepted_turn is_observed_attempt
    is_open_batch is_pending_attempt keep lose_attempt lose_attempts lose_row manualize_batch
    manualize_rows max_generation max_of new_batch_row new_job_row new_session_row
    next_attempt_generation_tx note_cli_managed_session_activity
    note_cli_managed_session_capabilities park_cli_managed_session_tx park_session perform
    profile_matches query_batch_tx query_cli_managed_session_tx
    query_delivery_attempt_by_rpc_request_id_tx query_delivery_attempt_tx query_job_tx
    query_non_retired_cli_managed_session_by_thread_tx queue_batch reattach_cli_managed_session
    reattach_row replace_cli_managed_session reply retire_cli_managed_session_tx retire_row run
    select_where session_reply step submit_job_for_supervisor_generation update_job update_session
    update_where ◌>>=◌ ◌>>◌
accept_cli_succeeds = (refl, refl, refl)

pub delivered_rows :
    (query_batch_tx (store_of delivered_cli) 20 ≡ ok batch_delivered)
    × (query_delivery_attempt_tx (store_of delivered_cli) 40 ≡ ok attempt_delivered)
unfolding abandon_cli_observations_for_session_epoch_loss_tx abandon_cli_turn_observation_tx
    abandon_turn accept_cli_attempt accept_cli_pending accept_row accept_rows
    activity_revision_can_advance any_where apply_cli_event attach_or_create_cli_managed_session
    batch_is_thread_head_tx batch_open_in begin_cli_accept_pending_attempt begin_cli_again
    begin_cli_new can_complete_delayed_cli_turn_after_expiry can_record_late_cli_turn_evidence
    capability_revision_can_advance checked_add checked_timestamp_add clear_all_proofs clear_proof
    cli_attempt_row cli_session_capabilities_match cli_session_current_permission_snapshot_is_fresh
    cli_session_startup_permissions_are_pinned cli_turn_observation_is_after_deadline close_attempt
    close_batch close_batch_rows close_batch_tx complete_delayed_cli_turn_after_expiry_tx
    complete_delayed_turn complete_rows complete_turn count_delivery count_delivery_tx count_where
    create_cli_managed_session_tx deliver_batch ensure_attempt_accept_pending_for_adapter
    ensure_attempt_budget_remaining ensure_attempt_is_current_generation_tx
    ensure_attempt_tracking_turn_observation_for_adapter ensure_batch_allows_automatic_delivery
    ensure_batch_allows_cli_delivery_for_authorization ensure_batch_allows_detached_cli_delivery
    ensure_batch_is_not_plugin_delivery_tx ensure_batch_is_thread_head_tx ensure_batch_open
    ensure_cli_attempt_has_current_managed_session_for_batch_tx
    ensure_cli_attempt_has_current_managed_session_tx
    ensure_cli_attempt_has_recorded_detached_delivery_proof
    ensure_cli_attempt_has_recorded_detached_delivery_proof_snapshot
    ensure_cli_session_activity_value ensure_cli_session_allows_delivery
    ensure_cli_session_attachable ensure_cli_session_epoch_matches
    ensure_cli_session_has_minimum_turn_start_capabilities
    ensure_cli_session_has_no_recovery_blockers_tx ensure_cli_session_identity_allows_delivery
    ensure_cli_session_ready_for ensure_cli_session_retire_eligible_tx
    ensure_cli_session_strict_safe ensure_cli_turn_observation_matches_attempt
    ensure_existing_cli_accept_matches_request ensure_job_pending
    ensure_no_active_attempt_for_thread_tx ensure_nonempty_value ensure_positive_value ensure_value
    extend_closed_batch_artifact_retention_tx fail_job fail_job_row find_where first_by found guard
    has_budget has_manual_head head_batch i64_max in_flight insert_batch_tx insert_delivery_attempt
    invalidate_and_park invalidate_cli_managed_session_activity_tx invalidate_fences
    is_accepted_turn is_idempotent_terminal_cli_turn_observation is_job_of is_lost_attempt
    is_observed_attempt is_open_batch is_pending_attempt is_tracked_attempt is_unsettled_attempt
    keep lose_attempt lose_attempts lose_row manualize_batch
    manualize_cli_batch_after_observation_loss_tx manualize_rows max_generation max_of new_batch_row
    new_job_row new_session_row next_attempt_generation_tx next_epoch
    note_cli_managed_session_activity note_cli_managed_session_capabilities note_event note_event_tx
    observe_cli_loss observe_cli_tracked observe_cli_turn_event observe_completion
    observe_delayed_completion park_cli_managed_session_tx park_session perform profile_matches
    query_active_cli_attempt_session_fences_for_batch_tx query_batch_tx query_cli_managed_session_tx
    query_delivery_attempt_by_rpc_request_id_tx query_delivery_attempt_tx query_job_tx
    query_non_retired_cli_managed_session_by_thread_tx queue_batch reattach_cli_managed_session
    reattach_row record_late_cli_turn_evidence_tx replace_cli_managed_session reply
    retire_cli_managed_session_tx retire_row run select_where session_reply step
    submit_job_for_supervisor_generation update_job update_session update_where ◌>>=◌ ◌>>◌
delivered_rows = (refl, refl)

pub expired_rows :
    (query_batch_tx (store_of expired_cli) 20 ≡ ok batch_manual)
    × (query_cli_managed_session_tx (store_of expired_cli) 30 ≡ ok session_parked)
    × (query_delivery_attempt_tx (store_of expired_cli) 40
        ≡ ok (expire_row ObservationState.expired 2000 attempt_accepted))
unfolding abandon_cli_observations_for_session_epoch_loss_tx accept_cli_attempt accept_cli_pending
    accept_row accept_rows activity_revision_can_advance any_where
    attach_or_create_cli_managed_session batch_is_thread_head_tx batch_open_in
    begin_cli_accept_pending_attempt begin_cli_again begin_cli_new capability_revision_can_advance
    checked_add checked_timestamp_add clear_all_proofs clear_proof cli_attempt_row
    cli_session_capabilities_match cli_session_current_permission_snapshot_is_fresh
    cli_session_startup_permissions_are_pinned cli_turn_observation_is_after_deadline count_delivery
    count_delivery_tx count_where create_cli_managed_session_tx
    ensure_attempt_accept_pending_for_adapter ensure_attempt_budget_remaining
    ensure_attempt_is_current_generation_tx ensure_attempt_tracking_turn_observation_for_adapter
    ensure_batch_allows_automatic_delivery ensure_batch_allows_cli_delivery_for_authorization
    ensure_batch_allows_detached_cli_delivery ensure_batch_is_not_plugin_delivery_tx
    ensure_batch_is_thread_head_tx ensure_batch_open
    ensure_cli_attempt_has_current_managed_session_for_batch_tx
    ensure_cli_attempt_has_current_managed_session_tx
    ensure_cli_attempt_has_recorded_detached_delivery_proof
    ensure_cli_attempt_has_recorded_detached_delivery_proof_snapshot
    ensure_cli_session_activity_value ensure_cli_session_allows_delivery
    ensure_cli_session_attachable ensure_cli_session_epoch_matches
    ensure_cli_session_has_minimum_turn_start_capabilities
    ensure_cli_session_has_no_recovery_blockers_tx ensure_cli_session_identity_allows_delivery
    ensure_cli_session_ready_for ensure_cli_session_retire_eligible_tx
    ensure_cli_session_strict_safe ensure_existing_cli_accept_matches_request ensure_job_pending
    ensure_no_active_attempt_for_thread_tx ensure_nonempty_value ensure_positive_value ensure_value
    expire_cli_observation expire_cli_tracked expire_row expire_rows expired_state fail_job
    fail_job_row find_where first_by found guard has_budget has_manual_head head_batch i64_max
    in_flight insert_batch_tx insert_delivery_attempt invalidate_and_park
    invalidate_cli_managed_session_activity_tx is_accepted_turn is_observed_attempt is_open_batch
    is_pending_attempt is_tracked_attempt keep lose_attempt lose_attempts lose_row manualize_batch
    manualize_cli_batch_after_observation_loss_tx manualize_rows max_generation max_of new_batch_row
    new_job_row new_session_row next_attempt_generation_tx next_epoch
    note_cli_managed_session_activity note_cli_managed_session_capabilities
    park_cli_managed_session_tx park_session perform profile_matches query_batch_tx
    query_cli_managed_session_tx query_delivery_attempt_by_rpc_request_id_tx
    query_delivery_attempt_tx query_job_tx query_non_retired_cli_managed_session_by_thread_tx
    queue_batch reattach_cli_managed_session reattach_row replace_cli_managed_session reply
    retire_cli_managed_session_tx retire_row run select_where session_reply step
    submit_job_for_supervisor_generation update_job update_session update_where ◌>>=◌ ◌>>◌
expired_rows = (refl, refl, refl)
