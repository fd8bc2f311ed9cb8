-- ===== src/Delivery/CodexChecks.antt =====
-- The small history with the app server.
use codex_background_task_ha.Base.{
  ◌≡◌, refl, none, some, update_where, find_where, any_where, count_where, select_where, first_by,
  max_of, ok, ◌>>=◌, ◌>>◌, guard, found,
}
use codex_background_task_ha.Models.{TurnEvent, i64_max}
use codex_background_task_ha.Store.{
  query_job_tx, query_batch_tx, query_delivery_attempt_tx,
  query_delivery_attempt_by_rpc_request_id_tx, query_cli_managed_session_tx, head_batch,
  batch_is_thread_head_tx, batch_open_in, in_flight, max_generation, checked_add,
  checked_timestamp_add, next_attempt_generation_tx, insert_delivery_attempt,
}
use codex_background_task_ha.Store.Fences.{
  clear_proof, clear_all_proofs, next_epoch, invalidate_cli_managed_session_activity_tx,
  park_session, park_cli_managed_session_tx,
}
use codex_background_task_ha.Store.Batches.{
  new_batch_row, insert_batch_tx, query_active_cli_attempt_session_fences_for_batch_tx,
  invalidate_fences, close_batch, close_attempt, is_open_batch, close_batch_rows, close_batch_tx,
  is_job_of, extend_closed_batch_artifact_retention_tx, manualize_batch, manualize_rows,
  manualize_codex_app_server_batch_tx, count_delivery, has_budget, count_delivery_tx,
}
use codex_background_task_ha.Store.Guards.{
  ensure_job_pending, ensure_batch_open, ensure_batch_is_thread_head_tx,
  ensure_batch_allows_automatic_delivery, ensure_attempt_budget_remaining,
  ensure_batch_redelivery_window_open, ensure_no_active_attempt_for_thread_tx,
  ensure_attempt_is_current_generation_tx, ensure_positive_value, ensure_nonempty_value,
  ensure_value, ensure_cli_session_activity_value, ensure_cli_session_epoch_matches,
  ensure_cli_session_attachable, ensure_existing_codex_app_server_accept_matches_request,
  ensure_attempt_accept_pending_for_adapter, ensure_cli_turn_observation_matches_attempt,
  ensure_attempt_tracking_turn_observation_for_adapter, is_idempotent_terminal_cli_turn_observation,
  can_record_late_cli_turn_evidence, cli_turn_observation_is_after_deadline,
}
use codex_background_task_ha.Store.Attempts.{
  reply, codex_attempt_row, begin_codex_new,
  begin_codex_app_server_accept_pending_attempt_with_created,
}
use codex_background_task_ha.Store.Outcomes.{
  is_pending_attempt, is_tracked_attempt, accept_row, accept_rows, is_accepted_turn,
  accept_codex_pending, accept_codex_app_server_attempt,
}
use codex_background_task_ha.Store.Observe.{
  note_event, note_event_tx, abandon_turn, abandon_cli_turn_observation_tx, is_unsettled_attempt,
  record_late_cli_turn_evidence_tx, complete_turn, deliver_batch, complete_rows, observe_completion,
  observe_codex_loss, apply_codex_event, observe_codex_tracked, observe_codex_app_server_turn_event,
}
use codex_background_task_ha.Store.Sessions.{
  session_reply, profile_matches, query_non_retired_cli_managed_session_by_thread_tx,
  has_manual_head, ensure_cli_session_has_no_recovery_blockers_tx,
  ensure_cli_session_retire_eligible_tx, new_session_row, create_cli_managed_session_tx, retire_row,
  retire_cli_managed_session_tx, is_observed_attempt, lose_row, lose_attempt, lose_attempts,
  abandon_cli_observations_for_session_epoch_loss_tx, reattach_row, reattach_cli_managed_session,
  replace_cli_managed_session, attach_or_create_cli_managed_session,
}
use codex_background_task_ha.Store.Notes.{
  update_session, activity_revision_can_advance, note_cli_managed_session_activity,
  cli_session_capabilities_match, capability_revision_can_advance,
  note_cli_managed_session_capabilities,
}
use codex_background_task_ha.Store.Jobs.{
  new_job_row, submit_job_for_supervisor_generation, fail_job_row, update_job, queue_batch,
  fail_job,
}
use codex_background_task_ha.FsLayout.{validate_id_path_component}
use codex_background_task_ha.Store.Plugin.Validation.{is_path_component}
use codex_background_task_ha.Delivery.Calls.{keep, perform, step, run}
use codex_background_task_ha.Delivery.Samples.{
  env, codex_request, queued, store_of, begun_codex, accepted_by_codex, codex_pending,
  codex_accepted,
}
use codex_background_task_ha.Base.{found, guard, ◌>>=◌, ◌>>◌}
use codex_background_task_ha.Base.{
  any_where, find_where, first_by, max_of, select_where, update_where,
}
use codex_background_task_ha.Models.{i64_max}
use codex_background_task_ha.Store.{
  batch_is_thread_head_tx, checked_add, checked_timestamp_add, head_batch, max_generation,
  query_batch_tx, query_delivery_attempt_tx,
}
use codex_background_task_ha.Store.Attempts.{codex_attempt_row, reply}
use codex_background_task_ha.Store.Batches.{
  close_attempt, close_batch, close_batch_rows, close_batch_tx, count_delivery,
  extend_closed_batch_artifact_retention_tx, invalidate_fences, is_job_of, is_open_batch,
  manualize_batch, manualize_codex_app_server_batch_tx, manualize_rows, new_batch_row,
  query_active_cli_attempt_session_fences_for_batch_tx,
}
use codex_background_task_ha.Store.Fences.{
  clear_proof, invalidate_cli_managed_session_activity_tx, next_epoch,
}
use codex_background_task_ha.Store.Guards.{
  can_record_late_cli_turn_evidence, cli_turn_observation_is_after_deadline,
  ensure_attempt_is_current_generation_tx, ensure_attempt_tracking_turn_observation_for_adapter,
  ensure_batch_allows_automatic_delivery, ensure_batch_is_thread_head_tx, ensure_batch_open,
  ensure_cli_turn_observation_matches_attempt, ensure_nonempty_value, ensure_value,
  is_idempotent_terminal_cli_turn_observation,
}
use codex_background_task_ha.Store.Jobs.{fail_job_row, new_job_row}
use codex_background_task_ha.Store.Observe.{
  abandon_cli_turn_observation_tx, abandon_turn, apply_codex_event, complete_rows, complete_turn,
  deliver_batch, is_unsettled_attempt, note_event, note_event_tx,
  observe_codex_app_server_turn_event, observe_codex_loss, observe_codex_tracked,
  observe_completion, record_late_cli_turn_evidence_tx,
}
use codex_background_task_ha.Store.Outcomes.{accept_row, is_tracked_attempt}
use codex_background_task_ha.Store.Sessions.{new_session_row}
use codex_background_task_ha.Base.{is_ok, true}
use codex_background_task_ha.Delivery.Samples.{codex_tracked_store}

pub begin_codex_succeeds :
    (begin_codex_app_server_accept_pending_attempt_with_created
        (is_path_component env.bytes)
        (store_of queued)
        codex_request
      ≡ ok (store_of begun_codex, (codex_pending, true)))
    × (query_delivery_attempt_by_rpc_request_id_tx (store_of queued) 51 ≡ none)
    × (accept_codex_app_server_attempt (store_of begun_codex) 50 53 1012 2001
        ≡ ok (store_of accepted_by_codex, codex_accepted))
unfolding abandon_cli_observations_for_session_epoch_loss_tx accept_codex_app_server_attempt
    accept_codex_pending accept_row accept_rows activity_revision_can_advance any_where
    attach_or_create_cli_managed_session batch_is_thread_head_tx batch_open_in
    begin_codex_app_server_accept_pending_attempt_with_created begin_codex_new
    capability_revision_can_advance checked_add checked_timestamp_add clear_all_proofs
    cli_session_capabilities_match codex_attempt_row count_delivery count_delivery_tx count_where
    create_cli_managed_session_tx ensure_attempt_accept_pending_for_adapter
    ensure_attempt_budget_remaining ensure_attempt_is_current_generation_tx
    ensure_batch_allows_automatic_delivery ensure_batch_is_thread_head_tx ensure_batch_open
    ensure_batch_redelivery_window_open ensure_cli_session_activity_value
    ensure_cli_session_attachable ensure_cli_session_epoch_matches
    ensure_cli_session_has_no_recovery_blockers_tx ensure_cli_session_retire_eligible_tx
    ensure_existing_codex_app_server_accept_matches_request ensure_job_pending
    ensure_no_active_attempt_for_thread_tx ensure_nonempty_value ensure_positive_value ensure_value
    fail_job fail_job_row find_where first_by found guard has_budget has_manual_head head_batch
    i64_max in_flight insert_batch_tx insert_delivery_attempt is_accepted_turn is_observed_attempt
    is_open_batch is_pending_attempt keep lose_attempt lose_attempts lose_row manualize_batch
    manualize_rows max_generation max_of new_batch_row new_job_row new_session_row
    next_attempt_generation_tx note_cli_managed_session_activity
    note_cli_managed_session_capabilities park_cli_managed_session_tx park_session perform
    profile_matches query_batch_tx query_cli_managed_session_tx
    query_delivery_attempt_by_rpc_request_id_tx query_delivery_attempt_tx query_job_tx
    query_non_retired_cli_managed_session_by_thread_tx queue_batch reattach_cli_managed_session
    reattach_row replace_cli_managed_session reply retire_cli_managed_session_tx retire_row run
    select_where session_reply step submit_job_for_supervisor_generation update_job update_session
    update_where validate_id_path_component ◌>>=◌ ◌>>◌
begin_codex_succeeds = (refl, refl, refl)

pub observe_codex_succeeds :
    (is_ok (
        observe_codex_app_server_turn_event env.close_texts codex_tracked_store 50 53
          (some TurnEvent.turn_failed)
          1500)
      ≡ true)
    × (query_delivery_attempt_tx codex_tracked_store 50 ≡ ok codex_accepted)
unfolding abandon_cli_turn_observation_tx abandon_turn accept_row any_where apply_codex_event
    batch_is_thread_head_tx can_record_late_cli_turn_evidence checked_add checked_timestamp_add
    clear_proof cli_turn_observation_is_after_deadline close_attempt close_batch close_batch_rows
    close_batch_tx codex_attempt_row complete_rows complete_turn count_delivery deliver_batch
    ensure_attempt_is_current_generation_tx ensure_attempt_tracking_turn_observation_for_adapter
    ensure_batch_allows_automatic_delivery ensure_batch_is_thread_head_tx ensure_batch_open
    ensure_cli_turn_observation_matches_attempt ensure_nonempty_value ensure_value
    extend_closed_batch_artifact_retention_tx fail_job_row find_where first_by found guard
    head_batch i64_max invalidate_cli_managed_session_activity_tx invalidate_fences
    is_idempotent_terminal_cli_turn_observation is_job_of is_open_batch is_tracked_attempt
    is_unsettled_attempt manualize_batch manualize_codex_app_server_batch_tx manualize_rows
    max_generation max_of new_batch_row new_job_row new_session_row next_epoch note_event
    note_event_tx observe_codex_app_server_turn_event observe_codex_loss observe_codex_tracked
    observe_completion query_active_cli_attempt_session_fences_for_batch_tx query_batch_tx
    query_delivery_attempt_tx record_late_cli_turn_evidence_tx reply select_where update_where ◌>>=◌
    ◌>>◌
observe_codex_succeeds = (refl, refl)
