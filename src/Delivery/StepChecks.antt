-- ===== src/Delivery/StepChecks.antt =====
-- Single calls on stores that are written out.
use codex_background_task_ha.Base.{
  ◌≡◌, refl, none, some, update_where, find_where, any_where, count_where, select_where, first_by,
  max_of, ok, ◌>>=◌, ◌>>◌, guard, found,
}
use codex_background_task_ha.Models.{TurnEvent, i64_max}
use codex_background_task_ha.Store.{
  query_job_tx, query_batch_tx, query_delivery_attempt_tx, query_cli_managed_session_tx, head_batch,
  batch_is_thread_head_tx, batch_open_in, max_generation, checked_add, checked_timestamp_add,
}
use codex_background_task_ha.Store.Fences.{
  clear_proof, clear_all_proofs, next_epoch, invalidate_cli_managed_session_activity_tx,
  park_session, park_cli_managed_session_tx,
}
use codex_background_task_ha.Store.Batches.{
  new_batch_row, insert_batch_tx, query_active_cli_attempt_session_fences_for_batch_tx,
  invalidate_fences, close_batch, close_attempt, is_open_batch, close_batch_rows, close_batch_tx,
  is_job_of, extend_closed_batch_artifact_retention_tx, manualize_batch, manualize_rows,
  invalidate_and_park, manualize_cli_batch_after_observation_loss_tx, count_delivery,
}
use codex_background_task_ha.Store.Guards.{
  ensure_job_pending, ensure_batch_open, ensure_batch_is_thread_head_tx,
  ensure_batch_allows_automatic_delivery, ensure_attempt_is_current_generation_tx,
  ensure_positive_value, ensure_nonempty_value, ensure_value, ensure_cli_session_activity_value,
  ensure_cli_session_epoch_matches, ensure_cli_session_attachable,
  cli_session_startup_permissions_are_pinned, cli_session_current_permission_snapshot_is_fresh,
  ensure_cli_session_has_minimum_turn_start_capabilities, ensure_cli_session_strict_safe,
  ensure_cli_session_identity_allows_delivery,
  ensure_cli_attempt_has_recorded_detached_delivery_proof_snapshot,
  ensure_cli_attempt_has_recorded_detached_delivery_proof,
  ensure_cli_attempt_has_current_managed_session_for_batch_tx,
  ensure_cli_turn_observation_matches_attempt, ensure_attempt_tracking_turn_observation_for_adapter,
  is_idempotent_terminal_cli_turn_observation, can_record_late_cli_turn_evidence,
  cli_turn_observation_is_after_deadline, can_complete_delayed_cli_turn_after_expiry,
}
use codex_background_task_ha.Store.Attempts.{reply, cli_attempt_row}
use codex_background_task_ha.Store.Outcomes.{is_tracked_attempt, accept_row}
use codex_background_task_ha.Store.Observe.{
  note_event, note_event_tx, abandon_turn, abandon_cli_turn_observation_tx, is_unsettled_attempt,
  record_late_cli_turn_evidence_tx, complete_turn, complete_delayed_turn, is_lost_attempt,
  deliver_batch, complete_delayed_cli_turn_after_expiry_tx, observe_delayed_completion,
  complete_rows, observe_completion, observe_cli_loss, apply_cli_event, observe_cli_tracked,
  observe_cli_turn_event,
}
use codex_background_task_ha.Store.Sessions.{
  session_reply, profile_matches, query_non_retired_cli_managed_session_by_thread_tx,
  has_manual_head, ensure_cli_session_has_no_recovery_blockers_tx,
  ensure_cli_session_retire_eligible_tx, new_session_row, create_cli_managed_session_tx, retire_row,
  retire_cli_managed_session_tx, is_observed_attempt, lose_row, lose_attempt, lose_attempts,
  abandon_cli_observations_for_session_epoch_loss_tx, reattach_row, reattach_cli_managed_session,
  replace_cli_managed_session, attach_or_create_cli_managed_session, retire_cli_managed_session,
}
use codex_background_task_ha.Store.Notes.{
  update_session, activity_revision_can_advance, note_cli_managed_session_activity,
  cli_session_capabilities_match, capability_revision_can_advance,
  note_cli_managed_session_capabilities, cli_session_proof_is_clear, invalidate_proof,
  invalidate_cli_managed_session_proof,
}
use codex_background_task_ha.Store.Jobs.{
  new_job_row, submit_job_for_supervisor_generation, fail_job_row, update_job, queue_batch,
  fail_job, close_head,
}
use codex_background_task_ha.Delivery.Calls.{keep, perform, step, run}
use codex_background_task_ha.Delivery.Samples.{
  detached_store, retired_store, session_detached, tracked_store, delivered_store, env, queued,
  store_of, closed_by_hand, batch_queued, session_lost, attempt_pending, attempt_accepted,
  attempt_delivered, begun_store, lost_store,
}

pub lose_proof_succeeds :
    (invalidate_cli_managed_session_proof begun_store 30 1 1020 ≡ ok (lost_store, session_lost))
    × (query_delivery_attempt_tx lost_store 40 ≡ ok attempt_pending)
unfolding abandon_cli_observations_for_session_epoch_loss_tx any_where batch_open_in checked_add
    checked_timestamp_add clear_all_proofs clear_proof cli_attempt_row cli_session_proof_is_clear
    ensure_cli_session_epoch_matches ensure_positive_value fail_job_row find_where found guard
    i64_max invalidate_cli_managed_session_activity_tx invalidate_cli_managed_session_proof
    invalidate_proof is_observed_attempt is_open_batch lose_attempt lose_attempts lose_row
    manualize_batch manualize_rows new_batch_row new_job_row new_session_row next_epoch
    park_cli_managed_session_tx park_session query_cli_managed_session_tx query_delivery_attempt_tx
    select_where session_reply update_where ◌>>=◌ ◌>>◌
lose_proof_succeeds = (refl, refl)

pub observe_cli_succeeds :
    (observe_cli_turn_event env.close_texts tracked_store 40 43 (some TurnEvent.turn_completed) 1500
      ≡ ok (delivered_store, attempt_delivered))
    × (query_delivery_attempt_tx tracked_store 40 ≡ ok attempt_accepted)
unfolding abandon_cli_turn_observation_tx abandon_turn accept_row any_where apply_cli_event
    batch_is_thread_head_tx can_complete_delayed_cli_turn_after_expiry
    can_record_late_cli_turn_evidence checked_add checked_timestamp_add clear_all_proofs clear_proof
    cli_attempt_row cli_session_current_permission_snapshot_is_fresh
    cli_session_startup_permissions_are_pinned cli_turn_observation_is_after_deadline close_attempt
    close_batch close_batch_rows close_batch_tx complete_delayed_cli_turn_after_expiry_tx
    complete_delayed_turn complete_rows complete_turn count_delivery count_where deliver_batch
    ensure_attempt_is_current_generation_tx ensure_attempt_tracking_turn_observation_for_adapter
    ensure_batch_allows_automatic_delivery ensure_batch_is_thread_head_tx ensure_batch_open
    ensure_cli_attempt_has_current_managed_session_for_batch_tx
    ensure_cli_attempt_has_recorded_detached_delivery_proof
    ensure_cli_attempt_has_recorded_detached_delivery_proof_snapshot
    ensure_cli_session_epoch_matches ensure_cli_session_has_minimum_turn_start_capabilities
    ensure_cli_session_identity_allows_delivery ensure_cli_session_strict_safe
    ensure_cli_turn_observation_matches_attempt ensure_nonempty_value ensure_value
    extend_closed_batch_artifact_retention_tx fail_job_row find_where first_by found guard
    head_batch i64_max invalidate_and_park invalidate_cli_managed_session_activity_tx
    invalidate_fences is_idempotent_terminal_cli_turn_observation is_job_of is_lost_attempt
    is_open_batch is_tracked_attempt is_unsettled_attempt manualize_batch
    manualize_cli_batch_after_observation_loss_tx manualize_rows max_generation max_of new_batch_row
    new_job_row new_session_row next_epoch note_event note_event_tx observe_cli_loss
    observe_cli_tracked observe_cli_turn_event observe_completion observe_delayed_completion
    park_cli_managed_session_tx park_session query_active_cli_attempt_session_fences_for_batch_tx
    query_batch_tx query_cli_managed_session_tx query_delivery_attempt_tx
    record_late_cli_turn_evidence_tx reply select_where update_where ◌>>=◌ ◌>>◌
observe_cli_succeeds = (refl, refl)

pub close_head_succeeds :
    close_head (store_of queued) 7 120 none 1500
    ≡ ok (store_of closed_by_hand, close_batch 120 none 1500 batch_queued)
unfolding abandon_cli_observations_for_session_epoch_loss_tx activity_revision_can_advance any_where
    attach_or_create_cli_managed_session batch_open_in capability_revision_can_advance checked_add
    checked_timestamp_add clear_all_proofs clear_proof cli_session_capabilities_match close_attempt
    close_batch close_batch_rows close_batch_tx close_head create_cli_managed_session_tx
    ensure_cli_session_activity_value ensure_cli_session_attachable ensure_cli_session_epoch_matches
    ensure_cli_session_has_no_recovery_blockers_tx ensure_cli_session_retire_eligible_tx
    ensure_job_pending ensure_positive_value ensure_value extend_closed_batch_artifact_retention_tx
    fail_job fail_job_row find_where first_by found guard has_manual_head head_batch i64_max
    insert_batch_tx invalidate_cli_managed_session_activity_tx invalidate_fences is_job_of
    is_observed_attempt is_open_batch keep lose_attempt lose_attempts lose_row manualize_batch
    manualize_rows new_batch_row new_job_row new_session_row next_epoch
    note_cli_managed_session_activity note_cli_managed_session_capabilities
    park_cli_managed_session_tx park_session perform profile_matches
    query_active_cli_attempt_session_fences_for_batch_tx query_batch_tx query_cli_managed_session_tx
    query_job_tx query_non_retired_cli_managed_session_by_thread_tx queue_batch
    reattach_cli_managed_session reattach_row replace_cli_managed_session
    retire_cli_managed_session_tx retire_row run select_where session_reply step
    submit_job_for_supervisor_generation update_job update_session update_where ◌>>=◌ ◌>>◌
close_head_succeeds = refl

pub retire_succeeds :
    retire_cli_managed_session 107 33 detached_store 30 121 1030
    ≡ ok (retired_store, retire_row 1030 session_detached)
unfolding any_where clear_all_proofs cli_attempt_row ensure_cli_session_has_no_recovery_blockers_tx
    ensure_cli_session_retire_eligible_tx ensure_nonempty_value fail_job_row find_where first_by
    found guard has_manual_head head_batch new_batch_row new_job_row new_session_row
    query_cli_managed_session_tx retire_cli_managed_session retire_cli_managed_session_tx retire_row
    select_where session_reply update_where ◌>>=◌ ◌>>◌
retire_succeeds = refl
