-- ===== src/Delivery/PluginExamples.antt =====
-- The theorems on plugin deliveries, on a new database.
use codex_background_task_ha.Base.{
  ◌≡◌, refl, true, false, none, some, List, [], ◌∷◌, arith, update_where, find_where, any_where,
  select_where, first_by, max_of, Error, Result, ok, err, is_ok, ◌>>=◌, ◌>>◌, guard, found,
}
use codex_background_task_ha.Models.{
  i64_max, BatchRecord, PluginDeliveryArtifactInput, NewPluginDelivery, PluginDeliveryEnqueueRecord,
  NewCodexAppServerAcceptPendingAttempt,
}
use codex_background_task_ha.Store.{
  Store, query_job_tx, query_batch_tx, query_delivery_attempt_tx,
  query_delivery_attempt_by_rpc_request_id_tx, head_batch, batch_is_thread_head_tx, batch_open_in,
  in_flight, max_generation, checked_add, checked_timestamp_add, next_attempt_generation_tx,
  insert_delivery_attempt,
}
use codex_background_task_ha.Base.{found, guard, ◌>>=◌, ◌>>◌}
use codex_background_task_ha.Base.{
  any_where, find_where, first_by, insert_by, max_of, order_by, select_where,
}
use codex_background_task_ha.FsLayout.{
  escapes, is_absolute, is_ascii_alphanumeric, is_id_byte, is_nonempty, is_parent_dir, pieces,
  relative_artifact_payload_path, same_text, validate_id_path_component,
}
use codex_background_task_ha.Models.{i64_max}
use codex_background_task_ha.Store.{
  batch_is_thread_head_tx, batch_open_in, checked_add, checked_timestamp_add, head_batch, in_flight,
  insert_delivery_attempt, max_generation, next_attempt_generation_tx, query_batch_tx,
  query_delivery_attempt_by_rpc_request_id_tx, query_delivery_attempt_tx, query_job_tx,
}
use codex_background_task_ha.Store.Attempts.{
  begin_codex_app_server_accept_pending_attempt_tx, begin_codex_new, codex_attempt_row, reply,
  validate_codex_app_server_accept_pending_attempt,
}
use codex_background_task_ha.Store.Batches.{insert_batch_tx, new_batch_row}
use codex_background_task_ha.Store.Guards.{
  ensure_attempt_budget_remaining, ensure_batch_allows_automatic_delivery,
  ensure_batch_is_thread_head_tx, ensure_batch_open, ensure_batch_redelivery_window_open,
  ensure_existing_codex_app_server_accept_matches_request, ensure_no_active_attempt_for_thread_tx,
  ensure_nonempty_value, ensure_positive_value,
}
use codex_background_task_ha.Store.Jobs.{new_job_row}
use codex_background_task_ha.Store.Plugin.{
  attempt_if_head, enqueue_plugin_delivery_tx,
  enqueue_plugin_delivery_with_codex_app_server_attempt_if_head, insert_plugin_artifact,
  insert_plugin_batch, insert_plugin_job, new_request, plugin_artifact_row,
  plugin_delivery_batch_created_at_tx, plugin_job_row, plugin_request_row,
}
use codex_background_task_ha.Store.Plugin.Queries.{
  join_jobs, known_request, query_batch_inspect_tx, query_batch_jobs_tx,
  query_plugin_delivery_request_tx,
}
use codex_background_task_ha.Store.Plugin.Validation.{
  validate_new_plugin_delivery, validate_plugin_artifact,
  validate_plugin_delivery_artifact_reference,
}
use codex_background_task_ha.Base.{found, guard, ◌>>=◌, ◌>>◌}
use codex_background_task_ha.Base.{
  any_where, find_where, first_by, insert_by, max_of, order_by, select_where, update_where,
}
use codex_background_task_ha.FsLayout.{
  escapes, is_absolute, is_ascii_alphanumeric, is_id_byte, is_nonempty, is_parent_dir, pieces,
  relative_artifact_payload_path, same_text, validate_id_path_component,
}
use codex_background_task_ha.Models.{i64_max}
use codex_background_task_ha.Store.{
  batch_is_thread_head_tx, batch_open_in, checked_add, checked_timestamp_add, head_batch, in_flight,
  insert_delivery_attempt, max_generation, next_attempt_generation_tx, query_batch_tx,
  query_delivery_attempt_by_rpc_request_id_tx, query_delivery_attempt_tx, query_job_tx,
}
use codex_background_task_ha.Store.Attempts.{
  begin_codex_app_server_accept_pending_attempt_tx, begin_codex_new, codex_attempt_row, reply,
  validate_codex_app_server_accept_pending_attempt,
}
use codex_background_task_ha.Store.Batches.{
  close_attempt, close_batch, close_batch_rows, close_batch_tx,
  extend_closed_batch_artifact_retention_tx, insert_batch_tx, invalidate_fences, is_job_of,
  is_open_batch, new_batch_row, query_active_cli_attempt_session_fences_for_batch_tx,
}
use codex_background_task_ha.Store.Fences.{
  clear_proof, invalidate_cli_managed_session_activity_tx, next_epoch,
}
use codex_background_task_ha.Store.Guards.{
  ensure_attempt_budget_remaining, ensure_batch_allows_automatic_delivery,
  ensure_batch_is_thread_head_tx, ensure_batch_open, ensure_batch_redelivery_window_open,
  ensure_existing_codex_app_server_accept_matches_request, ensure_no_active_attempt_for_thread_tx,
  ensure_nonempty_value, ensure_positive_value,
}
use codex_background_task_ha.Store.Jobs.{close_head, new_job_row}
use codex_background_task_ha.Store.Plugin.{
  attempt_if_head, enqueue_plugin_delivery_tx,
  enqueue_plugin_delivery_with_codex_app_server_attempt_if_head, insert_plugin_artifact,
  insert_plugin_batch, insert_plugin_job, new_request, plugin_artifact_row,
  plugin_delivery_batch_created_at_tx, plugin_job_row, plugin_request_row,
}
use codex_background_task_ha.Store.Plugin.Queries.{
  join_jobs, known_request, query_batch_inspect_tx, query_batch_jobs_tx,
  query_plugin_delivery_request_tx,
}
use codex_background_task_ha.Store.Plugin.Validation.{
  validate_new_plugin_delivery, validate_plugin_artifact,
  validate_plugin_delivery_artifact_reference,
}
use codex_background_task_ha.FsLayout.{codes}
use codex_background_task_ha.FsLayout.Laws.{payload_path_stays_inside}
use codex_background_task_ha.Store.Plugin.Accepted.{canonical_artifact_is_accepted}
use codex_background_task_ha.Delivery.Invariant.{Inv}
use codex_background_task_ha.Delivery.Calls.{Call, run, step, perform, keep, empty_store}
use codex_background_task_ha.Delivery.Histories.{run-Inv, empty-Inv}
use codex_background_task_ha.Delivery.Samples.{env, value_of}
use codex_background_task_ha.Delivery.Idempotency.{
  Enqueue, Passes, enqueue_is_idempotent, enqueue_refuses_other_request,
}
use codex_background_task_ha.Delivery.Queue.{Appended, enqueue-Appended}
use codex_background_task_ha.Delivery.Service.{Popped, close_head-Popped}

abbrev payload : PluginDeliveryArtifactInput
payload = record {
  artifact_id = 65;
  relative_path = 66;
  original_filename = none;
  size_bytes = 12;
  sha256 = 67;
  retention_until = 5000;
}

abbrev delivery : NewPluginDelivery
delivery = record {
  plugin_name = 70;
  plugin_instance_id = 71;
  idempotency_key = 72;
  request_fingerprint = 73;
  job_id = 74;
  batch_id = 75;
  source_thread_id = 8;
  summary = 76;
  metadata_json = 77;
  policy = record {
    delivery_read_only = true;
    delivery_requires_approval = false;
    delivery_requires_network = false;
    delivery_requires_write_access = false;
  };
  inline_payload_bytes = 4;
  artifact = some payload;
  max_delivery_attempts = 3;
  redelivery_window_seconds = 600;
  created_at = 1000;
}

-- The same key with another content.
abbrev other_delivery : NewPluginDelivery
other_delivery = record delivery { request_fingerprint = 78 }

abbrev attempt : NewCodexAppServerAcceptPendingAttempt
attempt = record {
  attempt_id = 80;
  batch_id = 75;
  managed_session_id = 81;
  session_epoch = 1;
  delivery_rpc_request_id = 82;
  delivery_rpc_correlation_marker = 83;
  delivery_rpc_started_at = 1001;
}

abbrev enqueue : Store → NewPluginDelivery → Result Enqueue
enqueue s d = enqueue_plugin_delivery_with_codex_app_server_attempt_if_head env.bytes s d attempt

first_succeeds : is_ok (enqueue empty_store delivery) ≡ true
unfolding any_where attempt_if_head batch_is_thread_head_tx batch_open_in
    begin_codex_app_server_accept_pending_attempt_tx begin_codex_new checked_add
    checked_timestamp_add codex_attempt_row enqueue_plugin_delivery_tx
    enqueue_plugin_delivery_with_codex_app_server_attempt_if_head ensure_attempt_budget_remaining
    ensure_batch_allows_automatic_delivery ensure_batch_is_thread_head_tx ensure_batch_open
    ensure_batch_redelivery_window_open ensure_existing_codex_app_server_accept_matches_request
    ensure_no_active_attempt_for_thread_tx ensure_nonempty_value ensure_positive_value escapes
    find_where first_by found guard head_batch i64_max in_flight insert_batch_tx insert_by
    insert_delivery_attempt insert_plugin_artifact insert_plugin_batch insert_plugin_job is_absolute
    is_ascii_alphanumeric is_id_byte is_nonempty is_parent_dir join_jobs known_request
    max_generation max_of new_batch_row new_job_row new_request next_attempt_generation_tx order_by
    pieces plugin_artifact_row plugin_delivery_batch_created_at_tx plugin_job_row plugin_request_row
    query_batch_inspect_tx query_batch_jobs_tx query_batch_tx
    query_delivery_attempt_by_rpc_request_id_tx query_delivery_attempt_tx query_job_tx
    query_plugin_delivery_request_tx relative_artifact_payload_path reply same_text select_where
    validate_codex_app_server_accept_pending_attempt validate_id_path_component
    validate_new_plugin_delivery validate_plugin_artifact
    validate_plugin_delivery_artifact_reference ◌>>=◌ ◌>>◌
first_succeeds = refl

abbrev first_reply : (p : Enqueue) × (enqueue empty_store delivery ≡ ok p)
first_reply = value_of (enqueue empty_store delivery) first_succeeds

-- The checks of both requests.
passes : Passes env.bytes delivery attempt
unfolding any_where ensure_nonempty_value ensure_positive_value escapes found guard is_absolute
    is_ascii_alphanumeric is_id_byte is_nonempty is_parent_dir pieces relative_artifact_payload_path
    same_text validate_codex_app_server_accept_pending_attempt validate_id_path_component
    validate_new_plugin_delivery validate_plugin_artifact
    validate_plugin_delivery_artifact_reference ◌>>=◌ ◌>>◌
passes = record { delivery = refl; request = refl; same_batch = refl }

other-Passes : Passes env.bytes other_delivery attempt
unfolding any_where ensure_nonempty_value ensure_positive_value escapes found guard is_absolute
    is_ascii_alphanumeric is_id_byte is_nonempty is_parent_dir pieces relative_artifact_payload_path
    same_text validate_codex_app_server_accept_pending_attempt validate_id_path_component
    validate_new_plugin_delivery validate_plugin_artifact
    validate_plugin_delivery_artifact_reference ◌>>=◌ ◌>>◌
other-Passes = record { delivery = refl; request = refl; same_batch = refl }

-- The thread is served by the operator in between.
abbrev meanwhile : List Call
meanwhile = Call.close_thread_head 8 120 none 1500 ∷ []

abbrev later_store : Store
later_store = run env first_reply.0.0 meanwhile

enqueue_is_idempotent_example :
    (r : PluginDeliveryEnqueueRecord) × (enqueue later_store delivery ≡ ok (later_store, (r, none)))
    × (r.created ≡ false)
    × (r.job.job_id ≡ first_reply.0.1.0.job.job_id)
    × (r.batch.batch.batch_id ≡ first_reply.0.1.0.batch.batch.batch_id)
enqueue_is_idempotent_example =
    enqueue_is_idempotent env empty_store empty-Inv delivery delivery attempt attempt first_reply.0
      first_reply.1 meanwhile (record { same_plugin = refl; same_key = refl; same_batch = refl })
      refl passes

enqueue_refuses_other_request_example :
    enqueue later_store other_delivery ≡ err Error.fingerprint_mismatch
enqueue_refuses_other_request_example =
    enqueue_refuses_other_request env empty_store empty-Inv delivery other_delivery attempt attempt
      first_reply.0 first_reply.1 meanwhile
      (record { same_plugin = refl; same_key = refl; same_batch = refl }) refl other-Passes

first_creates : first_reply.0.1.0.created ≡ true
unfolding any_where attempt_if_head batch_is_thread_head_tx batch_open_in
    begin_codex_app_server_accept_pending_attempt_tx begin_codex_new checked_add
    checked_timestamp_add codex_attempt_row enqueue_plugin_delivery_tx
    enqueue_plugin_delivery_with_codex_app_server_attempt_if_head ensure_attempt_budget_remaining
    ensure_batch_allows_automatic_delivery ensure_batch_is_thread_head_tx ensure_batch_open
    ensure_batch_redelivery_window_open ensure_existing_codex_app_server_accept_matches_request
    ensure_no_active_attempt_for_thread_tx ensure_nonempty_value ensure_positive_value escapes
    find_where first_by found guard head_batch i64_max in_flight insert_batch_tx insert_by
    insert_delivery_attempt insert_plugin_artifact insert_plugin_batch insert_plugin_job is_absolute
    is_ascii_alphanumeric is_id_byte is_nonempty is_parent_dir join_jobs known_request
    max_generation max_of new_batch_row new_job_row new_request next_attempt_generation_tx order_by
    pieces plugin_artifact_row plugin_delivery_batch_created_at_tx plugin_job_row plugin_request_row
    query_batch_inspect_tx query_batch_jobs_tx query_batch_tx
    query_delivery_attempt_by_rpc_request_id_tx query_delivery_attempt_tx query_job_tx
    query_plugin_delivery_request_tx relative_artifact_payload_path reply same_text select_where
    validate_codex_app_server_accept_pending_attempt validate_id_path_component
    validate_new_plugin_delivery validate_plugin_artifact
    validate_plugin_delivery_artifact_reference ◌>>=◌ ◌>>◌
first_creates = refl

enqueue-Appended_example : Appended empty_store first_reply.0.0 8 75
enqueue-Appended_example =
    enqueue-Appended env.bytes empty_store delivery attempt first_reply.0 first_reply.1
      first_creates

first_well_formed : Inv first_reply.0.0
unfolding any_where attempt_if_head batch_is_thread_head_tx batch_open_in
    begin_codex_app_server_accept_pending_attempt_tx begin_codex_new checked_add
    checked_timestamp_add codex_attempt_row enqueue_plugin_delivery_tx
    enqueue_plugin_delivery_with_codex_app_server_attempt_if_head ensure_attempt_budget_remaining
    ensure_batch_allows_automatic_delivery ensure_batch_is_thread_head_tx ensure_batch_open
    ensure_batch_redelivery_window_open ensure_existing_codex_app_server_accept_matches_request
    ensure_no_active_attempt_for_thread_tx ensure_nonempty_value ensure_positive_value escapes
    find_where first_by found guard head_batch i64_max in_flight insert_batch_tx insert_by
    insert_delivery_attempt insert_plugin_artifact insert_plugin_batch insert_plugin_job is_absolute
    is_ascii_alphanumeric is_id_byte is_nonempty is_parent_dir join_jobs keep known_request
    max_generation max_of new_batch_row new_job_row new_request next_attempt_generation_tx order_by
    perform pieces plugin_artifact_row plugin_delivery_batch_created_at_tx plugin_job_row
    plugin_request_row query_batch_inspect_tx query_batch_jobs_tx query_batch_tx
    query_delivery_attempt_by_rpc_request_id_tx query_delivery_attempt_tx query_job_tx
    query_plugin_delivery_request_tx relative_artifact_payload_path reply run same_text select_where
    step validate_codex_app_server_accept_pending_attempt validate_id_path_component
    validate_new_plugin_delivery validate_plugin_artifact
    validate_plugin_delivery_artifact_reference ◌>>=◌ ◌>>◌
first_well_formed = run-Inv env (Call.enqueue delivery attempt ∷ [])

close_succeeds : is_ok (close_head first_reply.0.0 8 120 none 1500) ≡ true
unfolding any_where attempt_if_head batch_is_thread_head_tx batch_open_in
    begin_codex_app_server_accept_pending_attempt_tx begin_codex_new checked_add
    checked_timestamp_add clear_proof close_attempt close_batch close_batch_rows close_batch_tx
    close_head codex_attempt_row enqueue_plugin_delivery_tx
    enqueue_plugin_delivery_with_codex_app_server_attempt_if_head ensure_attempt_budget_remaining
    ensure_batch_allows_automatic_delivery ensure_batch_is_thread_head_tx ensure_batch_open
    ensure_batch_redelivery_window_open ensure_existing_codex_app_server_accept_matches_request
    ensure_no_active_attempt_for_thread_tx ensure_nonempty_value ensure_positive_value escapes
    extend_closed_batch_artifact_retention_tx find_where first_by found guard head_batch i64_max
    in_flight insert_batch_tx insert_by insert_delivery_attempt insert_plugin_artifact
    insert_plugin_batch insert_plugin_job invalidate_cli_managed_session_activity_tx
    invalidate_fences is_absolute is_ascii_alphanumeric is_id_byte is_job_of is_nonempty
    is_open_batch is_parent_dir join_jobs known_request max_generation max_of new_batch_row
    new_job_row new_request next_attempt_generation_tx next_epoch order_by pieces
    plugin_artifact_row plugin_delivery_batch_created_at_tx plugin_job_row plugin_request_row
    query_active_cli_attempt_session_fences_for_batch_tx query_batch_inspect_tx query_batch_jobs_tx
    query_batch_tx query_delivery_attempt_by_rpc_request_id_tx query_delivery_attempt_tx
    query_job_tx query_plugin_delivery_request_tx relative_artifact_payload_path reply same_text
    select_where update_where validate_codex_app_server_accept_pending_attempt
    validate_id_path_component validate_new_plugin_delivery validate_plugin_artifact
    validate_plugin_delivery_artifact_reference ◌>>=◌ ◌>>◌
close_succeeds = refl

abbrev close_reply : (p : Store × BatchRecord) × (close_head first_reply.0.0 8 120 none 1500 ≡ ok p)
close_reply = value_of (close_head first_reply.0.0 8 120 none 1500) close_succeeds

close_head-Popped_example :
    (b : BatchRecord) × Popped first_reply.0.0 close_reply.0.0 8 b
    × (close_reply.0.1.batch_id ≡ b.batch_id)
close_head-Popped_example =
    close_head-Popped first_reply.0.0 8 120 none 1500 close_reply.0 first_well_formed close_reply.1

payload_path_stays_inside_example :
    (is_absolute (relative_artifact_payload_path (codes "a-1")) ≡ false)
    × (escapes (relative_artifact_payload_path (codes "a-1")) ≡ false)
unfolding validate_id_path_component is_nonempty is_id_byte is_ascii_alphanumeric any_where
payload_path_stays_inside_example = payload_path_stays_inside (codes "a-1") refl

canonical_artifact_is_accepted_example : validate_plugin_artifact env.bytes delivery ≡ ok tt
unfolding any_where ensure_nonempty_value ensure_positive_value escapes found guard is_absolute
    is_ascii_alphanumeric is_id_byte is_nonempty is_parent_dir pieces relative_artifact_payload_path
    same_text validate_id_path_component validate_plugin_artifact
    validate_plugin_delivery_artifact_reference ◌>>=◌ ◌>>◌
canonical_artifact_is_accepted_example =
    canonical_artifact_is_accepted env.bytes delivery payload refl refl (omega arith) refl
      (omega arith)
