-- ===== src/Tasks/Examples.antt =====
-- The theorems on supervised tasks, on a task that starts and loses its supervisor.
use codex_background_task_ha.Base.{
  ℕ, ◌+◌, ◌≡◌, refl, Bool, true, false, Option, none, some, List, [], ◌∷◌, ◌++◌, arith, ◌==◌,
  if◌then◌else◌, column_eq, is_none, eq_of_==, All, update_where, find_where, any_where,
  count_where, select_where, Error, ok, err, ◌>>=◌, ◌>>◌, guard, found,
}
use codex_background_task_ha.Models.{
  TaskEnd, i64_max, is_pending, TaskRecord, BatchRecord, NewTask, TaskFinishUpdate,
}
use codex_background_task_ha.Store.{
  query_job_tx, query_batch_tx, checked_add, checked_timestamp_add,
}
use codex_background_task_ha.Base.{found, guard, ◌>>=◌, ◌>>◌}
use codex_background_task_ha.Base.{
  any_where, count_where, find_where, insert_by, order_by, select_where, update_where,
}
use codex_background_task_ha.FsLayout.{same_text}
use codex_background_task_ha.Models.{i64_max}
use codex_background_task_ha.Store.{
  checked_add, checked_timestamp_add, query_batch_tx, query_job_tx,
}
use codex_background_task_ha.Store.Batches.{insert_batch_tx, new_batch_row}
use codex_background_task_ha.Store.Guards.{ensure_job_pending}
use codex_background_task_ha.Store.Jobs.{
  fail_job, fail_job_row, new_job_row, queue_batch, update_job,
}
use codex_background_task_ha.Tasks.{query_task_tx}
use codex_background_task_ha.Tasks.Calls.{
  cancel_row, clamp_redelivery_window_seconds_for_timestamp,
  create_task_with_job_for_supervisor_generation, delete_unstarted_task_with_job,
  ensure_task_not_terminal, fail_pending_job, fail_supervised_task_with_job, finish_row,
  finish_task, insert_task, insert_task_job, mark_task_started, new_task_row, request_task_cancel,
  settle_update, start_row, task_reply, task_status_for_supervised_job_terminal, update_task,
}
use codex_background_task_ha.Tasks.Histories.{supervise, supervise_all}
use codex_background_task_ha.Tasks.Reasons.{
  before_first, end_of_summary, end_of_text, strip_prefix, task_status_from_failure_reason,
}
use codex_background_task_ha.Tasks.Recovery.{
  fail_lost_job, fail_lost_tasks_matching_excluding_with, finish_lost_task, is_chosen, join_job,
  lost_row, lost_tasks, lost_update, recover_task, recover_tasks,
}
use codex_background_task_ha.FsLayout.{codes}
use codex_background_task_ha.Delivery.Samples.{env, job}
use codex_background_task_ha.Tasks.{Supervision, query_task_tx}
use codex_background_task_ha.Tasks.Reasons.{
  build_task_delivery_summary, task_status_from_failure_reason, reason-summary,
}
use codex_background_task_ha.Tasks.Recovery.{
  RecoveryEnv, lost_tasks, fail_lost_tasks_matching_excluding_with,
}
use codex_background_task_ha.Tasks.Histories.{TaskCall, supervise_all, no_tasks}
use codex_background_task_ha.Tasks.Invariant.{TaskInv}
use codex_background_task_ha.Tasks.Preserve.{run-TaskInv}
use codex_background_task_ha.Tasks.Ready.{wanted_lost, Waiting}
use codex_background_task_ha.Tasks.Liveness.{recovery_ends_lost_tasks}
use codex_background_task_ha.Tasks.Recovery.{LostTaskRecovery}
use codex_background_task_ha.Base.{Result}
use codex_background_task_ha.Base.{min}
use codex_background_task_ha.Tasks.Endings.{clamped_window_never_overflows}
use codex_background_task_ha.Tasks.Failing.{failed_test_stops_recovery}
use codex_background_task_ha.Tasks.Settling.{repeated_failure_changes_nothing}
use codex_background_task_ha.Tasks.Failure.{
  JobFailed, TaskFailed, BatchQueued, failure_ends_job_and_task,
}
use codex_background_task_ha.Models.{NewJob}
use codex_background_task_ha.Tasks.Undo.{delete_undoes_create}

-- The identifier of a batch is that of its job, moved out of the way.
abbrev recovery_env : RecoveryEnv
recovery_env = record {
  bytes = λ k. if k == 90 then codes "Background task timed_out." else codes "n";
  task_cancelled = 91;
  task_supervisor_lost = 92;
  job_failed_before_restart = 93;
  stdout_log_path = λ k. 1000 + k;
  stderr_log_path = λ k. 2000 + k;
  new_id = λ k. 100 + k;
}

abbrev task : NewTask
task = record {
  task_id = 5;
  job_id = 1;
  source_thread_id = 7;
  summary = 108;
  command_json = 94;
  cwd = 95;
  timeout_seconds = none;
  max_delivery_attempts = 2;
  redelivery_window_seconds = 600;
  created_at = 1000;
}

abbrev started : List TaskCall
started = TaskCall.create job task (some 3) ∷ TaskCall.start 5 4242 none 1001 ∷ []

abbrev running : Supervision
running = supervise_all env recovery_env no_tasks started

abbrev failing_update : TaskFinishUpdate
failing_update = record {
  task_id = 5;
  status = TaskEnd.failed;
  completed_at = 1010;
  exit_code = some 1;
  signal = none;
  failure_reason = some 90;
  stdout_log_path = none;
  stderr_log_path = none;
  stdout_bytes = 0;
  stderr_bytes = 0;
  stdout_truncated = false;
  stderr_truncated = false;
}

abbrev finished : List TaskCall
finished = started ++ TaskCall.fail_supervised 20 1 90 failing_update 2 600 ∷ []

abbrev over : Supervision
over = supervise_all env recovery_env no_tasks finished

abbrev asked : Option ℕ → Bool
asked generation = column_eq generation 3

abbrev nobody : ℕ → Bool
nobody _ = false

run-TaskInv_example : TaskInv over
run-TaskInv_example = run-TaskInv env recovery_env finished

reason-summary_example :
    task_status_from_failure_reason (build_task_delivery_summary TaskEnd.timed_out (codes "late"))
    ≡ some TaskEnd.timed_out
reason-summary_example = reason-summary TaskEnd.timed_out (codes "late")

same_id : (i j : ℕ) → (100 + i == 100 + j) ≡ true → i ≡ j
same_id i j h = let k = eq_of_== (100 + i) (100 + j) h in omega arith

recovery_ends_lost_tasks_example :
    let o =
      fail_lost_tasks_matching_excluding_with recovery_env asked
        (λ k. ok (nobody k))
        1020
        running in
    (o.1 ≡ ok (count_where (wanted_lost asked nobody) (lost_tasks running)))
    × All (λ t. ¬ Waiting asked nobody t) o.0.tasks
unfolding any_where before_first cancel_row checked_add checked_timestamp_add
    clamp_redelivery_window_seconds_for_timestamp create_task_with_job_for_supervisor_generation
    end_of_summary end_of_text ensure_job_pending ensure_task_not_terminal fail_job fail_job_row
    fail_lost_job fail_lost_tasks_matching_excluding_with fail_pending_job
    fail_supervised_task_with_job find_where finish_lost_task finish_row finish_task found guard
    i64_max insert_batch_tx insert_by insert_task insert_task_job is_chosen join_job lost_row
    lost_tasks lost_update mark_task_started new_batch_row new_job_row new_task_row order_by
    query_batch_tx query_job_tx query_task_tx queue_batch recover_task recover_tasks
    request_task_cancel same_text select_where settle_update start_row strip_prefix supervise
    supervise_all task_reply task_status_for_supervised_job_terminal task_status_from_failure_reason
    update_job update_task update_where ◌>>=◌ ◌>>◌
recovery_ends_lost_tasks_example =
    recovery_ends_lost_tasks recovery_env asked nobody 1020 running
      (run-TaskInv env recovery_env started) (omega arith) same_id (λ k. refl)

-- One task is lost here.
one_lost : count_where (wanted_lost asked nobody) (lost_tasks running) ≡ 1
unfolding count_where any_where before_first cancel_row checked_add checked_timestamp_add
    clamp_redelivery_window_seconds_for_timestamp create_task_with_job_for_supervisor_generation
    end_of_summary end_of_text ensure_job_pending ensure_task_not_terminal fail_job fail_job_row
    fail_lost_job fail_lost_tasks_matching_excluding_with fail_pending_job
    fail_supervised_task_with_job find_where finish_lost_task finish_row finish_task found guard
    i64_max insert_batch_tx insert_by insert_task insert_task_job is_chosen join_job lost_row
    lost_tasks lost_update mark_task_started new_batch_row new_job_row new_task_row order_by
    query_batch_tx query_job_tx query_task_tx queue_batch recover_task recover_tasks
    request_task_cancel same_text select_where settle_update start_row strip_prefix supervise
    supervise_all task_reply task_status_for_supervised_job_terminal task_status_from_failure_reason
    update_job update_task update_where ◌>>=◌ ◌>>◌
one_lost = refl

-- Two tasks are lost, and the test of activity fails for the second.
abbrev second_job : NewJob
second_job = record job { job_id = 2 }

abbrev second_task : NewTask
second_task = record task { task_id = 6; job_id = 2 }

abbrev both_running : Supervision
both_running =
    supervise_all env recovery_env no_tasks
      (started ++ TaskCall.create second_job second_task (some 3) ∷ [])

abbrev first_lost : LostTaskRecovery
first_lost =
    lost_row (start_row 4242 none 1001 (new_task_row task (some 3))) (new_job_row job (some 3))

abbrev second_lost : LostTaskRecovery
second_lost = lost_row (new_task_row second_task (some 3)) (new_job_row second_job (some 3))

abbrev test_of_first : ℕ → Result Bool
test_of_first k = if k == 6 then err Error.unsupported_value else ok false

abbrev first_recovered : Supervision
first_recovered =
    (recover_tasks recovery_env asked test_of_first 1020 (first_lost ∷ []) 0 both_running).0

two_lost : lost_tasks both_running ≡ first_lost ∷ second_lost ∷ []
unfolding count_where any_where before_first cancel_row checked_add checked_timestamp_add
    clamp_redelivery_window_seconds_for_timestamp create_task_with_job_for_supervisor_generation
    end_of_summary end_of_text ensure_job_pending ensure_task_not_terminal fail_job fail_job_row
    fail_lost_job fail_lost_tasks_matching_excluding_with fail_pending_job
    fail_supervised_task_with_job find_where finish_lost_task finish_row finish_task found guard
    i64_max insert_batch_tx insert_by insert_task insert_task_job is_chosen join_job lost_row
    lost_tasks lost_update mark_task_started new_batch_row new_job_row new_task_row order_by
    query_batch_tx query_job_tx query_task_tx queue_batch recover_task recover_tasks
    request_task_cancel same_text select_where settle_update start_row strip_prefix supervise
    supervise_all task_reply task_status_for_supervised_job_terminal task_status_from_failure_reason
    update_job update_task update_where ◌>>=◌ ◌>>◌
two_lost = refl

first_succeeds :
    recover_tasks recovery_env asked test_of_first 1020 (first_lost ∷ []) 0 both_running
    ≡ (first_recovered, ok 1)
unfolding count_where any_where before_first cancel_row checked_add checked_timestamp_add
    clamp_redelivery_window_seconds_for_timestamp create_task_with_job_for_supervisor_generation
    end_of_summary end_of_text ensure_job_pending ensure_task_not_terminal fail_job fail_job_row
    fail_lost_job fail_lost_tasks_matching_excluding_with fail_pending_job
    fail_supervised_task_with_job find_where finish_lost_task finish_row finish_task found guard
    i64_max insert_batch_tx insert_by insert_task insert_task_job is_chosen join_job lost_row
    lost_tasks lost_update mark_task_started new_batch_row new_job_row new_task_row order_by
    query_batch_tx query_job_tx query_task_tx queue_batch recover_task recover_tasks
    request_task_cancel same_text select_where settle_update start_row strip_prefix supervise
    supervise_all task_reply task_status_for_supervised_job_terminal task_status_from_failure_reason
    update_job update_task update_where ◌>>=◌ ◌>>◌
first_succeeds = refl

failed_test_stops_recovery_example :
    (fail_lost_tasks_matching_excluding_with recovery_env asked test_of_first 1020 both_running
      ≡ (first_recovered, err Error.unsupported_value))
    × (query_task_tx first_recovered 6 ≡ query_task_tx both_running 6)
unfolding lost_row new_task_row start_row any_where
failed_test_stops_recovery_example =
    failed_test_stops_recovery recovery_env asked test_of_first 1020 both_running first_recovered
      (first_lost ∷ []) [] second_lost 1 6 Error.unsupported_value two_lost first_succeeds refl refl
      refl

-- The row that the failure leaves.
abbrev ended_task : TaskRecord
ended_task =
    finish_row
      (settle_update recovery_env.bytes (fail_job_row 90 1010 (new_job_row job (some 3)))
        failing_update)
      (start_row 4242 none 1001 (new_task_row task (some 3)))

running_rows :
    (query_job_tx running.store 1 ≡ ok (new_job_row job (some 3)))
    × (query_task_tx running 5 ≡ ok (start_row 4242 none 1001 (new_task_row task (some 3))))
    × (is_pending (new_job_row job (some 3)).status ≡ true)
    × (is_none (start_row 4242 none 1001 (new_task_row task (some 3))).completed_at ≡ true)
    × (any_where (λ (b : BatchRecord). b.batch_id == 20) running.store.batches ≡ false)
unfolding any_where before_first cancel_row checked_add checked_timestamp_add
    clamp_redelivery_window_seconds_for_timestamp create_task_with_job_for_supervisor_generation
    end_of_summary end_of_text ensure_job_pending ensure_task_not_terminal fail_job fail_job_row
    fail_lost_job fail_lost_tasks_matching_excluding_with fail_pending_job
    fail_supervised_task_with_job find_where finish_lost_task finish_row finish_task found guard
    i64_max insert_batch_tx insert_by insert_task insert_task_job is_chosen join_job lost_row
    lost_tasks lost_update mark_task_started new_batch_row new_job_row new_task_row order_by
    query_batch_tx query_job_tx query_task_tx queue_batch recover_task recover_tasks
    request_task_cancel same_text select_where settle_update start_row strip_prefix supervise
    supervise_all task_reply task_status_for_supervised_job_terminal task_status_from_failure_reason
    update_job update_task update_where ◌>>=◌ ◌>>◌
running_rows = (refl, refl, refl, refl, refl)

failure_ends_job_and_task_example :
    (s' : Supervision) × (fail_supervised_task_with_job recovery_env.bytes 20 running 1 90
        failing_update 2 600
      ≡ ok s')
    × JobFailed recovery_env.bytes failing_update 90 s' 1 (new_job_row job (some 3))
    × TaskFailed recovery_env.bytes failing_update 90 s'
    × BatchQueued recovery_env.bytes failing_update 90 running s'
        (new_job_row job (some 3))
        20
        1
        2
        600
unfolding i64_max task_status_from_failure_reason same_text strip_prefix before_first end_of_text
    end_of_summary
failure_ends_job_and_task_example =
    failure_ends_job_and_task recovery_env.bytes 20 running 1 90 failing_update 2 600
      (new_job_row job (some 3)) (start_row 4242 none 1001 (new_task_row task (some 3)))
      running_rows.0 running_rows.2 running_rows.1 running_rows.3 (omega arith) running_rows.4 refl

failed_once :
    fail_supervised_task_with_job recovery_env.bytes 20 running 1 90 failing_update 2 600 ≡ ok over
unfolding any_where before_first cancel_row checked_add checked_timestamp_add
    clamp_redelivery_window_seconds_for_timestamp create_task_with_job_for_supervisor_generation
    end_of_summary end_of_text ensure_job_pending ensure_task_not_terminal fail_job fail_job_row
    fail_lost_job fail_lost_tasks_matching_excluding_with fail_pending_job
    fail_supervised_task_with_job find_where finish_lost_task finish_row finish_task found guard
    i64_max insert_batch_tx insert_by insert_task insert_task_job is_chosen join_job lost_row
    lost_tasks lost_update mark_task_started new_batch_row new_job_row new_task_row order_by
    query_batch_tx query_job_tx query_task_tx queue_batch recover_task recover_tasks
    request_task_cancel same_text select_where settle_update start_row strip_prefix supervise
    supervise_all task_reply task_status_for_supervised_job_terminal task_status_from_failure_reason
    update_job update_task update_where ◌>>=◌ ◌>>◌
failed_once = refl

repeated_failure_changes_nothing_example :
    fail_supervised_task_with_job recovery_env.bytes 21 over 1 96 failing_update 9 5 ≡ ok over
repeated_failure_changes_nothing_example =
    repeated_failure_changes_nothing recovery_env.bytes running over 1 20 90 2 600 failing_update 21
      96 9 5 failing_update failed_once refl

abbrev created : Supervision
created = supervise_all env recovery_env no_tasks (TaskCall.create job task (some 3) ∷ [])

created_once :
    create_task_with_job_for_supervisor_generation no_tasks job task (some 3)
    ≡ ok (created, (new_job_row job (some 3), new_task_row task (some 3)))
unfolding any_where create_task_with_job_for_supervisor_generation find_where found guard
    insert_task insert_task_job new_job_row new_task_row query_job_tx query_task_tx supervise
    supervise_all ◌>>=◌ ◌>>◌
created_once = refl

delete_undoes_create_example : delete_unstarted_task_with_job created 5 1 ≡ ok no_tasks
unfolding any_where
delete_undoes_create_example =
    delete_undoes_create no_tasks created job task (some 3)
      (new_job_row job (some 3), new_task_row task (some 3)) created_once (refl, refl, refl)

-- A window that would end after the last second of an i64.
clamped_window_never_overflows_example :
    checked_timestamp_add 9223372036854775800
      (clamp_redelivery_window_seconds_for_timestamp 9223372036854775800 86400)
    ≡ ok (min (9223372036854775800 + 86400) i64_max)
unfolding i64_max
clamped_window_never_overflows_example =
    clamped_window_never_overflows 9223372036854775800 86400 (omega arith)
