-- ===== src/Delivery/Examples.antt =====
-- An example of each property, on the small history.
use codex_background_task_ha.Delivery.Settlement.{tracked}
use codex_background_task_ha.Models.{is_accept_pending, is_open}
use codex_background_task_ha.Base.{suc, ◌<◌}
use codex_background_task_ha.Store.Batches.{new_batch_row}
use codex_background_task_ha.Base.{
  ◌≤◌, ◌<◌, ◌≡◌, refl, true, false, none, some, [], ◌∷◌, arith, count_where, ok, is_ok,
}
use codex_background_task_ha.Models.{
  ObservationState, TurnEvent, is_open, is_automatic, is_retired, is_accepted, BatchRecord,
  DeliveryAttemptRecord, CliManagedSessionRecord,
}
use codex_background_task_ha.Store.{
  Store, query_job_tx, query_batch_tx, query_delivery_attempt_tx, query_cli_managed_session_tx,
  head_batch,
}
use codex_background_task_ha.Store.Fences.{clear_proof, clear_all_proofs, next_epoch, park_session}
use codex_background_task_ha.Store.Batches.{
  new_batch_row, close_batch, close_attempt, manualize_batch, count_delivery,
}
use codex_background_task_ha.Store.Attempts.{
  cli_attempt_row, begin_codex_app_server_accept_pending_attempt_with_created,
}
use codex_background_task_ha.Store.Outcomes.{
  accept_row, is_accepted_turn, accept_cli_attempt, accept_codex_app_server_attempt, expire_row,
}
use codex_background_task_ha.Store.Sessions.{new_session_row, retire_row}
use codex_background_task_ha.Store.Jobs.{fail_job_row}
use codex_background_task_ha.Delivery.Invariant.{Inv}
use codex_background_task_ha.Delivery.Calls.{Call, run}
use codex_background_task_ha.Delivery.Samples.{
  detached_store, retired_store, session_detached, env, codex_request, queued, store_of, begun,
  accepted_cli, delivered_cli, expired_cli, begun_codex, accepted_by_codex, codex_tracked_store,
  value_of, closed_by_hand, job_failed, batch_queued, batch_delivered, batch_manual, session_idle,
  session_parked, session_lost, attempt_pending, attempt_accepted, attempt_delivered, codex_pending,
  codex_accepted, begun_store, lost_store,
}
use codex_background_task_ha.Store.Plugin.Validation.{is_path_component}
use codex_background_task_ha.Delivery.Histories.{run-Inv}
use codex_background_task_ha.Delivery.Finality.{
  closed_batch_is_final, manual_is_final, closed_attempt_is_final, accepted_turn_is_final,
  session_epoch_never_falls, finished_job_is_final,
}
use codex_background_task_ha.Delivery.Manual.{attempt_of, run-no_further_attempt}
use codex_background_task_ha.Delivery.Fencing.{
  stale_attempt_never_accepted, lost_proof_fences_attempts,
}
use codex_background_task_ha.Delivery.Replays.{begin_codex-replay}
use codex_background_task_ha.Delivery.Settlement.{
  accept_cli-effect, accept_codex-replay, accept_cli-replay,
}
use codex_background_task_ha.Delivery.Endings.{Closed, close_head-Closed}
use codex_background_task_ha.Delivery.Checks.{
  queued_rows, begin_cli_succeeds, accept_cli_succeeds, delivered_rows, expired_rows,
}
use codex_background_task_ha.Delivery.CodexChecks.{begin_codex_succeeds, observe_codex_succeeds}
use codex_background_task_ha.Delivery.StepChecks.{
  lose_proof_succeeds, close_head_succeeds, retire_succeeds,
}
use codex_background_task_ha.Delivery.Retirement.{Retired, retire-Retired}
use codex_background_task_ha.Store.Observe.{observe_codex_app_server_turn_event}
use codex_background_task_ha.Base.{ok, some}

run-Inv_example : Inv (store_of delivered_cli)
run-Inv_example = run-Inv env delivered_cli

closed_batch_is_final_example :
    query_batch_tx (run env (store_of delivered_cli) (Call.clean_up 90000 ∷ [])) 20
    ≡ ok batch_delivered
unfolding close_batch
closed_batch_is_final_example =
    closed_batch_is_final env (store_of delivered_cli) (run-Inv env delivered_cli)
      (Call.clean_up 90000 ∷ []) 20 batch_delivered delivered_rows.0 refl

manual_is_final_example :
    (c : BatchRecord) × (query_batch_tx
        (run env (store_of expired_cli) (Call.clean_up 90000 ∷ []))
        20
      ≡ ok c)
    × (is_automatic c.replay_policy ≡ false)
    × (c.source_thread_id ≡ batch_manual.source_thread_id)
    × (c.max_delivery_attempts ≡ batch_manual.max_delivery_attempts)
unfolding manualize_batch
manual_is_final_example =
    manual_is_final env (store_of expired_cli) (run-Inv env expired_cli) (Call.clean_up 90000 ∷ [])
      20 batch_manual expired_rows.0 refl

run-no_further_attempt_example :
    count_where
      (attempt_of 20)
      (run env (store_of expired_cli) (Call.begin_codex codex_request ∷ [])).delivery_attempts
    ≡ count_where (attempt_of 20) (store_of expired_cli).delivery_attempts
unfolding manualize_batch count_delivery new_batch_row
run-no_further_attempt_example =
    run-no_further_attempt env (store_of expired_cli) (Call.begin_codex codex_request ∷ []) 20
      batch_manual (run-Inv env expired_cli) expired_rows.0 refl

closed_attempt_is_final_example :
    query_delivery_attempt_tx (run env (store_of delivered_cli) (Call.expire_cli 40 2000 ∷ [])) 40
    ≡ ok attempt_delivered
unfolding close_attempt
closed_attempt_is_final_example =
    closed_attempt_is_final env (store_of delivered_cli) (run-Inv env delivered_cli)
      (Call.expire_cli 40 2000 ∷ []) 40 attempt_delivered delivered_rows.1 refl

accepted_turn_is_final_example :
    (c : DeliveryAttemptRecord) × (query_delivery_attempt_tx
        (run env (store_of accepted_cli) (Call.expire_cli 40 2000 ∷ []))
        40
      ≡ ok c)
    × (is_accepted c.delivery_rpc_state ≡ true)
    × (c.delivery_turn_id ≡ attempt_accepted.delivery_turn_id)
    × (c.batch_id ≡ attempt_accepted.batch_id)
    × (c.managed_session_id ≡ attempt_accepted.managed_session_id)
    × (c.session_epoch ≡ attempt_accepted.session_epoch)
unfolding accept_row
accepted_turn_is_final_example =
    accepted_turn_is_final env (store_of accepted_cli) (run-Inv env accepted_cli)
      (Call.expire_cli 40 2000 ∷ []) 40 attempt_accepted accept_cli_succeeds.1 refl

session_epoch_never_falls_example :
    (d : CliManagedSessionRecord) × (query_cli_managed_session_tx
        (run env (store_of queued) (Call.lose_proof 30 1 1020 ∷ []))
        30
      ≡ ok d)
    × (d.bound_thread_id ≡ session_idle.bound_thread_id)
    × (session_idle.session_epoch ≤ d.session_epoch)
    × (is_retired session_idle.session_state ≡ true → is_retired d.session_state ≡ true)
session_epoch_never_falls_example =
    session_epoch_never_falls env (store_of queued) (run-Inv env queued)
      (Call.lose_proof 30 1 1020 ∷ []) 30 session_idle queued_rows.1

finished_job_is_final_example :
    query_job_tx (run env (store_of queued) (Call.fail 21 1 113 1030 2 86400 ∷ [])) 1
    ≡ ok job_failed
unfolding fail_job_row
finished_job_is_final_example =
    finished_job_is_final env (store_of queued) (run-Inv env queued)
      (Call.fail 21 1 113 1030 2 86400 ∷ []) 1 job_failed queued_rows.2 refl

stale_attempt_never_accepted_example :
    is_ok (
      accept_cli_attempt (run env (store_of expired_cli) (Call.clean_up 3000 ∷ [])) 40 44 3001 4000)
    ≡ false
unfolding expire_row accept_row cli_attempt_row park_session next_epoch clear_proof clear_all_proofs
    new_session_row
stale_attempt_never_accepted_example =
    stale_attempt_never_accepted env (store_of expired_cli) (Call.clean_up 3000 ∷ []) 40 44 3001
      4000 (expire_row ObservationState.expired 2000 attempt_accepted) 30 1 session_parked
      (run-Inv env expired_cli) expired_rows.2 refl refl expired_rows.1 (omega arith)

lost_proof_fences_attempts_example : is_ok (accept_cli_attempt lost_store 40 43 1021 2000) ≡ false
unfolding cli_attempt_row
lost_proof_fences_attempts_example =
    lost_proof_fences_attempts begun_store 30 1 1020 (lost_store, session_lost) 40 43 1021 2000
      attempt_pending lose_proof_succeeds.0 lose_proof_succeeds.1 refl refl

begin_codex-replay_example :
    begin_codex_app_server_accept_pending_attempt_with_created
      (is_path_component env.bytes)
      (store_of begun_codex)
      codex_request
    ≡ ok (store_of begun_codex, (codex_pending, false))
begin_codex-replay_example =
    begin_codex-replay (is_path_component env.bytes) (store_of queued) codex_request
      (store_of begun_codex, (codex_pending, true)) begin_codex_succeeds.0

accept_cli-replay_example :
    accept_cli_attempt (store_of accepted_cli) 40 43 1015 2500
    ≡ ok (store_of accepted_cli, attempt_accepted)
accept_cli-replay_example =
    accept_cli-replay (store_of begun) 40 43 1011 2000 (store_of accepted_cli, attempt_accepted)
      1015 2500 accept_cli_succeeds.0

accept_codex-replay_example :
    accept_codex_app_server_attempt (store_of accepted_by_codex) 50 53 1015 2500
    ≡ ok (store_of accepted_by_codex, codex_accepted)
accept_codex-replay_example =
    accept_codex-replay (store_of begun_codex) 50 53 1012 2001
      (store_of accepted_by_codex, codex_accepted) 1015 2500 begin_codex_succeeds.2

accept_cli-effect_example :
    (is_accept_pending attempt_pending.state ≡ true)
    × (attempt_accepted ≡ tracked 43 1011 2000 attempt_pending)
    × (query_delivery_attempt_tx (store_of accepted_cli) 40 ≡ ok attempt_accepted)
    × ((b : BatchRecord) × (query_batch_tx (store_of begun) 20 ≡ ok b)
        × (is_open b.state ≡ true)
        × (b.delivery_attempt_count < b.max_delivery_attempts)
        × (query_batch_tx (store_of accepted_cli) 20
            ≡ ok (record b {
              delivery_attempt_count = suc b.delivery_attempt_count;
              updated_at = 1011;
            })))
    × (query_delivery_attempt_tx (store_of accepted_cli) 41
        ≡ query_delivery_attempt_tx (store_of begun) 41)
    × (query_batch_tx (store_of accepted_cli) 21 ≡ query_batch_tx (store_of begun) 21)
    × ((store_of accepted_cli).cli_managed_sessions ≡ (store_of begun).cli_managed_sessions)
    × ((store_of accepted_cli).jobs ≡ (store_of begun).jobs)
    × ((store_of accepted_cli).batch_jobs ≡ (store_of begun).batch_jobs)
unfolding is_accepted_turn cli_attempt_row new_batch_row
accept_cli-effect_example =
    accept_cli-effect (store_of begun) 40 43 1011 2000 (store_of accepted_cli, attempt_accepted)
      attempt_pending 41 21 begin_cli_succeeds.2 refl refl refl accept_cli_succeeds.0

abbrev codex_reply :
    (p : Store × DeliveryAttemptRecord) × (observe_codex_app_server_turn_event env.close_texts
        codex_tracked_store 50 53
        (some TurnEvent.turn_failed)
        1500
      ≡ ok p)
codex_reply =
    value_of
      (observe_codex_app_server_turn_event env.close_texts codex_tracked_store 50 53
        (some TurnEvent.turn_failed) 1500)
      observe_codex_succeeds.0

close_head-Closed_example :
    (b : BatchRecord) × (head_batch (store_of queued).batches 7 ≡ some b)
    × (query_batch_tx (store_of closed_by_hand) b.batch_id
        ≡ ok (close_batch 120 none 1500 batch_queued))
    × (is_open (close_batch 120 none 1500 batch_queued).state ≡ false)
    × Closed b.batch_id (store_of closed_by_hand)
close_head-Closed_example =
    close_head-Closed (store_of queued) 7 120 none 1500
      (store_of closed_by_hand, close_batch 120 none 1500 batch_queued) close_head_succeeds

retire-Retired_example : Retired 30 (retired_store, retire_row 1030 session_detached)
retire-Retired_example =
    retire-Retired 107 33 detached_store 30 121 1030
      (retired_store, retire_row 1030 session_detached) retire_succeeds
