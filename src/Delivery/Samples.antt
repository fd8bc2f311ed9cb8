-- ===== src/Delivery/Samples.antt =====
-- A small history of calls, and the rows that it leaves.
use codex_background_task_ha.Base.{true, false, none, some, List, [], ◌∷◌, ◌++◌, ◌==◌}
use codex_background_task_ha.Models.{
  SessionState, ActivityState, AuthorizationMode, RpcKind, TurnEvent, DeliveryPolicy, Summary,
  JobRecord, BatchRecord, DeliveryAttemptRecord, CliManagedSessionCapabilities,
  CliManagedSessionRecord, NewJob, NewCliAcceptPendingAttempt,
  NewCodexAppServerAcceptPendingAttempt, CliManagedSessionProfile,
  CliManagedSessionProfileRequirement,
}
use codex_background_task_ha.Store.{Store}
use codex_background_task_ha.Store.Fences.{next_epoch, park_session}
use codex_background_task_ha.Store.Batches.{
  new_batch_row, close_batch, close_attempt, manualize_batch, count_delivery,
}
use codex_background_task_ha.Store.Attempts.{cli_attempt_row, codex_attempt_row}
use codex_background_task_ha.Store.Outcomes.{accept_row}
use codex_background_task_ha.Store.Observe.{complete_turn}
use codex_background_task_ha.Store.Sessions.{new_session_row, retire_row, BindTexts}
use codex_background_task_ha.Store.Jobs.{new_job_row, fail_job_row}
use codex_background_task_ha.Base.{if◌then◌else◌, Result, ok, err, is_ok, ◌≡◌, refl}
use codex_background_task_ha.FsLayout.{codes}
use codex_background_task_ha.Delivery.Calls.{Env, Call, run, empty_store}

abbrev pub env : Env
env = record {
  close_texts = record { delivered = 101; cli_note = 102; codex_note = 103 };
  sweep_texts = record {
    manual_resolution_expired = 104;
    redelivery_window_exhausted = 105;
    sweep_note = 106;
  };
  operator_retire = 107;
  bytes = λ k. if k == 66 then codes "artifacts/n/payload" else if k == 0 then [] else codes "n";
}

abbrev read_only : DeliveryPolicy
read_only = record {
  delivery_read_only = true;
  delivery_requires_approval = false;
  delivery_requires_network = false;
  delivery_requires_write_access = false;
}

abbrev pub job : NewJob
job = record {
  job_id = 1;
  source_thread_id = 7;
  summary = 108;
  metadata_json = 109;
  policy = read_only;
  created_at = 1000;
}

abbrev profile : CliManagedSessionProfile
profile = record {
  session_allows_approval = false;
  session_allows_network = false;
  session_allows_write_access = false;
}

abbrev requirement : CliManagedSessionProfileRequirement
requirement = record {
  session_allows_approval = none;
  session_allows_network = none;
  session_allows_write_access = none;
}

abbrev pub bind_texts : BindTexts
bind_texts = record {
  auto_replace = 110;
  auto_replaced_by_bind = 111;
  session_id = 30;
  audit_id = 31;
}

abbrev all_capabilities : CliManagedSessionCapabilities
all_capabilities = record {
  capability_thread_resume = true;
  capability_turn_start = true;
  capability_current_state_sync = true;
  capability_turn_completed_event = true;
  capability_negative_terminal_events = true;
  capability_thread_start = true;
  capability_turn_steer = false;
}

abbrev pub cli_request : NewCliAcceptPendingAttempt
cli_request = record {
  attempt_id = 40;
  batch_id = 20;
  managed_session_id = 30;
  session_epoch = 1;
  authorization_mode = some AuthorizationMode.strict_safe;
  delivery_rpc_request_id = 41;
  delivery_rpc_kind = some RpcKind.turn_start;
  delivery_rpc_correlation_marker = 42;
  delivery_rpc_started_at = 1010;
}

abbrev pub codex_request : NewCodexAppServerAcceptPendingAttempt
codex_request = record {
  attempt_id = 50;
  batch_id = 20;
  managed_session_id = 60;
  session_epoch = 1;
  delivery_rpc_request_id = 51;
  delivery_rpc_correlation_marker = 52;
  delivery_rpc_started_at = 1010;
}

-- A job fails, and its batch waits for a thread with an idle session.
abbrev pub queued : List Call
queued =
    Call.submit job none
    ∷ Call.fail 20 1 112 1001 2 86400
    ∷ Call.bind bind_texts 7 profile requirement 1002
    ∷ Call.note_capabilities 30 1 1 all_capabilities 1003
    ∷ Call.note_activity 30 1 (some ActivityState.idle) 1 1004
    ∷ []

abbrev pub store_of : List Call → Store
store_of cs = run env empty_store cs

-- The batch is delivered over the CLI, and the turn accepted.
abbrev pub begun : List Call
begun = queued ++ Call.begin_cli cli_request ∷ []

abbrev pub accepted_cli : List Call
accepted_cli = begun ++ Call.accept_cli 40 43 1011 2000 ∷ []

-- The turn completes, and the batch is closed.
abbrev pub delivered_cli : List Call
delivered_cli = accepted_cli ++ Call.observe_cli 40 43 (some TurnEvent.turn_completed) 1500 ∷ []

-- The turn is never seen to end, and the batch waits for a person.
abbrev pub expired_cli : List Call
expired_cli = accepted_cli ++ Call.expire_cli 40 2000 ∷ []

-- The batch is delivered by the app server.
abbrev pub begun_codex : List Call
begun_codex = queued ++ Call.begin_codex codex_request ∷ []

abbrev pub accepted_by_codex : List Call
accepted_by_codex = begun_codex ++ Call.accept_codex 50 53 1012 2001 ∷ []

-- The operator closes the head of the thread.
abbrev pub closed_by_hand : List Call
closed_by_hand = queued ++ Call.close_thread_head 7 120 none 1500 ∷ []

abbrev pub job_failed : JobRecord
job_failed = fail_job_row 112 1001 (new_job_row job none)

abbrev pub batch_queued : BatchRecord
batch_queued = new_batch_row (record {
  batch_id = 20;
  source_thread_id = 7;
  summary = Summary.background_job_failed 112;
  created_at = 1001;
  redelivery_window_ends_at = 87401;
  max_delivery_attempts = 2;
  policy = read_only;
  inline_payload_bytes = 0;
  requires_artifact_read = false;
})

abbrev pub batch_accepted : BatchRecord
batch_accepted = count_delivery 1011 batch_queued

abbrev pub batch_delivered : BatchRecord
batch_delivered = close_batch 101 (some 102) 1500 batch_accepted

abbrev pub batch_manual : BatchRecord
batch_manual = manualize_batch 88400 2000 batch_accepted

abbrev pub session_idle : CliManagedSessionRecord
session_idle = record (new_session_row 30 7 profile 1002) {
  activity_state = ActivityState.idle;
  activity_revision = 1;
  capability_revision = 1;
  capabilities = all_capabilities;
  updated_at = 1004;
}

abbrev pub session_parked : CliManagedSessionRecord
session_parked = park_session 2000 (next_epoch 2000 session_idle)

abbrev pub session_lost : CliManagedSessionRecord
session_lost = next_epoch 1020 session_idle

abbrev pub attempt_pending : DeliveryAttemptRecord
attempt_pending =
    cli_attempt_row cli_request AuthorizationMode.strict_safe batch_queued session_idle 1

abbrev pub attempt_accepted : DeliveryAttemptRecord
attempt_accepted = accept_row 43 1011 2000 attempt_pending

abbrev pub attempt_delivered : DeliveryAttemptRecord
attempt_delivered = close_attempt 1500 (complete_turn 1500 attempt_accepted)

abbrev pub codex_pending : DeliveryAttemptRecord
codex_pending = codex_attempt_row codex_request batch_queued 1

abbrev pub codex_accepted : DeliveryAttemptRecord
codex_accepted = accept_row 53 1012 2001 codex_pending

-- The store while the acceptance is pending, and once the session's proof is lost.
abbrev pub begun_store : Store
begun_store = record {
  jobs = job_failed ∷ [];
  artifacts = [];
  batches = batch_queued ∷ [];
  batch_jobs = record { batch_id = 20; job_id = 1; position = 0 } ∷ [];
  cli_managed_sessions = session_idle ∷ [];
  delivery_attempts = attempt_pending ∷ [];
  plugin_delivery_requests = [];
  audit_decisions = [];
}

abbrev pub lost_store : Store
lost_store = record begun_store { cli_managed_sessions = session_lost ∷ [] }

-- The store while the turn runs, and once it has completed.
abbrev pub tracked_store : Store
tracked_store = record begun_store {
  batches = batch_accepted ∷ [];
  delivery_attempts = attempt_accepted ∷ [];
}

abbrev pub delivered_store : Store
delivered_store = record begun_store {
  batches = batch_delivered ∷ [];
  cli_managed_sessions = next_epoch 1500 session_idle ∷ [];
  delivery_attempts = attempt_delivered ∷ [];
}

-- The store while the session is detached and no attempt runs, and once it is retired.
abbrev pub session_detached : CliManagedSessionRecord
session_detached = record session_idle { session_state = SessionState.detached }

abbrev pub detached_store : Store
detached_store = record begun_store {
  cli_managed_sessions = session_detached ∷ [];
  delivery_attempts = [];
}

abbrev pub retired_store : Store
retired_store = record detached_store {
  cli_managed_sessions = retire_row 1030 session_detached ∷ [];
  audit_decisions =
      record {
        audit_id = 33;
        recorded_at = 1030;
        source_thread_id = 7;
        managed_session_id = 30;
        session_epoch = 1;
        decision = 107;
        reason = 121;
        previous_session_state = SessionState.detached;
      }
      ∷ [];
}

-- The same turn, run by the app server.
abbrev pub codex_tracked_store : Store
codex_tracked_store = record begun_store {
  batches = count_delivery 1012 batch_queued ∷ [];
  delivery_attempts = codex_accepted ∷ [];
}

pub no_reply : {A : Type 0} → false ≡ true → A
no_reply h = absurd (cc h)

-- What a call that succeeds returns.
abbrev pub value_of : {A : Type 0} (m : Result A) → is_ok m ≡ true → (a : A) × (m ≡ ok a)
value_of (ok a) h = (a, refl)
value_of (err x) h = no_reply h
