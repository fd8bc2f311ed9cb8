-- ===== src/Models/Values.antt =====
-- The text columns that the schema restricts by CHECK, and tests on them (store.rs, `migrate`).
-- A text that names no value of its column, as an argument of a call, is `none`.
use codex_background_task_ha.Base.{ℕ, Bool, true, false, Option, none, some}

pub data JobStatus : Type 0 where
  pending completed failed : JobStatus

pub data TaskStatus : Type 0 where
  queued running succeeded failed cancelled timed_out lost : TaskStatus

-- How a task ends; every caller of `finish_task` and `fail_supervised_task_with_job` gives one of
-- these texts as the status.
pub data TaskEnd : Type 0 where
  succeeded failed cancelled timed_out lost : TaskEnd

abbrev pub ended : TaskEnd → TaskStatus
ended TaskEnd.succeeded = TaskStatus.succeeded
ended TaskEnd.failed = TaskStatus.failed
ended TaskEnd.cancelled = TaskStatus.cancelled
ended TaskEnd.timed_out = TaskStatus.timed_out
ended TaskEnd.lost = TaskStatus.lost

abbrev pub is_succeeded : TaskEnd → Bool
is_succeeded TaskEnd.succeeded = true
is_succeeded _ = false

-- `status IN ('queued', 'running')`.
abbrev pub is_live_task : TaskStatus → Bool
is_live_task TaskStatus.queued = true
is_live_task TaskStatus.running = true
is_live_task _ = false

abbrev pub task_status_eq : TaskStatus → TaskStatus → Bool
task_status_eq TaskStatus.queued TaskStatus.queued = true
task_status_eq TaskStatus.running TaskStatus.running = true
task_status_eq TaskStatus.succeeded TaskStatus.succeeded = true
task_status_eq TaskStatus.failed TaskStatus.failed = true
task_status_eq TaskStatus.cancelled TaskStatus.cancelled = true
task_status_eq TaskStatus.timed_out TaskStatus.timed_out = true
task_status_eq TaskStatus.lost TaskStatus.lost = true
task_status_eq _ _ = false

pub data BatchState : Type 0 where
  open_ closed : BatchState

pub data ReplayPolicy : Type 0 where
  automatic manual_resolution_only : ReplayPolicy

pub data SessionState : Type 0 where
  live detached parked stale retired : SessionState

pub data ActivityState : Type 0 where
  unknown active idle : ActivityState

pub data AdapterKind : Type 0 where
  cli desktop codex_app_server : AdapterKind

pub data AuthorizationMode : Type 0 where
  strict_safe trusted_all : AuthorizationMode

pub data AttemptState : Type 0 where
  prepared accept_pending arm_pending cooldown abandoned superseded closed : AttemptState

pub data RpcKind : Type 0 where
  turn_start turn_steer : RpcKind

pub data RpcState : Type 0 where
  pending_acceptance accepted rejected_before_accept unknown : RpcState

pub data ObservationState : Type 0 where
  tracking completed expired abandoned : ObservationState

pub data TurnEvent : Type 0 where
  turn_started turn_completed turn_failed turn_interrupted turn_replaced : TurnEvent

-- `Option<i64>` and `checked_add`: the largest value of an i64 column.
unfoldable pub i64_max : ℕ
i64_max = 9223372036854775807

abbrev pub default_redelivery_window_seconds : ℕ
default_redelivery_window_seconds = 86400

abbrev pub post_close_artifact_ttl_seconds : ℕ
post_close_artifact_ttl_seconds = 259200

abbrev pub is_pending : JobStatus → Bool
is_pending JobStatus.pending = true
is_pending _ = false

abbrev pub is_queued : TaskStatus → Bool
is_queued TaskStatus.queued = true
is_queued _ = false

abbrev pub is_open : BatchState → Bool
is_open BatchState.open_ = true
is_open BatchState.closed = false

abbrev pub is_automatic : ReplayPolicy → Bool
is_automatic ReplayPolicy.automatic = true
is_automatic ReplayPolicy.manual_resolution_only = false

-- `session_state IN ('live', 'detached')`.
abbrev pub is_attached : SessionState → Bool
is_attached SessionState.live = true
is_attached SessionState.detached = true
is_attached _ = false

-- `session_state IN ('live', 'detached', 'stale')`.
abbrev pub is_parkable : SessionState → Bool
is_parkable SessionState.live = true
is_parkable SessionState.detached = true
is_parkable SessionState.stale = true
is_parkable _ = false

abbrev pub is_retired : SessionState → Bool
is_retired SessionState.retired = true
is_retired _ = false

abbrev pub activity_eq : ActivityState → ActivityState → Bool
activity_eq ActivityState.unknown ActivityState.unknown = true
activity_eq ActivityState.active ActivityState.active = true
activity_eq ActivityState.idle ActivityState.idle = true
activity_eq _ _ = false

abbrev pub adapter_eq : AdapterKind → AdapterKind → Bool
adapter_eq AdapterKind.cli AdapterKind.cli = true
adapter_eq AdapterKind.desktop AdapterKind.desktop = true
adapter_eq AdapterKind.codex_app_server AdapterKind.codex_app_server = true
adapter_eq _ _ = false

abbrev pub mode_eq : AuthorizationMode → AuthorizationMode → Bool
mode_eq AuthorizationMode.strict_safe AuthorizationMode.strict_safe = true
mode_eq AuthorizationMode.trusted_all AuthorizationMode.trusted_all = true
mode_eq _ _ = false

-- `state IN ('prepared', 'accept_pending', 'arm_pending', 'cooldown')`.
abbrev pub is_active : AttemptState → Bool
is_active AttemptState.prepared = true
is_active AttemptState.accept_pending = true
is_active AttemptState.arm_pending = true
is_active AttemptState.cooldown = true
is_active _ = false

abbrev pub is_accept_pending : AttemptState → Bool
is_accept_pending AttemptState.accept_pending = true
is_accept_pending _ = false

abbrev pub is_cooldown : AttemptState → Bool
is_cooldown AttemptState.cooldown = true
is_cooldown _ = false

abbrev pub is_abandoned : AttemptState → Bool
is_abandoned AttemptState.abandoned = true
is_abandoned _ = false

-- `matches!(state, "closed" | "abandoned")`.
abbrev pub is_ended : AttemptState → Bool
is_ended AttemptState.closed = true
is_ended AttemptState.abandoned = true
is_ended _ = false

abbrev pub is_prepared : AttemptState → Bool
is_prepared AttemptState.prepared = true
is_prepared _ = false

abbrev pub is_arm_pending : AttemptState → Bool
is_arm_pending AttemptState.arm_pending = true
is_arm_pending _ = false

abbrev pub rpc_kind_eq : Option RpcKind → Option RpcKind → Bool
rpc_kind_eq (some RpcKind.turn_start) (some RpcKind.turn_start) = true
rpc_kind_eq (some RpcKind.turn_steer) (some RpcKind.turn_steer) = true
rpc_kind_eq _ _ = false

abbrev pub is_pending_acceptance : Option RpcState → Bool
is_pending_acceptance (some RpcState.pending_acceptance) = true
is_pending_acceptance _ = false

abbrev pub is_accepted : Option RpcState → Bool
is_accepted (some RpcState.accepted) = true
is_accepted _ = false

abbrev pub is_rejected_before_accept : Option RpcState → Bool
is_rejected_before_accept (some RpcState.rejected_before_accept) = true
is_rejected_before_accept _ = false

abbrev pub is_unknown : Option RpcState → Bool
is_unknown (some RpcState.unknown) = true
is_unknown _ = false

abbrev pub is_tracking : Option ObservationState → Bool
is_tracking (some ObservationState.tracking) = true
is_tracking _ = false

abbrev pub is_expired : Option ObservationState → Bool
is_expired (some ObservationState.expired) = true
is_expired _ = false

-- `delivery_observation_state IN ('expired', 'abandoned')`.
abbrev pub is_lost : Option ObservationState → Bool
is_lost (some ObservationState.expired) = true
is_lost (some ObservationState.abandoned) = true
is_lost _ = false

-- `matches!(last_observed_turn_event, None | Some("turn_started"))`.
abbrev pub is_unsettled : Option TurnEvent → Bool
is_unsettled none = true
is_unsettled (some TurnEvent.turn_started) = true
is_unsettled (some _) = false

abbrev pub is_turn_completed : TurnEvent → Bool
is_turn_completed TurnEvent.turn_completed = true
is_turn_completed _ = false

abbrev pub is_terminal_event : TurnEvent → Bool
is_terminal_event TurnEvent.turn_started = false
is_terminal_event _ = true

abbrev pub event_eq : Option TurnEvent → TurnEvent → Bool
event_eq (some TurnEvent.turn_started) TurnEvent.turn_started = true
event_eq (some TurnEvent.turn_completed) TurnEvent.turn_completed = true
event_eq (some TurnEvent.turn_failed) TurnEvent.turn_failed = true
event_eq (some TurnEvent.turn_interrupted) TurnEvent.turn_interrupted = true
event_eq (some TurnEvent.turn_replaced) TurnEvent.turn_replaced = true
event_eq _ _ = false
