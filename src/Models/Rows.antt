-- ===== src/Models/Rows.antt =====
-- The records of models.rs that are rows of a table, with `NewBatch`.
use codex_background_task_ha.Base.{ℕ, Bool, Option, List}
use codex_background_task_ha.Models.Values.{
  JobStatus, TaskStatus, BatchState, ReplayPolicy, SessionState, ActivityState, AdapterKind,
  AuthorizationMode, AttemptState, RpcKind, RpcState, ObservationState, TurnEvent,
}

pub record DeliveryPolicy : Type 0 where
  pub delivery_read_only : Bool
  pub delivery_requires_approval : Bool
  pub delivery_requires_network : Bool
  pub delivery_requires_write_access : Bool

-- The texts that the store composes; a caller's own text is `text`.
pub data Summary : Type 0 where
  text : ℕ → Summary
  background_job_failed background_task_failed : ℕ → Summary

pub record JobRecord : Type 0 where
  pub job_id : ℕ
  pub source_thread_id : ℕ
  pub status : JobStatus
  pub summary : ℕ
  pub metadata : ℕ
  pub created_at : ℕ
  pub updated_at : ℕ
  pub completed_at : Option ℕ
  pub failed_at : Option ℕ
  pub result_artifact_id : Option ℕ
  pub failure_reason : Option ℕ
  pub delivery_policy : DeliveryPolicy
  -- a column of the table that the record of src/models.rs does not carry
  pub supervisor_daemon_generation : Option ℕ

pub record TaskRecord : Type 0 where
  pub task_id : ℕ
  pub job_id : ℕ
  pub source_thread_id : ℕ
  pub status : TaskStatus
  pub summary : ℕ
  pub command : ℕ
  pub cwd : ℕ
  pub timeout_seconds : Option ℕ
  pub max_delivery_attempts : ℕ
  pub redelivery_window_seconds : ℕ
  pub pid : Option ℕ
  pub pid_identity : Option ℕ
  pub created_at : ℕ
  pub started_at : Option ℕ
  pub completed_at : Option ℕ
  pub exit_code : Option ℕ
  pub signal : Option ℕ
  pub failure_reason : Option ℕ
  pub stdout_log_path : Option ℕ
  pub stderr_log_path : Option ℕ
  pub stdout_bytes : ℕ
  pub stderr_bytes : ℕ
  pub stdout_truncated : Bool
  pub stderr_truncated : Bool
  pub cancel_requested_at : Option ℕ
  pub supervisor_daemon_generation : Option ℕ

pub record ArtifactRecord : Type 0 where
  pub artifact_id : ℕ
  pub job_id : ℕ
  pub relative_path : ℕ
  pub original_filename : Option ℕ
  pub size_bytes : ℕ
  pub sha256 : ℕ
  pub created_at : ℕ
  pub retention_until : ℕ
  pub manifest_synced_retention_until : ℕ
  pub manifest_sync_attempted_at : ℕ
  pub gc_attempted_at : ℕ

pub record BatchRecord : Type 0 where
  pub batch_id : ℕ
  pub source_thread_id : ℕ
  pub state : BatchState
  pub replay_policy : ReplayPolicy
  pub close_reason : Option ℕ
  pub close_note : Option ℕ
  pub summary : Summary
  pub created_at : ℕ
  pub updated_at : ℕ
  pub closed_at : Option ℕ
  pub redelivery_window_ends_at : ℕ
  pub max_delivery_attempts : ℕ
  pub delivery_attempt_count : ℕ
  pub delivery_policy : DeliveryPolicy
  pub inline_payload_bytes : ℕ
  pub requires_artifact_read : Bool

pub record NewBatch : Type 0 where
  pub batch_id : ℕ
  pub source_thread_id : ℕ
  pub summary : Summary
  pub created_at : ℕ
  pub redelivery_window_ends_at : ℕ
  pub max_delivery_attempts : ℕ
  pub policy : DeliveryPolicy
  pub inline_payload_bytes : ℕ
  pub requires_artifact_read : Bool

-- `BatchJobRecord` and `BatchInspect`: a batch with its jobs and their artifacts.
pub record BatchJobRecord : Type 0 where
  pub job : JobRecord
  pub artifact : Option ArtifactRecord

pub record BatchInspect : Type 0 where
  pub batch : BatchRecord
  pub jobs : List BatchJobRecord

-- A row of `plugin_delivery_requests`.
pub record PluginDeliveryRequestRecord : Type 0 where
  pub plugin_name : ℕ
  pub idempotency_key : ℕ
  pub plugin_instance_id : ℕ
  pub request_fingerprint : ℕ
  pub job_id : ℕ
  pub batch_id : ℕ
  pub created_at : ℕ
  pub updated_at : ℕ

-- A row of `batch_jobs`.
pub record BatchJob : Type 0 where
  pub batch_id : ℕ
  pub job_id : ℕ
  pub position : ℕ

pub record DeliveryAttemptRecord : Type 0 where
  pub attempt_id : ℕ
  pub batch_id : ℕ
  pub source_thread_id : ℕ
  pub adapter_kind : AdapterKind
  pub authorization_mode : AuthorizationMode
  pub state : AttemptState
  pub generation : ℕ
  pub delivery_rpc_request_id : Option ℕ
  pub delivery_rpc_kind : Option RpcKind
  pub delivery_rpc_state : Option RpcState
  pub delivery_rpc_correlation_marker : Option ℕ
  pub delivery_rpc_started_at : Option ℕ
  pub managed_session_id : Option ℕ
  pub session_epoch : Option ℕ
  pub session_activity_revision : ℕ
  pub session_capability_revision : ℕ
  pub delivery_turn_id : Option ℕ
  pub delivery_accepted_at : Option ℕ
  pub delivery_observation_state : Option ObservationState
  pub delivery_observation_deadline : Option ℕ
  pub last_observed_turn_event : Option TurnEvent
  pub last_observed_turn_event_at : Option ℕ
  pub bridge_request_id : Option ℕ
  pub bridge_arm_lease_id : Option ℕ
  pub bridge_arm_lease_deadline : Option ℕ
  pub arm_pending_since : Option ℕ
  pub arm_pending_deadline : Option ℕ
  pub desktop_armed_at : Option ℕ
  pub created_at : ℕ
  pub updated_at : ℕ
  pub abandoned_at : Option ℕ
  pub closed_at : Option ℕ

-- `CliManagedSessionCapabilities`; the seven capability columns of a session.
pub record CliManagedSessionCapabilities : Type 0 where
  pub capability_thread_resume : Bool
  pub capability_turn_start : Bool
  pub capability_current_state_sync : Bool
  pub capability_turn_completed_event : Bool
  pub capability_negative_terminal_events : Bool
  pub capability_thread_start : Bool
  pub capability_turn_steer : Bool

pub record CliManagedSessionRecord : Type 0 where
  pub managed_session_id : ℕ
  pub bound_thread_id : ℕ
  pub session_epoch : ℕ
  pub session_state : SessionState
  pub activity_state : ActivityState
  pub activity_revision : ℕ
  pub capability_revision : ℕ
  pub capabilities : CliManagedSessionCapabilities
  pub open capabilities use *
  pub session_allows_approval : Bool
  pub session_allows_network : Bool
  pub session_allows_write_access : Bool
  pub startup_session_allows_approval : Option Bool
  pub startup_session_allows_network : Option Bool
  pub startup_session_allows_write_access : Option Bool
  pub startup_permission_snapshot_json : Option ℕ
  pub last_permission_snapshot_json : Option ℕ
  pub permission_snapshot_revision : ℕ
  pub created_at : ℕ
  pub updated_at : ℕ
  pub retired_at : Option ℕ

-- A row of `audit_decisions`, as `retire_cli_managed_session_tx` writes it.
pub record AuditDecision : Type 0 where
  pub audit_id : ℕ
  pub recorded_at : ℕ
  pub source_thread_id : ℕ
  pub managed_session_id : ℕ
  pub session_epoch : ℕ
  pub decision : ℕ
  pub reason : ℕ
  pub previous_session_state : SessionState
