-- ===== src/Models/Requests.antt =====
-- The request records of models.rs.
use codex_background_task_ha.Base.{ℕ, Bool, Option, List}
use codex_background_task_ha.Models.Values.{TaskEnd, AuthorizationMode, RpcKind}
use codex_background_task_ha.Models.Rows.{
  DeliveryPolicy, JobRecord, BatchInspect, DeliveryAttemptRecord,
}

pub record NewJob : Type 0 where
  pub job_id : ℕ
  pub source_thread_id : ℕ
  pub summary : ℕ
  pub metadata_json : ℕ
  pub policy : DeliveryPolicy
  pub created_at : ℕ

pub record NewTask : Type 0 where
  pub task_id : ℕ
  pub job_id : ℕ
  pub source_thread_id : ℕ
  pub summary : ℕ
  pub command_json : ℕ
  pub cwd : ℕ
  pub timeout_seconds : Option ℕ
  pub max_delivery_attempts : ℕ
  pub redelivery_window_seconds : ℕ
  pub created_at : ℕ

pub record TaskFinishUpdate : Type 0 where
  pub task_id : ℕ
  pub status : TaskEnd
  pub completed_at : ℕ
  pub exit_code : Option ℕ
  pub signal : Option ℕ
  pub failure_reason : Option ℕ
  pub stdout_log_path : Option ℕ
  pub stderr_log_path : Option ℕ
  pub stdout_bytes : ℕ
  pub stderr_bytes : ℕ
  pub stdout_truncated : Bool
  pub stderr_truncated : Bool

pub record LostPendingTaskProcess : Type 0 where
  pub task_id : ℕ
  pub pid : ℕ
  pub pid_identity : Option ℕ

pub record NewArtifact : Type 0 where
  pub artifact_id : ℕ
  pub job_id : ℕ
  pub relative_path : ℕ
  pub original_filename : Option ℕ
  pub size_bytes : ℕ
  pub sha256 : ℕ
  pub created_at : ℕ
  pub retention_until : ℕ

pub record PluginDeliveryArtifactInput : Type 0 where
  pub artifact_id : ℕ
  pub relative_path : ℕ
  pub original_filename : Option ℕ
  pub size_bytes : ℕ
  pub sha256 : ℕ
  pub retention_until : ℕ

pub record NewPluginDelivery : Type 0 where
  pub plugin_name : ℕ
  pub plugin_instance_id : ℕ
  pub idempotency_key : ℕ
  pub request_fingerprint : ℕ
  pub job_id : ℕ
  pub batch_id : ℕ
  pub source_thread_id : ℕ
  pub summary : ℕ
  pub metadata_json : ℕ
  pub policy : DeliveryPolicy
  pub inline_payload_bytes : ℕ
  pub artifact : Option PluginDeliveryArtifactInput
  pub max_delivery_attempts : ℕ
  pub redelivery_window_seconds : ℕ
  pub created_at : ℕ

pub record PluginDeliveryEnqueueRecord : Type 0 where
  pub created : Bool
  pub idempotency_key : ℕ
  pub job : JobRecord
  pub batch : BatchInspect

pub record PluginDeliveryInspectRecord : Type 0 where
  pub job : Option JobRecord
  pub batch : Option BatchInspect
  pub attempts : List DeliveryAttemptRecord

pub record NewCliAcceptPendingAttempt : Type 0 where
  pub attempt_id : ℕ
  pub batch_id : ℕ
  pub managed_session_id : ℕ
  pub session_epoch : ℕ
  pub authorization_mode : Option AuthorizationMode
  pub delivery_rpc_request_id : ℕ
  pub delivery_rpc_kind : Option RpcKind
  pub delivery_rpc_correlation_marker : ℕ
  pub delivery_rpc_started_at : ℕ

pub record NewCodexAppServerAcceptPendingAttempt : Type 0 where
  pub attempt_id : ℕ
  pub batch_id : ℕ
  pub managed_session_id : ℕ
  pub session_epoch : ℕ
  pub delivery_rpc_request_id : ℕ
  pub delivery_rpc_correlation_marker : ℕ
  pub delivery_rpc_started_at : ℕ

pub record CliManagedSessionProfile : Type 0 where
  pub session_allows_approval : Bool
  pub session_allows_network : Bool
  pub session_allows_write_access : Bool

pub record CliManagedSessionProfileRequirement : Type 0 where
  pub session_allows_approval : Option Bool
  pub session_allows_network : Option Bool
  pub session_allows_write_access : Option Bool

pub record CliManagedSessionPermissions : Type 0 where
  pub session_allows_approval : Bool
  pub session_allows_network : Bool
  pub session_allows_write_access : Bool

pub record NewCliManagedSessionPermissionSnapshot : Type 0 where
  pub startup : Option CliManagedSessionPermissions
  pub effective : CliManagedSessionPermissions
  pub snapshot_json : ℕ
