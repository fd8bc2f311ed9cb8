-- ===== src/Store/Plugin/Validation.antt =====
-- What store.rs checks of a plugin delivery before the transaction. `bytes` gives the bytes of the
-- text that a number stands for.
use codex_background_task_ha.Base.{
  ℕ, Bool, not, none, some, List, ltb, Error, Result, ok, ◌>>◌, guard,
}
use codex_background_task_ha.FsLayout.{
  same_text, validate_id_path_component, relative_artifact_payload_path, is_absolute, escapes,
}
use codex_background_task_ha.Models.{NewPluginDelivery}
use codex_background_task_ha.Store.Guards.{ensure_nonempty_value, ensure_positive_value}

module _ (bytes : ℕ → List ℕ) where
  -- `validate_id_path_component` on the text of a number.
  abbrev pub is_path_component : ℕ → Bool
  is_path_component k = validate_id_path_component (bytes k)

  unfoldable pub validate_plugin_delivery_artifact_reference : ℕ → ℕ → ℕ → ℕ → ℕ → Result (Unit {0})
  validate_plugin_delivery_artifact_reference artifact_id relative_path size retention now = do
    ensure_nonempty_value relative_path
    ensure_positive_value size
    guard (ltb now retention) Error.retention_not_future
    guard (not (is_absolute (bytes relative_path))) Error.path_not_relative
    guard (same_text (bytes relative_path) (relative_artifact_payload_path (bytes artifact_id)))
        Error.path_not_canonical
    guard (not (escapes (bytes relative_path))) Error.path_escapes

  unfoldable pub validate_plugin_artifact : NewPluginDelivery → Result (Unit {0})
  unfolding validate_plugin_delivery_artifact_reference
  validate_plugin_artifact d = elim d.artifact [
    | none ↦ ok tt
    | some f ↦ do
      guard (is_path_component f.artifact_id) Error.unsupported_value
      validate_plugin_delivery_artifact_reference f.artifact_id f.relative_path f.size_bytes
          f.retention_until d.created_at
  ]

  -- `inline_payload_bytes` is never negative here.
  unfoldable pub validate_new_plugin_delivery : NewPluginDelivery → Result (Unit {0})
  unfolding validate_plugin_artifact
  validate_new_plugin_delivery d = do
    ensure_nonempty_value d.plugin_name
    ensure_nonempty_value d.plugin_instance_id
    ensure_nonempty_value d.idempotency_key
    ensure_nonempty_value d.request_fingerprint
    ensure_nonempty_value d.source_thread_id
    ensure_nonempty_value d.summary
    guard (is_path_component d.job_id) Error.unsupported_value
    guard (is_path_component d.batch_id) Error.unsupported_value
    ensure_positive_value d.max_delivery_attempts
    ensure_positive_value d.redelivery_window_seconds
    validate_plugin_artifact d
