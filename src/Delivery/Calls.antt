-- ===== src/Delivery/Calls.antt =====
-- The calls of the store as one type, and histories of calls. A call is one transaction: when it
-- fails, the store is as it was.
use codex_background_task_ha.Base.{ℕ, Bool, Option, List, [], ◌∷◌, Result, ok, err}
use codex_background_task_ha.Models.{
  NewPluginDelivery, PluginDeliveryEnqueueRecord, DeliveryAttemptRecord, ActivityState, TurnEvent,
  CliManagedSessionCapabilities, NewJob, NewArtifact, NewCliAcceptPendingAttempt,
  NewCodexAppServerAcceptPendingAttempt, CliManagedSessionProfile,
  CliManagedSessionProfileRequirement, NewCliManagedSessionPermissionSnapshot,
}
use codex_background_task_ha.Store.{Store}
use codex_background_task_ha.Store.Attempts.{
  begin_cli_accept_pending_attempt, begin_codex_app_server_accept_pending_attempt_with_created,
}
use codex_background_task_ha.Store.Outcomes.{
  accept_cli_attempt, accept_codex_app_server_attempt, reject_cli_attempt_before_accept,
  reject_codex_app_server_attempt_before_accept, abandon_codex_app_server_attempt_as_unknown,
  expire_cli_observation,
}
use codex_background_task_ha.Store.Observe.{
  CloseTexts, observe_cli_turn_event, observe_codex_app_server_turn_event,
}
use codex_background_task_ha.Store.Sweep.{
  SweepTexts, sweep, sweep_codex_app_server_delivery_cleanup,
}
use codex_background_task_ha.Store.Sessions.{
  BindTexts, attach_or_create_cli_managed_session, retire_cli_managed_session,
}
use codex_background_task_ha.Store.Notes.{
  note_cli_managed_session_activity, note_cli_managed_session_capabilities,
  note_cli_managed_session_permissions, invalidate_cli_managed_session_proof,
  invalidate_cli_managed_session_current_proof,
}
use codex_background_task_ha.Store.Plugin.Validation.{is_path_component}
use codex_background_task_ha.Store.Plugin.{
  enqueue_plugin_delivery, enqueue_plugin_delivery_with_codex_app_server_attempt_if_head,
}
use codex_background_task_ha.Store.Jobs.{
  submit_job_for_supervisor_generation, complete_job, fail_job_with_artifact, fail_job, close_head,
  manualize_plugin_delivery,
}

-- What the calls take from their surroundings: texts, and the bytes of texts.
pub record Env : Type 0 where
  pub close_texts : CloseTexts
  pub sweep_texts : SweepTexts
  pub operator_retire : ℕ
  -- the bytes of the text that a number stands for
  pub bytes : ℕ → List ℕ

pub data Call : Type 0 where
  submit : NewJob → (generation : Option ℕ) → Call
  complete : (id : ℕ) → NewArtifact → Option ℕ → (now attempts window : ℕ) → Call
  fail : (id job reason now attempts window : ℕ) → Call
  fail_with_artifact : (id : ℕ) → NewArtifact → (reason now attempts window : ℕ) → Call
  close_thread_head : (thread reason : ℕ) → Option ℕ → (now : ℕ) → Call
  withdraw : (batch reason now : ℕ) → Call
  bind :
      BindTexts
      → (thread : ℕ) → CliManagedSessionProfile
      → CliManagedSessionProfileRequirement
      → (now : ℕ) → Call
  retire : (audit_id session reason now : ℕ) → Call
  note_activity : (session epoch : ℕ) → Option ActivityState → (revision now : ℕ) → Call
  note_capabilities :
      (session epoch revision : ℕ) → CliManagedSessionCapabilities → (now : ℕ) → Call
  note_permissions : (session epoch : ℕ) → NewCliManagedSessionPermissionSnapshot → (now : ℕ) → Call
  lose_proof : (session epoch now : ℕ) → Call
  lose_current_proof : (session thread now : ℕ) → Call
  begin_cli : NewCliAcceptPendingAttempt → Call
  enqueue_alone : NewPluginDelivery → Call
  enqueue : NewPluginDelivery → NewCodexAppServerAcceptPendingAttempt → Call
  begin_codex : NewCodexAppServerAcceptPendingAttempt → Call
  accept_cli : (attempt turn now deadline : ℕ) → Call
  accept_codex : (attempt turn now deadline : ℕ) → Call
  reject_cli : (attempt now : ℕ) → (manual : Bool) → Call
  reject_codex : (attempt now : ℕ) → (manual : Bool) → Call
  give_up_codex : (attempt now : ℕ) → (manual : Bool) → Call
  expire_cli : (attempt now : ℕ) → Call
  observe_cli : (attempt turn : ℕ) → Option TurnEvent → (now : ℕ) → Call
  observe_codex : (attempt turn : ℕ) → Option TurnEvent → (now : ℕ) → Call
  clean_up : (now : ℕ) → Call
  clean_up_codex : (now : ℕ) → Call

-- The store that a call leaves behind, without its reply.
unfoldable pub keep {ℓ} : {A : Type ℓ} → Result (Store × A) → Result Store
keep (ok p) = ok p.0
keep (err e) = err e

module _ (e : Env) where
  unfoldable pub perform : Store → Call → Result Store
  unfolding keep
  perform s (submit j generation) = keep (submit_job_for_supervisor_generation s j generation)
  perform s (complete id f summary now n w) = keep (complete_job id s f summary now n w)
  perform s (fail id j reason now n w) = keep (fail_job id s j reason now n w)
  perform s (fail_with_artifact id f reason now n w) =
      keep (fail_job_with_artifact id s f reason now n w)
  perform s (close_thread_head thread reason note now) = keep (close_head s thread reason note now)
  perform s (withdraw b reason now) = keep (manualize_plugin_delivery s b reason now)
  perform s (bind t thread p r now) = keep (attach_or_create_cli_managed_session t s thread p r now)
  perform s (retire audit_id c reason now) =
      keep (retire_cli_managed_session e.operator_retire audit_id s c reason now)
  perform s (note_activity c epoch a revision now) =
      keep (note_cli_managed_session_activity s c epoch a revision now)
  perform s (note_capabilities c epoch revision p now) =
      keep (note_cli_managed_session_capabilities s c epoch revision p now)
  perform s (note_permissions c epoch n now) =
      keep (note_cli_managed_session_permissions s c epoch n now)
  perform s (lose_proof c epoch now) = keep (invalidate_cli_managed_session_proof s c epoch now)
  perform s (lose_current_proof c thread now) =
      keep (invalidate_cli_managed_session_current_proof s c thread now)
  perform s (begin_cli r) = keep (begin_cli_accept_pending_attempt s r)
  perform s (enqueue_alone d) = keep (enqueue_plugin_delivery e.bytes s d)
  perform s (enqueue d attempt) =
      keep {A = PluginDeliveryEnqueueRecord × Option DeliveryAttemptRecord}
        (enqueue_plugin_delivery_with_codex_app_server_attempt_if_head e.bytes s d attempt)
  perform s (begin_codex r) =
      keep {A = DeliveryAttemptRecord × Bool}
        (begin_codex_app_server_accept_pending_attempt_with_created (is_path_component e.bytes) s r)
  perform s (accept_cli k turn now deadline) = keep (accept_cli_attempt s k turn now deadline)
  perform s (accept_codex k turn now deadline) =
      keep (accept_codex_app_server_attempt s k turn now deadline)
  perform s (reject_cli k now manual) = keep (reject_cli_attempt_before_accept s k now manual)
  perform s (reject_codex k now manual) =
      keep (reject_codex_app_server_attempt_before_accept s k now manual)
  perform s (give_up_codex k now manual) =
      keep (abandon_codex_app_server_attempt_as_unknown s k now manual)
  perform s (expire_cli k now) = keep (expire_cli_observation s k now)
  perform s (observe_cli k turn event now) =
      keep (observe_cli_turn_event e.close_texts s k turn event now)
  perform s (observe_codex k turn event now) =
      keep (observe_codex_app_server_turn_event e.close_texts s k turn event now)
  perform s (clean_up now) = sweep e.sweep_texts s now
  perform s (clean_up_codex now) = sweep_codex_app_server_delivery_cleanup s now

  unfoldable pub step : Store → Call → Store
  unfolding perform
  step s c = elim (perform s c) [ ok t ↦ t | err x ↦ s ]

  unfoldable pub run : Store → List Call → Store
  unfolding step
  run s [] = s
  run s (c ∷ cs) = run (step s c) cs

-- A new database.
abbrev pub empty_store : Store
empty_store = record {
  jobs = [];
  artifacts = [];
  batches = [];
  batch_jobs = [];
  cli_managed_sessions = [];
  delivery_attempts = [];
  plugin_delivery_requests = [];
  audit_decisions = [];
}
