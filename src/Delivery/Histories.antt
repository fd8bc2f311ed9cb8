-- ===== src/Delivery/Histories.antt =====
-- Each call as a run of moves, and histories of calls.
use codex_background_task_ha.Base.{
  Bool, refl, List, [], ◌∷◌, arith, count_where, Option, Result, ok, err, Post, post_ok, post_err,
}
use codex_background_task_ha.Store.{Store}
use codex_background_task_ha.Delivery.Moves.{Moves, stay, Moves-trans}
use codex_background_task_ha.Delivery.Invariant.{Inv}
use codex_background_task_ha.Delivery.Preserve.{Moves-Inv}
use codex_background_task_ha.Delivery.Growth.{Grows, Moves-Grows}
use codex_background_task_ha.Delivery.Calls.{Env, Call, keep, perform, step, run, empty_store}
use codex_background_task_ha.Delivery.Refine.Begin.{
  begin_cli_accept_pending_attempt-Moves,
  begin_codex_app_server_accept_pending_attempt_with_created-Moves,
}
use codex_background_task_ha.Models.{PluginDeliveryEnqueueRecord, DeliveryAttemptRecord}
use codex_background_task_ha.Store.Plugin.Validation.{is_path_component}
use codex_background_task_ha.Delivery.Refine.Plugin.{enqueue-Moves, enqueue_if_head-Moves}
use codex_background_task_ha.Delivery.Refine.Settle.{
  accept_cli_attempt-Moves, accept_codex_app_server_attempt-Moves,
}
use codex_background_task_ha.Delivery.Refine.Refuse.{
  reject_cli_attempt_before_accept-Moves, reject_codex_app_server_attempt_before_accept-Moves,
  abandon_codex_app_server_attempt_as_unknown-Moves, expire_cli_observation-Moves,
}
use codex_background_task_ha.Delivery.Refine.Observe.{
  observe_codex_app_server_turn_event-Moves, observe_cli_turn_event-Moves,
}
use codex_background_task_ha.Delivery.Refine.Sweep.{
  sweep-Moves, sweep_codex_app_server_delivery_cleanup-Moves,
}
use codex_background_task_ha.Delivery.Refine.Sessions.{retire_cli_managed_session-Moves}
use codex_background_task_ha.Delivery.Refine.Attach.{attach_or_create_cli_managed_session-Moves}
use codex_background_task_ha.Delivery.Refine.Notes.{
  note_cli_managed_session_activity-Moves, note_cli_managed_session_capabilities-Moves,
  note_cli_managed_session_permissions-Moves, invalidate_cli_managed_session_proof-Moves,
  invalidate_cli_managed_session_current_proof-Moves,
}
use codex_background_task_ha.Delivery.Refine.Jobs.{
  submit_job_for_supervisor_generation-Moves, complete_job-Moves, fail_job_with_artifact-Moves,
  fail_job-Moves, close_head-Moves, manualize_plugin_delivery-Moves,
}

post_keep {ℓ} :
    {A : Type ℓ} (s : Store) (m : Result (Store × A))
    → Post m (λ p. Moves s p.0)
    → Post (keep m) (Moves s)
unfolding keep
post_keep s (ok p) h = post_ok (Moves s) p.0 (h p refl)
post_keep s (err e) h = post_err (Moves s) e

module _ (e : Env) where
  perform-Moves : (s : Store) (c : Call) → Inv s → Post (perform e s c) (Moves s)
  unfolding perform
  perform-Moves s (Call.submit j generation) v =
      post_keep s _ (submit_job_for_supervisor_generation-Moves s j generation)
  perform-Moves s (Call.complete id f summary now n w) v =
      post_keep s _ (complete_job-Moves id s f summary now n w v.jobs_keyed)
  perform-Moves s (Call.fail id j reason now n w) v =
      post_keep s _ (fail_job-Moves id s j reason now n w v.jobs_keyed)
  perform-Moves s (Call.fail_with_artifact id f reason now n w) v =
      post_keep s _ (fail_job_with_artifact-Moves id s f reason now n w v.jobs_keyed)
  perform-Moves s (Call.close_thread_head thread reason note now) v =
      post_keep s _ (close_head-Moves s thread reason note now)
  perform-Moves s (Call.withdraw b reason now) v =
      post_keep s _ (manualize_plugin_delivery-Moves s b reason now)
  perform-Moves s (Call.bind t thread p r now) v =
      post_keep s _ (attach_or_create_cli_managed_session-Moves s t thread p r now v.sessions_keyed)
  perform-Moves s (Call.retire audit_id c reason now) v =
      post_keep s _ (retire_cli_managed_session-Moves s e.operator_retire audit_id c reason now)
  perform-Moves s (Call.note_activity c epoch a revision now) v =
      post_keep s _ (note_cli_managed_session_activity-Moves s c epoch a revision now)
  perform-Moves s (Call.note_capabilities c epoch revision p now) v =
      post_keep s _ (note_cli_managed_session_capabilities-Moves s c epoch revision p now)
  perform-Moves s (Call.note_permissions c epoch n now) v =
      post_keep s _ (note_cli_managed_session_permissions-Moves s c epoch n now)
  perform-Moves s (Call.lose_proof c epoch now) v =
      post_keep s _ (invalidate_cli_managed_session_proof-Moves s c epoch now)
  perform-Moves s (Call.lose_current_proof c thread now) v =
      post_keep s _ (invalidate_cli_managed_session_current_proof-Moves s c thread now)
  perform-Moves s (Call.begin_cli r) v = post_keep s _ (begin_cli_accept_pending_attempt-Moves s r)
  perform-Moves s (Call.enqueue_alone d) v = post_keep s _ (enqueue-Moves s e.bytes d)
  perform-Moves s (Call.enqueue d attempt) v =
      post_keep {A = PluginDeliveryEnqueueRecord × Option DeliveryAttemptRecord} s _
        (enqueue_if_head-Moves s e.bytes d attempt)
  perform-Moves s (Call.begin_codex r) v = post_keep {A = DeliveryAttemptRecord × Bool} s _ (
      begin_codex_app_server_accept_pending_attempt_with_created-Moves s (is_path_component e.bytes)
        r)
  perform-Moves s (Call.accept_cli k turn now deadline) v =
      post_keep s _ (accept_cli_attempt-Moves s k turn now deadline)
  perform-Moves s (Call.accept_codex k turn now deadline) v =
      post_keep s _ (accept_codex_app_server_attempt-Moves s k turn now deadline)
  perform-Moves s (Call.reject_cli k now manual) v =
      post_keep s _ (reject_cli_attempt_before_accept-Moves s k now manual v.attempts_keyed)
  perform-Moves s (Call.reject_codex k now manual) v =
      post_keep s _ (reject_codex_app_server_attempt_before_accept-Moves s k now manual)
  perform-Moves s (Call.give_up_codex k now manual) v =
      post_keep s _ (abandon_codex_app_server_attempt_as_unknown-Moves s k now manual)
  perform-Moves s (Call.expire_cli k now) v = post_keep s _ (expire_cli_observation-Moves s k now)
  perform-Moves s (Call.observe_cli k turn event now) v =
      post_keep s _ (observe_cli_turn_event-Moves e.close_texts s k turn event now v.attempts_keyed)
  perform-Moves s (Call.observe_codex k turn event now) v =
      post_keep s _ (observe_codex_app_server_turn_event-Moves e.close_texts s k turn event now)
  perform-Moves s (Call.clean_up now) v = sweep-Moves e.sweep_texts s now
  perform-Moves s (Call.clean_up_codex now) v = sweep_codex_app_server_delivery_cleanup-Moves s now

  pub step-Moves : (s : Store) (c : Call) → Inv s → Moves s (step e s c)
  unfolding step
  step-Moves s c v = go (perform e s c) (perform-Moves s c v)
    where
      go : (m : Result Store) → Post m (Moves s) → Moves s (elim m [ ok t ↦ t | err x ↦ s ])
      go (ok t) h = h t refl
      go (err x) h = stay

  -- A history of calls is a run of moves.
  pub run-Moves : (s : Store) (cs : List Call) → Inv s → Moves s (run e s cs)
  unfolding run
  run-Moves s [] v = stay
  run-Moves s (c ∷ cs) v =
      let m = step-Moves s c v in Moves-trans m (run-Moves (step e s c) cs (Moves-Inv m v))

pub empty-Inv : Inv empty_store
unfolding count_where
empty-Inv = record {
  jobs_keyed = tt;
  batches_keyed = tt;
  attempts_keyed = tt;
  sessions_keyed = tt;
  housed = tt;
  accounted = tt;
  single_flight = λ thread. omega arith;
  single_session = λ thread. omega arith;
}

module _ (e : Env) where
  -- After any history of the modelled calls on a new database, the tables are well formed.
  pub run-Inv : (cs : List Call) → Inv (run e empty_store cs)
  run-Inv cs = Moves-Inv (run-Moves e empty_store cs empty-Inv) empty-Inv

  -- From a well-formed store, a history only lets the rows move along their edges.
  pub run-Grows : (s : Store) (cs : List Call) → Inv s → Grows s (run e s cs)
  run-Grows s cs v = Moves-Grows (run-Moves e s cs v)
