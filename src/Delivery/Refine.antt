-- ===== src/Delivery/Refine.antt =====
-- The calls of the store as runs of moves. Here are the runs of their smaller parts.
pub mod Begin
pub mod Settle
pub mod Refuse
pub mod Turns
pub mod Observe
pub mod Close
pub mod Sweep
pub mod Sessions
pub mod Attach
pub mod Notes
pub mod Jobs
pub mod Plugin
use codex_background_task_ha.Base.{
  ℕ, zero, suc, ◌+◌, ◌≤◌, ◌<◌, max, ◌≡◌, refl, sym, ap, ◌∙◌, subst, ◌↔◌, ◌⊎◌, inl, inr, Bool, true,
  false, not, ◌&&◌, ◌||◌, Option, none, some, List, [], ◌∷◌, ◌++◌, arith, ltb, leb, ◌==◌,
  if◌then◌else◌, column_eq, is_some, is_none, ==_refl, eq_of_==, Bool-cases, Option-cases, &&_left,
  &&_right, All, All-map, All-All, All-find, All-update, update_where, find_where, any_where,
  count_where, select_where, find_test, any_of_find, any_find, none_of_any, any-append, any-update,
  Keyed, Keyed-find, Evolve, Evolve-find, Evolve-refl, Evolve-update, Pointwise, Pointwise-refl,
  Pointwise-update, Pointwise-update_All, Error, Result, ok, err, is_ok, ◌>>=◌, ◌>>◌, guard, found,
  Post, post_bind, post_seq, post_guard, post_ok, post_err, post_if, guard-true, found-some,
}
use codex_background_task_ha.Models.{
  JobStatus, TaskStatus, BatchState, ReplayPolicy, SessionState, ActivityState, AdapterKind,
  AuthorizationMode, AttemptState, RpcKind, RpcState, ObservationState, TurnEvent, i64_max,
  default_redelivery_window_seconds, post_close_artifact_ttl_seconds, is_pending, is_queued,
  is_open, is_automatic, is_attached, is_parkable, is_retired, activity_eq, adapter_eq, mode_eq,
  is_active, is_accept_pending, is_cooldown, is_abandoned, is_ended, is_prepared, is_arm_pending,
  rpc_kind_eq, is_pending_acceptance, is_accepted, is_rejected_before_accept, is_unknown,
  is_tracking, is_expired, is_lost, is_unsettled, is_turn_completed, is_terminal_event, event_eq,
  DeliveryPolicy, Summary, JobRecord, ArtifactRecord, BatchRecord, NewBatch, BatchJob,
  DeliveryAttemptRecord, CliManagedSessionCapabilities, CliManagedSessionRecord, AuditDecision,
  NewJob, NewArtifact, NewCliAcceptPendingAttempt, NewCodexAppServerAcceptPendingAttempt,
  CliManagedSessionProfile, CliManagedSessionProfileRequirement, CliManagedSessionPermissions,
  NewCliManagedSessionPermissionSnapshot,
}
use codex_background_task_ha.Store.{Store, checked_timestamp_add, query_delivery_attempt_tx}
use codex_background_task_ha.Store.Fences.{
  no_capabilities, clear_proof, clear_all_proofs, next_epoch,
  invalidate_cli_managed_session_activity_tx, detach_cli_managed_session_tx, park_session,
  park_cli_managed_session_tx,
}
use codex_background_task_ha.Store.Batches.{
  new_batch_row, insert_batch_tx, query_active_cli_attempt_session_fences_for_batch_tx,
  invalidate_fences, close_batch, close_attempt, is_open_batch, close_batch_rows, close_batch_tx,
  is_job_of, extend_closed_batch_artifact_retention_tx, manualize_batch, manualize_rows,
  manualize_codex_app_server_batch_tx, manualize_cli_batch_after_pre_accept_rejection_tx,
  invalidate_and_park, manualize_cli_batch_after_observation_loss_tx, count_delivery, has_budget,
  count_delivery_tx,
}
use codex_background_task_ha.Store.Attempts.{Reply, reply}
use codex_background_task_ha.Delivery.Edges.{
  BatchEdge, BatchEdge-refl, BatchEdge-trans, spends, is_closed, AttemptEdge, AttemptEdge-refl,
  AttemptEdge-trans, Calm, SessionEdge, SessionEdge-refl, SessionEdge-trans, JobEdge, JobEdge-refl,
  JobEdge-trans,
}
use codex_background_task_ha.Delivery.Moves.{
  edit_artifacts, Tame, Move, edit_attempts, edit_batches, close, spend, add_attempt, add_batch,
  edit_sessions, add_session, edit_jobs, add_job, Moves, stay, follow, one, Moves-trans,
}

pub Calm-refl : (a : DeliveryAttemptRecord) → Calm a a
Calm-refl a = record { edge = AttemptEdge-refl a; same_spending = refl; starts_none = λ h. h }

pub Tame-refl : (b : BatchRecord) → Tame b b
Tame-refl b = record { edge = BatchEdge-refl b; same_state = refl; same_count = refl }

-- A result of a call that starts where a run of moves ends.
pub after {ℓ} :
    {A : Type ℓ} {s t : Store} (g : A → Store) (m : Result A)
    → Moves s t
    → Post m (λ r. Moves t (g r))
    → Post m (λ r. Moves s (g r))
after g m p h a e = Moves-trans p (h a e)

module _ (s : Store) where
  pub Calm-update :
      (t : DeliveryAttemptRecord → Bool) (f : DeliveryAttemptRecord → DeliveryAttemptRecord)
      → ((x : DeliveryAttemptRecord) → t x ≡ true → Calm x (f x))
      → Moves s (record s { delivery_attempts = update_where t f s.delivery_attempts })
  Calm-update t f h =
      one (edit_attempts _ (Pointwise-update Calm Calm-refl t f s.delivery_attempts h))

  pub Tame-update :
      (t : BatchRecord → Bool) (f : BatchRecord → BatchRecord)
      → ((x : BatchRecord) → t x ≡ true → Tame x (f x))
      → Moves s (record s { batches = update_where t f s.batches })
  Tame-update t f h = one (edit_batches _ (Pointwise-update Tame Tame-refl t f s.batches h))

  pub session_update :
      (t : CliManagedSessionRecord → Bool) (f : CliManagedSessionRecord → CliManagedSessionRecord)
      → ((x : CliManagedSessionRecord) → t x ≡ true → SessionEdge x (f x))
      → Moves s (record s { cli_managed_sessions = update_where t f s.cli_managed_sessions })
  session_update t f h =
      one (
        edit_sessions _
          (Pointwise-update SessionEdge SessionEdge-refl t f s.cli_managed_sessions h))

  pub reply-Moves : (k : ℕ) {r : Store} → Moves r s → Post (reply s k) (λ p. Moves r p.0)
  unfolding reply
  reply-Moves k p = post_bind _ _ λ a e. post_ok (λ p. Moves _ p.0) (s, a) p

  pub invalidate-Moves :
      (session epoch : Option ℕ) (now : ℕ)
      → Moves s (invalidate_cli_managed_session_activity_tx s session epoch now)
  unfolding invalidate_cli_managed_session_activity_tx next_epoch clear_proof
  invalidate-Moves none epoch now = stay
  invalidate-Moves (some k) none now = stay
  invalidate-Moves (some k) (some epoch) now = session_update _ (next_epoch now) λ c h. ground arith

  pub detach-Moves : (k now : ℕ) → Moves s (detach_cli_managed_session_tx s k now)
  unfolding detach_cli_managed_session_tx
  detach-Moves k now = session_update _ _ λ c h. ground arith

  pub park-Moves :
      (session : Option ℕ) (now : ℕ) → Moves s (park_cli_managed_session_tx s session now)
  unfolding park_cli_managed_session_tx park_session clear_all_proofs
  park-Moves none now = stay
  park-Moves (some k) now = session_update _ (park_session now) λ c h. ground arith

  manualize-Tame :
      (k window now : ℕ) (b : BatchRecord)
      → is_open_batch k b ≡ true
      → Tame b (manualize_batch window now b)
  unfolding is_open_batch manualize_batch
  manualize-Tame k window now b h = ground arith

  pub manualize-Moves : (k window now : ℕ) → Moves s (manualize_rows s k window now)
  unfolding manualize_rows
  manualize-Moves k window now =
      Tame-update (is_open_batch k) (manualize_batch window now) (manualize-Tame k window now)

  pub extend-Moves :
      (k now : ℕ) → Post (extend_closed_batch_artifact_retention_tx s k now) (Moves s)
  unfolding extend_closed_batch_artifact_retention_tx
  extend-Moves k now = post_bind _ _ λ until e. post_ok (Moves s) _ (one (edit_artifacts _))

pub invalidate_and_park-Moves :
    (s : Store) (session epoch : Option ℕ) (now : ℕ)
    → Moves s (invalidate_and_park s session epoch now)
unfolding invalidate_and_park
invalidate_and_park-Moves s session epoch now =
    Moves-trans (invalidate-Moves s session epoch now) (park-Moves _ session now)

pub invalidate_fences-Moves :
    (fences : List DeliveryAttemptRecord) (now : ℕ) (s : Store)
    → Moves s (invalidate_fences fences now s)
unfolding invalidate_fences
invalidate_fences-Moves [] now s = stay
invalidate_fences-Moves (a ∷ rest) now s =
    Moves-trans (invalidate-Moves s a.managed_session_id a.session_epoch now)
      (invalidate_fences-Moves rest now _)
