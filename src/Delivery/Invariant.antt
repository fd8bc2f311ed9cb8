-- ===== src/Delivery/Invariant.antt =====
-- The invariant of the tables between two calls; the children take it through the moves.
pub mod Attempts
pub mod Batches
pub mod Spending
pub mod Others
use codex_background_task_ha.Base.{
  ℕ, zero, suc, ◌+◌, ◌≤◌, ◌≡◌, refl, sym, ap, ◌∙◌, Bool, true, false, not, ◌&&◌, Option, none, some,
  List, [], ◌∷◌, ◌++◌, arith, ltb, inl, inr, ◌==◌, All, All-append, All-map, All-find, Keyed,
  Keyed-append, update_where, find_where, any_where, count_where, Pointwise, Pointwise-All,
  Pointwise-Keyed, Pointwise-any, Pointwise-count, Pointwise-count_le, count-append, count-none,
  any-append, Bool-cases,
}
use codex_background_task_ha.Models.{
  JobRecord, ArtifactRecord, BatchRecord, NewBatch, BatchJob, DeliveryAttemptRecord,
  CliManagedSessionRecord, AuditDecision, BatchState, is_open, is_automatic, is_active, is_retired,
  is_pending,
}
use codex_background_task_ha.Store.{Store, batch_open_in, in_flight}
use codex_background_task_ha.Store.Batches.{
  close_batch, is_open_batch, new_batch_row, has_budget, count_delivery,
}
use codex_background_task_ha.Store.Outcomes.{is_pending_attempt}
use codex_background_task_ha.Delivery.Edges.{
  BatchEdge, AttemptEdge, Calm, SessionEdge, JobEdge, spends,
}
use codex_background_task_ha.Delivery.Moves.{
  Move, Moves, Tame, edit_attempts, edit_batches, close, spend, add_attempt, add_batch,
  edit_sessions, add_session, edit_jobs, add_job, edit_artifacts, edit_audits, stay, follow,
}

abbrev pub is_of : ℕ → BatchRecord → Bool
is_of k b = b.batch_id == k

-- The attempts of a batch that used up a delivery.
abbrev pub spent_on : ℕ → DeliveryAttemptRecord → Bool
spent_on k a = a.batch_id == k && spends a

abbrev pub active_in : ℕ → DeliveryAttemptRecord → Bool
active_in thread a = a.source_thread_id == thread && is_active a.state

abbrev pub bound_to : ℕ → CliManagedSessionRecord → Bool
bound_to thread c = c.bound_thread_id == thread && not (is_retired c.session_state)

-- The batch of the attempt is there; while the attempt is active, its batch is open.
pub record Housed (bs : List BatchRecord) (a : DeliveryAttemptRecord) : Type 0 where
  pub has_batch : any_where (is_of a.batch_id) bs ≡ true
  pub active_open : is_active a.state ≡ true → batch_open_in bs a.batch_id ≡ true

-- The deliveries of the batch are within its budget, and each is an attempt's.
pub record Accounted (rows : List DeliveryAttemptRecord) (b : BatchRecord) : Type 0 where
  pub budget : b.delivery_attempt_count ≤ b.max_delivery_attempts
  pub exact : count_where (spent_on b.batch_id) rows ≡ b.delivery_attempt_count

pub record Inv (s : Store) : Type 0 where
  pub jobs_keyed : Keyed (λ j. j.job_id) s.jobs
  pub batches_keyed : Keyed (λ b. b.batch_id) s.batches
  pub attempts_keyed : Keyed (λ a. a.attempt_id) s.delivery_attempts
  pub sessions_keyed : Keyed (λ c. c.managed_session_id) s.cli_managed_sessions
  pub housed : All (Housed s.batches) s.delivery_attempts
  pub accounted : All (Accounted s.delivery_attempts) s.batches
  pub single_flight : (thread : ℕ) → count_where (active_in thread) s.delivery_attempts ≤ 1
  pub single_session : (thread : ℕ) → count_where (bound_to thread) s.cli_managed_sessions ≤ 1
