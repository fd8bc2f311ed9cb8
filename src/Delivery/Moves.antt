-- ===== src/Delivery/Moves.antt =====
-- The moves of which every call of the store is made, with the facts that the code has checked.
use codex_background_task_ha.Base.{
  ℕ, ◌≡◌, true, false, not, ◌&&◌, Option, some, List, [], ◌∷◌, ◌++◌, ◌==◌, update_where, find_where,
  any_where, count_where, Pointwise,
}
use codex_background_task_ha.Models.{
  JobRecord, ArtifactRecord, BatchRecord, NewBatch, BatchJob, DeliveryAttemptRecord,
  CliManagedSessionRecord, AuditDecision, PluginDeliveryRequestRecord, is_open, is_automatic,
  is_active, is_retired,
}
use codex_background_task_ha.Store.{Store, in_flight}
use codex_background_task_ha.Store.Batches.{
  close_batch, is_open_batch, new_batch_row, has_budget, count_delivery,
}
use codex_background_task_ha.Store.Outcomes.{is_pending_attempt}
use codex_background_task_ha.Delivery.Edges.{
  BatchEdge, AttemptEdge, Calm, SessionEdge, JobEdge, spends,
}

-- An edge of a batch that neither closes it nor counts a delivery.
pub record Tame (b c : BatchRecord) : Type 0 where
  pub edge : BatchEdge b c
  pub same_state : c.state ≡ b.state
  pub same_count : c.delivery_attempt_count ≡ b.delivery_attempt_count

pub data Move (s : Store) : Store → Type 0 where
  edit_attempts :
      (rows : List DeliveryAttemptRecord)
      → Pointwise Calm s.delivery_attempts rows
      → Move s (record s { delivery_attempts = rows })
  edit_batches :
      (rows : List BatchRecord)
      → Pointwise Tame s.batches rows
      → Move s (record s { batches = rows })
  -- a batch closes when none of its attempts is active
  close :
      (k reason : ℕ) (note : Option ℕ) (now : ℕ)
      → any_where (λ a. a.batch_id == k && is_active a.state) s.delivery_attempts ≡ false
      → Move s (record s {
        batches = update_where (is_open_batch k) (close_batch reason note now) s.batches;
      })
  -- a pending attempt uses up one delivery of its batch, which has one left
  spend :
      (k : ℕ) (a : DeliveryAttemptRecord) (f : DeliveryAttemptRecord → DeliveryAttemptRecord)
      (now : ℕ)
      → find_where (λ x. x.attempt_id == k) s.delivery_attempts ≡ some a
      → is_pending_attempt k a ≡ true
      → spends (f a) ≡ true
      → ((x : DeliveryAttemptRecord) → is_pending_attempt k x ≡ true → AttemptEdge x (f x))
      → count_where (has_budget a.batch_id) s.batches ≡ 1
      → Move s (record s {
        delivery_attempts = update_where (is_pending_attempt k) f s.delivery_attempts;
        batches = update_where (has_budget a.batch_id) (count_delivery now) s.batches;
      })
  -- an attempt starts on an open, automatic batch of a thread with none in flight
  add_attempt :
      (row : DeliveryAttemptRecord) (b : BatchRecord)
      → find_where (λ c. c.batch_id == row.batch_id) s.batches ≡ some b
      → is_open b.state ≡ true
      → is_automatic b.replay_policy ≡ true
      → any_where (in_flight s.batches row.source_thread_id) s.delivery_attempts ≡ false
      → any_where (λ a. a.attempt_id == row.attempt_id) s.delivery_attempts ≡ false
      → spends row ≡ false
      → Move s (record s { delivery_attempts = s.delivery_attempts ++ row ∷ [] })
  add_batch :
      (b : NewBatch) (rows : List BatchJob)
      → any_where (λ c. c.batch_id == b.batch_id) s.batches ≡ false
      → Move s (record s { batches = s.batches ++ new_batch_row b ∷ []; batch_jobs = rows })
  edit_sessions :
      (rows : List CliManagedSessionRecord)
      → Pointwise SessionEdge s.cli_managed_sessions rows
      → Move s (record s { cli_managed_sessions = rows })
  add_session :
      (row : CliManagedSessionRecord)
      → any_where (λ c. c.managed_session_id == row.managed_session_id) s.cli_managed_sessions
        ≡ false
      → any_where
          (λ c. c.bound_thread_id == row.bound_thread_id && not (is_retired c.session_state))
          s.cli_managed_sessions
        ≡ false
      → Move s (record s { cli_managed_sessions = s.cli_managed_sessions ++ row ∷ [] })
  edit_jobs :
      (rows : List JobRecord) → Pointwise JobEdge s.jobs rows → Move s (record s { jobs = rows })
  add_job :
      (row : JobRecord)
      → any_where (λ j. j.job_id == row.job_id) s.jobs ≡ false
      → Move s (record s { jobs = s.jobs ++ row ∷ [] })
  edit_artifacts : (rows : List ArtifactRecord) → Move s (record s { artifacts = rows })
  add_request :
      (row : PluginDeliveryRequestRecord)
      → Move s (record s { plugin_delivery_requests = s.plugin_delivery_requests ++ row ∷ [] })
  edit_audits : (rows : List AuditDecision) → Move s (record s { audit_decisions = rows })

-- A run of moves.
pub data Moves (s : Store) : Store → Type 0 where
  stay : Moves s s
  follow : {t u : Store} → Moves s t → Move t u → Moves s u

pub one : {s t : Store} → Move s t → Moves s t
one m = follow stay m

pub Moves-trans : {s t u : Store} → Moves s t → Moves t u → Moves s u
Moves-trans p stay = p
Moves-trans p (follow q m) = follow (Moves-trans p q) m
