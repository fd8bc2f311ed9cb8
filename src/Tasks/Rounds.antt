-- ===== src/Tasks/Rounds.antt =====
-- One round of the recovery: `fail_job` and `finish_task` on a lost task.
use codex_background_task_ha.Base.{
  ℕ, ◌≤◌, ◌≡◌, refl, ap, ◌∙◌, subst, true, false, none, some, List, [], ◌∷◌, ◌++◌, arith, ◌==◌,
  is_none, eq_of_==, update_where, any_where, find_test, any-append, Error, Result, ok, err, found,
  found-some,
}
use codex_background_task_ha.Models.{
  JobStatus, TaskEnd, i64_max, is_pending, JobRecord, TaskRecord, BatchRecord, TaskFinishUpdate,
}
use codex_background_task_ha.Store.{Store, query_job_tx}
use codex_background_task_ha.Store.Batches.{new_batch_row}
use codex_background_task_ha.Store.Jobs.{fail_job_row, update_job, fail_job}
use codex_background_task_ha.Tasks.Calls.{
  update_task, finish_row, finish_task, clamp_redelivery_window_seconds_for_timestamp,
}
use codex_background_task_ha.Tasks.Recovery.{
  RecoveryEnv, LostTaskRecovery, ending, lost_end, lost_reason, failed_reason, lost_update, Outcome,
  fail_lost_job, finish_lost_task, recover_task,
}
use codex_background_task_ha.Base.{find-update_other}
use codex_background_task_ha.Base.{coalesce, or_else}
use codex_background_task_ha.Tasks.Reasons.{task_status_from_failure_reason}
use codex_background_task_ha.Tasks.{Supervision, query_task_tx}
use codex_background_task_ha.Tasks.Endings.{
  failed_batch, queued_store, fail_job_lem, finish_task_lem,
}

-- A lost task whose row and job are as they were when the query was made.
pub record Good (s : Supervision) (l : LostTaskRecovery) : Type 0 where
  pub task : TaskRecord
  pub job : JobRecord
  pub has_task : query_task_tx s l.task_id ≡ ok task
  pub live : is_none task.completed_at ≡ true
  pub same_generation : task.supervisor_daemon_generation ≡ l.supervisor_daemon_generation
  pub has_job : query_job_tx s.store l.job_id ≡ ok job
  pub same_status : job.status ≡ l.job_status

module _ (e : RecoveryEnv) (now : ℕ) where
  -- What a round changes: the row of the task, its job, and one batch with a new identifier.
  pub record Round (s s' : Supervision) (l : LostTaskRecovery) : Type 0 where
    pub tasks :
        s'.tasks
        ≡ update_where
            (λ (x : TaskRecord). x.task_id == l.task_id)
            (finish_row (lost_update e now l))
            s.tasks
    pub jobs :
        (k : ℕ) (j : JobRecord)
        → (l.job_id == k) ≡ false
        → query_job_tx s.store k ≡ ok j
        → query_job_tx s'.store k ≡ ok j
    pub batches :
        (k : ℕ)
        → (e.new_id l.job_id == k) ≡ false
        → any_where (λ (b : BatchRecord). b.batch_id == k) s.store.batches ≡ false
        → any_where (λ (b : BatchRecord). b.batch_id == k) s'.store.batches ≡ false

  -- The store after the first transaction.
  abbrev after_job : Supervision → LostTaskRecovery → JobRecord → Store
  after_job s l j = elim l.job_status [
    | JobStatus.pending ↦
        queued_store (e.new_id l.job_id) l.job_id (lost_reason e l) now l.max_delivery_attempts
          l.redelivery_window_seconds s.store j
    | _ ↦ s.store
  ]

  fail_lost_lem :
      (s : Supervision) (l : LostTaskRecovery) (g : Good s l)
      → now ≤ i64_max
      → any_where (λ (b : BatchRecord). b.batch_id == e.new_id l.job_id) s.store.batches ≡ false
      → fail_lost_job e now s l ≡ (record s { store = after_job s l g.job }, ok tt)
  unfolding fail_lost_job
  fail_lost_lem s l g in_time fresh = go l.job_status g.same_status
    where
      outcome : Result (Store × BatchRecord) → Outcome e (Unit {0})
      outcome m = elim m [ ok p ↦ (record s { store = p.0 }, ok tt) | err x ↦ (s, err x) ]

      go :
          (st : JobStatus)
          → g.job.status ≡ st
          → (elim st as (λ _. Outcome e (Unit {0})) [
            | JobStatus.pending ↦
                elim (fail_job
                  (e.new_id l.job_id)
                  s.store
                  l.job_id
                  (lost_reason e l)
                  now
                  l.max_delivery_attempts
                  (clamp_redelivery_window_seconds_for_timestamp now l.redelivery_window_seconds)) [
                    | ok p ↦ (record s { store = p.0 }, ok tt)
                    | err x ↦ (s, err x)
                  ]
            | _ ↦ (s, ok tt)
          ])
            ≡ (
              record s {
                store = elim st as (λ _. Store) [
                  | JobStatus.pending ↦
                      queued_store
                        (e.new_id l.job_id)
                        l.job_id
                        (lost_reason e l)
                        now
                        l.max_delivery_attempts
                        l.redelivery_window_seconds
                        s.store
                        g.job
                  | _ ↦ s.store
                ];
              },
              ok tt,
            )
      go JobStatus.pending same = ap outcome (
          fail_job_lem (e.new_id l.job_id) l.job_id (lost_reason e l) now l.max_delivery_attempts
            l.redelivery_window_seconds s.store g.job g.has_job (ap is_pending same) in_time fresh)
      go JobStatus.completed same = refl
      go JobStatus.failed same = refl

  pub lost_update_id : (l : LostTaskRecovery) → (lost_update e now l).task_id ≡ l.task_id
  unfolding lost_update
  lost_update_id l = go l.job_status
    where
      go :
          (st : JobStatus)
          → (elim st as (λ _. TaskFinishUpdate) [
            | JobStatus.pending ↦
                ending e l.task_id (lost_end e l) now none (some (lost_reason e l))
            | JobStatus.completed ↦
                ending e l.task_id TaskEnd.succeeded (coalesce l.job_completed_at now) (some 0) none
            | JobStatus.failed ↦
                ending e l.task_id
                  (coalesce
                    (task_status_from_failure_reason (e.bytes (failed_reason e l)))
                    TaskEnd.failed)
                  (coalesce (or_else l.job_failed_at l.job_completed_at) now)
                  none
                  (some (failed_reason e l))
          ]).task_id
            ≡ l.task_id
      go JobStatus.pending = refl
      go JobStatus.completed = refl
      go JobStatus.failed = refl

  abbrev pub after_round : Supervision → LostTaskRecovery → JobRecord → Supervision
  after_round s l j =
      update_task (record s { store = after_job s l j }) l.task_id
        (finish_row (lost_update e now l))

  pub recover_task_lem :
      (s : Supervision) (l : LostTaskRecovery) (g : Good s l)
      → now ≤ i64_max
      → any_where (λ (b : BatchRecord). b.batch_id == e.new_id l.job_id) s.store.batches ≡ false
      → recover_task e now s l ≡ (after_round s l g.job, ok tt)
  unfolding recover_task finish_lost_task query_task_tx
  recover_task_lem s l g in_time fresh =
      let s₁ = record s { store = after_job s l g.job } in
      let u = lost_update e now l in
      let id = lost_update_id l in
      let there : query_task_tx s₁ u.task_id ≡ ok g.task = rw id g.has_task in
      let ended_ : finish_task s₁ u
          ≡ ok (update_task s₁ l.task_id (finish_row u), finish_row u g.task) =
        subst (λ k. finish_task s₁ u ≡ ok (update_task s₁ k (finish_row u), finish_row u g.task)) id
          (finish_task_lem s₁ u g.task there g.live) in
      ap (λ o. finish_lost_task e now o l) (fail_lost_lem s l g in_time fresh)
      ∙ ap
          (λ (m : Result (Supervision × TaskRecord)). elim m as (λ _. Outcome e (Unit {0})) [
            | ok p ↦ (p.0, ok tt)
            | err x ↦ (s₁, err x)
          ])
          ended_

  other_job :
      (a k reason at : ℕ) (s : Store) (i : JobRecord)
      → (a == k) ≡ false
      → query_job_tx s k ≡ ok i
      → query_job_tx (update_job s a (fail_job_row reason at)) k ≡ ok i
  unfolding query_job_tx update_job found fail_job_row
  other_job a k reason at s i other there =
      let here = found-some _ _ _ there in
      let id = eq_of_== i.job_id k (find_test _ s.jobs i here) in
      ap (λ o. found o Error.job_not_found)
        (find-update_other (λ x. x.job_id == k) (λ x. x.job_id == a) (fail_job_row reason at) s.jobs
          i (λ x _. refl) here (ground arith))

  none_behind :
      (k : ℕ) (bs : List BatchRecord) (b : BatchRecord)
      → (b.batch_id == k) ≡ false
      → any_where (λ (b : BatchRecord). b.batch_id == k) bs ≡ false
      → any_where (λ (b : BatchRecord). b.batch_id == k) (bs ++ b ∷ []) ≡ false
  unfolding any_where
  none_behind k bs b other h =
      any-append (λ (b : BatchRecord). b.batch_id == k) bs (b ∷ []) ∙ ground arith

  pub after-Round :
      (s : Supervision) (l : LostTaskRecovery) (j : JobRecord) → Round s (after_round s l j) l
  unfolding update_task query_job_tx update_job new_batch_row
  after-Round s l j = record {
    tasks = refl;
    jobs = job_kept l.job_status;
    batches = batch_kept l.job_status;
  }
    where
      store_of : JobStatus → Store
      store_of st = elim st [
        | JobStatus.pending ↦
            queued_store (e.new_id l.job_id) l.job_id (lost_reason e l) now l.max_delivery_attempts
              l.redelivery_window_seconds s.store j
        | _ ↦ s.store
      ]

      job_kept :
          (st : JobStatus) (k : ℕ) (i : JobRecord)
          → (l.job_id == k) ≡ false
          → query_job_tx s.store k ≡ ok i
          → query_job_tx (store_of st) k ≡ ok i
      job_kept JobStatus.pending k i other there =
          other_job l.job_id k (lost_reason e l) now s.store i other there
      job_kept JobStatus.completed k i other there = there
      job_kept JobStatus.failed k i other there = there

      batch_kept :
          (st : JobStatus) (k : ℕ)
          → (e.new_id l.job_id == k) ≡ false
          → any_where (λ (b : BatchRecord). b.batch_id == k) s.store.batches ≡ false
          → any_where (λ (b : BatchRecord). b.batch_id == k) (store_of st).batches ≡ false
      batch_kept JobStatus.pending k other none_ =
          none_behind k s.store.batches
            (new_batch_row (
              failed_batch (e.new_id l.job_id) l.job_id (lost_reason e l) now
                l.max_delivery_attempts l.redelivery_window_seconds j))
            other none_
      batch_kept JobStatus.completed k other none_ = none_
      batch_kept JobStatus.failed k other none_ = none_
