-- ===== src/Tasks/Settling.antt =====
-- What `fail_supervised_task_with_job` leaves, and that a repeated call changes nothing.
use codex_background_task_ha.Base.{
  ℕ, ◌+◌, ◌≤◌, ◌≡◌, refl, sym, ap, ◌∙◌, subst, Bool, true, false, List, ◌==◌, if◌then◌else◌,
  then_of, is_none, eq_of_==, find_where, any_where, find_test, find-update, Error, ok, found, Post,
  post_bind, post_guard, post_ok, post_if, bind_of, found-some,
}
use codex_background_task_ha.Models.{
  i64_max, is_pending, JobRecord, TaskRecord, BatchRecord, NewBatch, TaskFinishUpdate,
}
use codex_background_task_ha.Store.{Store, query_job_tx}
use codex_background_task_ha.Store.Batches.{insert_batch_tx}
use codex_background_task_ha.Store.Jobs.{fail_job_row, update_job}
use codex_background_task_ha.Tasks.{Supervision, query_task_tx}
use codex_background_task_ha.Tasks.Calls.{
  update_task, finish_row, clamp_redelivery_window_seconds_for_timestamp, fail_pending_job,
  settle_update, fail_supervised_task_with_job,
}
use codex_background_task_ha.Tasks.Endings.{
  clamped_add, failed_store, failed_batch, queued_store, failed_job, insert_lem,
}

-- The job is over and so is the task.
record Settled (s : Supervision) (job_id : ℕ) (task_id : ℕ) : Type 0 where
  job : JobRecord
  has_job : query_job_tx s.store job_id ≡ ok job
  over : is_pending job.status ≡ false
  task : TaskRecord
  has_task : query_task_tx s task_id ≡ ok task
  has_ended : is_none task.completed_at ≡ false

insert_batch-jobs :
    (s : Store) (b : NewBatch) (k : ℕ) → Post (insert_batch_tx s b k) (λ t. t.jobs ≡ s.jobs)
unfolding insert_batch_tx
insert_batch-jobs s b k = post_guard _ _ _ λ _. post_ok (λ (t : Store). t.jobs ≡ s.jobs) _ refl

fail_pending-over :
    (id : ℕ) (s : Store) (k reason now attempts window : ℕ) (j : JobRecord)
    → query_job_tx s k ≡ ok j
    → Post
        (fail_pending_job id s k reason now attempts window j)
        (λ p. (query_job_tx p.0 k ≡ ok p.1) × (is_pending p.1.status ≡ false))
unfolding fail_pending_job query_job_tx fail_job_row
fail_pending-over id s k reason now attempts window j there =
    post_if (is_pending j.status) _ _
      (λ pending. post_bind _ _ λ i here. post_bind _ _ λ ends _. post_bind _ _ λ t e.
        let failed_ : i ≡ fail_job_row reason now j =
          cc (here, failed_job id k reason now attempts window s j there) in
        post_ok
          (λ (p : Store × JobRecord).
            (query_job_tx p.0 k ≡ ok p.1) × (is_pending p.1.status ≡ false))
          _
          (
            ap
                  (λ (js : List JobRecord).
                    found (find_where (λ x. x.job_id == k) js) Error.job_not_found)
                  (insert_batch-jobs _ _ _ t e)
                ∙ here,
            ap (λ (x : JobRecord). is_pending x.status) failed_,
          ))
      (λ over.
        post_ok
          (λ (p : Store × JobRecord).
            (query_job_tx p.0 k ≡ ok p.1) × (is_pending p.1.status ≡ false))
          _ (there, over))

fail_pending-skips :
    (id : ℕ) (s : Store) (k reason now attempts window : ℕ) (j : JobRecord)
    → is_pending j.status ≡ false
    → fail_pending_job id s k reason now attempts window j ≡ ok (s, j)
unfolding fail_pending_job
fail_pending-skips id s k reason now attempts window j over = rw over refl

-- The row of the task after the update that ends it.
pub ended_row :
    (s : Supervision) (k : ℕ) (u : TaskFinishUpdate) (t : TaskRecord)
    → query_task_tx s k ≡ ok t
    → query_task_tx (update_task s k (finish_row u)) k ≡ ok (finish_row u t)
unfolding query_task_tx update_task found finish_row
ended_row s k u t there =
    let here = found-some _ _ _ there in
    ap (λ o. found o Error.task_not_found)
      (find-update (λ x. x.task_id == k) (λ x. x.task_id == k) (finish_row u) s.tasks t
        (λ x _. refl) here (find_test _ s.tasks t here))

module _ (bytes : ℕ → List ℕ) where
  settle_task :
      (s : Supervision) (job_id : ℕ) (j : JobRecord) (u : TaskFinishUpdate) (t : TaskRecord)
      → query_job_tx s.store job_id ≡ ok j
      → is_pending j.status ≡ false
      → query_task_tx s u.task_id ≡ ok t
      → (b : Bool) → is_none t.completed_at ≡ b
      → Settled
          (if b then update_task s u.task_id (finish_row (settle_update bytes j u)) else s)
          job_id
          u.task_id
  unfolding update_task finish_row
  settle_task s job_id j u t has over there true live = record {
    job = j;
    has_job = has;
    over = over;
    task = finish_row (settle_update bytes j u) t;
    has_task = ended_row s u.task_id (settle_update bytes j u) t there;
    has_ended = refl;
  }
  settle_task s job_id j u t has over there false live = record {
    job = j;
    has_job = has;
    over = over;
    task = t;
    has_task = there;
    has_ended = live;
  }

  module _ (id : ℕ) (s : Supervision) (job_id reason : ℕ) (u : TaskFinishUpdate)
      (attempts window : ℕ) where
    fail_supervised-Settled :
        Post
          (fail_supervised_task_with_job bytes id s job_id reason u attempts window)
          (λ s'. Settled s' job_id u.task_id)
    unfolding fail_supervised_task_with_job
    fail_supervised-Settled = post_bind _ _ λ j there. post_bind _ _ λ p e.
        post_bind _ _ λ t found_.
          let after =
            fail_pending-over id s.store job_id reason u.completed_at attempts window j there p e in
          post_ok (λ s'. Settled s' job_id u.task_id) _
            (settle_task (record s { store = p.0 }) job_id p.1 u t after.0 after.1 found_
              (is_none t.completed_at) refl)

    Settled-stays :
        Settled s job_id u.task_id
        → fail_supervised_task_with_job bytes id s job_id reason u attempts window ≡ ok s
    unfolding fail_supervised_task_with_job
    Settled-stays h =
        bind_of _ _ h.job h.has_job
        ∙ bind_of _ _ (s.store, h.job)
            (fail_pending-skips id s.store job_id reason u.completed_at attempts window h.job
              h.over)
        ∙ bind_of _ _ h.task h.has_task
        ∙ ap
            (λ b.
              ok (
                if b
                then update_task s u.task_id (finish_row (settle_update bytes h.job u))
                else s))
            h.has_ended

-- When `fail_supervised_task_with_job` has succeeded, a second call for the same job and the same
-- task succeeds and changes nothing, whatever its reason, its update and its delivery bounds are.
pub repeated_failure_changes_nothing :
    (bytes : ℕ → List ℕ) (s s' : Supervision) (job_id : ℕ) (id reason attempts window : ℕ)
    (u : TaskFinishUpdate) (id' reason' attempts' window' : ℕ) (u' : TaskFinishUpdate)
    → fail_supervised_task_with_job bytes id s job_id reason u attempts window ≡ ok s'
    → u'.task_id ≡ u.task_id
    → fail_supervised_task_with_job bytes id' s' job_id reason' u' attempts' window' ≡ ok s'
repeated_failure_changes_nothing bytes s s' job_id id reason attempts window u id' reason' attempts'
      window' u' done same =
    Settled-stays bytes id' s' job_id reason' u' attempts' window' (
      subst (λ k. Settled s' job_id k) (sym same)
        (fail_supervised-Settled bytes id s job_id reason u attempts window s' done))

-- The failure of a pending job, with its batch.
fail_pending_lem :
    (id : ℕ) (s : Store) (k reason now attempts window : ℕ) (j : JobRecord)
    → query_job_tx s k ≡ ok j
    → is_pending j.status ≡ true
    → now ≤ i64_max
    → any_where (λ (b : BatchRecord). b.batch_id == id) s.batches ≡ false
    → fail_pending_job id s k reason now attempts window j
      ≡ ok (queued_store id k reason now attempts window s j, fail_job_row reason now j)
unfolding fail_pending_job query_job_tx fail_job_row update_job
fail_pending_lem id s k reason now attempts window j there pending in_time fresh =
    let failed_ = failed_store id k reason now attempts window s in
    let same : j.job_id ≡ k =
      eq_of_== j.job_id k
        (find_test (λ (x : JobRecord). x.job_id == k) s.jobs j (found-some _ _ _ there)) in
    let inserted : insert_batch_tx failed_ (failed_batch id k reason now attempts window j) j.job_id
        ≡ ok (queued_store id k reason now attempts window s j) =
      rw same (
        insert_lem id k reason now attempts window failed_
          (failed_batch id k reason now attempts window j) fresh) in
    then_of (is_pending j.status) _ _ pending
    ∙ bind_of _ _ (fail_job_row reason now j) (failed_job id k reason now attempts window s j there)
    ∙ bind_of _ _ (now + clamp_redelivery_window_seconds_for_timestamp now window)
        (clamped_add now window in_time)
    ∙ bind_of _ _ (queued_store id k reason now attempts window s j) inserted

-- The store that the failure of a pending job and its live task leaves.
pub fail_supervised_lem :
    (bytes : ℕ → List ℕ) (id : ℕ) (s : Supervision) (job_id reason : ℕ) (u : TaskFinishUpdate)
    (attempts window : ℕ) (j : JobRecord) (t : TaskRecord)
    → query_job_tx s.store job_id ≡ ok j
    → is_pending j.status ≡ true
    → query_task_tx s u.task_id ≡ ok t
    → is_none t.completed_at ≡ true
    → u.completed_at ≤ i64_max
    → any_where (λ (b : BatchRecord). b.batch_id == id) s.store.batches ≡ false
    → fail_supervised_task_with_job bytes id s job_id reason u attempts window
      ≡ ok (
          update_task
            (record s {
              store = queued_store id job_id reason u.completed_at attempts window s.store j;
            })
            u.task_id
            (finish_row (settle_update bytes (fail_job_row reason u.completed_at j) u)))
unfolding fail_supervised_task_with_job query_task_tx
fail_supervised_lem bytes id s job_id reason u attempts window j t there pending has live in_time
      fresh =
    bind_of _ _ j there
    ∙ bind_of _ _
        (
          queued_store id job_id reason u.completed_at attempts window s.store j,
          fail_job_row reason u.completed_at j,
        )
        (fail_pending_lem id s.store job_id reason u.completed_at attempts window j there pending
          in_time fresh)
    ∙ bind_of _ _ t has
    ∙ ap ok (then_of (is_none t.completed_at) _ _ live)
