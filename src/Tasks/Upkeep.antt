-- ===== src/Tasks/Upkeep.antt =====
-- Each call on one task keeps the invariant.
use codex_background_task_ha.Base.{
  ℕ, ◌≡◌, refl, sym, ◌∙◌, subst, Bool, true, false, not, ◌||◌, Option, List, [], ◌∷◌, arith, ◌==◌,
  if◌then◌else◌, is_none, eq_of_==, All-map, All-select, any_where, any-append, Keyed-find, Evolve,
  ok, Post, post_bind, post_seq, post_guard, post_ok, post_if, found-some,
}
use codex_background_task_ha.Models.{
  is_pending, JobRecord, TaskRecord, NewJob, NewTask, TaskFinishUpdate,
}
use codex_background_task_ha.Store.{Store, query_job_tx}
use codex_background_task_ha.Store.Jobs.{new_job_row, fail_job_row, update_job}
use codex_background_task_ha.Base.{
  added, kept, Keyed-append, All-append, any-append, eq_of_==, Keyed-select, All-selected,
  All-select, any-select,
}
use codex_background_task_ha.Delivery.Edges.{JobEdge}
use codex_background_task_ha.Delivery.Moves.{Moves, add_job, one, stay, Moves-trans}
use codex_background_task_ha.Delivery.Invariant.{Inv}
use codex_background_task_ha.Delivery.Preserve.{Moves-Inv}
use codex_background_task_ha.Delivery.Growth.{Moves-Grows}
use codex_background_task_ha.Delivery.Refine.Jobs.{finish-Moves, fail-JobEdge, insert_batch-Moves}
use codex_background_task_ha.Tasks.{Supervision, query_task_tx}
use codex_background_task_ha.Tasks.Calls.{
  new_task_row, insert_task, insert_task_job, create_task_with_job_for_supervisor_generation,
  delete_job, delete_unstarted_task_with_job, ensure_task_not_terminal, update_task, task_reply,
  start_row, mark_task_started, cancel_row, request_task_cancel, finish_row, finish_task,
  settle_update, fail_pending_job, fail_supervised_task_with_job,
}
use codex_background_task_ha.Tasks.Invariant.{
  TaskInv, HasJob, EndsOnce, update-TaskInv, store-TaskInv,
}

any-Evolve :
    (k : ℕ) {xs ys : List JobRecord}
    → Evolve JobEdge xs ys
    → any_where (λ j. j.job_id == k) xs ≡ true
    → any_where (λ j. j.job_id == k) ys ≡ true
unfolding any_where
any-Evolve k added h = absurd (cc h)
any-Evolve k (kept {x} {y} e d) h = let same = e.same_id in ground (arith, any-Evolve k d)

-- A run of moves of the store, beside the tasks.
pub Moves-TaskInv :
    (s : Supervision) (t : Store) → TaskInv s → Moves s.store t → TaskInv (record s { store = t })
Moves-TaskInv s t v m =
    store-TaskInv s v t (Moves-Inv m v.core) (λ k h. any-Evolve k (Moves-Grows m).jobs h)

start-EndsOnce :
    (pid : ℕ) (identity : Option ℕ) (now : ℕ) (t : TaskRecord)
    → is_none t.completed_at ≡ true
    → EndsOnce (start_row pid identity now t)
unfolding start_row
start-EndsOnce pid identity now t h = sym h

finish-EndsOnce : (u : TaskFinishUpdate) (t : TaskRecord) → EndsOnce (finish_row u t)
unfolding finish_row
finish-EndsOnce u t = ground arith

module _ (s : Supervision) (v : TaskInv s) where
  -- An update of one task by its key.
  edit-TaskInv :
      (k : ℕ) (t : TaskRecord) (f : TaskRecord → TaskRecord)
      → query_task_tx s k ≡ ok t
      → ((x : TaskRecord) → (f x).task_id ≡ x.task_id)
      → ((x : TaskRecord) → (f x).job_id ≡ x.job_id)
      → (EndsOnce t → EndsOnce (f t))
      → TaskInv (update_task s k f)
  unfolding query_task_tx update_task
  edit-TaskInv k t f there same_id same_job e =
      update-TaskInv s v (λ x. x.task_id == k) f same_id same_job
        (All-map (λ x. (x.task_id == k) ≡ true → x ≡ t) _ s.tasks
          (λ x same q h. subst (λ z. EndsOnce z → EndsOnce (f z)) (sym (same q)) e h)
          (Keyed-find (λ x. x.task_id) k s.tasks t v.ids (found-some _ _ _ there)))

reply-TaskInv : (s : Supervision) (k : ℕ) → TaskInv s → Post (task_reply s k) (λ p. TaskInv p.0)
unfolding task_reply
reply-TaskInv s k v = post_bind _ _ λ t _. post_ok (λ p. TaskInv p.0) _ v

module _ (s : Supervision) (v : TaskInv s) where
  pub start-TaskInv :
      (k pid : ℕ) (identity : Option ℕ) (now : ℕ)
      → Post (mark_task_started s k pid identity now) (λ p. TaskInv p.0)
  unfolding mark_task_started ensure_task_not_terminal
  start-TaskInv k pid identity now = post_bind _ _ λ t there. post_guard _ _ _ λ live.
      reply-TaskInv _ k (
        edit-TaskInv s v k t (start_row pid identity now) there (λ x. refl) (λ x. refl)
          (λ _. start-EndsOnce pid identity now t live))

  pub cancel-TaskInv : (k now : ℕ) → Post (request_task_cancel s k now) (λ p. TaskInv p.0)
  unfolding request_task_cancel
  cancel-TaskInv k now =
      post_bind _ _ λ t there. reply-TaskInv _ k (go t there (is_none t.completed_at))
    where
      go :
          (t : TaskRecord)
          → query_task_tx s k ≡ ok t
          → (b : Bool) → TaskInv (if b then update_task s k (cancel_row now) else s)
      go t there true = edit-TaskInv s v k t (cancel_row now) there (λ x. refl) (λ x. refl) (λ h. h)
      go t there false = v

  pub finish-TaskInv : (u : TaskFinishUpdate) → Post (finish_task s u) (λ p. TaskInv p.0)
  unfolding finish_task
  finish-TaskInv u = post_bind _ _ λ t there. post_seq _ _ λ _. reply-TaskInv _ u.task_id (
      edit-TaskInv s v u.task_id t (finish_row u) there (λ x. refl) (λ x. refl)
        (λ _. finish-EndsOnce u t))

  -- A row that is inserted for a job that is there.
  insert-TaskInv :
      (row : TaskRecord) → HasJob s.store row → EndsOnce row → Post (insert_task s row) TaskInv
  unfolding insert_task
  insert-TaskInv row owner e = post_guard _ _ _ λ fresh. post_guard _ _ _ λ free.
      post_ok TaskInv _ (record {
        core = v.core;
        ids = Keyed-append (λ t. t.task_id) s.tasks row v.ids (ground arith);
        jobs = Keyed-append (λ t. t.job_id) s.tasks row v.jobs (ground arith);
        owned = All-append (HasJob s.store) s.tasks (row ∷ []) v.owned (owner, tt);
        ends = All-append EndsOnce s.tasks (row ∷ []) v.ends (e, tt);
      })

insert_job-Moves :
    (s : Store) (j : NewJob) (generation : Option ℕ)
    → Post (insert_task_job s j generation) (Moves s)
unfolding insert_task_job new_job_row
insert_job-Moves s j generation =
    post_guard _ _ _
      λ fresh. post_ok (Moves s) _ (one (add_job (new_job_row j generation) (ground arith)))

insert_job_there :
    (s : Store) (j : NewJob) (generation : Option ℕ)
    → Post
        (insert_task_job s j generation)
        (λ t. any_where (λ (i : JobRecord). i.job_id == j.job_id) t.jobs ≡ true)
unfolding insert_task_job new_job_row any_where
insert_job_there s j generation = post_seq _ _ λ _.
    post_ok (λ (t : Store). any_where (λ (i : JobRecord). i.job_id == j.job_id) t.jobs ≡ true) _
      (any-append (λ (i : JobRecord). i.job_id == j.job_id) s.jobs (new_job_row j generation ∷ [])
        ∙ there)
  where
    there :
        (if any_where (λ (i : JobRecord). i.job_id == j.job_id) s.jobs
          then true
          else any_where (λ (i : JobRecord). i.job_id == j.job_id) (new_job_row j generation ∷ []))
        ≡ true
    there = ground arith

module _ (s : Supervision) (v : TaskInv s) where
  pub create-TaskInv :
      (j : NewJob) (t : NewTask) (generation : Option ℕ)
      → Post (create_task_with_job_for_supervisor_generation s j t generation) (λ p. TaskInv p.0)
  unfolding create_task_with_job_for_supervisor_generation new_task_row
  create-TaskInv j t generation = post_guard _ _ _ λ same. post_seq _ _ λ _. post_bind _ _ λ u e.
      post_bind _ _ λ w f. post_bind _ _ λ i _. post_bind _ _ λ x _.
        post_ok (λ (p : Supervision × (JobRecord × TaskRecord)). TaskInv p.0) _
          (insert-TaskInv (record s { store = u })
            (Moves-TaskInv s u v (insert_job-Moves s.store j generation u e))
            (new_task_row t generation)
            (subst (λ k. any_where (λ (i : JobRecord). i.job_id == k) u.jobs ≡ true)
              (eq_of_== j.job_id t.job_id same) (insert_job_there s.store j generation u e))
            refl w f)

-- Deleting a job, with what refers to it.
delete-Inv : (s : Store) (k : ℕ) → Inv s → Inv (delete_job s k)
unfolding delete_job
delete-Inv s k v = record {
  jobs_keyed = Keyed-select (λ j. j.job_id) (λ j. not (j.job_id == k)) s.jobs v.jobs_keyed;
  batches_keyed = v.batches_keyed;
  attempts_keyed = v.attempts_keyed;
  sessions_keyed = v.sessions_keyed;
  housed = v.housed;
  accounted = v.accounted;
  single_flight = v.single_flight;
  single_session = v.single_session;
}

module _ (s : Supervision) (v : TaskInv s) where
  pub delete-TaskInv : (task job : ℕ) → Post (delete_unstarted_task_with_job s task job) TaskInv
  unfolding delete_unstarted_task_with_job delete_job
  delete-TaskInv task job = post_bind _ _ λ t _. post_seq _ _ λ _. post_seq _ _ λ _.
      post_bind _ _ λ j _. post_seq _ _ λ _.
        let stays = λ (u : TaskRecord). not (u.task_id == task || u.job_id == job) in
        post_ok TaskInv _ (record {
          core = delete-Inv s.store job v.core;
          ids = Keyed-select (λ t. t.task_id) stays s.tasks v.ids;
          jobs = Keyed-select (λ t. t.job_id) stays s.tasks v.jobs;
          owned =
              All-selected (HasJob s.store) (HasJob (delete_job s.store job)) stays s.tasks
                (λ u kept_ h.
                  any-select (λ (i : JobRecord). i.job_id == u.job_id) (λ i. not (i.job_id == job))
                    s.store.jobs (λ i q. ground arith)
                  ∙ h)
                v.owned;
          ends = All-select EndsOnce stays s.tasks v.ends;
        })

  fail_pending-Moves :
      (id k reason now attempts window : ℕ) (j : JobRecord)
      → query_job_tx s.store k ≡ ok j
      → Post (fail_pending_job id s.store k reason now attempts window j) (λ p. Moves s.store p.0)
  unfolding fail_pending_job query_job_tx
  fail_pending-Moves id k reason now attempts window j there =
      post_if (is_pending j.status) _ _
        (λ pending. post_bind _ _ λ i _. post_bind _ _ λ ends _. post_bind _ _ λ t e.
          post_ok (λ (p : Store × JobRecord). Moves s.store p.0) _
            (Moves-trans
              (finish-Moves s.store k j (fail_job_row reason now) v.core.jobs_keyed
                (found-some _ _ _ there) pending (fail-JobEdge reason now))
              (insert_batch-Moves (update_job s.store k (fail_job_row reason now)) _ i.job_id t e)))
        (λ _. post_ok (λ (p : Store × JobRecord). Moves s.store p.0) _ stay)

settle-TaskInv :
    (s : Supervision) (k : ℕ) (u : TaskFinishUpdate) (t : TaskRecord)
    → TaskInv s
    → query_task_tx s k ≡ ok t
    → (b : Bool) → TaskInv (if b then update_task s k (finish_row u) else s)
unfolding finish_row
settle-TaskInv s k u t v there true =
    edit-TaskInv s v k t (finish_row u) there (λ x. refl) (λ x. refl) (λ _. finish-EndsOnce u t)
settle-TaskInv s k u t v there false = v

module _ (s : Supervision) (v : TaskInv s) where
  pub fail_supervised-TaskInv :
      (bytes : ℕ → List ℕ) (id job reason : ℕ) (u : TaskFinishUpdate) (attempts window : ℕ)
      → Post (fail_supervised_task_with_job bytes id s job reason u attempts window) TaskInv
  unfolding fail_supervised_task_with_job
  fail_supervised-TaskInv bytes id job reason u attempts window = post_bind _ _ λ j there.
      post_bind _ _ λ p e. post_bind _ _ λ t found_.
        let w =
          Moves-TaskInv s p.0 v
            (fail_pending-Moves s v id job reason u.completed_at attempts window j there p e) in
        post_ok TaskInv _ (
          settle-TaskInv (record s { store = p.0 }) u.task_id (settle_update bytes p.1 u) t w found_
            (is_none t.completed_at))
