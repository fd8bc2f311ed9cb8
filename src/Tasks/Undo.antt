-- ===== src/Tasks/Undo.antt =====
-- Deleting a task that was just created (`create_task_with_job_for_supervisor_generation`, then
-- `delete_unstarted_task_with_job`).
use codex_background_task_ha.Base.{
  ℕ, ◌≡◌, refl, ap, ◌∙◌, subst, Bool, true, false, not, ◌||◌, Option, List, [], ◌∷◌, ◌++◌, arith,
  ◌==◌, ==_refl, eq_of_==, any_where, select_where, find-append, Error, ok, ◌>>=◌, ◌>>◌, guard,
  found, Post, post_bind, post_guard, post_ok, bind_of, seq_of,
}
use codex_background_task_ha.Models.{
  JobRecord, TaskRecord, ArtifactRecord, PluginDeliveryRequestRecord, BatchJob, NewJob, NewTask,
}
use codex_background_task_ha.Store.{Store, query_job_tx}
use codex_background_task_ha.Store.Jobs.{new_job_row}
use codex_background_task_ha.Tasks.{Supervision, query_task_tx}
use codex_background_task_ha.Tasks.Calls.{
  new_task_row, insert_task, insert_task_job, create_task_with_job_for_supervisor_generation,
  without, delete_job, delete_unstarted_task_with_job,
}

-- Rows that a deletion leaves alone.
without-none :
    {A : Type 0} (test : A → Bool) (xs : List A) → any_where test xs ≡ false → without test xs ≡ xs
unfolding select_where any_where
without-none test [] h = refl
without-none test (x ∷ xs) h =
    ground (arith, ap (λ ys. x ∷ ys) (without-none test xs (ground arith)))

without-last :
    {A : Type 0} (test : A → Bool) (xs : List A) (x : A)
    → any_where test xs ≡ false
    → test x ≡ true
    → without test (xs ++ x ∷ []) ≡ xs
unfolding select_where any_where
without-last test [] x h k = rw k refl
without-last test (y ∷ xs) x h k =
    ground (arith, ap (λ ys. y ∷ ys) (without-last test xs x (ground arith) k))

-- No row refers to the job: what the foreign keys say of a job that is not in its table.
abbrev Unreferenced : Store → ℕ → Type 0
Unreferenced s k =
    (any_where (λ (f : ArtifactRecord). f.job_id == k) s.artifacts ≡ false)
    × (any_where (λ (l : BatchJob). l.job_id == k) s.batch_jobs ≡ false)
    × (any_where (λ (p : PluginDeliveryRequestRecord). p.job_id == k) s.plugin_delivery_requests
        ≡ false)

-- What a creation leaves.
record Created (s s' : Supervision) (j : NewJob) (t : NewTask) (generation : Option ℕ)
    : Type 0 where
  same_job : (j.job_id == t.job_id) ≡ true
  new_job : any_where (λ (r : JobRecord). r.job_id == j.job_id) s.store.jobs ≡ false
  new_task : any_where (λ (r : TaskRecord). r.task_id == t.task_id) s.tasks ≡ false
  only_task : any_where (λ (r : TaskRecord). r.job_id == t.job_id) s.tasks ≡ false
  left : s' ≡ record {
    store = record (s.store) { jobs = s.store.jobs ++ new_job_row j generation ∷ [] };
    tasks = s.tasks ++ new_task_row t generation ∷ [];
  }

not-true : (b : Bool) → not b ≡ true → b ≡ false
not-true b h = ground arith

create-Created :
    (s : Supervision) (j : NewJob) (t : NewTask) (generation : Option ℕ)
    → Post
        (create_task_with_job_for_supervisor_generation s j t generation)
        (λ p. Created s p.0 j t generation)
unfolding create_task_with_job_for_supervisor_generation insert_task insert_task_job new_task_row
create-Created s j t generation = post_guard _ _ _ λ same_job. post_guard _ _ _ λ _.
    post_bind _ _ λ with_job first_. post_bind _ _ λ s' second_. post_bind _ _ λ _ _.
      post_bind _ _ λ _ _.
        let job_ = go_job with_job first_ in
        let task_ = go_task (record s { store = with_job }) s' second_ in
        post_ok (λ (p : Supervision × (JobRecord × TaskRecord)). Created s p.0 j t generation) _
          (record {
            same_job = same_job;
            new_job = job_.0;
            new_task = task_.0;
            only_task = task_.1.0;
            left =
                task_.1.1
                ∙ ap
                    (λ (x : Store). record {
                      store = x;
                      tasks = s.tasks ++ new_task_row t generation ∷ [];
                    })
                    job_.1;
          })
  where
    go_job : Post (insert_task_job s.store j generation) (λ x.
        (any_where (λ (r : JobRecord). r.job_id == j.job_id) s.store.jobs ≡ false)
        × (x ≡ record (s.store) { jobs = s.store.jobs ++ new_job_row j generation ∷ [] }))
    go_job = post_guard _ _ _ λ fresh. post_ok _ _ (not-true _ fresh, refl)

    go_task :
        (u : Supervision)
        → Post (insert_task u (new_task_row t generation)) (λ x.
          (any_where (λ (r : TaskRecord). r.task_id == t.task_id) u.tasks ≡ false)
          × ((any_where (λ (r : TaskRecord). r.job_id == t.job_id) u.tasks ≡ false)
              × (x
                  ≡ record { store = u.store; tasks = u.tasks ++ new_task_row t generation ∷ [] })))
    go_task u =
        post_guard _ _ _ λ fresh.
          post_guard _ _ _ λ alone. post_ok _ _ (not-true _ fresh, (not-true _ alone, refl))

any-or :
    {A : Type 0} (p q : A → Bool) (xs : List A)
    → any_where p xs ≡ false
    → any_where q xs ≡ false
    → any_where (λ x. p x || q x) xs ≡ false
unfolding any_where
any-or p q [] h k = refl
any-or p q (x ∷ xs) h k = ground (arith, any-or p q xs (ground arith) (ground arith))

-- The tables after the deletion are those before the creation.
module _ (s : Supervision) (j : NewJob) (t : NewTask) (generation : Option ℕ) where
  abbrev created : Supervision
  created = record {
    store = record (s.store) { jobs = s.store.jobs ++ new_job_row j generation ∷ [] };
    tasks = s.tasks ++ new_task_row t generation ∷ [];
  }

  store_back :
      Unreferenced s.store t.job_id
      → (j.job_id == t.job_id) ≡ true
      → any_where (λ (r : JobRecord). r.job_id == t.job_id) s.store.jobs ≡ false
      → delete_job created.store t.job_id ≡ s.store
  unfolding delete_job new_job_row
  store_back free same fresh =
      let jobs_ =
        without-last (λ (r : JobRecord). r.job_id == t.job_id) s.store.jobs
          (new_job_row j generation) fresh same in
      let artifacts_ =
        without-none (λ (f : ArtifactRecord). f.job_id == t.job_id) s.store.artifacts free.0 in
      let links_ =
        without-none (λ (l : BatchJob). l.job_id == t.job_id) s.store.batch_jobs free.1 in
      let requests_ =
        without-none (λ (p : PluginDeliveryRequestRecord). p.job_id == t.job_id)
          s.store.plugin_delivery_requests free.2 in
      rw (jobs_, artifacts_, links_, requests_) refl

  tasks_back :
      any_where (λ (r : TaskRecord). r.task_id == t.task_id) s.tasks ≡ false
      → any_where (λ (r : TaskRecord). r.job_id == t.job_id) s.tasks ≡ false
      → without (λ u. u.task_id == t.task_id || u.job_id == t.job_id) created.tasks ≡ s.tasks
  unfolding new_task_row
  tasks_back new alone =
      without-last (λ (u : TaskRecord). u.task_id == t.task_id || u.job_id == t.job_id) s.tasks
        (new_task_row t generation) (any-or _ _ s.tasks new alone)
        (let same = ==_refl t.task_id in ground arith)

  undo_lem :
      Unreferenced s.store t.job_id
      → (j.job_id == t.job_id) ≡ true
      → any_where (λ (r : JobRecord). r.job_id == t.job_id) s.store.jobs ≡ false
      → any_where (λ (r : TaskRecord). r.task_id == t.task_id) s.tasks ≡ false
      → any_where (λ (r : TaskRecord). r.job_id == t.job_id) s.tasks ≡ false
      → delete_unstarted_task_with_job created t.task_id t.job_id ≡ ok s
  unfolding delete_unstarted_task_with_job query_task_tx query_job_tx found guard new_task_row
      new_job_row ◌>>◌ ◌>>=◌
  undo_lem free same fresh new alone =
      bind_of _ _ (new_task_row t generation) (
        ap (λ o. found o Error.task_not_found)
          (find-append (λ (r : TaskRecord). r.task_id == t.task_id) s.tasks
            (new_task_row t generation) new (==_refl t.task_id)))
      ∙ seq_of _ _ (ap (λ b. guard b Error.task_attached_elsewhere) (==_refl t.job_id))
      ∙ bind_of _ _ (new_job_row j generation) (
          ap (λ o. found o Error.job_not_found)
            (find-append (λ (r : JobRecord). r.job_id == t.job_id) s.store.jobs
              (new_job_row j generation) fresh same))
      ∙ rw (store_back free same fresh, tasks_back new alone) refl

-- A task that was created, with its job, and is deleted before it starts leaves the tables as they
-- were before its creation, when no row there referred to the job.
pub delete_undoes_create :
    (s s' : Supervision) (j : NewJob) (t : NewTask) (generation : Option ℕ)
    (r : JobRecord × TaskRecord)
    → create_task_with_job_for_supervisor_generation s j t generation ≡ ok (s', r)
    → Unreferenced s.store t.job_id
    → delete_unstarted_task_with_job s' t.task_id t.job_id ≡ ok s
delete_undoes_create s s' j t generation r done free =
    let c = create-Created s j t generation (s', r) done in
    let fresh : any_where (λ (r : JobRecord). r.job_id == t.job_id) s.store.jobs ≡ false =
      subst (λ k. any_where (λ (r : JobRecord). r.job_id == k) s.store.jobs ≡ false)
        (eq_of_== j.job_id t.job_id c.same_job) c.new_job in
    ap (λ x. delete_unstarted_task_with_job x t.task_id t.job_id) c.left
    ∙ undo_lem s j t generation free c.same_job fresh c.new_task c.only_task
