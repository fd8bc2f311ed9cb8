-- ===== src/Tasks/Invariant.antt =====
-- What holds of the tables between two calls on tasks.
use codex_background_task_ha.Base.{
  ℕ, ◌≡◌, sym, subst, Bool, true, ◌==◌, is_none, All, All-map, All-update, update_where, any_where,
  Keyed,
}
use codex_background_task_ha.Models.{is_live_task, JobRecord, TaskRecord}
use codex_background_task_ha.Store.{Store}
use codex_background_task_ha.Base.{Keyed-update, All-update_All}
use codex_background_task_ha.Delivery.Invariant.{Inv}
use codex_background_task_ha.Tasks.{Supervision}

abbrev pub HasJob : Store → TaskRecord → Type 0
HasJob s t = any_where (λ (j : JobRecord). j.job_id == t.job_id) s.jobs ≡ true

-- A task is queued or running exactly as long as it has no time of completion.
abbrev pub EndsOnce : TaskRecord → Type 0
EndsOnce t = is_live_task t.status ≡ is_none t.completed_at

pub record TaskInv (s : Supervision) : Type 0 where
  pub core : Inv s.store
  pub ids : Keyed (λ t. t.task_id) s.tasks
  pub jobs : Keyed (λ t. t.job_id) s.tasks
  pub owned : All (HasJob s.store) s.tasks
  pub ends : All EndsOnce s.tasks

-- Updates of the row of a task that keep its keys.
module _ (s : Supervision) (v : TaskInv s) where
  pub update-TaskInv :
      (test : TaskRecord → Bool) (f : TaskRecord → TaskRecord)
      → ((t : TaskRecord) → (f t).task_id ≡ t.task_id)
      → ((t : TaskRecord) → (f t).job_id ≡ t.job_id)
      → All (λ t. test t ≡ true → EndsOnce t → EndsOnce (f t)) s.tasks
      → TaskInv (record s { tasks = update_where test f s.tasks })
  update-TaskInv test f same_id same_job e = record {
    core = v.core;
    ids = Keyed-update (λ t. t.task_id) test f s.tasks same_id v.ids;
    jobs = Keyed-update (λ t. t.job_id) test f s.tasks same_job v.jobs;
    owned =
        All-update (HasJob s.store) test f s.tasks
          (λ t _ h.
            subst (λ k. any_where (λ (j : JobRecord). j.job_id == k) s.store.jobs ≡ true)
              (sym (same_job t)) h)
          v.owned;
    ends = All-update_All EndsOnce test f s.tasks e v.ends;
  }

  -- A change of the store that keeps the jobs of tasks.
  pub store-TaskInv :
      (t : Store)
      → Inv t
      → ((k : ℕ)
          → any_where (λ (j : JobRecord). j.job_id == k) s.store.jobs ≡ true
          → any_where (λ (j : JobRecord). j.job_id == k) t.jobs ≡ true)
      → TaskInv (record s { store = t })
  store-TaskInv t w keeps = record {
    core = w;
    ids = v.ids;
    jobs = v.jobs;
    owned = All-map (HasJob s.store) (HasJob t) s.tasks (λ u h. keeps u.job_id h) v.owned;
    ends = v.ends;
  }
