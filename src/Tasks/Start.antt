-- ===== src/Tasks/Start.antt =====
-- The list of lost tasks that the recovery starts from (`fail_lost_tasks_matching_excluding_with`).
use codex_background_task_ha.Base.{
  ◌≤◌, ◌≡◌, refl, sym, ap, ◌∙◌, Bool, true, Option, none, some, List, [], ◌∷◌, arith, ◌==◌, is_none,
  All, All-map, All-select, find_where, any_where, count_where, select_where, any_of_find, Keyed,
  none_found, Error, found,
}
use codex_background_task_ha.Models.{is_live_task, JobRecord, TaskRecord}
use codex_background_task_ha.Store.{query_job_tx}
use codex_background_task_ha.Tasks.Recovery.{
  LostTaskRecovery, lost_row, is_earlier, join_job, lost_tasks,
}
use codex_background_task_ha.Base.{
  find-select, Keyed-count, Keyed-self, count-select, All-selected, All-order_by, count-order_by,
  order_by,
}
use codex_background_task_ha.Tasks.{Supervision, query_task_tx}
use codex_background_task_ha.Tasks.Invariant.{TaskInv, EndsOnce, HasJob}
use codex_background_task_ha.Tasks.Rounds.{Good}
use codex_background_task_ha.Tasks.Ready.{lost_key, lost_job_key, All-both, Distinct}
use codex_background_task_ha.Base.{any-order_by}

-- A task whose row is found under its key and has not ended.
abbrev Live : Supervision → TaskRecord → Type 0
Live s t =
    (find_where (λ (x : TaskRecord). x.task_id == t.task_id) s.tasks ≡ some t)
    × (is_none t.completed_at ≡ true)

-- The join.
module _ (s : Supervision) where
  joined_row :
      (t : TaskRecord) (j : JobRecord)
      → Live s t
      → find_where (λ (x : JobRecord). x.job_id == t.job_id) s.store.jobs ≡ some j
      → Good s (lost_row t j)
  unfolding lost_row query_task_tx query_job_tx found
  joined_row t j l h = record {
    task = t;
    job = j;
    has_task = ap (λ o. found o Error.task_not_found) l.0;
    live = l.1;
    same_generation = refl;
    has_job = ap (λ o. found o Error.job_not_found) h;
    same_status = refl;
  }

  pub join-Good : (ts : List TaskRecord) → All (Live s) ts → All (Good s) (join_job s.store.jobs ts)
  unfolding join_job
  join-Good [] h = tt
  join-Good (t ∷ ts) h =
      go (find_where (λ (x : JobRecord). x.job_id == t.job_id) s.store.jobs) refl (join-Good ts h.1)
    where
      go :
          (o : Option JobRecord)
          → find_where (λ (x : JobRecord). x.job_id == t.job_id) s.store.jobs ≡ o
          → All (Good s) (join_job s.store.jobs ts)
          → All (Good s) (elim o as (λ _. List LostTaskRecovery) [
            | none ↦ join_job s.store.jobs ts
            | some j ↦ lost_row t j ∷ join_job s.store.jobs ts
          ])
      go none q rest = rest
      go (some j) q rest = (joined_row t j h.0 q, rest)

module _ (jobs : List JobRecord) where
  pub join-count :
      (p : LostTaskRecovery → Bool) (q : TaskRecord → Bool)
      → ((t : TaskRecord) (j : JobRecord) → p (lost_row t j) ≡ q t)
      → (ts : List TaskRecord) → count_where p (join_job jobs ts) ≤ count_where q ts
  unfolding join_job count_where
  join-count p q same [] = omega arith
  join-count p q same (t ∷ ts) =
      go (find_where (λ (x : JobRecord). x.job_id == t.job_id) jobs) (join-count p q same ts)
    where
      go :
          (o : Option JobRecord)
          → count_where p (join_job jobs ts) ≤ count_where q ts
          → count_where p (elim o as (λ _. List LostTaskRecovery) [
            | none ↦ join_job jobs ts
            | some j ↦ lost_row t j ∷ join_job jobs ts
          ])
            ≤ count_where q (t ∷ ts)
      go none rest = ground arith
      go (some j) rest = let here = same t j in ground arith

  pub join-any :
      (p : LostTaskRecovery → Bool) (q : TaskRecord → Bool)
      → ((t : TaskRecord) (j : JobRecord) → p (lost_row t j) ≡ q t)
      → (ts : List TaskRecord)
      → All (λ t. any_where (λ (x : JobRecord). x.job_id == t.job_id) jobs ≡ true) ts
      → any_where q ts ≡ true
      → any_where p (join_job jobs ts) ≡ true
  unfolding join_job any_where
  join-any p q same [] h k = absurd (cc k)
  join-any p q same (t ∷ ts) h k =
      go (find_where (λ (x : JobRecord). x.job_id == t.job_id) jobs) refl (join-any p q same ts h.1)
    where
      go :
          (o : Option JobRecord)
          → find_where (λ (x : JobRecord). x.job_id == t.job_id) jobs ≡ o
          → (any_where q ts ≡ true → any_where p (join_job jobs ts) ≡ true)
          → any_where p (elim o as (λ _. List LostTaskRecovery) [
            | none ↦ join_job jobs ts
            | some j ↦ lost_row t j ∷ join_job jobs ts
          ])
            ≡ true
      go none e rest = absurd (
          let no_ = none_found (λ (x : JobRecord). x.job_id == t.job_id) jobs e in
          let yes = h.0 in ground arith)
      go (some j) e rest = let here = same t j in ground arith

abbrev Keys : List TaskRecord → Type 0
Keys ts = Keyed (λ (t : TaskRecord). t.task_id) ts × Keyed (λ (t : TaskRecord). t.job_id) ts

abbrev live_rows : Supervision → List TaskRecord
live_rows s = select_where (λ t. is_live_task t.status) s.tasks

module _ (s : Supervision) (v : TaskInv s) where
  Live-All : All (Live s) (order_by is_earlier (live_rows s))
  Live-All = All-order_by is_earlier (Live s) (live_rows s) (
      All-selected
        (λ t.
          (find_where (λ (x : TaskRecord). x.task_id == t.task_id) s.tasks ≡ some t) × EndsOnce t)
        (Live s) (λ t. is_live_task t.status) s.tasks (λ t live h. (h.0, sym h.1 ∙ live))
        (All-both _ EndsOnce s.tasks (Keyed-self (λ t. t.task_id) s.tasks v.ids) v.ends))

  owned-All : All (HasJob s.store) (order_by is_earlier (live_rows s))
  owned-All =
      All-order_by is_earlier (HasJob s.store) (live_rows s)
        (All-select (HasJob s.store) (λ t. is_live_task t.status) s.tasks v.owned)

  pub lost-Good : All (Good s) (lost_tasks s)
  unfolding lost_tasks
  lost-Good = join-Good s (order_by is_earlier (live_rows s)) Live-All

  one_row :
      (p : LostTaskRecovery → Bool) (q : TaskRecord → Bool)
      → ((t : TaskRecord) (j : JobRecord) → p (lost_row t j) ≡ q t)
      → count_where q s.tasks ≤ 1
      → count_where p (lost_tasks s) ≤ 1
  unfolding lost_tasks
  one_row p q same h =
      let joined = join-count s.store.jobs p q same (order_by is_earlier (live_rows s)) in
      let sorted = count-order_by is_earlier q (live_rows s) in
      let selected = count-select q (λ t. is_live_task t.status) s.tasks in ground arith

  pub lost-Distinct : Distinct (lost_tasks s)
  unfolding lost_row
  lost-Distinct = record {
    ids = λ k.
        one_row (lost_key k) (λ t. t.task_id == k) (λ t j. refl)
          (Keyed-count (λ t. t.task_id) k s.tasks v.ids);
    jobs = λ k.
        one_row (lost_job_key k) (λ t. t.job_id == k) (λ t j. refl)
          (Keyed-count (λ t. t.job_id) k s.tasks v.jobs);
  }

  pub lost-covered :
      All
        (λ t. is_live_task t.status ≡ true → any_where (lost_key t.task_id) (lost_tasks s) ≡ true)
        s.tasks
  unfolding lost_tasks lost_row
  lost-covered =
      All-map (λ t. find_where (λ (x : TaskRecord). x.task_id == t.task_id) s.tasks ≡ some t) _
        s.tasks
        (λ t there live.
          join-any s.store.jobs (lost_key t.task_id) (λ u. u.task_id == t.task_id) (λ u j. refl)
            (order_by is_earlier (live_rows s)) owned-All
            (any-order_by is_earlier (λ u. u.task_id == t.task_id) (live_rows s)
              ∙ any_of_find (λ u. u.task_id == t.task_id) (live_rows s) t
                  (find-select (λ u. u.task_id == t.task_id) (λ u. is_live_task u.status) s.tasks t
                    there live)))
        (Keyed-self (λ t. t.task_id) s.tasks v.ids)
