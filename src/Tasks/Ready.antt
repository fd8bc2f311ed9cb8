-- ===== src/Tasks/Ready.antt =====
-- What the loop of the recovery of lost tasks needs to end every task that waits, and that each round
-- keeps it (`fail_lost_tasks_matching_excluding_with`).
use codex_background_task_ha.Base.{
  ℕ, ◌≤◌, ◌≡◌, refl, ap, ◌∙◌, inl, inr, Bool, true, false, not, ◌&&◌, Option, List, [], ◌∷◌, arith,
  ◌==◌, if◌then◌else◌, ==_refl, eq_of_==, Bool-cases, All, All-map, find_where, any_where,
  count_where, find_test, none_of_any, Keyed-find, Error, Result, ok, ◌>>=◌, found, found-some,
}
use codex_background_task_ha.Models.{
  TaskEnd, ended, is_live_task, i64_max, TaskRecord, BatchRecord, TaskFinishUpdate,
}
use codex_background_task_ha.Tasks.Calls.{update_task, finish_row}
use codex_background_task_ha.Tasks.Recovery.{RecoveryEnv, LostTaskRecovery, lost_update, is_chosen}
use codex_background_task_ha.Base.{find-update_other, any_of_count, All-split, Keyed-find}
use codex_background_task_ha.Tasks.{Supervision, query_task_tx}
use codex_background_task_ha.Tasks.Invariant.{TaskInv}
use codex_background_task_ha.Tasks.Rounds.{Good, Round, after_round, after-Round}

abbrev pub lost_key : ℕ → LostTaskRecovery → Bool
lost_key k l = l.task_id == k

abbrev pub lost_job_key : ℕ → LostTaskRecovery → Bool
lost_job_key k l = l.job_id == k

pub All-both :
    {A : Type 0} (P Q : A → Type 0) (xs : List A) → All P xs → All Q xs → All (λ x. P x × Q x) xs
All-both P Q [] p q = tt
All-both P Q (x ∷ xs) p q = ((p.0, q.0), All-both P Q xs p.1 q.1)

-- No two lost tasks share a key or a job.
pub record Distinct (ls : List LostTaskRecovery) : Type 0 where
  pub ids : (k : ℕ) → count_where (lost_key k) ls ≤ 1
  pub jobs : (k : ℕ) → count_where (lost_job_key k) ls ≤ 1

-- Which tasks the recovery is to end: those of the generations asked for that are not active.
module _ (matches_generation : Option ℕ → Bool) (active : ℕ → Bool) where
  abbrev pub answer : ℕ → Result Bool
  answer k = ok (active k)

  abbrev pub wanted : Option ℕ → ℕ → Bool
  wanted generation k = matches_generation generation && not (active k)

  abbrev pub wanted_lost : LostTaskRecovery → Bool
  wanted_lost l = wanted l.supervisor_daemon_generation l.task_id

  -- A task that the recovery is to end.
  abbrev pub Waiting : TaskRecord → Type 0
  Waiting t = (is_live_task t.status && wanted t.supervisor_daemon_generation t.task_id) ≡ true

  module _ (e : RecoveryEnv) (now : ℕ) (in_time : now ≤ i64_max)
      (distinct : (i j : ℕ) → (e.new_id i == e.new_id j) ≡ true → i ≡ j) where
    pub chosen :
        (l : LostTaskRecovery) → is_chosen e matches_generation answer now l ≡ ok (wanted_lost l)
    unfolding is_chosen ◌>>=◌
    chosen l = go (matches_generation l.supervisor_daemon_generation)
      where
        go :
            (b : Bool)
            → (if b then (do a ← answer l.task_id; ok (not a)) else ok false)
              ≡ ok (b && not (active l.task_id))
        go true = refl
        go false = refl

    -- The loop has still to end every task that waits.
    pub record Ready (s : Supervision) (ls : List LostTaskRecovery) : Type 0 where
      pub inv : TaskInv s
      pub good : All (Good s) ls
      pub fresh :
          All
            (λ l.
              any_where (λ (b : BatchRecord). b.batch_id == e.new_id l.job_id) s.store.batches
              ≡ false)
            ls
      pub apart : Distinct ls
      pub covered : All (λ t. Waiting t → any_where (lost_key t.task_id) ls ≡ true) s.tasks

    Distinct-rest :
        (l : LostTaskRecovery) (ls : List LostTaskRecovery) → Distinct (l ∷ ls) → Distinct ls
    unfolding count_where
    Distinct-rest l ls d = record {
      ids = λ k. let h = d.ids k in ground arith;
      jobs = λ k. let h = d.jobs k in ground arith;
    }

    -- The others have another key and another job.
    others :
        (l : LostTaskRecovery) (ls : List LostTaskRecovery)
        → Distinct (l ∷ ls)
        → All (λ m. ((m.task_id == l.task_id) ≡ false) × ((m.job_id == l.job_id) ≡ false)) ls
    unfolding count_where
    others l ls d =
        let h = d.ids l.task_id in
        let k = d.jobs l.job_id in
        let same = ==_refl l.task_id in
        let same_job = ==_refl l.job_id in
        All-both _ _ ls
          (none_of_any (lost_key l.task_id) ls
            (any_of_count (lost_key l.task_id) ls (ground arith)))
          (none_of_any (lost_job_key l.job_id) ls
            (any_of_count (lost_job_key l.job_id) ls (ground arith)))

    -- The row of a lost task is the only one with its key.
    row_of :
        (s : Supervision) (l : LostTaskRecovery) (v : TaskInv s) (g : Good s l)
        → All (λ t. (t.task_id == l.task_id) ≡ true → t ≡ g.task) s.tasks
    unfolding query_task_tx
    row_of s l v g =
        Keyed-find (λ t. t.task_id) l.task_id s.tasks g.task v.ids (found-some _ _ _ g.has_task)

    -- A task that waits and is not the first of the rest is in what follows.
    later :
        (l : LostTaskRecovery) (ls : List LostTaskRecovery) (k : ℕ)
        → (k == l.task_id) ≡ false
        → any_where (lost_key k) (l ∷ ls) ≡ true
        → any_where (lost_key k) ls ≡ true
    unfolding any_where
    later l ls k other h = ground arith

    pub skip-Ready :
        (s : Supervision) (l : LostTaskRecovery) (ls : List LostTaskRecovery)
        → wanted_lost l ≡ false
        → Ready s (l ∷ ls)
        → Ready s ls
    skip-Ready s l ls unwanted r = record {
      inv = r.inv;
      good = r.good.1;
      fresh = r.fresh.1;
      apart = Distinct-rest l ls r.apart;
      covered =
          All-map
            (λ t.
              ((t.task_id == l.task_id) ≡ true → t ≡ (r.good.0).task)
              × (Waiting t → any_where (lost_key t.task_id) (l ∷ ls) ≡ true))
            _ s.tasks
            (λ t h waits. elim (Bool-cases (t.task_id == l.task_id)) [
              | inl q ↦ absurd (
                  let generation =
                    ap (λ z. z.supervisor_daemon_generation) (h.0 q) ∙ (r.good.0).same_generation in
                  let id = eq_of_== t.task_id l.task_id q in
                  let here : wanted t.supervisor_daemon_generation t.task_id ≡ wanted_lost l =
                    rw (generation, id) refl in
                  ground arith)
              | inr q ↦ later l ls t.task_id q (h.1 waits)
            ])
            (All-both _ _ s.tasks (row_of s l r.inv r.good.0) r.covered);
    }

    -- A lost task that another round does not touch.
    Good-other :
        (s s' : Supervision) (l m : LostTaskRecovery)
        → Round e now s s' l
        → (m.task_id == l.task_id) ≡ false
        → (m.job_id == l.job_id) ≡ false
        → Good s m
        → Good s' m
    unfolding query_task_tx found finish_row
    Good-other s s' l m r other other_job g =
        let here = found-some _ _ _ g.has_task in
        let id = eq_of_== g.task.task_id m.task_id (find_test _ s.tasks g.task here) in
        record {
          task = g.task;
          job = g.job;
          has_task =
              ap
                (λ (ts : List TaskRecord).
                  found (find_where (λ t. t.task_id == m.task_id) ts) Error.task_not_found)
                r.tasks
              ∙ ap (λ o. found o Error.task_not_found)
                  (find-update_other (λ t. t.task_id == m.task_id) (λ t. t.task_id == l.task_id)
                    (finish_row (lost_update e now l)) s.tasks g.task (λ x _. refl) here
                    (ground arith));
          live = g.live;
          same_generation = g.same_generation;
          has_job = r.jobs m.job_id g.job (ground arith) g.has_job;
          same_status = g.same_status;
        }

    ended_not_live : (x : TaskEnd) → is_live_task (ended x) ≡ false
    ended_not_live TaskEnd.succeeded = refl
    ended_not_live TaskEnd.failed = refl
    ended_not_live TaskEnd.cancelled = refl
    ended_not_live TaskEnd.timed_out = refl
    ended_not_live TaskEnd.lost = refl

    finished_waits : (u : TaskFinishUpdate) (t : TaskRecord) → ¬ Waiting (finish_row u t)
    unfolding finish_row
    finished_waits u t h = let over = ended_not_live u.status in absurd (ground arith)

    pub step-Ready :
        (s : Supervision) (l : LostTaskRecovery) (ls : List LostTaskRecovery) (r : Ready s (l ∷ ls))
        → TaskInv (after_round e now s l (r.good.0).job)
        → Ready (after_round e now s l (r.good.0).job) ls
    unfolding update_task
    step-Ready s l ls r v =
        let round = after-Round e now s l (r.good.0).job in
        let s' = after_round e now s l (r.good.0).job in
        let apart = others l ls r.apart in
        record {
          inv = v;
          good =
              All-map
                (λ m.
                  (((m.task_id == l.task_id) ≡ false) × ((m.job_id == l.job_id) ≡ false))
                  × Good s m)
                (Good s') ls (λ m h. Good-other s s' l m round h.0.0 h.0.1 h.1)
                (All-both _ (Good s) ls apart r.good.1);
          fresh =
              All-map
                (λ m.
                  (((m.task_id == l.task_id) ≡ false) × ((m.job_id == l.job_id) ≡ false))
                  × (any_where (λ (b : BatchRecord). b.batch_id == e.new_id m.job_id)
                        s.store.batches
                      ≡ false))
                _ ls
                (λ m h. round.batches (e.new_id m.job_id) (other_id m.job_id l.job_id h.0.1) h.1)
                (All-both _ _ ls apart r.fresh.1);
          apart = Distinct-rest l ls r.apart;
          covered =
              All-split (λ t. Waiting t → any_where (lost_key t.task_id) (l ∷ ls) ≡ true)
                (λ t. Waiting t → any_where (lost_key t.task_id) ls ≡ true)
                (λ t. t.task_id == l.task_id) (finish_row (lost_update e now l)) s.tasks
                (λ t _ _ waits. absurd (finished_waits (lost_update e now l) t waits))
                (λ t q h waits. later l ls t.task_id q (h waits)) r.covered;
        }
      where
        other_id : (i j : ℕ) → (i == j) ≡ false → (e.new_id j == e.new_id i) ≡ false
        other_id i j other = elim (Bool-cases (e.new_id j == e.new_id i)) [
          | inl q ↦ absurd (let same = distinct j i q in ground arith)
          | inr q ↦ q
        ]
