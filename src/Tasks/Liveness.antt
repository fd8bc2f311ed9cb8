-- ===== src/Tasks/Liveness.antt =====
-- The recovery of lost tasks ends every one of them (`fail_lost_tasks_matching_excluding_with`).
use codex_background_task_ha.Base.{
  ℕ, suc, ◌+◌, ◌≤◌, ◌≡◌, sym, ap, ◌∙◌, subst, inl, inr, Bool, true, false, Option, List, [], ◌∷◌,
  arith, ◌==◌, if◌then◌else◌, Bool-cases, &&_left, All, All-map, All-All, any_where, count_where,
  ok,
}
use codex_background_task_ha.Models.{is_live_task, i64_max, BatchRecord}
use codex_background_task_ha.Tasks.Recovery.{
  RecoveryEnv, LostTaskRecovery, lost_tasks, Outcome, recover_tasks,
  fail_lost_tasks_matching_excluding_with,
}
use codex_background_task_ha.Base.{◌+◌, suc}
use codex_background_task_ha.Tasks.{Supervision}
use codex_background_task_ha.Tasks.Invariant.{TaskInv}
use codex_background_task_ha.Tasks.Preserve.{recover_task-TaskInv}
use codex_background_task_ha.Tasks.Loop.{passed_over, recovered}
use codex_background_task_ha.Tasks.Rounds.{after_round, recover_task_lem}
use codex_background_task_ha.Tasks.Ready.{
  lost_key, answer, wanted_lost, Waiting, chosen, Ready, skip-Ready, step-Ready,
}
use codex_background_task_ha.Tasks.Start.{lost-Good, lost-Distinct, lost-covered}

module _ (matches_generation : Option ℕ → Bool) (active : ℕ → Bool) where
  abbrev Done : (e : RecoveryEnv) → ℕ → Outcome e ℕ → Type 0
  Done e n o = (o.1 ≡ ok n) × All (λ t. ¬ Waiting matches_generation active t) o.0.tasks

  module _ (e : RecoveryEnv) (now : ℕ) (in_time : now ≤ i64_max)
      (distinct : (i j : ℕ) → (e.new_id i == e.new_id j) ≡ true → i ≡ j) where
    abbrev loop : List LostTaskRecovery → ℕ → Supervision → Outcome e ℕ
    loop = recover_tasks e matches_generation (answer matches_generation active) now

    abbrev to_end : LostTaskRecovery → Bool
    to_end = wanted_lost matches_generation active

    abbrev ReadyFor : Supervision → List LostTaskRecovery → Type 0
    ReadyFor = Ready matches_generation active e now in_time distinct

    loop_ends :
        (ls : List LostTaskRecovery) (n : ℕ) (s : Supervision)
        → ReadyFor s ls
        → Done e (n + count_where to_end ls) (loop ls n s)
    unfolding count_where recover_tasks any_where
    loop_ends [] n s r = (
      ap ok (omega arith),
      All-map (λ t. Waiting matches_generation active t → any_where (lost_key t.task_id) [] ≡ true)
          (λ t. ¬ Waiting matches_generation active t) s.tasks
          (λ t h w. absurd (let no_ = h w in cc)) r.covered,
    )
    loop_ends (l ∷ ls) n s r =
        let is_chosen_lem = chosen matches_generation active e now in_time distinct l in
        elim (Bool-cases (to_end l)) [
          | inl q ↦
              (let g = r.good.0 in
                let round = recover_task_lem e now s l g in_time r.fresh.0 in
                let v = subst (λ o. TaskInv o.0) round (recover_task-TaskInv e now s l r.inv) in
                let s' = after_round e now s l g.job in
                let rest =
                  loop_ends ls (suc n) s'
                    (step-Ready matches_generation active e now in_time distinct s l ls r v) in
                let total : suc n + count_where to_end ls
                    ≡ n + ((if to_end l then 1 else 0) + count_where to_end ls) =
                  ground arith in
                subst (λ m. Done e m (loop (l ∷ ls) n s)) total
                  (subst (Done e (suc n + count_where to_end ls))
                    (sym (
                      recovered e matches_generation (answer matches_generation active) now l ls n s
                        s' (is_chosen_lem ∙ ap ok q) round))
                    rest))
          | inr q ↦
              (let rest =
                  loop_ends ls n s
                    (skip-Ready matches_generation active e now in_time distinct s l ls q r) in
                let total : n + count_where to_end ls
                    ≡ n + ((if to_end l then 1 else 0) + count_where to_end ls) =
                  ground arith in
                subst (λ m. Done e m (loop (l ∷ ls) n s)) total
                  (subst (Done e (n + count_where to_end ls))
                    (sym (
                      passed_over e matches_generation (answer matches_generation active) now l ls n
                        s (is_chosen_lem ∙ ap ok q)))
                    rest))
        ]

    start :
        (s : Supervision)
        → TaskInv s
        → ((k : ℕ)
            → any_where (λ (b : BatchRecord). b.batch_id == e.new_id k) s.store.batches ≡ false)
        → ReadyFor s (lost_tasks s)
    start s v unused = record {
      inv = v;
      good = lost-Good s v;
      fresh = All-All _ (lost_tasks s) (λ l. unused l.job_id);
      apart = lost-Distinct s v;
      covered =
          All-map
            (λ t.
              is_live_task t.status ≡ true → any_where (lost_key t.task_id) (lost_tasks s) ≡ true)
            _ s.tasks (λ t h waits. h (&&_left _ _ waits)) (lost-covered s v);
    }

-- From tables with the invariant, at a time that fits an i64, with a test of activity that always
-- answers and identifiers for new batches that are all different and not yet used: the recovery
-- returns the number of lost tasks of the generations asked for that are not active, and leaves none
-- of these queued or running.
pub recovery_ends_lost_tasks :
    (e : RecoveryEnv) (matches_generation : Option ℕ → Bool) (active : ℕ → Bool) (now : ℕ)
    (s : Supervision)
    → TaskInv s
    → now ≤ i64_max
    → ((i j : ℕ) → (e.new_id i == e.new_id j) ≡ true → i ≡ j)
    → ((k : ℕ) → any_where (λ (b : BatchRecord). b.batch_id == e.new_id k) s.store.batches ≡ false)
    → let o =
        fail_lost_tasks_matching_excluding_with e matches_generation (λ k. ok (active k)) now s in
      (o.1 ≡ ok (count_where (wanted_lost matches_generation active) (lost_tasks s)))
      × All (λ t. ¬ Waiting matches_generation active t) o.0.tasks
unfolding fail_lost_tasks_matching_excluding_with
recovery_ends_lost_tasks e matches_generation active now s v in_time distinct unused =
    let total : 0 + count_where (wanted_lost matches_generation active) (lost_tasks s)
        ≡ count_where (wanted_lost matches_generation active) (lost_tasks s) =
      omega arith in
    subst
      (λ n.
        Done matches_generation active e n
          (fail_lost_tasks_matching_excluding_with e matches_generation (λ k. ok (active k)) now s))
      total
      (loop_ends matches_generation active e now in_time distinct (lost_tasks s) 0 s
        (start matches_generation active e now in_time distinct s v unused))
