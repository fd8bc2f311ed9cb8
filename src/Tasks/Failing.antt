-- ===== src/Tasks/Failing.antt =====
-- A recovery whose test of activity fails on the way (`fail_lost_tasks_matching_excluding_with`).
use codex_background_task_ha.Base.{
  ℕ, ◌≡◌, refl, sym, ap, ◌∙◌, Bool, true, false, Option, List, ◌∷◌, ◌++◌, arith, ◌==◌, any_where,
  none_of_any, Error, Result, ok, err, ◌>>=◌, found, Post, post_bind, post_seq, post_ok,
}
use codex_background_task_ha.Models.{
  JobStatus, is_active, TaskRecord, BatchRecord, TaskFinishUpdate,
}
use codex_background_task_ha.Store.{Store}
use codex_background_task_ha.Store.Jobs.{fail_job}
use codex_background_task_ha.Base.{find-update_apart}
use codex_background_task_ha.Tasks.{Supervision, query_task_tx}
use codex_background_task_ha.Tasks.Calls.{
  update_task, task_reply, finish_row, finish_task, clamp_redelivery_window_seconds_for_timestamp,
}
use codex_background_task_ha.Tasks.Recovery.{
  RecoveryEnv, LostTaskRecovery, lost_tasks, lost_reason, lost_update, Outcome, fail_lost_job,
  finish_lost_task, recover_task, is_chosen, recover_tasks, fail_lost_tasks_matching_excluding_with,
}
use codex_background_task_ha.Tasks.Loop.{loop_keeps, loop-append, stopped}
use codex_background_task_ha.Tasks.Rounds.{lost_update_id}

-- The end of a task leaves the rows of others alone.
finish_others :
    (s : Supervision) (u : TaskFinishUpdate) (k : ℕ)
    → (u.task_id == k) ≡ false
    → Post (finish_task s u) (λ p. query_task_tx p.0 k ≡ query_task_tx s k)
unfolding finish_task task_reply update_task query_task_tx finish_row
finish_others s u k other = post_bind _ _ λ t _. post_seq _ _ λ _. post_bind _ _ λ r _.
    post_ok (λ (p : Supervision × TaskRecord). query_task_tx p.0 k ≡ query_task_tx s k) _
      (ap (λ o. found o Error.task_not_found)
        (find-update_apart (λ x. x.task_id == k) (λ x. x.task_id == u.task_id) (finish_row u)
          s.tasks (λ x h. ground arith) (λ x h. ground arith)))

module _ (e : RecoveryEnv) (now k : ℕ) where
  first_tasks :
      (s : Supervision) (l : LostTaskRecovery)
      → query_task_tx (fail_lost_job e now s l).0 k ≡ query_task_tx s k
  unfolding fail_lost_job query_task_tx
  first_tasks s l = go l.job_status
    where
      inner :
          (m : Result (Store × BatchRecord))
          → query_task_tx
              (elim m as (λ _. Outcome e (Unit {0})) [
                | ok p ↦ (record s { store = p.0 }, ok tt)
                | err x ↦ (s, err x)
              ]).0
              k
            ≡ query_task_tx s k
      inner (ok p) = refl
      inner (err x) = refl

      go :
          (st : JobStatus)
          → query_task_tx
              (elim st as (λ _. Outcome e (Unit {0})) [
                | JobStatus.pending ↦
                    elim (fail_job
                      (e.new_id l.job_id)
                      s.store
                      l.job_id
                      (lost_reason e l)
                      now
                      l.max_delivery_attempts
                      (clamp_redelivery_window_seconds_for_timestamp now
                        l.redelivery_window_seconds)) [
                          | ok p ↦ (record s { store = p.0 }, ok tt)
                          | err x ↦ (s, err x)
                        ]
                | _ ↦ (s, ok tt)
              ]).0
              k
            ≡ query_task_tx s k
      go JobStatus.pending = inner (
          fail_job (e.new_id l.job_id) s.store l.job_id (lost_reason e l) now
            l.max_delivery_attempts
            (clamp_redelivery_window_seconds_for_timestamp now l.redelivery_window_seconds))
      go JobStatus.completed = refl
      go JobStatus.failed = refl

  second_tasks :
      (l : LostTaskRecovery)
      → (l.task_id == k) ≡ false
      → (o : Outcome e (Unit {0}))
      → query_task_tx (finish_lost_task e now o l).0 k ≡ query_task_tx o.0 k
  unfolding finish_lost_task
  second_tasks l other (s, err x) = refl
  second_tasks l other (s, ok _) =
      go (finish_task s (lost_update e now l)) (
        finish_others s (lost_update e now l) k (ap (λ i. i == k) (lost_update_id e now l) ∙ other))
    where
      go :
          (m : Result (Supervision × TaskRecord))
          → Post m (λ p. query_task_tx p.0 k ≡ query_task_tx s k)
          → query_task_tx
              (elim m as (λ _. Outcome e (Unit {0})) [ ok p ↦ (p.0, ok tt) | err x ↦ (s, err x) ]).0
              k
            ≡ query_task_tx s k
      go (ok p) h = h p refl
      go (err x) h = refl

  other_task :
      (s : Supervision) (l : LostTaskRecovery)
      → (l.task_id == k) ≡ false
      → query_task_tx (recover_task e now s l).0 k ≡ query_task_tx s k
  unfolding recover_task
  other_task s l other = second_tasks l other (fail_lost_job e now s l) ∙ first_tasks s l

-- When the recovery has dealt with the first lost tasks and the test of activity then fails for the
-- next one of the generations asked for, the recovery fails with the error of the test. What was done
-- for the first tasks stays, and every task that is not among them is found as it was.
pub failed_test_stops_recovery :
    (e : RecoveryEnv) (matches_generation : Option ℕ → Bool) (is_active : ℕ → Result Bool) (now : ℕ)
    (s s' : Supervision) (first rest : List LostTaskRecovery) (l : LostTaskRecovery) (n k : ℕ)
    (x : Error)
    → lost_tasks s ≡ first ++ l ∷ rest
    → recover_tasks e matches_generation is_active now first 0 s ≡ (s', ok n)
    → matches_generation l.supervisor_daemon_generation ≡ true
    → is_active l.task_id ≡ err x
    → any_where (λ m. m.task_id == k) first ≡ false
    → (fail_lost_tasks_matching_excluding_with e matches_generation is_active now s ≡ (s', err x))
      × (query_task_tx s' k ≡ query_task_tx s k)
unfolding fail_lost_tasks_matching_excluding_with is_chosen ◌>>=◌
failed_test_stops_recovery e matches_generation is_active now s s' first rest l n k x all done asked
      failed apart =
    let fails : is_chosen e matches_generation is_active now l ≡ err x = rw (asked, failed) refl in
    let kept : query_task_tx (recover_tasks e matches_generation is_active now first 0 s).0 k
        ≡ query_task_tx s k =
      loop_keeps e matches_generation is_active now (λ u. query_task_tx u k ≡ query_task_tx s k)
        (λ m. (m.task_id == k) ≡ false) (λ u m other h. other_task e now k u m other ∙ h) first
        (none_of_any _ first apart) 0 s refl in
    (
      ap (λ ls. recover_tasks e matches_generation is_active now ls 0 s) all
          ∙ loop-append e matches_generation is_active now first (l ∷ rest) 0 n s s' done
          ∙ stopped e matches_generation is_active now l rest n s' x fails,
      sym (ap (λ o. query_task_tx o.0 k) done) ∙ kept,
    )
