-- ===== src/Tasks.antt =====
-- The supervised tasks of store.rs: the table `tasks` beside the tables of the delivery core, and the
-- queries on it.
pub mod Reasons
pub mod Calls
pub mod Recovery
pub mod Owners
pub mod Histories
pub mod Invariant
pub mod Upkeep
pub mod Preserve
pub mod Loop
pub mod Finality
pub mod Endings
pub mod Rounds
pub mod Settling
pub mod Failure
pub mod Undo
pub mod Failing
pub mod Ready
pub mod Start
pub mod Liveness
mod Examples
use codex_background_task_ha.Base.{
  ℕ, Bool, true, false, ◌&&◌, ◌||◌, Option, none, some, List, [], ◌∷◌, map, max, min, ltb, ◌==◌,
  if◌then◌else◌, column_eq, is_some, any_where, find_where, select_where, order_by, order_by_limit,
  Error, Result, ok, err, found, ◌>>=◌, ◌>>◌, guard,
}
use codex_background_task_ha.Models.{
  TaskRecord, TaskStatus, LostPendingTaskProcess, is_live_task, task_status_eq,
}
use codex_background_task_ha.Store.{Store}

pub record Supervision : Type 0 where
  pub store : Store
  pub tasks : List TaskRecord

unfoldable pub query_task_tx : Supervision → ℕ → Result TaskRecord
query_task_tx s k = found (find_where (λ t. t.task_id == k) s.tasks) Error.task_not_found

unfoldable pub inspect_task : Supervision → ℕ → Result TaskRecord
unfolding query_task_tx
inspect_task s k = query_task_tx s k

-- ORDER BY created_at DESC, task_id DESC.
abbrev pub is_later : TaskRecord → TaskRecord → Bool
is_later t u =
    ltb u.created_at t.created_at || t.created_at == u.created_at && ltb u.task_id t.task_id

abbrev pub matches : Option ℕ → ℕ → Bool
matches none k = true
matches (some a) k = k == a

abbrev pub has_status : Option TaskStatus → TaskStatus → Bool
has_status none k = true
has_status (some a) k = task_status_eq k a

unfoldable pub list_tasks : Supervision → Option ℕ → Option TaskStatus → ℕ → List TaskRecord
list_tasks s thread status limit =
    order_by_limit is_later (max 1 (min limit 500))
      (select_where (λ t. matches thread t.source_thread_id && has_status status t.status) s.tasks)

-- Whether a daemon recovers the tasks of a supervisor: `supervisor_daemon_generations` is the test of
-- membership in the set.
unfoldable pub supervisor_generation_matches_recovery_owners : Option ℕ → Bool → (ℕ → Bool) → Bool
supervisor_generation_matches_recovery_owners none include_unowned owners = include_unowned
supervisor_generation_matches_recovery_owners (some generation) include_unowned owners =
    owners generation

-- ORDER BY started_at ASC, task_id ASC; NULL is first.
abbrev pub starts_before : TaskRecord → TaskRecord → Bool
starts_before t u = elim t.started_at [
  | none ↦ is_some u.started_at || ltb t.task_id u.task_id
  | some a ↦ elim u.started_at [
    | none ↦ false
    | some b ↦ ltb a b || a == b && ltb t.task_id u.task_id
  ]
]

-- `u32::try_from`.
abbrev pub u32_max : ℕ
u32_max = 4294967295

unfoldable pub process_of : TaskRecord → Result LostPendingTaskProcess
process_of t = elim t.pid [
  | none ↦ err Error.task_pid_invalid
  | some pid ↦ do
    guard (if ltb u32_max pid then false else true) Error.task_pid_invalid
    ok (record { task_id = t.task_id; pid = pid; pid_identity = t.pid_identity })
]

unfoldable pub processes_of : List TaskRecord → Result (List LostPendingTaskProcess)
unfolding process_of
processes_of [] = ok []
processes_of (t ∷ ts) = do p ← process_of t; ps ← processes_of ts; ok (p ∷ ps)

unfoldable pub lost_pending_task_processes_matching :
    Supervision → (Option ℕ → Bool) → Result (List LostPendingTaskProcess)
unfolding processes_of
lost_pending_task_processes_matching s matches_generation = processes_of (
    select_where (λ t. matches_generation t.supervisor_daemon_generation)
      (order_by starts_before (
        select_where
          (λ t.
            is_live_task t.status
            && is_some t.pid
            && any_where (λ j. j.job_id == t.job_id) s.store.jobs)
          s.tasks)))

unfoldable pub lost_pending_task_processes_for_recovery_owners :
    Supervision → Bool → (ℕ → Bool) → Result (List LostPendingTaskProcess)
unfolding lost_pending_task_processes_matching supervisor_generation_matches_recovery_owners
lost_pending_task_processes_for_recovery_owners s include_unowned owners =
    lost_pending_task_processes_matching s
      (λ g. supervisor_generation_matches_recovery_owners g include_unowned owners)
