-- ===== src/Tasks/Finality.antt =====
-- A task that has ended, along histories of calls.
use codex_background_task_ha.Base.{ℕ, ◌≡◌, false, some, ◌==◌, is_none, find_where}
use codex_background_task_ha.Models.{TaskRecord}
use codex_background_task_ha.Store.{Store}
use codex_background_task_ha.Tasks.{Supervision}

module _ (k : ℕ) (t : TaskRecord) (over : is_none t.completed_at ≡ false) where
  -- The ended task is found as it was.
  abbrev Kept : Supervision → Type 0
  Kept s = find_where (λ (x : TaskRecord). x.task_id == k) s.tasks ≡ some t
