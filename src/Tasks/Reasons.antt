-- ===== src/Tasks/Reasons.antt =====
-- What the text of a failure reason says of a task: `task_status_from_failure_reason` of store.rs,
-- and `build_task_delivery_summary` of daemon.rs, over the bytes of the texts.
use codex_background_task_ha.Base.{
  ℕ, ◌≡◌, refl, Option, none, some, List, [], ◌∷◌, ◌++◌, ◌==◌, if◌then◌else◌,
}
use codex_background_task_ha.FsLayout.{codes, same_text}
use codex_background_task_ha.Models.{TaskEnd}

-- `str::strip_prefix`.
unfoldable pub strip_prefix : List ℕ → List ℕ → Option (List ℕ)
strip_prefix [] s = some s
strip_prefix (p ∷ ps) [] = none
strip_prefix (p ∷ ps) (b ∷ s) = let rest = strip_prefix ps s in if p == b then rest else none

-- The first part of `str::split_once`.
unfoldable pub before_first : ℕ → List ℕ → Option (List ℕ)
before_first c [] = none
before_first c (b ∷ s) =
    let rest = before_first c s in
    if b == c then some [] else (elim rest [ none ↦ none | some p ↦ some (b ∷ p) ])

abbrev pub end_text : TaskEnd → List ℕ
end_text TaskEnd.succeeded = codes "succeeded"
end_text TaskEnd.failed = codes "failed"
end_text TaskEnd.cancelled = codes "cancelled"
end_text TaskEnd.timed_out = codes "timed_out"
end_text TaskEnd.lost = codes "lost"

-- The match on the word after `Background task `.
unfoldable pub end_of_text : List ℕ → Option TaskEnd
end_of_text s =
    if same_text s (codes "succeeded")
    then some TaskEnd.succeeded
    else (if same_text s (codes "failed")
        then some TaskEnd.failed
        else (if same_text s (codes "cancelled")
            then some TaskEnd.cancelled
            else (if same_text s (codes "timed_out")
                then some TaskEnd.timed_out
                else (if same_text s (codes "lost") then some TaskEnd.lost else none))))

unfoldable pub end_of_summary : List ℕ → Option TaskEnd
unfolding strip_prefix before_first end_of_text
end_of_summary reason = elim (strip_prefix (codes "Background task ") reason) [
  | none ↦ none
  | some rest ↦ elim (before_first b'.' rest) [ none ↦ none | some status ↦ end_of_text status ]
]

unfoldable pub task_status_from_failure_reason : List ℕ → Option TaskEnd
unfolding end_of_summary
task_status_from_failure_reason reason =
    if same_text reason (codes "task cancelled")
    then some TaskEnd.cancelled
    else (if same_text reason (codes "task timed out")
        then some TaskEnd.timed_out
        else (if same_text reason (codes "task supervisor lost after daemon restart")
            then some TaskEnd.lost
            else end_of_summary reason))

-- The summary of a finished task; `details` are the lines after the first.
unfoldable pub build_task_delivery_summary : TaskEnd → List ℕ → List ℕ
build_task_delivery_summary status details =
    codes "Background task " ++ (end_text status ++ (b'.' ∷ 10 ∷ details))

-- The status of a task is read back from the summary that the daemon makes of it, whatever the
-- lines after the first are.
pub reason-summary :
    (status : TaskEnd) (details : List ℕ)
    → task_status_from_failure_reason (build_task_delivery_summary status details) ≡ some status
unfolding task_status_from_failure_reason build_task_delivery_summary same_text
reason-summary TaskEnd.succeeded details = refl
reason-summary TaskEnd.failed details = refl
reason-summary TaskEnd.cancelled details = refl
reason-summary TaskEnd.timed_out details = refl
reason-summary TaskEnd.lost details = refl
