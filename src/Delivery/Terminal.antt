-- ===== src/Delivery/Terminal.antt =====
-- Terminal events of a tracked turn (store.rs, `observe_*`).
use codex_background_task_ha.Base.{ℕ, ◌≡◌, ◌⊎◌, true}
use codex_background_task_ha.Models.{TurnEvent, is_turn_completed}
use codex_background_task_ha.Store.{Store}
use codex_background_task_ha.Delivery.Endings.{Closed, Manual}

-- The batch is closed after a completion, or waits for a person.
abbrev pub Ended : TurnEvent → ℕ → Store → Type 0
Ended event k s = ((is_turn_completed event ≡ true) × Closed k s) ⊎ Manual k s
