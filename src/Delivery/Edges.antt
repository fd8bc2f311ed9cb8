-- ===== src/Delivery/Edges.antt =====
-- The life of one row: how a batch, an attempt, a session or a job may change.
use codex_background_task_ha.Base.{◌≤◌, ◌≡◌, refl, ◌∙◌, Bool, true, false, ◌&&◌, ◌||◌, arith}
use codex_background_task_ha.Models.{
  JobRecord, BatchRecord, DeliveryAttemptRecord, CliManagedSessionRecord, codex_app_server,
  is_pending, is_open, is_automatic, is_retired, is_active, is_accepted, is_rejected_before_accept,
  adapter_eq, AttemptState,
}

-- A batch keeps its identity and its budget; a closed batch is final, manual resolution too.
pub record BatchEdge (b c : BatchRecord) : Type 0 where
  pub same_id : c.batch_id ≡ b.batch_id
  pub same_thread : c.source_thread_id ≡ b.source_thread_id
  pub same_created : c.created_at ≡ b.created_at
  pub same_max : c.max_delivery_attempts ≡ b.max_delivery_attempts
  pub closed_stays : is_open b.state ≡ false → c ≡ b
  pub manual_stays : is_automatic b.replay_policy ≡ false → is_automatic c.replay_policy ≡ false
  pub counts_up : b.delivery_attempt_count ≤ c.delivery_attempt_count
  pub within_budget :
      b.delivery_attempt_count ≤ b.max_delivery_attempts
      → c.delivery_attempt_count ≤ c.max_delivery_attempts
  pub window_grows : b.redelivery_window_ends_at ≤ c.redelivery_window_ends_at

pub BatchEdge-refl : (b : BatchRecord) → BatchEdge b b
BatchEdge-refl b = ground arith

pub BatchEdge-trans : (b c d : BatchRecord) → BatchEdge b c → BatchEdge c d → BatchEdge b d
BatchEdge-trans b c d e f = record {
  same_id = f.same_id ∙ e.same_id;
  same_thread = f.same_thread ∙ e.same_thread;
  same_created = f.same_created ∙ e.same_created;
  same_max = f.same_max ∙ e.same_max;
  closed_stays = λ h. let q : c ≡ b = e.closed_stays h in f.closed_stays (rw q h) ∙ q;
  manual_stays = λ h. f.manual_stays (e.manual_stays h);
  counts_up = omega arith;
  within_budget = λ h. f.within_budget (e.within_budget h);
  window_grows = omega arith;
}

-- The attempt used up one delivery of its batch: a turn was accepted, or the app server refused it.
abbrev pub spends : DeliveryAttemptRecord → Bool
spends a =
    is_accepted a.delivery_rpc_state
    || adapter_eq a.adapter_kind codex_app_server && is_rejected_before_accept a.delivery_rpc_state

abbrev pub is_closed : AttemptState → Bool
is_closed AttemptState.closed = true
is_closed _ = false

-- An attempt keeps its identity; a closed attempt is final; an accepted turn stays accepted.
pub record AttemptEdge (a c : DeliveryAttemptRecord) : Type 0 where
  pub same_id : c.attempt_id ≡ a.attempt_id
  pub same_batch : c.batch_id ≡ a.batch_id
  pub same_thread : c.source_thread_id ≡ a.source_thread_id
  pub same_adapter : c.adapter_kind ≡ a.adapter_kind
  pub same_mode : c.authorization_mode ≡ a.authorization_mode
  pub same_generation : c.generation ≡ a.generation
  pub same_session : c.managed_session_id ≡ a.managed_session_id
  pub same_epoch : c.session_epoch ≡ a.session_epoch
  pub closed_stays : is_closed a.state ≡ true → c ≡ a
  pub accepted_stays :
      is_accepted a.delivery_rpc_state ≡ true
      → (is_accepted c.delivery_rpc_state ≡ true) × (c.delivery_turn_id ≡ a.delivery_turn_id)
  pub spent_stays : spends a ≡ true → spends c ≡ true

pub AttemptEdge-refl : (a : DeliveryAttemptRecord) → AttemptEdge a a
AttemptEdge-refl a = record {
  same_id = refl;
  same_batch = refl;
  same_thread = refl;
  same_adapter = refl;
  same_mode = refl;
  same_generation = refl;
  same_session = refl;
  same_epoch = refl;
  closed_stays = λ _. refl;
  accepted_stays = λ h. (h, refl);
  spent_stays = λ h. h;
}

pub AttemptEdge-trans :
    (a c d : DeliveryAttemptRecord) → AttemptEdge a c → AttemptEdge c d → AttemptEdge a d
AttemptEdge-trans a c d e f = record {
  same_id = f.same_id ∙ e.same_id;
  same_batch = f.same_batch ∙ e.same_batch;
  same_thread = f.same_thread ∙ e.same_thread;
  same_adapter = f.same_adapter ∙ e.same_adapter;
  same_mode = f.same_mode ∙ e.same_mode;
  same_generation = f.same_generation ∙ e.same_generation;
  same_session = f.same_session ∙ e.same_session;
  same_epoch = f.same_epoch ∙ e.same_epoch;
  closed_stays = λ h. let q : c ≡ a = e.closed_stays h in f.closed_stays (rw q h) ∙ q;
  accepted_stays =
      λ h. let (p, q) = e.accepted_stays h in let (r, t) = f.accepted_stays p in (r, t ∙ q);
  spent_stays = λ h. f.spent_stays (e.spent_stays h);
}

-- An edge that starts no attempt and uses up no delivery.
pub record Calm (a c : DeliveryAttemptRecord) : Type 0 where
  pub edge : AttemptEdge a c
  pub same_spending : spends c ≡ spends a
  pub starts_none : is_active c.state ≡ true → is_active a.state ≡ true

-- A session keeps its identity; its epoch never falls; a retired session is final.
pub record SessionEdge (c d : CliManagedSessionRecord) : Type 0 where
  pub same_id : d.managed_session_id ≡ c.managed_session_id
  pub same_thread : d.bound_thread_id ≡ c.bound_thread_id
  pub epoch_grows : c.session_epoch ≤ d.session_epoch
  pub retired_stays : is_retired c.session_state ≡ true → is_retired d.session_state ≡ true

pub SessionEdge-refl : (c : CliManagedSessionRecord) → SessionEdge c c
SessionEdge-refl c = record {
  same_id = refl;
  same_thread = refl;
  epoch_grows = omega arith;
  retired_stays = λ h. h;
}

pub SessionEdge-trans :
    (c d e : CliManagedSessionRecord) → SessionEdge c d → SessionEdge d e → SessionEdge c e
SessionEdge-trans c d e p q = record {
  same_id = q.same_id ∙ p.same_id;
  same_thread = q.same_thread ∙ p.same_thread;
  epoch_grows = omega arith;
  retired_stays = λ h. q.retired_stays (p.retired_stays h);
}

-- A job keeps its identity, and is final once it is completed or failed.
pub record JobEdge (j k : JobRecord) : Type 0 where
  pub same_id : k.job_id ≡ j.job_id
  pub same_thread : k.source_thread_id ≡ j.source_thread_id
  pub finished_stays : is_pending j.status ≡ false → k ≡ j

pub JobEdge-refl : (j : JobRecord) → JobEdge j j
JobEdge-refl j = record { same_id = refl; same_thread = refl; finished_stays = λ _. refl }

pub JobEdge-trans : (j k l : JobRecord) → JobEdge j k → JobEdge k l → JobEdge j l
JobEdge-trans j k l e f = record {
  same_id = f.same_id ∙ e.same_id;
  same_thread = f.same_thread ∙ e.same_thread;
  finished_stays = λ h. let q : k ≡ j = e.finished_stays h in f.finished_stays (rw q h) ∙ q;
}
