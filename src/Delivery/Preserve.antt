-- ===== src/Delivery/Preserve.antt =====
-- The moves and the invariant.
use codex_background_task_ha.Base.{Pointwise-Keyed, Keyed-append}
use codex_background_task_ha.Store.{Store}
use codex_background_task_ha.Delivery.Edges.{JobEdge}
use codex_background_task_ha.Delivery.Moves.{
  Move, Moves, edit_attempts, edit_batches, close, spend, add_attempt, add_batch, edit_sessions,
  add_session, edit_jobs, add_job, edit_artifacts, add_request, edit_audits, stay, follow,
}
use codex_background_task_ha.Delivery.Invariant.{Inv}
use codex_background_task_ha.Delivery.Invariant.Attempts.{edit_attempts-Inv, add_attempt-Inv}
use codex_background_task_ha.Delivery.Invariant.Batches.{edit_batches-Inv, close-Inv, add_batch-Inv}
use codex_background_task_ha.Delivery.Invariant.Spending.{spend-Inv}
use codex_background_task_ha.Delivery.Invariant.Others.{
  edit_sessions-Inv, add_session-Inv, jobs-Inv,
}

pub Move-Inv : {s t : Store} → Move s t → Inv s → Inv t
Move-Inv {s} (edit_attempts rows p) v = edit_attempts-Inv s rows p v
Move-Inv {s} (edit_batches rows p) v = edit_batches-Inv s rows p v
Move-Inv {s} (close k reason note now quiet) v = close-Inv s k reason note now v quiet
Move-Inv {s} (spend k a f now there p sp e one) v = spend-Inv s k a f now v there p sp e one
Move-Inv {s} (add_attempt row b there o _ idle fresh unspent) v =
    add_attempt-Inv s row b v there o idle fresh unspent
Move-Inv {s} (add_batch b links fresh) v = add_batch-Inv s b links v fresh
Move-Inv {s} (edit_sessions rows p) v = edit_sessions-Inv s rows p v
Move-Inv {s} (add_session row fresh free) v = add_session-Inv s row v fresh free
Move-Inv {s} (edit_jobs rows p) v =
    jobs-Inv s rows (Pointwise-Keyed JobEdge (λ j. j.job_id) (λ j k e. e.same_id) p v.jobs_keyed) v
Move-Inv {s} (add_job row fresh) v =
    jobs-Inv s _ (Keyed-append (λ j. j.job_id) s.jobs row v.jobs_keyed fresh) v
Move-Inv (edit_artifacts rows) v = record {
  jobs_keyed = v.jobs_keyed;
  batches_keyed = v.batches_keyed;
  attempts_keyed = v.attempts_keyed;
  sessions_keyed = v.sessions_keyed;
  housed = v.housed;
  accounted = v.accounted;
  single_flight = v.single_flight;
  single_session = v.single_session;
}
Move-Inv (add_request row) v = record {
  jobs_keyed = v.jobs_keyed;
  batches_keyed = v.batches_keyed;
  attempts_keyed = v.attempts_keyed;
  sessions_keyed = v.sessions_keyed;
  housed = v.housed;
  accounted = v.accounted;
  single_flight = v.single_flight;
  single_session = v.single_session;
}
Move-Inv (edit_audits rows) v = record {
  jobs_keyed = v.jobs_keyed;
  batches_keyed = v.batches_keyed;
  attempts_keyed = v.attempts_keyed;
  sessions_keyed = v.sessions_keyed;
  housed = v.housed;
  accounted = v.accounted;
  single_flight = v.single_flight;
  single_session = v.single_session;
}

pub Moves-Inv : {s t : Store} → Moves s t → Inv s → Inv t
Moves-Inv stay v = v
Moves-Inv (follow p m) v = Move-Inv m (Moves-Inv p v)
