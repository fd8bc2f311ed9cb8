-- ===== src/Delivery/Finality.antt =====
-- The rows of the store after a history of calls.
use codex_background_task_ha.Base.{
  ℕ, ◌≤◌, ◌≡◌, ap, ◌∙◌, true, false, List, Evolve-find, ok, found, found-some,
}
use codex_background_task_ha.Models.{
  is_pending, is_open, is_automatic, is_retired, is_accepted, JobRecord, BatchRecord,
  DeliveryAttemptRecord, CliManagedSessionRecord,
}
use codex_background_task_ha.Store.{
  Store, query_job_tx, query_batch_tx, query_delivery_attempt_tx, query_cli_managed_session_tx,
}
use codex_background_task_ha.Delivery.Edges.{
  BatchEdge, is_closed, AttemptEdge, SessionEdge, JobEdge,
}
use codex_background_task_ha.Delivery.Invariant.{Inv}
use codex_background_task_ha.Delivery.Calls.{Env, Call, run}
use codex_background_task_ha.Delivery.Histories.{run-Grows}

module _ (e : Env) (s : Store) (v : Inv s) (cs : List Call) where
  pub batch_after :
      (k : ℕ) (b : BatchRecord)
      → query_batch_tx s k ≡ ok b
      → (c : BatchRecord) × (query_batch_tx (run e s cs) k ≡ ok c) × BatchEdge b c
  unfolding query_batch_tx found
  batch_after k b there =
      let (c, f, edge) =
        Evolve-find BatchEdge (λ b. b.batch_id) (λ b c e. e.same_id) k (run-Grows e s cs v).batches
          b (found-some _ _ _ there) in
      (c, rw f, edge)

  pub attempt_after :
      (k : ℕ) (a : DeliveryAttemptRecord)
      → query_delivery_attempt_tx s k ≡ ok a
      → (c : DeliveryAttemptRecord) × (query_delivery_attempt_tx (run e s cs) k ≡ ok c)
        × AttemptEdge a c
  unfolding query_delivery_attempt_tx found
  attempt_after k a there =
      let (c, f, edge) =
        Evolve-find AttemptEdge (λ a. a.attempt_id) (λ a c e. e.same_id) k
          (run-Grows e s cs v).attempts a (found-some _ _ _ there) in
      (c, rw f, edge)

  pub session_after :
      (k : ℕ) (c : CliManagedSessionRecord)
      → query_cli_managed_session_tx s k ≡ ok c
      → (d : CliManagedSessionRecord) × (query_cli_managed_session_tx (run e s cs) k ≡ ok d)
        × SessionEdge c d
  unfolding query_cli_managed_session_tx found
  session_after k c there =
      let (d, f, edge) =
        Evolve-find SessionEdge (λ c. c.managed_session_id) (λ c d e. e.same_id) k
          (run-Grows e s cs v).sessions c (found-some _ _ _ there) in
      (d, rw f, edge)

  job_after :
      (k : ℕ) (j : JobRecord)
      → query_job_tx s k ≡ ok j
      → (i : JobRecord) × (query_job_tx (run e s cs) k ≡ ok i) × JobEdge j i
  unfolding query_job_tx found
  job_after k j there =
      let (i, f, edge) =
        Evolve-find JobEdge (λ j. j.job_id) (λ j i e. e.same_id) k (run-Grows e s cs v).jobs j
          (found-some _ _ _ there) in
      (i, rw f, edge)

  -- From a well-formed store, a closed batch is the same row after any history of calls.
  pub closed_batch_is_final :
      (k : ℕ) (b : BatchRecord)
      → query_batch_tx s k ≡ ok b
      → is_open b.state ≡ false
      → query_batch_tx (run e s cs) k ≡ ok b
  closed_batch_is_final k b there closed =
      let (c, f, edge) = batch_after k b there in
      let q : c ≡ b = edge.closed_stays closed in f ∙ ap ok q

  -- From a well-formed store, a batch that is handed over to manual resolution is not automatic
  -- after any history of calls, and its identity and its maximum are the same.
  pub manual_is_final :
      (k : ℕ) (b : BatchRecord)
      → query_batch_tx s k ≡ ok b
      → is_automatic b.replay_policy ≡ false
      → (c : BatchRecord) × (query_batch_tx (run e s cs) k ≡ ok c)
        × (is_automatic c.replay_policy ≡ false)
        × (c.source_thread_id ≡ b.source_thread_id)
        × (c.max_delivery_attempts ≡ b.max_delivery_attempts)
  manual_is_final k b there manual =
      let (c, f, edge) = batch_after k b there in
      (c, f, edge.manual_stays manual, edge.same_thread, edge.same_max)

  -- From a well-formed store, a closed attempt is the same row after any history of calls.
  pub closed_attempt_is_final :
      (k : ℕ) (a : DeliveryAttemptRecord)
      → query_delivery_attempt_tx s k ≡ ok a
      → is_closed a.state ≡ true
      → query_delivery_attempt_tx (run e s cs) k ≡ ok a
  closed_attempt_is_final k a there closed =
      let (c, f, edge) = attempt_after k a there in
      let q : c ≡ a = edge.closed_stays closed in f ∙ ap ok q

  -- From a well-formed store, an attempt whose turn was accepted stays accepted after any history
  -- of calls, with the same turn, batch, session and epoch.
  pub accepted_turn_is_final :
      (k : ℕ) (a : DeliveryAttemptRecord)
      → query_delivery_attempt_tx s k ≡ ok a
      → is_accepted a.delivery_rpc_state ≡ true
      → (c : DeliveryAttemptRecord) × (query_delivery_attempt_tx (run e s cs) k ≡ ok c)
        × (is_accepted c.delivery_rpc_state ≡ true)
        × (c.delivery_turn_id ≡ a.delivery_turn_id)
        × (c.batch_id ≡ a.batch_id)
        × (c.managed_session_id ≡ a.managed_session_id)
        × (c.session_epoch ≡ a.session_epoch)
  accepted_turn_is_final k a there accepted_ =
      let (c, f, edge) = attempt_after k a there in
      let (p, q) = edge.accepted_stays accepted_ in
      (c, f, p, q, edge.same_batch, edge.same_session, edge.same_epoch)

  -- From a well-formed store, a session keeps its thread after any history of calls, its epoch
  -- does not fall, and once retired it is retired.
  pub session_epoch_never_falls :
      (k : ℕ) (c : CliManagedSessionRecord)
      → query_cli_managed_session_tx s k ≡ ok c
      → (d : CliManagedSessionRecord) × (query_cli_managed_session_tx (run e s cs) k ≡ ok d)
        × (d.bound_thread_id ≡ c.bound_thread_id)
        × (c.session_epoch ≤ d.session_epoch)
        × (is_retired c.session_state ≡ true → is_retired d.session_state ≡ true)
  session_epoch_never_falls k c there =
      let (d, f, edge) = session_after k c there in
      (d, f, edge.same_thread, edge.epoch_grows, edge.retired_stays)

  -- From a well-formed store, a completed or failed job is the same row after any history of
  -- calls.
  pub finished_job_is_final :
      (k : ℕ) (j : JobRecord)
      → query_job_tx s k ≡ ok j
      → is_pending j.status ≡ false
      → query_job_tx (run e s cs) k ≡ ok j
  finished_job_is_final k j there finished =
      let (i, f, edge) = job_after k j there in
      let q : i ≡ j = edge.finished_stays finished in f ∙ ap ok q
