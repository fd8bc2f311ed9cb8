-- ===== src/Delivery/Idempotency.antt =====
-- An idempotency key of a plugin, used again after any history of calls (`enqueue_plugin_delivery_tx`,
-- `enqueue_plugin_delivery_with_codex_app_server_attempt_if_head`).
use codex_background_task_ha.Base.{
  ℕ, ◌≡◌, refl, ap, ◌∙◌, true, false, Option, none, List, ◌==◌, Evolve-find, Error, ok, err, ◌>>=◌,
  guard, found, Post, post_bind, post_seq, post_ok, bind_of, seq_of, found-some,
}
use codex_background_task_ha.Models.{
  BatchRecord, DeliveryAttemptRecord, NewPluginDelivery, PluginDeliveryEnqueueRecord,
  NewCodexAppServerAcceptPendingAttempt,
}
use codex_background_task_ha.Store.{Store, query_batch_tx}
use codex_background_task_ha.Store.Attempts.{validate_codex_app_server_accept_pending_attempt}
use codex_background_task_ha.Store.Plugin.Validation.{
  is_path_component, validate_new_plugin_delivery,
}
use codex_background_task_ha.Store.Plugin.{
  attempt_if_head, enqueue_plugin_delivery_with_codex_app_server_attempt_if_head,
}
use codex_background_task_ha.Base.{err_of}
use codex_background_task_ha.Delivery.Edges.{BatchEdge}
use codex_background_task_ha.Delivery.Moves.{Moves, Moves-trans}
use codex_background_task_ha.Delivery.Invariant.{Inv}
use codex_background_task_ha.Delivery.Preserve.{Moves-Inv}
use codex_background_task_ha.Delivery.Growth.{Moves-Grows}
use codex_background_task_ha.Delivery.Calls.{Env, Call, run}
use codex_background_task_ha.Delivery.Histories.{run-Moves}
use codex_background_task_ha.Delivery.Refine.Plugin.{
  enqueue_plugin_delivery_tx-Moves, attempt_if_head-Moves,
}
use codex_background_task_ha.Delivery.Requests.{
  Known, Known-Grows, enqueue-Known, Repeats, answer, enqueue_again, enqueue_other,
}

abbrev pub Enqueue : Type 0
Enqueue = Store × (PluginDeliveryEnqueueRecord × Option DeliveryAttemptRecord)

-- What the store checks of a request before it looks at its tables.
pub record Passes (bytes : ℕ → List ℕ) (d : NewPluginDelivery)
    (attempt : NewCodexAppServerAcceptPendingAttempt) : Type 0 where
  pub delivery : validate_new_plugin_delivery bytes d ≡ ok tt
  pub request :
      validate_codex_app_server_accept_pending_attempt (is_path_component bytes) attempt ≡ ok tt
  pub same_batch : (attempt.batch_id == d.batch_id) ≡ true

-- What a successful enqueue leaves behind.
record Enqueued (s : Store) (d : NewPluginDelivery) (p : Enqueue) : Type 0 where
  known : Known p.0 d p.1.0.job.job_id p.1.0.batch.batch.batch_id
  moves : Moves s p.0
  batch : BatchRecord
  has_batch : query_batch_tx p.0 d.batch_id ≡ ok batch

module _ (bytes : ℕ → List ℕ) (s : Store) where
  enqueue-Enqueued :
      (d : NewPluginDelivery) (attempt : NewCodexAppServerAcceptPendingAttempt)
      → Post
          (enqueue_plugin_delivery_with_codex_app_server_attempt_if_head bytes s d attempt)
          (Enqueued s d)
  unfolding enqueue_plugin_delivery_with_codex_app_server_attempt_if_head query_batch_tx found
  enqueue-Enqueued d attempt = post_seq _ _ λ _. post_seq _ _ λ _. post_seq _ _ λ _.
      post_bind _ _ λ p e. post_bind _ _ λ b there. post_bind _ _ λ q f.
        let m = attempt_if_head-Moves p.0 p.1 b attempt q f in
        let g = Moves-Grows m in
        let (c, there', _) =
          Evolve-find BatchEdge (λ b. b.batch_id) (λ b c e. e.same_id) d.batch_id g.batches b
            (found-some _ _ _ there) in
        post_ok (Enqueued s d) _ (record {
          known = Known-Grows p.0 q.0 d _ _ g (enqueue-Known s d p e);
          moves = Moves-trans (enqueue_plugin_delivery_tx-Moves s d p e) m;
          batch = c;
          has_batch = rw there' refl;
        })

module _ (e : Env) (s : Store) (v : Inv s) where
  Known-after :
      (d : NewPluginDelivery) (p : Enqueue) (cs : List Call)
      → Enqueued s d p
      → Known (run e p.0 cs) d p.1.0.job.job_id p.1.0.batch.batch.batch_id
        × ((c : BatchRecord) × (query_batch_tx (run e p.0 cs) d.batch_id ≡ ok c))
  unfolding query_batch_tx found
  Known-after d p cs q =
      let g = Moves-Grows (run-Moves e p.0 cs (Moves-Inv q.moves v)) in
      let (c, there, _) =
        Evolve-find BatchEdge (λ b. b.batch_id) (λ b c e. e.same_id) d.batch_id g.batches q.batch
          (found-some _ _ _ q.has_batch) in
      (Known-Grows p.0 (run e p.0 cs) d _ _ g q.known, (c, rw there refl))

  -- A request that was enqueued from a well-formed store, repeated with the same key, batch and
  -- fingerprint after any history of calls, is answered with the job and the batch of the first
  -- answer, as not created, and changes nothing.
  pub enqueue_is_idempotent :
      (d d' : NewPluginDelivery) (attempt attempt' : NewCodexAppServerAcceptPendingAttempt)
      (p : Enqueue)
      → enqueue_plugin_delivery_with_codex_app_server_attempt_if_head e.bytes s d attempt ≡ ok p
      → (cs : List Call) → Repeats d d'
      → d'.request_fingerprint ≡ d.request_fingerprint
      → Passes e.bytes d' attempt'
      → (r : PluginDeliveryEnqueueRecord)
        × (enqueue_plugin_delivery_with_codex_app_server_attempt_if_head e.bytes
              (run e p.0 cs)
              d'
              attempt'
            ≡ ok (run e p.0 cs, (r, none)))
        × (r.created ≡ false)
        × (r.job.job_id ≡ p.1.0.job.job_id)
        × (r.batch.batch.batch_id ≡ p.1.0.batch.batch.batch_id)
  unfolding enqueue_plugin_delivery_with_codex_app_server_attempt_if_head attempt_if_head guard
      ◌>>=◌
  enqueue_is_idempotent d d' attempt attempt' p done cs again same passes =
      let t = run e p.0 cs in
      let (k, (c, there)) = Known-after d p cs (enqueue-Enqueued e.bytes s d attempt p done) in
      let r = answer t d' k.row k.job k.batch in
      let there' : query_batch_tx t d'.batch_id ≡ ok c = rw again.same_batch there in
      (
        r,
        seq_of _ _ passes.delivery
            ∙ seq_of _ _ passes.request
            ∙ seq_of _ _ (ap (λ x. guard x Error.request_mismatch) passes.same_batch)
            ∙ bind_of _ _ (t, r) (enqueue_again t d' d _ _ k again same)
            ∙ bind_of _ _ c there',
        refl,
        k.same_job,
        k.same_batch,
      )

  -- A request that was enqueued from a well-formed store, repeated with the same key but another
  -- fingerprint after any history of calls, is refused for the fingerprint.
  pub enqueue_refuses_other_request :
      (d d' : NewPluginDelivery) (attempt attempt' : NewCodexAppServerAcceptPendingAttempt)
      (p : Enqueue)
      → enqueue_plugin_delivery_with_codex_app_server_attempt_if_head e.bytes s d attempt ≡ ok p
      → (cs : List Call) → Repeats d d'
      → (d'.request_fingerprint == d.request_fingerprint) ≡ false
      → Passes e.bytes d' attempt'
      → enqueue_plugin_delivery_with_codex_app_server_attempt_if_head e.bytes
          (run e p.0 cs)
          d'
          attempt'
        ≡ err Error.fingerprint_mismatch
  unfolding enqueue_plugin_delivery_with_codex_app_server_attempt_if_head guard
  enqueue_refuses_other_request d d' attempt attempt' p done cs again other passes =
      let t = run e p.0 cs in
      let (k, _) = Known-after d p cs (enqueue-Enqueued e.bytes s d attempt p done) in
      seq_of _ _ passes.delivery
      ∙ seq_of _ _ passes.request
      ∙ seq_of _ _ (ap (λ x. guard x Error.request_mismatch) passes.same_batch)
      ∙ err_of _ _ (enqueue_other t d' d _ _ k again other)
