-- ===== src/Delivery/Refine/Plugin.antt =====
-- Enqueueing a plugin delivery, as runs of moves.
use codex_background_task_ha.Base.{
  ℕ, ◌&&◌, List, arith, Post, post_bind, post_seq, post_guard, post_ok, post_if, post_option,
}
use codex_background_task_ha.Models.{
  BatchRecord, NewPluginDelivery, PluginDeliveryEnqueueRecord,
  NewCodexAppServerAcceptPendingAttempt,
}
use codex_background_task_ha.Store.{Store, batch_is_thread_head_tx}
use codex_background_task_ha.Store.Plugin.Queries.{query_plugin_delivery_request_tx}
use codex_background_task_ha.Store.Plugin.{
  plugin_job_row, insert_plugin_artifact, plugin_request_row, insert_plugin_job,
  insert_plugin_batch, new_request, enqueue_plugin_delivery_tx, enqueue_plugin_delivery,
  attempt_if_head, enqueue_plugin_delivery_with_codex_app_server_attempt_if_head,
}
use codex_background_task_ha.Delivery.Moves.{
  add_job, add_request, edit_artifacts, Moves, stay, follow, one, Moves-trans,
}
use codex_background_task_ha.Delivery.Refine.Jobs.{insert_batch-Moves}
use codex_background_task_ha.Delivery.Refine.Begin.{
  begin_codex_app_server_accept_pending_attempt_tx-Moves,
}

module _ (s : Store) (d : NewPluginDelivery) where
  insert_plugin_job-Moves : Post (insert_plugin_job s d) (Moves s)
  unfolding insert_plugin_job plugin_job_row
  insert_plugin_job-Moves =
      post_guard _ _ _
        λ fresh. post_ok (Moves s) _ (one (add_job (plugin_job_row d) (ground arith)))

  insert_plugin_artifact-Moves : Post (insert_plugin_artifact s d) (Moves s)
  unfolding insert_plugin_artifact
  insert_plugin_artifact-Moves =
      post_option d.artifact _ _ (λ _. post_ok (Moves s) _ stay)
        (λ f _. post_seq _ _ λ _. post_seq _ _ λ _. post_ok (Moves s) _ (one (edit_artifacts _)))

  insert_plugin_batch-Moves : Post (insert_plugin_batch s d) (Moves s)
  unfolding insert_plugin_batch
  insert_plugin_batch-Moves =
      post_bind _ _ λ at _. post_bind _ _ λ ends _. insert_batch-Moves s _ d.job_id

module _ (s : Store) where
  new_request-Moves : (d : NewPluginDelivery) → Post (new_request s d) (λ p. Moves s p.0)
  unfolding new_request
  new_request-Moves d = post_bind _ _ λ t e. post_bind _ _ λ u f. post_bind _ _ λ v g.
      post_bind _ _ λ j _. post_bind _ _ λ b _.
        post_ok (λ p. Moves s p.0) _
          (follow
            (Moves-trans (insert_plugin_job-Moves s d t e) (
              Moves-trans (insert_plugin_artifact-Moves t d u f)
                (insert_plugin_batch-Moves u d v g)))
            (add_request (plugin_request_row d)))

  pub enqueue_plugin_delivery_tx-Moves :
      (d : NewPluginDelivery) → Post (enqueue_plugin_delivery_tx s d) (λ p. Moves s p.0)
  unfolding enqueue_plugin_delivery_tx
  enqueue_plugin_delivery_tx-Moves d =
      post_option (query_plugin_delivery_request_tx s d.plugin_name d.idempotency_key) _ _
        (λ _. new_request-Moves d) (λ p _. post_bind _ _ λ r _. post_ok (λ p. Moves s p.0) _ stay)

  pub attempt_if_head-Moves :
      (r : PluginDeliveryEnqueueRecord) (b : BatchRecord)
      (attempt : NewCodexAppServerAcceptPendingAttempt)
      → Post (attempt_if_head s r b attempt) (λ p. Moves s p.0)
  unfolding attempt_if_head
  attempt_if_head-Moves r b attempt =
      post_if (r.created && batch_is_thread_head_tx s b) _ _
        (λ _. post_bind _ _ λ p e.
          post_ok (λ p. Moves s p.0) _
            (begin_codex_app_server_accept_pending_attempt_tx-Moves s attempt p e))
        (λ _. post_ok (λ p. Moves s p.0) _ stay)

module _ (s : Store) where
  pub enqueue-Moves :
      (bytes : ℕ → List ℕ) (d : NewPluginDelivery)
      → Post (enqueue_plugin_delivery bytes s d) (λ p. Moves s p.0)
  unfolding enqueue_plugin_delivery
  enqueue-Moves bytes d = post_seq _ _ λ _. enqueue_plugin_delivery_tx-Moves s d

  pub enqueue_if_head-Moves :
      (bytes : ℕ → List ℕ) (d : NewPluginDelivery) (attempt : NewCodexAppServerAcceptPendingAttempt)
      → Post
          (enqueue_plugin_delivery_with_codex_app_server_attempt_if_head bytes s d attempt)
          (λ p. Moves s p.0)
  unfolding enqueue_plugin_delivery_with_codex_app_server_attempt_if_head
  enqueue_if_head-Moves bytes d attempt = post_seq _ _ λ _. post_seq _ _ λ _. post_seq _ _ λ _.
      post_bind _ _ λ p e. post_bind _ _ λ b _. post_bind _ _ λ q f.
        post_ok (λ p. Moves s p.0) _
          (Moves-trans (enqueue_plugin_delivery_tx-Moves s d p e)
            (attempt_if_head-Moves p.0 p.1 b attempt q f))
