-- ===== src/Delivery/Refine/Jobs.antt =====
-- Submitting and finishing a job, and the calls of the operator on a batch, as runs of moves.
use codex_background_task_ha.Base.{
  ℕ, ◌≡◌, refl, ap, ◌∙◌, Bool, true, false, Option, some, arith, ◌==◌, All-map, find_where, Keyed,
  Keyed-find, Pointwise-update_All, ok, Post, post_bind, post_seq, post_guard, post_ok, found-some,
}
use codex_background_task_ha.Models.{
  is_pending, is_active, Summary, JobRecord, NewBatch, DeliveryAttemptRecord, NewJob, NewArtifact,
}
use codex_background_task_ha.Store.{Store, query_job_tx}
use codex_background_task_ha.Store.Batches.{insert_batch_tx, manualize_rows}
use codex_background_task_ha.Store.Guards.{ensure_job_pending}
use codex_background_task_ha.Store.Jobs.{
  new_job_row, submit_job_for_supervisor_generation, insert_artifact, complete_job_row,
  fail_job_row, fail_job_with_artifact_row, update_job, queue_batch, complete_job,
  fail_job_with_artifact, fail_job, close_head, withdrawn_rpc_state, withdrawn_observation,
  withdraw_row, withdraw_rows, manualize_plugin_delivery,
}
use codex_background_task_ha.Delivery.Edges.{Calm, JobEdge, JobEdge-refl}
use codex_background_task_ha.Delivery.Moves.{
  add_batch, edit_jobs, add_job, edit_artifacts, Moves, one, Moves-trans,
}
use codex_background_task_ha.Delivery.Refine.{after, Calm-update, manualize-Moves, extend-Moves}
use codex_background_task_ha.Delivery.Refine.Close.{close_batch-Moves}

module _ (s : Store) where
  pub submit_job_for_supervisor_generation-Moves :
      (j : NewJob) (generation : Option ℕ)
      → Post (submit_job_for_supervisor_generation s j generation) (λ p. Moves s p.0)
  unfolding submit_job_for_supervisor_generation new_job_row
  submit_job_for_supervisor_generation-Moves j generation = post_guard _ _ _ λ fresh.
      post_bind _ _ λ r _.
        post_ok (λ p. Moves s p.0) _ (one (add_job (new_job_row j generation) (ground arith)))

  insert_artifact-Moves : (f : NewArtifact) → Post (insert_artifact s f) (Moves s)
  unfolding insert_artifact
  insert_artifact-Moves f =
      post_seq _ _ λ _. post_seq _ _ λ _. post_ok (Moves s) _ (one (edit_artifacts _))

  insert_artifact_jobs : (f : NewArtifact) → Post (insert_artifact s f) (λ t. t.jobs ≡ s.jobs)
  unfolding insert_artifact
  insert_artifact_jobs f = post_seq _ _ λ _. post_seq _ _ λ _. post_ok (λ t. t.jobs ≡ s.jobs) _ refl

  pub insert_batch-Moves : (b : NewBatch) (job_id : ℕ) → Post (insert_batch_tx s b job_id) (Moves s)
  unfolding insert_batch_tx
  insert_batch-Moves b job_id =
      post_guard _ _ _ λ fresh. post_ok (Moves s) _ (one (add_batch b _ (ground arith)))

  queue-Moves :
      (id job_id : ℕ) (summary : JobRecord → Summary) (now attempts window : ℕ) (artifact : Bool)
      → Post (queue_batch s id job_id summary now attempts window artifact) (λ p. Moves s p.0)
  unfolding queue_batch
  queue-Moves id job_id summary now attempts window artifact = post_bind _ _ λ j _.
      post_bind _ _ λ ends _.
        post_bind _ _
          λ t e. post_bind _ _ λ b _. post_ok (λ p. Moves s p.0) _ (insert_batch-Moves _ job_id t e)

  -- A pending job finishes.
  pub finish-Moves :
      (k : ℕ) (j : JobRecord) (f : JobRecord → JobRecord)
      → Keyed (λ j. j.job_id) s.jobs
      → find_where (λ j. j.job_id == k) s.jobs ≡ some j
      → is_pending j.status ≡ true
      → ((x : JobRecord) → is_pending x.status ≡ true → JobEdge x (f x))
      → Moves s (update_job s k f)
  unfolding update_job
  finish-Moves k j f keyed there pending e = one (
      edit_jobs _ (
        Pointwise-update_All JobEdge JobEdge-refl (λ x. x.job_id == k) f s.jobs
          (All-map (λ x. (x.job_id == k) ≡ true → x ≡ j) _ s.jobs
            (λ x same q. e x (ap (λ z. is_pending z.status) (same q) ∙ pending))
            (Keyed-find (λ x. x.job_id) k s.jobs j keyed there))))

complete-JobEdge :
    (artifact now : ℕ) (j : JobRecord)
    → is_pending j.status ≡ true
    → JobEdge j (complete_job_row artifact now j)
unfolding complete_job_row
complete-JobEdge artifact now j h = ground arith

pub fail-JobEdge :
    (reason now : ℕ) (j : JobRecord)
    → is_pending j.status ≡ true
    → JobEdge j (fail_job_row reason now j)
unfolding fail_job_row
fail-JobEdge reason now j h = ground arith

fail_with_artifact-JobEdge :
    (reason artifact now : ℕ) (j : JobRecord)
    → is_pending j.status ≡ true
    → JobEdge j (fail_job_with_artifact_row reason artifact now j)
unfolding fail_job_with_artifact_row fail_job_row
fail_with_artifact-JobEdge reason artifact now j h = ground arith

module _ (id : ℕ) (s : Store) where
  -- The calls that finish a job with an artifact.
  finish_with_artifact-Moves :
      (f : NewArtifact) (j : JobRecord) (t : Store) (g : JobRecord → JobRecord)
      → Keyed (λ j. j.job_id) s.jobs
      → query_job_tx s f.job_id ≡ ok j
      → is_pending j.status ≡ true
      → ((x : JobRecord) → is_pending x.status ≡ true → JobEdge x (g x))
      → insert_artifact s f ≡ ok t
      → Moves s (update_job t f.job_id g)
  unfolding query_job_tx
  finish_with_artifact-Moves f j t g keyed there pending e made =
      let same = insert_artifact_jobs s f t made in
      Moves-trans (insert_artifact-Moves s f t made)
        (finish-Moves t f.job_id j g (rw same keyed) (rw same (found-some _ _ _ there)) pending e)

  pub complete_job-Moves :
      (f : NewArtifact) (summary : Option ℕ) (now attempts window : ℕ)
      → Keyed (λ j. j.job_id) s.jobs
      → Post (complete_job id s f summary now attempts window) (λ p. Moves s p.0)
  unfolding complete_job ensure_job_pending
  complete_job-Moves f summary now attempts window keyed = post_bind _ _ λ j there.
      post_guard _ _ _ λ pending. post_bind _ _ λ t made.
        after (λ p. p.0) _
          (finish_with_artifact-Moves f j t (complete_job_row f.artifact_id now) keyed there pending
            (complete-JobEdge f.artifact_id now) made)
          (queue-Moves _ id f.job_id _ now attempts window true)

  pub fail_job_with_artifact-Moves :
      (f : NewArtifact) (reason now attempts window : ℕ)
      → Keyed (λ j. j.job_id) s.jobs
      → Post (fail_job_with_artifact id s f reason now attempts window) (λ p. Moves s p.0)
  unfolding fail_job_with_artifact ensure_job_pending
  fail_job_with_artifact-Moves f reason now attempts window keyed = post_bind _ _ λ j there.
      post_guard _ _ _ λ pending. post_bind _ _ λ t made.
        after (λ p. p.0) _
          (finish_with_artifact-Moves f j t (fail_job_with_artifact_row reason f.artifact_id now)
            keyed there pending (fail_with_artifact-JobEdge reason f.artifact_id now) made)
          (queue-Moves _ id f.job_id _ now attempts window true)

  pub fail_job-Moves :
      (k reason now attempts window : ℕ)
      → Keyed (λ j. j.job_id) s.jobs
      → Post (fail_job id s k reason now attempts window) (λ p. Moves s p.0)
  unfolding fail_job ensure_job_pending query_job_tx
  fail_job-Moves k reason now attempts window keyed = post_bind _ _ λ j there.
      post_guard _ _ _ λ pending.
        after (λ p. p.0) _
          (finish-Moves s k j (fail_job_row reason now) keyed (found-some _ _ _ there) pending
            (fail-JobEdge reason now))
          (queue-Moves _ id k _ now attempts window false)

module _ (s : Store) where
  pub close_head-Moves :
      (thread reason : ℕ) (note : Option ℕ) (now : ℕ)
      → Post (close_head s thread reason note now) (λ p. Moves s p.0)
  unfolding close_head
  close_head-Moves thread reason note now = post_bind _ _ λ b _. post_bind _ _ λ t e.
      post_bind _ _ λ u f. post_bind _ _ λ c _.
        post_ok (λ p. Moves s p.0) _
          (Moves-trans (close_batch-Moves s b.batch_id reason note now t e)
            (extend-Moves t b.batch_id now u f))

  withdraw-Calm :
      (now : ℕ) (a : DeliveryAttemptRecord) → is_active a.state ≡ true → Calm a (withdraw_row now a)
  unfolding withdraw_row withdrawn_rpc_state withdrawn_observation
  withdraw-Calm now a h = ground arith

  withdraw-Moves : (k now : ℕ) → Moves s (withdraw_rows s k now)
  unfolding withdraw_rows
  withdraw-Moves k now =
      Calm-update s _ (withdraw_row now) λ a h. withdraw-Calm now a (ground arith)

module _ (s : Store) where
  pub manualize_plugin_delivery-Moves :
      (k reason now : ℕ) → Post (manualize_plugin_delivery s k reason now) (λ p. Moves s p.0)
  unfolding manualize_plugin_delivery
  manualize_plugin_delivery-Moves k reason now = post_seq _ _ λ _. post_seq _ _ λ _.
      post_bind _ _ λ b _. post_seq _ _ λ _. post_bind _ _ λ window _. post_bind _ _ λ c _.
        post_ok (λ p. Moves s p.0) _
          (Moves-trans (manualize-Moves s k window now)
            (withdraw-Moves (manualize_rows s k window now) k now))
