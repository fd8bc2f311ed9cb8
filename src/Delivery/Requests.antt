-- ===== src/Delivery/Requests.antt =====
-- A request that `plugin_delivery_requests` has, with its job and its batch, and what enqueueing it
-- again does (`enqueue_plugin_delivery_tx`).
use codex_background_task_ha.Base.{
  ℕ, ◌≡◌, refl, ap, ◌∙◌, inl, inr, Bool, true, false, Option, none, some, List, [], ◌∷◌, ◌++◌,
  arith, ◌==◌, ==_refl, Bool-cases, find_where, Evolve, Evolve-find, find-append, none_found, Error,
  ok, err, ◌>>=◌, ◌>>◌, guard, found, Post, post_bind, post_seq, post_guard, post_ok, post_option,
  bind_of, seq_of, found-some,
}
use codex_background_task_ha.Models.{
  JobRecord, BatchRecord, BatchInspect, PluginDeliveryRequestRecord, NewPluginDelivery,
  PluginDeliveryEnqueueRecord,
}
use codex_background_task_ha.Store.{Store, query_job_tx, query_batch_tx}
use codex_background_task_ha.Store.Batches.{insert_batch_tx}
use codex_background_task_ha.Store.Plugin.Queries.{
  is_request, query_plugin_delivery_request_tx, query_batch_jobs_tx, query_batch_inspect_tx,
  known_request,
}
use codex_background_task_ha.Store.Plugin.{
  insert_plugin_artifact, plugin_request_row, insert_plugin_job, insert_plugin_batch, new_request,
  enqueue_plugin_delivery_tx,
}
use codex_background_task_ha.Base.{added, kept}
use codex_background_task_ha.Delivery.Edges.{BatchEdge, JobEdge}
use codex_background_task_ha.Delivery.Growth.{Grows, Same}

-- A request with its job and its batch.
pub record Known (s : Store) (d : NewPluginDelivery) (job_id batch_id : ℕ) : Type 0 where
  pub row : PluginDeliveryRequestRecord
  pub job : JobRecord
  pub batch : BatchRecord
  pub request : query_plugin_delivery_request_tx s d.plugin_name d.idempotency_key ≡ some row
  pub fingerprint : (row.request_fingerprint == d.request_fingerprint) ≡ true
  pub has_job : query_job_tx s row.job_id ≡ ok job
  pub has_batch : query_batch_tx s row.batch_id ≡ ok batch
  pub same_job : job.job_id ≡ job_id
  pub same_batch : batch.batch_id ≡ batch_id

find-Same :
    (t : PluginDeliveryRequestRecord → Bool) {xs ys : List PluginDeliveryRequestRecord}
    → Evolve Same xs ys
    → (p : PluginDeliveryRequestRecord) → find_where t xs ≡ some p
    → find_where t ys ≡ some p
unfolding find_where
find-Same t added p h = absurd (cc h)
find-Same t (kept {x} {y} e d) p h = elim (Bool-cases (t x)) [
  | inl q ↦ let h' : some x ≡ some p = rw q at h in ground (arith, ap t e)
  | inr q ↦ let h' = find-Same t d p (rw q at h) in ground (arith, ap t e)
]

-- The batch that an inspection shows is the one that the query finds.
inspect_batch :
    (s : Store) (k : ℕ) → Post (query_batch_inspect_tx s k) (λ b. query_batch_tx s k ≡ ok b.batch)
unfolding query_batch_inspect_tx
inspect_batch s k = post_bind _ _ λ b there. post_ok (λ x. query_batch_tx s k ≡ ok x.batch) _ there

module _ (s : Store) (d : NewPluginDelivery) where
  abbrev KnownReply : PluginDeliveryEnqueueRecord → Type 0
  KnownReply r = Known s d r.job.job_id r.batch.batch.batch_id

  known-Known :
      (row : PluginDeliveryRequestRecord)
      → query_plugin_delivery_request_tx s d.plugin_name d.idempotency_key ≡ some row
      → Post (known_request s d.idempotency_key d.request_fingerprint row) KnownReply
  unfolding known_request
  known-Known row there = post_guard _ _ _ λ same. post_bind _ _ λ j has_job. post_bind _ _ λ b e.
      post_ok KnownReply _ (record {
        row = row;
        job = j;
        batch = b.batch;
        request = there;
        fingerprint = same;
        has_job = has_job;
        has_batch = inspect_batch s row.batch_id b e;
        same_job = refl;
        same_batch = refl;
      })

-- The request is found once its row is behind the others.
request_there :
    (rows : List PluginDeliveryRequestRecord) (d : NewPluginDelivery)
    → find_where (is_request d.plugin_name d.idempotency_key) rows ≡ none
    → find_where (is_request d.plugin_name d.idempotency_key) (rows ++ plugin_request_row d ∷ [])
      ≡ some (plugin_request_row d)
unfolding find_where plugin_request_row
request_there rows d h =
    let is_this = is_request d.plugin_name d.idempotency_key in
    find-append is_this rows (plugin_request_row d) (none_found is_this rows h) (ground arith)

-- Inserting the job, the artifact and the batch leaves the requests alone.
module _ (s : Store) (d : NewPluginDelivery) where
  abbrev SameRequests : Store → Type 0
  SameRequests t = t.plugin_delivery_requests ≡ s.plugin_delivery_requests

  job_requests : Post (insert_plugin_job s d) SameRequests
  unfolding insert_plugin_job
  job_requests = post_guard _ _ _ λ _. post_ok SameRequests _ refl

  artifact_requests : Post (insert_plugin_artifact s d) SameRequests
  unfolding insert_plugin_artifact
  artifact_requests =
      post_option d.artifact _ _ (λ _. post_ok SameRequests _ refl)
        (λ f _. post_seq _ _ λ _. post_seq _ _ λ _. post_ok SameRequests _ refl)

  batch_requests : Post (insert_plugin_batch s d) SameRequests
  unfolding insert_plugin_batch insert_batch_tx
  batch_requests =
      post_bind _ _
        λ at _. post_bind _ _ λ ends _. post_guard _ _ _ λ _. post_ok SameRequests _ refl

module _ (s : Store) (d : NewPluginDelivery) where
  new-Known :
      query_plugin_delivery_request_tx s d.plugin_name d.idempotency_key ≡ none
      → Post (new_request s d) (λ p. KnownReply p.0 d p.1)
  unfolding new_request query_plugin_delivery_request_tx plugin_request_row
  new-Known unseen = post_bind _ _ λ t e. post_bind _ _ λ u f. post_bind _ _ λ v g.
      post_bind _ _ λ j has_job. post_bind _ _ λ b h.
        post_ok (λ p. KnownReply p.0 d p.1) _
          (record {
            row = plugin_request_row d;
            job = j;
            batch = b.batch;
            request =
                let same =
                  batch_requests u d v g ∙ artifact_requests t d u f ∙ job_requests s d t e in
                request_there v.plugin_delivery_requests d (rw same unseen);
            fingerprint = ==_refl d.request_fingerprint;
            has_job = has_job;
            has_batch = inspect_batch _ d.batch_id b h;
            same_job = refl;
            same_batch = refl;
          })

  pub enqueue-Known : Post (enqueue_plugin_delivery_tx s d) (λ p. KnownReply p.0 d p.1)
  unfolding enqueue_plugin_delivery_tx
  enqueue-Known =
      post_option (query_plugin_delivery_request_tx s d.plugin_name d.idempotency_key) _ _
        (λ unseen. new-Known unseen)
        (λ row there.
          post_bind _ _
            λ r e. post_ok (λ p. KnownReply p.0 d p.1) _ (known-Known s d row there r e))

-- A known request stays known, with the same job and batch.
pub Known-Grows :
    (s t : Store) (d : NewPluginDelivery) (j b : ℕ) → Grows s t → Known s d j b → Known t d j b
unfolding query_plugin_delivery_request_tx query_job_tx query_batch_tx found
Known-Grows s t d j b g k =
    let (i, job_there, job_edge) =
      Evolve-find JobEdge (λ j. j.job_id) (λ j i e. e.same_id) k.row.job_id g.jobs k.job
        (found-some _ _ _ k.has_job) in
    let (c, batch_there, batch_edge) =
      Evolve-find BatchEdge (λ b. b.batch_id) (λ b c e. e.same_id) k.row.batch_id g.batches k.batch
        (found-some _ _ _ k.has_batch) in
    record {
      row = k.row;
      job = i;
      batch = c;
      request = find-Same _ g.requests k.row k.request;
      fingerprint = k.fingerprint;
      has_job = rw job_there refl;
      has_batch = rw batch_there refl;
      same_job = job_edge.same_id ∙ k.same_job;
      same_batch = batch_edge.same_id ∙ k.same_batch;
    }

-- The request again, as a plugin repeats it after a failure of its own: the key, the batch and the
-- plugin are the same.
pub record Repeats (d d' : NewPluginDelivery) : Type 0 where
  pub same_plugin : d'.plugin_name ≡ d.plugin_name
  pub same_key : d'.idempotency_key ≡ d.idempotency_key
  pub same_batch : d'.batch_id ≡ d.batch_id

module _ (t : Store) (d' : NewPluginDelivery) where
  seen :
      (row : PluginDeliveryRequestRecord)
      → query_plugin_delivery_request_tx t d'.plugin_name d'.idempotency_key ≡ some row
      → enqueue_plugin_delivery_tx t d'
        ≡ (known_request t d'.idempotency_key d'.request_fingerprint row >>= λ r. ok (t, r))
  unfolding enqueue_plugin_delivery_tx
  seen row there =
      ap
        (λ (o : Option PluginDeliveryRequestRecord). elim o [
          | none ↦ new_request t d'
          | some p ↦ known_request t d'.idempotency_key d'.request_fingerprint p >>= λ r. ok (t, r)
        ])
        there

  abbrev pub inspected : ℕ → BatchRecord → BatchInspect
  inspected k b = record { batch = b; jobs = query_batch_jobs_tx t k }

  abbrev pub answer :
      PluginDeliveryRequestRecord → JobRecord → BatchRecord → PluginDeliveryEnqueueRecord
  answer row j b = record {
    created = false;
    idempotency_key = d'.idempotency_key;
    job = j;
    batch = inspected row.batch_id b;
  }

  inspect_lem :
      (k : ℕ) (b : BatchRecord)
      → query_batch_tx t k ≡ ok b
      → query_batch_inspect_tx t k ≡ ok (inspected k b)
  unfolding query_batch_inspect_tx
  inspect_lem k b there = bind_of _ _ b there

  known_request_lem :
      (row : PluginDeliveryRequestRecord) (j : JobRecord) (b : BatchRecord)
      → (row.request_fingerprint == d'.request_fingerprint) ≡ true
      → query_job_tx t row.job_id ≡ ok j
      → query_batch_tx t row.batch_id ≡ ok b
      → known_request t d'.idempotency_key d'.request_fingerprint row ≡ ok (answer row j b)
  unfolding known_request guard
  known_request_lem row j b same has_job has_batch =
      seq_of _ _ (ap (λ x. guard x Error.fingerprint_mismatch) same)
      ∙ bind_of _ _ j has_job
      ∙ bind_of _ _ (inspected row.batch_id b) (inspect_lem row.batch_id b has_batch)

  refused_lem :
      (row : PluginDeliveryRequestRecord)
      → (row.request_fingerprint == d'.request_fingerprint) ≡ false
      → known_request t d'.idempotency_key d'.request_fingerprint row
        ≡ err Error.fingerprint_mismatch
  unfolding known_request guard ◌>>◌ ◌>>=◌
  refused_lem row other = rw other refl

  -- What enqueueing a known request again does.
  pub enqueue_again :
      (d : NewPluginDelivery) (j b : ℕ) (k : Known t d j b)
      → Repeats d d'
      → d'.request_fingerprint ≡ d.request_fingerprint
      → enqueue_plugin_delivery_tx t d' ≡ ok (t, answer k.row k.job k.batch)
  unfolding ◌>>=◌
  enqueue_again d j b k again same =
      let there : query_plugin_delivery_request_tx t d'.plugin_name d'.idempotency_key
          ≡ some k.row =
        rw (again.same_plugin, again.same_key) k.request in
      let fits : (k.row.request_fingerprint == d'.request_fingerprint) ≡ true =
        rw same k.fingerprint in
      seen k.row there
      ∙ bind_of _ _ (answer k.row k.job k.batch)
          (known_request_lem k.row k.job k.batch fits k.has_job k.has_batch)

  pub enqueue_other :
      (d : NewPluginDelivery) (j b : ℕ) (k : Known t d j b)
      → Repeats d d'
      → (d'.request_fingerprint == d.request_fingerprint) ≡ false
      → enqueue_plugin_delivery_tx t d' ≡ err Error.fingerprint_mismatch
  unfolding ◌>>=◌
  enqueue_other d j b k again other =
      let there : query_plugin_delivery_request_tx t d'.plugin_name d'.idempotency_key
          ≡ some k.row =
        rw (again.same_plugin, again.same_key) k.request in
      let fits : (k.row.request_fingerprint == d'.request_fingerprint) ≡ false =
        let same = k.fingerprint in ground arith in
      seen k.row there ∙ ap (λ m. m >>= λ r. ok (t, r)) (refused_lem k.row fits)
