-- ===== src/Delivery/Queue.antt =====
-- The open batches of a thread as a queue: what the store delivers next (`batch_is_thread_head_tx`),
-- where `enqueue_plugin_delivery_tx` puts a batch, and what `close_head` takes away.
use codex_background_task_ha.Base.{
  ℕ, ◌≤◌, ◌<◌, max, ◌≡◌, refl, ap, ◌∙◌, Bool, true, false, ◌&&◌, Option, none, some, List, [], ◌∷◌,
  ◌++◌, arith, leb, ◌==◌, if◌then◌else◌, All, All-map, select_where, max_of, ok, guard, Post,
  post_bind, post_seq, post_guard, post_ok, post_if, post_option,
}
use codex_background_task_ha.Models.{
  is_open, BatchRecord, NewBatch, PluginDeliveryRequestRecord, DeliveryAttemptRecord,
  NewPluginDelivery, PluginDeliveryEnqueueRecord, NewCodexAppServerAcceptPendingAttempt,
}
use codex_background_task_ha.Store.{
  Store, query_delivery_attempt_by_rpc_request_id_tx, is_before, head_batch,
  batch_is_thread_head_tx, checked_add, checked_timestamp_add, insert_delivery_attempt,
}
use codex_background_task_ha.Store.Batches.{new_batch_row, insert_batch_tx}
use codex_background_task_ha.Store.Plugin.Queries.{query_plugin_delivery_request_tx, known_request}
use codex_background_task_ha.Store.Plugin.{
  plugin_delivery_batch_created_at_tx, insert_plugin_artifact, insert_plugin_job,
  insert_plugin_batch, new_request, enqueue_plugin_delivery_tx, attempt_if_head,
  enqueue_plugin_delivery_with_codex_app_server_attempt_if_head,
}
use codex_background_task_ha.Base.{first, first-order_by, order_by-append, order_by, max_of, map}
use codex_background_task_ha.Store.Attempts.{
  reply, begin_codex_new, begin_codex_app_server_accept_pending_attempt_tx,
}
use codex_background_task_ha.Store.Plugin.Validation.{validate_new_plugin_delivery}

abbrev pub waits : ℕ → BatchRecord → Bool
waits thread b = b.source_thread_id == thread && is_open b.state

-- The abstract view of a thread.
unfoldable pub queue : Store → ℕ → List BatchRecord
queue s thread = order_by is_before (select_where (waits thread) s.batches)

-- The head of a thread is the first of its queue.
pub head_batch-queue :
    (s : Store) (thread : ℕ) → head_batch s.batches thread ≡ first (queue s thread)
unfolding head_batch queue
head_batch-queue s thread = first-order_by is_before (select_where (waits thread) s.batches)

select-append :
    (t : BatchRecord → Bool) (xs : List BatchRecord) (b : BatchRecord)
    → select_where t (xs ++ b ∷ [])
      ≡ (if t b then select_where t xs ++ b ∷ [] else select_where t xs)
unfolding select_where
select-append t [] b = ground arith
select-append t (x ∷ xs) b = ground (arith, select-append t xs b)

-- The greatest of a column bounds it.
max_bounds :
    (f : BatchRecord → ℕ) (bs : List BatchRecord)
    → elim (max_of (map f bs)) as (λ _. Type 0) [ none ↦ bs ≡ [] | some m ↦ All (λ b. f b ≤ m) bs ]
unfolding max_of
max_bounds f [] = refl
max_bounds f (b ∷ bs) = go (max_of (map f bs)) (max_bounds f bs)
  where
    go :
        (o : Option ℕ)
        → elim o as (λ _. Type 0) [ none ↦ bs ≡ [] | some m ↦ All (λ b. f b ≤ m) bs ]
        → elim (elim o as (λ _. Option ℕ) [ none ↦ some (f b) | some m ↦ some (max (f b) m) ])
            as (λ _. Type 0) [ none ↦ (b ∷ bs) ≡ [] | some m ↦ All (λ b. f b ≤ m) (b ∷ bs) ]
    go none h = (omega arith, rw h tt)
    go (some m) h =
        (ground arith, All-map (λ c. f c ≤ m) (λ c. f c ≤ max (f b) m) bs (λ c k. ground arith) h)

-- A plugin's batch is later than every open batch of its thread.
created_last :
    (s : Store) (thread requested : ℕ)
    → Post
        (plugin_delivery_batch_created_at_tx s thread requested)
        (λ at. All (λ b. b.created_at < at) (select_where (waits thread) s.batches))
unfolding plugin_delivery_batch_created_at_tx checked_timestamp_add checked_add
created_last s thread requested =
    let bs = select_where (waits thread) s.batches in
    go bs (max_of (map (λ (b : BatchRecord). b.created_at) bs)) (max_bounds (λ b. b.created_at) bs)
  where
    go :
        (bs : List BatchRecord) (o : Option ℕ)
        → elim o as (λ _. Type 0) [ none ↦ bs ≡ [] | some m ↦ All (λ b. b.created_at ≤ m) bs ]
        → Post
            (elim o [
              | none ↦ ok requested
              | some latest ↦
                  if leb requested latest then checked_timestamp_add latest 1 else ok requested
            ])
            (λ at. All (λ b. b.created_at < at) bs)
    go bs none h at e = rw h tt
    go bs (some m) h at e =
        All-map (λ b. b.created_at ≤ m) (λ b. b.created_at < at) bs (λ b k. ground arith) h

-- A batch is behind the others of its thread, and in no other queue.
pub record Appended (s t : Store) (thread : ℕ) (batch_id : ℕ) : Type 0 where
  pub batch : BatchRecord
  pub same_id : batch.batch_id ≡ batch_id
  pub waiting : is_open batch.state ≡ true
  pub behind : queue t thread ≡ queue s thread ++ batch ∷ []
  pub others : (other : ℕ) → (thread == other) ≡ false → queue t other ≡ queue s other

-- A new batch, later than those that wait.
append-Appended :
    (s t : Store) (b : NewBatch)
    → t.batches ≡ s.batches ++ new_batch_row b ∷ []
    → All (λ x. x.created_at < b.created_at) (select_where (waits b.source_thread_id) s.batches)
    → Appended s t b.source_thread_id b.batch_id
unfolding queue new_batch_row
append-Appended s t b same later =
    let row = new_batch_row b in
    let bs = select_where (waits b.source_thread_id) s.batches in
    record {
      batch = row;
      same_id = refl;
      waiting = refl;
      behind =
          ap (λ xs. order_by is_before (select_where (waits b.source_thread_id) xs)) same
          ∙ ap (order_by is_before)
              (select-append (waits b.source_thread_id) s.batches row ∙ ground arith)
          ∙ order_by-append is_before bs row (
              All-map (λ x. x.created_at < b.created_at) (λ x. is_before row x ≡ false) bs
                (λ x h. ground arith) later);
      others = λ other h.
          ap (λ xs. order_by is_before (select_where (waits other) xs)) same
          ∙ ap (order_by is_before) (select-append (waits other) s.batches row ∙ ground arith);
    }

module _ (s : Store) (d : NewPluginDelivery) where
  abbrev SameBatches : Store → Type 0
  SameBatches t = t.batches ≡ s.batches

  job_batches : Post (insert_plugin_job s d) SameBatches
  unfolding insert_plugin_job
  job_batches = post_guard _ _ _ λ _. post_ok SameBatches _ refl

  artifact_batches : Post (insert_plugin_artifact s d) SameBatches
  unfolding insert_plugin_artifact
  artifact_batches =
      post_option d.artifact _ _ (λ _. post_ok SameBatches _ refl)
        (λ f _. post_seq _ _ λ _. post_seq _ _ λ _. post_ok SameBatches _ refl)

  abbrev Behind : Store → Type 0
  Behind t = Appended s t d.source_thread_id d.batch_id

  batch-Appended : Post (insert_plugin_batch s d) Behind
  unfolding insert_plugin_batch insert_batch_tx
  batch-Appended = post_bind _ _ λ at e. post_bind _ _ λ ends _. post_guard _ _ _ λ _.
      post_ok Behind _
        (append-Appended s _ _ refl (created_last s d.source_thread_id d.created_at at e))

-- The queues are read from the table of batches alone.
pub queue_of : (s t : Store) (thread : ℕ) → t.batches ≡ s.batches → queue t thread ≡ queue s thread
unfolding queue
queue_of s t thread e = ap (λ bs. order_by is_before (select_where (waits thread) bs)) e

Appended-same :
    (s u v t : Store) (thread k : ℕ)
    → u.batches ≡ s.batches
    → t.batches ≡ v.batches
    → Appended u v thread k
    → Appended s t thread k
Appended-same s u v t thread k before after_ a = record {
  batch = a.batch;
  same_id = a.same_id;
  waiting = a.waiting;
  behind =
      queue_of v t thread after_
      ∙ a.behind
      ∙ ap (λ q. q ++ a.batch ∷ []) (queue_of s u thread before);
  others = λ other h. queue_of v t other after_ ∙ a.others other h ∙ queue_of s u other before;
}

module _ (s : Store) where
  -- Starting an attempt leaves the batches alone.
  attempt_batches :
      (r : NewCodexAppServerAcceptPendingAttempt)
      → Post (begin_codex_app_server_accept_pending_attempt_tx s r) (λ p. p.0.batches ≡ s.batches)
  unfolding begin_codex_app_server_accept_pending_attempt_tx begin_codex_new insert_delivery_attempt
      reply
  attempt_batches r =
      post_option (query_delivery_attempt_by_rpc_request_id_tx s r.delivery_rpc_request_id) _ _
        (λ _. post_bind _ _ λ b _. post_seq _ _ λ _. post_seq _ _ λ _. post_seq _ _ λ _.
          post_seq _ _ λ _. post_seq _ _ λ _. post_seq _ _ λ _. post_bind _ _ λ n _.
            post_bind _ _ λ p made.
              post_ok (λ q. q.0.batches ≡ s.batches) _
                (post_bind {P = λ (q : Store × DeliveryAttemptRecord). q.0.batches ≡ s.batches} _ _
                  (λ t e. post_bind _ _ λ a _.
                    post_ok (λ (q : Store × DeliveryAttemptRecord). q.0.batches ≡ s.batches) _
                      (post_seq (guard _ _) _
                        (λ _. post_seq _ _ λ _.
                          post_seq _ _
                            λ _. post_seq _ _ λ _. post_ok (λ t. t.batches ≡ s.batches) _ refl)
                        t e))
                  p made))
        (λ a _. post_seq _ _ λ _. post_ok (λ p. p.0.batches ≡ s.batches) _ refl)

  if_head_batches :
      (r : PluginDeliveryEnqueueRecord) (b : BatchRecord)
      (attempt : NewCodexAppServerAcceptPendingAttempt)
      → Post (attempt_if_head s r b attempt) (λ p. p.0.batches ≡ s.batches)
  unfolding attempt_if_head
  if_head_batches r b attempt =
      post_if (r.created && batch_is_thread_head_tx s b) _ _
        (λ _.
          post_bind _ _
            λ p e. post_ok (λ p. p.0.batches ≡ s.batches) _ (attempt_batches attempt p e))
        (λ _. post_ok (λ p. p.0.batches ≡ s.batches) _ refl)

module _ (s : Store) (d : NewPluginDelivery) where
  new_request-Appended : Post (new_request s d) (λ p. Appended s p.0 d.source_thread_id d.batch_id)
  unfolding new_request
  new_request-Appended = post_bind _ _ λ t e. post_bind _ _ λ u f. post_bind _ _ λ v g.
      post_bind _ _ λ j _. post_bind _ _ λ b _.
        post_ok (λ p. Appended s p.0 d.source_thread_id d.batch_id) _
          (Appended-same s u v _ d.source_thread_id d.batch_id
            (artifact_batches t d u f ∙ job_batches s d t e) refl (batch-Appended u d v g))

  not_created :
      (row : PluginDeliveryRequestRecord)
      → Post (known_request s d.idempotency_key d.request_fingerprint row) (λ r. r.created ≡ false)
  unfolding known_request
  not_created row =
      post_seq _ _
        λ _. post_bind _ _ λ j _. post_bind _ _ λ b _. post_ok (λ r. r.created ≡ false) _ refl

  abbrev CreatedBehind : Store × PluginDeliveryEnqueueRecord → Type 0
  CreatedBehind p = p.1.created ≡ true → Appended s p.0 d.source_thread_id d.batch_id

  tx-Appended : Post (enqueue_plugin_delivery_tx s d) CreatedBehind
  unfolding enqueue_plugin_delivery_tx
  tx-Appended =
      post_option (query_plugin_delivery_request_tx s d.plugin_name d.idempotency_key) _ _
        (λ _ p e _. new_request-Appended p e)
        (λ row _.
          post_bind _ _
            λ r e. post_ok CreatedBehind _ λ made. absurd (let no_ = not_created row r e in cc))

-- A request that creates a delivery puts its open batch at the end of the queue of its thread, and
-- leaves every other queue as it was.
pub enqueue-Appended :
    (bytes : ℕ → List ℕ) (s : Store) (d : NewPluginDelivery)
    (attempt : NewCodexAppServerAcceptPendingAttempt)
    (p : Store × (PluginDeliveryEnqueueRecord × Option DeliveryAttemptRecord))
    → enqueue_plugin_delivery_with_codex_app_server_attempt_if_head bytes s d attempt ≡ ok p
    → p.1.0.created ≡ true
    → Appended s p.0 d.source_thread_id d.batch_id
unfolding enqueue_plugin_delivery_with_codex_app_server_attempt_if_head
enqueue-Appended bytes s d attempt = post_seq (validate_new_plugin_delivery bytes d) _ λ _.
    post_seq _ _ λ _. post_seq _ _ λ _. post_bind _ _ λ p e. post_bind _ _ λ b _.
      post_bind _ _ λ q f.
        post_ok
          (λ (p : Store × (PluginDeliveryEnqueueRecord × Option DeliveryAttemptRecord)).
            p.1.0.created ≡ true → Appended s p.0 d.source_thread_id d.batch_id)
          _
          (λ made.
            Appended-same s s p.0 q.0 d.source_thread_id d.batch_id refl
              (if_head_batches p.0 p.1 b attempt q f) (tx-Appended s d p e made))
