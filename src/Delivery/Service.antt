-- ===== src/Delivery/Service.antt =====
-- Serving the queue of a thread: `close_head` takes its first batch away.
use codex_background_task_ha.Base.{
  Keyed-count, count-select, ℕ, ◌≤◌, ◌≡◌, refl, sym, ap, ◌∙◌, inl, inr, Bool, true, false, not,
  Option, some, List, [], ◌∷◌, arith, ◌==◌, eq_of_==, Bool-cases, All, All-first, Keyed-first,
  update_where, count_where, select_where, find_test, Keyed, ok, Post, post_bind, post_seq, post_ok,
  found-some,
}
use codex_background_task_ha.Models.{BatchRecord}
use codex_background_task_ha.Store.{Store, query_batch_tx, is_before, head_batch}
use codex_background_task_ha.Store.Batches.{
  query_active_cli_attempt_session_fences_for_batch_tx, close_batch, is_open_batch,
  close_batch_rows, close_batch_tx, extend_closed_batch_artifact_retention_tx,
}
use codex_background_task_ha.Store.Jobs.{close_head}
use codex_background_task_ha.Base.{
  first, count-order_by, order_by-select, order_by, Keyed-first, All-first,
}
use codex_background_task_ha.Delivery.Invariant.{Inv}
use codex_background_task_ha.Delivery.Endings.{fences_batches}
use codex_background_task_ha.Delivery.Queue.{waits, queue, head_batch-queue}

before_asym : (x y : BatchRecord) → is_before x y ≡ true → is_before y x ≡ false
before_asym x y h = ground arith

before_trans :
    (x y z : BatchRecord) → is_before x y ≡ false → is_before y z ≡ false → is_before x z ≡ false
before_trans x y z h k = ground arith

abbrev is_other : ℕ → BatchRecord → Bool
is_other k b = not (b.batch_id == k)

-- The rows that are selected meet the test.
select_test :
    (t : BatchRecord → Bool) (xs : List BatchRecord) → All (λ x. t x ≡ true) (select_where t xs)
unfolding select_where
select_test t [] = tt
select_test t (x ∷ xs) = elim (Bool-cases (t x)) [
  | inl q ↦ rw q (q, select_test t xs)
  | inr q ↦ rw q (select_test t xs)
]

select_all :
    (k : ℕ) (xs : List BatchRecord)
    → count_where (λ b. b.batch_id == k) xs ≡ 0
    → select_where (is_other k) xs ≡ xs
unfolding count_where select_where
select_all k [] h = refl
select_all k (x ∷ xs) h = ground (arith, select_all k xs)

module _ (k reason : ℕ) (remark : Option ℕ) (now : ℕ) where
  abbrev shut : List BatchRecord → List BatchRecord
  shut xs = update_where (is_open_batch k) (close_batch reason remark now) xs

  -- The closed batch waits no more.
  shut-waits :
      (thread : ℕ) (xs : List BatchRecord)
      → select_where (waits thread) (shut xs)
        ≡ select_where (is_other k) (select_where (waits thread) xs)
  unfolding select_where update_where is_open_batch close_batch
  shut-waits thread [] = refl
  shut-waits thread (x ∷ xs) = ground (arith, shut-waits thread xs)

  -- A batch of another thread waits as before.
  shut_others :
      (other : ℕ) (b : BatchRecord) (xs : List BatchRecord)
      → (b.source_thread_id == other) ≡ false
      → All (λ x. (x.batch_id == k) ≡ true → x ≡ b) xs
      → select_where (waits other) (shut xs) ≡ select_where (waits other) xs
  unfolding select_where update_where is_open_batch close_batch
  shut_others other b [] h only = refl
  shut_others other b (x ∷ xs) h only = elim (Bool-cases (x.batch_id == k)) [
    | inl q ↦
        (let same = ap (λ (z : BatchRecord). z.source_thread_id) (only.0 q) in
          ground (arith, shut_others other b xs h only.1))
    | inr q ↦ ground (arith, shut_others other b xs h only.1)
  ]

-- The batches after the closing of one.
close-batches :
    (s : Store) (k reason : ℕ) (remark : Option ℕ) (now : ℕ)
    → Post
        (close_batch_tx s k reason remark now)
        (λ t. t.batches ≡ shut k reason remark now s.batches)
unfolding close_batch_tx close_batch_rows
close-batches s k reason remark now = post_seq _ _ λ _.
    post_ok (λ t. t.batches ≡ shut k reason remark now s.batches) _
      (let (same, _) =
          fences_batches (query_active_cli_attempt_session_fences_for_batch_tx s k) now
            (close_batch_rows s k reason remark now) in
        same)

extend-batches :
    (s : Store) (k now : ℕ)
    → Post (extend_closed_batch_artifact_retention_tx s k now) (λ t. t.batches ≡ s.batches)
unfolding extend_closed_batch_artifact_retention_tx
extend-batches s k now = post_bind _ _ λ until _. post_ok (λ t. t.batches ≡ s.batches) _ refl

-- A queue without its first batch.
tail_of :
    (q : List BatchRecord) (b : BatchRecord)
    → first q ≡ some b
    → count_where (λ x. x.batch_id == b.batch_id) q ≤ 1
    → q ≡ b ∷ select_where (is_other b.batch_id) q
unfolding first count_where select_where
tail_of [] b e one_ = absurd (cc e)
tail_of (x ∷ xs) b e one_ =
    let same : x ≡ b = cc e in
    let id = ap (λ (z : BatchRecord). z.batch_id) same in
    let here : (x.batch_id == b.batch_id) ≡ true = ground arith in
    let rest : count_where (λ x. x.batch_id == b.batch_id) xs ≡ 0 = ground arith in
    let all_ = select_all b.batch_id xs rest in ground arith

-- The head of a thread is the only batch with its key, and waits there.
head_only :
    (bs : List BatchRecord) (thread : ℕ) (b : BatchRecord)
    → Keyed (λ b. b.batch_id) bs
    → head_batch bs thread ≡ some b
    → All (λ x. (x.batch_id == b.batch_id) ≡ true → x ≡ b) bs × (waits thread b ≡ true)
unfolding head_batch
head_only bs thread b keyed head = (
  Keyed-first (λ b. b.batch_id) is_before (waits thread) bs b keyed head,
  All-first (λ x. waits thread x ≡ true) is_before (select_where (waits thread) bs) b
      (select_test (waits thread) bs) head,
)

-- What closing a batch of the thread does to the queues.
pub record Popped (s t : Store) (thread : ℕ) (b : BatchRecord) : Type 0 where
  pub taken : queue s thread ≡ b ∷ queue t thread
  pub others : (other : ℕ) → (thread == other) ≡ false → queue t other ≡ queue s other

shut-Popped :
    (s t : Store) (thread reason : ℕ) (remark : Option ℕ) (now : ℕ) (b : BatchRecord)
    → Inv s
    → head_batch s.batches thread ≡ some b
    → t.batches ≡ shut b.batch_id reason remark now s.batches
    → Popped s t thread b
unfolding queue
shut-Popped s t thread reason remark now b v head same =
    let open_ = select_where (waits thread) s.batches in
    let k = b.batch_id in
    let once : count_where (λ x. x.batch_id == k) (queue s thread) ≤ 1 =
      let sorted = count-order_by is_before (λ x. x.batch_id == k) open_ in
      let fewer = count-select (λ x. x.batch_id == k) (waits thread) s.batches in
      let unique = Keyed-count (λ b. b.batch_id) k s.batches v.batches_keyed in omega arith in
    record {
      taken =
          tail_of (queue s thread) b (sym (head_batch-queue s thread) ∙ head) once
          ∙ ap (λ q. b ∷ q)
              (sym (
                ap (λ xs. order_by is_before (select_where (waits thread) xs)) same
                ∙ ap (order_by is_before) (shut-waits k reason remark now thread s.batches)
                ∙ order_by-select is_before before_asym before_trans (is_other k) open_));
      others = λ other h.
          let (only, waiting) = head_only s.batches thread b v.batches_keyed head in
          let elsewhere : (b.source_thread_id == other) ≡ false = ground arith in
          ap (λ xs. order_by is_before (select_where (waits other) xs)) same
          ∙ ap (order_by is_before)
              (shut_others b.batch_id reason remark now other b s.batches elsewhere only);
    }

-- From a well-formed store, closing the head of a thread takes the first batch off its queue, which
-- the reply names, and leaves every other queue as it was.
pub close_head-Popped :
    (s : Store) (thread reason : ℕ) (remark : Option ℕ) (now : ℕ) (p : Store × BatchRecord)
    → Inv s
    → close_head s thread reason remark now ≡ ok p
    → (b : BatchRecord) × Popped s p.0 thread b × (p.1.batch_id ≡ b.batch_id)
unfolding close_head query_batch_tx
close_head-Popped s thread reason remark now p v done =
    post_bind {P = λ p. (b : BatchRecord) × Popped s p.0 thread b × (p.1.batch_id ≡ b.batch_id)} _ _
      (λ b head. post_bind _ _ λ t e. post_bind _ _ λ u f. post_bind _ _ λ c there.
        post_ok (λ p. (b : BatchRecord) × Popped s p.0 thread b × (p.1.batch_id ≡ b.batch_id))
          (u, c)
          (
            b,
            shut-Popped s u thread reason remark now b v (found-some _ _ _ head) (
                extend-batches t b.batch_id now u f
                ∙ close-batches s b.batch_id reason remark now t e),
            eq_of_== c.batch_id b.batch_id (find_test _ u.batches c (found-some _ _ _ there)),
          ))
      p done
