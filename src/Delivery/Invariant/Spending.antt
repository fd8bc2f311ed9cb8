-- ===== src/Delivery/Invariant/Spending.antt =====
-- The move that uses up a delivery: the attempt and its batch change together.
use codex_background_task_ha.Base.{
  subst, Pointwise-update, Keyed-update, Keyed-find, Keyed-count-suc, any-update, eq_of_==,
  All-update, count-update-le, ℕ, suc, ◌≡◌, refl, ap, ◌∙◌, true, false, some, List, [], ◌∷◌, arith,
  inl, inr, ◌==◌, All, All-map, Keyed, update_where, find_where, any_where, count_where,
  Pointwise-Keyed, Bool-cases,
}
use codex_background_task_ha.Models.{BatchRecord, DeliveryAttemptRecord, is_active}
use codex_background_task_ha.Store.{Store, batch_open_in}
use codex_background_task_ha.Store.Batches.{has_budget, count_delivery}
use codex_background_task_ha.Store.Outcomes.{is_pending_attempt}
use codex_background_task_ha.Delivery.Edges.{AttemptEdge, AttemptEdge-refl, spends}
use codex_background_task_ha.Delivery.Invariant.{is_of, spent_on, active_in, Housed, Accounted, Inv}

module _ (s : Store) (k : ℕ) (a : DeliveryAttemptRecord)
    (f : DeliveryAttemptRecord → DeliveryAttemptRecord) (now : ℕ) (v : Inv s)
    (there : find_where (λ x. x.attempt_id == k) s.delivery_attempts ≡ some a)
    (pending_a : is_pending_attempt k a ≡ true) (spent : spends (f a) ≡ true)
    (edge : (x : DeliveryAttemptRecord) → is_pending_attempt k x ≡ true → AttemptEdge x (f x))
    (one_budget : count_where (has_budget a.batch_id) s.batches ≡ 1) where
  abbrev attempts' : List DeliveryAttemptRecord
  attempts' = update_where (is_pending_attempt k) f s.delivery_attempts

  abbrev batches' : List BatchRecord
  batches' = update_where (has_budget a.batch_id) (count_delivery now) s.batches

  only_k : (x : DeliveryAttemptRecord) → is_pending_attempt k x ≡ true → (x.attempt_id == k) ≡ true
  unfolding is_pending_attempt
  only_k x h = ground arith

  pending_active :
      (x : DeliveryAttemptRecord) → is_pending_attempt k x ≡ true → is_active x.state ≡ true
  unfolding is_pending_attempt
  pending_active x h = ground arith

  unspent : spends a ≡ false
  unfolding is_pending_attempt
  unspent = ground arith

  housed' : (x : DeliveryAttemptRecord) → Housed s.batches x → Housed batches' x
  unfolding batch_open_in has_budget count_delivery
  housed' x h = record {
    has_batch = any-update (is_of x.batch_id) _ _ s.batches (λ b _. refl) ∙ h.has_batch;
    active_open = λ q. any-update _ _ _ s.batches (λ b _. refl) ∙ h.active_open q;
  }

  keep_house :
      (x : DeliveryAttemptRecord)
      → is_pending_attempt k x ≡ true
      → Housed batches' x
      → Housed batches' (f x)
  keep_house x q h =
      let e = edge x q in
      record {
        has_batch = rw (e.same_batch) h.has_batch;
        active_open = λ _. rw (e.same_batch) (h.active_open (pending_active x q));
      }

  fewer :
      (thread : ℕ) (x : DeliveryAttemptRecord)
      → is_pending_attempt k x ≡ true
      → active_in thread (f x) ≡ true
      → active_in thread x ≡ true
  fewer thread x q h = let e = edge x q in ground (arith, e.same_thread, pending_active x q)

  -- The batch of the attempt is charged once.
  charged :
      (b : BatchRecord)
      → (b.batch_id == a.batch_id) ≡ true
      → count_where (spent_on b.batch_id) attempts'
        ≡ suc (count_where (spent_on b.batch_id) s.delivery_attempts)
  charged b e =
      let same = eq_of_== b.batch_id a.batch_id e in
      let moved = edge a pending_a in
      Keyed-count-suc (λ x. x.attempt_id) (spent_on b.batch_id) (is_pending_attempt k) f k
        s.delivery_attempts a v.attempts_keyed there only_k pending_a (ground (arith, unspent))
        (ground (arith, spent, moved.same_batch))

  -- All rows with the key are the one row.
  only_a : All (λ x. (x.attempt_id == k) ≡ true → x ≡ a) s.delivery_attempts
  only_a = Keyed-find (λ x. x.attempt_id) k s.delivery_attempts a v.attempts_keyed there

  uncharged_rows :
      (j : ℕ)
      → (j == a.batch_id) ≡ false
      → (rows : List DeliveryAttemptRecord) → All (λ x. (x.attempt_id == k) ≡ true → x ≡ a) rows
      → count_where (spent_on j) (update_where (is_pending_attempt k) f rows)
        ≡ count_where (spent_on j) rows
  unfolding count_where update_where
  uncharged_rows j n [] h = refl
  uncharged_rows j n (x ∷ rest) h = elim (Bool-cases (is_pending_attempt k x)) [
    | inl q ↦
        (let xa = h.0 (only_k x q) in
          let bid = ap (λ (z : DeliveryAttemptRecord). z.batch_id) xa in
          let e = edge x q in ground (arith, uncharged_rows j n rest h.1, e.same_batch, bid, q))
    | inr q ↦ ground (arith, uncharged_rows j n rest h.1, q)
  ]

  charge :
      (b : BatchRecord)
      → has_budget a.batch_id b ≡ true
      → Accounted s.delivery_attempts b
      → Accounted attempts' (count_delivery now b)
  unfolding has_budget count_delivery
  charge b q h = record { budget = ground arith; exact = charged b (ground arith) ∙ ap suc h.exact }

  leave :
      (b : BatchRecord)
      → (b.batch_id == a.batch_id) ≡ false
      → Accounted s.delivery_attempts b
      → Accounted attempts' b
  leave b n h = record {
    budget = h.budget;
    exact = uncharged_rows b.batch_id n s.delivery_attempts only_a ∙ h.exact;
  }

  no_budget_elsewhere :
      (b : BatchRecord) → (b.batch_id == a.batch_id) ≡ false → has_budget a.batch_id b ≡ false
  unfolding has_budget
  no_budget_elsewhere b n = ground arith

  none_left :
      (rows : List BatchRecord)
      → any_where (is_of a.batch_id) rows ≡ false
      → count_where (has_budget a.batch_id) rows ≡ 0
  unfolding any_where count_where
  none_left [] n = refl
  none_left (b ∷ rest) n = ground (arith, none_left rest, no_budget_elsewhere b)

  leave_rows :
      (rows : List BatchRecord)
      → any_where (is_of a.batch_id) rows ≡ false
      → All (Accounted s.delivery_attempts) rows
      → All (Accounted attempts') (update_where (has_budget a.batch_id) (count_delivery now) rows)
  unfolding any_where update_where
  leave_rows [] n h = tt
  leave_rows (b ∷ rest) n h =
      let other : (b.batch_id == a.batch_id) ≡ false = ground arith in
      rw (no_budget_elsewhere b other) (leave b other h.0, leave_rows rest (ground arith) h.1)

  -- One batch has the budget; under its key there is no second row.
  Accounted-rows :
      (rows : List BatchRecord)
      → Keyed (λ b. b.batch_id) rows
      → count_where (has_budget a.batch_id) rows ≡ 1
      → All (Accounted s.delivery_attempts) rows
      → All (Accounted attempts') (update_where (has_budget a.batch_id) (count_delivery now) rows)
  unfolding count_where update_where
  Accounted-rows [] d c h = tt
  Accounted-rows (b ∷ rest) d c h = elim (Bool-cases (b.batch_id == a.batch_id)) [
    | inl e ↦
        (let others =
            subst (λ t. any_where (is_of t) rest ≡ false) (eq_of_== b.batch_id a.batch_id e) d.0 in
          let has : has_budget a.batch_id b ≡ true = ground (arith, none_left rest others) in
          rw has (charge b has h.0, leave_rows rest others h.1))
    | inr e ↦
        (let none_ = no_budget_elsewhere b e in
          rw none_ (leave b e h.0, Accounted-rows rest d.1 (ground arith) h.1))
  ]

  pub spend-Inv : Inv (record s { delivery_attempts = attempts'; batches = batches' })
  spend-Inv = record {
    jobs_keyed = v.jobs_keyed;
    batches_keyed =
        Keyed-update (λ b. b.batch_id) _ _ s.batches (λ b. unfold count_delivery in refl)
          v.batches_keyed;
    attempts_keyed =
        Pointwise-Keyed AttemptEdge (λ x. x.attempt_id) (λ x y e. e.same_id)
          (Pointwise-update AttemptEdge AttemptEdge-refl _ f s.delivery_attempts edge)
          v.attempts_keyed;
    sessions_keyed = v.sessions_keyed;
    housed =
        All-update (Housed batches') _ f s.delivery_attempts keep_house
          (All-map (Housed s.batches) (Housed batches') s.delivery_attempts housed' v.housed);
    accounted = Accounted-rows s.batches v.batches_keyed one_budget v.accounted;
    single_flight = λ thread. omega (
      arith,
      v.single_flight thread,
      count-update-le (active_in thread) _ f s.delivery_attempts (fewer thread),
    );
    single_session = v.single_session;
  }
