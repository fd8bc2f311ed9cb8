-- ===== src/Delivery/Invariant/Attempts.antt =====
-- Moves of the attempts alone: calm edges, and a new attempt.
use codex_background_task_ha.Base.{
  any_of_find, any_find, find_test, eq_of_==, ℕ, ◌≤◌, ◌≡◌, refl, ap, ◌∙◌, true, false, ◌&&◌, some,
  List, [], ◌∷◌, ◌++◌, arith, inl, inr, ◌==◌, All, All-append, All-map, Keyed-append, find_where,
  any_where, count_where, Pointwise, Pointwise-All, Pointwise-Keyed, Pointwise-count,
  Pointwise-count_le, count-append, count-none, Bool-cases,
}
use codex_background_task_ha.Models.{BatchRecord, DeliveryAttemptRecord, is_open}
use codex_background_task_ha.Store.{Store, batch_open_in, in_flight}
use codex_background_task_ha.Delivery.Edges.{Calm, spends}
use codex_background_task_ha.Delivery.Invariant.{is_of, spent_on, active_in, Housed, Accounted, Inv}

pub edit_attempts-Inv :
    (s : Store) (rows : List DeliveryAttemptRecord)
    → Pointwise Calm s.delivery_attempts rows
    → Inv s
    → Inv (record s { delivery_attempts = rows })
edit_attempts-Inv s rows p v = record {
  jobs_keyed = v.jobs_keyed;
  batches_keyed = v.batches_keyed;
  attempts_keyed =
      Pointwise-Keyed Calm (λ a. a.attempt_id) (λ a c e. e.edge.same_id) p v.attempts_keyed;
  sessions_keyed = v.sessions_keyed;
  housed = Pointwise-All Calm (Housed s.batches) (Housed s.batches) housed_calm p v.housed;
  accounted =
      All-map (Accounted s.delivery_attempts) (Accounted rows) s.batches accounted_calm v.accounted;
  single_flight = λ thread.
      let fewer = Pointwise-count_le Calm (active_in thread) (active_calm thread) p in
      omega (arith, v.single_flight thread);
  single_session = v.single_session;
}
  where
    housed_calm : (a c : DeliveryAttemptRecord) → Calm a c → Housed s.batches a → Housed s.batches c
    housed_calm a c e h = record {
      has_batch = rw (e.edge.same_batch) h.has_batch;
      active_open = λ q. rw (e.edge.same_batch) (h.active_open (e.starts_none q));
    }

    spent_calm : (k : ℕ) (a c : DeliveryAttemptRecord) → Calm a c → spent_on k c ≡ spent_on k a
    spent_calm k a c e = rw (e.same_spending, e.edge.same_batch)

    accounted_calm : (b : BatchRecord) → Accounted s.delivery_attempts b → Accounted rows b
    accounted_calm b h = record {
      budget = h.budget;
      exact =
          Pointwise-count Calm (spent_on b.batch_id) (spent_on b.batch_id) (spent_calm b.batch_id) p
          ∙ h.exact;
    }

    active_calm :
        (thread : ℕ) (a c : DeliveryAttemptRecord)
        → Calm a c
        → active_in thread c ≡ true
        → active_in thread a ≡ true
    active_calm thread a c e q = ground (arith, e.edge.same_thread, e.starts_none)

module _ (s : Store) (row : DeliveryAttemptRecord) (b : BatchRecord) (v : Inv s)
    (there : find_where (is_of row.batch_id) s.batches ≡ some b)
    (is_open_b : is_open b.state ≡ true)
    (idle : any_where (in_flight s.batches row.source_thread_id) s.delivery_attempts ≡ false)
    (fresh : any_where (λ a. a.attempt_id == row.attempt_id) s.delivery_attempts ≡ false)
    (unspent : spends row ≡ false) where
  -- Every active attempt is in flight, so the thread has none.
  no_active :
      (rows : List DeliveryAttemptRecord)
      → All (Housed s.batches) rows
      → any_where (in_flight s.batches row.source_thread_id) rows ≡ false
      → any_where (active_in row.source_thread_id) rows ≡ false
  unfolding any_where in_flight
  no_active [] h n = refl
  no_active (a ∷ rest) h n = ground (arith, h.0.active_open, no_active rest h.1)

  Housed-row : Housed s.batches row
  unfolding batch_open_in
  Housed-row = record {
    has_batch = any_of_find (is_of row.batch_id) s.batches b there;
    active_open = λ _.
        any_find (is_of row.batch_id) (λ c. c.batch_id == row.batch_id && is_open c.state) s.batches
          b there (rw (find_test (is_of row.batch_id) s.batches b there) is_open_b);
  }

  Accounted-row :
      (c : BatchRecord)
      → Accounted s.delivery_attempts c
      → Accounted (s.delivery_attempts ++ row ∷ []) c
  unfolding count_where
  Accounted-row c h = record {
    budget = h.budget;
    exact = ground (
      arith,
      count-append (spent_on c.batch_id) s.delivery_attempts (row ∷ []),
      h.exact,
      unspent,
    );
  }

  single_row : (thread : ℕ) → count_where (active_in thread) (s.delivery_attempts ++ row ∷ []) ≤ 1
  unfolding count_where
  single_row thread =
      let none_ =
        count-none (active_in row.source_thread_id) s.delivery_attempts
          (no_active s.delivery_attempts v.housed idle) in
      elim (Bool-cases (row.source_thread_id == thread)) [
        | inl e ↦
            (let same = ap (λ t. count_where (active_in t) s.delivery_attempts) (eq_of_== _ _ e) in
              ground (
                arith,
                count-append (active_in thread) s.delivery_attempts (row ∷ []),
                none_,
                same,
              ))
        | inr n ↦ ground (
          arith,
          count-append (active_in thread) s.delivery_attempts (row ∷ []),
          v.single_flight thread,
        )
      ]

  pub add_attempt-Inv : Inv (record s { delivery_attempts = s.delivery_attempts ++ row ∷ [] })
  add_attempt-Inv = record {
    jobs_keyed = v.jobs_keyed;
    batches_keyed = v.batches_keyed;
    attempts_keyed =
        Keyed-append (λ a. a.attempt_id) s.delivery_attempts row v.attempts_keyed fresh;
    sessions_keyed = v.sessions_keyed;
    housed = All-append (Housed s.batches) s.delivery_attempts (row ∷ []) v.housed (Housed-row, tt);
    accounted =
        All-map (Accounted s.delivery_attempts) (Accounted (s.delivery_attempts ++ row ∷ []))
          s.batches Accounted-row v.accounted;
    single_flight = single_row;
    single_session = v.single_session;
  }
