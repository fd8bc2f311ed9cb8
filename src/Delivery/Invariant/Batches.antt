-- ===== src/Delivery/Invariant/Batches.antt =====
-- Moves of the batches alone: tame edges, closing, and a new batch.
use codex_background_task_ha.Base.{
  Keyed-update, any-update, none_of_any, eq_of_==, All-update, ℕ, ◌≡◌, refl, ap, ◌∙◌, false, ◌&&◌,
  Option, List, [], ◌∷◌, ◌++◌, arith, inl, inr, ◌==◌, All, All-append, All-map, Keyed-append,
  update_where, any_where, Pointwise, Pointwise-All, Pointwise-Keyed, Pointwise-any, count-none,
  any-append, Bool-cases,
}
use codex_background_task_ha.Models.{
  BatchRecord, NewBatch, BatchJob, DeliveryAttemptRecord, is_open, is_active,
}
use codex_background_task_ha.Store.{Store, batch_open_in}
use codex_background_task_ha.Store.Batches.{close_batch, is_open_batch, new_batch_row}
use codex_background_task_ha.Delivery.Moves.{Tame}
use codex_background_task_ha.Delivery.Invariant.{is_of, spent_on, Housed, Accounted, Inv}

-- Whether an attempt's batch is there, and open, does not change under tame edges.
Tame-Housed :
    {bs cs : List BatchRecord}
    → Pointwise Tame bs cs
    → (a : DeliveryAttemptRecord) → Housed bs a
    → Housed cs a
unfolding batch_open_in
Tame-Housed p a h = record {
  has_batch =
      Pointwise-any Tame (is_of a.batch_id) (is_of a.batch_id) (λ b c e. rw (e.edge.same_id)) p
      ∙ h.has_batch;
  active_open = λ q.
      Pointwise-any Tame _ (λ c. c.batch_id == a.batch_id && is_open c.state)
        (λ b c e. rw (e.edge.same_id, e.same_state)) p
      ∙ h.active_open q;
}

Tame-Accounted :
    (rows : List DeliveryAttemptRecord) (b c : BatchRecord)
    → Tame b c
    → Accounted rows b
    → Accounted rows c
Tame-Accounted rows b c e h = record {
  budget = e.edge.within_budget h.budget;
  exact = rw (e.edge.same_id, e.same_count) h.exact;
}

pub edit_batches-Inv :
    (s : Store) (rows : List BatchRecord)
    → Pointwise Tame s.batches rows
    → Inv s
    → Inv (record s { batches = rows })
edit_batches-Inv s rows p v = record {
  jobs_keyed = v.jobs_keyed;
  batches_keyed =
      Pointwise-Keyed Tame (λ b. b.batch_id) (λ b c e. e.edge.same_id) p v.batches_keyed;
  attempts_keyed = v.attempts_keyed;
  sessions_keyed = v.sessions_keyed;
  housed = All-map (Housed s.batches) (Housed rows) s.delivery_attempts (Tame-Housed p) v.housed;
  accounted =
      Pointwise-All Tame (Accounted s.delivery_attempts) (Accounted s.delivery_attempts)
        (Tame-Accounted s.delivery_attempts) p v.accounted;
  single_flight = v.single_flight;
  single_session = v.single_session;
}

module _ (s : Store) (k reason : ℕ) (note : Option ℕ) (now : ℕ) (v : Inv s)
    (quiet : any_where (λ a. a.batch_id == k && is_active a.state) s.delivery_attempts
      ≡ false) where
  abbrev closed_rows : List BatchRecord
  closed_rows = update_where (is_open_batch k) (close_batch reason note now) s.batches

  same_key : (b : BatchRecord) → (close_batch reason note now b).batch_id ≡ b.batch_id
  unfolding close_batch
  same_key b = refl

  -- Batches other than the one that closes stay open.
  open_elsewhere :
      (j : ℕ) → (j == k) ≡ false → batch_open_in closed_rows j ≡ batch_open_in s.batches j
  unfolding batch_open_in is_open_batch close_batch
  open_elsewhere j h = any-update _ _ _ s.batches (λ b q. ground arith)

  Housed-closed :
      (a : DeliveryAttemptRecord)
      → (a.batch_id == k && is_active a.state) ≡ false
      → Housed s.batches a
      → Housed closed_rows a
  Housed-closed a q h = record {
    has_batch = any-update (is_of a.batch_id) _ _ s.batches (λ b _. rw (same_key b)) ∙ h.has_batch;
    active_open = λ t. open_elsewhere a.batch_id (ground arith) ∙ h.active_open t;
  }

  Accounted-closed :
      (b : BatchRecord)
      → Accounted s.delivery_attempts b
      → Accounted s.delivery_attempts (close_batch reason note now b)
  unfolding close_batch
  Accounted-closed b h = record { budget = h.budget; exact = h.exact }

  zip_All :
      (rows : List DeliveryAttemptRecord)
      → All (λ a. (a.batch_id == k && is_active a.state) ≡ false) rows
      → All (Housed s.batches) rows
      → All (Housed closed_rows) rows
  zip_All [] q h = tt
  zip_All (a ∷ rest) q h = (Housed-closed a q.0 h.0, zip_All rest q.1 h.1)

  pub close-Inv : Inv (record s { batches = closed_rows })
  close-Inv = record {
    jobs_keyed = v.jobs_keyed;
    batches_keyed =
        Keyed-update (λ b. b.batch_id) (is_open_batch k) (close_batch reason note now) s.batches
          same_key v.batches_keyed;
    attempts_keyed = v.attempts_keyed;
    sessions_keyed = v.sessions_keyed;
    housed = zip_All s.delivery_attempts (none_of_any _ s.delivery_attempts quiet) v.housed;
    accounted =
        All-update (Accounted s.delivery_attempts) _ _ s.batches (λ b _. Accounted-closed b)
          v.accounted;
    single_flight = v.single_flight;
    single_session = v.single_session;
  }

module _ (s : Store) (n : NewBatch) (links : List BatchJob) (v : Inv s)
    (fresh : any_where (is_of n.batch_id) s.batches ≡ false) where
  abbrev more : List BatchRecord
  more = s.batches ++ new_batch_row n ∷ []

  -- No attempt belongs to a batch that is not there yet.
  no_attempts :
      (rows : List DeliveryAttemptRecord)
      → All (Housed s.batches) rows
      → any_where (spent_on n.batch_id) rows ≡ false
  unfolding any_where
  no_attempts [] h = refl
  no_attempts (a ∷ rest) h = elim (Bool-cases (a.batch_id == n.batch_id)) [
    | inl e ↦
        (let same = ap (λ t. any_where (is_of t) s.batches) (eq_of_== _ _ e) in
          absurd (cc (h.0.has_batch, same, fresh)))
    | inr e ↦ ground (arith, no_attempts rest h.1)
  ]

  Housed-more : (a : DeliveryAttemptRecord) → Housed s.batches a → Housed more a
  unfolding batch_open_in
  Housed-more a h = record {
    has_batch =
        ground (arith, any-append (is_of a.batch_id) s.batches (new_batch_row n ∷ []), h.has_batch);
    active_open = λ q. ground (
      arith,
      any-append (λ b. b.batch_id == a.batch_id && is_open b.state) s.batches
          (new_batch_row n ∷ []),
      h.active_open q,
    );
  }

  Accounted-new : Accounted s.delivery_attempts (new_batch_row n)
  unfolding new_batch_row
  Accounted-new = record {
    budget = omega arith;
    exact =
        count-none (spent_on n.batch_id) s.delivery_attempts
          (no_attempts s.delivery_attempts v.housed);
  }

  keyed_new : any_where (λ b. b.batch_id == (new_batch_row n).batch_id) s.batches ≡ false
  unfolding new_batch_row
  keyed_new = fresh

  pub add_batch-Inv : Inv (record s { batches = more; batch_jobs = links })
  add_batch-Inv = record {
    jobs_keyed = v.jobs_keyed;
    batches_keyed =
        Keyed-append (λ b. b.batch_id) s.batches (new_batch_row n) v.batches_keyed keyed_new;
    attempts_keyed = v.attempts_keyed;
    sessions_keyed = v.sessions_keyed;
    housed = All-map (Housed s.batches) (Housed more) s.delivery_attempts Housed-more v.housed;
    accounted =
        All-append (Accounted s.delivery_attempts) s.batches (new_batch_row n ∷ []) v.accounted
          (Accounted-new, tt);
    single_flight = v.single_flight;
    single_session = v.single_session;
  }
