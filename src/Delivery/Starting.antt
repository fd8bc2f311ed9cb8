-- ===== src/Delivery/Starting.antt =====
-- What the store checks before an attempt starts, and what it inserts.
use codex_background_task_ha.Base.{
  ℕ, ◌<◌, ◌≡◌, refl, sym, ap, subst, true, false, Option, none, some, [], ◌∷◌, ◌++◌, arith, ◌==◌,
  ==_refl, eq_of_==, any_where, find-append, Error, ok, ◌>>=◌, found, Post, post_bind, post_seq,
  post_guard, post_ok, guard-true,
}
use codex_background_task_ha.Models.{
  ActivityState, AuthorizationMode, RpcKind, is_open, is_automatic, is_attached, activity_eq,
  BatchRecord, DeliveryAttemptRecord, CliManagedSessionRecord,
}
use codex_background_task_ha.Store.{
  Store, query_batch_tx, query_delivery_attempt_tx, query_cli_managed_session_tx,
  batch_is_thread_head_tx, in_flight, next_attempt_generation_tx, insert_delivery_attempt,
}
use codex_background_task_ha.Store.Guards.{
  ensure_cli_session_epoch_matches, ensure_cli_session_identity_allows_delivery,
  ensure_cli_session_ready_for, ensure_cli_session_allows_delivery,
}
use codex_background_task_ha.Store.Attempts.{reply}

-- What the store has checked of the batch when it starts an attempt on it.
pub record BatchAdmits (s : Store) (k : ℕ) (b : BatchRecord) : Type 0 where
  pub there : query_batch_tx s k ≡ ok b
  pub open_ : is_open b.state ≡ true
  pub head : batch_is_thread_head_tx s b ≡ true
  pub automatic : is_automatic b.replay_policy ≡ true
  pub in_budget : b.delivery_attempt_count < b.max_delivery_attempts
  pub idle_thread : any_where (in_flight s.batches b.source_thread_id) s.delivery_attempts ≡ false

-- What the store has checked of the session: it is the thread's, attached, in the epoch, idle.
pub record SessionAdmits (s : Store) (k epoch thread : ℕ) (c : CliManagedSessionRecord)
    : Type 0 where
  pub there : query_cli_managed_session_tx s k ≡ ok c
  pub same_thread : c.bound_thread_id ≡ thread
  pub same_epoch : c.session_epoch ≡ epoch
  pub attached : is_attached c.session_state ≡ true
  pub idle : activity_eq c.activity_state ActivityState.idle ≡ true

ready_idle :
    (c : CliManagedSessionRecord) (kind : Option RpcKind)
    → ensure_cli_session_ready_for c kind ≡ ok tt
    → activity_eq c.activity_state ActivityState.idle ≡ true
unfolding ensure_cli_session_ready_for
ready_idle c none h = absurd (cc h)
ready_idle c (some RpcKind.turn_steer) h = absurd (cc h)
ready_idle c (some RpcKind.turn_start) h =
    post_seq {P = λ _. activity_eq c.activity_state ActivityState.idle ≡ true} _ _
      (λ _ u g. guard-true _ _ g) tt h

-- The store and the row after an attempt has started.
pub record Started (s t : Store) (row a : DeliveryAttemptRecord) : Type 0 where
  pub store : t ≡ record s { delivery_attempts = s.delivery_attempts ++ row ∷ [] }
  pub reply : a ≡ row
  pub next : next_attempt_generation_tx s row.batch_id ≡ ok row.generation
  pub found_again : query_delivery_attempt_tx t row.attempt_id ≡ ok row

module _ (s : Store) where
  inserted :
      (row : DeliveryAttemptRecord)
      → Post (insert_delivery_attempt s row) (λ t.
        (any_where (λ a. a.attempt_id == row.attempt_id) s.delivery_attempts ≡ false)
        × (t ≡ record s { delivery_attempts = s.delivery_attempts ++ row ∷ [] }))
  unfolding insert_delivery_attempt
  inserted row = post_guard _ _ _ λ fresh. post_seq _ _ λ _. post_seq _ _ λ _. post_seq _ _ λ _.
      post_ok
        (λ t.
          (any_where (λ a. a.attempt_id == row.attempt_id) s.delivery_attempts ≡ false)
          × (t ≡ record s { delivery_attempts = s.delivery_attempts ++ row ∷ [] }))
        _ (ground arith, refl)

  pub insert_then_reply :
      (row : DeliveryAttemptRecord) (k : ℕ)
      → row.attempt_id ≡ k
      → next_attempt_generation_tx s row.batch_id ≡ ok row.generation
      → Post (insert_delivery_attempt s row >>= λ t. reply t k) (λ p. Started s p.0 row p.1)
  unfolding reply query_delivery_attempt_tx found
  insert_then_reply row k same next = post_bind _ _ λ t e.
      let (fresh, eq) = inserted row t e in
      let again : query_delivery_attempt_tx t row.attempt_id ≡ ok row =
        subst (λ u. query_delivery_attempt_tx u row.attempt_id ≡ ok row) (sym eq)
          (ap (λ z. found z Error.attempt_not_found)
            (find-append (λ a. a.attempt_id == row.attempt_id) s.delivery_attempts row fresh
              (==_refl row.attempt_id))) in
      post_bind _ _ λ a f.
        let f' : query_delivery_attempt_tx t row.attempt_id ≡ ok a =
          subst (λ j. query_delivery_attempt_tx t j ≡ ok a) (sym same) f in
        post_ok (λ p. Started s p.0 row p.1) (t, a)
          (record { store = eq; reply = cc; next = next; found_again = again })

  identity_admits :
      (thread epoch : ℕ) (c : CliManagedSessionRecord) (mode : AuthorizationMode)
      → ensure_cli_session_identity_allows_delivery c thread epoch mode ≡ ok tt
      → (c.bound_thread_id ≡ thread)
        × (c.session_epoch ≡ epoch)
        × (is_attached c.session_state ≡ true)
  unfolding ensure_cli_session_identity_allows_delivery ensure_cli_session_epoch_matches
  identity_admits thread epoch c mode h =
      post_guard
        {P = λ _.
          (c.bound_thread_id ≡ thread)
          × (c.session_epoch ≡ epoch)
          × (is_attached c.session_state ≡ true)}
        _ _ _
        (λ same_thread. post_guard _ _ _ λ same_epoch.
          post_guard _ _ _
            λ attached _ _. (eq_of_== _ _ same_thread, eq_of_== _ _ same_epoch, attached))
        tt h

  pub session_admits :
      (k epoch thread : ℕ) (c : CliManagedSessionRecord) (kind : Option RpcKind)
      (mode : AuthorizationMode)
      → query_cli_managed_session_tx s k ≡ ok c
      → ensure_cli_session_allows_delivery c thread epoch kind mode ≡ ok tt
      → SessionAdmits s k epoch thread c
  unfolding ensure_cli_session_allows_delivery
  session_admits k epoch thread c kind mode there h =
      post_seq {P = λ _. SessionAdmits s k epoch thread c} _ _
        (λ i _ ready.
          let (same_thread, same_epoch, attached) = identity_admits thread epoch c mode i in
          record {
            there = there;
            same_thread = same_thread;
            same_epoch = same_epoch;
            attached = attached;
            idle = ready_idle c kind ready;
          })
        tt h
