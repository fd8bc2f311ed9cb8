-- ===== src/Delivery/Acceptance.antt =====
-- The acceptance of a pending attempt (store.rs, `accept_*`), and the store that it leaves.
use codex_background_task_ha.Base.{
  ℕ, ◌≡◌, refl, sym, ap, ◌∙◌, subst, true, arith, ltb, ◌==◌, ==_refl, update_where, find_test,
  find-update, ok, ◌>>=◌, found, Post, post_bind, post_seq, post_guard, post_ok, bind_of,
  found-some,
}
use codex_background_task_ha.Models.{AdapterKind, is_open, BatchRecord, DeliveryAttemptRecord}
use codex_background_task_ha.Store.{
  Store, query_batch_tx, query_delivery_attempt_tx, query_cli_managed_session_tx,
}
use codex_background_task_ha.Store.Batches.{count_delivery, has_budget, count_delivery_tx}
use codex_background_task_ha.Store.Guards.{
  ensure_batch_open, ensure_attempt_budget_remaining, ensure_nonempty_value,
  ensure_cli_attempt_has_recorded_detached_delivery_proof_snapshot,
  ensure_cli_attempt_has_recorded_detached_delivery_proof,
  ensure_cli_attempt_has_current_managed_session_for_batch_tx,
  ensure_cli_attempt_has_current_managed_session_tx,
}
use codex_background_task_ha.Store.Attempts.{reply}
use codex_background_task_ha.Store.Outcomes.{
  is_pending_attempt, accept_row, accept_rows, is_accepted_turn, accept_cli_pending,
  accept_codex_pending,
}
use codex_background_task_ha.Delivery.Refine.Settle.{pending_of}

accept_row-is_accepted_turn :
    (turn now deadline : ℕ) (a : DeliveryAttemptRecord)
    → is_accepted_turn (accept_row turn now deadline a) turn ≡ true
unfolding is_accepted_turn accept_row
accept_row-is_accepted_turn turn now deadline a = ==_refl turn

-- The attempt as it is found, accepted with the turn.
abbrev Settled : ℕ → ℕ → Store × DeliveryAttemptRecord → Type 0
Settled k turn p =
    (ensure_nonempty_value turn ≡ ok tt)
    × (query_delivery_attempt_tx p.0 k ≡ ok p.1)
    × (is_accepted_turn p.1 turn ≡ true)

module _ (s : Store) where
  counted_store :
      (k now : ℕ)
      → Post (count_delivery_tx s k now) (λ t.
        t ≡ record s { batches = update_where (has_budget k) (count_delivery now) s.batches })
  unfolding count_delivery_tx
  counted_store k now = post_seq _ _ λ _.
      post_ok
        (λ t. t ≡ record s { batches = update_where (has_budget k) (count_delivery now) s.batches })
        _ refl

  reply-Settled :
      (k turn : ℕ) (a : DeliveryAttemptRecord)
      → ensure_nonempty_value turn ≡ ok tt
      → query_delivery_attempt_tx s k ≡ ok a
      → is_accepted_turn a turn ≡ true
      → Post (reply s k) (λ p. (p ≡ (s, a)) × Settled k turn p)
  unfolding reply
  reply-Settled k turn a named there settled = post_bind _ _ λ c e.
      let same : c ≡ a = cc in
      post_ok (λ p. (p ≡ (s, a)) × Settled k turn p) (s, c)
        (ap (λ z. (s, z)) same, (named, e, ap (λ z. is_accepted_turn z turn) same ∙ settled))

-- The store once an attempt is accepted and its delivery counted.
module _ (s : Store) (k turn now deadline : ℕ) (a : DeliveryAttemptRecord) where
  unfoldable pub accepted_store : Store
  accepted_store = record (accept_rows s k turn now deadline) {
    batches = update_where (has_budget a.batch_id) (count_delivery now) s.batches;
  }

  accepted_attempt :
      query_delivery_attempt_tx s k ≡ ok a
      → is_pending_attempt k a ≡ true
      → query_delivery_attempt_tx accepted_store k ≡ ok (accept_row turn now deadline a)
  unfolding accepted_store accept_rows query_delivery_attempt_tx found is_pending_attempt accept_row
  accepted_attempt there pending =
      rw
        (find-update (λ x. x.attempt_id == k) (is_pending_attempt k) (accept_row turn now deadline)
          s.delivery_attempts a (λ x _. refl) (found-some _ _ _ there) pending)
        refl

  pub accepted_batch :
      (b : BatchRecord)
      → query_batch_tx s a.batch_id ≡ ok b
      → is_open b.state ≡ true
      → ltb b.delivery_attempt_count b.max_delivery_attempts ≡ true
      → query_batch_tx accepted_store a.batch_id ≡ ok (count_delivery now b)
  unfolding accepted_store query_batch_tx found has_budget count_delivery
  accepted_batch b there open_ budget =
      let f = found-some _ _ _ there in
      let same : (b.batch_id == a.batch_id) ≡ true = find_test _ s.batches b f in
      rw
        (find-update (λ x. x.batch_id == a.batch_id) (has_budget a.batch_id) (count_delivery now)
          s.batches b (λ x _. refl) f (ground arith))
        refl

  -- The session of the attempt is checked as it was before the acceptance.
  accepted_session :
      (b : BatchRecord)
      → query_batch_tx s a.batch_id ≡ ok b
      → is_open b.state ≡ true
      → ltb b.delivery_attempt_count b.max_delivery_attempts ≡ true
      → ensure_cli_attempt_has_current_managed_session_for_batch_tx s a b ≡ ok tt
      → ensure_cli_attempt_has_current_managed_session_tx accepted_store
          (accept_row turn now deadline a)
        ≡ ok tt
  unfolding ensure_cli_attempt_has_current_managed_session_tx accept_row accepted_store accept_rows
      ensure_cli_attempt_has_current_managed_session_for_batch_tx count_delivery
      query_cli_managed_session_tx ensure_cli_attempt_has_recorded_detached_delivery_proof
      ensure_cli_attempt_has_recorded_detached_delivery_proof_snapshot
  accepted_session b there open_ budget h = bind_of _ _ _ (accepted_batch b there open_ budget) ∙ h

  abbrev pub FirstAcceptance : Store × DeliveryAttemptRecord → Type 0
  FirstAcceptance p =
      (p ≡ (accepted_store, accept_row turn now deadline a))
      × (is_pending_attempt k a ≡ true)
      × (query_delivery_attempt_tx p.0 k ≡ ok p.1)
      × (is_accepted_turn p.1 turn ≡ true)

  counted_reply :
      query_delivery_attempt_tx s k ≡ ok a
      → is_pending_attempt k a ≡ true
      → Post
          (count_delivery_tx (accept_rows s k turn now deadline) a.batch_id now >>= λ t. reply t k)
          FirstAcceptance
  unfolding accepted_store accept_rows reply
  counted_reply there pending = post_bind _ _ λ t counted.
      let same : t ≡ accepted_store =
        counted_store (accept_rows s k turn now deadline) a.batch_id now t counted in
      let again : query_delivery_attempt_tx t k ≡ ok (accept_row turn now deadline a) =
        subst (λ u. query_delivery_attempt_tx u k ≡ ok (accept_row turn now deadline a)) (sym same)
          (accepted_attempt there pending) in
      post_bind _ _ λ c e.
        let row : c ≡ accept_row turn now deadline a = cc in
        post_ok FirstAcceptance (t, c)
          (
            (rw (same, row) refl),
            pending,
            e,
            ap (λ z. is_accepted_turn z turn) row ∙ accept_row-is_accepted_turn turn now deadline a,
          )

  pub codex_first :
      query_delivery_attempt_tx s k ≡ ok a
      → Post (accept_codex_pending s a k turn now deadline) FirstAcceptance
  unfolding accept_codex_pending
  codex_first there = post_seq _ _ λ pending. post_bind _ _ λ b _. post_seq _ _ λ _.
      post_seq _ _ λ _. post_seq _ _ λ _. post_seq _ _ λ _.
        post_seq _ _
          λ _. counted_reply there (pending_of s k AdapterKind.codex_app_server a there pending).0

  pub cli_first :
      query_delivery_attempt_tx s k ≡ ok a
      → Post (accept_cli_pending s a k turn now deadline) (λ p.
        FirstAcceptance p × (ensure_cli_attempt_has_current_managed_session_tx p.0 p.1 ≡ ok tt))
  unfolding accept_cli_pending ensure_batch_open ensure_attempt_budget_remaining
  cli_first there = post_seq _ _ λ pending. post_bind _ _ λ b b_there. post_guard _ _ _ λ open_.
      post_seq _ _ λ _. post_seq _ _ λ _. post_seq _ _ λ _. post_seq _ _ λ session.
        post_guard _ _ _ λ budget. post_seq _ _ λ _ p e.
          let f = counted_reply there (pending_of s k AdapterKind.cli a there pending).0 p e in
          (
            f,
            subst (λ q. ensure_cli_attempt_has_current_managed_session_tx q.0 q.1 ≡ ok tt) (sym f.0)
                (accepted_session b b_there open_ budget session),
          )
