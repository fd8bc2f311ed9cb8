-- ===== src/Delivery/Settlement.antt =====
-- First and repeated acceptances (store.rs, `accept_*`).
use codex_background_task_ha.Base.{
  ℕ, suc, ◌<◌, ◌≡◌, refl, sym, ap, ◌∙◌, true, false, some, arith, ltb, ◌==◌, Error, ok, found, Post,
  post_bind, post_seq, post_guard, post_ok, post_if, bind_of, seq_of,
}
use codex_background_task_ha.Models.{
  AttemptState, RpcState, ObservationState, is_open, is_accept_pending, BatchRecord,
  DeliveryAttemptRecord,
}
use codex_background_task_ha.Store.{Store, query_batch_tx, query_delivery_attempt_tx}
use codex_background_task_ha.Base.{find-update_apart, ltb, suc, ◌<◌}
use codex_background_task_ha.Store.Batches.{count_delivery, has_budget}
use codex_background_task_ha.Store.Guards.{
  ensure_nonempty_value, ensure_cli_attempt_has_current_managed_session_tx, ensure_batch_open,
  ensure_attempt_budget_remaining,
}
use codex_background_task_ha.Store.Outcomes.{
  is_pending_attempt, accept_row, accept_rows, is_accepted_turn, accept_cli_pending,
  accept_cli_attempt, accept_codex_app_server_attempt,
}
use codex_background_task_ha.Delivery.Acceptance.{
  accepted_store, accepted_batch, codex_first, cli_first,
}

settled_if :
    (s : Store) (k turn now deadline : ℕ) (a : DeliveryAttemptRecord)
    → ensure_nonempty_value turn ≡ ok tt
    → query_delivery_attempt_tx s k ≡ ok a
    → is_accepted_turn a turn ≡ true
    → accept_codex_app_server_attempt s k turn now deadline ≡ ok (s, a)
unfolding accept_codex_app_server_attempt
settled_if s k turn now deadline a named there settled =
    seq_of _ _ named ∙ bind_of _ _ a there ∙ rw settled refl

settled_cli_if :
    (s : Store) (k turn now deadline : ℕ) (a : DeliveryAttemptRecord)
    → ensure_nonempty_value turn ≡ ok tt
    → query_delivery_attempt_tx s k ≡ ok a
    → is_accepted_turn a turn ≡ true
    → ensure_cli_attempt_has_current_managed_session_tx s a ≡ ok tt
    → accept_cli_attempt s k turn now deadline ≡ ok (s, a)
unfolding accept_cli_attempt
settled_cli_if s k turn now deadline a named there settled session =
    seq_of _ _ named ∙ bind_of _ _ a there ∙ rw settled (seq_of _ _ session)

-- The batch of the attempt, as the acceptance finds it.
batch_counts :
    (s : Store) (k turn now deadline : ℕ) (a : DeliveryAttemptRecord)
    → Post (accept_cli_pending s a k turn now deadline) (λ _.
      (b : BatchRecord) × (query_batch_tx s a.batch_id ≡ ok b)
      × (is_open b.state ≡ true)
      × (ltb b.delivery_attempt_count b.max_delivery_attempts ≡ true))
unfolding accept_cli_pending ensure_batch_open ensure_attempt_budget_remaining
batch_counts s k turn now deadline a = post_seq _ _ λ _. post_bind _ _ λ b there.
    post_guard _ _ _ λ open_. post_seq _ _ λ _. post_seq _ _ λ _.
      post_seq _ _ λ _. post_seq _ _ λ _. post_guard _ _ _ λ budget _ _. (b, there, open_, budget)

-- Other attempts and other batches are found as they were.
other_attempt :
    (s : Store) (k turn now deadline j : ℕ) (a : DeliveryAttemptRecord)
    → (k == j) ≡ false
    → query_delivery_attempt_tx (accepted_store s k turn now deadline a) j
      ≡ query_delivery_attempt_tx s j
unfolding accepted_store accept_rows query_delivery_attempt_tx is_pending_attempt accept_row
other_attempt s k turn now deadline j a other =
    ap (λ o. found o Error.attempt_not_found)
      (find-update_apart (λ x. x.attempt_id == j) (is_pending_attempt k)
        (accept_row turn now deadline) s.delivery_attempts (λ x h. ground arith)
        (λ x h. ground arith))

other_batch :
    (s : Store) (k turn now deadline i : ℕ) (a : DeliveryAttemptRecord)
    → (a.batch_id == i) ≡ false
    → query_batch_tx (accepted_store s k turn now deadline a) i ≡ query_batch_tx s i
unfolding accepted_store accept_rows query_batch_tx has_budget count_delivery
other_batch s k turn now deadline i a other =
    ap (λ o. found o Error.batch_not_found)
      (find-update_apart (λ x. x.batch_id == i) (has_budget a.batch_id) (count_delivery now)
        s.batches (λ x h. ground arith) (λ x h. ground arith))

-- The attempt, accepted and tracked.
abbrev pub tracked : ℕ → ℕ → ℕ → DeliveryAttemptRecord → DeliveryAttemptRecord
tracked turn now deadline a = record a {
  state = AttemptState.cooldown;
  delivery_rpc_state = some RpcState.accepted;
  delivery_turn_id = some turn;
  delivery_accepted_at = some now;
  delivery_observation_state = some ObservationState.tracking;
  delivery_observation_deadline = some deadline;
  updated_at = now;
}

module _ (s : Store) (k turn now deadline : ℕ) (p : Store × DeliveryAttemptRecord) where
  -- A success on an attempt without the turn is one on a pending attempt.
  first_pending :
      (a : DeliveryAttemptRecord)
      → query_delivery_attempt_tx s k ≡ ok a
      → is_accepted_turn a turn ≡ false
      → accept_cli_attempt s k turn now deadline ≡ ok p
      → accept_cli_pending s a k turn now deadline ≡ ok p
  unfolding accept_cli_attempt
  first_pending a there first done =
      post_seq {P = λ q. accept_cli_pending s a k turn now deadline ≡ ok q} _ _
        (λ _ q e. sym (bind_of _ _ a there ∙ rw first refl) ∙ e) p done

  -- When a first CLI acceptance succeeds, the attempt was pending. It is then in cooldown, accepted and
  -- tracked with the turn and the deadline, as the reply says. Its batch was open and below its
  -- maximum, and has counted one delivery more. Other attempts and other batches are found as they
  -- were, and sessions, jobs and links are the same.
  pub accept_cli-effect :
      (a : DeliveryAttemptRecord) (j i : ℕ)
      → query_delivery_attempt_tx s k ≡ ok a
      → is_accepted_turn a turn ≡ false
      → (k == j) ≡ false
      → (a.batch_id == i) ≡ false
      → accept_cli_attempt s k turn now deadline ≡ ok p
      → (is_accept_pending a.state ≡ true)
        × (p.1 ≡ tracked turn now deadline a)
        × (query_delivery_attempt_tx p.0 k ≡ ok p.1)
        × ((b : BatchRecord) × (query_batch_tx s a.batch_id ≡ ok b)
            × (is_open b.state ≡ true)
            × (b.delivery_attempt_count < b.max_delivery_attempts)
            × (query_batch_tx p.0 a.batch_id
                ≡ ok (record b {
                  delivery_attempt_count = suc b.delivery_attempt_count;
                  updated_at = now;
                })))
        × (query_delivery_attempt_tx p.0 j ≡ query_delivery_attempt_tx s j)
        × (query_batch_tx p.0 i ≡ query_batch_tx s i)
        × (p.0.cli_managed_sessions ≡ s.cli_managed_sessions)
        × (p.0.jobs ≡ s.jobs)
        × (p.0.batch_jobs ≡ s.batch_jobs)
  unfolding accept_cli_attempt is_pending_attempt accept_row count_delivery accepted_store
      accept_rows
  accept_cli-effect a j i there first other elsewhere done =
      let e = first_pending a there first done in
      let ((same, pending, again, _), _) = cli_first s k turn now deadline a there p e in
      let (b, b_there, open_, budget) = batch_counts s k turn now deadline a p e in
      let left : p.0 ≡ accepted_store s k turn now deadline a = ap (λ q. q.0) same in
      (
        ground arith,
        ap (λ q. q.1) same,
        again,
        (
          b,
          b_there,
          open_,
          ground arith,
          ap (λ t. query_batch_tx t a.batch_id) left
              ∙ accepted_batch s k turn now deadline a b b_there open_ budget,
        ),
        ap (λ t. query_delivery_attempt_tx t j) left
            ∙ other_attempt s k turn now deadline j a other,
        ap (λ t. query_batch_tx t i) left ∙ other_batch s k turn now deadline i a elsewhere,
        ap (λ t. t.cli_managed_sessions) left,
        ap (λ t. t.jobs) left,
        ap (λ t. t.batch_jobs) left,
      )

  -- A repeated app-server acceptance of the same turn leaves the store alone and gives the first
  -- reply again, whatever its times.
  pub accept_codex-replay :
      (later other : ℕ)
      → accept_codex_app_server_attempt s k turn now deadline ≡ ok p
      → accept_codex_app_server_attempt p.0 k turn later other ≡ ok p
  unfolding accept_codex_app_server_attempt
  accept_codex-replay later other done =
      post_seq {P = λ p. accept_codex_app_server_attempt p.0 k turn later other ≡ ok p} _ _
        (λ named. post_bind _ _ λ a there.
          post_if (is_accepted_turn a turn) _ _
            (λ settled.
              post_ok (λ p. accept_codex_app_server_attempt p.0 k turn later other ≡ ok p) (s, a)
                (settled_if s k turn later other a named there settled))
            (λ _ q e.
              let (_, _, again, settled) = codex_first s k turn now deadline a there q e in
              settled_if q.0 k turn later other q.1 named again settled))
        p done

  -- A repeated CLI acceptance of the same turn leaves the store alone and gives the first reply
  -- again, whatever its times.
  pub accept_cli-replay :
      (later other : ℕ)
      → accept_cli_attempt s k turn now deadline ≡ ok p
      → accept_cli_attempt p.0 k turn later other ≡ ok p
  unfolding accept_cli_attempt
  accept_cli-replay later other done =
      post_seq {P = λ p. accept_cli_attempt p.0 k turn later other ≡ ok p} _ _
        (λ named. post_bind _ _ λ a there.
          post_if (is_accepted_turn a turn) _ _
            (λ settled. post_seq _ _ λ session.
              post_ok (λ p. accept_cli_attempt p.0 k turn later other ≡ ok p) (s, a)
                (settled_cli_if s k turn later other a named there settled session))
            (λ _ q e.
              let ((_, _, again, settled), session) = cli_first s k turn now deadline a there q e in
              settled_cli_if q.0 k turn later other q.1 named again settled session))
        p done
