-- ===== src/Delivery/Fencing.antt =====
-- Attempts of an earlier epoch of their session (`accept_cli_attempt`).
use codex_background_task_ha.Base.{
  ℕ, ◌<◌, ◌≡◌, refl, sym, ap, ◌∙◌, subst, Bool, true, false, not, ◌&&◌, some, List, arith, ltb,
  ◌==◌, All, All-find, find_test, All-updated, Result, ok, err, is_ok, found, Post, post_bind,
  post_seq, post_guard, post_ok, post_if, found-some,
}
use codex_background_task_ha.Models.{
  AuthorizationMode, is_attached, BatchRecord, DeliveryAttemptRecord, CliManagedSessionRecord,
}
use codex_background_task_ha.Store.{Store, query_delivery_attempt_tx, query_cli_managed_session_tx}
use codex_background_task_ha.Store.Fences.{
  clear_proof, next_epoch, invalidate_cli_managed_session_activity_tx,
}
use codex_background_task_ha.Store.Guards.{
  ensure_cli_session_epoch_matches, ensure_cli_session_identity_allows_delivery,
  ensure_cli_attempt_has_current_managed_session_for_batch_tx,
  ensure_cli_attempt_has_current_managed_session_tx,
}
use codex_background_task_ha.Store.Outcomes.{
  is_accepted_turn, accept_cli_pending, accept_cli_attempt,
}
use codex_background_task_ha.Store.Sessions.{session_reply}
use codex_background_task_ha.Store.Notes.{
  cli_session_proof_is_clear, invalidate_proof, invalidate_cli_managed_session_proof,
}
use codex_background_task_ha.Delivery.Invariant.{Inv}
use codex_background_task_ha.Delivery.Calls.{Env, Call, run}
use codex_background_task_ha.Delivery.Finality.{attempt_after, session_after}

-- A call that returns only what cannot be fails.
fails : {A : Type 0} (m : Result A) → Post m (λ _. true ≡ false) → is_ok m ≡ false
fails (ok a) h = h a refl
fails (err e) h = refl

-- The session that an attempt names takes a delivery of its epoch.
abbrev pub can_deliver : CliManagedSessionRecord → ℕ → Bool
can_deliver c epoch = is_attached c.session_state && c.session_epoch == epoch

module _ (s : Store) where
  identity-can_deliver :
      (c : CliManagedSessionRecord) (thread epoch : ℕ) (mode : AuthorizationMode)
      → ensure_cli_session_identity_allows_delivery c thread epoch mode ≡ ok tt
      → can_deliver c epoch ≡ true
  unfolding ensure_cli_session_identity_allows_delivery ensure_cli_session_epoch_matches
  identity-can_deliver c thread epoch mode h =
      post_guard {P = λ _. can_deliver c epoch ≡ true} _ _ _
        (λ _. post_guard _ _ _ λ same. post_guard _ _ _ λ attached_ _ _. ground arith) tt h

  current-can_deliver :
      (a : DeliveryAttemptRecord) (b : BatchRecord) (m epoch : ℕ) (c : CliManagedSessionRecord)
      → a.managed_session_id ≡ some m
      → a.session_epoch ≡ some epoch
      → query_cli_managed_session_tx s m ≡ ok c
      → ensure_cli_attempt_has_current_managed_session_for_batch_tx s a b ≡ ok tt
      → can_deliver c epoch ≡ true
  unfolding ensure_cli_attempt_has_current_managed_session_for_batch_tx found
  current-can_deliver a b m epoch c hm he there h =
      post_bind {P = λ _. can_deliver c epoch ≡ true} _ _
        (λ m' em. post_bind _ _ λ epoch' ee. post_bind _ _ λ c' ec. post_seq _ _ λ i _ _.
          let mm : m' ≡ m = cc in
          let epochs : epoch' ≡ epoch = cc in
          let ec' : query_cli_managed_session_tx s m ≡ ok c' =
            subst (λ j. query_cli_managed_session_tx s j ≡ ok c') mm ec in
          let cs : c' ≡ c = cc in
          ap (λ z. can_deliver z epoch) (sym cs)
          ∙ ap (can_deliver c') (sym epochs)
          ∙ identity-can_deliver c' b.source_thread_id epoch' a.authorization_mode i)
        tt h

  -- An acceptance, the first or a repeated one, needs the attempt's session in the attempt's epoch.
  accept_cli-can_deliver :
      (k turn now deadline : ℕ) (a : DeliveryAttemptRecord) (m epoch : ℕ)
      (c : CliManagedSessionRecord)
      → query_delivery_attempt_tx s k ≡ ok a
      → a.managed_session_id ≡ some m
      → a.session_epoch ≡ some epoch
      → query_cli_managed_session_tx s m ≡ ok c
      → Post (accept_cli_attempt s k turn now deadline) (λ _. can_deliver c epoch ≡ true)
  unfolding accept_cli_attempt accept_cli_pending ensure_cli_attempt_has_current_managed_session_tx
  accept_cli-can_deliver k turn now deadline a m epoch c ha hm he hc = post_seq _ _ λ _.
      post_bind _ _ λ a' e.
        let aa : a' ≡ a = cc in
        let hm' : a'.managed_session_id ≡ some m = ap (λ z. z.managed_session_id) aa ∙ hm in
        let he' : a'.session_epoch ≡ some epoch = ap (λ z. z.session_epoch) aa ∙ he in
        post_if (is_accepted_turn a' turn) _ _
          (λ _. post_seq _ _ λ q _ _.
            post_bind {P = λ _. can_deliver c epoch ≡ true} _ _
              (λ b _ _ r. current-can_deliver a' b m epoch c hm' he' hc r) tt q)
          (λ _. post_seq _ _ λ _. post_bind _ _ λ b _. post_seq _ _ λ _. post_seq _ _ λ _.
            post_seq _ _ λ _.
              post_seq _ _
                λ _. post_seq _ _ λ r _ _. current-can_deliver a' b m epoch c hm' he' hc r)

  pub accept_cli-refused :
      (k turn now deadline : ℕ) (a : DeliveryAttemptRecord) (m epoch : ℕ)
      (c : CliManagedSessionRecord)
      → query_delivery_attempt_tx s k ≡ ok a
      → a.managed_session_id ≡ some m
      → a.session_epoch ≡ some epoch
      → query_cli_managed_session_tx s m ≡ ok c
      → can_deliver c epoch ≡ false
      → is_ok (accept_cli_attempt s k turn now deadline) ≡ false
  accept_cli-refused k turn now deadline a m epoch c ha hm he hc no_delivery =
      fails (accept_cli_attempt s k turn now deadline) λ r e.
        sym (accept_cli-can_deliver k turn now deadline a m epoch c ha hm he hc r e) ∙ no_delivery

-- From a well-formed store in which the session of an attempt is in a later epoch than the
-- attempt's, the CLI acceptance of the attempt fails after any history of calls.
pub stale_attempt_never_accepted :
    (e : Env) (s : Store) (cs : List Call) (k turn now deadline : ℕ) (a : DeliveryAttemptRecord)
    (m epoch : ℕ) (c : CliManagedSessionRecord)
    → Inv s
    → query_delivery_attempt_tx s k ≡ ok a
    → a.managed_session_id ≡ some m
    → a.session_epoch ≡ some epoch
    → query_cli_managed_session_tx s m ≡ ok c
    → epoch < c.session_epoch
    → is_ok (accept_cli_attempt (run e s cs) k turn now deadline) ≡ false
stale_attempt_never_accepted e s cs k turn now deadline a m epoch c v ha hm he hc later =
    let (a', fa, ea) = attempt_after e s v cs k a ha in
    let (c', fc, ec) = session_after e s v cs m c hc in
    let grows = ec.epoch_grows in
    accept_cli-refused (run e s cs) k turn now deadline a' m epoch c' fa (ea.same_session ∙ hm)
      (ea.same_epoch ∙ he) fc (ground arith)

-- The session is fenced off: it takes no delivery of the epoch.
abbrev Fenced : ℕ → ℕ → CliManagedSessionRecord → Type 0
Fenced k epoch c = (c.managed_session_id == k) ≡ true → can_deliver c epoch ≡ false

-- What a call replies with once it has fenced the session off.
abbrev FencedOff : ℕ → ℕ → Store × CliManagedSessionRecord → Type 0
FencedOff k epoch r =
    (query_cli_managed_session_tx r.0 k ≡ ok r.1) × (can_deliver r.1 epoch ≡ false)

module _ (s : Store) where
  invalidate-Fenced :
      (k epoch now : ℕ)
      → All
          (Fenced k epoch)
          (invalidate_cli_managed_session_activity_tx s
            (some k)
            (some epoch)
            now).cli_managed_sessions
  unfolding invalidate_cli_managed_session_activity_tx next_epoch clear_proof
  invalidate-Fenced k epoch now =
      All-updated (Fenced k epoch) _ (next_epoch now) s.cli_managed_sessions (λ c h _. ground arith)
        (λ c h same. ground arith)

  reply-Fenced :
      (k epoch : ℕ)
      → All (Fenced k epoch) s.cli_managed_sessions
      → Post (session_reply s k) (FencedOff k epoch)
  unfolding session_reply query_cli_managed_session_tx found
  reply-Fenced k epoch h = post_bind _ _ λ c e.
      post_ok (FencedOff k epoch) (s, c)
        (let f = found-some _ _ _ e in
          (e, All-find (Fenced k epoch) _ s.cli_managed_sessions c h f (find_test _ _ c f)))

module _ (s : Store) where
  proof_lost :
      (k epoch now : ℕ)
      → Post (invalidate_cli_managed_session_proof s k epoch now) (FencedOff k epoch)
  unfolding invalidate_cli_managed_session_proof invalidate_proof
  proof_lost k epoch now = post_seq _ _ λ _. post_bind _ _ λ c there.
      post_if (not (is_attached c.session_state)) _ _
        (λ h. post_ok (FencedOff k epoch) (s, c) (there, ground arith))
        (λ _.
          post_if
            (not (c.session_epoch == epoch)
              && ltb epoch c.session_epoch
              && cli_session_proof_is_clear c)
            _ _ (λ h. post_ok (FencedOff k epoch) (s, c) (there, ground arith))
            (λ _.
              post_seq _ _
                λ _. post_bind _ _ λ t _. reply-Fenced _ k epoch (invalidate-Fenced t k epoch now)))

-- Once the proof of a session's epoch is invalidated, no CLI acceptance of an attempt of that
-- session and epoch succeeds on the store that the call leaves.
pub lost_proof_fences_attempts :
    (s : Store) (session epoch now : ℕ) (r : Store × CliManagedSessionRecord)
    (k turn later deadline : ℕ) (a : DeliveryAttemptRecord)
    → invalidate_cli_managed_session_proof s session epoch now ≡ ok r
    → query_delivery_attempt_tx r.0 k ≡ ok a
    → a.managed_session_id ≡ some session
    → a.session_epoch ≡ some epoch
    → is_ok (accept_cli_attempt r.0 k turn later deadline) ≡ false
lost_proof_fences_attempts s session epoch now r k turn later deadline a lost ha hm he =
    let (there, fenced) = proof_lost s session epoch now r lost in
    accept_cli-refused r.0 k turn later deadline a session epoch r.1 ha hm he there fenced
