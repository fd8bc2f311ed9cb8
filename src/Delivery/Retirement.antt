-- ===== src/Delivery/Retirement.antt =====
-- The retirement of a session by the operator (`retire_cli_managed_session`).
use codex_background_task_ha.Base.{
  ℕ, ◌≡◌, refl, subst, Bool, true, false, not, ◌&&◌, arith, ◌==◌, column_eq, eq_of_==, All-find,
  any_where, find_test, All-updated, ok, Post, post_bind, post_seq, post_guard, post_ok, found-some,
}
use codex_background_task_ha.Models.{
  SessionState, AdapterKind, is_retired, adapter_eq, is_active, DeliveryAttemptRecord,
  CliManagedSessionRecord,
}
use codex_background_task_ha.Store.{Store, query_cli_managed_session_tx}
use codex_background_task_ha.Store.Sessions.{
  session_reply, ensure_cli_session_has_no_recovery_blockers_tx,
  ensure_cli_session_retire_eligible_tx, retire_row, retire_cli_managed_session_tx,
  retire_cli_managed_session,
}

-- An active CLI attempt over the session.
abbrev pub needs : ℕ → DeliveryAttemptRecord → Bool
needs k a =
    adapter_eq a.adapter_kind AdapterKind.cli
    && column_eq a.managed_session_id k
    && is_active a.state

abbrev RetiredRow : ℕ → CliManagedSessionRecord → Type 0
RetiredRow k c = (c.managed_session_id == k) ≡ true → is_retired c.session_state ≡ true

-- The reply is the retired session, and no active CLI attempt is over it.
pub record Retired (k : ℕ) (p : Store × CliManagedSessionRecord) : Type 0 where
  pub found_again : query_cli_managed_session_tx p.0 k ≡ ok p.1
  pub state : is_retired p.1.session_state ≡ true
  pub unneeded : any_where (needs k) p.0.delivery_attempts ≡ false

module _ (s : Store) where
  no_blockers :
      (c : CliManagedSessionRecord)
      → ensure_cli_session_has_no_recovery_blockers_tx s c ≡ ok tt
      → any_where (needs c.managed_session_id) s.delivery_attempts ≡ false
  unfolding ensure_cli_session_has_no_recovery_blockers_tx
  no_blockers c h =
      post_guard {P = λ _. any_where (needs c.managed_session_id) s.delivery_attempts ≡ false} _ _ _
        (λ q _ _. ground arith) tt h

  eligible :
      (c : CliManagedSessionRecord) (state : SessionState)
      → c.session_state ≡ state
      → ensure_cli_session_retire_eligible_tx s c ≡ ok tt
      → any_where (needs c.managed_session_id) s.delivery_attempts ≡ false
  unfolding ensure_cli_session_retire_eligible_tx
  eligible c SessionState.live e h = absurd (cc (rw e at h))
  eligible c SessionState.retired e h = absurd (cc (rw e at h))
  eligible c SessionState.detached e h = no_blockers c (rw e at h)
  eligible c SessionState.parked e h = no_blockers c (rw e at h)
  eligible c SessionState.stale e h = no_blockers c (rw e at h)

  retire_tx-Retired :
      (audit_id : ℕ) (c : CliManagedSessionRecord) (decision reason now : ℕ)
      → any_where (needs c.managed_session_id) s.delivery_attempts ≡ false
      → Post
          (retire_cli_managed_session_tx s audit_id c decision reason now)
          (Retired c.managed_session_id)
  unfolding retire_cli_managed_session_tx session_reply query_cli_managed_session_tx retire_row
  retire_tx-Retired audit_id c decision reason now quiet = post_bind _ _ λ d there.
      let k = c.managed_session_id in
      let row = found-some _ _ _ there in
      let rows =
        All-updated (RetiredRow k)
          (λ x. x.managed_session_id == k && not (is_retired x.session_state)) (retire_row now)
          s.cli_managed_sessions (λ x h same. refl) (λ x h same. ground arith) in
      post_ok (Retired k) (_, d)
        (record {
          found_again = there;
          state = All-find (RetiredRow k) _ _ d rows row (find_test _ _ d row);
          unneeded = quiet;
        })

-- When the operator's retirement of a session succeeds, the reply is that session as it is found in
-- the store that is left, retired, and no active CLI attempt there is over it.
pub retire-Retired :
    (operator_retire audit_id : ℕ) (s : Store) (k reason now : ℕ)
    (p : Store × CliManagedSessionRecord)
    → retire_cli_managed_session operator_retire audit_id s k reason now ≡ ok p
    → Retired k p
unfolding retire_cli_managed_session query_cli_managed_session_tx
retire-Retired operator_retire audit_id s k reason now p done =
    post_seq {P = Retired k} _ _
      (λ _. post_bind _ _ λ c there. post_seq _ _ λ may q e.
        let same =
          eq_of_== c.managed_session_id k
            (find_test _ s.cli_managed_sessions c (found-some _ _ _ there)) in
        subst (λ j. Retired j q) same
          (retire_tx-Retired s audit_id c operator_retire reason now
            (eligible s c c.session_state refl may) q e))
      p done
