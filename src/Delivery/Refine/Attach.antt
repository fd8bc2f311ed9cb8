-- ===== src/Delivery/Refine/Attach.antt =====
-- Binding a thread to a managed session, as a run of moves.
use codex_background_task_ha.Base.{
  ℕ, ◌≡◌, refl, ap, ◌∙◌, true, false, ◌&&◌, some, List, [], ◌∷◌, arith, ◌==◌, column_eq, &&_right,
  All, All-map, All-update, Keyed-first, select_where, Keyed, Pointwise-update_All, is_ok, guard,
  Post, post_bind, post_seq, post_ok, post_if, post_option,
}
use codex_background_task_ha.Models.{
  AdapterKind, is_attached, is_retired, adapter_eq, DeliveryAttemptRecord, CliManagedSessionRecord,
  CliManagedSessionProfile, CliManagedSessionProfileRequirement,
}
use codex_background_task_ha.Store.{Store, batch_open_in}
use codex_background_task_ha.Store.Fences.{
  clear_all_proofs, park_session, park_cli_managed_session_tx,
}
use codex_background_task_ha.Store.Batches.{manualize_rows}
use codex_background_task_ha.Store.Guards.{ensure_cli_session_attachable}
use codex_background_task_ha.Store.Sessions.{
  profile_matches, query_non_retired_cli_managed_session_by_thread_tx, is_observed_attempt,
  lose_attempt, lose_attempts, park_if_any, abandon_cli_observations_for_session_epoch_loss_tx,
  reattach_row, reattach_cli_managed_session, BindTexts, replace_cli_managed_session,
  attach_or_create_cli_managed_session,
}
use codex_background_task_ha.Delivery.Edges.{SessionEdge, SessionEdge-refl}
use codex_background_task_ha.Delivery.Moves.{edit_sessions, Moves, one, Moves-trans}
use codex_background_task_ha.Delivery.Refine.Sessions.{
  session_reply-Moves, epoch_loss-Moves, create-Moves, retire-Moves,
}

-- The rows with the id are not retired.
abbrev Unretired : ℕ → CliManagedSessionRecord → Type 0
Unretired k c = (c.managed_session_id == k) ≡ true → is_retired c.session_state ≡ false

park_row-Unretired : (k now : ℕ) (c : CliManagedSessionRecord) → Unretired k (park_session now c)
unfolding park_session clear_all_proofs
park_row-Unretired k now c h = refl

lose_attempts_sessions :
    (window now : ℕ) (rows : List DeliveryAttemptRecord) (s : Store)
    → (lose_attempts window now rows s).cli_managed_sessions ≡ s.cli_managed_sessions
unfolding lose_attempts lose_attempt manualize_rows
lose_attempts_sessions window now [] s = refl
lose_attempts_sessions window now (a ∷ rest) s =
    lose_attempts_sessions window now rest (lose_attempt window now a s)

park_if_any-Unretired :
    (k now : ℕ) (rows : List DeliveryAttemptRecord) (s : Store)
    → All (Unretired k) s.cli_managed_sessions
    → All (Unretired k) (park_if_any rows s k now).cli_managed_sessions
unfolding park_cli_managed_session_tx
park_if_any-Unretired k now [] s h = h
park_if_any-Unretired k now (_ ∷ _) s h =
    All-update (Unretired k) _ (park_session now) s.cli_managed_sessions
      (λ c _ _. park_row-Unretired k now c) h

epoch_loss-Unretired :
    (s : Store) (k now : ℕ)
    → All (Unretired k) s.cli_managed_sessions
    → Post
        (abandon_cli_observations_for_session_epoch_loss_tx s k now)
        (λ t. All (Unretired k) t.cli_managed_sessions)
unfolding abandon_cli_observations_for_session_epoch_loss_tx
epoch_loss-Unretired s k now h =
    let rows =
      select_where
        (λ a.
          adapter_eq a.adapter_kind AdapterKind.cli
          && column_eq a.managed_session_id k
          && batch_open_in s.batches a.batch_id
          && is_observed_attempt a)
        s.delivery_attempts in
    post_bind _ _ λ window _.
      post_ok (λ t. All (Unretired k) t.cli_managed_sessions) _
        (park_if_any-Unretired k now rows (lose_attempts window now rows s)
          (rw (lose_attempts_sessions window now rows s) h))

reattach-SessionEdge :
    (now : ℕ) (c : CliManagedSessionRecord)
    → is_retired c.session_state ≡ false
    → SessionEdge c (reattach_row now c)
unfolding reattach_row clear_all_proofs
reattach-SessionEdge now c h = ground arith

module _ (s : Store) where
  reattach-Moves :
      (c : CliManagedSessionRecord) (now : ℕ)
      → All (Unretired c.managed_session_id) s.cli_managed_sessions
      → Post (reattach_cli_managed_session s c now) (λ p. Moves s p.0)
  unfolding reattach_cli_managed_session
  reattach-Moves c now h = post_seq _ _ λ _. post_bind _ _ λ t e. post_bind _ _ λ p f.
      post_ok (λ p. Moves s p.0) _
        (session_reply-Moves _ c.managed_session_id
          (Moves-trans (epoch_loss-Moves s c.managed_session_id now t e) (
            one (
              edit_sessions _ (
                Pointwise-update_All SessionEdge SessionEdge-refl
                  (λ d. d.managed_session_id == c.managed_session_id) (reattach_row now)
                  t.cli_managed_sessions
                  (All-map (Unretired c.managed_session_id) _ t.cli_managed_sessions
                    (λ d u q. reattach-SessionEdge now d (u q))
                    (epoch_loss-Unretired s c.managed_session_id now h t e))))))
          p f)

  replace-Moves :
      (t : BindTexts) (c : CliManagedSessionRecord) (thread : ℕ) (p : CliManagedSessionProfile)
      (now : ℕ)
      → Post (replace_cli_managed_session t s c thread p now) (λ p. Moves s p.0)
  unfolding replace_cli_managed_session
  replace-Moves t c thread p now = post_seq _ _ λ _. post_bind _ _ λ r e. post_bind _ _ λ q f.
      post_ok (λ p. Moves s p.0) _
        (Moves-trans (retire-Moves s t.audit_id c t.auto_replace t.auto_replaced_by_bind now r e)
          (create-Moves r.0 t.session_id thread p now q f))

  existing-Unretired :
      (thread : ℕ) (c : CliManagedSessionRecord)
      → Keyed (λ c. c.managed_session_id) s.cli_managed_sessions
      → query_non_retired_cli_managed_session_by_thread_tx s thread ≡ some c
      → is_attached c.session_state ≡ true
      → All (Unretired c.managed_session_id) s.cli_managed_sessions
  unfolding query_non_retired_cli_managed_session_by_thread_tx
  existing-Unretired thread c keyed there attached_ =
      All-map (λ d. (d.managed_session_id == c.managed_session_id) ≡ true → d ≡ c) _
        s.cli_managed_sessions
        (λ d same q. ap (λ e. is_retired e.session_state) (same q) ∙ (ground arith))
        (Keyed-first (λ c. c.managed_session_id) _ _ s.cli_managed_sessions c keyed there)

  attachable :
      (c : CliManagedSessionRecord)
      → is_ok (ensure_cli_session_attachable c) ≡ true
      → is_attached c.session_state ≡ true
  unfolding ensure_cli_session_attachable guard
  attachable c h = ground arith

  pub attach_or_create_cli_managed_session-Moves :
      (t : BindTexts) (thread : ℕ) (p : CliManagedSessionProfile)
      (r : CliManagedSessionProfileRequirement) (now : ℕ)
      → Keyed (λ c. c.managed_session_id) s.cli_managed_sessions
      → Post (attach_or_create_cli_managed_session t s thread p r now) (λ p. Moves s p.0)
  unfolding attach_or_create_cli_managed_session
  attach_or_create_cli_managed_session-Moves t thread p r now keyed =
      post_option (query_non_retired_cli_managed_session_by_thread_tx s thread) _ _
        (λ _.
          post_bind _ _
            λ q e. post_ok (λ p. Moves s p.0) _ (create-Moves s t.session_id thread p now q e))
        (λ c there.
          post_if (profile_matches c r && is_ok (ensure_cli_session_attachable c)) _ _
            (λ h.
              reattach-Moves c now
                (existing-Unretired thread c keyed there (attachable c (&&_right _ _ h))))
            (λ _. replace-Moves t c thread p now))
