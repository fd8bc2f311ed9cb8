-- ===== src/Delivery/Refine/Sessions.antt =====
-- Creating and retiring a managed session, as runs of moves.
use codex_background_task_ha.Base.{
  ℕ, ◌≡◌, true, not, ◌&&◌, some, List, [], ◌∷◌, arith, ◌==◌, column_eq, select_where, Post,
  post_bind, post_seq, post_guard, post_ok,
}
use codex_background_task_ha.Models.{
  AdapterKind, is_retired, adapter_eq, DeliveryAttemptRecord, CliManagedSessionRecord,
  CliManagedSessionProfile,
}
use codex_background_task_ha.Store.{Store, batch_open_in}
use codex_background_task_ha.Store.Fences.{clear_all_proofs}
use codex_background_task_ha.Store.Sessions.{
  session_reply, new_session_row, create_cli_managed_session_tx, retire_row,
  retire_cli_managed_session_tx, is_observed_attempt, lose_row, lose_attempt, lose_attempts,
  park_if_any, abandon_cli_observations_for_session_epoch_loss_tx, retire_cli_managed_session,
}
use codex_background_task_ha.Delivery.Edges.{Calm, SessionEdge}
use codex_background_task_ha.Delivery.Moves.{
  add_session, edit_audits, Moves, stay, one, Moves-trans,
}
use codex_background_task_ha.Delivery.Refine.{
  Calm-update, session_update, park-Moves, manualize-Moves,
}

lose-Calm :
    (a : DeliveryAttemptRecord) (now : ℕ) → is_observed_attempt a ≡ true → Calm a (lose_row now a)
unfolding is_observed_attempt lose_row
lose-Calm a now h = ground arith

lose_attempt-Moves :
    (window now : ℕ) (a : DeliveryAttemptRecord) (s : Store) → Moves s (lose_attempt window now a s)
unfolding lose_attempt
lose_attempt-Moves window now a s =
    Moves-trans (Calm-update s _ (lose_row now) (λ x h. lose-Calm x now (ground arith)))
      (manualize-Moves _ a.batch_id window now)

lose_attempts-Moves :
    (window now : ℕ) (rows : List DeliveryAttemptRecord) (s : Store)
    → Moves s (lose_attempts window now rows s)
unfolding lose_attempts
lose_attempts-Moves window now [] s = stay
lose_attempts-Moves window now (a ∷ rest) s =
    Moves-trans (lose_attempt-Moves window now a s) (lose_attempts-Moves window now rest _)

park_if_any-Moves :
    (rows : List DeliveryAttemptRecord) (s : Store) (k now : ℕ) → Moves s (park_if_any rows s k now)
park_if_any-Moves [] s k now = stay
park_if_any-Moves (_ ∷ _) s k now = park-Moves s (some k) now

pub session_reply-Moves :
    (s : Store) (k : ℕ) {r : Store} → Moves r s → Post (session_reply s k) (λ p. Moves r p.0)
unfolding session_reply
session_reply-Moves s k p = post_bind _ _ λ c _. post_ok (λ q. Moves _ q.0) (s, c) p

module _ (s : Store) where
  pub epoch_loss-Moves :
      (k now : ℕ) → Post (abandon_cli_observations_for_session_epoch_loss_tx s k now) (Moves s)
  unfolding abandon_cli_observations_for_session_epoch_loss_tx
  epoch_loss-Moves k now =
      let rows =
        select_where
          (λ a.
            adapter_eq a.adapter_kind AdapterKind.cli
            && column_eq a.managed_session_id k
            && batch_open_in s.batches a.batch_id
            && is_observed_attempt a)
          s.delivery_attempts in
      post_bind _ _ λ window _.
        post_ok (Moves s) _
          (Moves-trans (lose_attempts-Moves window now rows s) (park_if_any-Moves rows _ k now))

  pub create-Moves :
      (id thread : ℕ) (p : CliManagedSessionProfile) (now : ℕ)
      → Post (create_cli_managed_session_tx s id thread p now) (λ q. Moves s q.0)
  unfolding create_cli_managed_session_tx new_session_row
  create-Moves id thread p now = post_guard _ _ _ λ fresh. post_guard _ _ _ λ free.
      session_reply-Moves _ id
        (one (add_session (new_session_row id thread p now) (ground arith) (ground arith)))

  retire-SessionEdge : (now : ℕ) (c : CliManagedSessionRecord) → SessionEdge c (retire_row now c)
  unfolding retire_row clear_all_proofs
  retire-SessionEdge now c = ground arith

  pub retire-Moves :
      (audit_id : ℕ) (c : CliManagedSessionRecord) (decision reason now : ℕ)
      → Post (retire_cli_managed_session_tx s audit_id c decision reason now) (λ q. Moves s q.0)
  unfolding retire_cli_managed_session_tx
  retire-Moves audit_id c decision reason now = session_reply-Moves _ c.managed_session_id (
      Moves-trans
        (session_update s
          (λ d. d.managed_session_id == c.managed_session_id && not (is_retired d.session_state))
          (retire_row now) λ d _. retire-SessionEdge now d)
        (one (edit_audits _)))

  pub retire_cli_managed_session-Moves :
      (operator_retire audit_id k reason now : ℕ)
      → Post (retire_cli_managed_session operator_retire audit_id s k reason now) (λ q. Moves s q.0)
  unfolding retire_cli_managed_session
  retire_cli_managed_session-Moves operator_retire audit_id k reason now =
      post_seq _ _ λ _.
        post_bind _ _ λ c _. post_seq _ _ λ _. retire-Moves audit_id c operator_retire reason now
