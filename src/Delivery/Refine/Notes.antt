-- ===== src/Delivery/Refine/Notes.antt =====
-- What an adapter notes of its session, as runs of moves.
use codex_background_task_ha.Base.{
  ℕ, not, ◌&&◌, Option, some, arith, ltb, ◌==◌, Post, post_bind, post_seq, post_ok, post_if,
}
use codex_background_task_ha.Models.{
  ActivityState, is_attached, CliManagedSessionCapabilities, CliManagedSessionRecord,
  NewCliManagedSessionPermissionSnapshot,
}
use codex_background_task_ha.Store.{Store}
use codex_background_task_ha.Store.Notes.{
  update_session, note_cli_managed_session_activity, note_cli_managed_session_capabilities,
  pin_startup, note_cli_managed_session_permissions, cli_session_proof_is_clear, invalidate_proof,
  invalidate_cli_managed_session_proof, invalidate_cli_managed_session_current_proof,
}
use codex_background_task_ha.Delivery.Edges.{SessionEdge}
use codex_background_task_ha.Delivery.Moves.{Moves, stay, Moves-trans}
use codex_background_task_ha.Delivery.Refine.{session_update, invalidate-Moves, detach-Moves}
use codex_background_task_ha.Delivery.Refine.Sessions.{session_reply-Moves, epoch_loss-Moves}

pin_startup-SessionEdge :
    (c : CliManagedSessionRecord) (n : NewCliManagedSessionPermissionSnapshot)
    (d : CliManagedSessionRecord)
    → SessionEdge d (pin_startup c n d)
unfolding pin_startup
pin_startup-SessionEdge c n d = ground arith

module _ (s : Store) where
  update_session-Moves :
      (k : ℕ) (f : CliManagedSessionRecord → CliManagedSessionRecord)
      → ((c : CliManagedSessionRecord) → SessionEdge c (f c))
      → Moves s (update_session s k f)
  unfolding update_session
  update_session-Moves k f h = session_update s _ f λ c _. h c

  pub note_cli_managed_session_activity-Moves :
      (k epoch : ℕ) (activity : Option ActivityState) (revision now : ℕ)
      → Post (note_cli_managed_session_activity s k epoch activity revision now) (λ p. Moves s p.0)
  unfolding note_cli_managed_session_activity
  note_cli_managed_session_activity-Moves k epoch activity revision now = post_bind _ _ λ a _.
      post_seq _ _ λ _. post_seq _ _ λ _. post_bind _ _ λ c _. post_seq _ _ λ _. post_seq _ _ λ _.
        post_seq _ _ λ _.
          post_if (c.activity_revision == revision) _ _ (λ _. post_ok (λ p. Moves s p.0) _ stay)
            (λ _. session_reply-Moves _ k (update_session-Moves k _ λ d. ground arith))

  pub note_cli_managed_session_capabilities-Moves :
      (k epoch revision : ℕ) (p : CliManagedSessionCapabilities) (now : ℕ)
      → Post (note_cli_managed_session_capabilities s k epoch revision p now) (λ p. Moves s p.0)
  unfolding note_cli_managed_session_capabilities
  note_cli_managed_session_capabilities-Moves k epoch revision p now = post_seq _ _ λ _.
      post_bind _ _ λ c _. post_seq _ _ λ _. post_seq _ _ λ _. post_seq _ _ λ _.
        post_if (c.capability_revision == revision) _ _ (λ _. post_ok (λ p. Moves s p.0) _ stay)
          (λ _. session_reply-Moves _ k (update_session-Moves k _ λ d. ground arith))

  pub note_cli_managed_session_permissions-Moves :
      (k epoch : ℕ) (n : NewCliManagedSessionPermissionSnapshot) (now : ℕ)
      → Post (note_cli_managed_session_permissions s k epoch n now) (λ p. Moves s p.0)
  unfolding note_cli_managed_session_permissions
  note_cli_managed_session_permissions-Moves k epoch n now = post_seq _ _ λ _. post_bind _ _ λ c _.
      post_seq _ _ λ _. post_seq _ _ λ _. post_seq _ _ λ _. post_bind _ _ λ revision _.
        session_reply-Moves _ k (
          update_session-Moves k _ λ d.
            let e = pin_startup-SessionEdge c n d in
            record {
              same_id = e.same_id;
              same_thread = e.same_thread;
              epoch_grows = e.epoch_grows;
              retired_stays = e.retired_stays;
            })

  pub invalidate_cli_managed_session_proof-Moves :
      (k epoch now : ℕ)
      → Post (invalidate_cli_managed_session_proof s k epoch now) (λ p. Moves s p.0)
  unfolding invalidate_cli_managed_session_proof invalidate_proof
  invalidate_cli_managed_session_proof-Moves k epoch now = post_seq _ _ λ _. post_bind _ _ λ c _.
      post_if (not (is_attached c.session_state)) _ _ (λ _. post_ok (λ p. Moves s p.0) _ stay)
        (λ _.
          post_if
            (not (c.session_epoch == epoch)
              && ltb epoch c.session_epoch
              && cli_session_proof_is_clear c)
            _ _ (λ _. post_ok (λ p. Moves s p.0) _ stay)
            (λ _. post_seq _ _ λ _. post_bind _ _ λ t e. session_reply-Moves _ k (
              Moves-trans (epoch_loss-Moves s k now t e)
                (invalidate-Moves t (some k) (some epoch) now))))

  pub invalidate_cli_managed_session_current_proof-Moves :
      (k thread now : ℕ)
      → Post (invalidate_cli_managed_session_current_proof s k thread now) (λ p. Moves s p.0)
  unfolding invalidate_cli_managed_session_current_proof
  invalidate_cli_managed_session_current_proof-Moves k thread now = post_bind _ _ λ c _.
      post_seq _ _ λ _.
        post_if (not (is_attached c.session_state)) _ _ (λ _. post_ok (λ p. Moves s p.0) _ stay)
          (λ _. post_bind _ _ λ t e. session_reply-Moves _ k (
            Moves-trans (epoch_loss-Moves s k now t e) (
              Moves-trans (invalidate-Moves t (some k) (some c.session_epoch) now)
                (detach-Moves _ k now))))
