-- ===== src/Delivery/Endings.antt =====
-- The ends of a delivery: closing a batch (`close_head`, `close_batch_tx`), manual resolution.
use codex_background_task_ha.Base.{
  ℕ, ◌≡◌, refl, ◌∙◌, true, false, ◌&&◌, Option, none, some, List, [], ◌∷◌, arith, ◌==◌, All,
  All-find, any_where, find_test, All-updated, ok, Post, post_bind, post_seq, post_ok, found-some,
}
use codex_background_task_ha.Models.{
  is_open, is_automatic, is_active, BatchRecord, DeliveryAttemptRecord,
}
use codex_background_task_ha.Store.{Store, query_batch_tx, head_batch}
use codex_background_task_ha.Store.Fences.{
  invalidate_cli_managed_session_activity_tx, park_cli_managed_session_tx,
}
use codex_background_task_ha.Store.Batches.{
  query_active_cli_attempt_session_fences_for_batch_tx, invalidate_fences, close_batch,
  is_open_batch, close_batch_rows, close_batch_tx, extend_closed_batch_artifact_retention_tx,
  manualize_batch, manualize_rows, manualize_codex_app_server_batch_tx, invalidate_and_park,
  manualize_cli_batch_after_observation_loss_tx,
}
use codex_background_task_ha.Store.Observe.{deliver_batch}
use codex_background_task_ha.Store.Jobs.{close_head}
use codex_background_task_ha.Delivery.Refine.Close.{closed_none_active}

abbrev ClosedRow : ℕ → BatchRecord → Type 0
ClosedRow k b = (b.batch_id == k) ≡ true → is_open b.state ≡ false

-- The batch is closed, and none of its attempts is active.
pub record Closed (k : ℕ) (s : Store) : Type 0 where
  pub batch : All (λ b. (b.batch_id == k) ≡ true → is_open b.state ≡ false) s.batches
  pub attempts : any_where (λ a. a.batch_id == k && is_active a.state) s.delivery_attempts ≡ false

-- The batch, where it is open, waits for a person.
abbrev pub Manual : ℕ → Store → Type 0
Manual k s =
    All
      (λ b.
        (b.batch_id == k) ≡ true → is_open b.state ≡ true → is_automatic b.replay_policy ≡ false)
      s.batches

invalidate_batches :
    (s : Store) (session epoch : Option ℕ) (now : ℕ)
    → ((invalidate_cli_managed_session_activity_tx s session epoch now).batches ≡ s.batches)
      × ((invalidate_cli_managed_session_activity_tx s session epoch now).delivery_attempts
          ≡ s.delivery_attempts)
unfolding invalidate_cli_managed_session_activity_tx
invalidate_batches s none epoch now = (refl, refl)
invalidate_batches s (some k) none now = (refl, refl)
invalidate_batches s (some k) (some epoch) now = (refl, refl)

pub fences_batches :
    (fences : List DeliveryAttemptRecord) (now : ℕ) (s : Store)
    → ((invalidate_fences fences now s).batches ≡ s.batches)
      × ((invalidate_fences fences now s).delivery_attempts ≡ s.delivery_attempts)
unfolding invalidate_fences
fences_batches [] now s = (refl, refl)
fences_batches (a ∷ rest) now s =
    let (b, d) = invalidate_batches s a.managed_session_id a.session_epoch now in
    let (p, q) = fences_batches rest now _ in (p ∙ b, q ∙ d)

park_batches :
    (s : Store) (session : Option ℕ) (now : ℕ)
    → (park_cli_managed_session_tx s session now).batches ≡ s.batches
unfolding park_cli_managed_session_tx
park_batches s none now = refl
park_batches s (some k) now = refl

module _ (s : Store) where
  close-Closed :
      (k reason : ℕ) (note : Option ℕ) (now : ℕ)
      → Post (close_batch_tx s k reason note now) (Closed k)
  unfolding close_batch_tx close_batch_rows is_open_batch close_batch
  close-Closed k reason note now = post_seq _ _ λ _.
      let fences = query_active_cli_attempt_session_fences_for_batch_tx s k in
      let (b, d) = fences_batches fences now (close_batch_rows s k reason note now) in
      post_ok (Closed k) _ (record {
        batch = rw b (
            All-updated (ClosedRow k) (is_open_batch k) (close_batch reason note now) s.batches
              (λ x h same. refl) (λ x h same. ground arith));
        attempts = rw d (closed_none_active k now s.delivery_attempts);
      })

  extend-Closed :
      (k now : ℕ) → Closed k s → Post (extend_closed_batch_artifact_retention_tx s k now) (Closed k)
  unfolding extend_closed_batch_artifact_retention_tx
  extend-Closed k now h =
      post_bind _ _
        λ until _. post_ok (Closed k) _ (record { batch = h.batch; attempts = h.attempts })

  manualize-Manual : (k window now : ℕ) → Manual k (manualize_rows s k window now)
  unfolding manualize_rows is_open_batch manualize_batch
  manualize-Manual k window now =
      All-updated
        (λ b.
          (b.batch_id == k) ≡ true → is_open b.state ≡ true → is_automatic b.replay_policy ≡ false)
        (is_open_batch k) (manualize_batch window now) s.batches (λ x h _ _. refl)
        (λ x h same open_. absurd (ground arith))

  pub manualize_codex-Manual :
      (a : DeliveryAttemptRecord) (now : ℕ)
      → Post (manualize_codex_app_server_batch_tx s a now) (Manual a.batch_id)
  unfolding manualize_codex_app_server_batch_tx
  manualize_codex-Manual a now =
      post_bind _ _
        λ window _. post_ok (Manual a.batch_id) _ (manualize-Manual a.batch_id window now)

  pub manualize_loss-Manual :
      (a : DeliveryAttemptRecord) (now : ℕ)
      → Post (manualize_cli_batch_after_observation_loss_tx s a now) (Manual a.batch_id)
  unfolding manualize_cli_batch_after_observation_loss_tx invalidate_and_park
  manualize_loss-Manual a now = post_bind _ _ λ window _. post_ok (Manual a.batch_id) _ (
      let t = manualize_rows s a.batch_id window now in
      rw
        (park_batches
          (invalidate_cli_managed_session_activity_tx t a.managed_session_id a.session_epoch now)
          a.managed_session_id now)
        (rw ((invalidate_batches t a.managed_session_id a.session_epoch now).0)
          (manualize-Manual a.batch_id window now)))

pub deliver-Closed :
    (s : Store) (k delivered note now : ℕ) → Post (deliver_batch s k delivered note now) (Closed k)
unfolding deliver_batch
deliver-Closed s k delivered note now =
    post_bind _ _ λ t e. extend-Closed t k now (close-Closed s k delivered (some note) now t e)

-- When the operator closes the head of a thread, that batch is found closed in the store that is
-- left, and is the reply; none of its attempts is active there.
pub close_head-Closed :
    (s : Store) (thread reason : ℕ) (note : Option ℕ) (now : ℕ) (p : Store × BatchRecord)
    → close_head s thread reason note now ≡ ok p
    → (b : BatchRecord) × (head_batch s.batches thread ≡ some b)
      × (query_batch_tx p.0 b.batch_id ≡ ok p.1)
      × (is_open p.1.state ≡ false)
      × Closed b.batch_id p.0
unfolding close_head query_batch_tx
close_head-Closed s thread reason note now p done =
    post_bind
      {P = λ p.
        (b : BatchRecord) × (head_batch s.batches thread ≡ some b)
        × (query_batch_tx p.0 b.batch_id ≡ ok p.1)
        × (is_open p.1.state ≡ false)
        × Closed b.batch_id p.0}
      _ _
      (λ b head. post_bind _ _ λ t e. post_bind _ _ λ u f. post_bind _ _ λ c there.
        let closed =
          extend-Closed t b.batch_id now (close-Closed s b.batch_id reason note now t e) u f in
        let row = found-some _ _ _ there in
        post_ok
          (λ p.
            (b : BatchRecord) × (head_batch s.batches thread ≡ some b)
            × (query_batch_tx p.0 b.batch_id ≡ ok p.1)
            × (is_open p.1.state ≡ false)
            × Closed b.batch_id p.0)
          (u, c)
          (
            b,
            found-some _ _ _ head,
            there,
            All-find (ClosedRow b.batch_id) _ u.batches c closed.batch row
                (find_test _ u.batches c row),
            closed,
          ))
      p done
