-- ===== src/Delivery/Manual.antt =====
-- The attempts of batches that are closed or in manual resolution.
use codex_background_task_ha.Base.{
  ℕ, ◌≡◌, refl, sym, ap, ◌∙◌, subst, inl, inr, Bool, true, false, ◌&&◌, some, List, [], ◌∷◌, arith,
  ◌==◌, eq_of_==, Bool-cases, find_where, count_where, Evolve-find, Pointwise, Pointwise-count,
  count-update-eq, count-append, ok, found-some,
}
use codex_background_task_ha.Models.{is_open, is_automatic, BatchRecord, DeliveryAttemptRecord}
use codex_background_task_ha.Store.{Store, query_batch_tx}
use codex_background_task_ha.Store.Outcomes.{is_pending_attempt}
use codex_background_task_ha.Delivery.Edges.{BatchEdge, Calm}
use codex_background_task_ha.Delivery.Moves.{
  Move, edit_attempts, edit_batches, close, spend, add_attempt, add_batch, edit_sessions,
  add_session, edit_jobs, add_job, edit_artifacts, add_request, edit_audits, Moves, stay, follow,
}
use codex_background_task_ha.Delivery.Invariant.{Inv}
use codex_background_task_ha.Delivery.Growth.{Move-Grows}
use codex_background_task_ha.Delivery.Calls.{Env, Call, run}
use codex_background_task_ha.Delivery.Histories.{run-Moves}

abbrev pub attempt_of : ℕ → DeliveryAttemptRecord → Bool
attempt_of k a = a.batch_id == k

-- The batch is there, and is closed or in manual resolution.
abbrev Frozen : ℕ → Store → Type 0
Frozen k s =
    (b : BatchRecord) × (find_where (λ c. c.batch_id == k) s.batches ≡ some b)
    × ((is_open b.state && is_automatic b.replay_policy) ≡ false)

frozen_edge :
    (b c : BatchRecord)
    → BatchEdge b c
    → (is_open b.state && is_automatic b.replay_policy) ≡ false
    → (is_open c.state && is_automatic c.replay_policy) ≡ false
frozen_edge b c e h = elim (Bool-cases (is_open b.state)) [
  | inl q ↦
      let p : is_automatic b.replay_policy ≡ false = ground arith in
      let r = e.manual_stays p in ground arith
  | inr q ↦
      let p : c ≡ b = e.closed_stays q in
      ap (λ z. is_open z.state && is_automatic z.replay_policy) p ∙ h
]

Frozen-Move : (k : ℕ) {s t : Store} → Move s t → Frozen k s → Frozen k t
Frozen-Move k m (b, f, h) =
    let (c, g, e) =
      Evolve-find BatchEdge (λ b. b.batch_id) (λ b c e. e.same_id) k (Move-Grows m).batches b f in
    (c, g, frozen_edge b c e h)

-- A frozen batch is not the one that an attempt starts on.
other_batch :
    (k j : ℕ) (bs : List BatchRecord) (b c : BatchRecord)
    → find_where (λ d. d.batch_id == k) bs ≡ some b
    → (is_open b.state && is_automatic b.replay_policy) ≡ false
    → find_where (λ d. d.batch_id == j) bs ≡ some c
    → is_open c.state ≡ true
    → is_automatic c.replay_policy ≡ true
    → (j == k) ≡ false
other_batch k j bs b c f h g open_ auto = elim (Bool-cases (j == k)) [
  | inl q ↦
      let jk = eq_of_== j k q in
      let g' : find_where (λ d. d.batch_id == k) bs ≡ some c =
        subst (λ i. find_where (λ d. d.batch_id == i) bs ≡ some c) jk g in
      let bc : b ≡ c = cc in
      let h' : (is_open c.state && is_automatic c.replay_policy) ≡ false =
        ap (λ z. is_open z.state && is_automatic z.replay_policy) (sym bc) ∙ h in
      absurd (ground arith)
  | inr q ↦ q
]

module _ (k : ℕ) where
  same_batch-Pointwise :
      {xs ys : List DeliveryAttemptRecord}
      → Pointwise Calm xs ys
      → count_where (attempt_of k) ys ≡ count_where (attempt_of k) xs
  same_batch-Pointwise p =
      Pointwise-count Calm (attempt_of k) (attempt_of k)
        (λ x y e. ap (λ i. i == k) e.edge.same_batch) p

  Frozen-count :
      {s t : Store}
      → Move s t
      → Frozen k s
      → count_where (attempt_of k) t.delivery_attempts
        ≡ count_where (attempt_of k) s.delivery_attempts
  unfolding count_where
  Frozen-count (edit_attempts rows p) z = same_batch-Pointwise p
  Frozen-count (edit_batches rows p) z = refl
  Frozen-count (close j reason remark now quiet) z = refl
  Frozen-count {s} (spend j a f now there p sp e one_row) z =
      count-update-eq (attempt_of k) (is_pending_attempt j) f s.delivery_attempts
        (λ x h. ap (λ i. i == k) (e x h).same_batch)
  Frozen-count {s} (add_attempt row c there open_ auto idle fresh unspent) (b, f, h) =
      let other = other_batch k row.batch_id s.batches b c f h there open_ auto in
      rw (count-append (attempt_of k) s.delivery_attempts (row ∷ [])) (ground arith)
  Frozen-count (add_batch b rows fresh) z = refl
  Frozen-count (edit_sessions rows p) z = refl
  Frozen-count (add_session row fresh free) z = refl
  Frozen-count (edit_jobs rows p) z = refl
  Frozen-count (add_job row fresh) z = refl
  Frozen-count (edit_artifacts rows) z = refl
  Frozen-count (add_request row) z = refl
  Frozen-count (edit_audits rows) z = refl

  Frozen-counts :
      {s t : Store}
      → Moves s t
      → Frozen k s
      → Frozen k t
        × (count_where (attempt_of k) t.delivery_attempts
            ≡ count_where (attempt_of k) s.delivery_attempts)
  Frozen-counts stay z = (z, refl)
  Frozen-counts (follow p m) z =
      let (y, q) = Frozen-counts p z in (Frozen-Move k m y, Frozen-count m y ∙ q)

-- From a well-formed store, a batch that is closed or in manual resolution has as many attempts
-- after any history of calls as before it.
pub run-no_further_attempt :
    (e : Env) (s : Store) (cs : List Call) (k : ℕ) (b : BatchRecord)
    → Inv s
    → query_batch_tx s k ≡ ok b
    → (is_open b.state && is_automatic b.replay_policy) ≡ false
    → count_where (attempt_of k) (run e s cs).delivery_attempts
      ≡ count_where (attempt_of k) s.delivery_attempts
unfolding query_batch_tx
run-no_further_attempt e s cs k b v there h =
    (Frozen-counts k (run-Moves e s cs v) (b, found-some _ _ _ there, h)).1
