-- ===== src/Tasks/Loop.antt =====
-- The loop of the recovery (`fail_lost_tasks_matching_excluding_with`), one round at a time.
use codex_background_task_ha.Base.{
  All, All-All, ◌++◌, Error, ℕ, suc, ◌≡◌, refl, sym, ap, ◌∙◌, subst, Bool, true, false, Option,
  List, [], ◌∷◌, Result, ok, err,
}
use codex_background_task_ha.Tasks.{Supervision}
use codex_background_task_ha.Tasks.Recovery.{
  RecoveryEnv, LostTaskRecovery, Outcome, is_chosen, recover_task, recover_tasks, lost_tasks,
  fail_lost_tasks_matching_excluding_with,
}

module _ (e : RecoveryEnv) (matches_generation : Option ℕ → Bool) (is_active : ℕ → Result Bool)
    (now : ℕ) where
  abbrev loop : List LostTaskRecovery → ℕ → Supervision → Outcome e ℕ
  loop = recover_tasks e matches_generation is_active now

  -- What is left of the loop after a task was dealt with.
  abbrev pub continue : List LostTaskRecovery → ℕ → Outcome e (Unit {0}) → Outcome e ℕ
  continue ts n o = elim o.1 [ ok _ ↦ loop ts (suc n) o.0 | err x ↦ (o.0, err x) ]

  abbrev round :
      LostTaskRecovery → List LostTaskRecovery → ℕ → Supervision → Result Bool → Outcome e ℕ
  round t ts n s o = elim o [
    | err x ↦ (s, err x)
    | ok chosen ↦ elim chosen [
      | false ↦ loop ts n s
      | true ↦ continue ts n (recover_task e now s t)
    ]
  ]

  round_lem :
      (t : LostTaskRecovery) (ts : List LostTaskRecovery) (n : ℕ) (s : Supervision)
      → loop (t ∷ ts) n s ≡ round t ts n s (is_chosen e matches_generation is_active now t)
  unfolding recover_tasks
  round_lem t ts n s = refl

  pub passed_over :
      (t : LostTaskRecovery) (ts : List LostTaskRecovery) (n : ℕ) (s : Supervision)
      → is_chosen e matches_generation is_active now t ≡ ok false
      → loop (t ∷ ts) n s ≡ loop ts n s
  passed_over t ts n s h = round_lem t ts n s ∙ ap (round t ts n s) h

  pub recovered :
      (t : LostTaskRecovery) (ts : List LostTaskRecovery) (n : ℕ) (s s' : Supervision)
      → is_chosen e matches_generation is_active now t ≡ ok true
      → recover_task e now s t ≡ (s', ok tt)
      → loop (t ∷ ts) n s ≡ loop ts (suc n) s'
  recovered t ts n s s' h k = round_lem t ts n s ∙ ap (round t ts n s) h ∙ ap (continue ts n) k

  -- What every round on a task with `Q` keeps, the loop on such tasks keeps.
  pub loop_keeps {ℓ κ} :
      (P : Supervision → Type ℓ) (Q : LostTaskRecovery → Type κ)
      → ((s : Supervision) (t : LostTaskRecovery) → Q t → P s → P (recover_task e now s t).0)
      → (ts : List LostTaskRecovery) → All Q ts
      → (n : ℕ) (s : Supervision) → P s
      → P (loop ts n s).0
  unfolding recover_tasks
  loop_keeps P Q k [] q n s p = p
  loop_keeps P Q k (t ∷ ts) q n s p =
      subst (λ o. P o.0) (sym (round_lem t ts n s))
        (go (loop_keeps P Q k ts q.1) (is_chosen e matches_generation is_active now t))
    where
      next :
          ((m : ℕ) (u : Supervision) → P u → P (loop ts m u).0)
          → (o : Outcome e (Unit {0})) → P o.0
          → P (continue ts n o).0
      next rest (s', ok _) h = rest (suc n) s' h
      next rest (s', err x) h = h

      go :
          ((m : ℕ) (u : Supervision) → P u → P (loop ts m u).0)
          → (o : Result Bool) → P (round t ts n s o).0
      go rest (err x) = p
      go rest (ok false) = rest n s p
      go rest (ok true) = next rest (recover_task e now s t) (k s t q.0 p)

  pub recovery_keeps {ℓ} :
      (P : Supervision → Type ℓ)
      → ((s : Supervision) (t : LostTaskRecovery) → P s → P (recover_task e now s t).0)
      → (s : Supervision) → P s
      → P (fail_lost_tasks_matching_excluding_with e matches_generation is_active now s).0
  unfolding fail_lost_tasks_matching_excluding_with
  recovery_keeps P k s p =
      loop_keeps P (λ _. Unit {0}) (λ s t _ h. k s t h) (lost_tasks s) (All-All _ _ (λ _. tt)) 0 s p

  -- A loop that succeeds goes on with the tasks behind it.
  pub loop-append :
      (ts us : List LostTaskRecovery) (n m : ℕ) (s s' : Supervision)
      → loop ts n s ≡ (s', ok m)
      → loop (ts ++ us) n s ≡ loop us m s'
  unfolding recover_tasks
  loop-append [] us n m s s' h =
      let same : ok n ≡ ok m = ap (λ o. o.1) h in
      let count : n ≡ m = cc same in rw (count, ap (λ o. o.0) h) refl
  loop-append (t ∷ ts) us n m s s' h =
      round_lem t (ts ++ us) n s
      ∙ go (loop-append ts us) (is_chosen e matches_generation is_active now t)
          (sym (round_lem t ts n s) ∙ h)
    where
      next :
          ((n m : ℕ) (s s' : Supervision)
            → loop ts n s ≡ (s', ok m)
            → loop (ts ++ us) n s ≡ loop us m s')
          → (o : Outcome e (Unit {0})) → continue ts n o ≡ (s', ok m)
          → continue (ts ++ us) n o ≡ loop us m s'
      next rest (u, ok _) k = rest (suc n) m u s' k
      next rest (u, err x) k = absurd (let bad : err x ≡ ok m = ap (λ o. o.1) k in cc)

      go :
          ((n m : ℕ) (s s' : Supervision)
            → loop ts n s ≡ (s', ok m)
            → loop (ts ++ us) n s ≡ loop us m s')
          → (o : Result Bool) → round t ts n s o ≡ (s', ok m)
          → round t (ts ++ us) n s o ≡ loop us m s'
      go rest (err x) k = absurd (let bad : err x ≡ ok m = ap (λ o. o.1) k in cc)
      go rest (ok false) k = rest n m s s' k
      go rest (ok true) k = next rest (recover_task e now s t) k

  -- A test that fails ends the loop.
  pub stopped :
      (t : LostTaskRecovery) (ts : List LostTaskRecovery) (n : ℕ) (s : Supervision) (x : Error)
      → is_chosen e matches_generation is_active now t ≡ err x
      → loop (t ∷ ts) n s ≡ (s, err x)
  stopped t ts n s x h = round_lem t ts n s ∙ ap (round t ts n s) h
