-- ===== src/Base/Evolution.antt =====
-- A table after some updates and insertions: each old row in its place, related to what it was,
-- and new rows behind.
use mathlib.Core.Path.{◌≡◌, refl, subst}
use mathlib.Core.Logic.{inl, inr}
use mathlib.Core.Bool.{Bool, true, false}
use mathlib.Core.Option.{some}
use mathlib.Core.List.{List, [], ◌∷◌, ◌++◌}
use native.Mathlib.Omega.{arith}
use Prim.Native.Nat.{ℕ}
use codex_background_task_ha.Base.Tests.{◌==◌, if◌then◌else◌, Bool-cases}
use codex_background_task_ha.Base.Tables.{update_where, find_where}

pub data Evolve {ℓ κ} {A : Type ℓ} (R : A → A → Type κ) : List A → List A → Type (ℓ ⊔ κ) where
  added : {ys : List A} → Evolve R [] ys
  kept : {x y : A} {xs ys : List A} → R x y → Evolve R xs ys → Evolve R (x ∷ xs) (y ∷ ys)

module _ {ℓ κ} {A : Type ℓ} (R : A → A → Type κ) where
  pub Evolve-refl : ((x : A) → R x x) → (xs : List A) → Evolve R xs xs
  Evolve-refl r [] = added
  Evolve-refl r (x ∷ xs) = kept (r x) (Evolve-refl r xs)

  pub Evolve-append : ((x : A) → R x x) → (xs ys : List A) → Evolve R xs (xs ++ ys)
  Evolve-append r [] ys = added
  Evolve-append r (x ∷ xs) ys = kept (r x) (Evolve-append r xs ys)

  pub Evolve-trans :
      ((x y z : A) → R x y → R y z → R x z)
      → {xs ys zs : List A} → Evolve R xs ys
      → Evolve R ys zs
      → Evolve R xs zs
  Evolve-trans t added e = added
  Evolve-trans t (kept r d) (kept s e) = kept (t _ _ _ r s) (Evolve-trans t d e)

  pub Evolve-update :
      ((x : A) → R x x)
      → (t : A → Bool) (f : A → A) (xs : List A) → ((x : A) → t x ≡ true → R x (f x))
      → Evolve R xs (update_where t f xs)
  unfolding update_where
  Evolve-update r t f [] h = added
  Evolve-update r t f (x ∷ xs) h = kept (choose (t x) (h x)) (Evolve-update r t f xs h)
    where
      choose : (b : Bool) → (b ≡ true → R x (f x)) → R x (if b then f x else x)
      choose true k = k refl
      choose false k = r x

  -- A row is found again under its key, related to what it was.
  pub Evolve-find :
      (key : A → ℕ)
      → ((x y : A) → R x y → key y ≡ key x)
      → (k : ℕ) {xs ys : List A} → Evolve R xs ys
      → (a : A) → find_where (λ x. key x == k) xs ≡ some a
      → (b : A) × (find_where (λ x. key x == k) ys ≡ some b) × R a b
  unfolding find_where
  Evolve-find key same k added a e = absurd (cc e)
  Evolve-find key same k (kept {x} {y} {xs} {ys} r d) a e = elim (Bool-cases (key x == k)) [
    | inl q ↦
        (let e' : some x ≡ some a = rw q at e in
          (y, ground (arith, same x y r), subst (λ z. R z y) (cc e') r))
    | inr q ↦
        (let (b, f, s) = Evolve-find key same k d a (rw q at e) in
          (b, ground (arith, same x y r), s))
  ]
