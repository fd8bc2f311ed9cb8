-- ===== src/Base/Pairs.antt =====
-- Two versions of a table with the same rows in the same places, each pair related.
use Prim.Native.Nat.{ℕ, ◌≤◌}
use mathlib.Core.Path.{◌≡◌, refl, ◌∙◌}
use mathlib.Core.Bool.{Bool, true, false}
use mathlib.Core.List.{List, [], ◌∷◌}
use native.Mathlib.Omega.{arith}
use codex_background_task_ha.Base.Tests.{◌==◌, if◌then◌else◌}
use codex_background_task_ha.Base.Tables.{All, update_where, any_where, count_where}
use codex_background_task_ha.Base.Rows.{Keyed}
use codex_background_task_ha.Base.Evolution.{Evolve, added, kept}

pub data Pointwise {ℓ κ} {A : Type ℓ} (R : A → A → Type κ) : List A → List A → Type (ℓ ⊔ κ) where
  nil : Pointwise R [] []
  cons : {x y : A} {xs ys : List A} → R x y → Pointwise R xs ys → Pointwise R (x ∷ xs) (y ∷ ys)

module _ {ℓ κ} {A : Type ℓ} (R : A → A → Type κ) where
  pub Pointwise-refl : ((x : A) → R x x) → (xs : List A) → Pointwise R xs xs
  Pointwise-refl r [] = nil
  Pointwise-refl r (x ∷ xs) = cons (r x) (Pointwise-refl r xs)

  pub Pointwise-Evolve {μ} :
      (S : A → A → Type μ)
      → ((x y : A) → R x y → S x y)
      → {xs ys : List A} → Pointwise R xs ys
      → Evolve S xs ys
  Pointwise-Evolve S k nil = added
  Pointwise-Evolve S k (cons r p) = kept (k _ _ r) (Pointwise-Evolve S k p)

  choose : (b : Bool) (x y : A) → R x x → (b ≡ true → R x y) → R x (if b then y else x)
  choose true x y r k = k refl
  choose false x y r k = r

  pub Pointwise-update :
      ((x : A) → R x x)
      → (t : A → Bool) (f : A → A) (xs : List A) → ((x : A) → t x ≡ true → R x (f x))
      → Pointwise R xs (update_where t f xs)
  unfolding update_where
  Pointwise-update r t f [] h = nil
  Pointwise-update r t f (x ∷ xs) h =
      cons (choose (t x) x (f x) (r x) (h x)) (Pointwise-update r t f xs h)

  -- The same where the update is only known to fit the rows of this table.
  pub Pointwise-update_All :
      ((x : A) → R x x)
      → (t : A → Bool) (f : A → A) (xs : List A) → All (λ x. t x ≡ true → R x (f x)) xs
      → Pointwise R xs (update_where t f xs)
  unfolding update_where
  Pointwise-update_All r t f [] h = nil
  Pointwise-update_All r t f (x ∷ xs) h =
      cons (choose (t x) x (f x) (r x) h.0) (Pointwise-update_All r t f xs h.1)

  pub Pointwise-All {μ ν} :
      (P : A → Type μ) (Q : A → Type ν)
      → ((x y : A) → R x y → P x → Q y)
      → {xs ys : List A} → Pointwise R xs ys
      → All P xs
      → All Q ys
  Pointwise-All P Q k nil h = tt
  Pointwise-All P Q k (cons r p) h = (k _ _ r h.0, Pointwise-All P Q k p h.1)

  pub Pointwise-any :
      (p q : A → Bool)
      → ((x y : A) → R x y → q y ≡ p x)
      → {xs ys : List A} → Pointwise R xs ys
      → any_where q ys ≡ any_where p xs
  unfolding any_where
  Pointwise-any p q k nil = refl
  Pointwise-any p q k (cons {x} {y} r ps) = ground (arith, k x y r, Pointwise-any p q k ps)

  pub Pointwise-count_le :
      (p : A → Bool)
      → ((x y : A) → R x y → p y ≡ true → p x ≡ true)
      → {xs ys : List A} → Pointwise R xs ys
      → count_where p ys ≤ count_where p xs
  unfolding count_where
  Pointwise-count_le p k nil = omega arith
  Pointwise-count_le p k (cons {x} {y} r ps) = ground (arith, k x y r, Pointwise-count_le p k ps)

  pub Pointwise-count :
      (p q : A → Bool)
      → ((x y : A) → R x y → q y ≡ p x)
      → {xs ys : List A} → Pointwise R xs ys
      → count_where q ys ≡ count_where p xs
  unfolding count_where
  Pointwise-count p q k nil = refl
  Pointwise-count p q k (cons {x} {y} r ps) = ground (arith, k x y r, Pointwise-count p q k ps)

  pub Pointwise-Keyed :
      (key : A → ℕ)
      → ((x y : A) → R x y → key y ≡ key x)
      → {xs ys : List A} → Pointwise R xs ys
      → Keyed key xs
      → Keyed key ys
  Pointwise-Keyed key k nil h = tt
  Pointwise-Keyed key k (cons {x} {y} {xs} {ys} r ps) h = (
    Pointwise-any (λ z. key z == key x) (λ z. key z == key y) (λ z w rz. rw (k z w rz, k x y r)) ps
        ∙ h.0,
    Pointwise-Keyed key k ps h.1,
  )

  -- Two updates, one after the other, that together fit the rows of this table.
  pub Pointwise-update_twice :
      (t : A → Bool) (f : A → A) (u : A → Bool) (g : A → A) (xs : List A)
      → All
          (λ x. R x (
            if u (if t x then f x else x)
            then g (if t x then f x else x)
            else if t x
            then f x
            else x))
          xs
      → Pointwise R xs (update_where u g (update_where t f xs))
  unfolding update_where
  Pointwise-update_twice t f u g [] h = nil
  Pointwise-update_twice t f u g (x ∷ xs) h = cons h.0 (Pointwise-update_twice t f u g xs h.1)
