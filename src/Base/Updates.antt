-- ===== src/Base/Updates.antt =====
-- What an update or an insertion leaves to be found.
use Prim.Native.Nat.{ℕ, ◌≤◌, ◌<◌}
use mathlib.Core.Path.{◌≡◌, refl, ap, ◌∙◌, subst}
use mathlib.Core.Logic.{inl, inr}
use mathlib.Core.Bool.{Bool, true, false}
use mathlib.Core.Option.{none, some}
use mathlib.Core.List.{List, [], ◌∷◌, ◌++◌}
use native.Mathlib.Omega.{arith}
use codex_background_task_ha.Base.Tests.{◌==◌, if◌then◌else◌, Bool-cases, ==_refl, eq_of_==}
use codex_background_task_ha.Base.Tables.{
  All, update_where, find_where, any_where, select_where, count_where,
}
use codex_background_task_ha.Base.Rows.{Keyed, count-none, none_of_any}

module _ {ℓ κ} {A : Type ℓ} where
  -- Every row satisfies `P` once the update has made the rows that it fits do so.
  pub All-updated :
      (P : A → Type κ) (t : A → Bool) (f : A → A) (xs : List A)
      → ((x : A) → t x ≡ true → P (f x))
      → ((x : A) → t x ≡ false → P x)
      → All P (update_where t f xs)
  unfolding update_where
  All-updated P t f [] h g = tt
  All-updated P t f (x ∷ xs) h g = (go (t x) refl, All-updated P t f xs h g)
    where
      go : (b : Bool) → t x ≡ b → P (if b then f x else x)
      go true e = h x e
      go false e = g x e

module _ {ℓ} {A : Type ℓ} where
  pub find-append :
      (t : A → Bool) (xs : List A) (a : A)
      → any_where t xs ≡ false
      → t a ≡ true
      → find_where t (xs ++ a ∷ []) ≡ some a
  unfolding find_where any_where
  find-append t [] a n h = ground arith
  find-append t (x ∷ xs) a n h = ground (arith, find-append t xs a)

  pub none_found : (t : A → Bool) (xs : List A) → find_where t xs ≡ none → any_where t xs ≡ false
  unfolding find_where any_where
  none_found t [] h = refl
  none_found t (x ∷ xs) h = ground (arith, none_found t xs)

  -- The row that is found and fits the update is found updated.
  pub find-update :
      (q t : A → Bool) (f : A → A) (xs : List A) (a : A)
      → ((x : A) → t x ≡ true → q (f x) ≡ q x)
      → find_where q xs ≡ some a
      → t a ≡ true
      → find_where q (update_where t f xs) ≡ some (f a)
  unfolding find_where update_where
  find-update q t f [] a same e h = absurd (cc e)
  find-update q t f (x ∷ xs) a same e h = elim (Bool-cases (q x)) [
    | inl p ↦
        (let e' : some x ≡ some a = rw p at e in
          let xa : x ≡ a = cc e' in
          let tx : t x ≡ true = ap t xa ∙ h in
          let qf : q (f x) ≡ true = same x tx ∙ p in rw (tx, qf) (ap (λ z. some (f z)) xa))
    | inr p ↦ (elim (Bool-cases (t x)) [
      | inl tx ↦
          let qf : q (f x) ≡ false = same x tx ∙ p in
          rw (tx, qf) (find-update q t f xs a same (rw p at e) h)
      | inr tx ↦ rw (tx, p) (find-update q t f xs a same (rw p at e) h)
    ])
  ]

module _ {ℓ κ} {A : Type ℓ} where
  -- An update that is only known to fit the rows of this table.
  pub All-update_All :
      (P : A → Type κ) (t : A → Bool) (f : A → A) (xs : List A)
      → All (λ x. t x ≡ true → P x → P (f x)) xs
      → All P xs
      → All P (update_where t f xs)
  unfolding update_where
  All-update_All P t f [] k h = tt
  All-update_All P t f (x ∷ xs) k h = (go (t x) refl, All-update_All P t f xs k.1 h.1)
    where
      go : (b : Bool) → t x ≡ b → P (if b then f x else x)
      go true e = k.0 e h.0
      go false e = h.0

-- What a selection keeps.
module _ {ℓ κ μ} {A : Type ℓ} where
  pub All-selected :
      (P : A → Type κ) (Q : A → Type μ) (t : A → Bool) (xs : List A)
      → ((x : A) → t x ≡ true → P x → Q x)
      → All P xs
      → All Q (select_where t xs)
  unfolding select_where
  All-selected P Q t [] k h = tt
  All-selected P Q t (x ∷ xs) k h = elim (Bool-cases (t x)) [
    | inl q ↦ rw q (k x q h.0, All-selected P Q t xs k h.1)
    | inr q ↦ rw q (All-selected P Q t xs k h.1)
  ]

module _ {ℓ} {A : Type ℓ} where
  pub any-select :
      (q t : A → Bool) (xs : List A)
      → ((x : A) → q x ≡ true → t x ≡ true)
      → any_where q (select_where t xs) ≡ any_where q xs
  unfolding any_where select_where
  any-select q t [] k = refl
  any-select q t (x ∷ xs) k = ground (arith, k x, any-select q t xs k)

  none-select :
      (q t : A → Bool) (xs : List A)
      → any_where q xs ≡ false
      → any_where q (select_where t xs) ≡ false
  unfolding any_where select_where
  none-select q t [] h = refl
  none-select q t (x ∷ xs) h = ground (arith, none-select q t xs)

  pub Keyed-select :
      (key : A → ℕ) (t : A → Bool) (xs : List A) → Keyed key xs → Keyed key (select_where t xs)
  unfolding select_where
  Keyed-select key t [] h = tt
  Keyed-select key t (x ∷ xs) h = elim (Bool-cases (t x)) [
    | inl q ↦ rw q (none-select (λ y. key y == key x) t xs h.0, Keyed-select key t xs h.1)
    | inr q ↦ rw q (Keyed-select key t xs h.1)
  ]

  -- A row that is found and kept is found among those that are kept.
  pub find-select :
      (q t : A → Bool) (xs : List A) (a : A)
      → find_where q xs ≡ some a
      → t a ≡ true
      → find_where q (select_where t xs) ≡ some a
  unfolding find_where select_where
  find-select q t [] a h e = absurd (cc h)
  find-select q t (x ∷ xs) a h e = elim (Bool-cases (q x)) [
    | inl r ↦
        (let h' : some x ≡ some a = rw r at h in
          let same : x ≡ a = cc h' in ground (arith, ap t same))
    | inr r ↦ ground (arith, find-select q t xs a (rw r at h) e)
  ]

  -- A query whose rows are not updated, before and after.
  pub find-update_apart :
      (q t : A → Bool) (f : A → A) (xs : List A)
      → ((x : A) → t x ≡ true → q x ≡ false)
      → ((x : A) → t x ≡ true → q (f x) ≡ false)
      → find_where q (update_where t f xs) ≡ find_where q xs
  unfolding find_where update_where
  find-update_apart q t f [] before after = refl
  find-update_apart q t f (x ∷ xs) before after =
      ground (arith, before x, after x, find-update_apart q t f xs before after)

  -- A row that is found and not updated is found as it was.
  pub find-update_other :
      (q t : A → Bool) (f : A → A) (xs : List A) (a : A)
      → ((x : A) → t x ≡ true → q (f x) ≡ q x)
      → find_where q xs ≡ some a
      → t a ≡ false
      → find_where q (update_where t f xs) ≡ some a
  unfolding find_where update_where
  find-update_other q t f [] a same e h = absurd (cc e)
  find-update_other q t f (x ∷ xs) a same e h = elim (Bool-cases (q x)) [
    | inl p ↦
        (let e' : some x ≡ some a = rw p at e in let xa : x ≡ a = cc e' in ground (arith, ap t xa))
    | inr p ↦ ground (arith, same x, find-update_other q t f xs a same (rw p at e) h)
  ]

  pub find-append_old :
      (q : A → Bool) (xs ys : List A) (a : A)
      → find_where q xs ≡ some a
      → find_where q (xs ++ ys) ≡ some a
  unfolding find_where
  find-append_old q [] ys a e = absurd (cc e)
  find-append_old q (x ∷ xs) ys a e = ground (arith, find-append_old q xs ys a)

  pub count-select :
      (p t : A → Bool) (xs : List A) → count_where p (select_where t xs) ≤ count_where p xs
  unfolding count_where select_where
  count-select p t [] = omega arith
  count-select p t (x ∷ xs) = ground (arith, count-select p t xs)

  pub any_of_count : (t : A → Bool) (xs : List A) → count_where t xs ≡ 0 → any_where t xs ≡ false
  unfolding count_where any_where
  any_of_count t [] h = refl
  any_of_count t (x ∷ xs) h = ground (arith, any_of_count t xs)

  pub count_of_any : (t : A → Bool) (xs : List A) → any_where t xs ≡ true → 0 < count_where t xs
  unfolding count_where any_where
  count_of_any t [] h = absurd (cc h)
  count_of_any t (x ∷ xs) h = ground (arith, count_of_any t xs)

  -- A key is that of one row at most.
  pub Keyed-count :
      (key : A → ℕ) (k : ℕ) (xs : List A) → Keyed key xs → count_where (λ x. key x == k) xs ≤ 1
  unfolding count_where
  Keyed-count key k [] h = omega arith
  Keyed-count key k (x ∷ xs) h = elim (Bool-cases (key x == k)) [
    | inl q ↦
        (let none_ : count_where (λ x. key x == k) xs ≡ 0 =
            subst (λ j. count_where (λ (y : A). key y == j) xs ≡ 0) (eq_of_== (key x) k q)
              (count-none (λ y. key y == key x) xs h.0) in
          ground arith)
    | inr q ↦ ground (arith, Keyed-count key k xs h.1)
  ]

  -- Each row is what its own key finds.
  pub Keyed-self :
      (key : A → ℕ) (xs : List A)
      → Keyed key xs
      → All (λ x. find_where (λ y. key y == key x) xs ≡ some x) xs
  unfolding find_where
  Keyed-self key [] h = tt
  Keyed-self key (x ∷ xs) h = (
    rw (==_refl (key x)) refl,
    go xs (none_of_any (λ y. key y == key x) xs h.0) (Keyed-self key xs h.1),
  )
    where
      go :
          (ys : List A)
          → All (λ y. (key y == key x) ≡ false) ys
          → All (λ y. find_where (λ z. key z == key y) xs ≡ some y) ys
          → All (λ y. find_where (λ z. key z == key y) (x ∷ xs) ≡ some y) ys
      go [] n u = tt
      go (y ∷ ys) n u = (
        (let other : (key x == key y) ≡ false = let n' = n.0 in ground arith in rw other u.0),
        go ys n.1 u.1,
      )

  -- Every row of an updated table, by whether the update fits it.
  pub All-split {κ μ} :
      (P : A → Type κ) (Q : A → Type μ) (t : A → Bool) (f : A → A) (xs : List A)
      → ((x : A) → t x ≡ true → P x → Q (f x))
      → ((x : A) → t x ≡ false → P x → Q x)
      → All P xs
      → All Q (update_where t f xs)
  unfolding update_where
  All-split P Q t f [] h g p = tt
  All-split P Q t f (x ∷ xs) h g p = (go (t x) refl, All-split P Q t f xs h g p.1)
    where
      go : (b : Bool) → t x ≡ b → Q (if b then f x else x)
      go true e = h x e p.0
      go false e = g x e p.0
