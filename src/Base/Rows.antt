-- ===== src/Base/Rows.antt =====
-- Lemmas on tables: what an update, an insertion and a query do to the rows one by one.
use Prim.Native.Nat.{ℕ, suc, ◌+◌, ◌≤◌}
use mathlib.Core.Path.{◌≡◌, refl, ap, ◌∙◌, subst}
use mathlib.Core.Logic.{inl, inr}
use mathlib.Core.Bool.{Bool, true, false}
use mathlib.Core.Option.{Option, none, some}
use mathlib.Core.List.{List, [], ◌∷◌, ◌++◌}
use native.Mathlib.Omega.{arith}
use codex_background_task_ha.Base.Tests.{◌==◌, if◌then◌else◌, Bool-cases, eq_of_==}
use codex_background_task_ha.Base.Tables.{
  All, update_where, find_where, any_where, count_where, select_where, first_by,
}

module _ {ℓ κ} {A : Type ℓ} where
  pub All-append : (P : A → Type κ) (xs ys : List A) → All P xs → All P ys → All P (xs ++ ys)
  All-append P [] ys h k = k
  All-append P (x ∷ xs) ys h k = (h.0, All-append P xs ys h.1 k)

  pub All-update :
      (P : A → Type κ) (t : A → Bool) (f : A → A) (xs : List A)
      → ((x : A) → t x ≡ true → P x → P (f x))
      → All P xs
      → All P (update_where t f xs)
  unfolding update_where
  All-update P t f [] k h = tt
  All-update P t f (x ∷ xs) k h = (go (t x) refl, All-update P t f xs k h.1)
    where
      go : (b : Bool) → t x ≡ b → P (if b then f x else x)
      go true e = k x e h.0
      go false e = h.0

  pub All-map {μ} :
      (P : A → Type κ) (Q : A → Type μ) (xs : List A) → ((x : A) → P x → Q x) → All P xs → All Q xs
  All-map P Q [] k h = tt
  All-map P Q (x ∷ xs) k h = (k x h.0, All-map P Q xs k h.1)

  pub All-All : (P : A → Type κ) (xs : List A) → ((x : A) → P x) → All P xs
  All-All P [] k = tt
  All-All P (x ∷ xs) k = (k x, All-All P xs k)

  -- The row that a query finds meets its test, and what all rows satisfy.
  pub All-find :
      (P : A → Type κ) (t : A → Bool) (xs : List A) (a : A)
      → All P xs
      → find_where t xs ≡ some a
      → P a
  unfolding find_where
  All-find P t [] a h e = absurd (cc e)
  All-find P t (x ∷ xs) a h e = elim (Bool-cases (t x)) [
    | inl q ↦ let e' : some x ≡ some a = rw q at e in subst P (cc e') h.0
    | inr q ↦ All-find P t xs a h.1 (rw q at e)
  ]

  pub All-select :
      (P : A → Type κ) (t : A → Bool) (xs : List A) → All P xs → All P (select_where t xs)
  unfolding select_where
  All-select P t [] h = tt
  All-select P t (x ∷ xs) h = elim (Bool-cases (t x)) [
    | inl q ↦ rw q (h.0, All-select P t xs h.1)
    | inr q ↦ rw q (All-select P t xs h.1)
  ]

  -- The row that comes first is one of the table's.
  pub All-first :
      (P : A → Type κ) (before : A → A → Bool) (xs : List A) (a : A)
      → All P xs
      → first_by before xs ≡ some a
      → P a
  unfolding first_by
  All-first P before [] a h e = absurd (cc e)
  All-first P before (x ∷ xs) a h e = go (first_by before xs) (λ y. All-first P before xs y h.1) e
    where
      go :
          (o : Option A)
          → ((y : A) → o ≡ some y → P y)
          → (elim o [ none ↦ some x | some y ↦ if before y x then some y else some x ]) ≡ some a
          → P a
      go none k e = subst P (cc e) h.0
      go (some y) k e = elim (Bool-cases (before y x)) [
        | inl q ↦ let e' : some y ≡ some a = rw q at e in subst P (cc e') (k y refl)
        | inr q ↦ let e' : some x ≡ some a = rw q at e in subst P (cc e') h.0
      ]

module _ {ℓ} {A : Type ℓ} where
  pub find_test : (t : A → Bool) (xs : List A) (a : A) → find_where t xs ≡ some a → t a ≡ true
  unfolding find_where
  find_test t [] a e = absurd (cc e)
  find_test t (x ∷ xs) a e = ground (arith, find_test t xs a)

  pub any_of_find :
      (t : A → Bool) (xs : List A) (a : A) → find_where t xs ≡ some a → any_where t xs ≡ true
  unfolding find_where any_where
  any_of_find t [] a e = absurd (cc e)
  any_of_find t (x ∷ xs) a e = ground (arith, any_of_find t xs a)

  pub any_find :
      (t q : A → Bool) (xs : List A) (a : A)
      → find_where t xs ≡ some a
      → q a ≡ true
      → any_where q xs ≡ true
  unfolding find_where any_where
  any_find t q [] a e h = absurd (cc e)
  any_find t q (x ∷ xs) a e h = elim (Bool-cases (t x)) [
    | inl r ↦ let e' : some x ≡ some a = rw r at e in ground (arith, ap q (xa x e'))
    | inr r ↦ ground (arith, any_find t q xs a (rw r at e) h)
  ]
    where
      xa : (x : A) → some x ≡ some a → x ≡ a
      xa x e' = cc e'

  -- A test that fails on every row of a table.
  pub none_of_any :
      (t : A → Bool) (xs : List A) → any_where t xs ≡ false → All (λ x. t x ≡ false) xs
  unfolding any_where
  none_of_any t [] h = tt
  none_of_any t (x ∷ xs) h = (ground arith, none_of_any t xs (ground arith))

  pub any-append :
      (t : A → Bool) (xs ys : List A)
      → any_where t (xs ++ ys) ≡ (if any_where t xs then true else any_where t ys)
  unfolding any_where
  any-append t [] ys = refl
  any-append t (x ∷ xs) ys = ground (arith, any-append t xs ys)

  pub any-update :
      (p t : A → Bool) (f : A → A) (xs : List A)
      → ((x : A) → t x ≡ true → p (f x) ≡ p x)
      → any_where p (update_where t f xs) ≡ any_where p xs
  unfolding any_where update_where
  any-update p t f [] h = refl
  any-update p t f (x ∷ xs) h = ground (arith, h x, any-update p t f xs h)

  pub count-append :
      (t : A → Bool) (xs ys : List A)
      → count_where t (xs ++ ys) ≡ count_where t xs + count_where t ys
  unfolding count_where
  count-append t [] ys = omega arith
  count-append t (x ∷ xs) ys = omega (arith, count-append t xs ys)

  pub count-none : (t : A → Bool) (xs : List A) → any_where t xs ≡ false → count_where t xs ≡ 0
  unfolding count_where any_where
  count-none t [] h = refl
  count-none t (x ∷ xs) h = ground (arith, count-none t xs)

  -- A count over an update: no row counts that did not before.
  pub count-update-le :
      (p t : A → Bool) (f : A → A) (xs : List A)
      → ((x : A) → t x ≡ true → p (f x) ≡ true → p x ≡ true)
      → count_where p (update_where t f xs) ≤ count_where p xs
  unfolding count_where update_where
  count-update-le p t f [] h = omega arith
  count-update-le p t f (x ∷ xs) h = ground (arith, h x, count-update-le p t f xs h)

  pub count-update-eq :
      (p t : A → Bool) (f : A → A) (xs : List A)
      → ((x : A) → t x ≡ true → p (f x) ≡ p x)
      → count_where p (update_where t f xs) ≡ count_where p xs
  unfolding count_where update_where
  count-update-eq p t f [] h = refl
  count-update-eq p t f (x ∷ xs) h = ground (arith, h x, count-update-eq p t f xs h)

-- A primary key: no later row has the key of an earlier one.
module _ {ℓ} {A : Type ℓ} (key : A → ℕ) where
  abbrev pub Keyed : List A → Type 0
  Keyed [] = Unit
  Keyed (x ∷ xs) = (any_where (λ y. key y == key x) xs ≡ false) × Keyed xs

  pub Keyed-append :
      (xs : List A) (a : A)
      → Keyed xs
      → any_where (λ y. key y == key a) xs ≡ false
      → Keyed (xs ++ a ∷ [])
  unfolding any_where
  Keyed-append [] a h n = (refl, tt)
  Keyed-append (x ∷ xs) a h n = (
    rw (any-append (λ y. key y == key x) xs (a ∷ [])) (ground arith),
    Keyed-append xs a h.1 (ground arith),
  )

  key_of_update :
      (t : A → Bool) (f : A → A) (x : A)
      → ((x : A) → key (f x) ≡ key x)
      → key (if t x then f x else x) ≡ key x
  key_of_update t f x k = ground (arith, k x)

  pub Keyed-update :
      (t : A → Bool) (f : A → A) (xs : List A)
      → ((x : A) → key (f x) ≡ key x)
      → Keyed xs
      → Keyed (update_where t f xs)
  unfolding update_where
  Keyed-update t f [] k h = tt
  Keyed-update t f (x ∷ xs) k h = (
    rw (key_of_update t f x k) (any-update (λ y. key y == key x) t f xs (λ y _. rw (k y)) ∙ h.0),
    Keyed-update t f xs k h.1,
  )

  -- The rows behind the one that has the key have another.
  Keyed-rest :
      (k : ℕ) (x a : A) (xs : List A)
      → key x ≡ k
      → any_where (λ y. key y == key x) xs ≡ false
      → All (λ y. (key y == k) ≡ true → y ≡ a) xs
  Keyed-rest k x a xs e h =
      All-map (λ y. (key y == key x) ≡ false) _ xs (λ y p q. absurd (ground arith))
        (none_of_any (λ y. key y == key x) xs h)

  -- The row that the key finds is the only row with it.
  pub Keyed-find :
      (k : ℕ) (xs : List A) (a : A)
      → Keyed xs
      → find_where (λ x. key x == k) xs ≡ some a
      → All (λ x. (key x == k) ≡ true → x ≡ a) xs
  unfolding find_where
  Keyed-find k [] a h e = tt
  Keyed-find k (x ∷ xs) a h e = elim (Bool-cases (key x == k)) [
    | inl q ↦
        (let e' : some x ≡ some a = rw q at e in
          ((λ _. cc e'), Keyed-rest k x a xs (eq_of_== (key x) k q) h.0))
    | inr q ↦ ((λ p. cc), Keyed-find k xs a h.1 (rw q at e))
  ]

  -- Two rows with one key are the same row.
  pub Keyed-unique :
      (xs : List A) → Keyed xs → All (λ y. All (λ x. (key x == key y) ≡ true → x ≡ y) xs) xs
  Keyed-unique [] h = tt
  Keyed-unique (x ∷ xs) h = (
    ((λ _. refl), Keyed-rest (key x) x x xs refl h.0),
    go xs (none_of_any (λ y. key y == key x) xs h.0) (Keyed-unique xs h.1),
  )
    where
      go :
          (ys : List A)
          → All (λ y. (key y == key x) ≡ false) ys
          → All (λ y. All (λ z. (key z == key y) ≡ true → z ≡ y) xs) ys
          → All (λ y. All (λ z. (key z == key y) ≡ true → z ≡ y) (x ∷ xs)) ys
      go [] n u = tt
      go (y ∷ ys) n u = (((λ p. absurd (ground arith)), u.0), go ys n.1 u.1)

  -- The first of some rows is the only row with its key.
  pub Keyed-first :
      (before : A → A → Bool) (t : A → Bool) (xs : List A) (a : A)
      → Keyed xs
      → first_by before (select_where t xs) ≡ some a
      → All (λ x. (key x == key a) ≡ true → x ≡ a) xs
  Keyed-first before t xs a h e =
      All-first (λ y. All (λ x. (key x == key y) ≡ true → x ≡ y) xs) before (select_where t xs) a
        (All-select _ t xs (Keyed-unique xs h)) e

  -- An update of the row with the key changes no other row.
  update_other :
      (t : A → Bool) (f : A → A) (k : ℕ) (x : A) (xs : List A)
      → key x ≡ k
      → any_where (λ y. key y == key x) xs ≡ false
      → ((x : A) → t x ≡ true → (key x == k) ≡ true)
      → update_where t f xs ≡ xs
  unfolding update_where any_where
  update_other t f k x [] e h only = refl
  update_other t f k x (y ∷ ys) e h only = ground (arith, only y, update_other t f k x ys e)

  -- An update of the row with the key, which then counts: the count grows by one.
  pub Keyed-count-suc :
      (p : A → Bool) (t : A → Bool) (f : A → A) (k : ℕ) (xs : List A) (a : A)
      → Keyed xs
      → find_where (λ x. key x == k) xs ≡ some a
      → ((x : A) → t x ≡ true → (key x == k) ≡ true)
      → t a ≡ true
      → p a ≡ false
      → p (f a) ≡ true
      → count_where p (update_where t f xs) ≡ suc (count_where p xs)
  unfolding find_where update_where count_where
  Keyed-count-suc p t f k [] a h e only ta was is = absurd (cc e)
  Keyed-count-suc p t f k (x ∷ xs) a h e only ta was is = elim (Bool-cases (key x == k)) [
    | inl q ↦
        (let e' : some x ≡ some a = rw q at e in
          let xa : x ≡ a = cc e' in
          ground (
            arith,
            update_other t f k x xs (eq_of_== (key x) k q) h.0 only,
            ap t xa,
            ap p xa,
            ap (λ z. p (f z)) xa,
          ))
    | inr q ↦
        (let tx : t x ≡ false = ground (arith, only x) in
          ground (arith, Keyed-count-suc p t f k xs a h.1 (rw q at e) only ta was is))
  ]
