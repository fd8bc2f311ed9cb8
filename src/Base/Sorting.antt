-- ===== src/Base/Sorting.antt =====
-- ORDER BY as insertion sort: its first row, the row that goes last, and rows left out.
use Prim.Native.Nat.{◌+◌}
use mathlib.Core.Path.{◌≡◌, refl, sym, ap, ◌∙◌}
use mathlib.Core.Logic.{inl, inr}
use mathlib.Core.Bool.{Bool, true, false}
use mathlib.Core.Option.{Option, none, some}
use mathlib.Core.List.{List, [], ◌∷◌, ◌++◌}
use native.Mathlib.Omega.{arith}
use codex_background_task_ha.Base.Tests.{if◌then◌else◌, Bool-cases}
use codex_background_task_ha.Base.Tables.{
  All, select_where, count_where, any_where, insert_by, order_by, first_by,
}
use codex_background_task_ha.Base.Rows.{All-map, All-select}

-- The first row of a table.
unfoldable pub first {ℓ} : {A : Type ℓ} → List A → Option A
first [] = none
first (x ∷ xs) = some x

module _ {ℓ} {A : Type ℓ} (before : A → A → Bool) where
  first-insert :
      (a : A) (xs : List A)
      → first (insert_by before a xs)
        ≡ (elim (first xs) [ none ↦ some a | some y ↦ if before y a then some y else some a ])
  unfolding first insert_by
  first-insert a [] = refl
  first-insert a (x ∷ xs) = ground arith

  -- The scan finds what the sort puts first.
  pub first-order_by : (xs : List A) → first_by before xs ≡ first (order_by before xs)
  unfolding first_by order_by first
  first-order_by [] = refl
  first-order_by (x ∷ xs) =
      ap
        (λ (o : Option A). elim o [
          | none ↦ some x
          | some y ↦ if before y x then some y else some x
        ])
        (first-order_by xs)
      ∙ sym (first-insert x (order_by before xs))

  insert-append :
      (a b : A) (xs : List A)
      → before b a ≡ false
      → insert_by before a (xs ++ b ∷ []) ≡ insert_by before a xs ++ b ∷ []
  unfolding insert_by
  insert-append a b [] h = rw h refl
  insert-append a b (x ∷ xs) h = ground (arith, insert-append a b xs h)

  -- A row that comes before no other is last.
  pub order_by-append :
      (xs : List A) (b : A)
      → All (λ x. before b x ≡ false) xs
      → order_by before (xs ++ b ∷ []) ≡ order_by before xs ++ b ∷ []
  unfolding order_by insert_by
  order_by-append [] b h = refl
  order_by-append (x ∷ xs) b h =
      ap (insert_by before x) (order_by-append xs b h.1)
      ∙ insert-append x b (order_by before xs) h.0

  pub count-insert :
      (t : A → Bool) (a : A) (xs : List A)
      → count_where t (insert_by before a xs) ≡ count_where t (a ∷ xs)
  unfolding count_where insert_by
  count-insert t a [] = refl
  count-insert t a (x ∷ xs) = ground (arith, count-insert t a xs)

  pub count-order_by :
      (t : A → Bool) (xs : List A) → count_where t (order_by before xs) ≡ count_where t xs
  unfolding count_where order_by
  count-order_by t [] = refl
  count-order_by t (x ∷ xs) =
      count-insert t x (order_by before xs)
      ∙ ap (λ n. (if t x then 1 else 0) + n) (count-order_by t xs)

  any-insert :
      (t : A → Bool) (a : A) (xs : List A)
      → any_where t (insert_by before a xs) ≡ any_where t (a ∷ xs)
  unfolding any_where insert_by
  any-insert t a [] = refl
  any-insert t a (x ∷ xs) = ground (arith, any-insert t a xs)

  pub any-order_by :
      (t : A → Bool) (xs : List A) → any_where t (order_by before xs) ≡ any_where t xs
  unfolding any_where order_by
  any-order_by t [] = refl
  any-order_by t (x ∷ xs) =
      let ih = any-order_by t xs in any-insert t x (order_by before xs) ∙ ground arith

  abbrev Sorted : List A → Type 0
  Sorted [] = Unit
  Sorted (x ∷ xs) = All (λ y. before y x ≡ false) xs × Sorted xs

  All-insert :
      (P : A → Type 0) (a : A) (xs : List A) → P a → All P xs → All P (insert_by before a xs)
  unfolding insert_by
  All-insert P a [] p h = (p, h)
  All-insert P a (x ∷ xs) p h = elim (Bool-cases (before x a)) [
    | inl q ↦ rw q (h.0, All-insert P a xs p h.1)
    | inr q ↦ rw q (p, h)
  ]

  pub All-order_by : (P : A → Type 0) (xs : List A) → All P xs → All P (order_by before xs)
  unfolding order_by
  All-order_by P [] h = tt
  All-order_by P (x ∷ xs) h = All-insert P x (order_by before xs) h.0 (All-order_by P xs h.1)

-- What a strict order on the keys gives.
module _ {ℓ} {A : Type ℓ} (before : A → A → Bool)
    (asym : (x y : A) → before x y ≡ true → before y x ≡ false)
    (trans : (x y z : A) → before x y ≡ false → before y z ≡ false → before x z ≡ false) where
  insert-Sorted : (a : A) (xs : List A) → Sorted before xs → Sorted before (insert_by before a xs)
  unfolding insert_by
  insert-Sorted a [] h = (tt, tt)
  insert-Sorted a (x ∷ xs) h = elim (Bool-cases (before x a)) [
    | inl q ↦
        rw q (
          All-insert before (λ y. before y x ≡ false) a xs (asym x a q) h.0,
          insert-Sorted a xs h.1,
        )
    | inr q ↦ rw q ((q, All-map (λ y. before y x ≡ false) _ xs (λ y p. trans y x a p q) h.0), h)
  ]

  order_by-Sorted : (xs : List A) → Sorted before (order_by before xs)
  unfolding order_by
  order_by-Sorted [] = tt
  order_by-Sorted (x ∷ xs) = insert-Sorted x (order_by before xs) (order_by-Sorted xs)

  -- A row that no row of a table comes before is put first.
  insert_first :
      (a : A) (xs : List A) → All (λ y. before y a ≡ false) xs → insert_by before a xs ≡ a ∷ xs
  unfolding insert_by
  insert_first a [] h = refl
  insert_first a (x ∷ xs) h = rw h.0 refl

  select-insert :
      (t : A → Bool) (a : A) (xs : List A)
      → Sorted before xs
      → select_where t (insert_by before a xs)
        ≡ (if t a then insert_by before a (select_where t xs) else select_where t xs)
  unfolding insert_by select_where
  select-insert t a [] h = refl
  select-insert t a (x ∷ xs) h = elim (Bool-cases (before x a)) [
    | inl q ↦ ground (arith, select-insert t a xs h.1)
    | inr q ↦
        (let above =
            All-map (λ y. before y x ≡ false) (λ y. before y a ≡ false) xs (λ y p. trans y x a p q)
              h.0 in
          let kept_first = insert_first a (select_where t xs) (All-select _ t xs above) in
          ground arith)
  ]

  -- Leaving rows out and sorting commute.
  pub order_by-select :
      (t : A → Bool) (xs : List A)
      → order_by before (select_where t xs) ≡ select_where t (order_by before xs)
  unfolding order_by select_where
  order_by-select t [] = refl
  order_by-select t (x ∷ xs) =
      let ih = order_by-select t xs in
      let step = select-insert t x (order_by before xs) (order_by-Sorted xs) in
      ground (arith, ap (insert_by before x) ih)
