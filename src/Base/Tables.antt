-- ===== src/Base/Tables.antt =====
-- Tables as lists of rows: UPDATE … WHERE, SELECT, MAX, ORDER BY … LIMIT.
use Prim.Native.Nat.{ℕ, zero, suc, ◌+◌, max}
use mathlib.Core.Bool.{Bool, true, false}
use mathlib.Core.Option.{Option, none, some}
use mathlib.Core.List.{List, [], ◌∷◌}
use codex_background_task_ha.Base.Tests.{if◌then◌else◌}

module _ {ℓ} {A : Type ℓ} where
  abbrev pub All {κ} : (A → Type κ) → List A → Type κ
  All P [] = Unit
  All P (x ∷ xs) = P x × All P xs

  -- UPDATE … SET f WHERE t.
  unfoldable pub update_where : (A → Bool) → (A → A) → List A → List A
  update_where t f [] = []
  update_where t f (x ∷ xs) = (if t x then f x else x) ∷ update_where t f xs

  -- The first row that meets a test; a SELECT by primary key.
  unfoldable pub find_where : (A → Bool) → List A → Option A
  find_where t [] = none
  find_where t (x ∷ xs) = if t x then some x else find_where t xs

  -- SELECT … WHERE t, in the order of insertion.
  unfoldable pub select_where : (A → Bool) → List A → List A
  select_where t [] = []
  select_where t (x ∷ xs) = if t x then x ∷ select_where t xs else select_where t xs

  -- SELECT EXISTS (… WHERE t).
  unfoldable pub any_where : (A → Bool) → List A → Bool
  any_where t [] = false
  any_where t (x ∷ xs) = if t x then true else any_where t xs

  -- SELECT COUNT(*) … WHERE t; the number of rows that an UPDATE changes.
  unfoldable pub count_where : (A → Bool) → List A → ℕ
  count_where t [] = 0
  count_where t (x ∷ xs) = (if t x then 1 else 0) + count_where t xs

  unfoldable pub take : ℕ → List A → List A
  take zero xs = []
  take (suc n) [] = []
  take (suc n) (x ∷ xs) = x ∷ take n xs

  -- Insertion before the first row that `before` puts behind the new one.
  unfoldable pub insert_by : (A → A → Bool) → A → List A → List A
  insert_by before a [] = a ∷ []
  insert_by before a (x ∷ xs) = if before x a then x ∷ insert_by before a xs else a ∷ x ∷ xs

  -- ORDER BY, with `before` the order of the keys.
  unfoldable pub order_by : (A → A → Bool) → List A → List A
  unfolding insert_by
  order_by before [] = []
  order_by before (x ∷ xs) = insert_by before x (order_by before xs)

  -- ORDER BY … LIMIT n.
  unfoldable pub order_by_limit : (A → A → Bool) → ℕ → List A → List A
  unfolding order_by take
  order_by_limit before n xs = take n (order_by before xs)

  -- ORDER BY … LIMIT 1 as a scan: the better of the head and the best of the rest.
  unfoldable pub first_by : (A → A → Bool) → List A → Option A
  first_by before [] = none
  first_by before (x ∷ xs) = elim (first_by before xs) [
    | none ↦ some x
    | some y ↦ if before y x then some y else some x
  ]

-- SELECT MAX(column).
unfoldable pub max_of : List ℕ → Option ℕ
max_of [] = none
max_of (n ∷ ns) = elim (max_of ns) [ none ↦ some n | some m ↦ some (max n m) ]
