-- ===== src/Base/Table.antt =====
-- A database table as the list of its rows, and the statements that the source issues.
use Prim.Native.Nat.{ℕ, zero, suc, ◌+◌}
use mathlib.Core.Path.{◌≡◌, refl}
use mathlib.Core.Logic.{inl, inr}
use mathlib.Core.Bool.{Bool, true}
use mathlib.Core.Option.{Option, none, some}
use mathlib.Core.List.{List, [], ◌∷◌}
use native.Mathlib.Omega.{arith}
use astrbot_shipyard_neo.Base.Tests.{◌==◌, ltb, if◌then◌else◌, Bool-cases}
use astrbot_shipyard_neo.Base.Lists.{All}

-- How often an id stands in a list.
abbrev pub one_if : ℕ → ℕ → ℕ
one_if j k = if j == k then 1 else 0

abbrev pub times : ℕ → List ℕ → ℕ
times k [] = 0
times k (j ∷ js) = one_if j k + times k js

module _ {ℓ} {A : Type ℓ} where
  -- `select(T).where(test)`
  abbrev pub select : (A → Bool) → List A → List A
  select test [] = []
  select test (x ∷ xs) = if test x then x ∷ select test xs else select test xs

  -- `result.scalars().first()` of that query
  abbrev pub first : (A → Bool) → List A → Option A
  first test [] = none
  first test (x ∷ xs) = if test x then some x else first test xs

  -- `update(T).where(test).values(...)`, or assignments to the attributes of selected rows
  abbrev pub update : (A → Bool) → (A → A) → List A → List A
  update test f [] = []
  update test f (x ∷ xs) = (if test x then f x else x) ∷ update test f xs

  -- `delete(T).where(test)`
  abbrev pub delete : (A → Bool) → List A → List A
  delete test [] = []
  delete test (x ∷ xs) = if test x then delete test xs else x ∷ delete test xs

  -- The number of rows that a statement matches.
  abbrev pub count : (A → Bool) → List A → ℕ
  count test [] = 0
  count test (x ∷ xs) = (if test x then 1 else 0) + count test xs

  -- `LIMIT n`, and `OFFSET n`
  abbrev pub limit_rows : ℕ → List A → List A
  limit_rows zero xs = []
  limit_rows (suc n) [] = []
  limit_rows (suc n) (x ∷ xs) = x ∷ limit_rows n xs

  abbrev pub skip_rows : ℕ → List A → List A
  skip_rows zero xs = xs
  skip_rows (suc n) [] = []
  skip_rows (suc n) (x ∷ xs) = skip_rows n xs

  -- `ORDER BY key ASC`, and `DESC`
  abbrev pub insert_by : (A → ℕ) → A → List A → List A
  insert_by key x [] = x ∷ []
  insert_by key x (y ∷ ys) =
      let rest = insert_by key x ys in if ltb (key y) (key x) then y ∷ rest else x ∷ y ∷ ys

  abbrev pub order_by : (A → ℕ) → List A → List A
  order_by key [] = []
  order_by key (x ∷ xs) = insert_by key x (order_by key xs)

  abbrev pub insert_by_desc : (A → ℕ) → A → List A → List A
  insert_by_desc key x [] = x ∷ []
  insert_by_desc key x (y ∷ ys) =
      let rest = insert_by_desc key x ys in if ltb (key x) (key y) then y ∷ rest else x ∷ y ∷ ys

  abbrev pub order_by_desc : (A → ℕ) → List A → List A
  order_by_desc key [] = []
  order_by_desc key (x ∷ xs) = insert_by_desc key x (order_by_desc key xs)

  -- A row that is found passes the test.
  pub first_sound : (test : A → Bool) (xs : List A) {a : A} → first test xs ≡ some a → test a ≡ true
  first_sound test [] h = cc
  first_sound test (x ∷ xs) {a} h = elim (Bool-cases (test x)) [
    | inl t ↦ ground arith
    | inr t ↦ first_sound test xs (ground arith)
  ]

  -- The first row of a query is the first of the rows that it selects.
  pub first-eq-select : (test : A → Bool) (xs : List A) → first test xs ≡ none → select test xs ≡ []
  first-eq-select test [] h = refl
  first-eq-select test (x ∷ xs) h = ground (arith, first-eq-select test xs)

  pub All-update {κ} :
      (P : A → Type κ) (test : A → Bool) (f : A → A) (xs : List A)
      → ((x : A) → test x ≡ true → P x → P (f x))
      → All P xs
      → All P (update test f xs)
  All-update P test f [] keep h = h
  All-update P test f (x ∷ xs) keep h = elim (Bool-cases (test x)) [
    | inl e ↦ rw e (keep x e h.0, All-update P test f xs keep h.1)
    | inr e ↦ rw e (h.0, All-update P test f xs keep h.1)
  ]

  pub All-delete {κ} :
      (P : A → Type κ) (test : A → Bool) (xs : List A) → All P xs → All P (delete test xs)
  All-delete P test [] h = h
  All-delete P test (x ∷ xs) h = elim (Bool-cases (test x)) [
    | inl e ↦ rw e (All-delete P test xs h.1)
    | inr e ↦ rw e (h.0, All-delete P test xs h.1)
  ]

  pub All-first {κ} :
      (P : A → Type κ) (test : A → Bool) (xs : List A) {a : A}
      → All P xs
      → first test xs ≡ some a
      → P a
  All-first P test [] h e = cc
  All-first P test (x ∷ xs) {a} h e = elim (Bool-cases (test x)) [
    | inl t ↦ ground arith
    | inr t ↦ All-first P test xs h.1 (ground arith)
  ]

  -- Rows that no longer match after a deletion.
  pub select-delete : (test : A → Bool) (xs : List A) → select test (delete test xs) ≡ []
  select-delete test [] = refl
  select-delete test (x ∷ xs) = ground (arith, select-delete test xs)
