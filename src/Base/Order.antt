-- ===== src/Base/Order.antt =====
-- Rows in the order of a key that no two of them share.
use Prim.Native.Nat.{ℕ}
use mathlib.Core.Path.{◌≡◌, refl, sym, ap, ◌∙◌, subst}
use mathlib.Core.Logic.{inl, inr}
use mathlib.Core.Bool.{Bool, true, false, ◌&&◌}
use mathlib.Core.List.{List, [], ◌∷◌, ◌++◌}
use native.Mathlib.Omega.{arith}
use astrbot_shipyard_neo.Base.Tests.{◌==◌, ltb, Bool-cases}
use astrbot_shipyard_neo.Base.Lists.{All, All-weaken}
use astrbot_shipyard_neo.Base.Table.{select, insert_by, order_by}

module _ {A : Type 0} where
  pub All-select :
      (P : A → Type 0) (test : A → Bool) (xs : List A) → All P xs → All P (select test xs)
  All-select P test [] h = h
  All-select P test (x ∷ xs) h = elim (Bool-cases (test x)) [
    | inl e ↦ rw e (h.0, All-select P test xs h.1)
    | inr e ↦ rw e (All-select P test xs h.1)
  ]

  pub select_whole :
      (test : A → Bool) (xs : List A) → All (λ x. test x ≡ true) xs → select test xs ≡ xs
  select_whole test [] h = refl
  select_whole test (x ∷ xs) h = rw (h.0) (ap (◌∷◌ x) (select_whole test xs h.1))

  pub All-at :
      (P : A → Type 0) (front : List A) (x : A) (xs : List A) → All P (front ++ x ∷ xs) → P x
  All-at P [] x xs h = h.0
  All-at P (y ∷ ys) x xs h = All-at P ys x xs h.1

  pub All-selected : (test : A → Bool) (xs : List A) → All (λ x. test x ≡ true) (select test xs)
  All-selected test [] = tt
  All-selected test (x ∷ xs) = elim (Bool-cases (test x)) [
    | inl e ↦ rw e (e, All-selected test xs)
    | inr e ↦ rw e (All-selected test xs)
  ]

  pub select-select :
      (p q : A → Bool) (xs : List A)
      → ((x : A) → q x ≡ true → p x ≡ true)
      → select q (select p xs) ≡ select q xs
  select-select p q [] h = refl
  select-select p q (x ∷ xs) h = ground (arith, h x, select-select p q xs h)

  pub select-and :
      (p q : A → Bool) (xs : List A) → select (λ x. p x && q x) xs ≡ select q (select p xs)
  select-and p q [] = refl
  select-and p q (x ∷ xs) = ground (arith, select-and p q xs)

module _ {A : Type 0} (key : A → ℕ) where
  abbrev pub IsDistinctBy : List A → Type 0
  IsDistinctBy [] = Unit
  IsDistinctBy (x ∷ xs) = All (λ y. (key y == key x) ≡ false) xs × IsDistinctBy xs

  abbrev pub IsAscendingBy : List A → Type 0
  IsAscendingBy [] = Unit
  IsAscendingBy (x ∷ xs) = All (λ y. ltb (key x) (key y) ≡ true) xs × IsAscendingBy xs

  All-insert_by :
      (P : A → Type 0) (x : A) (xs : List A) → P x → All P xs → All P (insert_by key x xs)
  All-insert_by P x [] p h = (p, tt)
  All-insert_by P x (y ∷ ys) p h = elim (Bool-cases (ltb (key y) (key x))) [
    | inl e ↦ rw e (h.0, All-insert_by P x ys p h.1)
    | inr e ↦ rw e (p, h)
  ]

  All-order_by : (P : A → Type 0) (xs : List A) → All P xs → All P (order_by key xs)
  All-order_by P [] h = h
  All-order_by P (x ∷ xs) h = All-insert_by P x (order_by key xs) h.0 (All-order_by P xs h.1)

  insert_by-IsAscendingBy :
      (x : A) (xs : List A)
      → All (λ y. (key y == key x) ≡ false) xs
      → IsAscendingBy xs
      → IsAscendingBy (insert_by key x xs)
  insert_by-IsAscendingBy x [] new h = (tt, tt)
  insert_by-IsAscendingBy x (y ∷ ys) new h = elim (Bool-cases (ltb (key y) (key x))) [
    | inl e ↦ rw e (
      All-insert_by (λ z. ltb (key y) (key z) ≡ true) x ys e h.0,
      insert_by-IsAscendingBy x ys new.1 h.1,
    )
    | inr e ↦
        let less : ltb (key x) (key y) ≡ true = ground (arith, new.0) in
        rw e ((less, All-weaken ys (λ z more. ground arith) h.0), h)
  ]

  pub order_by-IsAscendingBy : (xs : List A) → IsDistinctBy xs → IsAscendingBy (order_by key xs)
  order_by-IsAscendingBy [] h = tt
  order_by-IsAscendingBy (x ∷ xs) h =
      insert_by-IsAscendingBy x (order_by key xs)
        (All-order_by (λ y. (key y == key x) ≡ false) xs h.0) (order_by-IsAscendingBy xs h.1)

  pub select-IsAscendingBy :
      (test : A → Bool) (xs : List A) → IsAscendingBy xs → IsAscendingBy (select test xs)
  select-IsAscendingBy test [] h = h
  select-IsAscendingBy test (x ∷ xs) h = elim (Bool-cases (test x)) [
    | inl e ↦
        rw e (
          All-select (λ y. ltb (key x) (key y) ≡ true) test xs h.0,
          select-IsAscendingBy test xs h.1,
        )
    | inr e ↦ rw e (select-IsAscendingBy test xs h.1)
  ]

  -- In ascending rows, the rows after one of them are those behind it.
  rows_behind :
      (front : List A) (x : A) (xs : List A)
      → IsAscendingBy (front ++ x ∷ xs)
      → select (λ y. ltb (key x) (key y)) (front ++ x ∷ xs) ≡ xs
  rows_behind [] x xs h =
      let self : ltb (key x) (key x) ≡ false = ground arith in
      rw self (select_whole (λ y. ltb (key x) (key y)) xs h.0)
  rows_behind (y ∷ ys) x xs h =
      let less : ltb (key y) (key x) ≡ true =
        All-at (λ z. ltb (key y) (key z) ≡ true) ys x xs h.0 in
      let before : ltb (key x) (key y) ≡ false = ground (arith, less) in
      rw before (rows_behind ys x xs h.1)

  -- The same for the rows after a cursor: `p` is the test of an earlier cursor.
  pub rows_after :
      (p : A → Bool) (rows front : List A) (x : A) (xs : List A)
      → IsAscendingBy rows
      → ((y : A) → p x ≡ true → ltb (key x) (key y) ≡ true → p y ≡ true)
      → select p rows ≡ front ++ x ∷ xs
      → select (λ y. ltb (key x) (key y)) rows ≡ xs
  rows_after p rows front x xs h up e =
      let given : p x ≡ true =
        All-at (λ y. p y ≡ true) front x xs
          (subst (All (λ y. p y ≡ true)) e (All-selected p rows)) in
      sym (select-select p (λ y. ltb (key x) (key y)) rows (λ y later. up y given later))
      ∙ ap (select (λ y. ltb (key x) (key y))) e
      ∙ rows_behind front x xs (subst IsAscendingBy e (select-IsAscendingBy p rows h))
