-- ===== src/Base/Lists.antt =====
-- Lists measured by native numbers, under the library's names.
use Prim.Native.Nat.{ℕ, suc, ◌+◌}
use mathlib.Core.Path.{◌≡◌, refl}
use mathlib.Core.Logic.{◌⊎◌}
use mathlib.Core.List.{map, List, [], ◌∷◌, ◌++◌}
use native.Mathlib.Omega.{arith}

module _ {ℓ} {A : Type ℓ} where
  abbrev pub length : List A → ℕ
  length [] = 0
  length (x ∷ xs) = suc (length xs)

  pub length-append : (xs ys : List A) → length (xs ++ ys) ≡ length xs + length ys
  length-append [] ys = omega arith
  length-append (x ∷ xs) ys = omega (arith, length-append xs ys)

pub length-map {ℓ κ} :
    {A : Type ℓ} {B : Type κ} (f : A → B) (rows : List A) → length (map f rows) ≡ length rows
length-map f [] = refl
length-map f (row ∷ rest) = omega (arith, length-map f rest)

-- A predicate of every element.
abbrev pub All {ℓ κ} : {A : Type ℓ} → (A → Type κ) → List A → Type κ
All P [] = Unit
All P (row ∷ rest) = P row × All P rest

-- One of a list.
abbrev pub In : {A : Type 0} → A → List A → Type 0
In a [] = ⊥
In a (x ∷ xs) = (a ≡ x) ⊎ In a xs

pub All-weaken {ℓ κ} :
    {A : Type ℓ} {P Q : A → Type κ} (rows : List A)
    → ((row : A) → P row → Q row)
    → All P rows
    → All Q rows
All-weaken [] f h = tt
All-weaken (row ∷ rest) f h = (f row h.0, All-weaken rest f h.1)

pub All-snoc {ℓ κ} :
    {A : Type ℓ} (P : A → Type κ) (front : List A) {last : A}
    → All P front
    → P last
    → All P (front ++ last ∷ [])
All-snoc P [] h p = (p, tt)
All-snoc P (row ∷ front) h p = (h.0, All-snoc P front h.1 p)

-- Python's integers: `negsuc n` is -(n + 1).
pub data ℤ : Type 0 where
  pos : ℕ → ℤ
  negsuc : ℕ → ℤ
