-- ===== src/Idempotency/Rows.antt =====
-- The rows of the table have different primary keys, and a query finds the one row of a key.
use astrbot_shipyard_neo.Base.{
  ℕ, ◌≡◌, refl, Bool, false, none, List, [], ◌∷◌, ◌==◌, arith, Bool-cases, inl, inr, first, delete,
}
use astrbot_shipyard_neo.Path.Split.{Text}
use astrbot_shipyard_neo.Idempotency.Service.{IdempotencyKey, is_row}

-- The primary key.
abbrev pub IsUnique : List IdempotencyKey → Type 0
IsUnique [] = Unit
IsUnique (r ∷ rows) = (first (is_row r.owner r.key) rows ≡ none) × IsUnique rows

module _ (drop : IdempotencyKey → Bool) where
  pub first-delete-none :
      (owner : ℕ) (key : Text) (rows : List IdempotencyKey)
      → first (is_row owner key) rows ≡ none
      → first (is_row owner key) (delete drop rows) ≡ none
  first-delete-none owner key [] h = refl
  first-delete-none owner key (r ∷ rows) h = ground (arith, first-delete-none owner key rows)

  pub delete-IsUnique : (rows : List IdempotencyKey) → IsUnique rows → IsUnique (delete drop rows)
  delete-IsUnique [] h = h
  delete-IsUnique (r ∷ rows) h = elim (Bool-cases (drop r)) [
    | inl e ↦ rw e (delete-IsUnique rows h.1)
    | inr e ↦ rw e (first-delete-none r.owner r.key rows h.0, delete-IsUnique rows h.1)
  ]

pub first-delete_same :
    (at : IdempotencyKey → Bool) (rows : List IdempotencyKey) → first at (delete at rows) ≡ none
first-delete_same at [] = refl
first-delete_same at (r ∷ rows) = ground (arith, first-delete_same at rows)

-- Rows of another owner are found as before.
pub first-delete_other :
    (owner other : ℕ) (key their_key : Text) (rows : List IdempotencyKey)
    → (owner == other) ≡ false
    → first (is_row other their_key) (delete (is_row owner key) rows)
      ≡ first (is_row other their_key) rows
first-delete_other owner other key their_key [] h = refl
first-delete_other owner other key their_key (r ∷ rows) h =
    ground (arith, first-delete_other owner other key their_key rows h)
