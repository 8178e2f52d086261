-- ===== src/Idempotency/Cleanup.antt =====
-- The batch clean-up cannot be seen by a later check.
use astrbot_shipyard_neo.Base.{
  ℕ, ◌≤◌, ◌≡◌, refl, ◌⊎◌, true, none, some, List, [], ◌∷◌, arith, Bool-cases, inl, inr, first,
  delete,
}
use astrbot_shipyard_neo.Path.Split.{Text}
use astrbot_shipyard_neo.Idempotency.Key.{same_text_sound}
use astrbot_shipyard_neo.Idempotency.Service.{
  IdempotencyKey, IdempotencyConfig, Request, is_expired, is_row, check_row, check, cleanup_expired,
}
use astrbot_shipyard_neo.Idempotency.Isolated.{answer, answer-first}
use astrbot_shipyard_neo.Idempotency.Rows.{IsUnique, first-delete-none}

module _ (sha256 : Text → ℕ) {R : Type 0} (dumps : R → Text) (loads : Text → R) where
  -- A row of a key is the only one.
  only_row :
      (owner : ℕ) (key : Text) (r : IdempotencyKey) (rows : List IdempotencyKey)
      → is_row owner key r ≡ true
      → first (is_row r.owner r.key) rows ≡ none
      → first (is_row owner key) rows ≡ none
  only_row owner key r rows is h =
      let same_owner : r.owner ≡ owner = ground arith in
      let same_key : r.key ≡ key = same_text_sound r.key key (ground arith) in
      rw (← same_owner, ← same_key) h

  -- The row of a key stays, or it is gone and had expired.
  first-cleanup :
      (now later owner : ℕ) (key : Text) (rows : List IdempotencyKey)
      → now ≤ later
      → IsUnique rows
      → (first (is_row owner key) (delete (is_expired now) rows) ≡ first (is_row owner key) rows)
        ⊎ ((r : IdempotencyKey) × (first (is_row owner key) rows ≡ some r)
            × (first (is_row owner key) (delete (is_expired now) rows) ≡ none)
            × (is_expired later r ≡ true))
  first-cleanup now later owner key [] h u = inl refl
  first-cleanup now later owner key (r ∷ rows) h u = elim (Bool-cases (is_row owner key r)) [
    | inl is ↦
        let alone : first (is_row owner key) rows ≡ none = only_row owner key r rows is u.0 in
        elim (Bool-cases (is_expired now r)) [
          | inl old ↦
              rw (is, old)
                (inr
                  (r, refl, first-delete-none (is_expired now) owner key rows alone, ground arith))
          | inr young ↦ inl (ground arith)
        ]
    | inr other ↦ elim (Bool-cases (is_expired now r)) [
      | inl old ↦ rw (other, old) (first-cleanup now later owner key rows h u.1)
      | inr young ↦ rw (other, young, other) (first-cleanup now later owner key rows h u.1)
    ]
  ]

  answer-expired :
      (config : IdempotencyConfig) (later owner : ℕ) (key : Text) (q : Request)
      (rows more : List IdempotencyKey) {r : IdempotencyKey}
      → first (is_row owner key) rows ≡ some r
      → first (is_row owner key) more ≡ none
      → is_expired later r ≡ true
      → answer sha256 dumps loads config later owner key q more
        ≡ answer sha256 dumps loads config later owner key q rows
  unfolding check check_row
  answer-expired config later owner key q rows more there gone old = ground arith

  -- On rows with different keys, no check at a later moment answers otherwise because of a clean-up.
  pub answer-cleanup :
      (config : IdempotencyConfig) (now later owner : ℕ) (key : Text) (q : Request)
      (rows : List IdempotencyKey)
      → IsUnique rows
      → now ≤ later
      → answer sha256 dumps loads config later owner key q (cleanup_expired now rows).1
        ≡ answer sha256 dumps loads config later owner key q rows
  unfolding cleanup_expired
  answer-cleanup config now later owner key q rows u h =
      let left : List IdempotencyKey = delete (is_expired now) rows in
      elim (first-cleanup now later owner key rows h u) [
        | inl same ↦ answer-first sha256 dumps loads config later owner key q left rows same
        | inr (r, there, gone, old) ↦
            answer-expired config later owner key q rows left there gone old
      ]
