-- ===== src/Idempotency/Unique.antt =====
-- The operations keep the primary key unique.
use astrbot_shipyard_neo.Base.{
  ℕ, Bool, Option, none, some, List, arith, Bool-cases, Option-cases, inl, inr, first,
}
use astrbot_shipyard_neo.Path.Split.{Text}
use astrbot_shipyard_neo.Idempotency.Service.{
  cleanup_expired, is_expired, IdempotencyKey, IdempotencyConfig, Request, is_row, check_row, check,
  save,
}
use astrbot_shipyard_neo.Idempotency.Rows.{IsUnique, delete-IsUnique}

module _ (sha256 : Text → ℕ) {R : Type 0} (dumps : R → Text) (loads : Text → R) where
  check_row-IsUnique :
      (now : ℕ) (q : Request) (at : IdempotencyKey → Bool) (rows : List IdempotencyKey)
      (found : Option IdempotencyKey)
      → IsUnique rows
      → IsUnique (check_row sha256 dumps loads now q at rows found).1
  unfolding check_row
  check_row-IsUnique now q at rows none h = h
  check_row-IsUnique now q at rows (some r) h = ground (arith, delete-IsUnique at rows h)

  check-IsUnique :
      (config : IdempotencyConfig) (now owner : ℕ) (key : Text) (q : Request)
      (rows : List IdempotencyKey)
      → IsUnique rows
      → IsUnique (check sha256 dumps loads config now owner key q rows).1
  unfolding check
  check-IsUnique config now owner key q rows h =
      ground
        (arith, check_row-IsUnique now q (is_row owner key) rows (first (is_row owner key) rows) h)

  save-IsUnique :
      (config : IdempotencyConfig) (now owner : ℕ) (key : Text) (q : Request) (response : R)
      (status_code : ℕ) (rows : List IdempotencyKey)
      → IsUnique rows
      → IsUnique (save sha256 dumps loads config now owner key q response status_code rows)
  unfolding save
  save-IsUnique config now owner key q response status_code rows h =
      elim (Bool-cases config.enabled) [
        | inr off ↦ rw off h
        | inl on ↦ elim (Option-cases (first (is_row owner key) rows)) [
          | inl free ↦ rw (on, free) (free, h)
          | inr (r, there) ↦ rw (on, there) h
        ]
      ]

  -- Each of check, save and the clean-up leaves rows of different keys if it starts from such rows.
  pub operations-IsUnique :
      (config : IdempotencyConfig) (now owner : ℕ) (key : Text) (q : Request) (response : R)
      (status_code : ℕ) (rows : List IdempotencyKey)
      → IsUnique rows
      → IsUnique (check sha256 dumps loads config now owner key q rows).1
        × IsUnique (save sha256 dumps loads config now owner key q response status_code rows)
        × IsUnique (cleanup_expired now rows).1
  unfolding cleanup_expired
  operations-IsUnique config now owner key q response status_code rows h = (
    check-IsUnique config now owner key q rows h,
    save-IsUnique config now owner key q response status_code rows h,
    delete-IsUnique (is_expired now) rows h,
  )
