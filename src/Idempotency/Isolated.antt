-- ===== src/Idempotency/Isolated.antt =====
-- A key of one owner says nothing to another.
use astrbot_shipyard_neo.Base.{
  ℕ, ◌≡◌, refl, ◌∙◌, Bool, false, Option, none, some, List, ◌==◌, arith, first,
}
use astrbot_shipyard_neo.Path.Split.{Text}
use astrbot_shipyard_neo.Idempotency.Service.{
  IdempotencyKey, IdempotencyConfig, Request, Checked, is_row, check_row, check, save,
}
use astrbot_shipyard_neo.Idempotency.Rows.{first-delete_other}

module _ (sha256 : Text → ℕ) {R : Type 0} (dumps : R → Text) (loads : Text → R) where
  check_row_other :
      (now owner other : ℕ) (key their_key : Text) (q : Request) (rows : List IdempotencyKey)
      (found : Option IdempotencyKey)
      → (owner == other) ≡ false
      → first
          (is_row other their_key)
          (check_row sha256 dumps loads now q (is_row owner key) rows found).1
        ≡ first (is_row other their_key) rows
  unfolding check_row
  check_row_other now owner other key their_key q rows none h = refl
  check_row_other now owner other key their_key q rows (some r) h =
      ground (arith, first-delete_other owner other key their_key rows h)

  check_other :
      (config : IdempotencyConfig) (now owner other : ℕ) (key their_key : Text) (q : Request)
      (rows : List IdempotencyKey)
      → (owner == other) ≡ false
      → first (is_row other their_key) (check sha256 dumps loads config now owner key q rows).1
        ≡ first (is_row other their_key) rows
  unfolding check
  check_other config now owner other key their_key q rows h = ground (
    arith,
    check_row_other now owner other key their_key q rows (first (is_row owner key) rows) h,
  )

  -- What another owner's check answers.
  abbrev pub answer : IdempotencyConfig → ℕ → ℕ → Text → Request → List IdempotencyKey → Checked R
  answer config now owner key q rows = (check sha256 dumps loads config now owner key q rows).0

  answer_row :
      (now : ℕ) (q : Request) (at : IdempotencyKey → Bool) (rows more : List IdempotencyKey)
      (found : Option IdempotencyKey)
      → (check_row sha256 dumps loads now q at rows found).0
        ≡ (check_row sha256 dumps loads now q at more found).0
  unfolding check_row
  answer_row now q at rows more none = refl
  answer_row now q at rows more (some r) = ground arith

  -- A check depends on the table by the row of its key alone.
  pub answer-first :
      (config : IdempotencyConfig) (now owner : ℕ) (key : Text) (q : Request)
      (rows more : List IdempotencyKey)
      → first (is_row owner key) rows ≡ first (is_row owner key) more
      → answer config now owner key q rows ≡ answer config now owner key q more
  unfolding check
  answer-first config now owner key q rows more e =
      rw (answer, e) ground
        (arith, answer_row now q (is_row owner key) rows more (first (is_row owner key) more))

  save_other :
      (config : IdempotencyConfig) (now owner other : ℕ) (key their_key : Text) (q : Request)
      (response : R) (status_code : ℕ) (rows : List IdempotencyKey)
      → (owner == other) ≡ false
      → first
          (is_row other their_key)
          (save sha256 dumps loads config now owner key q response status_code rows)
        ≡ first (is_row other their_key) rows
  unfolding save
  save_other config now owner other key their_key q response status_code rows h = ground arith

  -- Whatever one owner checks and saves, every other owner's check of every key answers as before.
  pub answer_other :
      (config : IdempotencyConfig) (now saved_at later owner other : ℕ) (key their_key : Text)
      (q theirs : Request) (response : R) (status_code : ℕ) (rows : List IdempotencyKey)
      → (owner == other) ≡ false
      → answer config later other their_key theirs (
          save sha256 dumps loads config saved_at owner key q response status_code
            (check sha256 dumps loads config now owner key q rows).1)
        ≡ answer config later other their_key theirs rows
  unfolding check
  answer_other config now saved_at later owner other key their_key q theirs response status_code
        rows h =
      answer-first config later other their_key theirs
        (save sha256 dumps loads config saved_at owner key q response status_code
          (check sha256 dumps loads config now owner key q rows).1)
        rows
        (save_other config saved_at owner other key their_key q response status_code
            (check sha256 dumps loads config now owner key q rows).1 h
          ∙ check_other config now owner other key their_key q rows h)
