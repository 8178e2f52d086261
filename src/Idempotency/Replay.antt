-- ===== src/Idempotency/Replay.antt =====
-- What a key answers after a request was carried out under it.
use astrbot_shipyard_neo.Base.{
  ℕ, ◌+◌, ◌≤◌, ◌≡◌, refl, true, Option, none, some, List, ◌==◌, arith, if◌then◌else◌, Bool-cases,
  inl, inr, first,
}
use astrbot_shipyard_neo.Path.Split.{Text}
use astrbot_shipyard_neo.Idempotency.Key.{validate_key, same_text_refl}
use astrbot_shipyard_neo.Idempotency.Service.{
  IdempotencyKey, IdempotencyConfig, Request, fresh, replayed, conflict, is_row, hours,
  compute_fingerprint, check_row, check, save,
}
use astrbot_shipyard_neo.Idempotency.Rows.{first-delete_same}

module _ (sha256 : Text → ℕ) {R : Type 0} (dumps : R → Text) (loads : Text → R) where
  -- A key that is fresh has no row when `check` returns.
  fresh_has_no_row :
      (now owner : ℕ) (key : Text) (q : Request) (rows : List IdempotencyKey)
      (found : Option IdempotencyKey)
      → first (is_row owner key) rows ≡ found
      → (check_row sha256 dumps loads now q (is_row owner key) rows found).0 ≡ fresh
      → first
          (is_row owner key)
          (check_row sha256 dumps loads now q (is_row owner key) rows found).1
        ≡ none
  unfolding check_row
  fresh_has_no_row now owner key q rows none e h = e
  fresh_has_no_row now owner key q rows (some r) e h =
      ground (arith, first-delete_same (is_row owner key) rows)

  check_after_save :
      (round_trip : (r : R) → loads (dumps r) ≡ r) (config : IdempotencyConfig)
      (now later owner : ℕ) (key : Text) (q again : Request) (response : R) (status_code : ℕ)
      (rows : List IdempotencyKey)
      → config.enabled ≡ true
      → validate_key key ≡ true
      → first (is_row owner key) rows ≡ none
      → later ≤ now + hours config.ttl_hours
      → (check sha256 dumps loads config later owner key again
          (save sha256 dumps loads config now owner key q response status_code rows)).0
        ≡ (if compute_fingerprint sha256 q == compute_fingerprint sha256 again
            then replayed (record { response = response; status_code = status_code })
            else conflict)
  unfolding check save
  check_after_save round_trip config now later owner key q again response status_code rows on valid
        free soon =
      ground (arith, same_text_refl key, round_trip response)

  pub fresh_check :
      (config : IdempotencyConfig) (now owner : ℕ) (key : Text) (q : Request)
      (rows : List IdempotencyKey)
      → config.enabled ≡ true
      → (check sha256 dumps loads config now owner key q rows).0 ≡ fresh
      → (validate_key key ≡ true)
        × (first (is_row owner key) (check sha256 dumps loads config now owner key q rows).1 ≡ none)
  unfolding check
  fresh_check config now owner key q rows on h = elim (Bool-cases (validate_key key)) [
    | inl valid ↦
        ground (arith, fresh_has_no_row now owner key q rows (first (is_row owner key) rows) refl)
    | inr bad ↦ absurd (ground arith)
  ]

  -- With the service enabled and a JSON reader that undoes the writer: after a first check that answers
  -- fresh and the request's response saved after it, a second check under the same key within the
  -- key's hours answers the saved response if its request has the first one's fingerprint, and a
  -- conflict if not.
  pub check-save-check :
      (round_trip : (r : R) → loads (dumps r) ≡ r) (config : IdempotencyConfig)
      (first_at saved_at later owner : ℕ) (key : Text) (q again : Request) (response : R)
      (status_code : ℕ) (rows : List IdempotencyKey)
      → config.enabled ≡ true
      → (check sha256 dumps loads config first_at owner key q rows).0 ≡ fresh
      → later ≤ saved_at + hours config.ttl_hours
      → (check sha256 dumps loads config later owner key again (
          save sha256 dumps loads config saved_at owner key q response status_code
            (check sha256 dumps loads config first_at owner key q rows).1)).0
        ≡ (if compute_fingerprint sha256 q == compute_fingerprint sha256 again
            then replayed (record { response = response; status_code = status_code })
            else conflict)
  check-save-check round_trip config first_at saved_at later owner key q again response status_code
        rows on free soon =
      let (valid, no_row) = fresh_check config first_at owner key q rows on free in
      check_after_save round_trip config saved_at later owner key q again response status_code
        (check sha256 dumps loads config first_at owner key q rows).1 on valid no_row soon
