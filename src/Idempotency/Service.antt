-- ===== src/Idempotency/Service.antt =====
-- `IdempotencyService`. The rows are those that the request's transaction sees; the primary key
-- (owner, key) makes the insertion of a second row fail. SHA-256 and the JSON functions are
-- parameters.
use astrbot_shipyard_neo.Base.{
  ℕ, ◌+◌, ◌*◌, Bool, Option, none, some, List, ◌∷◌, ◌++◌, ◌==◌, ◌&&◌, not, ltb, if◌then◌else◌,
  is_some, first, delete, count,
}
use astrbot_shipyard_neo.Model.{seconds}
use astrbot_shipyard_neo.Path.Split.{Text}
use astrbot_shipyard_neo.Idempotency.Key.{validate_key, same_text}

-- `created_at` is written and never read.
pub record IdempotencyKey : Type 0 where
  pub owner : ℕ
  pub key : Text
  pub request_fingerprint : ℕ
  pub response_snapshot : Text
  pub status_code : ℕ
  pub expires_at : ℕ

pub record CachedResponse (R : Type 0) : Type 0 where
  pub response : R
  pub status_code : ℕ

pub record IdempotencyConfig : Type 0 where
  pub enabled : Bool
  pub ttl_hours : ℕ

pub record Request : Type 0 where
  pub path : Text
  pub method : Text
  pub body : Text

-- What `check` returns or raises.
pub data Checked (R : Type 0) : Type 0 where
  fresh : Checked R
  replayed : CachedResponse R → Checked R
  invalid_key : Checked R
  conflict : Checked R

-- `IdempotencyKey.is_expired`
abbrev pub is_expired : ℕ → IdempotencyKey → Bool
is_expired now r = ltb r.expires_at now

-- `IdempotencyKey.owner == owner, IdempotencyKey.key == key`
abbrev pub is_row : ℕ → Text → IdempotencyKey → Bool
is_row owner key r = (r.owner == owner) && same_text r.key key

-- `timedelta(hours=n)`
abbrev pub hours : ℕ → ℕ
hours n = seconds (3600 * n)

module _ (sha256 : Text → ℕ) where
  -- The hash of `f"{method}:{path}:{body}"`.
  unfoldable pub compute_fingerprint : Request → ℕ
  compute_fingerprint q = sha256 (q.method ++ b':' ∷ q.path ++ b':' ∷ q.body)

  module _ {R : Type 0} (dumps : R → Text) (loads : Text → R) where
    -- A row that the query found, at the moment of `is_expired`.
    unfoldable pub check_row :
        ℕ
        → Request
        → (IdempotencyKey → Bool)
        → List IdempotencyKey
        → Option IdempotencyKey
        → Checked R × List IdempotencyKey
    unfolding compute_fingerprint
    check_row now q at rows none = (fresh, rows)
    check_row now q at rows (some r) =
        if is_expired now r
        then (fresh, delete at rows)
        else if not (r.request_fingerprint == compute_fingerprint q)
        then (conflict, rows)
        else (
          replayed (record { response = loads r.response_snapshot; status_code = r.status_code }),
          rows,
        )

    unfoldable pub check :
        IdempotencyConfig
        → ℕ
        → ℕ
        → Text
        → Request
        → List IdempotencyKey
        → Checked R × List IdempotencyKey
    unfolding check_row validate_key
    check config now owner key q rows =
        if not config.enabled
        then (fresh, rows)
        else if not (validate_key key)
        then (invalid_key, rows)
        else check_row now q (is_row owner key) rows (first (is_row owner key) rows)

    -- The insertion fails on a second row of a primary key, and is rolled back.
    unfoldable pub save :
        IdempotencyConfig
        → ℕ
        → ℕ
        → Text
        → Request
        → R
        → ℕ
        → List IdempotencyKey
        → List IdempotencyKey
    unfolding compute_fingerprint
    save config now owner key q response status_code rows =
        if not config.enabled
        then rows
        else if is_some (first (is_row owner key) rows)
        then rows
        else record {
          owner = owner;
          key = key;
          request_fingerprint = compute_fingerprint q;
          response_snapshot = dumps response;
          status_code = status_code;
          expires_at = now + hours config.ttl_hours;
        }
          ∷ rows

-- The number of rows deleted, and the rows that are left.
unfoldable pub cleanup_expired : ℕ → List IdempotencyKey → ℕ × List IdempotencyKey
cleanup_expired now rows = (count (is_expired now) rows, delete (is_expired now) rows)
