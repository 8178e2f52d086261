-- ===== src/Idempotency/Tests.antt =====
-- Tests and witnesses of the idempotency keys. Here the hash is the length, and a response is its own
-- JSON text.
use astrbot_shipyard_neo.Base.{◌≡◌, refl, true, false, List, [], ◌∷◌, arith, length}
use astrbot_shipyard_neo.Path.Split.{Text}
use astrbot_shipyard_neo.Idempotency.Key.{validate_key}
use astrbot_shipyard_neo.Idempotency.Service.{
  IdempotencyKey, IdempotencyConfig, Request, replayed, fresh, check, check_row, save,
  compute_fingerprint, cleanup_expired,
}
use astrbot_shipyard_neo.Idempotency.Replay.{check-save-check}
use astrbot_shipyard_neo.Idempotency.Isolated.{answer}
use astrbot_shipyard_neo.Idempotency.Cleanup.{answer-cleanup}

abbrev same : Text → Text
same t = t

abbrev config : IdempotencyConfig
config = record { enabled = true; ttl_hours = 1 }

abbrev key : Text
key = b'k' ∷ b'-' ∷ b'1' ∷ []

abbrev post : Request
post = record { path = b'/' ∷ []; method = b'P' ∷ []; body = b'{' ∷ b'}' ∷ [] }

abbrev reply : Text
reply = b'i' ∷ b'd' ∷ []

-- A row that had expired at the moment 100.
abbrev old_row : IdempotencyKey
old_row = record {
  owner = 7;
  key = key;
  request_fingerprint = 6;
  response_snapshot = [];
  status_code = 201;
  expires_at = 50;
}

abbrev table : List IdempotencyKey
table = old_row ∷ []

-- A newline that ends the key passes the pattern, and one inside the key does not.
newline_passes : validate_key (b'k' ∷ 10 ∷ []) ≡ true
unfolding validate_key
newline_passes = refl

newline_inside_fails : validate_key (b'k' ∷ 10 ∷ b'k' ∷ []) ≡ false
unfolding validate_key
newline_inside_fails = refl

starts_fresh : (check length same same config 100 7 key post table).0 ≡ fresh
unfolding check check_row validate_key
starts_fresh = refl

-- The first request's row expires at 3600000101.
check-save-check_example :
    (check length same same config 3600000101 7 key post (
      save length same same config 101 7 key post reply 201
        (check length same same config 100 7 key post table).1)).0
    ≡ replayed (record { response = reply; status_code = 201 })
unfolding compute_fingerprint
check-save-check_example =
    check-save-check length same same (λ r. refl) config 100 101 3600000101 7 key post post reply
      201 table refl starts_fresh (omega arith)

answer-cleanup_example :
    answer length same same config 100 7 key post (cleanup_expired 90 table).1
    ≡ answer length same same config 100 7 key post table
answer-cleanup_example =
    answer-cleanup length same same config 90 100 7 key post table (refl, tt) (omega arith)
