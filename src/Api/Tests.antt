-- ===== src/Api/Tests.antt =====
-- Two requests to create a sandbox under one key. Here the hash is the length, and a response is
-- written as the list of its fields.
use astrbot_shipyard_neo.Base.{
  ℕ, zero, suc, ◌≡◌, refl, true, false, Option, none, some, [], ◌∷◌, length, ◌==◌, if◌then◌else◌,
}
use astrbot_shipyard_neo.Model.{SandboxStatus, compute_status, get_profile}
use astrbot_shipyard_neo.World.Runtime.{ok}
use astrbot_shipyard_neo.World.Effect.{World}
use astrbot_shipyard_neo.World.Sample.{calm, start, settings}
use astrbot_shipyard_neo.Path.Split.{Text}
use astrbot_shipyard_neo.Idempotency.Service.{Request}
use astrbot_shipyard_neo.Cargo
use astrbot_shipyard_neo.Warmup.Queue.{WarmPoolConfig, init, enqueue}
use astrbot_shipyard_neo.Api.Keyed.{stored, made, Keys}
use astrbot_shipyard_neo.Api.Sandboxes.{SandboxResponse, CreateSandboxRequest, Front, post_sandbox}
use astrbot_shipyard_neo.Api.Again.{call, post_sandbox_again}

abbrev of_status : SandboxStatus → ℕ
of_status SandboxStatus.idle = 0
of_status SandboxStatus.starting = 1
of_status SandboxStatus.ready = 2
of_status SandboxStatus.failed = 3
of_status SandboxStatus.expired = 4
of_status SandboxStatus.deleted = 5

abbrev to_status : ℕ → SandboxStatus
to_status n =
    if n == 0
    then SandboxStatus.idle
    else if n == 1
    then SandboxStatus.starting
    else if n == 2
    then SandboxStatus.ready
    else if n == 3
    then SandboxStatus.failed
    else if n == 4
    then SandboxStatus.expired
    else SandboxStatus.deleted

abbrev of_option : Option ℕ → ℕ
of_option none = zero
of_option (some n) = suc n

abbrev to_option : ℕ → Option ℕ
to_option zero = none
to_option (suc n) = some n

abbrev write : SandboxResponse → Text
write r =
    r.id
    ∷ of_status r.status
    ∷ r.profile
    ∷ of_option r.cargo_id
    ∷ r.created_at
    ∷ of_option r.expires_at
    ∷ of_option r.idle_expires_at
    ∷ []

abbrev nth : ℕ → Text → ℕ
nth n [] = 0
nth zero (x ∷ xs) = x
nth (suc n) (x ∷ xs) = nth n xs

abbrev read : Text → SandboxResponse
read t = record {
  id = nth 0 t;
  status = to_status (nth 1 t);
  profile = nth 2 t;
  cargo_id = to_option (nth 3 t);
  created_at = nth 4 t;
  expires_at = to_option (nth 5 t);
  idle_expires_at = to_option (nth 6 t);
}

read_of_option : (o : Option ℕ) → to_option (of_option o) ≡ o
read_of_option none = refl
read_of_option (some n) = refl

read_of_status : (s : SandboxStatus) → to_status (of_status s) ≡ s
read_of_status SandboxStatus.idle = refl
read_of_status SandboxStatus.starting = refl
read_of_status SandboxStatus.ready = refl
read_of_status SandboxStatus.failed = refl
read_of_status SandboxStatus.expired = refl
read_of_status SandboxStatus.deleted = refl

read_of_write : (r : SandboxResponse) → read (write r) ≡ r
read_of_write r = cc (
  read_of_status r.status,
  read_of_option r.cargo_id,
  read_of_option r.expires_at,
  read_of_option r.idle_expires_at,
)

abbrev keys : Keys SandboxResponse
keys = record {
  sha256 = length;
  dumps = write;
  loads = read;
  config = record { enabled = true; ttl_hours = 1 };
}

abbrev config : WarmPoolConfig
config = record { max_size = 0; drop_oldest = false }

abbrev alone : ℕ → World ℕ → World ℕ
alone n w = w

abbrev key : Text
key = b'k' ∷ []

abbrev body : Request
body = record { path = b'/' ∷ []; method = b'P' ∷ []; body = [] }

abbrev wanted : CreateSandboxRequest
wanted = record { profile = 5; cargo_id = none; ttl = none }

abbrev front : Front
front = record { keys = []; queue = some (record init { running = true }); background = [] }

abbrev reply : SandboxResponse
reply = record {
  id = 102;
  status = SandboxStatus.idle;
  profile = 5;
  cargo_id = some 103;
  created_at = 107;
  expires_at = none;
  idle_expires_at = none;
}

abbrev front_after : Front
front_after = record {
  keys =
      record {
        owner = 7;
        key = key;
        request_fingerprint = 4;
        response_snapshot = write reply;
        status_code = 201;
        expires_at = 3600000110;
      }
      ∷ [];
  queue = some (enqueue config 102 7 (record init { running = true })).1;
  background = [];
}

-- The first request, at the moment 100, makes the sandbox 102.
first_reply :
    (post_sandbox calm keys settings config alone
      (call calm keys settings config alone 7 key body)
      wanted
      front
      start).0
    ≡ ok (ok (made reply), front_after)
unfolding post_sandbox get_profile Cargo.create compute_status
first_reply = refl

post_sandbox_again_example :
    post_sandbox calm keys settings config alone
      (call calm keys settings config alone 7 key body)
      wanted
      front_after
      (record start { outside = 500 })
    ≡ (
      ok (ok (stored (record { response = reply; status_code = 201 })), front_after),
      record start { outside = 501 },
    )
post_sandbox_again_example =
    post_sandbox_again calm keys settings config alone 7 key body read_of_write wanted front
      front_after start (record start { outside = 500 }) refl first_reply (refl, tt)
