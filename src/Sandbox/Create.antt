-- ===== src/Sandbox/Create.antt =====
-- `create`, `create_warm_sandbox`, `get` and `get_any`.
use astrbot_shipyard_neo.Base.{
  ℕ, ◌+◌, Bool, true, false, Option, none, some, ◌∷◌, ◌==◌, ◌&&◌, if◌then◌else◌, is_none, first,
  ltb, ℤ, pos, negsuc,
}
use astrbot_shipyard_neo.Model.{Sandbox, Cargo, Settings, get_profile, seconds, last_moment}
use astrbot_shipyard_neo.World.Runtime.{Runtime, Error}
use astrbot_shipyard_neo.World.Effect.{M, pure, gets, modify, ask, or_raise, raise_if, ◌>>=◌, ◌>>◌}
use astrbot_shipyard_neo.Cargo

-- Tests of the `where` clauses.
abbrev pub is_owned_by : ℕ → ℕ → Sandbox → Bool
is_owned_by sandbox_id owner s = (s.id == sandbox_id) && (s.owner == owner)

abbrev pub is_visible : ℕ → ℕ → Sandbox → Bool
is_visible sandbox_id owner s = is_owned_by sandbox_id owner s && is_none s.deleted_at

-- A new row, of a sandbox that nothing has used.
abbrev pub fresh_sandbox : ℕ → ℕ → ℕ → ℕ → Option ℕ → ℕ → ℕ → Sandbox
fresh_sandbox sandbox_id owner profile_id cargo_id expires_at created_at last_active_at = record {
  id = sandbox_id;
  owner = owner;
  profile_id = profile_id;
  cargo_id = some cargo_id;
  current_session_id = none;
  expires_at = expires_at;
  idle_expires_at = none;
  deleted_at = none;
  version = 1;
  created_at = created_at;
  last_active_at = last_active_at;
  is_warm_pool = false;
  warm_state = none;
  warm_ready_at = none;
  warm_rotate_at = none;
  warm_claimed_at = none;
  warm_source_profile_id = none;
}

-- `ttl and ttl > 0`, with the number of seconds.
abbrev pub positive_ttl : Option ℤ → Option ℕ
positive_ttl none = none
positive_ttl (some (negsuc n)) = none
positive_ttl (some (pos n)) = if n == 0 then none else some n

module _ (rt : Runtime) (settings : Settings) where
  -- `utcnow() + timedelta(seconds=ttl)`, where the clock is read only for a positive `ttl`. A moment
  -- beyond `datetime.max` is an `OverflowError`.
  abbrev pub expiry : Option ℕ → M rt.Outside (Option ℕ)
  expiry none = pure none
  expiry (some n) = do
    now ← ask rt.utcnow
    raise_if (ltb last_moment (now + seconds n)) Error.overflow
    pure (some (now + seconds n))

  -- The cargo that the caller names, or a new managed one.
  abbrev pub cargo_for : Option ℕ → ℕ → ℕ → M rt.Outside Cargo
  cargo_for none owner sandbox_id =
      Cargo.create rt settings.default_size_limit_mb owner true (some sandbox_id) none
  cargo_for (some cargo_id) owner sandbox_id = Cargo.get rt cargo_id owner

  unfoldable pub create_sandbox : ℕ → ℕ → Option ℕ → Option ℤ → M rt.Outside Sandbox
  create_sandbox owner profile_id cargo_id ttl = do
    sandbox_id ← ask rt.uuid
    raise_if (is_none (get_profile settings.profiles profile_id)) Error.validation
    cargo ← cargo_for cargo_id owner sandbox_id
    expires_at ← expiry (positive_ttl ttl)
    created_at ← ask rt.utcnow
    last_active_at ← ask rt.utcnow
    let sandbox : Sandbox =
        fresh_sandbox sandbox_id owner profile_id cargo.id expires_at created_at last_active_at
    modify (λ w. record w { sandboxes = sandbox ∷ w.sandboxes })
    pure sandbox

  unfoldable pub create_warm_sandbox : ℕ → ℕ → M rt.Outside Sandbox
  create_warm_sandbox profile_id owner = do
    sandbox_id ← ask rt.uuid
    raise_if (is_none (get_profile settings.profiles profile_id)) Error.validation
    cargo ← cargo_for none owner sandbox_id
    now ← ask rt.utcnow
    let sandbox : Sandbox =
        record (fresh_sandbox sandbox_id owner profile_id cargo.id none now now) {
          is_warm_pool = true;
          warm_source_profile_id = some profile_id;
        }
    modify (λ w. record w { sandboxes = sandbox ∷ w.sandboxes })
    pure sandbox

module _ (rt : Runtime) where
  unfoldable pub get_sandbox : ℕ → ℕ → M rt.Outside Sandbox
  get_sandbox sandbox_id owner = do
    found ← gets (λ w. first (is_visible sandbox_id owner) w.sandboxes)
    or_raise found Error.not_found

  unfoldable pub get_any : ℕ → ℕ → M rt.Outside Sandbox
  get_any sandbox_id owner = do
    found ← gets (λ w. first (is_owned_by sandbox_id owner) w.sandboxes)
    or_raise found Error.not_found
