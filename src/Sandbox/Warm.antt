-- ===== src/Sandbox/Warm.antt =====
-- The warm pool's operations: `claim_warm_sandbox`, `mark_warm_available` and `mark_warm_retiring`.
-- A claim selects a candidate and then updates it under a condition. What other processes commit
-- between its statements is the argument `others`, which may change the tables in any way.
use astrbot_shipyard_neo.Base.{
  ℕ, zero, suc, ◌+◌, Bool, false, Option, none, some, List, [], ◌∷◌, ◌==◌, ◌&&◌, leb, ltb,
  if◌then◌else◌, is_none, first, update, count, select, ℤ,
}
use astrbot_shipyard_neo.Model.{Sandbox, Cargo, WarmState, is_available, seconds, last_moment}
use astrbot_shipyard_neo.World.Runtime.{Runtime, Error, ok}
use astrbot_shipyard_neo.World.Effect.{World, M, pure, gets, modify, ask, raise_if, ◌>>=◌, ◌>>◌}
use astrbot_shipyard_neo.Sandbox.Create.{positive_ttl}

-- `deleted_at IS NULL AND is_warm_pool AND warm_state = 'available' AND profile_id = ...`
abbrev pub is_claimable : ℕ → Sandbox → Bool
is_claimable profile_id s =
    is_none s.deleted_at
    && (s.is_warm_pool && (is_available s.warm_state && (s.profile_id == profile_id)))

abbrev pub is_claimable_row : ℕ → ℕ → Sandbox → Bool
is_claimable_row sandbox_id profile_id s = (s.id == sandbox_id) && is_claimable profile_id s

-- `ORDER BY warm_ready_at ASC LIMIT 1`, where the database puts NULL first.
abbrev ready_key : Sandbox → ℕ
ready_key s = elim s.warm_ready_at [ none ↦ zero | some t ↦ suc t ]

abbrev earlier : Sandbox → Option Sandbox → Option Sandbox
earlier s none = some s
earlier s (some t) = if leb (ready_key s) (ready_key t) then some s else some t

pub earliest : List Sandbox → Option Sandbox
earliest [] = none
earliest (s ∷ ss) = earlier s (earliest ss)

-- `now + timedelta(seconds=ttl) if ttl and ttl > 0 else None`
abbrev pub expiry_at : ℕ → Option ℕ → Option ℕ
expiry_at now none = none
expiry_at now (some n) = some (now + seconds n)

-- The sum is an `OverflowError`.
abbrev is_beyond : Option ℕ → Bool
is_beyond none = false
is_beyond (some t) = ltb last_moment t

abbrev pub claimed_by : ℕ → ℕ → Option ℤ → Sandbox → Sandbox
claimed_by owner now ttl s = record s {
  warm_state = some WarmState.claimed;
  warm_claimed_at = some now;
  is_warm_pool = false;
  owner = owner;
  last_active_at = now;
  expires_at = expiry_at now (positive_ttl ttl);
}

abbrev pub is_live_row : ℕ → Sandbox → Bool
is_live_row sandbox_id s = (s.id == sandbox_id) && is_none s.deleted_at

-- `Cargo.id == claimed.cargo_id`
abbrev pub is_cargo : Option ℕ → Cargo → Bool
is_cargo none c = false
is_cargo (some k) c = c.id == k

abbrev pub made_available_at : ℕ → ℕ → Sandbox → Sandbox
made_available_at now warm_rotate_ttl s = record s {
  warm_state = some WarmState.available;
  warm_ready_at = some now;
  warm_rotate_at = some (now + seconds warm_rotate_ttl);
}

abbrev pub is_retirable : ℕ → Sandbox → Bool
is_retirable sandbox_id s = (s.id == sandbox_id) && (s.is_warm_pool && is_available s.warm_state)

abbrev pub as_retiring : Sandbox → Sandbox
as_retiring s = record s { warm_state = some WarmState.retiring }

module _ (rt : Runtime) where
  -- The conditional update: whether it matched exactly one row.
  unfoldable pub claim_row : ℕ → ℕ → ℕ → ℕ → Option ℤ → M rt.Outside Bool
  claim_row sandbox_id profile_id owner now ttl w = (
    ok (count (is_claimable_row sandbox_id profile_id) w.sandboxes == 1),
    record w {
      sandboxes =
          update (is_claimable_row sandbox_id profile_id) (claimed_by owner now ttl) w.sandboxes;
    },
  )

  -- The cargo of a claimed sandbox goes to the claiming user.
  unfoldable pub transfer_cargo : ℕ → Sandbox → M rt.Outside (Unit {0})
  transfer_cargo owner claimed = modify (λ w. record w {
    cargos = update (is_cargo claimed.cargo_id) (λ c. record c { owner = owner }) w.cargos;
  })

  abbrev interfere : (World rt.Outside → World rt.Outside) → M rt.Outside (Unit {0})
  interfere = modify

  -- After a claim that matched: the row is read again, unless others have deleted it.
  unfoldable pub settle_claim : ℕ → Option Sandbox → M rt.Outside (Option Sandbox)
  unfolding transfer_cargo
  settle_claim owner none = pure none
  settle_claim owner (some claimed) = do transfer_cargo owner claimed; pure (some claimed)

  -- One attempt: `none` is "no candidate", `some none` "try again", and `some (some s)` a claim.
  unfoldable pub claim_attempt :
      (World rt.Outside → World rt.Outside)
      → (World rt.Outside → World rt.Outside)
      → ℕ
      → ℕ
      → ℕ
      → Option ℤ
      → M rt.Outside (Option (Option Sandbox))
  unfolding earliest claim_row settle_claim
  claim_attempt before after owner profile_id now ttl = do
    candidate ← gets (λ w. earliest (select (is_claimable profile_id) w.sandboxes))
    elim candidate [
      | none ↦ pure none
      | some c ↦ do
        interfere before
        raise_if (is_beyond (expiry_at now (positive_ttl ttl))) Error.overflow
        matched ← claim_row c.id profile_id owner now ttl
        interfere after
        found ← gets (λ w. first (is_live_row c.id) w.sandboxes)
        claimed ← settle_claim owner (if matched then found else none)
        pure (some claimed)
    ]

  -- `for attempt in range(max_attempts)`, with the attempts that are left.
  unfoldable pub claim_loop :
      ℕ
      → (ℕ → World rt.Outside → World rt.Outside)
      → ℕ
      → ℕ
      → ℕ
      → Option ℤ
      → M rt.Outside (Option Sandbox)
  claim_loop zero others owner profile_id now ttl = pure none
  claim_loop (suc n) others owner profile_id now ttl = do
    outcome ← claim_attempt (others (n + n)) (others (n + n + 1)) owner profile_id now ttl
    elim outcome [
      | none ↦ pure none
      | some (some claimed) ↦ pure (some claimed)
      | some none ↦ claim_loop n others owner profile_id now ttl
    ]

  unfoldable pub claim_warm_sandbox :
      (ℕ → World rt.Outside → World rt.Outside) → ℕ → ℕ → Option ℤ → M rt.Outside (Option Sandbox)
  unfolding claim_loop claim_attempt
  claim_warm_sandbox others owner profile_id ttl = do
    now ← ask rt.utcnow
    claim_loop 3 others owner profile_id now ttl

  unfoldable pub mark_warm_available : ℕ → ℕ → M rt.Outside (Unit {0})
  mark_warm_available sandbox_id warm_rotate_ttl = do
    now ← ask rt.utcnow
    modify (λ w. record w {
      sandboxes =
          update (λ s. (s.id == sandbox_id) && s.is_warm_pool)
            (made_available_at now warm_rotate_ttl) w.sandboxes;
    })

  unfoldable pub mark_warm_retiring : ℕ → M rt.Outside (Unit {0})
  mark_warm_retiring sandbox_id =
      modify
        (λ w. record w { sandboxes = update (is_retirable sandbox_id) as_retiring w.sandboxes })
