-- ===== src/Cargo.antt =====
-- `CargoManager` of pkgs/bay/app/managers/cargo/cargo.py. A cargo is a volume and its row.
pub mod Delete
pub mod Listing
pub mod Pages
pub mod Whole
pub mod Size
mod Tests
use astrbot_shipyard_neo.Base.{
  ℕ, ◌+◌, ◌≤◌, Bool, true, false, Option, none, some, List, [], ◌∷◌, ◌==◌, ◌&&◌, ◌||◌, not, ltb,
  if◌then◌else◌, is_some, is_none, is_id, select, first, update, delete, length, map,
}
use astrbot_shipyard_neo.Model.{Sandbox, Cargo}
use astrbot_shipyard_neo.World.Runtime.{Runtime, Error, Result, ok, raise}
use astrbot_shipyard_neo.World.Effect.{
  World, M, pure, throw, gets, modify, ask, call, or_raise, raise_if, when, ◌>>=◌, ◌>>◌,
}

-- Tests of the `where` clauses.
abbrev pub is_owned : ℕ → ℕ → Cargo → Bool
is_owned cargo_id owner c = (c.id == cargo_id) && (c.owner == owner)

-- An active sandbox that mounts the cargo.
abbrev pub is_user : ℕ → Sandbox → Bool
is_user cargo_id s = is_id s.cargo_id cargo_id && is_none s.deleted_at

abbrev is_active : Option Sandbox → Bool
is_active none = false
is_active (some s) = is_none s.deleted_at

-- Whether the sandbox that manages the cargo is still there and not deleted.
abbrev pub has_active_manager : List Sandbox → Cargo → Bool
has_active_manager sandboxes c = elim c.managed_by_sandbox_id [
  | none ↦ false
  | some k ↦ is_active (first (λ s. s.id == k) sandboxes)
]

abbrev any_row {ℓ} : {A : Type ℓ} → List A → Bool
any_row [] = false
any_row (x ∷ xs) = true

-- The checks of `delete` without `force`.
abbrev pub is_in_use : List Sandbox → Cargo → Bool
is_in_use sandboxes c =
    if c.managed then has_active_manager sandboxes c else any_row (select (is_user c.id) sandboxes)

abbrev pub without_cargo : Sandbox → Sandbox
without_cargo s = record s { cargo_id = none }

-- `size_limit_mb or default`
abbrev or_default : Option ℕ → ℕ → ℕ
or_default none d = d
or_default (some n) d = if n == 0 then d else n

module _ (rt : Runtime) where
  unfoldable pub create : ℕ → ℕ → Bool → Option ℕ → Option ℕ → M rt.Outside Cargo
  create default_size_limit_mb owner managed managed_by_sandbox_id size_limit_mb = do
    cargo_id ← ask rt.uuid
    driver_ref ← call (rt.create_volume cargo_id)
    created_at ← ask rt.utcnow
    last_accessed_at ← ask rt.utcnow
    let cargo : Cargo = record {
      id = cargo_id;
      owner = owner;
      driver_ref = driver_ref;
      managed = managed;
      managed_by_sandbox_id = managed_by_sandbox_id;
      size_limit_mb = or_default size_limit_mb default_size_limit_mb;
      created_at = created_at;
      last_accessed_at = last_accessed_at;
    }
    modify (λ w. record w { cargos = cargo ∷ w.cargos })
    pure cargo

  unfoldable pub get : ℕ → ℕ → M rt.Outside Cargo
  get cargo_id owner = do
    found ← gets (λ w. first (is_owned cargo_id owner) w.cargos)
    or_raise found Error.not_found

  unfoldable pub get_by_id : ℕ → M rt.Outside (Option Cargo)
  get_by_id cargo_id = gets (λ w. first (λ c. c.id == cargo_id) w.cargos)

  -- The volume first, and the row only when that has succeeded. `Sandbox.cargo` is a relationship
  -- without a cascade, so that the ORM sets the `cargo_id` of the cargo's sandboxes to null.
  abbrev delete_row : Cargo → M rt.Outside (Unit {0})
  delete_row cargo = do
    call (rt.delete_volume cargo.driver_ref)
    modify (λ w. record w {
      cargos = delete (λ c. c.id == cargo.id) w.cargos;
      sandboxes = update (λ s. is_id s.cargo_id cargo.id) without_cargo w.sandboxes;
    })

  unfoldable pub delete_cargo : ℕ → ℕ → Bool → M rt.Outside (Unit {0})
  unfolding get
  delete_cargo cargo_id owner force = do
    cargo ← get cargo_id owner
    in_use ← gets (λ w. is_in_use w.sandboxes cargo)
    raise_if (not force && in_use) Error.conflict
    delete_row cargo

  unfoldable pub touch : ℕ → M rt.Outside (Unit {0})
  touch cargo_id = do
    found ← gets (λ w. first (λ c. c.id == cargo_id) w.cargos)
    when (is_some found) (do
      now ← ask rt.utcnow
      modify (λ w. record w {
        cargos = update (λ c. c.id == cargo_id) (λ c. record c { last_accessed_at = now }) w.cargos;
      }))

  unfoldable pub delete_internal_by_id : ℕ → M rt.Outside (Unit {0})
  unfolding get_by_id
  delete_internal_by_id cargo_id = do
    found ← get_by_id cargo_id
    elim found [ none ↦ pure tt | some cargo ↦ delete_row cargo ]
