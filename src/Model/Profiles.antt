-- ===== src/Model/Profiles.antt =====
-- `ContainerSpec`, `ProfileConfig` and `Settings.get_profile` of pkgs/bay/app/config.py.
use Prim.Native.String.{String}
use text.Mathlib.Text.{◌==◌ as str_eq}
use astrbot_shipyard_neo.Base.{ℕ, Bool, Option, none, some, List, [], ◌∷◌, ◌||◌, ◌==◌, first}
use astrbot_shipyard_neo.Model.Rows.{contains}

pub record ContainerSpec : Type 0 where
  pub name : String
  pub runtime_type : String
  pub runtime_port : ℕ
  pub capabilities : List String
  pub primary_for : List String

-- `containers` is the list that `model_post_init` leaves: it is never `None`, and may be empty.
pub record Profile : Type 0 where
  pub id : ℕ
  pub containers : List ContainerSpec
  pub idle_timeout : ℕ
  pub warm_pool_size : ℕ
  pub warm_rotate_ttl : ℕ
  -- `browser == "shared"`
  pub shares_browser : Bool

-- What the managers read of `Settings`.
pub record Settings : Type 0 where
  pub profiles : List Profile
  pub default_size_limit_mb : ℕ
  pub browser_service_enabled : Bool

abbrev pub head? {ℓ} : {A : Type ℓ} → List A → Option A
head? [] = none
head? (x ∷ xs) = some x

-- The container named `primary` or `ship`, or else the first.
unfoldable pub get_primary_container : Profile → Option ContainerSpec
get_primary_container p =
    elim (first (λ c. str_eq c.name "primary" || str_eq c.name "ship") p.containers) [
      | some c ↦ some c
      | none ↦ head? p.containers
    ]

-- `primary_for` wins over `capabilities`, and the first container over a later one.
unfoldable pub find_container_for_capability : Profile → String → Option ContainerSpec
find_container_for_capability p capability =
    elim (first (λ c. contains capability c.primary_for) p.containers) [
      | some c ↦ some c
      | none ↦ first (λ c. contains capability c.capabilities) p.containers
    ]

unfoldable pub get_profile : List Profile → ℕ → Option Profile
get_profile profiles profile_id = first (λ p. p.id == profile_id) profiles
