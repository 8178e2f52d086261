-- ===== src/Path/Tests.antt =====
-- Concrete paths through the validator, and the theorems at them.
use Prim.Native.String.{String}
use Prim.Native.Char.{code}
use astrbot_shipyard_neo.Base.{◌≡◌, refl, ◌++◌, List, [], ◌∷◌, some}
use astrbot_shipyard_neo.Path.Split.{Text, parts, join}
use astrbot_shipyard_neo.Path.Normal.{
  ok, invalid, Reason, step, validate_relative_path, validate_optional_relative_path,
}
use astrbot_shipyard_neo.Path.Stable.{validate-idempotent}
use astrbot_shipyard_neo.Path.Escape.{
  validate_stays_inside, validate_outcome, reason_of, broken_rule, walk,
}

abbrev codes : String → Text
codes String.[] = []
codes (String.◌∷◌ c s) = code c ∷ codes s

accepts : validate_relative_path (codes "./a/b/../c.txt") ≡ ok (codes "a/c.txt")
unfolding validate_relative_path step parts join
accepts = refl

refuses : validate_relative_path (codes "a/../../b") ≡ invalid Reason.path_traversal
unfolding validate_relative_path step parts join
refuses = refl

root_only : validate_optional_relative_path (some (codes "a/..")) ≡ ok (some (codes "."))
unfolding validate_optional_relative_path validate_relative_path step parts join
root_only = refl

validate-idempotent_example : validate_relative_path (codes "a/c.txt") ≡ ok (codes "a/c.txt")
validate-idempotent_example = validate-idempotent (codes "./a/b/../c.txt") accepts

validate_stays_inside_example :
    (names : List Text) × ((dir : List Text)
      → (walk dir (parts (codes "./a/b/../c.txt")) ≡ dir ++ names)
        × (walk dir (parts (codes "a/c.txt")) ≡ dir ++ names))
validate_stays_inside_example = validate_stays_inside (codes "./a/b/../c.txt") accepts

validate_outcome_example :
    reason_of (validate_relative_path (codes "a/../../b")) ≡ broken_rule (codes "a/../../b")
validate_outcome_example = validate_outcome (codes "a/../../b")
