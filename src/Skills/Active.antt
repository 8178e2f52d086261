-- ===== src/Skills/Active.antt =====
-- Versions and active releases, counted.
use astrbot_shipyard_neo.Base.{
  ℕ, ◌≤◌, ◌<◌, ◌≡◌, refl, Bool, List, [], ◌∷◌, ◌==◌, ◌&&◌, arith, Bool-cases, inl, inr, update,
  count, max,
}
use astrbot_shipyard_neo.Skills.Rows.{SkillRelease, is_of, is_active_of, max_version}
use astrbot_shipyard_neo.Skills.Review.{as_deleted}

abbrev pub is_version : ℕ → ℕ → ℕ → SkillRelease → Bool
is_version owner skill_key v r = is_of owner skill_key r && (r.version == v)

pub unused_version :
    (owner skill_key v : ℕ) (rs : List SkillRelease)
    → max_version owner skill_key rs < v
    → count (is_version owner skill_key v) rs ≡ 0
unused_version owner skill_key v [] h = refl
unused_version owner skill_key v (r ∷ rs) h = elim (Bool-cases (is_of owner skill_key r)) [
  | inl e ↦
      let bound : max r.version (max_version owner skill_key rs) < v = ground arith in
      let below : r.version < v = omega arith in
      ground (arith, unused_version owner skill_key v rs (omega arith))
  | inr e ↦ ground (arith, unused_version owner skill_key v rs)
]

pub delete_fewer :
    (now release_id o k : ℕ) (rs : List SkillRelease)
    → count (is_active_of o k) (update (λ r. r.id == release_id) (as_deleted now) rs)
      ≤ count (is_active_of o k) rs
delete_fewer now release_id o k [] = omega arith
delete_fewer now release_id o k (r ∷ rs) = ground (arith, delete_fewer now release_id o k rs)

pub delete_versions :
    (now release_id o k v : ℕ) (rs : List SkillRelease)
    → count (is_version o k v) (update (λ r. r.id == release_id) (as_deleted now) rs)
      ≡ count (is_version o k v) rs
delete_versions now release_id o k v [] = refl
delete_versions now release_id o k v (r ∷ rs) =
    ground (arith, delete_versions now release_id o k v rs)
