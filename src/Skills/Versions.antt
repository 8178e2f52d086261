-- ===== src/Skills/Versions.antt =====
-- The releases of a skill: after a promotion or a rollback the new release is the active one, and its
-- version is above all others of the skill.
use mathlib.Core.Path.{subst}
use astrbot_shipyard_neo.Base.{
  ap, ℕ, ◌+◌, ◌<◌, ◌≡◌, refl, true, false, Option, none, some, List, [], ◌∷◌, ◌&&◌, arith,
  Bool-cases, inl, inr, first, select, All, max,
}
use astrbot_shipyard_neo.World.Runtime.{Result, ok, raise}
use astrbot_shipyard_neo.Skills.Rows.{
  SkillCandidate, SkillRelease, SkillReleaseStage, SkillReleaseMode, Origin, Tables, is_of,
  is_active_of, max_version, latest,
}
use astrbot_shipyard_neo.Skills.Service.{
  is_visible_release, get_candidate, deactivate, is_passed, promotion, add_release, promote_found,
  promote_with, promote_candidate, get_active_release, is_at, is_previous, rollback_of_to,
  end_rollback, rollback_to, rollback_previous, rollback_current, rollback_release,
}
use astrbot_shipyard_neo.Skills.Candidates.{get_candidate-releases}

above-max_version :
    (owner skill_key v : ℕ) (rs : List SkillRelease)
    → max_version owner skill_key rs < v
    → All (λ s. s.version < v) (select (is_of owner skill_key) rs)
above-max_version owner skill_key v [] h = tt
above-max_version owner skill_key v (r ∷ rs) h = elim (Bool-cases (is_of owner skill_key r)) [
  | inl e ↦
      let bound : max r.version (max_version owner skill_key rs) < v = ground arith in
      rw e (omega arith, above-max_version owner skill_key v rs (omega arith))
  | inr e ↦ rw e (above-max_version owner skill_key v rs (ground arith))
]

latest-deactivate :
    (owner skill_key : ℕ) (stage : Option SkillReleaseStage) (rs : List SkillRelease)
    → latest (λ r. is_active_of owner skill_key r && is_at stage r) (deactivate owner skill_key rs)
      ≡ none
latest-deactivate owner skill_key stage [] = refl
latest-deactivate owner skill_key stage (r ∷ rs) =
    ground (arith, latest-deactivate owner skill_key stage rs)

-- A release that is the active one of its skill, whatever the stage asked for, in the tables `u`, with
-- a version above those of the skill's releases in `t`.
abbrev pub IsPublished : SkillRelease → Tables → Tables → Type 0
IsPublished r t u =
    (get_active_release r.owner r.skill_key none u ≡ some r)
    × (get_active_release r.owner r.skill_key (some r.stage) u ≡ some r)
    × All (λ s. s.version < r.version) (select (is_of r.owner r.skill_key) t.releases)

is_at-own :
    (stage : SkillReleaseStage) (r : SkillRelease) → r.stage ≡ stage → is_at (some stage) r ≡ true
is_at-own SkillReleaseStage.canary r h = ground arith
is_at-own SkillReleaseStage.stable r h = ground arith

add_release-IsPublished :
    (r : SkillRelease) (t u : Tables)
    → r.is_active ≡ true
    → r.is_deleted ≡ false
    → r.version ≡ max_version r.owner r.skill_key t.releases + 1
    → u.releases ≡ r ∷ deactivate r.owner r.skill_key t.releases
    → IsPublished r t u
unfolding get_active_release
add_release-IsPublished r t u active kept above added = rw added (
  ground (arith, latest-deactivate r.owner r.skill_key none t.releases),
  ground (
    arith,
    latest-deactivate r.owner r.skill_key (some r.stage) t.releases,
    is_at-own r.stage r refl,
  ),
  above-max_version r.owner r.skill_key r.version t.releases (omega arith),
)

promote_with-IsPublished :
    (now new_id owner : ℕ) (stage : SkillReleaseStage) (mode : SkillReleaseMode) (source : Origin)
    (found : Result (SkillCandidate × Tables)) (t : Tables) {r : SkillRelease}
    → ((c : SkillCandidate) (u : Tables) → found ≡ ok (c, u) → u.releases ≡ t.releases)
    → (promote_with now new_id owner stage mode source found t).0 ≡ ok r
    → (r.owner ≡ owner)
      × IsPublished r t (promote_with now new_id owner stage mode source found t).1
unfolding promote_found
promote_with-IsPublished now new_id owner stage mode source (raise e) t same h = cc
promote_with-IsPublished now new_id owner stage mode source (ok (c, u)) t {r} same h =
    elim (Bool-cases (is_passed c.latest_pass)) [
      | inr failed ↦ absurd (ground arith)
      | inl passed ↦
          let kept : u.releases ≡ t.releases = same c u refl in
          let p : SkillRelease =
            promotion now new_id owner stage mode source c
              (max_version owner c.skill_key u.releases + 1) in
          let made : p ≡ r = ground arith in
          subst
            (λ x.
              (x.owner ≡ owner)
              × IsPublished x t (promote_found now new_id owner stage mode source c u).1)
            made
            (
              refl,
              add_release-IsPublished p t (promote_found now new_id owner stage mode source c u).1
                  refl refl (ap (λ rs. max_version owner c.skill_key rs + 1) kept)
                  (rw (passed, kept) refl),
            )
    ]

-- A promotion that returns a release: the release is the caller's, it is the active release of its
-- skill, asked for with its stage or with none, and its version is above those of all releases of
-- the skill before it.
pub promote-IsPublished :
    (now new_id owner candidate_id : ℕ) (stage : SkillReleaseStage) (mode : SkillReleaseMode)
    (source : Origin) (t : Tables) {r : SkillRelease}
    → (promote_candidate now new_id owner candidate_id stage mode source t).0 ≡ ok r
    → (r.owner ≡ owner)
      × IsPublished r t (promote_candidate now new_id owner candidate_id stage mode source t).1
unfolding promote_candidate
promote-IsPublished now new_id owner candidate_id stage mode source t h =
    promote_with-IsPublished now new_id owner stage mode source
      (get_candidate now owner candidate_id t) t
      (λ c u e. get_candidate-releases now owner candidate_id t e) h

end_rollback-IsPublished :
    (now : ℕ) (p : SkillRelease) (found : Result (SkillCandidate × Tables)) (t : Tables)
    {r : SkillRelease}
    → p.is_active ≡ true
    → p.is_deleted ≡ false
    → p.version ≡ max_version p.owner p.skill_key t.releases + 1
    → ((c : SkillCandidate) (u : Tables)
        → found ≡ ok (c, u)
        → u.releases ≡ p ∷ deactivate p.owner p.skill_key t.releases)
    → (end_rollback now p found t).0 ≡ ok r
    → (r.owner ≡ p.owner) × IsPublished r t (end_rollback now p found t).1
end_rollback-IsPublished now p (raise e) t active kept above added h = cc
end_rollback-IsPublished now p (ok (c, u)) t {r} active kept above added h =
    let made : p ≡ r = ground arith in
    subst (λ x. (x.owner ≡ p.owner) × IsPublished x t (end_rollback now p (ok (c, u)) t).1) made
      (
        refl,
        add_release-IsPublished p t (end_rollback now p (ok (c, u)) t).1 active kept above
            (added c u refl),
      )

rollback_to-IsPublished :
    (now new_id owner : ℕ) (mode : SkillReleaseMode) (current previous : SkillRelease) (t : Tables)
    {r : SkillRelease}
    → (rollback_to now new_id owner mode current previous t).0 ≡ ok r
    → (r.owner ≡ owner) × IsPublished r t (rollback_to now new_id owner mode current previous t).1
unfolding rollback_to
rollback_to-IsPublished now new_id owner mode current previous t h =
    let p : SkillRelease =
      rollback_of_to now new_id owner mode current previous
        (max_version owner current.skill_key t.releases + 1) in
    end_rollback-IsPublished now p (get_candidate now owner current.candidate_id (add_release p t))
      t refl refl refl
      (λ c u e. get_candidate-releases now owner current.candidate_id (add_release p t) e) h

rollback_previous-IsPublished :
    (now new_id owner : ℕ) (mode : SkillReleaseMode) (current : SkillRelease)
    (previous : Option SkillRelease) (t : Tables) {r : SkillRelease}
    → (rollback_previous now new_id owner mode current previous t).0 ≡ ok r
    → (r.owner ≡ owner)
      × IsPublished r t (rollback_previous now new_id owner mode current previous t).1
rollback_previous-IsPublished now new_id owner mode current none t h = cc
rollback_previous-IsPublished now new_id owner mode current (some previous) t h =
    rollback_to-IsPublished now new_id owner mode current previous t h

rollback_current-IsPublished :
    (now new_id owner : ℕ) (mode : SkillReleaseMode) (current : Option SkillRelease) (t : Tables)
    {r : SkillRelease}
    → (rollback_current now new_id owner mode current t).0 ≡ ok r
    → (r.owner ≡ owner) × IsPublished r t (rollback_current now new_id owner mode current t).1
rollback_current-IsPublished now new_id owner mode none t h = cc
rollback_current-IsPublished now new_id owner mode (some current) t h =
    rollback_previous-IsPublished now new_id owner mode current
      (latest (is_previous owner current) t.releases) t h

-- A rollback that returns a release: the release is the caller's, it is the active release of its
-- skill, asked for with its stage or with none, and its version is above those of all releases of
-- the skill before it.
pub rollback-IsPublished :
    (now new_id owner release_id : ℕ) (mode : SkillReleaseMode) (t : Tables) {r : SkillRelease}
    → (rollback_release now new_id owner release_id mode t).0 ≡ ok r
    → (r.owner ≡ owner) × IsPublished r t (rollback_release now new_id owner release_id mode t).1
unfolding rollback_release
rollback-IsPublished now new_id owner release_id mode t h =
    rollback_current-IsPublished now new_id owner mode
      (first (is_visible_release owner release_id) t.releases) t h
