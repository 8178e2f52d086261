-- ===== src/Skills/Service.antt =====
-- `SkillLifecycleService`: promotion and rollback, of a call that runs alone: what raises is rolled
-- back. Skills.Publication has the statements of calls that overlap. `now` is the clock and `new_id` the
-- `uuid4` of the call.
use astrbot_shipyard_neo.Base.{
  ℕ, ◌+◌, Bool, true, false, not, Option, none, some, List, ◌∷◌, ◌==◌, ◌&&◌, ltb, if◌then◌else◌,
  is_some, first, update,
}
use astrbot_shipyard_neo.World.Runtime.{Error, Result, ok, raise}
use astrbot_shipyard_neo.Skills.Rows.{
  SkillCandidateStatus, SkillReleaseStage, SkillType, SkillReleaseMode, SkillCandidate,
  SkillRelease, Origin, Tables, is_canary, is_of, is_active_of, max_version, latest,
}

abbrev pub write_candidate : ℕ → (SkillCandidate → SkillCandidate) → Tables → Tables
write_candidate k f t = record t { candidates = update (λ c. c.id == k) f t.candidates }

abbrev pub is_visible_release : ℕ → ℕ → SkillRelease → Bool
is_visible_release owner release_id r =
    (r.id == release_id) && ((r.owner == owner) && not r.is_deleted)

abbrev pub is_visible_candidate : ℕ → ℕ → SkillCandidate → Bool
is_visible_candidate owner candidate_id c =
    (c.id == candidate_id) && ((c.owner == owner) && not c.is_deleted)

-- `_sanitize_candidate_promotion_pointer`, given the pointer: the candidate and the tables after it.
unfoldable pub sanitize : ℕ → Option ℕ → SkillCandidate → Tables → SkillCandidate × Tables
sanitize now none c t = (c, t)
sanitize now (some release_id) c t =
    if is_some (first (is_visible_release c.owner release_id) t.releases) then (c, t) else (
      record c { promotion_release_id = none; updated_at = now },
      write_candidate c.id (λ d. record d { promotion_release_id = none; updated_at = now }) t,
    )

abbrev pub sanitize_found : ℕ → Option SkillCandidate → Tables → Result (SkillCandidate × Tables)
sanitize_found now none t = raise Error.not_found
sanitize_found now (some c) t = ok (sanitize now c.promotion_release_id c t)

-- `get_candidate`
unfoldable pub get_candidate : ℕ → ℕ → ℕ → Tables → Result (SkillCandidate × Tables)
unfolding sanitize
get_candidate now owner candidate_id t =
    sanitize_found now (first (is_visible_candidate owner candidate_id) t.candidates) t

-- `for release in active_result.scalars().all(): release.is_active = False`
abbrev pub deactivate : ℕ → ℕ → List SkillRelease → List SkillRelease
deactivate owner skill_key rs =
    update (is_active_of owner skill_key) (λ r. record r { is_active = false }) rs

abbrev pub promoted_status : SkillType → SkillReleaseMode → SkillReleaseStage → SkillCandidateStatus
promoted_status SkillType.browser SkillReleaseMode.auto SkillReleaseStage.canary =
    SkillCandidateStatus.promoted_canary
promoted_status SkillType.browser SkillReleaseMode.auto SkillReleaseStage.stable =
    SkillCandidateStatus.promoted_stable
promoted_status _ _ _ = SkillCandidateStatus.promoted

abbrev pub is_passed : Option Bool → Bool
is_passed (some true) = true
is_passed _ = false

-- The release that `promote_candidate` adds.
abbrev pub promotion :
    ℕ → ℕ → ℕ → SkillReleaseStage → SkillReleaseMode → Origin → SkillCandidate → ℕ → SkillRelease
promotion now new_id owner stage mode source c version = record {
  id = new_id;
  owner = owner;
  skill_key = c.skill_key;
  candidate_id = c.id;
  version = version;
  stage = stage;
  is_active = true;
  is_deleted = false;
  release_mode = mode;
  promoted_at = now;
  rollback_of = none;
  auto_promoted_from = source.auto_promoted_from;
  health_window_end_at = source.health_window_end_at;
  deleted_at = none;
}

-- Adds a release as the only active one of its skill.
abbrev pub add_release : SkillRelease → Tables → Tables
add_release r t = record t { releases = r ∷ deactivate r.owner r.skill_key t.releases }

-- The result, and the tables that are committed: on a raise the ones that `get_candidate` left.
unfoldable pub promote_found :
    ℕ
    → ℕ
    → ℕ
    → SkillReleaseStage
    → SkillReleaseMode
    → Origin
    → SkillCandidate
    → Tables
    → Result SkillRelease × Tables
promote_found now new_id owner stage mode source c t =
    if not (is_passed c.latest_pass)
    then (raise Error.conflict, t)
    else let r : SkillRelease =
        promotion now new_id owner stage mode source c
          (max_version owner c.skill_key t.releases + 1) in
      (
        ok r,
        write_candidate c.id
            (λ d. record d {
              status = promoted_status c.skill_type mode stage;
              updated_at = now;
              promotion_release_id = some new_id;
            })
            (add_release r t),
      )

abbrev pub promote_with :
    ℕ
    → ℕ
    → ℕ
    → SkillReleaseStage
    → SkillReleaseMode
    → Origin
    → Result (SkillCandidate × Tables)
    → Tables
    → Result SkillRelease × Tables
promote_with now new_id owner stage mode source (raise e) t = (raise e, t)
promote_with now new_id owner stage mode source (ok (c, u)) t =
    promote_found now new_id owner stage mode source c u

unfoldable pub promote_candidate :
    ℕ
    → ℕ
    → ℕ
    → ℕ
    → SkillReleaseStage
    → SkillReleaseMode
    → Origin
    → Tables
    → Result SkillRelease × Tables
unfolding get_candidate promote_found
promote_candidate now new_id owner candidate_id stage mode source t =
    promote_with now new_id owner stage mode source (get_candidate now owner candidate_id t) t

-- `query.where(SkillRelease.stage == stage)`, if a stage is given
abbrev pub is_at : Option SkillReleaseStage → SkillRelease → Bool
is_at none r = true
is_at (some SkillReleaseStage.canary) r = is_canary r.stage
is_at (some SkillReleaseStage.stable) r = not (is_canary r.stage)

unfoldable pub get_active_release : ℕ → ℕ → Option SkillReleaseStage → Tables → Option SkillRelease
get_active_release owner skill_key stage t =
    latest (λ r. is_active_of owner skill_key r && is_at stage r) t.releases

abbrev pub is_previous : ℕ → SkillRelease → SkillRelease → Bool
is_previous owner current r =
    is_of owner current.skill_key r && (ltb r.version current.version && not r.is_deleted)

-- `current.id if release_mode == SkillReleaseMode.AUTO else None`
abbrev auto_source : SkillReleaseMode → ℕ → Option ℕ
auto_source SkillReleaseMode.auto k = some k
auto_source SkillReleaseMode.manual k = none

abbrev pub rollback_of_to :
    ℕ → ℕ → ℕ → SkillReleaseMode → SkillRelease → SkillRelease → ℕ → SkillRelease
rollback_of_to now new_id owner mode current previous version = record {
  id = new_id;
  owner = owner;
  skill_key = current.skill_key;
  candidate_id = previous.candidate_id;
  version = version;
  stage = previous.stage;
  is_active = true;
  is_deleted = false;
  release_mode = mode;
  promoted_at = now;
  rollback_of = some current.id;
  auto_promoted_from = auto_source mode current.id;
  health_window_end_at = none;
  deleted_at = none;
}

-- The end of `rollback_release`: a candidate that is not found rolls the new release back.
abbrev pub end_rollback :
    ℕ → SkillRelease → Result (SkillCandidate × Tables) → Tables → Result SkillRelease × Tables
end_rollback now r (raise e) t = (raise e, t)
end_rollback now r (ok (c, u)) t = (
  ok r,
  write_candidate c.id
      (λ d. record d { status = SkillCandidateStatus.rolled_back; updated_at = now }) u,
)

unfoldable pub rollback_to :
    ℕ
    → ℕ
    → ℕ
    → SkillReleaseMode
    → SkillRelease
    → SkillRelease
    → Tables
    → Result SkillRelease × Tables
unfolding get_candidate
rollback_to now new_id owner mode current previous t =
    let r : SkillRelease =
      rollback_of_to now new_id owner mode current previous
        (max_version owner current.skill_key t.releases + 1) in
    end_rollback now r (get_candidate now owner current.candidate_id (add_release r t)) t

abbrev pub rollback_previous :
    ℕ
    → ℕ
    → ℕ
    → SkillReleaseMode
    → SkillRelease
    → Option SkillRelease
    → Tables
    → Result SkillRelease × Tables
rollback_previous now new_id owner mode current none t = (raise Error.conflict, t)
rollback_previous now new_id owner mode current (some previous) t =
    rollback_to now new_id owner mode current previous t

abbrev pub rollback_current :
    ℕ → ℕ → ℕ → SkillReleaseMode → Option SkillRelease → Tables → Result SkillRelease × Tables
rollback_current now new_id owner mode none t = (raise Error.not_found, t)
rollback_current now new_id owner mode (some current) t =
    rollback_previous now new_id owner mode current (latest (is_previous owner current) t.releases)
      t

unfoldable pub rollback_release :
    ℕ → ℕ → ℕ → ℕ → SkillReleaseMode → Tables → Result SkillRelease × Tables
unfolding rollback_to
rollback_release now new_id owner release_id mode t =
    rollback_current now new_id owner mode (first (is_visible_release owner release_id) t.releases)
      t
