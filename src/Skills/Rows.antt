-- ===== src/Skills/Rows.antt =====
-- The candidates, their evaluations and the releases, and what an evaluation's report says. Texts that
-- the service only stores are left out, and a text that it compares is a number.
use astrbot_shipyard_neo.Base.{
  ℕ, Bool, true, false, not, Option, none, some, List, [], ◌∷◌, ◌==◌, ◌&&◌, ltb, max, if◌then◌else◌,
  ℤ,
}
use astrbot_shipyard_neo.Path.Split.{Text}

pub data SkillCandidateStatus : Type 0 where
  draft evaluating promoted promoted_canary promoted_stable rejected rolled_back :
      SkillCandidateStatus

pub data SkillReleaseStage : Type 0 where
  canary stable : SkillReleaseStage

abbrev pub is_canary : SkillReleaseStage → Bool
is_canary SkillReleaseStage.canary = true
is_canary SkillReleaseStage.stable = false

pub data SkillType : Type 0 where
  code browser : SkillType

pub data SkillReleaseMode : Type 0 where
  manual auto : SkillReleaseMode

-- The reasons that the learning scheduler gives.
pub data AutoReleaseReason : Type 0 where
  pending_evaluation threshold_not_met auto_release_disabled threshold_passed : AutoReleaseReason

pub record SkillCandidate : Type 0 where
  pub id : ℕ
  pub owner : ℕ
  pub skill_key : ℕ
  pub scenario_key : Option Text
  pub skill_type : SkillType
  pub status : SkillCandidateStatus
  pub auto_release_eligible : Bool
  pub auto_release_reason : Option AutoReleaseReason
  pub is_deleted : Bool
  pub created_at : ℕ
  pub updated_at : ℕ
  pub latest_score : Option ℕ
  pub latest_pass : Option Bool
  pub last_evaluated_at : Option ℕ
  pub promotion_release_id : Option ℕ
  pub deleted_at : Option ℕ

-- A number of a report, as a fraction with a positive denominator.
pub record Ratio : Type 0 where
  pub num : ℤ
  pub den : ℕ

-- The JSON text of an evaluation's report: one that does not parse, one whose fields are not read (it is
-- no object, or a field is no number), or its fields.
pub data Report : Type 0 where
  unreadable faulty : Report
  fields :
      (replay_success : Option Ratio) (error_rate : Option Ratio) (samples : Option ℤ)
      (p95_duration : Option ℤ)
      → Report

pub record SkillEvaluation : Type 0 where
  pub id : ℕ
  pub owner : ℕ
  pub candidate_id : ℕ
  pub score : Option ℕ
  pub passed : Bool
  pub report : Option Report
  pub created_at : ℕ

-- Where a promotion comes from: the release that it supersedes, and the end of the window in which its
-- health is watched. A caller may leave both out.
pub record Origin : Type 0 where
  pub auto_promoted_from : Option ℕ
  pub health_window_end_at : Option ℕ

pub record SkillRelease : Type 0 where
  pub id : ℕ
  pub owner : ℕ
  pub skill_key : ℕ
  pub candidate_id : ℕ
  pub version : ℕ
  pub stage : SkillReleaseStage
  pub is_active : Bool
  pub is_deleted : Bool
  pub release_mode : SkillReleaseMode
  pub promoted_at : ℕ
  pub rollback_of : Option ℕ
  pub auto_promoted_from : Option ℕ
  pub health_window_end_at : Option ℕ
  pub deleted_at : Option ℕ

pub record Tables : Type 0 where
  pub candidates : List SkillCandidate
  pub evaluations : List SkillEvaluation
  pub releases : List SkillRelease

-- `SkillRelease.owner == owner, SkillRelease.skill_key == skill_key`
abbrev pub is_of : ℕ → ℕ → SkillRelease → Bool
is_of owner skill_key r = (r.owner == owner) && (r.skill_key == skill_key)

-- `SkillRelease.is_active.is_(True), SkillRelease.is_deleted.is_(False)`
abbrev pub is_live : SkillRelease → Bool
is_live r = r.is_active && not r.is_deleted

abbrev pub is_active_of : ℕ → ℕ → SkillRelease → Bool
is_active_of owner skill_key r = is_of owner skill_key r && is_live r

-- `select(func.max(SkillRelease.version))`, and 0 for no row
abbrev pub max_version : ℕ → ℕ → List SkillRelease → ℕ
max_version owner skill_key [] = 0
max_version owner skill_key (r ∷ rs) =
    if is_of owner skill_key r
    then max r.version (max_version owner skill_key rs)
    else max_version owner skill_key rs

-- `ORDER BY version DESC LIMIT 1`
abbrev pub later : SkillRelease → Option SkillRelease → Option SkillRelease
later r none = some r
later r (some s) = if ltb r.version s.version then some s else some r

abbrev pub latest : (SkillRelease → Bool) → List SkillRelease → Option SkillRelease
latest test [] = none
latest test (r ∷ rs) = if test r then later r (latest test rs) else latest test rs
