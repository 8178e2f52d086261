-- ===== src/Skills/Intake.antt =====
-- `SkillLifecycleService`: making and listing candidates, and listing releases. A skill's key is a text
-- when it comes in, and is stored as the number that stands for it.
use astrbot_shipyard_neo.Base.{
  ℕ, Bool, true, false, not, Option, none, some, List, [], ◌∷◌, ◌==◌, ◌&&◌, ◌||◌, if◌then◌else◌,
  first, is_none, select, length, limit_rows, skip_rows, order_by, order_by_desc, ℤ,
}
use astrbot_shipyard_neo.World.Runtime.{Error, Result, ok, raise}
use astrbot_shipyard_neo.Path.Split.{Text, is_empty}
use astrbot_shipyard_neo.Texts.{is_space, strip}
use astrbot_shipyard_neo.Skills.Rows.{
  SkillCandidateStatus, SkillReleaseStage, SkillReleaseMode, SkillType, AutoReleaseReason,
  SkillCandidate, SkillEvaluation, SkillRelease, Tables, is_canary, is_live,
}
use astrbot_shipyard_neo.Skills.History.{ExecutionHistory, is_execution}
use astrbot_shipyard_neo.Skills.Listing.{valid_limit, valid_offset}
use astrbot_shipyard_neo.Skills.Service.{write_candidate, sanitize, get_candidate, is_at}

pub record NewCandidate : Type 0 where
  pub owner : ℕ
  pub skill_key : Text
  pub scenario_key : Option Text
  pub source_execution_ids : List ℕ
  pub skill_type : SkillType
  pub auto_release_eligible : Bool
  pub auto_release_reason : Option AutoReleaseReason

-- `_assert_execution_owned` for every id
abbrev pub all_owned : ℕ → List ℕ → List ExecutionHistory → Bool
all_owned owner [] rows = true
all_owned owner (k ∷ ks) rows =
    not (is_none (first (is_execution owner k) rows)) && all_owned owner ks rows

abbrev pub no_ids : List ℕ → Bool
no_ids [] = true
no_ids (k ∷ ks) = false

abbrev pub draft_of : ℕ → ℕ → ℕ → NewCandidate → SkillCandidate
draft_of now new_id skill_key n = record {
  id = new_id;
  owner = n.owner;
  skill_key = skill_key;
  scenario_key = n.scenario_key;
  skill_type = n.skill_type;
  status = SkillCandidateStatus.draft;
  auto_release_eligible = n.auto_release_eligible;
  auto_release_reason = n.auto_release_reason;
  is_deleted = false;
  created_at = now;
  updated_at = now;
  latest_score = none;
  latest_pass = none;
  last_evaluated_at = none;
  promotion_release_id = none;
  deleted_at = none;
}

unfoldable pub create_candidate :
    (Text → ℕ)
    → ℕ
    → ℕ
    → NewCandidate
    → List ExecutionHistory
    → Tables
    → Result SkillCandidate × Tables
unfolding strip is_space
create_candidate number now new_id n rows t =
    if is_empty (strip is_space n.skill_key)
      || (no_ids n.source_execution_ids || not (all_owned n.owner n.source_execution_ids rows))
    then (raise Error.validation, t)
    else let c : SkillCandidate = draft_of now new_id (number (strip is_space n.skill_key)) n in
      (ok c, record t { candidates = c ∷ t.candidates })

abbrev marked : ℕ → Bool → AutoReleaseReason → SkillCandidate → SkillCandidate
marked now eligible reason c = record c {
  auto_release_eligible = eligible;
  auto_release_reason = some reason;
  updated_at = now;
}

abbrev pub mark_found :
    ℕ
    → Bool
    → AutoReleaseReason
    → Result (SkillCandidate × Tables)
    → Tables
    → Result (Unit {0}) × Tables
mark_found now eligible reason (raise e) t = (raise e, t)
mark_found now eligible reason (ok (c, u)) t =
    (ok tt, write_candidate c.id (marked now eligible reason) u)

unfoldable pub update_candidate_auto_release :
    ℕ → ℕ → ℕ → Bool → AutoReleaseReason → Tables → Result (Unit {0}) × Tables
unfolding get_candidate
update_candidate_auto_release now owner candidate_id eligible reason t =
    mark_found now eligible reason (get_candidate now owner candidate_id t) t

abbrev same_status : SkillCandidateStatus → SkillCandidateStatus → Bool
same_status SkillCandidateStatus.draft SkillCandidateStatus.draft = true
same_status SkillCandidateStatus.evaluating SkillCandidateStatus.evaluating = true
same_status SkillCandidateStatus.promoted SkillCandidateStatus.promoted = true
same_status SkillCandidateStatus.promoted_canary SkillCandidateStatus.promoted_canary = true
same_status SkillCandidateStatus.promoted_stable SkillCandidateStatus.promoted_stable = true
same_status SkillCandidateStatus.rejected SkillCandidateStatus.rejected = true
same_status SkillCandidateStatus.rolled_back SkillCandidateStatus.rolled_back = true
same_status _ _ = false

abbrev has_status : Option SkillCandidateStatus → SkillCandidate → Bool
has_status none c = true
has_status (some s) c = same_status c.status s

abbrev pub has_key : Option ℕ → ℕ → Bool
has_key none k = true
has_key (some j) k = k == j

-- The promotion pointers of the candidates that are listed.
abbrev sanitize_all : ℕ → List SkillCandidate → Tables → List SkillCandidate × Tables
sanitize_all now [] t = ([], t)
sanitize_all now (c ∷ cs) t =
    let (c', u) = sanitize now c.promotion_release_id c t in
    let (cs', v) = sanitize_all now cs u in (c' ∷ cs', v)

abbrev with_total : ℕ → List SkillCandidate × Tables → Result (List SkillCandidate × ℕ) × Tables
with_total total (cs, t) = (ok (cs, total), t)

abbrev list_found :
    ℕ
    → List SkillCandidate
    → Option ℕ
    → Option ℕ
    → Tables
    → Result (List SkillCandidate × ℕ) × Tables
list_found now found (some limit) (some offset) t = with_total (length found) (
    sanitize_all now (limit_rows limit (skip_rows offset (order_by_desc (λ c. c.created_at) found)))
      t)
list_found now found _ _ t = (raise Error.validation, t)

unfoldable pub list_candidates :
    ℕ
    → ℕ
    → Option SkillCandidateStatus
    → Option ℕ
    → ℤ
    → ℤ
    → Tables
    → Result (List SkillCandidate × ℕ) × Tables
unfolding sanitize
list_candidates now owner status skill_key limit offset t =
    list_found now
      (select
        (λ c.
          (c.owner == owner)
          && (not c.is_deleted && (has_status status c && has_key skill_key c.skill_key)))
        t.candidates)
      (valid_limit limit) (valid_offset offset) t

abbrev page_of_releases : List SkillRelease → Option ℕ → Option ℕ → Result (List SkillRelease × ℕ)
page_of_releases found (some limit) (some offset) =
    ok
      (limit_rows limit (skip_rows offset (order_by_desc (λ r. r.promoted_at) found)), length found)
page_of_releases found _ _ = raise Error.validation

unfoldable pub list_releases :
    ℕ → Option ℕ → Bool → Option SkillReleaseStage → ℤ → ℤ → Tables → Result (List SkillRelease × ℕ)
list_releases owner skill_key active_only stage limit offset t =
    page_of_releases
      (select
        (λ r.
          (r.owner == owner)
          && (not r.is_deleted
              && (has_key skill_key r.skill_key
                  && ((not active_only || r.is_active) && is_at stage r))))
        t.releases)
      (valid_limit limit) (valid_offset offset)

abbrev is_auto : SkillReleaseMode → Bool
is_auto SkillReleaseMode.auto = true
is_auto SkillReleaseMode.manual = false

abbrev pub is_auto_canary : SkillRelease → Bool
is_auto_canary r = is_canary r.stage && (is_live r && is_auto r.release_mode)

unfoldable pub list_active_auto_canary_releases : ℕ → Tables → List SkillRelease
list_active_auto_canary_releases limit t =
    limit_rows limit (order_by (λ r. r.promoted_at) (select is_auto_canary t.releases))

abbrev first_of : List SkillEvaluation → Option SkillEvaluation
first_of [] = none
first_of (e ∷ es) = some e

unfoldable pub get_latest_evaluation : ℕ → ℕ → Tables → Option SkillEvaluation
get_latest_evaluation owner candidate_id t = first_of (
    order_by_desc (λ e. e.created_at)
      (select (λ e. (e.owner == owner) && (e.candidate_id == candidate_id)) t.evaluations))
