-- ===== src/Skills/Tests.antt =====
-- Tests and witnesses of the skill life cycle: two candidates of one skill, promoted one after the
-- other, and a rollback.
use astrbot_shipyard_neo.Base.{
  ℕ, ◌+◌, ◌≡◌, refl, true, false, none, some, [], ◌∷◌, is_some, pos, negsuc, count,
}
use astrbot_shipyard_neo.World.Runtime.{Error, ok, raise}
use astrbot_shipyard_neo.Skills.Rows.{
  SkillCandidate, SkillCandidateStatus, SkillRelease, SkillReleaseStage, SkillReleaseMode,
  SkillType, Origin, Tables, is_active_of,
}
use astrbot_shipyard_neo.Skills.Service.{
  promote_candidate, promote_found, get_candidate, sanitize, rollback_release, rollback_to,
  get_active_release, promotion,
}
use astrbot_shipyard_neo.Skills.History.{
  ExecutionType, ExecutionHistory, NewExecution, create_execution,
}
use astrbot_shipyard_neo.Skills.Listing.{list_pending_browser_learning_executions}
use astrbot_shipyard_neo.Skills.Review.{delete_candidate}
use astrbot_shipyard_neo.Skills.Versions.{IsPublished, rollback-IsPublished}
use astrbot_shipyard_neo.Skills.Active.{is_version}
use astrbot_shipyard_neo.Skills.Publication
use astrbot_shipyard_neo.Skills.Publication.{
  Draft, Shared, begun, set_draft, numbered, listed, commit, promotion_numbered, actives_read,
  committed,
}
use astrbot_shipyard_neo.Skills.Overlap.{IsBounded, Reachable-IsBounded}

abbrev candidate : ℕ → SkillCandidate
candidate id = record {
  id = id;
  owner = 7;
  skill_key = 4;
  scenario_key = none;
  skill_type = SkillType.code;
  status = SkillCandidateStatus.evaluating;
  auto_release_eligible = false;
  auto_release_reason = none;
  is_deleted = false;
  created_at = 0;
  updated_at = 0;
  latest_score = none;
  latest_pass = some true;
  last_evaluated_at = some 0;
  promotion_release_id = none;
  deleted_at = none;
}

abbrev unnamed : Origin
unnamed = record { auto_promoted_from = none; health_window_end_at = none }

abbrev nothing : Tables
nothing = record { candidates = []; evaluations = []; releases = [] }

abbrev one : Tables
one = record nothing { candidates = candidate 1 ∷ [] }

abbrev two : Tables
two = record nothing { candidates = candidate 2 ∷ candidate 1 ∷ [] }

abbrev promote : ℕ → ℕ → Tables → Tables
promote now candidate_id t =
    (promote_candidate now (now + 1000) 7 candidate_id SkillReleaseStage.stable
      SkillReleaseMode.manual unnamed t).1

abbrev both : Tables
both = promote 20 2 (promote 10 1 two)

abbrev second_release : SkillRelease
second_release =
    promotion 20 1020 7 SkillReleaseStage.stable SkillReleaseMode.manual unnamed (candidate 2) 2

returns_second :
    (promote_candidate 20 1020 7 2 SkillReleaseStage.stable SkillReleaseMode.manual unnamed
      (promote 10 1 two)).0
    ≡ ok second_release
unfolding promote_candidate promote_found get_candidate sanitize
returns_second = refl

abbrev rolled : Tables
rolled = (rollback_release 30 1030 7 1020 SkillReleaseMode.manual both).1

abbrev third_release : SkillRelease
third_release =
    record (promotion 30 1030 7 SkillReleaseStage.stable SkillReleaseMode.manual unnamed
      (candidate 1) 3) { rollback_of = some 1020 }

returns_third : (rollback_release 30 1030 7 1020 SkillReleaseMode.manual both).0 ≡ ok third_release
unfolding promote_candidate promote_found get_candidate sanitize rollback_release rollback_to
returns_third = refl

rollback-IsPublished_example : (third_release.owner ≡ 7) × IsPublished third_release both rolled
rollback-IsPublished_example =
    rollback-IsPublished 30 1030 7 1020 SkillReleaseMode.manual both returns_third

abbrev first_row : SkillRelease
first_row =
    promotion 10 1010 7 SkillReleaseStage.stable SkillReleaseMode.manual unnamed (candidate 1) 1

abbrev second_row : SkillRelease
second_row =
    promotion 20 1020 7 SkillReleaseStage.stable SkillReleaseMode.manual unnamed (candidate 2) 1

abbrev late_draft : Draft
late_draft = record (listed [] (numbered second_row)) { stale = true }

-- Two promotions of the two candidates, whose statements overlap.
abbrev first_numbered : Shared
first_numbered = record begun { drafts = set_draft 1 (some (numbered first_row)) begun.drafts }

abbrev both_numbered : Shared
both_numbered = record first_numbered {
  drafts = set_draft 2 (some (numbered second_row)) first_numbered.drafts;
}

abbrev first_read : Shared
first_read = record both_numbered {
  drafts = set_draft 1 (some (listed [] (numbered first_row))) both_numbered.drafts;
}

abbrev both_read : Shared
both_read = record first_read {
  drafts = set_draft 2 (some (listed [] (numbered second_row))) first_read.drafts;
}

abbrev first_committed : Shared
first_committed = commit 1 (listed [] (numbered first_row)) [] both_read

abbrev both_committed : Shared
both_committed = commit 2 late_draft [] first_committed

both_committed-Reachable : Publication.Reachable both_committed
unfolding commit
both_committed-Reachable =
    Publication.next
      (Publication.next
        (Publication.next
          (Publication.next
            (Publication.next
              (Publication.next Publication.start (
                promotion_numbered begun 1 10 1010 7 SkillReleaseStage.stable
                  SkillReleaseMode.manual unnamed (candidate 1)))
              (promotion_numbered first_numbered 2 20 1020 7 SkillReleaseStage.stable
                SkillReleaseMode.manual unnamed (candidate 2)))
            (actives_read both_numbered 1 (numbered first_row) refl))
          (actives_read first_read 2 (numbered second_row) refl))
        (committed both_read 1 (listed [] (numbered first_row)) [] refl refl))
      (committed first_committed 2 late_draft [] refl refl)

-- Both are active, with the same version.
both_active :
    (count (is_active_of 7 4) both_committed.releases ≡ 2)
    × (count (is_version 7 4 1) both_committed.releases ≡ 2)
unfolding commit
both_active = (refl, refl)

Reachable-IsBounded_example : IsBounded both_committed
Reachable-IsBounded_example = Reachable-IsBounded both_committed both_committed-Reachable

-- The first candidate has no active release, so it can be deleted, and a rollback then makes a release
-- of it the active one.
revives_deleted :
    is_some (
      get_active_release 7 4 none
        (rollback_release 30 1030 7 1020 SkillReleaseMode.manual
          (delete_candidate 25 7 1 both).1).1)
    ≡ true
unfolding promote_candidate promote_found get_candidate sanitize rollback_release rollback_to
    delete_candidate get_active_release
revives_deleted = refl

-- A browser run that is to be learned from, with a negative time.
abbrev seen : NewExecution
seen = record {
  owner = 7;
  sandbox_id = 1;
  session_id = none;
  exec_type = ExecutionType.browser;
  code = [];
  success = true;
  execution_time_ms = negsuc 4;
  payload_ref = none;
  description = none;
  tags = none;
  learn_enabled = true;
  learn_status = none;
  learn_error = none;
  learn_processed_at = none;
}

abbrev row : ExecutionHistory
row = (create_execution 100 30 seen []).0

is_pending_at_first : list_pending_browser_learning_executions (pos 50) (row ∷ []) ≡ ok (row ∷ [])
unfolding list_pending_browser_learning_executions create_execution
is_pending_at_first = refl

is_refused : list_pending_browser_learning_executions (pos 501) (row ∷ []) ≡ raise Error.validation
unfolding list_pending_browser_learning_executions
is_refused = refl
