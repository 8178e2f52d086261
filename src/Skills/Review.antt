-- ===== src/Skills/Review.antt =====
-- `SkillLifecycleService`: the evaluation of candidates, and the deletion of releases and candidates.
use astrbot_shipyard_neo.Base.{
  ℕ, Bool, true, false, not, Option, none, some, List, ◌∷◌, ◌==◌, ◌&&◌, if◌then◌else◌, is_some,
  is_none, is_id, first, update,
}
use astrbot_shipyard_neo.World.Runtime.{Error, Result, ok, raise}
use astrbot_shipyard_neo.Skills.Rows.{
  SkillCandidateStatus, SkillCandidate, SkillRelease, Report, Tables,
}
use astrbot_shipyard_neo.Skills.Service.{
  write_candidate, is_visible_release, is_visible_candidate, get_candidate,
}

-- `candidate.promotion_release_id = None` for each candidate of the owner that points to the release
abbrev pub unlink : ℕ → ℕ → ℕ → List SkillCandidate → List SkillCandidate
unlink now owner release_id cs =
    update (λ c. (c.owner == owner) && is_id c.promotion_release_id release_id)
      (λ c. record c { promotion_release_id = none; updated_at = now }) cs

abbrev pub as_deleted : ℕ → SkillRelease → SkillRelease
as_deleted now r = record r { is_active = false; is_deleted = true; deleted_at = some now }

unfoldable pub delete_release : ℕ → ℕ → ℕ → Tables → Result (Unit {0}) × Tables
delete_release now owner release_id t =
    if is_some (first (is_visible_release owner release_id) t.releases)
    then (
      ok tt,
      record t {
        candidates = unlink now owner release_id t.candidates;
        releases = update (λ r. r.id == release_id) (as_deleted now) t.releases;
      },
    )
    else (raise Error.not_found, t)

-- `SkillRelease.candidate_id == candidate_id`, active and not deleted
abbrev pub is_active_for : ℕ → ℕ → SkillRelease → Bool
is_active_for owner candidate_id r =
    (r.owner == owner) && ((r.candidate_id == candidate_id) && (r.is_active && not r.is_deleted))

unfoldable pub delete_candidate : ℕ → ℕ → ℕ → Tables → Result (Unit {0}) × Tables
delete_candidate now owner candidate_id t =
    if is_none (first (is_visible_candidate owner candidate_id) t.candidates)
    then (raise Error.not_found, t)
    else if is_some (first (is_active_for owner candidate_id) t.releases)
    then (raise Error.conflict, t)
    else (
      ok tt,
      write_candidate candidate_id (λ c. record c { is_deleted = true; deleted_at = some now }) t,
    )

abbrev evaluated : ℕ → Option ℕ → Bool → SkillCandidate → SkillCandidate
evaluated now score passed c = record c {
  status = if passed then SkillCandidateStatus.evaluating else SkillCandidateStatus.rejected;
  latest_score = score;
  latest_pass = some passed;
  last_evaluated_at = some now;
  updated_at = now;
}

abbrev pub evaluate_with :
    ℕ
    → ℕ
    → ℕ
    → Bool
    → Option ℕ
    → Option Report
    → Result (SkillCandidate × Tables)
    → Tables
    → Result (Unit {0}) × Tables
evaluate_with now new_id owner passed score report (raise e) t = (raise e, t)
evaluate_with now new_id owner passed score report (ok (c, u)) t = (
  ok tt,
  write_candidate c.id (evaluated now score passed) (record u {
    evaluations =
        record {
          id = new_id;
          owner = owner;
          candidate_id = c.id;
          score = score;
          passed = passed;
          report = report;
          created_at = now;
        }
        ∷ u.evaluations;
  }),
)

unfoldable pub evaluate_candidate :
    ℕ → ℕ → ℕ → ℕ → Bool → Option ℕ → Option Report → Tables → Result (Unit {0}) × Tables
unfolding get_candidate
evaluate_candidate now new_id owner candidate_id passed score report t =
    evaluate_with now new_id owner passed score report (get_candidate now owner candidate_id t) t
