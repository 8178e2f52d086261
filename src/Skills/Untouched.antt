-- ===== src/Skills/Untouched.antt =====
-- What leaves the releases as they are.
use astrbot_shipyard_neo.Base.{ℕ, ◌≡◌, refl, Bool, Option}
use astrbot_shipyard_neo.World.Runtime.{Result, ok, raise}
use astrbot_shipyard_neo.Skills.Rows.{AutoReleaseReason, SkillCandidate, Report, Tables}
use astrbot_shipyard_neo.Skills.Review.{evaluate_with}
use astrbot_shipyard_neo.Skills.Intake.{mark_found}

pub evaluate_with-releases :
    (now new_id owner : ℕ) (passed : Bool) (score : Option ℕ) (report : Option Report)
    (found : Result (SkillCandidate × Tables)) (t : Tables)
    → ((c : SkillCandidate) (u : Tables) → found ≡ ok (c, u) → u.releases ≡ t.releases)
    → (evaluate_with now new_id owner passed score report found t).1.releases ≡ t.releases
evaluate_with-releases now new_id owner passed score report (raise e) t same = refl
evaluate_with-releases now new_id owner passed score report (ok (c, u)) t same = same c u refl

pub mark_found-releases :
    (now : ℕ) (eligible : Bool) (reason : AutoReleaseReason)
    (found : Result (SkillCandidate × Tables)) (t : Tables)
    → ((c : SkillCandidate) (u : Tables) → found ≡ ok (c, u) → u.releases ≡ t.releases)
    → (mark_found now eligible reason found t).1.releases ≡ t.releases
mark_found-releases now eligible reason (raise e) t same = refl
mark_found-releases now eligible reason (ok (c, u)) t same = same c u refl
