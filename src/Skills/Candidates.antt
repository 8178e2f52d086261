-- ===== src/Skills/Candidates.antt =====
-- Looking a candidate up leaves the releases as they are.
use astrbot_shipyard_neo.Base.{ℕ, ◌≡◌, refl, Option, none, some, arith, first}
use astrbot_shipyard_neo.World.Runtime.{ok}
use astrbot_shipyard_neo.Skills.Rows.{SkillCandidate, Tables}
use astrbot_shipyard_neo.Skills.Service.{
  is_visible_candidate, sanitize, sanitize_found, get_candidate,
}

sanitize-releases :
    (now : ℕ) (p : Option ℕ) (c : SkillCandidate) (t : Tables)
    → (sanitize now p c t).1.releases ≡ t.releases
unfolding sanitize
sanitize-releases now none c t = refl
sanitize-releases now (some k) c t = ground arith

found-releases :
    (now : ℕ) (found : Option SkillCandidate) (t : Tables) {c : SkillCandidate} {u : Tables}
    → sanitize_found now found t ≡ ok (c, u)
    → u.releases ≡ t.releases
found-releases now none t h = cc
found-releases now (some c) t {c = d} {u} h =
    let same : (sanitize now c.promotion_release_id c t).1 ≡ u = ground arith in
    rw (← same) (sanitize-releases now c.promotion_release_id c t)

pub get_candidate-releases :
    (now owner candidate_id : ℕ) (t : Tables) {c : SkillCandidate} {u : Tables}
    → get_candidate now owner candidate_id t ≡ ok (c, u)
    → u.releases ≡ t.releases
unfolding get_candidate
get_candidate-releases now owner candidate_id t {c} {u} h =
    found-releases now (first (is_visible_candidate owner candidate_id) t.candidates) t h
