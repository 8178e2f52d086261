-- ===== src/Learn/Cycle.antt =====
-- What a cycle does to the releases.
use astrbot_shipyard_neo.Base.{
  ℕ, ◌+◌, ◌≡◌, refl, ap, ◌∙◌, Bool, false, Option, none, some, List, [], ◌∷◌, arith, is_none, first,
  count,
}
use astrbot_shipyard_neo.World.Runtime.{Runtime, Result, ok, raise}
use astrbot_shipyard_neo.World.Effect.{World}
use astrbot_shipyard_neo.Skills.Rows.{
  SkillReleaseMode, SkillCandidate, SkillRelease, Tables, max_version, latest,
}
use astrbot_shipyard_neo.Skills.Service.{
  is_visible_release, is_previous, get_candidate, deactivate, rollback_of_to, add_release,
  end_rollback, rollback_to, rollback_previous, rollback_current, rollback_release,
}
use astrbot_shipyard_neo.Skills.Candidates.{get_candidate-releases}
use astrbot_shipyard_neo.Skills.Untouched.{evaluate_with-releases, mark_found-releases}
use astrbot_shipyard_neo.Skills.Intake.{update_candidate_auto_release}
use astrbot_shipyard_neo.Skills.Review.{evaluate_candidate}
use astrbot_shipyard_neo.Learn.Store.{BrowserLearningConfig, Texts, Store}
use astrbot_shipyard_neo.Learn.Processor.{run_cycle}
use astrbot_shipyard_neo.Learn.Kept.{
  CycleStep, created, evaluated, marked, canary_released, stable_released, rolled_back,
}
use astrbot_shipyard_neo.Learn.KeptCycle.{run_cycle-Keeps}

-- A release that is no rollback.
abbrev pub is_original : SkillRelease → Bool
is_original r = is_none r.rollback_of

originals-deactivate :
    (owner skill_key : ℕ) (rs : List SkillRelease)
    → count is_original (deactivate owner skill_key rs) ≡ count is_original rs
originals-deactivate owner skill_key [] = refl
originals-deactivate owner skill_key (r ∷ rs) =
    ground (arith, originals-deactivate owner skill_key rs)

end_rollback-originals :
    (now : ℕ) (p : SkillRelease) (found : Result (SkillCandidate × Tables)) (t : Tables)
    → is_original p ≡ false
    → ((c : SkillCandidate) (u : Tables)
        → found ≡ ok (c, u)
        → u.releases ≡ p ∷ deactivate p.owner p.skill_key t.releases)
    → count is_original (end_rollback now p found t).1.releases ≡ count is_original t.releases
end_rollback-originals now p (raise e) t no_original added = refl
end_rollback-originals now p (ok (c, u)) t no_original added =
    ap (λ rs. count is_original rs) (added c u refl)
    ∙ rw no_original (omega (arith, originals-deactivate p.owner p.skill_key t.releases))

rollback_to-originals :
    (now new_id owner : ℕ) (mode : SkillReleaseMode) (current previous : SkillRelease) (t : Tables)
    → count is_original (rollback_to now new_id owner mode current previous t).1.releases
      ≡ count is_original t.releases
unfolding rollback_to
rollback_to-originals now new_id owner mode current previous t =
    let p : SkillRelease =
      rollback_of_to now new_id owner mode current previous
        (max_version owner current.skill_key t.releases + 1) in
    end_rollback-originals now p (get_candidate now owner current.candidate_id (add_release p t)) t
      refl (λ c u e. get_candidate-releases now owner current.candidate_id (add_release p t) e)

rollback-originals :
    (now new_id owner release_id : ℕ) (mode : SkillReleaseMode) (t : Tables)
    → count is_original (rollback_release now new_id owner release_id mode t).1.releases
      ≡ count is_original t.releases
unfolding rollback_release
rollback-originals now new_id owner release_id mode t =
    from_current (first (is_visible_release owner release_id) t.releases)
  where
    from_previous :
        (current : SkillRelease) (previous : Option SkillRelease)
        → count is_original (rollback_previous now new_id owner mode current previous t).1.releases
          ≡ count is_original t.releases
    from_previous current none = refl
    from_previous current (some p) = rollback_to-originals now new_id owner mode current p t

    from_current :
        (current : Option SkillRelease)
        → count is_original (rollback_current now new_id owner mode current t).1.releases
          ≡ count is_original t.releases
    from_current none = refl
    from_current (some c) = from_previous c (latest (is_previous owner c) t.releases)

step-originals :
    (t u : Tables)
    → CycleStep false t u
    → count is_original u.releases ≡ count is_original t.releases
unfolding evaluate_candidate update_candidate_auto_release
step-originals _ _ (created t c) = refl
step-originals _ _ (evaluated t now new_id owner candidate_id passed score report) =
    ap (λ rs. count is_original rs)
      (evaluate_with-releases now new_id owner passed score report
        (get_candidate now owner candidate_id t) t
        (λ c u e. get_candidate-releases now owner candidate_id t e))
step-originals _ _ (marked t now owner candidate_id eligible reason) =
    ap (λ rs. count is_original rs)
      (mark_found-releases now eligible reason (get_candidate now owner candidate_id t) t
        (λ c u e. get_candidate-releases now owner candidate_id t e))
step-originals _ _ (canary_released t now new_id owner candidate_id source on) = cc
step-originals _ _ (stable_released t now new_id owner candidate_id source on) = cc
step-originals _ _ (rolled_back t now new_id owner release_id) =
    rollback-originals now new_id owner release_id SkillReleaseMode.auto t

-- With automatic releases off, a cycle publishes nothing but rollbacks: on every path there are as many
-- releases that are no rollback afterwards as before.
pub run_cycle-originals :
    (rt : Runtime) (x : Texts) (config : BrowserLearningConfig) (w : World (Store rt.Outside))
    → count is_original (run_cycle rt x config false w).1.outside.tables.releases
      ≡ count is_original w.outside.tables.releases
run_cycle-originals rt x config w =
    run_cycle-Keeps rt x config false
      (λ s. count is_original s.tables.releases ≡ count is_original w.outside.tables.releases)
      (record {
        outer = λ s o h. h;
        blobs = λ s bs h. h;
        result = λ s r same h. h;
        tables = λ s t step h. step-originals s.tables t step ∙ h;
      })
      (λ s rows h. h) (λ s r h. h) w refl
