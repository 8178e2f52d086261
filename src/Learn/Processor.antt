-- ===== src/Learn/Processor.antt =====
-- `BrowserLearningProcessor`: one cycle over the pending executions and the automatic canaries.
use astrbot_shipyard_neo.Base.{
  ℕ, ◌+◌, ◌-◌, ◌*◌, Bool, true, false, not, Option, none, some, List, [], ◌∷◌, ◌&&◌, leb,
  if◌then◌else◌, map, pos,
}
use astrbot_shipyard_neo.Model.{seconds}
use astrbot_shipyard_neo.World.Runtime.{Runtime, Error, ok}
use astrbot_shipyard_neo.World.Effect.{M, pure, ◌>>=◌, ◌>>◌, for_each, catch, when}
use astrbot_shipyard_neo.Path.Split.{Text}
use astrbot_shipyard_neo.Texts.{codes}
use astrbot_shipyard_neo.Skills.Rows.{
  SkillType, SkillReleaseStage, SkillReleaseMode, AutoReleaseReason, SkillCandidate, SkillRelease,
  Report, fields,
}
use astrbot_shipyard_neo.Skills.History.{
  ExecutionHistory, LearnStatus, set_execution_learning_status,
}
use astrbot_shipyard_neo.Skills.Listing.{list_pending_browser_learning_executions}
use astrbot_shipyard_neo.Skills.Blobs.{integer, text, RawStep, Payload, object, get_payload_by_ref}
use astrbot_shipyard_neo.Skills.Intake.{
  create_candidate, update_candidate_auto_release, list_active_auto_canary_releases,
}
use astrbot_shipyard_neo.Skills.Review.{evaluate_candidate}
use astrbot_shipyard_neo.Skills.Service.{promote_candidate, rollback_release, get_active_release}
use astrbot_shipyard_neo.Skills.Health.{ReleaseHealth, get_release_health}
use astrbot_shipyard_neo.Learn.Steps.{Step, normalize_steps}
use astrbot_shipyard_neo.Learn.Segments.{Metrics, segments_of, score_segment}
use astrbot_shipyard_neo.Learn.Keys.{derive_skill_key, derive_scenario_key}
use astrbot_shipyard_neo.Learn.Store.{
  auto_promote_canary, auto_rollback, auto_promote_stable, BrowserLearningConfig, Texts, Store,
  on_tables, on_history, reads, tally, store_payload, now, new_id, close_execution,
}

-- The payload of a segment, as it is stored.
abbrev raw_of : Step → Option RawStep
raw_of s = some (record {
  cmd = some (text s.cmd);
  exit_code = some (integer s.exit_code);
  kind = some (text s.kind);
})

abbrev segment_payload : List Step → Payload
segment_payload segment =
    object (some (map raw_of segment)) (record { cmd = none; exit_code = none; kind = none })

abbrev hundredths : ℕ → ℕ → Report
hundredths replay_success samples =
    fields (some (record { num = pos replay_success; den = 100 }))
      (some (record { num = pos (100 - replay_success); den = 100 })) (some (pos samples))
      (some (pos 0))

unfoldable pub is_passing : BrowserLearningConfig → Metrics → Bool
is_passing config m =
    leb config.score_threshold m.score
    && (leb config.replay_success_threshold m.replay_success && leb config.min_samples m.samples)

abbrev id_of : Option SkillRelease → Option ℕ
id_of none = none
id_of (some r) = some r.id

module _ (rt : Runtime) (x : Texts) (config : BrowserLearningConfig)
    (auto_release_enabled : Bool) where
  abbrev pub L : Type 0 → Type 0
  L A = M (Store rt.Outside) A

  -- `update_candidate_auto_release`
  abbrev pub mark : ℕ → ℕ → Bool → AutoReleaseReason → L (Unit {0})
  mark owner candidate_id eligible reason = do
    at ← now rt
    on_tables (λ s. update_candidate_auto_release at owner candidate_id eligible reason s.tables)

  -- A segment that passed, with automatic releases: it becomes the canary of its skill.
  unfoldable pub release_canary : ℕ → ℕ → SkillCandidate → L (Unit {0})
  release_canary owner skill_key candidate = do
    active ← reads (λ s. ok (get_active_release owner skill_key none s.tables))
    ends ← now rt
    at ← now rt
    id ← new_id rt
    release ← on_tables (λ s.
        promote_candidate at id owner candidate.id SkillReleaseStage.canary SkillReleaseMode.auto
          (record {
            auto_promoted_from = id_of active;
            health_window_end_at = some (ends + seconds (config.canary_window_hours * 3600));
          })
          s.tables)
    tally (λ r. record r { promoted_canary = r.promoted_canary + 1 })
    mark owner candidate.id true AutoReleaseReason.threshold_passed
    tally (λ r. record r { audit_events = auto_promote_canary release.id ∷ r.audit_events })

  -- What follows the evaluation of a segment.
  unfoldable pub decide : ℕ → ℕ → SkillCandidate → Bool → L (Unit {0})
  unfolding release_canary
  decide owner skill_key candidate passed =
      if not passed
      then mark owner candidate.id false AutoReleaseReason.threshold_not_met
      else if not auto_release_enabled
      then mark owner candidate.id false AutoReleaseReason.auto_release_disabled
      else release_canary owner skill_key candidate

  unfoldable pub store_segment : ExecutionHistory → Text → List Step → L SkillCandidate
  unfolding derive_scenario_key
  store_segment entry skill_key segment = do
    blob_id ← new_id rt
    stored ← store_payload blob_id entry.owner (segment_payload segment)
    at ← now rt
    id ← new_id rt
    candidate ← on_tables (λ s.
        create_candidate x.number at id
          (record {
            owner = entry.owner;
            skill_key = skill_key;
            scenario_key = derive_scenario_key entry;
            source_execution_ids = entry.id ∷ [];
            skill_type = SkillType.browser;
            auto_release_eligible = false;
            auto_release_reason = some AutoReleaseReason.pending_evaluation;
          })
          s.history s.tables)
    tally (λ r. record r { created_candidates = r.created_candidates + 1 })
    pure candidate

  -- The body of the loop over the segments.
  unfoldable pub process_segment : ExecutionHistory → Text → List Step → L (Unit {0})
  unfolding store_segment is_passing score_segment decide
  process_segment entry skill_key segment = do
    candidate ← store_segment entry skill_key segment
    at ← now rt
    id ← new_id rt
    on_tables (λ s.
        evaluate_candidate at id entry.owner candidate.id
          (is_passing config (score_segment segment)) (some (score_segment segment).score)
          (some (hundredths (score_segment segment).replay_success (score_segment segment).samples))
          s.tables)
    decide entry.owner (x.number skill_key) candidate (is_passing config (score_segment segment))

  unfoldable pub extract_segments : ExecutionHistory → L (List (List Step))
  unfolding get_payload_by_ref normalize_steps segments_of
  extract_segments entry = do
    trace ← reads (λ s. get_payload_by_ref entry.owner entry.payload_ref s.blobs)
    pure (segments_of (normalize_steps x.conversions entry trace))

  abbrev pub learn_segments : ExecutionHistory → List (List Step) → L Bool
  learn_segments entry [] = do
    closed ←
        close_execution rt entry.id LearnStatus.skipped
          (some (x.number (codes "no_actionable_segments")))
    pure false
  learn_segments entry (g ∷ gs) = do
    for_each (g ∷ gs) (process_segment entry (derive_skill_key x.id_text entry))
    closed ← close_execution rt entry.id LearnStatus.processed none
    pure true

  unfoldable pub process_execution : ExecutionHistory → L Bool
  unfolding extract_segments process_segment derive_skill_key close_execution for_each
  process_execution entry = do segments ← extract_segments entry; learn_segments entry segments

  abbrev pub counted : Bool → L (Unit {0})
  counted true = tally (λ r. record r { processed_executions = r.processed_executions + 1 })
  counted false = tally (λ r. record r { skipped_executions = r.skipped_executions + 1 })

  -- The handler of an exception in the processing of an execution.
  unfoldable pub record_error : ExecutionHistory → Error → L (Unit {0})
  unfolding close_execution
  record_error entry e = do
    tally (λ r. record r { errored_executions = r.errored_executions + 1 })
    closed ← close_execution rt entry.id LearnStatus.error (some (x.number (x.message e)))
    pure tt

  -- The body of the loop over the pending executions.
  unfoldable pub learn_execution : ExecutionHistory → L (Unit {0})
  unfolding process_execution record_error
  learn_execution entry = do
    opened ← on_history (set_execution_learning_status entry.id LearnStatus.processing none none)
    catch (process_execution entry >>= counted) (record_error entry)

  unfoldable pub roll_back : SkillRelease → L (Unit {0})
  roll_back release = do
    at ← now rt
    id ← new_id rt
    rolled ←
        on_tables
          (λ s. rollback_release at id release.owner release.id SkillReleaseMode.auto s.tables)
    tally (λ r. record r {
      rolled_back = r.rolled_back + 1;
      audit_events = auto_rollback release.id ∷ r.audit_events;
    })

  unfoldable pub promote_stable : SkillRelease → L (Unit {0})
  promote_stable release = do
    at ← now rt
    id ← new_id rt
    stable ← on_tables (λ s.
        promote_candidate at id release.owner release.candidate_id SkillReleaseStage.stable
          SkillReleaseMode.auto
          (record { auto_promoted_from = some release.id; health_window_end_at = none }) s.tables)
    tally (λ r. record r {
      promoted_stable = r.promoted_stable + 1;
      audit_events = auto_promote_stable stable.id ∷ r.audit_events;
    })

  -- The body of the loop over the canaries, given the health of the release.
  unfoldable pub settle_canary : SkillRelease → ReleaseHealth → L (Unit {0})
  unfolding roll_back promote_stable
  settle_canary release health =
      if health.should_rollback
      then roll_back release
      else when (auto_release_enabled && (health.window_complete && health.healthy))
          (promote_stable release)

  unfoldable pub check_canary : SkillRelease → L (Unit {0})
  unfolding settle_canary
  check_canary release = do
    at ← now rt
    health ← reads (λ s.
        get_release_health x.tagged at release.owner release.id config.thresholds s.history
          s.tables)
    settle_canary release health

  unfoldable pub process_auto_canary_lifecycle : L (Unit {0})
  unfolding check_canary for_each
  process_auto_canary_lifecycle = do
    releases ← reads (λ s. ok (list_active_auto_canary_releases 200 s.tables))
    for_each releases check_canary

  unfoldable pub run_cycle : L (Unit {0})
  unfolding learn_execution process_auto_canary_lifecycle for_each
  run_cycle = do
    pending ← reads (λ s. list_pending_browser_learning_executions config.batch_size s.history)
    for_each pending learn_execution
    process_auto_canary_lifecycle
