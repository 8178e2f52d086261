-- ===== src/Learn/Kept.antt =====
-- What the learning of an execution keeps, on every path, the ones that raise included.
use mathlib.Core.Path.{subst}
use astrbot_shipyard_neo.Base.{
  ℕ, ◌+◌, ◌≡◌, refl, sym, Bool, true, false, not, Option, List, ◌∷◌, ◌||◌, Bool-cases, inl, inr,
  if◌then◌else◌,
}
use astrbot_shipyard_neo.World.Runtime.{Runtime, Result}
use astrbot_shipyard_neo.World.Effect.{World, for_each}
use astrbot_shipyard_neo.World.Keeps.{Keeps, >>=-Keeps, for_each-Keeps}
use astrbot_shipyard_neo.Path.Split.{Text, is_empty}
use astrbot_shipyard_neo.Texts.{is_space, strip}
use astrbot_shipyard_neo.Skills.Rows.{
  SkillReleaseStage, SkillReleaseMode, AutoReleaseReason, SkillCandidate, Report, Origin, Tables,
}
use astrbot_shipyard_neo.Skills.History.{ExecutionHistory}
use astrbot_shipyard_neo.Skills.Intake.{
  NewCandidate, no_ids, all_owned, draft_of, create_candidate, update_candidate_auto_release,
}
use astrbot_shipyard_neo.Skills.Review.{evaluate_candidate}
use astrbot_shipyard_neo.Skills.Service.{promote_candidate, rollback_release}
use astrbot_shipyard_neo.Skills.Blobs.{ArtifactBlob, Payload}
use astrbot_shipyard_neo.Learn.Steps.{Step}
use astrbot_shipyard_neo.Learn.Store.{
  BrowserLearningCycleResult, BrowserLearningConfig, Texts, Store, on_tables, reads, tally,
  store_payload, now, new_id,
}
use astrbot_shipyard_neo.Learn.Processor.{
  mark, release_canary, decide, store_segment, process_segment, extract_segments,
}

-- The operations of the skill service that a cycle leads to.
pub data CycleStep (enabled : Bool) : Tables → Tables → Type 0 where
  created :
      (t : Tables) (c : SkillCandidate)
      → CycleStep enabled t (record t { candidates = c ∷ t.candidates })
  evaluated :
      (t : Tables) (now new_id owner candidate_id : ℕ) (passed : Bool) (score : Option ℕ)
      (report : Option Report)
      → CycleStep enabled t
          (evaluate_candidate now new_id owner candidate_id passed score report t).1
  marked :
      (t : Tables) (now owner candidate_id : ℕ) (eligible : Bool) (reason : AutoReleaseReason)
      → CycleStep enabled t
          (update_candidate_auto_release now owner candidate_id eligible reason t).1
  canary_released :
      (t : Tables) (now new_id owner candidate_id : ℕ) (source : Origin)
      → enabled ≡ true
      → CycleStep enabled t
          (promote_candidate now new_id owner candidate_id SkillReleaseStage.canary
            SkillReleaseMode.auto source t).1
  stable_released :
      (t : Tables) (now new_id owner candidate_id : ℕ) (source : Origin)
      → enabled ≡ true
      → CycleStep enabled t
          (promote_candidate now new_id owner candidate_id SkillReleaseStage.stable
            SkillReleaseMode.auto source t).1
  rolled_back :
      (t : Tables) (now new_id owner release_id : ℕ)
      → CycleStep enabled t (rollback_release now new_id owner release_id SkillReleaseMode.auto t).1

-- How many executions a cycle has handled.
abbrev pub handled : BrowserLearningCycleResult → ℕ
handled r = r.processed_executions + (r.skipped_executions + r.errored_executions)

-- What holds of the store whatever a segment, or a canary, leads to.
pub record IsKept {O : Type 0} (enabled : Bool) (P : Store O → Type 0) : Type 0 where
  pub outer : (s : Store O) (o : O) → P s → P (record s { outside = o })
  pub blobs : (s : Store O) (bs : List ArtifactBlob) → P s → P (record s { blobs = bs })
  pub result :
      (s : Store O) (r : BrowserLearningCycleResult)
      → handled r ≡ handled s.result
      → P s
      → P (record s { result = r })
  pub tables :
      (s : Store O) (t : Tables) → CycleStep enabled s.tables t → P s → P (record s { tables = t })

module _ (rt : Runtime) (x : Texts) (config : BrowserLearningConfig) (enabled : Bool)
    (P : Store rt.Outside → Type 0) (k : IsKept enabled P) where
  abbrev I : World (Store rt.Outside) → Type 0
  I w = P w.outside

  pub now-Keeps : Keeps I (now rt)
  unfolding now
  now-Keeps w h = k.outer w.outside (rt.utcnow w.outside.outside).1 h

  pub new_id-Keeps : Keeps I (new_id rt)
  unfolding new_id
  new_id-Keeps w h = k.outer w.outside (rt.uuid w.outside.outside).1 h

  pub reads-Keeps : {A : Type 0} (f : Store rt.Outside → Result A) → Keeps I (reads f)
  unfolding reads
  reads-Keeps f w h = h

  store_payload-Keeps : (blob_id owner : ℕ) (p : Payload) → Keeps I (store_payload blob_id owner p)
  unfolding store_payload
  store_payload-Keeps blob_id owner p w h = k.blobs w.outside _ h

  pub tally-Keeps :
      (f : BrowserLearningCycleResult → BrowserLearningCycleResult)
      → ((r : BrowserLearningCycleResult) → handled (f r) ≡ handled r)
      → Keeps I (tally f)
  unfolding tally
  tally-Keeps f same w h = k.result w.outside (f w.outside.result) (same w.outside.result) h

  pub on_tables-Keeps :
      {A : Type 0} (f : Store rt.Outside → Result A × Tables)
      → ((s : Store rt.Outside) → P s → P (record s { tables = (f s).1 }))
      → Keeps I (on_tables f)
  unfolding on_tables
  on_tables-Keeps f keep w h = keep w.outside h

  mark-Keeps :
      (owner candidate_id : ℕ) (eligible : Bool) (reason : AutoReleaseReason)
      → Keeps I (mark rt x config enabled owner candidate_id eligible reason)
  mark-Keeps owner candidate_id eligible reason = >>=-Keeps I (now rt) _ now-Keeps (λ at.
      on_tables-Keeps _ (λ s. k.tables s _ (marked s.tables at owner candidate_id eligible reason)))

  create-Keeps :
      (at id : ℕ) (n : NewCandidate) (s : Store rt.Outside)
      → P s
      → P (record s { tables = (create_candidate x.number at id n s.history s.tables).1 })
  unfolding create_candidate
  create-Keeps at id n s h =
      elim (Bool-cases (
        is_empty (strip is_space n.skill_key)
        || (no_ids n.source_execution_ids
            || not (all_owned n.owner n.source_execution_ids s.history)))) [
              | inl refused ↦ rw refused h
              | inr taken ↦ rw taken (
                  k.tables s _
                    (created s.tables (draft_of at id (x.number (strip is_space n.skill_key)) n)) h)
            ]

  release_canary-Keeps :
      enabled ≡ true
      → (owner skill_key : ℕ) (c : SkillCandidate)
      → Keeps I (release_canary rt x config enabled owner skill_key c)
  unfolding release_canary
  release_canary-Keeps on owner skill_key c = >>=-Keeps I (reads _) _ (reads-Keeps _) (λ active.
      >>=-Keeps I (now rt) _ now-Keeps (λ ends. >>=-Keeps I (now rt) _ now-Keeps (λ at.
        >>=-Keeps I (new_id rt) _ new_id-Keeps (λ id.
          >>=-Keeps I (on_tables _) _
            (on_tables-Keeps _ (λ s. k.tables s _ (canary_released s.tables at id owner c.id _ on)))
            (λ release. >>=-Keeps I (tally _) _ (tally-Keeps _ (λ r. refl)) (λ _.
              >>=-Keeps I
                (mark rt x config enabled owner c.id true AutoReleaseReason.threshold_passed) _
                (mark-Keeps owner c.id true AutoReleaseReason.threshold_passed)
                (λ _. tally-Keeps _ (λ r. refl))))))))

  decide-Keeps :
      (owner skill_key : ℕ) (c : SkillCandidate) (passed : Bool)
      → Keeps I (decide rt x config enabled owner skill_key c passed)
  unfolding decide
  decide-Keeps owner skill_key c false =
      mark-Keeps owner c.id false AutoReleaseReason.threshold_not_met
  decide-Keeps owner skill_key c true = elim (Bool-cases enabled) [
    | inl on ↦
        subst
          (λ (b : Bool). Keeps I (
            if not b
            then mark rt x config enabled owner c.id false AutoReleaseReason.auto_release_disabled
            else release_canary rt x config enabled owner skill_key c))
          (sym on) (release_canary-Keeps on owner skill_key c)
    | inr off ↦
        subst
          (λ (b : Bool). Keeps I (
            if not b
            then mark rt x config enabled owner c.id false AutoReleaseReason.auto_release_disabled
            else release_canary rt x config enabled owner skill_key c))
          (sym off) (mark-Keeps owner c.id false AutoReleaseReason.auto_release_disabled)
  ]

  store_segment-Keeps :
      (entry : ExecutionHistory) (skill_key : Text) (segment : List Step)
      → Keeps I (store_segment rt x config enabled entry skill_key segment)
  unfolding store_segment
  store_segment-Keeps entry skill_key segment = >>=-Keeps I (new_id rt) _ new_id-Keeps (λ blob_id.
      >>=-Keeps I (store_payload blob_id entry.owner _) _
        (store_payload-Keeps blob_id entry.owner _)
        (λ _. >>=-Keeps I (now rt) _ now-Keeps (λ at. >>=-Keeps I (new_id rt) _ new_id-Keeps (λ id.
          >>=-Keeps I (on_tables _) _ (on_tables-Keeps _ (create-Keeps at id _))
            (λ c. >>=-Keeps I (tally _) _ (tally-Keeps _ (λ r. refl)) (λ _ w h. h))))))

  pub process_segment-Keeps :
      (entry : ExecutionHistory) (skill_key : Text) (segment : List Step)
      → Keeps I (process_segment rt x config enabled entry skill_key segment)
  unfolding process_segment
  process_segment-Keeps entry skill_key segment =
      >>=-Keeps I (store_segment rt x config enabled entry skill_key segment) _
        (store_segment-Keeps entry skill_key segment)
        (λ c. >>=-Keeps I (now rt) _ now-Keeps (λ at. >>=-Keeps I (new_id rt) _ new_id-Keeps (λ id.
          >>=-Keeps I (on_tables _) _
            (on_tables-Keeps _
              (λ s. k.tables s _ (evaluated s.tables at id entry.owner c.id _ _ _)))
            (λ _. decide-Keeps entry.owner (x.number skill_key) c _))))

  pub segments-Keeps :
      (entry : ExecutionHistory) (skill_key : Text) (segments : List (List Step))
      → Keeps I (for_each segments (process_segment rt x config enabled entry skill_key))
  segments-Keeps entry skill_key segments =
      for_each-Keeps I segments (process_segment rt x config enabled entry skill_key)
        (process_segment-Keeps entry skill_key)

  pub extract_segments-Keeps :
      (entry : ExecutionHistory) → Keeps I (extract_segments rt x config enabled entry)
  unfolding extract_segments
  extract_segments-Keeps entry = >>=-Keeps I (reads _) _ (reads-Keeps _) (λ _ w h. h)
