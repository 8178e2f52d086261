-- ===== src/Learn/KeptCycle.antt =====
-- What a cycle keeps, on every path, the ones that raise included.
use mathlib.Core.Path.{subst}
use astrbot_shipyard_neo.Base.{
  ℕ, ◌≡◌, refl, sym, Bool, true, false, Option, none, List, [], ◌∷◌, ◌&&◌, Bool-cases, inl, inr,
}
use astrbot_shipyard_neo.World.Runtime.{Runtime, Error, Result, ok, raise}
use astrbot_shipyard_neo.World.Effect.{World, for_each, when}
use astrbot_shipyard_neo.World.Keeps.{Keeps, >>=-Keeps, catch-Keeps, for_each-Keeps, when-Keeps}
use astrbot_shipyard_neo.Skills.Rows.{SkillRelease}
use astrbot_shipyard_neo.Skills.History.{ExecutionHistory, LearnStatus}
use astrbot_shipyard_neo.Skills.Health.{ReleaseHealth}
use astrbot_shipyard_neo.Learn.Steps.{Step}
use astrbot_shipyard_neo.Learn.Store.{
  BrowserLearningCycleResult, BrowserLearningConfig, Texts, Store, on_tables, reads, tally, now,
  new_id, close_execution, history_to, on_history,
}
use astrbot_shipyard_neo.Learn.Processor.{
  extract_segments, learn_segments, process_execution, counted, record_error, learn_execution,
  roll_back, promote_stable, settle_canary, check_canary, process_auto_canary_lifecycle, run_cycle,
}
use astrbot_shipyard_neo.Learn.Kept.{
  IsKept, stable_released, rolled_back, now-Keeps, new_id-Keeps, reads-Keeps, tally-Keeps,
  on_tables-Keeps, extract_segments-Keeps, segments-Keeps,
}

module _ (rt : Runtime) (x : Texts) (config : BrowserLearningConfig) (enabled : Bool)
    (P : Store rt.Outside → Type 0) (k : IsKept enabled P) where
  abbrev I : World (Store rt.Outside) → Type 0
  I w = P w.outside

  roll_back-Keeps : (release : SkillRelease) → Keeps I (roll_back rt x config enabled release)
  unfolding roll_back
  roll_back-Keeps release = >>=-Keeps I (now rt) _ (now-Keeps rt x config enabled P k) (λ at.
      >>=-Keeps I (new_id rt) _ (new_id-Keeps rt x config enabled P k) (λ id.
        >>=-Keeps I (on_tables _) _
          (on_tables-Keeps rt x config enabled P k _
            (λ s. k.tables s _ (rolled_back s.tables at id release.owner release.id)))
          (λ _. tally-Keeps rt x config enabled P k _ (λ r. refl))))

  promote_stable-Keeps :
      enabled ≡ true
      → (release : SkillRelease) → Keeps I (promote_stable rt x config enabled release)
  unfolding promote_stable
  promote_stable-Keeps on release =
      >>=-Keeps I (now rt) _ (now-Keeps rt x config enabled P k) (λ at.
        >>=-Keeps I (new_id rt) _ (new_id-Keeps rt x config enabled P k) (λ id.
          >>=-Keeps I (on_tables _) _
            (on_tables-Keeps rt x config enabled P k _ (λ s.
              k.tables s _
                (stable_released s.tables at id release.owner release.candidate_id _ on)))
            (λ _. tally-Keeps rt x config enabled P k _ (λ r. refl))))

  when_stable-Keeps :
      (b : Bool) (release : SkillRelease)
      → Keeps I (when (enabled && b) (promote_stable rt x config enabled release))
  when_stable-Keeps b release = elim (Bool-cases enabled) [
    | inl on ↦
        when-Keeps I (enabled && b) (promote_stable rt x config enabled release)
          (promote_stable-Keeps on release)
    | inr off ↦
        subst (λ (c : Bool). Keeps I (when (c && b) (promote_stable rt x config enabled release)))
          (sym off) (λ w h. h)
  ]

  settle_canary-Keeps :
      (release : SkillRelease) (health : ReleaseHealth)
      → Keeps I (settle_canary rt x config enabled release health)
  unfolding settle_canary
  settle_canary-Keeps release health = elim (Bool-cases health.should_rollback) [
    | inl bad ↦ rw bad (roll_back-Keeps release)
    | inr fine ↦ rw fine (when_stable-Keeps (health.window_complete && health.healthy) release)
  ]

  check_canary-Keeps : (release : SkillRelease) → Keeps I (check_canary rt x config enabled release)
  unfolding check_canary
  check_canary-Keeps release = >>=-Keeps I (now rt) _ (now-Keeps rt x config enabled P k) (λ at.
      >>=-Keeps I (reads _) _ (reads-Keeps rt x config enabled P k _) (settle_canary-Keeps release))

  pub lifecycle-Keeps : Keeps I (process_auto_canary_lifecycle rt x config enabled)
  unfolding process_auto_canary_lifecycle
  lifecycle-Keeps =
      >>=-Keeps I (reads _) _ (reads-Keeps rt x config enabled P k _) (λ releases.
        for_each-Keeps I releases (check_canary rt x config enabled) check_canary-Keeps)

  -- What is kept also when the history and the counts change.
  module _
      (history : (s : Store rt.Outside) (rows : List ExecutionHistory)
        → P s
        → P (record s { history = rows }))
      (result : (s : Store rt.Outside) (r : BrowserLearningCycleResult)
        → P s
        → P (record s { result = r })) where
    on_history-Keeps :
        {A : Type 0} (f : List ExecutionHistory → Result (A × List ExecutionHistory))
        → Keeps I (on_history f)
    unfolding on_history
    on_history-Keeps {A} f w h = saved w.outside (f w.outside.history) h
      where
        saved :
            (s : Store rt.Outside) (r : Result (A × List ExecutionHistory))
            → P s
            → P (history_to s r).1
        saved s (raise e) h = h
        saved s (ok (a, rows)) h = history s rows h

    counts-Keeps : (f : BrowserLearningCycleResult → BrowserLearningCycleResult) → Keeps I (tally f)
    unfolding tally
    counts-Keeps f w h = result w.outside (f w.outside.result) h

    close-Keeps :
        (execution_id : ℕ) (status : LearnStatus) (problem : Option ℕ)
        → Keeps I (close_execution rt execution_id status problem)
    unfolding close_execution
    close-Keeps execution_id status problem =
        >>=-Keeps I (now rt) _ (now-Keeps rt x config enabled P k) (λ at. on_history-Keeps _)

    learn_segments-Keeps :
        (entry : ExecutionHistory) (segments : List (List Step))
        → Keeps I (learn_segments rt x config enabled entry segments)
    learn_segments-Keeps entry [] =
        >>=-Keeps I (close_execution rt entry.id LearnStatus.skipped _) _
          (close-Keeps entry.id LearnStatus.skipped _) (λ _ w h. h)
    learn_segments-Keeps entry (g ∷ gs) =
        >>=-Keeps I (for_each (g ∷ gs) _) _
          (segments-Keeps rt x config enabled P k entry _ (g ∷ gs))
          (λ _.
            >>=-Keeps I (close_execution rt entry.id LearnStatus.processed none) _
              (close-Keeps entry.id LearnStatus.processed none) (λ _ w h. h))

    counted-Keeps : (b : Bool) → Keeps I (counted rt x config enabled b)
    counted-Keeps true = counts-Keeps _
    counted-Keeps false = counts-Keeps _

    process_execution-Keeps :
        (entry : ExecutionHistory) → Keeps I (process_execution rt x config enabled entry)
    unfolding process_execution
    process_execution-Keeps entry =
        >>=-Keeps I (extract_segments rt x config enabled entry) _
          (extract_segments-Keeps rt x config enabled P k entry) (learn_segments-Keeps entry)

    record_error-Keeps :
        (entry : ExecutionHistory) (e : Error) → Keeps I (record_error rt x config enabled entry e)
    unfolding record_error
    record_error-Keeps entry e = >>=-Keeps I (tally _) _ (counts-Keeps _) (λ _.
        >>=-Keeps I (close_execution rt entry.id LearnStatus.error _) _
          (close-Keeps entry.id LearnStatus.error _) (λ _ w h. h))

    learn_execution-Keeps :
        (entry : ExecutionHistory) → Keeps I (learn_execution rt x config enabled entry)
    unfolding learn_execution
    learn_execution-Keeps entry = >>=-Keeps I (on_history _) _ (on_history-Keeps _) (λ _.
        catch-Keeps I _ _
          (>>=-Keeps I (process_execution rt x config enabled entry) _
            (process_execution-Keeps entry) counted-Keeps)
          (record_error-Keeps entry))

    pub run_cycle-Keeps : Keeps I (run_cycle rt x config enabled)
    unfolding run_cycle
    run_cycle-Keeps = >>=-Keeps I (reads _) _ (reads-Keeps rt x config enabled P k _) (λ pending.
        >>=-Keeps I (for_each pending (learn_execution rt x config enabled)) _
          (for_each-Keeps I pending (learn_execution rt x config enabled) learn_execution-Keeps)
          (λ _. lifecycle-Keeps))
