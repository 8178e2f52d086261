-- ===== src/Learn/Settled.antt =====
-- Every execution that a cycle takes up is settled, and counted once.
use mathlib.Core.Path.{subst}
use astrbot_shipyard_neo.Base.{
  ℕ, ◌+◌, ◌≡◌, refl, sym, Bool, List, [], ◌∷◌, arith, inl, inr, ◌⊎◌, All, length,
}
use astrbot_shipyard_neo.World.Runtime.{Runtime, Result, ok, raise}
use astrbot_shipyard_neo.World.Effect.{World, M, ◌>>◌, for_each, proceed}
use astrbot_shipyard_neo.World.Post.{Post, bind-Post, Post-elim}
use astrbot_shipyard_neo.Skills.History.{ExecutionHistory}
use astrbot_shipyard_neo.Skills.Listing.{list_pending_browser_learning_executions}
use astrbot_shipyard_neo.Learn.Store.{BrowserLearningConfig, Texts, Store, reads}
use astrbot_shipyard_neo.Learn.Processor.{learn_execution, process_auto_canary_lifecycle, run_cycle}
use astrbot_shipyard_neo.Learn.KeptCycle.{lifecycle-Keeps}
use astrbot_shipyard_neo.Learn.Kept.{handled}
use astrbot_shipyard_neo.Learn.Closed.{Settled}
use astrbot_shipyard_neo.Learn.Outcome.{Stays, Stays-IsKept}
use astrbot_shipyard_neo.Learn.Final.{Final, learn_execution-Final}

module _ (rt : Runtime) where
  module _ (x : Texts) (config : BrowserLearningConfig) (enabled : Bool) where
    -- What the learning of a list of executions leaves when it returns.
    abbrev pub AllSettled :
        (pending : List ExecutionHistory) (n : ℕ) {A : Type 0}
        → Result A
        → World (Store rt.Outside)
        → Type 0
    AllSettled pending n (raise e) w = Unit
    AllSettled pending n (ok a) w =
        (handled w.outside.result ≡ n + length pending)
        × All (λ e. Settled e.id w.outside.history) pending

    abbrev Carried :
        (pending : List ExecutionHistory) (n : ℕ) (rows : List ExecutionHistory) {A : Type 0}
        → Result A
        → World (Store rt.Outside)
        → Type 0
    Carried pending n rows (raise e) w = Unit
    Carried pending n rows (ok a) w =
        (handled w.outside.result ≡ n + length pending)
        × All (λ e. Settled e.id w.outside.history) pending
        × ((j : ℕ) → Settled j rows → Settled j w.outside.history)

    carry :
        (entry : ExecutionHistory) (rest : List ExecutionHistory) (n : ℕ)
        (w w1 : World (Store rt.Outside))
        → ((j : ℕ) → (entry.id ≡ j) ⊎ Settled j w.outside.history → Settled j w1.outside.history)
        → (r : Result (Unit {0})) (w2 : World (Store rt.Outside))
        → Carried rest (n + 1) w1.outside.history r w2
        → Carried (entry ∷ rest) n w.outside.history r w2
    carry entry rest n w w1 keep (raise e) w2 h = tt
    carry entry rest n w w1 keep (ok a) w2 h = (
      omega (arith, h.0),
      (h.2 entry.id (keep entry.id (inl refl)), h.1),
      λ j s. h.2 j (keep j (inr s)),
    )

    executions-Carried :
        (pending : List ExecutionHistory) (n : ℕ) (w : World (Store rt.Outside))
        → handled w.outside.result ≡ n
        → Post
            (Carried pending n w.outside.history)
            (for_each pending (learn_execution rt x config enabled) w)
    unfolding for_each
    executions-Carried [] n w count = (omega (arith, count), tt, λ j h. h)
    executions-Carried (entry ∷ rest) n w count =
        let final = learn_execution-Final rt x config enabled entry n w count in
        let w1 : World (Store rt.Outside) = (learn_execution rt x config enabled entry w).1 in
        bind-Post (Carried (entry ∷ rest) n w.outside.history)
          (learn_execution rt x config enabled entry) _ w
          (λ a done.
            let one = Post-elim (Final rt entry.id n w.outside.history) _ final done in
            carry entry rest n w w1 one.1 _ _ (executions-Carried rest (n + 1) w1 one.0))
          (λ err failed. tt)

    settled_of :
        (pending : List ExecutionHistory) (n : ℕ) (rows : List ExecutionHistory)
        (r : Result (Unit {0})) (w : World (Store rt.Outside))
        → Carried pending n rows r w
        → AllSettled pending n r w
    settled_of pending n rows (raise e) w h = tt
    settled_of pending n rows (ok a) w h = (h.0, h.1)

    -- The canaries come after, and change neither the history nor the counts.
    lifecycle-AllSettled :
        (pending : List ExecutionHistory) (n : ℕ) (w : World (Store rt.Outside))
        → AllSettled pending n (ok tt) w
        → Post (AllSettled pending n) (process_auto_canary_lifecycle rt x config enabled w)
    lifecycle-AllSettled pending n w h =
        let rows : List ExecutionHistory = w.outside.history in
        let stays =
          lifecycle-Keeps rt x config enabled (Stays rt (n + length pending) rows)
            (Stays-IsKept rt enabled (n + length pending) rows) w (h.0, refl) in
        with_result (process_auto_canary_lifecycle rt x config enabled w) stays.0 stays.1
      where
        with_result :
            (r : Result (Unit {0}) × World (Store rt.Outside))
            → handled r.1.outside.result ≡ n + length pending
            → r.1.outside.history ≡ w.outside.history
            → Post (AllSettled pending n) r
        with_result (raise e, w') count same = tt
        with_result (ok a, w') count same =
            (count, subst (λ rows. All (λ e. Settled e.id rows) pending) (sym same) h.1)

    learned-AllSettled :
        (pending : List ExecutionHistory) (n : ℕ) (w : World (Store rt.Outside))
        → handled w.outside.result ≡ n
        → Post (AllSettled pending n) (
            (for_each pending (learn_execution rt x config enabled)
                >> process_auto_canary_lifecycle rt x config enabled)
              w)
    learned-AllSettled pending n w count =
        let carried = executions-Carried pending n w count in
        bind-Post (AllSettled pending n) (for_each pending (learn_execution rt x config enabled)) _
          w
          (λ a done.
            lifecycle-AllSettled pending n
              (for_each pending (learn_execution rt x config enabled) w).1
              (settled_of pending n w.outside.history (ok tt)
                (for_each pending (learn_execution rt x config enabled) w).1
                (Post-elim (Carried pending n w.outside.history) _ carried done)))
          (λ err failed. tt)

    abbrev rest_of_cycle : List ExecutionHistory → M (Store rt.Outside) (Unit {0})
    rest_of_cycle pending =
        for_each pending (learn_execution rt x config enabled)
        >> process_auto_canary_lifecycle rt x config enabled

    after_listing :
        (listed : Result (List ExecutionHistory)) (w : World (Store rt.Outside))
        → (proceed rest_of_cycle (listed, w)).0 ≡ ok tt
        → (pending : List ExecutionHistory) × (listed ≡ ok pending)
          × (handled (proceed rest_of_cycle (listed, w)).1.outside.result
              ≡ handled w.outside.result + length pending)
          × All (λ e. Settled e.id (proceed rest_of_cycle (listed, w)).1.outside.history) pending
    after_listing (raise e) w returned = cc
    after_listing (ok pending) w returned =
        let n : ℕ = handled w.outside.result in
        let all =
          Post-elim (AllSettled pending n) (rest_of_cycle pending w)
            (learned-AllSettled pending n w refl) returned in
        (pending, refl, all.0, all.1)

    -- A cycle that returns: the listing of the pending executions has returned, each listed execution is
    -- counted once (as processed, as skipped, or with its error), and no row of a listed execution is
    -- left pending or in work.
    pub run_cycle-AllSettled :
        (w : World (Store rt.Outside))
        → (run_cycle rt x config enabled w).0 ≡ ok tt
        → (pending : List ExecutionHistory) × (list_pending_browser_learning_executions
              config.batch_size w.outside.history
            ≡ ok pending)
          × (handled (run_cycle rt x config enabled w).1.outside.result
              ≡ handled w.outside.result + length pending)
          × All (λ e. Settled e.id (run_cycle rt x config enabled w).1.outside.history) pending
    unfolding run_cycle reads
    run_cycle-AllSettled w returned =
        after_listing (list_pending_browser_learning_executions config.batch_size w.outside.history)
          w returned
