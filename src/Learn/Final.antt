-- ===== src/Learn/Final.antt =====
-- What the body of the loop of `run_cycle` leaves of one execution, its handler of errors included.
use mathlib.Core.Path.{subst}
use astrbot_shipyard_neo.Base.{
  ℕ, ◌+◌, ◌≡◌, refl, Bool, true, false, none, some, List, ◌==◌, arith, Bool-cases, inl, inr, ◌⊎◌,
  ==→≡,
}
use astrbot_shipyard_neo.World.Runtime.{Runtime, Error, Result, ok, raise}
use astrbot_shipyard_neo.World.Effect.{World, M, ◌>>=◌, catch}
use astrbot_shipyard_neo.World.Post.{Post, bind-Post, catch-Post, Post-elim}
use astrbot_shipyard_neo.Skills.History.{
  ExecutionHistory, LearnStatus, set_execution_learning_status,
}
use astrbot_shipyard_neo.Learn.Store.{
  BrowserLearningConfig, Texts, Store, on_history, tally, close_execution,
}
use astrbot_shipyard_neo.Learn.Processor.{process_execution, counted, record_error, learn_execution}
use astrbot_shipyard_neo.Learn.Kept.{handled}
use astrbot_shipyard_neo.Learn.Closed.{Settled, Framed, set-cases, mark_row-Framed}
use astrbot_shipyard_neo.Learn.Outcome.{
  Out, Stays, on_history-Post, close-Out, process_execution-Out,
}

module _ (rt : Runtime) where
  -- What the loop's body leaves when it returns: one more is counted, and its row is settled.
  abbrev pub Final :
      (k n : ℕ) (rows : List ExecutionHistory) {A : Type 0}
      → Result A
      → World (Store rt.Outside)
      → Type 0
  Final k n rows (raise e) w = Unit
  Final k n rows (ok a) w =
      (handled w.outside.result ≡ n + 1)
      × ((j : ℕ) → (k ≡ j) ⊎ Settled j rows → Settled j w.outside.history)

  -- The same, with what an exception leaves to its handler.
  abbrev Middle :
      (k n : ℕ) (rows : List ExecutionHistory) {A : Type 0}
      → Result A
      → World (Store rt.Outside)
      → Type 0
  Middle k n rows (raise e) w = (handled w.outside.result ≡ n) × Framed k rows w.outside.history
  Middle k n rows (ok a) w =
      (handled w.outside.result ≡ n + 1)
      × ((j : ℕ) → (k ≡ j) ⊎ Settled j rows → Settled j w.outside.history)

  Settled-or :
      (k n : ℕ) (rows : List ExecutionHistory) (w : World (Store rt.Outside))
      → Settled k w.outside.history
      → Framed k rows w.outside.history
      → (j : ℕ) → (k ≡ j) ⊎ Settled j rows
      → Settled j w.outside.history
  Settled-or k n rows w own framed j (inl e) = subst (λ i. Settled i w.outside.history) e own
  Settled-or k n rows w own framed j (inr h) = elim (Bool-cases (k == j)) [
    | inl hit ↦ subst (λ i. Settled i w.outside.history) (==→≡ k j hit) own
    | inr miss ↦ framed j miss h
  ]

  module _ (x : Texts) (config : BrowserLearningConfig) (enabled : Bool) where
    counted-Middle :
        (k n : ℕ) (rows : List ExecutionHistory) (b : Bool) (w : World (Store rt.Outside))
        → Out rt k n rows (ok b) w
        → Post (Middle k n rows) (counted rt x config enabled b w)
    unfolding tally
    counted-Middle k n rows true w (count, own, framed) =
        (omega (arith, count), Settled-or k n rows w own framed)
    counted-Middle k n rows false w (count, own, framed) =
        (omega (arith, count), Settled-or k n rows w own framed)

    record_error-Final :
        (entry : ExecutionHistory) (e : Error) (n : ℕ) (rows : List ExecutionHistory)
        (w : World (Store rt.Outside))
        → handled w.outside.result ≡ n
        → Framed entry.id rows w.outside.history
        → Post (Final entry.id n rows) (record_error rt x config enabled entry e w)
    unfolding record_error tally
    record_error-Final entry e n rows w count framed =
        let w' : World (Store rt.Outside) = record w {
          outside = record w.outside {
            result = record w.outside.result {
              errored_executions = w.outside.result.errored_executions + 1;
            };
          };
        } in
        let failed =
          close_execution rt entry.id LearnStatus.error (some (x.number (x.message e))) in
        let out =
          close-Out rt entry.id LearnStatus.error (some (x.number (x.message e))) (n + 1) rows w'
            refl (omega (arith, count)) framed in
        bind-Post (Final entry.id n rows) (close_execution rt entry.id LearnStatus.error _) _ w'
          (λ a done.
            let left = Post-elim (Out rt entry.id (n + 1) rows) _ out done in
            (left.0, Settled-or entry.id n rows (failed w').1 left.1 left.2))
          (λ err _. tt)

    counted-Final :
        (entry : ExecutionHistory) (n : ℕ) (rows : List ExecutionHistory)
        (w : World (Store rt.Outside))
        → Stays rt n rows w.outside
        → Post
            (Middle entry.id n rows)
            ((process_execution rt x config enabled entry >>= counted rt x config enabled) w)
    counted-Final entry n rows w h =
        let out = process_execution-Out rt x config enabled entry n rows w h in
        bind-Post (Middle entry.id n rows) (process_execution rt x config enabled entry) _ w
          (λ b done.
            counted-Middle entry.id n rows b _ (Post-elim (Out rt entry.id n rows) _ out done))
          (λ err failed. Post-elim (Out rt entry.id n rows) _ out failed)

    -- The execution is marked, and then processed.
    abbrev Begun :
        (k n : ℕ) (rows : List ExecutionHistory) {A : Type 0}
        → Result A
        → World (Store rt.Outside)
        → Type 0
    Begun k n rows r w = (handled w.outside.result ≡ n) × Framed k rows w.outside.history

    opening-Begun :
        (k n : ℕ) (w : World (Store rt.Outside))
        → handled w.outside.result ≡ n
        → Post
            (Begun k n w.outside.history)
            (on_history (set_execution_learning_status k LearnStatus.processing none none) w)
    opening-Begun k n w count =
        elim (set-cases k LearnStatus.processing none none w.outside.history) [
          | inl gone ↦
              on_history-Post rt (Begun k n w.outside.history) _ w gone (count, λ j other h. h)
          | inr (e, done) ↦
              on_history-Post rt (Begun k n w.outside.history) _ w done
                (count, mark_row-Framed k LearnStatus.processing none none w.outside.history)
        ]

    weaken_frame :
        (entry : ExecutionHistory) (n : ℕ) (rows later : List ExecutionHistory) {A : Type 0}
        (r : Result A) (w : World (Store rt.Outside))
        → Framed entry.id rows later
        → Final entry.id n later r w
        → Final entry.id n rows r w
    weaken_frame entry n rows later (raise e) w framed h = tt
    weaken_frame entry n rows later (ok a) w framed h = (h.0, λ j given. h.1 j (moved j given))
      where
        moved : (j : ℕ) → (entry.id ≡ j) ⊎ Settled j rows → (entry.id ≡ j) ⊎ Settled j later
        moved j (inl e) = inl e
        moved j (inr s) = elim (Bool-cases (entry.id == j)) [
          | inl hit ↦ inl (==→≡ entry.id j hit)
          | inr miss ↦ inr (framed j miss s)
        ]

    pub learn_execution-Final :
        (entry : ExecutionHistory) (n : ℕ) (w : World (Store rt.Outside))
        → handled w.outside.result ≡ n
        → Post (Final entry.id n w.outside.history) (learn_execution rt x config enabled entry w)
    unfolding learn_execution
    learn_execution-Final entry n w count =
        let opening =
          on_history (set_execution_learning_status entry.id LearnStatus.processing none none) in
        let begun = opening-Begun entry.id n w count in
        let w1 : World (Store rt.Outside) = (opening w).1 in
        let middle = counted-Final entry n w1.outside.history w1 (begun.0, refl) in
        let body : M (Store rt.Outside) (Unit {0}) =
          process_execution rt x config enabled entry >>= counted rt x config enabled in
        let handler : Error → M (Store rt.Outside) (Unit {0}) =
          record_error rt x config enabled entry in
        bind-Post (Final entry.id n w.outside.history) opening _ w
          (λ a done.
            weaken_frame entry n w.outside.history w1.outside.history (catch body handler w1).0
              (catch body handler w1).1 begun.1
              (catch-Post (Final entry.id n w1.outside.history) body handler w1
                (λ u returned. Post-elim (Middle entry.id n w1.outside.history) _ middle returned)
                (λ err raised.
                  let left = Post-elim (Middle entry.id n w1.outside.history) _ middle raised in
                  record_error-Final entry err n w1.outside.history (body w1).1 left.0 left.1)))
          (λ err failed. tt)
