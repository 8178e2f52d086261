-- ===== src/Learn/Outcome.antt =====
-- What the processing of one execution leaves: scheduler.py, `_process_execution`.
use mathlib.Core.Path.{subst}
use astrbot_shipyard_neo.Base.{
  ℕ, ◌≡◌, refl, sym, ◌∙◌, Bool, true, false, Option, none, some, List, [], ◌∷◌, inl, inr,
}
use astrbot_shipyard_neo.World.Runtime.{Runtime, Result, ok, raise}
use astrbot_shipyard_neo.World.Effect.{World, pure, ◌>>=◌, for_each}
use astrbot_shipyard_neo.World.Post.{Post, bind-Post, Post-elim}
use astrbot_shipyard_neo.Skills.History.{ExecutionHistory, LearnStatus}
use astrbot_shipyard_neo.Learn.Steps.{Step}
use astrbot_shipyard_neo.Learn.Keys.{derive_skill_key}
use astrbot_shipyard_neo.Learn.Store.{
  BrowserLearningConfig, Texts, Store, history_to, on_history, now, close_execution,
}
use astrbot_shipyard_neo.Learn.Processor.{extract_segments, learn_segments, process_execution}
use astrbot_shipyard_neo.Learn.Kept.{handled, IsKept, segments-Keeps, extract_segments-Keeps}
use astrbot_shipyard_neo.Learn.Closed.{
  is_closed, Settled, Framed, set-cases, mark_row-Settled, mark_row-Framed,
}

module _ (rt : Runtime) where
  -- What an execution leaves: `n` is the count before it, `rows` the history.
  abbrev pub Out :
      (k n : ℕ) (rows : List ExecutionHistory) {A : Type 0}
      → Result A
      → World (Store rt.Outside)
      → Type 0
  Out k n rows (ok a) w =
      (handled w.outside.result ≡ n) × Settled k w.outside.history × Framed k rows w.outside.history
  Out k n rows (raise e) w = (handled w.outside.result ≡ n) × Framed k rows w.outside.history

  -- The history and the count are still those.
  abbrev pub Stays : ℕ → List ExecutionHistory → Store rt.Outside → Type 0
  Stays n rows s = (handled s.result ≡ n) × (s.history ≡ rows)

  pub Stays-IsKept :
      (enabled : Bool) (n : ℕ) (rows : List ExecutionHistory) → IsKept enabled (Stays n rows)
  Stays-IsKept enabled n rows = record {
    outer = λ s o h. h;
    blobs = λ s bs h. h;
    result = λ s r same h. (same ∙ h.0, h.1);
    tables = λ s t step h. h;
  }

  pub on_history-Post :
      {A : Type 0} (Q : Result A → World (Store rt.Outside) → Type 0)
      (f : List ExecutionHistory → Result (A × List ExecutionHistory))
      (w : World (Store rt.Outside)) {r : Result (A × List ExecutionHistory)}
      → f w.outside.history ≡ r
      → Q (history_to w.outside r).0 (record w { outside = (history_to w.outside r).1 })
      → Post Q (on_history f w)
  unfolding on_history
  on_history-Post Q f w e q =
      subst (λ r. Q (history_to w.outside r).0 (record w { outside = (history_to w.outside r).1 }))
        (sym e) q

  pub close-Out :
      (k : ℕ) (status : LearnStatus) (problem : Option ℕ) (n : ℕ) (rows : List ExecutionHistory)
      (w : World (Store rt.Outside))
      → is_closed (some status) ≡ true
      → handled w.outside.result ≡ n
      → Framed k rows w.outside.history
      → Post (Out k n rows) (close_execution rt k status problem w)
  unfolding close_execution now
  close-Out k status problem n rows w closed count framed =
      let at : ℕ = (rt.utcnow w.outside.outside).0 in
      let w' : World (Store rt.Outside) = (now rt w).1 in
      elim (set-cases k status problem (some at) w.outside.history) [
        | inl gone ↦ on_history-Post (Out k n rows) _ w' gone (count, framed)
        | inr (e, done) ↦ on_history-Post (Out k n rows) _ w' done (
          count,
          mark_row-Settled k status problem (some at) w.outside.history closed,
          (λ j other h.
              mark_row-Framed k status problem (some at) w.outside.history j other
                (framed j other h)),
        )
      ]

  closing-Out :
      (k : ℕ) (status : LearnStatus) (problem : Option ℕ) (b : Bool) (n : ℕ)
      (rows : List ExecutionHistory) (w : World (Store rt.Outside))
      → is_closed (some status) ≡ true
      → Stays n rows w.outside
      → Post (Out k n rows) ((close_execution rt k status problem >>= λ _. pure b) w)
  closing-Out k status problem b n rows w closed h =
      let framed : Framed k rows w.outside.history = λ j other s. subst (Settled j) (sym h.1) s in
      let out : Post (Out k n rows) (close_execution rt k status problem w) =
        close-Out k status problem n rows w closed h.0 framed in
      bind-Post (Out k n rows) (close_execution rt k status problem) _ w
        (λ a e. Post-elim (Out k n rows) _ out e) (λ err e. Post-elim (Out k n rows) _ out e)

  module _ (x : Texts) (config : BrowserLearningConfig) (enabled : Bool) where
    learn_segments-Out :
        (entry : ExecutionHistory) (segments : List (List Step)) (n : ℕ)
        (rows : List ExecutionHistory) (w : World (Store rt.Outside))
        → Stays n rows w.outside
        → Post (Out entry.id n rows) (learn_segments rt x config enabled entry segments w)
    learn_segments-Out entry [] n rows w h =
        closing-Out entry.id LearnStatus.skipped _ false n rows w refl h
    learn_segments-Out entry (g ∷ gs) n rows w h =
        let stays =
          segments-Keeps rt x config enabled (Stays n rows) (Stays-IsKept enabled n rows) entry
            (derive_skill_key x.id_text entry) (g ∷ gs) w h in
        bind-Post (Out entry.id n rows) (for_each (g ∷ gs) _) _ w
          (λ _ _. closing-Out entry.id LearnStatus.processed none true n rows _ refl stays)
          (λ err _. (stays.0, λ j other s. subst (Settled j) (sym stays.1) s))

    pub process_execution-Out :
        (entry : ExecutionHistory) (n : ℕ) (rows : List ExecutionHistory)
        (w : World (Store rt.Outside))
        → Stays n rows w.outside
        → Post (Out entry.id n rows) (process_execution rt x config enabled entry w)
    unfolding process_execution
    process_execution-Out entry n rows w h =
        let stays =
          extract_segments-Keeps rt x config enabled (Stays n rows) (Stays-IsKept enabled n rows)
            entry w h in
        bind-Post (Out entry.id n rows) (extract_segments rt x config enabled entry) _ w
          (λ segments _. learn_segments-Out entry segments n rows _ stays)
          (λ err _. (stays.0, λ j other s. subst (Settled j) (sym stays.1) s))
