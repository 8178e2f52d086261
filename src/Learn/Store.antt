-- ===== src/Learn/Store.antt =====
-- What the learning scheduler works on: the tables of the skill service, the execution history, the
-- payloads, and the result of the cycle, with the clock and the ids behind them. Nothing else writes
-- the tables while a cycle runs. A result is part of the state: an exception leaves its counts.
use astrbot_shipyard_neo.Base.{ℕ, Bool, Option, some, List, ℤ}
use astrbot_shipyard_neo.World.Runtime.{Runtime, Error, Result, ok, raise}
use astrbot_shipyard_neo.World.Effect.{M, ask, call, ◌>>=◌}
use astrbot_shipyard_neo.Path.Split.{Text}
use astrbot_shipyard_neo.Skills.Rows.{Tables}
use astrbot_shipyard_neo.Skills.History.{
  ExecutionHistory, LearnStatus, set_execution_learning_status,
}
use astrbot_shipyard_neo.Skills.Blobs.{ArtifactBlob, Payload, create_artifact_blob}
use astrbot_shipyard_neo.Skills.Health.{Thresholds}
use astrbot_shipyard_neo.Learn.Steps.{Conversions}

pub data AuditEvent : Type 0 where
  auto_promote_canary auto_rollback auto_promote_stable : ℕ → AuditEvent

pub record BrowserLearningCycleResult : Type 0 where
  pub processed_executions : ℕ
  pub skipped_executions : ℕ
  pub errored_executions : ℕ
  pub created_candidates : ℕ
  pub promoted_canary : ℕ
  pub promoted_stable : ℕ
  pub rolled_back : ℕ
  -- the latest first
  pub audit_events : List AuditEvent

-- Scores and rates are in hundredths.
pub record BrowserLearningConfig : Type 0 where
  pub batch_size : ℤ
  pub score_threshold : ℕ
  pub replay_success_threshold : ℕ
  pub min_samples : ℕ
  pub canary_window_hours : ℕ
  pub thresholds : Thresholds

-- The numbers that stand for texts, and the texts of ids and exceptions; `tagged` is the test that a
-- release's tag is among an execution's.
pub record Texts : Type 0 where
  pub number : Text → ℕ
  pub id_text : ℕ → Text
  pub message : Error → Text
  pub conversions : Conversions
  pub tagged : ℕ → ExecutionHistory → Bool

pub record Store (O : Type 0) : Type 0 where
  pub tables : Tables
  pub history : List ExecutionHistory
  pub blobs : List ArtifactBlob
  pub result : BrowserLearningCycleResult
  pub outside : O

abbrev tables_to : {O A : Type 0} → Store O → Result A × Tables → Result A × Store O
tables_to s (r, t) = (r, record s { tables = t })

abbrev pub history_to :
    {O A : Type 0} → Store O → Result (A × List ExecutionHistory) → Result A × Store O
history_to s (raise e) = (raise e, s)
history_to s (ok (a, rows)) = (ok a, record s { history = rows })

module _ {O : Type 0} where
  -- An operation of the service on its tables, and one on the history.
  unfoldable pub on_tables : {A : Type 0} → (Store O → Result A × Tables) → M (Store O) A
  on_tables f = call (λ s. tables_to s (f s))

  unfoldable pub on_history :
      {A : Type 0} → (List ExecutionHistory → Result (A × List ExecutionHistory)) → M (Store O) A
  on_history f = call (λ s. history_to s (f s.history))

  unfoldable pub reads : {A : Type 0} → (Store O → Result A) → M (Store O) A
  reads f = call (λ s. (f s, s))

  unfoldable pub tally :
      (BrowserLearningCycleResult → BrowserLearningCycleResult) → M (Store O) (Unit {0})
  tally f = call (λ s. (ok tt, record s { result = f s.result }))

  -- `create_artifact_blob`
  unfoldable pub store_payload : ℕ → ℕ → Payload → M (Store O) ArtifactBlob
  unfolding create_artifact_blob
  store_payload blob_id owner payload = call (λ s.
      let (b, bs) = create_artifact_blob blob_id owner payload s.blobs in
      (ok b, record s { blobs = bs }))

module _ (rt : Runtime) where
  unfoldable pub now : M (Store rt.Outside) ℕ
  now = ask (λ s. let (n, o) = rt.utcnow s.outside in (n, record s { outside = o }))

  unfoldable pub new_id : M (Store rt.Outside) ℕ
  new_id = ask (λ s. let (n, o) = rt.uuid s.outside in (n, record s { outside = o }))

  -- `set_execution_learning_status` at the clock's time
  unfoldable pub close_execution :
      ℕ → LearnStatus → Option ℕ → M (Store rt.Outside) ExecutionHistory
  close_execution execution_id status problem = do
    at ← now
    on_history (set_execution_learning_status execution_id status problem (some at))
