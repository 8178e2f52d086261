-- ===== src/Learn/Tests.antt =====
-- Tests and witnesses of the learning from browser runs.
use astrbot_shipyard_neo.Base.{
  ℕ, ◌≡◌, refl, true, false, Option, none, some, List, [], ◌∷◌, pos, All, In, ◌↔◌, length, ◌+◌, ◌*◌,
  ◌<◌, ◌≤◌, ℤ, count,
}
use astrbot_shipyard_neo.World.Runtime.{Error, ok, raise}
use astrbot_shipyard_neo.World.Effect.{World}
use astrbot_shipyard_neo.World.Sample.{calm}
use astrbot_shipyard_neo.Path.Split.{Text}
use astrbot_shipyard_neo.Texts.{codes}
use astrbot_shipyard_neo.Learn.Steps.{Step, individual_action}
use astrbot_shipyard_neo.Learn.Segments.{is_actionable, segments_of}
use astrbot_shipyard_neo.Skills.Rows.{SkillRelease, SkillReleaseStage, SkillReleaseMode, Tables}
use astrbot_shipyard_neo.Skills.History.{
  ExecutionHistory, ExecutionType, LearnStatus, PayloadRef, blob, set_execution_learning_status,
}
use astrbot_shipyard_neo.Skills.Listing.{list_pending_browser_learning_executions}
use astrbot_shipyard_neo.Skills.Blobs.{Value, integer, text, RawStep, array}
use astrbot_shipyard_neo.Skills.Intake.{
  create_candidate, update_candidate_auto_release, list_active_auto_canary_releases,
}
use astrbot_shipyard_neo.Skills.Review.{evaluate_candidate}
use astrbot_shipyard_neo.Skills.Service.{rollback_release, promote_candidate, get_active_release}
use astrbot_shipyard_neo.Skills.Health.{
  ReleaseHealth, no_baseline, aggregate_execution_metrics, get_release_health,
}
use astrbot_shipyard_neo.Skills.Percentile.{below, up_to, aggregate-rank}
use astrbot_shipyard_neo.Learn.Keys.{derive_skill_key, derive_scenario_key}
use astrbot_shipyard_neo.Learn.KeyChars.{IsKey, derive_scenario_key-IsKey}
use astrbot_shipyard_neo.Learn.Store.{
  BrowserLearningConfig, BrowserLearningCycleResult, Texts, Store, reads, on_history, on_tables,
  tally, store_payload, now, new_id,
}
use astrbot_shipyard_neo.Learn.Processor.{
  roll_back, settle_canary, check_canary, process_auto_canary_lifecycle, run_cycle,
}
use astrbot_shipyard_neo.Learn.Kept.{handled}
use astrbot_shipyard_neo.Learn.Closed.{Settled}
use astrbot_shipyard_neo.Learn.Settled.{run_cycle-AllSettled}
use astrbot_shipyard_neo.Learn.Cycle.{run_cycle-originals, is_original}
use astrbot_shipyard_neo.Learn.Runs.{IsBlock, segments_of-blocks}

abbrev step_of : Text → Step
step_of cmd = record { cmd = cmd; exit_code = pos 0; kind = individual_action }

abbrev opening : Step
opening = step_of (codes "open https://example.com")

abbrev click : Step
click = step_of (codes "click @e1")

abbrev look : Step
look = step_of (codes "  Snapshot -i")

abbrev visit : List Step
visit = opening ∷ click ∷ look ∷ click ∷ []

one_segment : segments_of visit ≡ (opening ∷ click ∷ []) ∷ []
unfolding segments_of is_actionable
one_segment = refl

segments_of-blocks_example :
    In (opening ∷ click ∷ []) (segments_of visit) ↔ IsBlock visit (opening ∷ click ∷ [])
segments_of-blocks_example = segments_of-blocks visit (opening ∷ click ∷ [])

-- JSON values that the run has: integers and texts.
abbrev str_of : Value → Text
str_of (text t) = t
str_of _ = []

abbrev int_of : Value → Option ℤ
int_of (integer n) = some n
int_of _ = none

abbrev numbers : Texts
numbers = record {
  number = length;
  id_text = λ k. codes "sandbox";
  message = λ e. [];
  conversions = record { str = str_of; int = int_of };
  tagged = λ k e. true;
}

abbrev config : BrowserLearningConfig
config = record {
  batch_size = pos 20;
  score_threshold = 85;
  replay_success_threshold = 95;
  min_samples = 30;
  canary_window_hours = 24;
  thresholds = record {
    success_drop = record { num = 3; den = 100 };
    error_rate_multiplier = record { num = 2; den = 1 };
  };
}

abbrev raw : Text → Option RawStep
raw cmd = some (record { cmd = some (text cmd); exit_code = some (integer (pos 0)); kind = none })

abbrev run_of : ℕ → Option PayloadRef → ExecutionHistory
run_of id payload_ref = record {
  id = id;
  owner = 7;
  sandbox_id = 1;
  session_id = none;
  exec_type = ExecutionType.browser_batch;
  code = codes "open https://example.com";
  success = true;
  execution_time_ms = 40;
  payload_ref = payload_ref;
  description = some (codes " Log in, then Search! ");
  tags = some (codes "x, skill:search");
  notes = none;
  learn_enabled = true;
  learn_status = some LearnStatus.pending;
  learn_error = none;
  learn_processed_at = none;
  created_at = id;
}

abbrev scenario_of_run : Text
scenario_of_run = codes "log-in-then-search"

names_scenario : derive_scenario_key (run_of 1 none) ≡ some scenario_of_run
unfolding derive_scenario_key
names_scenario = refl

derive_scenario_key-IsKey_example : IsKey scenario_of_run
derive_scenario_key-IsKey_example =
    derive_scenario_key-IsKey (run_of 1 none) scenario_of_run names_scenario

names_skill : derive_skill_key (λ k. []) (run_of 1 none) ≡ codes "search"
unfolding derive_skill_key
names_skill = refl

aggregate-rank_example :
    (100
        * below
            (aggregate_execution_metrics (run_of 1 none ∷ run_of 2 none ∷ [])).p95_duration
            (run_of 1 none ∷ run_of 2 none ∷ [])
      < 95 * length (run_of 1 none ∷ run_of 2 none ∷ []))
    × (95 * length (run_of 1 none ∷ run_of 2 none ∷ [])
        ≤ 100
          * up_to
              (aggregate_execution_metrics (run_of 1 none ∷ run_of 2 none ∷ [])).p95_duration
              (run_of 1 none ∷ run_of 2 none ∷ []))
aggregate-rank_example = aggregate-rank (run_of 1 none) (run_of 2 none ∷ [])

abbrev nothing_yet : BrowserLearningCycleResult
nothing_yet = record {
  processed_executions = 0;
  skipped_executions = 0;
  errored_executions = 0;
  created_candidates = 0;
  promoted_canary = 0;
  promoted_stable = 0;
  rolled_back = 0;
  audit_events = [];
}

abbrev no_tables : Tables
no_tables = record { candidates = []; evaluations = []; releases = [] }

-- One run of three actions with a trace, one whose trace is not there, and one without a trace.
abbrev before : World (Store ℕ)
before = record {
  sandboxes = [];
  sessions = [];
  cargos = [];
  locks = [];
  outside = record {
    tables = no_tables;
    history = run_of 1 (some (blob 5)) ∷ run_of 2 (some (blob 6)) ∷ run_of 3 none ∷ [];
    blobs =
        record {
          id = 5;
          owner = 7;
          payload = array (
              raw (codes "open https://example.com")
              ∷ raw (codes "fill @e1 x")
              ∷ raw (codes "click @e2")
              ∷ []);
        }
        ∷ [];
    result = nothing_yet;
    outside = 100;
  };
}

abbrev after : World (Store ℕ)
after = (run_cycle calm numbers config true before).1

cycle_returns : (run_cycle calm numbers config true before).0 ≡ ok tt
unfolding run_cycle reads on_history on_tables tally store_payload now new_id
    set_execution_learning_status list_pending_browser_learning_executions create_candidate
    update_candidate_auto_release evaluate_candidate promote_candidate get_active_release
    list_active_auto_canary_releases get_release_health is_actionable
cycle_returns = refl

cycle_counts :
    (after.outside.result.processed_executions ≡ 1)
    × (after.outside.result.skipped_executions ≡ 1)
    × (after.outside.result.errored_executions ≡ 1)
    × (after.outside.result.promoted_canary ≡ 1)
unfolding run_cycle reads on_history on_tables tally store_payload now new_id
    set_execution_learning_status list_pending_browser_learning_executions create_candidate
    update_candidate_auto_release evaluate_candidate promote_candidate get_active_release
    list_active_auto_canary_releases get_release_health is_actionable
cycle_counts = (refl, refl, refl, refl)

run_cycle-AllSettled_example :
    (pending : List ExecutionHistory) × (list_pending_browser_learning_executions
        (pos 20)
        before.outside.history
      ≡ ok pending)
    × (handled after.outside.result ≡ handled nothing_yet + length pending)
    × All (λ e. Settled e.id after.outside.history) pending
run_cycle-AllSettled_example = run_cycle-AllSettled calm numbers config true before cycle_returns

run_cycle-originals_example :
    count is_original (run_cycle calm numbers config false before).1.outside.tables.releases ≡ 0
run_cycle-originals_example = run_cycle-originals calm numbers config before

-- The only release of a skill, in use since 10, and a run of it that failed.
abbrev canary : SkillRelease
canary = record {
  id = 9;
  owner = 7;
  skill_key = 4;
  candidate_id = 1;
  version = 1;
  stage = SkillReleaseStage.canary;
  is_active = true;
  is_deleted = false;
  release_mode = SkillReleaseMode.auto;
  promoted_at = 10;
  rollback_of = none;
  auto_promoted_from = none;
  health_window_end_at = some 5000;
  deleted_at = none;
}

abbrev ill : World (Store ℕ)
ill = record before {
  outside = record before.outside {
    tables = record no_tables { releases = canary ∷ [] };
    history = record (run_of 50 none) { success = false; learn_enabled = false } ∷ [];
  };
}

abbrev verdict : ReleaseHealth
verdict = record {
  window_complete = false;
  observed = record {
    samples = 1;
    success_rate = record { num = 0; den = 1 };
    error_rate = record { num = 1; den = 1 };
    p95_duration = 40;
  };
  baseline = no_baseline;
  healthy = false;
  should_rollback = true;
}

is_listed : list_active_auto_canary_releases 200 ill.outside.tables ≡ canary ∷ []
unfolding list_active_auto_canary_releases
is_listed = refl

is_ill :
    get_release_health numbers.tagged 100 7 9 config.thresholds ill.outside.history
      ill.outside.tables
    ≡ ok verdict
unfolding get_release_health
is_ill = refl

-- A canary that should be rolled back, without an earlier release, ends the cycle.
blocked : (process_auto_canary_lifecycle calm numbers config true ill).0 ≡ raise Error.conflict
unfolding process_auto_canary_lifecycle check_canary settle_canary roll_back rollback_release reads
    on_tables now new_id list_active_auto_canary_releases get_release_health
blocked = refl
