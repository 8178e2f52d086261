-- ===== src/Skills/Health.antt =====
-- The health of a release: `get_release_health`, from the executions that carry the release's tag. Rates
-- are fractions, and Python's floating point numbers are taken to be exact.
use astrbot_shipyard_neo.Base.{
  ℕ, zero, suc, ◌+◌, ◌-◌, ◌*◌, ◌/◌, min, Bool, not, Option, none, some, List, [], ◌∷◌, ◌==◌, ◌&&◌,
  ◌||◌, leb, ltb, if◌then◌else◌, first, select, count, length, order_by, ℤ, pos, negsuc,
}
use astrbot_shipyard_neo.Model.{seconds}
use astrbot_shipyard_neo.World.Runtime.{Error, Result, ok, raise}
use astrbot_shipyard_neo.Skills.Rows.{
  SkillRelease, SkillEvaluation, Ratio, Report, unreadable, faulty, fields, Tables, is_of, latest,
}
use astrbot_shipyard_neo.Skills.History.{ExecutionHistory}
use astrbot_shipyard_neo.Skills.Service.{is_visible_release}
use astrbot_shipyard_neo.Skills.Intake.{get_latest_evaluation}

-- `num / den`, with a positive denominator
pub record Rate : Type 0 where
  pub num : ℕ
  pub den : ℕ

pub record ReleaseMetrics : Type 0 where
  pub samples : ℕ
  pub success_rate : Rate
  pub error_rate : Rate
  pub p95_duration : ℕ

abbrev pub whole : ℕ → Rate
whole n = record { num = n; den = 1 }

abbrev pub nth_or_zero : ℕ → List ℕ → ℕ
nth_or_zero i [] = 0
nth_or_zero zero (d ∷ ds) = d
nth_or_zero (suc i) (d ∷ ds) = nth_or_zero i ds

-- `max(0, math.ceil(0.95 * samples) - 1)`
abbrev pub p95_index : ℕ → ℕ
p95_index samples = (95 * samples + 99) / 100 - 1

abbrev pub durations_of : List ExecutionHistory → List ℕ
durations_of [] = []
durations_of (e ∷ es) = e.execution_time_ms ∷ durations_of es

abbrev pub p95_of : List ℕ → ℕ
p95_of ds = nth_or_zero (p95_index (length ds)) (order_by (λ d. d) ds)

unfoldable pub aggregate_execution_metrics : List ExecutionHistory → ReleaseMetrics
aggregate_execution_metrics [] = record {
  samples = 0;
  success_rate = whole 0;
  error_rate = whole 0;
  p95_duration = 0;
}
aggregate_execution_metrics (e ∷ es) =
    let samples : ℕ = length (e ∷ es) in
    let success_count : ℕ = count (λ x. x.success) (e ∷ es) in
    record {
      samples = samples;
      success_rate = record { num = success_count; den = samples };
      error_rate = record { num = samples - success_count; den = samples };
      p95_duration = p95_of (durations_of (e ∷ es));
    }

abbrev pub no_baseline : ReleaseMetrics
no_baseline = record { samples = 0; success_rate = whole 1; error_rate = whole 0; p95_duration = 0 }

-- `min(max(x, 0.0), 1.0)`
abbrev clamped : Ratio → Rate
clamped r = clamp r.num r.den
  where
    clamp : ℤ → ℕ → Rate
    clamp (pos n) den = if ltb den n then whole 1 else record { num = n; den = den }
    clamp (negsuc n) den = whole 0

abbrev or_ratio : Option Ratio → Ratio → Ratio
or_ratio none default = default
or_ratio (some r) default = r

abbrev one : Ratio
one = record { num = pos 1; den = 1 }

-- `max(0.0, 1.0 - x)`
abbrev rest_of_one : ℤ → ℕ → ℤ
rest_of_one (pos n) den = pos (den - n)
rest_of_one (negsuc n) den = pos (den + suc n)

abbrev complement : Ratio → Ratio
complement r = record { num = rest_of_one r.num r.den; den = r.den }

-- `max(0, int(x))`
abbrev natural : Option ℤ → ℕ
natural (some (pos n)) = n
natural _ = 0

abbrev reported : Option Report → Result ReleaseMetrics
reported none = ok no_baseline
reported (some unreadable) = ok no_baseline
reported (some faulty) = raise Error.value
reported (some (fields replay_success error_rate samples p95_duration)) =
    let success : Ratio = or_ratio replay_success one in
    ok (record {
      samples = natural samples;
      success_rate = clamped success;
      error_rate = clamped (or_ratio error_rate (complement success));
      p95_duration = natural p95_duration;
    })

abbrev report_of : Option SkillEvaluation → Option Report
report_of none = none
report_of (some e) = e.report

-- `previous.version < release.version`, deleted or not
abbrev pub is_earlier : ℕ → SkillRelease → SkillRelease → Bool
is_earlier owner release r = is_of owner release.skill_key r && ltb r.version release.version

abbrev found_release : Option SkillRelease → Result SkillRelease
found_release none = raise Error.not_found
found_release (some r) = ok r

unfoldable pub get_release : ℕ → ℕ → Tables → Result SkillRelease
get_release owner release_id t =
    found_release (first (is_visible_release owner release_id) t.releases)

abbrev pub lt_rate : Rate → Rate → Bool
lt_rate p q = ltb (p.num * q.den) (q.num * p.den)

-- `p + q`, and `p * q`
abbrev pub add_rate : Rate → Rate → Rate
add_rate p q = record { num = p.num * q.den + q.num * p.den; den = p.den * q.den }

abbrev pub mul_rate : Rate → Rate → Rate
mul_rate p q = record { num = p.num * q.num; den = p.den * q.den }

pub record Thresholds : Type 0 where
  pub success_drop : Rate
  pub error_rate_multiplier : Rate

-- `baseline - observed > threshold`
abbrev pub drops : Thresholds → ReleaseMetrics → ReleaseMetrics → Bool
drops th baseline observed =
    lt_rate (add_rate observed.success_rate th.success_drop) baseline.success_rate

-- The multiplier against a baseline without errors is a million, or one if nothing failed.
abbrev pub regresses : Thresholds → ReleaseMetrics → ReleaseMetrics → Bool
regresses th baseline observed =
    if baseline.error_rate.num == 0
    then lt_rate th.error_rate_multiplier
        (whole (if ltb 0 observed.error_rate.num then 1000000 else 1))
    else lt_rate (mul_rate th.error_rate_multiplier baseline.error_rate) observed.error_rate

pub record ReleaseHealth : Type 0 where
  pub window_complete : Bool
  pub observed : ReleaseMetrics
  pub baseline : ReleaseMetrics
  pub healthy : Bool
  pub should_rollback : Bool

-- `health_window_end_at or (promoted_at + timedelta(hours=24))`
abbrev pub window_end : SkillRelease → ℕ
window_end r = or_default r.health_window_end_at r
  where
    or_default : Option ℕ → SkillRelease → ℕ
    or_default none r = r.promoted_at + seconds (24 * 3600)
    or_default (some end) r = end

abbrev pub has_reason : Thresholds → ReleaseMetrics → ReleaseMetrics → Bool
has_reason th baseline observed = drops th baseline observed || regresses th baseline observed

abbrev pub health_of :
    Thresholds → Bool → ReleaseMetrics → Result ReleaseMetrics → Result ReleaseHealth
health_of th complete observed (raise e) = raise e
health_of th complete observed (ok baseline) =
    let sampled : Bool = ltb 0 observed.samples in
    let reasons : Bool = sampled && has_reason th baseline observed in
    ok (record {
      window_complete = complete;
      observed = observed;
      baseline = baseline;
      healthy = not reasons && sampled;
      should_rollback = sampled && reasons;
    })

-- `tagged` is the test `tags.ilike("%release:{release_id}%")`.
module _ (tagged : ℕ → ExecutionHistory → Bool) where
  unfoldable pub compute_release_metrics : ℕ → ℕ → ℕ → ℕ → List ExecutionHistory → ReleaseMetrics
  unfolding aggregate_execution_metrics
  compute_release_metrics owner release_id start_at end_at rows = aggregate_execution_metrics (
      select
        (λ e.
          (e.owner == owner)
          && (leb start_at e.created_at && (leb e.created_at end_at && tagged release_id e)))
        rows)

  abbrev sampled_or : ReleaseMetrics → Result ReleaseMetrics → Result ReleaseMetrics
  sampled_or m otherwise = if ltb 0 m.samples then ok m else otherwise

  abbrev baseline_from :
      ℕ
      → SkillRelease
      → Option SkillRelease
      → List ExecutionHistory
      → Tables
      → Result ReleaseMetrics
  baseline_from owner release none rows t = ok no_baseline
  baseline_from owner release (some previous) rows t =
      sampled_or
        (compute_release_metrics owner previous.id previous.promoted_at release.promoted_at rows)
        (reported (report_of (get_latest_evaluation owner previous.candidate_id t)))

  unfoldable pub resolve_baseline_metrics :
      ℕ → SkillRelease → List ExecutionHistory → Tables → Result ReleaseMetrics
  unfolding compute_release_metrics get_latest_evaluation
  resolve_baseline_metrics owner release rows t =
      baseline_from owner release (latest (is_earlier owner release) t.releases) rows t

  abbrev pub health_from :
      ℕ
      → ℕ
      → Thresholds
      → Result SkillRelease
      → List ExecutionHistory
      → Tables
      → Result ReleaseHealth
  health_from now owner th (raise e) rows t = raise e
  health_from now owner th (ok release) rows t =
      health_of th (leb (window_end release) now)
        (compute_release_metrics owner release.id release.promoted_at (min now (window_end release))
          rows)
        (resolve_baseline_metrics owner release rows t)

  unfoldable pub get_release_health :
      ℕ → ℕ → ℕ → Thresholds → List ExecutionHistory → Tables → Result ReleaseHealth
  unfolding get_release compute_release_metrics resolve_baseline_metrics
  get_release_health now owner release_id th rows t =
      health_from now owner th (get_release owner release_id t) rows t
