-- ===== src/Learn/Steps.antt =====
-- The steps of a browser run: `_normalize_steps`, on the payload of the run's trace. Python's `str` and
-- `int` of a JSON value that is neither an integer nor a text are arguments.
use astrbot_shipyard_neo.Base.{Option, none, some, List, [], ◌∷◌, ℤ, pos, if◌then◌else◌}
use astrbot_shipyard_neo.Path.Split.{Text, is_empty}
use astrbot_shipyard_neo.Texts.{codes, is_space, strip}
use astrbot_shipyard_neo.Skills.Blobs.{Value, integer, text, RawStep, Payload, object, array}
use astrbot_shipyard_neo.Skills.History.{ExecutionHistory}

pub record Step : Type 0 where
  pub cmd : Text
  pub exit_code : ℤ
  pub kind : Text

abbrev pub individual_action : Text
individual_action = codes "individual_action"

-- `str(value)`, and `int(value)`, which is `none` where it raises
pub record Conversions : Type 0 where
  pub str : Value → Text
  pub int : Value → Option ℤ

-- `[step for step in steps if isinstance(step, dict)]`
abbrev pub dicts : List (Option RawStep) → List RawStep
dicts [] = []
dicts (none ∷ items) = dicts items
dicts (some step ∷ items) = step ∷ dicts items

abbrev own_step : Option Value → RawStep → List RawStep
own_step none own = []
own_step (some cmd) own = own ∷ []

abbrev raw_steps_of : Option Payload → List RawStep
raw_steps_of (some (object (some items) own)) = dicts items
raw_steps_of (some (object none own)) = own_step own.cmd own
raw_steps_of (some (array items)) = dicts items
raw_steps_of _ = []

-- The whole run as one step, where the trace has none.
abbrev fallback : ExecutionHistory → RawStep
fallback entry = record {
  cmd = some (text entry.code);
  exit_code = some (integer (pos (if entry.success then 0 else 1)));
  kind = some (text individual_action);
}

abbrev or_fallback : ExecutionHistory → List RawStep → List RawStep
or_fallback entry [] = fallback entry ∷ []
or_fallback entry (s ∷ ss) = s ∷ ss

module _ (py : Conversions) where
  -- `str(raw.get(key, default))`
  abbrev get_str : Option Value → Text → Text
  get_str none default = default
  get_str (some v) default = py.str v

  abbrev or_one : Option ℤ → ℤ
  or_one none = pos 1
  or_one (some n) = n

  abbrev exit_code_of : Option Value → ℤ
  exit_code_of none = pos 1
  exit_code_of (some Value.null) = pos 1
  exit_code_of (some v) = or_one (py.int v)

  abbrev normalized : RawStep → Step
  normalized raw = record {
    cmd = strip is_space (get_str raw.cmd []);
    exit_code = exit_code_of raw.exit_code;
    kind = get_str raw.kind individual_action;
  }

  abbrev keep_step : Step → List Step → List Step
  keep_step s rest = if is_empty s.cmd then rest else s ∷ rest

  abbrev pub normalize_raw : List RawStep → List Step
  normalize_raw [] = []
  normalize_raw (raw ∷ raws) = keep_step (normalized raw) (normalize_raw raws)

  unfoldable pub normalize_steps : ExecutionHistory → Option Payload → List Step
  unfolding strip is_space
  normalize_steps entry trace = normalize_raw (or_fallback entry (raw_steps_of trace))
