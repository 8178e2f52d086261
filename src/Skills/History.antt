-- ===== src/Skills/History.antt =====
-- The execution history of `SkillLifecycleService`. The outputs, which are only stored, are left out; an
-- id, a sandbox's id and an error are numbers. The database matches the tags with `ilike`: a filter on
-- them is an argument. A row is inserted at the front.
use astrbot_shipyard_neo.Base.{
  ℕ, Bool, true, false, Option, none, some, List, ◌∷◌, ◌==◌, ◌&&◌, first, order_by, order_by_desc,
  update, ℤ, pos, negsuc,
}
use astrbot_shipyard_neo.World.Runtime.{Error, Result, ok, raise}
use astrbot_shipyard_neo.Path.Split.{Text}
use astrbot_shipyard_neo.Skills.Tags.{normalize_tags}

pub data ExecutionType : Type 0 where
  python shell browser browser_batch : ExecutionType

-- A reference that starts with "blob:" and names an id, and any other text.
pub data PayloadRef : Type 0 where
  blob : ℕ → PayloadRef
  other_ref : PayloadRef

pub data LearnStatus : Type 0 where
  pending processing processed skipped error : LearnStatus

pub record ExecutionHistory : Type 0 where
  pub id : ℕ
  pub owner : ℕ
  pub sandbox_id : ℕ
  pub session_id : Option ℕ
  pub exec_type : ExecutionType
  pub code : Text
  pub success : Bool
  pub execution_time_ms : ℕ
  pub payload_ref : Option PayloadRef
  pub description : Option Text
  pub tags : Option Text
  pub notes : Option Text
  pub learn_enabled : Bool
  pub learn_status : Option LearnStatus
  pub learn_error : Option ℕ
  pub learn_processed_at : Option ℕ
  pub created_at : ℕ

-- `max(execution_time_ms, 0)`
abbrev at_least_zero : ℤ → ℕ
at_least_zero (pos n) = n
at_least_zero (negsuc n) = 0

-- An execution to learn from is pending unless the caller says otherwise.
abbrev initial_status : Option LearnStatus → Bool → Option LearnStatus
initial_status (some s) learn_enabled = some s
initial_status none true = some LearnStatus.pending
initial_status none false = none

-- What a caller of `create_execution` gives.
pub record NewExecution : Type 0 where
  pub owner : ℕ
  pub sandbox_id : ℕ
  pub session_id : Option ℕ
  pub exec_type : ExecutionType
  pub code : Text
  pub success : Bool
  pub execution_time_ms : ℤ
  pub payload_ref : Option PayloadRef
  pub description : Option Text
  pub tags : Option Text
  pub learn_enabled : Bool
  pub learn_status : Option LearnStatus
  pub learn_error : Option ℕ
  pub learn_processed_at : Option ℕ

unfoldable pub create_execution :
    ℕ → ℕ → NewExecution → List ExecutionHistory → ExecutionHistory × List ExecutionHistory
create_execution now new_id n rows =
    let entry : ExecutionHistory = record {
      id = new_id;
      owner = n.owner;
      sandbox_id = n.sandbox_id;
      session_id = n.session_id;
      exec_type = n.exec_type;
      code = n.code;
      success = n.success;
      execution_time_ms = at_least_zero n.execution_time_ms;
      payload_ref = n.payload_ref;
      description = n.description;
      tags = normalize_tags n.tags;
      notes = none;
      learn_enabled = n.learn_enabled;
      learn_status = initial_status n.learn_status n.learn_enabled;
      learn_error = n.learn_error;
      learn_processed_at = n.learn_processed_at;
      created_at = now;
    } in
    (entry, entry ∷ rows)

abbrev pub found_or_raise : Option ExecutionHistory → Result ExecutionHistory
found_or_raise none = raise Error.not_found
found_or_raise (some e) = ok e

abbrev pub is_execution : ℕ → ℕ → ExecutionHistory → Bool
is_execution owner execution_id e = (e.id == execution_id) && (e.owner == owner)

unfoldable pub get_execution : ℕ → ℕ → ℕ → List ExecutionHistory → Result ExecutionHistory
get_execution owner sandbox_id execution_id rows =
    found_or_raise
      (first (λ e. is_execution owner execution_id e && (e.sandbox_id == sandbox_id)) rows)

unfoldable pub get_execution_by_id : ℕ → ℕ → List ExecutionHistory → Result ExecutionHistory
get_execution_by_id owner execution_id rows =
    found_or_raise (first (is_execution owner execution_id) rows)

abbrev same_type : ExecutionType → ExecutionType → Bool
same_type ExecutionType.python ExecutionType.python = true
same_type ExecutionType.shell ExecutionType.shell = true
same_type ExecutionType.browser ExecutionType.browser = true
same_type ExecutionType.browser_batch ExecutionType.browser_batch = true
same_type _ _ = false

abbrev pub has_type : Option ExecutionType → ExecutionHistory → Bool
has_type none e = true
has_type (some t) e = same_type e.exec_type t

-- `ORDER BY created_at DESC`, and `ASC`
abbrev pub newest_first : List ExecutionHistory → List ExecutionHistory
newest_first = order_by_desc (λ e. e.created_at)

abbrev pub oldest_first : List ExecutionHistory → List ExecutionHistory
oldest_first = order_by (λ e. e.created_at)

abbrev pub is_run_of : ℕ → ℕ → ExecutionHistory → Bool
is_run_of owner sandbox_id e = (e.owner == owner) && (e.sandbox_id == sandbox_id)

unfoldable pub get_last_execution :
    ℕ → ℕ → Option ExecutionType → List ExecutionHistory → Result ExecutionHistory
get_last_execution owner sandbox_id exec_type rows =
    found_or_raise
      (first (λ e. is_run_of owner sandbox_id e && has_type exec_type e) (newest_first rows))

abbrev assign : Option Text → Option Text → Option Text
assign none old = old
assign (some t) old = some t

abbrev assign_tags : Option Text → Option Text → Option Text
assign_tags none old = old
assign_tags (some t) old = normalize_tags (some t)

abbrev annotated : Option Text → Option Text → Option Text → ExecutionHistory → ExecutionHistory
annotated description tags notes e = record e {
  description = assign description e.description;
  tags = assign_tags tags e.tags;
  notes = assign notes e.notes;
}

abbrev pub write_row :
    (ExecutionHistory → ExecutionHistory)
    → List ExecutionHistory
    → Result ExecutionHistory
    → Result (ExecutionHistory × List ExecutionHistory)
write_row change rows (raise e) = raise e
write_row change rows (ok e) = ok (change e, update (λ d. d.id == e.id) change rows)

unfoldable pub annotate_execution :
    ℕ
    → ℕ
    → ℕ
    → Option Text
    → Option Text
    → Option Text
    → List ExecutionHistory
    → Result (ExecutionHistory × List ExecutionHistory)
unfolding get_execution
annotate_execution owner sandbox_id execution_id description tags notes rows =
    write_row (annotated description tags notes) rows
      (get_execution owner sandbox_id execution_id rows)

abbrev pub learned : LearnStatus → Option ℕ → Option ℕ → ExecutionHistory → ExecutionHistory
learned status problem processed_at e = record e {
  learn_status = some status;
  learn_error = problem;
  learn_processed_at = processed_at;
}

unfoldable pub set_execution_learning_status :
    ℕ
    → LearnStatus
    → Option ℕ
    → Option ℕ
    → List ExecutionHistory
    → Result (ExecutionHistory × List ExecutionHistory)
set_execution_learning_status execution_id status problem processed_at rows =
    write_row (learned status problem processed_at) rows
      (found_or_raise (first (λ e. e.id == execution_id) rows))
