-- ===== src/Skills/Listing.antt =====
-- The lists of the execution history.
use astrbot_shipyard_neo.Base.{
  ℕ, Bool, true, false, not, Option, none, some, List, ◌&&◌, ◌||◌, leb, ltb, if◌then◌else◌, select,
  limit_rows, skip_rows, length, ℤ, pos, negsuc,
}
use astrbot_shipyard_neo.World.Runtime.{Error, Result, ok, raise}
use astrbot_shipyard_neo.Path.Split.{Text, is_empty}
use astrbot_shipyard_neo.Skills.History.{
  ExecutionType, LearnStatus, ExecutionHistory, has_type, is_run_of, newest_first, oldest_first,
}

-- `limit <= 0 or limit > 500`
abbrev pub valid_limit : ℤ → Option ℕ
valid_limit (pos n) = if ltb 0 n && leb n 500 then some n else none
valid_limit (negsuc n) = none

abbrev pub valid_offset : ℤ → Option ℕ
valid_offset (pos n) = some n
valid_offset (negsuc n) = none

-- `IS NOT NULL AND != ''`
abbrev has_text : Option Text → Bool
has_text none = false
has_text (some t) = not (is_empty t)

pub record HistoryFilter : Type 0 where
  pub owner : ℕ
  pub sandbox_id : ℕ
  pub exec_type : Option ExecutionType
  pub success_only : Bool
  pub has_notes : Bool
  pub has_description : Bool
  pub has_tags : ExecutionHistory → Bool

-- `if flag: filters.append(test)`
abbrev when_asked : Bool → Bool → Bool
when_asked flag test = not flag || test

abbrev pub is_listed : HistoryFilter → ExecutionHistory → Bool
is_listed f e =
    is_run_of f.owner f.sandbox_id e
    && (has_type f.exec_type e
        && (when_asked f.success_only e.success
            && (when_asked f.has_notes (has_text e.notes)
                && (when_asked f.has_description (has_text e.description) && f.has_tags e))))

abbrev list_rows :
    HistoryFilter → List ExecutionHistory → Option ℕ → Option ℕ → Result (List ExecutionHistory × ℕ)
list_rows f rows none offset = raise Error.validation
list_rows f rows (some limit) none = raise Error.validation
list_rows f rows (some limit) (some offset) =
    let found = select (is_listed f) rows in
    ok (limit_rows limit (skip_rows offset (newest_first found)), length found)

unfoldable pub list_execution_history :
    HistoryFilter → ℤ → ℤ → List ExecutionHistory → Result (List ExecutionHistory × ℕ)
list_execution_history f limit offset rows =
    list_rows f rows (valid_limit limit) (valid_offset offset)

abbrev is_browser : ExecutionType → Bool
is_browser ExecutionType.browser = true
is_browser ExecutionType.browser_batch = true
is_browser _ = false

abbrev is_open : Option LearnStatus → Bool
is_open none = true
is_open (some LearnStatus.pending) = true
is_open _ = false

abbrev pub is_to_learn : ExecutionHistory → Bool
is_to_learn e = e.learn_enabled && (is_browser e.exec_type && is_open e.learn_status)

abbrev pending_rows : List ExecutionHistory → Option ℕ → Result (List ExecutionHistory)
pending_rows rows none = raise Error.validation
pending_rows rows (some limit) = ok (limit_rows limit (oldest_first (select is_to_learn rows)))

unfoldable pub list_pending_browser_learning_executions :
    ℤ → List ExecutionHistory → Result (List ExecutionHistory)
list_pending_browser_learning_executions limit rows = pending_rows rows (valid_limit limit)
