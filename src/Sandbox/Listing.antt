-- ===== src/Sandbox/Listing.antt =====
-- `SandboxManager.list`: it scans the caller's sandboxes in batches, since the status that it filters
-- by is computed and not stored. The statements of a call read one state of the tables. The order of
-- the ids stands for that of the texts; an empty cursor text is read as none.
use astrbot_shipyard_neo.Base.{
  ℕ, zero, suc, ◌+◌, ◌*◌, min, max, Bool, true, false, not, Option, none, some, List, [], ◌∷◌, ◌++◌,
  ◌==◌, ◌&&◌, ltb, leb, if◌then◌else◌, is_none, select, first, limit_rows, order_by, length,
}
use astrbot_shipyard_neo.Model.{Sandbox, SandboxStatus, Session, compute_status}

pub record SandboxListItem : Type 0 where
  pub sandbox : Sandbox
  pub status : SandboxStatus

abbrev pub Listed : Type 0
Listed = List SandboxListItem × Option ℕ

abbrev same_sandbox_status : SandboxStatus → SandboxStatus → Bool
same_sandbox_status SandboxStatus.idle SandboxStatus.idle = true
same_sandbox_status SandboxStatus.starting SandboxStatus.starting = true
same_sandbox_status SandboxStatus.ready SandboxStatus.ready = true
same_sandbox_status SandboxStatus.failed SandboxStatus.failed = true
same_sandbox_status SandboxStatus.expired SandboxStatus.expired = true
same_sandbox_status SandboxStatus.deleted SandboxStatus.deleted = true
same_sandbox_status _ _ = false

-- `status is None or computed_status == status`
abbrev pub is_asked_status : Option SandboxStatus → SandboxStatus → Bool
is_asked_status none s = true
is_asked_status (some asked) s = same_sandbox_status s asked

-- The caller's own live sandboxes, without those of the warm pool.
abbrev pub is_client_sandbox : ℕ → Sandbox → Bool
is_client_sandbox owner s = (s.owner == owner) && is_none s.deleted_at && not s.is_warm_pool

-- `Sandbox.id > cursor`
abbrev pub is_past_cursor : Option ℕ → Sandbox → Bool
is_past_cursor none s = true
is_past_cursor (some k) s = ltb k s.id

-- `sessions_by_id.get(sandbox.current_session_id)`
abbrev pub current_session : List Session → Sandbox → Option Session
current_session sessions sandbox = elim sandbox.current_session_id [
  | none ↦ none
  | some k ↦ first (λ s. s.id == k) sessions
]

abbrev pub item_of : ℕ → List Session → Sandbox → SandboxListItem
item_of now sessions sandbox = record {
  sandbox = sandbox;
  status = compute_status sandbox now (current_session sessions sandbox);
}

-- What a batch leaves: enough items, with the last id looked at, or too few.
pub data Scan : Type 0 where
  full : List SandboxListItem → ℕ → Scan
  more : List SandboxListItem → Scan

abbrev pub scan_batch_size : ℕ → ℕ
scan_batch_size limit = min (max (limit * 5) 50) 500

abbrev pub max_scanned : ℕ → ℕ
max_scanned limit = max (limit * 20) 1000

abbrev pub last_id : Sandbox → List Sandbox → ℕ
last_id s [] = s.id
last_id s (t ∷ ts) = last_id t ts

module _ (now : ℕ) (sessions : List Session) (status : Option SandboxStatus) (limit : ℕ) where
  abbrev pub grown : List SandboxListItem → Sandbox → List SandboxListItem
  grown returned sandbox =
      let item : SandboxListItem = item_of now sessions sandbox in
      if is_asked_status status item.status then returned ++ item ∷ [] else returned

  abbrev pub is_enough : List SandboxListItem → Sandbox → Bool
  is_enough returned sandbox =
      is_asked_status status (item_of now sessions sandbox).status
      && leb limit (length (grown returned sandbox))

  unfoldable pub scan_batch : List SandboxListItem → List Sandbox → Scan
  scan_batch returned [] = Scan.more returned
  scan_batch returned (sandbox ∷ batch) =
      let rest = scan_batch (grown returned sandbox) batch in
      if is_enough returned sandbox then Scan.full (grown returned sandbox) sandbox.id else rest

  module _ (owner : ℕ) (rows : List Sandbox) where
    -- `where(...).order_by(Sandbox.id).limit(n)`
    abbrev pub batch_from : Option ℕ → ℕ → List Sandbox
    batch_from cursor n = limit_rows n (
        select (λ s. is_client_sandbox owner s && is_past_cursor cursor s)
          (order_by (λ s. s.id) rows))

    abbrev pub cursor_if : ℕ → List Sandbox → Option ℕ
    cursor_if k [] = none
    cursor_if k (s ∷ ss) = some k

    -- `go_on` is the rest of the loop.
    abbrev pub after_batch : (List SandboxListItem → Option Listed) → ℕ → Scan → Option Listed
    after_batch go_on seen (Scan.full returned k) =
        some (limit_rows limit returned, cursor_if k (batch_from (some k) 1))
    after_batch go_on seen (Scan.more returned) =
        if ltb seen (scan_batch_size limit) then some (returned, none) else go_on returned

    -- `next` is the next round, from the last id of the batch and its length on.
    abbrev pub with_batch :
        (ℕ → ℕ → List SandboxListItem → Option Listed)
        → List SandboxListItem
        → List Sandbox
        → Option Listed
    with_batch next returned [] = some (returned, none)
    with_batch next returned (s ∷ ss) =
        after_batch (next (last_id s ss) (length (s ∷ ss))) (length (s ∷ ss))
          (scan_batch returned (s ∷ ss))

    -- A bound on the rounds stands first; `last` is `last_scanned_id`.
    unfoldable pub scan_from : ℕ → Option ℕ → Option ℕ → ℕ → List SandboxListItem → Option Listed
    scan_from zero cursor last scanned returned =
        if ltb scanned (max_scanned limit) then none else some (returned, last)
    scan_from (suc n) cursor last scanned returned =
        let round =
          with_batch (λ k seen. scan_from n (some k) (some k) (scanned + seen)) returned
            (batch_from cursor (scan_batch_size limit)) in
        if ltb scanned (max_scanned limit) then round else some (returned, last)

unfoldable pub list_sandboxes :
    List Sandbox → List Session → ℕ → ℕ → Option SandboxStatus → ℕ → Option ℕ → Option Listed
list_sandboxes rows sessions now owner status limit cursor =
    scan_from now sessions status limit owner rows (max_scanned limit) cursor none 0 []
