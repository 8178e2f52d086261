-- ===== src/Sandbox/Whole.antt =====
-- What `SandboxManager.list` leaves out of a page, its next cursor finds.
use mathlib.Core.Path.{subst}
use astrbot_shipyard_neo.Base.{
  ℕ, zero, suc, ◌+◌, ◌≤◌, ◌<◌, ◌≡◌, refl, sym, ap, ◌∙◌, true, false, Option, none, some, List, [],
  ◌∷◌, ◌++◌, append_assoc, arith, ltb, Bool-cases, inl, inr, select, limit_rows, skip_rows,
  order_by, length, IsDistinctBy, order_by-IsAscendingBy, select-IsAscendingBy, rows_after,
  select-and,
}
use astrbot_shipyard_neo.Model.{Sandbox, SandboxStatus, Session}
use astrbot_shipyard_neo.Sandbox.Listing.{
  SandboxListItem, Listed, Scan, is_client_sandbox, is_past_cursor, scan_batch_size, max_scanned,
  last_id, scan_batch, batch_from, cursor_if, after_batch, with_batch, scan_from, list_sandboxes,
}
use astrbot_shipyard_neo.Sandbox.Listed.{
  limit-skip, skip_short, limit_whole, last_of, items, items-append, IsScanned,
  scan_batch-IsScanned,
}

module _ (now : ℕ) (sessions : List Session) (status : Option SandboxStatus) (limit owner : ℕ)
    (rows : List Sandbox) where
  -- The caller's sandboxes after a cursor, whatever their status.
  abbrev pub remaining : Option ℕ → List Sandbox
  remaining cursor =
      select (is_past_cursor cursor) (select (is_client_sandbox owner) (order_by (λ s. s.id) rows))

  -- What a client that goes on from an answer can still get.
  abbrev pub after_next : Option ℕ → List SandboxListItem
  after_next none = []
  after_next (some k) = items now sessions status limit (remaining (some k))

  -- A page and its next cursor stand for some items.
  abbrev pub IsListing : List SandboxListItem → Option Listed → Type 0
  IsListing expected none = ⊥
  IsListing expected (some (page, next)) =
      (page ++ after_next next ≡ expected) × (length page ≤ limit)

  batch_from-remaining :
      (cursor : Option ℕ) (n : ℕ)
      → batch_from now sessions status limit owner rows cursor n ≡ limit_rows n (remaining cursor)
  batch_from-remaining cursor n =
      ap (limit_rows n)
        (select-and (is_client_sandbox owner) (is_past_cursor cursor) (order_by (λ s. s.id) rows))

  cursor_if-rows :
      (k : ℕ) (xs : List Sandbox)
      → remaining (some k) ≡ xs
      → after_next (cursor_if now sessions status limit owner rows k (limit_rows 1 xs))
        ≡ items now sessions status limit xs
  cursor_if-rows k [] e = refl
  cursor_if-rows k (x ∷ xs) e = ap (items now sessions status limit) e

  module _ (distinct : IsDistinctBy (λ s. s.id) rows) where
    remaining-after :
        (cursor : Option ℕ) (front : List Sandbox) (s : Sandbox) (xs : List Sandbox)
        → remaining cursor ≡ front ++ s ∷ xs
        → remaining (some s.id) ≡ xs
    remaining-after cursor front s xs e =
        rows_after (λ t. t.id) (is_past_cursor cursor)
          (select (is_client_sandbox owner) (order_by (λ t. t.id) rows)) front s xs
          (select-IsAscendingBy (λ t. t.id) (is_client_sandbox owner) (order_by (λ t. t.id) rows)
            (order_by-IsAscendingBy (λ t. t.id) rows distinct))
          (later cursor) e
      where
        later :
            (cursor : Option ℕ) (y : Sandbox)
            → is_past_cursor cursor s ≡ true
            → ltb s.id y.id ≡ true
            → is_past_cursor cursor y ≡ true
        later none y h g = refl
        later (some k) y h g = ground (arith, h, g)

    full-IsListing :
        (cursor : Option ℕ) (returned r : List SandboxListItem) (batch tail front : List Sandbox)
        (s : Sandbox) (after : List Sandbox)
        → remaining cursor ≡ batch ++ tail
        → batch ≡ front ++ s ∷ after
        → r ++ items now sessions status limit after
          ≡ returned ++ items now sessions status limit batch
        → length r ≤ limit
        → IsListing (returned ++ items now sessions status limit (batch ++ tail)) (
            some (
              limit_rows limit r,
              cursor_if now sessions status limit owner rows s.id
                  (batch_from now sessions status limit owner rows (some s.id) 1),
            ))
    full-IsListing cursor returned r batch tail front s after whole split kept few =
        let all : List Sandbox → List SandboxListItem = items now sessions status limit in
        let behind : remaining (some s.id) ≡ after ++ tail =
          remaining-after cursor front s (after ++ tail)
            (whole ∙ ap (λ b. b ++ tail) split ∙ append_assoc front (s ∷ after) tail) in
        let next : after_next (
              cursor_if now sessions status limit owner rows s.id
                (batch_from now sessions status limit owner rows (some s.id) 1))
            ≡ all (after ++ tail) =
          ap (λ b. after_next (cursor_if now sessions status limit owner rows s.id b))
            (batch_from-remaining (some s.id) 1 ∙ ap (limit_rows 1) behind)
          ∙ cursor_if-rows s.id (after ++ tail) behind in
        rw (limit_whole limit r few) (
          ap (λ is. r ++ is) (next ∙ items-append now sessions status limit after tail)
              ∙ sym (append_assoc r (all after) (all tail))
              ∙ ap (λ is. is ++ all tail) kept
              ∙ append_assoc returned (all batch) (all tail)
              ∙ ap (λ is. returned ++ is) (sym (items-append now sessions status limit batch tail)),
          few,
        )

    after_batch-IsListing :
        (cursor : Option ℕ) (returned : List SandboxListItem) (batch tail : List Sandbox) (r : Scan)
        (go_on : List SandboxListItem → Option Listed)
        → remaining cursor ≡ batch ++ tail
        → (length batch < scan_batch_size limit → tail ≡ [])
        → IsScanned now sessions status limit returned batch r
        → ((is : List SandboxListItem)
            → length is < limit
            → IsListing (is ++ items now sessions status limit tail) (go_on is))
        → IsListing
            (returned ++ items now sessions status limit (batch ++ tail))
            (after_batch now sessions status limit owner rows go_on (length batch) r)
    after_batch-IsListing cursor returned batch tail (Scan.full r k) go_on whole short
          (front, s, after, split, same, kept, few) next =
        subst
          (λ i. IsListing (returned ++ items now sessions status limit (batch ++ tail)) (
            some (
              limit_rows limit r,
              cursor_if now sessions status limit owner rows i
                  (batch_from now sessions status limit owner rows (some i) 1),
            )))
          (sym same)
          (full-IsListing cursor returned r batch tail front s after whole split kept few)
    after_batch-IsListing cursor returned batch tail (Scan.more r) go_on whole short (kept, few)
          next =
        let all : List Sandbox → List SandboxListItem = items now sessions status limit in
        let expected : r ++ all tail ≡ returned ++ all (batch ++ tail) =
          ap (λ is. is ++ all tail) kept
          ∙ append_assoc returned (all batch) (all tail)
          ∙ ap (λ is. returned ++ is) (sym (items-append now sessions status limit batch tail)) in
        elim (Bool-cases (ltb (length batch) (scan_batch_size limit))) [
          | inl e ↦ rw e (
            subst (λ t. r ++ all t ≡ returned ++ all (batch ++ tail)) (short (ground (arith, e)))
                expected,
            omega (arith, few),
          )
          | inr e ↦ rw e (subst (λ is. IsListing is (go_on r)) expected (next r few))
        ]

    with_batch-IsListing :
        (cursor : Option ℕ) (returned : List SandboxListItem) (batch tail : List Sandbox)
        (next : ℕ → ℕ → List SandboxListItem → Option Listed)
        → remaining cursor ≡ batch ++ tail
        → (length batch < scan_batch_size limit → tail ≡ [])
        → length returned < limit
        → ((k seen : ℕ) (is : List SandboxListItem)
            → 0 < seen
            → remaining (some k) ≡ tail
            → length is < limit
            → IsListing (is ++ items now sessions status limit tail) (next k seen is))
        → IsListing
            (returned ++ items now sessions status limit (batch ++ tail))
            (with_batch now sessions status limit owner rows next returned batch)
    with_batch-IsListing cursor returned [] tail next whole short few go_on =
        let none_left : tail ≡ [] = short (omega arith) in
        (
          ap (λ t. returned ++ items now sessions status limit t) (sym none_left),
          omega (arith, few),
        )
    with_batch-IsListing cursor returned (s ∷ ss) tail next whole short few go_on =
        let (front, t, e, same) = last_of s ss in
        let behind : remaining (some (last_id s ss)) ≡ tail =
          ap (λ k. remaining (some k)) same
          ∙ remaining-after cursor front t tail
              (whole ∙ ap (λ b. b ++ tail) e ∙ append_assoc front (t ∷ []) tail) in
        after_batch-IsListing cursor returned (s ∷ ss) tail
          (scan_batch now sessions status limit returned (s ∷ ss))
          (next (last_id s ss) (length (s ∷ ss))) whole short
          (scan_batch-IsScanned now sessions status limit returned (s ∷ ss) few)
          (λ is small. go_on (last_id s ss) (length (s ∷ ss)) is (omega arith) behind small)

    scan_from-IsListing :
        (n : ℕ) (cursor last : Option ℕ) (scanned : ℕ) (returned : List SandboxListItem)
        → max_scanned limit ≤ scanned + n
        → length returned < limit
        → (ltb scanned (max_scanned limit) ≡ false
            → after_next last ≡ items now sessions status limit (remaining cursor))
        → IsListing
            (returned ++ items now sessions status limit (remaining cursor))
            (scan_from now sessions status limit owner rows n cursor last scanned returned)
    unfolding scan_from
    scan_from-IsListing zero cursor last scanned returned enough few found =
        elim (Bool-cases (ltb scanned (max_scanned limit))) [
          | inl e ↦ absurd (ground (arith, e, enough))
          | inr e ↦ rw e (ap (λ is. returned ++ is) (found e), omega (arith, few))
        ]
    scan_from-IsListing (suc n) cursor last scanned returned enough few found =
        let xs : List Sandbox = remaining cursor in
        let size : ℕ = scan_batch_size limit in
        let next : ℕ → ℕ → List SandboxListItem → Option Listed = λ k seen.
          scan_from now sessions status limit owner rows n (some k) (some k) (scanned + seen) in
        let round =
          with_batch-IsListing cursor returned (limit_rows size xs) (skip_rows size xs) next
            (limit-skip size xs) (skip_short size xs) few
            (λ k seen is some_rows behind small.
              subst (λ t. IsListing (is ++ items now sessions status limit t) (next k seen is))
                behind
                (scan_from-IsListing n (some k) (some k) (scanned + seen) is
                  (omega (arith, enough, some_rows)) small (λ e. refl))) in
        elim (Bool-cases (ltb scanned (max_scanned limit))) [
          | inl e ↦ rw e (
              subst
                (λ b.
                  IsListing (returned ++ items now sessions status limit xs)
                    (with_batch now sessions status limit owner rows next returned b))
                (sym (batch_from-remaining cursor size))
                (subst
                  (λ t. IsListing (returned ++ items now sessions status limit t) (
                    with_batch now sessions status limit owner rows next returned
                      (limit_rows size xs)))
                  (sym (limit-skip size xs)) round))
          | inr e ↦ rw e (ap (λ is. returned ++ is) (found e), omega (arith, few))
        ]

    page_if :
        (expected : List SandboxListItem) (r : Option Listed)
        → IsListing expected r
        → (page : List SandboxListItem) × (next : Option ℕ) × (r ≡ some (page, next))
          × (page ++ after_next next ≡ expected)
          × (length page ≤ limit)
    page_if expected none h = absurd h
    page_if expected (some (page, next)) h = (page, next, refl, h.0, h.1)

    -- With different ids in the table and a positive limit, a listing ends with a page of at most
    -- `limit` sandboxes, and the page with what is still to be had after its next cursor (nothing,
    -- without one) is all that was to be had after the cursor: the caller's live sandboxes outside the
    -- warm pool, of the status asked for, in the order of their ids.
    pub list_sandboxes_lem :
        (cursor : Option ℕ)
        → 0 < limit
        → (page : List SandboxListItem) × (next : Option ℕ) × (list_sandboxes rows sessions now
              owner status limit cursor
            ≡ some (page, next))
          × (page ++ after_next next ≡ items now sessions status limit (remaining cursor))
          × (length page ≤ limit)
    unfolding list_sandboxes
    list_sandboxes_lem cursor positive =
        page_if (items now sessions status limit (remaining cursor))
          (list_sandboxes rows sessions now owner status limit cursor)
          (scan_from-IsListing (max_scanned limit) cursor none 0 [] (omega arith)
            (omega (arith, positive)) (λ e. absurd (ground (arith, e))))
