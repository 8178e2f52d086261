-- ===== src/Sandbox/Listed.antt =====
-- What one batch of `SandboxManager.list` leaves.
use astrbot_shipyard_neo.Base.{
  ℕ, zero, suc, ◌≤◌, ◌<◌, ◌≡◌, refl, sym, ap, ◌∙◌, false, Option, List, [], ◌∷◌, ◌++◌, append-nil,
  append_assoc, arith, if◌then◌else◌, Bool-cases, inl, inr, limit_rows, skip_rows, length,
}
use astrbot_shipyard_neo.Model.{Sandbox, SandboxStatus, Session}
use astrbot_shipyard_neo.Sandbox.Listing.{
  SandboxListItem, Scan, is_asked_status, item_of, last_id, grown, is_enough, scan_batch,
}

module _ {A : Type 0} where
  pub limit-skip : (n : ℕ) (xs : List A) → xs ≡ limit_rows n xs ++ skip_rows n xs
  limit-skip zero xs = refl
  limit-skip (suc n) [] = refl
  limit-skip (suc n) (x ∷ xs) = ap (◌∷◌ x) (limit-skip n xs)

  pub skip_short : (n : ℕ) (xs : List A) → length (limit_rows n xs) < n → skip_rows n xs ≡ []
  skip_short zero xs h = absurd (omega (arith, h))
  skip_short (suc n) [] h = refl
  skip_short (suc n) (x ∷ xs) h = skip_short n xs (omega (arith, h))

  pub limit_whole : (n : ℕ) (xs : List A) → length xs ≤ n → limit_rows n xs ≡ xs
  limit_whole zero [] h = refl
  limit_whole zero (x ∷ xs) h = absurd (omega (arith, h))
  limit_whole (suc n) [] h = refl
  limit_whole (suc n) (x ∷ xs) h = ap (◌∷◌ x) (limit_whole n xs (omega (arith, h)))

pub last_of :
    (s : Sandbox) (ss : List Sandbox)
    → (front : List Sandbox) × (t : Sandbox) × (s ∷ ss ≡ front ++ t ∷ []) × (last_id s ss ≡ t.id)
last_of s [] = ([], s, refl, refl)
last_of s (t ∷ ts) = let (front, u, e, same) = last_of t ts in (s ∷ front, u, ap (◌∷◌ s) e, same)

module _ (now : ℕ) (sessions : List Session) (status : Option SandboxStatus) (limit : ℕ) where
  -- The rows that have the status asked for, with their status.
  abbrev pub items : List Sandbox → List SandboxListItem
  items [] = []
  items (s ∷ ss) =
      let rest = items ss in
      if is_asked_status status (item_of now sessions s).status
      then item_of now sessions s ∷ rest
      else rest

  pub items-append : (xs ys : List Sandbox) → items (xs ++ ys) ≡ items xs ++ items ys
  items-append [] ys = refl
  items-append (s ∷ ss) ys =
      elim (Bool-cases (is_asked_status status (item_of now sessions s).status)) [
        | inl e ↦ rw e (ap (◌∷◌ (item_of now sessions s)) (items-append ss ys))
        | inr e ↦ rw e (items-append ss ys)
      ]

  grown-items :
      (returned : List SandboxListItem) (s : Sandbox) (ss : List Sandbox)
      → grown now sessions status limit returned s ++ items ss ≡ returned ++ items (s ∷ ss)
  grown-items returned s ss =
      elim (Bool-cases (is_asked_status status (item_of now sessions s).status)) [
        | inl e ↦ rw e (append_assoc returned (item_of now sessions s ∷ []) (items ss))
        | inr e ↦ rw e refl
      ]

  -- What a batch leaves: the items so far and, when they are enough, the row it stopped at.
  abbrev pub IsScanned : List SandboxListItem → List Sandbox → Scan → Type 0
  IsScanned returned batch (Scan.full r k) =
      (front : List Sandbox) × (s : Sandbox) × (after : List Sandbox) × (batch ≡ front ++ s ∷ after)
      × (k ≡ s.id)
      × (r ++ items after ≡ returned ++ items batch)
      × (length r ≤ limit)
  IsScanned returned batch (Scan.more r) = (r ≡ returned ++ items batch) × (length r < limit)

  extend :
      (returned : List SandboxListItem) (s : Sandbox) (ss : List Sandbox) (r : Scan)
      → IsScanned (grown now sessions status limit returned s) ss r
      → IsScanned returned (s ∷ ss) r
  extend returned s ss (Scan.full r k) (front, t, after, e, same, kept, few) =
      (s ∷ front, t, after, ap (◌∷◌ s) e, same, kept ∙ grown-items returned s ss, few)
  extend returned s ss (Scan.more r) (kept, few) = (kept ∙ grown-items returned s ss, few)

  length-snoc :
      (xs : List SandboxListItem) (x : SandboxListItem) → length (xs ++ x ∷ []) ≡ suc (length xs)
  length-snoc [] x = refl
  length-snoc (y ∷ ys) x = omega (arith, length-snoc ys x)

  grown-few :
      (returned : List SandboxListItem) (s : Sandbox)
      → length returned < limit
      → length (grown now sessions status limit returned s) ≤ limit
  grown-few returned s h =
      elim (Bool-cases (is_asked_status status (item_of now sessions s).status)) [
        | inl e ↦ rw e (omega (arith, h, length-snoc returned (item_of now sessions s)))
        | inr e ↦ rw e (omega (arith, h))
      ]

  not_enough :
      (returned : List SandboxListItem) (s : Sandbox)
      → length returned < limit
      → is_enough now sessions status limit returned s ≡ false
      → length (grown now sessions status limit returned s) < limit
  not_enough returned s h few =
      elim (Bool-cases (is_asked_status status (item_of now sessions s).status)) [
        | inl e ↦ ground (arith, e, few)
        | inr e ↦ rw e h
      ]

  pub scan_batch-IsScanned :
      (returned : List SandboxListItem) (batch : List Sandbox)
      → length returned < limit
      → IsScanned returned batch (scan_batch now sessions status limit returned batch)
  unfolding scan_batch
  scan_batch-IsScanned returned [] h = (sym (append-nil returned), h)
  scan_batch-IsScanned returned (s ∷ ss) h =
      elim (Bool-cases (is_enough now sessions status limit returned s)) [
        | inl e ↦ rw e ([], s, ss, refl, refl, grown-items returned s ss, grown-few returned s h)
        | inr e ↦ rw e (
            extend returned s ss
              (scan_batch now sessions status limit (grown now sessions status limit returned s) ss)
              (scan_batch-IsScanned (grown now sessions status limit returned s) ss
                (not_enough returned s h e)))
      ]
