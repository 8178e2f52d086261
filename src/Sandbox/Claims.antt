-- ===== src/Sandbox/Claims.antt =====
-- The warm pool's table as a transition system: the statements of all processes that share the
-- database, in any order, with a log of the sandboxes that were claimed. A claim is the conditional
-- update of `claim_warm_sandbox`, which the database carries out as one step.
use astrbot_shipyard_neo.Base.{
  ℕ, ◌+◌, ◌≤◌, ◌≡◌, refl, Bool, true, Option, List, [], ◌∷◌, ◌==◌, ◌&&◌, arith, if◌then◌else◌,
  Bool-cases, inl, inr, update, count, times, ℤ,
}
use astrbot_shipyard_neo.Model.{Sandbox}
use astrbot_shipyard_neo.World.Runtime.{Runtime, Result, ok}
use astrbot_shipyard_neo.World.Effect.{World}
use astrbot_shipyard_neo.Sandbox.Warm.{
  is_claimable_row, claimed_by, claim_row, mark_warm_available, mark_warm_retiring,
  made_available_at, is_retirable, as_retiring,
}

-- The rows of an id that are in the pool.
abbrev pub is_pooled : ℕ → Sandbox → Bool
is_pooled k s = (s.id == k) && s.is_warm_pool

-- What the other operations of the manager write: neither the id nor the pool's mark.
abbrev pub IsModest : (Sandbox → Sandbox) → Type 0
IsModest f = (s : Sandbox) → ((f s).id ≡ s.id) × ((f s).is_warm_pool ≡ s.is_warm_pool)

abbrev pub log_claim : ℕ → Result Bool → List ℕ → List ℕ
log_claim k (ok true) log = k ∷ log
log_claim k _ log = log

module _ (rt : Runtime) where
  pub data Step : List ℕ → World rt.Outside → List ℕ → World rt.Outside → Type 0 where
    claimed :
        (log : List ℕ) (w : World rt.Outside) (sandbox_id profile_id owner now : ℕ) (ttl : Option ℤ)
        → Step log w
            (log_claim sandbox_id (claim_row rt sandbox_id profile_id owner now ttl w).0 log)
            (claim_row rt sandbox_id profile_id owner now ttl w).1
    made_available :
        (log : List ℕ) (w : World rt.Outside) (sandbox_id warm_rotate_ttl : ℕ)
        → Step log w log (mark_warm_available rt sandbox_id warm_rotate_ttl w).1
    retired :
        (log : List ℕ) (w : World rt.Outside) (sandbox_id : ℕ)
        → Step log w log (mark_warm_retiring rt sandbox_id w).1
    -- `create` and `create_warm_sandbox`: the id of a new row is new.
    inserted :
        (log : List ℕ) (w : World rt.Outside) (s : Sandbox)
        → count (λ t. t.id == s.id) w.sandboxes ≡ 0
        → times s.id log ≡ 0
        → Step log w log (record w { sandboxes = s ∷ w.sandboxes })
    -- the writes of `ensure_running`, `stop`, `delete`, `extend_ttl` and `keepalive`
    written :
        (log : List ℕ) (w : World rt.Outside) (test : Sandbox → Bool) (f : Sandbox → Sandbox)
        → IsModest f
        → Step log w log (record w { sandboxes = update test f w.sandboxes })

  pub data Reachable : List ℕ → World rt.Outside → Type 0 where
    started : (w : World rt.Outside) → w.sandboxes ≡ [] → Reachable [] w
    next :
        {log more : List ℕ} {w v : World rt.Outside}
        → Reachable log w
        → Step log w more v
        → Reachable more v

-- A sandbox is in the pool or was claimed, and only once.
abbrev pub IsOnce : List ℕ → List Sandbox → Type 0
IsOnce log rows = (k : ℕ) → times k log + count (is_pooled k) rows ≤ 1

count-claim :
    (k sandbox_id profile_id owner now : ℕ) (ttl : Option ℤ) (rows : List Sandbox)
    → count
          (is_pooled k)
          (update (is_claimable_row sandbox_id profile_id) (claimed_by owner now ttl) rows)
        + (if sandbox_id == k then count (is_claimable_row sandbox_id profile_id) rows else 0)
      ≤ count (is_pooled k) rows
count-claim k sandbox_id profile_id owner now ttl [] = ground arith
count-claim k sandbox_id profile_id owner now ttl (s ∷ rows) =
    ground (arith, count-claim k sandbox_id profile_id owner now ttl rows)

count-modest :
    (k : ℕ) (test : Sandbox → Bool) (f : Sandbox → Sandbox) (rows : List Sandbox)
    → IsModest f
    → count (is_pooled k) (update test f rows) ≡ count (is_pooled k) rows
count-modest k test f [] h = refl
count-modest k test f (s ∷ rows) h = ground (arith, count-modest k test f rows h, h s)

count-absent :
    (k : ℕ) (rows : List Sandbox) → count (λ t. t.id == k) rows ≡ 0 → count (is_pooled k) rows ≡ 0
count-absent k [] h = refl
count-absent k (s ∷ rows) h = ground (arith, count-absent k rows)

claim-IsOnce :
    (log : List ℕ) (sandbox_id profile_id owner now : ℕ) (ttl : Option ℤ) (rows : List Sandbox)
    → IsOnce log rows
    → IsOnce
        (log_claim sandbox_id (ok (count (is_claimable_row sandbox_id profile_id) rows == 1)) log)
        (update (is_claimable_row sandbox_id profile_id) (claimed_by owner now ttl) rows)
claim-IsOnce log sandbox_id profile_id owner now ttl rows h k =
    elim (Bool-cases (count (is_claimable_row sandbox_id profile_id) rows == 1)) [
      | inl one ↦ rw one ground (arith, h k, count-claim k sandbox_id profile_id owner now ttl rows)
      | inr not_one ↦
          rw not_one ground (arith, h k, count-claim k sandbox_id profile_id owner now ttl rows)
    ]

insert-IsOnce :
    (log : List ℕ) (s : Sandbox) (rows : List Sandbox)
    → count (λ t. t.id == s.id) rows ≡ 0
    → times s.id log ≡ 0
    → IsOnce log rows
    → IsOnce log (s ∷ rows)
insert-IsOnce log s rows fresh unclaimed h k = elim (Bool-cases (s.id == k)) [
  | inl same ↦ ground (arith, h k, count-absent k rows)
  | inr other ↦ ground (arith, h k)
]

module _ (rt : Runtime) where
  Step-IsOnce :
      (log : List ℕ) (w : World rt.Outside) (more : List ℕ) (v : World rt.Outside)
      → Step rt log w more v
      → IsOnce log w.sandboxes
      → IsOnce more v.sandboxes
  unfolding claim_row mark_warm_available mark_warm_retiring
  Step-IsOnce _ _ _ _ (claimed log w sandbox_id profile_id owner now ttl) h k =
      claim-IsOnce log sandbox_id profile_id owner now ttl w.sandboxes h k
  Step-IsOnce _ _ _ _ (made_available log w sandbox_id ttl) h k = ground (
    arith,
    h k,
    count-modest k (λ s. (s.id == sandbox_id) && s.is_warm_pool)
        (made_available_at (rt.utcnow w.outside).0 ttl) w.sandboxes (λ s. (refl, refl)),
  )
  Step-IsOnce _ _ _ _ (retired log w sandbox_id) h k = ground (
    arith,
    h k,
    count-modest k (is_retirable sandbox_id) as_retiring w.sandboxes (λ s. (refl, refl)),
  )
  Step-IsOnce _ _ _ _ (inserted log w s fresh unclaimed) h k =
      insert-IsOnce log s w.sandboxes fresh unclaimed h k
  Step-IsOnce _ _ _ _ (written log w test f modest) h k =
      ground (arith, h k, count-modest k test f w.sandboxes modest)

  -- Whatever the order in which all processes claim, mark, insert and write sandboxes, for every id
  -- the number of its claims that succeeded and of its rows in the pool is at most one.
  pub claimed_once :
      (log : List ℕ) (w : World rt.Outside)
      → Reachable rt log w
      → (k : ℕ) → times k log + count (is_pooled k) w.sandboxes ≤ 1
  claimed_once _ _ (started w empty) k = rw empty (omega arith)
  claimed_once _ _ (next {log} {more} {w} {v} earlier step) k =
      Step-IsOnce log w more v step (claimed_once log w earlier) k
