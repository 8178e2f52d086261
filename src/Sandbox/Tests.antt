-- ===== src/Sandbox/Tests.antt =====
-- The sandbox theorems at one sandbox with its cargo and session.
use astrbot_shipyard_neo.Base.{
  arith, Option, some, length, ◌++◌, select, ℕ, ◌+◌, ◌≤◌, ◌≡◌, refl, true, false, none, List, [],
  ◌∷◌, pos, negsuc, count, times,
}
use astrbot_shipyard_neo.Model.{Sandbox, compute_status, get_profile}
use astrbot_shipyard_neo.World.Runtime.{Error, ok, raise}
use astrbot_shipyard_neo.World.Effect.{World, for_each, get_sandbox_lock, cleanup_sandbox_lock}
use astrbot_shipyard_neo.World.Sample.{calm, start, box, settings}
use astrbot_shipyard_neo.Sandbox.Listing.{
  SandboxListItem, Listed, item_of, scan_batch, scan_from, list_sandboxes,
}
use astrbot_shipyard_neo.Sandbox.Listed.{items}
use astrbot_shipyard_neo.Sandbox.Whole.{remaining, after_next, list_sandboxes_lem}
use astrbot_shipyard_neo.Cargo.{delete_cargo}
use astrbot_shipyard_neo.Session.Manager.{destroy_session}
use astrbot_shipyard_neo.Sandbox.Lifecycle.{delete_sandbox}
use astrbot_shipyard_neo.Sandbox.Removal.{is_session_of, delete_sandbox_empties}
use astrbot_shipyard_neo.Sandbox.Warm.{claim_row, mark_warm_available}
use astrbot_shipyard_neo.Sandbox.Claims.{
  Reachable, started, next, claimed, inserted, made_available, log_claim, is_pooled, claimed_once,
}
use astrbot_shipyard_neo.Sandbox.Ttl.{extend_ttl, extend_ttl-add}

extended_once :
    (extend_ttl calm 1 7 (pos 60) start).0 ≡ ok (record box { expires_at = some 60000900 })
unfolding extend_ttl
extended_once = refl

extended_again :
    (extend_ttl calm 1 7 (pos 5) (extend_ttl calm 1 7 (pos 60) start).1).0
    ≡ ok (record box { expires_at = some 65000900 })
unfolding extend_ttl
extended_again = refl

extend_ttl-add_example :
    ((extend_ttl calm 1 7 (pos 65) start).0 ≡ ok (record box { expires_at = some 65000900 }))
    × ((extend_ttl calm 1 7 (pos 65) start).1.sandboxes
        ≡ (extend_ttl calm 1 7 (pos 5) (extend_ttl calm 1 7 (pos 60) start).1).1.sandboxes)
extend_ttl-add_example = extend_ttl-add calm 1 7 59 4 start extended_once extended_again

-- A moment after the year 9999.
too_far : (extend_ttl calm 1 7 (pos 400000000000) start).0 ≡ raise Error.overflow
unfolding extend_ttl
too_far = refl

not_positive : (extend_ttl calm 1 7 (negsuc 4) start).0 ≡ raise Error.validation
unfolding extend_ttl
not_positive = refl

abbrev warm_box : Sandbox
warm_box = record box { is_warm_pool = true; owner = 0 }

abbrev empty_pool : World ℕ
empty_pool = record start { sandboxes = [] }

abbrev warm_pool : World ℕ
warm_pool = (mark_warm_available calm 1 30 (record empty_pool { sandboxes = warm_box ∷ [] })).1

-- Two users claim the one warm sandbox, one after the other.
abbrev once_claimed : World ℕ
once_claimed = (claim_row calm 1 5 8 200 none warm_pool).1

abbrev twice_claimed : World ℕ
twice_claimed = (claim_row calm 1 5 9 201 none once_claimed).1

first_wins :
    ((claim_row calm 1 5 8 200 none warm_pool).0 ≡ ok true)
    × ((claim_row calm 1 5 9 201 none once_claimed).0 ≡ ok false)
unfolding claim_row mark_warm_available
first_wins = (refl, refl)

abbrev two_claims : List ℕ
two_claims =
    log_claim 1 (claim_row calm 1 5 9 201 none once_claimed).0
      (log_claim 1 (claim_row calm 1 5 8 200 none warm_pool).0 [])

two_claims-Reachable : Reachable calm two_claims twice_claimed
two_claims-Reachable =
    next
      (next
        (next (next (started empty_pool refl) (inserted [] empty_pool warm_box refl refl))
          (made_available [] (record empty_pool { sandboxes = warm_box ∷ [] }) 1 30))
        (claimed [] warm_pool 1 5 8 200 none))
      (claimed (log_claim 1 (claim_row calm 1 5 8 200 none warm_pool).0 []) once_claimed 1 5 9 201
        none)

claimed_once_example : times 1 two_claims + count (is_pooled 1) twice_claimed.sandboxes ≤ 1
claimed_once_example = claimed_once calm two_claims twice_claimed two_claims-Reachable 1

deleted : (delete_sandbox calm settings box start).0 ≡ ok tt
unfolding delete_sandbox get_sandbox_lock cleanup_sandbox_lock for_each destroy_session delete_cargo
    get_profile
deleted = refl

delete_sandbox_empties_example :
    select (is_session_of 1) (delete_sandbox calm settings box start).1.sessions ≡ []
delete_sandbox_empties_example =
    delete_sandbox_empties calm settings box box start refl refl deleted

abbrev two_boxes : List Sandbox
two_boxes = record box { id = 2 } ∷ box ∷ record box { id = 3; owner = 8 } ∷ []

abbrev one_page : Option Listed
one_page = list_sandboxes two_boxes [] 100 7 none 1 none

-- The page is the sandbox with the smaller id, and there is more.
first_page : one_page ≡ some (item_of 100 [] box ∷ [], some 1)
unfolding list_sandboxes scan_from scan_batch compute_status
first_page = refl

list_sandboxes_lem_example :
    (page : List SandboxListItem) × (next : Option ℕ) × (list_sandboxes two_boxes [] 100 7 none 1
        none
      ≡ some (page, next))
    × (page ++ after_next 100 [] none 1 7 two_boxes next
        ≡ items 100 [] none 1 (remaining 100 [] none 1 7 two_boxes none))
    × (length page ≤ 1)
list_sandboxes_lem_example =
    list_sandboxes_lem 100 [] none 1 7 two_boxes (((refl, (refl, tt)), ((refl, tt), (tt, tt)))) none
      (omega arith)
