-- ===== src/Cargo/Tests.antt =====
-- The deletion theorems at a managed cargo and its sandbox.
use astrbot_shipyard_neo.Base.{
  delete, ◌≡◌, refl, ◌⊎◌, true, false, none, some, ◌==◌, first, List, [], ◌∷◌, arith, update, is_id,
  select,
}
use astrbot_shipyard_neo.Model.{Cargo}
use astrbot_shipyard_neo.World.Runtime.{Error, ok, raise}
use astrbot_shipyard_neo.World.Sample.{calm, start, hold}
use astrbot_shipyard_neo.Cargo.{is_owned, is_user, is_in_use, delete_cargo, without_cargo}
use astrbot_shipyard_neo.Cargo.Delete.{delete_cargo_ok}
use astrbot_shipyard_neo.Cargo.Listing.{page, collect}
use astrbot_shipyard_neo.Cargo.Whole.{collect-wanted}

forced : (delete_cargo calm 2 7 true start).0 ≡ ok tt
unfolding delete_cargo
forced = refl

delete_cargo_ok_example :
    (c : Cargo) × (first (is_owned 2 7) start.cargos ≡ some c)
    × ((true ≡ true) ⊎ (is_in_use start.sandboxes c ≡ false))
    × ((delete_cargo calm 2 7 true start).1.cargos ≡ delete (λ d. d.id == 2) start.cargos)
    × (first (λ d. d.id == 2) (delete_cargo calm 2 7 true start).1.cargos ≡ none)
    × ((delete_cargo calm 2 7 true start).1.sandboxes
        ≡ update (λ s. is_id s.cargo_id 2) without_cargo start.sandboxes)
    × (select (is_user 2) (delete_cargo calm 2 7 true start).1.sandboxes ≡ [])
    × ((delete_cargo calm 2 7 true start).1.sessions ≡ start.sessions)
delete_cargo_ok_example = delete_cargo_ok calm 2 7 true start forced

refused : (delete_cargo calm 2 8 true start).0 ≡ raise Error.not_found
unfolding delete_cargo
refused = refl

-- Three cargos of the owner 7 out of order, one of them external, and one of another owner.
abbrev shelf : List Cargo
shelf =
    record hold { id = 9 }
    ∷ record hold { id = 4; owner = 8 }
    ∷ record hold { id = 5; managed = false }
    ∷ hold
    ∷ []

first_page :
    page 7 none 2 none shelf ≡ ok (hold ∷ record hold { id = 5; managed = false } ∷ [], some 5)
unfolding page
first_page = refl

collect-wanted_example :
    collect 9 7 none 2 none shelf
    ≡ hold ∷ record hold { id = 5; managed = false } ∷ record hold { id = 9 } ∷ []
collect-wanted_example =
    collect-wanted 7 none shelf
      ((refl, (refl, (refl, tt))), ((refl, (refl, tt)), ((refl, tt), (tt, tt)))) 2 9 (omega arith)
      (omega arith)
