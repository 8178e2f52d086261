-- ===== src/Cargo/Listing.antt =====
-- `CargoManager.list`, and a client that follows its cursors. The order of the ids stands for that of
-- the texts.
use astrbot_shipyard_neo.Base.{
  ℕ, zero, suc, Bool, true, false, Option, none, some, List, [], ◌∷◌, ◌++◌, ◌==◌, ◌&&◌, not, ltb,
  if◌then◌else◌, select, length,
}
use astrbot_shipyard_neo.Model.{Cargo}
use astrbot_shipyard_neo.World.Runtime.{Runtime, Error, Result, ok, raise}
use astrbot_shipyard_neo.World.Effect.{M}

-- `ORDER BY id`
abbrev pub insert : Cargo → List Cargo → List Cargo
insert c [] = c ∷ []
insert c (d ∷ ds) = let rest = insert c ds in if ltb d.id c.id then d ∷ rest else c ∷ d ∷ ds

abbrev pub by_id : List Cargo → List Cargo
by_id [] = []
by_id (c ∷ cs) = insert c (by_id cs)

abbrev pub take : ℕ → List Cargo → List Cargo
take zero cs = []
take (suc n) [] = []
take (suc n) (c ∷ cs) = c ∷ take n cs

abbrev pub last : Cargo → List Cargo → Cargo
last c [] = c
last c (d ∷ ds) = last d ds

abbrev same_flag : Bool → Bool → Bool
same_flag true b = b
same_flag false b = not b

-- `managed is None or Cargo.managed == managed`
abbrev pub has_flag : Option Bool → Cargo → Bool
has_flag none c = true
has_flag (some b) c = same_flag b c.managed

abbrev pub is_wanted : ℕ → Option Bool → Cargo → Bool
is_wanted owner managed c = (c.owner == owner) && has_flag managed c

-- `Cargo.id > cursor`
abbrev pub is_after : Option ℕ → Cargo → Bool
is_after none c = true
is_after (some k) c = ltb k c.id

-- `cargos[-1].id` raises an `IndexError` on an empty page.
abbrev pub close_page : List Cargo → Result (List Cargo × Option ℕ)
close_page [] = raise Error.lookup
close_page (c ∷ cs) = ok (c ∷ cs, some ((last c cs).id))

abbrev pub page_of : ℕ → List Cargo → Result (List Cargo × Option ℕ)
page_of limit found =
    if ltb limit (length found) then close_page (take limit found) else ok (found, none)

unfoldable pub page : ℕ → Option Bool → ℕ → Option ℕ → List Cargo → Result (List Cargo × Option ℕ)
page owner managed limit cursor rows =
    page_of limit
      (take (suc limit) (select (λ c. is_wanted owner managed c && is_after cursor c) (by_id rows)))

unfoldable pub list_cargos :
    (rt : Runtime) → ℕ → Option Bool → ℕ → Option ℕ → M rt.Outside (List Cargo × Option ℕ)
unfolding page
list_cargos rt owner managed limit cursor w = (page owner managed limit cursor w.cargos, w)

-- All the pages from a cursor on, with a bound on their number.
abbrev pub collect_from : (Option ℕ → List Cargo) → Result (List Cargo × Option ℕ) → List Cargo
collect_from more (raise e) = []
collect_from more (ok (cs, none)) = cs
collect_from more (ok (cs, some k)) = cs ++ more (some k)

unfoldable pub collect : ℕ → ℕ → Option Bool → ℕ → Option ℕ → List Cargo → List Cargo
unfolding page
collect zero owner managed limit cursor rows = []
collect (suc n) owner managed limit cursor rows =
    collect_from (λ next. collect n owner managed limit next rows)
      (page owner managed limit cursor rows)
