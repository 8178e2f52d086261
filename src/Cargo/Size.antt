-- ===== src/Cargo/Size.antt =====
-- The size of a page.
use astrbot_shipyard_neo.Base.{
  ℕ, zero, suc, ◌≤◌, ◌≡◌, refl, Bool, Option, none, some, List, [], ◌∷◌, ◌&&◌, arith, ltb, select,
  length, Bool-cases, inl, inr,
}
use astrbot_shipyard_neo.Model.{Cargo}
use astrbot_shipyard_neo.World.Runtime.{Result, ok, raise}
use astrbot_shipyard_neo.Cargo.Listing.{by_id, take, last, is_wanted, is_after, page_of, page}

-- A page without a cursor has at most `limit` rows, one with a cursor exactly so many, the cursor being
-- the id of its last row; only a limit of 0 raises.
abbrev pub IsPage : ℕ → Result (List Cargo × Option ℕ) → Type 0
IsPage limit (raise e) = limit ≡ 0
IsPage limit (ok (cs, none)) = length cs ≤ limit
IsPage limit (ok ([], some k)) = ⊥
IsPage limit (ok (c ∷ cs, some k)) = (length (c ∷ cs) ≡ limit) × (k ≡ (last c cs).id)

length-take_long : (n : ℕ) (cs : List Cargo) → n ≤ length cs → length (take n cs) ≡ n
length-take_long zero cs h = refl
length-take_long (suc n) [] h = absurd (omega (arith, h))
length-take_long (suc n) (c ∷ cs) h = omega (arith, length-take_long n cs (omega (arith, h)))

page_of-IsPage : (limit : ℕ) (cs : List Cargo) → IsPage limit (page_of limit (take (suc limit) cs))
page_of-IsPage zero [] = omega arith
page_of-IsPage zero (c ∷ cs) = refl
page_of-IsPage (suc m) [] = ground arith
page_of-IsPage (suc m) (c ∷ cs) = elim (Bool-cases (ltb (suc m) (length (c ∷ take (suc m) cs)))) [
  | inl e ↦ rw e (omega (arith, length-take_long m (take (suc m) cs) (ground (arith, e))), refl)
  | inr e ↦ rw e (ground (arith, e))
]

-- Every page of a listing is one of at most `limit` rows: without a cursor it may be shorter, and with a
-- cursor it has exactly so many and the cursor is the id of the last; only a limit of 0 raises.
pub page-IsPage :
    (owner limit : ℕ) (managed : Option Bool) (cursor : Option ℕ) (rows : List Cargo)
    → IsPage limit (page owner managed limit cursor rows)
unfolding page
page-IsPage owner limit managed cursor rows =
    page_of-IsPage limit (select (λ c. is_wanted owner managed c && is_after cursor c) (by_id rows))
