-- ===== src/Cargo/Pages.antt =====
-- The pages of a listing: their size, and that together they are the whole list in order.
use astrbot_shipyard_neo.Base.{
  ℕ, zero, suc, ◌≤◌, ◌≡◌, refl, ap, Bool, true, false, List, [], ◌∷◌, ◌++◌, ◌==◌, arith, ltb,
  select, length, All, All-weaken, Bool-cases, inl, inr, All-select,
}
use astrbot_shipyard_neo.Model.{Cargo}
use astrbot_shipyard_neo.Cargo.Listing.{insert, by_id, take}

-- The primary key, and the order of a listing.
abbrev pub IsDistinct : List Cargo → Type 0
IsDistinct [] = Unit
IsDistinct (c ∷ cs) = All (λ d. (d.id == c.id) ≡ false) cs × IsDistinct cs

abbrev pub IsAscending : List Cargo → Type 0
IsAscending [] = Unit
IsAscending (c ∷ cs) = All (λ d. ltb c.id d.id ≡ true) cs × IsAscending cs

All-insert :
    (P : Cargo → Type 0) (c : Cargo) (cs : List Cargo) → P c → All P cs → All P (insert c cs)
All-insert P c [] p h = (p, tt)
All-insert P c (d ∷ ds) p h = elim (Bool-cases (ltb d.id c.id)) [
  | inl e ↦ rw e (h.0, All-insert P c ds p h.1)
  | inr e ↦ rw e (p, h)
]

All-by_id : (P : Cargo → Type 0) (cs : List Cargo) → All P cs → All P (by_id cs)
All-by_id P [] h = h
All-by_id P (c ∷ cs) h = All-insert P c (by_id cs) h.0 (All-by_id P cs h.1)

insert-IsAscending :
    (c : Cargo) (cs : List Cargo)
    → All (λ d. (d.id == c.id) ≡ false) cs
    → IsAscending cs
    → IsAscending (insert c cs)
insert-IsAscending c [] new h = (tt, tt)
insert-IsAscending c (d ∷ ds) new h = elim (Bool-cases (ltb d.id c.id)) [
  | inl e ↦
      rw e (All-insert (λ x. ltb d.id x.id ≡ true) c ds e h.0, insert-IsAscending c ds new.1 h.1)
  | inr e ↦
      let less : ltb c.id d.id ≡ true = ground (arith, new.0) in
      rw e ((less, All-weaken ds (λ x more. ground arith) h.0), h)
]

pub by_id-IsAscending : (cs : List Cargo) → IsDistinct cs → IsAscending (by_id cs)
by_id-IsAscending [] h = tt
by_id-IsAscending (c ∷ cs) h =
    insert-IsAscending c (by_id cs) (All-by_id (λ d. (d.id == c.id) ≡ false) cs h.0)
      (by_id-IsAscending cs h.1)

pub select-IsAscending :
    (test : Cargo → Bool) (cs : List Cargo) → IsAscending cs → IsAscending (select test cs)
select-IsAscending test [] h = h
select-IsAscending test (c ∷ cs) h = elim (Bool-cases (test c)) [
  | inl e ↦
      rw e (All-select (λ d. ltb c.id d.id ≡ true) test cs h.0, select-IsAscending test cs h.1)
  | inr e ↦ rw e (select-IsAscending test cs h.1)
]

pub take-bounded : (n : ℕ) (cs : List Cargo) → length (take n cs) ≤ n
take-bounded zero cs = omega arith
take-bounded (suc n) [] = omega arith
take-bounded (suc n) (c ∷ cs) = omega (arith, take-bounded n cs)

pub take_whole : (n : ℕ) (cs : List Cargo) → length (take (suc n) cs) ≤ n → take (suc n) cs ≡ cs
take_whole n [] h = refl
take_whole zero (c ∷ cs) h = absurd (omega (arith, h))
take_whole (suc n) (c ∷ cs) h = ap (◌∷◌ c) (take_whole n cs (omega (arith, h)))

-- The rows after those of a page.
abbrev pub drop : ℕ → List Cargo → List Cargo
drop zero cs = cs
drop (suc n) [] = []
drop (suc n) (c ∷ cs) = drop n cs

pub take-append-drop : (n : ℕ) (cs : List Cargo) → take n cs ++ drop n cs ≡ cs
take-append-drop zero cs = refl
take-append-drop (suc n) [] = refl
take-append-drop (suc n) (c ∷ cs) = ap (◌∷◌ c) (take-append-drop n cs)
