-- ===== src/Cargo/Whole.antt =====
-- Following the cursors of a listing gives the whole list in order.
use mathlib.Core.Path.{subst}
use astrbot_shipyard_neo.Base.{
  ℕ, zero, suc, ◌≤◌, ◌<◌, ◌≡◌, refl, ◌∙◌, ap, sym, Bool, true, false, Option, none, some, List, [],
  ◌∷◌, ◌++◌, arith, ltb, select, length, All, Bool-cases, inl, inr, select-and, select-select,
  select_whole, All-selected,
}
use astrbot_shipyard_neo.Model.{Cargo}
use astrbot_shipyard_neo.Cargo.Listing.{
  by_id, take, last, is_wanted, is_after, page_of, page, collect_from, collect,
}
use astrbot_shipyard_neo.Cargo.Pages.{
  IsDistinct, IsAscending, by_id-IsAscending, select-IsAscending, take_whole, drop,
  take-append-drop,
}

last-after :
    (k m : ℕ) (d : Cargo) (ds : List Cargo)
    → All (λ c. ltb k c.id ≡ true) (d ∷ ds)
    → ltb k (last d (take m ds)).id ≡ true
last-after k zero d ds h = h.0
last-after k (suc m) d [] h = h.0
last-after k (suc m) d (e ∷ ds) h = last-after k m e ds h.1

-- The rows after the last of the first ones.
select-last :
    (m : ℕ) (c : Cargo) (cs : List Cargo)
    → IsAscending (c ∷ cs)
    → select (is_after (some ((last c (take m cs)).id))) (c ∷ cs) ≡ drop m cs
select-last zero c cs h =
    let self : is_after (some c.id) c ≡ false = ground arith in
    rw self (select_whole (is_after (some c.id)) cs h.0)
select-last (suc m) c [] h =
    let self : is_after (some c.id) c ≡ false = ground arith in rw self refl
select-last (suc m) c (d ∷ ds) h =
    let before : is_after (some ((last d (take m ds)).id)) c ≡ false =
      ground (arith, last-after c.id m d ds h.0) in
    rw before (select-last m d ds h.1)

take-take : (m : ℕ) (cs : List Cargo) → take m (take (suc m) cs) ≡ take m cs
take-take zero cs = refl
take-take (suc m) [] = refl
take-take (suc m) (c ∷ cs) = ap (◌∷◌ c) (take-take m cs)

length-take : (n : ℕ) (cs : List Cargo) → length (take n cs) ≤ length cs
length-take zero cs = omega arith
length-take (suc n) [] = omega arith
length-take (suc n) (c ∷ cs) = omega (arith, length-take n cs)

length-drop : (n : ℕ) (cs : List Cargo) → length (drop n cs) ≤ length cs
length-drop zero cs = omega arith
length-drop (suc n) [] = omega arith
length-drop (suc n) (c ∷ cs) = omega (arith, length-drop n cs)

-- What is after the last of some rows that are after the cursor is after the cursor.
after_last :
    (cursor : Option ℕ) (m : ℕ) (c : Cargo) (cs : List Cargo)
    → All (λ x. is_after cursor x ≡ true) (c ∷ cs)
    → (x : Cargo) → is_after (some ((last c (take m cs)).id)) x ≡ true
    → is_after cursor x ≡ true
after_last none m c cs h x later = refl
after_last (some k) m c cs h x later = ground (arith, last-after k m c cs h, later)

collect_step :
    (m : ℕ) (c : Cargo) (cs : List Cargo) (more : Option ℕ → List Cargo)
    → (suc m < length (c ∷ cs) → more (some ((last c (take m cs)).id)) ≡ drop m cs)
    → collect_from more (page_of (suc m) (take (suc (suc m)) (c ∷ cs))) ≡ c ∷ cs
collect_step m c cs more next =
    elim (Bool-cases (ltb (suc m) (length (take (suc (suc m)) (c ∷ cs))))) [
      | inl e ↦
          let long : suc m < length (c ∷ cs) = ground (arith, e, length-take (suc m) cs) in
          rw e (
            subst (λ t. c ∷ (t ++ more (some ((last c t).id))) ≡ c ∷ cs) (sym (take-take m cs))
              (ap (◌∷◌ c) (ap (λ t. take m cs ++ t) (next long) ∙ take-append-drop m cs)))
      | inr e ↦ rw e (ap (◌∷◌ c) (take_whole m cs (ground (arith, e))))
    ]

collect_empty :
    (m : ℕ) (more : Option ℕ → List Cargo)
    → collect_from more (page_of (suc m) (take (suc (suc m)) [])) ≡ []
collect_empty m more = ground arith

after_none : (cs : List Cargo) → select (is_after none) cs ≡ cs
after_none [] = refl
after_none (c ∷ cs) = ap (◌∷◌ c) (after_none cs)

module _ (owner : ℕ) (managed : Option Bool) (rows : List Cargo) where
  -- All that a listing gives, without pages.
  abbrev pub wanted : List Cargo
  wanted = select (is_wanted owner managed) (by_id rows)

  abbrev rest : Option ℕ → List Cargo
  rest cursor = select (is_after cursor) wanted

  page-rest :
      (limit : ℕ) (cursor : Option ℕ)
      → page owner managed limit cursor rows ≡ page_of limit (take (suc limit) (rest cursor))
  unfolding page
  page-rest limit cursor =
      ap (λ cs. page_of limit (take (suc limit) cs))
        (select-and (is_wanted owner managed) (is_after cursor) (by_id rows))

  module _ (distinct : IsDistinct rows) where
    rest-IsAscending : (cursor : Option ℕ) → IsAscending (rest cursor)
    rest-IsAscending cursor = select-IsAscending (is_after cursor) wanted (
        select-IsAscending (is_wanted owner managed) (by_id rows) (by_id-IsAscending rows distinct))

    rest-last :
        (cursor : Option ℕ) (m : ℕ) (c : Cargo) (cs : List Cargo)
        → rest cursor ≡ c ∷ cs
        → rest (some ((last c (take m cs)).id)) ≡ drop m cs
    rest-last cursor m c cs e =
        let later : Cargo → Bool = is_after (some ((last c (take m cs)).id)) in
        sym (
          select-select (is_after cursor) later wanted (
            after_last cursor m c cs (
              subst (All (λ x. is_after cursor x ≡ true)) e
                (All-selected (is_after cursor) wanted))))
        ∙ ap (select later) e
        ∙ select-last m c cs (subst IsAscending e (rest-IsAscending cursor))

    collect-rest :
        (n m : ℕ) (cursor : Option ℕ) (cs : List Cargo)
        → rest cursor ≡ cs
        → length cs < n
        → collect n owner managed (suc m) cursor rows ≡ cs
    unfolding collect
    collect-rest zero m cursor cs e h = absurd (omega (arith, h))
    collect-rest (suc n) m cursor [] e h =
        ap (collect_from (λ next. collect n owner managed (suc m) next rows))
          (page-rest (suc m) cursor ∙ ap (λ xs. page_of (suc m) (take (suc (suc m)) xs)) e)
        ∙ collect_empty m (λ next. collect n owner managed (suc m) next rows)
    collect-rest (suc n) m cursor (c ∷ cs) e h =
        ap (collect_from (λ next. collect n owner managed (suc m) next rows))
          (page-rest (suc m) cursor ∙ ap (λ xs. page_of (suc m) (take (suc (suc m)) xs)) e)
        ∙ collect_step m c cs (λ next. collect n owner managed (suc m) next rows)
            (λ long.
              collect-rest n m (some ((last c (take m cs)).id)) (drop m cs)
                (rest-last cursor m c cs e) (omega (arith, h, length-drop m cs)))

    -- With different ids in the table and a positive limit, a client that starts without a cursor and
    -- follows the cursors, for more pages than there are rows to list, gets all the caller's rows of the
    -- kind asked for, each once, in the order of their ids.
    pub collect-wanted :
        (limit n : ℕ)
        → 0 < limit
        → length wanted < n
        → collect n owner managed limit none rows ≡ wanted
    collect-wanted zero n positive enough = absurd (omega (arith, positive))
    collect-wanted (suc m) n positive enough =
        collect-rest n m none wanted (after_none wanted) enough
