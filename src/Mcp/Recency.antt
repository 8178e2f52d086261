-- ===== src/Mcp/Recency.antt =====
-- The cache keeps its bound, holds each id once, and ends with the sandbox that was cached last.
use mathlib.Core.Path.{subst}
use astrbot_shipyard_neo.Base.{
  ℕ, ◌+◌, ◌≤◌, ◌<◌, ◌≡◌, refl, ap, sym, true, none, some, List, [], ◌∷◌, ◌++◌, arith, ltb, length,
  if◌then◌else◌, is_some, Bool-cases, Option-cases, inl, inr, delete, update, count, first_sound,
  ==→≡,
}
use astrbot_shipyard_neo.Mcp.SandboxCache.{Item, is_item, lookup, set_item, evict, cache_sandbox}

module _ {V : Type 0} where
  abbrev pub others : ℕ → List (Item V) → List (Item V)
  others k items = delete (is_item k) items

  delete_absent : (k : ℕ) (items : List (Item V)) → lookup k items ≡ none → others k items ≡ items
  delete_absent k [] h = refl
  delete_absent k (i ∷ items) h = ground (arith, delete_absent k items)

  lookup-others : (k : ℕ) (items : List (Item V)) → lookup k (others k items) ≡ none
  lookup-others k [] = refl
  lookup-others k (i ∷ items) = ground (arith, lookup-others k items)

  update-others :
      (k : ℕ) (old item : Item V) (items : List (Item V))
      → old.sandbox_id ≡ k
      → lookup k items ≡ none
      → update (is_item k) (λ _. item) (items ++ old ∷ []) ≡ items ++ item ∷ []
  update-others k old item [] same h = ground arith
  update-others k old item (i ∷ items) same h = ground (arith, update-others k old item items same)

  found_at_end :
      (k : ℕ) (old : Item V) (items : List (Item V))
      → old.sandbox_id ≡ k
      → is_some (lookup k (items ++ old ∷ [])) ≡ true
  found_at_end k old [] same = ground arith
  found_at_end k old (i ∷ items) same = ground (arith, found_at_end k old items same)

  refreshed :
      (item old : Item V) (items : List (Item V))
      → old.sandbox_id ≡ item.sandbox_id
      → set_item item (others item.sandbox_id items ++ old ∷ [])
        ≡ others item.sandbox_id items ++ item ∷ []
  refreshed item old items same =
      rw (found_at_end item.sandbox_id old (others item.sandbox_id items) same) (
        update-others item.sandbox_id old item (others item.sandbox_id items) same
          (lookup-others item.sandbox_id items))

  -- Before the eviction, the cache is the other items and the new one.
  cache_sandbox-order :
      (max_size : ℕ) (item : Item V) (items : List (Item V))
      → cache_sandbox max_size item items
        ≡ evict max_size (others item.sandbox_id items ++ item ∷ [])
  unfolding cache_sandbox
  cache_sandbox-order max_size item items =
      ap (evict max_size) (elim (Option-cases (lookup item.sandbox_id items)) [
        | inl gone ↦
            rw (gone, gone)
              (ap (λ is. is ++ item ∷ []) (sym (delete_absent item.sandbox_id items gone)))
        | inr (old, there) ↦
            let same : old.sandbox_id ≡ item.sandbox_id =
              ==→≡ old.sandbox_id item.sandbox_id
                (first_sound (is_item item.sandbox_id) items there) in
            rw there (
              subst
                (λ i.
                  set_item item (others i items ++ old ∷ [])
                  ≡ others item.sandbox_id items ++ item ∷ [])
                (sym same) (refreshed item old items same))
      ])

  count-others :
      (k j : ℕ) (items : List (Item V))
      → count (is_item j) (others k items) ≤ count (is_item j) items
  count-others k j [] = omega arith
  count-others k j (i ∷ items) = ground (arith, count-others k j items)

  count-absent : (k : ℕ) (items : List (Item V)) → count (is_item k) (others k items) ≡ 0
  count-absent k [] = refl
  count-absent k (i ∷ items) = ground (arith, count-absent k items)

  count-snoc :
      (j : ℕ) (items : List (Item V)) (item : Item V)
      → count (is_item j) (items ++ item ∷ [])
        ≡ count (is_item j) items + (if is_item j item then 1 else 0)
  count-snoc j [] item = ground arith
  count-snoc j (i ∷ items) item = ground (arith, count-snoc j items item)

  count-evict :
      (m j : ℕ) (items : List (Item V))
      → count (is_item j) (evict m items) ≤ count (is_item j) items
  count-evict m j [] = omega arith
  count-evict m j (i ∷ items) = ground (arith, count-evict m j items)

  evict-bounded : (m : ℕ) (items : List (Item V)) → length (evict m items) ≤ m
  evict-bounded m [] = omega arith
  evict-bounded m (i ∷ items) = ground (arith, evict-bounded m items)

  -- What an eviction leaves ends with the last item.
  evict-last :
      (m : ℕ) (items : List (Item V)) (item : Item V)
      → 0 < m
      → (front : List (Item V)) × (evict m (items ++ item ∷ []) ≡ front ++ item ∷ [])
  evict-last m [] item h = ([], ground arith)
  evict-last m (i ∷ items) item h = elim (Bool-cases (ltb m (length (i ∷ items ++ item ∷ [])))) [
    | inl e ↦ let (front, same) = evict-last m items item h in (front, rw e same)
    | inr e ↦ (i ∷ items, rw e refl)
  ]

  lookup_last :
      (item : Item V) (front : List (Item V))
      → count (is_item item.sandbox_id) (front ++ item ∷ []) ≤ 1
      → lookup item.sandbox_id (front ++ item ∷ []) ≡ some item
  lookup_last item [] h = ground arith
  lookup_last item (i ∷ front) h =
      ground (arith, lookup_last item front, count-snoc item.sandbox_id front item)

  cached_once :
      (m : ℕ) (item : Item V) (items : List (Item V))
      → ((j : ℕ) → count (is_item j) items ≤ 1)
      → (j : ℕ) → count (is_item j) (evict m (others item.sandbox_id items ++ item ∷ [])) ≤ 1
  cached_once m item items once j = elim (Bool-cases (is_item j item)) [
    | inl mine ↦
        let same : item.sandbox_id ≡ j = ==→≡ item.sandbox_id j mine in
        let none_left : count (is_item j) (others item.sandbox_id items) ≡ 0 =
          subst (λ k. count (is_item k) (others item.sandbox_id items) ≡ 0) same
            (count-absent item.sandbox_id items) in
        ground (
          arith,
          count-evict m j (others item.sandbox_id items ++ item ∷ []),
          count-snoc j (others item.sandbox_id items) item,
        )
    | inr other ↦ ground (
      arith,
      once j,
      count-others item.sandbox_id j items,
      count-evict m j (others item.sandbox_id items ++ item ∷ []),
      count-snoc j (others item.sandbox_id items) item,
    )
  ]

  -- In a cache with a positive bound that holds each id at most once, a cached sandbox is the last
  -- item and the one that its id finds, and afterwards the cache keeps the bound and holds each id at
  -- most once.
  pub cache_sandbox_lem :
      (m : ℕ) (item : Item V) (items : List (Item V))
      → 0 < m
      → ((j : ℕ) → count (is_item j) items ≤ 1)
      → ((front : List (Item V)) × (cache_sandbox m item items ≡ front ++ item ∷ []))
        × (lookup item.sandbox_id (cache_sandbox m item items) ≡ some item)
        × (length (cache_sandbox m item items) ≤ m)
        × ((j : ℕ) → count (is_item j) (cache_sandbox m item items) ≤ 1)
  cache_sandbox_lem m item items positive once =
      let (front, last) = evict-last m (others item.sandbox_id items) item positive in
      rw (cache_sandbox-order m item items) (
        (front, last),
        rw last (
            lookup_last item front (
              subst (λ is. count (is_item item.sandbox_id) is ≤ 1) last
                (cached_once m item items once item.sandbox_id))),
        evict-bounded m (others item.sandbox_id items ++ item ∷ []),
        cached_once m item items once,
      )
