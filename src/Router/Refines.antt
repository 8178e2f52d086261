-- ===== src/Router/Refines.antt =====
-- Each call of the pool is a step of the map that may forget.
use astrbot_shipyard_neo.Base.{
  ℕ, ◌≡◌, refl, ◌∙◌, ap, sym, Option, some, List, arith, Bool-cases, Option-cases, inl, inr,
}
use astrbot_shipyard_neo.World.Runtime.{Error, Result, ok, raise}
use astrbot_shipyard_neo.Router.AdapterPool.{
  PoolKey, same_key, PoolEntry, get_entry, pop, put_last, add_entry, create_entry, unexpired,
  get_or_create,
}
use astrbot_shipyard_neo.Router.Lossy.{
  Once, Represents, assign, same_key_sound, put_last-Once, put_last-get, get-pop, count-pop,
  evict_locked-Represents,
}
use astrbot_shipyard_neo.Router.Bounds.{
  entry_at, unexpired_sound, get_or_create-miss, get_or_create-hit, found_key,
}

module _ {V : Type 0} where
  -- A call of `get_or_create` on the map: before, what is returned, and after. `g` is the map once other
  -- threads have made their calls in between.
  pub data MapStep (ttl now : ℕ) (k : PoolKey) (created : Result V)
      (g : PoolKey → Option (PoolEntry V))
      : (PoolKey → Option (PoolEntry V))
        → Result V
        → (PoolKey → Option (PoolEntry V))
        → Type 0 where
    -- what the map holds for the key and has not expired
    known :
        (f : PoolKey → Option (PoolEntry V)) (e : PoolEntry V)
        → unexpired now (f k) ≡ some e
        → MapStep ttl now k created g f (ok e.value) f
    -- a new value, which the map then holds
    made :
        (f : PoolKey → Option (PoolEntry V)) (v : V)
        → created ≡ ok v
        → MapStep ttl now k created g f (ok v) (assign (entry_at ttl now k v) g)
    failed :
        (f : PoolKey → Option (PoolEntry V)) (e : Error)
        → created ≡ raise e
        → MapStep ttl now k created g f (raise e) g

  pop-Represents :
      (f : PoolKey → Option (PoolEntry V)) (k : PoolKey) (es : List (PoolEntry V))
      → Represents f es
      → Represents f (pop k es)
  pop-Represents f k es h j = ground (arith, h j, get-pop j k es)

  put_last-Represents :
      (f : PoolKey → Option (PoolEntry V)) (e : PoolEntry V) (es : List (PoolEntry V))
      → Represents f es
      → Represents (assign e f) (put_last e es)
  put_last-Represents f e es h j = ground (arith, h j, put_last-get j e es)

  add_entry-Represents :
      (m now : ℕ) (f : PoolKey → Option (PoolEntry V)) (e : PoolEntry V) (es : List (PoolEntry V))
      → Once es
      → Represents f es
      → Represents (assign e f) (add_entry m now e es)
  unfolding add_entry
  add_entry-Represents m now f e es once h =
      evict_locked-Represents m now (assign e f) (put_last e es) (put_last-Once e es once)
        (put_last-Represents f e es h)

  -- A step of the map, and a pool that represents the map after it.
  abbrev pub IsStep :
      ℕ
      → ℕ
      → PoolKey
      → Result V
      → (PoolKey → Option (PoolEntry V))
      → (PoolKey → Option (PoolEntry V))
      → Result V × List (PoolEntry V)
      → Type 0
  IsStep ttl now k created f g x =
      (after : PoolKey → Option (PoolEntry V)) × MapStep ttl now k created g f x.0 after
      × Represents after x.1

  create-IsStep :
      (m ttl now : ℕ) (k : PoolKey) (created : Result V) (f g : PoolKey → Option (PoolEntry V))
      (es : List (PoolEntry V))
      → Once es
      → Represents g es
      → IsStep ttl now k created f g (create_entry m ttl now k created es)
  create-IsStep m ttl now k (ok v) f g es once h = (
    assign (entry_at ttl now k v) g,
    MapStep.made f v refl,
    add_entry-Represents m now g (entry_at ttl now k v) es once h,
  )
  create-IsStep m ttl now k (raise e) f g es once h = (g, MapStep.failed f e refl, h)

  pub moved-get :
      (j : PoolKey) (e : PoolEntry V) (es : List (PoolEntry V))
      → get_entry e.key es ≡ some e
      → get_entry j (put_last e es) ≡ get_entry j es
  moved-get j e es found = elim (Bool-cases (same_key e.key j)) [
    | inl here ↦
        let there : get_entry j es ≡ some e =
          ap (λ i. get_entry i es) (sym (same_key_sound e.key j here)) ∙ found in
        put_last-get j e es ∙ rw here (sym there)
    | inr other ↦ put_last-get j e es ∙ rw other refl
  ]

  moved-Represents :
      (f : PoolKey → Option (PoolEntry V)) (e : PoolEntry V) (es : List (PoolEntry V))
      → get_entry e.key es ≡ some e
      → Represents f es
      → Represents f (put_last e es)
  moved-Represents f e es found h j = rw (moved-get j e es found) (h j)

  -- A call is a step of the map that may forget: if the pool represents `f`, and other threads turn a
  -- pool that represents `f` into one that represents `g`, then the call returns what `f` holds and has
  -- not expired, or what the factory makes, and the pool then represents the map after that step.
  pub get_or_create-refines :
      (m ttl now : ℕ) (others : List (PoolEntry V) → List (PoolEntry V)) (k : PoolKey)
      (created : Result V) (f g : PoolKey → Option (PoolEntry V)) (es : List (PoolEntry V))
      → ((xs : List (PoolEntry V))
          → Once xs
          → Represents f xs
          → Once (others xs) × Represents g (others xs))
      → Once es
      → Represents f es
      → IsStep ttl now k created f g (get_or_create m ttl now others k created es)
  get_or_create-refines m ttl now others k created f g es fair once h =
      elim (Option-cases (unexpired now (get_entry k es))) [
        | inl miss ↦
            let (once', h') =
              fair (pop k es) (λ j. omega (arith, count-pop j k es, once j))
                (pop-Represents f k es h) in
            rw (get_or_create-miss m ttl now others k created es miss)
              (create-IsStep m ttl now k created f g (others (pop k es)) once' h')
        | inr (e, hit) ↦
            let found : get_entry k es ≡ some e = (unexpired_sound now (get_entry k es) hit).0 in
            let same : get_entry e.key es ≡ some e =
              ap (λ i. get_entry i es) (found_key k es found) ∙ found in
            rw (get_or_create-hit m ttl now others k created es hit) (
              f,
              MapStep.known f e (elim (h k) [
                | inl kept ↦ ap (unexpired now) (sym kept) ∙ hit
                | inr gone ↦ absurd (ground arith)
              ]),
              moved-Represents f e es same h,
            )
      ]
