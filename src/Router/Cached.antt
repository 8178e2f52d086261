-- ===== src/Router/Cached.antt =====
-- What a call returns stays in the pool: the next call for the key returns it again.
use astrbot_shipyard_neo.Base.{
  ℕ, ◌≤◌, ◌<◌, ◌≡◌, refl, ◌∙◌, ap, sym, Bool, false, some, List, [], ◌∷◌, ◌++◌, ltb, length, arith,
  delete, count, Bool-cases, Option-cases, inl, inr,
}
use mathlib.Core.Path.{subst}
use astrbot_shipyard_neo.World.Runtime.{Result, ok, raise}
use astrbot_shipyard_neo.Router.AdapterPool.{
  PoolKey, PoolEntry, is_entry, get_entry, pop, is_past, drop_oldest, evict_locked, add_entry,
  create_entry, unexpired, get_or_create,
}
use astrbot_shipyard_neo.Router.Lossy.{
  Once, same_key_refl, get-snoc, count-none, count-snoc, count-pop,
}
use astrbot_shipyard_neo.Router.Bounds.{
  entry_at, unexpired_sound, add_entry-IsPool, get_or_create-miss, get_or_create-hit, found_key,
}
use astrbot_shipyard_neo.Router.Refines.{moved-get}

module _ {V : Type 0} where
  first_of_last :
      (e : PoolEntry V) (front : List (PoolEntry V))
      → Once (front ++ e ∷ [])
      → get_entry e.key (front ++ e ∷ []) ≡ some e
  first_of_last e front once =
      let before : count (is_entry e.key) front ≤ 0 =
        ground (arith, once e.key, count-snoc (is_entry e.key) e front, same_key_refl e.key) in
      get-snoc e.key e front (count-none (is_entry e.key) front before)
      ∙ rw (same_key_refl e.key) refl

  drop_oldest-last :
      (m : ℕ) (front : List (PoolEntry V)) (e : PoolEntry V)
      → 0 < m
      → (rest : List (PoolEntry V)) × (drop_oldest m (front ++ e ∷ []) ≡ rest ++ e ∷ [])
  drop_oldest-last m [] e h = ([], ground arith)
  drop_oldest-last m (d ∷ front) e h = elim (Bool-cases (ltb m (length (d ∷ front ++ e ∷ [])))) [
    | inl over ↦ let (rest, same) = drop_oldest-last m front e h in (rest, rw over same)
    | inr under ↦ (d ∷ front, rw under refl)
  ]

  delete-last :
      (bad : PoolEntry V → Bool) (front : List (PoolEntry V)) (e : PoolEntry V)
      → bad e ≡ false
      → delete bad (front ++ e ∷ []) ≡ delete bad front ++ e ∷ []
  delete-last bad [] e h = ground arith
  delete-last bad (d ∷ front) e h = ground (arith, delete-last bad front e h)

  -- The pool holds the value that was returned, unexpired.
  abbrev Holds : ℕ → PoolKey → Result V × List (PoolEntry V) → Type 0
  Holds now k x =
      (e : PoolEntry V) × (unexpired now (get_entry k x.1) ≡ some e) × (x.0 ≡ ok e.value)

  add_entry-get :
      (m now : ℕ) (e : PoolEntry V) (es : List (PoolEntry V))
      → 0 < m
      → is_past now e ≡ false
      → Once es
      → get_entry e.key (add_entry m now e es) ≡ some e
  unfolding add_entry evict_locked
  add_entry-get m now e es positive fresh once =
      let (rest, same) = drop_oldest-last m (delete (is_past now) (pop e.key es)) e positive in
      let last : add_entry m now e es ≡ rest ++ e ∷ [] =
        ap (drop_oldest m) (delete-last (is_past now) (pop e.key es) e fresh) ∙ same in
      subst (λ xs. get_entry e.key xs ≡ some e) (sym last)
        (first_of_last e rest (subst Once last (add_entry-IsPool m now e es once).0))

  create-Holds :
      (m ttl now : ℕ) (k : PoolKey) (created : Result V) (es : List (PoolEntry V)) {v : V}
      → 0 < m
      → 0 < ttl
      → Once es
      → (create_entry m ttl now k created es).0 ≡ ok v
      → Holds now k (create_entry m ttl now k created es)
  create-Holds m ttl now k (ok v) es positive lasting once h = (
    entry_at ttl now k v,
    ap (unexpired now) (add_entry-get m now (entry_at ttl now k v) es positive (ground arith) once)
        ∙ ground arith,
    refl,
  )
  create-Holds m ttl now k (raise e) es positive lasting once h = cc

  get_or_create-Holds :
      (m ttl now : ℕ) (others : List (PoolEntry V) → List (PoolEntry V)) (k : PoolKey)
      (created : Result V) (es : List (PoolEntry V)) {v : V}
      → 0 < m
      → 0 < ttl
      → ((xs : List (PoolEntry V)) → Once xs → Once (others xs))
      → Once es
      → (get_or_create m ttl now others k created es).0 ≡ ok v
      → Holds now k (get_or_create m ttl now others k created es)
  get_or_create-Holds m ttl now others k created es {v} positive lasting fair once h =
      elim (Option-cases (unexpired now (get_entry k es))) [
        | inl miss ↦
            let run = get_or_create-miss m ttl now others k created es miss in
            rw run (
              create-Holds m ttl now k created (others (pop k es)) positive lasting
                (fair (pop k es) (λ j. omega (arith, count-pop j k es, once j))) (rw run at h))
        | inr (e, hit) ↦
            let found : get_entry k es ≡ some e = (unexpired_sound now (get_entry k es) hit).0 in
            let same : get_entry e.key es ≡ some e =
              ap (λ i. get_entry i es) (found_key k es found) ∙ found in
            rw (get_or_create-hit m ttl now others k created es hit)
              (e, ap (unexpired now) (moved-get k e es same) ∙ hit, refl)
      ]

  -- With a positive bound and a positive time to live: if a call returns a value, then at the same moment
  -- the next call for the key returns it again, whatever its factory would make.
  pub get_or_create-again :
      (m ttl now : ℕ) (others others' : List (PoolEntry V) → List (PoolEntry V)) (k : PoolKey)
      (created created' : Result V) (es : List (PoolEntry V)) {v : V}
      → 0 < m
      → 0 < ttl
      → ((xs : List (PoolEntry V)) → Once xs → Once (others xs))
      → Once es
      → (get_or_create m ttl now others k created es).0 ≡ ok v
      → (get_or_create m ttl now others' k created'
          (get_or_create m ttl now others k created es).1).0
        ≡ ok v
  get_or_create-again m ttl now others others' k created created' es positive lasting fair once h =
      let (e, held, returned) =
        get_or_create-Holds m ttl now others k created es positive lasting fair once h in
      ap (λ (x : Result V × List (PoolEntry V)). x.0)
        (get_or_create-hit m ttl now others' k created'
          (get_or_create m ttl now others k created es).1 held)
      ∙ sym returned
      ∙ h
