-- ===== src/Router/Bounds.antt =====
-- The pool keeps its bound and holds each key once.
use astrbot_shipyard_neo.Base.{
  ℕ, ◌+◌, ◌≤◌, ◌≡◌, refl, ◌∙◌, ap, true, Option, none, some, List, [], ◌∷◌, ltb, length,
  length-append, arith, first_sound, delete, Option-cases, inl, inr,
}
use astrbot_shipyard_neo.World.Runtime.{Result, ok, raise}
use astrbot_shipyard_neo.Router.AdapterPool.{
  PoolKey, PoolEntry, is_entry, get_entry, pop, put_last, is_past, evict_locked, add_entry,
  create_entry, unexpired, look_up, get_or_create,
}
use astrbot_shipyard_neo.Router.Lossy.{
  Once, same_key_sound, length-delete, length-delete_found, count-delete, count-drop, drop-bounded,
  put_last-Once, count-pop,
}

module _ {V : Type 0} where
  abbrev pub entry_at : ℕ → ℕ → PoolKey → V → PoolEntry V
  entry_at ttl now k v = record { key = k; value = v; expires_at = now + ttl }

  -- The pool holds each key once, within its bound.
  abbrev pub IsPool : ℕ → List (PoolEntry V) → Type 0
  IsPool m es = Once es × (length es ≤ m)

  pop-IsPool : (m : ℕ) (k : PoolKey) (es : List (PoolEntry V)) → IsPool m es → IsPool m (pop k es)
  pop-IsPool m k es (once, bound) = (
    (λ j. omega (arith, count-pop j k es, once j)),
    omega (arith, bound, length-delete (is_entry k) es),
  )

  moved-IsPool :
      (m : ℕ) (e : PoolEntry V) (es : List (PoolEntry V))
      → get_entry e.key es ≡ some e
      → IsPool m es
      → IsPool m (put_last e es)
  moved-IsPool m e es found (once, bound) = (
    put_last-Once e es once,
    omega (
      arith,
      bound,
      length-append (pop e.key es) (e ∷ []),
      length-delete_found (is_entry e.key) es found,
    ),
  )

  pub add_entry-IsPool :
      (m now : ℕ) (e : PoolEntry V) (es : List (PoolEntry V))
      → Once es
      → IsPool m (add_entry m now e es)
  unfolding add_entry evict_locked
  add_entry-IsPool m now e es once = (
    λ j. omega (
      arith,
      count-drop m (is_entry j) (delete (is_past now) (put_last e es)),
      count-delete (is_entry j) (is_past now) (put_last e es),
      put_last-Once e es once j,
    ),
    drop-bounded m (delete (is_past now) (put_last e es)),
  )

  create-IsPool :
      (m ttl now : ℕ) (k : PoolKey) (created : Result V) (es : List (PoolEntry V))
      → IsPool m es
      → IsPool m (create_entry m ttl now k created es).1
  create-IsPool m ttl now k (ok v) es h = add_entry-IsPool m now (entry_at ttl now k v) es h.0
  create-IsPool m ttl now k (raise e) es h = h

  pub unexpired_sound :
      (now : ℕ) (o : Option (PoolEntry V)) {e : PoolEntry V}
      → unexpired now o ≡ some e
      → (o ≡ some e) × (ltb now e.expires_at ≡ true)
  unexpired_sound now none h = cc
  unexpired_sound now (some d) h = ground arith

  pub found_key :
      (k : PoolKey) (es : List (PoolEntry V)) {e : PoolEntry V}
      → get_entry k es ≡ some e
      → e.key ≡ k
  found_key k es {e} h = same_key_sound e.key k (first_sound (is_entry k) es h)

  pub get_or_create-miss :
      (m ttl now : ℕ) (others : List (PoolEntry V) → List (PoolEntry V)) (k : PoolKey)
      (created : Result V) (es : List (PoolEntry V))
      → unexpired now (get_entry k es) ≡ none
      → get_or_create m ttl now others k created es
        ≡ create_entry m ttl now k created (others (pop k es))
  unfolding get_or_create
  get_or_create-miss m ttl now others k created es miss =
      rw (get_or_create, miss, look_up, miss) refl

  pub get_or_create-hit :
      (m ttl now : ℕ) (others : List (PoolEntry V) → List (PoolEntry V)) (k : PoolKey)
      (created : Result V) (es : List (PoolEntry V)) {e : PoolEntry V}
      → unexpired now (get_entry k es) ≡ some e
      → get_or_create m ttl now others k created es ≡ (ok e.value, put_last e es)
  unfolding get_or_create
  get_or_create-hit m ttl now others k created es hit = rw (get_or_create, hit, look_up, hit) refl

  -- A pool that holds each key once within its bound, as other threads leave it too, is such a pool
  -- after a call, whatever the factory does.
  pub get_or_create-IsPool :
      (m ttl now : ℕ) (others : List (PoolEntry V) → List (PoolEntry V)) (k : PoolKey)
      (created : Result V) (es : List (PoolEntry V))
      → ((xs : List (PoolEntry V)) → IsPool m xs → IsPool m (others xs))
      → IsPool m es
      → IsPool m (get_or_create m ttl now others k created es).1
  get_or_create-IsPool m ttl now others k created es fair h =
      elim (Option-cases (unexpired now (get_entry k es))) [
        | inl miss ↦ rw (get_or_create-miss m ttl now others k created es miss) (
            create-IsPool m ttl now k created (others (pop k es))
              (fair (pop k es) (pop-IsPool m k es h)))
        | inr (e, hit) ↦
            let found : get_entry k es ≡ some e = (unexpired_sound now (get_entry k es) hit).0 in
            let same : get_entry e.key es ≡ some e =
              ap (λ i. get_entry i es) (found_key k es found) ∙ found in
            rw (get_or_create-hit m ttl now others k created es hit) (moved-IsPool m e es same h)
      ]
