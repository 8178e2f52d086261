-- ===== src/Router/Chosen.antt =====
-- The adapter of a request is the one that would be made without a pool.
use Prim.Native.String.{String}
use astrbot_shipyard_neo.Base.{
  ℕ, ◌≡◌, refl, ◌∙◌, ap, sym, Option, some, List, [], ◌∷◌, ltb, length, delete, Bool-cases,
  Option-cases, inl, inr, All, All-snoc, All-delete, All-first,
}
use astrbot_shipyard_neo.Model.{Session, Profile}
use astrbot_shipyard_neo.World.Runtime.{Result, ok, raise}
use astrbot_shipyard_neo.Router.AdapterPool.{
  PoolKey, PoolEntry, is_entry, get_entry, pop, put_last, is_past, drop_oldest, evict_locked,
  add_entry, create_entry, unexpired, get_or_create,
}
use astrbot_shipyard_neo.Router.Bounds.{
  entry_at, unexpired_sound, get_or_create-miss, get_or_create-hit, found_key,
}
use astrbot_shipyard_neo.Router.Endpoint.{Adapter, make_adapter, adapter_from, resolve, get_adapter}
use astrbot_shipyard_neo.Router.Capability.{Pool}

-- `_get_adapter` without a pool: a new adapter for what the session resolves to.
abbrev made_for : Result PoolKey → Result Adapter
made_for (ok k) = make_adapter k
made_for (raise e) = raise e

abbrev pub uncached : List Profile → Session → Option String → Result Adapter
uncached profiles s capability = made_for (resolve profiles s capability)

-- Each entry holds the adapter that its key makes.
abbrev pub IsFaithful : Pool → Type 0
IsFaithful pool = All (λ e. make_adapter e.key ≡ ok e.value) pool

All-drop :
    (P : PoolEntry Adapter → Type 0) (m : ℕ) (pool : Pool) → All P pool → All P (drop_oldest m pool)
All-drop P m [] h = h
All-drop P m (e ∷ pool) h = elim (Bool-cases (ltb m (length (e ∷ pool)))) [
  | inl over ↦ rw over (All-drop P m pool h.1)
  | inr under ↦ rw under h
]

create-IsFaithful :
    (m ttl now : ℕ) (k : PoolKey) (pool : Pool) (created : Result Adapter)
    → make_adapter k ≡ created
    → IsFaithful pool
    → ((create_entry m ttl now k created pool).0 ≡ created)
      × IsFaithful (create_entry m ttl now k created pool).1
unfolding add_entry evict_locked
create-IsFaithful m ttl now k pool (ok a) same h = (
  refl,
  All-drop (λ e. make_adapter e.key ≡ ok e.value) m
      (delete (is_past now) (put_last (entry_at ttl now k a) pool))
      (All-delete (λ e. make_adapter e.key ≡ ok e.value) (is_past now)
        (put_last (entry_at ttl now k a) pool)
        (All-snoc (λ e. make_adapter e.key ≡ ok e.value) (pop k pool)
          (All-delete (λ e. make_adapter e.key ≡ ok e.value) (is_entry k) pool h) same)),
)
create-IsFaithful m ttl now k pool (raise e) same h = (refl, h)

pooled :
    (m ttl now : ℕ) (k : PoolKey) (pool : Pool)
    → IsFaithful pool
    → ((get_or_create m ttl now (λ es. es) k (make_adapter k) pool).0 ≡ make_adapter k)
      × IsFaithful (get_or_create m ttl now (λ es. es) k (make_adapter k) pool).1
pooled m ttl now k pool h = elim (Option-cases (unexpired now (get_entry k pool))) [
  | inl miss ↦ rw (get_or_create-miss m ttl now (λ es. es) k (make_adapter k) pool miss) (
      create-IsFaithful m ttl now k (pop k pool) (make_adapter k) refl
        (All-delete (λ e. make_adapter e.key ≡ ok e.value) (is_entry k) pool h))
  | inr (e, hit) ↦
      let found : get_entry k pool ≡ some e = (unexpired_sound now (get_entry k pool) hit).0 in
      let value : make_adapter e.key ≡ ok e.value =
        All-first (λ e. make_adapter e.key ≡ ok e.value) (is_entry k) pool h found in
      rw (get_or_create-hit m ttl now (λ es. es) k (make_adapter k) pool hit) (
        sym value ∙ ap make_adapter (found_key k pool found),
        All-snoc (λ e. make_adapter e.key ≡ ok e.value) (pop e.key pool)
            (All-delete (λ e. make_adapter e.key ≡ ok e.value) (is_entry e.key) pool h) value,
      )
]

from_pool :
    (m ttl now : ℕ) (pool : Pool) (key : Result PoolKey)
    → IsFaithful pool
    → ((adapter_from m ttl now pool key).0 ≡ made_for key)
      × IsFaithful (adapter_from m ttl now pool key).1
from_pool m ttl now pool (ok k) h = pooled m ttl now k pool h
from_pool m ttl now pool (raise e) h = (refl, h)

-- The pool is not seen: if each of its entries holds the adapter that its key makes, then the adapter
-- of a request, or its error, is the one that would be made without a pool, and the pool that is left
-- is again such a pool.
pub get_adapter-uncached :
    (m ttl now : ℕ) (profiles : List Profile) (s : Session) (capability : Option String)
    (pool : Pool)
    → IsFaithful pool
    → ((get_adapter m ttl now profiles s capability pool).0 ≡ uncached profiles s capability)
      × IsFaithful (get_adapter m ttl now profiles s capability pool).1
unfolding get_adapter
get_adapter-uncached m ttl now profiles s capability pool h =
    from_pool m ttl now pool (resolve profiles s capability) h
