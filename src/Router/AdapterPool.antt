-- ===== src/Router/AdapterPool.antt =====
-- `AdapterPool`. The `OrderedDict` is the list of its items, the least recently used first; moments
-- are of the monotonic clock. A key stands for the text `endpoint::runtime_type`.
use Prim.Native.String.{String}
use text.Mathlib.Text.{◌==◌ as str_eq}
use astrbot_shipyard_neo.Base.{
  ℕ, ◌+◌, Bool, Option, none, some, List, [], ◌∷◌, ◌++◌, ◌==◌, ◌&&◌, leb, ltb, length,
  if◌then◌else◌, first, delete,
}
use astrbot_shipyard_neo.World.Runtime.{Result, ok, raise}

pub record PoolKey : Type 0 where
  pub endpoint : ℕ
  pub runtime_type : String

abbrev pub same_key : PoolKey → PoolKey → Bool
same_key j k = (j.endpoint == k.endpoint) && str_eq j.runtime_type k.runtime_type

pub record PoolEntry (V : Type 0) : Type 0 where
  pub key : PoolKey
  pub value : V
  pub expires_at : ℕ

module _ {V : Type 0} where
  abbrev pub is_entry : PoolKey → PoolEntry V → Bool
  is_entry k e = same_key e.key k

  -- `entries.get(key)`
  abbrev pub get_entry : PoolKey → List (PoolEntry V) → Option (PoolEntry V)
  get_entry k entries = first (is_entry k) entries

  abbrev pub pop : PoolKey → List (PoolEntry V) → List (PoolEntry V)
  pop k entries = delete (is_entry k) entries

  -- `entries[key] = entry; entries.move_to_end(key)`, and `move_to_end` alone
  abbrev pub put_last : PoolEntry V → List (PoolEntry V) → List (PoolEntry V)
  put_last e entries = pop e.key entries ++ e ∷ []

  abbrev pub is_past : ℕ → PoolEntry V → Bool
  is_past now e = leb e.expires_at now

  -- `while len(entries) > max_size: entries.popitem(last=False)`
  abbrev pub drop_oldest : ℕ → List (PoolEntry V) → List (PoolEntry V)
  drop_oldest max_size [] = []
  drop_oldest max_size (e ∷ entries) =
      let rest = drop_oldest max_size entries in
      if ltb max_size (length (e ∷ entries)) then rest else e ∷ entries

  -- `_evict_locked`
  unfoldable pub evict_locked : ℕ → ℕ → List (PoolEntry V) → List (PoolEntry V)
  evict_locked max_size now entries = drop_oldest max_size (delete (is_past now) entries)

  -- The second locked section.
  unfoldable pub add_entry : ℕ → ℕ → PoolEntry V → List (PoolEntry V) → List (PoolEntry V)
  unfolding evict_locked
  add_entry max_size now e entries = evict_locked max_size now (put_last e entries)

  abbrev pub create_entry :
      ℕ → ℕ → ℕ → PoolKey → Result V → List (PoolEntry V) → Result V × List (PoolEntry V)
  create_entry max_size ttl now k (ok v) entries =
      (ok v, add_entry max_size now (record { key = k; value = v; expires_at = now + ttl }) entries)
  create_entry max_size ttl now k (raise e) entries = (raise e, entries)

  -- What an unexpired entry holds.
  abbrev pub unexpired : ℕ → Option (PoolEntry V) → Option (PoolEntry V)
  unexpired now none = none
  unexpired now (some e) = if ltb now e.expires_at then some e else none

  -- The first locked section: the value of a hit, and the entries that it leaves.
  abbrev pub look_up : ℕ → PoolKey → List (PoolEntry V) → Option (PoolEntry V) × List (PoolEntry V)
  look_up now k entries = elim (unexpired now (get_entry k entries)) [
    | some e ↦ (some e, put_last e entries)
    | none ↦ (none, pop k entries)
  ]

  -- `get_or_create`, where `created` is what the factory makes if it is called, and `others` what other
  -- threads do to the pool between the two sections.
  unfoldable pub get_or_create :
      ℕ
      → ℕ
      → ℕ
      → (List (PoolEntry V) → List (PoolEntry V))
      → PoolKey
      → Result V
      → List (PoolEntry V)
      → Result V × List (PoolEntry V)
  unfolding add_entry
  get_or_create max_size ttl now others k created entries =
      let (hit, left) = look_up now k entries in
      elim hit [
        | some e ↦ (ok e.value, left)
        | none ↦ create_entry max_size ttl now k created (others left)
      ]
