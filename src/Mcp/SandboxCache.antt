-- ===== src/Mcp/SandboxCache.antt =====
-- `cache_sandbox` and `get_sandbox`. The `OrderedDict` is the list of its items, the next to be
-- evicted first. A sandbox is its id and an opaque rest.
use astrbot_shipyard_neo.Base.{
  ℕ, Bool, Option, none, some, List, [], ◌∷◌, ◌++◌, ◌==◌, ltb, length, if◌then◌else◌, is_some,
  first, delete, update,
}

pub record Item (V : Type 0) : Type 0 where
  pub sandbox_id : ℕ
  pub sandbox : V

abbrev pub is_item : {V : Type 0} → ℕ → Item V → Bool
is_item k item = item.sandbox_id == k

-- `sandbox_id in _sandboxes`, and `_sandboxes[sandbox_id]`
abbrev pub lookup : {V : Type 0} → ℕ → List (Item V) → Option (Item V)
lookup k items = first (is_item k) items

-- `move_to_end`
abbrev pub move_to_end : {V : Type 0} → Item V → List (Item V) → List (Item V)
move_to_end item items = delete (is_item item.sandbox_id) items ++ item ∷ []

-- `_sandboxes[sandbox_id] = sandbox`: a key that is there keeps its place.
abbrev pub set_item : {V : Type 0} → Item V → List (Item V) → List (Item V)
set_item item items =
    if is_some (lookup item.sandbox_id items)
    then update (is_item item.sandbox_id) (λ _. item) items
    else items ++ item ∷ []

-- `while len(_sandboxes) > MAX: _sandboxes.popitem(last=False)`
abbrev pub evict : {V : Type 0} → ℕ → List (Item V) → List (Item V)
evict max_size [] = []
evict max_size (item ∷ items) =
    let rest = evict max_size items in
    if ltb max_size (length (item ∷ items)) then rest else item ∷ items

abbrev pub touch : {V : Type 0} → Option (Item V) → List (Item V) → List (Item V)
touch none items = items
touch (some found) items = move_to_end found items

-- `cache_sandbox`, for a sandbox with an id
unfoldable pub cache_sandbox : {V : Type 0} → ℕ → Item V → List (Item V) → List (Item V)
cache_sandbox max_size item items =
    evict max_size (set_item item (touch (lookup item.sandbox_id items) items))
