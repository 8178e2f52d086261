-- ===== src/Mcp/Tests.antt =====
-- Tests and witnesses of the sandbox cache: a cache of two that is full and caches a known sandbox again.
use astrbot_shipyard_neo.Base.{ℕ, ◌≤◌, ◌≡◌, refl, some, List, [], ◌∷◌, ◌++◌, arith, length, count}
use astrbot_shipyard_neo.Mcp.SandboxCache.{Item, is_item, lookup, cache_sandbox}
use astrbot_shipyard_neo.Mcp.Recency.{cache_sandbox_lem}

abbrev item : ℕ → ℕ → Item ℕ
item k v = record { sandbox_id = k; sandbox = v }

abbrev full : List (Item ℕ)
full = item 1 10 ∷ item 2 20 ∷ []

refreshes : cache_sandbox 2 (item 1 11) full ≡ item 2 20 ∷ item 1 11 ∷ []
unfolding cache_sandbox
refreshes = refl

full_once : (j : ℕ) → count (is_item j) full ≤ 1
full_once j = ground arith

cache_sandbox_lem_example :
    ((front : List (Item ℕ)) × (cache_sandbox 2 (item 3 30) full ≡ front ++ item 3 30 ∷ []))
    × (lookup 3 (cache_sandbox 2 (item 3 30) full) ≡ some (item 3 30))
    × (length (cache_sandbox 2 (item 3 30) full) ≤ 2)
    × ((j : ℕ) → count (is_item j) (cache_sandbox 2 (item 3 30) full) ≤ 1)
cache_sandbox_lem_example = cache_sandbox_lem 2 (item 3 30) full (omega arith) full_once
