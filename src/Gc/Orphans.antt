-- ===== src/Gc/Orphans.antt =====
-- `OrphanCargoGC` and `OrphanContainerGC`.
use Prim.Native.String.{String}
use text.Mathlib.Text.{◌==◌ as str_eq}
use astrbot_shipyard_neo.Base.{
  ℕ, Bool, true, false, Option, none, some, List, [], ◌∷◌, ◌++◌, ◌==◌, ◌&&◌, not, if◌then◌else◌,
  is_none, is_some, select, map, first,
}
use astrbot_shipyard_neo.Model.{Sandbox, Session, Cargo}
use astrbot_shipyard_neo.World.Runtime.{Runtime, RuntimeInstance}
use astrbot_shipyard_neo.World.Effect.{M, pure, gets, call, ◌>>=◌, ◌>>◌, has_key}
use astrbot_shipyard_neo.Cargo
use astrbot_shipyard_neo.Gc.Sweep.{GcResult, new_result, sweep}

-- The first query: managed, and managed by no sandbox.
abbrev pub is_unmanaged : Cargo → Bool
is_unmanaged c = c.managed && is_none c.managed_by_sandbox_id

-- A row of the outer join with the sandboxes: `sandbox.deleted_at IS NOT NULL`.
abbrev pub is_row_deleted : ℕ → Sandbox → Bool
is_row_deleted k s = (s.id == k) && is_some s.deleted_at

abbrev pub has_deleted_manager : List Sandbox → Option ℕ → Bool
has_deleted_manager sandboxes none = false
has_deleted_manager sandboxes (some k) = is_some (first (is_row_deleted k) sandboxes)

-- The second query.
abbrev pub is_orphan : List Sandbox → Cargo → Bool
is_orphan sandboxes c = c.managed && has_deleted_manager sandboxes c.managed_by_sandbox_id

abbrev cargo_ids : List Cargo → List ℕ
cargo_ids cs = map (λ (c : Cargo). c.id) cs

-- `if cargo_id not in orphan_ids: orphan_ids.append(cargo_id)`
abbrev pub append_new : List ℕ → List ℕ → List ℕ
append_new ids [] = ids
append_new ids (k ∷ ks) = append_new (if has_key k ids then ids else ids ++ k ∷ []) ks

-- `_find_orphans`
abbrev pub find_orphans : List Sandbox → List Cargo → List ℕ
find_orphans sandboxes cargos =
    append_new (cargo_ids (select is_unmanaged cargos))
      (cargo_ids (select (is_orphan sandboxes) cargos))

abbrev pub is_nil {ℓ} : {A : Type ℓ} → List A → Bool
is_nil [] = true
is_nil (x ∷ xs) = false

-- `dict.get`
abbrev pub label : String → List (String × ℕ) → Option ℕ
label name [] = none
label name ((k, v) ∷ ls) = if str_eq k name then some v else label name ls

-- `name.startswith("bay-")`
abbrev pub starts_with : List ℕ → List ℕ → Bool
starts_with [] name = true
starts_with (c ∷ cs) [] = false
starts_with (c ∷ cs) (d ∷ ds) = (c == d) && starts_with cs ds

abbrev pub container_name_prefix : List ℕ
container_name_prefix = b'b' ∷ b'a' ∷ b'y' ∷ b'-' ∷ []

abbrev pub required_labels : List String
required_labels =
    "bay.session_id" ∷ "bay.sandbox_id" ∷ "bay.cargo_id" ∷ "bay.instance_id" ∷ "bay.managed" ∷ []

abbrev pub missing_labels : List String → List (String × ℕ) → List String
missing_labels [] labels = []
missing_labels (name ∷ names) labels =
    if is_some (label name labels)
    then missing_labels names labels
    else name ∷ missing_labels names labels

-- `labels.get(name) == value`
abbrev pub has_value : Option ℕ → ℕ → Bool
has_value none v = false
has_value (some u) v = u == v

-- `not session_id`: absent or the empty text
abbrev pub is_blank : Option ℕ → Bool
is_blank none = true
is_blank (some v) = v == 0

-- `Session.id == session_id`
abbrev pub has_session : Option ℕ → List Session → Bool
has_session none sessions = false
has_session (some k) sessions = is_some (first (λ s. s.id == k) sessions)

module _ (rt : Runtime) where
  -- The body of the loop of `OrphanCargoGC.run`.
  unfoldable pub process_cargo : ℕ → M rt.Outside Bool
  process_cargo cargo_id = do
    instances ← call (rt.cargo_instances cargo_id)
    (if not (is_nil instances)
        then pure false
        else (Cargo.delete_internal_by_id rt cargo_id >> pure true))

  unfoldable pub run_orphan_cargo : M rt.Outside GcResult
  unfolding process_cargo sweep
  run_orphan_cargo = do
    orphans ← gets (λ w. find_orphans w.sandboxes w.cargos)
    sweep (λ k. k) process_cargo orphans (new_result 2)

  -- `OrphanContainerGC._process_instance`, for Bay's own instance id. The counter of skipped
  -- instances is kept by the loop.
  unfoldable pub process_instance : ℕ → RuntimeInstance → M rt.Outside Bool
  process_instance instance_id i =
      if not (starts_with container_name_prefix i.name)
      then pure false
      else if not (is_nil (missing_labels required_labels i.labels))
      then pure false
      else if not (has_value (label "bay.managed" i.labels) 1)
      then pure false
      else if not (has_value (label "bay.instance_id" i.labels) instance_id)
      then pure false
      else if is_blank (label "bay.session_id" i.labels)
      then pure false
      else (do
        exists ← gets (λ w. has_session (label "bay.session_id" i.labels) w.sessions)
        (if exists then pure false else (call (rt.destroy_runtime_instance i.id) >> pure true)))

  unfoldable pub run_orphan_container : ℕ → M rt.Outside GcResult
  unfolding process_instance sweep
  run_orphan_container instance_id = do
    instances ← call (rt.managed_instances instance_id)
    sweep (λ (i : RuntimeInstance). i.id) (process_instance instance_id) instances (new_result 3)
