-- ===== src/Gc/Kept.antt =====
-- What the orphan tasks may touch.
use astrbot_shipyard_neo.Base.{
  ℕ, ◌≡◌, refl, ◌∙◌, Bool, true, false, List, [], ◌∷◌, ◌++◌, ◌==◌, ◌&&◌, ◌||◌, not, arith,
  if◌then◌else◌, Bool-cases, Option-cases, inl, inr, first, delete, is_some, map, select, All,
  All-snoc, All-weaken, first_sound,
}
use astrbot_shipyard_neo.Model.{Sandbox, Session, Cargo}
use astrbot_shipyard_neo.World.Runtime.{Runtime, RuntimeInstance, Result, ok, raise}
use astrbot_shipyard_neo.World.Effect.{World, M, pure, call, ◌>>◌, has_key, handle, proceed}
use astrbot_shipyard_neo.Cargo
use astrbot_shipyard_neo.Gc.Sweep.{GcResult, new_result, add_error, count_item, sweep_item, sweep}
use astrbot_shipyard_neo.World.Keeps.{proceed-Keeps}
use astrbot_shipyard_neo.Gc.Orphans.{
  is_unmanaged, is_orphan, append_new, find_orphans, process_cargo, run_orphan_cargo, label,
  starts_with, container_name_prefix, has_value, is_blank, has_session, process_instance,
}

-- All that makes a container an orphan of Bay: its name, its five labels, their values, and no session.
abbrev pub is_strict_orphan : ℕ → RuntimeInstance → List Session → Bool
is_strict_orphan instance_id i sessions =
    starts_with container_name_prefix i.name
    && (has_value (label "bay.managed" i.labels) 1
        && (has_value (label "bay.instance_id" i.labels) instance_id
            && (is_some (label "bay.sandbox_id" i.labels)
                && (is_some (label "bay.cargo_id" i.labels)
                    && (not (is_blank (label "bay.session_id" i.labels))
                        && not (has_session (label "bay.session_id" i.labels) sessions))))))

-- Deleting the rows of one id leaves those of another.
first_after_delete :
    (k j : ℕ) (cs : List Cargo)
    → (j == k) ≡ false
    → first (λ c. c.id == k) (delete (λ c. c.id == j) cs) ≡ first (λ c. c.id == k) cs
first_after_delete k j [] h = refl
first_after_delete k j (c ∷ cs) h = ground (arith, first_after_delete k j cs h)

module _ (rt : Runtime) where
  -- The strict task destroys an instance exactly when it is an orphan by every one of the criteria,
  -- and otherwise does nothing at all.
  pub process_instance_strict :
      (instance_id : ℕ) (i : RuntimeInstance) (w : World rt.Outside)
      → process_instance rt instance_id i w ≡ (
          if is_strict_orphan instance_id i w.sessions
          then (call (rt.destroy_runtime_instance i.id) >> pure true) w
          else (ok false, w))
  unfolding process_instance
  process_instance_strict instance_id i w = ground arith

  delete_other :
      (k j : ℕ) (w : World rt.Outside)
      → (j == k) ≡ false
      → first (λ c. c.id == k) (Cargo.delete_internal_by_id rt j w).1.cargos
        ≡ first (λ c. c.id == k) w.cargos
  unfolding Cargo.delete_internal_by_id Cargo.get_by_id
  delete_other k j w h = elim (Option-cases (first (λ c. c.id == j) w.cargos)) [
    | inl e ↦ ground arith
    | inr (c, e) ↦
        let same : (c.id == j) ≡ true = first_sound (λ c. c.id == j) w.cargos e in
        let kept : first (λ d. d.id == k) (delete (λ d. d.id == c.id) w.cargos)
            ≡ first (λ d. d.id == k) w.cargos =
          first_after_delete k c.id w.cargos (ground arith) in
        ground arith
  ]

  process_cargo_other :
      (k j : ℕ) (w : World rt.Outside)
      → (j == k) ≡ false
      → first (λ c. c.id == k) (process_cargo rt j w).1.cargos ≡ first (λ c. c.id == k) w.cargos
  unfolding process_cargo
  process_cargo_other k j w h =
      let kept = delete_other k j (record w { outside = (rt.cargo_instances j w.outside).1 }) h in
      ground (arith, kept)

  module _ {A : Type 0} (id_of : A → ℕ) (process : A → M rt.Outside Bool)
      (I : World rt.Outside → Type 0) where
    item_keeps :
        (item : A) (r : GcResult) (x : Result Bool × World rt.Outside)
        → I x.1
        → I
            (handle
              (λ e. pure (add_error (id_of item) e r))
              (proceed (λ cleaned. pure (count_item cleaned r)) x)).1
    item_keeps item r (ok cleaned, w) h = h
    item_keeps item r (raise e, w) h = h

    sweep_keeps :
        (items : List A) (r : GcResult) (w : World rt.Outside)
        → All (λ item. (v : World rt.Outside) → I v → I (process item v).1) items
        → I w
        → I (sweep id_of process items r w).1
    unfolding sweep
    sweep_keeps [] r w keep h = h
    sweep_keeps (item ∷ items) r w keep h =
        proceed-Keeps I (λ r'. sweep id_of process items r') (sweep_item id_of process item r w)
          (λ r' v hv. sweep_keeps items r' v keep.1 hv)
          (item_keeps item r (process item w) (keep.0 w h))

All-append_new :
    (P : ℕ → Type 0) (ids ks : List ℕ) → All P ids → All P ks → All P (append_new ids ks)
All-append_new P ids [] h hk = h
All-append_new P ids (k ∷ ks) h hk = elim (Bool-cases (has_key k ids)) [
  | inl e ↦ rw e (All-append_new P ids ks h hk.1)
  | inr e ↦ rw e (All-append_new P (ids ++ k ∷ []) ks (All-snoc P ids h hk.0) hk.1)
]

-- No cargo with the id is an orphan.
abbrev pub is_orphan_row : ℕ → List Sandbox → Cargo → Bool
is_orphan_row k sandboxes c = (c.id == k) && (is_unmanaged c || is_orphan sandboxes c)

no_id :
    (k : ℕ) (test : Cargo → Bool) (cargos : List Cargo)
    → All (λ c. ((c.id == k) && test c) ≡ false) cargos
    → All (λ j. (j == k) ≡ false) (map (λ (c : Cargo). c.id) (select test cargos))
no_id k test [] h = tt
no_id k test (c ∷ cargos) h = elim (Bool-cases (test c)) [
  | inl e ↦ rw e (ground arith, no_id k test cargos h.1)
  | inr e ↦ rw e (no_id k test cargos h.1)
]

weaker :
    (k : ℕ) (sandboxes : List Sandbox) (cargos : List Cargo)
    → All (λ c. is_orphan_row k sandboxes c ≡ false) cargos
    → All (λ c. ((c.id == k) && is_unmanaged c) ≡ false) cargos
      × All (λ c. ((c.id == k) && is_orphan sandboxes c) ≡ false) cargos
weaker k sandboxes cargos h =
    (All-weaken cargos (λ c e. ground arith) h, All-weaken cargos (λ c e. ground arith) h)

-- The orphan task leaves a cargo that is no orphan as it is: one that is external, or whose managing
-- sandbox has no deleted row.
pub run_orphan_cargo_spares :
    (rt : Runtime) (k : ℕ) (w : World rt.Outside)
    → All (λ c. is_orphan_row k w.sandboxes c ≡ false) w.cargos
    → first (λ c. c.id == k) (run_orphan_cargo rt w).1.cargos ≡ first (λ c. c.id == k) w.cargos
unfolding run_orphan_cargo
run_orphan_cargo_spares rt k w h =
    let (unmanaged, orphaned) = weaker k w.sandboxes w.cargos h in
    let safe : All (λ j. (j == k) ≡ false) (find_orphans w.sandboxes w.cargos) =
      All-append_new (λ j. (j == k) ≡ false)
        (map (λ (c : Cargo). c.id) (select is_unmanaged w.cargos))
        (map (λ (c : Cargo). c.id) (select (is_orphan w.sandboxes) w.cargos))
        (no_id k is_unmanaged w.cargos unmanaged)
        (no_id k (is_orphan w.sandboxes) w.cargos orphaned) in
    sweep_keeps rt (λ j. j) (process_cargo rt)
      (λ v. first (λ c. c.id == k) v.cargos ≡ first (λ c. c.id == k) w.cargos)
      (find_orphans w.sandboxes w.cargos) (new_result 2) w
      (All-weaken (find_orphans w.sandboxes w.cargos)
        (λ j ne v same. process_cargo_other rt k j v ne ∙ same) safe)
      refl
