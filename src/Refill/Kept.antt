-- ===== src/Refill/Kept.antt =====
-- What a retirement and a rotation leave of the pool.
use mathlib.Core.Path.{subst}
use astrbot_shipyard_neo.Base.{
  ℕ, ◌+◌, ◌≤◌, ◌≡◌, refl, sym, Option, none, some, List, [], ◌∷◌, ◌==◌, arith, Bool-cases, inl, inr,
  select, first, update, count, length, Bool, true, is_id, delete, ◌∙◌, ◌&&◌, Option-cases,
}
use astrbot_shipyard_neo.Model.{Sandbox, Session, Cargo, Settings}
use astrbot_shipyard_neo.World.Runtime.{Runtime, Error, Result, ok, raise}
use astrbot_shipyard_neo.Cargo
use astrbot_shipyard_neo.Cargo.{without_cargo}
use astrbot_shipyard_neo.World.Effect.{
  World, proceed, modify, for_each, get_sandbox_lock, cleanup_sandbox_lock,
}
use astrbot_shipyard_neo.World.Keeps.{
  Keeps, >>=-Keeps, for_each-Keeps, proceed-Keeps, or_raise-Keeps,
}
use astrbot_shipyard_neo.Session.Manager.{destroy_session}
use astrbot_shipyard_neo.Sandbox.Create.{get_sandbox, is_visible}
use astrbot_shipyard_neo.Sandbox.Lifecycle.{
  is_gone, delete_live, delete_managed, after_delete, delete_sandbox, find_cargo, shares,
}
use astrbot_shipyard_neo.Sandbox.Warm.{is_claimable, as_retiring}
use astrbot_shipyard_neo.Warmup.Queue.{WarmPoolConfig}
use astrbot_shipyard_neo.Gc.Reclaim.{destroy-Spares}
use astrbot_shipyard_neo.Refill.Maintain.{is_pending, is_worn, retire}

-- The live sandboxes of the pool that are available, or pending.
abbrev pub supply : ℕ → List Sandbox → ℕ
supply p rows = count (is_claimable p) rows + count (is_pending p) rows

-- What a rotation leaves.
abbrev pub rotated : ℕ → ℕ → List Sandbox → List Sandbox
rotated now p rows = update (is_worn now p) as_retiring rows

pub supply-rotated :
    (now p : ℕ) (rows : List Sandbox)
    → supply p (rotated now p rows) + length (select (is_worn now p) rows) ≡ supply p rows
supply-rotated now p [] = refl
supply-rotated now p (s ∷ rows) = ground (arith, supply-rotated now p rows)

pub worn-claimable :
    (now p : ℕ) (rows : List Sandbox)
    → length (select (is_worn now p) rows) ≤ count (is_claimable p) rows
worn-claimable now p [] = omega arith
worn-claimable now p (s ∷ rows) = ground (arith, worn-claimable now p rows)

-- A deletion of rows takes none into the pool.
supply-deleted :
    (p k moment : ℕ) (rows : List Sandbox)
    → supply p (
        update
          (λ s. s.id == k)
          (λ s. record s { deleted_at = some moment; current_session_id = none })
          rows)
      ≤ supply p rows
supply-deleted p k moment [] = omega arith
supply-deleted p k moment (s ∷ rows) = ground (arith, supply-deleted p k moment rows)

supply-unloaded :
    (p k : ℕ) (rows : List Sandbox)
    → supply p (update (λ s. is_id s.cargo_id k) without_cargo rows) ≡ supply p rows
supply-unloaded p k [] = refl
supply-unloaded p k (s ∷ rows) = ground (arith, supply-unloaded p k rows)

-- What a deletion of a sandbox, and that of its cargo, keep of the rows.
pub record IsLasting (P : List Sandbox → Type 0) : Type 0 where
  pub deleted :
      (k moment : ℕ) (rows : List Sandbox)
      → P rows
      → P (
          update
            (λ s. s.id == k)
            (λ s. record s { deleted_at = some moment; current_session_id = none })
            rows)
  pub unloaded :
      (k : ℕ) (rows : List Sandbox)
      → P rows
      → P (update (λ s. is_id s.cargo_id k) without_cargo rows)

module _ (rt : Runtime) (P : List Sandbox → Type 0) (lasting : IsLasting P) where
  abbrev Holds : World rt.Outside → Type 0
  Holds w = P w.sandboxes

  destroy_each-Holds : (ss : List Session) → Keeps Holds (for_each ss (destroy_session rt))
  destroy_each-Holds ss =
      for_each-Keeps Holds ss (destroy_session rt)
        (λ s w h. subst P (sym (destroy-Spares rt s w).0) h)

  delete_cargo-Holds :
      (cargo_id owner : ℕ) → Keeps Holds (Cargo.delete_cargo rt cargo_id owner true)
  unfolding Cargo.delete_cargo Cargo.get
  delete_cargo-Holds cargo_id owner w h =
      elim (Option-cases (first (Cargo.is_owned cargo_id owner) w.cargos)) [
        | inl e ↦ rw e h
        | inr (c, e) ↦ rw e (dropped c (rt.delete_volume c.driver_ref w.outside))
      ]
    where
      dropped :
          (c : Cargo) (r : Result (Unit {0}) × rt.Outside)
          → Holds
              (proceed
                (λ _. modify (λ v. record v {
                  cargos = delete (λ d. d.id == c.id) v.cargos;
                  sandboxes = update (λ s. is_id s.cargo_id c.id) without_cargo v.sandboxes;
                }))
                (r.0, record w { outside = r.1 })).1
      dropped c (ok u, o) = lasting.unloaded c.id w.sandboxes h
      dropped c (raise e, o) = h

  delete_managed-Holds :
      (found : Option Cargo) (owner : ℕ) → Keeps Holds (delete_managed rt found owner)
  unfolding delete_managed
  delete_managed-Holds none owner w h = h
  delete_managed-Holds (some c) owner w h = elim (Bool-cases c.managed) [
    | inl e ↦ rw e (delete_cargo-Holds c.id owner w h)
    | inr e ↦ rw e h
  ]

  delete_live-Holds : (s : Sandbox) → Keeps Holds (delete_live rt s)
  unfolding delete_live
  delete_live-Holds s w h =
      proceed-Keeps Holds _
        (for_each (select (λ t. t.sandbox_id == s.id) w.sessions) (destroy_session rt) w)
        (λ _ v hv.
          delete_managed-Holds (find_cargo s.cargo_id v.cargos) s.owner _
            (lasting.deleted s.id (rt.utcnow v.outside).0 v.sandboxes hv))
        (destroy_each-Holds (select (λ t. t.sandbox_id == s.id) w.sessions) w h)

  after_delete-Holds :
      (settings : Settings) (s : Sandbox) → Keeps Holds (after_delete rt settings s)
  unfolding after_delete cleanup_sandbox_lock
  after_delete-Holds settings s w h = elim (Bool-cases (shares rt settings s.profile_id)) [
    | inl e ↦ rw e h
    | inr e ↦ rw e h
  ]

  delete_sandbox-Holds :
      (settings : Settings) (s : Sandbox) → Keeps Holds (delete_sandbox rt settings s)
  unfolding delete_sandbox get_sandbox_lock
  delete_sandbox-Holds settings s w h =
      elim (Bool-cases (is_gone (first (λ t. t.id == s.id) w.sandboxes))) [
        | inl gone ↦ rw gone h
        | inr here ↦ rw here (
            >>=-Keeps Holds (delete_live rt s) (λ _. after_delete rt settings s)
              (delete_live-Holds s) (λ _. after_delete-Holds settings s) _ h)
      ]

  get_sandbox-Holds : (s : Sandbox) → Keeps Holds (get_sandbox rt s.id s.owner)
  unfolding get_sandbox
  get_sandbox-Holds s w h =
      or_raise-Keeps Holds (first (is_visible s.id s.owner) w.sandboxes) Error.not_found w h

  pub retire-Holds :
      (settings : Settings) (config : WarmPoolConfig) (s : Sandbox)
      → Keeps Holds (retire rt settings config s)
  unfolding retire
  retire-Holds settings config s w h =
      >>=-Keeps Holds (get_sandbox rt s.id s.owner) (delete_sandbox rt settings)
        (get_sandbox-Holds s) (delete_sandbox-Holds settings) w h

supply-IsLasting : (p n : ℕ) → IsLasting (λ rows. supply p rows ≤ n)
supply-IsLasting p n = record {
  deleted = λ k moment rows h. omega (arith, h, supply-deleted p k moment rows);
  unloaded = λ k rows h. omega (arith, h, supply-unloaded p k rows);
}

module _ (rt : Runtime) (p n : ℕ) where
  abbrev pub IsWithin : World rt.Outside → Type 0
  IsWithin w = supply p w.sandboxes ≤ n

  pub retire-IsWithin :
      (settings : Settings) (config : WarmPoolConfig) (s : Sandbox)
      → Keeps IsWithin (retire rt settings config s)
  retire-IsWithin = retire-Holds rt (λ rows. supply p rows ≤ n) (supply-IsLasting p n)

-- The rows that were ever made for the pool of a profile, deleted or not.
abbrev pub is_made : ℕ → Sandbox → Bool
is_made p s = s.is_warm_pool && (s.profile_id == p)

made-deleted :
    (p k moment : ℕ) (rows : List Sandbox)
    → count (is_made p) (
        update
          (λ s. s.id == k)
          (λ s. record s { deleted_at = some moment; current_session_id = none })
          rows)
      ≡ count (is_made p) rows
made-deleted p k moment [] = refl
made-deleted p k moment (s ∷ rows) = ground (arith, made-deleted p k moment rows)

made-unloaded :
    (p k : ℕ) (rows : List Sandbox)
    → count (is_made p) (update (λ s. is_id s.cargo_id k) without_cargo rows)
      ≡ count (is_made p) rows
made-unloaded p k [] = refl
made-unloaded p k (s ∷ rows) = ground (arith, made-unloaded p k rows)

pub made-rotated :
    (now p : ℕ) (rows : List Sandbox)
    → count (is_made p) (rotated now p rows) ≡ count (is_made p) rows
made-rotated now p [] = refl
made-rotated now p (s ∷ rows) = ground (arith, made-rotated now p rows)

pub made-IsLasting : (p n : ℕ) → IsLasting (λ rows. count (is_made p) rows ≡ n)
made-IsLasting p n = record {
  deleted = λ k moment rows h. made-deleted p k moment rows ∙ h;
  unloaded = λ k rows h. made-unloaded p k rows ∙ h;
}
