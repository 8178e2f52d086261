-- ===== src/Cargo/Delete.antt =====
-- What a deletion of a cargo needs, and what it leaves, on every branch.
use astrbot_shipyard_neo.Base.{
  ℕ, ◌≡◌, refl, Bool, true, false, none, some, List, [], ◌∷◌, ◌==◌, arith, first, delete,
  Bool-cases, Option-cases, inl, inr, ◌⊎◌, first_sound, select, ◌∙◌, ap, update, is_id,
}
use astrbot_shipyard_neo.Model.{Sandbox, Cargo}
use astrbot_shipyard_neo.World.Runtime.{Runtime, Error, ok, raise}
use astrbot_shipyard_neo.World.Effect.{World}
use astrbot_shipyard_neo.Cargo.{
  is_owned, is_in_use, is_user, any_row, get, delete_cargo, without_cargo,
}

-- A deleted row is not found again.
pub first-delete_self :
    (k : ℕ) (cs : List Cargo) → first (λ c. c.id == k) (delete (λ c. c.id == k) cs) ≡ none
first-delete_self k [] = refl
first-delete_self k (c ∷ cs) = ground (arith, first-delete_self k cs)

owned_id :
    (k owner : ℕ) (cs : List Cargo) {c : Cargo} → first (is_owned k owner) cs ≡ some c → c.id ≡ k
owned_id k owner cs {c} e =
    let test : is_owned k owner c ≡ true = first_sound (is_owned k owner) cs e in ground arith

no_user :
    (k : ℕ) (rows : List Sandbox)
    → select (is_user k) (update (λ s. is_id s.cargo_id k) without_cargo rows) ≡ []
no_user k [] = refl
no_user k (s ∷ rows) = ground (arith, no_user k rows)

module _ (rt : Runtime) (k owner : ℕ) (force : Bool) (w : World rt.Outside) where
  delete_cargo-rows :
      (c : Cargo)
      → (delete_cargo rt k owner force w).0 ≡ ok tt
      → first (is_owned k owner) w.cargos ≡ some c
      → ((delete_cargo rt k owner force w).1.cargos ≡ delete (λ d. d.id == c.id) w.cargos)
        × ((force ≡ true) ⊎ (is_in_use w.sandboxes c ≡ false))
        × ((delete_cargo rt k owner force w).1.sandboxes
            ≡ update (λ s. is_id s.cargo_id c.id) without_cargo w.sandboxes)
        × ((delete_cargo rt k owner force w).1.sessions ≡ w.sessions)
  unfolding delete_cargo
  delete_cargo-rows c h e = ground arith

  -- A deletion that returns: the caller owned the cargo, and either forced the deletion or nothing
  -- used it; the cargos are those before without the rows of that id, so that it is not found again;
  -- the sandboxes that mounted it lose their cargo, so that no live one refers to it, and nothing else
  -- of the sandboxes and no session changes.
  pub delete_cargo_ok :
      (delete_cargo rt k owner force w).0 ≡ ok tt
      → (c : Cargo) × (first (is_owned k owner) w.cargos ≡ some c)
        × ((force ≡ true) ⊎ (is_in_use w.sandboxes c ≡ false))
        × ((delete_cargo rt k owner force w).1.cargos ≡ delete (λ d. d.id == k) w.cargos)
        × (first (λ d. d.id == k) (delete_cargo rt k owner force w).1.cargos ≡ none)
        × ((delete_cargo rt k owner force w).1.sandboxes
            ≡ update (λ s. is_id s.cargo_id k) without_cargo w.sandboxes)
        × (select (is_user k) (delete_cargo rt k owner force w).1.sandboxes ≡ [])
        × ((delete_cargo rt k owner force w).1.sessions ≡ w.sessions)
  unfolding delete_cargo
  delete_cargo_ok h = elim (Option-cases (first (is_owned k owner) w.cargos)) [
    | inl e ↦ absurd (ground arith)
    | inr (c, e) ↦
        let (rows, allowed, sandboxes, sessions) = delete_cargo-rows c h e in
        let same : c.id ≡ k = owned_id k owner w.cargos e in
        let gone : (delete_cargo rt k owner force w).1.cargos ≡ delete (λ d. d.id == k) w.cargos =
          rows ∙ ap (λ i. delete (λ (d : Cargo). d.id == i) w.cargos) same in
        let unloaded : (delete_cargo rt k owner force w).1.sandboxes
            ≡ update (λ s. is_id s.cargo_id k) without_cargo w.sandboxes =
          sandboxes
          ∙ ap (λ i. update (λ (s : Sandbox). is_id s.cargo_id i) without_cargo w.sandboxes) same in
        (
          c,
          e,
          allowed,
          gone,
          ap (first (λ d. d.id == k)) gone ∙ first-delete_self k w.cargos,
          unloaded,
          ap (select (is_user k)) unloaded ∙ no_user k w.sandboxes,
          sessions,
        )
  ]

  -- A deletion that raises leaves the cargos, the sandboxes and the sessions as they were.
  pub delete_cargo_raises :
      (e : Error)
      → (delete_cargo rt k owner force w).0 ≡ raise e
      → ((delete_cargo rt k owner force w).1.cargos ≡ w.cargos)
        × ((delete_cargo rt k owner force w).1.sandboxes ≡ w.sandboxes)
        × ((delete_cargo rt k owner force w).1.sessions ≡ w.sessions)
  unfolding delete_cargo
  delete_cargo_raises e h = ground arith

any_row-select :
    (test : Sandbox → Bool) (xs : List Sandbox) {s : Sandbox}
    → first test xs ≡ some s
    → any_row (select test xs) ≡ true
any_row-select test [] e = cc
any_row-select test (x ∷ xs) {s} e = elim (Bool-cases (test x)) [
  | inl t ↦ rw t refl
  | inr t ↦ rw t (any_row-select test xs (rw t at e))
]

used_externally :
    (k : ℕ) (sandboxes : List Sandbox) (c : Cargo) {s : Sandbox}
    → c.managed ≡ false
    → c.id ≡ k
    → first (is_user k) sandboxes ≡ some s
    → is_in_use sandboxes c ≡ true
used_externally k sandboxes c external same found = rw external (
    ap (λ i. any_row (select (is_user i) sandboxes)) same
    ∙ any_row-select (is_user k) sandboxes found)

-- An unforced deletion takes no cargo from a sandbox that needs it: it is refused while an active
-- sandbox mounts an external cargo, and while the sandbox that manages a managed one is active.
pub delete_cargo_guard :
    (rt : Runtime) (k owner : ℕ) (w : World rt.Outside) {c : Cargo}
    → first (is_owned k owner) w.cargos ≡ some c
    → ((s : Sandbox) × (c.managed ≡ false) × (first (is_user k) w.sandboxes ≡ some s))
      ⊎ ((m : ℕ) × (s : Sandbox) × (c.managed ≡ true)
          × (c.managed_by_sandbox_id ≡ some m)
          × (first (λ t. t.id == m) w.sandboxes ≡ some s)
          × (s.deleted_at ≡ none))
    → delete_cargo rt k owner false w ≡ (raise Error.conflict, w)
unfolding delete_cargo get
delete_cargo_guard rt k owner w {c} e (inl (s, external, mounted)) =
    let used : is_in_use w.sandboxes c ≡ true =
      used_externally k w.sandboxes c external (owned_id k owner w.cargos e) mounted in
    ground arith
delete_cargo_guard rt k owner w {c} e (inr (m, s, managed, by, there, active)) = ground arith
