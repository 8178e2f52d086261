-- ===== src/Sandbox/Removal.antt =====
-- What a deletion of a sandbox leaves of its sessions.
use mathlib.Core.Path.{subst}
use astrbot_shipyard_neo.Base.{
  ℕ, ◌≡◌, refl, ◌∙◌, ap, sym, Bool, true, false, Option, none, some, List, [], ◌∷◌, ◌==◌, ◌||◌,
  arith, Bool-cases, inl, inr, select, delete, first, count, not, ==_refl, ◌&&◌, ◌≤◌,
}
use astrbot_shipyard_neo.Model.{Sandbox, Session, Cargo, Settings}
use astrbot_shipyard_neo.World.Runtime.{Runtime, Result, ok, raise}
use astrbot_shipyard_neo.World.Effect.{
  World, M, get_sandbox_lock, gets, ask, ◌>>=◌, ◌>>◌, for_each, cleanup_sandbox_lock, write_sandbox,
}
use astrbot_shipyard_neo.World.Post.{Post, bind-Post, Post-elim}
use astrbot_shipyard_neo.Cargo.{delete_cargo}
use astrbot_shipyard_neo.Session.Manager.{destroy_session}
use astrbot_shipyard_neo.Sandbox.Lifecycle.{
  find_cargo, delete_managed, delete_live, after_delete, delete_sandbox, shares, locked_row,
}

abbrev pub is_session_of : ℕ → Session → Bool
is_session_of sandbox_id s = s.sandbox_id == sandbox_id

-- One of the sessions has the id of the row.
abbrev has_id : List Session → Session → Bool
has_id [] t = false
has_id (s ∷ ss) t = (t.id == s.id) || has_id ss t

-- The rows of a sandbox that none of the sessions has the id of.
abbrev left_over : ℕ → List Session → List Session → ℕ
left_over k ss rows = count (λ t. is_session_of k t && not (has_id ss t)) rows

none_left :
    (k : ℕ) (rows : List Session) → left_over k [] rows ≡ 0 → select (is_session_of k) rows ≡ []
none_left k [] h = refl
none_left k (t ∷ rows) h = ground (arith, none_left k rows)

left_over-delete :
    (k : ℕ) (s : Session) (ss rows : List Session)
    → left_over k (s ∷ ss) rows ≡ 0
    → left_over k ss (delete (λ t. t.id == s.id) rows) ≡ 0
left_over-delete k s ss [] h = refl
left_over-delete k s ss (t ∷ rows) h = ground (arith, left_over-delete k s ss rows)

left_over_more :
    (k : ℕ) (s : Session) (ss rows : List Session) → left_over k (s ∷ ss) rows ≤ left_over k ss rows
left_over_more k s ss [] = omega arith
left_over_more k s ss (t ∷ rows) = ground (arith, left_over_more k s ss rows)

left_over-select :
    (k : ℕ) (rows : List Session) → left_over k (select (is_session_of k) rows) rows ≡ 0
left_over-select k [] = refl
left_over-select k (t ∷ rows) =
    let others : List Session = select (is_session_of k) rows in
    elim (Bool-cases (is_session_of k t)) [
      | inl e ↦
          let now : select (is_session_of k) (t ∷ rows) ≡ t ∷ others = rw e refl in
          let rest : left_over k (t ∷ others) rows ≡ 0 =
            omega (arith, left_over-select k rows, left_over_more k t others rows) in
          subst (λ ss. left_over k ss (t ∷ rows) ≡ 0) (sym now)
            (rw (e, ==_refl t.id) ground (arith, rest))
      | inr e ↦
          let now : select (is_session_of k) (t ∷ rows) ≡ others = rw e refl in
          subst (λ ss. left_over k ss (t ∷ rows) ≡ 0) (sym now)
            (rw e ground (arith, left_over-select k rows))
    ]

module _ (rt : Runtime) where
  destroy_session-rows :
      (s : Session) (w : World rt.Outside)
      → (destroy_session rt s w).0 ≡ ok tt
      → (destroy_session rt s w).1.sessions ≡ delete (λ t. t.id == s.id) w.sessions
  unfolding destroy_session
  destroy_session-rows s w h = ground arith

  -- The sessions of the sandbox are gone.
  abbrev pub IsEmptied : ℕ → World rt.Outside → Type 0
  IsEmptied k w = select (is_session_of k) w.sessions ≡ []

  abbrev Empties : ℕ → Result (Unit {0}) → World rt.Outside → Type 0
  Empties k (ok u) w = IsEmptied k w
  Empties k (raise e) w = Unit

  destroy_each-Empties :
      (k : ℕ) (ss : List Session) (w : World rt.Outside)
      → left_over k ss w.sessions ≡ 0
      → Post (Empties k) (for_each ss (destroy_session rt) w)
  unfolding for_each
  destroy_each-Empties k [] w h = none_left k w.sessions h
  destroy_each-Empties k (s ∷ ss) w h =
      bind-Post (Empties k) (destroy_session rt s) (λ _. for_each ss (destroy_session rt)) w
        (λ u e. destroy_each-Empties k ss (destroy_session rt s w).1 (
          subst (λ rows. left_over k ss rows ≡ 0) (sym (destroy_session-rows s w e))
            (left_over-delete k s ss w.sessions h)))
        (λ e r. tt)

  delete_cargo-sessions :
      (cargo_id owner : ℕ) (force : Bool) (w : World rt.Outside)
      → (delete_cargo rt cargo_id owner force w).1.sessions ≡ w.sessions
  unfolding delete_cargo
  delete_cargo-sessions cargo_id owner force w = ground arith

  delete_managed-sessions :
      (found : Option Cargo) (owner : ℕ) (w : World rt.Outside)
      → (delete_managed rt found owner w).1.sessions ≡ w.sessions
  unfolding delete_managed
  delete_managed-sessions none owner w = refl
  delete_managed-sessions (some c) owner w = elim (Bool-cases c.managed) [
    | inl e ↦ rw e (delete_cargo-sessions c.id owner true w)
    | inr e ↦ rw e refl
  ]

  -- The rest of the locked section: the write of the row, and the cargo.
  finish_delete : Sandbox → M rt.Outside (Unit {0})
  finish_delete sandbox = do
    cargo ← gets (λ w. find_cargo sandbox.cargo_id w.cargos)
    now ← ask rt.utcnow
    write_sandbox sandbox.id (λ s. record s { deleted_at = some now; current_session_id = none })
    delete_managed rt cargo sandbox.owner

  finish_delete-sessions :
      (sandbox : Sandbox) (w : World rt.Outside) → (finish_delete sandbox w).1.sessions ≡ w.sessions
  unfolding finish_delete
  finish_delete-sessions sandbox w =
      delete_managed-sessions (find_cargo sandbox.cargo_id w.cargos) sandbox.owner _

  emptied-Empties :
      (k : ℕ) (r : Result (Unit {0}) × World rt.Outside) → IsEmptied k r.1 → Post (Empties k) r
  emptied-Empties k (ok u, w) h = h
  emptied-Empties k (raise e, w) h = tt

  abbrev destroyed : Sandbox → World rt.Outside → World rt.Outside
  destroyed sandbox w =
      (for_each (select (is_session_of sandbox.id) w.sessions) (destroy_session rt) w).1

  delete_live-Empties :
      (sandbox : Sandbox) (w : World rt.Outside)
      → Post (Empties sandbox.id) (delete_live rt sandbox w)
  unfolding delete_live finish_delete
  delete_live-Empties sandbox w =
      bind-Post (Empties sandbox.id)
        (for_each (select (is_session_of sandbox.id) w.sessions) (destroy_session rt))
        (λ _. finish_delete sandbox) w
        (λ u e. emptied-Empties sandbox.id (finish_delete sandbox (destroyed sandbox w)) (
          ap (select (is_session_of sandbox.id))
            (finish_delete-sessions sandbox (destroyed sandbox w))
          ∙ Post-elim (Empties sandbox.id)
              (for_each (select (is_session_of sandbox.id) w.sessions) (destroy_session rt) w)
              (destroy_each-Empties sandbox.id (select (is_session_of sandbox.id) w.sessions) w
                (left_over-select sandbox.id w.sessions))
              e))
        (λ e r. tt)

  after_delete-sessions :
      (settings : Settings) (sandbox : Sandbox) (w : World rt.Outside)
      → (after_delete rt settings sandbox w).1.sessions ≡ w.sessions
  unfolding after_delete cleanup_sandbox_lock
  after_delete-sessions settings sandbox w =
      elim (Bool-cases (shares rt settings sandbox.profile_id)) [
        | inl e ↦ rw e refl
        | inr e ↦ rw e refl
      ]

  delete_sandbox-Empties :
      (settings : Settings) (sandbox : Sandbox) (w : World rt.Outside) {row : Sandbox}
      → first (λ s. s.id == sandbox.id) w.sandboxes ≡ some row
      → row.deleted_at ≡ none
      → Post (Empties sandbox.id) (delete_sandbox rt settings sandbox w)
  unfolding delete_sandbox get_sandbox_lock
  delete_sandbox-Empties settings sandbox w found live =
      rw (found, live)
        (bind-Post (Empties sandbox.id) (delete_live rt sandbox)
          (λ _. after_delete rt settings sandbox) ((locked_row rt sandbox.id w).1)
          (λ u e.
            emptied-Empties sandbox.id
              (after_delete rt settings sandbox
                (delete_live rt sandbox (locked_row rt sandbox.id w).1).1)
              (ap (select (is_session_of sandbox.id)) (
                  after_delete-sessions settings sandbox
                    (delete_live rt sandbox (locked_row rt sandbox.id w).1).1)
                ∙ Post-elim (Empties sandbox.id)
                    (delete_live rt sandbox (locked_row rt sandbox.id w).1)
                    (delete_live-Empties sandbox (locked_row rt sandbox.id w).1) e))
          (λ e r. tt))

  -- A deletion that returns, of a sandbox whose row is there and not deleted, leaves no session of it.
  pub delete_sandbox_empties :
      (settings : Settings) (sandbox row : Sandbox) (w : World rt.Outside)
      → first (λ s. s.id == sandbox.id) w.sandboxes ≡ some row
      → row.deleted_at ≡ none
      → (delete_sandbox rt settings sandbox w).0 ≡ ok tt
      → select (is_session_of sandbox.id) (delete_sandbox rt settings sandbox w).1.sessions ≡ []
  delete_sandbox_empties settings sandbox row w found live done =
      Post-elim (Empties sandbox.id) (delete_sandbox rt settings sandbox w)
        (delete_sandbox-Empties settings sandbox w found live) done
