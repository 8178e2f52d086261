-- ===== src/Sandbox/Ttl.antt =====
-- `extend_ttl` and `keepalive`.
use astrbot_shipyard_neo.Base.{
  ℕ, ◌+◌, ◌≡◌, Option, none, some, ltb, if◌then◌else◌, first, arith, ℤ, pos, negsuc, zero, suc,
  List, [], ◌∷◌, ap, ◌∙◌, sym, refl, false, update, ◌==◌, Bool-cases, Option-cases, inl, inr,
}
use astrbot_shipyard_neo.Model.{Sandbox, Settings, get_profile, seconds, last_moment}
use astrbot_shipyard_neo.World.Runtime.{Runtime, Error, ok, raise}
use astrbot_shipyard_neo.World.Effect.{
  World, M, pure, gets, ask, or_raise, raise_if, ◌>>=◌, ◌>>◌, get_sandbox_lock, write_sandbox,
}
use astrbot_shipyard_neo.Sandbox.Create.{is_visible}

-- The number of seconds of a positive `extend_by`.
abbrev pub positive : ℤ → Option ℕ
positive (negsuc n) = none
positive (pos zero) = none
positive (pos (suc n)) = some (suc n)

module _ (rt : Runtime) where
  -- The row is found and locked, and its `expires_at` tested against the clock. A moment beyond
  -- `datetime.max` is an `OverflowError`.
  unfoldable pub extend_row : ℕ → ℕ → ℕ → M rt.Outside Sandbox
  extend_row sandbox_id owner extend_by = do
    found ← gets (λ w. first (is_visible sandbox_id owner) w.sandboxes)
    sandbox ← or_raise found Error.not_found
    old ← or_raise sandbox.expires_at Error.sandbox_ttl_infinite
    now ← ask rt.utcnow
    raise_if (ltb old now) Error.sandbox_expired
    let base = if ltb now old then old else now
    raise_if (ltb last_moment (base + seconds extend_by)) Error.overflow
    write_sandbox sandbox_id (λ s. record s { expires_at = some (base + seconds extend_by) })
    pure (record sandbox { expires_at = some (base + seconds extend_by) })

  unfoldable pub extend_ttl : ℕ → ℕ → ℤ → M rt.Outside Sandbox
  unfolding extend_row get_sandbox_lock
  extend_ttl sandbox_id owner extend_by = do
    n ← or_raise (positive extend_by) Error.validation
    get_sandbox_lock sandbox_id
    extend_row sandbox_id owner n

  -- The idle time-out is set only when the profile still exists; compute is not started.
  unfoldable pub keepalive : Settings → Sandbox → M rt.Outside (Unit {0})
  keepalive settings sandbox = elim (get_profile settings.profiles sandbox.profile_id) [
    | none ↦ do
      now ← ask rt.utcnow
      write_sandbox sandbox.id (λ s. record s { last_active_at = now })
    | some profile ↦ do
      start ← ask rt.utcnow
      now ← ask rt.utcnow
      write_sandbox sandbox.id (λ s. record s {
        idle_expires_at = some (start + seconds profile.idle_timeout);
        last_active_at = now;
      })
  ]

-- A refused extension writes nothing, whatever the reason; the clock is the only thing it may touch.
pub extend_ttl_refused :
    (rt : Runtime) (k owner : ℕ) (extend_by : ℤ) (w : World rt.Outside) {e : Error}
    → (extend_ttl rt k owner extend_by w).0 ≡ raise e
    → ((extend_ttl rt k owner extend_by w).1.sandboxes ≡ w.sandboxes)
      × ((extend_ttl rt k owner extend_by w).1.sessions ≡ w.sessions)
      × ((extend_ttl rt k owner extend_by w).1.cargos ≡ w.cargos)
unfolding extend_ttl
extend_ttl_refused rt k owner extend_by w h = ground arith

abbrev extended : ℕ → Sandbox → Sandbox
extended moment s = record s { expires_at = some moment }

-- The rows after an extension to a moment.
abbrev extended_rows : ℕ → ℕ → List Sandbox → List Sandbox
extended_rows k moment rows = update (λ s. s.id == k) (extended moment) rows

raised : {e : Error} {s : Sandbox} → raise e ≡ ok s → ⊥
raised h = cc

ok-inv : {s t : Sandbox} → ok s ≡ ok t → s ≡ t
ok-inv h = cc

number-inv : {i j : ℕ} → some i ≡ some j → i ≡ j
number-inv h = cc

some-inv : {s t : Sandbox} → some s ≡ some t → s ≡ t
some-inv h = cc

first-extended :
    (k owner moment : ℕ) (rows : List Sandbox) {s : Sandbox}
    → first (is_visible k owner) rows ≡ some s
    → first (is_visible k owner) (extended_rows k moment rows) ≡ some (extended moment s)
first-extended k owner moment [] h = cc
first-extended k owner moment (t ∷ rows) {s} h = elim (Bool-cases (t.id == k)) [
  | inr e ↦ rw (e, e) (first-extended k owner moment rows (rw e at h))
  | inl e ↦ elim (Bool-cases (is_visible k owner t)) [
    | inl seen ↦ rw (e, seen) (ap (λ x. some (extended moment x)) (some-inv (rw seen at h)))
    | inr unseen ↦ rw (e, unseen) (first-extended k owner moment rows (rw unseen at h))
  ]
]

extended_twice :
    (k early late : ℕ) (rows : List Sandbox)
    → extended_rows k late (extended_rows k early rows) ≡ extended_rows k late rows
extended_twice k early late [] = refl
extended_twice k early late (s ∷ rows) = elim (Bool-cases (s.id == k)) [
  | inl e ↦ rw (e, e) (ap (◌∷◌ (extended late s)) (extended_twice k early late rows))
  | inr e ↦ rw (e, e) (ap (◌∷◌ s) (extended_twice k early late rows))
]

module _ (rt : Runtime) (k owner : ℕ) where
  -- An extension that returns.
  record IsExtended (n : ℕ) (w : World rt.Outside) (s : Sandbox) : Type 0 where
    row : Sandbox
    old : ℕ
    found : first (is_visible k owner) w.sandboxes ≡ some row
    dated : row.expires_at ≡ some old
    live : ltb old (rt.utcnow w.outside).0 ≡ false
    bounded : ltb last_moment (old + seconds (suc n)) ≡ false
    moved : s ≡ extended (old + seconds (suc n)) row
    rows :
        (extend_ttl rt k owner (pos (suc n)) w).1.sandboxes
        ≡ extended_rows k (old + seconds (suc n)) w.sandboxes

  base-eq-old : (old now : ℕ) → ltb old now ≡ false → (if ltb now old then old else now) ≡ old
  base-eq-old old now live = ground (arith, live)

  extend_ttl-ok :
      (n : ℕ) (w : World rt.Outside) (row : Sandbox) (old : ℕ)
      → first (is_visible k owner) w.sandboxes ≡ some row
      → row.expires_at ≡ some old
      → ltb old (rt.utcnow w.outside).0 ≡ false
      → ltb last_moment (old + seconds (suc n)) ≡ false
      → ((extend_ttl rt k owner (pos (suc n)) w).0 ≡ ok (extended (old + seconds (suc n)) row))
        × ((extend_ttl rt k owner (pos (suc n)) w).1.sandboxes
            ≡ extended_rows k (old + seconds (suc n)) w.sandboxes)
  unfolding extend_ttl
  extend_ttl-ok n w row old found dated live bounded =
      rw (found, dated, live, base-eq-old old (rt.utcnow w.outside).0 live, bounded) (refl, refl)

  extend_ttl-inv :
      (n : ℕ) (w : World rt.Outside) {s : Sandbox}
      → (extend_ttl rt k owner (pos (suc n)) w).0 ≡ ok s
      → IsExtended n w s
  unfolding extend_ttl
  extend_ttl-inv n w {s} h = elim (Option-cases (first (is_visible k owner) w.sandboxes)) [
    | inl e ↦ absurd (ground arith)
    | inr (row, e) ↦ elim (Option-cases row.expires_at) [
      | inl forever ↦ absurd (ground arith)
      | inr (old, dated) ↦ elim (Bool-cases (ltb old (rt.utcnow w.outside).0)) [
        | inl past ↦ absurd (ground arith)
        | inr live ↦ elim (Bool-cases (ltb last_moment (old + seconds (suc n)))) [
          | inl beyond ↦
              let base = base-eq-old old (rt.utcnow w.outside).0 live in
              absurd (raised (rw (e, dated, live, base, beyond) at h))
          | inr bounded ↦
              let (done, written) = extend_ttl-ok n w row old e dated live bounded in
              record {
                row = row;
                old = old;
                found = e;
                dated = dated;
                live = live;
                bounded = bounded;
                moved = ok-inv (sym h ∙ done);
                rows = written;
              }
        ]
      ]
    ]
  ]

  -- Two extensions add up: if an extension returns, and another one after it, then a single extension by
  -- the sum of their seconds would have returned the same sandbox, and left the same sandboxes.
  pub extend_ttl-add :
      (n m : ℕ) (w : World rt.Outside) {s t : Sandbox}
      → (extend_ttl rt k owner (pos (suc n)) w).0 ≡ ok s
      → (extend_ttl rt k owner (pos (suc m)) (extend_ttl rt k owner (pos (suc n)) w).1).0 ≡ ok t
      → ((extend_ttl rt k owner (pos (suc (n + suc m))) w).0 ≡ ok t)
        × ((extend_ttl rt k owner (pos (suc (n + suc m))) w).1.sandboxes
            ≡ (extend_ttl rt k owner
                (pos (suc m))
                (extend_ttl rt k owner (pos (suc n)) w).1).1.sandboxes)
  extend_ttl-add n m w {s} {t} returned again =
      let v : World rt.Outside = (extend_ttl rt k owner (pos (suc n)) w).1 in
      let one : IsExtended n w s = extend_ttl-inv n w returned in
      let two : IsExtended m v t = extend_ttl-inv m v again in
      let early : ℕ = one.old + seconds (suc n) in
      let late : ℕ = two.old + seconds (suc m) in
      let row : two.row ≡ extended early one.row = some-inv (
        sym two.found
        ∙ ap (first (is_visible k owner)) one.rows
        ∙ first-extended k owner early w.sandboxes one.found) in
      let from : two.old ≡ early =
        number-inv (sym two.dated ∙ ap (λ (x : Sandbox). x.expires_at) row) in
      let sum : one.old + seconds (suc (n + suc m)) ≡ late = omega (arith, from) in
      let (done, written) =
        extend_ttl-ok (n + suc m) w one.row one.old one.found one.dated one.live
          (ap (ltb last_moment) sum ∙ two.bounded) in
      (
        done
            ∙ ap (λ i. ok (extended i one.row)) sum
            ∙ sym (ap ok (two.moved ∙ ap (extended late) row)),
        written
            ∙ ap (λ i. extended_rows k i w.sandboxes) sum
            ∙ sym (
                two.rows
                ∙ ap (extended_rows k late) one.rows
                ∙ extended_twice k early late w.sandboxes),
      )
