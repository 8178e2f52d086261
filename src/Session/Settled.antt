-- ===== src/Session/Settled.antt =====
-- A start of a session settles: it returns a session that is ready, or it raises and leaves a row
-- that the next call can start again.
use mathlib.Core.Path.{subst}
use astrbot_shipyard_neo.Base.{
  select, ==_refl, ℕ, ◌≡◌, refl, inl, inr, true, false, Option, none, some, List, [], ◌∷◌, ◌==◌,
  ◌&&◌, is_some, arith, Bool-cases, update, All,
}
use astrbot_shipyard_neo.Model.{
  Session, SessionStatus, Cargo, Profile, ContainerInfo, is_ready, is_running_state,
  is_starting_state,
}
use astrbot_shipyard_neo.World.Runtime.{Runtime, Error, Result, ok, raise}
use astrbot_shipyard_neo.World.Effect.{World, call, ◌>>=◌}
use astrbot_shipyard_neo.World.Post.{Post, bind-Post, catch-Post, OnRaise, Post-elim}
use astrbot_shipyard_neo.Session.Single.{
  reset, starting_of, with_container, start_if_needed, create_or_fail, store_container,
  create_container, start_container, try_start, start_failed, create_failed, bring_up,
  ensure_running_single, probe_and_recover_if_dead, probe_if_running, probe_container, heed,
  is_running_container,
}

-- A row that says running has an endpoint.
abbrev pub IsCoherent : Session → Type 0
IsCoherent s = s.observed_state ≡ SessionStatus.running → is_some s.endpoint ≡ true

-- A row that a later call can start again from nothing.
abbrev pub IsRestartable : Session → Type 0
IsRestartable s = (s.observed_state ≡ SessionStatus.failed) × (s.container_id ≡ none)

-- What holds of every row with the id.
abbrev pub Rows : ℕ → (Session → Type 0) → List Session → Type 0
Rows k P rows = All P (select (λ t. t.id == k) rows)

pub write_session-Rows :
    (P : Session → Type 0) (s : Session) (rows : List Session)
    → P s
    → Rows s.id P (update (λ t. t.id == s.id) (λ _. s) rows)
write_session-Rows P s [] p = tt
write_session-Rows P s (t ∷ rows) p = elim (Bool-cases (t.id == s.id)) [
  | inl e ↦ rw (e, ==_refl s.id) (p, write_session-Rows P s rows p)
  | inr e ↦ rw (e, e) (write_session-Rows P s rows p)
]

module _ (rt : Runtime) where
  -- How a start ends: with a ready session, or with an exception and a row that can be started again.
  abbrev pub Settles : ℕ → Result Session → World rt.Outside → Type 0
  Settles k (ok t) w = is_ready t ≡ true
  Settles k (raise e) w = Rows k IsRestartable w.sessions

  -- Every way through `except` marks the row failed and gives its container up.
  start_failed-Settles :
      (s : Session) (k : ℕ) (e : Error) (w : World rt.Outside)
      → Post (Settles s.id) (start_failed rt s k e w)
  unfolding start_failed
  start_failed-Settles s k e w =
      write_session-Rows IsRestartable (reset s SessionStatus.failed _) w.sessions (refl, refl)

  try_start-is_ready :
      (s : Session) (k : ℕ) (profile : Profile) (w : World rt.Outside) {t : Session}
      → (try_start rt s k profile w).0 ≡ ok t
      → is_ready t ≡ true
  unfolding try_start
  try_start-is_ready s k profile w h = ground arith

  start_container-Settles :
      (s : Session) (k : ℕ) (profile : Profile) (w : World rt.Outside)
      → Post (Settles s.id) (start_container rt s k profile w)
  unfolding start_container
  start_container-Settles s k profile w =
      catch-Post (Settles s.id) (try_start rt s k profile) (start_failed rt s k) w
        (λ t h. try_start-is_ready s k profile w h)
        (λ e h. start_failed-Settles s k e (try_start rt s k profile w).1)

  -- A creation leaves the session in `starting`, with the container that the driver made.
  abbrev Creates : ℕ → Result (Session × ℕ) → World rt.Outside → Type 0
  Creates k (ok (t, c)) w =
      (t.id ≡ k) × (t.observed_state ≡ SessionStatus.starting) × (t.container_id ≡ some c)
  Creates k (raise e) w = Rows k IsRestartable w.sessions

  abbrev Restartable : ℕ → World rt.Outside → Type 0
  Restartable k w = Rows k IsRestartable w.sessions

  create_failed-Settles :
      (s : Session) (e : Error) (w : World rt.Outside)
      → s.container_id ≡ none
      → Post (OnRaise (Restartable s.id)) (create_failed rt s e w)
  unfolding create_failed
  create_failed-Settles s e w h =
      write_session-Rows IsRestartable
        (record s { observed_state = SessionStatus.failed; last_observed_at = some _ }) w.sessions
        (refl, h)

  create_or_fail-Settles :
      (s : Session) (cargo : Cargo) (profile : Profile) (w : World rt.Outside) {e : Error}
      → s.container_id ≡ none
      → (create_or_fail rt s cargo profile w).0 ≡ raise e
      → Restartable s.id (create_or_fail rt s cargo profile w).1
  create_or_fail-Settles s cargo profile w h =
      Post-elim (OnRaise (Restartable s.id)) (create_or_fail rt s cargo profile w) (
        catch-Post (OnRaise (Restartable s.id)) (call (rt.create s profile cargo))
          (create_failed rt s) w (λ k made. tt) (λ e r. create_failed-Settles s e _ h))

  create_container-Creates :
      (s : Session) (cargo : Cargo) (profile : Profile) (w : World rt.Outside)
      → s.container_id ≡ none
      → Post (Creates s.id) (create_container rt s cargo profile w)
  unfolding create_container
  create_container-Creates s cargo profile w h =
      bind-Post (Creates s.id) (create_or_fail rt (starting_of s) cargo profile)
        (store_container rt (starting_of s)) before (λ k e. (refl, refl, refl))
        (λ e r. create_or_fail-Settles (starting_of s) cargo profile before h r)
    where
      before : World rt.Outside
      before = record w { sessions = update (λ t. t.id == s.id) (λ _. starting_of s) w.sessions }

  -- With its container at hand, a session that is not running is started.
  start_if_needed-Settles :
      (s : Session) (c : ℕ) (profile : Profile) (w : World rt.Outside)
      → (is_running_state s.observed_state ≡ true → is_ready s ≡ true)
      → Post (Settles s.id) (start_if_needed rt (s, c) profile w)
  start_if_needed-Settles s c profile w h = elim (Bool-cases (is_running_state s.observed_state)) [
    | inl e ↦ rw e (h e)
    | inr e ↦ rw e (start_container-Settles s c profile w)
  ]

  -- The rest of `bring_up` once the session is neither ready nor starting.
  raise_up-Settles :
      (o : Option ℕ) (s : Session) (cargo : Cargo) (profile : Profile) (w : World rt.Outside)
      → s.container_id ≡ o
      → is_running_state s.observed_state ≡ false
      → Post
          (Settles s.id)
          ((with_container rt o s cargo profile >>= λ c. start_if_needed rt c profile) w)
  raise_up-Settles none s cargo profile w absent idle =
      let created : Post (Creates s.id) (create_container rt s cargo profile w) =
        create_container-Creates s cargo profile w absent in
      bind-Post (Settles s.id) (create_container rt s cargo profile)
        (λ c. start_if_needed rt c profile) w
        (λ made e.
          let well = Post-elim (Creates s.id) (create_container rt s cargo profile w) created e in
          subst
            (λ k.
              Post (Settles k)
                (start_if_needed rt made profile (create_container rt s cargo profile w).1))
            well.0
            (start_if_needed-Settles made.0 made.1 profile (create_container rt s cargo profile w).1
              (rw well.1 (λ r. cc))))
        (λ x e. Post-elim (Creates s.id) (create_container rt s cargo profile w) created e)
  raise_up-Settles (some c) s cargo profile w there idle =
      start_if_needed-Settles s c profile w (rw idle (λ r. cc))

  bring_up-Settles :
      (s : Session) (cargo : Cargo) (profile : Profile) (w : World rt.Outside)
      → (is_running_state s.observed_state ≡ true → is_ready s ≡ true)
      → is_starting_state s.observed_state ≡ false
      → Post (Settles s.id) (bring_up rt s cargo profile w)
  unfolding bring_up
  bring_up-Settles s cargo profile w coherent calm = elim (Bool-cases (is_ready s)) [
    | inl ready ↦ rw ready ready
    | inr unready ↦
        rw (unready, calm) (raise_up-Settles s.container_id s cargo profile w refl (ground arith))
  ]

  -- The probe never raises, and what it returns can be brought up.
  abbrev Usable : ℕ → Session → Type 0
  Usable k t =
      (t.id ≡ k)
      × (is_running_state t.observed_state ≡ true → is_ready t ≡ true)
      × (is_starting_state t.observed_state ≡ false)

  abbrev Probes : ℕ → Result Session → World rt.Outside → Type 0
  Probes k (ok t) w = Usable k t
  Probes k (raise e) w = ⊥

  heed-Probes :
      (s : Session) (c : ℕ) (report : Option ContainerInfo) (w : World rt.Outside)
      → Usable s.id s
      → Post (Probes s.id) (heed rt s c report w)
  unfolding heed
  heed-Probes s c none w h = h
  heed-Probes s c (some i) w h = elim (Bool-cases (is_running_container i.status)) [
    | inl e ↦ rw e h
    | inr e ↦ rw e (refl, λ r. cc, refl)
  ]

  probe_container-Probes :
      (o : Option ℕ) (s : Session) (profile : Profile) (w : World rt.Outside)
      → Usable s.id s
      → Post (Probes s.id) (probe_container rt o s profile w)
  unfolding probe_container
  probe_container-Probes none s profile w h = h
  probe_container-Probes (some c) s profile w h = heed-Probes s c _ _ h

  probe_if_running-Probes :
      (s : Session) (profile : Profile) (w : World rt.Outside)
      → Usable s.id s
      → Post (Probes s.id) (probe_if_running rt s profile w)
  unfolding probe_if_running probe_and_recover_if_dead
  probe_if_running-Probes s profile w h =
      elim (Bool-cases (is_some s.container_id && is_running_state s.observed_state)) [
        | inl e ↦ rw e (probe_container-Probes s.container_id s profile w h)
        | inr e ↦ rw e h
      ]

  -- A session that is not starting, and has an endpoint if it says running, comes back ready; or the
  -- call raises, and every row with its id is marked failed and has no container, so that the next
  -- call creates one.
  pub ensure_running_single-Settles :
      (s : Session) (cargo : Cargo) (profile : Profile) (w : World rt.Outside)
      → (is_running_state s.observed_state ≡ true → is_ready s ≡ true)
      → is_starting_state s.observed_state ≡ false
      → Post (Settles s.id) (ensure_running_single rt s cargo profile w)
  unfolding ensure_running_single
  ensure_running_single-Settles s cargo profile w coherent calm =
      let probed : Post (Probes s.id) (probe_if_running rt s profile w) =
        probe_if_running-Probes s profile w (refl, coherent, calm) in
      bind-Post (Settles s.id) (probe_if_running rt s profile) (λ p. bring_up rt p cargo profile) w
        (λ p e.
          let (same, fine, still) =
            Post-elim (Probes s.id) (probe_if_running rt s profile w) probed e in
          subst
            (λ k.
              Post (Settles k) (bring_up rt p cargo profile (probe_if_running rt s profile w).1))
            same (bring_up-Settles p cargo profile (probe_if_running rt s profile w).1 fine still))
        (λ x e. absurd (Post-elim (Probes s.id) (probe_if_running rt s profile w) probed e))
