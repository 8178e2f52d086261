-- ===== src/Router/Routed.antt =====
-- Which container a request is routed to, and that it is not sent to a runtime without the capability.
use Prim.Native.String.{String}
use text.Mathlib.Text.{◌==◌ as str_eq}
use text.Mathlib.TextEquality.{eq_iff}
use astrbot_shipyard_neo.Base.{
  ℕ, ◌≡◌, refl, ◌∙◌, ap, sym, Bool, true, false, Option, none, some, List, [], ◌∷◌, ◌++◌, arith,
  first, Bool-cases, Option-cases, inl, inr, ◌⊎◌, first_sound,
}
use astrbot_shipyard_neo.Model.{
  Sandbox, Session, Settings, MultiContainerInfo, Profile, get_profile, is_multi_container,
  contains, get_container_for_capability,
}
use astrbot_shipyard_neo.World.Runtime.{Runtime, Result, ok, raise}
use astrbot_shipyard_neo.World.Effect.{World, proceed}
use astrbot_shipyard_neo.Router.AdapterPool.{PoolKey}
use astrbot_shipyard_neo.Router.Endpoint.{
  Adapter, keyed, target_name, containers_of, find_named, container_for, resolve, get_adapter,
}
use astrbot_shipyard_neo.Router.Capability.{
  Request, capability_of, Adapters, Pool, require_capability, use_adapter, exec_with,
  exec_in_session,
}
use astrbot_shipyard_neo.Sandbox.Lifecycle.{ensure_running}

-- A container of the session that the profile names for the capability, or that declares it.
abbrev pub IsChosen : List Profile → Session → String → MultiContainerInfo → Type 0
IsChosen profiles s capability c =
    ((front : List MultiContainerInfo) × (back : List MultiContainerInfo) × (containers_of s
        ≡ front ++ c ∷ back))
    × ((target_name (get_profile profiles s.profile_id) capability ≡ some c.name)
        ⊎ (contains capability c.capabilities ≡ true))

first_split :
    (test : MultiContainerInfo → Bool) (cs : List MultiContainerInfo) {c : MultiContainerInfo}
    → first test cs ≡ some c
    → (front : List MultiContainerInfo) × (back : List MultiContainerInfo) × (cs
        ≡ front ++ c ∷ back)
first_split test [] h = cc
first_split test (d ∷ cs) {c} h = elim (Bool-cases (test d)) [
  | inl t ↦ ([], cs, ground arith)
  | inr t ↦
      let (front, back, same) = first_split test cs (rw t at h) in
      (d ∷ front, back, ap (◌∷◌ d) same)
]

named_lem :
    (name : Option String) (cs : List MultiContainerInfo) {c : MultiContainerInfo}
    → find_named name cs ≡ some c
    → ((front : List MultiContainerInfo) × (back : List MultiContainerInfo) × (cs
          ≡ front ++ c ∷ back))
      × (name ≡ some c.name)
named_lem none cs h = cc
named_lem (some name) cs {c} h = (
  first_split (λ d. str_eq d.name name) cs h,
  ap some (sym ((eq_iff c.name name).0 (first_sound (λ d. str_eq d.name name) cs h))),
)

capable_lem :
    (s : Session) (capability : String) {c : MultiContainerInfo}
    → get_container_for_capability s capability ≡ some c
    → ((front : List MultiContainerInfo) × (back : List MultiContainerInfo) × (containers_of s
          ≡ front ++ c ∷ back))
      × (contains capability c.capabilities ≡ true)
unfolding get_container_for_capability
capable_lem s capability h = elim (Option-cases s.containers) [
  | inl e ↦ absurd (ground arith)
  | inr (cs, e) ↦
      let found : first (λ (d : MultiContainerInfo). contains capability d.capabilities) cs
          ≡ some _ =
        rw e at h in
      rw e (
        first_split (λ d. contains capability d.capabilities) cs found,
        first_sound (λ d. contains capability d.capabilities) cs found,
      )
]

chosen_lem :
    (profiles : List Profile) (s : Session) (capability : String) {c : MultiContainerInfo}
    → container_for profiles s capability ≡ some c
    → IsChosen profiles s capability c
unfolding container_for
chosen_lem profiles s capability h =
    elim (Option-cases
      (find_named (target_name (get_profile profiles s.profile_id) capability) (containers_of s))) [
        | inl e ↦ let (there, able) = capable_lem s capability (rw e at h) in (there, inr able)
        | inr (c, e) ↦
            let (there, named) =
              named_lem (target_name (get_profile profiles s.profile_id) capability)
                (containers_of s) (e ∙ (rw e at h)) in
            (there, inl named)
      ]

-- The endpoint is the container's own, or the session's if the container has none.
abbrev pub IsEndpointOf : Session → MultiContainerInfo → PoolKey → Type 0
IsEndpointOf s c k =
    (k.runtime_type ≡ c.runtime_type)
    × ((c.endpoint ≡ some k.endpoint) ⊎ ((c.endpoint ≡ none) × (s.endpoint ≡ some k.endpoint)))

keyed_lem :
    (s : Session) (c : MultiContainerInfo) {k : PoolKey}
    → keyed c.endpoint s.endpoint c.runtime_type ≡ ok k
    → IsEndpointOf s c k
keyed_lem s c h = ground arith

-- In a session of several containers, a capability that is resolved is asked of a container of the
-- session that the profile names for it or that declares it, as that container's runtime type, at the
-- container's endpoint, or at the session's own if the container has none.
pub resolve_multi :
    (profiles : List Profile) (s : Session) (capability : String) {k : PoolKey}
    → is_multi_container s ≡ true
    → resolve profiles s (some capability) ≡ ok k
    → (c : MultiContainerInfo) × IsChosen profiles s capability c × IsEndpointOf s c k
unfolding resolve
resolve_multi profiles s capability {k} multi h =
    elim (Option-cases (container_for profiles s capability)) [
      | inl e ↦ absurd (ground arith)
      | inr (c, e) ↦ (c, chosen_lem profiles s capability e, keyed_lem s c (rw (multi, e) at h))
    ]

-- Whether a runtime answers with metadata that declare the capability.
abbrev pub declares : String → Result (List String) → Bool
declares capability (ok capabilities) = contains capability capabilities
declares capability (raise e) = false

module _ (rt : Runtime) (ad : Adapters rt.Outside)
    (send : Adapter → Request → rt.Outside → Result ad.Payload × rt.Outside) (request : Request)
    (undeclared : (a : Adapter)
      → ((o : rt.Outside) → declares (capability_of request) (ad.get_meta a o).0 ≡ false)
        ⊎ ((o : rt.Outside) → send a request o ≡ ad.send a request o)) where
  use_adapter_unsent :
      (found : Result Adapter) (w : World rt.Outside)
      → use_adapter rt (record ad { send = send }) request found w
        ≡ use_adapter rt ad request found w
  unfolding use_adapter require_capability
  use_adapter_unsent (raise e) w = refl
  use_adapter_unsent (ok a) w = elim (undeclared a) [
    | inl never ↦ ground (arith, never w.outside)
    | inr same ↦ ground (arith, same (ad.get_meta a w.outside).1)
  ]

  exec_with_unsent :
      (settings : Settings) (m ttl : ℕ) (pool : Pool) (x : Result Session × World rt.Outside)
      → proceed (exec_with rt (record ad { send = send }) settings m ttl request pool) x
        ≡ proceed (exec_with rt ad settings m ttl request pool) x
  unfolding exec_with
  exec_with_unsent settings m ttl pool (raise e, w) = refl
  exec_with_unsent settings m ttl pool (ok session, w) =
      let (now, later) = rt.loop_time w.outside in
      let (found, left) =
        get_adapter m ttl now settings.profiles session (some (capability_of request)) pool in
      ap (λ x. (ok (x.0, left), x.1)) (use_adapter_unsent found (record w { outside = later }))

  -- A request to a container of the sandbox makes no use of a runtime that never declares the request's
  -- capability: two ways of answering requests that agree on every other runtime give the same result and
  -- the same world.
  pub exec_in_session_unsent :
      (settings : Settings) (m ttl : ℕ) (sandbox : Sandbox) (pool : Pool) (w : World rt.Outside)
      → exec_in_session rt (record ad { send = send }) settings m ttl sandbox request pool w
        ≡ exec_in_session rt ad settings m ttl sandbox request pool w
  unfolding exec_in_session
  exec_in_session_unsent settings m ttl sandbox pool w =
      exec_with_unsent settings m ttl pool (ensure_running rt settings sandbox w)
