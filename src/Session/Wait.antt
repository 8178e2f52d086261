-- ===== src/Session/Wait.antt =====
-- `_wait_for_ready` and `_wait_for_multi_ready`: polling the runtimes' health with exponential
-- backoff. Times are milliseconds: at most 120 s, from 0.5 s between two polls to 1 s. The loops
-- recur on fuel; `fuel_of_wait` rounds are enough, since each failed round sleeps 0.5 s or to the
-- deadline.
use Prim.Native.String.{String}
use text.Mathlib.Text.{◌==◌ as str_eq}
use astrbot_shipyard_neo.Base.{
  ℕ, zero, suc, ◌-◌, ◌*◌, min, Bool, true, false, none, some, List, [], ◌∷◌, ◌==◌, leb,
  if◌then◌else◌,
}
use astrbot_shipyard_neo.Model.{MultiContainerInfo}
use astrbot_shipyard_neo.World.Runtime.{Runtime, Error, Health, unreachable, answered}
use astrbot_shipyard_neo.World.Effect.{M, pure, throw, modify, ask, ◌>>=◌, ◌>>◌}

abbrev pub max_wait : ℕ
max_wait = 120000

abbrev pub initial_interval : ℕ
initial_interval = 500

abbrev pub max_interval : ℕ
max_interval = 1000

abbrev pub fuel_of_wait : ℕ
fuel_of_wait = 241

-- HTTP 200, and for a browser also `browser_ready`, where a payload that cannot be read counts as
-- ready.
abbrev pub is_healthy : String → Health → Bool
is_healthy runtime_type unreachable = false
is_healthy runtime_type (answered code browser_ready) =
    if code == 200
    then (if str_eq runtime_type "browser"
        then elim browser_ready [ none ↦ true | some b ↦ b ]
        else true)
    else false

abbrev is_empty : List MultiContainerInfo → Bool
is_empty [] = true
is_empty (c ∷ cs) = false

module _ (rt : Runtime) where
  abbrev pause : ℕ → M rt.Outside (Unit {0})
  pause d = modify (λ w. record w { outside = rt.sleep d w.outside })

  -- The end of a round that found something not ready: give up at the deadline, or sleep and go on
  -- with what `next` does at the longer interval.
  unfoldable pub back_off : (ℕ → M rt.Outside (Unit {0})) → ℕ → ℕ → M rt.Outside (Unit {0})
  back_off next start_time interval = do
    now ← ask rt.loop_time
    let elapsed = now - start_time
    (if leb max_wait elapsed
        then throw Error.session_not_ready
        else (pause (min interval (max_wait - elapsed)) >> next (min (interval * 2) max_interval)))

  -- The `while True` loop.
  unfoldable pub wait_loop : ℕ → ℕ → String → ℕ → ℕ → M rt.Outside (Unit {0})
  wait_loop zero endpoint runtime_type start_time interval = throw Error.out_of_fuel
  wait_loop (suc fuel) endpoint runtime_type start_time interval = do
    answer ← ask (rt.health endpoint)
    let again = back_off (wait_loop fuel endpoint runtime_type start_time) start_time interval
    if is_healthy runtime_type answer then pure tt else again

  unfoldable pub wait_for_ready : ℕ → String → M rt.Outside (Unit {0})
  unfolding wait_loop back_off
  wait_for_ready endpoint runtime_type = do
    start_time ← ask rt.loop_time
    wait_loop fuel_of_wait endpoint runtime_type start_time initial_interval

  -- One round over the pending containers: those that are not ready yet.
  unfoldable pub poll_pending : List MultiContainerInfo → M rt.Outside (List MultiContainerInfo)
  poll_pending [] = pure []
  poll_pending (c ∷ cs) = elim c.endpoint [
    | none ↦ do rest ← poll_pending cs; pure (c ∷ rest)
    | some endpoint ↦ do
      answer ← ask (rt.health endpoint)
      rest ← poll_pending cs
      pure (if is_healthy c.runtime_type answer then rest else c ∷ rest)
  ]

  -- The `while pending` loop. `pending` is a dictionary by the name of the container, which is
  -- unique within a profile. With no container at all the loop is left at once, and raises.
  unfoldable pub wait_multi_loop : ℕ → List MultiContainerInfo → ℕ → ℕ → M rt.Outside (Unit {0})
  wait_multi_loop zero pending start_time interval = throw Error.out_of_fuel
  wait_multi_loop (suc fuel) [] start_time interval = throw Error.session_not_ready
  wait_multi_loop (suc fuel) (c ∷ cs) start_time interval = do
    still ← poll_pending (c ∷ cs)
    let again = back_off (wait_multi_loop fuel still start_time) start_time interval
    if is_empty still then pure tt else again

  unfoldable pub wait_for_multi_ready : List MultiContainerInfo → M rt.Outside (Unit {0})
  unfolding wait_multi_loop poll_pending back_off
  wait_for_multi_ready infos = do
    start_time ← ask rt.loop_time
    wait_multi_loop fuel_of_wait infos start_time initial_interval
