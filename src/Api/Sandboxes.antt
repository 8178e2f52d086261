-- ===== src/Api/Sandboxes.antt =====
-- `create_sandbox` and `extend_ttl` of the sandboxes' routes.
use astrbot_shipyard_neo.Base.{ℕ, Option, none, some, List, ◌∷◌, if◌then◌else◌, is_none, ℤ}
use astrbot_shipyard_neo.Model.{Sandbox, Settings, SandboxStatus, compute_status}
use astrbot_shipyard_neo.World.Runtime.{Runtime, Error, Result, ok, raise}
use astrbot_shipyard_neo.World.Effect.{World, M, pure, ask, ◌>>=◌}
use astrbot_shipyard_neo.Router.Capability.{reify}
use astrbot_shipyard_neo.Idempotency.Service.{
  IdempotencyKey, Checked, fresh, replayed, invalid_key, conflict,
}
use astrbot_shipyard_neo.Sandbox.Create.{create_sandbox}
use astrbot_shipyard_neo.Sandbox.Ttl.{extend_ttl}
use astrbot_shipyard_neo.Sandbox.Warm.{claim_warm_sandbox}
use astrbot_shipyard_neo.Warmup.Queue.{WarmPoolConfig, WarmupQueue, enqueue}
use astrbot_shipyard_neo.Api.Keyed.{Reply, stored, made, Keys, Call, check_key, save_key}

-- Without the capabilities, which the profile determines, and the containers, which these two routes
-- do not give.
pub record SandboxResponse : Type 0 where
  pub id : ℕ
  pub status : SandboxStatus
  pub profile : ℕ
  pub cargo_id : Option ℕ
  pub created_at : ℕ
  pub expires_at : Option ℕ
  pub idle_expires_at : Option ℕ

-- `_sandbox_to_response_at_time`, with no current session
abbrev pub to_response_at : ℕ → Sandbox → SandboxResponse
to_response_at now s = record {
  id = s.id;
  status = compute_status s now none;
  profile = s.profile_id;
  cargo_id = s.cargo_id;
  created_at = s.created_at;
  expires_at = s.expires_at;
  idle_expires_at = s.idle_expires_at;
}

-- The body of a request to create a sandbox.
pub record CreateSandboxRequest : Type 0 where
  pub profile : ℕ
  pub cargo_id : Option ℕ
  pub ttl : Option ℤ

-- What the routes change beside the managers' tables: the rows of the keys, the warm-up queue, and
-- the sandboxes that a background task is to warm up.
pub record Front : Type 0 where
  pub keys : List IdempotencyKey
  pub queue : Option WarmupQueue
  pub background : List ℕ

-- `warmup_queue is not None and warmup_queue.is_running`
abbrev pub warm_later : WarmPoolConfig → ℕ → ℕ → Option WarmupQueue → Front → Front
warm_later config sandbox_id owner none f = record f { background = sandbox_id ∷ f.background }
warm_later config sandbox_id owner (some q) f =
    if q.running
    then record f { queue = some (enqueue config sandbox_id owner q).1 }
    else record f { background = sandbox_id ∷ f.background }

module _ (rt : Runtime) (ks : Keys SandboxResponse) (settings : Settings) (config : WarmPoolConfig)
    (others : ℕ → World rt.Outside → World rt.Outside) where
  -- `_sandbox_to_response`
  unfoldable pub to_response : Sandbox → M rt.Outside SandboxResponse
  to_response s = do now ← ask rt.utcnow; pure (to_response_at now s)

  -- The response to a sandbox that is there, saved under the key.
  unfoldable pub respond :
      Call → ℕ → Sandbox → Front → M rt.Outside (Result (Reply SandboxResponse) × Front)
  unfolding to_response save_key
  respond c status_code s f = do
    response ← to_response s
    keys ← save_key rt ks c response status_code f.keys
    pure (ok (made response), record f { keys = keys })

  -- What a check that was not fresh answers, and what a route does after a fresh one.
  abbrev pub unless_replayed :
      Checked SandboxResponse
      → Front
      → (Front → M rt.Outside (Result (Reply SandboxResponse) × Front))
      → M rt.Outside (Result (Reply SandboxResponse) × Front)
  unless_replayed fresh f run = run f
  unless_replayed (replayed cached) f run = pure (ok (stored cached), f)
  unless_replayed invalid_key f run = pure (raise Error.conflict, f)
  unless_replayed conflict f run = pure (raise Error.conflict, f)

  unfoldable pub claim_for : ℕ → CreateSandboxRequest → M rt.Outside (Option Sandbox)
  unfolding claim_warm_sandbox
  claim_for owner q =
      if is_none q.cargo_id then claim_warm_sandbox rt others owner q.profile q.ttl else pure none

  -- The fall-back after a claim that missed.
  abbrev pub answer_created :
      Call → Result Sandbox → Front → M rt.Outside (Result (Reply SandboxResponse) × Front)
  answer_created c (raise e) f = pure (raise e, f)
  answer_created c (ok s) f = do
    (reply, g) ← respond c 201 s f
    pure (reply, warm_later config s.id c.owner g.queue g)

  unfoldable pub answer_claim :
      Call
      → CreateSandboxRequest
      → Front
      → Option Sandbox
      → M rt.Outside (Result (Reply SandboxResponse) × Front)
  unfolding respond create_sandbox
  answer_claim c q f (some s) = respond c 201 s f
  answer_claim c q f none = do
    created ← reify (create_sandbox rt settings c.owner q.profile q.cargo_id q.ttl)
    answer_created c created f

  -- Steps 2 to 5.
  unfoldable pub claim_or_create :
      Call → CreateSandboxRequest → Front → M rt.Outside (Result (Reply SandboxResponse) × Front)
  unfolding claim_for answer_claim
  claim_or_create c q f = claim_for c.owner q >>= answer_claim c q f

  unfoldable pub post_sandbox :
      Call → CreateSandboxRequest → Front → M rt.Outside (Result (Reply SandboxResponse) × Front)
  unfolding check_key claim_or_create
  post_sandbox c q f = do
    (checked, keys) ← check_key rt ks c f.keys
    unless_replayed checked (record f { keys = keys }) (claim_or_create c q)

  abbrev pub answer_extended :
      Call → Front → Result Sandbox → M rt.Outside (Result (Reply SandboxResponse) × Front)
  answer_extended c f (raise e) = pure (raise e, f)
  answer_extended c f (ok s) = respond c 200 s f

  unfoldable pub extend :
      Call → ℕ → ℤ → Front → M rt.Outside (Result (Reply SandboxResponse) × Front)
  unfolding respond extend_ttl
  extend c sandbox_id extend_by f =
      reify (extend_ttl rt sandbox_id c.owner extend_by) >>= answer_extended c f

  unfoldable pub post_extend_ttl :
      Call → ℕ → ℤ → Front → M rt.Outside (Result (Reply SandboxResponse) × Front)
  unfolding check_key extend
  post_extend_ttl c sandbox_id extend_by f = do
    (checked, keys) ← check_key rt ks c f.keys
    unless_replayed checked (record f { keys = keys }) (extend c sandbox_id extend_by)
