-- ===== src/Api/Keyed.antt =====
-- The idempotency key of a request: its check before the request is carried out, and the saving of the
-- response. A header that is absent or empty is `none`. The service reads the clock once in each of them.
use astrbot_shipyard_neo.Base.{ℕ, Option, none, some, List}
use astrbot_shipyard_neo.World.Runtime.{Runtime}
use astrbot_shipyard_neo.World.Effect.{M, pure, ask, ◌>>=◌}
use astrbot_shipyard_neo.Path.Split.{Text}
use astrbot_shipyard_neo.Idempotency.Service.{
  IdempotencyKey, IdempotencyConfig, CachedResponse, Request, Checked, fresh, check, save,
}

-- What a route answers: the stored response with its status code, or a new one.
pub data Reply (R : Type 0) : Type 0 where
  stored : CachedResponse R → Reply R
  made : R → Reply R

-- The service and its parameters.
pub record Keys (R : Type 0) : Type 0 where
  pub sha256 : Text → ℕ
  pub dumps : R → Text
  pub loads : Text → R
  pub config : IdempotencyConfig

-- A caller, its key and its request.
pub record Call : Type 0 where
  pub owner : ℕ
  pub key : Option Text
  pub request : Request

module _ (rt : Runtime) {R : Type 0} (ks : Keys R) where
  unfoldable pub check_with :
      Call → Option Text → List IdempotencyKey → M rt.Outside (Checked R × List IdempotencyKey)
  unfolding check
  check_with c none rows = pure (fresh, rows)
  check_with c (some key) rows = do
    now ← ask rt.utcnow
    pure (check ks.sha256 ks.dumps ks.loads ks.config now c.owner key c.request rows)

  unfoldable pub save_with :
      Call → Option Text → R → ℕ → List IdempotencyKey → M rt.Outside (List IdempotencyKey)
  unfolding save
  save_with c none response status_code rows = pure rows
  save_with c (some key) response status_code rows = do
    now ← ask rt.utcnow
    pure (
        save ks.sha256 ks.dumps ks.loads ks.config now c.owner key c.request response status_code
          rows)

  -- `if idempotency_key: cached = await idempotency_svc.check(...)`
  unfoldable pub check_key :
      Call → List IdempotencyKey → M rt.Outside (Checked R × List IdempotencyKey)
  unfolding check_with
  check_key c rows = check_with c c.key rows

  -- `if idempotency_key: await idempotency_svc.save(...)`
  unfoldable pub save_key : Call → R → ℕ → List IdempotencyKey → M rt.Outside (List IdempotencyKey)
  unfolding save_with
  save_key c response status_code rows = save_with c c.key response status_code rows
