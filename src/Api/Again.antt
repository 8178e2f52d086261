-- ===== src/Api/Again.antt =====
-- A request that is sent again under its key.
use mathlib.Core.Path.{subst}
use astrbot_shipyard_neo.Base.{
  ℕ, ◌≡◌, refl, ◌∙◌, ap, sym, true, false, Option, none, some, List, arith, All, first, Bool-cases,
  inl, inr,
}
use astrbot_shipyard_neo.Model.{Sandbox, Settings}
use astrbot_shipyard_neo.World.Runtime.{Runtime, Result, ok, raise}
use astrbot_shipyard_neo.World.Effect.{World}
use astrbot_shipyard_neo.World.Post.{Post, bind-Post, Post-elim}
use astrbot_shipyard_neo.Path.Split.{Text}
use astrbot_shipyard_neo.Idempotency.Service.{
  IdempotencyKey, Request, Checked, fresh, replayed, invalid_key, conflict, is_expired, is_row,
  check, check_row, save,
}
use astrbot_shipyard_neo.Idempotency.Key.{validate_key, same_text_refl}
use astrbot_shipyard_neo.Idempotency.Replay.{fresh_check}
use astrbot_shipyard_neo.Sandbox.Create.{create_sandbox}
use astrbot_shipyard_neo.Warmup.Queue.{WarmPoolConfig, WarmupQueue}
use astrbot_shipyard_neo.Api.Keyed.{
  Reply, stored, made, Keys, Call, check_with, save_with, check_key, save_key,
}
use astrbot_shipyard_neo.Api.Sandboxes.{
  SandboxResponse, to_response_at, to_response, CreateSandboxRequest, Front, warm_later, respond,
  unless_replayed, claim_for, answer_created, answer_claim, claim_or_create, post_sandbox,
}

-- A call with a key.
abbrev pub call_with : ℕ → Text → Request → Call
call_with owner key request = record { owner = owner; key = some key; request = request }

module _ (rt : Runtime) (ks : Keys SandboxResponse) (settings : Settings) (config : WarmPoolConfig)
    (others : ℕ → World rt.Outside → World rt.Outside) (owner : ℕ) (key : Text) (request : Request)
    (rows : List IdempotencyKey) where
  abbrev c : Call
  c = call_with owner key request

  -- A new response has been saved in the rows, with the status code 201.
  abbrev Saves : Result (Result (Reply SandboxResponse) × Front) → World rt.Outside → Type 0
  Saves (ok (ok (made r), g)) w =
      (moment : ℕ) × (g.keys
        ≡ save ks.sha256 ks.dumps ks.loads ks.config moment owner key request r 201 rows)
  Saves (ok (ok (stored r), g)) w = Unit
  Saves (ok (raise e, g)) w = Unit
  Saves (raise e) w = Unit

  respond-Saves :
      (s : Sandbox) (f : Front) (w : World rt.Outside)
      → f.keys ≡ rows
      → Post Saves (respond rt ks settings config others c 201 s f w)
  unfolding respond to_response save_key save_with
  respond-Saves s f w same =
      let saved_at : ℕ = (rt.utcnow (rt.utcnow w.outside).1).0 in
      (
        saved_at,
        ap
            (λ old.
              save ks.sha256 ks.dumps ks.loads ks.config saved_at owner key request
                (to_response_at (rt.utcnow w.outside).0 s) 201 old)
            same,
      )

  warm_later-keys :
      (sandbox_id owner : ℕ) (queue : Option WarmupQueue) (f : Front)
      → (warm_later config sandbox_id owner queue f).keys ≡ f.keys
  warm_later-keys sandbox_id owner none f = refl
  warm_later-keys sandbox_id owner (some q) f = elim (Bool-cases q.running) [
    | inl e ↦ rw e refl
    | inr e ↦ rw e refl
  ]

  answer_created-Saves :
      (made_one : Result Sandbox) (f : Front) (w : World rt.Outside)
      → f.keys ≡ rows
      → Post Saves (answer_created rt ks settings config others c made_one f w)
  unfolding respond to_response save_key save_with
  answer_created-Saves (raise e) f w same = tt
  answer_created-Saves (ok s) f w same =
      let saved_at : ℕ = (rt.utcnow (rt.utcnow w.outside).1).0 in
      (
        saved_at,
        warm_later-keys s.id c.owner f.queue _
            ∙ ap
                (λ old.
                  save ks.sha256 ks.dumps ks.loads ks.config saved_at owner key request
                    (to_response_at (rt.utcnow w.outside).0 s) 201 old)
                same,
      )

  answer_claim-Saves :
      (q : CreateSandboxRequest) (f : Front) (claimed : Option Sandbox) (w : World rt.Outside)
      → f.keys ≡ rows
      → Post Saves (answer_claim rt ks settings config others c q f claimed w)
  unfolding answer_claim
  answer_claim-Saves q f (some s) w same = respond-Saves s f w same
  answer_claim-Saves q f none w same =
      answer_created-Saves (create_sandbox rt settings c.owner q.profile q.cargo_id q.ttl w).0 f
        (create_sandbox rt settings c.owner q.profile q.cargo_id q.ttl w).1 same

  claim_or_create-Saves :
      (q : CreateSandboxRequest) (f : Front) (w : World rt.Outside)
      → f.keys ≡ rows
      → Post Saves (claim_or_create rt ks settings config others c q f w)
  unfolding claim_or_create
  claim_or_create-Saves q f w same =
      bind-Post Saves (claim_for rt ks settings config others c.owner q)
        (answer_claim rt ks settings config others c q f) w
        (λ claimed done. answer_claim-Saves q f claimed _ same) (λ e raised. tt)

-- A saved row that has not expired answers its own request, and stays.
replay_saved :
    (ks : Keys SandboxResponse) (round_trip : (r : SandboxResponse) → ks.loads (ks.dumps r) ≡ r)
    (saved_at later owner : ℕ) (key : Text) (q : Request) (r : SandboxResponse)
    (rows : List IdempotencyKey)
    → ks.config.enabled ≡ true
    → validate_key key ≡ true
    → first (is_row owner key) rows ≡ none
    → All
        (λ row. is_expired later row ≡ false)
        (save ks.sha256 ks.dumps ks.loads ks.config saved_at owner key q r 201 rows)
    → check ks.sha256 ks.dumps ks.loads ks.config later owner key q
        (save ks.sha256 ks.dumps ks.loads ks.config saved_at owner key q r 201 rows)
      ≡ (
        replayed (record { response = r; status_code = 201 }),
        save ks.sha256 ks.dumps ks.loads ks.config saved_at owner key q r 201 rows,
      )
unfolding check save check_row
replay_saved ks round_trip saved_at later owner key q r rows on valid free alive =
    ground (arith, same_text_refl key, round_trip r)

module _ (rt : Runtime) (ks : Keys SandboxResponse) (settings : Settings) (config : WarmPoolConfig)
    (others : ℕ → World rt.Outside → World rt.Outside) (owner : ℕ) (key : Text)
    (request : Request) where
  abbrev pub call : Call
  call = call_with owner key request

  -- A first request that answers a new response: it was fresh, and its rows are those of a saved response.
  first_time :
      (q : CreateSandboxRequest) (f g : Front) (checked : Checked SandboxResponse)
      (rows : List IdempotencyKey) (w : World rt.Outside) {r : SandboxResponse}
      → (unless_replayed rt ks settings config others checked
          (record f { keys = rows })
          (claim_or_create rt ks settings config others call q)
          w).0
        ≡ ok (ok (made r), g)
      → (checked ≡ fresh)
        × ((moment : ℕ) × (g.keys
              ≡ save ks.sha256 ks.dumps ks.loads ks.config moment owner key request r 201 rows))
  first_time q f g fresh rows w h = (
    refl,
    Post-elim (Saves rt ks settings config others owner key request rows)
        (claim_or_create rt ks settings config others call q (record f { keys = rows }) w)
        (claim_or_create-Saves rt ks settings config others owner key request rows q
          (record f { keys = rows }) w refl)
        h,
  )
  first_time q f g (replayed cached) rows w h = absurd (ground arith)
  first_time q f g invalid_key rows w h = cc
  first_time q f g conflict rows w h = cc

  -- A request to create a sandbox is carried out once: with the service enabled and a JSON reader that
  -- undoes the writer, if a request under a key answers a new response, then the same request under the
  -- key, in any later state of the managers and the world outside, as long as no stored key has expired,
  -- answers the stored response with status 201, and changes no sandbox, no session, no cargo, no key and
  -- no queue.
  pub post_sandbox_again :
      (round_trip : (r : SandboxResponse) → ks.loads (ks.dumps r) ≡ r) (q : CreateSandboxRequest)
      (f g : Front) (w v : World rt.Outside) {r : SandboxResponse}
      → ks.config.enabled ≡ true
      → (post_sandbox rt ks settings config others call q f w).0 ≡ ok (ok (made r), g)
      → All (λ row. is_expired (rt.utcnow v.outside).0 row ≡ false) g.keys
      → post_sandbox rt ks settings config others call q g v ≡ (
        ok (ok (stored (record { response = r; status_code = 201 })), g),
        record v { outside = (rt.utcnow v.outside).1 },
      )
  unfolding post_sandbox check_key check_with
  post_sandbox_again round_trip q f g w v {r} on h alive =
      let now : ℕ = (rt.utcnow w.outside).0 in
      let checked = check ks.sha256 ks.dumps ks.loads ks.config now owner key request f.keys in
      let (free, (saved_at, saved)) =
        first_time q f g checked.0 checked.1 (record w { outside = (rt.utcnow w.outside).1 }) h in
      let (valid, no_row) =
        fresh_check ks.sha256 ks.dumps ks.loads ks.config now owner key request f.keys on free in
      let later : ℕ = (rt.utcnow v.outside).0 in
      let answered : check ks.sha256 ks.dumps ks.loads ks.config later owner key request g.keys
          ≡ (replayed (record { response = r; status_code = 201 }), g.keys) =
        subst
          (λ rows.
            check ks.sha256 ks.dumps ks.loads ks.config later owner key request rows
            ≡ (replayed (record { response = r; status_code = 201 }), rows))
          (sym saved)
          (replay_saved ks round_trip saved_at later owner key request r checked.1 on valid no_row
            (subst (All (λ row. is_expired later row ≡ false)) saved alive)) in
      ap
        (λ x.
          unless_replayed rt ks settings config others x.0 (record g { keys = x.1 })
            (claim_or_create rt ks settings config others call q)
            (record v { outside = (rt.utcnow v.outside).1 }))
        answered
