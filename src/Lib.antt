-- ===== src/Lib.antt =====
-- A model of Shipyard Neo, a service that gives agents sandboxes to run code in.
--
-- Bay (pkgs/bay/app) is the orchestrator. A client holds a sandbox, which joins a cargo (a data
-- volume), a profile (the containers to run) and at most one current session (the running containers).
-- The managers keep these in a database and drive Docker or Kubernetes through a driver.
--
--   Base      names shared by all modules; tables as lists of rows (select, first, update, delete)
--   Model     the rows and the profiles: pkgs/bay/app/models, pkgs/bay/app/config.py
--   Path      validate_relative_path: pkgs/bay/app/validators/path.py
--   World     the managers' state and the world outside: the tables, the locks of
--             pkgs/bay/app/concurrency/locks.py, and the record Runtime (clock, uuid4, driver, HTTP)
--   Cargo     CargoManager: pkgs/bay/app/managers/cargo/cargo.py
--   Session   SessionManager: pkgs/bay/app/managers/session/session.py
--   Sandbox   SandboxManager: pkgs/bay/app/managers/sandbox/sandbox.py
--   Warmup    WarmupQueue: pkgs/bay/app/services/warm_pool/queue.py
--   Gc        garbage collection: the tasks of pkgs/bay/app/services/gc/tasks and the cycle of
--             pkgs/bay/app/services/gc/scheduler.py
--   Router    CapabilityRouter and AdapterPool: pkgs/bay/app/router/capability
--   Refill    WarmPoolScheduler: pkgs/bay/app/services/warm_pool/scheduler.py
--   Api       the routes that take an idempotency key: pkgs/bay/app/api/v1/sandboxes.py
--   Idempotency  IdempotencyService: pkgs/bay/app/services/idempotency.py
--   Learn     BrowserLearningProcessor: pkgs/bay/app/services/skills/scheduler.py
--   Texts     the methods of Python's str that the program calls
--   Gull      the browser runtime: pkgs/gull/app/main.py, pkgs/gull/app/session.py
--   Mcp       the cache of the MCP server: shipyard-neo-mcp/src/shipyard_neo_mcp/sandbox_cache.py
--   Skills    SkillLifecycleService: pkgs/bay/app/services/skills/service.py
--
-- A coroutine is a function from a world to a result and a world (World.Effect): an exception keeps
-- what was committed before it. Everything that Bay does not implement is a field of Runtime, a
-- function over an unknown state, so that a theorem holds for every behaviour of the driver, the
-- runtimes and the clock. IsClock states what the polls rely on of the clock. SHA-256 and JSON are
-- parameters of Idempotency. Method names are kept: delete_cargo is CargoManager.delete,
-- ensure_running_single is _ensure_running_single, and so on; an assignment to an ORM object followed
-- by a commit is a write of its row.
--
-- Ids, owners, endpoints and volume references are numbers, since the code only compares them; moments
-- are microseconds since `datetime.min`, and the polls' times milliseconds. The polls recur on 241
-- rounds, which suffice for 120 seconds at half a second or more a round. The sandbox listing recurs
-- on as many rounds as it may look at rows: a round looks at one row or more, and a listing out of
-- rounds is no answer, so that a theorem about its answer shows that there are enough.
--
-- A moment that a client asks for beyond `datetime.max` is an error; the time-outs of the profiles and
-- of the configuration are taken to be small enough. The ORM's part in a deletion of a cargo, which
-- sets the `cargo_id` of its sandboxes to null, is written out in Cargo.
--
-- The API answers a repeated request by its idempotency key, claims a warm sandbox or makes one, and
-- enqueues a warm-up (Api.Sandboxes); the queue's workers call ensure_running and mark_warm_available.
-- The learning scheduler turns browser runs into skills: it cuts the steps of a run into segments
-- (Learn.Segments), makes a candidate of each through the skill service, evaluates it, and publishes
-- it as a canary, which is promoted or rolled back by its health (Skills.Health). A cycle is taken to
-- be the only writer of the skills' tables while it runs. Scores are in hundredths and rates are exact
-- fractions, where Python has floating point numbers. `str` and `int` of a JSON value, and the tests
-- of tags by the database, are arguments. Gull runs the commands of browsers as processes, which are a
-- record Machine like Runtime; `shlex` is a parameter, whose `split` is documented to undo its `join`.
-- Where processes interleave, the code is a step relation: Warmup.Steps (the event loop's order of the
-- queue's methods), Sandbox.Claims (the order of database statements on the pool) and
-- Skills.Publication (the order of the statements of promotions and rollbacks). What others do between
-- two statements of a claim, or between the locked sections of the adapter pool, is an argument. The
-- other theorems are about calls that run alone, as Skills.Service has a promotion and a rollback. The
-- queue, the rows of the idempotency keys and the pool of adapters are no part of a world: the code
-- that changes them beside the tables takes them and returns them.
--
-- Not modelled: logging, messages and details of errors, cancellation of a coroutine, the other routes
-- of the HTTP API, the drivers, the runtime Ship, the start of Gull and of Chromium, the SDK and the
-- rest of the MCP server.
pub mod Base
pub mod Model
pub mod Texts
pub mod Path
pub mod World
pub mod Cargo
pub mod Session
pub mod Sandbox
pub mod Warmup
pub mod Idempotency
pub mod Skills
pub mod Learn
pub mod Mcp
pub mod Gull
pub mod Gc
pub mod Router
pub mod Refill
pub mod Api
