-- ===== src/World/Effect.antt =====
-- A manager's coroutine as a state and exception monad. What was committed stays committed after a
-- raise. Bay commits after each group of writes and begins each locked section with a rollback, so
-- the tables here are the committed rows, and a rollback is no step.
use astrbot_shipyard_neo.Base.{
  ℕ, Bool, true, false, Option, none, some, List, [], ◌∷◌, ◌==◌, ◌||◌, update, delete,
  if◌then◌else◌,
}
use astrbot_shipyard_neo.Model.{Sandbox, Session, Cargo}
use astrbot_shipyard_neo.World.Runtime.{Error, Result, ok, raise}

pub record World (O : Type 0) : Type 0 where
  pub sandboxes : List Sandbox
  pub sessions : List Session
  pub cargos : List Cargo
  -- the keys of `_sandbox_locks`
  pub locks : List ℕ
  pub outside : O

abbrev pub M : Type 0 → Type 0 → Type 0
M O A = World O → Result A × World O

abbrev pub has_key : ℕ → List ℕ → Bool
has_key k [] = false
has_key k (j ∷ js) = (j == k) || has_key k js

abbrev pub result_option : {A : Type 0} → Result A → Option A
result_option (ok a) = some a
result_option (raise e) = none

module _ {O : Type 0} where
  abbrev pub pure : {A : Type 0} → A → M O A
  pure a w = (ok a, w)

  abbrev pub throw : {A : Type 0} → Error → M O A
  throw e w = (raise e, w)

  abbrev pub gets : {A : Type 0} → (World O → A) → M O A
  gets f w = (ok (f w), w)

  abbrev pub modify : (World O → World O) → M O (Unit {0})
  modify f w = (ok tt, f w)

  -- a call that cannot raise, and one that can
  abbrev pub ask : {A : Type 0} → (O → A × O) → M O A
  ask f w = let (a, o) = f w.outside in (ok a, record w { outside = o })

  abbrev pub call : {A : Type 0} → (O → Result A × O) → M O A
  call f w = let (r, o) = f w.outside in (r, record w { outside = o })

  -- `try: x = call; except Exception: x = None`
  abbrev pub attempt : {A : Type 0} → (O → Result A × O) → M O (Option A)
  attempt f w = let (r, o) = f w.outside in (ok (result_option r), record w { outside = o })

  -- `x = e; if x is None: raise error`
  abbrev pub or_raise : {A : Type 0} → Option A → Error → M O A
  or_raise none e = throw e
  or_raise (some a) e = pure a

  abbrev pub raise_if : Bool → Error → M O (Unit {0})
  raise_if true e = throw e
  raise_if false e = pure tt

abbrev pub proceed : {O A B : Type 0} → (A → M O B) → Result A × World O → Result B × World O
proceed f (ok a, w) = f a w
proceed f (raise e, w) = (raise e, w)

infixl 5 ◌>>=◌ ◌>>◌
abbrev pub ◌>>=◌ : {O A B : Type 0} → M O A → (A → M O B) → M O B
m >>= f = λ w. proceed f (m w)

abbrev pub ◌>>◌ : {O B : Type 0} → M O (Unit {0}) → M O B → M O B
m >> k = m >>= λ _. k

module _ {O : Type 0} where
  -- `try: m; except Exception: handler`, where the handler is given the exception
  abbrev pub handle : {A : Type 0} → (Error → M O A) → Result A × World O → Result A × World O
  handle handler (ok a, w) = (ok a, w)
  handle handler (raise e, w) = handler e w

  abbrev pub catch : {A : Type 0} → M O A → (Error → M O A) → M O A
  catch m handler w = handle handler (m w)

  -- `try: m; except Exception: log`
  abbrev pub suppress : M O (Unit {0}) → M O (Unit {0})
  suppress m w = (ok tt, (m w).1)

  unfoldable pub for_each : {A : Type 0} → List A → (A → M O (Unit {0})) → M O (Unit {0})
  for_each [] f = pure tt
  for_each (x ∷ xs) f = f x >> for_each xs f

  abbrev pub when : Bool → M O (Unit {0}) → M O (Unit {0})
  when true m = m
  when false m = pure tt

  -- Assignments to the attributes of a row, and their commit.
  abbrev pub write_sandbox : ℕ → (Sandbox → Sandbox) → M O (Unit {0})
  write_sandbox k f = modify (λ w. record w { sandboxes = update (λ s. s.id == k) f w.sandboxes })

  abbrev pub write_session : Session → M O (Unit {0})
  write_session s =
      modify (λ w. record w { sessions = update (λ t. t.id == s.id) (λ _. s) w.sessions })

  -- `get_sandbox_lock`: the lock of the sandbox is made when it is not there.
  unfoldable pub get_sandbox_lock : ℕ → M O (Unit {0})
  get_sandbox_lock k =
      modify (λ w. record w { locks = if has_key k w.locks then w.locks else k ∷ w.locks })

  -- `cleanup_sandbox_lock`
  unfoldable pub cleanup_sandbox_lock : ℕ → M O (Unit {0})
  cleanup_sandbox_lock k = modify (λ w. record w { locks = delete (λ j. j == k) w.locks })
