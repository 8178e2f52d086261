-- ===== src/World/Post.antt =====
-- Postconditions of coroutines: of the result and of the world after it. To prove one of a step and
-- what follows, prove it of what follows for every way in which the step ends.
use mathlib.Core.Path.{subst}
use astrbot_shipyard_neo.Base.{◌≡◌, refl, arith}
use astrbot_shipyard_neo.World.Runtime.{Error, Result, ok, raise}
use astrbot_shipyard_neo.World.Effect.{World, M, ◌>>=◌, proceed, handle, catch}

module _ {O : Type 0} where
  abbrev pub Post : {A : Type 0} → (Result A → World O → Type 0) → Result A × World O → Type 0
  Post Q r = Q r.0 r.1

  proceed-Post :
      {A B : Type 0} (Q : Result B → World O → Type 0) (f : A → M O B) (r : Result A × World O)
      → ((a : A) → r.0 ≡ ok a → Post Q (f a r.1))
      → ((e : Error) → r.0 ≡ raise e → Q (raise e) r.1)
      → Post Q (proceed f r)
  proceed-Post Q f (ok a, w) good bad = good a refl
  proceed-Post Q f (raise e, w) good bad = bad e refl

  pub bind-Post :
      {A B : Type 0} (Q : Result B → World O → Type 0) (m : M O A) (f : A → M O B) (w : World O)
      → ((a : A) → (m w).0 ≡ ok a → Post Q (f a (m w).1))
      → ((e : Error) → (m w).0 ≡ raise e → Q (raise e) (m w).1)
      → Post Q ((m >>= f) w)
  bind-Post Q m f w good bad = proceed-Post Q f (m w) good bad

  handle-Post :
      {A : Type 0} (Q : Result A → World O → Type 0) (h : Error → M O A) (r : Result A × World O)
      → ((a : A) → r.0 ≡ ok a → Q (ok a) r.1)
      → ((e : Error) → r.0 ≡ raise e → Post Q (h e r.1))
      → Post Q (handle h r)
  handle-Post Q h (ok a, w) good bad = good a refl
  handle-Post Q h (raise e, w) good bad = bad e refl

  pub catch-Post :
      {A : Type 0} (Q : Result A → World O → Type 0) (m : M O A) (h : Error → M O A) (w : World O)
      → ((a : A) → (m w).0 ≡ ok a → Q (ok a) (m w).1)
      → ((e : Error) → (m w).0 ≡ raise e → Post Q (h e (m w).1))
      → Post Q (catch m h w)
  catch-Post Q m h w good bad = handle-Post Q h (m w) good bad

  -- `P` holds of the world whenever the coroutine raises.
  abbrev pub OnRaise : (World O → Type 0) → {A : Type 0} → Result A → World O → Type 0
  OnRaise P (ok a) w = Unit
  OnRaise P (raise e) w = P w

  pub Post-elim :
      {A : Type 0} (Q : Result A → World O → Type 0) (r : Result A × World O) {x : Result A}
      → Post Q r
      → r.0 ≡ x
      → Q x r.1
  Post-elim Q r h e = subst (λ x. Q x r.1) e h

  proceed_of_ok :
      {A B : Type 0} (f : A → M O B) (r : Result A × World O) {a : A}
      → r.0 ≡ ok a
      → proceed f r ≡ f a r.1
  proceed_of_ok f (ok b, w) h = ground arith
  proceed_of_ok f (raise e, w) h = cc

  -- A step that returns hands its value to what follows.
  pub bind_of_ok :
      {A B : Type 0} (m : M O A) (f : A → M O B) (w : World O) {a : A}
      → (m w).0 ≡ ok a
      → (m >>= f) w ≡ f a (m w).1
  bind_of_ok m f w h = proceed_of_ok f (m w) h
