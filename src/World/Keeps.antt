-- ===== src/World/Keeps.antt =====
-- What a coroutine keeps of the tables, on every path, the ones that raise included.
use astrbot_shipyard_neo.Base.{Bool, true, false, Option, none, some, List, [], ◌∷◌}
use astrbot_shipyard_neo.World.Runtime.{Error, Result, ok, raise}
use astrbot_shipyard_neo.World.Effect.{
  World, M, or_raise, raise_if, ◌>>=◌, proceed, handle, catch, for_each, when,
}

module _ {O : Type 0} (I : World O → Type 0) where
  abbrev pub Keeps : {A : Type 0} → M O A → Type 0
  Keeps m = (w : World O) → I w → I (m w).1

-- The invariant says nothing of the world outside.
abbrev pub IsInner : {O : Type 0} → (World O → Type 0) → Type 0
IsInner {O} I = (w : World O) (o : O) → I w → I (record w { outside = o })

module _ {O : Type 0} (I : World O → Type 0) where
  pub proceed-Keeps :
      {A B : Type 0} (f : A → M O B) (r : Result A × World O)
      → ((a : A) → Keeps I (f a))
      → I r.1
      → I (proceed f r).1
  proceed-Keeps f (ok a, w) hf h = hf a w h
  proceed-Keeps f (raise e, w) hf h = h

  pub >>=-Keeps :
      {A B : Type 0} (m : M O A) (f : A → M O B)
      → Keeps I m
      → ((a : A) → Keeps I (f a))
      → Keeps I (m >>= f)
  >>=-Keeps m f hm hf w h = proceed-Keeps f (m w) hf (hm w h)

  handle-Keeps :
      {A : Type 0} (handler : Error → M O A) (r : Result A × World O)
      → ((e : Error) → Keeps I (handler e))
      → I r.1
      → I (handle handler r).1
  handle-Keeps handler (ok a, w) hf h = h
  handle-Keeps handler (raise e, w) hf h = hf e w h

  pub catch-Keeps :
      {A : Type 0} (m : M O A) (handler : Error → M O A)
      → Keeps I m
      → ((e : Error) → Keeps I (handler e))
      → Keeps I (catch m handler)
  catch-Keeps m handler hm hf w h = handle-Keeps handler (m w) hf (hm w h)

  pub for_each-Keeps :
      {A : Type 0} (xs : List A) (f : A → M O (Unit {0}))
      → ((a : A) → Keeps I (f a))
      → Keeps I (for_each xs f)
  unfolding for_each
  for_each-Keeps [] f hf w h = h
  for_each-Keeps (x ∷ xs) f hf w h =
      proceed-Keeps (λ _. for_each xs f) (f x w) (λ _. for_each-Keeps xs f hf) (hf x w h)

  pub or_raise-Keeps : {A : Type 0} (o : Option A) (e : Error) → Keeps I (or_raise o e)
  or_raise-Keeps none e w h = h
  or_raise-Keeps (some a) e w h = h

  pub raise_if-Keeps : (b : Bool) (e : Error) → Keeps I (raise_if b e)
  raise_if-Keeps true e w h = h
  raise_if-Keeps false e w h = h

  pub when-Keeps : (b : Bool) (m : M O (Unit {0})) → Keeps I m → Keeps I (when b m)
  when-Keeps true m hm w h = hm w h
  when-Keeps false m hm w h = h
