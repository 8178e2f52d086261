-- ===== src/World/Returns.antt =====
-- Coroutines that return.
use astrbot_shipyard_neo.Base.{◌≡◌, refl, ◌∙◌, ap, Bool, true, false, List, [], ◌∷◌}
use astrbot_shipyard_neo.World.Runtime.{Result, ok, raise}
use astrbot_shipyard_neo.World.Effect.{World, M, ◌>>=◌, for_each}
use astrbot_shipyard_neo.World.Post.{bind_of_ok}

abbrev pub is_ok : {A : Type 0} → Result A → Bool
is_ok (ok a) = true
is_ok (raise e) = false

pub value_of : {A : Type 0} (r : Result A) → is_ok r ≡ true → (a : A) × (r ≡ ok a)
value_of (ok a) h = (a, refl)
value_of (raise e) h = cc

-- A coroutine that returns.
abbrev pub Returns : {O A : Type 0} → M O A → World O → Type 0
Returns {O} {A} m w = (a : A) × ((m w).0 ≡ ok a)

pub bind-Returns :
    {O A B : Type 0} (m : M O A) (f : A → M O B) (w : World O)
    → Returns m w
    → ((a : A) → Returns (f a) (m w).1)
    → Returns (m >>= f) w
bind-Returns m f w (a, done) next =
    let (b, last) = next a in (b, ap (λ x. x.0) (bind_of_ok m f w done) ∙ last)

module _ {O A : Type 0} (f : A → M O (Unit {0}))
    (total : (a : A) (w : World O) → Returns (f a) w) where
  pub for_each-Returns : (xs : List A) (w : World O) → Returns (for_each xs f) w
  unfolding for_each
  for_each-Returns [] w = (tt, refl)
  for_each-Returns (x ∷ xs) w =
      bind-Returns (f x) (λ _. for_each xs f) w (total x w) (λ _. for_each-Returns xs (f x w).1)
