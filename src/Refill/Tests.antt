-- ===== src/Refill/Tests.antt =====
-- A pool of one sandbox that is due for rotation, or of two.
use astrbot_shipyard_neo.Base.{ℕ, ◌≡◌, refl, ◌≤◌, true, false, none, some, [], ◌∷◌, count}
use astrbot_shipyard_neo.Model.{Sandbox, WarmState, get_profile}
use astrbot_shipyard_neo.World.Runtime.{ok}
use astrbot_shipyard_neo.World.Effect.{World}
use astrbot_shipyard_neo.World.Sample.{calm, box, start, idle_session, settings, profile}
use astrbot_shipyard_neo.Warmup.Queue.{WarmPoolConfig, WarmupQueue, init}
use astrbot_shipyard_neo.Refill.Kept.{supply, is_made}
use astrbot_shipyard_neo.Refill.Bound.{maintain_profile-supply}
use astrbot_shipyard_neo.Refill.Fills.{maintain_profile_creates}
use astrbot_shipyard_neo.Refill.Reconcile.{reconcile}
use astrbot_shipyard_neo.Refill.Maintain.{maintain_profile}

abbrev config : WarmPoolConfig
config = record { max_size = 0; drop_oldest = false }

-- Available since 10, and to be rotated at 50; the session of `start` has no container.
abbrev warm : Sandbox
warm = record box {
  owner = 0;
  expires_at = none;
  is_warm_pool = true;
  warm_state = some WarmState.available;
  warm_ready_at = some 10;
  warm_rotate_at = some 50;
}

-- The session of the warm sandbox runs.
abbrev one_warm : World ℕ
one_warm = record start {
  sandboxes = warm ∷ [];
  sessions = record idle_session { container_id = some 60 } ∷ [];
}

abbrev two_warm : World ℕ
two_warm = record one_warm {
  sandboxes = warm ∷ record warm { id = 9; warm_rotate_at = some 500 } ∷ [];
}

maintain_profile-supply_example :
    supply 5 (maintain_profile calm settings config profile init one_warm).1.sandboxes ≤ 1
unfolding reconcile
maintain_profile-supply_example = maintain_profile-supply calm settings config profile init one_warm

maintain_profile_creates_example :
    (x : WarmupQueue) × ((maintain_profile calm settings config profile init one_warm).0
      ≡ ok (1, x))
    × (count (is_made 5) (maintain_profile calm settings config profile init one_warm).1.sandboxes
        ≡ 2)
unfolding get_profile reconcile
maintain_profile_creates_example =
    maintain_profile_creates calm settings config profile init one_warm refl (λ k o. refl)
