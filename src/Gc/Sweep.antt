-- ===== src/Gc/Sweep.antt =====
-- `GCResult`, and the loop that every task runs over what its query selected.
use astrbot_shipyard_neo.Base.{ℕ, ◌+◌, Bool, List, [], ◌∷◌, if◌then◌else◌}
use astrbot_shipyard_neo.World.Runtime.{Error}
use astrbot_shipyard_neo.World.Effect.{M, pure, ◌>>=◌, catch}

-- `task_name` is a number that stands for the name; an error is the item with what was raised.
pub record GcResult : Type 0 where
  pub task_name : ℕ
  pub cleaned_count : ℕ
  pub skipped_count : ℕ
  pub errors : List (ℕ × Error)

abbrev pub new_result : ℕ → GcResult
new_result task_name = record {
  task_name = task_name;
  cleaned_count = 0;
  skipped_count = 0;
  errors = [];
}

-- The latest error stands first.
abbrev pub add_error : ℕ → Error → GcResult → GcResult
add_error k e r = record r { errors = (k, e) ∷ r.errors }

abbrev pub count_item : Bool → GcResult → GcResult
count_item cleaned r =
    if cleaned
    then record r { cleaned_count = r.cleaned_count + 1 }
    else record r { skipped_count = r.skipped_count + 1 }

module _ {O A : Type 0} (id_of : A → ℕ) (process : A → M O Bool) where
  unfoldable pub sweep_item : A → GcResult → M O GcResult
  sweep_item item r =
      catch (do cleaned ← process item; pure (count_item cleaned r))
        (λ e. pure (add_error (id_of item) e r))

  -- `for item in items: try: ... except Exception: result.add_error(...)`
  unfoldable pub sweep : List A → GcResult → M O GcResult
  unfolding sweep_item
  sweep [] r = pure r
  sweep (item ∷ items) r = do r' ← sweep_item item r; sweep items r'
