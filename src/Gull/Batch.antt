-- ===== src/Gull/Batch.antt =====
-- What a batch has run when it answers.
use mathlib.Core.Path.{subst}
use astrbot_shipyard_neo.Base.{
  ℕ, ◌+◌, ◌-◌, ◌≡◌, refl, sym, ap, ◌∙◌, Bool, true, false, List, [], ◌∷◌, ◌++◌, ◌&&◌, ◌==◌, leb,
  length, length-append, length-map, map, arith, ◌↔◌, All, Bool-cases, inl, inr, ==→≡, append-nil,
}
use astrbot_shipyard_neo.Model.{seconds}
use astrbot_shipyard_neo.World.Runtime.{Result, ok, raise}
use astrbot_shipyard_neo.Path.Split.{Text}
use astrbot_shipyard_neo.Gull.Exec.{
  Machine, Settings, Process, G, proceed, is_zero, batch_step, BatchStepResult, BatchExecRequest,
  BatchExecResponse, all_zero, ends_batch, result_of, batch_round, batch_loop, exec_batch,
}

abbrev Succeeded : BatchStepResult → Type 0
Succeeded r = is_zero r.output.exit_code ≡ true

-- The commands of the results, and their indices.
abbrev pub commands_of : List BatchStepResult → List Text
commands_of rs = map (λ r. r.cmd) rs

abbrev pub Numbered : ℕ → List BatchStepResult → Type 0
Numbered i [] = Unit
Numbered i (r ∷ rs) = (r.step_index ≡ i) × Numbered (i + 1) rs

-- Every result but the last succeeded.
abbrev pub OnlyLastFailed : List BatchStepResult → Type 0
OnlyLastFailed [] = Unit
OnlyLastFailed (r ∷ []) = Unit
OnlyLastFailed (r ∷ s ∷ rs) = Succeeded r × OnlyLastFailed (s ∷ rs)

-- The results are of the first of the commands, in order, with their indices from `i` on.
pub record IsRun (stop_on_error : Bool) (i : ℕ) (commands : List Text) (rs : List BatchStepResult)
    : Type 0 where
  pub left : List Text
  pub prefix : commands ≡ commands_of rs ++ left
  pub indices : Numbered i rs
  pub stopped : stop_on_error ≡ true → OnlyLastFailed rs

-- What a loop or a round returns, if it does.
abbrev OnOk : {O A : Type 0} → (A → Type 0) → Result A × Process O → Type 0
OnOk P (ok a, p) = P a
OnOk P (raise e, p) = Unit

on_result :
    {O A B : Type 0} (P : B → Type 0) (f : A → G O B) (r : Result A × Process O)
    → ((a : A) (q : Process O) → OnOk P (f a q))
    → OnOk P (proceed f r)
on_result P f (ok a, q) h = h a q
on_result P f (raise e, q) h = tt

-- What follows a result that is known.
after_result :
    {O A B : Type 0} (Q : A → Type 0) (P : B → Type 0) (f : A → G O B) (r : Result A × Process O)
    → OnOk Q r
    → ((a : A) (q : Process O) → Q a → OnOk P (f a q))
    → OnOk P (proceed f r)
after_result Q P f (ok a, q) known h = h a q known
after_result Q P f (raise e, q) known h = tt

OnOk-elim :
    {O A : Type 0} (P : A → Type 0) (r : Result A × Process O) {a : A} → OnOk P r → r.0 ≡ ok a → P a
OnOk-elim P (ok b, q) {a} h e = let same : b ≡ a = ground arith in subst P same h
OnOk-elim P (raise err, q) h e = cc

first-Succeeded :
    (r : BatchStepResult) (rs : List BatchStepResult)
    → Succeeded r
    → OnlyLastFailed rs
    → OnlyLastFailed (r ∷ rs)
first-Succeeded r [] s h = tt
first-Succeeded r (t ∷ rs) s h = (s, h)

cons-IsRun :
    (stop_on_error : Bool) (i : ℕ) (cmds : List Text) (r : BatchStepResult)
    (rs : List BatchStepResult)
    → r.step_index ≡ i
    → ends_batch stop_on_error r.output ≡ false
    → IsRun stop_on_error (i + 1) cmds rs
    → IsRun stop_on_error i (r.cmd ∷ cmds) (r ∷ rs)
cons-IsRun stop i cmds r rs index goes_on run = record {
  left = run.left;
  prefix = ap (λ t. r.cmd ∷ t) run.prefix;
  indices = (index, run.indices);
  stopped = λ on. first-Succeeded r rs (ground arith) (run.stopped on);
}

module _ (m : Machine) (c : Settings) (request : BatchExecRequest) (batch_start : ℕ) where
  abbrev stop : Bool
  stop = request.stop_on_error

  round-IsRun :
      (i : ℕ) (cmd : Text) (cmds : List Text) (remaining : ℕ)
      (rest : G m.Outside (List BatchStepResult)) (p : Process m.Outside)
      → ((q : Process m.Outside) → OnOk (IsRun stop (i + 1) cmds) (rest q))
      → OnOk
          (IsRun stop i (cmd ∷ cmds))
          (batch_round m c request batch_start i cmd remaining rest p)
  round-IsRun i cmd cmds remaining rest p ih =
      let step_start : ℕ = (m.perf_counter p.outside).0 in
      on_result (IsRun stop i (cmd ∷ cmds)) _
        (batch_step m c request.sandbox_id request.cargo_id cmd remaining
          (record p { outside = (m.perf_counter p.outside).1 }))
        (λ o q.
          let r : BatchStepResult =
            result_of m c request batch_start i cmd step_start o (m.perf_counter q.outside).0 in
          elim (Bool-cases (ends_batch stop o)) [
            | inl ends ↦
                rw ends
                  (record { left = cmds; prefix = refl; indices = (refl, tt); stopped = λ on. tt })
            | inr goes_on ↦ rw goes_on (
                after_result (IsRun stop (i + 1) cmds) (IsRun stop i (cmd ∷ cmds)) _
                  (rest (record q { outside = (m.perf_counter q.outside).1 }))
                  (ih (record q { outside = (m.perf_counter q.outside).1 }))
                  (λ rs q' run. cons-IsRun stop i cmds r rs refl goes_on run))
          ])

  loop-IsRun :
      (i : ℕ) (cmds : List Text) (p : Process m.Outside)
      → OnOk (IsRun stop i cmds) (batch_loop m c request batch_start i cmds p)
  unfolding batch_loop
  loop-IsRun i [] p = record { left = []; prefix = refl; indices = tt; stopped = λ on. tt }
  loop-IsRun i (cmd ∷ cmds) p =
      let time : ℕ = (m.perf_counter p.outside).0 in
      elim (Bool-cases (leb (seconds request.timeout) (time - batch_start))) [
        | inl late ↦
            rw late (record { left = cmd ∷ cmds; prefix = refl; indices = tt; stopped = λ on. tt })
        | inr in_time ↦ rw in_time (
            round-IsRun i cmd cmds (seconds request.timeout - (time - batch_start))
              (batch_loop m c request batch_start (i + 1) cmds)
              (record p { outside = (m.perf_counter p.outside).1 }) (loop-IsRun (i + 1) cmds))
      ]

all_zero_iff : (rs : List BatchStepResult) → (all_zero rs ≡ true) ↔ All Succeeded rs
all_zero_iff [] = (λ h. tt, λ h. refl)
all_zero_iff (r ∷ rs) =
    (λ h. (ground arith, (all_zero_iff rs).0 (ground arith)), λ h. rw h.0 ((all_zero_iff rs).1 h.1))

no_rest : (xs ys : List Text) → length xs ≡ length (xs ++ ys) → ys ≡ []
no_rest xs [] h = refl
no_rest xs (y ∷ ys) h = absurd (omega (arith, length-append xs (y ∷ ys)))

-- What a batch answers: the results of the first of its commands, in order and numbered from 0; all but
-- the last succeeded if it stops on an error; and it reports success exactly when every command has been
-- run and returned 0.
pub record IsAnswer (request : BatchExecRequest) (r : BatchExecResponse) : Type 0 where
  pub run : IsRun request.stop_on_error 0 request.commands r.results
  pub completed : r.completed_steps ≡ length r.results
  pub succeeded :
      (r.success ≡ true) ↔ ((commands_of r.results ≡ request.commands) × All Succeeded r.results)

success_iff :
    (stop_on_error : Bool) (i : ℕ) (cmds : List Text) (rs : List BatchStepResult)
    → IsRun stop_on_error i cmds rs
    → (((length rs == length cmds) && all_zero rs) ≡ true)
      ↔ ((commands_of rs ≡ cmds) × All Succeeded rs)
success_iff stop i cmds rs run = (
  λ h.
      let same_length : (length rs == length cmds) ≡ true = ground arith in
      let zeros : all_zero rs ≡ true = ground arith in
      let count : length (commands_of rs) ≡ length (commands_of rs ++ run.left) =
        length-map (λ (r : BatchStepResult). r.cmd) rs
        ∙ ==→≡ _ _ same_length
        ∙ ap (λ t. length t) run.prefix in
      (
        sym (
            run.prefix
            ∙ ap (λ t. commands_of rs ++ t) (no_rest (commands_of rs) run.left count)
            ∙ append-nil (commands_of rs)),
        (all_zero_iff rs).0 zeros,
      ),
  λ h.
      let count : length rs ≡ length cmds =
        sym (length-map (λ (r : BatchStepResult). r.cmd) rs) ∙ ap (λ t. length t) h.0 in
      rw (count, (all_zero_iff rs).1 h.1) (ground arith),
)

-- The answer of a batch is as `IsAnswer` says, whatever the machine does.
pub exec_batch-IsAnswer :
    (m : Machine) (c : Settings) (request : BatchExecRequest) (p : Process m.Outside)
    {r : BatchExecResponse}
    → (exec_batch m c request p).0 ≡ ok r
    → IsAnswer request r
unfolding exec_batch
exec_batch-IsAnswer m c request p h =
    OnOk-elim (IsAnswer request) (exec_batch m c request p)
      (let batch_start : ℕ = (m.perf_counter p.outside).0 in
        after_result (IsRun request.stop_on_error 0 request.commands) (IsAnswer request) _
          (batch_loop m c request batch_start 0 request.commands
            (record p { outside = (m.perf_counter p.outside).1 }))
          (loop-IsRun m c request batch_start 0 request.commands
            (record p { outside = (m.perf_counter p.outside).1 }))
          (λ rs q run. record {
            run = run;
            completed = refl;
            succeeded = success_iff request.stop_on_error 0 request.commands rs run;
          }))
      h
