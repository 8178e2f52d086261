-- ===== src/Gull/Tests.antt =====
-- Tests and witnesses of the browser runtime.
use astrbot_shipyard_neo.Base.{
  ℕ, zero, suc, ◌≡◌, refl, ap, ◌∙◌, ◌+◌, ◌||◌, Bool, true, false, none, some, List, [], ◌∷◌,
  if◌then◌else◌, pos, ◌++◌,
}
use astrbot_shipyard_neo.World.Runtime.{Error, Result, ok, raise}
use astrbot_shipyard_neo.Path.Split.{Text, parts, join}
use astrbot_shipyard_neo.Path.Normal
use astrbot_shipyard_neo.Path.Normal.{step, validate_relative_path}
use astrbot_shipyard_neo.Path.Escape.{walk}
use astrbot_shipyard_neo.Texts.{codes, starts_with}
use astrbot_shipyard_neo.Gull.Command.{
  Shlex, IsInverse, same_text, takes_value, normalize_browser_command, translate_arg, cargo_path_of,
}
use astrbot_shipyard_neo.Gull.Exec.{
  Machine, Settings, Process, finished, BatchExecRequest, BatchExecResponse, exec_batch,
  exec_command,
}
use astrbot_shipyard_neo.Gull.Stable.{normalize-idempotent}
use astrbot_shipyard_neo.Gull.Workspace.{
  translate_arg-inside, sibling, translate_arg-escapes, exec_command-raises,
}
use astrbot_shipyard_neo.Gull.Batch.{IsAnswer, exec_batch-IsAnswer}

-- A writer and a reader of parts: each character is one above its own, and 0 ends a part.
abbrev write_part : Text → Text → Text
write_part [] rest = 0 ∷ rest
write_part (c ∷ cs) rest = suc c ∷ write_part cs rest

abbrev write : List Text → Text
write [] = []
write (w ∷ ws) = write_part w (write ws)

abbrev grow : ℕ → List Text → List Text
grow c [] = (c ∷ []) ∷ []
grow c (w ∷ ws) = (c ∷ w) ∷ ws

abbrev read : Text → List Text
read [] = []
read (zero ∷ cs) = [] ∷ read cs
read (suc c ∷ cs) = grow c (read cs)

read-write_part : (w rest : Text) → read (write_part w rest) ≡ w ∷ read rest
read-write_part [] rest = refl
read-write_part (c ∷ cs) rest = ap (grow c) (read-write_part cs rest)

read-write : (ws : List Text) → read (write ws) ≡ ws
read-write [] = refl
read-write (w ∷ ws) = read-write_part w (write ws) ∙ ap (λ t. w ∷ t) (read-write ws)

abbrev simple : Shlex
simple = record { split = λ t. some (read t); join = write }

simple-IsInverse : IsInverse simple
simple-IsInverse parts = ap some (read-write parts)

abbrev bare : Text
bare = write (codes "screenshot" ∷ [])

abbrev shot_path : Text
shot_path = codes "/workspace/screenshot-ab.png"

normalizes :
    normalize_browser_command simple (codes "/workspace/") (codes "ab") bare
    ≡ write (codes "screenshot" ∷ shot_path ∷ [])
unfolding normalize_browser_command
normalizes = refl

normalize-idempotent_example :
    normalize_browser_command simple
      (codes "/workspace")
      (codes "cd")
      (normalize_browser_command simple (codes "/workspace") (codes "ab") bare)
    ≡ normalize_browser_command simple (codes "/workspace") (codes "ab") bare
unfolding starts_with takes_value same_text
normalize-idempotent_example =
    normalize-idempotent simple simple-IsInverse (codes "/workspace") refl (codes "ab") (codes "cd")
      bare refl

accepted : validate_relative_path (codes "a/../b") ≡ Normal.ok (codes "b")
unfolding validate_relative_path step parts join
accepted = refl

-- The path `a/../b`, below the workspace.
translate_arg-inside_example :
    (names : List Text) × (walk []
        (parts (translate_arg (cargo_path_of (codes "c1")) (codes "/workspace/" ++ codes "a/../b")))
      ≡ walk [] (parts (cargo_path_of (codes "c1"))) ++ names)
    × ((dir : List Text) → walk dir (parts (codes "a/../b")) ≡ dir ++ names)
translate_arg-inside_example = translate_arg-inside (codes "c1") (codes "a/../b") accepted

translate_arg-escapes_example :
    walk [] (parts (translate_arg (cargo_path_of (codes "c1")) (sibling (codes "c2"))))
    ≡ walk [] (parts (cargo_path_of (codes "c2")))
translate_arg-escapes_example = translate_arg-escapes (codes "c1") (codes "c2") refl refl

-- A machine whose processes end at once: the clock ticks, and a command called "bad" fails.
abbrev fails : List Text → Bool
fails [] = false
fails (w ∷ ws) = same_text w (codes "bad") || fails ws

abbrev quick : Machine
quick = record {
  Outside = ℕ;
  spawn =
      λ parts cwd timeout o. (finished [] [] (some (pos (if fails parts then 1 else 0))), o + 1);
  perf_counter = λ o. (o, o + 1);
  uuid_hex = λ o. (codes "ab", o);
  has_agent_browser = λ o. (true, o);
  check_chromium_health = λ o. (true, o);
}

abbrev settings_with : Shlex → Settings
settings_with shlex = record {
  shared = false;
  session_name = codes "s";
  workspace = codes "/workspace";
  browser_profile_dir = codes "/workspace/.browser/profile";
  cdp_port = codes "9222";
  shlex = shlex;
  timeout_text = λ t. [];
}

abbrev idle : Process ℕ
idle = record { browser_ready = true; outside = 0 }

abbrev three : BatchExecRequest
three = record {
  commands =
      write (codes "back" ∷ []) ∷ write (codes "bad" ∷ []) ∷ write (codes "reload" ∷ []) ∷ [];
  timeout = 60;
  stop_on_error = true;
  sandbox_id = none;
  cargo_id = none;
}

abbrev answer_or : BatchExecResponse → Result BatchExecResponse → BatchExecResponse
answer_or other (ok r) = r
answer_or other (raise e) = other

abbrev nothing_run : BatchExecResponse
nothing_run = record {
  results = [];
  total_steps = 0;
  completed_steps = 0;
  success = true;
  duration = 0;
}

abbrev answer : BatchExecResponse
answer = answer_or nothing_run (exec_batch quick (settings_with simple) three idle).0

stops_at_error : (answer.completed_steps ≡ 2) × (answer.success ≡ false)
unfolding exec_batch
stops_at_error = (refl, refl)

batch_answers : (exec_batch quick (settings_with simple) three idle).0 ≡ ok answer
unfolding exec_batch
batch_answers = refl

exec_batch-IsAnswer_example : IsAnswer three answer
exec_batch-IsAnswer_example =
    exec_batch-IsAnswer quick (settings_with simple) three idle batch_answers

-- A `shlex` that splits nothing.
abbrev strict : Shlex
strict = record { split = λ t. none; join = write }

exec_command-raises_example :
    (exec_command quick (settings_with strict) none none (codes "fill \"") 30 idle).0
    ≡ raise Error.value
exec_command-raises_example =
    exec_command-raises quick (settings_with strict) (codes "fill \"") refl idle none none 30 refl
      refl
