-- ===== src/Gull/Command.antt =====
-- The command lines of the browser: `_normalize_browser_command` and `_translate_and_split`. Python's
-- `shlex` is an argument: `split` is `none` where it raises, and splitting what was joined gives the
-- parts back.
use astrbot_shipyard_neo.Base.{
  ◌≡◌, Bool, true, false, not, Option, none, some, List, [], ◌∷◌, ◌++◌, ◌==◌, ◌&&◌, ◌||◌,
  if◌then◌else◌, map, length,
}
use astrbot_shipyard_neo.Path.Split.{Text, has_char}
use astrbot_shipyard_neo.Texts.{codes, starts_with, drop, lower, rstrip}

pub record Shlex : Type 0 where
  pub split : Text → Option (List Text)
  pub join : List Text → Text

-- Documented: `shlex.join` is the inverse of `shlex.split`.
abbrev pub IsInverse : Shlex → Type 0
IsInverse sh = (parts : List Text) → sh.split (sh.join parts) ≡ some parts

unfoldable pub same_text : Text → Text → Bool
same_text [] [] = true
same_text [] (d ∷ ds) = false
same_text (c ∷ cs) [] = false
same_text (c ∷ cs) (d ∷ ds) = (c == d) && same_text cs ds

abbrev pub is_one_of : List Text → Text → Bool
is_one_of [] arg = false
is_one_of (t ∷ ts) arg = same_text t arg || is_one_of ts arg

abbrev pub screenshot_options_with_values : List Text
screenshot_options_with_values =
    codes "--screenshot-dir" ∷ codes "--screenshot-format" ∷ codes "--screenshot-quality" ∷ []

unfoldable pub takes_value : Text → Bool
unfolding same_text
takes_value arg = is_one_of screenshot_options_with_values arg

-- `arg.startswith(f"{option}=")` for one of the options
abbrev pub gives_value : List Text → Text → Bool
gives_value [] arg = false
gives_value (o ∷ os) arg = starts_with (o ++ codes "=") arg || gives_value os arg

unfoldable pub brings_value : Text → Bool
unfolding starts_with
brings_value arg = gives_value screenshot_options_with_values arg

-- `text.endswith(suffix)`
abbrev pub ends_with : Text → Text → Bool
ends_with suffix [] = same_text suffix []
ends_with suffix (c ∷ cs) = same_text suffix (c ∷ cs) || ends_with suffix cs

abbrev has_extension : Text → Bool
has_extension arg =
    ends_with (codes ".png") arg
    || (ends_with (codes ".jpg") arg
        || (ends_with (codes ".jpeg") arg || ends_with (codes ".webp") arg))

unfoldable pub is_screenshot_output_path : Text → Bool
unfolding same_text starts_with lower
is_screenshot_output_path arg =
    (starts_with (codes "./") arg || starts_with (codes "../") arg)
    || (has_char b'/' arg || has_extension (lower arg))

-- A positional argument that is an output path.
unfoldable pub is_output : Text → Bool
unfolding is_screenshot_output_path
is_output arg = not (starts_with (codes "-") arg) && is_screenshot_output_path arg

-- The loop: `skip` says that the next part is the value of an option.
unfoldable pub has_output_path : Bool → List Text → Bool
unfolding takes_value brings_value is_output
has_output_path skip [] = false
has_output_path true (arg ∷ args) = has_output_path false args
has_output_path false (arg ∷ args) =
    let after_option = has_output_path true args in
    let after_other = has_output_path false args in
    if takes_value arg
    then after_option
    else if brings_value arg
    then after_other
    else if is_output arg
    then true
    else after_other

abbrev pub screenshot : Text
screenshot = codes "screenshot"

-- `f"{WORKSPACE_PATH.rstrip('/')}/screenshot-{uuid4().hex}.png"`
unfoldable pub screenshot_path : Text → Text → Text
unfolding rstrip
screenshot_path workspace hex =
    rstrip (λ c. c == b'/') workspace ++ (codes "/screenshot-" ++ (hex ++ codes ".png"))

module _ (sh : Shlex) (workspace : Text) where
  abbrev pub with_output : Text → Text → List Text → Text
  with_output hex cmd [] = cmd
  with_output hex cmd (name ∷ args) =
      if not (same_text name screenshot)
      then cmd
      else if has_output_path false args
      then cmd
      else sh.join (name ∷ (args ++ screenshot_path workspace hex ∷ []))

  abbrev pub normalize_parts : Text → Text → Option (List Text) → Text
  normalize_parts hex cmd none = cmd
  normalize_parts hex cmd (some parts) = with_output hex cmd parts

  unfoldable pub normalize_browser_command : Text → Text → Text
  unfolding same_text has_output_path screenshot_path
  normalize_browser_command hex cmd = normalize_parts hex cmd (sh.split cmd)

abbrev pub file_path_commands : List Text
file_path_commands = codes "screenshot" ∷ codes "pdf" ∷ codes "upload" ∷ codes "file_server" ∷ []

abbrev pub workspace_root : Text
workspace_root = codes "/workspace"

-- `f"/cargos/bay-cargo-{cargo_id}"`
abbrev pub cargo_path_of : Text → Text
cargo_path_of cargo_id = codes "/cargos/bay-cargo-" ++ cargo_id

unfoldable pub translate_arg : Text → Text → Text
unfolding same_text starts_with drop
translate_arg cargo_path arg =
    if same_text arg workspace_root
    then cargo_path
    else if starts_with (codes "/workspace/") arg
    then cargo_path ++ drop (length workspace_root) arg
    else arg

abbrev pub translate_args : Text → List Text → List Text
translate_args cargo_path [] = []
translate_args cargo_path (name ∷ args) =
    if is_one_of file_path_commands name
    then map (translate_arg cargo_path) (name ∷ args)
    else name ∷ args

-- The arguments, the working directory and the profile.
pub record Invocation : Type 0 where
  pub argv : List Text
  pub cwd : Text
  pub profile : Text

module _ (sh : Shlex) (workspace : Text) where
  abbrev argv_of : Text → Text → Option (List Text) → List Text
  argv_of cmd cargo_path none = cmd ∷ []
  argv_of cmd cargo_path (some parts) = translate_args cargo_path parts

  unfoldable pub translate_and_split : Text → Text → Text → Invocation
  unfolding normalize_browser_command translate_arg
  translate_and_split hex cmd cargo_id =
      let normal : Text = normalize_browser_command sh workspace hex cmd in
      record {
        argv = argv_of normal (cargo_path_of cargo_id) (sh.split normal);
        cwd = cargo_path_of cargo_id;
        profile = cargo_path_of cargo_id ++ codes "/.browser/profile";
      }
