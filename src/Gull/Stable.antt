-- ===== src/Gull/Stable.antt =====
-- A normalised command is normal: its output path is found again.
use astrbot_shipyard_neo.Base.{
  ℕ, ◌≡◌, refl, Bool, true, false, Option, none, some, List, [], ◌∷◌, ◌++◌, ◌==◌, ◌&&◌,
  if◌then◌else◌, Bool-cases, inl, inr, arith,
}
use astrbot_shipyard_neo.Path.Split.{Text, has_char}
use astrbot_shipyard_neo.Texts.{codes, starts_with, rstrip, add_front}
use astrbot_shipyard_neo.Gull.Command.{
  Shlex, IsInverse, same_text, takes_value, brings_value, is_output, has_output_path, screenshot,
  screenshot_path, normalize_parts, normalize_browser_command,
}

-- The arguments end with an option whose value is missing.
abbrev pub lacks_value : Bool → List Text → Bool
lacks_value skip [] = skip
lacks_value true (arg ∷ args) = lacks_value false args
lacks_value false (arg ∷ args) =
    let after_option = lacks_value true args in
    let after_other = lacks_value false args in
    if takes_value arg then after_option else after_other

-- A path that is added after the arguments is found, unless it is taken for the value of an option.
module _ (path : Text) (t : takes_value path ≡ false) (b : brings_value path ≡ false)
    (o : is_output path ≡ true) where
  abbrev Found : Bool → List Text → Type 0
  Found skip args = has_output_path skip (args ++ path ∷ []) ≡ true

  found_path : (skip : Bool) (args : List Text) → lacks_value skip args ≡ false → Found skip args
  unfolding has_output_path
  found_path true [] closed = cc
  found_path false [] closed = rw (t, b, o) refl
  found_path true (arg ∷ args) closed = found_path false args closed
  found_path false (arg ∷ args) closed = elim (Bool-cases (takes_value arg)) [
    | inl e ↦ rw e (found_path true args (rw e at closed))
    | inr e ↦
        let later : Found false args = found_path false args (rw e at closed) in
        elim (Bool-cases (brings_value arg)) [
          | inl g ↦ rw (e, g) later
          | inr g ↦ elim (Bool-cases (is_output arg)) [
            | inl out ↦ rw (e, g, out) refl
            | inr other ↦ rw (e, g, other) later
          ]
        ]
  ]

abbrev NoDash : Text → Type 0
NoDash t = starts_with (codes "-") t ≡ false

NoDash-rstrip :
    (drop : ℕ → Bool) (cs rest : Text) → NoDash cs → NoDash rest → NoDash (rstrip drop cs ++ rest)
unfolding starts_with rstrip
NoDash-rstrip drop [] rest h k = k
NoDash-rstrip drop (c ∷ cs) rest h k = front (rstrip drop cs)
  where
    front : (ds : Text) → NoDash (add_front drop c ds ++ rest)
    front [] = elim (Bool-cases (drop c)) [ inl e ↦ rw e k | inr e ↦ rw e h ]
    front (d ∷ ds) = h

has_char-right : (c : ℕ) (xs ys : Text) → has_char c ys ≡ true → has_char c (xs ++ ys) ≡ true
has_char-right c [] ys h = h
has_char-right c (x ∷ xs) ys h = ground (arith, has_char-right c xs ys h)

no_option : (t : Text) → NoDash t → (takes_value t ≡ false) × (brings_value t ≡ false)
unfolding starts_with takes_value brings_value
no_option [] h = (refl, refl)
no_option (c ∷ cs) h = let dash : (45 == c) ≡ false = ground arith in (rw dash refl, rw dash refl)

path_is_output : (t : Text) → NoDash t → has_char b'/' t ≡ true → is_output t ≡ true
unfolding is_output
path_is_output t h s = rw (h, s) (ground arith)

-- A screenshot command whose last option lacks its value.
abbrev pub is_open : Option (List Text) → Bool
is_open none = false
is_open (some []) = false
is_open (some (name ∷ args)) = same_text name screenshot && lacks_value false args

module _ (sh : Shlex) (inverse : IsInverse sh) (workspace : Text)
    (no_dash : starts_with (codes "-") workspace ≡ false) where
  path_found :
      (hex : Text) (args : List Text)
      → lacks_value false args ≡ false
      → has_output_path false (args ++ screenshot_path workspace hex ∷ []) ≡ true
  unfolding screenshot_path starts_with
  path_found hex args closed =
      let tail : Text = codes "/screenshot-" ++ (hex ++ codes ".png") in
      let path : Text = rstrip (λ c. c == b'/') workspace ++ tail in
      let plain : NoDash path = NoDash-rstrip (λ c. c == b'/') workspace tail no_dash refl in
      let slash : has_char b'/' path ≡ true =
        has_char-right b'/' (rstrip (λ c. c == b'/') workspace) tail refl in
      let (t, b) = no_option path plain in
      found_path path t b (path_is_output path plain slash) false args closed

  again :
      (hex later cmd : Text) (parts : Option (List Text))
      → sh.split cmd ≡ parts
      → is_open parts ≡ false
      → normalize_browser_command sh workspace later (normalize_parts sh workspace hex cmd parts)
        ≡ normalize_parts sh workspace hex cmd parts
  unfolding normalize_browser_command
  again hex later cmd none e closed = rw e refl
  again hex later cmd (some []) e closed = rw e refl
  again hex later cmd (some (name ∷ args)) e closed =
      elim (Bool-cases (same_text name screenshot)) [
        | inr other ↦ rw (other, e, other) refl
        | inl shot ↦ elim (Bool-cases (has_output_path false args)) [
          | inl there ↦ rw (shot, there, e, shot, there) refl
          | inr missing ↦
              let found = path_found hex args (rw shot at closed) in
              rw
                (
                  shot,
                  missing,
                  inverse (name ∷ (args ++ screenshot_path workspace hex ∷ [])),
                  shot,
                  found,
                )
                refl
        ]
      ]

  -- With a workspace that does not begin with a dash: unless the command is a screenshot whose last
  -- option lacks its value, a normalised command is left as it is when it is normalised again.
  pub normalize-idempotent :
      (hex later cmd : Text)
      → is_open (sh.split cmd) ≡ false
      → normalize_browser_command sh workspace later
          (normalize_browser_command sh workspace hex cmd)
        ≡ normalize_browser_command sh workspace hex cmd
  unfolding normalize_browser_command
  normalize-idempotent hex later cmd closed = again hex later cmd (sh.split cmd) refl closed
