-- ===== src/Path/Normal.antt =====
-- `validate_relative_path` and `validate_optional_relative_path`, and that a validated path is
-- in normal form.
use astrbot_shipyard_neo.Base.{
  ◌≡◌, refl, ◌∙◌, ap, Bool, true, false, Option, none, some, List, [], ◌∷◌, ◌++◌, if◌then◌else◌,
  arith, All, All-snoc, Bool-cases, inl, inr, append_assoc, append-nil, sym,
}
use astrbot_shipyard_neo.Path.Split.{
  Text, dot, is_empty, is_dot, is_dotdot, has_char, parts, is_absolute, join, IsName,
}

-- The `reason` of an `InvalidPathError`.
pub data Reason : Type 0 where
  empty_path null_byte absolute_path path_traversal : Reason

pub data Result (A : Type 0) : Type 0 where
  ok : A → Result A
  invalid : Reason → Result A

infixl 5 ◌>>=◌
abbrev pub ◌>>=◌ : {A B : Type 0} → Result A → (A → Result B) → Result B
ok a >>= f = f a
invalid e >>= f = invalid e

pub >>=-eq-ok :
    {A B : Type 0} {r : B} (try : Result A) (rest : A → Result B)
    → (try >>= rest) ≡ ok r
    → (mid : A) × (try ≡ ok mid) × (rest mid ≡ ok r)
>>=-eq-ok (ok mid) rest done = (mid, refl, done)
>>=-eq-ok (invalid e) rest done = cc

-- `parts.pop()`
abbrev pub drop_last : List Text → List Text
drop_last [] = []
drop_last (w ∷ []) = []
drop_last (w ∷ v ∷ ws) = w ∷ drop_last (v ∷ ws)

abbrev pub is_nil : List Text → Bool
is_nil [] = true
is_nil (w ∷ ws) = false

-- The body of the loop over `p.parts`, on the list `parts` built so far.
unfoldable pub step : List Text → Text → Result (List Text)
step out part =
    if is_dot part
    then ok out
    else if is_dotdot part
    then (if is_nil out then invalid Reason.path_traversal else ok (drop_last out))
    else ok (out ++ part ∷ [])

-- The loop.
unfoldable pub normalize : List Text → List Text → Result (List Text)
normalize out [] = ok out
normalize out (part ∷ rest) = do out' ← step out part; normalize out' rest

-- `return "." if not parts else "/".join(parts)`
abbrev pub render : List Text → Text
render [] = dot
render (w ∷ ws) = join (w ∷ ws)

unfoldable pub validate_relative_path : Text → Result Text
unfolding normalize
validate_relative_path path =
    if is_empty path
    then invalid Reason.empty_path
    else if has_char 0 path
    then invalid Reason.null_byte
    else if is_absolute path
    then invalid Reason.absolute_path
    else (do ws ← normalize [] (parts path); ok (render ws))

unfoldable pub validate_optional_relative_path : Option Text → Result (Option Text)
validate_optional_relative_path none = ok none
validate_optional_relative_path (some path) = elim (validate_relative_path path) [
  | ok p ↦ ok (some p)
  | invalid e ↦ invalid e
]

-- A component of an accepted path: a name without a null byte, and then one that is not `..`.
abbrev pub IsPlain : Text → Type 0
IsPlain w = IsName w × (has_char 0 w ≡ false)

abbrev pub IsNormal : Text → Type 0
IsNormal w = IsPlain w × (is_dotdot w ≡ false)

drop_last-All : (P : Text → Type 0) (ws : List Text) → All P ws → All P (drop_last ws)
drop_last-All P [] h = tt
drop_last-All P (w ∷ []) h = tt
drop_last-All P (w ∷ v ∷ ws) h = (h.0, drop_last-All P (v ∷ ws) h.1)

step_normal : (out : List Text) (w : Text) → IsNormal w → step out w ≡ ok (out ++ w ∷ [])
unfolding step
step_normal out w h = rw (h.0.0.2, h.1)

-- Names run through the loop unchanged.
pub normalize_normal : (out ws : List Text) → All IsNormal ws → normalize out ws ≡ ok (out ++ ws)
unfolding normalize
normalize_normal out [] h = ap ok (sym (append-nil out))
normalize_normal out (w ∷ ws) h =
    rw (step_normal out w h.0, normalize)
      (normalize_normal (out ++ w ∷ []) ws h.1 ∙ ap ok (append_assoc out (w ∷ []) ws))

step_names :
    (out : List Text) (w : Text) {r : List Text}
    → All IsNormal out
    → IsPlain w
    → step out w ≡ ok r
    → All IsNormal r
unfolding step
step_names out w {r} ho hw e = elim (Bool-cases (is_dotdot w)) [
  | inl up ↦ elim (Bool-cases (is_nil out)) [
    | inl top ↦ absurd (ground arith)
    | inr below ↦
        let same : drop_last out ≡ r = ground arith in rw (← same) (drop_last-All IsNormal out ho)
  ]
  | inr name ↦
      let same : out ++ w ∷ [] ≡ r = ground arith in
      rw (← same) (All-snoc IsNormal out ho (hw, name))
]

pub normalize_names :
    (out ws : List Text) {r : List Text}
    → All IsNormal out
    → All IsPlain ws
    → normalize out ws ≡ ok r
    → All IsNormal r
unfolding normalize
normalize_names out [] {r} ho hw e = let same : out ≡ r = cc in rw (← same) ho
normalize_names out (w ∷ ws) {r} ho hw e =
    let (out', stepped, rest) = >>=-eq-ok (step out w) (λ o. normalize o ws) e in
    normalize_names out' ws (step_names out w ho hw.0 stepped) hw.1 rest
