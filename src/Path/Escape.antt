-- ===== src/Path/Escape.antt =====
-- An accepted path stays inside the workspace, against a walk through a directory tree, and the
-- rejection of the others against a count of the depth.
use astrbot_shipyard_neo.Base.{
  ℕ, ◌+◌, ◌-◌, ◌≡◌, refl, sym, ◌∙◌, ap, Bool, true, false, List, [], ◌∷◌, ◌++◌, ◌==◌, arith,
  Bool-cases, inl, inr, if◌then◌else◌, length, length-append, append_assoc, append-nil, Option,
  none, some, ◌⊎◌,
}
use astrbot_shipyard_neo.Path.Split.{
  Text, is_empty, is_dot, is_dotdot, has_char, parts, is_absolute,
}
use astrbot_shipyard_neo.Path.Normal.{
  Result, ok, invalid, Reason, >>=-eq-ok, drop_last, is_nil, step, normalize, render,
  validate_relative_path,
}
use astrbot_shipyard_neo.Path.Stable.{validate-inv, normalize-render}

-- Entering a component from a directory, the path of its names from the root: `.` stays, and `..`
-- goes up one directory, or stays at the root.
abbrev pub enter : List Text → Text → List Text
enter dir w = if is_dot w then dir else if is_dotdot w then drop_last dir else dir ++ w ∷ []

unfoldable pub walk : List Text → List Text → List Text
walk dir [] = dir
walk dir (w ∷ ws) = walk (enter dir w) ws

pub walk-append : (dir xs ys : List Text) → walk dir (xs ++ ys) ≡ walk (walk dir xs) ys
unfolding walk
walk-append dir [] ys = refl
walk-append dir (w ∷ ws) ys = walk-append (enter dir w) ws ys

drop_last-append :
    (dir out : List Text) → is_nil out ≡ false → drop_last (dir ++ out) ≡ dir ++ drop_last out
drop_last-append [] out h = refl
drop_last-append (d ∷ []) [] h = cc
drop_last-append (d ∷ []) (o ∷ out) h = refl
drop_last-append (d ∷ e ∷ dir) out h = ap (◌∷◌ d) (drop_last-append (e ∷ dir) out h)

enter-step :
    (dir out : List Text) (w : Text) {out' : List Text}
    → step out w ≡ ok out'
    → enter (dir ++ out) w ≡ dir ++ out'
unfolding step
enter-step dir out w {out'} e = elim (Bool-cases (is_dot w)) [
  | inl d ↦ let same : out ≡ out' = ground arith in rw (d, same) refl
  | inr d ↦ elim (Bool-cases (is_dotdot w)) [
    | inl u ↦ elim (Bool-cases (is_nil out)) [
      | inl top ↦ absurd (ground arith)
      | inr below ↦
          let same : drop_last out ≡ out' = ground arith in
          rw (d, u) (drop_last-append dir out below ∙ ap (λ o. dir ++ o) same)
    ]
    | inr n ↦
        let same : out ++ w ∷ [] ≡ out' = ground arith in
        rw (d, n) (append_assoc dir out (w ∷ []) ∙ ap (λ o. dir ++ o) same)
  ]
]

walk-normalize :
    (dir out ws : List Text) {r : List Text}
    → normalize out ws ≡ ok r
    → walk (dir ++ out) ws ≡ dir ++ r
unfolding walk normalize
walk-normalize dir out [] {r} e = let same : out ≡ r = cc in rw same refl
walk-normalize dir out (w ∷ ws) e =
    let (out', stepped, rest) = >>=-eq-ok (step out w) (λ o. normalize o ws) e in
    rw (enter-step dir out w stepped) (walk-normalize dir out' ws rest)

-- Wherever the workspace lies, an accepted path leads to a place below it, and the returned path
-- leads to the same place.
pub validate_stays_inside :
    (path : Text) {out : Text}
    → validate_relative_path path ≡ ok out
    → (names : List Text) × ((dir : List Text)
        → (walk dir (parts path) ≡ dir ++ names) × (walk dir (parts out) ≡ dir ++ names))
validate_stays_inside path e =
    let (ws, normal, looped, shown) = validate-inv path e in
    (
      ws,
      λ dir. (
        inside dir (parts path) ws looped,
        rw shown (inside dir (parts (render ws)) ws (normalize-render ws normal)),
      ),
    )
  where
    inside : (dir names ws : List Text) → normalize [] names ≡ ok ws → walk dir names ≡ dir ++ ws
    inside dir names ws h =
        ap (λ d. walk d names) (sym (append-nil dir)) ∙ walk-normalize dir [] names h

-- The depth below the workspace after a component: `none` when a `..` leads above it.
abbrev next_depth : ℕ → Text → Option ℕ
next_depth d w =
    if is_dot w
    then some d
    else if is_dotdot w
    then (if d == 0 then none else some (d - 1))
    else some (d + 1)

-- Some component leads above the workspace.
pub climbs : ℕ → List Text → Bool
climbs d [] = false
climbs d (w ∷ ws) = elim (next_depth d w) [ none ↦ true | some d' ↦ climbs d' ws ]

length-drop_last : (ws : List Text) → length (drop_last ws) ≡ length ws - 1
length-drop_last [] = omega arith
length-drop_last (w ∷ []) = omega arith
length-drop_last (w ∷ v ∷ ws) = omega (arith, length-drop_last (v ∷ ws))

step-next_depth :
    (out : List Text) (w : Text)
    → ((step out w ≡ invalid Reason.path_traversal) × (next_depth (length out) w ≡ none))
      ⊎ ((out' : List Text) × (step out w ≡ ok out')
          × (next_depth (length out) w ≡ some (length out')))
unfolding step
step-next_depth out w = elim (Bool-cases (is_dot w)) [
  | inl d ↦ inr (out, rw d, rw d)
  | inr d ↦ elim (Bool-cases (is_dotdot w)) [
    | inl u ↦ up out d u
    | inr n ↦ inr (out ++ w ∷ [], rw (d, n), rw (d, n, length-append out (w ∷ [])) (ground arith))
  ]
]
  where
    up :
        (o : List Text)
        → is_dot w ≡ false
        → is_dotdot w ≡ true
        → ((step o w ≡ invalid Reason.path_traversal) × (next_depth (length o) w ≡ none))
          ⊎ ((out' : List Text) × (step o w ≡ ok out')
              × (next_depth (length o) w ≡ some (length out')))
    up [] d u = inl (rw (d, u), rw (d, u) refl)
    up (x ∷ o) d u =
        inr (drop_last (x ∷ o), rw (d, u), rw (d, u, length-drop_last (x ∷ o)) (ground arith))

normalize-climbs :
    (out ws : List Text)
    → ((normalize out ws ≡ invalid Reason.path_traversal) × (climbs (length out) ws ≡ true))
      ⊎ ((r : List Text) × (normalize out ws ≡ ok r) × (climbs (length out) ws ≡ false))
unfolding normalize climbs
normalize-climbs out [] = inr (out, refl, refl)
normalize-climbs out (w ∷ ws) = elim (step-next_depth out w) [
  | inl (above, depth) ↦ inl (rw above, rw (depth, climbs))
  | inr (out', stepped, depth) ↦ elim (normalize-climbs out' ws) [
    | inl (bad, up) ↦ inl (rw stepped bad, rw (depth, climbs) up)
    | inr (r, good, stay) ↦ inr (r, rw stepped good, rw (depth, climbs) stay)
  ]
]

-- Why a path is refused, if it is: the first of the four rules that it breaks.
pub broken_rule : Text → Option Reason
broken_rule path =
    if is_empty path
    then some Reason.empty_path
    else if has_char 0 path
    then some Reason.null_byte
    else if is_absolute path
    then some Reason.absolute_path
    else if climbs 0 (parts path)
    then some Reason.path_traversal
    else none

abbrev pub reason_of : {A : Type 0} → Result A → Option Reason
reason_of (ok a) = none
reason_of (invalid e) = some e

-- The validator refuses a path for the first of the four rules that the path breaks (it is empty,
-- it has a null byte, it is absolute, a `..` leads above the workspace), and accepts every other.
pub validate_outcome : (path : Text) → reason_of (validate_relative_path path) ≡ broken_rule path
unfolding validate_relative_path broken_rule
validate_outcome path = elim (normalize-climbs [] (parts path)) [
  | inl (bad, up) ↦ rw (bad, up) (ground arith)
  | inr (ws, good, stay) ↦ rw (good, stay) (ground arith)
]
