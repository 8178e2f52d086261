-- ===== src/Path/Stable.antt =====
-- A validated path is in normal form: the validator accepts it and returns it unchanged.
use astrbot_shipyard_neo.Base.{◌≡◌, refl, false, List, [], ◌∷◌, arith, All, Bool-cases, inl, inr}
use astrbot_shipyard_neo.Path.Split.{
  Text, is_empty, is_dotdot, has_char, parts, is_absolute, join, IsName, parts-join, parts_names,
  lacks_parts, lacks_join, join_start,
}
use astrbot_shipyard_neo.Path.Normal.{
  ok, ◌>>=◌, >>=-eq-ok, normalize, render, validate_relative_path, IsPlain, IsNormal,
  normalize_normal, normalize_names,
}

All-zip : (P Q : Text → Type 0) (ws : List Text) → All P ws → All Q ws → All (λ w. P w × Q w) ws
All-zip P Q [] p q = tt
All-zip P Q (w ∷ ws) p q = ((p.0, q.0), All-zip P Q ws p.1 q.1)

All-first-part : (P Q : Text → Type 0) (ws : List Text) → All (λ w. P w × Q w) ws → All P ws
All-first-part P Q [] h = tt
All-first-part P Q (w ∷ ws) h = (h.0.0, All-first-part P Q ws h.1)

All-second-part : (P Q : Text → Type 0) (ws : List Text) → All (λ w. P w × Q w) ws → All Q ws
All-second-part P Q [] h = tt
All-second-part P Q (w ∷ ws) h = (h.0.1, All-second-part P Q ws h.1)

-- What the guards and the loop establish of an accepted path.
pub validate-inv :
    (path : Text) {out : Text}
    → validate_relative_path path ≡ ok out
    → (ws : List Text) × All IsNormal ws × (normalize [] (parts path) ≡ ok ws) × (out ≡ render ws)
unfolding validate_relative_path
validate-inv path {out} e = elim (Bool-cases (is_empty path)) [
  | inl a ↦ absurd (ground arith)
  | inr a ↦ elim (Bool-cases (has_char 0 path)) [
    | inl b ↦ absurd (ground arith)
    | inr b ↦ elim (Bool-cases (is_absolute path)) [
      | inl c ↦ absurd (ground arith)
      | inr c ↦
          let run : (do ws ← normalize [] (parts path); ok (render ws)) ≡ ok out = ground arith in
          let (ws, looped, shown) =
            >>=-eq-ok (normalize [] (parts path)) (λ ws. ok (render ws)) run in
          let plain : All IsPlain (parts path) =
            All-zip IsName (λ w. has_char 0 w ≡ false) (parts path) (parts_names path)
              (lacks_parts 0 path b) in
          (ws, normalize_names [] (parts path) tt plain looped, looped, cc)
    ]
  ]
]

pub normalize-render : (ws : List Text) → All IsNormal ws → normalize [] (parts (render ws)) ≡ ok ws
unfolding parts normalize
normalize-render [] h = refl
normalize-render (w ∷ ws) h =
    let plain : All IsPlain (w ∷ ws) =
      All-first-part IsPlain (λ v. is_dotdot v ≡ false) (w ∷ ws) h in
    let names : All IsName (w ∷ ws) =
      All-first-part IsName (λ v. has_char 0 v ≡ false) (w ∷ ws) plain in
    rw (parts-join w ws names) (normalize_normal [] (w ∷ ws) h)

render-accepted :
    (ws : List Text) → All IsNormal ws → validate_relative_path (render ws) ≡ ok (render ws)
unfolding validate_relative_path parts
render-accepted [] h = refl
render-accepted (w ∷ ws) h =
    let plain : All IsPlain (w ∷ ws) =
      All-first-part IsPlain (λ v. is_dotdot v ≡ false) (w ∷ ws) h in
    let names : All IsName (w ∷ ws) =
      All-first-part IsName (λ v. has_char 0 v ≡ false) (w ∷ ws) plain in
    let clear : has_char 0 (join (w ∷ ws)) ≡ false =
      lacks_join 0 (w ∷ ws) refl
        (All-second-part IsName (λ v. has_char 0 v ≡ false) (w ∷ ws) plain) in
    let (full, relative) = join_start w ws names.0 in
    rw (full, clear, relative, normalize-render (w ∷ ws) h) refl

-- Validating a validated path returns it unchanged.
pub validate-idempotent :
    (path : Text) {out : Text}
    → validate_relative_path path ≡ ok out
    → validate_relative_path out ≡ ok out
validate-idempotent path e =
    let (ws, normal, looped, shown) = validate-inv path e in rw shown (render-accepted ws normal)
