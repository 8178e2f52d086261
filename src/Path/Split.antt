-- ===== src/Path/Split.antt =====
-- Splitting a path at its slashes and joining it again, as `PurePosixPath` and `"/".join` do.
use astrbot_shipyard_neo.Base.{
  ℕ, ◌≡◌, refl, ◌∙◌, ap, Bool, true, false, List, [], ◌∷◌, ◌++◌, ◌==◌, ◌||◌, ◌&&◌, if◌then◌else◌,
  arith, All, Bool-cases, inl, inr,
}

abbrev pub Text : Type 0
Text = List ℕ

abbrev pub slash : ℕ
slash = b'/'

abbrev pub dot : Text
dot = b'.' ∷ []

abbrev pub dotdot : Text
dotdot = b'.' ∷ b'.' ∷ []

abbrev pub is_empty : Text → Bool
is_empty [] = true
is_empty (c ∷ cs) = false

-- `part == "."` and `part == ".."`
abbrev pub is_dot : Text → Bool
is_dot (c ∷ []) = c == b'.'
is_dot _ = false

abbrev pub is_dotdot : Text → Bool
is_dotdot (c ∷ d ∷ []) = (c == b'.') && (d == b'.')
is_dotdot _ = false

-- `c in text`
abbrev pub has_char : ℕ → Text → Bool
has_char c [] = false
has_char c (d ∷ ds) = (d == c) || has_char c ds

abbrev grow : ℕ → List Text → List Text
grow c [] = (c ∷ []) ∷ []
grow c (w ∷ ws) = (c ∷ w) ∷ ws

-- `text.split("/")`
pub split : Text → List Text
split [] = [] ∷ []
split (c ∷ cs) = if c == slash then [] ∷ split cs else grow c (split cs)

-- Components that `PurePosixPath` drops.
abbrev keep : Text → List Text → List Text
keep w ws = if is_empty w || is_dot w then ws else w ∷ ws

abbrev pub clean : List Text → List Text
clean [] = []
clean (w ∷ ws) = keep w (clean ws)

-- `PurePosixPath(path).parts` of a relative path.
unfoldable pub parts : Text → List Text
unfolding split
parts path = clean (split path)

-- `PurePosixPath(path).is_absolute()`
abbrev pub is_absolute : Text → Bool
is_absolute [] = false
is_absolute (c ∷ cs) = c == slash

-- `"/".join(parts)`
unfoldable pub join : List Text → Text
join [] = []
join (w ∷ []) = w
join (w ∷ v ∷ ws) = w ++ slash ∷ join (v ∷ ws)

-- A component that splitting leaves alone.
abbrev pub IsName : Text → Type 0
IsName w = (has_char slash w ≡ false) × (is_empty w ≡ false) × (is_dot w ≡ false)

split-cons_of_ne :
    (w : Text) (rest : Text) → has_char slash w ≡ false → split (w ++ slash ∷ rest) ≡ w ∷ split rest
unfolding split
split-cons_of_ne [] rest h = refl
split-cons_of_ne (c ∷ w) rest h = elim (Bool-cases (c == slash)) [
  | inl e ↦ absurd (ground arith)
  | inr e ↦ rw (e, split-cons_of_ne w rest (ground arith))
]

split_one : (w : Text) → has_char slash w ≡ false → split w ≡ w ∷ []
unfolding split
split_one [] h = refl
split_one (c ∷ w) h = elim (Bool-cases (c == slash)) [
  | inl e ↦ absurd (ground arith)
  | inr e ↦ rw (e, split_one w (ground arith))
]

keep_name : (w : Text) (ws : List Text) → IsName w → keep w ws ≡ w ∷ ws
keep_name w ws h = rw (h.1, h.2)

-- Joining names and splitting again gives the same names.
pub parts-join : (w : Text) (ws : List Text) → All IsName (w ∷ ws) → parts (join (w ∷ ws)) ≡ w ∷ ws
unfolding parts join
parts-join w [] h = rw (split_one w h.0.0) (keep_name w [] h.0)
parts-join w (v ∷ ws) h =
    rw (split-cons_of_ne w (join (v ∷ ws)) h.0.0)
      (keep_name w _ h.0 ∙ ap (◌∷◌ w) (parts-join v ws h.1))

split_some : (path : Text) → (w : Text) × (ws : List Text) × (split path ≡ w ∷ ws)
unfolding split
split_some [] = ([], [], refl)
split_some (c ∷ cs) = elim (Bool-cases (c == slash)) [
  | inl e ↦ ([], split cs, rw e refl)
  | inr e ↦ let (w, ws, same) = split_some cs in (c ∷ w, ws, rw (e, same) refl)
]

split-append : (xs ys : Text) → split (xs ++ slash ∷ ys) ≡ split xs ++ split ys
unfolding split
split-append [] ys = refl
split-append (c ∷ cs) ys = elim (Bool-cases (c == slash)) [
  | inl e ↦ rw e (ap (◌∷◌ []) (split-append cs ys))
  | inr e ↦ let (w, ws, same) = split_some cs in rw (e, split-append cs ys, same) refl
]

clean-append : (xs ys : List Text) → clean (xs ++ ys) ≡ clean xs ++ clean ys
clean-append [] ys = refl
clean-append (w ∷ xs) ys = elim (Bool-cases (is_empty w || is_dot w)) [
  | inl e ↦ rw e (clean-append xs ys)
  | inr e ↦ rw e (ap (◌∷◌ w) (clean-append xs ys))
]

-- The components of a path below another.
pub parts-append : (xs ys : Text) → parts (xs ++ slash ∷ ys) ≡ parts xs ++ parts ys
unfolding parts
parts-append xs ys = ap clean (split-append xs ys) ∙ clean-append (split xs) (split ys)

-- What `parts` leaves are names.
-- A character that the path lacks is in none of its components.
lacks_split :
    (k : ℕ) (path : Text) → has_char k path ≡ false → All (λ w. has_char k w ≡ false) (split path)
unfolding split
lacks_split k [] h = (refl, tt)
lacks_split k (c ∷ cs) h = elim (Bool-cases (c == slash)) [
  | inl e ↦ rw e (refl, lacks_split k cs (ground arith))
  | inr e ↦ rw e (lacks_grow (split cs) (lacks_split k cs (ground arith)))
]
  where
    lacks_grow :
        (ws : List Text)
        → All (λ w. has_char k w ≡ false) ws
        → All (λ w. has_char k w ≡ false) (grow c ws)
    lacks_grow [] a = (ground arith, tt)
    lacks_grow (w ∷ ws) a = (ground arith, a.1)

lacks_clean :
    (k : ℕ) (ws : List Text)
    → All (λ w. has_char k w ≡ false) ws
    → All (λ w. has_char k w ≡ false) (clean ws)
lacks_clean k [] h = tt
lacks_clean k (w ∷ ws) h = elim (Bool-cases (is_empty w || is_dot w)) [
  | inl e ↦ rw e (lacks_clean k ws h.1)
  | inr e ↦ rw e (h.0, lacks_clean k ws h.1)
]

pub lacks_parts :
    (k : ℕ) (path : Text) → has_char k path ≡ false → All (λ w. has_char k w ≡ false) (parts path)
unfolding parts
lacks_parts k path h = lacks_clean k (split path) (lacks_split k path h)

has_char-append :
    (k : ℕ) (xs ys : Text)
    → has_char k xs ≡ false
    → has_char k ys ≡ false
    → has_char k (xs ++ ys) ≡ false
has_char-append k [] ys hx hy = hy
has_char-append k (x ∷ xs) ys hx hy = ground (arith, has_char-append k xs ys)

-- ... and the path joined from components that lack it lacks it, unless it is the slash.
pub lacks_join :
    (k : ℕ) (ws : List Text)
    → (slash == k) ≡ false
    → All (λ w. has_char k w ≡ false) ws
    → has_char k (join ws) ≡ false
unfolding join
lacks_join k [] ne h = refl
lacks_join k (w ∷ []) ne h = h.0
lacks_join k (w ∷ v ∷ ws) ne h =
    has_char-append k w (slash ∷ join (v ∷ ws)) h.0 (rw ne (lacks_join k (v ∷ ws) ne h.1))

-- A path that begins with a name is neither empty nor absolute.
pub join_start :
    (w : Text) (ws : List Text)
    → IsName w
    → (is_empty (join (w ∷ ws)) ≡ false) × (is_absolute (join (w ∷ ws)) ≡ false)
unfolding join
join_start [] ws h = absurd (ground arith)
join_start (c ∷ w) [] h = (refl, ground arith)
join_start (c ∷ w) (v ∷ ws) h = (refl, ground arith)

IsName-grow :
    (c : ℕ) (ws : List Text)
    → (c == slash) ≡ false
    → All (λ w. has_char slash w ≡ false) ws
    → All (λ w. has_char slash w ≡ false) (grow c ws)
IsName-grow c [] e h = (rw e, tt)
IsName-grow c (w ∷ ws) e h = (rw e h.0, h.1)

split_no_slash : (path : Text) → All (λ w. has_char slash w ≡ false) (split path)
unfolding split
split_no_slash [] = (refl, tt)
split_no_slash (c ∷ cs) = elim (Bool-cases (c == slash)) [
  | inl e ↦ rw e (refl, split_no_slash cs)
  | inr e ↦ rw e (IsName-grow c (split cs) e (split_no_slash cs))
]

clean_names : (ws : List Text) → All (λ w. has_char slash w ≡ false) ws → All IsName (clean ws)
clean_names [] h = tt
clean_names (w ∷ ws) h = elim (Bool-cases (is_empty w || is_dot w)) [
  | inl e ↦ rw e (clean_names ws h.1)
  | inr e ↦ rw e ((h.0, ground arith, ground arith), clean_names ws h.1)
]

pub parts_names : (path : Text) → All IsName (parts path)
unfolding parts
parts_names path = clean_names (split path) (split_no_slash path)
