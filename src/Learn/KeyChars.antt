-- ===== src/Learn/KeyChars.antt =====
-- What the name of a scenario looks like.
use astrbot_shipyard_neo.Base.{
  ℕ, zero, suc, ◌≤◌, ◌≡◌, refl, Bool, true, false, not, Option, none, some, [], ◌∷◌, ◌++◌, ◌==◌,
  ◌&&◌, leb, if◌then◌else◌, length, All, arith, Bool-cases, inl, inr,
}
use astrbot_shipyard_neo.Path.Split.{Text}
use astrbot_shipyard_neo.Texts.{is_space, strip, lstrip, rstrip, add_front, take, lower, lower_char}
use astrbot_shipyard_neo.Skills.History.{ExecutionHistory}
use astrbot_shipyard_neo.Learn.Keys.{
  is_name_char, is_dash, replace_gaps, scenario_name, cut_name, scenario_of, derive_scenario_key,
}

-- A lower-case letter, a digit, a point, an underscore or a dash.
abbrev pub is_key_char : ℕ → Bool
is_key_char c = is_name_char c && not (leb b'A' c && leb c b'Z')

abbrev IsLower : ℕ → Type 0
IsLower c = (leb b'A' c && leb c b'Z') ≡ false

abbrev IsKeyChar : ℕ → Type 0
IsKeyChar c = is_key_char c ≡ true

lower_char-IsLower : (c : ℕ) (cs : Text) → All IsLower cs → All IsLower (lower_char c ++ cs)
lower_char-IsLower c cs h = elim (Bool-cases (leb b'A' c && leb c b'Z')) [
  | inl up ↦ rw up (ground arith, h)
  | inr low ↦ rw low (other c cs low h)
]
  where
    dotted :
        (c : ℕ) (cs : Text)
        → IsLower c
        → All IsLower cs
        → All IsLower ((if c == 0x130 then b'i' ∷ 0x307 ∷ [] else c ∷ []) ++ cs)
    dotted c cs low h = elim (Bool-cases (c == 0x130)) [
      | inl e ↦ rw e (refl, (refl, h))
      | inr e ↦ rw e (low, h)
    ]

    other :
        (c : ℕ) (cs : Text)
        → IsLower c
        → All IsLower cs
        → All IsLower (
            (if c == 0x212A then b'k' ∷ [] else if c == 0x130 then b'i' ∷ 0x307 ∷ [] else c ∷ [])
            ++ cs)
    other c cs low h = elim (Bool-cases (c == 0x212A)) [
      | inl e ↦ rw e (refl, h)
      | inr e ↦ rw e (dotted c cs low h)
    ]

lower-IsLower : (cs : Text) → All IsLower (lower cs)
unfolding lower
lower-IsLower [] = tt
lower-IsLower (c ∷ cs) = lower_char-IsLower c (lower cs) (lower-IsLower cs)

replace_gaps-IsKeyChar :
    (gap : Bool) (cs : Text) → All IsLower cs → All IsKeyChar (replace_gaps gap cs)
unfolding replace_gaps
replace_gaps-IsKeyChar gap [] h = tt
replace_gaps-IsKeyChar gap (c ∷ cs) h = elim (Bool-cases (is_name_char c)) [
  | inl name ↦ rw name (rw (name, h.0) refl, replace_gaps-IsKeyChar false cs h.1)
  | inr other ↦ rw other (gap_char gap (replace_gaps true cs) (replace_gaps-IsKeyChar true cs h.1))
]
  where
    gap_char :
        (gap : Bool) (rest : Text)
        → All IsKeyChar rest
        → All IsKeyChar (if gap then rest else b'-' ∷ rest)
    gap_char true rest k = k
    gap_char false rest k = (refl, k)

module _ (P : ℕ → Type 0) (test : ℕ → Bool) where
  All-lstrip : (cs : Text) → All P cs → All P (lstrip test cs)
  unfolding lstrip
  All-lstrip [] h = tt
  All-lstrip (c ∷ cs) h = elim (Bool-cases (test c)) [
    | inl e ↦ rw e (All-lstrip cs h.1)
    | inr e ↦ rw e h
  ]

  add_front-All : (c : ℕ) (ds : Text) → P c → All P ds → All P (add_front test c ds)
  add_front-All c [] p h = elim (Bool-cases (test c)) [ inl e ↦ rw e tt | inr e ↦ rw e (p, tt) ]
  add_front-All c (d ∷ ds) p h = (p, h)

  All-rstrip : (cs : Text) → All P cs → All P (rstrip test cs)
  unfolding rstrip
  All-rstrip [] h = tt
  All-rstrip (c ∷ cs) h = add_front-All c (rstrip test cs) h.0 (All-rstrip cs h.1)

All-take : (P : ℕ → Type 0) (n : ℕ) (cs : Text) → All P cs → All P (take n cs)
unfolding take
All-take P zero cs h = tt
All-take P (suc n) [] h = tt
All-take P (suc n) (c ∷ cs) h = (h.0, All-take P n cs h.1)

length-take : (n : ℕ) (cs : Text) → length (take n cs) ≤ n
unfolding take
length-take zero cs = omega arith
length-take (suc n) [] = omega arith
length-take (suc n) (c ∷ cs) = omega (arith, length-take n cs)

-- A text that does not begin with a dash.
abbrev pub NoDash : Text → Type 0
NoDash [] = Unit
NoDash (c ∷ cs) = (c == b'-') ≡ false

lstrip-NoDash : (cs : Text) → NoDash (lstrip is_dash cs)
unfolding lstrip
lstrip-NoDash [] = tt
lstrip-NoDash (c ∷ cs) = elim (Bool-cases (is_dash c)) [
  | inl e ↦ rw e (lstrip-NoDash cs)
  | inr e ↦ rw e e
]

rstrip-NoDash : (cs : Text) → NoDash cs → NoDash (rstrip is_dash cs)
unfolding rstrip
rstrip-NoDash [] h = tt
rstrip-NoDash (c ∷ cs) h = front (rstrip is_dash cs)
  where
    front : (ds : Text) → NoDash (add_front is_dash c ds)
    front [] = elim (Bool-cases (is_dash c)) [ inl e ↦ rw e tt | inr e ↦ rw e e ]
    front (d ∷ ds) = h

name-IsKeyChar : (description : Text) → All IsKeyChar (scenario_name description)
unfolding scenario_name
name-IsKeyChar description =
    let low : Text = lower (strip is_space description) in
    All-rstrip IsKeyChar is_dash (lstrip is_dash (replace_gaps false low)) (
      All-lstrip IsKeyChar is_dash (replace_gaps false low)
        (replace_gaps-IsKeyChar false low (lower-IsLower (strip is_space description))))

name-NoDash : (description : Text) → NoDash (scenario_name description)
unfolding scenario_name
name-NoDash description =
    let gaps : Text = replace_gaps false (lower (strip is_space description)) in
    rstrip-NoDash (lstrip is_dash gaps) (lstrip-NoDash gaps)

-- A name of 1 to 64 characters, each a lower-case letter, a digit, a point, an underscore or a dash, the
-- first no dash.
pub record IsKey (key : Text) : Type 0 where
  pub some_char : 1 ≤ length key
  pub short : length key ≤ 64
  pub chars : All IsKeyChar key
  pub no_dash : NoDash key

cut_name-IsKey :
    (name key : Text) → All IsKeyChar name → NoDash name → cut_name name ≡ some key → IsKey key
unfolding take
cut_name-IsKey [] key h d e = cc
cut_name-IsKey (c ∷ cs) key h d e =
    let same : take 64 (c ∷ cs) ≡ key = ground arith in
    rw (← same) (record {
      some_char = omega arith;
      short = length-take 64 (c ∷ cs);
      chars = All-take IsKeyChar 64 (c ∷ cs) h;
      no_dash = d;
    })

scenario-IsKey :
    (description : Option Text) (key : Text) → scenario_of description ≡ some key → IsKey key
scenario-IsKey none key e = cc
scenario-IsKey (some []) key e = cc
scenario-IsKey (some (c ∷ cs)) key e =
    cut_name-IsKey (scenario_name (c ∷ cs)) key (name-IsKeyChar (c ∷ cs)) (name-NoDash (c ∷ cs)) e

-- A scenario key has 1 to 64 characters, each of them a lower-case letter, a digit, a point, an
-- underscore or a dash, and does not begin with a dash.
pub derive_scenario_key-IsKey :
    (entry : ExecutionHistory) (key : Text) → derive_scenario_key entry ≡ some key → IsKey key
unfolding derive_scenario_key
derive_scenario_key-IsKey entry key e = scenario-IsKey entry.description key e
