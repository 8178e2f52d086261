-- ===== src/Learn/Keys.antt =====
-- The names of a learned skill: `_derive_skill_key` and `_derive_scenario_key`.
use astrbot_shipyard_neo.Base.{
  ℕ, Bool, true, false, Option, none, some, List, [], ◌∷◌, ◌++◌, ◌==◌, ◌||◌, ◌&&◌, leb, ltb,
  if◌then◌else◌, length,
}
use astrbot_shipyard_neo.Path.Split.{Text}
use astrbot_shipyard_neo.Texts.{codes, is_space, strip, lower, starts_with, drop, take, parts_of}
use astrbot_shipyard_neo.Skills.History.{ExecutionHistory}

abbrev skill_prefix : Text
skill_prefix = codes "skill:"

abbrev is_skill_tag : Text → Bool
is_skill_tag tag = starts_with skill_prefix tag && ltb (length skill_prefix) (length tag)

abbrev skill_of_tags : List Text → Text → Text
skill_of_tags [] otherwise = otherwise
skill_of_tags (tag ∷ tags) otherwise =
    if is_skill_tag tag then drop (length skill_prefix) tag else skill_of_tags tags otherwise

-- `x or ""`
abbrev or_empty : Option Text → Text
or_empty none = []
or_empty (some t) = t

-- The sandbox's id is the text that its number stands for.
unfoldable pub derive_skill_key : (ℕ → Text) → ExecutionHistory → Text
unfolding starts_with drop parts_of
derive_skill_key id_text entry =
    skill_of_tags (parts_of (or_empty entry.tags)) (codes "browser-" ++ id_text entry.sandbox_id)

-- The characters of `[a-zA-Z0-9._-]`
abbrev pub is_name_char : ℕ → Bool
is_name_char c =
    (leb b'a' c && leb c b'z')
    || ((leb b'A' c && leb c b'Z')
        || ((leb b'0' c && leb c b'9') || ((c == b'.') || ((c == b'_') || (c == b'-')))))

-- `re.sub(r"[^a-zA-Z0-9._-]+", "-", text)`: `gap` says that the last character was replaced.
unfoldable pub replace_gaps : Bool → Text → Text
replace_gaps gap [] = []
replace_gaps gap (c ∷ cs) =
    let kept = c ∷ replace_gaps false cs in
    let rest = replace_gaps true cs in
    if is_name_char c then kept else if gap then rest else b'-' ∷ rest

abbrev pub is_dash : ℕ → Bool
is_dash c = c == b'-'

unfoldable pub scenario_name : Text → Text
unfolding strip is_space lower replace_gaps
scenario_name description = strip is_dash (replace_gaps false (lower (strip is_space description)))

abbrev pub cut_name : Text → Option Text
cut_name [] = none
cut_name (c ∷ cs) = some (take 64 (c ∷ cs))

-- An empty description has no name.
abbrev pub scenario_of : Option Text → Option Text
scenario_of none = none
scenario_of (some []) = none
scenario_of (some (c ∷ cs)) = cut_name (scenario_name (c ∷ cs))

unfoldable pub derive_scenario_key : ExecutionHistory → Option Text
unfolding scenario_name take
derive_scenario_key entry = scenario_of entry.description
