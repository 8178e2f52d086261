-- ===== src/Texts.antt =====
-- Python's texts as lists of code points: the methods of `str` that the program calls.
use astrbot_shipyard_neo.Base.{
  ℕ, Bool, true, false, List, [], ◌∷◌, ◌++◌, ◌==◌, ◌||◌, ◌&&◌, leb, ltb, if◌then◌else◌, ◌+◌,
}
use Prim.Native.Nat.{zero, suc}
use Prim.Native.Char.{code}
use Prim.Native.String.{String}
use astrbot_shipyard_neo.Path.Split.{Text, is_empty}

-- The code points of a literal.
abbrev pub codes : String → Text
codes String.[] = []
codes (String.◌∷◌ c s) = code c ∷ codes s

-- The characters that `str.strip` removes.
unfoldable pub is_space : ℕ → Bool
is_space c =
    (leb 9 c && leb c 13)
    || ((leb 28 c && leb c 32)
        || ((c == 0x85)
            || ((c == 0xA0)
                || ((c == 0x1680)
                    || ((leb 0x2000 c && leb c 0x200A)
                        || ((leb 0x2028 c && leb c 0x2029)
                            || ((c == 0x202F) || ((c == 0x205F) || (c == 0x3000)))))))))

-- `text.lstrip(chars)`, where `chars` is a test, and `rstrip`, `strip`
unfoldable pub lstrip : (ℕ → Bool) → Text → Text
lstrip drop [] = []
lstrip drop (c ∷ cs) = if drop c then lstrip drop cs else c ∷ cs

abbrev pub add_front : (ℕ → Bool) → ℕ → Text → Text
add_front drop c [] = if drop c then [] else c ∷ []
add_front drop c (d ∷ ds) = c ∷ d ∷ ds

unfoldable pub rstrip : (ℕ → Bool) → Text → Text
rstrip drop [] = []
rstrip drop (c ∷ cs) = add_front drop c (rstrip drop cs)

unfoldable pub strip : (ℕ → Bool) → Text → Text
unfolding lstrip rstrip
strip drop cs = rstrip drop (lstrip drop cs)

-- `text.startswith(prefix)`
unfoldable pub starts_with : Text → Text → Bool
starts_with [] cs = true
starts_with (p ∷ ps) [] = false
starts_with (p ∷ ps) (c ∷ cs) = (p == c) && starts_with ps cs

-- `text[n:]` and `text[:n]`
unfoldable pub drop : ℕ → Text → Text
drop zero cs = cs
drop (suc n) [] = []
drop (suc n) (c ∷ cs) = drop n cs

unfoldable pub take : ℕ → Text → Text
take zero cs = []
take (suc n) [] = []
take (suc n) (c ∷ cs) = c ∷ take n cs

-- `text.lower()`, for the characters whose lower case has an ASCII character: A to Z, the Kelvin sign,
-- and the dotted capital I. The other characters are left as they are.
abbrev pub lower_char : ℕ → Text
lower_char c =
    if leb b'A' c && leb c b'Z'
    then (c + 32) ∷ []
    else if c == 0x212A
    then b'k' ∷ []
    else if c == 0x130
    then b'i' ∷ 0x307 ∷ []
    else c ∷ []

unfoldable pub lower : Text → Text
lower [] = []
lower (c ∷ cs) = lower_char c ++ lower cs

-- `text.split(",")`
abbrev grow : ℕ → List Text → List Text
grow c [] = (c ∷ []) ∷ []
grow c (w ∷ ws) = (c ∷ w) ∷ ws

unfoldable pub split_commas : Text → List Text
split_commas [] = [] ∷ []
split_commas (c ∷ cs) = let rest = split_commas cs in if c == b',' then [] ∷ rest else grow c rest

-- `[part.strip() for part in text.split(",") if part.strip()]`
abbrev add_part : Text → List Text → List Text
add_part part rest = if is_empty part then rest else part ∷ rest

abbrev stripped_parts : List Text → List Text
stripped_parts [] = []
stripped_parts (w ∷ ws) = add_part (strip is_space w) (stripped_parts ws)

unfoldable pub parts_of : Text → List Text
unfolding strip is_space split_commas
parts_of cs = stripped_parts (split_commas cs)

-- `",".join(parts)`
unfoldable pub join_commas : List Text → Text
join_commas [] = []
join_commas (w ∷ []) = w
join_commas (w ∷ v ∷ ws) = w ++ b',' ∷ join_commas (v ∷ ws)

-- The order of `sorted`: by code points.
pub data Order : Type 0 where
  before same after : Order

compare_texts : Text → Text → Order
compare_texts [] [] = Order.same
compare_texts [] (d ∷ ds) = Order.before
compare_texts (c ∷ cs) [] = Order.after
compare_texts (c ∷ cs) (d ∷ ds) =
    if c == d then compare_texts cs ds else if ltb c d then Order.before else Order.after

place : Order → Text → Text → List Text → List Text → List Text
place Order.before t w ws rest = t ∷ w ∷ ws
place Order.same t w ws rest = w ∷ ws
place Order.after t w ws rest = w ∷ rest

insert_text : Text → List Text → List Text
insert_text t [] = t ∷ []
insert_text t (w ∷ ws) = place (compare_texts t w) t w ws (insert_text t ws)

-- `sorted(set(parts))`
unfoldable pub sorted_set : List Text → List Text
unfolding compare_texts place insert_text
sorted_set [] = []
sorted_set (w ∷ ws) = insert_text w (sorted_set ws)
