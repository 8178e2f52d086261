-- ===== src/Idempotency/Key.antt =====
-- The format of a key: `re.compile(r"^[a-zA-Z0-9_-]{1,128}$").match`. In Python `$` also matches
-- before a newline that ends the text.
use astrbot_shipyard_neo.Base.{
  ℕ, suc, ◌≡◌, refl, arith, Bool, true, false, [], ◌∷◌, ◌==◌, ◌&&◌, ◌||◌, leb, if◌then◌else◌,
}
use astrbot_shipyard_neo.Path.Split.{Text}

abbrev pub is_key_char : ℕ → Bool
is_key_char c =
    (leb b'a' c && leb c b'z')
    || ((leb b'A' c && leb c b'Z') || ((leb b'0' c && leb c b'9') || ((c == b'_') || (c == b'-'))))

-- Allowed characters up to the end, or up to a last newline.
abbrev pub only_key_chars : Text → Bool
only_key_chars [] = true
only_key_chars (c ∷ []) = is_key_char c || (c == 10)
only_key_chars (c ∷ d ∷ ds) = is_key_char c && only_key_chars (d ∷ ds)

-- The number of characters that the class matches.
abbrev pub key_length : Text → ℕ
key_length [] = 0
key_length (c ∷ cs) = if is_key_char c then suc (key_length cs) else 0

-- `bool(IDEMPOTENCY_KEY_PATTERN.match(key))`
unfoldable pub validate_key : Text → Bool
validate_key key = only_key_chars key && (leb 1 (key_length key) && leb (key_length key) 128)

abbrev pub same_text : Text → Text → Bool
same_text [] [] = true
same_text (c ∷ cs) (d ∷ ds) = (c == d) && same_text cs ds
same_text _ _ = false

pub same_text_refl : (t : Text) → same_text t t ≡ true
same_text_refl [] = refl
same_text_refl (c ∷ cs) = ground (arith, same_text_refl cs)

pub same_text_sound : (t u : Text) → same_text t u ≡ true → t ≡ u
same_text_sound [] [] h = refl
same_text_sound [] (d ∷ ds) h = cc
same_text_sound (c ∷ cs) [] h = cc
same_text_sound (c ∷ cs) (d ∷ ds) h = ground (arith, same_text_sound cs ds)
