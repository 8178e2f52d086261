-- ===== src/Learn/Segments.antt =====
-- The segments of a run that a skill can be made of: `_extract_segments`, `_is_read_only_command` and
-- `_score_segment`. A score is in hundredths.
use astrbot_shipyard_neo.Base.{
  ℕ, ◌+◌, ◌*◌, min, Bool, true, false, not, List, [], ◌∷◌, ◌++◌, ◌==◌, ◌||◌, ◌&&◌, leb,
  if◌then◌else◌, length, ℤ, pos, negsuc,
}
use astrbot_shipyard_neo.Path.Split.{Text, is_empty}
use astrbot_shipyard_neo.Texts.{codes, is_space, strip, lower, starts_with}
use astrbot_shipyard_neo.Learn.Steps.{Step, individual_action}

abbrev read_only_prefixes : List Text
read_only_prefixes =
    codes "snapshot"
    ∷ codes "get "
    ∷ codes "is "
    ∷ codes "wait"
    ∷ codes "cookies"
    ∷ codes "storage"
    ∷ codes "network requests"
    ∷ codes "tab"
    ∷ codes "frame"
    ∷ codes "dialog"
    ∷ []

abbrev any_prefix : List Text → Text → Bool
any_prefix [] cmd = false
any_prefix (p ∷ ps) cmd = starts_with p cmd || any_prefix ps cmd

unfoldable pub is_read_only_command : Text → Bool
unfolding starts_with strip is_space lower
is_read_only_command cmd = any_prefix read_only_prefixes (lower (strip is_space cmd))

abbrev is_zero : ℤ → Bool
is_zero (pos n) = n == 0
is_zero (negsuc n) = false

abbrev same_text : Text → Text → Bool
same_text [] [] = true
same_text (c ∷ cs) (d ∷ ds) = (c == d) && same_text cs ds
same_text _ _ = false

-- The test of the loop, negated: a step that succeeded, changes the page, and is one action.
unfoldable pub is_actionable : Step → Bool
unfolding is_read_only_command
is_actionable s =
    is_zero s.exit_code
    && (not (is_read_only_command s.cmd)
        && (same_text s.kind individual_action && not (is_empty s.cmd)))

-- `if len(current) >= 2: segments.append(current)`
abbrev pub close : List Step → List (List Step) → List (List Step)
close current rest = if leb 2 (length current) then current ∷ rest else rest

-- The loop, with the steps collected so far.
unfoldable pub segments_from : List Step → List Step → List (List Step)
segments_from current [] = close current []
segments_from current (s ∷ ss) =
    let more = segments_from (current ++ s ∷ []) ss in
    let closed = close current (segments_from [] ss) in if is_actionable s then more else closed

unfoldable pub segments_of : List Step → List (List Step)
unfolding segments_from
segments_of steps = segments_from [] steps

pub record Metrics : Type 0 where
  pub score : ℕ
  pub replay_success : ℕ
  pub samples : ℕ

-- `min(0.99, 0.75 + 0.08 * steps)`, in hundredths
unfoldable pub score_segment : List Step → Metrics
score_segment segment = record {
  score = min 99 (75 + 8 * length segment);
  replay_success = if leb 1 (length segment) then 100 else 0;
  samples = length segment * 10;
}
