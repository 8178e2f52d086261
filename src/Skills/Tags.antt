-- ===== src/Skills/Tags.antt =====
-- `SkillLifecycleService._normalize_tags` and `merge_tags`.
use astrbot_shipyard_neo.Base.{Option, none, some, List, [], ◌∷◌, ◌++◌}
use astrbot_shipyard_neo.Path.Split.{Text}
use astrbot_shipyard_neo.Texts.{parts_of, join_commas, sorted_set}

-- `",".join(sorted(set(parts)))`, and `None` for no parts
abbrev joined : List Text → Option Text
joined [] = none
joined (w ∷ ws) = some (join_commas (sorted_set (w ∷ ws)))

unfoldable pub normalize_tags : Option Text → Option Text
normalize_tags none = none
normalize_tags (some tags) = joined (parts_of tags)

abbrev all_parts : List (Option Text) → List Text
all_parts [] = []
all_parts (none ∷ tags) = all_parts tags
all_parts (some t ∷ tags) = parts_of t ++ all_parts tags

unfoldable pub merge_tags : List (Option Text) → Option Text
merge_tags tags = joined (all_parts tags)
