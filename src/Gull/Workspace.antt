-- ===== src/Gull/Workspace.antt =====
-- The workspace's paths in shared mode: what the translation reaches, and what it lets through.
use astrbot_shipyard_neo.Base.{
  ℕ, ◌≡◌, refl, sym, ap, ◌∙◌, true, false, Option, none, List, [], ◌∷◌, ◌++◌,
}
use astrbot_shipyard_neo.World.Runtime.{Error, raise}
use astrbot_shipyard_neo.Path.Split.{Text, has_char, parts, join, parts-join, parts-append}
use astrbot_shipyard_neo.Path.Normal.{ok, validate_relative_path}
use astrbot_shipyard_neo.Path.Escape.{walk, walk-append, validate_stays_inside}
use astrbot_shipyard_neo.Texts.{codes}
use astrbot_shipyard_neo.Gull.Command.{cargo_path_of, translate_arg, normalize_browser_command}
use astrbot_shipyard_neo.Gull.Exec.{
  Machine, Settings, Process, run_agent_browser, ensure_browser_ready, exec_command, shared_id,
}

-- For a path below `/workspace` that the validator of relative paths accepts, and any cargo id: from the
-- root, the translated argument leads below the directory of the sandbox's own cargo, to the names that
-- the relative path leads to below every directory.
pub translate_arg-inside :
    (cargo_id path : Text) {out : Text}
    → validate_relative_path path ≡ ok out
    → (names : List Text) × (walk []
          (parts (translate_arg (cargo_path_of cargo_id) (codes "/workspace/" ++ path)))
        ≡ walk [] (parts (cargo_path_of cargo_id)) ++ names)
      × ((dir : List Text) → walk dir (parts path) ≡ dir ++ names)
unfolding translate_arg
translate_arg-inside cargo_id path e =
    let (names, leads) = validate_stays_inside path e in
    let own : List Text = parts (cargo_path_of cargo_id) in
    (
      names,
      ap (walk []) (parts-append (cargo_path_of cargo_id) path)
          ∙ walk-append [] own (parts path)
          ∙ (leads (walk [] own)).0,
      λ dir. (leads dir).0,
    )

-- The path of a directory beside the sandbox's own cargo.
abbrev pub sibling : Text → Text
sibling other_id = codes "/workspace/../bay-cargo-" ++ other_id

escaped-parts :
    (cargo_id other_id : Text)
    → has_char b'/' cargo_id ≡ false
    → has_char b'/' other_id ≡ false
    → parts (translate_arg (cargo_path_of cargo_id) (sibling other_id))
      ≡ codes "cargos"
        ∷ (codes "bay-cargo-" ++ cargo_id)
        ∷ codes ".."
        ∷ (codes "bay-cargo-" ++ other_id)
        ∷ []
unfolding translate_arg parts join
escaped-parts cargo_id other_id own other =
    parts-join (codes "cargos")
      ((codes "bay-cargo-" ++ cargo_id) ∷ codes ".." ∷ (codes "bay-cargo-" ++ other_id) ∷ [])
      ((refl, refl, refl), ((own, refl, refl), ((refl, refl, refl), ((other, refl, refl), tt))))

own-parts :
    (cargo_id : Text)
    → has_char b'/' cargo_id ≡ false
    → parts (cargo_path_of cargo_id) ≡ codes "cargos" ∷ (codes "bay-cargo-" ++ cargo_id) ∷ []
unfolding parts join
own-parts cargo_id own =
    parts-join (codes "cargos") ((codes "bay-cargo-" ++ cargo_id) ∷ [])
      ((refl, refl, refl), ((own, refl, refl), tt))

-- For cargo ids without a slash: the argument `/workspace/../bay-cargo-<other>` is translated to a path
-- that leads, from the root, to the other cargo's directory.
pub translate_arg-escapes :
    (cargo_id other_id : Text)
    → has_char b'/' cargo_id ≡ false
    → has_char b'/' other_id ≡ false
    → walk [] (parts (translate_arg (cargo_path_of cargo_id) (sibling other_id)))
      ≡ walk [] (parts (cargo_path_of other_id))
unfolding walk
translate_arg-escapes cargo_id other_id own other =
    ap (walk []) (escaped-parts cargo_id other_id own other)
    ∙ ap (walk []) (sym (own-parts other_id other))

module _ (m : Machine) (c : Settings) (cmd : Text) (unsplit : c.shlex.split cmd ≡ none)
    (p : Process m.Outside) where
  -- In single mode (or without a sandbox), with the browser ready, a command that `shlex` cannot split
  -- is answered by an exception, whatever the machine does.
  pub exec_command-raises :
      (sandbox_id cargo_id : Option Text) (timeout : ℕ)
      → shared_id m c sandbox_id ≡ none
      → p.browser_ready ≡ true
      → (exec_command m c sandbox_id cargo_id cmd timeout p).0 ≡ raise Error.value
  unfolding exec_command ensure_browser_ready run_agent_browser normalize_browser_command
  exec_command-raises sandbox_id cargo_id timeout single ready =
      rw (single, ready, unsplit, unsplit) refl
