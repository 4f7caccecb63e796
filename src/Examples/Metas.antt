-- ===== src/Examples/Metas.antt =====
-- The theorems about exported metadata on small inputs.
use python_tty.Prelude.{◌≡◌, refl, true, none, some, [], ◌∷◌, if◌then◌else◌, all}
use python_tty.Prelude.Dict.{get}
use python_tty.Prelude.Sorting.{swap, sort, is_sorted}
use python_tty.Prelude.Texts.{text_le}
use python_tty.Consoles.Tree.{
  build_console_tree, children_of, is_known, build_console_tree-children,
}
use python_tty.Meta.{by_id, export_commands}
use python_tty.Meta.Exported.{runs, export_commands-runs}
use python_tty.Meta.Order.{export_commands-same}
use python_tty.Examples.Lines.{no_parameters}
use python_tty.Examples.Registry.{registry}
use python_tty.Examples.Sessions.{help, quit}

build_console_tree-children_example :
    get "root" (build_console_tree "root" registry.subs).children ≡ (
      if is_known "root" "root" registry.subs
      then some (sort text_le (children_of "root" registry.subs))
      else none)
build_console_tree-children_example = build_console_tree-children "root" "root" registry.subs

export_commands-runs_example :
    all
      (runs no_parameters "root" (quit ∷ help ∷ []))
      (export_commands no_parameters "root" (quit ∷ help ∷ []))
    ≡ true
export_commands-runs_example = export_commands-runs no_parameters "root" (quit ∷ help ∷ [])

export_commands-same_example :
    (is_sorted by_id (export_commands no_parameters "root" (quit ∷ help ∷ [])) ≡ true)
    × (export_commands no_parameters "root" (quit ∷ help ∷ [])
        ≡ export_commands no_parameters "root" (help ∷ quit ∷ []))
export_commands-same_example =
    export_commands-same no_parameters "root" (quit ∷ help ∷ []) (help ∷ quit ∷ []) (swap quit help)
      refl
