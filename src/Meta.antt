-- ===== src/Meta.antt =====
-- src/python_tty/meta/__init__.py: the exported metadata of consoles and commands. `signature` gives
-- the parameters of a handler (`inspect.signature`), `members` the commands of a class, `default` is
-- the class DefaultCommands, and `digest` the SHA-256 of the payload's canonical JSON text.
pub mod Exported
pub mod Order
use python_tty.Prelude.{
  ℕ, ◌≡◌, String, Bool, true, not, ◌&&◌, Option, none, some, List, [], ◌∷◌, map, if◌then◌else◌,
  or_else,
}
use python_tty.Prelude.Dict.{Dict}
use python_tty.Prelude.Sorting.{sort}
use python_tty.Prelude.Texts.{text_le}
use python_tty.CommandIds.{build_command_id}
use python_tty.Commands.{ArgSpec, Parameter, CommandDef, from_signature}
use python_tty.Commands.Declaring.{
  CommandRegistry, get_command_defs_for_console, collect_from_commands_cls,
}
use python_tty.Consoles.{ConsoleClass, ConsoleRegistry}
use python_tty.Consoles.Tree.{
  iter_consoles, ConsoleInfo, get_console_map, ConsoleTree, get_console_tree,
}

pub record CommandMeta : Type 0 where
  pub id : String
  pub name : String
  pub aliases : List String
  pub description : String
  pub exposure : Dict Bool
  pub min_args : ℕ
  pub max_args : Option ℕ
  pub variadic : Bool

-- _ConsoleEntry
pub record ConsoleEntry : Type 0 where
  pub name : String
  pub console_cls : ConsoleClass
  pub parent : Option String

pub record ConsoleMeta : Type 0 where
  pub name : String
  pub parent : Option String
  pub class_name : String
  pub module_name : String
  pub commands : List CommandMeta

-- The metadata less the revision.
pub record Payload : Type 0 where
  pub version : ℕ
  pub consoles : List ConsoleMeta
  pub tree : Option ConsoleTree
  pub console_map : Dict ConsoleInfo

pub record Meta : Type 0 where
  pub payload : Payload
  pub revision : String

abbrev pub entry_of : String × ConsoleClass × Option String → ConsoleEntry
entry_of (n, c, p) = record { name = n; console_cls = c; parent = p }

-- _collect_console_entries
unfoldable pub collect_console_entries : ConsoleRegistry → List ConsoleEntry
unfolding iter_consoles
collect_console_entries s = map entry_of (iter_consoles s)

-- The order of the commands, by identifier.
abbrev pub by_id : CommandMeta → CommandMeta → Bool
by_id a b = text_le a.id b.id

-- The order of the consoles, by name.
abbrev pub by_name : ConsoleMeta → ConsoleMeta → Bool
by_name a b = text_le a.name b.name

module _ {Fn : Type 0} (signature : Fn → List Parameter) where
  abbrev pub spec_of : CommandDef Fn → ArgSpec
  spec_of d = or_else d.arg_spec (from_signature true (signature d.func))

  abbrev pub command_meta : String → CommandDef Fn → CommandMeta
  command_meta console d = record {
    id = build_command_id console d.func_name;
    name = d.func_name;
    aliases = d.alias;
    description = d.func_description;
    exposure = d.exposure;
    min_args = (spec_of d).min_args;
    max_args = (spec_of d).max_args;
    variadic = (spec_of d).variadic;
  }

  -- _export_commands
  unfoldable pub export_commands : String → List (CommandDef Fn) → List CommandMeta
  unfolding sort text_le build_command_id from_signature
  export_commands console defs = sort by_id (map (command_meta console) defs)

  module _ (members : String → List (CommandDef Fn)) (default : String) where
    -- The default commands for a console that has none, where they are asked for.
    abbrev pub or_default :
        Bool → CommandRegistry Fn × List (CommandDef Fn) → CommandRegistry Fn × List (CommandDef Fn)
    or_default true (r, []) = collect_from_commands_cls members default r
    or_default _ (r, defs) = (r, defs)

    -- The definitions that are exported for a console.
    unfoldable pub exported_defs :
        Bool → ConsoleEntry → CommandRegistry Fn → CommandRegistry Fn × List (CommandDef Fn)
    unfolding get_command_defs_for_console collect_from_commands_cls
    exported_defs include_default e r =
        or_default include_default (get_command_defs_for_console members e.console_cls.class_name r)

    abbrev pub console_meta : ConsoleEntry → List (CommandDef Fn) → ConsoleMeta
    console_meta e defs = record {
      name = e.name;
      parent = e.parent;
      class_name = e.console_cls.class_name;
      module_name = e.console_cls.module_name;
      commands = export_commands e.name defs;
    }

    -- The loop over the entries; the collection of a class is kept in the registry.
    unfoldable pub export_consoles :
        Bool → List ConsoleEntry → CommandRegistry Fn → CommandRegistry Fn × List ConsoleMeta
    unfolding exported_defs export_commands
    export_consoles b [] r = (r, [])
    export_consoles b (e ∷ es) r =
        let (r1, defs) = exported_defs b e r in
        let (r2, rest) = export_consoles b es r1 in (r2, console_meta e defs ∷ rest)

    module _ (digest : Payload → String) where
      -- _compute_revision, which leaves a revision out
      abbrev pub compute_revision : Meta → String
      compute_revision m = digest m.payload

      -- export_meta
      unfoldable pub export_meta :
          Bool → ConsoleRegistry → CommandRegistry Fn → CommandRegistry Fn × Meta
      unfolding export_consoles collect_console_entries get_console_tree get_console_map sort
          text_le
      export_meta b s r =
          let (r', consoles) = export_consoles b (collect_console_entries s) r in
          let m : Meta = record {
            payload = record {
              version = 1;
              consoles = sort by_name consoles;
              tree = get_console_tree s;
              console_map = get_console_map s;
            };
            revision = "";
          } in
          (r', record m { revision = compute_revision m })
