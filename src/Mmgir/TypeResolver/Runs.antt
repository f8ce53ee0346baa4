-- ===== src/Mmgir/TypeResolver/Runs.antt =====
-- A repository with one namespace, `Gtk`: the class Window has a property of the type Widget, and a method
-- with a parameter of the type Window. A signal has a parameter of the type Missing, which is not there.
use mathlib.Core.List.{Memᴰ}
use mathlib.Core.List.Memᴰ.{head}
use glibmm.Base.{◌≡◌, refl, sym, subst, [], ◌∷◌, none, some}
use glibmm.Mmgir.Names.{String, is_empty, is_private, find, has_dot, qualified, insert, erase}
use glibmm.Mmgir.Schema.{
  AnyType, simple, any_type, FunctionInline, Callables, Signal, Object, Namespace,
  is_skippable_name,
}
use glibmm.Mmgir.TypeResolver.Builtins.{s_builtin_type_to_c_type}
use glibmm.Mmgir.TypeResolver.{
  empty, is_builtin_type, is_qualified_name, qualify_name, record_mapping, record_unknown,
  extract_simple_types, find_for_any_type, find_for_callable, find_unknown_types,
  extract_property_types, map_types, register_repo_types,
}
use glibmm.Mmgir.TypeResolver.References.{references}
use glibmm.Mmgir.TypeResolver.Resolution.{resolve_any_type}
use glibmm.Mmgir.TypeResolver.Resolution.Completeness.{register_repo_types-resolves}

abbrev no_callables : Callables
no_callables = record {
  inline_functions = [];
  functions = [];
  inline_methods = [];
  methods = [];
  virtual_methods = [];
  constructors = [];
}

abbrev named : String → AnyType
named n = simple (record { name = some n; c_type = none })

abbrev set_parent : FunctionInline
set_parent = record {
  name = "set_parent";
  params =
      some (record { param_type = some (any_type (named "Window")); is_skippable = none } ∷ []);
  return_type = none;
}

-- Its parameter has a type that nothing defines.
abbrev moved : Signal
moved = record {
  name = "moved";
  params =
      some (record { param_type = some (any_type (named "Missing")); is_skippable = none } ∷ []);
  return_type = none;
}

abbrev widget : Object
widget = record {
  name = "Widget";
  glib_type_name = "GtkWidget";
  callables = no_callables;
  properties = [];
  signals = [];
  unions = [];
  records = [];
}

abbrev window : Object
window = record {
  name = "Window";
  glib_type_name = "GtkWindow";
  callables = record no_callables { methods = set_parent ∷ [] };
  properties = record { name = "child"; property_type = named "Widget" } ∷ [];
  signals = moved ∷ [];
  unions = [];
  records = [];
}

abbrev gtk : Namespace
gtk = record {
  name = some "Gtk";
  aliases = [];
  enums = [];
  bitfields = [];
  unions = [];
  records = [];
  interfaces = [];
  classes = window ∷ widget ∷ [];
  callables = no_callables;
}

gtk-references : references gtk ≡ named "Window" ∷ named "Widget" ∷ []
unfolding is_skippable_name is_empty is_private
gtk-references = refl

window_referred : Memᴰ (named "Window") (references gtk)
window_referred = subst (Memᴰ (named "Window")) (sym gtk-references) (head refl)

window_named : (n : String) → some n ≡ none → ⊥
window_named n h = cc

-- The type Missing is not reported: signals are not looked at.
gtk_unknown : (register_repo_types (gtk ∷ []) empty).unknown_types ≡ []
unfolding register_repo_types is_skippable_name is_empty is_private find has_dot qualified insert
    erase is_builtin_type s_builtin_type_to_c_type extract_simple_types find_unknown_types
    extract_property_types record_mapping record_unknown qualify_name is_qualified_name
    find_for_any_type find_for_callable map_types empty
gtk_unknown = refl

register_repo_types-resolves_example :
    (c : String) × (resolve_any_type (register_repo_types (gtk ∷ []) empty) "Gtk" (named "Window")
      ≡ some c)
register_repo_types-resolves_example =
    register_repo_types-resolves empty (gtk ∷ []) gtk "Gtk" (named "Window") refl (head refl)
      window_referred (λ (e, h). window_named "Window" h) gtk_unknown
