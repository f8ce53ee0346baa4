-- ===== src/Mmgir/Defs/Runs.antt =====
-- Definitions of short callables, enums, flags, signals and properties.
use glibmm.Mmgir.Defs.Objects.{
  FunctionOwner, generate_class_function_defs, generate_record_function_defs,
}
use glibmm.Mmgir.Defs.Objects.Reading.{
  IsCompleteOwner, function_of, method_of, generate_class_function_defs-Printed,
}
use glibmm.Base.{
  ◌≡◌, err, bad_optional_access, inl, inr, ℕ, Bool, refl, true, false, [], ◌∷◌, ◌++◌, none, some,
  Option,
}
use glibmm.Mmgir.Bitfields.{Formatted}
use glibmm.Mmgir.TypeCasts.{Name, codes}
use glibmm.Mmgir.Defs.Schema.{
  AnyType, simple, var_args, any_type, Callable, Enumeration, is_skippable, flagged,
}
use glibmm.Mmgir.Defs.Reader.{
  open_paren, close_paren, word, kind, IsQuotable, Reads, word_of, IsQuotable-of,
}
use glibmm.Mmgir.Defs.Lines.{attribute, row, replace_all}
use glibmm.Mmgir.Defs.Callables.{
  none_return, void_return, flatten_any_type, generate_func_def, generate_constructor_def,
  generate_method_def, generate_vfunc_def,
}
use glibmm.Mmgir.Defs.Callables.Parameters.{Printed}
use glibmm.Mmgir.Defs.Callables.Reading.{
  IsComplete, definition, return_of, deprecated_of, generate_func_def-Printed,
}
use glibmm.Mmgir.Defs.Enums.{generate_extended_enum_def, generate_extended_bitfield_def}
use glibmm.Mmgir.Defs.Enums.Reading.{
  values_definition, enum_row, flag_row, generate_extended_enum_def-Reads,
}
use glibmm.Mmgir.Defs.Signals.{run_last, SignalDef, signal_type, generate_signal_def}
use glibmm.Mmgir.Defs.Signals.Reading.{generate_signal_def-Printed}

-- A function get_row with a number, further arguments and an error.
abbrev get_row : Callable
get_row = record {
  name = codes "get_row";
  c_identifier = some (codes "gtk_get_row");
  can_throw = some true;
  is_deprecated = none;
  params = some (
      record {
        name = some (codes "index");
        param_type = some (any_type (simple none (some (codes "const int"))));
      }
      ∷ record { name = none; param_type = some var_args }
      ∷ []);
  return_type = none;
}

get_row-IsComplete : IsComplete get_row (codes "gtk_get_row")
unfolding kind is_skippable flatten_any_type
get_row-IsComplete = record {
  visible = refl;
  named = word_of (codes "get_row") refl;
  identified = refl;
  identifying = word_of (codes "gtk_get_row") refl;
  return_quotable = tt;
  readable =
      ((IsQuotable-of (codes "const int") refl, IsQuotable-of (codes "index") refl), (tt, tt));
}

grid-IsQuotable : IsQuotable (codes "GtkGrid")
unfolding kind
grid-IsQuotable = IsQuotable-of (codes "GtkGrid") refl

generate_func_def-Printed_example :
    Printed (generate_func_def get_row) (
      definition "define-function"
        (codes "gtk_get_row")
        (attribute "c-name" (codes "gtk_get_row") ++ return_of get_row none_return)
        get_row)
    × Printed (generate_constructor_def get_row (codes "GtkGrid")) (
        definition "define-function"
          (codes "gtk_get_row")
          (attribute "c-name" (codes "gtk_get_row")
            ++ (attribute "is-constructor-of" (codes "GtkGrid") ++ return_of get_row none_return))
          get_row)
    × Printed (generate_method_def get_row (codes "GtkGrid")) (
        definition "define-method"
          (codes "get_row")
          (attribute "of-object" (codes "GtkGrid")
            ++ (attribute "c-name" (codes "gtk_get_row") ++ return_of get_row none_return))
          get_row)
    × Printed (generate_vfunc_def get_row (codes "GtkGrid")) (
        definition "define-vfunc"
          (codes "get_row")
          (attribute "of-object" (codes "GtkGrid")
            ++ (deprecated_of false ++ return_of get_row void_return))
          get_row)
unfolding flagged
generate_func_def-Printed_example =
    generate_func_def-Printed get_row (codes "GtkGrid") (codes "gtk_get_row") get_row-IsComplete
      grid-IsQuotable

-- fmt::format, as a letter for each form.
abbrev letter_for : Formatted → Name
letter_for (Formatted.shift n) = codes "s"
letter_for (Formatted.hex n) = codes "h"
letter_for (Formatted.negative_hex n) = codes "n"

abbrev axis : Enumeration Name
axis = record {
  name = codes "Axis";
  c_type = codes "GtkAxis";
  members =
      record {
        name = codes "left_right";
        value = codes "0";
        c_identifier = codes "GTK_AXIS_LR";
        nickname = none;
      }
      ∷ [];
}

abbrev marks : Enumeration (Option (Bool × ℕ))
marks = record {
  name = codes "Marks";
  c_type = codes "GtkMarks";
  members =
      record {
        name = codes "top_mark";
        value = some (false, 2);
        c_identifier = codes "GTK_TOP";
        nickname = some (codes "top");
      }
      ∷ [];
}

letter-IsQuotable : (v : Formatted) → IsQuotable (letter_for v)
unfolding kind
letter-IsQuotable (Formatted.shift n) = IsQuotable-of (codes "s") refl
letter-IsQuotable (Formatted.hex n) = IsQuotable-of (codes "h") refl
letter-IsQuotable (Formatted.negative_hex n) = IsQuotable-of (codes "n") refl

generate_extended_enum_def-Reads_example :
    Reads
      (generate_extended_enum_def axis (some (codes "Gtk")))
      (values_definition "define-enum-extended" (some (codes "Gtk")) axis enum_row)
    × Reads
        (generate_extended_bitfield_def letter_for marks (some (codes "Gtk")))
        (values_definition "define-flags-extended" (some (codes "Gtk")) marks (flag_row letter_for))
unfolding kind is_skippable
generate_extended_enum_def-Reads_example =
    generate_extended_enum_def-Reads letter_for axis marks (some (codes "Gtk")) refl refl
      (word_of (codes "Axis") refl) (word_of (codes "Marks") refl)
      (IsQuotable-of (codes "GtkAxis") refl) (IsQuotable-of (codes "GtkMarks") refl)
      (IsQuotable-of (codes "Gtk") refl)
      (
        (
          IsQuotable-of (codes "left-right") refl,
          IsQuotable-of (codes "GTK_AXIS_LR") refl,
          IsQuotable-of (codes "0") refl,
        ),
        tt,
      )
      ((IsQuotable-of (codes "top_mark") refl, IsQuotable-of (codes "GTK_TOP") refl), tt)
      letter-IsQuotable

-- A signal that is marked not to be an action.
abbrev moved : SignalDef
moved = record {
  name = codes "moved";
  is_deprecated = none;
  is_detailed = none;
  when = some run_last;
  is_action = some false;
  no_hooks = none;
  no_recurse = none;
  params =
      some
        (record { name = some (codes "p0"); param_type = some (any_type (simple none none)) } ∷ []);
}

abbrev always_text : AnyType → Option Name
always_text t = some (codes "gchar*")

generate_signal_def-Printed_example :
    Printed (generate_signal_def always_text moved (codes "GtkGrid") (some (codes "void"))) (
      (open_paren ∷ word (codes "define-signal") ∷ word (codes "moved") ∷ [])
      ++ (attribute "of-object" (codes "GtkGrid")
          ++ (attribute "return-type" (codes "void")
              ++ (attribute "flags" (codes "Run Last, Action")
                  ++ ((open_paren ∷ word (codes "parameters") ∷ [])
                      ++ ((row (codes "const-gchar*" ∷ codes "p0" ∷ []) ++ close_paren ∷ [])
                          ++ close_paren ∷ []))))))
unfolding kind is_skippable flagged replace_all signal_type
generate_signal_def-Printed_example =
    generate_signal_def-Printed always_text moved (codes "GtkGrid") (some (codes "void")) refl
      (word_of (codes "moved") refl) grid-IsQuotable (IsQuotable-of (codes "void") refl)
      ((IsQuotable-of (codes "gchar*") refl, IsQuotable-of (codes "p0") refl), tt)

-- A private callable, without an identifier.
abbrev hidden : Callable
hidden = record {
  name = codes "_hide";
  c_identifier = none;
  can_throw = none;
  is_deprecated = none;
  params = none;
  return_type = none;
}

abbrev grid : FunctionOwner
grid = record {
  name = codes "Grid";
  inline_functions = [];
  functions = get_row ∷ hidden ∷ [];
  inline_methods = [];
  methods = get_row ∷ [];
  constructors = [];
}

grid-IsCompleteOwner : IsCompleteOwner grid
unfolding is_skippable
grid-IsCompleteOwner = record {
  inline_functions_complete = tt;
  functions_complete = (inr get_row-IsComplete, (inl refl, tt));
  inline_methods_complete = tt;
  methods_complete = (inr get_row-IsComplete, tt);
  constructors_complete = tt;
}

generate_class_function_defs-Printed_example :
    Printed
      (generate_class_function_defs grid (codes "GtkGrid"))
      ((function_of get_row ++ []) ++ (method_of (codes "GtkGrid") get_row ++ []) ++ [])
    × Printed
        (generate_record_function_defs grid (some (codes "GtkGrid")))
        ((function_of get_row ++ []) ++ (method_of (codes "GtkGrid") get_row ++ []) ++ [])
    × (generate_record_function_defs grid none ≡ err bad_optional_access)
unfolding is_skippable
generate_class_function_defs-Printed_example =
    generate_class_function_defs-Printed grid (codes "GtkGrid") refl grid-IsQuotable
      grid-IsCompleteOwner
