-- ===== src/Mmgir/Defs/Signals.antt =====
-- The definitions of properties and signals in gen_defs.cc. What the resolver of types answers is an
-- argument.
pub mod Flags
pub mod Reading
pub mod Properties
use glibmm.Base.{
  Bool, true, false, not, ◌&&◌, ◌||◌, List, [], ◌∷◌, ◌++◌, Option, none, some, ℕ, ◌==◌,
  if◌then◌else◌, Result, ok, err, bad_optional_access, ◌>>=◌,
}
use glibmm.Mmgir.TypeCasts.{Name, codes}
use glibmm.Mmgir.Defs.Schema.{AnyType, ParamType, var_args, any_type, Param, is_skippable, flagged}
use glibmm.Mmgir.Defs.Lines.{
  print_head, print_attribute, print_switch, print_pair, print_list, print_list_end, print_end,
  replace_all,
}
use glibmm.Mmgir.Defs.Callables.{name_eq, is_empty}

pub record PropertyDef : Type 0 where
  pub name : Name
  pub is_introspectable : Option Bool
  pub is_deprecated : Option Bool
  pub is_readable : Option Bool
  pub is_writable : Option Bool
  pub is_set_only_during_construction : Option Bool
  pub has_getter : Bool
  pub default_value : Option Name

pub data RunSignal : Type 0 where
  run_first run_last run_cleanup : RunSignal

pub record SignalDef : Type 0 where
  pub name : Name
  pub is_deprecated : Option Bool
  pub is_detailed : Option Bool
  pub when : Option RunSignal
  pub is_action : Option Bool
  pub no_hooks : Option Bool
  pub no_recurse : Option Bool
  pub params : Option (List Param)

unfoldable pub convert_bool : Option Bool → Bool → Name
convert_bool none default_value = if default_value then codes "#t" else codes "#f"
convert_bool (some value) default_value = if value then codes "#t" else codes "#f"

-- `value_or(true)`
unfoldable pub unless_false : Option Bool → Bool
unless_false none = true
unless_false (some b) = b

pub is_getter_of : Option Name → Name → Bool
is_getter_of none name = false
is_getter_of (some property) name = name_eq property name

-- The methods of the object: the property that each one gets, and the answer for its return type.
-- The loop stops at the first answer.
unfoldable pub search_getter : Name → List (Option Name × Option Name) → Option Name
unfolding is_getter_of
search_getter name [] = none
search_getter name ((get_property, none) ∷ methods) = search_getter name methods
search_getter name ((get_property, some t) ∷ methods) =
    let rest = search_getter name methods in if is_getter_of get_property name then some t else rest

-- try_find_property_type_from_getter()
unfoldable pub type_from_getter : PropertyDef → List (Option Name × Option Name) → Option Name
unfolding search_getter
type_from_getter p methods = if p.has_getter then search_getter p.name methods else none

-- The answer of find_property_type(), or what the getter gives.
unfoldable pub resolved_type :
    PropertyDef → Option Name → List (Option Name × Option Name) → Option Name
unfolding type_from_getter
resolved_type p none methods = type_from_getter p methods
resolved_type p (some t) methods = some t

pub print_property_type : Option Name → List ℕ
print_property_type none = []
print_property_type (some t) = print_attribute "prop-type" t

pub print_default : Option Name → List ℕ
print_default none = []
print_default (some value) =
    if name_eq value (codes "NULL")
    then print_attribute "default-value" []
    else print_attribute "default-value" value

pub print_deprecated : Option Bool → List ℕ
unfolding flagged
print_deprecated b = if flagged b then print_switch "deprecated" (codes "#t") else []

unfoldable pub generate_property_def :
    PropertyDef → Name → Option Name → List (Option Name × Option Name) → List ℕ
unfolding print_property_type print_default print_deprecated resolved_type is_skippable unless_false
    convert_bool
generate_property_def p object found methods =
    if is_skippable p.name || not (unless_false p.is_introspectable)
    then []
    else print_head "define-property" p.name
      ++ (print_attribute "of-object" object
          ++ (print_deprecated p.is_deprecated
              ++ (print_property_type (resolved_type p found methods)
                  ++ (print_attribute "docs" []
                      ++ (print_switch "readable" (convert_bool p.is_readable true)
                          ++ (print_switch "writable" (convert_bool p.is_writable false)
                              ++ (print_switch "construct-only"
                                    (convert_bool p.is_set_only_during_construction false)
                                  ++ (print_default p.default_value ++ print_end))))))))

-- The flags so far, and whether the next one is the first.
pub add_flag : Name → Name × Bool → Name × Bool
add_flag flag (flags, is_first_flag) =
    ((if is_first_flag then flags else flags ++ codes ", ") ++ flag, false)

pub add_when : Option RunSignal → Name × Bool → Name × Bool
unfolding add_flag
add_when none s = s
add_when (some run_first) s = add_flag (codes "Run First") s
add_when (some run_last) s = add_flag (codes "Run Last") s
add_when (some run_cleanup) s = add_flag (codes "Run Cleanup") s

-- `if (flag) { ... }` of an optional: whether it has a value.
pub add_if : Option Bool → Name → Name × Bool → Name × Bool
unfolding add_flag
add_if none flag s = s
add_if (some b) flag s = add_flag flag s

unfoldable pub signal_flags : SignalDef → Name
unfolding add_when add_if
signal_flags g =
    (add_if g.no_recurse (codes "No Recurse") (
      add_if g.no_hooks (codes "No Hooks")
        (add_if g.is_action (codes "Action") (add_when g.when ([], true))))).0

pub print_return_type : Option Name → List ℕ
unfolding replace_all
print_return_type none = []
print_return_type (some t) = print_attribute "return-type" (replace_all b' ' b'-' t)

pub print_detailed : Option Bool → List ℕ
unfolding convert_bool
print_detailed none = []
print_detailed (some b) = print_switch "detailed" (convert_bool (some b) false)

-- A type is printed with dashes, and gchar* as a constant one.
unfoldable pub signal_type : Name → Name
unfolding replace_all
signal_type resolved =
    let dashed = replace_all b' ' b'-' resolved in
    if name_eq dashed (codes "gchar*") then codes "const-gchar*" else dashed

pub print_resolved : Option Name → Name → List ℕ
unfolding signal_type
print_resolved none name = []
print_resolved (some t) name = print_pair (signal_type t) name

-- The lines of a signal, with those of its parameters.
pub print_signal : SignalDef → Name → Option Name → List ℕ → List ℕ
unfolding print_deprecated print_return_type print_detailed signal_flags
print_signal g object return_type params =
    print_head "define-signal" g.name
    ++ (print_attribute "of-object" object
        ++ (print_deprecated g.is_deprecated
            ++ (print_return_type return_type
                ++ (print_attribute "flags" (signal_flags g)
                    ++ (print_detailed g.is_detailed ++ (params ++ print_end))))))

module _ (resolve : AnyType → Option Name) where
  print_signal_param : Option Name → Option ParamType → Result (List ℕ)
  unfolding print_resolved
  print_signal_param name none = err bad_optional_access
  print_signal_param name (some var_args) = ok []
  print_signal_param none (some (any_type t)) = err bad_optional_access
  print_signal_param (some name) (some (any_type t)) = ok (print_resolved (resolve t) name)

  print_signal_loop : List Param → Result (List ℕ)
  unfolding print_signal_param
  print_signal_loop [] = ok []
  print_signal_loop (p ∷ ps) = print_signal_param p.name p.param_type >>= λ one.
      print_signal_loop ps >>= λ rest. ok (one ++ rest)

  print_signal_params : Option (List Param) → Result (List ℕ)
  unfolding print_signal_loop
  print_signal_params none = ok []
  print_signal_params (some []) = ok []
  print_signal_params (some (p ∷ ps)) = print_signal_loop (p ∷ ps) >>= λ rows.
      ok (print_list "parameters" ++ (rows ++ print_list_end))

  unfoldable pub generate_signal_def : SignalDef → Name → Option Name → Result (List ℕ)
  unfolding print_signal_params is_skippable
  generate_signal_def g object return_type =
      if is_skippable g.name
      then ok []
      else (print_signal_params g.params >>= λ params.
          ok (print_signal g object return_type params))
