-- ===== src/Mmgir/Defs/Objects.antt =====
-- The definitions of all functions, methods and constructors of an object in gen_defs.cc.
pub mod Reading
use glibmm.Base.{
  ℕ, Bool, true, false, List, [], ◌∷◌, ◌++◌, Option, none, some, Result, ok, err,
  bad_optional_access, ◌>>=◌, if◌then◌else◌,
}
use glibmm.Mmgir.TypeCasts.{Name}
use glibmm.Mmgir.Defs.Schema.{Callable, is_skippable}
use glibmm.Mmgir.Defs.Callables.{
  generate_func_def, generate_method_def, generate_constructor_def, identifier_of,
}

-- The callables of a Record, Interface or Class, whose constructors are a list for all three.
pub record FunctionOwner : Type 0 where
  pub name : Name
  pub inline_functions : List Callable
  pub functions : List Callable
  pub inline_methods : List Callable
  pub methods : List Callable
  pub constructors : List Callable

-- A loop that calls a generator.
unfoldable pub print_each : (Callable → Result (List ℕ)) → List Callable → Result (List ℕ)
print_each f [] = ok []
print_each f (x ∷ xs) = f x >>= λ one. print_each f xs >>= λ rest. ok (one ++ rest)

-- One loop behind another.
abbrev pub print_both : Result (List ℕ) → Result (List ℕ) → Result (List ℕ)
print_both r s = r >>= λ t. s >>= λ u. ok (t ++ u)

pub generate_free_function_defs : FunctionOwner → Result (List ℕ)
unfolding print_each
generate_free_function_defs o =
    print_both (print_each generate_func_def o.inline_functions)
      (print_each generate_func_def o.functions)

pub generate_standard_function_defs : FunctionOwner → Name → Result (List ℕ)
unfolding generate_free_function_defs
generate_standard_function_defs o type_name = print_both (generate_free_function_defs o) (
    print_both (print_each (λ f. generate_method_def f type_name) o.inline_methods)
      (print_each (λ f. generate_method_def f type_name) o.methods))

-- The functions, the methods, and then the constructors, as for each of the three kinds of objects.
pub print_owner : FunctionOwner → Name → Result (List ℕ)
unfolding generate_standard_function_defs
print_owner o type_name =
    print_both (generate_standard_function_defs o type_name)
      (print_each (λ f. generate_constructor_def f type_name) o.constructors)

-- Of a Class or an Interface with this glib_type_name.
unfoldable pub generate_class_function_defs : FunctionOwner → Name → Result (List ℕ)
unfolding print_owner is_skippable
generate_class_function_defs o glib_type_name =
    if is_skippable o.name then ok [] else print_owner o glib_type_name

-- Of a Record with this C type.
unfoldable pub generate_record_function_defs : FunctionOwner → Option Name → Result (List ℕ)
unfolding print_owner is_skippable identifier_of
generate_record_function_defs o c_type =
    if is_skippable o.name
    then ok []
    else (identifier_of c_type >>= λ type_name. print_owner o type_name)
