-- ===== src/Mmgir/Defs/Callables.antt =====
-- The definitions of functions, constructors, methods and virtual methods in gen_defs.cc. A definition
-- is printed in pieces, and what has been printed before a call of value() throws is left out.
pub mod Parameters
pub mod Reading
use Prim.Native.String.{String}
use glibmm.Base.{
  ℕ, Bool, true, false, not, ◌&&◌, ◌||◌, List, [], ◌∷◌, ◌++◌, Option, none, some, Result, ok, err,
  bad_optional_access, ◌>>=◌, ◌==◌, if◌then◌else◌,
}
use glibmm.Mmgir.TypeCasts.{Name, codes}
use glibmm.Mmgir.Defs.Schema.{
  AnyType, simple, array, ParamType, var_args, any_type, Param, Callable, is_skippable, flagged,
}
use glibmm.Mmgir.Defs.Lines.{
  print_head, print_attribute, print_switch, print_pair, print_list, print_list_end, print_end,
  replace_all,
}

abbrev pub name_eq : Name → Name → Bool
name_eq [] [] = true
name_eq [] (d ∷ ds) = false
name_eq (c ∷ cs) [] = false
name_eq (c ∷ cs) (d ∷ ds) = c == d && name_eq cs ds

abbrev pub is_empty : List Param → Bool
is_empty [] = true
is_empty (p ∷ ps) = false

abbrev pub void_return : Name
void_return = codes "void"

abbrev pub none_return : Name
none_return = codes "none"

-- The C type; else the name of a type, and the element's C type with a star for an array.
unfoldable pub flatten_any_type : AnyType → Name
flatten_any_type (simple name (some c_type)) = c_type
flatten_any_type (simple (some name) none) = name
flatten_any_type (simple none none) = codes "void"
flatten_any_type (array (some c_type) element) = c_type
flatten_any_type (array none element) = flatten_any_type element ++ codes "*"

unfoldable pub process_return_type : Option AnyType → Name → Name
unfolding flatten_any_type replace_all
process_return_type none void_type = void_type
process_return_type (some t) void_type =
    let converted = flatten_any_type t in
    if name_eq converted void_return then void_type else replace_all b' ' b'-' converted

-- The visitor of the loop over the parameters: what it prints, and whether it has found varargs.
unfoldable pub print_one : Option Name → Option ParamType → Result (List ℕ × Bool)
unfolding flatten_any_type replace_all
print_one name none = err bad_optional_access
print_one name (some var_args) = ok ([], true)
print_one none (some (any_type t)) = err bad_optional_access
print_one (some name) (some (any_type t)) =
    ok (print_pair (replace_all b' ' b'-' (flatten_any_type t)) name, false)

pub print_loop : List Param → Bool → Result (List ℕ × Bool)
unfolding print_one
print_loop [] has_var_args = ok ([], has_var_args)
print_loop (p ∷ ps) has_var_args = print_one p.name p.param_type >>= λ one.
    print_loop ps (one.1 || has_var_args) >>= λ rest. ok (one.0 ++ rest.0, rest.1)

-- ParamProcessor::print_param with its indents of two spaces.
pub print_param : Bool → List Param → Result (List ℕ × Bool)
unfolding print_loop
print_param can_throw params =
    if is_empty params && not can_throw
    then ok ([], false)
    else (print_loop params false >>= λ r. ok (
      print_list "parameters"
          ++ (r.0
              ++ ((if can_throw then print_pair (codes "GError**") (codes "error") else [])
                  ++ print_list_end)),
      r.1,
    ))

pub maybe_print_var_args : Bool → List ℕ
maybe_print_var_args has_var_args = if has_var_args then print_switch "varargs" (codes "#t") else []

-- `if (func.params) { ... }`
pub print_params : Option (List Param) → Bool → Result (List ℕ)
unfolding print_param maybe_print_var_args
print_params none can_throw = ok []
print_params (some params) can_throw =
    print_param can_throw params >>= λ r. ok (r.0 ++ maybe_print_var_args r.1)

-- What all four generators print behind their own lines.
pub print_rest : Callable → List ℕ → Result (List ℕ)
unfolding print_params flagged
print_rest func front = print_params func.params (flagged func.can_throw) >>= λ params.
    ok (front ++ (params ++ print_end))

pub print_return : Callable → Name → List ℕ
unfolding process_return_type
print_return func void_type =
    print_attribute "return-type" (process_return_type func.return_type void_type)

-- `func.attributes.c_identifier.value()`
unfoldable pub identifier_of : Option Name → Result Name
identifier_of none = err bad_optional_access
identifier_of (some name) = ok name

unfoldable pub generate_func_def : Callable → Result (List ℕ)
unfolding identifier_of print_rest print_return is_skippable
generate_func_def func =
    if is_skippable func.name
    then ok []
    else (identifier_of func.c_identifier >>= λ func_name. print_rest func (
        print_head "define-function" func_name
        ++ (print_attribute "c-name" func_name ++ print_return func none_return)))

unfoldable pub generate_constructor_def : Callable → Name → Result (List ℕ)
unfolding identifier_of print_rest print_return is_skippable
generate_constructor_def func object =
    if is_skippable func.name
    then ok []
    else (identifier_of func.c_identifier >>= λ func_name. print_rest func (
        print_head "define-function" func_name
        ++ (print_attribute "c-name" func_name
            ++ (print_attribute "is-constructor-of" object ++ print_return func none_return))))

unfoldable pub generate_method_def : Callable → Name → Result (List ℕ)
unfolding identifier_of print_rest print_return is_skippable
generate_method_def func object =
    if is_skippable func.name
    then ok []
    else (identifier_of func.c_identifier >>= λ func_name. print_rest func (
        print_head "define-method" func.name
        ++ (print_attribute "of-object" object
            ++ (print_attribute "c-name" func_name ++ print_return func none_return))))

unfoldable pub generate_vfunc_def : Callable → Name → Result (List ℕ)
unfolding print_rest print_return is_skippable flagged
generate_vfunc_def func object =
    if is_skippable func.name
    then ok []
    else print_rest func (
        print_head "define-vfunc" func.name
        ++ (print_attribute "of-object" object
            ++ ((if flagged func.is_deprecated then print_switch "deprecated" (codes "#t") else [])
                ++ print_return func void_return)))
