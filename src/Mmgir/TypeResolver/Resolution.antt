-- ===== src/Mmgir/TypeResolver/Resolution.antt =====
-- The queries of a TypeResolver.
pub mod Completeness
pub mod Parameters
use Prim.Native.String
use glibmm.Base.{
  ◌≡◌, refl, ◌⊎◌, inl, inr, Bool, true, false, List, [], ◌∷◌, Option, none, some, Result, ok, err,
  bad_optional_access, if◌then◌else◌, map_ok, ap, Bool-cases,
}
use mathlib.Core.Option
use glibmm.Mmgir.Names.{String, str_eq, has_dot, before_dot, qualified, find, insert}
use glibmm.Mmgir.Schema.{GirType, AnyType, simple, array, CallableReturn, Property}
use glibmm.Mmgir.TypeResolver.Builtins.{
  GParam, boxed, object, to_string, s_builtin_type_to_c_type, s_builtin_name_to_g_param,
}
use glibmm.Mmgir.TypeResolver.{TypeInfo, TypeResolver, is_builtin_type}

-- The result with a star behind it.
abbrev pub pointer_to : Option String → Option String
pointer_to none = none
pointer_to (some t) = some (String.◌++◌ t "*")

pub qualify_non_builtin_name : String → String → String
qualify_non_builtin_name name namespace_name =
    if has_dot name then name else qualified namespace_name name

-- The C type of an array, or else a pointer to its elements.
abbrev pub resolve_array : Option String → Option String → Option String
resolve_array (some c_type) resolved = some c_type
resolve_array none resolved = pointer_to resolved

c_type_of : Option TypeInfo → Option String
c_type_of none = none
c_type_of (some i) = some i.c_type

-- The builtin type, or else what the name is mapped to.
builtin_or : Option String → Option TypeInfo → Option String
unfolding c_type_of
builtin_or (some c_type) info = some c_type
builtin_or none info = c_type_of info

module _ (s : TypeResolver) (namespace_name : String) where
  abbrev pub lookup_name : String → Option TypeInfo
  lookup_name name = s.name_to_type_info (qualify_non_builtin_name name namespace_name)

  pub find_type : Option String → Option String → Option String
  unfolding builtin_or
  find_type name (some c_type) = some c_type
  find_type none none = none
  find_type (some name) none = builtin_or (find name s_builtin_type_to_c_type) (lookup_name name)

  pub resolve_any_type : AnyType → Option String
  resolve_any_type (simple t) = find_type t.name t.c_type
  resolve_any_type (array t element) = resolve_array t.c_type (resolve_any_type element)

  -- A struct or an object is passed as a pointer.
  append_for : GParam → String → String
  append_for boxed t = String.◌++◌ t "*"
  append_for object t = String.◌++◌ t "*"
  append_for _ t = t

  append_found : Option TypeInfo → String → Option String
  append_found none t = none
  append_found (some i) t = some (append_for i.param_spec t)

  -- append_pointer, where `type->name.value()` throws if there is no name.
  append_pointer : Option String → Option String → Option String → Result (Option String)
  append_pointer none name c_type = ok none
  append_pointer (some t) name (some c_type) = ok (some t)
  append_pointer (some t) none none = err bad_optional_access
  append_pointer (some t) (some name) none =
      if is_builtin_type name then ok (some t) else ok (append_found (lookup_name name) t)

  pub resolve_callable_param_type : AnyType → Result (Option String)
  unfolding append_pointer append_found append_for
  resolve_callable_param_type (simple t) =
      append_pointer (find_type t.name t.c_type) t.name t.c_type
  resolve_callable_param_type (array t element) = ok (resolve_any_type (array t element))

  replace_void : Option String → Option String → Option String
  replace_void none result = result
  replace_void (some void_type) none = none
  replace_void (some void_type) (some t) = if str_eq t "void" then some void_type else some t

  pub resolve_return_type : Option CallableReturn → Option String → Option String
  unfolding replace_void
  resolve_return_type none void_type = replace_void void_type (some "void")
  resolve_return_type (some r) void_type =
      replace_void void_type (resolve_any_type r.return_any_type)

  spec_or : Option GParam → Option TypeInfo → Option String
  spec_or (some spec) info = some (to_string spec)
  spec_or none none = none
  spec_or none (some i) = some (to_string i.param_spec)

  property_name_type : Option String → Option String
  property_name_type none = none
  property_name_type (some name) = spec_or (find name s_builtin_name_to_g_param) (lookup_name name)

  property_type_at : AnyType → Option String
  property_type_at (simple t) = property_name_type t.name
  property_type_at (array t element) = some (to_string boxed)

  pub find_property_type : Property → Option String
  unfolding property_type_at property_name_type spec_or
  find_property_type p = property_type_at p.property_type

insert_namespace : Option String → List String → List String
insert_namespace none missing = missing
insert_namespace (some ns) missing = insert ns missing

-- The namespaces of the names, in the order of the set of names from the last on.
pub namespaces_of : List String → List String
unfolding insert_namespace
namespaces_of [] = []
namespaces_of (name ∷ names) = insert_namespace (before_dot name) (namespaces_of names)

pub missing_namespaces : TypeResolver → List String
unfolding namespaces_of
missing_namespaces s = namespaces_of s.unknown_types
