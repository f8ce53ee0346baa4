-- ===== src/Mmgir/TypeResolver.antt =====
-- tools/mmgir/type_resolver.cc: from the names of GIR types to C types. A TypeMapper works on the
-- TypeResolver, so that its methods take the resolver and return it.
pub mod Builtins
pub mod References
pub mod Mapping
pub mod Resolution
mod Runs
use glibmm.Base.{Bool, true, false, not, ◌||◌, List, [], ◌∷◌, Option, none, some, if◌then◌else◌}
use glibmm.Mmgir.Names.{String, str_eq, has_dot, qualified, find, is_some, update, insert, erase}
use Builtins.{GParam, boxed, enum_, flags, object, not_applicable, s_builtin_type_to_c_type}
use glibmm.Mmgir.Schema.{
  GirType, AnyType, simple, array, ParamType, var_args, any_type, Param, CallableReturn,
  FunctionInline, Callables, Property, Alias, Enum, Union, Struct, Object, Namespace,
  is_skippable_name, is_skippable_union, value_or_false,
}

pub record TypeInfo : Type 0 where
  pub c_type : String
  pub param_spec : GParam

pub record TypeResolver : Type 0 where
  pub name_to_type_info : String → Option TypeInfo
  pub unknown_types : List String
  pub has_errors : Bool

pub empty : TypeResolver
empty = record { name_to_type_info = λ n. none; unknown_types = []; has_errors = false }

-- A range-based for loop.
abbrev pub for_each {ℓ} :
    {A : Type ℓ} → (TypeResolver → A → TypeResolver) → TypeResolver → List A → TypeResolver
for_each f s [] = s
for_each f s (x ∷ xs) = for_each f (f s x) xs

pub is_builtin_type : String → Bool
is_builtin_type name = is_some (find name s_builtin_type_to_c_type)

pub is_qualified_name : String → Bool
is_qualified_name name = is_builtin_type name || has_dot name

-- TypeMapper::qualify_name(), in the namespace `ns`.
pub qualify_name : String → String → String
unfolding is_qualified_name
qualify_name ns name = if not (is_qualified_name name) then qualified ns name else name

record_at : TypeResolver → String → TypeInfo → Option TypeInfo → TypeResolver
record_at s name info none = record s {
  name_to_type_info = update s.name_to_type_info name info;
  unknown_types = erase name s.unknown_types;
}
record_at s name info (some old) = record s {
  has_errors = s.has_errors || not (str_eq old.c_type info.c_type);
  unknown_types = erase name s.unknown_types;
}

pub record_mapping : String → TypeResolver → String → String → GParam → TypeResolver
unfolding record_at
record_mapping ns s name c_type param_spec =
    let q = qualify_name ns name in
    record_at s q (record { c_type = c_type; param_spec = param_spec }) (s.name_to_type_info q)

unknown_at : TypeResolver → String → Option TypeInfo → TypeResolver
unknown_at s name none = record s { unknown_types = insert name s.unknown_types }
unknown_at s name (some info) = s

pub record_unknown : String → TypeResolver → String → TypeResolver
unfolding unknown_at
record_unknown ns s name =
    if is_builtin_type name
    then s
    else unknown_at s (qualify_name ns name) (s.name_to_type_info (qualify_name ns name))

-- The types with a name and a C type.
record_both : String → GParam → TypeResolver → Option String → Option String → TypeResolver
record_both ns spec s none c_type = s
record_both ns spec s (some name) none = s
record_both ns spec s (some name) (some c_type) = record_mapping ns s name c_type spec

pub extract_simple_types : String → Namespace → TypeResolver → TypeResolver
unfolding record_both
extract_simple_types ns n s0 =
    let s1 = for_each (λ s a. record_mapping ns s a.name a.c_type not_applicable) s0 n.aliases in
    let s2 = for_each (λ s a. record_mapping ns s a.name a.c_type enum_) s1 n.enums in
    let s3 = for_each (λ s a. record_mapping ns s a.name a.c_type flags) s2 n.bitfields in
    let s4 = for_each (λ s a. record_both ns boxed s a.name a.c_type) s3 n.unions in
    let s5 = for_each (λ s a. record_both ns boxed s (some a.name) a.c_type) s4 n.records in
    let s6 = for_each (λ s a. record_mapping ns s a.name a.glib_type_name object) s5 n.interfaces in
    for_each (λ s a. record_mapping ns s a.name a.glib_type_name object) s6 n.classes

-- `record_type` of find_unknown_types_for_any_type().
record_name : String → TypeResolver → Option String → Option String → TypeResolver
record_name ns s name (some c_type) = s
record_name ns s none none = s
record_name ns s (some name) none = record_unknown ns s name

pub find_for_any_type : String → TypeResolver → AnyType → TypeResolver
unfolding record_name
find_for_any_type ns s (simple t) = record_name ns s t.name t.c_type
find_for_any_type ns s (array t element) =
    find_for_any_type ns (record_name ns s t.name t.c_type) element

find_for_param_type : String → TypeResolver → Option ParamType → TypeResolver
find_for_param_type ns s none = s
find_for_param_type ns s (some var_args) = s
find_for_param_type ns s (some (any_type t)) = find_for_any_type ns s t

find_for_param : String → TypeResolver → Param → TypeResolver
unfolding find_for_param_type
find_for_param ns s p =
    if value_or_false p.is_skippable then s else find_for_param_type ns s p.param_type

find_for_params : String → TypeResolver → Option (List Param) → TypeResolver
unfolding find_for_param
find_for_params ns s none = s
find_for_params ns s (some params) = for_each (find_for_param ns) s params

find_for_return : String → TypeResolver → Option CallableReturn → TypeResolver
find_for_return ns s none = s
find_for_return ns s (some r) =
    if value_or_false r.is_skippable then s else find_for_any_type ns s r.return_any_type

pub find_for_callable :
    String → TypeResolver → Option (List Param) → Option CallableReturn → TypeResolver
unfolding find_for_params find_for_return
find_for_callable ns s params return_type =
    find_for_return ns (find_for_params ns s params) return_type

find_for_inline_function : String → TypeResolver → FunctionInline → TypeResolver
find_for_inline_function ns s func =
    if is_skippable_name func.name then s else find_for_callable ns s func.params func.return_type

find_for_list : String → TypeResolver → List FunctionInline → TypeResolver
unfolding find_for_inline_function
find_for_list ns s funcs = for_each (find_for_inline_function ns) s funcs

-- find_for_functions, find_for_methods, find_for_virtual_methods and find_for_constructors in the order
-- of the calls; a struct without one of them has empty lists.
find_for_callables : String → TypeResolver → Callables → TypeResolver
unfolding find_for_list
find_for_callables ns s c =
    let s1 = find_for_list ns s c.inline_functions in
    let s2 = find_for_list ns s1 c.functions in
    let s3 = find_for_list ns s2 c.inline_methods in
    let s4 = find_for_list ns s3 c.methods in
    let s5 = find_for_list ns s4 c.virtual_methods in find_for_list ns s5 c.constructors

find_for_enum : String → TypeResolver → Enum → TypeResolver
find_for_enum ns s e = if is_skippable_name e.name then s else find_for_callables ns s e.callables

find_for_union : String → TypeResolver → Union → TypeResolver
find_for_union ns s u = if is_skippable_union u.name then s else find_for_callables ns s u.callables

find_for_record : String → TypeResolver → Struct → TypeResolver
find_for_record ns s r = if is_skippable_name r.name then s else find_for_callables ns s r.callables

find_for_object : String → TypeResolver → Object → TypeResolver
unfolding find_for_union find_for_record
find_for_object ns s o =
    let s1 = find_for_callables ns s o.callables in
    let s2 = for_each (find_for_union ns) s1 o.unions in
    let s3 = for_each (find_for_record ns) s2 o.records in
    if is_skippable_name o.name then s else s3

pub find_unknown_types : String → Namespace → TypeResolver → TypeResolver
unfolding find_for_callables find_for_enum find_for_union find_for_record find_for_object
find_unknown_types ns n s0 =
    let s1 = find_for_callables ns s0 n.callables in
    let s2 = for_each (find_for_enum ns) s1 n.enums in
    let s3 = for_each (find_for_enum ns) s2 n.bitfields in
    let s4 = for_each (find_for_union ns) s3 n.unions in
    let s5 = for_each (find_for_record ns) s4 n.records in
    let s6 = for_each (find_for_object ns) s5 n.interfaces in
    for_each (find_for_object ns) s6 n.classes

find_for_property : String → TypeResolver → Property → TypeResolver
find_for_property ns s p =
    if is_skippable_name p.name then s else find_for_any_type ns s p.property_type

find_for_properties : String → TypeResolver → Object → TypeResolver
unfolding find_for_property
find_for_properties ns s o =
    if is_skippable_name o.name then s else for_each (find_for_property ns) s o.properties

pub extract_property_types : String → Namespace → TypeResolver → TypeResolver
unfolding find_for_properties
extract_property_types ns n s =
    for_each (find_for_properties ns) (for_each (find_for_properties ns) s n.interfaces) n.classes

-- The constructor of TypeMapper.
pub map_types : String → Namespace → TypeResolver → TypeResolver
map_types ns n s =
    extract_property_types ns n (find_unknown_types ns n (extract_simple_types ns n s))

register_named : TypeResolver → Namespace → Option String → TypeResolver
register_named s n none = record s { has_errors = true }
register_named s n (some ns) = map_types ns n s

pub register_repo_types : List Namespace → TypeResolver → TypeResolver
unfolding register_named
register_repo_types namespaces s0 = for_each (λ s n. register_named s n n.name) s0 namespaces
