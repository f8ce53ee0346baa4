-- ===== src/Mmgir/TypeResolver/Mapping/Coverage.antt =====
-- Every type that a namespace refers to is known when its TypeMapper is done.
use glibmm.Base.{
  inl, inr, Bool, true, false, List, [], ◌∷◌, ◌++◌, Option, none, some, if◌then◌else◌, All,
  All-append,
}
use glibmm.Mmgir.Names.{String}
use glibmm.Mmgir.Schema.{
  AnyType, simple, array, ParamType, var_args, any_type, Param, CallableReturn, FunctionInline,
  Callables, Property, Enum, Union, Struct, Object, Namespace, is_skippable_name,
  is_skippable_union, value_or_false,
}
use glibmm.Mmgir.TypeResolver.{
  TypeResolver, for_each, record_name, find_for_any_type, find_for_param_type, find_for_param,
  find_for_params, find_for_return, find_for_callable, find_for_inline_function, find_for_list,
  find_for_callables, find_for_enum, find_for_union, find_for_record, find_for_object,
  find_unknown_types, find_for_property, find_for_properties, extract_property_types,
}
use glibmm.Mmgir.TypeResolver.References.{
  of_each, unless, of_param_type, of_param, of_params, of_return, of_function, of_callables,
  of_enum, of_union, of_record, of_object, of_property, of_properties, of_functions, references,
}
use glibmm.Mmgir.TypeResolver.Mapping.{
  Grows, Grows-refl, Grows-trans, NameKnown, record_unknown-Grows,
}

module _ (ns : String) where
  -- A C type of its own, no name, or a name that is known.
  abbrev pub TypeKnown : TypeResolver → Option String → Option String → Type 0
  TypeKnown s name (some c_type) = Unit
  TypeKnown s none none = Unit
  TypeKnown s (some name) none = NameKnown ns s name

  abbrev pub AnyKnown : TypeResolver → AnyType → Type 0
  AnyKnown s (simple t) = TypeKnown s t.name t.c_type
  AnyKnown s (array t element) = TypeKnown s t.name t.c_type × AnyKnown s element

  abbrev Done : TypeResolver → TypeResolver → List AnyType → Type 0
  Done s u ts = Grows s u × All (AnyKnown u) ts

  TypeKnown-mono :
      {s u : TypeResolver} (name c_type : Option String)
      → Grows s u
      → TypeKnown s name c_type
      → TypeKnown u name c_type
  TypeKnown-mono name (some c_type) g k = tt
  TypeKnown-mono none none g k = tt
  TypeKnown-mono (some name) none g (inl b) = inl b
  TypeKnown-mono (some name) none g (inr k) = inr (g.known _ k)

  pub AnyKnown-mono : {s u : TypeResolver} (t : AnyType) → Grows s u → AnyKnown s t → AnyKnown u t
  AnyKnown-mono (simple t) g k = TypeKnown-mono t.name t.c_type g k
  AnyKnown-mono (array t element) g (k, h) =
      (TypeKnown-mono t.name t.c_type g k, AnyKnown-mono element g h)

  pub All-mono :
      {s u : TypeResolver} (ts : List AnyType)
      → Grows s u
      → All (AnyKnown s) ts
      → All (AnyKnown u) ts
  All-mono [] g h = tt
  All-mono (t ∷ ts) g (k, h) = (AnyKnown-mono t g k, All-mono ts g h)

  both :
      {s u v : TypeResolver} (xs ys : List AnyType)
      → Done s u xs
      → Done u v ys
      → Done s v (xs ++ ys)
  both xs ys (g, h) (g', h') = (Grows-trans g g', All-append _ xs ys (All-mono xs g' h) h')

  skip_if :
      {s u : TypeResolver} (skipped : Bool) (ts : List AnyType)
      → Done s u ts
      → Done s (if skipped then s else u) (unless skipped ts)
  skip_if true ts d = (Grows-refl _, tt)
  skip_if false ts d = d

  each {ℓ} :
      {A : Type ℓ} (f : TypeResolver → A → TypeResolver) (refs : A → List AnyType)
      → ((s : TypeResolver) (a : A) → Done s (f s a) (refs a))
      → (s : TypeResolver) (xs : List A) → Done s (for_each f s xs) (of_each refs xs)
  each f refs one s [] = (Grows-refl s, tt)
  each f refs one s (x ∷ xs) =
      both (refs x) (of_each refs xs) (one s x) (each f refs one (f s x) xs)

  name_done :
      (s : TypeResolver) (name c_type : Option String)
      → Grows s (record_name ns s name c_type)
        × TypeKnown (record_name ns s name c_type) name c_type
  unfolding record_name
  name_done s name (some c_type) = (Grows-refl s, tt)
  name_done s none none = (Grows-refl s, tt)
  name_done s (some name) none = record_unknown-Grows ns s name

  any_done :
      (s : TypeResolver) (t : AnyType)
      → Grows s (find_for_any_type ns s t) × AnyKnown (find_for_any_type ns s t) t
  unfolding find_for_any_type
  any_done s (simple t) = name_done s t.name t.c_type
  any_done s (array t element) =
      let (g, k) = name_done s t.name t.c_type in
      let (g', h) = any_done (record_name ns s t.name t.c_type) element in
      (Grows-trans g g', (TypeKnown-mono t.name t.c_type g' k, h))

  type_done : (s : TypeResolver) (t : AnyType) → Done s (find_for_any_type ns s t) (t ∷ [])
  type_done s t = let (g, k) = any_done s t in (g, (k, tt))

  param_type_done :
      (s : TypeResolver) (p : Option ParamType)
      → Done s (find_for_param_type ns s p) (of_param_type p)
  unfolding find_for_param_type
  param_type_done s none = (Grows-refl s, tt)
  param_type_done s (some var_args) = (Grows-refl s, tt)
  param_type_done s (some (any_type t)) = type_done s t

  param_done : (s : TypeResolver) (p : Param) → Done s (find_for_param ns s p) (of_param p)
  unfolding find_for_param
  param_done s p = skip_if (value_or_false p.is_skippable) _ (param_type_done s p.param_type)

  params_done :
      (s : TypeResolver) (ps : Option (List Param))
      → Done s (find_for_params ns s ps) (of_params ps)
  unfolding find_for_params
  params_done s none = (Grows-refl s, tt)
  params_done s (some ps) = each (find_for_param ns) of_param param_done s ps

  return_done :
      (s : TypeResolver) (r : Option CallableReturn) → Done s (find_for_return ns s r) (of_return r)
  unfolding find_for_return
  return_done s none = (Grows-refl s, tt)
  return_done s (some r) = skip_if (value_or_false r.is_skippable) _ (type_done s r.return_any_type)

  function_done :
      (s : TypeResolver) (f : FunctionInline)
      → Done s (find_for_inline_function ns s f) (of_function f)
  unfolding find_for_inline_function find_for_callable
  function_done s f = skip_if (is_skippable_name f.name) _ (
      both (of_params f.params) (of_return f.return_type) (params_done s f.params)
        (return_done _ f.return_type))

  list_done :
      (s : TypeResolver) (fs : List FunctionInline)
      → Done s (find_for_list ns s fs) (of_each of_function fs)
  unfolding find_for_list
  list_done s fs = each (find_for_inline_function ns) of_function function_done s fs

  callables_done :
      (s : TypeResolver) (c : Callables) → Done s (find_for_callables ns s c) (of_callables c)
  unfolding find_for_callables
  callables_done s c =
      both _ _
        (both _ _
          (both _ _
            (both _ _ (both _ _ (list_done s c.inline_functions) (list_done _ c.functions))
              (list_done _ c.inline_methods))
            (list_done _ c.methods))
          (list_done _ c.virtual_methods))
        (list_done _ c.constructors)

  enum_done : (s : TypeResolver) (e : Enum) → Done s (find_for_enum ns s e) (of_enum e)
  unfolding find_for_enum
  enum_done s e = skip_if (is_skippable_name e.name) _ (callables_done s e.callables)

  union_done : (s : TypeResolver) (u : Union) → Done s (find_for_union ns s u) (of_union u)
  unfolding find_for_union
  union_done s u = skip_if (is_skippable_union u.name) _ (callables_done s u.callables)

  record_done : (s : TypeResolver) (r : Struct) → Done s (find_for_record ns s r) (of_record r)
  unfolding find_for_record
  record_done s r = skip_if (is_skippable_name r.name) _ (callables_done s r.callables)

  object_done : (s : TypeResolver) (o : Object) → Done s (find_for_object ns s o) (of_object o)
  unfolding find_for_object
  object_done s o = skip_if (is_skippable_name o.name) _ (
      both _ _
        (both _ _ (callables_done s o.callables)
          (each (find_for_union ns) of_union union_done _ o.unions))
        (each (find_for_record ns) of_record record_done _ o.records))

  property_done :
      (s : TypeResolver) (p : Property) → Done s (find_for_property ns s p) (of_property p)
  unfolding find_for_property
  property_done s p = skip_if (is_skippable_name p.name) _ (type_done s p.property_type)

  properties_done :
      (s : TypeResolver) (o : Object) → Done s (find_for_properties ns s o) (of_properties o)
  unfolding find_for_properties
  properties_done s o =
      skip_if (is_skippable_name o.name) _
        (each (find_for_property ns) of_property property_done s o.properties)

  functions_done :
      (s : TypeResolver) (n : Namespace) → Done s (find_unknown_types ns n s) (of_functions n)
  unfolding find_unknown_types
  functions_done s n =
      both _ _
        (both _ _
          (both _ _
            (both _ _
              (both _ _
                (both _ _ (callables_done s n.callables)
                  (each (find_for_enum ns) of_enum enum_done _ n.enums))
                (each (find_for_enum ns) of_enum enum_done _ n.bitfields))
              (each (find_for_union ns) of_union union_done _ n.unions))
            (each (find_for_record ns) of_record record_done _ n.records))
          (each (find_for_object ns) of_object object_done _ n.interfaces))
        (each (find_for_object ns) of_object object_done _ n.classes)

  pub references_done :
      (s : TypeResolver) (n : Namespace)
      → Done s (extract_property_types ns n (find_unknown_types ns n s)) (references n)
  unfolding extract_property_types
  references_done s n = both _ _ (functions_done s n) (
      both _ _ (each (find_for_properties ns) of_properties properties_done _ n.interfaces)
        (each (find_for_properties ns) of_properties properties_done _ n.classes))
