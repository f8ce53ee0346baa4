-- ===== src/Mmgir/TypeResolver/Resolution/Parameters.antt =====
-- The types of parameters.
use Prim.Native.String
use glibmm.Base.{
  ◌≡◌, refl, ◌⊎◌, inl, inr, Bool, true, false, Option, none, some, ok, if◌then◌else◌, Bool-cases,
}
use glibmm.Mmgir.Names.{String, find, is_some}
use glibmm.Mmgir.Schema.{AnyType, simple, array}
use glibmm.Mmgir.TypeResolver.Builtins.{GParam, boxed, object, s_builtin_type_to_c_type}
use glibmm.Mmgir.TypeResolver.{TypeInfo, TypeResolver, is_builtin_type}
use glibmm.Mmgir.TypeResolver.Resolution.{
  c_type_of, builtin_or, lookup_name, find_type, resolve_any_type, append_for, append_found,
  append_pointer, resolve_callable_param_type,
}

-- The result of a resolution, or a pointer to it.
abbrev pub IsParamType : Option String → Option String → Type 0
IsParamType resolved r =
    (r ≡ resolved) ⊎ ((c : String) × (resolved ≡ some c) × (r ≡ some (String.◌++◌ c "*")))

module _ (s : TypeResolver) (ns : String) where
  append_for-IsParamType :
      (spec : GParam) (t : String) → IsParamType (some t) (some (append_for s ns spec t))
  unfolding append_for
  append_for-IsParamType boxed t = inr (t, refl, refl)
  append_for-IsParamType object t = inr (t, refl, refl)
  append_for-IsParamType _ t = inl refl

  append_found-IsParamType :
      (t : String) (i : Option TypeInfo)
      → c_type_of i ≡ some t
      → IsParamType (some t) (append_found s ns i t)
  unfolding append_found c_type_of
  append_found-IsParamType t none e = absurd (none_some e)
    where
      none_some : none ≡ some t → ⊥
      none_some h = cc
  append_found-IsParamType t (some i) e = append_for-IsParamType i.param_spec t

  name_result :
      (name t : String) (b : Bool) (f : Option String)
      → find name s_builtin_type_to_c_type ≡ f
      → is_some f ≡ b
      → builtin_or f (lookup_name s ns name) ≡ some t
      → IsParamType (some t) (if b then some t else append_found s ns (lookup_name s ns name) t)
  unfolding builtin_or
  name_result name t true f q b e = inl refl
  name_result name t false (some c) q b e = absurd (true_false b)
    where
      true_false : true ≡ false → ⊥
      true_false h = cc
  name_result name t false none q b e = append_found-IsParamType t (lookup_name s ns name) e

  pointer_result :
      (name : String) (o : Option String)
      → builtin_or (find name s_builtin_type_to_c_type) (lookup_name s ns name) ≡ o
      → (r : Option String) × (append_pointer s ns o (some name) none ≡ ok r) × IsParamType o r
  unfolding append_pointer is_builtin_type
  pointer_result name none e = (none, refl, inl refl)
  pointer_result name (some t) e = elim (Bool-cases (is_builtin_type name)) [
    | inl builtin ↦ (some t, rw builtin, inl refl)
    | inr other ↦ (
      append_found s ns (lookup_name s ns name) t,
      rw other,
      name_result name t false (find name s_builtin_type_to_c_type) refl other e,
    )
  ]

  simple_result :
      (name c_type : Option String)
      → (r : Option String) × (append_pointer s ns (find_type s ns name c_type) name c_type ≡ ok r)
        × IsParamType (find_type s ns name c_type) r
  unfolding append_pointer find_type
  simple_result none none = (none, refl, inl refl)
  simple_result none (some c) = (some c, refl, inl refl)
  simple_result (some name) (some c) = (some c, refl, inl refl)
  simple_result (some name) none = pointer_result name _ refl

  -- The type of a parameter is resolved without an exception: the name that `value()` reads is there
  -- whenever it is read. The result is what resolve_any_type() gives, or a pointer to it.
  pub resolve_callable_param_type-IsParamType :
      (t : AnyType)
      → (r : Option String) × (resolve_callable_param_type s ns t ≡ ok r)
        × IsParamType (resolve_any_type s ns t) r
  unfolding resolve_callable_param_type resolve_any_type
  resolve_callable_param_type-IsParamType (simple t) = simple_result t.name t.c_type
  resolve_callable_param_type-IsParamType (array t element) = (_, refl, inl refl)
