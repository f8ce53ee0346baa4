-- ===== src/Mmgir/TypeResolver/References.antt =====
-- The types that the properties and the functions, methods, virtual methods and constructors of a
-- namespace refer to: those of their parameters and return values, and of properties, that are not
-- skipped, of objects that are not skipped either. Signals do not count.
use glibmm.Base.{Bool, List, [], ◌∷◌, ◌++◌, Option, none, some, if◌then◌else◌}
use glibmm.Mmgir.Schema.{
  AnyType, ParamType, var_args, any_type, Param, CallableReturn, FunctionInline, Callables,
  Property, Enum, Union, Struct, Object, Namespace, is_skippable_name, is_skippable_union,
  value_or_false,
}

abbrev pub of_each {ℓ} : {A : Type ℓ} → (A → List AnyType) → List A → List AnyType
of_each f [] = []
of_each f (x ∷ xs) = f x ++ of_each f xs

abbrev pub unless : Bool → List AnyType → List AnyType
unless skipped types = if skipped then [] else types

abbrev pub of_param_type : Option ParamType → List AnyType
of_param_type none = []
of_param_type (some var_args) = []
of_param_type (some (any_type t)) = t ∷ []

abbrev pub of_param : Param → List AnyType
of_param p = unless (value_or_false p.is_skippable) (of_param_type p.param_type)

abbrev pub of_params : Option (List Param) → List AnyType
of_params none = []
of_params (some ps) = of_each of_param ps

abbrev pub of_return : Option CallableReturn → List AnyType
of_return none = []
of_return (some r) = unless (value_or_false r.is_skippable) (r.return_any_type ∷ [])

abbrev pub of_function : FunctionInline → List AnyType
of_function f = unless (is_skippable_name f.name) (of_params f.params ++ of_return f.return_type)

abbrev pub of_callables : Callables → List AnyType
of_callables c =
    ((((of_each of_function c.inline_functions ++ of_each of_function c.functions)
          ++ of_each of_function c.inline_methods)
        ++ of_each of_function c.methods)
      ++ of_each of_function c.virtual_methods)
    ++ of_each of_function c.constructors

abbrev pub of_enum : Enum → List AnyType
of_enum e = unless (is_skippable_name e.name) (of_callables e.callables)

abbrev pub of_union : Union → List AnyType
of_union u = unless (is_skippable_union u.name) (of_callables u.callables)

abbrev pub of_record : Struct → List AnyType
of_record r = unless (is_skippable_name r.name) (of_callables r.callables)

abbrev pub of_object : Object → List AnyType
of_object o =
    unless (is_skippable_name o.name)
      ((of_callables o.callables ++ of_each of_union o.unions) ++ of_each of_record o.records)

abbrev pub of_property : Property → List AnyType
of_property p = unless (is_skippable_name p.name) (p.property_type ∷ [])

abbrev pub of_properties : Object → List AnyType
of_properties o = unless (is_skippable_name o.name) (of_each of_property o.properties)

abbrev pub of_functions : Namespace → List AnyType
of_functions n =
    (((((of_callables n.callables ++ of_each of_enum n.enums) ++ of_each of_enum n.bitfields)
          ++ of_each of_union n.unions)
        ++ of_each of_record n.records)
      ++ of_each of_object n.interfaces)
    ++ of_each of_object n.classes

abbrev pub references : Namespace → List AnyType
references n =
    of_functions n ++ (of_each of_properties n.interfaces ++ of_each of_properties n.classes)
