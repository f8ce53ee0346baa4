-- ===== src/Mmgir/Schema.antt =====
-- tools/mmgir/schema.h: the parts of a GIR repository that the resolver of types reads. The pointers of an
-- AnyType are taken to point to an object. A Function, Method, Constructor or VirtualMethod is its
-- FunctionInline `detail`, and a struct without one of the vectors of Callables has an empty one.
use glibmm.Base.{Bool, true, false, ◌||◌, List, Option, none, some}
use glibmm.Mmgir.Names.{String, is_empty, is_private}

pub record GirType : Type 0 where
  pub name : Option String
  pub c_type : Option String

-- Type* or ArrayType*; an array has a name and a C type of its own, and the type of its elements.
pub data AnyType : Type 0 where
  simple : GirType → AnyType
  array : GirType → AnyType → AnyType

pub data ParamType : Type 0 where
  var_args : ParamType
  any_type : AnyType → ParamType

pub record Param : Type 0 where
  pub param_type : Option ParamType
  pub is_skippable : Option Bool

pub record CallableReturn : Type 0 where
  pub return_any_type : AnyType
  pub is_skippable : Option Bool

pub record FunctionInline : Type 0 where
  pub name : String
  pub params : Option (List Param)
  pub return_type : Option CallableReturn

pub record Callables : Type 0 where
  pub inline_functions : List FunctionInline
  pub functions : List FunctionInline
  pub inline_methods : List FunctionInline
  pub methods : List FunctionInline
  pub virtual_methods : List FunctionInline
  pub constructors : List FunctionInline

pub record Property : Type 0 where
  pub name : String
  pub property_type : AnyType

-- The parameters and the return value of a signal.
pub record Signal : Type 0 where
  pub name : String
  pub params : Option (List Param)
  pub return_type : Option CallableReturn

pub record Alias : Type 0 where
  pub name : String
  pub c_type : String

-- Enum and Bitfield
pub record Enum : Type 0 where
  pub name : String
  pub c_type : String
  pub callables : Callables

-- Union
pub record Union : Type 0 where
  pub name : Option String
  pub c_type : Option String
  pub callables : Callables

-- Record
pub record Struct : Type 0 where
  pub name : String
  pub c_type : Option String
  pub callables : Callables

-- Interface and Class; the optional constructor of an interface is a list. An interface has no unions
-- and records.
pub record Object : Type 0 where
  pub name : String
  pub glib_type_name : String
  pub callables : Callables
  pub properties : List Property
  pub signals : List Signal
  pub unions : List Union
  pub records : List Struct

pub record Namespace : Type 0 where
  pub name : Option String
  pub aliases : List Alias
  pub enums : List Enum
  pub bitfields : List Enum
  pub unions : List Union
  pub records : List Struct
  pub interfaces : List Object
  pub classes : List Object
  pub callables : Callables

-- is_skippable() of a name, and of a union's.
unfoldable pub is_skippable_name : String → Bool
is_skippable_name name = is_empty name || is_private name

pub is_skippable_union : Option String → Bool
unfolding is_skippable_name
is_skippable_union none = true
is_skippable_union (some name) = is_skippable_name name

-- `is_skippable.value_or(false)`
abbrev pub value_or_false : Option Bool → Bool
value_or_false none = false
value_or_false (some b) = b
