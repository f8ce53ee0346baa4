-- ===== src/Mmgir/Defs/Schema.antt =====
-- What gen_defs.cc reads of tools/mmgir/schema.h. Texts are lists of codes. The pointers of an AnyType
-- are taken to point to an object.
use glibmm.Base.{Bool, true, false, List, [], ◌∷◌, Option, none, some, ◌==◌}
use glibmm.Mmgir.TypeCasts.{Name}

-- A Type with its name and C type, or an ArrayType with its C type and the type of its elements.
pub data AnyType : Type 0 where
  simple : Option Name → Option Name → AnyType
  array : Option Name → AnyType → AnyType

pub data ParamType : Type 0 where
  var_args : ParamType
  any_type : AnyType → ParamType

pub record Param : Type 0 where
  pub name : Option Name
  pub param_type : Option ParamType

-- FunctionInline, with the type of its CallableReturn and the params of its CallableParams.
pub record Callable : Type 0 where
  pub name : Name
  pub c_identifier : Option Name
  pub can_throw : Option Bool
  pub is_deprecated : Option Bool
  pub params : Option (List Param)
  pub return_type : Option AnyType

-- The value of a member of a Bitfield is what format_bitfield_members() reads in it, that of an Enum
-- is printed as it is.
pub record Member {ℓ} (Value : Type ℓ) : Type ℓ where
  pub name : Name
  pub value : Value
  pub c_identifier : Name
  pub nickname : Option Name

pub record Enumeration {ℓ} (Value : Type ℓ) : Type ℓ where
  pub name : Name
  pub c_type : Name
  pub members : List (Member Value)

-- is_skippable(): nameless and private objects.
unfoldable pub is_skippable : Name → Bool
is_skippable [] = true
is_skippable (c ∷ name) = c == b'_'

-- `value_or(false)`
unfoldable pub flagged : Option Bool → Bool
flagged none = false
flagged (some b) = b
