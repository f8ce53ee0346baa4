-- ===== src/Property.antt =====
-- glib/glibmm/property.cc: the properties of one GObject of a custom type. GValues are the type `V`;
-- wrappers and GParamSpecs have numbers, and `default_of` is g_param_spec_get_default_value().
pub mod Access
pub mod Installation
pub mod Classes
use glibmm.Base.{
  ℕ, zero, suc, ◌+◌, ◌-◌, Bool, true, false, ◌&&◌, List, [], ◌∷◌, ◌++◌, Option, none, some, Result,
  ok, err, undefined_behaviour, map_ok, ltb, leb, ◌==◌, if◌then◌else◌, length, get_elem?,
}

abbrev pub cons_to {ℓ} : {A : Type ℓ} → A → Option (List A) → Option (List A)
cons_to x none = none
cons_to x (some xs) = some (x ∷ xs)

module _ (V : Type 0) where
  pub record PropertyBase : Type 0 where
    pub object_ : ℕ
    pub param_spec : ℕ
    pub value : V

  -- The class's values of interface properties, the object's own if it has them, the custom
  -- properties, and the current wrapper.
  pub record CustomObject : Type 0 where
    pub iface_props : List V
    pub obj_iface_props : Option (List V)
    pub prop_base_vector : List PropertyBase
    pub prop_value_map : ℕ → Option V
    pub wrapper : Option ℕ

  -- Whether G_OBJECT_WARN_INVALID_PROPERTY_ID is avoided.
  abbrev pub matches : PropertyBase → ℕ → ℕ → Bool
  matches p w spec = (p.object_ == w) && (p.param_spec == spec)

  -- `(*values)[i] = v`
  abbrev pub set_elem : List V → ℕ → V → Option (List V)
  set_elem [] i v = none
  set_elem (x ∷ xs) zero v = some (v ∷ xs)
  set_elem (x ∷ xs) (suc i) v = cons_to x (set_elem xs i v)

  abbrev pub assign : (ℕ → Option V) → ℕ → V → ℕ → Option V
  assign m i v j = if i == j then some v else m j

  abbrev pub or_else : Option V → V → V
  or_else none d = d
  or_else (some v) d = v

  abbrev pub values_of : List V → Option (List V) → List V
  values_of defaults none = defaults
  values_of defaults (some vs) = vs

  in_range : Option V → Result (Option V)
  in_range none = err undefined_behaviour
  in_range (some v) = ok (some v)

  value_if : Option PropertyBase → ℕ → ℕ → Option V
  value_if none w spec = none
  value_if (some p) w spec = if matches p w spec then some p.value else none

  module _ (default_of : ℕ → V) where
    get_custom : CustomObject → ℕ → ℕ → Option ℕ → Option V
    get_custom o index spec (some w) = value_if (get_elem? o.prop_base_vector index) w spec
    get_custom o index spec none = some (or_else (o.prop_value_map index) (default_of spec))

    -- glibmm_custom_get_property_callback(): what it copies to `value`, if anything.
    pub get_property : CustomObject → ℕ → ℕ → Result (Option V)
    unfolding in_range get_custom value_if
    get_property o zero spec = ok none
    get_property o (suc position) spec =
        if ltb position (length o.iface_props)
        then in_range (get_elem? (values_of o.iface_props o.obj_iface_props) position)
        else ok (get_custom o (position - length o.iface_props) spec o.wrapper)

  set_iface : CustomObject → Option (List V) → Result (CustomObject × Bool)
  set_iface o none = err undefined_behaviour
  set_iface o (some vs) = ok (record o { obj_iface_props = some vs }, true)

  -- The vector with a new value, if there is a property at the index that fits.
  set_base : List PropertyBase → ℕ → ℕ → ℕ → V → Option (List PropertyBase)
  set_base [] index w spec v = none
  set_base (p ∷ ps) zero w spec v =
      if matches p w spec then some (record p { value = v } ∷ ps) else none
  set_base (p ∷ ps) (suc index) w spec v = cons_to p (set_base ps index w spec v)

  set_vector : CustomObject → Option (List PropertyBase) → CustomObject × Bool
  set_vector o none = (o, false)
  set_vector o (some ps) = (record o { prop_base_vector = ps }, true)

  set_custom : CustomObject → ℕ → V → ℕ → Option ℕ → CustomObject × Bool
  unfolding set_vector set_base
  set_custom o index v spec (some w) = set_vector o (set_base o.prop_base_vector index w spec v)
  set_custom o index v spec none =
      (record o { prop_value_map = assign o.prop_value_map index v }, true)

  -- glibmm_custom_set_property_callback(), and whether it notifies.
  unfoldable pub set_property : CustomObject → ℕ → V → ℕ → Result (CustomObject × Bool)
  unfolding set_iface set_custom
  set_property o zero v spec = ok (o, false)
  set_property o (suc position) v spec =
      if ltb position (length o.iface_props)
      then set_iface o (set_elem (values_of o.iface_props o.obj_iface_props) position v)
      else ok (set_custom o (position - length o.iface_props) v spec o.wrapper)

  -- PropertyBase::lookup_property() of a wrapper `w`, for a property that the class has; `initial` is the
  -- value of the PropertyBase so far.
  pub lookup_property : CustomObject → ℕ → ℕ → V → CustomObject
  lookup_property o w spec initial =
      let value = or_else (o.prop_value_map (length o.prop_base_vector)) initial in
      record o {
        prop_base_vector =
            o.prop_base_vector ++ record { object_ = w; param_spec = spec; value = value } ∷ [];
      }

  -- PropertyBase::install_property(), with the property id that it installs.
  unfoldable pub install_property : CustomObject → ℕ → ℕ → V → CustomObject × ℕ
  install_property o w spec initial = (
    record o {
      prop_base_vector =
          o.prop_base_vector ++ record { object_ = w; param_spec = spec; value = initial } ∷ [];
    },
    suc (length o.prop_base_vector + length o.iface_props),
  )
