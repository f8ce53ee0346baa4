-- ===== src/Property/Classes.antt =====
-- custom_class_init_function() of glib/glibmm/class.cc, which gives the properties of the interfaces of a
-- custom type their numbers and default values. Names and functions are numbers; `inherited` is what
-- g_object_class_find_property() finds before.
pub mod Defaults
use glibmm.Base.{
  ℕ, suc, ◌+◌, Bool, true, false, not, ◌||◌, List, [], ◌∷◌, ◌++◌, Option, none, some, ◌==◌,
  if◌then◌else◌, length,
}

abbrev pub is_found : Option ℕ → Bool
is_found none = false
is_found (some id) = true

-- The number of the property of a name.
abbrev pub lookup : List (ℕ × ℕ) → ℕ → Option ℕ
lookup [] name = none
lookup ((n, id) ∷ overridden) name = if n == name then some id else lookup overridden name

module _ (V : Type 0) where
  -- A GParamSpec of an interface: its name, and its default value.
  pub record IfaceProperty : Type 0 where
    pub name : ℕ
    pub default_value : V

  -- The values under iface_properties_quark, and the overridden properties with their numbers.
  pub record ClassProperties : Type 0 where
    pub iface_props : List V
    pub overridden : List (ℕ × ℕ)

  module _ (inherited : ℕ → Bool) where
    pub override_one : ClassProperties → IfaceProperty → ClassProperties
    override_one c p =
        if inherited p.name || is_found (lookup c.overridden p.name) then c else record {
          iface_props = c.iface_props ++ p.default_value ∷ [];
          overridden = c.overridden ++ (p.name, length c.iface_props + 1) ∷ [];
        }

    pub override_properties : ClassProperties → List IfaceProperty → ClassProperties
    override_properties c [] = c
    override_properties c (p ∷ ps) = override_properties (override_one c p) ps

    pub override_interfaces : ClassProperties → List (List IfaceProperty) → ClassProperties
    override_interfaces c [] = c
    override_interfaces c (i ∷ is) = override_interfaces (override_properties c i) is

    -- The functions that are called after the first one.
    extra_calls : List (Option ℕ) → List ℕ
    extra_calls [] = []
    extra_calls (none ∷ fs) = extra_calls fs
    extra_calls (some f ∷ fs) = f ∷ extra_calls fs

    or_empty : Option (List V) → List V
    or_empty none = []
    or_empty (some props) = props

    -- The functions that are called, and the properties; `none` if the first function is missing.
    pub custom_class_init_function :
        List (Option ℕ)
        → Option (List V)
        → List (List IfaceProperty)
        → Option (List ℕ × ClassProperties)
    unfolding extra_calls or_empty
    custom_class_init_function [] props interfaces = none
    custom_class_init_function (none ∷ fs) props interfaces = none
    custom_class_init_function (some f ∷ fs) props interfaces = some (
      f ∷ extra_calls fs,
      override_interfaces (record { iface_props = or_empty props; overridden = [] }) interfaces,
    )
