-- ===== src/Tests/Properties.antt =====
-- An object with one property of an interface and one custom property; values are numbers.
use glibmm.Base.{arith, Bool, false, List, inl, inr, ℕ, ◌≡◌, refl, true, [], ◌∷◌, none, some, ok}
use glibmm.Property.{CustomObject, get_property, set_property, install_property}
use glibmm.Property.Classes.{IfaceProperty, ClassProperties, lookup, custom_class_init_function}
use glibmm.Property.Classes.Defaults.{IsFresh, custom_class_init_function-get}
use glibmm.Property.Access.{set_property-get}

abbrev bare : CustomObject ℕ
bare = record {
  iface_props = 10 ∷ [];
  obj_iface_props = none;
  prop_base_vector = [];
  prop_value_map = λ i. none;
  wrapper = none;
}

abbrev wrapped : CustomObject ℕ
wrapped = record bare {
  prop_base_vector = record { object_ = 1; param_spec = 4; value = 20 } ∷ [];
  wrapper = some 1;
}

abbrev changed : CustomObject ℕ
changed = record wrapped {
  prop_base_vector = record { object_ = 1; param_spec = 4; value = 30 } ∷ [];
}

abbrev no_default : ℕ → ℕ
no_default spec = 0

set_wrapped : set_property ℕ wrapped 2 30 4 ≡ ok (changed, true)
unfolding set_property
set_wrapped = refl

set_property-get_example : get_property ℕ no_default changed 2 4 ≡ ok (some 30)
set_property-get_example = set_property-get ℕ no_default wrapped changed 2 30 4 set_wrapped

installed_number : (install_property ℕ wrapped 1 5 40).1 ≡ 3
unfolding install_property
installed_number = refl

-- Two interfaces with the property 4, with different default values.
abbrev interfaces : List (List (IfaceProperty ℕ))
interfaces =
    (record { name = 3; default_value = 30 } ∷ [])
    ∷ (record { name = 4; default_value = 40 } ∷ [])
    ∷ (record { name = 4; default_value = 41 } ∷ [])
    ∷ []

abbrev nothing_inherited : ℕ → Bool
nothing_inherited n = false

custom_class_init_function-get_example :
    (calls : List ℕ) × (c : ClassProperties ℕ) × (custom_class_init_function ℕ nothing_inherited
        (some 1 ∷ [])
        none
        interfaces
      ≡ some (calls, c))
    × ((o : CustomObject ℕ) (spec : ℕ)
        → IsFresh ℕ nothing_inherited o c
        → (id : ℕ) × (lookup c.overridden 4 ≡ some id)
          × (get_property ℕ no_default o id spec ≡ ok (some 40)))
custom_class_init_function-get_example =
    custom_class_init_function-get ℕ nothing_inherited no_default 1 [] none interfaces 4 40 refl
      (inr ((omega arith, tt), inl (inl (refl, refl))))
