-- ===== src/Property/Installation.antt =====
-- The numbers of custom properties, and properties that are set before their wrapper exists.
use glibmm.Base.{
  ℕ, zero, suc, ◌+◌, ◌-◌, ◌≡◌, ◌<◌, refl, ap, inl, inr, true, false, List, [], ◌∷◌, ◌++◌, Option,
  none, some, ok, ltb, length, get_elem?, arith, Bool-cases, ==_refl,
}
use glibmm.Property.{
  CustomObject, PropertyBase, assign, value_if, get_custom, get_property, set_custom, set_property,
  lookup_property, install_property,
}

get_elem?-last : {A : Type 0} (xs : List A) (x : A) → get_elem? (xs ++ x ∷ []) (length xs) ≡ some x
get_elem?-last [] x = refl
get_elem?-last (y ∷ xs) x = get_elem?-last xs x

get_elem?-append :
    {A : Type 0} (xs ys : List A) (i : ℕ) → i < length xs → get_elem? (xs ++ ys) i ≡ get_elem? xs i
get_elem?-append [] ys i h = absurd (omega (arith, h))
get_elem?-append (x ∷ xs) ys zero h = refl
get_elem?-append (x ∷ xs) ys (suc i) h = get_elem?-append xs ys i (omega arith)

module _ (V : Type 0) (default_of : ℕ → V) where
  last_custom :
      (iface vector : ℕ) → (ltb (vector + iface) iface ≡ false) × (vector + iface - iface ≡ vector)
  last_custom iface vector = (ground arith, omega arith)

  added-get :
      (o : CustomObject V) (w spec : ℕ) (v : V)
      → o.wrapper ≡ some w
      → get_property V default_of
          (record o {
            prop_base_vector =
                o.prop_base_vector ++ record { object_ = w; param_spec = spec; value = v } ∷ [];
          })
          (suc (length o.prop_base_vector + length o.iface_props))
          spec
        ≡ ok (some v)
  unfolding get_property get_custom value_if
  added-get o w spec v e =
      let (behind, index) = last_custom (length o.iface_props) (length o.prop_base_vector) in
      rw (behind, index, e, get_elem?-last o.prop_base_vector, ==_refl w, ==_refl spec)

  -- A custom property that has been installed is found by the number that it was given, behind the
  -- properties of interfaces, and has its initial value.
  pub install_property-get :
      (o : CustomObject V) (w spec : ℕ) (initial : V)
      → o.wrapper ≡ some w
      → get_property V default_of
          (install_property V o w spec initial).0
          (install_property V o w spec initial).1
          spec
        ≡ ok (some initial)
  unfolding install_property
  install_property-get o w spec initial e = added-get o w spec initial e

  custom_keeps :
      (o u : CustomObject V) (p : PropertyBase V) (i spec : ℕ) (current : Option ℕ)
      → i < length o.prop_base_vector
      → u.prop_base_vector ≡ o.prop_base_vector ++ p ∷ []
      → u.prop_value_map ≡ o.prop_value_map
      → get_custom V default_of u i spec current ≡ get_custom V default_of o i spec current
  unfolding get_custom
  custom_keeps o u p i spec none h e m = rw m
  custom_keeps o u p i spec (some w) h e m =
      rw (e, get_elem?-append o.prop_base_vector (p ∷ []) i h)

  -- Installing a custom property changes no property with a smaller number.
  pub install_property-keeps :
      (o : CustomObject V) (w spec : ℕ) (initial : V) (id spec' : ℕ)
      → id < (install_property V o w spec initial).1
      → get_property V default_of (install_property V o w spec initial).0 id spec'
        ≡ get_property V default_of o id spec'
  unfolding install_property get_property get_custom value_if
  install_property-keeps o w spec initial zero spec' h = refl
  install_property-keeps o w spec initial (suc position) spec' h =
      elim (Bool-cases (ltb position (length o.iface_props))) [
        | inl own ↦ rw own
        | inr custom ↦ rw custom (
            ap ok (
              custom_keeps o (install_property V o w spec initial).0
                (record { object_ = w; param_spec = spec; value = initial })
                (position - length o.iface_props) spec' o.wrapper (ground arith) refl refl))
      ]

  -- A custom property that is set while the object has no wrapper keeps its value when its PropertyBase
  -- is created.
  pub lookup_property-set :
      (o : CustomObject V) (w spec : ℕ) (v initial : V)
      → o.wrapper ≡ none
      → (u : CustomObject V) × (set_property V o
            (suc (length o.prop_base_vector + length o.iface_props))
            v
            spec
          ≡ ok (u, true))
        × (get_property V default_of
              (record (lookup_property V u w spec initial) { wrapper = some w })
              (suc (length o.prop_base_vector + length o.iface_props))
              spec
            ≡ ok (some v))
  unfolding set_property set_custom lookup_property get_property get_custom value_if
  lookup_property-set o w spec v initial e =
      let (behind, index) = last_custom (length o.iface_props) (length o.prop_base_vector) in
      (
        record o { prop_value_map = assign V o.prop_value_map (length o.prop_base_vector) v },
        rw (behind, index, e),
        rw (
          behind,
          index,
          get_elem?-last o.prop_base_vector,
          ==_refl w,
          ==_refl spec,
          ==_refl (length o.prop_base_vector),
        ),
      )
