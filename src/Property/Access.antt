-- ===== src/Property/Access.antt =====
-- What is set is what is got.
use glibmm.Base.{
  ℕ, zero, suc, ◌-◌, ◌≡◌, refl, subst, inl, inr, Bool, true, false, List, [], ◌∷◌, Option, none,
  some, Result, ok, err, ltb, length, get_elem?, Bool-cases, ==_refl,
}
use glibmm.Property.{
  CustomObject, PropertyBase, matches, cons_to, set_elem, values_of, in_range, value_if, get_custom,
  get_property, set_iface, set_base, set_vector, set_custom, set_property,
}

abbrev Holds {ℓ} : {A : Type ℓ} → (A → Type 0) → Option A → Type 0
Holds P none = Unit
Holds P (some x) = P x

module _ (V : Type 0) where
  set_elem-get :
      (vs : List V) (i : ℕ) (v : V) → Holds (λ us. get_elem? us i ≡ some v) (set_elem V vs i v)
  set_elem-get [] i v = tt
  set_elem-get (x ∷ vs) zero v = refl
  set_elem-get (x ∷ vs) (suc i) v = step (set_elem V vs i v) (set_elem-get vs i v)
    where
      step :
          (r : Option (List V))
          → Holds (λ us. get_elem? us i ≡ some v) r
          → Holds (λ us. get_elem? us (suc i) ≡ some v) (cons_to x r)
      step none h = tt
      step (some us) h = h

  set_base-get :
      (ps : List (PropertyBase V)) (i w spec : ℕ) (v : V)
      → Holds (λ qs. value_if V (get_elem? qs i) w spec ≡ some v) (set_base V ps i w spec v)
  unfolding set_base value_if
  set_base-get [] i w spec v = tt
  set_base-get (p ∷ ps) zero w spec v = elim (Bool-cases (matches V p w spec)) [
    | inl same ↦ rw (same, same) refl
    | inr other ↦ rw other tt
  ]
  set_base-get (p ∷ ps) (suc i) w spec v =
      step (set_base V ps i w spec v) (set_base-get ps i w spec v)
    where
      step :
          (r : Option (List (PropertyBase V)))
          → Holds (λ qs. value_if V (get_elem? qs i) w spec ≡ some v) r
          → Holds (λ qs. value_if V (get_elem? qs (suc i)) w spec ≡ some v) (cons_to p r)
      step none h = tt
      step (some us) h = h

  module _ (default_of : ℕ → V) where
    -- The property has the value in the object, if the setter has notified.
    abbrev Sets : ℕ → V → ℕ → Result (CustomObject V × Bool) → Type 0
    Sets id v spec (err e) = Unit
    Sets id v spec (ok (u, false)) = Unit
    Sets id v spec (ok (u, true)) = get_property V default_of u id spec ≡ ok (some v)

    iface_Sets :
        (o : CustomObject V) (position : ℕ) (v : V) (spec : ℕ) (r : Option (List V))
        → ltb position (length o.iface_props) ≡ true
        → Holds (λ us. get_elem? us position ≡ some v) r
        → Sets (suc position) v spec (set_iface V o r)
    unfolding set_iface get_property in_range
    iface_Sets o position v spec none e h = tt
    iface_Sets o position v spec (some us) e h = rw (e, h)

    vector_Sets :
        (o : CustomObject V) (position w : ℕ) (v : V) (spec : ℕ)
        (r : Option (List (PropertyBase V)))
        → ltb position (length o.iface_props) ≡ false
        → o.wrapper ≡ some w
        → Holds
            (λ qs. value_if V (get_elem? qs (position - length o.iface_props)) w spec ≡ some v)
            r
        → Sets (suc position) v spec (ok (set_vector V o r))
    unfolding set_vector get_property get_custom
    vector_Sets o position w v spec none e k h = tt
    vector_Sets o position w v spec (some us) e k h = rw (e, k, h)

    custom_Sets :
        (o : CustomObject V) (position : ℕ) (v : V) (spec : ℕ) (current : Option ℕ)
        → ltb position (length o.iface_props) ≡ false
        → o.wrapper ≡ current
        → Sets
            (suc position)
            v
            spec
            (ok (set_custom V o (position - length o.iface_props) v spec current))
    unfolding set_custom get_property get_custom
    custom_Sets o position v spec none e k = rw (e, k, ==_refl (position - length o.iface_props))
    custom_Sets o position v spec (some w) e k =
        vector_Sets o position w v spec _ e k
          (set_base-get o.prop_base_vector (position - length o.iface_props) w spec v)

    property_Sets :
        (o : CustomObject V) (id : ℕ) (v : V) (spec : ℕ)
        → Sets id v spec (set_property V o id v spec)
    unfolding set_property
    property_Sets o zero v spec = tt
    property_Sets o (suc position) v spec =
        elim (Bool-cases (ltb position (length o.iface_props))) [
          | inl own ↦ rw own (
              iface_Sets o position v spec _ own
                (set_elem-get (values_of V o.iface_props o.obj_iface_props) position v))
          | inr custom ↦ rw custom (custom_Sets o position v spec o.wrapper custom refl)
        ]

    -- If setting a property has notified, getting it gives the value that was set, whether it is a
    -- property of an interface or a custom one, with a wrapper or without.
    pub set_property-get :
        (o u : CustomObject V) (id : ℕ) (v : V) (spec : ℕ)
        → set_property V o id v spec ≡ ok (u, true)
        → get_property V default_of u id spec ≡ ok (some v)
    set_property-get o u id v spec e = subst (Sets id v spec) e (property_Sets o id v spec)
