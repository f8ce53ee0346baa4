-- ===== src/Property/Classes/Defaults.antt =====
-- An object of a custom type has the default values of its interfaces.
use glibmm.Base.{
  ℕ, zero, suc, ◌+◌, ◌≡◌, ◌≢◌, refl, sym, ap, subst, ◌∙◌, ◌⊎◌, inl, inr, Bool, true, false, ◌||◌,
  List, [], ◌∷◌, ◌++◌, Option, none, some, ok, ltb, ◌==◌, length, get_elem?, get_elem?-append,
  get_elem?-length, none-some, arith, Bool-cases, ==_refl,
}
use glibmm.Property.{CustomObject, get_property, in_range}
use glibmm.Property.Classes.{
  is_found, lookup, IfaceProperty, ClassProperties, override_one, override_properties,
  override_interfaces, custom_class_init_function, extra_calls, or_empty,
}

lookup-append :
    (xs ys : List (ℕ × ℕ)) (n id : ℕ) → lookup xs n ≡ some id → lookup (xs ++ ys) n ≡ some id
lookup-append [] ys n id e = absurd (none-some e)
lookup-append ((m, i) ∷ xs) ys n id e = elim (Bool-cases (m == n)) [
  | inl same ↦ rw same (sym (rw same) ∙ e)
  | inr other ↦ rw other (lookup-append xs ys n id (sym (rw other) ∙ e))
]

lookup-same : (m n i : ℕ) (xs : List (ℕ × ℕ)) → (m == n) ≡ true → lookup ((m, i) ∷ xs) n ≡ some i
lookup-same m n i xs e = rw e

lookup-append_none :
    (xs ys : List (ℕ × ℕ)) (n : ℕ) → lookup xs n ≡ none → lookup (xs ++ ys) n ≡ lookup ys n
lookup-append_none [] ys n e = refl
lookup-append_none ((m, i) ∷ xs) ys n e = elim (Bool-cases (m == n)) [
  | inl same ↦ absurd (none-some (sym e ∙ lookup-same m n i xs same))
  | inr other ↦ rw other (lookup-append_none xs ys n (sym (rw other) ∙ e))
]

module _ (V : Type 0) (inherited : ℕ → Bool) where
  -- The property has a number, and there is the value `v`.
  abbrev pub HasDefault : ClassProperties V → ℕ → V → Type 0
  HasDefault c n v =
      (position : ℕ) × (lookup c.overridden n ≡ some (suc position))
      × (get_elem? c.iface_props position ≡ some v)

  -- `v` is the default value of the first property of this name.
  abbrev pub First : ℕ → V → List (IfaceProperty V) → Type 0
  First n v [] = ⊥
  First n v (p ∷ ps) = ((p.name ≡ n) × (p.default_value ≡ v)) ⊎ ((p.name ≢ n) × First n v ps)

  abbrev pub Absent : ℕ → List (IfaceProperty V) → Type 0
  Absent n [] = Unit
  Absent n (p ∷ ps) = (p.name ≢ n) × Absent n ps

  abbrev pub FirstOf : ℕ → V → List (List (IfaceProperty V)) → Type 0
  FirstOf n v [] = ⊥
  FirstOf n v (ps ∷ is) = First n v ps ⊎ (Absent n ps × FirstOf n v is)

  extended : ClassProperties V → IfaceProperty V → ClassProperties V
  extended c p = record {
    iface_props = c.iface_props ++ p.default_value ∷ [];
    overridden = c.overridden ++ (p.name, length c.iface_props + 1) ∷ [];
  }

  override_one-cases :
      (c : ClassProperties V) (p : IfaceProperty V)
      → ((override_one V inherited c p ≡ c)
          × ((inherited p.name || is_found (lookup c.overridden p.name)) ≡ true))
        ⊎ ((override_one V inherited c p ≡ extended c p)
            × ((inherited p.name || is_found (lookup c.overridden p.name)) ≡ false))
  unfolding override_one extended
  override_one-cases c p =
      elim (Bool-cases (inherited p.name || is_found (lookup c.overridden p.name))) [
        | inl found ↦ inl (rw found, found)
        | inr new ↦ inr (rw new, new)
      ]

  extended_keeps :
      (c : ClassProperties V) (p : IfaceProperty V) (n : ℕ) (v : V)
      → HasDefault c n v
      → HasDefault (extended c p) n v
  unfolding extended
  extended_keeps c p n v (position, e, f) = (
    position,
    lookup-append c.overridden _ n (suc position) e,
    get_elem?-append c.iface_props _ position v f,
  )

  one_keeps :
      (c : ClassProperties V) (p : IfaceProperty V) (n : ℕ) (v : V)
      → HasDefault c n v
      → HasDefault (override_one V inherited c p) n v
  one_keeps c p n v h = elim (override_one-cases c p) [
    | inl (e, f) ↦ subst (λ u. HasDefault u n v) (sym e) h
    | inr (e, f) ↦ subst (λ u. HasDefault u n v) (sym e) (extended_keeps c p n v h)
  ]

  one_skips :
      (c : ClassProperties V) (p : IfaceProperty V) (n : ℕ)
      → p.name ≢ n
      → lookup c.overridden n ≡ none
      → lookup (override_one V inherited c p).overridden n ≡ none
  unfolding extended
  one_skips c p n d h = elim (override_one-cases c p) [
    | inl (e, f) ↦ ap (λ u. lookup u.overridden n) e ∙ h
    | inr (e, f) ↦ ap (λ u. lookup u.overridden n) e ∙ lookup-append_none c.overridden _ n h ∙ other
  ]
    where
      other : lookup ((p.name, length c.iface_props + 1) ∷ []) n ≡ none
      other = ground arith

  one_adds :
      (c : ClassProperties V) (p : IfaceProperty V)
      → inherited p.name ≡ false
      → lookup c.overridden p.name ≡ none
      → HasDefault (override_one V inherited c p) p.name p.default_value
  unfolding override_one
  one_adds c p free h =
      rw (free, h)
        (
          length c.iface_props,
          lookup-append_none c.overridden _ p.name h
              ∙ lookup-same p.name p.name (length c.iface_props + 1) [] (==_refl p.name)
              ∙ ap some (omega arith),
          get_elem?-length c.iface_props p.default_value,
        )

  all_keep :
      (ps : List (IfaceProperty V)) (c : ClassProperties V) (n : ℕ) (v : V)
      → HasDefault c n v
      → HasDefault (override_properties V inherited c ps) n v
  unfolding override_properties
  all_keep [] c n v h = h
  all_keep (p ∷ ps) c n v h = all_keep ps (override_one V inherited c p) n v (one_keeps c p n v h)

  all_skip :
      (ps : List (IfaceProperty V)) (c : ClassProperties V) (n : ℕ)
      → Absent n ps
      → lookup c.overridden n ≡ none
      → lookup (override_properties V inherited c ps).overridden n ≡ none
  unfolding override_properties
  all_skip [] c n a h = h
  all_skip (p ∷ ps) c n (d, a) h =
      all_skip ps (override_one V inherited c p) n a (one_skips c p n d h)

  all_add :
      (ps : List (IfaceProperty V)) (c : ClassProperties V) (n : ℕ) (v : V)
      → inherited n ≡ false
      → lookup c.overridden n ≡ none
      → First n v ps
      → HasDefault (override_properties V inherited c ps) n v
  unfolding override_properties
  all_add [] c n v free h a = absurd a
  all_add (p ∷ ps) c n v free h (inl (e, f)) = all_keep ps (override_one V inherited c p) n v (
      subst (HasDefault (override_one V inherited c p) n) f (
        subst (λ m. HasDefault (override_one V inherited c p) m p.default_value) e
          (one_adds c p (ap inherited e ∙ free) (ap (lookup c.overridden) e ∙ h))))
  all_add (p ∷ ps) c n v free h (inr (d, a)) =
      all_add ps (override_one V inherited c p) n v free (one_skips c p n d h) a

  interfaces_keep :
      (is : List (List (IfaceProperty V))) (c : ClassProperties V) (n : ℕ) (v : V)
      → HasDefault c n v
      → HasDefault (override_interfaces V inherited c is) n v
  unfolding override_interfaces
  interfaces_keep [] c n v h = h
  interfaces_keep (ps ∷ is) c n v h =
      interfaces_keep is (override_properties V inherited c ps) n v (all_keep ps c n v h)

  interfaces_add :
      (is : List (List (IfaceProperty V))) (c : ClassProperties V) (n : ℕ) (v : V)
      → inherited n ≡ false
      → lookup c.overridden n ≡ none
      → FirstOf n v is
      → HasDefault (override_interfaces V inherited c is) n v
  unfolding override_interfaces
  interfaces_add [] c n v free h a = absurd a
  interfaces_add (ps ∷ is) c n v free h (inl a) =
      interfaces_keep is (override_properties V inherited c ps) n v (all_add ps c n v free h a)
  interfaces_add (ps ∷ is) c n v free h (inr (b, a)) =
      interfaces_add is (override_properties V inherited c ps) n v free (all_skip ps c n b h) a

  inside : (vs : List V) (i : ℕ) (v : V) → get_elem? vs i ≡ some v → ltb i (length vs) ≡ true
  inside [] i v e = absurd (none-some e)
  inside (x ∷ vs) zero v e = ground arith
  inside (x ∷ vs) (suc i) v e = ground (arith, inside vs i v e)

  -- An object of the class whose own values of interface properties are not set yet.
  abbrev pub IsFresh : CustomObject V → ClassProperties V → Type 0
  IsFresh o c = (o.iface_props ≡ c.iface_props) × (o.obj_iface_props ≡ none)

  default_get :
      (default_of : ℕ → V) (c : ClassProperties V) (n : ℕ) (v : V) (o : CustomObject V) (spec : ℕ)
      → IsFresh o c
      → HasDefault c n v
      → (id : ℕ) × (lookup c.overridden n ≡ some id)
        × (get_property V default_of o id spec ≡ ok (some v))
  unfolding get_property in_range
  default_get default_of c n v o spec (e, f) (position, g, h) =
      (suc position, g, rw (e, f, inside c.iface_props position v h, h))

  -- A property of an interface that no base class has gets a number when the class is set up, and an
  -- object of the class whose own values are not set returns the default value for that number: the one
  -- of the first interface that has a property of this name.
  pub custom_class_init_function-get :
      (default_of : ℕ → V) (f : ℕ) (fs : List (Option ℕ)) (props : Option (List V))
      (interfaces : List (List (IfaceProperty V))) (n : ℕ) (v : V)
      → inherited n ≡ false
      → FirstOf n v interfaces
      → (calls : List ℕ) × (c : ClassProperties V) × (custom_class_init_function V inherited
            (some f ∷ fs)
            props
            interfaces
          ≡ some (calls, c))
        × ((o : CustomObject V) (spec : ℕ)
            → IsFresh o c
            → (id : ℕ) × (lookup c.overridden n ≡ some id)
              × (get_property V default_of o id spec ≡ ok (some v)))
  unfolding custom_class_init_function
  custom_class_init_function-get default_of f fs props interfaces n v free a = (
    f ∷ extra_calls V inherited fs,
    _,
    refl,
    λ o spec fresh. default_get default_of _ n v o spec fresh (
        interfaces_add interfaces
          (record { iface_props = or_empty V inherited props; overridden = [] }) n v free refl a),
  )
