-- ===== src/Wrappers/Lifecycle.antt =====
-- Construction, references and destruction of one wrapper.
use glibmm.Base.{
  none-some, some_eq, ℕ, ◌<◌, ◌≡◌, ◌≢◌, refl, sym, ap, subst, ◌∙◌, ◌⊎◌, inl, inr, Option, none,
  some, ok, ◌==◌, if◌then◌else◌, ==_refl, arith, map_ok, ◌>>=◌,
}
use glibmm.Wrappers.GObject.{Objects}
use glibmm.Wrappers.{
  ObjectBase, Heap, put, store, read, modify_at, modify, set_gobject, anonymous_wrapper,
  set_wrapper_at, set_current_wrapper, initialize_at, initialize, construct,
}
use glibmm.Wrappers.Notification.{gobject_of, put_same, put_twice, ℕ-cases, Sound}

module _ (g : Objects) where
  -- Every wrapper with an instance is the wrapper that the instance points to, and the instance lives.
  abbrev pub IsSound : Heap g → Type 0
  IsSound h = Sound g (λ w. ⊥) h

  -- Instance `o` gets the wrapper `w`, which no other instance has.
  pub attach-Sound :
      (h u : Heap g) (w o : ℕ)
      → IsSound h
      → gobject_of (h.wrappers w) ≡ none
      → 0 < g.refs h.objects o
      → gobject_of (u.wrappers w) ≡ some o
      → ((v p : ℕ)
          → w ≢ v
          → gobject_of (u.wrappers v) ≡ some p
          → (o ≢ p) × (gobject_of (h.wrappers v) ≡ some p))
      → ((v p : ℕ)
          → w ≢ v
          → o ≢ p
          → gobject_of (h.wrappers v) ≡ some p
          → gobject_of (u.wrappers v) ≡ some p)
      → g.get_qdata u.objects o ≡ some w
      → ((p : ℕ) → o ≢ p → g.get_qdata u.objects p ≡ g.get_qdata h.objects p)
      → ((p : ℕ) → g.refs u.objects p ≡ g.refs h.objects p)
      → IsSound u
  attach-Sound h u w o s free live mine back forth here there count = record {
    linked = λ v p k. elim (ℕ-cases w v) [
      | inl q ↦
          inr (first v p q (some_eq (sym (ap (λ x. gobject_of (u.wrappers x)) (sym q) ∙ mine) ∙ k)))
      | inr d ↦ let (a, b) = back v p d k in inr (other v p a (s.linked v p b))
    ];
    owned = λ p v k. (
      λ x. x,
      elim (ℕ-cases o p) [
        | inl q ↦ second p v q (some_eq (sym here ∙ ap (g.get_qdata u.objects) q ∙ k))
        | inr d ↦ third p v d ((s.owned p v (sym (there p d) ∙ k)).1)
      ],
    );
  }
    where
      first :
          (v p : ℕ) → w ≡ v → o ≡ p → (g.get_qdata u.objects p ≡ some v) × (0 < g.refs u.objects p)
      first v p q r = (
        ap (g.get_qdata u.objects) (sym r) ∙ here ∙ ap some q,
        subst (λ n. 0 < n) (sym (ap (g.refs u.objects) (sym r) ∙ count o)) live,
      )

      other :
          (v p : ℕ)
          → o ≢ p
          → ⊥ ⊎ ((g.get_qdata h.objects p ≡ some v) × (0 < g.refs h.objects p))
          → (g.get_qdata u.objects p ≡ some v) × (0 < g.refs u.objects p)
      other v p d (inl x) = absurd x
      other v p d (inr (a, b)) = (there p d ∙ a, subst (λ n. 0 < n) (sym (count p)) b)

      second : (p v : ℕ) → o ≡ p → w ≡ v → gobject_of (u.wrappers v) ≡ some p
      second p v q r = ap (λ x. gobject_of (u.wrappers x)) (sym r) ∙ mine ∙ ap some q

      third :
          (p v : ℕ)
          → o ≢ p
          → gobject_of (h.wrappers v) ≡ some p
          → gobject_of (u.wrappers v) ≡ some p
      third p v d k = elim (ℕ-cases w v) [
        | inl q ↦ absurd (none-some (sym free ∙ ap (λ x. gobject_of (h.wrappers x)) q ∙ k))
        | inr e ↦ forth v p e d k
      ]

  initialized : Heap g → ℕ → ℕ → ObjectBase → Heap g
  initialized h this o b = record {
    objects = g.set_qdata_full h.objects o this;
    wrappers = put h.wrappers this (some (record b { gobject_ = some o }));
  }

  pub set_gobject-eq :
      (h : Heap g) (this : ℕ) (o : Option ℕ) (b : ObjectBase)
      → h.wrappers this ≡ some b
      → set_gobject g h this o ≡ ok (store g h this (some (record b { gobject_ = o })))
  unfolding set_gobject modify modify_at
  set_gobject-eq h this o b e = rw e

  set_current_wrapper-eq :
      (h : Heap g) (this o : ℕ)
      → g.get_qdata h.objects o ≡ none
      → set_current_wrapper g h this (some o)
        ≡ record h { objects = g.set_qdata_full h.objects o this }
  unfolding set_current_wrapper set_wrapper_at
  set_current_wrapper-eq h this o k = rw k

  initialize-eq :
      (h : Heap g) (this o : ℕ) (b : ObjectBase)
      → h.wrappers this ≡ some b
      → b.gobject_ ≡ none
      → g.get_qdata h.objects o ≡ none
      → initialize g h this (some o) ≡ ok (initialized h this o b)
  unfolding initialize initialize_at read initialized
  initialize-eq h this o b e f k =
      ap (λ r. read g r >>= λ c. initialize_at g h this (some o) c.gobject_) e
      ∙ ap (initialize_at g h this (some o)) f
      ∙ ap (map_ok (λ h'. set_current_wrapper g h' this (some o)))
          (set_gobject-eq h this (some o) b e)
      ∙ ap ok
          (set_current_wrapper-eq (store g h this (some (record b { gobject_ = some o }))) this o k)

  constructed : Heap g → ℕ → ℕ → Heap g
  unfolding initialized
  constructed h this o =
      initialized (store g h this (some anonymous_wrapper)) this o anonymous_wrapper

  construct-eq :
      (h : Heap g) (this o : ℕ)
      → g.get_qdata h.objects o ≡ none
      → construct g h this (some o) ≡ ok (constructed h this o)
  unfolding construct constructed
  construct-eq h this o k =
      initialize-eq (store g h this (some anonymous_wrapper)) this o anonymous_wrapper
        (put_same h.wrappers this (some anonymous_wrapper)) (unfold anonymous_wrapper in refl) k

  constructed-IsSound :
      (h : Heap g) (this o : ℕ)
      → IsSound h
      → h.wrappers this ≡ none
      → g.get_qdata h.objects o ≡ none
      → 0 < g.refs h.objects o
      → IsSound (constructed h this o)
  unfolding constructed
  constructed-IsSound h this o s free k live =
      attach-Sound h (constructed h this o) this o s (ap gobject_of free) live (rw (==_refl this))
        (λ v p d a. unlinked v p d (ap gobject_of (sym (put_twice h.wrappers this v _ _ d)) ∙ a))
        (λ v p d e a. ap gobject_of (put_twice h.wrappers this v _ _ d) ∙ a)
        (g.set-get h.objects o this o k live ∙ rw (==_refl o))
        (λ p d. g.set-get h.objects o this p k live ∙ if_other p d) (g.set-refs h.objects o this)
    where
      not_here :
          (v p : ℕ)
          → o ≡ p
          → ⊥ ⊎ ((g.get_qdata h.objects p ≡ some v) × (0 < g.refs h.objects p))
          → ⊥
      not_here v p q (inl x) = x
      not_here v p q (inr (a, b)) = none-some (sym k ∙ ap (g.get_qdata h.objects) q ∙ a)

      unlinked :
          (v p : ℕ)
          → this ≢ v
          → gobject_of (h.wrappers v) ≡ some p
          → (o ≢ p) × (gobject_of (h.wrappers v) ≡ some p)
      unlinked v p d a = (λ q. not_here v p q (s.linked v p a), a)

      if_other :
          (p : ℕ)
          → o ≢ p
          → (if o == p then some this else g.get_qdata h.objects p) ≡ g.get_qdata h.objects p
      if_other p d = ground arith

  -- A new wrapper of an instance that has none: the constructor succeeds, and they point to each other.
  pub construct-IsSound :
      (h : Heap g) (this o : ℕ)
      → IsSound h
      → h.wrappers this ≡ none
      → g.get_qdata h.objects o ≡ none
      → 0 < g.refs h.objects o
      → (u : Heap g) × (construct g h this (some o) ≡ ok u)
        × IsSound u
        × (g.get_qdata u.objects o ≡ some this)
        × (g.refs u.objects o ≡ g.refs h.objects o)
  construct-IsSound h this o s free k live = (
    constructed h this o,
    construct-eq h this o k,
    constructed-IsSound h this o s free k live,
    unfold constructed in g.set-get h.objects o this o k live ∙ rw (==_refl o),
    unfold constructed in g.set-refs h.objects o this o,
  )
