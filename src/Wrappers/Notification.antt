-- ===== src/Wrappers/Notification.antt =====
-- What the destroy notifications of an unref() leave behind.
pub mod Unref
use glibmm.Base.{
  none-some, ℕ, zero, suc, ◌<◌, ◌≡◌, ◌≢◌, refl, sym, ap, subst, ◌∙◌, ◌⊎◌, inl, inr, List, [], ◌∷◌,
  Option, none, some, ok, ◌==◌, All, Bool-cases, ==_eq, ==_refl, arith, ◌>>=◌,
}
use glibmm.Wrappers.GObject.{Objects, In, IsDistinct}
use glibmm.Wrappers.{
  ObjectBase, Heap, put, store, modify_at, modify, set_gobject, destroy_notify, notify_all,
  object_unref,
}

-- The instance of a wrapper.
abbrev pub gobject_of : Option ObjectBase → Option ℕ
gobject_of none = none
gobject_of (some b) = b.gobject_

pub put_same : (ws : ℕ → Option ObjectBase) (w : ℕ) (v : Option ObjectBase) → put ws w v w ≡ v
put_same ws w v = rw (==_refl w)

pub put_other :
    (ws : ℕ → Option ObjectBase) (w x : ℕ) (v : Option ObjectBase) → w ≢ x → put ws w v x ≡ ws x
put_other ws w x v d = ground arith

pub put_twice :
    (ws : ℕ → Option ObjectBase) (w x : ℕ) (u v : Option ObjectBase)
    → w ≢ x
    → put (put ws w u) w v x ≡ ws x
put_twice ws w x u v d = put_other (put ws w u) w x v d ∙ put_other ws w x u d

pub ℕ-cases : (m n : ℕ) → (m ≡ n) ⊎ (m ≢ n)
ℕ-cases m n = elim (Bool-cases (m == n)) [
  | inl e ↦ inl (==_eq m n e)
  | inr e ↦ inr (λ h. ground arith)
]

module _ (g : Objects) where
  -- A wrapper points to an instance exactly if the instance points to the wrapper and lives, but for the
  -- wrappers of `e`, which no instance points to.
  pub record Sound (e : ℕ → Type 0) (h : Heap g) : Type 0 where
    pub linked :
        (w o : ℕ)
        → gobject_of (h.wrappers w) ≡ some o
        → e w ⊎ ((g.get_qdata h.objects o ≡ some w) × (0 < g.refs h.objects o))
    pub owned :
        (o w : ℕ)
        → g.get_qdata h.objects o ≡ some w
        → (e w → ⊥) × (gobject_of (h.wrappers w) ≡ some o)

  abbrev pub Exists : Heap g → ℕ → Type 0
  Exists h w = (b : ObjectBase) × (h.wrappers w ≡ some b)

  -- The state after the calls: nothing but the wrappers of the list has changed.
  abbrev pub Notified : (ℕ → Type 0) → Heap g → List ℕ → Heap g → Type 0
  Notified e h ns u =
      Sound e u
      × (u.objects ≡ h.objects)
      × ((v : ℕ) → (In v ns → ⊥) → u.wrappers v ≡ h.wrappers v)
      × ((v : ℕ) → In v ns → u.wrappers v ≡ none)

  -- A wrapper of `e` that loses its instance needs no exception.
  pub forget-Sound :
      (e e' : ℕ → Type 0) (h u : Heap g) (w : ℕ)
      → Sound e h
      → u.objects ≡ h.objects
      → gobject_of (u.wrappers w) ≡ none
      → ((v : ℕ) → w ≢ v → u.wrappers v ≡ h.wrappers v)
      → e w
      → ((v : ℕ) → w ≢ v → e v → e' v)
      → ((v : ℕ) → e' v → e v)
      → Sound e' u
  forget-Sound e e' h u w s same_objects gone others there weaker stronger = record {
    linked = λ v o k. elim (ℕ-cases w v) [
      | inl q ↦ absurd (none-some (sym gone ∙ ap (λ x. gobject_of (u.wrappers x)) q ∙ k))
      | inr d ↦ link v o d (s.linked v o (ap gobject_of (sym (others v d)) ∙ k))
    ];
    owned = λ o v k. own o v (s.owned o v (ap (λ t. g.get_qdata t o) (sym same_objects) ∙ k));
  }
    where
      link :
          (v o : ℕ)
          → w ≢ v
          → e v ⊎ ((g.get_qdata h.objects o ≡ some v) × (0 < g.refs h.objects o))
          → e' v ⊎ ((g.get_qdata u.objects o ≡ some v) × (0 < g.refs u.objects o))
      link v o d (inl a) = inl (weaker v d a)
      link v o d (inr a) =
          inr (subst (λ t. (g.get_qdata t o ≡ some v) × (0 < g.refs t o)) (sym same_objects) a)

      own :
          (o v : ℕ)
          → (e v → ⊥) × (gobject_of (h.wrappers v) ≡ some o)
          → (e' v → ⊥) × (gobject_of (u.wrappers v) ≡ some o)
      own o v (a, b) =
          (λ x. a (stronger v x), ap gobject_of (others v (λ q. a (subst e q there))) ∙ b)

  destroyed : Heap g → ℕ → ObjectBase → Heap g
  destroyed h w b = store g (store g h w (some (record b { gobject_ = none }))) w none

  destroy_notify-eq :
      (h : Heap g) (w : ℕ) (b : ObjectBase)
      → h.wrappers w ≡ some b
      → destroy_notify g h w ≡ ok (destroyed h w b)
  unfolding destroy_notify set_gobject modify modify_at destroyed
  destroy_notify-eq h w b k = rw k

  destroyed-other :
      (h : Heap g) (w : ℕ) (b : ObjectBase) (v : ℕ)
      → w ≢ v
      → (destroyed h w b).wrappers v ≡ h.wrappers v
  unfolding destroyed
  destroyed-other h w b v d = ground arith

  destroyed-objects : (h : Heap g) (w : ℕ) (b : ObjectBase) → (destroyed h w b).objects ≡ h.objects
  unfolding destroyed
  destroyed-objects h w b = refl

  destroyed-none : (h : Heap g) (w : ℕ) (b : ObjectBase) → (destroyed h w b).wrappers w ≡ none
  unfolding destroyed
  destroyed-none h w b = rw (==_refl w)

  destroyed-Exists :
      (h : Heap g) (w : ℕ) (b : ObjectBase) (ws : List ℕ)
      → (In w ws → ⊥)
      → All (Exists h) ws
      → All (Exists (destroyed h w b)) ws
  destroyed-Exists h w b [] d a = tt
  destroyed-Exists h w b (v ∷ ws) d ((c, k), a) = (
    (c, destroyed-other h w b v (λ q. d (inl q)) ∙ k),
    destroyed-Exists h w b ws (λ q. d (inr q)) a,
  )

  destroyed-Sound :
      (e : ℕ → Type 0) (h : Heap g) (w : ℕ) (b : ObjectBase) (ws : List ℕ)
      → Sound (λ v. e v ⊎ In v (w ∷ ws)) h
      → Sound (λ v. e v ⊎ In v ws) (destroyed h w b)
  unfolding destroyed
  destroyed-Sound e h w b ws s =
      forget-Sound _ _ h (destroyed h w b) w s refl (ap gobject_of (destroyed-none h w b))
        (destroyed-other h w b) (inr (inl refl)) weaker stronger
    where
      weaker : (v : ℕ) → w ≢ v → e v ⊎ In v (w ∷ ws) → e v ⊎ In v ws
      weaker v d (inl a) = inl a
      weaker v d (inr (inl q)) = absurd (d (sym q))
      weaker v d (inr (inr a)) = inr a

      stronger : (v : ℕ) → e v ⊎ In v ws → e v ⊎ In v (w ∷ ws)
      stronger v (inl a) = inl a
      stronger v (inr a) = inr (inr a)

  nil-Sound : (e : ℕ → Type 0) (h : Heap g) → Sound (λ v. e v ⊎ In v []) h → Sound e h
  nil-Sound e h s = record {
    linked = λ v o k. left v (s.linked v o k);
    owned = λ o v k. let (a, b) = s.owned o v k in (λ x. a (inl x), b);
  }
    where
      left : {B : Type 0} (v : ℕ) → (e v ⊎ In v []) ⊎ B → e v ⊎ B
      left v (inl (inl a)) = inl a
      left v (inl (inr a)) = absurd a
      left v (inr b) = inr b

  pub notify_all-Notified :
      (e : ℕ → Type 0) (ns : List ℕ) (h : Heap g)
      → Sound (λ v. e v ⊎ In v ns) h
      → All (Exists h) ns
      → IsDistinct ns
      → (u : Heap g) × (notify_all g h ns ≡ ok u) × Notified e h ns u
  unfolding notify_all
  notify_all-Notified e [] h s a d =
      (h, refl, (nil-Sound e h s, refl, λ v n. refl, λ v n. absurd n))
  notify_all-Notified e (w ∷ ws) h s ((b, k), a) (n, d) =
      let (u, c, (sound, objects, others, gone)) =
        notify_all-Notified e ws (destroyed h w b) (destroyed-Sound e h w b ws s)
          (destroyed-Exists h w b ws n a) d in
      (
        u,
        ap (λ r. r >>= λ h'. notify_all g h' ws) (destroy_notify-eq h w b k) ∙ c,
        (
          sound,
          objects ∙ destroyed-objects h w b,
          λ v x. others v (λ y. x (inr y)) ∙ destroyed-other h w b v (λ q. x (inl (sym q))),
          λ v x. go u v x others gone,
        ),
      )
    where
      go :
          (u : Heap g) (v : ℕ)
          → In v (w ∷ ws)
          → ((v : ℕ) → (In v ws → ⊥) → u.wrappers v ≡ (destroyed h w b).wrappers v)
          → ((v : ℕ) → In v ws → u.wrappers v ≡ none)
          → u.wrappers v ≡ none
      go u v (inl q) others gone =
          others v (λ y. n (subst (λ z. In z ws) q y))
          ∙ ap (destroyed h w b).wrappers q
          ∙ destroyed-none h w b
      go u v (inr y) others gone = gone v y
