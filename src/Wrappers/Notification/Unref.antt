-- ===== src/Wrappers/Notification/Unref.antt =====
-- What an unref() does to the wrappers.
use glibmm.Base.{
  none-some, some_eq, ℕ, zero, suc, ◌<◌, ◌≡◌, refl, sym, ap, ◌∙◌, ◌⊎◌, inl, inr, List, [], ◌∷◌,
  Option, none, some, ok, All, arith,
}
use glibmm.Wrappers.GObject.{Objects, In}
use glibmm.Wrappers.{ObjectBase, Heap, object_unref}
use glibmm.Wrappers.Notification.{gobject_of, Sound, Exists, Notified, notify_all-Notified}

module _ (g : Objects) where
  In-All : (P : ℕ → Type 0) (ns : List ℕ) → ((w : ℕ) → In w ns → P w) → All P ns
  In-All P [] f = tt
  In-All P (w ∷ ws) f = (f w (inl refl), In-All P ws (λ v x. f v (inr x)))

  Exists-of : (h : Heap g) (w o : ℕ) → gobject_of (h.wrappers w) ≡ some o → Exists g h w
  Exists-of h w o k = go (h.wrappers w) refl
    where
      go : (r : Option ObjectBase) → h.wrappers w ≡ r → Exists g h w
      go none q = absurd (none-some (ap gobject_of (sym q) ∙ k))
      go (some b) q = (b, q)

  -- The state when the notifications start.
  abbrev pub dropped : Heap g → ℕ → Heap g
  dropped h o = record h { objects = (g.unref h.objects o).0 }

  dropped-Sound :
      (e : ℕ → Type 0) (h : Heap g) (o : ℕ)
      → Sound g e h
      → 0 < g.refs h.objects o
      → Sound g (λ v. e v ⊎ In v (g.unref h.objects o).1) (dropped h o)
  dropped-Sound e h o s live = record {
    linked = λ v p k. link v p (s.linked v p k) (g.refs (g.unref h.objects o).0 p) refl;
    owned = λ p v k. own p v k (g.refs (g.unref h.objects o).0 p) refl;
  }
    where
      link :
          (v p : ℕ)
          → e v ⊎ ((g.get_qdata h.objects p ≡ some v) × (0 < g.refs h.objects p))
          → (n : ℕ) → g.refs (g.unref h.objects o).0 p ≡ n
          → (e v ⊎ In v (g.unref h.objects o).1)
            ⊎ ((g.get_qdata (g.unref h.objects o).0 p ≡ some v)
                × (0 < g.refs (g.unref h.objects o).0 p))
      link v p (inl a) n q = inl (inl a)
      link v p (inr (a, b)) zero q = inl (inr (g.unref-notified h.objects o p v live a q))
      link v p (inr (a, b)) (suc n) q =
          let lives : 0 < g.refs (g.unref h.objects o).0 p = omega (arith, q) in
          inr (g.unref-kept h.objects o p live lives ∙ a, lives)

      own :
          (p v : ℕ)
          → g.get_qdata (g.unref h.objects o).0 p ≡ some v
          → (n : ℕ) → g.refs (g.unref h.objects o).0 p ≡ n
          → (e v ⊎ In v (g.unref h.objects o).1 → ⊥) × (gobject_of (h.wrappers v) ≡ some p)
      own p v k zero q = absurd (none-some (sym (g.unref-gone h.objects o p live q) ∙ k))
      own p v k (suc n) q =
          let lives : 0 < g.refs (g.unref h.objects o).0 p = omega (arith, q) in
          let (a, b) = s.owned p v (sym (g.unref-kept h.objects o p live lives) ∙ k) in
          (λ x. not_both x a b, b)
        where
          not_both :
              e v ⊎ In v (g.unref h.objects o).1
              → (e v → ⊥)
              → gobject_of (h.wrappers v) ≡ some p
              → ⊥
          not_both (inl x) a b = a x
          not_both (inr y) a b =
              let (p', c, d) = g.notified-unref h.objects o v live y in
              let same_object : p' ≡ p = some_eq (sym ((s.owned p' v c).1) ∙ b) in
              let gone : g.refs (g.unref h.objects o).0 p ≡ 0 =
                ap (g.refs (g.unref h.objects o).0) (sym same_object) ∙ d in
              absurd (omega (arith, gone, q))

  notified-Exists :
      (e : ℕ → Type 0) (h : Heap g) (o : ℕ)
      → Sound g e h
      → 0 < g.refs h.objects o
      → All (Exists g (dropped h o)) (g.unref h.objects o).1
  notified-Exists e h o s live = In-All (Exists g (dropped h o)) (g.unref h.objects o).1 (λ w x.
      let (p, c, d) = g.notified-unref h.objects o w live x in Exists-of h w p ((s.owned p w c).1))

  -- An unref() deletes the wrappers of the instances that it finalizes, each once.
  pub object_unref-Notified :
      (e : ℕ → Type 0) (h : Heap g) (o : ℕ)
      → Sound g e h
      → 0 < g.refs h.objects o
      → (u : Heap g) × (object_unref g h (some o) ≡ ok u)
        × Notified g e (dropped h o) (g.unref h.objects o).1 u
  unfolding object_unref
  object_unref-Notified e h o s live =
      notify_all-Notified g e (g.unref h.objects o).1 (dropped h o) (dropped-Sound e h o s live)
        (notified-Exists e h o s live) (g.unref-IsDistinct h.objects o live)
