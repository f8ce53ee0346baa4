-- ===== src/Wrappers/References/Destruction.antt =====
-- The destructor.
use glibmm.Base.{
  none-some, ℕ, ◌<◌, ◌≡◌, refl, sym, ap, subst, ◌∙◌, inl, inr, Option, none, some, ok, map_ok,
  ◌>>=◌,
}
use glibmm.Wrappers.Notification.Unref.{object_unref-Notified}
use glibmm.Wrappers.GObject.{Objects, In}
use glibmm.Wrappers.{ObjectBase, Heap, put, store, read, object_unref, steal, destroy_at, destroy}
use glibmm.Wrappers.Notification.{gobject_of, put_same, put_other, ℕ-cases, Sound, forget-Sound}
use glibmm.Wrappers.Lifecycle.{IsSound, set_gobject-eq}
use glibmm.Wrappers.References.{link_of, steal-Sound}

module _ (g : Objects) where
  -- Writing over a wrapper without an instance by one without an instance, or by nothing.
  pub store-IsSound :
      (h : Heap g) (w : ℕ) (r : Option ObjectBase)
      → IsSound g h
      → gobject_of (h.wrappers w) ≡ none
      → gobject_of r ≡ none
      → IsSound g (store g h w r)
  store-IsSound h w r s k f = record {
    linked = λ v p l. elim (ℕ-cases w v) [
      | inl q ↦ absurd (
          none-some
            (sym f ∙ ap gobject_of (sym (put_same h.wrappers w r) ∙ ap (put h.wrappers w r) q) ∙ l))
      | inr d ↦ s.linked v p (ap gobject_of (sym (put_other h.wrappers w v r d)) ∙ l)
    ];
    owned = λ p v l. (λ x. x, own p v ((s.owned p v l).1));
  }
    where
      own :
          (p v : ℕ)
          → gobject_of (h.wrappers v) ≡ some p
          → gobject_of (put h.wrappers w r v) ≡ some p
      own p v a = elim (ℕ-cases w v) [
        | inl q ↦ absurd (none-some (sym k ∙ ap (λ x. gobject_of (h.wrappers x)) q ∙ a))
        | inr d ↦ ap gobject_of (put_other h.wrappers w v r d) ∙ a
      ]

  pub set_none-Sound :
      (h u : Heap g) (w : ℕ) (b : ObjectBase)
      → Sound g (λ v. v ≡ w) h
      → u ≡ store g h w (some (record b { gobject_ = none }))
      → IsSound g u
  set_none-Sound h u w b s e = subst (IsSound g) (sym e) (
      forget-Sound g _ _ h (store g h w (some (record b { gobject_ = none }))) w s refl
        (ap gobject_of (put_same h.wrappers w (some (record b { gobject_ = none }))))
        (λ v d. put_other h.wrappers w v _ d) refl (λ v d q. absurd (d (sym q))) (λ v x. absurd x))

  unnotified :
      (h u : Heap g) (w o : ℕ)
      → IsSound g h
      → 0 < g.refs h.objects o
      → gobject_of (h.wrappers w) ≡ none
      → ((v : ℕ) → (In v (g.unref h.objects o).1 → ⊥) → u.wrappers v ≡ h.wrappers v)
      → gobject_of (u.wrappers w) ≡ none
  unnotified h u w o s live free others =
      ap gobject_of (others w (λ x. alive (g.notified-unref h.objects o w live x))) ∙ free
    where
      alive :
          (p : ℕ) × (g.get_qdata h.objects p ≡ some w) × (g.refs (g.unref h.objects o).0 p ≡ 0) → ⊥
      alive (p, a, b) = none-some (sym free ∙ (s.owned p w a).1)

  -- The wrapper without its instance, which does not know it any more.
  abbrev pub parted : Heap g → ℕ → ℕ → ObjectBase → Heap g
  parted h w o b = steal g (store g h w (some (record b { gobject_ = none }))) o

  destroy_some :
      (h : Heap g) (w o : ℕ) (b : ObjectBase)
      → IsSound g h
      → h.wrappers w ≡ some b
      → b.gobject_ ≡ some o
      → (u : Heap g) × (destroy_at g h w (some o) ≡ ok u)
        × IsSound g u
        × (gobject_of (u.wrappers w) ≡ none)
  unfolding destroy_at steal
  destroy_some h w o b s e f =
      let k = ap gobject_of e ∙ f in
      let sound =
        set_none-Sound (steal g h o) (parted h w o b) w b (steal-Sound g h w o s k) refl in
      let live : 0 < g.refs (g.steal_qdata h.objects o) o =
        subst (λ n. 0 < n) (sym (g.steal-refs h.objects o o)) ((link_of g h w o s k).1) in
      let (u, c, (after, objects, others, gone)) =
        object_unref-Notified g (λ v. ⊥) (parted h w o b) o sound live in
      (
        u,
        ap (λ r. r >>= λ h1. object_unref g (steal g h1 o) (some o)) (set_gobject-eq g h w none b e)
            ∙ c,
        after,
        unnotified (parted h w o b) u w o sound live
            (ap gobject_of (put_same h.wrappers w (some (record b { gobject_ = none })))) others,
      )

  destroy_from :
      (h : Heap g) (w : ℕ) (b : ObjectBase) (object : Option ℕ)
      → IsSound g h
      → h.wrappers w ≡ some b
      → b.gobject_ ≡ object
      → (u : Heap g) × (destroy_at g h w object ≡ ok u)
        × IsSound g u
        × (gobject_of (u.wrappers w) ≡ none)
  unfolding destroy_at
  destroy_from h w b none s e f = (h, refl, s, ap gobject_of e ∙ f)
  destroy_from h w b (some o) s e f = destroy_some h w o b s e f

  -- The destructor of a wrapper succeeds, whether it has an instance or not. The wrapper is gone, and
  -- the others and their instances still point to each other.
  pub destroy-IsSound :
      (h : Heap g) (w : ℕ) (b : ObjectBase)
      → IsSound g h
      → h.wrappers w ≡ some b
      → (u : Heap g) × (destroy g h w ≡ ok u) × IsSound g u × (u.wrappers w ≡ none)
  unfolding destroy read
  destroy-IsSound h w b s e =
      let (u, c, after, free) = destroy_from h w b b.gobject_ s e refl in
      (
        store g u w none,
        ap (λ r. map_ok (λ h'. store g h' w none) (read g r >>= λ d. destroy_at g h w d.gobject_)) e
            ∙ ap (map_ok (λ h'. store g h' w none)) c,
        store-IsSound u w none after free refl,
        put_same u.wrappers w none,
      )
