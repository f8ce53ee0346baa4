-- ===== src/Wrappers/References.antt =====
-- References to an instance through its wrapper, and the destructor.
pub mod Destruction
use glibmm.Base.{
  none-some, some_eq, ℕ, suc, ◌<◌, ◌-◌, ◌≡◌, ◌≢◌, refl, sym, ap, subst, ◌∙◌, ◌⊎◌, inl, inr, Option,
  none, some, ok, ◌==◌, if◌then◌else◌, arith, map_ok, ◌>>=◌,
}
use glibmm.Wrappers.Notification.Unref.{dropped, object_unref-Notified}
use glibmm.Wrappers.GObject.{Objects, In}
use glibmm.Wrappers.{
  ObjectBase, Heap, put, store, read, object_unref, object_ref, reference, unreference, steal,
  destroy_at, destroy,
}
use glibmm.Wrappers.Notification.{gobject_of, put_same, put_other, ℕ-cases, Sound, forget-Sound}
use glibmm.Wrappers.Lifecycle.{IsSound, set_gobject-eq}

pub if_same {ℓ} : {A : Type ℓ} (o p : ℕ) (x y : A) → o ≡ p → (if o == p then x else y) ≡ x
if_same o p x y e = ground arith

pub if_other {ℓ} : {A : Type ℓ} (o p : ℕ) (x y : A) → o ≢ p → (if o == p then x else y) ≡ y
if_other o p x y e = ground arith

module _ (g : Objects) where
  -- The link of a wrapper that has an instance.
  pub link_of :
      (h : Heap g) (w o : ℕ)
      → IsSound g h
      → gobject_of (h.wrappers w) ≡ some o
      → (g.get_qdata h.objects o ≡ some w) × (0 < g.refs h.objects o)
  link_of h w o s k = go (s.linked w o k)
    where
      go : {A : Type 0} → ⊥ ⊎ A → A
      go (inl x) = absurd x
      go (inr a) = a

  -- The instance forgets its wrapper, which still points to it.
  pub steal-Sound :
      (h : Heap g) (this o : ℕ)
      → IsSound g h
      → gobject_of (h.wrappers this) ≡ some o
      → Sound g (λ v. v ≡ this) (steal g h o)
  unfolding steal
  steal-Sound h this o s k = record {
    linked = λ v p l.
        let (a, b) = link_of h v p s l in
        elim (ℕ-cases o p) [
          | inl q ↦ inl (some_eq (sym a ∙ ap (g.get_qdata h.objects) (sym q) ∙ there))
          | inr d ↦ inr (kept p d ∙ a, subst (λ n. 0 < n) (sym (g.steal-refs h.objects o p)) b)
        ];
    owned = λ p v l. elim (ℕ-cases o p) [
      | inl q ↦ absurd (none-some (sym (lost p q) ∙ l))
      | inr d ↦ own p v d ((s.owned p v (sym (kept p d) ∙ l)).1)
    ];
  }
    where
      there : g.get_qdata h.objects o ≡ some this
      there = (link_of h this o s k).0

      kept : (p : ℕ) → o ≢ p → g.get_qdata (g.steal_qdata h.objects o) p ≡ g.get_qdata h.objects p
      kept p d = g.steal-get h.objects o p ∙ if_other o p none (g.get_qdata h.objects p) d

      lost : (p : ℕ) → o ≡ p → g.get_qdata (g.steal_qdata h.objects o) p ≡ none
      lost p q = g.steal-get h.objects o p ∙ if_same o p none (g.get_qdata h.objects p) q

      own :
          (p v : ℕ)
          → o ≢ p
          → gobject_of (h.wrappers v) ≡ some p
          → (v ≡ this → ⊥) × (gobject_of (h.wrappers v) ≡ some p)
      own p v d a = (λ q. d (some_eq (sym (ap (λ x. gobject_of (h.wrappers x)) q ∙ k) ∙ a)), a)

  ref-IsSound :
      (h : Heap g) (o : ℕ)
      → IsSound g h
      → 0 < g.refs h.objects o
      → IsSound g (object_ref g h (some o))
  unfolding object_ref
  ref-IsSound h o s live = record {
    linked = λ v p l.
        let (a, b) = link_of h v p s l in
        inr (
          g.ref-get h.objects o p live ∙ a,
          subst (λ n. 0 < n) (sym (g.ref-refs h.objects o p live)) (more p b),
        );
    owned = λ p v l. s.owned p v (sym (g.ref-get h.objects o p live) ∙ l);
  }
    where
      more :
          (p : ℕ)
          → 0 < g.refs h.objects p
          → 0 < (if o == p then suc (g.refs h.objects p) else g.refs h.objects p)
      more p b = ground arith

  reference_at :
      (h : Heap g) (w o : ℕ) (r : Option ObjectBase)
      → h.wrappers w ≡ r
      → gobject_of r ≡ some o
      → reference g h w ≡ ok (object_ref g h (some o))
  unfolding reference read
  reference_at h w o none e k = absurd (none-some k)
  reference_at h w o (some b) e k =
      ap (λ r. map_ok (λ b. object_ref g h b.gobject_) (read g r)) e
      ∙ ap (λ x. ok (object_ref g h x)) k

  -- reference() counts one reference more, and keeps links and wrappers.
  pub reference-IsSound :
      (h : Heap g) (w o : ℕ)
      → IsSound g h
      → gobject_of (h.wrappers w) ≡ some o
      → (u : Heap g) × (reference g h w ≡ ok u)
        × IsSound g u
        × (g.get_qdata u.objects o ≡ some w)
        × (g.refs u.objects o ≡ suc (g.refs h.objects o))
  unfolding object_ref
  reference-IsSound h w o s k =
      let (there, live) = link_of h w o s k in
      (
        object_ref g h (some o),
        reference_at h w o (h.wrappers w) refl k,
        ref-IsSound h o s live,
        g.ref-get h.objects o o live ∙ there,
        g.ref-refs h.objects o o live ∙ if_same o o _ _ refl,
      )

  -- The wrapper of an instance after an unref(): deleted with the last reference, and else left alone.
  abbrev pub Unreferenced : Heap g → ℕ → ℕ → Heap g → Type 0
  Unreferenced h w o u =
      IsSound g u
      × (g.refs h.objects o ≡ 1 → u.wrappers w ≡ none)
      × (1 < g.refs h.objects o
          → (u.wrappers w ≡ h.wrappers w) × (g.refs u.objects o ≡ g.refs h.objects o - 1))

  unref-Unreferenced :
      (h : Heap g) (w o : ℕ)
      → IsSound g h
      → gobject_of (h.wrappers w) ≡ some o
      → (u : Heap g) × (object_unref g h (some o) ≡ ok u) × Unreferenced h w o u
  unref-Unreferenced h w o s k =
      let (there, live) = link_of h w o s k in
      let (u, c, (sound, objects, others, gone)) = object_unref-Notified g (λ v. ⊥) h o s live in
      (
        u,
        c,
        (
          sound,
          λ one.
              gone w (g.unref-notified h.objects o o w live there (g.unref-last h.objects o one)),
          λ many. (
            others w (λ x. alive many (g.notified-unref h.objects o w live x)),
            ap (λ t. g.refs t o) objects ∙ count many,
          ),
        ),
      )
    where
      count : 1 < g.refs h.objects o → g.refs (g.unref h.objects o).0 o ≡ g.refs h.objects o - 1
      count many = g.unref-many h.objects o o many ∙ if_same o o _ _ refl

      alive :
          1 < g.refs h.objects o
          → (p : ℕ) × (g.get_qdata h.objects p ≡ some w) × (g.refs (g.unref h.objects o).0 p ≡ 0)
          → ⊥
      alive many (p, a, b) =
          let same_object : p ≡ o = some_eq (sym ((s.owned p w a).1) ∙ k) in
          let gone : g.refs (g.unref h.objects o).0 o ≡ 0 =
            ap (g.refs (g.unref h.objects o).0) (sym same_object) ∙ b in
          absurd (omega (arith, gone, count many))

  -- unreference() succeeds. With the last reference the wrapper is deleted; with another one left, the
  -- wrapper stays and one reference less is counted. Wrappers and instances still point to each other.
  pub unreference-Unreferenced :
      (h : Heap g) (w o : ℕ) (b : ObjectBase)
      → IsSound g h
      → h.wrappers w ≡ some b
      → b.gobject_ ≡ some o
      → (u : Heap g) × (unreference g h w ≡ ok u) × Unreferenced h w o u
  unfolding unreference read
  unreference-Unreferenced h w o b s e f =
      let (u, c, r) = unref-Unreferenced h w o s (ap gobject_of e ∙ f) in
      (
        u,
        ap (λ r. read g r >>= λ d. object_unref g h d.gobject_) e ∙ ap (object_unref g h) f ∙ c,
        r,
      )
