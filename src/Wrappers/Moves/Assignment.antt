-- ===== src/Wrappers/Moves/Assignment.antt =====
-- The move constructor and the move assignment.
use glibmm.Base.{
  none-some, some_eq, ℕ, ◌<◌, ◌≡◌, ◌≢◌, refl, sym, ap, subst, ◌∙◌, Option, none, some, ok, err,
  undefined_behaviour, arith, ◌>>=◌,
}
use glibmm.Wrappers.Notification.Unref.{object_unref-Notified}
use glibmm.Wrappers.GObject.{Objects}
use glibmm.Wrappers.{
  ObjectBase, Heap, store, read, set_gobject, get_current_wrapper, check_previous,
  move_current_wrapper, take_over, initialize_move_at, initialize_move, move_construct, steal,
  release, move_assign,
}
use glibmm.Wrappers.Notification.{gobject_of, put_same, put_other, Sound}
use glibmm.Wrappers.Lifecycle.{IsSound, set_gobject-eq}
use glibmm.Wrappers.References.Destruction.{store-IsSound, set_none-Sound}
use glibmm.Wrappers.References.{if_same, if_other, link_of, steal-Sound}
use glibmm.Wrappers.Moves.{HasMoved, initialize_move-HasMoved, initialize_move-refs}

module _ (g : Objects) where
  abbrev bare : ObjectBase → ObjectBase
  bare s = record s { gobject_ = none }

  construct_from :
      (h : Heap g) (this src o : ℕ) (s : ObjectBase)
      → IsSound g h
      → this ≢ src
      → h.wrappers this ≡ none
      → h.wrappers src ≡ some s
      → s.gobject_ ≡ some o
      → (u : Heap g) × (move_construct g h this src ≡ ok u) × HasMoved g this src o s u
  unfolding move_construct read
  construct_from h this src o s sound d free es q =
      let start = store g h this (some (bare s)) in
      let (u, c, r) =
        initialize_move-HasMoved g start this src o (bare s) s d
          (put_same h.wrappers this (some (bare s))) refl
          (put_other h.wrappers this src (some (bare s)) d ∙ es) q
          (store-IsSound g h this (some (bare s)) sound (ap gobject_of free) refl) in
      (
        u,
        ap
              (λ r. read g r >>= λ t.
                initialize_move g (store g h this (some (bare t))) this t.gobject_ src)
              es
            ∙ ap (λ x. initialize_move g start this x src) q
            ∙ c,
        r,
      )

  construct_from_none :
      (h : Heap g) (this src : ℕ) (s : ObjectBase)
      → h.wrappers src ≡ some s
      → s.gobject_ ≡ none
      → move_construct g h this src ≡ err undefined_behaviour
  unfolding move_construct read initialize_move initialize_move_at move_current_wrapper
      get_current_wrapper check_previous
  construct_from_none h this src s es q =
      let start = store g h this (some (bare s)) in
      ap
        (λ r.
          read g r >>= λ t. initialize_move g (store g h this (some (bare t))) this t.gobject_ src)
        es
      ∙ ap (λ x. initialize_move g start this x src) q
      ∙ ap (λ r. read g r >>= λ c. initialize_move_at g start this none src c.gobject_)
          (put_same h.wrappers this (some (bare s)))
      ∙ ap
          (λ r. r >>= λ h1. move_current_wrapper g h1 this none src >>= λ h2.
            read g (h2.wrappers src) >>= λ p. take_over g h2 this src p)
          (set_gobject-eq g start this none (bare s) (put_same h.wrappers this (some (bare s))))

  -- Moving from a wrapper with an instance to a new one succeeds, and the new wrapper takes over the
  -- instance and the name. Moving from a wrapper without an instance, such as one that has been moved
  -- from, reads the name of the type of nullptr.
  pub move_construct-HasMoved :
      (h : Heap g) (this src : ℕ) (s : ObjectBase)
      → IsSound g h
      → h.wrappers this ≡ none
      → h.wrappers src ≡ some s
      → ((o : ℕ)
          → s.gobject_ ≡ some o
          → (u : Heap g) × (move_construct g h this src ≡ ok u) × HasMoved g this src o s u)
        × (s.gobject_ ≡ none → move_construct g h this src ≡ err undefined_behaviour)
  move_construct-HasMoved h this src s sound free es = (
    λ o q. construct_from h this src o s sound distinct free es q,
    λ q. construct_from_none h this src s es q,
  )
    where
      distinct : this ≢ src
      distinct q = none-some (sym free ∙ ap h.wrappers q ∙ es)

  -- `this` after the instance that it had was released.
  release-some :
      (h : Heap g) (this o : ℕ) (b : ObjectBase)
      → IsSound g h
      → h.wrappers this ≡ some b
      → b.gobject_ ≡ some o
      → (u : Heap g) × (release g h this (some o) ≡ ok u)
        × IsSound g u
        × (u.wrappers this ≡ some (bare b))
        × (u.objects ≡ (g.unref (g.steal_qdata h.objects o) o).0)
        × ((v p : ℕ)
            → this ≢ v
            → gobject_of (h.wrappers v) ≡ some p
            → 0 < g.refs (g.unref (g.steal_qdata h.objects o) o).0 p
            → u.wrappers v ≡ h.wrappers v)
  unfolding release steal
  release-some h this o b sound e f =
      let k = ap gobject_of e ∙ f in
      let stolen = steal-Sound g h this o sound k in
      let live : 0 < g.refs (g.steal_qdata h.objects o) o =
        subst (λ n. 0 < n) (sym (g.steal-refs h.objects o o)) ((link_of g h this o sound k).1) in
      let (u, c, (after, objects, others, gone)) =
        object_unref-Notified g (λ v. v ≡ this) (steal g h o) o stolen live in
      let there : u.wrappers this ≡ some b =
        others this
          (λ x. not_this stolen (g.notified-unref (g.steal_qdata h.objects o) o this live x))
        ∙ e in
      (
        store g u this (some (bare b)),
        ap (λ r. r >>= λ h'. set_gobject g h' this none) c ∙ set_gobject-eq g u this none b there,
        set_none-Sound g u _ this b after refl,
        put_same u.wrappers this (some (bare b)),
        objects,
        λ v p d a alive.
            put_other u.wrappers this v _ d
            ∙ others v (λ x.
              not_alive stolen v p a alive
                (g.notified-unref (g.steal_qdata h.objects o) o v live x)),
      )
    where
      not_this :
          Sound g (λ v. v ≡ this) (steal g h o)
          → (p : ℕ) × (g.get_qdata (g.steal_qdata h.objects o) p ≡ some this)
            × (g.refs (g.unref (g.steal_qdata h.objects o) o).0 p ≡ 0)
          → ⊥
      not_this stolen (p, x, y) = ((stolen.owned p this x).0) refl

      not_alive :
          Sound g (λ v. v ≡ this) (steal g h o)
          → (v p : ℕ) → gobject_of (h.wrappers v) ≡ some p
          → 0 < g.refs (g.unref (g.steal_qdata h.objects o) o).0 p
          → (p' : ℕ) × (g.get_qdata (g.steal_qdata h.objects o) p' ≡ some v)
            × (g.refs (g.unref (g.steal_qdata h.objects o) o).0 p' ≡ 0)
          → ⊥
      not_alive stolen v p a alive (p', x, y) =
          let q : p' ≡ p = some_eq (sym ((stolen.owned p' v x).1) ∙ a) in
          let dead : g.refs (g.unref (g.steal_qdata h.objects o) o).0 p ≡ 0 =
            ap (g.refs (g.unref (g.steal_qdata h.objects o) o).0) (sym q) ∙ y in
          absurd (omega (arith, dead))

  -- The release of `object` leaves the instance `o` alive.
  abbrev pub Survives : Heap g → Option ℕ → ℕ → Type 0
  Survives h none o = Unit
  Survives h (some object) o = 0 < g.refs (g.unref (g.steal_qdata h.objects object) object).0 o

  -- The instances after the release of `object`: its reference is given up.
  abbrev pub released : Heap g → Option ℕ → g.State
  released h none = h.objects
  released h (some object) = (g.unref (g.steal_qdata h.objects object) object).0

  release_then :
      (h : Heap g) (this src o : ℕ) (b s : ObjectBase) (object : Option ℕ)
      → IsSound g h
      → this ≢ src
      → h.wrappers this ≡ some b
      → b.gobject_ ≡ object
      → h.wrappers src ≡ some s
      → s.gobject_ ≡ some o
      → Survives h object o
      → (u : Heap g) × (release g h this object ≡ ok u)
        × IsSound g u
        × (u.wrappers this ≡ some (bare b))
        × (u.wrappers src ≡ some s)
        × (u.objects ≡ released h object)
  unfolding release
  release_then h this src o b s none sound d e f es q a =
      (h, refl, sound, e ∙ ap (λ x. some (record b { gobject_ = x })) f, es, refl)
  release_then h this src o b s (some object) sound d e f es q a =
      let (u, c, after, there, objects, others) = release-some h this object b sound e f in
      (u, c, after, there, others src o d (ap gobject_of es ∙ q) a ∙ es, objects)

  assign_other :
      (h : Heap g) (this src o : ℕ) (b s : ObjectBase)
      → IsSound g h
      → h.wrappers this ≡ some b
      → h.wrappers src ≡ some s
      → s.gobject_ ≡ some o
      → Survives h b.gobject_ o
      → this ≢ src
      → (u : Heap g) × (move_assign g h this src ≡ ok u)
        × HasMoved g this src o s u
        × ((p : ℕ) → g.refs u.objects p ≡ g.refs (released h b.gobject_) p)
  unfolding move_assign read
  assign_other h this src o b s sound e es q a d =
      let (u, c, after, there, kept, objects) =
        release_then h this src o b s b.gobject_ sound d e refl es q a in
      let (w, c', r) =
        initialize_move-HasMoved g u this src o (bare b) s d there refl kept q after in
      (
        w,
        if_other this src (ok h) _ d
            ∙ ap
                (λ r. read g r >>= λ t. release g h this t.gobject_ >>= λ h1.
                  read g (h1.wrappers src) >>= λ s. initialize_move g h1 this s.gobject_ src)
                e
            ∙ ap
                (λ r. r >>= λ h1.
                  read g (h1.wrappers src) >>= λ s. initialize_move g h1 this s.gobject_ src)
                c
            ∙ ap (λ r. read g r >>= λ s. initialize_move g u this s.gobject_ src) kept
            ∙ ap (λ x. initialize_move g u this x src) q
            ∙ c',
        r,
        λ p.
            initialize_move-refs g u w this src o (bare b) s d there refl kept q after c' p
            ∙ ap (λ t. g.refs t p) objects,
      )

  -- The move assignment from a wrapper with an instance, which the release of the instance of `this`
  -- leaves alive, succeeds: `this` takes over the instance and the name, and every instance has the
  -- references that one unref() of the old instance of `this` leaves, all of them if it had none.
  -- Assigning a wrapper to itself changes nothing.
  pub move_assign-HasMoved :
      (h : Heap g) (this src o : ℕ) (b s : ObjectBase)
      → IsSound g h
      → h.wrappers this ≡ some b
      → h.wrappers src ≡ some s
      → s.gobject_ ≡ some o
      → Survives h b.gobject_ o
      → (this ≢ src
          → (u : Heap g) × (move_assign g h this src ≡ ok u)
            × HasMoved g this src o s u
            × ((p : ℕ) → g.refs u.objects p ≡ g.refs (released h b.gobject_) p))
        × (this ≡ src → move_assign g h this src ≡ ok h)
  unfolding move_assign
  move_assign-HasMoved h this src o b s sound e es q a = (
    λ d. assign_other h this src o b s sound e es q a d,
    λ itself. if_same this src (ok h) _ itself,
  )
