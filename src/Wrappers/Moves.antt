-- ===== src/Wrappers/Moves.antt =====
-- initialize_move(), on which the move constructor and the move assignment stand.
pub mod Assignment
use glibmm.Base.{
  none-some, some_eq, ℕ, zero, suc, ◌<◌, ◌≡◌, ◌≢◌, refl, sym, ap, subst, ◌∙◌, ◌⊎◌, inl, inr, Bool,
  true, false, List, [], ◌∷◌, Option, none, some, Result, ok, err, undefined_behaviour, ◌==◌,
  if◌then◌else◌, All, Bool-cases, ==_eq, ==_refl, arith, map_ok, ◌>>=◌,
}
use glibmm.Wrappers.GObject.{Objects, In}
use glibmm.Wrappers.{
  ObjectBase, Heap, put, same, store, read, modify_at, modify, set_gobject, get_current_wrapper,
  check_previous, exchange, move_current_wrapper, take_over, initialize_move_at, initialize_move,
  move_construct, object_unref, steal, release, move_assign,
}
use glibmm.Wrappers.Notification.{
  gobject_of, put_same, put_other, put_twice, ℕ-cases, Sound, forget-Sound,
}
use glibmm.Wrappers.Lifecycle.{IsSound, set_gobject-eq, attach-Sound}
use glibmm.Wrappers.References.Destruction.{store-IsSound, set_none-Sound}
use glibmm.Wrappers.References.{if_same, if_other, link_of, steal-Sound}

abbrev with_instance : ObjectBase → Option ℕ → ObjectBase
with_instance b o = record b { gobject_ = o }

abbrev with_name : ObjectBase → ObjectBase → ObjectBase
with_name b p = record b {
  custom_type_name_ = p.custom_type_name_;
  cpp_destruction_in_progress_ = p.cpp_destruction_in_progress_;
}

abbrev cleared : ObjectBase → ObjectBase
cleared b = record b { custom_type_name_ = none; cpp_destruction_in_progress_ = false }

ok_eq : {A : Type 0} {a b : A} → ok a ≡ ok b → a ≡ b
ok_eq h = cc

module _ (g : Objects) where
  modify-eq :
      (h : Heap g) (w : ℕ) (f : ObjectBase → ObjectBase) (b : ObjectBase)
      → h.wrappers w ≡ some b
      → modify g h w f ≡ ok (store g h w (some (f b)))
  unfolding modify modify_at
  modify-eq h w f b e = rw e

  -- After each step of a move: the new wrapper has the instance, the instance the new wrapper, and the
  -- old one none; then the new one has the name, and the old one none.
  attached : Heap g → ℕ → ℕ → ObjectBase → Heap g
  attached h this o b = store g h this (some (with_instance b (some o)))

  left : Heap g → ℕ → ℕ → ℕ → ObjectBase → ObjectBase → Heap g
  left h this src o b s =
      store g (exchange g (attached h this o b) this (some o)) src (some (with_instance s none))

  named : Heap g → ℕ → ℕ → ℕ → ObjectBase → ObjectBase → Heap g
  named h this src o b s =
      store g (left h this src o b s) this
        (some (with_name (with_instance b (some o)) (with_instance s none)))

  moved : Heap g → ℕ → ℕ → ℕ → ObjectBase → ObjectBase → Heap g
  moved h this src o b s =
      store g (named h this src o b s) src (some (cleared (with_instance s none)))

  module _ (h : Heap g) (this src o : ℕ) (b s : ObjectBase) (d : this ≢ src)
      (e : h.wrappers this ≡ some b) (f : b.gobject_ ≡ none) (es : h.wrappers src ≡ some s)
      (k : g.get_qdata h.objects o ≡ some src) where
    back_to : src ≢ this
    back_to q = d (sym q)

    left-eq :
        move_current_wrapper g (attached h this o b) this (some o) src ≡ ok (left h this src o b s)
    unfolding move_current_wrapper exchange attached left get_current_wrapper
    left-eq =
        ap
          (λ c.
            (if same c (some src)
              then ok (attached h this o b)
              else check_previous g (attached h this o b) (some o) src)
            >>= λ h1. set_gobject g (exchange g h1 this (some o)) src none)
          k
        ∙ ap
            (λ t.
              (if t
                then ok (attached h this o b)
                else check_previous g (attached h this o b) (some o) src)
              >>= λ h1. set_gobject g (exchange g h1 this (some o)) src none)
            (==_refl src)
        ∙ set_gobject-eq g (exchange g (attached h this o b) this (some o)) src none s
            (put_other h.wrappers this src _ d ∙ es)

    moved-eq :
        take_over g (left h this src o b s) this src (with_instance s none)
        ≡ ok (moved h this src o b s)
    unfolding take_over left exchange attached named moved
    moved-eq =
        ap (λ r. r >>= λ h1. modify g h1 src cleared)
          (modify-eq (left h this src o b s) this (λ c. with_name c (with_instance s none))
            (with_instance b (some o))
            (put_other (put h.wrappers this (some (with_instance b (some o)))) src this
                (some (with_instance s none)) back_to
              ∙ put_same h.wrappers this (some (with_instance b (some o)))))
        ∙ modify-eq (named h this src o b s) src cleared (with_instance s none) (
            put_other (left h this src o b s).wrappers this src _ d
            ∙ put_same (attached h this o b).wrappers src (some (with_instance s none)))

    left-src : (left h this src o b s).wrappers src ≡ some (with_instance s none)
    unfolding left
    left-src = put_same (exchange g (attached h this o b) this (some o)).wrappers src _

    initialize_move-eq : initialize_move g h this (some o) src ≡ ok (moved h this src o b s)
    unfolding initialize_move initialize_move_at read attached
    initialize_move-eq =
        ap (λ r. read g r >>= λ c. initialize_move_at g h this (some o) src c.gobject_) e
        ∙ ap (initialize_move_at g h this (some o) src) f
        ∙ ap
            (λ r. r >>= λ h1. move_current_wrapper g h1 this (some o) src >>= λ h2.
              read g (h2.wrappers src) >>= λ p. take_over g h2 this src p)
            (set_gobject-eq g h this (some o) b e)
        ∙ ap (λ r. r >>= λ h2. read g (h2.wrappers src) >>= λ p. take_over g h2 this src p) left-eq
        ∙ ap (λ r. read g r >>= λ p. take_over g (left h this src o b s) this src p) left-src
        ∙ moved-eq

    moved-src : (moved h this src o b s).wrappers src ≡ some (cleared (with_instance s none))
    unfolding moved
    moved-src = put_same (named h this src o b s).wrappers src _

    moved-this :
        (moved h this src o b s).wrappers this
        ≡ some (with_name (with_instance b (some o)) (with_instance s none))
    unfolding moved named
    moved-this =
        put_other (named h this src o b s).wrappers src this _ back_to
        ∙ put_same (left h this src o b s).wrappers this _

    moved-other : (v : ℕ) → this ≢ v → src ≢ v → (moved h this src o b s).wrappers v ≡ h.wrappers v
    unfolding moved named left attached exchange
    moved-other v a c = ground arith

    -- Only the old wrapper had the instance.
    other_instance :
        (v p : ℕ)
        → IsSound g h
        → src ≢ v
        → gobject_of (h.wrappers v) ≡ some p
        → (o ≢ p) × (gobject_of (h.wrappers v) ≡ some p)
    other_instance v p sound c a =
        (λ q. c (some_eq (sym k ∙ ap (g.get_qdata h.objects) q ∙ (link_of g h v p sound a).0)), a)

    moved_back :
        (v p : ℕ)
        → IsSound g h
        → this ≢ v
        → gobject_of ((moved h this src o b s).wrappers v) ≡ some p
        → (o ≢ p) × (gobject_of (h.wrappers v) ≡ some p)
    moved_back v p sound a l = elim (ℕ-cases src v) [
      | inl q ↦
          absurd
            (none-some (ap gobject_of (sym moved-src ∙ ap (moved h this src o b s).wrappers q) ∙ l))
      | inr c ↦ other_instance v p sound c (ap gobject_of (sym (moved-other v a c)) ∙ l)
    ]

    moved_forth :
        (v p : ℕ)
        → IsSound g h
        → this ≢ v
        → o ≢ p
        → gobject_of (h.wrappers v) ≡ some p
        → gobject_of ((moved h this src o b s).wrappers v) ≡ some p
    moved_forth v p sound a c l = elim (ℕ-cases src v) [
      | inl q ↦
          absurd (
            c (some_eq (sym ((sound.owned o src k).1) ∙ ap (λ x. gobject_of (h.wrappers x)) q ∙ l)))
      | inr x ↦ ap gobject_of (moved-other v a x) ∙ l
    ]

    moved-objects :
        (moved h this src o b s).objects ≡ g.set_qdata_full (g.steal_qdata h.objects o) o this
    unfolding moved named left attached exchange
    moved-objects = refl

    moved-get :
        (p : ℕ)
        → 0 < g.refs h.objects o
        → g.get_qdata (moved h this src o b s).objects p
          ≡ (if o == p then some this else g.get_qdata (g.steal_qdata h.objects o) p)
    moved-get p live =
        ap (λ t. g.get_qdata t p) moved-objects
        ∙ g.set-get (g.steal_qdata h.objects o) o this p
            (g.steal-get h.objects o o ∙ if_same o o _ _ refl)
            (subst (λ n. 0 < n) (sym (g.steal-refs h.objects o o)) live)

    moved-IsSound :
        IsSound g h
        → IsSound g (moved h this src o b s)
          × (g.get_qdata (moved h this src o b s).objects o ≡ some this)
    moved-IsSound sound =
        let live = (link_of g h src o sound (sound.owned o src k).1).1 in
        let here =
          moved-get o live
          ∙ if_same o o (some this) (g.get_qdata (g.steal_qdata h.objects o) o) refl in
        (
          attach-Sound g h (moved h this src o b s) this o sound (ap gobject_of e ∙ f) live
              (ap gobject_of moved-this) (λ v p a l. moved_back v p sound a l)
              (λ v p a c l. moved_forth v p sound a c l) here
              (λ p c.
                moved-get p live
                ∙ if_other o p (some this) (g.get_qdata (g.steal_qdata h.objects o) p) c
                ∙ g.steal-get h.objects o p
                ∙ if_other o p none (g.get_qdata h.objects p) c)
              (λ p.
                ap (λ t. g.refs t p) moved-objects
                ∙ g.set-refs (g.steal_qdata h.objects o) o this p
                ∙ g.steal-refs h.objects o p),
          here,
        )

  -- The wrapper `this` has the instance and the name that `src` had, `src` has no instance, and the
  -- wrappers and their instances still point to each other.
  abbrev pub HasMoved : ℕ → ℕ → ℕ → ObjectBase → Heap g → Type 0
  HasMoved this src o s u =
      IsSound g u
      × (g.get_qdata u.objects o ≡ some this)
      × (u.wrappers this ≡ some (record s { gobject_ = some o }))
      × (gobject_of (u.wrappers src) ≡ none)

  pub initialize_move-HasMoved :
      (h : Heap g) (this src o : ℕ) (b s : ObjectBase)
      → this ≢ src
      → h.wrappers this ≡ some b
      → b.gobject_ ≡ none
      → h.wrappers src ≡ some s
      → s.gobject_ ≡ some o
      → IsSound g h
      → (u : Heap g) × (initialize_move g h this (some o) src ≡ ok u) × HasMoved this src o s u
  initialize_move-HasMoved h this src o b s d e f es q sound =
      let k = (link_of g h src o sound (ap gobject_of es ∙ q)).0 in
      let (after, here) = moved-IsSound h this src o b s d e f es k sound in
      (
        moved h this src o b s,
        initialize_move-eq h this src o b s d e f es k,
        (
          after,
          here,
          moved-this h this src o b s d e f es k,
          ap gobject_of (moved-src h this src o b s d e f es k),
        ),
      )

  -- A move takes and drops no reference.
  pub initialize_move-refs :
      (h u : Heap g) (this src o : ℕ) (b s : ObjectBase)
      → this ≢ src
      → h.wrappers this ≡ some b
      → b.gobject_ ≡ none
      → h.wrappers src ≡ some s
      → s.gobject_ ≡ some o
      → IsSound g h
      → initialize_move g h this (some o) src ≡ ok u
      → (p : ℕ) → g.refs u.objects p ≡ g.refs h.objects p
  initialize_move-refs h u this src o b s d e f es q sound c p =
      let k = (link_of g h src o sound (ap gobject_of es ∙ q)).0 in
      let same : moved h this src o b s ≡ u =
        ok_eq (sym (initialize_move-eq h this src o b s d e f es k) ∙ c) in
      ap (λ t. g.refs t.objects p) (sym same)
      ∙ ap (λ t. g.refs t p) (moved-objects h this src o b s d e f es k)
      ∙ g.set-refs (g.steal_qdata h.objects o) o this p
      ∙ g.steal-refs h.objects o p
