-- ===== src/Wrappers/Table/Auto.antt =====
-- The wrapper that wrap_auto() returns.
use glibmm.Base.{
  ℕ, suc, ◌<◌, ◌≡◌, refl, ap, ◌∙◌, ◌⊎◌, inl, inr, Bool, true, false, List, Option, none, some, ok,
  map_ok, Bool-cases,
}
use glibmm.Wrappers.GObject.{Objects}
use glibmm.Wrappers.{Heap, get_current_wrapper}
use glibmm.Wrappers.Lifecycle.{IsSound, construct-IsSound}
use glibmm.Wrappers.References.{reference-IsSound}
use glibmm.Wrappers.Table.{
  Types, Registry, call_wrap_new, call_found, create_if, wrap_create_new_wrapper, copy_if,
  copy_created, wrap_current, wrap_auto,
}
use glibmm.Wrappers.Table.Nearest.{IsTable, Nearest, find_wrap_new-Nearest}

module _ (types : Types) (g : Objects) where
  -- Whether a reference is added.
  abbrev pub counted_for : Bool → ℕ → ℕ
  counted_for true n = suc n
  counted_for false n = n

  -- `w` is the wrapper of the instance.
  abbrev pub IsWrapper : Heap g → ℕ → Option ℕ → Bool → Heap g → Type 0
  IsWrapper h o w take_copy u =
      (g.get_qdata u.objects o ≡ w)
      × (g.refs u.objects o ≡ counted_for take_copy (g.refs h.objects o))

  copy_if-IsWrapper :
      (h : Heap g) (o w : ℕ) (take_copy : Bool)
      → IsSound g h
      → g.get_qdata h.objects o ≡ some w
      → (u : Heap g) × (copy_if types g take_copy h (some w) ≡ ok (u, some w))
        × IsSound g u
        × IsWrapper h o (some w) take_copy u
  unfolding copy_if
  copy_if-IsWrapper h o w false s k = (h, refl, s, (k, refl))
  copy_if-IsWrapper h o w true s k =
      let (u, c, sound, there, count) = reference-IsSound g h w o s ((s.owned o w k).1) in
      (u, ap (map_ok (λ u. (u, some w))) c, sound, (there, count))

  module _ (table : List (Option ℕ)) (qdata : ℕ → ℕ) (good : IsTable table qdata) where
    abbrev registry : Registry
    registry = record { wrap_func_table = some table; qdata = qdata }

    -- A type of the instance has a function, and no wrapper of it was deleted.
    abbrev pub Wrappable : ℕ → Type 0
    Wrappable o =
        (types.cpp_wrapper_deleted o ≡ false)
        × (func : ℕ) × Nearest types table qdata (λ t. true) (types.type_of o) (some func)

    -- A wrapper of the instance was deleted, or no type of it has a function.
    abbrev pub NotWrappable : ℕ → Type 0
    NotWrappable o =
        (types.cpp_wrapper_deleted o ≡ true)
        ⊎ Nearest types table qdata (λ t. true) (types.type_of o) none

    -- A new wrapper, or none and nothing changed.
    abbrev Creates : Heap g → ℕ → ℕ → Heap g → Option ℕ → Type 0
    Creates h fresh o u w =
        ((w ≡ none) × (u ≡ h) × NotWrappable o)
        ⊎ ((w ≡ some fresh)
            × Wrappable o
            × IsSound g u
            × (g.get_qdata u.objects o ≡ some fresh)
            × (g.refs u.objects o ≡ g.refs h.objects o))

    found_Creates :
        (h : Heap g) (fresh o : ℕ) (func : Option ℕ)
        → IsSound g h
        → h.wrappers fresh ≡ none
        → g.get_qdata h.objects o ≡ none
        → 0 < g.refs h.objects o
        → types.cpp_wrapper_deleted o ≡ false
        → Nearest types table qdata (λ t. true) (types.type_of o) func
        → (u : Heap g) × (w : Option ℕ) × (call_wrap_new types g h fresh o func ≡ ok (u, w))
          × Creates h fresh o u w
    unfolding call_wrap_new
    found_Creates h fresh o none s free k live present n = (h, none, refl, inl (refl, refl, inr n))
    found_Creates h fresh o (some func) s free k live present n =
        let (u, c, sound, there, count) = construct-IsSound g h fresh o s free k live in
        (
          u,
          some fresh,
          ap (map_ok (λ u. (u, some fresh))) c,
          inr (refl, (present, func, n), sound, there, count),
        )

    create-Creates :
        (h : Heap g) (fresh o : ℕ)
        → IsSound g h
        → h.wrappers fresh ≡ none
        → g.get_qdata h.objects o ≡ none
        → 0 < g.refs h.objects o
        → (u : Heap g) × (w : Option ℕ) × (wrap_create_new_wrapper types g registry h fresh o
            ≡ some (ok (u, w)))
          × Creates h fresh o u w
    unfolding wrap_create_new_wrapper create_if call_found
    create-Creates h fresh o s free k live = elim (Bool-cases (types.cpp_wrapper_deleted o)) [
      | inl deleted ↦ (h, none, rw deleted, inl (refl, refl, inl deleted))
      | inr present ↦
          let (func, c, n) =
            find_wrap_new-Nearest types table qdata (λ t. true) good (types.type_of o) in
          let (u, w, c', r) = found_Creates h fresh o func s free k live present n in
          (u, w, rw (present, c, c'), r)
    ]

    -- What is returned: the wrapper that there was, a new one, or nothing.
    abbrev pub IsWrapped : Heap g → ℕ → ℕ → Bool → Heap g → Option ℕ → Type 0
    IsWrapped h fresh o take_copy u w =
        IsSound g u
        × (((w ≡ none) × (u ≡ h) × (g.get_qdata h.objects o ≡ none) × NotWrappable o)
            ⊎ ((v : ℕ) × (w ≡ some v)
                × IsWrapper h o (some v) take_copy u
                × ((g.get_qdata h.objects o ≡ some v)
                    ⊎ (g.get_qdata h.objects o ≡ none) × (v ≡ fresh) × Wrappable o)))

    created-IsWrapped :
        (h : Heap g) (fresh o : ℕ) (take_copy : Bool) (u : Heap g) (w : Option ℕ)
        → IsSound g h
        → g.get_qdata h.objects o ≡ none
        → Creates h fresh o u w
        → (u' : Heap g) × (w' : Option ℕ) × (copy_if types g take_copy u w ≡ ok (u', w'))
          × IsWrapped h fresh o take_copy u' w'
    unfolding copy_if
    created-IsWrapped h fresh o take_copy u w s k (inl (e, q, n)) =
        (h, none, rw (e, q) refl, (s, inl (refl, refl, k, n)))
    created-IsWrapped h fresh o take_copy u w s k (inr (e, y, sound, there, count)) =
        let (u', c, sound', (there', count')) = copy_if-IsWrapper u o fresh take_copy sound there in
        (
          u',
          some fresh,
          ap (copy_if types g take_copy u) e ∙ c,
          (
            sound',
            inr (
              fresh,
              refl,
              (there', count' ∙ ap (counted_for take_copy) count),
              inr (k, refl, y),
            ),
          ),
        )

    current-IsWrapped :
        (h : Heap g) (fresh o : ℕ) (take_copy : Bool) (current : Option ℕ)
        → IsSound g h
        → h.wrappers fresh ≡ none
        → 0 < g.refs h.objects o
        → g.get_qdata h.objects o ≡ current
        → (u : Heap g) × (w : Option ℕ) × (wrap_current types g registry h fresh o take_copy current
            ≡ some (ok (u, w)))
          × IsWrapped h fresh o take_copy u w
    unfolding wrap_current copy_created
    current-IsWrapped h fresh o take_copy none s free live k =
        let (u, w, c, r) = create-Creates h fresh o s free k live in
        let (u', w', c', r') = created-IsWrapped h fresh o take_copy u w s k r in
        (u', w', ap (copy_created types g take_copy) c ∙ ap some c', r')
    current-IsWrapped h fresh o take_copy (some v) s free live k =
        let (u, c, sound, found) = copy_if-IsWrapper h o v take_copy s k in
        (u, some v, ap some c, (sound, inr (v, refl, found, inl k)))

    -- wrap_auto() succeeds for an instance that lives. An instance that has a wrapper gets that one. Else
    -- a new one is made if its type or an ancestor of it has a function and no wrapper of it was
    -- deleted; otherwise nothing is returned and nothing changes. A wrapper is returned with a
    -- reference more if one is asked for. Wrappers and instances still point to each other.
    pub wrap_auto-IsWrapped :
        (h : Heap g) (fresh o : ℕ) (take_copy : Bool)
        → IsSound g h
        → h.wrappers fresh ≡ none
        → 0 < g.refs h.objects o
        → (u : Heap g) × (w : Option ℕ) × (wrap_auto types g registry h fresh (some o) take_copy
            ≡ some (ok (u, w)))
          × IsWrapped h fresh o take_copy u w
    unfolding wrap_auto get_current_wrapper
    wrap_auto-IsWrapped h fresh o take_copy s free live =
        current-IsWrapped h fresh o take_copy (g.get_qdata h.objects o) s free live refl
