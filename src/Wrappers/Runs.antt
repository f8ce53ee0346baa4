-- ===== src/Wrappers/Runs.antt =====
-- Instance 3 has one reference and the wrapper 7, instance 4 has two references and the wrapper 8.
use glibmm.Base.{
  none-some, ℕ, ◌-◌, ◌≡◌, ◌≢◌, refl, sym, subst, ◌∙◌, inl, inr, true, false, List, [], ◌∷◌, Option,
  none, some, ok, err, undefined_behaviour, ◌==◌, get_elem?, Bool-cases, arith,
}
use glibmm.Wrappers.Counted.{set_at, counted}
use glibmm.Wrappers.{
  ObjectBase, Heap, put, anonymous_wrapper, initialize, initialize_at, construct, set_gobject,
  modify, modify_at, read, set_current_wrapper, set_wrapper_at, unreference, destroy,
  move_construct, move_assign,
}
use glibmm.Wrappers.Lifecycle.{IsSound, construct-IsSound}
use glibmm.Wrappers.References.Destruction.{destroy-IsSound}
use glibmm.Wrappers.References.{Unreferenced, unreference-Unreferenced}
use glibmm.Wrappers.Moves.{HasMoved}
use glibmm.Wrappers.Moves.Assignment.{released, move_construct-HasMoved, move_assign-HasMoved}
use glibmm.Wrappers.Table.{Types, find_wrap_new, wrap_auto}
use glibmm.Wrappers.Table.Nearest.{IsTable, Nearest, find_wrap_new-Nearest}
use glibmm.Wrappers.Table.Auto.{IsWrapped, wrap_auto-IsWrapped}

abbrev wrapper_of : ℕ → ObjectBase
wrapper_of o = record {
  gobject_ = some o;
  custom_type_name_ = some 0;
  cpp_destruction_in_progress_ = false;
}

abbrev references : ℕ → ℕ
references = set_at (set_at (λ o. 0) 3 1) 4 2

abbrev bare : Heap counted
bare = record { objects = (references, λ o. none); wrappers = λ w. none }

abbrev one_wrapper : Heap counted
one_wrapper = record {
  objects = (references, set_at (λ o. none) 3 (some 7));
  wrappers = put (put (λ w. none) 7 (some anonymous_wrapper)) 7 (some (wrapper_of 3));
}

no_qdata : (n : ℕ) (w : ℕ) → counted.get_qdata bare.objects n ≡ some w → ⊥
no_qdata n w e = ground arith

bare-IsSound : IsSound counted bare
bare-IsSound = record {
  linked = λ w o k. absurd (none-some k);
  owned = λ o w k. absurd (no_qdata o w k);
}

one_constructed : construct counted bare 7 (some 3) ≡ ok one_wrapper
unfolding construct initialize initialize_at set_gobject modify modify_at read set_current_wrapper
    set_wrapper_at anonymous_wrapper
one_constructed = refl

ok_eq : {A : Type 0} {a b : A} → ok a ≡ ok b → a ≡ b
ok_eq h = cc

one_wrapper-IsSound : IsSound counted one_wrapper
one_wrapper-IsSound =
    let (u, c, s, k, n) = construct-IsSound counted bare 7 3 bare-IsSound refl refl (omega arith) in
    subst (IsSound counted) (ok_eq (sym c ∙ one_constructed)) s

abbrev two_wrappers : Heap counted
two_wrappers = record {
  objects = (references, set_at (set_at (λ o. none) 3 (some 7)) 4 (some 8));
  wrappers = put (put one_wrapper.wrappers 8 (some anonymous_wrapper)) 8 (some (wrapper_of 4));
}

two_constructed : construct counted one_wrapper 8 (some 4) ≡ ok two_wrappers
unfolding construct initialize initialize_at set_gobject modify modify_at read set_current_wrapper
    set_wrapper_at anonymous_wrapper
two_constructed = refl

two_wrappers-IsSound : IsSound counted two_wrappers
two_wrappers-IsSound =
    let (u, c, s, k, n) =
      construct-IsSound counted one_wrapper 8 4 one_wrapper-IsSound refl refl (omega arith) in
    subst (IsSound counted) (ok_eq (sym c ∙ two_constructed)) s

unreference-Unreferenced_example :
    (u : Heap counted) × (unreference counted two_wrappers 7 ≡ ok u)
    × Unreferenced counted two_wrappers 7 3 u
unreference-Unreferenced_example =
    unreference-Unreferenced counted two_wrappers 7 3 (wrapper_of 3) two_wrappers-IsSound refl refl

destroy-IsSound_example :
    (u : Heap counted) × (destroy counted two_wrappers 8 ≡ ok u)
    × IsSound counted u
    × (u.wrappers 8 ≡ none)
destroy-IsSound_example =
    destroy-IsSound counted two_wrappers 8 (wrapper_of 4) two_wrappers-IsSound refl

move_construct-HasMoved_example :
    ((o : ℕ)
      → (wrapper_of 3).gobject_ ≡ some o
      → (u : Heap counted) × (move_construct counted two_wrappers 9 7 ≡ ok u)
        × HasMoved counted 9 7 o (wrapper_of 3) u)
    × ((wrapper_of 3).gobject_ ≡ none
        → move_construct counted two_wrappers 9 7 ≡ err undefined_behaviour)
move_construct-HasMoved_example =
    move_construct-HasMoved counted two_wrappers 9 7 (wrapper_of 3) two_wrappers-IsSound refl refl

abbrev assigned : ℕ
assigned = 8

move_assign-HasMoved_example :
    (assigned ≢ 7
      → (u : Heap counted) × (move_assign counted two_wrappers 8 7 ≡ ok u)
        × HasMoved counted 8 7 3 (wrapper_of 3) u
        × ((p : ℕ)
            → counted.refs u.objects p ≡ counted.refs (released counted two_wrappers (some 4)) p))
    × (assigned ≡ 7 → move_assign counted two_wrappers 8 7 ≡ ok two_wrappers)
move_assign-HasMoved_example =
    move_assign-HasMoved counted two_wrappers 8 7 3 (wrapper_of 4) (wrapper_of 3)
      two_wrappers-IsSound refl refl refl (omega arith)

-- The types 2 and 1 with the parent of 2 being 1, and a function for 1.
abbrev types : Types
types = record {
  type_of = λ o. 2;
  parent = λ t. t - 1;
  interfaces = λ t. [];
  depth = λ t. t;
  depth-parent = λ t d. omega arith;
  cpp_wrapper_deleted = λ o. false;
}

abbrev table : List (Option ℕ)
table = none ∷ some 50 ∷ []

abbrev indices : ℕ → ℕ
indices = set_at (λ t. 0) 1 1

indices_filled : (t : ℕ) → indices t ≢ 0 → (f : ℕ) × (get_elem? table (indices t) ≡ some (some f))
indices_filled t d = elim (Bool-cases (1 == t)) [ inl e ↦ (50, rw e) | inr e ↦ absurd (d (rw e)) ]

table-IsTable : IsTable table indices
table-IsTable = record { first = refl; filled = indices_filled }

find_wrap_new-Nearest_example :
    (r : Option ℕ) × (find_wrap_new types table indices (λ t. true) 2 ≡ some (ok r))
    × Nearest types table indices (λ t. true) 2 r
find_wrap_new-Nearest_example =
    find_wrap_new-Nearest types table indices (λ t. true) table-IsTable 2

wrap_auto-IsWrapped_example :
    (u : Heap counted) × (w : Option ℕ) × (wrap_auto types counted
        (record { wrap_func_table = some table; qdata = indices })
        one_wrapper
        8
        (some 4)
        true
      ≡ some (ok (u, w)))
    × IsWrapped types counted table indices table-IsTable one_wrapper 8 4 true u w
wrap_auto-IsWrapped_example =
    wrap_auto-IsWrapped types counted table indices table-IsTable one_wrapper 8 4 true
      one_wrapper-IsSound refl (omega arith)
