-- ===== src/Wrappers/Table.antt =====
-- glib/glibmm/wrap.cc: the table of wrap_new() functions, and the wrapper of an instance that may have none.
-- The quarks are two constants. GType is taken as it is documented; a type and its function are numbers, and
-- each function makes a wrapper as Object_Class::wrap_new() does, with a number of its own.
pub mod Nearest
pub mod Auto
use glibmm.Base.{
  ℕ, zero, suc, ◌<◌, ◌+◌, ◌%◌, ◌^◌, ◌≡◌, ◌≢◌, Bool, true, false, not, ◌&&◌, List, [], ◌∷◌, ◌++◌,
  Option, none, some, Result, ok, err, map_ok, ◌>>=◌, undefined_behaviour, ◌==◌, if◌then◌else◌,
  length, get_elem?,
}
use glibmm.Wrappers.GObject.{Objects}
use glibmm.Wrappers.{Heap, get_current_wrapper, construct, reference}

-- G_OBJECT_TYPE, g_type_parent(), which is 0 for a fundamental type, g_type_interfaces() and
-- g_type_depth(); and the mark that gtkmm sets on an instance whose wrapper was deleted.
pub record Types : Type 0 where
  pub type_of : ℕ → ℕ
  pub parent : ℕ → ℕ
  pub interfaces : ℕ → List ℕ
  pub depth : ℕ → ℕ
  pub depth-parent : (t : ℕ) → t ≢ 0 → depth (parent t) < depth t
  pub cpp_wrapper_deleted : ℕ → Bool

-- `wrap_func_table`, and the index that each type has under `quark_`.
pub record Registry : Type 0 where
  pub wrap_func_table : Option (List (Option ℕ))
  pub qdata : ℕ → ℕ

table_or_new : Option (List (Option ℕ)) → List (Option ℕ)
table_or_new none = none ∷ []
table_or_new (some table) = table

pub wrap_register_init : Registry → Registry
unfolding table_or_new
wrap_register_init r = record r { wrap_func_table = some (table_or_new r.wrap_func_table) }

pub wrap_register_cleanup : Registry → Registry
wrap_register_cleanup r = record r { wrap_func_table = none }

abbrev pub set_index : (ℕ → ℕ) → ℕ → ℕ → ℕ → ℕ
set_index qdata type index t = if type == t then index else qdata t

register_in : Registry → ℕ → ℕ → Option (List (Option ℕ)) → Result Registry
register_in r type func none = err undefined_behaviour
register_in r type func (some table) = ok (record {
  wrap_func_table = some (table ++ some func ∷ []);
  qdata = set_index r.qdata type (length table % 2 ^ 32);
})

pub wrap_register : Registry → ℕ → ℕ → Result Registry
unfolding register_in
wrap_register r type func = if type == 0 then ok r else register_in r type func r.wrap_func_table

-- The call of an element of the table.
function_at : Option (Option ℕ) → Result ℕ
function_at none = err undefined_behaviour
function_at (some none) = err undefined_behaviour
function_at (some (some func)) = ok func

-- `ifaces[i] == interface_type`
is_interface : Option ℕ → ℕ → Bool
is_interface none interface_type = false
is_interface (some i) interface_type = i == interface_type

-- `while(n_ifaces-- && !found)`
interfaces_loop : List ℕ → ℕ → ℕ → Bool
unfolding is_interface
interfaces_loop ifaces zero interface_type = false
interfaces_loop ifaces (suc n) interface_type =
    let rest = interfaces_loop ifaces n interface_type in
    if is_interface (get_elem? ifaces n) interface_type then true else rest

module _ (types : Types) where
  pub gtype_wraps_interface : ℕ → ℕ → Bool
  unfolding interfaces_loop
  gtype_wraps_interface implementer_type interface_type =
      let ifaces = types.interfaces implementer_type in
      interfaces_loop ifaces (length ifaces) interface_type

  -- The loop over the ancestors of a type, on fuel: the function of the first one that has one and
  -- meets the condition.
  wrap_loop : List (Option ℕ) → (ℕ → ℕ) → (ℕ → Bool) → ℕ → ℕ → Option (Result (Option ℕ))
  wrap_loop table qdata meets zero type = none
  wrap_loop table qdata meets (suc fuel) type =
      let rest = wrap_loop table qdata meets fuel (types.parent type) in
      if type == 0
      then some (ok none)
      else if not (qdata type == 0) && meets type
      then some (map_ok some (function_at (get_elem? table (qdata type))))
      else rest

  pub find_wrap_new : List (Option ℕ) → (ℕ → ℕ) → (ℕ → Bool) → ℕ → Option (Result (Option ℕ))
  unfolding wrap_loop function_at
  find_wrap_new table qdata meets type = wrap_loop table qdata meets (suc (types.depth type)) type

  module _ (g : Objects) where
    -- `(*func)(object)`, if there is one.
    call_wrap_new : Heap g → ℕ → ℕ → Option ℕ → Result (Heap g × Option ℕ)
    call_wrap_new h fresh object none = ok (h, none)
    call_wrap_new h fresh object (some func) =
        map_ok (λ u. (u, some fresh)) (construct g h fresh (some object))

    call_found : Heap g → ℕ → ℕ → Option (Result (Option ℕ)) → Option (Result (Heap g × Option ℕ))
    unfolding call_wrap_new
    call_found h fresh object none = none
    call_found h fresh object (some found) =
        some (found >>= λ func. call_wrap_new h fresh object func)

    create_if :
        Registry
        → (ℕ → Bool)
        → Heap g
        → ℕ
        → ℕ
        → Option (List (Option ℕ))
        → Option (Result (Heap g × Option ℕ))
    unfolding call_found
    create_if r meets h fresh object none = some (ok (h, none))
    create_if r meets h fresh object (some table) =
        if types.cpp_wrapper_deleted object
        then some (ok (h, none))
        else call_found h fresh object (find_wrap_new table r.qdata meets (types.type_of object))

    pub wrap_create_new_wrapper : Registry → Heap g → ℕ → ℕ → Option (Result (Heap g × Option ℕ))
    unfolding create_if
    wrap_create_new_wrapper r h fresh object =
        create_if r (λ t. true) h fresh object r.wrap_func_table

    pub wrap_create_new_wrapper_for_interface :
        Registry → Heap g → ℕ → ℕ → ℕ → Option (Result (Heap g × Option ℕ))
    unfolding create_if
    wrap_create_new_wrapper_for_interface r h fresh object interface_gtype =
        create_if r (λ t. gtype_wraps_interface t interface_gtype) h fresh object r.wrap_func_table

    -- `if(take_copy) pCppObject->reference();`
    copy_if : Bool → Heap g → Option ℕ → Result (Heap g × Option ℕ)
    copy_if take_copy h none = ok (h, none)
    copy_if false h (some w) = ok (h, some w)
    copy_if true h (some w) = map_ok (λ u. (u, some w)) (reference g h w)

    copy_created : Bool → Option (Result (Heap g × Option ℕ)) → Option (Result (Heap g × Option ℕ))
    unfolding copy_if
    copy_created take_copy none = none
    copy_created take_copy (some created) = some (created >>= λ (u, w). copy_if take_copy u w)

    wrap_current : Registry → Heap g → ℕ → ℕ → Bool → Option ℕ → Option (Result (Heap g × Option ℕ))
    unfolding copy_created
    wrap_current r h fresh object take_copy none =
        copy_created take_copy (wrap_create_new_wrapper r h fresh object)
    wrap_current r h fresh object take_copy (some w) = some (copy_if take_copy h (some w))

    pub wrap_auto : Registry → Heap g → ℕ → Option ℕ → Bool → Option (Result (Heap g × Option ℕ))
    unfolding wrap_current
    wrap_auto r h fresh none take_copy = some (ok (h, none))
    wrap_auto r h fresh (some object) take_copy =
        wrap_current r h fresh object take_copy (get_current_wrapper g h (some object))
