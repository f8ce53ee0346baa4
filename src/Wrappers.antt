-- ===== src/Wrappers.antt =====
-- glib/glibmm/objectbase.cc and the constructors of glib/glibmm/object.cc: the C++ wrappers of GObject
-- instances. Wrappers and instances are numbered; a null pointer is `none`. A function of GObject that gets
-- nullptr warns and does nothing; the name of its type cannot be read. The use of a deleted wrapper is
-- `err undefined_behaviour`.
pub mod GObject
pub mod Notification
pub mod Lifecycle
pub mod References
pub mod Moves
pub mod Table
mod Counted
mod Runs
use glibmm.Base.{
  ℕ, ◌≡◌, Bool, true, false, not, List, [], ◌∷◌, Option, none, some, Result, ok, err, ◌>>=◌,
  undefined_behaviour, assertion_failed, map_ok, ◌==◌, if◌then◌else◌,
}
use GObject.{Objects}

-- A custom_type_name_ is a pointer too; this one is compared with.
abbrev pub anonymous_custom_type_name : ℕ
anonymous_custom_type_name = 0

pub record ObjectBase : Type 0 where
  pub gobject_ : Option ℕ
  pub custom_type_name_ : Option ℕ
  pub cpp_destruction_in_progress_ : Bool

pub record Heap (g : Objects) : Type 0 where
  pub objects : g.State
  pub wrappers : ℕ → Option ObjectBase

abbrev pub put : (ℕ → Option ObjectBase) → ℕ → Option ObjectBase → ℕ → Option ObjectBase
put wrappers w v x = if w == x then v else wrappers x

abbrev pub same : Option ℕ → Option ℕ → Bool
same none none = true
same none (some p) = false
same (some o) none = false
same (some o) (some p) = o == p

pub is_anonymous_custom_ : ObjectBase → Bool
is_anonymous_custom_ b = same b.custom_type_name_ (some anonymous_custom_type_name)

pub is_derived_ : ObjectBase → Bool
is_derived_ b = not (same b.custom_type_name_ none)

-- The constructors: without a name, and with one or nullptr.
pub anonymous_wrapper : ObjectBase
anonymous_wrapper = record {
  gobject_ = none;
  custom_type_name_ = some anonymous_custom_type_name;
  cpp_destruction_in_progress_ = false;
}

pub named_wrapper : Option ℕ → ObjectBase
named_wrapper custom_type_name = record {
  gobject_ = none;
  custom_type_name_ = custom_type_name;
  cpp_destruction_in_progress_ = false;
}

module _ (g : Objects) where
  -- `h` with this wrapper.
  abbrev pub store : Heap g → ℕ → Option ObjectBase → Heap g
  store h w b = record h { wrappers = put h.wrappers w b }

  -- Reading through a pointer to a wrapper.
  pub read : Option ObjectBase → Result ObjectBase
  read none = err undefined_behaviour
  read (some b) = ok b

  pub get_current_wrapper : Heap g → Option ℕ → Option ℕ
  get_current_wrapper h none = none
  get_current_wrapper h (some object) = g.get_qdata h.objects object

  set_wrapper_at : Heap g → ℕ → ℕ → Option ℕ → Heap g
  set_wrapper_at h this object none = record h { objects = g.set_qdata_full h.objects object this }
  set_wrapper_at h this object (some current) = h

  pub set_current_wrapper : Heap g → ℕ → Option ℕ → Heap g
  unfolding set_wrapper_at
  set_current_wrapper h this none = h
  set_current_wrapper h this (some object) =
      set_wrapper_at h this object (g.get_qdata h.objects object)

  modify_at : Heap g → ℕ → (ObjectBase → ObjectBase) → Option ObjectBase → Result (Heap g)
  modify_at h w f none = err undefined_behaviour
  modify_at h w f (some b) = ok (store h w (some (f b)))

  -- Writing through a pointer to a wrapper.
  pub modify : Heap g → ℕ → (ObjectBase → ObjectBase) → Result (Heap g)
  unfolding modify_at
  modify h w f = modify_at h w f (h.wrappers w)

  pub set_gobject : Heap g → ℕ → Option ℕ → Result (Heap g)
  set_gobject h w object = modify h w (λ b. record b { gobject_ = object })

  -- A wrapper that has an instance is not initialized again.
  initialize_at : Heap g → ℕ → Option ℕ → Option ℕ → Result (Heap g)
  unfolding set_gobject
  initialize_at h this castitem (some object) =
      if same (some object) castitem then ok h else err assertion_failed
  initialize_at h this castitem none =
      map_ok (λ h'. set_current_wrapper h' this castitem) (set_gobject h this castitem)

  pub initialize : Heap g → ℕ → Option ℕ → Result (Heap g)
  unfolding initialize_at read
  initialize h this castitem =
      read (h.wrappers this) >>= λ b. initialize_at h this castitem b.gobject_

  -- The warning of an unexpected wrapper reads the name of the type of the instance.
  check_previous : Heap g → Option ℕ → ℕ → Result (Heap g)
  check_previous h none previous = err undefined_behaviour
  check_previous h (some object) previous = ok h

  pub exchange : Heap g → ℕ → Option ℕ → Heap g
  exchange h this none = h
  exchange h this (some object) = record h {
    objects = g.set_qdata_full (g.steal_qdata h.objects object) object this;
  }

  pub move_current_wrapper : Heap g → ℕ → Option ℕ → ℕ → Result (Heap g)
  unfolding check_previous exchange
  move_current_wrapper h this object previous =
      (if same (get_current_wrapper h object) (some previous)
        then ok h
        else check_previous h object previous)
      >>= λ h1. set_gobject (exchange h1 this object) previous none

  take_over : Heap g → ℕ → ℕ → ObjectBase → Result (Heap g)
  take_over h this previous p =
      modify h this (λ b. record b {
        custom_type_name_ = p.custom_type_name_;
        cpp_destruction_in_progress_ = p.cpp_destruction_in_progress_;
      })
      >>= λ h1.
          modify h1 previous
            (λ b. record b { custom_type_name_ = none; cpp_destruction_in_progress_ = false })

  initialize_move_at : Heap g → ℕ → Option ℕ → ℕ → Option ℕ → Result (Heap g)
  unfolding take_over
  initialize_move_at h this castitem previous (some object) =
      if same (some object) castitem then ok h else err assertion_failed
  initialize_move_at h this castitem previous none = set_gobject h this castitem >>= λ h1.
      move_current_wrapper h1 this castitem previous >>= λ h2.
      read (h2.wrappers previous) >>= λ p. take_over h2 this previous p

  pub initialize_move : Heap g → ℕ → Option ℕ → ℕ → Result (Heap g)
  unfolding initialize_move_at
  initialize_move h this castitem previous =
      read (h.wrappers this) >>= λ b. initialize_move_at h this castitem previous b.gobject_

  -- Object(GObject*), in memory with a number of its own.
  pub construct : Heap g → ℕ → Option ℕ → Result (Heap g)
  construct h this castitem = initialize (store h this (some anonymous_wrapper)) this castitem

  -- Object(Object&&); the callbacks of sigc::trackable are left out.
  pub move_construct : Heap g → ℕ → ℕ → Result (Heap g)
  unfolding initialize_move
  move_construct h this src = read (h.wrappers src) >>= λ s.
      initialize_move (store h this (some (record s { gobject_ = none }))) this s.gobject_ src

  -- destroy_notify_(): the destructor finds no instance.
  pub destroy_notify : Heap g → ℕ → Result (Heap g)
  destroy_notify h this = map_ok (λ h'. store h' this none) (set_gobject h this none)

  pub notify_all : Heap g → List ℕ → Result (Heap g)
  notify_all h [] = ok h
  notify_all h (w ∷ ws) = destroy_notify h w >>= λ h'. notify_all h' ws

  -- g_object_unref() with the calls of destroy_notify_callback_() from it.
  pub object_unref : Heap g → Option ℕ → Result (Heap g)
  unfolding notify_all
  object_unref h none = ok h
  object_unref h (some object) =
      notify_all (record h { objects = (g.unref h.objects object).0 }) (g.unref h.objects object).1

  object_ref : Heap g → Option ℕ → Heap g
  object_ref h none = h
  object_ref h (some object) = record h { objects = g.ref h.objects object }

  pub reference : Heap g → ℕ → Result (Heap g)
  unfolding object_ref
  reference h this = map_ok (λ b. object_ref h b.gobject_) (read (h.wrappers this))

  pub unreference : Heap g → ℕ → Result (Heap g)
  unreference h this = read (h.wrappers this) >>= λ b. object_unref h b.gobject_

  pub gobj_copy : Heap g → ℕ → Result (Heap g × Option ℕ)
  unfolding reference
  gobj_copy h this =
      read (h.wrappers this) >>= λ b. map_ok (λ h'. (h', b.gobject_)) (reference h this)

  -- `g_object_steal_qdata(gobject_, quark_)`
  pub steal : Heap g → ℕ → Heap g
  steal h object = record h { objects = g.steal_qdata h.objects object }

  pub release : Heap g → ℕ → Option ℕ → Result (Heap g)
  unfolding steal
  release h this none = ok h
  release h this (some object) =
      object_unref (steal h object) (some object) >>= λ h'. set_gobject h' this none

  -- operator=(ObjectBase&&)
  pub move_assign : Heap g → ℕ → ℕ → Result (Heap g)
  unfolding release
  move_assign h this src =
      if this == src
      then ok h
      else read (h.wrappers this) >>= λ b. release h this b.gobject_ >>= λ h1.
          read (h1.wrappers src) >>= λ s. initialize_move h1 this s.gobject_ src

  destroy_at : Heap g → ℕ → Option ℕ → Result (Heap g)
  destroy_at h this none = ok h
  destroy_at h this (some object) =
      set_gobject h this none >>= λ h1. object_unref (steal h1 object) (some object)

  -- ~ObjectBase(), called by itself if a constructor of a derived class throws.
  pub destroy : Heap g → ℕ → Result (Heap g)
  unfolding destroy_at
  destroy h this =
      map_ok (λ h'. store h' this none)
        (read (h.wrappers this) >>= λ b. destroy_at h this b.gobject_)
