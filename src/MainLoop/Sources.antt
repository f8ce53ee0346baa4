-- ===== src/MainLoop/Sources.antt =====
-- SourceConnectionNode, SourceCallbackData and the life of a Source in glib/glibmm/main.cc, for one Source and
-- its GSource. Connection nodes are numbered. GLib calls the destroy function of the callback data once, and
-- frees the GSource once, in g_source_destroy(), in g_source_unref() or by itself: whether it does so in a
-- call is the arguments `notifies` and `frees`. The use of a deleted object, of a GSource that is freed too,
-- is `err undefined_behaviour`.
pub mod Lifetime
pub mod Unreferenced
pub mod Connections
pub mod Calls
pub mod Dangling
mod Runs
use glibmm.Base.{
  ℕ, suc, ◌+◌, ◌-◌, Bool, true, false, Option, none, some, Result, ok, err, ◌>>=◌, map_ok,
  undefined_behaviour, ◌==◌, if◌then◌else◌,
}

-- Whether `source_` is the GSource, which may be freed, or nullptr.
pub record SourceConnectionNode : Type 0 where
  pub source_ : Bool

-- Whether there is a wrapper, and the node.
pub record SourceCallbackData : Type 0 where
  pub wrapper : Bool
  pub node : Option ℕ

-- The counts are atomic; they are not below 1 when they are decremented.
pub record Source : Type 0 where
  pub keep_wrapper_ : ℕ
  pub ref_count_ : ℕ

-- Whether the memory is there, and g_source_is_destroyed(): GLib may call the destroy function later than
-- it destroys the GSource.
pub record GSource : Type 0 where
  pub is_there : Bool
  pub is_destroyed : Bool

-- The GSource, the Source, the callback data, the nodes, and how many references to the GSource the Source
-- has dropped.
pub record World : Type 0 where
  pub gsource : GSource
  pub source : Option Source
  pub callback_data : Option SourceCallbackData
  pub nodes : ℕ → Option SourceConnectionNode
  pub unrefs : ℕ

abbrev pub set_at :
    (ℕ → Option SourceConnectionNode)
    → ℕ
    → Option SourceConnectionNode
    → ℕ
    → Option SourceConnectionNode
set_at nodes n v m = if n == m then v else nodes m

abbrev pub set_source : World → Option Source → World
set_source t s = record t { source = s }

abbrev pub set_data : World → Option SourceCallbackData → World
set_data t d = record t { callback_data = d }

abbrev pub set_nodes : World → (ℕ → Option SourceConnectionNode) → World
set_nodes t nodes = record t { nodes = nodes }

abbrev pub free_gsource : Bool → World → World
free_gsource false t = t
free_gsource true t = record t { gsource = record t.gsource { is_there = false } }

abbrev pub count_unref : World → World
count_unref t = record t { unrefs = t.unrefs + 1 }

-- The constructor, with the callback data that it makes.
pub create_source : World
create_source = record {
  gsource = record { is_there = true; is_destroyed = false };
  source = some (record { keep_wrapper_ = 2; ref_count_ = 1 });
  callback_data = some (record { wrapper = true; node = none });
  nodes = λ n. none;
  unrefs = 0;
}

read_source : Option Source → Result Source
read_source none = err undefined_behaviour
read_source (some s) = ok s

pub keep_less : World → Source → World
keep_less t s =
    if s.keep_wrapper_ == 1
    then set_source t none
    else set_source t (some (record s { keep_wrapper_ = s.keep_wrapper_ - 1 }))

-- Source::destroy_notify_callback2(), of the wrapper or of nullptr.
pub destroy_notify_callback2 : World → Bool → Result World
unfolding keep_less read_source
destroy_notify_callback2 t false = ok t
destroy_notify_callback2 t true = map_ok (keep_less t) (read_source t.source)

delete_at : World → ℕ → Option SourceConnectionNode → Result World
delete_at t n none = err undefined_behaviour
delete_at t n (some node) = ok (set_nodes t (set_at t.nodes n none))

-- SourceConnectionNode::destroy_notify_callback(), of a node or of nullptr.
pub delete_node : World → Option ℕ → Result World
unfolding delete_at
delete_node t none = ok t
delete_node t (some n) = delete_at t n (t.nodes n)

destroy_data_at : World → Option SourceCallbackData → Result World
destroy_data_at t none = err undefined_behaviour
destroy_data_at t (some d) = delete_node t d.node >>= λ u.
    map_ok (λ v. set_data v none) (destroy_notify_callback2 u d.wrapper)

-- SourceCallbackData::destroy_notify_callback()
pub destroy_data : World → Result World
unfolding destroy_data_at
destroy_data t = destroy_data_at t t.callback_data

-- What GLib does to the callback data and to the GSource.
pub when : Bool → Bool → World → Result World
when false frees t = ok (free_gsource frees t)
when true frees t = map_ok (free_gsource frees) (destroy_data t)

-- A function of GLib that is called with the GSource.
pub with_gsource : World → Result World → Result World
with_gsource t r = if t.gsource.is_there then r else err undefined_behaviour

abbrev pub mark_destroyed : World → World
mark_destroyed t = record t { gsource = record t.gsource { is_destroyed = true } }

pub g_source_destroy : World → Bool → Bool → Result World
unfolding with_gsource when
g_source_destroy t notifies frees = with_gsource t (when notifies frees (mark_destroyed t))

-- glibmm_source_get_callback_data()
abbrev pub found_data : World → Option SourceCallbackData
found_data t = if t.gsource.is_destroyed then none else t.callback_data

pub reference_source : World → Result World
reference_source t =
    map_ok (λ s. set_source t (some (record s { ref_count_ = s.ref_count_ + 1 })))
      (read_source t.source)

count_less : World → Bool → Bool → Source → Result World
count_less t notifies frees s =
    let fewer = set_source t (some (record s { ref_count_ = s.ref_count_ - 1 })) in
    if s.ref_count_ == 1
    then (destroy_notify_callback2 fewer true >>= λ u.
        with_gsource u (when notifies frees (count_unref u)))
    else ok fewer

pub unreference_source : World → Bool → Bool → Result World
unfolding count_less when with_gsource
unreference_source t notifies frees = read_source t.source >>= λ s. count_less t notifies frees s

set_node_at : World → ℕ → Option SourceCallbackData → Result World
set_node_at t n none = ok t
set_node_at t n (some d) =
    map_ok (λ u. set_data u (some (record d { node = some n }))) (delete_node t d.node)

-- Source::connect_generic(), with the number of the new node.
pub connect_generic : World → ℕ → Result World
unfolding set_node_at with_gsource
connect_generic t n = read_source t.source >>= λ s.
    with_gsource t (
      set_node_at (set_nodes t (set_at t.nodes n (some (record { source_ = false })))) n
        (found_data t))
    >>= λ u. ok (set_nodes u (set_at u.nodes n (some (record { source_ = true }))))

notify_at : World → ℕ → Bool → Bool → Option SourceConnectionNode → Result World
unfolding g_source_destroy
notify_at t n notifies frees none = err undefined_behaviour
notify_at t n notifies frees (some node) =
    if node.source_
    then g_source_destroy (set_nodes t (set_at t.nodes n (some (record { source_ = false }))))
        notifies frees
    else ok t

-- SourceConnectionNode::notify(), when the slot is disconnected.
pub notify : World → ℕ → Bool → Bool → Result World
unfolding notify_at
notify t n notifies frees = notify_at t n notifies frees (t.nodes n)

-- Source::destroy()
pub destroy_source : World → Bool → Bool → Result World
unfolding g_source_destroy
destroy_source t notifies frees = read_source t.source >>= λ s. g_source_destroy t notifies frees

clear_wrapper : Option SourceCallbackData → Option SourceCallbackData
clear_wrapper none = none
clear_wrapper (some d) = some (record d { wrapper = false })

-- ~Source() if a constructor of a derived class throws.
pub abandon_source : World → Bool → Bool → Result World
unfolding clear_wrapper with_gsource
abandon_source t notifies frees = read_source t.source >>= λ s.
    map_ok (λ u. set_source u none)
      (with_gsource t (
        when notifies frees (
          set_data (count_unref t)
            (if t.gsource.is_destroyed then t.callback_data else clear_wrapper t.callback_data))))

dispatch_node : SourceCallbackData → Option ℕ → Result (Option ℕ)
dispatch_node d none = ok none
dispatch_node d (some n) = if d.wrapper then ok (some n) else err undefined_behaviour

dispatch_at : Option SourceCallbackData → Result (Option ℕ)
unfolding dispatch_node
dispatch_at none = ok none
dispatch_at (some d) = dispatch_node d d.node

-- Source::dispatch_vfunc(): the node whose slot is dispatched, if there is one.
pub dispatch_vfunc : World → Result (Option ℕ)
unfolding dispatch_at
dispatch_vfunc t = dispatch_at (found_data t)
