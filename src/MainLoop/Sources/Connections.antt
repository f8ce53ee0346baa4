-- ===== src/MainLoop/Sources/Connections.antt =====
-- What connect_generic() does to the nodes of a Source.
use glibmm.Base.{
  some_eq, ℕ, ◌≡◌, refl, ap, inl, inr, Bool, true, false, Option, none, some, ok, ◌>>=◌, map_ok,
  ◌==◌, Bool-cases, ==_refl,
}
use glibmm.MainLoop.Sources.{
  GSource, SourceConnectionNode, SourceCallbackData, Source, World, set_at, read_source, set_data,
  set_nodes, with_gsource, set_node_at, connect_generic,
}
use glibmm.MainLoop.Sources.Lifetime.{NodeExists, IsKept, world, delete_node-eq}

-- A new node for the callback data, or a change of one that is there.
set_at-Exists :
    (nodes : ℕ → Option SourceConnectionNode) (n m : ℕ) (c : SourceConnectionNode)
    → (x : SourceConnectionNode) × (nodes m ≡ some x)
    → (x : SourceConnectionNode) × (set_at nodes n (some c) m ≡ some x)
set_at-Exists nodes n m c (x, e) = elim (Bool-cases (n == m)) [
  | inl same ↦ (c, rw same)
  | inr other ↦ (x, rw other e)
]

set_at-NodeExists :
    (nodes : ℕ → Option SourceConnectionNode) (d : Option SourceCallbackData) (n : ℕ)
    (c : SourceConnectionNode)
    → NodeExists nodes d
    → NodeExists (set_at nodes n (some c)) d
set_at-NodeExists nodes none n c f = tt
set_at-NodeExists nodes (some d) n c f = λ m e. set_at-Exists nodes n m c (f m e)

pub set_nodes-IsKept :
    (t : World) (n : ℕ) (c : SourceConnectionNode)
    → IsKept t
    → IsKept (set_nodes t (set_at t.nodes n (some c)))
set_nodes-IsKept t n c k = record {
  keeps = k.keeps;
  node = set_at-NodeExists t.nodes t.callback_data n c k.node;
  dropped = k.dropped;
  freed = k.freed;
}

abbrev pub there : Bool → GSource
there b = record { is_there = true; is_destroyed = b }

-- The new node is registered with the callback data, if that is found.
registers-IsKept :
    (s : Source) (d : Option SourceCallbackData) (nodes : ℕ → Option SourceConnectionNode)
    (unrefs n : ℕ)
    → IsKept (world (there false) (some s) d nodes unrefs)
    → (u : World) × (connect_generic (world (there false) (some s) d nodes unrefs) n ≡ ok u)
      × IsKept u
unfolding connect_generic set_node_at read_source with_gsource
registers-IsKept s none nodes unrefs n k =
    (_, refl, record { keeps = k.keeps; node = tt; dropped = k.dropped; freed = k.freed })
registers-IsKept s (some d) nodes unrefs n k =
    let c : SourceConnectionNode = record { source_ = false } in
    let fresh = set_nodes-IsKept (world (there false) (some s) (some d) nodes unrefs) n c k in
    let (nodes', e) =
      delete_node-eq (world (there false) (some s) (some d) (set_at nodes n (some c)) unrefs) d.node
        fresh.node in
    (
      world (there false) (some s) (some (record d { node = some n }))
          (set_at nodes' n (some (record { source_ = true }))) unrefs,
      ap
          (λ r. map_ok (λ u. set_data u (some (record d { node = some n }))) r >>= λ u.
            ok (set_nodes u (set_at u.nodes n (some (record { source_ = true })))))
          e,
      record {
        keeps = k.keeps;
        node = λ m q. (record { source_ = true }, here nodes' m (some_eq q));
        dropped = k.dropped;
        freed = λ e. cc;
      },
    )
  where
    here :
        (nodes' : ℕ → Option SourceConnectionNode) (m : ℕ)
        → n ≡ m
        → set_at nodes' n (some (record { source_ = true })) m ≡ some (record { source_ = true })
    here nodes' m q = rw (← q, ==_refl n)

pub connects-IsKept :
    (b : Bool) (s : Source) (d : Option SourceCallbackData)
    (nodes : ℕ → Option SourceConnectionNode) (unrefs n : ℕ)
    → IsKept (world (there b) (some s) d nodes unrefs)
    → (u : World) × (connect_generic (world (there b) (some s) d nodes unrefs) n ≡ ok u) × IsKept u
unfolding connect_generic set_node_at read_source with_gsource
connects-IsKept false s d nodes unrefs n k = registers-IsKept s d nodes unrefs n k
connects-IsKept true s d nodes unrefs n k =
    let t = world (there true) (some s) d nodes unrefs in
    let start = set_nodes t (set_at nodes n (some (record { source_ = false }))) in
    (
      set_nodes start (set_at start.nodes n (some (record { source_ = true }))),
      refl,
      set_nodes-IsKept start n (record { source_ = true })
          (set_nodes-IsKept t n (record { source_ = false }) k),
    )
