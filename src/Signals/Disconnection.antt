-- ===== src/Signals/Disconnection.antt =====
-- A node is deleted once, by GLib, and its handler is disconnected at most once.
use glibmm.Base.{
  ℕ, ◌+◌, ◌≤◌, ◌≡◌, refl, sym, subst, Bool, true, false, Option, none, some, none-some, Result, ok,
  arith,
}
use glibmm.Signals.{
  SignalProxyConnectionNode, Connection, connect_changed, delete_node, destroy_notify_handler,
  disconnect, notify_object, notify_at, notify_slot,
}

-- The node exists exactly while the closure does, and has an object only before the first disconnection.
abbrev pub OwnedAt : Option SignalProxyConnectionNode → Bool → ℕ → Type 0
OwnedAt none closure n = (closure ≡ false) × (n ≤ 1)
OwnedAt (some conn) closure n =
    (closure ≡ true) × (n ≤ 1) × ((o : ℕ) → conn.object_ ≡ some o → n ≡ 0)

abbrev pub IsOwned : Connection → Type 0
IsOwned t = OwnedAt t.node t.closure t.disconnects

pub connect_changed-IsOwned : (gobject id : ℕ) → IsOwned (connect_changed gobject id)
unfolding connect_changed
connect_changed-IsOwned gobject id = (refl, omega arith, λ o e. refl)

-- What happens to a connection: its slot is disconnected while the node exists, or GLib calls the destroy
-- function while it has the closure.
pub data Event : Connection → Result Connection → Type 0 where
  notified :
      (t : Connection) (connected now : Bool) (conn : SignalProxyConnectionNode)
      → t.node ≡ some conn
      → Event t (notify_slot t connected now)
  destroyed : (t : Connection) → t.closure ≡ true → Event t (destroy_notify_handler t)

abbrev connection : Option SignalProxyConnectionNode → Bool → ℕ → Connection
connection node closure n = record { node = node; closure = closure; disconnects = n }

abbrev pub Succeeds : Result Connection → Type 0
Succeeds r = (u : Connection) × (r ≡ ok u) × IsOwned u

true-false : true ≡ false → ⊥
true-false h = cc

destroyed-IsOwned :
    (node : Option SignalProxyConnectionNode) (n : ℕ)
    → OwnedAt node true n
    → Succeeds (destroy_notify_handler (connection node true n))
unfolding destroy_notify_handler delete_node
destroyed-IsOwned none n (e, h) = absurd (true-false e)
destroyed-IsOwned (some conn) n (e, h, f) = (connection none false n, refl, (refl, h))

object_notified :
    (conn : SignalProxyConnectionNode) (closure connected now : Bool) (n : ℕ) (o : Option ℕ)
    → conn.object_ ≡ o
    → OwnedAt (some conn) closure n
    → Succeeds (notify_object (connection (some conn) closure n) conn connected now o)
unfolding notify_object disconnect destroy_notify_handler delete_node
object_notified conn closure connected now n none q k = (_, refl, k)
object_notified conn closure false now n (some o) q (e, h, f) = (
  connection (some (record conn { object_ = none })) closure n,
  refl,
  (e, h, λ p x. absurd (none-some x)),
)
object_notified conn closure true false n (some o) q (e, h, f) = (
  connection (some (record { connection_id_ = 0; object_ = none })) closure (n + 1),
  refl,
  (e, omega (arith, f o q), λ p x. absurd (none-some x)),
)
object_notified conn closure true true n (some o) q (e, h, f) =
    (connection none false (n + 1), refl, (refl, omega (arith, f o q)))

node_notified :
    (node : Option SignalProxyConnectionNode) (closure connected now : Bool) (n : ℕ)
    (conn : SignalProxyConnectionNode)
    → node ≡ some conn
    → OwnedAt node closure n
    → Succeeds (notify_slot (connection node closure n) connected now)
unfolding notify_slot notify_at
node_notified none closure connected now n conn e k = absurd (none-some e)
node_notified (some conn') closure connected now n conn e k =
    object_notified conn' closure connected now n conn'.object_ refl k

-- Whatever happens to a connection, in any order: no deleted node is used or deleted again, the node is
-- deleted exactly when GLib lets go of it, and its handler is disconnected at most once.
pub Event-IsOwned : (t : Connection) (r : Result Connection) → IsOwned t → Event t r → Succeeds r
Event-IsOwned t r k (notified _ connected now conn e) =
    node_notified t.node t.closure connected now t.disconnects conn e k
Event-IsOwned t r k (destroyed _ e) =
    subst (λ b. Succeeds (destroy_notify_handler (connection t.node b t.disconnects))) (sym e)
      (destroyed-IsOwned t.node t.disconnects (subst (λ b. OwnedAt t.node b t.disconnects) e k))
