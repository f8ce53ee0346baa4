-- ===== src/Signals.antt =====
-- glib/glibmm/signalproxy_connectionnode.cc and glib/glibmm/propertyproxy_base.cc: one connection of a slot to a
-- signal of a GObject. What g_signal_handler_is_connected() answers is the argument `connected`; whether
-- g_signal_handler_disconnect() calls the destroy function at once or leaves it for later is `now`.
pub mod Disconnection
mod Runs
use glibmm.Base.{
  ℕ, ◌+◌, Bool, true, false, Option, none, some, Result, ok, err, ◌>>=◌, undefined_behaviour,
  if◌then◌else◌,
}

pub record SignalProxyConnectionNode : Type 0 where
  pub connection_id_ : ℕ
  pub object_ : Option ℕ

-- The node, `none` if it is deleted; whether GLib still has it as the data of a closure; and the calls of
-- g_signal_handler_disconnect() so far.
pub record Connection : Type 0 where
  pub node : Option SignalProxyConnectionNode
  pub closure : Bool
  pub disconnects : ℕ

-- The constructor and connect_changed(), where GLib returns the number of the handler.
pub connect_changed : ℕ → ℕ → Connection
connect_changed gobject id = record {
  node = some (record { connection_id_ = id; object_ = some gobject });
  closure = true;
  disconnects = 0;
}

delete_node : Connection → Option SignalProxyConnectionNode → Result Connection
delete_node t none = err undefined_behaviour
delete_node t (some conn) = ok (record t { node = none; closure = false })

-- destroy_notify_handler(), which GLib calls with the data of the closure.
pub destroy_notify_handler : Connection → Result Connection
unfolding delete_node
destroy_notify_handler t = delete_node t t.node

-- g_signal_handler_disconnect()
disconnect : Connection → Bool → Result Connection
disconnect t false = ok (record t { disconnects = t.disconnects + 1 })
disconnect t true = destroy_notify_handler (record t { disconnects = t.disconnects + 1 })

notify_object : Connection → SignalProxyConnectionNode → Bool → Bool → Option ℕ → Result Connection
unfolding disconnect
notify_object t conn connected now none = ok t
notify_object t conn connected now (some o) =
    if connected
    then disconnect (record t { node = some (record { connection_id_ = 0; object_ = none }) }) now
    else ok (record t { node = some (record conn { object_ = none }) })

notify_at : Connection → Bool → Bool → Option SignalProxyConnectionNode → Result Connection
unfolding notify_object
notify_at t connected now none = err undefined_behaviour
notify_at t connected now (some conn) = notify_object t conn connected now conn.object_

-- notify(), when the slot is disconnected.
pub notify_slot : Connection → Bool → Bool → Result Connection
unfolding notify_at
notify_slot t connected now = notify_at t connected now t.node
