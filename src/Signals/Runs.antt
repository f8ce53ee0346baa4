-- ===== src/Signals/Runs.antt =====
-- A new connection whose slot is disconnected: the handler is disconnected, and GLib destroys the node.
use glibmm.Base.{ℕ, ◌≡◌, refl, true, some}
use glibmm.Signals.{connect_changed, notify_slot}
use glibmm.Signals.Disconnection.{Succeeds, notified, connect_changed-IsOwned, Event-IsOwned}

connect_changed-node :
    (gobject id : ℕ)
    → (connect_changed gobject id).node
      ≡ some (record { connection_id_ = id; object_ = some gobject })
unfolding connect_changed
connect_changed-node gobject id = refl

Event-IsOwned_example : Succeeds (notify_slot (connect_changed 1 2) true true)
Event-IsOwned_example =
    Event-IsOwned (connect_changed 1 2) (notify_slot (connect_changed 1 2) true true)
      (connect_changed-IsOwned 1 2)
      (notified (connect_changed 1 2) true true (record { connection_id_ = 2; object_ = some 1 })
        (connect_changed-node 1 2))
