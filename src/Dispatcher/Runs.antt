-- ===== src/Dispatcher/Runs.antt =====
-- A thread with one Dispatcher, number 7, of the notifier 1 on the context 0, and the slot 5.
use glibmm.Base.{
  ℕ, ◌≡◌, refl, ap, ◌∙◌, ok, err, undefined_behaviour, [], ◌∷◌, none, some, ◌++◌, false, arith,
}
use glibmm.Dispatcher.Messages.{Message}
use glibmm.Dispatcher.Win32.{
  sends, receives, run, create_event, win32_channel, run-IsSignaled, IsSignaled,
}
use glibmm.Dispatcher.{
  Impl, Notifier, Thread, create_notifier, reference_instance_at, reference_instance, add_impl,
  create_dispatcher, connect, emit, emit_at, emit_by, send_notification, send_at,
  destroy_dispatcher, handler_start, handler_finish, calls,
}
use glibmm.Dispatcher.Safety.{IsSafe, Step, creates, connects, emits}
use glibmm.Dispatcher.Handler.{
  Reach, nothing, next, received, Reach-IsSafe, Step-IsSafe, handler_start-delivers,
}
use glibmm.Dispatcher.Reentrancy.{handler_finish-destroyed}
use mathlib.Core.List.{Memᴰ}

abbrev bare : Thread win32_channel
bare = record { instance_ = none; impls = λ i. none }

abbrev created : Thread win32_channel
created = create_dispatcher win32_channel bare 7 1 0

abbrev connected : Thread win32_channel
connected = connect win32_channel created 7 5

abbrev message : Message
message = record { dispatcher_impl = 7; notifier = 1 }

abbrev woken : Notifier win32_channel
woken = record {
  number = 1;
  orphaned = [];
  ref_count = 1;
  context = 0;
  channel = win32_channel.send win32_channel.empty message;
}

abbrev emitted : Thread win32_channel
emitted = record { instance_ = some woken; impls = connected.impls }

emits-Step : Step win32_channel connected emitted
unfolding create_dispatcher connect emit emit_at emit_by send_notification send_at add_impl
    reference_instance reference_instance_at create_notifier
emits-Step = emits connected emitted 7 refl

connected-Reach : Reach win32_channel connected
unfolding create_dispatcher add_impl reference_instance reference_instance_at create_notifier
    connect
connected-Reach =
    next created connected (next bare created nothing (creates bare 7 1 0 refl))
      (connects created 7 5 tt)

Step-IsSafe_example : IsSafe win32_channel emitted
Step-IsSafe_example =
    Step-IsSafe win32_channel connected emitted emits-Step
      (Reach-IsSafe win32_channel connected connected-Reach)

contents_woken : win32_channel.contents woken.channel ≡ message ∷ []
contents_woken =
    win32_channel.contents-send win32_channel.empty message
    ∙ ap (λ ms. ms ++ message ∷ []) win32_channel.contents-empty

handler_start-delivers_example :
    (r : Impl) × (emitted.impls 7 ≡ some r)
    × (handler_start win32_channel emitted 1
        ≡ ok (received win32_channel emitted woken, calls r.slots))
    × (win32_channel.contents (win32_channel.receive woken.channel).1 ≡ [])
    × (Memᴰ {A = ℕ} 7 [] → r.slots ≡ [])
handler_start-delivers_example =
    handler_start-delivers win32_channel emitted woken message []
      (next connected emitted connected-Reach emits-Step) refl contents_woken

handler_finish-destroyed_example :
    (u : Thread win32_channel) × (destroy_dispatcher win32_channel emitted 7 ≡ ok u)
    × (handler_finish win32_channel u 1 ≡ ok (u, false))
    × (handler_finish win32_channel (create_dispatcher win32_channel u 8 2 0) 1
        ≡ err undefined_behaviour)
unfolding connect create_dispatcher add_impl reference_instance reference_instance_at
handler_finish-destroyed_example =
    handler_finish-destroyed win32_channel emitted.impls woken 7
      (record { slots = 5 ∷ []; notifier = some 1 }) 8 2 0 refl refl refl (omega arith)

run-IsSignaled_example :
    IsSignaled (run create_event (sends message ∷ sends message ∷ receives ∷ []))
run-IsSignaled_example = run-IsSignaled (sends message ∷ sends message ∷ receives ∷ [])
