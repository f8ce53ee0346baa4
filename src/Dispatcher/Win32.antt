-- ===== src/Dispatcher/Win32.antt =====
-- The Windows half of dispatcher.cc: `notify_queue_` under `mutex_`, and the manual-reset event
-- `fd_receiver_` that the main loop polls.
use glibmm.Base.{
  ◌≡◌, refl, ap, sym, ◌∙◌, Bool, true, false, not, List, [], ◌∷◌, ◌++◌, Option, none, some,
  if◌then◌else◌,
}
use glibmm.Dispatcher.Messages.{Channel, Message}

pub record Win32 : Type 0 where
  pub notify_queue : List Message
  pub signaled : Bool

abbrev pub is_nil : List Message → Bool
is_nil [] = true
is_nil (m ∷ ms) = false

pub create_event : Win32
create_event = record { notify_queue = []; signaled = false }

-- `SetEvent` if the queue was empty.
pub send_notification_win32 : Win32 → Message → Win32
send_notification_win32 s m = record {
  notify_queue = s.notify_queue ++ m ∷ [];
  signaled = if is_nil s.notify_queue then true else s.signaled;
}

take_front : Win32 → List Message → Option Message × Win32
take_front s [] = (none, record s { signaled = false })
take_front s (m ∷ ms) =
    (some m, record { notify_queue = ms; signaled = if is_nil ms then false else s.signaled })

-- The Windows part of pipe_io_handler(): one message for each call.
pub receive_win32 : Win32 → Option Message × Win32
unfolding take_front
receive_win32 s = take_front s s.notify_queue

pub pipe_is_empty_win32 : Win32 → Bool
pipe_is_empty_win32 s = is_nil s.notify_queue

is_nil-append : (ms : List Message) (m : Message) → is_nil (ms ++ m ∷ []) ≡ false
is_nil-append [] m = refl
is_nil-append (x ∷ ms) m = refl

-- The event is set exactly while messages wait, so no wake-up is lost and none is idle.
abbrev pub IsSignaled : Win32 → Type 0
IsSignaled s = s.signaled ≡ not (is_nil s.notify_queue)

send-IsSignaled :
    (s : Win32) (m : Message) → IsSignaled s → IsSignaled (send_notification_win32 s m)
unfolding send_notification_win32
send-IsSignaled s m h = rw (is_nil-append s.notify_queue m) (split s.notify_queue h)
  where
    split :
        (q : List Message)
        → s.signaled ≡ not (is_nil q)
        → (if is_nil q then true else s.signaled) ≡ true
    split [] h = refl
    split (x ∷ q) h = h

receive-IsSignaled : (s : Win32) → IsSignaled s → IsSignaled (receive_win32 s).1
unfolding receive_win32
receive-IsSignaled s h = split s.notify_queue refl
  where
    split : (q : List Message) → s.notify_queue ≡ q → IsSignaled (take_front s q).1
    split [] e = unfold take_front in ap (λ q. not (is_nil q)) (sym e)
    split (m ∷ []) e = unfold take_front in refl
    split (m ∷ x ∷ ms) e = unfold take_front in h ∙ ap (λ q. not (is_nil q)) e

pub data Call : Type 0 where
  sends : Message → Call
  receives : Call

pub run : Win32 → List Call → Win32
run s [] = s
run s (sends m ∷ calls) = run (send_notification_win32 s m) calls
run s (receives ∷ calls) = run (receive_win32 s).1 calls

run_from : (s : Win32) (calls : List Call) → IsSignaled s → IsSignaled (run s calls)
unfolding run
run_from s [] h = h
run_from s (sends m ∷ calls) h =
    run_from (send_notification_win32 s m) calls (send-IsSignaled s m h)
run_from s (receives ∷ calls) h = run_from (receive_win32 s).1 calls (receive-IsSignaled s h)

-- Whatever threads send and the main loop receives, in any order that the mutex allows: the event is set
-- exactly while messages wait, so that no wake-up is lost and the main loop does not spin.
pub run-IsSignaled : (calls : List Call) → IsSignaled (run create_event calls)
run-IsSignaled calls = run_from create_event calls (unfold create_event in refl)

receive-contents :
    (s : Win32) (q : List Message) → s.notify_queue ≡ q → (receive_win32 s ≡ take_front s q)
unfolding receive_win32
receive-contents s q e = ap (take_front s) e

nil_of : (q : List Message) → is_nil q ≡ true → q ≡ []
nil_of [] h = refl
nil_of (m ∷ ms) h = cc

received_nil :
    (s : Win32)
    → s.notify_queue ≡ []
    → ((receive_win32 s).0 ≡ none) × ((receive_win32 s).1.notify_queue ≡ [])
unfolding take_front
received_nil s e = rw (receive-contents s [] e) (refl, e)

received_cons :
    (s : Win32) (m : Message) (ms : List Message)
    → s.notify_queue ≡ m ∷ ms
    → ((receive_win32 s).0 ≡ some m) × ((receive_win32 s).1.notify_queue ≡ ms)
unfolding take_front
received_cons s m ms e = rw (receive-contents s (m ∷ ms) e) (refl, refl)

-- The queue is a channel: it keeps the order, and loses and invents no message.
pub win32_channel : Channel
win32_channel = record {
  State = Win32;
  empty = create_event;
  send = send_notification_win32;
  receive = receive_win32;
  is_empty = pipe_is_empty_win32;
  contents = λ s. s.notify_queue;
  contents-empty = unfold create_event in refl;
  contents-send = λ s m. unfold send_notification_win32 in refl;
  is_empty-eq = λ s h. nil_of s.notify_queue (unfold pipe_is_empty_win32 in h);
  empty-is_empty = λ s e. unfold pipe_is_empty_win32 in ap is_nil e;
  receive-nil = λ s e. received_nil s e;
  receive-cons = λ s m ms e. received_cons s m ms e;
}
