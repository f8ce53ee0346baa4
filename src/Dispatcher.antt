-- ===== src/Dispatcher.antt =====
-- glib/glibmm/dispatcher.cc: a thread's DispatchNotifier, the Dispatcher objects that share it, and the
-- channel through which any thread wakes it up. Objects on the heap have numbers; a number that the
-- heap does not know belongs to no object, or to a deleted one. create_pipe() is taken to succeed.
pub mod Messages
pub mod Win32
pub mod Safety
pub mod Handler
pub mod Reentrancy
mod Runs
use glibmm.Base.{
  ℕ, suc, ◌+◌, ◌-◌, ◌≡◌, Bool, true, false, List, [], ◌∷◌, ◌++◌, Option, none, some, Result, ok,
  err, undefined_behaviour, ◌==◌, leb, if◌then◌else◌,
}
use Messages.{Channel, Message}

-- Dispatcher::Impl: the slots of `signal_`, and `notifier_` (`none` is nullptr).
pub record Impl : Type 0 where
  pub slots : List ℕ
  pub notifier : Option ℕ

-- DispatchNotifier, with its number; `channel` is the pipe or the queue.
pub record Notifier (c : Channel) : Type 0 where
  pub number : ℕ
  pub orphaned : List ℕ
  pub ref_count : ℕ
  pub context : ℕ
  pub channel : c.State

-- The thread-specific instance and the heap.
pub record Thread (c : Channel) : Type 0 where
  pub instance_ : Option (Notifier c)
  pub impls : ℕ → Option Impl

abbrev pub put : (ℕ → Option Impl) → ℕ → Option Impl → ℕ → Option Impl
put impls i v j = if i == j then v else impls j

abbrev pub delete_all : (ℕ → Option Impl) → List ℕ → ℕ → Option Impl
delete_all impls [] = impls
delete_all impls (i ∷ is) = put (delete_all impls is) i none

-- `signal_.clear()`
abbrev pub clear_signal : Option Impl → Option Impl
clear_signal none = none
clear_signal (some r) = some (record r { slots = [] })

-- `signal_.connect(slot)`
abbrev pub add_slot : ℕ → Option Impl → Option Impl
add_slot slot none = none
add_slot slot (some r) = some (record r { slots = r.slots ++ slot ∷ [] })

module _ (c : Channel) where
  -- The constructor, for an object with a number of its own.
  create_notifier : ℕ → ℕ → Notifier c
  create_notifier number context = record {
    number = number;
    orphaned = [];
    ref_count = 0;
    context = context;
    channel = c.empty;
  }

  reference_instance_at : Thread c → ℕ → ℕ → Option (Notifier c) → Thread c × Option ℕ
  reference_instance_at t number context none = (
    record t { instance_ = some (record (create_notifier number context) { ref_count = 1 }) },
    some number,
  )
  reference_instance_at t number context (some n) =
      if n.context == context
      then (record t { instance_ = some (record n { ref_count = n.ref_count + 1 }) }, some n.number)
      else (t, none)

  -- The number is that of a new DispatchNotifier, if one is made.
  pub reference_instance : Thread c → ℕ → ℕ → Thread c × Option ℕ
  unfolding reference_instance_at create_notifier
  reference_instance t number context = reference_instance_at t number context t.instance_

  add_impl : ℕ → Thread c × Option ℕ → Thread c
  add_impl impl (t, notifier) = record t {
    impls = put t.impls impl (some (record { slots = []; notifier = notifier }));
  }

  -- The constructor of Dispatcher and of its Impl, for a context.
  pub create_dispatcher : Thread c → ℕ → ℕ → ℕ → Thread c
  unfolding add_impl
  create_dispatcher t impl number context = add_impl impl (reference_instance t number context)

  -- `delete dispatcher_impl`, or its move to the orphans while there are messages.
  release_impl : Thread c → Notifier c → ℕ → Thread c
  release_impl t n impl =
      if c.is_empty n.channel
      then record {
        instance_ = some (record n { orphaned = [] });
        impls = delete_all (put t.impls impl none) n.orphaned;
      }
      else record {
        instance_ = some (record n { orphaned = impl ∷ n.orphaned });
        impls = put t.impls impl (clear_signal (t.impls impl));
      }

  -- `--instance->ref_count_`; the destructor deletes the orphans. A count below 0 is only warned of.
  drop_reference_at : Thread c → Option (Notifier c) → Thread c
  drop_reference_at t none = t
  drop_reference_at t (some n) =
      if leb n.ref_count 1
      then if n.ref_count == 1
        then record { instance_ = none; impls = delete_all t.impls n.orphaned }
        else t
      else record t { instance_ = some (record n { ref_count = n.ref_count - 1 }) }

  drop_reference : Thread c → Thread c
  unfolding drop_reference_at
  drop_reference t = drop_reference_at t t.instance_

  -- If both are nullptr, the check succeeds and nullptr is used.
  unreference_at : Thread c → Option (Notifier c) → Option ℕ → ℕ → Result (Thread c)
  unreference_at t none none impl = err undefined_behaviour
  unreference_at t none (some number) impl = ok t
  unreference_at t (some n) none impl = ok t
  unreference_at t (some n) (some number) impl =
      ok (if n.number == number then drop_reference (release_impl t n impl) else t)

  pub unreference_instance : Thread c → Option ℕ → ℕ → Result (Thread c)
  unfolding unreference_at release_impl drop_reference
  unreference_instance t notifier impl = unreference_at t t.instance_ notifier impl

  destroy_at : Thread c → ℕ → Option Impl → Result (Thread c)
  destroy_at t impl none = err undefined_behaviour
  destroy_at t impl (some r) = unreference_instance t r.notifier impl

  -- The destructor of Dispatcher.
  pub destroy_dispatcher : Thread c → ℕ → Result (Thread c)
  unfolding destroy_at
  destroy_dispatcher t impl = destroy_at t impl (t.impls impl)

  pub connect : Thread c → ℕ → ℕ → Thread c
  connect t impl slot = record t { impls = put t.impls impl (add_slot slot (t.impls impl)) }

  -- A notifier that is not the thread's has been deleted.
  send_at : Thread c → Option (Notifier c) → ℕ → ℕ → Result (Thread c)
  send_at t none number impl = err undefined_behaviour
  send_at t (some n) number impl =
      if n.number == number
      then ok (record t {
        instance_ = some (record n {
          channel = c.send n.channel (record { dispatcher_impl = impl; notifier = number });
        });
      })
      else err undefined_behaviour

  pub send_notification : Thread c → ℕ → ℕ → Result (Thread c)
  unfolding send_at
  send_notification t number impl = send_at t t.instance_ number impl

  emit_by : Thread c → ℕ → Option ℕ → Result (Thread c)
  emit_by t impl none = err undefined_behaviour
  emit_by t impl (some number) = send_notification t number impl

  emit_at : Thread c → ℕ → Option Impl → Result (Thread c)
  unfolding emit_by
  emit_at t impl none = err undefined_behaviour
  emit_at t impl (some r) = emit_by t impl r.notifier

  -- Dispatcher::emit() and operator().
  pub emit : Thread c → ℕ → Result (Thread c)
  unfolding emit_at
  emit t impl = emit_at t impl (t.impls impl)

  -- What pipe_io_handler() does before it emits the signal: nothing to do, or the slots to call.
  pub data Started : Type 0 where
    idle : Started
    calls : List ℕ → Started

  emit_signal : Thread c → Option Impl → Result (Thread c × Started)
  emit_signal t none = err undefined_behaviour
  emit_signal t (some r) = ok (t, calls r.slots)

  -- A message for another notifier is only warned of.
  take_message : Thread c → ℕ → Option Message → Result (Thread c × Started)
  unfolding emit_signal
  take_message t this none = ok (t, idle)
  take_message t this (some m) =
      if m.notifier == this then emit_signal t (t.impls m.dispatcher_impl) else ok (t, idle)

  receive_at : Thread c → ℕ → Notifier c → Result (Thread c × Started)
  unfolding take_message
  receive_at t this n =
      let r = c.receive n.channel in
      take_message (record t { instance_ = some (record n { channel = r.1 }) }) this r.0

  handler_start_at : Thread c → ℕ → Option (Notifier c) → Result (Thread c × Started)
  unfolding receive_at
  handler_start_at t this none = err undefined_behaviour
  handler_start_at t this (some n) =
      if n.number == this then receive_at t this n else err undefined_behaviour

  -- pipe_io_handler() of the notifier `this`, up to the emission.
  pub handler_start : Thread c → ℕ → Result (Thread c × Started)
  unfolding handler_start_at
  handler_start t this = handler_start_at t this t.instance_

  clear_orphans : Thread c → Notifier c → Thread c
  clear_orphans t n =
      if c.is_empty n.channel
      then record {
        instance_ = some (record n { orphaned = [] });
        impls = delete_all t.impls n.orphaned;
      }
      else t

  handler_finish_at : Thread c → ℕ → Option (Notifier c) → Result (Thread c × Bool)
  unfolding clear_orphans
  handler_finish_at t this none = ok (t, false)
  handler_finish_at t this (some n) =
      if n.number == this then ok (clear_orphans t n, true) else err undefined_behaviour

  -- pipe_io_handler() behind the emission, and what it returns. It reads the members of `this`, which
  -- is deleted if the thread has another notifier by now. To clear an empty list changes nothing.
  pub handler_finish : Thread c → ℕ → Result (Thread c × Bool)
  unfolding handler_finish_at
  handler_finish t this = handler_finish_at t this t.instance_
