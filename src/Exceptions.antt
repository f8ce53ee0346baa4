-- ===== src/Exceptions.antt =====
-- glib/glibmm/exceptionhandler.cc: one thread's list of exception handlers. A slot is `none` if it is
-- empty, and else the number of a handler; what handlers do to the list while they run is left out.
use glibmm.Base.{
  ℕ, ◌≡◌, refl, ap, ◌⊎◌, inl, inr, Bool, true, false, List, [], ◌∷◌, ◌++◌, Option, none, some,
  if◌then◌else◌, All,
}

-- What is caught: Glib::Error, std::exception or something else.
pub data Thrown : Type 0 where
  glib_error : Thrown
  std_exception : Thrown
  unknown : Thrown

-- g_error() aborts the program.
pub data Unexpected : Type 0 where
  warned : Unexpected
  aborted : Unexpected

pub unexpected_exception : Thrown → Unexpected
unexpected_exception glib_error = warned
unexpected_exception std_exception = aborted
unexpected_exception unknown = aborted

-- A Glib::Error is warned about; anything else aborts the program.
abbrev pub IsReported : Thrown → Option Unexpected → Type 0
IsReported glib_error u = u ≡ some warned
IsReported std_exception u = u ≡ some aborted
IsReported unknown u = u ≡ some aborted

unexpected_exception-IsReported : (e : Thrown) → IsReported e (some (unexpected_exception e))
unfolding unexpected_exception
unexpected_exception-IsReported glib_error = refl
unexpected_exception-IsReported std_exception = refl
unexpected_exception-IsReported unknown = refl

-- `none` is a thread without a list.
pub add_exception_handler : Option (List (Option ℕ)) → ℕ → List (Option ℕ)
add_exception_handler none slot = some slot ∷ []
add_exception_handler (some handlers) slot = handlers ++ some slot ∷ []

pub record Invoked : Type 0 where
  pub handlers : List (Option ℕ)
  pub called : List ℕ
  pub handled : Bool

-- The handlers that are not empty, in order.
abbrev pub live : List (Option ℕ) → List ℕ
live [] = []
live (none ∷ hs) = live hs
live (some h ∷ hs) = h ∷ live hs

module _ (throws : ℕ → Bool) where
  -- After the call of a slot, which has thrown or not; `later` is the loop from the next slot on.
  after_call : Bool → ℕ → List (Option ℕ) → Invoked → Invoked
  after_call true slot rest later = record {
    handlers = some slot ∷ later.handlers;
    called = slot ∷ later.called;
    handled = later.handled;
  }
  after_call false slot rest later = record {
    handlers = some slot ∷ rest;
    called = slot ∷ [];
    handled = true;
  }

  -- The while loop from `pslot` on; `throws` tells whether a handler throws.
  invoke_loop : List (Option ℕ) → Invoked
  invoke_loop [] = record { handlers = []; called = []; handled = false }
  invoke_loop (none ∷ rest) = invoke_loop rest
  invoke_loop (some slot ∷ rest) = after_call (throws slot) slot rest (invoke_loop rest)

  -- `none` is a return to the main loop.
  finish : Thrown → Invoked → Invoked × Option Unexpected
  finish e r = (r, if r.handled then none else some (unexpected_exception e))

  pub exception_handlers_invoke : Option (List (Option ℕ)) → Thrown → Invoked × Option Unexpected
  unfolding invoke_loop finish
  exception_handlers_invoke none e = finish e (invoke_loop [])
  exception_handlers_invoke (some handlers) e = finish e (invoke_loop handlers)

  abbrev pub Throws : ℕ → Type 0
  Throws h = throws h ≡ true

  -- The handlers up to the first that does not throw have been called, or all, and all have thrown.
  abbrev pub IsInvoked : List ℕ → Invoked → Type 0
  IsInvoked hs r =
      (live r.handlers ≡ hs)
      × (((before : List ℕ) × (h : ℕ) × (after : List ℕ) × (hs ≡ before ++ h ∷ after)
            × (r.called ≡ before ++ h ∷ [])
            × All Throws before
            × (throws h ≡ false)
            × (r.handled ≡ true))
          ⊎ ((r.called ≡ hs) × All Throws hs × (r.handled ≡ false)))

  after_call-IsInvoked :
      (b : Bool) (h : ℕ) (hs : List (Option ℕ)) (r : Invoked)
      → throws h ≡ b
      → IsInvoked (live hs) r
      → IsInvoked (h ∷ live hs) (after_call b h hs r)
  unfolding after_call
  after_call-IsInvoked false h hs r e i = (refl, inl ([], h, live hs, refl, refl, tt, e, refl))
  after_call-IsInvoked true h hs r e (l, inl (before, g, after, s, c, t, g', d)) = (
    ap (λ x. h ∷ x) l,
    inl (h ∷ before, g, after, ap (λ x. h ∷ x) s, ap (λ x. h ∷ x) c, (e, t), g', d),
  )
  after_call-IsInvoked true h hs r e (l, inr (c, t, d)) =
      (ap (λ x. h ∷ x) l, inr (ap (λ x. h ∷ x) c, (e, t), d))

  invoke_loop-IsInvoked : (hs : List (Option ℕ)) → IsInvoked (live hs) (invoke_loop hs)
  unfolding invoke_loop
  invoke_loop-IsInvoked [] = (refl, inr (refl, tt, refl))
  invoke_loop-IsInvoked (none ∷ hs) = invoke_loop-IsInvoked hs
  invoke_loop-IsInvoked (some h ∷ hs) =
      after_call-IsInvoked (throws h) h hs (invoke_loop hs) refl (invoke_loop-IsInvoked hs)

  -- On an exception, the handlers that are not empty are called in order up to the first that does not
  -- throw, and none of them leaves the list. If one does not throw, control goes back to the main loop;
  -- if all of them throw, it does after a warning about a Glib::Error, and else the program is aborted.
  pub exception_handlers_invoke-IsInvoked :
      (hs : List (Option ℕ)) (e : Thrown)
      → IsInvoked (live hs) (exception_handlers_invoke (some hs) e).0
        × (((exception_handlers_invoke (some hs) e).0.handled ≡ true)
              × ((exception_handlers_invoke (some hs) e).1 ≡ none)
            ⊎ ((exception_handlers_invoke (some hs) e).0.handled ≡ false)
              × IsReported e (exception_handlers_invoke (some hs) e).1)
  unfolding exception_handlers_invoke finish
  exception_handlers_invoke-IsInvoked hs e =
      (invoke_loop-IsInvoked hs, outcome (invoke_loop hs).handled refl)
    where
      outcome :
          (b : Bool)
          → (invoke_loop hs).handled ≡ b
          → ((invoke_loop hs).handled ≡ true) × ((finish e (invoke_loop hs)).1 ≡ none)
            ⊎ ((invoke_loop hs).handled ≡ false) × IsReported e (finish e (invoke_loop hs)).1
      outcome true q = inl (q, rw q)
      outcome false q = inr (q, rw q (unexpected_exception-IsReported e))

loop_last :
    (throws : ℕ → Bool) (slot : ℕ) (b : Bool)
    → (after_call throws b slot [] (invoke_loop throws [])).called ≡ slot ∷ []
unfolding after_call invoke_loop
loop_last throws slot true = refl
loop_last throws slot false = refl

loop_added :
    (throws : ℕ → Bool) (slot : ℕ) (hs : List (Option ℕ))
    → All (λ h. throws h ≡ true) (live hs)
    → (invoke_loop throws (hs ++ some slot ∷ [])).called ≡ live hs ++ slot ∷ []
unfolding invoke_loop after_call
loop_added throws slot [] t = loop_last throws slot (throws slot)
loop_added throws slot (none ∷ hs) t = loop_added throws slot hs t
loop_added throws slot (some h ∷ hs) (p, t) = rw p (ap (λ x. h ∷ x) (loop_added throws slot hs t))

-- A new handler is called behind the others that are not empty, if all of them throw.
pub add_exception_handler-called :
    (throws : ℕ → Bool) (hs : List (Option ℕ)) (slot : ℕ) (e : Thrown)
    → All (λ h. throws h ≡ true) (live hs)
    → (exception_handlers_invoke throws (some (add_exception_handler (some hs) slot)) e).0.called
      ≡ live hs ++ slot ∷ []
unfolding exception_handlers_invoke finish add_exception_handler
add_exception_handler-called throws hs slot e t = loop_added throws slot hs t
