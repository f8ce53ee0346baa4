-- ===== src/Tests/Handlers.antt =====
-- A thread whose first exception handler is empty, whose second throws and whose third does not.
use glibmm.Base.{ℕ, ◌≡◌, ◌⊎◌, true, false, Bool, List, [], ◌∷◌, Option, none, some, ◌==◌}
use glibmm.Exceptions.{
  glib_error, exception_handlers_invoke, live, IsInvoked, IsReported,
  exception_handlers_invoke-IsInvoked,
}

abbrev three : List (Option ℕ)
three = none ∷ some 1 ∷ some 2 ∷ []

abbrev first_throws : ℕ → Bool
first_throws h = h == 1

exception_handlers_invoke-IsInvoked_example :
    IsInvoked first_throws
      (live three)
      (exception_handlers_invoke first_throws (some three) glib_error).0
    × (((exception_handlers_invoke first_throws (some three) glib_error).0.handled ≡ true)
          × ((exception_handlers_invoke first_throws (some three) glib_error).1 ≡ none)
        ⊎ ((exception_handlers_invoke first_throws (some three) glib_error).0.handled ≡ false)
          × IsReported glib_error
              (exception_handlers_invoke first_throws (some three) glib_error).1)
exception_handlers_invoke-IsInvoked_example =
    exception_handlers_invoke-IsInvoked first_throws three glib_error
