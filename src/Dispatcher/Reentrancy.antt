-- ===== src/Dispatcher/Reentrancy.antt =====
-- A slot that destroys the last Dispatcher of the thread, which deletes the notifier whose
-- pipe_io_handler() runs it.
use glibmm.Base.{
  ℕ, ◌≡◌, ◌≢◌, refl, ap, ◌∙◌, inl, inr, false, Option, none, some, ok, err, undefined_behaviour,
  ◌==◌, if◌then◌else◌, Bool-cases, ==_eq, ==_refl,
}
use glibmm.Dispatcher.Messages.{Channel}
use glibmm.Dispatcher.{
  Impl, Notifier, Thread, reference_instance, create_dispatcher, release_impl, drop_reference,
  unreference_at, unreference_instance, destroy_at, destroy_dispatcher, handler_finish_at,
  handler_finish,
}

module _ (c : Channel) where
  released :
      (t : Thread c) (n : Notifier c) (impl : ℕ)
      → n.ref_count ≡ 1
      → (drop_reference c (release_impl c t n impl)).instance_ ≡ none
  unfolding drop_reference release_impl
  released t n impl one = elim (Bool-cases (c.is_empty n.channel)) [
    | inl empty ↦ rw (empty, one) refl
    | inr waiting ↦ rw (waiting, one) refl
  ]

  last_destroyed :
      (f : ℕ → Option Impl) (n : Notifier c) (impl : ℕ) (r : Impl)
      → f impl ≡ some r
      → r.notifier ≡ some n.number
      → (let t : Thread c = record { instance_ = some n; impls = f } in
          destroy_dispatcher c t impl ≡ ok (drop_reference c (release_impl c t n impl)))
  unfolding destroy_dispatcher destroy_at unreference_instance
  last_destroyed f n impl r e k =
      let t : Thread c = record { instance_ = some n; impls = f } in
      ap (destroy_at c t impl) e
      ∙ ap (λ v. unreference_at c t (some n) v impl) k
      ∙ ap (λ b. ok (if b then drop_reference c (release_impl c t n impl) else t))
          (==_refl n.number)

  absent_finish :
      (o : Option (Notifier c)) (t : Thread c) (this : ℕ)
      → o ≡ none
      → handler_finish_at c t this o ≡ ok (t, false)
  unfolding handler_finish_at
  absent_finish none t this e = refl
  absent_finish (some n) t this e = cc

  other_finish :
      (t : Thread c) (impl number context this : ℕ)
      → t.instance_ ≡ none
      → number ≢ this
      → handler_finish c (create_dispatcher c t impl number context) this ≡ err undefined_behaviour
  unfolding handler_finish create_dispatcher reference_instance
  other_finish t impl number context this e d = elim (Bool-cases (number == this)) [
    | inl same ↦ absurd (d (==_eq number this same))
    | inr other ↦ rw (e, other)
  ]

  -- If a slot destroys the last Dispatcher of its thread, pipe_io_handler() behind the emission stops
  -- and returns false. If the slot also creates a new Dispatcher afterwards, the thread has an instance
  -- again, and pipe_io_handler() reads the members of the notifier that has been deleted.
  pub handler_finish-destroyed :
      (f : ℕ → Option Impl) (n : Notifier c) (impl : ℕ) (r : Impl) (impl' number context : ℕ)
      → n.ref_count ≡ 1
      → f impl ≡ some r
      → r.notifier ≡ some n.number
      → number ≢ n.number
      → (u : Thread c) × (destroy_dispatcher c (record { instance_ = some n; impls = f }) impl
          ≡ ok u)
        × (handler_finish c u n.number ≡ ok (u, false))
        × (handler_finish c (create_dispatcher c u impl' number context) n.number
            ≡ err undefined_behaviour)
  unfolding handler_finish
  handler_finish-destroyed f n impl r impl' number context one e k d =
      let t : Thread c = record { instance_ = some n; impls = f } in
      let gone = released t n impl one in
      (
        drop_reference c (release_impl c t n impl),
        last_destroyed f n impl r e k,
        absent_finish _ _ n.number gone,
        other_finish _ impl' number context n.number gone d,
      )
