-- ===== src/Dispatcher/Safety.antt =====
-- No message is delivered to a deleted Dispatcher::Impl, and none runs a slot of a destroyed Dispatcher.
use glibmm.Base.{
  ℕ, ◌+◌, ◌≡◌, ◌≢◌, refl, sym, ap, subst, ◌∙◌, ◌⊎◌, inl, inr, Bool, true, false, List, [], ◌∷◌,
  ◌++◌, Option, none, some, ok, err, undefined_behaviour, ◌==◌, leb, if◌then◌else◌, All, All-append,
  Bool-cases, ==_eq, ==_refl,
}
use glibmm.Dispatcher.Messages.{Channel}
use glibmm.Dispatcher.{
  Impl, Notifier, Thread, put, clear_signal, add_slot, reference_instance, add_impl,
  create_dispatcher, release_impl, drop_reference, unreference_instance, destroy_at,
  destroy_dispatcher, connect, send_at, send_notification, emit_by, emit_at, emit, Started,
  handler_start, handler_finish,
}

abbrev pub IsAlive : (ℕ → Option Impl) → ℕ → Type 0
IsAlive impls i = (r : Impl) × (impls i ≡ some r)

-- An Impl that outlives its Dispatcher, with no slot left.
abbrev pub IsSilent : (ℕ → Option Impl) → ℕ → Type 0
IsSilent impls i = (r : Impl) × (impls i ≡ some r) × (r.slots ≡ [])

module _ (c : Channel) where
  -- Every message in the channel is for this notifier and for an Impl that exists; every orphan exists
  -- and has no slot.
  abbrev pub SafeAt : (ℕ → Option Impl) → Option (Notifier c) → Type 0
  SafeAt impls none = Unit
  SafeAt impls (some n) =
      All (λ m. (m.notifier ≡ n.number) × IsAlive impls m.dispatcher_impl) (c.contents n.channel)
      × All (IsSilent impls) n.orphaned

  abbrev pub IsSafe : Thread c → Type 0
  IsSafe t = SafeAt t.impls t.instance_

  -- Steps of the thread and of the environment. A Dispatcher is destroyed and connected to while it
  -- exists; its Impl is then no orphan.
  abbrev NotOrphan : ℕ → Option (Notifier c) → Type 0
  NotOrphan i none = Unit
  NotOrphan i (some n) = All (λ j. j ≢ i) n.orphaned

  pub data Step : Thread c → Thread c → Type 0 where
    creates :
        (t : Thread c) (impl number context : ℕ)
        → t.impls impl ≡ none
        → Step t (create_dispatcher c t impl number context)
    destroys : (t u : Thread c) (impl : ℕ) → destroy_dispatcher c t impl ≡ ok u → Step t u
    connects :
        (t : Thread c) (impl slot : ℕ) → NotOrphan impl t.instance_ → Step t (connect c t impl slot)
    emits : (t u : Thread c) (impl : ℕ) → emit c t impl ≡ ok u → Step t u
    starts :
        (t u : Thread c) (this : ℕ) (r : Started c) → handler_start c t this ≡ ok (u, r) → Step t u
    finishes :
        (t u : Thread c) (this : ℕ) (r : Bool) → handler_finish c t this ≡ ok (u, r) → Step t u

  All-mono :
      {A : Type 0} (P Q : A → Type 0) (xs : List A) → ((x : A) → P x → Q x) → All P xs → All Q xs
  All-mono P Q [] f h = tt
  All-mono P Q (x ∷ xs) f (p, h) = (f x p, All-mono P Q xs f h)

  SafeAt-mono :
      (f f' : ℕ → Option Impl) (o : Option (Notifier c))
      → ((i : ℕ) → IsAlive f i → IsAlive f' i)
      → ((i : ℕ) → IsSilent f i → IsSilent f' i)
      → SafeAt f o
      → SafeAt f' o
  SafeAt-mono f f' none a s h = tt
  SafeAt-mono f f' (some n) a s (h, k) = (
    All-mono _ _ (c.contents n.channel) (λ m p. (p.0, a m.dispatcher_impl p.1)) h,
    All-mono _ _ n.orphaned s k,
  )

  put_same : (f : ℕ → Option Impl) (i : ℕ) (v : Option Impl) → put f i v i ≡ v
  put_same f i v = rw (==_refl i)

  not_none : (q : Impl) → none ≡ some q → ⊥
  not_none q h = cc

  -- A new Impl takes no number in use.
  create-SafeAt :
      (f : ℕ → Option Impl) (o : Option (Notifier c)) (impl : ℕ) (r : Impl)
      → f impl ≡ none
      → SafeAt f o
      → SafeAt (put f impl (some r)) o
  create-SafeAt f o impl r e =
      SafeAt-mono f (put f impl (some r)) o (λ i a. (a.0, fresh i a.0 a.1))
        (λ i s. (s.0, fresh i s.0 s.1, s.2))
    where
      fresh : (i : ℕ) (q : Impl) → f i ≡ some q → put f impl (some r) i ≡ some q
      fresh i q e' = elim (Bool-cases (impl == i)) [
        | inl same ↦ absurd (not_none q (sym e ∙ ap f (==_eq impl i same) ∙ e'))
        | inr other ↦ rw other e'
      ]

  join-IsSafe :
      (n : Notifier c) (f : ℕ → Option Impl) (impl : ℕ) (shared : Bool)
      → f impl ≡ none
      → SafeAt f (some n)
      → IsSafe (
          add_impl c impl (
            if shared
            then (
              record { instance_ = some (record n { ref_count = n.ref_count + 1 }); impls = f },
              some n.number,
            )
            else (record { instance_ = some n; impls = f }, none)))
  unfolding add_impl
  join-IsSafe n f impl true e h =
      create-SafeAt f (some (record n { ref_count = n.ref_count + 1 })) impl
        (record { slots = []; notifier = some n.number }) e h
  join-IsSafe n f impl false e h =
      create-SafeAt f (some n) impl (record { slots = []; notifier = none }) e h

  pub create-IsSafe :
      (o : Option (Notifier c)) (f : ℕ → Option Impl) (impl number context : ℕ)
      → f impl ≡ none
      → SafeAt f o
      → IsSafe (create_dispatcher c (record { instance_ = o; impls = f }) impl number context)
  unfolding create_dispatcher reference_instance
  create-IsSafe none f impl number context e h = (rw c.contents-empty tt, tt)
  create-IsSafe (some n) f impl number context e h = join-IsSafe n f impl (n.context == context) e h

  -- Clearing the signal of an Impl leaves it alive and silent.
  clear-SafeAt :
      (f : ℕ → Option Impl) (n : Notifier c) (impl : ℕ) (r : Impl)
      → f impl ≡ some r
      → SafeAt f (some n)
      → SafeAt
          (put f impl (clear_signal (f impl)))
          (some (record n { orphaned = impl ∷ n.orphaned }))
  clear-SafeAt f n impl r e (h, k) = (
    All-mono _ _ (c.contents n.channel) (λ m p. (p.0, alive m.dispatcher_impl p.1)) h,
    (silent impl (inl refl), All-mono _ _ n.orphaned (λ i s. silent i (inr s)) k),
  )
    where
      cleared : Impl
      cleared = record r { slots = [] }

      at_impl : (i : ℕ) → (impl == i) ≡ true → put f impl (clear_signal (f impl)) i ≡ some cleared
      at_impl i same = rw (same, e)

      alive : (i : ℕ) → IsAlive f i → IsAlive (put f impl (clear_signal (f impl))) i
      alive i (q, e') = elim (Bool-cases (impl == i)) [
        | inl same ↦ (cleared, at_impl i same)
        | inr other ↦ (q, rw other e')
      ]

      silent : (i : ℕ) → (impl ≡ i) ⊎ IsSilent f i → IsSilent (put f impl (clear_signal (f impl))) i
      silent i (inl same) = (cleared, at_impl i (rw same (==_refl i)), refl)
      silent i (inr (q, e', z)) = elim (Bool-cases (impl == i)) [
        | inl same ↦ (cleared, at_impl i same, refl)
        | inr other ↦ (q, rw other e', z)
      ]

  -- With no message left, nothing refers to an Impl.
  pub emptied-SafeAt :
      (f : ℕ → Option Impl) (n : Notifier c)
      → c.is_empty n.channel ≡ true
      → SafeAt f (some (record n { orphaned = [] }))
  emptied-SafeAt f n e = (rw (c.is_empty-eq n.channel e) tt, tt)

  release-IsSafe :
      (f : ℕ → Option Impl) (n : Notifier c) (impl : ℕ) (r : Impl)
      → f impl ≡ some r
      → SafeAt f (some n)
      → IsSafe (release_impl c (record { instance_ = some n; impls = f }) n impl)
  unfolding release_impl
  release-IsSafe f n impl r e h = elim (Bool-cases (c.is_empty n.channel)) [
    | inl empty ↦ rw empty (emptied-SafeAt _ n empty)
    | inr waiting ↦ rw waiting (clear-SafeAt f n impl r e h)
  ]

  drop_reference-IsSafe :
      (o : Option (Notifier c)) (f : ℕ → Option Impl)
      → SafeAt f o
      → IsSafe (drop_reference c (record { instance_ = o; impls = f }))
  unfolding drop_reference
  drop_reference-IsSafe none f h = h
  drop_reference-IsSafe (some n) f h = elim (Bool-cases (leb n.ref_count 1)) [
    | inl last ↦ elim (Bool-cases (n.ref_count == 1)) [
      | inl one ↦ rw (last, one) tt
      | inr zero_left ↦ rw (last, zero_left) h
    ]
    | inr more ↦ rw more h
  ]

  unreference_same-IsSafe :
      (n : Notifier c) (f : ℕ → Option Impl) (impl number : ℕ) (r : Impl)
      → f impl ≡ some r
      → SafeAt f (some n)
      → IsSafe (
          if n.number == number
          then drop_reference c (release_impl c (record { instance_ = some n; impls = f }) n impl)
          else record { instance_ = some n; impls = f })
  unreference_same-IsSafe n f impl number r e h = elim (Bool-cases (n.number == number)) [
    | inl same ↦ rw same (drop_reference-IsSafe _ _ (release-IsSafe f n impl r e h))
    | inr other ↦ rw other h
  ]

  pub ok_eq : {A : Type 0} (x y : A) → ok x ≡ ok y → x ≡ y
  ok_eq x y h = cc

  pub err_ok : {A : Type 0} (x : A) → err undefined_behaviour ≡ ok x → ⊥
  err_ok x h = cc

  unreference-IsSafe :
      (o : Option (Notifier c)) (f : ℕ → Option Impl) (u : Thread c) (notifier : Option ℕ)
      (impl : ℕ) (r : Impl)
      → f impl ≡ some r
      → unreference_instance c (record { instance_ = o; impls = f }) notifier impl ≡ ok u
      → SafeAt f o
      → IsSafe u
  unfolding unreference_instance
  unreference-IsSafe none f u none impl r e d h = absurd (err_ok u d)
  unreference-IsSafe none f u (some number) impl r e d h = subst IsSafe (ok_eq _ u d) h
  unreference-IsSafe (some n) f u none impl r e d h = subst IsSafe (ok_eq _ u d) h
  unreference-IsSafe (some n) f u (some number) impl r e d h =
      subst IsSafe (ok_eq _ u d) (unreference_same-IsSafe n f impl number r e h)

  destroy_at-IsSafe :
      (t u : Thread c) (impl : ℕ) (v : Option Impl)
      → t.impls impl ≡ v
      → destroy_at c t impl v ≡ ok u
      → IsSafe t
      → IsSafe u
  unfolding destroy_at
  destroy_at-IsSafe t u impl none e d h = absurd (err_ok u d)
  destroy_at-IsSafe t u impl (some r) e d h =
      unreference-IsSafe t.instance_ t.impls u r.notifier impl r e d h

  pub destroy-IsSafe :
      (t u : Thread c) (impl : ℕ) → destroy_dispatcher c t impl ≡ ok u → IsSafe t → IsSafe u
  unfolding destroy_dispatcher
  destroy-IsSafe t u impl d h = destroy_at-IsSafe t u impl (t.impls impl) refl d h

  add_slot-IsAlive :
      (f : ℕ → Option Impl) (impl slot i : ℕ)
      → IsAlive f i
      → IsAlive (put f impl (add_slot slot (f impl))) i
  add_slot-IsAlive f impl slot i (r, e) = elim (Bool-cases (impl == i)) [
    | inl same ↦ (record r { slots = r.slots ++ slot ∷ [] }, rw (same, ==_eq impl i same, e) refl)
    | inr other ↦ (r, rw other e)
  ]

  put-IsSilent :
      (f : ℕ → Option Impl) (impl : ℕ) (v : Option Impl) (is : List ℕ)
      → All (λ j. j ≢ impl) is
      → All (IsSilent f) is
      → All (IsSilent (put f impl v)) is
  put-IsSilent f impl v [] k h = tt
  put-IsSilent f impl v (i ∷ is) (d, k) ((r, e, z), h) = elim (Bool-cases (impl == i)) [
    | inl same ↦ absurd (d (sym (==_eq impl i same)))
    | inr other ↦ ((r, rw other e, z), put-IsSilent f impl v is k h)
  ]

  pub connect-SafeAt :
      (f : ℕ → Option Impl) (o : Option (Notifier c)) (impl slot : ℕ)
      → NotOrphan impl o
      → SafeAt f o
      → SafeAt (put f impl (add_slot slot (f impl))) o
  connect-SafeAt f none impl slot k h = tt
  connect-SafeAt f (some n) impl slot k (h, s) = (
    All-mono _ _ (c.contents n.channel)
        (λ m p. (p.0, add_slot-IsAlive f impl slot m.dispatcher_impl p.1)) h,
    put-IsSilent f impl _ n.orphaned k s,
  )

  emit_number-IsSafe :
      (f : ℕ → Option Impl) (o : Option (Notifier c)) (u : Thread c) (impl number : ℕ) (r : Impl)
      → f impl ≡ some r
      → send_at c (record { instance_ = o; impls = f }) o number impl ≡ ok u
      → SafeAt f o
      → IsSafe u
  unfolding send_at
  emit_number-IsSafe f none u impl number r e d h = absurd (err_ok u d)
  emit_number-IsSafe f (some n) u impl number r e d (h, s) = split (n.number == number) refl d
    where
      sent : Thread c
      sent = record {
        instance_ = some (record n {
          channel = c.send n.channel (record { dispatcher_impl = impl; notifier = number });
        });
        impls = f;
      }

      split :
          (b : Bool)
          → (n.number == number) ≡ b
          → (if b then ok sent else err undefined_behaviour) ≡ ok u
          → IsSafe u
      split false e' d' = absurd (err_ok u d')
      split true e' d' = subst IsSafe (ok_eq sent u d') (
        rw (c.contents-send n.channel (record { dispatcher_impl = impl; notifier = number })) (
            All-append _ (c.contents n.channel) _ h ((sym (==_eq n.number number e'), (r, e)), tt)),
        s,
      )

  emit_by-IsSafe :
      (t u : Thread c) (impl : ℕ) (v : Option ℕ)
      → IsAlive t.impls impl
      → emit_by c t impl v ≡ ok u
      → IsSafe t
      → IsSafe u
  unfolding emit_by send_notification
  emit_by-IsSafe t u impl none a d h = absurd (err_ok u d)
  emit_by-IsSafe t u impl (some number) (r, e) d h =
      emit_number-IsSafe t.impls t.instance_ u impl number r e d h

  emit_at-IsSafe :
      (t u : Thread c) (impl : ℕ) (v : Option Impl)
      → t.impls impl ≡ v
      → emit_at c t impl v ≡ ok u
      → IsSafe t
      → IsSafe u
  unfolding emit_at
  emit_at-IsSafe t u impl none e d h = absurd (err_ok u d)
  emit_at-IsSafe t u impl (some r) e d h = emit_by-IsSafe t u impl r.notifier (r, e) d h

  pub emit-IsSafe : (t u : Thread c) (impl : ℕ) → emit c t impl ≡ ok u → IsSafe t → IsSafe u
  unfolding emit
  emit-IsSafe t u impl d h = emit_at-IsSafe t u impl (t.impls impl) refl d h
