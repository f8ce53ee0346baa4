-- ===== src/Dispatcher/Handler.antt =====
-- The handler of a safe thread's notifier.
use mathlib.Core.List.{Memᴰ}
use mathlib.Core.List.Memᴰ.{head, tail}
use glibmm.Base.{
  ℕ, ◌≡◌, refl, sym, ap, subst, ◌∙◌, Bool, true, false, List, [], ◌∷◌, Option, none, some, ok, err,
  undefined_behaviour, ◌==◌, if◌then◌else◌, All, inl, inr, Bool-cases, ==_eq, ==_refl,
}
use glibmm.Dispatcher.Messages.{Channel, Message}
use glibmm.Dispatcher.{
  Impl, Notifier, Thread, connect, Started, idle, calls, emit_signal, take_message, receive_at,
  handler_start_at, handler_start, clear_orphans, handler_finish_at, handler_finish,
}
use glibmm.Dispatcher.Safety.{
  IsSilent, SafeAt, IsSafe, Step, creates, destroys, connects, emits, starts, finishes,
  create-IsSafe, destroy-IsSafe, connect-SafeAt, emit-IsSafe, emptied-SafeAt, ok_eq, err_ok,
}

module _ (c : Channel) where
  abbrev pub received : Thread c → Notifier c → Thread c
  received t n = record t { instance_ = some (record n { channel = (c.receive n.channel).1 }) }

  -- The slots of the Impl that the first message names are called; the message is taken.
  receive-cons :
      (t : Thread c) (n : Notifier c) (m : Message) (ms : List Message) (r : Impl)
      → c.contents n.channel ≡ m ∷ ms
      → m.notifier ≡ n.number
      → t.impls m.dispatcher_impl ≡ some r
      → receive_at c t n.number n ≡ ok (received t n, calls r.slots)
  unfolding receive_at take_message emit_signal
  receive-cons t n m ms r e k a = rw ((c.receive-cons n.channel m ms e).0, k, ==_refl n.number, a)

  receive-nil :
      (t : Thread c) (n : Notifier c)
      → c.contents n.channel ≡ []
      → receive_at c t n.number n ≡ ok (received t n, idle)
  unfolding receive_at take_message
  receive-nil t n e = rw ((c.receive-nil n.channel e).0)

  receive-IsSafe :
      (f : ℕ → Option Impl) (n : Notifier c) (ms : List Message) (u : Thread c) (r : Started c)
      → c.contents n.channel ≡ ms
      → SafeAt c f (some n)
      → receive_at c (record { instance_ = some n; impls = f }) n.number n ≡ ok (u, r)
      → IsSafe c u
  receive-IsSafe f n [] u r e (h, s) d =
      subst (IsSafe c) (ap (λ p. p.0) (ok_eq c _ (u, r) (sym (receive-nil _ n e) ∙ d)))
        (rw ((c.receive-nil n.channel e).1) tt, s)
  receive-IsSafe f n (m ∷ ms) u r e (h, s) d =
      let ((k, (q, a)), rest) = subst (All _) e h in
      subst (IsSafe c) (ap (λ p. p.0) (ok_eq c _ (u, r) (sym (receive-cons _ n m ms q e k a) ∙ d)))
        (rw ((c.receive-cons n.channel m ms e).1) rest, s)

  start-IsSafe :
      (o : Option (Notifier c)) (f : ℕ → Option Impl) (u : Thread c) (this : ℕ) (r : Started c)
      → handler_start_at c (record { instance_ = o; impls = f }) this o ≡ ok (u, r)
      → SafeAt c f o
      → IsSafe c u
  unfolding handler_start_at
  start-IsSafe none f u this r d h = absurd (err_ok c (u, r) d)
  start-IsSafe (some n) f u this r d h = split (n.number == this) refl d
    where
      t : Thread c
      t = record { instance_ = some n; impls = f }

      split :
          (b : Bool)
          → (n.number == this) ≡ b
          → (if b then receive_at c t this n else err undefined_behaviour) ≡ ok (u, r)
          → IsSafe c u
      split false e d' = absurd (err_ok c (u, r) d')
      split true e d' =
          receive-IsSafe f n (c.contents n.channel) u r refl h
            (ap (λ i. receive_at c t i n) (==_eq n.number this e) ∙ d')

  clear-IsSafe :
      (f : ℕ → Option Impl) (n : Notifier c)
      → SafeAt c f (some n)
      → IsSafe c (clear_orphans c (record { instance_ = some n; impls = f }) n)
  unfolding clear_orphans
  clear-IsSafe f n h = elim (Bool-cases (c.is_empty n.channel)) [
    | inl empty ↦ rw empty (emptied-SafeAt c _ n empty)
    | inr waiting ↦ rw waiting h
  ]

  finish-IsSafe :
      (o : Option (Notifier c)) (f : ℕ → Option Impl) (u : Thread c) (this : ℕ) (r : Bool)
      → handler_finish_at c (record { instance_ = o; impls = f }) this o ≡ ok (u, r)
      → SafeAt c f o
      → IsSafe c u
  unfolding handler_finish_at
  finish-IsSafe none f u this r d h = subst (IsSafe c) (ap (λ p. p.0) (ok_eq c _ (u, r) d)) h
  finish-IsSafe (some n) f u this r d h = split (n.number == this) d
    where
      t : Thread c
      t = record { instance_ = some n; impls = f }

      cleared : Thread c × Bool
      cleared = (clear_orphans c t n, true)

      split :
          (b : Bool) → (if b then ok cleared else err undefined_behaviour) ≡ ok (u, r) → IsSafe c u
      split false d' = absurd (err_ok c (u, r) d')
      split true d' = subst (IsSafe c) (ap (λ p. p.0) (ok_eq c _ (u, r) d')) (clear-IsSafe f n h)

  -- Every step of a thread keeps it safe: its messages are for its own notifier and for Impls that exist,
  -- and its orphans exist and have no slots.
  pub Step-IsSafe : (t u : Thread c) → Step c t u → IsSafe c t → IsSafe c u
  unfolding handler_start handler_finish connect
  Step-IsSafe t u (creates _ impl number context e) h =
      create-IsSafe c t.instance_ t.impls impl number context e h
  Step-IsSafe t u (destroys _ _ impl d) h = destroy-IsSafe c t u impl d h
  Step-IsSafe t u (connects _ impl slot k) h = connect-SafeAt c t.impls t.instance_ impl slot k h
  Step-IsSafe t u (emits _ _ impl d) h = emit-IsSafe c t u impl d h
  Step-IsSafe t u (starts _ _ this r d) h = start-IsSafe t.instance_ t.impls u this r d h
  Step-IsSafe t u (finishes _ _ this r d) h = finish-IsSafe t.instance_ t.impls u this r d h

  -- What a thread without dispatchers can come to.
  pub data Reach : Thread c → Type 0 where
    nothing : Reach (record { instance_ = none; impls = λ i. none })
    next : (t u : Thread c) → Reach t → Step c t u → Reach u

  pub Reach-IsSafe : (t : Thread c) → Reach t → IsSafe c t
  Reach-IsSafe t nothing = tt
  Reach-IsSafe t (next s _ h d) = Step-IsSafe s t d (Reach-IsSafe s h)

  All-Mem : (P : ℕ → Type 0) (i : ℕ) (is : List ℕ) → All P is → Memᴰ i is → P i
  All-Mem P i [] h q = elim q [ ]
  All-Mem P i (j ∷ is) (p, h) (head e) = subst P (sym e) p
  All-Mem P i (j ∷ is) (p, h) (tail k) = All-Mem P i is h k

  orphan_slots :
      (f : ℕ → Option Impl) (i : ℕ) (r : Impl) → f i ≡ some r → IsSilent f i → r.slots ≡ []
  orphan_slots f i r e (q, e', z) =
      let same : some q ≡ some r = sym e' ∙ e in let k : q ≡ r = cc in subst (λ x. x.slots ≡ []) k z

  -- In every thread that can come about, pipe_io_handler() takes the oldest message of its notifier, finds
  -- the Impl that it names, which has not been deleted, and calls the slots that the Impl has at that
  -- time; they are none if the Dispatcher was destroyed in between. The other messages stay in order.
  pub handler_start-delivers :
      (t : Thread c) (n : Notifier c) (m : Message) (ms : List Message)
      → Reach t
      → t.instance_ ≡ some n
      → c.contents n.channel ≡ m ∷ ms
      → (r : Impl) × (t.impls m.dispatcher_impl ≡ some r)
        × (handler_start c t n.number ≡ ok (received t n, calls r.slots))
        × (c.contents (c.receive n.channel).1 ≡ ms)
        × (Memᴰ m.dispatcher_impl n.orphaned → r.slots ≡ [])
  unfolding handler_start handler_start_at
  handler_start-delivers t n m ms h o e =
      let (live, silent) = subst (SafeAt c t.impls) o (Reach-IsSafe t h) in
      let ((k, (r, a)), rest) = subst (All _) e live in
      (
        r,
        a,
        rw (o, ==_refl n.number) (receive-cons t n m ms r e k a),
        (c.receive-cons n.channel m ms e).1,
        λ q.
            orphan_slots t.impls m.dispatcher_impl r a
              (All-Mem (IsSilent t.impls) m.dispatcher_impl n.orphaned silent q),
      )
