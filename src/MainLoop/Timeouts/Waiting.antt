-- ===== src/MainLoop/Timeouts/Waiting.antt =====
-- How long a TimeoutSource lets the main loop wait.
use glibmm.Base.{
  ℕ, ◌+◌, ◌-◌, ◌*◌, ◌≤◌, ◌<◌, ◌≡◌, refl, ◌⊎◌, inl, inr, true, ok, ltb, leb, arith, Bool-cases,
  lt→ltb, subst, sym, ◌∙◌,
}
use glibmm.MainLoop.Timeouts.{
  i64_bound, g_maxint, TimeoutSource, ms2us, min, expiration_after, Prepared, prepared, prepare,
  check, dispatch,
}

-- An unsigned int, and a time that leaves room for the longest interval.
abbrev pub IsInterval : ℕ → Type 0
IsInterval ms = ms < 0x100000000

abbrev pub IsTime : ℕ → Type 0
IsTime t = t < 0x4000000000000000

pub expiration_after-eq :
    (now interval : ℕ)
    → IsTime now
    → IsInterval interval
    → expiration_after now interval ≡ ok (now + ms2us interval)
unfolding expiration_after ms2us
expiration_after-eq now interval t i = ground arith

-- What the result of prepare() has to satisfy.
abbrev pub IsPrepared : TimeoutSource → ℕ → ℕ → Prepared → Type 0
IsPrepared s now later p =
    (p.timeout ≤ g_maxint)
    × (p.source.interval ≡ s.interval)
    × (p.source.expiration ≤ later + s.interval * 1000)
    × ((now + p.timeout * 1000 ≤ p.source.expiration) ⊎ (p.ready ≡ true))
    × ((s.interval ≤ g_maxint) ⊎ (p.ready ≡ true)
        → p.source.expiration < later + p.timeout * 1000 + 1000)

-- prepare() always succeeds. It sets a timeout that an int holds, and resets an expiration that is
-- too far away. Unless it reports the source as ready, the timeout does not end behind the expiration;
-- it ends less than a millisecond before it, or late, if it is ready or if the interval fits an int.
pub prepare-IsPrepared :
    (s : TimeoutSource) (now later : ℕ)
    → IsInterval s.interval
    → IsTime later
    → now ≤ later
    → (p : Prepared) × (prepare s now later ≡ ok p) × IsPrepared s now later p
unfolding prepare ms2us min prepared expiration_after
prepare-IsPrepared s now later i t o = elim (Bool-cases (leb s.expiration now)) [
  | inl expired ↦ rw expired ((_, refl, ground arith))
  | inr waiting ↦ elim (Bool-cases (ltb (s.interval * 1000) (s.expiration - now))) [
    | inl reset ↦
        let fits : later + s.interval * 1000 < i64_bound = omega arith in
        rw (waiting, reset, lt→ltb (later + s.interval * 1000) i64_bound fits)
          ((_, refl, ground arith))
    | inr usual ↦ rw (waiting, usual) ((_, refl, ground arith))
  ]
]

soon-ready :
    (s : TimeoutSource) (now later : ℕ)
    → IsInterval s.interval
    → IsTime later
    → s.expiration < now + 1000
    → (p : Prepared) × (prepare s now later ≡ ok p) × (p.ready ≡ true)
unfolding prepare ms2us min prepared expiration_after
soon-ready s now later i t h = elim (Bool-cases (leb s.expiration now)) [
  | inl expired ↦ rw expired ((_, refl, refl))
  | inr waiting ↦ elim (Bool-cases (ltb (s.interval * 1000) (s.expiration - now))) [
    | inl reset ↦
        let fits : later + s.interval * 1000 < i64_bound = omega arith in
        rw (waiting, reset, lt→ltb (later + s.interval * 1000) i64_bound fits)
          ((_, refl, ground arith))
    | inr usual ↦ rw (waiting, usual) ((_, refl, ground arith))
  ]
]

ok_prepared : (p q : Prepared) → ok p ≡ ok q → p ≡ q
ok_prepared p q h = cc

-- Once the main loop has waited for the timeout that prepare() set, which is 0 if the source was ready,
-- the next prepare() reports the source as ready: no timeout of at most G_MAXINT milliseconds is lost.
pub prepare-ready :
    (s : TimeoutSource) (now later next after : ℕ) (p : Prepared)
    → s.interval ≤ g_maxint
    → IsTime after
    → now ≤ later
    → prepare s now later ≡ ok p
    → later + p.timeout * 1000 ≤ next
    → next ≤ after
    → (q : Prepared) × (prepare p.source next after ≡ ok q) × (q.ready ≡ true)
prepare-ready s now later next after p i t o e w o' =
    let (p', e', h) = prepare-IsPrepared s now later (omega arith) (omega arith) o in
    let (_, same, _, _, late) = subst (IsPrepared s now later) (ok_prepared p' p (sym e' ∙ e)) h in
    let soon : p.source.expiration < later + p.timeout * 1000 + 1000 = late (inl i) in
    soon-ready p.source next after (omega arith) t (omega arith)

-- A source that is dispatched again is not ready before its interval has passed since the dispatch, and
-- is from then on.
pub dispatch-check :
    (s : TimeoutSource) (now later : ℕ)
    → IsTime now
    → IsInterval s.interval
    → (u : TimeoutSource) × (dispatch s true now ≡ ok (u, true))
      × (check u later ≡ leb (now + s.interval * 1000) later)
unfolding dispatch check ms2us
dispatch-check s now later t i =
    let u : TimeoutSource = record {
      expiration = now + s.interval * 1000;
      interval = s.interval;
    } in
    (u, rw (expiration_after-eq now s.interval t i), refl)
