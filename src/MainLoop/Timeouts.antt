-- ===== src/MainLoop/Timeouts.antt =====
-- Glib::TimeoutSource of glib/glibmm/main.cc. Times are microseconds of the monotonic clock, which are not
-- negative, as `gint64`, where a sum that does not fit is undefined. A method takes the times that its
-- calls of get_time() return.
pub mod Waiting
use glibmm.Base.{
  ℕ, ◌+◌, ◌-◌, ◌*◌, ◌/◌, Bool, true, false, Result, ok, err, undefined_behaviour, map_ok, ◌>>=◌,
  ltb, leb, ◌==◌, if◌then◌else◌,
}

abbrev pub i64_bound : ℕ
i64_bound = 0x8000000000000000

abbrev pub g_maxint : ℕ
g_maxint = 0x7FFFFFFF

pub record TimeoutSource : Type 0 where
  pub expiration : ℕ
  pub interval : ℕ

pub ms2us : ℕ → ℕ
ms2us ms = ms * 1000

pub min : ℕ → ℕ → ℕ
min a b = if ltb b a then b else a

-- `get_time() + ms2us(interval_)`
pub expiration_after : ℕ → ℕ → Result ℕ
unfolding ms2us
expiration_after now interval =
    if ltb (now + ms2us interval) i64_bound
    then ok (now + ms2us interval)
    else err undefined_behaviour

-- The constructor.
pub create : ℕ → ℕ → Result TimeoutSource
create interval now = do
  expiration ← expiration_after now interval
  ok (record { expiration = expiration; interval = interval })

-- What prepare() returns, with the timeout in milliseconds that it sets.
pub record Prepared : Type 0 where
  pub source : TimeoutSource
  pub timeout : ℕ
  pub ready : Bool

pub prepared : TimeoutSource → ℕ → Prepared
prepared s timeout = record { source = s; timeout = timeout; ready = timeout == 0 }

-- The clock is read once more if the expiration is reset.
unfoldable pub prepare : TimeoutSource → ℕ → ℕ → Result Prepared
unfolding ms2us min prepared
prepare s now later =
    let remaining = s.expiration - now in
    if leb s.expiration now
    then ok (prepared s 0)
    else if ltb (ms2us s.interval) remaining
    then map_ok
        (λ expiration.
          prepared (record { expiration = expiration; interval = s.interval })
            (min g_maxint s.interval))
        (expiration_after later s.interval)
    else ok (prepared s (min g_maxint (remaining / 1000)))

pub check : TimeoutSource → ℕ → Bool
check s now = leb s.expiration now

-- `again` is what the slot returns.
pub dispatch : TimeoutSource → Bool → ℕ → Result (TimeoutSource × Bool)
dispatch s false now = ok (s, false)
dispatch s true now =
    map_ok (λ expiration. (record { expiration = expiration; interval = s.interval }, true))
      (expiration_after now s.interval)
