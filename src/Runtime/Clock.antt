-- ===== src/Runtime/Clock.antt =====
-- crates/covenant-evm-runtime/src/clock.rs: the clock of the test runtime, a `u64` of seconds.
use covenant_language.Base.{ℕ, ◌+◌, ◌-◌, ◌^◌, ◌≤◌, ◌<◌, ◌≡◌, arith, leb, if◌then◌else◌}

abbrev pub default_genesis : ℕ
default_genesis = 1767225600

pub record Clock : Type 0 where
  pub seconds_since_epoch : ℕ

unfoldable pub new : Clock
new = record { seconds_since_epoch = default_genesis }

unfoldable pub at_time : ℕ → Clock
at_time s = record { seconds_since_epoch = s }

unfoldable pub timestamp : Clock → ℕ
timestamp c = c.seconds_since_epoch

-- `u64::saturating_add`.
abbrev pub saturating_add : ℕ → ℕ → ℕ
saturating_add a b = if leb (a + b) (2 ^ 64 - 1) then a + b else 2 ^ 64 - 1

unfoldable pub advance_clock : Clock → ℕ → Clock
advance_clock c s = record { seconds_since_epoch = saturating_add c.seconds_since_epoch s }

unfoldable pub set : Clock → ℕ → Clock
set c s = record { seconds_since_epoch = s }

-- The clock never runs backwards, stays a `u64`, and two advances make one advance by their sum.
pub advance_clock_lem :
    (c : Clock) (s t : ℕ)
    → timestamp c < 2 ^ 64
    → (timestamp c ≤ timestamp (advance_clock c s))
      × (timestamp (advance_clock c s) < 2 ^ 64)
      × (timestamp (advance_clock (advance_clock c s) t) ≡ timestamp (advance_clock c (s + t)))
unfolding timestamp advance_clock
advance_clock_lem c s t h = (ground arith, ground arith, ground arith)
