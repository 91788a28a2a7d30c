-- ===== src/Clock.antt =====
-- include/cinder/cluster/clock.hpp: the steady and the wall clock, read at one moment, and times of
-- the one as times of the other. Times are nanoseconds since each clock's epoch, as naturals below 2^63:
-- the code's counts are signed, so a time before an epoch is negative there and 0 here, and a sum that
-- leaves int64_t is undefined there. Where an expiry matters, a hypothesis keeps it in this range.
use cinder.Prelude.{ℕ, ◌+◌, ◌-◌, ◌/◌}

pub record Clock : Type 0 where
  pub now : ℕ
  pub now_system : ℕ

-- nowSystem() + (t - now())
unfoldable pub to_system_expiry : Clock → ℕ → ℕ
to_system_expiry clock t = clock.now_system + t - clock.now

-- now() + (t - nowSystem())
abbrev pub to_steady_expiry : Clock → ℕ → ℕ
to_steady_expiry clock t = clock.now + t - clock.now_system

unfoldable pub to_system_ms : Clock → ℕ → ℕ
unfolding to_system_expiry
to_system_ms clock t = to_system_expiry clock t / 1000000

unfoldable pub now_system_ms : Clock → ℕ
now_system_ms clock = clock.now_system / 1000000
