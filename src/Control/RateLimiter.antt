-- ===== src/Control/RateLimiter.antt =====
-- `RateLimiter` of src/control.rs. An instant is a number of nanoseconds since the clock's origin;
-- reading the clock is an argument.
pub mod Spacing
use rtltcp.Prelude.{ℕ, ◌-◌, Bool, true, false, leb, if◌then◌else◌}

pub record RateLimiter : Type 0 where
  pub last_command : ℕ
  pub min_interval : ℕ

-- The clock is read once, and a second time where the subtraction would go below its origin.
unfoldable pub new : ℕ → ℕ → ℕ → RateLimiter
new min_interval now later = record {
  last_command = if leb min_interval now then now - min_interval else later;
  min_interval = min_interval;
}

-- `saturating_duration_since` stops at 0, as `-` does.
unfoldable pub check : ℕ → RateLimiter → RateLimiter × Bool
check now r =
    if leb r.min_interval (now - r.last_command)
    then (record r { last_command = now }, true)
    else (r, false)
