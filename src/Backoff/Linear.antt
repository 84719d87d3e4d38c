-- ===== src/Backoff/Linear.antt =====
-- `LinearBackoff` of src/ws/client/backoff.rs.
use notifiapp_transport.Common.{ℕ, ◌+◌, ◌-◌, ◌*◌, ◌^◌, ◌≤◌, ◌<◌, ◌≡◌, arith, none, some, min}
use notifiapp_transport.Backoff.{LinearBackoff, linear_delay, checked, nanos_per_sec}

-- Linear backoff waits the first delay and a step for each further attempt, or the maximum, while
-- that sum is a Duration.
pub linear_delay-formula :
    (b : LinearBackoff) (n : ℕ)
    → 0 < n
    → b.initial_delay + b.step * (n - 1) < 2 ^ 64 * nanos_per_sec
    → linear_delay b n ≡ some (min (b.initial_delay + b.step * (n - 1)) b.max_delay)
unfolding linear_delay checked
linear_delay-formula b n p fits = ground arith

-- Linear backoff panics when the sum before the maximum is taken exceeds a Duration.
pub linear_delay-overflow :
    (b : LinearBackoff) (n : ℕ)
    → 0 < n
    → 2 ^ 64 * nanos_per_sec ≤ b.initial_delay + b.step * (n - 1)
    → linear_delay b n ≡ none
unfolding linear_delay checked
linear_delay-overflow b n p over = ground arith

-- The delays of a linear backoff never decrease and never exceed the maximum.
pub linear_delay_mono :
    (b : LinearBackoff) (m n d e : ℕ)
    → m ≤ n
    → 0 < n
    → linear_delay b m ≡ some d
    → linear_delay b n ≡ some e
    → (d ≤ e) × (e ≤ b.max_delay)
unfolding linear_delay checked
linear_delay_mono b m n d e h p x y = ground (arith, times_mono b.step (m - 1) (n - 1))
  where
    times_mono : (k x y : ℕ) → x ≤ y → k * x ≤ k * y
    times_mono k x y h = grind arith
