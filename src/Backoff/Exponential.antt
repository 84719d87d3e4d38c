-- ===== src/Backoff/Exponential.antt =====
-- `ExponentialBackoff` of src/ws/client/backoff.rs.
use notifiapp_transport.Common.{
  ℕ, ◌+◌, ◌-◌, ◌^◌, ◌≤◌, ◌<◌, ◌≡◌, arith, none, some, min, lt→ltb, ◌==◌, false,
}
use notifiapp_transport.Backoff.{
  Float, ExponentialBackoff, exponential_delay, from_secs, pos, as_i32,
}

-- How doubles treat powers of two, which they hold exactly up to 2 ^ 1023, and where the conversion
-- to a `Duration` panics.
pub record Powers (fl : Float) : Type 0 where
  pub double : ℕ → fl.F64
  pub secs : (k : ℕ) → k < 64 → fl.as_secs_f64 (from_secs (2 ^ k)) ≡ double k
  pub power : (k : ℕ) → k ≤ 1023 → fl.powi (double 1) (pos k) ≡ double k
  pub product : (j k : ℕ) → j + k ≤ 1023 → fl.times (double j) (double k) ≡ double (j + k)
  pub duration : (k : ℕ) → k < 64 → fl.from_secs_f64 (double k) ≡ some (from_secs (2 ^ k))
  pub too_large : (k : ℕ) → 64 ≤ k → k ≤ 1023 → fl.from_secs_f64 (double k) ≡ none

nonzero : (n : ℕ) → 0 < n → (n == 0) ≡ false
nonzero n h = ground arith

module _ (fl : Float) (pw : Powers fl) where
  -- A backoff that starts at 2 ^ j seconds and doubles.
  abbrev pub doubling : ℕ → ℕ → ExponentialBackoff fl
  doubling j max_delay = record {
    initial_delay = from_secs (2 ^ j);
    multiplier = pw.double 1;
    max_delay = max_delay;
  }

  scaled :
      (j n : ℕ)
      → 0 < n
      → j < 64
      → j + n ≤ 1024
      → fl.times (fl.as_secs_f64 (from_secs (2 ^ j))) (fl.powi (pw.double 1) (as_i32 (n - 1)))
        ≡ pw.double (j + (n - 1))
  scaled j n p a b =
      rw (lt→ltb (n - 1) (2 ^ 31) (omega arith), pw.secs j a, pw.power (n - 1) (omega arith))
        (pw.product j (n - 1) (omega arith))

  -- A doubling backoff that starts at 2 ^ j seconds waits 2 ^ (j + n - 1) seconds before attempt
  -- n, or the maximum, while j + n is at most 64.
  pub exponential_delay-formula :
      (j max_delay n : ℕ)
      → 0 < n
      → j + n ≤ 64
      → exponential_delay fl (doubling j max_delay) n
        ≡ some (min (from_secs (2 ^ (j + (n - 1)))) max_delay)
  unfolding exponential_delay
  exponential_delay-formula j max_delay n p h = rw (
    nonzero n p,
    scaled j n p (omega arith) (omega arith),
    pw.duration (j + (n - 1)) (omega arith),
  )

  -- Beyond that it panics, whatever the maximum.
  pub exponential_delay-panics :
      (j max_delay n : ℕ)
      → j < 64
      → 64 < j + n
      → j + n ≤ 1024
      → exponential_delay fl (doubling j max_delay) n ≡ none
  unfolding exponential_delay
  exponential_delay-panics j max_delay n a h b = rw (
    nonzero n (omega arith),
    scaled j n (omega arith) a b,
    pw.too_large (j + (n - 1)) (omega arith) (omega arith),
  )
