-- ===== src/Tests/Delays.antt =====
-- src/ws/client/backoff.rs on concrete delays, and floats that are powers of two.
use Prim.Native.Nat.add
use native.Mathlib.Nat.{two-pow-succ, pow-le-pow_right, one-le-pow, add-mul}
use notifiapp_transport.Common.{
  zero, suc, ℕ, ◌+◌, ◌-◌, ◌*◌, ◌/◌, ◌^◌, ◌≤◌, ◌<◌, ◌≡◌, refl, arith, none, some, min, ltb,
  if◌then◌else◌, lt→ltb, le→ltb_false,
}
use notifiapp_transport.Backoff.{
  LinearBackoff, linear_delay, Float, ExponentialBackoff, exponential_delay, from_secs, ℤ, pos,
  negsuc, nanos_per_sec, checked,
}
use notifiapp_transport.Backoff.Exponential.{
  Powers, doubling, exponential_delay-formula, exponential_delay-panics,
}

abbrev seconds : LinearBackoff
seconds = record { initial_delay = 1_000_000_000; step = 2_000_000_000; max_delay = 60_000_000_000 }

five_seconds : linear_delay seconds 3 ≡ some 5_000_000_000
unfolding linear_delay checked
five_seconds = refl

a_minute : linear_delay seconds 100 ≡ some 60_000_000_000
unfolding linear_delay checked
a_minute = refl

abbrev huge : LinearBackoff
huge = record { initial_delay = 0; step = 2 ^ 63 * 1_000_000_000; max_delay = 60_000_000_000 }

-- Floats whose values are natural numbers.
abbrev power_of : ℕ → ℤ → ℕ
power_of x (pos n) = x ^ n
power_of x (negsuc n) = 0

abbrev pub naturals : Float
naturals = record {
  F64 = ℕ;
  powi = power_of;
  times = λ x y. x * y;
  as_secs_f64 = λ d. d / nanos_per_sec;
  from_secs_f64 = λ x. if ltb x (2 ^ 64) then some (from_secs x) else none;
}

product_of_powers : (j k : ℕ) → 2 ^ j * 2 ^ k ≡ 2 ^ (j + k)
product_of_powers zero k = rw add.zero (omega arith)
product_of_powers (suc j) k =
    rw
      (
        add.suc,
        two-pow-succ j,
        two-pow-succ (j + k),
        add-mul (2 ^ j) (2 ^ j) (2 ^ k),
        product_of_powers j k,
      )
      refl

small_power : (k : ℕ) → k < 64 → 2 ^ k < 2 ^ 64
small_power k h = omega (
  arith,
  pow-le-pow_right {n = 2} (omega arith) {i = suc k} {j = 64} (omega (arith, h)),
  two-pow-succ k,
  one-le-pow k 2 (omega arith),
)

large_power : (k : ℕ) → 64 ≤ k → 2 ^ 64 ≤ 2 ^ k
large_power k h = pow-le-pow_right {n = 2} (omega arith) h

pub naturals_powers : Powers naturals
naturals_powers = record {
  double = λ k. 2 ^ k;
  secs = λ k h. omega arith;
  power = λ k h. refl;
  product = λ j k h. product_of_powers j k;
  duration = λ k h. rw (lt→ltb (2 ^ k) (2 ^ 64) (small_power k h)) refl;
  too_large = λ k a b. rw (le→ltb_false (2 ^ k) (2 ^ 64) (large_power k a)) refl;
}

-- The default configuration doubles a first delay of two seconds, up to a minute.
abbrev default_backoff : ExponentialBackoff naturals
default_backoff = doubling naturals naturals_powers 1 60_000_000_000

exponential_delay-formula_example :
    exponential_delay naturals default_backoff 3
    ≡ some (min (from_secs (2 ^ (1 + (3 - 1)))) 60_000_000_000)
exponential_delay-formula_example =
    exponential_delay-formula naturals naturals_powers 1 60_000_000_000 3 (omega arith)
      (omega arith)

exponential_delay-panics_example : exponential_delay naturals default_backoff 64 ≡ none
exponential_delay-panics_example =
    exponential_delay-panics naturals naturals_powers 1 60_000_000_000 64 (omega arith)
      (omega arith) (omega arith)
