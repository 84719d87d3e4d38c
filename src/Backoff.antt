-- ===== src/Backoff.antt =====
-- src/ws/client/backoff.rs: the delays between attempts to reconnect.
-- A `Duration` is its number of nanoseconds, and `none` is a panic. The arithmetic of `f64` is a
-- parameter.
pub mod Linear
pub mod Exponential
use notifiapp_transport.Common.{
  ℕ, ◌+◌, ◌-◌, ◌*◌, ◌^◌, ◌≡◌, Option, none, some, ltb, ◌==◌, if◌then◌else◌, min, Bool,
}

abbrev pub nanos_per_sec : ℕ
nanos_per_sec = 1_000_000_000

abbrev pub from_secs : ℕ → ℕ
from_secs s = s * nanos_per_sec

-- A duration holds less than 2 ^ 64 seconds; `+` and `*` on durations panic beyond that.
unfoldable pub checked : ℕ → Option ℕ
checked n = if ltb n (2 ^ 64 * nanos_per_sec) then some n else none

infixl 5 ◌>>=◌
abbrev pub ◌>>=◌ {ℓ κ} : {A : Type ℓ} {B : Type κ} → Option A → (A → Option B) → Option B
none >>= f = none
some a >>= f = f a

-- The trait: the delay before an attempt, counted from 1.
abbrev pub BackoffStrategy : Type 0
BackoffStrategy = ℕ → Option ℕ

pub record ConstantBackoff : Type 0 where
  pub delay : ℕ

unfoldable pub constant_delay : ConstantBackoff → BackoffStrategy
constant_delay b attempt = some b.delay

pub record LinearBackoff : Type 0 where
  pub initial_delay : ℕ
  pub step : ℕ
  pub max_delay : ℕ

unfoldable pub linear_delay : LinearBackoff → BackoffStrategy
linear_delay b attempt =
    if attempt == 0
    then some (from_secs 0)
    else ((checked (b.step * (attempt - 1)) >>= λ steps. checked (b.initial_delay + steps))
        >>= λ delay. some (min delay b.max_delay))

-- A value of type `i32`; `negsuc n` is -(n + 1).
pub data ℤ : Type 0 where
  pos negsuc : ℕ → ℤ

-- The cast of a `u32`.
abbrev pub as_i32 : ℕ → ℤ
as_i32 n = if ltb n (2 ^ 31) then pos n else negsuc (2 ^ 32 - n - 1)

pub record Float : Type 1 where
  pub F64 : Type 0
  pub powi : F64 → ℤ → F64
  pub times : F64 → F64 → F64
  pub as_secs_f64 : ℕ → F64
  -- Panics on a negative, infinite or too large value.
  pub from_secs_f64 : F64 → Option ℕ

pub record ExponentialBackoff (fl : Float) : Type 0 where
  pub initial_delay : ℕ
  pub multiplier : fl.F64
  pub max_delay : ℕ

unfoldable pub exponential_delay : (fl : Float) → ExponentialBackoff fl → BackoffStrategy
exponential_delay fl b attempt =
    if attempt == 0
    then some (from_secs 0)
    else (fl.from_secs_f64
          (fl.times (fl.as_secs_f64 b.initial_delay) (fl.powi b.multiplier (as_i32 (attempt - 1))))
        >>= λ delay. some (min delay b.max_delay))
