-- ===== src/Runtime.antt =====
-- src/runtime.rs in the build for wasm32: sleeping up to a time, and waiting no longer than that.
use notifiapp_transport.Common.{
  ℕ, ◌+◌, ◌-◌, ◌≤◌, ◌≡◌, Option, none, some, Result, ok, err, ltb, if◌then◌else◌, arith,
}

-- The sleep that it makes, if any.
unfoldable pub sleep_until : ℕ → ℕ → Option ℕ
sleep_until now deadline = if ltb now deadline then some (deadline - now) else none

-- Which of the two `select!` took.
pub data Race (T : Type 0) : Type 0 where
  finished : T → Race T
  slept : Race T

pub data Elapsed : Type 0 where
  elapsed : Elapsed

unfoldable pub timeout : {T : Type 0} → Race T → Result T Elapsed
timeout (finished res) = ok res
timeout slept = err elapsed

-- The time behind a sleep.
abbrev woken : ℕ → Option ℕ → ℕ
woken now none = now
woken now (some d) = now + d

-- It ends at the deadline, or at once if that is past.
pub sleep_until-woken :
    (now deadline : ℕ)
    → (now ≤ deadline → woken now (sleep_until now deadline) ≡ deadline)
      × (deadline ≤ now → woken now (sleep_until now deadline) ≡ now)
unfolding sleep_until
sleep_until-woken now deadline = (λ h. ground (arith, h), λ h. ground (arith, h))
