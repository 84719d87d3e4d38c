-- ===== src/Scheduler/Credits.antt =====
-- The credit budget of src/scheduler.rs.
use notifiapp_transport.Common.{◌≤◌, arith}
use notifiapp_transport.Scheduler.Levels.{MessagePriority}
use notifiapp_transport.Scheduler.{WfqScheduler, new, enqueue, first_pass, second_pass, spend, pop}

-- No level holds more credits than its weight.
pub record IsBudgeted {ℓ} {T : Type ℓ} (s : WfqScheduler T) : Type 0 where
  pub c0 : s.credits.s0 ≤ 8
  pub c1 : s.credits.s1 ≤ 4
  pub c2 : s.credits.s2 ≤ 2
  pub c3 : s.credits.s3 ≤ 1

module _ {ℓ} {T : Type ℓ} where
  pub new-IsBudgeted : IsBudgeted (new {T = T})
  unfolding new
  new-IsBudgeted = omega arith

  pub enqueue-IsBudgeted :
      (x : T) (p : MessagePriority) (s : WfqScheduler T) → IsBudgeted s → IsBudgeted (enqueue x p s)
  unfolding enqueue
  enqueue-IsBudgeted x p s h = record { c0 = h.c0; c1 = h.c1; c2 = h.c2; c3 = h.c3 }

  pub pop-IsBudgeted : (s : WfqScheduler T) → IsBudgeted s → IsBudgeted (pop s).1
  unfolding pop first_pass second_pass spend
  pop-IsBudgeted s h = ground arith
