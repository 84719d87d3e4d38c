-- ===== src/Scheduler.antt =====
-- src/scheduler.rs: the weighted fair queueing scheduler of outgoing messages.
-- An array of length `MessagePriority::COUNT` is a record of four slots, read and written at
-- `priority as usize`; a `VecDeque` is a list with its front first.
pub mod Levels
pub mod Credits
pub mod Dequeue
pub mod History
pub mod Service
pub mod Round
pub mod Single
use notifiapp_transport.Common.{
  ℕ, zero, suc, ◌+◌, ◌-◌, ◌<◌, List, [], ◌∷◌, ◌++◌, Bool, true, false, not, ◌&&◌, Option, none,
  some, ltb, if◌then◌else◌, length, is_nil, or_return,
}
use Levels.{Slots, MessagePriority, get, set, real_time, normal, stream, bulk}

pub record WfqScheduler {ℓ} (T : Type ℓ) : Type ℓ where
  pub queues : Slots (List T)
  pub credits : Slots ℕ

-- Credits of one round, by priority.
abbrev pub wfq_weights : Slots ℕ
wfq_weights = record { s0 = 8; s1 = 4; s2 = 2; s3 = 1 }

-- `0..MessagePriority::COUNT`.
abbrev pub priorities : List MessagePriority
priorities = real_time ∷ normal ∷ stream ∷ bulk ∷ []

module _ {ℓ} {T : Type ℓ} where
  unfoldable pub new : WfqScheduler T
  new = record { queues = record { s0 = []; s1 = []; s2 = []; s3 = [] }; credits = wfq_weights }

  abbrev pub queue : WfqScheduler T → MessagePriority → List T
  queue s p = get s.queues p

  abbrev pub credit : WfqScheduler T → MessagePriority → ℕ
  credit s p = get s.credits p

  -- `self.queues[priority as usize].push_back(item)`.
  unfoldable pub enqueue : T → MessagePriority → WfqScheduler T → WfqScheduler T
  enqueue item p s = record s { queues = set s.queues p (queue s p ++ (item ∷ [])) }

  -- `self.queues[i].pop_front()`, with the queue that it leaves.
  abbrev pub pop_front : List T → Option T × List T
  pop_front [] = (none, [])
  pop_front (x ∷ xs) = (some x, xs)

  -- One credit of level `i` is spent, and the front of its queue is returned.
  unfoldable pub spend : MessagePriority → WfqScheduler T → Option T × WfqScheduler T
  spend i s =
      let (item, rest) = pop_front (queue s i) in
      (item, record { queues = set s.queues i rest; credits = set s.credits i (credit s i - 1) })

  -- The loops of `pop`: `none` means that the loop ended without a `return`.
  unfoldable pub first_pass :
      List MessagePriority → WfqScheduler T → Option (Option T × WfqScheduler T)
  first_pass [] s = none
  first_pass (i ∷ is) s =
      let rest = first_pass is s in
      if ltb 0 (credit s i) && not (is_nil (queue s i)) then some (spend i s) else rest

  unfoldable pub second_pass :
      List MessagePriority → WfqScheduler T → Option (Option T × WfqScheduler T)
  second_pass [] s = none
  second_pass (i ∷ is) s =
      let rest = second_pass is s in if not (is_nil (queue s i)) then some (spend i s) else rest

  -- `next` of the `Iterator` instance is `pop`.
  unfoldable pub pop : WfqScheduler T → Option T × WfqScheduler T
  pop s =
      let reset = record s { credits = wfq_weights } in
      or_return (first_pass priorities s) (or_return (second_pass priorities reset) (none, reset))

  unfoldable pub is_empty : WfqScheduler T → Bool
  is_empty s =
      is_nil (queue s real_time)
      && (is_nil (queue s normal) && (is_nil (queue s stream) && is_nil (queue s bulk)))

  unfoldable pub len : WfqScheduler T → ℕ
  len s =
      length (queue s real_time)
      + length (queue s normal)
      + length (queue s stream)
      + length (queue s bulk)
