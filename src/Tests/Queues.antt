-- ===== src/Tests/Queues.antt =====
-- src/scheduler.rs on concrete queues.
use notifiapp_transport.Common.{ℕ, ◌≡◌, refl, arith, List, [], ◌∷◌, ◌++◌}
use notifiapp_transport.Scheduler.{
  WfqScheduler, new, enqueue, pop, queue, wfq_weights, first_pass, spend,
}
use notifiapp_transport.Scheduler.Levels.{MessagePriority, real_time, bulk}
use notifiapp_transport.Scheduler.Credits.{
  new-IsBudgeted, enqueue-IsBudgeted, pop-IsBudgeted, IsBudgeted,
}
use notifiapp_transport.Scheduler.History.{
  Call, push, take_next, history, pushed, of_level, history-new,
}
use notifiapp_transport.Scheduler.Service.{Contains, front-served-in_29}
use notifiapp_transport.Scheduler.Round.{pop_many, pop_many-weights, state, four}

abbrev calls : List (Call ℕ)
calls =
    push bulk 1
    ∷ push real_time 2
    ∷ push real_time 3
    ∷ take_next
    ∷ push bulk 4
    ∷ take_next
    ∷ take_next
    ∷ []

history_runs : (history calls new).0 ≡ (real_time, 2) ∷ (real_time, 3) ∷ (bulk, 1) ∷ []
unfolding history new enqueue pop first_pass spend
history_runs = refl

history-new_example :
    of_level bulk (history calls new).0 ++ queue (history calls new).1 bulk ≡ pushed bulk calls
history-new_example = history-new bulk calls

abbrev thirty : List (Call ℕ)
thirty =
    take_next ∷ take_next ∷ take_next ∷ take_next ∷ take_next ∷ take_next ∷ take_next ∷ take_next
    ∷ take_next ∷ take_next ∷ take_next ∷ take_next ∷ take_next ∷ take_next ∷ take_next ∷ take_next
    ∷ take_next ∷ take_next ∷ take_next ∷ take_next ∷ take_next ∷ take_next ∷ take_next ∷ take_next
    ∷ take_next ∷ take_next ∷ take_next ∷ take_next ∷ take_next ∷ []

abbrev one_bulk : WfqScheduler (MessagePriority × ℕ)
one_bulk = enqueue (bulk, 7) bulk new

one_bulk-queue : queue one_bulk bulk ≡ (bulk, 7) ∷ []
unfolding enqueue new
one_bulk-queue = refl

front-served-in_29_example : Contains (bulk, 7) (history thirty one_bulk).0
front-served-in_29_example =
    front-served-in_29 bulk thirty one_bulk (bulk, 7) []
      (enqueue-IsBudgeted (bulk, 7) bulk new new-IsBudgeted) one_bulk-queue (omega arith)

abbrev nines : List ℕ
nines = 9 ∷ 9 ∷ []

abbrev eight : List ℕ
eight = 1 ∷ 2 ∷ 3 ∷ 4 ∷ 5 ∷ 6 ∷ 7 ∷ 8 ∷ []

pop_many-weights_example :
    pop_many 15 (
      state
        (four
          (eight ++ nines)
          ((1 ∷ 2 ∷ 3 ∷ 4 ∷ []) ++ nines)
          ((5 ∷ 6 ∷ []) ++ nines)
          ((7 ∷ []) ++ []))
        wfq_weights)
    ≡ (
      eight ++ ((1 ∷ 2 ∷ 3 ∷ 4 ∷ []) ++ ((5 ∷ 6 ∷ []) ++ (7 ∷ []))),
      state (four nines nines nines []) (four 0 0 0 0),
    )
pop_many-weights_example =
    pop_many-weights eight (1 ∷ 2 ∷ 3 ∷ 4 ∷ []) (5 ∷ 6 ∷ []) (7 ∷ []) nines nines nines [] refl refl
      refl refl

pop-IsBudgeted_example : IsBudgeted (pop one_bulk).1
pop-IsBudgeted_example =
    pop-IsBudgeted one_bulk (enqueue-IsBudgeted (bulk, 7) bulk new new-IsBudgeted)
