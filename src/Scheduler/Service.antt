-- ===== src/Scheduler/Service.antt =====
-- How long the front of a queue of src/scheduler.rs waits.
use notifiapp_transport.Common.{
  sym, ℕ, suc, ◌+◌, ◌≤◌, ◌<◌, ◌≡◌, refl, ◌⊎◌, inl, inr, arith, List, [], ◌∷◌, ◌++◌, some, ltb,
  if◌then◌else◌, append_assoc, drop,
}
use notifiapp_transport.Scheduler.Levels.{MessagePriority, real_time, normal, stream, bulk}
use notifiapp_transport.Scheduler.{
  WfqScheduler, enqueue, first_pass, second_pass, spend, pop, queue,
}
use notifiapp_transport.Scheduler.Credits.{IsBudgeted}
use notifiapp_transport.Scheduler.History.{Call, push, take_next, history, option_list}

module _ {T : Type 0} where
  abbrev total : WfqScheduler T → ℕ
  total s = s.credits.s0 + s.credits.s1 + s.credits.s2 + s.credits.s3

  -- A bound on the calls of `pop` that come before the front of a queue is served.
  abbrev pub wait : WfqScheduler T → MessagePriority → ℕ
  wait s real_time = if ltb 0 s.credits.s0 then 0 else total s
  wait s normal = if ltb 0 s.credits.s1 then s.credits.s0 else total s + 8
  wait s stream = if ltb 0 s.credits.s2 then s.credits.s0 + s.credits.s1 else total s + 12
  wait s bulk =
      if ltb 0 s.credits.s3 then s.credits.s0 + s.credits.s1 + s.credits.s2 else total s + 14

  -- A `pop` serves the front of the queue, or its wait falls.
  pop-wait :
      (p : MessagePriority) (s : WfqScheduler T) (a : T) (rest : List T)
      → queue s p ≡ a ∷ rest
      → ((pop s).0 ≡ some a) ⊎ ((queue (pop s).1 p ≡ a ∷ rest) × (wait (pop s).1 p < wait s p))
  unfolding pop first_pass second_pass spend
  pop-wait real_time s a rest e = ground arith
  pop-wait normal s a rest e = ground arith
  pop-wait stream s a rest e = ground arith
  pop-wait bulk s a rest e = ground arith

  abbrev pub Contains : T → List T → Type 0
  Contains a out = (before after : List T) × (out ≡ before ++ (a ∷ after))

  wait-le : (p : MessagePriority) (s : WfqScheduler T) → IsBudgeted s → wait s p ≤ 28
  wait-le real_time s b = ground arith
  wait-le normal s b = ground arith
  wait-le stream s b = ground arith
  wait-le bulk s b = ground arith

-- The calls of `pop` in a history.
abbrev pub pops {ℓ} : {A : Type ℓ} → List (Call A) → ℕ
pops [] = 0
pops (push p a ∷ cs) = pops cs
pops (take_next ∷ cs) = suc (pops cs)

module _ {A : Type 0} where
  enqueue-front :
      (p q : MessagePriority) (b : A) (s : WfqScheduler (MessagePriority × A))
      (a : MessagePriority × A) (rest : List (MessagePriority × A))
      → queue s p ≡ a ∷ rest
      → (rest' : List (MessagePriority × A)) × (queue (enqueue (q, b) q s) p ≡ a ∷ rest')
  unfolding enqueue
  enqueue-front p q b s a rest e = (drop 1 (queue (enqueue (q, b) q s) p), ground arith)

  enqueue-wait :
      (p q : MessagePriority) (b : A) (s : WfqScheduler (MessagePriority × A))
      → wait (enqueue (q, b) q s) p ≡ wait s p
  unfolding enqueue
  enqueue-wait real_time q b s = refl
  enqueue-wait normal q b s = refl
  enqueue-wait stream q b s = refl
  enqueue-wait bulk q b s = refl

  front-served :
      (p : MessagePriority) (cs : List (Call A)) (s : WfqScheduler (MessagePriority × A))
      (a : MessagePriority × A) (rest : List (MessagePriority × A))
      → queue s p ≡ a ∷ rest
      → wait s p < pops cs
      → Contains a (history cs s).0
  unfolding history
  front-served p [] s a rest e h = absurd (omega arith)
  front-served p (push q b ∷ cs) s a rest e h =
      let (rest', e') = enqueue-front p q b s a rest e in
      front-served p cs (enqueue (q, b) q s) a rest' e' (rw (enqueue-wait p q b s) h)
  front-served p (take_next ∷ cs) s a rest e h = elim (pop-wait p s a rest e) [
    | inl now ↦ ([], (history cs (pop s).1).0, rw now)
    | inr (e', less) ↦
        let (before, after, f) = front-served p cs (pop s).1 a rest e' (omega arith) in
        (
          option_list (pop s).0 ++ before,
          after,
          rw f (sym (append_assoc (option_list (pop s).0) before (a ∷ after))),
        )
  ]

  -- An item at the front of its queue, at any level and with any credits within the weights, is
  -- returned in every sequence of calls with at least 29 pops, whatever is enqueued meanwhile.
  pub front-served-in_29 :
      (p : MessagePriority) (cs : List (Call A)) (s : WfqScheduler (MessagePriority × A))
      (a : MessagePriority × A) (rest : List (MessagePriority × A))
      → IsBudgeted s
      → queue s p ≡ a ∷ rest
      → 28 < pops cs
      → Contains a (history cs s).0
  front-served-in_29 p cs s a rest b e h =
      front-served p cs s a rest e (omega (arith, wait-le p s b))
