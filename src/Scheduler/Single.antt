-- ===== src/Scheduler/Single.antt =====
-- src/scheduler.rs with nothing queued, and with a single item.
use notifiapp_transport.Common.{
  ℕ, ◌≡◌, refl, ap, ◌∙◌, sym, subst, suc, length-append, arith, List, [], ◌∷◌, none, some, inl, inr,
}
use notifiapp_transport.Scheduler.Levels.{
  MessagePriority, Slots, real_time, normal, stream, bulk, get,
}
use notifiapp_transport.Scheduler.{
  WfqScheduler, enqueue, first_pass, second_pass, spend, pop, new, len,
}
use notifiapp_transport.Scheduler.Dequeue.{IsIdle, pop-Served}

module _ {ℓ} {T : Type ℓ} where
  pub new-IsIdle : IsIdle {T = T} new
  unfolding new
  new-IsIdle real_time = refl
  new-IsIdle normal = refl
  new-IsIdle stream = refl
  new-IsIdle bulk = refl

  not_idle : {x : T} {xs : List T} → [] ≡ x ∷ xs → ⊥
  not_idle e = cc

  pub pop_idle : (s : WfqScheduler T) → IsIdle s → ((pop s).0 ≡ none) × IsIdle (pop s).1
  pop_idle s h = elim (pop-Served s) [
    | inl (i, e, q) ↦ (e, λ p. ap (λ x. get x p) q ∙ h p)
    | inr v ↦ absurd (not_idle (sym (h v.level) ∙ v.front))
  ]

  abbrev nothing : Slots ℕ → WfqScheduler T
  nothing c = record { queues = record { s0 = []; s1 = []; s2 = []; s3 = [] }; credits = c }

  nothing-IsIdle : (c : Slots ℕ) → IsIdle (nothing c)
  nothing-IsIdle c real_time = refl
  nothing-IsIdle c normal = refl
  nothing-IsIdle c stream = refl
  nothing-IsIdle c bulk = refl

  pop-nothing_item :
      (x : T) (p : MessagePriority) (c : Slots ℕ) → (pop (enqueue x p (nothing c))).0 ≡ some x
  unfolding pop first_pass second_pass spend enqueue
  pop-nothing_item x real_time c = ground arith
  pop-nothing_item x normal c = ground arith
  pop-nothing_item x stream c = ground arith
  pop-nothing_item x bulk c = ground arith

  pop-nothing_queues :
      (x : T) (p : MessagePriority) (c : Slots ℕ)
      → (pop (enqueue x p (nothing c))).1.queues ≡ (nothing c).queues
  unfolding pop first_pass second_pass spend enqueue
  pop-nothing_queues x real_time c = ground arith
  pop-nothing_queues x normal c = ground arith
  pop-nothing_queues x stream c = ground arith
  pop-nothing_queues x bulk c = ground arith

  pub pop-enqueue :
      (x : T) (p : MessagePriority) (s : WfqScheduler T)
      → IsIdle s
      → ((pop (enqueue x p s)).0 ≡ some x) × IsIdle (pop (enqueue x p s)).1
  pop-enqueue x p s h =
      subst (λ t. ((pop (enqueue x p t)).0 ≡ some x) × IsIdle (pop (enqueue x p t)).1)
        (λ i. record {
          queues = record {
            s0 = (sym (h real_time)) i;
            s1 = (sym (h normal)) i;
            s2 = (sym (h stream)) i;
            s3 = (sym (h bulk)) i;
          };
          credits = s.credits;
        })
        (
          pop-nothing_item x p s.credits,
          λ q. ap (λ a. get a q) (pop-nothing_queues x p s.credits) ∙ nothing-IsIdle s.credits q,
        )

  pub enqueue-len :
      (f : T) (p : MessagePriority) (s : WfqScheduler T) → len (enqueue f p s) ≡ suc (len s)
  unfolding enqueue len
  enqueue-len f real_time s = ground (arith, length-append s.queues.s0 (f ∷ []))
  enqueue-len f normal s = ground (arith, length-append s.queues.s1 (f ∷ []))
  enqueue-len f stream s = ground (arith, length-append s.queues.s2 (f ∷ []))
  enqueue-len f bulk s = ground (arith, length-append s.queues.s3 (f ∷ []))
