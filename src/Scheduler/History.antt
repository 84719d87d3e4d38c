-- ===== src/Scheduler/History.antt =====
-- Histories of `enqueue` and `pop` calls of src/scheduler.rs.
use notifiapp_transport.Common.{
  Bool, true, false, Bool-cases, if◌then◌else◌, ◌≡◌, refl, sym, ap, ◌∙◌, inl, inr, ◌≢◌, arith, List,
  [], ◌∷◌, ◌++◌, All, Option, none, some, append-nil, append_assoc,
}
use notifiapp_transport.Scheduler.Levels.{
  MessagePriority, Slots, real_time, normal, stream, bulk, get, set, get-set_self, get-set_ne,
}
use notifiapp_transport.Scheduler.{WfqScheduler, new, enqueue, pop, queue}
use notifiapp_transport.Scheduler.Dequeue.{pop-Served}

abbrev pub same : MessagePriority → MessagePriority → Bool
same real_time real_time = true
same normal normal = true
same stream stream = true
same bulk bulk = true
same _ _ = false

same-eq : (p q : MessagePriority) → same p q ≡ true → p ≡ q
same-eq p q h = ground arith

same-ne : (p q : MessagePriority) → same p q ≡ false → p ≢ q
same-ne p q h e = ground arith

same_refl : (p : MessagePriority) → same p p ≡ true
same_refl p = ground arith

abbrev pub option_list {ℓ} : {A : Type ℓ} → Option A → List A
option_list none = []
option_list (some a) = a ∷ []

-- An item is paired with the level at which it was queued.
pub data Call {ℓ} (A : Type ℓ) : Type ℓ where
  push : MessagePriority → A → Call A
  take_next : Call A

module _ {ℓ} {A : Type ℓ} where
  -- What the calls return, in order, and the scheduler that they leave.
  unfoldable pub history :
      List (Call A)
      → WfqScheduler (MessagePriority × A)
      → List (MessagePriority × A) × WfqScheduler (MessagePriority × A)
  history [] s = ([], s)
  history (push p a ∷ cs) s = history cs (enqueue (p, a) p s)
  history (take_next ∷ cs) s =
      let (out, last) = history cs (pop s).1 in (option_list (pop s).0 ++ out, last)

  abbrev pub pushed : MessagePriority → List (Call A) → List (MessagePriority × A)
  pushed p [] = []
  pushed p (push q a ∷ cs) = if same q p then (q, a) ∷ pushed p cs else pushed p cs
  pushed p (take_next ∷ cs) = pushed p cs

  abbrev pub of_level : MessagePriority → List (MessagePriority × A) → List (MessagePriority × A)
  of_level p [] = []
  of_level p (x ∷ xs) = if same x.0 p then x ∷ of_level p xs else of_level p xs

  of_level-append :
      (p : MessagePriority) (xs ys : List (MessagePriority × A))
      → of_level p (xs ++ ys) ≡ of_level p xs ++ of_level p ys
  of_level-append p [] ys = refl
  of_level-append p (x ∷ xs) ys = ground (arith, of_level-append p xs ys)

  -- Each queue holds items of its own level.
  abbrev pub IsTagged : WfqScheduler (MessagePriority × A) → Type 0
  IsTagged s = (p : MessagePriority) → All (λ x. same x.0 p ≡ true) (queue s p)

  All-snoc :
      (p : MessagePriority) (xs : List (MessagePriority × A)) (x : MessagePriority × A)
      → All (λ y. same y.0 p ≡ true) xs
      → same x.0 p ≡ true
      → All (λ y. same y.0 p ≡ true) (xs ++ (x ∷ []))
  All-snoc p [] x h e = (e, tt)
  All-snoc p (y ∷ ys) x h e = (h.0, All-snoc p ys x h.1 e)

  enqueue-queue :
      (p q : MessagePriority) (a : A) (s : WfqScheduler (MessagePriority × A))
      → queue (enqueue (p, a) p s) q ≡ queue s q ++ (if same p q then (p, a) ∷ [] else [])
  unfolding enqueue
  enqueue-queue p q a s = elim (Bool-cases (same p q)) [
    | inl e ↦ rw (e, ← same-eq p q e) (get-set_self s.queues p _)
    | inr n ↦ rw n (get-set_ne s.queues p q _ (same-ne p q n) ∙ sym (append-nil _))
  ]

  enqueue-IsTagged :
      (p : MessagePriority) (a : A) (s : WfqScheduler (MessagePriority × A))
      → IsTagged s
      → IsTagged (enqueue (p, a) p s)
  enqueue-IsTagged p a s h q = elim (Bool-cases (same p q)) [
    | inl e ↦ rw (enqueue-queue p q a s, e) (All-snoc q (queue s q) (p, a) (h q) e)
    | inr n ↦ rw (enqueue-queue p q a s, n, append-nil) (h q)
  ]

  -- A served front belongs to the level of its queue.
  served-queue :
      (p q : MessagePriority) (x : MessagePriority × A) (rest : List (MessagePriority × A))
      (qs : Slots (List (MessagePriority × A)))
      → get qs p ≡ x ∷ rest
      → same x.0 p ≡ true
      → of_level q (x ∷ []) ++ get (set qs p rest) q ≡ get qs q
  served-queue p q x rest qs e t = ground arith

  rest-All :
      (p q : MessagePriority) (x : MessagePriority × A) (rest : List (MessagePriority × A))
      (qs : Slots (List (MessagePriority × A)))
      → get qs p ≡ x ∷ rest
      → All (λ y. same y.0 p ≡ true) (x ∷ rest)
      → All (λ y. same y.0 q ≡ true) (get qs q)
      → All (λ y. same y.0 q ≡ true) (get (set qs p rest) q)
  rest-All p q x rest qs e t u = elim (Bool-cases (same p q)) [
    | inl s ↦ rw (← same-eq p q s, get-set_self qs p rest) t.1
    | inr n ↦ rw (get-set_ne qs p q rest (same-ne p q n)) u
  ]

  -- The item and the queue that a `pop` leaves, seen at one level.
  pop-queue :
      (q : MessagePriority) (s : WfqScheduler (MessagePriority × A))
      → IsTagged s
      → of_level q (option_list (pop s).0) ++ queue (pop s).1 q ≡ queue s q
  pop-queue q s h = elim (pop-Served s) [
    | inl (idle, e, l) ↦ rw (e, l)
    | inr v ↦
        rw (v.result, v.left)
          (served-queue v.level q v.item v.rest s.queues v.front (rw v.front at (h v.level)).0)
  ]

  pop-IsTagged : (s : WfqScheduler (MessagePriority × A)) → IsTagged s → IsTagged (pop s).1
  pop-IsTagged s h q = elim (pop-Served s) [
    | inl (idle, e, l) ↦ rw l (h q)
    | inr v ↦
        rw v.left
          (rest-All v.level q v.item v.rest s.queues v.front (rw v.front at (h v.level)) (h q))
  ]

  -- What is queued at a level is what comes out of it, in order, and then what is still queued.
  history-queue :
      (p : MessagePriority) (cs : List (Call A)) (s : WfqScheduler (MessagePriority × A))
      → IsTagged s
      → of_level p (history cs s).0 ++ queue (history cs s).1 p ≡ queue s p ++ pushed p cs
  unfolding history
  history-queue p [] s h = sym (append-nil (queue s p))
  history-queue p (push q a ∷ cs) s h =
      history-queue p cs (enqueue (q, a) q s) (enqueue-IsTagged q a s h) ∙ push_lem
    where
      push_lem : queue (enqueue (q, a) q s) p ++ pushed p cs ≡ queue s p ++ pushed p (push q a ∷ cs)
      push_lem = ground (
        arith,
        enqueue-queue q p a s,
        append_assoc (queue s p) ((q, a) ∷ []) (pushed p cs),
        append-nil (queue s p),
      )
  history-queue p (take_next ∷ cs) s h =
      rw
        (
          of_level-append p (option_list (pop s).0),
          append_assoc,
          history-queue p cs (pop s).1 (pop-IsTagged s h),
          ← append_assoc,
        )
        (ap (λ t. t ++ pushed p cs) (pop-queue p s h))

  new-queue : (p : MessagePriority) → queue (new {T = MessagePriority × A}) p ≡ []
  unfolding new
  new-queue real_time = refl
  new-queue normal = refl
  new-queue stream = refl
  new-queue bulk = refl

  -- For any sequence of enqueue and pop calls on a new scheduler and any priority level, what was
  -- popped of the level followed by what is queued of it is what was enqueued at it, in order.
  pub history-new :
      (p : MessagePriority) (cs : List (Call A))
      → of_level p (history cs new).0 ++ queue (history cs new).1 p ≡ pushed p cs
  history-new p cs = rw (new-queue p) at (history-queue p cs new (λ q. rw (new-queue q) tt))
