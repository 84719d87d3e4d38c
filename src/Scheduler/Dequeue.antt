-- ===== src/Scheduler/Dequeue.antt =====
-- What one `pop` of src/scheduler.rs does to the queues, and what a history of calls does.
use notifiapp_transport.Common.{
  ℕ, suc, ◌≡◌, refl, ◌⊎◌, ◌↔◌, inl, inr, arith, List, [], ◌∷◌, true, ltb, ◌&&◌, All, Option, none,
  some, not, is_nil, Bool-cases, list_cases,
}
use notifiapp_transport.Scheduler.Levels.{
  MessagePriority, Slots, real_time, normal, stream, bulk, get, set,
}
use notifiapp_transport.Scheduler.{
  WfqScheduler, first_pass, second_pass, spend, pop, queue, is_empty, len, priorities, wfq_weights,
}

module _ {ℓ} {T : Type ℓ} where
  -- The front `a` of one queue is returned, and the rest of that queue stays.
  pub record Served (s s' : WfqScheduler T) (r : Option T) : Type ℓ where
    pub level : MessagePriority
    pub item : T
    pub rest : List T
    pub front : queue s level ≡ item ∷ rest
    pub result : r ≡ some item
    pub left : s'.queues ≡ set s.queues level rest

  abbrev pub IsIdle : WfqScheduler T → Type ℓ
  IsIdle s = (p : MessagePriority) → queue s p ≡ []

  spend-Served :
      (i : MessagePriority) (s : WfqScheduler T) (q : List T)
      → queue s i ≡ q
      → not (is_nil q) ≡ true
      → Served s (spend i s).1 (spend i s).0
  unfolding spend
  spend-Served i s [] e h = cc
  spend-Served i s (a ∷ rest) e h = record {
    level = i;
    item = a;
    rest = rest;
    front = e;
    result = rw e;
    left = rw e;
  }

  abbrev Returns : WfqScheduler T → Option (Option T × WfqScheduler T) → Type ℓ
  Returns s o = (r : Option T × WfqScheduler T) × (o ≡ some r) × Served s r.1 r.0

  first_pass-Returns :
      (is : List MessagePriority) (s : WfqScheduler T)
      → (first_pass is s ≡ none) ⊎ Returns s (first_pass is s)
  unfolding first_pass
  first_pass-Returns [] s = inl refl
  first_pass-Returns (i ∷ is) s =
      elim (Bool-cases (ltb 0 (get s.credits i) && not (is_nil (get s.queues i)))) [
        | inl e ↦ rw e (inr (spend i s, refl, spend-Served i s _ refl (ground arith)))
        | inr e ↦ rw e (first_pass-Returns is s)
      ]

  second_pass-Returns :
      (is : List MessagePriority) (s : WfqScheduler T)
      → ((second_pass is s ≡ none) × All (λ i. queue s i ≡ []) is) ⊎ Returns s (second_pass is s)
  unfolding second_pass
  second_pass-Returns [] s = inl (refl, tt)
  second_pass-Returns (i ∷ is) s = elim (list_cases (get s.queues i)) [
    | inl e ↦
        rw (e) (elim (second_pass-Returns is s) [ inl (n, h) ↦ inl (n, (refl, h)) | inr r ↦ inr r ])
    | inr (a, rest, e) ↦ inr (spend i s, rw e, spend-Served i s _ e refl)
  ]

  each_level : (s : WfqScheduler T) → All (λ i. queue s i ≡ []) priorities → IsIdle s
  each_level s h real_time = h.0
  each_level s h normal = h.1.0
  each_level s h stream = h.1.1.0
  each_level s h bulk = h.1.1.1.0

  -- `pop` returns the front of one queue and takes nothing else, or all queues are empty.
  pub pop-Served :
      (s : WfqScheduler T)
      → (IsIdle s × ((pop s).0 ≡ none) × ((pop s).1.queues ≡ s.queues))
        ⊎ Served s (pop s).1 (pop s).0
  unfolding pop
  pop-Served s = elim (first_pass-Returns priorities s) [
    | inr (r, e, v) ↦ rw e (inr v)
    | inl e ↦ rw e (elim (second_pass-Returns priorities (record s { credits = wfq_weights })) [
      | inr (r, e', v) ↦ rw e' (
          inr (record {
            level = v.level;
            item = v.item;
            rest = v.rest;
            front = v.front;
            result = v.result;
            left = v.left;
          }))
      | inl (e', h) ↦ rw e' (inl (each_level s h, refl, refl))
    ])
  ]

  len-set :
      (qs : Slots (List T)) (cs cs' : Slots ℕ) (p : MessagePriority) (x : T) (rest : List T)
      → get qs p ≡ x ∷ rest
      → len (record { queues = qs; credits = cs })
        ≡ suc (len (record { queues = set qs p rest; credits = cs' }))
  unfolding len
  len-set qs cs cs' p x rest e = ground arith

  -- A `pop` takes one item out of a scheduler that holds any, and only an empty one returns `None`.
  pub pop-len :
      (s : WfqScheduler T)
      → ((len s ≡ 0) × ((pop s).0 ≡ none) × ((pop s).1.queues ≡ s.queues))
        ⊎ ((a : T) × ((pop s).0 ≡ some a) × (len s ≡ suc (len (pop s).1)))
  pop-len s = elim (pop-Served s) [
    | inl (idle, e, l) ↦ inl (idle_len s idle, e, l)
    | inr v ↦ inr (v.item, v.result, served v)
  ]
    where
      idle_len : (t : WfqScheduler T) → IsIdle t → len t ≡ 0
      idle_len t h = unfold len in rw (h real_time, h normal, h stream, h bulk)

      served : (v : Served s (pop s).1 (pop s).0) → len s ≡ suc (len (pop s).1)
      served v =
          rw (len-set s.queues s.credits (pop s).1.credits v.level v.item v.rest v.front)
            (unfold len in rw v.left)

  -- `is_empty`, `len` and the `None` of `pop` agree.
  pub is_empty_iff : (s : WfqScheduler T) → (is_empty s ≡ true) ↔ (len s ≡ 0)
  unfolding is_empty len
  is_empty_iff s = ground arith
