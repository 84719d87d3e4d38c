-- ===== src/Client/Rounds.antt =====
-- The sending loop of `run_message_loop`, src/ws/client/connection_loop.rs.
use notifiapp_transport.Common.{
  ℕ, zero, suc, ◌+◌, ◌≤◌, ◌<◌, ◌≡◌, ◌≢◌, refl, arith, List, [], ◌∷◌, Bool, true, false, Option,
  none, some, length, concat, length-append, inl, inr, ◌⊎◌, ◌-◌,
}
use notifiapp_transport.Scheduler.{WfqScheduler, enqueue, pop, len}
use notifiapp_transport.Scheduler.Dequeue.{pop-len}
use notifiapp_transport.Scheduler.Single.{enqueue-len}
use notifiapp_transport.Frame.{Frame}
use notifiapp_transport.Crypto.{Snow}
use notifiapp_transport.Wire.{Link}
use notifiapp_transport.Ws.{WsMessage}
use notifiapp_transport.Client.State.{ClientCmd, send, endpoint_changed, reconnect, wake_up}
use notifiapp_transport.Client.Loop.{
  Setting, Loop, Flushed, drained, send_error, disconnect, out_of_fuel, drain, first_of, others_of,
  drained_on, sent_on, flush_next, flush, with_link,
}

-- The commands left for the next rounds.
first_of-others_of :
    (batches : List (List ClientCmd))
    → length (first_of batches) + length (concat (others_of batches)) ≡ length (concat batches)
first_of-others_of [] = omega arith
first_of-others_of (b ∷ bs) = omega (arith, length-append b (concat bs))

module _ (snow : Snow) (env : Setting snow) where
  abbrev Kept : Loop snow → Loop snow → ℕ → Type 0
  Kept s s' n =
      (len s'.scheduler ≤ len s.scheduler + n) × (s'.waiting_for_pong ≡ s.waiting_for_pong)

  drain-Kept :
      (cmds : List ClientCmd) (gone : Bool) (s : Loop snow)
      → Kept s (drain snow env cmds (gone, s)).1 (length cmds)
  unfolding drain
  drain-Kept [] gone s = (omega arith, refl)
  drain-Kept (send f p ∷ cmds) gone s =
      let (l, w) = drain-Kept cmds gone (record s { scheduler = enqueue f p s.scheduler }) in
      (omega (arith, l, enqueue-len f p s.scheduler), w)
  drain-Kept (endpoint_changed ∷ cmds) gone s =
      let (l, w) = drain-Kept cmds true (record s { closes = suc s.closes }) in
      (omega (arith, l), w)
  drain-Kept (reconnect ∷ cmds) gone s =
      let (l, w) = drain-Kept cmds true (record s { closes = suc s.closes }) in
      (omega (arith, l), w)
  drain-Kept (wake_up ∷ cmds) gone s = let (l, w) = drain-Kept cmds gone s in (omega (arith, l), w)

  -- The sending loop ended by itself, and the flag is as it was.
  abbrev Ends : Bool → Flushed × Loop snow → Type 0
  Ends waiting (out_of_fuel, s) = ⊥
  Ends waiting (drained, s) = s.waiting_for_pong ≡ waiting
  Ends waiting (send_error, s) = s.waiting_for_pong ≡ waiting
  Ends waiting (disconnect, s) = s.waiting_for_pong ≡ waiting

  drained_on-Ends :
      (waiting : Bool) (r : Bool × Loop snow) (k : Loop snow → Flushed × Loop snow)
      → r.1.waiting_for_pong ≡ waiting
      → Ends waiting (k r.1)
      → Ends waiting (drained_on snow env r k)
  drained_on-Ends waiting (true, s) k w h = w
  drained_on-Ends waiting (false, s) k w h = h

  sent_on-Ends :
      (n : ℕ) (r : Bool × Link snow WsMessage) (queued : List ClientCmd) (s : Loop snow)
      (k : Loop snow → Flushed × Loop snow)
      → len s.scheduler + length queued ≤ n
      → ((s' : Loop snow)
          → len s'.scheduler ≤ n
          → s'.waiting_for_pong ≡ s.waiting_for_pong
          → Ends s.waiting_for_pong (k s'))
      → Ends s.waiting_for_pong (sent_on snow env r queued s k)
  sent_on-Ends n (true, l) queued s k m h =
      let (q, w) = drain-Kept queued false (with_link snow env s l) in
      drained_on-Ends s.waiting_for_pong (drain snow env queued (false, with_link snow env s l)) k w
        (h _ (omega (arith, q, m)) w)
  sent_on-Ends n (false, l) queued s k m h = refl

  -- A frame that was taken leaves the scheduler shorter.
  abbrev Taken : ℕ → Option Frame × WfqScheduler Frame → Type 0
  Taken n (none, sch) = Unit {0}
  Taken n (some f, sch) = suc (len sch) ≤ n

  pop-Taken :
      (sch : WfqScheduler Frame) (r : Option Frame × WfqScheduler Frame)
      → (r.0 ≡ none) ⊎ ((f : Frame) × (r.0 ≡ some f) × (len sch ≡ suc (len r.1)))
      → Taken (len sch) r
  pop-Taken sch (none, sch') h = tt
  pop-Taken sch (some g, sch') (inl e) = absurd ground (arith, e)
  pop-Taken sch (some g, sch') (inr (f, e, l)) = omega (arith, l)

  flush_next-Ends :
      (n : ℕ) (r : Option Frame × WfqScheduler Frame) (queued : List ClientCmd) (s : Loop snow)
      (k : Loop snow → Flushed × Loop snow)
      → Taken (len s.scheduler) r
      → len s.scheduler + length queued ≤ suc n
      → ((s' : Loop snow)
          → 0 < len s.scheduler
          → len s'.scheduler ≤ n
          → s'.waiting_for_pong ≡ s.waiting_for_pong
          → Ends s.waiting_for_pong (k s'))
      → Ends s.waiting_for_pong (flush_next snow env r queued s k)
  flush_next-Ends n (none, sch) queued s k t m h = refl
  flush_next-Ends n (some f, sch) queued s k t m h =
      sent_on-Ends n _ queued (record s { scheduler = sch }) k (omega (arith, t, m))
        (λ s' l w. h s' (omega (arith, t)) l w)

  flush-Ends :
      (fuel : ℕ) (batches : List (List ClientCmd)) (s : Loop snow)
      → len s.scheduler + length (concat batches) < fuel
      → Ends s.waiting_for_pong (flush snow env fuel batches s)
  unfolding flush
  flush-Ends zero batches s h = absurd omega (arith, h)
  flush-Ends (suc fuel) batches s h =
      flush_next-Ends (len s.scheduler + length (first_of batches) - 1) (pop s.scheduler)
        (first_of batches) s _
        (pop-Taken s.scheduler (pop s.scheduler)
          (elim (pop-len s.scheduler) [ inl v ↦ inl v.1 | inr v ↦ inr v ]))
        (omega arith)
        (λ s' p l w. rw⁻¹ w (
          flush-Ends fuel (others_of batches) s'
            (omega (arith, h, p, l, first_of-others_of batches))))

  -- The sending loop of the client ends within the frames queued and the commands that come: its
  -- fuel suffices, and it leaves the wait for a pong as it was.
  pub flush-ends :
      (batches : List (List ClientCmd)) (s : Loop snow)
      → let r = flush snow env (suc (len s.scheduler + length (concat batches))) batches s in
        (r.0 ≢ out_of_fuel) × (r.1.waiting_for_pong ≡ s.waiting_for_pong)
  flush-ends batches s =
      ended_lem _
        (flush-Ends (suc (len s.scheduler + length (concat batches))) batches s (omega arith))
    where
      ended_lem :
          (r : Flushed × Loop snow)
          → Ends s.waiting_for_pong r
          → (r.0 ≢ out_of_fuel) × (r.1.waiting_for_pong ≡ s.waiting_for_pong)
      ended_lem (drained, t) h = (λ e. ground (arith, e), h)
      ended_lem (send_error, t) h = (λ e. ground (arith, e), h)
      ended_lem (disconnect, t) h = (λ e. ground (arith, e), h)
      ended_lem (out_of_fuel, t) h = absurd h
