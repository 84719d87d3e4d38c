-- ===== src/Server/Flush.antt =====
-- The sending loop of src/ws/server/session.rs.
use notifiapp_transport.Common.{
  ℕ, zero, suc, ◌<◌, ◌≡◌, refl, ◌∙◌, arith, List, [], ◌++◌, Bool, true, false, Option, none, some,
  inl, inr,
}
use notifiapp_transport.Common.{Bool-cases, ◌⊎◌, inl, inr}
use notifiapp_transport.Scheduler.{WfqScheduler, pop, len}
use notifiapp_transport.Scheduler.Dequeue.{pop-len}
use notifiapp_transport.Scheduler.Round.{pop_many}
use notifiapp_transport.Scheduler.History.{option_list}
use notifiapp_transport.Frame.{Frame}
use notifiapp_transport.Crypto.{Snow}
use notifiapp_transport.Wire.{Link, transmit, transmit_all, transmitted}
use notifiapp_transport.Ws.{Message}
use notifiapp_transport.Server.Session.{
  Session, Setting, flush, flush_next, sent_on, with_link, link,
}

module _ (snow : Snow) (env : Setting snow) where
  abbrev transmit_frame : Frame → Link snow Message → Bool × Link snow Message
  transmit_frame = transmit env.codec snow env.sink Message.binary

  -- A property that one round keeps is kept by the loop.
  module _ (P : Session snow → Type 0)
      (emptied : (s : Session snow) (sch : WfqScheduler Frame)
        → pop s.scheduler ≡ (none, sch)
        → P s
        → P (record s { scheduler = sch }))
      (sent : (s : Session snow) (f : Frame) (sch : WfqScheduler Frame)
        → pop s.scheduler ≡ (some f, sch)
        → P s
        → P (
            with_link snow env
              (record s { scheduler = sch })
              (transmit env.codec snow env.sink Message.binary f (link snow env s)).1)) where
    round :
        (fuel : ℕ) (s : Session snow) (r : Option Frame × WfqScheduler Frame)
        → pop s.scheduler ≡ r
        → ((s' : Session snow) → P s' → P (flush snow env fuel s').1)
        → P s
        → P (flush_next snow env r s (λ s'. flush snow env fuel s')).1
    round fuel s (none, sch) e ih h = emptied s sch e h
    round fuel s (some f, sch) e ih h = go (transmit_frame f (link snow env s)) (sent s f sch e h)
      where
        go :
            (r : Bool × Link snow Message)
            → P (with_link snow env (record s { scheduler = sch }) r.1)
            → P (sent_on snow env r (record s { scheduler = sch }) (λ s'. flush snow env fuel s')).1
        go (true, l) k = ih (with_link snow env (record s { scheduler = sch }) l) k
        go (false, l) k = k

    pub flush-keeps : (fuel : ℕ) (s : Session snow) → P s → P (flush snow env fuel s).1
    unfolding flush
    flush-keeps zero s h = h
    flush-keeps (suc fuel) s h = round fuel s (pop s.scheduler) refl (flush-keeps fuel) h

  -- A run of the loop against a run of `transmit_all`.
  abbrev Agree : Bool × Session snow → Bool × Link snow Message → Type 0
  Agree r all = (r.0 ≡ all.0) × (link snow env r.1 ≡ all.1) × (all.0 ≡ true → len r.1.scheduler ≡ 0)

  abbrev send_frames : List Frame → Link snow Message → Bool × Link snow Message
  send_frames = transmit_all env.codec snow env.sink Message.binary

  -- Whether a `pop` found a frame, and how many are left.
  abbrev Popped : ℕ → Option Frame × WfqScheduler Frame → Type 0
  Popped zero r = (r.0 ≡ none) × (len r.1 ≡ 0)
  Popped (suc n) r = (f : Frame) × (r.0 ≡ some f) × (len r.1 ≡ n)

  len-queues : (s t : WfqScheduler Frame) → s.queues ≡ t.queues → len s ≡ len t
  unfolding len
  len-queues s t e = rw e

  pop-Popped : (n : ℕ) (s : WfqScheduler Frame) → len s ≡ n → Popped n (pop s)
  pop-Popped zero s h = elim (pop-len s) [
    | inl (z, e, q) ↦ (e, len-queues (pop s).1 s q ∙ h)
    | inr (a, e, l) ↦ absurd (omega (arith, l, h))
  ]
  pop-Popped (suc n) s h = elim (pop-len s) [
    | inl (z, e, q) ↦ absurd (omega (arith, z, h))
    | inr (a, e, l) ↦ (a, e, omega (arith, l, h))
  ]

  -- What `pop_many` hands out, from the result of its first `pop`.
  abbrev handed : ℕ → Option Frame × WfqScheduler Frame → List Frame
  handed zero r = []
  handed (suc n) r = option_list r.0 ++ (pop_many n r.1).0

  pop_many-handed : (n : ℕ) (s : WfqScheduler Frame) → (pop_many n s).0 ≡ handed n (pop s)
  unfolding pop_many
  pop_many-handed zero s = refl
  pop_many-handed (suc n) s = refl

  sent_on-Agree :
      (fuel : ℕ) (s : Session snow) (fs : List Frame) (t : Bool × Link snow Message)
      → ((l : Link snow Message)
          → Agree (flush snow env fuel (with_link snow env s l)) (send_frames fs l))
      → Agree
          (sent_on snow env t s (λ s'. flush snow env fuel s'))
          (transmitted env.codec snow env.sink Message.binary t (send_frames fs))
  sent_on-Agree fuel s fs (true, l) ih = ih l
  sent_on-Agree fuel s fs (false, l) ih = (refl, refl, λ e. cc)

  flush_next-Agree :
      (n fuel : ℕ) (s : Session snow) (r : Option Frame × WfqScheduler Frame)
      → Popped n r
      → ((m : ℕ) (s' : Session snow)
          → n ≡ suc m
          → len s'.scheduler ≡ m
          → Agree
              (flush snow env fuel s')
              (send_frames (pop_many m s'.scheduler).0 (link snow env s')))
      → Agree
          (flush_next snow env r s (λ s'. flush snow env fuel s'))
          (send_frames (handed n r) (link snow env s))
  unfolding transmit_all
  flush_next-Agree zero fuel s (none, sch) h ih = (refl, refl, λ _. h.1)
  flush_next-Agree zero fuel s (some f, sch) h ih = cc
  flush_next-Agree (suc n) fuel s (none, sch) h ih = cc
  flush_next-Agree (suc n) fuel s (some f, sch) h ih =
      sent_on-Agree fuel (record s { scheduler = sch }) (pop_many n sch).0
        (transmit_frame f (link snow env s))
        (λ l. ih n (with_link snow env (record s { scheduler = sch }) l) refl h.2)

  flush-Agree :
      (n fuel : ℕ) (s : Session snow)
      → n < fuel
      → len s.scheduler ≡ n
      → Agree (flush snow env fuel s) (send_frames (pop_many n s.scheduler).0 (link snow env s))
  unfolding flush
  flush-Agree n zero s h e = absurd (omega arith)
  flush-Agree n (suc fuel) s h e = rw (pop_many-handed n s.scheduler) (
      flush_next-Agree n fuel s (pop s.scheduler) (pop-Popped n s.scheduler e)
        (λ m s' q e'. flush-Agree m fuel s' (omega (arith, q)) e'))

  -- With more fuel than queued frames, the sending loop of the server session does what sending
  -- the frames in the order of pop does, up to the first error, and without an error it leaves the
  -- scheduler empty.
  pub flush-transmit_all :
      (fuel : ℕ) (s : Session snow)
      → len s.scheduler < fuel
      → let frames = (pop_many (len s.scheduler) s.scheduler).0 in
        let all = transmit_all env.codec snow env.sink Message.binary frames (link snow env s) in
        ((flush snow env fuel s).0 ≡ all.0)
        × (link snow env (flush snow env fuel s).1 ≡ all.1)
        × ((all.0 ≡ false) ⊎ (len (flush snow env fuel s).1.scheduler ≡ 0))
  flush-transmit_all fuel s h =
      let (sent, left, empty) = flush-Agree (len s.scheduler) fuel s h refl in
      (sent, left, elim (Bool-cases _) [ inl q ↦ inr (empty q) | inr q ↦ inl q ])
