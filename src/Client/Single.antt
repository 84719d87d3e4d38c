-- ===== src/Client/Single.antt =====
-- One frame through an idle message loop of src/ws/client/connection_loop.rs.
use notifiapp_transport.Common.{ℕ, suc, ◌+◌, ◌≡◌, refl, [], true, arith}
use notifiapp_transport.Scheduler.{WfqScheduler, enqueue, pop, len}
use notifiapp_transport.Scheduler.Levels.{MessagePriority}
use notifiapp_transport.Scheduler.Dequeue.{IsIdle}
use notifiapp_transport.Scheduler.Single.{pop_idle, pop-enqueue, enqueue-len}
use notifiapp_transport.Frame.{Frame}
use notifiapp_transport.Crypto.{Snow}
use notifiapp_transport.Wire.{Link, transmit}
use notifiapp_transport.Ws.{WsMessage}
use notifiapp_transport.Client.State.{send}
use notifiapp_transport.Client.Loop.{
  Loop, Setting, running, command, on_command, step, flush, drain, with_link, link, drained,
}

module _ (snow : Snow) (env : Setting snow) where
  -- What is left of the scheduler when the frame is sent.
  abbrev pub spent : Frame → MessagePriority → Loop snow → WfqScheduler Frame
  spent f p s = (pop (pop (enqueue f p s.scheduler)).1).1

  flush-single :
      (n : ℕ) (f : Frame) (p : MessagePriority) (s : Loop snow) (l : Link snow WsMessage)
      → IsIdle s.scheduler
      → transmit env.codec snow env.sink WsMessage.binary f (link snow env s) ≡ (true, l)
      → flush snow env (suc (suc n)) [] (record s { scheduler = enqueue f p s.scheduler })
        ≡ (drained, record (with_link snow env s l) { scheduler = spent f p s })
  unfolding flush drain
  flush-single n f p s l h e =
      let (first, idle) = pop-enqueue f p s.scheduler h in
      rw (flush, first, e, drain, flush, (pop_idle (pop (enqueue f p s.scheduler)).1 idle).0) refl

  -- An idle loop that is told to send a frame sends it at once.
  pub step-single :
      (now : ℕ) (f : Frame) (p : MessagePriority) (s : Loop snow) (l : Link snow WsMessage)
      → IsIdle s.scheduler
      → transmit env.codec snow env.sink WsMessage.binary f (link snow env s) ≡ (true, l)
      → step snow env (now, command (send f p) []) s
        ≡ running (record (with_link snow env s l) { scheduler = spent f p s })
  unfolding step on_command
  step-single now f p s l h e =
      let fuel : suc (len s.scheduler) + 0 ≡ suc (len s.scheduler) = omega arith in
      rw (enqueue-len f p s.scheduler, fuel, flush-single (len s.scheduler) f p s l h e) refl

  pub spent-IsIdle :
      (f : Frame) (p : MessagePriority) (s : Loop snow) → IsIdle s.scheduler → IsIdle (spent f p s)
  spent-IsIdle f p s h =
      (pop_idle (pop (enqueue f p s.scheduler)).1 (pop-enqueue f p s.scheduler h).1).1
