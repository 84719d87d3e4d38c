-- ===== src/Server/Invariant.antt =====
-- The invariant of the session of src/ws/server/session.rs.
use notifiapp_transport.Common.{
  ℕ, ◌≡◌, refl, ap, arith, List, [], ◌∷◌, Bool, true, false, Option, none, some, Result, ok, err,
  Text,
}
use notifiapp_transport.Frame.{Frame, FrameKind, message, event, ping, pong}
use notifiapp_transport.Frame.Chunks.{IsWellFormed, fresh-IsWellFormed}
use notifiapp_transport.Scheduler.{WfqScheduler, pop}
use notifiapp_transport.Scheduler.Levels.{real_time}
use notifiapp_transport.Scheduler.Credits.{
  IsBudgeted, new-IsBudgeted, enqueue-IsBudgeted, pop-IsBudgeted,
}
use notifiapp_transport.Crypto.{Snow, NoiseSession}
use notifiapp_transport.Wire.{Wire}
use notifiapp_transport.Wire.Inbound.{Inbound, Failure, IsIntact, receive_chunk-IsIntact}
use notifiapp_transport.Ws.{Message}
use notifiapp_transport.Server.Flush.{flush-keeps}
use notifiapp_transport.Server.Session.{
  Session, Setting, Event, received, command, heartbeat, SessionCmd, send, close, Flow, running,
  stopped, step, run, and_then, on_received, on_command, on_heartbeat, after_flush, route, taken_in,
  control_frame, start,
}

module _ (snow : Snow) (env : Setting snow) where
  -- The accumulator holds a proper part of an admitted frame or nothing, and no credit exceeds its
  -- weight.
  pub record Inv (s : Session snow) : Type 0 where
    pub reassembly : IsWellFormed env.max_bytes s.accumulator
    pub budget : IsBudgeted s.scheduler

  -- A session that goes on has the invariant.
  abbrev pub Keeps : Flow (Session snow) → Type 0
  Keeps (running s) = Inv s
  Keeps (stopped s) = Unit {0}

  route_kind-Keeps :
      (k : FrameKind) (f : Frame) (s : Session snow)
      → f.kind ≡ k
      → Inv s
      → Keeps (route snow env f s)
  unfolding route
  route_kind-Keeps ping f s e v = rw e (record {
    reassembly = v.reassembly;
    budget = enqueue-IsBudgeted (control_frame pong) real_time s.scheduler v.budget;
  })
  route_kind-Keeps pong f s e v = rw e v
  route_kind-Keeps message f s e v = rw e (ground arith)
  route_kind-Keeps event f s e v = rw e (ground arith)

  taken_in-Keeps :
      (r : Result (Option Frame) Failure × Inbound snow) (s : Session snow)
      → IsIntact env.codec snow env.max_bytes r
      → IsBudgeted s.scheduler
      → Keeps (taken_in snow env r s)
  taken_in-Keeps (ok (some f), i) s w b =
      route_kind-Keeps f.kind f _ refl (record { reassembly = w; budget = b })
  taken_in-Keeps (ok none, i) s w b = record { reassembly = w; budget = b }
  taken_in-Keeps (err e, i) s w b = tt

  on_received-Keeps :
      (now : ℕ) (item : Option (Result Message Text)) (s : Session snow)
      → Inv s
      → Keeps (on_received snow env now item s)
  unfolding on_received
  on_received-Keeps now (some (ok (Message.binary b))) s v =
      taken_in-Keeps _ _ (receive_chunk-IsIntact env.codec snow env.max_bytes b _ v.reassembly)
        v.budget
  on_received-Keeps now item s v = tt

  after_flush-Keeps : (r : Bool × Session snow) → Inv r.1 → Keeps (after_flush snow env r)
  after_flush-Keeps (true, s) v = v
  after_flush-Keeps (false, s) v = tt

  on_command-Keeps :
      (cmd : SessionCmd) (s : Session snow) → Inv s → Keeps (on_command snow env cmd s)
  unfolding on_command
  on_command-Keeps (send f p) s v = after_flush-Keeps _ (
      flush-keeps snow env Inv
        (λ t sch e k. record { reassembly = k.reassembly; budget = popped t.scheduler e k.budget })
        (λ t g sch e k. record {
          reassembly = k.reassembly;
          budget = popped t.scheduler e k.budget;
        })
        _ _
        (record {
          reassembly = v.reassembly;
          budget = enqueue-IsBudgeted f p s.scheduler v.budget;
        }))
    where
      popped :
          {r : Option Frame} {sch : WfqScheduler Frame} (q : WfqScheduler Frame)
          → pop q ≡ (r, sch)
          → IsBudgeted q
          → IsBudgeted sch
      popped q e b = rw (ap (λ x. x.1) e) at (pop-IsBudgeted q b)
  on_command-Keeps close s v = tt

  on_heartbeat-Keeps : (now : ℕ) (s : Session snow) → Inv s → Keeps (on_heartbeat snow env now s)
  unfolding on_heartbeat
  on_heartbeat-Keeps now s v = ground arith

  step-Keeps : (e : ℕ × Event) (s : Session snow) → Inv s → Keeps (step snow env e s)
  unfolding step
  step-Keeps (now, received item) s v = on_received-Keeps now item s v
  step-Keeps (now, command cmd) s v = on_command-Keeps cmd s v
  step-Keeps (now, heartbeat) s v = on_heartbeat-Keeps now s v

  and_then-Keeps :
      (r : Flow (Session snow)) (k : Session snow → Flow (Session snow))
      → Keeps r
      → ((s : Session snow) → Inv s → Keeps (k s))
      → Keeps (and_then snow env r k)
  and_then-Keeps (running s) k v h = h s v
  and_then-Keeps (stopped s) k v h = tt

  run-Keeps : (es : List (ℕ × Event)) (s : Session snow) → Inv s → Keeps (run snow env es s)
  unfolding run
  run-Keeps [] s v = v
  run-Keeps (e ∷ es) s v =
      and_then-Keeps (step snow env e s) _ (step-Keeps e s v) (λ s' v'. run-Keeps es s' v')

  -- However the rounds of a server session go, while it goes on the accumulator holds nothing or a
  -- proper part of an admitted frame, and no credit exceeds its weight.
  pub run-start-Keeps :
      (now : ℕ) (noise : NoiseSession snow) (wire : Wire Message) (es : List (ℕ × Event))
      → Keeps (run snow env es (start snow env now noise wire))
  unfolding start
  run-start-Keeps now noise wire es =
      run-Keeps es _
        (record { reassembly = fresh-IsWellFormed env.max_bytes; budget = new-IsBudgeted })
