-- ===== src/Server/Session.antt =====
-- `run_server_session` of src/ws/server/session.rs as a step function on the session's variables.
-- An event is what one round of `select!` chose, with the time at which it did: an item of the
-- WebSocket stream, a command, or the heartbeat timer.
use notifiapp_transport.Common.{
  ℕ, zero, suc, ◌+◌, List, [], ◌∷◌, ◌++◌, Bool, true, false, Option, none, some, Text, Result, ok,
  err, if◌then◌else◌,
}
use notifiapp_transport.Scheduler.{WfqScheduler, new, enqueue, pop, len}
use notifiapp_transport.Scheduler.Levels.{MessagePriority, real_time}
use notifiapp_transport.Frame.{
  Frame, FrameKind, message, event, ping, pong, Postcard, FrameAccumulator, fresh,
}
use notifiapp_transport.Crypto.{Snow, NoiseSession}
use notifiapp_transport.Wire.{Sink, Wire, Link, transmit}
use notifiapp_transport.Wire.Inbound.{Inbound, Failure, receive_chunk}
use notifiapp_transport.Ws.{Message}

-- The commands of src/ws/server/handle.rs.
pub data SessionCmd : Type 0 where
  send : Frame → MessagePriority → SessionCmd
  close : SessionCmd

pub data Event : Type 0 where
  -- `none` is the end of the stream.
  received : Option (Result Message Text) → Event
  command : SessionCmd → Event
  heartbeat : Event

-- What the session is given: the codec, the network as its sends see it, whether the n-th frame for
-- the inbox still finds a reader, and the configuration.
pub record Setting (snow : Snow) : Type 0 where
  pub codec : Postcard
  pub sink : Sink
  pub reader : ℕ → Bool
  pub max_bytes : ℕ
  pub heartbeat_interval : ℕ
  pub heartbeat_timeout : ℕ

pub record Session (snow : Snow) : Type 0 where
  pub noise : NoiseSession snow
  pub wire : Wire Message
  pub accumulator : FrameAccumulator
  pub scheduler : WfqScheduler Frame
  pub heartbeat_deadline : ℕ
  pub waiting_for_pong : Bool
  -- The frames that the inbox took, oldest first, and the frames offered to it.
  pub inbox : List Frame
  pub offered : ℕ

-- A round ends with the next one, or with the `break` out of the loop.
pub data Flow (S : Type 0) : Type 0 where
  running : S → Flow S
  stopped : S → Flow S

abbrev pub control_frame : FrameKind → Frame
control_frame kind = record { id = 0; kind = kind; payload = [] }

module _ (snow : Snow) (env : Setting snow) where
  open env use {codec, sink, reader, max_bytes, heartbeat_interval, heartbeat_timeout}

  abbrev pub with_link : Session snow → Link snow Message → Session snow
  with_link s l = record s { noise = l.noise; wire = l.wire }

  abbrev pub link : Session snow → Link snow Message
  link s = record { noise = s.noise; wire = s.wire }

  -- `inbox_tx.send(frame)`: it fails if the reader was dropped.
  offer : Frame → Session snow → Flow (Session snow)
  offer frame s =
      let n = suc s.offered in
      if reader s.offered
      then running (record s { inbox = s.inbox ++ (frame ∷ []); offered = n })
      else stopped (record s { offered = n })

  route_kind : FrameKind → Frame → Session snow → Flow (Session snow)
  route_kind ping frame s =
      running (record s { scheduler = enqueue (control_frame pong) real_time s.scheduler })
  route_kind pong frame s = running s
  route_kind message frame s = offer frame s
  route_kind event frame s = offer frame s

  -- What is done with a complete frame.
  unfoldable pub route : Frame → Session snow → Flow (Session snow)
  unfolding route_kind offer
  route frame s = route_kind frame.kind frame s

  -- The outcome of a binary message: an error ends the session.
  abbrev pub taken_in :
      Result (Option Frame) Failure × Inbound snow → Session snow → Flow (Session snow)
  taken_in (ok (some frame), i) s =
      route frame (record s { noise = i.noise; accumulator = i.accumulator })
  taken_in (ok none, i) s = running (record s { noise = i.noise; accumulator = i.accumulator })
  taken_in (err e, i) s = stopped (record s { noise = i.noise; accumulator = i.accumulator })

  -- The timer is reset by any binary message; any other item ends the session.
  unfoldable pub on_received : ℕ → Option (Result Message Text) → Session snow → Flow (Session snow)
  on_received now (some (ok (Message.binary bytes))) s =
      taken_in
        (receive_chunk codec snow max_bytes bytes
          (record { noise = s.noise; accumulator = s.accumulator }))
        (record s { heartbeat_deadline = now + heartbeat_interval; waiting_for_pong = false })
  on_received now _ s = stopped s

  -- `while let Some(frame) = scheduler.next()`, with fuel; the flag is false after an error.
  abbrev pub sent_on :
      Bool × Link snow Message
      → Session snow
      → (Session snow → Bool × Session snow)
      → Bool × Session snow
  sent_on (true, l) s again = again (with_link s l)
  sent_on (false, l) s again = (false, with_link s l)

  abbrev pub flush_next :
      Option Frame × WfqScheduler Frame
      → Session snow
      → (Session snow → Bool × Session snow)
      → Bool × Session snow
  flush_next (none, sch) s again = (true, record s { scheduler = sch })
  flush_next (some frame, sch) s again =
      sent_on (transmit codec snow sink Message.binary frame (link s))
        (record s { scheduler = sch }) again

  unfoldable pub flush : ℕ → Session snow → Bool × Session snow
  flush zero s = (true, s)
  flush (suc fuel) s = flush_next (pop s.scheduler) s (λ s'. flush fuel s')

  abbrev pub after_flush : Bool × Session snow → Flow (Session snow)
  after_flush (true, s) = running s
  after_flush (false, s) = stopped s

  -- Each round takes a frame off the scheduler, so one round more than it holds is enough.
  unfoldable pub on_command : SessionCmd → Session snow → Flow (Session snow)
  on_command (send frame priority) s =
      let s' = record s { scheduler = enqueue frame priority s.scheduler } in
      after_flush (flush (suc (len s'.scheduler)) s')
  on_command close s = stopped s

  -- A ping that cannot be sent is not an error here.
  unfoldable pub on_heartbeat : ℕ → Session snow → Flow (Session snow)
  on_heartbeat now s =
      let (done, l) = transmit codec snow sink Message.binary (control_frame ping) (link s) in
      if s.waiting_for_pong
      then stopped s
      else running (record (with_link s l) {
        waiting_for_pong = true;
        heartbeat_deadline = now + heartbeat_timeout;
      })

  unfoldable pub step : ℕ × Event → Session snow → Flow (Session snow)
  step (now, received item) s = on_received now item s
  step (now, command cmd) s = on_command cmd s
  step (now, heartbeat) s = on_heartbeat now s

  abbrev pub and_then :
      Flow (Session snow) → (Session snow → Flow (Session snow)) → Flow (Session snow)
  and_then (running s) k = k s
  and_then (stopped s) k = stopped s

  unfoldable pub run : List (ℕ × Event) → Session snow → Flow (Session snow)
  run [] s = running s
  run (e ∷ es) s = and_then (step e s) (λ s'. run es s')

  -- The variables at the start of the loop.
  unfoldable pub start : ℕ → NoiseSession snow → Wire Message → Session snow
  start now noise wire = record {
    noise = noise;
    wire = wire;
    accumulator = fresh;
    scheduler = new;
    heartbeat_deadline = now + heartbeat_interval;
    waiting_for_pong = false;
    inbox = [];
    offered = 0;
  }
