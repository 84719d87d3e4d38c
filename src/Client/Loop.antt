-- ===== src/Client/Loop.antt =====
-- `run_message_loop` of src/ws/client/connection_loop.rs as a step function on its variables.
-- An event is what one round of `select!` chose, with the time at which it did. With a command come
-- the further ones that each `try_recv` loop finds behind a frame that was sent.
use notifiapp_transport.Common.{
  ℕ, zero, suc, ◌+◌, List, [], ◌∷◌, Bool, true, false, Option, none, some, Text, Result, ok, err,
  if◌then◌else◌, length, concat,
}
use notifiapp_transport.Scheduler
use notifiapp_transport.Scheduler.{WfqScheduler, enqueue, pop, len}
use notifiapp_transport.Frame.{Frame, ping, Postcard, FrameAccumulator, fresh}
use notifiapp_transport.Crypto.{Snow, NoiseSession}
use notifiapp_transport.Wire.{Sink, Wire, Link, transmit}
use notifiapp_transport.Wire.Inbound.{Inbound, Failure, receive_chunk}
use notifiapp_transport.Ws.{WsMessage}
use notifiapp_transport.Client.State.{
  Client, ClientCmd, send, endpoint_changed, reconnect, wake_up, Admission, dispatch_frame,
}

pub data Event : Type 0 where
  cancel : Event
  -- `none` is the end of the stream.
  received : Option (Result WsMessage Text) → Event
  command : ClientCmd → List (List ClientCmd) → Event
  heartbeat : Event

-- The codec, the network and the command channel as the sends see them, and the configuration.
pub record Setting (snow : Snow) : Type 0 where
  pub codec : Postcard
  pub sink : Sink
  pub admits : Admission
  pub max_payload_bytes : ℕ
  pub heartbeat_interval : ℕ
  pub heartbeat_timeout : ℕ

pub record Loop (snow : Snow) : Type 0 where
  pub client : Client
  pub noise : NoiseSession snow
  pub wire : Wire WsMessage
  -- The calls of `ws.close()`.
  pub closes : ℕ
  pub accumulator : FrameAccumulator
  pub scheduler : WfqScheduler Frame
  pub heartbeat_deadline : ℕ
  pub waiting_for_pong : Bool

-- A round ends with the next one, or with the `break` out of the loop.
pub data Flow (S : Type 0) : Type 0 where
  running : S → Flow S
  broken : S → Flow S

-- How the sending loop ends: with an empty scheduler, by an error, or by a request to disconnect.
pub data Flushed : Type 0 where
  drained send_error disconnect out_of_fuel : Flushed

abbrev pub first_of : List (List ClientCmd) → List ClientCmd
first_of [] = []
first_of (b ∷ bs) = b

abbrev pub others_of : List (List ClientCmd) → List (List ClientCmd)
others_of [] = []
others_of (b ∷ bs) = bs

module _ (snow : Snow) (env : Setting snow) where
  open env use {codec, sink, admits, max_payload_bytes, heartbeat_interval, heartbeat_timeout}

  abbrev pub with_link : Loop snow → Link snow WsMessage → Loop snow
  with_link s l = record s { noise = l.noise; wire = l.wire }

  abbrev pub link : Loop snow → Link snow WsMessage
  link s = record { noise = s.noise; wire = s.wire }

  -- The outcome of a binary message: a frame is dispatched, an error ends the loop.
  abbrev pub taken_in : Result (Option Frame) Failure × Inbound snow → Loop snow → Flow (Loop snow)
  taken_in (ok (some frame), i) s = running (record s {
    noise = i.noise;
    accumulator = i.accumulator;
    client = dispatch_frame admits frame s.client;
  })
  taken_in (ok none, i) s = running (record s { noise = i.noise; accumulator = i.accumulator })
  taken_in (err e, i) s = broken (record s { noise = i.noise; accumulator = i.accumulator })

  unfoldable pub on_received : ℕ → Option (Result WsMessage Text) → Loop snow → Flow (Loop snow)
  on_received now (some (ok (WsMessage.binary bytes))) s =
      taken_in
        (receive_chunk codec snow max_payload_bytes bytes
          (record { noise = s.noise; accumulator = s.accumulator }))
        (record s { heartbeat_deadline = now + heartbeat_interval; waiting_for_pong = false })
  on_received now _ s = broken s

  -- `while let Ok(queued) = cmd_rx.try_recv()`; the flag is `disconnect`.
  unfoldable pub drain : List ClientCmd → Bool × Loop snow → Bool × Loop snow
  drain [] r = r
  drain (send f p ∷ cmds) (gone, s) =
      drain cmds (gone, record s { scheduler = enqueue f p s.scheduler })
  drain (endpoint_changed ∷ cmds) (gone, s) = drain cmds (true, record s { closes = suc s.closes })
  drain (reconnect ∷ cmds) (gone, s) = drain cmds (true, record s { closes = suc s.closes })
  drain (wake_up ∷ cmds) (gone, s) = drain cmds (gone, s)

  -- `while let Some(frame) = scheduler.next()`, with fuel.
  abbrev pub drained_on : Bool × Loop snow → (Loop snow → Flushed × Loop snow) → Flushed × Loop snow
  drained_on (true, s) again = (disconnect, s)
  drained_on (false, s) again = again s

  abbrev pub sent_on :
      Bool × Link snow WsMessage
      → List ClientCmd
      → Loop snow
      → (Loop snow → Flushed × Loop snow)
      → Flushed × Loop snow
  sent_on (true, l) queued s again = drained_on (drain queued (false, with_link s l)) again
  sent_on (false, l) queued s again = (send_error, with_link s l)

  abbrev pub flush_next :
      Option Frame × WfqScheduler Frame
      → List ClientCmd
      → Loop snow
      → (Loop snow → Flushed × Loop snow)
      → Flushed × Loop snow
  flush_next (none, sch) queued s again = (drained, record s { scheduler = sch })
  flush_next (some frame, sch) queued s again =
      sent_on (transmit codec snow sink WsMessage.binary frame (link s)) queued
        (record s { scheduler = sch }) again

  unfoldable pub flush : ℕ → List (List ClientCmd) → Loop snow → Flushed × Loop snow
  flush zero batches s = (out_of_fuel, s)
  flush (suc fuel) batches s =
      flush_next (pop s.scheduler) (first_of batches) s (λ s'. flush fuel (others_of batches) s')

  -- Only a send error ends the loop: after a disconnect the next round goes on.
  abbrev pub after_flush : Flushed × Loop snow → Flow (Loop snow)
  after_flush (send_error, s) = broken s
  after_flush (drained, s) = running s
  after_flush (disconnect, s) = running s
  after_flush (out_of_fuel, s) = running s

  -- Each round takes a frame off the scheduler, and only the commands that arrive put any on.
  unfoldable pub on_command : ClientCmd → List (List ClientCmd) → Loop snow → Flow (Loop snow)
  on_command (send frame priority) batches s =
      let s' = record s { scheduler = enqueue frame priority s.scheduler } in
      after_flush (flush (suc (len s'.scheduler + length (concat batches))) batches s')
  on_command endpoint_changed batches s = broken (record s { closes = suc s.closes })
  on_command reconnect batches s = broken (record s { closes = suc s.closes })
  on_command wake_up batches s = running s

  unfoldable pub on_heartbeat : ℕ → Loop snow → Flow (Loop snow)
  on_heartbeat now s =
      let frame : Frame = record { id = 0; kind = ping; payload = [] } in
      let (done, l) = transmit codec snow sink WsMessage.binary frame (link s) in
      if s.waiting_for_pong
      then broken (record s { closes = suc s.closes })
      else running (record (with_link s l) {
        waiting_for_pong = true;
        heartbeat_deadline = now + heartbeat_timeout;
      })

  unfoldable pub step : ℕ × Event → Loop snow → Flow (Loop snow)
  step (now, cancel) s = broken s
  step (now, received item) s = on_received now item s
  step (now, command cmd batches) s = on_command cmd batches s
  step (now, heartbeat) s = on_heartbeat now s

  abbrev pub and_then : Flow (Loop snow) → (Loop snow → Flow (Loop snow)) → Flow (Loop snow)
  and_then (running s) k = k s
  and_then (broken s) k = broken s

  unfoldable pub run : List (ℕ × Event) → Loop snow → Flow (Loop snow)
  run [] s = running s
  run (e ∷ es) s = and_then (step e s) (λ s'. run es s')

  -- The variables at the start of the loop.
  unfoldable pub start : ℕ → Client → NoiseSession snow → Wire WsMessage → Loop snow
  start now client noise wire = record {
    client = client;
    noise = noise;
    wire = wire;
    closes = 0;
    accumulator = fresh;
    scheduler = Scheduler.new;
    heartbeat_deadline = now + heartbeat_interval;
    waiting_for_pong = false;
  }
