-- ===== src/Server/Heartbeat.antt =====
-- The heartbeat of src/ws/server/session.rs, and what the session answers to a ping.
use notifiapp_transport.Common.{
  ℕ, ◌+◌, ◌≡◌, refl, ◌∙◌, arith, List, [], ◌∷◌, ◌++◌, All, Bool, true, false, Option, none, some,
  Result, ok, err, Text,
}
use notifiapp_transport.Scheduler.{enqueue, queue}
use notifiapp_transport.Scheduler.Levels.{real_time}
use notifiapp_transport.Frame.{Frame, ping, pong}
use notifiapp_transport.Crypto.{Snow}
use notifiapp_transport.Wire.{Wire}
use notifiapp_transport.Wire.Inbound.{Inbound, Failure, receive_chunk}
use notifiapp_transport.Ws.{Message}
use notifiapp_transport.Server.Flush.{flush-keeps}
use notifiapp_transport.Server.Session.{
  Session, Setting, Event, received, command, heartbeat, SessionCmd, send, close, Flow, running,
  stopped, step, run, and_then, on_received, on_command, on_heartbeat, after_flush, route, taken_in,
  control_frame,
}

-- The session at the end of a round.
abbrev pub ended : {S : Type 0} → Flow S → S
ended (running s) = s
ended (stopped s) = s

-- Events other than an item of the stream.
abbrev pub IsQuiet : ℕ × Event → Type 0
IsQuiet (now, received item) = ⊥
IsQuiet (now, command cmd) = Unit {0}
IsQuiet (now, heartbeat) = Unit {0}

abbrev pub IsReceived : ℕ × Event → Type 0
IsReceived (now, received item) = Unit {0}
IsReceived (now, command cmd) = ⊥
IsReceived (now, heartbeat) = ⊥

module _ (snow : Snow) (env : Setting snow) where
  abbrev pub Stops : Flow (Session snow) → Type 0
  Stops r = (s : Session snow) × (r ≡ stopped s)

  -- A session that goes on waits on.
  abbrev WaitsOn : Flow (Session snow) → Type 0
  WaitsOn (running s) = s.waiting_for_pong ≡ true
  WaitsOn (stopped s) = Unit {0}

  after_flush-WaitsOn :
      (r : Bool × Session snow) → r.1.waiting_for_pong ≡ true → WaitsOn (after_flush snow env r)
  after_flush-WaitsOn (true, s) h = h
  after_flush-WaitsOn (false, s) h = tt

  on_command-WaitsOn :
      (cmd : SessionCmd) (s : Session snow)
      → s.waiting_for_pong ≡ true
      → WaitsOn (on_command snow env cmd s)
  unfolding on_command
  on_command-WaitsOn (send f p) s h = after_flush-WaitsOn _ (
      flush-keeps snow env (λ t. t.waiting_for_pong ≡ true) (λ t sch e k. k) (λ t g sch e k. k) _ _
        h)
  on_command-WaitsOn close s h = tt

  -- The timer ends a session that waits for a pong.
  on_heartbeat-Stops :
      (now : ℕ) (s : Session snow) → s.waiting_for_pong ≡ true → Stops (on_heartbeat snow env now s)
  unfolding on_heartbeat
  on_heartbeat-Stops now s h = (s, rw h)

  and_then-Stops :
      (r : Flow (Session snow)) (k : Session snow → Flow (Session snow))
      → WaitsOn r
      → ((s : Session snow) → s.waiting_for_pong ≡ true → Stops (k s))
      → Stops (and_then snow env r k)
  and_then-Stops (running s) k w h = h s w
  and_then-Stops (stopped s) k w h = (s, refl)

  timer-Stops :
      (now : ℕ) (rest : List (ℕ × Event)) (s : Session snow)
      → s.waiting_for_pong ≡ true
      → Stops (run snow env ((now, heartbeat) ∷ rest) s)
  unfolding run step
  timer-Stops now rest s w = let (s', e) = on_heartbeat-Stops now s w in (s', rw e)

  waiting-Stops :
      (es : List (ℕ × Event)) (later : ℕ) (rest : List (ℕ × Event)) (s : Session snow)
      → All IsQuiet es
      → s.waiting_for_pong ≡ true
      → Stops (run snow env (es ++ ((later, heartbeat) ∷ rest)) s)
  unfolding run step
  waiting-Stops [] later rest s q w = timer-Stops later rest s w
  waiting-Stops ((now, received item) ∷ es) later rest s q w = absurd q.0
  waiting-Stops ((now, command cmd) ∷ es) later rest s q w =
      and_then-Stops (on_command snow env cmd s) _ (on_command-WaitsOn cmd s w)
        (λ s' w'. waiting-Stops es later rest s' q.1 w')
  waiting-Stops ((now, heartbeat) ∷ es) later rest s q w =
      timer-Stops now (es ++ ((later, heartbeat) ∷ rest)) s w

  on_heartbeat-WaitsOn : (now : ℕ) (s : Session snow) → WaitsOn (on_heartbeat snow env now s)
  unfolding on_heartbeat
  on_heartbeat-WaitsOn now s = ground arith

  -- If the heartbeat timer fires twice and nothing is received in between, the server session has
  -- ended, whatever commands came.
  pub run-silent_peer :
      (now later : ℕ) (es rest : List (ℕ × Event)) (s : Session snow)
      → All IsQuiet es
      → Stops (run snow env ((now, heartbeat) ∷ (es ++ ((later, heartbeat) ∷ rest))) s)
  unfolding run step
  run-silent_peer now later es rest s q =
      and_then-Stops (on_heartbeat snow env now s) _ (on_heartbeat-WaitsOn now s)
        (λ s' w. waiting-Stops es later rest s' q w)

  route-wire : (f : Frame) (s : Session snow) → (ended (route snow env f s)).wire ≡ s.wire
  unfolding route
  route-wire f s = ground arith

  taken_in-wire :
      (r : Result (Option Frame) Failure × Inbound snow) (s : Session snow)
      → (ended (taken_in snow env r s)).wire ≡ s.wire
  taken_in-wire (ok (some f), i) s = route-wire f _
  taken_in-wire (ok none, i) s = refl
  taken_in-wire (err e, i) s = refl

  on_received-wire :
      (now : ℕ) (item : Option (Result Message Text)) (s : Session snow)
      → (ended (on_received snow env now item s)).wire ≡ s.wire
  unfolding on_received
  on_received-wire now (some (ok (Message.binary b))) s = taken_in-wire _ _
  on_received-wire now item s = refl

  and_then-wire :
      (r : Flow (Session snow)) (k : Session snow → Flow (Session snow)) (w : Wire Message)
      → (ended r).wire ≡ w
      → ((s : Session snow) → (ended (k s)).wire ≡ s.wire)
      → (ended (and_then snow env r k)).wire ≡ w
  and_then-wire (running s) k w e h = h s ∙ e
  and_then-wire (stopped s) k w e h = e

  -- Nothing is sent in answer to what is received, however much it is, until a command or the timer.
  run-received-wire :
      (es : List (ℕ × Event)) (s : Session snow)
      → All IsReceived es
      → (ended (run snow env es s)).wire ≡ s.wire
  unfolding run step
  run-received-wire [] s h = refl
  run-received-wire ((now, received item) ∷ es) s h =
      and_then-wire (on_received snow env now item s) _ s.wire (on_received-wire now item s)
        (λ s'. run-received-wire es s' h.1)
  run-received-wire ((now, command cmd) ∷ es) s h = absurd h.0
  run-received-wire ((now, heartbeat) ∷ es) s h = absurd h.0

  -- A round of the server session that takes in a ping queues a pong and goes on; neither it nor
  -- any number of further items received puts anything on the wire.
  pub run-ping :
      (now : ℕ) (bytes : List ℕ) (f : Frame) (i : Inbound snow) (es : List (ℕ × Event))
      (s : Session snow)
      → receive_chunk env.codec snow env.max_bytes bytes
          (record { noise = s.noise; accumulator = s.accumulator })
        ≡ (ok (some f), i)
      → f.kind ≡ ping
      → All IsReceived es
      → let e = received (some (ok (Message.binary bytes))) in
        (s' : Session snow) × (step snow env (now, e) s ≡ running s')
        × (queue s'.scheduler real_time ≡ queue s.scheduler real_time ++ (control_frame pong ∷ []))
        × ((ended (run snow env ((now, e) ∷ es) s)).wire ≡ s.wire)
  unfolding step on_received route enqueue
  run-ping now bytes f i es s e k h = (
    record s {
      noise = i.noise;
      accumulator = i.accumulator;
      heartbeat_deadline = now + env.heartbeat_interval;
      waiting_for_pong = false;
      scheduler = enqueue (control_frame pong) real_time s.scheduler;
    },
    rw (e, k),
    refl,
    run-received-wire ((now, received (some (ok (Message.binary bytes)))) ∷ es) s (tt, h),
  )
