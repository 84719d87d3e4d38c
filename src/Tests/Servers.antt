-- ===== src/Tests/Servers.antt =====
-- The session of src/ws/server/session.rs on concrete rounds.
use notifiapp_transport.Common.{
  ℕ, ◌≡◌, ◌<◌, refl, arith, List, [], ◌∷◌, ◌++◌, some, ok, true, false, ◌⊎◌,
}
use notifiapp_transport.Tests.{codec, snow, sink}
use notifiapp_transport.Frame.{
  Frame, event, ping, pong, fresh, feed, feed_first, finish, decode_frame,
}
use notifiapp_transport.Scheduler.{new, enqueue, queue, len}
use notifiapp_transport.Scheduler.Levels.{real_time, bulk, normal}
use notifiapp_transport.Scheduler.Round.{pop_many}
use notifiapp_transport.Crypto.{read_message}
use notifiapp_transport.Crypto.Transport.{online}
use notifiapp_transport.Ws.{Message}
use notifiapp_transport.Wire.{Wire, transmit_all}
use notifiapp_transport.Wire.Inbound.{receive_chunk}
use notifiapp_transport.Wire.Receiving.{inbound}
use notifiapp_transport.Server.Session.{
  Session, Setting, received, command, heartbeat, send, running, step, run, start, flush, link,
  control_frame,
}
use notifiapp_transport.Server.Delivery.{packet_event, inbound_of}
use notifiapp_transport.Server.Heartbeat.{Stops, ended, run-silent_peer, run-ping}
use notifiapp_transport.Server.Flush.{flush-transmit_all}
use notifiapp_transport.Server.Invariant.{Keeps, run-start-Keeps}

abbrev env : Setting snow
env = record {
  codec = codec;
  sink = sink;
  reader = λ n. true;
  max_bytes = 1000;
  heartbeat_interval = 30;
  heartbeat_timeout = 10;
}

abbrev idle : Wire Message
idle = record { sends = 0; sent = [] }

abbrev session : Session snow
session = start snow env 0 (online snow 4) idle

abbrev tagged : List ℕ → List ℕ
tagged bytes = 0 ∷ 0 ∷ 0 ∷ 0 ∷ 0 ∷ 0 ∷ 0 ∷ 0 ∷ 0 ∷ 0 ∷ 0 ∷ 0 ∷ 0 ∷ 0 ∷ 0 ∷ 0 ∷ bytes

abbrev frame : Frame
frame = record { id = 5; kind = event; payload = 9 ∷ [] }

abbrev packet : List ℕ
packet = tagged (3 ∷ 0 ∷ 0 ∷ 0 ∷ 5 ∷ 1 ∷ 9 ∷ [])

packet-received :
    receive_chunk codec snow 1000 packet (inbound_of snow env session)
    ≡ (ok (some frame), inbound codec snow 1000 5 fresh)
unfolding start receive_chunk read_message feed feed_first finish decode_frame
packet-received = refl

run-silent_peer_example : Stops snow env (
    run snow env
      ((30, heartbeat) ∷ ((31, command (send frame bulk)) ∷ [] ++ ((40, heartbeat) ∷ [])))
      session)
run-silent_peer_example =
    run-silent_peer snow env 30 40 ((31, command (send frame bulk)) ∷ []) [] session (tt, tt)

abbrev ping_packet : List ℕ
ping_packet = tagged (2 ∷ 0 ∷ 0 ∷ 0 ∷ 0 ∷ 2 ∷ [])

ping-received :
    receive_chunk codec snow 1000 ping_packet (inbound_of snow env session)
    ≡ (ok (some (control_frame ping)), inbound codec snow 1000 5 fresh)
unfolding start receive_chunk read_message feed feed_first finish decode_frame
ping-received = refl

run-ping_example :
    (s' : Session snow) × (step snow env
        (7, received (some (ok (Message.binary ping_packet))))
        session
      ≡ running s')
    × (queue s'.scheduler real_time
        ≡ queue session.scheduler real_time ++ (control_frame pong ∷ []))
    × ((ended
          (run snow env ((7, received (some (ok (Message.binary ping_packet)))) ∷ []) session)).wire
        ≡ session.wire)
run-ping_example =
    run-ping snow env 7 ping_packet (control_frame ping) (inbound codec snow 1000 5 fresh) []
      session ping-received refl tt

abbrev loaded : Session snow
loaded = record (start snow env 0 (online snow 4) idle) {
  scheduler = enqueue frame bulk (enqueue (control_frame ping) real_time new);
}

loaded-len : len loaded.scheduler < 3
unfolding len enqueue new
loaded-len = omega arith

flush-transmit_all_example :
    let frames = (pop_many (len loaded.scheduler) loaded.scheduler).0 in
    let all = transmit_all codec snow sink Message.binary frames (link snow env loaded) in
    ((flush snow env 3 loaded).0 ≡ all.0)
    × (link snow env (flush snow env 3 loaded).1 ≡ all.1)
    × ((all.0 ≡ false) ⊎ (len (flush snow env 3 loaded).1.scheduler ≡ 0))
flush-transmit_all_example = flush-transmit_all snow env 3 loaded loaded-len

run-start-Keeps_example : Keeps snow env (
    run snow env
      (packet_event snow env 7 packet ∷ (8, command (send frame normal)) ∷ [])
      (start snow env 0 (online snow 4) idle))
run-start-Keeps_example =
    run-start-Keeps snow env 0 (online snow 4) idle
      (packet_event snow env 7 packet ∷ (8, command (send frame normal)) ∷ [])
