-- ===== src/Tests/Clients.antt =====
-- The client of src/ws/client/ on concrete calls and passes.
use notifiapp_transport.Common.{
  suc, ◌+◌, ◌≡◌, ◌≢◌, ◌<◌, ◌≤◌, refl, arith, List, [], ◌∷◌, ◌++◌, length, concat, Option, none,
  some, Text, Result, ok, err, true, false,
}
use notifiapp_transport.Tests.{codec, snow, sink}
use notifiapp_transport.Tests.Delays.{naturals, naturals_powers}
use notifiapp_transport.Auth.{no_auth}
use notifiapp_transport.Backoff.{BackoffStrategy, constant_delay, exponential_delay}
use notifiapp_transport.Backoff.Exponential.{doubling}
use notifiapp_transport.Frame.{Frame, event, message}
use notifiapp_transport.Scheduler.{len}
use notifiapp_transport.Scheduler.Levels.{bulk, normal}
use notifiapp_transport.Crypto.Transport.{online}
use notifiapp_transport.Ws.{Message, Poll, ready}
use notifiapp_transport.Client.State
use notifiapp_transport.Client.State.{
  Client, Admission, send, wake_up, set_endpoint, try_send, dispatch_frame, contains, request_start,
  request_send, request_end, sender_dropped, timed_out,
}
use notifiapp_transport.Client.Requests.{
  Op, start, dispatch, perform_all, settled, starts, dispatch_all, perform_all-settled,
  request_start-dispatch_frame, request_end-pending,
}
use notifiapp_transport.Client.Config.{WsClientConfig, with_backoff}
use notifiapp_transport.Client.Handshake.{cmd}
use notifiapp_transport.Client.Loop
use notifiapp_transport.Client.Loop.{
  Setting, Loop, Event, command, heartbeat, flush, out_of_fuel, run,
}
use notifiapp_transport.Client.Rounds.{flush-ends}
use notifiapp_transport.Client.Heartbeat.{Breaks, run-silent_server}
use notifiapp_transport.Client.Connection.{Background, Pass, again, panicked, passes}
use notifiapp_transport.Client.Liveness.{
  IsActive, IsDisturbed, sending, IsFailed, announced, times, passes-starved, passes-IsFailed,
  passes-panic,
}

abbrev admits : Admission
admits n = none

abbrev client : Client
client = record State.new { url = some [] }

abbrev env : Setting snow
env = record {
  codec = codec;
  sink = sink;
  admits = admits;
  max_payload_bytes = 1000;
  heartbeat_interval = 30;
  heartbeat_timeout = 10;
}

abbrev every_second : BackoffStrategy
every_second = constant_delay (record { delay = 1_000_000_000 })

abbrev config : WsClientConfig
config = record {
  protocol_name = [];
  protocol_version = [];
  heartbeat_interval = 30;
  heartbeat_timeout = 10;
  request_timeout = 30;
  auth_timeout = 15;
  max_payload_bytes = 1000;
  noise_server_key = none;
  backoff = every_second;
  buffer_size = 100;
}

abbrev frame : Frame
frame = record { id = 5; kind = event; payload = 9 ∷ [] }

abbrev background : Background
background = record { client = client; reconnect_attempt = 1; ever_connected = true }

background-IsActive : IsActive [] background
unfolding State.new
background-IsActive = record { running = refl; endpoint = refl }

every_second-some : every_second 1 ≡ some 1_000_000_000
unfolding constant_delay
every_second-some = refl

abbrev disturbed : Pass
disturbed = record {
  during_sleep = some (cmd (send frame bulk));
  connection = ok [];
  signals = [];
  in_time = true;
  online_at = 0;
  events = [];
}

disturbed-IsDisturbed : IsDisturbed disturbed
disturbed-IsDisturbed = record {
  command = send frame bulk;
  other = sending frame bulk;
  came = refl;
}

passes-starved_example :
    passes snow env config no_auth (disturbed ∷ disturbed ∷ []) background
    ≡ again (times 2 (announced 1_000_000_000) background)
passes-starved_example =
    passes-starved snow env config no_auth [] 1_000_000_000 (disturbed ∷ disturbed ∷ []) background
      (disturbed-IsDisturbed, (disturbed-IsDisturbed, tt)) background-IsActive every_second-some
      (omega arith)

abbrev failed : Pass
failed = record disturbed { during_sleep = none; connection = err [] }

failed-IsFailed : IsFailed failed
failed-IsFailed = record { reason = []; slept = refl; failed = refl }

passes-IsFailed_example :
    (b' : Background) × (passes snow env config no_auth (failed ∷ failed ∷ []) background
      ≡ again b')
    × (b'.reconnect_attempt ≡ 1 + 2)
    × IsActive [] b'
passes-IsFailed_example =
    passes-IsFailed snow env config no_auth [] (failed ∷ failed ∷ []) background
      (failed-IsFailed, (failed-IsFailed, tt)) background-IsActive (omega arith)
      (λ k h. (1_000_000_000, unfold constant_delay in refl))

abbrev late : Background
late = record background { reconnect_attempt = 63 }

late-IsActive : IsActive [] late
unfolding State.new
late-IsActive = record { running = refl; endpoint = refl }

passes-panic_example :
    (b' : Background) × (passes snow env
        (with_backoff
          (exponential_delay naturals (doubling naturals naturals_powers 1 60_000_000_000))
          config)
        no_auth
        ((failed ∷ []) ++ (failed ∷ []))
        late
      ≡ panicked b')
passes-panic_example =
    passes-panic snow env config no_auth naturals naturals_powers [] 1 60_000_000_000 (failed ∷ [])
      failed [] late (omega arith) (failed-IsFailed, tt) late-IsActive (omega arith)

abbrev ops : List Op
ops =
    start (1 ∷ [])
    ∷ dispatch (record { id = 2; kind = message; payload = 7 ∷ [] })
    ∷ dispatch (record { id = 2; kind = message; payload = 8 ∷ [] })
    ∷ Op.finish 2 timed_out
    ∷ []

perform_all-settled_example :
    settled 2 (perform_all admits ops client) ≤ settled 2 client + starts admits 2 client ops
perform_all-settled_example = perform_all-settled admits 2 ops client

first_id : 0 < client.next_id
unfolding State.new
first_id = omega arith

other_id : client.next_id ≢ 5
unfolding State.new
other_id e = omega (arith, e)

request_start-dispatch_frame_example :
    let waiting = dispatch_all admits (frame ∷ []) (request_start (1 ∷ []) client).1 in
    let c' =
      dispatch_frame admits
        (record { id = client.next_id; kind = message; payload = 7 ∷ [] })
        waiting in
    (c'.answered ≡ waiting.answered ++ ((client.next_id, ok (7 ∷ [])) ∷ []))
    × (contains client.next_id c'.pending ≡ false)
request_start-dispatch_frame_example =
    request_start-dispatch_frame admits (1 ∷ []) (7 ∷ []) (frame ∷ []) client first_id
      (other_id, tt)

request_end-pending_example :
    (contains 2 (request_end 2 timed_out client).1.pending ≡ false)
    × (contains 2 (request_end 2 sender_dropped client).1.pending ≡ false)
    × (contains client.next_id
          (request_send false
            (request_start (1 ∷ []) client).0
            normal
            (request_start (1 ∷ []) client).1).1.pending
        ≡ true)
request_end-pending_example = request_end-pending admits 2 (1 ∷ []) normal client

abbrev loop : Loop snow
loop = Loop.start snow env 0 client (online snow 4) (record { sends = 0; sent = [] })

flush-ends_example :
    let r =
      flush snow env
        (suc (len loop.scheduler + length (concat ((send frame bulk ∷ []) ∷ []))))
        ((send frame bulk ∷ []) ∷ [])
        loop in
    (r.0 ≢ out_of_fuel) × (r.1.waiting_for_pong ≡ loop.waiting_for_pong)
flush-ends_example = flush-ends snow env ((send frame bulk ∷ []) ∷ []) loop

run-silent_server_example : Breaks snow env (
    run snow env
      ((30, heartbeat) ∷ (((31, command (send frame bulk) []) ∷ []) ++ ((60, heartbeat) ∷ [])))
      loop)
run-silent_server_example =
    run-silent_server snow env 30 60 ((31, command (send frame bulk) []) ∷ []) [] loop (tt, tt)

abbrev polled : Poll (Option (Result Message Text))
polled = ready (some (ok (Message.text [])))
