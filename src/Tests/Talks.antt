-- ===== src/Tests/Talks.antt =====
-- What a client and a server say to each other over a connection, with its heartbeats.
use notifiapp_transport.Common.{◌≡◌, ◌++◌, refl, sym, arith, List, [], ◌∷◌, ℕ, true, none}
use notifiapp_transport.Scheduler.Levels.{normal}
use notifiapp_transport.Scheduler.Single.{new-IsIdle}
use notifiapp_transport.Crypto.Transport.{online}
use notifiapp_transport.Tests.{kind_code, codec, codec-IsLawful, snow, channel, sink}
use notifiapp_transport.Tests.Greetings.{w}
use notifiapp_transport.Client.State
use notifiapp_transport.Client.State.{Client}
use notifiapp_transport.Client.Login.{Fits}
use notifiapp_transport.Client.Loop
use notifiapp_transport.Client.Loop.{Loop}
use notifiapp_transport.Server.Session
use notifiapp_transport.Server.Session.{Session, control_frame}
use notifiapp_transport.Frame.{FrameKind, ping, pong}
use notifiapp_transport.Conversation.{Linked}
use notifiapp_transport.Conversation.Ledger.{message_of}
use notifiapp_transport.Conversation.Ledger.{
  Act, request, tell, respond, push, beat, event_of, next,
}
use notifiapp_transport.Conversation.Settling.{acts-Settles}
use notifiapp_transport.Conversation.Talk.{Ends, AllFit, Fitting, Settles}
use notifiapp_transport.Conversation.Order.{Ask, Reply, asks, replies, given, acts-any_order}
use notifiapp_transport.Conversation.Heartbeat.{Beat, heartbeat-Beat}
use notifiapp_transport.Conversation.Oversize.{Overrun, ask-Overrun}
use notifiapp_transport.Conversation.Idle.{Unanswered, idle-Unanswered}
use notifiapp_transport.Server.Launch.{new_handle}
use notifiapp_transport.Client.State.{Admission}

abbrev server_env : Session.Setting snow
server_env = record {
  codec = codec;
  sink = sink;
  reader = λ n. true;
  max_bytes = 1000;
  heartbeat_interval = 30;
  heartbeat_timeout = 10;
}

abbrev env : Loop.Setting snow
env = record {
  codec = codec;
  sink = sink;
  admits = λ n. none;
  max_payload_bytes = 1000;
  heartbeat_interval = 30;
  heartbeat_timeout = 10;
}

abbrev s : Loop snow
s = Loop.start snow env 0 State.new (online snow 4) (record { sends = 0; sent = [] })

abbrev z : Session snow
z = Session.start snow server_env 0 (online snow 4) w

s-z-Linked : Linked snow channel server_env env s z
unfolding Loop.start Session.start
s-z-Linked = record {
  t = 4;
  r = 4;
  client = record { noise = refl; fresh = refl; idle = new-IsIdle };
  server = record { noise = refl; fresh = refl; idle = new-IsIdle; calm = refl };
  synced = refl;
}

short : (id n : ℕ) → Fits codec 1000 (message_of id (n ∷ []))
short id n = record {
  payload = id ∷ 0 ∷ n ∷ [];
  serialised = refl;
  width = omega arith;
  admitted = omega arith;
}

event_of-Fits : (n : ℕ) → Fits codec 1000 (event_of (n ∷ []))
event_of-Fits n = record {
  payload = 0 ∷ 1 ∷ n ∷ [];
  serialised = refl;
  width = omega arith;
  admitted = omega arith;
}

control_frame-Fits : (k : FrameKind) → Fits codec 1000 (control_frame k)
control_frame-Fits k = record {
  payload = 0 ∷ kind_code k ∷ [];
  serialised = refl;
  width = omega arith;
  admitted = omega arith;
}

abbrev free : Admission
free n = none

abbrev ends : Ends snow channel server_env env free
ends = record { s = s; h = new_handle; z = z }

-- Two open requests, events both ways, and the answers the other way round.
abbrev acts : List Act
acts =
    request (7 ∷ []) normal
    ∷ tell (1 ∷ []) normal
    ∷ request (9 ∷ []) normal
    ∷ push (2 ∷ []) normal
    ∷ beat
    ∷ respond 3 (10 ∷ [])
    ∷ respond 2 (8 ∷ [])
    ∷ []

acts-AllFit : AllFit snow channel server_env env free 2 acts
unfolding AllFit Fitting next
acts-AllFit = (
  (short 2 7, omega arith),
  (
    event_of-Fits 1,
    (
      (short 3 9, omega arith),
      (
        event_of-Fits 2,
        ((control_frame-Fits ping, control_frame-Fits pong), (short 3 10, (short 2 8, tt))),
      ),
    ),
  ),
)

acts-Settles_example : Settles snow channel server_env env free ends acts
unfolding Loop.start State.new
acts-Settles_example =
    acts-Settles snow channel server_env env free codec-IsLawful (λ n. refl) (λ n. refl)
      (λ t r e. sym e) (λ n. refl) (λ n. refl) (λ n. refl) 5 acts ends s-z-Linked acts-AllFit

abbrev qs : List Ask
qs = (7 ∷ [], normal) ∷ (9 ∷ [], normal) ∷ []

abbrev rs : List Reply
rs = (3, 10 ∷ []) ∷ (2, 8 ∷ []) ∷ []

order-AllFit : AllFit snow channel server_env env free 2 (asks qs ++ replies rs)
unfolding AllFit Fitting next
order-AllFit = ((short 2 7, omega arith), ((short 3 9, omega arith), (short 3 10, (short 2 8, tt))))

acts-any_order_example :
    (run : Settles snow channel server_env env free ends (asks qs ++ replies rs))
    × (run.w'.s.client.answered ≡ s.client.answered ++ given rs)
unfolding Loop.start State.new
acts-any_order_example =
    acts-any_order snow channel server_env env free codec-IsLawful (λ n. refl) (λ n. refl)
      (λ t r e. sym e) (λ n. refl) (λ n. refl) (λ n. refl) qs rs 5 ends s-z-Linked order-AllFit
      (omega arith) ((omega arith, omega arith), ((omega arith, omega arith), tt))
      ((omega arith, tt), (tt, tt))

heartbeat-Beat_example : Beat snow channel server_env env 30 s z
unfolding Loop.start Session.start
heartbeat-Beat_example =
    heartbeat-Beat snow channel server_env env codec-IsLawful (λ n. refl) (λ n. refl)
      (λ t r e. sym e) 30 s z (control_frame-Fits ping) (control_frame-Fits pong) refl s-z-Linked

idle-Unanswered_example : Unanswered snow channel server_env env 30 40 s z
unfolding Loop.start Session.start
idle-Unanswered_example =
    idle-Unanswered snow channel server_env env 30 40 s z codec-IsLawful (λ n. refl)
      (control_frame-Fits ping) refl s-z-Linked

-- A session that admits frames of four bytes.
abbrev strict : Session.Setting snow
strict = record server_env { max_bytes = 4 }

s-z-strict : Linked snow channel strict env s z
s-z-strict =
    let l = s-z-Linked in
    record {
      t = l.t;
      r = l.r;
      client = record { noise = l.client.noise; fresh = l.client.fresh; idle = l.client.idle };
      server = record {
        noise = l.server.noise;
        fresh = l.server.fresh;
        idle = l.server.idle;
        calm = l.server.calm;
      };
      synced = l.synced;
    }

-- A request of five bytes, and what would come after it.
abbrev later : List (ℕ × Session.Event)
later = (6, Session.heartbeat) ∷ []

ask-Overrun_example :
    Overrun snow channel strict env (message_of 2 (7 ∷ 8 ∷ 9 ∷ [])) normal 5 later s z
ask-Overrun_example =
    ask-Overrun snow channel strict env (message_of 2 (7 ∷ 8 ∷ 9 ∷ [])) normal
      (2 ∷ 0 ∷ 7 ∷ 8 ∷ 9 ∷ []) 5 later s z (λ n. refl) refl (omega arith) (omega arith) s-z-strict
