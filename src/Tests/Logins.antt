-- ===== src/Tests/Logins.antt =====
-- The Noise handshake and the authentication between a client and a server.
use notifiapp_transport.Common.{
  ℕ, List, suc, ◌≡◌, refl, sym, arith, [], ◌∷◌, ◌++◌, none, some, ok, true, false, leb,
}
use notifiapp_transport.Auth.{AuthHandler, success}
use notifiapp_transport.Crypto.{Snow}
use notifiapp_transport.Crypto.Transport.{Channel, online}
use notifiapp_transport.Crypto.Pattern.{Handshake}
use notifiapp_transport.Tests
use notifiapp_transport.Tests.{codec, codec-IsLawful, channel, sink, tag}
use notifiapp_transport.Tests.Greetings.{client, same, k, w}
use notifiapp_transport.Client.Login.{Fits, auth_frame}
use notifiapp_transport.Server.Session.{Session, Setting, start}
use notifiapp_transport.Server.Session
use notifiapp_transport.Server.Online.{IsCompatible}
use notifiapp_transport.Client.Loop
use notifiapp_transport.Client.Connection.{Background, Pass}
use notifiapp_transport.Utils.{is_valid, validate_protocol_string}
use notifiapp_transport.Auth
use notifiapp_transport.Scheduler.Levels.{normal}
use notifiapp_transport.Establishment.Refusal.{Sending, sendings, Refused, connect-Refused}
use notifiapp_transport.Establishment.{Established, connect-Established}

-- A handshake of three messages.
abbrev pub snow : Snow
snow = record Tests.snow { is_handshake_finished = λ h. leb 3 h }

abbrev pub ch : Channel snow
ch = record {
  Synced = λ t r. t ≡ r;
  seal = λ t r plain s h. record {
    packet = tag ++ plain;
    t' = suc t;
    r' = suc r;
    written = refl;
    opened = refl;
    tagged = omega arith;
    synced = omega (arith, s);
  };
}

abbrev pub x : Handshake snow ch none []
x = record {
  pattern = tt;
  keys = ([], []);
  b0 = tt;
  b1 = tt;
  b2 = tt;
  i0 = 0;
  i1 = 1;
  i2 = 2;
  i3 = 3;
  r0 = 0;
  r1 = 1;
  r2 = 2;
  r3 = 3;
  first = [];
  reply = [];
  last = [];
  t = 0;
  r = 0;
  parsed = refl;
  generated = refl;
  client_key = refl;
  client_pin = refl;
  initiator = refl;
  server_key = refl;
  responder = refl;
  first_written = refl;
  first_read = refl;
  reply_written = refl;
  reply_read = refl;
  last_written = refl;
  last_read = refl;
  open_i1 = refl;
  open_i2 = refl;
  open_r1 = refl;
  open_r2 = refl;
  done_i3 = refl;
  done_r3 = refl;
  client_transport = refl;
  server_transport = refl;
  synced = refl;
}

abbrev pub env : Setting Tests.snow
env = record {
  codec = codec;
  sink = sink;
  reader = λ n. true;
  max_bytes = 1000;
  heartbeat_interval = 30;
  heartbeat_timeout = 10;
}

-- A handler that takes every answer.
abbrev pub auth : AuthHandler
auth = record { auth_payload = some (7 ∷ []); process_auth_response = λ bytes. success }

abbrev session : Session Tests.snow
session = start Tests.snow env 0 (online Tests.snow 4) w

pub small : (n : ℕ) → Fits codec 1000 (auth_frame (n ∷ []))
small n = record {
  payload = 1 ∷ 0 ∷ n ∷ [];
  serialised = refl;
  width = omega arith;
  admitted = omega arith;
}

abbrev pub server_env : Session.Setting snow
server_env = record {
  codec = codec;
  sink = sink;
  reader = λ n. true;
  max_bytes = 1000;
  heartbeat_interval = 30;
  heartbeat_timeout = 10;
}

abbrev pub loop_env : Loop.Setting snow
loop_env = record {
  codec = codec;
  sink = sink;
  admits = λ n. none;
  max_payload_bytes = 1000;
  heartbeat_interval = 30;
  heartbeat_timeout = 10;
}

abbrev pub attempt : Pass
attempt = record {
  during_sleep = none;
  connection = ok [];
  signals = [];
  in_time = true;
  online_at = 0;
  events = [];
}

abbrev pub before : Background
before = record { client = k.client; reconnect_attempt = 3; ever_connected = false }

pub compatible : IsCompatible client same
unfolding validate_protocol_string is_valid
compatible = record { names = refl; versions = refl; validated = refl }

connect-Established_example :
    Established snow ch server_env loop_env client same x auth
      (7 ∷ [])
      (8 ∷ [])
      attempt
      before
      []
      []
      w
      0
      9
connect-Established_example =
    connect-Established snow ch server_env loop_env client same x auth (7 ∷ []) (8 ∷ []) attempt
      before [] [] w 0 9 compatible refl refl (small 7) (small 8) codec-IsLawful (λ n. refl)
      (λ n. refl) (λ t r s. sym s) refl

-- A handler that refuses every answer, and an application that sends on meanwhile.
abbrev strict : AuthHandler
strict = record { auth_payload = some (7 ∷ []); process_auth_response = λ bytes. Auth.unauthorized }

abbrev unheard : List Sending
unheard = (auth_frame (5 ∷ []), normal) ∷ []

abbrev refused_attempt : Pass
refused_attempt = record attempt { signals = sendings unheard ++ [] }

connect-Refused_example :
    Refused snow ch server_env loop_env client same x strict
      (7 ∷ [])
      (8 ∷ [])
      refused_attempt
      before
      []
      []
      w
      0
      9
      []
connect-Refused_example =
    connect-Refused snow ch server_env loop_env client same x strict (7 ∷ []) (8 ∷ [])
      refused_attempt before [] [] w 0 9 unheard [] compatible refl refl (small 7) (small 8)
      codec-IsLawful (λ n. refl) (λ n. refl) (λ t r s. sym s) refl refl
