-- ===== src/Tests.antt =====
-- Concrete parameters, on which the theorems are applied: a codec, a cipher that only counts and
-- pads, a network that takes everything, and the configurations.
mod Queues
mod Frames
mod Greetings
mod Ciphers
mod Delays
mod Servers
mod Clients
mod Logins
mod Services
mod Streams
mod Constructed
mod Talks
mod Transports
use notifiapp_transport.Common.{
  ℕ, zero, suc, ap, ◌∙◌, ◌+◌, ◌≡◌, refl, sym, arith, List, [], ◌∷◌, ◌++◌, Bool, true, Option, none,
  some, Text, Result, ok, err, length, drop,
}
use notifiapp_transport.Frame.{Frame, FrameKind, message, event, ping, pong, Postcard}
use notifiapp_transport.Crypto.{Snow}
use notifiapp_transport.Crypto.Transport.{Channel}
use notifiapp_transport.Wire.{Sink}
use notifiapp_transport.Wire.EndToEnd.{IsLawful}

abbrev pub kind_code : FrameKind → ℕ
kind_code message = 0
kind_code event = 1
kind_code ping = 2
kind_code pong = 3

abbrev parsed : List ℕ → Result Frame Text
parsed (id ∷ zero ∷ payload) = ok (record { id = id; kind = message; payload = payload })
parsed (id ∷ suc zero ∷ payload) = ok (record { id = id; kind = event; payload = payload })
parsed (id ∷ suc (suc zero) ∷ payload) = ok (record { id = id; kind = ping; payload = payload })
parsed (id ∷ suc (suc (suc zero)) ∷ payload) =
    ok (record { id = id; kind = pong; payload = payload })
parsed _ = err []

abbrev pub codec : Postcard
codec = record { to_stdvec = λ f. ok (f.id ∷ kind_code f.kind ∷ f.payload); from_bytes = parsed }

by_kind :
    (k : FrameKind) (id : ℕ) (payload : List ℕ)
    → parsed (id ∷ kind_code k ∷ payload) ≡ ok (record { id = id; kind = k; payload = payload })
by_kind message id payload = refl
by_kind event id payload = refl
by_kind ping id payload = refl
by_kind pong id payload = refl

abbrev bytes_of : Result (List ℕ) Text → List ℕ
bytes_of (ok bytes) = bytes
bytes_of (err e) = []

pub codec-IsLawful : IsLawful codec
codec-IsLawful f payload e = ap (λ r. parsed (bytes_of r)) (sym e) ∙ by_kind f.kind f.id f.payload

abbrev pub tag : List ℕ
tag = 0 ∷ 0 ∷ 0 ∷ 0 ∷ 0 ∷ 0 ∷ 0 ∷ 0 ∷ 0 ∷ 0 ∷ 0 ∷ 0 ∷ 0 ∷ 0 ∷ 0 ∷ 0 ∷ []

-- Its states count the messages.
abbrev pub snow : Snow
snow = record {
  Pattern = Unit {0};
  Builder = Unit {0};
  HandshakeState = ℕ;
  TransportState = ℕ;
  parse = λ t. ok tt;
  builder = λ p. tt;
  generate_keypair = λ b. ok ([], []);
  local_private_key = λ b k. ok b;
  remote_public_key = λ b k. ok b;
  build_initiator = λ b. ok 0;
  build_responder = λ b. ok 0;
  handshake_read = λ h packet room. ok (packet, suc h);
  handshake_write = λ h bytes room. ok (bytes, suc h);
  is_handshake_finished = λ h. true;
  into_transport_mode = λ h. ok 0;
  transport_read = λ t packet room. ok (drop 16 packet, suc t);
  transport_write = λ t plain room. ok (tag ++ plain, suc t);
}

abbrev pub channel : Channel snow
channel = record {
  Synced = λ t r. t ≡ r;
  seal = λ t r plain s h. record {
    packet = tag ++ plain;
    t' = suc t;
    r' = suc r;
    written = refl;
    opened = refl;
    tagged = omega arith;
    synced = omega (arith, s);
  };
}

abbrev pub sink : Sink
sink n = none
