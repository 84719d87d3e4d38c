-- ===== src/Server/Agreement.antt =====
-- The version handshake of both ends: src/ws/server/mod.rs and src/ws/client/connection_loop.rs.
use notifiapp_transport.Common.{
  ℕ, zero, suc, ◌≡◌, refl, sym, ap, ◌∙◌, arith, List, [], ◌∷◌, ◌++◌, true, false, none, some, Text,
  codes, if◌then◌else◌, Result, ok, err, starts_with, strip_prefix, strip_within, contains,
  trim_start_matches, trim, length, append_assoc,
}
use notifiapp_transport.Error
use notifiapp_transport.State
use notifiapp_transport.Crypto.{Snow}
use notifiapp_transport.Wire.{Sink, Wire, send}
use notifiapp_transport.Wire.Sending.{IsUp}
use notifiapp_transport.Ws.{Message, WsMessage}
use notifiapp_transport.Client.State.{publish, drop_pending}
use notifiapp_transport.Client.Config.{WsClientConfig}
use notifiapp_transport.Client.Handshake.{
  Conn, Signal, wait_for, hello, server_version, refused, handle_version_handshake,
}
use notifiapp_transport.Server.Config.{WsServerConfig}
use notifiapp_transport.Server.Accept.{
  Socket, same_text, send_message, expected_prefix, reject, judge_hello, version_handshake,
}

pub same_text_refl : (t : Text) → same_text t t ≡ true
unfolding same_text
same_text_refl [] = refl
same_text_refl (x ∷ xs) = ground (arith, same_text_refl xs)

pub strip_prefix-append : (p t : Text) → strip_prefix p (p ++ t) ≡ some t
unfolding strip_prefix
strip_prefix-append [] t = refl
strip_prefix-append (x ∷ p) t = ground (arith, strip_prefix-append p t)

strip_within-none : (n : ℕ) (p t : Text) → strip_prefix p t ≡ none → strip_within n p t ≡ t
unfolding strip_within
strip_within-none zero p t h = refl
strip_within-none (suc n) p t h = rw (strip_within, h) refl

strip_within-append :
    (n : ℕ) (p t : Text) → strip_prefix p t ≡ none → strip_within (suc n) p (p ++ t) ≡ t
unfolding strip_within
strip_within-append n p t h = rw (strip_within, strip_prefix-append p t) (strip_within-none n p t h)

-- The prefix is not empty, so it is taken off once at least.
pub trim_start_matches-append :
    (name t : Text)
    → strip_prefix (name ++ codes " ") t ≡ none
    → trim_start_matches (name ++ codes " ") ((name ++ codes " ") ++ t) ≡ t
unfolding trim_start_matches
trim_start_matches-append [] t h = strip_within-append (length t) (codes " ") t h
trim_start_matches-append (x ∷ name) t h =
    strip_within-append (length ((name ++ codes " ") ++ t)) (x ∷ (name ++ codes " ")) t h

pub starts_with-append : (p t : Text) → starts_with p (p ++ t) ≡ true
unfolding starts_with
starts_with-append p t = rw (strip_prefix-append p t) refl

-- A socket and a connection that have got a text.
abbrev pub heard : Text → List (Result Message Text) → Wire Message → Socket
heard t rest w = record { incoming = ok (Message.text t) ∷ rest; wire = w }

abbrev pub told : Text → Conn → Conn
told t k = record k { incoming = ok (WsMessage.text t) ∷ k.incoming }

abbrev pub replied : Text → List (Result Message Text) → Wire Message → Socket
replied t rest w = record {
  incoming = rest;
  wire = record { sends = suc w.sends; sent = w.sent ++ (Message.text t ∷ []) };
}

module _ (snow : Snow) (sink : Sink) (server : WsServerConfig) where
  pub replies :
      (t : Text) (rest : List (Result Message Text)) (w : Wire Message)
      → IsUp sink
      → send_message snow sink server (Message.text t) (record { incoming = rest; wire = w })
        ≡ (ok tt, replied t rest w)
  unfolding send_message send
  replies t rest w up = rw (send_message, send, up w.sends) refl

  pub rejects :
      (e : Error.TransportError) (rest : List (Result Message Text)) (w : Wire Message)
      → IsUp sink
      → reject snow sink server {A = Unit {0}} e (record { incoming = rest; wire = w })
        ≡ (err e, replied (codes "PROTOCOL_REJECTED " ++ server.protocol_version) rest w)
  unfolding reject
  rejects e rest w up =
      rw (replies (codes "PROTOCOL_REJECTED " ++ server.protocol_version) rest w up) refl

module _ (snow : Snow) (sink client_sink : Sink) (client : WsClientConfig)
    (server : WsServerConfig) where
  -- A greeting with the name of the server, and a version that the server reads as it is written.
  pub record IsReadable : Type 0 where
    pub names : client.protocol_name ≡ server.protocol_name
    pub once : strip_prefix (client.protocol_name ++ codes " ") client.protocol_version ≡ none
    pub trimmed : trim client.protocol_version ≡ client.protocol_version

  pub hello-prefix :
      hello client_sink client ≡ (client.protocol_name ++ codes " ") ++ client.protocol_version
  unfolding hello
  hello-prefix = sym (append_assoc client.protocol_name (codes " ") client.protocol_version)

  judge_hello-readable :
      (s : Socket)
      → IsReadable
      → judge_hello snow sink server (hello client_sink client) s
        ≡ (if same_text client.protocol_version server.protocol_version
              then send_message snow sink server (Message.text (codes "PROTOCOL_ACCEPTED"))
              else reject snow sink server
                  (Error.version_mismatch client.protocol_version server.protocol_version))
            s
  unfolding judge_hello expected_prefix
  judge_hello-readable s r =
      rw
        (
          hello-prefix,
          ← r.names,
          starts_with-append (client.protocol_name ++ codes " ") client.protocol_version,
          trim_start_matches-append client.protocol_name client.protocol_version r.once,
          r.trimmed,
        )
        refl

  agreed :
      (signals : List Signal) (k : Conn)
      → IsUp client_sink
      → (handle_version_handshake client_sink client signals (told (codes "PROTOCOL_ACCEPTED") k)).0
        ≡ some (ok tt, signals)
  unfolding handle_version_handshake send contains
  agreed signals k up = rw (handle_version_handshake, send, up k.wire.sends) refl

  -- While both sinks are up, a server that gets the greeting of a client with its own name and
  -- version, the version trimmed and not beginning with the name and a space, sends a reply and
  -- goes on, and the client that gets this reply goes on too.
  pub version_handshake-accepted :
      (rest : List (Result Message Text)) (w : Wire Message) (signals : List Signal) (k : Conn)
      → IsUp sink
      → IsUp client_sink
      → IsReadable
      → client.protocol_version ≡ server.protocol_version
      → (reply : Text) × (version_handshake snow sink server
            (heard (hello client_sink client) rest w)
          ≡ (ok tt, replied reply rest w))
        × ((handle_version_handshake client_sink client signals (told reply k)).0
            ≡ some (ok tt, signals))
  unfolding version_handshake
  version_handshake-accepted rest w signals k up up' r v = (
    codes "PROTOCOL_ACCEPTED",
    judge_hello-readable (record { incoming = rest; wire = w }) r
        ∙ simp
            (ap (same_text client.protocol_version) (sym v)
              ∙ same_text_refl client.protocol_version)
            (replies snow sink server (codes "PROTOCOL_ACCEPTED") rest w up),
    agreed signals k up',
  )

  refusal :
      (k : Conn)
      → IsUp client_sink
      → contains (codes "PROTOCOL_ACCEPTED") server.protocol_version ≡ false
      → let reply = codes "PROTOCOL_REJECTED " ++ server.protocol_version in
        let r = handle_version_handshake client_sink client [] (told reply k) in
        (r.0 ≡ none)
        × (r.1.client.pending ≡ [])
        × (r.1.client.states
            ≡ (k.client.states ++ (State.handshaking ∷ []))
              ++ (State.version_mismatch client.protocol_version (trim server.protocol_version)
                  ∷ []))
  unfolding handle_version_handshake send refused server_version contains strip_prefix wait_for
      publish drop_pending
  refusal k up c = rw (handle_version_handshake, send, up k.wire.sends, c) (refl, refl, refl)

  -- While both sinks are up, a server that gets a greeting with its name and another version,
  -- trimmed and not beginning with the name and a space, fails with VersionMismatch and sends a
  -- reply; the client that gets it publishes the mismatch with the version of the server, drops
  -- its pending requests and waits, if that version does not contain PROTOCOL_ACCEPTED.
  pub version_handshake-rejected :
      (rest : List (Result Message Text)) (w : Wire Message) (k : Conn)
      → IsUp sink
      → IsUp client_sink
      → IsReadable
      → same_text client.protocol_version server.protocol_version ≡ false
      → contains (codes "PROTOCOL_ACCEPTED") server.protocol_version ≡ false
      → (reply : Text) × (version_handshake snow sink server
            (heard (hello client_sink client) rest w)
          ≡ (
            err (Error.version_mismatch client.protocol_version server.protocol_version),
            replied reply rest w,
          ))
        × (let r = handle_version_handshake client_sink client [] (told reply k) in
            (r.0 ≡ none)
            × (r.1.client.pending ≡ [])
            × (r.1.client.states
                ≡ (k.client.states ++ (State.handshaking ∷ []))
                  ++ (State.version_mismatch client.protocol_version (trim server.protocol_version)
                      ∷ [])))
  unfolding version_handshake
  version_handshake-rejected rest w k up up' r v c = (
    codes "PROTOCOL_REJECTED " ++ server.protocol_version,
    judge_hello-readable (record { incoming = rest; wire = w }) r
        ∙ rw v (rejects snow sink server _ rest w up),
    refusal k up' c,
  )
