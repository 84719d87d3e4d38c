-- ===== src/Server/Greeting.antt =====
-- The version handshake of src/ws/server/mod.rs between configurations that their constructors made.
use notifiapp_transport.Common.{
  ℕ, ◌≡◌, refl, sym, ap, subst, ◌∙◌, arith, List, [], ◌∷◌, ◌++◌, Bool, true, false, not, none, some,
  Text, codes, if◌then◌else◌, Result, ok, err, starts_with, strip_prefix, append_assoc, ◌&&◌, ◌==◌,
  Bool-cases, inl, inr,
}
use mathlib.Core.Path.{ap₂}
use notifiapp_transport.Utils.{validate_protocol_string}
use notifiapp_transport.Utils.Names.{
  starts_with-∷, validate_tail, no_space_before, no_space, strip_prefix-none, trim-validate,
}
use notifiapp_transport.Error.{TransportError, protocol_handshake_failed, version_mismatch}
use notifiapp_transport.Backoff.{Float}
use notifiapp_transport.Crypto.{Snow}
use notifiapp_transport.Wire.{Sink, Wire}
use notifiapp_transport.Wire.Sending.{IsUp}
use notifiapp_transport.Ws.{Message}
use notifiapp_transport.Client.Config
use notifiapp_transport.Client.Config.{WsClientConfig}
use notifiapp_transport.Client.Handshake.{hello}
use notifiapp_transport.Server.Config.{WsServerConfig, new}
use notifiapp_transport.Server.Accept.{
  Socket, same_text, expected_prefix, judge_hello, version_handshake,
}
use notifiapp_transport.Server.Agreement.{
  trim_start_matches-append, starts_with-append, same_text_refl, replies, rejects, heard, replied,
}

-- A name has no space.
starts_with-same_text :
    (p n v : Text)
    → validate_protocol_string p ≡ true
    → validate_protocol_string n ≡ true
    → starts_with (p ++ codes " ") (n ++ (codes " " ++ v)) ≡ same_text p n
unfolding starts_with strip_prefix same_text
starts_with-same_text [] [] v h k = refl
starts_with-same_text [] (c ∷ n) v h k =
    starts_with-∷ b' ' c [] (n ++ (codes " " ++ v)) ∙ rw (no_space_before c n k) refl
starts_with-same_text (x ∷ p) [] v h k =
    starts_with-∷ x b' ' (p ++ codes " ") v ∙ rw (no_space x p h) refl
starts_with-same_text (x ∷ p) (c ∷ n) v h k =
    starts_with-∷ x c (p ++ codes " ") (n ++ (codes " " ++ v))
    ∙ ap (λ b. (x == c) && b)
        (starts_with-same_text p n v (validate_tail x p h) (validate_tail c n k))

-- What the server makes of a client of a name and a version, and its reply.
unfoldable pub judged : WsServerConfig → Text → Text → Result (Unit {0}) TransportError × Text
unfolding same_text
judged server name version =
    let rejection = codes "PROTOCOL_REJECTED " ++ server.protocol_version in
    if not (same_text server.protocol_name name)
    then (err protocol_handshake_failed, rejection)
    else (if same_text version server.protocol_version
        then (ok tt, codes "PROTOCOL_ACCEPTED")
        else (err (version_mismatch version server.protocol_version), rejection))

same_text-≡ : (s t : Text) → same_text s t ≡ true → s ≡ t
unfolding same_text
same_text-≡ [] [] h = refl
same_text-≡ [] (y ∷ t) h = ground (arith, h)
same_text-≡ (x ∷ s) [] h = ground (arith, h)
same_text-≡ (x ∷ s) (y ∷ t) h = elim (Bool-cases (x == y)) [
  | inl e ↦ ap₂ (λ a b. a ∷ b) (ground (arith, e)) (same_text-≡ s t (ground (arith, h)))
  | inr e ↦ absurd (ground (arith, h, e))
]

-- The reply is sent, and the socket waits for the next message.
abbrev pub settled :
    Result (Unit {0}) TransportError × Text
    → List (Result Message Text)
    → Wire Message
    → Result (Unit {0}) TransportError × Socket
settled (r, reply) rest w = (r, replied reply rest w)

module _ (snow : Snow) (sink : Sink) (server : WsServerConfig) (version : Text)
    (rest : List (Result Message Text)) (w : Wire Message) where
  abbrev pub judges : Text → Result (Unit {0}) TransportError × Socket
  judges name =
      judge_hello snow sink server (name ++ (codes " " ++ version))
        (record { incoming = rest; wire = w })

  judge_hello-other :
      (name : Text)
      → IsUp sink
      → validate_protocol_string server.protocol_name ≡ true
      → validate_protocol_string name ≡ true
      → same_text server.protocol_name name ≡ false
      → judges name ≡ settled (judged server name version) rest w
  unfolding judge_hello expected_prefix judged
  judge_hello-other name up h k e =
      rw (starts_with-same_text server.protocol_name name version h k, e)
        (rejects snow sink server protocol_handshake_failed rest w up)

  pub judge_hello-same :
      IsUp sink
      → validate_protocol_string version ≡ true
      → judges server.protocol_name ≡ settled (judged server server.protocol_name version) rest w
  unfolding judge_hello expected_prefix judged
  judge_hello-same up k =
      rw
        (
          sym (append_assoc server.protocol_name (codes " ") version),
          starts_with-append (server.protocol_name ++ codes " ") version,
          trim_start_matches-append server.protocol_name version
              (strip_prefix-none server.protocol_name version k),
          trim-validate version k,
          same_text_refl server.protocol_name,
        )
        (elim (Bool-cases (same_text version server.protocol_version)) [
          | inl e ↦ rw (e) (replies snow sink server (codes "PROTOCOL_ACCEPTED") rest w up)
          | inr e ↦ rw (e) (
              rejects snow sink server (version_mismatch version server.protocol_version) rest w up)
        ])

  judge_hello-judged :
      (name : Text)
      → IsUp sink
      → validate_protocol_string server.protocol_name ≡ true
      → validate_protocol_string name ≡ true
      → validate_protocol_string version ≡ true
      → judges name ≡ settled (judged server name version) rest w
  judge_hello-judged name up h k v = elim (Bool-cases (same_text server.protocol_name name)) [
    | inl e ↦
        subst (λ n. judges n ≡ settled (judged server n version) rest w)
          (same_text-≡ server.protocol_name name e) (judge_hello-same up v)
    | inr e ↦ judge_hello-other name up h k e
  ]

-- The fields of a configuration that its constructor made.
record IsMade (name version name' version' : Text) : Type 0 where
  pub names : validate_protocol_string name ≡ true
  pub versions : validate_protocol_string version ≡ true
  pub same_name : name' ≡ name
  pub same_version : version' ≡ version

if_some :
    {A : Type 0} (b : Bool) (x y : A) → (if b then some x else none) ≡ some y → (b ≡ true) × (x ≡ y)
if_some true x y e = (refl, cc)
if_some false x y e = absurd cc

and_true : (a b : Bool) → (a && b) ≡ true → (a ≡ true) × (b ≡ true)
and_true true b e = (refl, e)
and_true false b e = absurd cc

client-IsMade :
    (fl : Float) (two : fl.F64) (name version : Text) (client : WsClientConfig)
    → Config.new fl two name version ≡ some client
    → IsMade name version client.protocol_name client.protocol_version
unfolding Config.new
client-IsMade fl two name version client e =
    let (b, r) =
      if_some (validate_protocol_string name && validate_protocol_string version) _ client e in
    let (n, v) = and_true (validate_protocol_string name) (validate_protocol_string version) b in
    record {
      names = n;
      versions = v;
      same_name = ap (λ c. c.protocol_name) (sym r);
      same_version = ap (λ c. c.protocol_version) (sym r);
    }

server-IsMade :
    (name version : Text) (key : List ℕ) (server : WsServerConfig)
    → new name version key ≡ some server
    → IsMade name version server.protocol_name server.protocol_version
unfolding new
server-IsMade name version key server e =
    let (b, r) =
      if_some (validate_protocol_string name && validate_protocol_string version) _ server e in
    let (n, v) = and_true (validate_protocol_string name) (validate_protocol_string version) b in
    record {
      names = n;
      versions = v;
      same_name = ap (λ c. c.protocol_name) (sym r);
      same_version = ap (λ c. c.protocol_version) (sym r);
    }

-- While its sink is up, a server whose configuration its constructor made, given the greeting of a
-- client whose configuration was made so too, fails with ProtocolHandshakeFailed just when the
-- names differ, fails with VersionMismatch just when the names agree and the versions differ, and
-- else goes on; it sends just the reply for that.
pub version_handshake-judged :
    (snow : Snow) (sink client_sink : Sink) (fl : Float) (two : fl.F64)
    (name version server_name server_version : Text) (key : List ℕ) (client : WsClientConfig)
    (server : WsServerConfig) (rest : List (Result Message Text)) (w : Wire Message)
    → Config.new fl two name version ≡ some client
    → new server_name server_version key ≡ some server
    → IsUp sink
    → version_handshake snow sink server (heard (hello client_sink client) rest w)
      ≡ settled (judged server name version) rest w
unfolding version_handshake hello
version_handshake-judged snow sink client_sink fl two name version server_name server_version key
      client server rest w c h up =
    let m = client-IsMade fl two name version client c in
    let m' = server-IsMade server_name server_version key server h in
    rw (m.same_name, m.same_version)
      (judge_hello-judged snow sink server version rest w name up
        (ap validate_protocol_string m'.same_name ∙ m'.names) m.names m.versions)
