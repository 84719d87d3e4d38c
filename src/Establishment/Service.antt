-- ===== src/Establishment/Service.antt =====
-- What a client of src/ws/client/ gets from a server of src/ws/server/, from the attempt to connect
-- to the answers of its requests.
use notifiapp_transport.Common.{
  ℕ, ◌+◌, ◌^◌, ◌<◌, ◌≡◌, sym, ◌∙◌, subst, List, ◌∷◌, ◌++◌, true, some, Result, Text, length,
}
use notifiapp_transport.Auth.{AuthHandler, success}
use notifiapp_transport.Crypto.{Snow}
use notifiapp_transport.Crypto.Pattern.{Handshake}
use notifiapp_transport.Crypto.Transport.{Channel}
use notifiapp_transport.Scheduler.Levels.{MessagePriority}
use notifiapp_transport.Wire.{Wire}
use notifiapp_transport.Wire.Sending.{IsUp}
use notifiapp_transport.Wire.EndToEnd.{IsLawful}
use notifiapp_transport.Ws.{Message}
use notifiapp_transport.Client.Receive.{Incoming}
use notifiapp_transport.Client.Config.{WsClientConfig}
use notifiapp_transport.Client.Loop
use notifiapp_transport.Client.Loop.{Loop}
use notifiapp_transport.Client.Connection.{Background, Pass}
use notifiapp_transport.Client.State.{publish}
use notifiapp_transport.Client.Login.{auth_frame, Fits, IsDuplex}
use notifiapp_transport.Server.Config.{WsServerConfig}
use notifiapp_transport.Server.Online.{IsCompatible}
use notifiapp_transport.Server.Session
use notifiapp_transport.Server.Session.{Session}
use notifiapp_transport.Conversation.Calls.{
  Call, AllFit, Conversation, requests, responses, calls-Conversation, joined,
}
use notifiapp_transport.Establishment.{Established, connect-Established}
use notifiapp_transport.Establishment.Arrival.{started_loop, server_env, client_env}

module _ (snow : Snow) (ch : Channel snow) (net : Session.Setting snow) (env : Loop.Setting snow)
    (client : WsClientConfig) (server : WsServerConfig)
    (x : Handshake snow ch client.noise_server_key server.noise_private_key)
    (auth : AuthHandler) where
  open net use {codec, sink}

  abbrev server_side : Session.Setting snow
  server_side = server_env snow ch net env client server x auth

  abbrev client_side : Loop.Setting snow
  client_side = client_env snow ch net env client server x auth

  -- A connection and the calls over it: both ends come online, and then run through the calls.
  pub record Served (payload response : List ℕ) (p : Pass) (b : Background) (rest : Incoming)
      (server_rest : List (Result Message Text)) (w : Wire Message) (started now : ℕ)
      (calls : List Call) : Type 0 where
    pub online :
        Established snow ch net env client server x auth payload response p b rest server_rest w
          started now
    pub s' : Loop snow
    pub z' : Session snow
    pub conversation :
        Conversation snow ch server_side client_side
          (started_loop snow ch net env client server x auth p.online_at online.conn online.noise)
          online.session'
          calls
          s'
          z'
    pub answered : s'.client.answered ≡ b.client.answered ++ responses b.client.next_id calls
    pub inbox : z'.inbox ≡ auth_frame payload ∷ requests b.client.next_id calls

  -- While both sinks are up, with a lawful codec, a snow that completes its handshake and agrees
  -- in both directions, configurations of one name and one validated version, a payload and a
  -- response that fit the limits, a handler that takes that response, and an inbox that always has
  -- a reader: an attempt of the client that gets the messages of the server in time goes online
  -- with a session of the server, and any calls after it, whose frames fit the limits and whose
  -- identifiers are not zero and do not wrap, run to their end; the client then has answered just
  -- these calls, and the inbox of the session has got the authentication payload and just the
  -- requests, in order.
  pub connect-Served :
      (payload response : List ℕ) (p : Pass) (b : Background) (rest : Incoming)
      (server_rest : List (Result Message Text)) (w : Wire Message) (started now : ℕ)
      (calls : List Call) (priority : MessagePriority)
      → IsCompatible client server
      → auth.auth_payload ≡ some payload
      → auth.process_auth_response response ≡ success
      → Fits codec server.max_payload_bytes (auth_frame payload)
      → Fits codec client.max_payload_bytes (auth_frame response)
      → IsLawful codec
      → IsUp env.sink
      → IsUp sink
      → IsDuplex snow ch
      → ((n : ℕ) → net.reader n ≡ true)
      → AllFit snow ch server_side client_side b.client.next_id calls
      → 0 < b.client.next_id
      → b.client.next_id + length calls < 2 ^ 32
      → Served payload response p b rest server_rest w started now calls
  unfolding publish Loop.start
  connect-Served payload response p b rest server_rest w started now calls priority c a succ f g
        lawful up up' duplex reader fits first bound =
      let online =
        connect-Established snow ch net env client server x auth payload response p b rest
          server_rest w started now c a succ f g lawful up up' duplex (reader 0) in
      let same = sym online.calls.0 in
      let (s', z', talk, answered, inbox) =
        calls-Conversation snow ch server_side client_side lawful up up' duplex reader calls
          priority now
          (started_loop snow ch net env client server x auth p.online_at online.conn online.noise)
          online.session' online.linked
          (subst (λ n. AllFit snow ch server_side client_side n calls) same fits)
          (subst (λ n. 0 < n) same first) (subst (λ n. n + length calls < 2 ^ 32) same bound) in
      record {
        online = online;
        s' = s';
        z' = z';
        conversation = talk;
        answered = answered ∙ joined (λ n. responses n calls) online.calls.1 online.calls.0;
        inbox =
            inbox
            ∙ joined (λ n. requests n calls) (online.inbox_kept ∙ online.inbox) online.calls.0;
      }
