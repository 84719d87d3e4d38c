-- ===== src/Establishment/Talk.antt =====
-- What a client of src/ws/client/ and a server of src/ws/server/ say to each other once the attempt
-- of the client to connect is through.
use notifiapp_transport.Common.{
  ℕ, ◌≡◌, sym, ap, ◌∙◌, subst, List, [], ◌∷◌, true, some, none, Result, Text,
}
use notifiapp_transport.Auth.{AuthHandler, success}
use notifiapp_transport.Crypto.{Snow}
use notifiapp_transport.Crypto.Pattern.{Handshake}
use notifiapp_transport.Crypto.Transport.{Channel}
use notifiapp_transport.Frame.{Frame}
use notifiapp_transport.Wire.{Wire}
use notifiapp_transport.Wire.Sending.{IsUp}
use notifiapp_transport.Wire.EndToEnd.{IsLawful}
use notifiapp_transport.Ws.{Message}
use notifiapp_transport.Client.Receive.{Incoming}
use notifiapp_transport.Client.Config.{WsClientConfig}
use notifiapp_transport.Client.Loop
use notifiapp_transport.Client.Connection.{Background, Pass}
use notifiapp_transport.Client.State.{Client, Admission, publish}
use notifiapp_transport.Client.Login.{SameCalls, auth_frame, Fits, IsDuplex}
use notifiapp_transport.Server.Config.{WsServerConfig}
use notifiapp_transport.Server.Online.{IsCompatible}
use notifiapp_transport.Server.Session
use notifiapp_transport.Server.Launch.{new_handle}
use notifiapp_transport.Conversation.Ledger.{Act, view, settle_all}
use notifiapp_transport.Conversation.Settling.{acts-Settles}
use notifiapp_transport.Conversation.Talk.{Ends, Talk, AllFit}
use notifiapp_transport.Establishment.{Established, connect-Established}
use notifiapp_transport.Establishment.Arrival.{started_loop, server_env, client_env}

same-view :
    (c c' : Client) (inbox inbox' : List Frame)
    → SameCalls c c'
    → inbox' ≡ inbox
    → view c' inbox' ≡ view c inbox
same-view c c' inbox inbox' (n, a, p, h, e) b = λ i.
    view
      (record c { next_id = n i; answered = a i; pending = p i; event_handler = h i; events = e i })
      (b i)

module _ (snow : Snow) (ch : Channel snow) (net : Session.Setting snow) (env : Loop.Setting snow)
    (client : WsClientConfig) (server : WsServerConfig)
    (x : Handshake snow ch client.noise_server_key server.noise_private_key) (auth : AuthHandler)
    (handle_admits : Admission) where
  open net use {codec, sink}

  abbrev server_side : Session.Setting snow
  server_side = server_env snow ch net env client server x auth

  abbrev client_side : Loop.Setting snow
  client_side = client_env snow ch net env client server x auth

  abbrev pub Sides : Type 0
  Sides = Ends snow ch server_side client_side handle_admits

  -- Both ends come online, and then run through the calls of their applications.
  pub record Spoken (payload response : List ℕ) (p : Pass) (b : Background) (rest : Incoming)
      (server_rest : List (Result Message Text)) (w : Wire Message) (started now : ℕ)
      (acts : List Act) : Type 0 where
    pub online :
        Established snow ch net env client server x auth payload response p b rest server_rest w
          started now
    pub ends : Sides
    pub talk :
        Talk snow ch server_side client_side handle_admits
          (record {
            s =
                started_loop snow ch net env client server x auth p.online_at online.conn
                  online.noise;
            h = new_handle;
            z = online.session';
          })
          acts
          ends
    pub settled :
        view ends.s.client ends.z.inbox ≡ settle_all acts (view b.client (auth_frame payload ∷ []))

  -- While both sinks are up, with a lawful codec, a snow that completes its handshake and agrees
  -- in both directions, configurations of one name and one validated version, a payload and a
  -- response that fit the limits, a handler that takes that response, an inbox that always has a
  -- reader, and channels of commands that take what they are sent: an attempt of the client that
  -- gets the messages of the server in time goes online with a session of the server, and any
  -- requests, responses, events and heartbeats of the session after it, in any order, whose frames
  -- fit the limits and whose identifiers do not wrap, run to their end; what the client has
  -- answered, what waits, the events handed out and the inbox of the session, which has got the
  -- authentication payload first, are then as the ledger has them.
  pub connect-Spoken :
      (payload response : List ℕ) (p : Pass) (b : Background) (rest : Incoming)
      (server_rest : List (Result Message Text)) (w : Wire Message) (started now : ℕ)
      (acts : List Act)
      → IsCompatible client server
      → auth.auth_payload ≡ some payload
      → auth.process_auth_response response ≡ success
      → Fits codec server.max_payload_bytes (auth_frame payload)
      → Fits codec client.max_payload_bytes (auth_frame response)
      → IsLawful codec
      → IsUp env.sink
      → IsUp sink
      → IsDuplex snow ch
      → ((n : ℕ) → net.reader n ≡ true)
      → ((n : ℕ) → env.admits n ≡ none)
      → ((n : ℕ) → handle_admits n ≡ none)
      → AllFit snow ch server_side client_side handle_admits b.client.next_id acts
      → Spoken payload response p b rest server_rest w started now acts
  unfolding publish Loop.start
  connect-Spoken payload response p b rest server_rest w started now acts c a succ f g lawful up up'
        duplex reader room room' fits =
      let online =
        connect-Established snow ch net env client server x auth payload response p b rest
          server_rest w started now c a succ f g lawful up up' duplex (reader 0) in
      let ends : Sides = record {
        s = started_loop snow ch net env client server x auth p.online_at online.conn online.noise;
        h = new_handle;
        z = online.session';
      } in
      let spoken =
        acts-Settles snow ch server_side client_side handle_admits lawful up up' duplex reader room
          room' now acts ends online.linked
          (subst (λ n. AllFit snow ch server_side client_side handle_admits n acts)
            (sym online.calls.0) fits) in
      record {
        online = online;
        ends = spoken.w';
        talk = spoken.talk;
        settled =
            spoken.settled
            ∙ ap (settle_all acts) (
                same-view b.client online.conn.client (auth_frame payload ∷ [])
                  online.session'.inbox online.calls (online.inbox_kept ∙ online.inbox));
      }
