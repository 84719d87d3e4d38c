-- ===== src/Establishment/Refusal.antt =====
-- A client of src/ws/client/ whose authentication its handler takes for Unauthorized: the attempt,
-- and the wait behind it.
use notifiapp_transport.Common.{
  ℕ, ◌≡◌, refl, ap, ◌∙◌, List, [], ◌∷◌, ◌++◌, map, true, some, ok, err, Result, Text, subst, sym,
}
use notifiapp_transport.Error
use notifiapp_transport.State.{connecting, handshaking, authenticating, waiting_for_auth}
use notifiapp_transport.State
use notifiapp_transport.Auth.{AuthHandler}
use notifiapp_transport.Auth
use notifiapp_transport.Crypto.{Snow}
use notifiapp_transport.Crypto.Pattern.{Handshake}
use notifiapp_transport.Crypto.Transport.{Channel}
use notifiapp_transport.Frame.{Frame}
use notifiapp_transport.Scheduler.Levels.{MessagePriority}
use notifiapp_transport.Wire.{Wire, transmit}
use notifiapp_transport.Wire.Sending.{IsUp}
use notifiapp_transport.Wire.EndToEnd.{IsLawful}
use notifiapp_transport.Ws.{Message, WsMessage}
use notifiapp_transport.Client.State.{ClientCmd, send, publish, drop_pending}
use notifiapp_transport.Client.Receive.{Incoming}
use notifiapp_transport.Client.Config.{WsClientConfig}
use notifiapp_transport.Client.Handshake.{
  hello, Signal, cmd, woken, waiting, wait_for, wakes_refused,
}
use notifiapp_transport.Client.Loop
use notifiapp_transport.Client.Connection.{
  Background, Pass, again, pending, connect, with_client, tell, authenticated, refuse, after_wait,
  reset,
}
use notifiapp_transport.Client.Login.{
  with_result, published, auth_frame, Fits, IsDuplex, handle_auth-Authenticated, verdict,
}
use notifiapp_transport.Server.Config.{WsServerConfig}
use notifiapp_transport.Server.Session
use notifiapp_transport.Server.Session.{Session, running, run, start, link}
use notifiapp_transport.Client.Secure.{Securing}
use notifiapp_transport.Server.Accept.{proceed, accept}
use notifiapp_transport.Server.Launch.{new_handle, launch, accept_ws_session}
use notifiapp_transport.Server.Online.{IsCompatible, greetings, replies, accept-online}
use notifiapp_transport.Server.Single.{spent, step-single}
use notifiapp_transport.Scheduler.Levels.{normal}
use notifiapp_transport.Scheduler.Dequeue.{IsIdle}
use notifiapp_transport.Scheduler.Single.{new-IsIdle}
use notifiapp_transport.Server.Delivery.{packet_event}
use notifiapp_transport.Establishment.Arrival.{
  server_env, client_env, pass_of, first_session, secured, Arrived, connect-Arrived,
}

-- A frame that the application wants to send meanwhile.
abbrev pub Sending : Type 0
Sending = Frame × MessagePriority

abbrev pub sendings : List Sending → List Signal
sendings = map (λ (q : Sending). cmd (send q.0 q.1))

wait_for-sendings :
    (qs : List Sending) (more : List Signal)
    → wait_for wakes_refused (sendings qs ++ more) ≡ wait_for wakes_refused more
unfolding wait_for wakes_refused
wait_for-sendings [] more = refl
wait_for-sendings (q ∷ qs) more = wait_for-sendings qs more

wait_for-wakes :
    (c : ClientCmd) (later : List Signal)
    → wakes_refused c ≡ true
    → wait_for wakes_refused (cmd c ∷ later) ≡ woken later
unfolding wait_for
wait_for-wakes c later e = rw (e) refl

wait_for-nothing : wait_for wakes_refused [] ≡ waiting
unfolding wait_for
wait_for-nothing = refl

one_by_one :
    {A : Type 0} (a b c d e f : A) (xs : List A)
    → (((((xs ++ (a ∷ [])) ++ (b ∷ [])) ++ (c ∷ [])) ++ (d ∷ [])) ++ (e ∷ [])) ++ (f ∷ [])
      ≡ xs ++ (a ∷ b ∷ c ∷ d ∷ e ∷ f ∷ [])
one_by_one a b c d e f [] = refl
one_by_one a b c d e f (x ∷ xs) = ap (◌∷◌ x) (one_by_one a b c d e f xs)

module _ (snow : Snow) (ch : Channel snow) (net : Session.Setting snow) (env : Loop.Setting snow)
    (client : WsClientConfig) (server : WsServerConfig)
    (x : Handshake snow ch client.noise_server_key server.noise_private_key)
    (auth : AuthHandler) where
  open net use {codec, sink}

  abbrev server_side : Session.Setting snow
  server_side = server_env snow ch net env client server x auth

  abbrev client_side : Loop.Setting snow
  client_side = client_env snow ch net env client server x auth

  abbrev pub pass_at : List (List ℕ) → Incoming → Pass → Pass
  pass_at answers rest p = pass_of snow ch net env client server x auth answers rest p

  -- The attempt, and the session whose messages it gets: the handshakes of both ends, the packets
  -- that the client sends, and the answers that the session sends.
  pub record Refused (payload response : List ℕ) (p : Pass) (b : Background) (rest : Incoming)
      (server_rest : List (Result Message Text)) (w : Wire Message) (started now : ℕ)
      (more : List Signal) : Type 0 where
    pub packets : List (List ℕ)
    pub answers : List (List ℕ)
    pub session : Session snow
    pub session' : Session snow
    pub end : Securing snow
    pub accepted :
        accept_ws_session snow net server started (record {
          incoming = greetings codec snow ch sink env.sink client server x server_rest;
          wire = w;
        })
        ≡ (
          ok (new_handle, first_session snow ch net env client server x auth started w),
          record {
            incoming = server_rest;
            wire = replies codec snow ch sink env.sink client server x w;
          },
        )
    pub received :
        run snow server_side
          (map (packet_event snow server_side now) packets)
          (first_session snow ch net env client server x auth started w)
        ≡ running session
    pub inbox : session.inbox ≡ auth_frame payload ∷ []
    pub answered :
        Session.step snow server_side
          (now, Session.command (Session.send (auth_frame response) normal))
          session
        ≡ running session'
    pub answers_sent :
        session'.wire.sent
        ≡ (replies codec snow ch sink env.sink client server x w).sent ++ map Message.binary answers
    pub attempt :
        Arrived snow ch net env client server x auth answers p b rest (err Error.unauthorized, end)
    pub sent :
        end.conn.wire.sent
        ≡ WsMessage.text (hello env.sink client)
          ∷ WsMessage.binary x.first
          ∷ WsMessage.binary x.last
          ∷ map WsMessage.binary packets
    pub b' : Background
    pub left : b'.client ≡ drop_pending (publish State.unauthorized end.conn.client)
    pub states :
        b'.client.states
        ≡ b.client.states
          ++ (connecting ∷ handshaking ∷ authenticating ∷ waiting_for_auth ∷ State.unauthorized
              ∷ State.unauthorized ∷ [])
    pub dropped : b'.client.pending ≡ []
    pub attempt_kept : b'.reconnect_attempt ≡ b.reconnect_attempt
    pub waits :
        more ≡ [] → connect snow client_side client auth (pass_at answers rest p) b ≡ pending b'
    pub goes_on :
        (c : ClientCmd) (later : List Signal)
        → wakes_refused c ≡ true
        → more ≡ cmd c ∷ later
        → connect snow client_side client auth (pass_at answers rest p) b ≡ again (reset b')

  -- While both sinks are up, with a lawful codec, a snow that completes its handshake and agrees
  -- in both directions, configurations of one name and one validated version, a payload and a
  -- response that fit the limits, a handler that takes that response for Unauthorized, and a
  -- reader of the inbox: accept_ws_session takes the messages that the client sends up to its
  -- handshake, the session puts the authentication payload into its inbox from the packets of the
  -- client and sends the response, and an attempt of the client that gets the messages of the
  -- server in time goes through its handshakes and its authentication, each on the connection that
  -- the one before left, and has sent just the greeting, the two messages of its Noise handshake
  -- and those packets; it publishes Unauthorized, drops its pending requests and waits; frames to
  -- send that come meanwhile do not end the wait, and the first wake-up, reconnection or change of
  -- the endpoint does, with the attempts counted from zero.
  pub connect-Refused :
      (payload response : List ℕ) (p : Pass) (b : Background) (rest : Incoming)
      (server_rest : List (Result Message Text)) (w : Wire Message) (started now : ℕ)
      (qs : List Sending) (more : List Signal)
      → IsCompatible client server
      → auth.auth_payload ≡ some payload
      → auth.process_auth_response response ≡ Auth.unauthorized
      → Fits codec server.max_payload_bytes (auth_frame payload)
      → Fits codec client.max_payload_bytes (auth_frame response)
      → IsLawful codec
      → IsUp env.sink
      → IsUp sink
      → IsDuplex snow ch
      → net.reader 0 ≡ true
      → p.signals ≡ sendings qs ++ more
      → Refused payload response p b rest server_rest w started now more
  unfolding start publish drop_pending authenticated refuse accept_ws_session accept
  connect-Refused payload response p b rest server_rest w started now qs more c a bad f g lawful up
        up' duplex reader signals =
      let z =
        handle_auth-Authenticated snow ch server_side env.sink client auth payload response
          (secured snow ch net env client server x auth b) rest x.t x.r now
          (first_session snow ch net env client server x auth started w) a f g lawful up up' duplex
          x.synced refl reader in
      let b1 = with_client (tell connecting b) z.k'.conn.client in
      let b2 = with_client b1 (drop_pending (publish State.unauthorized b1.client)) in
      let attempt =
        connect-Arrived snow ch net env client server x auth z.replies p b rest
          (err Error.unauthorized, z.k') up (z.result ∙ ap (λ o. (verdict o, z.k')) bad) in
      let arrived : connect snow client_side client auth (pass_at z.replies rest p) b
          ≡ after_wait (wait_for wakes_refused p.signals) b2 (reset b2) =
        attempt.attempt in
      let idle = subst (λ sch. IsIdle sch) (sym z.scheduler) new-IsIdle in
      let link' =
        (transmit codec snow sink Message.binary (auth_frame response)
          (link snow server_side z.s')).1 in
      let heard = ap (wait_for wakes_refused) signals ∙ wait_for-sendings qs more in
      record {
        packets = z.packets;
        answers = z.replies;
        session = z.s';
        session' = record (Session.with_link snow server_side z.s' link') {
          scheduler = spent snow server_side (auth_frame response) normal z.s';
        };
        end = z.k';
        accepted =
            ap (λ r. proceed r (launch snow net server started))
              (accept-online codec snow ch sink env.sink client server x server_rest w up' up c);
        received = z.received;
        inbox = z.inbox;
        answered =
            step-single snow server_side now (auth_frame response) normal z.s' link' idle
              (with_result _ true z.server_done);
        answers_sent = z.answered;
        attempt = attempt;
        sent = z.sent;
        b' = b2;
        left = refl;
        states =
            ap (λ ys. ys ++ (State.unauthorized ∷ []))
              (z.states
                ∙ ap
                    (λ o.
                      ((secured snow ch net env client server x auth b).client.states
                        ++ (waiting_for_auth ∷ []))
                      ++ published o)
                    bad)
            ∙ one_by_one connecting handshaking authenticating waiting_for_auth State.unauthorized
                State.unauthorized b.client.states;
        dropped = refl;
        attempt_kept = refl;
        waits = λ e.
            arrived
            ∙ ap (λ t. after_wait t b2 (reset b2))
                (heard ∙ ap (wait_for wakes_refused) e ∙ wait_for-nothing);
        goes_on = λ told later k e.
            arrived
            ∙ ap (λ t. after_wait t b2 (reset b2))
                (heard ∙ ap (wait_for wakes_refused) e ∙ wait_for-wakes told later k);
      }
