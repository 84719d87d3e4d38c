-- ===== src/Client/Login/Steps.antt =====
-- The steps of `handle_auth`, src/ws/client/connection_loop.rs, and what its outcomes mean.
use notifiapp_transport.Common.{
  append-nil, ℕ, ◌≡◌, refl, sym, List, [], ◌∷◌, ◌++◌, map, Bool, true, some, Result, ok, err,
}
use notifiapp_transport.Error
use notifiapp_transport.Error.{TransportError, connection_closed}
use notifiapp_transport.State
use notifiapp_transport.State.{ConnectionState, waiting_for_auth}
use notifiapp_transport.Auth.{AuthHandler, AuthOutcome, success, failed, retry_with_new_payload}
use notifiapp_transport.Frame.{Frame, message, Postcard, encode_frame, fresh}
use notifiapp_transport.Crypto.{Snow, NoiseSession}
use notifiapp_transport.Wire.{Sink, Wire, Link, send_encrypted}
use notifiapp_transport.Wire.Inbound.{Inbound}
use notifiapp_transport.Wire.Receiving.{Completes}
use notifiapp_transport.Ws.{WsMessage}
use notifiapp_transport.Client.State.{Client, publish}
use notifiapp_transport.Client.Receive.{Incoming, packet_message, recv_one_frame-Completes}
use notifiapp_transport.Client.Config.{WsClientConfig}
use notifiapp_transport.Client.Handshake.{Conn}
use notifiapp_transport.Client.Secure.{
  Securing, encode_auth, send_auth, await_auth, judge, publish_state, handle_auth,
}

abbrev pub auth_frame : List ℕ → Frame
auth_frame bytes = record { id = 1; kind = message; payload = bytes }

-- What an outcome means for the connection.
abbrev pub verdict : AuthOutcome → Result (Unit {0}) TransportError
verdict success = ok tt
verdict AuthOutcome.unauthorized = err Error.unauthorized
verdict failed = err connection_closed
verdict (retry_with_new_payload bytes) = err connection_closed

-- The state that it publishes.
abbrev pub published : AuthOutcome → List ConnectionState
published AuthOutcome.unauthorized = State.unauthorized ∷ []
published _ = []

-- The requests, their answers and the events are not touched.
abbrev pub SameCalls : Client → Client → Type 0
SameCalls c c' =
    (c'.next_id ≡ c.next_id)
    × (c'.answered ≡ c.answered)
    × (c'.pending ≡ c.pending)
    × (c'.event_handler ≡ c.event_handler)
    × (c'.events ≡ c.events)

pub with_result : {A B : Type 0} (r : A × B) (a : A) → r.0 ≡ a → r ≡ (a, r.1)
with_result r a e = λ i. (e i, r.1)

pub sent_link :
    {snow : Snow} {M : Type 0} (r : Bool × Link snow M) (n : NoiseSession snow)
    → r.0 ≡ true
    → r.1.noise ≡ n
    → r ≡ (true, record { noise = n; wire = r.1.wire })
sent_link r n e f = λ i. (e i, record { noise = f i; wire = r.1.wire })

module _ (codec : Postcard) (snow : Snow) (sink : Sink) (config : WsClientConfig) where
  encode_auth-ok :
      (bytes encoded : List ℕ) (s : Securing snow)
      → encode_frame codec (auth_frame bytes) ≡ ok encoded
      → encode_auth codec snow sink config bytes s ≡ (ok encoded, s)
  unfolding encode_auth
  encode_auth-ok bytes encoded s e = rw e refl

  send_auth-ok :
      (encoded : List ℕ) (s : Securing snow) (l : Link snow WsMessage)
      → send_encrypted codec snow sink WsMessage.binary encoded
          (record { noise = s.noise; wire = s.conn.wire })
        ≡ (true, l)
      → send_auth codec snow sink config encoded s
        ≡ (ok tt, record { noise = l.noise; conn = record s.conn { wire = l.wire } })
  unfolding send_auth
  send_auth-ok encoded s l e = rw e refl

  await_auth-Completes :
      (f : Frame) (packets : List (List ℕ)) (rest : Incoming) (n : NoiseSession snow)
      (i' : Inbound snow) (c : Client) (w : Wire WsMessage)
      → f.id ≡ 1
      → Completes codec snow config.max_payload_bytes f
          (record { noise = n; accumulator = fresh })
          packets
          i'
      → await_auth codec snow sink config true (record {
        noise = n;
        conn = record {
          client = c;
          incoming = map (packet_message codec snow config.max_payload_bytes) packets ++ rest;
          wire = w;
        };
      })
        ≡ (
          ok f.payload,
          record { noise = i'.noise; conn = record { client = c; incoming = rest; wire = w } },
        )
  unfolding await_auth
  await_auth-Completes f packets rest n i' c w e p =
      rw (recv_one_frame-Completes codec snow config.max_payload_bytes f rest n i' packets p, e)
        refl

  pub judge-verdict :
      (o : AuthOutcome) (s : Securing snow)
      → ((judge codec snow sink config o s).0 ≡ verdict o)
        × ((judge codec snow sink config o s).1.conn.client.states
            ≡ s.conn.client.states ++ published o)
        × ((judge codec snow sink config o s).1.conn.wire ≡ s.conn.wire)
        × ((judge codec snow sink config o s).1.noise ≡ s.noise)
        × SameCalls s.conn.client (judge codec snow sink config o s).1.conn.client
  unfolding judge publish_state publish
  judge-verdict success s =
      (refl, sym (append-nil s.conn.client.states), refl, refl, (refl, refl, refl, refl, refl))
  judge-verdict AuthOutcome.unauthorized s =
      (refl, refl, refl, refl, (refl, refl, refl, refl, refl))
  judge-verdict failed s =
      (refl, sym (append-nil s.conn.client.states), refl, refl, (refl, refl, refl, refl, refl))
  judge-verdict (retry_with_new_payload bytes) s =
      (refl, sym (append-nil s.conn.client.states), refl, refl, (refl, refl, refl, refl, refl))

  -- The authentication, from what the sending does and what the answer makes.
  pub handle_auth-steps :
      (auth : AuthHandler) (bytes encoded : List ℕ) (f : Frame) (packets : List (List ℕ))
      (rest : Incoming) (n : NoiseSession snow) (k : Conn) (l : Link snow WsMessage)
      (i' : Inbound snow)
      → auth.auth_payload ≡ some bytes
      → encode_frame codec (auth_frame bytes) ≡ ok encoded
      → send_encrypted codec snow sink WsMessage.binary encoded
          (record { noise = n; wire = k.wire })
        ≡ (true, l)
      → f.id ≡ 1
      → Completes codec snow config.max_payload_bytes f
          (record { noise = l.noise; accumulator = fresh })
          packets
          i'
      → handle_auth codec snow sink config auth true (record {
        noise = n;
        conn = record k {
          incoming = map (packet_message codec snow config.max_payload_bytes) packets ++ rest;
        };
      })
        ≡ judge codec snow sink config (auth.process_auth_response f.payload) (record {
          noise = i'.noise;
          conn = record {
            client = publish waiting_for_auth k.client;
            incoming = rest;
            wire = l.wire;
          };
        })
  unfolding handle_auth publish_state
  handle_auth-steps auth bytes encoded f packets rest n k l i' a e s d c =
      let incoming = map (packet_message codec snow config.max_payload_bytes) packets ++ rest in
      let c' = publish waiting_for_auth k.client in
      let s' : Securing snow = record {
        noise = n;
        conn = record { client = c'; incoming = incoming; wire = k.wire };
      } in
      rw
        (
          a,
          encode_auth-ok bytes encoded s' e,
          send_auth-ok encoded s' l s,
          await_auth-Completes f packets rest l.noise i' c' l.wire d c,
        )
        refl
