-- ===== src/Conversation/Talk.antt =====
-- What both applications do over one connection, in any order: requests, responses and events of
-- src/ws/client/mod.rs and src/ws/server/handle.rs, each carried to the other end.
use notifiapp_transport.Common.{ℕ, suc, ◌^◌, ◌<◌, ◌≡◌, List, [], ◌∷◌, ◌++◌, ok}
use notifiapp_transport.Scheduler.Levels.{MessagePriority, normal}
use notifiapp_transport.Frame.{Frame, ping, pong}
use notifiapp_transport.Crypto.{Snow}
use notifiapp_transport.Crypto.Transport.{Channel}
use notifiapp_transport.Client.State.{Client, Admission, send_event}
use notifiapp_transport.Client.Login.{Fits}
use notifiapp_transport.Client.Loop
use notifiapp_transport.Client.Loop.{Loop}
use notifiapp_transport.Server.Session
use notifiapp_transport.Server.Session.{Session, SessionCmd, send, control_frame}
use notifiapp_transport.Server.Handle
use notifiapp_transport.Server.Handle.{ServerSessionHandle, push_event}
use notifiapp_transport.Conversation.{with_client, Linked, Asked, Answered}
use notifiapp_transport.Conversation.Heartbeat.{Beat}
use notifiapp_transport.Conversation.Ledger.{
  Act, request, tell, respond, push, beat, message_of, event_of, Ledger, view, settle_all,
  requested, next,
}

module _ (snow : Snow) (ch : Channel snow) (server_env : Session.Setting snow)
    (env : Loop.Setting snow) (handle_admits : Admission) where
  -- The client's message loop, a handle of the session, and the session.
  pub record Ends : Type 0 where
    pub s : Loop snow
    pub h : ServerSessionHandle
    pub z : Session snow

  abbrev pub Asks : Client → Frame → MessagePriority → ℕ → Ends → Type 0
  Asks c f p now w =
      Asked snow ch server_env env f p now (with_client snow ch server_env env c w.s) w.z

  abbrev pub Answers : Frame → MessagePriority → ℕ → Ends → Type 0
  Answers f p now w = Answered snow ch server_env env f p now w.s w.z

  -- A run of both ends: each call queues its frame, the loop or the session sends it, and the
  -- other one takes its packets in.
  pub data Talk : Ends → List Act → Ends → Type 0 where
    over : {w : Ends} → Talk w [] w
    asking :
        {w w' : Ends} {acts : List Act} (payload : List ℕ) (p : MessagePriority) (now : ℕ)
        (a : Asks (requested payload p w.s.client) (message_of w.s.client.next_id payload) p now w)
        → Talk (record w { s = a.s'; z = a.z' }) acts w'
        → Talk w (request payload p ∷ acts) w'
    telling :
        {w w' : Ends} {acts : List Act} (payload : List ℕ) (p : MessagePriority) (now : ℕ)
        → (send_event env.admits payload p w.s.client).0 ≡ ok tt
        → (a : Asks (send_event env.admits payload p w.s.client).1 (event_of payload) p now w)
        → Talk (record w { s = a.s'; z = a.z' }) acts w'
        → Talk w (tell payload p ∷ acts) w'
    responding :
        {w w' : Ends} {acts : List Act} (id : ℕ) (payload : List ℕ) (now : ℕ)
        (h : ServerSessionHandle)
        → Handle.respond handle_admits id payload w.h ≡ (ok tt, h)
        → h.commands ≡ w.h.commands ++ (send (message_of id payload) normal ∷ [])
        → (a : Answers (message_of id payload) normal now w)
        → Talk (record { s = a.s'; h = h; z = a.z' }) acts w'
        → Talk w (respond id payload ∷ acts) w'
    pushing :
        {w w' : Ends} {acts : List Act} (payload : List ℕ) (p : MessagePriority) (now : ℕ)
        (h : ServerSessionHandle)
        → push_event handle_admits payload p w.h ≡ (ok tt, h)
        → h.commands ≡ w.h.commands ++ (send (event_of payload) p ∷ [])
        → (a : Answers (event_of payload) p now w)
        → Talk (record { s = a.s'; h = h; z = a.z' }) acts w'
        → Talk w (push payload p ∷ acts) w'
    beating :
        {w w' : Ends} {acts : List Act} (now : ℕ) (b : Beat snow ch server_env env now w.s w.z)
        → Talk (record w { s = b.s'; z = b.z' }) acts w'
        → Talk w (beat ∷ acts) w'

  -- The frames fit the limits, and the identifiers do not wrap.
  unfoldable pub Fitting : ℕ → Act → Type 0
  Fitting n (request payload p) =
      Fits server_env.codec server_env.max_bytes (message_of n payload) × (suc n < 2 ^ 32)
  Fitting n (tell payload p) = Fits server_env.codec server_env.max_bytes (event_of payload)
  Fitting n (respond id payload) =
      Fits server_env.codec env.max_payload_bytes (message_of id payload)
  Fitting n (push payload p) = Fits server_env.codec env.max_payload_bytes (event_of payload)
  Fitting n beat =
      Fits server_env.codec env.max_payload_bytes (control_frame ping)
      × Fits server_env.codec server_env.max_bytes (control_frame pong)

  unfoldable pub AllFit : ℕ → List Act → Type 0
  AllFit n [] = Unit
  AllFit n (a ∷ acts) = Fitting n a × AllFit (next a n) acts

  abbrev pub view_of : Ends → Ledger
  view_of w = view w.s.client w.z.inbox

  -- The run comes to an end that has the wanted view, and both ends agree again.
  pub record Settles (w : Ends) (acts : List Act) : Type 0 where
    pub w' : Ends
    pub talk : Talk w acts w'
    pub linked : Linked snow ch server_env env w'.s w'.z
    pub settled : view_of w' ≡ settle_all acts (view_of w)
