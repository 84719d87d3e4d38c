-- ===== src/Conversation/Settling.antt =====
-- Any run of the calls of `Talk` comes to its end, with the wanted view.
use notifiapp_transport.Common.{
  ℕ, suc, ◌≡◌, refl, sym, ap, ◌∙◌, subst, List, [], ◌∷◌, ◌++◌, true, none, ok,
}
use notifiapp_transport.Scheduler.Levels.{MessagePriority, normal}
use notifiapp_transport.Frame.{Frame}
use notifiapp_transport.Crypto.{Snow}
use notifiapp_transport.Crypto.Transport.{Channel}
use notifiapp_transport.Wire.Sending.{IsUp}
use notifiapp_transport.Wire.EndToEnd.{IsLawful}
use notifiapp_transport.Client.State
use notifiapp_transport.Client.State.{Client, Admission, send_event}
use notifiapp_transport.Client.Login.{Fits, IsDuplex}
use notifiapp_transport.Client.Loop
use notifiapp_transport.Client.Loop.{Loop}
use notifiapp_transport.Server.Session
use notifiapp_transport.Server.Session.{Session, SessionCmd, send, control_frame}
use notifiapp_transport.Server.Delivery.{IsApplication}
use notifiapp_transport.Server.Handle
use notifiapp_transport.Server.Handle.{ServerSessionHandle, push_event}
use notifiapp_transport.Conversation.{
  with_client, with_client-Linked, Linked, ask-Asked, answer-Answered,
}
use notifiapp_transport.Conversation.Heartbeat.{heartbeat-Beat}
use notifiapp_transport.Conversation.Ledger.{
  Act, request, tell, respond, push, beat, message_of, event_of, view, settle, settle_all,
  requested, settle-next_id, request-view, tell-view, respond-view, push-view,
}
use notifiapp_transport.Conversation.Talk.{
  Ends, Asks, Answers, Talk, over, asking, telling, responding, pushing, beating, Fitting, AllFit,
  view_of, Settles,
}

module _ (snow : Snow) (ch : Channel snow) (server_env : Session.Setting snow)
    (env : Loop.Setting snow) (handle_admits : Admission) where
  abbrev queued : SessionCmd → ServerSessionHandle → ServerSessionHandle
  queued cmd h = record h { tries = suc h.tries; commands = h.commands ++ (cmd ∷ []) }

  -- One call, before any others.
  record Step (a : Act) (w : Ends snow ch server_env env handle_admits) : Type 0 where
    w1 : Ends snow ch server_env env handle_admits
    talk :
        (acts : List Act) (w' : Ends snow ch server_env env handle_admits)
        → Talk snow ch server_env env handle_admits w1 acts w'
        → Talk snow ch server_env env handle_admits w (a ∷ acts) w'
    linked : Linked snow ch server_env env w1.s w1.z
    settled :
        view_of snow ch server_env env handle_admits w1
        ≡ settle a (view_of snow ch server_env env handle_admits w)

  module _ (lawful : IsLawful server_env.codec) (up : IsUp env.sink) (up' : IsUp server_env.sink)
      (duplex : IsDuplex snow ch) (reader : (n : ℕ) → server_env.reader n ≡ true)
      (room : (n : ℕ) → env.admits n ≡ none) (room' : (n : ℕ) → handle_admits n ≡ none)
      (now : ℕ) where
    tell-ok :
        (payload : List ℕ) (p : MessagePriority) (c : Client)
        → (send_event env.admits payload p c).0 ≡ ok tt
    unfolding send_event State.try_send
    tell-ok payload p c = rw (State.try_send, room c.tries) refl

    respond-ok :
        (id : ℕ) (payload : List ℕ) (h : ServerSessionHandle)
        → Handle.respond handle_admits id payload h
          ≡ (ok tt, queued (send (message_of id payload) normal) h)
    unfolding Handle.respond Handle.try_send
    respond-ok id payload h = rw (Handle.try_send, room' h.tries) refl

    push-ok :
        (payload : List ℕ) (p : MessagePriority) (h : ServerSessionHandle)
        → push_event handle_admits payload p h ≡ (ok tt, queued (send (event_of payload) p) h)
    unfolding push_event Handle.try_send
    push-ok payload p h = rw (Handle.try_send, room' h.tries) refl

    asked :
        (c : Client) (f : Frame) (p : MessagePriority)
        (w : Ends snow ch server_env env handle_admits)
        → IsApplication snow server_env f.kind
        → Fits server_env.codec server_env.max_bytes f
        → Linked snow ch server_env env w.s w.z
        → Asks snow ch server_env env handle_admits c f p now w
    asked c f p w k fits l =
        ask-Asked snow ch server_env env lawful up up' duplex f p now
          (with_client snow ch server_env env c w.s) w.z k fits (reader w.z.offered)
          (with_client-Linked snow ch server_env env c w.s w.z l)

    answered :
        (f : Frame) (p : MessagePriority) (w : Ends snow ch server_env env handle_admits)
        → Fits server_env.codec env.max_payload_bytes f
        → Linked snow ch server_env env w.s w.z
        → Answers snow ch server_env env handle_admits f p now w
    answered f p w fits l =
        answer-Answered snow ch server_env env lawful up up' duplex f p now w.s w.z fits l

    -- One call, from what carries it.
    act-Step :
        (a : Act) (w : Ends snow ch server_env env handle_admits)
        → Linked snow ch server_env env w.s w.z
        → Fitting snow ch server_env env handle_admits w.s.client.next_id a
        → Step a w
    unfolding Fitting settle
    act-Step (request payload p) w l (f, k) =
        let c = w.s.client in
        let a = asked (requested payload p c) (message_of c.next_id payload) p w tt f l in
        record {
          w1 = record w { s = a.s'; z = a.z' };
          talk = λ acts w'. asking payload p now a;
          linked = a.linked;
          settled =
              (λ i. view (a.client_kept i) (a.inbox i)) ∙ request-view payload p c w.z.inbox k;
        }
    act-Step (tell payload p) w l f =
        let c = w.s.client in
        let a = asked (send_event env.admits payload p c).1 (event_of payload) p w tt f l in
        record {
          w1 = record w { s = a.s'; z = a.z' };
          talk = λ acts w'. telling payload p now (tell-ok payload p c) a;
          linked = a.linked;
          settled =
              (λ i. view (a.client_kept i) (a.inbox i))
              ∙ tell-view env.admits payload p c w.z.inbox;
        }
    act-Step (respond id payload) w l f =
        let a = answered (message_of id payload) normal w f l in
        let h = queued (send (message_of id payload) normal) w.h in
        record {
          w1 = record { s = a.s'; h = h; z = a.z' };
          talk = λ acts w'. responding id payload now h (respond-ok id payload w.h) refl a;
          linked = a.linked;
          settled =
              (λ i. view (a.dispatched i) (a.inbox_kept i))
              ∙ respond-view env.admits id payload w.s.client w.z.inbox;
        }
    act-Step (push payload p) w l f =
        let a = answered (event_of payload) p w f l in
        let h = queued (send (event_of payload) p) w.h in
        record {
          w1 = record { s = a.s'; h = h; z = a.z' };
          talk = λ acts w'. pushing payload p now h (push-ok payload p w.h) refl a;
          linked = a.linked;
          settled =
              (λ i. view (a.dispatched i) (a.inbox_kept i))
              ∙ push-view env.admits payload p w.s.client w.z.inbox;
        }
    act-Step beat w l (f, g) =
        let b =
          heartbeat-Beat snow ch server_env env lawful up up' duplex now w.s w.z f g
            (room w.s.client.tries) l in
        record {
          w1 = record w { s = b.s'; z = b.z' };
          talk = λ acts w'. beating now b;
          linked = b.linked;
          settled = λ i. view ((b.client_kept ∙ b.queued) i) (b.inbox_kept i);
        }

    -- While both sinks are up, the codec is lawful, the Noise ends agree in both directions, the
    -- inbox always has a reader, and both channels of commands take what they are sent: from a
    -- message loop and a session that are idle and agree, any requests, responses and events of
    -- the two applications and any heartbeats of the session, in any order, whose frames fit the
    -- limits and whose identifiers do not wrap, run to their end, the packets that one end sends
    -- for a call being taken in by the other; both ends are idle and agree again, and the
    -- identifiers, the waiting requests, the answers, the events and the inbox are as the ledger
    -- has them.
    pub acts-Settles :
        (acts : List Act) (w : Ends snow ch server_env env handle_admits)
        → Linked snow ch server_env env w.s w.z
        → AllFit snow ch server_env env handle_admits w.s.client.next_id acts
        → Settles snow ch server_env env handle_admits w acts
    unfolding AllFit settle_all
    acts-Settles [] w l fits = record { w' = w; talk = over; linked = l; settled = refl }
    acts-Settles (a ∷ acts) w l (f, fits) =
        let x = act-Step a w l f in
        let e =
          ap (λ v. v.next_id) x.settled
          ∙ settle-next_id a (view_of snow ch server_env env handle_admits w) in
        let rest =
          acts-Settles acts x.w1 x.linked
            (subst (λ n. AllFit snow ch server_env env handle_admits n acts) (sym e) fits) in
        record {
          w' = rest.w';
          talk = x.talk acts rest.w' rest.talk;
          linked = rest.linked;
          settled = rest.settled ∙ ap (settle_all acts) x.settled;
        }
