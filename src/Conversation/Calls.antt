-- ===== src/Conversation/Calls.antt =====
-- Any number of requests of src/ws/client/mod.rs, one after the other, over one connection.
use notifiapp_transport.Common.{
  ℕ, suc, ◌+◌, ◌%◌, ◌^◌, ◌<◌, ◌≡◌, sym, ap, ◌∙◌, subst, List, [], ◌∷◌, ◌++◌, true, Result, ok,
  length, arith, append-nil, append_assoc, lt→ltb, Bool-cases, inl, inr,
}
use notifiapp_transport.Error.{TransportError}
use notifiapp_transport.Scheduler.Levels.{MessagePriority, normal}
use notifiapp_transport.Frame.{Frame}
use notifiapp_transport.Crypto.{Snow}
use notifiapp_transport.Crypto.Transport.{Channel}
use notifiapp_transport.Wire.Sending.{IsUp}
use notifiapp_transport.Wire.EndToEnd.{IsLawful}
use notifiapp_transport.Client.State.{Client, request_start, dispatch_frame, contains}
use notifiapp_transport.Client.Requests.{request_start-dispatch_frame}
use notifiapp_transport.Client.Login.{Fits, IsDuplex}
use notifiapp_transport.Client.Loop
use notifiapp_transport.Client.Loop.{Loop}
use notifiapp_transport.Server.Session
use notifiapp_transport.Server.Session.{Session}
use notifiapp_transport.Conversation.Ledger.{message_of}
use notifiapp_transport.Conversation.{
  with_client-Linked, Linked, Asked, Answered, ask-Asked, answer-Answered,
}

-- A payload, and the response to it.
abbrev pub Call : Type 0
Call = List ℕ × List ℕ

-- The requests and the answers, from an identifier on.
unfoldable pub requests : ℕ → List Call → List Frame
requests id [] = []
requests id ((payload, response) ∷ calls) = message_of id payload ∷ requests (suc id) calls

unfoldable pub responses : ℕ → List Call → List (ℕ × Result (List ℕ) TransportError)
responses id [] = []
responses id ((payload, response) ∷ calls) = (id, ok response) ∷ responses (suc id) calls

-- The client behind `request`, up to the send, and behind the response.
abbrev pub asking : List ℕ → Client → Client
asking payload c = (request_start payload c).1

pub joined :
    {A : Type 0} {m n : ℕ} {xs ys : List A} (f : ℕ → List A)
    → xs ≡ ys
    → m ≡ n
    → xs ++ f m ≡ ys ++ f n
joined f e q = λ i. e i ++ f (q i)

module _ (snow : Snow) (ch : Channel snow) (server_env : Session.Setting snow)
    (env : Loop.Setting snow) where
  unfoldable pub AllFit : ℕ → List Call → Type 0
  AllFit id [] = Unit
  AllFit id ((payload, response) ∷ calls) =
      Fits server_env.codec server_env.max_bytes (message_of id payload)
      × Fits server_env.codec env.max_payload_bytes (message_of id response)
      × AllFit (suc id) calls

  abbrev pub with_request : List ℕ → Loop snow → Loop snow
  with_request payload s = record s { client = asking payload s.client }

  -- A run of both ends through some calls: the request goes there, and its response comes back.
  pub data Conversation
      : Loop snow → Session snow → List Call → Loop snow → Session snow → Type 0 where
    over : {s : Loop snow} {z : Session snow} → Conversation s z [] s z
    call :
        {s s' : Loop snow} {z z' : Session snow} {calls : List Call} (payload response : List ℕ)
        (p : MessagePriority) (now : ℕ)
        (asked : Asked snow ch server_env env
          (message_of s.client.next_id payload)
          p
          now
          (with_request payload s)
          z)
        (answered : Answered snow ch server_env env
          (message_of s.client.next_id response)
          normal
          now
          asked.s'
          asked.z')
        → Conversation answered.s' answered.z' calls s' z'
        → Conversation s z ((payload, response) ∷ calls) s' z'

  -- What the client keeps from one call to the next.
  dispatch-next_id :
      (payload response : List ℕ) (c : Client)
      → 0 < c.next_id
      → suc c.next_id < 2 ^ 32
      → (dispatch_frame env.admits (message_of c.next_id response) (asking payload c)).next_id
        ≡ suc c.next_id
  unfolding dispatch_frame request_start
  dispatch-next_id payload response c h k =
      let n : (c.next_id + 1) % 2 ^ 32 ≡ suc c.next_id = omega (arith, k) in
      let asked = (asking payload c).pending in
      rw (lt→ltb 0 c.next_id h)
        (elim (Bool-cases (contains c.next_id asked)) [ inl e ↦ rw (e) n | inr e ↦ rw (e) n ])

  dispatch-answered :
      (payload response : List ℕ) (c : Client)
      → 0 < c.next_id
      → (dispatch_frame env.admits (message_of c.next_id response) (asking payload c)).answered
        ≡ c.answered ++ ((c.next_id, ok response) ∷ [])
  unfolding request_start
  dispatch-answered payload response c h =
      (request_start-dispatch_frame env.admits payload response [] c h tt).0

  abbrev pub Follows : List Call → Loop snow → Session snow → Type 0
  Follows calls s z =
      (s' : Loop snow) × (z' : Session snow) × Conversation s z calls s' z'
      × (s'.client.answered ≡ s.client.answered ++ responses s.client.next_id calls)
      × (z'.inbox ≡ z.inbox ++ requests s.client.next_id calls)

  module _ (lawful : IsLawful server_env.codec) (up : IsUp env.sink) (up' : IsUp server_env.sink)
      (duplex : IsDuplex snow ch) (reader : (n : ℕ) → server_env.reader n ≡ true) where
    -- While both sinks are up, the codec is lawful, the Noise ends agree in both directions, and
    -- the inbox always has a reader: from a message loop and a session that are idle and agree,
    -- any calls whose frames fit the limits and whose identifiers are not zero and do not wrap run
    -- to their end, the packets that one end sends for a request or a response being taken in by
    -- the other; the client then has answered just these calls, each by its response under its own
    -- identifier, and the inbox has got just their requests, in order.
    pub calls-Conversation :
        (calls : List Call) (p : MessagePriority) (now : ℕ) (s : Loop snow) (z : Session snow)
        → Linked snow ch server_env env s z
        → AllFit s.client.next_id calls
        → 0 < s.client.next_id
        → s.client.next_id + length calls < 2 ^ 32
        → Follows calls s z
    unfolding AllFit responses requests
    calls-Conversation [] p now s z l fits h k =
        (s, z, over, sym (append-nil s.client.answered), sym (append-nil z.inbox))
    calls-Conversation ((payload, response) ∷ calls) p now s z l (f, g, fits) h k =
        let id = s.client.next_id in
        let a =
          ask-Asked snow ch server_env env lawful up up' duplex (message_of id payload) p now
            (with_request payload s) z tt f (reader z.offered)
            (with_client-Linked snow ch server_env env (asking payload s.client) s z l) in
        let b =
          answer-Answered snow ch server_env env lawful up up' duplex (message_of id response)
            normal now a.s' a.z' g a.linked in
        let client =
          b.dispatched ∙ ap (dispatch_frame env.admits (message_of id response)) a.client_kept in
        let next : b.s'.client.next_id ≡ suc id =
          ap (λ c. c.next_id) client
          ∙ dispatch-next_id payload response s.client h (omega (arith, k)) in
        let answers = ap (λ c. c.answered) client ∙ dispatch-answered payload response s.client h in
        let arrived = b.inbox_kept ∙ a.inbox in
        let (s', z', talk, answered, inbox) =
          calls-Conversation calls p now b.s' b.z' b.linked
            (subst (λ n. AllFit n calls) (sym next) fits) (omega (arith, next))
            (omega (arith, next, k)) in
        (
          s',
          z',
          call payload response p now a b talk,
          answered
              ∙ joined (λ n. responses n calls) answers next
              ∙ append_assoc s.client.answered ((id, ok response) ∷ []) (responses (suc id) calls),
          inbox
              ∙ joined (λ n. requests n calls) arrived next
              ∙ append_assoc z.inbox (message_of id payload ∷ []) (requests (suc id) calls),
        )
