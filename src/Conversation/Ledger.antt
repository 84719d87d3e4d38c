-- ===== src/Conversation/Ledger.antt =====
-- What the applications at both ends of a connection see of src/ws/client/mod.rs and
-- src/ws/server/handle.rs: an abstract account of the requests, responses and events.
use notifiapp_transport.Common.{
  ℕ, suc, ◌+◌, ◌%◌, ◌^◌, ◌<◌, ◌≡◌, refl, ap, List, [], ◌∷◌, ◌++◌, Bool, true, false, Option, none,
  some, Result, ok, ◌==◌, ltb, Option-cases, sym, ◌∙◌, if◌then◌else◌, arith, Bool-cases, inl, inr,
}
use mathlib.Core.Path.{fun_ext}
use notifiapp_transport.Error.{TransportError}
use notifiapp_transport.Scheduler.Levels.{MessagePriority}
use notifiapp_transport.Frame.{Frame, message, event}
use notifiapp_transport.Client.State.{
  Client, Admission, request_start, request_send, send_event, dispatch_frame, contains, remove,
  hand_out, try_send,
}
use notifiapp_transport.Client.Requests.{
  contains-remove_self, contains-remove_ne, same_id, other_id,
}

-- A call of an application: `request` and `send_event` of a client, `respond` and `push_event` of
-- a handle.
pub data Act : Type 0 where
  request : (payload : List ℕ) (p : MessagePriority) → Act
  tell : (payload : List ℕ) (p : MessagePriority) → Act
  respond : (id : ℕ) (payload : List ℕ) → Act
  push : (payload : List ℕ) (p : MessagePriority) → Act
  -- The heartbeat timer of the session fires.
  beat : Act

abbrev pub message_of : ℕ → List ℕ → Frame
message_of id payload = record { id = id; kind = message; payload = payload }

abbrev pub event_of : List ℕ → Frame
event_of payload = record { id = 0; kind = event; payload = payload }

-- The identifiers that wait for a response are a set here.
pub record Ledger : Type 0 where
  pub next_id : ℕ
  pub waiting : ℕ → Bool
  pub answered : List (ℕ × Result (List ℕ) TransportError)
  pub handler : Option ℕ
  pub events : List (ℕ × List ℕ)
  pub inbox : List Frame

abbrev pub view : Client → List Frame → Ledger
view c inbox = record {
  next_id = c.next_id;
  waiting = λ id. contains id c.pending;
  answered = c.answered;
  handler = c.event_handler;
  events = c.events;
  inbox = inbox;
}

handed : Option ℕ → List ℕ → List (ℕ × List ℕ) → List (ℕ × List ℕ)
handed none payload events = events
handed (some h) payload events = events ++ ((h, payload) ∷ [])

-- A response counts if its request waits for it, and only once; without an identifier it is an
-- event.
unfoldable pub settle : Act → Ledger → Ledger
unfolding handed
settle (request payload p) l = record l {
  next_id = suc l.next_id;
  waiting = λ id. if l.next_id == id then true else l.waiting id;
  inbox = l.inbox ++ (message_of l.next_id payload ∷ []);
}
settle (tell payload p) l = record l { inbox = l.inbox ++ (event_of payload ∷ []) }
settle (respond id payload) l =
    if id == 0
    then record l { events = handed l.handler payload l.events }
    else (if l.waiting id
        then record l {
          waiting = λ x. if id == x then false else l.waiting x;
          answered = l.answered ++ ((id, ok payload) ∷ []);
        }
        else l)
settle (push payload p) l = record l { events = handed l.handler payload l.events }
settle beat l = l

unfoldable pub settle_all : List Act → Ledger → Ledger
settle_all [] l = l
settle_all (a ∷ as') l = settle_all as' (settle a l)

unfoldable pub next : Act → ℕ → ℕ
next (request payload p) n = suc n
next _ n = n

pub settle-next_id : (a : Act) (l : Ledger) → (settle a l).next_id ≡ next a l.next_id
unfolding settle next
settle-next_id (request payload p) l = refl
settle-next_id (tell payload p) l = refl
settle-next_id (respond id payload) l = elim (Bool-cases (id == 0)) [
  | inl z ↦ rw (z) refl
  | inr z ↦ rw (z) (elim (Bool-cases (l.waiting id)) [ inl w ↦ rw (w) refl | inr w ↦ rw (w) refl ])
]
settle-next_id (push payload p) l = refl
settle-next_id beat l = refl

contains-remove :
    (id x : ℕ) (xs : List ℕ)
    → contains x (remove id xs) ≡ (if id == x then false else contains x xs)
contains-remove id x xs = elim (Bool-cases (id == x)) [
  | inl q ↦
      rw q (ap (λ y. contains y (remove id xs)) (sym (same_id id x q)) ∙ contains-remove_self id xs)
  | inr q ↦ rw q (contains-remove_ne x id xs (other_id id x q))
]

waiting_again :
    (id : ℕ) (xs : List ℕ) (x : ℕ)
    → contains x (id ∷ remove id xs) ≡ (if id == x then true else contains x xs)
unfolding contains
waiting_again id xs x = ground (arith, contains-remove id x xs)

next_id : (n : ℕ) → suc n < 2 ^ 32 → (n + 1) % 2 ^ 32 ≡ suc n
next_id n k = omega (arith, k)

ltb_zero : (id : ℕ) → (id == 0) ≡ true → ltb 0 id ≡ false
ltb_zero id z = ground arith

ltb_other : (id : ℕ) → (id == 0) ≡ false → ltb 0 id ≡ true
ltb_other id z = ground arith

-- What the client does for each act, up to the channel of commands and from the frame that arrives.
abbrev pub requested : List ℕ → MessagePriority → Client → Client
requested payload p c =
    (request_send true (message_of c.next_id payload) p (request_start payload c).1).1

pub request-view :
    (payload : List ℕ) (p : MessagePriority) (c : Client) (inbox : List Frame)
    → suc c.next_id < 2 ^ 32
    → view (requested payload p c) (inbox ++ (message_of c.next_id payload ∷ []))
      ≡ settle (request payload p) (view c inbox)
unfolding settle request_send request_start contains
request-view payload p c inbox k = λ i. record {
  next_id = next_id c.next_id k i;
  waiting = fun_ext (waiting_again c.next_id c.pending) i;
  answered = c.answered;
  handler = c.event_handler;
  events = c.events;
  inbox = inbox ++ (message_of c.next_id payload ∷ []);
}

module _ (admits : Admission) where
  hand_out-view :
      (h : Option ℕ) (payload : List ℕ) (c : Client) (inbox : List Frame)
      → view (hand_out admits h payload c) inbox
        ≡ record (view c inbox) { events = handed h payload c.events }
  unfolding hand_out handed
  hand_out-view none payload c inbox = refl
  hand_out-view (some h) payload c inbox = refl

  pub tell-view :
      (payload : List ℕ) (p : MessagePriority) (c : Client) (inbox : List Frame)
      → view (send_event admits payload p c).1 (inbox ++ (event_of payload ∷ []))
        ≡ settle (tell payload p) (view c inbox)
  unfolding settle send_event try_send
  tell-view payload p c inbox = elim (Option-cases (admits c.tries)) [
    | inl e ↦ rw (try_send, e) refl
    | inr (x, e) ↦ rw (try_send, e) refl
  ]

  pub respond-view :
      (id : ℕ) (payload : List ℕ) (c : Client) (inbox : List Frame)
      → view (dispatch_frame admits (message_of id payload) c) inbox
        ≡ settle (respond id payload) (view c inbox)
  unfolding settle dispatch_frame
  respond-view id payload c inbox = elim (Bool-cases (id == 0)) [
    | inl z ↦ rw (z, ltb_zero id z) (hand_out-view c.event_handler payload c inbox)
    | inr z ↦
        rw (z, ltb_other id z)
          (elim (Bool-cases (contains id c.pending)) [
            | inl w ↦ rw (w) (λ i. record (view c inbox) {
              waiting = fun_ext (λ x. contains-remove id x c.pending) i;
              answered = c.answered ++ ((id, ok payload) ∷ []);
            })
            | inr w ↦ rw (w) refl
          ])
  ]

  pub push-view :
      (payload : List ℕ) (p : MessagePriority) (c : Client) (inbox : List Frame)
      → view (dispatch_frame admits (event_of payload) c) inbox
        ≡ settle (push payload p) (view c inbox)
  unfolding settle dispatch_frame
  push-view payload p c inbox = hand_out-view c.event_handler payload c inbox
