-- ===== src/Client/State.antt =====
-- `WsClient` of src/ws/client/mod.rs: the state that its methods and its background task share.
-- The channel of commands is seen from its sending end: which commands it took, and what its n-th
-- `try_send` answers, which is tokio's to say. `pending` is a map, kept as the list of its keys; what
-- goes through the oneshot senders, to the event handlers and to the watch channel is logged, oldest
-- first.
use notifiapp_transport.Common.{
  ℕ, suc, ◌+◌, ◌%◌, ◌^◌, List, [], ◌∷◌, ◌++◌, Bool, true, false, Option, none, some, Text, Result,
  ok, err, ◌==◌, ltb, if◌then◌else◌,
}
use notifiapp_transport.Error.{
  TransportError, channel_error, request_timeout, buffer_full, invalid_url,
}
use notifiapp_transport.State.{ConnectionState, disconnected}
use notifiapp_transport.Scheduler.Levels.{MessagePriority, real_time}
use notifiapp_transport.Frame.{Frame, FrameKind, message, event, ping, pong}

-- src/ws/client/cmd.rs.
pub data ClientCmd : Type 0 where
  send : Frame → MessagePriority → ClientCmd
  endpoint_changed reconnect wake_up : ClientCmd

pub data TrySendError : Type 0 where
  full closed : TrySendError

-- What the n-th `try_send` on the channel of commands answers; `none` is success.
abbrev pub Admission : Type 0
Admission = ℕ → Option TrySendError

pub record Client : Type 0 where
  pub next_id : ℕ
  pub states : List ConnectionState
  pub tries : ℕ
  pub commands : List ClientCmd
  pub pending : List ℕ
  pub answered : List (ℕ × Result (List ℕ) TransportError)
  -- The handler that is registered, and the events handed out with the handler that got each.
  pub event_handler : Option ℕ
  pub events : List (ℕ × List ℕ)
  pub url : Option Text
  pub auto_reconnect : Bool
  pub cancelled : Bool

-- `WsClient::new`: the identifiers 0 and 1 are for events and for authentication.
unfoldable pub new : Client
new = record {
  next_id = 2;
  states = disconnected ∷ [];
  tries = 0;
  commands = [];
  pending = [];
  answered = [];
  event_handler = none;
  events = [];
  url = none;
  auto_reconnect = true;
  cancelled = false;
}

-- The calls on the maps of pending requests.
unfoldable pub contains : ℕ → List ℕ → Bool
contains id [] = false
contains id (x ∷ xs) = if x == id then true else contains id xs

unfoldable pub remove : ℕ → List ℕ → List ℕ
remove id [] = []
remove id (x ∷ xs) = if x == id then remove id xs else x ∷ remove id xs

-- `self.state_tx.send(state).ok()`.
unfoldable pub publish : ConnectionState → Client → Client
publish state c = record c { states = c.states ++ (state ∷ []) }

-- `self.pending.retain(|_, _| false)`: every sender is dropped.
unfoldable pub drop_pending : Client → Client
drop_pending c = record c { pending = [] }

module _ (admits : Admission) where
  unfoldable pub try_send : ClientCmd → Client → Option TrySendError × Client
  try_send cmd c = elim (admits c.tries) [
    | none ↦ (none, record c { tries = suc c.tries; commands = c.commands ++ (cmd ∷ []) })
    | some e ↦ (some e, record c { tries = suc c.tries })
  ]

  -- Whether a text parses as a URL is for the crate url to say.
  unfoldable pub set_endpoint :
      (Text → Bool) → Text → Client → Result (Unit {0}) TransportError × Client
  set_endpoint is_url url_str c =
      if is_url url_str
      then (ok tt, (try_send endpoint_changed (record c { url = some url_str })).1)
      else (err (invalid_url url_str), c)

  unfoldable pub clear_endpoint : Client → Client
  clear_endpoint c = (try_send endpoint_changed (record c { url = none })).1

  unfoldable pub reconnect_now : Client → Client
  reconnect_now c = (try_send reconnect c).1

  unfoldable pub set_auto_reconnect : Bool → Client → Client
  set_auto_reconnect enabled c =
      if enabled
      then reconnect_now (record c { auto_reconnect = true })
      else record c { auto_reconnect = false }

  unfoldable pub wake : Client → Client
  wake c = (try_send wake_up c).1

  to_transport : Option TrySendError → Result (Unit {0}) TransportError
  to_transport none = ok tt
  to_transport (some full) = err buffer_full
  to_transport (some closed) = err channel_error

  unfoldable pub send_event :
      List ℕ → MessagePriority → Client → Result (Unit {0}) TransportError × Client
  unfolding to_transport
  send_event payload priority c =
      let (answer, c') =
        try_send (send (record { id = 0; kind = event; payload = payload }) priority) c in
      (to_transport answer, c')

  -- The event handler, if one is registered, gets the bytes.
  unfoldable pub hand_out : Option ℕ → List ℕ → Client → Client
  hand_out none payload c = c
  hand_out (some h) payload c = record c { events = c.events ++ ((h, payload) ∷ []) }

  answer_pending : ℕ → List ℕ → Client → Client
  answer_pending id payload c =
      if contains id c.pending
      then record c {
        pending = remove id c.pending;
        answered = c.answered ++ ((id, ok payload) ∷ []);
      }
      else c

  dispatch_kind : FrameKind → Frame → Client → Client
  dispatch_kind message f c =
      if ltb 0 f.id then answer_pending f.id f.payload c else hand_out c.event_handler f.payload c
  dispatch_kind event f c = hand_out c.event_handler f.payload c
  dispatch_kind pong f c = c
  dispatch_kind ping f c =
      (try_send (send (record { id = 0; kind = pong; payload = [] }) real_time) c).1

  unfoldable pub dispatch_frame : Frame → Client → Client
  unfolding dispatch_kind answer_pending hand_out
  dispatch_frame f c = dispatch_kind f.kind f c

unfoldable pub on_event : ℕ → Client → Client
on_event handler c = record c { event_handler = some handler }

unfoldable pub shutdown : Client → Client
shutdown c = record c { cancelled = true }

-- `request` up to its first await: the identifier is taken, the sender stored, and the frame made.
unfoldable pub request_start : List ℕ → Client → Frame × Client
request_start payload c = (
  record { id = c.next_id; kind = message; payload = payload },
  record c { next_id = (c.next_id + 1) % 2 ^ 32; pending = c.next_id ∷ remove c.next_id c.pending },
)

-- `send(..).await` on the channel: a closed channel is the error.
unfoldable pub request_send :
    Bool → Frame → MessagePriority → Client → Result (Unit {0}) TransportError × Client
request_send is_open frame priority c =
    if is_open
    then (ok tt, record c { commands = c.commands ++ (send frame priority ∷ []) })
    else (err channel_error, c)

-- What the await of the answer gives.
pub data Awaited : Type 0 where
  answer : Result (List ℕ) TransportError → Awaited
  sender_dropped timed_out : Awaited

unfoldable pub request_end : ℕ → Awaited → Client → Result (List ℕ) TransportError × Client
request_end id (answer r) c = (r, c)
request_end id sender_dropped c = (err channel_error, record c { pending = remove id c.pending })
request_end id timed_out c = (err request_timeout, record c { pending = remove id c.pending })
