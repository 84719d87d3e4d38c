-- ===== src/Server/Handle.antt =====
-- `ServerSessionHandle` of src/ws/server/handle.rs, and its answers as a client takes them.
pub mod Holders
pub mod Ending
use notifiapp_transport.Common.{
  ℕ, suc, ◌+◌, ◌-◌, ◌<◌, ◌==◌, if◌then◌else◌, ◌≡◌, refl, List, [], ◌∷◌, ◌++◌, Option, none, some,
  Result, ok, err,
}
use notifiapp_transport.Error.{TransportError, buffer_full, channel_error}
use notifiapp_transport.Scheduler.Levels.{MessagePriority, normal}
use notifiapp_transport.Frame.{Frame, message, event}
use notifiapp_transport.Client.State.{
  Client, Admission, TrySendError, full, closed, request_start, dispatch_frame,
}
use notifiapp_transport.Client.Requests.{request_start-dispatch_frame}
use notifiapp_transport.Server.Session.{SessionCmd, send, close}

-- The channel of commands from its sending end: the calls of `try_send`, the commands it took, and
-- the handles that share it: those in use, and those whose `drop` has run but which are not yet
-- released. The `Arc`'s strong count counts both.
pub record ServerSessionHandle : Type 0 where
  pub in_use : ℕ
  pub dropping : ℕ
  pub tries : ℕ
  pub commands : List SessionCmd

module _ (admits : Admission) where
  unfoldable pub try_send :
      SessionCmd → ServerSessionHandle → Option TrySendError × ServerSessionHandle
  try_send cmd h = elim (admits h.tries) [
    | none ↦ (none, record h { tries = suc h.tries; commands = h.commands ++ (cmd ∷ []) })
    | some e ↦ (some e, record h { tries = suc h.tries })
  ]

  to_transport : Option TrySendError → Result (Unit {0}) TransportError
  to_transport none = ok tt
  to_transport (some full) = err buffer_full
  to_transport (some closed) = err channel_error

  unfoldable pub respond :
      ℕ → List ℕ → ServerSessionHandle → Result (Unit {0}) TransportError × ServerSessionHandle
  unfolding to_transport
  respond id payload h =
      let (answer, h') =
        try_send (send (record { id = id; kind = message; payload = payload }) normal) h in
      (to_transport answer, h')

  unfoldable pub push_event :
      List ℕ
      → MessagePriority
      → ServerSessionHandle
      → Result (Unit {0}) TransportError × ServerSessionHandle
  unfolding to_transport
  push_event payload priority h =
      let (answer, h') =
        try_send (send (record { id = 0; kind = event; payload = payload }) priority) h in
      (to_transport answer, h')

  unfoldable pub close_session : ServerSessionHandle → ServerSessionHandle
  close_session h = (try_send close h).1

  unfoldable pub clone : ServerSessionHandle → ServerSessionHandle
  clone h = record h { in_use = suc h.in_use }

  -- `Drop::drop`: it reads the count, and leaves it as it is.
  unfoldable pub drop : ServerSessionHandle → ServerSessionHandle
  drop h =
      let told = if h.in_use + h.dropping == 1 then (try_send close h).1 else h in
      record told { in_use = h.in_use - 1; dropping = suc h.dropping }

  -- Behind it, and apart from it, the handle's `Arc` is dropped.
  unfoldable pub release : ServerSessionHandle → ServerSessionHandle
  release h = record h { dropping = h.dropping - 1 }

  -- While the channel of commands takes it, respond with the identifier of a request queues one
  -- frame at normal priority, and the client that has made the request, with a non-zero
  -- identifier, answers it with the payload of that frame when it is dispatched.
  pub respond-answers :
      (client_admits : Admission) (payload reply : List ℕ) (h : ServerSessionHandle) (c : Client)
      → admits h.tries ≡ none
      → 0 < c.next_id
      → (f : Frame) × (respond c.next_id reply h ≡ (
        ok tt,
        record h { tries = suc h.tries; commands = h.commands ++ (send f normal ∷ []) },
      ))
        × ((dispatch_frame client_admits f (request_start payload c).1).answered
            ≡ (request_start payload c).1.answered ++ ((c.next_id, ok reply) ∷ []))
  unfolding respond try_send
  respond-answers client_admits payload reply h c a p = (
    record { id = c.next_id; kind = message; payload = reply },
    rw (respond, try_send, a) refl,
    (request_start-dispatch_frame client_admits payload reply [] c p tt).0,
  )
