-- ===== src/Client/Requests.antt =====
-- Requests and their answers in src/ws/client/mod.rs: `request` and `dispatch_frame` together.
use notifiapp_transport.Common.{
  ℕ, suc, ◌+◌, ◌≤◌, ◌<◌, ◌≡◌, ◌≢◌, refl, sym, ap, ◌∙◌, arith, List, [], ◌∷◌, ◌++◌, true, false,
  Result, ok, ◌==◌, if◌then◌else◌, Bool-cases, lt→ltb, inl, inr, All,
}
use notifiapp_transport.Error.{TransportError}
use notifiapp_transport.Scheduler.Levels.{MessagePriority}
use notifiapp_transport.Frame.{Frame, FrameKind, message, event, ping, pong}
use notifiapp_transport.Client.State.{
  Client, ClientCmd, Admission, try_send, dispatch_frame, contains, remove, request_start,
  request_send, request_end, Awaited, answer, sender_dropped, timed_out,
}

pub contains-remove_self : (id : ℕ) (xs : List ℕ) → contains id (remove id xs) ≡ false
unfolding contains remove
contains-remove_self id [] = refl
contains-remove_self id (x ∷ xs) = elim (Bool-cases (x == id)) [
  | inl q ↦ simp (q, contains-remove_self id xs)
  | inr q ↦ simp (q, contains-remove_self id xs)
]

pub contains-remove_ne :
    (id other : ℕ) (xs : List ℕ) → id ≢ other → contains id (remove other xs) ≡ contains id xs
unfolding contains remove
contains-remove_ne id other [] h = refl
contains-remove_ne id other (x ∷ xs) h = ground (arith, h, contains-remove_ne id other xs h)

-- The steps of requests, as they can come in any order.
pub data Op : Type 0 where
  start : List ℕ → Op
  dispatch : Frame → Op
  finish : ℕ → Awaited → Op

module _ (admits : Admission) where
  unfoldable pub perform : Op → Client → Client
  perform (start payload) c = (request_start payload c).1
  perform (dispatch f) c = dispatch_frame admits f c
  perform (finish id a) c = (request_end id a c).1

  unfoldable pub perform_all : List Op → Client → Client
  perform_all [] c = c
  perform_all (o ∷ os) c = perform_all os (perform o c)

-- How often an identifier was answered.
unfoldable pub answers : ℕ → List (ℕ × Result (List ℕ) TransportError) → ℕ
answers id [] = 0
answers id ((x, r) ∷ xs) = if x == id then suc (answers id xs) else answers id xs

-- Whether it is pending, as a number.
abbrev pub outstanding : ℕ → Client → ℕ
outstanding id c = if contains id c.pending then 1 else 0

module _ (admits : Admission) where
  -- How often it was given to a request.
  unfoldable pub starts : ℕ → Client → List Op → ℕ
  starts id c [] = 0
  starts id c (start payload ∷ os) =
      let rest = starts id (perform admits (start payload) c) os in
      if c.next_id == id then suc rest else rest
  starts id c (dispatch f ∷ os) = starts id (perform admits (dispatch f) c) os
  starts id c (finish x a ∷ os) = starts id (perform admits (finish x a) c) os

answers-append :
    (id x : ℕ) (r : Result (List ℕ) TransportError) (xs : List (ℕ × Result (List ℕ) TransportError))
    → answers id (xs ++ ((x, r) ∷ [])) ≡ answers id xs + (if x == id then 1 else 0)
unfolding answers
answers-append id x r [] = ground arith
answers-append id x r (y ∷ xs) = ground (arith, answers-append id x r xs)

-- The answers given and the request outstanding.
abbrev pub settled : ℕ → Client → ℕ
settled id c = answers id c.answered + outstanding id c

pub same_id : (x id : ℕ) → (x == id) ≡ true → x ≡ id
same_id x id h = ground (arith, h)

pub other_id : (x id : ℕ) → (x == id) ≡ false → id ≢ x
other_id x id h e = ground (arith, h, e)

remove-pending :
    (id x : ℕ) (xs : List ℕ)
    → contains x xs ≡ true
    → (if x == id then 1 else 0) + (if contains id (remove x xs) then 1 else 0)
      ≡ (if contains id xs then 1 else 0)
remove-pending id x xs h = elim (Bool-cases (x == id)) [
  | inl q ↦
      (let e = same_id x id q in
        simp (
          q,
          ap (λ y. contains id (remove y xs)) e ∙ contains-remove_self id xs,
          ap (λ y. contains y xs) (sym e) ∙ h,
        ))
  | inr q ↦ ground (arith, q, contains-remove_ne id x xs (other_id x id q))
]

remove-pending_le :
    (id x : ℕ) (xs : List ℕ)
    → (if contains id (remove x xs) then 1 else 0) ≤ (if contains id xs then 1 else 0)
remove-pending_le id x xs = elim (Bool-cases (x == id)) [
  | inl q ↦
      (let e = ap (λ y. contains id (remove y xs)) (same_id x id q) ∙ contains-remove_self id xs in
        ground (arith, e))
  | inr q ↦ ground (arith, contains-remove_ne id x xs (other_id x id q))
]

module _ (admits : Admission) where
  try_send-settled :
      (id : ℕ) (cmd : ClientCmd) (c : Client) → settled id (try_send admits cmd c).1 ≡ settled id c
  unfolding try_send
  try_send-settled id cmd c = ground arith

  dispatch_kind-settled :
      (id : ℕ) (kind : FrameKind) (f : Frame) (c : Client)
      → settled id (dispatch_frame admits (record f { kind = kind }) c) ≡ settled id c
  unfolding dispatch_frame
  dispatch_kind-settled id message f c = elim (Bool-cases (contains f.id c.pending)) [
    | inl q ↦ ground (
      arith,
      q,
      answers-append id f.id (ok f.payload) c.answered,
      remove-pending id f.id c.pending q,
    )
    | inr q ↦ ground (arith, q)
  ]
  dispatch_kind-settled id event f c = ground arith
  dispatch_kind-settled id pong f c = refl
  dispatch_kind-settled id ping f c = try_send-settled id _ c

  perform-settled :
      (id : ℕ) (o : Op) (c : Client)
      → settled id (perform admits o c) ≤ settled id c + starts admits id c (o ∷ [])
  unfolding perform request_start request_end contains starts
  perform-settled id (start payload) c = ground (arith, remove-pending_le id c.next_id c.pending)
  perform-settled id (dispatch f) c = omega (arith, dispatch_kind-settled id f.kind f c)
  perform-settled id (finish x (answer r)) c = omega arith
  perform-settled id (finish x sender_dropped) c = omega (arith, remove-pending_le id x c.pending)
  perform-settled id (finish x timed_out) c = omega (arith, remove-pending_le id x c.pending)

  starts-cons :
      (id : ℕ) (o : Op) (os : List Op) (c : Client)
      → starts admits id c (o ∷ os)
        ≡ starts admits id c (o ∷ []) + starts admits id (perform admits o c) os
  unfolding starts
  starts-cons id (start payload) os c = ground arith
  starts-cons id (dispatch f) os c = omega arith
  starts-cons id (finish x a) os c = omega arith

  -- However requests, dispatched frames and ends of awaits interleave, an identifier is answered
  -- at most as often as it was given to a request, an open request included.
  pub perform_all-settled :
      (id : ℕ) (os : List Op) (c : Client)
      → settled id (perform_all admits os c) ≤ settled id c + starts admits id c os
  unfolding perform_all
  perform_all-settled id [] c = ground arith
  perform_all-settled id (o ∷ os) c = omega (
    arith,
    perform-settled id o c,
    starts-cons id o os c,
    perform_all-settled id os (perform admits o c),
  )

  abbrev pub dispatch_all : List Frame → Client → Client
  dispatch_all [] c = c
  dispatch_all (f ∷ fs) c = dispatch_all fs (dispatch_frame admits f c)

  dispatch_kind-pending :
      (id : ℕ) (kind : FrameKind) (f : Frame) (c : Client)
      → id ≢ f.id
      → contains id (dispatch_frame admits (record f { kind = kind }) c).pending
        ≡ contains id c.pending
  unfolding dispatch_frame try_send
  dispatch_kind-pending id message f c h = ground (arith, contains-remove_ne id f.id c.pending h)
  dispatch_kind-pending id event f c h = ground arith
  dispatch_kind-pending id pong f c h = refl
  dispatch_kind-pending id ping f c h = ground arith

  dispatch_all-pending :
      (id : ℕ) (fs : List Frame) (c : Client)
      → All (λ f. id ≢ f.id) fs
      → contains id (dispatch_all fs c).pending ≡ contains id c.pending
  dispatch_all-pending id [] c h = refl
  dispatch_all-pending id (f ∷ fs) c h =
      dispatch_all-pending id fs (dispatch_frame admits f c) h.1
      ∙ dispatch_kind-pending id f.kind f c h.0

  started :
      (payload : List ℕ) (c : Client)
      → contains c.next_id (request_start payload c).1.pending ≡ true
  unfolding request_start contains
  started payload c = ground arith

  -- The answer to a pending request.
  reply-pending :
      (id : ℕ) (payload : List ℕ) (c : Client)
      → 0 < id
      → contains id c.pending ≡ true
      → let c' = dispatch_frame admits (record { id = id; kind = message; payload = payload }) c in
        (c'.answered ≡ c.answered ++ ((id, ok payload) ∷ [])) × (contains id c'.pending ≡ false)
  unfolding dispatch_frame
  reply-pending id payload c p h =
      (rw (lt→ltb 0 id p, h) refl, rw (lt→ltb 0 id p, h) (contains-remove_self id c.pending))

  -- A request with a non-zero identifier is answered with the payload of the first message that
  -- carries its identifier, whatever other frames are dispatched before, and is pending no more.
  pub request_start-dispatch_frame :
      (payload reply : List ℕ) (fs : List Frame) (c : Client)
      → 0 < c.next_id
      → All (λ f. c.next_id ≢ f.id) fs
      → let waiting = dispatch_all fs (request_start payload c).1 in
        let c' =
          dispatch_frame admits
            (record { id = c.next_id; kind = message; payload = reply })
            waiting in
        (c'.answered ≡ waiting.answered ++ ((c.next_id, ok reply) ∷ []))
        × (contains c.next_id c'.pending ≡ false)
  request_start-dispatch_frame payload reply fs c p h =
      reply-pending c.next_id reply _ p
        (dispatch_all-pending c.next_id fs (request_start payload c).1 h ∙ started payload c)

  -- A request whose await ends by a timeout or by a dropped sender is pending no more; one that a
  -- closed channel refuses stays pending.
  pub request_end-pending :
      (id : ℕ) (payload : List ℕ) (p : MessagePriority) (c : Client)
      → (contains id (request_end id timed_out c).1.pending ≡ false)
        × (contains id (request_end id sender_dropped c).1.pending ≡ false)
        × (contains c.next_id
              (request_send false
                (request_start payload c).0
                p
                (request_start payload c).1).1.pending
            ≡ true)
  unfolding request_end request_send
  request_end-pending id payload p c =
      (contains-remove_self id c.pending, contains-remove_self id c.pending, started payload c)
