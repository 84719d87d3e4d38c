-- ===== src/Server/Handle/Holders.antt =====
-- The handles that share one session, src/ws/server/handle.rs: clones, drops and what they send, in
-- any order. Drops of several handles can overlap: each is a start and an end.
use notifiapp_transport.Common.{
  ℕ, suc, ◌+◌, ◌==◌, if◌then◌else◌, ◌≡◌, refl, ◌∙◌, List, [], ◌∷◌, ◌++◌, none, true, false, Bool,
  ◌&&◌, ◌≤◌, sym, Bool-cases, inl, inr, arith,
}
use notifiapp_transport.Frame.{Frame, message, event}
use notifiapp_transport.Scheduler.Levels.{MessagePriority, normal}
use notifiapp_transport.Client.State.{Admission}
use notifiapp_transport.Server.Session.{SessionCmd, send, close}
use notifiapp_transport.Server.Handle.{
  ServerSessionHandle, try_send, respond, push_event, clone, drop, release,
}

-- What the holders of handles do with them, but an early close.
pub data HandleUse : Type 0 where
  cloned : HandleUse
  drop_started : HandleUse
  drop_ended : HandleUse
  responded : (id : ℕ) (payload : List ℕ) → HandleUse
  pushed : (payload : List ℕ) (priority : MessagePriority) → HandleUse

unfoldable pub closes : List SessionCmd → ℕ
closes [] = 0
closes (close ∷ cmds) = suc (closes cmds)
closes (send f p ∷ cmds) = closes cmds

closes-append : (xs ys : List SessionCmd) → closes (xs ++ ys) ≡ closes xs + closes ys
unfolding closes
closes-append [] ys = omega arith
closes-append (close ∷ xs) ys = omega (arith, closes-append xs ys)
closes-append (send f p ∷ xs) ys = closes-append xs ys

module _ (admits : Admission) where
  use_handle : HandleUse → ServerSessionHandle → ServerSessionHandle
  unfolding clone drop
  use_handle cloned h = clone admits h
  use_handle drop_started h = drop admits h
  use_handle drop_ended h = h
  use_handle (responded id payload) h = (respond admits id payload h).1
  use_handle (pushed payload priority) h = (push_event admits payload priority h).1

  -- Without a handle in use there is none to clone, drop or send by, and without a drop under way
  -- none ends.
  unfoldable pub perform : HandleUse → ServerSessionHandle → ServerSessionHandle
  unfolding use_handle release
  perform drop_ended h = release admits h
  perform u h = if h.in_use == 0 then h else use_handle u h

  unfoldable pub perform_all : List HandleUse → ServerSessionHandle → ServerSessionHandle
  perform_all [] h = h
  perform_all (u ∷ us) h = perform_all us (perform u h)

  abbrev starts_alone : HandleUse → ServerSessionHandle → Bool
  starts_alone drop_started h = h.dropping == 0
  starts_alone u h = true

  -- No drop starts while another is under way.
  unfoldable pub is_orderly : List HandleUse → ServerSessionHandle → Bool
  is_orderly [] h = true
  is_orderly (u ∷ us) h = let rest = is_orderly us (perform u h) in starts_alone u h && rest

  -- What the count of closes is at most: none while a handle is in use, then one.
  abbrev due : ServerSessionHandle → ℕ
  due h = if h.in_use == 0 then 1 else 0

  unfoldable pub IsTold : ServerSessionHandle → Type 0
  IsTold h = closes h.commands ≤ due h

  -- While drops do not overlap, it is just that.
  unfoldable pub IsToldAlone : ServerSessionHandle → Type 0
  IsToldAlone h = (h.dropping ≤ 1) × (closes h.commands ≡ due h)

  module _ (open_channel : (n : ℕ) → admits n ≡ none) where
    try_send-none :
        (cmd : SessionCmd) (h : ServerSessionHandle)
        → (try_send admits cmd h).1
          ≡ record h { tries = suc h.tries; commands = h.commands ++ (cmd ∷ []) }
    unfolding try_send
    try_send-none cmd h = rw (try_send, open_channel h.tries) refl

    closes-told :
        (h : ServerSessionHandle)
        → closes (try_send admits close h).1.commands ≡ suc (closes h.commands)
    unfolding closes
    closes-told h = rw (try_send-none close h) (closes-append h.commands (close ∷ []) ∙ omega arith)

    -- A use that starts no drop leaves the number of closes and whether a handle is in use.
    record Kept (h h' : ServerSessionHandle) : Type 0 where
      closes_kept : closes h'.commands ≡ closes h.commands
      use_kept : due h' ≡ due h
      drops_kept : h'.dropping ≤ h.dropping

    sent-Kept :
        (f : Frame) (p : MessagePriority) (h : ServerSessionHandle)
        → Kept h (try_send admits (send f p) h).1
    unfolding closes
    sent-Kept f p h = rw (try_send-none (send f p) h) (record {
      closes_kept = closes-append h.commands (send f p ∷ []) ∙ omega arith;
      use_kept = refl;
      drops_kept = omega arith;
    })

    Kept-IsTold : (h h' : ServerSessionHandle) → Kept h h' → IsTold h → IsTold h'
    unfolding IsTold
    Kept-IsTold h h' k t = omega (arith, k.closes_kept, k.use_kept, t)

    Kept-IsToldAlone : (h h' : ServerSessionHandle) → Kept h h' → IsToldAlone h → IsToldAlone h'
    unfolding IsToldAlone
    Kept-IsToldAlone h h' k (d, t) =
        (omega (arith, k.drops_kept, d), k.closes_kept ∙ t ∙ sym k.use_kept)

    drop-IsTold :
        (h : ServerSessionHandle) → (h.in_use == 0) ≡ false → IsTold h → IsTold (drop admits h)
    unfolding IsTold drop
    drop-IsTold h e t = elim (Bool-cases (h.in_use + h.dropping == 1)) [
      | inl o ↦ rw (o) (ground (arith, closes-told h, t, e, o))
      | inr o ↦ rw (o) (ground (arith, t, e, o))
    ]

    drop-IsToldAlone :
        (h : ServerSessionHandle)
        → (h.in_use == 0) ≡ false
        → (h.dropping == 0) ≡ true
        → IsToldAlone h
        → IsToldAlone (drop admits h)
    unfolding IsToldAlone drop
    drop-IsToldAlone h e z (d, t) = elim (Bool-cases (h.in_use + h.dropping == 1)) [
      | inl o ↦ rw (o) (ground (arith, z), ground (arith, closes-told h, t, e, o, z))
      | inr o ↦ rw (o) (ground (arith, z), ground (arith, t, e, o, z))
    ]

    -- A use that is no start of a drop.
    abbrev IsLight : HandleUse → Type 0
    IsLight drop_started = ⊥
    IsLight u = Unit {0}

    use_handle-Kept :
        (u : HandleUse) (h : ServerSessionHandle)
        → IsLight u
        → (h.in_use == 0) ≡ false
        → Kept h (use_handle u h)
    unfolding use_handle clone respond push_event
    use_handle-Kept cloned h l e = record {
      closes_kept = refl;
      use_kept = ground (arith, e);
      drops_kept = omega arith;
    }
    use_handle-Kept drop_started h l e = absurd l
    use_handle-Kept drop_ended h l e = record {
      closes_kept = refl;
      use_kept = refl;
      drops_kept = omega arith;
    }
    use_handle-Kept (responded id payload) h l e =
        sent-Kept (record { id = id; kind = message; payload = payload }) normal h
    use_handle-Kept (pushed payload priority) h l e =
        sent-Kept (record { id = 0; kind = event; payload = payload }) priority h

    still : (h : ServerSessionHandle) → Kept h h
    still h = record { closes_kept = refl; use_kept = refl; drops_kept = omega arith }

    guarded-Kept :
        (u : HandleUse) (h : ServerSessionHandle)
        → IsLight u
        → Kept h (if h.in_use == 0 then h else use_handle u h)
    guarded-Kept u h l = elim (Bool-cases (h.in_use == 0)) [
      | inl e ↦ rw (e) (still h)
      | inr e ↦ rw (e) (use_handle-Kept u h l e)
    ]

    perform-Kept : (u : HandleUse) (h : ServerSessionHandle) → IsLight u → Kept h (perform u h)
    unfolding perform release
    perform-Kept cloned h l = guarded-Kept cloned h l
    perform-Kept drop_started h l = absurd l
    perform-Kept drop_ended h l = record {
      closes_kept = refl;
      use_kept = refl;
      drops_kept = omega arith;
    }
    perform-Kept (responded id payload) h l = guarded-Kept (responded id payload) h l
    perform-Kept (pushed payload priority) h l = guarded-Kept (pushed payload priority) h l

    perform-IsTold : (u : HandleUse) (h : ServerSessionHandle) → IsTold h → IsTold (perform u h)
    unfolding perform use_handle
    perform-IsTold drop_started h t = elim (Bool-cases (h.in_use == 0)) [
      | inl e ↦ rw (e) t
      | inr e ↦ rw (e) (drop-IsTold h e t)
    ]
    perform-IsTold cloned h t = Kept-IsTold h (perform cloned h) (perform-Kept cloned h tt) t
    perform-IsTold drop_ended h t =
        Kept-IsTold h (perform drop_ended h) (perform-Kept drop_ended h tt) t
    perform-IsTold (responded id payload) h t =
        Kept-IsTold h (perform (responded id payload) h) (perform-Kept (responded id payload) h tt)
          t
    perform-IsTold (pushed payload p) h t =
        Kept-IsTold h (perform (pushed payload p) h) (perform-Kept (pushed payload p) h tt) t

    perform-IsToldAlone :
        (u : HandleUse) (h : ServerSessionHandle)
        → starts_alone u h ≡ true
        → IsToldAlone h
        → IsToldAlone (perform u h)
    unfolding perform use_handle
    perform-IsToldAlone drop_started h a t = elim (Bool-cases (h.in_use == 0)) [
      | inl e ↦ rw (e) t
      | inr e ↦ rw (e) (drop-IsToldAlone h e a t)
    ]
    perform-IsToldAlone cloned h a t =
        Kept-IsToldAlone h (perform cloned h) (perform-Kept cloned h tt) t
    perform-IsToldAlone drop_ended h a t =
        Kept-IsToldAlone h (perform drop_ended h) (perform-Kept drop_ended h tt) t
    perform-IsToldAlone (responded id payload) h a t =
        Kept-IsToldAlone h (perform (responded id payload) h)
          (perform-Kept (responded id payload) h tt) t
    perform-IsToldAlone (pushed payload p) h a t =
        Kept-IsToldAlone h (perform (pushed payload p) h) (perform-Kept (pushed payload p) h tt) t

    -- While the channel of commands takes what it is sent: in whatever order the holders of a
    -- session's handles clone them, start and end drops of them, respond and push events, no close
    -- is queued while a handle is in use, and one at most then.
    pub perform_all-IsTold :
        (us : List HandleUse) (h : ServerSessionHandle) → IsTold h → IsTold (perform_all us h)
    unfolding perform_all
    perform_all-IsTold [] h t = t
    perform_all-IsTold (u ∷ us) h t = perform_all-IsTold us (perform u h) (perform-IsTold u h t)

    and_parts : (a b : Bool) → (a && b) ≡ true → (a ≡ true) × (b ≡ true)
    and_parts true b e = (refl, e)
    and_parts false b e = absurd (cc)

    -- If no drop starts while another is under way, one is queued when none is in use.
    pub perform_all-IsToldAlone :
        (us : List HandleUse) (h : ServerSessionHandle)
        → is_orderly us h ≡ true
        → IsToldAlone h
        → IsToldAlone (perform_all us h)
    unfolding perform_all is_orderly
    perform_all-IsToldAlone [] h o t = t
    perform_all-IsToldAlone (u ∷ us) h o t =
        let (a, rest) = and_parts (starts_alone u h) (is_orderly us (perform u h)) o in
        perform_all-IsToldAlone us (perform u h) rest (perform-IsToldAlone u h a t)
