-- ===== src/Conversation/Order.antt =====
-- Requests of src/ws/client/mod.rs that are open at the same time, and their responses in any order.
use notifiapp_transport.Common.{
  ℕ, ◌+◌, ◌≤◌, ◌<◌, ◌≡◌, ◌≢◌, refl, sym, ap, ◌∙◌, List, [], ◌∷◌, ◌++◌, map, true, false, none,
  Result, ok, ◌==◌, if◌then◌else◌, length, arith, append-nil, append_assoc, All, Bool-cases, inl,
  inr,
}
use notifiapp_transport.Error.{TransportError}
use notifiapp_transport.Scheduler.Levels.{MessagePriority}
use notifiapp_transport.Crypto.{Snow}
use notifiapp_transport.Crypto.Transport.{Channel}
use notifiapp_transport.Wire.Sending.{IsUp}
use notifiapp_transport.Wire.EndToEnd.{IsLawful}
use notifiapp_transport.Client.State.{Admission}
use notifiapp_transport.Client.Login.{IsDuplex}
use notifiapp_transport.Client.Loop
use notifiapp_transport.Server.Session
use notifiapp_transport.Conversation.{Linked}
use notifiapp_transport.Conversation.Ledger.{Act, request, respond, Ledger, settle, settle_all}
use notifiapp_transport.Conversation.Settling.{acts-Settles}
use notifiapp_transport.Conversation.Talk.{Ends, AllFit, Settles, view_of}

-- A request, and a response.
abbrev pub Ask : Type 0
Ask = List ℕ × MessagePriority

abbrev pub Reply : Type 0
Reply = ℕ × List ℕ

abbrev pub asks : List Ask → List Act
asks = map (λ (q : Ask). request q.0 q.1)

abbrev pub replies : List Reply → List Act
replies = map (λ (r : Reply). respond r.0 r.1)

abbrev pub given : List Reply → List (ℕ × Result (List ℕ) TransportError)
given = map (λ (r : Reply). (r.0, ok r.1))

abbrev pub IsDistinct : List Reply → Type 0
IsDistinct [] = Unit
IsDistinct (r ∷ rs) = All (λ x. r.0 ≢ x.0) rs × IsDistinct rs

settle_all-append :
    (xs ys : List Act) (l : Ledger) → settle_all (xs ++ ys) l ≡ settle_all ys (settle_all xs l)
unfolding settle_all
settle_all-append [] ys l = refl
settle_all-append (a ∷ xs) ys l = settle_all-append xs ys (settle a l)

pos_ne_zero : (n : ℕ) → 0 < n → (n == 0) ≡ false
pos_ne_zero n p = ground (arith, p)

-- The requests wait then, and nothing else has changed for the responses.
settle_all-asks_answered :
    (qs : List Ask) (l : Ledger) → (settle_all (asks qs) l).answered ≡ l.answered
unfolding settle_all settle
settle_all-asks_answered [] l = refl
settle_all-asks_answered (q ∷ qs) l = settle_all-asks_answered qs (settle (request q.0 q.1) l)

settle_all-asks_waiting :
    (qs : List Ask) (l : Ledger) (x : ℕ)
    → l.waiting x ≡ true
    → (settle_all (asks qs) l).waiting x ≡ true
unfolding settle_all settle
settle_all-asks_waiting [] l x h = h
settle_all-asks_waiting (q ∷ qs) l x h =
    settle_all-asks_waiting qs (settle (request q.0 q.1) l) x (ground (arith, h))

settle_all-asks :
    (qs : List Ask) (l : Ledger) (x : ℕ)
    → l.next_id ≤ x
    → x < l.next_id + length qs
    → (settle_all (asks qs) l).waiting x ≡ true
unfolding settle_all settle
settle_all-asks [] l x h k = absurd (omega (arith, h, k))
settle_all-asks (q ∷ qs) l x h k = elim (Bool-cases (l.next_id == x)) [
  | inl e ↦ settle_all-asks_waiting qs (settle (request q.0 q.1) l) x (rw (e) refl)
  | inr e ↦
      settle_all-asks qs (settle (request q.0 q.1) l) x (ground (arith, h, e)) (omega (arith, k))
]

-- A response that is waited for.
abbrev taken : Reply → Ledger → Ledger
taken r l = record l {
  waiting = λ x. if r.0 == x then false else l.waiting x;
  answered = l.answered ++ ((r.0, ok r.1) ∷ []);
}

settle-taken :
    (r : Reply) (l : Ledger)
    → 0 < r.0
    → l.waiting r.0 ≡ true
    → settle (respond r.0 r.1) l ≡ taken r l
unfolding settle
settle-taken r l p w = rw (pos_ne_zero r.0 p, w) refl

abbrev Awaits : Ledger → List Reply → Type 0
Awaits l = All (λ r. (0 < r.0) × (l.waiting r.0 ≡ true))

taken-Awaits :
    (r : Reply) (rs : List Reply) (l : Ledger)
    → All (λ x. r.0 ≢ x.0) rs
    → Awaits l rs
    → Awaits (taken r l) rs
taken-Awaits r [] l d w = tt
taken-Awaits r (x ∷ rs) l (d, ds) ((p, w), ws) =
    ((p, ground (arith, d, w)), taken-Awaits r rs l ds ws)

settle_all-replies :
    (rs : List Reply) (l : Ledger)
    → Awaits l rs
    → IsDistinct rs
    → (settle_all (replies rs) l).answered ≡ l.answered ++ given rs
unfolding settle_all
settle_all-replies [] l w d = sym (append-nil l.answered)
settle_all-replies (r ∷ rs) l ((p, w), ws) (d, ds) =
    rw (settle_all, settle-taken r l p w)
      (settle_all-replies rs (taken r l) (taken-Awaits r rs l d ws) ds
        ∙ append_assoc l.answered ((r.0, ok r.1) ∷ []) (given rs))

asks-Awaits :
    (qs : List Ask) (rs : List Reply) (l : Ledger)
    → 0 < l.next_id
    → All (λ r. (l.next_id ≤ r.0) × (r.0 < l.next_id + length qs)) rs
    → Awaits (settle_all (asks qs) l) rs
asks-Awaits qs [] l p h = tt
asks-Awaits qs (r ∷ rs) l p ((a, b), h) =
    ((omega (arith, p, a), settle_all-asks qs l r.0 a b), asks-Awaits qs rs l p h)

module _ (snow : Snow) (ch : Channel snow) (server_env : Session.Setting snow)
    (env : Loop.Setting snow) (handle_admits : Admission) (lawful : IsLawful server_env.codec)
    (up : IsUp env.sink) (up' : IsUp server_env.sink) (duplex : IsDuplex snow ch)
    (reader : (n : ℕ) → server_env.reader n ≡ true) (room : (n : ℕ) → env.admits n ≡ none)
    (room' : (n : ℕ) → handle_admits n ≡ none) where
  -- While both sinks are up, the codec is lawful, the Noise ends agree in both directions, the
  -- inbox always has a reader, and both channels of commands take what they are sent: any requests
  -- that are open at the same time, and then responses to some of them, one each and in any order,
  -- run to their end from a message loop and a session that are idle and agree, if their frames
  -- fit the limits and the identifiers are not zero and do not wrap; what the client has answered
  -- then is each of these responses under its identifier, in the order of the responses.
  pub acts-any_order :
      (qs : List Ask) (rs : List Reply) (now : ℕ) (w : Ends snow ch server_env env handle_admits)
      → Linked snow ch server_env env w.s w.z
      → AllFit snow ch server_env env handle_admits w.s.client.next_id (asks qs ++ replies rs)
      → 0 < w.s.client.next_id
      → All (λ r. (w.s.client.next_id ≤ r.0) × (r.0 < w.s.client.next_id + length qs)) rs
      → IsDistinct rs
      → (run : Settles snow ch server_env env handle_admits w (asks qs ++ replies rs))
        × (run.w'.s.client.answered ≡ w.s.client.answered ++ given rs)
  acts-any_order qs rs now w l fits p h d =
      let run =
        acts-Settles snow ch server_env env handle_admits lawful up up' duplex reader room room' now
          (asks qs ++ replies rs) w l fits in
      let v = view_of snow ch server_env env handle_admits w in
      (
        run,
        ap (λ v'. v'.answered) (run.settled ∙ settle_all-append (asks qs) (replies rs) v)
            ∙ settle_all-replies rs (settle_all (asks qs) v) (asks-Awaits qs rs v p h) d
            ∙ ap (λ a. a ++ given rs) (settle_all-asks_answered qs v),
      )
