-- ===== src/Client/Liveness.antt =====
-- How `connection_loop` of src/ws/client/connection_loop.rs gets on while no connection is up.
use notifiapp_transport.Common.{
  ℕ, suc, ◌+◌, ◌-◌, ◌^◌, ◌≤◌, ◌<◌, ◌≡◌, refl, ap, ◌∙◌, arith, zero, List, [], ◌∷◌, ◌++◌, false,
  none, some, Text, err, ltb, lt→ltb, if◌then◌else◌, length, All, min, Bool-cases, inl, inr,
}
use notifiapp_transport.State.{reconnecting}
use notifiapp_transport.Auth.{AuthHandler}
use notifiapp_transport.Backoff.{Float, exponential_delay, from_secs}
use notifiapp_transport.Backoff.Exponential.{
  Powers, doubling, exponential_delay-formula, exponential_delay-panics,
}
use notifiapp_transport.Crypto.{Snow}
use notifiapp_transport.Client.State.{ClientCmd, send, wake_up, publish}
use notifiapp_transport.Client.Config.{WsClientConfig, with_backoff}
use notifiapp_transport.Client.Handshake.{cmd}
use notifiapp_transport.Client.Loop.{Setting}
use notifiapp_transport.Client.Connection.{
  Background, Outcome, returned, again, panicked, pending, Pass, pass, passes, and_then, tell,
  connect, interrupted,
}

-- The client is not shut down and has an endpoint.
pub record IsActive (url : Text) (b : Background) : Type 0 where
  pub running : b.client.cancelled ≡ false
  pub endpoint : b.client.url ≡ some url

-- A command that asks for nothing of the connection itself.
pub data IsOther : ClientCmd → Type 0 where
  sending : (frame : _) → (priority : _) → IsOther (send frame priority)
  waking : IsOther wake_up

-- A pass whose sleep such a command ends.
pub record IsDisturbed (p : Pass) : Type 0 where
  pub command : ClientCmd
  pub other : IsOther command
  pub came : p.during_sleep ≡ some (cmd command)

-- What a pass announces before it sleeps.
unfoldable pub announced : ℕ → Background → Background
announced delay b = if b.ever_connected then tell (reconnecting b.reconnect_attempt delay) b else b

unfoldable pub times : ℕ → (Background → Background) → Background → Background
times zero f b = b
times (suc n) f b = times n f (f b)

-- A pass whose attempt fails to connect.
pub record IsFailed (p : Pass) : Type 0 where
  pub reason : Text
  pub slept : p.during_sleep ≡ none
  pub failed : p.connection ≡ err reason

-- The variables at the end.
abbrev pub ended : Outcome → Background
ended (returned b) = b
ended (panicked b) = b
ended (again b) = b
ended (pending b) = b

interrupted-other : (c : ClientCmd) (b : Background) → IsOther c → interrupted c b ≡ again b
unfolding interrupted
interrupted-other _ b (sending frame priority) = refl
interrupted-other _ b waking = refl

module _ (snow : Snow) (env : Setting snow) (config : WsClientConfig) (auth : AuthHandler) where
  pass-IsDisturbed :
      (url : Text) (delay : ℕ) (p : Pass) (b : Background)
      → IsDisturbed p
      → IsActive url b
      → config.backoff b.reconnect_attempt ≡ some delay
      → 0 < delay
      → pass snow env config auth p b ≡ again (announced delay b)
  unfolding pass announced
  pass-IsDisturbed url delay p b d a e h = simp (
    a.running,
    a.endpoint,
    e,
    d.came,
    lt→ltb 0 delay h,
    interrupted-other d.command (announced delay b) d.other,
  )

  announced-IsActive :
      (url : Text) (delay : ℕ) (b : Background) → IsActive url b → IsActive url (announced delay b)
  unfolding announced publish
  announced-IsActive url delay b a = record {
    running = ground (arith, a.running);
    endpoint = ground (arith, a.endpoint);
  }

  announced-attempt :
      (delay : ℕ) (b : Background) → (announced delay b).reconnect_attempt ≡ b.reconnect_attempt
  unfolding announced
  announced-attempt delay b = ground arith

  -- For an active client with a positive backoff delay, passes whose sleeps all end by a send or
  -- wake-up command never try to connect: they only announce the next attempt.
  pub passes-starved :
      (url : Text) (delay : ℕ) (ps : List Pass) (b : Background)
      → All IsDisturbed ps
      → IsActive url b
      → config.backoff b.reconnect_attempt ≡ some delay
      → 0 < delay
      → passes snow env config auth ps b ≡ again (times (length ps) (announced delay) b)
  unfolding passes times
  passes-starved url delay [] b ds a e h = refl
  passes-starved url delay (p ∷ ps) b ds a e h = rw (pass-IsDisturbed url delay p b ds.0 a e h) (
      passes-starved url delay ps (announced delay b) ds.1 (announced-IsActive url delay b a)
        (ap config.backoff (announced-attempt delay b) ∙ e) h)

  -- A failed attempt counts, and leaves the client active.
  abbrev Counted : Text → ℕ → Outcome → Type 0
  Counted url n r =
      (b' : Background) × (r ≡ again b') × (b'.reconnect_attempt ≡ suc n) × IsActive url b'

  connect-IsFailed :
      (url : Text) (p : Pass) (b : Background)
      → IsFailed p
      → IsActive url b
      → b.reconnect_attempt + 1 < 2 ^ 32
      → Counted url b.reconnect_attempt (connect snow env config auth p b)
  unfolding connect publish
  connect-IsFailed url p b f a q =
      simp f.failed
        (_, refl, omega (arith, q), record { running = a.running; endpoint = a.endpoint })

  abbrev before : ℕ → Background → Background
  before delay b = if ltb 0 delay then announced delay b else b

  pass-connects :
      (url : Text) (delay : ℕ) (p : Pass) (b : Background)
      → IsFailed p
      → IsActive url b
      → config.backoff b.reconnect_attempt ≡ some delay
      → pass snow env config auth p b ≡ connect snow env config auth p (before delay b)
  unfolding pass announced
  pass-connects url delay p b f a e = elim (Bool-cases (ltb 0 delay)) [
    | inl q ↦ simp (a.running, a.endpoint, e, f.slept, q)
    | inr q ↦ simp (a.running, a.endpoint, e, q)
  ]

  before-IsActive :
      (url : Text) (delay : ℕ) (b : Background) → IsActive url b → IsActive url (before delay b)
  before-IsActive url delay b a = elim (Bool-cases (ltb 0 delay)) [
    | inl q ↦ rw q (announced-IsActive url delay b a)
    | inr q ↦ rw q a
  ]

  before-attempt :
      (delay : ℕ) (b : Background) → (before delay b).reconnect_attempt ≡ b.reconnect_attempt
  before-attempt delay b = elim (Bool-cases (ltb 0 delay)) [
    | inl q ↦ rw q (announced-attempt delay b)
    | inr q ↦ rw q refl
  ]

  pass-IsFailed :
      (url : Text) (delay : ℕ) (p : Pass) (b : Background)
      → IsFailed p
      → IsActive url b
      → config.backoff b.reconnect_attempt ≡ some delay
      → b.reconnect_attempt + 1 < 2 ^ 32
      → Counted url b.reconnect_attempt (pass snow env config auth p b)
  pass-IsFailed url delay p b f a e q =
      let (b', r, n, a') =
        connect-IsFailed url p (before delay b) f (before-IsActive url delay b a)
          (omega (arith, q, before-attempt delay b)) in
      (b', pass-connects url delay p b f a e ∙ r, n ∙ ap suc (before-attempt delay b), a')

  -- While every attempt fails to connect, an active client goes on with the next pass and counts
  -- the attempts, as long as the backoff has delays for them and the counter does not wrap.
  pub passes-IsFailed :
      (url : Text) (ps : List Pass) (b : Background)
      → All IsFailed ps
      → IsActive url b
      → b.reconnect_attempt + length ps < 2 ^ 32
      → ((k : ℕ)
          → k < length ps
          → (delay : ℕ) × (config.backoff (b.reconnect_attempt + k) ≡ some delay))
      → (b' : Background) × (passes snow env config auth ps b ≡ again b')
        × (b'.reconnect_attempt ≡ b.reconnect_attempt + length ps)
        × IsActive url b'
  unfolding passes
  passes-IsFailed url [] b fs a w h = (b, refl, omega arith, a)
  passes-IsFailed url (p ∷ ps) b fs a w h =
      let (delay, e) = h 0 (omega arith) in
      let (b1, r1, n1, a1) =
        pass-IsFailed url delay p b fs.0 a (ap config.backoff (omega arith) ∙ e)
          (omega (arith, w)) in
      let (b2, r2, n2, a2) = passes-IsFailed url ps b1 fs.1 a1 (omega (arith, w, n1)) (λ k q.
        let (d, e') = h (suc k) (omega (arith, q)) in
        (d, ap config.backoff (omega (arith, n1)) ∙ e')) in
      (b2, rw r1 r2, omega (arith, n1, n2), a2)

  -- A backoff that panics takes the client's task down.
  pass-panicked :
      (url : Text) (p : Pass) (b : Background)
      → IsActive url b
      → config.backoff b.reconnect_attempt ≡ none
      → pass snow env config auth p b ≡ panicked b
  unfolding pass
  pass-panicked url p b a e = simp (a.running, a.endpoint, e)

  and_then-again :
      (o : Outcome) (k k' : Background → Outcome) (b' : Background) (r : Outcome)
      → and_then o k ≡ again b'
      → ((b1 : Background) → k b1 ≡ again b' → k' b1 ≡ r)
      → and_then o k' ≡ r
  and_then-again (again b) k k' b' r e h = h b e
  and_then-again (returned b) k k' b' r e h = absurd ground (arith, e)
  and_then-again (panicked b) k k' b' r e h = absurd ground (arith, e)
  and_then-again (pending b) k k' b' r e h = absurd ground (arith, e)

  passes-append :
      (ps qs : List Pass) (b b' : Background)
      → passes snow env config auth ps b ≡ again b'
      → passes snow env config auth (ps ++ qs) b ≡ passes snow env config auth qs b'
  unfolding passes
  passes-append [] qs b b' e = ap (passes snow env config auth qs) (ap ended e)
  passes-append (p ∷ ps) qs b b' e =
      and_then-again (pass snow env config auth p b) _ _ b' _ e
        (λ b1 e1. passes-append ps qs b1 b' e1)

module _ (snow : Snow) (env : Setting snow) (config : WsClientConfig) (auth : AuthHandler)
    (fl : Float) (pw : Powers fl) where
  first_delay :
      (j max_delay n : ℕ)
      → ltb 0 n ≡ false
      → exponential_delay fl (doubling fl pw j max_delay) n ≡ some 0
  unfolding exponential_delay
  first_delay j max_delay n q = ground (arith, q)

  -- The first attempts of a backoff that starts at 2 ^ j seconds and doubles have a delay.
  exponential_delay-defined :
      (j max_delay n : ℕ)
      → j + n ≤ 64
      → (delay : ℕ) × (exponential_delay fl (doubling fl pw j max_delay) n ≡ some delay)
  exponential_delay-defined j max_delay n h = elim (Bool-cases (ltb 0 n)) [
    | inl q ↦ (
      min (from_secs (2 ^ (j + (n - 1)))) max_delay,
      exponential_delay-formula fl pw j max_delay n (ground (arith, q)) h,
    )
    | inr q ↦ (0, first_delay j max_delay n q)
  ]

  -- With a doubling backoff that starts at 2 ^ j seconds, the pass at which j and the number of
  -- failed attempts add up to 65 panics, whatever the maximal delay.
  pub passes-panic :
      (url : Text) (j max_delay : ℕ) (failing : List Pass) (p : Pass) (rest : List Pass)
      (b : Background)
      → j < 64
      → All IsFailed failing
      → IsActive url b
      → j + (b.reconnect_attempt + length failing) ≡ 65
      → (b' : Background) × (passes snow env
            (with_backoff (exponential_delay fl (doubling fl pw j max_delay)) config)
            auth
            (failing ++ (p ∷ rest))
            b
          ≡ panicked b')
  unfolding passes with_backoff
  passes-panic url j max_delay failing p rest b q fs a h =
      let config = with_backoff (exponential_delay fl (doubling fl pw j max_delay)) config in
      let (b1, r1, n1, a1) =
        passes-IsFailed snow env config auth url failing b fs a (omega (arith, h))
          (λ k k<n. exponential_delay-defined j max_delay _ (omega (arith, h, k<n))) in
      (
        b1,
        passes-append snow env config auth failing (p ∷ rest) b b1 r1
            ∙ rw
                (pass-panicked snow env config auth url p b1 a1 (
                  exponential_delay-panics fl pw j max_delay _ q (omega (arith, h, n1))
                    (omega (arith, h, n1))))
                refl,
      )
