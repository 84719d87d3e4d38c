-- ===== src/Client/Heartbeat.antt =====
-- The heartbeat of `run_message_loop`, src/ws/client/connection_loop.rs.
use notifiapp_transport.Common.{ℕ, suc, ◌≡◌, refl, ◌∙◌, arith, List, [], ◌∷◌, ◌++◌, All, true}
use notifiapp_transport.Scheduler.{enqueue}
use notifiapp_transport.Crypto.{Snow}
use notifiapp_transport.Client.State.{send, endpoint_changed, reconnect, wake_up}
use notifiapp_transport.Client.Loop.{
  Event, cancel, received, command, heartbeat, Setting, Loop, Flow, running, broken, Flushed,
  drained, send_error, disconnect, out_of_fuel, after_flush, on_command, on_heartbeat, step, run,
  and_then,
}
use notifiapp_transport.Client.Rounds.{flush-ends}

-- Rounds other than an item of the stream.
abbrev pub IsQuiet : ℕ × Event → Type 0
IsQuiet (now, received item) = ⊥
IsQuiet (now, cancel) = Unit {0}
IsQuiet (now, command cmd batches) = Unit {0}
IsQuiet (now, heartbeat) = Unit {0}

module _ (snow : Snow) (env : Setting snow) where
  abbrev pub Breaks : Flow (Loop snow) → Type 0
  Breaks r = (s : Loop snow) × (r ≡ broken s)

  -- A loop that goes on waits on.
  abbrev WaitsOn : Flow (Loop snow) → Type 0
  WaitsOn (running s) = s.waiting_for_pong ≡ true
  WaitsOn (broken s) = Unit {0}

  after_flush-WaitsOn :
      (r : Flushed × Loop snow) → r.1.waiting_for_pong ≡ true → WaitsOn (after_flush snow env r)
  after_flush-WaitsOn (drained, s) h = h
  after_flush-WaitsOn (send_error, s) h = tt
  after_flush-WaitsOn (disconnect, s) h = h
  after_flush-WaitsOn (out_of_fuel, s) h = h

  step-WaitsOn :
      (e : ℕ × Event) (s : Loop snow)
      → IsQuiet e
      → s.waiting_for_pong ≡ true
      → WaitsOn (step snow env e s)
  unfolding step on_command on_heartbeat
  step-WaitsOn (now, received item) s q w = absurd q
  step-WaitsOn (now, cancel) s q w = tt
  step-WaitsOn (now, heartbeat) s q w = rw w tt
  step-WaitsOn (now, command (send f p) batches) s q w =
      after_flush-WaitsOn _
        ((flush-ends snow env batches (record s { scheduler = enqueue f p s.scheduler })).1 ∙ w)
  step-WaitsOn (now, command endpoint_changed batches) s q w = tt
  step-WaitsOn (now, command reconnect batches) s q w = tt
  step-WaitsOn (now, command wake_up batches) s q w = w

  timer-WaitsOn : (now : ℕ) (s : Loop snow) → WaitsOn (step snow env (now, heartbeat) s)
  unfolding step on_heartbeat
  timer-WaitsOn now s = ground arith

  and_then-Breaks :
      (r : Flow (Loop snow)) (k : Loop snow → Flow (Loop snow))
      → WaitsOn r
      → ((s : Loop snow) → s.waiting_for_pong ≡ true → Breaks (k s))
      → Breaks (and_then snow env r k)
  and_then-Breaks (running s) k w h = h s w
  and_then-Breaks (broken s) k w h = (s, refl)

  timer-Breaks :
      (now : ℕ) (rest : List (ℕ × Event)) (s : Loop snow)
      → s.waiting_for_pong ≡ true
      → Breaks (run snow env ((now, heartbeat) ∷ rest) s)
  unfolding run step on_heartbeat
  timer-Breaks now rest s w = (record s { closes = suc s.closes }, rw w refl)

  waiting-Breaks :
      (es : List (ℕ × Event)) (later : ℕ) (rest : List (ℕ × Event)) (s : Loop snow)
      → All IsQuiet es
      → s.waiting_for_pong ≡ true
      → Breaks (run snow env (es ++ ((later, heartbeat) ∷ rest)) s)
  unfolding run
  waiting-Breaks [] later rest s q w = timer-Breaks later rest s w
  waiting-Breaks (e ∷ es) later rest s q w =
      and_then-Breaks (step snow env e s) _ (step-WaitsOn e s q.0 w)
        (λ s' w'. waiting-Breaks es later rest s' q.1 w')

  -- If the heartbeat timer fires twice and nothing is received in between, the message loop of the
  -- client has ended, whatever commands came.
  pub run-silent_server :
      (now later : ℕ) (es rest : List (ℕ × Event)) (s : Loop snow)
      → All IsQuiet es
      → Breaks (run snow env ((now, heartbeat) ∷ (es ++ ((later, heartbeat) ∷ rest))) s)
  unfolding run
  run-silent_server now later es rest s q =
      and_then-Breaks (step snow env (now, heartbeat) s) _ (timer-WaitsOn now s)
        (λ s' w. waiting-Breaks es later rest s' q w)
