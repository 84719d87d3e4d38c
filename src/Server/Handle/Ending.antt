-- ===== src/Server/Handle/Ending.antt =====
-- The session of src/ws/server/session.rs and the handles of src/ws/server/handle.rs that share it.
use notifiapp_transport.Common.{
  ℕ, ◌<◌, ◌≤◌, Bool, ◌≡◌, refl, List, [], ◌∷◌, true, false, none, arith, ap, ◌∙◌, zero, suc, ◌==◌,
  if◌then◌else◌,
}
use notifiapp_transport.Crypto.{Snow}
use notifiapp_transport.Client.State.{Admission}
use notifiapp_transport.Server.Session.{
  Session, Setting, SessionCmd, send, close, Event, received, command, heartbeat, Flow, running,
  stopped, step, run, and_then, on_command,
}
use notifiapp_transport.Server.Heartbeat.{Stops}
use notifiapp_transport.Server.Launch.{new_handle}
use notifiapp_transport.Server.Task.{SessionTask, run_server_session, is_alive}
use notifiapp_transport.Server.Handle.Holders.{
  HandleUse, closes, perform_all, is_orderly, IsTold, IsToldAlone, perform_all-IsTold,
  perform_all-IsToldAlone,
}

-- The commands among the events of a session.
abbrev pub commands_of : List (ℕ × Event) → List SessionCmd
commands_of [] = []
commands_of ((now, received item) ∷ es) = commands_of es
commands_of ((now, command cmd) ∷ es) = cmd ∷ commands_of es
commands_of ((now, heartbeat) ∷ es) = commands_of es

module _ (snow : Snow) (env : Setting snow) where
  and_then-Stops :
      (r : Flow (Session snow)) (k : Session snow → Flow (Session snow))
      → ((s : Session snow) → Stops snow env (k s))
      → Stops snow env (and_then snow env r k)
  and_then-Stops (running s) k h = h s
  and_then-Stops (stopped s) k h = (s, refl)

  run-closes :
      (es : List (ℕ × Event)) (s : Session snow)
      → 0 < closes (commands_of es)
      → Stops snow env (run snow env es s)
  unfolding run closes step on_command
  run-closes [] s h = absurd (omega (arith, h))
  run-closes ((now, command close) ∷ es) s h = (s, refl)
  run-closes ((now, command (send f p)) ∷ es) s h =
      and_then-Stops (step snow env (now, command (send f p)) s) _ (λ s'. run-closes es s' h)
  run-closes ((now, received item) ∷ es) s h =
      and_then-Stops (step snow env (now, received item) s) _ (λ s'. run-closes es s' h)
  run-closes ((now, heartbeat) ∷ es) s h =
      and_then-Stops (step snow env (now, heartbeat) s) _ (λ s'. run-closes es s' h)

  -- No handle takes the session for alive, and its socket is closed.
  abbrev pub IsOver : SessionTask snow → Type 0
  IsOver t = (is_alive snow env t ≡ false) × (t.closed ≡ true)

  Stops-IsOver :
      (es : List (ℕ × Event)) (s : Session snow)
      → Stops snow env (run snow env es s)
      → IsOver (run_server_session snow env es s)
  unfolding run_server_session is_alive
  Stops-IsOver es s (z, e) = rw (run_server_session, e) (refl, refl)

  -- While a handle is in use, none of the commands is a close. With none in use there is one close
  -- at most; if the drops did not overlap, the task is over.
  abbrev pub Heeds : (in_use : ℕ) (orderly : Bool) → List SessionCmd → SessionTask snow → Type 0
  Heeds (suc n) orderly cmds t = closes cmds ≡ 0
  Heeds zero true cmds t = IsOver t
  Heeds zero false cmds t = closes cmds ≤ 1

  closes-Heeds :
      (n : ℕ) (o : Bool) (es : List (ℕ × Event)) (s : Session snow)
      → closes (commands_of es) ≤ (if n == 0 then 1 else 0)
      → (o ≡ true → closes (commands_of es) ≡ (if n == 0 then 1 else 0))
      → Heeds n o (commands_of es) (run_server_session snow env es s)
  closes-Heeds (suc n) o es s e f = ground (arith, e)
  closes-Heeds zero true es s e f = Stops-IsOver es s (run-closes es s (omega (arith, f refl)))
  closes-Heeds zero false es s e f = e

  module _ (admits : Admission) (open_channel : (n : ℕ) → admits n ≡ none) where
    -- While the channel of commands takes what it is sent: in whatever order the holders of the
    -- handles of a session clone them, start drops of them, end these drops, respond and push
    -- events, starting with the handle of accept_ws_session, no close is among their commands
    -- while a handle is in use, and one at most afterwards; if no drop starts before the one under
    -- way has ended, a task of a session that has taken in their commands in order, with whatever
    -- else between them, has closed its socket and is_alive is false once no handle is in use.
    pub handles-Heeds :
        (us : List HandleUse) (es : List (ℕ × Event)) (s : Session snow)
        → commands_of es ≡ (perform_all admits us new_handle).commands
        → Heeds
            (perform_all admits us new_handle).in_use
            (is_orderly admits us new_handle)
            (commands_of es)
            (run_server_session snow env es s)
    unfolding IsTold IsToldAlone closes
    handles-Heeds us es s all =
        let h = perform_all admits us new_handle in
        let told = perform_all-IsTold admits open_channel us new_handle (omega arith) in
        closes-Heeds h.in_use (is_orderly admits us new_handle) es s
          (omega (arith, ap closes all, told))
          (λ o.
            ap closes all
            ∙ (perform_all-IsToldAlone admits open_channel us new_handle o (omega arith, refl)).1)
