-- ===== src/Tests/Services.antt =====
-- A client that connects to a server and makes two requests, and the handles of a session.
use notifiapp_transport.Common.{◌≡◌, refl, sym, arith, List, [], ◌∷◌, ℕ, none, true}
use notifiapp_transport.Scheduler.Levels.{normal}
use notifiapp_transport.Tests.{codec, codec-IsLawful}
use notifiapp_transport.Tests.Greetings.{client, same, w}
use notifiapp_transport.Tests.Logins.{
  snow, ch, x, auth, attempt, before, small, compatible, server_env, loop_env,
}
use notifiapp_transport.Client.Login.{Fits}
use notifiapp_transport.Client.State
use notifiapp_transport.Client.State.{Admission}
use notifiapp_transport.Conversation.Ledger.{Act, request, respond, message_of, event_of, next}
use notifiapp_transport.Conversation.Talk.{AllFit, Fitting}
use notifiapp_transport.Establishment.Talk.{Spoken, connect-Spoken}
use notifiapp_transport.Server.Launch.{new_handle}
use notifiapp_transport.Server.Session.{Session, start, Event, command, heartbeat, send, close}
use notifiapp_transport.Server.Task.{run_server_session}
use notifiapp_transport.Server.Handle.{clone, drop, release, push_event, try_send}
use notifiapp_transport.Crypto.Transport.{online}
use notifiapp_transport.Server.Handle.Ending.{Heeds, commands_of, handles-Heeds}
use notifiapp_transport.Server.Handle.Holders.{
  HandleUse, cloned, drop_started, drop_ended, is_orderly, responded, pushed, perform_all, perform,
}

short : (id n : ℕ) → Fits codec 1000 (message_of id (n ∷ []))
short id n = record {
  payload = id ∷ 0 ∷ n ∷ [];
  serialised = refl;
  width = omega arith;
  admitted = omega arith;
}

-- Two open requests, whose responses come the other way round.
abbrev acts : List Act
acts =
    request (7 ∷ []) normal
    ∷ request (9 ∷ []) normal
    ∷ respond 3 (10 ∷ [])
    ∷ respond 2 (8 ∷ [])
    ∷ []

abbrev free : Admission
free n = none

acts-AllFit : AllFit snow ch server_env loop_env free 2 acts
unfolding AllFit Fitting next
acts-AllFit = ((short 2 7, omega arith), ((short 3 9, omega arith), (short 3 10, (short 2 8, tt))))

connect-Spoken_example :
    Spoken snow ch server_env loop_env client same x auth free
      (7 ∷ [])
      (8 ∷ [])
      attempt
      before
      []
      []
      w
      0
      9
      acts
unfolding State.new
connect-Spoken_example =
    connect-Spoken snow ch server_env loop_env client same x auth free (7 ∷ []) (8 ∷ []) attempt
      before [] [] w 0 9 acts compatible refl refl (small 7) (small 8) codec-IsLawful (λ n. refl)
      (λ n. refl) (λ t r s. sym s) (λ n. refl) (λ n. refl) (λ n. refl) acts-AllFit

abbrev uses : List HandleUse
uses =
    cloned
    ∷ drop_started
    ∷ drop_ended
    ∷ responded 5 (7 ∷ [])
    ∷ pushed (8 ∷ []) normal
    ∷ drop_started
    ∷ drop_ended
    ∷ []

abbrev session : Session snow
session = start snow server_env 0 (online snow 0) w

-- The commands, with a heartbeat before the last of them.
abbrev heard : List (ℕ × Event)
heard =
    (5, command (send (message_of 5 (7 ∷ [])) normal))
    ∷ (6, command (send (event_of (8 ∷ [])) normal))
    ∷ (30, heartbeat)
    ∷ (31, command close)
    ∷ []

heard-commands : commands_of heard ≡ (perform_all free uses new_handle).commands
unfolding perform_all perform clone drop release push_event try_send
    notifiapp_transport.Server.Handle.respond
heard-commands = refl

handles-Heeds_example :
    Heeds snow server_env
      (perform_all free uses new_handle).in_use
      (is_orderly free uses new_handle)
      (commands_of heard)
      (run_server_session snow server_env heard session)
handles-Heeds_example =
    handles-Heeds snow server_env free (λ n. refl) uses heard session heard-commands

all_dropped :
    ((perform_all free uses new_handle).in_use ≡ 0) × (is_orderly free uses new_handle ≡ true)
unfolding perform_all perform is_orderly clone drop release push_event try_send
    notifiapp_transport.Server.Handle.respond
all_dropped = (refl, refl)

-- Two drops that overlap: each reads a count of two, and nobody tells the session to close.
abbrev overlapping : List HandleUse
overlapping = cloned ∷ drop_started ∷ drop_started ∷ drop_ended ∷ drop_ended ∷ []

never_told :
    perform_all free overlapping new_handle
    ≡ record { in_use = 0; dropping = 0; tries = 0; commands = [] }
unfolding perform_all perform clone drop release
never_told = refl
