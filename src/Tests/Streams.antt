-- ===== src/Tests/Streams.antt =====
-- src/http/ on concrete streams, networks and emitters.
use notifiapp_transport.Common.{
  ℕ, ◌≡◌, refl, List, [], ◌∷◌, ◌++◌, map, concat, none, some, ok, true, false, Text, codes, Result,
  All, trim, trim_start, arith, Bool, ◌==◌, ◌||◌, if◌then◌else◌,
}
use notifiapp_transport.Http.Lines.{initial, on_chunks, trim_end_matches}
use notifiapp_transport.Http.Chunking.{consume_all, on_chunks-consume_all}
use notifiapp_transport.Http.Events.{ServerEvent, IsEvent, render, call_of, on_chunks-render}
use notifiapp_transport.Http.Libraries.{Libraries}
use notifiapp_transport.Http.Client.{HttpClient}
use notifiapp_transport.Http.Subscription.{waiting, sse_loop}
use notifiapp_transport.Http.Reconnection.{
  Attempt, failed, streamed, round_of, calls_of, IsFed, sse_loop-calls_of,
}
use notifiapp_transport.Http.Endpoint.{
  Command, send_event, on_event, set_endpoint, shutdown, clear_endpoint, perform, perform_all,
  SetsNone, IsClosed, clear_endpoint-IsClosed,
}
use notifiapp_transport.Http.Emitter.{Axum, SseEmitter, broadcast_sse_json}
use notifiapp_transport.Http.Broadcast.{expected, broadcast_sse_json-expected}

-- A stream that is cut within a line.
abbrev pieces : List Text
pieces = codes "event: st" ∷ codes "ate\ndata: on\ndata" ∷ codes ": off\n\nda" ∷ []

on_chunks-consume_all_example : on_chunks pieces initial ≡ consume_all (concat pieces) initial
unfolding initial
on_chunks-consume_all_example = on_chunks-consume_all pieces initial tt

abbrev state : ServerEvent
state = (codes "state", codes "on" ∷ codes "off" ∷ [])

state-IsEvent : All IsEvent (state ∷ [])
unfolding trim trim_start trim_end_matches
state-IsEvent = (
  (
    (ground arith, refl, refl),
    ((ground arith, refl, refl), ((ground arith, refl, refl), tt)),
    refl,
  ),
  tt,
)

whole : concat pieces ≡ concat (map render (state ∷ [])) ++ codes "da"
unfolding render
whole = refl

on_chunks-render_example :
    on_chunks pieces initial
    ≡ record initial { leftover = codes "da"; handled = map call_of (state ∷ []) }
on_chunks-render_example =
    on_chunks-render (state ∷ []) (codes "da") pieces state-IsEvent (ground arith) whole

-- A network that answers every request with a success, and addresses that are texts.
abbrev pub web : Libraries Text (Unit {0}) ℕ
web = record {
  parse = λ s. elim s [ [] ↦ none | c ∷ cs ↦ some (c ∷ cs) ];
  join = λ base path. some (base ++ path);
  to_string = λ url. url;
  is_header_value = λ s. true;
  build = λ timeout header. ok tt;
  send = λ client request. ok 200;
  status = λ response. response;
  is_success = λ code. true;
  canonical_reason = λ code. none;
  status_text = λ code. [];
  bytes = λ response. ok [];
}

-- A connection that is refused, and one that brings the event and breaks off.
abbrev attempts : List (Attempt ℕ)
attempts =
    failed (codes "refused")
    ∷ streamed (record {
      response = 200;
      chunks = pieces;
      broken = some (codes "reset");
      events = state ∷ [];
      tail = codes "da";
    })
    ∷ []

attempts-IsFed : All (IsFed web (λ bytes. bytes)) attempts
unfolding IsFed
attempts-IsFed = (tt, ((refl, state-IsEvent, ground arith, whole), tt))

sse_loop-calls_of_example :
    sse_loop web (λ bytes. bytes) (map round_of attempts ++ (waiting ∷ [])) ≡ (
      (sse_loop web (λ bytes. bytes) (waiting ∷ [])).0,
      concat (map calls_of attempts) ++ (sse_loop web (λ bytes. bytes) (waiting ∷ [])).1,
    )
sse_loop-calls_of_example =
    sse_loop-calls_of web (λ bytes. bytes) attempts (waiting ∷ []) attempts-IsFed

abbrev pub connected : HttpClient Text (Unit {0})
connected = record {
  client = tt;
  base_url = some (codes "http://host");
  config = record { base_url = []; request_timeout = 30; auth_token = none };
  cancelled = false;
  tasks = [];
}

abbrev commands : List Command
commands = send_event (1 ∷ []) ∷ on_event ∷ set_endpoint [] ∷ shutdown ∷ []

commands-SetsNone : All (SetsNone web) commands
unfolding SetsNone
commands-SetsNone = (tt, (tt, (refl, (tt, tt))))

clear_endpoint-IsClosed_example :
    IsClosed web (perform_all web commands (perform web clear_endpoint connected))
    × ((perform_all web commands (perform web clear_endpoint connected)).tasks ≡ connected.tasks)
clear_endpoint-IsClosed_example = clear_endpoint-IsClosed web commands connected commands-SetsNone

abbrev breaks : ℕ → Bool
breaks c = (c == b'\n') || (c == b'\r')

abbrev pub has_break : Text → Bool
has_break [] = false
has_break (c ∷ t) = breaks c || has_break t

-- It writes the type and the data, and panics at a type of several lines.
abbrev axum : Axum
axum = record {
  Event = Text × Text;
  build = λ t d. if has_break t then none else some (t, d);
  write = λ e. e.0 ++ e.1;
  comment = λ t. t;
}

abbrev emitters : List (SseEmitter axum)
emitters = record { is_closed = false; events = [] } ∷ record { is_closed = true; events = [] } ∷ []

abbrev to_json : ℕ → Result Text Text
to_json n = ok (n ∷ [])

broadcast_sse_json-expected_example :
    broadcast_sse_json axum to_json (codes "n") 55 emitters
    ≡ expected axum (codes "n") (to_json 55) emitters
broadcast_sse_json-expected_example =
    broadcast_sse_json-expected axum to_json (codes "n") 55 emitters
