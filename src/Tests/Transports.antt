-- ===== src/Tests/Transports.antt =====
-- Both clients behind the trait, and a server that pushes events to a client.
use notifiapp_transport.Common.{
  ◌≡◌, refl, List, [], ◌∷◌, ◌++◌, map, concat, Bool, not, is_nil, none, some, ok, false,
  if◌then◌else◌, true, Text, codes, All, trim, trim_start, arith,
}
use notifiapp_transport.Scheduler.Levels.{normal}
use notifiapp_transport.Client.State.{Admission, timed_out, new}
use notifiapp_transport.Client.Requests.{start}
use notifiapp_transport.Http.Lines.{trim_end_matches}
use notifiapp_transport.Http.Events.{render}
use notifiapp_transport.Http.Emitter.{Axum, SseEmitter, sse_pair, send}
use notifiapp_transport.Http.Push.{
  IsAxum, IsUnbroken, Item, pushed, keep_alive, carried, events_of, body, split_lines, send_all,
  IsPlain, sse_pair-connect_sse,
}
use notifiapp_transport.Http.Subscription.{connect_sse}
use notifiapp_transport.Tests.Streams.{web, connected, has_break}
use notifiapp_transport.Transport.{
  TransportCall, request, send_event, set_endpoint, shutdown, perform_all, track_all,
}
use notifiapp_transport.Transport.Websocket
use notifiapp_transport.Transport.Websocket.{Outcome, websocket}
use notifiapp_transport.Transport.Http
use notifiapp_transport.Transport.Http.{http}
use notifiapp_transport.Transport.Clients.{clients-tracked}

abbrev free : Admission
free n = none

abbrev calls : {O : Type 0} → O → List (TransportCall O)
calls o =
    set_endpoint (codes "ws://a")
    ∷ request (1 ∷ []) normal o
    ∷ set_endpoint []
    ∷ send_event (2 ∷ []) normal
    ∷ shutdown
    ∷ []

abbrev outcome : Outcome
outcome = record { is_open = true; meanwhile = start (3 ∷ []) ∷ []; awaited = timed_out }

abbrev is_url : Text → Bool
is_url s = not (is_nil s)

clients-tracked_example :
    let c' = perform_all (websocket free is_url) (calls outcome) new in
    let h' = perform_all (http web) (calls tt) connected in
    let v = track_all is_url (λ s. s) (calls outcome) (Websocket.seen new) in
    let u = track_all (Http.is_url web) (Http.shown web) (calls tt) (Http.seen web connected) in
    (c'.url ≡ v.endpoint)
    × (c'.cancelled ≡ v.is_down)
    × ((http web).endpoint h' ≡ u.endpoint)
    × (h'.cancelled ≡ u.is_down)
clients-tracked_example = clients-tracked web free is_url (calls outcome) new (calls tt) connected

-- It panics at a type of several lines.
abbrev axum : Axum
axum = record {
  Event = Text;
  build = λ t d. if has_break t then none else some (render (t, split_lines d));
  write = λ e. e;
  comment = λ t. codes ": " ++ (t ++ codes "\n\n");
}

unbroken : (t : Text) → IsUnbroken t → has_break t ≡ false
unbroken [] h = refl
unbroken (c ∷ t) ((l, ls), (r, rs)) = rw (l, r) (unbroken t (ls, rs))

axum-IsAxum : IsAxum axum
axum-IsAxum = record {
  event_lem = λ t d h r f. (render (t, split_lines d), rw (unbroken t h) refl, refl);
  comment_lem = λ t h. refl;
}

abbrev pushes : List (Text × Text)
pushes = (codes "state", codes "on\noff") ∷ (codes "state", codes "off") ∷ []

pushes-IsPlain : All IsPlain pushes
unfolding trim trim_start trim_end_matches split_lines
pushes-IsPlain = (
  (
    (ground arith, refl, refl),
    ((ground arith, refl, refl), ((ground arith, refl, refl), tt)),
    ground arith,
    ground arith,
    refl,
  ),
  (
    (
      (ground arith, refl, refl),
      ((ground arith, refl, refl), tt),
      ground arith,
      ground arith,
      refl,
    ),
    tt,
  ),
)

abbrev event_of : Text → Text → Text
event_of t d = render (t, split_lines d)

abbrev items : List (Item Text)
items =
    keep_alive
    ∷ pushed (event_of (codes "state") (codes "on\noff"))
    ∷ keep_alive
    ∷ pushed (event_of (codes "state") (codes "off"))
    ∷ []

items-carried : carried axum items ≡ events_of axum (send_all axum pushes (sse_pair axum).0)
unfolding send_all send sse_pair
items-carried = refl

in_one_chunk : concat (body axum items ∷ []) ≡ body axum items
unfolding render split_lines sse_pair
in_one_chunk = refl

sse_pair-connect_sse_example :
    ((s : SseEmitter axum) × (send_all axum pushes (sse_pair axum).0 ≡ some s))
    × (connect_sse web (λ bytes. bytes) (ok 200) (map ok (body axum items ∷ [])) ≡ (ok tt, pushes))
sse_pair-connect_sse_example =
    sse_pair-connect_sse axum axum-IsAxum web (λ bytes. bytes) pushes items 200
      (body axum items ∷ []) pushes-IsPlain items-carried refl in_one_chunk

-- A type of two lines.
panics : send axum (codes "a\nb") [] (sse_pair axum).0 ≡ none
unfolding send sse_pair
panics = refl
