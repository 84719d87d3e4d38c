-- ===== src/Http/Subscription.antt =====
-- `connect_sse` and `sse_loop` of src/http/client.rs: the stream of events, and the reconnections.
use notifiapp_transport.Common.{
  ℕ, List, [], ◌∷◌, ◌++◌, Bool, true, false, Result, ok, err, Text, codes, if◌then◌else◌, map, ◌||◌,
}
use notifiapp_transport.Error.{TransportError, http_error}
use notifiapp_transport.Http.Lines.{Parser, initial, on_chunk}
use notifiapp_transport.Http.Libraries.{Method, empty, Request, Libraries}
use notifiapp_transport.Http.Client.{check_status}

-- The calls of the handler: the type of the event and its data.
abbrev pub Calls : Type 0
Calls = List (Text × Text)

-- An item of `bytes_stream`.
abbrev pub Chunk : Type 0
Chunk = Result (List ℕ) Text

unfoldable pub event_stream : List (Text × Text)
event_stream =
    (codes "Accept", codes "text/event-stream") ∷ (codes "Cache-Control", codes "no-cache") ∷ []

-- The chunks are decoded one by one; the first that failed ends the connection.
unfoldable pub read_stream :
    (List ℕ → Text) → List Chunk → Parser → Result (Unit {0}) TransportError × Parser
read_stream from_utf8_lossy [] p = (ok tt, p)
read_stream from_utf8_lossy (err e ∷ cs) p = (err (http_error e), p)
read_stream from_utf8_lossy (ok chunk ∷ cs) p =
    read_stream from_utf8_lossy cs (on_chunk (from_utf8_lossy chunk) p)

module _ {Url Web Response : Type 0} (lib : Libraries Url Web Response) where
  unfoldable pub stream_request : Url → Request Url
  unfolding event_stream
  stream_request url = record {
    method = Method.get;
    url = url;
    headers = event_stream;
    body = empty;
  }

  unfoldable pub refused : ℕ → Text
  refused status = codes "SSE endpoint returned HTTP " ++ lib.status_text status

  -- One connection, with what the network answers and the stream behind it.
  unfoldable pub connect_sse :
      (List ℕ → Text) → Result Response Text → List Chunk → Result (Unit {0}) TransportError × Calls
  unfolding check_status read_stream refused
  connect_sse from_utf8_lossy answer chunks = elim (check_status lib refused answer) [
    | err e ↦ (err e, [])
    | ok response ↦ (let end = read_stream from_utf8_lossy chunks initial in (end.0, end.1.handled))
  ]

-- One turn of the loop, as the token and the network let it go.
pub data Round (Response : Type 0) : Type 0 where
  -- The token is cancelled before there is a response.
  waiting : Round Response
  -- It is cancelled behind the chunks that are read: the connection is dropped.
  dropped : Response → List Chunk → Round Response
  -- The connection ends. Is the token cancelled then, and in the pause before the next?
  ended : Result Response Text → List Chunk → Bool → Bool → Round Response

module _ {Url Web Response : Type 0} (lib : Libraries Url Web Response)
    (from_utf8_lossy : List ℕ → Text) where
  -- Whether the loop has returned, and the calls of the handler.
  unfoldable pub sse_loop : List (Round Response) → Bool × Calls
  unfolding connect_sse
  sse_loop [] = (false, [])
  sse_loop (waiting ∷ rounds) = (true, [])
  sse_loop (dropped response chunks ∷ rounds) =
      (true, (connect_sse lib from_utf8_lossy (ok response) chunks).1)
  sse_loop (ended answer chunks at_end in_pause ∷ rounds) =
      let rest = sse_loop rounds in
      let calls = (connect_sse lib from_utf8_lossy answer chunks).1 in
      if at_end || in_pause then (true, calls) else (rest.0, calls ++ rest.1)

-- The handler of `on_event` is given the data alone, as bytes.
unfoldable pub event_bytes : (Text → List ℕ) → Calls → List (List ℕ)
event_bytes into_bytes calls = map (λ call. into_bytes call.1) calls
