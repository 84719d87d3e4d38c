-- ===== src/Http/Reconnection.antt =====
-- What the loop of src/http/client.rs hands to the handler over several connections.
use notifiapp_transport.Common.{
  ℕ, ◌≡◌, refl, ap, ◌∙◌, List, [], ◌∷◌, ◌++◌, true, false, Option, none, some, ok, err, Text, map,
  concat, All, append_assoc,
}
use notifiapp_transport.Http.Lines.{Parser, initial, on_chunk, on_chunks}
use notifiapp_transport.Http.Chunking.{IsLine}
use notifiapp_transport.Http.Events.{ServerEvent, IsEvent, render, call_of, on_chunks-render}
use notifiapp_transport.Http.Libraries.{Libraries}
use notifiapp_transport.Http.Client.{check_status}
use notifiapp_transport.Http.Subscription.{
  Calls, Chunk, Round, ended, read_stream, connect_sse, sse_loop,
}

-- A connection that brings some events and then ends, perhaps in the middle of a line.
pub record Feed (Response : Type 0) : Type 0 where
  pub response : Response
  pub chunks : List (List ℕ)
  pub broken : Option Text
  pub events : List ServerEvent
  pub tail : Text

pub data Attempt (Response : Type 0) : Type 0 where
  failed : Text → Attempt Response
  streamed : Feed Response → Attempt Response

abbrev failure : Option Text → List Chunk
failure none = []
failure (some e) = err e ∷ []

unfoldable pub round_of : {Response : Type 0} → Attempt Response → Round Response
round_of (failed e) = ended (err e) [] false false
round_of (streamed f) = ended (ok f.response) (map ok f.chunks ++ failure f.broken) false false

-- What is handed out.
unfoldable pub calls_of : {Response : Type 0} → Attempt Response → Calls
calls_of (failed e) = []
calls_of (streamed f) = map call_of f.events

module _ {Url Web Response : Type 0} (lib : Libraries Url Web Response)
    (from_utf8_lossy : List ℕ → Text) where
  -- The status is a success, and the text of the chunks is that of the events and a part of a line.
  unfoldable pub IsFed : Attempt Response → Type 0
  IsFed (failed e) = Unit
  IsFed (streamed f) =
      (lib.is_success (lib.status f.response) ≡ true)
      × All IsEvent f.events
      × IsLine f.tail
      × (concat (map from_utf8_lossy f.chunks) ≡ concat (map render f.events) ++ f.tail)

  read_stream-on_chunks :
      (cs : List (List ℕ)) (broken : Option Text) (p : Parser)
      → (read_stream from_utf8_lossy (map ok cs ++ failure broken) p).1
        ≡ on_chunks (map from_utf8_lossy cs) p
  unfolding read_stream on_chunks
  read_stream-on_chunks [] none p = refl
  read_stream-on_chunks [] (some e) p = refl
  read_stream-on_chunks (c ∷ cs) broken p =
      read_stream-on_chunks cs broken (on_chunk (from_utf8_lossy c) p)

  connect_sse-calls_of :
      (f : Feed Response)
      → IsFed (streamed f)
      → (connect_sse lib from_utf8_lossy (ok f.response) (map ok f.chunks ++ failure f.broken)).1
        ≡ map call_of f.events
  unfolding connect_sse check_status IsFed
  connect_sse-calls_of f (good, es, l, e) =
      rw (connect_sse, check_status, good)
        (ap (λ p. p.handled)
          (read_stream-on_chunks f.chunks f.broken initial
            ∙ on_chunks-render f.events f.tail (map from_utf8_lossy f.chunks) es l e))

  -- Connections that fail, and connections with a success status whose chunks, each decoded by
  -- itself, give together the rendering of some events and a part of a line, and that then end or
  -- break, do not end the subscription: the handler gets just the events of all of them in order,
  -- and then what the further turns of the loop give.
  pub sse_loop-calls_of :
      (xs : List (Attempt Response)) (rounds : List (Round Response))
      → All IsFed xs
      → sse_loop lib from_utf8_lossy (map round_of xs ++ rounds) ≡ (
        (sse_loop lib from_utf8_lossy rounds).0,
        concat (map calls_of xs) ++ (sse_loop lib from_utf8_lossy rounds).1,
      )
  unfolding sse_loop round_of calls_of connect_sse check_status
  sse_loop-calls_of [] rounds h = refl
  sse_loop-calls_of (failed e ∷ xs) rounds h = sse_loop-calls_of xs rounds h.1
  sse_loop-calls_of (streamed f ∷ xs) rounds h =
      rw
        (
          connect_sse-calls_of f h.0,
          sse_loop-calls_of xs rounds h.1,
          append_assoc (map call_of f.events) (concat (map calls_of xs))
              (sse_loop lib from_utf8_lossy rounds).1,
        )
        refl
