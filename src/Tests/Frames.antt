-- ===== src/Tests/Frames.antt =====
-- src/frame.rs on concrete bytes.
use notifiapp_transport.Common.{ℕ, ◌≡◌, refl, arith, List, [], ◌∷◌, map, concat, ok}
use notifiapp_transport.Tests.{codec}
use notifiapp_transport.Frame.{event, encode_frame, feed, fresh}
use notifiapp_transport.Frame.Chunks.{Delivers, feed-Delivers, fresh-IsWellFormed}
use notifiapp_transport.Frame.Arrivals.{Cuts, Arrives, Cuts-Arrives}
use notifiapp_transport.Frame.Stream.{feed_all, Sendable, feed_all-frames}

encoded :
    encode_frame codec (record { id = 5; kind = event; payload = 9 ∷ [] })
    ≡ ok (3 ∷ 0 ∷ 0 ∷ 0 ∷ 5 ∷ 1 ∷ 9 ∷ [])
unfolding encode_frame
encoded = refl

feed-Delivers_example : Delivers 100 (feed fresh (2 ∷ 0 ∷ 0 ∷ 0 ∷ 7 ∷ 8 ∷ []) 100)
feed-Delivers_example =
    feed-Delivers 100 fresh (2 ∷ 0 ∷ 0 ∷ 0 ∷ 7 ∷ 8 ∷ []) (fresh-IsWellFormed 100)

abbrev payload : List ℕ
payload = 7 ∷ 8 ∷ 9 ∷ []

abbrev three_chunks : List (List ℕ)
three_chunks = (3 ∷ 0 ∷ 0 ∷ 0 ∷ []) ∷ (7 ∷ []) ∷ (8 ∷ 9 ∷ []) ∷ []

three_chunks-Cuts : Cuts payload three_chunks
three_chunks-Cuts = record {
  first = 3 ∷ 0 ∷ 0 ∷ 0 ∷ [];
  others = (7 ∷ []) ∷ (8 ∷ 9 ∷ []) ∷ [];
  split = refl;
  whole = refl;
  prefix = omega arith;
  chunky = (omega arith, (omega arith, tt));
}

Cuts-Arrives_example : Arrives 100 payload fresh three_chunks
Cuts-Arrives_example =
    Cuts-Arrives 100 payload three_chunks (omega arith) (omega arith) three_chunks-Cuts

abbrev two_frames : List (List ℕ × List (List ℕ))
two_frames = (payload, three_chunks) ∷ (payload, three_chunks) ∷ []

payload-Sendable : Sendable 100 (payload, three_chunks)
payload-Sendable = record { width = omega arith; admitted = omega arith; cuts = three_chunks-Cuts }

feed_all-frames_example :
    feed_all 100 fresh (concat (map (λ f. f.1) two_frames)) ≡ (ok (payload ∷ payload ∷ []), fresh)
feed_all-frames_example = feed_all-frames 100 two_frames (payload-Sendable, (payload-Sendable, tt))
