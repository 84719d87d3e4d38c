-- ===== src/Frame/Stream.antt =====
-- The accumulator of src/frame.rs over a stream of chunks, as the receive loops feed it.
use notifiapp_transport.Common.{
  ℕ, ◌^◌, ◌≤◌, ◌<◌, ◌≡◌, refl, ap, ◌∙◌, List, [], ◌∷◌, ◌++◌, All, concat, map, Option, none, some,
  length, Result, ok, err,
}
use notifiapp_transport.Error.{TransportError}
use notifiapp_transport.Frame.{FrameAccumulator, fresh, feed}
use notifiapp_transport.Frame.Arrivals.{Cuts, Arrives, last, more, Cuts-Arrives}

-- The frames that come out, and the accumulator that stays; the first error ends the stream.
abbrev Outcome : Type 0
Outcome = Result (List (List ℕ)) TransportError × FrameAccumulator

abbrev pub collect : Option (List ℕ) → Outcome → Outcome
collect none r = r
collect (some b) (ok bs, acc) = (ok (b ∷ bs), acc)
collect (some b) (err e, acc) = (err e, acc)

abbrev pub and_then :
    Result (Option (List ℕ)) TransportError × FrameAccumulator
    → (FrameAccumulator → Outcome)
    → Outcome
and_then (ok o, acc) k = collect o (k acc)
and_then (err e, acc) k = (err e, acc)

unfoldable pub feed_all : ℕ → FrameAccumulator → List (List ℕ) → Outcome
feed_all max_bytes acc [] = (ok [], acc)
feed_all max_bytes acc (c ∷ cs) =
    and_then (feed acc c max_bytes) (λ acc'. feed_all max_bytes acc' cs)

-- A frame and the chunks in which it is sent.
pub record Sendable (max_bytes : ℕ) (f : List ℕ × List (List ℕ)) : Type 0 where
  pub width : length f.0 < 2 ^ 32
  pub admitted : length f.0 ≤ max_bytes
  pub cuts : Cuts f.0 f.1

abbrev pub joined : List (List ℕ) → Outcome → Outcome
joined bs (ok cs, acc) = (ok (bs ++ cs), acc)
joined bs (err e, acc) = (err e, acc)

abbrev pub chain : Outcome → (FrameAccumulator → Outcome) → Outcome
chain (ok bs, acc) k = joined bs (k acc)
chain (err e, acc) k = (err e, acc)

module _ (max_bytes : ℕ) where
  collect-chain :
      (o : Option (List ℕ)) (r : Outcome) (k : FrameAccumulator → Outcome)
      → collect o (chain r k) ≡ chain (collect o r) k
  collect-chain none r k = refl
  collect-chain (some b) (ok bs, acc) k = collect-joined b bs (k acc)
    where
      collect-joined :
          (b : List ℕ) (bs : List (List ℕ)) (r : Outcome)
          → collect (some b) (joined bs r) ≡ joined (b ∷ bs) r
      collect-joined b bs (ok cs, acc') = refl
      collect-joined b bs (err e, acc') = refl
  collect-chain (some b) (err e, acc) k = refl

  feed_all-append :
      (cs ds : List (List ℕ)) (acc : FrameAccumulator)
      → feed_all max_bytes acc (cs ++ ds)
        ≡ chain (feed_all max_bytes acc cs) (λ a. feed_all max_bytes a ds)
  unfolding feed_all
  feed_all-append [] ds acc = joined-nil (feed_all max_bytes acc ds)
    where
      joined-nil : (r : Outcome) → r ≡ joined [] r
      joined-nil (ok cs, acc') = refl
      joined-nil (err e, acc') = refl
  feed_all-append (c ∷ cs) ds acc = step (feed acc c max_bytes) (feed_all-append cs ds)
    where
      step :
          (r : Result (Option (List ℕ)) TransportError × FrameAccumulator)
          → ((a : FrameAccumulator)
              → feed_all max_bytes a (cs ++ ds)
                ≡ chain (feed_all max_bytes a cs) (λ a'. feed_all max_bytes a' ds))
          → and_then r (λ a. feed_all max_bytes a (cs ++ ds))
            ≡ chain (and_then r (λ a. feed_all max_bytes a cs)) (λ a. feed_all max_bytes a ds)
      step (ok o, a) ih = ap (collect o) (ih a) ∙ collect-chain o (feed_all max_bytes a cs) _
      step (err e, a) ih = refl

  feed_all-Arrives :
      {payload : List ℕ} {acc : FrameAccumulator} {cs : List (List ℕ)}
      → Arrives max_bytes payload acc cs
      → feed_all max_bytes acc cs ≡ (ok (payload ∷ []), fresh)
  unfolding feed_all
  feed_all-Arrives (last e) = rw e
  feed_all-Arrives (more e a) = rw e (feed_all-Arrives a)

  -- The chunks of any sequence of frames of less than 2 ^ 32 bytes and within the limit, each
  -- frame cut so that its prefix lies in its first chunk and no later chunk is empty, are
  -- reassembled into just these frames, and the accumulator is empty again.
  pub feed_all-frames :
      (sent : List (List ℕ × List (List ℕ)))
      → All (Sendable max_bytes) sent
      → feed_all max_bytes fresh (concat (map (λ f. f.1) sent)) ≡ (ok (map (λ f. f.0) sent), fresh)
  feed_all-frames [] h = unfold feed_all in refl
  feed_all-frames ((payload, chunks) ∷ sent) h = rw (
    feed_all-append chunks (concat (map (λ f. f.1) sent)) fresh,
    feed_all-Arrives (Cuts-Arrives max_bytes payload chunks h.0.width h.0.admitted h.0.cuts),
    feed_all-frames sent h.1,
  )
