-- ===== src/Frame/Arrivals.antt =====
-- How one frame of src/frame.rs arrives, chunk by chunk.
use notifiapp_transport.Common.{
  ℕ, ◌+◌, ◌^◌, ◌%◌, ◌≤◌, ◌<◌, ◌≡◌, refl, sym, ap, ◌∙◌, inl, inr, arith, List, [], ◌∷◌, ◌++◌, All,
  concat, none, some, length, length-append, take-length, append-nil, append_assoc, ok, false,
  Bool-cases, ltb,
}
use notifiapp_transport.Frame.{
  FrameAccumulator, fresh, feed, finish, feed_first, feed_more, to_le_bytes,
}
use notifiapp_transport.Frame.Bytes.{from_le_bytes-to_le_bytes}

abbrev pub IsChunk : List ℕ → Type 0
IsChunk c = 0 < length c

-- The chunks in which one frame arrives: together its length prefix and its bytes, none of them
-- empty, and the first with the whole prefix.
pub record Cuts (payload : List ℕ) (chunks : List (List ℕ)) : Type 0 where
  pub first : List ℕ
  pub others : List (List ℕ)
  pub split : chunks ≡ first ∷ others
  pub whole : first ++ concat others ≡ to_le_bytes (length payload % 2 ^ 32) ++ payload
  pub prefix : 4 ≤ length first
  pub chunky : All IsChunk others

-- All chunks but the last leave the frame incomplete; the last one completes it.
pub data Arrives (max_bytes : ℕ) (payload : List ℕ)
    : FrameAccumulator → List (List ℕ) → Type 0 where
  last :
      {acc : FrameAccumulator} {c : List ℕ}
      → feed acc c max_bytes ≡ (ok (some payload), fresh)
      → Arrives max_bytes payload acc (c ∷ [])
  more :
      {acc acc' : FrameAccumulator} {c : List ℕ} {cs : List (List ℕ)}
      → feed acc c max_bytes ≡ (ok none, acc')
      → Arrives max_bytes payload acc' cs
      → Arrives max_bytes payload acc (c ∷ cs)

-- The prefix lies in the first chunk.
pub prefix_split :
    (first rest payload : List ℕ) (a b c d : ℕ)
    → first ++ rest ≡ a ∷ b ∷ c ∷ d ∷ payload
    → 4 ≤ length first
    → (r : List ℕ) × (first ≡ a ∷ b ∷ c ∷ d ∷ r) × (r ++ rest ≡ payload)
prefix_split [] rest payload a b c d e h = absurd (omega arith)
prefix_split (w ∷ []) rest payload a b c d e h = absurd (omega arith)
prefix_split (w ∷ x ∷ []) rest payload a b c d e h = absurd (omega arith)
prefix_split (w ∷ x ∷ y ∷ []) rest payload a b c d e h = absurd (omega arith)
prefix_split (w ∷ x ∷ y ∷ z ∷ r) rest payload a b c d e h = (r, cc, cc)

module _ (max_bytes : ℕ) where
  feed-partial :
      (n : ℕ) (b c : List ℕ)
      → length (b ++ c) < n
      → n ≤ max_bytes
      → feed (record { expected_len = n; buffer = b }) c max_bytes
        ≡ (ok none, record { expected_len = n; buffer = b ++ c })
  unfolding feed feed_more finish
  feed-partial n b c h m = ground arith

  feed_complete :
      (n : ℕ) (b c : List ℕ)
      → length (b ++ c) ≡ n
      → 0 < n
      → n ≤ max_bytes
      → feed (record { expected_len = n; buffer = b }) c max_bytes ≡ (ok (some (b ++ c)), fresh)
  unfolding feed feed_more finish
  feed_complete n b c e p m = ground (arith, take-length (b ++ c))

  finish-partial :
      (n : ℕ) (b : List ℕ)
      → length b < n
      → finish (record { expected_len = n; buffer = b })
        ≡ (ok none, record { expected_len = n; buffer = b })
  unfolding finish
  finish-partial n b h = ground arith

  finish_complete :
      (n : ℕ) (b : List ℕ)
      → length b ≡ n
      → finish (record { expected_len = n; buffer = b }) ≡ (ok (some b), fresh)
  unfolding finish
  finish_complete n b h = ground (arith, take-length b)

  no-chunks : (cs : List (List ℕ)) → All IsChunk cs → length (concat cs) ≡ 0 → cs ≡ []
  no-chunks [] h e = refl
  no-chunks (c ∷ cs) h e = absurd (omega (arith, length-append c (concat cs), h.0))

  last-Arrives :
      (cs : List (List ℕ)) (n : ℕ) (b c payload : List ℕ)
      → cs ≡ []
      → (b ++ c) ++ concat cs ≡ payload
      → length payload ≡ n
      → 0 < n
      → n ≤ max_bytes
      → Arrives max_bytes payload (record { expected_len = n; buffer = b }) (c ∷ cs)
  last-Arrives [] n b c payload e f l p m =
      let whole : b ++ c ≡ payload = sym (append-nil (b ++ c)) ∙ f in
      last (feed_complete n b c (ap length whole ∙ l) p m ∙ ap (λ t. (ok (some t), fresh)) whole)
  last-Arrives (d ∷ cs) n b c payload e f l p m = cc

  rest-Arrives :
      (cs : List (List ℕ)) (n : ℕ) (b payload : List ℕ)
      → b ++ concat cs ≡ payload
      → length payload ≡ n
      → length b < n
      → n ≤ max_bytes
      → All IsChunk cs
      → Arrives max_bytes payload (record { expected_len = n; buffer = b }) cs
  rest-Arrives [] n b payload e l h m k =
      absurd (omega (arith, ap length e, ap length (append-nil b)))
  rest-Arrives (c ∷ cs) n b payload e l h m k = elim (Bool-cases (ltb (length (b ++ c)) n)) [
    | inl part ↦
        more (feed-partial n b c (ground arith) m)
          (rest-Arrives cs n (b ++ c) payload regrouped l (ground arith) m k.1)
    | inr done ↦ last-Arrives cs n b c payload (none_left done) regrouped l (omega arith) m
  ]
    where
      regrouped : (b ++ c) ++ concat cs ≡ payload
      regrouped = append_assoc b c (concat cs) ∙ e

      total : length (b ++ c) + length (concat cs) ≡ n
      total = sym (length-append (b ++ c) (concat cs)) ∙ ap length regrouped ∙ l

      none_left : ltb (length (b ++ c)) n ≡ false → cs ≡ []
      none_left done = no-chunks cs k.1 (ground (arith, total))

  feed_first-cut :
      (n : ℕ) (rest : List ℕ)
      → n < 2 ^ 32
      → n ≤ max_bytes
      → feed fresh (to_le_bytes n ++ rest) max_bytes
        ≡ finish (record { expected_len = n; buffer = rest })
  unfolding feed feed_first
  feed_first-cut n rest h m = ground (arith, from_le_bytes-to_le_bytes n)

  cut-Arrives :
      (n : ℕ) (r payload : List ℕ) (cs : List (List ℕ))
      → n < 2 ^ 32
      → n ≤ max_bytes
      → length payload ≡ n
      → r ++ concat cs ≡ payload
      → All IsChunk cs
      → Arrives max_bytes payload fresh ((to_le_bytes n ++ r) ∷ cs)
  cut-Arrives n r payload cs w m l e k = elim (Bool-cases (ltb (length r) n)) [
    | inl part ↦
        more (feed_first-cut n r w m ∙ finish-partial n r (ground arith))
          (rest-Arrives cs n r payload e l (ground arith) m k)
    | inr done ↦
        let total : length r + length (concat cs) ≡ n =
          sym (length-append r (concat cs)) ∙ ap length e ∙ l in
        let none_left : cs ≡ [] = no-chunks cs k (ground arith) in
        let whole : r ≡ payload = sym (append-nil r) ∙ rw none_left at e in
        rw none_left (
          last (
            feed_first-cut n r w m
            ∙ finish_complete n r (ap length whole ∙ l)
            ∙ ap (λ t. (ok (some t), fresh)) whole))
  ]

  -- A frame within the limits that is cut up so arrives.
  pub Cuts-Arrives :
      (payload : List ℕ) (chunks : List (List ℕ))
      → length payload < 2 ^ 32
      → length payload ≤ max_bytes
      → Cuts payload chunks
      → Arrives max_bytes payload fresh chunks
  Cuts-Arrives payload chunks w m cut =
      let n : ℕ = length payload in
      let e : n % 2 ^ 32 ≡ n = omega arith in
      let (r, f, g) =
        prefix_split cut.first (concat cut.others) payload _ _ _ _ (rw e at cut.whole) cut.prefix in
      rw (cut.split, f) (cut-Arrives n r payload cut.others w m refl g cut.chunky)
