-- ===== src/Crypto/Chunks.antt =====
-- `chunks`, by which src/crypto.rs cuts a payload.
use notifiapp_transport.Common.{
  ℕ, zero, suc, ◌≤◌, ◌<◌, ◌≡◌, refl, ap, ◌∙◌, arith, List, [], ◌∷◌, ◌++◌, All, concat, length, min,
  take, drop, take-append-drop, length-take, length-drop,
}
use notifiapp_transport.Crypto.{chunks_within, chunks}

module _ {ℓ} {A : Type ℓ} (n : ℕ) where
  concat-chunks_within :
      (fuel : ℕ) (xs : List A) → 0 < n → length xs ≤ fuel → concat (chunks_within fuel n xs) ≡ xs
  unfolding chunks_within
  concat-chunks_within zero [] p h = refl
  concat-chunks_within zero (x ∷ xs) p h = absurd (omega arith)
  concat-chunks_within (suc fuel) [] p h = refl
  concat-chunks_within (suc fuel) (x ∷ xs) p h =
      ap (◌++◌ (take n (x ∷ xs)))
        (concat-chunks_within fuel (drop n (x ∷ xs)) p (omega (arith, length-drop n (x ∷ xs))))
      ∙ take-append-drop n (x ∷ xs)

  -- No piece is empty, and none is longer than `n`.
  abbrev pub IsPiece : List A → Type 0
  IsPiece c = (0 < length c) × (length c ≤ n)

  chunks_within-IsPiece : (fuel : ℕ) (xs : List A) → 0 < n → All IsPiece (chunks_within fuel n xs)
  unfolding chunks_within
  chunks_within-IsPiece zero xs p = tt
  chunks_within-IsPiece (suc fuel) [] p = tt
  chunks_within-IsPiece (suc fuel) (x ∷ xs) p = (
    (omega (arith, length-take n (x ∷ xs)), omega (arith, length-take n (x ∷ xs))),
    chunks_within-IsPiece fuel (drop n (x ∷ xs)) p,
  )

  pub concat-chunks : (xs : List A) → 0 < n → concat (chunks n xs) ≡ xs
  unfolding chunks
  concat-chunks xs p = concat-chunks_within (length xs) xs p (omega arith)

  pub chunks-IsPiece : (xs : List A) → 0 < n → All IsPiece (chunks n xs)
  unfolding chunks
  chunks-IsPiece xs p = chunks_within-IsPiece (length xs) xs p

  -- A payload that is not empty has a first piece, of length `n` or the whole payload.
  pub chunks-first :
      (x : A) (xs : List A)
      → 0 < n
      → (first : List A) × (others : List (List A)) × (chunks n (x ∷ xs) ≡ first ∷ others)
        × (first ++ concat others ≡ x ∷ xs)
        × (length first ≡ min n (suc (length xs)))
        × All (λ c. 0 < length c) others
  unfolding chunks chunks_within
  chunks-first x xs p = (
    take n (x ∷ xs),
    chunks_within (length xs) n (drop n (x ∷ xs)),
    refl,
    concat-chunks (x ∷ xs) p,
    length-take n (x ∷ xs),
    All-pos _ (chunks_within-IsPiece (length xs) (drop n (x ∷ xs)) p),
  )
    where
      All-pos : (cs : List (List A)) → All IsPiece cs → All (λ c. 0 < length c) cs
      All-pos [] h = tt
      All-pos (c ∷ cs) h = (h.0.0, All-pos cs h.1)
