-- ===== src/Http/Chunking.antt =====
-- How the parser of src/http/client.rs depends on the chunks in which its input comes.
use notifiapp_transport.Common.{
  ℕ, zero, suc, ◌≤◌, ◌≡◌, refl, sym, ap, ◌∙◌, arith, List, [], ◌∷◌, ◌++◌, All, true, false, none,
  some, Text, ◌==◌, if◌then◌else◌, length, concat, append-nil, append_assoc, length-append,
  Bool-cases, inl, inr,
}
use notifiapp_transport.Http.Lines.{
  Parser, find_line, read_line, drain, on_chunk, on_chunks, hand_out, read_field,
}

==-≡ : (a b : ℕ) → (a == b) ≡ true → a ≡ b
==-≡ a b h = ground arith

-- A text of one line.
abbrev pub IsLine : Text → Type 0
IsLine t = All (λ c. (c == b'\n') ≡ false) t

pub IsLine-append : (s t : Text) → IsLine s → IsLine t → IsLine (s ++ t)
IsLine-append [] t h k = k
IsLine-append (c ∷ s) t h k = (h.0, IsLine-append s t h.1 k)

find_line-IsLine : (l : Text) → IsLine l → find_line l ≡ none
unfolding find_line
find_line-IsLine [] h = refl
find_line-IsLine (c ∷ l) h = rw (h.0, find_line-IsLine l h.1) refl

find_line-append :
    (l t : Text) → IsLine l → find_line (l ++ (b'\n' ∷ t)) ≡ some (l ++ (b'\n' ∷ []), t)
unfolding find_line
find_line-append [] t h = refl
find_line-append (c ∷ l) t h = rw (h.0, find_line-append l t h.1) refl

-- A reference parser that takes one character at a time.
unfoldable pub consume : ℕ → Parser → Parser
consume c p =
    if c == b'\n'
    then read_line (p.leftover ++ (b'\n' ∷ [])) (record p { leftover = [] })
    else record p { leftover = p.leftover ++ (c ∷ []) }

unfoldable pub consume_all : Text → Parser → Parser
consume_all [] p = p
consume_all (c ∷ cs) p = consume_all cs (consume c p)

pub consume_all-append :
    (s t : Text) (p : Parser) → consume_all (s ++ t) p ≡ consume_all t (consume_all s p)
unfolding consume_all
consume_all-append [] t p = refl
consume_all-append (c ∷ s) t p = consume_all-append s t (consume c p)

-- A line changes nothing of what is left over.
read_line-leftover : (l : Text) (p : Parser) → (read_line l p).leftover ≡ p.leftover
unfolding read_line hand_out read_field
read_line-leftover l p = ground arith

-- What is left over has no part in the reading of a line.
read_line-read_line :
    (l t : Text) (p : Parser)
    → read_line l (record p { leftover = t }) ≡ record (read_line l p) { leftover = t }
unfolding read_line hand_out read_field
read_line-read_line l t p = ground arith

consume-IsLine : (c : ℕ) (p : Parser) → IsLine p.leftover → IsLine (consume c p).leftover
unfolding consume
consume-IsLine c p h = elim (Bool-cases (c == b'\n')) [
  | inl e ↦ rw (e, read_line-leftover (p.leftover ++ (b'\n' ∷ [])) (record p { leftover = [] })) tt
  | inr e ↦ rw (e) (IsLine-append p.leftover (c ∷ []) h (e, tt))
]

drain-IsLine : (fuel : ℕ) (p : Parser) → IsLine p.leftover → drain fuel p ≡ p
unfolding drain
drain-IsLine zero p h = refl
drain-IsLine (suc fuel) p h = rw (drain, find_line-IsLine p.leftover h) refl

-- One round of the loop, where the text has a newline.
drain-read_line :
    (fuel : ℕ) (l t : Text) (p : Parser)
    → IsLine l
    → drain (suc fuel) (record p { leftover = l ++ (b'\n' ∷ t) })
      ≡ drain fuel
          (record (read_line (l ++ (b'\n' ∷ [])) (record p { leftover = [] })) { leftover = t })
unfolding drain
drain-read_line fuel l t p h =
    rw (drain, find_line-append l t h)
      (ap (drain fuel) (read_line-read_line (l ++ (b'\n' ∷ [])) t (record p { leftover = [] })))

drain-consume_all :
    (fuel : ℕ) (l t : Text) (p : Parser)
    → IsLine l
    → length t ≤ fuel
    → drain fuel (record p { leftover = l ++ t }) ≡ consume_all t (record p { leftover = l })
unfolding consume_all consume
drain-consume_all fuel l [] p h n =
    rw (append-nil l) (drain-IsLine fuel (record p { leftover = l }) h)
drain-consume_all zero l (c ∷ t) p h n = absurd (omega (arith, n))
drain-consume_all (suc fuel) l (c ∷ t) p h n = elim (Bool-cases (c == b'\n')) [
  | inl e ↦ rw (==-≡ c b'\n' e) (
      drain-read_line fuel l t p h
      ∙ (drain-consume_all fuel [] t (read_line (l ++ (b'\n' ∷ [])) (record p { leftover = [] })) tt
            (omega (arith, n))
          ∙ ap (consume_all t)
              (sym (read_line-read_line (l ++ (b'\n' ∷ [])) [] (record p { leftover = [] })))))
  | inr e ↦ rw (e) (
      ap (λ x. drain (suc fuel) (record p { leftover = x })) (sym (append_assoc l (c ∷ []) t))
      ∙ drain-consume_all (suc fuel) (l ++ (c ∷ [])) t p (IsLine-append l (c ∷ []) h (e, tt))
          (omega (arith, n)))
]

-- Within a line, the text is kept.
pub consume_all_line :
    (l t : Text) (p : Parser)
    → IsLine l
    → IsLine t
    → consume_all t (record p { leftover = l }) ≡ record p { leftover = l ++ t }
consume_all_line l t p h k =
    sym (drain-consume_all (length t) l t p h (omega arith))
    ∙ drain-IsLine (length t) (record p { leftover = l ++ t }) (IsLine-append l t h k)

on_chunk-consume_all : (t : Text) (p : Parser) → IsLine p.leftover → on_chunk t p ≡ consume_all t p
unfolding on_chunk
on_chunk-consume_all t p h =
    drain-consume_all (length (p.leftover ++ t)) p.leftover t p h
      (rw (length-append p.leftover t) (omega arith))

consume_all-IsLine : (t : Text) (p : Parser) → IsLine p.leftover → IsLine (consume_all t p).leftover
unfolding consume_all
consume_all-IsLine [] p h = h
consume_all-IsLine (c ∷ t) p h = consume_all-IsLine t (consume c p) (consume-IsLine c p h)

-- When what is left over holds no newline, reading the chunks of a stream of events leaves the
-- parser as reading their concatenation one character at a time does: where the stream is cut has
-- no influence, and the fuel of the line loop suffices.
pub on_chunks-consume_all :
    (ts : List Text) (p : Parser) → IsLine p.leftover → on_chunks ts p ≡ consume_all (concat ts) p
unfolding on_chunks consume_all
on_chunks-consume_all [] p h = refl
on_chunks-consume_all (t ∷ ts) p h =
    rw (on_chunk-consume_all t p h, consume_all-append t (concat ts) p)
      (on_chunks-consume_all ts (consume_all t p) (consume_all-IsLine t p h))
