-- ===== src/Utils/Names.antt =====
-- The names and versions that src/utils.rs lets pass have no white space.
use notifiapp_transport.Common.{
  ℕ, ◌≡◌, refl, arith, [], ◌∷◌, ◌++◌, true, false, none, Text, codes, starts_with, strip_prefix,
  is_whitespace, trim_start, trim, All, ◌&&◌, ◌==◌, Bool-cases, inl, inr,
}
use mathlib.Core.List.{reverse, reverse_aux, reverse-reverse}
use notifiapp_transport.Utils.{is_valid, validate_protocol_string}

is_valid-is_whitespace : (c : ℕ) → is_valid c ≡ true → is_whitespace c ≡ false
unfolding is_valid is_whitespace
is_valid-is_whitespace c h = ground (arith, h)

is_valid-head : (c : ℕ) (t : Text) → validate_protocol_string (c ∷ t) ≡ true → is_valid c ≡ true
unfolding validate_protocol_string
is_valid-head c t h = ground (arith, h)

pub validate_tail :
    (c : ℕ) (t : Text) → validate_protocol_string (c ∷ t) ≡ true → validate_protocol_string t ≡ true
unfolding validate_protocol_string
validate_tail c t h = ground (arith, h)

pub no_space : (c : ℕ) (t : Text) → validate_protocol_string (c ∷ t) ≡ true → (c == b' ') ≡ false
unfolding is_valid
no_space c t h = let v = is_valid-head c t h in ground (arith, v)

pub no_space_before :
    (c : ℕ) (t : Text) → validate_protocol_string (c ∷ t) ≡ true → (b' ' == c) ≡ false
unfolding is_valid
no_space_before c t h = let v = is_valid-head c t h in ground (arith, v)

pub starts_with-∷ :
    (x c : ℕ) (p s : Text) → starts_with (x ∷ p) (c ∷ s) ≡ ((x == c) && starts_with p s)
unfolding starts_with strip_prefix
starts_with-∷ x c p s = elim (Bool-cases (x == c)) [
  | inl e ↦ rw (strip_prefix, e) refl
  | inr e ↦ rw (strip_prefix, e) refl
]

-- A version has neither spaces nor other white space.
pub strip_prefix-none :
    (p v : Text) → validate_protocol_string v ≡ true → strip_prefix (p ++ codes " ") v ≡ none
unfolding strip_prefix
strip_prefix-none [] [] h = refl
strip_prefix-none [] (c ∷ v) h = rw (strip_prefix, no_space_before c v h) refl
strip_prefix-none (x ∷ p) [] h = refl
strip_prefix-none (x ∷ p) (c ∷ v) h = elim (Bool-cases (x == c)) [
  | inl e ↦ rw (strip_prefix, e) (strip_prefix-none p v (validate_tail c v h))
  | inr e ↦ rw (strip_prefix, e) refl
]

IsPrinted : Text → Type 0
IsPrinted t = All (λ c. is_whitespace c ≡ false) t

validate-IsPrinted : (t : Text) → validate_protocol_string t ≡ true → IsPrinted t
unfolding IsPrinted
validate-IsPrinted [] h = tt
validate-IsPrinted (c ∷ t) h =
    (is_valid-is_whitespace c (is_valid-head c t h), validate-IsPrinted t (validate_tail c t h))

trim_start-IsPrinted : (t : Text) → IsPrinted t → trim_start t ≡ t
unfolding trim_start IsPrinted
trim_start-IsPrinted [] h = refl
trim_start-IsPrinted (c ∷ t) h = rw (trim_start, h.0) refl

reverse_aux-IsPrinted : (t r : Text) → IsPrinted t → IsPrinted r → IsPrinted (reverse_aux t r)
unfolding IsPrinted
reverse_aux-IsPrinted [] r h k = k
reverse_aux-IsPrinted (c ∷ t) r h k = reverse_aux-IsPrinted t (c ∷ r) h.1 (h.0, k)

pub trim-validate : (t : Text) → validate_protocol_string t ≡ true → trim t ≡ t
unfolding trim IsPrinted
trim-validate t h =
    let p = validate-IsPrinted t h in
    rw
      (trim_start-IsPrinted t p, trim_start-IsPrinted (reverse t) (reverse_aux-IsPrinted t [] p tt))
      (reverse-reverse t)
