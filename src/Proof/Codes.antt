-- ===== src/Proof/Codes.antt =====
-- The digits of the encoder, their characters, and leading zeros.
use mathlib.Core.List.{reverse, reverse-cons, map-append}
use knarr.Prelude.{
  ℕ, zero, suc, ◌+◌, ◌*◌, ◌/◌, ◌%◌, ◌≤◌, ◌<◌, ◌≡◌, ◌⊎◌, refl, ap, ◌∙◌, true, false, some, List, [],
  ◌∷◌, ◌++◌, map, ◌==◌, if◌then◌else◌, replicate, All, All-append, arith, Bool-cases, inl, inr,
}
use knarr.Proof.Base58.{from_digits, leading, b58_char, b58_index, encode_loop, decode_loop}
use knarr.Proof.Digits.{value, IsTrimmed, HasHead, HasHead-append, IsTrimmed-append}

b58_index-b58_char : (r : ℕ) → r < 58 → b58_index (b58_char r) ≡ some r
unfolding b58_index b58_char
b58_index-b58_char r h = ground arith

b58_char-zero : (r : ℕ) → r < 58 → (b58_char r == b'1') ≡ (r == 0)
unfolding b58_char
b58_char-zero r h = ground arith

-- the digits that the loop of the encoder finds, the lowest first
unfoldable pub digits : ℕ → ℕ → List ℕ
digits zero n = []
digits (suc f) n = elim (n == 0) [ true ↦ [] | false ↦ (n % 58) ∷ digits f (n / 58) ]

pub encode_loop-digits : (f n : ℕ) → encode_loop f n ≡ map b58_char (digits f n)
unfolding encode_loop digits
encode_loop-digits zero n = refl
encode_loop-digits (suc f) n = ground (arith, encode_loop-digits f (n / 58))

pub digits-value : (f n : ℕ) → n ≤ f → value 58 (digits f n) ≡ n
unfolding digits
digits-value zero n h = omega arith
digits-value (suc f) n h = elim (Bool-cases (n == 0)) [
  | inl none_left ↦ ground arith
  | inr more ↦ rw (more, digits) (omega (arith, digits-value f (n / 58) (ground arith)))
]

pub digits-All : (f n : ℕ) → All (λ r. r < 58) (digits f n)
unfolding digits
digits-All zero n = tt
digits-All (suc f) n = elim (Bool-cases (n == 0)) [
  | inl none_left ↦ rw (none_left, digits) tt
  | inr more ↦ rw (more, digits) (omega arith, digits-All f (n / 58))
]

pub digits-zero : (f : ℕ) → digits f 0 ≡ []
unfolding digits
digits-zero zero = refl
digits-zero (suc f) = refl

pub digits-HasHead : (f n : ℕ) → n ≤ f → 1 ≤ n → HasHead (reverse (digits f n))
unfolding digits
digits-HasHead zero n h p = absurd (omega arith)
digits-HasHead (suc f) n h p =
    let more : (n == 0) ≡ false = ground arith in
    let e : digits (suc f) n ≡ (n % 58) ∷ digits f (n / 58) = rw (more, digits) refl in
    rw (e, reverse-cons (n % 58) (digits f (n / 58)))
      (elim (Bool-cases (n / 58 == 0)) [
        | inl last ↦
            let none_left : n / 58 ≡ 0 = ground arith in rw (none_left, digits-zero f) (omega arith)
        | inr further ↦
            HasHead-append (reverse (digits f (n / 58))) ((n % 58) ∷ [])
              (digits-HasHead f (n / 58) (omega arith) (ground arith))
      ])

pub decode_loop-map :
    (acc : ℕ) (rs : List ℕ)
    → All (λ r. r < 58) rs
    → decode_loop acc (map b58_char rs) ≡ some (from_digits 58 acc rs)
unfolding decode_loop from_digits
decode_loop-map acc [] h = refl
decode_loop-map acc (r ∷ rs) h =
    rw (b58_index-b58_char r h.0, decode_loop) (decode_loop-map (acc * 58 + r) rs h.1)

pub leading-map :
    (rs : List ℕ) → All (λ r. r < 58) rs → leading b'1' (map b58_char rs) ≡ leading 0 rs
unfolding leading
leading-map [] h = refl
leading-map (r ∷ rs) h = ground (arith, b58_char-zero r h.0, leading-map rs h.1)

pub leading-replicate : (z : ℕ) (ds : List ℕ) → leading 0 (replicate z 0 ++ ds) ≡ z + leading 0 ds
unfolding leading
leading-replicate zero ds = omega arith
leading-replicate (suc z) ds = ground (arith, leading-replicate z ds)

pub leading-HasHead : (ds : List ℕ) → HasHead ds → leading 0 ds ≡ 0
unfolding leading
leading-HasHead [] h = elim h [ ]
leading-HasHead (d ∷ ds) h = ground arith

replicate-last : (z c : ℕ) → replicate z c ++ c ∷ [] ≡ c ∷ replicate z c
replicate-last zero c = refl
replicate-last (suc z) c = ap (λ r. c ∷ r) (replicate-last z c)

pub reverse-replicate : (z c : ℕ) → reverse (replicate z c) ≡ replicate z c
reverse-replicate zero c = refl
reverse-replicate (suc z) c =
    reverse-cons c (replicate z c)
    ∙ ap (λ r. r ++ c ∷ []) (reverse-replicate z c)
    ∙ replicate-last z c

pub map-replicate : (z : ℕ) → map b58_char (replicate z 0) ≡ replicate z (b58_char 0)
map-replicate zero = refl
map-replicate (suc z) = ap (λ r. b58_char 0 ∷ r) (map-replicate z)

pub map-reverse : (rs : List ℕ) → map b58_char (reverse rs) ≡ reverse (map b58_char rs)
map-reverse [] = refl
map-reverse (r ∷ rs) =
    rw (reverse-cons r rs, reverse-cons (b58_char r) (map b58_char rs))
      (map-append b58_char (reverse rs) (r ∷ []) ∙ ap (λ t. t ++ b58_char r ∷ []) (map-reverse rs))

pub All-reverse : (P : ℕ → Type 0) (ds : List ℕ) → All P ds → All P (reverse ds)
All-reverse P [] h = tt
All-reverse P (d ∷ ds) h =
    rw (reverse-cons d ds) (All-append P (reverse ds) (d ∷ []) (All-reverse P ds h.1) (h.0, tt))

pub All-replicate : (z : ℕ) → All (λ r. r < 58) (replicate z 0)
All-replicate zero = tt
All-replicate (suc z) = (omega arith, All-replicate z)

pub reverse-IsTrimmed : (ds : List ℕ) → HasHead ds → IsTrimmed (reverse ds)
reverse-IsTrimmed [] h = elim h [ ]
reverse-IsTrimmed (d ∷ ds) h = rw (reverse-cons d ds) (IsTrimmed-append (reverse ds) d h)

-- the bytes from the first that is not zero
unfoldable pub trim : List ℕ → List ℕ
trim [] = []
trim (d ∷ ds) = if d == 0 then trim ds else d ∷ ds

pub trim_split : (bytes : List ℕ) → replicate (leading 0 bytes) 0 ++ trim bytes ≡ bytes
unfolding trim leading
trim_split [] = refl
trim_split (d ∷ ds) = ground (arith, trim_split ds)

pub trim-HasHead : (bytes : List ℕ) → (trim bytes ≡ []) ⊎ HasHead (trim bytes)
unfolding trim
trim-HasHead [] = inl refl
trim-HasHead (d ∷ ds) = elim (Bool-cases (d == 0)) [
  | inl null ↦ rw (null, trim) (trim-HasHead ds)
  | inr other ↦ rw (other, trim) (inr (ground arith))
]

pub trim-All : (P : ℕ → Type 0) (bytes : List ℕ) → All P bytes → All P (trim bytes)
unfolding trim
trim-All P [] h = tt
trim-All P (d ∷ ds) h = elim (Bool-cases (d == 0)) [
  | inl null ↦ rw (null, trim) (trim-All P ds h.1)
  | inr other ↦ rw (other, trim) h
]
