-- ===== src/Proof/RoundTrip.antt =====
-- Decoding what was encoded.
use mathlib.Core.List.{reverse, reverse-append, reverse-reverse, map-append}
use knarr.Prelude.{
  ℕ, ◌<◌, ◌≡◌, ◌⊎◌, refl, ap, sym, ◌∙◌, some, List, [], ◌++◌, map, ◌==◌, replicate, All, All-append,
  arith, Bool-cases, inl, inr,
}
use knarr.Prelude.Hex
use knarr.Prelude.Hex.{bit_length}
use knarr.Proof.Base58.{
  from_digits, leading, low_bytes, b58_char, to_bytes, base58btc_encode, base58btc_decode,
}
use knarr.Proof.Digits.{
  value, from_digits-reverse, from_digits-replicate, HasHead, low_bytes-value, byte_length,
}
use knarr.Proof.Codes.{
  digits, encode_loop-digits, digits-value, digits-All, digits-zero, digits-HasHead,
  decode_loop-map, leading-map, leading-replicate, leading-HasHead, reverse-replicate,
  map-replicate, map-reverse, All-reverse, All-replicate, reverse-IsTrimmed, trim, trim_split,
  trim-HasHead, trim-All,
}

encode-map :
    (bytes : List ℕ)
    → let n = from_digits 256 0 bytes in
      base58btc_encode bytes ≡ map b58_char (replicate (leading 0 bytes) 0 ++ reverse (digits n n))
unfolding base58btc_encode
encode-map bytes =
    let n = from_digits 256 0 bytes in
    let z = leading 0 bytes in
    let ones = replicate z (b58_char 0) in
    ap (λ t. reverse (t ++ ones)) (encode_loop-digits n n)
    ∙ reverse-append (map b58_char (digits n n)) ones
    ∙ ap (λ t. t ++ reverse (map b58_char (digits n n))) (reverse-replicate z (b58_char 0))
    ∙ ap (λ t. t ++ reverse (map b58_char (digits n n))) (sym (map-replicate z))
    ∙ ap (λ t. map b58_char (replicate z 0) ++ t) (sym (map-reverse (digits n n)))
    ∙ sym (map-append b58_char (replicate z 0) (reverse (digits n n)))

decode-map :
    (rs : List ℕ)
    → All (λ r. r < 58) rs
    → base58btc_decode (map b58_char rs)
      ≡ some (replicate (leading 0 rs) 0 ++ to_bytes (from_digits 58 0 rs))
unfolding base58btc_decode
decode-map rs h = rw (decode_loop-map 0 rs h, leading-map rs h, base58btc_decode) refl

to_bytes-zero : to_bytes 0 ≡ []
unfolding to_bytes low_bytes bit_length Hex.bit_length_within
to_bytes-zero = refl

to_bytes-from_digits :
    (ds : List ℕ)
    → All (λ d. d < 256) ds
    → (ds ≡ []) ⊎ HasHead ds
    → to_bytes (from_digits 256 0 ds) ≡ ds
unfolding to_bytes
to_bytes-from_digits ds h (inl none_left) = rw none_left (unfold from_digits in to_bytes-zero)
to_bytes-from_digits ds h (inr head) =
    let le = reverse ds in
    let bytes = All-reverse (λ d. d < 256) ds h in
    let n_eq : from_digits 256 0 ds ≡ value 256 le =
      sym (ap (from_digits 256 0) (reverse-reverse ds)) ∙ from_digits-reverse 256 le in
    rw n_eq (
      rw (byte_length le bytes (reverse-IsTrimmed ds head))
        (ap reverse (low_bytes-value le bytes) ∙ reverse-reverse ds))

-- the digits that stand for the bytes, with a zero for each leading zero byte
code_digits : List ℕ → List ℕ
code_digits bytes =
    let n = from_digits 256 0 bytes in replicate (leading 0 bytes) 0 ++ reverse (digits n n)

code_digits-All : (bytes : List ℕ) → All (λ r. r < 58) (code_digits bytes)
unfolding code_digits
code_digits-All bytes =
    let n = from_digits 256 0 bytes in
    let z = leading 0 bytes in
    All-append (λ r. r < 58) (replicate z 0) (reverse (digits n n)) (All-replicate z)
      (All-reverse (λ r. r < 58) (digits n n) (digits-All n n))

code_digits-leading : (bytes : List ℕ) → leading 0 (code_digits bytes) ≡ leading 0 bytes
unfolding code_digits
code_digits-leading bytes =
    let n = from_digits 256 0 bytes in
    let z = leading 0 bytes in
    leading-replicate z (reverse (digits n n)) ∙ (elim (Bool-cases (n == 0)) [
      | inl null ↦
          let e : n ≡ 0 = ground arith in rw (e, digits-zero 0) (unfold leading in omega arith)
      | inr other ↦ omega (
        arith,
        leading-HasHead (reverse (digits n n)) (digits-HasHead n n (omega arith) (ground arith)),
      )
    ])

code_digits-value :
    (bytes : List ℕ) → from_digits 58 0 (code_digits bytes) ≡ from_digits 256 0 bytes
unfolding code_digits
code_digits-value bytes =
    let n = from_digits 256 0 bytes in
    from_digits-replicate 58 (leading 0 bytes) (reverse (digits n n))
    ∙ from_digits-reverse 58 (digits n n)
    ∙ digits-value n n (omega arith)

-- Decoding the encoding of any bytes raises nothing and gives these bytes, the leading zero bytes
-- included.
pub base58btc_decode-encode :
    (bytes : List ℕ)
    → All (λ b. b < 256) bytes
    → base58btc_decode (base58btc_encode bytes) ≡ some bytes
base58btc_decode-encode bytes h =
    let z = leading 0 bytes in
    let n_eq : from_digits 256 0 bytes ≡ from_digits 256 0 (trim bytes) =
      sym (ap (from_digits 256 0) (trim_split bytes)) ∙ from_digits-replicate 256 z (trim bytes) in
    let encoded : base58btc_encode bytes ≡ map b58_char (code_digits bytes) =
      unfold code_digits in encode-map bytes in
    ap base58btc_decode encoded
    ∙ decode-map (code_digits bytes) (code_digits-All bytes)
    ∙ rw (code_digits-leading bytes, code_digits-value bytes, n_eq)
        (rw
          (to_bytes-from_digits (trim bytes) (trim-All (λ b. b < 256) bytes h) (trim-HasHead bytes))
          (ap some (trim_split bytes)))
