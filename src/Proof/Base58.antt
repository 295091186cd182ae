-- ===== src/Proof/Base58.antt =====
-- `_base58btc_encode` and `_base58btc_decode` of src/knarr/core/proof.py.
use mathlib.Core.List.{reverse}
use knarr.Prelude.{
  ℕ, zero, suc, ◌+◌, ◌-◌, ◌*◌, ◌/◌, ◌%◌, true, false, Option, none, some, List, [], ◌∷◌, ◌++◌, Text,
  ltb, leb, ◌==◌, ◌&&◌, if◌then◌else◌, replicate,
}
use knarr.Prelude.Hex.{bit_length}

-- `_B58_ALPHABET[r]` and `_B58_ALPHABET.index(c)`. The alphabet is the digits from 1, the capital
-- letters without I and O, and the small letters without l; `none` is the ValueError of `index`.
unfoldable pub b58_char : ℕ → ℕ
b58_char r =
    if ltb r 9
    then r + b'1'
    else if ltb r 17
    then r - 9 + b'A'
    else if ltb r 22
    then r - 17 + b'J'
    else if ltb r 33
    then r - 22 + b'P'
    else if ltb r 44
    then r - 33 + b'a'
    else r - 44 + b'm'

unfoldable pub b58_index : ℕ → Option ℕ
b58_index c =
    if leb b'1' c && leb c b'9'
    then some (c - b'1')
    else if leb b'A' c && leb c b'H'
    then some (c - b'A' + 9)
    else if leb b'J' c && leb c b'N'
    then some (c - b'J' + 17)
    else if leb b'P' c && leb c b'Z'
    then some (c - b'P' + 22)
    else if leb b'a' c && leb c b'k'
    then some (c - b'a' + 33)
    else if leb b'm' c && leb c b'z'
    then some (c - b'm' + 44)
    else none

-- `int.from_bytes(data, "big")` for base 256: the number that digits stand for, from the left
unfoldable pub from_digits : ℕ → ℕ → List ℕ → ℕ
from_digits base acc [] = acc
from_digits base acc (d ∷ ds) = from_digits base (acc * base + d) ds

-- `while n > 0: n, r = divmod(n, 58); result.append(…)`; the fuel is the number itself
unfoldable pub encode_loop : ℕ → ℕ → Text
encode_loop zero n = []
encode_loop (suc f) n = elim (n == 0) [
  | true ↦ []
  | false ↦ b58_char (n % 58) ∷ encode_loop f (n / 58)
]

unfoldable pub leading : ℕ → List ℕ → ℕ
leading c [] = 0
leading c (d ∷ ds) = if d == c then suc (leading c ds) else 0

unfoldable pub base58btc_encode : List ℕ → Text
base58btc_encode bytes =
    let n = from_digits 256 0 bytes in
    reverse (encode_loop n n ++ replicate (leading 0 bytes) (b58_char 0))

-- `n = n * 58 + _B58_ALPHABET.index(c)` for each character
unfoldable pub decode_loop : ℕ → Text → Option ℕ
decode_loop n [] = some n
decode_loop n (c ∷ s) = elim (b58_index c) [ none ↦ none | some r ↦ decode_loop (n * 58 + r) s ]

-- the lowest bytes of a number, the lowest first
unfoldable pub low_bytes : ℕ → ℕ → List ℕ
low_bytes zero n = []
low_bytes (suc l) n = (n % 256) ∷ low_bytes l (n / 256)

-- `n.to_bytes((n.bit_length() + 7) // 8, "big")`
unfoldable pub to_bytes : ℕ → List ℕ
to_bytes n = reverse (low_bytes ((bit_length n + 7) / 8) n)

-- `none` is a ValueError.
unfoldable pub base58btc_decode : Text → Option (List ℕ)
base58btc_decode s = elim (decode_loop 0 s) [
  | none ↦ none
  | some n ↦ some (replicate (leading b'1' s) 0 ++ to_bytes n)
]
