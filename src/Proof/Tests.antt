-- ===== src/Proof/Tests.antt =====
-- A toy of the cryptography over real JSON values, and the theorems at it.
use knarr.Prelude.{
  ℕ, ◌+◌, ◌≡◌, ◌%◌, ◌<◌, refl, ap, true, Option, none, some, [], ◌∷◌, Text, text_eq, text_eq_iff,
  length, codes, All, replicate, zero, suc, arith,
}
use knarr.Prelude.Dict.{Dict, IsDict}
use knarr.Prelude.Hex.{bit_length, bit_length_within}
use knarr.Proof.Base58.{
  base58btc_encode, base58btc_decode, from_digits, encode_loop, decode_loop, leading, low_bytes,
  to_bytes, b58_char, b58_index,
}
use knarr.Proof.RoundTrip.{base58btc_decode-encode}
use knarr.Proof.Document.{
  Bytes, Values, Crypto, CryptoLaws, proof_key, sign_document, verify_document, hash_data,
}
use knarr.Proof.Signing.{verify_document-sign_document}

-- the encoding of "hi" behind two zero bytes
encodes : base58btc_encode (0 ∷ 0 ∷ b'h' ∷ b'i' ∷ []) ≡ codes "118wr"
unfolding base58btc_encode encode_loop leading b58_char from_digits
encodes = refl

decodes : base58btc_decode (codes "118wr") ≡ some (0 ∷ 0 ∷ b'h' ∷ b'i' ∷ [])
unfolding base58btc_decode decode_loop leading b58_index to_bytes low_bytes bit_length
    bit_length_within
decodes = refl

base58btc_decode-encode_example :
    base58btc_decode (base58btc_encode (0 ∷ 255 ∷ [])) ≡ some (0 ∷ 255 ∷ [])
base58btc_decode-encode_example =
    base58btc_decode-encode (0 ∷ 255 ∷ []) (omega arith, (omega arith, tt))

mutual
  data Json : Type 0 where
    text : Text → Json
    object : Fields → Json

  data Fields : Type 0 where
    end : Fields
    field : Text → Json → Fields → Fields

abbrev of_dict : Dict Json → Fields
of_dict [] = end
of_dict ((k, v) ∷ d) = field k v (of_dict d)

abbrev to_dict : Fields → Dict Json
to_dict end = []
to_dict (field k v fs) = (k, v) ∷ to_dict fs

to_dict-of_dict : (d : Dict Json) → to_dict (of_dict d) ≡ d
to_dict-of_dict [] = refl
to_dict-of_dict ((k, v) ∷ d) = ap (λ r. (k, v) ∷ r) (to_dict-of_dict d)

abbrev json_text : Json → Option Text
json_text (text t) = some t
json_text (object fs) = none

abbrev json_dict : Json → Option (Dict Json)
json_dict (text t) = none
json_dict (object fs) = some (to_dict fs)

abbrev json : Values Json
json = record {
  str = text;
  obj = λ d. object (of_dict d);
  as_str = json_text;
  as_dict = json_dict;
  as_str-str = λ t. refl;
  as_dict-obj = λ d. ap some (to_dict-of_dict d);
}

-- a signature is the key and the length of the message, over and over
abbrev toy_sign : ℕ → Bytes → Bytes
toy_sign key m = replicate 64 ((key + length m) % 256)

abbrev toy : Crypto Json ℕ
toy = record {
  dumps = λ d. some (length d ∷ []);
  sha256 = λ m. replicate 32 (length m);
  sign = toy_sign;
  verify = λ key m s. text_eq s (toy_sign key m);
}

replicate-All : (n b : ℕ) → b < 256 → All (λ c. c < 256) (replicate n b)
replicate-All zero b h = tt
replicate-All (suc n) b h = (h, replicate-All n b h)

toy_laws : CryptoLaws toy 7 7
toy_laws = record {
  sign-length = λ m. refl;
  sign-bytes = λ m. replicate-All 64 ((7 + length m) % 256) (omega arith);
  verify-sign = λ m. (text_eq_iff (toy_sign 7 m) (toy_sign 7 m)).1 refl;
}

-- a document that has a proof already
abbrev document : Dict Json
document = (proof_key, text (codes "old")) ∷ (codes "amount", text (codes "5")) ∷ []

document-IsDict : IsDict document
document-IsDict = (unfold text_eq in refl, (refl, tt))

signed :
    (d : Dict Json) × (sign_document json toy document 7
        (codes "did")
        (codes "assertionMethod")
        (codes "now")
      ≡ some d)
unfolding sign_document hash_data
signed = (_, refl)

verify_document-sign_document_example : verify_document json toy signed.0 7 ≡ true
verify_document-sign_document_example =
    verify_document-sign_document json toy 7 7 toy_laws document signed.0 (codes "did")
      (codes "assertionMethod") (codes "now") document-IsDict signed.1
