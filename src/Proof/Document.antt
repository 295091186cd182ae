-- ===== src/Proof/Document.antt =====
-- `sign_document` and `verify_document` of src/knarr/core/proof.py. What a document's values are,
-- the canonical form (a copy of the package rfc8785), SHA-256 and Ed25519 are parameters.
use knarr.Prelude.{
  ℕ, ◌≡◌, ◌<◌, Bool, true, false, not, Option, none, some, List, [], ◌∷◌, ◌++◌, Text, text_eq, ◌==◌,
  if◌then◌else◌, keep, length, codes, All,
}
use knarr.Prelude.Dict.{Dict, lookup, insert, erase}
use knarr.Proof.Base58.{base58btc_encode, base58btc_decode}

abbrev pub Bytes : Type 0
Bytes = List ℕ

-- The values of a JSON document: `as_str` is `isinstance(v, str)` with the string, and `as_dict` is
-- `dict(v)`, where `none` is the TypeError or ValueError.
pub record Values (V : Type 0) : Type 0 where
  pub str : Text → V
  pub obj : Dict V → V
  pub as_str : V → Option Text
  pub as_dict : V → Option (Dict V)
  pub as_str-str : (t : Text) → as_str (str t) ≡ some t
  pub as_dict-obj : (d : Dict V) → as_dict (obj d) ≡ some d

-- `rfc8785.dumps` (`none` is its CanonicalizationError, a ValueError), SHA-256, and Ed25519, where
-- a signature that is not valid makes `verify` false.
pub record Crypto (V Key : Type 0) : Type 0 where
  pub dumps : Dict V → Option Bytes
  pub sha256 : Bytes → Bytes
  pub sign : Key → Bytes → Bytes
  pub verify : Key → Bytes → Bytes → Bool

-- What is documented of Ed25519: signatures are 64 bytes, and what one key of a pair has signed the
-- other one verifies.
pub record CryptoLaws {V Key : Type 0} (c : Crypto V Key) (signing verifying : Key) : Type 0 where
  pub sign-length : (m : Bytes) → length (c.sign signing m) ≡ 64
  pub sign-bytes : (m : Bytes) → All (λ b. b < 256) (c.sign signing m)
  pub verify-sign : (m : Bytes) → c.verify verifying m (c.sign signing m) ≡ true

abbrev pub proof_key : Text
proof_key = codes "proof"

abbrev pub proof_value_key : Text
proof_value_key = codes "proofValue"

module _ {V Key : Type 0} (values : Values V) (crypto : Crypto V Key) where
  open values use {str, obj, as_str, as_dict}
  open crypto use {dumps, sha256, sign, verify}

  unfoldable pub proof_options : Text → Text → Text → Dict V
  proof_options verification_method proof_purpose created =
      (codes "type", str (codes "DataIntegrityProof"))
      ∷ (codes "cryptosuite", str (codes "eddsa-jcs-2022"))
      ∷ (codes "verificationMethod", str verification_method)
      ∷ (codes "proofPurpose", str proof_purpose)
      ∷ (codes "created", str created)
      ∷ []

  -- the hashes of the options and of the document; `none` is the error of `dumps`
  unfoldable pub hash_data : Dict V → Dict V → Option Bytes
  hash_data options document = elim (dumps options) [
    | none ↦ none
    | some canonical_proof ↦ elim (dumps document) [
      | none ↦ none
      | some canonical_doc ↦ some (sha256 canonical_proof ++ sha256 canonical_doc)
    ]
  ]

  unfoldable pub sign_document : Dict V → Key → Text → Text → Text → Option (Dict V)
  sign_document document private_key verification_method proof_purpose created =
      let options = proof_options verification_method proof_purpose created in
      elim (hash_data options (keep (λ e. not (text_eq e.0 proof_key)) document)) [
        | none ↦ none
        | some hash ↦
            let proof_value = b'z' ∷ base58btc_encode (sign private_key hash) in
            some
              (insert proof_key (obj (insert proof_value_key (str proof_value) options)) document)
      ]

  -- the decoding of `proofValue`; `none` is what makes the verification false
  unfoldable pub decode_proof_value : V → Option Bytes
  decode_proof_value proof_value = elim (as_str proof_value) [
    | none ↦ none
    | some [] ↦ none
    | some (c ∷ t) ↦ if c == b'z' then base58btc_decode t else none
  ]

  -- from step 2 of `verify_document` on
  unfoldable pub verify_proof : Dict V → Dict V → V → Key → Bool
  verify_proof document proof proof_value public_key = elim (decode_proof_value proof_value) [
    | none ↦ false
    | some signature ↦
        if length signature == 64
        then (elim (hash_data proof document) [
          | none ↦ false
          | some hash ↦ verify public_key hash signature
        ])
        else false
  ]

  unfoldable pub verify_document : Dict V → Key → Bool
  verify_document secured_document public_key = elim (lookup proof_key secured_document) [
    | none ↦ false
    | some v ↦ elim (as_dict v) [
      | none ↦ false
      | some proof ↦ elim (lookup proof_value_key proof) [
        | none ↦ false
        | some proof_value ↦
            verify_proof (erase proof_key secured_document) (erase proof_value_key proof)
              proof_value public_key
      ]
    ]
  ]
