-- ===== src/Proof/Signing.antt =====
-- A signed document verifies.
use mathlib.Core.Path.{subst}
use mathlib.Core.Option.{some-injective}
use knarr.Prelude.{
  ◌<◌, ◌≡◌, refl, true, not, none, some, [], ◌∷◌, Text, text_eq, text_eq_iff, ◌==◌, keep, length,
  All, arith, Option-cases, inl, inr,
}
use knarr.Prelude.Dict.{Dict, lookup, insert, erase, IsDict, lookup-insert}
use knarr.Proof.Base58.{base58btc_encode}
use knarr.Proof.RoundTrip.{base58btc_decode-encode}
use knarr.Proof.Document.{
  Bytes, Values, Crypto, CryptoLaws, proof_key, proof_value_key, proof_options, hash_data,
  sign_document, decode_proof_value, verify_proof, verify_document,
}

keep-lookup-none {ℓ} :
    {V : Type ℓ} (k : Text) (d : Dict V) → lookup k d ≡ none → keep (λ e. not (text_eq e.0 k)) d ≡ d
keep-lookup-none k [] h = refl
keep-lookup-none k ((j, v) ∷ d) h = ground (arith, keep-lookup-none k d)

-- to take out what was put in leaves the other entries
erase-insert {ℓ} :
    {V : Type ℓ} (k : Text) (v : V) (d : Dict V)
    → IsDict d
    → erase k (insert k v d) ≡ keep (λ e. not (text_eq e.0 k)) d
erase-insert k v [] h = ground (arith, text_eq_iff k k)
erase-insert k v ((j, w) ∷ d) h =
    ground (arith, text_eq_iff j k, erase-insert k v d h.1, keep-lookup-none k d)

module _ {V Key : Type 0} (values : Values V) (crypto : Crypto V Key) where
  lookup-insert_self : (k : Text) (v : V) (d : Dict V) → lookup k (insert k v d) ≡ some v
  lookup-insert_self k v d = ground (arith, lookup-insert k k v d, text_eq_iff k k)

  options-erase :
      (method purpose created : Text) (v : V)
      → erase proof_value_key
          (insert proof_value_key v (proof_options values crypto method purpose created))
        ≡ proof_options values crypto method purpose created
  unfolding proof_options text_eq
  options-erase method purpose created v = refl

  decode_proof_value-encode :
      (signature : Bytes)
      → All (λ b. b < 256) signature
      → decode_proof_value values crypto (values.str (b'z' ∷ base58btc_encode signature))
        ≡ some signature
  unfolding decode_proof_value
  decode_proof_value-encode signature h =
      rw (values.as_str-str (b'z' ∷ base58btc_encode signature), decode_proof_value)
        (base58btc_decode-encode signature h)

  verify_proof_passes :
      (document proof : Dict V) (proof_value : V) (key : Key) (signature hash : Bytes)
      → decode_proof_value values crypto proof_value ≡ some signature
      → length signature ≡ 64
      → hash_data values crypto proof document ≡ some hash
      → crypto.verify key hash signature ≡ true
      → verify_proof values crypto document proof proof_value key ≡ true
  unfolding verify_proof
  verify_proof_passes document proof proof_value key signature hash e l h g =
      let right_length : (length signature == 64) ≡ true = ground arith in
      rw (e, right_length, h, verify_proof) g

  verify_document_passes :
      (secured proof : Dict V) (v proof_value : V) (key : Key)
      → lookup proof_key secured ≡ some v
      → values.as_dict v ≡ some proof
      → lookup proof_value_key proof ≡ some proof_value
      → verify_proof values crypto
          (erase proof_key secured)
          (erase proof_value_key proof)
          proof_value
          key
        ≡ true
      → verify_document values crypto secured key ≡ true
  unfolding verify_document
  verify_document_passes secured proof v proof_value key e f g h = rw (e, f, g, verify_document) h

  module _ (signing verifying : Key) (laws : CryptoLaws crypto signing verifying) where
    -- Whenever `sign_document` raises nothing, `verify_document` accepts what it gives, also for a
    -- document that had been signed already: for a document no key of which occurs twice, and a
    -- verifying key that belongs to the signing key.
    pub verify_document-sign_document :
        (document secured : Dict V) (method purpose created : Text)
        → IsDict document
        → sign_document values crypto document signing method purpose created ≡ some secured
        → verify_document values crypto secured verifying ≡ true
    unfolding sign_document
    verify_document-sign_document document secured method purpose created v e =
        let options = proof_options values crypto method purpose created in
        let bare = keep (λ f. not (text_eq f.0 proof_key)) document in
        elim (Option-cases (hash_data values crypto options bare)) [
          | inl miss ↦ absurd (ground arith)
          | inr (hash, hit) ↦
              let signature = crypto.sign signing hash in
              let proof_value = values.str (b'z' ∷ base58btc_encode signature) in
              let proof = insert proof_value_key proof_value options in
              let f : some (insert proof_key (values.obj proof) document) ≡ some secured =
                rw (hit, sign_document) at e in
              subst (λ d. verify_document values crypto d verifying ≡ true) (some-injective _ _ f)
                (verify_document_passes (insert proof_key (values.obj proof) document) proof
                  (values.obj proof) proof_value verifying
                  (lookup-insert_self proof_key (values.obj proof) document)
                  (values.as_dict-obj proof)
                  (lookup-insert_self proof_value_key proof_value options)
                  (rw
                    (
                      erase-insert proof_key (values.obj proof) document v,
                      options-erase method purpose created proof_value,
                    )
                    (verify_proof_passes bare options proof_value verifying signature hash
                      (decode_proof_value-encode signature (laws.sign-bytes hash))
                      (laws.sign-length hash) hit (laws.verify-sign hash))))
        ]
