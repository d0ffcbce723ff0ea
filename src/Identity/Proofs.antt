-- ===== src/Identity/Proofs.antt =====
-- pkg/iscp/identity/identity.go: CreateProof and VerifyProof.
use iscp.Prelude.{ℕ, ◌+◌, ◌≤◌, ◌≡◌, refl, String, string_eq, nat_eq, Bytes, arith, ◌↔◌, inl, inr}
use text.Mathlib.TextEquality.{eq_iff}
use iscp.Errors.{Result-cases, ok, new, signature_invalid}
use iscp.Crypto.{Primitives, base64url, decode_base64_url, sign, check_signature, thumbprint}
use iscp.Crypto.Laws.{IsSound, check_signature_iff, IsSigned}
use iscp.Canonical.{signature_input, in_range, has_distinct_keys}
use iscp.Identity.{
  DeviceIdentity, DeviceProof, no_signature, type_device_proof, new_device, proof_input,
  create_proof, verify_proof,
}

-- What a proof has to be for this identity, audience, challenge, time and window.
abbrev pub IsProofOf : Primitives → DeviceIdentity → DeviceProof → String → String → ℕ → ℕ → Type 0
IsProofOf p id proof audience challenge now ttl =
    (proof.type ≡ type_device_proof)
    × (id.domain_id ≡ proof.domain_id)
    × (id.device_id ≡ proof.device_id)
    × (proof.audience ≡ audience)
    × (proof.challenge ≡ challenge)
    × (now ≤ proof.issued_at + ttl)
    × (proof.issued_at ≤ now + ttl)
    × ((key : Bytes) × (decode_base64_url p id.public_key.public ≡ ok key)
        × (id.public_key.kid ≡ thumbprint p id.public_key.kty key))
    × (proof.signature.kid ≡ id.public_key.kid)
    × IsSigned p (decode_base64_url p id.public_key.public) proof.signature.value
        (proof_input p (record proof { signature = no_signature }))

module _ (p : Primitives) (id : DeviceIdentity) (proof : DeviceProof) (audience challenge : String)
    (now ttl : ℕ) where
  verify_proof→IsProofOf :
      verify_proof p id proof audience challenge now ttl ≡ ok tt
      → IsProofOf p id proof audience challenge now ttl
  unfolding verify_proof
  verify_proof→IsProofOf h = elim (Result-cases (decode_base64_url p id.public_key.public)) [
    | inr (e, bad) ↦ absurd (ground arith)
    | inl (key, read) ↦
        let checked : check_signature p (ok key) proof.signature.value
              (proof_input p (record proof { signature = no_signature }))
              (new signature_invalid "proof signature verification failed")
            ≡ ok tt =
          ground arith in
        (
          ground (arith, eq_iff proof.type type_device_proof),
          ground (arith, eq_iff id.domain_id proof.domain_id),
          ground (arith, eq_iff id.device_id proof.device_id),
          ground (arith, eq_iff proof.audience audience),
          ground (arith, eq_iff proof.challenge challenge),
          ground arith,
          ground arith,
          (
            key,
            read,
            ground (arith, eq_iff id.public_key.kid (thumbprint p id.public_key.kty key)),
          ),
          ground (arith, eq_iff proof.signature.kid id.public_key.kid),
          rw read ((check_signature_iff p _ _ _ _).0 checked),
        )
  ]

  -- A proof is accepted exactly when it is of the right type, is of the identity's device and domain,
  -- for this audience and challenge, in the window, under the identity's key, whose thumbprint is the
  -- key id that both name, and carries a signature of that key over itself. The key type that the
  -- identity names is not restricted.
  pub verify_proof_iff :
      (verify_proof p id proof audience challenge now ttl ≡ ok tt)
      ↔ IsProofOf p id proof audience challenge now ttl
  unfolding verify_proof
  verify_proof_iff = (
    verify_proof→IsProofOf,
    λ s.
        let (a, b, c, d, e, f, g, k, l, m) = s in
        let (key, read, kid) = k in
        let checked =
          (check_signature_iff p (decode_base64_url p id.public_key.public) proof.signature.value
              (proof_input p (record proof { signature = no_signature }))
              (new signature_invalid "proof signature verification failed")).1
            m in
        ground (
          arith,
          checked,
          eq_iff proof.type type_device_proof,
          eq_iff id.domain_id proof.domain_id,
          eq_iff id.device_id proof.device_id,
          eq_iff proof.audience audience,
          eq_iff proof.challenge challenge,
          eq_iff id.public_key.kid (thumbprint p id.public_key.kty key),
          eq_iff proof.signature.kid id.public_key.kid,
        ),
  )

proof_input-total :
    (p : Primitives) (proof : DeviceProof) → (input : Bytes) × (proof_input p proof ≡ ok input)
unfolding proof_input signature_input in_range has_distinct_keys
proof_input-total p proof = (_, refl)

-- Where the cryptographic library is sound, a device that was made by `new_device` always gets a proof from `create_proof`, and the proof is
-- accepted for its identity, audience and challenge at every time of the window round its making.
pub verify-create_proof :
    (p : Primitives) (priv : Bytes) (domain_id device_id audience challenge nonce : String)
    (made now later ttl : ℕ)
    → IsSound p
    → later ≤ now + ttl
    → now ≤ later + ttl
    → let d = new_device p priv domain_id device_id made in
      (proof : DeviceProof) × (create_proof p d audience challenge nonce now ≡ ok proof)
      × (verify_proof p d.identity proof audience challenge later ttl ≡ ok tt)
unfolding create_proof new_device base64url sign decode_base64_url
verify-create_proof p priv domain_id device_id audience challenge nonce made now later ttl s up
      down =
    let d = new_device p priv domain_id device_id made in
    let blank : DeviceProof = record {
      type = type_device_proof;
      domain_id = domain_id;
      device_id = device_id;
      audience = audience;
      challenge = challenge;
      nonce = nonce;
      issued_at = now;
      signature = no_signature;
    } in
    let (input, signed) = proof_input-total p blank in
    let signature = p.ed25519_sign priv input in
    let public = p.ed25519_public priv in
    let proof : DeviceProof = record blank {
      signature = record {
        alg = "Ed25519";
        kid = d.identity.public_key.kid;
        value = p.encode_base64url signature;
      };
    } in
    (
      proof,
      rw signed refl,
      (verify_proof_iff p d.identity proof audience challenge later ttl).1 (
        refl,
        refl,
        refl,
        refl,
        refl,
        up,
        down,
        (public, rw s.decode-encode refl, refl),
        refl,
        (
          public,
          signature,
          input,
          rw s.decode-encode refl,
          s.length-public priv,
          s.decode-encode signature,
          signed,
          s.verify-sign priv input,
        ),
      ),
    )
