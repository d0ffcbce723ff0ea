-- ===== src/Identity.antt =====
-- pkg/iscp/identity/identity.go: device identities and the proofs of possession of their keys.
pub mod Proofs
use iscp.Prelude.{
  ℕ, ◌+◌, String, Bool, true, false, not, ◌&&◌, ◌||◌, Option, none, some, List, [], ◌∷◌, map,
  if◌then◌else◌, string_eq, nat_eq, ◌==◌, ltb, Bytes,
}
use iscp.Errors.{
  Result, ok, err, Error, new, signature_invalid, key_invalid, ◌>>=◌, ◌>>◌, reject_if,
}
use iscp.Crypto.{Primitives, base64url, decode_base64_url, sign, check_signature, thumbprint}
use iscp.Canonical.{Value, str, obj, fields, signature_input}

abbrev pub type_device_identity : String
type_device_identity = "iscp.device.identity.v2"

abbrev pub type_device_proof : String
type_device_proof = "iscp.device.proof.v2"

pub record PublicKey : Type 0 where
  pub kty : String
  pub usage : String
  pub kid : String
  pub public : String

-- Metadata is an association of texts.
pub record DeviceIdentity : Type 0 where
  pub type : String
  pub domain_id : String
  pub device_id : String
  pub public_key : PublicKey
  pub created_at : ℕ
  pub metadata : List (String × String)

pub record Signature : Type 0 where
  pub alg : String
  pub kid : String
  pub value : String

abbrev pub no_signature : Signature
no_signature = record { alg = ""; kid = ""; value = "" }

pub record DeviceProof : Type 0 where
  pub type : String
  pub domain_id : String
  pub device_id : String
  pub audience : String
  pub challenge : String
  pub nonce : String
  pub issued_at : ℕ
  pub signature : Signature

pub record Device : Type 0 where
  pub identity : DeviceIdentity
  pub private : Bytes

-- The JSON of a signature field.
abbrev pub signature_value : Signature → Value
signature_value s =
    obj (fields (("alg", str s.alg) ∷ ("kid", str s.kid) ∷ ("value", str s.value) ∷ []))

module _ (p : Primitives) where
  -- The key pair is the caller's: the provider draws it at random.
  unfoldable pub new_device : Bytes → String → String → ℕ → Device
  new_device priv domain_id device_id now =
      let public = p.ed25519_public priv in
      record {
        private = priv;
        identity = record {
          type = type_device_identity;
          domain_id = domain_id;
          device_id = device_id;
          public_key = record {
            kty = "Ed25519";
            usage = "identity-signature";
            kid = thumbprint p "Ed25519" public;
            public = base64url p public;
          };
          created_at = now;
          metadata = [];
        };
      }

  -- The JSON of a proof, and what is signed of it.
  unfoldable pub proof_value : DeviceProof → Value
  proof_value proof = obj (
      fields (
        ("type", str proof.type)
        ∷ ("domain_id", str proof.domain_id)
        ∷ ("device_id", str proof.device_id)
        ∷ ("audience", str proof.audience)
        ∷ ("challenge", str proof.challenge)
        ∷ ("nonce", str proof.nonce)
        ∷ ("issued_at", str (p.format_time proof.issued_at))
        ∷ ("signature", signature_value proof.signature)
        ∷ []))

  unfoldable pub proof_input : DeviceProof → Result Bytes
  unfolding proof_value
  proof_input proof = signature_input type_device_proof (proof_value proof)

  unfoldable pub create_proof : Device → String → String → String → ℕ → Result DeviceProof
  create_proof d audience challenge nonce now = do
    let proof : DeviceProof = record {
      type = type_device_proof;
      domain_id = d.identity.domain_id;
      device_id = d.identity.device_id;
      audience = audience;
      challenge = challenge;
      nonce = nonce;
      issued_at = now;
      signature = no_signature;
    }
    input ← proof_input proof
    ok (record proof {
      signature = record {
        alg = "Ed25519";
        kid = d.identity.public_key.kid;
        value = base64url p (sign p d.private input);
      };
    })

  unfoldable pub verify_proof :
      DeviceIdentity → DeviceProof → String → String → ℕ → ℕ → Result (Unit {0})
  verify_proof id proof audience challenge now ttl = do
    reject_if (not (proof.type == type_device_proof)) (new signature_invalid "invalid proof type")
    reject_if (not (id.domain_id == proof.domain_id) || not (id.device_id == proof.device_id))
        (new signature_invalid "proof identity mismatch")
    reject_if (not (proof.audience == audience) || not (proof.challenge == challenge))
        (new signature_invalid "proof audience or challenge mismatch")
    reject_if (ltb (proof.issued_at + ttl) now || ltb (now + ttl) proof.issued_at)
        (new signature_invalid "proof is outside allowed time window")
    key_bytes ← decode_base64_url p id.public_key.public
    reject_if (not (id.public_key.kid == thumbprint p id.public_key.kty key_bytes))
        (new key_invalid "identity kid does not match public key thumbprint")
    reject_if (not (proof.signature.kid == id.public_key.kid))
        (new key_invalid "proof signature kid does not match identity key")
    check_signature p (ok key_bytes) proof.signature.value
        (proof_input (record proof { signature = no_signature }))
        (new signature_invalid "proof signature verification failed")

  unfoldable pub identity_thumbprint : DeviceIdentity → Result String
  identity_thumbprint id = do
    key_bytes ← decode_base64_url p id.public_key.public
    ok (thumbprint p id.public_key.kty key_bytes)
