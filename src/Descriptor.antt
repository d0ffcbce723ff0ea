-- ===== src/Descriptor.antt =====
-- pkg/iscp/descriptor/descriptor.go: signed descriptors of relays and trust roots. The descriptor is a
-- JSON text; reading it as a relay's or a trust root's is a parameter.
pub mod Acceptance
use iscp.Prelude.{
  ℕ, String, Bool, not, ◌||◌, List, [], ◌∷◌, if◌then◌else◌, string_eq, ◌==◌, ltb, Bytes,
}
use iscp.Prelude.Map.{Map}
use iscp.Errors.{Result, ok, err, new, signature_invalid, ◌>>=◌, ◌>>◌, reject_if}
use iscp.Crypto.{Primitives, base64url, decode_base64_url, sign, check_signature}
use iscp.Canonical.{Value, str, obj, fields, signature_input}
use iscp.Canonical.Raw.{Json, check_members, member_value, marshal_tokens}
use iscp.Config.{Gate, validate_gate}
use iscp.Identity.{Signature, no_signature, signature_value, Device, DeviceIdentity}

abbrev pub type_signed_descriptor : String
type_signed_descriptor = "iscp.signed_descriptor.v2"

abbrev pub type_relay : String
type_relay = "iscp.relay.descriptor.v2"

abbrev pub type_trust_root : String
type_trust_root = "iscp.trust_root.descriptor.v2"

pub record PublicKey : Type 0 where
  pub kty : String
  pub use_for : String
  pub kid : String
  pub public : String
  pub state : String

pub record RelayDescriptor : Type 0 where
  pub type : String
  pub relay_id : String
  pub domain_id : String
  pub base_url : String
  pub web_socket_url : String
  pub signing_keys : List PublicKey
  pub issued_at : ℕ
  pub expires_at : ℕ
  pub metadata : Map String String

pub record TrustRootDescriptor : Type 0 where
  pub type : String
  pub trust_root_id : String
  pub domain_id : String
  pub base_url : String
  pub keys : List PublicKey
  pub issued_at : ℕ
  pub expires_at : ℕ
  pub metadata : Map String String

pub record SignedDescriptor : Type 0 where
  pub type : String
  pub descriptor_type : String
  pub descriptor : Bytes
  pub signed_by : String
  pub signed_at : ℕ
  pub signature : Signature

-- json.Unmarshal into the two descriptors.
pub record Decoders : Type 0 where
  pub relay : Bytes → Result RelayDescriptor
  pub trust_root : Bytes → Result TrustRootDescriptor

module _ (p : Primitives) where
  unfoldable pub descriptor_value : SignedDescriptor → Value → Value
  descriptor_value sd descriptor = obj (
      fields (
        ("type", str sd.type)
        ∷ ("descriptor_type", str sd.descriptor_type)
        ∷ ("descriptor", descriptor)
        ∷ ("signed_by", str sd.signed_by)
        ∷ ("signed_at", str (p.format_time sd.signed_at))
        ∷ ("signature", signature_value sd.signature)
        ∷ []))

module _ (p : Primitives) (json : Json) where
  -- signatureInput
  unfoldable pub descriptor_input : SignedDescriptor → Result Bytes
  unfolding descriptor_value
  descriptor_input sd = do
    check_members json (sd.descriptor ∷ [])
    descriptor ← member_value json sd.descriptor
    signature_input type_signed_descriptor (descriptor_value p sd descriptor)

  -- The third argument is what json.Marshal gives for the descriptor.
  unfoldable pub sign_descriptor : Device → String → Result Bytes → ℕ → Result SignedDescriptor
  sign_descriptor signer descriptor_type encoded now = do
    descriptor ← encoded
    let sd : SignedDescriptor = record {
      type = type_signed_descriptor;
      descriptor_type = descriptor_type;
      descriptor = descriptor;
      signed_by = signer.identity.device_id;
      signed_at = now;
      signature = no_signature;
    }
    input ← descriptor_input sd
    ok (record sd {
      signature = record {
        alg = "Ed25519";
        kid = signer.identity.public_key.kid;
        value = base64url p (sign p signer.private input);
      };
    })

  unfoldable pub pin : SignedDescriptor → Result String
  pin sd = do canon ← marshal_tokens (json.tokens sd.descriptor); ok (base64url p (p.sha256 canon))

module _ (p : Primitives) (json : Json) (decoders : Decoders) where
  -- The switch at the end of Verify.
  unfoldable pub check_running : SignedDescriptor → ℕ → Result (Unit {0})
  check_running sd now =
      if sd.descriptor_type == type_relay
      then (do
        relay ← decoders.relay sd.descriptor
        reject_if (ltb relay.expires_at now) (new signature_invalid "descriptor expired"))
      else if sd.descriptor_type == type_trust_root
      then (do
        trust ← decoders.trust_root sd.descriptor
        reject_if (ltb trust.expires_at now) (new signature_invalid "descriptor expired"))
      else err (new signature_invalid "unsupported descriptor type")

  -- Verify of a descriptor that carries a signature.
  unfoldable pub verify_signed : SignedDescriptor → DeviceIdentity → ℕ → Result (Unit {0})
  unfolding check_running
  verify_signed sd signer now = do
    check_signature p (decode_base64_url p signer.public_key.public) sd.signature.value
        (descriptor_input p json (record sd { signature = no_signature }))
        (new signature_invalid "descriptor signature verification failed")
    check_running sd now

  unfoldable pub verify_descriptor :
      SignedDescriptor → DeviceIdentity → Gate → ℕ → Result (Unit {0})
  unfolding verify_signed
  verify_descriptor sd signer gate now = do
    validate_gate gate
    (if sd.signature.value == ""
        then reject_if (gate.require_signed_descriptors || not gate.allow_unsigned_descriptor)
            (new signature_invalid "unsigned descriptor rejected")
        else verify_signed sd signer now)
