-- ===== src/Provisioning/Bundle.antt =====
-- pkg/iscp/provisioning/provisioning.go: the bundle, and the local channel that it is applied over.
use iscp.Prelude.{
  ℕ, String, Bool, true, not, ◌||◌, [], ◌∷◌, ◌++◌, string_eq, bytes_eq, ◌==◌, ltb, Bytes, to_bytes,
}
use iscp.Errors.{Result, ok, new, provision_invalid, ◌>>=◌, ◌>>◌, reject_if}
use iscp.Crypto.{Primitives, decode_base64_url, check_signature, shared_secret, hkdf}
use iscp.Canonical.{Value, str, obj, fields, signature_input}
use iscp.Canonical.Raw.{Json, check_members, member_value}
use iscp.Identity.{
  Signature, no_signature, signature_value, Device, DeviceIdentity, identity_thumbprint,
}
use iscp.Provisioning.{signature_by}

abbrev pub type_bundle : String
type_bundle = "iscp.provisioning.bundle.v2"

pub record LocalChannel : Type 0 where
  pub key : Bytes
  pub transcript_mac : Bytes
  pub ready : Bool

-- The members of type json.RawMessage are JSON texts.
pub record Bundle : Type 0 where
  pub type : String
  pub bundle_id : String
  pub issued_to_device_id : String
  pub issued_to_public_key_thumbprint : String
  pub relay_descriptor : Bytes
  pub trust_root_descriptor : Bytes
  pub access_credential : Bytes
  pub refresh_credential_wrapped : String
  pub trust_grant : Bytes
  pub issued_at : ℕ
  pub expires_at : ℕ
  pub signature : Signature

module _ (p : Primitives) where
  -- The two key pairs are the caller's: the provider draws them at random.
  unfoldable pub establish_local_channel :
      Bytes × Bytes → Bytes × Bytes → Bytes → Result LocalChannel
  unfolding shared_secret hkdf
  establish_local_channel (a_priv, a_pub) (b_priv, b_pub) oob_secret = do
    secret_a ← shared_secret p a_priv b_pub
    secret_b ← shared_secret p b_priv a_pub
    reject_if (not (secret_a == secret_b))
        (new provision_invalid "local secure channel key mismatch")
    let transcript : Bytes = to_bytes "iscp/v2/provisioning/local-channel" ++ a_pub ++ b_pub
    key ← hkdf p secret_a oob_secret transcript 32
    ok (record { key = key; transcript_mac = p.hmac_sha256 key transcript; ready = true })

  unfoldable pub bundle_value : Bundle → Value → Value → Value → Value → Value
  bundle_value b relay trust_root access grant = obj (
      fields (
        ("type", str b.type)
        ∷ ("bundle_id", str b.bundle_id)
        ∷ ("issued_to_device_id", str b.issued_to_device_id)
        ∷ ("issued_to_public_key_thumbprint", str b.issued_to_public_key_thumbprint)
        ∷ ("relay_descriptor", relay)
        ∷ ("trust_root_descriptor", trust_root)
        ∷ ("access_credential", access)
        ∷ ("refresh_credential_wrapped", str b.refresh_credential_wrapped)
        ∷ ("trust_grant", grant)
        ∷ ("issued_at", str (p.format_time b.issued_at))
        ∷ ("expires_at", str (p.format_time b.expires_at))
        ∷ ("signature", signature_value b.signature)
        ∷ []))

module _ (p : Primitives) (json : Json) where
  -- signatureInput of a bundle
  unfoldable pub bundle_input : Bundle → Result Bytes
  unfolding bundle_value
  bundle_input b = do
    check_members json
        (b.relay_descriptor ∷ b.trust_root_descriptor ∷ b.access_credential ∷ b.trust_grant ∷ [])
    relay ← member_value json b.relay_descriptor
    trust_root ← member_value json b.trust_root_descriptor
    access ← member_value json b.access_credential
    grant ← member_value json b.trust_grant
    signature_input type_bundle (bundle_value p b relay trust_root access grant)

  unfoldable pub sign_bundle : Device → Bundle → Result Bundle
  sign_bundle issuer bundle = do
    let unsigned : Bundle = record bundle { type = type_bundle; signature = no_signature }
    input ← bundle_input unsigned
    ok (record unsigned { signature = signature_by p issuer input })

  unfoldable pub apply_bundle :
      LocalChannel → DeviceIdentity → Bundle → DeviceIdentity → ℕ → Result (Unit {0})
  apply_bundle channel local bundle issuer now = do
    reject_if (not channel.ready) (new provision_invalid "local secure channel is not ready")
    reject_if (ltb now bundle.issued_at || not (ltb now bundle.expires_at))
        (new provision_invalid "provisioning bundle expired")
    reject_if (not (bundle.issued_to_device_id == local.device_id))
        (new provision_invalid "bundle device id mismatch")
    thumbprint ← identity_thumbprint p local
    reject_if (not (bundle.issued_to_public_key_thumbprint == thumbprint))
        (new provision_invalid "bundle public key thumbprint mismatch")
    check_signature p (decode_base64_url p issuer.public_key.public) bundle.signature.value
        (bundle_input (record bundle { signature = no_signature }))
        (new provision_invalid "bundle signature failed")
