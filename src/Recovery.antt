-- ===== src/Recovery.antt =====
-- pkg/iscp/recovery/recovery.go: relay credentials sealed to the key of a recovering device.
pub mod Sealing
use iscp.Prelude.{
  String, string_eq, ◌==◌, Bool, not, List, [], ◌++◌, Bytes, to_bytes, ◌+++◌, length, if◌then◌else◌,
}
use iscp.Errors.{Result, ok, err, new, key_invalid, schema_invalid, Error, ◌>>=◌, ◌>>◌, reject_if}
use iscp.Crypto.{
  Primitives, base64url, decode_base64_url, shared_secret, hkdf, seal, open_sealed,
  x25519_public_key_from_bytes, ciphersuite_v2,
}

abbrev pub type_wrapped_credentials : String
type_wrapped_credentials = "iscp.relay.credential_recovery.wrapped.v2"

abbrev pub transcript_label : String
transcript_label = "iscp/v2/relay/credential-recovery"

pub record WrappedCredentials : Type 0 where
  pub type : String
  pub ciphersuite : String
  pub recovery_public_key : String
  pub server_public_key : String
  pub nonce : String
  pub ciphertext : String

unfoldable pub challenge : String → String → String
challenge idempotency_key wrap_public_key = idempotency_key +++ "\0" +++ wrap_public_key

unfoldable pub transcript : String → String → String → Bytes
transcript domain_id device_id thumbprint =
    to_bytes
      (transcript_label +++ "\0" +++ domain_id +++ "\0" +++ device_id +++ "\0" +++ thumbprint)

-- Any failure to decode the wrap key is reported as an error of its own.
abbrev pub decoded_as {ℓ} : {A : Type ℓ} → Result A → Error → Result A
decoded_as (ok a) e = ok a
decoded_as (err _) e = err e

module _ (p : Primitives) where
  unfoldable pub derive_key : Bytes → Bytes → Bytes → Bytes → Result Bytes
  unfolding hkdf
  derive_key secret transcript client_pub server_pub =
      hkdf p secret [] (transcript ++ client_pub ++ server_pub) 32

  -- The server's ephemeral key pair and the nonce are the caller's: they are drawn at random.
  unfoldable pub seal_credentials :
      Bytes × Bytes → Bytes → String → Bytes → Bytes → Result WrappedCredentials
  seal_credentials (server_priv, server_pub) nonce wrap_public_key transcript plaintext = do
    client_pub_bytes ←
        decoded_as (decode_base64_url p wrap_public_key)
          (new key_invalid "recovery wrap key is not valid base64url")
    client_pub ← x25519_public_key_from_bytes client_pub_bytes
    secret ← shared_secret p server_priv client_pub
    key ← derive_key secret transcript client_pub server_pub
    ciphertext ← seal p key nonce plaintext transcript
    ok (record {
      type = type_wrapped_credentials;
      ciphersuite = ciphersuite_v2;
      recovery_public_key = wrap_public_key;
      server_public_key = base64url p server_pub;
      nonce = base64url p nonce;
      ciphertext = base64url p ciphertext;
    })

  unfoldable pub open_credentials : WrappedCredentials → Bytes → String → Bytes → Result Bytes
  open_credentials wrapped wrap_priv wrap_public_key transcript = do
    reject_if (not (wrapped.type == type_wrapped_credentials))
        (new schema_invalid "unexpected wrapped credential type")
    reject_if (not (wrapped.ciphersuite == ciphersuite_v2))
        (new schema_invalid "unsupported wrapped credential ciphersuite")
    reject_if (not (wrapped.recovery_public_key == wrap_public_key))
        (new key_invalid "wrapped credential recovery key mismatch")
    server_pub_bytes ← decode_base64_url p wrapped.server_public_key
    server_pub ← x25519_public_key_from_bytes server_pub_bytes
    client_pub_bytes ← decode_base64_url p wrap_public_key
    secret ← shared_secret p wrap_priv server_pub
    key ← derive_key secret transcript client_pub_bytes server_pub_bytes
    nonce ← decode_base64_url p wrapped.nonce
    ciphertext ← decode_base64_url p wrapped.ciphertext
    open_sealed p key nonce ciphertext transcript
