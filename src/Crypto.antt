-- ===== src/Crypto.antt =====
-- pkg/iscp/crypto/crypto.go. What it takes from the Go library and from golang.org/x/crypto is a
-- record of functions; the size checks and the error values are the package's own.
pub mod Laws
use iscp.Prelude.{
  ℕ, zero, suc, ◌+◌, String, Bool, true, false, not, Option, none, some, List, [], ◌∷◌, ◌++◌,
  if◌then◌else◌, nat_eq, ◌==◌, Bytes, to_bytes, length, ◌+++◌,
}
use iscp.Errors.{
  Result, ok, err, Error, new, wrap, key_invalid, envelope_invalid, canonical_invalid, ◌>>=◌, ◌>>◌,
  reject_if,
}

pub record Primitives : Type 0 where
  pub sha256 : Bytes → Bytes
  pub hmac_sha256 : Bytes → Bytes → Bytes
  -- priv.Public(), ed25519.Sign(priv, m), ed25519.Verify(pub, m, sig)
  pub ed25519_public : Bytes → Bytes
  pub ed25519_sign : Bytes → Bytes → Bytes
  pub ed25519_verify : Bytes → Bytes → Bytes → Bool
  -- curve25519.X25519(scalar, point), none if the result is the zero point
  pub x25519 : Bytes → Bytes → Option Bytes
  pub x25519_basepoint : Bytes
  -- reading `length` bytes of hkdf.New(sha256.New, secret, salt, info)
  pub hkdf_read : Bytes → Bytes → Bytes → ℕ → Option Bytes
  -- chacha20poly1305 with a key of 32 bytes: key, nonce, text, additional data
  pub aead_seal : Bytes → Bytes → Bytes → Bytes → Bytes
  pub aead_open : Bytes → Bytes → Bytes → Bytes → Option Bytes
  -- base64.RawURLEncoding
  pub encode_base64url : Bytes → String
  pub decode_base64url : String → Option Bytes
  -- time.Time as JSON text
  pub format_time : ℕ → String

abbrev pub ciphersuite_v2 : String
ciphersuite_v2 = "ISCP_V2_X25519_HKDF_SHA256_CHACHA20POLY1305"

abbrev pub or_wrap {ℓ} : {A : Type ℓ} → Option A → Error → Result A
or_wrap none e = err e
or_wrap (some a) e = ok a

-- The AEAD's key and nonce sizes.
abbrev pub key_size : ℕ
key_size = 32

abbrev pub nonce_size : ℕ
nonce_size = 12

module _ (p : Primitives) where
  unfoldable pub base64url : Bytes → String
  base64url data_bytes = p.encode_base64url data_bytes

  unfoldable pub decode_base64_url : String → Result Bytes
  decode_base64_url s = or_wrap (p.decode_base64url s) (wrap canonical_invalid "invalid base64url")

  unfoldable pub sign : Bytes → Bytes → Bytes
  sign priv message = p.ed25519_sign priv message

  unfoldable pub verify : Bytes → Bytes → Bytes → Bool
  verify public message signature = p.ed25519_verify public message signature

  unfoldable pub shared_secret : Bytes → Bytes → Result Bytes
  shared_secret priv public =
      or_wrap (p.x25519 priv public) (wrap key_invalid "x25519 agreement failed")

  unfoldable pub hkdf : Bytes → Bytes → Bytes → ℕ → Result Bytes
  hkdf secret salt info n =
      or_wrap (p.hkdf_read secret salt info n) (wrap key_invalid "hkdf derive failed")

  unfoldable pub seal : Bytes → Bytes → Bytes → Bytes → Result Bytes
  seal key nonce plaintext aad = do
    reject_if (not (length key == key_size)) (wrap envelope_invalid "create aead")
    reject_if (not (length nonce == nonce_size)) (new envelope_invalid "invalid nonce size")
    ok (p.aead_seal key nonce plaintext aad)

  unfoldable pub open_sealed : Bytes → Bytes → Bytes → Bytes → Result Bytes
  open_sealed key nonce ciphertext aad = do
    reject_if (not (length key == key_size)) (wrap envelope_invalid "create aead")
    reject_if (not (length nonce == nonce_size)) (new envelope_invalid "invalid nonce size")
    or_wrap (p.aead_open key nonce ciphertext aad)
        (wrap envelope_invalid "aead authentication failed")

  unfoldable pub thumbprint : String → Bytes → String
  unfolding base64url
  thumbprint key_type public =
      base64url (p.sha256 (to_bytes ("iscp/v2/thumbprint/" +++ key_type +++ "\0") ++ public))

unfoldable pub ed25519_public_key_from_bytes : Bytes → Result Bytes
ed25519_public_key_from_bytes b =
    if length b == 32 then ok b else err (new key_invalid "invalid ed25519 public key size")

unfoldable pub ed25519_private_key_from_bytes : Bytes → Result Bytes
ed25519_private_key_from_bytes b =
    if length b == 64 then ok b else err (new key_invalid "invalid ed25519 private key size")

unfoldable pub x25519_public_key_from_bytes : Bytes → Result Bytes
x25519_public_key_from_bytes b =
    if length b == 32 then ok b else err (new key_invalid "invalid x25519 public key size")

module _ (p : Primitives) where
  -- The end of every verification: the signer's key, the signature and the signed input are read, in
  -- this order, and the signature is checked.
  unfoldable pub check_signature : Result Bytes → String → Result Bytes → Error → Result (Unit {0})
  unfolding decode_base64_url ed25519_public_key_from_bytes verify
  check_signature key value signed failed = do
    key_bytes ← key
    public ← ed25519_public_key_from_bytes key_bytes
    signature ← decode_base64_url p value
    input ← signed
    reject_if (not (verify p public input signature)) failed
