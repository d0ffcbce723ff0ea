-- ===== src/Recovery/Sealing.antt =====
-- pkg/iscp/recovery/recovery.go: Seal and Open together.
use iscp.Prelude.{◌≡◌, refl, string_eq, some, [], ◌++◌, Bytes, length, nat_eq, arith}
use text.Mathlib.TextPositions.{eq_refl}
use iscp.Errors.{ok}
use iscp.Crypto.{
  Primitives, base64url, decode_base64_url, shared_secret, hkdf, seal, open_sealed,
  x25519_public_key_from_bytes, ciphersuite_v2,
}
use iscp.Crypto.Laws.{IsSound}
use iscp.Recovery.{
  WrappedCredentials, type_wrapped_credentials, seal_credentials, open_credentials, derive_key,
}

-- Where the cryptographic library is sound, credentials are sealed to a wrap key, with an ephemeral key and a nonce of the right sizes, where
-- the key agreement and the key derivation succeed, and the holder of the wrap key's private half
-- opens them for the same transcript.
pub open_credentials-seal_credentials :
    (p : Primitives) (server_priv server_pub nonce wrap_priv wrap_pub transcript plaintext : Bytes)
    (secret key : Bytes)
    → IsSound p
    → p.x25519 server_priv p.x25519_basepoint ≡ some server_pub
    → p.x25519 wrap_priv p.x25519_basepoint ≡ some wrap_pub
    → length server_pub ≡ 32
    → length wrap_pub ≡ 32
    → length nonce ≡ 12
    → p.x25519 server_priv wrap_pub ≡ some secret
    → p.hkdf_read secret [] (transcript ++ wrap_pub ++ server_pub) 32 ≡ some key
    → length key ≡ 32
    → (wrapped : WrappedCredentials) × (seal_credentials p
          (server_priv, server_pub)
          nonce
          (base64url p wrap_pub)
          transcript
          plaintext
        ≡ ok wrapped)
      × (open_credentials p wrapped wrap_priv (base64url p wrap_pub) transcript ≡ ok plaintext)
unfolding seal_credentials open_credentials derive_key hkdf shared_secret decode_base64_url
    base64url x25519_public_key_from_bytes seal open_sealed
open_credentials-seal_credentials p server_priv server_pub nonce wrap_priv wrap_pub transcript
      plaintext secret key s sp wp size wide twelve agreed derived full =
    let ct = p.aead_seal key nonce plaintext transcript in
    (
      record {
        type = type_wrapped_credentials;
        ciphersuite = ciphersuite_v2;
        recovery_public_key = base64url p wrap_pub;
        server_public_key = base64url p server_pub;
        nonce = base64url p nonce;
        ciphertext = base64url p ct;
      },
      rw (s.decode-encode wrap_pub, wide, agreed, derived, full, twelve) refl,
      ground (
        arith,
        size,
        wide,
        twelve,
        agreed,
        derived,
        full,
        s.decode-encode wrap_pub,
        s.decode-encode server_pub,
        s.decode-encode nonce,
        s.decode-encode ct,
        s.open-seal key nonce plaintext transcript,
        s.x25519-agree server_priv wrap_priv server_pub wrap_pub sp wp,
        eq_refl type_wrapped_credentials,
        eq_refl ciphersuite_v2,
        eq_refl (p.encode_base64url wrap_pub),
      ),
    )
