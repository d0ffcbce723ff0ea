-- ===== src/Crypto/Laws.antt =====
-- pkg/iscp/crypto/crypto.go: what the library functions are documented to do, and the end of every
-- signature check.
use iscp.Prelude.{◌≡◌, refl, String, true, some, nat_eq, Bytes, length, arith}
use mathlib.Core.Logic.{inl, inr, ◌↔◌}
use iscp.Prelude.{Option-cases}
use iscp.Errors.{Result, ok, err, Error}
use iscp.Crypto.{Primitives, check_signature, sign, base64url}

pub record IsSound (p : Primitives) : Type 0 where
  -- A signature verifies under the public key of the key that made it.
  pub verify-sign :
      (priv m : Bytes) → p.ed25519_verify (p.ed25519_public priv) m (p.ed25519_sign priv m) ≡ true
  pub length-public : (priv : Bytes) → length (p.ed25519_public priv) ≡ 32
  pub decode-encode : (b : Bytes) → p.decode_base64url (p.encode_base64url b) ≡ some b
  -- What was sealed opens under the same key, nonce and additional data.
  pub open-seal :
      (key nonce text aad : Bytes)
      → p.aead_open key nonce (p.aead_seal key nonce text aad) aad ≡ some text
  -- Both ends of an agreement get the same secret.
  pub x25519-agree :
      (a b a_public b_public : Bytes)
      → p.x25519 a p.x25519_basepoint ≡ some a_public
      → p.x25519 b p.x25519_basepoint ≡ some b_public
      → p.x25519 a b_public ≡ p.x25519 b a_public

-- A signature over an input that can be read, under a key that can be read.
abbrev pub IsSigned : Primitives → Result Bytes → String → Result Bytes → Type 0
IsSigned p key value signed =
    (public signature input : Bytes) × (key ≡ ok public)
    × (length public ≡ 32)
    × (p.decode_base64url value ≡ some signature)
    × (signed ≡ ok input)
    × (p.ed25519_verify public input signature ≡ true)

check_signature→IsSigned :
    (p : Primitives) (key : Result Bytes) (value : String) (signed : Result Bytes) (failed : Error)
    → check_signature p key value signed failed ≡ ok tt
    → IsSigned p key value signed
unfolding check_signature
check_signature→IsSigned p (err e) value signed failed h = cc
check_signature→IsSigned p (ok public) value (err e) failed h = absurd (ground arith)
check_signature→IsSigned p (ok public) value (ok input) failed h =
    elim (Option-cases (p.decode_base64url value)) [
      | inl bad ↦ absurd (ground arith)
      | inr (signature, decoded) ↦
          (public, signature, input, refl, ground arith, decoded, refl, ground arith)
    ]

-- The check passes exactly on such a signature.
pub check_signature_iff :
    (p : Primitives) (key : Result Bytes) (value : String) (signed : Result Bytes) (failed : Error)
    → (check_signature p key value signed failed ≡ ok tt) ↔ IsSigned p key value signed
unfolding check_signature
check_signature_iff p key value signed failed = (
  check_signature→IsSigned p key value signed failed,
  λ s. let (public, signature, input, a, b, c, d, e) = s in ground arith,
)

-- What sign makes is a signature under the key that belongs to it.
pub sign-IsSigned :
    (p : Primitives) (priv input : Bytes) (key signed : Result Bytes)
    → IsSound p
    → key ≡ ok (p.ed25519_public priv)
    → signed ≡ ok input
    → IsSigned p key (base64url p (sign p priv input)) signed
unfolding base64url sign
sign-IsSigned p priv input key signed s k e = (
  p.ed25519_public priv,
  p.ed25519_sign priv input,
  input,
  k,
  s.length-public priv,
  s.decode-encode (p.ed25519_sign priv input),
  e,
  s.verify-sign priv input,
)
