-- ===== src/Trust.antt =====
-- pkg/iscp/trust/trust.go: trust grants, signed by the trust root and checked against a request.
pub mod Grants
use iscp.Prelude.{
  ℕ, ◌+◌, String, Bool, true, false, not, ◌&&◌, ◌||◌, Option, none, some, List, [], ◌∷◌, ◌++◌, map,
  if◌then◌else◌, string_eq, nat_eq, ◌==◌, ltb, leb, Bytes, contains,
}
use iscp.Prelude.Int.{ℤ, pos}
use iscp.Errors.{Result, ok, err, Error, new, trust_invalid, ◌>>=◌, ◌>>◌, reject_if}
use iscp.Crypto.{Primitives, base64url, decode_base64_url, sign, check_signature}
use iscp.Canonical.{Value, str, num, arr, obj, fields, strings, signature_input}
use iscp.Identity.{Signature, no_signature, signature_value, Device, DeviceIdentity}

abbrev pub type_trust_grant : String
type_trust_grant = "iscp.trust_grant.v2"

-- A nil slice is not told from an empty one.
pub record Grant : Type 0 where
  pub type : String
  pub grant_id : String
  pub issuer : String
  pub subject_device_id : String
  pub audience : String
  pub confirmation_thumbprint : String
  pub permissions : List String
  pub relay_constraints : List String
  pub not_before : ℕ
  pub expires_at : ℕ
  pub revocation_epoch : ℕ
  pub signature : Signature

pub record VerifyOptions : Type 0 where
  pub audience : String
  pub subject_device_id : String
  pub confirmation_thumbprint : String
  pub permission : String
  pub relay_id : String
  pub current_revocation_epoch : ℕ
  pub now : ℕ

abbrev pub is_empty {ℓ} : {A : Type ℓ} → List A → Bool
is_empty [] = true
is_empty (x ∷ xs) = false

-- A field that is left out of the JSON when it is empty.
abbrev pub unless_empty : String → List String → List (String × Value)
unless_empty k [] = []
unless_empty k (s ∷ ss) = (k, arr (strings (s ∷ ss))) ∷ []

module _ (p : Primitives) where
  unfoldable pub grant_value : Grant → Value
  grant_value g = obj (
      fields (
        ("type", str g.type)
          ∷ ("grant_id", str g.grant_id)
          ∷ ("issuer", str g.issuer)
          ∷ ("subject_device_id", str g.subject_device_id)
          ∷ ("audience", str g.audience)
          ∷ ("confirmation_thumbprint", str g.confirmation_thumbprint)
          ∷ ("permissions", arr (strings g.permissions))
          ∷ unless_empty "relay_constraints" g.relay_constraints
        ++ ("not_before", str (p.format_time g.not_before))
          ∷ ("expires_at", str (p.format_time g.expires_at))
          ∷ ("revocation_epoch", num (pos g.revocation_epoch))
          ∷ ("signature", signature_value g.signature)
          ∷ []))

  unfoldable pub grant_input : Grant → Result Bytes
  unfolding grant_value
  grant_input g = signature_input type_trust_grant (grant_value g)

  unfoldable pub sign_grant : Device → Grant → Result Grant
  sign_grant issuer grant = do
    let unsigned : Grant = record grant {
      type = type_trust_grant;
      issuer = issuer.identity.device_id;
      signature = no_signature;
    }
    input ← grant_input unsigned
    ok (record unsigned {
      signature = record {
        alg = "Ed25519";
        kid = issuer.identity.public_key.kid;
        value = base64url p (sign p issuer.private input);
      };
    })

  unfoldable pub verify_grant : Grant → DeviceIdentity → VerifyOptions → Result (Unit {0})
  verify_grant grant issuer opts = do
    reject_if (not (grant.type == type_trust_grant)) (new trust_invalid "invalid trust grant type")
    reject_if (ltb opts.now grant.not_before || not (ltb opts.now grant.expires_at))
        (new trust_invalid "trust grant is not currently valid")
    reject_if (not (grant.audience == opts.audience))
        (new trust_invalid "trust grant audience mismatch")
    reject_if (not (grant.subject_device_id == opts.subject_device_id))
        (new trust_invalid "trust grant subject mismatch")
    reject_if (not (grant.confirmation_thumbprint == opts.confirmation_thumbprint))
        (new trust_invalid "trust grant confirmation mismatch")
    reject_if (not (contains grant.permissions opts.permission))
        (new trust_invalid "trust grant permission denied")
    reject_if
        (not (is_empty grant.relay_constraints)
          && not (contains grant.relay_constraints opts.relay_id))
        (new trust_invalid "trust grant relay constraint mismatch")
    reject_if (ltb grant.revocation_epoch opts.current_revocation_epoch)
        (new trust_invalid "trust grant has been revoked")
    check_signature p (decode_base64_url p issuer.public_key.public) grant.signature.value
        (grant_input (record grant { signature = no_signature }))
        (new trust_invalid "trust grant signature verification failed")
