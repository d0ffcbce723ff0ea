-- ===== src/Trust/Grants.antt =====
-- pkg/iscp/trust/trust.go: VerifyGrant.
use iscp.Prelude.{
  ◌≤◌, ◌<◌, ◌≡◌, refl, String, true, false, not, ◌&&◌, List, [], ◌∷◌, string_eq, nat_eq, contains,
  arith, ◌↔◌, inl, inr, ◌⊎◌,
}
use text.Mathlib.TextEquality.{eq_iff}
use iscp.Errors.{ok, new, trust_invalid}
use iscp.Crypto.{Primitives, decode_base64_url}
use iscp.Crypto.Laws.{IsSigned, check_signature_iff}
use iscp.Identity.{no_signature, DeviceIdentity}
use iscp.Trust.{Grant, VerifyOptions, type_trust_grant, is_empty, grant_input, verify_grant}

-- An item of a list.
abbrev pub IsIn : String → List String → Type 0
IsIn s [] = ⊥
IsIn s (t ∷ ts) = (t ≡ s) ⊎ IsIn s ts

contains→IsIn : (ts : List String) (s : String) → contains ts s ≡ true → IsIn s ts
contains→IsIn [] s h = cc
contains→IsIn (t ∷ ts) s h = ground (arith, eq_iff t s, contains→IsIn ts s)

IsIn→contains : (ts : List String) (s : String) → IsIn s ts → contains ts s ≡ true
IsIn→contains [] s h = elim h [ ]
IsIn→contains (t ∷ ts) s h = ground (arith, eq_iff t s, IsIn→contains ts s)

relay→ :
    (ts : List String) (s : String)
    → (not (is_empty ts) && not (contains ts s)) ≡ false
    → (ts ≡ []) ⊎ IsIn s ts
relay→ [] s h = inl refl
relay→ (t ∷ ts) s h = inr (contains→IsIn (t ∷ ts) s (ground arith))

relay← :
    (ts : List String) (s : String)
    → (ts ≡ []) ⊎ IsIn s ts
    → (not (is_empty ts) && not (contains ts s)) ≡ false
relay← [] s h = refl
relay← (t ∷ ts) s (inl e) = cc
relay← (t ∷ ts) s (inr i) = rw (IsIn→contains (t ∷ ts) s i) refl

-- What a grant has to be for this issuer and these options.
pub record IsGrantFor (p : Primitives) (grant : Grant) (issuer : DeviceIdentity)
    (opts : VerifyOptions) : Type 0 where
  pub type : grant.type ≡ type_trust_grant
  pub started : grant.not_before ≤ opts.now
  pub running : opts.now < grant.expires_at
  pub audience : grant.audience ≡ opts.audience
  pub subject : grant.subject_device_id ≡ opts.subject_device_id
  pub confirmation : grant.confirmation_thumbprint ≡ opts.confirmation_thumbprint
  pub permitted : IsIn opts.permission grant.permissions
  pub relay : (grant.relay_constraints ≡ []) ⊎ IsIn opts.relay_id grant.relay_constraints
  pub fresh : opts.current_revocation_epoch ≤ grant.revocation_epoch
  pub signed :
      IsSigned p
        (decode_base64_url p issuer.public_key.public)
        grant.signature.value
        (grant_input p (record grant { signature = no_signature }))

module _ (p : Primitives) (grant : Grant) (issuer : DeviceIdentity) (opts : VerifyOptions) where
  verify_grant→IsGrantFor :
      verify_grant p grant issuer opts ≡ ok tt → IsGrantFor p grant issuer opts
  unfolding verify_grant
  verify_grant→IsGrantFor h = record {
    type = ground (arith, eq_iff grant.type type_trust_grant);
    started = ground arith;
    running = ground arith;
    audience = ground (arith, eq_iff grant.audience opts.audience);
    subject = ground (arith, eq_iff grant.subject_device_id opts.subject_device_id);
    confirmation =
        ground (arith, eq_iff grant.confirmation_thumbprint opts.confirmation_thumbprint);
    permitted = contains→IsIn grant.permissions opts.permission (ground arith);
    relay = relay→ grant.relay_constraints opts.relay_id (ground arith);
    fresh = ground arith;
    signed =
        (check_signature_iff p (decode_base64_url p issuer.public_key.public) grant.signature.value
            (grant_input p (record grant { signature = no_signature }))
            (new trust_invalid "trust grant signature verification failed")).0
          (ground arith);
  }

  -- A grant is accepted exactly when it is a running grant for this audience, subject, confirmation
  -- key, permission and relay, of no older revocation epoch than the current one, and carries a signature of the issuer's key over itself.
  pub verify_grant_iff : (verify_grant p grant issuer opts ≡ ok tt) ↔ IsGrantFor p grant issuer opts
  unfolding verify_grant
  verify_grant_iff = (
    verify_grant→IsGrantFor,
    λ g.
        let checked =
          (check_signature_iff p (decode_base64_url p issuer.public_key.public)
              grant.signature.value (grant_input p (record grant { signature = no_signature }))
              (new trust_invalid "trust grant signature verification failed")).1
            g.signed in
        ground (
          arith,
          checked,
          eq_iff grant.type type_trust_grant,
          eq_iff grant.audience opts.audience,
          eq_iff grant.subject_device_id opts.subject_device_id,
          eq_iff grant.confirmation_thumbprint opts.confirmation_thumbprint,
          IsIn→contains grant.permissions opts.permission g.permitted,
          relay← grant.relay_constraints opts.relay_id g.relay,
        ),
  )
