-- ===== src/Provisioning/Tickets.antt =====
-- pkg/iscp/provisioning/provisioning.go: VerifyTicketV3, BindGrantRoles and ApplyBundle.
use iscp.Prelude.{
  ℕ, ◌≤◌, ◌<◌, ◌≡◌, ◌≢◌, refl, String, true, false, List, [], ◌∷◌, string_eq, nat_eq, ◌==◌, arith,
  ◌↔◌, inl, inr,
}
use iscp.Prelude.Int.{pos, ◌≤ℤ◌}
use text.Mathlib.TextEquality.{eq_iff}
use iscp.Errors.{ok, new, provision_invalid, Result-cases}
use iscp.Crypto.{Primitives, decode_base64_url}
use iscp.Crypto.Laws.{IsSigned, check_signature_iff}
use iscp.Canonical.Raw.{Json}
use iscp.Identity.{no_signature, DeviceIdentity, identity_thumbprint}
use iscp.Trust.{is_empty}
use iscp.Provisioning.{
  PairingTicketV3, GrantRoleBindings, type_pairing_ticket_v3, purpose_invite, ticket_v3_input,
  verify_ticket_v3, bind_grant_roles,
}
use iscp.Provisioning.Bundle.{LocalChannel, Bundle, bundle_input, apply_bundle}

pub record IsTicketOf (p : Primitives) (ticket : PairingTicketV3) (issuer : DeviceIdentity)
    (now : ℕ) : Type 0 where
  pub type : ticket.type ≡ type_pairing_ticket_v3
  pub purpose : ticket.purpose ≡ purpose_invite
  pub role : ticket.consumer_role ≢ ""
  pub audience : ticket.grant_audience ≢ ""
  pub permissions : ticket.grant_permissions ≢ []
  pub ttl : pos 0 ≤ℤ ticket.grant_ttl_seconds
  pub started : ticket.issued_at ≤ now
  pub running : now < ticket.expires_at
  pub signed :
      IsSigned p
        (decode_base64_url p issuer.public_key.public)
        ticket.signature.value
        (ticket_v3_input p (record ticket { signature = no_signature }))

ne_of_test : (s t : String) → (s == t) ≡ false → s ≢ t
ne_of_test s t h e = cc (h, (eq_iff s t).1 e)

test_of_ne : (s t : String) → s ≢ t → (s == t) ≡ false
test_of_ne s t n = ground (arith, eq_iff s t)

ne_nil : (ts : List String) → is_empty ts ≡ false → ts ≢ []
ne_nil [] h e = cc
ne_nil (t ∷ ts) h e = cc

is_empty_ne : (ts : List String) → ts ≢ [] → is_empty ts ≡ false
is_empty_ne [] n = absurd (n refl)
is_empty_ne (t ∷ ts) n = refl

module _ (p : Primitives) (ticket : PairingTicketV3) (issuer : DeviceIdentity) (now : ℕ) where
  verify_ticket_v3→IsTicketOf :
      verify_ticket_v3 p ticket issuer now ≡ ok tt → IsTicketOf p ticket issuer now
  unfolding verify_ticket_v3
  verify_ticket_v3→IsTicketOf h = record {
    type = ground (arith, eq_iff ticket.type type_pairing_ticket_v3);
    purpose = ground (arith, eq_iff ticket.purpose purpose_invite);
    role = ne_of_test ticket.consumer_role "" (ground arith);
    audience = ne_of_test ticket.grant_audience "" (ground arith);
    permissions = ne_nil ticket.grant_permissions (ground arith);
    ttl = ground arith;
    started = ground arith;
    running = ground arith;
    signed =
        (check_signature_iff p (decode_base64_url p issuer.public_key.public) ticket.signature.value
            (ticket_v3_input p (record ticket { signature = no_signature }))
            (new provision_invalid "pairing ticket signature failed")).0
          (ground arith);
  }

  -- A version 3 ticket is accepted exactly when it is an invitation with a consumer role, a grant
  -- audience, at least one permission and no negative lifetime, it is running, and it carries a
  -- signature of the issuer's key over itself.
  pub verify_ticket_v3_iff :
      (verify_ticket_v3 p ticket issuer now ≡ ok tt) ↔ IsTicketOf p ticket issuer now
  unfolding verify_ticket_v3
  verify_ticket_v3_iff = (
    verify_ticket_v3→IsTicketOf,
    λ t.
        let checked =
          (check_signature_iff p (decode_base64_url p issuer.public_key.public)
              ticket.signature.value
              (ticket_v3_input p (record ticket { signature = no_signature }))
              (new provision_invalid "pairing ticket signature failed")).1
            t.signed in
        ground (
          arith,
          checked,
          eq_iff ticket.type type_pairing_ticket_v3,
          eq_iff ticket.purpose purpose_invite,
          test_of_ne ticket.consumer_role "" t.role,
          test_of_ne ticket.grant_audience "" t.audience,
          is_empty_ne ticket.grant_permissions t.permissions,
        ),
  )

-- A ticket gives roles exactly to a device of its domain, with a readable key, that is not the
-- inviting controller: the device becomes the subject, under its own key, and the controller the
-- audience, with the permissions and the relay of the ticket.
pub bind_grant_roles_iff :
    (p : Primitives) (ticket : PairingTicketV3) (consumer : DeviceIdentity) (b : GrantRoleBindings)
    → (bind_grant_roles p ticket consumer ≡ ok b) ↔ (
        (consumer.domain_id ≡ ticket.domain_id)
        × (consumer.device_id ≢ ticket.grant_audience)
        × (identity_thumbprint p consumer ≡ ok b.confirmation_thumbprint)
        × (b.subject_device_id ≡ consumer.device_id)
        × (b.audience ≡ ticket.grant_audience)
        × (b.permissions ≡ ticket.grant_permissions)
        × (b.relay_id ≡ ticket.relay_id))
unfolding bind_grant_roles
bind_grant_roles_iff p ticket consumer b = (
  λ h. ground (
    arith,
    eq_iff consumer.domain_id ticket.domain_id,
    eq_iff consumer.device_id ticket.grant_audience,
  ),
  λ h. ground (
    arith,
    eq_iff consumer.domain_id ticket.domain_id,
    test_of_ne consumer.device_id ticket.grant_audience h.1,
  ),
)

-- A bundle is applied exactly over a ready channel, while it is running, by the device and the key
-- that it was issued to, with a signature of the issuer's key over itself.
pub apply_bundle_iff :
    (p : Primitives) (json : Json) (channel : LocalChannel) (local : DeviceIdentity)
    (bundle : Bundle) (issuer : DeviceIdentity) (now : ℕ)
    → (apply_bundle p json channel local bundle issuer now ≡ ok tt) ↔ (
        (channel.ready ≡ true)
        × (bundle.issued_at ≤ now)
        × (now < bundle.expires_at)
        × (bundle.issued_to_device_id ≡ local.device_id)
        × (identity_thumbprint p local ≡ ok bundle.issued_to_public_key_thumbprint)
        × IsSigned p
            (decode_base64_url p issuer.public_key.public)
            bundle.signature.value
            (bundle_input p json (record bundle { signature = no_signature })))
unfolding apply_bundle
apply_bundle_iff p json channel local bundle issuer now =
    let signed =
      check_signature_iff p (decode_base64_url p issuer.public_key.public) bundle.signature.value
        (bundle_input p json (record bundle { signature = no_signature }))
        (new provision_invalid "bundle signature failed") in
    (
      λ h. elim (Result-cases (identity_thumbprint p local)) [
        | inr (e, bad) ↦ absurd (ground arith)
        | inl (print, made) ↦ (
          ground arith,
          ground arith,
          ground arith,
          ground (arith, eq_iff bundle.issued_to_device_id local.device_id),
          ground (arith, eq_iff bundle.issued_to_public_key_thumbprint print),
          signed.0 (ground arith),
        )
      ],
      λ h. ground (
        arith,
        signed.1 h.5,
        eq_iff bundle.issued_to_device_id local.device_id,
        eq_iff bundle.issued_to_public_key_thumbprint bundle.issued_to_public_key_thumbprint,
      ),
    )
