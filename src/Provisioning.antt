-- ===== src/Provisioning.antt =====
-- pkg/iscp/provisioning/provisioning.go: pairing tickets, and the bundle of a new device.
pub mod Store
pub mod Bundle
pub mod Tickets
use iscp.Prelude.{
  ℕ, ◌+◌, String, Bool, true, false, not, ◌&&◌, ◌||◌, Option, none, some, List, [], ◌∷◌, ◌++◌, map,
  if◌then◌else◌, string_eq, nat_eq, ◌==◌, ltb, leb, Bytes,
}
use iscp.Prelude.Int.{ℤ, pos, ltb_ℤ, eqb_ℤ}
use iscp.Errors.{Result, ok, err, Error, new, provision_invalid, ◌>>=◌, ◌>>◌, reject_if}
use iscp.Crypto.{Primitives, base64url, decode_base64_url, sign, check_signature}
use iscp.Canonical.{Value, str, num, arr, obj, fields, strings, signature_input}
use iscp.Identity.{
  Signature, no_signature, signature_value, Device, DeviceIdentity, identity_thumbprint,
}
use iscp.Trust.{is_empty}

abbrev pub type_pairing_ticket : String
type_pairing_ticket = "iscp.pairing_ticket.v2"

abbrev pub type_pairing_ticket_v3 : String
type_pairing_ticket_v3 = "iscp.pairing_ticket.v3"

abbrev pub purpose_invite : String
purpose_invite = "invite"

pub record PairingTicket : Type 0 where
  pub type : String
  pub ticket_id : String
  pub domain_id : String
  pub relay_id : String
  pub trust_root_id : String
  pub max_uses : ℤ
  pub issued_at : ℕ
  pub expires_at : ℕ
  pub signature : Signature

pub record PairingTicketV3 : Type 0 where
  pub type : String
  pub ticket_id : String
  pub domain_id : String
  pub relay_id : String
  pub trust_root_id : String
  pub purpose : String
  pub consumer_role : String
  pub grant_audience : String
  pub grant_permissions : List String
  pub grant_ttl_seconds : ℤ
  pub max_uses : ℤ
  pub issued_at : ℕ
  pub expires_at : ℕ
  pub signature : Signature

pub record GrantRoleBindings : Type 0 where
  pub subject_device_id : String
  pub confirmation_thumbprint : String
  pub audience : String
  pub permissions : List String
  pub relay_id : String

-- A number that is left out of the JSON when it is zero.
abbrev pub unless_zero : String → ℤ → List (String × Value)
unless_zero k n = if eqb_ℤ n (pos 0) then [] else (k, num n) ∷ []

-- The signature that an issuer puts over an input.
abbrev pub signature_by : Primitives → Device → Bytes → Signature
signature_by p issuer input = record {
  alg = "Ed25519";
  kid = issuer.identity.public_key.kid;
  value = base64url p (sign p issuer.private input);
}

module _ (p : Primitives) where
  unfoldable pub ticket_value : PairingTicket → Value
  ticket_value t = obj (
      fields (
        ("type", str t.type)
        ∷ ("ticket_id", str t.ticket_id)
        ∷ ("domain_id", str t.domain_id)
        ∷ ("relay_id", str t.relay_id)
        ∷ ("trust_root_id", str t.trust_root_id)
        ∷ ("max_uses", num t.max_uses)
        ∷ ("issued_at", str (p.format_time t.issued_at))
        ∷ ("expires_at", str (p.format_time t.expires_at))
        ∷ ("signature", signature_value t.signature)
        ∷ []))

  unfoldable pub ticket_v3_value : PairingTicketV3 → Value
  ticket_v3_value t = obj (
      fields (
        ("type", str t.type)
          ∷ ("ticket_id", str t.ticket_id)
          ∷ ("domain_id", str t.domain_id)
          ∷ ("relay_id", str t.relay_id)
          ∷ ("trust_root_id", str t.trust_root_id)
          ∷ ("purpose", str t.purpose)
          ∷ ("consumer_role", str t.consumer_role)
          ∷ ("grant_audience", str t.grant_audience)
          ∷ ("grant_permissions", arr (strings t.grant_permissions))
          ∷ unless_zero "grant_ttl_seconds" t.grant_ttl_seconds
        ++ ("max_uses", num t.max_uses)
          ∷ ("issued_at", str (p.format_time t.issued_at))
          ∷ ("expires_at", str (p.format_time t.expires_at))
          ∷ ("signature", signature_value t.signature)
          ∷ []))

  unfoldable pub ticket_input : PairingTicket → Result Bytes
  unfolding ticket_value
  ticket_input t = signature_input type_pairing_ticket (ticket_value t)

  unfoldable pub ticket_v3_input : PairingTicketV3 → Result Bytes
  unfolding ticket_v3_value
  ticket_v3_input t = signature_input type_pairing_ticket_v3 (ticket_v3_value t)

  unfoldable pub sign_ticket : Device → PairingTicket → Result PairingTicket
  sign_ticket issuer ticket = do
    let unsigned : PairingTicket = record ticket {
      type = type_pairing_ticket;
      signature = no_signature;
    }
    input ← ticket_input unsigned
    ok (record unsigned { signature = signature_by p issuer input })

  unfoldable pub sign_ticket_v3 : Device → PairingTicketV3 → Result PairingTicketV3
  sign_ticket_v3 issuer ticket = do
    let unsigned : PairingTicketV3 = record ticket {
      type = type_pairing_ticket_v3;
      signature = no_signature;
    }
    input ← ticket_v3_input unsigned
    ok (record unsigned { signature = signature_by p issuer input })

  unfoldable pub verify_ticket : PairingTicket → DeviceIdentity → ℕ → Result (Unit {0})
  verify_ticket ticket issuer now = do
    reject_if (not (ticket.type == type_pairing_ticket))
        (new provision_invalid "invalid ticket type")
    reject_if (ltb now ticket.issued_at || not (ltb now ticket.expires_at))
        (new provision_invalid "pairing ticket expired")
    check_signature p (decode_base64_url p issuer.public_key.public) ticket.signature.value
        (ticket_input (record ticket { signature = no_signature }))
        (new provision_invalid "pairing ticket signature failed")

  unfoldable pub verify_ticket_v3 : PairingTicketV3 → DeviceIdentity → ℕ → Result (Unit {0})
  verify_ticket_v3 ticket issuer now = do
    reject_if (not (ticket.type == type_pairing_ticket_v3))
        (new provision_invalid "invalid ticket type")
    reject_if (not (ticket.purpose == purpose_invite))
        (new provision_invalid "unsupported ticket purpose")
    reject_if (ticket.consumer_role == "")
        (new provision_invalid "ticket consumer role is required")
    reject_if (ticket.grant_audience == "")
        (new provision_invalid "ticket grant audience is required")
    reject_if (is_empty ticket.grant_permissions)
        (new provision_invalid "ticket grant permissions are required")
    reject_if (ltb_ℤ ticket.grant_ttl_seconds (pos 0))
        (new provision_invalid "ticket grant ttl must not be negative")
    reject_if (ltb now ticket.issued_at || not (ltb now ticket.expires_at))
        (new provision_invalid "pairing ticket expired")
    check_signature p (decode_base64_url p issuer.public_key.public) ticket.signature.value
        (ticket_v3_input (record ticket { signature = no_signature }))
        (new provision_invalid "pairing ticket signature failed")

  unfoldable pub bind_grant_roles : PairingTicketV3 → DeviceIdentity → Result GrantRoleBindings
  bind_grant_roles ticket consumer = do
    reject_if (not (consumer.domain_id == ticket.domain_id))
        (new provision_invalid "ticket domain does not match consumer domain")
    reject_if (consumer.device_id == ticket.grant_audience)
        (new provision_invalid "ticket grant audience must not be the consuming device")
    thumbprint ← identity_thumbprint p consumer
    ok (record {
      subject_device_id = consumer.device_id;
      confirmation_thumbprint = thumbprint;
      audience = ticket.grant_audience;
      permissions = ticket.grant_permissions;
      relay_id = ticket.relay_id;
    })
