-- ===== src/Examples/Signed.antt =====
-- Signed objects that are accepted.
use iscp.Prelude.{◌≡◌, refl, String, true, [], ◌∷◌, Bytes, inl, arith}
use iscp.Prelude.Int.{pos}
use iscp.Errors.{ok}
use iscp.Crypto.{thumbprint}
use iscp.Canonical.Raw.{Json, check_members, member_value}
use iscp.Canonical.{signature_input, in_range, has_distinct_keys}
use iscp.Identity.{
  no_signature, DeviceProof, new_device, verify_proof, create_proof, identity_thumbprint,
}
use iscp.Identity.Proofs.{IsProofOf, verify_proof_iff, verify-create_proof}
use iscp.Trust.{Grant, VerifyOptions, type_trust_grant, grant_input, verify_grant}
use iscp.Trust.Grants.{verify_grant_iff}
use iscp.Provisioning.{
  PairingTicketV3, type_pairing_ticket_v3, purpose_invite, ticket_v3_input, verify_ticket_v3,
}
use iscp.Provisioning.Bundle.{Bundle, LocalChannel, type_bundle, bundle_input, apply_bundle}
use iscp.Provisioning.Tickets.{IsTicketOf, verify_ticket_v3_iff, apply_bundle_iff}
use iscp.Examples.Toy.{
  toy, toy-IsSound, identity_of, public_text-decoded, signature_on, signature_on-IsSigned, zeros,
}

grant_total :
    (g : Grant)
    → (input : Bytes) × (grant_input toy
          (record g { relay_constraints = []; permissions = "text" ∷ []; revocation_epoch = 3 })
        ≡ ok input)
unfolding grant_input signature_input in_range has_distinct_keys
grant_total g = (_, refl)

abbrev blank_grant : Grant
blank_grant = record {
  type = type_trust_grant;
  grant_id = "g";
  issuer = "root";
  subject_device_id = "lamp";
  audience = "phone";
  confirmation_thumbprint = "t";
  permissions = "text" ∷ [];
  relay_constraints = [];
  not_before = 10;
  expires_at = 20;
  revocation_epoch = 3;
  signature = no_signature;
}

abbrev grant : Grant
grant = record blank_grant { signature = signature_on (grant_total blank_grant).0 }

abbrev options : VerifyOptions
options = record {
  audience = "phone";
  subject_device_id = "lamp";
  confirmation_thumbprint = "t";
  permission = "text";
  relay_id = "relay";
  current_revocation_epoch = 3;
  now = 15;
}

verify_grant-iff_example : verify_grant toy grant (identity_of "root") options ≡ ok tt
verify_grant-iff_example = (verify_grant_iff toy grant (identity_of "root") options).1 (record {
  type = refl;
  started = omega arith;
  running = omega arith;
  audience = refl;
  subject = refl;
  confirmation = refl;
  permitted = inl refl;
  relay = inl refl;
  fresh = omega arith;
  signed = signature_on-IsSigned _ _ (grant_total blank_grant).1;
})

verify-create_proof_example :
    (proof : DeviceProof) × (create_proof toy
        (new_device toy [] "home" "lamp" 50)
        "relay"
        "c"
        "n"
        100
      ≡ ok proof)
    × (verify_proof toy (new_device toy [] "home" "lamp" 50).identity proof "relay" "c" 130 60
        ≡ ok tt)
verify-create_proof_example =
    verify-create_proof toy [] "home" "lamp" "relay" "c" "n" 50 100 130 60 toy-IsSound (omega arith)
      (omega arith)

lamp_proof :
    (proof : DeviceProof) × (create_proof toy
        (new_device toy [] "home" "lamp" 50)
        "relay"
        "c"
        "n"
        100
      ≡ ok proof)
    × (verify_proof toy (new_device toy [] "home" "lamp" 50).identity proof "relay" "c" 150 60
        ≡ ok tt)
lamp_proof =
    verify-create_proof toy [] "home" "lamp" "relay" "c" "n" 50 100 150 60 toy-IsSound (omega arith)
      (omega arith)

verify_proof-iff_example :
    IsProofOf toy (new_device toy [] "home" "lamp" 50).identity lamp_proof.0 "relay" "c" 150 60
verify_proof-iff_example =
    (verify_proof_iff toy (new_device toy [] "home" "lamp" 50).identity lamp_proof.0 "relay" "c" 150
        60).0
      lamp_proof.2

pub ticket_total :
    (t : PairingTicketV3)
    → (input : Bytes) × (ticket_v3_input toy (record t {
      grant_permissions = "text" ∷ [];
      grant_ttl_seconds = pos 60;
      max_uses = pos 1;
    })
        ≡ ok input)
unfolding ticket_v3_input signature_input in_range has_distinct_keys
ticket_total t = (_, refl)

abbrev pub blank_ticket : PairingTicketV3
blank_ticket = record {
  type = type_pairing_ticket_v3;
  ticket_id = "t";
  domain_id = "home";
  relay_id = "relay";
  trust_root_id = "root";
  purpose = purpose_invite;
  consumer_role = "device";
  grant_audience = "phone";
  grant_permissions = "text" ∷ [];
  grant_ttl_seconds = pos 60;
  max_uses = pos 1;
  issued_at = 10;
  expires_at = 20;
  signature = no_signature;
}

abbrev pub ticket : PairingTicketV3
ticket = record blank_ticket { signature = signature_on (ticket_total blank_ticket).0 }

pub ticket-IsTicketOf : IsTicketOf toy ticket (identity_of "root") 15
ticket-IsTicketOf = record {
  type = refl;
  purpose = refl;
  role = λ e. cc;
  audience = λ e. cc;
  permissions = λ e. cc;
  ttl = ground arith;
  started = omega arith;
  running = omega arith;
  signed = signature_on-IsSigned _ _ (ticket_total blank_ticket).1;
}

verify_ticket_v3-iff_example : verify_ticket_v3 toy ticket (identity_of "root") 15 ≡ ok tt
verify_ticket_v3-iff_example =
    (verify_ticket_v3_iff toy ticket (identity_of "root") 15).1 ticket-IsTicketOf

identity_total :
    (device_id : String)
    → identity_thumbprint toy (identity_of device_id) ≡ ok (thumbprint toy "Ed25519" (zeros 32))
unfolding identity_thumbprint
identity_total device_id = rw public_text-decoded refl

abbrev json : Json
json = record { is_valid = λ raw. true; tokens = λ raw. [] }

bundle_total :
    (b : Bundle)
    → (input : Bytes) × (bundle_input toy json (record b {
      relay_descriptor = [];
      trust_root_descriptor = [];
      access_credential = [];
      trust_grant = [];
    })
        ≡ ok input)
unfolding bundle_input check_members member_value signature_input in_range has_distinct_keys
bundle_total b = (_, refl)

abbrev blank_bundle : Bundle
blank_bundle = record {
  type = type_bundle;
  bundle_id = "b";
  issued_to_device_id = "lamp";
  issued_to_public_key_thumbprint = thumbprint toy "Ed25519" (zeros 32);
  relay_descriptor = [];
  trust_root_descriptor = [];
  access_credential = [];
  refresh_credential_wrapped = "";
  trust_grant = [];
  issued_at = 10;
  expires_at = 20;
  signature = no_signature;
}

abbrev bundle : Bundle
bundle = record blank_bundle { signature = signature_on (bundle_total blank_bundle).0 }

abbrev channel : LocalChannel
channel = record { key = zeros 32; transcript_mac = []; ready = true }

apply_bundle-iff_example :
    apply_bundle toy json channel (identity_of "lamp") bundle (identity_of "root") 15 ≡ ok tt
apply_bundle-iff_example =
    (apply_bundle_iff toy json channel (identity_of "lamp") bundle (identity_of "root") 15).1 (
      refl,
      omega arith,
      omega arith,
      refl,
      identity_total "lamp",
      signature_on-IsSigned _ _ (bundle_total blank_bundle).1,
    )
