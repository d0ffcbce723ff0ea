-- ===== src/Examples/Descriptors.antt =====
-- A relay's descriptor under the production profile.
use iscp.Prelude.{List, ◌∷◌, ◌≡◌, refl, true, some, [], Bytes, inl, inr, arith, string_eq}
use text.Mathlib.TextEquality.{eq_iff}
use iscp.Prelude.Map
use iscp.Errors.{ok}
use iscp.Crypto.{Primitives, decode_base64_url}
use iscp.Canonical.Parser.{Token, open_object, close_object, text_token, number_token, parse_tokens}
use iscp.Canonical.Raw.{Json, check_members, member_value}
use iscp.Canonical.{signature_input, in_range, has_distinct_keys}
use iscp.Config.{default_gate, validate_gate}
use iscp.Identity.{no_signature}
use iscp.Descriptor.{
  SignedDescriptor, RelayDescriptor, Decoders, type_signed_descriptor, type_relay, descriptor_input,
  verify_descriptor,
}
use iscp.Errors.{err, external, wrap, canonical_invalid}
use iscp.Descriptor.Acceptance.{verify_descriptor_iff}
use iscp.Examples.Toy.{toy, identity_of, zeros}

-- A library that reads every text as a key and accepts every signature.
abbrev credulous : Primitives
credulous = record toy {
  decode_base64url = λ text. some (zeros 32);
  ed25519_verify = λ public message signature. true;
}

abbrev json_of : List Token → Json
json_of ts = record { is_valid = λ raw. true; tokens = λ raw. ts }

abbrev json : Json
json = json_of (open_object ∷ close_object ∷ [])

abbrev relay_descriptor : RelayDescriptor
relay_descriptor = record {
  type = type_relay;
  relay_id = "relay";
  domain_id = "home";
  base_url = "";
  web_socket_url = "";
  signing_keys = [];
  issued_at = 5;
  expires_at = 20;
  metadata = Map.empty;
}

abbrev decoders : Decoders
decoders = record { relay = λ value. ok relay_descriptor; trust_root = λ value. err external }

abbrev unsigned_relay : SignedDescriptor
unsigned_relay = record {
  type = type_signed_descriptor;
  descriptor_type = type_relay;
  descriptor = 123 ∷ 125 ∷ [];
  signed_by = "root";
  signed_at = 5;
  signature = no_signature;
}

abbrev signed_relay : SignedDescriptor
signed_relay = record unsigned_relay { signature = record no_signature { value = "s" } }

descriptor_total : (input : Bytes) × (descriptor_input credulous json unsigned_relay ≡ ok input)
unfolding descriptor_input check_members member_value parse_tokens signature_input in_range
    has_distinct_keys
descriptor_total = (_, refl)

production_valid : validate_gate (default_gate "production") ≡ ok tt
unfolding validate_gate default_gate
production_valid = refl

-- A descriptor with a key twice, and one with a fraction, have no input to sign.
key_twice :
    descriptor_input credulous
      (json_of (
        open_object
        ∷ text_token "a"
        ∷ text_token "1"
        ∷ text_token "a"
        ∷ text_token "2"
        ∷ close_object
        ∷ []))
      unsigned_relay
    ≡ err (wrap canonical_invalid "invalid canonical json input")
unfolding descriptor_input check_members member_value parse_tokens
key_twice = refl

fraction :
    descriptor_input credulous
      (json_of
        (open_object ∷ text_token "a" ∷ number_token (b'1' ∷ b'.' ∷ b'5' ∷ []) ∷ close_object ∷ []))
      unsigned_relay
    ≡ err (wrap canonical_invalid "invalid canonical json input")
unfolding descriptor_input check_members member_value parse_tokens
fraction = refl

verify_descriptor_iff_example :
    verify_descriptor credulous json decoders signed_relay
      (identity_of "root")
      (default_gate "production")
      20
    ≡ ok tt
unfolding decode_base64_url
verify_descriptor_iff_example =
    (verify_descriptor_iff credulous json decoders signed_relay (identity_of "root")
        (default_gate "production") 20).1
      (
        production_valid,
        inr (
          (λ e. ground (arith, (eq_iff "s" "").1 e)),
          (zeros 32, zeros 32, descriptor_total.0, refl, refl, refl, descriptor_total.1, refl),
          inl (refl, (relay_descriptor, refl, omega arith)),
        ),
      )
