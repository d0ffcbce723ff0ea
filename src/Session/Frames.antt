-- ===== src/Session/Frames.antt =====
-- pkg/iscp/session/session.go: the frames of the handshake, their JSON and what is signed of them.
use iscp.Prelude.{ℕ, String, [], ◌∷◌, string_eq, nat_eq, bytes_eq, Bytes}
use iscp.Errors.{Result}
use iscp.Crypto.{Primitives}
use iscp.Canonical.{Value, str, obj, fields, signature_input}
use iscp.Identity.{Signature, signature_value}

abbrev pub type_hello : String
type_hello = "iscp.session.hello.v2"

abbrev pub type_ready : String
type_ready = "iscp.session.ready.v2"

pub record Hello : Type 0 where
  pub type : String
  pub session_id : String
  pub domain_id : String
  pub device_id : String
  pub peer_device_id : String
  pub ciphersuite : String
  pub ephemeral_public_key : String
  pub grant_id : String
  pub issued_at : ℕ
  pub signature : Signature

pub record Ready : Type 0 where
  pub type : String
  pub session_id : String
  pub device_id : String
  pub transcript_hash : String
  pub ready_mac : String
  pub signature : Signature

module _ (p : Primitives) where
  unfoldable pub hello_value : Hello → Value
  hello_value h = obj (
      fields (
        ("type", str h.type)
        ∷ ("session_id", str h.session_id)
        ∷ ("domain_id", str h.domain_id)
        ∷ ("device_id", str h.device_id)
        ∷ ("peer_device_id", str h.peer_device_id)
        ∷ ("ciphersuite", str h.ciphersuite)
        ∷ ("ephemeral_public_key", str h.ephemeral_public_key)
        ∷ ("grant_id", str h.grant_id)
        ∷ ("issued_at", str (p.format_time h.issued_at))
        ∷ ("signature", signature_value h.signature)
        ∷ []))

  unfoldable pub hello_input : Hello → Result Bytes
  unfolding hello_value
  hello_input h = signature_input type_hello (hello_value h)

  unfoldable pub ready_value : Ready → Value
  ready_value r = obj (
      fields (
        ("type", str r.type)
        ∷ ("session_id", str r.session_id)
        ∷ ("device_id", str r.device_id)
        ∷ ("transcript_hash", str r.transcript_hash)
        ∷ ("ready_mac", str r.ready_mac)
        ∷ ("signature", signature_value r.signature)
        ∷ []))

  unfoldable pub ready_input : Ready → Result Bytes
  unfolding ready_value
  ready_input r = signature_input type_ready (ready_value r)
