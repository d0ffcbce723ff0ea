-- ===== src/Envelope.antt =====
-- pkg/iscp/envelope/envelope.go: payloads sealed under the keys of a session.
pub mod Delivery
use iscp.Prelude.{
  ◌∷◌, List, [], ℕ, String, Bool, true, false, not, ◌||◌, string_eq, ◌==◌, Bytes, if◌then◌else◌,
}
use iscp.Prelude.Int.{ℤ, pos}
use iscp.Errors.{Result, ok, err, new, session_invalid, envelope_invalid, ◌>>=◌, ◌>>◌, reject_if}
use iscp.Crypto.{Primitives, base64url, decode_base64_url, seal, open_sealed}
use iscp.Canonical.{Value, str, num, obj, fields, marshal}
use iscp.Session.{State, next_send, mark_received}

abbrev pub type_secure_envelope : String
type_secure_envelope = "iscp.secure_envelope.v2"

pub record Route : Type 0 where
  pub relay_id : String
  pub ttl_seconds : ℤ
  pub priority : ℤ

pub record SecureEnvelope : Type 0 where
  pub type : String
  pub domain_id : String
  pub message_id : String
  pub session_id : String
  pub sender_device_id : String
  pub recipient_device_id : String
  pub sequence : ℕ
  pub nonce : String
  pub payload_type : String
  pub route : Route
  pub ciphertext : String

unfoldable pub envelope_value : SecureEnvelope → Value
envelope_value e = obj (
    fields (
      ("type", str e.type)
      ∷ ("domain_id", str e.domain_id)
      ∷ ("message_id", str e.message_id)
      ∷ ("session_id", str e.session_id)
      ∷ ("sender_device_id", str e.sender_device_id)
      ∷ ("recipient_device_id", str e.recipient_device_id)
      ∷ ("sequence", num (pos e.sequence))
      ∷ ("nonce", str e.nonce)
      ∷ ("payload_type", str e.payload_type)
      ∷ (
        "route",
        obj (
            fields (
              ("relay_id", str e.route.relay_id)
              ∷ ("ttl_seconds", num e.route.ttl_seconds)
              ∷ ("priority", num e.route.priority)
              ∷ [])),
      )
      ∷ ("ciphertext", str e.ciphertext)
      ∷ []))

abbrev pub not_ready {ℓ} : {A : Type ℓ} → Result A
not_ready = err (new session_invalid "session is not ready for payload delivery")

abbrev pub bound : State → SecureEnvelope → Result (Unit {0})
bound st env = do
  reject_if
      (not (env.type == type_secure_envelope)
        || not (env.session_id == st.session_id)
        || not (env.domain_id == st.domain_id))
      (new envelope_invalid "envelope binding mismatch")
  reject_if
      (not (env.sender_device_id == st.peer_device_id)
        || not (env.recipient_device_id == st.local_device_id))
      (new envelope_invalid "envelope route identity mismatch")

module _ (p : Primitives) where
  unfoldable pub aad : SecureEnvelope → Result Bytes
  unfolding envelope_value marshal
  aad env = marshal (envelope_value (record env { ciphertext = "" }))

  -- The envelope before it has a text.
  abbrev pub header : State → String → String → Route → Bytes → SecureEnvelope
  header st message_id payload_type route nonce = record {
    type = type_secure_envelope;
    domain_id = st.domain_id;
    message_id = message_id;
    session_id = st.session_id;
    sender_device_id = st.local_device_id;
    recipient_device_id = st.peer_device_id;
    sequence = st.send_seq;
    nonce = base64url p nonce;
    payload_type = payload_type;
    route = route;
    ciphertext = "";
  }

  abbrev pub seal_envelope : State → SecureEnvelope → Bytes → Bytes → Result SecureEnvelope
  seal_envelope st env nonce plaintext = do
    additional ← aad env
    ct ← seal p st.send_key nonce plaintext additional
    ok (record env { ciphertext = base64url p ct })

  -- A ready session has used its sequence number whether the sealing fails or not.
  unfoldable pub encrypt : State → String → String → Route → Bytes → State × Result SecureEnvelope
  unfolding next_send
  encrypt st message_id payload_type route plaintext =
      if not st.ready
      then (st, not_ready)
      else let (next, seq, nonce) = next_send st in
        (next, seal_envelope st (header st message_id payload_type route nonce) nonce plaintext)

  abbrev pub open_envelope : State → SecureEnvelope → Result Bytes
  open_envelope st env = do
    nonce ← decode_base64_url p env.nonce
    ct ← decode_base64_url p env.ciphertext
    additional ← aad env
    open_sealed p st.receive_key nonce ct additional

  abbrev pub mark_and_open : State → SecureEnvelope → Result State → State × Result Bytes
  mark_and_open st env (err e) = (st, err e)
  mark_and_open st env (ok marked) = (marked, open_envelope marked env)

  -- The sequence number counts as received whether the opening fails or not.
  unfoldable pub decrypt : State → SecureEnvelope → State × Result Bytes
  decrypt st env =
      if not st.ready
      then (st, not_ready)
      else mark_and_open st env (do bound st env; mark_received st env.sequence)
