-- ===== src/Session/Control.antt =====
-- pkg/iscp/session/control.go: the frames that ask for a new handshake and that close a session.
pub mod Window
use iscp.Prelude.{
  ℕ, ◌+◌, ◌-◌, ◌*◌, ◌%◌, ◌≤◌, String, Bool, true, false, not, ◌&&◌, ◌||◌, Option, none, some, List,
  [], ◌∷◌, ◌++◌, if◌then◌else◌, string_eq, nat_eq, ◌==◌, ltb, leb, Bytes,
}
use iscp.Errors.{
  Result, ok, err, Error, new, session_invalid, trust_invalid, signature_invalid, ◌>>=◌, ◌>>◌,
  reject_if,
}
use iscp.Crypto.{Primitives, base64url, decode_base64_url, sign, check_signature}
use iscp.Canonical.{Value, str, obj, fields, signature_input}
use iscp.Identity.{Signature, no_signature, signature_value, Device, DeviceIdentity}

abbrev pub type_reopen : String
type_reopen = "iscp.session.reopen.v1"

abbrev pub type_close : String
type_close = "iscp.session.close.v1"

abbrev pub second : ℕ
second = 1_000_000_000

abbrev pub control_frame_max_ttl : ℕ
control_frame_max_ttl = 30 * second

abbrev pub control_frame_clock_skew : ℕ
control_frame_clock_skew = 5 * second

pub record Reopen : Type 0 where
  pub type : String
  pub request_id : String
  pub domain_id : String
  pub device_id : String
  pub peer_device_id : String
  pub relay_id : String
  pub cause : String
  pub issued_at : ℕ
  pub expires_at : ℕ
  pub nonce : String
  pub signature : Signature

pub record Close : Type 0 where
  pub type : String
  pub session_id : String
  pub domain_id : String
  pub device_id : String
  pub peer_device_id : String
  pub relay_id : String
  pub reason : String
  pub issued_at : ℕ
  pub expires_at : ℕ
  pub nonce : String
  pub signature : Signature

pub record ReopenVerifyOptions : Type 0 where
  pub local_device_id : String
  pub domain_id : String
  pub relay_id : String
  pub now : ℕ

unfoldable pub valid_cause : String → Bool
valid_cause cause = cause == "runtime_started" || cause == "foreground_recovery"

unfoldable pub valid_close_reason : String → Bool
valid_close_reason reason =
    reason == "shutdown" || reason == "superseded" || reason == "revoked" || reason == "error"

-- expires_at.Sub(issued_at) comes after the test that it is not negative.
unfoldable pub verify_control_window : ℕ → ℕ → ℕ → Result (Unit {0})
verify_control_window issued_at expires_at now =
    reject_if
      (ltb (now + control_frame_clock_skew) issued_at
        || not (ltb now expires_at)
        || ltb expires_at issued_at
        || ltb control_frame_max_ttl (expires_at - issued_at))
      (new signature_invalid "session control frame is outside its allowed time window")

module _ (p : Primitives) where
  unfoldable pub reopen_value : Reopen → Value
  reopen_value r = obj (
      fields (
        ("type", str r.type)
        ∷ ("request_id", str r.request_id)
        ∷ ("domain_id", str r.domain_id)
        ∷ ("device_id", str r.device_id)
        ∷ ("peer_device_id", str r.peer_device_id)
        ∷ ("relay_id", str r.relay_id)
        ∷ ("cause", str r.cause)
        ∷ ("issued_at", str (p.format_time r.issued_at))
        ∷ ("expires_at", str (p.format_time r.expires_at))
        ∷ ("nonce", str r.nonce)
        ∷ ("signature", signature_value r.signature)
        ∷ []))

  unfoldable pub close_value : Close → Value
  close_value c = obj (
      fields (
        ("type", str c.type)
        ∷ ("session_id", str c.session_id)
        ∷ ("domain_id", str c.domain_id)
        ∷ ("device_id", str c.device_id)
        ∷ ("peer_device_id", str c.peer_device_id)
        ∷ ("relay_id", str c.relay_id)
        ∷ ("reason", str c.reason)
        ∷ ("issued_at", str (p.format_time c.issued_at))
        ∷ ("expires_at", str (p.format_time c.expires_at))
        ∷ ("nonce", str c.nonce)
        ∷ ("signature", signature_value c.signature)
        ∷ []))

  unfoldable pub reopen_input : Reopen → Result Bytes
  unfolding reopen_value
  reopen_input r = signature_input type_reopen (reopen_value r)

  unfoldable pub close_input : Close → Result Bytes
  unfolding close_value
  close_input c = signature_input type_close (close_value c)

  abbrev pub signature_of : Device → Bytes → Signature
  signature_of dev input = record {
    alg = "Ed25519";
    kid = dev.identity.public_key.kid;
    value = base64url p (sign p dev.private input);
  }

  -- The nonce is the caller's: it is drawn at random. Times are cut to whole seconds.
  unfoldable pub create_reopen :
      Device → String → String → String → String → Bytes → ℕ → Result Reopen
  create_reopen dev request_id peer_device_id relay_id cause nonce now = do
    reject_if (not (valid_cause cause)) (new session_invalid "unsupported session reopen cause")
    let issued : ℕ = now - now % second
    let reopen : Reopen = record {
      type = type_reopen;
      request_id = request_id;
      domain_id = dev.identity.domain_id;
      device_id = dev.identity.device_id;
      peer_device_id = peer_device_id;
      relay_id = relay_id;
      cause = cause;
      issued_at = issued;
      expires_at = issued + control_frame_max_ttl;
      nonce = base64url p nonce;
      signature = no_signature;
    }
    input ← reopen_input reopen
    ok (record reopen { signature = signature_of dev input })

  unfoldable pub verify_reopen : Reopen → DeviceIdentity → ReopenVerifyOptions → Result (Unit {0})
  verify_reopen reopen requester opts = do
    reject_if (not (reopen.type == type_reopen)) (new session_invalid "invalid session reopen type")
    reject_if (not (valid_cause reopen.cause))
        (new session_invalid "unsupported session reopen cause")
    reject_if
        (not (reopen.domain_id == opts.domain_id) || not (requester.domain_id == opts.domain_id))
        (new trust_invalid "session reopen domain mismatch")
    reject_if (not (reopen.device_id == requester.device_id))
        (new trust_invalid "session reopen identity mismatch")
    reject_if (not (reopen.peer_device_id == opts.local_device_id))
        (new trust_invalid "session reopen is not addressed to this device")
    reject_if (not (reopen.relay_id == opts.relay_id))
        (new trust_invalid "session reopen relay constraint mismatch")
    verify_control_window reopen.issued_at reopen.expires_at opts.now
    reject_if (not (reopen.signature.kid == requester.public_key.kid))
        (new trust_invalid "session reopen identity mismatch")
    check_signature p (decode_base64_url p requester.public_key.public) reopen.signature.value
        (reopen_input (record reopen { signature = no_signature }))
        (new signature_invalid "session control frame signature verification failed")

  unfoldable pub create_close :
      Device → String → String → String → String → Bytes → ℕ → Result Close
  create_close dev session_id peer_device_id relay_id reason nonce now = do
    reject_if (not (valid_close_reason reason))
        (new session_invalid "unsupported session close reason")
    let issued : ℕ = now - now % second
    let frame : Close = record {
      type = type_close;
      session_id = session_id;
      domain_id = dev.identity.domain_id;
      device_id = dev.identity.device_id;
      peer_device_id = peer_device_id;
      relay_id = relay_id;
      reason = reason;
      issued_at = issued;
      expires_at = issued + control_frame_max_ttl;
      nonce = base64url p nonce;
      signature = no_signature;
    }
    input ← close_input frame
    ok (record frame { signature = signature_of dev input })

  unfoldable pub verify_close : Close → DeviceIdentity → ReopenVerifyOptions → Result (Unit {0})
  verify_close frame sender opts = do
    reject_if (not (frame.type == type_close)) (new session_invalid "invalid session close type")
    reject_if (not (valid_close_reason frame.reason))
        (new session_invalid "unsupported session close reason")
    reject_if (not (frame.domain_id == opts.domain_id) || not (sender.domain_id == opts.domain_id))
        (new trust_invalid "session close domain mismatch")
    reject_if (not (frame.device_id == sender.device_id))
        (new trust_invalid "session close identity mismatch")
    reject_if (not (frame.peer_device_id == opts.local_device_id))
        (new trust_invalid "session close is not addressed to this device")
    reject_if (not (frame.relay_id == opts.relay_id))
        (new trust_invalid "session close relay constraint mismatch")
    verify_control_window frame.issued_at frame.expires_at opts.now
    reject_if (not (frame.signature.kid == sender.public_key.kid))
        (new trust_invalid "session close identity mismatch")
    check_signature p (decode_base64_url p sender.public_key.public) frame.signature.value
        (close_input (record frame { signature = no_signature }))
        (new signature_invalid "session control frame signature verification failed")
