-- ===== src/Session/Control/Window.antt =====
-- pkg/iscp/session/control.go: the time window, VerifyReopen, CreateClose and VerifyClose.
use iscp.Prelude.{
  ℕ, ◌+◌, ◌-◌, ◌%◌, ◌≤◌, ◌<◌, ◌≡◌, refl, String, true, string_eq, nat_eq, Bytes, arith, ◌↔◌,
}
use text.Mathlib.TextEquality.{eq_iff}
use iscp.Errors.{ok, new, signature_invalid}
use iscp.Crypto.{Primitives, base64url, decode_base64_url, sign}
use iscp.Crypto.Laws.{IsSound, IsSigned, check_signature_iff, sign-IsSigned}
use iscp.Canonical.{signature_input, in_range, has_distinct_keys}
use iscp.Identity.{no_signature, Device, DeviceIdentity}
use iscp.Session.Control.{
  Reopen, Close, ReopenVerifyOptions, type_reopen, type_close, valid_cause, valid_close_reason,
  verify_control_window, control_frame_max_ttl, control_frame_clock_skew, second, reopen_input,
  close_input, verify_reopen, create_close, verify_close,
}

-- A frame is in its window exactly when it was issued at most the clock skew after now, has not
-- expired, does not end before it was issued, and lasts at most the longest lifetime.
pub verify_control_window_iff :
    (issued_at expires_at now : ℕ)
    → (verify_control_window issued_at expires_at now ≡ ok tt) ↔ (
        (issued_at ≤ now + control_frame_clock_skew)
        × (now < expires_at)
        × (issued_at ≤ expires_at)
        × (expires_at ≤ issued_at + control_frame_max_ttl))
unfolding verify_control_window
verify_control_window_iff issued_at expires_at now = (λ h. ground arith, λ h. ground arith)

-- A reopen frame is accepted exactly when it has the right type and cause, is of the requester, for
-- this domain, device and relay, is in its window, names the requester's key and carries a signature
-- of that key over itself.
pub verify_reopen_iff :
    (p : Primitives) (reopen : Reopen) (requester : DeviceIdentity) (opts : ReopenVerifyOptions)
    → (verify_reopen p reopen requester opts ≡ ok tt) ↔ (
        (reopen.type ≡ type_reopen)
        × (valid_cause reopen.cause ≡ true)
        × (reopen.domain_id ≡ opts.domain_id)
        × (requester.domain_id ≡ opts.domain_id)
        × (reopen.device_id ≡ requester.device_id)
        × (reopen.peer_device_id ≡ opts.local_device_id)
        × (reopen.relay_id ≡ opts.relay_id)
        × (verify_control_window reopen.issued_at reopen.expires_at opts.now ≡ ok tt)
        × (reopen.signature.kid ≡ requester.public_key.kid)
        × IsSigned p
            (decode_base64_url p requester.public_key.public)
            reopen.signature.value
            (reopen_input p (record reopen { signature = no_signature })))
unfolding verify_reopen
verify_reopen_iff p reopen requester opts =
    let signed =
      check_signature_iff p (decode_base64_url p requester.public_key.public) reopen.signature.value
        (reopen_input p (record reopen { signature = no_signature }))
        (new signature_invalid "session control frame signature verification failed") in
    (
      λ h. (
        ground (arith, eq_iff reopen.type type_reopen),
        ground arith,
        ground (arith, eq_iff reopen.domain_id opts.domain_id),
        ground (arith, eq_iff requester.domain_id opts.domain_id),
        ground (arith, eq_iff reopen.device_id requester.device_id),
        ground (arith, eq_iff reopen.peer_device_id opts.local_device_id),
        ground (arith, eq_iff reopen.relay_id opts.relay_id),
        ground arith,
        ground (arith, eq_iff reopen.signature.kid requester.public_key.kid),
        signed.0 (ground arith),
      ),
      λ h. ground (
        arith,
        signed.1 h.9,
        eq_iff reopen.type type_reopen,
        eq_iff reopen.domain_id opts.domain_id,
        eq_iff requester.domain_id opts.domain_id,
        eq_iff reopen.device_id requester.device_id,
        eq_iff reopen.peer_device_id opts.local_device_id,
        eq_iff reopen.relay_id opts.relay_id,
        eq_iff reopen.signature.kid requester.public_key.kid,
      ),
    )

-- A close frame is accepted exactly when it has the right type and reason, is of the sender, for this
-- domain, device and relay, is in its window, names the sender's key and carries a signature of that
-- key over itself.
pub verify_close_iff :
    (p : Primitives) (frame : Close) (sender : DeviceIdentity) (opts : ReopenVerifyOptions)
    → (verify_close p frame sender opts ≡ ok tt) ↔ (
        (frame.type ≡ type_close)
        × (valid_close_reason frame.reason ≡ true)
        × (frame.domain_id ≡ opts.domain_id)
        × (sender.domain_id ≡ opts.domain_id)
        × (frame.device_id ≡ sender.device_id)
        × (frame.peer_device_id ≡ opts.local_device_id)
        × (frame.relay_id ≡ opts.relay_id)
        × (verify_control_window frame.issued_at frame.expires_at opts.now ≡ ok tt)
        × (frame.signature.kid ≡ sender.public_key.kid)
        × IsSigned p
            (decode_base64_url p sender.public_key.public)
            frame.signature.value
            (close_input p (record frame { signature = no_signature })))
unfolding verify_close
verify_close_iff p frame sender opts =
    let signed =
      check_signature_iff p (decode_base64_url p sender.public_key.public) frame.signature.value
        (close_input p (record frame { signature = no_signature }))
        (new signature_invalid "session control frame signature verification failed") in
    (
      λ h. (
        ground (arith, eq_iff frame.type type_close),
        ground arith,
        ground (arith, eq_iff frame.domain_id opts.domain_id),
        ground (arith, eq_iff sender.domain_id opts.domain_id),
        ground (arith, eq_iff frame.device_id sender.device_id),
        ground (arith, eq_iff frame.peer_device_id opts.local_device_id),
        ground (arith, eq_iff frame.relay_id opts.relay_id),
        ground arith,
        ground (arith, eq_iff frame.signature.kid sender.public_key.kid),
        signed.0 (ground arith),
      ),
      λ h. ground (
        arith,
        signed.1 h.9,
        eq_iff frame.type type_close,
        eq_iff frame.domain_id opts.domain_id,
        eq_iff sender.domain_id opts.domain_id,
        eq_iff frame.device_id sender.device_id,
        eq_iff frame.peer_device_id opts.local_device_id,
        eq_iff frame.relay_id opts.relay_id,
        eq_iff frame.signature.kid sender.public_key.kid,
      ),
    )

close_input-total : (p : Primitives) (c : Close) → (input : Bytes) × (close_input p c ≡ ok input)
unfolding close_input signature_input in_range has_distinct_keys
close_input-total p c = (_, refl)

-- Where the cryptographic library is sound and the device's identity has the public half of its key,
-- a close frame that the device makes for a valid reason is accepted by its peer, on the same relay
-- and in the same domain, at every time from the clock skew before its making until it expires.
pub verify_close-create_close :
    (p : Primitives) (dev : Device) (session_id reason : String) (nonce : Bytes) (now : ℕ)
    (opts : ReopenVerifyOptions)
    → IsSound p
    → valid_close_reason reason ≡ true
    → dev.identity.domain_id ≡ opts.domain_id
    → decode_base64_url p dev.identity.public_key.public ≡ ok (p.ed25519_public dev.private)
    → now - now % second ≤ opts.now + control_frame_clock_skew
    → opts.now < now - now % second + control_frame_max_ttl
    → (frame : Close) × (create_close p dev session_id opts.local_device_id opts.relay_id reason
          nonce now
        ≡ ok frame)
      × (verify_close p frame dev.identity opts ≡ ok tt)
unfolding create_close
verify_close-create_close p dev session_id reason nonce now opts s good domain key early late =
    let blank : Close = record {
      type = type_close;
      session_id = session_id;
      domain_id = dev.identity.domain_id;
      device_id = dev.identity.device_id;
      peer_device_id = opts.local_device_id;
      relay_id = opts.relay_id;
      reason = reason;
      issued_at = now - now % second;
      expires_at = now - now % second + control_frame_max_ttl;
      nonce = base64url p nonce;
      signature = no_signature;
    } in
    let (input, signed) = close_input-total p blank in
    let frame : Close = record blank {
      signature = record {
        alg = "Ed25519";
        kid = dev.identity.public_key.kid;
        value = base64url p (sign p dev.private input);
      };
    } in
    let window = verify_control_window_iff blank.issued_at blank.expires_at opts.now in
    (
      frame,
      rw (good, signed) refl,
      (verify_close_iff p frame dev.identity opts).1 (
        refl,
        good,
        domain,
        domain,
        refl,
        refl,
        refl,
        window.1 (early, late, omega arith, omega arith),
        refl,
        sign-IsSigned p dev.private input _ _ s key signed,
      ),
    )
