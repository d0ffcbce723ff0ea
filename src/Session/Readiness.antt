-- ===== src/Session/Readiness.antt =====
-- pkg/iscp/session/session.go: CreateReady and VerifyReady.
use iscp.Prelude.{
  ◌≡◌, refl, string_eq, bytes_eq, true, some, Bytes, arith, ◌↔◌, Option-cases, inl, inr,
}
use text.Mathlib.TextEquality.{eq_iff}
use iscp.Errors.{ok, new, session_invalid}
use iscp.Crypto.{Primitives, base64url, decode_base64_url, sign}
use iscp.Crypto.Laws.{IsSound, IsSigned, check_signature_iff, sign-IsSigned}
use iscp.Canonical.{signature_input, in_range, has_distinct_keys}
use iscp.Identity.{no_signature, Device, DeviceIdentity}
use iscp.Session.Frames.{Ready, type_ready, ready_input}
use iscp.Session.{State, ready_tag, create_ready, verify_ready}
use iscp.Session.Handshake.{mirror}

ready_input-total : (p : Primitives) (r : Ready) → (input : Bytes) × (ready_input p r ≡ ok input)
unfolding ready_input signature_input in_range has_distinct_keys
ready_input-total p r = (_, refl)

-- A ready frame is accepted exactly when it is of this session and of the peer, names the session's
-- transcript, carries the peer's tag under the ready key and a signature of the peer's key over
-- itself, and then the session is ready and otherwise as before.
pub verify_ready_iff :
    (p : Primitives) (s out : State) (ready : Ready) (id : DeviceIdentity)
    → (verify_ready p s ready id ≡ ok out) ↔ (
        (ready.type ≡ type_ready)
        × (ready.session_id ≡ s.session_id)
        × (ready.device_id ≡ s.peer_device_id)
        × (p.decode_base64url ready.transcript_hash ≡ some s.transcript_hash)
        × (p.decode_base64url ready.ready_mac ≡ some (ready_tag p s ready.device_id))
        × IsSigned p
            (decode_base64_url p id.public_key.public)
            ready.signature.value
            (ready_input p (record ready { signature = no_signature }))
        × (record s { ready = true } ≡ out))
unfolding verify_ready decode_base64_url
verify_ready_iff p s out ready id =
    let signed =
      check_signature_iff p (decode_base64_url p id.public_key.public) ready.signature.value
        (ready_input p (record ready { signature = no_signature }))
        (new session_invalid "ready signature verification failed") in
    let tag = ready_tag p s ready.device_id in
    (
      λ h. elim (Option-cases (p.decode_base64url ready.transcript_hash)) [
        | inl bad ↦ absurd (ground arith)
        | inr (th, hashed) ↦ elim (Option-cases (p.decode_base64url ready.ready_mac)) [
          | inl bad ↦ absurd (ground arith)
          | inr (mac, tagged) ↦ (
            ground (arith, eq_iff ready.type type_ready),
            ground (arith, eq_iff ready.session_id s.session_id),
            ground (arith, eq_iff ready.device_id s.peer_device_id),
            ground (arith, bytes_eq.beq_iff th s.transcript_hash),
            ground (arith, bytes_eq.beq_iff mac tag),
            signed.0 (ground arith),
            ground arith,
          )
        ]
      ],
      λ h. ground (
        arith,
        signed.1 h.5,
        eq_iff ready.type type_ready,
        eq_iff ready.session_id s.session_id,
        eq_iff ready.device_id s.peer_device_id,
        bytes_eq.beq_iff s.transcript_hash s.transcript_hash,
        bytes_eq.beq_iff tag tag,
      ),
    )

-- Where the cryptographic library is sound and the device's identity has the public half of its key,
-- the device makes a ready frame, and the end that holds the mirror image of its session accepts it
-- and is then ready.
pub verify_ready-create_ready :
    (p : Primitives) (s : State) (dev : Device)
    → IsSound p
    → decode_base64_url p dev.identity.public_key.public ≡ ok (p.ed25519_public dev.private)
    → (ready : Ready) × (create_ready p s dev ≡ ok ready)
      × (verify_ready p (mirror s) ready dev.identity ≡ ok (record (mirror s) { ready = true }))
unfolding create_ready base64url
verify_ready-create_ready p s dev sound key =
    let tag = ready_tag p s s.local_device_id in
    let blank : Ready = record {
      type = type_ready;
      session_id = s.session_id;
      device_id = s.local_device_id;
      transcript_hash = base64url p s.transcript_hash;
      ready_mac = base64url p tag;
      signature = no_signature;
    } in
    let (input, signed) = ready_input-total p blank in
    let ready : Ready = record blank {
      signature = record {
        alg = "Ed25519";
        kid = dev.identity.public_key.kid;
        value = base64url p (sign p dev.private input);
      };
    } in
    (
      ready,
      rw (signed) refl,
      (verify_ready_iff p (mirror s) _ ready dev.identity).1 (
        refl,
        refl,
        refl,
        sound.decode-encode s.transcript_hash,
        sound.decode-encode tag,
        sign-IsSigned p dev.private input _ _ sound key signed,
        refl,
      ),
    )
