-- ===== src/Session/Handshake.antt =====
-- pkg/iscp/session/session.go: VerifyHello, and Establish at the two ends.
use iscp.Prelude.{
  ◌≡◌, ◌≢◌, sym, ◌∙◌, String, some, string_eq, nat_eq, bytes_eq, Bytes, arith, ◌↔◌, string_lt-flip,
  length,
}
use text.Mathlib.TextEquality.{eq_iff}
use iscp.Errors.{ok, new, session_invalid}
use iscp.Crypto.{
  Primitives, base64url, decode_base64_url, shared_secret, hkdf, x25519_public_key_from_bytes,
  ciphersuite_v2,
}
use iscp.Crypto.Laws.{IsSound, IsSigned, check_signature_iff}
use iscp.Identity.{no_signature, DeviceIdentity}
use iscp.Canonical.{write_canonical}
use iscp.Session.Frames.{Hello, type_hello, hello_input}
use iscp.Session.{
  LocalHello, State, direction_labels, in_order, verify_hello, transcript_document, transcript_hash,
  establish,
}

in_order_comm :
    {A : Type 0} (device : A → String) (a b : A)
    → device a ≢ device b
    → in_order device a b ≡ in_order device b a
in_order_comm device a b n = ground (arith, string_lt-flip (device a) (device b) n)

direction_labels-swap :
    (local remote : String)
    → local ≢ remote
    → direction_labels remote local
      ≡ ((direction_labels local remote).1, (direction_labels local remote).0)
unfolding direction_labels
direction_labels-swap local remote n = ground (arith, string_lt-flip local remote n)

-- A hello is accepted exactly when it is of the right type and ciphersuite, is of the identity's
-- device and domain, and carries a signature of the identity's key over itself.
pub verify_hello_iff :
    (p : Primitives) (hello : Hello) (id : DeviceIdentity)
    → (verify_hello p hello id ≡ ok tt) ↔ (
        (hello.type ≡ type_hello)
        × (hello.device_id ≡ id.device_id)
        × (hello.domain_id ≡ id.domain_id)
        × (hello.ciphersuite ≡ ciphersuite_v2)
        × IsSigned p
            (decode_base64_url p id.public_key.public)
            hello.signature.value
            (hello_input p (record hello { signature = no_signature })))
unfolding verify_hello
verify_hello_iff p hello id =
    let signed =
      check_signature_iff p (decode_base64_url p id.public_key.public) hello.signature.value
        (hello_input p (record hello { signature = no_signature }))
        (new session_invalid "session hello signature verification failed") in
    (
      λ h. (
        ground (arith, eq_iff hello.type type_hello),
        ground (arith, eq_iff hello.device_id id.device_id),
        ground (arith, eq_iff hello.domain_id id.domain_id),
        ground (arith, eq_iff hello.ciphersuite ciphersuite_v2),
        signed.0 (ground arith),
      ),
      λ h. ground (
        arith,
        signed.1 h.4,
        eq_iff hello.type type_hello,
        eq_iff hello.device_id id.device_id,
        eq_iff hello.domain_id id.domain_id,
        eq_iff hello.ciphersuite ciphersuite_v2,
      ),
    )

-- The two ends hash the same transcript.
transcript_hash_comm :
    (p : Primitives) (a b : Hello) (a_id b_id : DeviceIdentity)
    → a.session_id ≡ b.session_id
    → a.domain_id ≡ b.domain_id
    → a.device_id ≢ b.device_id
    → a_id.device_id ≢ b_id.device_id
    → transcript_hash p a b a_id b_id ≡ transcript_hash p b a b_id a_id
unfolding transcript_hash
transcript_hash_comm p a b a_id b_id s d n m = λ i. p.sha256 (
    write_canonical (
      transcript_document p (s i) (d i) (in_order_comm (λ (h : Hello). h.device_id) a b n i)
        (in_order_comm (λ (i : DeviceIdentity). i.device_id) a_id b_id m i)))

establish-checks :
    (p : Primitives) (a : LocalHello) (b : Hello) (a_id b_id : DeviceIdentity) (s : State)
    → establish p a b a_id b_id ≡ ok s
    → (a.hello.session_id ≡ b.session_id)
      × (a.hello.domain_id ≡ b.domain_id)
      × (a.hello.peer_device_id ≡ b.device_id)
      × (b.peer_device_id ≡ a.hello.device_id)
      × (verify_hello p b b_id ≡ ok tt)
unfolding establish
establish-checks p a b a_id b_id s h = (
  ground (arith, eq_iff a.hello.session_id b.session_id),
  ground (arith, eq_iff a.hello.domain_id b.domain_id),
  ground (arith, eq_iff a.hello.peer_device_id b.device_id),
  ground (arith, eq_iff b.peer_device_id a.hello.device_id),
  ground arith,
)

-- The state that the other end has to reach.
abbrev pub mirror : State → State
mirror s = record s {
  local_device_id = s.peer_device_id;
  peer_device_id = s.local_device_id;
  send_key = s.receive_key;
  receive_key = s.send_key;
}

-- Where the cryptographic library is sound, and the hellos of two different devices carry the public
-- halves of their ephemeral keys, that of the first of 32 bytes: when the first end has established
-- the session from the second's hello, then the second end, to which the first's hello verifies,
-- establishes it too, and reaches the mirror image: the same transcript and ready key, with the two
-- direction keys swapped.
pub establish-mirror :
    (p : Primitives) (a b : LocalHello) (a_id b_id : DeviceIdentity) (a_public b_public : Bytes)
    (s : State)
    → IsSound p
    → p.x25519 a.private_key p.x25519_basepoint ≡ some a_public
    → p.x25519 b.private_key p.x25519_basepoint ≡ some b_public
    → a.hello.ephemeral_public_key ≡ base64url p a_public
    → b.hello.ephemeral_public_key ≡ base64url p b_public
    → length a_public ≡ 32
    → a.hello.device_id ≢ b.hello.device_id
    → verify_hello p a.hello a_id ≡ ok tt
    → establish p a b.hello a_id b_id ≡ ok s
    → establish p b a.hello b_id a_id ≡ ok (mirror s)
unfolding establish shared_secret hkdf decode_base64_url base64url x25519_public_key_from_bytes
establish-mirror p a b a_id b_id a_public b_public s sound pa pb ea eb len n verified done =
    let (session, domain, peer, back, checked) = establish-checks p a b.hello a_id b_id s done in
    let mine = (verify_hello_iff p a.hello a_id).0 verified in
    let other = (verify_hello_iff p b.hello b_id).0 checked in
    let m : a_id.device_id ≢ b_id.device_id = λ e. n (mine.1 ∙ e ∙ sym other.1) in
    ground (
      arith,
      done,
      verified,
      eq_iff b.hello.session_id a.hello.session_id,
      eq_iff b.hello.domain_id a.hello.domain_id,
      eq_iff b.hello.peer_device_id a.hello.device_id,
      eq_iff a.hello.peer_device_id b.hello.device_id,
      session,
      domain,
      peer,
      back,
      checked,
      transcript_hash_comm p a.hello b.hello a_id b_id session domain n m,
      direction_labels-swap a.hello.device_id b.hello.device_id n,
      sound.decode-encode a_public,
      sound.decode-encode b_public,
      sound.x25519-agree a.private_key b.private_key a_public b_public pa pb,
    )
