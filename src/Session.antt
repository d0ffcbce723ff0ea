-- ===== src/Session.antt =====
-- pkg/iscp/session/session.go: the handshake, the session keys and the sequence numbers.
pub mod Frames
pub mod Control
pub mod Handshake
pub mod Sequence
pub mod Readiness
use iscp.Prelude.{
  ℕ, zero, suc, ◌+◌, ◌*◌, ◌/◌, ◌%◌, ◌^◌, String, Bool, true, false, not, ◌&&◌, ◌||◌, Option, none,
  some, List, [], ◌∷◌, ◌++◌, map, if◌then◌else◌, string_eq, nat_eq, bytes_eq, ◌==◌, ltb, leb, Bytes,
  to_bytes, string_lt, ◌+++◌,
}
use iscp.Session.Frames.{
  Hello, Ready, type_hello, type_ready, hello_value, hello_input, ready_input,
}
use iscp.Prelude.Map
use iscp.Prelude.Map.{Map}
use iscp.Errors.{
  Result, ok, err, Error, new, session_invalid, replay_detected, ◌>>=◌, ◌>>◌, reject_if,
}
use iscp.Crypto.{
  Primitives, base64url, decode_base64_url, sign, check_signature, shared_secret, hkdf,
  x25519_public_key_from_bytes, ciphersuite_v2,
}
use iscp.Canonical.{Value, str, obj, fields, signature_input, write_canonical}
use iscp.Identity.{
  Signature, no_signature, signature_value, Device, DeviceIdentity, identity_thumbprint,
}

pub record LocalHello : Type 0 where
  pub hello : Hello
  pub private_key : Bytes

pub record State : Type 0 where
  pub session_id : String
  pub domain_id : String
  pub local_device_id : String
  pub peer_device_id : String
  pub transcript_hash : Bytes
  pub send_key : Bytes
  pub receive_key : Bytes
  pub ready_key : Bytes
  pub ready : Bool
  pub send_seq : ℕ
  pub seen_seq : Map ℕ (Unit {0})

-- binary.BigEndian.PutUint64
unfoldable pub big_endian : ℕ → ℕ → Bytes
big_endian zero n = []
big_endian (suc k) n = n / 256 ^ k % 256 ∷ big_endian k n

-- sendSeq is a uint64 and wraps.
unfoldable pub next_send : State → State × ℕ × Bytes
unfolding big_endian
next_send s = (
  record s { send_seq = (s.send_seq + 1) % 2 ^ 64 },
  s.send_seq,
  0 ∷ 0 ∷ 0 ∷ 0 ∷ big_endian 8 s.send_seq,
)

unfoldable pub mark_received : State → ℕ → Result State
mark_received s seq = elim (Map.get s.seen_seq seq) [
  | some _ ↦ err (new replay_detected "duplicate envelope sequence")
  | none ↦ ok (record s { seen_seq = Map.put s.seen_seq seq tt })
]

unfoldable pub direction_labels : String → String → String × String
direction_labels local remote =
    if string_lt local remote
    then ("low-to-high", "high-to-low")
    else ("high-to-low", "low-to-high")

-- sort.Slice of two elements by device id.
abbrev pub in_order {ℓ} : {A : Type ℓ} → (A → String) → A → A → A × A
in_order device a b = if string_lt (device b) (device a) then (b, a) else (a, b)

-- mustThumbprint drops the error, and leaves an empty text.
abbrev pub or_empty : Result String → String
or_empty (ok s) = s
or_empty (err e) = ""

module _ (p : Primitives) where
  -- The ephemeral key pair is the caller's: the provider draws it at random.
  unfoldable pub create_hello :
      Bytes × Bytes → Device → String → String → String → ℕ → Result LocalHello
  create_hello (priv, public) dev session_id peer_device_id grant_id now = do
    let hello : Hello = record {
      type = type_hello;
      session_id = session_id;
      domain_id = dev.identity.domain_id;
      device_id = dev.identity.device_id;
      peer_device_id = peer_device_id;
      ciphersuite = ciphersuite_v2;
      ephemeral_public_key = base64url p public;
      grant_id = grant_id;
      issued_at = now;
      signature = no_signature;
    }
    input ← hello_input p hello
    ok (record {
      hello = record hello {
        signature = record {
          alg = "Ed25519";
          kid = dev.identity.public_key.kid;
          value = base64url p (sign p dev.private input);
        };
      };
      private_key = priv;
    })

  unfoldable pub verify_hello : Hello → DeviceIdentity → Result (Unit {0})
  verify_hello hello id = do
    reject_if (not (hello.type == type_hello)) (new session_invalid "invalid session hello type")
    reject_if (not (hello.device_id == id.device_id) || not (hello.domain_id == id.domain_id))
        (new session_invalid "session hello identity mismatch")
    reject_if (not (hello.ciphersuite == ciphersuite_v2))
        (new session_invalid "unsupported ciphersuite")
    check_signature p (decode_base64_url p id.public_key.public) hello.signature.value
        (hello_input p (record hello { signature = no_signature }))
        (new session_invalid "session hello signature verification failed")

  -- The document of both hellos and both identities, each pair in the order of the device ids.
  unfoldable pub transcript_document :
      String → String → Hello × Hello → DeviceIdentity × DeviceIdentity → Value
  unfolding hello_value
  transcript_document session_id domain_id (hello_a, hello_b) (id_a, id_b) = obj (
      fields (
        ("protocol", str "iscp.session.transcript.v2")
        ∷ ("session_id", str session_id)
        ∷ ("domain_id", str domain_id)
        ∷ ("ciphersuite", str ciphersuite_v2)
        ∷ ("hello_a", hello_value p hello_a)
        ∷ ("hello_b", hello_value p hello_b)
        ∷ ("identity_a", str id_a.device_id)
        ∷ ("identity_b", str id_b.device_id)
        ∷ ("identity_thumbprint_a", str (or_empty (identity_thumbprint p id_a)))
        ∷ ("identity_thumbprint_b", str (or_empty (identity_thumbprint p id_b)))
        ∷ []))

  unfoldable pub transcript_hash : Hello → Hello → DeviceIdentity → DeviceIdentity → Bytes
  unfolding transcript_document
  transcript_hash a b a_id b_id = p.sha256 (
      write_canonical (
        transcript_document a.session_id a.domain_id (in_order (λ (h : Hello). h.device_id) a b)
          (in_order (λ (i : DeviceIdentity). i.device_id) a_id b_id)))

  abbrev pub key_info : String → Bytes
  key_info label = to_bytes ("iscp/v2/session/" +++ label)

  unfoldable pub establish : LocalHello → Hello → DeviceIdentity → DeviceIdentity → Result State
  establish local remote local_id remote_id = do
    reject_if (not (local.hello.session_id == remote.session_id))
        (new session_invalid "session id mismatch")
    reject_if (not (local.hello.domain_id == remote.domain_id))
        (new session_invalid "domain mismatch")
    reject_if
        (not (local.hello.peer_device_id == remote.device_id)
          || not (remote.peer_device_id == local.hello.device_id))
        (new session_invalid "peer binding mismatch")
    verify_hello remote remote_id
    remote_bytes ← decode_base64_url p remote.ephemeral_public_key
    remote_public ← x25519_public_key_from_bytes remote_bytes
    secret ← shared_secret p local.private_key remote_public
    let th : Bytes = transcript_hash local.hello remote local_id remote_id
    let labels : String × String = direction_labels local.hello.device_id remote.device_id
    send_key ← hkdf p secret th (key_info labels.0) 32
    receive_key ← hkdf p secret th (key_info labels.1) 32
    ready_key ← hkdf p secret th (key_info "ready") 32
    ok (record {
      session_id = local.hello.session_id;
      domain_id = local.hello.domain_id;
      local_device_id = local.hello.device_id;
      peer_device_id = remote.device_id;
      transcript_hash = th;
      send_key = send_key;
      receive_key = receive_key;
      ready_key = ready_key;
      ready = false;
      send_seq = 0;
      seen_seq = Map.empty;
    })

  abbrev pub ready_tag : State → String → Bytes
  ready_tag s device_id = p.hmac_sha256 s.ready_key (to_bytes ("ready:" +++ device_id))

  unfoldable pub create_ready : State → Device → Result Ready
  create_ready s dev = do
    let ready : Ready = record {
      type = type_ready;
      session_id = s.session_id;
      device_id = s.local_device_id;
      transcript_hash = base64url p s.transcript_hash;
      ready_mac = base64url p (ready_tag s s.local_device_id);
      signature = no_signature;
    }
    input ← ready_input p ready
    ok (record ready {
      signature = record {
        alg = "Ed25519";
        kid = dev.identity.public_key.kid;
        value = base64url p (sign p dev.private input);
      };
    })

  -- On success the session is ready.
  unfoldable pub verify_ready : State → Ready → DeviceIdentity → Result State
  verify_ready s ready remote_id = do
    reject_if
        (not (ready.type == type_ready)
          || not (ready.session_id == s.session_id)
          || not (ready.device_id == s.peer_device_id))
        (new session_invalid "ready binding mismatch")
    th ← decode_base64_url p ready.transcript_hash
    reject_if (not (th == s.transcript_hash)) (new session_invalid "ready transcript mismatch")
    mac ← decode_base64_url p ready.ready_mac
    reject_if (not (mac == ready_tag s ready.device_id)) (new session_invalid "ready mac mismatch")
    check_signature p (decode_base64_url p remote_id.public_key.public) ready.signature.value
        (ready_input p (record ready { signature = no_signature }))
        (new session_invalid "ready signature verification failed")
    ok (record s { ready = true })
