-- ===== src/Examples/Sessions.antt =====
-- Two devices that meet, talk and part.
use iscp.Prelude.{
  ℕ, ◌+◌, ◌≡◌, ◌≢◌, refl, String, true, false, [], ◌∷◌, Bytes, nat_eq, string_eq, arith,
}
use text.Mathlib.TextEquality.{eq_iff}
use iscp.Prelude.Map
use iscp.Prelude.Map.{get-empty}
use iscp.Prelude.Int.{pos}
use iscp.Errors.{ok, err, Error}
use iscp.Crypto.{base64url, ciphersuite_v2, x25519_public_key_from_bytes, shared_secret, hkdf}
use iscp.Canonical.{signature_input, in_range, has_distinct_keys}
use iscp.Identity.{no_signature}
use iscp.Session.Frames.{Hello, Ready, type_hello, hello_input}
use iscp.Session.{
  LocalHello, State, transcript_hash, verify_hello, establish, create_ready, verify_ready,
  next_send,
}
use iscp.Session.Handshake.{mirror, verify_hello_iff, establish-mirror}
use iscp.Session.Readiness.{verify_ready_iff, verify_ready-create_ready}
use iscp.Session.Sequence.{next_send-nonces, nonce_at}
use iscp.Session.Control.{
  valid_cause, valid_close_reason, Reopen, Close, ReopenVerifyOptions, type_reopen, reopen_input,
  create_close, verify_close,
}
use iscp.Session.Control.Window.{verify_close_iff, verify_close-create_close}
use iscp.Envelope.{Route, SecureEnvelope, encrypt, decrypt}
use iscp.Envelope.Delivery.{decrypt-encrypt, decrypt-once, receive}
use iscp.Recovery.{WrappedCredentials, seal_credentials, open_credentials}
use iscp.Recovery.Sealing.{open_credentials-seal_credentials}
use iscp.Config.{Gate, default_gate}
use iscp.HotSession.{Ticket}
use iscp.Examples.Toy.{
  toy, toy-IsSound, identity_of, device_of, public_text-decoded, signature_on,
  signature_on-IsSigned, zeros,
}

hello_total : (h : Hello) → (input : Bytes) × (hello_input toy h ≡ ok input)
unfolding hello_input signature_input in_range has_distinct_keys
hello_total h = (_, refl)

abbrev blank_hello : String → String → Hello
blank_hello device_id peer_device_id = record {
  type = type_hello;
  session_id = "s";
  domain_id = "home";
  device_id = device_id;
  peer_device_id = peer_device_id;
  ciphersuite = ciphersuite_v2;
  ephemeral_public_key = base64url toy (zeros 32);
  grant_id = "g";
  issued_at = 5;
  signature = no_signature;
}

abbrev hello_of : String → String → Hello
hello_of device_id peer_device_id = record (blank_hello device_id peer_device_id) {
  signature = signature_on (hello_total (blank_hello device_id peer_device_id)).0;
}

verify_hello-iff_example : verify_hello toy (hello_of "lamp" "phone") (identity_of "lamp") ≡ ok tt
verify_hello-iff_example =
    (verify_hello_iff toy (hello_of "lamp" "phone") (identity_of "lamp")).1 (
      refl,
      refl,
      refl,
      refl,
      signature_on-IsSigned _ _ (hello_total (blank_hello "lamp" "phone")).1,
    )

phone_hello : verify_hello toy (hello_of "phone" "lamp") (identity_of "phone") ≡ ok tt
phone_hello =
    (verify_hello_iff toy (hello_of "phone" "lamp") (identity_of "phone")).1 (
      refl,
      refl,
      refl,
      refl,
      signature_on-IsSigned _ _ (hello_total (blank_hello "phone" "lamp")).1,
    )

abbrev lamp_end : LocalHello
lamp_end = record { hello = hello_of "lamp" "phone"; private_key = zeros 32 }

abbrev phone_end : LocalHello
phone_end = record { hello = hello_of "phone" "lamp"; private_key = zeros 32 }

abbrev lamp_state : State
lamp_state = record {
  session_id = "s";
  domain_id = "home";
  local_device_id = "lamp";
  peer_device_id = "phone";
  transcript_hash = [];
  send_key = zeros 32;
  receive_key = zeros 32;
  ready_key = zeros 32;
  ready = false;
  send_seq = 0;
  seen_seq = Map.empty;
}

lamp_established :
    establish toy lamp_end phone_end.hello (identity_of "lamp") (identity_of "phone")
    ≡ ok lamp_state
unfolding establish x25519_public_key_from_bytes shared_secret hkdf transcript_hash
lamp_established = rw (phone_hello, public_text-decoded) refl

establish-mirror_example :
    establish toy phone_end lamp_end.hello (identity_of "phone") (identity_of "lamp")
    ≡ ok (mirror lamp_state)
establish-mirror_example =
    establish-mirror toy lamp_end phone_end (identity_of "lamp") (identity_of "phone") (zeros 32)
      (zeros 32) lamp_state toy-IsSound refl refl refl refl refl
      (λ e. cc ((eq_iff "lamp" "phone").1 e)) verify_hello-iff_example lamp_established

verify_ready-create_ready_example :
    (ready : Ready) × (create_ready toy lamp_state (device_of "lamp") ≡ ok ready)
    × (verify_ready toy (mirror lamp_state) ready (identity_of "lamp")
        ≡ ok (record (mirror lamp_state) { ready = true }))
verify_ready-create_ready_example =
    verify_ready-create_ready toy lamp_state (device_of "lamp") toy-IsSound public_text-decoded

lamp_ready :
    (ready : Ready) × (create_ready toy lamp_state (device_of "lamp") ≡ ok ready)
    × (verify_ready toy (mirror lamp_state) ready (identity_of "lamp")
        ≡ ok (record (mirror lamp_state) { ready = true }))
lamp_ready =
    verify_ready-create_ready toy lamp_state (device_of "lamp") toy-IsSound public_text-decoded

verify_ready-iff_example : lamp_ready.0.device_id ≡ "lamp"
verify_ready-iff_example =
    ((verify_ready_iff toy (mirror lamp_state) (record (mirror lamp_state) { ready = true })
        lamp_ready.0 (identity_of "lamp")).0
      lamp_ready.2).2

next_send-nonces_example : nonce_at lamp_state 3 ≢ nonce_at lamp_state 5
next_send-nonces_example = next_send-nonces lamp_state 3 5 (omega arith) (omega arith) (omega arith)

reopen_total : (r : Reopen) → (input : Bytes) × (reopen_input toy r ≡ ok input)
unfolding reopen_input signature_input in_range has_distinct_keys
reopen_total r = (_, refl)

abbrev now : ℕ
now = 100_000_000_000

abbrev options : ReopenVerifyOptions
options = record { local_device_id = "phone"; domain_id = "home"; relay_id = "relay"; now = now }

abbrev blank_reopen : Reopen
blank_reopen = record {
  type = type_reopen;
  request_id = "r";
  domain_id = "home";
  device_id = "lamp";
  peer_device_id = "phone";
  relay_id = "relay";
  cause = "runtime_started";
  issued_at = now;
  expires_at = now + 30_000_000_000;
  nonce = "n";
  signature = no_signature;
}

abbrev reopen : Reopen
reopen = record blank_reopen { signature = signature_on (reopen_total blank_reopen).0 }

runtime_started : valid_cause "runtime_started" ≡ true
unfolding valid_cause
runtime_started = refl

shutdown : valid_close_reason "shutdown" ≡ true
unfolding valid_close_reason
shutdown = refl

verify_close-create_close_example :
    (frame : Close) × (create_close toy (device_of "lamp") "s" "phone" "relay" "shutdown" [] now
      ≡ ok frame)
    × (verify_close toy frame (identity_of "lamp") options ≡ ok tt)
verify_close-create_close_example =
    verify_close-create_close toy (device_of "lamp") "s" "shutdown" [] now options toy-IsSound
      shutdown refl public_text-decoded (omega arith) (omega arith)

lamp_close :
    (frame : Close) × (create_close toy (device_of "lamp") "s" "phone" "relay" "shutdown" [] now
      ≡ ok frame)
    × (verify_close toy frame (identity_of "lamp") options ≡ ok tt)
lamp_close =
    verify_close-create_close toy (device_of "lamp") "s" "shutdown" [] now options toy-IsSound
      shutdown refl public_text-decoded (omega arith) (omega arith)

verify_close-iff_example : lamp_close.0.peer_device_id ≡ "phone"
verify_close-iff_example =
    ((verify_close_iff toy lamp_close.0 (identity_of "lamp") options).0 lamp_close.2).5

abbrev lamp_running : State
lamp_running = record lamp_state { ready = true }

abbrev phone_running : State
phone_running = record (mirror lamp_state) { ready = true }

abbrev route : Route
route = record { relay_id = "relay"; ttl_seconds = pos 60; priority = pos 1 }

decrypt-encrypt_example :
    (env : SecureEnvelope) × (encrypt toy lamp_running "m" "text" route (104 ∷ 105 ∷ [])
      ≡ ((next_send lamp_running).0, ok env))
    × (decrypt toy phone_running env ≡ (
      record phone_running { seen_seq = Map.put phone_running.seen_seq 0 tt },
      ok (104 ∷ 105 ∷ []),
    ))
decrypt-encrypt_example =
    decrypt-encrypt toy lamp_running phone_running "m" "text" route (104 ∷ 105 ∷ []) toy-IsSound
      refl refl (refl, refl, refl, refl, refl) refl (omega arith) refl refl (get-empty 0)

-- An envelope that nobody sealed, with the names of the session.
abbrev forged : SecureEnvelope
forged = record {
  type = "iscp.secure_envelope.v2";
  domain_id = "home";
  message_id = "m";
  session_id = "s";
  sender_device_id = "lamp";
  recipient_device_id = "phone";
  sequence = 0;
  nonce = "";
  payload_type = "text";
  route = route;
  ciphertext = "";
}

decrypt-once_example :
    (e : Error) × (decrypt toy
        (receive toy phone_running (forged ∷ []))
        (record forged { ciphertext = "b" })
      ≡ (receive toy phone_running (forged ∷ []), err e))
decrypt-once_example =
    decrypt-once toy phone_running forged (record forged { ciphertext = "b" }) [] refl refl refl

open_credentials-seal_credentials_example :
    (wrapped : WrappedCredentials) × (seal_credentials toy
        (zeros 32, zeros 32)
        (zeros 12)
        (base64url toy (zeros 32))
        []
        (7 ∷ [])
      ≡ ok wrapped)
    × (open_credentials toy wrapped (zeros 32) (base64url toy (zeros 32)) [] ≡ ok (7 ∷ []))
open_credentials-seal_credentials_example =
    open_credentials-seal_credentials toy (zeros 32) (zeros 32) (zeros 12) (zeros 32) (zeros 32) []
      (7 ∷ []) (zeros 32) (zeros 32) toy-IsSound refl refl refl refl refl refl refl refl

lab_gate : Gate
lab_gate = record (default_gate "local-lab") {
  allow_plaintext_debug = true;
  allow_debug_secrets = true;
}

abbrev hot_ticket : Ticket
hot_ticket = record {
  session_id = "s";
  grant_id = "g";
  permission = "text";
  counter = 4;
  resume_before = 20;
}
