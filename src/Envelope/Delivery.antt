-- ===== src/Envelope/Delivery.antt =====
-- pkg/iscp/envelope/envelope.go: Encrypt and Decrypt at the two ends of a session.
use iscp.Prelude.{
  ℕ, ◌<◌, ◌^◌, ◌≡◌, refl, sym, String, true, none, some, List, [], ◌∷◌, string_eq, nat_eq, Bytes,
  length, arith, inl, inr, Option-cases, Bool-cases,
}
use text.Mathlib.TextPositions.{eq_refl}
use iscp.Prelude.Map
use iscp.Prelude.Map.{Map, map_laws, get-put}
use iscp.Errors.{ok, err, Error, new, session_invalid, replay_detected, Result-cases}
use iscp.Crypto.{Primitives, base64url, decode_base64_url, seal, open_sealed}
use iscp.Crypto.Laws.{IsSound}
use iscp.Canonical.{is_int64, in_range, has_distinct_keys, marshal, parse_strict, write_canonical}
use iscp.Session.{State, next_send, big_endian, mark_received}
use iscp.Envelope.{
  Route, SecureEnvelope, type_secure_envelope, envelope_value, aad, header, encrypt, decrypt, bound,
}

-- The sender's view of a session and the receiver's.
abbrev pub IsLinked : State → State → Type 0
IsLinked st peer =
    (peer.session_id ≡ st.session_id)
    × (peer.domain_id ≡ st.domain_id)
    × (peer.peer_device_id ≡ st.local_device_id)
    × (peer.local_device_id ≡ st.peer_device_id)
    × (peer.receive_key ≡ st.send_key)

aad-total :
    (p : Primitives) (env : SecureEnvelope)
    → env.sequence < 2 ^ 63
    → is_int64 env.route.ttl_seconds ≡ true
    → is_int64 env.route.priority ≡ true
    → (additional : Bytes) × (aad p env ≡ ok additional)
unfolding aad marshal parse_strict in_range has_distinct_keys envelope_value
aad-total p env s t u =
    (write_canonical (envelope_value (record env { ciphertext = "" })), ground arith)

aad-ciphertext :
    (p : Primitives) (env : SecureEnvelope) (c : String)
    → aad p (record env { ciphertext = c }) ≡ aad p env
unfolding aad
aad-ciphertext p env c = refl

length-next_send : (st : State) → length (next_send st).2 ≡ 12
unfolding next_send big_endian
length-next_send st = ground arith

-- Where the cryptographic library is sound, a ready session with a send key of 32 bytes makes an
-- envelope, if its sequence number and the numbers of the route are 64-bit integers, which is opened by a peer that has the other end of the session and has not seen the sequence number: it
-- gets the payload back and marks the number.
pub decrypt-encrypt :
    (p : Primitives) (st peer : State) (message_id payload_type : String) (route : Route)
    (plaintext : Bytes)
    → IsSound p
    → st.ready ≡ true
    → peer.ready ≡ true
    → IsLinked st peer
    → length st.send_key ≡ 32
    → st.send_seq < 2 ^ 63
    → is_int64 route.ttl_seconds ≡ true
    → is_int64 route.priority ≡ true
    → Map.get peer.seen_seq st.send_seq ≡ none
    → (env : SecureEnvelope) × (encrypt p st message_id payload_type route plaintext
        ≡ ((next_send st).0, ok env))
      × (decrypt p peer env
          ≡ (record peer { seen_seq = Map.put peer.seen_seq st.send_seq tt }, ok plaintext))
unfolding encrypt decrypt seal open_sealed decode_base64_url base64url mark_received
decrypt-encrypt p st peer message_id payload_type route plaintext s r r2 linked size seq ttl pri
      unseen =
    let nonce = (next_send st).2 in
    let blank = header p st message_id payload_type route nonce in
    let (additional, made) = aad-total p blank seq ttl pri in
    let ct = p.aead_seal st.send_key nonce plaintext additional in
    let env = record blank { ciphertext = p.encode_base64url ct } in
    let plain = sym (aad-ciphertext p blank (p.encode_base64url ct)) in
    let (session, domain, sender, recipient, key) = linked in
    (
      env,
      ground (arith, r, made, size, length-next_send st),
      ground (
        arith,
        r2,
        unseen,
        size,
        length-next_send st,
        made,
        plain,
        s.decode-encode nonce,
        s.decode-encode ct,
        s.open-seal st.send_key nonce plaintext additional,
        eq_refl type_secure_envelope,
        session,
        domain,
        sender,
        recipient,
        key,
        eq_refl st.session_id,
        eq_refl st.domain_id,
        eq_refl st.local_device_id,
        eq_refl st.peer_device_id,
      ),
    )

-- An envelope was received under this sequence number.
abbrev Marks : State → ℕ → Type 0
Marks st seq = Map.get st.seen_seq seq ≡ some tt

decrypt-Marks :
    (p : Primitives) (st : State) (env : SecureEnvelope) (seq : ℕ)
    → Marks st seq
    → Marks (decrypt p st env).0 seq
unfolding decrypt mark_received
decrypt-Marks p st env seq h = ground (arith, h, get-put st.seen_seq env.sequence seq tt)

bound-Marks :
    (p : Primitives) (st : State) (env : SecureEnvelope)
    → st.ready ≡ true
    → bound st env ≡ ok tt
    → Marks (decrypt p st env).0 env.sequence
unfolding decrypt mark_received
bound-Marks p st env r b = elim (Option-cases (Map.get st.seen_seq env.sequence)) [
  | inl none_yet ↦ ground (arith, r, b, none_yet, get-put st.seen_seq env.sequence env.sequence tt)
  | inr (u, held) ↦ decrypt-Marks p st env env.sequence held
]

-- The session after a sequence of envelopes.
abbrev pub receive : Primitives → State → List SecureEnvelope → State
receive p st [] = st
receive p st (env ∷ envs) = receive p (decrypt p st env).0 envs

receive-Marks :
    (p : Primitives) (st : State) (envs : List SecureEnvelope) (seq : ℕ)
    → Marks st seq
    → Marks (receive p st envs) seq
receive-Marks p st [] seq h = h
receive-Marks p st (env ∷ envs) seq h =
    receive-Marks p (decrypt p st env).0 envs seq (decrypt-Marks p st env seq h)

decrypt-refused :
    (p : Primitives) (st : State) (env : SecureEnvelope)
    → Marks st env.sequence
    → (e : Error) × (decrypt p st env ≡ (st, err e))
unfolding decrypt mark_received
decrypt-refused p st env h = elim (Bool-cases st.ready) [
  | inl r ↦ elim (Result-cases (bound st env)) [
    | inl (u, b) ↦ (new replay_detected "duplicate envelope sequence", ground (arith, r, b, h))
    | inr (e, b) ↦ (e, ground (arith, r, b))
  ]
  | inr n ↦ (new session_invalid "session is not ready for payload delivery", ground (arith, n))
]

-- Once a ready session has been given an envelope that names it and its two devices, whether that
-- opened or not, and any others after it, every envelope with the same sequence number is answered
-- with an error and changes nothing.
pub decrypt-once :
    (p : Primitives) (st : State) (env again : SecureEnvelope) (between : List SecureEnvelope)
    → st.ready ≡ true
    → bound st env ≡ ok tt
    → again.sequence ≡ env.sequence
    → (e : Error) × (decrypt p (receive p st (env ∷ between)) again
        ≡ (receive p st (env ∷ between), err e))
decrypt-once p st env again between r b same =
    decrypt-refused p (receive p st (env ∷ between)) again (
      rw (same)
        (receive-Marks p (decrypt p st env).0 between env.sequence (bound-Marks p st env r b)))
