-- ===== src/Relay/Delivery.antt =====
-- services/relay-reference/internal/relay/server.go: envelopes in and out (envelopes,
-- validateEnvelopeMeta, dequeueMessages).

pub mod Bounds
pub mod Arrival
use iscp.Prelude.{
  ℕ, ◌+◌, ◌*◌, String, Bool, true, false, not, ◌&&◌, ◌||◌, Option, none, some, List, [], ◌∷◌, map,
  if◌then◌else◌, string_eq, ◌==◌, ltb, Bytes, is_blank, ◌+++◌, length,
}
use iscp.Prelude.Int.{ℤ, pos, pos_part, leb_ℤ, ltb_ℤ}
use iscp.Prelude.Map
use iscp.Errors.{
  Error, Result, ok, err, new, envelope_invalid, access_invalid, reject_if, ◌>>◌ as then_do,
}
use iscp.Crypto.{or_wrap}
use iscp.Effect.{
  Effect, Outcome, stop, next, ◌>>=◌, ◌>>◌, pure_call, finish, stop_if, read, update, on_error,
}
use iscp.Server.Httpx.{decode_json}
use iscp.Server.Queue
use iscp.Server.Queue.{Message, dequeue_for, enqueue}
use iscp.Repository.Relay.{RelayMessage}
use iscp.Repository.Messages.{store_message, store_receipt, claim_pending_messages_for}
use iscp.Relay.{
  Config, State, Credential, ConnectionState, Request, Moment, Response, Library, Handler,
  EnvelopeMeta, Receipt, status_only, write_json, write_error, seconds, in_repo, is_some, receipt,
  relay_max_queued_bytes, canonical_raw,
}
use iscp.Relay.Credentials.{authenticate_access}

unfoldable pub validate_envelope_meta : Config → EnvelopeMeta → Result (Unit {0})
validate_envelope_meta cfg e =
    then_do
      (then_do
        (then_do
          (reject_if (not (e.domain_id == cfg.domain_id))
            (new envelope_invalid "envelope domain does not match relay domain"))
          (reject_if
            (is_blank e.message_id || is_blank e.sender_device_id || is_blank e.recipient_device_id)
            (new envelope_invalid "envelope routing identifiers are required")))
        (reject_if (leb_ℤ e.ttl_seconds (pos 0) || ltb_ℤ (pos 86400) e.ttl_seconds)
          (new envelope_invalid "envelope ttl must be between 1 second and 24 hours")))
      (reject_if (ltb_ℤ e.priority (pos 0) || ltb_ℤ (pos 9) e.priority)
        (new envelope_invalid "envelope priority must be between 0 and 9"))

-- envelopeStringField: "" where there is no such text
abbrev or_empty : Option String → String
or_empty none = ""
or_empty (some s) = s

-- A time to live has passed validation, and is positive.
unfoldable pub expires_at_of : EnvelopeMeta → ℕ → ℕ
expires_at_of e now = now + seconds (pos_part e.ttl_seconds)

unfoldable pub queued_message : EnvelopeMeta → Bytes → ℕ → Message
unfolding expires_at_of
queued_message e raw now = record {
  domain_id = e.domain_id;
  message_id = e.message_id;
  sender_device_id = e.sender_device_id;
  recipient_device_id = e.recipient_device_id;
  envelope = raw;
  priority = e.priority;
  expires_at = expires_at_of e now;
  queued_at = 0;
}

abbrev pub enqueued : State → Queue.Queue × Bool → State × Outcome Response (Unit {0})
enqueued s (q, true) = (record s { queue = q }, next tt)
enqueued s (q, false) =
    (record s { queue = q }, stop (write_error 413 (new envelope_invalid "message too large")))

unfoldable pub enqueue_message : Message → ℕ → Effect State Response (Unit {0})
enqueue_message message now s = enqueued s (enqueue message now s.queue)

module _ (lib : Library) (cfg : Config) where
  unfoldable pub receipt_for : EnvelopeMeta → ℕ → Receipt
  receipt_for e now = record {
    receipt_id = "receipt-" +++ e.message_id;
    message_id = e.message_id;
    domain_id = e.domain_id;
    relay_id = cfg.relay_id;
    status = "queued";
    issued_at = now;
  }

  unfoldable pub stored_message : EnvelopeMeta → Bytes → Bytes → String → ℕ → RelayMessage
  unfolding expires_at_of
  stored_message e raw canon uuid now = record {
    id = uuid;
    domain_id = e.domain_id;
    message_id = e.message_id;
    sender_device_id = e.sender_device_id;
    recipient_device_id = e.recipient_device_id;
    session_id = or_empty (lib.string_field raw "session_id");
    payload_type = or_empty (lib.string_field raw "payload_type");
    route_metadata = lib.encode_route e.ttl_seconds e.priority;
    envelope_raw = raw;
    envelope_canonical = canon;
    priority = e.priority;
    queued_at = now;
    expires_at = expires_at_of e now;
  }

  -- The branch of envelopes that has a repository.
  unfoldable pub store_envelope :
      EnvelopeMeta → Bytes → Bytes → Moment → Effect State Response (Unit {0})
  unfolding stored_message receipt_for
  store_envelope e raw canon m = do
    stop_if (ltb_ℤ relay_max_queued_bytes (pos (length raw)))
        (write_error 413 (new envelope_invalid "message too large"))
    uuid ← on_error (write_error 500) (pure_call (m.uuid "message"))
    stored ←
        on_error (write_error 500) (in_repo (store_message (stored_message e raw canon uuid m.now)))
    let receipt_raw = lib.encode_receipt (receipt_for e m.now)
    receipt_canon ← on_error (write_error 500) (pure_call (canonical_raw lib receipt_raw))
    receipt_uuid ← on_error (write_error 500) (pure_call (m.uuid "receipt"))
    done ← on_error (write_error 500) (
        in_repo (
          store_receipt (record {
            id = receipt_uuid;
            domain_id = e.domain_id;
            receipt_id = "receipt-" +++ e.message_id;
            message_id = e.message_id;
            relay_id = cfg.relay_id;
            status = "queued";
            receipt_raw = receipt_raw;
            receipt_canonical = receipt_canon;
            issued_at = m.now;
          })))
    finish tt

  -- The end of envelopes, for a sender's credential and the decoded message.
  unfoldable pub accept_envelope : Credential → Bytes → EnvelopeMeta → Moment → Handler
  unfolding receipt_for queued_message store_envelope enqueue_message
  accept_envelope cred raw e m = do
    on_error (write_error 400) (pure_call (validate_envelope_meta cfg e))
    stop_if (not (cred.domain_id == e.domain_id) || not (cred.device_id == e.sender_device_id))
        (write_error 403 (new access_invalid "access credential does not match envelope sender"))
    canon ← on_error (write_error 400) (pure_call (canonical_raw lib raw))
    known ← read (λ s. is_some s.repo)
    (if known
        then store_envelope e raw canon m
        else enqueue_message (queued_message e raw m.now) m.now)
    finish (write_json 202 (receipt (receipt_for e m.now)))

  unfoldable pub envelopes : Request → Moment → Handler
  unfolding accept_envelope
  envelopes r m = do
    stop_if (not (r.method == "POST")) (status_only 405)
    cred ← on_error (write_error 401) (authenticate_access lib cfg r m)
    raw ← on_error (write_error 400) (pure_call (decode_json lib.decode_raw r.body))
    e ← on_error (write_error 400) (pure_call (decode_json lib.decode_meta raw))
    accept_envelope cred raw e m

-- A row as a message of the queue.
unfoldable pub message_of_row : RelayMessage → Message
message_of_row row = record {
  domain_id = row.domain_id;
  message_id = row.message_id;
  sender_device_id = row.sender_device_id;
  recipient_device_id = row.recipient_device_id;
  envelope = row.envelope_raw;
  priority = row.priority;
  expires_at = row.expires_at;
  queued_at = row.queued_at;
}

module _ (lib : Library) where
  unfoldable take_from_queue :
      String → String → ℕ → ℤ → State → State × Outcome Error (List Message)
  take_from_queue domain_id recipient now limit s =
      let (q, out) = dequeue_for lib.sorter domain_id recipient now limit s.queue in
      (record s { queue = q }, next out)

  unfoldable pub or_queue :
      String → String → ℕ → ℤ → Option (List RelayMessage) → Effect State Error (List Message)
  unfolding take_from_queue message_of_row
  or_queue domain_id recipient now limit none = take_from_queue domain_id recipient now limit
  or_queue domain_id recipient now limit (some rows) = finish (map message_of_row rows)

  unfoldable pub dequeue_messages : String → String → ℕ → ℤ → Effect State Error (List Message)
  unfolding or_queue
  dequeue_messages domain_id recipient now limit = do
    claimed ←
        in_repo
          (claim_pending_messages_for lib.planner domain_id recipient now (pos (seconds 60)) limit)
    or_queue domain_id recipient now limit claimed
