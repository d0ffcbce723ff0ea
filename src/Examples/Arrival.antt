-- ===== src/Examples/Arrival.antt =====
-- An envelope on its way through the small relay.
use mathlib.Core.List.{Mem}
use iscp.Prelude.{
  ℕ, ◌≡◌, refl, String, true, false, none, some, List, [], ◌∷◌, to_bytes, trim_space, trim_left,
  trim_right, is_blank, bytes_eq, string_eq, ◌==◌, arith,
}
use iscp.Prelude.Int.{pos}
use iscp.Prelude.Map
use iscp.Prelude.Map.{get-put}
use iscp.Effect.{next, ◌>>=◌, ◌>>◌, read, on_error, finish, update, stop_if, pure_call}
use iscp.Canonical.Parser.{null_token, parse_tokens}
use iscp.Server.Queue.{Message, stamp, split_for}
use iscp.Relay.{
  Library, Request, State, Credential, new_state, write_json, receipt, EnvelopeMeta, in_repo,
  canonical_raw,
}
use iscp.Relay.Requests.{bearer_token, after_bearer}
use iscp.Relay.Credentials.{authenticate_access, find_access, retire_expired, hash_of}
use iscp.Relay.Access.{verify_access_proof}
use iscp.Relay.Delivery.{
  envelopes, receipt_for, queued_message, dequeue_messages, validate_envelope_meta,
}
use iscp.Relay.Delivery.Arrival.{dequeue_messages-envelopes}
use iscp.Examples.Relay.{library, config, post, at_time, refresh_credential}

abbrev to_lamp : EnvelopeMeta
to_lamp = record {
  domain_id = "home";
  message_id = "m";
  sender_device_id = "phone";
  recipient_device_id = "lamp";
  ttl_seconds = pos 60;
  priority = pos 3;
}

abbrev mail_library : Library
mail_library = record library {
  decode_meta = λ body. some to_lamp;
  tokens = λ body. null_token ∷ [];
}

abbrev phone_credential : Credential
phone_credential = record refresh_credential { device_id = "phone" }

abbrev online : State
online = record (new_state none) { access = Map.put Map.empty (to_bytes "t") phone_credential }

abbrev send : Request
send = record post { path = "/v2/relay/envelopes"; authorization = "Bearer t"; body = 7 ∷ [] }

held : Map.get online.access (to_bytes "t") ≡ some phone_credential
unfolding to_bytes new_state
held = get-put Map.empty (to_bytes "t") (to_bytes "t") phone_credential

accepted :
    let (s', reply) = envelopes mail_library config send (at_time 5 "n") online in
    (reply ≡ next (write_json 202 (receipt (receipt_for mail_library config to_lamp 5))))
    × (s'.queue.messages ≡ stamp 5 (queued_message to_lamp (7 ∷ []) 5) ∷ [])
unfolding envelopes authenticate_access bearer_token after_bearer trim_space trim_left trim_right
    ◌>>=◌ ◌>>◌ read on_error finish stop_if pure_call update new_state iscp.Server.Httpx.decode_json
    find_access retire_expired hash_of verify_access_proof validate_envelope_meta is_blank
    canonical_raw parse_tokens iscp.Relay.is_production iscp.Config.default_gate
    iscp.Canonical.Raw.marshal_tokens iscp.Server.Queue.enqueue iscp.Server.Queue.new
    iscp.Prelude.Sort.sum_by
accepted = rw held (refl, refl)

dequeue_messages-envelopes_example :
    let s' = (envelopes mail_library config send (at_time 5 "n") online).0 in
    (out : List Message) × ((dequeue_messages mail_library "home" "lamp" 9 (pos 100) s').1
      ≡ next out)
    × Mem (stamp 5 (queued_message to_lamp (7 ∷ []) 5)) out
unfolding iscp.Server.Httpx.decode_json new_state iscp.Relay.Delivery.expires_at_of stamp
    queued_message split_for
dequeue_messages-envelopes_example =
    dequeue_messages-envelopes mail_library config (at_time 5 "n") send (7 ∷ []) to_lamp online
      (write_json 202 (receipt (receipt_for mail_library config to_lamp 5))) 9 100 refl refl refl
      accepted.0 (omega arith) (rw accepted.1 (omega arith))
