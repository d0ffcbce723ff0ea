-- ===== src/Examples/Admissions.antt =====
-- Registrations with a ticket, accepted and refused, and what the relay queues.
use mathlib.Core.Path.{ap, ◌∙◌}
use iscp.Prelude.{◌⊎◌, ◌≡◌, refl, none, some, String, List, [], ◌∷◌, ◌≤◌, string_eq, is_blank, All}
use iscp.Prelude.Int.{pos, ◌≤ℤ◌}
use iscp.Prelude.Sort.{sum_by}
use iscp.Prelude.Map
use iscp.Prelude.Map.{get-put}
use iscp.Errors.{new, provision_invalid}
use iscp.Effect.{
  stop, next, ◌>>=◌, ◌>>◌, on_error, finish, stop_if, pure_call, bind-next, then-next, then-stop,
  stop_if-next,
}
use iscp.Server.Httpx.{decode_json}
use iscp.Server.Queue.{used_bytes, size_of}
use iscp.Provisioning.Tickets.{verify_ticket_v3_iff}
use iscp.Canonical.Parser.{null_token}
use iscp.Relay.{State, TicketState, Request, Library, EnvelopeMeta, new_state, write_error}
use iscp.Relay.Credentials.{required}
use iscp.Relay.Access.{check_proof}
use iscp.Relay.Registration.{
  consume_ticket, consume_in, ticket_entry, or_unused, register_with_signed_ticket, register_by,
  register_with_ticket,
}
use iscp.Relay.Registration.Refusal.{holdings, register_with_ticket-refused}
use iscp.Relay.Registration.Rows.{rows, IsFailure}
use iscp.Relay.Runs.{Call, request, run}
use iscp.Relay.Runs.Replayed.{check_proof-accepts}
use iscp.Relay.Runs.Admissions.{Attempt, admit, admit-le-limit}
use iscp.Relay.Runs.Queued.{IsVetted, run-IsVetted}
use iscp.Examples.Toy.{toy, identity_of}
use iscp.Examples.Signed.{ticket, ticket-IsTicketOf}
use iscp.Examples.Relay.{config, post, at_time}
use iscp.Examples.Invitations.{
  toy_library, lamp, lamp_proof, lamp_proof_parts, lamp_unused, registration, production, inviting,
  invited_roles, welcomed, production_registered,
}

abbrev used_up : TicketState
used_up = record { max_uses = pos 1; uses = 1 }

-- A relay that knows a phone, and where the ticket is used up.
abbrev spent : State
spent = record (new_state none) {
  devices = Map.put Map.empty "phone" (identity_of "phone");
  tickets = Map.put Map.empty "t" used_up;
}

abbrev spent_marked : State
spent_marked = record spent { replay = welcomed.replay }

spent_accepted :
    check_proof inviting production lamp lamp_proof.0 "relay" "t" 300000000000
      (at_time 15 "n")
      spent
    ≡ (spent_marked, next tt)
unfolding new_state is_blank
spent_accepted =
    check_proof-accepts inviting production lamp lamp_proof.0 "relay" "t" 300000000000
      (at_time 15 "n") spent refl (rw lamp_proof_parts.0 refl) lamp_proof.2 lamp_unused

spent_refused : on_error (write_error 409) (consume_ticket "t" (pos 1)) spent_marked ≡ (
  spent_marked,
  stop (write_error 409 (new provision_invalid "pairing ticket already consumed")),
)
unfolding consume_ticket consume_in ticket_entry on_error new_state
spent_refused = rw (get-put {K = String} Map.empty "t" "t" used_up) refl

signed_refused :
    register_with_signed_ticket inviting production ticket registration (at_time 15 "n") spent ≡ (
      spent_marked,
      stop (write_error 409 (new provision_invalid "pairing ticket already consumed")),
    )
unfolding register_with_signed_ticket required finish on_error pure_call
signed_refused =
    bind-next _ _ spent spent (identity_of "root") refl
    ∙ then-next _ _ spent spent
        (rw ((verify_ticket_v3_iff toy ticket (identity_of "root") 15).1 ticket-IsTicketOf) refl)
    ∙ stop_if-next _ _ _ spent refl
    ∙ stop_if-next _ _ _ spent (rw lamp_proof_parts.2 refl)
    ∙ then-next _ _ spent spent_marked (rw spent_accepted refl)
    ∙ bind-next _ _ spent_marked spent_marked invited_roles.0 (rw invited_roles.1 refl)
    ∙ then-stop _ _ spent_marked spent_marked _ spent_refused

refused :
    (register_with_ticket inviting production post (at_time 15 "n") spent).1
    ≡ stop (write_error 409 (new provision_invalid "pairing ticket already consumed"))
unfolding register_with_ticket register_by ◌>>=◌ ◌>>◌ on_error stop_if pure_call decode_json
refused = ap (λ x. x.1) signed_refused

-- Refused with 409, after the proof of possession has been accepted.
register_with_ticket-refused_example :
    let answer = write_error 409 (new provision_invalid "pairing ticket already consumed") in
    let s' = (register_with_ticket inviting production post (at_time 15 "n") spent).0 in
    (holdings s' ≡ holdings spent) × ((rows s'.repo ≡ rows spent.repo) ⊎ IsFailure answer)
register_with_ticket-refused_example =
    register_with_ticket-refused inviting production post (at_time 15 "n") spent
      (write_error 409 (new provision_invalid "pairing ticket already consumed")) refused

abbrev first_attempt : Attempt
first_attempt = record { earlier = []; request = post; moment = at_time 15 "n" }

abbrev second_attempt : Attempt
second_attempt = record {
  earlier = request post (at_time 16 "o") ∷ [];
  request = post;
  moment = at_time 17 "p";
}

-- The first attempt is accepted, and counts.
first_admitted : (admit inviting production "t" (first_attempt ∷ []) (new_state none)).1 ≡ 1
unfolding admit run decode_json
first_admitted = rw production_registered refl

admit-le-limit_example :
    let (s, count) =
      admit inviting production "t" (first_attempt ∷ second_attempt ∷ []) (new_state none) in
    pos count ≤ℤ (or_unused (Map.get s.tickets "t")).max_uses
admit-le-limit_example =
    admit-le-limit inviting production none "t" (first_attempt ∷ second_attempt ∷ [])

abbrev to_phone : EnvelopeMeta
to_phone = record {
  domain_id = "home";
  message_id = "m";
  sender_device_id = "lamp";
  recipient_device_id = "phone";
  ttl_seconds = pos 60;
  priority = pos 3;
}

-- It reads every body as the lamp's, and every JSON text as null.
abbrev mailing : Library
mailing = record toy_library {
  decode_bind_self = λ body. some (record { identity = lamp; proof = lamp_proof.0 });
  decode_meta = λ body. some to_phone;
  tokens = λ body. null_token ∷ [];
}

abbrev bind : Request
bind = record post { path = "/v2/relay/devices/bind-self" }

abbrev send : Request
send = record post { path = "/v2/relay/envelopes"; authorization = "Bearer n"; body = 7 ∷ [] }

-- The lamp binds itself, and sends an envelope with the credential that it got.
abbrev mail : List Call
mail = request bind (at_time 15 "n") ∷ request send (at_time 16 "o") ∷ []

run-IsVetted_example :
    let q = (run mailing config mail (new_state none)).queue in
    All (IsVetted config) q.messages
    × (used_bytes q ≡ sum_by size_of q.messages)
    × (used_bytes q ≤ 1048576)
run-IsVetted_example = run-IsVetted mailing config none mail
