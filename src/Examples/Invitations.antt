-- ===== src/Examples/Invitations.antt =====
-- Proofs of possession and tickets at the relay, and the repository's rows.
use iscp.Prelude.{
  ℕ, ◌+◌, ◌≡◌, ◌≢◌, refl, String, true, false, none, some, [], ◌∷◌, All, is_blank, string_eq, ◌∙◌,
  arith, sym, ap,
}
use text.Mathlib.TextEquality.{eq_iff}
use iscp.Prelude.Int.{ℤ, pos}
use iscp.Prelude.Map
use iscp.Prelude.Map.{get-put, get-empty}
use iscp.Errors.{Error, ok}
use iscp.Effect.{
  stop, next, ◌>>=◌, ◌>>◌, read, on_error, finish, update, stop_if, pure_call, bind-next, then-next,
  stop_if-next,
}
use iscp.Config.{default_gate}
use iscp.Crypto.{thumbprint, base64url, decode_base64_url}
use iscp.Identity.{
  DeviceIdentity, DeviceProof, new_device, create_proof, verify_proof, proof_input,
  identity_thumbprint,
}
use iscp.Canonical.{signature_input, in_range, has_distinct_keys}
use iscp.Identity.Proofs.{verify-create_proof}
use iscp.Server.Replay.{use_key, new_cache}
use iscp.Server.Replay.Uses.{use_key-exact}
use iscp.Relay.{
  Config, State, Response, Library, new_state, RegisterTicketRequest, TicketState, write_json,
  write_error, credentials, is_production,
}
use iscp.Server.Httpx.{decode_json}
use iscp.Relay.Access.{check_proof, nonce_key}
use iscp.Relay.Registration.{
  consume_ticket, consume_in, ticket_entry, bind_identity, register_with_signed_ticket,
  persist_device, register_by, register_with_ticket,
}
use iscp.Relay.Registration.Gatekeeping.{IsInvited, register_with_ticket-IsInvited}
use iscp.Relay.Credentials.{required, issue_credentials, store_credentials, access_for, refresh_for}
use iscp.Provisioning.{GrantRoleBindings, bind_grant_roles}
use iscp.Provisioning.Tickets.{bind_grant_roles_iff, verify_ticket_v3_iff}
use iscp.Repository.{has_row}
use iscp.Repository.Relay.{NonceRow, MessageRow, Tables}
use iscp.Repository.Nonces.{same_nonce, delete_expired, insert_nonce}
use iscp.Repository.Nonces.Uses.{use_row, use_rows, use_row-once}
use iscp.Repository.Messages.{claim}
use iscp.Repository.Messages.Leases.{claim-lease}
use iscp.Relay.Runs.{request, run}
use iscp.Relay.Runs.Replayed.{check_proof-once, check_proof-accepts}
use iscp.Examples.Toy.{toy, toy-IsSound, identity_of, zeros}
use iscp.Examples.Signed.{ticket, ticket-IsTicketOf}
use iscp.Examples.Relay.{library, library_with, config, post, at_time, planner}

abbrev pub toy_library : Library
toy_library = record library { primitives = toy }

abbrev pub lamp : DeviceIdentity
lamp = (new_device toy [] "home" "lamp" 1).identity

-- The lamp's proof for the ticket "t".
pub lamp_proof :
    (proof : DeviceProof) × (create_proof toy (new_device toy [] "home" "lamp" 1) "relay" "t" "n" 10
      ≡ ok proof)
    × (verify_proof toy
          (new_device toy [] "home" "lamp" 1).identity
          proof
          "relay"
          "t"
          15
          300000000000
        ≡ ok tt)
lamp_proof =
    verify-create_proof toy [] "home" "lamp" "relay" "t" "n" 1 10 15 300000000000 toy-IsSound
      (omega arith) (omega arith)

ok-eq : {A : Type 0} (a b : A) → ok a ≡ ok b → a ≡ b
ok-eq a b h = cc

pub lamp_proof_parts :
    (lamp_proof.0.nonce ≡ "n") × (lamp_proof.0.issued_at ≡ 10) × (lamp_proof.0.challenge ≡ "t")
unfolding create_proof proof_input signature_input in_range has_distinct_keys new_device
lamp_proof_parts =
    let same = ok-eq _ _ lamp_proof.1 in
    (
      sym (ap (λ x. x.nonce) same),
      sym (ap (λ x. x.issued_at) same),
      sym (ap (λ x. x.challenge) same),
    )

pub lamp_unused :
    (use_key (nonce_key lamp_proof.0) (lamp_proof.0.issued_at + 300000000000) 15 new_cache).1 ≡ true
unfolding new_cache
lamp_unused =
    rw
      (
        (use_key-exact (nonce_key lamp_proof.0) (lamp_proof.0.issued_at + 300000000000) 15
            new_cache).0,
        get-empty {K = String} {V = ℕ} (nonce_key lamp_proof.0),
      )
      refl

lamp_accepted :
    check_proof toy_library config lamp lamp_proof.0 "relay" "t" 300000000000
      (at_time 15 "n")
      (new_state none)
    ≡ (
      record (new_state none) {
        replay =
            (use_key
              (nonce_key lamp_proof.0)
              (lamp_proof.0.issued_at + 300000000000)
              15
              new_cache).0;
      },
      next tt,
    )
unfolding new_state is_blank
lamp_accepted =
    check_proof-accepts toy_library config lamp lamp_proof.0 "relay" "t" 300000000000
      (at_time 15 "n") (new_state none) refl (rw lamp_proof_parts.0 refl) lamp_proof.2 lamp_unused

check_proof-once_example :
    (failure : Error) × ((check_proof toy_library config lamp lamp_proof.0 "relay" "t" 300000000000
        (at_time 17 "p")
        (run toy_library config
          (request post (at_time 16 "o") ∷ [])
          (check_proof toy_library config lamp lamp_proof.0 "relay" "t" 300000000000
            (at_time 15 "n")
            (new_state none)).0)).1
      ≡ stop failure)
unfolding new_state
check_proof-once_example =
    check_proof-once toy_library config lamp lamp lamp_proof.0 "relay" "relay" "t" "t" 300000000000
      300000000000 (at_time 15 "n") (at_time 17 "p") (new_state none)
      (request post (at_time 16 "o") ∷ []) refl (rw lamp_accepted refl)
      (rw lamp_proof_parts.1 (omega arith), tt) (rw lamp_proof_parts.1 (omega arith))

abbrev mark : String → ℕ → NonceRow
mark nonce expires_at = record {
  domain_id = "home";
  device_id = "lamp";
  nonce = nonce;
  expires_at = expires_at;
}

first_mark : (use_row 10 (mark "n" 50) (mark "n" 9 ∷ [])).1 ≡ true
unfolding use_row insert_nonce delete_expired same_nonce has_row
first_mark = refl

use_row-once_example :
    (use_row 40
      (record (mark "n" 50) { expires_at = 90 })
      (use_rows ((30, mark "m" 60) ∷ []) (use_row 10 (mark "n" 50) (mark "n" 9 ∷ [])).0)).1
    ≡ false
unfolding use_row
use_row-once_example =
    use_row-once (mark "n" 50) 10 40 90 (mark "n" 9 ∷ []) ((30, mark "m" 60) ∷ []) first_mark
      (omega arith, tt) (omega arith)

stored : String → ℤ → MessageRow
stored id priority = record {
  message = record {
    id = id;
    domain_id = "home";
    message_id = id;
    sender_device_id = "phone";
    recipient_device_id = "lamp";
    session_id = "";
    payload_type = "";
    route_metadata = [];
    envelope_raw = [];
    envelope_canonical = [];
    priority = priority;
    queued_at = 1;
    expires_at = 90;
  };
  delivered_at = none;
  claimed_until = none;
  attempts = 0;
}

abbrev tables : Tables
tables = record {
  devices = [];
  access_tokens = [];
  refresh_tokens = [];
  messages = stored "a" (pos 1) ∷ stored "b" (pos 2) ∷ [];
  receipts = [];
  nonces = [];
}

claim-lease_example :
    let (t', first) = claim planner "home" "lamp" 5 65 (pos 1) tables in
    All
      (λ again. All (λ msg. msg.id ≢ again.id) first)
      (claim planner "home" "lamp" 6 66 (pos 9) t').1
claim-lease_example =
    claim-lease planner "home" "lamp" "home" "lamp" 5 65 6 66 (pos 1) (pos 9) tables (omega arith)

abbrev pub registration : RegisterTicketRequest
registration = record {
  ticket_id = "";
  max_uses = pos 0;
  ticket = some ticket;
  identity = lamp;
  proof = lamp_proof.0;
}

abbrev pub production : Config
production = record config {
  profile_gate = default_gate "production";
  admin_token = "secret";
  allowed_origins = "https://relay" ∷ [];
  ticket_issuer = some (identity_of "root");
}

abbrev pub inviting : Library
inviting = record (library_with (some registration)) { primitives = toy }

pub invited_roles : (roles : GrantRoleBindings) × (bind_grant_roles toy ticket lamp ≡ ok roles)
unfolding new_device identity_thumbprint decode_base64_url base64url
invited_roles = (
  _,
  (bind_grant_roles_iff toy ticket lamp (record {
    subject_device_id = "lamp";
    confirmation_thumbprint = thumbprint toy "Ed25519" (zeros 32);
    audience = "phone";
    permissions = "text" ∷ [];
    relay_id = "relay";
  })).1
      (
        refl,
        λ e. cc ((eq_iff "lamp" "phone").1 e),
        rw (toy-IsSound.decode-encode (zeros 32)) refl,
        refl,
        refl,
        refl,
        refl,
      ),
)

abbrev pub welcomed : State
welcomed = record (new_state none) {
  replay =
      (use_key (nonce_key lamp_proof.0) (lamp_proof.0.issued_at + 300000000000) 15 new_cache).0;
}

abbrev consumed : State
consumed = record welcomed {
  tickets = Map.put Map.empty "t" (record { max_uses = pos 1; uses = 1 });
}

abbrev pub admitted : Response
admitted = write_json 200 (
    credentials (access_for inviting production "home" "lamp" (at_time 15 "n"))
      (refresh_for inviting production "home" "lamp" (at_time 15 "n")))

invited_accepted :
    check_proof inviting production lamp lamp_proof.0 "relay" "t" 300000000000
      (at_time 15 "n")
      (new_state none)
    ≡ (welcomed, next tt)
unfolding new_state is_blank
invited_accepted =
    check_proof-accepts inviting production lamp lamp_proof.0 "relay" "t" 300000000000
      (at_time 15 "n") (new_state none) refl (rw lamp_proof_parts.0 refl) lamp_proof.2 lamp_unused

ticket_consumed :
    on_error (write_error 409) (consume_ticket "t" (pos 1)) welcomed ≡ (consumed, next tt)
unfolding consume_ticket consume_in ticket_entry on_error new_state
ticket_consumed = rw (get-empty {K = String} {V = TicketState} "t") refl

bound : (bind_identity inviting production lamp (at_time 15 "n") consumed).1 ≡ next admitted
unfolding bind_identity new_device new_state persist_device issue_credentials store_credentials
    ◌>>=◌ ◌>>◌ read on_error finish update
bound = refl

registered :
    (register_with_signed_ticket inviting production ticket registration
      (at_time 15 "n")
      (new_state none)).1
    ≡ next admitted
unfolding register_with_signed_ticket required finish on_error pure_call
registered =
    ap (λ x. x.1)
      (bind-next _ _ (new_state none) (new_state none) (identity_of "root") refl
        ∙ then-next _ _ (new_state none) (new_state none) (
            rw ((verify_ticket_v3_iff toy ticket (identity_of "root") 15).1 ticket-IsTicketOf) refl)
        ∙ stop_if-next _ _ _ (new_state none) refl
        ∙ stop_if-next _ _ _ (new_state none) (rw lamp_proof_parts.2 refl)
        ∙ then-next _ _ (new_state none) welcomed (rw invited_accepted refl)
        ∙ bind-next _ _ welcomed welcomed invited_roles.0 (rw invited_roles.1 refl)
        ∙ then-next _ _ welcomed consumed ticket_consumed)
    ∙ bound

pub production_registered :
    (register_with_ticket inviting production post (at_time 15 "n") (new_state none)).1
    ≡ next admitted
unfolding register_with_ticket register_by ◌>>=◌ ◌>>◌ on_error stop_if pure_call decode_json
production_registered = registered

register_with_ticket-IsInvited_example :
    (req : RegisterTicketRequest) × (decode_json inviting.decode_register_ticket post.body ≡ ok req)
    × IsInvited inviting production (at_time 15 "n") (new_state none) req
unfolding is_production default_gate
register_with_ticket-IsInvited_example =
    register_with_ticket-IsInvited inviting production post (at_time 15 "n") (new_state none)
      admitted refl production_registered
