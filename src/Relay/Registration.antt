-- ===== src/Relay/Registration.antt =====
-- services/relay-reference/internal/relay/server.go: how a device gets its first credentials
-- (bindSelf, registerWithTicket, registerWithSignedTicket, consumeTicket, bindIdentity,
-- persistDevice).
pub mod Refusal
pub mod Rows
pub mod Gatekeeping
use iscp.Prelude.{
  ℕ, ◌+◌, String, Bool, true, false, not, ◌&&◌, ◌||◌, Option, none, some, List, [], ◌∷◌,
  if◌then◌else◌, string_eq, bytes_eq, ◌==◌, Bytes,
}
use iscp.Prelude.Int.{ℤ, pos, leb_ℤ, eqb_ℤ}
use iscp.Prelude.Map
use iscp.Prelude.Map.{Map}
use iscp.Errors.{Error, Result, ok, err, new, access_invalid, provision_invalid, config_invalid}
use iscp.Effect.{
  Effect, Outcome, stop, next, ◌>>=◌, ◌>>◌, pure_call, finish, stop_if, read, update, on_error,
}
use iscp.Identity.{DeviceIdentity, identity_thumbprint}
use iscp.Provisioning.{PairingTicketV3, verify_ticket_v3, bind_grant_roles}
use iscp.Server.Httpx.{decode_json}
use iscp.Repository.Relay.{RelayDevice, insert_device}
use iscp.Relay.{
  Config, State, Credential, TicketState, Request, Moment, Response, Library, Handler,
  RegisterTicketRequest, BindSelfRequest, status_only, write_json, write_error, seconds,
  is_production, in_repo, is_some, credentials,
}
use iscp.Relay.Requests.{admin_authorized}
use iscp.Relay.Access.{check_proof}
use iscp.Relay.Credentials.{issue_credentials, required}

abbrev pub or_unused : Option TicketState → TicketState
or_unused none = record { max_uses = pos 0; uses = 0 }
or_unused (some t) = t

-- The entry that the call works on: the first call that names a limit sets it.
unfoldable pub ticket_entry : ℤ → Option TicketState → TicketState
ticket_entry max_uses found =
    let t = or_unused found in
    if eqb_ℤ t.max_uses (pos 0) then record t { max_uses = max_uses } else t

abbrev pub is_used_up : TicketState → Bool
is_used_up t = leb_ℤ t.max_uses (pos 0) || leb_ℤ t.max_uses (pos t.uses)

-- consumeTicket on the map of the tickets
unfoldable pub consume_in :
    String → ℤ → Map String TicketState → Map String TicketState × Outcome Error (Unit {0})
unfolding ticket_entry
consume_in ticket_id max_uses tickets =
    let t = ticket_entry max_uses (Map.get tickets ticket_id) in
    if is_used_up t
    then (tickets, stop (new provision_invalid "pairing ticket already consumed"))
    else (Map.put tickets ticket_id (record t { uses = t.uses + 1 }), next tt)

unfoldable pub consume_ticket : String → ℤ → Effect State Error (Unit {0})
unfolding consume_in
consume_ticket ticket_id max_uses s =
    let (tickets, outcome) = consume_in ticket_id max_uses s.tickets in
    (record s { tickets = tickets }, outcome)

unfoldable pub hold_device : DeviceIdentity → State → State
hold_device id s = record s { devices = Map.put s.devices id.device_id id }

module _ (lib : Library) (cfg : Config) where
  -- Writing an identity as JSON does not fail, so the thumbprint and the UUID are what may.
  unfoldable pub persist_device : DeviceIdentity → String → Moment → Effect State Error (Unit {0})
  persist_device id status m = do
    known ← read (λ s. is_some s.repo)
    (if not known then finish tt else (do
      thumbprint ← pure_call (identity_thumbprint lib.primitives id)
      uuid ← pure_call (m.uuid "device")
      done ← in_repo (
          insert_device (record {
            id = uuid;
            domain_id = id.domain_id;
            device_id = id.device_id;
            identity_raw = id;
            public_key_thumbprint = thumbprint;
            status = status;
            created_at = m.now;
            updated_at = m.now;
          }))
      finish tt))

  unfoldable pub bind_identity : DeviceIdentity → Moment → Handler
  unfolding persist_device hold_device
  bind_identity id m = do
    on_error (write_error 500) (persist_device id "active" m)
    issued ← on_error (write_error 500) (issue_credentials lib cfg id.domain_id id.device_id m)
    update (hold_device id)
    finish (write_json 200 (credentials issued.0 issued.1))

  unfoldable pub bind_self : Request → Moment → Handler
  unfolding bind_identity
  bind_self r m = do
    stop_if (not (r.method == "POST")) (status_only 405)
    req ← on_error (write_error 400) (pure_call (decode_json lib.decode_bind_self r.body))
    stop_if (is_production cfg && not (admin_authorized cfg r)) (
        write_error 401 (new access_invalid "production bind-self requires an actor authorization"))
    on_error (write_error 401) (
        check_proof lib cfg req.identity req.proof cfg.relay_id req.proof.challenge (seconds 300) m)
    bind_identity req.identity m

  unfoldable pub register_with_signed_ticket :
      PairingTicketV3 → RegisterTicketRequest → Moment → Handler
  unfolding bind_identity consume_ticket
  register_with_signed_ticket ticket req m = do
    issuer ←
        required cfg.ticket_issuer
          (write_error 503 (new config_invalid "relay has no configured ticket issuer"))
    on_error (write_error 403) (pure_call (verify_ticket_v3 lib.primitives ticket issuer m.now))
    stop_if (not (ticket.domain_id == cfg.domain_id) || not (ticket.relay_id == cfg.relay_id))
        (write_error 403 (new provision_invalid "pairing ticket is not bound to this relay"))
    stop_if (not (req.proof.challenge == ticket.ticket_id))
        (write_error 401 (new provision_invalid "proof challenge must be the ticket id"))
    on_error (write_error 401)
        (check_proof lib cfg req.identity req.proof cfg.relay_id ticket.ticket_id (seconds 300) m)
    roles ←
        on_error (write_error 403) (pure_call (bind_grant_roles lib.primitives ticket req.identity))
    on_error (write_error 409) (consume_ticket ticket.ticket_id ticket.max_uses)
    bind_identity req.identity m

  unfoldable pub register_with_legacy_ticket : RegisterTicketRequest → Moment → Handler
  unfolding bind_identity consume_ticket
  register_with_legacy_ticket req m = do
    stop_if (is_production cfg) (
        write_error 400
          (new provision_invalid "production registration requires a signed pairing ticket"))
    on_error (write_error 401) (
        check_proof lib cfg req.identity req.proof cfg.relay_id req.proof.challenge (seconds 300) m)
    on_error (write_error 409) (consume_ticket req.ticket_id req.max_uses)
    bind_identity req.identity m

  unfoldable pub register_by : Option PairingTicketV3 → RegisterTicketRequest → Moment → Handler
  unfolding register_with_signed_ticket register_with_legacy_ticket
  register_by none req m = register_with_legacy_ticket req m
  register_by (some ticket) req m = register_with_signed_ticket ticket req m

  unfoldable pub register_with_ticket : Request → Moment → Handler
  unfolding register_by
  register_with_ticket r m = do
    stop_if (not (r.method == "POST")) (status_only 405)
    req ← on_error (write_error 400) (pure_call (decode_json lib.decode_register_ticket r.body))
    register_by req.ticket req m
