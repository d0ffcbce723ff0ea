-- ===== src/Relay/Stability/Handlers.antt =====
-- services/relay-reference/internal/relay/server.go: what registration, delivery and the
-- administrator's requests keep, and what the handler of all requests keeps.
use iscp.Prelude.{
  ◌≡◌, ℕ, suc, zero, ◌+◌, String, Bool, true, false, Option, none, some, List, [], ◌∷◌, Bytes,
  string_eq,
}
use iscp.Prelude.Int.{ℤ}
use iscp.Effect.{update}
use iscp.Effect.Keeps.{
  Keeps-checked, Keeps, keeps_rules, Keeps-update, Keeps-deferred, Keeps-stop_with, Keeps-finish,
  Keeps-bind, Keeps-then, Keeps-attempt,
}
use iscp.Identity.{DeviceIdentity}
use iscp.Provisioning.{PairingTicketV3}
use iscp.Server.Queue.{Message}
use iscp.Repository.Relay.{RelayMessage}
use iscp.Relay.{
  Credential, Config, State, Request, Moment, Response, Library, RegisterTicketRequest,
  EnvelopeMeta,
}
use iscp.Relay.Requests.{require_admin}
use iscp.Relay.Registration.{
  consume_ticket, hold_device, persist_device, bind_identity, bind_self,
  register_with_signed_ticket, register_with_legacy_ticket, register_by, register_with_ticket,
}
use iscp.Relay.Delivery.{
  validate_envelope_meta, queued_message, enqueue_message, enqueued, store_envelope,
  accept_envelope, envelopes, or_queue, dequeue_messages,
}
use iscp.Relay.Connect.{
  Peer, Frame, find_row, or_close, deliver, drain, welcome, connect, record_connection,
  close_connection,
}
use iscp.Relay.Admin.{
  health, admin_devices, admin_connections, or_snapshot, admin_messages, charge_client, route,
  handler, connect_handler,
}
use iscp.Errors.{ok}
use iscp.Relay.Stability.{
  IsStable, Keeps-in_repo, Keeps-check_proof, Keeps-issue_credentials, Keeps-required,
  Keeps-authenticate_access, Keeps-refresh_access, Keeps-revoke_access,
}

module _ {lib : Library} {cfg : Config} {m : Moment} {P : State → Type 0}
    (stable : IsStable lib cfg m P) where
  Keeps-persist_device :
      (id : DeviceIdentity) (status : String) → Keeps P (persist_device lib cfg id status m)
  unfolding persist_device
  Keeps-persist_device id status = search (keeps_rules, Keeps-in_repo stable.quiet) depth 30

  Keeps-hold_device : (id : DeviceIdentity) → Keeps P (update {E = Response} (hold_device id))
  Keeps-hold_device id = Keeps-update (hold_device id) (λ s p. stable.held s id p)

  pub Keeps-bind_identity : (id : DeviceIdentity) → Keeps P (bind_identity lib cfg id m)
  unfolding bind_identity
  Keeps-bind_identity id =
      search (keeps_rules, Keeps-persist_device, Keeps-issue_credentials stable, Keeps-hold_device)
        depth 30

  pub Keeps-bind_self : (r : Request) → Keeps P (bind_self lib cfg r m)
  unfolding bind_self
  Keeps-bind_self r =
      search (keeps_rules, Keeps-check_proof stable.quiet, Keeps-bind_identity) depth 30

  Keeps-consume_ticket :
      (ticket_id : String) (max_uses : ℤ) → Keeps P (consume_ticket ticket_id max_uses)
  unfolding consume_ticket
  Keeps-consume_ticket ticket_id max_uses = record {
    after = λ s p. stable.consumed s ticket_id max_uses p;
  }

  Keeps-register_with_signed_ticket :
      (ticket : PairingTicketV3) (req : RegisterTicketRequest)
      → Keeps P (register_with_signed_ticket lib cfg ticket req m)
  unfolding register_with_signed_ticket
  Keeps-register_with_signed_ticket ticket req =
      search
        (
          keeps_rules,
          Keeps-required stable,
          Keeps-check_proof stable.quiet,
          Keeps-consume_ticket,
          Keeps-bind_identity,
        )
        depth 30

  Keeps-register_with_legacy_ticket :
      (req : RegisterTicketRequest) → Keeps P (register_with_legacy_ticket lib cfg req m)
  unfolding register_with_legacy_ticket
  Keeps-register_with_legacy_ticket req =
      search
        (keeps_rules, Keeps-check_proof stable.quiet, Keeps-consume_ticket, Keeps-bind_identity)
        depth 30

  Keeps-register_by :
      (ticket : Option PairingTicketV3) (req : RegisterTicketRequest)
      → Keeps P (register_by lib cfg ticket req m)
  unfolding register_by
  Keeps-register_by none req = Keeps-register_with_legacy_ticket req
  Keeps-register_by (some ticket) req = Keeps-register_with_signed_ticket ticket req

  pub Keeps-register_with_ticket : (r : Request) → Keeps P (register_with_ticket lib cfg r m)
  unfolding register_with_ticket
  Keeps-register_with_ticket r = search (keeps_rules, Keeps-register_by) depth 30

  Keeps-store_envelope :
      (e : EnvelopeMeta) (raw canon : Bytes) → Keeps P (store_envelope lib cfg e raw canon m)
  unfolding store_envelope
  Keeps-store_envelope e raw canon = search (keeps_rules, Keeps-in_repo stable.quiet) depth 40

  enqueued-kept :
      (s : State) (r : iscp.Server.Queue.Queue × Bool)
      → P (record s { queue = r.0 })
      → P (enqueued s r).0
  enqueued-kept s (q, true) p = p
  enqueued-kept s (q, false) p = p

  Keeps-enqueue_message :
      (raw : Bytes) (e : EnvelopeMeta)
      → validate_envelope_meta cfg e ≡ ok tt
      → Keeps P (enqueue_message (queued_message e raw m.now) m.now)
  unfolding enqueue_message
  Keeps-enqueue_message raw e valid = record {
    after = λ s p. enqueued-kept s _ (stable.enqueued s raw e valid p);
  }

  Keeps-accept_envelope :
      (cred : Credential) (raw : Bytes) (e : EnvelopeMeta)
      → Keeps P (accept_envelope lib cfg cred raw e m)
  unfolding accept_envelope
  Keeps-accept_envelope cred raw e =
      Keeps-checked _ _ _
        (λ valid. search (keeps_rules, Keeps-store_envelope, Keeps-enqueue_message) depth 40)

  pub Keeps-envelopes : (r : Request) → Keeps P (envelopes lib cfg r m)
  unfolding envelopes
  Keeps-envelopes r =
      search (keeps_rules, Keeps-authenticate_access stable, Keeps-accept_envelope) depth 40

  Keeps-or_queue :
      (domain_id recipient : String) (limit : ℤ) (rows : Option (List RelayMessage))
      → Keeps P (or_queue lib domain_id recipient m.now limit rows)
  unfolding or_queue
  Keeps-or_queue domain_id recipient limit none = record {
    after = λ s p. stable.dequeued s domain_id recipient limit p;
  }
  Keeps-or_queue domain_id recipient limit (some rows) = Keeps-finish _

  Keeps-dequeue_messages :
      (domain_id recipient : String) (limit : ℤ)
      → Keeps P (dequeue_messages lib domain_id recipient m.now limit)
  unfolding dequeue_messages
  Keeps-dequeue_messages domain_id recipient limit =
      search (keeps_rules, Keeps-in_repo stable.quiet, Keeps-or_queue)

  Keeps-deliver :
      (delivered receives : ℕ) (messages : List Message)
      → Keeps P (deliver m.now delivered receives messages)
  unfolding deliver
  Keeps-deliver delivered receives [] = Keeps-finish _
  Keeps-deliver delivered zero (msg ∷ msgs) = Keeps-finish _
  Keeps-deliver delivered (suc receives) (msg ∷ msgs) =
      Keeps-bind _ _ (Keeps-attempt _ (Keeps-in_repo stable.quiet _)) (λ marked.
        Keeps-bind _ _ (Keeps-deliver (delivered + 1) receives msgs) (λ rest. Keeps-finish _))

  Keeps-drain : (id : DeviceIdentity) (peer : Peer) → Keeps P (drain lib cfg id peer m)
  unfolding drain
  Keeps-drain id peer = search (keeps_rules, Keeps-dequeue_messages, Keeps-deliver) depth 30

  Keeps-welcome : (id : DeviceIdentity) (peer : Peer) → Keeps P (welcome lib cfg id peer m)
  unfolding welcome record_connection close_connection
  Keeps-welcome id peer =
      Keeps-then _ _ (Keeps-update _ (λ s p. stable.connected s _ p))
        (Keeps-deferred _ _ (λ s p. stable.connected s _ p) (Keeps-drain id peer))

  Keeps-find_row :
      (held : Option DeviceIdentity) (device_id : String) → Keeps P (find_row cfg held device_id)
  unfolding find_row
  Keeps-find_row none device_id = search (keeps_rules, Keeps-in_repo stable.quiet)
  Keeps-find_row (some id) device_id = Keeps-finish _

  Keeps-or_close :
      {A : Type 0} (found : Option A) (frames : List Frame) → Keeps P (or_close found frames)
  unfolding or_close
  Keeps-or_close none frames = Keeps-stop_with frames
  Keeps-or_close (some a) frames = Keeps-finish a

  pub Keeps-connect : (peer : Peer) (r : Request) → Keeps P (connect lib cfg peer r m)
  unfolding connect
  Keeps-connect peer r =
      search
        (keeps_rules, Keeps-or_close, Keeps-find_row, Keeps-check_proof stable.quiet, Keeps-welcome)
        depth 40

  Keeps-require_admin : (r : Request) → Keeps P (require_admin cfg r)
  unfolding require_admin
  Keeps-require_admin r = search (keeps_rules)

  Keeps-or_snapshot :
      (stored : Option (List RelayMessage)) → Keeps P (or_snapshot lib cfg m.now stored)
  unfolding or_snapshot
  Keeps-or_snapshot none = record { after = λ s p. stable.listed s p }
  Keeps-or_snapshot (some messages) = Keeps-finish _

  Keeps-admin_messages : (r : Request) → Keeps P (admin_messages lib cfg r m)
  unfolding admin_messages
  Keeps-admin_messages r =
      search (keeps_rules, Keeps-require_admin, Keeps-in_repo stable.quiet, Keeps-or_snapshot) depth
        30

  Keeps-route : (r : Request) → Keeps P (route lib cfg r m)
  unfolding route health admin_devices admin_connections
  Keeps-route r =
      search
        (
          keeps_rules,
          Keeps-require_admin,
          Keeps-admin_messages,
          Keeps-envelopes,
          Keeps-bind_self,
          Keeps-register_with_ticket,
          Keeps-refresh_access stable,
          Keeps-revoke_access stable,
        )
        depth 60

  Keeps-charge_client : {E : Type 0} (key : String) → Keeps P (charge_client {E = E} key m.now)
  unfolding charge_client
  Keeps-charge_client key = record { after = λ s p. stable.limiter s key p }

  pub Keeps-handler : (r : Request) → Keeps P (handler lib cfg r m)
  unfolding handler
  Keeps-handler r = search (keeps_rules, Keeps-charge_client, Keeps-route) depth 30

  pub Keeps-connect_handler :
      (peer : Peer) (r : Request) → Keeps P (connect_handler lib cfg peer r m)
  unfolding connect_handler
  Keeps-connect_handler peer r = search (keeps_rules, Keeps-charge_client, Keeps-connect) depth 30
