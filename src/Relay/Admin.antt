-- ===== src/Relay/Admin.antt =====
-- services/relay-reference/internal/relay/server.go: the administrator's views, and the handler that
-- all requests pass (Handler, routes, adminDevices, adminConnections, adminMessages).
use iscp.Prelude.{
  ℕ, String, Bool, not, Option, none, some, List, [], ◌∷◌, map, if◌then◌else◌, string_eq, ◌==◌,
}
use iscp.Prelude.Int.{pos}
use iscp.Errors.{retryable, access_invalid}
use iscp.Effect.{Effect, Outcome, next, ◌>>=◌, ◌>>◌, finish, stop_if, stop_with, read, on_error}
use iscp.Server.Queue.{MessageMetadata, snapshot_metadata}
use iscp.Server.RateLimit.{allow}
use iscp.Repository.Relay.{RelayMessage}
use iscp.Repository.Messages.{list_pending_messages}
use iscp.Relay.{
  Config, State, Request, Moment, Response, Library, Handler, status_only, write_json, write_error,
  in_repo, device_list, connection_list, message_list, status_text,
}
use iscp.Relay.Requests.{require_admin, client_key}
use iscp.Relay.Credentials.{refresh_access, revoke_access}
use iscp.Relay.Registration.{bind_self, register_with_ticket}
use iscp.Relay.Delivery.{envelopes}
use iscp.Relay.Connect.{Peer, Connection, Frame, too_many_requests, connect}

unfoldable pub relay_message_metadata : RelayMessage → MessageMetadata
relay_message_metadata msg = record {
  domain_id = msg.domain_id;
  message_id = msg.message_id;
  sender_device_id = msg.sender_device_id;
  recipient_device_id = msg.recipient_device_id;
  priority = msg.priority;
  queued_at = msg.queued_at;
  expires_at = msg.expires_at;
}

-- healthz, readyz and livez
unfoldable pub health : Handler
health = finish (write_json 200 (status_text "ok"))

unfoldable pub charge_client : {E : Type 0} → String → ℕ → Effect State E Bool
charge_client key now s =
    let (limiter, allowed) = allow s.limiter key now in
    (record s { limiter = limiter }, next allowed)

module _ (lib : Library) (cfg : Config) where
  unfoldable pub admin_devices : Request → Handler
  admin_devices r = do
    stop_if (not (r.method == "GET")) (status_only 405)
    require_admin cfg r
    devices ← read (λ s. s.devices)
    finish (write_json 200 (device_list devices))

  unfoldable pub admin_connections : Request → Handler
  admin_connections r = do
    stop_if (not (r.method == "GET")) (status_only 405)
    require_admin cfg r
    connections ← read (λ s. s.connections)
    finish (write_json 200 (connection_list connections))

  snapshot_queue : ℕ → State → State × Outcome Response (List MessageMetadata)
  snapshot_queue now s =
      let (q, listed) = snapshot_metadata lib.lister now s.queue in
      (record s { queue = q }, next listed)

  unfoldable pub or_snapshot :
      ℕ → Option (List RelayMessage) → Effect State Response (List MessageMetadata)
  unfolding snapshot_queue relay_message_metadata
  or_snapshot now none = snapshot_queue now
  or_snapshot now (some messages) = finish (map relay_message_metadata messages)

  unfoldable pub admin_messages : Request → Moment → Handler
  unfolding or_snapshot
  admin_messages r m = do
    stop_if (not (r.method == "GET")) (status_only 405)
    require_admin cfg r
    stored ←
        on_error (write_error 500)
          (in_repo (list_pending_messages lib.planner cfg.domain_id m.now (pos 500)))
    listed ← or_snapshot m.now stored
    finish (write_json 200 (message_list listed))

  -- The paths that the mux knows, but for the three that only describe the relay and the WebSocket.
  unfoldable pub route : Request → Moment → Handler
  unfolding health admin_devices admin_connections admin_messages
  route r m =
      if r.path == "/healthz"
      then health
      else if r.path == "/readyz"
      then health
      else if r.path == "/livez"
      then health
      else if r.path == "/v2/relay/devices/bind-self"
      then bind_self lib cfg r m
      else if r.path == "/v2/relay/devices/register-with-ticket"
      then register_with_ticket lib cfg r m
      else if r.path == "/v2/relay/devices/refresh-access"
      then refresh_access lib cfg r m
      else if r.path == "/v2/relay/devices/revoke-access"
      then revoke_access lib cfg r m
      else if r.path == "/v2/relay/envelopes"
      then envelopes lib cfg r m
      else if r.path == "/v2/relay/admin/devices"
      then admin_devices r
      else if r.path == "/v2/relay/admin/connections"
      then admin_connections r
      else if r.path == "/v2/relay/admin/messages"
      then admin_messages r m
      else stop_with (status_only 404)

  unfoldable pub handler : Request → Moment → Handler
  unfolding route charge_client
  handler r m = do
    allowed ← charge_client (client_key lib r) m.now
    stop_if (not allowed) (write_error 429 (retryable access_invalid "rate limit exceeded"))
    route r m

  -- The handler of a request for the WebSocket.
  unfoldable pub connect_handler : Peer → Request → Moment → Connection (List Frame)
  unfolding charge_client
  connect_handler peer r m = do
    allowed ← charge_client (client_key lib r) m.now
    stop_if (not allowed) (too_many_requests ∷ [])
    connect lib cfg peer r m
