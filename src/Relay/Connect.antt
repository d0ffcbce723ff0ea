-- ===== src/Relay/Connect.antt =====
-- services/relay-reference/internal/relay/server.go: the WebSocket over which a device gets its
-- messages (connect, recordConnection, closeConnection).
use iscp.Prelude.{
  ℕ, zero, suc, ◌+◌, String, Bool, true, false, not, ◌&&◌, Option, none, some, List, [], ◌∷◌,
  if◌then◌else◌, string_eq, nat_eq, ◌==◌, Bytes, ◌+++◌,
}
use iscp.Prelude.Int.{pos}
use iscp.Prelude.Map
use iscp.Errors.{Error}
use iscp.Effect.{
  Effect, Outcome, stop, next, ◌>>=◌, ◌>>◌, finish, stop_with, stop_if, read, update, on_error,
  attempt, deferred,
}
use iscp.Identity.{DeviceIdentity, DeviceProof}
use iscp.Server.Queue.{Message}
use iscp.Repository.Relay.{RelayDevice, get_device}
use iscp.Repository.Messages.{mark_message_delivered}
use iscp.Relay.{Config, State, ConnectionState, Request, Moment, Library, seconds, in_repo, is_some}
use iscp.Relay.Requests.{origin_allowed}
use iscp.Relay.Access.{check_proof}
use iscp.Relay.Delivery.{dequeue_messages}

-- What the server writes to the connection, up to the first write that fails.
pub data Frame : Type 0 where
  method_not_allowed too_many_requests ready : Frame
  challenge closed : String → Frame
  message : String → Bytes → Frame
  drained : ℕ → Frame

-- The other end: whether the upgrade and the first frame go through, what it answers to a challenge
-- (none, if what it sends is no proof), and how many messages reach it before its connection breaks.
pub record Peer : Type 0 where
  pub upgrades : Bool
  pub takes_challenge : Bool
  pub answer : String → Option DeviceProof
  pub receives : ℕ

abbrev pub Connection : Type 0 → Type 0
Connection A = Effect State (List Frame) A

unfoldable pub record_connection : ConnectionState → State → State
record_connection c s = record s { connections = Map.put s.connections c.connection_id c }

-- A connection that is not there reads as the zero value.
abbrev or_zero : Option ConnectionState → ConnectionState
or_zero none = record {
  connection_id = "";
  domain_id = "";
  device_id = "";
  state = "";
  connected_at = 0;
  last_seen_at = 0;
  closed_at = 0;
}
or_zero (some c) = c

unfoldable pub close_connection : String → ℕ → State → State
close_connection connection_id now s =
    let c = or_zero (Map.get s.connections connection_id) in
    record s {
      connections =
          Map.put s.connections connection_id
            (record c { state = "closed"; closed_at = now; last_seen_at = now });
    }

-- The identity of a device that is known and not revoked: in memory, or else in the repository, whose
-- errors count as unknown.
unfoldable pub admitted :
    Bool → Option DeviceIdentity → Option (Outcome Error RelayDevice) → Option DeviceIdentity
admitted true held row = none
admitted false (some id) row = some id
admitted false none none = none
admitted false none (some (stop e)) = none
admitted false none (some (next row)) =
    if row.status == "revoked" then none else some row.identity_raw

unfoldable pub find_row :
    Config → Option DeviceIdentity → String → Connection (Option (Outcome Error RelayDevice))
find_row cfg (some id) device_id = finish none
find_row cfg none device_id =
    on_error (λ e. []) (in_repo (attempt (get_device cfg.domain_id device_id)))

unfoldable pub or_close : {A : Type 0} → Option A → List Frame → Connection A
or_close none frames = stop_with frames
or_close (some a) frames = finish a

-- The loop over the messages: each that is written is marked as delivered, without regard to errors.
unfoldable pub deliver : ℕ → ℕ → ℕ → List Message → Connection (List Frame)
deliver now delivered receives [] = finish (drained delivered ∷ [])
deliver now delivered zero (msg ∷ msgs) = finish []
deliver now delivered (suc receives) (msg ∷ msgs) = do
  marked ← attempt (in_repo (mark_message_delivered msg.domain_id msg.message_id now))
  rest ← deliver now (delivered + 1) receives msgs
  finish (message msg.message_id msg.envelope ∷ rest)

module _ (lib : Library) (cfg : Config) where
  -- What follows the proof, with the connection recorded.
  unfoldable pub drain : DeviceIdentity → Peer → Moment → Connection (List Frame)
  unfolding deliver
  drain id peer m = do
    messages ←
        on_error (λ e. challenge m.challenge ∷ ready ∷ closed "message dequeue failed" ∷ [])
          (dequeue_messages lib id.domain_id id.device_id m.now (pos 100))
    frames ← deliver m.now 0 peer.receives messages
    finish (challenge m.challenge ∷ ready ∷ frames)

  abbrev connection_of : DeviceIdentity → Moment → ConnectionState
  connection_of id m = record {
    connection_id = "conn-" +++ m.connection_suffix;
    domain_id = id.domain_id;
    device_id = id.device_id;
    state = "ready";
    connected_at = m.now;
    last_seen_at = m.now;
    closed_at = 0;
  }

  unfoldable pub welcome : DeviceIdentity → Peer → Moment → Connection (List Frame)
  unfolding drain record_connection close_connection
  welcome id peer m = do
    update (record_connection (connection_of id m))
    deferred (close_connection ("conn-" +++ m.connection_suffix) m.now) (drain id peer m)

  -- The WebSocket library refuses an upgrade from an origin that is not allowed.
  unfoldable pub connect : Peer → Request → Moment → Connection (List Frame)
  unfolding welcome find_row
  connect peer r m = do
    stop_if (not (r.method == "GET")) (method_not_allowed ∷ [])
    stop_if
        (not (
          peer.upgrades
          && origin_allowed lib r cfg.allowed_origins (cfg.base_url ∷ cfg.web_socket_url ∷ [])))
        []
    stop_if (not peer.takes_challenge) []
    proof ← or_close (peer.answer m.challenge) (challenge m.challenge ∷ [])
    held ← read (λ s. Map.get s.devices proof.device_id)
    revoked ← read (λ s. is_some (Map.get s.revoked proof.device_id))
    row ← find_row cfg held proof.device_id
    id ←
        or_close (admitted revoked held row)
          (challenge m.challenge ∷ closed "access revoked or unknown" ∷ [])
    on_error (λ e. challenge m.challenge ∷ closed "proof failed" ∷ [])
        (check_proof lib cfg id proof cfg.relay_id m.challenge (seconds 60) m)
    welcome id peer m
