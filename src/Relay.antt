-- ===== src/Relay.antt =====
-- services/relay-reference/internal/relay/server.go: the relay's configuration, its state, and what a
-- request brings with it.
pub mod Requests
pub mod Access
pub mod Credentials
pub mod Registration
pub mod Delivery
pub mod Connect
pub mod Admin
pub mod Stability
pub mod Runs
use iscp.Prelude.{
  ℕ, ◌*◌, ◌≡◌, refl, String, Bool, true, false, not, ◌&&◌, Option, none, some, List, [], ◌∷◌,
  if◌then◌else◌, string_eq, bytes_eq, ◌==◌, Bytes, to_bytes, trim_space,
}
use iscp.Prelude.Int.{ℤ, pos}
use iscp.Prelude.Sort.{SliceSort}
use iscp.Prelude.Map
use iscp.Prelude.Map.{Map}
use iscp.Errors.{Error, Result, ok, err, new, wrap, config_invalid, reject_if, ◌>>◌ as then_do}
use iscp.Effect.{Effect, Outcome, stop, next}
use iscp.Crypto.{Primitives}
use iscp.Canonical.Raw.{marshal_tokens}
use iscp.Canonical.Parser.{Token}
use iscp.Config.{Gate, validate_gate, default_gate, profile_production, profile_local_lab}
use iscp.Identity.{DeviceIdentity, DeviceProof}
use iscp.Provisioning.{PairingTicketV3}
use iscp.Server.Httpx.{ErrorResponse, error_response}
use iscp.Server.Queue.{Queue, Message, MessageMetadata, before, metadata_before}
use iscp.Server.RateLimit.{Limiter}
use iscp.Server.Replay.{Cache, new_cache}
use iscp.Repository.{Statement}
use iscp.Repository.Relay.{RelayDatabase, Tables}
use iscp.Repository.Messages.{Planner}

pub record Config : Type 0 where
  pub domain_id : String
  pub relay_id : String
  pub base_url : String
  pub web_socket_url : String
  pub profile_gate : Gate
  pub admin_token : String
  pub allowed_origins : List String
  pub ticket_issuer : Option DeviceIdentity

pub record Credential : Type 0 where
  pub domain_id : String
  pub device_id : String
  pub token : String
  pub hash : Bytes
  pub expires_at : ℕ
  pub revoked : Bool

pub record TicketState : Type 0 where
  pub max_uses : ℤ
  pub uses : ℕ

pub record ConnectionState : Type 0 where
  pub connection_id : String
  pub domain_id : String
  pub device_id : String
  pub state : String
  pub connected_at : ℕ
  pub last_seen_at : ℕ
  pub closed_at : ℕ

-- The fields of Server that change; a nil `repo` is `none`. Maps by hash have the hash as their key.
pub record State : Type 0 where
  pub limiter : Limiter
  pub replay : Cache
  pub queue : Queue
  pub repo : Option RelayDatabase
  pub devices : Map String DeviceIdentity
  pub access : Map Bytes Credential
  pub refresh : Map Bytes Credential
  pub revoked : Map String (Unit {0})
  pub tickets : Map String TicketState
  pub connections : Map String ConnectionState

-- What a handler reads of an HTTP request; a missing header is the empty text.
pub record Request : Type 0 where
  pub method : String
  pub path : String
  pub authorization : String
  pub access_proof : String
  pub admin_token : String
  pub forwarded_for : String
  pub remote_addr : String
  pub origin : String
  pub body : Bytes

-- What a handler draws from its surroundings: one reading of the clock for each request, random
-- texts, and a UUID for each row that it writes.
pub record Moment : Type 0 where
  pub now : ℕ
  pub access_token : String
  pub refresh_token : String
  pub challenge : String
  pub connection_suffix : String
  pub uuid : String → Result String

pub record BindSelfRequest : Type 0 where
  pub identity : DeviceIdentity
  pub proof : DeviceProof

pub record RegisterTicketRequest : Type 0 where
  pub ticket_id : String
  pub max_uses : ℤ
  pub ticket : Option PairingTicketV3
  pub identity : DeviceIdentity
  pub proof : DeviceProof

pub record EnvelopeMeta : Type 0 where
  pub domain_id : String
  pub message_id : String
  pub sender_device_id : String
  pub recipient_device_id : String
  pub ttl_seconds : ℤ
  pub priority : ℤ

pub record Receipt : Type 0 where
  pub receipt_id : String
  pub message_id : String
  pub domain_id : String
  pub relay_id : String
  pub status : String
  pub issued_at : ℕ

-- What the relay takes from libraries: cryptography, encoding/json, net, net/url, strings, sort, and
-- what SQL leaves open.
pub record Library : Type 0 where
  pub primitives : Primitives
  pub decode_bind_self : Bytes → Option BindSelfRequest
  pub decode_register_ticket : Bytes → Option RegisterTicketRequest
  pub decode_refresh : Bytes → Option String
  pub decode_revoke : Bytes → Option String
  pub decode_raw : Bytes → Option Bytes
  pub decode_meta : Bytes → Option EnvelopeMeta
  pub decode_proof : Bytes → Option DeviceProof
  -- json.Unmarshal(raw, &map[string]any), then m[key].(string)
  pub string_field : Bytes → String → Option String
  pub tokens : Bytes → List Token
  pub encode_route : ℤ → ℤ → Bytes
  pub encode_receipt : Receipt → Bytes
  -- the host of net.SplitHostPort, the scheme and the host of url.Parse
  pub split_host_port : String → Option String
  pub parse_url : String → Option (String × String)
  pub to_upper : String → String
  pub to_lower : String → String
  pub sorter : SliceSort before
  pub lister : SliceSort metadata_before
  pub planner : Planner

-- What the relay answers.
pub data Body : Type 0 where
  nothing : Body
  failure : ErrorResponse → Body
  credentials : Credential → Credential → Body
  status_text : String → Body
  receipt : Receipt → Body
  device_list : Map String DeviceIdentity → Body
  connection_list : Map String ConnectionState → Body
  message_list : List MessageMetadata → Body

pub record Response : Type 0 where
  pub status : ℕ
  pub body : Body

-- w.WriteHeader(status), httpx.WriteJSON and httpx.WriteError
abbrev pub status_only : ℕ → Response
status_only status = record { status = status; body = nothing }

abbrev pub write_json : ℕ → Body → Response
write_json status body = record { status = status; body = body }

unfoldable pub write_error : ℕ → Error → Response
write_error status e = record { status = status; body = failure (error_response e) }

-- A handler ends early with a response, or at its end.
abbrev pub Handler : Type 0
Handler = Effect State Response Response

abbrev pub response_of : Outcome Response Response → Response
response_of (stop r) = r
response_of (next r) = r

abbrev pub serve : Handler → State → State × Response
serve handler s = let (s', outcome) = handler s in (s', response_of outcome)

-- Seconds in nanoseconds.
abbrev pub seconds : ℕ → ℕ
seconds n = n * 1000000000

abbrev pub relay_max_queued_bytes : ℤ
relay_max_queued_bytes = pos 1048576

unfoldable pub is_production : Config → Bool
is_production cfg = cfg.profile_gate.profile == profile_production

-- if cfg.ProfileGate.Profile == "" { cfg.ProfileGate = config.DefaultGate(config.ProfileLocalLab) }
unfoldable pub with_gate : Config → Config
with_gate cfg =
    if cfg.profile_gate.profile == ""
    then record cfg { profile_gate = default_gate profile_local_lab }
    else cfg

unfoldable pub check_config : Config → Result (Unit {0})
unfolding is_production
check_config cfg =
    then_do
      (then_do (validate_gate cfg.profile_gate) (
        reject_if (is_production cfg && trim_space cfg.admin_token == "")
          (new config_invalid "production relay requires ISCP_ADMIN_TOKEN")))
      (reject_if (is_production cfg && iscp.Trust.is_empty cfg.allowed_origins)
        (new config_invalid "production relay requires allowed WebSocket origins"))

unfoldable pub new_state : Option RelayDatabase → State
new_state repo = record {
  limiter = iscp.Server.RateLimit.new (pos 120) (seconds 60);
  replay = new_cache;
  queue = iscp.Server.Queue.new relay_max_queued_bytes;
  repo = repo;
  devices = Map.empty;
  access = Map.empty;
  refresh = Map.empty;
  revoked = Map.empty;
  tickets = Map.empty;
  connections = Map.empty;
}

-- New, without the signing key of the descriptor: the configuration in force and the first state.
unfoldable pub new_relay : Config → Option RelayDatabase → Result (Config × State)
unfolding with_gate check_config new_state
new_relay cfg repo = then_do (check_config (with_gate cfg)) (ok (with_gate cfg, new_state repo))

module _ {A : Type 0} where
  abbrev put_back : State → RelayDatabase × Outcome Error A → State × Outcome Error (Option A)
  put_back s (db, stop e) = (record s { repo = some db }, stop e)
  put_back s (db, next a) = (record s { repo = some db }, next (some a))

  abbrev in_repo_of :
      Statement Tables A → State → Option RelayDatabase → State × Outcome Error (Option A)
  in_repo_of statement s none = (s, next none)
  in_repo_of statement s (some db) = put_back s (statement db)

  -- if s.repo != nil { ... }: `none` without a repository
  unfoldable pub in_repo : Statement Tables A → Effect State Error (Option A)
  in_repo statement s = in_repo_of statement s s.repo

pub in_repo-none :
    {A : Type 0} (statement : Statement Tables A) (s : State)
    → s.repo ≡ none
    → in_repo statement s ≡ (s, next none)
unfolding in_repo
in_repo-none statement s memory = rw memory refl

abbrev pub is_some {ℓ} : {A : Type ℓ} → Option A → Bool
is_some none = false
is_some (some a) = true

module _ (lib : Library) where
  -- canonical.Marshal of raw JSON
  unfoldable pub canonical_raw : Bytes → Result Bytes
  canonical_raw raw = marshal_tokens (lib.tokens raw)
