-- ===== src/Examples/Relay.antt =====
-- A small relay: functions in the place of its libraries, a configuration and some requests.
use iscp.Prelude.{
  ℕ, ◌≡◌, String, true, false, Option, none, some, [], to_bytes, bytes_eq, string_eq,
}
use mathlib.Core.List.Perm
use iscp.Prelude.Map
use iscp.Prelude.Map.{Map}
use iscp.Prelude.Sort.{insertion_sort, insertion_sort-perm, insertion_sort-IsOrdered}
use iscp.Errors.{ok}
use iscp.Config.{default_gate}
use iscp.Crypto.{Primitives}
use iscp.Identity.{DeviceProof, no_signature}
use iscp.Server.Queue.Order.{sorter, lister, goes_before-asym, goes_before_trans}
use iscp.Repository.Relay.{MessageRow}
use iscp.Repository.Messages.{Planner, row_before}
use iscp.Relay.{
  Config, State, Credential, Request, Moment, Library, RegisterTicketRequest, new_state,
}
use iscp.Examples.Toy.{toy}

row_before-asym : (x y : MessageRow) → row_before x y ≡ true → row_before y x ≡ false
unfolding row_before
row_before-asym x y =
    goes_before-asym x.message.priority y.message.priority x.message.queued_at y.message.queued_at

row_before_trans :
    (x y z : MessageRow) → row_before y x ≡ false → row_before z y ≡ false → row_before z x ≡ false
unfolding row_before
row_before_trans x y z =
    goes_before_trans x.message.priority y.message.priority z.message.priority x.message.queued_at
      y.message.queued_at z.message.queued_at

pub planner : Planner
planner = record {
  sorter = record {
    sort = insertion_sort row_before;
    sort-perm = insertion_sort-perm row_before;
    sort-IsOrdered = insertion_sort-IsOrdered row_before row_before-asym row_before_trans;
  };
  returned = λ rows. rows;
  returned-perm = λ rows. Perm.rfl;
}

-- With this, two texts have the same hash only if they are the same.
abbrev pub plain : Primitives
plain = record toy { sha256 = λ m. m }

abbrev pub no_proof : DeviceProof
no_proof = record {
  type = "iscp.device.proof.v2";
  domain_id = "home";
  device_id = "lamp";
  audience = "relay";
  challenge = "c";
  nonce = "n";
  issued_at = 10;
  signature = no_signature;
}

abbrev pub library_with : Option RegisterTicketRequest → Library
library_with registration = record {
  primitives = plain;
  decode_bind_self = λ body. none;
  decode_register_ticket = λ body. registration;
  decode_refresh = λ body. some "r";
  decode_revoke = λ body. some "lamp";
  decode_raw = λ body. some body;
  decode_meta = λ body. none;
  decode_proof = λ body. none;
  string_field = λ body key. none;
  tokens = λ body. [];
  encode_route = λ ttl priority. [];
  encode_receipt = λ receipt. [];
  split_host_port = λ address. none;
  parse_url = λ url. none;
  to_upper = λ s. s;
  to_lower = λ s. s;
  sorter = sorter;
  lister = lister;
  planner = planner;
}

abbrev pub library : Library
library = library_with none

abbrev pub config : Config
config = record {
  domain_id = "home";
  relay_id = "relay";
  base_url = "";
  web_socket_url = "";
  profile_gate = default_gate "local-lab";
  admin_token = "";
  allowed_origins = [];
  ticket_issuer = none;
}

abbrev pub post : Request
post = record {
  method = "POST";
  path = "/v2/relay/devices/refresh-access";
  authorization = "";
  access_proof = "";
  admin_token = "";
  forwarded_for = "";
  remote_addr = "a";
  origin = "";
  body = [];
}

abbrev pub at_time : ℕ → String → Moment
at_time now token = record {
  now = now;
  access_token = token;
  refresh_token = token;
  challenge = "c";
  connection_suffix = "1";
  uuid = λ use'. ok use';
}

abbrev pub refresh_credential : Credential
refresh_credential = record {
  domain_id = "home";
  device_id = "lamp";
  token = "r";
  hash = to_bytes "r";
  expires_at = 100;
  revoked = false;
}

abbrev pub started : State
started = record (new_state none) { refresh = Map.put Map.empty (to_bytes "r") refresh_credential }
