-- ===== src/Relay/Requests.antt =====
-- services/relay-reference/internal/relay/server.go: what is read from the headers of a request.
use Prim.Native.Char.{code}
use iscp.Prelude.{
  ℕ, ◌+◌, String, Bool, true, false, not, ◌||◌, Option, none, some, List, [], ◌∷◌, ◌++◌,
  if◌then◌else◌, string_eq, bytes_eq, nat_eq, ◌==◌, to_bytes, trim_space, ◌+++◌, contains, length,
}
use iscp.Errors.{new, access_invalid}
use iscp.Effect.{Effect, stop_if}
use iscp.Relay.{Config, Request, Library, State, Response, write_error}

-- The text behind one character that folds to the small letter `lower` or is it.
abbrev after_letter : ℕ → String → Option String
after_letter lower String.[] = none
after_letter lower (String.◌∷◌ c s) =
    if code c == lower || code c + 32 == lower then some s else none

abbrev after_space : String → Option String
after_space String.[] = none
after_space (String.◌∷◌ c s) = if code c == 32 then some s else none

abbrev and_then : Option String → (String → Option String) → Option String
and_then none rest = none
and_then (some s) rest = rest s

-- The text behind "Bearer ". None of its letters folds to anything beyond ASCII.
unfoldable pub after_bearer : String → Option String
after_bearer s =
    and_then
      (and_then
        (and_then
          (and_then (and_then (and_then (after_letter 98 s) (after_letter 101)) (after_letter 97))
            (after_letter 114))
          (after_letter 101))
        (after_letter 114))
      after_space

abbrev trimmed : Option String → String
trimmed none = ""
trimmed (some s) = trim_space s

unfoldable pub bearer_token : Request → String
unfolding after_bearer
bearer_token r = trimmed (after_bearer (trim_space r.authorization))

-- The token that stands for an administrator: the bearer token, or else the header for it.
unfoldable pub admin_credential : Request → String
admin_credential r = if bearer_token r == "" then trim_space r.admin_token else bearer_token r

unfoldable pub admin_authorized : Config → Request → Bool
unfolding admin_credential
admin_authorized cfg r =
    let expected = trim_space cfg.admin_token in
    let token = admin_credential r in
    if expected == ""
    then true
    else if token == "" || not (length (to_bytes token) == length (to_bytes expected))
    then false
    else to_bytes token == to_bytes expected

unfoldable pub require_admin : Config → Request → Effect State Response (Unit {0})
require_admin cfg r =
    stop_if (not (admin_authorized cfg r))
      (write_error 401 (new access_invalid "admin credential is required"))

-- The text before the first comma, if there is one.
unfoldable pub before_comma : String → Option String
before_comma String.[] = none
before_comma (String.◌∷◌ c s) =
    let rest = before_comma s in if code c == 44 then some "" else added rest
  where
    added : Option String → Option String
    added none = none
    added (some t) = some (String.◌∷◌ c t)

abbrev or_whole : String → Option String → String
or_whole forwarded none = forwarded
or_whole forwarded (some first) = trim_space first

abbrev host_or : String → Option String → String
host_or remote none = if remote == "" then "unknown" else remote
host_or remote (some host) =
    if host == "" then (if remote == "" then "unknown" else remote) else host

module _ (lib : Library) where
  unfoldable pub client_key : Request → String
  unfolding before_comma
  client_key r =
      let forwarded = trim_space r.forwarded_for in
      if forwarded == ""
      then host_or r.remote_addr (lib.split_host_port r.remote_addr)
      else or_whole forwarded (before_comma forwarded)

  -- ws and wss count as http and https.
  abbrev web_scheme : String → String
  web_scheme scheme = if scheme == "ws" then "http" else if scheme == "wss" then "https" else scheme

  abbrev origin_of : Option (String × String) → String
  origin_of none = ""
  origin_of (some (scheme, host)) =
      if scheme == "" || host == "" then "" else web_scheme scheme +++ "://" +++ lib.to_lower host

  unfoldable pub normalized_origin : String → String
  normalized_origin raw =
      let raw' = trim_space raw in if raw' == "" then "" else origin_of (lib.parse_url raw')

  -- The set of the allowed origins, of which the empty one is none.
  abbrev allowed_set : List String → List String
  allowed_set [] = []
  allowed_set (item ∷ items) =
      let rest = allowed_set items in
      if normalized_origin item == "" then rest else normalized_origin item ∷ rest

  unfoldable pub origin_allowed : Request → List String → List String → Bool
  unfolding normalized_origin
  origin_allowed r allowed fallback_urls =
      if trim_space r.origin == ""
      then true
      else contains (allowed_set (allowed ++ fallback_urls))
          (normalized_origin (trim_space r.origin))
