-- ===== src/Relay/Credentials.antt =====
-- services/relay-reference/internal/relay/server.go: access and refresh credentials
-- (authenticateAccess, issueCredentials, revokeRefreshCredential, refreshAccess, revokeAccess).
use iscp.Prelude.{
  ℕ, ◌+◌, String, Bool, true, false, not, ◌&&◌, ◌||◌, Option, none, some, if◌then◌else◌, string_eq,
  bytes_eq, ◌==◌, ltb, Bytes, to_bytes,
}
use iscp.Prelude.Map
use iscp.Prelude.Map.{Map}
use iscp.Errors.{Error, Result, ok, err, new, is_no_rows, access_invalid}
use iscp.Effect.{
  Effect, Outcome, stop, next, ◌>>=◌, ◌>>◌, pure_call, finish, stop_with, stop_if, read, update,
  on_error, attempt,
}
use iscp.Server.Httpx.{decode_json}
use iscp.Repository.Relay.{
  RelayCredential, get_refresh_by_hash, get_access_by_hash, store_access_hash, store_refresh_hash,
  revoke_refresh_by_hash, revoke_device, revoke_device_credentials,
}
use iscp.Relay.{
  Config, State, Credential, Request, Moment, Response, Library, Handler, status_only, write_json,
  write_error, seconds, in_repo, credentials, status_text,
}
use iscp.Relay.Requests.{bearer_token, admin_authorized}
use iscp.Relay.Access.{verify_access_proof}

-- The credential of a row.
abbrev pub of_row : RelayCredential → Credential
of_row row = record {
  domain_id = row.domain_id;
  device_id = row.device_id;
  token = "";
  hash = row.hash;
  expires_at = row.expires_at;
  revoked = false;
}

-- The repository's answer, where no row is no error.
unfoldable pub found_row :
    Option (Outcome Error RelayCredential) → Effect State Error (Option Credential)
found_row none = finish none
found_row (some (stop e)) = if is_no_rows e then finish none else stop_with e
found_row (some (next row)) = finish (some (of_row row))

-- A credential that is there, and not revoked, and has run out.
abbrev is_over : ℕ → Credential → Bool
is_over now c = not c.revoked && ltb c.expires_at now

abbrev pub live_at : ℕ → Option Credential → Option Credential
live_at now none = none
live_at now (some c) = if is_over now c then none else some c

-- !ok || cred.Revoked || time.Now().After(cred.ExpiresAt)
abbrev pub current : ℕ → Option Credential → Option Credential
current now none = none
current now (some c) = if c.revoked || ltb c.expires_at now then none else some c

-- The credential itself where it is there.
unfoldable pub required : {A : Type 0} → Option A → Response → Effect State Response A
required none refusal = stop_with refusal
required (some a) refusal = finish a

abbrev pub revoke : Credential → Credential
revoke c = record c { revoked = true }

-- What authenticateAccess does to an entry that has run out.
abbrev pub retired_in : Map Bytes Credential → Bytes → ℕ → Option Credential → Map Bytes Credential
retired_in access hash now none = access
retired_in access hash now (some c) =
    if is_over now c then Map.put access hash (revoke c) else access

unfoldable pub retire_expired : Bytes → ℕ → State → State
retire_expired hash now s = record s {
  access = retired_in s.access hash now (Map.get s.access hash);
}

-- ok && !cred.Revoked && now.Before(cred.ExpiresAt)
abbrev pub held_access : ℕ → Option Credential → Option Credential
held_access now none = none
held_access now (some c) = if not c.revoked && ltb now c.expires_at then some c else none

abbrev pub or_invalid : Option Credential → Result Credential
or_invalid none = err (new access_invalid "access credential invalid")
or_invalid (some c) = ok c

-- if cred, ok := s.refresh[hash]; ok { cred.Revoked = true; s.refresh[hash] = cred }
abbrev pub revoked_in : Map Bytes Credential → Bytes → Option Credential → Map Bytes Credential
revoked_in refresh hash none = refresh
revoked_in refresh hash (some c) = Map.put refresh hash (revoke c)

unfoldable pub revoke_held : Bytes → State → State
revoke_held hash s = record s { refresh = revoked_in s.refresh hash (Map.get s.refresh hash) }

-- The loops of revokeAccess over both maps.
unfoldable pub revoke_all : String → State → State
revoke_all device_id s =
    let revoke_own = λ (c : Credential). if c.device_id == device_id then revoke c else c in
    record s {
      revoked = Map.put s.revoked device_id tt;
      access = Map.map_values revoke_own s.access;
      refresh = Map.map_values revoke_own s.refresh;
    }

unfoldable pub keep_credentials : Credential → Credential → State → State
keep_credentials access refresh s = record s {
  access = Map.put s.access access.hash access;
  refresh = Map.put s.refresh refresh.hash refresh;
}

module _ (lib : Library) (cfg : Config) where
  unfoldable pub hash_of : String → Bytes
  hash_of token = lib.primitives.sha256 (to_bytes token)

  -- The credential in memory, or else that of the repository.
  unfoldable pub find_access : Bytes → ℕ → Option Credential → Effect State Error Credential
  unfolding found_row
  find_access hash now (some c) = finish c
  find_access hash now none = do
    row ← in_repo (attempt (get_access_by_hash cfg.domain_id hash now))
    found ← found_row row
    pure_call (or_invalid found)

  unfoldable pub authenticate_access : Request → Moment → Effect State Error Credential
  unfolding find_access retire_expired hash_of
  authenticate_access r m = do
    let token = bearer_token r
    stop_if (token == "") (new access_invalid "access credential is required")
    let hash = hash_of token
    held ← read (λ s. held_access m.now (Map.get s.access hash))
    update (retire_expired hash m.now)
    cred ← find_access hash m.now held
    verify_access_proof lib cfg r cred hash m
    finish cred

  abbrev new_credential : String → String → String → ℕ → Credential
  new_credential domain_id device_id token expires_at = record {
    domain_id = domain_id;
    device_id = device_id;
    token = token;
    hash = hash_of token;
    expires_at = expires_at;
    revoked = false;
  }

  unfoldable pub access_for : String → String → Moment → Credential
  access_for domain_id device_id m =
      new_credential domain_id device_id m.access_token (m.now + seconds 900)

  unfoldable pub refresh_for : String → String → Moment → Credential
  refresh_for domain_id device_id m =
      new_credential domain_id device_id m.refresh_token (m.now + seconds 86400)

  abbrev row_of : String → Credential → ℕ → RelayCredential
  row_of id c now = record {
    id = id;
    domain_id = c.domain_id;
    device_id = c.device_id;
    hash = c.hash;
    issued_at = now;
    expires_at = c.expires_at;
  }

  -- Both rows of the repository, if there is one.
  unfoldable pub store_credentials :
      Credential → Credential → Moment → Effect State Error (Unit {0})
  store_credentials access refresh m = do
    known ← read (λ s. iscp.Relay.is_some s.repo)
    (if not known then finish tt else (do
      access_id ← pure_call (m.uuid "access")
      refresh_id ← pure_call (m.uuid "refresh")
      first ← in_repo (store_access_hash (row_of access_id access m.now))
      second ← in_repo (store_refresh_hash (row_of refresh_id refresh m.now))
      finish tt))

  unfoldable pub issue_credentials :
      String → String → Moment → Effect State Error (Credential × Credential)
  unfolding store_credentials keep_credentials access_for refresh_for
  issue_credentials domain_id device_id m = do
    let access = access_for domain_id device_id m
    let refresh = refresh_for domain_id device_id m
    store_credentials access refresh m
    update (keep_credentials access refresh)
    finish (access, refresh)

  unfoldable pub revoke_refresh_credential : String → Moment → Effect State Error (Unit {0})
  unfolding revoke_held hash_of
  revoke_refresh_credential token m = do
    update (revoke_held (hash_of token))
    done ← in_repo (revoke_refresh_by_hash cfg.domain_id (hash_of token) m.now)
    finish tt

  -- The refresh credential in memory, or else that of the repository.
  unfoldable pub find_refresh :
      Bytes → ℕ → Option Credential → Effect State Error (Option Credential)
  unfolding found_row
  find_refresh hash now (some c) = finish (some c)
  find_refresh hash now none = do
    row ← in_repo (attempt (get_refresh_by_hash cfg.domain_id hash now))
    found_row row

  -- refreshAccess, for the token in the body of the request
  unfoldable pub refresh_with : String → Moment → Handler
  unfolding find_refresh revoke_refresh_credential issue_credentials hash_of
  refresh_with token m = do
    held ← read (λ s. live_at m.now (Map.get s.refresh (hash_of token)))
    found ← on_error (write_error 500) (find_refresh (hash_of token) m.now held)
    cred ←
        required (current m.now found)
          (write_error 401 (new access_invalid "refresh credential invalid"))
    on_error (write_error 500) (revoke_refresh_credential token m)
    issued ← on_error (write_error 500) (issue_credentials cred.domain_id cred.device_id m)
    finish (write_json 200 (credentials issued.0 issued.1))

  unfoldable pub refresh_access : Request → Moment → Handler
  unfolding refresh_with
  refresh_access r m = do
    stop_if (not (r.method == "POST")) (status_only 405)
    token ← on_error (write_error 400) (pure_call (decode_json lib.decode_refresh r.body))
    refresh_with token m

  -- Who may revoke: an administrator where the access credential fails, and otherwise its device.
  unfoldable pub check_revoker :
      Request → String → Outcome Error Credential → Effect State Response (Unit {0})
  check_revoker r device_id (stop e) = stop_if (not (admin_authorized cfg r)) (write_error 401 e)
  check_revoker r device_id (next cred) =
      stop_if (not (cred.device_id == device_id))
        (write_error 403 (new access_invalid "access credential cannot revoke another device"))

  -- revokeAccess, for the device in the body of the request
  unfoldable pub revoke_with : String → Request → Moment → Handler
  unfolding check_revoker revoke_all
  revoke_with device_id r m = do
    revoker ← attempt (authenticate_access r m)
    check_revoker r device_id revoker
    update (revoke_all device_id)
    first ← on_error (write_error 500) (in_repo (revoke_device cfg.domain_id device_id m.now))
    second ←
        on_error (write_error 500)
          (in_repo (revoke_device_credentials cfg.domain_id device_id m.now))
    finish (write_json 200 (status_text "revoked"))

  unfoldable pub revoke_access : Request → Moment → Handler
  unfolding revoke_with
  revoke_access r m = do
    stop_if (not (r.method == "POST")) (status_only 405)
    device_id ← on_error (write_error 400) (pure_call (decode_json lib.decode_revoke r.body))
    revoke_with device_id r m
