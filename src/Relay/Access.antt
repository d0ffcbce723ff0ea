-- ===== src/Relay/Access.antt =====
-- services/relay-reference/internal/relay/server.go: proofs of possession
-- (verifyProof, lookupIdentity, verifyAccessProof).
use iscp.Prelude.{
  List, [], ◌∷◌, contains, map, ℕ, ◌+◌, String, Bool, not, Option, none, some, if◌then◌else◌,
  string_eq, bytes_eq, ◌==◌, Bytes, trim_space, is_blank, ◌+++◌,
}
use iscp.Prelude.Map
use iscp.Prelude.Map.{Map}
use iscp.Errors.{Error, Result, ok, err, new, is_no_rows, replay_detected, access_invalid}
use iscp.Effect.{
  Effect, Outcome, stop, next, ◌>>=◌, ◌>>◌, pure_call, finish, stop_with, stop_if, read, attempt,
}
use iscp.Crypto.{decode_base64_url, base64url}
use iscp.Identity.{DeviceIdentity, DeviceProof, verify_proof}
use iscp.Server.Replay.{use_key}
use iscp.Repository.{Statement}
use iscp.Repository.Relay.{RelayCredential, Tables, get_device}
use iscp.Repository.Nonces.{use_proof_nonce}
use iscp.Relay.{
  Config, State, Credential, Request, Moment, Library, seconds, is_production, in_repo, is_some,
}

-- strings.Join([]string{domain, device, audience, nonce}, "\x00")
unfoldable pub nonce_key : DeviceProof → String
nonce_key proof =
    proof.domain_id +++ "\0" +++ proof.device_id +++ "\0" +++ proof.audience +++ "\0"
    +++ proof.nonce

abbrev use_once : String → ℕ → ℕ → State → State × Outcome Error Bool
use_once key expires_at now s =
    let (cache, used) = use_key key expires_at now s.replay in
    (record s { replay = cache }, next used)

-- The answer of the repository, or else that of the cache in memory.
unfoldable pub or_cache : String → ℕ → ℕ → Option Bool → Effect State Error Bool
or_cache key expires_at now none = use_once key expires_at now
or_cache key expires_at now (some used) = finish used

-- The identity of a row that is there and not revoked.
unfoldable pub stored_identity :
    Option (Outcome Error iscp.Repository.Relay.RelayDevice)
    → Effect State Error (Option DeviceIdentity)
stored_identity none = finish none
stored_identity (some (stop e)) = if is_no_rows e then finish none else stop_with e
stored_identity (some (next row)) =
    finish (if row.status == "revoked" then none else some row.identity_raw)

-- The identity that the server holds in memory for a device that it has not revoked.
unfoldable pub held_identity : String → String → State → Option DeviceIdentity
held_identity domain_id device_id s =
    if is_some (Map.get s.revoked device_id) then none else of_domain (Map.get s.devices device_id)
  where
    of_domain : Option DeviceIdentity → Option DeviceIdentity
    of_domain none = none
    of_domain (some id) = if id.domain_id == domain_id then some id else none

abbrev known_identity : Option DeviceIdentity → Result DeviceIdentity
known_identity none = err (new access_invalid "access proof identity is unknown")
known_identity (some id) = ok id

abbrev read_proof : Option DeviceProof → Result DeviceProof
read_proof none = err (new access_invalid "invalid relay access proof")
read_proof (some proof) = ok proof

-- The entries of a JSON object that is read into a map.
abbrev keep_others : List (String × String) → List (String × String) → List (String × String)
keep_others added [] = added
keep_others added ((k, v) ∷ old) =
    let rest = keep_others added old in
    if contains (map (λ e. e.0) added) k then rest else (k, v) ∷ rest

abbrev metadata_of : Option DeviceIdentity → List (String × String)
metadata_of none = []
metadata_of (some id) = id.metadata

-- json.Unmarshal of a stored identity into the one that is in memory for the device, if any: the
-- metadata of that one stay where the stored identity names no others.
unfoldable pub read_into : Option DeviceIdentity → DeviceIdentity → DeviceIdentity
read_into known id = record id { metadata = keep_others id.metadata (metadata_of known) }

abbrev map_found : (DeviceIdentity → DeviceIdentity) → Option DeviceIdentity → Option DeviceIdentity
map_found f none = none
map_found f (some id) = some (f id)

unfoldable pub lookup_identity : String → String → Effect State Error (Option DeviceIdentity)
unfolding held_identity stored_identity
lookup_identity domain_id device_id = do
  held ← read (held_identity domain_id device_id)
  (if is_some held then finish held else (do
    known ← read (λ s. Map.get s.devices device_id)
    row ← in_repo (attempt (get_device domain_id device_id))
    stored ← stored_identity row
    finish (map_found (read_into known) stored)))

module _ (lib : Library) (cfg : Config) where
  -- The part of verifyProof that marks the nonce, in the repository or in memory.
  unfoldable pub use_nonce : DeviceProof → ℕ → ℕ → Effect State Error Bool
  unfolding nonce_key or_cache
  use_nonce proof expires_at now = do
    stored ← in_repo (
        use_proof_nonce lib.primitives proof.domain_id proof.device_id proof.audience proof.nonce
          expires_at now)
    or_cache (nonce_key proof) expires_at now stored

  -- verifyProof
  unfoldable pub check_proof :
      DeviceIdentity → DeviceProof → String → String → ℕ → Moment → Effect State Error (Unit {0})
  unfolding use_nonce
  check_proof id proof audience challenge ttl m = do
    stop_if (is_blank proof.nonce) (new replay_detected "proof nonce is required")
    pure_call (verify_proof lib.primitives id proof audience challenge m.now ttl)
    used ← use_nonce proof (proof.issued_at + ttl) m.now
    stop_if (not used) (new replay_detected "proof nonce replay detected")

  unfoldable pub access_proof_challenge : String → String → Bytes → String
  access_proof_challenge method path access_hash =
      "iscp/v2/relay/access-proof"
      +++ "\0"
      +++ lib.to_upper method
      +++ "\0"
      +++ path
      +++ "\0"
      +++ base64url lib.primitives access_hash

  unfoldable pub verify_access_proof :
      Request → Credential → Bytes → Moment → Effect State Error (Unit {0})
  unfolding check_proof lookup_identity access_proof_challenge
  verify_access_proof r cred access_hash m = if not (is_production cfg) then finish tt else (do
    let value = trim_space r.access_proof
    stop_if (value == "")
        (new access_invalid "production relay access requires proof of possession")
    raw ← pure_call (decode_base64_url lib.primitives value)
    proof ← pure_call (read_proof (lib.decode_proof raw))
    known ← lookup_identity cred.domain_id cred.device_id
    id ← pure_call (known_identity known)
    check_proof id proof cfg.relay_id (access_proof_challenge r.method r.path access_hash)
        (seconds 60) m)
