-- ===== src/Relay/Stability.antt =====
-- services/relay-reference/internal/relay/server.go: what all requests keep of the relay's state. A
-- property that survives each elementary change survives every handler.
pub mod Handlers
use iscp.Prelude.{
  ℕ, suc, zero, ◌+◌, ◌≡◌, refl, String, Bool, true, false, Option, none, some, List, [], ◌∷◌, Bytes,
  if◌then◌else◌, string_eq, bytes_eq,
}
use iscp.Prelude.Int.{ℤ}
use iscp.Prelude.Map
use iscp.Errors.{Error, Result, ok, err}
use iscp.Effect.{Effect, Outcome, stop, next, ◌>>=◌, ◌>>◌}
use iscp.Effect.Keeps.{
  Keeps, keeps_rules, Keeps-update, Keeps-deferred, Keeps-if, Keeps-stop_with, Keeps-finish,
}
use iscp.Identity.{DeviceIdentity, DeviceProof}
use iscp.Server.Queue.{Message, enqueue, dequeue_for, snapshot_metadata}
use iscp.Server.Replay.{use_key}
use iscp.Server.RateLimit.{allow}
use iscp.Repository.{Statement}
use iscp.Repository.Relay.{RelayDatabase}
use iscp.Relay.{
  EnvelopeMeta, Config, State, Credential, Request, Moment, Response, Library, Handler,
  ConnectionState, in_repo,
}
use iscp.Relay.Access.{
  or_cache, use_nonce, check_proof, lookup_identity, verify_access_proof, stored_identity,
}
use iscp.Relay.Credentials.{
  retire_expired, revoke_held, revoke_all, keep_credentials, access_for, refresh_for, required,
  found_row, find_access, authenticate_access, store_credentials, issue_credentials,
  revoke_refresh_credential, find_refresh, refresh_with, refresh_access, check_revoker, revoke_with,
  revoke_access,
}
use iscp.Relay.Delivery.{validate_envelope_meta, queued_message}
use iscp.Errors.{ok}
use iscp.Relay.Registration.{consume_in, hold_device}

-- What a check of a proof changes: the repository, where there is one, and the cache of nonces.
pub record IsQuiet (m : Moment) (P : State → Type 0) : Type 0 where
  pub repo :
      (s : State) (old db : RelayDatabase)
      → s.repo ≡ some old
      → P s
      → P (record s { repo = some db })
  pub replay :
      (s : State) (key : String) (expires_at : ℕ)
      → P s
      → P (record s { replay = (use_key key expires_at m.now s.replay).0 })

module _ (lib : Library) (cfg : Config) (m : Moment) (P : State → Type 0) where
  -- The elementary changes of a request at the moment `m`.
  pub record IsStable : Type 0 where
    pub quiet : IsQuiet m P
    pub limiter :
        (s : State) (key : String) → P s → P (record s { limiter = (allow s.limiter key m.now).0 })
    pub enqueued :
        (s : State) (raw : Bytes) (e : EnvelopeMeta)
        → validate_envelope_meta cfg e ≡ ok tt
        → P s
        → P (record s { queue = (enqueue (queued_message e raw m.now) m.now s.queue).0 })
    pub dequeued :
        (s : State) (domain_id recipient : String) (limit : ℤ)
        → P s
        → P (record s {
          queue = (dequeue_for lib.sorter domain_id recipient m.now limit s.queue).0;
        })
    pub listed :
        (s : State) → P s → P (record s { queue = (snapshot_metadata lib.lister m.now s.queue).0 })
    pub retired : (s : State) (hash : Bytes) → P s → P (retire_expired hash m.now s)
    pub spent : (s : State) (hash : Bytes) → P s → P (revoke_held hash s)
    pub expelled : (s : State) (device_id : String) → P s → P (revoke_all device_id s)
    pub issued :
        (s : State) (domain_id device_id : String)
        → P s
        → P (
            keep_credentials
              (access_for lib cfg domain_id device_id m)
              (refresh_for lib cfg domain_id device_id m)
              s)
    pub held : (s : State) (id : DeviceIdentity) → P s → P (hold_device id s)
    pub consumed :
        (s : State) (ticket_id : String) (max_uses : ℤ)
        → P s
        → P (record s { tickets = (consume_in ticket_id max_uses s.tickets).0 })
    pub connected :
        (s : State) (connections : Map.Map String ConnectionState)
        → P s
        → P (record s { connections = connections })

module _ {m : Moment} {P : State → Type 0} (quiet : IsQuiet m P) where
  put_back-kept :
      {A : Type 0} (s : State) (old : RelayDatabase) (r : RelayDatabase × Outcome Error A)
      → s.repo ≡ some old
      → P s
      → P (iscp.Relay.put_back s r).0
  put_back-kept s old (db, stop e) q p = quiet.repo s old db q p
  put_back-kept s old (db, next a) q p = quiet.repo s old db q p

  in_repo_of-kept :
      {A : Type 0} (statement : Statement iscp.Repository.Relay.Tables A) (s : State)
      (repo : Option RelayDatabase)
      → s.repo ≡ repo
      → P s
      → P (iscp.Relay.in_repo_of statement s repo).0
  in_repo_of-kept statement s none q p = p
  in_repo_of-kept statement s (some db) q p = put_back-kept s db (statement db) q p

  pub Keeps-in_repo :
      {A : Type 0} (statement : Statement iscp.Repository.Relay.Tables A)
      → Keeps P (in_repo statement)
  unfolding in_repo
  Keeps-in_repo statement = record { after = λ s p. in_repo_of-kept statement s s.repo refl p }

  Keeps-or_cache :
      (key : String) (expires_at : ℕ) (stored : Option Bool)
      → Keeps P (or_cache key expires_at m.now stored)
  unfolding or_cache
  Keeps-or_cache key expires_at none = record { after = λ s p. quiet.replay s key expires_at p }
  Keeps-or_cache key expires_at (some used) = Keeps-finish used

  module _ (lib : Library) (cfg : Config) where
    Keeps-use_nonce :
        (proof : DeviceProof) (expires_at : ℕ) → Keeps P (use_nonce lib cfg proof expires_at m.now)
    unfolding use_nonce
    Keeps-use_nonce proof expires_at = search (keeps_rules, Keeps-in_repo, Keeps-or_cache)

    pub Keeps-check_proof :
        (id : DeviceIdentity) (proof : DeviceProof) (audience challenge : String) (ttl : ℕ)
        → Keeps P (check_proof lib cfg id proof audience challenge ttl m)
    unfolding check_proof
    Keeps-check_proof id proof audience challenge ttl =
        search (keeps_rules, Keeps-use_nonce) depth 30

module _ {lib : Library} {cfg : Config} {m : Moment} {P : State → Type 0}
    (stable : IsStable lib cfg m P) where
  Keeps-stored_identity :
      (row : Option (Outcome Error iscp.Repository.Relay.RelayDevice))
      → Keeps P (stored_identity row)
  unfolding stored_identity
  Keeps-stored_identity none = search (keeps_rules)
  Keeps-stored_identity (some (stop e)) = search (keeps_rules)
  Keeps-stored_identity (some (next row)) = search (keeps_rules)

  Keeps-lookup_identity :
      (domain_id device_id : String) → Keeps P (lookup_identity domain_id device_id)
  unfolding lookup_identity
  Keeps-lookup_identity domain_id device_id =
      search (keeps_rules, Keeps-in_repo stable.quiet, Keeps-stored_identity) depth 30

  Keeps-verify_access_proof :
      (r : Request) (cred : Credential) (hash : Bytes)
      → Keeps P (verify_access_proof lib cfg r cred hash m)
  unfolding verify_access_proof
  Keeps-verify_access_proof r cred hash =
      search (keeps_rules, Keeps-lookup_identity, Keeps-check_proof stable.quiet) depth 30

  Keeps-found_row :
      (row : Option (Outcome Error iscp.Repository.Relay.RelayCredential)) → Keeps P (found_row row)
  unfolding found_row
  Keeps-found_row none = search (keeps_rules)
  Keeps-found_row (some (stop e)) = search (keeps_rules)
  Keeps-found_row (some (next row)) = search (keeps_rules)

  Keeps-find_access :
      (hash : Bytes) (held : Option Credential) → Keeps P (find_access lib cfg hash m.now held)
  unfolding find_access
  Keeps-find_access hash none =
      search (keeps_rules, Keeps-in_repo stable.quiet, Keeps-found_row) depth 30
  Keeps-find_access hash (some c) = search (keeps_rules)

  Keeps-retire_expired :
      (hash : Bytes) → Keeps P (iscp.Effect.update {E = Error} (retire_expired hash m.now))
  Keeps-retire_expired hash =
      Keeps-update (retire_expired hash m.now) (λ s p. stable.retired s hash p)

  pub Keeps-authenticate_access : (r : Request) → Keeps P (authenticate_access lib cfg r m)
  unfolding authenticate_access
  Keeps-authenticate_access r =
      search (keeps_rules, Keeps-retire_expired, Keeps-find_access, Keeps-verify_access_proof) depth
        30

  Keeps-store_credentials :
      (access refresh : Credential) → Keeps P (store_credentials lib cfg access refresh m)
  unfolding store_credentials
  Keeps-store_credentials access refresh = search (keeps_rules, Keeps-in_repo stable.quiet) depth 30

  Keeps-keep_credentials :
      (domain_id device_id : String)
      → Keeps P (
          iscp.Effect.update {E = Error} (
            keep_credentials
              (access_for lib cfg domain_id device_id m)
              (refresh_for lib cfg domain_id device_id m)))
  Keeps-keep_credentials domain_id device_id =
      Keeps-update
        (keep_credentials (access_for lib cfg domain_id device_id m)
          (refresh_for lib cfg domain_id device_id m))
        (λ s p. stable.issued s domain_id device_id p)

  pub Keeps-issue_credentials :
      (domain_id device_id : String) → Keeps P (issue_credentials lib cfg domain_id device_id m)
  unfolding issue_credentials
  Keeps-issue_credentials domain_id device_id =
      search (keeps_rules, Keeps-store_credentials, Keeps-keep_credentials) depth 30

  Keeps-revoke_held : (hash : Bytes) → Keeps P (iscp.Effect.update {E = Error} (revoke_held hash))
  Keeps-revoke_held hash = Keeps-update (revoke_held hash) (λ s p. stable.spent s hash p)

  pub Keeps-revoke_refresh_credential :
      (token : String) → Keeps P (revoke_refresh_credential lib cfg token m)
  unfolding revoke_refresh_credential
  Keeps-revoke_refresh_credential token =
      search (keeps_rules, Keeps-in_repo stable.quiet, Keeps-revoke_held) depth 30

  pub Keeps-find_refresh :
      (hash : Bytes) (held : Option Credential) → Keeps P (find_refresh lib cfg hash m.now held)
  unfolding find_refresh
  Keeps-find_refresh hash none =
      search (keeps_rules, Keeps-in_repo stable.quiet, Keeps-found_row) depth 30
  Keeps-find_refresh hash (some c) = search (keeps_rules)

  pub Keeps-required :
      {A : Type 0} (found : Option A) (refusal : Response) → Keeps P (required found refusal)
  unfolding required
  Keeps-required none refusal = Keeps-stop_with refusal
  Keeps-required (some a) refusal = Keeps-finish a

  pub Keeps-refresh_with : (token : String) → Keeps P (refresh_with lib cfg token m)
  unfolding refresh_with
  Keeps-refresh_with token =
      search
        (
          keeps_rules, Keeps-find_refresh, Keeps-required, Keeps-revoke_refresh_credential,
          Keeps-issue_credentials,
        )
        depth 30

  pub Keeps-refresh_access : (r : Request) → Keeps P (refresh_access lib cfg r m)
  unfolding refresh_access
  Keeps-refresh_access r = search (keeps_rules, Keeps-refresh_with)

  Keeps-check_revoker :
      (r : Request) (device_id : String) (revoker : Outcome Error Credential)
      → Keeps P (check_revoker lib cfg r device_id revoker)
  unfolding check_revoker
  Keeps-check_revoker r device_id (stop e) = search (keeps_rules)
  Keeps-check_revoker r device_id (next cred) = search (keeps_rules)

  Keeps-revoke_all :
      (device_id : String) → Keeps P (iscp.Effect.update {E = Response} (revoke_all device_id))
  Keeps-revoke_all device_id =
      Keeps-update (revoke_all device_id) (λ s p. stable.expelled s device_id p)

  pub Keeps-revoke_with :
      (device_id : String) (r : Request) → Keeps P (revoke_with lib cfg device_id r m)
  unfolding revoke_with
  Keeps-revoke_with device_id r =
      search
        (
          keeps_rules,
          Keeps-authenticate_access,
          Keeps-check_revoker,
          Keeps-revoke_all,
          Keeps-in_repo stable.quiet,
        )
        depth 30

  pub Keeps-revoke_access : (r : Request) → Keeps P (revoke_access lib cfg r m)
  unfolding revoke_access
  Keeps-revoke_access r = search (keeps_rules, Keeps-revoke_with)
