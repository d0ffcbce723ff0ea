-- ===== src/Relay/Registration/Rows.antt =====
-- services/relay-reference/internal/relay/server.go: the rows of the repository after a registration
-- that is refused.
use iscp.Prelude.{
  ℕ, ◌≡◌, refl, String, Bool, true, false, Option, none, some, List, [], ◌∷◌, string_eq,
}
use iscp.Prelude.Int.{ℤ}
use iscp.Errors.{Error}
use iscp.Effect.{Effect, Outcome, stop, next}
use iscp.Effect.Keeps.{Keeps, keeps_rules, Keeps-then, Keeps-bind, Keeps-pure_call}
use iscp.Effect.Spares.{
  Stops, Spares, Stops-finish, Stops-update, Stops-on_error, Stops-bind, Stops-then, Stops→Spares,
  Spares-bind, Spares-then,
}
use iscp.Identity.{DeviceIdentity, DeviceProof}
use iscp.Provisioning.{PairingTicketV3}
use iscp.Repository.{Database, Statement, exec}
use iscp.Repository.Relay.{RelayDatabase, RelayDevice, CredentialRow, Tables}
use iscp.Repository.Nonces.{use_proof_nonce}
use iscp.Relay.{
  Config, State, Request, Moment, Response, Library, RegisterTicketRequest, in_repo, write_error,
}
use iscp.Relay.Access.{use_nonce, or_cache, check_proof}
use iscp.Relay.Credentials.{required}
use iscp.Relay.Registration.{
  consume_ticket, bind_identity, register_with_signed_ticket, register_with_legacy_ticket,
  register_by, register_with_ticket,
}

-- The rows of the devices, and of the access and refresh credentials.
abbrev pub Rows : Type 0
Rows = List RelayDevice × List CredentialRow × List CredentialRow

abbrev pub rows_of : Tables → Rows
rows_of t = (t.devices, t.access_tokens, t.refresh_tokens)

abbrev pub rows : Option RelayDatabase → Option Rows
rows none = none
rows (some db) = some (rows_of db.tables)

-- The answer to a failure of the repository or of the random source.
abbrev pub IsFailure : Response → Type 0
IsFailure answer = (e : Error) × (answer ≡ write_error 500 e)

abbrev Stores : Rows → RelayDatabase → Type 0
Stores h db = rows_of db.tables ≡ h

module _ {A : Type 0} (h : Rows) where
  answer_in-Stores :
      (effect : Tables → Tables × Outcome Error A) (t : Tables) (faults : List Bool)
      → ((t : Tables) → rows_of (effect t).0 ≡ rows_of t)
      → rows_of t ≡ h
      → Stores h (iscp.Repository.answer_in effect t faults).0
  answer_in-Stores effect t [] same p = rw same p
  answer_in-Stores effect t (true ∷ faults) same p = p
  answer_in-Stores effect t (false ∷ faults) same p = rw same p

  Keeps-exec :
      (effect : Tables → Tables × Outcome Error A)
      → ((t : Tables) → rows_of (effect t).0 ≡ rows_of t)
      → Keeps (Stores h) (exec effect)
  unfolding exec
  Keeps-exec effect same = record {
    after = λ db p. answer_in-Stores effect db.tables db.faults same p;
  }

abbrev pub Holds : Option Rows → State → Type 0
Holds h s = rows s.repo ≡ h

module _ {A : Type 0} (statement : Statement Tables A)
    (kept : (h : Rows) → Keeps (Stores h) statement) where
  put_back-rows :
      (s : State) (db : RelayDatabase) (r : RelayDatabase × Outcome Error A)
      → rows_of r.0.tables ≡ rows_of db.tables
      → rows (iscp.Relay.put_back s r).0.repo ≡ some (rows_of db.tables)
  put_back-rows s db (db', stop e) same = rw same refl
  put_back-rows s db (db', next a) same = rw same refl

  in_repo_of-rows :
      (s : State) (repo : Option RelayDatabase)
      → s.repo ≡ repo
      → rows (iscp.Relay.in_repo_of statement s repo).0.repo ≡ rows repo
  in_repo_of-rows s none q = rw q refl
  in_repo_of-rows s (some db) q =
      put_back-rows s db (statement db) ((kept (rows_of db.tables)).after db refl)

  Keeps-in_repo : (h : Option Rows) → Keeps (Holds h) (in_repo statement)
  unfolding in_repo
  Keeps-in_repo h = record { after = λ s p. rw (in_repo_of-rows s s.repo refl) p }

module _ (lib : Library) (cfg : Config) (m : Moment) (h : Option Rows) where
  Keeps-use_proof_nonce :
      (proof : DeviceProof) (expires_at : ℕ) (r : Rows)
      → Keeps (Stores r) (
          use_proof_nonce lib.primitives proof.domain_id proof.device_id proof.audience proof.nonce
            expires_at m.now)
  unfolding use_proof_nonce
  Keeps-use_proof_nonce proof expires_at r = Keeps-then _ _ (Keeps-pure_call _) (
      Keeps-then _ _ (Keeps-pure_call _)
        (Keeps-then _ _ (Keeps-exec r _ (λ t. refl)) (Keeps-exec r _ (λ t. refl))))

  Keeps-or_cache :
      (key : String) (expires_at : ℕ) (stored : Option Bool)
      → Keeps (Holds h) (or_cache key expires_at m.now stored)
  unfolding or_cache iscp.Effect.finish
  Keeps-or_cache key expires_at none = record { after = λ s p. p }
  Keeps-or_cache key expires_at (some used) = record { after = λ s p. p }

  Keeps-use_nonce :
      (proof : DeviceProof) (expires_at : ℕ)
      → Keeps (Holds h) (use_nonce lib cfg proof expires_at m.now)
  unfolding use_nonce
  Keeps-use_nonce proof expires_at =
      Keeps-bind _ _ (Keeps-in_repo _ (Keeps-use_proof_nonce proof expires_at) h)
        (Keeps-or_cache _ expires_at)

  Keeps-check_proof :
      (id : DeviceIdentity) (proof : DeviceProof) (audience challenge : String) (ttl : ℕ)
      → Keeps (Holds h) (check_proof lib cfg id proof audience challenge ttl m)
  unfolding check_proof
  Keeps-check_proof id proof audience challenge ttl = search (keeps_rules, Keeps-use_nonce) depth 30

  Keeps-consume_ticket :
      (ticket_id : String) (max_uses : ℤ) → Keeps (Holds h) (consume_ticket ticket_id max_uses)
  unfolding consume_ticket
  Keeps-consume_ticket ticket_id max_uses = record { after = λ s p. p }

  Stops-bind_identity : (id : DeviceIdentity) → Stops IsFailure (bind_identity lib cfg id m)
  unfolding bind_identity
  Stops-bind_identity id = Stops-then _ _ (Stops-on_error _ _ (λ e. (e, refl))) (
      Stops-bind _ _ (Stops-on_error _ _ (λ e. (e, refl)))
        (λ issued. Stops-then _ _ (Stops-update _) (Stops-finish _)))

  Spares-bind_identity :
      (id : DeviceIdentity) → Spares (Holds h) IsFailure (bind_identity lib cfg id m)
  Spares-bind_identity id = Stops→Spares _ (Stops-bind_identity id)

  Keeps-required :
      {A : Type 0} (found : Option A) (refusal : Response)
      → Keeps (Holds h) (required found refusal)
  unfolding required
  Keeps-required none refusal = search (keeps_rules)
  Keeps-required (some a) refusal = search (keeps_rules)

  Spares-legacy :
      (req : RegisterTicketRequest)
      → Spares (Holds h) IsFailure (register_with_legacy_ticket lib cfg req m)
  unfolding register_with_legacy_ticket
  Spares-legacy req = Spares-then _ _ (search (keeps_rules)) (
      Spares-then _ _ (search (keeps_rules, Keeps-check_proof)) (
        Spares-then _ _ (search (keeps_rules, Keeps-consume_ticket))
          (Spares-bind_identity req.identity)))

  Spares-signed :
      (ticket : PairingTicketV3) (req : RegisterTicketRequest)
      → Spares (Holds h) IsFailure (register_with_signed_ticket lib cfg ticket req m)
  unfolding register_with_signed_ticket
  Spares-signed ticket req = Spares-bind _ _ (Keeps-required _ _) (λ issuer.
      Spares-then _ _ (search (keeps_rules)) (
        Spares-then _ _ (search (keeps_rules)) (
          Spares-then _ _ (search (keeps_rules)) (
            Spares-then _ _ (search (keeps_rules, Keeps-check_proof)) (
              Spares-bind _ _ (search (keeps_rules)) (λ roles.
                Spares-then _ _ (search (keeps_rules, Keeps-consume_ticket))
                  (Spares-bind_identity req.identity)))))))

  Spares-register_by :
      (ticket : Option PairingTicketV3) (req : RegisterTicketRequest)
      → Spares (Holds h) IsFailure (register_by lib cfg ticket req m)
  unfolding register_by
  Spares-register_by none req = Spares-legacy req
  Spares-register_by (some ticket) req = Spares-signed ticket req

  pub Spares-register_with_ticket :
      (r : Request) → Spares (Holds h) IsFailure (register_with_ticket lib cfg r m)
  unfolding register_with_ticket
  Spares-register_with_ticket r =
      Spares-then _ _ (search (keeps_rules))
        (Spares-bind _ _ (search (keeps_rules)) (λ req. Spares-register_by req.ticket req))
