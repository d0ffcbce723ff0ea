-- ===== src/Relay/Runs/Refresh.antt =====
-- services/relay-reference/internal/relay/server.go, refreshAccess: a refresh token is spent once.
use iscp.Prelude.{
  ◌≡◌, ◌≢◌, refl, String, true, some, List, All, Bytes, bytes_eq, string_eq, ◌==◌, if◌then◌else◌,
  arith, ne→false, Option-cases, Bool-cases, inl, inr,
}
use iscp.Prelude.Map
use iscp.Prelude.Map.{Map, get-put, get-map_values}
use iscp.Errors.{ok, new, access_invalid}
use iscp.Effect.{stop, next, ◌>>=◌, ◌>>◌, pure_call, stop_if, stop_with, read, on_error, finish}
use iscp.Effect.Keeps.{keeps_rules}
use iscp.Effect.Leads.{Leads, Leads-bind, Leads-then, Keeps→Leads, Leads-on_error, Leads-update}
use iscp.Server.Httpx.{decode_json}
use iscp.Relay.{Config, State, Credential, Request, Moment, Response, Library, serve, write_error}
use iscp.Relay.Credentials.{
  hash_of, refresh_with, refresh_access, revoke_refresh_credential, revoke_held, revoke_all,
  retire_expired, keep_credentials, access_for, refresh_for, find_refresh, required, revoke,
}
use iscp.Relay.Registration.{hold_device}
use iscp.Relay.Stability.{
  IsStable, Keeps-find_refresh, Keeps-required, Keeps-issue_credentials, Keeps-in_repo,
}
use iscp.Relay.Runs.{Call, moment_of, run, run-kept}

-- The server holds a refresh credential under the hash, and `good` is true of it.
abbrev Holds : (Credential → Type 0) → Bytes → State → Type 0
Holds good hash s = (c : Credential) × (Map.get s.refresh hash ≡ some c) × good c

abbrev IsRevoked : Credential → Type 0
IsRevoked c = c.revoked ≡ true

-- A request's own tokens are new: they do not hash as the token in question.
abbrev pub IsFresh : Library → Config → Bytes → Moment → Type 0
IsFresh lib cfg hash m = hash_of lib cfg m.refresh_token ≢ hash

module _ (good : Credential → Type 0) (kept : (c : Credential) → good c → good (revoke c))
    (hash : Bytes) where
  Holds-revoke_held :
      (s : State) (other : Bytes) → Holds good hash s → Holds good hash (revoke_held other s)
  unfolding revoke_held
  Holds-revoke_held s other (c, found, g) = elim (Option-cases (Map.get s.refresh other)) [
    | inl none' ↦ rw none' (c, found, g)
    | inr (d, found') ↦ elim (Bool-cases (other == hash)) [
      | inl same ↦ (
        revoke c,
        ground (arith, get-put s.refresh other hash (revoke d), bytes_eq.beq_iff other hash),
        kept c g,
      )
      | inr not_same ↦ (c, ground (arith, get-put s.refresh other hash (revoke d)), g)
    ]
  ]

  Holds-revoke_all :
      (s : State) (device_id : String)
      → Holds good hash s
      → Holds good hash (revoke_all device_id s)
  unfolding revoke_all
  Holds-revoke_all s device_id (c, found, g) =
      let revoke_own = λ (c : Credential). if c.device_id == device_id then revoke c else c in
      elim (Bool-cases (c.device_id == device_id)) [
        | inl own ↦ (revoke c, ground (arith, get-map_values revoke_own s.refresh hash), kept c g)
        | inr other ↦ (c, ground (arith, get-map_values revoke_own s.refresh hash), g)
      ]

  module _ (lib : Library) (cfg : Config) (m : Moment) (fresh : IsFresh lib cfg hash m) where
    Holds-issued :
        (s : State) (domain_id device_id : String)
        → Holds good hash s
        → Holds good hash (
            keep_credentials
              (access_for lib cfg domain_id device_id m)
              (refresh_for lib cfg domain_id device_id m)
              s)
    unfolding keep_credentials refresh_for
    Holds-issued s domain_id device_id (c, found, g) =
        (c, rw (get-put, ne→false (hash_of lib cfg m.refresh_token) hash fresh) found, g)

    Holds-stable : IsStable lib cfg m (Holds good hash)
    unfolding retire_expired hold_device
    Holds-stable = record {
      quiet = record { repo = λ s old db e p. p; replay = λ s key expires_at p. p };
      limiter = λ s key p. p;
      enqueued = λ s raw e valid p. p;
      dequeued = λ s domain_id recipient limit p. p;
      listed = λ s p. p;
      retired = λ s other p. p;
      spent = Holds-revoke_held;
      expelled = Holds-revoke_all;
      issued = Holds-issued;
      held = λ s id p. p;
      consumed = λ s ticket_id max_uses p. p;
      connected = λ s connections p. p;
    }

module _ (lib : Library) (cfg : Config) (hash : Bytes) where
  Holds-spent : (s : State) → Holds (λ c. Unit) hash s → Holds IsRevoked hash (revoke_held hash s)
  unfolding revoke_held
  Holds-spent s (c, found, g) = (
    revoke c,
    ground (arith, get-put s.refresh hash hash (revoke c), bytes_eq.beq_iff hash hash),
    refl,
  )

module _ (lib : Library) (cfg : Config) (token : String) (m : Moment)
    (fresh : IsFresh lib cfg (hash_of lib cfg token) m) where
  held : IsStable lib cfg m (Holds (λ c. Unit) (hash_of lib cfg token))
  held = Holds-stable (λ c. Unit) (λ c g. tt) (hash_of lib cfg token) lib cfg m fresh

  revoked : IsStable lib cfg m (Holds IsRevoked (hash_of lib cfg token))
  revoked = Holds-stable IsRevoked (λ c g. refl) (hash_of lib cfg token) lib cfg m fresh

  revoke_refresh_credential-Leads :
      Leads
        (Holds (λ c. Unit) (hash_of lib cfg token))
        (Holds IsRevoked (hash_of lib cfg token))
        (revoke_refresh_credential lib cfg token m)
  unfolding revoke_refresh_credential
  revoke_refresh_credential-Leads =
      Leads-then _ _ (Leads-update _ (λ s p. Holds-spent lib cfg (hash_of lib cfg token) s p))
        (Keeps→Leads _ (search (keeps_rules, Keeps-in_repo revoked.quiet)))

  -- A refresh that succeeds revokes the credential that it was made with.
  refresh_with-Leads :
      Leads
        (Holds (λ c. Unit) (hash_of lib cfg token))
        (Holds IsRevoked (hash_of lib cfg token))
        (refresh_with lib cfg token m)
  unfolding refresh_with
  refresh_with-Leads = Leads-bind _ _ (Keeps→Leads _ (search (keeps_rules))) (λ h.
      Leads-bind _ _ (Keeps→Leads _ (search (keeps_rules, Keeps-find_refresh held))) (λ found.
        Leads-bind _ _ (Keeps→Leads _ (Keeps-required held _ _)) (λ cred.
          Leads-then _ _ (Leads-on_error _ _ revoke_refresh_credential-Leads)
            (Keeps→Leads _ (search (keeps_rules, Keeps-issue_credentials revoked))))))

abbrev pub invalid_refresh : Response
invalid_refresh = write_error 401 (new access_invalid "refresh credential invalid")

module _ (lib : Library) (cfg : Config) (token : String) where
  refresh_with-refused :
      (m : Moment) (s : State)
      → Holds IsRevoked (hash_of lib cfg token) s
      → (refresh_with lib cfg token m s).1 ≡ stop invalid_refresh
  unfolding refresh_with ◌>>=◌ read on_error find_refresh finish required stop_with
  refresh_with-refused m s (c, found, g) = ground (arith, found, g)

  -- The body of the request names the token.
  abbrev pub Names : Request → Type 0
  Names r = decode_json lib.decode_refresh r.body ≡ ok token

  refresh_access-as :
      (r : Request) (m : Moment) (s : State)
      → Names r
      → r.method ≡ "POST"
      → refresh_access lib cfg r m s ≡ refresh_with lib cfg token m s
  unfolding refresh_access ◌>>=◌ ◌>>◌ stop_if on_error pure_call
  refresh_access-as r m s names post = rw ((string_eq.beq_iff r.method "POST").1 post, names) refl

  -- A refresh token that the server holds gets new credentials once: after a refresh with it that
  -- ended without a refusal, and after any run of requests whose own new tokens hash differently, a
  -- well-formed refresh with it is answered with 401.
  pub refresh_access-once :
      (r again : Request) (m later : Moment) (s : State) (c : Credential) (answer : Response)
      (cs : List Call)
      → Names r
      → r.method ≡ "POST"
      → Map.get s.refresh (hash_of lib cfg token) ≡ some c
      → (refresh_access lib cfg r m s).1 ≡ next answer
      → IsFresh lib cfg (hash_of lib cfg token) m
      → All (λ call. IsFresh lib cfg (hash_of lib cfg token) (moment_of call)) cs
      → Names again
      → again.method ≡ "POST"
      → (serve
          (refresh_access lib cfg again later)
          (run lib cfg cs (refresh_access lib cfg r m s).0)).1
        ≡ invalid_refresh
  refresh_access-once r again m later s c answer cs names post found answered fresh others names'
        post' =
      let hash = hash_of lib cfg token in
      let first = refresh_access-as r m s names post in
      let spent =
        (refresh_with-Leads lib cfg token m fresh).to s (c, found, tt) answer
          (rw first at answered) in
      let after' =
        run-kept (Holds IsRevoked hash) (IsFresh lib cfg hash) (λ n f. revoked lib cfg token n f) cs
          (refresh_access lib cfg r m s).0 others (rw first spent) in
      rw
        (refresh_access-as again later (run lib cfg cs (refresh_access lib cfg r m s).0) names'
          post')
        (rw (refresh_with-refused later (run lib cfg cs (refresh_access lib cfg r m s).0) after')
          refl)
