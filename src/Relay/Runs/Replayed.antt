-- ===== src/Relay/Runs/Replayed.antt =====
-- services/relay-reference/internal/relay/server.go, verifyProof: a proof of possession is accepted
-- once while it lasts.
use iscp.Prelude.{
  ℕ, ◌+◌, ◌<◌, ◌≡◌, refl, String, Bool, true, false, not, none, List, All, string_eq, is_blank,
  arith, Bool-cases, inl, inr, ◌⊎◌, ◌∙◌,
}
use iscp.Errors.{Error, ok, new, replay_detected, Result-cases}
use iscp.Effect.{
  Outcome, stop, next, pure_call, stop_if, bind-next, then-next, then-stop, stop_if-next,
  stop_if-stop,
}
use iscp.Identity.{DeviceIdentity, DeviceProof, verify_proof}
use iscp.Server.Replay.{use_key}
use iscp.Server.Replay.Uses.{HeldFor, HeldFor-use_key, HeldFor-used, use_key-exact}
use iscp.Repository.{Statement}
use iscp.Repository.Relay.{Tables}
use iscp.Repository.Nonces.{use_proof_nonce}
use iscp.Relay.{Config, State, Moment, Library, in_repo-none}
use iscp.Relay.Access.{check_proof, use_nonce, nonce_key, or_cache}
use iscp.Relay.Credentials.{revoke_held, revoke_all, retire_expired, keep_credentials}
use iscp.Relay.Registration.{hold_device}
use iscp.Relay.Stability.{IsStable}
use iscp.Relay.Runs.{Call, moment_of, run, run-kept}

-- The statement that a check runs where there is a repository.
abbrev stored_nonce : Library → DeviceProof → ℕ → ℕ → Statement Tables Bool
stored_nonce lib proof expires_at now =
    use_proof_nonce lib.primitives proof.domain_id proof.device_id proof.audience proof.nonce
      expires_at now

-- The relay works in memory, and its cache holds the key until `e`.
abbrev IsUsed : String → ℕ → State → Type 0
IsUsed key e s = (s.repo ≡ none) × HeldFor key e s.replay

IsUsed-stable :
    (lib : Library) (cfg : Config) (key : String) (e : ℕ) (m : Moment)
    → m.now < e
    → IsStable lib cfg m (IsUsed key e)
unfolding retire_expired hold_device revoke_held revoke_all keep_credentials
IsUsed-stable lib cfg key e m before = record {
  quiet = record {
    repo = λ s old db q p. absurd (cc (q, p.0));
    replay = λ s j exp p. (p.0, HeldFor-use_key key e s.replay j exp m.now p.1 before);
  };
  limiter = λ s key p. p;
  enqueued = λ s raw e valid p. p;
  dequeued = λ s domain_id recipient limit p. p;
  listed = λ s p. p;
  retired = λ s other p. p;
  spent = λ s other p. p;
  expelled = λ s other p. p;
  issued = λ s domain_id device_id p. p;
  held = λ s id p. p;
  consumed = λ s ticket_id max_uses p. p;
  connected = λ s connections p. p;
}

-- In memory, the nonce is marked in the cache.
use_nonce-memory :
    (lib : Library) (cfg : Config) (proof : DeviceProof) (e now : ℕ) (s : State)
    → s.repo ≡ none
    → use_nonce lib cfg proof e now s ≡ (
      record s { replay = (use_key (nonce_key proof) e now s.replay).0 },
      next (use_key (nonce_key proof) e now s.replay).1,
    )
unfolding use_nonce or_cache
use_nonce-memory lib cfg proof e now s memory =
    bind-next _ _ s s none (in_repo-none (stored_nonce lib proof e now) s memory)

module _ (lib : Library) (cfg : Config) (id : DeviceIdentity) (proof : DeviceProof)
    (audience challenge : String) (ttl : ℕ) (m : Moment) (s : State) where
  attempted : State × Outcome Error (Unit {0})
  attempted = check_proof lib cfg id proof audience challenge ttl m s

  marked : iscp.Server.Replay.Cache × Bool
  marked = use_key (nonce_key proof) (proof.issued_at + ttl) m.now s.replay

  -- In memory, a check fails before it comes to the cache, or ends as the cache says.
  check_proof-memory :
      s.repo ≡ none
      → ((failure : Error) × (attempted ≡ (s, stop failure)))
        ⊎ (attempted
            ≡ stop_if
                (not marked.1)
                (new replay_detected "proof nonce replay detected")
                (record s { replay = marked.0 }))
  unfolding attempted marked check_proof pure_call
  check_proof-memory memory = elim (Bool-cases (is_blank proof.nonce)) [
    | inl blank ↦ inl (_, stop_if-stop (is_blank proof.nonce) _ _ s blank)
    | inr named ↦
        elim (Result-cases (verify_proof lib.primitives id proof audience challenge m.now ttl)) [
          | inr (e, bad) ↦ inl (e, stop_if-next _ _ _ s named ∙ then-stop _ _ s s e (rw bad refl))
          | inl (u, good) ↦ inr (
              stop_if-next _ _ _ s named
              ∙ then-next _ _ s s (rw good refl)
              ∙ bind-next _ _ s _ _
                  (use_nonce-memory lib cfg proof (proof.issued_at + ttl) m.now s memory))
        ]
  ]

  -- What an accepted proof leaves.
  check_proof-IsUsed :
      s.repo ≡ none
      → attempted.1 ≡ next tt
      → IsUsed (nonce_key proof) (proof.issued_at + ttl) attempted.0
  unfolding stop_if marked
  check_proof-IsUsed memory accepted = elim (check_proof-memory memory) [
    | inl (e, failed) ↦ cc (accepted, failed)
    | inr ran ↦ elim (Bool-cases marked.1) [
      | inr refused ↦ absurd (ground (arith, accepted, ran, refused))
      | inl taken ↦
          rw (ran, taken)
            (memory, HeldFor-used (nonce_key proof) (proof.issued_at + ttl) m.now s.replay taken)
    ]
  ]

  -- A proof whose nonce is held is not accepted.
  check_proof-refused :
      (e : ℕ)
      → IsUsed (nonce_key proof) e s
      → m.now < e
      → (failure : Error) × (attempted.1 ≡ stop failure)
  unfolding stop_if marked
  check_proof-refused e (memory, held) before = elim (check_proof-memory memory) [
    | inl (failure, failed) ↦ (failure, rw failed refl)
    | inr ran ↦
        let refused : marked.1 ≡ false = ground (
          arith,
          (use_key-exact (nonce_key proof) (proof.issued_at + ttl) m.now s.replay).0,
          held,
        ) in
        (new replay_detected "proof nonce replay detected", rw (ran, refused) refl)
  ]

-- What it takes, in memory, for a proof to be accepted.
pub check_proof-accepts :
    (lib : Library) (cfg : Config) (id : DeviceIdentity) (proof : DeviceProof)
    (audience challenge : String) (ttl : ℕ) (m : Moment) (s : State)
    → s.repo ≡ none
    → is_blank proof.nonce ≡ false
    → verify_proof lib.primitives id proof audience challenge m.now ttl ≡ ok tt
    → (use_key (nonce_key proof) (proof.issued_at + ttl) m.now s.replay).1 ≡ true
    → check_proof lib cfg id proof audience challenge ttl m s ≡ (
      record s { replay = (use_key (nonce_key proof) (proof.issued_at + ttl) m.now s.replay).0 },
      next tt,
    )
unfolding check_proof pure_call stop_if
check_proof-accepts lib cfg id proof audience challenge ttl m s memory named good taken =
    stop_if-next _ _ _ s named
    ∙ then-next _ _ s s (rw good refl)
    ∙ bind-next _ _ s _ _ (use_nonce-memory lib cfg proof (proof.issued_at + ttl) m.now s memory)
    ∙ rw taken refl

-- In a relay without a repository, a proof that was accepted is accepted by no later check, whatever
-- identity, audience, challenge or window that check is for, after any run of requests, as long as all
-- of them happen before the proof runs out.
pub check_proof-once :
    (lib : Library) (cfg : Config) (id id' : DeviceIdentity) (proof : DeviceProof)
    (audience audience' challenge challenge' : String) (ttl ttl' : ℕ) (m later : Moment) (s : State)
    (cs : List Call)
    → s.repo ≡ none
    → (check_proof lib cfg id proof audience challenge ttl m s).1 ≡ next tt
    → All (λ call. (moment_of call).now < proof.issued_at + ttl) cs
    → later.now < proof.issued_at + ttl
    → (failure : Error) × ((check_proof lib cfg id' proof audience' challenge' ttl' later
          (run lib cfg cs (check_proof lib cfg id proof audience challenge ttl m s).0)).1
        ≡ stop failure)
unfolding attempted
check_proof-once lib cfg id id' proof audience audience' challenge challenge' ttl ttl' m later s cs
      memory accepted times before =
    let e = proof.issued_at + ttl in
    let key = nonce_key proof in
    check_proof-refused lib cfg id' proof audience' challenge' ttl' later _ e
      (run-kept (IsUsed key e) (λ n. n.now < e) (λ n h. IsUsed-stable lib cfg key e n h) cs _ times
        (check_proof-IsUsed lib cfg id proof audience challenge ttl m s memory accepted))
      before
