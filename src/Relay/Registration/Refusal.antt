-- ===== src/Relay/Registration/Refusal.antt =====
-- services/relay-reference/internal/relay/server.go: a registration that fails registers nothing,
-- in memory and, unless the answer is 500, in the repository.
use iscp.Prelude.{◌⊎◌, ◌≡◌, refl, String, Option, none, some, Bytes, string_eq}
use iscp.Prelude.Int.{ℤ}
use iscp.Prelude.Map.{Map}
use iscp.Effect.{stop}
use iscp.Effect.Keeps.{Keeps, keeps_rules}
use iscp.Effect.Refusals.{
  OnRefusal, Always-finish, Always-update, Always-then, OnRefusal-bind, OnRefusal-last,
  OnRefusal-then, OnRefusal-on_error, Always→OnRefusal,
}
use iscp.Identity.{DeviceIdentity}
use iscp.Provisioning.{PairingTicketV3}
use iscp.Relay.{
  Config, State, Credential, Request, Moment, Response, Library, RegisterTicketRequest,
}
use iscp.Relay.Credentials.{store_credentials, issue_credentials, required}
use iscp.Relay.Registration.{
  consume_ticket, persist_device, bind_identity, bind_self, register_with_signed_ticket,
  register_with_legacy_ticket, register_by, register_with_ticket,
}
use iscp.Relay.Registration.Rows.{rows, IsFailure, Spares-register_with_ticket}
use iscp.Relay.Stability.{IsQuiet, Keeps-in_repo, Keeps-check_proof}

-- The devices and the credentials that the server holds in memory.
abbrev pub Holdings : Type 0
Holdings = Map String DeviceIdentity × Map Bytes Credential × Map Bytes Credential

abbrev pub holdings : State → Holdings
holdings s = (s.devices, s.access, s.refresh)

abbrev Has : Holdings → State → Type 0
Has h s = holdings s ≡ h

module _ (lib : Library) (cfg : Config) (m : Moment) (h : Holdings) where
  Has-IsQuiet : IsQuiet m (Has h)
  Has-IsQuiet = record { repo = λ s old db e p. p; replay = λ s key expires_at p. p }

  store_credentials-Has :
      (access refresh : Credential) → Keeps (Has h) (store_credentials lib cfg access refresh m)
  unfolding store_credentials
  store_credentials-Has access refresh = search (keeps_rules, Keeps-in_repo Has-IsQuiet) depth 30

  issue_credentials-OnRefusal :
      (domain_id device_id : String)
      → OnRefusal (Has h) (issue_credentials lib cfg domain_id device_id m)
  unfolding issue_credentials
  issue_credentials-OnRefusal domain_id device_id =
      OnRefusal-then _ _ (search (store_credentials-Has))
        (Always→OnRefusal _ (Always-then _ _ (Always-update _) (Always-finish _)))

  persist_device-Has :
      (id : DeviceIdentity) (status : String) → Keeps (Has h) (persist_device lib cfg id status m)
  unfolding persist_device
  persist_device-Has id status = search (keeps_rules, Keeps-in_repo Has-IsQuiet) depth 30

  bind_identity-OnRefusal : (id : DeviceIdentity) → OnRefusal (Has h) (bind_identity lib cfg id m)
  unfolding bind_identity
  bind_identity-OnRefusal id = OnRefusal-then _ _ (search (keeps_rules, persist_device-Has)) (
      OnRefusal-last _ _ (OnRefusal-on_error _ _ (issue_credentials-OnRefusal _ _))
        (λ issued. Always-then _ _ (Always-update _) (Always-finish _)))

  bind_self-OnRefusal : (r : Request) → OnRefusal (Has h) (bind_self lib cfg r m)
  unfolding bind_self
  bind_self-OnRefusal r = OnRefusal-then _ _ (search (keeps_rules)) (
      OnRefusal-bind _ _ (search (keeps_rules)) (λ req. OnRefusal-then _ _ (search (keeps_rules)) (
        OnRefusal-then _ _ (search (keeps_rules, Keeps-check_proof Has-IsQuiet))
          (bind_identity-OnRefusal req.identity))))

  consume_ticket-Has :
      (ticket_id : String) (max_uses : ℤ) → Keeps (Has h) (consume_ticket ticket_id max_uses)
  unfolding consume_ticket
  consume_ticket-Has ticket_id max_uses = record { after = λ s p. p }

  required-Has :
      {A : Type 0} (found : Option A) (refusal : Response) → Keeps (Has h) (required found refusal)
  unfolding required
  required-Has none refusal = search (keeps_rules)
  required-Has (some a) refusal = search (keeps_rules)

  register_by-OnRefusal :
      (ticket : Option PairingTicketV3) (req : RegisterTicketRequest)
      → OnRefusal (Has h) (register_by lib cfg ticket req m)
  unfolding register_by register_with_legacy_ticket register_with_signed_ticket
  register_by-OnRefusal none req = OnRefusal-then _ _ (search (keeps_rules)) (
      OnRefusal-then _ _ (search (keeps_rules, Keeps-check_proof Has-IsQuiet)) (
        OnRefusal-then _ _ (search (keeps_rules, consume_ticket-Has))
          (bind_identity-OnRefusal req.identity)))
  register_by-OnRefusal (some ticket) req = OnRefusal-bind _ _ (required-Has _ _) (λ issuer.
      OnRefusal-then _ _ (search (keeps_rules)) (
        OnRefusal-then _ _ (search (keeps_rules)) (
          OnRefusal-then _ _ (search (keeps_rules)) (
            OnRefusal-then _ _ (search (keeps_rules, Keeps-check_proof Has-IsQuiet)) (
              OnRefusal-bind _ _ (search (keeps_rules)) (λ roles.
                OnRefusal-then _ _ (search (keeps_rules, consume_ticket-Has))
                  (bind_identity-OnRefusal req.identity)))))))

  register_with_ticket-OnRefusal :
      (r : Request) → OnRefusal (Has h) (register_with_ticket lib cfg r m)
  unfolding register_with_ticket
  register_with_ticket-OnRefusal r =
      OnRefusal-then _ _ (search (keeps_rules))
        (OnRefusal-bind _ _ (search (keeps_rules)) (λ req. register_by-OnRefusal req.ticket req))

-- A registration with a ticket that is refused, at whatever step, leaves the maps of devices and of
-- credentials that the server holds in memory as they were; and unless the answer is 500, it leaves
-- the rows of the devices and of the credentials in the repository as they were, too.
pub register_with_ticket-refused :
    (lib : Library) (cfg : Config) (r : Request) (m : Moment) (s : State) (refusal : Response)
    → (register_with_ticket lib cfg r m s).1 ≡ stop refusal
    → let s' = (register_with_ticket lib cfg r m s).0 in
      (holdings s' ≡ holdings s) × ((rows s'.repo ≡ rows s.repo) ⊎ IsFailure refusal)
register_with_ticket-refused lib cfg r m s refusal h = (
  (register_with_ticket-OnRefusal lib cfg m (holdings s) r).left s refl refusal h,
  (Spares-register_with_ticket lib cfg m (rows s.repo) r).spared s refl refusal h,
)

-- A registration without a ticket that is refused leaves the same maps as they were.
bind_self-refused :
    (lib : Library) (cfg : Config) (r : Request) (m : Moment) (s : State) (refusal : Response)
    → (bind_self lib cfg r m s).1 ≡ stop refusal
    → holdings (bind_self lib cfg r m s).0 ≡ holdings s
bind_self-refused lib cfg r m s refusal h =
    (bind_self-OnRefusal lib cfg m (holdings s) r).left s refl refusal h
