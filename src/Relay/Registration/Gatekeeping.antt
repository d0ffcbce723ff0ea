-- ===== src/Relay/Registration/Gatekeeping.antt =====
-- services/relay-reference/internal/relay/server.go: who gets registered in production.
use iscp.Prelude.{◌≡◌, refl, true, Option, none, some, string_eq, arith}
use text.Mathlib.TextEquality.{eq_iff}
use iscp.Errors.{ok}
use iscp.Effect.{
  Effect, Outcome, stop, next, ◌>>=◌, ◌>>◌, bind-inv, pure_call-inv, then-inv, stop_if-inv,
  checked-inv, on_error-next,
}
use iscp.Identity.{DeviceIdentity}
use iscp.Provisioning.{PairingTicketV3, verify_ticket_v3}
use iscp.Server.Httpx.{decode_json}
use iscp.Relay.{
  Config, State, Request, Moment, Response, Library, RegisterTicketRequest, is_production, seconds,
}
use iscp.Relay.Access.{check_proof}
use iscp.Relay.Credentials.{required}
use iscp.Relay.Registration.{
  register_with_signed_ticket, register_with_legacy_ticket, register_by, register_with_ticket,
}

-- The ticket is signed by the issuer of the configuration and bound to this relay, and the proof of
-- possession is for the ticket and is accepted.
abbrev pub IsInvited : Library → Config → Moment → State → RegisterTicketRequest → Type 0
IsInvited lib cfg m s req =
    (ticket : PairingTicketV3) × (issuer : DeviceIdentity) × (req.ticket ≡ some ticket)
    × (cfg.ticket_issuer ≡ some issuer)
    × (verify_ticket_v3 lib.primitives ticket issuer m.now ≡ ok tt)
    × (ticket.domain_id ≡ cfg.domain_id)
    × (ticket.relay_id ≡ cfg.relay_id)
    × (req.proof.challenge ≡ ticket.ticket_id)
    × ((check_proof lib cfg req.identity req.proof cfg.relay_id ticket.ticket_id (seconds 300) m
          s).1
        ≡ next tt)

required-next :
    {A : Type 0} (found : Option A) (refusal : Response) (s : State) (a : A)
    → (required found refusal s).1 ≡ next a
    → found ≡ some a
unfolding required iscp.Effect.stop_with iscp.Effect.finish
required-next none refusal s a h = cc
required-next (some b) refusal s a h = cc

required-state :
    {A : Type 0} (found : Option A) (refusal : Response) (s : State)
    → (required found refusal s).0 ≡ s
unfolding required iscp.Effect.stop_with iscp.Effect.finish
required-state none refusal s = refl
required-state (some b) refusal s = refl

module _ (lib : Library) (cfg : Config) (m : Moment) (s : State) (req : RegisterTicketRequest)
    (answer : Response) where
  signed-IsInvited :
      (ticket : PairingTicketV3)
      → req.ticket ≡ some ticket
      → (register_with_signed_ticket lib cfg ticket req m s).1 ≡ next answer
      → IsInvited lib cfg m s req
  unfolding register_with_signed_ticket
  signed-IsInvited ticket given h =
      let (issuer, known, h1) = bind-inv _ _ s answer h in
      let h2 = rw required-state at h1 in
      let (verified, h3) = checked-inv _ _ _ s answer h2 in
      let (bound, h4) = stop_if-inv _ _ _ s answer h3 in
      let (for_ticket, h5) = stop_if-inv _ _ _ s answer h4 in
      (
        ticket,
        issuer,
        given,
        required-next _ _ s issuer known,
        verified,
        ground (arith, bound, eq_iff ticket.domain_id cfg.domain_id),
        ground (arith, bound, eq_iff ticket.relay_id cfg.relay_id),
        ground (arith, for_ticket, eq_iff req.proof.challenge ticket.ticket_id),
        on_error-next _ _ s tt (then-inv _ _ s answer h5).0,
      )

  register_by-IsInvited :
      (ticket : Option PairingTicketV3)
      → req.ticket ≡ ticket
      → is_production cfg ≡ true
      → (register_by lib cfg ticket req m s).1 ≡ next answer
      → IsInvited lib cfg m s req
  unfolding register_by register_with_legacy_ticket
  register_by-IsInvited none given production h = cc ((stop_if-inv _ _ _ s answer h).0, production)
  register_by-IsInvited (some ticket) given production h = signed-IsInvited ticket given h

-- In production, a registration with a ticket that is not refused came with a ticket of version 3 that
-- the configured issuer signed and that runs, for this domain and this relay, and with a proof of
-- possession for that ticket that is accepted.
pub register_with_ticket-IsInvited :
    (lib : Library) (cfg : Config) (r : Request) (m : Moment) (s : State) (answer : Response)
    → is_production cfg ≡ true
    → (register_with_ticket lib cfg r m s).1 ≡ next answer
    → (req : RegisterTicketRequest) × (decode_json lib.decode_register_ticket r.body ≡ ok req)
      × IsInvited lib cfg m s req
unfolding register_with_ticket
register_with_ticket-IsInvited lib cfg r m s answer production h =
    let (post, h1) = stop_if-inv _ _ _ s answer h in
    let (req, decoded, h2) = pure_call-inv _ _ _ s answer h1 in
    (req, decoded, register_by-IsInvited lib cfg m s req answer req.ticket refl production h2)
