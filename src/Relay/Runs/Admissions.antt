-- ===== src/Relay/Runs/Admissions.antt =====
-- services/relay-reference/internal/relay/server.go, registerWithTicket: how many registrations a
-- pairing ticket admits.
use text.Mathlib.TextEquality.{eq_iff}
use mathlib.Core.Path.{subst}
use iscp.Prelude.{
  ℕ, ◌+◌, ◌≤◌, ◌≡◌, refl, String, Option, none, some, List, [], ◌∷◌, string_eq, ◌==◌, if◌then◌else◌,
  arith, Bool-cases, inl, inr,
}
use iscp.Prelude.Int.{pos, ◌≤ℤ◌}
use iscp.Prelude.Map
use iscp.Prelude.Map.{Map, get-put, get-empty}
use iscp.Errors.{Result, ok, err}
use iscp.Effect.{Outcome, stop, next}
use iscp.Effect.Keeps.{keeps_rules}
use iscp.Effect.Leads.{Leads, Leads-then, Leads-known, Keeps→Leads}
use iscp.Provisioning.{PairingTicketV3}
use iscp.Repository.Relay.{RelayDatabase}
use iscp.Server.Httpx.{decode_json}
use iscp.Relay.{
  Config, State, TicketState, Request, Moment, Response, Library, RegisterTicketRequest, new_state,
}
use iscp.Relay.Registration.{or_unused, register_by, register_with_ticket}
use iscp.Relay.Stability.Handlers.{Keeps-register_with_ticket}
use iscp.Relay.Runs.{Call, run, run-kept, All-tt}
use iscp.Relay.Runs.Tickets.{IsWithin, IsWithin-stable, run-IsWithin}
use iscp.Relay.Runs.Uses.{HasUsed, HasUsed-stable, Leads-legacy, Leads-signed}

-- The ticket that a registration names.
abbrev ticket_of : RegisterTicketRequest → Option PairingTicketV3 → String
ticket_of req none = req.ticket_id
ticket_of req (some ticket) = ticket.ticket_id

abbrev ticket_in : Result RegisterTicketRequest → Option String
ticket_in (err e) = none
ticket_in (ok req) = some (ticket_of req req.ticket)

ticket_in-some :
    (read : Result RegisterTicketRequest) (ticket_id : String)
    → ticket_in read ≡ some ticket_id
    → (req : RegisterTicketRequest) × (read ≡ ok req) × (ticket_of req req.ticket ≡ ticket_id)
ticket_in-some (err e) ticket_id h = cc
ticket_in-some (ok req) ticket_id h = (req, refl, cc)

-- One, where the named ticket is this one and the registration is accepted.
abbrev admissions : String → Option String → Outcome Response Response → ℕ
admissions ticket_id none outcome = 0
admissions ticket_id (some named) (stop refusal) = 0
admissions ticket_id (some named) (next answer) = if named == ticket_id then 1 else 0

-- Any requests and connections, and then a registration.
pub record Attempt : Type 0 where
  pub earlier : List Call
  pub request : Request
  pub moment : Moment

module _ (lib : Library) (cfg : Config) where
  named : Request → Option String
  named r = ticket_in (decode_json lib.decode_register_ticket r.body)

  -- The state after the attempts, and how many of them are accepted with the ticket.
  unfoldable pub admit : String → List Attempt → State → State × ℕ
  unfolding named
  admit ticket_id [] s = (s, 0)
  admit ticket_id (a ∷ attempts) s =
      let s' = run lib cfg a.earlier s in
      let (after, outcome) = register_with_ticket lib cfg a.request a.moment s' in
      let (last, more) = admit ticket_id attempts after in
      (last, admissions ticket_id (named a.request) outcome + more)

module _ (lib : Library) (cfg : Config) (ticket_id : String) where
  Leads-register_by :
      (m : Moment) (n : ℕ) (req : RegisterTicketRequest) (ticket : Option PairingTicketV3)
      → Leads
          (HasUsed (ticket_of req ticket) n)
          (HasUsed (ticket_of req ticket) (n + 1))
          (register_by lib cfg ticket req m)
  unfolding register_by
  Leads-register_by m n req none = Leads-legacy lib cfg m n req
  Leads-register_by m n req (some ticket) = Leads-signed lib cfg m n req ticket

  Leads-register_with_ticket :
      (r : Request) (m : Moment) (n : ℕ) (req : RegisterTicketRequest)
      → decode_json lib.decode_register_ticket r.body ≡ ok req
      → Leads
          (HasUsed (ticket_of req req.ticket) n)
          (HasUsed (ticket_of req req.ticket) (n + 1))
          (register_with_ticket lib cfg r m)
  unfolding register_with_ticket
  Leads-register_with_ticket r m n req read =
      Leads-then _ _ (Keeps→Leads _ (search (keeps_rules)))
        (Leads-known _ _ _ req read (Leads-register_by m n req req.ticket))

  kept :
      (r : Request) (m : Moment) (n : ℕ) (s : State)
      → HasUsed ticket_id n s
      → HasUsed ticket_id n (register_with_ticket lib cfg r m s).0
  kept r m n s p = (Keeps-register_with_ticket (HasUsed-stable lib cfg m ticket_id n) r).after s p

  -- A registration adds to the count what it admits.
  admissions-HasUsed :
      (r : Request) (m : Moment) (n : ℕ) (s : State) (name : Option String)
      (outcome : Outcome Response Response)
      → HasUsed ticket_id n s
      → named lib cfg r ≡ name
      → (register_with_ticket lib cfg r m s).1 ≡ outcome
      → HasUsed ticket_id
          (n + admissions ticket_id name outcome)
          (register_with_ticket lib cfg r m s).0
  unfolding named
  admissions-HasUsed r m n s none outcome p e h = omega (arith, kept r m n s p)
  admissions-HasUsed r m n s (some name) (stop refusal) p e h = omega (arith, kept r m n s p)
  admissions-HasUsed r m n s (some name) (next answer) p e h =
      elim (Bool-cases (name == ticket_id)) [
        | inl this ↦
            let (req, read, given) = ticket_in-some _ name e in
            let same : ticket_of req req.ticket ≡ ticket_id =
              ground (arith, given, this, eq_iff name ticket_id) in
            rw this (
              (subst
                  (λ id.
                    Leads (HasUsed id n) (HasUsed id (n + 1)) (register_with_ticket lib cfg r m))
                  same (Leads-register_with_ticket r m n req read)).to
                s p answer h)
        | inr other ↦ rw other (omega (arith, kept r m n s p))
      ]

  admit-HasUsed :
      (attempts : List Attempt) (n : ℕ) (s : State)
      → HasUsed ticket_id n s
      → HasUsed ticket_id
          (n + (admit lib cfg ticket_id attempts s).1)
          (admit lib cfg ticket_id attempts s).0
  unfolding admit
  admit-HasUsed [] n s p = omega (arith, p)
  admit-HasUsed (a ∷ attempts) n s p =
      let s' = run lib cfg a.earlier s in
      let (after, outcome) = register_with_ticket lib cfg a.request a.moment s' in
      let first = admissions ticket_id (named lib cfg a.request) outcome in
      let rest = admit-HasUsed attempts (n + first) after (
        admissions-HasUsed a.request a.moment n s' (named lib cfg a.request) outcome
          (run-kept (HasUsed ticket_id n) (λ m. Unit) (λ m h. HasUsed-stable lib cfg m ticket_id n)
            a.earlier s (All-tt a.earlier) p)
          refl refl) in
      omega (arith, rest)

  admit-IsWithin :
      (attempts : List Attempt) (s : State)
      → IsWithin s
      → IsWithin (admit lib cfg ticket_id attempts s).0
  unfolding admit
  admit-IsWithin [] s p = p
  admit-IsWithin (a ∷ attempts) s p = admit-IsWithin attempts _ (
      (Keeps-register_with_ticket (IsWithin-stable lib cfg a.moment) a.request).after _ (
        run-kept IsWithin (λ m. Unit) (λ m h. IsWithin-stable lib cfg m) a.earlier s
          (All-tt a.earlier) p))

le-max_uses :
    (found : Option TicketState) (n : ℕ)
    → n ≤ (or_unused found).uses
    → ((t : TicketState) → found ≡ some t → pos t.uses ≤ℤ t.max_uses)
    → pos n ≤ℤ (or_unused found).max_uses
le-max_uses none n p within = ground arith
le-max_uses (some t) n p within = ground (arith, within t refl)

-- No ticket admits more registrations than the limit that the relay has for it, from its start and
-- whatever happens between them.
pub admit-le-limit :
    (lib : Library) (cfg : Config) (repo : Option RelayDatabase) (ticket_id : String)
    (attempts : List Attempt)
    → let (s, admitted) = admit lib cfg ticket_id attempts (new_state repo) in
      pos admitted ≤ℤ (or_unused (Map.get s.tickets ticket_id)).max_uses
unfolding run
admit-le-limit lib cfg repo ticket_id attempts =
    let s = new_state repo in
    le-max_uses _ _ (omega (arith, admit-HasUsed lib cfg ticket_id attempts 0 s (omega arith)))
      (admit-IsWithin lib cfg ticket_id attempts s (run-IsWithin lib cfg repo []) ticket_id)
