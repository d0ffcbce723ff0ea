-- ===== src/Relay/Runs/Uses.antt =====
-- services/relay-reference/internal/relay/server.go, consumeTicket: the uses of a ticket are counted,
-- and the count never falls.
use text.Mathlib.TextPositions.{eq_refl}
use text.Mathlib.TextEquality.{eq_iff}
use iscp.Prelude.{
  ℕ, ◌+◌, ◌≤◌, ◌≡◌, refl, String, Option, none, some, string_eq, ◌==◌, if◌then◌else◌, arith, inl,
  inr,
}
use iscp.Prelude.Int.{ℤ}
use iscp.Prelude.Map
use iscp.Prelude.Map.{Map, get-put, get-empty}
use iscp.Effect.{next}
use iscp.Effect.Keeps.{keeps_rules}
use iscp.Effect.Leads.{Leads, Leads-bind, Leads-then, Leads-on_error, Keeps→Leads}
use iscp.Provisioning.{PairingTicketV3}
use iscp.Relay.{Config, State, TicketState, Moment, Library, RegisterTicketRequest}
use iscp.Relay.Credentials.{revoke_held, revoke_all, retire_expired, keep_credentials}
use iscp.Relay.Registration.{
  hold_device, consume_in, consume_ticket, ticket_entry, or_unused, register_with_signed_ticket,
  register_with_legacy_ticket,
}
use iscp.Relay.Stability.{IsStable, Keeps-check_proof, Keeps-required}
use iscp.Relay.Stability.Handlers.{Keeps-bind_identity}
use iscp.Relay.Runs.Tickets.{used_once_more, consume_in-cases}

abbrev pub uses_in : Map String TicketState → String → ℕ
uses_in tickets ticket_id = (or_unused (Map.get tickets ticket_id)).uses

ticket_entry-uses :
    (max_uses : ℤ) (found : Option TicketState)
    → (ticket_entry max_uses found).uses ≡ (or_unused found).uses
unfolding ticket_entry
ticket_entry-uses max_uses none = ground arith
ticket_entry-uses max_uses (some t) = ground arith

module _ (ticket_id : String) (max_uses : ℤ) (tickets : Map String TicketState) where
  consumed : Map String TicketState
  consumed = (consume_in ticket_id max_uses tickets).0

  -- The count of no ticket falls.
  uses_in-consumed : (other : String) → uses_in tickets other ≤ uses_in consumed other
  unfolding used_once_more consumed
  uses_in-consumed other =
      let t = ticket_entry max_uses (Map.get tickets ticket_id) in
      elim (consume_in-cases ticket_id max_uses tickets) [
        | inl (up, same) ↦ rw same (omega arith)
        | inr (free, counted) ↦
            let got : Map.get consumed other
                ≡ (if ticket_id == other then some (used_once_more t) else Map.get tickets other) =
              rw (counted, get-put) refl in
            ground (
              arith,
              got,
              ticket_entry-uses max_uses (Map.get tickets ticket_id),
              eq_iff ticket_id other,
            )
      ]

  -- A use that is granted is counted.
  uses_in-granted :
      (done : Unit {0})
      → (consume_in ticket_id max_uses tickets).1 ≡ next done
      → uses_in consumed ticket_id ≡ uses_in tickets ticket_id + 1
  unfolding used_once_more consumed consume_in
  uses_in-granted done h =
      let t = ticket_entry max_uses (Map.get tickets ticket_id) in
      elim (consume_in-cases ticket_id max_uses tickets) [
        | inl (up, same) ↦ absurd (ground (arith, h, up))
        | inr (free, counted) ↦
            let got : Map.get consumed ticket_id ≡ (
                if ticket_id == ticket_id
                then some (used_once_more t)
                else Map.get tickets ticket_id) =
              rw (counted, get-put) refl in
            ground (
              arith,
              got,
              ticket_entry-uses max_uses (Map.get tickets ticket_id),
              eq_refl ticket_id,
            )
      ]

-- The ticket has been used so often, or more often.
abbrev pub HasUsed : String → ℕ → State → Type 0
HasUsed ticket_id n s = n ≤ uses_in s.tickets ticket_id

module _ (lib : Library) (cfg : Config) (m : Moment) (ticket_id : String) (n : ℕ) where
  pub HasUsed-stable : IsStable lib cfg m (HasUsed ticket_id n)
  unfolding retire_expired hold_device revoke_held revoke_all keep_credentials consumed
  HasUsed-stable = record {
    quiet = record { repo = λ s old db e p. p; replay = λ s key expires_at p. p };
    limiter = λ s key p. p;
    enqueued = λ s raw e valid p. p;
    dequeued = λ s domain_id recipient limit p. p;
    listed = λ s p. p;
    retired = λ s hash p. p;
    spent = λ s hash p. p;
    expelled = λ s device_id p. p;
    issued = λ s domain_id device_id p. p;
    held = λ s id p. p;
    consumed =
        λ s other max_uses p. omega (arith, p, uses_in-consumed other max_uses s.tickets ticket_id);
    connected = λ s connections p. p;
  }

  Leads-consume_ticket :
      (max_uses : ℤ)
      → Leads (HasUsed ticket_id n) (HasUsed ticket_id (n + 1)) (consume_ticket ticket_id max_uses)
  unfolding consume_ticket consumed
  Leads-consume_ticket max_uses = record {
    to = λ s p done h. omega (arith, p, uses_in-granted ticket_id max_uses s.tickets done h);
  }

module _ (lib : Library) (cfg : Config) (m : Moment) (n : ℕ) (req : RegisterTicketRequest) where
  pub Leads-legacy :
      Leads
        (HasUsed req.ticket_id n)
        (HasUsed req.ticket_id (n + 1))
        (register_with_legacy_ticket lib cfg req m)
  unfolding register_with_legacy_ticket
  Leads-legacy =
      let stable = HasUsed-stable lib cfg m req.ticket_id in
      Leads-then _ _ (Keeps→Leads _ (search (keeps_rules))) (
        Leads-then _ _ (Keeps→Leads _ (search (keeps_rules, Keeps-check_proof (stable n).quiet))) (
          Leads-then _ _ (Leads-on_error _ _ (Leads-consume_ticket lib cfg m req.ticket_id n _))
            (Keeps→Leads _ (Keeps-bind_identity (stable (n + 1)) req.identity))))

  pub Leads-signed :
      (ticket : PairingTicketV3)
      → Leads
          (HasUsed ticket.ticket_id n)
          (HasUsed ticket.ticket_id (n + 1))
          (register_with_signed_ticket lib cfg ticket req m)
  unfolding register_with_signed_ticket
  Leads-signed ticket =
      let stable = HasUsed-stable lib cfg m ticket.ticket_id in
      Leads-bind _ _ (Keeps→Leads _ (Keeps-required (stable n) _ _)) (λ issuer.
        Leads-then _ _ (Keeps→Leads _ (search (keeps_rules))) (
          Leads-then _ _ (Keeps→Leads _ (search (keeps_rules))) (
            Leads-then _ _ (Keeps→Leads _ (search (keeps_rules))) (
              Leads-then _ _
                (Keeps→Leads _ (search (keeps_rules, Keeps-check_proof (stable n).quiet)))
                (Leads-bind _ _ (Keeps→Leads _ (search (keeps_rules))) (λ roles.
                  Leads-then _ _
                    (Leads-on_error _ _ (Leads-consume_ticket lib cfg m ticket.ticket_id n _))
                    (Keeps→Leads _ (Keeps-bind_identity (stable (n + 1)) req.identity))))))))
