-- ===== src/Relay/Runs/Tickets.antt =====
-- services/relay-reference/internal/relay/server.go, consumeTicket: the relay's account of pairing
-- tickets under all requests.
use iscp.Prelude.{
  ◌+◌, ◌≡◌, refl, String, true, false, Option, some, List, string_eq, ◌==◌, arith, Bool-cases, inl,
  inr, ◌⊎◌,
}
use iscp.Prelude.Int.{ℤ, pos, ◌≤ℤ◌}
use iscp.Prelude.Map
use iscp.Prelude.Map.{Map, get-put, get-empty}
use iscp.Repository.Relay.{RelayDatabase}
use iscp.Relay.{Config, State, TicketState, Moment, Library, new_state}
use iscp.Relay.Credentials.{revoke_held, revoke_all, retire_expired, keep_credentials}
use iscp.Relay.Registration.{hold_device, consume_in, ticket_entry, is_used_up}
use iscp.Relay.Stability.{IsStable}
use iscp.Relay.Runs.{Call, run, run-kept, All-tt}

-- No ticket is used more often than its limit says.
abbrev pub IsWithin : State → Type 0
IsWithin s =
    (ticket_id : String) (t : TicketState)
    → Map.get s.tickets ticket_id ≡ some t
    → pos t.uses ≤ℤ t.max_uses

unfoldable pub used_once_more : TicketState → TicketState
used_once_more t = record t { uses = t.uses + 1 }

-- A call either leaves the tickets, or counts one more use that is within the limit.
pub consume_in-cases :
    (ticket_id : String) (max_uses : ℤ) (tickets : Map String TicketState)
    → let t = ticket_entry max_uses (Map.get tickets ticket_id) in
      ((is_used_up t ≡ true) × ((consume_in ticket_id max_uses tickets).0 ≡ tickets))
      ⊎ ((is_used_up t ≡ false)
          × ((consume_in ticket_id max_uses tickets).0
              ≡ Map.put tickets ticket_id (used_once_more t)))
unfolding consume_in used_once_more
consume_in-cases ticket_id max_uses tickets =
    elim (Bool-cases (is_used_up (ticket_entry max_uses (Map.get tickets ticket_id)))) [
      | inl up ↦ inl (up, rw up refl)
      | inr free ↦ inr (free, rw free refl)
    ]

some-eq : {A : Type 0} (a b : A) → some a ≡ some b → a ≡ b
some-eq a b h = cc

within-limit :
    (t u : TicketState)
    → is_used_up t ≡ false
    → some (used_once_more t) ≡ some u
    → pos u.uses ≤ℤ u.max_uses
unfolding used_once_more
within-limit t u free e = rw (← some-eq _ _ e) (ground (arith, free))

IsWithin-consume_in :
    (s : State) (ticket_id : String) (max_uses : ℤ)
    → IsWithin s
    → IsWithin (record s { tickets = (consume_in ticket_id max_uses s.tickets).0 })
IsWithin-consume_in s ticket_id max_uses within other t found =
    let entry = ticket_entry max_uses (Map.get s.tickets ticket_id) in
    elim (consume_in-cases ticket_id max_uses s.tickets) [
      | inl (up, same) ↦ within other t (rw same at found)
      | inr (free, counted) ↦
          let found' = rw (counted, get-put) at found in
          elim (Bool-cases (ticket_id == other)) [
            | inl this ↦ within-limit entry t free (rw this at found')
            | inr that ↦ within other t (rw that at found')
          ]
    ]

pub IsWithin-stable : (lib : Library) (cfg : Config) (m : Moment) → IsStable lib cfg m IsWithin
unfolding retire_expired hold_device revoke_held revoke_all keep_credentials
IsWithin-stable lib cfg m = record {
  quiet = record { repo = λ s old db e p. p; replay = λ s key expires_at p. p };
  limiter = λ s key p. p;
  enqueued = λ s raw e valid p. p;
  dequeued = λ s domain_id recipient limit p. p;
  listed = λ s p. p;
  retired = λ s hash p. p;
  spent = λ s hash p. p;
  expelled = λ s device_id p. p;
  issued = λ s domain_id device_id p. p;
  held = λ s id p. p;
  consumed = IsWithin-consume_in;
  connected = λ s connections p. p;
}

-- Whatever the requests are, no ticket of the relay is used more often than the limit that the relay
-- has for it.
pub run-IsWithin :
    (lib : Library) (cfg : Config) (repo : Option RelayDatabase) (cs : List Call)
    → IsWithin (run lib cfg cs (new_state repo))
unfolding new_state
run-IsWithin lib cfg repo cs =
    run-kept IsWithin (λ m. Unit) (λ m h. IsWithin-stable lib cfg m) cs (new_state repo) (All-tt cs)
      (λ ticket_id t found. cc (found, get-empty {V = TicketState} ticket_id))
