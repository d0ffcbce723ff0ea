-- ===== src/Relay/Runs/Refinement.antt =====
-- services/relay-reference/internal/relay/server.go, consumeTicket, against the ticket store of
-- pkg/iscp/provisioning/provisioning.go.
use iscp.Prelude.{
  ℕ, ◌≡◌, refl, String, Bool, true, false, Option, none, some, List, [], ◌∷◌, All, string_eq, ◌==◌,
  arith, Bool-cases, Option-cases, inl, inr, ==_refl, ap₂,
}
use iscp.Prelude.Int.{ℤ, pos, leb_ℤ, ltb_ℤ, eqb_ℤ}
use iscp.Prelude.Map
use iscp.Prelude.Map.{Map, get-put, get-empty}
use iscp.Effect.{Outcome, stop, next}
use iscp.Provisioning.Store.{TicketStore, new_ticket_store, consume, count_of, is_ok}
use iscp.Relay.{TicketState}
use iscp.Relay.Registration.{consume_in, ticket_entry}

-- The two accounts agree on a ticket: the same limit, which is positive, and as many uses.
abbrev Agree : Option TicketState → Option ℤ → Option ℕ → Type 0
Agree none limit used = (limit ≡ none) × (count_of used ≡ 0)
Agree (some t) limit used =
    (limit ≡ some t.max_uses) × (count_of used ≡ t.uses) × (ltb_ℤ (pos 0) t.max_uses ≡ true)

abbrev pub Represents : TicketStore → Map String TicketState → Type 0
Represents store tickets =
    (ticket_id : String)
    → Agree (Map.get tickets ticket_id) (Map.get store.limit ticket_id)
        (Map.get store.uses ticket_id)

abbrev pub succeeds : {E A : Type 0} → Outcome E A → Bool
succeeds (stop e) = false
succeeds (next a) = true

module _ (ticket_id : String) (max_uses : ℤ) (store : TicketStore)
    (tickets : Map String TicketState) (positive : ltb_ℤ (pos 0) max_uses ≡ true)
    (same : Represents store tickets) where
  -- The use of a ticket that neither account knows.
  first_use-agrees :
      Map.get tickets ticket_id ≡ none
      → (succeeds (consume_in ticket_id max_uses tickets).1
          ≡ is_ok (consume ticket_id max_uses store).1)
        × Represents (consume ticket_id max_uses store).0 (consume_in ticket_id max_uses tickets).0
  unfolding consume_in consume ticket_entry
  first_use-agrees none' =
      let agree : Agree none (Map.get store.limit ticket_id) (Map.get store.uses ticket_id) =
        rw none' at (same ticket_id) in
      let unlimited = agree.0 in
      let unused = agree.1 in
      let fits : leb_ℤ max_uses (pos 0) ≡ false = ground (arith, positive) in
      (
        ground (arith, none', unlimited, unused, fits),
        λ other. elim (Bool-cases (ticket_id == other)) [
          | inl this ↦
              rw (none', unlimited, unused, fits, get-put, this)
                (rw (get-put, this) refl, rw (get-put, this) refl, ground (arith, positive))
          | inr that ↦
              rw (none', unlimited, unused, fits, get-put, that, get-put, that, get-put, that)
                (same other)
        ],
      )

  -- The use of a ticket that both know.
  later_use-agrees :
      (t : TicketState)
      → Map.get tickets ticket_id ≡ some t
      → (succeeds (consume_in ticket_id max_uses tickets).1
          ≡ is_ok (consume ticket_id max_uses store).1)
        × Represents (consume ticket_id max_uses store).0 (consume_in ticket_id max_uses tickets).0
  unfolding consume_in consume ticket_entry
  later_use-agrees t found =
      let agree : Agree (some t) (Map.get store.limit ticket_id) (Map.get store.uses ticket_id) =
        rw found at (same ticket_id) in
      let limited = agree.0 in
      let used = agree.1 in
      let fits : leb_ℤ max_uses (pos 0) ≡ false = ground (arith, positive) in
      let is_set : eqb_ℤ t.max_uses (pos 0) ≡ false = ground (arith, agree.2) in
      let open_limit : leb_ℤ t.max_uses (pos 0) ≡ false = ground (arith, agree.2) in
      elim (Bool-cases (leb_ℤ t.max_uses (pos t.uses))) [
        | inl up ↦ (
          rw (found, limited, used, fits, is_set, open_limit, up) refl,
          λ other. elim (Bool-cases (ticket_id == other)) [
            | inl this ↦
                let e : ticket_id ≡ other = (string_eq.beq_iff ticket_id other).0 this in
                rw
                  (
                    found,
                    limited,
                    used,
                    fits,
                    is_set,
                    open_limit,
                    up,
                    ← e,
                    get-put,
                    ==_refl ticket_id,
                    found,
                  )
                  (refl, used, agree.2)
            | inr that ↦
                rw (found, limited, used, fits, is_set, open_limit, up, get-put, that) (same other)
          ],
        )
        | inr free ↦ (
          rw (found, limited, used, fits, is_set, open_limit, free) refl,
          λ other. elim (Bool-cases (ticket_id == other)) [
            | inl this ↦
                rw (found, limited, used, fits, is_set, open_limit, free, get-put, this)
                  (rw (get-put, this) refl, rw (get-put, this) refl, ground (arith, agree.2))
            | inr that ↦
                rw
                  (
                    found, limited, used, fits, is_set, open_limit, free, get-put, that, get-put,
                    that, get-put, that,
                  )
                  (same other)
          ],
        )
      ]

consume_in-step :
    (ticket_id : String) (max_uses : ℤ) (store : TicketStore) (tickets : Map String TicketState)
    → ltb_ℤ (pos 0) max_uses ≡ true
    → Represents store tickets
    → (succeeds (consume_in ticket_id max_uses tickets).1
        ≡ is_ok (consume ticket_id max_uses store).1)
      × Represents (consume ticket_id max_uses store).0 (consume_in ticket_id max_uses tickets).0
consume_in-step ticket_id max_uses store tickets positive same =
    elim (Option-cases (Map.get tickets ticket_id)) [
      | inl none' ↦ first_use-agrees ticket_id max_uses store tickets positive same none'
      | inr (t, found) ↦ later_use-agrees ticket_id max_uses store tickets positive same t found
    ]

-- The verdicts on a list of uses, each of a ticket with a limit: of the relay and of the store.
unfoldable pub verdicts : Map String TicketState → List (String × ℤ) → List Bool
verdicts tickets [] = []
verdicts tickets ((ticket_id, max_uses) ∷ uses) =
    succeeds (consume_in ticket_id max_uses tickets).1
    ∷ verdicts (consume_in ticket_id max_uses tickets).0 uses

unfoldable pub store_verdicts : TicketStore → List (String × ℤ) → List Bool
store_verdicts store [] = []
store_verdicts store ((ticket_id, max_uses) ∷ uses) =
    is_ok (consume ticket_id max_uses store).1
    ∷ store_verdicts (consume ticket_id max_uses store).0 uses

abbrev pub IsLimited : String × ℤ → Type 0
IsLimited u = ltb_ℤ (pos 0) u.1 ≡ true

verdicts-agree :
    (uses : List (String × ℤ)) (store : TicketStore) (tickets : Map String TicketState)
    → All IsLimited uses
    → Represents store tickets
    → verdicts tickets uses ≡ store_verdicts store uses
unfolding verdicts store_verdicts
verdicts-agree [] store tickets h same = refl
verdicts-agree ((ticket_id, max_uses) ∷ uses) store tickets h same =
    let step = consume_in-step ticket_id max_uses store tickets h.0 same in
    ap₂ (λ x y. x ∷ y) step.0 (verdicts-agree uses _ _ h.1 step.1)

-- On any list of uses with positive limits, the relay's tickets refine the ticket store: from the
-- start, each use gets the same verdict from both.
pub verdicts-refine :
    (uses : List (String × ℤ))
    → All IsLimited uses
    → verdicts Map.empty uses ≡ store_verdicts new_ticket_store uses
unfolding new_ticket_store
verdicts-refine uses h = verdicts-agree uses new_ticket_store Map.empty h (λ ticket_id.
    rw
      (
        get-empty {V = TicketState} ticket_id,
        get-empty {V = ℤ} ticket_id,
        get-empty {V = ℕ} ticket_id,
      )
      (refl, refl))
