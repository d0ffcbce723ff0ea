-- ===== src/Provisioning/Store.antt =====
-- pkg/iscp/provisioning/provisioning.go: TicketStore.
use iscp.Prelude.{
  ℕ, zero, suc, ◌+◌, ◌-◌, ◌≤◌, ◌≡◌, refl, String, Bool, true, false, ◌&&◌, Option, none, some, List,
  [], ◌∷◌, if◌then◌else◌, string_eq, ◌==◌, leb, arith, min,
}
use text.Mathlib.TextEquality.{eq_iff}
use text.Mathlib.TextPositions.{eq_refl}
use iscp.Prelude.Int.{ℤ, pos, pos_part, leb_ℤ}
use iscp.Prelude.Map
use iscp.Prelude.Map.{Map, get-put, get-empty}
use iscp.Errors.{Result, ok, err, new, provision_invalid}

pub record TicketStore : Type 0 where
  pub uses : Map String ℕ
  pub limit : Map String ℤ

unfoldable pub new_ticket_store : TicketStore
new_ticket_store = record { uses = Map.empty; limit = Map.empty }

-- s.uses[id], where a missing key reads as zero
abbrev pub count_of : Option ℕ → ℕ
count_of none = 0
count_of (some n) = n

-- The limit that the first use sets.
abbrev pub limit_of : Option ℤ → ℤ → ℤ
limit_of none max_uses = max_uses
limit_of (some n) max_uses = n

-- A refused use may still have set the limit, so the store comes back beside the error.
unfoldable pub consume : String → ℤ → TicketStore → TicketStore × Result (Unit {0})
consume ticket_id max_uses s =
    let limit = limit_of (Map.get s.limit ticket_id) max_uses in
    let used = count_of (Map.get s.uses ticket_id) in
    let limits = Map.put s.limit ticket_id limit in
    if leb_ℤ max_uses (pos 0)
    then (s, err (new provision_invalid "ticket max uses must be positive"))
    else if leb_ℤ limit (pos used)
    then (
      record s { limit = limits },
      err (new provision_invalid "pairing ticket already consumed"),
    )
    else (record { uses = Map.put s.uses ticket_id (used + 1); limit = limits }, ok tt)

abbrev pub is_ok {ℓ} : {A : Type ℓ} → Result A → Bool
is_ok (ok a) = true
is_ok (err e) = false

-- The uses of `ticket_id` that go through, of a list of uses of any tickets.
unfoldable pub consumed : String → TicketStore → List (String × ℤ) → ℕ
consumed ticket_id s [] = 0
consumed ticket_id s ((id, max_uses) ∷ cs) =
    let (s', result) = consume id max_uses s in
    let rest = consumed ticket_id s' cs in
    if id == ticket_id && is_ok result then suc rest else rest

-- The part of the store that speaks of one ticket: its limit is set, and its uses are within.
abbrev pub Holds : String → ℤ → ℕ → TicketStore → Type 0
Holds ticket_id limit used s =
    (Map.get s.limit ticket_id ≡ some limit) × (count_of (Map.get s.uses ticket_id) ≡ used)

consume-Holds :
    (ticket_id : String) (limit : ℤ) (used : ℕ) (s : TicketStore) (id : String) (max_uses : ℤ)
    → Holds ticket_id limit used s
    → used ≤ pos_part limit
    → let (s', result) = consume id max_uses s in
      let used' = if id == ticket_id && is_ok result then suc used else used in
      Holds ticket_id limit used' s' × (used' ≤ pos_part limit)
unfolding consume
consume-Holds ticket_id limit used s id max_uses h le = ground (
  arith,
  eq_iff id ticket_id,
  get-put s.limit id ticket_id (limit_of (Map.get s.limit id) max_uses),
  get-put s.uses id ticket_id (count_of (Map.get s.uses id) + 1),
)

consumed-Holds :
    (ticket_id : String) (limit : ℤ) (cs : List (String × ℤ)) (used : ℕ) (s : TicketStore)
    → Holds ticket_id limit used s
    → used ≤ pos_part limit
    → used + consumed ticket_id s cs ≤ pos_part limit
unfolding consumed
consumed-Holds ticket_id limit [] used s h le = omega arith
consumed-Holds ticket_id limit ((id, max_uses) ∷ cs) used s h le =
    let (s', result) = consume id max_uses s in
    let (h', le') = consume-Holds ticket_id limit used s id max_uses h le in
    let rest = consumed-Holds ticket_id limit cs _ s' h' le' in ground (arith, rest)

-- A ticket that is first used with a positive limit is consumed at most that often, whatever limits
-- later uses name and however the uses of other tickets fall in between.
pub consumed-le-max_uses :
    (ticket_id : String) (n : ℕ) (s : TicketStore) (cs : List (String × ℤ))
    → Map.get s.limit ticket_id ≡ none
    → Map.get s.uses ticket_id ≡ none
    → consumed ticket_id s ((ticket_id, pos (suc n)) ∷ cs) ≤ suc n
unfolding consumed consume
consumed-le-max_uses ticket_id n s cs no_limit no_uses =
    let s' = (consume ticket_id (pos (suc n)) s).0 in
    let rest =
      consumed-Holds ticket_id (pos (suc n)) cs 1 s'
        (ground (
          arith,
          eq_refl ticket_id,
          get-put s.limit ticket_id ticket_id (pos (suc n)),
          get-put s.uses ticket_id ticket_id 1,
        ))
        (omega arith) in
    ground (arith, eq_refl ticket_id, rest)

abbrev pub repeat {ℓ} : {A : Type ℓ} → ℕ → A → List A
repeat zero a = []
repeat (suc k) a = a ∷ repeat k a

consumed-repeat :
    (ticket_id : String) (n k used : ℕ) (s : TicketStore)
    → (limit_of (Map.get s.limit ticket_id) (pos (suc n)) ≡ pos (suc n))
    → count_of (Map.get s.uses ticket_id) ≡ used
    → consumed ticket_id s (repeat k (ticket_id, pos (suc n))) ≡ min k (suc n - used)
unfolding consumed consume
consumed-repeat ticket_id n zero used s l u = omega arith
consumed-repeat ticket_id n (suc k) used s l u =
    let s' = (consume ticket_id (pos (suc n)) s).0 in
    let used' = if leb (suc n) used then used else suc used in
    let rest =
      consumed-repeat ticket_id n k used' s'
        (ground (
          arith,
          get-put s.limit ticket_id ticket_id (limit_of (Map.get s.limit ticket_id) (pos (suc n))),
          eq_refl ticket_id,
        ))
        (ground (arith, get-put s.uses ticket_id ticket_id (used + 1), eq_refl ticket_id)) in
    ground (arith, eq_refl ticket_id, rest)

-- A fresh store lets a ticket through exactly as often as its limit says, however often it is tried.
pub consumed-eq-min :
    (ticket_id : String) (n k : ℕ)
    → consumed ticket_id new_ticket_store (repeat k (ticket_id, pos (suc n))) ≡ min k (suc n)
unfolding new_ticket_store
consumed-eq-min ticket_id n k = omega (
  arith,
  consumed-repeat ticket_id n k 0 new_ticket_store (rw get-empty refl) (rw get-empty refl),
)
