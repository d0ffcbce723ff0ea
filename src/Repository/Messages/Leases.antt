-- ===== src/Repository/Messages/Leases.antt =====
-- pkg/server/repository/relay.go, ClaimPendingMessagesFor: a claimed message is not claimed again
-- before its lease ends.
use mathlib.Core.List.Perm
use iscp.Prelude.{
  ℕ, ◌+◌, ◌<◌, ◌≡◌, ◌≢◌, String, false, some, List, [], ◌∷◌, map, All, All-take, string_eq, ◌==◌,
  keep, contains, arith, Bool-cases, inl, inr,
}
use iscp.Prelude.Int.{ℤ, pos_part}
use iscp.Prelude.Sort.{All-perm}
use iscp.Repository.{update_rows}
use iscp.Repository.Relay.{RelayMessage, MessageRow, Tables}
use iscp.Repository.Messages.{
  Planner, row_id, is_claimable, is_unclaimed, is_pending, chosen_rows, claim,
}

abbrev claimed_row : ℕ → MessageRow → MessageRow
claimed_row until row = record row { claimed_until = some until; attempts = row.attempts + 1 }

-- No claimable row of the new table was claimed.
keep-unclaimed :
    (ids : List String) (domain_id recipient : String) (later until : ℕ) (rows : List MessageRow)
    → later < until
    → All
        (λ row. contains ids (row_id row) ≡ false)
        (keep
          (is_claimable domain_id recipient later)
          (update_rows (λ row. contains ids (row_id row)) (claimed_row until) rows))
unfolding is_claimable is_unclaimed is_pending update_rows
keep-unclaimed ids domain_id recipient later until [] before = tt
keep-unclaimed ids domain_id recipient later until (row ∷ rows) before =
    ground (arith, keep-unclaimed ids domain_id recipient later until rows before)

contains→ne :
    (rows : List MessageRow) (id : String)
    → contains (map row_id rows) id ≡ false
    → All (λ row. row.message.id ≢ id) rows
contains→ne [] id h = tt
contains→ne (row ∷ rows) id h = elim (Bool-cases (row.message.id == id)) [
  | inl same ↦ absurd (ground (arith, same, h))
  | inr other ↦ (
    λ e. cc ((string_eq.beq_iff row.message.id id).1 e, other),
    contains→ne rows id (rw other at h),
  )
]

All-map :
    {A B : Type 0} (f : A → B) (P : B → Type 0) (xs : List A)
    → All (λ x. P (f x)) xs
    → All P (map f xs)
All-map f P [] h = tt
All-map f P (x ∷ xs) h = (h.0, All-map f P xs h.1)

All-imp :
    {A : Type 0} (P Q : A → Type 0) (xs : List A) → ((x : A) → P x → Q x) → All P xs → All Q xs
All-imp P Q [] f h = tt
All-imp P Q (x ∷ xs) f h = (f x h.0, All-imp P Q xs f h.1)

module _ (planner : Planner) where
  -- What the rows satisfy that a claim may choose, the messages that it gives satisfy.
  claim-All :
      (P : MessageRow → Type 0) (Q : RelayMessage → Type 0) (domain_id recipient : String)
      (now until : ℕ) (limit : ℤ) (t : Tables)
      → ((row : MessageRow) → IsProp (P row))
      → ((row : MessageRow) → P row → Q row.message)
      → All P (keep (is_claimable domain_id recipient now) t.messages)
      → All Q (claim planner domain_id recipient now until limit t).1
  unfolding claim chosen_rows
  claim-All P Q domain_id recipient now until limit t prop f h =
      All-map (λ row. row.message) Q _
        (All-imp P (λ row. Q row.message) _ f
          (All-perm P prop (Perm.symm (planner.returned-perm _)) (
            All-take P (pos_part limit) _
              (All-perm P prop (Perm.symm (planner.sorter.sort-perm _)) h))))

  first_ids :
      (domain_id recipient : String) (now until : ℕ) (limit : ℤ) (t : Tables) (id : String)
      → contains (map row_id (chosen_rows planner domain_id recipient now limit t)) id ≡ false
      → All (λ msg. msg.id ≢ id) (claim planner domain_id recipient now until limit t).1
  unfolding claim
  first_ids domain_id recipient now until limit t id h =
      All-map (λ row. row.message) (λ msg. msg.id ≢ id) _
        (All-perm (λ row. row.message.id ≢ id) (λ row. hlevel) (Perm.symm (planner.returned-perm _))
          (contains→ne _ id h))

  -- Of two claims, of any domains and recipients, where the second comes before the lease of the first
  -- ends, no message of the second has the row id of one of the first.
  pub claim-lease :
      (domain_id recipient domain_id' recipient' : String) (now until later until' : ℕ)
      (limit limit' : ℤ) (t : Tables)
      → later < until
      → let (t', first) = claim planner domain_id recipient now until limit t in
        All
          (λ again. All (λ msg. msg.id ≢ again.id) first)
          (claim planner domain_id' recipient' later until' limit' t').1
  unfolding claim
  claim-lease domain_id recipient domain_id' recipient' now until later until' limit limit' t
        before =
      let ids = map row_id (chosen_rows planner domain_id recipient now limit t) in
      claim-All (λ row. contains ids (row_id row) ≡ false) _ domain_id' recipient' later until'
        limit' (claim planner domain_id recipient now until limit t).0 (λ row. hlevel)
        (λ row h. first_ids domain_id recipient now until limit t row.message.id h)
        (keep-unclaimed ids domain_id' recipient' later until t.messages before)
