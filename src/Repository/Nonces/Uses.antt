-- ===== src/Repository/Nonces/Uses.antt =====
-- pkg/server/repository/proof_nonce.go: the deletion and the insertion of one use, over many uses.
use iscp.Prelude.{
  ℕ, ◌<◌, ◌≡◌, refl, String, Bool, true, false, ◌&&◌, List, [], ◌∷◌, All, string_eq, nat_eq, ◌==◌,
  ==_refl, arith,
}
use iscp.Repository.{has_row}
use iscp.Repository.Relay.{NonceRow}
use iscp.Repository.Nonces.{same_nonce, delete_expired, insert_nonce}

-- The two statements of one use: the rows that it leaves, and whether the nonce was new.
unfoldable pub use_row : ℕ → NonceRow → List NonceRow → List NonceRow × Bool
use_row now nonce rows = insert_nonce nonce (delete_expired nonce.domain_id now rows)

unfoldable pub use_rows : List (ℕ × NonceRow) → List NonceRow → List NonceRow
unfolding use_row
use_rows [] rows = rows
use_rows ((now, nonce) ∷ uses) rows = use_rows uses (use_row now nonce rows).0

abbrev is_mark : NonceRow → NonceRow → Bool
is_mark nonce row = same_nonce nonce row && row.expires_at == nonce.expires_at

has_mark-delete :
    (nonce : NonceRow) (domain_id : String) (now : ℕ) (rows : List NonceRow)
    → now < nonce.expires_at
    → has_row (is_mark nonce) rows ≡ true
    → has_row (is_mark nonce) (delete_expired domain_id now rows) ≡ true
unfolding has_row delete_expired
has_mark-delete nonce domain_id now [] before h = h
has_mark-delete nonce domain_id now (row ∷ rows) before h =
    ground (arith, has_mark-delete nonce domain_id now rows before)

has_mark-use_row :
    (nonce other : NonceRow) (now : ℕ) (rows : List NonceRow)
    → now < nonce.expires_at
    → has_row (is_mark nonce) rows ≡ true
    → has_row (is_mark nonce) (use_row now other rows).0 ≡ true
unfolding use_row insert_nonce has_row
has_mark-use_row nonce other now rows before h =
    ground (arith, has_mark-delete nonce other.domain_id now rows before h)

has_mark-use_rows :
    (nonce : NonceRow) (uses : List (ℕ × NonceRow)) (rows : List NonceRow)
    → All (λ u. u.0 < nonce.expires_at) uses
    → has_row (is_mark nonce) rows ≡ true
    → has_row (is_mark nonce) (use_rows uses rows) ≡ true
unfolding use_rows
has_mark-use_rows nonce [] rows times h = h
has_mark-use_rows nonce ((now, other) ∷ uses) rows times h =
    has_mark-use_rows nonce uses (use_row now other rows).0 times.1
      (has_mark-use_row nonce other now rows times.0 h)

same_nonce_self : (nonce : NonceRow) → same_nonce nonce nonce ≡ true
unfolding same_nonce
same_nonce_self nonce =
    ground (arith, ==_refl nonce.domain_id, ==_refl nonce.device_id, ==_refl nonce.nonce)

has_mark-taken :
    (nonce : NonceRow) (now : ℕ) (rows : List NonceRow)
    → (use_row now nonce rows).1 ≡ true
    → has_row (is_mark nonce) (use_row now nonce rows).0 ≡ true
unfolding use_row insert_nonce has_row
has_mark-taken nonce now rows taken =
    ground (arith, same_nonce_self nonce, ==_refl nonce.expires_at)

mark-has_row :
    (nonce : NonceRow) (rows : List NonceRow)
    → has_row (is_mark nonce) rows ≡ true
    → has_row (same_nonce nonce) rows ≡ true
unfolding has_row
mark-has_row nonce [] h = h
mark-has_row nonce (row ∷ rows) h = ground (arith, mark-has_row nonce rows)

-- A nonce that was new is refused, whatever else is used in between and with whatever expiry it comes
-- back, as long as all of this happens before it expires.
pub use_row-once :
    (nonce : NonceRow) (now later again : ℕ) (rows : List NonceRow) (uses : List (ℕ × NonceRow))
    → (use_row now nonce rows).1 ≡ true
    → All (λ u. u.0 < nonce.expires_at) uses
    → later < nonce.expires_at
    → (use_row later
        (record nonce { expires_at = again })
        (use_rows uses (use_row now nonce rows).0)).1
      ≡ false
unfolding use_row insert_nonce same_nonce
use_row-once nonce now later again rows uses taken times before =
    let marked =
      has_mark-use_rows nonce uses (use_row now nonce rows).0 times
        (has_mark-taken nonce now rows taken) in
    let found =
      mark-has_row nonce _ (has_mark-delete nonce nonce.domain_id later _ before marked) in
    rw found refl
