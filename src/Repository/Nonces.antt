-- ===== src/Repository/Nonces.antt =====
-- pkg/server/repository/proof_nonce.go: the table of used proof nonces.
pub mod Uses
use iscp.Prelude.{
  ℕ, String, Bool, true, false, not, ◌&&◌, ◌||◌, List, [], ◌∷◌, if◌then◌else◌, string_eq, ◌==◌, leb,
  keep, is_blank, ◌+++◌, to_bytes,
}
use iscp.Errors.{Error, ok, err, new, external, storage_invalid, reject_if}
use iscp.Effect.{Effect, Outcome, stop, next, ◌>>=◌, ◌>>◌, pure_call}
use iscp.Crypto.{Primitives, base64url}
use iscp.Repository.{require_domain, has_row, Statement, exec}
use iscp.Repository.Relay.{NonceRow, Tables}

-- PRIMARY KEY(domain_id, device_id, nonce)
unfoldable pub same_nonce : NonceRow → NonceRow → Bool
same_nonce a b = a.domain_id == b.domain_id && a.device_id == b.device_id && a.nonce == b.nonce

-- DELETE ... WHERE domain_id=$1 AND expires_at <= $2
unfoldable pub delete_expired : String → ℕ → List NonceRow → List NonceRow
delete_expired domain_id now rows =
    keep (λ row. not (row.domain_id == domain_id && leb row.expires_at now)) rows

-- The insertion, where a unique violation is the answer "used".
unfoldable pub insert_nonce : NonceRow → List NonceRow → List NonceRow × Bool
unfolding same_nonce
insert_nonce nonce rows =
    if has_row (same_nonce nonce) rows then (rows, false) else (nonce ∷ rows, true)

module _ (p : Primitives) where
  unfoldable pub proof_nonce_storage_key : String → String → String
  proof_nonce_storage_key audience nonce =
      base64url p (p.sha256 (to_bytes (audience +++ "\0" +++ nonce)))

  unfoldable pub use_proof_nonce : String → String → String → String → ℕ → ℕ → Statement Tables Bool
  unfolding proof_nonce_storage_key
  use_proof_nonce domain_id device_id audience nonce expires_at now = do
    pure_call (require_domain domain_id)
    pure_call (
        reject_if (is_blank device_id || is_blank audience || is_blank nonce)
          (new storage_invalid "proof nonce scope is required"))
    exec (λ t. (record t { nonces = delete_expired domain_id now t.nonces }, next tt))
    exec (λ t.
        let (rows, used) =
          insert_nonce
            (record {
              domain_id = domain_id;
              device_id = device_id;
              nonce = proof_nonce_storage_key audience nonce;
              expires_at = expires_at;
            })
            t.nonces in
        (record t { nonces = rows }, next used))
