-- ===== src/Repository/Relay.antt =====
-- pkg/server/repository/relay.go and proof_nonce.go: the relay's tables and its statements.
use iscp.Prelude.{
  ℕ, String, Bool, true, false, not, ◌&&◌, ◌||◌, Option, none, some, List, [], ◌∷◌, ◌++◌,
  if◌then◌else◌, string_eq, nat_eq, bytes_eq, ◌==◌, ltb, Bytes, contains,
}
use iscp.Prelude.Int.{ℤ}
use iscp.Errors.{Error, Result, ok, err, new, external, storage_invalid, reject_if}
use iscp.Effect.{Outcome, stop, next, ◌>>◌, pure_call, of_result}
use iscp.Repository.{require_domain, has_row, update_rows, select_row, Database, Statement, exec}
use iscp.Identity.{DeviceIdentity}

-- The JSON of an identity stands as the identity itself, and its canonical form, which follows from
-- it, is left out.
pub record RelayDevice : Type 0 where
  pub id : String
  pub domain_id : String
  pub device_id : String
  pub identity_raw : DeviceIdentity
  pub public_key_thumbprint : String
  pub status : String
  pub created_at : ℕ
  pub updated_at : ℕ

pub record RelayCredential : Type 0 where
  pub id : String
  pub domain_id : String
  pub device_id : String
  pub hash : Bytes
  pub issued_at : ℕ
  pub expires_at : ℕ

pub record RelayMessage : Type 0 where
  pub id : String
  pub domain_id : String
  pub message_id : String
  pub sender_device_id : String
  pub recipient_device_id : String
  pub session_id : String
  pub payload_type : String
  pub route_metadata : Bytes
  pub envelope_raw : Bytes
  pub envelope_canonical : Bytes
  pub priority : ℤ
  pub queued_at : ℕ
  pub expires_at : ℕ

pub record RelayReceipt : Type 0 where
  pub id : String
  pub domain_id : String
  pub receipt_id : String
  pub message_id : String
  pub relay_id : String
  pub status : String
  pub receipt_raw : Bytes
  pub receipt_canonical : Bytes
  pub issued_at : ℕ

-- Rows have columns that the Go structs leave out.
pub record CredentialRow : Type 0 where
  pub credential : RelayCredential
  pub revoked_at : Option ℕ

pub record MessageRow : Type 0 where
  pub message : RelayMessage
  pub delivered_at : Option ℕ
  pub claimed_until : Option ℕ
  pub attempts : ℕ

pub record NonceRow : Type 0 where
  pub domain_id : String
  pub device_id : String
  pub nonce : String
  pub expires_at : ℕ

pub record Tables : Type 0 where
  pub devices : List RelayDevice
  pub access_tokens : List CredentialRow
  pub refresh_tokens : List CredentialRow
  pub messages : List MessageRow
  pub receipts : List RelayReceipt
  pub nonces : List NonceRow

abbrev pub RelayDatabase : Type 0
RelayDatabase = Database Tables

unfoldable pub is_device : String → String → RelayDevice → Bool
is_device domain_id device_id row = row.domain_id == domain_id && row.device_id == device_id

-- CHECK (status IN ('active', 'revoked', 'disabled'))
abbrev pub device_statuses : List String
device_statuses = "active" ∷ "revoked" ∷ "disabled" ∷ []

put_device : RelayDevice → Tables → Tables × Outcome Error (Unit {0})
unfolding is_device
put_device device t =
    if not (contains device_statuses device.status)
    then (t, stop external)
    else if has_row (is_device device.domain_id device.device_id) t.devices
    then (
      record t {
        devices =
            update_rows (is_device device.domain_id device.device_id)
              (λ row. record row {
                identity_raw = device.identity_raw;
                public_key_thumbprint = device.public_key_thumbprint;
                status = device.status;
                updated_at = device.updated_at;
              })
              t.devices;
      },
      next tt,
    )
    else if has_row (λ row. row.id == device.id) t.devices
    then (t, stop external)
    else (record t { devices = t.devices ++ device ∷ [] }, next tt)

unfoldable pub insert_device : RelayDevice → Statement Tables (Unit {0})
unfolding put_device
insert_device device = do pure_call (require_domain device.domain_id); exec (put_device device)

unfoldable pub get_device : String → String → Statement Tables RelayDevice
get_device domain_id device_id = do
  pure_call (require_domain domain_id)
  exec (λ t. (t, of_result (select_row (is_device domain_id device_id) t.devices) (λ e. e)))

unfoldable pub revoke_device : String → String → ℕ → Statement Tables (Unit {0})
revoke_device domain_id device_id now = do
  pure_call (require_domain domain_id)
  exec (λ t. (
    record t {
      devices =
          update_rows (is_device domain_id device_id)
            (λ row. record row { status = "revoked"; updated_at = now }) t.devices;
    },
    next tt,
  ))

abbrev pub is_null : Option ℕ → Bool
is_null none = true
is_null (some time) = false

unfoldable pub has_hash : String → Bytes → CredentialRow → Bool
has_hash domain_id hash row = row.credential.domain_id == domain_id && row.credential.hash == hash

-- revoked_at IS NULL AND expires_at > $3
unfoldable pub is_usable : ℕ → CredentialRow → Bool
is_usable now row = is_null row.revoked_at && ltb now row.credential.expires_at

-- The primary key and UNIQUE(domain_id, hash) refuse a second row.
unfoldable pub add_credential :
    RelayCredential → List CredentialRow → List CredentialRow × Outcome Error (Unit {0})
add_credential c rows =
    if has_row (λ row. row.credential.id == c.id) rows || has_row (has_hash c.domain_id c.hash) rows
    then (rows, stop external)
    else (rows ++ record { credential = c; revoked_at = none } ∷ [], next tt)

unfoldable pub store_refresh_hash : RelayCredential → Statement Tables (Unit {0})
store_refresh_hash c = do
  pure_call (require_domain c.domain_id)
  exec (λ t.
      let (rows, outcome) = add_credential c t.refresh_tokens in
      (record t { refresh_tokens = rows }, outcome))

unfoldable pub store_access_hash : RelayCredential → Statement Tables (Unit {0})
store_access_hash c = do
  pure_call (require_domain c.domain_id)
  exec (λ t.
      let (rows, outcome) = add_credential c t.access_tokens in
      (record t { access_tokens = rows }, outcome))

unfoldable pub find_credential :
    String → Bytes → ℕ → List CredentialRow → Outcome Error RelayCredential
find_credential domain_id hash now rows =
    of_result
      (iscp.Errors.◌>>=◌ (select_row (λ row. has_hash domain_id hash row && is_usable now row) rows)
        (λ row. ok row.credential))
      (λ e. e)

unfoldable pub get_refresh_by_hash : String → Bytes → ℕ → Statement Tables RelayCredential
get_refresh_by_hash domain_id hash now = do
  pure_call (require_domain domain_id)
  exec (λ t. (t, find_credential domain_id hash now t.refresh_tokens))

unfoldable pub get_access_by_hash : String → Bytes → ℕ → Statement Tables RelayCredential
get_access_by_hash domain_id hash now = do
  pure_call (require_domain domain_id)
  exec (λ t. (t, find_credential domain_id hash now t.access_tokens))

unfoldable pub revoke_credentials :
    (CredentialRow → Bool) → ℕ → List CredentialRow → List CredentialRow
revoke_credentials test now rows =
    update_rows (λ row. test row && is_null row.revoked_at)
      (λ row. record row { revoked_at = some now }) rows

unfoldable pub revoke_refresh_by_hash : String → Bytes → ℕ → Statement Tables (Unit {0})
revoke_refresh_by_hash domain_id hash now = do
  pure_call (require_domain domain_id)
  exec (λ t. (
    record t { refresh_tokens = revoke_credentials (has_hash domain_id hash) now t.refresh_tokens },
    next tt,
  ))

unfoldable pub is_of_device : String → String → CredentialRow → Bool
is_of_device domain_id device_id row =
    row.credential.domain_id == domain_id && row.credential.device_id == device_id

unfoldable pub revoke_device_credentials : String → String → ℕ → Statement Tables (Unit {0})
revoke_device_credentials domain_id device_id now = do
  pure_call (require_domain domain_id)
  exec (λ t. (
    record t {
      access_tokens = revoke_credentials (is_of_device domain_id device_id) now t.access_tokens;
    },
    next tt,
  ))
  exec (λ t. (
    record t {
      refresh_tokens = revoke_credentials (is_of_device domain_id device_id) now t.refresh_tokens;
    },
    next tt,
  ))
