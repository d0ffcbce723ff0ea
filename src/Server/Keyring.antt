-- ===== src/Server/Keyring.antt =====
-- pkg/server/keyring/keyring.go: the trust root's signing keys and their rotation.
pub mod Rotation
use iscp.Prelude.{
  ℕ, String, Bool, true, false, not, Option, none, some, ltb, string_eq, if◌then◌else◌, List, Bytes,
}
use iscp.Errors.{Result, ok, err, Error, new, key_invalid}
use iscp.Prelude.Map
use iscp.Prelude.Map.{Map}

-- The four states that the package names.
pub data State : Type 0 where
  next active retired revoked : State

-- The key material, as bytes.
pub record Key : Type 0 where
  pub id : String
  pub state : State
  pub private : Bytes
  pub public : Bytes

abbrev pub Ring : Type 0
Ring = Map String Key

unfoldable pub add : Ring → Key → Ring
add r key = Map.put r key.id key

abbrev pub is_active : Key → Bool
is_active key = elim key.state [ active ↦ true | _ ↦ false ]

abbrev pub is_next : Key → Bool
is_next key = elim key.state [ next ↦ true | _ ↦ false ]

abbrev pub is_revoked : Key → Bool
is_revoked key = elim key.state [ revoked ↦ true | _ ↦ false ]

-- Go visits the keys in no fixed order, and this in that of the entries.
unfoldable pub active_key : Ring → Result Key
active_key r = elim (Map.pick is_active r) [
  | none ↦ err (new key_invalid "active signing key not found")
  | some key ↦ ok key
]

unfoldable pub get_key : Ring → String → Result Key
get_key r id = elim (Map.get r id) [
  | none ↦ err (new key_invalid "signing key not found")
  | some key ↦ if is_revoked key then err (new key_invalid "signing key not found") else ok key
]

unfoldable pub retire : Key → Key
retire key = if is_active key then record key { state = retired } else key

unfoldable pub rotate : Ring → String → Result Ring
unfolding retire
rotate r next_id = elim (Map.get r next_id) [
  | none ↦ err (new key_invalid "next key not found")
  | some key ↦
      if is_next key
      then ok (Map.put (Map.map_values retire r) next_id (record key { state = active }))
      else err (new key_invalid "next key not found")
]
