-- ===== src/Server/Replay.antt =====
-- pkg/server/replay/replay.go: the cache of used proof nonces, each until its proof expires.
pub mod Uses
use iscp.Prelude.{
  ℕ, String, Bool, true, false, not, Option, none, some, ltb, string_eq, if◌then◌else◌,
}
use iscp.Prelude.Map
use iscp.Prelude.Map.{Map}

pub record Cache : Type 0 where
  pub items : Map String ℕ

unfoldable pub new_cache : Cache
new_cache = record { items = Map.empty }

-- exp, ok := items[key]; ok && now.Before(exp)
abbrev pub is_held : ℕ → Option ℕ → Bool
is_held now none = false
is_held now (some exp) = ltb now exp

-- for k, exp := range items { if now.After(exp) { delete(items, k) } }
unfoldable pub sweep : ℕ → Map String ℕ → Map String ℕ
sweep now items = Map.filter (λ exp. not (ltb exp now)) items

unfoldable pub use_key : String → ℕ → ℕ → Cache → Cache × Bool
unfolding sweep
use_key key expires_at now c =
    let items = sweep now c.items in
    if is_held now (Map.get items key)
    then (record { items = items }, false)
    else (record { items = Map.put items key expires_at }, true)
