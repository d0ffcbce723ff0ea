-- ===== src/Server/Policy.antt =====
-- pkg/server/policy/policy.go: what the default policy allows of each permission.
use iscp.Prelude.{ℕ, ◌*◌, String, Bool, true, string_eq, none, some}
use iscp.Prelude.Map
use iscp.Prelude.Map.{Map}
use iscp.Errors.{Result, ok, err, new, trust_invalid}

-- Durations are in nanoseconds.
pub record PermissionRule : Type 0 where
  pub permission : String
  pub risk_class : String
  pub max_ttl : ℕ
  pub max_cache_staleness : ℕ
  pub requires_authorized_device : Bool

pub record Engine : Type 0 where
  pub rules : Map String PermissionRule

abbrev second : ℕ
second = 1_000_000_000

unfoldable pub new_default : Engine
new_default = record {
  rules =
      Map.put
        (Map.put Map.empty "text" (record {
          permission = "text";
          risk_class = "normal";
          max_ttl = 3600 * second;
          max_cache_staleness = 30 * second;
          requires_authorized_device = true;
        }))
        "audio.frame"
        (record {
          permission = "audio.frame";
          risk_class = "sensitive";
          max_ttl = 300 * second;
          max_cache_staleness = 5 * second;
          requires_authorized_device = true;
        });
}

unfoldable pub rule : Engine → String → Result PermissionRule
rule e permission = elim (Map.get e.rules permission) [
  | none ↦ err (new trust_invalid "permission is not allowed by policy")
  | some r ↦ ok r
]
