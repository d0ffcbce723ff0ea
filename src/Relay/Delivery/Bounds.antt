-- ===== src/Relay/Delivery/Bounds.antt =====
-- services/relay-reference/internal/relay/server.go, validateEnvelopeMeta.
use iscp.Prelude.{◌≡◌, false, string_eq, is_blank, arith, ◌↔◌}
use text.Mathlib.TextEquality.{eq_iff}
use iscp.Prelude.Int.{pos, ◌≤ℤ◌}
use iscp.Errors.{ok}
use iscp.Relay.{Config, EnvelopeMeta}
use iscp.Relay.Delivery.{validate_envelope_meta}

-- The routing data of an envelope pass exactly when they are of the relay's domain, name a message, a
-- sender and a recipient, give a time to live of 1 to 86400 seconds, and a priority of 0 to 9.
pub validate_envelope_meta_iff :
    (cfg : Config) (e : EnvelopeMeta)
    → (validate_envelope_meta cfg e ≡ ok tt) ↔ (
        (e.domain_id ≡ cfg.domain_id)
        × (is_blank e.message_id ≡ false)
        × (is_blank e.sender_device_id ≡ false)
        × (is_blank e.recipient_device_id ≡ false)
        × (pos 1 ≤ℤ e.ttl_seconds)
        × (e.ttl_seconds ≤ℤ pos 86400)
        × (pos 0 ≤ℤ e.priority)
        × (e.priority ≤ℤ pos 9))
unfolding validate_envelope_meta
validate_envelope_meta_iff cfg e = (
  λ h. ground (arith, eq_iff e.domain_id cfg.domain_id),
  λ h. ground (arith, eq_iff e.domain_id cfg.domain_id),
)
