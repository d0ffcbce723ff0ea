-- ===== src/Config.antt =====
-- pkg/iscp/config/config.go: which relaxations a deployment profile allows.
use iscp.Prelude.{
  ◌≡◌, refl, String, string_eq, ◌==◌, Bool, true, false, not, ◌&&◌, ◌||◌, ◌⊎◌, inl, inr, ◌↔◌, arith,
  if◌then◌else◌,
}
use text.Mathlib.TextEquality.{eq_iff}
use iscp.Errors.{Result, ok, err, new, config_invalid, ◌>>◌, reject_if}

abbrev pub profile_production : String
profile_production = "production"

abbrev pub profile_staging : String
profile_staging = "staging"

abbrev pub profile_local_lab : String
profile_local_lab = "local-lab"

pub record Gate : Type 0 where
  pub profile : String
  pub allow_unsigned_descriptor : Bool
  pub allow_bearer_only_access : Bool
  pub allow_plaintext_debug : Bool
  pub allow_debug_secrets : Bool
  pub require_signed_descriptors : Bool
  pub require_proof_of_possession : Bool
  pub require_session_ready_before : Bool

unfoldable pub default_gate : String → Gate
default_gate profile = record {
  profile = profile;
  allow_unsigned_descriptor = false;
  allow_bearer_only_access = false;
  allow_plaintext_debug = false;
  allow_debug_secrets = false;
  require_signed_descriptors = not (profile == profile_local_lab);
  require_proof_of_possession = true;
  require_session_ready_before = true;
}

abbrev pub forbid_all : Gate → Result (Unit {0})
forbid_all g = do
  reject_if g.allow_unsigned_descriptor (new config_invalid "profile forbids unsigned descriptors")
  reject_if g.allow_bearer_only_access
      (new config_invalid "profile forbids bearer-only relay access")
  reject_if (g.allow_plaintext_debug || g.allow_debug_secrets)
      (new config_invalid "profile forbids plaintext debug secrets")

unfoldable pub validate_gate : Gate → Result (Unit {0})
validate_gate g =
    if g.profile == profile_production || g.profile == profile_staging
    then forbid_all g
    else if g.profile == profile_local_lab
    then reject_if (g.allow_plaintext_debug && not g.allow_debug_secrets)
        (new config_invalid "plaintext debug requires allow_debug_secrets")
    else err (new config_invalid "unknown profile")

-- A gate is valid exactly when it is of production or staging and allows none of the four
-- relaxations, or of the local lab and allows plaintext debugging only with debug secrets.
pub validate_gate_iff :
    (g : Gate)
    → (validate_gate g ≡ ok tt) ↔ (
        (((g.profile ≡ profile_production) ⊎ (g.profile ≡ profile_staging))
          × (g.allow_unsigned_descriptor ≡ false)
          × (g.allow_bearer_only_access ≡ false)
          × (g.allow_plaintext_debug ≡ false)
          × (g.allow_debug_secrets ≡ false))
        ⊎ ((g.profile ≡ profile_local_lab)
            × ((g.allow_plaintext_debug ≡ false) ⊎ (g.allow_debug_secrets ≡ true))))
unfolding validate_gate
validate_gate_iff g = (
  λ h. ground (
    arith,
    eq_iff g.profile profile_production,
    eq_iff g.profile profile_staging,
    eq_iff g.profile profile_local_lab,
  ),
  λ h. elim h [
    | inl (inl e, a, b, c, d) ↦ ground (arith, e, a, b, c, d, eq_iff g.profile profile_production)
    | inl (inr e, a, b, c, d) ↦ ground (arith, e, a, b, c, d, eq_iff g.profile profile_staging)
    | inr (e, inl a) ↦ rw (e, a) refl
    | inr (e, inr a) ↦ rw (e, a) (ground arith)
  ],
)
