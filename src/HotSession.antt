-- ===== src/HotSession.antt =====
-- pkg/iscp/hotsession/hotsession.go: tickets that resume a session.
use iscp.Prelude.{ℕ, ◌<◌, ◌≡◌, ◌≢◌, String, string_eq, ◌==◌, not, ◌||◌, ltb, ◌↔◌, arith}
use text.Mathlib.TextEquality.{eq_iff}
use iscp.Errors.{Result, ok, new, session_invalid, ◌>>◌, reject_if}

pub record Ticket : Type 0 where
  pub session_id : String
  pub grant_id : String
  pub permission : String
  pub counter : ℕ
  pub resume_before : ℕ

unfoldable pub validate : Ticket → String → ℕ → Result (Unit {0})
validate t permission now = do
  reject_if (t.session_id == "" || t.grant_id == "")
      (new session_invalid "hot session is incomplete")
  reject_if (not (t.permission == permission))
      (new session_invalid "hot session permission mismatch")
  reject_if (not (ltb now t.resume_before))
      (new session_invalid "hot session resume window expired")

-- A ticket resumes exactly when it names a session and a grant, is for the permission that is asked
-- for, and its window has not ended.
pub validate_iff :
    (t : Ticket) (permission : String) (now : ℕ)
    → (validate t permission now ≡ ok tt) ↔ (
        (t.session_id ≢ "")
        × (t.grant_id ≢ "")
        × (t.permission ≡ permission)
        × (now < t.resume_before))
unfolding validate
validate_iff t permission now = (
  λ h. (
    λ e. ground (arith, eq_iff t.session_id ""),
    λ e. ground (arith, eq_iff t.grant_id ""),
    ground (arith, eq_iff t.permission permission),
    ground arith,
  ),
  λ h. ground (
    arith,
    h.0,
    h.1,
    eq_iff t.session_id "",
    eq_iff t.grant_id "",
    eq_iff t.permission permission,
  ),
)
