-- ===== src/Canonical/TopLevel.antt =====
-- pkg/iscp/canonical/canonical.go, RejectUnknownTopLevel: the fields that a document may have.
use iscp.Prelude.{
  ◌≡◌, ◌∙◌, ap, refl, String, string_eq, ◌+++◌, true, List, contains, if◌then◌else◌, ◌↔◌,
  Bool-cases, inl, inr, arith,
}
use iscp.Errors.{Result, ok, err, new, canonical_invalid, ◌>>=◌, Result-cases}
use iscp.Canonical.{Value, null, boolean, str, num, arr, obj, Fields, end, field}
use iscp.Canonical.Parser.{Token, parse_tokens}

-- Go visits the fields in no fixed order, so which unknown field the message names is open.
unfoldable pub check_keys : List String → Fields → Result (Unit {0})
check_keys allowed end = ok tt
check_keys allowed (field k v fs) =
    let rest = check_keys allowed fs in
    if contains allowed k
    then rest
    else err (new canonical_invalid ("unknown top-level field: " +++ k))

unfoldable pub check_top_level : List String → Value → Result (Unit {0})
unfolding check_keys
check_top_level allowed (obj fs) = check_keys allowed fs
check_top_level allowed null = err (new canonical_invalid "top-level value must be an object")
check_top_level allowed (boolean b) =
    err (new canonical_invalid "top-level value must be an object")
check_top_level allowed (str s) = err (new canonical_invalid "top-level value must be an object")
check_top_level allowed (num i) = err (new canonical_invalid "top-level value must be an object")
check_top_level allowed (arr xs) = err (new canonical_invalid "top-level value must be an object")

unfoldable pub reject_unknown_top_level : List Token → List String → Result (Unit {0})
unfolding check_top_level
reject_unknown_top_level input allowed = do
  value ← parse_tokens input
  check_top_level allowed value

-- Every key is allowed.
abbrev pub AllAllowed : List String → Fields → Type 0
AllAllowed allowed end = Unit
AllAllowed allowed (field k v fs) = (contains allowed k ≡ true) × AllAllowed allowed fs

check_keys→AllAllowed :
    (allowed : List String) (fs : Fields) → check_keys allowed fs ≡ ok tt → AllAllowed allowed fs
unfolding check_keys
check_keys→AllAllowed allowed end h = tt
check_keys→AllAllowed allowed (field k v fs) h = elim (Bool-cases (contains allowed k)) [
  | inl known ↦ (known, check_keys→AllAllowed allowed fs (rw known at h))
  | inr unknown ↦ absurd (ground arith)
]

AllAllowed→check_keys :
    (allowed : List String) (fs : Fields) → AllAllowed allowed fs → check_keys allowed fs ≡ ok tt
unfolding check_keys
AllAllowed→check_keys allowed end h = refl
AllAllowed→check_keys allowed (field k v fs) h = rw (h.0) (AllAllowed→check_keys allowed fs h.1)

check_top_level→ :
    (allowed : List String) (v : Value)
    → check_top_level allowed v ≡ ok tt
    → (fs : Fields) × (v ≡ obj fs) × AllAllowed allowed fs
unfolding check_top_level
check_top_level→ allowed (obj fs) h = (fs, refl, check_keys→AllAllowed allowed fs h)
check_top_level→ allowed null h = cc
check_top_level→ allowed (boolean b) h = cc
check_top_level→ allowed (str s) h = cc
check_top_level→ allowed (num i) h = cc
check_top_level→ allowed (arr xs) h = cc

-- A document passes exactly when strict parsing reads it as an object all of whose keys are allowed.
pub reject_unknown_top_level_iff :
    (input : List Token) (allowed : List String)
    → (reject_unknown_top_level input allowed ≡ ok tt)
      ↔ ((fs : Fields) × (parse_tokens input ≡ ok (obj fs)) × AllAllowed allowed fs)
unfolding reject_unknown_top_level
reject_unknown_top_level_iff input allowed = (
  λ h. elim (Result-cases (parse_tokens input)) [
    | inl (v, read) ↦
        let (fs, e, all) = check_top_level→ allowed v (rw read at h) in (fs, read ∙ ap ok e, all)
    | inr (e, bad) ↦ absurd (ground arith)
  ],
  λ d. let (fs, read, all) = d in rw read (AllAllowed→check_keys allowed fs all),
)
