-- ===== src/Errors.antt =====
-- pkg/iscp/errors/errors.go: the error value, and results that carry one.
use iscp.Prelude.{◌⊎◌, inl, inr, String, ◌≡◌, refl, Bool, true, false}

pub data Code : Type 0 where
  canonical_invalid schema_invalid signature_invalid key_invalid trust_invalid : Code
  session_invalid envelope_invalid replay_detected access_invalid provision_invalid : Code
  config_invalid storage_invalid : Code

-- `external` is an error that a library returned as it is; `wrap` forgets what it wraps.
pub data Error : Type 0 where
  new wrap retryable : Code → String → Error
  external no_rows : Error

-- err == pgx.ErrNoRows
abbrev pub is_no_rows : Error → Bool
is_no_rows (new code message) = false
is_no_rows (wrap code message) = false
is_no_rows (retryable code message) = false
is_no_rows external = false
is_no_rows no_rows = true

pub data Result {ℓ} (A : Type ℓ) : Type ℓ where
  err : Error → Result A
  ok : A → Result A

-- if b { return e }
abbrev pub reject_if : Bool → Error → Result (Unit {0})
reject_if true e = err e
reject_if false e = ok tt

-- `if err != nil { return err }` between two steps
infixl 5 ◌>>=◌ ◌>>◌
abbrev pub ◌>>=◌ {ℓ κ} : {A : Type ℓ} {B : Type κ} → Result A → (A → Result B) → Result B
err failure >>= next = err failure
ok value >>= next = next value

abbrev pub ◌>>◌ {ℓ} : {B : Type ℓ} → Result (Unit {0}) → Result B → Result B
first >> second = first >>= λ done. second

pub Result-cases {ℓ} :
    {A : Type ℓ} (r : Result A) → ((a : A) × (r ≡ ok a)) ⊎ ((e : Error) × (r ≡ err e))
Result-cases (ok a) = inl (a, refl)
Result-cases (err e) = inr (e, refl)
