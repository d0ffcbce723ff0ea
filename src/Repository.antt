-- ===== src/Repository.antt =====
-- pkg/server/repository/domain.go, and what the repositories share: tables as lists of rows, and
-- statements that may fail.
pub mod Relay
pub mod Messages
pub mod Nonces
use iscp.Prelude.{String, Bool, true, false, List, [], ◌∷◌, map, if◌then◌else◌, string_eq, ◌==◌}
use iscp.Errors.{Error, Result, ok, err, new, external, storage_invalid, reject_if}
use iscp.Effect.{Effect, Outcome, stop, next}

unfoldable pub require_domain : String → Result (Unit {0})
require_domain domain_id = reject_if (domain_id == "") (new storage_invalid "domain_id is required")

module _ {Row : Type 0} where
  -- Is there a row that the WHERE clause selects?
  unfoldable pub has_row : (Row → Bool) → List Row → Bool
  has_row test [] = false
  has_row test (row ∷ rows) = if test row then true else has_row test rows

  -- UPDATE ... SET ... WHERE ...
  unfoldable pub update_rows : (Row → Bool) → (Row → Row) → List Row → List Row
  update_rows test set [] = []
  update_rows test set (row ∷ rows) =
      (if test row then set row else row) ∷ update_rows test set rows

  -- SELECT ... WHERE ..., of which one row is read
  unfoldable pub select_row : (Row → Bool) → List Row → Result Row
  select_row test [] = err iscp.Errors.no_rows
  select_row test (row ∷ rows) = if test row then ok row else select_row test rows

-- A database is its tables and the faults to come: the connection may fail at every statement, and a
-- statement that fails changes nothing.
pub record Database (Tables : Type 0) : Type 0 where
  pub tables : Tables
  pub faults : List Bool

abbrev pub Statement : Type 0 → Type 0 → Type 0
Statement Tables A = Effect (Database Tables) Error A

module _ {Tables A : Type 0} where
  abbrev run_in : List Bool → Tables × Outcome Error A → Database Tables × Outcome Error A
  run_in faults (tables, outcome) = (record { tables = tables; faults = faults }, outcome)

  abbrev pub answer_in :
      (Tables → Tables × Outcome Error A) → Tables → List Bool → Database Tables × Outcome Error A
  answer_in effect tables [] = run_in [] (effect tables)
  answer_in effect tables (true ∷ faults) =
      (record { tables = tables; faults = faults }, stop external)
  answer_in effect tables (false ∷ faults) = run_in faults (effect tables)

  -- One statement: db.Exec, db.Query or db.QueryRow
  unfoldable pub exec : (Tables → Tables × Outcome Error A) → Statement Tables A
  exec effect db = answer_in effect db.tables db.faults
