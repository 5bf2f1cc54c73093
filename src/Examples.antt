-- ===== src/Examples.antt =====
-- Concrete inputs for the theorems, and runs of the definitions on them.
pub mod Relaying
pub mod Limits
pub mod Subscribing
pub mod Admission
pub mod Streaming
pub mod Storing
pub mod Syncing
pub mod Charting
pub mod Serving
use elitehub_vault.Base.{
  ℕ, Text, codes, decimal, text_eq, nat_eq, List, [], ◌∷◌, Option, none, some, refl, arith, ◌==◌,
  ◌≤◌, ◌≡◌, if◌then◌else◌, length, keep, not, suc, zero,
}
use elitehub_vault.Contracts.{entered, Platform}
use elitehub_vault.Relay.{OutboxRow, OutboxDb}

-- JSON values, JavaScript numbers and dates are numbers here; 1 and 2 parse.
abbrev pub platform : Platform ℕ ℕ ℕ
platform = record {
  parse_powerplay = λ j.
      if j == 1
      then some (record {
        system_id = codes "10477373803";
        changed_fields = codes "powerplayState" ∷ [];
        source = none;
        metadata = none;
      })
      else none;
  parse_presence = λ j.
      if j == 2
      then some
          (record { faction_id = codes "7"; system_id = codes "10477373803"; change = entered })
      else none;
  parse_state = λ j. none;
  parse_threat = λ j. none;
  to_iso_string = decimal;
}

abbrev pub Rows : Type 0
Rows = List (OutboxRow ℕ ℕ)

unfoldable pub take_rows : ℕ → Rows → Rows
take_rows n [] = []
take_rows zero (row ∷ rows) = []
take_rows (suc n) (row ∷ rows) = row ∷ take_rows n rows

pub take_rows-le : (n : ℕ) (rows : Rows) → length (take_rows n rows) ≤ n
unfolding take_rows
take_rows-le n [] = omega arith
take_rows-le zero (row ∷ rows) = omega arith
take_rows-le (suc n) (row ∷ rows) = omega (arith, take_rows-le n rows)

-- The outbox as a list of rows; every system has the same two powers.
abbrev pub tables : OutboxDb ℕ ℕ
tables = record {
  Db = Rows;
  rows = λ db. db;
  power_ids = λ db system_id. codes "3" ∷ codes "5" ∷ [];
  fetch_batch = take_rows;
  delete_row = λ id. keep (λ row. not (row.id == id));
  length-fetch_batch-le = take_rows-le;
  rows-delete_row = λ id db. refl;
  power_ids-delete_row = λ id db system_id. refl;
}
