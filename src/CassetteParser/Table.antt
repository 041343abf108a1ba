-- ===== src/CassetteParser/Table.antt =====
-- The cash total tables of agent/parsers/cassette_parser.py (section 3 of `parse_block`).
use atm_monitoring_agent.Prelude.{
  ℕ, zero, suc, ◌+◌, ◌*◌, max, String, Option, none, some, List, [], ◌∷◌, length, get_elem?,
  if◌then◌else◌, leb, ◌==◌,
}
use atm_monitoring_agent.ParserModels.{Text, CassetteSnapshot, bare_snapshot}
use atm_monitoring_agent.TextOps.{strip}
use atm_monitoring_agent.EventPatterns.Cassette.{
  denomination_row, dispensed_row, rejected_row, remaining_row,
}

pub record CashTable : Type 0 where
  pub denoms : List ℕ
  pub dispensed : List ℕ
  pub rejected : List ℕ
  pub remaining : List ℕ

abbrev pub empty_table : CashTable
empty_table = record { denoms = []; dispensed = []; rejected = []; remaining = [] }

-- one line: the first of the four patterns that is found sets its row
unfoldable pub read_row : CashTable → Text → CashTable
read_row t line = elim (denomination_row line) [
  | some xs ↦ record t { denoms = xs }
  | none ↦ elim (dispensed_row line) [
    | some xs ↦ record t { dispensed = xs }
    | none ↦ elim (rejected_row line) [
      | some xs ↦ record t { rejected = xs }
      | none ↦ elim (remaining_row line) [ some xs ↦ record t { remaining = xs } | none ↦ t ]
    ]
  ]
]

unfoldable pub read_table : CashTable → List Text → CashTable
unfolding strip
read_table t [] = t
read_table t (line ∷ lines) = read_table (read_row t (strip line)) lines

unfoldable pub note_status : Option ℕ → String
note_status none = "Normal"
note_status (some n) = if n == 0 then "Empty" else if leb n 50 then "Low" else "Normal"

abbrev pub amount_of : Option ℕ → Option ℕ → Option ℕ
amount_of (some denom) (some rem) = some (denom * rem)
amount_of _ _ = none

unfoldable pub cell_snapshot : Text → ℕ → ℕ → CashTable → ℕ → CassetteSnapshot
unfolding note_status
cell_snapshot file first last t idx =
    let denom = get_elem? t.denoms idx in
    let rem = get_elem? t.remaining idx in
    record (bare_snapshot (idx + 1) (note_status rem) "BalanceUpdate" file first last) {
      denomination = denom;
      dispensed_notes = get_elem? t.dispensed idx;
      rejected_notes = get_elem? t.rejected idx;
      remaining_notes = rem;
      cash_amount = amount_of denom rem;
    }

-- `for idx in range(…)`, from `idx` on for the given number of rounds
unfoldable pub cells : Text → ℕ → ℕ → CashTable → ℕ → ℕ → List CassetteSnapshot
cells file first last t idx zero = []
cells file first last t idx (suc n) =
    cell_snapshot file first last t idx ∷ cells file first last t (idx + 1) n

abbrev pub num_cassettes : CashTable → ℕ
num_cassettes t =
    max (max (length t.denoms) (length t.dispensed)) (max (length t.rejected) (length t.remaining))

-- Without a row the number of cassettes is 0 and there is no round.
unfoldable pub table_snapshots : Text → ℕ → ℕ → List Text → List CassetteSnapshot
unfolding cells
table_snapshots file first last lines =
    let t = read_table empty_table lines in cells file first last t 0 (num_cassettes t)
