-- ===== src/CassetteParser.antt =====
-- `CassetteParser.parse_block` of agent/parsers/cassette_parser.py. Of its result the caller uses
-- the cassette snapshots.
pub mod Table
pub mod Counts
pub mod Columns
pub mod Distinct
pub mod Inside
use atm_monitoring_agent.Prelude.{
  ℕ, ◌+◌, ◌-◌, ◌*◌, max, Bool, true, false, ◌&&◌, ◌||◌, String, Option, none, some, List, [], ◌∷◌,
  ◌++◌, length, if◌then◌else◌, ltb, any,
}
use atm_monitoring_agent.ParserModels.{Text, CassetteSnapshot, bare_snapshot}
use atm_monitoring_agent.TextOps.{text, text_eq, uppercase, strip, contains, int}
use atm_monitoring_agent.EventPatterns.Cassette.{
  InfoRow, cassette_removed, cassette_inserted, cassette_info_row,
}
use Table.{table_snapshots}
use Counts.{cash_counts}

abbrev when_known : ℕ → CassetteSnapshot → List CassetteSnapshot
when_known number snap = if ltb 0 number then snap ∷ [] else []

-- section 1, on one line
unfoldable pub action_snapshot : Text → ℕ → Text → List CassetteSnapshot
action_snapshot file n line = elim (cassette_removed line) [
  | some c ↦ when_known c (bare_snapshot c "Missing" "CassetteRemoved" file n n)
  | none ↦ elim (cassette_inserted line) [
    | some c ↦ when_known c (bare_snapshot c "Normal" "CassetteInserted" file n n)
    | none ↦ []
  ]
]

unfoldable pub action_snapshots : Text → ℕ → List Text → List CassetteSnapshot
unfolding strip
action_snapshots file n [] = []
action_snapshots file n (line ∷ lines) =
    action_snapshot file n (strip line) ++ action_snapshots file (n + 1) lines

-- `m_row.group("status").upper()`, by the chain of tests
unfoldable pub status_of : Text → String
unfolding text_eq
status_of raw =
    if text_eq raw (text "OK")
    then "Normal"
    else if text_eq raw (text "MISSING")
    then "Missing"
    else if text_eq raw (text "LOW")
    then "Low"
    else if text_eq raw (text "EMPTY")
    then "Empty"
    else if text_eq raw (text "FAULT")
    then "Fault"
    else "Unknown"

abbrev info_snapshot : Text → ℕ → InfoRow → CassetteSnapshot
info_snapshot file n r =
    record (bare_snapshot r.number (status_of (uppercase r.status)) "BalanceUpdate" file n n) {
      denomination = some (int r.val);
      currency_code = some r.cur;
    }

-- section 2, the rows
unfoldable pub info_snapshots : Text → ℕ → List Text → List CassetteSnapshot
unfolding strip uppercase int
info_snapshots file n [] = []
info_snapshots file n (line ∷ lines) =
    let later = info_snapshots file (n + 1) lines in
    elim (cassette_info_row (strip line)) [
      | some r ↦ when_known r.number (info_snapshot file n r) ++ later
      | none ↦ later
    ]

-- `any(literal in line for line in lines)`
unfoldable pub some_line : String → List Text → Bool
unfolding contains
some_line literal lines = any (contains (text literal)) lines

unfoldable pub table_or_counts :
    Text → ℕ → ℕ → List Text → List CassetteSnapshot → List CassetteSnapshot
table_or_counts file first last lines snaps = elim (table_snapshots file first last lines) [
  | [] ↦
      cash_counts file first last (some_line "CASH COUNTS CLEARED" lines)
        (some_line "CASH ADDED" lines) lines snaps
  | s ∷ table ↦ snaps ++ s ∷ table
]

abbrev unless_found : List CassetteSnapshot → List CassetteSnapshot → List CassetteSnapshot
unless_found [] otherwise = otherwise
unless_found (s ∷ snaps) otherwise = s ∷ snaps

unfoldable pub parse_cassettes : List Text → Text → ℕ → List CassetteSnapshot
parse_cassettes lines file start_line =
    let last = start_line + length lines - 1 in
    let actions = action_snapshots file start_line lines in
    if some_line "CASSETTE INFORMATION" lines
    then unless_found (actions ++ info_snapshots file start_line lines)
        (table_or_counts file start_line last lines actions)
    else table_or_counts file start_line last lines actions
