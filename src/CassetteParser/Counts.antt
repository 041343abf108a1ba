-- ===== src/CassetteParser/Counts.antt =====
-- CASH COUNTS CLEARED and CASH ADDED of agent/parsers/cassette_parser.py (section 4 of
-- `parse_block`). The snapshots that the loop changes in place are the list `snaps`.
use atm_monitoring_agent.Prelude.{
  ℕ, ◌+◌, Bool, true, false, ◌||◌, String, Option, none, some, List, [], ◌∷◌, if◌then◌else◌, leb,
  ◌==◌,
}
use atm_monitoring_agent.ParserModels.{Text, CassetteSnapshot, bare_snapshot}
use atm_monitoring_agent.TextOps.{text, strip, contains_any_case}
use atm_monitoring_agent.EventPatterns.Cassette.{cash_type_row}

pub data Section : Type 0 where
  nowhere dispensed remaining rejected : Section

-- the section that the line opens
unfoldable pub section_of : Text → Option Section
unfolding contains_any_case
section_of line =
    if contains_any_case (text "CASH DISPENSED") line
    then some dispensed
    else if contains_any_case (text "CASH REMAINING") line
    then some remaining
    else if contains_any_case (text "CASH REJECTED") line
    then some rejected
    else none

-- `s.CassetteNo == c_no`
abbrev pub has_number : ℕ → CassetteSnapshot → Bool
has_number n s = s.cassette_no == n

abbrev pub low_status : ℕ → String → String
low_status val status = if val == 0 then "Empty" else if leb val 50 then "Low" else status

-- what one value sets
unfoldable pub set_notes : Bool → Section → ℕ → CassetteSnapshot → CassetteSnapshot
set_notes true section val s = record s {
  loaded_notes = some val;
  remaining_notes = some val;
  cassette_status = "Normal";
}
set_notes false nowhere val s = s
set_notes false dispensed val s = record s { dispensed_notes = some val }
set_notes false remaining val s = record s {
  remaining_notes = some val;
  cassette_status = low_status val s.cassette_status;
}
set_notes false rejected val s = record s { rejected_notes = some val }

-- Changes the first snapshot with the number, or adds one.
unfoldable pub put_notes :
    CassetteSnapshot → Bool → Section → ℕ → List CassetteSnapshot → List CassetteSnapshot
unfolding set_notes
put_notes fresh added section val [] = set_notes added section val fresh ∷ []
put_notes fresh added section val (s ∷ snaps) =
    let rest = put_notes fresh added section val snaps in
    if has_number fresh.cassette_no s then set_notes added section val s ∷ snaps else s ∷ rest

abbrev pub op_type : Bool → String
op_type is_cleared = if is_cleared then "CashCountsCleared" else "CashAdded"

-- `for idx, val in enumerate(vals)`; `number` is `idx + 1`
module _ (file : Text) (first last : ℕ) (is_cleared is_added : Bool) where
  unfoldable pub put_row : Section → ℕ → List ℕ → List CassetteSnapshot → List CassetteSnapshot
  unfolding put_notes
  put_row section number [] snaps = snaps
  put_row section number (val ∷ vals) snaps = put_row section (number + 1) vals (
      put_notes (bare_snapshot number "Normal" (op_type is_cleared) file first last) is_added
        section val snaps)

  unfoldable pub count_lines : Section → List Text → List CassetteSnapshot → List CassetteSnapshot
  unfolding strip put_row
  count_lines section [] snaps = snaps
  count_lines section (line ∷ lines) snaps = elim (section_of (strip line)) [
    | some opened ↦ count_lines opened lines snaps
    | none ↦ elim (cash_type_row (strip line)) [
      | some vals ↦ count_lines section lines (put_row section 1 vals snaps)
      | none ↦ count_lines section lines snaps
    ]
  ]

  unfoldable pub cash_counts : List Text → List CassetteSnapshot → List CassetteSnapshot
  unfolding count_lines
  cash_counts lines snaps =
      if is_cleared || is_added then count_lines nowhere lines snaps else snaps
