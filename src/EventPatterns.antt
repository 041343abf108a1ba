-- ===== src/EventPatterns.antt =====
-- agent/parsers/event_patterns.py: the table of operational patterns, the patterns of ignored
-- blocks, and the patterns that cut fields out of a block or a line. A function here is the call of
-- `match` or `search` that the parsers make with the pattern.
pub mod Cassette
mod Tests
use atm_monitoring_agent.Prelude.{
  ℕ, zero, suc, ◌*◌, ◌+◌, ◌-◌, Bool, true, false, ◌&&◌, ◌||◌, String, Option, none, some, List, [],
  ◌∷◌, ◌++◌, length, not, ◌==◌, if◌then◌else◌, is_some, any, leb, ltb,
}
use atm_monitoring_agent.ParserModels.{Text, Decimal}
use atm_monitoring_agent.TextOps.{
  text, is_space, is_digit, is_word, int, contains_any_case, line_starts, newline,
}
use atm_monitoring_agent.TextOps.Pattern.{
  ◌>>=◌, guard, lit, run, spaces, spaces1, run1, char, digit, search_for, first_of_starts,
  at_line_end, blank_to_line_end,
}

-- `^LITERAL$`
full_line : String → Text → Bool
full_line literal t = is_some (do rest ← lit (text literal) t; guard (at_line_end rest))

-- `^CARDS CLEARED\s*≈\s*\d+`
cards_cleared : Text → Bool
cards_cleared t =
    is_some
      (do a ← lit (text "CARDS CLEARED") t; b ← char 0x2248 (spaces a); run1 is_digit (spaces b))

abbrev is_digit_or_comma : ℕ → Bool
is_digit_or_comma c = is_digit c || c == b','

-- `^NOTES PRESENTED\s+[\d,]+`
notes_presented : Text → Bool
notes_presented t =
    is_some (do a ← lit (text "NOTES PRESENTED") t; b ← spaces1 a; run1 is_digit_or_comma b)

-- A row of `OPERATIONAL_PATTERNS`; the pattern is tried where `^` matches.
pub record Operational : Type 0 where
  pub pattern : Text → Bool
  pub event_type : String
  pub event_category : String
  pub severity : String
  pub terminal_status : Option String
  pub confidence : ℕ

abbrev row : (Text → Bool) → String → String → String → Option String → ℕ → Operational
row p event_type category severity status confidence = record {
  pattern = p;
  event_type = event_type;
  event_category = category;
  severity = severity;
  terminal_status = status;
  confidence = confidence;
}

abbrev info : String → String → String → Option String → ℕ → Operational
info literal event_type category status confidence =
    row (full_line literal) event_type category "Information" status confidence

abbrev warn : String → String → String → Option String → Operational
warn literal event_type category status =
    row (full_line literal) event_type category "Warning" status 100

unfoldable pub operational_patterns : List Operational
unfolding full_line cards_cleared notes_presented
operational_patterns =
    info "*TRANSACTION START*" "TransactionStart" "Transaction" none 100
    ∷ info "TRANSACTION END" "TransactionEnd" "Transaction" none 100
    ∷ info "*PRIMARY CARD READER ACTIVATED*" "CardReaderActivated" "CardReader" none 100
    ∷ info "SST IN SERVICE" "SSTInService" "Status" (some "InService") 100
    ∷ warn "SST OUT OF SERVICE" "SSTOutOfService" "Status" (some "OutOfService")
    ∷ info "SST ON-LINE" "SSTOnline" "Status" (some "Online") 100
    ∷ warn "SST OFF-LINE" "SSTOffline" "Status" (some "Offline")
    ∷ info "POWER-UP/RESET" "PowerUpReset" "System" (some "Unknown") 100
    ∷ info "SUPERVISOR MODE ENTRY" "SupervisorModeEntered" "Supervisor" (some "Supervisor") 100
    ∷ info "SUPERVISOR TASK ENTERED." "SupervisorModeEntered" "Supervisor" (some "Supervisor") 100
    ∷ info "SUPERVISOR TASK EXITED." "SupervisorModeExited" "Supervisor" (some "InService") 100
    ∷ warn "REJECT BIN REMOVED" "RejectBinRemoved" "RejectBin" none
    ∷ info "REJECT BIN INSERTED" "RejectBinInserted" "RejectBin" none 100
    ∷ row cards_cleared "CardsCleared" "CardReader" "Information" none 100
    ∷ info "CARD INSERTED" "CardInserted" "CardReader" none 80
    ∷ info "CARD TAKEN" "CardTaken" "CardReader" none 80
    ∷ info "CUSTOMER CANCELLED" "CustomerCancelled" "Transaction" none 80
    ∷ info "NOTES STACKED" "NotesStacked" "Cash" none 80
    ∷ row notes_presented "NotesPresented" "Cash" "Information" none 80
    ∷ info "NOTES TAKEN" "NotesTaken" "Cash" none 80
    ∷ info "CASH COUNTS CLEARED" "CashCountsCleared" "Cash" none 100
    ∷ info "CASH ADDED" "CashAdded" "Cash" none 100
    ∷ info "CASSETTE INFORMATION" "CassetteInformation" "Cassette" none 100
    ∷ []

-- The first row whose pattern is found.
unfoldable pub find_operational : List Operational → Text → Option Operational
find_operational [] t = none
find_operational (r ∷ rows) t =
    let later = find_operational rows t in if any r.pattern (line_starts t) then some r else later

terminal_id_blank : Text → Bool
terminal_id_blank t = is_some (do rest ← lit (text "TERMINALID:") t; guard (blank_to_line_end rest))

-- Whether one of `IGNORE_PATTERNS` is found.
unfoldable pub is_ignored : Text → Bool
unfolding terminal_id_blank
is_ignored t =
    contains_any_case (text "ENTER KEY WAS PRESSED") t
    || contains_any_case (text "KEY PRESSED") t
    || contains_any_case (text "SCREEN DISPLAY") t
    || contains_any_case (text "DISPLAY DATA") t
    || contains_any_case (text "KEYBOARD INPUT") t
    || any terminal_id_blank (line_starts t)

-- `[\*#\d]`
abbrev is_card_char : ℕ → Bool
is_card_char c = is_digit c || c == b'*' || c == b'#'

abbrev starts_with_digit : Text → Bool
starts_with_digit [] = false
starts_with_digit (c ∷ cs) = is_digit c

-- `\d+[\*#\d]+` takes the whole run of digits and masking characters, if it begins with a digit and
-- has a second character.
card_at : String → Text → Option Text
card_at literal t = do
  a ← lit (text literal) t
  r ← run1 is_card_char (spaces a)
  if starts_with_digit r.0 && ltb 1 (length r.0) then some r.0 else none

abbrev or_else {ℓ} : {A : Type ℓ} → Option A → Option A → Option A
or_else (some a) b = some a
or_else none b = b

-- `CARD_PATTERN.search(t) or CARD_NO_PATTERN.search(t)`
unfoldable pub card_number : Text → Option Text
unfolding card_at
card_number t = or_else (search_for (card_at "CARD:") t) (search_for (card_at "CARD NO:") t)

response_code_at : Text → Option Text
response_code_at t = do a ← lit (text "RESPONSE CODE:") t; r ← run1 is_word (spaces a); some r.0

unfoldable pub response_code : Text → Option Text
unfolding response_code_at
response_code = search_for response_code_at

function_id_at : Text → Option Text
function_id_at t = do a ← lit (text "FUNCTION ID≈") t; r ← run1 is_word a; some r.0

unfoldable pub function_id : Text → Option Text
unfolding function_id_at
function_id = search_for function_id_at

opcode_at : Text → Option Text
opcode_at t = do a ← lit (text "OPCODE ≈") t; r ← run1 is_word (spaces a); some r.0

unfoldable pub opcode : Text → Option Text
unfolding opcode_at
opcode = search_for opcode_at

amount_at : Text → Option Text
amount_at t = do a ← lit (text "AMOUNT≈") t; r ← run1 is_digit a; some r.0

abbrev is_digit_or_dot : ℕ → Bool
is_digit_or_dot c = is_digit c || c == b'.'

-- `WITHDRAWAL\s+(?P<amt>[\d\.]+)\s+BDT`
withdrawal_at : Text → Option Text
withdrawal_at t = do
  a ← lit (text "WITHDRAWAL") t
  b ← spaces1 a
  r ← run1 is_digit_or_dot b
  c ← spaces1 r.1
  d ← lit (text "BDT") c
  some r.0

-- `float(…)` on digits and dots: a `ValueError` unless there is a digit and at most one dot.
abbrev decimal_of : Text → Text × Text → Option Decimal
decimal_of all (whole, []) = some (record { digits = int whole; scale = 0 })
decimal_of all (whole, dot ∷ fraction) =
    if any is_digit all && not (any (λ c. c == b'.') fraction)
    then some (record { digits = int (whole ++ fraction); scale = length fraction })
    else none

unfoldable pub float : Text → Option Decimal
float t = decimal_of t (run is_digit t)

-- the amount of the block, `None` where `float` raises
unfoldable pub amount : Text → Option Decimal
unfolding amount_at withdrawal_at float
amount t = do digits ← or_else (search_for amount_at t) (search_for withdrawal_at t); float digits
