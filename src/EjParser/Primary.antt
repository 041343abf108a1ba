-- ===== src/EjParser/Primary.antt =====
-- The primary event of a block in `EJParser.parse_lines` of agent/parsers/ej_parser.py: its type and
-- the fields that are cut out of the block.
use Prim.Native.String.{◌++◌ as str_append}
use atm_monitoring_agent.Prelude.{
  ℕ, ◌+◌, ◌-◌, Bool, true, false, ◌||◌, String, Option, none, some, List, [], ◌∷◌, length,
  if◌then◌else◌, str_eq,
}
use atm_monitoring_agent.ParserModels.{Text, Decimal, AtmParsedEvent, CassetteSnapshot}
use atm_monitoring_agent.TextOps.{text, newline, strip, contains, join}
use atm_monitoring_agent.EventPatterns.{
  operational_patterns, find_operational, card_number, response_code, function_id, opcode, amount,
}
use atm_monitoring_agent.EjParser.{Block}

-- The variables that name the primary event of a block.
pub record Primary : Type 0 where
  pub matched : Bool
  pub event_type : String
  pub event_category : String
  pub severity : String
  pub terminal_status : Option String
  pub confidence : ℕ
  pub supervisor_mode : Option Bool

-- steps 3 and 4
unfoldable pub operational : Text → Primary
unfolding find_operational
operational search_text = elim (find_operational operational_patterns search_text) [
  | some r ↦ record {
    matched = true;
    event_type = r.event_type;
    event_category = r.event_category;
    severity = r.severity;
    terminal_status = r.terminal_status;
    confidence = r.confidence;
    supervisor_mode = none;
  }
  | none ↦ record {
    matched = false;
    event_type = "Unknown";
    event_category = "System";
    severity = "Information";
    terminal_status = none;
    confidence = 60;
    supervisor_mode = none;
  }
]

-- step 6, the supervisor event
abbrev pub use_supervisor : Option AtmParsedEvent → Primary → Primary
use_supervisor none p = p
use_supervisor (some e) p = record {
  matched = true;
  event_type = e.event_type;
  event_category = e.event_category;
  severity = e.severity;
  terminal_status = e.terminal_status;
  confidence = e.confidence;
  supervisor_mode = e.supervisor_mode;
}

abbrev pub is_action : String → Bool
is_action op =
    str_eq op "CassetteInserted"
    || str_eq op "CassetteRemoved"
    || str_eq op "CashAdded"
    || str_eq op "CashCountsCleared"

abbrev pub severity_of : String → String
severity_of op = if str_eq op "CassetteRemoved" then "Warning" else "Information"

unfoldable pub category_of : String → String
unfolding contains
category_of op = if contains (text "Cassette") (text op) then "Cassette" else "Cash"

-- step 6, one cassette action
abbrev pub use_action : String → Primary → Primary
use_action op p = record p {
  matched = true;
  event_type = op;
  event_category = category_of op;
  severity = severity_of op;
  confidence = 100;
}

-- step 6, the cassette actions
unfoldable pub use_cassettes : List CassetteSnapshot → Primary → Primary
use_cassettes [] p = p
use_cassettes (s ∷ snaps) p =
    use_cassettes snaps (if is_action s.operation_type then use_action s.operation_type p else p)

-- step 5: the fields, which are extracted unless the type found so far is TransactionStart
pub record Extracted : Type 0 where
  pub card_num : Option Text
  pub resp_code : Option Text
  pub func_id : Option Text
  pub op_code : Option Text
  pub amount_read : Option Decimal

unfoldable pub extract : String → Text → Extracted
unfolding card_number response_code function_id opcode amount
extract event_type t =
    if str_eq event_type "TransactionStart"
    then record {
      card_num = none;
      resp_code = none;
      func_id = none;
      op_code = none;
      amount_read = none;
    }
    else record {
      card_num = card_number t;
      resp_code = response_code t;
      func_id = function_id t;
      op_code = opcode t;
      amount_read = amount t;
    }

abbrev strip_opcode : Option Text → Option Text
strip_opcode none = none
strip_opcode (some code) = some (strip code)

-- step 7
unfoldable pub primary_event : Text → Block → Text → Extracted → Primary → AtmParsedEvent
unfolding contains strip join
primary_event file b search_text x p =
    let event_type = p.event_type in
    record {
      event_sequence_number = some b.seq;
      event_time = b.time;
      event_type = event_type;
      event_category = p.event_category;
      severity = p.severity;
      confidence = p.confidence;
      terminal_status = p.terminal_status;
      message = some (str_append "Parsed " (str_append event_type " event"));
      card_number_masked = x.card_num;
      response_code = x.resp_code;
      function_id = x.func_id;
      opcode = strip_opcode x.op_code;
      amount = x.amount_read;
      supervisor_mode = p.supervisor_mode;
      is_cash_added = str_eq event_type "CashAdded";
      is_cash_removed = str_eq event_type "CashCountsCleared";
      is_cassette_inserted = str_eq event_type "CassetteInserted";
      is_cassette_removed = str_eq event_type "CassetteRemoved";
      is_reject_bin_removed = str_eq event_type "RejectBinRemoved";
      is_reject_bin_inserted = str_eq event_type "RejectBinInserted";
      is_card_captured = contains (text "CARDS CAPTURED") search_text;
      is_transaction_start =
          contains (text "TransactionStart") (text event_type)
          || contains (text "*TRANSACTION START*") search_text;
      is_transaction_end =
          contains (text "TransactionEnd") (text event_type)
          || contains (text "TRANSACTION END") search_text;
      raw_event = join newline b.lines;
      source_file_name = file;
      start_line_number = b.start + 1;
      end_line_number = b.start + 1 + length b.lines - 1;
      terminal_id_snapshot = none;
    }
