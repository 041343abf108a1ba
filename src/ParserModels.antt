-- ===== src/ParserModels.antt =====
-- The data classes of agent/models/parser_models.py that the parsers and the event processor use.
-- A datetime is a number that orders as the datetimes do. The
-- words that the program compares (event types, statuses) are native strings; what is cut out of a
-- log line is its list of code points. Floats: see `Decimal`.
use atm_monitoring_agent.Prelude.{ℕ, Bool, false, String, Option, none, List, []}

abbrev pub Text : Type 0
Text = List ℕ

abbrev pub DateTime : Type 0
DateTime = ℕ

-- A decimal amount, `digits / 10 ^ scale`: the number that `float(...)` reads before it rounds.
pub record Decimal : Type 0 where
  pub digits : ℕ
  pub scale : ℕ

pub record AtmParsedEvent : Type 0 where
  pub event_sequence_number : Option ℕ
  pub event_time : DateTime
  pub event_type : String
  pub event_category : String
  pub severity : String
  pub confidence : ℕ
  pub terminal_status : Option String
  pub message : Option String
  pub card_number_masked : Option Text
  pub response_code : Option Text
  pub function_id : Option Text
  pub opcode : Option Text
  pub amount : Option Decimal
  pub supervisor_mode : Option Bool
  pub is_cash_added : Bool
  pub is_cash_removed : Bool
  pub is_cassette_inserted : Bool
  pub is_cassette_removed : Bool
  pub is_reject_bin_removed : Bool
  pub is_reject_bin_inserted : Bool
  pub is_card_captured : Bool
  pub is_transaction_start : Bool
  pub is_transaction_end : Bool
  pub raw_event : Text
  pub source_file_name : Text
  pub start_line_number : ℕ
  pub end_line_number : ℕ
  pub terminal_id_snapshot : Option String

-- An event with the defaults of the data class, for its four required fields that vary and its lines.
abbrev pub bare_event : Option ℕ → DateTime → String → String → ℕ → ℕ → AtmParsedEvent
bare_event seq time event_type category first last = record {
  event_sequence_number = seq;
  event_time = time;
  event_type = event_type;
  event_category = category;
  severity = "Information";
  confidence = 100;
  terminal_status = none;
  message = none;
  card_number_masked = none;
  response_code = none;
  function_id = none;
  opcode = none;
  amount = none;
  supervisor_mode = none;
  is_cash_added = false;
  is_cash_removed = false;
  is_cassette_inserted = false;
  is_cassette_removed = false;
  is_reject_bin_removed = false;
  is_reject_bin_inserted = false;
  is_card_captured = false;
  is_transaction_start = false;
  is_transaction_end = false;
  raw_event = [];
  source_file_name = [];
  start_line_number = first;
  end_line_number = last;
  terminal_id_snapshot = none;
}

pub record CassetteSnapshot : Type 0 where
  pub cassette_no : ℕ
  pub cassette_status : String
  pub denomination : Option ℕ
  pub currency_code : Option Text
  pub loaded_notes : Option ℕ
  pub remaining_notes : Option ℕ
  pub rejected_notes : Option ℕ
  pub dispensed_notes : Option ℕ
  pub cash_amount : Option ℕ
  pub operation_type : String
  pub source_file_name : Text
  pub start_line_number : ℕ
  pub end_line_number : ℕ

-- `CassetteSnapshot(CassetteNo=…, CassetteStatus=…, OperationType=…, SourceFileName=…, …)`
abbrev pub bare_snapshot : ℕ → String → String → Text → ℕ → ℕ → CassetteSnapshot
bare_snapshot number status operation file first last = record {
  cassette_no = number;
  cassette_status = status;
  denomination = none;
  currency_code = none;
  loaded_notes = none;
  remaining_notes = none;
  rejected_notes = none;
  dispensed_notes = none;
  cash_amount = none;
  operation_type = operation;
  source_file_name = file;
  start_line_number = first;
  end_line_number = last;
}

pub record ParserWarning : Type 0 where
  pub sequence_number : Option ℕ
  pub event_time : Option DateTime
  pub message : String
  pub raw_event : Text
  pub source_file_name : Text
  pub start_line_number : ℕ
  pub end_line_number : ℕ

pub record UnknownEventRegistryEntry : Type 0 where
  pub header : Text
  pub count : ℕ
  pub first_sequence : Option ℕ
  pub first_occurrence_time : Option DateTime

-- `ParserStatistics`, without the measured duration.
pub record ParserStatistics : Type 0 where
  pub total_lines_read : ℕ
  pub total_blocks : ℕ
  pub parsed_events : ℕ
  pub cassette_snapshots : ℕ
  pub cash_snapshots : ℕ
  pub supervisor_events : ℕ
  pub warnings : ℕ
  pub unknown_events : ℕ
  pub duplicates_ignored : ℕ
  pub ignored_blocks : ℕ

pub record ParserResult : Type 0 where
  pub events : List AtmParsedEvent
  pub cassette_snapshots : List CassetteSnapshot
  pub warnings : List ParserWarning
  pub unknown_events_registry : List UnknownEventRegistryEntry
  pub statistics : ParserStatistics

abbrev pub no_statistics : ParserStatistics
no_statistics = record {
  total_lines_read = 0;
  total_blocks = 0;
  parsed_events = 0;
  cassette_snapshots = 0;
  cash_snapshots = 0;
  supervisor_events = 0;
  warnings = 0;
  unknown_events = 0;
  duplicates_ignored = 0;
  ignored_blocks = 0;
}

-- `ParserResult()`
abbrev pub empty_result : ParserResult
empty_result = record {
  events = [];
  cassette_snapshots = [];
  warnings = [];
  unknown_events_registry = [];
  statistics = no_statistics;
}
