-- ===== src/Database.antt =====
-- The tables of agent/database/models.py that the event processor and the parser service write,
-- as lists of rows, oldest first. `CreatedOn` and `UpdatedOn` are left out, and the columns of
-- `ATMEvents` that the processor never sets.
use atm_monitoring_agent.Prelude.{ℕ, Bool, true, false, String, Option, none, List, []}
use atm_monitoring_agent.ParserModels.{Text, DateTime, Decimal}

-- A row of `ATMEvents`.
pub record AtmEvent : Type 0 where
  pub id : ℕ
  pub atm_id : ℕ
  pub event_sequence_number : Option ℕ
  pub event_time : DateTime
  pub event_type : String
  pub event_category : String
  pub severity : String
  pub terminal_status : Option String
  pub message : Option String
  pub card_number_masked : Option Text
  pub response_code : Option Text
  pub function_id : Option Text
  pub opcode : Option Text
  pub amount : Option Decimal
  pub supervisor_mode : Option Bool
  pub is_cash_added : Bool
  pub is_cash_removed : Bool
  pub is_cassette_inserted : Bool
  pub is_cassette_removed : Bool
  pub is_reject_bin_removed : Bool
  pub is_reject_bin_inserted : Bool
  pub is_card_captured : Bool
  pub is_transaction_start : Bool
  pub is_transaction_end : Bool
  pub raw_event : Text
  pub source_file_name : Text
  pub source_line_number : ℕ
  pub terminal_id_snapshot : Option String

-- A row of `CassetteBalanceHistory`; its own id is never read.
pub record CassetteBalanceHistory : Type 0 where
  pub atm_id : ℕ
  pub event_id : ℕ
  pub event_sequence_number : Option ℕ
  pub event_time : DateTime
  pub cassette_no : ℕ
  pub cassette_status : String
  pub denomination : Option ℕ
  pub currency_code : Option Text
  pub loaded_notes : Option ℕ
  pub remaining_notes : Option ℕ
  pub rejected_notes : Option ℕ
  pub dispensed_notes : Option ℕ
  pub cash_amount : Option ℕ
  pub operation_type : String
  pub source_file_name : Text
  pub source_line_number : ℕ

-- A row of `AtmLiveStatus`. The amount of cash is a whole number: note counts times denominations.
pub record AtmLiveStatus : Type 0 where
  pub atm_id : ℕ
  pub is_online : Bool
  pub current_status : Option String
  pub sst_status : Option String
  pub supervisor_mode : Bool
  pub last_heartbeat : Option DateTime
  pub last_agent_heartbeat : Option DateTime
  pub last_event_type : Option String
  pub last_event_time : Option DateTime
  pub last_transaction_time : Option DateTime
  pub last_transaction_amount : Option Decimal
  pub card_reader_status : Option String
  pub reject_bin_status : Option String
  pub cash_available : Bool
  pub total_remaining_notes : Option ℕ
  pub cash_remaining_amount : Option ℕ
  pub cassette1_status : Option String
  pub cassette1_remaining_notes : Option ℕ
  pub cassette2_status : Option String
  pub cassette2_remaining_notes : Option ℕ
  pub cassette3_status : Option String
  pub cassette3_remaining_notes : Option ℕ
  pub cassette4_status : Option String
  pub cassette4_remaining_notes : Option ℕ
  pub last_error_message : Option String
  pub row_version : ℕ

-- `ATMLiveStatus(ATMId=atm_id, IsOnline=True)`, as it reads after the flush: `SupervisorMode` and
-- `CashAvailable` have the server's defaults, 0 and 1.
abbrev pub new_live_status : ℕ → ℕ → AtmLiveStatus
new_live_status atm_id row_version = record {
  atm_id = atm_id;
  is_online = true;
  current_status = none;
  sst_status = none;
  supervisor_mode = false;
  last_heartbeat = none;
  last_agent_heartbeat = none;
  last_event_type = none;
  last_event_time = none;
  last_transaction_time = none;
  last_transaction_amount = none;
  card_reader_status = none;
  reject_bin_status = none;
  cash_available = true;
  total_remaining_notes = none;
  cash_remaining_amount = none;
  cassette1_status = none;
  cassette1_remaining_notes = none;
  cassette2_status = none;
  cassette2_remaining_notes = none;
  cassette3_status = none;
  cassette3_remaining_notes = none;
  cassette4_status = none;
  cassette4_remaining_notes = none;
  last_error_message = none;
  row_version = row_version;
}

-- A row of `AgentHealthLog` that the processor writes; its texts are fixed but for the number.
pub record AgentHealthLog : Type 0 where
  pub atm_id : ℕ
  pub log_time : DateTime
  pub level : String
  pub event_type : String
  pub sequence_number : Option ℕ
  pub source_file_name : String

-- The tables. `next_id` is the next identity of `ATMEvents`, `next_version` the next value that the
-- server stamps into a `RowVersion` column.
pub record Db : Type 0 where
  pub events : List AtmEvent
  pub history : List CassetteBalanceHistory
  pub live : List AtmLiveStatus
  pub health : List AgentHealthLog
  pub next_id : ℕ
  pub next_version : ℕ

abbrev pub empty_db : Db
empty_db = record {
  events = [];
  history = [];
  live = [];
  health = [];
  next_id = 1;
  next_version = 1;
}
