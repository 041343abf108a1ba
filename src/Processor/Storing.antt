-- ===== src/Processor/Storing.antt =====
-- The rows of an event and of its snapshots in agent/services/event_processor_service.py, and the
-- session that stores them.
use atm_monitoring_agent.Prelude.{
  ℕ, ◌+◌, Bool, true, ◌&&◌, Option, List, [], ◌∷◌, ◌==◌, if◌then◌else◌,
}
use atm_monitoring_agent.ParserModels.{DateTime, AtmParsedEvent, CassetteSnapshot}
use atm_monitoring_agent.Database.{AtmEvent, CassetteBalanceHistory, AtmLiveStatus, Db}
use atm_monitoring_agent.Repositories.{duplicate_snapshot_check, insert_history}

-- How the server answers a flush: `refused` is an `IntegrityError`, `broken` any other exception.
pub data WriteOutcome : Type 0 where
  written refused broken : WriteOutcome

pub record EventEnv : Type 0 where
  pub now : DateTime
  -- the session begins and the duplicate query is answered
  pub ready : Bool
  pub insert : WriteOutcome
  -- by the position of the snapshot among the matching ones
  pub snapshot : ℕ → WriteOutcome
  -- the live status can be read and written
  pub live : Bool
  -- the row that another session commits between the read and the update of an attempt
  pub interference : ℕ → Option AtmLiveStatus
  pub commit : Bool
  -- the health log of a failure can be written
  pub health : Bool

-- `ProcessingStatistics`, without the measured duration.
pub record ProcessingStatistics : Type 0 where
  pub events_processed : ℕ
  pub events_inserted : ℕ
  pub events_skipped : ℕ
  pub duplicate_events : ℕ
  pub cassette_snapshots_inserted : ℕ
  pub live_status_updates : ℕ
  pub health_logs_written : ℕ
  pub database_retries : ℕ

abbrev pub zero_statistics : ProcessingStatistics
zero_statistics = record {
  events_processed = 0;
  events_inserted = 0;
  events_skipped = 0;
  duplicate_events = 0;
  cassette_snapshots_inserted = 0;
  live_status_updates = 0;
  health_logs_written = 0;
  database_retries = 0;
}

-- An open transaction: `base` is what a rollback leaves, `db` what the session sees. The counters
-- are Python state, which no rollback undoes.
pub record Session : Type 0 where
  pub base : Db
  pub db : Db
  pub aborted : Bool
  pub stats : ProcessingStatistics

pub data Outcome : Type 0 where
  done raised : Outcome

-- `db_event`
abbrev pub event_row : ℕ → ℕ → AtmParsedEvent → AtmEvent
event_row id atm_id ev = record {
  id = id;
  atm_id = atm_id;
  event_sequence_number = ev.event_sequence_number;
  event_time = ev.event_time;
  event_type = ev.event_type;
  event_category = ev.event_category;
  severity = ev.severity;
  terminal_status = ev.terminal_status;
  message = ev.message;
  card_number_masked = ev.card_number_masked;
  response_code = ev.response_code;
  function_id = ev.function_id;
  opcode = ev.opcode;
  amount = ev.amount;
  supervisor_mode = ev.supervisor_mode;
  is_cash_added = ev.is_cash_added;
  is_cash_removed = ev.is_cash_removed;
  is_cassette_inserted = ev.is_cassette_inserted;
  is_cassette_removed = ev.is_cassette_removed;
  is_reject_bin_removed = ev.is_reject_bin_removed;
  is_reject_bin_inserted = ev.is_reject_bin_inserted;
  is_card_captured = ev.is_card_captured;
  is_transaction_start = ev.is_transaction_start;
  is_transaction_end = ev.is_transaction_end;
  raw_event = ev.raw_event;
  source_file_name = ev.source_file_name;
  source_line_number = ev.start_line_number;
  terminal_id_snapshot = ev.terminal_id_snapshot;
}

-- `db_snap`
abbrev pub history_row : ℕ → ℕ → AtmParsedEvent → CassetteSnapshot → CassetteBalanceHistory
history_row event_id atm_id ev snap = record {
  atm_id = atm_id;
  event_id = event_id;
  event_sequence_number = ev.event_sequence_number;
  event_time = ev.event_time;
  cassette_no = snap.cassette_no;
  cassette_status = snap.cassette_status;
  denomination = snap.denomination;
  currency_code = snap.currency_code;
  loaded_notes = snap.loaded_notes;
  remaining_notes = snap.remaining_notes;
  rejected_notes = snap.rejected_notes;
  dispensed_notes = snap.dispensed_notes;
  cash_amount = snap.cash_amount;
  operation_type = snap.operation_type;
  source_file_name = snap.source_file_name;
  source_line_number = snap.start_line_number;
}

-- `matching_snaps`
unfoldable pub matching_snaps : AtmParsedEvent → List CassetteSnapshot → List CassetteSnapshot
matching_snaps ev [] = []
matching_snaps ev (s ∷ snaps) =
    let rest = matching_snaps ev snaps in
    if s.start_line_number == ev.start_line_number && s.end_line_number == ev.end_line_number
    then s ∷ rest
    else rest

-- one flush of a snapshot, by the server's answer
unfoldable pub store_snapshot : WriteOutcome → CassetteBalanceHistory → Session → Outcome × Session
store_snapshot written row w = (
  done,
  record w {
    db = insert_history w.db row;
    stats = record (w.stats) {
      cassette_snapshots_inserted = w.stats.cassette_snapshots_inserted + 1;
    };
  },
)
store_snapshot refused row w = (done, record w { aborted = true })
store_snapshot broken row w = (raised, w)

unfoldable pub process_snapshot :
    EventEnv → ℕ → ℕ → AtmParsedEvent → ℕ → CassetteSnapshot → Session → Outcome × Session
unfolding store_snapshot
process_snapshot env event_id atm_id ev i snap w =
    if w.aborted
    then (raised, w)
    else if duplicate_snapshot_check w.db atm_id ev.event_sequence_number snap.cassette_no
    then (done, w)
    else store_snapshot (env.snapshot i) (history_row event_id atm_id ev snap) w

-- the loop over `matching_snaps`
unfoldable pub process_snapshots :
    EventEnv → ℕ → ℕ → AtmParsedEvent → ℕ → List CassetteSnapshot → Session → Outcome × Session
process_snapshots env event_id atm_id ev i [] w = (done, w)
process_snapshots env event_id atm_id ev i (snap ∷ snaps) w =
    let (r, w') = process_snapshot env event_id atm_id ev i snap w in
    elim r [
      | done ↦ process_snapshots env event_id atm_id ev (i + 1) snaps w'
      | raised ↦ (raised, w')
    ]
