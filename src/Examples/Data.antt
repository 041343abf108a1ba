-- ===== src/Examples/Data.antt =====
-- A journal, an ATM's tables and a server, for the examples.
use atm_monitoring_agent.Prelude.{ℕ, refl, true, none, some, List, [], ◌∷◌}
use atm_monitoring_agent.ParserModels.{
  Text, DateTime, AtmParsedEvent, bare_event, CassetteSnapshot, bare_snapshot,
}
use atm_monitoring_agent.TextOps.{text}
use atm_monitoring_agent.Database.{Db, empty_db, AtmLiveStatus, new_live_status}
use atm_monitoring_agent.Processor.Calm.{IsCalm}
use atm_monitoring_agent.Processor.Storing.{EventEnv, written, event_row}

abbrev pub clock : ℕ → DateTime
clock i = 0

abbrev pub header_line : Text
header_line = text "*12*05/01/2024*10:30*\n"

abbrev pub added_lines : List Text
added_lines = text "CASH ADDED\n" ∷ text "TYPE 1 ≈ 12 TYPE 2 ≈ 7\n" ∷ []

abbrev pub journal : List Text
journal =
    header_line
    ∷ text "CASH ADDED\n"
    ∷ text "TYPE 1 ≈ 12 TYPE 2 ≈ 7\n"
    ∷ text "*13*05/01/2024*10:31*\n"
    ∷ text "HELLO\n"
    ∷ text "*12*05/01/2024*10:30*\n"
    ∷ []

abbrev pub journal_name : Text
journal_name = text "ej.log"

abbrev pub event_a : AtmParsedEvent
event_a = bare_event (some 13) 200 "CashAdded" "Cash" 1 3

abbrev pub event_b : AtmParsedEvent
event_b = bare_event (some 12) 100 "SSTInService" "Status" 4 5

abbrev pub snap_a : CassetteSnapshot
snap_a = record (bare_snapshot 1 "Normal" "CashAdded" [] 1 3) {
  loaded_notes = some 12;
  remaining_notes = some 12;
}

abbrev pub calm_env : EventEnv
calm_env = record {
  now = 1000;
  ready = true;
  insert = written;
  snapshot = λ i. written;
  live = true;
  interference = λ i. none;
  commit = true;
  health = true;
}

pub calm_env-IsCalm : IsCalm calm_env
calm_env-IsCalm = record {
  ready = refl;
  insert = refl;
  snapshot = λ i. refl;
  live = refl;
  interference = λ i. refl;
  commit = refl;
}

abbrev pub status_a : AtmLiveStatus
status_a = record (new_live_status 7 1) { last_event_time = some 50 }

abbrev pub used_db : Db
used_db = record empty_db {
  events = event_row 1 7 (bare_event (some 11) 50 "CardTaken" "CardReader" 1 1) ∷ [];
  live = status_a ∷ [];
  next_id = 2;
  next_version = 2;
}
