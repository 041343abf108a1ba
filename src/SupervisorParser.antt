-- ===== src/SupervisorParser.antt =====
-- `SupervisorParser.parse_block` of agent/parsers/supervisor_parser.py. Of its result the caller
-- uses the events, of which there is at most one.
use atm_monitoring_agent.Prelude.{
  ℕ, ◌+◌, ◌-◌, Bool, true, false, ◌||◌, String, Option, none, some, List, [], ◌∷◌, length,
  if◌then◌else◌,
}
use atm_monitoring_agent.ParserModels.{Text, DateTime, AtmParsedEvent, bare_event}
use atm_monitoring_agent.TextOps.{text, uppercase, contains}

abbrev supervisor_event : ℕ → DateTime → Text → ℕ → ℕ → String → Bool → String → AtmParsedEvent
supervisor_event seq time file first last event_type mode message =
    record (bare_event (some seq) time event_type "Supervisor" first last) {
      supervisor_mode = some mode;
      message = some message;
      source_file_name = file;
    }

-- the loop over the lines
find_event : ℕ → DateTime → Text → ℕ → ℕ → List Text → Option AtmParsedEvent
unfolding contains uppercase
find_event seq time file first last [] = none
find_event seq time file first last (line ∷ lines) =
    let later = find_event seq time file first last lines in
    let line_upper = uppercase line in
    if contains (text "SUPERVISOR MODE ENTRY") line_upper
      || contains (text "SUPERVISOR TASK ENTERED") line_upper
    then some (
        supervisor_event seq time file first last "SupervisorModeEntered" true
          "ATM entered supervisor mode")
    else if contains (text "SUPERVISOR TASK EXITED") line_upper
    then some (
        supervisor_event seq time file first last "SupervisorModeExited" false
          "ATM exited supervisor mode")
    else later

pub parse_supervisor : List Text → ℕ → DateTime → Text → ℕ → Option AtmParsedEvent
unfolding find_event
parse_supervisor lines seq time file start_line =
    find_event seq time file start_line (start_line + length lines - 1) lines
