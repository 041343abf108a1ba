-- ===== src/Scan.antt =====
-- `ParserService` of agent/services/parser_service.py and agent/repositories/agent_repository.py:
-- one scan of a journal. SHA-256 is the parameter `hash`. The file does not change during an
-- attempt; what the clock, the file system and the server do in an attempt is an `Attempt`. Logging
-- and the printed summary are left out.
pub mod Sync
pub mod Retry
pub mod Rotation
pub mod Again
pub mod Recovery
use atm_monitoring_agent.Prelude.{
  ℕ, zero, suc, ◌+◌, ◌-◌, min, Bool, true, false, not, ◌&&◌, ◌||◌, Option, none, some, List, [],
  ◌∷◌, ltb, ◌==◌, if◌then◌else◌, length, take, get_or,
}
use atm_monitoring_agent.ParserModels.{Text, DateTime, AtmParsedEvent, ParserResult}
use atm_monitoring_agent.TextOps.{text_eq}
use atm_monitoring_agent.Database.{Db}
use atm_monitoring_agent.CircuitBreaker.{
  CircuitBreaker, Note, can_execute, record_success, record_failure,
}
use atm_monitoring_agent.Metrics.{
  MetricsTracker, record_scan, record_parse, record_commit, record_db_failure,
  record_parser_failure, record_retry, record_reconnect, record_successful_connection,
  set_retry_state, take_notes,
}
use atm_monitoring_agent.FileUtils.{bytes, read_appended_lines}
use atm_monitoring_agent.EjParser.Parse.{parse_lines}
use atm_monitoring_agent.Processor.{process_result}
use atm_monitoring_agent.Processor.Storing.{EventEnv}

pub record AgentFileState : Type 0 where
  pub atm_id : ℕ
  pub file_path : Text
  pub file_name : Text
  pub last_file_size : ℕ
  pub last_read_offset : ℕ
  pub last_modified_time : ℕ
  pub last_parsed_event_time : Option DateTime
  pub last_sequence_number : Option ℕ
  pub file_hash : Text
  pub is_active : Bool
  pub updated_on : Option ℕ

abbrev pub is_state_of : ℕ → Text → AgentFileState → Bool
is_state_of atm_id path s = s.atm_id == atm_id && text_eq s.file_path path

-- `AgentRepository.get_file_state`
unfoldable pub get_file_state : ℕ → Text → List AgentFileState → Option AgentFileState
get_file_state atm_id path [] = none
get_file_state atm_id path (s ∷ states) =
    let later = get_file_state atm_id path states in
    if is_state_of atm_id path s then some s else later

-- `create_file_state`, and `update_file_state` of a state that was loaded or created
unfoldable pub put_file_state : AgentFileState → List AgentFileState → List AgentFileState
put_file_state new [] = new ∷ []
put_file_state new (s ∷ states) =
    let later = put_file_state new states in
    if is_state_of new.atm_id new.file_path s then new ∷ states else s ∷ later

-- `os.path.basename`, with both separators
abbrev basename_from : Text → Text → Text
basename_from name [] = name
basename_from name (c ∷ cs) =
    if c == b'/' || c == 92 then basename_from cs cs else basename_from name cs

abbrev pub basename : Text → Text
basename path = basename_from path path

-- When an attempt raises, and whether the exception is one of the database's: before the events are
-- processed, or behind that.
pub data Failure : Type 0 where
  no_failure database_before database_after other_before other_after : Failure

pub record Attempt : Type 0 where
  pub content : Text
  pub modified_time : ℕ
  -- the header can be opened for its hash; the attempts to open the file for reading fail
  pub readable : Bool
  pub locked : ℕ → Bool
  -- whether `f.tell()` stops behind a carriage return that follows
  pub behind : Bool
  pub failure : Failure
  -- what the clock reads for a header with an invalid date, and what the server does for an event
  pub line_now : ℕ → DateTime
  pub events : ℕ → EventEnv
  -- the time when the breaker is told and asked, and the measured durations
  pub now : ℕ
  pub checked : ℕ
  pub scan_duration : ℕ
  pub parse_duration : ℕ
  pub commit_duration : ℕ

-- What a scan changes.
pub record Scan : Type 0 where
  pub db : Db
  pub states : List AgentFileState
  pub breaker : CircuitBreaker
  pub metrics : MetricsTracker

pub data Step : Type 0 where
  -- `process_file` returns, raises, or tries again
  returned : Bool → Scan → Step
  raised : Scan → Step
  retried : Scan → Step

abbrev pub tell : CircuitBreaker × List Note → Scan → Scan
tell (b, notes) s = record s { breaker = b; metrics = take_notes notes s.metrics }

abbrev pub measure : (MetricsTracker → MetricsTracker) → Scan → Scan
measure f s = record s { metrics = f s.metrics }

-- `_record_reconnect_success`
abbrev pub record_reconnect_success : ℕ → Scan → Scan
record_reconnect_success attempt s =
    if ltb 0 attempt
    then measure (λ m. record_successful_connection (set_retry_state false m)) s
    else s

abbrev pub succeed : ℕ → ℕ → Scan → Scan
succeed attempt now s =
    let t = record_reconnect_success attempt s in tell (record_success t.breaker now) t

-- `except (OperationalError, …)`
unfoldable pub on_database_error : Attempt → Scan → Step
on_database_error a s =
    let failed = measure record_db_failure s in
    let told = tell (record_failure failed.breaker a.now) failed in
    let (allowed, breaker, notes) = can_execute told.breaker a.checked in
    let asked = tell (breaker, notes) told in
    if allowed
    then retried (measure (λ m. set_retry_state true (record_reconnect (record_retry m))) asked)
    else returned false (measure (set_retry_state false) asked)

-- `except Exception`
abbrev pub on_other_error : Scan → Step
on_other_error s = raised (measure (λ m. set_retry_state false (record_parser_failure m)) s)

-- the failures that meet the scan before and behind the processing; a scan that processes nothing
-- knows only the first kind
abbrev pub before_processing : Failure → (database other otherwise : Step) → Step
before_processing database_before database other otherwise = database
before_processing other_before database other otherwise = other
before_processing _ database other otherwise = otherwise

abbrev pub after_processing : Failure → (database other otherwise : Step) → Step
after_processing database_after database other otherwise = database
after_processing other_after database other otherwise = other
after_processing _ database other otherwise = otherwise

-- `continue` after a retry, and the end of the loop otherwise
abbrev pub unless_retried : Step → (Scan → Option Step) → Option Step
unless_retried (retried next) again = again next
unless_retried (returned b next) again = some (returned b next)
unless_retried (raised next) again = some (raised next)

-- `if not lines`
abbrev pub unless_empty : List Text → (nothing something : Step) → Step
unless_empty [] nothing something = nothing
unless_empty (line ∷ lines) nothing something = something

module _ (hash : List ℕ → Text) where
  -- `_get_header_hash`
  unfoldable pub header_hash : Attempt → ℕ → Text
  header_hash a prefix_len = if a.readable then hash (take prefix_len (bytes a.content)) else []

  abbrev new_state : ℕ → Text → Attempt → Text → AgentFileState
  new_state atm_id path a header = record {
    atm_id = atm_id;
    file_path = path;
    file_name = basename path;
    last_file_size = length (bytes a.content);
    last_read_offset = 0;
    last_modified_time = a.modified_time;
    last_parsed_event_time = none;
    last_sequence_number = none;
    file_hash = header;
    is_active = true;
    updated_on = none;
  }

  abbrev pub prefix_len : Option AgentFileState → ℕ
  prefix_len none = 8192
  prefix_len (some s) = if ltb 0 s.last_read_offset then min 8192 s.last_read_offset else 8192

  abbrev pub is_empty : Text → Bool
  is_empty [] = true
  is_empty (c ∷ cs) = false

  -- step 2: the truncated or the replaced file
  abbrev pub rotation_detected : Attempt → Text → AgentFileState → Bool
  rotation_detected a header s =
      ltb (length (bytes a.content)) s.last_read_offset
      || (not (is_empty s.file_hash) && not (text_eq header s.file_hash))

  -- step 1 and 2: the state that the scan goes on with
  unfoldable pub load_state : ℕ → Text → Attempt → List AgentFileState → AgentFileState
  unfolding header_hash
  load_state atm_id path a states =
      let found = get_file_state atm_id path states in
      let header = header_hash a (prefix_len found) in
      let s = get_or found (new_state atm_id path a header) in
      if rotation_detected a header s
      then record s { last_read_offset = 0; file_hash = header_hash a 8192 }
      else s

  abbrev pub last_event : List AtmParsedEvent → Option AtmParsedEvent
  last_event [] = none
  last_event (e ∷ es) = elim es [ [] ↦ some e | _ ∷ _ ↦ last_event es ]

  abbrev pub note_event : Option AtmParsedEvent → AgentFileState → AgentFileState
  note_event none s = s
  note_event (some e) s = record s {
    last_parsed_event_time = some e.event_time;
    last_sequence_number = elim e.event_sequence_number [
      | none ↦ s.last_sequence_number
      | some n ↦ some n
    ];
  }

  -- step 7
  unfoldable pub advance : Attempt → ℕ → List AtmParsedEvent → AgentFileState → AgentFileState
  unfolding header_hash
  advance a new_offset events s = note_event (last_event events) (record s {
    last_read_offset = new_offset;
    last_file_size = length (bytes a.content);
    last_modified_time = a.modified_time;
    file_hash = header_hash a (min 8192 new_offset);
    updated_on = some a.now;
  })

  -- A commit without new lines.
  abbrev pub nothing_new : ℕ → Attempt → ℕ → AgentFileState → Scan → Step
  nothing_new attempt a duration s scan =
      let saved : Scan = record scan { states = put_file_state s scan.states } in
      returned false
        (measure (record_scan duration 0 s.last_read_offset) (succeed attempt a.now saved))

  -- Steps 5 to 7. The processor's transactions are committed whether this one is or not.
  unfoldable pub parse_and_store : ℕ → ℕ → Attempt → AgentFileState → List Text → ℕ → Scan → Step
  parse_and_store attempt atm_id a s lines new_offset scan =
      let result = parse_lines a.line_now lines s.file_name in
      let (db, _) =
        process_result atm_id result.events result.cassette_snapshots a.events scan.db in
      let stored : Scan = record scan { db = db } in
      let committed : Scan = record stored {
        states = put_file_state (advance a new_offset result.events s) scan.states;
      } in
      let counted =
        measure
          (λ m. record_commit a.now a.commit_duration (length result.events) (
            record_parse a.now a.parse_duration
              (record_scan a.scan_duration (new_offset - s.last_read_offset) new_offset m)))
          (record_reconnect_success attempt committed) in
      after_processing a.failure (on_database_error a stored) (on_other_error stored)
        (returned true (tell (record_success counted.breaker a.now) counted))

  -- One round of the loop.
  unfoldable pub try_once : ℕ → ℕ → Text → Attempt → Scan → Step
  try_once attempt atm_id path a scan =
      let s = load_state atm_id path a scan.states in
      let (lines, new_offset, _) =
        read_appended_lines a.locked a.behind a.content s.last_read_offset in
      before_processing a.failure (on_database_error a scan) (on_other_error scan) (
        if length (bytes a.content) == s.last_read_offset
        then nothing_new attempt a 1000 s scan
        else unless_empty lines (nothing_new attempt a a.scan_duration s scan)
            (parse_and_store attempt atm_id a s lines new_offset scan))

  -- The loop on fuel; `none` when the fuel runs out.
  unfoldable pub scan_loop : ℕ → ℕ → ℕ → Text → (ℕ → Attempt) → Scan → Option Step
  scan_loop zero attempt atm_id path attempts scan = none
  scan_loop (suc fuel) attempt atm_id path attempts scan =
      unless_retried (try_once attempt atm_id path (attempts attempt) scan)
        (λ next. scan_loop fuel (attempt + 1) atm_id path attempts next)

  -- `process_file`; `exists` is whether the file is there, `now` the time of the first question
  unfoldable pub process_file : ℕ → Bool → ℕ → ℕ → Text → (ℕ → Attempt) → Scan → Option Step
  process_file fuel exists now atm_id path attempts scan =
      let (allowed, breaker, notes) = can_execute scan.breaker now in
      let asked = tell (breaker, notes) scan in
      if not allowed
      then some (returned false asked)
      else if not exists
      then some (returned false asked)
      else scan_loop fuel 0 atm_id path attempts asked
