-- ===== src/Examples/Scanning.antt =====
-- The theorems on a scan, on a journal of two lines that has grown by one.
use atm_monitoring_agent.Prelude.{
  ℕ, zero, suc, ◌+◌, ◌<◌, ◌≡◌, refl, true, false, none, some, is_some, List, [], ◌∷◌, ◌++◌, length,
  take, arith,
}
use atm_monitoring_agent.ParserModels.{Text}
use atm_monitoring_agent.TextOps
use atm_monitoring_agent.TextOps.{text}
use atm_monitoring_agent.CircuitBreaker.{new, closed}
use atm_monitoring_agent.CircuitBreaker
use atm_monitoring_agent.CircuitBreaker.Trace.{Inv}
use atm_monitoring_agent.Metrics.{init_metrics}
use atm_monitoring_agent.FileUtils
use atm_monitoring_agent.FileUtils.{bytes, max_bytes, read_appended_lines}
use atm_monitoring_agent.FileUtils.Growth.{IsRead, read_appended_lines-IsRead}
use atm_monitoring_agent.Scan.{
  AgentFileState, Attempt, Scan, returned, no_failure, database_before, database_after,
  get_file_state, header_hash, prefix_len, rotation_detected, process_file,
}
use atm_monitoring_agent.Scan.Sync.{IsSynced, IsScanned, process_file-IsScanned}
use atm_monitoring_agent.Scan.Rotation.{reset_state, process_file_rotated}
use atm_monitoring_agent.Scan.Retry.{process_file_ends}
use atm_monitoring_agent.Scan.Recovery.{new_lines, IsReadable, IsRepeated, process_file-IsRepeated}
use atm_monitoring_agent.EjParser.{line_str}
use atm_monitoring_agent.EjParser.Header
use atm_monitoring_agent.TextOps.Pattern
use atm_monitoring_agent.EjParser.Dated.{AllDated}
use atm_monitoring_agent.EjParser.Parse.{parse_lines}
use atm_monitoring_agent.Processor.{process_result}
use atm_monitoring_agent.Examples.Data.{clock, header_line, calm_env, calm_env-IsCalm, used_db}

-- a hash that keeps the first bytes, as a stand-in
abbrev first_bytes : List ℕ → Text
first_bytes bs = take 16 bs

abbrev path : Text
path = text "C:\\ej\\ej.log"

abbrev appended : Text
appended = text "CARD TAKEN\r\nX"

abbrev attempt : Text → Attempt
attempt content = record {
  content = content;
  modified_time = 5;
  readable = true;
  locked = λ i. false;
  behind = false;
  failure = no_failure;
  line_now = clock;
  events = λ i. calm_env;
  now = 100;
  checked = 100;
  scan_duration = 1;
  parse_duration = 2;
  commit_duration = 3;
}

abbrev read_state : AgentFileState
read_state = record {
  atm_id = 7;
  file_path = path;
  file_name = text "ej.log";
  last_file_size = 22;
  last_read_offset = 22;
  last_modified_time = 4;
  last_parsed_event_time = none;
  last_sequence_number = none;
  file_hash = text "*12*05/01/2024*1";
  is_active = true;
  updated_on = none;
}

abbrev breaker : CircuitBreaker.CircuitBreaker
breaker = record {
  failure_threshold = 5;
  cooldown_seconds = 30;
  state = closed;
  failure_count = 0;
  last_state_change = 0;
}

abbrev scan : Scan
scan = record { db = used_db; states = read_state ∷ []; breaker = breaker; metrics = init_metrics }

read_appended_lines-IsRead_example :
    IsRead true header_line appended
      (read_appended_lines
        (λ i. false)
        true
        (header_line ++ appended)
        (length (bytes header_line))).0
      (read_appended_lines
        (λ i. false)
        true
        (header_line ++ appended)
        (length (bytes header_line))).1
read_appended_lines-IsRead_example =
    read_appended_lines-IsRead (λ i. false) true header_line appended 0 (omega arith) refl

small : length (bytes appended) < max_bytes
unfolding bytes FileUtils.utf8
small = omega arith

known_state : get_file_state 7 path scan.states ≡ some read_state
unfolding get_file_state TextOps.text_eq
known_state = refl

synced : IsSynced first_bytes header_line read_state
unfolding bytes FileUtils.utf8
synced = record { offset_lem = refl; hash_lem = refl }

header_pos : 0 < length (bytes header_line)
unfolding bytes FileUtils.utf8
header_pos = omega arith

process_file-IsScanned_example :
    (next : Scan) × (process_file first_bytes 5 true 90 7 path
        (λ i. attempt (header_line ++ appended))
        scan
      ≡ some (returned true next))
    × IsScanned first_bytes 7 path header_line appended read_state
        (attempt (header_line ++ appended))
        scan
        next
process_file-IsScanned_example =
    process_file-IsScanned first_bytes 7 path header_line b'C' (text "ARD TAKEN\r\nX") read_state 4
      90 0 (λ i. attempt (header_line ++ appended)) scan refl known_state synced header_pos refl
      small refl (omega arith) refl refl

rotated :
    rotation_detected first_bytes
      (attempt appended)
      (header_hash first_bytes (attempt appended) (prefix_len first_bytes (some read_state)))
      read_state
    ≡ true
unfolding header_hash bytes FileUtils.utf8 TextOps.text_eq
rotated = refl

process_file_rotated_example :
    (next : Scan) × (process_file first_bytes 5 true 90 7 path (λ i. attempt appended) scan
      ≡ some (returned true next))
    × IsScanned first_bytes 7 path [] appended
        (reset_state first_bytes (attempt appended) read_state)
        (attempt appended)
        scan
        next
process_file_rotated_example =
    process_file_rotated first_bytes 7 path b'C' (text "ARD TAKEN\r\nX") read_state 4 90 0
      (λ i. attempt appended) scan refl known_state rotated refl small refl (omega arith) refl refl

abbrev failing : ℕ → Attempt
failing i = record (attempt header_line) {
  failure = database_before;
  now = 100 + i;
  checked = 100 + i;
}

breaker-Inv : Inv breaker
breaker-Inv = record {
  positive = omega arith;
  below = λ e. omega arith;
  open_reached = λ e. absurd (ground (arith, e));
  half_reached = λ e. absurd (ground (arith, e));
}

process_file_ends_example : is_some (process_file first_bytes 5 true 90 7 path failing scan) ≡ true
process_file_ends_example =
    process_file_ends first_bytes 5 true 90 7 path failing scan breaker-Inv (λ i. omega arith)
      (omega arith)

abbrev retries : ℕ → Attempt
retries zero = record (attempt (header_line ++ appended)) { failure = database_after }
retries (suc i) = attempt (header_line ++ appended)

readable : (i : ℕ) → IsReadable (header_line ++ appended) (retries i)
readable zero = record {
  content_lem = refl;
  hash_lem = refl;
  try = 0;
  try_lem = omega arith;
  locked_lem = refl;
}
readable (suc i) = record {
  content_lem = refl;
  hash_lem = refl;
  try = 0;
  try_lem = omega arith;
  locked_lem = refl;
}

dated : AllDated (new_lines (header_line ++ appended) header_line)
unfolding FileUtils.read_from FileUtils.seek FileUtils.read_lines FileUtils.readline bytes
    FileUtils.utf8 line_str Header.event_header TextOps.rstrip Pattern.run1 Pattern.char
    Pattern.spaces Pattern.digit
dated = (refl, (refl, tt))

process_file-IsRepeated_example :
    let result =
      parse_lines clock (new_lines (header_line ++ appended) header_line) (text "ej.log") in
    let first =
      (process_result 7 result.events result.cassette_snapshots (λ i. calm_env) used_db).0 in
    (next : Scan) × (process_file first_bytes 5 true 90 7 path retries scan
      ≡ some (returned true next))
    × IsRepeated first_bytes 7 path (header_line ++ appended) first next
process_file-IsRepeated_example =
    process_file-IsRepeated first_bytes 7 path header_line b'C' (text "ARD TAKEN\r\nX") read_state 3
      90 retries scan refl (omega arith) known_state synced header_pos small (readable 0)
      (readable 1) refl refl dated (λ i. calm_env-IsCalm)

-- The cookie behind `abc\r` when `def` follows.
return-cookie : FileUtils.cookie 4 (text "def") ≡ 340282367000166625996085689099021713412
unfolding FileUtils.cookie FileUtils.utf8
return-cookie = refl

-- Behind the newline of an empty line, where the next line is empty too, if the search stops later.
newline-tell : FileUtils.tell true true 2 (text "\r\n") (text "\r\n") ≡ 18446744073709551619
unfolding FileUtils.begins_with_return FileUtils.ends_in_return
newline-tell = refl
