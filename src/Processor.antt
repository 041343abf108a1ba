-- ===== src/Processor.antt =====
-- `EventProcessorService` of agent/services/event_processor_service.py. Every event has its own
-- transaction. What the server and the other sessions do meanwhile is an `EventEnv`, one for each
-- event; an exception that `process_result` does not name is the outcome `raised` of a step. After
-- a refused flush a session only raises until it is rolled back, as SQLAlchemy documents.
pub mod Order
pub mod Storing
pub mod Frame
pub mod Freshness
pub mod Sorted
pub mod Replay
pub mod Calm
pub mod Unique
pub mod Accounting
use atm_monitoring_agent.Prelude.{
  ℕ, zero, suc, ◌+◌, Bool, true, false, not, ◌&&◌, ◌||◌, String, Option, none, some, List, [], ◌∷◌,
  ltb, ◌==◌, if◌then◌else◌, is_some,
}
use atm_monitoring_agent.ParserModels.{DateTime, AtmParsedEvent, CassetteSnapshot}
use atm_monitoring_agent.Database.{
  AtmEvent, CassetteBalanceHistory, AtmLiveStatus, Db, new_live_status,
}
use atm_monitoring_agent.Repositories.{
  duplicate_check, insert_event, duplicate_snapshot_check, insert_history, insert_log,
  get_by_atm_id, save, update_live_status,
}
use atm_monitoring_agent.LiveStatus.{apply_status_updates}
use Order.{sort_events}
use Storing.{
  WriteOutcome, written, refused, broken, EventEnv, ProcessingStatistics, zero_statistics, Session,
  Outcome, done, raised, event_row, history_row, matching_snaps, store_snapshot, process_snapshot,
  process_snapshots,
}

-- Another session's write of the live status; it cannot touch a row that is not committed yet.
interfere : ℕ → Option AtmLiveStatus → Session → Session
interfere atm_id none w = w
interfere atm_id (some row) w =
    if is_some (get_by_atm_id w.base atm_id)
    then (let other = record row { atm_id = atm_id } in
        record w { base = save w.base other; db = save w.db other })
    else w

-- `get_by_atm_id`, or a new record that is saved
load_status : ℕ → Session → AtmLiveStatus × Session
load_status atm_id w = elim (get_by_atm_id w.db atm_id) [
  | some status ↦ (status, w)
  | none ↦ (
    new_live_status atm_id w.db.next_version,
    record w { db = save w.db (new_live_status atm_id w.db.next_version) },
  )
]

abbrev newer_seen : Option DateTime → DateTime → Bool
newer_seen none time = false
newer_seen (some last) time = ltb time last

pub data Attempt : Type 0 where
  updated ignored conflict : Attempt

-- one round of the optimistic update
update_attempt :
    EventEnv → ℕ → AtmParsedEvent → List CassetteSnapshot → ℕ → Session → Attempt × Session
unfolding interfere load_status
update_attempt env atm_id ev snaps i w =
    let (status, v) = load_status atm_id w in
    if newer_seen status.last_event_time ev.event_time
    then (ignored, v)
    else let changed = apply_status_updates status ev snaps env.now in
      let u = interfere atm_id (env.interference i) v in
      let (success, db) = update_live_status u.db changed (some status.row_version) in
      if success
      then (
        updated,
        record u {
          db = db;
          stats = record (u.stats) { live_status_updates = u.stats.live_status_updates + 1 };
        },
      )
      else (
        conflict,
        record u { stats = record (u.stats) { database_retries = u.stats.database_retries + 1 } },
      )

-- `for attempt_idx in range(concurrency_attempts)`: `left` rounds from round `i`
update_status :
    EventEnv → ℕ → AtmParsedEvent → List CassetteSnapshot → ℕ → ℕ → Session → Outcome × Session
update_status env atm_id ev snaps zero i w = (raised, w)
update_status env atm_id ev snaps (suc left) i w =
    let (r, w') = update_attempt env atm_id ev snaps i w in
    elim r [
      | updated ↦ (done, w')
      | ignored ↦ (done, w')
      | conflict ↦ update_status env atm_id ev snaps left (i + 1) w'
    ]

abbrev concurrency_attempts : ℕ
concurrency_attempts = 2

-- from the inserted row to the commit
pub process_rest :
    EventEnv → ℕ → AtmParsedEvent → List CassetteSnapshot → ℕ → Session → Outcome × Session
process_rest env atm_id ev snaps event_id w =
    let matching = matching_snaps ev snaps in
    let (stored, v) = process_snapshots env event_id atm_id ev 0 matching w in
    let (live, u) = update_status env atm_id ev matching concurrency_attempts 0 v in
    elim stored [
      | raised ↦ (raised, v)
      | done ↦
          if v.aborted || not env.live
          then (raised, v)
          else elim live [ raised ↦ (raised, u) | done ↦ (if env.commit then done else raised, u) ]
    ]

-- `_log_health_error`, in a transaction of its own
log_health_error : EventEnv → ℕ → Option ℕ → Db → Db
log_health_error env atm_id sequence_number db =
    if env.health
    then insert_log db (record {
      atm_id = atm_id;
      log_time = env.now;
      level = "Error";
      event_type = "DatabaseError";
      sequence_number = sequence_number;
      source_file_name = "event_processor_service.py";
    })
    else db

abbrev count_skip : ProcessingStatistics → ProcessingStatistics
count_skip s = record s {
  duplicate_events = s.duplicate_events + 1;
  events_skipped = s.events_skipped + 1;
}

-- the end of the `try`: a commit, or a rollback and a health log
finish_event : EventEnv → ℕ → AtmParsedEvent → Outcome → Session → Db × ProcessingStatistics
unfolding log_health_error
finish_event env atm_id ev done w = (w.db, w.stats)
finish_event env atm_id ev raised w = (
  log_health_error env atm_id ev.event_sequence_number w.base,
  record (w.stats) { health_logs_written = w.stats.health_logs_written + 1 },
)

-- the flush of the event row, by the server's answer
insert_and_continue :
    EventEnv
    → ℕ
    → AtmParsedEvent
    → List CassetteSnapshot
    → WriteOutcome
    → Session
    → Db × ProcessingStatistics
unfolding finish_event
insert_and_continue env atm_id ev snaps refused w = (w.base, count_skip w.stats)
insert_and_continue env atm_id ev snaps broken w = finish_event env atm_id ev raised w
insert_and_continue env atm_id ev snaps written w =
    let event_id = w.db.next_id in
    let inserted = record w {
      db = insert_event w.db (event_row event_id atm_id ev);
      stats = record (w.stats) { events_inserted = w.stats.events_inserted + 1 };
    } in
    let (r, w') = process_rest env atm_id ev snaps event_id inserted in
    finish_event env atm_id ev r w'

-- the body of the loop of `process_result`
pub process_event :
    ℕ
    → List CassetteSnapshot
    → EventEnv
    → AtmParsedEvent
    → Db
    → ProcessingStatistics
    → Db × ProcessingStatistics
unfolding insert_and_continue finish_event
process_event atm_id snaps env ev db stats =
    let counted = record stats { events_processed = stats.events_processed + 1 } in
    let w : Session = record { base = db; db = db; aborted = false; stats = counted } in
    if not env.ready
    then finish_event env atm_id ev raised w
    else if duplicate_check db atm_id ev.event_sequence_number
    then (db, count_skip counted)
    else insert_and_continue env atm_id ev snaps env.insert w

-- the loop of `process_result`; the environments are numbered in the order of the events
pub process_events :
    ℕ
    → List CassetteSnapshot
    → (ℕ → EventEnv)
    → ℕ
    → List AtmParsedEvent
    → Db
    → ProcessingStatistics
    → Db × ProcessingStatistics
process_events atm_id snaps envs i [] db stats = (db, stats)
process_events atm_id snaps envs i (ev ∷ evs) db stats =
    let (db', stats') = process_event atm_id snaps (envs i) ev db stats in
    process_events atm_id snaps envs (i + 1) evs db' stats'

unfoldable pub process_result :
    ℕ
    → List AtmParsedEvent
    → List CassetteSnapshot
    → (ℕ → EventEnv)
    → Db
    → Db × ProcessingStatistics
unfolding process_events
process_result atm_id events snaps envs db =
    process_events atm_id snaps envs 0 (sort_events events) db zero_statistics
