-- ===== src/Processor/Frame.antt =====
-- agent/services/event_processor_service.py: what the steps of one transaction leave alone, and the
-- three ways in which the processing of an event ends.
use atm_monitoring_agent.Prelude.{
  ℕ, zero, suc, ◌+◌, ◌≤◌, ◌≡◌, refl, false, List, [], ◌∷◌, ◌++◌, arith, Bool-cases, inl, inr,
}
use atm_monitoring_agent.ParserModels.{AtmParsedEvent, CassetteSnapshot}
use atm_monitoring_agent.Database.{Db}
use atm_monitoring_agent.Repositories.{
  duplicate_check, insert_event, insert_history, insert_log, save, update_live_status,
}
use atm_monitoring_agent.Processor.{
  update_attempt, update_status, process_rest, finish_event, insert_and_continue, process_event,
}
use atm_monitoring_agent.Processor.Storing.{
  WriteOutcome, written, refused, broken, EventEnv, ProcessingStatistics, Session, Outcome, done,
  raised, event_row, process_snapshot, process_snapshots, matching_snaps,
}

-- The tables of events and health logs, the committed history, and the counters that only
-- `process_result` itself sets.
pub record Keeps (w v : Session) : Type 0 where
  pub db_events : v.db.events ≡ w.db.events
  pub db_health : v.db.health ≡ w.db.health
  pub base_events : v.base.events ≡ w.base.events
  pub base_history : v.base.history ≡ w.base.history
  pub base_health : v.base.health ≡ w.base.health
  pub processed : v.stats.events_processed ≡ w.stats.events_processed
  pub inserted : v.stats.events_inserted ≡ w.stats.events_inserted
  pub skipped : v.stats.events_skipped ≡ w.stats.events_skipped
  pub duplicates : v.stats.duplicate_events ≡ w.stats.duplicate_events
  pub logs : v.stats.health_logs_written ≡ w.stats.health_logs_written

Keeps-refl : (w : Session) → Keeps w w
Keeps-refl w = ground arith

Keeps-trans : {w v u : Session} → Keeps w v → Keeps v u → Keeps w u
Keeps-trans h k = ground arith

module _ (env : EventEnv) (event_id atm_id : ℕ) (ev : AtmParsedEvent) where
  process_snapshot-Keeps :
      (i : ℕ) (snap : CassetteSnapshot) (w : Session)
      → Keeps w (process_snapshot env event_id atm_id ev i snap w).1
  unfolding process_snapshot insert_history
  process_snapshot-Keeps i snap w = ground arith

  process_snapshots-Keeps :
      (i : ℕ) (snaps : List CassetteSnapshot) (w : Session)
      → Keeps w (process_snapshots env event_id atm_id ev i snaps w).1
  unfolding process_snapshots
  process_snapshots-Keeps i [] w = Keeps-refl w
  process_snapshots-Keeps i (snap ∷ snaps) w =
      let w' = (process_snapshot env event_id atm_id ev i snap w).1 in
      ground (arith, process_snapshot-Keeps i snap w, process_snapshots-Keeps (i + 1) snaps w')

module _ (env : EventEnv) (atm_id : ℕ) (ev : AtmParsedEvent) (snaps : List CassetteSnapshot) where
  update_attempt-Keeps : (i : ℕ) (w : Session) → Keeps w (update_attempt env atm_id ev snaps i w).1
  unfolding update_attempt update_live_status save
  update_attempt-Keeps i w = ground arith

  history-update_attempt :
      (i : ℕ) (w : Session) → (update_attempt env atm_id ev snaps i w).1.db.history ≡ w.db.history
  unfolding update_attempt update_live_status save
  history-update_attempt i w = ground arith

  update_status-Keeps :
      (left i : ℕ) (w : Session) → Keeps w (update_status env atm_id ev snaps left i w).1
  unfolding update_status
  update_status-Keeps zero i w = Keeps-refl w
  update_status-Keeps (suc left) i w =
      let w' = (update_attempt env atm_id ev snaps i w).1 in
      ground (arith, update_attempt-Keeps i w, update_status-Keeps left (i + 1) w')

  history-update_status :
      (left i : ℕ) (w : Session)
      → (update_status env atm_id ev snaps left i w).1.db.history ≡ w.db.history
  unfolding update_status
  history-update_status zero i w = refl
  history-update_status (suc left) i w =
      let w' = (update_attempt env atm_id ev snaps i w).1 in
      ground (arith, history-update_attempt i w, history-update_status left (i + 1) w')

pub process_rest-Keeps :
    (env : EventEnv) (atm_id : ℕ) (ev : AtmParsedEvent) (snaps : List CassetteSnapshot)
    (event_id : ℕ) (w : Session)
    → Keeps w (process_rest env atm_id ev snaps event_id w).1
unfolding process_rest
process_rest-Keeps env atm_id ev snaps event_id w =
    let matching = matching_snaps ev snaps in
    let v = (process_snapshots env event_id atm_id ev 0 matching w).1 in
    ground (
      arith,
      process_snapshots-Keeps env event_id atm_id ev 0 matching w,
      update_status-Keeps env atm_id ev matching 2 0 v,
    )

-- How the processing of an event ends: with its row committed, skipped as a duplicate, or failed
-- with the tables of events and snapshots as they were and one more failure counted.
pub data Ends (atm_id : ℕ) (ev : AtmParsedEvent) (db : Db) (stats : ProcessingStatistics) (db' : Db)
    (stats' : ProcessingStatistics) : Type 0 where
  committed :
      db'.events ≡ db.events ++ event_row db.next_id atm_id ev ∷ []
      → db'.health ≡ db.health
      → stats'.events_inserted ≡ stats.events_inserted + 1
      → stats'.events_skipped ≡ stats.events_skipped
      → stats'.health_logs_written ≡ stats.health_logs_written
      → duplicate_check db atm_id ev.event_sequence_number ≡ false
      → Ends atm_id ev db stats db' stats'
  duplicate :
      db' ≡ db
      → stats'.events_inserted ≡ stats.events_inserted
      → stats'.events_skipped ≡ stats.events_skipped + 1
      → stats'.health_logs_written ≡ stats.health_logs_written
      → Ends atm_id ev db stats db' stats'
  failed :
      db'.events ≡ db.events
      → db'.history ≡ db.history
      → stats.events_inserted ≤ stats'.events_inserted
      → stats'.events_skipped ≡ stats.events_skipped
      → stats'.health_logs_written ≡ stats.health_logs_written + 1
      → Ends atm_id ev db stats db' stats'

module _ (atm_id : ℕ) (snaps : List CassetteSnapshot) (env : EventEnv) (ev : AtmParsedEvent)
    (db : Db) (stats : ProcessingStatistics) where
  -- the session after the loop's first statements
  abbrev start : Session
  start = record {
    base = db;
    db = db;
    aborted = false;
    stats = record stats { events_processed = stats.events_processed + 1 };
  }

  -- the session after the flush of the event's row
  abbrev pub inserted : Session
  inserted = record {
    base = db;
    db = insert_event db (event_row db.next_id atm_id ev);
    aborted = false;
    stats = record stats {
      events_processed = stats.events_processed + 1;
      events_inserted = stats.events_inserted + 1;
    };
  }

  finish_start-Ends :
      let (db', stats') = finish_event env atm_id ev raised start in
      Ends atm_id ev db stats db' stats'
  unfolding finish_event insert_log
  finish_start-Ends = failed (ground arith) (ground arith) (omega arith) refl refl

  finish_inserted-Ends :
      (r : Outcome) (w : Session)
      → duplicate_check db atm_id ev.event_sequence_number ≡ false
      → Keeps inserted w
      → let (db', stats') = finish_event env atm_id ev r w in Ends atm_id ev db stats db' stats'
  unfolding finish_event insert_log insert_event
  finish_inserted-Ends done w new k =
      committed k.db_events k.db_health k.inserted k.skipped k.logs new
  finish_inserted-Ends raised w new k =
      failed (ground arith) (ground arith) (let e = k.inserted in omega arith) k.skipped
        (let e = k.logs in omega arith)

  insert_and_continue-Ends :
      (o : WriteOutcome)
      → duplicate_check db atm_id ev.event_sequence_number ≡ false
      → let (db', stats') = insert_and_continue env atm_id ev snaps o start in
        Ends atm_id ev db stats db' stats'
  unfolding insert_and_continue
  insert_and_continue-Ends refused new = duplicate refl refl refl refl
  insert_and_continue-Ends broken new = finish_start-Ends
  insert_and_continue-Ends written new =
      finish_inserted-Ends _ _ new (process_rest-Keeps env atm_id ev snaps db.next_id inserted)

  pub process_event-Ends :
      let (db', stats') = process_event atm_id snaps env ev db stats in
      Ends atm_id ev db stats db' stats'
  unfolding process_event
  process_event-Ends = elim (Bool-cases env.ready) [
    | inr out ↦ simp out finish_start-Ends
    | inl ready ↦ elim (Bool-cases (duplicate_check db atm_id ev.event_sequence_number)) [
      | inl seen ↦ simp (ready, seen) (duplicate refl refl refl refl)
      | inr new ↦ simp (ready, new) (insert_and_continue-Ends env.insert new)
    ]
  ]
