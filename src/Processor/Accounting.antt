-- ===== src/Processor/Accounting.antt =====
-- agent/services/event_processor_service.py: every event of a batch is committed, skipped or logged,
-- and the events table keeps one row for each sequence number of an ATM.
use atm_monitoring_agent.Prelude.{
  ℕ, ◌+◌, ◌≤◌, ◌≡◌, refl, ap, List, [], ◌∷◌, arith, length, length-append,
}
use atm_monitoring_agent.ParserModels.{AtmParsedEvent, CassetteSnapshot}
use atm_monitoring_agent.Database.{Db}
use atm_monitoring_agent.Processor.{process_event, process_events, process_result}
use atm_monitoring_agent.Processor.Storing.{
  EventEnv, ProcessingStatistics, zero_statistics, event_row,
}
use atm_monitoring_agent.Processor.Order.{insert_sorted, sort_events}
use atm_monitoring_agent.Processor.Frame.{Ends, committed, duplicate, failed, process_event-Ends}

-- The events of a batch that are accounted for: rows in the table, skips and logged failures.
abbrev pub accounted : Db → ProcessingStatistics → ℕ
accounted db stats = length db.events + stats.events_skipped + stats.health_logs_written

Ends-accounted :
    (atm_id : ℕ) (ev : AtmParsedEvent) (db db' : Db) (stats stats' : ProcessingStatistics)
    → Ends atm_id ev db stats db' stats'
    → (accounted db' stats' ≡ accounted db stats + 1)
      × (length db'.events + stats.events_inserted ≤ length db.events + stats'.events_inserted)
Ends-accounted atm_id ev db db' stats stats' (committed e h i k l n) =
    let size = ap length e in
    let grown = length-append db.events (event_row db.next_id atm_id ev ∷ []) in
    (omega arith, omega arith)
Ends-accounted atm_id ev db db' stats stats' (duplicate e i k l) =
    let size = ap (λ (d : Db). length d.events) e in (omega arith, omega arith)
Ends-accounted atm_id ev db db' stats stats' (failed e h i k l) =
    let size = ap length e in (omega arith, omega arith)

length-insert_sorted :
    (e : AtmParsedEvent) (es : List AtmParsedEvent) → length (insert_sorted e es) ≡ length es + 1
unfolding insert_sorted
length-insert_sorted e [] = omega arith
length-insert_sorted e (x ∷ es) = ground (arith, length-insert_sorted e es)

pub length-sort_events : (es : List AtmParsedEvent) → length (sort_events es) ≡ length es
unfolding sort_events
length-sort_events [] = refl
length-sort_events (e ∷ es) =
    omega (arith, length-insert_sorted e (sort_events es), length-sort_events es)

module _ (atm_id : ℕ) (snaps : List CassetteSnapshot) (envs : ℕ → EventEnv) where
  process_events-accounted :
      (i : ℕ) (evs : List AtmParsedEvent) (db : Db) (stats : ProcessingStatistics)
      → let (db', stats') = process_events atm_id snaps envs i evs db stats in
        (accounted db' stats' ≡ accounted db stats + length evs)
        × (length db'.events + stats.events_inserted ≤ length db.events + stats'.events_inserted)
  unfolding process_events
  process_events-accounted i [] db stats = (omega arith, omega arith)
  process_events-accounted i (ev ∷ evs) db stats =
      let (db₁, stats₁) = process_event atm_id snaps (envs i) ev db stats in
      let (first, more) =
        Ends-accounted atm_id ev db db₁ stats stats₁
          (process_event-Ends atm_id snaps (envs i) ev db stats) in
      let (rest, most) = process_events-accounted (i + 1) evs db₁ stats₁ in
      (omega arith, omega arith)

-- Whatever the server does, each event of a batch adds a row, is skipped as a duplicate, or is
-- counted as a failure: the rows added, the skips and the failures sum to the number of events. The
-- rows added are at most `events_inserted`.
pub process_result-accounted :
    (atm_id : ℕ) (events : List AtmParsedEvent) (snaps : List CassetteSnapshot)
    (envs : ℕ → EventEnv) (db : Db)
    → let (db', stats) = process_result atm_id events snaps envs db in
      (length db'.events + stats.events_skipped + stats.health_logs_written
        ≡ length db.events + length events)
      × (length db'.events ≤ length db.events + stats.events_inserted)
unfolding process_result
process_result-accounted atm_id events snaps envs db =
    let (sum, most) =
      process_events-accounted atm_id snaps envs 0 (sort_events events) db zero_statistics in
    (omega (arith, length-sort_events events), omega arith)
