-- ===== src/Processor/Unique.antt =====
-- agent/services/event_processor_service.py: the events table keeps at most one row for each
-- sequence number of an ATM, and a recorded number stays recorded.
use atm_monitoring_agent.Prelude.{
  ℕ, ◌+◌, ◌≡◌, refl, Bool, true, false, ◌||◌, Option, none, some, List, [], ◌∷◌, ◌++◌, arith, any,
}
use atm_monitoring_agent.ParserModels.{AtmParsedEvent, CassetteSnapshot}
use atm_monitoring_agent.Database.{AtmEvent, Db}
use atm_monitoring_agent.Repositories.{has_sequence, duplicate_check}
use atm_monitoring_agent.Processor.{process_event, process_events, process_result}
use atm_monitoring_agent.Processor.Storing.{
  EventEnv, ProcessingStatistics, zero_statistics, event_row,
}
use atm_monitoring_agent.Processor.Order.{sort_events}
use atm_monitoring_agent.Processor.Frame.{Ends, committed, duplicate, failed, process_event-Ends}

-- whether a number of an ATM is in the rows; no number is in no rows
abbrev pub numbered : ℕ → Option ℕ → List AtmEvent → Bool
numbered atm_id none rows = false
numbered atm_id (some n) rows = any (has_sequence atm_id n) rows

-- No two rows of one ATM have the same sequence number; rows without a number are not compared.
abbrev pub UniqueEvents : List AtmEvent → Type 0
UniqueEvents [] = Unit
UniqueEvents (e ∷ rows) =
    (numbered e.atm_id e.event_sequence_number rows ≡ false) × UniqueEvents rows

pub duplicate_check-numbered :
    (db : Db) (atm_id : ℕ) (n : Option ℕ)
    → duplicate_check db atm_id n ≡ numbered atm_id n db.events
unfolding duplicate_check
duplicate_check-numbered db atm_id none = refl
duplicate_check-numbered db atm_id (some n) = refl

pub numbered-append :
    (atm_id : ℕ) (n : Option ℕ) (rows : List AtmEvent) (e : AtmEvent)
    → numbered atm_id n (rows ++ e ∷ []) ≡ (numbered atm_id n rows || numbered atm_id n (e ∷ []))
numbered-append atm_id none rows e = refl
numbered-append atm_id (some n) [] e = ground arith
numbered-append atm_id (some n) (r ∷ rows) e =
    ground (arith, numbered-append atm_id (some n) rows e)

numbered_swap :
    (e r : AtmEvent)
    → numbered r.atm_id r.event_sequence_number (e ∷ [])
      ≡ numbered e.atm_id e.event_sequence_number (r ∷ [])
numbered_swap e r = ground arith

numbered-cons :
    (atm_id : ℕ) (n : Option ℕ) (r : AtmEvent) (rows : List AtmEvent)
    → numbered atm_id n (r ∷ rows) ≡ (numbered atm_id n (r ∷ []) || numbered atm_id n rows)
numbered-cons atm_id none r rows = refl
numbered-cons atm_id (some n) r rows = ground arith

UniqueEvents-append :
    (rows : List AtmEvent) (e : AtmEvent)
    → UniqueEvents rows
    → numbered e.atm_id e.event_sequence_number rows ≡ false
    → UniqueEvents (rows ++ e ∷ [])
UniqueEvents-append [] e u new = ground arith
UniqueEvents-append (r ∷ rows) e (fresh, u) new =
    let split = numbered-cons e.atm_id e.event_sequence_number r rows in
    let swap = numbered_swap e r in
    (
      ground (arith, split, swap, numbered-append r.atm_id r.event_sequence_number rows e),
      UniqueEvents-append rows e u (ground (arith, split)),
    )

Ends-UniqueEvents :
    (atm_id : ℕ) (ev : AtmParsedEvent) (db db' : Db) (stats stats' : ProcessingStatistics)
    → Ends atm_id ev db stats db' stats'
    → UniqueEvents db.events
    → UniqueEvents db'.events
Ends-UniqueEvents atm_id ev db db' stats stats' (committed e h i k l n) u = rw e (
    UniqueEvents-append db.events (event_row db.next_id atm_id ev) u
      (rw (← duplicate_check-numbered db atm_id ev.event_sequence_number) n))
Ends-UniqueEvents atm_id ev db db' stats stats' (duplicate e i k l) u = rw e u
Ends-UniqueEvents atm_id ev db db' stats stats' (failed e h i k l) u = rw e u

-- A number that is recorded stays recorded, however an event ends.
pub numbered-process_event :
    (atm_id : ℕ) (snaps : List CassetteSnapshot) (env : EventEnv) (ev : AtmParsedEvent) (db : Db)
    (stats : ProcessingStatistics) (n : Option ℕ)
    → numbered atm_id n db.events ≡ true
    → numbered atm_id n (process_event atm_id snaps env ev db stats).0.events ≡ true
numbered-process_event atm_id snaps env ev db stats n seen =
    by_end _ _ (process_event-Ends atm_id snaps env ev db stats)
  where
    by_end :
        (db' : Db) (stats' : ProcessingStatistics)
        → Ends atm_id ev db stats db' stats'
        → numbered atm_id n db'.events ≡ true
    by_end db' stats' (committed e h i k l f) =
        rw e (ground (arith, numbered-append atm_id n db.events (event_row db.next_id atm_id ev)))
    by_end db' stats' (duplicate e i k l) = rw e seen
    by_end db' stats' (failed e h i k l) = rw e seen

process_events-UniqueEvents :
    (atm_id : ℕ) (snaps : List CassetteSnapshot) (envs : ℕ → EventEnv) (i : ℕ)
    (evs : List AtmParsedEvent) (db : Db) (stats : ProcessingStatistics)
    → UniqueEvents db.events
    → UniqueEvents (process_events atm_id snaps envs i evs db stats).0.events
unfolding process_events
process_events-UniqueEvents atm_id snaps envs i [] db stats u = u
process_events-UniqueEvents atm_id snaps envs i (ev ∷ evs) db stats u =
    let (db', stats') = process_event atm_id snaps (envs i) ev db stats in
    process_events-UniqueEvents atm_id snaps envs (i + 1) evs db' stats' (
      Ends-UniqueEvents atm_id ev db db' stats stats'
        (process_event-Ends atm_id snaps (envs i) ev db stats) u)

-- From an events table with at most one row for each sequence number of an ATM, a batch leads to
-- such a table, whatever the server does during the batch.
pub process_result-UniqueEvents :
    (atm_id : ℕ) (events : List AtmParsedEvent) (snaps : List CassetteSnapshot)
    (envs : ℕ → EventEnv) (db : Db)
    → UniqueEvents db.events
    → UniqueEvents (process_result atm_id events snaps envs db).0.events
unfolding process_result
process_result-UniqueEvents atm_id events snaps envs db u =
    process_events-UniqueEvents atm_id snaps envs 0 (sort_events events) db zero_statistics u
