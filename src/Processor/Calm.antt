-- ===== src/Processor/Calm.antt =====
-- agent/services/event_processor_service.py: an event that the server accepts and no other session
-- disturbs is recorded.
use atm_monitoring_agent.Prelude.{
  ℕ, ◌+◌, ◌≡◌, ◌≢◌, refl, true, false, none, some, List, [], ◌∷◌, ◌++◌, arith, Bool-cases, inl, inr,
  is_some,
}
use atm_monitoring_agent.ParserModels.{AtmParsedEvent, CassetteSnapshot}
use atm_monitoring_agent.Database.{Db, new_live_status}
use atm_monitoring_agent.Repositories.{duplicate_check, insert_event, get_by_atm_id}
use atm_monitoring_agent.Repositories.Laws.{
  get_by_atm_id-atm_id, get_by_atm_id-save, update_live_status_lem,
}
use atm_monitoring_agent.LiveStatus.{apply_status_updates}
use atm_monitoring_agent.LiveStatus.Identity.{atm_id-apply_status_updates}
use atm_monitoring_agent.Processor.Unique.{numbered, duplicate_check-numbered, numbered-append}
use atm_monitoring_agent.Processor.Frame.{Keeps, inserted, process_rest-Keeps}
use atm_monitoring_agent.Processor.{
  finish_event, insert_and_continue, conflict, interfere, load_status, update_attempt,
  update_status, process_rest, process_event,
}
use atm_monitoring_agent.Processor.Storing.{
  written, EventEnv, ProcessingStatistics, Session, Outcome, done, raised, event_row,
  process_snapshot, process_snapshots, matching_snaps,
}

-- The server accepts everything and no other session writes.
pub record IsCalm (env : EventEnv) : Type 0 where
  pub ready : env.ready ≡ true
  pub insert : env.insert ≡ written
  pub snapshot : (i : ℕ) → env.snapshot i ≡ written
  pub live : env.live ≡ true
  pub interference : (i : ℕ) → env.interference i ≡ none
  pub commit : env.commit ≡ true

process_snapshot-calm :
    (env : EventEnv) (event_id atm_id : ℕ) (ev : AtmParsedEvent) (i : ℕ) (snap : CassetteSnapshot)
    (w : Session)
    → IsCalm env
    → w.aborted ≡ false
    → let (r, w') = process_snapshot env event_id atm_id ev i snap w in
      (r ≡ done) × (w'.aborted ≡ false)
unfolding process_snapshot
process_snapshot-calm env event_id atm_id ev i snap w calm fine = ground (arith, calm.snapshot i)

process_snapshots-calm :
    (env : EventEnv) (event_id atm_id : ℕ) (ev : AtmParsedEvent) (i : ℕ)
    (snaps : List CassetteSnapshot) (w : Session)
    → IsCalm env
    → w.aborted ≡ false
    → let (r, w') = process_snapshots env event_id atm_id ev i snaps w in
      (r ≡ done) × (w'.aborted ≡ false)
unfolding process_snapshots
process_snapshots-calm env event_id atm_id ev i [] w calm fine = (refl, fine)
process_snapshots-calm env event_id atm_id ev i (snap ∷ snaps) w calm fine =
    let (r, w') = process_snapshot env event_id atm_id ev i snap w in
    ground (
      arith,
      process_snapshot-calm env event_id atm_id ev i snap w calm fine,
      process_snapshots-calm env event_id atm_id ev (i + 1) snaps w' calm,
    )

-- the row that `load_status` returns is the one in the table
load_status-found :
    (atm_id : ℕ) (w : Session)
    → let (status, v) = load_status atm_id w in get_by_atm_id v.db atm_id ≡ some status
unfolding load_status
load_status-found atm_id w =
    ground (arith, get_by_atm_id-save w.db (new_live_status atm_id w.db.next_version) atm_id)

update_attempt-calm :
    (env : EventEnv) (atm_id : ℕ) (ev : AtmParsedEvent) (snaps : List CassetteSnapshot) (i : ℕ)
    (w : Session)
    → IsCalm env
    → (update_attempt env atm_id ev snaps i w).0 ≢ conflict
unfolding update_attempt interfere
update_attempt-calm env atm_id ev snaps i w calm =
    let (status, v) = load_status atm_id w in
    let found : get_by_atm_id v.db atm_id ≡ some status = load_status-found atm_id w in
    let changed = apply_status_updates status ev snaps env.now in
    ground (
      arith,
      found,
      calm.interference i,
      get_by_atm_id-atm_id v.db atm_id status found,
      atm_id-apply_status_updates status ev snaps env.now,
      update_live_status_lem v.db changed status status.row_version,
    )

update_status-calm :
    (env : EventEnv) (atm_id : ℕ) (ev : AtmParsedEvent) (snaps : List CassetteSnapshot) (i : ℕ)
    (w : Session)
    → IsCalm env
    → (update_status env atm_id ev snaps 2 i w).0 ≡ done
unfolding update_status
update_status-calm env atm_id ev snaps i w calm =
    ground (arith, update_attempt-calm env atm_id ev snaps i w calm)

process_rest-calm :
    (env : EventEnv) (atm_id : ℕ) (ev : AtmParsedEvent) (snaps : List CassetteSnapshot)
    (event_id : ℕ) (w : Session)
    → IsCalm env
    → w.aborted ≡ false
    → (process_rest env atm_id ev snaps event_id w).0 ≡ done
unfolding process_rest
process_rest-calm env atm_id ev snaps event_id w calm fine =
    let matching = matching_snaps ev snaps in
    let v = (process_snapshots env event_id atm_id ev 0 matching w).1 in
    ground (
      arith,
      process_snapshots-calm env event_id atm_id ev 0 matching w calm fine,
      update_status-calm env atm_id ev matching 0 v calm,
    )

finish_event-calm :
    (atm_id : ℕ) (snaps : List CassetteSnapshot) (env : EventEnv) (ev : AtmParsedEvent) (db : Db)
    (stats : ProcessingStatistics) (r : Outcome) (w : Session)
    → r ≡ done
    → Keeps (inserted atm_id snaps env ev db stats) w
    → let (db', stats') = finish_event env atm_id ev r w in
      (stats'.health_logs_written ≡ stats.health_logs_written)
      × (db'.events ≡ db.events ++ event_row db.next_id atm_id ev ∷ [])
unfolding finish_event insert_event
finish_event-calm atm_id snaps env ev db stats done w e k = (k.logs, k.db_events)
finish_event-calm atm_id snaps env ev db stats raised w e k = cc

numbered-event_row :
    (id atm_id : ℕ) (ev : AtmParsedEvent)
    → numbered atm_id ev.event_sequence_number (event_row id atm_id ev ∷ [])
      ≡ is_some ev.event_sequence_number
numbered-event_row id atm_id ev = ground arith

-- In calm, an event is a duplicate or its row is committed: nothing is logged as a failure, and its
-- number, if it has one, is recorded.
pub process_event-calm :
    (atm_id : ℕ) (snaps : List CassetteSnapshot) (env : EventEnv) (ev : AtmParsedEvent) (db : Db)
    (stats : ProcessingStatistics)
    → IsCalm env
    → let (db', stats') = process_event atm_id snaps env ev db stats in
      (stats'.health_logs_written ≡ stats.health_logs_written)
      × (numbered atm_id ev.event_sequence_number db'.events ≡ is_some ev.event_sequence_number)
unfolding process_event insert_and_continue
process_event-calm atm_id snaps env ev db stats calm =
    elim (Bool-cases (duplicate_check db atm_id ev.event_sequence_number)) [
      | inl seen ↦ simp (calm.ready, seen) (refl, ground (arith, bridge))
      | inr new ↦
          simp (calm.ready, new, calm.insert)
            (ended.0, rw (ended.1, numbered-append) (ground (arith, row)))
    ]
  where
    bridge :
        duplicate_check db atm_id ev.event_sequence_number
        ≡ numbered atm_id ev.event_sequence_number db.events
    bridge = duplicate_check-numbered db atm_id ev.event_sequence_number

    row :
        numbered atm_id ev.event_sequence_number (event_row db.next_id atm_id ev ∷ [])
        ≡ is_some ev.event_sequence_number
    row = numbered-event_row db.next_id atm_id ev

    w : Session
    w = inserted atm_id snaps env ev db stats

    ended :
        let (r, w') = process_rest env atm_id ev snaps db.next_id w in
        let (db', stats') = finish_event env atm_id ev r w' in
        (stats'.health_logs_written ≡ stats.health_logs_written)
        × (db'.events ≡ db.events ++ event_row db.next_id atm_id ev ∷ [])
    ended =
        finish_event-calm atm_id snaps env ev db stats _ _
          (process_rest-calm env atm_id ev snaps db.next_id w calm refl)
          (process_rest-Keeps env atm_id ev snaps db.next_id w)
