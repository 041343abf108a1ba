-- ===== src/Processor/Replay.antt =====
-- agent/services/event_processor_service.py: a batch that is processed again adds nothing, which is
-- what makes it safe to read a part of the log twice.
use mathlib.Core.Path.{subst}
use atm_monitoring_agent.Prelude.{
  ℕ, ◌+◌, ◌≡◌, refl, sym, ◌∙◌, true, Option, List, [], ◌∷◌, arith, Bool-cases, inl, inr, is_some,
  All,
}
use atm_monitoring_agent.ParserModels.{AtmParsedEvent, CassetteSnapshot}
use atm_monitoring_agent.Database.{AtmEvent, Db}
use atm_monitoring_agent.Repositories.{insert_log}
use atm_monitoring_agent.Processor.Unique.{
  numbered, duplicate_check-numbered, numbered-process_event,
}
use atm_monitoring_agent.Processor.Calm.{IsCalm, process_event-calm}
use atm_monitoring_agent.Processor.Order.{key_le, insert_sorted, sort_events}
use atm_monitoring_agent.Processor.{process_event, process_events, process_result}
use atm_monitoring_agent.Processor.Storing.{EventEnv, ProcessingStatistics, zero_statistics}

-- An event with a sequence number that the table has.
abbrev pub IsRecorded : ℕ → List AtmEvent → AtmParsedEvent → Type 0
IsRecorded atm_id rows ev = numbered atm_id ev.event_sequence_number rows ≡ true

abbrev pub HasNumber : AtmParsedEvent → Type 0
HasNumber ev = is_some ev.event_sequence_number ≡ true

All-insert_sorted {ℓ} :
    (P : AtmParsedEvent → Type ℓ) (e : AtmParsedEvent) (es : List AtmParsedEvent)
    → P e
    → All P es
    → All P (insert_sorted e es)
unfolding insert_sorted
All-insert_sorted P e [] h hs = (h, hs)
All-insert_sorted P e (x ∷ es) h hs = elim (Bool-cases (key_le e x)) [
  | inl first ↦ rw first (h, hs)
  | inr later ↦ rw later (hs.0, All-insert_sorted P e es h hs.1)
]

pub All-sort_events {ℓ} :
    (P : AtmParsedEvent → Type ℓ) (es : List AtmParsedEvent) → All P es → All P (sort_events es)
unfolding sort_events
All-sort_events P [] hs = hs
All-sort_events P (e ∷ es) (h, hs) =
    All-insert_sorted P e (sort_events es) h (All-sort_events P es hs)

module _ (atm_id : ℕ) (snaps : List CassetteSnapshot) (envs : ℕ → EventEnv) where
  numbered-process_events :
      (i : ℕ) (evs : List AtmParsedEvent) (db : Db) (stats : ProcessingStatistics) (n : Option ℕ)
      → numbered atm_id n db.events ≡ true
      → numbered atm_id n (process_events atm_id snaps envs i evs db stats).0.events ≡ true
  unfolding process_events
  numbered-process_events i [] db stats n seen = seen
  numbered-process_events i (ev ∷ evs) db stats n seen =
      let (db', stats') = process_event atm_id snaps (envs i) ev db stats in
      numbered-process_events (i + 1) evs db' stats' n
        (numbered-process_event atm_id snaps (envs i) ev db stats n seen)

  -- in calm, no failure is counted and every event with a number is recorded
  process_events-calm :
      ((i : ℕ) → IsCalm (envs i))
      → (i : ℕ) (evs : List AtmParsedEvent) (db : Db) (stats : ProcessingStatistics)
      → All HasNumber evs
      → let (db', stats') = process_events atm_id snaps envs i evs db stats in
        (stats'.health_logs_written ≡ stats.health_logs_written)
        × All (IsRecorded atm_id db'.events) evs
  unfolding process_events
  process_events-calm calm i [] db stats hs = (refl, tt)
  process_events-calm calm i (ev ∷ evs) db stats (h, hs) =
      let (db', stats') = process_event atm_id snaps (envs i) ev db stats in
      let (quiet, kept) = process_event-calm atm_id snaps (envs i) ev db stats (calm i) in
      let (quieter, rest) = process_events-calm calm (i + 1) evs db' stats' hs in
      (
        quieter ∙ quiet,
        (numbered-process_events (i + 1) evs db' stats' ev.event_sequence_number (kept ∙ h), rest),
      )

  -- an event whose number is recorded changes no event and no snapshot
  process_event-recorded :
      (env : EventEnv) (ev : AtmParsedEvent) (db : Db) (stats : ProcessingStatistics)
      → IsRecorded atm_id db.events ev
      → let (db', stats') = process_event atm_id snaps env ev db stats in
        (db'.events ≡ db.events) × (db'.history ≡ db.history) × (db'.live ≡ db.live)
  unfolding process_event insert_log
  process_event-recorded env ev db stats seen =
      ground (arith, duplicate_check-numbered db atm_id ev.event_sequence_number)

  process_events-recorded :
      (i : ℕ) (evs : List AtmParsedEvent) (db : Db) (stats : ProcessingStatistics)
      → All (IsRecorded atm_id db.events) evs
      → let (db', stats') = process_events atm_id snaps envs i evs db stats in
        (db'.events ≡ db.events) × (db'.history ≡ db.history) × (db'.live ≡ db.live)
  unfolding process_events
  process_events-recorded i [] db stats hs = (refl, refl, refl)
  process_events-recorded i (ev ∷ evs) db stats (h, hs) =
      let (db', stats') = process_event atm_id snaps (envs i) ev db stats in
      let (e, k, l) = process_event-recorded (envs i) ev db stats h in
      let (es, ks, ls) =
        process_events-recorded (i + 1) evs db' stats'
          (subst (λ rows. All (IsRecorded atm_id rows) evs) (sym e) hs) in
      (es ∙ e, ks ∙ k, ls ∙ l)

-- A batch of numbered events that was processed without failures and disturbances is processed a
-- second time: then, whatever the server does that time, the tables of events, of snapshots and of
-- the live status stay as the first pass left them, and the first pass counted no failure.
pub process_result_again :
    (atm_id : ℕ) (events : List AtmParsedEvent) (snaps : List CassetteSnapshot)
    (envs again : ℕ → EventEnv) (db : Db)
    → All HasNumber events
    → ((i : ℕ) → IsCalm (envs i))
    → let (first, stats) = process_result atm_id events snaps envs db in
      let (second, _) = process_result atm_id events snaps again first in
      (stats.health_logs_written ≡ 0)
      × (second.events ≡ first.events)
      × (second.history ≡ first.history)
      × (second.live ≡ first.live)
unfolding process_result
process_result_again atm_id events snaps envs again db numbers calm =
    let sorted = sort_events events in
    let (first, stats) = process_events atm_id snaps envs 0 sorted db zero_statistics in
    let (quiet, kept) =
      process_events-calm atm_id snaps envs calm 0 sorted db zero_statistics
        (All-sort_events HasNumber events numbers) in
    let (e, k, l) =
      process_events-recorded atm_id snaps again 0 sorted first zero_statistics kept in
    (quiet, e, k, l)
