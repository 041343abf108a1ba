-- ===== src/Processor/Freshness.antt =====
-- agent/services/event_processor_service.py: the timestamp protection of the live status.
use atm_monitoring_agent.Prelude.{
  ℕ, zero, suc, ◌+◌, ◌≤◌, ◌≡◌, refl, ◌∙◌, ap, false, Option, none, some, List, [], ◌∷◌, arith, inl,
  inr, ◌⊎◌,
}
use atm_monitoring_agent.ParserModels.{DateTime, AtmParsedEvent, CassetteSnapshot}
use atm_monitoring_agent.Database.{AtmEvent, AtmLiveStatus, Db, new_live_status}
use atm_monitoring_agent.Repositories.{insert_event, insert_history, insert_log, get_by_atm_id}
use atm_monitoring_agent.Repositories.Laws.{
  get_by_atm_id-atm_id, get_by_atm_id-save, update_live_status_lem, get_by_atm_id-live,
}
use atm_monitoring_agent.LiveStatus.{apply_status_updates}
use atm_monitoring_agent.LiveStatus.Identity.{
  atm_id-apply_status_updates, last_event_time-apply_status_updates,
}
use atm_monitoring_agent.Processor.{
  Attempt, updated, ignored, conflict, interfere, load_status, update_attempt, update_status,
  process_rest, insert_and_continue, finish_event, process_event, process_events, process_result,
  newer_seen,
}
use atm_monitoring_agent.Processor.Storing.{
  EventEnv, ProcessingStatistics, zero_statistics, Session, Outcome, done, event_row,
  process_snapshot, process_snapshots, matching_snaps,
}
use atm_monitoring_agent.Processor.Frame.{inserted}
use atm_monitoring_agent.Processor.Order.{sort_events}

-- The time of the last event in the live status of an ATM, if there is one.
abbrev last_time_of : Option AtmLiveStatus → Option DateTime
last_time_of none = none
last_time_of (some s) = s.last_event_time

abbrev pub last_time : Db → ℕ → Option DateTime
last_time db atm_id = last_time_of (get_by_atm_id db atm_id)

-- No later time is known, or an equal or later one.
abbrev pub NotBefore : Option DateTime → Option DateTime → Type 0
NotBefore none later = Unit
NotBefore (some t) none = ⊥
NotBefore (some t) (some u) = t ≤ u

NotBefore-refl : (t : Option DateTime) → NotBefore t t
NotBefore-refl none = tt
NotBefore-refl (some t) = omega arith

NotBefore-trans : (t u v : Option DateTime) → NotBefore t u → NotBefore u v → NotBefore t v
NotBefore-trans none u v h k = tt
NotBefore-trans (some t) none v h k = absurd h
NotBefore-trans (some t) (some u) none h k = absurd k
NotBefore-trans (some t) (some u) (some v) h k = omega arith

NotBefore-of_newer_seen :
    (t : Option DateTime) (time : DateTime) → newer_seen t time ≡ false → NotBefore t (some time)
NotBefore-of_newer_seen none time h = tt
NotBefore-of_newer_seen (some t) time h = ground arith

load_status-last_time :
    (atm_id : ℕ) (w : Session)
    → let (status, v) = load_status atm_id w in
      (get_by_atm_id v.db atm_id ≡ some status)
      × (status.last_event_time ≡ last_time w.db atm_id)
      × (v.base ≡ w.base)
unfolding load_status
load_status-last_time atm_id w =
    ground (arith, get_by_atm_id-save w.db (new_live_status atm_id w.db.next_version) atm_id)

update_attempt-last_time :
    (env : EventEnv) (atm_id : ℕ) (ev : AtmParsedEvent) (snaps : List CassetteSnapshot) (i : ℕ)
    (w : Session)
    → env.interference i ≡ none
    → let t = last_time w.db atm_id in
      let u = (update_attempt env atm_id ev snaps i w).1 in
      (u.base ≡ w.base)
      × ((last_time u.db atm_id ≡ t)
          ⊎ ((newer_seen t ev.event_time ≡ false) × (last_time u.db atm_id ≡ some ev.event_time)))
unfolding update_attempt interfere
update_attempt-last_time env atm_id ev snaps i w alone =
    let (status, v) = load_status atm_id w in
    let (found, same, base) = load_status-last_time atm_id w in
    let changed = apply_status_updates status ev snaps env.now in
    ground (
      arith,
      found,
      same,
      base,
      get_by_atm_id-atm_id v.db atm_id status found,
      atm_id-apply_status_updates status ev snaps env.now,
      last_event_time-apply_status_updates status ev snaps env.now,
      update_live_status_lem v.db changed status status.row_version,
      get_by_atm_id-save v.db changed atm_id,
    )

update_attempt-NotBefore :
    (env : EventEnv) (atm_id : ℕ) (ev : AtmParsedEvent) (snaps : List CassetteSnapshot) (i : ℕ)
    (w : Session)
    → env.interference i ≡ none
    → let u = (update_attempt env atm_id ev snaps i w).1 in
      (u.base ≡ w.base) × NotBefore (last_time w.db atm_id) (last_time u.db atm_id)
update_attempt-NotBefore env atm_id ev snaps i w alone =
    let (base, times) = update_attempt-last_time env atm_id ev snaps i w alone in
    (
      base,
      elim times [
        | inl same ↦ rw same (NotBefore-refl (last_time w.db atm_id))
        | inr newer ↦
            rw newer.1 (NotBefore-of_newer_seen (last_time w.db atm_id) ev.event_time newer.0)
      ],
    )

module _ (env : EventEnv) (alone : (i : ℕ) → env.interference i ≡ none) where
  update_status-NotBefore :
      (atm_id : ℕ) (ev : AtmParsedEvent) (snaps : List CassetteSnapshot) (left i : ℕ) (w : Session)
      → let u = (update_status env atm_id ev snaps left i w).1 in
        (u.base ≡ w.base) × NotBefore (last_time w.db atm_id) (last_time u.db atm_id)
  unfolding update_status
  update_status-NotBefore atm_id ev snaps zero i w = (refl, NotBefore-refl (last_time w.db atm_id))
  update_status-NotBefore atm_id ev snaps (suc left) i w =
      let (r, w') = update_attempt env atm_id ev snaps i w in
      let (base, first) = update_attempt-NotBefore env atm_id ev snaps i w (alone i) in
      by_attempt r w' base first (update_status-NotBefore atm_id ev snaps left (i + 1) w')
    where
      by_attempt :
          (r : Attempt) (w' : Session)
          → w'.base ≡ w.base
          → NotBefore (last_time w.db atm_id) (last_time w'.db atm_id)
          → (let v = (update_status env atm_id ev snaps left (i + 1) w').1 in
              (v.base ≡ w'.base) × NotBefore (last_time w'.db atm_id) (last_time v.db atm_id))
          → let u : Session =
              (elim r as (λ _. Outcome × Session) [
                | updated ↦ (done, w')
                | ignored ↦ (done, w')
                | conflict ↦ update_status env atm_id ev snaps left (i + 1) w'
              ]).1 in
            (u.base ≡ w.base) × NotBefore (last_time w.db atm_id) (last_time u.db atm_id)
      by_attempt updated w' base first rest = (base, first)
      by_attempt ignored w' base first rest = (base, first)
      by_attempt conflict w' base first rest = (
        rest.0 ∙ base,
        NotBefore-trans (last_time w.db atm_id) (last_time w'.db atm_id) _ first rest.1,
      )

process_snapshot-live :
    (env : EventEnv) (event_id atm_id : ℕ) (ev : AtmParsedEvent) (i : ℕ) (snap : CassetteSnapshot)
    (w : Session)
    → let u = (process_snapshot env event_id atm_id ev i snap w).1 in
      (u.base ≡ w.base) × (u.db.live ≡ w.db.live)
unfolding process_snapshot insert_history
process_snapshot-live env event_id atm_id ev i snap w = ground arith

process_snapshots-live :
    (env : EventEnv) (event_id atm_id : ℕ) (ev : AtmParsedEvent) (i : ℕ)
    (snaps : List CassetteSnapshot) (w : Session)
    → let u = (process_snapshots env event_id atm_id ev i snaps w).1 in
      (u.base ≡ w.base) × (u.db.live ≡ w.db.live)
unfolding process_snapshots
process_snapshots-live env event_id atm_id ev i [] w = (refl, refl)
process_snapshots-live env event_id atm_id ev i (snap ∷ snaps) w =
    let w' = (process_snapshot env event_id atm_id ev i snap w).1 in
    ground (
      arith,
      process_snapshot-live env event_id atm_id ev i snap w,
      process_snapshots-live env event_id atm_id ev (i + 1) snaps w',
    )

last_time-live :
    (db db' : Db) (atm_id : ℕ) → db'.live ≡ db.live → last_time db' atm_id ≡ last_time db atm_id
last_time-live db db' atm_id e = ap last_time_of (get_by_atm_id-live db db' atm_id e)

live-inserted : (db : Db) (row : AtmEvent) → (insert_event db row).live ≡ db.live
unfolding insert_event
live-inserted db row = refl

session-process_rest :
    (env : EventEnv) (atm_id : ℕ) (ev : AtmParsedEvent) (snaps : List CassetteSnapshot)
    (event_id : ℕ) (w : Session)
    → let matching = matching_snaps ev snaps in
      let v = (process_snapshots env event_id atm_id ev 0 matching w).1 in
      let u = (process_rest env atm_id ev snaps event_id w).1 in
      (u ≡ v) ⊎ (u ≡ (update_status env atm_id ev matching 2 0 v).1)
unfolding process_rest
session-process_rest env atm_id ev snaps event_id w = ground arith

live-process_event :
    (atm_id : ℕ) (snaps : List CassetteSnapshot) (env : EventEnv) (ev : AtmParsedEvent) (db : Db)
    (stats : ProcessingStatistics)
    → let w = inserted atm_id snaps env ev db stats in
      let (db', _) = process_event atm_id snaps env ev db stats in
      let u = (process_rest env atm_id ev snaps db.next_id w).1 in
      (db'.live ≡ db.live) ⊎ ((db'.live ≡ u.base.live) ⊎ (db'.live ≡ u.db.live))
unfolding process_event insert_and_continue finish_event insert_log
live-process_event atm_id snaps env ev db stats = ground arith

module _ (atm_id : ℕ) (snaps : List CassetteSnapshot) where
  process_rest-NotBefore :
      (env : EventEnv) (ev : AtmParsedEvent) (event_id : ℕ) (w : Session)
      → ((i : ℕ) → env.interference i ≡ none)
      → let u = (process_rest env atm_id ev snaps event_id w).1 in
        (u.base ≡ w.base) × NotBefore (last_time w.db atm_id) (last_time u.db atm_id)
  process_rest-NotBefore env ev event_id w alone =
      let matching = matching_snaps ev snaps in
      let v = (process_snapshots env event_id atm_id ev 0 matching w).1 in
      let (base, live) = process_snapshots-live env event_id atm_id ev 0 matching w in
      let same = last_time-live w.db v.db atm_id live in
      let (base', later) = update_status-NotBefore env alone atm_id ev matching 2 0 v in
      elim (session-process_rest env atm_id ev snaps event_id w) [
        | inl stopped ↦ rw (stopped, same) (base, NotBefore-refl (last_time w.db atm_id))
        | inr went_on ↦ rw (went_on, ← same) (base' ∙ base, later)
      ]

  process_event-NotBefore :
      (env : EventEnv) (ev : AtmParsedEvent) (db : Db) (stats : ProcessingStatistics)
      → ((i : ℕ) → env.interference i ≡ none)
      → NotBefore
          (last_time db atm_id)
          (last_time (process_event atm_id snaps env ev db stats).0 atm_id)
  process_event-NotBefore env ev db stats alone =
      let w = inserted atm_id snaps env ev db stats in
      let (db', _) = process_event atm_id snaps env ev db stats in
      let u = (process_rest env atm_id ev snaps db.next_id w).1 in
      let (base, later) = process_rest-NotBefore env ev db.next_id w alone in
      let start =
        last_time-live db w.db atm_id (live-inserted db (event_row db.next_id atm_id ev)) in
      elim (live-process_event atm_id snaps env ev db stats) [
        | inl same ↦ rw (last_time-live db db' atm_id same) (NotBefore-refl (last_time db atm_id))
        | inr (inl undone) ↦
            rw (last_time-live db db' atm_id (undone ∙ ap (λ (d : Db). d.live) base))
              (NotBefore-refl (last_time db atm_id))
        | inr (inr committed) ↦ rw (last_time-live u.db db' atm_id committed, ← start) later
      ]

  process_events-NotBefore :
      (envs : ℕ → EventEnv) (i : ℕ) (evs : List AtmParsedEvent) (db : Db)
      (stats : ProcessingStatistics)
      → ((k j : ℕ) → (envs k).interference j ≡ none)
      → NotBefore
          (last_time db atm_id)
          (last_time (process_events atm_id snaps envs i evs db stats).0 atm_id)
  unfolding process_events
  process_events-NotBefore envs i [] db stats alone = NotBefore-refl (last_time db atm_id)
  process_events-NotBefore envs i (ev ∷ evs) db stats alone =
      let (db', stats') = process_event atm_id snaps (envs i) ev db stats in
      NotBefore-trans (last_time db atm_id) (last_time db' atm_id) _
        (process_event-NotBefore (envs i) ev db stats (alone i))
        (process_events-NotBefore envs (i + 1) evs db' stats' alone)

-- While no other session writes the live status, a batch never moves the time of the last event of
-- its ATM back, whatever the order of the events' times and whatever fails.
pub process_result-NotBefore :
    (atm_id : ℕ) (events : List AtmParsedEvent) (snaps : List CassetteSnapshot)
    (envs : ℕ → EventEnv) (db : Db)
    → ((k j : ℕ) → (envs k).interference j ≡ none)
    → NotBefore
        (last_time db atm_id)
        (last_time (process_result atm_id events snaps envs db).0 atm_id)
unfolding process_result
process_result-NotBefore atm_id events snaps envs db alone =
    process_events-NotBefore atm_id snaps envs 0 (sort_events events) db zero_statistics alone
