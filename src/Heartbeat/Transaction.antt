-- ===== src/Heartbeat/Transaction.antt =====
-- agent/services/heartbeat_service.py: what a heartbeat changes, and what it does to an update of the
-- live status that is under way.
use mathlib.Core.Option
use atm_monitoring_agent.Prelude.{
  ℕ, ◌+◌, ◌<◌, ◌≡◌, refl, sym, ap, ◌∙◌, inl, inr, Bool, true, false, not, ◌&&◌, ◌||◌, Option, none,
  some, List, [], ◌∷◌, ◌==◌, if◌then◌else◌, Bool-cases, Option-cases, ==_iff, arith,
}
use atm_monitoring_agent.Database.{AtmLiveStatus, Db}
use atm_monitoring_agent.Repositories.{get_by_atm_id, save, update_live_status}
use atm_monitoring_agent.Repositories.Laws.{
  get_by_atm_id-atm_id, get_by_atm_id-save, update_live_status_lem,
}
use atm_monitoring_agent.Metrics.{record_heartbeat}
use atm_monitoring_agent.Heartbeat.{
  Atm, Place, at_session, at_begin, at_atm, at_version, at_status, at_update_atm, at_update_status,
  at_commit, Beat, State, Session, Step, raised, statement, new_session, flush_atm, flush_status,
  commit, unchanged_session, then_count, from_commit, from_update_status, from_update_atm,
  from_status, from_version, from_atm, body, closed, ◌>>=◌, beat_atm, beat_live, find_atm,
  update_atm, update_status, send_heartbeat,
}

find-update_atm :
    (b : Beat) (atm_id key : ℕ) (atms : List Atm)
    → find_atm key (update_atm b atm_id atms)
      ≡ (if key == atm_id then Option.map (beat_atm b) (find_atm key atms) else find_atm key atms)
unfolding find_atm update_atm
find-update_atm b atm_id key [] = ground arith
find-update_atm b atm_id key (a ∷ atms) = ground (arith, find-update_atm b atm_id key atms)

abbrev stamped : Beat → Db → AtmLiveStatus → AtmLiveStatus
stamped b db s = record (beat_live b s) { row_version = db.next_version }

module _ (b : Beat) (atm_id key : ℕ) (db : Db) where
  unchanged :
      (t : Bool)
      → (t ≡ true → key ≡ atm_id)
      → get_by_atm_id db atm_id ≡ none
      → get_by_atm_id db key
        ≡ (if t then Option.map (stamped b db) (get_by_atm_id db key) else get_by_atm_id db key)
  unchanged true h missing =
      let gone = ap (get_by_atm_id db) (h refl) ∙ missing in
      gone ∙ sym (ap (Option.map (stamped b db)) gone)
  unchanged false h missing = refl

  found_row :
      (s : AtmLiveStatus)
      → get_by_atm_id db atm_id ≡ some s
      → (if atm_id == key then some (stamped b db s) else get_by_atm_id db key) ≡ (
          if key == atm_id
          then Option.map (stamped b db) (get_by_atm_id db key)
          else get_by_atm_id db key)
  found_row s found = elim (Bool-cases (key == atm_id)) [
    | inl same ↦
        let e = (==_iff key atm_id).0 same in
        rw (same, (==_iff atm_id key).1 (sym e), ap (get_by_atm_id db) e ∙ found)
    | inr other ↦ ground arith
  ]

  find-update_status : get_by_atm_id (update_status b (get_by_atm_id db atm_id) db) key ≡ (
      if key == atm_id
      then Option.map (stamped b db) (get_by_atm_id db key)
      else get_by_atm_id db key)
  find-update_status = elim (Option-cases (get_by_atm_id db atm_id)) [
    | inl missing ↦ rw missing (unchanged (key == atm_id) (==_iff key atm_id).0 missing)
    | inr (s, found) ↦
        ap (λ (o : Option AtmLiveStatus). get_by_atm_id (update_status b o db) key) found
        ∙ get_by_atm_id-save db (beat_live b s) key
        ∙ ap (λ (k : ℕ). if k == key then some (stamped b db s) else get_by_atm_id db key)
            (get_by_atm_id-atm_id db atm_id s found)
        ∙ found_row s found
  ]

update_status-rest :
    (b : Beat) (o : Option AtmLiveStatus) (db : Db)
    → ((update_status b o db).events ≡ db.events)
      × ((update_status b o db).history ≡ db.history)
      × ((update_status b o db).health ≡ db.health)
unfolding save
update_status-rest b none db = (refl, refl, refl)
update_status-rest b (some s) db = (refl, refl, refl)

-- Some place raises.
abbrev pub fails : Beat → Bool
fails b =
    b.raises at_session
    || (b.raises at_begin
        || (b.raises at_atm
            || (b.raises at_version
                || (b.raises at_status
                    || (b.raises at_update_atm
                        || (b.raises at_update_status || b.raises at_commit))))))

-- The state that a heartbeat is meant to leave.
abbrev beaten : Beat → ℕ → State → State
beaten b atm_id s = record {
  atms = update_atm b atm_id s.atms;
  db = update_status b (get_by_atm_id s.db atm_id) s.db;
  metrics = record_heartbeat s.metrics;
}

-- What a heartbeat leaves, and how it counts.
pub record IsBeat (b : Beat) (atm_id : ℕ) (before after : State) : Type 0 where
  pub atms_lem :
      (key : ℕ)
      → find_atm key after.atms ≡ (
          if not (fails b) && key == atm_id
          then Option.map (beat_atm b) (find_atm key before.atms)
          else find_atm key before.atms)
  pub live_lem :
      (key : ℕ)
      → get_by_atm_id after.db key ≡ (
          if not (fails b) && key == atm_id
          then Option.map (stamped b before.db) (get_by_atm_id before.db key)
          else get_by_atm_id before.db key)
  pub rest_lem :
      (after.db.events ≡ before.db.events)
      × (after.db.history ≡ before.db.history)
      × (after.db.health ≡ before.db.health)
  pub count_lem :
      after.metrics.heartbeat_count
      ≡ (if fails b then before.metrics.heartbeat_count else before.metrics.heartbeat_count + 1)

-- Behind a statement: what holds if it raises, and else.
module _ (P : Step → Type 0) (b : Beat) (place : Place) where
  statement-cases :
      (f : Session → Session) (k : Session → Step) (t : Session)
      → (b.raises place ≡ true → P (raised t))
      → (b.raises place ≡ false → P (k (f t)))
      → P (statement b place f t >>= k)
  statement-cases f k t stops next = elim (Bool-cases (b.raises place)) [
    | inl e ↦ rw e (stops e)
    | inr e ↦ rw e (next e)
  ]

module _ (b : Beat) (atm_id : ℕ) (s : State) where
  abbrev Ends : State → Type 0
  Ends after = after ≡ (if fails b then s else beaten b atm_id s)

  failed-Ends : fails b ≡ true → Ends s
  failed-Ends h = rw h refl

  session-Ends :
      (c : Bool) (after : State)
      → (c ≡ true → Ends s)
      → (c ≡ false → Ends after)
      → Ends (if c then s else after)
  session-Ends true after h k = h refl
  session-Ends false after h k = k refl

  body-Ends : b.raises at_session ≡ false → Ends (closed (body b atm_id (new_session s)))
  unfolding body
  body-Ends h₀ =
      let t = new_session s in
      let changed = flush_atm b atm_id t in
      let stamped = flush_status b atm_id changed in
      let cases = statement-cases (λ step. Ends (closed step)) b in
      cases at_begin unchanged_session (from_atm b atm_id) t (λ e. failed-Ends (ground arith))
        (λ h₁.
          cases at_atm unchanged_session (from_version b atm_id) t (λ e. failed-Ends (ground arith))
            (λ h₂.
              cases at_version unchanged_session (from_status b atm_id) t
                (λ e. failed-Ends (ground arith))
                (λ h₃.
                  cases at_status unchanged_session (from_update_atm b atm_id) t
                    (λ e. failed-Ends (ground arith))
                    (λ h₄.
                      cases at_update_atm (flush_atm b atm_id) (from_update_status b atm_id) t
                        (λ e. failed-Ends (ground arith))
                        (λ h₅.
                          cases at_update_status (flush_status b atm_id) (from_commit b) changed
                            (λ e. failed-Ends (ground arith))
                            (λ h₆.
                              cases at_commit commit then_count stamped
                                (λ e. failed-Ends (ground arith))
                                (λ h₇.
                                  let works : fails b ≡ false = ground arith in rw works refl)))))))

  send_heartbeat-Ends : Ends (send_heartbeat b atm_id s)
  unfolding send_heartbeat
  send_heartbeat-Ends =
      session-Ends (b.raises at_session) (closed (body b atm_id (new_session s)))
        (λ e. failed-Ends (ground arith)) body-Ends

  send_heartbeat-raised : fails b ≡ true → send_heartbeat b atm_id s ≡ s
  send_heartbeat-raised h = rw h at send_heartbeat-Ends

  send_heartbeat-goes : fails b ≡ false → send_heartbeat b atm_id s ≡ beaten b atm_id s
  send_heartbeat-goes h = rw h at send_heartbeat-Ends

-- A heartbeat is all or nothing. If anything in it raises, the ATM, the live status, the other tables
-- and the count of heartbeats are as before; else exactly the row of the ATM has the heartbeat, the
-- version and the names, exactly its live status has the time of the agent's heartbeat and a new row
-- version, each if it is there, and one more heartbeat is counted.
pub send_heartbeat-IsBeat :
    (b : Beat) (atm_id : ℕ) (s : State) → IsBeat b atm_id s (send_heartbeat b atm_id s)
unfolding send_heartbeat
send_heartbeat-IsBeat b atm_id s = elim (Bool-cases (fails b)) [
  | inl raises ↦ rw (send_heartbeat-raised b atm_id s raises) (record {
    atms_lem = λ key. rw raises;
    live_lem = λ key. rw raises;
    rest_lem = (refl, refl, refl);
    count_lem = rw raises;
  })
  | inr works ↦ rw (send_heartbeat-goes b atm_id s works) (record {
    atms_lem = λ key. rw works (find-update_atm b atm_id key s.atms);
    live_lem = λ key. rw works (find-update_status b atm_id key s.db);
    rest_lem = update_status-rest b (get_by_atm_id s.db atm_id) s.db;
    count_lem = rw works;
  })
]

-- If a heartbeat is committed between the reading of a live status, of a version that the server
-- stamped before, and its conditional update, then the update is refused and changes nothing.
pub update_live_status-send_heartbeat :
    (b : Beat) (atm_id : ℕ) (s : State) (current changed : AtmLiveStatus)
    → fails b ≡ false
    → get_by_atm_id s.db atm_id ≡ some current
    → current.row_version < s.db.next_version
    → changed.atm_id ≡ atm_id
    → let after = send_heartbeat b atm_id s in
      update_live_status after.db changed (some current.row_version) ≡ (false, after.db)
update_live_status-send_heartbeat b atm_id s current changed works found old same =
    let after = send_heartbeat b atm_id s in
    let row : get_by_atm_id after.db changed.atm_id ≡ some (stamped b s.db current) =
      ap (get_by_atm_id after.db) same
      ∙ (send_heartbeat-IsBeat b atm_id s).live_lem atm_id
      ∙ rw (works, (==_iff atm_id atm_id).1 refl, found) in
    update_live_status_lem after.db changed (stamped b s.db current) current.row_version row
    ∙ ground arith
