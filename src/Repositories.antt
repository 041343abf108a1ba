-- ===== src/Repositories.antt =====
-- agent/repositories: the queries and writes of the event processor, over `Db`. A query sees the
-- rows of its own transaction and the committed ones; a write appends or replaces a row.
pub mod Laws
use atm_monitoring_agent.Prelude.{
  ℕ, ◌+◌, Bool, true, false, ◌&&◌, Option, none, some, List, [], ◌∷◌, ◌++◌, ◌==◌, if◌then◌else◌,
  any,
}
use atm_monitoring_agent.Database.{
  AtmEvent, CassetteBalanceHistory, AtmLiveStatus, AgentHealthLog, Db,
}

-- `Column == value` of a query: NULL equals nothing.
abbrev pub column_is : Option ℕ → ℕ → Bool
column_is none n = false
column_is (some m) n = m == n

abbrev pub has_sequence : ℕ → ℕ → AtmEvent → Bool
has_sequence atm_id n e = e.atm_id == atm_id && column_is e.event_sequence_number n

-- `EventRepository.duplicate_check`
unfoldable pub duplicate_check : Db → ℕ → Option ℕ → Bool
duplicate_check db atm_id none = false
duplicate_check db atm_id (some n) = any (has_sequence atm_id n) db.events

-- `EventRepository.insert_event`; the caller has put the identity `next_id` into the row
unfoldable pub insert_event : Db → AtmEvent → Db
insert_event db e = record db { events = db.events ++ e ∷ []; next_id = db.next_id + 1 }

abbrev pub has_snapshot : ℕ → ℕ → ℕ → CassetteBalanceHistory → Bool
has_snapshot atm_id n cassette_no h =
    h.atm_id == atm_id && (column_is h.event_sequence_number n && h.cassette_no == cassette_no)

-- `CassetteRepository.duplicate_snapshot_check`
unfoldable pub duplicate_snapshot_check : Db → ℕ → Option ℕ → ℕ → Bool
duplicate_snapshot_check db atm_id none cassette_no = false
duplicate_snapshot_check db atm_id (some n) cassette_no =
    any (has_snapshot atm_id n cassette_no) db.history

-- `CassetteRepository.insert_history`
unfoldable pub insert_history : Db → CassetteBalanceHistory → Db
insert_history db h = record db { history = db.history ++ h ∷ [] }

-- `HealthRepository.insert_log`
unfoldable pub insert_log : Db → AgentHealthLog → Db
insert_log db l = record db { health = db.health ++ l ∷ [] }

unfoldable pub find_live : ℕ → List AtmLiveStatus → Option AtmLiveStatus
find_live atm_id [] = none
find_live atm_id (s ∷ rest) = if s.atm_id == atm_id then some s else find_live atm_id rest

-- `LiveStatusRepository.get_by_atm_id`
unfoldable pub get_by_atm_id : Db → ℕ → Option AtmLiveStatus
unfolding find_live
get_by_atm_id db atm_id = find_live atm_id db.live

pub put_live : AtmLiveStatus → List AtmLiveStatus → List AtmLiveStatus
put_live s [] = s ∷ []
put_live s (t ∷ rest) = if t.atm_id == s.atm_id then s ∷ rest else t ∷ put_live s rest

-- `LiveStatusRepository.save`: inserts the row or updates it, and the server stamps a new version.
unfoldable pub save : Db → AtmLiveStatus → Db
unfolding put_live
save db s = record db {
  live = put_live (record s { row_version = db.next_version }) db.live;
  next_version = db.next_version + 1;
}

-- the `WHERE` of the conditional update
abbrev version_is : Option AtmLiveStatus → ℕ → Bool
version_is none v = false
version_is (some current) v = current.row_version == v

-- `LiveStatusRepository.update_live_status`
unfoldable pub update_live_status : Db → AtmLiveStatus → Option ℕ → Bool × Db
unfolding save get_by_atm_id
update_live_status db s none = (true, save db s)
update_live_status db s (some v) =
    if version_is (get_by_atm_id db s.atm_id) v then (true, save db s) else (false, db)
