-- ===== src/Heartbeat.antt =====
-- `HeartbeatService._send_heartbeat` of agent/services/heartbeat_service.py: one transaction on the
-- row of the ATM and on its live status. Its timer, its thread and the diagnostics are left out.
pub mod Transaction
use atm_monitoring_agent.Prelude.{
  ℕ, Bool, true, false, String, Option, none, some, List, [], ◌∷◌, ◌==◌, if◌then◌else◌,
}
use atm_monitoring_agent.ParserModels.{DateTime}
use atm_monitoring_agent.Database.{AtmLiveStatus, Db}
use atm_monitoring_agent.Repositories.{get_by_atm_id, save}
use atm_monitoring_agent.Metrics.{MetricsTracker, record_heartbeat}

-- The columns of `ATMs` that a heartbeat writes, with the key.
pub record Atm : Type 0 where
  pub id : ℕ
  pub last_heartbeat : Option DateTime
  pub agent_version : Option String
  pub host_name : Option String
  pub agent_name : Option String

-- The places where a heartbeat can raise, in the order of the code: opening the session, `begin`,
-- the query of the ATM, the version information, the query of the live status, the two UPDATEs that
-- the commit sends, and the commit itself.
pub data Place : Type 0 where
  at_session at_begin at_atm at_version at_status at_update_atm at_update_status at_commit : Place

-- What the clock, the configuration and the host give, and which places raise.
pub record Beat : Type 0 where
  pub atm_now : DateTime
  pub live_now : DateTime
  pub version : String
  pub hostname : String
  pub agent : String
  pub raises : Place → Bool

pub record State : Type 0 where
  pub atms : List Atm
  pub db : Db
  pub metrics : MetricsTracker

abbrev pub beat_atm : Beat → Atm → Atm
beat_atm b a = record a {
  last_heartbeat = some b.atm_now;
  agent_version = some b.version;
  host_name = some b.hostname;
  agent_name = some b.agent;
}

unfoldable pub find_atm : ℕ → List Atm → Option Atm
find_atm atm_id [] = none
find_atm atm_id (a ∷ atms) = if a.id == atm_id then some a else find_atm atm_id atms

-- The first row with the key, if there is one.
unfoldable pub update_atm : Beat → ℕ → List Atm → List Atm
update_atm b atm_id [] = []
update_atm b atm_id (a ∷ atms) =
    if a.id == atm_id then beat_atm b a ∷ atms else a ∷ update_atm b atm_id atms

abbrev pub beat_live : Beat → AtmLiveStatus → AtmLiveStatus
beat_live b s = record s { last_agent_heartbeat = some b.live_now }

-- The server stamps the row with a new version, as it does on every update.
abbrev pub update_status : Beat → Option AtmLiveStatus → Db → Db
update_status b none db = db
update_status b (some s) db = save db (beat_live b s)

-- A session: the rows that it sees, which hold its changes, and those that are committed. A change of
-- the session is seen by others when it is committed.
pub record Session : Type 0 where
  pub atms : List Atm
  pub db : Db
  pub committed_atms : List Atm
  pub committed_db : Db
  pub heartbeats : MetricsTracker

-- A statement goes on with a session, or raises and leaves one.
pub data Step : Type 0 where
  goes raised : Session → Step

infixl 5 ◌>>=◌
abbrev pub ◌>>=◌ : Step → (Session → Step) → Step
goes t >>= f = f t
raised t >>= f = raised t

-- A statement that may raise before it does anything.
abbrev pub statement : Beat → Place → (Session → Session) → Session → Step
statement b place f t = if b.raises place then raised t else goes (f t)

abbrev pub unchanged_session : Session → Session
unchanged_session t = t

abbrev pub new_session : State → Session
new_session s = record {
  atms = s.atms;
  db = s.db;
  committed_atms = s.atms;
  committed_db = s.db;
  heartbeats = s.metrics;
}

abbrev pub flush_atm : Beat → ℕ → Session → Session
flush_atm b atm_id t = record t { atms = update_atm b atm_id t.atms }

abbrev pub flush_status : Beat → ℕ → Session → Session
flush_status b atm_id t = record t { db = update_status b (get_by_atm_id t.db atm_id) t.db }

abbrev pub commit : Session → Session
commit t = record t { committed_atms = t.atms; committed_db = t.db }

abbrev pub rollback : Session → Session
rollback t = record t { atms = t.committed_atms; db = t.committed_db }

abbrev pub count : Session → Session
count t = record t { heartbeats = record_heartbeat t.heartbeats }

-- The statements inside `try`, each with what follows it. The changes of the two rows are sent by the
-- commit, the ATM's first; the heartbeat is counted behind it.
abbrev pub then_count : Session → Step
then_count t = goes (count t)

abbrev pub from_commit : Beat → Session → Step
from_commit b t = statement b at_commit commit t >>= then_count

abbrev pub from_update_status : Beat → ℕ → Session → Step
from_update_status b atm_id t =
    statement b at_update_status (flush_status b atm_id) t >>= from_commit b

abbrev pub from_update_atm : Beat → ℕ → Session → Step
from_update_atm b atm_id t =
    statement b at_update_atm (flush_atm b atm_id) t >>= from_update_status b atm_id

abbrev pub from_status : Beat → ℕ → Session → Step
from_status b atm_id t = statement b at_status unchanged_session t >>= from_update_atm b atm_id

abbrev pub from_version : Beat → ℕ → Session → Step
from_version b atm_id t = statement b at_version unchanged_session t >>= from_status b atm_id

abbrev pub from_atm : Beat → ℕ → Session → Step
from_atm b atm_id t = statement b at_atm unchanged_session t >>= from_version b atm_id

unfoldable pub body : Beat → ℕ → Session → Step
unfolding update_atm
body b atm_id t = statement b at_begin unchanged_session t >>= from_atm b atm_id

-- Whatever raises is rolled back and logged; closing the session drops what is not committed.
abbrev pub closed : Step → State
closed (goes t) = record { atms = t.committed_atms; db = t.committed_db; metrics = t.heartbeats }
closed (raised t) =
    let back = rollback t in record { atms = back.atms; db = back.db; metrics = back.heartbeats }

-- The opening of the session is outside `try`: if it raises, there is nothing to roll back.
unfoldable pub send_heartbeat : Beat → ℕ → State → State
unfolding body
send_heartbeat b atm_id s =
    if b.raises at_session then s else closed (body b atm_id (new_session s))
