-- ===== src/HealthMonitor.antt =====
-- `HealthMonitorService._check_services` of agent/services/health_monitor_service.py. A thread is
-- `some true` while it is alive, `some false` when it has died, `none` when there is none. Logging is
-- left out; `worker_restarts` is what `record_worker_restart` of the metrics counts.
pub mod Laws
use atm_monitoring_agent.Prelude.{
  ℕ, ◌+◌, Bool, true, false, ◌&&◌, Option, none, some, List, ◌∷◌, ltb, if◌then◌else◌,
}

-- A worker that is started anew.
pub data Worker : Type 0 where
  polling observing beating : Worker

-- The services that are watched; one that does not exist does not run. `started` are the workers that
-- were started anew, the last one first; an observer that cannot be started is among them.
pub record Services : Type 0 where
  pub monitor_running : Bool
  pub polling_thread : Option Bool
  pub observer : Option Bool
  pub heartbeat_running : Bool
  pub heartbeat_thread : Option Bool
  pub started : List Worker

pub record HealthMonitor : Type 0 where
  pub max_restarts : ℕ
  pub monitor_restarts : ℕ
  pub heartbeat_restarts : ℕ
  pub worker_restarts : ℕ

abbrev pub is_dead : Option Bool → Bool
is_dead none = false
is_dead (some alive) = if alive then false else true

abbrev count_monitor : HealthMonitor → HealthMonitor
count_monitor h = record h {
  monitor_restarts = h.monitor_restarts + 1;
  worker_restarts = h.worker_restarts + 1;
}

abbrev count_heartbeat : HealthMonitor → HealthMonitor
count_heartbeat h = record h {
  heartbeat_restarts = h.heartbeat_restarts + 1;
  worker_restarts = h.worker_restarts + 1;
}

-- the polling thread
unfoldable pub check_polling : HealthMonitor → Services → HealthMonitor × Services
check_polling h s =
    if s.monitor_running && is_dead s.polling_thread && ltb h.monitor_restarts h.max_restarts
    then (count_monitor h, record s { polling_thread = some true; started = polling ∷ s.started })
    else (h, s)

-- The observer; `starts` is whether the new one can be started. If it cannot, the exception ends the
-- pass, and the flag is false.
unfoldable pub check_observer : Bool → HealthMonitor → Services → HealthMonitor × Services × Bool
check_observer starts h s =
    if s.monitor_running && is_dead s.observer && ltb h.monitor_restarts h.max_restarts
    then (
      count_monitor h,
      record s { observer = some starts; started = observing ∷ s.started },
      starts,
    )
    else (h, s, true)

-- the heartbeat thread
unfoldable pub check_heartbeat : HealthMonitor → Services → HealthMonitor × Services
check_heartbeat h s =
    if s.heartbeat_running && is_dead s.heartbeat_thread && ltb h.heartbeat_restarts h.max_restarts
    then (
      count_heartbeat h,
      record s { heartbeat_thread = some true; started = beating ∷ s.started },
    )
    else (h, s)

-- One pass.
unfoldable pub check_services : Bool → HealthMonitor → Services → HealthMonitor × Services
check_services starts h s =
    let (h₁, s₁) = check_polling h s in
    let (h₂, s₂, goes_on) = check_observer starts h₁ s₁ in
    if goes_on then check_heartbeat h₂ s₂ else (h₂, s₂)
