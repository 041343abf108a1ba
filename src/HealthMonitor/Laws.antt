-- ===== src/HealthMonitor/Laws.antt =====
-- agent/services/health_monitor_service.py: how often workers are restarted, and that they are.
use atm_monitoring_agent.Prelude.{
  ℕ, ◌+◌, ◌≤◌, ◌<◌, ◌≡◌, Bool, true, false, ◌&&◌, List, [], ◌∷◌, arith, refl, inl, inr, Bool-cases,
}
use atm_monitoring_agent.HealthMonitor.{
  HealthMonitor, Worker, polling, observing, beating, Services, is_dead, check_polling,
  check_observer, check_heartbeat, check_services,
}

-- The passes, each with the services as they are found then, and whether an observer can start; what
-- was started before is kept.
pub passes : List (Bool × Services) → HealthMonitor → List Worker → HealthMonitor × List Worker
passes [] h started = (h, started)
passes ((starts, s) ∷ rest) h started =
    let (h₁, s₁) = check_services starts h (record s { started = started }) in
    passes rest h₁ s₁.started

-- How many workers of the file monitor were started, and how often the heartbeat was.
unfoldable pub monitor_starts : List Worker → ℕ
monitor_starts [] = 0
monitor_starts (polling ∷ ws) = monitor_starts ws + 1
monitor_starts (observing ∷ ws) = monitor_starts ws + 1
monitor_starts (beating ∷ ws) = monitor_starts ws

unfoldable pub heartbeat_starts : List Worker → ℕ
heartbeat_starts [] = 0
heartbeat_starts (polling ∷ ws) = heartbeat_starts ws
heartbeat_starts (observing ∷ ws) = heartbeat_starts ws
heartbeat_starts (beating ∷ ws) = heartbeat_starts ws + 1

-- The workers that were started within their limits, and counted once each.
pub record IsBounded (limit : ℕ) (h : HealthMonitor) (started : List Worker) : Type 0 where
  pub limit_lem : h.max_restarts ≡ limit
  pub monitor_lem : monitor_starts started ≤ limit
  pub heartbeat_lem : heartbeat_starts started ≤ limit
  pub monitor_count_lem : h.monitor_restarts ≡ monitor_starts started
  pub heartbeat_count_lem : h.heartbeat_restarts ≡ heartbeat_starts started
  pub count_lem : h.worker_restarts ≡ monitor_starts started + heartbeat_starts started

module _ (limit : ℕ) (h : HealthMonitor) (s : Services) (b : IsBounded limit h s.started) where
  polling-IsBounded : IsBounded limit (check_polling h s).0 (check_polling h s).1.started
  unfolding check_polling monitor_starts heartbeat_starts
  polling-IsBounded = ground arith

  observer-IsBounded :
      (starts : Bool)
      → IsBounded limit (check_observer starts h s).0 (check_observer starts h s).1.started
  unfolding check_observer monitor_starts heartbeat_starts
  observer-IsBounded starts = ground arith

  heartbeat-IsBounded : IsBounded limit (check_heartbeat h s).0 (check_heartbeat h s).1.started
  unfolding check_heartbeat monitor_starts heartbeat_starts
  heartbeat-IsBounded = ground arith

check_services-IsBounded :
    (limit : ℕ) (starts : Bool) (h : HealthMonitor) (s : Services)
    → IsBounded limit h s.started
    → IsBounded limit (check_services starts h s).0 (check_services starts h s).1.started
unfolding check_services
check_services-IsBounded limit starts h s b =
    let polled = check_polling h s in
    let seen = check_observer starts polled.0 polled.1 in
    let watched =
      observer-IsBounded limit polled.0 polled.1 (polling-IsBounded limit h s b) starts in
    elim (Bool-cases seen.2) [
      | inl goes ↦ rw goes (heartbeat-IsBounded limit seen.0 seen.1 watched)
      | inr stops ↦ rw stops watched
    ]

passes-keeps :
    (limit : ℕ) (ps : List (Bool × Services)) (h : HealthMonitor) (started : List Worker)
    → IsBounded limit h started
    → IsBounded limit (passes ps h started).0 (passes ps h started).1
unfolding passes
passes-keeps limit [] h started b = b
passes-keeps limit ((starts, s) ∷ ps) h started b =
    let found = record s { started = started } in
    let after = check_services starts h found in
    passes-keeps limit ps after.0 after.1.started (check_services-IsBounded limit starts h found b)

abbrev pub new_monitor : ℕ → HealthMonitor
new_monitor limit = record {
  max_restarts = limit;
  monitor_restarts = 0;
  heartbeat_restarts = 0;
  worker_restarts = 0;
}

-- A monitor with its counters at 0 that makes any number of passes, whatever dies between them,
-- starts workers of the file monitor anew at most `max_restarts` times, and the heartbeat at most
-- `max_restarts` times, and its counters and that of the metrics count exactly these starts.
pub passes-IsBounded :
    (limit : ℕ) (ps : List (Bool × Services))
    → let (h, started) = passes ps (new_monitor limit) [] in IsBounded limit h started
unfolding monitor_starts heartbeat_starts
passes-IsBounded limit ps = passes-keeps limit ps (new_monitor limit) [] (record {
  limit_lem = refl;
  monitor_lem = omega arith;
  heartbeat_lem = omega arith;
  monitor_count_lem = refl;
  heartbeat_count_lem = refl;
  count_lem = refl;
})

-- no thread of a running service is dead
pub record IsRecovered (s : Services) : Type 0 where
  pub polling_lem : (s.monitor_running && is_dead s.polling_thread) ≡ false
  pub observer_lem : (s.monitor_running && is_dead s.observer) ≡ false
  pub heartbeat_lem : (s.heartbeat_running && is_dead s.heartbeat_thread) ≡ false

-- While two restarts of the file monitor's workers and one of the heartbeat are left, and a new
-- observer can be started, a pass leaves no dead thread in a running service.
pub check_services-IsRecovered :
    (h : HealthMonitor) (s : Services)
    → h.monitor_restarts + 1 < h.max_restarts
    → h.heartbeat_restarts < h.max_restarts
    → IsRecovered (check_services true h s).1
unfolding check_services check_polling check_observer check_heartbeat
check_services-IsRecovered h s m b = ground arith
