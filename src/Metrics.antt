-- ===== src/Metrics.antt =====
-- `class MetricsTracker` of agent/utils/metrics.py, the one instance of it. The lock makes each
-- method one step; a duration is the argument that the caller measured, in microseconds, and the
-- times of the clock are the argument `now`.
pub mod Laws
pub mod Reports
use atm_monitoring_agent.Prelude.{
  ℕ, ◌+◌, ◌*◌, ◌/◌, Bool, true, false, String, Option, none, some, List, [], ◌∷◌, ◌++◌, length, ltb,
  if◌then◌else◌,
}
use atm_monitoring_agent.CircuitBreaker.{
  BreakerState, closed, Note, set_circuit_breaker_state, record_cb_trip,
}

pub record MetricsTracker : Type 0 where
  pub last_successful_parse : Option ℕ
  pub last_database_write : Option ℕ
  pub files_processed : ℕ
  pub bytes_read : ℕ
  pub events_persisted : ℕ
  pub database_failures : ℕ
  pub parser_failures : ℕ
  pub retries : ℕ
  pub current_offset : ℕ
  pub reconnect_count : ℕ
  pub connection_failures : ℕ
  pub successful_connections : ℕ
  pub current_retry_state : Bool
  pub circuit_breaker_state : BreakerState
  pub pool_health : String
  pub heartbeat_count : ℕ
  pub config_reload_count : ℕ
  pub cb_trips_count : ℕ
  pub parser_restart_count : ℕ
  pub worker_restart_count : ℕ
  pub parse_times : List ℕ
  pub commit_times : List ℕ
  pub scan_times : List ℕ
  pub max_parse_duration : ℕ
  pub max_commit_duration : ℕ

-- `_init_metrics`
abbrev pub init_metrics : MetricsTracker
init_metrics = record {
  last_successful_parse = none;
  last_database_write = none;
  files_processed = 0;
  bytes_read = 0;
  events_persisted = 0;
  database_failures = 0;
  parser_failures = 0;
  retries = 0;
  current_offset = 0;
  reconnect_count = 0;
  connection_failures = 0;
  successful_connections = 0;
  current_retry_state = false;
  circuit_breaker_state = closed;
  pool_health = "HEALTHY";
  heartbeat_count = 0;
  config_reload_count = 0;
  cb_trips_count = 0;
  parser_restart_count = 0;
  worker_restart_count = 0;
  parse_times = [];
  commit_times = [];
  scan_times = [];
  max_parse_duration = 0;
  max_commit_duration = 0;
}

abbrev pub record_scan : ℕ → ℕ → ℕ → MetricsTracker → MetricsTracker
record_scan scan_duration bytes offset m = record m {
  files_processed = m.files_processed + 1;
  bytes_read = m.bytes_read + bytes;
  current_offset = offset;
  scan_times = m.scan_times ++ scan_duration ∷ [];
}

abbrev larger : ℕ → ℕ → ℕ
larger duration old = if ltb old duration then duration else old

abbrev pub record_parse : ℕ → ℕ → MetricsTracker → MetricsTracker
record_parse now parse_duration m = record m {
  last_successful_parse = some now;
  parse_times = m.parse_times ++ parse_duration ∷ [];
  max_parse_duration = larger parse_duration m.max_parse_duration;
}

abbrev pub record_commit : ℕ → ℕ → ℕ → MetricsTracker → MetricsTracker
record_commit now commit_duration events_count m = record m {
  last_database_write = some now;
  events_persisted = m.events_persisted + events_count;
  commit_times = m.commit_times ++ commit_duration ∷ [];
  max_commit_duration = larger commit_duration m.max_commit_duration;
}

abbrev pub record_db_failure : MetricsTracker → MetricsTracker
record_db_failure m = record m { database_failures = m.database_failures + 1 }

abbrev pub record_parser_failure : MetricsTracker → MetricsTracker
record_parser_failure m = record m { parser_failures = m.parser_failures + 1 }

abbrev pub record_retry : MetricsTracker → MetricsTracker
record_retry m = record m { retries = m.retries + 1 }

abbrev pub record_reconnect : MetricsTracker → MetricsTracker
record_reconnect m = record m { reconnect_count = m.reconnect_count + 1 }

abbrev pub record_connection_failure : MetricsTracker → MetricsTracker
record_connection_failure m = record m {
  connection_failures = m.connection_failures + 1;
  pool_health = "DEGRADED";
}

abbrev pub record_successful_connection : MetricsTracker → MetricsTracker
record_successful_connection m = record m {
  successful_connections = m.successful_connections + 1;
  pool_health = "HEALTHY";
}

abbrev pub set_retry_state : Bool → MetricsTracker → MetricsTracker
set_retry_state retrying m = record m { current_retry_state = retrying }

abbrev pub record_heartbeat : MetricsTracker → MetricsTracker
record_heartbeat m = record m { heartbeat_count = m.heartbeat_count + 1 }

abbrev pub record_config_reload : MetricsTracker → MetricsTracker
record_config_reload m = record m { config_reload_count = m.config_reload_count + 1 }

abbrev pub record_parser_restart : MetricsTracker → MetricsTracker
record_parser_restart m = record m { parser_restart_count = m.parser_restart_count + 1 }

abbrev pub record_worker_restart : MetricsTracker → MetricsTracker
record_worker_restart m = record m { worker_restart_count = m.worker_restart_count + 1 }

-- The methods that the circuit breaker calls, in order.
abbrev pub take_notes : List Note → MetricsTracker → MetricsTracker
take_notes [] m = m
take_notes (set_circuit_breaker_state s ∷ notes) m =
    take_notes notes (record m { circuit_breaker_state = s })
take_notes (record_cb_trip ∷ notes) m =
    take_notes notes (record m { cb_trips_count = m.cb_trips_count + 1 })
