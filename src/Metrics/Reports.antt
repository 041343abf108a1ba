-- ===== src/Metrics/Reports.antt =====
-- `get_connection_diagnostics`, `get_health_metrics`, the maxima of `get_performance_metrics` and
-- `reset` of agent/utils/metrics.py. The uptime is an argument. A duration is compared and never
-- computed with, so a number that orders as durations do stands for it; the averages, which are
-- rounded, are left out.
pub mod Longest
use atm_monitoring_agent.Prelude.{
  ℕ, ◌+◌, Bool, String, Option, none, some, List, [], ◌∷◌, if◌then◌else◌, length,
}
use atm_monitoring_agent.CircuitBreaker.{BreakerState, Note}
use atm_monitoring_agent.Metrics.{
  MetricsTracker, init_metrics, record_scan, record_parse, record_commit, record_db_failure,
  record_parser_failure, record_retry, record_reconnect, record_connection_failure,
  record_successful_connection, set_retry_state, record_heartbeat, record_config_reload,
  record_parser_restart, record_worker_restart, take_notes,
}

pub record Diagnostics : Type 0 where
  pub reconnect_count : ℕ
  pub connection_failures : ℕ
  pub successful_connections : ℕ
  pub current_retry_state : String
  pub circuit_breaker_state : BreakerState
  pub pool_health : String

abbrev pub get_connection_diagnostics : MetricsTracker → Diagnostics
get_connection_diagnostics m = record {
  reconnect_count = m.reconnect_count;
  connection_failures = m.connection_failures;
  successful_connections = m.successful_connections;
  current_retry_state = if m.current_retry_state then "RETRYING" else "NORMAL";
  circuit_breaker_state = m.circuit_breaker_state;
  pool_health = m.pool_health;
}

pub record Health : Type 0 where
  pub agent_uptime : ℕ
  pub last_successful_parse : Option ℕ
  pub last_database_write : Option ℕ
  pub files_processed : ℕ
  pub bytes_read : ℕ
  pub events_persisted : ℕ
  pub database_failures : ℕ
  pub parser_failures : ℕ
  pub retries : ℕ
  pub current_offset : ℕ
  pub heartbeat_count : ℕ
  pub config_reload_count : ℕ
  pub circuit_breaker_trips : ℕ
  pub parser_restarts : ℕ
  pub worker_restarts : ℕ

abbrev pub get_health_metrics : ℕ → MetricsTracker → Health
get_health_metrics uptime m = record {
  agent_uptime = uptime;
  last_successful_parse = m.last_successful_parse;
  last_database_write = m.last_database_write;
  files_processed = m.files_processed;
  bytes_read = m.bytes_read;
  events_persisted = m.events_persisted;
  database_failures = m.database_failures;
  parser_failures = m.parser_failures;
  retries = m.retries;
  current_offset = m.current_offset;
  heartbeat_count = m.heartbeat_count;
  config_reload_count = m.config_reload_count;
  circuit_breaker_trips = m.cb_trips_count;
  parser_restarts = m.parser_restart_count;
  worker_restarts = m.worker_restart_count;
}

-- The maxima of `get_performance_metrics`.
pub record Maxima : Type 0 where
  pub maximum_parse_duration : ℕ
  pub maximum_commit_duration : ℕ

abbrev pub get_maxima : MetricsTracker → Maxima
get_maxima m = record {
  maximum_parse_duration = m.max_parse_duration;
  maximum_commit_duration = m.max_commit_duration;
}

-- A call of a method that changes the tracker.
pub data Update : Type 0 where
  scan : ℕ → ℕ → ℕ → Update
  parse : ℕ → ℕ → Update
  commit : ℕ → ℕ → ℕ → Update
  db_failure parser_failure retry reconnect connection_failure successful_connection : Update
  retry_state : Bool → Update
  notes : List Note → Update
  heartbeat config_reload parser_restart worker_restart reset : Update

unfoldable pub update : Update → MetricsTracker → MetricsTracker
update (scan duration bytes offset) m = record_scan duration bytes offset m
update (parse now duration) m = record_parse now duration m
update (commit now duration events) m = record_commit now duration events m
update db_failure m = record_db_failure m
update parser_failure m = record_parser_failure m
update retry m = record_retry m
update reconnect m = record_reconnect m
update connection_failure m = record_connection_failure m
update successful_connection m = record_successful_connection m
update (retry_state retrying) m = set_retry_state retrying m
update (notes ns) m = take_notes ns m
update heartbeat m = record_heartbeat m
update config_reload m = record_config_reload m
update parser_restart m = record_parser_restart m
update worker_restart m = record_worker_restart m
update reset m = init_metrics

unfoldable pub updates : List Update → MetricsTracker → MetricsTracker
unfolding update
updates [] m = m
updates (c ∷ cs) m = updates cs (update c m)
