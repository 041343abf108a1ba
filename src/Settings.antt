-- ===== src/Settings.antt =====
-- `AgentSettingsCache` of agent/settings.py, with the columns of `AgentSettings` that it validates or
-- that the monitored services read. The lock makes a load one step. `now` is in seconds.
pub mod Laws
use atm_monitoring_agent.Prelude.{
  ℕ, ◌+◌, ◌-◌, Bool, true, false, not, ◌&&◌, ◌||◌, Option, none, some, ltb, if◌then◌else◌,
}

-- The integers of the columns.
pub data ℤ : Type 0 where
  pos : ℕ → ℤ
  negsuc : ℕ → ℤ

pub record AgentSettings : Type 0 where
  pub polling_interval_seconds : Option ℤ
  pub heartbeat_interval_seconds : Option ℤ
  pub log_scan_interval_seconds : Option ℤ
  pub offline_threshold_minutes : Option ℤ
  pub low_cash_threshold_amount : Option ℤ
  pub retention_days : ℕ
  pub max_log_file_size_mb : ℕ
  pub enable_log_parser : Bool

-- the fallback for an empty table
abbrev pub default_settings : AgentSettings
default_settings = record {
  polling_interval_seconds = some (pos 5);
  heartbeat_interval_seconds = some (pos 30);
  log_scan_interval_seconds = some (pos 2);
  offline_threshold_minutes = some (pos 60);
  low_cash_threshold_amount = some (pos 500000);
  retention_days = 90;
  max_log_file_size_mb = 100;
  enable_log_parser = true;
}

-- `x is not None and x <= 0`
abbrev not_positive : Option ℤ → Bool
not_positive none = false
not_positive (some (pos n)) = not (ltb 0 n)
not_positive (some (negsuc n)) = true

-- `x is not None and x < 0`
abbrev is_negative : Option ℤ → Bool
is_negative none = false
is_negative (some (pos n)) = false
is_negative (some (negsuc n)) = true

-- Whether the validation finds an error.
abbrev pub has_errors : AgentSettings → Bool
has_errors s =
    not_positive s.polling_interval_seconds
    || not_positive s.log_scan_interval_seconds
    || not_positive s.offline_threshold_minutes
    || not_positive s.heartbeat_interval_seconds
    || is_negative s.low_cash_threshold_amount

pub record SettingsCache : Type 0 where
  pub cached_settings : Option AgentSettings
  pub last_loaded : Option ℕ
  -- `record_config_reload` of the metrics
  pub config_reloads : ℕ

abbrev pub init_cache : SettingsCache
init_cache = record { cached_settings = none; last_loaded = none; config_reloads = 0 }

-- How the query for the first row is answered.
pub data Query : Type 0 where
  query_fails : Query
  no_row : Query
  row : AgentSettings → Query

-- The settings, if any, or the exception of the query.
pub data Loaded : Type 0 where
  served : Option AgentSettings → Loaded
  load_raises : Loaded

abbrev recent : ℕ → Option ℕ → Bool
recent now none = false
recent now (some t) = ltb (now - t) 300

abbrev when_cached : Option AgentSettings → Bool → Bool
when_cached none b = false
when_cached (some _) b = b

abbrev pub is_fresh : ℕ → SettingsCache → Bool
is_fresh now c = when_cached c.cached_settings (recent now c.last_loaded)

-- Validation, and what the cache keeps. `session.expunge` raises on an object that the session did not
-- load, as SQLAlchemy documents.
unfoldable pub accept : ℕ → (loaded : Bool) → AgentSettings → SettingsCache → Loaded × SettingsCache
accept now loaded s c =
    if has_errors s
    then elim c.cached_settings [
      | some old ↦ (served (some old), c)
      | none ↦ (served none, record c { last_loaded = some now })
    ]
    else if loaded
    then (
      served (some s),
      record {
        cached_settings = some s;
        last_loaded = some now;
        config_reloads = c.config_reloads + 1;
      },
    )
    else (load_raises, c)

abbrev pub answer : ℕ → Query → SettingsCache → Loaded × SettingsCache
answer now query_fails c = (load_raises, c)
answer now no_row c = accept now false default_settings c
answer now (row s) c = accept now true s c

unfoldable pub load_settings : Bool → ℕ → Query → SettingsCache → Loaded × SettingsCache
load_settings force now q c =
    if not force && is_fresh now c then (served c.cached_settings, c) else answer now q c
