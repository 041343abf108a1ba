-- ===== src/Examples/Servicing.antt =====
-- The theorems on the settings, the watchdog, the cleanup and the pings, on small inputs.
use atm_monitoring_agent.Prelude.{
  ℕ, ◌+◌, ◌≡◌, refl, String, true, false, none, some, List, [], ◌∷◌, arith,
}
use atm_monitoring_agent.TextOps.{text}
use atm_monitoring_agent.Settings.{
  AgentSettings, default_settings, negsuc, SettingsCache, init_cache, row,
}
use atm_monitoring_agent.Settings.Laws.{Request, IsServed, load, load_all, load-IsServed}
use atm_monitoring_agent.HealthMonitor.{HealthMonitor, Services, check_services}
use atm_monitoring_agent.HealthMonitor.Laws.{
  passes, IsBounded, IsRecovered, passes-IsBounded, check_services-IsRecovered,
}
use atm_monitoring_agent.Cleanup.{LogFile, sum_sizes, enforce_disk_cap}
use atm_monitoring_agent.Cleanup.Laws.{IsPurged, enforce_disk_cap-IsPurged}
use atm_monitoring_agent.TextOps.{is_digit, upper, int}
use atm_monitoring_agent.TextOps.Pattern.{lit, run, run1, search_for}
use atm_monitoring_agent.Ping.{Device, Reply, run_ping_cmd}
use atm_monitoring_agent.Ping.Laws.{pings, outage, Shows, pings-Shows}

abbrev bad_settings : AgentSettings
bad_settings = record default_settings { polling_interval_seconds = some (negsuc 0) }

abbrev request : AgentSettings → ℕ → Request
request s now = record { force = true; now = now; query = row s }

load-IsServed_example :
    IsServed
      (load (request bad_settings 20) (load_all (request default_settings 10 ∷ []) init_cache)).0
load-IsServed_example = load-IsServed (request default_settings 10 ∷ []) (request bad_settings 20)

abbrev loaded : SettingsCache
loaded = record {
  cached_settings = some default_settings;
  last_loaded = some 10;
  config_reloads = 1;
}

abbrev crashed : Services
crashed = record {
  monitor_running = true;
  polling_thread = some false;
  observer = some false;
  heartbeat_running = true;
  heartbeat_thread = some false;
  started = [];
}

abbrev watchdog : HealthMonitor
watchdog = record {
  max_restarts = 5;
  monitor_restarts = 0;
  heartbeat_restarts = 0;
  worker_restarts = 0;
}

passes-IsBounded_example :
    let after = passes ((true, crashed) ∷ (false, crashed) ∷ []) watchdog [] in
    IsBounded 5 after.0 after.1
passes-IsBounded_example = passes-IsBounded 5 ((true, crashed) ∷ (false, crashed) ∷ [])

check_services-IsRecovered_example : IsRecovered (check_services true watchdog crashed).1
check_services-IsRecovered_example =
    check_services-IsRecovered watchdog crashed (omega arith) (omega arith)

abbrev files : List LogFile
files =
    record { filepath = text "agent.log.1"; bytes = 60; mtime = 9 }
    ∷ record { filepath = text "agent.log.2"; bytes = 50; mtime = 4 }
    ∷ []

enforce_disk_cap-IsPurged_example :
    IsPurged 100 (sum_sizes files + 20) (enforce_disk_cap (λ f. true) 100 20 files)
enforce_disk_cap-IsPurged_example = enforce_disk_cap-IsPurged (λ f. true) 100 20 files

abbrev device : Device
device = record {
  is_online = 1;
  last_ping_time = none;
  last_latency = none;
  last_packet_loss = none;
  consecutive_failures = 0;
  down_since = none;
  updated_at = none;
}

abbrev reply : String → Reply
reply output = record {
  output = some (text output);
  opens = λ port. false;
  now_str = text "01/01/2026, 10:00:00 AM";
}

abbrev answering : Reply
answering = reply "Reply from 10.0.0.9: time<3ms; Lost = 1 (25% loss), Average = 2ms"

abbrev silent : Reply
silent = reply "Request timed out. Lost = 4 (100% loss)"

answering-run_ping_cmd : run_ping_cmd answering.output ≡ (true, some 2, 25)
unfolding run_ping_cmd lit run run1 search_for upper is_digit int
answering-run_ping_cmd = refl

pings-Shows_example :
    Shows
      (outage (answering ∷ silent ∷ silent ∷ []))
      (pings (answering ∷ silent ∷ silent ∷ []) device)
pings-Shows_example = pings-Shows (answering ∷ silent ∷ silent ∷ []) device refl refl refl
