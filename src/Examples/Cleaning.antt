-- ===== src/Examples/Cleaning.antt =====
-- A cleanup of two small directories.
use atm_monitoring_agent.Prelude.{String, ℕ, ◌≡◌, ◌≢◌, refl, true, some, [], ◌∷◌, arith}
use atm_monitoring_agent.ParserModels.{Text}
use atm_monitoring_agent.TextOps.{text, text_eq, begins, ends_with}
use atm_monitoring_agent.TextOps.Pattern.{exactly}
use atm_monitoring_agent.Recorder.Element.{replace_on}
use atm_monitoring_agent.Settings.{AgentSettings, default_settings}
use atm_monitoring_agent.Cleanup.{enforce_disk_cap, purge, by_age, insert_by_age, sum_sizes}
use atm_monitoring_agent.Cleanup.Pass.{
  Entry, Disk, Host, zips, delete_expired, rows_from, remove_entry, archive_old_crashes, targets_in,
  active_bytes, left_in, execute_cleanup,
}
use atm_monitoring_agent.Cleanup.Pass.Sparing.{spared, execute_cleanup-spared}

abbrev host : Host
host = record {
  now = 1000000;
  commits = true;
  zip = λ name. zips 10 true;
  log_path = λ name. 108 ∷ 47 ∷ name;
  crash_path = λ name. 99 ∷ 47 ∷ name;
  removable = λ f. true;
}

-- Settings under which no file fits.
abbrev no_room : AgentSettings
no_room = record default_settings { max_log_file_size_mb = 0 }

abbrev file : String → ℕ → Entry
file name mtime = record { filename = text name; bytes = 60; mtime = mtime }

abbrev disk : Disk
disk = record {
  health = [];
  logs = file "agent.log" 999000 ∷ file "agent.log.1" 5000 ∷ file "notes.txt" 10 ∷ [];
  crashes = file "crash.log" 9000 ∷ file "fresh.log" 999000 ∷ [];
}

-- The old dump becomes an archive,
disk-archive_old_crashes :
    archive_old_crashes 1000000 host.zip disk.crashes disk.crashes
    ≡ file "fresh.log" 999000
      ∷ record { filename = text "crash.zip"; bytes = 10; mtime = 1000000 }
      ∷ []
unfolding archive_old_crashes remove_entry ends_with begins text_eq exactly replace_on
disk-archive_old_crashes = refl

-- and without room only what is no old log is left.
disk-execute_cleanup : execute_cleanup host (some no_room) disk ≡ record {
  health = [];
  logs = file "agent.log" 999000 ∷ file "notes.txt" 10 ∷ [];
  crashes = [];
}
unfolding execute_cleanup archive_old_crashes remove_entry ends_with begins text_eq exactly
    replace_on delete_expired rows_from targets_in active_bytes left_in enforce_disk_cap purge
    by_age insert_by_age sum_sizes
disk-execute_cleanup = refl

host-distinct : (a b : Text) → host.log_path a ≡ host.log_path b → a ≡ b
host-distinct a b h = cc

host-apart : (a b : Text) → host.log_path a ≢ host.crash_path b
host-apart a b h = ground arith

execute_cleanup-spared_example :
    spared (execute_cleanup host (some no_room) disk).logs ≡ spared disk.logs
execute_cleanup-spared_example =
    execute_cleanup-spared host (some no_room) disk host-distinct host-apart
