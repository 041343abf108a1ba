-- ===== src/Cleanup/Pass.antt =====
-- `CleanupService.execute_cleanup` of agent/services/cleanup_service.py: the expired rows of the health
-- log, the archive of crash dumps in `_archive_old_crashes`, and the scans of `_enforce_disk_cap`. Times
-- are in seconds. The names of a directory are distinct, and the path of the crash directory has no
-- `.log` in it, so that the archive of a dump is in the same directory.
pub mod Sparing
use atm_monitoring_agent.Prelude.{
  ℕ, ◌+◌, ◌-◌, ◌*◌, ◌/◌, Bool, true, false, not, ◌&&◌, ◌||◌, Option, none, some, List, [], ◌∷◌,
  ◌++◌, leb, ltb, if◌then◌else◌, any, length,
}
use atm_monitoring_agent.ParserModels.{Text}
use atm_monitoring_agent.TextOps.{text, text_eq, begins, ends_with}
use atm_monitoring_agent.TextOps.Pattern.{exactly}
use atm_monitoring_agent.Recorder.Element.{replace_on}
use atm_monitoring_agent.Database.{AgentHealthLog}
use atm_monitoring_agent.Settings.{AgentSettings}
use atm_monitoring_agent.Cleanup.{LogFile, Purge, enforce_disk_cap}

-- A file of a directory.
pub record Entry : Type 0 where
  pub filename : Text
  pub bytes : ℕ
  pub mtime : ℕ

abbrev retention_of : Option AgentSettings → ℕ
retention_of none = 90
retention_of (some s) = s.retention_days

abbrev max_bytes_of : Option AgentSettings → ℕ
max_bytes_of none = 100 * 1024 * 1024
max_bytes_of (some s) = s.max_log_file_size_mb * 1024 * 1024

unfoldable pub rows_from : ℕ → List AgentHealthLog → List AgentHealthLog
rows_from cutoff [] = []
rows_from cutoff (r ∷ rows) =
    let rest = rows_from cutoff rows in if ltb r.log_time cutoff then rest else r ∷ rest

-- The rows that the deletion leaves; if the session raises, it leaves all.
unfoldable pub delete_expired : Bool → ℕ → List AgentHealthLog → List AgentHealthLog
unfolding rows_from
delete_expired commits cutoff rows = if commits then rows_from cutoff rows else rows

-- What the archiving of a file does: it writes an archive of a size, and then the file can be removed or
-- not; or it raises, with what was written before.
pub data Zipping : Type 0 where
  zips : ℕ → Bool → Zipping
  breaks : Option ℕ → Zipping

unfoldable pub remove_entry : Text → List Entry → List Entry
remove_entry name [] = []
remove_entry name (e ∷ entries) =
    let rest = remove_entry name entries in if text_eq e.filename name then rest else e ∷ rest

-- A file is written anew, whether it is there or not.
abbrev write_entry : Entry → List Entry → List Entry
write_entry e entries = remove_entry e.filename entries ++ e ∷ []

abbrev is_log : Text → Bool
is_log = ends_with (text ".log")

abbrev zip_name : Text → Text
zip_name name = replace_on (exactly (text ".log")) (text ".zip") (length name) name

-- `(now - mtime).days >= 7`
abbrev is_expired_dump : ℕ → Entry → Bool
is_expired_dump now e = is_log e.filename && leb 7 ((now - e.mtime) / 86400)

abbrev zip_of : ℕ → Entry → ℕ → Entry
zip_of now e size = record { filename = zip_name e.filename; bytes = size; mtime = now }

-- The directory after one dump, and whether the loop goes on.
abbrev archive : ℕ → Entry → Zipping → List Entry → Bool × List Entry
archive now e (zips size removable) entries =
    let written = write_entry (zip_of now e size) entries in
    if removable then (true, remove_entry e.filename written) else (false, written)
archive now e (breaks none) entries = (false, entries)
archive now e (breaks (some size)) entries = (false, write_entry (zip_of now e size) entries)

-- The loop over the listing of the crash directory.
unfoldable pub archive_old_crashes : ℕ → (Text → Zipping) → List Entry → List Entry → List Entry
unfolding remove_entry exactly
archive_old_crashes now zip [] entries = entries
archive_old_crashes now zip (e ∷ listing) entries =
    let (goes_on, archived) = archive now e (zip e.filename) entries in
    let skipped = archive_old_crashes now zip listing entries in
    let next = archive_old_crashes now zip listing archived in
    if is_expired_dump now e then if goes_on then next else archived else skipped

abbrev same : ℕ → ℕ
same c = c

-- The files of the two directories that may be purged.
abbrev pub is_old_log : Text → Bool
is_old_log name =
    begins same (text "agent.log.") name
    || (is_log name
        && (not (text_eq name (text "agent.log")) && not (text_eq name (text "test_ej.log"))))

abbrev pub is_crash_file : Text → Bool
is_crash_file name = is_log name || ends_with (text ".zip") name

abbrev pub target : (Text → Text) → Entry → LogFile
target path e = record { filepath = path e.filename; bytes = e.bytes; mtime = e.mtime }

unfoldable pub targets_in : (Text → Text) → (Text → Bool) → List Entry → List LogFile
targets_in path p [] = []
targets_in path p (e ∷ entries) =
    let rest = targets_in path p entries in if p e.filename then target path e ∷ rest else rest

-- `os.path.getsize(active_log)`, 0 if there is none
unfoldable pub active_bytes : List Entry → ℕ
active_bytes [] = 0
active_bytes (e ∷ entries) =
    let rest = active_bytes entries in
    if text_eq e.filename (text "agent.log") then e.bytes else rest

abbrev pub is_removed : (Text → Text) → List LogFile → Entry → Bool
is_removed path removed e = any (λ (f : LogFile). text_eq (path e.filename) f.filepath) removed

unfoldable pub left_in : (Text → Text) → List LogFile → List Entry → List Entry
left_in path removed [] = []
left_in path removed (e ∷ entries) =
    let rest = left_in path removed entries in if is_removed path removed e then rest else e ∷ rest

-- The rows and the two directories; `crashes` is empty if the directory does not exist.
pub record Disk : Type 0 where
  pub health : List AgentHealthLog
  pub logs : List Entry
  pub crashes : List Entry

-- What the server and the file system do: the time, whether the deletion commits, how a dump is
-- archived, the paths of the files of the two directories, and which file can be removed.
pub record Host : Type 0 where
  pub now : ℕ
  pub commits : Bool
  pub zip : Text → Zipping
  pub log_path : Text → Text
  pub crash_path : Text → Text
  pub removable : LogFile → Bool

abbrev pub all_targets : Host → List Entry → List Entry → List LogFile
all_targets h logs crashes =
    targets_in h.log_path is_old_log logs ++ targets_in h.crash_path is_crash_file crashes

abbrev pub purged : Host → ℕ → List Entry → List Entry → List LogFile
purged h max_bytes logs crashes =
    (enforce_disk_cap h.removable max_bytes (active_bytes logs)
      (all_targets h logs crashes)).removed

unfoldable pub execute_cleanup : Host → Option AgentSettings → Disk → Disk
unfolding delete_expired archive_old_crashes left_in
execute_cleanup h settings d =
    let cutoff = h.now - retention_of settings * 86400 in
    let crashes = archive_old_crashes h.now h.zip d.crashes d.crashes in
    let removed = purged h (max_bytes_of settings) d.logs crashes in
    record {
      health = delete_expired h.commits cutoff d.health;
      logs = left_in h.log_path removed d.logs;
      crashes = left_in h.crash_path removed crashes;
    }
