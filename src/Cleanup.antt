-- ===== src/Cleanup.antt =====
-- `CleanupService._enforce_disk_cap` of agent/services/cleanup_service.py, on the files that its two
-- directory scans find. `removable` tells whether a file can be removed.
pub mod Laws
pub mod Pass
use atm_monitoring_agent.Prelude.{ℕ, ◌+◌, ◌-◌, Bool, true, false, List, [], ◌∷◌, leb, if◌then◌else◌}
use atm_monitoring_agent.ParserModels.{Text}

pub record LogFile : Type 0 where
  pub filepath : Text
  pub bytes : ℕ
  pub mtime : ℕ

-- `targets.sort(key=mtime)`, which is stable
unfoldable pub insert_by_age : LogFile → List LogFile → List LogFile
insert_by_age f [] = f ∷ []
insert_by_age f (g ∷ files) =
    let rest = insert_by_age f files in if leb f.mtime g.mtime then f ∷ g ∷ files else g ∷ rest

unfoldable pub by_age : List LogFile → List LogFile
by_age [] = []
by_age (f ∷ files) = insert_by_age f (by_age files)

unfoldable pub sum_sizes : List LogFile → ℕ
sum_sizes [] = 0
sum_sizes (f ∷ files) = f.bytes + sum_sizes files

-- What the loop has done: the files that it removed, those that it failed to remove, and those that it
-- did not come to, with the total that is left.
pub record Purge : Type 0 where
  pub removed : List LogFile
  pub failed : List LogFile
  pub kept : List LogFile
  pub total : ℕ

abbrev removing : LogFile → Purge → Purge
removing f p = record p { removed = f ∷ p.removed }

abbrev failing : LogFile → Purge → Purge
failing f p = record p { failed = f ∷ p.failed }

-- the loop over the sorted targets
unfoldable pub purge : (LogFile → Bool) → ℕ → ℕ → List LogFile → Purge
purge removable max_bytes total [] = record { removed = []; failed = []; kept = []; total = total }
purge removable max_bytes total (f ∷ files) =
    let after = purge removable max_bytes (total - f.bytes) files in
    let skipped = purge removable max_bytes total files in
    if removable f
    then if leb (total - f.bytes) max_bytes
      then record { removed = f ∷ []; failed = []; kept = files; total = total - f.bytes }
      else removing f after
    else failing f skipped

-- `active` is the size of the active log, 0 if there is none.
unfoldable pub enforce_disk_cap : (LogFile → Bool) → ℕ → ℕ → List LogFile → Purge
unfolding sum_sizes
enforce_disk_cap removable max_bytes active targets =
    let total = sum_sizes targets + active in
    if leb total max_bytes
    then record { removed = []; failed = []; kept = targets; total = total }
    else purge removable max_bytes total (by_age targets)
