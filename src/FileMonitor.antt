-- ===== src/FileMonitor.antt =====
-- `FileMonitorService` of agent/services/file_monitor_service.py: the threads that ask for scans, and
-- the thread that starts and stops the service. A move is a stretch of one thread between two points
-- at which others may run; a move that cannot be made, such as taking a lock that is held, is none.
-- Threads are numbered; the observer, the polling loop and the first scan of `start` call
-- `trigger_scan` alike, and their sleeping and joining is left out.
pub mod Exclusion
use atm_monitoring_agent.Prelude.{
  ℕ, Bool, true, false, Option, none, some, List, [], ◌∷◌, ◌==◌, if◌then◌else◌,
}
use atm_monitoring_agent.TextOps.Pattern.{◌>>=◌}

-- Where a thread is in `trigger_scan`: outside, before the lock, behind it, or in `process_file`.
pub data Place : Type 0 where
  outside waiting inside scanning : Place

-- Where `stop` is: not called since the last start, before its lock, or behind it.
pub data Stop : Type 0 where
  away asked cleared : Stop

pub record Monitor : Type 0 where
  pub is_running : Bool
  pub lock : Option ℕ
  pub place : ℕ → Place
  pub stop : Stop

abbrev pub new_monitor : Monitor
new_monitor = record { is_running = false; lock = none; place = λ i. outside; stop = away }

-- What `settings_manager.get_settings` gives: the switch of the parser, no settings, or an exception.
pub data Loaded : Type 0 where
  settings : Bool → Loaded
  no_settings raises : Loaded

abbrev pub at_place : ℕ → Place → (ℕ → Place) → ℕ → Place
at_place i p place j = if j == i then p else place j

-- Leaving `with self.lock`.
abbrev pub released : ℕ → Monitor → Monitor
released i m = record m { lock = none; place = at_place i outside m.place }

abbrev pub scans : ℕ → Monitor → Monitor
scans i m = record m { place = at_place i scanning m.place }

abbrev pub on_settings : ℕ → Loaded → Monitor → Monitor
on_settings i (settings enabled) m = if enabled then scans i m else released i m
on_settings i no_settings m = scans i m
on_settings i raises m = released i m

-- The tests of `trigger_scan` behind the lock.
unfoldable pub check_settings : ℕ → Loaded → Monitor → Monitor
check_settings i loaded m = if m.is_running then on_settings i loaded m else released i m

pub data Move : Type 0 where
  starts stops clears : Move
  calls enters finishes : ℕ → Move
  checks : ℕ → Loaded → Move

abbrev only_if_free : Option ℕ → Monitor → Option Monitor
only_if_free none m = some m
only_if_free (some i) m = none

-- `start` up to its first scan; it is not called while `stop` waits, as one thread calls both.
abbrev pub start_from : Stop → Monitor → Option Monitor
start_from asked m = none
start_from away m = some (if m.is_running then m else record m { is_running = true; stop = away })
start_from cleared m =
    some (if m.is_running then m else record m { is_running = true; stop = away })

-- `stop` up to its lock.
abbrev pub stop_from : Monitor → Monitor
stop_from m = if m.is_running then record m { is_running = false; stop = asked } else m

-- `with self.lock` in `stop`, which waits for a scan.
abbrev pub clear_from : Stop → Monitor → Option Monitor
clear_from asked m = only_if_free m.lock (record m { stop = cleared })
clear_from _ m = none

abbrev pub call_from : Place → ℕ → Monitor → Option Monitor
call_from outside i m = some (record m { place = at_place i waiting m.place })
call_from _ i m = none

abbrev pub enter_from : Place → ℕ → Monitor → Option Monitor
enter_from waiting i m =
    only_if_free m.lock (record m { lock = some i; place = at_place i inside m.place })
enter_from _ i m = none

abbrev pub check_from : Place → ℕ → Loaded → Monitor → Option Monitor
check_from inside i loaded m = some (check_settings i loaded m)
check_from _ i loaded m = none

-- `process_file` returns or raises.
abbrev pub finish_from : Place → ℕ → Monitor → Option Monitor
finish_from scanning i m = some (released i m)
finish_from _ i m = none

unfoldable pub step : Move → Monitor → Option Monitor
step starts m = start_from m.stop m
step stops m = some (stop_from m)
step clears m = clear_from m.stop m
step (calls i) m = call_from (m.place i) i m
step (enters i) m = enter_from (m.place i) i m
step (checks i loaded) m = check_from (m.place i) i loaded m
step (finishes i) m = finish_from (m.place i) i m

unfoldable pub run : List Move → Monitor → Option Monitor
run [] m = some m
run (v ∷ moves) m = do n ← step v m; run moves n
