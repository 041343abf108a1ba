-- ===== src/FileMonitor/Exclusion.antt =====
-- agent/services/file_monitor_service.py: scans exclude one another, and none runs after `stop`.
use atm_monitoring_agent.Prelude.{
  ℕ, ◌≡◌, ◌≢◌, refl, sym, ap, ◌∙◌, inl, inr, Bool, true, false, Option, none, some, List, [], ◌∷◌,
  if◌then◌else◌, Option-cases, arith,
}
use mathlib.Core.Path.{subst}
use mathlib.Core.Option.{some-injective}
use atm_monitoring_agent.FileMonitor.{
  Place, outside, waiting, inside, scanning, Stop, away, asked, cleared, Monitor, new_monitor,
  Loaded, settings, no_settings, raises, Move, starts, stops, clears, calls, enters, finishes,
  checks, released, scans, on_settings, check_settings, start_from, stop_from, clear_from,
  call_from, enter_from, check_from, finish_from, step, run,
}

-- Behind the lock.
abbrev is_in : Place → Bool
is_in outside = false
is_in waiting = false
is_in inside = true
is_in scanning = true

record Inv (m : Monitor) : Type 0 where
  held : (i : ℕ) → is_in (m.place i) ≡ true → m.lock ≡ some i
  stopped : m.stop ≢ away → m.is_running ≡ false
  quiet : m.stop ≡ cleared → (i : ℕ) → m.place i ≢ scanning

-- What holds after a move, if it can be made.
abbrev Keeps : Option Monitor → Type 0
Keeps none = Unit
Keeps (some m) = Inv m

new_monitor-Inv : Inv new_monitor
new_monitor-Inv = record { held = λ i h. cc; stopped = λ h. refl; quiet = λ h i e. cc }

if-Inv :
    (b : Bool) (m n : Monitor) → (b ≡ true → Inv m) → (b ≡ false → Inv n) → Inv (if b then m else n)
if-Inv true m n h k = h refl
if-Inv false m n h k = k refl

started-Inv :
    (m : Monitor)
    → Inv m
    → Inv (if m.is_running then m else record m { is_running = true; stop = away })
started-Inv m v =
    if-Inv m.is_running m _ (λ _. v)
      (λ _. record { held = v.held; stopped = λ h. absurd (h refl); quiet = λ h i e. cc })

start_from-Keeps : (p : Stop) (m : Monitor) → Inv m → Keeps (start_from p m)
start_from-Keeps asked m v = tt
start_from-Keeps away m v = started-Inv m v
start_from-Keeps cleared m v = started-Inv m v

stop_from-Inv : (m : Monitor) → Inv m → Inv (stop_from m)
stop_from-Inv m v =
    if-Inv m.is_running _ m
      (λ _. record { held = v.held; stopped = λ h. refl; quiet = λ h i e. cc }) (λ _. v)

clear_from-Keeps : (p : Stop) (m : Monitor) → m.stop ≡ p → Inv m → Keeps (clear_from p m)
clear_from-Keeps away m at v = tt
clear_from-Keeps cleared m at v = tt
clear_from-Keeps asked m at v = elim (Option-cases m.lock) [
  | inl free ↦ rw free (record {
    held = λ i h. cc (free, v.held i h);
    stopped = λ h. v.stopped (λ e. cc);
    quiet = λ h i e. cc (free, v.held i (ap is_in e));
  })
  | inr (i, taken) ↦ rw taken tt
]

-- A thread that moves to a place where it holds no lock.
call_from-Keeps : (p : Place) (i : ℕ) (m : Monitor) → Inv m → Keeps (call_from p i m)
call_from-Keeps outside i m v = record {
  held = λ j h. ground (arith, v.held j);
  stopped = v.stopped;
  quiet = λ h j e. ground (arith, v.quiet h j);
}
call_from-Keeps waiting i m v = tt
call_from-Keeps inside i m v = tt
call_from-Keeps scanning i m v = tt

enter_from-Keeps : (p : Place) (i : ℕ) (m : Monitor) → Inv m → Keeps (enter_from p i m)
enter_from-Keeps waiting i m v = elim (Option-cases m.lock) [
  | inl free ↦ rw free (record {
    held = λ j h. ground (arith, v.held j);
    stopped = v.stopped;
    quiet = λ h j e. ground (arith, v.quiet h j);
  })
  | inr (j, taken) ↦ rw taken tt
]
enter_from-Keeps outside i m v = tt
enter_from-Keeps inside i m v = tt
enter_from-Keeps scanning i m v = tt

-- A thread that holds the lock gives it back, or goes on.
released-Inv : (i : ℕ) (m : Monitor) → m.lock ≡ some i → Inv m → Inv (released i m)
released-Inv i m own v = record {
  held = λ j h. ground (arith, v.held j);
  stopped = v.stopped;
  quiet = λ h j e. ground (arith, v.quiet h j);
}

scans-Inv : (i : ℕ) (m : Monitor) → m.lock ≡ some i → m.is_running ≡ true → Inv m → Inv (scans i m)
scans-Inv i m own runs v = record {
  held = λ j h. ground (arith, v.held j);
  stopped = v.stopped;
  quiet = λ h j e. cc (runs, v.stopped (λ q. cc));
}

on_settings-Inv :
    (i : ℕ) (loaded : Loaded) (m : Monitor)
    → m.lock ≡ some i
    → m.is_running ≡ true
    → Inv m
    → Inv (on_settings i loaded m)
on_settings-Inv i (settings true) m own runs v = scans-Inv i m own runs v
on_settings-Inv i (settings false) m own runs v = released-Inv i m own v
on_settings-Inv i no_settings m own runs v = scans-Inv i m own runs v
on_settings-Inv i raises m own runs v = released-Inv i m own v

check_settings-Inv :
    (i : ℕ) (loaded : Loaded) (m : Monitor)
    → m.lock ≡ some i
    → Inv m
    → Inv (check_settings i loaded m)
unfolding check_settings
check_settings-Inv i loaded m own v =
    if-Inv m.is_running _ _ (λ runs. on_settings-Inv i loaded m own runs v)
      (λ _. released-Inv i m own v)

check_from-Keeps :
    (p : Place) (i : ℕ) (loaded : Loaded) (m : Monitor)
    → m.place i ≡ p
    → Inv m
    → Keeps (check_from p i loaded m)
check_from-Keeps inside i loaded m at v = check_settings-Inv i loaded m (v.held i (ap is_in at)) v
check_from-Keeps outside i loaded m at v = tt
check_from-Keeps waiting i loaded m at v = tt
check_from-Keeps scanning i loaded m at v = tt

finish_from-Keeps :
    (p : Place) (i : ℕ) (m : Monitor) → m.place i ≡ p → Inv m → Keeps (finish_from p i m)
finish_from-Keeps scanning i m at v = released-Inv i m (v.held i (ap is_in at)) v
finish_from-Keeps outside i m at v = tt
finish_from-Keeps waiting i m at v = tt
finish_from-Keeps inside i m at v = tt

step-Keeps : (v : Move) (m : Monitor) → Inv m → Keeps (step v m)
unfolding step
step-Keeps starts m h = start_from-Keeps m.stop m h
step-Keeps stops m h = stop_from-Inv m h
step-Keeps clears m h = clear_from-Keeps m.stop m refl h
step-Keeps (calls i) m h = call_from-Keeps (m.place i) i m h
step-Keeps (enters i) m h = enter_from-Keeps (m.place i) i m h
step-Keeps (checks i loaded) m h = check_from-Keeps (m.place i) i loaded m refl h
step-Keeps (finishes i) m h = finish_from-Keeps (m.place i) i m refl h

run-Inv : (moves : List Move) (m n : Monitor) → Inv m → run moves m ≡ some n → Inv n
unfolding run
run-Inv [] m n h e = subst Inv (some-injective _ _ e) h
run-Inv (v ∷ moves) m n h e = elim (Option-cases (step v m)) [
  | inl blocked ↦ cc (rw blocked at e)
  | inr (k, moved) ↦ run-Inv moves k n (subst Keeps moved (step-Keeps v m h)) (rw moved at e)
]

pub record IsSafe (m : Monitor) : Type 0 where
  pub alone : (i j : ℕ) → m.place i ≡ scanning → m.place j ≡ scanning → i ≡ j
  pub ended : m.stop ≡ cleared → (i : ℕ) → m.place i ≢ scanning

-- However the threads of the file monitor interleave, at most one of them runs a scan, and once `stop`
-- has passed its lock none does, until the service is started again.
pub run-IsSafe : (moves : List Move) (m : Monitor) → run moves new_monitor ≡ some m → IsSafe m
run-IsSafe moves m e =
    let v = run-Inv moves new_monitor m new_monitor-Inv e in
    record {
      alone = λ i j a b. some-injective _ _ (sym (v.held i (ap is_in a)) ∙ v.held j (ap is_in b));
      ended = v.quiet;
    }
