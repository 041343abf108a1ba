-- ===== src/Metrics/Laws.antt =====
-- agent/utils/metrics.py as the circuit breaker of agent/utils/circuit_breaker.py drives it.
use atm_monitoring_agent.Prelude.{ℕ, ◌+◌, ◌≡◌, Bool, List, [], ◌∷◌, arith, if◌then◌else◌, not, ◌&&◌}
use atm_monitoring_agent.CircuitBreaker.{
  CircuitBreaker, Note, is_open, can_execute, record_success, record_failure,
}
use atm_monitoring_agent.CircuitBreaker.Trace.{Call, ask, success, failure, run, call}
use atm_monitoring_agent.Metrics.{MetricsTracker, take_notes}

-- the notes of a call
abbrev pub notes_of : CircuitBreaker → Call → List Note
notes_of b (ask now) = (can_execute b now).2
notes_of b (success now) = (record_success b now).1
notes_of b (failure now) = (record_failure b now).1

-- The tracker behind a sequence of calls on the breaker.
pub track : CircuitBreaker → List Call → MetricsTracker → MetricsTracker
track b [] m = m
track b (c ∷ cs) m = track (call b c) cs (take_notes (notes_of b c) m)

-- how often a call opens the breaker
abbrev is_trip : CircuitBreaker → Call → Bool
is_trip b c = not (is_open b.state) && is_open (call b c).state

abbrev pub trips : CircuitBreaker → List Call → ℕ
trips b [] = 0
trips b (c ∷ cs) = (if is_trip b c then 1 else 0) + trips (call b c) cs

take_notes-call :
    (b : CircuitBreaker) (c : Call) (m : MetricsTracker)
    → m.circuit_breaker_state ≡ b.state
    → ((take_notes (notes_of b c) m).circuit_breaker_state ≡ (call b c).state)
      × ((take_notes (notes_of b c) m).cb_trips_count
          ≡ m.cb_trips_count + (if is_trip b c then 1 else 0))
unfolding call can_execute record_success record_failure
take_notes-call b (ask now) m h = ground arith
take_notes-call b (success now) m h = ground arith
take_notes-call b (failure now) m h = ground arith

-- A tracker that shows the state of a breaker shows it after any calls on the breaker, and has
-- counted exactly the calls that opened it.
pub track-run :
    (b : CircuitBreaker) (cs : List Call) (m : MetricsTracker)
    → m.circuit_breaker_state ≡ b.state
    → ((track b cs m).circuit_breaker_state ≡ (run b cs).state)
      × ((track b cs m).cb_trips_count ≡ m.cb_trips_count + trips b cs)
unfolding track run
track-run b [] m h = (h, omega arith)
track-run b (c ∷ cs) m h =
    let (s, n) = take_notes-call b c m h in
    let (t, k) = track-run (call b c) cs (take_notes (notes_of b c) m) s in (t, omega arith)
