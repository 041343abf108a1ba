-- ===== src/CircuitBreaker.antt =====
-- `class CircuitBreaker` of agent/utils/circuit_breaker.py. The lock makes each method one step;
-- the clock is the argument `now` of a method, in seconds. Logging is left out; the calls of the
-- metrics tracker are returned as notes, in order.
pub mod Trace
pub mod Laws
use atm_monitoring_agent.Prelude.{
  ℕ, ◌+◌, ◌-◌, Bool, true, false, not, ◌&&◌, List, [], ◌∷◌, leb, if◌then◌else◌,
}

pub data BreakerState : Type 0 where
  closed open_state half_open : BreakerState

-- What a method tells the metrics tracker.
pub data Note : Type 0 where
  set_circuit_breaker_state : BreakerState → Note
  record_cb_trip : Note

pub record CircuitBreaker : Type 0 where
  pub failure_threshold : ℕ
  pub cooldown_seconds : ℕ
  pub state : BreakerState
  pub failure_count : ℕ
  pub last_state_change : ℕ

unfoldable pub new : ℕ → ℕ → ℕ → CircuitBreaker
new failure_threshold cooldown_seconds now = record {
  failure_threshold = failure_threshold;
  cooldown_seconds = cooldown_seconds;
  state = closed;
  failure_count = 0;
  last_state_change = now;
}

abbrev pub is_open : BreakerState → Bool
is_open open_state = true
is_open _ = false

unfoldable pub can_execute : CircuitBreaker → ℕ → Bool × CircuitBreaker × List Note
can_execute b now =
    if is_open b.state
    then if leb b.cooldown_seconds (now - b.last_state_change)
      then (
        true,
        record b { state = half_open; last_state_change = now },
        set_circuit_breaker_state half_open ∷ [],
      )
      else (false, b, [])
    else (true, b, [])

unfoldable pub record_success : CircuitBreaker → ℕ → CircuitBreaker × List Note
record_success b now = (
  record b { state = closed; failure_count = 0; last_state_change = now },
  set_circuit_breaker_state closed ∷ [],
)

unfoldable pub record_failure : CircuitBreaker → ℕ → CircuitBreaker × List Note
record_failure b now =
    let counted = record b { failure_count = b.failure_count + 1 } in
    if leb counted.failure_threshold counted.failure_count && not (is_open counted.state)
    then (
      record counted { state = open_state; last_state_change = now },
      set_circuit_breaker_state open_state ∷ record_cb_trip ∷ [],
    )
    else (counted, [])
