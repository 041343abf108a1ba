-- ===== src/CircuitBreaker/Trace.antt =====
-- agent/utils/circuit_breaker.py: what holds of a breaker after any sequence of calls.
use atm_monitoring_agent.Prelude.{ℕ, ◌+◌, ◌≤◌, ◌<◌, ◌≡◌, refl, List, [], ◌∷◌, arith}
use atm_monitoring_agent.CircuitBreaker.{
  CircuitBreaker, closed, open_state, half_open, can_execute, record_success, record_failure,
}

-- A call of one of the three methods, at a time.
pub data Call : Type 0 where
  ask success failure : ℕ → Call

unfoldable pub call : CircuitBreaker → Call → CircuitBreaker
call b (ask now) = (can_execute b now).1
call b (success now) = (record_success b now).0
call b (failure now) = (record_failure b now).0

unfoldable pub run : CircuitBreaker → List Call → CircuitBreaker
run b [] = b
run b (c ∷ cs) = run (call b c) cs

-- How many failures were reported since the last success, `n` of them before the calls.
abbrev pub failures_from : ℕ → List Call → ℕ
failures_from n [] = n
failures_from n (ask _ ∷ cs) = failures_from n cs
failures_from n (success _ ∷ cs) = failures_from 0 cs
failures_from n (failure _ ∷ cs) = failures_from (n + 1) cs

-- A breaker is closed exactly while its count is below the threshold.
pub record Inv (b : CircuitBreaker) : Type 0 where
  pub positive : 0 < b.failure_threshold
  pub below : b.state ≡ closed → b.failure_count < b.failure_threshold
  pub open_reached : b.state ≡ open_state → b.failure_threshold ≤ b.failure_count
  pub half_reached : b.state ≡ half_open → b.failure_threshold ≤ b.failure_count

pub call-Inv : (b : CircuitBreaker) (c : Call) → Inv b → Inv (call b c)
unfolding call can_execute record_success record_failure
call-Inv b (ask now) h = ground arith
call-Inv b (success now) h = ground arith
call-Inv b (failure now) h = ground arith

pub run-Inv : (b : CircuitBreaker) (cs : List Call) → Inv b → Inv (run b cs)
unfolding run
run-Inv b [] h = h
run-Inv b (c ∷ cs) h = run-Inv (call b c) cs (call-Inv b c h)

threshold-call :
    (b : CircuitBreaker) (c : Call) → (call b c).failure_threshold ≡ b.failure_threshold
unfolding call can_execute record_success record_failure
threshold-call b (ask now) = ground arith
threshold-call b (success now) = refl
threshold-call b (failure now) = ground arith

pub threshold-run :
    (b : CircuitBreaker) (cs : List Call) → (run b cs).failure_threshold ≡ b.failure_threshold
unfolding run
threshold-run b [] = refl
threshold-run b (c ∷ cs) = ground (arith, threshold-run (call b c) cs, threshold-call b c)

count-call_ask : (b : CircuitBreaker) (now : ℕ) → (call b (ask now)).failure_count ≡ b.failure_count
unfolding call can_execute
count-call_ask b now = ground arith

count-call_failure :
    (b : CircuitBreaker) (now : ℕ) → (call b (failure now)).failure_count ≡ b.failure_count + 1
unfolding call record_failure
count-call_failure b now = ground arith

count-call_success : (b : CircuitBreaker) (now : ℕ) → (call b (success now)).failure_count ≡ 0
unfolding call record_success
count-call_success b now = refl

-- The count is the number of failures since the last success.
pub count-run :
    (b : CircuitBreaker) (cs : List Call)
    → (run b cs).failure_count ≡ failures_from b.failure_count cs
unfolding run
count-run b [] = refl
count-run b (ask now ∷ cs) = ground (arith, count-run (call b (ask now)) cs, count-call_ask b now)
count-run b (success now ∷ cs) =
    ground (arith, count-run (call b (success now)) cs, count-call_success b now)
count-run b (failure now ∷ cs) =
    ground (arith, count-run (call b (failure now)) cs, count-call_failure b now)
