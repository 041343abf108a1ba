-- ===== src/CircuitBreaker/Laws.antt =====
-- agent/utils/circuit_breaker.py: when a breaker is closed, when it refuses, and how it reopens.
use atm_monitoring_agent.Prelude.{
  ℕ, ◌+◌, ◌-◌, ◌≤◌, ◌<◌, ◌≡◌, refl, ◌↔◌, ◌≢◌, true, false, List, [], ◌∷◌, arith, All, All,
}
use atm_monitoring_agent.CircuitBreaker.{
  CircuitBreaker, BreakerState, closed, open_state, half_open, set_circuit_breaker_state,
  record_cb_trip, new, can_execute, record_success, record_failure,
}
use atm_monitoring_agent.CircuitBreaker.Trace.{
  Call, ask, success, failure, call, run, failures_from, Inv, run-Inv, threshold-run, count-run,
}

closed_iff_of_Inv :
    (b : CircuitBreaker) → Inv b → (b.state ≡ closed) ↔ (b.failure_count < b.failure_threshold)
closed_iff_of_Inv b h = (h.below, λ lt. decide b.state refl lt)
  where
    decide :
        (s : BreakerState) → b.state ≡ s → b.failure_count < b.failure_threshold → b.state ≡ closed
    decide closed e lt = e
    decide open_state e lt = let reached = h.open_reached e in absurd (omega arith)
    decide half_open e lt = let reached = h.half_reached e in absurd (omega arith)

new-Inv : (threshold cooldown start : ℕ) → 0 < threshold → Inv (new threshold cooldown start)
unfolding new
new-Inv threshold cooldown start h = ground arith

-- A breaker made with a positive threshold is closed, after any calls at any times, exactly when
-- fewer failures than the threshold were reported since the last success.
pub run-new_closed :
    (threshold cooldown start : ℕ) (cs : List Call)
    → 0 < threshold
    → ((run (new threshold cooldown start) cs).state ≡ closed) ↔ (failures_from 0 cs < threshold)
unfolding new
run-new_closed threshold cooldown start cs h =
    let b = new threshold cooldown start in
    let e : (run b cs).failure_count ≡ failures_from 0 cs = count-run b cs in
    let t : (run b cs).failure_threshold ≡ threshold = threshold-run b cs in
    let (there, back) =
      closed_iff_of_Inv (run b cs) (run-Inv b cs (new-Inv threshold cooldown start h)) in
    (λ c. let lt = there c in omega arith, λ lt. back (omega arith))

-- A call that is no success, and no question as late as the cooldown after `since`.
abbrev pub IsWithin : (since cooldown : ℕ) → Call → Type 0
IsWithin since cooldown (ask now) = now - since < cooldown
IsWithin since cooldown (success now) = ⊥
IsWithin since cooldown (failure now) = Unit

record IsOpenSince (since cooldown : ℕ) (b : CircuitBreaker) : Type 0 where
  is_open : b.state ≡ open_state
  changed : b.last_state_change ≡ since
  cooldown_kept : b.cooldown_seconds ≡ cooldown

call-IsOpenSince :
    (since cooldown : ℕ) (b : CircuitBreaker) (c : Call)
    → IsOpenSince since cooldown b
    → IsWithin since cooldown c
    → IsOpenSince since cooldown (call b c)
unfolding call can_execute record_failure
call-IsOpenSince since cooldown b (ask now) h w = ground arith
call-IsOpenSince since cooldown b (success now) h w = absurd w
call-IsOpenSince since cooldown b (failure now) h w = ground arith

run-IsOpenSince :
    (since cooldown : ℕ) (b : CircuitBreaker) (cs : List Call)
    → IsOpenSince since cooldown b
    → All (IsWithin since cooldown) cs
    → IsOpenSince since cooldown (run b cs)
unfolding run
run-IsOpenSince since cooldown b [] h w = h
run-IsOpenSince since cooldown b (c ∷ cs) h (w, ws) =
    run-IsOpenSince since cooldown (call b c) cs (call-IsOpenSince since cooldown b c h w) ws

record_failure-IsOpenSince :
    (b : CircuitBreaker) (since : ℕ)
    → b.state ≢ open_state
    → b.failure_threshold ≤ b.failure_count + 1
    → IsOpenSince since b.cooldown_seconds (record_failure b since).0
unfolding record_failure
record_failure-IsOpenSince b since shut reached = ground arith

can_execute_of_IsOpenSince :
    (since cooldown now : ℕ) (b : CircuitBreaker)
    → IsOpenSince since cooldown b
    → now - since < cooldown
    → (can_execute b now).0 ≡ false
unfolding can_execute
can_execute_of_IsOpenSince since cooldown now b h early = ground arith

-- A failure at the time `since` that brings the count of a breaker which is not open to the
-- threshold opens it: whatever calls follow, none of them a success and no question as late as the
-- cooldown after `since`, a further question within the cooldown is refused.
pub run_refuses :
    (b : CircuitBreaker) (since now : ℕ) (cs : List Call)
    → b.state ≢ open_state
    → b.failure_threshold ≤ b.failure_count + 1
    → All (IsWithin since b.cooldown_seconds) cs
    → now - since < b.cooldown_seconds
    → (can_execute (run (record_failure b since).0 cs) now).0 ≡ false
run_refuses b since now cs shut reached within early =
    can_execute_of_IsOpenSince since b.cooldown_seconds now _
      (run-IsOpenSince since b.cooldown_seconds _ cs
        (record_failure-IsOpenSince b since shut reached) within)
      early

-- Once the cooldown is over, the first question is let through as a probe, the probe's success
-- closes the breaker with a count of 0, and from a count at the threshold its failure opens the
-- breaker again with a new cooldown, and counts one more trip.
pub probe_lem :
    (b : CircuitBreaker) (now later : ℕ)
    → b.state ≡ open_state
    → b.failure_threshold ≤ b.failure_count
    → b.cooldown_seconds ≤ now - b.last_state_change
    → let (allowed, probing, _) = can_execute b now in
      let (reset, _) = record_success probing later in
      let (tripped, notes) = record_failure probing later in
      (allowed ≡ true)
      × (probing.state ≡ half_open)
      × (reset.state ≡ closed)
      × (reset.failure_count ≡ 0)
      × (tripped.state ≡ open_state)
      × (tripped.last_state_change ≡ later)
      × (notes ≡ set_circuit_breaker_state open_state ∷ record_cb_trip ∷ [])
unfolding can_execute record_success record_failure
probe_lem b now later o reached over = ground arith
