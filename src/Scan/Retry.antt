-- ===== src/Scan/Retry.antt =====
-- The retry loop of `process_file` of agent/services/parser_service.py ends by the circuit breaker.
use atm_monitoring_agent.Prelude.{
  ℕ, zero, suc, ◌+◌, ◌-◌, ◌≤◌, ◌<◌, ◌≡◌, inl, inr, Bool, true, false, List, [], ◌∷◌, Option,
  is_some, arith, refl, sym, ◌∙◌, ltb→lt, Bool-cases, ltb, if◌then◌else◌, length, ◌==◌,
}
use atm_monitoring_agent.ParserModels.{Text}
use atm_monitoring_agent.CircuitBreaker.{
  CircuitBreaker, open_state, half_open, can_execute, record_failure, is_open,
}
use atm_monitoring_agent.CircuitBreaker.Trace.{Inv}
use atm_monitoring_agent.FileUtils.{bytes, read_appended_lines}
use atm_monitoring_agent.Scan.{
  Attempt, AgentFileState, Scan, Step, returned, raised, retried, Failure, no_failure,
  database_before, database_after, other_before, other_after, on_database_error, parse_and_store,
  try_once, scan_loop, process_file, load_state, before_processing, after_processing, unless_empty,
  unless_retried,
}

-- The breaker is not open, and closed exactly below the threshold.
record IsTrying (b : CircuitBreaker) : Type 0 where
  shut : is_open b.state ≡ false
  inv : Inv b

-- Behind a retry the breaker is closed and has counted the failure.
abbrev IsCounted : CircuitBreaker → Step → Type 0
IsCounted b (returned _ _) = Unit
IsCounted b (raised _) = Unit
IsCounted b (retried next) =
    IsTrying next.breaker
    × (next.breaker.failure_count ≡ b.failure_count + 1)
    × (b.failure_count + 1 < b.failure_threshold)
    × (next.breaker.failure_threshold ≡ b.failure_threshold)
    × (next.breaker.cooldown_seconds ≡ b.cooldown_seconds)

-- the breaker is asked soon after it was told
abbrev pub IsPrompt : ℕ → Attempt → Type 0
IsPrompt cooldown a = a.checked - a.now < cooldown

refused_after_failure :
    (b : CircuitBreaker) (now checked : ℕ)
    → IsTrying b
    → checked - now < b.cooldown_seconds
    → b.failure_threshold ≤ b.failure_count + 1
    → (can_execute (record_failure b now).0 checked).0 ≡ false
unfolding record_failure can_execute
refused_after_failure b now checked t p r = ground (arith, t.shut)

-- The breaker below the threshold, behind a failure and a question.
record IsAllowed (b after : CircuitBreaker) : Type 0 where
  state_lem : after.state ≡ b.state
  count_lem : after.failure_count ≡ b.failure_count + 1
  threshold_lem : after.failure_threshold ≡ b.failure_threshold
  cooldown_lem : after.cooldown_seconds ≡ b.cooldown_seconds

IsAllowed-after_failure :
    (b : CircuitBreaker) (now checked : ℕ)
    → IsTrying b
    → b.failure_count + 1 < b.failure_threshold
    → IsAllowed b (can_execute (record_failure b now).0 checked).1
unfolding record_failure can_execute
IsAllowed-after_failure b now checked t r = ground (arith, t.shut)

IsTrying-of_IsAllowed :
    (b after : CircuitBreaker)
    → IsTrying b
    → b.failure_count + 1 < b.failure_threshold
    → IsAllowed b after
    → IsTrying after
IsTrying-of_IsAllowed b after t r a = record {
  shut = rw a.state_lem t.shut;
  inv = record {
    positive = let e = a.threshold_lem in omega arith;
    below = λ c. let e = a.threshold_lem in let f = a.count_lem in omega arith;
    open_reached = λ c. absurd (
        let e : b.state ≡ open_state = sym a.state_lem ∙ c in
        let s = t.shut in ground (arith, e, s));
    half_reached = λ c.
        let e : b.state ≡ half_open = sym a.state_lem ∙ c in
        let h = t.inv.half_reached e in absurd (omega arith);
  };
}

on_database_error-IsCounted :
    (a : Attempt) (scan : Scan)
    → IsTrying scan.breaker
    → IsPrompt scan.breaker.cooldown_seconds a
    → IsCounted scan.breaker (on_database_error a scan)
unfolding on_database_error
on_database_error-IsCounted a scan t p =
    elim (Bool-cases (ltb (scan.breaker.failure_count + 1) scan.breaker.failure_threshold)) [
      | inr r ↦
          rw
            (
              refused_after_failure scan.breaker a.now a.checked t p (ground (arith, r)),
              on_database_error,
            )
            tt
      | inl l ↦
          let w = IsAllowed-after_failure scan.breaker a.now a.checked t (ltb→lt _ _ l) in
          elim (Bool-cases (can_execute (record_failure scan.breaker a.now).0 a.checked).0) [
            | inl e ↦
                rw (e, on_database_error)
                  (
                    IsTrying-of_IsAllowed scan.breaker _ t (ltb→lt _ _ l) w,
                    w.count_lem,
                    ltb→lt _ _ l,
                    w.threshold_lem,
                    w.cooldown_lem,
                  )
            | inr e ↦ rw (e, on_database_error) tt
          ]
    ]

module _ (P : Step → Type 0) where
  before_processing_lem :
      (f : Failure) (database other otherwise : Step)
      → P database
      → P other
      → P otherwise
      → P (before_processing f database other otherwise)
  before_processing_lem no_failure database other otherwise d o e = e
  before_processing_lem database_before database other otherwise d o e = d
  before_processing_lem database_after database other otherwise d o e = e
  before_processing_lem other_before database other otherwise d o e = o
  before_processing_lem other_after database other otherwise d o e = e

  after_processing_lem :
      (f : Failure) (database other otherwise : Step)
      → P database
      → P other
      → P otherwise
      → P (after_processing f database other otherwise)
  after_processing_lem no_failure database other otherwise d o e = e
  after_processing_lem database_before database other otherwise d o e = e
  after_processing_lem database_after database other otherwise d o e = d
  after_processing_lem other_before database other otherwise d o e = e
  after_processing_lem other_after database other otherwise d o e = o

  unless_empty_lem :
      (lines : List Text) (nothing something : Step)
      → P nothing
      → P something
      → P (unless_empty lines nothing something)
  unless_empty_lem [] nothing something n s = n
  unless_empty_lem (line ∷ lines) nothing something n s = s

  if_lem : (b : Bool) (x y : Step) → P x → P y → P (if b then x else y)
  if_lem true x y p q = p
  if_lem false x y p q = q

parse_and_store-IsCounted :
    (hash : List ℕ → Text) (attempt atm_id : ℕ) (a : Attempt) (s : AgentFileState)
    (lines : List Text) (offset : ℕ) (scan : Scan)
    → IsTrying scan.breaker
    → IsPrompt scan.breaker.cooldown_seconds a
    → IsCounted scan.breaker (parse_and_store hash attempt atm_id a s lines offset scan)
unfolding parse_and_store
parse_and_store-IsCounted hash attempt atm_id a s lines offset scan t p =
    after_processing_lem (IsCounted scan.breaker) a.failure _ _ _
      (on_database_error-IsCounted a _ t p) tt tt

try_once-IsCounted :
    (hash : List ℕ → Text) (attempt atm_id : ℕ) (path : Text) (a : Attempt) (scan : Scan)
    → IsTrying scan.breaker
    → IsPrompt scan.breaker.cooldown_seconds a
    → IsCounted scan.breaker (try_once hash attempt atm_id path a scan)
unfolding try_once
try_once-IsCounted hash attempt atm_id path a scan t p =
    before_processing_lem (IsCounted scan.breaker) a.failure _ _ _
      (on_database_error-IsCounted a scan t p) tt
      (if_lem (IsCounted scan.breaker)
        (length (bytes a.content) == (load_state hash atm_id path a scan.states).last_read_offset) _
        _ tt
        (unless_empty_lem (IsCounted scan.breaker)
          (read_appended_lines a.locked a.behind a.content
            (load_state hash atm_id path a scan.states).last_read_offset).0
          _ _ tt (parse_and_store-IsCounted hash attempt atm_id a _ _ _ scan t p)))

unless_retried_lem :
    (b : CircuitBreaker) (s : Step) (again : Scan → Option Step)
    → ((next : Scan) → IsCounted b (retried next) → is_some (again next) ≡ true)
    → IsCounted b s
    → is_some (unless_retried s again) ≡ true
unless_retried_lem b (retried next) again h c = h next c
unless_retried_lem b (returned _ _) again h c = refl
unless_retried_lem b (raised _) again h c = refl

-- The loop ends on the fuel that the failures up to the threshold need.
scan_loop_ends :
    (hash : List ℕ → Text) (fuel attempt atm_id : ℕ) (path : Text) (attempts : ℕ → Attempt)
    (scan : Scan)
    → IsTrying scan.breaker
    → ((i : ℕ) → IsPrompt scan.breaker.cooldown_seconds (attempts i))
    → 1 ≤ fuel
    → scan.breaker.failure_threshold ≤ fuel + scan.breaker.failure_count
    → is_some (scan_loop hash fuel attempt atm_id path attempts scan) ≡ true
unfolding scan_loop
scan_loop_ends hash zero attempt atm_id path attempts scan t p one enough = absurd (omega arith)
scan_loop_ends hash (suc fuel) attempt atm_id path attempts scan t p one enough =
    unless_retried_lem scan.breaker (try_once hash attempt atm_id path (attempts attempt) scan) _
      (λ next counted.
        let (trying, count, below, threshold, cooldown) = counted in
        scan_loop_ends hash fuel (attempt + 1) atm_id path attempts next trying
          (λ i. let q = p i in omega arith) (omega arith) (omega arith))
      (try_once-IsCounted hash attempt atm_id path (attempts attempt) scan t (p attempt))

can_execute-IsTrying :
    (b : CircuitBreaker) (now : ℕ)
    → Inv b
    → (can_execute b now).0 ≡ true
    → IsTrying (can_execute b now).1
unfolding can_execute
can_execute-IsTrying b now i e = ground arith

can_execute_kept :
    (b : CircuitBreaker) (now : ℕ)
    → ((can_execute b now).1.failure_threshold ≡ b.failure_threshold)
      × ((can_execute b now).1.cooldown_seconds ≡ b.cooldown_seconds)
unfolding can_execute
can_execute_kept b now = ground arith

-- A scan ends, whatever the database and the file system do, on as much fuel as the failure threshold
-- of its breaker: if the breaker is in one of the states that its calls lead to, and is asked within
-- its cooldown after each failure that it is told, there are at most as many attempts.
pub process_file_ends :
    (hash : List ℕ → Text) (fuel : ℕ) (exists : Bool) (now atm_id : ℕ) (path : Text)
    (attempts : ℕ → Attempt) (scan : Scan)
    → Inv scan.breaker
    → ((i : ℕ) → IsPrompt scan.breaker.cooldown_seconds (attempts i))
    → scan.breaker.failure_threshold ≤ fuel
    → is_some (process_file hash fuel exists now atm_id path attempts scan) ≡ true
unfolding process_file
process_file_ends hash fuel exists now atm_id path attempts scan i p enough =
    elim (Bool-cases (can_execute scan.breaker now).0) [
      | inr e ↦ rw (e, process_file) refl
      | inl e ↦
          rw (e, process_file)
            (elim (Bool-cases exists) [
              | inr n ↦ rw (n, process_file) refl
              | inl y ↦
                  let (threshold, cooldown) = can_execute_kept scan.breaker now in
                  let positive = i.positive in
                  rw (y, process_file)
                    (scan_loop_ends hash fuel 0 atm_id path attempts _
                      (can_execute-IsTrying scan.breaker now i e) (λ k. let q = p k in omega arith)
                      (omega arith) (omega arith))
            ])
    ]
