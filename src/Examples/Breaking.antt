-- ===== src/Examples/Breaking.antt =====
-- The theorems on the circuit breaker and the metrics, on a breaker with the threshold 2.
use atm_monitoring_agent.Prelude.{◌+◌, ◌<◌, ◌≡◌, ◌≢◌, ◌↔◌, refl, List, [], ◌∷◌, arith}
use atm_monitoring_agent.CircuitBreaker.{CircuitBreaker, closed, open_state, new}
use atm_monitoring_agent.CircuitBreaker.Trace.{Call, ask, failure, run, failures_from}
use atm_monitoring_agent.CircuitBreaker.Laws.{run-new_closed}
use atm_monitoring_agent.Metrics.{MetricsTracker, init_metrics}
use atm_monitoring_agent.Metrics.Reports.{
  Update, parse, commit, db_failure, reset, update, updates, get_maxima,
}
use atm_monitoring_agent.Metrics.Reports.Longest.{Times, all_given, IsLongest, updates-IsLongest}
use atm_monitoring_agent.Metrics.Laws.{track, trips, track-run}

abbrev calls : List Call
calls = failure 10 ∷ failure 11 ∷ ask 20 ∷ []

abbrev tired : CircuitBreaker
tired = record {
  failure_threshold = 2;
  cooldown_seconds = 30;
  state = closed;
  failure_count = 1;
  last_state_change = 0;
}

abbrev opened : CircuitBreaker
opened = record tired { state = open_state; failure_count = 2; last_state_change = 11 }

run-new_closed_example : ((run (new 2 30 0) calls).state ≡ closed) ↔ (failures_from 0 calls < 2)
run-new_closed_example = run-new_closed 2 30 0 calls (omega arith)

shut : closed ≢ open_state
shut e = ground (arith, e)

track-run_example :
    ((track tired calls init_metrics).circuit_breaker_state ≡ (run tired calls).state)
    × ((track tired calls init_metrics).cb_trips_count
        ≡ init_metrics.cb_trips_count + trips tired calls)
track-run_example = track-run tired calls init_metrics refl

abbrev noted : List Update
noted = parse 0 20 ∷ reset ∷ parse 1 4 ∷ commit 2 9 3 ∷ db_failure ∷ parse 3 8 ∷ []

abbrev counted : MetricsTracker
counted = updates noted init_metrics

abbrev given_times : Times
given_times = all_given noted (record { parses = []; commits = [] })

updates-IsLongest_example :
    IsLongest (get_maxima counted).maximum_parse_duration given_times.parses
    × IsLongest (get_maxima counted).maximum_commit_duration given_times.commits
updates-IsLongest_example = updates-IsLongest noted

noted-get_maxima :
    get_maxima counted ≡ record { maximum_parse_duration = 8; maximum_commit_duration = 9 }
unfolding updates update
noted-get_maxima = refl

noted-given_times : given_times ≡ record { parses = 4 ∷ 8 ∷ []; commits = 9 ∷ [] }
unfolding all_given
noted-given_times = refl
