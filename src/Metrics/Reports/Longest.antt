-- ===== src/Metrics/Reports/Longest.antt =====
-- agent/utils/metrics.py: the maxima that `get_performance_metrics` shows.
use mathlib.Core.Path.{subst}
use atm_monitoring_agent.Prelude.{
  ℕ, ◌+◌, ◌≤◌, ◌≡◌, ◌⊎◌, refl, ap, ◌∙◌, inl, inr, List, [], ◌∷◌, ◌++◌, All, All-append, arith, ltb,
  Bool-cases,
}
use atm_monitoring_agent.CircuitBreaker.{Note, set_circuit_breaker_state, record_cb_trip}
use atm_monitoring_agent.Metrics.{MetricsTracker, init_metrics, larger, take_notes}
use atm_monitoring_agent.Metrics.Reports.{
  Update, scan, parse, commit, db_failure, parser_failure, retry, reconnect, connection_failure,
  successful_connection, retry_state, notes, heartbeat, config_reload, parser_restart,
  worker_restart, reset, update, updates, get_maxima,
}

-- The time stands in the list.
abbrev pub Occurs : ℕ → List ℕ → Type 0
Occurs t [] = ⊥
Occurs t (u ∷ times) = (t ≡ u) ⊎ Occurs t times

-- The longest of the times, 0 if there are none.
abbrev pub Reached : ℕ → List ℕ → Type 0
Reached longest [] = longest ≡ 0
Reached longest (t ∷ times) = Occurs longest (t ∷ times)

pub record IsLongest (longest : ℕ) (times : List ℕ) : Type 0 where
  pub below_lem : All (λ t. t ≤ longest) times
  pub reached_lem : Reached longest times

longer : (m n : ℕ) (times : List ℕ) → m ≤ n → All (λ t. t ≤ m) times → All (λ t. t ≤ n) times
longer m n [] h a = tt
longer m n (t ∷ times) h a = (let e = a.0 in omega arith, longer m n times h a.1)

Occurs-append : (t d : ℕ) (times : List ℕ) → Occurs t times → Occurs t (times ++ d ∷ [])
Occurs-append t d [] h = elim h [ ]
Occurs-append t d (u ∷ times) (inl e) = inl e
Occurs-append t d (u ∷ times) (inr h) = inr (Occurs-append t d times h)

Occurs-last : (d : ℕ) (times : List ℕ) → Occurs d (times ++ d ∷ [])
Occurs-last d [] = inl refl
Occurs-last d (u ∷ times) = inr (Occurs-last d times)

Reached-last : (d : ℕ) (times : List ℕ) → Reached d (times ++ d ∷ [])
Reached-last d [] = inl refl
Reached-last d (u ∷ times) = inr (Occurs-last d times)

-- A time that is not longer leaves the longest, 0 if it is the first.
Reached-append :
    (old d : ℕ) (times : List ℕ) → d ≤ old → Reached old times → Reached old (times ++ d ∷ [])
Reached-append old d [] h e = inl (omega arith)
Reached-append old d (u ∷ times) h r = Occurs-append old d (u ∷ times) r

larger-IsLongest :
    (d old : ℕ) (times : List ℕ) → IsLongest old times → IsLongest (larger d old) (times ++ d ∷ [])
larger-IsLongest d old times h = elim (Bool-cases (ltb old d)) [
  | inl new ↦ rw new (record {
    below_lem =
        All-append _ times (d ∷ []) (longer old d times (ground arith) h.below_lem)
          (omega arith, tt);
    reached_lem = Reached-last d times;
  })
  | inr kept ↦
      let le : d ≤ old = ground arith in
      rw kept (record {
        below_lem = All-append _ times (d ∷ []) h.below_lem (le, tt);
        reached_lem = Reached-append old d times le h.reached_lem;
      })
]

abbrev pub HasLongest : MetricsTracker → Type 0
HasLongest m =
    IsLongest m.max_parse_duration m.parse_times × IsLongest m.max_commit_duration m.commit_times

none_yet : IsLongest 0 []
none_yet = record { below_lem = tt; reached_lem = refl }

take_notes-HasLongest :
    (ns : List Note) (m : MetricsTracker) → HasLongest m → HasLongest (take_notes ns m)
take_notes-HasLongest [] m h = h
take_notes-HasLongest (set_circuit_breaker_state s ∷ ns) m h =
    take_notes-HasLongest ns (record m { circuit_breaker_state = s }) h
take_notes-HasLongest (record_cb_trip ∷ ns) m h =
    take_notes-HasLongest ns (record m { cb_trips_count = m.cb_trips_count + 1 }) h

update-HasLongest : (c : Update) (m : MetricsTracker) → HasLongest m → HasLongest (update c m)
unfolding update
update-HasLongest (parse now duration) m h =
    (larger-IsLongest duration m.max_parse_duration m.parse_times h.0, h.1)
update-HasLongest (commit now duration events) m h =
    (h.0, larger-IsLongest duration m.max_commit_duration m.commit_times h.1)
update-HasLongest (notes ns) m h = take_notes-HasLongest ns m h
update-HasLongest reset m h = (none_yet, none_yet)
update-HasLongest (scan duration bytes offset) m h = h
update-HasLongest db_failure m h = h
update-HasLongest parser_failure m h = h
update-HasLongest retry m h = h
update-HasLongest reconnect m h = h
update-HasLongest connection_failure m h = h
update-HasLongest successful_connection m h = h
update-HasLongest (retry_state retrying) m h = h
update-HasLongest heartbeat m h = h
update-HasLongest config_reload m h = h
update-HasLongest parser_restart m h = h
update-HasLongest worker_restart m h = h

updates_keep : (cs : List Update) (m : MetricsTracker) → HasLongest m → HasLongest (updates cs m)
unfolding updates
updates_keep [] m h = h
updates_keep (c ∷ cs) m h = updates_keep cs (update c m) (update-HasLongest c m h)

-- The times of parses and of commits that the calls give, from the last reset on.
pub record Times : Type 0 where
  pub parses : List ℕ
  pub commits : List ℕ

abbrev given : Update → Times → Times
given (parse now duration) t = record t { parses = t.parses ++ duration ∷ [] }
given (commit now duration events) t = record t { commits = t.commits ++ duration ∷ [] }
given reset t = record { parses = []; commits = [] }
given (scan duration bytes offset) t = t
given (notes ns) t = t
given db_failure t = t
given parser_failure t = t
given retry t = t
given reconnect t = t
given connection_failure t = t
given successful_connection t = t
given (retry_state retrying) t = t
given heartbeat t = t
given config_reload t = t
given parser_restart t = t
given worker_restart t = t

unfoldable pub all_given : List Update → Times → Times
all_given [] t = t
all_given (u ∷ us) t = all_given us (given u t)

abbrev recorded : MetricsTracker → Times
recorded m = record { parses = m.parse_times; commits = m.commit_times }

recorded-take_notes :
    (ns : List Note) (m : MetricsTracker) → recorded (take_notes ns m) ≡ recorded m
recorded-take_notes [] m = refl
recorded-take_notes (set_circuit_breaker_state s ∷ ns) m =
    recorded-take_notes ns (record m { circuit_breaker_state = s })
recorded-take_notes (record_cb_trip ∷ ns) m =
    recorded-take_notes ns (record m { cb_trips_count = m.cb_trips_count + 1 })

recorded-update : (u : Update) (m : MetricsTracker) → recorded (update u m) ≡ given u (recorded m)
unfolding update
recorded-update (parse now duration) m = refl
recorded-update (commit now duration events) m = refl
recorded-update (notes ns) m = recorded-take_notes ns m
recorded-update reset m = refl
recorded-update (scan duration bytes offset) m = refl
recorded-update db_failure m = refl
recorded-update parser_failure m = refl
recorded-update retry m = refl
recorded-update reconnect m = refl
recorded-update connection_failure m = refl
recorded-update successful_connection m = refl
recorded-update (retry_state retrying) m = refl
recorded-update heartbeat m = refl
recorded-update config_reload m = refl
recorded-update parser_restart m = refl
recorded-update worker_restart m = refl

recorded-updates :
    (us : List Update) (m : MetricsTracker) → recorded (updates us m) ≡ all_given us (recorded m)
unfolding updates all_given
recorded-updates [] m = refl
recorded-updates (u ∷ us) m =
    recorded-updates us (update u m) ∙ ap (all_given us) (recorded-update u m)

-- After any calls of its methods, resets included, the tracker shows as its maxima the longest
-- parse time and the longest commit time that the calls since the last reset gave: each is at least
-- every such time and one of them, or 0 if there are none.
pub updates-IsLongest :
    (us : List Update)
    → let m = get_maxima (updates us init_metrics) in
      let times = all_given us (record { parses = []; commits = [] }) in
      IsLongest m.maximum_parse_duration times.parses
      × IsLongest m.maximum_commit_duration times.commits
updates-IsLongest us =
    let (parse_longest, commit_longest) = updates_keep us init_metrics (none_yet, none_yet) in
    let same = recorded-updates us init_metrics in
    (
      subst (IsLongest _) (ap (λ (t : Times). t.parses) same) parse_longest,
      subst (IsLongest _) (ap (λ (t : Times). t.commits) same) commit_longest,
    )
