-- ===== src/Examples/Processing.antt =====
-- The theorems on the processing of events, on a batch of two events for ATM 7.
use atm_monitoring_agent.Prelude.{
  ◌+◌, ◌≤◌, ◌≡◌, refl, true, some, List, [], ◌∷◌, length, any, is_some,
}
use atm_monitoring_agent.ParserModels.{AtmParsedEvent}
use atm_monitoring_agent.Repositories
use atm_monitoring_agent.Repositories.{get_by_atm_id, update_live_status}
use atm_monitoring_agent.LiveStatus.{
  apply_status_updates, c_counts, snapshot_denoms, default_denoms,
}
use atm_monitoring_agent.LiveStatus.Totals.{
  TotalsAgree, apply_status_updates-TotalsAgree, apply_status_updates-CassettesUpdated,
}
use atm_monitoring_agent.Processor.{process_result}
use atm_monitoring_agent.Processor.Accounting.{process_result-accounted}
use atm_monitoring_agent.Processor.Unique.{UniqueEvents, process_result-UniqueEvents}
use atm_monitoring_agent.Processor.Replay.{process_result_again}
use atm_monitoring_agent.Processor.Freshness.{NotBefore, last_time, process_result-NotBefore}
use atm_monitoring_agent.EjParser.{line_str}
use atm_monitoring_agent.EjParser.Header
use atm_monitoring_agent.TextOps
use atm_monitoring_agent.TextOps.Pattern
use atm_monitoring_agent.EjParser.Dated.{AllDated}
use atm_monitoring_agent.EjParser.Parse.{parse_lines}
use atm_monitoring_agent.Scan.Again.{parse_lines_again}
use atm_monitoring_agent.Examples.Data.{
  clock, journal, journal_name, event_a, event_b, snap_a, calm_env, calm_env-IsCalm, status_a,
  used_db,
}

abbrev batch : List AtmParsedEvent
batch = event_a ∷ event_b ∷ []

process_result-accounted_example :
    (length (process_result 7 batch (snap_a ∷ []) (λ i. calm_env) used_db).0.events
        + (process_result 7 batch (snap_a ∷ []) (λ i. calm_env) used_db).1.events_skipped
        + (process_result 7 batch (snap_a ∷ []) (λ i. calm_env) used_db).1.health_logs_written
      ≡ length used_db.events + length batch)
    × (length (process_result 7 batch (snap_a ∷ []) (λ i. calm_env) used_db).0.events
        ≤ length used_db.events
          + (process_result 7 batch (snap_a ∷ []) (λ i. calm_env) used_db).1.events_inserted)
process_result-accounted_example =
    process_result-accounted 7 batch (snap_a ∷ []) (λ i. calm_env) used_db

process_result-UniqueEvents_example :
    UniqueEvents (process_result 7 batch (snap_a ∷ []) (λ i. calm_env) used_db).0.events
process_result-UniqueEvents_example =
    process_result-UniqueEvents 7 batch (snap_a ∷ []) (λ i. calm_env) used_db (refl, tt)

process_result-NotBefore_example :
    NotBefore
      (last_time used_db 7)
      (last_time (process_result 7 batch (snap_a ∷ []) (λ i. calm_env) used_db).0 7)
process_result-NotBefore_example =
    process_result-NotBefore 7 batch (snap_a ∷ []) (λ i. calm_env) used_db (λ k j. refl)

process_result_again_example :
    ((process_result 7 batch (snap_a ∷ []) (λ i. calm_env) used_db).1.health_logs_written ≡ 0)
    × ((process_result 7 batch
          (snap_a ∷ [])
          (λ i. calm_env)
          (process_result 7 batch (snap_a ∷ []) (λ i. calm_env) used_db).0).0.events
        ≡ (process_result 7 batch (snap_a ∷ []) (λ i. calm_env) used_db).0.events)
    × ((process_result 7 batch
          (snap_a ∷ [])
          (λ i. calm_env)
          (process_result 7 batch (snap_a ∷ []) (λ i. calm_env) used_db).0).0.history
        ≡ (process_result 7 batch (snap_a ∷ []) (λ i. calm_env) used_db).0.history)
    × ((process_result 7 batch
          (snap_a ∷ [])
          (λ i. calm_env)
          (process_result 7 batch (snap_a ∷ []) (λ i. calm_env) used_db).0).0.live
        ≡ (process_result 7 batch (snap_a ∷ []) (λ i. calm_env) used_db).0.live)
process_result_again_example =
    process_result_again 7 batch (snap_a ∷ []) (λ i. calm_env) (λ i. calm_env) used_db
      (refl, (refl, tt)) (λ i. calm_env-IsCalm)

journal-AllDated : AllDated journal
unfolding line_str Header.event_header Header.is_datetime TextOps.rstrip TextOps.is_digit
    TextOps.int Pattern.run1 Pattern.run Pattern.char Pattern.spaces Pattern.digit
journal-AllDated = (refl, (refl, (refl, (refl, (refl, (refl, tt))))))

parse_lines_again_example :
    let result = parse_lines clock journal journal_name in
    let (first, stats) =
      process_result 7 result.events result.cassette_snapshots (λ i. calm_env) used_db in
    let reparsed = parse_lines (λ i. 0) journal journal_name in
    let (second, _) =
      process_result 7 reparsed.events reparsed.cassette_snapshots (λ i. calm_env) first in
    (stats.health_logs_written ≡ 0)
    × (second.events ≡ first.events)
    × (second.history ≡ first.history)
    × (second.live ≡ first.live)
parse_lines_again_example =
    parse_lines_again clock (λ i. 0) journal journal_name 7 (λ i. calm_env) (λ i. calm_env) used_db
      journal-AllDated (λ i. calm_env-IsCalm)

found : get_by_atm_id used_db 7 ≡ some status_a
unfolding get_by_atm_id Repositories.find_live
found = refl

counted : any is_some (c_counts (apply_status_updates status_a event_a (snap_a ∷ []) 1000)) ≡ true
counted = rw (apply_status_updates-CassettesUpdated status_a event_a (snap_a ∷ []) 1000).notes1 refl

apply_status_updates-TotalsAgree_example :
    TotalsAgree
      (snapshot_denoms default_denoms (snap_a ∷ []))
      (apply_status_updates status_a event_a (snap_a ∷ []) 1000)
apply_status_updates-TotalsAgree_example =
    apply_status_updates-TotalsAgree status_a event_a (snap_a ∷ []) 1000 counted
