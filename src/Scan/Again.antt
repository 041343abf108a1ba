-- ===== src/Scan/Again.antt =====
-- A journal that agent/parsers/ej_parser.py parses and agent/services/event_processor_service.py
-- processes more than once, as after a retry or a reset of the offset.
use atm_monitoring_agent.Prelude.{ℕ, ◌≡◌, List, [], ◌∷◌, ap, All, is_some, map}
use atm_monitoring_agent.ParserModels.{Text, DateTime, AtmParsedEvent}
use atm_monitoring_agent.Database.{Db}
use atm_monitoring_agent.EjParser.{line_str}
use atm_monitoring_agent.EjParser.Dated.{AllDated, parse_lines-dated}
use atm_monitoring_agent.EjParser.Parse.{parse_lines}
use atm_monitoring_agent.EjParser.Parse.Traced.{IsTracedEvent, parse_lines-AreTraced}
use atm_monitoring_agent.Processor.{process_result}
use atm_monitoring_agent.Processor.Storing.{EventEnv}
use atm_monitoring_agent.Processor.Calm.{IsCalm}
use atm_monitoring_agent.Processor.Replay.{HasNumber, process_result_again}

HasNumber-of_traced :
    (all : List Text) (file : Text) (events : List AtmParsedEvent)
    → All (IsTracedEvent all file) events
    → All HasNumber events
HasNumber-of_traced all file [] t = tt
HasNumber-of_traced all file (e ∷ events) (t, ts) =
    (ap is_some t.seq_lem, HasNumber-of_traced all file events ts)

-- Lines whose headers have valid dates are parsed and processed without failures and disturbances, and
-- then parsed and processed once more, whatever the clock reads and the server does the second time: no
-- failure is logged the first time, and the second time leaves the events, the snapshots and the live
-- status as they are.
pub parse_lines_again :
    (now later : ℕ → DateTime) (lines : List Text) (file : Text) (atm_id : ℕ)
    (envs again : ℕ → EventEnv) (db : Db)
    → AllDated lines
    → ((i : ℕ) → IsCalm (envs i))
    → let result = parse_lines now lines file in
      let (first, stats) = process_result atm_id result.events result.cassette_snapshots envs db in
      let reparsed = parse_lines later lines file in
      let (second, _) =
        process_result atm_id reparsed.events reparsed.cassette_snapshots again first in
      (stats.health_logs_written ≡ 0)
      × (second.events ≡ first.events)
      × (second.history ≡ first.history)
      × (second.live ≡ first.live)
parse_lines_again now later lines file atm_id envs again db dated calm =
    let result = parse_lines now lines file in
    rw (parse_lines-dated now later lines file dated) (
      process_result_again atm_id result.events result.cassette_snapshots envs again db
        (HasNumber-of_traced (map line_str lines) file result.events
          (parse_lines-AreTraced now lines file).0)
        calm)
