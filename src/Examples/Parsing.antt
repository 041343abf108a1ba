-- ===== src/Examples/Parsing.antt =====
-- The parsers' theorems on a journal of three blocks, of which the third repeats the first.
use atm_monitoring_agent.Prelude.{
  ◌+◌, ◌≡◌, refl, true, List, [], ◌∷◌, map, length, get_elem?, All, any,
}
use atm_monitoring_agent.ParserModels.{Text}
use atm_monitoring_agent.TextOps
use atm_monitoring_agent.TextOps.{text}
use atm_monitoring_agent.TextOps.Pattern
use atm_monitoring_agent.EjParser.{line_str, group_blocks}
use atm_monitoring_agent.EjParser.Header
use atm_monitoring_agent.EjParser.Blocks.{is_header, lines_of, from_header, lines_of-group_blocks}
use atm_monitoring_agent.EjParser.Parse.{parse_lines}
use atm_monitoring_agent.EjParser.Parse.Accounting.{parse_lines-accounted}
use atm_monitoring_agent.EjParser.Parse.Registry.{IsRegistry, parse_lines-IsRegistry}
use atm_monitoring_agent.EjParser.Parse.Keys.{reports, due, reports-parse_lines}
use atm_monitoring_agent.EjParser.Parse.Traced.{
  IsTracedEvent, IsTracedWarning, parse_lines-AreTraced,
}
use atm_monitoring_agent.EjParser.{Block}
use atm_monitoring_agent.EjParser.Parse.{search_text, snaps_of, event_of}
use atm_monitoring_agent.EjParser.Parse.Precedence.{
  last_action, type_of, row_type, supervisor_of, event_of-event_type,
}
use atm_monitoring_agent.EventPatterns.{operational_patterns, find_operational}
use atm_monitoring_agent.Prelude.{get_or}
use atm_monitoring_agent.CassetteParser.{parse_cassettes}
use atm_monitoring_agent.CassetteParser.Table.{
  read_table, empty_table, num_cassettes, table_snapshots,
}
use atm_monitoring_agent.CassetteParser.Inside.{IsInside, parse_cassettes-IsInside}
use atm_monitoring_agent.CassetteParser.Columns.{IsColumns, table_snapshots-IsColumns}
use atm_monitoring_agent.Examples.Data.{clock, header_line, added_lines, journal, journal_name}

abbrev table_lines : List Text
table_lines = text "DENOMINATION  1000 500" ∷ text "REMAINING  40 0" ∷ []

parse_lines-accounted_example :
    ((parse_lines clock journal journal_name).statistics.parsed_events
        + (parse_lines clock journal journal_name).statistics.warnings
        + (parse_lines clock journal journal_name).statistics.duplicates_ignored
        + (parse_lines clock journal journal_name).statistics.ignored_blocks
      ≡ (parse_lines clock journal journal_name).statistics.total_blocks)
    × ((parse_lines clock journal journal_name).statistics.total_blocks
        ≡ length (group_blocks clock journal))
    × ((parse_lines clock journal journal_name).statistics.parsed_events
        ≡ length (parse_lines clock journal journal_name).events)
    × ((parse_lines clock journal journal_name).statistics.warnings
        ≡ length (parse_lines clock journal journal_name).warnings)
parse_lines-accounted_example = parse_lines-accounted clock journal journal_name

reports-parse_lines_example :
    reports
      (12, 65053362600000000)
      (parse_lines clock journal journal_name).events
      (parse_lines clock journal journal_name).warnings
    ≡ due (12, 65053362600000000) (group_blocks clock journal)
reports-parse_lines_example = reports-parse_lines clock journal journal_name (12, 65053362600000000)

parse_lines-AreTraced_example :
    All
      (IsTracedEvent (map line_str journal) journal_name)
      (parse_lines clock journal journal_name).events
    × All
        (IsTracedWarning (map line_str journal) journal_name)
        (parse_lines clock journal journal_name).warnings
parse_lines-AreTraced_example = parse_lines-AreTraced clock journal journal_name

parse_lines-IsRegistry_example :
    IsRegistry
      (length (parse_lines clock journal journal_name).warnings)
      (parse_lines clock journal journal_name).unknown_events_registry
parse_lines-IsRegistry_example = parse_lines-IsRegistry clock journal journal_name

lines_of-group_blocks_example :
    lines_of (group_blocks clock journal) ≡ from_header (map line_str journal)
lines_of-group_blocks_example = lines_of-group_blocks clock journal

headed : any is_header (map line_str (header_line ∷ [])) ≡ true
unfolding line_str Header.event_header Pattern.run1 Pattern.char Pattern.spaces Pattern.digit
    TextOps.rstrip
headed = refl

parse_cassettes-IsInside_example :
    All
      (IsInside journal_name 1 (1 + length added_lines))
      (parse_cassettes (header_line ∷ added_lines) journal_name 1)
parse_cassettes-IsInside_example = parse_cassettes-IsInside header_line added_lines journal_name 1

table_snapshots-IsColumns_example :
    (length (table_snapshots journal_name 1 2 table_lines)
      ≡ num_cassettes (read_table empty_table table_lines))
    × IsColumns
        (read_table empty_table table_lines)
        1
        (get_elem? (table_snapshots journal_name 1 2 table_lines) 1)
table_snapshots-IsColumns_example = table_snapshots-IsColumns journal_name 1 2 table_lines 1

abbrev block : Block
block = record { seq = 12; time = 5; extra = []; lines = header_line ∷ added_lines; start = 0 }

event_of-event_type_example :
    (event_of journal_name block).event_type
    ≡ get_or (last_action (snaps_of journal_name block)) (
        get_or
          (type_of (supervisor_of journal_name block))
          (get_or (row_type (find_operational operational_patterns (search_text block))) "Unknown"))
event_of-event_type_example = event_of-event_type journal_name block
