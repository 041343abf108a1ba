-- ===== src/EjParser/Parse/Accounting.antt =====
-- `parse_lines` of agent/parsers/ej_parser.py: every block is counted once.
use atm_monitoring_agent.Prelude.{ℕ, ◌+◌, ◌≡◌, List, [], ◌∷◌, length, length-snoc, arith, refl, ◌∙◌}
use atm_monitoring_agent.ParserModels.{Text, DateTime}
use atm_monitoring_agent.EjParser.{Block, group_blocks}
use atm_monitoring_agent.EjParser.Parse.{
  Parsing, no_parsing, parse_block, parse_blocks, compile, parse_lines,
}
use atm_monitoring_agent.EjParser.Parse.Step.{
  ParseStep, duplicate_block, ignored_block, known_block, unknown_block, parse_block_lem,
}

abbrev tally : Parsing → ℕ
tally p = length p.events + length p.warnings + p.duplicates_count + p.ignored_count

tally-ParseStep :
    (file : Text) (p q : Parsing) (b : Block) → ParseStep file p b q → tally q ≡ tally p + 1
tally-ParseStep file p _ b (duplicate_block h) = omega arith
tally-ParseStep file p _ b (ignored_block h i) = omega arith
tally-ParseStep file p _ b (known_block h i m) = simp length-snoc (omega arith)
tally-ParseStep file p _ b (unknown_block h i m) = simp length-snoc (omega arith)

tally-parse_blocks :
    (file : Text) (p : Parsing) (blocks : List Block)
    → tally (parse_blocks file p blocks) ≡ tally p + length blocks
unfolding parse_blocks
tally-parse_blocks file p [] = omega arith
tally-parse_blocks file p (b ∷ blocks) =
    let e = tally-ParseStep file p (parse_block file p b) b (parse_block_lem file p b) in
    let f = tally-parse_blocks file (parse_block file p b) blocks in omega arith

-- The statistics of a parse account for every block of the text: each is an event, a warning, a
-- duplicate or ignored, and the counts of events and warnings are the lengths of the lists given.
pub parse_lines-accounted :
    (now : ℕ → DateTime) (lines : List Text) (file : Text)
    → let r = parse_lines now lines file in
      let s = r.statistics in
      (s.parsed_events + s.warnings + s.duplicates_ignored + s.ignored_blocks ≡ s.total_blocks)
      × (s.total_blocks ≡ length (group_blocks now lines))
      × (s.parsed_events ≡ length r.events)
      × (s.warnings ≡ length r.warnings)
unfolding parse_lines compile
parse_lines-accounted now lines file =
    (tally-parse_blocks file no_parsing (group_blocks now lines) ∙ omega arith, refl, refl, refl)
