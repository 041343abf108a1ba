-- ===== src/EjParser/Parse/Traced.antt =====
-- `parse_lines` of agent/parsers/ej_parser.py: where in the journal its events and warnings come from.
use atm_monitoring_agent.Prelude.{
  ℕ, ◌+◌, ◌-◌, ◌≡◌, List, [], ◌∷◌, ◌++◌, map, length, arith, refl, ap, ◌∙◌, All, All-append, Option,
  some, any, false,
}
use atm_monitoring_agent.ParserModels.{Text, DateTime, AtmParsedEvent, ParserWarning}
use atm_monitoring_agent.TextOps.{join, newline}
use atm_monitoring_agent.EjParser.{Block, line_str, group_blocks}
use atm_monitoring_agent.EjParser.Header.{EventHeader, event_header}
use atm_monitoring_agent.EjParser.Blocks.{is_header}
use atm_monitoring_agent.EjParser.Places.{IsPlaced, group_blocks-IsPlaced}
use atm_monitoring_agent.EjParser.Primary.{primary_event}
use atm_monitoring_agent.EjParser.Parse.{
  Parsing, no_parsing, event_of, unknown_warning, parse_block, parse_blocks, compile, parse_lines,
}
use atm_monitoring_agent.EjParser.Parse.Step.{
  ParseStep, duplicate_block, ignored_block, known_block, unknown_block, parse_block_lem,
}

-- A report with this text and these line numbers, of a journal of the lines `all`: the text is a
-- header line and the lines behind it up to its last one, and the lines are counted from 1.
pub record IsTraced (all : List Text) (file name : Text) (raw : Text) (first last : ℕ)
    (seq : Option ℕ) : Type 0 where
  pub before : List Text
  pub header : Text
  pub body : List Text
  pub behind : List Text
  pub found : EventHeader
  pub all_lem : all ≡ before ++ ((header ∷ body) ++ behind)
  pub raw_lem : raw ≡ join newline (header ∷ body)
  pub header_lem : event_header header ≡ some found
  pub seq_lem : seq ≡ some found.seq
  pub body_lem : any is_header body ≡ false
  pub first_lem : first ≡ length before + 1
  pub last_lem : last ≡ length before + length (header ∷ body)
  pub file_lem : name ≡ file

abbrev pub IsTracedEvent : List Text → Text → AtmParsedEvent → Type 0
IsTracedEvent all file e =
    IsTraced all file e.source_file_name e.raw_event e.start_line_number e.end_line_number
      e.event_sequence_number

abbrev pub IsTracedWarning : List Text → Text → ParserWarning → Type 0
IsTracedWarning all file w =
    IsTraced all file w.source_file_name w.raw_event w.start_line_number w.end_line_number
      w.sequence_number

module _ (all : List Text) (file : Text) where
  block-IsTraced :
      (b : Block)
      → IsPlaced all b
      → IsTraced all file file
          (join newline b.lines)
          (b.start + 1)
          (b.start + 1 + length b.lines - 1)
          (some b.seq)
  block-IsTraced b p =
      let e = p.start_lem in
      let f = p.headed.lines_lem in
      record {
        before = p.before;
        header = p.headed.first;
        body = p.headed.rest;
        behind = p.behind;
        found = p.headed.header;
        all_lem = p.all_lem ∙ ap (λ l. p.before ++ (l ++ p.behind)) f;
        raw_lem = rw f refl;
        header_lem = p.headed.first_lem;
        seq_lem = rw p.headed.seq_lem refl;
        body_lem = p.headed.rest_lem;
        first_lem = omega arith;
        last_lem = rw f (omega arith);
        file_lem = refl;
      }

  event_of-IsTraced : (b : Block) → IsPlaced all b → IsTracedEvent all file (event_of file b)
  unfolding event_of primary_event
  event_of-IsTraced b p = block-IsTraced b p

  unknown_warning-IsTraced :
      (b : Block) → IsPlaced all b → IsTracedWarning all file (unknown_warning file b)
  unfolding unknown_warning
  unknown_warning-IsTraced b p = block-IsTraced b p

  abbrev AreTraced : Parsing → Type 0
  AreTraced p = All (IsTracedEvent all file) p.events × All (IsTracedWarning all file) p.warnings

  ParseStep-AreTraced :
      (p q : Parsing) (b : Block)
      → ParseStep file p b q
      → IsPlaced all b
      → AreTraced p
      → AreTraced q
  ParseStep-AreTraced p _ b (duplicate_block h) pl t = t
  ParseStep-AreTraced p _ b (ignored_block h i) pl t = t
  ParseStep-AreTraced p _ b (known_block h i m) pl t =
      (All-append (IsTracedEvent all file) p.events _ t.0 (event_of-IsTraced b pl, tt), t.1)
  ParseStep-AreTraced p _ b (unknown_block h i m) pl t = (
    t.0,
    All-append (IsTracedWarning all file) p.warnings _ t.1 (unknown_warning-IsTraced b pl, tt),
  )

  parse_blocks-AreTraced :
      (p : Parsing) (blocks : List Block)
      → All (IsPlaced all) blocks
      → AreTraced p
      → AreTraced (parse_blocks file p blocks)
  unfolding parse_blocks
  parse_blocks-AreTraced p [] pl t = t
  parse_blocks-AreTraced p (b ∷ blocks) pl t =
      parse_blocks-AreTraced (parse_block file p b) blocks pl.1
        (ParseStep-AreTraced p (parse_block file p b) b (parse_block_lem file p b) pl.0 t)

-- Every event and every warning of a parse names the file and can be found in the journal by its line
-- numbers: its raw text is the lines from its first to its last number, joined, of which the first is
-- a header with its sequence number and no other is a header.
pub parse_lines-AreTraced :
    (now : ℕ → DateTime) (lines : List Text) (file : Text)
    → All (IsTracedEvent (map line_str lines) file) (parse_lines now lines file).events
      × All (IsTracedWarning (map line_str lines) file) (parse_lines now lines file).warnings
unfolding parse_lines compile
parse_lines-AreTraced now lines file =
    parse_blocks-AreTraced (map line_str lines) file no_parsing (group_blocks now lines)
      (group_blocks-IsPlaced now lines) (tt, tt)
