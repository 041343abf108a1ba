-- ===== src/EjParser.antt =====
-- `EJParser._group_blocks` of agent/parsers/ej_parser.py: the lines of a scan, cut at the headers.
pub mod Header
pub mod Blocks
pub mod Places
pub mod Primary
pub mod Parse
pub mod Dated
use atm_monitoring_agent.Prelude.{
  ℕ, ◌+◌, Bool, true, false, ◌||◌, Option, none, some, List, [], ◌∷◌, ◌++◌, ◌==◌,
}
use atm_monitoring_agent.ParserModels.{Text, DateTime}
use atm_monitoring_agent.TextOps.{rstrip, newline}
use Header.{EventHeader, event_header, parse_ncr_datetime}

pub record Block : Type 0 where
  pub seq : ℕ
  pub time : DateTime
  pub extra : Text
  pub lines : List Text
  pub start : ℕ

abbrev is_line_break : ℕ → Bool
is_line_break c = c == newline || c == 13

-- `line.rstrip('\r\n')`
unfoldable pub line_str : Text → Text
line_str line = rstrip is_line_break line

-- `blocks.append(…)`, if a block is open
abbrev pub close_block : Option Block → List Block
close_block none = []
close_block (some b) = b ∷ []

abbrev pub open_block : DateTime → EventHeader → Text → ℕ → Block
open_block now h line idx = record {
  seq = h.seq;
  time = parse_ncr_datetime now h;
  extra = h.extra;
  lines = line ∷ [];
  start = idx;
}

abbrev pub add_line : Text → Option Block → Option Block
add_line line none = none
add_line line (some b) = some (record b { lines = b.lines ++ line ∷ [] })

-- The loop. `now idx` is what the clock reads when the line `idx` is met with an invalid date. The
-- blocks that are closed are given in order, the open one is the argument.
pub group_from : (ℕ → DateTime) → ℕ → Option Block → List Text → List Block
group_from now idx current [] = close_block current
group_from now idx current (line ∷ lines) = elim (event_header (line_str line)) [
  | some h ↦
      close_block current
      ++ group_from now (idx + 1) (some (open_block (now idx) h (line_str line) idx)) lines
  | none ↦ group_from now (idx + 1) (add_line (line_str line) current) lines
]

pub group_blocks : (ℕ → DateTime) → List Text → List Block
unfolding group_from
group_blocks now lines = group_from now 0 none lines
