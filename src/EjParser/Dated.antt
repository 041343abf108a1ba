-- ===== src/EjParser/Dated.antt =====
-- agent/parsers/ej_parser.py: lines whose headers have valid dates are parsed without the clock.
use atm_monitoring_agent.Prelude.{
  ℕ, ◌+◌, ◌≡◌, refl, ap, ◌∙◌, inl, inr, Bool, true, All, Option, none, some, List, [], ◌∷◌, ◌++◌,
  Option-cases,
}
use atm_monitoring_agent.ParserModels.{Text, DateTime}
use atm_monitoring_agent.EjParser.{
  Block, line_str, close_block, open_block, add_line, group_from, group_blocks,
}
use atm_monitoring_agent.EjParser.Header.{
  EventHeader, event_header, is_datetime, parse_ncr_datetime,
}
use atm_monitoring_agent.EjParser.Parse.{parse_lines}

-- A line that is a header has a valid date.
abbrev pub has_date : Option EventHeader → Bool
has_date none = true
has_date (some h) = is_datetime h

abbrev pub AllDated : List Text → Type 0
AllDated = All (λ line. has_date (event_header (line_str line)) ≡ true)

open_block-dated :
    (now later : DateTime) (h : EventHeader) (line : Text) (idx : ℕ)
    → is_datetime h ≡ true
    → open_block later h line idx ≡ open_block now h line idx
unfolding parse_ncr_datetime
open_block-dated now later h line idx valid = rw valid refl

group_from-dated :
    (now later : ℕ → DateTime) (idx : ℕ) (current : Option Block) (lines : List Text)
    → AllDated lines
    → group_from later idx current lines ≡ group_from now idx current lines
unfolding group_from
group_from-dated now later idx current [] d = refl
group_from-dated now later idx current (line ∷ lines) d =
    elim (Option-cases (event_header (line_str line))) [
      | inl plain ↦
          rw (plain, group_from)
            (group_from-dated now later (idx + 1) (add_line (line_str line) current) lines d.1)
      | inr (h, found) ↦
          let valid : is_datetime h ≡ true = rw found at d.0 in
          let opened = open_block-dated (now idx) (later idx) h (line_str line) idx valid in
          rw (found, group_from)
            (ap (λ (b : Block). close_block current ++ group_from later (idx + 1) (some b) lines)
                opened
              ∙ ap (◌++◌ (close_block current)) (
                  group_from-dated now later (idx + 1)
                    (some (open_block (now idx) h (line_str line) idx)) lines d.1))
    ]

pub parse_lines-dated :
    (now later : ℕ → DateTime) (lines : List Text) (file : Text)
    → AllDated lines
    → parse_lines later lines file ≡ parse_lines now lines file
unfolding parse_lines group_blocks
parse_lines-dated now later lines file d = rw (group_from-dated now later 0 none lines d) refl
