-- ===== src/EjParser/Places.antt =====
-- `_group_blocks` of agent/parsers/ej_parser.py: what each block is made of, and where it stands.
use mathlib.Core.List.{append_assoc}
use atm_monitoring_agent.Prelude.{
  ℕ, ◌+◌, ◌≡◌, refl, ap, ◌∙◌, false, Option, none, some, List, [], ◌∷◌, ◌++◌, map, arith,
  Option-cases, inl, inr, length, length-append, All, All-append, any,
}
use atm_monitoring_agent.ParserModels.{Text, DateTime}
use atm_monitoring_agent.EjParser.Header.{EventHeader, event_header}
use atm_monitoring_agent.EjParser.Blocks.{is_header}
use atm_monitoring_agent.EjParser.{
  Block, line_str, close_block, open_block, add_line, group_from, group_blocks,
}

-- A block of a header line and further lines that are none, with the number and the rest of the
-- line that the header captures.
pub record IsHeaded (b : Block) : Type 0 where
  pub header : EventHeader
  pub first : Text
  pub rest : List Text
  pub lines_lem : b.lines ≡ first ∷ rest
  pub first_lem : event_header first ≡ some header
  pub seq_lem : b.seq ≡ header.seq
  pub extra_lem : b.extra ≡ header.extra
  pub rest_lem : any is_header rest ≡ false

-- The lines of the block stand in the text behind as many lines as its start says.
pub record IsPlaced (all : List Text) (b : Block) : Type 0 where
  pub headed : IsHeaded b
  pub before : List Text
  pub behind : List Text
  pub all_lem : all ≡ before ++ (b.lines ++ behind)
  pub start_lem : length before ≡ b.start

-- the open block ends the lines that were read
record IsCurrent (read : List Text) (b : Block) : Type 0 where
  headed : IsHeaded b
  before : List Text
  read_lem : read ≡ before ++ b.lines
  start_lem : length before ≡ b.start

abbrev IsOpen : List Text → Option Block → Type 0
IsOpen read none = Unit
IsOpen read (some b) = IsCurrent read b

any-append :
    (xs ys : List Text)
    → any is_header xs ≡ false
    → any is_header ys ≡ false
    → any is_header (xs ++ ys) ≡ false
any-append [] ys h k = k
any-append (x ∷ xs) ys h k = ground (arith, any-append xs ys)

close_block-IsPlaced :
    (read behind : List Text) (current : Option Block)
    → IsOpen read current
    → All (IsPlaced (read ++ behind)) (close_block current)
close_block-IsPlaced read behind none h = tt
close_block-IsPlaced read behind (some b) h = (
  record {
    headed = h.headed;
    before = h.before;
    behind = behind;
    all_lem = ap (λ r. r ++ behind) h.read_lem ∙ append_assoc h.before b.lines behind;
    start_lem = h.start_lem;
  },
  tt,
)

add_line-IsOpen :
    (read : List Text) (line : Text) (current : Option Block)
    → event_header line ≡ none
    → IsOpen read current
    → IsOpen (read ++ line ∷ []) (add_line line current)
add_line-IsOpen read line none plain h = tt
add_line-IsOpen read line (some b) plain h = record {
  headed = record {
    header = h.headed.header;
    first = h.headed.first;
    rest = h.headed.rest ++ line ∷ [];
    lines_lem = ap (λ ls. ls ++ line ∷ []) h.headed.lines_lem;
    first_lem = h.headed.first_lem;
    seq_lem = h.headed.seq_lem;
    extra_lem = h.headed.extra_lem;
    rest_lem = any-append h.headed.rest (line ∷ []) h.headed.rest_lem (ground arith);
  };
  before = h.before;
  read_lem = ap (λ r. r ++ line ∷ []) h.read_lem ∙ append_assoc h.before b.lines (line ∷ []);
  start_lem = h.start_lem;
}

open_block-IsOpen :
    (now : DateTime) (read : List Text) (line : Text) (header : EventHeader)
    → event_header line ≡ some header
    → IsOpen (read ++ line ∷ []) (some (open_block now header line (length read)))
open_block-IsOpen now read line header e = record {
  headed = record {
    header = header;
    first = line;
    rest = [];
    lines_lem = refl;
    first_lem = e;
    seq_lem = refl;
    extra_lem = refl;
    rest_lem = refl;
  };
  before = read;
  read_lem = refl;
  start_lem = refl;
}

group_from-IsPlaced :
    (now : ℕ → DateTime) (read lines : List Text) (current : Option Block) (idx : ℕ)
    → length read ≡ idx
    → IsOpen read current
    → All (IsPlaced (read ++ map line_str lines)) (group_from now idx current lines)
unfolding group_from
group_from-IsPlaced now read [] current idx e h = close_block-IsPlaced read [] current h
group_from-IsPlaced now read (line ∷ lines) current idx e h =
    let s = line_str line in
    let all = append_assoc read (s ∷ []) (map line_str lines) in
    let next : length (read ++ s ∷ []) ≡ idx + 1 = omega (arith, length-append read (s ∷ [])) in
    elim (Option-cases (event_header s)) [
      | inl plain ↦
          rw (plain, group_from, ← all)
            (group_from-IsPlaced now (read ++ s ∷ []) lines (add_line s current) (idx + 1) next
              (add_line-IsOpen read s current plain h))
      | inr (header, found) ↦
          rw (found, group_from)
            (All-append (IsPlaced (read ++ s ∷ map line_str lines)) (close_block current) _
              (close_block-IsPlaced read (s ∷ map line_str lines) current h)
              (rw (← all) (
                group_from-IsPlaced now (read ++ s ∷ []) lines
                  (some (open_block (now idx) header s idx)) (idx + 1) next
                  (rw (← e) (open_block-IsOpen (now (length read)) read s header found)))))
    ]

-- Every block begins with a header line, has the number and the text that the header captures, holds
-- no second header, and stands in the lines of the scan, without their line breaks, behind exactly
-- as many lines as its start index says.
pub group_blocks-IsPlaced :
    (now : ℕ → DateTime) (lines : List Text)
    → All (IsPlaced (map line_str lines)) (group_blocks now lines)
unfolding group_blocks
group_blocks-IsPlaced now lines = group_from-IsPlaced now [] lines none 0 refl tt
