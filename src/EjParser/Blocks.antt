-- ===== src/EjParser/Blocks.antt =====
-- `_group_blocks` of agent/parsers/ej_parser.py: the blocks hold the lines from the first header on,
-- each block one header line and the lines up to the next, at the place that its start says.
use atm_monitoring_agent.Prelude.{
  ℕ, ◌+◌, ◌≡◌, refl, ap, ◌∙◌, Bool, true, none, some, List, [], ◌∷◌, ◌++◌, map, arith, is_some,
  Option-cases, inl, inr, any,
}
use mathlib.Core.List.{append_assoc, map-append}
use atm_monitoring_agent.ParserModels.{Text, DateTime}
use atm_monitoring_agent.EjParser.Header.{event_header}
use atm_monitoring_agent.EjParser.{Block, line_str, open_block, group_from, group_blocks}

abbrev pub is_header : Text → Bool
is_header line = is_some (event_header line)

-- The lines of the blocks, in order.
abbrev pub lines_of : List Block → List Text
lines_of [] = []
lines_of (b ∷ bs) = b.lines ++ lines_of bs

-- The lines before the first header, and those from it on.
abbrev pub before_header : List Text → List Text
before_header [] = []
before_header (line ∷ lines) = elim (event_header line) [
  | some _ ↦ []
  | none ↦ line ∷ before_header lines
]

abbrev pub from_header : List Text → List Text
from_header [] = []
from_header (line ∷ lines) = elim (event_header line) [
  | some _ ↦ line ∷ lines
  | none ↦ from_header lines
]

lines_of-append : (bs cs : List Block) → lines_of (bs ++ cs) ≡ lines_of bs ++ lines_of cs
lines_of-append [] cs = refl
lines_of-append (b ∷ bs) cs = simp (lines_of-append bs cs, append_assoc)

lines_of-group_from-some :
    (now : ℕ → DateTime) (idx : ℕ) (b : Block) (lines : List Text)
    → lines_of (group_from now idx (some b) lines) ≡ b.lines ++ map line_str lines
unfolding group_from
lines_of-group_from-some now idx b [] = refl
lines_of-group_from-some now idx b (line ∷ lines) =
    elim (Option-cases (event_header (line_str line))) [
      | inl plain ↦
          rw (plain, group_from)
            (lines_of-group_from-some now (idx + 1)
                (record b { lines = b.lines ++ line_str line ∷ [] }) lines
              ∙ append_assoc b.lines (line_str line ∷ []) (map line_str lines))
      | inr (h, header) ↦
          rw (header, group_from)
            (ap (λ ls. b.lines ++ ls)
              (lines_of-group_from-some now (idx + 1) (open_block (now idx) h (line_str line) idx)
                lines))
    ]

lines_of-group_from-none :
    (now : ℕ → DateTime) (idx : ℕ) (lines : List Text)
    → lines_of (group_from now idx none lines) ≡ from_header (map line_str lines)
unfolding group_from
lines_of-group_from-none now idx [] = refl
lines_of-group_from-none now idx (line ∷ lines) =
    elim (Option-cases (event_header (line_str line))) [
      | inl plain ↦
          rw (plain, group_from, from_header) (lines_of-group_from-none now (idx + 1) lines)
      | inr (h, header) ↦
          rw (header, group_from, from_header)
            (lines_of-group_from-some now (idx + 1) (open_block (now idx) h (line_str line) idx)
              lines)
    ]

-- The blocks hold, in order, exactly the lines from the first header on, without their line breaks.
pub lines_of-group_blocks :
    (now : ℕ → DateTime) (lines : List Text)
    → lines_of (group_blocks now lines) ≡ from_header (map line_str lines)
unfolding group_blocks
lines_of-group_blocks now lines = lines_of-group_from-none now 0 lines

from_header-append :
    (xs ys : List Text) → any is_header xs ≡ true → from_header (xs ++ ys) ≡ from_header xs ++ ys
from_header-append [] ys h = cc
from_header-append (x ∷ xs) ys h = ground (arith, from_header-append xs ys)

before-from_header : (xs : List Text) → before_header xs ++ from_header xs ≡ xs
before-from_header [] = refl
before-from_header (x ∷ xs) = ground (arith, before-from_header xs)

-- A journal is read in two scans, the first of which has a header: the lines of the second scan
-- before its first header are in no block, while a single scan of the same lines would have them in
-- the last block of the first part.
pub lines_of-group_blocks_split :
    (now now' now'' : ℕ → DateTime) (xs ys : List Text)
    → any is_header (map line_str xs) ≡ true
    → lines_of (group_blocks now (xs ++ ys))
      ≡ lines_of (group_blocks now' xs)
        ++ (before_header (map line_str ys) ++ lines_of (group_blocks now'' ys))
lines_of-group_blocks_split now now' now'' xs ys h = simp (
  lines_of-group_blocks,
  map-append,
  from_header-append (map line_str xs) (map line_str ys) h,
  before-from_header,
)
