-- ===== src/EjParser/Parse/Step.antt =====
-- The body of the loop of `parse_lines` of agent/parsers/ej_parser.py as a step relation: what it can
-- do with a block, and the rule that a property kept by each step is kept by the loop.
use atm_monitoring_agent.Prelude.{
  ◌+◌, ◌≡◌, Bool, true, false, List, [], ◌∷◌, any, Bool-cases, inl, inr,
}
use atm_monitoring_agent.ParserModels.{Text}
use atm_monitoring_agent.EventPatterns.{is_ignored}
use atm_monitoring_agent.EjParser.{Block}
use atm_monitoring_agent.EjParser.Parse.{
  Parsing, block_key, is_key, search_text, is_matched, add_seen, add_event, add_warning,
  parse_block, parse_blocks,
}

abbrev pub is_seen : Parsing → Block → Bool
is_seen p b = any (is_key (block_key b)) p.seen_blocks

pub data ParseStep (file : Text) (p : Parsing) (b : Block) : Parsing → Type 0 where
  duplicate_block :
      is_seen p b ≡ true
      → ParseStep file p b (record p { duplicates_count = p.duplicates_count + 1 })
  ignored_block :
      is_seen p b ≡ false
      → is_ignored (search_text b) ≡ true
      → ParseStep file p b (record (add_seen p b) { ignored_count = p.ignored_count + 1 })
  known_block :
      is_seen p b ≡ false
      → is_ignored (search_text b) ≡ false
      → is_matched file b ≡ true
      → ParseStep file p b (add_event file (add_seen p b) b)
  unknown_block :
      is_seen p b ≡ false
      → is_ignored (search_text b) ≡ false
      → is_matched file b ≡ false
      → ParseStep file p b (add_warning file (add_seen p b) b)

pub parse_block_lem :
    (file : Text) (p : Parsing) (b : Block) → ParseStep file p b (parse_block file p b)
unfolding parse_block
parse_block_lem file p b = elim (Bool-cases (is_seen p b)) [
  | inl h ↦ rw (h, parse_block) (duplicate_block h)
  | inr h ↦
      rw (h, parse_block)
        (elim (Bool-cases (is_ignored (search_text b))) [
          | inl i ↦ rw (i, parse_block) (ignored_block h i)
          | inr i ↦
              rw (i, parse_block)
                (elim (Bool-cases (is_matched file b)) [
                  | inl m ↦ rw (m, parse_block) (known_block h i m)
                  | inr m ↦ rw (m, parse_block) (unknown_block h i m)
                ])
        ])
]

pub parse_blocks_lem :
    (P : Parsing → Type 0) (file : Text)
    → ((p q : Parsing) (b : Block) → ParseStep file p b q → P p → P q)
    → (p : Parsing) (blocks : List Block) → P p
    → P (parse_blocks file p blocks)
unfolding parse_blocks
parse_blocks_lem P file keeps p [] h = h
parse_blocks_lem P file keeps p (b ∷ blocks) h =
    parse_blocks_lem P file keeps (parse_block file p b) blocks
      (keeps p (parse_block file p b) b (parse_block_lem file p b) h)
