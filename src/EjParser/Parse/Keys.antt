-- ===== src/EjParser/Parse/Keys.antt =====
-- `parse_lines` of agent/parsers/ej_parser.py: which blocks are reported, by the key of a block, its
-- sequence number and its time.
use atm_monitoring_agent.Prelude.{
  ℕ, ◌+◌, ◌≡◌, Bool, true, false, ◌&&◌, ◌==◌, Option, none, some, List, [], ◌∷◌, ◌++◌, arith, refl,
  ◌∙◌, any, if◌then◌else◌, Bool-cases, inl, inr,
}
use atm_monitoring_agent.ParserModels.{Text, DateTime, AtmParsedEvent, ParserWarning}
use atm_monitoring_agent.EventPatterns.{is_ignored}
use atm_monitoring_agent.EjParser.{Block, group_blocks}
use atm_monitoring_agent.EjParser.Primary.{primary_event}
use atm_monitoring_agent.EjParser.Parse.{
  Parsing, no_parsing, block_key, is_key, search_text, count_if, event_of, unknown_warning,
  parse_block, parse_blocks, compile, parse_lines, add_event, add_warning, add_seen,
}
use atm_monitoring_agent.EjParser.Parse.Step.{
  ParseStep, duplicate_block, ignored_block, known_block, unknown_block, parse_block_lem,
}

abbrev pub has_seq : ℕ → Option ℕ → Bool
has_seq n none = false
has_seq n (some m) = n == m

abbrev has_time : DateTime → Option DateTime → Bool
has_time n none = false
has_time n (some m) = n == m

abbrev pub event_has : ℕ × DateTime → AtmParsedEvent → Bool
event_has k e = has_seq k.0 e.event_sequence_number && k.1 == e.event_time

abbrev pub warning_has : ℕ × DateTime → ParserWarning → Bool
warning_has k w = has_seq k.0 w.sequence_number && has_time k.1 w.event_time

-- how many events and warnings have the key
abbrev pub reports : ℕ × DateTime → List AtmParsedEvent → List ParserWarning → ℕ
reports k events warnings = count_if (event_has k) events + count_if (warning_has k) warnings

-- What is due for a key: a report if the first block with the key is none of the ignored ones.
abbrev pub due : ℕ × DateTime → List Block → ℕ
due k [] = 0
due k (b ∷ blocks) =
    if is_key k (block_key b) then (if is_ignored (search_text b) then 0 else 1) else due k blocks

is_key-eq : (k j : ℕ × DateTime) → is_key k j ≡ true → k ≡ j
is_key-eq (a, b) (c, d) h =
    let e : a ≡ c = ground arith in let f : b ≡ d = ground arith in rw (e, f) refl

count_if-snoc {ℓ} :
    {A : Type ℓ} (p : A → Bool) (xs : List A) (x : A)
    → count_if p (xs ++ x ∷ []) ≡ count_if p xs + (if p x then 1 else 0)
unfolding count_if
count_if-snoc p [] x = ground arith
count_if-snoc p (y ∷ xs) x = ground (arith, count_if-snoc p xs x)

abbrev tally : ℕ × DateTime → Parsing → ℕ
tally k p = reports k p.events p.warnings

abbrev left_over : ℕ × DateTime → Parsing → List Block → ℕ
left_over k p blocks = if any (is_key k) p.seen_blocks then 0 else due k blocks

event_has-event_of :
    (k : ℕ × DateTime) (file : Text) (b : Block)
    → event_has k (event_of file b) ≡ is_key k (block_key b)
unfolding event_of primary_event
event_has-event_of k file b = refl

warning_has-unknown_warning :
    (k : ℕ × DateTime) (file : Text) (b : Block)
    → warning_has k (unknown_warning file b) ≡ is_key k (block_key b)
unfolding unknown_warning
warning_has-unknown_warning k file b = refl

tally-add_event :
    (k : ℕ × DateTime) (file : Text) (p : Parsing) (b : Block)
    → tally k (add_event file p b) ≡ tally k p + (if is_key k (block_key b) then 1 else 0)
tally-add_event k file p b = simp (count_if-snoc, event_has-event_of) (omega arith)

tally-add_warning :
    (k : ℕ × DateTime) (file : Text) (p : Parsing) (b : Block)
    → tally k (add_warning file p b) ≡ tally k p + (if is_key k (block_key b) then 1 else 0)
tally-add_warning k file p b = simp (count_if-snoc, warning_has-unknown_warning) (omega arith)

seen_before :
    (k : ℕ × DateTime) (p : Parsing) (b : Block) (blocks : List Block)
    → any (is_key (block_key b)) p.seen_blocks ≡ true
    → left_over k p blocks ≡ left_over k p (b ∷ blocks)
seen_before k p b blocks h = elim (Bool-cases (is_key k (block_key b))) [
  | inl e ↦
      let f : any (is_key k) p.seen_blocks ≡ true = rw (is_key-eq k (block_key b) e) h in rw f refl
  | inr e ↦ rw e refl
]

seen_now :
    (k : ℕ × DateTime) (p : Parsing) (b : Block) (blocks : List Block)
    → any (is_key (block_key b)) p.seen_blocks ≡ false
    → left_over k (add_seen p b) blocks
        + (if is_key k (block_key b) then (if is_ignored (search_text b) then 0 else 1) else 0)
      ≡ left_over k p (b ∷ blocks)
seen_now k p b blocks h = elim (Bool-cases (is_key k (block_key b))) [
  | inl e ↦
      let f : any (is_key k) p.seen_blocks ≡ false = rw (is_key-eq k (block_key b) e) h in
      rw (f, e) (omega arith)
  | inr e ↦ rw e (omega arith)
]

tally-ParseStep :
    (k : ℕ × DateTime) (file : Text) (p q : Parsing) (b : Block) (blocks : List Block)
    → ParseStep file p b q
    → tally k q + left_over k q blocks ≡ tally k p + left_over k p (b ∷ blocks)
tally-ParseStep k file p _ b blocks (duplicate_block h) =
    let e = seen_before k p b blocks h in omega arith
tally-ParseStep k file p _ b blocks (ignored_block h i) =
    let e = seen_now k p b blocks h in ground (arith, e, i)
tally-ParseStep k file p _ b blocks (known_block h i m) =
    let e = seen_now k p b blocks h in let f = tally-add_event k file p b in ground (arith, e, f, i)
tally-ParseStep k file p _ b blocks (unknown_block h i m) =
    let e = seen_now k p b blocks h in
    let f = tally-add_warning k file p b in ground (arith, e, f, i)

tally-parse_blocks :
    (k : ℕ × DateTime) (file : Text) (p : Parsing) (blocks : List Block)
    → tally k (parse_blocks file p blocks) ≡ tally k p + left_over k p blocks
unfolding parse_blocks
tally-parse_blocks k file p [] = ground arith
tally-parse_blocks k file p (b ∷ blocks) =
    tally-parse_blocks k file (parse_block file p b) blocks
    ∙ tally-ParseStep k file p (parse_block file p b) b blocks (parse_block_lem file p b)

-- For every pair of a sequence number and a time, a parse reports, as events and warnings together,
-- exactly one block with that key if the first such block of the text does not match an ignore
-- pattern, and none if it does or if no block has the key. No block that is not ignored is lost, and
-- no key is reported twice.
pub reports-parse_lines :
    (now : ℕ → DateTime) (lines : List Text) (file : Text) (k : ℕ × DateTime)
    → reports k (parse_lines now lines file).events (parse_lines now lines file).warnings
      ≡ due k (group_blocks now lines)
unfolding parse_lines compile count_if
reports-parse_lines now lines file k =
    tally-parse_blocks k file no_parsing (group_blocks now lines) ∙ omega arith
