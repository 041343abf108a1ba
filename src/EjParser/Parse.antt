-- ===== src/EjParser/Parse.antt =====
-- `EJParser.parse_lines` of agent/parsers/ej_parser.py. The measured duration is left out.
pub mod Step
pub mod Accounting
pub mod Registry
pub mod Keys
pub mod Traced
pub mod Precedence
use Prim.Native.String.{◌++◌ as str_append}
use atm_monitoring_agent.Prelude.{
  ℕ, ◌+◌, ◌-◌, Bool, true, false, ◌&&◌, ◌||◌, not, String, Option, none, some, List, [], ◌∷◌, ◌++◌,
  length, take, map, if◌then◌else◌, ltb, ◌==◌, any, is_some, str_eq,
}
use atm_monitoring_agent.ParserModels.{
  Text, DateTime, Decimal, AtmParsedEvent, CassetteSnapshot, ParserWarning,
  UnknownEventRegistryEntry, ParserStatistics, ParserResult,
}
use atm_monitoring_agent.TextOps.{text, text_eq, newline, strip, contains, join}
use atm_monitoring_agent.EventPatterns.{
  Operational, operational_patterns, find_operational, is_ignored, card_number, response_code,
  function_id, opcode, amount,
}
use atm_monitoring_agent.SupervisorParser.{parse_supervisor}
use atm_monitoring_agent.CassetteParser.{parse_cassettes}
use atm_monitoring_agent.EjParser.{Block, group_blocks}
use atm_monitoring_agent.EjParser.Primary.{
  Primary, operational, use_supervisor, use_cassettes, Extracted, extract, primary_event,
}

-- the first of the lines that is not blank, if there is one
unfoldable pub first_not_blank : Text → List Text → Text
first_not_blank otherwise [] = otherwise
first_not_blank otherwise (line ∷ lines) =
    let later = first_not_blank otherwise lines in
    elim (strip line) [ [] ↦ later | c ∷ cs ↦ c ∷ cs ]

abbrev pub shorten : Text → Text
shorten t = if ltb 100 (length t) then take 97 t ++ text "..." else t

-- the signature of an unknown block, which has a header line always
unfoldable pub unknown_header : List Text → Text
unfolding first_not_blank
unknown_header [] = []
unknown_header (line ∷ body) = shorten (first_not_blank (strip line) body)

-- `unknown_registry`, a dict in the order of insertion
unfoldable pub register :
    Text → ℕ → DateTime → List UnknownEventRegistryEntry → List UnknownEventRegistryEntry
register h seq time [] =
    record { header = h; count = 1; first_sequence = some seq; first_occurrence_time = some time }
    ∷ []
register h seq time (e ∷ entries) =
    let rest = register h seq time entries in
    if text_eq e.header h then record e { count = e.count + 1 } ∷ entries else e ∷ rest

unfoldable pub unknown_warning : Text → Block → ParserWarning
unfolding join
unknown_warning file b = record {
  sequence_number = some b.seq;
  event_time = some b.time;
  message = "Unknown or unhandled event block";
  raw_event = join newline b.lines;
  source_file_name = file;
  start_line_number = b.start + 1;
  end_line_number = b.start + 1 + length b.lines - 1;
}

-- The variables of the loop.
pub record Parsing : Type 0 where
  pub seen_blocks : List (ℕ × DateTime)
  pub duplicates_count : ℕ
  pub ignored_count : ℕ
  pub unknown_registry : List UnknownEventRegistryEntry
  pub events : List AtmParsedEvent
  pub cassette_snapshots : List CassetteSnapshot
  pub warnings : List ParserWarning

abbrev pub no_parsing : Parsing
no_parsing = record {
  seen_blocks = [];
  duplicates_count = 0;
  ignored_count = 0;
  unknown_registry = [];
  events = [];
  cassette_snapshots = [];
  warnings = [];
}

abbrev pub is_key : ℕ × DateTime → ℕ × DateTime → Bool
is_key k j = k.0 == j.0 && k.1 == j.1

abbrev pub block_key : Block → ℕ × DateTime
block_key b = (b.seq, b.time)

unfoldable pub search_text : Block → Text
unfolding strip join
search_text b = strip b.extra ++ newline ∷ join newline (map strip b.lines)

unfoldable pub primary_of : Text → Block → List CassetteSnapshot → Primary
unfolding operational use_cassettes
primary_of file b snaps = use_cassettes snaps (
    use_supervisor (parse_supervisor b.lines b.seq b.time file (b.start + 1))
      (operational (search_text b)))

abbrev pub snaps_of : Text → Block → List CassetteSnapshot
snaps_of file b = parse_cassettes b.lines file (b.start + 1)

-- `matched or event_type != "Unknown"`
abbrev pub is_matched : Text → Block → Bool
is_matched file b =
    let primary = primary_of file b (snaps_of file b) in
    primary.matched || not (str_eq primary.event_type "Unknown")

unfoldable pub event_of : Text → Block → AtmParsedEvent
event_of file b =
    let x = extract (operational (search_text b)).event_type (search_text b) in
    primary_event file b (search_text b) x (primary_of file b (snaps_of file b))

-- `seen_blocks.add(event_key)`
abbrev pub add_seen : Parsing → Block → Parsing
add_seen p b = record p { seen_blocks = block_key b ∷ p.seen_blocks }

-- step 7
abbrev pub add_event : Text → Parsing → Block → Parsing
add_event file p b = record p {
  cassette_snapshots = p.cassette_snapshots ++ snaps_of file b;
  events = p.events ++ event_of file b ∷ [];
}

-- step 8
abbrev pub add_warning : Text → Parsing → Block → Parsing
add_warning file p b = record p {
  cassette_snapshots = p.cassette_snapshots ++ snaps_of file b;
  unknown_registry = register (unknown_header b.lines) b.seq b.time p.unknown_registry;
  warnings = p.warnings ++ unknown_warning file b ∷ [];
}

-- the body of the loop over the blocks
unfoldable pub parse_block : Text → Parsing → Block → Parsing
parse_block file p b =
    if any (is_key (block_key b)) p.seen_blocks
    then record p { duplicates_count = p.duplicates_count + 1 }
    else if is_ignored (search_text b)
    then record (add_seen p b) { ignored_count = p.ignored_count + 1 }
    else if is_matched file b
    then add_event file (add_seen p b) b
    else add_warning file (add_seen p b) b

unfoldable pub parse_blocks : Text → Parsing → List Block → Parsing
parse_blocks file p [] = p
parse_blocks file p (b ∷ blocks) = parse_blocks file (parse_block file p b) blocks

pub count_if {ℓ} : {A : Type ℓ} → (A → Bool) → List A → ℕ
count_if p [] = 0
count_if p (x ∷ xs) = if p x then count_if p xs + 1 else count_if p xs

abbrev is_cash_snapshot : CassetteSnapshot → Bool
is_cash_snapshot s =
    is_some s.remaining_notes || is_some s.dispensed_notes || is_some s.rejected_notes

abbrev is_supervisor_event : AtmParsedEvent → Bool
is_supervisor_event e = str_eq e.event_category "Supervisor"

unfoldable pub compile : ℕ → ℕ → Parsing → ParserResult
unfolding count_if
compile lines blocks p = record {
  events = p.events;
  cassette_snapshots = p.cassette_snapshots;
  warnings = p.warnings;
  unknown_events_registry = p.unknown_registry;
  statistics = record {
    total_lines_read = lines;
    total_blocks = blocks;
    parsed_events = length p.events;
    cassette_snapshots = length p.cassette_snapshots;
    cash_snapshots = count_if is_cash_snapshot p.cassette_snapshots;
    supervisor_events = count_if is_supervisor_event p.events;
    warnings = length p.warnings;
    unknown_events = length p.unknown_registry;
    duplicates_ignored = p.duplicates_count;
    ignored_blocks = p.ignored_count;
  };
}

-- `now idx` is what the clock reads when the line `idx` is met with an invalid date.
unfoldable pub parse_lines : (ℕ → DateTime) → List Text → Text → ParserResult
parse_lines now lines file =
    let blocks = group_blocks now lines in
    compile (length lines) (length blocks) (parse_blocks file no_parsing blocks)
