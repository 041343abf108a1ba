-- ===== src/EventPatterns/Cassette.antt =====
-- The patterns of agent/parsers/event_patterns.py that agent/parsers/cassette_parser.py uses, and
-- `CASSETTE_POSITION_MAP`.
use atm_monitoring_agent.Prelude.{
  ℕ, Bool, ◌||◌, String, Option, none, some, List, [], ◌∷◌, ◌++◌, if◌then◌else◌, map,
}
use atm_monitoring_agent.ParserModels.{Text}
use atm_monitoring_agent.TextOps.{text, is_space, is_digit, is_word, int, split}
use atm_monitoring_agent.TextOps.Pattern.{◌>>=◌, lit, run, spaces, spaces1, run1, char, search_for}

-- The alternatives of a position, with the numbers of `CASSETTE_POSITION_MAP`.
abbrev pub positions : List (String × ℕ)
positions =
    ("TOP", 1) ∷ ("SECOND", 2) ∷ ("THIRD", 3) ∷ ("FOURTH", 4) ∷ ("FIFTH", 5) ∷ ("SIXTH", 6) ∷ []

-- A position word, which is mapped at once: all of the alternatives are keys of the map.
pub position : List (String × ℕ) → Text → Option (ℕ × Text)
position [] t = none
position ((word, n) ∷ words) t =
    let later = position words t in
    elim (lit (text word) t) [ some rest ↦ some (n, rest) | none ↦ later ]

action : String → Text → Option ℕ
unfolding position
action literal t = do
  p ← position (positions ++ ("FIRST", 1) ∷ []) t
  a ← spaces1 p.1
  b ← lit (text "CASSETTE") a
  c ← spaces1 b
  d ← lit (text literal) c
  some p.0

-- `CASSETTE_REMOVED_PATTERN.match`, as the number of the cassette
unfoldable pub cassette_removed : Text → Option ℕ
unfolding action
cassette_removed = action "REMOVED"

-- `CASSETTE_INSERTED_PATTERN.match`
unfoldable pub cassette_inserted : Text → Option ℕ
unfolding action
cassette_inserted = action "INSERTED"

-- What `CASSETTE_INFO_ROW` captures.
pub record InfoRow : Type 0 where
  pub number : ℕ
  pub cur : Text
  pub val : Text
  pub status : Text

-- `CASSETTE_INFO_ROW.match`
unfoldable pub cassette_info_row : Text → Option InfoRow
unfolding position
cassette_info_row t = do
  p ← position positions t
  a ← spaces1 p.1
  cur ← run1 is_word a
  b ← spaces1 cur.1
  val ← run1 is_digit b
  c ← spaces1 val.1
  kind ← run1 is_digit c
  d ← spaces1 kind.1
  status ← run1 is_word d
  some (record { number = p.0; cur = cur.0; val = val.0; status = status.0 })

abbrev is_digit_or_space : ℕ → Bool
is_digit_or_space c = is_digit c || is_space c

abbrev row_values : Text → Text → Option (List ℕ)
row_values ws [] = elim ws [ c ∷ d ∷ _ ↦ some [] | _ ↦ none ]
row_values ws (c ∷ cs) =
    if is_digit c
    then some (map int (split (run is_digit_or_space (c ∷ cs)).0))
    else elim ws [ c ∷ d ∷ _ ↦ some [] | _ ↦ none ]

-- `LITERAL\s+(?P<values>[\d\s]+)` with the values split and read. With no digit behind the white
-- space, the class takes the last white space from `\s+`, if that leaves one: no value is read.
row_at : String → Text → Option (List ℕ)
row_at literal t = do a ← lit (text literal) t; ws ← run1 is_space a; row_values ws.0 ws.1

unfoldable pub denomination_row : Text → Option (List ℕ)
unfolding row_at
denomination_row = search_for (row_at "DENOMINATION")

unfoldable pub dispensed_row : Text → Option (List ℕ)
unfolding row_at
dispensed_row = search_for (row_at "DISPENSED")

unfoldable pub rejected_row : Text → Option (List ℕ)
unfolding row_at
rejected_row = search_for (row_at "REJECTED")

unfoldable pub remaining_row : Text → Option (List ℕ)
unfolding row_at
remaining_row = search_for (row_at "REMAINING")

-- `TYPE\s+n\s*≈\s*(\d+)`, for the digit `n`
type_count : ℕ → Text → Option (ℕ × Text)
type_count n t = do
  a ← lit (text "TYPE") t
  b ← spaces1 a
  c ← char n b
  d ← char 0x2248 (spaces c)
  r ← run1 is_digit (spaces d)
  some (int r.0, r.1)

next_type : ℕ → Text → Option (ℕ × Text)
unfolding type_count
next_type n t = do a ← spaces1 t; type_count n a

abbrev last_pair : ℕ → ℕ → Option (ℕ × ℕ) → List ℕ
last_pair t1 t2 none = t1 ∷ t2 ∷ []
last_pair t1 t2 (some (t3, t4)) = t1 ∷ t2 ∷ t3 ∷ t4 ∷ []

type_row_at : Text → Option (List ℕ)
unfolding type_count next_type
type_row_at t = do
  t1 ← type_count b'1' t
  t2 ← next_type b'2' t1.1
  some (
      last_pair t1.0 t2.0
        (do t3 ← next_type b'3' t2.1; t4 ← next_type b'4' t3.1; some (t3.0, t4.0)))

-- `CASH_ROW_TYPE_PATTERN.search`, as the list `vals`
unfoldable pub cash_type_row : Text → Option (List ℕ)
unfolding type_row_at
cash_type_row = search_for type_row_at
