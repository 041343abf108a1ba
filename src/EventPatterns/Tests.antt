-- ===== src/EventPatterns/Tests.antt =====
-- The patterns of agent/parsers/event_patterns.py on lines of a journal.
use atm_monitoring_agent.Prelude.{◌≡◌, refl, none, some, [], ◌∷◌, true}
use atm_monitoring_agent.TextOps
use atm_monitoring_agent.TextOps.{text}
use atm_monitoring_agent.TextOps.Pattern
use atm_monitoring_agent.EventPatterns.{card_number, amount, is_ignored}
use atm_monitoring_agent.EventPatterns.Cassette.{cassette_removed, denomination_row, cash_type_row}

card_masked : card_number (text "CARD: 412345******1234") ≡ some (text "412345******1234")
unfolding card_number Pattern.search_for Pattern.lit Pattern.spaces Pattern.run1 TextOps.is_digit
card_masked = refl

card_too_short : card_number (text "CARD: 4 ") ≡ none
unfolding card_number Pattern.search_for Pattern.lit Pattern.spaces Pattern.run1 TextOps.is_digit
card_too_short = refl

withdrawal : amount (text "WITHDRAWAL  500.50 BDT") ≡ some (record { digits = 50050; scale = 2 })
unfolding amount Pattern.search_for Pattern.lit Pattern.spaces1 TextOps.is_digit TextOps.int
withdrawal = refl

two_types : cash_type_row (text "TYPE 1 ≈ 12 TYPE 2 ≈ 7") ≡ some (12 ∷ 7 ∷ [])
unfolding cash_type_row Pattern.search_for Pattern.lit Pattern.spaces1 Pattern.char Pattern.spaces
    TextOps.is_digit TextOps.int
two_types = refl

four_types :
    cash_type_row (text "type 1 ≈ 1 TYPE 2≈2 TYPE 3 ≈3  TYPE 4 ≈ 40 ") ≡ some (1 ∷ 2 ∷ 3 ∷ 40 ∷ [])
unfolding cash_type_row Pattern.search_for Pattern.lit Pattern.spaces1 Pattern.char Pattern.spaces
    TextOps.is_digit TextOps.int
four_types = refl

denominations : denomination_row (text "DENOMINATION  1000 500") ≡ some (1000 ∷ 500 ∷ [])
unfolding denomination_row Pattern.search_for Pattern.lit Pattern.run1 TextOps.is_space
    TextOps.is_digit TextOps.int TextOps.split
denominations = refl

fifth_removed : cassette_removed (text "fifth  cassette removed") ≡ some 5
unfolding cassette_removed Pattern.lit Pattern.spaces1
fifth_removed = refl

ignored : is_ignored (text "\nTERMINALID: ") ≡ true
unfolding is_ignored Pattern.lit Pattern.blank_to_line_end TextOps.line_starts
    TextOps.contains_any_case
ignored = refl
