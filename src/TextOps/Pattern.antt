-- ===== src/TextOps/Pattern.antt =====
-- The regular expressions of agent/parsers/event_patterns.py, piece by piece: a piece takes the text
-- from a position and gives what it captures with the text behind it. The pieces of these patterns
-- that repeat a class are followed by something outside of the class, so the longest run is the only
-- one that can match; where that is not so, the piece says what it does.
use atm_monitoring_agent.Prelude.{
  ℕ, Bool, true, false, ◌&&◌, ◌||◌, Option, none, some, List, [], ◌∷◌, ◌==◌, if◌then◌else◌,
}
use atm_monitoring_agent.ParserModels.{Text}
use atm_monitoring_agent.TextOps.{upper, is_space, is_digit, newline}

infixl 5 ◌>>=◌
abbrev pub ◌>>=◌ {ℓ κ} : {A : Type ℓ} {B : Type κ} → Option A → (A → Option B) → Option B
none >>= f = none
some a >>= f = f a

abbrev pub guard : Bool → Option (Unit {0})
guard true = some tt
guard false = none

-- a literal, with IGNORECASE
unfoldable pub lit : Text → Text → Option Text
unfolding upper
lit [] t = some t
lit (p ∷ ps) [] = none
lit (p ∷ ps) (c ∷ cs) = let rest = lit ps cs in if upper p == upper c then rest else none

-- a literal, as `str.replace` finds it
unfoldable pub exactly : Text → Text → Option Text
exactly [] t = some t
exactly (p ∷ ps) [] = none
exactly (p ∷ ps) (c ∷ cs) = let rest = exactly ps cs in if p == c then rest else none

-- the longest run of a class, and what follows
unfoldable pub run : (ℕ → Bool) → Text → Text × Text
run p [] = ([], [])
run p (c ∷ cs) = let (r, rest) = run p cs in if p c then (c ∷ r, rest) else ([], c ∷ cs)

-- `\s*`
unfoldable pub spaces : Text → Text
unfolding run is_space
spaces t = (run is_space t).1

abbrev pub nonempty : Text × Text → Option (Text × Text)
nonempty ([], rest) = none
nonempty (c ∷ r, rest) = some (c ∷ r, rest)

-- `(…)+` for a class
unfoldable pub run1 : (ℕ → Bool) → Text → Option (Text × Text)
unfolding run
run1 p t = nonempty (run p t)

-- `\s+`
unfoldable pub spaces1 : Text → Option Text
unfolding run1 is_space
spaces1 t = do r ← run1 is_space t; some r.1

-- one character
unfoldable pub char : ℕ → Text → Option Text
char p [] = none
char p (c ∷ cs) = if p == c then some cs else none

-- `\d{n}` for the first n characters
unfoldable pub digit : Text → Option (ℕ × Text)
unfolding is_digit
digit [] = none
digit (c ∷ cs) = if is_digit c then some (c, cs) else none

-- `search`: the leftmost position at which the pattern matches
unfoldable pub search_for {ℓ} : {A : Type ℓ} → (Text → Option A) → Text → Option A
search_for m [] = m []
search_for m (c ∷ cs) =
    let later = search_for m cs in elim (m (c ∷ cs)) [ some a ↦ some a | none ↦ later ]

-- the same over the positions at which `^` matches
unfoldable pub first_of_starts {ℓ} : {A : Type ℓ} → (Text → Option A) → List Text → Option A
first_of_starts m [] = none
first_of_starts m (t ∷ ts) = elim (m t) [ some a ↦ some a | none ↦ first_of_starts m ts ]

-- `$` with MULTILINE
unfoldable pub at_line_end : Text → Bool
at_line_end [] = true
at_line_end (c ∷ cs) = c == newline

-- `\s*$` with MULTILINE: some of the white space ahead is followed by the end of a line
unfoldable pub blank_to_line_end : Text → Bool
unfolding is_space
blank_to_line_end [] = true
blank_to_line_end (c ∷ cs) = c == newline || (is_space c && blank_to_line_end cs)
