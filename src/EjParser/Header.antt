-- ===== src/EjParser/Header.antt =====
-- `EVENT_HEADER_PATTERN` of agent/parsers/event_patterns.py and `parse_ncr_datetime` of
-- agent/parsers/ej_parser.py. A datetime is counted in microseconds, over months of 31 days: the
-- number orders as the datetimes do and tells them apart.
use atm_monitoring_agent.Prelude.{
  ℕ, ◌+◌, ◌*◌, ◌-◌, ◌%◌, Bool, ◌&&◌, ◌||◌, Option, some, [], ◌∷◌, ◌==◌, leb, if◌then◌else◌, not,
}
use atm_monitoring_agent.ParserModels.{Text, DateTime}
use atm_monitoring_agent.TextOps.{is_digit, int, newline}
use atm_monitoring_agent.TextOps.Pattern.{◌>>=◌, run, run1, spaces, char, digit}

-- What the pattern captures; the date and the time as the numbers that they are written with.
pub record EventHeader : Type 0 where
  pub seq : ℕ
  pub day : ℕ
  pub month : ℕ
  pub year : ℕ
  pub hour : ℕ
  pub minute : ℕ
  pub extra : Text

-- `\d{2}`
two_digits : Text → Option (ℕ × Text)
two_digits t = do a ← digit t; b ← digit a.1; some (int (a.0 ∷ b.0 ∷ []), b.1)

-- `\d{4}`
four_digits : Text → Option (ℕ × Text)
unfolding two_digits
four_digits t = do a ← two_digits t; b ← two_digits a.1; some (a.0 * 100 + b.0, b.1)

abbrev not_newline : ℕ → Bool
not_newline c = not (c == newline)

-- `EVENT_HEADER_PATTERN.match`
unfoldable pub event_header : Text → Option EventHeader
unfolding four_digits
event_header line = do
  a ← char b'*' (spaces line)
  seq ← run1 is_digit a
  b ← char b'*' seq.1
  day ← two_digits b
  c ← char b'/' day.1
  month ← two_digits c
  d ← char b'/' month.1
  year ← four_digits d
  e ← char b'*' year.1
  hour ← two_digits e
  f ← char b':' hour.1
  minute ← two_digits f
  g ← char b'*' minute.1
  some (record {
    seq = int seq.0;
    day = day.0;
    month = month.0;
    year = year.0;
    hour = hour.0;
    minute = minute.0;
    extra = (run not_newline g).0;
  })

is_leap : ℕ → Bool
is_leap y = (y % 4 == 0 && not (y % 100 == 0)) || y % 400 == 0

days_in : ℕ → ℕ → ℕ
unfolding is_leap
days_in month year =
    if month == 2
    then (if is_leap year then 29 else 28)
    else if month == 4 || month == 6 || month == 9 || month == 11
    then 30
    else 31

-- the dates that `strptime` reads with `%d/%m/%Y %H:%M`
unfoldable pub is_datetime : EventHeader → Bool
unfolding days_in
is_datetime h =
    leb 1 h.year
    && leb 1 h.month
    && leb h.month 12
    && leb 1 h.day
    && leb h.day (days_in h.month h.year)
    && leb h.hour 23
    && leb h.minute 59

pub datetime : EventHeader → DateTime
datetime h =
    ((((h.year * 12 + (h.month - 1)) * 31 + (h.day - 1)) * 24 + h.hour) * 60 + h.minute) * 60000000

-- `parse_ncr_datetime` on the captures, which only the first of its formats can fit: `-` does not
-- stand in them, and a year of four digits is none of `%y`. `now` is the clock's reading.
unfoldable pub parse_ncr_datetime : DateTime → EventHeader → DateTime
unfolding is_datetime datetime
parse_ncr_datetime now h = if is_datetime h then datetime h else now
