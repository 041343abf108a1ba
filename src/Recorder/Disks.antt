-- ===== src/Recorder/Disks.antt =====
-- services/hikvision_service.py, `check_single_nvr_async`: what the answers of a recorder say of its
-- recordings, its disks and the addresses of its cameras. A size is an exact number of megabytes over a
-- power of two, which `float` holds exactly, so that its rounding is that of `:.2f`. No match of an
-- element begins inside another, so the search for all of them tries every place.
use atm_monitoring_agent.Prelude.{
  ℕ, zero, suc, ◌+◌, ◌-◌, ◌*◌, ◌/◌, ◌%◌, Bool, not, ◌||◌, String, Option, none, some, List, [], ◌∷◌,
  ◌++◌, ◌==◌, ltb, leb, if◌then◌else◌, map, any,
}
use mathlib.Core.Option
use atm_monitoring_agent.ParserModels.{Text}
use atm_monitoring_agent.TextOps.{
  text, is_digit, is_space, int, ends_with, contains, contains_any_case, within, text_eq,
}
use atm_monitoring_agent.TextOps.Decimal.{decimal}
use atm_monitoring_agent.TextOps.Pattern.{◌>>=◌, lit, run, char, search_for}
use atm_monitoring_agent.Recorder.Element.{not_angle, value_at, find_value}

-- `str.lower`
unfoldable pub lower : ℕ → ℕ
lower c = if within 65 90 c then c + 32 else c

-- the four patterns for a recorder that records
unfoldable pub is_recording_in : Text → Bool
is_recording_in xml =
    contains_any_case (text "<isRecording>true</isRecording>") xml
    || contains_any_case (text "<recordingStatus>recording</recordingStatus>") xml
    || contains_any_case (text "<recording>true</recording>") xml
    || contains_any_case (text "<online>true</online>") xml

-- `<status>…|<hddStatus>…|<statusType>…` at a place
unfoldable pub status_at : Text → Option Text
status_at t = elim (value_at not_angle (text "status") t) [
  | some v ↦ some v
  | none ↦ elim (value_at not_angle (text "hddStatus") t) [
    | some v ↦ some v
    | none ↦ value_at not_angle (text "statusType") t
  ]
]

abbrev healthy_words : List Text
healthy_words =
    text "ok"
    ∷ text "normal"
    ∷ text "smartok"
    ∷ text "smart_ok"
    ∷ text "active"
    ∷ text "healthy"
    ∷ []

abbrev error_words : List Text
error_words = text "err" ∷ text "abnormal" ∷ text "fail" ∷ text "damage" ∷ text "unformatted" ∷ []

abbrev judged : Text → String
judged val =
    if any (text_eq val) healthy_words
    then "Healthy"
    else if any (λ x. contains x val) error_words
    then "HDD Error"
    else "Healthy"

unfoldable pub hdd_status_in : Text → String
unfolding status_at lower
hdd_status_in xml = elim (search_for status_at xml) [
  | none ↦ "Healthy"
  | some v ↦ judged (map lower v)
]

-- `re.findall(r'<tag>(\d+)</tag>', …)`, as numbers
unfoldable pub all_numbers : Text → Text → List ℕ
all_numbers tag [] = []
all_numbers tag (c ∷ cs) =
    let rest = all_numbers tag cs in
    elim (value_at is_digit tag (c ∷ cs)) [ none ↦ rest | some v ↦ int v ∷ rest ]

unfoldable pub sum : List ℕ → ℕ
sum [] = 0
sum (n ∷ ns) = n + sum ns

-- n / d, to the nearest whole number, and to the even one of two
unfoldable pub round_div : ℕ → ℕ → ℕ
round_div n d =
    let q = n / d in
    let twice = 2 * (n % d) in if ltb twice d then q else if ltb d twice then q + 1 else q + q % 2

abbrev two_digits : ℕ → Text
two_digits n = (48 + n / 10) ∷ (48 + n % 10) ∷ []

-- `f"{mb / unit:.2f}"`
abbrev hundredths : ℕ → ℕ → Text
hundredths mb unit =
    let h = round_div (mb * 100) unit in decimal (h / 100) ++ 46 ∷ two_digits (h % 100)

unfoldable pub format_size : ℕ → Text
unfolding round_div
format_size mb =
    if leb 1048576 mb
    then hundredths mb 1048576 ++ text " TB"
    else if leb 1024 mb
    then hundredths mb 1024 ++ text " GB"
    else decimal mb ++ text " MB"

-- The capacity and the used space; subtraction stops at 0, as `max(0, …)` does.
abbrev sizes_of : List ℕ → List ℕ → Option (Text × Text)
sizes_of [] free = none
sizes_of (c ∷ cs) free =
    let total = sum (c ∷ cs) in some (format_size total, format_size (total - sum free))

unfoldable pub sizes_in : Text → Option (Text × Text)
sizes_in xml = sizes_of (all_numbers (text "capacity") xml) (all_numbers (text "freeSpace") xml)

-- `(?:\s[^>]*?)?>`
abbrev attributes : Text → Option Text
attributes [] = none
attributes (c ∷ cs) =
    if c == b'>'
    then some cs
    else if is_space c
    then char b'>' (run (λ d. not (d == b'>')) cs).1
    else none

abbrev before : ℕ → Text × Text → Text × Text
before c (block, rest) = (c ∷ block, rest)

-- `([\s\S]*?)</tag>`: the text before the first closing tag, and the text behind it
unfoldable pub upto_closing : Text → Text → Option (Text × Text)
upto_closing closing_tag [] = none
upto_closing closing_tag (c ∷ cs) =
    let later = Option.map (before c) (upto_closing closing_tag cs) in
    elim (lit closing_tag (c ∷ cs)) [ some rest ↦ some ([], rest) | none ↦ later ]

abbrev named_block : String → Text → Option (Text × Text)
named_block name t = do
  inner ← lit (60 ∷ text name) t
  body ← attributes inner
  upto_closing (60 ∷ 47 ∷ (text name ++ 62 ∷ [])) body

abbrev block_at : Text → Option (Text × Text)
block_at t = elim (named_block "InputProxyChannel" t) [
  | some found ↦ some found
  | none ↦ named_block "InputProxyChannelStatus" t
]

-- `re.finditer`, on fuel that is the length of the text
unfoldable pub blocks_on : ℕ → Text → List Text
unfolding upto_closing
blocks_on zero t = []
blocks_on (suc f) [] = []
blocks_on (suc f) (c ∷ cs) = elim (block_at (c ∷ cs)) [
  | some found ↦ found.0 ∷ blocks_on f found.1
  | none ↦ blocks_on f cs
]

abbrev is_address : ℕ → Bool
is_address c = is_digit c || c == 46

-- `channel_id.zfill(2)`
abbrev zfill2 : Text → Text
zfill2 [] = 48 ∷ 48 ∷ []
zfill2 (c ∷ []) = 48 ∷ c ∷ []
zfill2 (c ∷ d ∷ cs) = c ∷ d ∷ cs

-- The padded channel and the address of each block that has both.
unfoldable pub channel_address : Text → Option (Text × Text)
channel_address block = do
  channel_id ← find_value is_digit (text "id") block
  cam_ip ← find_value is_address (text "ipAddress") block
  some (zfill2 channel_id, cam_ip)

unfoldable pub is_named : Text → Text → Bool
unfolding ends_with lower
is_named padded name =
    let n = map lower name in
    ends_with (text "-cam-" ++ padded) n || ends_with (text "-cam" ++ padded) n
