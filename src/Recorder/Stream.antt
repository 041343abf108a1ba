-- ===== src/Recorder/Stream.antt =====
-- services/hikvision_service.py: the settings of a video stream in the XML of a recorder, as
-- `get_camera_resolution_async` reads them and `set_camera_resolution_async` writes them.
pub mod Reading
pub mod Writing
pub mod RoundTrip
use atm_monitoring_agent.Prelude.{
  ℕ, ◌+◌, ◌*◌, ◌/◌, ◌%◌, Bool, true, false, ◌||◌, not, Option, none, some, List, [], ◌∷◌, ◌++◌, ltb,
  if◌then◌else◌, is_some, get_or,
}
use mathlib.Core.Option
use atm_monitoring_agent.ParserModels.{Text}
use atm_monitoring_agent.TextOps.{text, is_digit, int}
use atm_monitoring_agent.TextOps.Decimal.{decimal}
use atm_monitoring_agent.TextOps.Pattern.{◌>>=◌}
use atm_monitoring_agent.Recorder.Element.{not_angle, find_value, sub_value}

-- The elements that are read or written.
pub data Tag : Type 0 where
  width height frame_rate upper_cap constant_rate transport : Tag

unfoldable pub tag_name : Tag → Text
tag_name width = text "videoResolutionWidth"
tag_name height = text "videoResolutionHeight"
tag_name frame_rate = text "maxFrameRate"
tag_name upper_cap = text "vbrUpperCap"
tag_name constant_rate = text "constantBitRate"
tag_name transport = text "streamingTransport"

-- `\d+`, and `[^<]+` for the transport
unfoldable pub tag_class : Tag → ℕ → Bool
tag_class transport c = not_angle c
tag_class _ c = is_digit c

-- The settings of a stream, and those that a request changes.
pub record Stream : Type 0 where
  pub width : ℕ
  pub height : ℕ
  pub framerate : ℕ
  pub bitrate : ℕ
  pub protocol : Text

pub record Request : Type 0 where
  pub width : Option ℕ
  pub height : Option ℕ
  pub framerate : Option ℕ
  pub bitrate : Option ℕ
  pub protocol : Option Text

-- What the elements of a text hold.
abbrev pub reading : Text → Tag → Option Text
reading xml tag = find_value (tag_class tag) (tag_name tag) xml

-- `round(framerate / 100)`: to the nearest number, and to the even one of two
unfoldable pub round_hundredth : ℕ → ℕ
round_hundredth n =
    let q = n / 100 in if ltb (n % 100) 50 then q else if ltb 50 (n % 100) then q + 1 else q + q % 2

unfoldable pub shown_rate : ℕ → ℕ
unfolding round_hundredth
shown_rate n = if ltb 100 n then round_hundredth n else n

abbrev pub number_or : Option Text → ℕ → ℕ
number_or none d = d
number_or (some v) d = int v

abbrev pub else_try : Option Text → Option Text → Option Text
else_try none later = later
else_try (some v) later = some v

abbrev both : Option Text → Option Text → (ℕ → ℕ → Stream) → Option Stream
both none h f = none
both (some w) none f = none
both (some w) (some h) f = some (f (int w) (int h))

-- The settings that a reading shows, with the defaults for the frame rate and the bit rate.
unfoldable pub stream_of : ℕ → ℕ → (Tag → Option Text) → Option Stream
stream_of rate bits shown = both (shown width) (shown height) λ w h. record {
  width = w;
  height = h;
  framerate = shown_rate (number_or (shown frame_rate) rate);
  bitrate = number_or (else_try (shown upper_cap) (shown constant_rate)) bits;
  protocol = get_or (shown transport) (text "RTSP");
}

unfoldable pub read_stream : ℕ → ℕ → Text → Option Stream
read_stream rate bits xml = stream_of rate bits (reading xml)

-- `re.sub` with one of the patterns; none if the replacement is no template
abbrev pub put : Tag → Text → Text → Option Text
put tag value xml = sub_value (tag_class tag) (tag_name tag) value xml

abbrev pub put_size : Option ℕ → Option ℕ → Text → Option Text
put_size none h xml = some xml
put_size (some w) none xml = some xml
put_size (some w) (some h) xml = do sized ← put width (decimal w) xml; put height (decimal h) sized

abbrev pub put_rate : Option ℕ → Text → Option Text
put_rate none xml = some xml
put_rate (some n) xml = put frame_rate (decimal (n * 100)) xml

-- `if re.search(…): full_xml = re.sub(…)`
abbrev pub put_present : Tag → Text → Text → Option Text
put_present tag value xml = if is_some (reading xml tag) then put tag value xml else some xml

abbrev pub put_bitrate : Option ℕ → Text → Option Text
put_bitrate none xml = some xml
put_bitrate (some n) xml = do
  capped ← put_present upper_cap (decimal n) xml
  put_present constant_rate (decimal n) capped

abbrev pub put_protocol : Option Text → Text → Option Text
put_protocol none xml = some xml
put_protocol (some v) xml = put transport v xml

-- The full XML: the recorder's own with the values replaced; none if `re.sub` raises.
unfoldable pub full_xml : Request → Text → Option Text
full_xml r xml = do
  sized ← put_size r.width r.height xml
  rated ← put_rate r.framerate sized
  limited ← put_bitrate r.bitrate rated
  put_protocol r.protocol limited
