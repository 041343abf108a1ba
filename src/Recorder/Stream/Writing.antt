-- ===== src/Recorder/Stream/Writing.antt =====
-- services/hikvision_service.py, `set_camera_resolution_async`: the full XML where no value has a
-- backslash.
use atm_monitoring_agent.Prelude.{
  ℕ, ◌*◌, ◌≡◌, refl, true, Option, none, some, [], ◌∷◌, All, arith, is_some, if◌then◌else◌, inl,
  inr, Bool-cases,
}
use atm_monitoring_agent.ParserModels.{Text}
use atm_monitoring_agent.TextOps.{is_digit}
use atm_monitoring_agent.TextOps.Decimal.{decimal, decimal-digits}
use atm_monitoring_agent.TextOps.Template
use atm_monitoring_agent.Recorder.Element.{replace_value}
use atm_monitoring_agent.Recorder.Element.Plain.{sub_value-replace_value}
use atm_monitoring_agent.Recorder.Stream.{
  Tag, width, height, frame_rate, upper_cap, constant_rate, transport, tag_name, tag_class, Request,
  reading, put, put_size, put_rate, put_present, put_bitrate, put_protocol, full_xml,
}

-- A value written as it stands, without escapes
abbrev pub write : Tag → Text → Text → Text
write tag value xml = replace_value (tag_class tag) (tag_name tag) value xml

abbrev pub write_size : Option ℕ → Option ℕ → Text → Text
write_size none h xml = xml
write_size (some w) none xml = xml
write_size (some w) (some h) xml = write height (decimal h) (write width (decimal w) xml)

abbrev pub write_rate : Option ℕ → Text → Text
write_rate none xml = xml
write_rate (some n) xml = write frame_rate (decimal (n * 100)) xml

abbrev pub write_present : Tag → Text → Text → Text
write_present tag value xml = if is_some (reading xml tag) then write tag value xml else xml

abbrev pub write_bitrate : Option ℕ → Text → Text
write_bitrate none xml = xml
write_bitrate (some n) xml =
    write_present constant_rate (decimal n) (write_present upper_cap (decimal n) xml)

abbrev pub write_protocol : Option Text → Text → Text
write_protocol none xml = xml
write_protocol (some v) xml = write transport v xml

-- The recorder's XML with the values of a request.
unfoldable pub written_xml : Request → Text → Text
written_xml r xml =
    write_protocol r.protocol
      (write_bitrate r.bitrate (write_rate r.framerate (write_size r.width r.height xml)))

pub digits-IsPlain : (t : Text) → All (λ c. is_digit c ≡ true) t → Template.IsPlain t
unfolding is_digit
digits-IsPlain [] h = tt
digits-IsPlain (c ∷ t) h = ((λ e. ground (arith, h.0, e)), digits-IsPlain t h.1)

decimal-IsPlain : (n : ℕ) → Template.IsPlain (decimal n)
decimal-IsPlain n = digits-IsPlain (decimal n) (decimal-digits n)

tag-IsPlain : (t : Tag) → Template.IsPlain (tag_name t)
unfolding tag_name
tag-IsPlain width = omega arith
tag-IsPlain height = omega arith
tag-IsPlain frame_rate = omega arith
tag-IsPlain upper_cap = omega arith
tag-IsPlain constant_rate = omega arith
tag-IsPlain transport = omega arith

put-write : (t : Tag) (v xml : Text) → Template.IsPlain v → put t v xml ≡ some (write t v xml)
put-write t v xml h = sub_value-replace_value (tag_class t) (tag_name t) v xml (tag-IsPlain t) h

put_size-write_size : (w h : Option ℕ) (xml : Text) → put_size w h xml ≡ some (write_size w h xml)
put_size-write_size none h xml = refl
put_size-write_size (some w) none xml = refl
put_size-write_size (some w) (some h) xml =
    rw (put-write width (decimal w) xml (decimal-IsPlain w))
      (put-write height (decimal h) (write width (decimal w) xml) (decimal-IsPlain h))

put_rate-write_rate : (f : Option ℕ) (xml : Text) → put_rate f xml ≡ some (write_rate f xml)
put_rate-write_rate none xml = refl
put_rate-write_rate (some n) xml =
    put-write frame_rate (decimal (n * 100)) xml (decimal-IsPlain (n * 100))

put_present-write_present :
    (t : Tag) (v xml : Text)
    → Template.IsPlain v
    → put_present t v xml ≡ some (write_present t v xml)
put_present-write_present t v xml h = elim (Bool-cases (is_some (reading xml t))) [
  | inl there ↦ rw there (put-write t v xml h)
  | inr absent ↦ rw absent refl
]

put_bitrate-write_bitrate :
    (b : Option ℕ) (xml : Text) → put_bitrate b xml ≡ some (write_bitrate b xml)
put_bitrate-write_bitrate none xml = refl
put_bitrate-write_bitrate (some n) xml =
    rw (put_present-write_present upper_cap (decimal n) xml (decimal-IsPlain n)) (
      put_present-write_present constant_rate (decimal n) (write_present upper_cap (decimal n) xml)
        (decimal-IsPlain n))

-- A protocol without a backslash.
abbrev pub IsLiteral : Option Text → Type 0
IsLiteral none = Unit
IsLiteral (some v) = Template.IsPlain v

put_protocol-write_protocol :
    (p : Option Text) (xml : Text) → IsLiteral p → put_protocol p xml ≡ some (write_protocol p xml)
put_protocol-write_protocol none xml h = refl
put_protocol-write_protocol (some v) xml h = put-write transport v xml h

pub full_xml-written_xml :
    (r : Request) (xml : Text) → IsLiteral r.protocol → full_xml r xml ≡ some (written_xml r xml)
unfolding full_xml written_xml
full_xml-written_xml r xml h =
    let sized = write_size r.width r.height xml in
    let rated = write_rate r.framerate sized in
    let limited = write_bitrate r.bitrate rated in
    rw (put_size-write_size r.width r.height xml) (
      rw (put_rate-write_rate r.framerate sized) (
        rw (put_bitrate-write_bitrate r.bitrate rated)
          (put_protocol-write_protocol r.protocol limited h)))
