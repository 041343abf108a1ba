-- ===== src/Recorder/Stream/RoundTrip.antt =====
-- services/hikvision_service.py: `set_camera_resolution_async` and `get_camera_resolution_async` agree
-- on the full XML.
use atm_monitoring_agent.Prelude.{
  ℕ, ◌*◌, ◌≡◌, ◌≢◌, refl, ◌∙◌, ap, true, Option, none, some, [], All, arith, is_some, get_or,
}
use atm_monitoring_agent.ParserModels.{Text}
use atm_monitoring_agent.TextOps.Decimal.{decimal, int-decimal, decimal-digits, decimal-ne-nil}
use atm_monitoring_agent.Recorder.Element.{not_angle}
use atm_monitoring_agent.Recorder.Stream.{
  Tag, width, height, frame_rate, upper_cap, constant_rate, transport, tag_class, Stream, Request,
  reading, round_hundredth, shown_rate, else_try, stream_of, read_stream, full_xml,
}
use atm_monitoring_agent.Recorder.Stream.Writing.{
  write_size, write_rate, write_bitrate, write_protocol, written_xml, IsLiteral,
  full_xml-written_xml,
}
use atm_monitoring_agent.TextOps.Pattern.{◌>>=◌}
use atm_monitoring_agent.Recorder.Stream.Reading.{
  IsValue, overwrite, reading-write, reading-write_present,
}

-- A frame rate in hundredths is read as it was meant, unless it is 1.
shown_rate-mul : (n : ℕ) → n ≢ 1 → shown_rate (n * 100) ≡ n
unfolding shown_rate round_hundredth
shown_rate-mul n h = ground arith

decimal-IsValue : (t : Tag) (n : ℕ) → t ≢ transport → IsValue t (decimal n)
unfolding tag_class
decimal-IsValue transport n h = absurd (h refl)
decimal-IsValue _ n h = record { filled = decimal-ne-nil n; in_class = decimal-digits n }

-- A reading after the writes of a request.
abbrev after_size : Option ℕ → Option ℕ → (Tag → Option Text) → Tag → Option Text
after_size none h shown = shown
after_size (some w) none shown = shown
after_size (some w) (some h) shown =
    overwrite height (decimal h) (overwrite width (decimal w) shown)

abbrev after_rate : Option ℕ → (Tag → Option Text) → Tag → Option Text
after_rate none shown = shown
after_rate (some n) shown = overwrite frame_rate (decimal (n * 100)) shown

abbrev after_bitrate : Option ℕ → (Tag → Option Text) → Tag → Option Text
after_bitrate none shown = shown
after_bitrate (some n) shown =
    overwrite constant_rate (decimal n) (overwrite upper_cap (decimal n) shown)

abbrev after_protocol : Option Text → (Tag → Option Text) → Tag → Option Text
after_protocol none shown = shown
after_protocol (some v) shown = overwrite transport v shown

-- A width or height is used only if the other is there.
abbrev pub sized : Option ℕ → Option ℕ → ℕ → ℕ
sized none own old = old
sized (some _) own old = get_or own old

-- What the request asks for, and the rest as it was.
abbrev pub merged : Request → Stream → Stream
merged r s = record {
  width = sized r.height r.width s.width;
  height = sized r.width r.height s.height;
  framerate = get_or r.framerate s.framerate;
  bitrate = get_or r.bitrate s.bitrate;
  protocol = get_or r.protocol s.protocol;
}

-- The elements that the request writes are there.
pub record IsComplete (xml : Text) : Type 0 where
  pub rate_lem : is_some (reading xml frame_rate) ≡ true
  pub bitrate_lem : is_some (else_try (reading xml upper_cap) (reading xml constant_rate)) ≡ true
  pub transport_lem : is_some (reading xml transport) ≡ true

abbrev IsProtocol : Option Text → Type 0
IsProtocol none = Unit
IsProtocol (some v) = (v ≢ []) × All (λ c. not_angle c ≡ true) v

pub record IsPlain (r : Request) : Type 0 where
  pub rate_lem : r.framerate ≢ some 1
  pub protocol_lem : IsProtocol r.protocol
  pub literal_lem : IsLiteral r.protocol

reading-write_size :
    (w h : Option ℕ) (xml : Text) → reading (write_size w h xml) ≡ after_size w h (reading xml)
reading-write_size none h xml = refl
reading-write_size (some w) none xml = refl
reading-write_size (some w) (some h) xml =
    reading-write height (decimal h) _ (decimal-IsValue height h (λ e. cc))
    ∙ ap (overwrite height (decimal h))
        (reading-write width (decimal w) xml (decimal-IsValue width w (λ e. cc)))

reading-write_rate :
    (f : Option ℕ) (xml : Text) → reading (write_rate f xml) ≡ after_rate f (reading xml)
reading-write_rate none xml = refl
reading-write_rate (some n) xml =
    reading-write frame_rate (decimal (n * 100)) xml
      (decimal-IsValue frame_rate (n * 100) (λ e. cc))

reading-write_bitrate :
    (b : Option ℕ) (xml : Text) → reading (write_bitrate b xml) ≡ after_bitrate b (reading xml)
reading-write_bitrate none xml = refl
reading-write_bitrate (some n) xml =
    reading-write_present constant_rate (decimal n) _ (decimal-IsValue constant_rate n (λ e. cc))
    ∙ ap (overwrite constant_rate (decimal n))
        (reading-write_present upper_cap (decimal n) xml (decimal-IsValue upper_cap n (λ e. cc)))

reading-write_protocol :
    (p : Option Text) (xml : Text)
    → IsProtocol p
    → reading (write_protocol p xml) ≡ after_protocol p (reading xml)
unfolding tag_class
reading-write_protocol none xml h = refl
reading-write_protocol (some v) xml h =
    reading-write transport v xml (record { filled = h.0; in_class = h.1 })

abbrev after : Request → (Tag → Option Text) → Tag → Option Text
after r shown =
    after_protocol r.protocol
      (after_bitrate r.bitrate (after_rate r.framerate (after_size r.width r.height shown)))

reading-written_xml :
    (r : Request) (xml : Text) → IsPlain r → reading (written_xml r xml) ≡ after r (reading xml)
unfolding written_xml
reading-written_xml r xml plain =
    reading-write_protocol r.protocol _ plain.protocol_lem
    ∙ ap (after_protocol r.protocol) (
        reading-write_bitrate r.bitrate _
        ∙ ap (after_bitrate r.bitrate) (
            reading-write_rate r.framerate _
            ∙ ap (after_rate r.framerate) (reading-write_size r.width r.height xml)))

module _ (rate bits : ℕ) (shown : Tag → Option Text) (s : Stream) where
  stream_of-after_size :
      (w h : Option ℕ)
      → stream_of rate bits shown ≡ some s
      → stream_of rate bits (after_size w h shown)
        ≡ some (record s { width = sized h w s.width; height = sized w h s.height })
  unfolding stream_of
  stream_of-after_size none none e = e
  stream_of-after_size none (some h) e = e
  stream_of-after_size (some w) none e = e
  stream_of-after_size (some w) (some h) e = ground (arith, int-decimal w, int-decimal h)

  stream_of-after_rate :
      (f : Option ℕ)
      → stream_of rate bits shown ≡ some s
      → is_some (shown frame_rate) ≡ true
      → f ≢ some 1
      → stream_of rate bits (after_rate f shown)
        ≡ some (record s { framerate = get_or f s.framerate })
  unfolding stream_of
  stream_of-after_rate none e there h = e
  stream_of-after_rate (some n) e there h =
      ground (arith, int-decimal (n * 100), shown_rate-mul n (λ k. h (ap some k)))

  stream_of-after_bitrate :
      (b : Option ℕ)
      → stream_of rate bits shown ≡ some s
      → is_some (else_try (shown upper_cap) (shown constant_rate)) ≡ true
      → stream_of rate bits (after_bitrate b shown)
        ≡ some (record s { bitrate = get_or b s.bitrate })
  unfolding stream_of
  stream_of-after_bitrate none e there = e
  stream_of-after_bitrate (some n) e there = ground (arith, int-decimal n)

  stream_of-after_protocol :
      (p : Option Text)
      → stream_of rate bits shown ≡ some s
      → is_some (shown transport) ≡ true
      → stream_of rate bits (after_protocol p shown)
        ≡ some (record s { protocol = get_or p s.protocol })
  unfolding stream_of
  stream_of-after_protocol none e there = e
  stream_of-after_protocol (some v) e there = ground arith

-- The writes of a request leave the elements in place.
kept_size :
    (w h : Option ℕ) (shown : Tag → Option Text) (t : Tag)
    → t ≢ width
    → t ≢ height
    → after_size w h shown t ≡ shown t
kept_size none h shown t k l = refl
kept_size (some w) none shown t k l = refl
kept_size (some w) (some h) shown width k l = absurd (k refl)
kept_size (some w) (some h) shown height k l = absurd (l refl)
kept_size (some w) (some h) shown _ k l = refl

kept_rate :
    (f : Option ℕ) (shown : Tag → Option Text) (t : Tag)
    → t ≢ frame_rate
    → after_rate f shown t ≡ shown t
kept_rate none shown t k = refl
kept_rate (some n) shown frame_rate k = absurd (k refl)
kept_rate (some n) shown _ k = refl

kept_bitrate :
    (b : Option ℕ) (shown : Tag → Option Text) → after_bitrate b shown transport ≡ shown transport
kept_bitrate none shown = refl
kept_bitrate (some n) shown = refl

-- If the XML of a recorder shows the settings of a stream, with a frame rate, a bit rate and a
-- transport, then the full XML that a request writes is made and shows what the request asks for
-- and, for the rest, the settings from before: provided that the frame rate asked for is not 1, and
-- that the protocol is not empty and has no `<` and no backslash.
pub read_stream-full_xml :
    (rate bits : ℕ) (r : Request) (xml : Text) (s : Stream)
    → read_stream rate bits xml ≡ some s
    → IsComplete xml
    → IsPlain r
    → (full_xml r xml >>= read_stream rate bits) ≡ some (merged r s)
unfolding read_stream
read_stream-full_xml rate bits r xml s e complete plain =
    let x = reading xml in
    let x₁ = after_size r.width r.height x in
    let x₂ = after_rate r.framerate x₁ in
    let x₃ = after_bitrate r.bitrate x₂ in
    let e₁ = stream_of-after_size rate bits x s r.width r.height e in
    let rated = kept_size r.width r.height x frame_rate (λ q. cc) (λ q. cc) in
    let e₂ =
      stream_of-after_rate rate bits x₁ _ r.framerate e₁ (rw rated complete.rate_lem)
        plain.rate_lem in
    let capped =
      kept_rate r.framerate x₁ upper_cap (λ q. cc)
      ∙ kept_size r.width r.height x upper_cap (λ q. cc) (λ q. cc) in
    let constant =
      kept_rate r.framerate x₁ constant_rate (λ q. cc)
      ∙ kept_size r.width r.height x constant_rate (λ q. cc) (λ q. cc) in
    let e₃ =
      stream_of-after_bitrate rate bits x₂ _ r.bitrate e₂
        (rw (capped, constant) complete.bitrate_lem) in
    let sent =
      kept_bitrate r.bitrate x₂
      ∙ kept_rate r.framerate x₁ transport (λ q. cc)
      ∙ kept_size r.width r.height x transport (λ q. cc) (λ q. cc) in
    ap (λ (o : Option Text). o >>= read_stream rate bits)
      (full_xml-written_xml r xml plain.literal_lem)
    ∙ ap (stream_of rate bits) (reading-written_xml r xml plain)
    ∙ stream_of-after_protocol rate bits x₃ _ r.protocol e₃ (rw sent complete.transport_lem)
