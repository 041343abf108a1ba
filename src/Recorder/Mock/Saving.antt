-- ===== src/Recorder/Mock/Saving.antt =====
-- services/hikvision_service.py: what `get_mock_resolution` gives after `save_mock_resolution`.
use atm_monitoring_agent.Prelude.{
  ℕ, ◌≡◌, Bool, true, false, ◌&&◌, Option, none, some, ◌==◌, if◌then◌else◌, get_or, arith, refl,
  ◌∙◌, ap, inl, inr, Bool-cases, ==_iff,
}
use mathlib.Core.Path.{ap₂}
use atm_monitoring_agent.ParserModels.{Text}
use atm_monitoring_agent.TextOps.{text, text_eq, text_eq-eq}
use atm_monitoring_agent.Recorder.Stream.{Stream, Request}
use atm_monitoring_agent.Recorder.Mock.{
  MockFile, Resolutions, overlay, overlay_found, resolutions_of, given, change_entry, with_stream,
  empty_entry, default_main, default_sub, default_streams, no_streams, load_mock_resolutions,
  save_mock_resolution, get_mock_resolution,
}

-- The resolutions with the settings of one stream changed.
abbrev pub changed : Text → Request → Resolutions → Resolutions
changed stream r old = record {
  main = if text_eq (text "main") stream then overlay r old.main else old.main;
  sub = if text_eq (text "sub") stream then overlay r old.sub else old.sub;
}

get_or-given {ℓ} :
    {A : Type ℓ} (x y : Option A) (d : A) → get_or (given x y) d ≡ get_or x (get_or y d)
get_or-given none y d = refl
get_or-given (some a) y d = refl

overlay-change_entry :
    (r old : Request) (s : Stream) → overlay (change_entry r old) s ≡ overlay r (overlay old s)
overlay-change_entry r old s = ground arith

-- An entry that is missing counts as one without settings.
overlay-change_found :
    (r : Request) (o : Option Request) (s : Stream)
    → overlay (change_entry r (get_or o empty_entry)) s ≡ overlay r (overlay_found o s)
overlay-change_found r none s = overlay-change_entry r empty_entry s
overlay-change_found r (some old) s = overlay-change_entry r old s

-- A camera that is not in the file has the default streams.
main-default :
    (raw : Option (Text → Option Request))
    → overlay_found (get_or raw default_streams (text "main")) default_main
      ≡ overlay_found (get_or raw no_streams (text "main")) default_main
unfolding text_eq
main-default none = refl
main-default (some streams) = refl

sub-default :
    (raw : Option (Text → Option Request))
    → overlay_found (get_or raw default_streams (text "sub")) default_sub
      ≡ overlay_found (get_or raw no_streams (text "sub")) default_sub
unfolding text_eq
sub-default none = refl
sub-default (some streams) = refl

-- One stream of the saved camera.
saved_stream :
    (key stream : Text) (r : Request) (streams : Text → Option Request) (d : Stream)
    → overlay_found
        (with_stream stream (change_entry r (get_or (streams stream) empty_entry)) streams key)
        d
      ≡ (if text_eq key stream
          then overlay r (overlay_found (streams key) d)
          else overlay_found (streams key) d)
saved_stream key stream r streams d = elim (Bool-cases (text_eq key stream)) [
  | inl same ↦ rw (same, text_eq-eq key stream same) (overlay-change_found r (streams stream) d)
  | inr other ↦ rw other
]

abbrev pair : Stream → Stream → Resolutions
pair m s = record { main = m; sub = s }

saved_streams :
    (stream : Text) (r : Request) (raw : Option (Text → Option Request))
    → let streams = get_or raw default_streams in
      resolutions_of
        (some (with_stream stream (change_entry r (get_or (streams stream) empty_entry)) streams))
      ≡ changed stream r (resolutions_of raw)
saved_streams stream r raw =
    let streams = get_or raw default_streams in
    ap₂ pair
      (saved_stream (text "main") stream r streams default_main
        ∙ ap (λ (m : Stream). if text_eq (text "main") stream then overlay r m else m)
            (main-default raw))
      (saved_stream (text "sub") stream r streams default_sub
        ∙ ap (λ (m : Stream). if text_eq (text "sub") stream then overlay r m else m)
            (sub-default raw))

-- After a save the settings of the saved camera are those from before with the given ones of the
-- saved stream changed, those of every other camera are as before, and a save that cannot write
-- changes nothing.
pub get_mock_resolution-save_mock_resolution :
    (writable : Bool) (cam other : ℕ) (stream : Text) (r : Request) (disk : Option MockFile)
    → get_mock_resolution other (save_mock_resolution writable cam stream r disk) ≡ (
        if writable && other == cam
        then changed stream r (get_mock_resolution other disk)
        else get_mock_resolution other disk)
unfolding get_mock_resolution save_mock_resolution load_mock_resolutions
get_mock_resolution-save_mock_resolution false cam other stream r disk = refl
get_mock_resolution-save_mock_resolution true cam other stream r disk =
    elim (Bool-cases (other == cam)) [
      | inl same ↦
          rw (same, (==_iff other cam).0 same)
            (saved_streams stream r (load_mock_resolutions disk cam))
      | inr differ ↦ rw differ
    ]
