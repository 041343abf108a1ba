-- ===== src/Recorder/Mock.antt =====
-- services/hikvision_service.py: the settings that are kept in mock_resolutions.json. The file is none
-- when it is missing or cannot be read as JSON; a write happens whole or fails. The key `str(cam_id)`
-- is the number itself.
pub mod Saving
use atm_monitoring_agent.Prelude.{ℕ, Bool, Option, none, some, ◌==◌, if◌then◌else◌, get_or}
use atm_monitoring_agent.ParserModels.{Text}
use atm_monitoring_agent.TextOps.{text, text_eq}
use atm_monitoring_agent.Recorder.Stream.{Stream, Request}

-- What the file holds: for a camera and a stream some of the settings.
abbrev pub MockFile : Type 0
MockFile = ℕ → Option (Text → Option Request)

abbrev pub default_main : Stream
default_main = record {
  width = 1920;
  height = 1080;
  framerate = 25;
  bitrate = 2048;
  protocol = text "RTSP";
}

abbrev pub default_sub : Stream
default_sub = record {
  width = 704;
  height = 576;
  framerate = 15;
  bitrate = 512;
  protocol = text "RTSP";
}

abbrev pub entry_of : Stream → Request
entry_of s = record {
  width = some s.width;
  height = some s.height;
  framerate = some s.framerate;
  bitrate = some s.bitrate;
  protocol = some s.protocol;
}

-- `data[key] = value`
abbrev pub with_stream : Text → Request → (Text → Option Request) → Text → Option Request
with_stream stream e streams key = if text_eq key stream then some e else streams key

abbrev pub with_camera : ℕ → (Text → Option Request) → MockFile → MockFile
with_camera cam streams file key = if key == cam then some streams else file key

abbrev pub no_streams : Text → Option Request
no_streams key = none

abbrev pub empty_entry : Request
empty_entry = record {
  width = none;
  height = none;
  framerate = none;
  bitrate = none;
  protocol = none;
}

abbrev pub default_streams : Text → Option Request
default_streams =
    with_stream (text "main") (entry_of default_main)
      (with_stream (text "sub") (entry_of default_sub) no_streams)

unfoldable pub load_mock_resolutions : Option MockFile → MockFile
load_mock_resolutions none cam = none
load_mock_resolutions (some file) cam = file cam

-- `if x is not None: data[…] = x`
abbrev pub given {ℓ} : {A : Type ℓ} → Option A → Option A → Option A
given none old = old
given (some x) old = some x

abbrev pub change_entry : Request → Request → Request
change_entry r old = record {
  width = given r.width old.width;
  height = given r.height old.height;
  framerate = given r.framerate old.framerate;
  bitrate = given r.bitrate old.bitrate;
  protocol = given r.protocol old.protocol;
}

-- `writable` tells whether the file can be written.
unfoldable pub save_mock_resolution : Bool → ℕ → Text → Request → Option MockFile → Option MockFile
save_mock_resolution writable cam stream r disk =
    let file = load_mock_resolutions disk in
    let streams = get_or (file cam) default_streams in
    let entry = change_entry r (get_or (streams stream) empty_entry) in
    if writable then some (with_camera cam (with_stream stream entry streams) file) else disk

-- The settings of a stream with those of an entry in their place.
abbrev pub overlay : Request → Stream → Stream
overlay e s = record {
  width = get_or e.width s.width;
  height = get_or e.height s.height;
  framerate = get_or e.framerate s.framerate;
  bitrate = get_or e.bitrate s.bitrate;
  protocol = get_or e.protocol s.protocol;
}

abbrev pub overlay_found : Option Request → Stream → Stream
overlay_found none s = s
overlay_found (some e) s = overlay e s

pub record Resolutions : Type 0 where
  pub main : Stream
  pub sub : Stream

-- The loop over the two streams, on what the file holds for a camera.
abbrev pub resolutions_of : Option (Text → Option Request) → Resolutions
resolutions_of raw = record {
  main = overlay_found (get_or raw no_streams (text "main")) default_main;
  sub = overlay_found (get_or raw no_streams (text "sub")) default_sub;
}

unfoldable pub get_mock_resolution : ℕ → Option MockFile → Resolutions
get_mock_resolution cam disk = resolutions_of (load_mock_resolutions disk cam)
