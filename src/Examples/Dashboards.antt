-- ===== src/Examples/Dashboards.antt =====
-- The theorems on the recorders, the devices, the file monitor and the heartbeat, on small inputs.
use atm_monitoring_agent.Prelude.{
  ℕ, ◌≡◌, refl, true, false, Option, none, some, List, [], ◌∷◌, ◌++◌, arith,
}
use atm_monitoring_agent.ParserModels.{Text}
use atm_monitoring_agent.Models.{Device, Row, model_validate}
use atm_monitoring_agent.TextOps.{text, is_digit, upper, int, text_eq}
use atm_monitoring_agent.Recorder.Stream.{
  Stream, Request, read_stream, full_xml, stream_of, shown_rate, tag_class, tag_name,
}
use atm_monitoring_agent.TextOps.Pattern.{◌>>=◌, lit, run1, search_for}
use atm_monitoring_agent.Recorder.Element.{find_value, element}
use atm_monitoring_agent.Recorder.Stream.RoundTrip.{
  merged, IsComplete, IsPlain, read_stream-full_xml,
}
use atm_monitoring_agent.Recorder.Mock.{MockFile, get_mock_resolution}
use atm_monitoring_agent.Recorder.Mock.Saving.{changed}
use atm_monitoring_agent.Recorder.Channel.{extract_channel_id}
use atm_monitoring_agent.Recorder.Channel.Trailing.{number_or_one, extract_channel_id-append}
use atm_monitoring_agent.Recorder.Resolution.{
  answered, raised, Recorder, is_reachable, read_answer, get_camera_resolution,
  set_camera_resolution,
}
use atm_monitoring_agent.Recorder.Resolution.Showing.{
  asked, Shows, get_camera_resolution-set_camera_resolution,
}
use atm_monitoring_agent.Recorder.Resolution.Accepting.{IsHonest, set_camera_resolution-IsHonest}
use atm_monitoring_agent.Devices.{
  Payload, Server, update, failed, new_device, handle, update_device, find_stored, store_device,
  find_device,
}
use atm_monitoring_agent.Devices.View.{IsPromised, handle-IsPromised}
use atm_monitoring_agent.Devices.Streams.{
  StreamPayload, BatchResult, run_batch, size_request, cameras_of, set_nvr_batch_resolution,
}
use atm_monitoring_agent.Devices.Streams.Batch.{IsSaved, set_nvr_batch_resolution-IsSaved}
use atm_monitoring_agent.FileMonitor.{
  outside, waiting, inside, scanning, cleared, Monitor, new_monitor, no_settings, Move, starts,
  stops, clears, calls, enters, finishes, checks, at_place, step, run, check_settings,
}
use atm_monitoring_agent.FileMonitor.Exclusion.{IsSafe, run-IsSafe}
use atm_monitoring_agent.Database.{empty_db, new_live_status}
use atm_monitoring_agent.Metrics.{init_metrics}
use atm_monitoring_agent.Repositories.{get_by_atm_id, update_live_status}
use atm_monitoring_agent.Heartbeat.{Beat, State, send_heartbeat}
use atm_monitoring_agent.Heartbeat.Transaction.{
  IsBeat, send_heartbeat-IsBeat, update_live_status-send_heartbeat,
}

abbrev stream_xml : Text
stream_xml =
    text
      "<StreamingChannel><videoResolutionWidth>1920</videoResolutionWidth><VideoResolutionHeight>1080</VideoResolutionHeight><maxFrameRate>2500</maxFrameRate><constantBitRate>2048</constantBitRate><streamingTransport>RTSP</streamingTransport></StreamingChannel>"

abbrev smaller : Request
smaller = record {
  width = some 1280;
  height = some 720;
  framerate = some 12;
  bitrate = none;
  protocol = some (text "HTTP");
}

abbrev full_hd : Stream
full_hd = record {
  width = 1920;
  height = 1080;
  framerate = 25;
  bitrate = 2048;
  protocol = text "RTSP";
}

stream_xml-read_stream : read_stream 25 2048 stream_xml ≡ some full_hd
unfolding read_stream stream_of shown_rate int find_value element tag_class tag_name is_digit upper
    lit run1 search_for
stream_xml-read_stream = refl

stream_xml-IsComplete : IsComplete stream_xml
unfolding find_value element tag_class tag_name is_digit upper lit run1 search_for
stream_xml-IsComplete = record { rate_lem = refl; bitrate_lem = refl; transport_lem = refl }

smaller-IsPlain : IsPlain smaller
smaller-IsPlain = record {
  rate_lem = λ h. cc;
  protocol_lem = (λ h. cc, (refl, (refl, (refl, (refl, tt)))));
  literal_lem = omega arith;
}

read_stream-full_xml_example :
    (full_xml smaller stream_xml >>= read_stream 25 2048) ≡ some (merged smaller full_hd)
read_stream-full_xml_example =
    read_stream-full_xml 25 2048 smaller stream_xml full_hd stream_xml-read_stream
      stream_xml-IsComplete smaller-IsPlain

abbrev pub nvr : Device
nvr = record {
  id = 7;
  name = text "Branch-NVR";
  ip = text "10.0.0.9";
  kind = text "NVR";
  location = none;
  hik_username = some (text "admin");
  hik_password = some (text "secret");
  notes = none;
  parent_nvr_id = none;
  is_online = 1;
  last_ping_time = none;
  last_latency = none;
  last_packet_loss = none;
  consecutive_failures = 0;
  down_since = none;
  nvr_recording = 0;
  nvr_last_recording_date = none;
  nvr_hdd_status = none;
  nvr_hdd_capacity = none;
  nvr_hdd_used = none;
  atm_balance = none;
  atm_status = none;
  created_at = none;
  updated_at = none;
}

abbrev pub cam : ℕ → Device
cam i = record nvr {
  id = i;
  name = text "Branch-CAM-03";
  kind = text "CAM";
  parent_nvr_id = some 7;
}

-- A recorder that accepts nothing but the full XML.
abbrev strict : Recorder
strict = record {
  get = answered 200 stream_xml;
  put_minimal = λ t. answered 400 [];
  put_full = λ t. answered 200 [];
  re_error = text "bad escape";
}

abbrev empty_file : Option MockFile
empty_file = none

get_camera_resolution-set_camera_resolution_example :
    Shows
      (asked (is_reachable nvr) (read_answer "Main" 25 2048 (answered 200 stream_xml)))
      (asked (is_reachable nvr) (read_answer "Sub" 15 512 (raised (text "timeout"))))
      (changed (text "sub") smaller (get_mock_resolution 8 empty_file))
      (get_camera_resolution nvr 8
        (answered 200 stream_xml)
        (raised (text "timeout"))
        (set_camera_resolution strict true nvr 3 8 (text "sub") smaller empty_file).disk)
get_camera_resolution-set_camera_resolution_example =
    get_camera_resolution-set_camera_resolution strict nvr 3 8 (text "sub") smaller empty_file
      (answered 200 stream_xml) (raised (text "timeout"))

set_camera_resolution-IsHonest_example :
    IsHonest strict (set_camera_resolution strict true nvr 3 8 (text "main") smaller empty_file)
set_camera_resolution-IsHonest_example =
    set_camera_resolution-IsHonest strict true nvr 3 8 (text "main") smaller empty_file

extract_channel_id-append_example :
    extract_channel_id (text "Branch-CAM" ++ 45 ∷ text "03") ≡ number_or_one (text "03")
unfolding is_digit
extract_channel_id-append_example =
    extract_channel_id-append (text "Branch-CAM") 45 (text "03") refl (omega arith)
      (refl, (refl, tt))

abbrev pub devices : List Device
devices = cam 8 ∷ nvr ∷ record (cam 9) { is_online = 0 } ∷ []

abbrev server : Server
server = record {
  now_str = text "01/02/2026, 10:00:00 AM";
  new_id = 10;
  inserted_null = some [];
  failure = none;
  refresh = none;
  invalid = text "not a string";
}

abbrev rename : Payload
rename = record {
  name = some (some (text "Gate-CAM-04"));
  ip = none;
  kind = none;
  location = some none;
  notes = none;
  hik_username = none;
  hik_password = none;
  parent_nvr_id = none;
}

abbrev stored : List Row
stored = new_device server rename ∷ []

-- A request that sets the name to null.
abbrev unnamed : Payload
unnamed = record rename { name = some none }

handle-IsPromised_example : IsPromised server (update 10 unnamed) stored
handle-IsPromised_example = handle-IsPromised server (update 10 unnamed) stored tt

-- The change is kept, and answered as a failure.
unnamed-handle : handle server (update 10 unnamed) stored ≡ (
  record (new_device server rename) { name = none } ∷ [],
  failed (text "Failed to update device: not a string"),
)
unfolding handle update_device find_stored store_device model_validate
unnamed-handle = refl

abbrev batch_payload : StreamPayload
batch_payload = record { stream_type = none; settings = smaller }

abbrev batch_done : BatchResult
batch_done =
    run_batch (λ c. strict) true nvr (text "main") (size_request 1280 720)
      (cam 8 ∷ record (cam 9) { is_online = 0 } ∷ []) empty_file

set_nvr_batch_resolution-IsSaved_example : IsSaved 7 batch_payload devices empty_file batch_done
unfolding set_nvr_batch_resolution find_device cameras_of text_eq
set_nvr_batch_resolution-IsSaved_example =
    set_nvr_batch_resolution-IsSaved (λ c. strict) 7 batch_payload devices empty_file batch_done
      refl

abbrev moves : List Move
moves =
    starts ∷ calls 1 ∷ calls 2 ∷ enters 2 ∷ checks 2 no_settings ∷ stops ∷ finishes 2 ∷ clears ∷ []

abbrev stopped : Monitor
stopped = record {
  is_running = false;
  lock = none;
  place = at_place 2 outside (
      at_place 2 scanning
        (at_place 2 inside (at_place 2 waiting (at_place 1 waiting new_monitor.place))));
  stop = cleared;
}

run-IsSafe_example : IsSafe stopped
unfolding run step check_settings
run-IsSafe_example = run-IsSafe moves stopped refl

abbrev beat : Beat
beat = record {
  atm_now = 50;
  live_now = 51;
  version = "v1.0.0-rc1";
  hostname = "atm-1";
  agent = "Agent";
  raises = λ place. false;
}

abbrev watched : State
watched = record {
  atms =
      record {
        id = 1;
        last_heartbeat = none;
        agent_version = none;
        host_name = none;
        agent_name = none;
      }
      ∷ [];
  db = record empty_db { live = new_live_status 1 1 ∷ []; next_version = 2 };
  metrics = init_metrics;
}

send_heartbeat-IsBeat_example : IsBeat beat 1 watched (send_heartbeat beat 1 watched)
send_heartbeat-IsBeat_example = send_heartbeat-IsBeat beat 1 watched

update_live_status-send_heartbeat_example :
    let after = send_heartbeat beat 1 watched in
    update_live_status after.db (new_live_status 1 1) (some 1) ≡ (false, after.db)
unfolding get_by_atm_id
update_live_status-send_heartbeat_example =
    update_live_status-send_heartbeat beat 1 watched (new_live_status 1 1) (new_live_status 1 1)
      refl refl (omega arith) refl
