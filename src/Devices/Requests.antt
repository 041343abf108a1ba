-- ===== src/Devices/Requests.antt =====
-- routers/devices.py: the handlers that set the clock of a recorder and show the picture of a camera.
-- The picture is a list of bytes, and `placeholder` the image file, if it exists; its reading succeeds.
use atm_monitoring_agent.Prelude.{
  ℕ, ◌+◌, ◌*◌, Bool, not, ◌&&◌, String, Option, none, some, List, [], ◌++◌, ◌==◌, if◌then◌else◌,
  get_or,
}
use atm_monitoring_agent.ParserModels.{Text}
use atm_monitoring_agent.Models.{Device}
use atm_monitoring_agent.TextOps.{text, text_eq}
use atm_monitoring_agent.Recorder.Channel.{extract_channel_id}
use atm_monitoring_agent.Recorder.Resolution.{Answer, answered, raised, is_reachable}
use atm_monitoring_agent.Recorder.Clock.{ClockServer, Synced, sync_nvr_time}
use atm_monitoring_agent.Devices.{find_device}
use atm_monitoring_agent.Devices.Streams.{Reply, gives, ◌>>=◌, ◌>>◌, or_fail, guard, truthy}

-- The columns of the row of settings that name the NTP server.
pub record NtpSettings : Type 0 where
  pub ntp_server_ip : Option Text
  pub ntp_server_port : Option ℕ

abbrev default_host : Text
default_host = text "10.128.92.9"

abbrev host_of : Option NtpSettings → Text
host_of none = default_host
host_of (some s) = elim s.ntp_server_ip [
  | none ↦ default_host
  | some ip ↦ if text_eq ip [] then default_host else ip
]

abbrev port_of : Option NtpSettings → ℕ
port_of none = 123
port_of (some s) = get_or (truthy s.ntp_server_port) 123

unfoldable pub sync_device_nvr_time :
    ClockServer → Text → ℕ → Option NtpSettings → List Device → Reply Synced
sync_device_nvr_time server time_str device_id settings rows = do
  nvr ← or_fail (find_device device_id rows) "NVR device not found"
  guard (text_eq nvr.kind (text "NVR")) "NVR device not found"
  gives (sync_nvr_time server time_str nvr (host_of settings) (port_of settings))

pub record Response : Type 0 where
  pub status_code : ℕ
  pub content : Text
  pub media_type : Option String

abbrev responds : ℕ → String → Response
responds status message = record { status_code = status; content = text message; media_type = none }

abbrev picture : String → Text → Response
picture kind content = record { status_code = 200; content = content; media_type = some kind }

abbrev on_exception : Text → Response
on_exception e = record { status_code = 500; content = text "Error: " ++ e; media_type = none }

-- `res.status_code == 200 and res.content`
abbrev shows : ℕ → Text → Bool
shows status content = status == 200 && not (text_eq content [])

-- The answer of the sub-channel, after one of the main stream that is no picture.
abbrev on_sub : ℕ → Answer → Response
on_sub main_status (raised e) = on_exception e
on_sub main_status (answered status content) =
    if shows status content
    then picture "image/jpeg" content
    else responds main_status "NVR snapshot query failed"

abbrev on_main : Answer → Answer → Response
on_main sub (raised e) = on_exception e
on_main sub (answered status content) =
    if shows status content then picture "image/jpeg" content else on_sub status sub

abbrev placeholder_of : Option Text → Response
placeholder_of none = responds 404 "NVR offline and no mock placeholder image found"
placeholder_of (some content) = picture "image/png" content

-- What the recorder shows of a camera; it is asked for the tracks 100 * channel + 1 and + 2.
abbrev picture_of : (ℕ → Answer) → Option Text → Device → Device → Response
picture_of get placeholder camera nvr =
    let channel_id = extract_channel_id camera.name in
    if not (is_reachable nvr)
    then placeholder_of placeholder
    else if channel_id == 0
    then responds 400 "Could not extract camera channel ID"
    else on_main (get (channel_id * 100 + 2)) (get (channel_id * 100 + 1))

abbrev with_parent : (ℕ → Answer) → Option Text → Device → Option Device → Response
with_parent get placeholder camera none = responds 404 "Parent NVR not found"
with_parent get placeholder camera (some nvr) = picture_of get placeholder camera nvr

abbrev on_parent_id : (ℕ → Answer) → Option Text → List Device → Device → Option ℕ → Response
on_parent_id get placeholder rows camera none = responds 404 "Camera does not have parent NVR"
on_parent_id get placeholder rows camera (some parent) =
    with_parent get placeholder camera (find_device parent rows)

abbrev on_camera : (ℕ → Answer) → Option Text → List Device → Option Device → Response
on_camera get placeholder rows none = responds 404 "Camera not found"
on_camera get placeholder rows (some camera) =
    if text_eq camera.kind (text "CAM")
    then on_parent_id get placeholder rows camera (truthy camera.parent_nvr_id)
    else responds 404 "Camera not found"

-- `get_camera_snapshot`, on the answers to the requests for a track
unfoldable pub get_camera_snapshot : (ℕ → Answer) → Option Text → ℕ → List Device → Response
get_camera_snapshot get placeholder camera_id rows =
    on_camera get placeholder rows (find_device camera_id rows)
