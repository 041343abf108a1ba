-- ===== src/Devices/Streams.antt =====
-- routers/devices.py: the handlers that show and change the settings of video streams. The calls of a
-- batch run side by side, at most three at a time; each saves its settings before it waits for the
-- first time, so they save in the order of the cameras, and the answers of the recorder to a camera
-- are an argument.
pub mod Batch
use atm_monitoring_agent.Prelude.{
  ℕ, ◌+◌, Bool, true, false, not, ◌&&◌, ◌||◌, String, Option, none, some, List, [], ◌∷◌, ◌==◌,
  if◌then◌else◌, is_some, get_or,
}
use atm_monitoring_agent.ParserModels.{Text}
use atm_monitoring_agent.Models.{Device}
use atm_monitoring_agent.TextOps.{text, text_eq}
use atm_monitoring_agent.Recorder.Stream.{Request}
use atm_monitoring_agent.Recorder.Mock.{MockFile, empty_entry}
use atm_monitoring_agent.Recorder.Channel.{extract_channel_id}
use atm_monitoring_agent.Recorder.Resolution.{
  Answer, Recorder, Outcome, Shown, get_camera_resolution, set_camera_resolution,
}
use atm_monitoring_agent.Devices.{find_device}

-- `{"success": False, "message": …}`, or a result.
pub data Reply {ℓ} (A : Type ℓ) : Type ℓ where
  fails : String → Reply A
  gives : A → Reply A

infixl 5 ◌>>=◌ ◌>>◌
abbrev pub ◌>>=◌ {ℓ κ} : {A : Type ℓ} {B : Type κ} → Reply A → (A → Reply B) → Reply B
fails m >>= f = fails m
gives a >>= f = f a

abbrev pub ◌>>◌ {ℓ} : {B : Type ℓ} → Reply (Unit {0}) → Reply B → Reply B
m >> k = m >>= λ _. k

abbrev pub or_fail {ℓ} : {A : Type ℓ} → Option A → String → Reply A
or_fail none m = fails m
or_fail (some a) m = gives a

abbrev pub guard : Bool → String → Reply (Unit {0})
guard true m = gives tt
guard false m = fails m

-- A number that is there and not 0.
abbrev pub truthy : Option ℕ → Option ℕ
truthy none = none
truthy (some n) = if n == 0 then none else some n

unfoldable pub find_camera : ℕ → List Device → Reply Device
find_camera device_id rows = do
  cam ← or_fail (find_device device_id rows) "Camera device not found"
  guard (text_eq cam.kind (text "CAM")) "Camera device not found"
  gives cam

unfoldable pub parent_of : Device → List Device → Reply Device
parent_of cam rows = do
  parent ← or_fail (truthy cam.parent_nvr_id) "Camera has no parent NVR"
  or_fail (find_device parent rows) "Parent NVR not found"

unfoldable pub get_device_resolution :
    ℕ → List Device → Answer → Answer → Option MockFile → Reply Shown
unfolding find_camera parent_of
get_device_resolution device_id rows main sub disk = do
  cam ← find_camera device_id rows
  nvr ← parent_of cam rows
  gives (get_camera_resolution nvr cam.id main sub disk)

-- The body of a request; `stream_type` has a default.
pub record StreamPayload : Type 0 where
  pub stream_type : Option Text
  pub settings : Request

abbrev pub stream_type_of : StreamPayload → Text
stream_type_of payload = get_or payload.stream_type (text "main")

abbrev has_setting : Request → Bool
has_setting r =
    is_some r.width
    || is_some r.height
    || is_some r.framerate
    || is_some r.bitrate
    || is_some r.protocol

unfoldable pub set_device_resolution :
    Recorder → Bool → ℕ → StreamPayload → List Device → Option MockFile → Reply Outcome
unfolding find_camera parent_of
set_device_resolution recorder writable device_id payload rows disk = do
  cam ← find_camera device_id rows
  nvr ← parent_of cam rows
  guard (has_setting payload.settings)
      "At least one stream setting parameter (width/height, framerate, bitrate, or protocol) must be specified"
  gives (
      set_camera_resolution recorder writable nvr (extract_channel_id cam.name) cam.id
        (stream_type_of payload) payload.settings disk)

-- `select(Device).where(Device.Type == "CAM", Device.ParentNvrId == nvr_id)`
abbrev is_child : ℕ → Device → Bool
is_child nvr_id d =
    text_eq d.kind (text "CAM") && elim d.parent_nvr_id [ none ↦ false | some p ↦ p == nvr_id ]

unfoldable pub cameras_of : ℕ → List Device → List Device
cameras_of nvr_id [] = []
cameras_of nvr_id (d ∷ rows) =
    if is_child nvr_id d then d ∷ cameras_of nvr_id rows else cameras_of nvr_id rows

pub record CameraResult : Type 0 where
  pub cam_id : ℕ
  pub cam_name : Text
  pub success : Bool
  pub message : Text

-- The calls of a batch, with the file that they leave.
unfoldable pub run_set :
    (Device → Recorder)
    → Bool
    → Device
    → Text
    → Request
    → List Device
    → Option MockFile
    → List CameraResult × Option MockFile
run_set recorder writable nvr stream_type r [] disk = ([], disk)
run_set recorder writable nvr stream_type r (cam ∷ cameras) disk =
    let o =
      set_camera_resolution (recorder cam) writable nvr (extract_channel_id cam.name) cam.id
        stream_type r disk in
    let (results, after) = run_set recorder writable nvr stream_type r cameras o.disk in
    (
      record { cam_id = cam.id; cam_name = cam.name; success = o.success; message = o.message }
          ∷ results,
      after,
    )

unfoldable pub all_succeed : List CameraResult → Bool
all_succeed [] = true
all_succeed (r ∷ results) = r.success && all_succeed results

-- Without cameras there is no `overall_success`.
pub record BatchResult : Type 0 where
  pub overall_success : Option Bool
  pub message : String
  pub results : List CameraResult
  pub disk : Option MockFile

abbrev pub size_request : ℕ → ℕ → Request
size_request w h = record empty_entry { width = some w; height = some h }

abbrev pub run_batch :
    (Device → Recorder)
    → Bool
    → Device
    → Text
    → Request
    → List Device
    → Option MockFile
    → BatchResult
run_batch recorder writable nvr stream_type r [] disk = record {
  overall_success = none;
  message = "No cameras connected to this NVR";
  results = [];
  disk = disk;
}
run_batch recorder writable nvr stream_type r (cam ∷ cameras) disk =
    let (results, after) = run_set recorder writable nvr stream_type r (cam ∷ cameras) disk in
    record {
      overall_success = some (all_succeed results);
      message = "Batch resolution configuration complete";
      results = results;
      disk = after;
    }

unfoldable pub set_nvr_batch_resolution :
    (Device → Recorder)
    → Bool
    → ℕ
    → StreamPayload
    → List Device
    → Option MockFile
    → Reply BatchResult
set_nvr_batch_resolution recorder writable nvr_id payload rows disk = do
  nvr ← or_fail (find_device nvr_id rows) "NVR device not found"
  guard (text_eq nvr.kind (text "NVR")) "NVR device not found"
  width ← or_fail (truthy payload.settings.width) "Width and height parameters are required"
  height ← or_fail (truthy payload.settings.height) "Width and height parameters are required"
  gives (
      run_batch recorder writable nvr (stream_type_of payload) (size_request width height)
        (cameras_of nvr_id rows) disk)
