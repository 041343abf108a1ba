-- ===== src/Recorder/Check.antt =====
-- services/hikvision_service.py, `check_single_nvr_async`. `found` are the rows that the first session
-- reads and `rows` those that the second one finds, as others may write in between; the function gives
-- the rows that are left. A commit may raise, with the text of the exception.
pub mod Kept
pub mod Frame
use atm_monitoring_agent.Prelude.{
  ℕ, ◌+◌, Bool, true, false, not, ◌&&◌, ◌||◌, String, Option, none, some, List, [], ◌∷◌, ◌++◌, ◌==◌,
  if◌then◌else◌, get_or, length,
}
use atm_monitoring_agent.ParserModels.{Text}
use atm_monitoring_agent.Models.{Device}
use atm_monitoring_agent.TextOps.{text, text_eq}
use atm_monitoring_agent.TextOps.Decimal.{decimal}
use atm_monitoring_agent.Recorder.Disks.{
  is_recording_in, hdd_status_in, sizes_in, blocks_on, channel_address, is_named,
}

-- An answer to a GET, or how the request failed.
pub data Reply : Type 0 where
  responded : ℕ → Text → Reply
  timeout : Reply
  request_error other_error : Text → Reply

-- The answers of a recorder: of its channels, and of the three addresses of its disks.
pub record Answers : Type 0 where
  pub channels : Reply
  pub hdd : Reply
  pub storage : Reply
  pub cm_storage : Reply

pub record Session : Type 0 where
  pub now_str : Text
  pub failure : Option Text

pub record CheckResult : Type 0 where
  pub success : Bool
  pub is_recording : Bool
  pub hdd_status : String
  pub error : Option Text
  pub hdd_sizes : Option (Text × Text)

abbrev pub no_result : CheckResult
no_result = record {
  success = false;
  is_recording = false;
  hdd_status = "Unknown";
  error = none;
  hdd_sizes = none;
}

-- A check returns a result, or raises out of one of its handlers.
pub data Checked : Type 0 where
  returns : CheckResult → List Device → Checked
  raises : Text → List Device → Checked

-- The status and the sizes of the disks.
abbrev on_disks : Reply → String × Option (Text × Text)
on_disks (responded status xml) =
    if status == 200 then (hdd_status_in xml, sizes_in xml) else ("Healthy", none)
on_disks _ = ("Healthy", none)

-- `if hdd_res.status_code != 200:` the next address; an exception ends the search.
abbrev unless_ok : Reply → Reply → Reply
unless_ok (responded status xml) next = if status == 200 then responded status xml else next
unless_ok failed next = failed

unfoldable pub read_disks : Answers → String × Option (Text × Text)
read_disks a = on_disks (unless_ok (unless_ok a.hdd a.storage) a.cm_storage)

abbrev pub is_child : ℕ → Device → Bool
is_child nvr_id d =
    text_eq d.kind (text "CAM") && elim d.parent_nvr_id [ none ↦ false | some p ↦ p == nvr_id ]

-- `next((c for c in cameras if …), None)`, with a change to the camera that is found
unfoldable pub change_first : (Device → Bool) → (Device → Device) → List Device → List Device
change_first p f [] = []
change_first p f (d ∷ rows) = if p d then f d ∷ rows else d ∷ change_first p f rows

abbrev is_new_address : Text → Text → Bool
is_new_address old cam_ip =
    not (text_eq old cam_ip) && (not (text_eq cam_ip []) && not (text_eq cam_ip (text "0.0.0.0")))

abbrev pub moved_to : Text → Text → Device → Device
moved_to cam_ip now_str cam =
    if is_new_address cam.ip cam_ip
    then record cam { ip = cam_ip; updated_at = some now_str }
    else cam

abbrev pub is_camera_named : ℕ → Text → Device → Bool
is_camera_named nvr_id padded d = is_child nvr_id d && is_named padded d.name

abbrev pub on_channel : ℕ → Text → Option (Text × Text) → List Device → List Device
on_channel nvr_id now_str none rows = rows
on_channel nvr_id now_str (some (padded, cam_ip)) rows =
    change_first (is_camera_named nvr_id padded) (moved_to cam_ip now_str) rows

-- The loop over the channels of the answer.
unfoldable pub update_cameras : ℕ → Text → List Text → List Device → List Device
update_cameras nvr_id now_str [] rows = rows
update_cameras nvr_id now_str (block ∷ blocks) rows =
    update_cameras nvr_id now_str blocks (on_channel nvr_id now_str (channel_address block) rows)

-- `x or default` on a text
abbrev or_text : Option Text → String → Option Text
or_text none d = some (text d)
or_text (some []) d = some (text d)
or_text (some (c ∷ t)) d = some (c ∷ t)

abbrev pub with_sizes : Option (Text × Text) → Device → Device
with_sizes (some (capacity, used)) d = record d {
  nvr_hdd_capacity = some capacity;
  nvr_hdd_used = some used;
}
with_sizes none d = record d {
  nvr_hdd_capacity = or_text d.nvr_hdd_capacity "5.46 TB";
  nvr_hdd_used = or_text d.nvr_hdd_used "5.46 TB";
}

-- The recorder's own row after an answer, and after a failure.
abbrev pub on_answer : Bool → String → Option (Text × Text) → Text → Option Text → Device → Device
on_answer recording status sizes now_str old_date d = with_sizes sizes (record d {
  nvr_recording = if recording then 1 else 0;
  nvr_last_recording_date = if recording then some now_str else or_text old_date "N/A";
  nvr_hdd_status = some (text status);
})

abbrev pub on_failure : Device → Device
on_failure d = with_sizes none (record d { nvr_recording = 0 })

abbrev pub prepended : Device → Option (List Device) → Option (List Device)
prepended d none = none
prepended d (some rows) = some (d ∷ rows)

-- `db.get(Device, nvr_id)` with the changes to it; none if there is no such row
unfoldable pub change_nvr : ℕ → (Device → Device) → List Device → Option (List Device)
change_nvr nvr_id f [] = none
change_nvr nvr_id f (d ∷ rows) =
    if d.id == nvr_id then some (f d ∷ rows) else prepended d (change_nvr nvr_id f rows)

-- `if nvr_final: …; await db.commit()`: without the row there is no commit, and all is lost.
abbrev pub commit_rows :
    Option Text → Option (List Device) → List Device → Option Text × List Device
commit_rows failure none rows = (none, rows)
commit_rows none (some changed) rows = (none, changed)
commit_rows (some e) (some changed) rows = (some e, rows)

abbrev with_error : Option Text → CheckResult → CheckResult
with_error none r = r
with_error (some e) r = record r { error = some e }

-- The branch of status 200; the result is filled before the commit.
unfoldable pub store_answer :
    Session → ℕ → Option Text → Answers → Text → List Device → CheckResult × List Device
unfolding read_disks
store_answer s nvr_id old_date a xml rows =
    let recording = is_recording_in xml in
    let (status, sizes) = read_disks a in
    let moved = update_cameras nvr_id s.now_str (blocks_on (length xml) xml) rows in
    let (error, after) =
      commit_rows s.failure
        (change_nvr nvr_id (on_answer recording status sizes s.now_str old_date) moved) rows in
    (
      with_error error (record {
        success = true;
        is_recording = recording;
        hdd_status = status;
        error = none;
        hdd_sizes = sizes;
      }),
      after,
    )

abbrev pub failed_with : Text → CheckResult
failed_with e = record no_result { error = some e }

abbrev pub or_raise : Option Text → CheckResult → List Device → Checked
or_raise none r rows = returns r rows
or_raise (some e) r rows = raises e rows

-- The row of a recorder that did not answer, in a handler: a commit that raises there is not caught.
unfoldable pub store_failure : Session → ℕ → Text → List Device → Checked
store_failure s nvr_id e rows =
    let (error, after) = commit_rows s.failure (change_nvr nvr_id on_failure rows) rows in
    or_raise error (failed_with e) after

-- The branch of another status, inside `try`.
unfoldable pub store_status : Session → ℕ → ℕ → List Device → Checked
store_status s nvr_id status rows =
    let (error, after) = commit_rows s.failure (change_nvr nvr_id on_failure rows) rows in
    returns (with_error error (failed_with (text "NVR responded with HTTP " ++ decimal status)))
      after

unfoldable pub on_channels : Session → ℕ → Option Text → Answers → Reply → List Device → Checked
on_channels s nvr_id old_date a (responded status xml) rows =
    let (r, after) = store_answer s nvr_id old_date a xml rows in
    if status == 200 then returns r after else store_status s nvr_id status rows
on_channels s nvr_id old_date a timeout rows =
    store_failure s nvr_id (text "Timeout checking NVR (offline)") rows
on_channels s nvr_id old_date a (request_error e) rows = store_failure s nvr_id e rows
on_channels s nvr_id old_date a (other_error e) rows = returns (failed_with e) rows

unfoldable pub find_row : ℕ → List Device → Option Device
find_row nvr_id [] = none
find_row nvr_id (d ∷ rows) = if d.id == nvr_id then some d else find_row nvr_id rows

abbrev missing : Option Text → Bool
missing none = true
missing (some t) = text_eq t []

abbrev pub lacks_access : Device → Bool
lacks_access nvr = text_eq nvr.ip [] || (missing nvr.hik_username || missing nvr.hik_password)

-- The checks of the first session.
abbrev pub on_row : Session → ℕ → Answers → Option Device → List Device → Checked
on_row s nvr_id a none rows = returns (failed_with (text "Device not found or not NVR")) rows
on_row s nvr_id a (some nvr) rows =
    if not (text_eq nvr.kind (text "NVR"))
    then returns (failed_with (text "Device not found or not NVR")) rows
    else if lacks_access nvr
    then returns (failed_with (text "Missing credentials or IP")) rows
    else on_channels s nvr_id nvr.nvr_last_recording_date a a.channels rows

unfoldable pub check_single_nvr : Session → ℕ → Answers → List Device → List Device → Checked
unfolding find_row on_channels
check_single_nvr s nvr_id a found rows = on_row s nvr_id a (find_row nvr_id found) rows
