-- ===== src/Recorder/Resolution/Showing.antt =====
-- services/hikvision_service.py: what `get_camera_resolution_async` shows after
-- `set_camera_resolution_async`.
use atm_monitoring_agent.Prelude.{
  ℕ, ◌≡◌, ◌∙◌, ap, Bool, true, false, Option, none, some, get_or, arith, refl, ==_iff,
}
use atm_monitoring_agent.ParserModels.{Text}
use atm_monitoring_agent.Models.{Device}
use atm_monitoring_agent.Recorder.Stream.{Stream, Request}
use atm_monitoring_agent.Recorder.Mock.{
  MockFile, Resolutions, save_mock_resolution, get_mock_resolution,
}
use atm_monitoring_agent.Recorder.Mock.Saving.{changed, get_mock_resolution-save_mock_resolution}
use atm_monitoring_agent.Recorder.Resolution.{
  Answer, Recorder, Shown, is_reachable, read_answer, get_camera_resolution, set_camera_resolution,
}

-- What the recorder itself shows of a stream, if it is asked.
abbrev pub asked : Bool → Option Stream × Option Text → Option Stream
asked true found = found.0
asked false found = none

-- The result shows two streams: the recorder's where it answers with them, or those given.
pub record Shows (main sub : Option Stream) (mock : Resolutions) (s : Shown) : Type 0 where
  pub success_lem : s.success ≡ true
  pub main_lem : s.main ≡ some (get_or main mock.main)
  pub sub_lem : s.sub ≡ some (get_or sub mock.sub)

get_camera_resolution-Shows :
    (nvr : Device) (cam_id : ℕ) (a b : Answer) (disk : Option MockFile) (mock : Resolutions)
    → get_mock_resolution cam_id disk ≡ mock
    → Shows
        (asked (is_reachable nvr) (read_answer "Main" 25 2048 a))
        (asked (is_reachable nvr) (read_answer "Sub" 15 512 b))
        mock
        (get_camera_resolution nvr cam_id a b disk)
unfolding get_camera_resolution
get_camera_resolution-Shows nvr cam_id a b disk mock e = ground arith

pub disk-set_camera_resolution :
    (recorder : Recorder) (writable : Bool) (nvr : Device) (channel_id cam_id : ℕ)
    (stream_type : Text) (r : Request) (disk : Option MockFile)
    → (set_camera_resolution recorder writable nvr channel_id cam_id stream_type r disk).disk
      ≡ save_mock_resolution writable cam_id stream_type r disk
unfolding set_camera_resolution
disk-set_camera_resolution recorder writable nvr channel_id cam_id stream_type r disk = ground arith

-- After a change of one stream of a camera has been saved, its settings are shown with what was asked
-- for, whatever the recorder answered to the change: a stream that the recorder answers with is shown
-- as it answers, any other is shown with the saved settings, those of the changed stream changed.
pub get_camera_resolution-set_camera_resolution :
    (recorder : Recorder) (nvr : Device) (channel_id cam_id : ℕ) (stream_type : Text) (r : Request)
    (disk : Option MockFile) (a b : Answer)
    → Shows
        (asked (is_reachable nvr) (read_answer "Main" 25 2048 a))
        (asked (is_reachable nvr) (read_answer "Sub" 15 512 b))
        (changed stream_type r (get_mock_resolution cam_id disk))
        (get_camera_resolution nvr cam_id a b
          (set_camera_resolution recorder true nvr channel_id cam_id stream_type r disk).disk)
get_camera_resolution-set_camera_resolution recorder nvr channel_id cam_id stream_type r disk a b =
    let saved =
      ap (get_mock_resolution cam_id)
        (disk-set_camera_resolution recorder true nvr channel_id cam_id stream_type r disk)
      ∙ get_mock_resolution-save_mock_resolution true cam_id cam_id stream_type r disk
      ∙ rw ((==_iff cam_id cam_id).1 refl) in
    get_camera_resolution-Shows nvr cam_id a b
      (set_camera_resolution recorder true nvr channel_id cam_id stream_type r disk).disk
      (changed stream_type r (get_mock_resolution cam_id disk)) saved
