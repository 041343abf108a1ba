-- ===== src/Recorder/Resolution/Accepting.antt =====
-- services/hikvision_service.py: when `set_camera_resolution_async` reports an update.
use atm_monitoring_agent.Prelude.{ℕ, ◌≡◌, Bool, false, not, ◌&&◌, Option, List, [], ◌∷◌, arith}
use atm_monitoring_agent.ParserModels.{Text}
use atm_monitoring_agent.Models.{Device}
use atm_monitoring_agent.Recorder.Stream.{Request}
use atm_monitoring_agent.Recorder.Mock.{MockFile}
use atm_monitoring_agent.Recorder.Resolution.{
  Answer, answered, raised, Recorder, Outcome, is_accepted, set_camera_resolution,
}

abbrev is_refused : Answer → Bool
is_refused (answered status body) = not (is_accepted (answered status body))
is_refused (raised e) = false

-- The last content that was sent was accepted.
abbrev pub applied : Recorder → List Text → Bool
applied recorder [] = false
applied recorder (minimal ∷ []) = is_accepted (recorder.put_minimal minimal)
applied recorder (minimal ∷ full ∷ _) = is_accepted (recorder.put_full full)

-- Both contents were sent, and both were refused.
abbrev pub refused : Recorder → List Text → Bool
refused recorder [] = false
refused recorder (minimal ∷ []) = false
refused recorder (minimal ∷ full ∷ _) =
    is_refused (recorder.put_minimal minimal) && is_refused (recorder.put_full full)

pub record IsHonest (recorder : Recorder) (o : Outcome) : Type 0 where
  pub applied_lem : (o.success && not o.is_mock) ≡ applied recorder o.sent
  pub refused_lem : not o.success ≡ refused recorder o.sent

-- A change of a stream is reported as an update of the recorder exactly when the recorder accepted
-- the content that was sent last, and as a failure exactly when it refused both contents; in all other
-- cases it is reported as simulated.
pub set_camera_resolution-IsHonest :
    (recorder : Recorder) (writable : Bool) (nvr : Device) (channel_id cam_id : ℕ)
    (stream_type : Text) (r : Request) (disk : Option MockFile)
    → IsHonest recorder
        (set_camera_resolution recorder writable nvr channel_id cam_id stream_type r disk)
unfolding set_camera_resolution
set_camera_resolution-IsHonest recorder writable nvr channel_id cam_id stream_type r disk =
    ground arith
