-- ===== src/Recorder/Clock/Syncing.antt =====
-- services/hikvision_service.py: what `sync_nvr_time_async` sends and reports.
use atm_monitoring_agent.Prelude.{ℕ, ◌≡◌, Bool, true, false, ◌||◌, List, [], ◌∷◌, arith}
use atm_monitoring_agent.ParserModels.{Text}
use atm_monitoring_agent.Models.{Device}
use atm_monitoring_agent.Recorder.Resolution.{is_accepted}
use atm_monitoring_agent.Recorder.Clock.{
  ClockServer, Content, ntp_content, clock_content, Synced, manually_push, sync_nvr_time,
}

-- The recorder accepted the content.
abbrev pub takes : ClockServer → Content → Bool
takes server (ntp_content t) = is_accepted (server.put_ntp t)
takes server (clock_content t) = is_accepted (server.put_time t)

abbrev pub takes_any : ClockServer → List Content → Bool
takes_any server [] = false
takes_any server (c ∷ sent) = takes server c || takes_any server sent

pub record IsHonest (server : ClockServer) (r : Synced) : Type 0 where
  pub synced_lem : r.success ≡ true → r.is_mock ≡ false → takes_any server r.sent ≡ true
  pub failed_lem : r.success ≡ false → takes_any server r.sent ≡ false

-- A synchronisation that is reported as done, and not as simulated, had a content accepted by the
-- recorder, that of its NTP client or that of its clock; one that is reported as failed had none
-- accepted.
pub sync_nvr_time-IsHonest :
    (server : ClockServer) (time_str : Text) (nvr : Device) (ntp_host : Text) (ntp_port : ℕ)
    → IsHonest server (sync_nvr_time server time_str nvr ntp_host ntp_port)
unfolding sync_nvr_time manually_push
sync_nvr_time-IsHonest server time_str nvr ntp_host ntp_port = ground arith
