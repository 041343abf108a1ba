-- ===== src/Recorder/Clock.antt =====
-- services/hikvision_service.py: `sync_nvr_time_async` and `manually_push_ntp_time`, on what the
-- recorder answers. `time_str` is the time of the NTP server, as `isoformat` writes it.
pub mod Syncing
pub mod Writing
use atm_monitoring_agent.Prelude.{
  ℕ, zero, suc, Bool, true, false, not, String, Option, none, some, List, [], ◌∷◌, ◌++◌, ◌==◌,
  if◌then◌else◌, is_some, length,
}
use atm_monitoring_agent.ParserModels.{Text}
use atm_monitoring_agent.Models.{Device}
use atm_monitoring_agent.TextOps.{text, newline, is_digit}
use atm_monitoring_agent.TextOps.Decimal.{decimal}
use atm_monitoring_agent.TextOps.Pattern.{◌>>=◌, exactly}
use atm_monitoring_agent.Recorder.Element.{not_angle, find_value, element_of, replace_on, sub_value}
use atm_monitoring_agent.Recorder.Resolution.{Answer, answered, raised, is_reachable, is_accepted}

-- What a recorder answers to the requests for the settings of its NTP client and of its clock.
pub record ClockServer : Type 0 where
  pub get_ntp : Answer
  pub put_ntp : Text → Answer
  pub get_time : Answer
  pub put_time : Text → Answer
  pub re_error : Text

-- A content that is sent in a PUT: to the NTP client, or to the clock.
pub data Content : Type 0 where
  ntp_content clock_content : Text → Content

abbrev ntp_end : Text
ntp_end = text "</NTP>"

-- `xml.replace('</NTP>', f'  {line}\n</NTP>')`
unfoldable pub add_line : Text → Text → Text
unfolding exactly
add_line new xml =
    replace_on (exactly ntp_end) (text "  " ++ (new ++ newline ∷ ntp_end)) (length xml) xml

-- The element is replaced if it is there, and else added; none if `re.sub` raises.
unfoldable pub put_or_add : (ℕ → Bool) → String → Text → Text → Option Text
unfolding add_line
put_or_add p tag value xml =
    if is_some (find_value p (text tag) xml)
    then sub_value p (text tag) value xml
    else some (add_line (element_of (text tag) value) xml)

unfoldable pub ntp_xml : Text → ℕ → Text → Option Text
unfolding put_or_add
ntp_xml ntp_host ntp_port xml = do
  enabled ← sub_value not_angle (text "enabled") (text "true") xml
  served ← put_or_add not_angle "ntpServer" ntp_host enabled
  put_or_add is_digit "ntpPort" (decimal ntp_port) served

unfoldable pub time_xml : Text → Text → Option Text
time_xml time_str xml = do
  manual ← sub_value not_angle (text "timeMode") (text "manual") xml
  sub_value not_angle (text "localTime") time_str manual

-- A result with the contents that were sent, or an exception.
pub data Push : Type 0 where
  pushes : Bool → Text → List Content → Push
  fails : Text → List Content → Push

abbrev pushed_by : Text → Text
pushed_by time_str = text "NVR time synced by manually pushing NTP time (" ++ (time_str ++ text ")")

-- The message has the status of the GET also where the PUT was refused.
abbrev not_pushed : ℕ → Text
not_pushed status = text "Could not sync NVR time: NVR GET returned HTTP " ++ decimal status

abbrev on_put_time : Text → ℕ → List Content → Answer → Push
on_put_time time_str status sent (raised e) = fails e sent
on_put_time time_str status sent (answered put_status body) =
    if is_accepted (answered put_status body)
    then pushes true (pushed_by time_str) sent
    else pushes false (not_pushed status) sent

abbrev push_time : ClockServer → Text → ℕ → Option Text → Push
push_time server time_str status none = fails server.re_error []
push_time server time_str status (some content) =
    on_put_time time_str status (clock_content content ∷ []) (server.put_time content)

abbrev on_time : ClockServer → Text → Answer → Push
on_time server time_str (raised e) = fails e []
on_time server time_str (answered status xml) =
    if status == 200
    then push_time server time_str status (time_xml time_str xml)
    else pushes false (not_pushed status) []

unfoldable pub manually_push : ClockServer → Text → Push
unfolding time_xml
manually_push server time_str = on_time server time_str server.get_time

-- The result of `sync_nvr_time_async`.
pub record Synced : Type 0 where
  pub success : Bool
  pub message : Text
  pub is_mock : Bool
  pub sent : List Content

abbrev simulated : Text → List Content → Synced
simulated e sent = record {
  success = true;
  message = text "NVR time synced (Simulated Success - Request failed: " ++ (e ++ text ")");
  is_mock = true;
  sent = sent;
}

-- `return await manually_push_ntp_time(…)`, after what was sent before
abbrev push_result : List Content → Push → Synced
push_result before (pushes success message sent) = record {
  success = success;
  message = message;
  is_mock = false;
  sent = before ++ sent;
}
push_result before (fails e sent) = simulated e (before ++ sent)

abbrev configured : Text → ℕ → List Content → Synced
configured ntp_host ntp_port sent = record {
  success = true;
  message =
      text "NVR configured and synced with NTP server " ++ (ntp_host ++ 58 ∷ decimal ntp_port);
  is_mock = false;
  sent = sent;
}

-- The result of the push after an accepted configuration is not looked at, only whether it raises.
abbrev after_push : Text → ℕ → List Content → Push → Synced
after_push ntp_host ntp_port before (pushes success message sent) =
    configured ntp_host ntp_port (before ++ sent)
after_push ntp_host ntp_port before (fails e sent) = simulated e (before ++ sent)

abbrev on_put_ntp : Text → ℕ → List Content → Push → Answer → Synced
on_put_ntp ntp_host ntp_port sent push (raised e) = simulated e sent
on_put_ntp ntp_host ntp_port sent push (answered status body) =
    if is_accepted (answered status body)
    then after_push ntp_host ntp_port sent push
    else push_result sent push

abbrev send_ntp : ClockServer → Text → ℕ → Push → Option Text → Synced
send_ntp server ntp_host ntp_port push none = simulated server.re_error []
send_ntp server ntp_host ntp_port push (some content) =
    on_put_ntp ntp_host ntp_port (ntp_content content ∷ []) push (server.put_ntp content)

abbrev on_ntp : ClockServer → Text → ℕ → Push → Answer → Synced
on_ntp server ntp_host ntp_port push (raised e) = simulated e []
on_ntp server ntp_host ntp_port push (answered status xml) =
    if status == 200
    then send_ntp server ntp_host ntp_port push (ntp_xml ntp_host ntp_port xml)
    else push_result [] push

unfoldable pub sync_nvr_time : ClockServer → Text → Device → Text → ℕ → Synced
unfolding ntp_xml is_reachable manually_push
sync_nvr_time server time_str nvr ntp_host ntp_port =
    let push = manually_push server time_str in
    if not (is_reachable nvr)
    then record {
      success = true;
      message = text "NVR time synced (Simulated Success - NVR Offline)";
      is_mock = true;
      sent = [];
    }
    else on_ntp server ntp_host ntp_port push server.get_ntp
