-- ===== src/Examples/Recorders.antt =====
-- The check of a recorder, on the devices of the other examples.
use atm_monitoring_agent.Prelude.{arith, true, ◌≡◌, refl, none, some, [], ◌∷◌, length, map}
use atm_monitoring_agent.ParserModels.{Text}
use atm_monitoring_agent.TextOps.{text, is_digit, is_space, upper, int, text_eq, contains, begins}
use atm_monitoring_agent.TextOps.Pattern.{lit, run, run1, search_for, char}
use atm_monitoring_agent.TextOps.Decimal.{decimal, decimal_on}
use atm_monitoring_agent.TextOps.Template.{
  literal, whole_match, template, template_on, escape_at, group_at,
}
use atm_monitoring_agent.Recorder.Element.{find_value, element}
use atm_monitoring_agent.Recorder.Disks.{
  hdd_status_in, status_at, lower, sizes_in, all_numbers, sum, format_size, round_div, blocks_on,
  upto_closing, channel_address,
}
use atm_monitoring_agent.Recorder.Check.{
  Answers, Session, responded, timeout, read_disks, check_single_nvr,
}
use atm_monitoring_agent.Recorder.Check.Frame.{IsChecked, check_single_nvr-IsChecked}
use atm_monitoring_agent.Recorder.Element.{not_angle, sub_value}
use atm_monitoring_agent.Recorder.Resolution.{answered, raised, is_reachable}
use atm_monitoring_agent.Recorder.Clock.{ClockServer, Synced, sync_nvr_time, ntp_xml, manually_push}
use atm_monitoring_agent.Recorder.Clock.Syncing.{IsHonest, sync_nvr_time-IsHonest}
use atm_monitoring_agent.Recorder.Clock.Writing.{Fills, Configures, ntp_xml-Configures}
use atm_monitoring_agent.Devices.Requests.{get_camera_snapshot, sync_device_nvr_time}
use atm_monitoring_agent.Devices.Streams.{gives}
use atm_monitoring_agent.Devices.{find_device}
use atm_monitoring_agent.Recorder.Channel.{extract_channel_id, marked_number, last_number, at_end}
use atm_monitoring_agent.Examples.Dashboards.{nvr, devices}

abbrev noon : Session
noon = record { now_str = text "01/02/2026, 12:00:00 PM"; failure = none }

abbrev channels_xml : Text
channels_xml =
    text
      "<InputProxyChannelStatus version='2'><id>8</id><ipAddress>10.0.0.8</ipAddress><online>true</online></InputProxyChannelStatus>"

abbrev storage_xml : Text
storage_xml =
    text "<hdd><capacity>2097152</capacity><freeSpace>1048576</freeSpace><status>ok</status></hdd>"

abbrev answers : Answers
answers = record {
  channels = responded 200 channels_xml;
  hdd = responded 404 [];
  storage = responded 200 storage_xml;
  cm_storage = timeout;
}

answers-read_disks : read_disks answers ≡ ("Healthy", some (text "2.00 TB", text "1.00 TB"))
unfolding read_disks hdd_status_in status_at lower sizes_in all_numbers sum format_size round_div
    decimal decimal_on element find_value lit run run1 search_for upper is_digit int text_eq
    contains begins
answers-read_disks = refl

channels_xml-blocks_on :
    map channel_address (blocks_on (length channels_xml) channels_xml)
    ≡ some (text "08", text "10.0.0.8") ∷ []
unfolding blocks_on upto_closing channel_address element find_value lit run run1 search_for upper
    is_digit is_space char
channels_xml-blocks_on = refl

check_single_nvr-IsChecked_example :
    IsChecked noon 7 devices (check_single_nvr noon 7 answers devices devices)
check_single_nvr-IsChecked_example = check_single_nvr-IsChecked noon 7 answers devices devices

abbrev client_xml : Text
client_xml =
    text "<NTP><enabled>false</enabled><ntpServer>10.0.0.1</ntpServer><ntpPort>99</ntpPort></NTP>"

abbrev new_host : Text
new_host = text "10.0.0.2"

new_host-Fills : Fills not_angle new_host
new_host-Fills = record {
  filled = λ h. cc;
  in_class = (refl, (refl, (refl, (refl, (refl, (refl, (refl, (refl, tt))))))));
}

ntp_xml-Configures_example :
    (content : Text) × (ntp_xml new_host 123 client_xml ≡ some content)
    × Configures new_host 123 client_xml content
unfolding find_value element lit run1 run search_for upper is_digit
ntp_xml-Configures_example =
    ntp_xml-Configures new_host 123 client_xml new_host-Fills (omega arith) refl refl

-- A backslash begins an escape, or is an error.
escapes :
    (template (text "a\\tb") ≡ some (literal 97 ∷ literal 9 ∷ literal 98 ∷ []))
    × (template (text "a\\g<0>") ≡ some (literal 97 ∷ whole_match ∷ []))
    × (template (text "a\\101.") ≡ some (literal 97 ∷ literal 65 ∷ literal 46 ∷ []))
    × (template (text "a\\.") ≡ some (literal 97 ∷ literal 92 ∷ literal 46 ∷ []))
    × (template (text "a\\p") ≡ none)
    × (template (text "a\\1") ≡ none)
unfolding template template_on escape_at group_at is_digit int run char
escapes = (refl, refl, refl, refl, refl, refl)

-- A recorder that takes the settings and then does not answer for its clock.
abbrev silent : ClockServer
silent = record {
  get_ntp = answered 200 client_xml;
  put_ntp = λ t. answered 200 [];
  get_time = raised (text "timeout");
  put_time = λ t. answered 200 [];
  re_error = text "bad escape";
}

abbrev synced : Synced
synced = sync_nvr_time silent (text "2026-01-02T12:00:00+06:00") nvr new_host 123

sync_nvr_time-IsHonest_example : IsHonest silent synced
sync_nvr_time-IsHonest_example =
    sync_nvr_time-IsHonest silent (text "2026-01-02T12:00:00+06:00") nvr new_host 123

synced-is_mock : synced.is_mock ≡ true
unfolding sync_nvr_time manually_push is_reachable text_eq sub_value find_value search_for element
    lit run1 is_digit decimal
synced-is_mock = refl

-- A recorder that answers without a picture: the failure has status 200.
blank-get_camera_snapshot :
    get_camera_snapshot (λ track. answered 200 []) none 8 devices
    ≡ record { status_code = 200; content = text "NVR snapshot query failed"; media_type = none }
unfolding get_camera_snapshot find_device text_eq is_reachable extract_channel_id marked_number
    last_number at_end is_digit lit upper run1 run int search_for
blank-get_camera_snapshot = refl

sync_device_nvr_time-synced :
    sync_device_nvr_time silent
      (text "2026-01-02T12:00:00+06:00")
      7
      (some (record { ntp_server_ip = some new_host; ntp_server_port = none }))
      devices
    ≡ gives synced
unfolding sync_device_nvr_time find_device text_eq
sync_device_nvr_time-synced = refl
