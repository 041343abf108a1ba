-- ===== src/Recorder/Resolution.antt =====
-- services/hikvision_service.py: `get_camera_resolution_async` and `set_camera_resolution_async` on
-- what the recorder answers. An answer is the status and the text, or the exception that was raised.
pub mod Showing
pub mod Accepting
use atm_monitoring_agent.Prelude.{
  ℕ, ◌+◌, ◌-◌, ◌*◌, Bool, true, false, not, ◌&&◌, ◌||◌, String, Option, none, some, List, [], ◌∷◌,
  ◌++◌, ◌==◌, if◌then◌else◌, is_some, get_or, length, take,
}
use atm_monitoring_agent.ParserModels.{Text}
use atm_monitoring_agent.Models.{Device}
use atm_monitoring_agent.TextOps.{text, text_eq, newline, upper}
use atm_monitoring_agent.TextOps.Decimal.{decimal}
use atm_monitoring_agent.TextOps.Pattern.{◌>>=◌, lit, run, char, search_for}
use atm_monitoring_agent.Recorder.Element.{not_angle, element_of, value_at}
use atm_monitoring_agent.Recorder.Stream.{
  Tag, width, height, frame_rate, upper_cap, transport, tag_name, Stream, Request, read_stream,
  full_xml,
}
use atm_monitoring_agent.Recorder.Mock.{
  MockFile, Resolutions, save_mock_resolution, get_mock_resolution,
}

pub data Answer : Type 0 where
  answered : ℕ → Text → Answer
  raised : Text → Answer

abbrev pub filled : Option Text → Bool
filled none = false
filled (some t) = not (text_eq t [])

-- `nvr.IsOnline and ip and username and password`
unfoldable pub is_reachable : Device → Bool
is_reachable nvr =
    not (nvr.is_online == 0)
    && not (text_eq nvr.ip [])
    && filled nvr.hik_username
    && filled nvr.hik_password

-- The result of `get_camera_resolution_async`.
pub record Shown : Type 0 where
  pub success : Bool
  pub main : Option Stream
  pub sub : Option Stream
  pub message : Option Text
  pub is_mock : Bool

abbrev get_failed : String → ℕ → Text
get_failed stream status = text stream ++ (text " stream GET failed with HTTP " ++ decimal status)

-- What one request for a stream finds, and its message.
unfoldable pub read_answer : String → ℕ → ℕ → Answer → Option Stream × Option Text
read_answer stream rate bits (answered status xml) =
    if status == 200
    then (read_stream rate bits xml, none)
    else (none, some (get_failed stream status))
read_answer stream rate bits (raised e) =
    (none, some (text stream ++ (text " stream GET failed: " ++ e)))

-- `result["main"] or mock.get("main")`
abbrev or_mock : Option Stream → Stream → Option Stream
or_mock none s = some s
or_mock (some s) mock = some s

abbrev first_message : Option Text → Option Text → Option Text
first_message none later = later
first_message (some m) later = some m

abbrev connection_issue : Option Text → Text
connection_issue message =
    text "NVR connection issue ("
    ++ (get_or message (text "unknown") ++ text "). Displaying simulated settings.")

unfoldable pub get_camera_resolution : Device → ℕ → Answer → Answer → Option MockFile → Shown
unfolding is_reachable read_answer
get_camera_resolution nvr cam_id main_answer sub_answer disk =
    let mock = get_mock_resolution cam_id disk in
    let (main, main_message) = read_answer "Main" 25 2048 main_answer in
    let (sub, sub_message) = read_answer "Sub" 15 512 sub_answer in
    let message = first_message main_message sub_message in
    if not (is_reachable nvr)
    then record {
      success = true;
      main = some mock.main;
      sub = some mock.sub;
      message = some (text "NVR offline. Displaying simulated settings.");
      is_mock = true;
    }
    else if is_some main && is_some sub
    then record { success = true; main = main; sub = sub; message = message; is_mock = false }
    else record {
      success = true;
      main = or_mock main mock.main;
      sub = or_mock sub mock.sub;
      message = some (connection_issue message);
      is_mock = true;
    }

-- `<StreamingChannel[^>]*>`
unfoldable pub root_at : Text → Option Text
root_at t = do
  inner ← lit (text "<StreamingChannel") t
  rest ← char b'>' (run (λ c. not (c == b'>')) inner).1
  some (take (length t - length rest) t)

abbrev default_root : Text
default_root =
    text "<StreamingChannel version=\"2.0\" xmlns=\"http://www.hikvision.com/ver20/XMLSchema\">"

-- `f"{indent}{element}\n"`
abbrev line : String → Text → Text
line indent t = text indent ++ (t ++ newline ∷ [])

abbrev size_lines : Option ℕ → Option ℕ → Text
size_lines none h = []
size_lines (some w) none = []
size_lines (some w) (some h) =
    line "    " (element_of (tag_name width) (decimal w))
    ++ line "    " (element_of (tag_name height) (decimal h))

abbrev number_line : Tag → Option ℕ → Text
number_line tag none = []
number_line tag (some n) = line "    " (element_of (tag_name tag) (decimal n))

abbrev transport_block : Option Text → Text
transport_block none = []
transport_block (some protocol) =
    line "  " (text "<Transport>")
    ++ (line "    " (text "<ControlProtocolList>")
        ++ (line "      " (text "<ControlProtocol>")
            ++ (line "        " (element_of (tag_name transport) protocol)
                ++ (line "      " (text "</ControlProtocol>")
                    ++ (line "    " (text "</ControlProtocolList>")
                        ++ line "  " (text "</Transport>"))))))

abbrev scaled : Option ℕ → Option ℕ
scaled none = none
scaled (some n) = some (n * 100)

abbrev video_inner : Request → Text
video_inner r =
    size_lines r.width r.height
    ++ (number_line frame_rate (scaled r.framerate) ++ number_line upper_cap r.bitrate)

abbrev video_block : Text → Text
video_block [] = []
video_block (c ∷ inner) = line "  " (text "<Video>") ++ ((c ∷ inner) ++ line "  " (text "</Video>"))

-- The XML of the first try, with nothing but what the request changes.
unfoldable pub minimal_xml : Request → ℕ → Text → Text
unfolding root_at
minimal_xml r stream_id xml =
    line "" (text "<?xml version=\"1.0\" encoding=\"UTF-8\"?>")
    ++ (line "" (get_or (search_for root_at xml) default_root)
        ++ (line "  " (element_of (text "id") (decimal stream_id))
            ++ (transport_block r.protocol
                ++ (video_block (video_inner r) ++ text "</StreamingChannel>"))))

-- What the recorder answers to the calls for one stream: to the GET, and to the PUT of a content.
pub record Recorder : Type 0 where
  pub get : Answer
  pub put_minimal : Text → Answer
  pub put_full : Text → Answer
  pub re_error : Text

-- The result of `set_camera_resolution_async`, with the contents that were sent and the file.
pub record Outcome : Type 0 where
  pub success : Bool
  pub message : Text
  pub is_mock : Bool
  pub sent : List Text
  pub disk : Option MockFile

abbrev pub is_accepted : Answer → Bool
is_accepted (answered status body) = status == 200 || status == 201
is_accepted (raised e) = false

-- `re.search` of one of two elements: the leftmost match of either
error_at : Text → Option Text
error_at t = elim (value_at not_angle (text "errorDescription") t) [
  | some v ↦ some v
  | none ↦ value_at not_angle (text "statusString") t
]

unfoldable pub error_message : ℕ → Text → Text
unfolding error_at
error_message status body = get_or (search_for error_at body) (text "HTTP " ++ decimal status)

abbrev simulated : Text → List Text → Option MockFile → Outcome
simulated reason sent disk = record {
  success = true;
  message = text "Stream settings saved (Simulated Mode - " ++ (reason ++ text ")");
  is_mock = true;
  sent = sent;
  disk = disk;
}

abbrev updated : String → List Text → Option MockFile → Outcome
updated how sent disk = record {
  success = true;
  message = text "Stream settings updated successfully via ISAPI (" ++ (text how ++ text ")");
  is_mock = false;
  sent = sent;
  disk = disk;
}

abbrev rejected : Text → List Text → Option MockFile → Outcome
rejected error_msg sent disk = record {
  success = false;
  message = text "NVR responded with error: " ++ (error_msg ++ text ". (Mock value cached)");
  is_mock = false;
  sent = sent;
  disk = disk;
}

-- After the PUT of the full XML.
abbrev on_full : Answer → List Text → Option MockFile → Outcome
on_full (raised e) sent disk = simulated (text "Request failed: " ++ e) sent disk
on_full (answered status body) sent disk =
    if is_accepted (answered status body)
    then updated "full XML" sent disk
    else rejected (error_message status body) sent disk

-- The full XML is made only now; if `re.sub` raises, the handler answers.
abbrev send_full : (Text → Answer) → Text → Text → Option Text → Option MockFile → Outcome
send_full put_full re_error minimal none disk =
    simulated (text "Request failed: " ++ re_error) (minimal ∷ []) disk
send_full put_full re_error minimal (some full) disk =
    on_full (put_full full) (minimal ∷ full ∷ []) disk

-- After the PUT of the minimal XML.
abbrev on_minimal : Recorder → Text → Option Text → Answer → Option MockFile → Outcome
on_minimal recorder minimal full (raised e) disk =
    simulated (text "Request failed: " ++ e) (minimal ∷ []) disk
on_minimal recorder minimal full (answered status body) disk =
    if is_accepted (answered status body)
    then updated "minimal XML" (minimal ∷ []) disk
    else send_full recorder.put_full recorder.re_error minimal full disk

-- After the GET.
abbrev on_current : Recorder → Request → ℕ → Answer → Option MockFile → Outcome
on_current recorder r stream_id (raised e) disk = simulated (text "Request failed: " ++ e) [] disk
on_current recorder r stream_id (answered status xml) disk =
    let minimal = minimal_xml r stream_id xml in
    if status == 200
    then on_minimal recorder minimal (full_xml r xml) (recorder.put_minimal minimal) disk
    else simulated (text "GET returned HTTP " ++ decimal status) [] disk

abbrev stream_id_of : ℕ → Text → ℕ
stream_id_of channel_id stream_type =
    if text_eq stream_type (text "main") then channel_id * 100 + 1 else channel_id * 100 + 2

unfoldable pub set_camera_resolution :
    Recorder → Bool → Device → ℕ → ℕ → Text → Request → Option MockFile → Outcome
unfolding is_reachable error_message
set_camera_resolution recorder writable nvr channel_id cam_id stream_type r disk =
    let saved = save_mock_resolution writable cam_id stream_type r disk in
    if not (is_reachable nvr)
    then record {
      success = true;
      message = text "Stream settings saved (Simulated Mode - NVR Offline)";
      is_mock = true;
      sent = [];
      disk = saved;
    }
    else on_current recorder r (stream_id_of channel_id stream_type) recorder.get saved
