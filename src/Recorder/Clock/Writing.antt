-- ===== src/Recorder/Clock/Writing.antt =====
-- services/hikvision_service.py, `sync_nvr_time_async`: what can be read from the settings that it
-- sends.
use atm_monitoring_agent.Prelude.{
  ℕ, ◌≡◌, ◌≢◌, refl, ap, ◌∙◌, Bool, true, false, String, Option, none, some, [], ◌∷◌, ◌++◌, All,
  arith, is_some,
}
use mathlib.Core.Option
use atm_monitoring_agent.ParserModels.{Text}
use atm_monitoring_agent.TextOps.{text, is_digit, upper}
use atm_monitoring_agent.TextOps.Decimal.{decimal, decimal-digits, decimal-ne-nil}
use atm_monitoring_agent.Recorder.Element.{not_angle, find_value, replace_value, opening, closing}
use atm_monitoring_agent.Recorder.Element.Matching.{clash, NoAngle}
use atm_monitoring_agent.Recorder.Element.Skipping.{Apart}
use atm_monitoring_agent.Recorder.Element.Keeping.{find-replace, find-replace_own}
use atm_monitoring_agent.TextOps.Template.{IsPlain}
use atm_monitoring_agent.Recorder.Element.{sub_value}
use atm_monitoring_agent.Recorder.Element.Plain.{sub_value-replace_value}
use atm_monitoring_agent.Recorder.Stream.Writing.{digits-IsPlain}
use atm_monitoring_agent.Recorder.Clock.{put_or_add, ntp_xml}

-- An element that can be written and read again.
record IsElement (p : ℕ → Bool) (tag : Text) : Type 0 where
  pub class_lem : p 60 ≡ false
  pub own : NoAngle (tag ++ 62 ∷ [])
  pub turned : clash (opening tag) (closing tag) ≡ true

-- A value that a pattern matches in full.
pub record Fills (p : ℕ → Bool) (value : Text) : Type 0 where
  pub filled : value ≢ []
  pub in_class : All (λ c. p c ≡ true) value

All-NoAngle : (p : ℕ → Bool) (v : Text) → p 60 ≡ false → All (λ c. p c ≡ true) v → NoAngle v
All-NoAngle p [] k h = tt
All-NoAngle p (c ∷ v) k h = (λ e. cc (h.0, k, ap p e), All-NoAngle p v k h.1)

module _ (p : ℕ → Bool) (tag value : Text) (element_lem : IsElement p tag)
    (fills : Fills p value) where
  written-own :
      (xml : Text)
      → find_value p tag (replace_value p tag value xml)
        ≡ Option.map (λ (v : Text). value) (find_value p tag xml)
  written-own xml =
      find-replace_own p tag value element_lem.class_lem
        (All-NoAngle p value element_lem.class_lem fills.in_class) element_lem.own
        element_lem.turned fills.filled fills.in_class xml

  written-other :
      (q : ℕ → Bool) (other xml : Text)
      → q 60 ≡ false
      → Apart tag other
      → find_value q other (replace_value p tag value xml) ≡ find_value q other xml
  written-other q other xml q_lem apart =
      find-replace p tag value element_lem.class_lem
        (All-NoAngle p value element_lem.class_lem fills.in_class) q other q_lem apart xml

put_or_add-present :
    (p : ℕ → Bool) (tag : String) (value xml : Text)
    → is_some (find_value p (text tag) xml) ≡ true
    → IsPlain (text tag)
    → IsPlain value
    → put_or_add p tag value xml ≡ some (replace_value p (text tag) value xml)
unfolding put_or_add
put_or_add-present p tag value xml h named plain =
    rw h (sub_value-replace_value p (text tag) value xml named plain)

abbrev enabled : Text
enabled = text "enabled"

abbrev ntp_server : Text
ntp_server = text "ntpServer"

abbrev ntp_port : Text
ntp_port = text "ntpPort"

enabled-IsElement : IsElement not_angle enabled
unfolding upper
enabled-IsElement = record { class_lem = refl; own = omega arith; turned = refl }

ntp_server-IsElement : IsElement not_angle ntp_server
unfolding upper
ntp_server-IsElement = record { class_lem = refl; own = omega arith; turned = refl }

ntp_port-IsElement : IsElement is_digit ntp_port
unfolding upper is_digit
ntp_port-IsElement = record { class_lem = refl; own = omega arith; turned = refl }

enabled-Fills : Fills not_angle (text "true")
enabled-Fills = record { filled = λ h. cc; in_class = (refl, (refl, (refl, (refl, tt)))) }

decimal-Fills : (n : ℕ) → Fills is_digit (decimal n)
decimal-Fills n = record { filled = decimal-ne-nil n; in_class = decimal-digits n }

-- Neither element begins where the other does, nor where it ends.
clash-Apart :
    (p q : ℕ → Bool) (tag other : Text)
    → IsElement p tag
    → IsElement q other
    → clash (opening tag) (opening other) ≡ true
    → clash (closing tag) (opening other) ≡ true
    → clash (opening tag) (closing other) ≡ true
    → Apart tag other
clash-Apart p q tag other h k opened closed ended = record {
  opened = opened;
  closed = closed;
  ended = ended;
  plain = h.own;
  own = k.own;
}

enabled_server : Apart enabled ntp_server
unfolding upper
enabled_server =
    clash-Apart not_angle not_angle _ _ enabled-IsElement ntp_server-IsElement refl refl refl

enabled_port : Apart enabled ntp_port
unfolding upper
enabled_port =
    clash-Apart not_angle is_digit _ _ enabled-IsElement ntp_port-IsElement refl refl refl

server_enabled : Apart ntp_server enabled
unfolding upper
server_enabled =
    clash-Apart not_angle not_angle _ _ ntp_server-IsElement enabled-IsElement refl refl refl

server_port : Apart ntp_server ntp_port
unfolding upper
server_port =
    clash-Apart not_angle is_digit _ _ ntp_server-IsElement ntp_port-IsElement refl refl refl

port_enabled : Apart ntp_port enabled
unfolding upper
port_enabled =
    clash-Apart is_digit not_angle _ _ ntp_port-IsElement enabled-IsElement refl refl refl

port_server : Apart ntp_port ntp_server
unfolding upper
port_server =
    clash-Apart is_digit not_angle _ _ ntp_port-IsElement ntp_server-IsElement refl refl refl

-- The settings of an NTP client that has been told its server.
pub record Configures (host : Text) (port : ℕ) (xml content : Text) : Type 0 where
  pub enabled_lem :
      find_value not_angle enabled content
      ≡ Option.map (λ (old : Text). text "true") (find_value not_angle enabled xml)
  pub server_lem : find_value not_angle ntp_server content ≡ some host
  pub port_lem : find_value is_digit ntp_port content ≡ some (decimal port)

written_there :
    (value : Text) (o : Option Text)
    → is_some o ≡ true
    → Option.map (λ (old : Text). value) o ≡ some value
written_there value none h = cc
written_there value (some old) h = refl

-- If the settings of the recorder's NTP client have a server and a port, and the new server is not empty
-- and has no `<` and no backslash in it, the settings that are sent can be made, have the new server and
-- port, and are switched on if there is a switch.
pub ntp_xml-Configures :
    (host : Text) (port : ℕ) (xml : Text)
    → Fills not_angle host
    → IsPlain host
    → is_some (find_value not_angle ntp_server xml) ≡ true
    → is_some (find_value is_digit ntp_port xml) ≡ true
    → (content : Text) × (ntp_xml host port xml ≡ some content) × Configures host port xml content
unfolding ntp_xml
ntp_xml-Configures host port xml fills plain server_there port_there =
    let a = replace_value not_angle enabled (text "true") xml in
    let b = replace_value not_angle ntp_server host a in
    let c = replace_value is_digit ntp_port (decimal port) b in
    let turned_on = written-other not_angle enabled (text "true") enabled-IsElement enabled-Fills in
    let served = written-other not_angle ntp_server host ntp_server-IsElement fills in
    let ported =
      written-other is_digit ntp_port (decimal port) ntp_port-IsElement (decimal-Fills port) in
    let server_a : find_value not_angle ntp_server a ≡ find_value not_angle ntp_server xml =
      turned_on not_angle ntp_server xml refl enabled_server in
    let port_b : find_value is_digit ntp_port b ≡ find_value is_digit ntp_port xml =
      served is_digit ntp_port a ntp_port-IsElement.class_lem server_port
      ∙ turned_on is_digit ntp_port xml ntp_port-IsElement.class_lem enabled_port in
    let at_b : put_or_add not_angle "ntpServer" host a ≡ some b =
      put_or_add-present not_angle "ntpServer" host a (ap is_some server_a ∙ server_there)
        (omega arith) plain in
    let at_c : put_or_add is_digit "ntpPort" (decimal port) b ≡ some c =
      put_or_add-present is_digit "ntpPort" (decimal port) b (ap is_some port_b ∙ port_there)
        (omega arith) (digits-IsPlain (decimal port) (decimal-digits port)) in
    let at_a : sub_value not_angle enabled (text "true") xml ≡ some a =
      sub_value-replace_value not_angle enabled (text "true") xml (omega arith) (omega arith) in
    (
      c,
      rw at_a (rw at_b at_c),
      record {
        enabled_lem =
            ported not_angle enabled b refl port_enabled
            ∙ served not_angle enabled a refl server_enabled
            ∙ written-own not_angle enabled (text "true") enabled-IsElement enabled-Fills xml;
        server_lem =
            ported not_angle ntp_server b refl port_server
            ∙ written-own not_angle ntp_server host ntp_server-IsElement fills a
            ∙ written_there host _ (ap is_some server_a ∙ server_there);
        port_lem =
            written-own is_digit ntp_port (decimal port) ntp_port-IsElement (decimal-Fills port) b
            ∙ written_there (decimal port) _ (ap is_some port_b ∙ port_there);
      },
    )
