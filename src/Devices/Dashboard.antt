-- ===== src/Devices/Dashboard.antt =====
-- routers/devices.py, `get_dashboard`.
pub mod Counting
use atm_monitoring_agent.Prelude.{
  ℕ, suc, ◌+◌, Bool, true, false, not, ◌&&◌, ◌||◌, Option, none, some, List, [], ◌∷◌, ◌==◌, ltb,
  if◌then◌else◌, length, String,
}
use atm_monitoring_agent.ParserModels.{Text}
use atm_monitoring_agent.Models.{Device}
use atm_monitoring_agent.TextOps.{text, text_eq}

-- `sum(1 for d in devices if …)`
unfoldable pub count_if : (Device → Bool) → List Device → ℕ
count_if p [] = 0
count_if p (d ∷ devices) = (if p d then 1 else 0) + count_if p devices

abbrev pub is_kind : String → Device → Bool
is_kind kind d = text_eq d.kind (text kind)

abbrev below : Option ℕ → ℕ → Bool
below none limit = false
below (some balance) limit = ltb balance limit

abbrev is_status : Option Text → String → Bool
is_status none status = false
is_status (some s) status = text_eq s (text status)

-- The `if` chain over one device.
unfoldable pub is_critical : Device → Bool
is_critical d =
    if d.is_online == 0
    then true
    else if is_kind "ATM" d && (below d.atm_balance 500000 || not (is_status d.atm_status "Normal"))
    then true
    else is_kind "NVR" d && d.is_online == 1 && d.nvr_recording == 0

unfoldable pub critical_alerts : List Device → List Device
critical_alerts [] = []
critical_alerts (d ∷ devices) =
    if is_critical d then d ∷ critical_alerts devices else critical_alerts devices

pub record Dashboard : Type 0 where
  pub total : ℕ
  pub online : ℕ
  pub offline : ℕ
  pub nvr_count : ℕ
  pub cam_count : ℕ
  pub atm_count : ℕ
  pub crm_count : ℕ
  pub router_count : ℕ
  pub server_count : ℕ
  pub critical_alerts : List Device

unfoldable pub get_dashboard : List Device → Dashboard
get_dashboard devices = record {
  total = length devices;
  online = count_if (λ d. d.is_online == 1) devices;
  offline = count_if (λ d. d.is_online == 0) devices;
  nvr_count = count_if (is_kind "NVR") devices;
  cam_count = count_if (is_kind "CAM") devices;
  atm_count = count_if (is_kind "ATM") devices;
  crm_count = count_if (is_kind "CRM") devices;
  router_count = count_if (is_kind "Router") devices;
  server_count = count_if (is_kind "Server") devices;
  critical_alerts = critical_alerts devices;
}
