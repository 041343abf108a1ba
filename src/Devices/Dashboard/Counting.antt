-- ===== src/Devices/Dashboard/Counting.antt =====
-- routers/devices.py, `get_dashboard`: how its numbers fit together.
use atm_monitoring_agent.Prelude.{
  ℕ, ◌+◌, ◌≤◌, ◌≡◌, refl, inl, inr, Bool, List, [], ◌∷◌, ◌==◌, if◌then◌else◌, length, Bool-cases,
  arith,
}
use atm_monitoring_agent.ParserModels.{Text}
use atm_monitoring_agent.Models.{Device}
use atm_monitoring_agent.TextOps.{text, text_eq, text_eq-eq}
use atm_monitoring_agent.Devices.Dashboard.{
  count_if, is_kind, is_critical, critical_alerts, Dashboard, get_dashboard,
}

abbrev one_if : Bool → ℕ
one_if b = if b then 1 else 0

-- The kinds that are counted exclude one another.
abbrev kinds : Text → ℕ
kinds k =
    one_if (text_eq k (text "NVR"))
    + one_if (text_eq k (text "CAM"))
    + one_if (text_eq k (text "ATM"))
    + one_if (text_eq k (text "CRM"))
    + one_if (text_eq k (text "Router"))
    + one_if (text_eq k (text "Server"))

kinds-le : (k : Text) → kinds k ≤ 1
unfolding text_eq
kinds-le k = elim (Bool-cases (text_eq k (text "NVR"))) [
  | inl same ↦ rw (text_eq-eq k (text "NVR") same) (omega arith)
  | inr a ↦ elim (Bool-cases (text_eq k (text "CAM"))) [
    | inl same ↦ rw (text_eq-eq k (text "CAM") same) (omega arith)
    | inr b ↦ elim (Bool-cases (text_eq k (text "ATM"))) [
      | inl same ↦ rw (text_eq-eq k (text "ATM") same) (omega arith)
      | inr c ↦ elim (Bool-cases (text_eq k (text "CRM"))) [
        | inl same ↦ rw (text_eq-eq k (text "CRM") same) (omega arith)
        | inr d ↦ elim (Bool-cases (text_eq k (text "Router"))) [
          | inl same ↦ rw (text_eq-eq k (text "Router") same) (omega arith)
          | inr e ↦ elim (Bool-cases (text_eq k (text "Server"))) [
            | inl same ↦ rw (text_eq-eq k (text "Server") same) (omega arith)
            | inr f ↦ rw (a, b, c, d, e, f) (omega arith)
          ]
        ]
      ]
    ]
  ]
]

kinds_of : List Device → ℕ
kinds_of [] = 0
kinds_of (d ∷ devices) = kinds d.kind + kinds_of devices

kinds_of-le : (devices : List Device) → kinds_of devices ≤ length devices
unfolding kinds_of
kinds_of-le [] = omega arith
kinds_of-le (d ∷ devices) = omega (arith, kinds-le d.kind, kinds_of-le devices)

kinds_of-count_if :
    (devices : List Device)
    → kinds_of devices
      ≡ count_if (is_kind "NVR") devices
        + count_if (is_kind "CAM") devices
        + count_if (is_kind "ATM") devices
        + count_if (is_kind "CRM") devices
        + count_if (is_kind "Router") devices
        + count_if (is_kind "Server") devices
unfolding kinds_of count_if
kinds_of-count_if [] = refl
kinds_of-count_if (d ∷ devices) = omega (arith, kinds_of-count_if devices)

online-offline :
    (devices : List Device)
    → count_if (λ d. d.is_online == 1) devices + count_if (λ d. d.is_online == 0) devices
      ≤ length devices
unfolding count_if
online-offline [] = omega arith
online-offline (d ∷ devices) = ground (arith, online-offline devices)

-- A device that is offline raises an alert.
offline-le :
    (devices : List Device)
    → count_if (λ d. d.is_online == 0) devices ≤ length (critical_alerts devices)
unfolding count_if critical_alerts is_critical
offline-le [] = omega arith
offline-le (d ∷ devices) = ground (arith, offline-le devices)

length-critical_alerts : (devices : List Device) → length (critical_alerts devices) ≤ length devices
unfolding critical_alerts
length-critical_alerts [] = omega arith
length-critical_alerts (d ∷ devices) = ground (arith, length-critical_alerts devices)

pub record IsConsistent (b : Dashboard) : Type 0 where
  pub states_lem : b.online + b.offline ≤ b.total
  pub kinds_lem :
      b.nvr_count + b.cam_count + b.atm_count + b.crm_count + b.router_count + b.server_count
      ≤ b.total
  pub offline_lem : b.offline ≤ length b.critical_alerts
  pub alerts_lem : length b.critical_alerts ≤ b.total

-- On the dashboard the devices online and offline are no more than all devices, nor are those of the
-- six kinds together, as no device counts twice; and there are at least as many alerts as devices that
-- are offline, and at most as many as devices.
pub get_dashboard-IsConsistent : (devices : List Device) → IsConsistent (get_dashboard devices)
unfolding get_dashboard
get_dashboard-IsConsistent devices = record {
  states_lem = online-offline devices;
  kinds_lem = omega (arith, kinds_of-count_if devices, kinds_of-le devices);
  offline_lem = offline-le devices;
  alerts_lem = length-critical_alerts devices;
}
