-- ===== src/Ping/Laws.antt =====
-- services/ping_service.py: what a device shows after any pings.
use atm_monitoring_agent.Prelude.{
  ℕ, ◌+◌, ◌≡◌, Option, none, some, List, [], ◌∷◌, arith, if◌then◌else◌, ◌==◌,
}
use atm_monitoring_agent.ParserModels.{Text}
use atm_monitoring_agent.Ping.{Device, Reply, measured, ping_device}

pub pings : List Reply → Device → Device
pings [] d = d
pings (r ∷ rs) d = pings rs (ping_device r d)

-- The outage behind a list of pings: how many of the last ones found the device down, and when the
-- first of them was.
pub record Outage : Type 0 where
  pub failures : ℕ
  pub since : Option Text

abbrev up : Outage
up = record { failures = 0; since = none }

abbrev worse : Text → Outage → Outage
worse now o = record {
  failures = o.failures + 1;
  since = if o.failures == 0 then some now else o.since;
}

abbrev pub outage_from : Outage → List Reply → Outage
outage_from o [] = o
outage_from o (r ∷ rs) = outage_from (if (measured r).0 then up else worse r.now_str o) rs

abbrev pub outage : List Reply → Outage
outage = outage_from up

-- The device shows the outage.
pub record Shows (o : Outage) (d : Device) : Type 0 where
  pub failures_lem : d.consecutive_failures ≡ o.failures
  pub since_lem : d.down_since ≡ o.since
  pub online_lem : d.is_online ≡ (if o.failures == 0 then 1 else 0)

ping_device-Shows :
    (o : Outage) (r : Reply) (d : Device)
    → Shows o d
    → Shows (if (measured r).0 then up else worse r.now_str o) (ping_device r d)
unfolding ping_device
ping_device-Shows o r d h = ground arith

pings-keeps :
    (rs : List Reply) (o : Outage) (d : Device) → Shows o d → Shows (outage_from o rs) (pings rs d)
unfolding pings
pings-keeps [] o d h = h
pings-keeps (r ∷ rs) o d h =
    pings-keeps rs (if (measured r).0 then up else worse r.now_str o) (ping_device r d)
      (ping_device-Shows o r d h)

-- A device that was up shows after any pings: the number of pings since it was last found up, by the
-- ping command or by an open port, the time of the first of these as the beginning of the outage, and
-- that it is online exactly when there are none.
pub pings-Shows :
    (rs : List Reply) (d : Device)
    → d.is_online ≡ 1
    → d.consecutive_failures ≡ 0
    → d.down_since ≡ none
    → Shows (outage rs) (pings rs d)
pings-Shows rs d online none_yet since =
    pings-keeps rs _ d (record { failures_lem = none_yet; since_lem = since; online_lem = online })
