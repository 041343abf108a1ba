-- ===== src/Models.antt =====
-- The device table of models.py, whose `Name`, `Ip` and `Type` may be null, and a device as
-- schemas.py has it, with texts there. The values have the types of their columns; the flags of
-- sent alerts are left out, as is the time of the ATM's figures: nothing but the seed data writes
-- them.
use atm_monitoring_agent.Prelude.{ℕ, Option, none, some}
use atm_monitoring_agent.ParserModels.{Text}

-- A device; a row of `Devices` in which nothing is null that the schema wants.
pub record Device : Type 0 where
  pub id : ℕ
  pub name : Text
  pub ip : Text
  pub kind : Text
  pub location : Option Text
  pub hik_username : Option Text
  pub hik_password : Option Text
  pub notes : Option Text
  pub parent_nvr_id : Option ℕ
  pub is_online : ℕ
  pub last_ping_time : Option Text
  pub last_latency : Option ℕ
  pub last_packet_loss : Option ℕ
  pub consecutive_failures : ℕ
  pub down_since : Option Text
  pub nvr_recording : ℕ
  pub nvr_last_recording_date : Option Text
  pub nvr_hdd_status : Option Text
  pub nvr_hdd_capacity : Option Text
  pub nvr_hdd_used : Option Text
  pub atm_balance : Option ℕ
  pub atm_status : Option Text
  pub created_at : Option Text
  pub updated_at : Option Text

-- A row of `Devices`.
pub record Row : Type 0 where
  pub id : ℕ
  pub name : Option Text
  pub ip : Option Text
  pub kind : Option Text
  pub location : Option Text
  pub hik_username : Option Text
  pub hik_password : Option Text
  pub notes : Option Text
  pub parent_nvr_id : Option ℕ
  pub is_online : ℕ
  pub last_ping_time : Option Text
  pub last_latency : Option ℕ
  pub last_packet_loss : Option ℕ
  pub consecutive_failures : ℕ
  pub down_since : Option Text
  pub nvr_recording : ℕ
  pub nvr_last_recording_date : Option Text
  pub nvr_hdd_status : Option Text
  pub nvr_hdd_capacity : Option Text
  pub nvr_hdd_used : Option Text
  pub atm_balance : Option ℕ
  pub atm_status : Option Text
  pub created_at : Option Text
  pub updated_at : Option Text

abbrev validated : Row → Text → Text → Text → Device
validated r name ip kind = record {
  id = r.id;
  name = name;
  ip = ip;
  kind = kind;
  location = r.location;
  hik_username = r.hik_username;
  hik_password = r.hik_password;
  notes = r.notes;
  parent_nvr_id = r.parent_nvr_id;
  is_online = r.is_online;
  last_ping_time = r.last_ping_time;
  last_latency = r.last_latency;
  last_packet_loss = r.last_packet_loss;
  consecutive_failures = r.consecutive_failures;
  down_since = r.down_since;
  nvr_recording = r.nvr_recording;
  nvr_last_recording_date = r.nvr_last_recording_date;
  nvr_hdd_status = r.nvr_hdd_status;
  nvr_hdd_capacity = r.nvr_hdd_capacity;
  nvr_hdd_used = r.nvr_hdd_used;
  atm_balance = r.atm_balance;
  atm_status = r.atm_status;
  created_at = r.created_at;
  updated_at = r.updated_at;
}

-- `DeviceSchema.model_validate`; none if it raises
abbrev with_name : Row → Text → Option Text → Option Text → Option Device
with_name r name none kind = none
with_name r name (some ip) none = none
with_name r name (some ip) (some kind) = some (validated r name ip kind)

unfoldable pub model_validate : Row → Option Device
model_validate r = elim r.name [ none ↦ none | some name ↦ with_name r name r.ip r.kind ]
