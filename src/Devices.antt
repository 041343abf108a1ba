-- ===== src/Devices.antt =====
-- routers/devices.py: the list of devices, and the handlers that add, change and delete one. The table
-- is a list of rows, oldest first; a handler gives the rows that a commit leaves. What the server does
-- is an argument. The handlers that only read are modelled on rows without a null name, address or type.
pub mod View
pub mod Dashboard
pub mod Streams
pub mod Requests
use atm_monitoring_agent.Prelude.{
  ℕ, Bool, true, false, String, Option, none, some, List, [], ◌∷◌, ◌++◌, ◌==◌, if◌then◌else◌,
  is_some, get_or,
}
use atm_monitoring_agent.ParserModels.{Text}
use atm_monitoring_agent.Models.{Device, Row, model_validate}
use atm_monitoring_agent.TextOps.{text, text_eq}

-- `select(Device).where(Device.Id == device_id)`, the first row
unfoldable pub find_device : ℕ → List Device → Option Device
find_device device_id [] = none
find_device device_id (d ∷ rows) = if d.id == device_id then some d else find_device device_id rows

unfoldable pub of_kind : Text → List Device → List Device
of_kind kind [] = []
of_kind kind (d ∷ rows) = if text_eq d.kind kind then d ∷ of_kind kind rows else of_kind kind rows

-- `get_devices`; an empty type is no filter
unfoldable pub get_devices : Option Text → List Device → List Device
unfolding of_kind
get_devices none rows = rows
get_devices (some []) rows = rows
get_devices (some (c ∷ kind)) rows = of_kind (c ∷ kind) rows

unfoldable pub find_stored : ℕ → List Row → Option Row
find_stored device_id [] = none
find_stored device_id (r ∷ rows) = if r.id == device_id then some r else find_stored device_id rows

-- The keys of a request; a key may be there with the value null.
pub record Payload : Type 0 where
  pub name : Option (Option Text)
  pub ip : Option (Option Text)
  pub kind : Option (Option Text)
  pub location : Option (Option Text)
  pub notes : Option (Option Text)
  pub hik_username : Option (Option Text)
  pub hik_password : Option (Option Text)
  pub parent_nvr_id : Option (Option ℕ)

-- The time, the key of a new row, what an INSERT stores for a null name, address or type (the
-- default of the column or null), whether the commit raises, whether the refresh behind it raises,
-- and the text of the exception of the schema.
pub record Server : Type 0 where
  pub now_str : Text
  pub new_id : ℕ
  pub inserted_null : Option Text
  pub failure : Option Text
  pub refresh : Option Text
  pub invalid : Text

pub data Response : Type 0 where
  added changed : Device → Response
  deleted : Response
  not_found : Response
  failed : Text → Response

-- `payload.get(key)`
abbrev value_of {ℓ} : {A : Type ℓ} → Option (Option A) → Option A
value_of none = none
value_of (some v) = v

-- `payload.get(key, "")`, as it is inserted
abbrev inserted : Server → Option (Option Text) → Option Text
inserted server none = some []
inserted server (some none) = server.inserted_null
inserted server (some (some v)) = some v

-- The new row; the columns that are not named have the defaults of models.py.
abbrev pub new_device : Server → Payload → Row
new_device server payload = record {
  id = server.new_id;
  name = inserted server payload.name;
  ip = inserted server payload.ip;
  kind = inserted server payload.kind;
  location = value_of payload.location;
  hik_username = value_of payload.hik_username;
  hik_password = value_of payload.hik_password;
  notes = value_of payload.notes;
  parent_nvr_id = value_of payload.parent_nvr_id;
  is_online = 1;
  last_ping_time = none;
  last_latency = none;
  last_packet_loss = none;
  consecutive_failures = 0;
  down_since = none;
  nvr_recording = 0;
  nvr_last_recording_date = none;
  nvr_hdd_status = none;
  nvr_hdd_capacity = none;
  nvr_hdd_used = none;
  atm_balance = none;
  atm_status = none;
  created_at = some server.now_str;
  updated_at = some server.now_str;
}

-- The answer behind the commit: the refresh or the schema may raise, and the row stays.
abbrev pub shown : Server → (Device → Response) → String → Option Text → Option Device → Response
shown server done what (some e) found = failed (text what ++ e)
shown server done what none none = failed (text what ++ server.invalid)
shown server done what none (some d) = done d

-- `await db.commit()` inside `try`: the exception is answered.
abbrev pub commit : Option Text → String → List Row × Response → List Row → List Row × Response
commit none what done rows = done
commit (some e) what done rows = (rows, failed (text what ++ e))

abbrev pub on_found : Option Row → (Row → List Row × Response) → List Row → List Row × Response
on_found none f rows = (rows, not_found)
on_found (some d) f rows = f d

unfoldable pub create_device : Server → Payload → List Row → List Row × Response
unfolding model_validate
create_device server payload rows =
    let device = new_device server payload in
    let what : String = "Failed to add device: " in
    commit server.failure what
      (rows ++ device ∷ [], shown server added what server.refresh (model_validate device)) rows

-- `if key in payload: device.Column = payload[key]`
abbrev pub changed_device : Server → Payload → Row → Row
changed_device server payload d = record d {
  name = get_or payload.name d.name;
  ip = get_or payload.ip d.ip;
  kind = get_or payload.kind d.kind;
  location = get_or payload.location d.location;
  notes = get_or payload.notes d.notes;
  hik_username = get_or payload.hik_username d.hik_username;
  hik_password = get_or payload.hik_password d.hik_password;
  parent_nvr_id = get_or payload.parent_nvr_id d.parent_nvr_id;
  updated_at = some server.now_str;
}

-- An UPDATE and a DELETE of the row with a key.
unfoldable pub store_device : Row → List Row → List Row
store_device d [] = []
store_device d (e ∷ rows) = (if e.id == d.id then d else e) ∷ store_device d rows

unfoldable pub remove_device : ℕ → List Row → List Row
remove_device device_id [] = []
remove_device device_id (d ∷ rows) =
    if d.id == device_id then remove_device device_id rows else d ∷ remove_device device_id rows

unfoldable pub update_device : Server → ℕ → Payload → List Row → List Row × Response
unfolding model_validate
update_device server device_id payload rows =
    on_found (find_stored device_id rows)
      (λ d.
        let device = changed_device server payload d in
        let what : String = "Failed to update device: " in
        commit server.failure what
          (
            store_device device rows,
            shown server changed what server.refresh (model_validate device),
          )
          rows)
      rows

unfoldable pub delete_device : Server → ℕ → List Row → List Row × Response
delete_device server device_id rows =
    on_found (find_stored device_id rows)
      (λ d.
        commit server.failure "Failed to delete device: " (remove_device device_id rows, deleted)
          rows)
      rows

-- The requests that change the table.
pub data Request : Type 0 where
  create : Payload → Request
  update : ℕ → Payload → Request
  delete : ℕ → Request

unfoldable pub handle : Server → Request → List Row → List Row × Response
handle server (create payload) rows = create_device server payload rows
handle server (update device_id payload) rows = update_device server device_id payload rows
handle server (delete device_id) rows = delete_device server device_id rows
