-- ===== src/Devices/View.antt =====
-- routers/devices.py: the table of devices as a map from keys to devices.
use atm_monitoring_agent.Prelude.{
  ℕ, ◌≡◌, refl, sym, ap, ◌∙◌, inl, inr, false, Option, none, some, List, [], ◌∷◌, ◌++◌, ◌==◌,
  if◌then◌else◌, String, Bool-cases, Option-cases, ==_iff, arith,
}
use atm_monitoring_agent.ParserModels.{Text}
use atm_monitoring_agent.Models.{Device, Row, model_validate}
use atm_monitoring_agent.TextOps.{text}
use atm_monitoring_agent.Devices.{
  Payload, Server, Response, added, changed, deleted, not_found, failed, Request, create, update,
  delete, find_stored, shown, commit, new_device, changed_device, store_device, remove_device,
  create_device, update_device, delete_device, handle,
}

-- What the table stands for.
abbrev pub Registry : Type 0
Registry = ℕ → Option Row

abbrev pub view : List Row → Registry
view rows device_id = find_stored device_id rows

abbrev pub with_entry : ℕ → Option Row → Registry → Registry
with_entry key entry m device_id = if key == device_id then entry else m device_id

-- The contract of the three requests on a map.
abbrev if_committed : Option Text → Registry → Registry → Registry
if_committed none after before = after
if_committed (some e) after before = before

abbrev if_present : Option Row → (Row → Registry) → Registry → Registry
if_present none after before = before
if_present (some d) after before = after d

abbrev pub promised : Server → Request → Registry → Registry
promised server (create payload) m =
    if_committed server.failure (with_entry server.new_id (some (new_device server payload)) m) m
promised server (update device_id payload) m =
    if_present (m device_id)
      (λ d.
        if_committed server.failure
          (with_entry device_id (some (changed_device server payload d)) m) m)
      m
promised server (delete device_id) m =
    if_present (m device_id) (λ _. if_committed server.failure (with_entry device_id none m) m) m

abbrev answer_present : Option Row → (Row → Response) → Response
answer_present none answer = not_found
answer_present (some d) answer = answer d

abbrev answer_committed : Option Text → Response → String → Response
answer_committed none done what = done
answer_committed (some e) done what = failed (text what ++ e)

-- A row that the schema takes is answered, else the exception; the refresh comes first.
abbrev answer_valid : Text → (Device → Response) → String → Option Device → Response
answer_valid invalid done what none = failed (text what ++ invalid)
answer_valid invalid done what (some d) = done d

abbrev answer_row : Text → Option Text → (Device → Response) → String → Row → Response
answer_row invalid none done what row = answer_valid invalid done what (model_validate row)
answer_row invalid (some e) done what row = failed (text what ++ e)

abbrev pub promised_response : Server → Request → Registry → Response
promised_response server (create payload) m =
    let what : String = "Failed to add device: " in
    answer_committed server.failure
      (answer_row server.invalid server.refresh added what (new_device server payload)) what
promised_response server (update device_id payload) m = answer_present (m device_id) λ d.
    let what : String = "Failed to update device: " in
    answer_committed server.failure
      (answer_row server.invalid server.refresh changed what (changed_device server payload d)) what
promised_response server (delete device_id) m =
    answer_present (m device_id)
      λ _. answer_committed server.failure deleted "Failed to delete device: "

-- The key of a new row is not used.
abbrev pub IsFresh : Server → Request → List Row → Type 0
IsFresh server (create payload) rows = find_stored server.new_id rows ≡ none
IsFresh server _ rows = Unit

find-append :
    (key : ℕ) (d : Row) (rows : List Row)
    → find_stored d.id rows ≡ none
    → find_stored key (rows ++ d ∷ []) ≡ with_entry d.id (some d) (view rows) key
unfolding find_stored
find-append key d [] h = refl
find-append key d (e ∷ rows) h = ground (arith, find-append key d rows)

find-store_other :
    (key : ℕ) (d : Row) (rows : List Row)
    → (d.id == key) ≡ false
    → find_stored key (store_device d rows) ≡ find_stored key rows
unfolding find_stored store_device
find-store_other key d [] h = refl
find-store_other key d (e ∷ rows) h = ground (arith, find-store_other key d rows)

find-store_self :
    (d old : Row) (rows : List Row)
    → find_stored d.id rows ≡ some old
    → find_stored d.id (store_device d rows) ≡ some d
unfolding find_stored store_device
find-store_self d old [] h = cc
find-store_self d old (e ∷ rows) h = ground (arith, find-store_self d old rows)

find-store :
    (key : ℕ) (d old : Row) (rows : List Row)
    → find_stored d.id rows ≡ some old
    → find_stored key (store_device d rows) ≡ with_entry d.id (some d) (view rows) key
find-store key d old rows h = elim (Bool-cases (d.id == key)) [
  | inl same ↦ rw same (rw (sym ((==_iff d.id key).0 same)) (find-store_self d old rows h))
  | inr other ↦ rw other (find-store_other key d rows other)
]

find-remove :
    (key device_id : ℕ) (rows : List Row)
    → find_stored key (remove_device device_id rows) ≡ with_entry device_id none (view rows) key
unfolding find_stored remove_device
find-remove key device_id [] = ground arith
find-remove key device_id (e ∷ rows) = ground (arith, find-remove key device_id rows)

id-find : (key : ℕ) (rows : List Row) (d : Row) → find_stored key rows ≡ some d → d.id ≡ key
unfolding find_stored
id-find key [] d h = cc
id-find key (e ∷ rows) d h = ground (arith, id-find key rows d)

-- A handler does to the table what the contract does to the map, and answers as it promises.
pub record IsPromised (server : Server) (q : Request) (rows : List Row) : Type 0 where
  pub view_lem : (key : ℕ) → view (handle server q rows).0 key ≡ promised server q (view rows) key
  pub response_lem : (handle server q rows).1 ≡ promised_response server q (view rows)

module _ (server : Server) (payload : Payload) (rows : List Row) where
  create-view :
      (answer : Response) (failure : Option Text) (key : ℕ)
      → find_stored server.new_id rows ≡ none
      → let device = new_device server payload in
        find_stored key
          (commit failure "Failed to add device: " (rows ++ device ∷ [], answer) rows).0
        ≡ if_committed failure (with_entry server.new_id (some device) (view rows)) (view rows) key
  create-view answer none key fresh = find-append key (new_device server payload) rows fresh
  create-view answer (some e) key fresh = refl

  update-view :
      (answer : Response) (failure : Option Text) (device_id key : ℕ) (d : Row)
      → find_stored device_id rows ≡ some d
      → let device = changed_device server payload d in
        find_stored key
          (commit failure "Failed to update device: " (store_device device rows, answer) rows).0
        ≡ if_committed failure (with_entry device_id (some device) (view rows)) (view rows) key
  update-view answer none device_id key d found =
      let own = id-find device_id rows d found in
      let device = changed_device server payload d in
      find-store key device d rows (ap (λ (k : ℕ). find_stored k rows) own ∙ found)
      ∙ ap (λ (k : ℕ). with_entry k (some device) (view rows) key) own
  update-view answer (some e) device_id key d found = refl

delete-view :
    (rows : List Row) (failure : Option Text) (device_id key : ℕ)
    → find_stored key
        (commit failure "Failed to delete device: " (remove_device device_id rows, deleted) rows).0
      ≡ if_committed failure (with_entry device_id none (view rows)) (view rows) key
delete-view rows none device_id key = find-remove key device_id rows
delete-view rows (some e) device_id key = refl

commit-response :
    (failure : Option Text) (what : String) (after rows : List Row) (done : Response)
    → (commit failure what (after, done) rows).1 ≡ answer_committed failure done what
commit-response none what after rows done = refl
commit-response (some e) what after rows done = refl

shown-answer_valid :
    (server : Server) (done : Device → Response) (what : String) (found : Option Device)
    → shown server done what none found ≡ answer_valid server.invalid done what found
shown-answer_valid server done what none = refl
shown-answer_valid server done what (some d) = refl

shown-answer_row :
    (server : Server) (refresh : Option Text) (done : Device → Response) (what : String) (row : Row)
    → shown server done what refresh (model_validate row)
      ≡ answer_row server.invalid refresh done what row
shown-answer_row server none done what row =
    shown-answer_valid server done what (model_validate row)
shown-answer_row server (some e) done what row = refl

-- The handlers that add, change and delete a device refine the operations of a map from keys to
-- devices, on every branch: a device that is not there is reported and nothing changes, a commit
-- that fails changes nothing and its error is answered, and else exactly the device with the key
-- changes, as the request says, and it is answered: unless the refresh behind the commit or the
-- schema raises, as the schema does on a null name, address or type, which is answered as a failure
-- although the change is kept. The key of a new row must not be used.
pub handle-IsPromised :
    (server : Server) (q : Request) (rows : List Row)
    → IsFresh server q rows
    → IsPromised server q rows
unfolding handle create_device update_device delete_device
handle-IsPromised server (create payload) rows fresh =
    let what : String = "Failed to add device: " in
    let row = new_device server payload in
    record {
      view_lem = λ key. create-view server payload rows _ server.failure key fresh;
      response_lem =
          commit-response server.failure what _ rows _
          ∙ ap (λ (r : Response). answer_committed server.failure r what)
              (shown-answer_row server server.refresh added what row);
    }
handle-IsPromised server (update device_id payload) rows fresh =
    elim (Option-cases (find_stored device_id rows)) [
      | inl missing ↦ record { view_lem = λ key. rw missing; response_lem = rw missing }
      | inr (d, found) ↦
          let what : String = "Failed to update device: " in
          let row = changed_device server payload d in
          record {
            view_lem = λ key.
                rw found (update-view server payload rows _ server.failure device_id key d found);
            response_lem = rw found (
                commit-response server.failure what (store_device row rows) rows
                  (shown server changed what server.refresh (model_validate row))
                ∙ ap (λ (r : Response). answer_committed server.failure r what)
                    (shown-answer_row server server.refresh changed what row));
          }
    ]
handle-IsPromised server (delete device_id) rows fresh =
    elim (Option-cases (find_stored device_id rows)) [
      | inl missing ↦ record { view_lem = λ key. rw missing; response_lem = rw missing }
      | inr (d, found) ↦ record {
        view_lem = λ key. rw found (delete-view rows server.failure device_id key);
        response_lem = rw found (commit-response server.failure _ _ rows _);
      }
    ]
