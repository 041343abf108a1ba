-- ===== src/Recorder/Check/Frame.antt =====
-- services/hikvision_service.py, `check_single_nvr_async`: what a check can change.
use atm_monitoring_agent.Prelude.{
  ℕ, ◌≡◌, refl, ap, inl, inr, Bool, true, false, not, Option, none, some, List, [], ◌∷◌, ◌==◌,
  if◌then◌else◌, is_some, length, Bool-cases, String,
}
use atm_monitoring_agent.ParserModels.{Text}
use atm_monitoring_agent.Models.{Device}
use atm_monitoring_agent.TextOps.{text, text_eq}
use atm_monitoring_agent.Recorder.Disks.{blocks_on}
use atm_monitoring_agent.Recorder.Check.{
  Reply, responded, timeout, request_error, other_error, Answers, Session, CheckResult, Checked,
  returns, raises, update_cameras, with_sizes, on_answer, on_failure, change_nvr, prepended,
  commit_rows, store_answer, or_raise, store_failure, store_status, on_channels, find_row, on_row,
  check_single_nvr, failed_with, lacks_access,
}
use atm_monitoring_agent.Recorder.Check.Kept.{
  IsKept, AllKept, IsKept-refl, AllKept-refl, AllKept-trans, update_cameras-AllKept,
}

-- A change of the recorder's own row that writes only its figures.
abbrev Figures : ℕ → (Device → Device) → Type 0
Figures nvr_id f = (d : Device) → (d.id == nvr_id) ≡ true → IsKept nvr_id d (f d)

sized-IsKept :
    (nvr_id : ℕ) (c u : Option Text) (d e : Device)
    → (d.id == nvr_id) ≡ true
    → IsKept nvr_id d e
    → IsKept nvr_id d (record e { nvr_hdd_capacity = c; nvr_hdd_used = u })
sized-IsKept nvr_id c u d e own h = record {
  rest_lem = ap (λ (x : Device). record x { nvr_hdd_capacity = c; nvr_hdd_used = u }) h.rest_lem;
  camera_lem = h.camera_lem;
  nvr_lem = λ q. cc;
}

with_sizes-IsKept :
    (nvr_id : ℕ) (sizes : Option (Text × Text)) (d e : Device)
    → (d.id == nvr_id) ≡ true
    → IsKept nvr_id d e
    → IsKept nvr_id d (with_sizes sizes e)
with_sizes-IsKept nvr_id none d e own h = sized-IsKept nvr_id _ _ d e own h
with_sizes-IsKept nvr_id (some (c, u)) d e own h = sized-IsKept nvr_id _ _ d e own h

on_failure-Figures : (nvr_id : ℕ) → Figures nvr_id on_failure
on_failure-Figures nvr_id d own =
    with_sizes-IsKept nvr_id none d (record d { nvr_recording = 0 }) own
      (record { rest_lem = refl; camera_lem = λ q. (refl, refl); nvr_lem = λ q. cc })

on_answer-Figures :
    (nvr_id : ℕ) (recording : Bool) (status : String) (sizes : Option (Text × Text))
    (now_str : Text) (old_date : Option Text)
    → Figures nvr_id (on_answer recording status sizes now_str old_date)
on_answer-Figures nvr_id recording status sizes now_str old_date d own =
    with_sizes-IsKept nvr_id sizes d _ own
      (record { rest_lem = refl; camera_lem = λ q. (refl, refl); nvr_lem = λ q. cc })

abbrev KeptIf : ℕ → List Device → Option (List Device) → Type 0
KeptIf nvr_id rows none = Unit
KeptIf nvr_id rows (some changed) = AllKept nvr_id rows changed

prepended-kept :
    (nvr_id : ℕ) (d : Device) (rows : List Device) (o : Option (List Device))
    → KeptIf nvr_id rows o
    → KeptIf nvr_id (d ∷ rows) (prepended d o)
prepended-kept nvr_id d rows none h = tt
prepended-kept nvr_id d rows (some changed) h = (IsKept-refl nvr_id d, h)

change_nvr-AllKept :
    (nvr_id : ℕ) (f : Device → Device) (rows : List Device)
    → Figures nvr_id f
    → KeptIf nvr_id rows (change_nvr nvr_id f rows)
unfolding change_nvr
change_nvr-AllKept nvr_id f [] h = tt
change_nvr-AllKept nvr_id f (d ∷ rows) h = elim (Bool-cases (d.id == nvr_id)) [
  | inl own ↦ rw own (h d own, AllKept-refl nvr_id rows)
  | inr other ↦
      rw other (
        prepended-kept nvr_id d rows (change_nvr nvr_id f rows)
          (change_nvr-AllKept nvr_id f rows h))
]

-- What a commit leaves: the changed rows, or those from before.
abbrev Leaves : ℕ → Option Text → List Device → List Device → Type 0
Leaves nvr_id failure rows after =
    AllKept nvr_id rows after × (is_some failure ≡ true → after ≡ rows)

commit_rows-Leaves :
    (nvr_id : ℕ) (failure : Option Text) (o : Option (List Device)) (rows : List Device)
    → KeptIf nvr_id rows o
    → Leaves nvr_id failure rows (commit_rows failure o rows).1
commit_rows-Leaves nvr_id failure none rows h = (AllKept-refl nvr_id rows, λ q. refl)
commit_rows-Leaves nvr_id none (some changed) rows h = (h, λ q. cc)
commit_rows-Leaves nvr_id (some e) (some changed) rows h = (AllKept-refl nvr_id rows, λ q. refl)

abbrev pub rows_of : Checked → List Device
rows_of (returns r rows) = rows
rows_of (raises e rows) = rows

KeptIf-trans :
    (nvr_id : ℕ) (rows moved : List Device) (o : Option (List Device))
    → AllKept nvr_id rows moved
    → KeptIf nvr_id moved o
    → KeptIf nvr_id rows o
KeptIf-trans nvr_id rows moved none h k = tt
KeptIf-trans nvr_id rows moved (some changed) h k = AllKept-trans nvr_id rows moved changed h k

module _ (s : Session) (nvr_id : ℕ) (rows : List Device) where
  store_answer-Leaves :
      (old_date : Option Text) (a : Answers) (xml : Text)
      → Leaves nvr_id s.failure rows (store_answer s nvr_id old_date a xml rows).1
  unfolding store_answer
  store_answer-Leaves old_date a xml =
      let moved = update_cameras nvr_id s.now_str (blocks_on (length xml) xml) rows in
      commit_rows-Leaves nvr_id s.failure _ rows (
        KeptIf-trans nvr_id rows moved _
          (update_cameras-AllKept nvr_id s.now_str (blocks_on (length xml) xml) rows)
          (change_nvr-AllKept nvr_id _ moved (on_answer-Figures nvr_id _ _ _ s.now_str old_date)))

  failure-Leaves :
      Leaves nvr_id s.failure rows
        (commit_rows s.failure (change_nvr nvr_id on_failure rows) rows).1
  failure-Leaves =
      commit_rows-Leaves nvr_id s.failure _ rows
        (change_nvr-AllKept nvr_id on_failure rows (on_failure-Figures nvr_id))

  or_raise-Leaves :
      (error : Option Text) (r : CheckResult) (after : List Device)
      → Leaves nvr_id s.failure rows after
      → Leaves nvr_id s.failure rows (rows_of (or_raise error r after))
  or_raise-Leaves none r after h = h
  or_raise-Leaves (some e) r after h = h

  unchanged : Leaves nvr_id s.failure rows rows
  unchanged = (AllKept-refl nvr_id rows, λ q. refl)

  if-Leaves :
      (b : Bool) (x y : Checked)
      → Leaves nvr_id s.failure rows (rows_of x)
      → Leaves nvr_id s.failure rows (rows_of y)
      → Leaves nvr_id s.failure rows (rows_of (if b then x else y))
  if-Leaves true x y h k = h
  if-Leaves false x y h k = k

  on_channels-Leaves :
      (old_date : Option Text) (a : Answers) (reply : Reply)
      → Leaves nvr_id s.failure rows (rows_of (on_channels s nvr_id old_date a reply rows))
  unfolding on_channels store_failure store_status
  on_channels-Leaves old_date a (responded status xml) =
      if-Leaves (status == 200) _ _ (store_answer-Leaves old_date a xml) failure-Leaves
  on_channels-Leaves old_date a timeout = or_raise-Leaves _ _ _ failure-Leaves
  on_channels-Leaves old_date a (request_error e) = or_raise-Leaves _ _ _ failure-Leaves
  on_channels-Leaves old_date a (other_error e) = unchanged

  on_row-Leaves :
      (a : Answers) (o : Option Device)
      → Leaves nvr_id s.failure rows (rows_of (on_row s nvr_id a o rows))
  on_row-Leaves a none = unchanged
  on_row-Leaves a (some nvr) =
      let date = nvr.nvr_last_recording_date in
      let connected = on_channels s nvr_id date a a.channels rows in
      let refused = returns (failed_with (text "Missing credentials or IP")) rows in
      if-Leaves (not (text_eq nvr.kind (text "NVR")))
        (returns (failed_with (text "Device not found or not NVR")) rows)
        (if lacks_access nvr then refused else connected) unchanged
        (if-Leaves (lacks_access nvr) refused connected unchanged
          (on_channels-Leaves date a a.channels))

pub record IsChecked (s : Session) (nvr_id : ℕ) (rows : List Device) (c : Checked) : Type 0 where
  pub kept_lem : AllKept nvr_id rows (rows_of c)
  pub failed_lem : is_some s.failure ≡ true → rows_of c ≡ rows

-- Whatever a recorder answers, its check adds and removes no device and changes nothing of a device
-- but: of a camera of the recorder the address and the time of the update, and of the recorder itself
-- the figures of its recordings and disks. If the commit raises, nothing changes.
pub check_single_nvr-IsChecked :
    (s : Session) (nvr_id : ℕ) (a : Answers) (found rows : List Device)
    → IsChecked s nvr_id rows (check_single_nvr s nvr_id a found rows)
unfolding check_single_nvr
check_single_nvr-IsChecked s nvr_id a found rows =
    let left = on_row-Leaves s nvr_id rows a (find_row nvr_id found) in
    record { kept_lem = left.0; failed_lem = left.1 }
