-- ===== src/Recorder/Check/Kept.antt =====
-- services/hikvision_service.py, `check_single_nvr_async`: the rows after its changes of cameras.
use atm_monitoring_agent.Prelude.{
  ℕ, ◌≡◌, refl, ap, ◌∙◌, inl, inr, Bool, true, false, ◌&&◌, Option, none, some, List, [], ◌∷◌, ◌==◌,
  if◌then◌else◌, Bool-cases, arith,
}
use atm_monitoring_agent.ParserModels.{Text}
use atm_monitoring_agent.Models.{Device}
use atm_monitoring_agent.Recorder.Disks.{channel_address}
use atm_monitoring_agent.Recorder.Check.{
  is_child, change_first, moved_to, is_camera_named, on_channel, update_cameras,
}

-- The first row with the columns of the second that a check can write.
abbrev pub with_changes : Device → Device → Device
with_changes e d = record d {
  ip = e.ip;
  updated_at = e.updated_at;
  nvr_recording = e.nvr_recording;
  nvr_last_recording_date = e.nvr_last_recording_date;
  nvr_hdd_status = e.nvr_hdd_status;
  nvr_hdd_capacity = e.nvr_hdd_capacity;
  nvr_hdd_used = e.nvr_hdd_used;
}

-- A row of the table after the check of a recorder: only a camera of the recorder can have another
-- address, and only the recorder other figures of its recordings and disks.
pub record IsKept (nvr_id : ℕ) (d e : Device) : Type 0 where
  pub rest_lem : e ≡ with_changes e d
  pub camera_lem : is_child nvr_id d ≡ false → (e.ip ≡ d.ip) × (e.updated_at ≡ d.updated_at)
  pub nvr_lem :
      (d.id == nvr_id) ≡ false
      → (e.nvr_recording ≡ d.nvr_recording)
        × (e.nvr_last_recording_date ≡ d.nvr_last_recording_date)
        × (e.nvr_hdd_status ≡ d.nvr_hdd_status)
        × (e.nvr_hdd_capacity ≡ d.nvr_hdd_capacity)
        × (e.nvr_hdd_used ≡ d.nvr_hdd_used)

abbrev pub AllKept : ℕ → List Device → List Device → Type 0
AllKept nvr_id [] [] = Unit
AllKept nvr_id [] (e ∷ es) = ⊥
AllKept nvr_id (d ∷ ds) [] = ⊥
AllKept nvr_id (d ∷ ds) (e ∷ es) = IsKept nvr_id d e × AllKept nvr_id ds es

pub IsKept-refl : (nvr_id : ℕ) (d : Device) → IsKept nvr_id d d
IsKept-refl nvr_id d = record {
  rest_lem = refl;
  camera_lem = λ h. (refl, refl);
  nvr_lem = λ h. (refl, refl, refl, refl, refl);
}

pub AllKept-refl : (nvr_id : ℕ) (rows : List Device) → AllKept nvr_id rows rows
AllKept-refl nvr_id [] = tt
AllKept-refl nvr_id (d ∷ rows) = (IsKept-refl nvr_id d, AllKept-refl nvr_id rows)

IsKept-trans :
    (nvr_id : ℕ) (d e f : Device) → IsKept nvr_id d e → IsKept nvr_id e f → IsKept nvr_id d f
IsKept-trans nvr_id d e f h k = record {
  rest_lem = k.rest_lem ∙ ap (with_changes f) h.rest_lem;
  camera_lem = λ q.
      let a = h.camera_lem q in
      let b = k.camera_lem (ap (is_child nvr_id) h.rest_lem ∙ q) in (b.0 ∙ a.0, b.1 ∙ a.1);
  nvr_lem = λ q.
      let a = h.nvr_lem q in
      let b = k.nvr_lem (ap (λ (x : Device). x.id == nvr_id) h.rest_lem ∙ q) in
      (b.0 ∙ a.0, b.1 ∙ a.1, b.2 ∙ a.2, b.3 ∙ a.3, b.4 ∙ a.4);
}

pub AllKept-trans :
    (nvr_id : ℕ) (ds es fs : List Device)
    → AllKept nvr_id ds es
    → AllKept nvr_id es fs
    → AllKept nvr_id ds fs
AllKept-trans nvr_id [] [] [] h k = tt
AllKept-trans nvr_id [] [] (f ∷ fs) h k = elim k [ ]
AllKept-trans nvr_id [] (e ∷ es) fs h k = elim h [ ]
AllKept-trans nvr_id (d ∷ ds) [] fs h k = elim h [ ]
AllKept-trans nvr_id (d ∷ ds) (e ∷ es) [] h k = elim k [ ]
AllKept-trans nvr_id (d ∷ ds) (e ∷ es) (f ∷ fs) h k =
    (IsKept-trans nvr_id d e f h.0 k.0, AllKept-trans nvr_id ds es fs h.1 k.1)

if-IsKept :
    (nvr_id : ℕ) (b : Bool) (d e f : Device)
    → IsKept nvr_id d e
    → IsKept nvr_id d f
    → IsKept nvr_id d (if b then e else f)
if-IsKept nvr_id true d e f h k = h
if-IsKept nvr_id false d e f h k = k

moved_to-IsKept :
    (nvr_id : ℕ) (cam_ip now_str : Text) (d : Device)
    → is_child nvr_id d ≡ true
    → IsKept nvr_id d (moved_to cam_ip now_str d)
moved_to-IsKept nvr_id cam_ip now_str d h =
    if-IsKept nvr_id _ d _ d
      (record {
        rest_lem = refl;
        camera_lem = λ q. cc;
        nvr_lem = λ q. (refl, refl, refl, refl, refl);
      })
      (IsKept-refl nvr_id d)

camera_child : (a b : Bool) → (a && b) ≡ true → a ≡ true
camera_child a b h = ground arith

change_first-AllKept :
    (nvr_id : ℕ) (padded cam_ip now_str : Text) (rows : List Device)
    → AllKept nvr_id rows
        (change_first (is_camera_named nvr_id padded) (moved_to cam_ip now_str) rows)
unfolding change_first
change_first-AllKept nvr_id padded cam_ip now_str [] = tt
change_first-AllKept nvr_id padded cam_ip now_str (d ∷ rows) =
    elim (Bool-cases (is_camera_named nvr_id padded d)) [
      | inl found ↦ rw found (
        moved_to-IsKept nvr_id cam_ip now_str d (camera_child _ _ found),
        AllKept-refl nvr_id rows,
      )
      | inr other ↦
          rw other (IsKept-refl nvr_id d, change_first-AllKept nvr_id padded cam_ip now_str rows)
    ]

on_channel-AllKept :
    (nvr_id : ℕ) (now_str : Text) (o : Option (Text × Text)) (rows : List Device)
    → AllKept nvr_id rows (on_channel nvr_id now_str o rows)
on_channel-AllKept nvr_id now_str none rows = AllKept-refl nvr_id rows
on_channel-AllKept nvr_id now_str (some (padded, cam_ip)) rows =
    change_first-AllKept nvr_id padded cam_ip now_str rows

pub update_cameras-AllKept :
    (nvr_id : ℕ) (now_str : Text) (blocks : List Text) (rows : List Device)
    → AllKept nvr_id rows (update_cameras nvr_id now_str blocks rows)
unfolding update_cameras
update_cameras-AllKept nvr_id now_str [] rows = AllKept-refl nvr_id rows
update_cameras-AllKept nvr_id now_str (block ∷ blocks) rows =
    let moved = on_channel nvr_id now_str (channel_address block) rows in
    AllKept-trans nvr_id rows moved (update_cameras nvr_id now_str blocks moved)
      (on_channel-AllKept nvr_id now_str (channel_address block) rows)
      (update_cameras-AllKept nvr_id now_str blocks moved)
