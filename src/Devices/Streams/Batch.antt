-- ===== src/Devices/Streams/Batch.antt =====
-- routers/devices.py: what a batch leaves in the saved settings.
use atm_monitoring_agent.Prelude.{
  ℕ, ◌≡◌, refl, sym, ap, ◌∙◌, inl, inr, Bool, true, false, Option, none, some, List, [], ◌∷◌, ◌==◌,
  if◌then◌else◌, any, Bool-cases, arith, String,
}
use atm_monitoring_agent.ParserModels.{Text}
use atm_monitoring_agent.Models.{Device}
use atm_monitoring_agent.TextOps.{text, text_eq}
use atm_monitoring_agent.Recorder.Stream.{Request}
use atm_monitoring_agent.Recorder.Mock.{MockFile, Resolutions, get_mock_resolution}
use atm_monitoring_agent.Recorder.Mock.Saving.{changed, get_mock_resolution-save_mock_resolution}
use atm_monitoring_agent.Recorder.Channel.{extract_channel_id}
use atm_monitoring_agent.Recorder.Resolution.{Recorder, set_camera_resolution}
use atm_monitoring_agent.Recorder.Resolution.Showing.{disk-set_camera_resolution}
use atm_monitoring_agent.Devices.{find_device}
use atm_monitoring_agent.Devices.Streams.{
  Reply, fails, gives, ◌>>=◌, or_fail, guard, StreamPayload, stream_type_of, size_request,
  cameras_of, run_set, run_batch, BatchResult, truthy, set_nvr_batch_resolution,
}

changed-changed :
    (stream : Text) (r : Request) (old : Resolutions)
    → changed stream r (changed stream r old) ≡ changed stream r old
changed-changed stream r old = ground arith

again :
    (b : Bool) (stream : Text) (r : Request) (old : Resolutions)
    → (if b then changed stream r (changed stream r old) else changed stream r old)
      ≡ changed stream r old
again true stream r old = changed-changed stream r old
again false stream r old = refl

abbrev pub has_camera : ℕ → List Device → Bool
has_camera key cameras = any (λ c. key == c.id) cameras

run_set_saves :
    (recorder : Device → Recorder) (nvr : Device) (stream : Text) (r : Request)
    (cameras : List Device) (disk : Option MockFile) (key : ℕ)
    → get_mock_resolution key (run_set recorder true nvr stream r cameras disk).1 ≡ (
        if has_camera key cameras
        then changed stream r (get_mock_resolution key disk)
        else get_mock_resolution key disk)
unfolding run_set
run_set_saves recorder nvr stream r [] disk key = refl
run_set_saves recorder nvr stream r (cam ∷ cameras) disk key =
    let o =
      set_camera_resolution (recorder cam) true nvr (extract_channel_id cam.name) cam.id stream r
        disk in
    let saved =
      ap (get_mock_resolution key) (
        disk-set_camera_resolution (recorder cam) true nvr (extract_channel_id cam.name) cam.id
          stream r disk)
      ∙ get_mock_resolution-save_mock_resolution true cam.id key stream r disk in
    let later = run_set_saves recorder nvr stream r cameras o.disk key in
    elim (Bool-cases (key == cam.id)) [
      | inl own ↦
          later
          ∙ ap (λ (m : Resolutions). if has_camera key cameras then changed stream r m else m)
              (rw own at saved)
          ∙ rw own (again (has_camera key cameras) stream r (get_mock_resolution key disk))
      | inr other ↦
          later
          ∙ ap (λ (m : Resolutions). if has_camera key cameras then changed stream r m else m)
              (rw other at saved)
          ∙ rw other
    ]

-- The settings after a batch with a width and a height.
pub record IsSaved (nvr_id : ℕ) (payload : StreamPayload) (rows : List Device)
    (disk : Option MockFile) (b : BatchResult) : Type 0 where
  pub width : ℕ
  pub height : ℕ
  pub width_lem : truthy payload.settings.width ≡ some width
  pub height_lem : truthy payload.settings.height ≡ some height
  pub saved_lem :
      (key : ℕ)
      → get_mock_resolution key b.disk ≡ (
          if has_camera key (cameras_of nvr_id rows)
          then changed
              (stream_type_of payload)
              (size_request width height)
              (get_mock_resolution key disk)
          else get_mock_resolution key disk)

run_batch_saves :
    (recorder : Device → Recorder) (nvr : Device) (stream : Text) (r : Request)
    (cameras : List Device) (disk : Option MockFile) (key : ℕ)
    → get_mock_resolution key (run_batch recorder true nvr stream r cameras disk).disk ≡ (
        if has_camera key cameras
        then changed stream r (get_mock_resolution key disk)
        else get_mock_resolution key disk)
run_batch_saves recorder nvr stream r [] disk key = refl
run_batch_saves recorder nvr stream r (cam ∷ cameras) disk key =
    run_set_saves recorder nvr stream r (cam ∷ cameras) disk key

>>=-eq-gives {ℓ κ} :
    {A : Type ℓ} {B : Type κ} (m : Reply A) (f : A → Reply B) (b : B)
    → (m >>= f) ≡ gives b
    → (a : A) × (m ≡ gives a) × (f a ≡ gives b)
>>=-eq-gives (fails m) f b h = cc
>>=-eq-gives (gives a) f b h = (a, refl, h)

or_fail-eq-gives {ℓ} :
    {A : Type ℓ} (o : Option A) (m : String) (a : A) → or_fail o m ≡ gives a → o ≡ some a
or_fail-eq-gives none m a h = cc
or_fail-eq-gives (some b) m a h = cc

abbrev disk_of : Option MockFile → Reply BatchResult → Option MockFile
disk_of disk (fails m) = disk
disk_of disk (gives b) = b.disk

-- If a batch on a recorder reports its results, and its saves can be written, then the width
-- and the height were given, and afterwards the saved settings of every camera of the recorder are
-- those from before with the width and the height of the stream changed, and those of all other
-- cameras are as before, whatever the recorder answered.
pub set_nvr_batch_resolution-IsSaved :
    (recorder : Device → Recorder) (nvr_id : ℕ) (payload : StreamPayload) (rows : List Device)
    (disk : Option MockFile) (b : BatchResult)
    → set_nvr_batch_resolution recorder true nvr_id payload rows disk ≡ gives b
    → IsSaved nvr_id payload rows disk b
unfolding set_nvr_batch_resolution
set_nvr_batch_resolution-IsSaved recorder nvr_id payload rows disk b h =
    let (nvr, found, h₁) = >>=-eq-gives (or_fail (find_device nvr_id rows) _) _ b h in
    let (checked, is_nvr, h₂) = >>=-eq-gives (guard (text_eq nvr.kind (text "NVR")) _) _ b h₁ in
    let (w, has_width, h₃) = >>=-eq-gives (or_fail (truthy payload.settings.width) _) _ b h₂ in
    let (l, has_height, h₄) = >>=-eq-gives (or_fail (truthy payload.settings.height) _) _ b h₃ in
    record {
      width = w;
      height = l;
      width_lem = or_fail-eq-gives _ _ w has_width;
      height_lem = or_fail-eq-gives _ _ l has_height;
      saved_lem = λ key.
          ap (λ (q : Reply BatchResult). get_mock_resolution key (disk_of disk q)) (sym h₄)
          ∙ run_batch_saves recorder nvr (stream_type_of payload) (size_request w l)
              (cameras_of nvr_id rows) disk key;
    }
