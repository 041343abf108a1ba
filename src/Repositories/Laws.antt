-- ===== src/Repositories/Laws.antt =====
-- agent/repositories/live_status_repository.py: what is read back after a write.
use atm_monitoring_agent.Prelude.{
  ℕ, ◌≡◌, refl, ap, ◌∙◌, ◌<◌, true, false, some, List, [], ◌∷◌, ◌==◌, arith, if◌then◌else◌,
}
use atm_monitoring_agent.Database.{AtmLiveStatus, Db}
use atm_monitoring_agent.Repositories.{find_live, get_by_atm_id, put_live, save, update_live_status}

find_live-atm_id :
    (atm_id : ℕ) (rows : List AtmLiveStatus) (s : AtmLiveStatus)
    → find_live atm_id rows ≡ some s
    → s.atm_id ≡ atm_id
unfolding find_live
find_live-atm_id atm_id [] s e = cc
find_live-atm_id atm_id (r ∷ rows) s e = ground (arith, find_live-atm_id atm_id rows s)

find_live-put_live :
    (atm_id : ℕ) (s : AtmLiveStatus) (rows : List AtmLiveStatus)
    → find_live atm_id (put_live s rows)
      ≡ (if s.atm_id == atm_id then some s else find_live atm_id rows)
unfolding find_live put_live
find_live-put_live atm_id s [] = ground arith
find_live-put_live atm_id s (r ∷ rows) = ground (arith, find_live-put_live atm_id s rows)

-- A row that is found has the ATM's id.
pub get_by_atm_id-atm_id :
    (db : Db) (atm_id : ℕ) (s : AtmLiveStatus)
    → get_by_atm_id db atm_id ≡ some s
    → s.atm_id ≡ atm_id
unfolding get_by_atm_id
get_by_atm_id-atm_id db atm_id s e = find_live-atm_id atm_id db.live s e

-- After a save the row of its ATM is the saved one with the new version, and every other row is as
-- it was.
pub get_by_atm_id-save :
    (db : Db) (s : AtmLiveStatus) (atm_id : ℕ)
    → get_by_atm_id (save db s) atm_id ≡ (
        if s.atm_id == atm_id
        then some (record s { row_version = db.next_version })
        else get_by_atm_id db atm_id)
unfolding get_by_atm_id save
get_by_atm_id-save db s atm_id =
    find_live-put_live atm_id (record s { row_version = db.next_version }) db.live

-- The conditional update succeeds exactly when the row that is now in the table has the version
-- that was read; then the row is replaced under a new version, and otherwise nothing changes.
pub update_live_status_lem :
    (db : Db) (s current : AtmLiveStatus) (v : ℕ)
    → get_by_atm_id db s.atm_id ≡ some current
    → update_live_status db s (some v)
      ≡ (if current.row_version == v then (true, save db s) else (false, db))
unfolding update_live_status
update_live_status_lem db s current v e = rw (e, update_live_status)

-- Two sessions have read the same version of a row, a version that the server stamped before: the
-- first conditional update succeeds and its row is read back under a new version, the second one is
-- refused and changes nothing. No update is lost.
pub update_live_status_race :
    (db : Db) (s t current : AtmLiveStatus) (v : ℕ)
    → get_by_atm_id db s.atm_id ≡ some current
    → current.row_version ≡ v
    → v < db.next_version
    → t.atm_id ≡ s.atm_id
    → let (won, db') = update_live_status db s (some v) in
      (won ≡ true)
      × (get_by_atm_id db' s.atm_id ≡ some (record s { row_version = db.next_version }))
      × (update_live_status db' t (some v) ≡ (false, db'))
update_live_status_race db s t current v g e old same =
    let first : update_live_status db s (some v) ≡ (true, save db s) =
      update_live_status_lem db s current v g ∙ ground (arith, e) in
    let saved : get_by_atm_id (save db s) s.atm_id
        ≡ some (record s { row_version = db.next_version }) =
      get_by_atm_id-save db s s.atm_id ∙ ground arith in
    let second : update_live_status (save db s) t (some v) ≡ (false, save db s) =
      update_live_status_lem (save db s) t (record s { row_version = db.next_version }) v
        (ap (get_by_atm_id (save db s)) same ∙ saved)
      ∙ ground arith in
    simp first (refl, saved, second)

-- The live status is read from its own table only.
pub get_by_atm_id-live :
    (db db' : Db) (atm_id : ℕ)
    → db'.live ≡ db.live
    → get_by_atm_id db' atm_id ≡ get_by_atm_id db atm_id
unfolding get_by_atm_id
get_by_atm_id-live db db' atm_id e = ap (find_live atm_id) e
