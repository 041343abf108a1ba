-- ===== src/LiveStatus/Totals.antt =====
-- `_apply_status_updates`: the totals agree with the counts of the four cassettes, and the event's
-- time, type and terminal status are taken over.
use atm_monitoring_agent.Prelude.{
  ℕ, ◌+◌, ◌*◌, ◌≡◌, sym, ap, ◌∙◌, ◌&&◌, if◌then◌else◌, Bool, true, false, ◌||◌, String, Option,
  none, some, List, [], ◌∷◌, arith, ltb, ◌==◌, get_or, is_some, any,
}
use atm_monitoring_agent.ParserModels.{DateTime, AtmParsedEvent, CassetteSnapshot}
use atm_monitoring_agent.Database.{AtmLiveStatus}
use atm_monitoring_agent.LiveStatus.{
  apply_event, apply_snapshot, apply_snapshots, apply_totals, apply_status_updates, snapshot_denoms,
  default_denoms, c_counts, count_notes, count_cash,
}

-- The notes that are known, and what they are worth at the given denominations from cassette `i` on.
abbrev pub known_notes : List (Option ℕ) → ℕ
known_notes [] = 0
known_notes (n ∷ counts) = get_or n 0 + known_notes counts

abbrev pub known_cash : (ℕ → ℕ) → ℕ → List (Option ℕ) → ℕ
known_cash denoms i [] = 0
known_cash denoms i (n ∷ counts) = get_or n 0 * denoms i + known_cash denoms (i + 1) counts

count_notes-known :
    (total : ℕ) (valid : Bool) (counts : List (Option ℕ))
    → let (sum, known) = count_notes total valid counts in
      (sum ≡ total + known_notes counts) × (known ≡ (valid || any is_some counts))
unfolding count_notes
count_notes-known total valid [] = ground arith
count_notes-known total valid (none ∷ counts) = ground (arith, count_notes-known total valid counts)
count_notes-known total valid (some n ∷ counts) =
    ground (arith, count_notes-known (total + n) true counts)

count_cash-known :
    (denoms : ℕ → ℕ) (cash i : ℕ) (counts : List (Option ℕ))
    → count_cash denoms cash i counts ≡ cash + known_cash denoms i counts
unfolding count_cash
count_cash-known denoms cash i [] = omega arith
count_cash-known denoms cash i (none ∷ counts) =
    omega (arith, count_cash-known denoms cash (i + 1) counts)
count_cash-known denoms cash i (some n ∷ counts) =
    omega (arith, count_cash-known denoms (cash + n * denoms i) (i + 1) counts)

-- The totals of a status agree with its counts at the given denominations: where some count is
-- known, the total is the sum of the known counts, the amount their worth, and cash is available
-- exactly if the sum is positive.
pub record TotalsAgree (denoms : ℕ → ℕ) (s : AtmLiveStatus) : Type 0 where
  pub notes : s.total_remaining_notes ≡ some (known_notes (c_counts s))
  pub cash : s.cash_remaining_amount ≡ some (known_cash denoms 1 (c_counts s))
  pub available : s.cash_available ≡ ltb 0 (known_notes (c_counts s))

apply_totals-TotalsAgree :
    (s : AtmLiveStatus) (denoms : ℕ → ℕ)
    → any is_some (c_counts s) ≡ true
    → TotalsAgree denoms (apply_totals s denoms)
unfolding apply_totals
apply_totals-TotalsAgree s denoms known =
    ground (arith, count_notes-known 0 false (c_counts s), count_cash-known denoms 0 1 (c_counts s))

c_counts-apply_totals :
    (s : AtmLiveStatus) (denoms : ℕ → ℕ) → c_counts (apply_totals s denoms) ≡ c_counts s
unfolding apply_totals
c_counts-apply_totals s denoms = ground arith

-- If a note count of some cassette is known after the update, then the totals agree with the counts
-- after the update, each count taken at the last denomination that the snapshots give its cassette,
-- or else at 1000, 500, 100 and 50 for the cassettes 1 to 4.
pub apply_status_updates-TotalsAgree :
    (s : AtmLiveStatus) (ev : AtmParsedEvent) (snaps : List CassetteSnapshot) (now : DateTime)
    → any is_some (c_counts (apply_status_updates s ev snaps now)) ≡ true
    → TotalsAgree (snapshot_denoms default_denoms snaps) (apply_status_updates s ev snaps now)
unfolding apply_status_updates
apply_status_updates-TotalsAgree s ev snaps now known =
    let t = apply_snapshots (apply_event s ev now) snaps in
    let denoms = snapshot_denoms default_denoms snaps in
    let agree =
      apply_totals-TotalsAgree t denoms
        (ap (any is_some) (sym (c_counts-apply_totals t denoms)) ∙ known) in
    record { notes = agree.notes; cash = agree.cash; available = agree.available }

-- The count of a cassette: that of the last snapshot of the cassette which has one, or as before.
abbrev pub latest_notes : ℕ → Option ℕ → List CassetteSnapshot → Option ℕ
latest_notes n before [] = before
latest_notes n before (snap ∷ snaps) =
    latest_notes n
      (if snap.cassette_no == n && is_some snap.remaining_notes
        then snap.remaining_notes
        else before)
      snaps

-- The status of a cassette: that of its last snapshot, or as before.
abbrev pub latest_status : ℕ → Option String → List CassetteSnapshot → Option String
latest_status n before [] = before
latest_status n before (snap ∷ snaps) =
    latest_status n (if snap.cassette_no == n then some snap.cassette_status else before) snaps

-- What the snapshots have made of the four cassettes of a status.
pub record CassettesUpdated (s t : AtmLiveStatus) (snaps : List CassetteSnapshot) : Type 0 where
  pub notes1 : t.cassette1_remaining_notes ≡ latest_notes 1 s.cassette1_remaining_notes snaps
  pub notes2 : t.cassette2_remaining_notes ≡ latest_notes 2 s.cassette2_remaining_notes snaps
  pub notes3 : t.cassette3_remaining_notes ≡ latest_notes 3 s.cassette3_remaining_notes snaps
  pub notes4 : t.cassette4_remaining_notes ≡ latest_notes 4 s.cassette4_remaining_notes snaps
  pub status1 : t.cassette1_status ≡ latest_status 1 s.cassette1_status snaps
  pub status2 : t.cassette2_status ≡ latest_status 2 s.cassette2_status snaps
  pub status3 : t.cassette3_status ≡ latest_status 3 s.cassette3_status snaps
  pub status4 : t.cassette4_status ≡ latest_status 4 s.cassette4_status snaps

apply_snapshots-CassettesUpdated :
    (s : AtmLiveStatus) (snaps : List CassetteSnapshot)
    → CassettesUpdated s (apply_snapshots s snaps) snaps
unfolding apply_snapshots apply_snapshot
apply_snapshots-CassettesUpdated s [] = ground arith
apply_snapshots-CassettesUpdated s (snap ∷ snaps) =
    ground (arith, apply_snapshots-CassettesUpdated (apply_snapshot s snap) snaps)

apply_event-CassettesUpdated :
    (s : AtmLiveStatus) (ev : AtmParsedEvent) (now : DateTime)
    → CassettesUpdated s (apply_event s ev now) []
unfolding apply_event
apply_event-CassettesUpdated s ev now = ground arith

apply_totals-CassettesUpdated :
    (s : AtmLiveStatus) (denoms : ℕ → ℕ) → CassettesUpdated s (apply_totals s denoms) []
unfolding apply_totals
apply_totals-CassettesUpdated s denoms = ground arith

-- Each of the four cassettes has, after the update, the status of its last snapshot and the count of
-- its last snapshot that has one; without such a snapshot they are as before. Snapshots of other
-- cassette numbers change none of them.
pub apply_status_updates-CassettesUpdated :
    (s : AtmLiveStatus) (ev : AtmParsedEvent) (snaps : List CassetteSnapshot) (now : DateTime)
    → CassettesUpdated s (apply_status_updates s ev snaps now) snaps
unfolding apply_status_updates
apply_status_updates-CassettesUpdated s ev snaps now =
    let a = apply_event s ev now in
    let b = apply_snapshots a snaps in
    let denoms = snapshot_denoms default_denoms snaps in
    let x = apply_event-CassettesUpdated s ev now in
    let y = apply_snapshots-CassettesUpdated a snaps in
    let z = apply_totals-CassettesUpdated b denoms in
    record {
      notes1 = z.notes1 ∙ y.notes1 ∙ ap (λ n. latest_notes 1 n snaps) x.notes1;
      notes2 = z.notes2 ∙ y.notes2 ∙ ap (λ n. latest_notes 2 n snaps) x.notes2;
      notes3 = z.notes3 ∙ y.notes3 ∙ ap (λ n. latest_notes 3 n snaps) x.notes3;
      notes4 = z.notes4 ∙ y.notes4 ∙ ap (λ n. latest_notes 4 n snaps) x.notes4;
      status1 = z.status1 ∙ y.status1 ∙ ap (λ n. latest_status 1 n snaps) x.status1;
      status2 = z.status2 ∙ y.status2 ∙ ap (λ n. latest_status 2 n snaps) x.status2;
      status3 = z.status3 ∙ y.status3 ∙ ap (λ n. latest_status 3 n snaps) x.status3;
      status4 = z.status4 ∙ y.status4 ∙ ap (λ n. latest_status 4 n snaps) x.status4;
    }
