-- ===== src/LiveStatus/Identity.antt =====
-- `_apply_status_updates`: the key of the row stays, and the time of the event is taken over.
use atm_monitoring_agent.Prelude.{ℕ, ◌≡◌, refl, ◌∙◌, some, List, [], ◌∷◌, arith}
use atm_monitoring_agent.ParserModels.{DateTime, AtmParsedEvent, CassetteSnapshot}
use atm_monitoring_agent.Database.{AtmLiveStatus}
use atm_monitoring_agent.LiveStatus.{
  apply_event, apply_snapshot, apply_snapshots, apply_totals, apply_status_updates, snapshot_denoms,
  default_denoms,
}

atm_id-apply_snapshots :
    (s : AtmLiveStatus) (snaps : List CassetteSnapshot)
    → (apply_snapshots s snaps).atm_id ≡ s.atm_id
unfolding apply_snapshots apply_snapshot
atm_id-apply_snapshots s [] = refl
atm_id-apply_snapshots s (snap ∷ snaps) =
    ground (arith, atm_id-apply_snapshots (apply_snapshot s snap) snaps)

atm_id-apply_event :
    (s : AtmLiveStatus) (ev : AtmParsedEvent) (now : DateTime)
    → (apply_event s ev now).atm_id ≡ s.atm_id
unfolding apply_event
atm_id-apply_event s ev now = ground arith

atm_id-apply_totals :
    (s : AtmLiveStatus) (denoms : ℕ → ℕ) → (apply_totals s denoms).atm_id ≡ s.atm_id
unfolding apply_totals
atm_id-apply_totals s denoms = ground arith

pub atm_id-apply_status_updates :
    (s : AtmLiveStatus) (ev : AtmParsedEvent) (snaps : List CassetteSnapshot) (now : DateTime)
    → (apply_status_updates s ev snaps now).atm_id ≡ s.atm_id
unfolding apply_status_updates
atm_id-apply_status_updates s ev snaps now =
    atm_id-apply_totals (apply_snapshots (apply_event s ev now) snaps)
      (snapshot_denoms default_denoms snaps)
    ∙ atm_id-apply_snapshots (apply_event s ev now) snaps
    ∙ atm_id-apply_event s ev now

last_event_time-apply_snapshots :
    (s : AtmLiveStatus) (snaps : List CassetteSnapshot)
    → (apply_snapshots s snaps).last_event_time ≡ s.last_event_time
unfolding apply_snapshots apply_snapshot
last_event_time-apply_snapshots s [] = refl
last_event_time-apply_snapshots s (snap ∷ snaps) =
    ground (arith, last_event_time-apply_snapshots (apply_snapshot s snap) snaps)

last_event_time-apply_event :
    (s : AtmLiveStatus) (ev : AtmParsedEvent) (now : DateTime)
    → (apply_event s ev now).last_event_time ≡ some ev.event_time
unfolding apply_event
last_event_time-apply_event s ev now = ground arith

last_event_time-apply_totals :
    (s : AtmLiveStatus) (denoms : ℕ → ℕ)
    → (apply_totals s denoms).last_event_time ≡ s.last_event_time
unfolding apply_totals
last_event_time-apply_totals s denoms = ground arith

pub last_event_time-apply_status_updates :
    (s : AtmLiveStatus) (ev : AtmParsedEvent) (snaps : List CassetteSnapshot) (now : DateTime)
    → (apply_status_updates s ev snaps now).last_event_time ≡ some ev.event_time
unfolding apply_status_updates
last_event_time-apply_status_updates s ev snaps now =
    last_event_time-apply_totals (apply_snapshots (apply_event s ev now) snaps)
      (snapshot_denoms default_denoms snaps)
    ∙ last_event_time-apply_snapshots (apply_event s ev now) snaps
    ∙ last_event_time-apply_event s ev now
