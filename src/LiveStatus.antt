-- ===== src/LiveStatus.antt =====
-- `EventProcessorService._apply_status_updates` of agent/services/event_processor_service.py: what
-- an event and its snapshots change in the live status of an ATM. `now` is the clock's reading.
pub mod Identity
pub mod Totals
use atm_monitoring_agent.Prelude.{
  ℕ, ◌+◌, ◌*◌, Bool, true, false, ◌||◌, String, Option, none, some, List, [], ◌∷◌, ltb, ◌==◌,
  str_eq, if◌then◌else◌, get_or, is_some,
}
use atm_monitoring_agent.ParserModels.{DateTime, Decimal, AtmParsedEvent, CassetteSnapshot}
use atm_monitoring_agent.Database.{AtmLiveStatus}

-- Which terminal statuses switch the online flag.
abbrev pub online_after : Bool → String → Bool
online_after before word =
    if str_eq word "InService" || str_eq word "Online"
    then true
    else if str_eq word "OutOfService" || str_eq word "Offline"
    then false
    else before

apply_terminal : Option String → AtmLiveStatus → AtmLiveStatus
apply_terminal none s = s
apply_terminal (some word) s = record s {
  current_status = some word;
  sst_status = some word;
  is_online = online_after s.is_online word;
}

apply_amount : Option Decimal → DateTime → AtmLiveStatus → AtmLiveStatus
apply_amount none time s = s
apply_amount (some amount) time s = record s {
  last_transaction_time = some time;
  last_transaction_amount = some amount;
}

apply_event : AtmLiveStatus → AtmParsedEvent → DateTime → AtmLiveStatus
unfolding apply_terminal apply_amount
apply_event s ev now =
    let t = apply_terminal ev.terminal_status s in
    let u = record t {
      supervisor_mode = get_or ev.supervisor_mode t.supervisor_mode;
      last_agent_heartbeat = some now;
      last_event_type = some ev.event_type;
      last_event_time = some ev.event_time;
    } in
    let v = apply_amount ev.amount ev.event_time u in
    record v {
      card_reader_status =
          if str_eq ev.event_type "CardReaderActivated" || ev.is_card_captured
          then some "Normal"
          else v.card_reader_status;
      reject_bin_status =
          if ev.is_reject_bin_removed
          then some "Missing"
          else if ev.is_reject_bin_inserted
          then some "Normal"
          else v.reject_bin_status;
    }

abbrev or_keep : Option ℕ → Option ℕ → Option ℕ
or_keep none old = old
or_keep (some n) old = some n

apply_snapshot : AtmLiveStatus → CassetteSnapshot → AtmLiveStatus
apply_snapshot s snap =
    if snap.cassette_no == 1
    then record s {
      cassette1_status = some snap.cassette_status;
      cassette1_remaining_notes = or_keep snap.remaining_notes s.cassette1_remaining_notes;
    }
    else if snap.cassette_no == 2
    then record s {
      cassette2_status = some snap.cassette_status;
      cassette2_remaining_notes = or_keep snap.remaining_notes s.cassette2_remaining_notes;
    }
    else if snap.cassette_no == 3
    then record s {
      cassette3_status = some snap.cassette_status;
      cassette3_remaining_notes = or_keep snap.remaining_notes s.cassette3_remaining_notes;
    }
    else if snap.cassette_no == 4
    then record s {
      cassette4_status = some snap.cassette_status;
      cassette4_remaining_notes = or_keep snap.remaining_notes s.cassette4_remaining_notes;
    }
    else s

apply_snapshots : AtmLiveStatus → List CassetteSnapshot → AtmLiveStatus
apply_snapshots s [] = s
apply_snapshots s (snap ∷ snaps) = apply_snapshots (apply_snapshot s snap) snaps

-- `c_counts`
abbrev pub c_counts : AtmLiveStatus → List (Option ℕ)
c_counts s =
    s.cassette1_remaining_notes ∷ s.cassette2_remaining_notes ∷ s.cassette3_remaining_notes
    ∷ s.cassette4_remaining_notes ∷ []

-- the loop of `total_rem` and `rem_count_valid`
pub count_notes : ℕ → Bool → List (Option ℕ) → ℕ × Bool
count_notes total valid [] = (total, valid)
count_notes total valid (none ∷ counts) = count_notes total valid counts
count_notes total valid (some n ∷ counts) = count_notes (total + n) true counts

-- `c_denoms`, a dict read with the default 0
abbrev pub default_denoms : ℕ → ℕ
default_denoms n =
    if n == 1
    then 1000
    else if n == 2
    then 500
    else if n == 3
    then 100
    else if n == 4
    then 50
    else 0

abbrev set_denom : (ℕ → ℕ) → ℕ → Option ℕ → ℕ → ℕ
set_denom denoms key none n = denoms n
set_denom denoms key (some d) n = if n == key then d else denoms n

pub snapshot_denoms : (ℕ → ℕ) → List CassetteSnapshot → ℕ → ℕ
snapshot_denoms denoms [] = denoms
snapshot_denoms denoms (snap ∷ snaps) =
    snapshot_denoms (set_denom denoms snap.cassette_no snap.denomination) snaps

-- the loop of `calc_cash`; `i` is the cassette number of the first count
pub count_cash : (ℕ → ℕ) → ℕ → ℕ → List (Option ℕ) → ℕ
count_cash denoms cash i [] = cash
count_cash denoms cash i (none ∷ counts) = count_cash denoms cash (i + 1) counts
count_cash denoms cash i (some n ∷ counts) = count_cash denoms (cash + n * denoms i) (i + 1) counts

apply_totals : AtmLiveStatus → (ℕ → ℕ) → AtmLiveStatus
apply_totals s denoms =
    let (total_rem, rem_count_valid) = count_notes 0 false (c_counts s) in
    let calc_cash = count_cash denoms 0 1 (c_counts s) in
    if rem_count_valid
    then record s {
      total_remaining_notes = some total_rem;
      cash_remaining_amount = some calc_cash;
      cash_available = ltb 0 total_rem;
    }
    else s

pub apply_status_updates :
    AtmLiveStatus → AtmParsedEvent → List CassetteSnapshot → DateTime → AtmLiveStatus
apply_status_updates status ev snaps now =
    let s =
      apply_totals (apply_snapshots (apply_event status ev now) snaps)
        (snapshot_denoms default_denoms snaps) in
    record s { last_heartbeat = some ev.event_time }
