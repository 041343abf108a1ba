-- ===== src/EjParser/Parse/Precedence.antt =====
-- `parse_lines` of agent/parsers/ej_parser.py: what decides on the type of a block's event, and when
-- a block is unknown.
use atm_monitoring_agent.Prelude.{
  ◌+◌, ◌≡◌, Bool, true, false, ◌||◌, not, String, Option, none, some, List, [], ◌∷◌, arith, refl,
  ◌∙◌, ap, is_some, get_or, Bool-cases, Option-cases, inl, inr, if◌then◌else◌, str_eq,
}
use atm_monitoring_agent.ParserModels.{Text, AtmParsedEvent, CassetteSnapshot}
use atm_monitoring_agent.EventPatterns.{Operational, operational_patterns, find_operational}
use atm_monitoring_agent.SupervisorParser.{parse_supervisor}
use atm_monitoring_agent.EjParser.{Block}
use atm_monitoring_agent.EjParser.Primary.{
  Primary, operational, use_supervisor, use_cassettes, use_action, is_action, primary_event,
}
use atm_monitoring_agent.EjParser.Parse.{search_text, primary_of, snaps_of, is_matched, event_of}

abbrev later_or : Option String → Option String → Option String
later_or none first = first
later_or (some op) first = some op

-- the operation of the last snapshot that is an action on a cassette or its cash
abbrev pub last_action : List CassetteSnapshot → Option String
last_action [] = none
last_action (s ∷ snaps) =
    later_or (last_action snaps)
      (if is_action s.operation_type then some s.operation_type else none)

abbrev pub type_of : Option AtmParsedEvent → Option String
type_of none = none
type_of (some e) = some e.event_type

abbrev pub row_type : Option Operational → Option String
row_type none = none
row_type (some r) = some r.event_type

get_or-later_or : (l : Option String) (o d : String) → get_or l o ≡ get_or (later_or l (some o)) d
get_or-later_or none o d = refl
get_or-later_or (some x) o d = refl

is_some-later_or :
    (l : Option String) (o : String) (q : Bool)
    → (is_some l || true) ≡ (is_some (later_or l (some o)) || q)
is_some-later_or none o q = refl
is_some-later_or (some x) o q = refl

later_or_unset : (l : Option String) → later_or l none ≡ l
later_or_unset none = refl
later_or_unset (some x) = refl

use_cassettes-event_type :
    (snaps : List CassetteSnapshot) (p : Primary)
    → ((use_cassettes snaps p).event_type ≡ get_or (last_action snaps) p.event_type)
      × ((use_cassettes snaps p).matched ≡ (is_some (last_action snaps) || p.matched))
unfolding use_cassettes
use_cassettes-event_type [] p = (refl, refl)
use_cassettes-event_type (s ∷ snaps) p =
    let later = last_action snaps in
    let op = s.operation_type in
    elim (Bool-cases (is_action op)) [
      | inl h ↦
          let (t, m) = use_cassettes-event_type snaps (use_action op p) in
          rw (h, use_cassettes)
            (t ∙ get_or-later_or later op p.event_type, m ∙ is_some-later_or later op p.matched)
      | inr h ↦ rw (h, use_cassettes, later_or_unset later) (use_cassettes-event_type snaps p)
    ]

-- The supervisor event of a block, if there is one.
abbrev pub supervisor_of : Text → Block → Option AtmParsedEvent
supervisor_of file b = parse_supervisor b.lines b.seq b.time file (b.start + 1)

operational-event_type :
    (t : Text)
    → ((operational t).event_type
        ≡ get_or (row_type (find_operational operational_patterns t)) "Unknown")
      × ((operational t).matched ≡ is_some (find_operational operational_patterns t))
unfolding operational
operational-event_type t = elim (Option-cases (find_operational operational_patterns t)) [
  | inl e ↦ rw (e, operational) (refl, refl)
  | inr (r, e) ↦ rw (e, operational) (refl, refl)
]

-- what the supervisor event changes
use_supervisor-event_type :
    (e : Option AtmParsedEvent) (p : Primary)
    → ((use_supervisor e p).event_type ≡ get_or (type_of e) p.event_type)
      × ((use_supervisor e p).matched ≡ (is_some e || p.matched))
use_supervisor-event_type none p = (refl, refl)
use_supervisor-event_type (some e) p = (refl, refl)

unknown_type :
    (m : Bool) (p : Primary)
    → p.matched ≡ m
    → (m ≡ false → p.event_type ≡ "Unknown")
    → (p.matched || not (str_eq p.event_type "Unknown")) ≡ m
unknown_type true p e u = rw e refl
unknown_type false p e u = simp (e, u refl) refl

-- The type of a block's event is that of the last action on a cassette or its cash among the block's
-- snapshots, else that of the supervisor event, else that of the first operational pattern that is
-- found, else "Unknown".
pub event_of-event_type :
    (file : Text) (b : Block)
    → (event_of file b).event_type
      ≡ get_or (last_action (snaps_of file b)) (
          get_or
            (type_of (supervisor_of file b))
            (get_or (row_type (find_operational operational_patterns (search_text b))) "Unknown"))
unfolding event_of primary_event primary_of
event_of-event_type file b =
    let snaps = snaps_of file b in
    let base = operational (search_text b) in
    let (s, _) = use_cassettes-event_type snaps (use_supervisor (supervisor_of file b) base) in
    let (t, _) = use_supervisor-event_type (supervisor_of file b) base in
    let (u, _) = operational-event_type (search_text b) in
    s ∙ ap (get_or (last_action snaps)) (t ∙ ap (get_or (type_of (supervisor_of file b))) u)

none_found :
    (a : Option String) (e : Option AtmParsedEvent) (r : Option Operational)
    → (is_some a || (is_some e || is_some r)) ≡ false
    → get_or a (get_or (type_of e) (get_or (row_type r) "Unknown")) ≡ "Unknown"
none_found none none none h = refl
none_found none none (some r) h = ground (arith, h)
none_found none (some e) r h = ground (arith, h)
none_found (some a) e r h = ground (arith, h)

-- A block is reported as an event, and not as an unknown block, exactly when one of its snapshots is
-- an action on a cassette or its cash, or it has a supervisor event, or an operational pattern is found.
pub is_matched_lem :
    (file : Text) (b : Block)
    → is_matched file b ≡ (
        is_some (last_action (snaps_of file b))
        || (is_some (supervisor_of file b)
            || is_some (find_operational operational_patterns (search_text b))))
unfolding primary_of
is_matched_lem file b =
    let snaps = snaps_of file b in
    let base = operational (search_text b) in
    let (s, m) = use_cassettes-event_type snaps (use_supervisor (supervisor_of file b) base) in
    let (t, n) = use_supervisor-event_type (supervisor_of file b) base in
    let (u, k) = operational-event_type (search_text b) in
    let type_lem =
      s ∙ ap (get_or (last_action snaps)) (t ∙ ap (get_or (type_of (supervisor_of file b))) u) in
    let matched_lem =
      m
      ∙ ap (λ x. is_some (last_action snaps) || x)
          (n ∙ ap (λ x. is_some (supervisor_of file b) || x) k) in
    unknown_type _ (primary_of file b snaps) matched_lem (λ h.
      type_lem
      ∙ none_found (last_action snaps) (supervisor_of file b)
          (find_operational operational_patterns (search_text b)) h)
