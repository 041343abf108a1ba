-- ===== src/CassetteParser/Distinct.antt =====
-- The cash counts of agent/parsers/cassette_parser.py: one snapshot for each cassette, and what a
-- CASH ADDED block makes of them.
use atm_monitoring_agent.Prelude.{
  ℕ, ◌+◌, ◌≡◌, Bool, true, false, ◌==◌, List, [], ◌∷◌, arith, refl, All, Bool-cases, Option-cases,
  inl, inr, any, is_some, ◌||◌,
}
use atm_monitoring_agent.ParserModels.{Text, CassetteSnapshot}
use atm_monitoring_agent.TextOps.{strip}
use atm_monitoring_agent.EventPatterns.Cassette.{cash_type_row}
use atm_monitoring_agent.CassetteParser.Counts.{
  Section, nowhere, section_of, has_number, set_notes, put_notes, put_row, count_lines, cash_counts,
}

-- No two snapshots are of one cassette.
abbrev pub IsDistinct : List CassetteSnapshot → Type 0
IsDistinct [] = Unit
IsDistinct (s ∷ snaps) = (any (has_number s.cassette_no) snaps ≡ false) × IsDistinct snaps

set_notes-cassette_no :
    (added : Bool) (section : Section) (val : ℕ) (s : CassetteSnapshot)
    → (set_notes added section val s).cassette_no ≡ s.cassette_no
unfolding set_notes
set_notes-cassette_no true section val s = refl
set_notes-cassette_no false nowhere val s = refl
set_notes-cassette_no false Section.dispensed val s = refl
set_notes-cassette_no false Section.remaining val s = refl
set_notes-cassette_no false Section.rejected val s = refl

any-put_notes :
    (n : ℕ) (fresh : CassetteSnapshot) (added : Bool) (section : Section) (val : ℕ)
    (snaps : List CassetteSnapshot)
    → (fresh.cassette_no == n) ≡ false
    → any (has_number n) snaps ≡ false
    → any (has_number n) (put_notes fresh added section val snaps) ≡ false
unfolding put_notes
any-put_notes n fresh added section val [] h k =
    rw (set_notes-cassette_no added section val fresh) (rw h refl)
any-put_notes n fresh added section val (s ∷ snaps) h k =
    let e = set_notes-cassette_no added section val s in
    ground (arith, any-put_notes n fresh added section val snaps, e)

put_notes-IsDistinct :
    (fresh : CassetteSnapshot) (added : Bool) (section : Section) (val : ℕ)
    (snaps : List CassetteSnapshot)
    → IsDistinct snaps
    → IsDistinct (put_notes fresh added section val snaps)
unfolding put_notes
put_notes-IsDistinct fresh added section val [] h = (refl, tt)
put_notes-IsDistinct fresh added section val (s ∷ snaps) h =
    elim (Bool-cases (has_number fresh.cassette_no s)) [
      | inl e ↦ rw e (rw (set_notes-cassette_no added section val s) h)
      | inr e ↦ rw e (
        any-put_notes s.cassette_no fresh added section val snaps (grind arith) h.0,
        put_notes-IsDistinct fresh added section val snaps h.1,
      )
    ]

-- The count is the one that was loaded, and the cassette is in order.
pub record IsLoaded (s : CassetteSnapshot) : Type 0 where
  pub count_lem : s.remaining_notes ≡ s.loaded_notes
  pub some_lem : is_some s.loaded_notes ≡ true
  pub status_lem : s.cassette_status ≡ "Normal"

put_notes-IsLoaded :
    (fresh : CassetteSnapshot) (section : Section) (val : ℕ) (snaps : List CassetteSnapshot)
    → All IsLoaded snaps
    → All IsLoaded (put_notes fresh true section val snaps)
unfolding put_notes set_notes
put_notes-IsLoaded fresh section val [] h =
    (record { count_lem = refl; some_lem = refl; status_lem = refl }, tt)
put_notes-IsLoaded fresh section val (s ∷ snaps) h =
    elim (Bool-cases (has_number fresh.cassette_no s)) [
      | inl e ↦ rw e (record { count_lem = refl; some_lem = refl; status_lem = refl }, h.1)
      | inr e ↦ rw e (h.0, put_notes-IsLoaded fresh section val snaps h.1)
    ]

-- A property of the list that each value keeps is kept by the whole loop.
module _ (file : Text) (first last : ℕ) (is_cleared is_added : Bool)
    (P : List CassetteSnapshot → Type 0)
    (keeps : (fresh : CassetteSnapshot) (section : Section) (val : ℕ)
        (snaps : List CassetteSnapshot)
      → P snaps
      → P (put_notes fresh is_added section val snaps)) where
  put_row_lem :
      (section : Section) (number : ℕ) (vals : List ℕ) (snaps : List CassetteSnapshot)
      → P snaps
      → P (put_row file first last is_cleared is_added section number vals snaps)
  unfolding put_row
  put_row_lem section number [] snaps h = h
  put_row_lem section number (val ∷ vals) snaps h =
      put_row_lem section (number + 1) vals _ (keeps _ section val snaps h)

  count_lines_lem :
      (section : Section) (lines : List Text) (snaps : List CassetteSnapshot)
      → P snaps
      → P (count_lines file first last is_cleared is_added section lines snaps)
  unfolding count_lines
  count_lines_lem section [] snaps h = h
  count_lines_lem section (line ∷ lines) snaps h = elim (Option-cases (section_of (strip line))) [
    | inr (opened, e) ↦ rw (e, count_lines) (count_lines_lem opened lines snaps h)
    | inl e ↦
        rw (e, count_lines)
          (elim (Option-cases (cash_type_row (strip line))) [
            | inr (vals, f) ↦
                rw (f, count_lines)
                  (count_lines_lem section lines _ (put_row_lem section 1 vals snaps h))
            | inl f ↦ rw (f, count_lines) (count_lines_lem section lines snaps h)
          ])
  ]

  cash_counts_lem :
      (lines : List Text) (snaps : List CassetteSnapshot)
      → P snaps
      → P (cash_counts file first last is_cleared is_added lines snaps)
  unfolding cash_counts
  cash_counts_lem lines snaps h = elim (Bool-cases (is_cleared || is_added)) [
    | inl e ↦ rw (e, cash_counts) (count_lines_lem nowhere lines snaps h)
    | inr e ↦ rw (e, cash_counts) h
  ]

-- Started on snapshots of distinct cassettes, the cash counts of a block leave snapshots of distinct
-- cassettes: a further value for a cassette changes the snapshot that is there.
pub cash_counts-IsDistinct :
    (file : Text) (first last : ℕ) (is_cleared is_added : Bool) (lines : List Text)
    (snaps : List CassetteSnapshot)
    → IsDistinct snaps
    → IsDistinct (cash_counts file first last is_cleared is_added lines snaps)
cash_counts-IsDistinct file first last is_cleared is_added =
    cash_counts_lem file first last is_cleared is_added IsDistinct
      (λ fresh section. put_notes-IsDistinct fresh is_added section)

-- In a CASH ADDED block with no cassette action before it, every snapshot has a loaded count, the
-- same remaining count and the status "Normal", whatever section the values stand in.
pub cash_counts-IsLoaded :
    (file : Text) (first last : ℕ) (is_cleared : Bool) (lines : List Text)
    → All IsLoaded (cash_counts file first last is_cleared true lines [])
cash_counts-IsLoaded file first last is_cleared lines =
    cash_counts_lem file first last is_cleared true (All IsLoaded) put_notes-IsLoaded lines [] tt
