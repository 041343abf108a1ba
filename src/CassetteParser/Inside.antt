-- ===== src/CassetteParser/Inside.antt =====
-- `CassetteParser.parse_block` of agent/parsers/cassette_parser.py: where its snapshots stand.
use atm_monitoring_agent.Prelude.{
  ℕ, zero, suc, ◌+◌, ◌-◌, ◌<◌, ◌≤◌, ◌≡◌, Bool, true, false, List, [], ◌∷◌, ◌++◌, length, arith,
  refl, sym, ◌∙◌, All, All-append, Bool-cases, Option-cases, inl, inr, ltb, ltb→lt, ◌||◌,
}
use atm_monitoring_agent.ParserModels.{Text, CassetteSnapshot}
use atm_monitoring_agent.TextOps.{strip}
use atm_monitoring_agent.EventPatterns.Cassette.{
  cash_type_row, cassette_removed, cassette_inserted, cassette_info_row,
}
use atm_monitoring_agent.CassetteParser.Table.{CashTable, cells, cell_snapshot, table_snapshots}
use atm_monitoring_agent.CassetteParser.Counts.{
  Section, has_number, section_of, put_notes, set_notes, cash_counts, put_row, count_lines,
}
use atm_monitoring_agent.CassetteParser.{
  when_known, action_snapshot, action_snapshots, info_snapshot, info_snapshots, table_or_counts,
  unless_found, some_line, parse_cassettes,
}

-- The snapshot is of a numbered cassette, and its lines are among those from `first` to `last`.
pub record IsInside (file : Text) (first last : ℕ) (s : CassetteSnapshot) : Type 0 where
  pub number_lem : 0 < s.cassette_no
  pub file_lem : s.source_file_name ≡ file
  pub first_lem : first ≤ s.start_line_number
  pub order_lem : s.start_line_number ≤ s.end_line_number
  pub last_lem : s.end_line_number ≤ last

module _ (file : Text) (first last : ℕ) where
  when_known-IsInside :
      (c n : ℕ) (s : CassetteSnapshot)
      → first ≤ n
      → n ≤ last
      → s.cassette_no ≡ c
      → s.source_file_name ≡ file
      → s.start_line_number ≡ n
      → s.end_line_number ≡ n
      → All (IsInside file first last) (when_known c s)
  when_known-IsInside c n s lo hi ec ef es ee = elim (Bool-cases (ltb 0 c)) [
    | inl h ↦ rw h (
      record {
        number_lem = let p = ltb→lt 0 c h in omega arith;
        file_lem = ef;
        first_lem = omega arith;
        order_lem = omega arith;
        last_lem = omega arith;
      },
      tt,
    )
    | inr h ↦ rw h tt
  ]

  action_snapshot-IsInside :
      (n : ℕ) (line : Text)
      → first ≤ n
      → n ≤ last
      → All (IsInside file first last) (action_snapshot file n line)
  unfolding action_snapshot
  action_snapshot-IsInside n line lo hi = elim (Option-cases (cassette_removed line)) [
    | inr (c, e) ↦ rw (e, action_snapshot) (when_known-IsInside c n _ lo hi refl refl refl refl)
    | inl e ↦
        rw (e, action_snapshot)
          (elim (Option-cases (cassette_inserted line)) [
            | inr (c, f) ↦
                rw (f, action_snapshot) (when_known-IsInside c n _ lo hi refl refl refl refl)
            | inl f ↦ rw (f, action_snapshot) tt
          ])
  ]

  action_snapshots-IsInside :
      (n : ℕ) (lines : List Text)
      → first ≤ n
      → n + length lines ≤ last + 1
      → All (IsInside file first last) (action_snapshots file n lines)
  unfolding action_snapshots
  action_snapshots-IsInside n [] lo hi = tt
  action_snapshots-IsInside n (line ∷ lines) lo hi =
      All-append (IsInside file first last) (action_snapshot file n (strip line))
        (action_snapshots file (n + 1) lines)
        (action_snapshot-IsInside n (strip line) lo (omega arith))
        (action_snapshots-IsInside (n + 1) lines (omega arith) (omega arith))

  info_snapshots-IsInside :
      (n : ℕ) (lines : List Text)
      → first ≤ n
      → n + length lines ≤ last + 1
      → All (IsInside file first last) (info_snapshots file n lines)
  unfolding info_snapshots
  info_snapshots-IsInside n [] lo hi = tt
  info_snapshots-IsInside n (line ∷ lines) lo hi =
      let rest = info_snapshots-IsInside (n + 1) lines (omega arith) (omega arith) in
      elim (Option-cases (cassette_info_row (strip line))) [
        | inl e ↦ rw (e, info_snapshots) rest
        | inr (r, e) ↦
            rw (e, info_snapshots)
              (All-append (IsInside file first last) (when_known r.number (info_snapshot file n r))
                (info_snapshots file (n + 1) lines)
                (when_known-IsInside r.number n _ lo (omega arith) refl refl refl refl) rest)
      ]

  cells-IsInside :
      (t : CashTable) (idx n : ℕ)
      → first ≤ last
      → All (IsInside file first last) (cells file first last t idx n)
  unfolding cells cell_snapshot
  cells-IsInside t idx zero h = tt
  cells-IsInside t idx (suc n) h = (
    record {
      number_lem = omega arith;
      file_lem = refl;
      first_lem = omega arith;
      order_lem = h;
      last_lem = omega arith;
    },
    cells-IsInside t (idx + 1) n h,
  )

  same_place :
      (s u : CassetteSnapshot)
      → s.cassette_no ≡ u.cassette_no
      → s.source_file_name ≡ u.source_file_name
      → s.start_line_number ≡ u.start_line_number
      → s.end_line_number ≡ u.end_line_number
      → IsInside file first last s
      → IsInside file first last u
  same_place s u en ef es ee h = record {
    number_lem = let p = h.number_lem in omega arith;
    file_lem = sym ef ∙ h.file_lem;
    first_lem = let p = h.first_lem in omega arith;
    order_lem = let p = h.order_lem in omega arith;
    last_lem = let p = h.last_lem in omega arith;
  }

  set_notes-IsInside :
      (added : Bool) (section : Section) (val : ℕ) (s : CassetteSnapshot)
      → IsInside file first last s
      → IsInside file first last (set_notes added section val s)
  unfolding set_notes
  set_notes-IsInside true section val s h = same_place s _ refl refl refl refl h
  set_notes-IsInside false Section.nowhere val s h = h
  set_notes-IsInside false Section.dispensed val s h = same_place s _ refl refl refl refl h
  set_notes-IsInside false Section.remaining val s h = same_place s _ refl refl refl refl h
  set_notes-IsInside false Section.rejected val s h = same_place s _ refl refl refl refl h

  put_notes-IsInside :
      (fresh : CassetteSnapshot) (added : Bool) (section : Section) (val : ℕ)
      (snaps : List CassetteSnapshot)
      → IsInside file first last fresh
      → All (IsInside file first last) snaps
      → All (IsInside file first last) (put_notes fresh added section val snaps)
  unfolding put_notes
  put_notes-IsInside fresh added section val [] f h =
      (set_notes-IsInside added section val fresh f, tt)
  put_notes-IsInside fresh added section val (s ∷ snaps) f h =
      elim (Bool-cases (has_number fresh.cassette_no s)) [
        | inl e ↦ rw e (set_notes-IsInside added section val s h.0, h.1)
        | inr e ↦ rw e (h.0, put_notes-IsInside fresh added section val snaps f h.1)
      ]

  put_row-IsInside :
      (is_cleared is_added : Bool) (section : Section) (number : ℕ) (vals : List ℕ)
      (snaps : List CassetteSnapshot)
      → first ≤ last
      → 0 < number
      → All (IsInside file first last) snaps
      → All
          (IsInside file first last)
          (put_row file first last is_cleared is_added section number vals snaps)
  unfolding put_row
  put_row-IsInside is_cleared is_added section number [] snaps l p h = h
  put_row-IsInside is_cleared is_added section number (val ∷ vals) snaps l p h =
      put_row-IsInside is_cleared is_added section (number + 1) vals _ l (omega arith) (
        put_notes-IsInside _ is_added section val snaps
          (record {
            number_lem = p;
            file_lem = refl;
            first_lem = omega arith;
            order_lem = l;
            last_lem = omega arith;
          })
          h)

  count_lines-IsInside :
      (is_cleared is_added : Bool) (section : Section) (lines : List Text)
      (snaps : List CassetteSnapshot)
      → first ≤ last
      → All (IsInside file first last) snaps
      → All
          (IsInside file first last)
          (count_lines file first last is_cleared is_added section lines snaps)
  unfolding count_lines
  count_lines-IsInside is_cleared is_added section [] snaps l h = h
  count_lines-IsInside is_cleared is_added section (line ∷ lines) snaps l h =
      elim (Option-cases (section_of (strip line))) [
        | inr (opened, e) ↦
            rw (e, count_lines) (count_lines-IsInside is_cleared is_added opened lines snaps l h)
        | inl e ↦
            rw (e, count_lines)
              (elim (Option-cases (cash_type_row (strip line))) [
                | inr (vals, f) ↦
                    rw (f, count_lines)
                      (count_lines-IsInside is_cleared is_added section lines _ l (
                        put_row-IsInside is_cleared is_added section 1 vals snaps l (omega arith)
                          h))
                | inl f ↦
                    rw (f, count_lines)
                      (count_lines-IsInside is_cleared is_added section lines snaps l h)
              ])
      ]

  cash_counts-IsInside :
      (is_cleared is_added : Bool) (lines : List Text) (snaps : List CassetteSnapshot)
      → first ≤ last
      → All (IsInside file first last) snaps
      → All (IsInside file first last) (cash_counts file first last is_cleared is_added lines snaps)
  unfolding cash_counts
  cash_counts-IsInside is_cleared is_added lines snaps l h =
      elim (Bool-cases (is_cleared || is_added)) [
        | inl e ↦
            rw (e, cash_counts)
              (count_lines-IsInside is_cleared is_added Section.nowhere lines snaps l h)
        | inr e ↦ rw (e, cash_counts) h
      ]

  either-IsInside :
      (table otherwise snaps : List CassetteSnapshot)
      → All (IsInside file first last) table
      → All (IsInside file first last) otherwise
      → All (IsInside file first last) snaps
      → All
          (IsInside file first last)
          (elim table [ [] ↦ otherwise | s ∷ rest ↦ snaps ++ s ∷ rest ])
  either-IsInside [] otherwise snaps t o h = o
  either-IsInside (s ∷ rest) otherwise snaps t o h =
      All-append (IsInside file first last) snaps (s ∷ rest) h t

  table_or_counts-IsInside :
      (lines : List Text) (snaps : List CassetteSnapshot)
      → first ≤ last
      → All (IsInside file first last) snaps
      → All (IsInside file first last) (table_or_counts file first last lines snaps)
  unfolding table_or_counts table_snapshots
  table_or_counts-IsInside lines snaps l h =
      either-IsInside (table_snapshots file first last lines) _ snaps (cells-IsInside _ 0 _ l)
        (cash_counts-IsInside _ _ lines snaps l h) h

  unless_found-IsInside :
      (snaps otherwise : List CassetteSnapshot)
      → All (IsInside file first last) snaps
      → All (IsInside file first last) otherwise
      → All (IsInside file first last) (unless_found snaps otherwise)
  unless_found-IsInside [] otherwise h k = k
  unless_found-IsInside (s ∷ snaps) otherwise h k = h

-- Every snapshot that a block gives, whichever of the four sections found it, is of a cassette
-- numbered from 1 on, names the file, and has a range of lines that lies within the block.
pub parse_cassettes-IsInside :
    (line : Text) (lines : List Text) (file : Text) (start : ℕ)
    → All (IsInside file start (start + length lines)) (parse_cassettes (line ∷ lines) file start)
unfolding parse_cassettes
parse_cassettes-IsInside line lines file start =
    let last = start + length lines in
    let actions =
      action_snapshots-IsInside file start last start (line ∷ lines) (omega arith) (omega arith) in
    let others =
      table_or_counts-IsInside file start last (line ∷ lines)
        (action_snapshots file start (line ∷ lines)) (omega arith) actions in
    let rows =
      info_snapshots-IsInside file start last start (line ∷ lines) (omega arith) (omega arith) in
    let e : start + suc (length lines) - 1 ≡ start + length lines = omega arith in
    rw e (elim (Bool-cases (some_line "CASSETTE INFORMATION" (line ∷ lines))) [
      | inl h ↦ rw h (
          unless_found-IsInside file start last
            (action_snapshots file start (line ∷ lines) ++ info_snapshots file start (line ∷ lines))
            _
            (All-append (IsInside file start last) (action_snapshots file start (line ∷ lines)) _
              actions rows)
            others)
      | inr h ↦ rw h others
    ])
