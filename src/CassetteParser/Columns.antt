-- ===== src/CassetteParser/Columns.antt =====
-- The cash total tables of agent/parsers/cassette_parser.py: a table and its snapshots, read by
-- columns.
use atm_monitoring_agent.Prelude.{
  ℕ, zero, suc, ◌+◌, ◌<◌, ◌≤◌, ◌≡◌, Option, none, some, List, [], ◌∷◌, length, get_elem?, arith,
  refl, sym, ap, ◌∙◌, inl, inr, ltb, Bool-cases, ltb→lt,
}
use atm_monitoring_agent.ParserModels.{Text, CassetteSnapshot}
use atm_monitoring_agent.CassetteParser.Table.{
  CashTable, empty_table, read_table, cell_snapshot, cells, num_cassettes, table_snapshots,
}

-- a field that may be absent, of an element that may be absent
abbrev pub field : (CassetteSnapshot → Option ℕ) → Option CassetteSnapshot → Option ℕ
field f none = none
field f (some s) = f s

get_elem?-cells :
    (file : Text) (first last : ℕ) (t : CashTable) (idx n i : ℕ)
    → i < n
    → get_elem? (cells file first last t idx n) i ≡ some (cell_snapshot file first last t (idx + i))
unfolding cells
get_elem?-cells file first last t idx zero i h = ground arith
get_elem?-cells file first last t idx (suc n) zero h = grind arith
get_elem?-cells file first last t idx (suc n) (suc i) h =
    get_elem?-cells file first last t (idx + 1) n i (omega arith)
    ∙ ap (λ j. some (cell_snapshot file first last t j)) (omega arith)

get_elem?-cells_first :
    (file : Text) (first last : ℕ) (t : CashTable) (n i : ℕ)
    → i < n
    → get_elem? (cells file first last t 0 n) i ≡ some (cell_snapshot file first last t i)
get_elem?-cells_first file first last t n i h =
    get_elem?-cells file first last t 0 n i h
    ∙ ap (λ j. some (cell_snapshot file first last t j)) (omega arith)

get_elem?-cells_out :
    (file : Text) (first last : ℕ) (t : CashTable) (idx n i : ℕ)
    → n ≤ i
    → get_elem? (cells file first last t idx n) i ≡ none
unfolding cells
get_elem?-cells_out file first last t idx zero i h = refl
get_elem?-cells_out file first last t idx (suc n) zero h = ground arith
get_elem?-cells_out file first last t idx (suc n) (suc i) h =
    get_elem?-cells_out file first last t (idx + 1) n i (omega arith)

get_elem?-beyond : (xs : List ℕ) (i : ℕ) → length xs ≤ i → get_elem? xs i ≡ none
get_elem?-beyond [] i h = refl
get_elem?-beyond (x ∷ xs) zero h = ground arith
get_elem?-beyond (x ∷ xs) (suc i) h = get_elem?-beyond xs i (omega arith)

pub length-cells :
    (file : Text) (first last : ℕ) (t : CashTable) (idx n : ℕ)
    → length (cells file first last t idx n) ≡ n
unfolding cells
length-cells file first last t idx zero = refl
length-cells file first last t idx (suc n) =
    omega (arith, length-cells file first last t (idx + 1) n)

-- What the table holds at `i` is what the snapshot `i` holds; there is none where no row reaches.
pub record IsColumns (t : CashTable) (i : ℕ) (s : Option CassetteSnapshot) : Type 0 where
  pub denomination_lem : field (λ c. c.denomination) s ≡ get_elem? t.denoms i
  pub dispensed_lem : field (λ c. c.dispensed_notes) s ≡ get_elem? t.dispensed i
  pub rejected_lem : field (λ c. c.rejected_notes) s ≡ get_elem? t.rejected i
  pub remaining_lem : field (λ c. c.remaining_notes) s ≡ get_elem? t.remaining i
  pub number_lem : field (λ c. some c.cassette_no) s ≡ field (λ c. some (i + 1)) s

cell_snapshot-IsColumns :
    (file : Text) (first last : ℕ) (t : CashTable) (i : ℕ)
    → IsColumns t i (some (cell_snapshot file first last t i))
unfolding cell_snapshot
cell_snapshot-IsColumns file first last t i = record {
  denomination_lem = refl;
  dispensed_lem = refl;
  rejected_lem = refl;
  remaining_lem = refl;
  number_lem = refl;
}

none-IsColumns : (t : CashTable) (i : ℕ) → num_cassettes t ≤ i → IsColumns t i none
none-IsColumns t i h = record {
  denomination_lem = sym (get_elem?-beyond t.denoms i (omega arith));
  dispensed_lem = sym (get_elem?-beyond t.dispensed i (omega arith));
  rejected_lem = sym (get_elem?-beyond t.rejected i (omega arith));
  remaining_lem = sym (get_elem?-beyond t.remaining i (omega arith));
  number_lem = refl;
}

cells-IsColumns :
    (file : Text) (first last : ℕ) (t : CashTable) (i : ℕ)
    → IsColumns t i (get_elem? (cells file first last t 0 (num_cassettes t)) i)
cells-IsColumns file first last t i = elim (Bool-cases (ltb i (num_cassettes t))) [
  | inl h ↦
      rw
        (get_elem?-cells_first file first last t (num_cassettes t) i (ltb→lt i (num_cassettes t) h))
        (cell_snapshot-IsColumns file first last t i)
  | inr h ↦
      rw (get_elem?-cells_out file first last t 0 (num_cassettes t) i (ground (arith, h)))
        (none-IsColumns t i (ground (arith, h)))
]

-- The snapshots of a cash total table lose nothing and add nothing: as many snapshots as the longest
-- of its rows has values, and at every index `i` the four note fields of the snapshot are the values
-- of the four rows there, absent exactly where the row has ended, with the cassette number `i + 1`.
pub table_snapshots-IsColumns :
    (file : Text) (first last : ℕ) (lines : List Text) (i : ℕ)
    → (length (table_snapshots file first last lines)
        ≡ num_cassettes (read_table empty_table lines))
      × IsColumns
          (read_table empty_table lines)
          i
          (get_elem? (table_snapshots file first last lines) i)
unfolding table_snapshots
table_snapshots-IsColumns file first last lines i = (
  length-cells file first last (read_table empty_table lines) 0
      (num_cassettes (read_table empty_table lines)),
  cells-IsColumns file first last (read_table empty_table lines) i,
)
