-- ===== src/EjParser/Parse/Registry.antt =====
-- The registry of unknown blocks that `parse_lines` of agent/parsers/ej_parser.py keeps.
use atm_monitoring_agent.Prelude.{
  ℕ, zero, suc, ◌+◌, ◌≤◌, ◌≡◌, Bool, true, false, List, [], ◌∷◌, length, take, length-append,
  length-snoc, arith, refl, ◌∙◌, Bool-cases, inl, inr, any, All, ltb,
}
use atm_monitoring_agent.ParserModels.{Text, DateTime, UnknownEventRegistryEntry}
use atm_monitoring_agent.TextOps.{text, text_eq, text_eq-eq, text_eq_refl, strip}
use atm_monitoring_agent.EjParser.Parse.Step.{
  ParseStep, duplicate_block, ignored_block, known_block, unknown_block, parse_blocks_lem,
}
use atm_monitoring_agent.EjParser.{Block, group_blocks}
use atm_monitoring_agent.EjParser.Parse.{
  Parsing, no_parsing, register, unknown_header, first_not_blank, shorten, compile, parse_lines,
}

abbrev pub total : List UnknownEventRegistryEntry → ℕ
total [] = 0
total (e ∷ entries) = e.count + total entries

abbrev pub has_header : Text → UnknownEventRegistryEntry → Bool
has_header h e = text_eq e.header h

abbrev pub IsDistinct : List UnknownEventRegistryEntry → Type 0
IsDistinct [] = Unit
IsDistinct (e ∷ entries) = (any (has_header e.header) entries ≡ false) × IsDistinct entries

-- a signature of at most 100 characters, that was seen
pub record IsEntry (e : UnknownEventRegistryEntry) : Type 0 where
  pub length_lem : length e.header ≤ 100
  pub count_lem : 1 ≤ e.count

pub record IsRegistry (warnings : ℕ) (entries : List UnknownEventRegistryEntry) : Type 0 where
  pub total_lem : total entries ≡ warnings
  pub distinct_lem : IsDistinct entries
  pub entries_lem : All IsEntry entries

module _ (h : Text) (seq : ℕ) (time : DateTime) where
  total-register :
      (entries : List UnknownEventRegistryEntry)
      → total (register h seq time entries) ≡ total entries + 1
  unfolding register
  total-register [] = refl
  total-register (e ∷ entries) = elim (Bool-cases (text_eq e.header h)) [
    | inl i ↦ rw i (omega arith)
    | inr i ↦ rw i (let r = total-register entries in omega arith)
  ]

  any-register :
      (k : Text) (entries : List UnknownEventRegistryEntry)
      → text_eq h k ≡ false
      → any (has_header k) entries ≡ false
      → any (has_header k) (register h seq time entries) ≡ false
  unfolding register
  any-register k [] i j = rw i refl
  any-register k (e ∷ entries) i j = ground (arith, any-register k entries)

  eq_sym : (s t : Text) → text_eq s t ≡ false → text_eq t s ≡ false
  eq_sym s t n = elim (Bool-cases (text_eq t s)) [
    | inl i ↦ let e : text_eq s t ≡ true = rw (text_eq-eq t s i) (text_eq_refl s) in ground arith
    | inr i ↦ i
  ]

  register-IsDistinct :
      (entries : List UnknownEventRegistryEntry)
      → IsDistinct entries
      → IsDistinct (register h seq time entries)
  unfolding register
  register-IsDistinct [] d = (refl, tt)
  register-IsDistinct (e ∷ entries) d = elim (Bool-cases (text_eq e.header h)) [
    | inl i ↦ rw i d
    | inr i ↦
        rw i
          (any-register e.header entries (eq_sym e.header h i) d.0, register-IsDistinct entries d.1)
  ]

  register-IsEntry :
      (entries : List UnknownEventRegistryEntry)
      → length h ≤ 100
      → All IsEntry entries
      → All IsEntry (register h seq time entries)
  unfolding register
  register-IsEntry [] l a = (record { length_lem = l; count_lem = omega arith }, tt)
  register-IsEntry (e ∷ entries) l a = elim (Bool-cases (text_eq e.header h)) [
    | inl i ↦ rw i (record { length_lem = a.0.length_lem; count_lem = omega arith }, a.1)
    | inr i ↦ rw i (a.0, register-IsEntry entries l a.1)
  ]

length-take_le : (n : ℕ) (t : Text) → length (take n t) ≤ n
length-take_le zero t = omega arith
length-take_le (suc n) [] = omega arith
length-take_le (suc n) (c ∷ t) = let e = length-take_le n t in omega arith

shorten_le : (t : Text) → length (shorten t) ≤ 100
shorten_le t = elim (Bool-cases (ltb 100 (length t))) [
  | inl h ↦
      rw h (
        let e = length-append (take 97 t) (text "...") in
        let f = length-take_le 97 t in omega arith)
  | inr h ↦ rw h (ground (arith, h))
]

unknown_header_le : (lines : List Text) → length (unknown_header lines) ≤ 100
unfolding unknown_header
unknown_header_le [] = omega arith
unknown_header_le (line ∷ body) = shorten_le (first_not_blank (strip line) body)

abbrev IsCounted : Parsing → Type 0
IsCounted p = IsRegistry (length p.warnings) p.unknown_registry

ParseStep-IsCounted :
    (file : Text) (p q : Parsing) (b : Block) → ParseStep file p b q → IsCounted p → IsCounted q
ParseStep-IsCounted file p _ b (duplicate_block h) i = i
ParseStep-IsCounted file p _ b (ignored_block h g) i = i
ParseStep-IsCounted file p _ b (known_block h g m) i = i
ParseStep-IsCounted file p _ b (unknown_block h g m) i = record {
  total_lem =
      total-register (unknown_header b.lines) b.seq b.time p.unknown_registry
      ∙ simp length-snoc (let t = i.total_lem in omega arith);
  distinct_lem = register-IsDistinct _ b.seq b.time p.unknown_registry i.distinct_lem;
  entries_lem =
      register-IsEntry _ b.seq b.time p.unknown_registry (unknown_header_le b.lines) i.entries_lem;
}

-- The registry of unknown blocks that a parse gives has no signature twice, every signature has at
-- most 100 characters and a count of at least 1, and the counts add up to the number of warnings.
pub parse_lines-IsRegistry :
    (now : ℕ → DateTime) (lines : List Text) (file : Text)
    → IsRegistry
        (length (parse_lines now lines file).warnings)
        (parse_lines now lines file).unknown_events_registry
unfolding parse_lines compile
parse_lines-IsRegistry now lines file =
    parse_blocks_lem IsCounted file (ParseStep-IsCounted file) no_parsing (group_blocks now lines)
      (record { total_lem = refl; distinct_lem = tt; entries_lem = tt })
