-- ===== src/Recorder/Channel/Trailing.antt =====
-- services/hikvision_service.py: the channel of a camera is the number at the end of its name.
use atm_monitoring_agent.Prelude.{
  ℕ, ◌≡◌, ◌≢◌, refl, sym, ◌∙◌, ◌⊎◌, inl, inr, true, false, Option, none, some, [], ◌∷◌, ◌++◌, All,
  Bool-cases, Option-cases, arith,
}
use mathlib.Core.Option.{some-injective}
use atm_monitoring_agent.ParserModels.{Text}
use atm_monitoring_agent.TextOps.{text, is_digit, int, newline, upper}
use atm_monitoring_agent.TextOps.Pattern.{◌>>=◌, guard, lit, run, run1, nonempty, search_for}
use atm_monitoring_agent.Recorder.Element.Matching.{search_for-none, search_for-some, lit-cons}
use atm_monitoring_agent.Recorder.Channel.{
  at_end, last_number, marked_number, first_found, extract_channel_id,
}

abbrev AllDigits : Text → Type 0
AllDigits = All (λ c. is_digit c ≡ true)

abbrev NoDigit : Text → Type 0
NoDigit = All (λ c. is_digit c ≡ false)

run-all : (ds : Text) → AllDigits ds → run is_digit ds ≡ (ds, [])
unfolding run
run-all [] h = refl
run-all (d ∷ ds) h = ground (arith, run-all ds h.1)

upper-digit : (d e : ℕ) → is_digit d ≡ false → is_digit e ≡ true → upper d ≢ upper e
unfolding is_digit upper
upper-digit d e h k same = ground arith

-- Nothing is found on a text of no digits,
last_number-nil : last_number [] ≡ none
unfolding last_number run1 run
last_number-nil = refl

-- a text of digits is found whole,
last_number-all : (d : ℕ) (ds : Text) → AllDigits (d ∷ ds) → last_number (d ∷ ds) ≡ some (d ∷ ds)
unfolding last_number run1 at_end
last_number-all d ds h = rw (run-all (d ∷ ds) h)

at_end-before : (u : Text) (c : ℕ) (ds : Text) → c ≢ newline → at_end (u ++ c ∷ ds) ≡ false
unfolding at_end
at_end-before [] c [] h = ground arith
at_end-before [] c (d ∷ ds) h = refl
at_end-before (e ∷ []) c ds h = refl
at_end-before (e ∷ f ∷ u) c ds h = refl

abbrev ended_run : Text × Text → Option Text
ended_run r = do (digits, rest) ← nonempty r; ended ← guard (at_end rest); some digits

ended_run-before : (r : Text × Text) → at_end r.1 ≡ false → ended_run r ≡ none
ended_run-before ([], rest) h = refl
ended_run-before (d ∷ ds, rest) h = rw h

-- A literal without digits matches digits only if it is empty.
lit-digits : (p ds inner : Text) → NoDigit p → AllDigits ds → lit p ds ≡ some inner → inner ≡ ds
unfolding lit
lit-digits [] ds inner h all e = sym (some-injective _ _ e)
lit-digits (d ∷ p) [] inner h all e = cc
lit-digits (d ∷ p) (f ∷ ds) inner h all e =
    absurd (upper-digit d f h.0 all.0 (lit-cons d f p ds inner e).0)

no_marker :
    (d : ℕ) (p : Text) (f : ℕ) (ds : Text)
    → NoDigit (d ∷ p)
    → AllDigits (f ∷ ds)
    → marked_number (d ∷ p) (f ∷ ds) ≡ none
unfolding marked_number
no_marker d p f ds h all = elim (Option-cases (lit (d ∷ p) (f ∷ ds))) [
  | inl missed ↦ rw missed
  | inr (inner, e) ↦ absurd (upper-digit d f h.0 all.0 (lit-cons d f p ds inner e).0)
]

search-digits :
    (d : ℕ) (p ds : Text)
    → NoDigit (d ∷ p)
    → AllDigits ds
    → search_for (marked_number (d ∷ p)) ds ≡ none
unfolding marked_number lit search_for
search-digits d p [] h all = refl
search-digits d p (f ∷ ds) h all =
    search_for-none (marked_number (d ∷ p)) f ds (no_marker d p f ds h all)
    ∙ search-digits d p ds h all.1

search-all : (ds : Text) → AllDigits ds → search_for last_number ds ≡ last_number ds
unfolding search_for
search-all [] h = refl
search-all (d ∷ ds) h =
    let found = last_number-all d ds h in
    search_for-some last_number d ds (d ∷ ds) found ∙ sym found

module _ (c : ℕ) (ds : Text) (other : is_digit c ≡ false) (inside : c ≢ newline) where
  run-before : (u : Text) → (u' : Text) × ((run is_digit (u ++ c ∷ ds)).1 ≡ u' ++ c ∷ ds)
  unfolding run
  run-before [] = ([], rw other)
  run-before (e ∷ u) = elim (Bool-cases (is_digit e)) [
    | inl digit ↦ let (u', h) = run-before u in (u', rw digit h)
    | inr stop ↦ (e ∷ u, rw stop)
  ]

  -- and nothing at a place before the last character that is no digit.
  last_number-before : (u : Text) → last_number (u ++ c ∷ ds) ≡ none
  unfolding last_number run1
  last_number-before u =
      let (u', h) = run-before u in
      ended_run-before (run is_digit (u ++ c ∷ ds)) (rw h (at_end-before u' c ds inside))

  -- What a marker leaves of the text, if it has no digit itself.
  lit-before :
      (p u inner : Text)
      → NoDigit p
      → AllDigits ds
      → lit p (u ++ c ∷ ds) ≡ some inner
      → ((u' : Text) × (inner ≡ u' ++ c ∷ ds)) ⊎ (inner ≡ ds)
  unfolding lit
  lit-before [] u inner h all e = inl (u, sym (some-injective _ _ e))
  lit-before (d ∷ p) [] inner h all e =
      inr (lit-digits p ds inner h.1 all (lit-cons d c p ds inner e).1)
  lit-before (d ∷ p) (f ∷ u) inner h all e =
      lit-before p u inner h.1 all (lit-cons d f p (u ++ c ∷ ds) inner e).1

  -- A search finds the digits at the end or nothing.
  abbrev OnlyDigits : Option Text → Type 0
  OnlyDigits o = (o ≡ none) ⊎ (o ≡ last_number ds)

  marked_number-OnlyDigits :
      (p u : Text) → NoDigit p → AllDigits ds → OnlyDigits (marked_number p (u ++ c ∷ ds))
  unfolding marked_number
  marked_number-OnlyDigits p u h all = elim (Option-cases (lit p (u ++ c ∷ ds))) [
    | inl no_marker ↦ inl (rw no_marker)
    | inr (inner, marked) ↦ elim (lit-before p u inner h all marked) [
      | inl (u', e) ↦ inl (rw (marked, e) (last_number-before u'))
      | inr e ↦ inr (rw (marked, e))
    ]
  ]

  OnlyDigits-search :
      (d : ℕ) (p u : Text)
      → NoDigit (d ∷ p)
      → AllDigits ds
      → OnlyDigits (search_for (marked_number (d ∷ p)) (u ++ c ∷ ds))
  OnlyDigits-search d p [] h all = elim (marked_number-OnlyDigits (d ∷ p) [] h all) [
    | inl missed ↦
        inl (search_for-none (marked_number (d ∷ p)) c ds missed ∙ search-digits d p ds h all)
    | inr e ↦ elim (Option-cases (last_number ds)) [
      | inl nothing ↦
          inl (
            search_for-none (marked_number (d ∷ p)) c ds (e ∙ nothing) ∙ search-digits d p ds h all)
      | inr (v, found) ↦
          inr (search_for-some (marked_number (d ∷ p)) c ds v (e ∙ found) ∙ sym found)
    ]
  ]
  OnlyDigits-search d p (f ∷ u) h all = elim (marked_number-OnlyDigits (d ∷ p) (f ∷ u) h all) [
    | inl missed ↦
        rw (search_for-none (marked_number (d ∷ p)) f (u ++ c ∷ ds) missed)
          (OnlyDigits-search d p u h all)
    | inr e ↦ elim (Option-cases (last_number ds)) [
      | inl nothing ↦
          rw (search_for-none (marked_number (d ∷ p)) f (u ++ c ∷ ds) (e ∙ nothing))
            (OnlyDigits-search d p u h all)
      | inr (v, found) ↦
          inr (search_for-some (marked_number (d ∷ p)) f (u ++ c ∷ ds) v (e ∙ found) ∙ sym found)
    ]
  ]

  search-last_number :
      (u : Text) → AllDigits ds → search_for last_number (u ++ c ∷ ds) ≡ last_number ds
  search-last_number [] all =
      search_for-none last_number c ds (last_number-before []) ∙ search-all ds all
  search-last_number (f ∷ u) all =
      search_for-none last_number f (u ++ c ∷ ds) (last_number-before (f ∷ u))
      ∙ search-last_number u all

-- The number that the digits write, or 1 without digits.
abbrev pub number_or_one : Text → ℕ
number_or_one [] = 1
number_or_one (d ∷ ds) = int (d ∷ ds)

first_found-none :
    (a b o : Option Text)
    → o ≡ none
    → (a ≡ none) ⊎ (a ≡ o)
    → (b ≡ none) ⊎ (b ≡ o)
    → first_found a b o ≡ 1
first_found-none a b o e ha hb = ground arith

first_found-some :
    (a b o : Option Text) (v : Text)
    → o ≡ some v
    → (a ≡ none) ⊎ (a ≡ o)
    → (b ≡ none) ⊎ (b ≡ o)
    → first_found a b o ≡ int v
first_found-some a b o v e ha hb = ground arith

first_found_lem :
    (a b : Option Text) (ds : Text)
    → AllDigits ds
    → (a ≡ none) ⊎ (a ≡ last_number ds)
    → (b ≡ none) ⊎ (b ≡ last_number ds)
    → first_found a b (last_number ds) ≡ number_or_one ds
first_found_lem a b [] all ha hb = first_found-none a b _ last_number-nil ha hb
first_found_lem a b (d ∷ ds) all ha hb =
    first_found-some a b _ (d ∷ ds) (last_number-all d ds all) ha hb

-- If the name of a camera ends in digits behind a character that is neither a digit nor a newline,
-- its channel is the number that the digits write, whatever stands before; with no digits it is 1. So
-- the two patterns with `-CAM` never change the result.
pub extract_channel_id-append :
    (u : Text) (c : ℕ) (ds : Text)
    → is_digit c ≡ false
    → c ≢ newline
    → All (λ d. is_digit d ≡ true) ds
    → extract_channel_id (u ++ c ∷ ds) ≡ number_or_one ds
unfolding extract_channel_id is_digit
extract_channel_id-append u c ds other inside all =
    rw (search-last_number c ds other inside u all) (
      first_found_lem _ _ ds all
        (OnlyDigits-search c ds other inside 45 (text "CAM-") u
          (refl, (refl, (refl, (refl, (refl, tt))))) all)
        (OnlyDigits-search c ds other inside 45 (text "CAM") u (refl, (refl, (refl, (refl, tt))))
          all))
