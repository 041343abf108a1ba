-- ===== src/Recorder/Element/Skipping.antt =====
-- services/hikvision_service.py: what a search for an element passes over.
use atm_monitoring_agent.Prelude.{
  ℕ, ◌≡◌, refl, ◌∙◌, ap, inl, inr, Bool-cases, Bool, true, false, none, some, [], ◌∷◌, ◌++◌, ◌≢◌,
}
use mathlib.Core.Option.{some-injective}
use atm_monitoring_agent.ParserModels.{Text}
use atm_monitoring_agent.TextOps.{upper}
use atm_monitoring_agent.TextOps.Pattern.{lit, run}
use atm_monitoring_agent.Recorder.Element.{
  element, value_at, find_value, opening, closing, element_of,
}
use atm_monitoring_agent.Recorder.Element.Matching.{
  clash, NoAngle, upper-angle, lit-append, lit-clash, lit-angle, element-Match, search_for-none,
  lit-cons, element_of-append,
}

-- A tag that is not the one searched for: no match of either can begin in the other.
pub record Apart (other tag : Text) : Type 0 where
  pub opened : clash (opening other) (opening tag) ≡ true
  pub closed : clash (closing other) (opening tag) ≡ true
  pub ended : clash (opening other) (closing tag) ≡ true
  pub plain : NoAngle (other ++ 62 ∷ [])
  pub own : NoAngle (tag ++ 62 ∷ [])

module _ (p : ℕ → Bool) (tag : Text) where
  value_at-unopened : (t : Text) → lit (opening tag) t ≡ none → value_at p tag t ≡ none
  unfolding element
  value_at-unopened t h = rw h

  find-unopened :
      (c : ℕ) (cs : Text)
      → lit (opening tag) (c ∷ cs) ≡ none
      → find_value p tag (c ∷ cs) ≡ find_value p tag cs
  unfolding find_value
  find-unopened c cs h = search_for-none (value_at p tag) c cs (value_at-unopened (c ∷ cs) h)

  find-skip : (c : ℕ) (cs : Text) → c ≢ 60 → find_value p tag (c ∷ cs) ≡ find_value p tag cs
  find-skip c cs h = find-unopened c cs (lit-angle _ c cs h)

  find-text : (v x : Text) → NoAngle v → find_value p tag (v ++ x) ≡ find_value p tag x
  find-text [] x h = refl
  find-text (c ∷ v) x h = find-skip c (v ++ x) h.0 ∙ find-text v x h.1

  find-lit : (q t r : Text) → NoAngle q → lit q t ≡ some r → find_value p tag t ≡ find_value p tag r
  unfolding lit
  find-lit [] t r h e = ap (find_value p tag) (some-injective _ _ e)
  find-lit (c ∷ q) [] r h e = cc
  find-lit (c ∷ q) (d ∷ t) r h e =
      let (same, behind) = lit-cons c d q t r e in
      find-skip d t (λ angle. h.0 (upper-angle c (same ∙ ap upper angle)))
      ∙ find-lit q t r h.1 behind

  find-run :
      (cls : ℕ → Bool) (t : Text)
      → cls 60 ≡ false
      → find_value p tag t ≡ find_value p tag (run cls t).1
  unfolding run
  find-run cls [] h = refl
  find-run cls (c ∷ t) h = elim (Bool-cases (cls c)) [
    | inl inside ↦ rw inside (find-skip c t (λ angle. cc) ∙ find-run cls t h)
    | inr outside ↦ rw outside
  ]

  find-marker :
      (q t r : Text)
      → clash (60 ∷ q) (opening tag) ≡ true
      → NoAngle q
      → lit (60 ∷ q) t ≡ some r
      → find_value p tag t ≡ find_value p tag r
  unfolding lit
  find-marker q [] r k h e = cc
  find-marker q (c ∷ t) r k h e =
      find-unopened c t (lit-clash (60 ∷ q) (opening tag) (c ∷ t) r k e)
      ∙ find-lit q t r h (lit-cons 60 c q t r e).1

  module _ (other : Text) (apart : Apart other tag) where
    -- A search passes over a match of another element,
    pub find-match :
        (cls : ℕ → Bool) (t value rest : Text)
        → cls 60 ≡ false
        → element cls other t ≡ some (value, rest)
        → find_value p tag t ≡ find_value p tag rest
    find-match cls t value rest h e =
        let m = element-Match cls other t value rest e in
        find-marker _ t m.inner apart.opened apart.plain m.opening_lem
        ∙ find-run cls m.inner h
        ∙ ap (λ (r : Text × Text). find_value p tag r.1) m.value_lem
        ∙ find-marker _ m.behind rest apart.closed ((λ h. cc), apart.plain) m.closing_lem

    -- and over an element that was written.
    pub find-element_of :
        (value x : Text)
        → NoAngle value
        → find_value p tag (element_of other value ++ x) ≡ find_value p tag x
    find-element_of value x h =
        ap (find_value p tag) (element_of-append other value x)
        ∙ find-marker _ _ (value ++ (closing other ++ x)) apart.opened apart.plain
            (lit-append (opening other) _)
        ∙ find-text value (closing other ++ x) h
        ∙ find-marker _ _ x apart.closed ((λ h. cc), apart.plain) (lit-append (closing other) x)
