-- ===== src/Recorder/Element/Keeping.antt =====
-- services/hikvision_service.py: what the reading of one element shows after another, or the element
-- itself, was replaced.
use mathlib.Core.Option
use atm_monitoring_agent.Prelude.{
  ℕ, zero, suc, ◌≤◌, ◌≡◌, refl, ◌∙◌, sym, ap, inl, inr, Bool, true, false, none, some, [], ◌∷◌,
  ◌++◌, arith, ◌≢◌, ◌==◌, Bool-cases, Option-cases, length, All,
}
use atm_monitoring_agent.ParserModels.{Text}
use atm_monitoring_agent.TextOps.{upper}
use atm_monitoring_agent.TextOps.Pattern.{lit, run, run1, nonempty, search_for}
use atm_monitoring_agent.Recorder.Element.{
  element, rest_at, value_at, find_value, replace_value, opening, closing, element_of,
}
use atm_monitoring_agent.Recorder.Element.Matching.{
  clash, NoAngle, lit-clash, lit-append, element-Match, search_for-cong, search_for-none,
  search_for-some, run-append, element_of-append,
}
use atm_monitoring_agent.Recorder.Element.Skipping.{Apart, find-match, find-element_of}
use atm_monitoring_agent.Recorder.Element.Replacing.{
  length-rest_at, replace-none, replace-some, replace-nil, lit-replace, run-replace, rest_at-Match,
}

module _ (p : ℕ → Bool) (tag : Text) where
  find-nil : find_value p tag [] ≡ none
  unfolding find_value search_for element lit
  find-nil = refl

  value_at-none : (t : Text) → rest_at p tag t ≡ none → value_at p tag t ≡ none
  value_at-none t h = elim (Option-cases (element p tag t)) [
    | inl missing ↦ rw missing
    | inr (found, e) ↦ cc (rw e at h)
  ]

  value_at-found :
      (t value rest : Text) → element p tag t ≡ some (value, rest) → value_at p tag t ≡ some value
  value_at-found t value rest h = rw h

  find-unmatched :
      (c : ℕ) (t : Text)
      → value_at p tag (c ∷ t) ≡ none
      → find_value p tag (c ∷ t) ≡ find_value p tag t
  unfolding find_value
  find-unmatched c t h = search_for-none (value_at p tag) c t h

  find-matched :
      (c : ℕ) (t value : Text)
      → value_at p tag (c ∷ t) ≡ some value
      → find_value p tag (c ∷ t) ≡ some value
  unfolding find_value
  find-matched c t value h = search_for-some (value_at p tag) c t value h

module _ (cls : ℕ → Bool) (tag value : Text) (class_lem : cls 60 ≡ false)
    (plain : NoAngle value) where
  abbrev replaced : Text → Text
  replaced = replace_value cls tag value

  -- A marker `<…` matches after the replacement where it matched before, if no match begins here,
  marker-replace_none :
      (q : Text) (c : ℕ) (t : Text)
      → NoAngle q
      → rest_at cls tag (c ∷ t) ≡ none
      → lit (60 ∷ q) (replaced (c ∷ t)) ≡ Option.map replaced (lit (60 ∷ q) (c ∷ t))
  unfolding lit
  marker-replace_none q c t h e =
      rw (replace-none cls tag value c t e) (elim (Bool-cases (upper 60 == upper c)) [
        | inl same ↦ rw same (lit-replace cls tag value q t h)
        | inr differ ↦ rw differ
      ])

  -- or if it is another marker than that of the replaced element.
  marker-replace :
      (q t : Text)
      → NoAngle q
      → clash (opening tag) (60 ∷ q) ≡ true
      → lit (60 ∷ q) (replaced t) ≡ Option.map replaced (lit (60 ∷ q) t)
  unfolding lit
  marker-replace q [] h k = rw (replace-nil cls tag value)
  marker-replace q (c ∷ t) h k = elim (Option-cases (rest_at cls tag (c ∷ t))) [
    | inl e ↦ marker-replace_none q c t h e
    | inr (rest, e) ↦
        let (old, found) = rest_at-Match cls tag (c ∷ t) rest e in
        let m = element-Match cls tag (c ∷ t) old rest found in
        ap (lit (60 ∷ q))
          (replace-some cls tag value c t rest e ∙ element_of-append tag value (replaced rest))
        ∙ lit-clash (opening tag) (60 ∷ q)
            (opening tag ++ (value ++ (closing tag ++ replaced rest))) _ k
            (lit-append (opening tag) (value ++ (closing tag ++ replaced rest)))
        ∙ ap (Option.map replaced)
            (sym (lit-clash (opening tag) (60 ∷ q) (c ∷ t) m.inner k m.opening_lem))
  ]

  nonempty-filled : (v rest : Text) → v ≢ [] → nonempty (v, rest) ≡ some (v, rest)
  nonempty-filled [] rest h = absurd (h refl)
  nonempty-filled (c ∷ v) rest h = refl

  abbrev kept : Text × Text → Text × Text
  kept (v, rest) = (v, replaced rest)

  nonempty-kept : (r : Text × Text) → nonempty (kept r) ≡ Option.map kept (nonempty r)
  nonempty-kept ([], rest) = refl
  nonempty-kept (c ∷ r, rest) = refl

  -- Another element, or the same where no match begins, has the same value after the replacement.
  module _ (p : ℕ → Bool) (other : Text) (p_lem : p 60 ≡ false)
      (own : NoAngle (other ++ 62 ∷ [])) where
    run1-replace : (t : Text) → run1 p (replaced t) ≡ Option.map kept (run1 p t)
    unfolding run1
    run1-replace t = ap nonempty (run-replace cls tag value p t p_lem) ∙ nonempty-kept (run p t)

    closing-replace :
        (t : Text)
        → clash (opening tag) (closing other) ≡ true
        → lit (closing other) (replaced t) ≡ Option.map replaced (lit (closing other) t)
    closing-replace t k = marker-replace (47 ∷ (other ++ 62 ∷ [])) t ((λ h. cc), own) k

    element-replace :
        (t : Text)
        → clash (opening tag) (closing other) ≡ true
        → lit (opening other) (replaced t) ≡ Option.map replaced (lit (opening other) t)
        → element p other (replaced t) ≡ Option.map kept (element p other t)
    unfolding element
    element-replace t k h = elim (Option-cases (lit (opening other) t)) [
      | inl closed ↦ rw (h, closed)
      | inr (inner, opened) ↦
          rw (h, opened, run1-replace inner)
            (elim (Option-cases (run1 p inner)) [
              | inl ended ↦ rw ended
              | inr ((v, rest), ran) ↦
                  rw (ran, closing-replace rest k)
                    (elim (Option-cases (lit (closing other) rest)) [
                      | inl open_end ↦ rw open_end
                      | inr (behind, closed) ↦ rw closed
                    ])
            ])
    ]

    value-replace :
        (t : Text)
        → clash (opening tag) (closing other) ≡ true
        → lit (opening other) (replaced t) ≡ Option.map replaced (lit (opening other) t)
        → value_at p other (replaced t) ≡ value_at p other t
    value-replace t k h = rw (element-replace t k h) (elim (Option-cases (element p other t)) [
      | inl missing ↦ rw missing
      | inr (found, e) ↦ rw e
    ])

  find-cong :
      (p : ℕ → Bool) (other : Text) (c : ℕ) (t u : Text)
      → value_at p other (c ∷ t) ≡ value_at p other (c ∷ u)
      → find_value p other t ≡ find_value p other u
      → find_value p other (c ∷ t) ≡ find_value p other (c ∷ u)
  unfolding find_value
  find-cong p other c t u h k = search_for-cong (value_at p other) c t u h k

  -- The reading of another element is not changed: induction on a bound of the length.
  module _ (p : ℕ → Bool) (other : Text) (p_lem : p 60 ≡ false) (apart : Apart tag other) where
    find-replace_on :
        (n : ℕ) (t : Text) → length t ≤ n → find_value p other (replaced t) ≡ find_value p other t
    find-replace_on n [] h = ap (find_value p other) (replace-nil cls tag value)
    find-replace_on zero (c ∷ t) h = absurd (omega arith)
    find-replace_on (suc n) (c ∷ t) h = elim (Option-cases (rest_at cls tag (c ∷ t))) [
      | inl e ↦
          let step = replace-none cls tag value c t e in
          let kept_value =
            value-replace p other p_lem apart.own (c ∷ t) apart.ended
              (marker-replace_none (other ++ 62 ∷ []) c t apart.own e) in
          ap (find_value p other) step
          ∙ find-cong p other c (replaced t) t (ap (value_at p other) (sym step) ∙ kept_value)
              (find-replace_on n t (omega arith))
      | inr (rest, e) ↦
          let shorter = length-rest_at cls tag (c ∷ t) rest e in
          let (old, found) = rest_at-Match cls tag (c ∷ t) rest e in
          ap (find_value p other) (replace-some cls tag value c t rest e)
          ∙ find-element_of p other tag apart value (replaced rest) plain
          ∙ find-replace_on n rest (omega arith)
          ∙ sym (find-match p other tag apart cls (c ∷ t) old rest class_lem found)
    ]

    pub find-replace : (t : Text) → find_value p other (replaced t) ≡ find_value p other t
    find-replace t = find-replace_on (length t) t (omega arith)

  -- The element itself is read as it was written, if it is there.
  module _ (own : NoAngle (tag ++ 62 ∷ [])) (turned : clash (opening tag) (closing tag) ≡ true)
      (filled : value ≢ []) (in_class : All (λ c. cls c ≡ true) value) where
    value_at-new : (x : Text) → value_at cls tag (element_of tag value ++ x) ≡ some value
    unfolding element run1
    value_at-new x =
        rw (element_of-append tag value x, lit-append (opening tag) (value ++ (closing tag ++ x)))
          (rw (run-append cls value 60 (47 ∷ ((tag ++ 62 ∷ []) ++ x)) in_class class_lem)
            (rw (nonempty-filled value (closing tag ++ x) filled, lit-append (closing tag) x)))

    pub find-replace_own :
        (t : Text)
        → find_value cls tag (replaced t) ≡ Option.map (λ (v : Text). value) (find_value cls tag t)
    find-replace_own [] = rw (replace-nil cls tag value, find-nil cls tag)
    find-replace_own (c ∷ t) = elim (Option-cases (rest_at cls tag (c ∷ t))) [
      | inl e ↦
          let no_match = value_at-none cls tag (c ∷ t) e in
          let still =
            value-replace cls tag class_lem own (c ∷ t) turned
              (marker-replace_none (tag ++ 62 ∷ []) c t own e) in
          let step = replace-none cls tag value c t e in
          ap (find_value cls tag) step
          ∙ find-unmatched cls tag c (replaced t)
              (ap (value_at cls tag) (sym step) ∙ still ∙ no_match)
          ∙ find-replace_own t
          ∙ ap (Option.map (λ (v : Text). value)) (sym (find-unmatched cls tag c t no_match))
      | inr (rest, e) ↦
          let (old, found) = rest_at-Match cls tag (c ∷ t) rest e in
          ap (find_value cls tag) (replace-some cls tag value c t rest e)
          ∙ find-matched cls tag 60 _ value (value_at-new (replaced rest))
          ∙ ap (Option.map (λ (v : Text). value))
              (sym (find-matched cls tag c t old (value_at-found cls tag (c ∷ t) old rest found)))
    ]
