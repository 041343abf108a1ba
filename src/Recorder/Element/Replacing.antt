-- ===== src/Recorder/Element/Replacing.antt =====
-- services/hikvision_service.py: `re.sub` step by step, and what it leaves of a literal and of a run.
use mathlib.Core.Option
use mathlib.Core.Option.{some-injective}
use native.Mathlib.Decide.{ℕ_discrete}
use atm_monitoring_agent.Prelude.{
  ℕ, zero, suc, ◌≤◌, ◌<◌, ◌≡◌, refl, ◌∙◌, sym, ap, inl, inr, Bool, false, Option, none, some, [],
  ◌∷◌, ◌++◌, arith, ◌≢◌, ◌==◌, Bool-cases, Option-cases, length,
}
use atm_monitoring_agent.ParserModels.{Text}
use atm_monitoring_agent.TextOps.{upper}
use atm_monitoring_agent.TextOps.Pattern.{lit, run}
use atm_monitoring_agent.Recorder.Element.{
  element, rest_at, replace_on, replace_value, opening, closing, element_of,
}
use atm_monitoring_agent.Recorder.Element.Matching.{
  NoAngle, length-lit, length-run, lit-angle, element-Match, lit-other, run-stop,
}

module _ (m : Text → Option Text) (new : Text) (f c : ℕ) (t : Text) where
  replace_on-none : m (c ∷ t) ≡ none → replace_on m new (suc f) (c ∷ t) ≡ c ∷ replace_on m new f t
  unfolding replace_on
  replace_on-none h = rw (h, replace_on)

  replace_on-some :
      (rest : Text)
      → m (c ∷ t) ≡ some rest
      → replace_on m new (suc f) (c ∷ t) ≡ new ++ replace_on m new f rest
  unfolding replace_on
  replace_on-some rest h = rw (h, replace_on)

module _ (cls : ℕ → Bool) (tag : Text) where
  pub rest_at-Match :
      (t rest : Text)
      → rest_at cls tag t ≡ some rest
      → (value : Text) × (element cls tag t ≡ some (value, rest))
  rest_at-Match t rest h = elim (Option-cases (element cls tag t)) [
    | inl missing ↦ cc (rw missing at h)
    | inr ((value, behind), found) ↦ (
      value,
      found ∙ ap some (ap (λ (r : Text). (value, r)) (some-injective _ _ (rw found at h))),
    )
  ]

  pub length-rest_at : (t rest : Text) → rest_at cls tag t ≡ some rest → length rest < length t
  length-rest_at t rest h =
      let (value, found) = rest_at-Match t rest h in
      let m = element-Match cls tag t value rest found in
      omega (
        arith,
        length-lit (opening tag) t m.inner m.opening_lem,
        length-run cls m.inner,
        ap (λ (r : Text × Text). length r.1) m.value_lem,
        length-lit (closing tag) m.behind rest m.closing_lem,
      )

  module _ (new : Text) where
    replace_on-enough :
        (f g : ℕ) (t : Text)
        → length t ≤ f
        → length t ≤ g
        → replace_on (rest_at cls tag) new f t ≡ replace_on (rest_at cls tag) new g t
    unfolding replace_on
    replace_on-enough zero zero t h k = refl
    replace_on-enough zero (suc g) [] h k = refl
    replace_on-enough zero (suc g) (c ∷ t) h k = absurd (omega arith)
    replace_on-enough (suc f) zero [] h k = refl
    replace_on-enough (suc f) zero (c ∷ t) h k = absurd (omega arith)
    replace_on-enough (suc f) (suc g) [] h k = refl
    replace_on-enough (suc f) (suc g) (c ∷ t) h k = elim (Option-cases (rest_at cls tag (c ∷ t))) [
      | inl no_match ↦
          replace_on-none (rest_at cls tag) new f c t no_match
          ∙ ap (◌∷◌ c) (replace_on-enough f g t (omega arith) (omega arith))
          ∙ sym (replace_on-none (rest_at cls tag) new g c t no_match)
      | inr (rest, match) ↦
          let shorter = length-rest_at (c ∷ t) rest match in
          replace_on-some (rest_at cls tag) new f c t rest match
          ∙ ap (◌++◌ new) (replace_on-enough f g rest (omega arith) (omega arith))
          ∙ sym (replace_on-some (rest_at cls tag) new g c t rest match)
    ]

module _ (cls : ℕ → Bool) (tag value : Text) where
  pub replace-none :
      (c : ℕ) (t : Text)
      → rest_at cls tag (c ∷ t) ≡ none
      → replace_value cls tag value (c ∷ t) ≡ c ∷ replace_value cls tag value t
  unfolding replace_value
  replace-none c t h = replace_on-none (rest_at cls tag) _ (length t) c t h

  pub replace-some :
      (c : ℕ) (t rest : Text)
      → rest_at cls tag (c ∷ t) ≡ some rest
      → replace_value cls tag value (c ∷ t)
        ≡ element_of tag value ++ replace_value cls tag value rest
  unfolding replace_value
  replace-some c t rest h =
      let shorter = length-rest_at cls tag (c ∷ t) rest h in
      replace_on-some (rest_at cls tag) _ (length t) c t rest h
      ∙ ap (◌++◌ (element_of tag value))
          (replace_on-enough cls tag _ (length t) (length rest) rest (omega arith) (omega arith))

  rest_at-unopened : (t : Text) → lit (opening tag) t ≡ none → rest_at cls tag t ≡ none
  unfolding element
  rest_at-unopened t h = rw h

  -- Nothing is replaced but at a `<`.
  pub replace-plain :
      (c : ℕ) (t : Text)
      → c ≢ 60
      → replace_value cls tag value (c ∷ t) ≡ c ∷ replace_value cls tag value t
  replace-plain c t h =
      replace-none c t (rest_at-unopened (c ∷ t) (lit-angle (tag ++ 62 ∷ []) c t h))

  pub replace-nil : replace_value cls tag value [] ≡ []
  unfolding replace_value replace_on
  replace-nil = refl

  -- A `<` stays in its place.
  replace-angle : (t : Text) → (u : Text) × (replace_value cls tag value (60 ∷ t) ≡ 60 ∷ u)
  replace-angle t = elim (Option-cases (rest_at cls tag (60 ∷ t))) [
    | inl e ↦ (replace_value cls tag value t, replace-none 60 t e)
    | inr (rest, e) ↦ (_, replace-some 60 t rest e)
  ]

  -- A literal without `<` matches after the replacement where it matched before,
  pub lit-replace :
      (q t : Text)
      → NoAngle q
      → lit q (replace_value cls tag value t) ≡ Option.map (replace_value cls tag value) (lit q t)
  unfolding lit
  lit-replace [] t h = refl
  lit-replace (d ∷ q) [] h = rw replace-nil
  lit-replace (d ∷ q) (c ∷ t) h = elim (ℕ_discrete c 60) [
    | yes angle ↦
        let (u, e) = replace-angle t in
        rw angle (
          ap (lit (d ∷ q)) e
          ∙ lit-other d q u h.0
          ∙ sym (ap (Option.map (replace_value cls tag value)) (lit-other d q t h.0)))
    | no other ↦ rw (replace-plain c t other) (elim (Bool-cases (upper d == upper c)) [
      | inl same ↦ rw same (lit-replace q t h.1)
      | inr differ ↦ rw differ
    ])
  ]

  -- and a run of a class without `<` is the same.
  pub run-replace :
      (p : ℕ → Bool) (t : Text)
      → p 60 ≡ false
      → run p (replace_value cls tag value t)
        ≡ ((run p t).0, replace_value cls tag value (run p t).1)
  unfolding run
  run-replace p [] h = rw replace-nil
  run-replace p (c ∷ t) h = elim (ℕ_discrete c 60) [
    | yes angle ↦
        let (u, e) = replace-angle t in
        let stopped = run-stop p t h in
        rw angle (
          ap (run p) e
          ∙ run-stop p u h
          ∙ ap (λ (r : Text). ([], r)) (sym e)
          ∙ ap (λ (r : Text × Text). (r.0, replace_value cls tag value r.1)) (sym stopped))
    | no other ↦ rw (replace-plain c t other) (elim (Bool-cases (p c)) [
      | inl inside ↦ rw inside (ap (λ (r : Text × Text). (c ∷ r.0, r.1)) (run-replace p t h))
      | inr outside ↦ rw outside (ap (λ (r : Text). ([], r)) (sym (replace-plain c t other)))
    ])
  ]
