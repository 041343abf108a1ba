-- ===== src/Recorder/Element/Matching.antt =====
-- services/hikvision_service.py: where a literal, a run and an element can match.
use atm_monitoring_agent.Prelude.{
  ℕ, ◌+◌, ◌≤◌, ◌≡◌, ap, refl, Bool, true, false, Option, none, some, [], ◌∷◌, ◌++◌, ◌==◌,
  if◌then◌else◌, length, All, get_or, ◌∙◌, sym, Bool-cases, Option-cases, ==_iff, arith, ◌≢◌, inl,
  inr,
}
use mathlib.Core.List.{append_assoc}
use atm_monitoring_agent.ParserModels.{Text}
use atm_monitoring_agent.TextOps.{upper}
use atm_monitoring_agent.TextOps.Pattern.{◌>>=◌, lit, run, run1, nonempty, search_for}
use atm_monitoring_agent.Recorder.Element.{element, element_of, opening, closing}

-- Two literals differ at a place that both have.
abbrev pub clash : Text → Text → Bool
clash [] q = false
clash (c ∷ p) [] = false
clash (c ∷ p) (d ∷ q) = if upper c == upper d then clash p q else true

-- No character of the text is a `<`.
abbrev pub NoAngle : Text → Type 0
NoAngle = All (λ c. c ≢ 60)

pub upper-angle : (c : ℕ) → upper c ≡ 60 → c ≡ 60
unfolding upper
upper-angle c h = ground arith

pub lit-append : (p x : Text) → lit p (p ++ x) ≡ some x
unfolding lit
lit-append [] x = refl
lit-append (c ∷ p) x = ground (arith, lit-append p x)

pub lit-clash : (p q t r : Text) → clash p q ≡ true → lit p t ≡ some r → lit q t ≡ none
unfolding lit
lit-clash [] q t r k h = cc
lit-clash (c ∷ p) [] t r k h = cc
lit-clash (c ∷ p) (d ∷ q) [] r k h = refl
lit-clash (c ∷ p) (d ∷ q) (e ∷ t) r k h = ground (arith, lit-clash p q t r)

pub length-lit : (p t r : Text) → lit p t ≡ some r → length p + length r ≡ length t
unfolding lit
length-lit [] t r h = omega (arith, ap (λ (o : Option Text). length (get_or o t)) h)
length-lit (c ∷ p) [] r h = cc
length-lit (c ∷ p) (d ∷ t) r h = ground (arith, length-lit p t r)

-- A literal that begins with `<` matches only at a `<`.
pub lit-angle : (p : Text) (c : ℕ) (cs : Text) → c ≢ 60 → lit (60 ∷ p) (c ∷ cs) ≡ none
unfolding lit
lit-angle p c cs h = ground (arith, upper-angle c)

pub length-run : (p : ℕ → Bool) (t : Text) → length (run p t).1 ≤ length t
unfolding run
length-run p [] = omega arith
length-run p (c ∷ t) = ground (arith, length-run p t)

-- A literal that does not begin with `<` does not match there.
pub lit-other : (d : ℕ) (q t : Text) → d ≢ 60 → lit (d ∷ q) (60 ∷ t) ≡ none
unfolding lit
lit-other d q t h = ground (arith, upper-angle d)

pub run-stop : (p : ℕ → Bool) (t : Text) → p 60 ≡ false → run p (60 ∷ t) ≡ ([], 60 ∷ t)
unfolding run
run-stop p t h = rw h

pub lit-cons :
    (c d : ℕ) (p t r : Text)
    → lit (c ∷ p) (d ∷ t) ≡ some r
    → (upper c ≡ upper d) × (lit p t ≡ some r)
unfolding lit
lit-cons c d p t r h = elim (Bool-cases (upper c == upper d)) [
  | inl same ↦ ((==_iff _ _).0 same, rw same at h)
  | inr differ ↦ cc (rw differ at h)
]

pub search_for-none {ℓ} :
    {A : Type ℓ} (m : Text → Option A) (c : ℕ) (cs : Text)
    → m (c ∷ cs) ≡ none
    → search_for m (c ∷ cs) ≡ search_for m cs
unfolding search_for
search_for-none m c cs h = rw (h, search_for)

pub search_for-some {ℓ} :
    {A : Type ℓ} (m : Text → Option A) (c : ℕ) (cs : Text) (a : A)
    → m (c ∷ cs) ≡ some a
    → search_for m (c ∷ cs) ≡ some a
unfolding search_for
search_for-some m c cs a h = rw (h, search_for)

-- A search depends on the match at the first position and on the search behind it.
pub search_for-cong {ℓ} :
    {A : Type ℓ} (m : Text → Option A) (c : ℕ) (t u : Text)
    → m (c ∷ t) ≡ m (c ∷ u)
    → search_for m t ≡ search_for m u
    → search_for m (c ∷ t) ≡ search_for m (c ∷ u)
search_for-cong m c t u h k = elim (Option-cases (m (c ∷ u))) [
  | inl e ↦ search_for-none m c t (h ∙ e) ∙ k ∙ sym (search_for-none m c u e)
  | inr (a, e) ↦ search_for-some m c t a (h ∙ e) ∙ sym (search_for-some m c u a e)
]

-- A run ends before a character outside of its class.
pub run-append :
    (p : ℕ → Bool) (v : Text) (c : ℕ) (x : Text)
    → All (λ d. p d ≡ true) v
    → p c ≡ false
    → run p (v ++ c ∷ x) ≡ (v, c ∷ x)
unfolding run
run-append p [] c x h k = ground arith
run-append p (d ∷ v) c x h k = ground (arith, run-append p v c x h.1 k)

-- What a match of an element consists of.
pub record Match (p : ℕ → Bool) (tag t value rest : Text) : Type 0 where
  pub inner : Text
  pub behind : Text
  pub opening_lem : lit (opening tag) t ≡ some inner
  pub value_lem : run p inner ≡ (value, behind)
  pub closing_lem : lit (closing tag) behind ≡ some rest

>>=-eq-some {ℓ κ} :
    {A : Type ℓ} {B : Type κ} (m : Option A) (f : A → Option B) (b : B)
    → (m >>= f) ≡ some b
    → (a : A) × (m ≡ some a) × (f a ≡ some b)
>>=-eq-some none f b h = cc
>>=-eq-some (some a) f b h = (a, refl, h)

nonempty-eq_some : (r s : Text × Text) → nonempty r ≡ some s → r ≡ s
nonempty-eq_some ([], rest) s h = cc
nonempty-eq_some (c ∷ r, rest) s h = cc

pub element-Match :
    (p : ℕ → Bool) (tag t value rest : Text)
    → element p tag t ≡ some (value, rest)
    → Match p tag t value rest
unfolding element run1
element-Match p tag t value rest h =
    let (inner, opened, h₁) = >>=-eq-some (lit (opening tag) t) _ (value, rest) h in
    let (found, ran, h₂) = >>=-eq-some (nonempty (run p inner)) _ (value, rest) h₁ in
    let (after, closed, h₃) = >>=-eq-some (lit (closing tag) found.1) _ (value, rest) h₂ in
    record {
      inner = inner;
      behind = found.1;
      opening_lem = opened;
      value_lem = nonempty-eq_some _ _ ran ∙ ap (λ (v : Text). (v, found.1)) (cc);
      closing_lem = closed ∙ cc;
    }

pub element_of-append :
    (tag value x : Text) → element_of tag value ++ x ≡ opening tag ++ (value ++ (closing tag ++ x))
element_of-append tag value x = simp append_assoc
