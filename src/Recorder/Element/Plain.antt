-- ===== src/Recorder/Element/Plain.antt =====
-- services/hikvision_service.py: a replacement without a backslash stands for itself.
use atm_monitoring_agent.Prelude.{
  ℕ, zero, suc, ◌≡◌, refl, ap, Bool, Option, some, inl, inr, [], ◌∷◌, ◌++◌, map, length, take,
  All-append, ◌-◌, Option-cases,
}
use atm_monitoring_agent.ParserModels.{Text}
use atm_monitoring_agent.TextOps.Template.{
  literal, template, template_on_plain, fill_plain, sub_on, IsPlain,
}
use atm_monitoring_agent.Recorder.Element.{
  opening, closing, rest_at, element_of, replace_on, replace_value, sub_value,
}

sub_on-replace_on :
    (m : Text → Option Text) (new : Text) (f : ℕ) (t : Text)
    → sub_on m (map literal new) f t ≡ replace_on m new f t
unfolding sub_on replace_on
sub_on-replace_on m new zero t = refl
sub_on-replace_on m new (suc f) [] = refl
sub_on-replace_on m new (suc f) (c ∷ cs) = elim (Option-cases (m (c ∷ cs))) [
  | inl missed ↦ rw (missed, sub_on, replace_on) (ap (◌∷◌ c) (sub_on-replace_on m new f cs))
  | inr (rest, found) ↦
      rw (found, sub_on, replace_on, fill_plain new (take (length (c ∷ cs) - length rest) (c ∷ cs)))
        (ap (◌++◌ new) (sub_on-replace_on m new f rest))
]

element_of-IsPlain :
    (tag value : Text) → IsPlain tag → IsPlain value → IsPlain (element_of tag value)
element_of-IsPlain tag value h k =
    let ending : IsPlain (tag ++ 62 ∷ []) = All-append _ tag (62 ∷ []) h ((λ e. cc), tt) in
    All-append _ (opening tag) (value ++ closing tag) ((λ e. cc), ending)
      (All-append _ value (closing tag) k ((λ e. cc), ((λ e. cc), ending)))

pub sub_value-replace_value :
    (p : ℕ → Bool) (tag value t : Text)
    → IsPlain tag
    → IsPlain value
    → sub_value p tag value t ≡ some (replace_value p tag value t)
unfolding sub_value template replace_value
sub_value-replace_value p tag value t h k =
    rw
      (template_on_plain (length (element_of tag value)) (element_of tag value) refl
        (element_of-IsPlain tag value h k))
      (ap some (sub_on-replace_on (rest_at p tag) (element_of tag value) (length t) t))
