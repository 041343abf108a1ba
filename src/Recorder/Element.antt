-- ===== src/Recorder/Element.antt =====
-- The elements of the XML of a recorder, as services/hikvision_service.py reads and changes them: by
-- `re.search(r'<tag>(…)</tag>', xml, re.IGNORECASE)` and `re.sub` with the same pattern, whose group
-- is `\d+` or `[^<]+`. The replacement of `re.sub` is read as a
-- template, in which a backslash begins an escape.
pub mod Matching
pub mod Skipping
pub mod Replacing
pub mod Keeping
pub mod Plain
use atm_monitoring_agent.Prelude.{
  ℕ, zero, suc, Bool, true, false, not, Option, none, some, List, [], ◌∷◌, ◌++◌, ◌==◌, length,
  is_some,
}
use atm_monitoring_agent.ParserModels.{Text}
use atm_monitoring_agent.TextOps.Template.{template, sub_on}
use atm_monitoring_agent.TextOps.Pattern.{◌>>=◌, lit, run1, search_for}

-- `<tag>` and `</tag>`
abbrev pub opening : Text → Text
opening tag = 60 ∷ (tag ++ 62 ∷ [])

abbrev pub closing : Text → Text
closing tag = 60 ∷ 47 ∷ (tag ++ 62 ∷ [])

-- `[^<]`
abbrev pub not_angle : ℕ → Bool
not_angle c = not (c == 60)

-- The pattern at the beginning of a text: the group, and the text behind the match.
unfoldable pub element : (ℕ → Bool) → Text → Text → Option (Text × Text)
element p tag t = do
  inner ← lit (opening tag) t
  (value, rest) ← run1 p inner
  after ← lit (closing tag) rest
  some (value, after)

abbrev pub value_at : (ℕ → Bool) → Text → Text → Option Text
value_at p tag t = do found ← element p tag t; some found.0

abbrev pub rest_at : (ℕ → Bool) → Text → Text → Option Text
rest_at p tag t = do found ← element p tag t; some found.1

-- `re.search`, and the group of its match
unfoldable pub find_value : (ℕ → Bool) → Text → Text → Option Text
find_value p tag = search_for (value_at p tag)

-- `f'<tag>{value}</tag>'`
abbrev pub element_of : Text → Text → Text
element_of tag value = opening tag ++ (value ++ closing tag)

-- Each match replaced by a text, on the fuel of the length of the text, as a match takes a character or
-- more.
unfoldable pub replace_on : (Text → Option Text) → Text → ℕ → Text → Text
replace_on m new zero t = t
replace_on m new (suc f) [] = []
replace_on m new (suc f) (c ∷ cs) = elim (m (c ∷ cs)) [
  | some rest ↦ new ++ replace_on m new f rest
  | none ↦ c ∷ replace_on m new f cs
]

unfoldable pub replace_value : (ℕ → Bool) → Text → Text → Text → Text
replace_value p tag value t = replace_on (rest_at p tag) (element_of tag value) (length t) t

-- `re.sub(r'<tag>…</tag>', f'<tag>{value}</tag>', t)`; none if the replacement is no template.
unfoldable pub sub_value : (ℕ → Bool) → Text → Text → Text → Option Text
unfolding template sub_on
sub_value p tag value t = do
  pieces ← template (element_of tag value)
  some (sub_on (rest_at p tag) pieces (length t) t)
