-- ===== src/TextOps.antt =====
-- The functions on `str` and the pieces of regular expressions that the parsers under agent/parsers
-- use, over lists of code points. Case folding, digits and word characters are those of ASCII: a
-- code point above 127 is no letter and no digit here. White space is Python's, in full.
pub mod Pattern
pub mod Decimal
pub mod Template
use Prim.Native.Char.{code}
use atm_monitoring_agent.Prelude.{
  ℕ, ◌+◌, ◌-◌, ◌*◌, Bool, true, false, not, ◌&&◌, ◌||◌, String, Option, none, some, List, [], ◌∷◌,
  ◌++◌, leb, ◌==◌, if◌then◌else◌, arith, ◌≡◌, refl,
}
use mathlib.Core.List.{reverse}
use atm_monitoring_agent.ParserModels.{Text}

-- The code points of a literal.
abbrev pub text : String → Text
text String.[] = []
text (String.◌∷◌ c s) = code c ∷ text s

abbrev pub newline : ℕ
newline = 10

abbrev pub within : ℕ → ℕ → ℕ → Bool
within lo hi c = leb lo c && leb c hi

-- `str.isspace`, and `\s` in a pattern
unfoldable pub is_space : ℕ → Bool
is_space c =
    within 9 13 c
    || within 28 32 c
    || c == 0x85
    || c == 0xa0
    || c == 0x1680
    || within 0x2000 0x200a c
    || within 0x2028 0x2029 c
    || c == 0x202f
    || c == 0x205f
    || c == 0x3000

unfoldable pub is_digit : ℕ → Bool
is_digit c = within 48 57 c

-- `str.upper` on one character; with IGNORECASE two characters match if their upper cases agree
unfoldable pub upper : ℕ → ℕ
upper c = if within 97 122 c then c - 32 else c

-- `\w`
unfoldable pub is_word : ℕ → Bool
unfolding is_digit
is_word c = is_digit c || within 65 90 c || within 97 122 c || c == 95

-- `\d+` read by `int`
pub number_from : ℕ → Text → ℕ
number_from n [] = n
number_from n (c ∷ cs) = number_from (n * 10 + (c - 48)) cs

unfoldable pub int : Text → ℕ
unfolding number_from
int = number_from 0

unfoldable pub uppercase : Text → Text
unfolding upper
uppercase [] = []
uppercase (c ∷ cs) = upper c ∷ uppercase cs

unfoldable pub lstrip : (ℕ → Bool) → Text → Text
lstrip p [] = []
lstrip p (c ∷ cs) = let rest = lstrip p cs in if p c then rest else c ∷ cs

abbrev keep_unless : (ℕ → Bool) → ℕ → Text → Text
keep_unless p c [] = if p c then [] else c ∷ []
keep_unless p c (d ∷ ds) = c ∷ d ∷ ds

-- drops the last characters that satisfy `p`
unfoldable pub rstrip : (ℕ → Bool) → Text → Text
rstrip p [] = []
rstrip p (c ∷ cs) = keep_unless p c (rstrip p cs)

-- `s.strip()`
unfoldable pub strip : Text → Text
unfolding lstrip rstrip is_space
strip s = rstrip is_space (lstrip is_space s)

-- whether the text begins with the literal; the characters are compared after `f`
unfoldable pub begins : (ℕ → ℕ) → Text → Text → Bool
begins f [] t = true
begins f (p ∷ ps) [] = false
begins f (p ∷ ps) (c ∷ cs) = f p == f c && begins f ps cs

-- `==` on strings
unfoldable pub text_eq : Text → Text → Bool
text_eq [] [] = true
text_eq [] (d ∷ ds) = false
text_eq (c ∷ cs) [] = false
text_eq (c ∷ cs) (d ∷ ds) = c == d && text_eq cs ds

pub text_eq-eq : (s t : Text) → text_eq s t ≡ true → s ≡ t
unfolding text_eq
text_eq-eq [] [] h = refl
text_eq-eq [] (d ∷ ds) h = ground arith
text_eq-eq (c ∷ cs) [] h = ground arith
text_eq-eq (c ∷ cs) (d ∷ ds) h = ground (arith, text_eq-eq cs ds)

pub text_eq_refl : (s : Text) → text_eq s s ≡ true
unfolding text_eq
text_eq_refl [] = refl
text_eq_refl (c ∷ cs) = ground (arith, text_eq_refl cs)

abbrev same : ℕ → ℕ
same c = c

-- `str.endswith`
unfoldable pub ends_with : Text → Text → Bool
unfolding begins
ends_with suffix t = begins same (reverse suffix) (reverse t)

-- `needle in s`
unfoldable pub contains : Text → Text → Bool
unfolding begins
contains needle [] = begins same needle []
contains needle (c ∷ cs) = begins same needle (c ∷ cs) || contains needle cs

-- A search with IGNORECASE for a literal.
unfoldable pub contains_any_case : Text → Text → Bool
unfolding begins upper
contains_any_case needle [] = begins upper needle []
contains_any_case needle (c ∷ cs) = begins upper needle (c ∷ cs) || contains_any_case needle cs

abbrev join_after : ℕ → Text → Text → List Text → Text
join_after sep done t [] = done ++ t
join_after sep done t (u ∷ us) = join_after sep (done ++ (t ++ sep ∷ [])) u us

-- `sep.join(parts)` for a separator of one character
unfoldable pub join : ℕ → List Text → Text
join sep [] = []
join sep (t ∷ ts) = join_after sep [] t ts

after_newlines : Text → List Text
after_newlines [] = []
after_newlines (c ∷ cs) = let rest = after_newlines cs in if c == newline then cs ∷ rest else rest

-- The suffixes at which `^` matches with MULTILINE: the text and what follows each newline.
unfoldable pub line_starts : Text → List Text
unfolding after_newlines
line_starts t = t ∷ after_newlines t

abbrev end_word : Text → List Text → List Text
end_word [] words = words
end_word (c ∷ cs) words = (c ∷ cs) ∷ words

-- `str.split()`: the runs without white space; `word` is the run that is being read
split_from : Text → Text → List Text
split_from word [] = end_word word []
split_from word (c ∷ cs) = elim (is_space c) [
  | true ↦ end_word word (split_from [] cs)
  | false ↦ split_from (word ++ c ∷ []) cs
]

unfoldable pub split : Text → List Text
unfolding split_from is_space
split = split_from []
