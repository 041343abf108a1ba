-- ===== src/TextOps/Template.antt =====
-- The replacement of `re.sub`, as Python's `re` reads it for a pattern without groups: a backslash
-- begins an escape, which stands for a character, or `\g<0>` for the whole match, or is an error.
use atm_monitoring_agent.Prelude.{
  ℕ, zero, suc, ◌+◌, ◌-◌, ◌*◌, ◌≡◌, ◌≢◌, refl, ap, Bool, false, not, ◌&&◌, ◌||◌, Option, none, some,
  List, [], ◌∷◌, ◌++◌, ◌==◌, leb, if◌then◌else◌, length, take, All, any, map, arith,
}
use atm_monitoring_agent.ParserModels.{Text}
use atm_monitoring_agent.TextOps.{is_digit, int, within}
use atm_monitoring_agent.TextOps.Pattern.{◌>>=◌, run, char}

pub data Piece : Type 0 where
  literal : ℕ → Piece
  whole_match : Piece

abbrev is_octal : ℕ → Bool
is_octal c = within 48 55 c

abbrev is_letter : ℕ → Bool
is_letter c = within 65 90 c || within 97 122 c

abbrev chr : ℕ → Text → Option (List Piece × Text)
chr c rest = some (literal c ∷ [], rest)

-- `\g<name>`: the only name of a pattern without groups is 0.
abbrev named : Text × Text → Option (List Piece × Text)
named (name, rest) = do
  after ← char 62 rest
  if not (length name == 0) && (not (any (λ c. not (is_digit c)) name) && int name == 0)
      then some (whole_match ∷ [], after)
      else none

unfoldable pub group_at : Text → Option (List Piece × Text)
group_at t = do inner ← char 60 t; named (run (λ c. not (c == 62)) inner)

-- `\0`, with up to two more octal digits
abbrev zero_at : Text → Option (List Piece × Text)
zero_at [] = chr 0 []
zero_at (c ∷ []) = if is_octal c then chr (c - 48) [] else chr 0 (c ∷ [])
zero_at (c ∷ d ∷ cs) =
    if is_octal c
    then if is_octal d then chr ((c - 48) * 8 + (d - 48)) cs else chr (c - 48) (d ∷ cs)
    else chr 0 (c ∷ d ∷ cs)

-- Three octal digits are a character up to 255; all else is a group that is not there.
abbrev number_at : ℕ → Text → Option (List Piece × Text)
number_at c [] = none
number_at c (d ∷ []) = none
number_at c (d ∷ e ∷ cs) =
    let value = (c - 48) * 64 + (d - 48) * 8 + (e - 48) in
    if is_octal c && (is_octal d && (is_octal e && leb value 255)) then chr value cs else none

-- `\n` and the like; another letter is an error, and all else keeps its backslash.
abbrev simple_at : ℕ → Text → Option (List Piece × Text)
simple_at c cs =
    if c == 97
    then chr 7 cs
    else if c == 98
    then chr 8 cs
    else if c == 102
    then chr 12 cs
    else if c == 110
    then chr 10 cs
    else if c == 114
    then chr 13 cs
    else if c == 116
    then chr 9 cs
    else if c == 118
    then chr 11 cs
    else if c == 92
    then chr 92 cs
    else if is_letter c
    then none
    else some (literal 92 ∷ literal c ∷ [], cs)

-- What stands behind a backslash.
unfoldable pub escape_at : Text → Option (List Piece × Text)
unfolding group_at
escape_at [] = none
escape_at (c ∷ cs) =
    if c == 103
    then group_at cs
    else if c == 48
    then zero_at cs
    else if is_digit c
    then number_at c cs
    else simple_at c cs

-- On the fuel of the length of the text, as each round takes a character or more.
unfoldable pub template_on : ℕ → Text → Option (List Piece)
template_on zero t = some []
template_on (suc f) [] = some []
template_on (suc f) (c ∷ cs) =
    let next = template_on f cs in
    let escaped = (do found ← escape_at cs; more ← template_on f found.1; some (found.0 ++ more)) in
    if c == 92 then escaped else (do more ← next; some (literal c ∷ more))

unfoldable pub template : Text → Option (List Piece)
unfolding template_on escape_at
template t = template_on (length t) t

-- A replacement for the match.
unfoldable pub fill : List Piece → Text → Text
fill [] matched = []
fill (literal c ∷ pieces) matched = c ∷ fill pieces matched
fill (whole_match ∷ pieces) matched = matched ++ fill pieces matched

-- `re.sub` for a function that gives what is behind a match
unfoldable pub sub_on : (Text → Option Text) → List Piece → ℕ → Text → Text
unfolding fill
sub_on m pieces zero t = t
sub_on m pieces (suc f) [] = []
sub_on m pieces (suc f) (c ∷ cs) = elim (m (c ∷ cs)) [
  | some rest ↦
      fill pieces (take (length (c ∷ cs) - length rest) (c ∷ cs)) ++ sub_on m pieces f rest
  | none ↦ c ∷ sub_on m pieces f cs
]

-- No character is a backslash.
abbrev pub IsPlain : Text → Type 0
IsPlain = All (λ c. c ≢ 92)

pub template_on_plain :
    (f : ℕ) (t : Text) → length t ≡ f → IsPlain t → template_on f t ≡ some (map literal t)
unfolding template_on
template_on_plain zero [] e h = refl
template_on_plain zero (c ∷ t) e h = absurd (omega arith)
template_on_plain (suc f) [] e h = refl
template_on_plain (suc f) (c ∷ t) e h =
    let rest = template_on_plain f t (omega arith) h.1 in
    let other : (c == 92) ≡ false = (let k = h.0 in ground arith) in rw (other, rest) refl

pub fill_plain : (t matched : Text) → fill (map literal t) matched ≡ t
unfolding fill
fill_plain [] matched = refl
fill_plain (c ∷ t) matched = ap (◌∷◌ c) (fill_plain t matched)
