-- ===== src/FileUtils/Growth.antt =====
-- `read_appended_lines` of agent/utils/file_utils.py on a file that has grown.
use mathlib.Core.List.{append_assoc, append-nil}
use atm_monitoring_agent.Prelude.{
  ℕ, zero, suc, ◌+◌, ◌-◌, ◌≤◌, ◌<◌, ◌≡◌, ◌⊎◌, inl, inr, Bool, false, List, [], ◌∷◌, ◌++◌, length,
  ltb, leb, take, arith, refl, ap, sym, ◌∙◌, Bool-cases, length-append,
}
use atm_monitoring_agent.ParserModels.{Text}
use atm_monitoring_agent.FileUtils.{
  utf8, bytes, seek, read_lines, read_from, max_bytes, counted, tell, read_attempts,
  read_appended_lines,
}
use atm_monitoring_agent.FileUtils.Reading.{
  universal, concat, read_lines-IsReading, utf8_pos, size_cons,
}

pub bytes-append : (s t : Text) → bytes (s ++ t) ≡ bytes s ++ bytes t
unfolding bytes
bytes-append [] t = refl
bytes-append (c ∷ s) t =
    ap (λ x. utf8 c ++ x) (bytes-append s t) ∙ sym (append_assoc (utf8 c) (bytes s) (bytes t))

pub size-append : (s t : Text) → length (bytes (s ++ t)) ≡ length (bytes s) + length (bytes t)
size-append s t = rw (bytes-append s t) (length-append (bytes s) (bytes t))

seek_cons : (n c : ℕ) (cs : Text) → seek (length (utf8 c) + n) (c ∷ cs) ≡ seek n cs
unfolding seek
seek_cons n c cs =
    let p = utf8_pos c in
    let e : length (utf8 c) + n ≡ suc (length (utf8 c) + n - 1) = omega arith in
    let f : suc (length (utf8 c) + n - 1) - length (utf8 c) ≡ n = omega arith in
    rw e (ap (λ x. seek x cs) f)

pub seek-append : (s t : Text) → seek (length (bytes s)) (s ++ t) ≡ t
unfolding seek bytes
seek-append [] t = refl
seek-append (c ∷ s) t =
    rw (size_cons c s) (seek_cons (length (bytes s)) c (s ++ t) ∙ seek-append s t)

take-append : (xs ys : Text) → take (length (xs ++ ys) - length ys) (xs ++ ys) ≡ xs
take-append xs ys =
    let e = length-append xs ys in
    ap (λ (n : ℕ). take n (xs ++ ys)) (omega arith) ∙ take_length xs ys
  where
    take_length : (xs ys : Text) → take (length xs) (xs ++ ys) ≡ xs
    take_length [] ys = refl
    take_length (x ∷ xs) ys = ap (◌∷◌ x) (take_length xs ys)

-- What reading the file `c ++ d` from behind `c` gives: the lines hold the text that was taken, the new
-- offset is what `tell` says behind it, and nothing is left unless the limit was reached.
pub record IsRead (behind : Bool) (c d : Text) (lines : List Text) (offset : ℕ) : Type 0 where
  pub taken : Text
  pub left : Text
  pub split_lem : d ≡ taken ++ left
  pub offset_lem :
      offset ≡ tell behind (leb max_bytes (counted lines)) (length (bytes (c ++ taken))) taken left
  pub concat_lem : concat lines ++ universal left ≡ universal d
  pub end_lem : (left ≡ []) ⊎ (max_bytes ≤ counted lines)
  pub counted_lem : counted lines ≤ length (bytes d)

pub read_from-grown :
    (behind : Bool) (c d : Text)
    → let (lines, offset, _) = read_from behind (c ++ d) (length (bytes c)) in
      IsRead behind c d lines offset
unfolding read_from
read_from-grown behind c d =
    let (lines, left) = read_lines (length d) max_bytes 0 d in
    let r = read_lines-IsReading (length d) max_bytes 0 d (omega arith) in
    let e = size-append c d in
    let shut : ltb (length (bytes (c ++ d))) (length (bytes c)) ≡ false = ground (arith, e) in
    rw (shut, seek-append c d)
      (record {
        taken = r.taken;
        left = left;
        split_lem = r.taken_lem;
        offset_lem =
            (let f = size-append c r.taken in
              let g = size-append r.taken left in
              let h = ap (λ x. length (bytes x)) r.taken_lem in
              let at_limit = leb max_bytes (counted lines) in
              let place : length (bytes c) + (length (bytes d) - length (bytes left))
                  ≡ length (bytes (c ++ r.taken)) =
                omega arith in
              let same : take (length d - length left) d ≡ r.taken =
                ap (λ (x : Text). take (length x - length left) x) r.taken_lem
                ∙ take-append r.taken left in
              ap (λ (n : ℕ). tell behind at_limit n (take (length d - length left) d) left) place
              ∙ ap (λ (x : Text). tell behind at_limit (length (bytes (c ++ r.taken))) x left)
                  same);
        concat_lem = r.concat_lem;
        end_lem = elim r.end_lem [ inl z ↦ inl z | inr z ↦ inr (omega arith) ];
        counted_lem = let z = r.size_lem in omega arith;
      })

pub read_attempts-opens :
    (n i k : ℕ) (locked : ℕ → Bool) (behind : Bool) (content : Text) (offset : ℕ)
    → k < n
    → locked (i + k) ≡ false
    → read_attempts n i locked behind content offset ≡ read_from behind content offset
read_attempts-opens zero i k locked behind content offset h o = absurd (omega arith)
read_attempts-opens (suc n) i zero locked behind content offset h o =
    let e : locked i ≡ false = ap locked (omega arith) ∙ o in rw e refl
read_attempts-opens (suc n) i (suc k) locked behind content offset h o =
    elim (Bool-cases (locked i)) [
      | inr f ↦ rw f refl
      | inl f ↦ rw f (
          read_attempts-opens n (i + 1) k locked behind content offset (omega arith)
            (ap locked (omega arith) ∙ o))
    ]

-- A file that was read up to its end has grown, and one of the five attempts opens it: what is read
-- are the appended bytes and nothing else. The lines hold the appended text, line ends made newlines,
-- up to the end of the file or to a place where 10 MiB of lines are read, and the new offset is the
-- position of that place, or, if the limit is reached, a cookie of the decoder right behind a carriage
-- return that no newline follows, and perhaps before a carriage return.
pub read_appended_lines-IsRead :
    (locked : ℕ → Bool) (behind : Bool) (c d : Text) (k : ℕ)
    → k < 5
    → locked k ≡ false
    → let (lines, offset, _) = read_appended_lines locked behind (c ++ d) (length (bytes c)) in
      IsRead behind c d lines offset
unfolding read_appended_lines
read_appended_lines-IsRead locked behind c d k h o =
    rw
      (read_attempts-opens 5 0 k locked behind (c ++ d) (length (bytes c)) h
        (ap locked (omega arith) ∙ o))
      (read_from-grown behind c d)

whole_of_IsRead :
    (behind : Bool) (c d : Text) (lines : List Text) (offset : ℕ)
    → IsRead behind c d lines offset
    → length (bytes d) < max_bytes
    → (concat lines ≡ universal d) × (offset ≡ length (bytes (c ++ d)))
whole_of_IsRead behind c d lines offset r small = elim r.end_lem [
  | inr m ↦ let z = r.counted_lem in absurd (omega arith)
  | inl e ↦
      let f : r.taken ≡ d = sym (r.split_lem ∙ ap (λ x. r.taken ++ x) e ∙ append-nil r.taken) in
      (
        sym (append-nil (concat lines))
            ∙ ap (λ x. concat lines ++ universal x) (sym e)
            ∙ r.concat_lem,
        (let below : leb max_bytes (counted lines) ≡ false =
              (let z = r.counted_lem in ground arith) in
            r.offset_lem
            ∙ ap (λ (b : Bool). tell behind b (length (bytes (c ++ r.taken))) r.taken r.left) below
            ∙ ap (λ x. length (bytes (c ++ x))) f),
      )
]

-- Less than 10 MiB were appended: one reading, of whose attempts one opens the file, takes all of it
-- and ends at the end of the file, so that the next reading continues there.
pub read_appended_lines-whole :
    (locked : ℕ → Bool) (behind : Bool) (c d : Text) (k : ℕ)
    → k < 5
    → locked k ≡ false
    → length (bytes d) < max_bytes
    → let (lines, offset, _) = read_appended_lines locked behind (c ++ d) (length (bytes c)) in
      (concat lines ≡ universal d) × (offset ≡ length (bytes (c ++ d)))
read_appended_lines-whole locked behind c d k h o small =
    whole_of_IsRead behind c d _ _ (read_appended_lines-IsRead locked behind c d k h o) small
