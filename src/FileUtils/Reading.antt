-- ===== src/FileUtils/Reading.antt =====
-- `read_appended_lines` of agent/utils/file_utils.py: the loop of the lines loses nothing and ends.
use mathlib.Core.List.{append_assoc}
use atm_monitoring_agent.Prelude.{
  ℕ, zero, suc, ◌+◌, ◌≤◌, ◌≡◌, ◌≢◌, ◌⊎◌, inl, inr, Bool, true, false, List, [], ◌∷◌, ◌++◌, length,
  ltb, if◌then◌else◌, ◌==◌, arith, refl, ap, sym, ◌∙◌, Bool-cases, length-append,
}
use atm_monitoring_agent.ParserModels.{Text}
use atm_monitoring_agent.TextOps.{newline}
use atm_monitoring_agent.FileUtils.{utf8, bytes, skip_newline, readline, read_lines, counted}

-- Text mode: the text with its line ends as newlines; `true` behind a carriage return.
abbrev pub universal_from : Bool → Text → Text
universal_from after_return [] = []
universal_from true (c ∷ cs) =
    if c == newline
    then universal_from false cs
    else if c == 13
    then newline ∷ universal_from true cs
    else c ∷ universal_from false cs
universal_from false (c ∷ cs) =
    if c == newline
    then newline ∷ universal_from false cs
    else if c == 13
    then newline ∷ universal_from true cs
    else c ∷ universal_from false cs

abbrev pub universal : Text → Text
universal = universal_from false

abbrev pub concat : List Text → Text
concat [] = []
concat (t ∷ ts) = t ++ concat ts

-- text that was read is not empty
pub universal-not_empty : (x : ℕ) (xs : Text) → universal (x ∷ xs) ≢ []
universal-not_empty x xs = ground arith

skip_newline-universal : (cs : Text) → universal_from true cs ≡ universal (skip_newline cs)
skip_newline-universal [] = refl
skip_newline-universal (c ∷ cs) = ground arith

readline-universal : (t : Text) → universal t ≡ (readline t).0 ++ universal (readline t).1
unfolding readline
readline-universal [] = refl
readline-universal (c ∷ cs) =
    let e = readline-universal cs in let s = skip_newline-universal cs in ground arith

length-readline : (c : ℕ) (cs : Text) → length (readline (c ∷ cs)).1 ≤ length cs
unfolding readline
length-readline c [] = ground arith
length-readline c (d ∷ ds) = let e = length-readline d ds in ground arith

pub size_cons : (c : ℕ) (cs : Text) → length (bytes (c ∷ cs)) ≡ length (utf8 c) + length (bytes cs)
unfolding bytes
size_cons c cs = length-append (utf8 c) (bytes cs)

pub utf8_pos : (c : ℕ) → 1 ≤ length (utf8 c)
unfolding utf8
utf8_pos c = ground arith

size_newline : length (bytes (newline ∷ [])) ≡ 1
unfolding utf8 bytes
size_newline = refl

skip_newline-size : (cs : Text) → length (bytes (skip_newline cs)) ≤ length (bytes cs)
skip_newline-size [] = omega arith
skip_newline-size (c ∷ cs) = let e = size_cons c cs in ground arith

size_empty : length (bytes []) ≡ 0
unfolding bytes
size_empty = refl

readline-size :
    (t : Text) → length (bytes (readline t).0) + length (bytes (readline t).1) ≤ length (bytes t)
unfolding readline
readline-size [] = let z = size_empty in omega arith
readline-size (c ∷ cs) =
    let e = size_cons c cs in
    let p = utf8_pos c in
    let n = size_newline in
    elim (Bool-cases (c == newline)) [
      | inl h ↦ rw (h, readline) (omega arith)
      | inr h ↦
          rw (h, readline)
            (elim (Bool-cases (c == 13)) [
              | inl k ↦ rw (k, readline) (let q = skip_newline-size cs in omega arith)
              | inr k ↦
                  rw (k, readline)
                    (let f = size_cons c (readline cs).0 in let r = readline-size cs in omega arith)
            ])
    ]

-- What the loop gives: the lines hold the text up to what is left, and it ends at the end of the text
-- or when the limit is reached.
pub record IsReading (limit read : ℕ) (t : Text) (lines : List Text) (left : Text) : Type 0 where
  pub taken : Text
  pub taken_lem : t ≡ taken ++ left
  pub concat_lem : concat lines ++ universal left ≡ universal t
  pub size_lem : counted lines + length (bytes left) ≤ length (bytes t)
  pub end_lem : (left ≡ []) ⊎ (limit ≤ read + counted lines)

readline-suffix : (t : Text) → (e : Text) × (t ≡ e ++ (readline t).1)
unfolding readline
readline-suffix [] = ([], refl)
readline-suffix (c ∷ cs) = elim (Bool-cases (c == newline)) [
  | inl h ↦ rw (h, readline) (c ∷ [], refl)
  | inr h ↦
      rw (h, readline)
        (elim (Bool-cases (c == 13)) [
          | inl k ↦ rw (k, readline) (return_suffix c cs)
          | inr k ↦ rw (k, readline) (let (e, p) = readline-suffix cs in (c ∷ e, ap (λ x. c ∷ x) p))
        ])
]
  where
    return_suffix : (c : ℕ) (cs : Text) → (e : Text) × (c ∷ cs ≡ e ++ skip_newline cs)
    return_suffix c [] = (c ∷ [], refl)
    return_suffix c (d ∷ ds) = elim (Bool-cases (d == newline)) [
      | inl h ↦ rw h (c ∷ d ∷ [], refl)
      | inr h ↦ rw h (c ∷ [], refl)
    ]

pub read_lines-IsReading :
    (fuel limit read : ℕ) (t : Text)
    → length t ≤ fuel
    → IsReading limit read t (read_lines fuel limit read t).0 (read_lines fuel limit read t).1
unfolding read_lines
read_lines-IsReading zero limit read [] h = record {
  taken = [];
  taken_lem = refl;
  concat_lem = refl;
  size_lem = omega arith;
  end_lem = inl refl;
}
read_lines-IsReading zero limit read (c ∷ cs) h = absurd (omega arith)
read_lines-IsReading (suc fuel) limit read [] h = record {
  taken = [];
  taken_lem = refl;
  concat_lem = refl;
  size_lem = omega arith;
  end_lem = inl refl;
}
read_lines-IsReading (suc fuel) limit read (c ∷ cs) h = elim (Bool-cases (ltb read limit)) [
  | inl b ↦
      rw (b, read_lines)
        (let (line, rest) = readline (c ∷ cs) in
          let shorter = length-readline c cs in
          let next =
            read_lines-IsReading fuel limit (read + length (bytes line)) rest (omega arith) in
          let (e, p) = readline-suffix (c ∷ cs) in
          record {
            taken = e ++ next.taken;
            taken_lem = p ∙ ap (λ x. e ++ x) next.taken_lem ∙ sym (append_assoc e next.taken _);
            concat_lem =
                append_assoc line _ _
                ∙ ap (λ x. line ++ x) next.concat_lem
                ∙ sym (readline-universal (c ∷ cs));
            end_lem = elim next.end_lem [ inl z ↦ inl z | inr z ↦ inr (omega arith) ];
            size_lem = let z = readline-size (c ∷ cs) in let y = next.size_lem in omega arith;
          })
  | inr b ↦
      rw (b, read_lines)
        (record {
          taken = [];
          taken_lem = refl;
          concat_lem = refl;
          size_lem = omega arith;
          end_lem = inr (ground (arith, b));
        })
]
