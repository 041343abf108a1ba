-- ===== src/TextOps/Decimal.antt =====
-- A number in an f-string of services/hikvision_service.py, and `int` on what was written.
use atm_monitoring_agent.Prelude.{
  ℕ, zero, suc, ◌+◌, ◌-◌, ◌*◌, ◌/◌, ◌%◌, ◌<◌, ◌≡◌, ◌≢◌, refl, inl, inr, true, [], ◌∷◌, ◌++◌, All,
  All-append, ltb, if◌then◌else◌, Bool-cases, ltb→lt, arith,
}
use atm_monitoring_agent.ParserModels.{Text}
use atm_monitoring_agent.TextOps.{is_digit, int, number_from}

-- The digits, on fuel that is above the number.
unfoldable pub decimal_on : ℕ → ℕ → Text
decimal_on zero n = []
decimal_on (suc f) n =
    let more = decimal_on f (n / 10) in
    if ltb n 10 then (48 + n) ∷ [] else more ++ (48 + n % 10) ∷ []

unfoldable pub decimal : ℕ → Text
unfolding decimal_on
decimal n = decimal_on (suc n) n

number_from-append :
    (a : ℕ) (xs : Text) (c : ℕ) → number_from a (xs ++ c ∷ []) ≡ number_from a xs * 10 + (c - 48)
unfolding number_from
number_from-append a [] c = refl
number_from-append a (d ∷ xs) c = number_from-append (a * 10 + (d - 48)) xs c

int-decimal_on : (f n : ℕ) → n < f → number_from 0 (decimal_on f n) ≡ n
unfolding decimal_on number_from
int-decimal_on zero n h = absurd (omega arith)
int-decimal_on (suc f) n h =
    ground
      (arith, int-decimal_on f (n / 10), number_from-append 0 (decimal_on f (n / 10)) (48 + n % 10))

-- What is written is read back.
pub int-decimal : (n : ℕ) → int (decimal n) ≡ n
unfolding int decimal
int-decimal n = int-decimal_on (suc n) n (omega arith)

snoc-ne-nil : (xs : Text) (c : ℕ) → xs ++ c ∷ [] ≢ []
snoc-ne-nil [] c h = cc
snoc-ne-nil (d ∷ xs) c h = cc

is_digit-digit : (n : ℕ) → n < 10 → is_digit (48 + n) ≡ true
unfolding is_digit
is_digit-digit n h = ground arith

decimal_on-digits : (f n : ℕ) → All (λ c. is_digit c ≡ true) (decimal_on f n)
unfolding decimal_on
decimal_on-digits zero n = tt
decimal_on-digits (suc f) n = elim (Bool-cases (ltb n 10)) [
  | inl small ↦ rw small (is_digit-digit n (ltb→lt _ _ small), tt)
  | inr big ↦ rw big (
      All-append _ (decimal_on f (n / 10)) _ (decimal_on-digits f (n / 10))
        (is_digit-digit (n % 10) (omega arith), tt))
]

pub decimal-digits : (n : ℕ) → All (λ c. is_digit c ≡ true) (decimal n)
unfolding decimal
decimal-digits n = decimal_on-digits (suc n) n

decimal_on-ne-nil : (f n : ℕ) → decimal_on (suc f) n ≢ []
unfolding decimal_on
decimal_on-ne-nil f n h = elim (Bool-cases (ltb n 10)) [
  | inl small ↦ cc (rw small at h)
  | inr big ↦ snoc-ne-nil (decimal_on f (n / 10)) _ (rw big at h)
]

pub decimal-ne-nil : (n : ℕ) → decimal n ≢ []
unfolding decimal
decimal-ne-nil n h = decimal_on-ne-nil n n h
