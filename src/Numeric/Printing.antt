-- ===== src/Numeric/Printing.antt =====
-- Numbers printed in decimal, and the parser of src/domain/numeric-submission.ts.
use herald_of_jams.Base.{
  ℕ, zero, suc, ◌+◌, ◌-◌, ◌*◌, ◌/◌, ◌%◌, ◌≤◌, ◌<◌, ◌≡◌, refl, true, [], ◌∷◌, ◌++◌, Text, arith, ltb,
  all, inl, inr, Bool-cases,
}
use herald_of_jams.Numeric.{
  safe_integer, max_safe_integer, is_digit, is_numeric, value_from, number,
  parse_numeric_submission, decimal_digits, decimal,
}
use herald_of_jams.Numeric.Order.{parse_numeric_submission-by_value}

value_from-append :
    (s : Text) (acc c : ℕ) → value_from acc (s ++ c ∷ []) ≡ value_from acc s * 10 + (c - b'0')
unfolding value_from
value_from-append [] acc c = refl
value_from-append (d ∷ s) acc c = value_from-append s (acc * 10 + (d - b'0')) c

number-decimal_digits : (f n : ℕ) → n < f → number (decimal_digits f n) ≡ n
unfolding decimal_digits value_from
number-decimal_digits zero n h = elim h [ ]
number-decimal_digits (suc f) n h = elim (Bool-cases (ltb n 10)) [
  | inl small ↦ rw small (omega arith)
  | inr large ↦
      rw (large, value_from-append (decimal_digits f (n / 10)) 0 (b'0' + n % 10))
        (ground (arith, number-decimal_digits f (n / 10)))
]

is_numeric-append :
    (s : Text) (c : ℕ) → all is_digit s ≡ true → is_digit c ≡ true → is_numeric (s ++ c ∷ []) ≡ true
is_numeric-append [] c h k = rw k
is_numeric-append (d ∷ s) c h k = ground (arith, is_numeric-append s c)

is_numeric-decimal_digits : (f n : ℕ) → n < f → is_numeric (decimal_digits f n) ≡ true
unfolding decimal_digits
is_numeric-decimal_digits zero n h = elim h [ ]
is_numeric-decimal_digits (suc f) n h = elim (Bool-cases (ltb n 10)) [
  | inl small ↦ rw small (ground arith)
  | inr large ↦ rw large (
      ground (
        arith,
        is_numeric-decimal_digits f (n / 10),
        is_numeric-append (decimal_digits f (n / 10)) (b'0' + n % 10),
      ))
]

-- Every safe integer printed in decimal is parsed back to itself.
pub parse_numeric_submission-decimal :
    (n : ℕ)
    → n ≤ max_safe_integer
    → parse_numeric_submission (decimal n) ≡ safe_integer (decimal n) n
unfolding decimal
parse_numeric_submission-decimal n h =
    rw
      (
        parse_numeric_submission-by_value (decimal n),
        is_numeric-decimal_digits (suc n) n (omega arith),
        number-decimal_digits (suc n) n (omega arith),
      )
      (ground arith)
