-- ===== src/Numeric/Order.antt =====
-- The comparison of digit strings of src/domain/numeric-submission.ts, and that of their values.
use herald_of_jams.Base.{
  ℕ, ◌+◌, ◌-◌, ◌*◌, ◌≤◌, ◌<◌, ◌≡◌, refl, true, not, [], ◌∷◌, Text, codes, arith, ltb, if◌then◌else◌,
  length, all, inl, inr, Bool-cases, all-cons,
}
use herald_of_jams.Numeric.{
  NumericParseResult, conversation, safe_integer, out_of_range, max_safe_integer,
  max_safe_integer_digits, is_digit, is_numeric, strip_zeros, or_zero, text_lt, value_from, number,
  exceeds, parse_numeric_submission,
}

-- A larger prefix wins over any digits that are not more.
value_from-lt :
    (s t : Text) (a b : ℕ)
    → all is_digit t ≡ true
    → length t ≤ length s
    → b < a
    → value_from b t < value_from a s
unfolding value_from
value_from-lt [] [] a b dt h lt = lt
value_from-lt [] (d ∷ t) a b dt h lt = absurd (omega arith)
value_from-lt (c ∷ s) [] a b dt h lt =
    value_from-lt s [] (a * 10 + (c - b'0')) b dt (omega arith) (omega arith)
value_from-lt (c ∷ s) (d ∷ t) a b dt h lt =
    let (digit, rest) = all-cons is_digit d t dt in
    value_from-lt s t (a * 10 + (c - b'0')) (b * 10 + (d - b'0')) rest (omega arith) (ground arith)

-- Digits of one length are ordered as texts as they are as numbers.
text_lt-number :
    (s t : Text) (a : ℕ)
    → all is_digit s ≡ true
    → all is_digit t ≡ true
    → length s ≡ length t
    → text_lt s t ≡ ltb (value_from a s) (value_from a t)
unfolding text_lt value_from
text_lt-number [] [] a ds dt h = ground arith
text_lt-number [] (d ∷ t) a ds dt h = absurd (omega arith)
text_lt-number (c ∷ s) [] a ds dt h = absurd (omega arith)
text_lt-number (c ∷ s) (d ∷ t) a ds dt h =
    let (digit_c, rest_s) = all-cons is_digit c s ds in
    let (digit_d, rest_t) = all-cons is_digit d t dt in
    ground (
      arith,
      text_lt-number s t (a * 10 + (c - b'0')) rest_s rest_t (omega arith),
      value_from-lt s t (a * 10 + (c - b'0')) (a * 10 + (d - b'0')) rest_t (omega arith),
      value_from-lt t s (a * 10 + (d - b'0')) (a * 10 + (c - b'0')) rest_s (omega arith),
    )

strip_zeros-number : (s : Text) → number (or_zero (strip_zeros s)) ≡ number s
unfolding strip_zeros value_from
strip_zeros-number [] = refl
strip_zeros-number (c ∷ s) = ground (arith, strip_zeros-number s)

all-strip_zeros : (s : Text) → all is_digit s ≡ true → all is_digit (or_zero (strip_zeros s)) ≡ true
unfolding strip_zeros
all-strip_zeros [] d = refl
all-strip_zeros (c ∷ s) d = ground (arith, all-strip_zeros s)

-- What is left starts with a digit above zero, or is one digit.
abbrev IsNormal : Text → Type 0
IsNormal [] = ⊥
IsNormal (c ∷ []) = Unit {0}
IsNormal (c ∷ d ∷ s) = b'0' < c

strip_zeros-IsNormal : (s : Text) → all is_digit s ≡ true → IsNormal (or_zero (strip_zeros s))
unfolding strip_zeros
strip_zeros-IsNormal [] d = tt
strip_zeros-IsNormal (c ∷ []) d = ground arith
strip_zeros-IsNormal (c ∷ e ∷ s) d = ground (arith, strip_zeros-IsNormal (e ∷ s))

-- The two tests on length and text are one test on the number.
exceeds-number :
    (s : Text) → all is_digit s ≡ true → IsNormal s → exceeds s ≡ ltb max_safe_integer (number s)
unfolding value_from
exceeds-number [] d n = absurd n
exceeds-number (c ∷ []) d n = ground arith
exceeds-number (c ∷ e ∷ s) d n =
    let (digit, rest) = all-cons is_digit c (e ∷ s) d in
    ground (
      arith,
      text_lt-number max_safe_integer_digits (c ∷ e ∷ s) 0 refl d,
      value_from-lt (e ∷ s) max_safe_integer_digits (c - b'0') 0 refl,
      value_from-lt (codes "007199254740991") (c ∷ e ∷ s) 9 0 d,
    )

numeric_digits : (s : Text) → is_numeric s ≡ true → all is_digit s ≡ true
numeric_digits s h = ground arith

-- What the parser answers, by the value of the digits alone.
abbrev pub parse_by_value : Text → NumericParseResult
parse_by_value content =
    if not (is_numeric content)
    then conversation
    else if ltb max_safe_integer (number content)
    then out_of_range content
    else safe_integer content (number content)

-- The parser, which strips zeros and compares texts, answers as the value of the digits says:
-- conversation, out of range above the largest safe integer, or the safe integer.
pub parse_numeric_submission-by_value :
    (content : Text) → parse_numeric_submission content ≡ parse_by_value content
unfolding parse_numeric_submission
parse_numeric_submission-by_value content = elim (Bool-cases (is_numeric content)) [
  | inr chat ↦ rw chat
  | inl numeric ↦
      let digits = numeric_digits content numeric in
      let over =
        exceeds-number (or_zero (strip_zeros content)) (all-strip_zeros content digits)
          (strip_zeros-IsNormal content digits) in
      rw (numeric, over, strip_zeros-number content)
]
