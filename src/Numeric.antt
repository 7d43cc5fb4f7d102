-- ===== src/Numeric.antt =====
-- src/domain/numeric-submission.ts and the parse result of src/domain/types.ts: which messages are
-- numeric submissions. Texts are lists of UTF-16 code units.
pub mod Order
pub mod Printing
use herald_of_jams.Base.{
  ℕ, zero, suc, ◌+◌, ◌-◌, ◌*◌, ◌/◌, ◌%◌, Bool, true, false, not, ◌&&◌, ◌||◌, List, [], ◌∷◌, ◌++◌,
  Text, codes, leb, ltb, ◌==◌, if◌then◌else◌, length, all, is_empty,
}

-- Number.MAX_SAFE_INTEGER
abbrev pub max_safe_integer : ℕ
max_safe_integer = 9007199254740991

pub data NumericParseResult : Type 0 where
  conversation : NumericParseResult
  safe_integer : (digits : Text) (value : ℕ) → NumericParseResult
  out_of_range : (digits : Text) → NumericParseResult

-- String(Number.MAX_SAFE_INTEGER)
abbrev pub max_safe_integer_digits : Text
max_safe_integer_digits = codes "9007199254740991"

abbrev pub is_digit : ℕ → Bool
is_digit c = leb b'0' c && leb c b'9'

-- /^[0-9]+$/
abbrev pub is_numeric : Text → Bool
is_numeric content = not (is_empty content) && all is_digit content

-- content.replace(/^0+/, "")
unfoldable pub strip_zeros : Text → Text
strip_zeros [] = []
strip_zeros (c ∷ s) = if c == b'0' then strip_zeros s else c ∷ s

-- `|| "0"`
abbrev or_zero : Text → Text
or_zero [] = b'0' ∷ []
or_zero (c ∷ s) = c ∷ s

-- `left < right` on strings.
unfoldable pub text_lt : Text → Text → Bool
text_lt [] [] = false
text_lt [] (b ∷ t) = true
text_lt (a ∷ s) [] = false
text_lt (a ∷ s) (b ∷ t) = if a == b then text_lt s t else ltb a b

-- The number that decimal digits stand for, most significant first, after the digits of `acc`.
unfoldable pub value_from : ℕ → Text → ℕ
value_from acc [] = acc
value_from acc (c ∷ s) = value_from (acc * 10 + (c - b'0')) s

-- Number(text) on decimal digits.
abbrev pub number : Text → ℕ
number s = value_from 0 s

abbrev exceeds : Text → Bool
exceeds s =
    ltb (length max_safe_integer_digits) (length s)
    || (length s == length max_safe_integer_digits && text_lt max_safe_integer_digits s)

abbrev classify : Text → Text → NumericParseResult
classify content normalized =
    if exceeds normalized then out_of_range content else safe_integer content (number normalized)

unfoldable pub parse_numeric_submission : Text → NumericParseResult
unfolding strip_zeros text_lt value_from
parse_numeric_submission content =
    if not (is_numeric content)
    then conversation
    else classify content (or_zero (strip_zeros content))

-- String(n): decimal digits with no leading zero. The fuel `suc n` is more than the digits of `n`.
unfoldable pub decimal_digits : ℕ → ℕ → Text
decimal_digits zero n = []
decimal_digits (suc f) n =
    let leading = decimal_digits f (n / 10) in
    if ltb n 10 then (b'0' + n) ∷ [] else leading ++ (b'0' + n % 10) ∷ []

unfoldable pub decimal : ℕ → Text
unfolding decimal_digits
decimal n = decimal_digits (suc n) n
