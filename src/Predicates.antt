-- ===== src/Predicates.antt =====
-- src/domain/predicates.ts and the checked form of RulePredicate of src/domain/types.ts: which
-- values of a round a rule matches.
pub mod Primality
use herald_of_jams.Base.{
  ℕ, zero, suc, ◌+◌, ◌-◌, ◌*◌, ◌/◌, ◌%◌, ◌^◌, Bool, true, false, ◌&&◌, ◌||◌, List, leb, ltb, ◌==◌,
  if◌then◌else◌, contains,
}
use herald_of_jams.Numeric.{max_safe_integer}

-- A predicate whose numbers have passed the checks of the round compiler.
pub data RulePredicate : Type 0 where
  prime : RulePredicate
  divisible_by : (divisor : ℕ) → RulePredicate
  one_of : (values : List ℕ) → RulePredicate
  range : (minimum maximum : ℕ) → RulePredicate

-- The integer square root, by the digits of `n` in base 4. The fuel `suc n` is more than these.
unfoldable pub isqrt : ℕ → ℕ → ℕ
isqrt zero n = 0
isqrt (suc f) n =
    let half = 2 * isqrt f (n / 4) in
    if n == 0 then 0 else if leb ((half + 1) * (half + 1)) n then half + 1 else half

-- Math.floor(Math.sqrt(n)) on a safe integer. The root is rounded to 53 bits: above 2 ^ 52 the root
-- of one less than a square is rounded up to an integer.
unfoldable pub floor_sqrt : ℕ → ℕ
unfolding isqrt
floor_sqrt n =
    let s = isqrt (suc n) n in if ltb (2 ^ 52) n && n + 1 == (s + 1) * (s + 1) then s + 1 else s

-- for (factor = …; factor <= limit; factor += 2), with the rounds that are left as fuel.
unfoldable pub no_factor : ℕ → ℕ → ℕ → ℕ → Bool
no_factor zero value factor limit = true
no_factor (suc f) value factor limit =
    let rest = no_factor f value (factor + 2) limit in
    if ltb limit factor then true else if value % factor == 0 then false else rest

unfoldable pub is_prime : ℕ → Bool
is_prime value =
    if ltb value 2 || ltb max_safe_integer value
    then false
    else if value == 2
    then true
    else if value % 2 == 0
    then false
    else no_factor (floor_sqrt value) value 3 (floor_sqrt value)

unfoldable pub matches_predicate : ℕ → RulePredicate → Bool
matches_predicate value prime = is_prime value
matches_predicate value (divisible_by divisor) = ltb 0 divisor && value % divisor == 0
matches_predicate value (one_of values) = contains values value
matches_predicate value (range minimum maximum) = leb minimum value && leb value maximum
