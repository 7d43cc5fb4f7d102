-- ===== src/Predicates/Primality.antt =====
-- Trial division in src/domain/predicates.ts, and primality.
use native.Mathlib.Nat.{div-add-mod, mul-mod_right, mul_comm}
use herald_of_jams.Base.{
  ℕ, zero, suc, ◌+◌, ◌-◌, ◌*◌, ◌/◌, ◌%◌, ◌^◌, ◌≤◌, ◌<◌, ◌≡◌, refl, ap, ◌∙◌, ◌≢◌, ◌↔◌, inl, inr,
  true, ◌&&◌, leb, ltb, ◌==◌, arith, Bool-cases, dec_lt, leb→le,
}
use herald_of_jams.Numeric.{max_safe_integer}
use herald_of_jams.Predicates.{isqrt, floor_sqrt, no_factor, is_prime}

-- At least 2, and divided by nothing between 1 and itself.
abbrev pub IsPrime : ℕ → Type 0
IsPrime n = (2 ≤ n) × ((d : ℕ) → 2 ≤ d → d < n → n % d ≢ 0)

isqrt_bounds :
    (f n : ℕ) → n < f → (isqrt f n * isqrt f n ≤ n) × (n < (isqrt f n + 1) * (isqrt f n + 1))
unfolding isqrt
isqrt_bounds zero n h = elim h [ ]
isqrt_bounds (suc f) n h = elim (Bool-cases (n == 0)) [
  | inl none_left ↦ rw none_left (ground arith)
  | inr some_left ↦
      let (lower, upper) = isqrt_bounds f (n / 4) (ground arith) in
      elim (Bool-cases (leb ((2 * isqrt f (n / 4) + 1) * (2 * isqrt f (n / 4) + 1)) n)) [
        | inl odd ↦ rw (some_left, odd) (leb→le _ _ odd, omega arith)
        | inr even ↦ rw (some_left, even) (omega arith, ground arith)
      ]
]

floor_sqrt_upper : (n : ℕ) → n < (floor_sqrt n + 1) * (floor_sqrt n + 1)
unfolding floor_sqrt
floor_sqrt_upper n = grind (arith, isqrt_bounds (suc n) n (omega arith))

root_room : (s n : ℕ) → s * s ≤ n → 3 ≤ n → s + 1 < n
root_room zero n h k = omega arith
root_room (suc zero) n h k = omega arith
root_room (suc (suc s)) n h k = omega arith

floor_sqrt-lt : (n : ℕ) → 3 ≤ n → floor_sqrt n < n
unfolding floor_sqrt
floor_sqrt-lt n h =
    let room = root_room (isqrt (suc n) n) n (isqrt_bounds (suc n) n (omega arith)).0 h in
    elim (Bool-cases (ltb (2 ^ 52) n && n + 1 == (isqrt (suc n) n + 1) * (isqrt (suc n) n + 1))) [
      | inl rounded ↦ rw rounded (omega arith)
      | inr exact ↦ rw exact (omega arith)
    ]

-- The loop passes exactly if no odd number from `factor` to `limit` divides the value.
no_factor_sound :
    (f value factor limit k : ℕ)
    → limit < factor + 2 * f
    → no_factor f value factor limit ≡ true
    → factor + 2 * k ≤ limit
    → value % (factor + 2 * k) ≢ 0
unfolding no_factor
no_factor_sound zero value factor limit k room h le = absurd (omega arith)
no_factor_sound (suc f) value factor limit zero room h le =
    let e : factor + 2 * 0 ≡ factor = omega arith in rw e (ground arith)
no_factor_sound (suc f) value factor limit (suc k) room h le =
    let e : factor + 2 * suc k ≡ factor + 2 + 2 * k = omega arith in
    rw e (no_factor_sound f value (factor + 2) limit k (omega arith) (ground arith) (omega arith))

add_zero_double : (factor : ℕ) → factor + 2 * 0 ≡ factor
add_zero_double factor = omega arith

next_factor : (factor k : ℕ) → factor + 2 * suc k ≡ factor + 2 + 2 * k
next_factor factor k = omega arith

no_factor_complete :
    (f value factor limit : ℕ)
    → ((k : ℕ) → factor + 2 * k ≤ limit → value % (factor + 2 * k) ≢ 0)
    → no_factor f value factor limit ≡ true
unfolding no_factor
no_factor_complete zero value factor limit none_divides = refl
no_factor_complete (suc f) value factor limit none_divides = ground (
  arith,
  ap (λ (d : ℕ). value % d) (add_zero_double factor),
  none_divides 0,
  no_factor_complete f value (factor + 2) limit
      (λ k le. rw (← next_factor factor k) (none_divides (suc k) (omega arith))),
)

mul-even : (a b : ℕ) → a % 2 ≡ 0 → (a * b) % 2 ≡ 0
mul-even a b h =
    let e : a * b ≡ 2 * (a / 2 * b) = let f : a ≡ 2 * (a / 2) = omega arith in rw f (grind arith) in
    rw e (mul-mod_right 2 (a / 2 * b))

odd_form : (a : ℕ) → 2 ≤ a → a % 2 ≢ 0 → 3 + 2 * ((a - 3) / 2) ≡ a
odd_form a h k = omega arith

-- A number above 2 with no odd divisor up to the root, and not even, is prime.
small_divisor :
    (n s a b : ℕ)
    → ((k : ℕ) → 3 + 2 * k ≤ s → n % (3 + 2 * k) ≢ 0)
    → n % 2 ≢ 0
    → a * b ≡ n
    → 2 ≤ a
    → s < a
small_divisor n s a b none_divides odd e h = elim (dec_lt s a) [
  | yes above ↦ above
  | no below ↦ absurd (elim (Bool-cases (a % 2 == 0)) [
    | inl even ↦ odd (grind (arith, mul-even a b))
    | inr rest ↦
        none_divides ((a - 3) / 2) (ground arith)
          (rw (odd_form a h (ground arith), ← e) (mul-mod_right a b))
  ])
]

cofactor : (n d q : ℕ) → d * q ≡ n → d < n → 2 ≤ q
cofactor n d zero e h = absurd (omega arith)
cofactor n d (suc zero) e h = absurd (omega arith)
cofactor n d (suc (suc q)) e h = omega arith

too_large : (n s a b : ℕ) → a * b ≡ n → s < a → s < b → n < (s + 1) * (s + 1) → ⊥
too_large n s a b e ha hb root = grind arith

IsPrime-of_odd :
    (n s : ℕ)
    → 3 ≤ n
    → n % 2 ≢ 0
    → n < (s + 1) * (s + 1)
    → ((k : ℕ) → 3 + 2 * k ≤ s → n % (3 + 2 * k) ≢ 0)
    → IsPrime n
IsPrime-of_odd n s h odd root none_divides = (
  omega arith,
  λ d two below divides.
      let e : d * (n / d) ≡ n = omega (arith, div-add-mod n d) in
      let first = small_divisor n s d (n / d) none_divides odd e two in
      let second =
        small_divisor n s (n / d) d none_divides odd (mul_comm (n / d) d ∙ e)
          (cofactor n d (n / d) e below) in
      too_large n s d (n / d) e first second root,
)

IsPrime-two : IsPrime 2
IsPrime-two = (omega arith, λ d two below divides. omega arith)

is_prime_sound : (n : ℕ) → is_prime n ≡ true → (n ≤ max_safe_integer) × IsPrime n
unfolding is_prime
is_prime_sound n h = elim (Bool-cases (n == 2)) [
  | inl two ↦ let e : n ≡ 2 = ground arith in rw e (omega arith, IsPrime-two)
  | inr other ↦ (
    ground arith,
    IsPrime-of_odd n (floor_sqrt n) (ground arith) (ground arith) (floor_sqrt_upper n)
        λ k le. no_factor_sound (floor_sqrt n) n 3 (floor_sqrt n) k (omega arith) (ground arith) le,
  )
]

is_prime_complete :
    (n : ℕ)
    → n ≤ max_safe_integer
    → 2 ≤ n
    → ((d : ℕ) → 2 ≤ d → d < n → n % d ≢ 0)
    → is_prime n ≡ true
unfolding is_prime
is_prime_complete n small two none_divides = elim (Bool-cases (n == 2)) [
  | inl e ↦ ground arith
  | inr other ↦
      let three : 3 ≤ n = ground arith in
      let below = floor_sqrt-lt n three in
      ground (
        arith,
        none_divides 2,
        no_factor_complete (floor_sqrt n) n 3 (floor_sqrt n)
            (λ k le. none_divides (3 + 2 * k) (omega arith) (omega arith)),
      )
]

-- The trial division answers true exactly on the primes that are safe integers.
pub is_prime_iff : (n : ℕ) → (is_prime n ≡ true) ↔ ((n ≤ max_safe_integer) × IsPrime n)
is_prime_iff n = (is_prime_sound n, λ h. is_prime_complete n h.0 h.1.0 h.1.1)
