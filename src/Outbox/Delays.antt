-- ===== src/Outbox/Delays.antt =====
-- The waiting times of src/db/outbox-repository.ts.
use herald_of_jams.Base.{ℕ, zero, suc, ◌*◌, ◌^◌, ◌-◌, ◌≤◌, ◌≡◌, min, refl, arith}
use herald_of_jams.Outbox.{retry_delay}

double : (n : ℕ) → 2 ^ suc n ≡ 2 * 2 ^ n
double n = omega arith

less : (n : ℕ) → suc n - 1 ≡ n
less n = omega arith

exponent : (n : ℕ) → 2 ^ (suc (suc n) - 1) ≡ 2 * 2 ^ (suc n - 1)
exponent n = rw (less (suc n), less n) (double n)

power-pos : (n : ℕ) → 1 ≤ 2 ^ n
power-pos zero = omega arith
power-pos (suc n) = omega (arith, power-pos n, double n)

-- The first retry waits a second, each further one twice as long as the one before it, and none
-- waits less than a second or more than five minutes.
pub retry_delay-doubles :
    (n : ℕ)
    → (retry_delay 1 ≡ 1000)
      × (retry_delay (suc (suc n)) ≡ min 300000 (2 * retry_delay (suc n)))
      × (1000 ≤ retry_delay n)
      × (retry_delay n ≤ 300000)
unfolding retry_delay
retry_delay-doubles n =
    (refl, omega (arith, exponent n), omega (arith, power-pos (n - 1)), omega arith)
