-- ===== src/Scoring/Penalties.antt =====
-- The penalties of src/domain/scoring.ts, and the quarters of a round.
use herald_of_jams.Base.{
  ℕ, suc, ◌+◌, ◌-◌, ◌*◌, ◌/◌, ◌≤◌, ◌<◌, ◌≡◌, ◌⊎◌, ◌↔◌, arith, ok, throw, bad_progress,
}
use herald_of_jams.Base.Int.{ℤ, negsuc, ◌+ℤ◌, ◌-ℤ◌, ◌≤ℤ◌}
use herald_of_jams.Numeric.{max_safe_integer}
use herald_of_jams.Scoring.{penalty_severity, additional_penalty}

-- The progress is between one message and all that the round requires.
abbrev pub IsProgress : ℕ → ℕ → Type 0
IsProgress accepted required =
    (0 < accepted) × (accepted ≤ required) × (required ≤ max_safe_integer)

-- ⌈4 · accepted / required⌉, the quarter of the round that the attempt was in: 1, 2, 3 or 4.
abbrev pub quarter : ℕ → ℕ → ℕ
quarter accepted required = (4 * accepted + required - 1) / required

quotient : (n d q : ℕ) → d * q ≤ n → n < d * suc q → n / d ≡ q
quotient n d q lower upper = grind arith

quarter_value :
    (accepted required k : ℕ)
    → required * k < 4 * accepted
    → 4 * accepted ≤ required * suc k
    → quarter accepted required ≡ suc k
quarter_value accepted required k lower upper =
    quotient (4 * accepted + required - 1) required (suc k) (omega arith) (omega arith)

-- For progress between one message and all that the round requires, a broken attempt costs one
-- point more than the quarter of the round that it reached.
pub penalty_severity-quarter :
    (accepted required : ℕ)
    → IsProgress accepted required
    → penalty_severity accepted required ≡ ok (negsuc (quarter accepted required))
unfolding penalty_severity
penalty_severity-quarter accepted required (some_accepted, within, safe) = ground (
  arith,
  quarter_value accepted required 0,
  quarter_value accepted required 1,
  quarter_value accepted required 2,
  quarter_value accepted required 3,
)

-- Exactly progress outside of these bounds is refused.
pub penalty_severity-throws_iff :
    (accepted required : ℕ)
    → (penalty_severity accepted required ≡ throw bad_progress) ↔ (¬ IsProgress accepted required)
unfolding penalty_severity
penalty_severity-throws_iff accepted required = (λ e. ground arith, λ e. ground arith)

-- Adding the additional penalty to what was charged leaves the worse of the two.
pub additional_penalty-worst :
    (previous next : ℤ)
    → ((previous ≤ℤ next) × (previous +ℤ additional_penalty previous next ≡ previous))
      ⊎ ((next ≤ℤ previous) × (previous +ℤ additional_penalty previous next ≡ next))
unfolding additional_penalty ◌+ℤ◌ ◌-ℤ◌
additional_penalty-worst previous next = ground arith
