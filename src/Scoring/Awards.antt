-- ===== src/Scoring/Awards.antt =====
-- The awards of src/domain/scoring.ts, against an equal share.
use herald_of_jams.Base.{
  ℕ, ◌+◌, ◌*◌, ◌≤◌, ◌<◌, ◌≡◌, refl, ◌≢◌, arith, ok, false, List, [], ◌∷◌, map, All, length, any,
}
use herald_of_jams.Numeric.{max_safe_integer}
use herald_of_jams.Scoring.{Count, award, participation_awards, bad, total_of}

-- Every count is a positive safe integer.
abbrev pub AreCounts : List Count → Type 0
AreCounts = All (λ c. (0 < c.1) × (c.1 ≤ max_safe_integer))

any-bad : (counts : List Count) → AreCounts counts → any bad counts ≡ false
any-bad [] h = refl
any-bad (c ∷ counts) h = ground (arith, any-bad counts h.1)

-- With positive safe counts every player is given the award of their count.
pub participation_awards-ok :
    (counts : List Count)
    → AreCounts counts
    → participation_awards counts
      ≡ ok (map (λ (c : Count). (c.0, award (total_of counts) (length counts) c.1)) counts)
unfolding participation_awards
participation_awards-ok counts h = rw (any-bad counts h)

-- More messages never earn a smaller award.
pub award_mono :
    (total participants a b : ℕ) → a ≤ b → award total participants a ≤ award total participants b
unfolding award
award_mono total participants a b h =
    let e : a * participants ≤ b * participants = grind arith in ground arith

award_two :
    (total participants count : ℕ)
    → award total participants count ≡ 2
    → count * (4 * participants) < 3 * total
unfolding award
award_two total participants count h = ground arith

award_four :
    (total participants count : ℕ)
    → 4 ≤ award total participants count
    → 11 * total ≤ count * (10 * participants)
unfolding award
award_four total participants count h = ground arith

sum_below :
    (counts : List Count) (k t : ℕ)
    → All (λ (c : Count). c.1 * k < t) counts
    → total_of counts * k + length counts ≤ length counts * t
sum_below [] k t h = omega arith
sum_below (c ∷ counts) k t (first, rest) = omega (arith, sum_below counts k t rest)

sum_above :
    (counts : List Count) (k t : ℕ)
    → All (λ (c : Count). t ≤ c.1 * k) counts
    → length counts * t ≤ total_of counts * k
sum_above [] k t h = omega arith
sum_above (c ∷ counts) k t (first, rest) = omega (arith, sum_above counts k t rest)

All-map {ℓ κ μ} :
    {A : Type ℓ} {P : A → Type κ} {Q : A → Type μ} (f : (a : A) → P a → Q a) (xs : List A)
    → All P xs
    → All Q xs
All-map f [] h = tt
All-map f (x ∷ xs) (p, h) = (f x p, All-map f xs h)

total_pos : (counts : List Count) → AreCounts counts → counts ≢ [] → 0 < total_of counts
total_pos [] h k = absurd (k refl)
total_pos (c ∷ counts) h k = omega arith

length_pos : (counts : List Count) → counts ≢ [] → 0 < length counts
length_pos [] k = absurd (k refl)
length_pos (c ∷ counts) k = omega arith

abbrev pub award_of : List Count → Count → ℕ
award_of counts c = award (total_of counts) (length counts) c.1

too_low : (n t : ℕ) → 0 < n → t * (4 * n) + n ≤ n * (3 * t) → ⊥
too_low n t h k = grind arith

too_high : (n t : ℕ) → 0 < n → 0 < t → n * (11 * t) ≤ t * (10 * n) → ⊥
too_high n t h k l = let product : 0 < n * t = grind arith in omega arith

-- With positive safe counts of at least one player, the awards are not all 2, and not all 4 or
-- more.
pub award_balanced :
    (counts : List Count)
    → AreCounts counts
    → counts ≢ []
    → (¬ All (λ c. award_of counts c ≡ 2) counts) × (¬ All (λ c. 4 ≤ award_of counts c) counts)
award_balanced counts h k = (
  (λ low.
      let below =
        sum_below counts (4 * length counts) (3 * total_of counts) (
          All-map (λ (c : Count) e. award_two (total_of counts) (length counts) c.1 e) counts
            low) in
      too_low (length counts) (total_of counts) (length_pos counts k) below),
  λ high.
      let above = sum_above counts (10 * length counts) (11 * total_of counts) (
        All-map (λ (c : Count) e. award_four (total_of counts) (length counts) c.1 e) counts
          high) in
      too_high (length counts) (total_of counts) (length_pos counts k) (total_pos counts h k) above,
)
