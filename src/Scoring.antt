-- ===== src/Scoring.antt =====
-- src/domain/scoring.ts: participation awards, and penalties as negative integers. A count is a
-- number of the source; BigInt arithmetic is exact.
pub mod Awards
pub mod Penalties
use herald_of_jams.Base.{
  ℕ, suc, ◌+◌, ◌*◌, Bool, true, false, ◌||◌, List, [], ◌∷◌, leb, ltb, ◌==◌, if◌then◌else◌, length,
  map, Result, ok, throw, Error, bad_count, bad_progress, throw_if, ◌>>=◌, ◌>>◌, any,
}
use herald_of_jams.Base.Int.{ℤ, pos, negsuc, ltb_ℤ, ◌-ℤ◌}
use herald_of_jams.Numeric.{max_safe_integer}

-- An entry of the map from players to contribution counts; the keys of the map are distinct.
abbrev pub Count : Type 0
Count = ℕ × ℕ

abbrev total_of : List Count → ℕ
total_of [] = 0
total_of ((player, count) ∷ counts) = count + total_of counts

-- !Number.isSafeInteger(count) || count <= 0
abbrev bad : Count → Bool
bad (player, count) = ltb max_safe_integer count || count == 0

-- The award of one player out of `participants` players with `total` accepted messages.
unfoldable pub award : ℕ → ℕ → ℕ → ℕ
award total participants count =
    let relative = count * participants in
    if leb (total * 3) (relative * 2)
    then 5
    else if leb (total * 11) (relative * 10)
    then 4
    else if leb (total * 3) (relative * 4)
    then 3
    else 2

unfoldable pub participation_awards : List Count → Result (List Count)
participation_awards counts =
    if any bad counts
    then throw bad_count
    else ok (map (λ (c : Count). (c.0, award (total_of counts) (length counts) c.1)) counts)

unfoldable pub penalty_severity : ℕ → ℕ → Result ℤ
penalty_severity accepted required =
    if ltb max_safe_integer required
      || required == 0
      || ltb max_safe_integer accepted
      || accepted == 0
      || ltb required accepted
    then throw bad_progress
    else if leb (accepted * 4) required
    then ok (negsuc 1)
    else if leb (accepted * 2) required
    then ok (negsuc 2)
    else if leb (accepted * 4) (required * 3)
    then ok (negsuc 3)
    else ok (negsuc 4)

unfoldable pub additional_penalty : ℤ → ℤ → ℤ
additional_penalty previous next = if ltb_ℤ next previous then next -ℤ previous else pos 0
