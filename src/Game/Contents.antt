-- ===== src/Game/Contents.antt =====
-- The contents of the messages that stand in for a submission: enqueueCanonical of
-- src/application/game-service.ts.
use herald_of_jams.Base.{
  ℕ, zero, suc, ◌-◌, ◌≤◌, ◌<◌, max, ◌≡◌, refl, arith, List, [], ◌∷◌, ◌++◌, Text, length, take, drop,
  is_empty, if◌then◌else◌, All, length-append, length-take, length-drop, take-append-drop,
}
use herald_of_jams.Game.Outgoing.{continuation_prefix, canonical_contents}

-- What the messages show behind their prefixes.
abbrev pub shown : Text → List Text → Text
shown prefix [] = []
shown prefix (c ∷ cs) = drop (length prefix) c ++ shown continuation_prefix cs

abbrev pub Fits : Text → Type 0
Fits c = length c ≤ 2000

drop-append : (xs ys : Text) → drop (length xs) (xs ++ ys) ≡ ys
drop-append [] ys = refl
drop-append (x ∷ xs) ys = drop-append xs ys

fits :
    (prefix remaining : Text)
    → length prefix ≤ 1999
    → length (prefix ++ take (max 1 (2000 - length prefix)) remaining) ≤ 2000
fits prefix remaining h = omega (
  arith,
  length-append prefix (take (max 1 (2000 - length prefix)) remaining),
  length-take (max 1 (2000 - length prefix)) remaining,
)

continuation_length : length continuation_prefix ≡ 2
continuation_length = refl

-- The list of contents for what is left is empty where nothing is left.
rest_or_none :
    (rest : Text) (cs : List Text)
    → (0 < length rest → All Fits cs × (shown continuation_prefix cs ≡ rest))
    → All Fits (if is_empty rest then [] else cs)
      × (shown continuation_prefix (if is_empty rest then [] else cs) ≡ rest)
rest_or_none [] cs h = (tt, refl)
rest_or_none (c ∷ rest) cs h = h (omega arith)

contents :
    (f : ℕ) (prefix remaining : Text)
    → length prefix ≤ 1999
    → length remaining < f
    → All Fits (canonical_contents f prefix remaining)
      × (shown prefix (canonical_contents f prefix remaining) ≡ remaining)
unfolding canonical_contents
contents zero prefix remaining h enough = absurd (omega arith)
contents (suc f) prefix remaining h enough =
    let n = max 1 (2000 - length prefix) in
    let more =
      rest_or_none (drop n remaining) (canonical_contents f continuation_prefix (drop n remaining))
        (λ left.
          contents f continuation_prefix (drop n remaining) (omega (arith, continuation_length))
            (omega (arith, length-drop n remaining, left))) in
    (
      (fits prefix remaining h, more.0),
      rw (drop-append prefix (take n remaining), more.1) (take-append-drop n remaining),
    )

-- The messages that stand in for a submission fit into 2000 code units each, and together they show
-- all its digits, for a prefix of at most 1999 code units.
pub canonical_contents-shown :
    (prefix digits : Text)
    → length prefix ≤ 1999
    → All Fits (canonical_contents (suc (length digits)) prefix digits)
      × (shown prefix (canonical_contents (suc (length digits)) prefix digits) ≡ digits)
canonical_contents-shown prefix digits h =
    contents (suc (length digits)) prefix digits h (omega arith)
