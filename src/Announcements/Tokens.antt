-- ===== src/Announcements/Tokens.antt =====
-- The scan of a template of src/domain/announcement-templates.ts, and its text.
use herald_of_jams.Base.{
  ℕ, zero, suc, ◌≤◌, ◌<◌, ◌≡◌, refl, ap, false, inl, inr, Bool-cases, Option-cases, List, [], ◌∷◌,
  ◌++◌, some, Text, ◌==◌, ==_iff, length, All, arith, ◌||◌,
}
use herald_of_jams.Announcements.{Piece, unit, placeholder, closing, pieces_from, pieces}

-- The text that a piece was cut from.
abbrev pub source_of : List Piece → Text
source_of [] = []
source_of (unit c ∷ ps) = c ∷ source_of ps
source_of (placeholder word ∷ ps) = b'{' ∷ (word ++ (b'}' ∷ source_of ps))

abbrev pub HasNoBrace : Text → Type 0
HasNoBrace = All (λ c. (c == b'{' || c == b'}') ≡ false)

pub record Closes (s word after : Text) : Type 0 where
  pub split : s ≡ word ++ (b'}' ∷ after)
  pub plain : HasNoBrace word
  pub shorter : length after < length s

closing-Closes : (s word after : Text) → closing s ≡ some (word, after) → Closes s word after
unfolding closing
closing-Closes [] word after h = cc
closing-Closes (c ∷ s) word after h = elim (Bool-cases (c == b'}')) [
  | inl close ↦
      let ew : [] ≡ word = ground arith in
      let ea : s ≡ after = ground arith in
      rw (← ew, ← ea) (record { split = ground arith; plain = tt; shorter = omega arith })
  | inr other ↦ elim (Bool-cases (c == b'{')) [
    | inl open_brace ↦ ground arith
    | inr plain ↦ elim (Option-cases (closing s)) [
      | inl unmatched ↦ ground arith
      | inr ((w, a), matched) ↦
          let ih = closing-Closes s w a matched in
          let ew : c ∷ w ≡ word = ground arith in
          let ea : a ≡ after = ground arith in
          rw (← ew, ← ea)
            (record {
              split = ap (◌∷◌ c) ih.split;
              plain = (ground arith, ih.plain);
              shorter = omega arith;
            })
    ]
  ]
]

source_of-pieces_from : (f : ℕ) (s : Text) → length s ≤ f → source_of (pieces_from f s) ≡ s
unfolding pieces_from
source_of-pieces_from zero [] h = refl
source_of-pieces_from zero (c ∷ s) h = absurd (omega arith)
source_of-pieces_from (suc f) [] h = refl
source_of-pieces_from (suc f) (c ∷ s) h = elim (Bool-cases (c == b'{')) [
  | inr other ↦ rw other (ap (◌∷◌ c) (source_of-pieces_from f s (omega arith)))
  | inl open_brace ↦ elim (Option-cases (closing s)) [
    | inl unmatched ↦
        rw (open_brace, unmatched) (ap (◌∷◌ c) (source_of-pieces_from f s (omega arith)))
    | inr ((w, a), matched) ↦
        let cl = closing-Closes s w a matched in
        rw (open_brace, matched, source_of-pieces_from f a (omega (arith, cl.shorter)))
          (cc (cl.split, (==_iff c b'{').0 open_brace))
  ]
]

-- The pieces of a template, put together again, are the template.
pub source_of-pieces : (s : Text) → source_of (pieces s) ≡ s
unfolding pieces
source_of-pieces s = source_of-pieces_from (length s) s (omega arith)

-- The word of every placeholder is free of braces.
abbrev pub WordIsPlain : Piece → Type 0
WordIsPlain (unit c) = Unit {0}
WordIsPlain (placeholder word) = HasNoBrace word

pieces_from-plain : (f : ℕ) (s : Text) → All WordIsPlain (pieces_from f s)
unfolding pieces_from
pieces_from-plain zero s = tt
pieces_from-plain (suc f) [] = tt
pieces_from-plain (suc f) (c ∷ s) = elim (Bool-cases (c == b'{')) [
  | inr other ↦ rw other (tt, pieces_from-plain f s)
  | inl open_brace ↦ elim (Option-cases (closing s)) [
    | inl unmatched ↦ rw (open_brace, unmatched) (tt, pieces_from-plain f s)
    | inr ((w, a), matched) ↦
        rw (open_brace, matched) ((closing-Closes s w a matched).plain, pieces_from-plain f a)
  ]
]

pub pieces-plain : (s : Text) → All WordIsPlain (pieces s)
unfolding pieces
pieces-plain s = pieces_from-plain (length s) s
