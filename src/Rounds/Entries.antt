-- ===== src/Rounds/Entries.antt =====
-- The loop of src/domain/round-compiler.ts that collects the entries, and the list of the
-- candidates that no rule skips.
use herald_of_jams.Base.{
  ℕ, zero, suc, ◌+◌, ◌≤◌, ◌<◌, ◌≡◌, refl, false, inl, inr, Bool-cases, List, [], ◌∷◌, some, leb,
  ◌==◌, if◌then◌else◌, length, last?, get_elem?, arith, ok, throw, too_many_entries, last?-cons,
}
use herald_of_jams.Rounds.{
  RoundInput, CompiledEntry, value_at, skips, entry_at, entries_from, max_included_entries,
}

-- The indices from `index` on, `rounds` of them, that no skip rule removes.
unfoldable pub kept : RoundInput → ℕ → ℕ → List ℕ
kept input zero index = []
kept input (suc rounds) index =
    if skips input index
    then kept input rounds (index + 1)
    else index ∷ kept input rounds (index + 1)

-- The entries at these indices, numbered from `position` on.
unfoldable pub numbered : RoundInput → ℕ → List ℕ → List CompiledEntry
numbered input position [] = []
numbered input position (index ∷ indices) =
    entry_at input position index ∷ numbered input (position + 1) indices

-- The loop answers the kept candidates, numbered in order, or throws if these are too many.
pub entries_from-kept :
    (input : RoundInput) (rounds index included : ℕ)
    → included ≤ max_included_entries
    → entries_from input rounds index included ≡ (
        if leb (included + length (kept input rounds index)) max_included_entries
        then ok (numbered input included (kept input rounds index))
        else throw too_many_entries)
unfolding entries_from kept numbered
entries_from-kept input zero index included h = ground arith
entries_from-kept input (suc rounds) index included h = elim (Bool-cases (skips input index)) [
  | inl skip ↦ rw skip (entries_from-kept input rounds (index + 1) included h)
  | inr keep ↦ elim (Bool-cases (included == max_included_entries)) [
    | inl full ↦ rw (keep, full) (ground arith)
    | inr free ↦
        rw (keep, free, entries_from-kept input rounds (index + 1) (included + 1) (ground arith))
          (ground arith)
  ]
]

-- Values grow along the entries.
abbrev pub Above : ℕ → List CompiledEntry → Type 0
Above n [] = Unit {0}
Above n (e ∷ es) = (n ≤ e.value) × Above (suc e.value) es

pub numbered-Above :
    (input : RoundInput) (rounds index position n : ℕ)
    → 0 < input.step
    → n ≤ value_at input index
    → Above n (numbered input position (kept input rounds index))
unfolding kept numbered
numbered-Above input zero index position n h k = tt
numbered-Above input (suc rounds) index position n h k =
    let next : suc (value_at input index) ≤ value_at input (index + 1) = omega arith in
    elim (Bool-cases (skips input index)) [
      | inl skip ↦ rw skip (numbered-Above input rounds (index + 1) position n h (omega arith))
      | inr keep ↦ rw keep (k, numbered-Above input rounds (index + 1) (position + 1) _ h next)
    ]

pub numbered-position :
    (input : RoundInput) (position : ℕ) (indices : List ℕ) (i : ℕ) (e : CompiledEntry)
    → get_elem? (numbered input position indices) i ≡ some e
    → e.position ≡ position + i
unfolding numbered
numbered-position input position [] i e h = cc
numbered-position input position (index ∷ indices) zero e h = ground arith
numbered-position input position (index ∷ indices) (suc i) e h =
    omega (arith, numbered-position input (position + 1) indices i e h)

-- The last candidate is kept if no rule skips it.
pub last?-kept :
    (input : RoundInput) (rounds index last : ℕ)
    → index + rounds ≡ last
    → skips input last ≡ false
    → last? (kept input (suc rounds) index) ≡ some last
unfolding kept
last?-kept input zero index last e h = let e' : index ≡ last = omega arith in rw (e', h)
last?-kept input (suc rounds) index last e h =
    let ih = last?-kept input rounds (index + 1) last (omega arith) h in
    elim (Bool-cases (skips input index)) [
      | inl skip ↦ rw skip ih
      | inr keep ↦ rw keep (last?-cons index (kept input (suc rounds) (index + 1)) last ih)
    ]

pub last?-numbered :
    (input : RoundInput) (position : ℕ) (indices : List ℕ) (i : ℕ)
    → last? indices ≡ some i
    → (e : CompiledEntry) × (last? (numbered input position indices) ≡ some e)
      × (e.value ≡ value_at input i)
unfolding numbered
last?-numbered input position [] i h = cc
last?-numbered input position (index ∷ []) i h = (entry_at input position index, refl, ground arith)
last?-numbered input position (index ∷ next ∷ indices) i h =
    last?-numbered input (position + 1) (next ∷ indices) i h
