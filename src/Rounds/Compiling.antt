-- ===== src/Rounds/Compiling.antt =====
-- What compileRound of src/domain/round-compiler.ts gives to the game.
use native.Mathlib.Nat.{div-add-mod, zero-div, sub_self}
use native.Mathlib.Numerals.{add-one}
use herald_of_jams.Base.{
  ℕ, suc, ◌+◌, ◌-◌, ◌/◌, ◌%◌, ◌≤◌, ◌<◌, ◌≡◌, refl, ◌∙◌, false, not, ◌&&◌, inl, inr, Bool-cases,
  some, ◌==◌, length, last?, get_elem?, arith, ok, Error, step_not_positive,
}
use herald_of_jams.Numeric.{max_safe_integer}
use herald_of_jams.Announcements.{AnnouncementTemplates, resolve_announcements}
use herald_of_jams.Rounds.{
  Number, RoundTemplateInput, CompiledEntry, CompiledRound, value_at, skips, entry_at, entries_from,
  max_included_entries, max_candidate_entries, matches_any, compile_round, copy_input,
  assert_non_negative_safe_integer, assert_positive_safe_integer,
}
use herald_of_jams.Rounds.Entries.{
  kept, numbered, entries_from-kept, Above, numbered-Above, numbered-position, last?-kept,
  last?-numbered,
}

-- The numbers of the input are as they should be.
pub record IsArithmetic (c : CompiledRound) : Type 0 where
  pub positive : 0 < c.input.step
  pub ordered : c.input.start_at ≤ c.input.target
  pub safe : c.input.target ≤ max_safe_integer
  pub reachable : (c.input.target - c.input.start_at) % c.input.step ≡ 0
  pub bounded : (c.input.target - c.input.start_at) / c.input.step < max_candidate_entries

abbrev last_index : CompiledRound → ℕ
last_index c = (c.input.target - c.input.start_at) / c.input.step

-- The entries are those of the candidates that no rule skips, and the target is one of these.
pub record IsSelection (c : CompiledRound) : Type 0 where
  pub selected : c.entries ≡ numbered c.input 0 (kept c.input (suc (last_index c)) 0)
  pub few : length (kept c.input (suc (last_index c)) 0) ≤ max_included_entries
  pub target_kept : skips c.input (last_index c) ≡ false

-- Every step of a compilation that succeeds.
record Compiles (input : RoundTemplateInput) (defaults : AnnouncementTemplates) (c : CompiledRound)
    : Type 0 where
  started : assert_non_negative_safe_integer input.start_value ≡ ok c.input.start_at
  targeted : assert_non_negative_safe_integer input.target_value ≡ ok c.input.target
  stepped : assert_positive_safe_integer step_not_positive input.step_value ≡ ok c.input.step
  ordered : c.input.start_at ≤ c.input.target
  reachable : (c.input.target - c.input.start_at) % c.input.step ≡ 0
  bounded : (c.input.target - c.input.start_at) / c.input.step + 1 ≤ max_candidate_entries
  resolved : resolve_announcements defaults c.input.announcements ≡ ok c.announcements
  target_kept :
      (not (c.input.target == c.input.start_at) && matches_any c.input.skip_rules c.input.target)
      ≡ false
  collected :
      entries_from c.input ((c.input.target - c.input.start_at) / c.input.step + 1) 0 0
      ≡ ok c.entries

compile_round-Compiles :
    (input : RoundTemplateInput) (defaults : AnnouncementTemplates) (c : CompiledRound)
    → compile_round input defaults ≡ ok c
    → Compiles input defaults c
unfolding compile_round copy_input
compile_round-Compiles input defaults c h = ground arith

assert_non_negative-safe :
    (x : Number) (n : ℕ) → assert_non_negative_safe_integer x ≡ ok n → n ≤ max_safe_integer
unfolding assert_non_negative_safe_integer
assert_non_negative-safe x n h = ground arith

assert_positive-pos :
    (e : Error) (x : Number) (n : ℕ) → assert_positive_safe_integer e x ≡ ok n → 0 < n
unfolding assert_positive_safe_integer
assert_positive-pos e x n h = ground arith

-- A compilation succeeds only on safe integers with a positive step, a target that is not below the
-- start and is reached from it by whole steps, and at most 1,000,000 candidates.
pub compile_round-IsArithmetic :
    (input : RoundTemplateInput) (defaults : AnnouncementTemplates) (c : CompiledRound)
    → compile_round input defaults ≡ ok c
    → IsArithmetic c
compile_round-IsArithmetic input defaults c h =
    let steps = compile_round-Compiles input defaults c h in
    record {
      positive = assert_positive-pos step_not_positive input.step_value c.input.step steps.stepped;
      ordered = steps.ordered;
      safe = assert_non_negative-safe input.target_value c.input.target steps.targeted;
      reachable = steps.reachable;
      bounded = omega (arith, steps.bounded);
    }

last_value : (c : CompiledRound) → IsArithmetic c → value_at c.input (last_index c) ≡ c.input.target
last_value c v =
    omega
      (arith, div-add-mod (c.input.target - c.input.start_at) c.input.step, v.reachable, v.ordered)

collected_suc :
    (input : RoundTemplateInput) (defaults : AnnouncementTemplates) (c : CompiledRound)
    → Compiles input defaults c
    → entries_from c.input (suc (last_index c)) 0 0 ≡ ok c.entries
collected_suc input defaults c steps = rw (← add-one (last_index c)) steps.collected

no_distance : (c : CompiledRound) → c.input.target ≡ c.input.start_at → last_index c ≡ 0
no_distance c e = rw e (rw sub_self (zero-div c.input.step))

target_not_skipped :
    (input : RoundTemplateInput) (defaults : AnnouncementTemplates) (c : CompiledRound)
    → Compiles input defaults c
    → IsArithmetic c
    → skips c.input (last_index c) ≡ false
target_not_skipped input defaults c steps v =
    rw (last_value c v) (elim (Bool-cases (c.input.target == c.input.start_at)) [
      | inl same ↦ rw (no_distance c (ground arith)) refl
      | inr apart ↦ ground (arith, steps.target_kept)
    ])

-- The entries of a compiled round are exactly the candidates that no skip rule matches (the first
-- is never skipped), in order and numbered from 0, each with the ids of the bonus rules that match
-- it; there are at most 100,000 of them, and the target is not skipped.
pub compile_round-IsSelection :
    (input : RoundTemplateInput) (defaults : AnnouncementTemplates) (c : CompiledRound)
    → compile_round input defaults ≡ ok c
    → IsSelection c
compile_round-IsSelection input defaults c h =
    let steps = compile_round-Compiles input defaults c h in
    let v = compile_round-IsArithmetic input defaults c h in
    let all_kept = entries_from-kept c.input (suc (last_index c)) 0 0 (omega arith) in
    let collected = collected_suc input defaults c steps in
    record {
      selected = ground arith;
      few = ground arith;
      target_kept = target_not_skipped input defaults c steps v;
    }

-- The entries run from the start to the target with growing values, and entry `i` has position `i`.
pub record IsSequence (c : CompiledRound) : Type 0 where
  pub first : (e : CompiledEntry) × (get_elem? c.entries 0 ≡ some e) × (e.value ≡ c.input.start_at)
  pub last : (e : CompiledEntry) × (last? c.entries ≡ some e) × (e.value ≡ c.input.target)
  pub growing : Above c.input.start_at c.entries
  pub positions : (i : ℕ) (e : CompiledEntry) → get_elem? c.entries i ≡ some e → e.position ≡ i

first_entry :
    (c : CompiledRound)
    → c.entries ≡ numbered c.input 0 (kept c.input (suc (last_index c)) 0)
    → (e : CompiledEntry) × (get_elem? c.entries 0 ≡ some e) × (e.value ≡ c.input.start_at)
unfolding kept numbered
first_entry c selected = (entry_at c.input 0 0, rw selected refl, omega arith)

-- The entries of a compiled round run from the start to the target with growing values, and entry i
-- has position i.
pub compile_round-IsSequence :
    (input : RoundTemplateInput) (defaults : AnnouncementTemplates) (c : CompiledRound)
    → compile_round input defaults ≡ ok c
    → IsSequence c
compile_round-IsSequence input defaults c h =
    let v = compile_round-IsArithmetic input defaults c h in
    let s = compile_round-IsSelection input defaults c h in
    record {
      first = first_entry c s.selected;
      last =
          let (e, found, value) =
            last?-numbered c.input 0 (kept c.input (suc (last_index c)) 0) (last_index c)
              (last?-kept c.input (last_index c) 0 (last_index c) (omega arith) s.target_kept) in
          (e, rw s.selected found, value ∙ last_value c v);
      growing = rw s.selected (
          numbered-Above c.input (suc (last_index c)) 0 0 c.input.start_at v.positive
            (omega arith));
      positions = λ i e found.
          numbered-position c.input 0 (kept c.input (suc (last_index c)) 0) i e
            (rw (← s.selected) found)
          ∙ omega arith;
    }
