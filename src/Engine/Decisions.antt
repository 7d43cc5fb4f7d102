-- ===== src/Engine/Decisions.antt =====
-- The decisions of evaluateSubmission of src/domain/game-engine.ts.
use herald_of_jams.Base.{
  ℕ, zero, suc, ◌+◌, ◌≤◌, ◌<◌, ◌≡◌, refl, ◌≢◌, ◌⊎◌, inl, inr, Bool, true, false, Option-cases, List,
  some, Text, ◌==◌, length, get_elem?, contains, arith, Error, Result, ok, throw, [], ◌∷◌,
}
use herald_of_jams.Base.Int.{ℤ}
use herald_of_jams.Numeric.{NumericParseResult, max_safe_integer}
use herald_of_jams.Scoring.{penalty_severity}
use herald_of_jams.Scoring.Penalties.{penalty_severity-quarter}
use herald_of_jams.Rounds.{CompiledEntry}
use herald_of_jams.Engine.{
  RoundState, waiting_for_start, counting, paused, completed, cancelled, EngineState, EngineInput,
  EngineDecision, accepted, broken, BreakReason, evaluate_submission, is_conversation,
  is_out_of_range, is_player, is_value,
}

-- The submission is the expected value, by a player who may submit it.
pub record IsTurn (state : EngineState) (input : EngineInput) (position : ℕ) (entry : CompiledEntry)
    : Type 0 where
  pub expected : get_elem? input.compiled.entries position ≡ some entry
  pub value_matches : is_value input.parsed entry.value ≡ true
  pub not_banned : contains state.banned_player_ids input.player_id ≡ false

-- A submission is accepted while waiting only if it is the first value, and while counting only if it
-- is the next value and the player is not the one before; never in another state. It then has the
-- position and the bonus rules of that entry.
pub record IsAccepted (state : EngineState) (input : EngineInput) (position : ℕ)
    (bonus_rule_ids : List Text) (completes_round : Bool) : Type 0 where
  pub index : ℕ
  pub entry : CompiledEntry
  pub turn : IsTurn state input index entry
  pub fields : (entry.position ≡ position) × (entry.bonus_rule_ids ≡ bonus_rule_ids)
  pub situation :
      ((state.round_state ≡ waiting_for_start) × (index ≡ 0))
      ⊎ ((state.round_state ≡ counting)
          × (index ≡ state.next_position)
          × (is_player state.previous_accepted_player_id input.player_id ≡ false))
  pub last_entry : completes_round ≡ (index + 1 == length input.compiled.entries)

accept_waiting :
    (state : EngineState) (input : EngineInput) (position : ℕ) (ids : List Text) (completes : Bool)
    (e : CompiledEntry)
    → state.round_state ≡ waiting_for_start
    → get_elem? input.compiled.entries 0 ≡ some e
    → evaluate_submission state input ≡ ok (accepted position ids completes)
    → IsAccepted state input position ids completes
unfolding evaluate_submission
accept_waiting state input position ids completes e s first h = record {
  index = 0;
  entry = e;
  turn = ground arith;
  fields = ground arith;
  situation = inl (s, refl);
  last_entry = ground arith;
}

accept_counting :
    (state : EngineState) (input : EngineInput) (position : ℕ) (ids : List Text) (completes : Bool)
    (e : CompiledEntry)
    → state.round_state ≡ counting
    → get_elem? input.compiled.entries state.next_position ≡ some e
    → evaluate_submission state input ≡ ok (accepted position ids completes)
    → IsAccepted state input position ids completes
unfolding evaluate_submission
accept_counting state input position ids completes e s next h = record {
  index = state.next_position;
  entry = e;
  turn = ground arith;
  fields = ground arith;
  situation = inr (s, refl, ground arith);
  last_entry = ground arith;
}

-- An accepted submission is the first value of a waiting round, or the next value of a counting one
-- by another player than the one before; the player is not banned, the decision has the position
-- and the bonus rules of that entry, and completes the round exactly if the entry is the last one.
pub evaluate_submission-accepted :
    (state : EngineState) (input : EngineInput) (position : ℕ) (ids : List Text) (completes : Bool)
    → evaluate_submission state input ≡ ok (accepted position ids completes)
    → IsAccepted state input position ids completes
unfolding evaluate_submission
evaluate_submission-accepted state input position ids completes h = go state.round_state refl
  where
    go : (s : RoundState) → state.round_state ≡ s → IsAccepted state input position ids completes
    go waiting_for_start e = elim (Option-cases (get_elem? input.compiled.entries 0)) [
      | inl missing ↦ absurd (ground arith)
      | inr (entry, first) ↦ accept_waiting state input position ids completes entry e first h
    ]
    go counting e = elim (Option-cases (get_elem? input.compiled.entries state.next_position)) [
      | inl missing ↦ absurd (ground arith)
      | inr (entry, next) ↦ accept_counting state input position ids completes entry e next h
    ]
    go paused e = absurd (ground arith)
    go completed e = absurd (ground arith)
    go cancelled e = absurd (ground arith)

numeric :
    (parsed : NumericParseResult) (value : ℕ)
    → is_value parsed value ≡ true
    → (is_conversation parsed ≡ false) × (is_out_of_range parsed ≡ false)
numeric parsed value h = ground arith

-- Every such submission is accepted.
pub evaluate_submission-accepts :
    (state : EngineState) (input : EngineInput) (position : ℕ) (ids : List Text) (completes : Bool)
    → IsAccepted state input position ids completes
    → evaluate_submission state input ≡ ok (accepted position ids completes)
unfolding evaluate_submission
evaluate_submission-accepts state input position ids completes a =
    let n = numeric input.parsed a.entry.value a.turn.value_matches in
    elim a.situation [
      | inl (s, zero_index) ↦
          let first : get_elem? input.compiled.entries 0 ≡ some a.entry =
            rw zero_index at a.turn.expected in
          ground arith
      | inr (s, next, fresh) ↦
          let expected : get_elem? input.compiled.entries state.next_position ≡ some a.entry =
            rw next at a.turn.expected in
          ground arith
    ]

-- The round is not counting, or it has accepted some messages and expects the entry after these.
abbrev pub IsReady : EngineState → EngineInput → Type 0
IsReady state input =
    (state.round_state ≢ counting)
    ⊎ ((0 < state.accepted_count)
        × (state.next_position ≡ state.accepted_count)
        × (state.next_position < length input.compiled.entries)
        × (length input.compiled.entries ≤ max_safe_integer))

-- A submission breaks the attempt only while the round is counting and by a player who is not
-- banned, and the severity is that of the progress so far.
pub evaluate_submission-broken :
    (state : EngineState) (input : EngineInput) (reason : BreakReason) (severity : ℤ)
    → evaluate_submission state input ≡ ok (broken reason severity)
    → (state.round_state ≡ counting)
      × (contains state.banned_player_ids input.player_id ≡ false)
      × (penalty_severity state.accepted_count (length input.compiled.entries) ≡ ok severity)
unfolding evaluate_submission
evaluate_submission-broken state input reason severity h = ground arith

get_elem?-below {ℓ} :
    {A : Type ℓ} (xs : List A) (i : ℕ) → i < length xs → (x : A) × (get_elem? xs i ≡ some x)
get_elem?-below [] i h = absurd (omega arith)
get_elem?-below (x ∷ xs) zero h = (x, refl)
get_elem?-below (x ∷ xs) (suc i) h = get_elem?-below xs i (omega arith)

abbrev pub IsActive : RoundState → Type 0
IsActive s = (s ≢ completed) × (s ≢ cancelled)

counting_decides :
    (state : EngineState) (input : EngineInput) (error : Error) (entry : CompiledEntry)
    (severity : ℤ)
    → state.round_state ≡ counting
    → get_elem? input.compiled.entries state.next_position ≡ some entry
    → penalty_severity state.accepted_count (length input.compiled.entries) ≡ ok severity
    → evaluate_submission state input ≡ throw error
    → ⊥
unfolding evaluate_submission
counting_decides state input error entry severity s found cost e = ground arith

never_throws :
    (state : EngineState) (input : EngineInput) (error : Error)
    → IsActive state.round_state
    → IsReady state input
    → evaluate_submission state input ≡ throw error
    → ⊥
unfolding evaluate_submission
never_throws state input error active ready e = go state.round_state refl
  where
    go : (s : RoundState) → state.round_state ≡ s → ⊥
    go waiting_for_start s = ground arith
    go paused s = ground arith
    go completed s = active.0 s
    go cancelled s = active.1 s
    go counting s = elim ready [
      | inl other ↦ other s
      | inr (some_accepted, in_step, below, safe) ↦
          let (entry, found) = get_elem?-below input.compiled.entries state.next_position below in
          counting_decides state input error entry _ s found
            (penalty_severity-quarter state.accepted_count (length input.compiled.entries)
              (some_accepted, omega arith, safe))
            e
    ]

-- Of a round that is not over, and whose count is in step with its entries, every submission is
-- decided: nothing is thrown.
pub evaluate_submission-decides :
    (state : EngineState) (input : EngineInput)
    → IsActive state.round_state
    → IsReady state input
    → (decision : EngineDecision) × (evaluate_submission state input ≡ ok decision)
unfolding evaluate_submission
evaluate_submission-decides state input active ready = go (evaluate_submission state input) refl
  where
    go :
        (r : Result EngineDecision)
        → evaluate_submission state input ≡ r
        → (decision : EngineDecision) × (evaluate_submission state input ≡ ok decision)
    go (ok decision) e = (decision, e)
    go (throw error) e = absurd (never_throws state input error active ready e)
