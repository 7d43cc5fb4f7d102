-- ===== src/Engine.antt =====
-- src/domain/game-engine.ts: what a submission does to a round, and the states of a round. The id of
-- a player is a number; an optional field is an `Option`.
pub mod Decisions
pub mod Lifecycle
use herald_of_jams.Base.{
  ℕ, zero, suc, ◌+◌, Bool, true, false, not, ◌&&◌, ◌||◌, List, [], ◌∷◌, Option, none, some, Text,
  ltb, ◌==◌, if◌then◌else◌, length, get_elem?, contains, Result, ok, throw, ◌>>=◌, ◌>>◌, Error,
  round_terminal, no_expected_entry, cannot_pause, cannot_resume, cannot_cancel,
}
use herald_of_jams.Base.Int.{ℤ}
use herald_of_jams.Numeric.{NumericParseResult, conversation, safe_integer, out_of_range}
use herald_of_jams.Scoring.{penalty_severity}
use herald_of_jams.Rounds.{CompiledRound, CompiledEntry}

pub data RoundState : Type 0 where
  waiting_for_start counting paused completed cancelled : RoundState

-- "waiting_for_start" | "counting"
pub data PausedFrom : Type 0 where
  from_waiting from_counting : PausedFrom

abbrev pub resumed_state : PausedFrom → RoundState
resumed_state from_waiting = waiting_for_start
resumed_state from_counting = counting

pub record EngineState : Type 0 where
  pub round_state : RoundState
  pub paused_from : Option PausedFrom
  pub next_position : ℕ
  pub previous_accepted_player_id : Option ℕ
  pub accepted_count : ℕ
  pub banned_player_ids : List ℕ

pub record EngineInput : Type 0 where
  pub player_id : ℕ
  pub parsed : NumericParseResult
  pub compiled : CompiledRound

pub data DeleteReason : Type 0 where
  waiting_reason paused_reason banned_reason : DeleteReason

pub data BreakReason : Type 0 where
  unexpected same_player out_of_range_reason : BreakReason

pub data EngineDecision : Type 0 where
  chat : EngineDecision
  delete_without_effect : DeleteReason → EngineDecision
  accepted : (position : ℕ) (bonus_rule_ids : List Text) (completes_round : Bool) → EngineDecision
  broken : BreakReason → (severity : ℤ) → EngineDecision

abbrev is_terminal : RoundState → Bool
is_terminal completed = true
is_terminal cancelled = true
is_terminal _ = false

abbrev is_player : Option ℕ → ℕ → Bool
is_player none player = false
is_player (some p) player = p == player

-- input.parsed.kind === "safe_integer" && input.parsed.value === value
abbrev is_value : NumericParseResult → ℕ → Bool
is_value (safe_integer digits n) value = n == value
is_value _ value = false

-- { kind: "broken", reason, severity: severity() }
abbrev break_with : BreakReason → Result ℤ → Result EngineDecision
break_with reason severity = do s ← severity; ok (broken reason s)

abbrev start_with : EngineInput → Option CompiledEntry → EngineDecision
start_with input none = delete_without_effect waiting_reason
start_with input (some entry) =
    if is_value input.parsed entry.value
    then accepted entry.position entry.bonus_rule_ids (length input.compiled.entries == 1)
    else delete_without_effect waiting_reason

abbrev is_out_of_range : NumericParseResult → Bool
is_out_of_range (out_of_range digits) = true
is_out_of_range _ = false

-- `next_position === entries.length - 1` where an entry stands at `next_position`.
abbrev count_with : EngineState → EngineInput → Option CompiledEntry → Result EngineDecision
count_with state input none = throw no_expected_entry
count_with state input (some entry) =
    let severity = penalty_severity state.accepted_count (length input.compiled.entries) in
    if is_out_of_range input.parsed
    then break_with out_of_range_reason severity
    else if is_player state.previous_accepted_player_id input.player_id
    then break_with same_player severity
    else if not (is_value input.parsed entry.value)
    then break_with unexpected severity
    else ok (
        accepted entry.position entry.bonus_rule_ids
          (state.next_position + 1 == length input.compiled.entries))

abbrev decide : EngineState → EngineInput → RoundState → Result EngineDecision
decide state input waiting_for_start = ok (start_with input (get_elem? input.compiled.entries 0))
decide state input counting =
    count_with state input (get_elem? input.compiled.entries state.next_position)
decide state input paused = ok (delete_without_effect paused_reason)
decide state input completed = throw round_terminal
decide state input cancelled = throw round_terminal

abbrev is_conversation : NumericParseResult → Bool
is_conversation conversation = true
is_conversation _ = false

abbrev is_paused : RoundState → Bool
is_paused paused = true
is_paused _ = false

unfoldable pub evaluate_submission : EngineState → EngineInput → Result EngineDecision
evaluate_submission state input =
    if is_terminal state.round_state
    then throw round_terminal
    else if is_conversation input.parsed
    then ok chat
    else if is_paused state.round_state
    then ok (delete_without_effect paused_reason)
    else if contains state.banned_player_ids input.player_id
    then ok (delete_without_effect banned_reason)
    else decide state input state.round_state

abbrev pause_from : EngineState → RoundState → Result EngineState
pause_from state waiting_for_start =
    ok (record state { round_state = paused; paused_from = some from_waiting })
pause_from state counting =
    ok (record state { round_state = paused; paused_from = some from_counting })
pause_from state _ = throw cannot_pause

unfoldable pub pause_round : EngineState → Result EngineState
pause_round state = pause_from state state.round_state

abbrev resume_from : EngineState → RoundState → Option PausedFrom → Result EngineState
resume_from state paused (some from) =
    ok (record state { round_state = resumed_state from; paused_from = none })
resume_from state _ _ = throw cannot_resume

unfoldable pub resume_round : EngineState → Result EngineState
resume_round state = resume_from state state.round_state state.paused_from

unfoldable pub cancel_round : EngineState → Result EngineState
cancel_round state =
    if is_terminal state.round_state
    then throw cannot_cancel
    else ok (record state { round_state = cancelled; paused_from = none })
