-- ===== src/Engine/Lifecycle.antt =====
-- The states of a round in src/domain/game-engine.ts: pausing and resuming, cancelling, and the
-- end.
use herald_of_jams.Base.{
  ◌≡◌, ◌↔◌, ◌⊎◌, ◌≢◌, none, arith, ok, throw, cannot_pause, cannot_resume, cannot_cancel,
  round_terminal, ◌>>=◌,
}
use herald_of_jams.Engine.{
  waiting_for_start, counting, paused, completed, cancelled, EngineState, EngineInput, pause_round,
  resume_round, cancel_round, evaluate_submission,
}

-- A paused round knows what it was paused from, and only a paused one does: the check of the table.
abbrev pub IsConsistent : EngineState → Type 0
IsConsistent state = (state.round_state ≡ paused) ↔ (state.paused_from ≢ none)

-- Pausing a round that is waiting or counting and resuming it leaves it as it was.
pub resume_round-pause_round :
    (state : EngineState)
    → (state.round_state ≡ waiting_for_start) ⊎ (state.round_state ≡ counting)
    → state.paused_from ≡ none
    → (pause_round state >>= resume_round) ≡ ok state
unfolding pause_round resume_round
resume_round-pause_round state active fresh = ground arith

-- Nothing can be done to a round that is completed or cancelled: each operation throws its error.
pub terminal_throws :
    (state : EngineState) (input : EngineInput)
    → (state.round_state ≡ completed) ⊎ (state.round_state ≡ cancelled)
    → (pause_round state ≡ throw cannot_pause)
      × (resume_round state ≡ throw cannot_resume)
      × (cancel_round state ≡ throw cannot_cancel)
      × (evaluate_submission state input ≡ throw round_terminal)
unfolding pause_round resume_round cancel_round evaluate_submission
terminal_throws state input over = ground arith
