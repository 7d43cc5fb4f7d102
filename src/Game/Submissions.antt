-- ===== src/Game/Submissions.antt =====
-- GameService: an inbound message, the engine state that the rows give, the row of a submission, and
-- the branch of processMessage that deletes a message without effect.
use herald_of_jams.Base.{
  ℕ, ◌&&◌, List, [], ◌∷◌, ◌++◌, map, Option, none, some, Text, codes, ◌==◌, length, select, last?,
}
use herald_of_jams.Numeric.{NumericParseResult, conversation, safe_integer, out_of_range, decimal}
use herald_of_jams.Engine.{
  EngineState, DeleteReason, waiting_reason, paused_reason, banned_reason, BreakReason, unexpected,
  same_player, out_of_range_reason,
}
use herald_of_jams.Store.{
  Database, Environment, next_id, RoundRow, AttemptRow, SubmissionRow, StoredDecision,
  waiting_deleted, paused_deleted, banned_deleted, broken_unexpected, broken_same_player,
  broken_out_of_range, BanRow, delete_original, message_payload, submission_deleted_without_effect,
  active_attempt_of, id_is, is_accepted,
}
use herald_of_jams.Game.Outgoing.{audit, enqueue}

pub record InboundDiscordMessage : Type 0 where
  pub id : ℕ
  pub channel_id : ℕ
  pub author_id : ℕ
  pub display_name : Text
  pub content : Text
  pub created_at : ℕ

pub data MessageDisposition : Type 0 where
  chat_message duplicate : MessageDisposition
  recorded : StoredDecision → (outbox_operation_ids : List ℕ) → MessageDisposition

-- `${decision.reason}_deleted`
abbrev pub stored_delete : DeleteReason → StoredDecision
stored_delete waiting_reason = waiting_deleted
stored_delete paused_reason = paused_deleted
stored_delete banned_reason = banned_deleted

-- `broken_${decision.reason}`
abbrev pub stored_break : BreakReason → StoredDecision
stored_break unexpected = broken_unexpected
stored_break same_player = broken_same_player
stored_break out_of_range_reason = broken_out_of_range

abbrev pub digits_of : NumericParseResult → Text
digits_of conversation = []
digits_of (safe_integer digits value) = digits
digits_of (out_of_range digits) = digits

-- parsed.kind === "safe_integer" ? parsed.value : null
abbrev pub normalized_value_of : NumericParseResult → Option ℕ
normalized_value_of (safe_integer digits value) = some value
normalized_value_of _ = none

-- String(normalizedValue)
abbrev pub value_text : Option ℕ → Text
value_text none = codes "null"
value_text (some value) = decimal value

-- The authors of the accepted submissions of an attempt, in the order of the rows.
unfoldable pub accepted_authors : Database → Option AttemptRow → List ℕ
accepted_authors db none = []
accepted_authors db (some attempt) =
    map (λ (s : SubmissionRow). s.author_id)
      (select (λ s. id_is s.attempt_id attempt.id && is_accepted s.decision) db.submissions)

-- The ids of the players who are banned from a round.
unfoldable pub banned_players : Database → ℕ → List ℕ
banned_players db round =
    map (λ (b : BanRow). b.player_id) (select (λ b. b.round_id == round) db.bans)

unfoldable pub engine_state : Database → RoundRow → EngineState
engine_state db round =
    let authors = accepted_authors db (active_attempt_of db round.id) in
    record {
      round_state = round.state;
      paused_from = round.paused_from_state;
      next_position = length authors;
      previous_accepted_player_id = last? authors;
      accepted_count = length authors;
      banned_player_ids = banned_players db round.id;
    }

abbrev pub attempt_id : Option AttemptRow → Option ℕ
attempt_id none = none
attempt_id (some attempt) = some attempt.id

-- INSERT INTO submissions
unfoldable pub insert_submission :
    InboundDiscordMessage → NumericParseResult → ℕ → Option ℕ → StoredDecision → Database → Database
insert_submission message parsed round attempt decision db = record db {
  submissions =
      db.submissions
      ++ record {
        message_id = message.id;
        round_id = round;
        attempt_id = attempt;
        author_id = message.author_id;
        original_digits = digits_of parsed;
        normalized_value = normalized_value_of parsed;
        decision = decision;
        received_at = message.created_at;
      }
        ∷ [];
}

unfoldable pub delete_submission :
    Environment
    → ℕ
    → RoundRow
    → InboundDiscordMessage
    → NumericParseResult
    → DeleteReason
    → Database
    → Database × List ℕ
delete_submission env now round message parsed reason db =
    let attempt = attempt_id (active_attempt_of db round.id) in
    let db = insert_submission message parsed round.id attempt (stored_delete reason) db in
    let id = next_id env db in
    let db = enqueue env now round.channel_id delete_original (message_payload message.id) db in
    (
      audit env now (submission_deleted_without_effect message.id (stored_delete reason))
          (some round.id) (some message.author_id) db,
      id ∷ [],
    )
