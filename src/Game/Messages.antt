-- ===== src/Game/Messages.antt =====
-- The transactions of GameService that a Discord message starts: processMessage,
-- invalidateAfterReconnectBreak and ensureReconnectReset.
use herald_of_jams.Base.{
  ℕ, Bool, true, false, not, ◌&&◌, List, [], ◌∷◌, Option, none, some, ◌==◌, if◌then◌else◌, find?,
  is_some, Result, ok, or_throw, ◌>>=◌, ◌>>◌, break_not_found, throw_if,
}
use herald_of_jams.Numeric.{NumericParseResult, conversation, parse_numeric_submission}
use herald_of_jams.Announcements.{reset, render_announcement}
use herald_of_jams.Rounds.{start_values}
use herald_of_jams.Engine.{
  EngineDecision, chat, delete_without_effect, accepted, broken, evaluate_submission,
}
use herald_of_jams.Store.{
  Database, Environment, next_id, RoundRow, StoredDecision, accepted_submission,
  invalidated_after_reconnect_break, OutboxRow, delete_original, reset_announcement,
  submission_payload, invalidated_payload, payload_submission, submission_invalidated, submission,
  active_round, id_is, is_broken, is_reset,
}
use herald_of_jams.Game.Outgoing.{audit, enqueue, ensure_player}
use herald_of_jams.Game.Submissions.{
  InboundDiscordMessage, MessageDisposition, chat_message, duplicate, recorded, stored_break,
  stored_delete, engine_state, insert_submission, delete_submission,
}
use herald_of_jams.Game.Acceptance.{Case, accept_submission}
use herald_of_jams.Game.Breaking.{break_submission}

-- A result of a transaction: the disposition and the database.
abbrev pub Processed : Type 0
Processed = MessageDisposition × Database

abbrev pub recorded_as : StoredDecision → Database × List ℕ → Processed
recorded_as decision (db, ids) = (recorded decision ids, db)

-- The branches of processMessage on the decision of the engine; `db` has the player.
unfoldable pub apply_decision :
    Environment → Case → Bool → EngineDecision → Database → Result Processed
apply_decision env k deferred chat db = ok (chat_message, db)
apply_decision env k deferred (delete_without_effect reason) db = ok (
    recorded_as (stored_delete reason)
      (delete_submission env k.now k.round k.message k.parsed reason db))
apply_decision env k deferred (accepted position bonus_rule_ids completes) db = do
  done ← accept_submission env k position bonus_rule_ids completes db
  ok (recorded_as accepted_submission done)
apply_decision env k deferred (broken reason severity) db = do
  done ← break_submission env k deferred reason severity db
  ok (recorded_as (stored_break reason) done)

-- `if (decision.kind === "conversation") return` stands before the player is stored.
abbrev pub stores_player : EngineDecision → Bool
stores_player chat = false
stores_player _ = true

abbrev pub is_chat : NumericParseResult → Bool
is_chat conversation = true
is_chat _ = false

-- processMessage, once the active round of the channel is known.
unfoldable pub process_in_round : Environment → Case → Bool → Database → Result Processed
process_in_round env k deferred db = if is_chat k.parsed then ok (chat_message, db) else do
  decision ← evaluate_submission (engine_state db k.round) (record {
    player_id = k.message.author_id;
    parsed = k.parsed;
    compiled = k.round.compiled_config;
  })
  apply_decision env k deferred decision (
      if stores_player decision
      then ensure_player k.now k.message.author_id k.message.display_name db
      else db)

unfoldable pub process_message :
    Environment → ℕ → InboundDiscordMessage → Bool → Database → Result Processed
process_message env now message deferred db =
    if is_some (submission db message.id) then ok (duplicate, db) else elim (active_round db) [
      | none ↦ ok (chat_message, db)
      | some round ↦
          if not (round.channel_id == message.channel_id)
          then ok (chat_message, db)
          else process_in_round env
              (record {
                now = now;
                round = round;
                message = message;
                parsed = parse_numeric_submission message.content;
              })
              deferred db
    ]

-- The round of a submission with a broken decision: submissions JOIN rounds.
unfoldable pub breaking_round : Database → ℕ → Option RoundRow
breaking_round db message = elim (submission db message) [
  | none ↦ none
  | some s ↦ if is_broken s.decision then find? (λ r. r.id == s.round_id) db.rounds else none
]

unfoldable pub invalidate_in_round : Environment → Case → ℕ → Database → Processed
invalidate_in_round env k breaking db =
    let author = k.message.author_id in
    let db = ensure_player k.now author k.message.display_name db in
    let db =
      insert_submission k.message k.parsed k.round.id none invalidated_after_reconnect_break db in
    let id = next_id env db in
    let db =
      enqueue env k.now k.round.channel_id delete_original
        (invalidated_payload k.message.id breaking) db in
    (
      recorded invalidated_after_reconnect_break (id ∷ []),
      audit env k.now (submission_invalidated k.message.id breaking) (some k.round.id) (some author)
          db,
    )

unfoldable pub invalidate_after_reconnect_break :
    Environment → ℕ → InboundDiscordMessage → ℕ → Database → Result Processed
invalidate_after_reconnect_break env now message breaking db =
    if is_some (submission db message.id) then ok (duplicate, db) else do
      round ← or_throw (breaking_round db breaking) break_not_found
      throw_if (not (round.channel_id == message.channel_id)) break_not_found
      let parsed = parse_numeric_submission message.content
      ok (
          if is_chat parsed
          then (chat_message, db)
          else invalidate_in_round env
              (record { now = now; round = round; message = message; parsed = parsed }) breaking db)

-- The reset announcement of a breaking submission.
unfoldable pub reset_operation : Database → ℕ → Option OutboxRow
reset_operation db breaking =
    find? (λ o. is_reset o.operation_type && id_is (payload_submission o.payload) breaking)
      db.outbox

unfoldable pub ensure_reconnect_reset : Environment → ℕ → ℕ → Database → Result (ℕ × Database)
ensure_reconnect_reset env now breaking db = elim (reset_operation db breaking) [
  | some existing ↦ ok (existing.id, db)
  | none ↦ do
    round ← or_throw (breaking_round db breaking) break_not_found
    content ←
        render_announcement reset round.compiled_config.announcements.reset_text
          (start_values round.compiled_config.input.start_at)
    ok (
      next_id env db,
      enqueue env now round.channel_id reset_announcement (submission_payload content breaking) db,
    )
]
