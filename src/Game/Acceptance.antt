-- ===== src/Game/Acceptance.antt =====
-- GameService: the branch of processMessage for an accepted submission.
use herald_of_jams.Base.{
  ℕ, zero, suc, ◌+◌, Bool, true, false, ◌&&◌, List, [], ◌∷◌, ◌++◌, Option, none, some, Text, ◌==◌,
  if◌then◌else◌, length, any, update_where, Result, ok, ◌>>=◌,
}
use herald_of_jams.Numeric.{NumericParseResult}
use herald_of_jams.Announcements.{bonus, AnnouncementValues, render_announcement}
use herald_of_jams.Engine.{RoundState, counting}
use herald_of_jams.Store.{
  Database, Environment, next_id, RoundRow, AttemptRow, active_attempt, accepted_submission,
  ContributionRow, delete_original, bonus_announcement, submission_payload, message_payload,
  submission_accepted, active_attempt_of,
}
use herald_of_jams.Game.Outgoing.{audit, enqueue, enqueue_canonical}
use herald_of_jams.Game.Submissions.{
  InboundDiscordMessage, normalized_value_of, value_text, insert_submission,
}
use herald_of_jams.Game.Completion.{complete_round}

-- Whom a decision concerns, and where: the arguments that the branches of processMessage share.
pub record Case : Type 0 where
  pub now : ℕ
  pub round : RoundRow
  pub message : InboundDiscordMessage
  pub parsed : NumericParseResult

-- INSERT INTO attempt_contributions … ON CONFLICT DO UPDATE
unfoldable pub add_contribution : ℕ → ℕ → ℕ → Database → Database
add_contribution attempt player points db =
    let matches = λ (c : ContributionRow). c.attempt_id == attempt && c.player_id == player in
    if any matches db.contributions
    then record db {
      contributions =
          update_where matches
            (λ c. record c {
              accepted_count = c.accepted_count + 1;
              bonus_points = c.bonus_points + points;
            })
            db.contributions;
    }
    else record db {
      contributions =
          db.contributions
          ++ record {
            attempt_id = attempt;
            player_id = player;
            accepted_count = 1;
            bonus_points = points;
          }
            ∷ [];
    }

-- UPDATE rounds SET state = ?, paused_from_state = NULL WHERE id = ?
unfoldable pub set_round_state : ℕ → RoundState → Database → Database
set_round_state round state db = record db {
  rounds =
      update_where (λ r. r.id == round) (λ r. record r { state = state; paused_from_state = none })
        db.rounds;
}

-- The attempt of the round, or a new one; its id comes first.
unfoldable pub require_attempt : Environment → ℕ → ℕ → Option AttemptRow → Database → ℕ × Database
require_attempt env now round (some attempt) db = (attempt.id, db)
require_attempt env now round none db = (
  next_id env db,
  record db {
    attempts =
        db.attempts
        ++ record {
          id = next_id env db;
          round_id = round;
          state = active_attempt;
          started_at = now;
          ended_at = none;
          broken_by_submission_id = none;
        }
          ∷ [];
    issued = suc db.issued;
  },
)

-- The rows of an accepted submission, and the two or more operations that replace the message.
unfoldable pub record_accepted : Environment → Case → ℕ → ℕ → ℕ → Database → Database × List ℕ
record_accepted env k attempt position points db =
    let author = k.message.author_id in
    let db =
      insert_submission k.message k.parsed k.round.id (some attempt) accepted_submission db in
    let db = set_round_state k.round.id counting (add_contribution attempt author points db) in
    let db =
      audit env k.now (submission_accepted k.message.id position) (some k.round.id) (some author)
        db in
    let shown =
      enqueue_canonical env k.now k.round.channel_id k.message.display_name
        (value_text (normalized_value_of k.parsed)) k.message.id db in
    let deleted =
      enqueue env k.now k.round.channel_id delete_original (message_payload k.message.id) shown.1 in
    (deleted, shown.0 ++ next_id env shown.1 ∷ [])

abbrev pub bonus_values : Text → ℕ → AnnouncementValues
bonus_values player points = record {
  player_value = some player;
  bonus_points_value = some points;
  start_value = none;
}

-- The bonus announcement, if any bonus rule matched.
unfoldable pub announce_bonus :
    Environment → Case → ℕ → Database × List ℕ → Result (Database × List ℕ)
announce_bonus env k zero (db, ids) = ok (db, ids)
announce_bonus env k (suc n) (db, ids) = do
  content ←
      render_announcement bonus k.round.compiled_config.announcements.bonus_text
        (bonus_values k.message.display_name (suc n))
  ok (
    enqueue env k.now k.round.channel_id bonus_announcement
        (submission_payload content k.message.id) db,
    ids ++ next_id env db ∷ [],
  )

unfoldable pub finish_accepted :
    Environment → Case → ℕ → Bool → Database × List ℕ → Result (Database × List ℕ)
finish_accepted env k attempt false (db, ids) = ok (db, ids)
finish_accepted env k attempt true (db, ids) = do
  finished ← complete_round env k.now k.round attempt k.round.compiled_config db
  ok (finished.0, ids ++ finished.1)

unfoldable pub accept_submission :
    Environment → Case → ℕ → List Text → Bool → Database → Result (Database × List ℕ)
accept_submission env k position bonus_rule_ids completes db = do
  let attempt = require_attempt env k.now k.round.id (active_attempt_of db k.round.id) db
  let points = length bonus_rule_ids
  announced ←
      announce_bonus env k points (record_accepted env k attempt.0 position points attempt.1)
  finish_accepted env k attempt.0 completes announced
