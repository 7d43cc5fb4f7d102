-- ===== src/Game/Branches.antt =====
-- The branches of processMessage of src/application/game-service.ts.
use herald_of_jams.Base.{ℕ, Bool, none, some, ◌==◌, ok}
use herald_of_jams.Numeric.{parse_numeric_submission}
use herald_of_jams.Store.{Database, Environment, RoundRow, submission, active_round}
use herald_of_jams.Game.Submissions.{InboundDiscordMessage, chat_message, duplicate}
use herald_of_jams.Game.Acceptance.{Case}
use herald_of_jams.Base.{==_iff, ◌⊎◌, ◌≡◌, arith, Bool-cases, Option-cases, inl, inr}
use herald_of_jams.Game.Messages.{Processed, process_in_round, process_message}

-- The arguments of the branches, for a message of an active round.
abbrev pub case_of : ℕ → InboundDiscordMessage → RoundRow → Case
case_of now message round = record {
  now = now;
  round = round;
  message = message;
  parsed = parse_numeric_submission message.content;
}

-- The message is new, and belongs to the channel of the active round.
pub record InRound (env : Environment) (now : ℕ) (message : InboundDiscordMessage) (deferred : Bool)
    (db : Database) (r : Processed) : Type 0 where
  pub round : RoundRow
  pub active : active_round db ≡ some round
  pub channel : round.channel_id ≡ message.channel_id
  pub fresh : submission db message.id ≡ none
  pub processed : process_in_round env (case_of now message round) deferred db ≡ ok r

pub process_message-cases :
    (env : Environment) (now : ℕ) (message : InboundDiscordMessage) (deferred : Bool)
    (db : Database) (r : Processed)
    → process_message env now message deferred db ≡ ok r
    → ((r.1 ≡ db) × ((r.0 ≡ duplicate) ⊎ (r.0 ≡ chat_message)))
      ⊎ InRound env now message deferred db r
unfolding process_message
process_message-cases env now message deferred db r e =
    elim (Option-cases (submission db message.id)) [
      | inr (s, found) ↦ inl (ground arith, inl (ground arith))
      | inl fresh ↦ elim (Option-cases (active_round db)) [
        | inl idle ↦ inl (ground arith, inr (ground arith))
        | inr (round, active) ↦ elim (Bool-cases (round.channel_id == message.channel_id)) [
          | inr elsewhere ↦ inl (ground arith, inr (ground arith))
          | inl here ↦ inr (record {
            round = round;
            active = active;
            channel = (==_iff round.channel_id message.channel_id).0 here;
            fresh = fresh;
            processed = ground arith;
          })
        ]
      ]
    ]
