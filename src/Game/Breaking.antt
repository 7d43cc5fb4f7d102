-- ===== src/Game/Breaking.antt =====
-- GameService: the branch of processMessage for a submission that breaks the attempt.
use herald_of_jams.Base.{
  ℕ, zero, Bool, true, false, not, ◌&&◌, List, [], ◌∷◌, ◌++◌, Option, none, some, ◌==◌,
  if◌then◌else◌, any, select, find?, update_where, Result, ok, or_throw, ◌>>=◌, no_attempt,
}
use herald_of_jams.Base.Int.{ℤ, pos, ltb_ℤ}
use herald_of_jams.Scoring.{additional_penalty}
use herald_of_jams.Announcements.{reset, render_announcement}
use herald_of_jams.Rounds.{start_values}
use herald_of_jams.Engine.{waiting_for_start, BreakReason}
use herald_of_jams.Store.{
  Database, Environment, next_id, broken_attempt, PenaltyRow, penalty, penalty_key, delete_original,
  reset_announcement, submission_payload, message_payload, attempt_broken, active_attempt_of,
}
use herald_of_jams.Game.Outgoing.{audit, enqueue, enqueue_canonical}
use herald_of_jams.Game.Submissions.{stored_break, digits_of, insert_submission}
use herald_of_jams.Game.Completion.{insert_ledger}
use herald_of_jams.Game.Acceptance.{Case, set_round_state}

-- SELECT worst_severity FROM round_player_penalties
unfoldable pub worst_severity : Database → ℕ → ℕ → Option ℤ
worst_severity db round player =
    elim (find? (λ p. p.round_id == round && p.player_id == player) db.penalties) [
      | none ↦ none
      | some p ↦ some p.worst_severity
    ]

abbrev pub severity_or_zero : Option ℤ → ℤ
severity_or_zero none = pos 0
severity_or_zero (some s) = s

-- previous === undefined || decision.severity < previous.worst_severity
abbrev pub is_worse : Option ℤ → ℤ → Bool
is_worse none severity = true
is_worse (some previous) severity = ltb_ℤ severity previous

-- INSERT INTO round_player_penalties … ON CONFLICT DO UPDATE
unfoldable pub set_penalty : ℕ → ℕ → ℤ → Database → Database
set_penalty round player severity db =
    let matches = λ (p : PenaltyRow). p.round_id == round && p.player_id == player in
    if any matches db.penalties
    then record db {
      penalties = update_where matches (λ p. record p { worst_severity = severity }) db.penalties;
    }
    else record db {
      penalties =
          db.penalties
          ++ record { round_id = round; player_id = player; worst_severity = severity } ∷ [];
    }

abbrev pub is_zero : ℤ → Bool
is_zero (pos zero) = true
is_zero _ = false

-- The worst severity of the player, and the ledger row for what is added to it.
unfoldable pub charge_penalty : Environment → Case → ℕ → ℤ → Database → Database
charge_penalty env k attempt severity db =
    let player = k.message.author_id in
    let previous = worst_severity db k.round.id player in
    let delta = additional_penalty (severity_or_zero previous) severity in
    let db = if is_worse previous severity then set_penalty k.round.id player severity db else db in
    if is_zero delta
    then db
    else insert_ledger env k.now k.round attempt player penalty delta
        (penalty_key k.round.id player severity) db

-- UPDATE attempts SET state = 'broken', and DELETE FROM attempt_contributions
unfoldable pub break_attempt : ℕ → ℕ → ℕ → Database → Database
break_attempt now message attempt db = record db {
  attempts =
      update_where (λ a. a.id == attempt)
        (λ a. record a {
          state = broken_attempt;
          ended_at = some now;
          broken_by_submission_id = some message;
        })
        db.attempts;
}

unfoldable pub drop_contributions : ℕ → Database → Database
drop_contributions attempt db = record db {
  contributions = select (λ c. not (c.attempt_id == attempt)) db.contributions;
}

-- The reset announcement, unless it is deferred.
unfoldable pub announce_reset :
    Environment → Case → Bool → Database × List ℕ → Result (Database × List ℕ)
announce_reset env k true (db, ids) = ok (db, ids)
announce_reset env k false (db, ids) = do
  content ←
      render_announcement reset k.round.compiled_config.announcements.reset_text
        (start_values k.round.compiled_config.input.start_at)
  ok (
    enqueue env k.now k.round.channel_id reset_announcement
        (submission_payload content k.message.id) db,
    ids ++ next_id env db ∷ [],
  )

-- The rows of a broken attempt, and the operations that replace the message.
unfoldable pub record_broken :
    Environment → Case → ℕ → BreakReason → ℤ → Database → Database × List ℕ
record_broken env k attempt reason severity db =
    let previous = worst_severity db k.round.id k.message.author_id in
    let delta = additional_penalty (severity_or_zero previous) severity in
    let stored = stored_break reason in
    let db = insert_submission k.message k.parsed k.round.id (some attempt) stored db in
    let db = break_attempt k.now k.message.id attempt db in
    let db = set_round_state k.round.id waiting_for_start db in
    let db = drop_contributions attempt (charge_penalty env k attempt severity db) in
    let db =
      audit env k.now (attempt_broken k.message.id stored severity delta) (some k.round.id)
        (some k.message.author_id) db in
    let shown =
      enqueue_canonical env k.now k.round.channel_id k.message.display_name (digits_of k.parsed)
        k.message.id db in
    let deleted =
      enqueue env k.now k.round.channel_id delete_original (message_payload k.message.id) shown.1 in
    (deleted, shown.0 ++ next_id env shown.1 ∷ [])

unfoldable pub break_submission :
    Environment → Case → Bool → BreakReason → ℤ → Database → Result (Database × List ℕ)
break_submission env k deferred reason severity db = do
  attempt ← or_throw (active_attempt_of db k.round.id) no_attempt
  announce_reset env k deferred (record_broken env k attempt.id reason severity db)
