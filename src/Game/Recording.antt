-- ===== src/Game/Recording.antt =====
-- The submissions that processMessage of src/application/game-service.ts has recorded, when their
-- messages come again.
mod Rows
use herald_of_jams.Base.{
  ℕ, zero, suc, ◌+◌, ◌≡◌, ◌≢◌, refl, sym, ap, ◌∙◌, subst, arith, Bool, true, false, Bool-cases, inl,
  inr, List, [], ◌∷◌, ◌++◌, Text, ◌==◌, any, find?, is_some, length, ok, or_throw, no_attempt,
  >>=-eq-ok, ok-injective,
}
use herald_of_jams.Base.Int.{ℤ}
use herald_of_jams.Numeric.{NumericParseResult}
use herald_of_jams.Scoring.{Count, participation_awards}
use herald_of_jams.Announcements.{bonus, reset, completion, render_announcement}
use herald_of_jams.Rounds.{CompiledRound, start_values}
use herald_of_jams.Engine.{
  BreakReason, DeleteReason, EngineDecision, EngineInput, chat, delete_without_effect, accepted,
  broken, evaluate_submission,
}
use herald_of_jams.Store.{
  StoredDecision, Database, Environment, RoundRow, SubmissionRow, ContributionRow, LeaderboardEntry,
  submission, active_attempt_of,
}
use herald_of_jams.Game.Outgoing.{audit, enqueue, enqueue_parts, enqueue_canonical}
use herald_of_jams.Game.Submissions.{
  InboundDiscordMessage, chat_message, duplicate, recorded, insert_submission, delete_submission,
  engine_state,
}
use herald_of_jams.Game.Completion.{
  award_for, insert_ledger, insert_reward, insert_rewards, enqueue_pages, close_completed,
  complete_round, contributions_of, counts_of, no_values,
}
use herald_of_jams.Game.Acceptance.{
  Case, add_contribution, set_round_state, require_attempt, record_accepted, bonus_values,
  announce_bonus, finish_accepted, accept_submission,
}
use herald_of_jams.Game.Breaking.{
  set_penalty, charge_penalty, break_attempt, drop_contributions, announce_reset, record_broken,
  break_submission,
}
use herald_of_jams.Game.Messages.{
  Processed, apply_decision, process_in_round, process_message, is_chat,
}
use herald_of_jams.Game.Branches.{case_of, process_message-cases}
use herald_of_jams.Game.Recording.Rows.{
  Stored, any-last, any-find?, enqueue_parts-submissions, enqueue_pages-submissions,
  insert_reward-submissions, insert_rewards-submissions, charge_penalty-submissions,
  complete_round-submissions, add_contribution-submissions, record_accepted-Stored,
  record_broken-Stored, announce_bonus-submissions, finish_accepted-submissions,
  announce_reset-submissions,
}

module _ (env : Environment) where
  delete_submission-Stored :
      (now : ℕ) (round : RoundRow) (message : InboundDiscordMessage) (parsed : NumericParseResult)
      (reason : DeleteReason) (db : Database)
      → Stored message.id (delete_submission env now round message parsed reason db).0
  unfolding delete_submission enqueue audit insert_submission
  delete_submission-Stored now round message parsed reason db =
      any-last message.id db.submissions _ refl

  same_rows :
      (message : ℕ) (db db' : Database)
      → db'.submissions ≡ db.submissions
      → Stored message db
      → Stored message db'
  same_rows message db db' e h =
      subst (λ rows. any (λ (s : SubmissionRow). s.message_id == message) rows ≡ true) (sym e) h

  accept_submission-Stored :
      (k : Case) (position : ℕ) (ids : List Text) (completes : Bool) (db : Database)
      (r : Database × List ℕ)
      → accept_submission env k position ids completes db ≡ ok r
      → Stored k.message.id r.0
  unfolding accept_submission
  accept_submission-Stored k position ids completes db r e =
      let attempt = require_attempt env k.now k.round.id (active_attempt_of db k.round.id) db in
      let shown = record_accepted env k attempt.0 position (length ids) attempt.1 in
      let (announced, a, e1) = >>=-eq-ok (announce_bonus env k (length ids) shown) _ e in
      same_rows k.message.id shown.0 r.0
        (finish_accepted-submissions env k attempt.0 completes announced r e1
          ∙ announce_bonus-submissions env k (length ids) shown announced a)
        (record_accepted-Stored env k attempt.0 position (length ids) attempt.1)

  break_submission-Stored :
      (k : Case) (deferred : Bool) (reason : BreakReason) (severity : ℤ) (db : Database)
      (r : Database × List ℕ)
      → break_submission env k deferred reason severity db ≡ ok r
      → Stored k.message.id r.0
  unfolding break_submission
  break_submission-Stored k deferred reason severity db r e =
      let (attempt, found, e1) =
        >>=-eq-ok (or_throw (active_attempt_of db k.round.id) no_attempt) _ e in
      let shown = record_broken env k attempt.id reason severity db in
      same_rows k.message.id shown.0 r.0 (announce_reset-submissions env k deferred shown r e1)
        (record_broken-Stored env k attempt.id reason severity db)

  -- A decision whose message is not conversation stores the message.
  apply_decision-Stored :
      (k : Case) (deferred : Bool) (decision : EngineDecision) (db : Database) (r : Processed)
      → apply_decision env k deferred decision db ≡ ok r
      → (r.0 ≢ chat_message)
      → Stored k.message.id r.1
  unfolding apply_decision
  apply_decision-Stored k deferred chat db r e h =
      absurd (h (sym (ap (λ (p : Processed). p.0) (ok-injective e))))
  apply_decision-Stored k deferred (delete_without_effect reason) db r e h =
      subst (λ (p : Processed). Stored k.message.id p.1) (ok-injective e)
        (delete_submission-Stored k.now k.round k.message k.parsed reason db)
  apply_decision-Stored k deferred (accepted position ids completes) db r e h =
      let (done, a, e1) = >>=-eq-ok (accept_submission env k position ids completes db) _ e in
      subst (λ (p : Processed). Stored k.message.id p.1) (ok-injective e1)
        (accept_submission-Stored k position ids completes db done a)
  apply_decision-Stored k deferred (broken reason severity) db r e h =
      let (done, a, e1) = >>=-eq-ok (break_submission env k deferred reason severity db) _ e in
      subst (λ (p : Processed). Stored k.message.id p.1) (ok-injective e1)
        (break_submission-Stored k deferred reason severity db done a)

  process_in_round-Stored :
      (k : Case) (deferred : Bool) (db : Database) (r : Processed)
      → process_in_round env k deferred db ≡ ok r
      → r.0 ≢ chat_message
      → Stored k.message.id r.1
  unfolding process_in_round
  process_in_round-Stored k deferred db r e h = elim (Bool-cases (is_chat k.parsed)) [
    | inl numberless ↦ absurd (
        h (
          sym
            (ap (λ (p : Processed). p.0) (ok-injective (rw (numberless, process_in_round) at e)))))
    | inr numeric ↦
        let input : EngineInput = record {
          player_id = k.message.author_id;
          parsed = k.parsed;
          compiled = k.round.compiled_config;
        } in
        let (decision, decided, e1) =
          >>=-eq-ok (evaluate_submission (engine_state db k.round) input) _
            (rw (numeric, process_in_round) at e) in
        apply_decision-Stored k deferred decision _ r e1 h
  ]

-- Once a call of processMessage has recorded a message, with whatever decision, any later call on
-- the database it left, with a message of the same id, answers that it is a duplicate and changes
-- nothing.
pub process_message-once :
    (env : Environment) (now : ℕ) (message : InboundDiscordMessage) (deferred : Bool)
    (db db' : Database) (decision : StoredDecision) (ids : List ℕ)
    → process_message env now message deferred db ≡ ok (recorded decision ids, db')
    → (later : ℕ) (again : InboundDiscordMessage) (deferred' : Bool) → again.id ≡ message.id
    → process_message env later again deferred' db' ≡ ok (duplicate, db')
unfolding process_message submission
process_message-once env now message deferred db db' decision ids e later again deferred' same =
    elim (process_message-cases env now message deferred db (recorded decision ids, db') e) [
      | inl (unchanged, quiet) ↦ elim quiet [ inl twice ↦ cc | inr talk ↦ cc ]
      | inr p ↦
          let stored =
            process_in_round-Stored env (case_of now message p.round) deferred db
              (recorded decision ids, db') p.processed (λ talk. cc) in
          rw (process_message, same, any-find? message.id db'.submissions stored) refl
    ]
