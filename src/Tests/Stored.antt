-- ===== src/Tests/Stored.antt =====
-- The theorems on src/application/game-service.ts and src/db/outbox-repository.ts, applied.
use herald_of_jams.Base.{
  ℕ, suc, ◌≡◌, refl, arith, false, not, ◌&&◌, All, none, some, Bool-cases, inl, inr, codes, length,
  any, ltb, ◌==◌, Result, ok, throw,
}
use herald_of_jams.Base.Int.{negsuc}
use herald_of_jams.Store.{Database, OutboxRow, delivering, in_channel}
use herald_of_jams.Game.Outgoing.{canonical_contents}
use herald_of_jams.Game.Contents.{shown, Fits, canonical_contents-shown}
use herald_of_jams.Game.Submissions.{chat_message, engine_state, banned_players}
use herald_of_jams.Game.Breaking.{charge_penalty, worst_severity}
use herald_of_jams.Engine.{cancel_round, evaluate_submission}
use herald_of_jams.Game.Acceptance.{accept_submission, announce_bonus, finish_accepted}
use herald_of_jams.Game.Charging.{IsBalanced, charge_penalty-IsBalanced}
use herald_of_jams.Game.Messages.{Processed, process_message, process_in_round, apply_decision}
use herald_of_jams.Game.Control.{activate_round, cancel_active, require_active_round}
use herald_of_jams.Game.Cancelling.{IsDiscarded, cancel_active-IsDiscarded}
use herald_of_jams.Game.Ordering.{IsOrdered, Chained}
use herald_of_jams.Outbox.{is_resolved, lowest, claim_next, update_operation, claimed}
use herald_of_jams.Outbox.Claims.{claim_next-takes_first}
use herald_of_jams.Outbox.Progress.{claim_next-claims}
use herald_of_jams.Game.Recording.{process_message-once}
use herald_of_jams.Store.{StoredDecision, paused_deleted}
use herald_of_jams.Base.{true, List, []}
use herald_of_jams.Game.Submissions.{MessageDisposition, duplicate, recorded}
use herald_of_jams.System.{Step, Reach, Reach-IsOrdered}
use herald_of_jams.Announcements.{
  resolve_announcements, resolve_kind, validate_template, pieces, render_announcement,
  render_pieces, value_of,
}
use herald_of_jams.Numeric.{decimal, parse_numeric_submission}
use herald_of_jams.Predicates.{matches_predicate}
use herald_of_jams.Rounds.{
  compile_round, copy_input, assert_non_negative_safe_integer, assert_positive_safe_integer,
  copy_bonus_rules, copy_predicate, matches_any, entries_from, bonus_ids,
}
use herald_of_jams.Store.{active_round, highest, submission}
use herald_of_jams.Game.Outgoing.{audit, enqueue}
use herald_of_jams.Game.Control.{
  ensure_season, insert_round, open_season, assert_no_unsettled_terminal_round,
}
use herald_of_jams.Tests.Fixtures.{
  small_env, empty_database, small_message, small_case, active_row, first_operation,
  queued_database,
}

abbrev database_of : Result (ℕ × Database) → Database
database_of (ok p) = p.1
database_of (throw e) = empty_database

abbrev stored_of : Result Database → Database
stored_of (ok db) = db
stored_of (throw e) = empty_database

abbrev processed_of : Result Processed → Processed
processed_of (ok r) = r
processed_of (throw e) = (chat_message, empty_database)

-- The small round is activated, and its first value submitted.
abbrev activated_database : Database
activated_database = database_of (activate_round small_env 1000 5 empty_database)

abbrev after_message : Processed
after_message = processed_of (process_message small_env 2000 small_message false activated_database)

activates : activate_round small_env 1000 5 empty_database ≡ ok (101, activated_database)
unfolding activate_round active_round assert_no_unsettled_terminal_round compile_round
    assert_non_negative_safe_integer assert_positive_safe_integer copy_input copy_bonus_rules
    copy_predicate resolve_announcements resolve_kind validate_template pieces render_announcement
    render_pieces value_of decimal matches_any ensure_season insert_round open_season audit enqueue
    matches_predicate bonus_ids entries_from highest
activates = refl

processes : process_message small_env 2000 small_message false activated_database ≡ ok after_message
unfolding process_message activate_round active_round assert_no_unsettled_terminal_round
    compile_round assert_non_negative_safe_integer assert_positive_safe_integer copy_input
    copy_bonus_rules copy_predicate resolve_announcements resolve_kind validate_template pieces
    render_announcement render_pieces value_of decimal matches_any ensure_season insert_round
    open_season audit enqueue matches_predicate bonus_ids entries_from highest submission
    process_in_round parse_numeric_submission evaluate_submission engine_state banned_players
    apply_decision accept_submission announce_bonus finish_accepted
processes = refl

Reach-IsOrdered_example : IsOrdered after_message.1.outbox
Reach-IsOrdered_example = Reach-IsOrdered small_env empty_database after_message.1 refl (
    Reach.then_step (Reach.then_step Reach.start_at (Step.activated 1000 5 101 activates))
      (Step.processed 2000 small_message false after_message processes))

cancels :
    cancel_active small_env 3000 none activated_database
    ≡ ok (stored_of (cancel_active small_env 3000 none activated_database))
unfolding cancel_active activate_round cancel_round active_round assert_no_unsettled_terminal_round
    compile_round assert_non_negative_safe_integer assert_positive_safe_integer copy_input
    copy_bonus_rules copy_predicate resolve_announcements resolve_kind validate_template pieces
    render_announcement render_pieces value_of decimal matches_any ensure_season insert_round
    open_season audit enqueue matches_predicate bonus_ids entries_from highest require_active_round
cancels = refl

finds_round : require_active_round activated_database ≡ ok active_row
unfolding activate_round require_active_round active_round assert_no_unsettled_terminal_round
    compile_round assert_non_negative_safe_integer assert_positive_safe_integer copy_input
    copy_bonus_rules copy_predicate resolve_announcements resolve_kind validate_template pieces
    render_announcement render_pieces value_of decimal matches_any ensure_season insert_round
    open_season audit enqueue matches_predicate bonus_ids entries_from highest
finds_round = refl

cancel_active_example :
    IsDiscarded 101 activated_database
      (stored_of (cancel_active small_env 3000 none activated_database))
cancel_active_example =
    cancel_active-IsDiscarded small_env 3000 none activated_database
      (stored_of (cancel_active small_env 3000 none activated_database)) active_row cancels
      finds_round

charge_penalty_example :
    IsBalanced (charge_penalty small_env small_case 200 (negsuc 2) empty_database)
unfolding worst_severity
charge_penalty_example =
    charge_penalty-IsBalanced small_env small_case 200 2 empty_database (λ round player. refl)

shown_example :
    All Fits (canonical_contents (suc (length (codes "123"))) (codes "Ann: ") (codes "123"))
    × (shown
          (codes "Ann: ")
          (canonical_contents (suc (length (codes "123"))) (codes "Ann: ") (codes "123"))
        ≡ codes "123")
shown_example = canonical_contents-shown (codes "Ann: ") (codes "123") (omega arith)

abbrev claimed_operation : OutboxRow
claimed_operation = record first_operation { status = delivering; attempt_count = 1 }

takes_first_example :
    (first_operation.channel_id ≡ 7)
    × (delivering ≡ delivering)
    × (any
          (λ (o : OutboxRow).
            o.channel_id == 7 && ltb o.sequence_number 1 && not (is_resolved o.status))
          queued_database.outbox
        ≡ false)
unfolding claim_next lowest
takes_first_example =
    claim_next-takes_first 2000 7 queued_database claimed_operation
      (update_operation 300 claimed queued_database) refl

queued-IsOrdered : (channel : ℕ) → Chained 0 none (in_channel channel queued_database.outbox)
queued-IsOrdered channel = elim (Bool-cases (7 == channel)) [
  | inl same ↦ rw same (refl, refl, tt)
  | inr other ↦ rw other tt
]

claims_example :
    claim_next 2000 7 queued_database
    ≡ (some claimed_operation, update_operation 300 claimed queued_database)
unfolding lowest
claims_example =
    claim_next-claims 2000 7 queued_database first_operation queued-IsOrdered refl refl refl

abbrev processed_decision : MessageDisposition → StoredDecision
processed_decision (recorded decision ids) = decision
processed_decision _ = paused_deleted

abbrev processed_ids : MessageDisposition → List ℕ
processed_ids (recorded decision ids) = ids
processed_ids _ = []

records :
    process_message small_env 2000 small_message false activated_database
    ≡ ok (
      recorded (processed_decision after_message.0) (processed_ids after_message.0),
      after_message.1,
    )
unfolding process_message activate_round active_round assert_no_unsettled_terminal_round
    compile_round assert_non_negative_safe_integer assert_positive_safe_integer copy_input
    copy_bonus_rules copy_predicate resolve_announcements resolve_kind validate_template pieces
    render_announcement render_pieces value_of decimal matches_any ensure_season insert_round
    open_season audit enqueue matches_predicate bonus_ids entries_from highest submission
    process_in_round parse_numeric_submission evaluate_submission engine_state banned_players
    apply_decision accept_submission announce_bonus finish_accepted
records = refl

process_message-once_example :
    process_message small_env 9000 small_message true after_message.1
    ≡ ok (duplicate, after_message.1)
process_message-once_example =
    process_message-once small_env 2000 small_message false activated_database after_message.1
      (processed_decision after_message.0) (processed_ids after_message.0) records 9000
      small_message true refl
