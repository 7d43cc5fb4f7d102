-- ===== src/Game/Ordering/Messages.antt =====
-- The order of the outbox, under the transactions of src/application/game-service.ts that a message
-- starts.
use herald_of_jams.Base.{
  ℕ, Bool, not, ◌==◌, if◌then◌else◌, is_some, ok, or_throw, break_not_found, throw_if,
}
use herald_of_jams.Numeric.{NumericParseResult, parse_numeric_submission}
use herald_of_jams.Announcements.{reset, render_announcement}
use herald_of_jams.Rounds.{start_values}
use herald_of_jams.Engine.{
  EngineInput, EngineDecision, chat, delete_without_effect, accepted, broken, DeleteReason,
  evaluate_submission,
}
use herald_of_jams.Store.{
  Database, Environment, RoundRow, delete_original, reset_announcement, submission,
}
use herald_of_jams.Game.Outgoing.{audit, ensure_player}
use herald_of_jams.Game.Submissions.{
  InboundDiscordMessage, engine_state, insert_submission, delete_submission,
}
use herald_of_jams.Game.Acceptance.{Case, accept_submission}
use herald_of_jams.Game.Breaking.{break_submission}
use herald_of_jams.Base.{
  ◌≡◌, sym, subst, arith, >>=-eq-ok, ok-injective, Bool-cases, Option-cases, inl, inr,
}
use herald_of_jams.Game.Messages.{
  Processed, apply_decision, process_in_round, process_message, invalidate_in_round,
  invalidate_after_reconnect_break, ensure_reconnect_reset, breaking_round, reset_operation,
  is_chat,
}
use herald_of_jams.Game.Ordering.{IsOrdered, enqueue-IsOrdered}
use herald_of_jams.Game.Messages.{stores_player}
use herald_of_jams.Game.Ordering.Transactions.{
  OrderedPair, accept_submission-IsOrdered, break_submission-IsOrdered, ensure_player-outbox,
}
use herald_of_jams.Game.Branches.{case_of, process_message-cases}

delete_submission-IsOrdered :
    (env : Environment) (now : ℕ) (round : RoundRow) (message : InboundDiscordMessage)
    (parsed : NumericParseResult) (reason : DeleteReason) (db : Database)
    → IsOrdered db.outbox
    → OrderedPair (delete_submission env now round message parsed reason db)
unfolding delete_submission insert_submission audit
delete_submission-IsOrdered env now round message parsed reason db h =
    enqueue-IsOrdered env now round.channel_id delete_original _ _ h

apply_decision-IsOrdered :
    (env : Environment) (k : Case) (deferred : Bool) (decision : EngineDecision) (db : Database)
    (r : Processed)
    → apply_decision env k deferred decision db ≡ ok r
    → IsOrdered db.outbox
    → IsOrdered r.1.outbox
unfolding apply_decision
apply_decision-IsOrdered env k deferred chat db r e h =
    subst (λ (p : Processed). IsOrdered p.1.outbox) (ok-injective e) h
apply_decision-IsOrdered env k deferred (delete_without_effect reason) db r e h =
    subst (λ (p : Processed). IsOrdered p.1.outbox) (ok-injective e)
      (delete_submission-IsOrdered env k.now k.round k.message k.parsed reason db h)
apply_decision-IsOrdered env k deferred (accepted position ids completes) db r e h =
    let (done, a, e') = >>=-eq-ok (accept_submission env k position ids completes db) _ e in
    subst (λ (p : Processed). IsOrdered p.1.outbox) (ok-injective e')
      (accept_submission-IsOrdered env k position ids completes db done a h)
apply_decision-IsOrdered env k deferred (broken reason severity) db r e h =
    let (done, a, e') = >>=-eq-ok (break_submission env k deferred reason severity db) _ e in
    subst (λ (p : Processed). IsOrdered p.1.outbox) (ok-injective e')
      (break_submission-IsOrdered env k deferred reason severity db done a h)

stored : Case → EngineDecision → Database → Database
stored k decision db =
    if stores_player decision
    then ensure_player k.now k.message.author_id k.message.display_name db
    else db

stored-IsOrdered :
    (env : Environment) (k : Case) (decision : EngineDecision) (db : Database)
    → IsOrdered db.outbox
    → IsOrdered (stored k decision db).outbox
unfolding stored
stored-IsOrdered env k chat db h = h
stored-IsOrdered env k _ db h =
    subst IsOrdered
      (sym (ensure_player-outbox env k.now k.message.author_id k.message.display_name db)) h

process_in_round-IsOrdered :
    (env : Environment) (k : Case) (deferred : Bool) (db : Database) (r : Processed)
    → process_in_round env k deferred db ≡ ok r
    → IsOrdered db.outbox
    → IsOrdered r.1.outbox
unfolding process_in_round stored
process_in_round-IsOrdered env k deferred db r e h = elim (Bool-cases (is_chat k.parsed)) [
  | inl numberless ↦ subst IsOrdered {x = db.outbox} {y = r.1.outbox} (ground arith) h
  | inr numeric ↦
      let input : EngineInput = record {
        player_id = k.message.author_id;
        parsed = k.parsed;
        compiled = k.round.compiled_config;
      } in
      let (decision, decided, e') =
        >>=-eq-ok (evaluate_submission (engine_state db k.round) input) _
          (rw (numeric, process_in_round) at e) in
      apply_decision-IsOrdered env k deferred decision (stored k decision db) r e'
        (stored-IsOrdered env k decision db h)
]

-- Processing a message, whatever it does, leaves the operations of every channel numbered 1, 2, 3,
-- … and chained by their predecessors.
pub process_message-IsOrdered :
    (env : Environment) (now : ℕ) (message : InboundDiscordMessage) (deferred : Bool)
    (db : Database) (r : Processed)
    → process_message env now message deferred db ≡ ok r
    → IsOrdered db.outbox
    → IsOrdered r.1.outbox
unfolding process_message
process_message-IsOrdered env now message deferred db r e h =
    elim (process_message-cases env now message deferred db r e) [
      | inl (unchanged, quiet) ↦ subst IsOrdered {x = db.outbox} {y = r.1.outbox} (cc) h
      | inr p ↦
          process_in_round-IsOrdered env (case_of now message p.round) deferred db r p.processed h
    ]

invalidated-IsOrdered :
    (env : Environment) (k : Case) (breaking : ℕ) (db : Database)
    → IsOrdered db.outbox
    → IsOrdered (invalidate_in_round env k breaking db).1.outbox
unfolding invalidate_in_round insert_submission audit
invalidated-IsOrdered env k breaking db h =
    enqueue-IsOrdered env k.now k.round.channel_id delete_original _ _ (
      subst IsOrdered
        (sym (ensure_player-outbox env k.now k.message.author_id k.message.display_name db)) h)

-- So does invalidating a message that came after a break.
pub invalidate_after_reconnect_break-IsOrdered :
    (env : Environment) (now : ℕ) (message : InboundDiscordMessage) (breaking : ℕ) (db : Database)
    (r : Processed)
    → invalidate_after_reconnect_break env now message breaking db ≡ ok r
    → IsOrdered db.outbox
    → IsOrdered r.1.outbox
unfolding invalidate_after_reconnect_break
invalidate_after_reconnect_break-IsOrdered env now message breaking db r e h =
    elim (Bool-cases (is_some (submission db message.id))) [
      | inl old ↦ subst IsOrdered {x = db.outbox} {y = r.1.outbox} (ground arith) h
      | inr new ↦
          let (round, found, e1) =
            >>=-eq-ok (or_throw (breaking_round db breaking) break_not_found) _
              (rw (new, invalidate_after_reconnect_break) at e) in
          let (_, here, e2) =
            >>=-eq-ok (throw_if (not (round.channel_id == message.channel_id)) break_not_found) _
              e1 in
          elim (Bool-cases (is_chat (parse_numeric_submission message.content))) [
            | inl chatting ↦ subst IsOrdered {x = db.outbox} {y = r.1.outbox} (ground arith) h
            | inr numeric ↦
                subst (λ (p : Processed). IsOrdered p.1.outbox) (ok-injective (rw numeric at e2))
                  (invalidated-IsOrdered env (case_of now message round) breaking db h)
          ]
    ]

-- And so does making up for a reset announcement.
pub ensure_reconnect_reset-IsOrdered :
    (env : Environment) (now breaking operation : ℕ) (db db' : Database)
    → ensure_reconnect_reset env now breaking db ≡ ok (operation, db')
    → IsOrdered db.outbox
    → IsOrdered db'.outbox
unfolding ensure_reconnect_reset
ensure_reconnect_reset-IsOrdered env now breaking operation db db' e h =
    elim (Option-cases (reset_operation db breaking)) [
      | inr (existing, found) ↦ subst IsOrdered {x = db.outbox} {y = db'.outbox} (ground arith) h
      | inl missing ↦
          let (round, found, e1) =
            >>=-eq-ok (or_throw (breaking_round db breaking) break_not_found) _
              (rw (missing, ensure_reconnect_reset) at e) in
          let (content, rendered, e2) =
            >>=-eq-ok
              (render_announcement reset round.compiled_config.announcements.reset_text
                (start_values round.compiled_config.input.start_at))
              _ e1 in
          subst (λ (p : ℕ × Database). IsOrdered p.1.outbox) (ok-injective e2)
            (enqueue-IsOrdered env now round.channel_id reset_announcement _ db h)
    ]
