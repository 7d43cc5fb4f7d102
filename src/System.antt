-- ===== src/System.antt =====
-- The transactions of src/application/game-service.ts, src/db/outbox-repository.ts and
-- src/db/admin-repository.ts as steps of
-- one system: those that succeed. One that throws is rolled back and is no step.
use herald_of_jams.Base.{ℕ, ◌≡◌, Bool, [], Option, Text, ok}
use herald_of_jams.Store.{Database, Environment}
use herald_of_jams.Game.Submissions.{InboundDiscordMessage}
use herald_of_jams.Game.Messages.{
  Processed, process_message, invalidate_after_reconnect_break, ensure_reconnect_reset,
}
use herald_of_jams.Game.Control.{
  pause_active, resume_active, cancel_active, ban_player, unban_player, reset_season,
  activate_round,
}
use herald_of_jams.Announcements.{AnnouncementTemplates}
use herald_of_jams.Rounds.{RoundTemplateInput}
use herald_of_jams.Admin.{create_template, update_template, update_announcement_defaults}
use herald_of_jams.Admin.Order.{
  create_template-outbox, update_template-outbox, update_announcement_defaults-outbox,
}
use herald_of_jams.Outbox.{
  recover_stale_deliveries, claim_next, record_delivered, schedule_retry,
  schedule_ambiguous_reconciliation, require_review, retry, mark_delivered, abandon,
}
use herald_of_jams.Game.Ordering.{IsOrdered}
use herald_of_jams.Game.Ordering.Messages.{
  process_message-IsOrdered, invalidate_after_reconnect_break-IsOrdered,
  ensure_reconnect_reset-IsOrdered,
}
use herald_of_jams.Game.Ordering.Control.{
  pause_active-outbox, resume_active-outbox, ban_player-outbox, unban_player-outbox,
  reset_season-outbox, cancel_active-IsOrdered, activate_round-IsOrdered,
}
use herald_of_jams.Outbox.Order.{
  claim_next-IsOrdered, recover_stale_deliveries-IsOrdered, record_delivered-IsOrdered,
  schedule_retry-IsOrdered, schedule_ambiguous_reconciliation-IsOrdered, require_review-IsOrdered,
  retry-IsOrdered, mark_delivered-IsOrdered, abandon-IsOrdered,
}
use herald_of_jams.Base.{subst, sym}

module _ (env : Environment) where
  pub data Step : Database → Database → Type 0 where
    processed :
        (now : ℕ) (message : InboundDiscordMessage) (deferred : Bool) {db : Database}
        (r : Processed)
        → process_message env now message deferred db ≡ ok r
        → Step db r.1
    invalidated :
        (now : ℕ) (message : InboundDiscordMessage) (breaking : ℕ) {db : Database} (r : Processed)
        → invalidate_after_reconnect_break env now message breaking db ≡ ok r
        → Step db r.1
    announced_reset :
        (now breaking operation : ℕ) {db db' : Database}
        → ensure_reconnect_reset env now breaking db ≡ ok (operation, db')
        → Step db db'
    activated :
        (now template round : ℕ) {db db' : Database}
        → activate_round env now template db ≡ ok (round, db')
        → Step db db'
    paused_round :
        (now : ℕ) (actor : Option ℕ) {db db' : Database}
        → pause_active env now actor db ≡ ok db'
        → Step db db'
    resumed_round :
        (now : ℕ) (actor : Option ℕ) {db db' : Database}
        → resume_active env now actor db ≡ ok db'
        → Step db db'
    cancelled_round :
        (now : ℕ) (actor : Option ℕ) {db db' : Database}
        → cancel_active env now actor db ≡ ok db'
        → Step db db'
    banned :
        (now player : ℕ) (name : Text) (actor : ℕ) {db db' : Database}
        → ban_player env now player name actor db ≡ ok db'
        → Step db db'
    unbanned :
        (now player actor : ℕ) {db db' : Database}
        → unban_player env now player actor db ≡ ok db'
        → Step db db'
    season_restarted :
        (now : ℕ) (actor : Option ℕ) (season : ℕ) {db db' : Database}
        → reset_season env now actor db ≡ ok (season, db')
        → Step db db'
    recovered : (now : ℕ) {db : Database} → Step db (recover_stale_deliveries now db)
    claimed_next : (now channel : ℕ) {db : Database} → Step db (claim_next now channel db).1
    delivery_recorded :
        (now id : ℕ) (message : Option ℕ) {db : Database}
        → Step db (record_delivered now id message db)
    retry_scheduled :
        (now id attempt_count : ℕ) (error : Text) {db : Database}
        → Step db (schedule_retry now id attempt_count error db).1
    reconciliation_scheduled :
        (now id : ℕ) (error : Text) (delay : ℕ) {db : Database}
        → Step db (schedule_ambiguous_reconciliation now id error delay db).1
    review_required : (id : ℕ) (error : Text) {db : Database} → Step db (require_review id error db)
    retried :
        (now id actor : ℕ) {db db' : Database} → retry env now id actor db ≡ ok db' → Step db db'
    marked_delivered :
        (now id : ℕ) (message : Option ℕ) (actor : ℕ) {db db' : Database}
        → mark_delivered env now id message actor db ≡ ok db'
        → Step db db'
    given_up :
        (now id : ℕ) (reason : Text) (actor : ℕ) {db db' : Database}
        → abandon env now id reason actor db ≡ ok db'
        → Step db db'
    created_template :
        (now : ℕ) (input : RoundTemplateInput) (id : ℕ) {db db' : Database}
        → create_template env now input db ≡ ok (id, db')
        → Step db db'
    updated_template :
        (now id : ℕ) (input : RoundTemplateInput) {db db' : Database}
        → update_template now id input db ≡ ok db'
        → Step db db'
    updated_defaults :
        (now : ℕ) (input : AnnouncementTemplates) (actor : ℕ) {db db' : Database}
        → update_announcement_defaults env now input actor db ≡ ok db'
        → Step db db'

  -- Any number of steps from the first database.
  pub data Reach (first : Database) : Database → Type 0 where
    start_at : Reach first first
    then_step : {db db' : Database} → Reach first db → Step db db' → Reach first db'

  Step-IsOrdered : {db db' : Database} → Step db db' → IsOrdered db.outbox → IsOrdered db'.outbox
  Step-IsOrdered (processed now message deferred r e) h =
      process_message-IsOrdered env now message deferred _ r e h
  Step-IsOrdered (invalidated now message breaking r e) h =
      invalidate_after_reconnect_break-IsOrdered env now message breaking _ r e h
  Step-IsOrdered (announced_reset now breaking operation e) h =
      ensure_reconnect_reset-IsOrdered env now breaking operation _ _ e h
  Step-IsOrdered (activated now template round e) h =
      activate_round-IsOrdered env now _ template round _ e h
  Step-IsOrdered (paused_round now actor e) h =
      subst IsOrdered (sym (pause_active-outbox env now _ actor _ e)) h
  Step-IsOrdered (resumed_round now actor e) h =
      subst IsOrdered (sym (resume_active-outbox env now _ actor _ e)) h
  Step-IsOrdered (cancelled_round now actor e) h = cancel_active-IsOrdered env now _ actor _ e h
  Step-IsOrdered (banned now player name actor e) h =
      subst IsOrdered (sym (ban_player-outbox env now _ player name actor _ e)) h
  Step-IsOrdered (unbanned now player actor e) h =
      subst IsOrdered (sym (unban_player-outbox env now _ player actor _ e)) h
  Step-IsOrdered (season_restarted now actor season e) h =
      subst IsOrdered (sym (reset_season-outbox env now _ actor season _ e)) h
  Step-IsOrdered (recovered now) h = recover_stale_deliveries-IsOrdered now _ h
  Step-IsOrdered (claimed_next now channel) h = claim_next-IsOrdered now channel _ h
  Step-IsOrdered (delivery_recorded now id message) h =
      record_delivered-IsOrdered now id message _ h
  Step-IsOrdered (retry_scheduled now id attempt_count error) h =
      schedule_retry-IsOrdered now id attempt_count error _ h
  Step-IsOrdered (reconciliation_scheduled now id error delay) h =
      schedule_ambiguous_reconciliation-IsOrdered now id error delay _ h
  Step-IsOrdered (review_required id error) h = require_review-IsOrdered id error _ h
  Step-IsOrdered (retried now id actor e) h = retry-IsOrdered env now id actor _ _ e h
  Step-IsOrdered (marked_delivered now id message actor e) h =
      mark_delivered-IsOrdered env now id message actor _ _ e h
  Step-IsOrdered (given_up now id reason actor e) h =
      abandon-IsOrdered env now id reason actor _ _ e h
  Step-IsOrdered (created_template now input id e) h =
      subst IsOrdered (sym (create_template-outbox env now input id _ _ e)) h
  Step-IsOrdered (updated_template now id input e) h =
      subst IsOrdered (sym (update_template-outbox now id input _ _ e)) h
  Step-IsOrdered (updated_defaults now input actor e) h =
      subst IsOrdered (sym (update_announcement_defaults-outbox env now input actor _ _ e)) h

  -- Whatever transactions of the game service, the outbox and the administration run, in whatever
  -- order, from a database with an empty outbox: in every channel the operations are numbered 1, 2,
  -- 3, … in the order of insertion, and each names the one before it as its predecessor.
  pub Reach-IsOrdered :
      (first db : Database) → first.outbox ≡ [] → Reach first db → IsOrdered db.outbox
  Reach-IsOrdered first db e start_at = subst IsOrdered (sym e) (λ c. tt)
  Reach-IsOrdered first db e (then_step r s) = Step-IsOrdered s (Reach-IsOrdered first _ e r)
