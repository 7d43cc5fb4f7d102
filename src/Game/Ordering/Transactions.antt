-- ===== src/Game/Ordering/Transactions.antt =====
-- The order of the outbox, under the parts of processMessage of src/application/game-service.ts.
use herald_of_jams.Base.{
  ℕ, zero, suc, ◌+◌, Bool, true, false, List, [], ◌∷◌, Option, none, some, Text, length, ok,
  or_throw, no_attempt,
}
use herald_of_jams.Base.Int.{ℤ}
use herald_of_jams.Scoring.{Count, participation_awards}
use herald_of_jams.Announcements.{bonus, reset, completion, render_announcement}
use herald_of_jams.Rounds.{CompiledRound, start_values}
use herald_of_jams.Engine.{RoundState, BreakReason}
use herald_of_jams.Store.{
  Database, Environment, RoundRow, AttemptRow, ContributionRow, LeaderboardEntry, delete_original,
  bonus_announcement, reset_announcement, completion_announcement, leaderboard_publication,
  submission, active_attempt_of,
}
use herald_of_jams.Game.Outgoing.{audit, enqueue_canonical, ensure_player}
use herald_of_jams.Game.Submissions.{insert_submission}
use herald_of_jams.Game.Completion.{insert_ledger, complete_round}
use herald_of_jams.Game.Acceptance.{Case, set_round_state, accept_submission}
use herald_of_jams.Game.Breaking.{break_submission}
use herald_of_jams.Base.{◌≡◌, refl, sym, ◌∙◌, subst, arith, >>=-eq-ok, ok-injective}
use herald_of_jams.Game.Completion.{
  insert_reward, insert_rewards, award_for, contributions_of, counts_of, no_values, enqueue_pages,
  close_completed,
}
use herald_of_jams.Game.Acceptance.{
  record_accepted, bonus_values, announce_bonus, finish_accepted, require_attempt, add_contribution,
}
use herald_of_jams.Game.Breaking.{
  record_broken, announce_reset, charge_penalty, set_penalty, break_attempt, drop_contributions,
}
use herald_of_jams.Game.Ordering.{IsOrdered, enqueue-IsOrdered, enqueue_parts-IsOrdered}

abbrev pub OrderedPair : Database × List ℕ → Type 0
OrderedPair r = IsOrdered r.0.outbox

module _ (env : Environment) where
  enqueue_pages-IsOrdered :
      (now : ℕ) (round : RoundRow) (entries : List LeaderboardEntry) (page : ℕ)
      (contents : List Text) (db : Database)
      → IsOrdered db.outbox
      → OrderedPair (enqueue_pages env now round entries page contents db)
  unfolding enqueue_pages
  enqueue_pages-IsOrdered now round entries page [] db h = h
  enqueue_pages-IsOrdered now round entries page (content ∷ contents) db h =
      enqueue_pages-IsOrdered now round entries (page + 1) contents _
        (enqueue-IsOrdered env now round.channel_id leaderboard_publication _ db h)

  insert_reward-outbox :
      (now : ℕ) (round : RoundRow) (attempt : ℕ) (c : ContributionRow) (award : ℕ) (db : Database)
      → (insert_reward env now round attempt c award db).outbox ≡ db.outbox
  unfolding insert_reward insert_ledger
  insert_reward-outbox now round attempt c award db = ground arith

  insert_rewards-outbox :
      (now : ℕ) (round : RoundRow) (attempt : ℕ) (awards : List Count)
      (contributions : List ContributionRow) (db db' : Database)
      → insert_rewards env now round attempt awards contributions db ≡ ok db'
      → db'.outbox ≡ db.outbox
  unfolding insert_rewards
  insert_rewards-outbox now round attempt awards [] db db' h = ground arith
  insert_rewards-outbox now round attempt awards (c ∷ contributions) db db' h =
      let (award, found, h') = >>=-eq-ok (award_for awards c.player_id) _ h in
      insert_rewards-outbox now round attempt awards contributions
        (insert_reward env now round attempt c award db) db' h'
      ∙ insert_reward-outbox now round attempt c award db

  complete_round-IsOrdered :
      (now : ℕ) (round : RoundRow) (attempt : ℕ) (compiled : CompiledRound) (db : Database)
      (r : Database × List ℕ)
      → complete_round env now round attempt compiled db ≡ ok r
      → IsOrdered db.outbox
      → OrderedPair r
  unfolding complete_round close_completed audit
  complete_round-IsOrdered now round attempt compiled db r e h =
      let contributions = contributions_of db attempt in
      let (awards, awarded, e1) = >>=-eq-ok (participation_awards (counts_of contributions)) _ e in
      let (rewarded, inserted, e2) =
        >>=-eq-ok (insert_rewards env now round attempt awards contributions db) _ e1 in
      let (content, rendered, e3) =
        >>=-eq-ok (render_announcement completion compiled.announcements.completion_text no_values)
          _ e2 in
      subst OrderedPair (ok-injective e3) (
        enqueue_pages-IsOrdered now round _ 1 _ _ (
          enqueue-IsOrdered env now round.channel_id completion_announcement _ _ (
            subst IsOrdered
              (sym
                (insert_rewards-outbox now round attempt awards contributions db rewarded inserted))
              h)))

  enqueue_canonical-IsOrdered :
      (now channel : ℕ) (name digits : Text) (submission : ℕ) (db : Database)
      → IsOrdered db.outbox
      → IsOrdered (enqueue_canonical env now channel name digits submission db).1.outbox
  unfolding enqueue_canonical
  enqueue_canonical-IsOrdered now channel name digits submission db h =
      enqueue_parts-IsOrdered env now channel submission 1 _ db h

  set_round_state-outbox :
      (round : ℕ) (state : RoundState) (db : Database)
      → (set_round_state round state db).outbox ≡ db.outbox
  unfolding set_round_state
  set_round_state-outbox round state db = refl

  add_contribution-outbox :
      (attempt player points : ℕ) (db : Database)
      → (add_contribution attempt player points db).outbox ≡ db.outbox
  unfolding add_contribution
  add_contribution-outbox attempt player points db = ground arith

  pub ensure_player-outbox :
      (now player : ℕ) (name : Text) (db : Database)
      → (ensure_player now player name db).outbox ≡ db.outbox
  unfolding ensure_player
  ensure_player-outbox now player name db = ground arith

  charge_penalty-outbox :
      (k : Case) (attempt : ℕ) (severity : ℤ) (db : Database)
      → (charge_penalty env k attempt severity db).outbox ≡ db.outbox
  unfolding charge_penalty insert_ledger set_penalty
  charge_penalty-outbox k attempt severity db = ground arith

  require_attempt-outbox :
      (now round : ℕ) (attempt : Option AttemptRow) (db : Database)
      → (require_attempt env now round attempt db).1.outbox ≡ db.outbox
  unfolding require_attempt
  require_attempt-outbox now round none db = refl
  require_attempt-outbox now round (some attempt) db = refl

  record_accepted-IsOrdered :
      (k : Case) (attempt position points : ℕ) (db : Database)
      → IsOrdered db.outbox
      → OrderedPair (record_accepted env k attempt position points db)
  unfolding record_accepted audit insert_submission set_round_state
  record_accepted-IsOrdered k attempt position points db h =
      enqueue-IsOrdered env k.now k.round.channel_id delete_original _ _ (
        enqueue_canonical-IsOrdered k.now k.round.channel_id _ _ k.message.id _
          (subst IsOrdered (sym (add_contribution-outbox attempt k.message.author_id points _)) h))

  announce_bonus-IsOrdered :
      (k : Case) (points : ℕ) (queued r : Database × List ℕ)
      → announce_bonus env k points queued ≡ ok r
      → OrderedPair queued
      → OrderedPair r
  unfolding announce_bonus
  announce_bonus-IsOrdered k zero (db, ids) r e h = subst OrderedPair (ok-injective e) h
  announce_bonus-IsOrdered k (suc n) (db, ids) r e h =
      let (content, rendered, e') =
        >>=-eq-ok
          (render_announcement bonus k.round.compiled_config.announcements.bonus_text
            (bonus_values k.message.display_name (suc n)))
          _ e in
      subst OrderedPair (ok-injective e')
        (enqueue-IsOrdered env k.now k.round.channel_id bonus_announcement _ db h)

  finish_accepted-IsOrdered :
      (k : Case) (attempt : ℕ) (completes : Bool) (queued r : Database × List ℕ)
      → finish_accepted env k attempt completes queued ≡ ok r
      → OrderedPair queued
      → OrderedPair r
  unfolding finish_accepted
  finish_accepted-IsOrdered k attempt false (db, ids) r e h = subst OrderedPair (ok-injective e) h
  finish_accepted-IsOrdered k attempt true (db, ids) r e h =
      let (finished, finishing, e') =
        >>=-eq-ok (complete_round env k.now k.round attempt k.round.compiled_config db) _ e in
      let ordered : OrderedPair finished =
        complete_round-IsOrdered k.now k.round attempt k.round.compiled_config db finished finishing
          h in
      subst OrderedPair (ok-injective e') ordered

  pub accept_submission-IsOrdered :
      (k : Case) (position : ℕ) (ids : List Text) (completes : Bool) (db : Database)
      (r : Database × List ℕ)
      → accept_submission env k position ids completes db ≡ ok r
      → IsOrdered db.outbox
      → OrderedPair r
  unfolding accept_submission
  accept_submission-IsOrdered k position ids completes db r e h =
      let attempt = require_attempt env k.now k.round.id (active_attempt_of db k.round.id) db in
      let queued = record_accepted env k attempt.0 position (length ids) attempt.1 in
      let (announced, a, e') = >>=-eq-ok (announce_bonus env k (length ids) queued) _ e in
      finish_accepted-IsOrdered k attempt.0 completes announced r e' (
        announce_bonus-IsOrdered k (length ids) queued announced a (
          record_accepted-IsOrdered k attempt.0 position (length ids) attempt.1 (
            subst IsOrdered
              (sym (require_attempt-outbox k.now k.round.id (active_attempt_of db k.round.id) db))
              h)))

  announce_reset-IsOrdered :
      (k : Case) (deferred : Bool) (queued r : Database × List ℕ)
      → announce_reset env k deferred queued ≡ ok r
      → OrderedPair queued
      → OrderedPair r
  unfolding announce_reset
  announce_reset-IsOrdered k true (db, ids) r e h = subst OrderedPair (ok-injective e) h
  announce_reset-IsOrdered k false (db, ids) r e h =
      let (content, rendered, e') =
        >>=-eq-ok
          (render_announcement reset k.round.compiled_config.announcements.reset_text
            (start_values k.round.compiled_config.input.start_at))
          _ e in
      subst OrderedPair (ok-injective e')
        (enqueue-IsOrdered env k.now k.round.channel_id reset_announcement _ db h)

  record_broken-IsOrdered :
      (k : Case) (attempt : ℕ) (reason : BreakReason) (severity : ℤ) (db : Database)
      → IsOrdered db.outbox
      → OrderedPair (record_broken env k attempt reason severity db)
  unfolding record_broken audit insert_submission set_round_state break_attempt drop_contributions
  record_broken-IsOrdered k attempt reason severity db h =
      enqueue-IsOrdered env k.now k.round.channel_id delete_original _ _ (
        enqueue_canonical-IsOrdered k.now k.round.channel_id _ _ k.message.id _
          (subst IsOrdered (sym (charge_penalty-outbox k attempt severity _)) h))

  pub break_submission-IsOrdered :
      (k : Case) (deferred : Bool) (reason : BreakReason) (severity : ℤ) (db : Database)
      (r : Database × List ℕ)
      → break_submission env k deferred reason severity db ≡ ok r
      → IsOrdered db.outbox
      → OrderedPair r
  unfolding break_submission
  break_submission-IsOrdered k deferred reason severity db r e h =
      let (attempt, found, e') =
        >>=-eq-ok (or_throw (active_attempt_of db k.round.id) no_attempt) _ e in
      announce_reset-IsOrdered k deferred (record_broken env k attempt.id reason severity db) r e'
        (record_broken-IsOrdered k attempt.id reason severity db h)
