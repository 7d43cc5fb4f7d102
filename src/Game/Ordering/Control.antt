-- ===== src/Game/Ordering/Control.antt =====
-- The order of the outbox, under the transactions of src/application/game-service.ts that an
-- administrator starts.
use herald_of_jams.Base.{
  ℕ, Option, none, some, Text, ◌==◌, find?, is_some, ok, or_throw, throw_if, active_round_exists,
  template_not_found, settings_not_found,
}
use herald_of_jams.Announcements.{start, cancellation, render_announcement}
use herald_of_jams.Rounds.{CompiledRound, compile_round, start_values}
use herald_of_jams.Engine.{cancel_round}
use herald_of_jams.Store.{
  Database, Environment, TemplateRow, AttemptRow, start_announcement, cancellation_announcement,
  round_payload, active_round, active_attempt_of,
}
use herald_of_jams.Game.Outgoing.{audit, enqueue, ensure_player}
use herald_of_jams.Base.{◌≡◌, refl, sym, subst, arith, >>=-eq-ok, ok-injective}
use herald_of_jams.Game.Completion.{no_values}
use herald_of_jams.Game.Control.{
  require_active_round, assert_no_unsettled_terminal_round, open_season, ensure_season,
  insert_round, activate_round, bare_state, store_state, pause_active, resume_active,
  cancel_attempt, discard_round, cancel_active, insert_ban, ban_player, delete_ban, unban_player,
  close_seasons, reset_season,
}
use herald_of_jams.Game.Ordering.{IsOrdered, enqueue-IsOrdered}

module _ (env : Environment) (now : ℕ) (db : Database) where
  pub pause_active-outbox :
      (actor : Option ℕ) (db' : Database)
      → pause_active env now actor db ≡ ok db'
      → db'.outbox ≡ db.outbox
  unfolding pause_active store_state audit
  pause_active-outbox actor db' e = ground arith

  pub resume_active-outbox :
      (actor : Option ℕ) (db' : Database)
      → resume_active env now actor db ≡ ok db'
      → db'.outbox ≡ db.outbox
  unfolding resume_active store_state audit
  resume_active-outbox actor db' e = ground arith

  pub ban_player-outbox :
      (player : ℕ) (name : Text) (actor : ℕ) (db' : Database)
      → ban_player env now player name actor db ≡ ok db'
      → db'.outbox ≡ db.outbox
  unfolding ban_player insert_ban ensure_player audit
  ban_player-outbox player name actor db' e = ground arith

  pub unban_player-outbox :
      (player actor : ℕ) (db' : Database)
      → unban_player env now player actor db ≡ ok db'
      → db'.outbox ≡ db.outbox
  unfolding unban_player delete_ban audit
  unban_player-outbox player actor db' e = ground arith

  pub reset_season-outbox :
      (actor : Option ℕ) (season : ℕ) (db' : Database)
      → reset_season env now actor db ≡ ok (season, db')
      → db'.outbox ≡ db.outbox
  unfolding reset_season open_season close_seasons audit
  reset_season-outbox actor season db' e = ground arith

  cancel_attempt-outbox :
      (attempt : Option AttemptRow) → (cancel_attempt now attempt db).outbox ≡ db.outbox
  unfolding cancel_attempt
  cancel_attempt-outbox none = refl
  cancel_attempt-outbox (some attempt) = refl

  pub cancel_active-IsOrdered :
      (actor : Option ℕ) (db' : Database)
      → cancel_active env now actor db ≡ ok db'
      → IsOrdered db.outbox
      → IsOrdered db'.outbox
  unfolding cancel_active audit discard_round
  cancel_active-IsOrdered actor db' e h =
      let (round, found, e1) = >>=-eq-ok (require_active_round db) _ e in
      let (state, changed, e2) = >>=-eq-ok (cancel_round (bare_state round)) _ e1 in
      let (content, rendered, e3) =
        >>=-eq-ok
          (render_announcement cancellation round.compiled_config.announcements.cancellation_text
            no_values)
          _ e2 in
      subst (λ (d : Database). IsOrdered d.outbox) (ok-injective e3)
        (enqueue-IsOrdered env now round.channel_id cancellation_announcement _ _
          (subst IsOrdered (sym (cancel_attempt-outbox (active_attempt_of db round.id))) h))

  ensure_season-outbox : (ensure_season env now db).1.outbox ≡ db.outbox
  unfolding ensure_season open_season
  ensure_season-outbox = ground arith

  activated :
      (template : ℕ) (row : TemplateRow) (compiled : CompiledRound) (content : Text)
      → IsOrdered db.outbox
      → IsOrdered
          (enqueue env now row.input.channel_id start_announcement
            (round_payload content
              (insert_round env now template
                (ensure_season env now db).0
                row.input.channel_id
                compiled
                (ensure_season env now db).1).0)
            (insert_round env now template
              (ensure_season env now db).0
              row.input.channel_id
              compiled
              (ensure_season env now db).1).1).outbox
  unfolding insert_round
  activated template row compiled content h =
      enqueue-IsOrdered env now row.input.channel_id start_announcement _ _
        (subst IsOrdered (sym ensure_season-outbox) h)

  pub activate_round-IsOrdered :
      (template round : ℕ) (db' : Database)
      → activate_round env now template db ≡ ok (round, db')
      → IsOrdered db.outbox
      → IsOrdered db'.outbox
  unfolding activate_round audit
  activate_round-IsOrdered template round db' e h =
      let (_, idle, e1) =
        >>=-eq-ok (throw_if (is_some (active_round db)) active_round_exists) _ e in
      let (_, settled, e2) = >>=-eq-ok (assert_no_unsettled_terminal_round db) _ e1 in
      let (row, found, e3) =
        >>=-eq-ok (or_throw (find? (λ t. t.id == template) db.templates) template_not_found) _ e2 in
      let (defaults, set, e4) =
        >>=-eq-ok (or_throw db.announcement_settings settings_not_found) _ e3 in
      let (compiled, done, e5) = >>=-eq-ok (compile_round row.input defaults) _ e4 in
      let (content, rendered, e6) =
        >>=-eq-ok
          (render_announcement start compiled.announcements.start_text
            (start_values compiled.input.start_at))
          _ e5 in
      subst (λ (p : ℕ × Database). IsOrdered p.1.outbox) (ok-injective e6)
        (activated template row compiled content h)
