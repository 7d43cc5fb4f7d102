-- ===== src/Game/Control.antt =====
-- The transactions of GameService that an administrator starts. The actor of an audit event is an
-- optional id.
use herald_of_jams.Base.{
  ℕ, suc, Bool, not, ◌&&◌, [], ◌∷◌, ◌++◌, map, Option, none, some, Text, ◌==◌, if◌then◌else◌, any,
  select, find?, is_some, length, update_where, Result, ok, or_throw, throw_if, ◌>>=◌, ◌>>◌,
  no_active_round, active_round_exists, unsettled_terminal_round, template_not_found,
  settings_not_found,
}
use herald_of_jams.Base.Int.{pos, sum_ℤ, ◌-ℤ◌}
use herald_of_jams.Announcements.{start, cancellation, render_announcement}
use herald_of_jams.Rounds.{CompiledRound, CompiledEntry, compile_round, start_values}
use herald_of_jams.Engine.{
  waiting_for_start, cancelled, EngineState, pause_round, resume_round, cancel_round,
}
use herald_of_jams.Store.{
  Database, Environment, next_id, SeasonRow, RoundRow, CompiledEntryRow, AttemptRow,
  cancelled_attempt, BanRow, LedgerRow, is_penalty, start_announcement, cancellation_announcement,
  round_payload, round_activated, round_paused, round_resumed, round_cancelled, player_banned,
  player_unbanned, season_reset, is_ended, active_round, active_attempt_of,
}
use herald_of_jams.Game.Outgoing.{audit, enqueue, ensure_player}
use herald_of_jams.Game.Completion.{no_values}

unfoldable pub require_active_round : Database → Result RoundRow
require_active_round db = or_throw (active_round db) no_active_round

-- state IN ('completed', 'cancelled') AND operationally_settled_at IS NULL
abbrev is_unsettled : RoundRow → Bool
is_unsettled r = is_ended r.state && not (is_some r.operationally_settled_at)

unfoldable pub assert_no_unsettled_terminal_round : Database → Result (Unit {0})
assert_no_unsettled_terminal_round db =
    throw_if (any is_unsettled db.rounds) unsettled_terminal_round

abbrev pub is_open_season : SeasonRow → Bool
is_open_season s = not (is_some s.ended_at)

unfoldable pub open_season : Environment → ℕ → Database → ℕ × Database
open_season env now db = (
  next_id env db,
  record db {
    seasons = db.seasons ++ record { id = next_id env db; started_at = now; ended_at = none } ∷ [];
    issued = suc db.issued;
  },
)

unfoldable pub ensure_season : Environment → ℕ → Database → ℕ × Database
ensure_season env now db = elim (find? is_open_season db.seasons) [
  | none ↦ open_season env now db
  | some s ↦ (s.id, db)
]

abbrev entry_row : ℕ → CompiledEntry → CompiledEntryRow
entry_row round e = record {
  round_id = round;
  position = e.position;
  value = e.value;
  bonus_rule_ids = e.bonus_rule_ids;
}

-- INSERT INTO rounds, and the compiled entries. The id of the round comes first.
unfoldable pub insert_round : Environment → ℕ → ℕ → ℕ → ℕ → CompiledRound → Database → ℕ × Database
insert_round env now template season channel compiled db =
    let id = next_id env db in
    (
      id,
      record db {
        rounds =
            db.rounds
            ++ record {
              id = id;
              template_id = template;
              season_id = season;
              channel_id = channel;
              state = waiting_for_start;
              paused_from_state = none;
              compiled_config = compiled;
              activated_at = now;
              completed_at = none;
              cancelled_at = none;
              operationally_settled_at = none;
            }
              ∷ [];
        compiled_entries = db.compiled_entries ++ map (entry_row id) compiled.entries;
        issued = suc db.issued;
      },
    )

unfoldable pub activate_round : Environment → ℕ → ℕ → Database → Result (ℕ × Database)
activate_round env now template db = do
  throw_if (is_some (active_round db)) active_round_exists
  assert_no_unsettled_terminal_round db
  row ← or_throw (find? (λ t. t.id == template) db.templates) template_not_found
  defaults ← or_throw db.announcement_settings settings_not_found
  compiled ← compile_round row.input defaults
  let season = ensure_season env now db
  let inserted = insert_round env now template season.0 row.input.channel_id compiled season.1
  content ←
      render_announcement start compiled.announcements.start_text
        (start_values compiled.input.start_at)
  let announced =
      enqueue env now row.input.channel_id start_announcement (round_payload content inserted.0)
        inserted.1
  ok (inserted.0, audit env now (round_activated template) (some inserted.0) none announced)

-- The state that pausing, resuming and cancelling hand to the engine.
abbrev pub bare_state : RoundRow → EngineState
bare_state round = record {
  round_state = round.state;
  paused_from = round.paused_from_state;
  next_position = 0;
  previous_accepted_player_id = none;
  accepted_count = 0;
  banned_player_ids = [];
}

-- UPDATE rounds SET state = …, paused_from_state = … WHERE id = …
unfoldable pub store_state : ℕ → EngineState → Database → Database
store_state round state db = record db {
  rounds =
      update_where (λ r. r.id == round)
        (λ r. record r { state = state.round_state; paused_from_state = state.paused_from })
        db.rounds;
}

unfoldable pub pause_active : Environment → ℕ → Option ℕ → Database → Result Database
pause_active env now actor db = do
  round ← require_active_round db
  state ← pause_round (bare_state round)
  ok (audit env now round_paused (some round.id) actor (store_state round.id state db))

unfoldable pub resume_active : Environment → ℕ → Option ℕ → Database → Result Database
resume_active env now actor db = do
  round ← require_active_round db
  state ← resume_round (bare_state round)
  ok (audit env now round_resumed (some round.id) actor (store_state round.id state db))

-- DELETE FROM attempt_contributions, and UPDATE attempts, for the active attempt if there is one.
unfoldable pub cancel_attempt : ℕ → Option AttemptRow → Database → Database
cancel_attempt now none db = db
cancel_attempt now (some attempt) db = record db {
  contributions = select (λ c. not (c.attempt_id == attempt.id)) db.contributions;
  attempts =
      update_where (λ a. a.id == attempt.id)
        (λ a. record a { state = cancelled_attempt; ended_at = some now }) db.attempts;
}

abbrev pub is_round_penalty : ℕ → LedgerRow → Bool
is_round_penalty round row = row.round_id == round && is_penalty row.entry_type

-- The ledger, the worst severities and the bans of the round, and its state.
unfoldable pub discard_round : ℕ → ℕ → Database → Database
discard_round now round db = record db {
  ledger = select (λ row. not (is_round_penalty round row)) db.ledger;
  penalties = select (λ p. not (p.round_id == round)) db.penalties;
  rounds =
      update_where (λ r. r.id == round)
        (λ r. record r { state = cancelled; cancelled_at = some now; paused_from_state = none })
        db.rounds;
  bans = select (λ b. not (b.round_id == round)) db.bans;
}

unfoldable pub cancel_active : Environment → ℕ → Option ℕ → Database → Result Database
cancel_active env now actor db = do
  round ← require_active_round db
  state ← cancel_round (bare_state round)
  let discarded = select (is_round_penalty round.id) db.ledger
  let points = pos 0 -ℤ sum_ℤ (map (λ (row : LedgerRow). row.delta) discarded)
  content ←
      render_announcement cancellation round.compiled_config.announcements.cancellation_text
        no_values
  let ended = discard_round now round.id (cancel_attempt now (active_attempt_of db round.id) db)
  let announced =
      enqueue env now round.channel_id cancellation_announcement (round_payload content round.id)
        ended
  ok (audit env now (round_cancelled (length discarded) points) (some round.id) actor announced)

-- INSERT INTO round_bans … ON CONFLICT DO NOTHING
unfoldable pub insert_ban : ℕ → ℕ → ℕ → Database → Database
insert_ban now round player db =
    if any (λ (b : BanRow). b.round_id == round && b.player_id == player) db.bans
    then db
    else record db {
      bans = db.bans ++ record { round_id = round; player_id = player; banned_at = now } ∷ [];
    }

unfoldable pub ban_player : Environment → ℕ → ℕ → Text → ℕ → Database → Result Database
ban_player env now player name actor db = do
  round ← require_active_round db
  ok (
      audit env now (player_banned player) (some round.id) (some actor)
        (insert_ban now round.id player (ensure_player now player name db)))

unfoldable pub delete_ban : ℕ → ℕ → Database → Database
delete_ban round player db = record db {
  bans = select (λ b. not (b.round_id == round && b.player_id == player)) db.bans;
}

unfoldable pub unban_player : Environment → ℕ → ℕ → ℕ → Database → Result Database
unban_player env now player actor db = do
  round ← require_active_round db
  ok (
      audit env now (player_unbanned player) (some round.id) (some actor)
        (delete_ban round.id player db))

unfoldable pub close_seasons : ℕ → Database → Database
close_seasons now db = record db {
  seasons = update_where is_open_season (λ s. record s { ended_at = some now }) db.seasons;
}

unfoldable pub reset_season : Environment → ℕ → Option ℕ → Database → Result (ℕ × Database)
reset_season env now actor db = do
  throw_if (is_some (active_round db)) active_round_exists
  assert_no_unsettled_terminal_round db
  let opened = open_season env now (close_seasons now db)
  ok (opened.0, audit env now (season_reset opened.0) none actor opened.1)
