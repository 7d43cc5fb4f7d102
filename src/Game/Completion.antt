-- ===== src/Game/Completion.antt =====
-- GameService.completeRound: the rewards, the end of the round, and the publication.
use herald_of_jams.Base.{
  ℕ, suc, ◌+◌, not, List, [], ◌∷◌, ◌++◌, map, none, some, Text, ltb, ◌==◌, if◌then◌else◌, select,
  find?, update_where, Result, ok, throw, ◌>>=◌, constraint_failed,
}
use herald_of_jams.Base.Int.{ℤ, pos}
use herald_of_jams.Scoring.{Count, participation_awards}
use herald_of_jams.Announcements.{completion, AnnouncementValues, render_announcement}
use herald_of_jams.Rounds.{CompiledRound}
use herald_of_jams.Engine.{completed}
use herald_of_jams.Store.{
  Database, Environment, next_id, RoundRow, completed_attempt, ContributionRow, EntryType,
  participation, bonus_entry, SourceKey, participation_key, bonus_key, LeaderboardEntry,
  completion_announcement, leaderboard_publication, round_payload, leaderboard_payload,
  round_completed,
}
use herald_of_jams.Game.Outgoing.{audit, enqueue}
use herald_of_jams.Game.Leaderboard.{leaderboard, render_leaderboard}

-- The award that the map has for a player; the column is NOT NULL.
abbrev pub award_for : List Count → ℕ → Result ℕ
award_for awards player = elim (find? (λ (c : Count). c.0 == player) awards) [
  | none ↦ throw constraint_failed
  | some c ↦ ok c.1
]

unfoldable pub insert_ledger :
    Environment → ℕ → RoundRow → ℕ → ℕ → EntryType → ℤ → SourceKey → Database → Database
insert_ledger env now round attempt player type delta key db = record db {
  ledger =
      db.ledger
      ++ record {
        id = next_id env db;
        season_id = round.season_id;
        round_id = round.id;
        attempt_id = attempt;
        player_id = player;
        entry_type = type;
        delta = delta;
        source_key = key;
        created_at = now;
      }
        ∷ [];
  issued = suc db.issued;
}

-- The rewards of one contribution: its award, and its bonus points if it has any.
unfoldable pub insert_reward :
    Environment → ℕ → RoundRow → ℕ → ContributionRow → ℕ → Database → Database
insert_reward env now round attempt c award db =
    let player = c.player_id in
    let db =
      insert_ledger env now round attempt player participation (pos award)
        (participation_key round.id player) db in
    if ltb 0 c.bonus_points
    then insert_ledger env now round attempt player bonus_entry (pos c.bonus_points)
        (bonus_key round.id player) db
    else db

unfoldable pub insert_rewards :
    Environment → ℕ → RoundRow → ℕ → List Count → List ContributionRow → Database → Result Database
insert_rewards env now round attempt awards [] db = ok db
insert_rewards env now round attempt awards (c ∷ contributions) db = do
  award ← award_for awards c.player_id
  insert_rewards env now round attempt awards contributions
      (insert_reward env now round attempt c award db)

unfoldable pub enqueue_pages :
    Environment
    → ℕ
    → RoundRow
    → List LeaderboardEntry
    → ℕ
    → List Text
    → Database
    → Database × List ℕ
enqueue_pages env now round entries page [] db = (db, [])
enqueue_pages env now round entries page (content ∷ contents) db =
    let queued =
      enqueue env now round.channel_id leaderboard_publication
        (leaderboard_payload content round.id entries page) db in
    let rest = enqueue_pages env now round entries (page + 1) contents queued in
    (rest.0, next_id env db ∷ rest.1)

-- The rows that completion changes: the attempt, the round and its bans.
unfoldable pub close_completed : ℕ → RoundRow → ℕ → Database → Database
close_completed now round attempt db = record db {
  attempts =
      update_where (λ a. a.id == attempt)
        (λ a. record a { state = completed_attempt; ended_at = some now }) db.attempts;
  rounds =
      update_where (λ r. r.id == round.id)
        (λ r. record r { state = completed; completed_at = some now; paused_from_state = none })
        db.rounds;
  bans = select (λ b. not (b.round_id == round.id)) db.bans;
}

abbrev pub contributions_of : Database → ℕ → List ContributionRow
contributions_of db attempt = select (λ c. c.attempt_id == attempt) db.contributions

abbrev pub counts_of : List ContributionRow → List Count
counts_of = map (λ (c : ContributionRow). (c.player_id, c.accepted_count))

abbrev pub no_values : AnnouncementValues
no_values = record { player_value = none; bonus_points_value = none; start_value = none }

unfoldable pub complete_round :
    Environment → ℕ → RoundRow → ℕ → CompiledRound → Database → Result (Database × List ℕ)
complete_round env now round attempt compiled db = do
  let contributions = contributions_of db attempt
  awards ← participation_awards (counts_of contributions)
  rewarded ← insert_rewards env now round attempt awards contributions db
  let closed = close_completed now round attempt rewarded
  let entries = leaderboard env closed
  content ← render_announcement completion compiled.announcements.completion_text no_values
  let announced =
      enqueue env now round.channel_id completion_announcement (round_payload content round.id)
        closed
  let published = enqueue_pages env now round entries 1 (render_leaderboard entries) announced
  ok (
    audit env now (round_completed attempt) (some round.id) none published.0,
    next_id env closed ∷ published.1,
  )
