-- ===== src/Game/Leaderboard.antt =====
-- GameRepository.leaderboard, and renderLeaderboard of GameService.
use herald_of_jams.Base.{
  ℕ, suc, ◌+◌, Bool, true, false, not, ◌&&◌, ◌||◌, List, [], ◌∷◌, ◌++◌, map, Option, none, some,
  Text, codes, ltb, ◌==◌, if◌then◌else◌, length, take, any, select,
}
use herald_of_jams.Base.Int.{ℤ, pos, negsuc, sum_ℤ, ltb_ℤ}
use herald_of_jams.Numeric.{decimal}
use herald_of_jams.Store.{Database, Environment, LedgerRow, PlayerRow, SeasonRow, LeaderboardEntry}

abbrev is_open : Option ℕ → Bool
is_open none = true
is_open (some end) = false

-- JOIN seasons ON seasons.id = ledger.season_id AND seasons.ended_at IS NULL
abbrev pub in_season : List SeasonRow → LedgerRow → Bool
in_season seasons row = any (λ s. s.id == row.season_id && is_open s.ended_at) seasons

abbrev pub rows_of : Database → ℕ → List LedgerRow
rows_of db player = select (λ row. row.player_id == player && in_season db.seasons row) db.ledger

-- GROUP BY player: a player with no row has no group.
unfoldable pub totals : Database → List PlayerRow → List LeaderboardEntry
totals db [] = []
totals db (p ∷ players) = elim (rows_of db p.discord_user_id) [
  | [] ↦ totals db players
  | row ∷ rows ↦
      record {
        player_id = p.discord_user_id;
        display_name = p.latest_display_name;
        total = sum_ℤ (map (λ (r : LedgerRow). r.delta) (row ∷ rows));
      }
      ∷ totals db players
]

-- ORDER BY total DESC, display name, id
abbrev pub ranks_before : Environment → LeaderboardEntry → LeaderboardEntry → Bool
ranks_before env a b = ltb_ℤ b.total a.total || not (ltb_ℤ a.total b.total) && env.named_before a b

unfoldable pub rank_in :
    Environment → LeaderboardEntry → List LeaderboardEntry → List LeaderboardEntry
rank_in env e [] = e ∷ []
rank_in env e (x ∷ xs) = if ranks_before env e x then e ∷ x ∷ xs else x ∷ rank_in env e xs

unfoldable pub ranked : Environment → List LeaderboardEntry → List LeaderboardEntry
ranked env [] = []
ranked env (e ∷ es) = rank_in env e (ranked env es)

unfoldable pub leaderboard : Environment → Database → List LeaderboardEntry
leaderboard env db = ranked env (totals db db.players)

-- String(total)
abbrev pub signed : ℤ → Text
signed (pos n) = decimal n
signed (negsuc n) = b'-' ∷ decimal (suc n)

unfoldable pub leaderboard_line : ℕ → LeaderboardEntry → Text
leaderboard_line index entry = take 1975 (
    decimal (index + 1)
    ++ (codes ". " ++ (entry.display_name ++ (codes ": " ++ signed entry.total))))

abbrev pub newline : ℕ
newline = 10

-- The loop over the entries: `page` is being filled, the result holds the pages from it on.
unfoldable pub pages_from : Text → ℕ → List LeaderboardEntry → List Text
pages_from page index [] = page ∷ []
pages_from page index (entry ∷ entries) =
    let line = leaderboard_line index entry in
    let joined = page ++ (newline ∷ line) in
    let next_page = page ∷ pages_from line (index + 1) entries in
    let same_page = pages_from joined (index + 1) entries in
    if ltb 2000 (length joined) then next_page else same_page

unfoldable pub render_leaderboard : List LeaderboardEntry → List Text
render_leaderboard [] = codes "The seasonal leaderboard is empty." ∷ []
render_leaderboard (entry ∷ entries) = pages_from (codes "Season leaderboard") 0 (entry ∷ entries)
