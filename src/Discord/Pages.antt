-- ===== src/Discord/Pages.antt =====
-- escapeDiscordText and leaderboardPages of src/discord/discord-adapter.ts.
use herald_of_jams.Base.{
  ℕ, suc, ◌+◌, ◌≤◌, ◌≡◌, refl, ap, ◌∙◌, arith, Bool, ◌||◌, Bool-cases, inl, inr, List, [], ◌∷◌,
  ◌++◌, append_assoc, Text, codes, ltb, ◌==◌, if◌then◌else◌, length, length-take, take, All,
}
use herald_of_jams.Numeric.{decimal}
use herald_of_jams.Store.{LeaderboardEntry}
use herald_of_jams.Game.Leaderboard.{signed, newline}

abbrev pub backslash : ℕ
backslash = b'\\'

abbrev pub at_sign : ℕ
at_sign = b'@'

abbrev pub zero_width_space : ℕ
zero_width_space = 8203

-- String.prototype.replaceAll, of a text of one code unit.
unfoldable pub replace_all : ℕ → Text → Text → Text
replace_all c by [] = []
replace_all c by (a ∷ t) = (if a == c then by else a ∷ []) ++ replace_all c by t

-- [\_*~`>|]
abbrev pub is_markdown : ℕ → Bool
is_markdown c = c == b'_' || c == b'*' || c == b'~' || c == b'`' || c == b'>' || c == b'|'

-- .replace(/[\_*~`>|]/g, "\\$&")
unfoldable pub escape_markdown : Text → Text
escape_markdown [] = []
escape_markdown (a ∷ t) =
    (if is_markdown a then backslash ∷ a ∷ [] else a ∷ []) ++ escape_markdown t

unfoldable pub escape_discord_text : Text → Text
escape_discord_text value = escape_markdown (
    replace_all at_sign (at_sign ∷ zero_width_space ∷ [])
      (replace_all backslash (backslash ∷ backslash ∷ []) value))

-- A line of the leaderboard, which `slice` cuts off.
unfoldable pub escaped_line : ℕ → LeaderboardEntry → Text
escaped_line index entry = take 1975 (
    decimal (index + 1)
    ++ (codes ". "
        ++ (escape_discord_text entry.display_name ++ (codes ": " ++ signed entry.total))))

unfoldable pub escaped_lines : ℕ → List LeaderboardEntry → List Text
escaped_lines index [] = []
escaped_lines index (entry ∷ entries) = escaped_line index entry ∷ escaped_lines (suc index) entries

-- The loop over the lines: `page` is being filled, the result holds the pages from it on.
unfoldable pub fill_pages : Text → List Text → List Text
fill_pages page [] = page ∷ []
fill_pages page (line ∷ lines) =
    let next_page = page ∷ fill_pages line lines in
    let same_page = fill_pages (page ++ newline ∷ line) lines in
    if ltb 2000 (length (page ++ newline ∷ line)) then next_page else same_page

unfoldable pub leaderboard_pages : List LeaderboardEntry → List Text
leaderboard_pages [] = codes "The seasonal leaderboard is empty." ∷ []
leaderboard_pages (entry ∷ entries) =
    fill_pages (codes "Season leaderboard") (escaped_lines 0 (entry ∷ entries))

abbrev pub FitsMessage : Text → Type 0
FitsMessage page = length page ≤ 2000

-- The lines, each after a line break.
abbrev pub broken_lines : List Text → Text
broken_lines [] = []
broken_lines (line ∷ lines) = newline ∷ line ++ broken_lines lines

fill_pages-fit :
    (page : Text) (lines : List Text)
    → length page ≤ 2000
    → All (λ line. length line ≤ 1975) lines
    → All FitsMessage (fill_pages page lines)
unfolding fill_pages
fill_pages-fit page [] h a = (h, tt)
fill_pages-fit page (line ∷ lines) h a =
    elim (Bool-cases (ltb 2000 (length (page ++ newline ∷ line)))) [
      | inl full ↦ rw (All, full) (h, fill_pages-fit line lines (omega (arith, a.0)) a.1)
      | inr room ↦ rw (All, room) (fill_pages-fit (page ++ newline ∷ line) lines (ground arith) a.1)
    ]

fill_pages-joined :
    (page : Text) (lines : List Text)
    → broken_lines (fill_pages page lines) ≡ newline ∷ page ++ broken_lines lines
unfolding fill_pages
fill_pages-joined page [] = refl
fill_pages-joined page (line ∷ lines) =
    elim (Bool-cases (ltb 2000 (length (page ++ newline ∷ line)))) [
      | inl full ↦ rw full (ap (λ t. newline ∷ page ++ t) (fill_pages-joined line lines))
      | inr room ↦ rw room (
          fill_pages-joined (page ++ newline ∷ line) lines
          ∙ ap (◌∷◌ newline) (append_assoc page (newline ∷ line) (broken_lines lines)))
    ]

escaped_lines-fit :
    (index : ℕ) (entries : List LeaderboardEntry)
    → All (λ line. length line ≤ 1975) (escaped_lines index entries)
unfolding escaped_lines escaped_line
escaped_lines-fit index [] = tt
escaped_lines-fit index (entry ∷ entries) =
    (omega (arith, length-take {A = ℕ}), escaped_lines-fit (suc index) entries)

-- Each page of a leaderboard with entries fits into one message, and the pages, one after the
-- other, are the title and the line of each entry in order.
pub leaderboard_pages-fit :
    (entry : LeaderboardEntry) (entries : List LeaderboardEntry)
    → (All FitsMessage (leaderboard_pages (entry ∷ entries)))
      × (broken_lines (leaderboard_pages (entry ∷ entries))
          ≡ newline ∷ codes "Season leaderboard"
            ++ broken_lines (escaped_lines 0 (entry ∷ entries)))
unfolding leaderboard_pages
leaderboard_pages-fit entry entries = (
  fill_pages-fit (codes "Season leaderboard") _ (omega arith)
      (escaped_lines-fit 0 (entry ∷ entries)),
  fill_pages-joined (codes "Season leaderboard") (escaped_lines 0 (entry ∷ entries)),
)
