-- ===== src/Discord/Escaping.antt =====
-- escapeDiscordText of src/discord/discord-adapter.ts, and how Discord reads a text.
use herald_of_jams.Base.{
  ℕ, Bool, ◌||◌, [], ◌∷◌, Option, none, some, Text, codes, ◌==◌, if◌then◌else◌, contains,
}
use herald_of_jams.Discord.Pages.{backslash, at_sign, zero_width_space}

-- The characters that format a text.
abbrev pub formats : ℕ → Bool
formats = contains (codes "_*~`>|")

abbrev pub shows : ℕ → Option Text → Option Text
shows a none = none
shows a (some t) = some (a ∷ t)

-- What a reader of a text sees, if the text is plain: a backslash shows the next character, and the
-- space of no width after an at sign does not show. A text is not plain if a character that formats
-- has no backslash before it, if an at sign may begin a mention, or if a backslash has nothing to
-- show.
unfoldable pub shown : Text → Option Text
shown [] = some []
shown (a ∷ []) = if a == backslash || a == at_sign || formats a then none else some (a ∷ [])
shown (a ∷ b ∷ t) =
    let rest = shown t in
    let from = shown (b ∷ t) in
    if a == backslash
    then shows b rest
    else if a == at_sign
    then (if b == zero_width_space then shows a rest else none)
    else if formats a
    then none
    else shows a from
