-- ===== src/Announcements.antt =====
-- src/domain/announcement-templates.ts and the announcement types of src/domain/types.ts. A regular
-- expression of the source that removes or replaces `{…}` is a scan of the text.
pub mod Tokens
pub mod Rendering
pub mod Resolution
use herald_of_jams.Base.{
  ℕ, zero, suc, ◌+◌, Bool, true, false, not, ◌&&◌, ◌||◌, List, [], ◌∷◌, ◌++◌, Option, none, some,
  Text, codes, leb, ltb, ◌==◌, if◌then◌else◌, length, any, is_empty, text_eq, Result, ok, throw,
  throw_if, ◌>>=◌, ◌>>◌, Error, empty_announcement, announcement_too_long, invalid_placeholder,
  unmatched_brace, missing_value, rendered_too_long, or_throw,
}
use herald_of_jams.Numeric.{decimal}

abbrev pub max_announcement_template_length : ℕ
max_announcement_template_length = 1900

abbrev pub max_discord_message_length : ℕ
max_discord_message_length = 2000

pub data AnnouncementKind : Type 0 where
  start bonus reset completion cancellation : AnnouncementKind

pub record AnnouncementTemplates : Type 0 where
  pub start_text : Text
  pub bonus_text : Text
  pub reset_text : Text
  pub completion_text : Text
  pub cancellation_text : Text

pub record AnnouncementOverrides : Type 0 where
  pub start_override : Option Text
  pub bonus_override : Option Text
  pub reset_override : Option Text
  pub completion_override : Option Text
  pub cancellation_override : Option Text

abbrev pub no_overrides : AnnouncementOverrides
no_overrides = record {
  start_override = none;
  bonus_override = none;
  reset_override = none;
  completion_override = none;
  cancellation_override = none;
}

abbrev pub default_announcements : AnnouncementTemplates
default_announcements = record {
  start_text = codes "A new round has started. Begin at {start}.";
  bonus_text = codes "{player} earned {bonusPoints} provisional bonus points.";
  reset_text =
      codes
        "The attempt was reset. Provisional rewards were discarded; penalties remain. Start again at {start}.";
  completion_text = codes "The round is complete. Final rewards have been recorded.";
  cancellation_text =
      codes "The round was cancelled. All provisional rewards and round penalties were discarded.";
}

abbrev pub template_of : AnnouncementTemplates → AnnouncementKind → Text
template_of t start = t.start_text
template_of t bonus = t.bonus_text
template_of t reset = t.reset_text
template_of t completion = t.completion_text
template_of t cancellation = t.cancellation_text

abbrev pub override_of : AnnouncementOverrides → AnnouncementKind → Option Text
override_of t start = t.start_override
override_of t bonus = t.bonus_override
override_of t reset = t.reset_override
override_of t completion = t.completion_override
override_of t cancellation = t.cancellation_override

abbrev pub start_word : Text
start_word = codes "start"

abbrev pub player_word : Text
player_word = codes "player"

abbrev pub bonus_points_word : Text
bonus_points_word = codes "bonusPoints"

abbrev pub allowed_placeholders : AnnouncementKind → List Text
allowed_placeholders start = start_word ∷ []
allowed_placeholders bonus = player_word ∷ bonus_points_word ∷ []
allowed_placeholders reset = start_word ∷ []
allowed_placeholders completion = []
allowed_placeholders cancellation = []

-- A template cut at the matches of /\{([^{}]*)\}/g: single code units, and placeholders.
pub data Piece : Type 0 where
  unit : ℕ → Piece
  placeholder : Text → Piece

abbrev longer : ℕ → Option (Text × Text) → Option (Text × Text)
longer c none = none
longer c (some (word, after)) = some (c ∷ word, after)

-- /([^{}]*)\}/ at the front of a text: the units before the brace, and what follows it.
unfoldable pub closing : Text → Option (Text × Text)
closing [] = none
closing (c ∷ s) =
    if c == b'}' then some ([], s) else if c == b'{' then none else longer c (closing s)

-- The matches from left to right; a `{` with no match is a unit. The fuel is the length of the
-- text: each round takes at least one code unit.
unfoldable pub pieces_from : ℕ → Text → List Piece
pieces_from zero s = []
pieces_from (suc f) [] = []
pieces_from (suc f) (c ∷ s) =
    let plain = unit c ∷ pieces_from f s in
    let token : List Piece = elim (closing s) [
      | none ↦ plain
      | some (word, after) ↦ placeholder word ∷ pieces_from f after
    ] in
    if c == b'{' then token else plain

unfoldable pub pieces : Text → List Piece
unfolding closing pieces_from
pieces s = pieces_from (length s) s

abbrev is_allowed : AnnouncementKind → Text → Bool
is_allowed kind word =
    not (is_empty word) && any (λ allowed. text_eq allowed word) (allowed_placeholders kind)

-- The callback of `replace`, at each match in turn.
abbrev bad_placeholder : AnnouncementKind → Piece → Bool
bad_placeholder kind (unit c) = false
bad_placeholder kind (placeholder word) = not (is_allowed kind word)

-- /[{}]/ on what is left without the placeholders.
abbrev is_brace : Piece → Bool
is_brace (unit c) = c == b'{' || c == b'}'
is_brace (placeholder word) = false

unfoldable pub validate_template : AnnouncementKind → Text → Result (Unit {0})
validate_template kind template = do
  throw_if (is_empty template) empty_announcement
  throw_if (ltb max_announcement_template_length (length template)) announcement_too_long
  throw_if (any (bad_placeholder kind) (pieces template)) invalid_placeholder
  throw_if (any is_brace (pieces template)) unmatched_brace

-- override === undefined || override.length === 0 ? defaults[kind] : override
abbrev pub effective : Option Text → Text → Text
effective none default = default
effective (some []) default = default
effective (some (c ∷ s)) default = c ∷ s

unfoldable pub resolve_kind :
    AnnouncementTemplates → AnnouncementOverrides → AnnouncementKind → Result Text
resolve_kind defaults overrides kind = do
  validate_template kind (template_of defaults kind)
  let value = effective (override_of overrides kind) (template_of defaults kind)
  validate_template kind value
  ok value

unfoldable pub resolve_announcements :
    AnnouncementTemplates → AnnouncementOverrides → Result AnnouncementTemplates
resolve_announcements defaults overrides = do
  s ← resolve_kind defaults overrides start
  b ← resolve_kind defaults overrides bonus
  r ← resolve_kind defaults overrides reset
  c ← resolve_kind defaults overrides completion
  x ← resolve_kind defaults overrides cancellation
  ok (record {
    start_text = s;
    bonus_text = b;
    reset_text = r;
    completion_text = c;
    cancellation_text = x;
  })

pub record AnnouncementValues : Type 0 where
  pub player_value : Option Text
  pub bonus_points_value : Option ℕ
  pub start_value : Option ℕ

-- values[placeholder], printed by String.
unfoldable pub value_of : AnnouncementValues → Text → Option Text
value_of values word =
    if text_eq start_word word
    then elim values.start_value [ none ↦ none | some n ↦ some (decimal n) ]
    else if text_eq player_word word
    then values.player_value
    else if text_eq bonus_points_word word
    then elim values.bonus_points_value [ none ↦ none | some n ↦ some (decimal n) ]
    else none

-- template.replace(/\{([^{}]+)\}/g, …): an empty placeholder is kept as it is.
unfoldable pub render_pieces : AnnouncementValues → List Piece → Result Text
render_pieces values [] = ok []
render_pieces values (unit c ∷ ps) = do rest ← render_pieces values ps; ok (c ∷ rest)
render_pieces values (placeholder [] ∷ ps) = do
  rest ← render_pieces values ps
  ok (b'{' ∷ b'}' ∷ rest)
render_pieces values (placeholder (w ∷ word) ∷ ps) = do
  value ← or_throw (value_of values (w ∷ word)) missing_value
  rest ← render_pieces values ps
  ok (value ++ rest)

unfoldable pub render_announcement : AnnouncementKind → Text → AnnouncementValues → Result Text
render_announcement kind template values = do
  validate_template kind template
  rendered ← render_pieces values (pieces template)
  throw_if (ltb max_discord_message_length (length rendered)) rendered_too_long
  ok rendered
