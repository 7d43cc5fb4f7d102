-- ===== src/Announcements/Rendering.antt =====
-- Validation and rendering in src/domain/announcement-templates.ts: what one means for the other.
use herald_of_jams.Base.{
  ℕ, ◌≤◌, ◌≡◌, refl, Bool, true, false, not, ◌&&◌, inl, inr, Bool-cases, Option-cases, List, [],
  ◌∷◌, ◌++◌, some, Text, ltb, length, any, arith, text_eq, text_eq→eq, ◌||◌, is_empty, is_some, ok,
  throw, rendered_too_long, if◌then◌else◌,
}
use herald_of_jams.Numeric.{decimal}
use herald_of_jams.Announcements.{
  AnnouncementKind, start, bonus, reset, completion, cancellation, AnnouncementValues, Piece, unit,
  placeholder, pieces, is_allowed, bad_placeholder, is_brace, validate_template, value_of,
  render_pieces, render_announcement, max_discord_message_length, max_announcement_template_length,
  start_word, player_word, bonus_points_word,
}

-- What a template that validation accepts looks like.
pub record IsTemplate (kind : AnnouncementKind) (template : Text) : Type 0 where
  pub nonempty : is_empty template ≡ false
  pub bounded : length template ≤ max_announcement_template_length
  pub allowed : any (bad_placeholder kind) (pieces template) ≡ false
  pub matched : any is_brace (pieces template) ≡ false

pub validate_template_sound :
    (kind : AnnouncementKind) (template : Text)
    → validate_template kind template ≡ ok tt
    → IsTemplate kind template
unfolding validate_template
validate_template_sound kind template h = ground arith

-- The values that a kind of announcement may name are given.
abbrev pub Supplies : AnnouncementKind → AnnouncementValues → Type 0
Supplies start values = is_some values.start_value ≡ true
Supplies bonus values =
    (is_some values.player_value ≡ true) × (is_some values.bonus_points_value ≡ true)
Supplies reset values = is_some values.start_value ≡ true
Supplies completion values = Unit {0}
Supplies cancellation values = Unit {0}

value_of-start :
    (values : AnnouncementValues)
    → is_some values.start_value ≡ true
    → (value : Text) × (value_of values start_word ≡ some value)
unfolding value_of
value_of-start values h = elim (Option-cases values.start_value) [
  | inl missing ↦ absurd (ground arith)
  | inr (n, e) ↦ (decimal n, rw e)
]

value_of-bonus_points :
    (values : AnnouncementValues)
    → is_some values.bonus_points_value ≡ true
    → (value : Text) × (value_of values bonus_points_word ≡ some value)
unfolding value_of
value_of-bonus_points values h = elim (Option-cases values.bonus_points_value) [
  | inl missing ↦ absurd (ground arith)
  | inr (n, e) ↦ (decimal n, rw e)
]

value_of-player :
    (values : AnnouncementValues)
    → is_some values.player_value ≡ true
    → (value : Text) × (value_of values player_word ≡ some value)
unfolding value_of
value_of-player values h = elim (Option-cases values.player_value) [
  | inl missing ↦ absurd (ground arith)
  | inr (name, e) ↦ (name, e)
]

only_allowed :
    (a word : Text) → (not (is_empty word) && (text_eq a word || false)) ≡ true → a ≡ word
only_allowed a word h = text_eq→eq a word (ground arith)

value_of-some :
    (kind : AnnouncementKind) (values : AnnouncementValues) (word : Text)
    → is_allowed kind word ≡ true
    → Supplies kind values
    → (value : Text) × (value_of values word ≡ some value)
value_of-some start values word a s =
    rw (← only_allowed start_word word a) (value_of-start values s)
value_of-some bonus values word a s = elim (Bool-cases (text_eq player_word word)) [
  | inl e ↦ rw (← text_eq→eq player_word word e) (value_of-player values s.0)
  | inr e ↦
      rw (← only_allowed bonus_points_word word (rw e at a)) (value_of-bonus_points values s.1)
]
value_of-some reset values word a s =
    rw (← only_allowed start_word word a) (value_of-start values s)
value_of-some completion values word a s = absurd (ground arith)
value_of-some cancellation values word a s = absurd (ground arith)

or-split : (a b : Bool) → (a || b) ≡ false → (a ≡ false) × (b ≡ false)
or-split a b h = ground arith

not-false : (b : Bool) → not b ≡ false → b ≡ true
not-false b h = ground arith

joined :
    (values : AnnouncementValues) (w : ℕ) (word value rest : Text) (ps : List Piece)
    → value_of values (w ∷ word) ≡ some value
    → render_pieces values ps ≡ ok rest
    → render_pieces values (placeholder (w ∷ word) ∷ ps) ≡ ok (value ++ rest)
unfolding render_pieces
joined values w word value rest ps found e = rw (found, e)

render_pieces-total :
    (kind : AnnouncementKind) (values : AnnouncementValues) (ps : List Piece)
    → any (bad_placeholder kind) ps ≡ false
    → Supplies kind values
    → (rendered : Text) × (render_pieces values ps ≡ ok rendered)
unfolding render_pieces
render_pieces-total kind values [] a s = ([], refl)
render_pieces-total kind values (unit c ∷ ps) a s =
    let (rest, e) = render_pieces-total kind values ps a s in (c ∷ rest, rw e)
render_pieces-total kind values (placeholder [] ∷ ps) a s = cc
render_pieces-total kind values (placeholder (w ∷ word) ∷ ps) a s =
    let (here, later) = or-split (not (is_allowed kind (w ∷ word))) _ a in
    let (value, found) = value_of-some kind values (w ∷ word) (not-false _ here) s in
    let (rest, e) = render_pieces-total kind values ps later s in
    (value ++ rest, joined values w word value rest ps found e)

pub validate_template_complete :
    (kind : AnnouncementKind) (template : Text)
    → IsTemplate kind template
    → validate_template kind template ≡ ok tt
unfolding validate_template
validate_template_complete kind template v = ground arith

-- A template that is accepted is rendered, if the values of its kind are given: no placeholder
-- lacks a value, and the only error left is a result that is longer than a Discord message.
pub render_announcement-total :
    (kind : AnnouncementKind) (template : Text) (values : AnnouncementValues)
    → validate_template kind template ≡ ok tt
    → Supplies kind values
    → (rendered : Text) × (render_pieces values (pieces template) ≡ ok rendered)
      × (render_announcement kind template values ≡ (
          if ltb max_discord_message_length (length rendered)
          then throw rendered_too_long
          else ok rendered))
unfolding render_announcement
render_announcement-total kind template values valid s =
    let v = validate_template_sound kind template valid in
    let (rendered, e) = render_pieces-total kind values (pieces template) v.allowed s in
    (rendered, e, rw (valid, e) (ground arith))

-- What is rendered fits into one Discord message.
pub render_announcement-fits :
    (kind : AnnouncementKind) (template : Text) (values : AnnouncementValues) {rendered : Text}
    → render_announcement kind template values ≡ ok rendered
    → length rendered ≤ max_discord_message_length
unfolding render_announcement
render_announcement-fits kind template values h = ground arith
