-- ===== src/Announcements/Resolution.antt =====
-- Which texts a round uses (resolveAnnouncements of src/domain/announcement-templates.ts), and the
-- length of a rendered text.
use herald_of_jams.Base.{
  ℕ, zero, suc, ◌*◌, ◌≤◌, ◌<◌, ◌≡◌, refl, sym, ap, false, List, [], ◌∷◌, ◌++◌, some, Text, length,
  length-append, any, arith, ok, throw, rendered_too_long, >>=-eq-ok, codes,
}
use herald_of_jams.Announcements.{
  AnnouncementKind, start, bonus, reset, completion, cancellation, AnnouncementTemplates,
  AnnouncementOverrides, template_of, override_of, effective, resolve_kind, resolve_announcements,
  AnnouncementValues, Piece, placeholder, closing, pieces_from, pieces, bad_placeholder, is_brace,
  validate_template, value_of, render_pieces, render_announcement, max_discord_message_length,
  max_announcement_template_length, player_word,
}
use herald_of_jams.Announcements.Rendering.{validate_template_complete}

-- One resolved text: the override unless it is missing or empty, and valid as the default is.
abbrev pub IsResolved :
    AnnouncementTemplates
    → AnnouncementOverrides
    → AnnouncementTemplates
    → AnnouncementKind
    → Type 0
IsResolved defaults overrides resolved kind =
    (template_of resolved kind ≡ effective (override_of overrides kind) (template_of defaults kind))
    × (validate_template kind (template_of resolved kind) ≡ ok tt)
    × (validate_template kind (template_of defaults kind) ≡ ok tt)

resolve_kind-ok :
    (defaults : AnnouncementTemplates) (overrides : AnnouncementOverrides) (kind : AnnouncementKind)
    (text : Text)
    → resolve_kind defaults overrides kind ≡ ok text
    → (text ≡ effective (override_of overrides kind) (template_of defaults kind))
      × (validate_template kind text ≡ ok tt)
      × (validate_template kind (template_of defaults kind) ≡ ok tt)
unfolding resolve_kind
resolve_kind-ok defaults overrides kind text h =
    let value = effective (override_of overrides kind) (template_of defaults kind) in
    let (_, first, h') = >>=-eq-ok (validate_template kind (template_of defaults kind)) _ h in
    let (_, second, h'') = >>=-eq-ok (validate_template kind value) _ h' in
    let same : value ≡ text = ground arith in (sym same, rw (← same) second, first)

resolved_kind :
    (defaults : AnnouncementTemplates) (overrides : AnnouncementOverrides)
    (resolved : AnnouncementTemplates) (kind : AnnouncementKind)
    → resolve_announcements defaults overrides ≡ ok resolved
    → resolve_kind defaults overrides kind ≡ ok (template_of resolved kind)
unfolding resolve_announcements
resolved_kind defaults overrides resolved start h = ground arith
resolved_kind defaults overrides resolved bonus h = ground arith
resolved_kind defaults overrides resolved reset h = ground arith
resolved_kind defaults overrides resolved completion h = ground arith
resolved_kind defaults overrides resolved cancellation h = ground arith

-- Resolution answers, for each kind, the override or else the default (where the override is
-- missing or empty), and only if that text and the default are both valid.
pub resolve_announcements-IsResolved :
    (defaults : AnnouncementTemplates) (overrides : AnnouncementOverrides)
    (resolved : AnnouncementTemplates)
    → resolve_announcements defaults overrides ≡ ok resolved
    → (kind : AnnouncementKind) → IsResolved defaults overrides resolved kind
resolve_announcements-IsResolved defaults overrides resolved h kind =
    resolve_kind-ok defaults overrides kind (template_of resolved kind)
      (resolved_kind defaults overrides resolved kind h)

-- A template of `n` times "{player}".
abbrev pub repeated_player : ℕ → Text
repeated_player zero = []
repeated_player (suc n) = codes "{player}" ++ repeated_player n

abbrev pub names : ℕ → Text → Text
names zero name = []
names (suc n) name = name ++ names n name

abbrev placeholders : ℕ → List Piece
placeholders zero = []
placeholders (suc n) = placeholder player_word ∷ placeholders n

closing-player :
    (n : ℕ) → closing (codes "player}" ++ repeated_player n) ≡ some (player_word, repeated_player n)
unfolding closing
closing-player n = refl

pieces_from-repeated :
    (f n : ℕ) → length (repeated_player n) ≤ f → pieces_from f (repeated_player n) ≡ placeholders n
unfolding pieces_from
pieces_from-repeated zero zero h = refl
pieces_from-repeated (suc f) zero h = refl
pieces_from-repeated zero (suc n) h = absurd (omega arith)
pieces_from-repeated (suc f) (suc n) h =
    rw closing-player (ap (◌∷◌ (placeholder player_word)) (pieces_from-repeated f n (omega arith)))

pieces-repeated : (n : ℕ) → pieces (repeated_player n) ≡ placeholders n
unfolding pieces
pieces-repeated n = pieces_from-repeated (length (repeated_player n)) n (omega arith)

length-repeated : (n : ℕ) → length (repeated_player n) ≡ 8 * n
length-repeated zero = refl
length-repeated (suc n) = omega (arith, length-repeated n)

placeholders_allowed : (n : ℕ) → any (bad_placeholder bonus) (placeholders n) ≡ false
placeholders_allowed zero = refl
placeholders_allowed (suc n) = placeholders_allowed n

placeholders_matched : (n : ℕ) → any is_brace (placeholders n) ≡ false
placeholders_matched zero = refl
placeholders_matched (suc n) = placeholders_matched n

length-names : (n : ℕ) (name : Text) → length (names n name) ≡ n * length name
length-names zero name = omega arith
length-names (suc n) name = omega (arith, length-append name (names n name), length-names n name)

render_pieces-placeholders :
    (values : AnnouncementValues) (name : Text) (n : ℕ)
    → values.player_value ≡ some name
    → render_pieces values (placeholders n) ≡ ok (names n name)
unfolding render_pieces value_of
render_pieces-placeholders values name zero h = refl
render_pieces-placeholders values name (suc n) h =
    rw (h, render_pieces-placeholders values name n h)

-- A template of up to 237 placeholders {player} is accepted for the bonus announcement, and is
-- refused when it is rendered with a name that makes it longer than a Discord message.
pub render_announcement-too_long :
    (n : ℕ) (name : Text) (values : AnnouncementValues)
    → 0 < n
    → 8 * n ≤ max_announcement_template_length
    → max_discord_message_length < n * length name
    → values.player_value ≡ some name
    → (validate_template bonus (repeated_player n) ≡ ok tt)
      × (render_announcement bonus (repeated_player n) values ≡ throw rendered_too_long)
unfolding render_announcement
render_announcement-too_long zero name values some_placeholder short long h = absurd (omega arith)
render_announcement-too_long (suc n) name values some_placeholder short long h =
    let valid : validate_template bonus (repeated_player (suc n)) ≡ ok tt =
      validate_template_complete bonus (repeated_player (suc n)) (record {
        nonempty = refl;
        bounded = omega (arith, length-repeated (suc n));
        allowed = rw (pieces-repeated (suc n)) (placeholders_allowed (suc n));
        matched = rw (pieces-repeated (suc n)) (placeholders_matched (suc n));
      }) in
    (
      valid,
      rw (valid, pieces-repeated (suc n), render_pieces-placeholders values name (suc n) h)
          (ground (arith, length-names (suc n) name)),
    )
