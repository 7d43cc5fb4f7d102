-- ===== src/Admin.antt =====
-- src/db/admin-repository.ts: round templates and the default announcements. A template is compiled
-- with the defaults before it is stored.
pub mod Settings
pub mod Templates
pub mod Order
use herald_of_jams.Base.{
  ℕ, suc, Bool, not, List, [], ◌∷◌, ◌++◌, Option, none, some, Text, ◌==◌, any, select, find?,
  is_empty, text_eq, if◌then◌else◌, update_where, Result, ok, or_throw, throw_if, ◌>>=◌, ◌>>◌,
  template_not_found, settings_not_found,
}
use herald_of_jams.Announcements.{
  AnnouncementKind, start, bonus, reset, completion, cancellation, AnnouncementTemplates,
  AnnouncementOverrides, no_overrides, template_of, resolve_announcements,
}
use herald_of_jams.Rounds.{RoundTemplateInput, compile_round}
use herald_of_jams.Store.{
  Database, Environment, next_id, TemplateRow, announcement_defaults_updated,
}
use herald_of_jams.Game.Outgoing.{audit}

-- value !== undefined && value.length > 0
abbrev pub nonempty : Option Text → Option Text
nonempty none = none
nonempty (some text) = if is_empty text then none else some text

abbrev pub normalize_overrides : AnnouncementOverrides → AnnouncementOverrides
normalize_overrides o = record {
  start_override = nonempty o.start_override;
  bonus_override = nonempty o.bonus_override;
  reset_override = nonempty o.reset_override;
  completion_override = nonempty o.completion_override;
  cancellation_override = nonempty o.cancellation_override;
}

-- The input as it is compiled and stored.
abbrev pub normalized : RoundTemplateInput → RoundTemplateInput
normalized input = record input { announcements = normalize_overrides input.announcements }

unfoldable pub get_announcement_defaults : Database → Result AnnouncementTemplates
get_announcement_defaults db = or_throw db.announcement_settings settings_not_found

unfoldable pub create_template :
    Environment → ℕ → RoundTemplateInput → Database → Result (ℕ × Database)
create_template env now input db = do
  defaults ← get_announcement_defaults db
  compiled ← compile_round (normalized input) defaults
  ok (
    next_id env db,
    record db {
      templates =
          db.templates
          ++ record {
            id = next_id env db;
            input = normalized input;
            created_at = now;
            updated_at = now;
          }
            ∷ [];
      issued = suc db.issued;
    },
  )

unfoldable pub get_template : ℕ → Database → Result RoundTemplateInput
get_template id db = do
  row ← or_throw (find? (λ t. t.id == id) db.templates) template_not_found
  ok row.input

-- The id is the primary key: a row that has it is the one that changes.
unfoldable pub update_template : ℕ → ℕ → RoundTemplateInput → Database → Result Database
update_template now id input db = do
  defaults ← get_announcement_defaults db
  compiled ← compile_round (normalized input) defaults
  throw_if (not (any (λ (t : TemplateRow). t.id == id) db.templates)) template_not_found
  ok (record db {
    templates =
        update_where (λ t. t.id == id)
          (λ t. record t { input = normalized input; updated_at = now }) db.templates;
  })

abbrev pub announcement_kinds : List AnnouncementKind
announcement_kinds = start ∷ bonus ∷ reset ∷ completion ∷ cancellation ∷ []

-- ANNOUNCEMENT_KINDS.filter((kind) => current[kind] !== validated[kind])
abbrev pub changed_kinds : AnnouncementTemplates → AnnouncementTemplates → List AnnouncementKind
changed_kinds current validated =
    select (λ kind. not (text_eq (template_of current kind) (template_of validated kind)))
      announcement_kinds

unfoldable pub update_announcement_defaults :
    Environment → ℕ → AnnouncementTemplates → ℕ → Database → Result Database
update_announcement_defaults env now input actor db = do
  validated ← resolve_announcements input no_overrides
  current ← get_announcement_defaults db
  ok (
      audit env now (announcement_defaults_updated (changed_kinds current validated)) none
        (some actor) (record db { announcement_settings = some validated }))
