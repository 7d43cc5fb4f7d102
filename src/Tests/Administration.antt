-- ===== src/Tests/Administration.antt =====
-- The theorems on src/db/admin-repository.ts, applied.
use herald_of_jams.Base.{ℕ, ◌≡◌, refl, codes, Result, ok, throw}
use herald_of_jams.Announcements.{
  AnnouncementTemplates, bonus, template_of, default_announcements, resolve_announcements,
  resolve_kind, validate_template, pieces, render_announcement, render_pieces, value_of,
}
use herald_of_jams.Numeric.{decimal}
use herald_of_jams.Predicates.{matches_predicate}
use herald_of_jams.Rounds.{
  compile_round, copy_input, assert_non_negative_safe_integer, assert_positive_safe_integer,
  copy_bonus_rules, copy_predicate, matches_any, entries_from, bonus_ids,
}
use herald_of_jams.Store.{Database, active_round}
use herald_of_jams.Game.Control.{activate_round, assert_no_unsettled_terminal_round}
use herald_of_jams.Admin.{get_announcement_defaults, create_template, update_announcement_defaults}
use herald_of_jams.Admin.Settings.{update_announcement_defaults-stores}
use herald_of_jams.Admin.Templates.{activate_round-create_template}
use herald_of_jams.Tests.Fixtures.{small_env, small_template, empty_database}

abbrev new_defaults : AnnouncementTemplates
new_defaults = record default_announcements { bonus_text = codes "{player}: {bonusPoints}" }

abbrev updated_of : Result Database → Database
updated_of (ok db) = db
updated_of (throw e) = empty_database

abbrev created_of : Result (ℕ × Database) → Database
created_of (ok p) = p.1
created_of (throw e) = empty_database

abbrev updated_database : Database
updated_database =
    updated_of (update_announcement_defaults small_env 500 new_defaults 9 empty_database)

abbrev created_database : Database
created_database = created_of (create_template small_env 500 small_template empty_database)

updates :
    update_announcement_defaults small_env 500 new_defaults 9 empty_database ≡ ok updated_database
unfolding update_announcement_defaults resolve_announcements resolve_kind validate_template pieces
    get_announcement_defaults
updates = refl

creates : create_template small_env 500 small_template empty_database ≡ ok (100, created_database)
unfolding create_template get_announcement_defaults compile_round copy_input
    assert_non_negative_safe_integer assert_positive_safe_integer copy_bonus_rules copy_predicate
    resolve_announcements resolve_kind validate_template pieces render_announcement render_pieces
    value_of decimal matches_any entries_from bonus_ids matches_predicate
creates = refl

update_announcement_defaults-stores_example :
    (get_announcement_defaults updated_database ≡ ok new_defaults)
    × (validate_template bonus (template_of new_defaults bonus) ≡ ok tt)
update_announcement_defaults-stores_example =
    update_announcement_defaults-stores small_env 500 new_defaults 9 empty_database updated_database
      updates bonus

activate_round-create_template_example :
    (activated : ℕ × Database) × (activate_round small_env 800 100 created_database ≡ ok activated)
unfolding active_round assert_no_unsettled_terminal_round
activate_round-create_template_example =
    activate_round-create_template small_env 500 small_template empty_database 100 created_database
      creates refl refl refl 800
