-- ===== src/Admin/Order.antt =====
-- The outbox, under the transactions of src/db/admin-repository.ts.
use herald_of_jams.Base.{
  ℕ, ◌≡◌, sym, ap, not, any, ok, throw_if, >>=-eq-ok, ok-injective, template_not_found, ◌==◌,
}
use herald_of_jams.Announcements.{AnnouncementTemplates, no_overrides, resolve_announcements}
use herald_of_jams.Rounds.{RoundTemplateInput, compile_round}
use herald_of_jams.Store.{Database, Environment, TemplateRow}
use herald_of_jams.Game.Outgoing.{audit}
use herald_of_jams.Admin.{
  normalized, get_announcement_defaults, create_template, update_template,
  update_announcement_defaults,
}

pub create_template-outbox :
    (env : Environment) (now : ℕ) (input : RoundTemplateInput) (id : ℕ) (db db' : Database)
    → create_template env now input db ≡ ok (id, db')
    → db'.outbox ≡ db.outbox
unfolding create_template
create_template-outbox env now input id db db' h =
    let (defaults, set, h1) = >>=-eq-ok (get_announcement_defaults db) _ h in
    let (compiled, done, h2) = >>=-eq-ok (compile_round (normalized input) defaults) _ h1 in
    sym (ap (λ (p : ℕ × Database). p.1.outbox) (ok-injective h2))

pub update_template-outbox :
    (now id : ℕ) (input : RoundTemplateInput) (db db' : Database)
    → update_template now id input db ≡ ok db'
    → db'.outbox ≡ db.outbox
unfolding update_template
update_template-outbox now id input db db' h =
    let (defaults, set, h1) = >>=-eq-ok (get_announcement_defaults db) _ h in
    let (compiled, done, h2) = >>=-eq-ok (compile_round (normalized input) defaults) _ h1 in
    let (_, known, h3) =
      >>=-eq-ok
        (throw_if (not (any (λ (t : TemplateRow). t.id == id) db.templates)) template_not_found) _
        h2 in
    sym (ap (λ (d : Database). d.outbox) (ok-injective h3))

pub update_announcement_defaults-outbox :
    (env : Environment) (now : ℕ) (input : AnnouncementTemplates) (actor : ℕ) (db db' : Database)
    → update_announcement_defaults env now input actor db ≡ ok db'
    → db'.outbox ≡ db.outbox
unfolding update_announcement_defaults audit
update_announcement_defaults-outbox env now input actor db db' h =
    let (validated, resolved, h1) = >>=-eq-ok (resolve_announcements input no_overrides) _ h in
    let (current, found, h2) = >>=-eq-ok (get_announcement_defaults db) _ h1 in
    sym (ap (λ (d : Database). d.outbox) (ok-injective h2))
