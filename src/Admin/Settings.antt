-- ===== src/Admin/Settings.antt =====
-- The default announcements that src/db/admin-repository.ts stores.
use herald_of_jams.Base.{ℕ, ◌≡◌, subst, ap, ok, >>=-eq-ok, ok-injective}
use herald_of_jams.Announcements.{
  AnnouncementKind, start, bonus, reset, completion, cancellation, AnnouncementTemplates,
  no_overrides, template_of, validate_template, resolve_announcements,
}
use herald_of_jams.Announcements.Resolution.{resolve_announcements-IsResolved}
use herald_of_jams.Store.{Database, Environment}
use herald_of_jams.Game.Outgoing.{audit}
use herald_of_jams.Admin.{get_announcement_defaults, update_announcement_defaults}

-- Without overrides, what is resolved are the defaults.
resolved_self :
    (input validated : AnnouncementTemplates)
    → resolve_announcements input no_overrides ≡ ok validated
    → validated ≡ input
resolved_self input validated h =
    let same = λ (kind : AnnouncementKind).
      (resolve_announcements-IsResolved input no_overrides validated h kind).0 in
    go (same start) (same bonus) (same reset) (same completion) (same cancellation)
  where
    go :
        validated.start_text ≡ input.start_text
        → validated.bonus_text ≡ input.bonus_text
        → validated.reset_text ≡ input.reset_text
        → validated.completion_text ≡ input.completion_text
        → validated.cancellation_text ≡ input.cancellation_text
        → validated ≡ input
    go a b c d e = λ i. record {
      start_text = a i;
      bonus_text = b i;
      reset_text = c i;
      completion_text = d i;
      cancellation_text = e i;
    }

-- The default announcements after an update that succeeds are those that were given, and the text
-- of every kind is valid.
pub update_announcement_defaults-stores :
    (env : Environment) (now : ℕ) (input : AnnouncementTemplates) (actor : ℕ) (db db' : Database)
    → update_announcement_defaults env now input actor db ≡ ok db'
    → (kind : AnnouncementKind)
    → (get_announcement_defaults db' ≡ ok input)
      × (validate_template kind (template_of input kind) ≡ ok tt)
unfolding update_announcement_defaults get_announcement_defaults audit
update_announcement_defaults-stores env now input actor db db' e kind =
    let (validated, resolved, e1) = >>=-eq-ok (resolve_announcements input no_overrides) _ e in
    let (current, found, e2) = >>=-eq-ok (get_announcement_defaults db) _ e1 in
    (
      subst (λ (d : Database). get_announcement_defaults d ≡ ok input) (ok-injective e2)
          (ap ok (resolved_self input validated resolved)),
      (resolve_announcements-IsResolved input no_overrides validated resolved kind).2,
    )
