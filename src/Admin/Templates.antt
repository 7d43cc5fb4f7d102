-- ===== src/Admin/Templates.antt =====
-- Reading back and activating a template that src/db/admin-repository.ts has stored.
use herald_of_jams.Base.{
  ℕ, ◌≡◌, refl, sym, subst, ap, ◌∙◌, arith, false, List, [], ◌∷◌, ◌++◌, none, some, ◌==◌, any,
  find?, Result, ok, throw, Error, Text, >>=-eq-ok, ok-injective, or_throw-eq-ok,
  settings_not_found,
}
use herald_of_jams.Announcements.{AnnouncementTemplates, start, render_announcement}
use herald_of_jams.Rounds.{
  RoundTemplateInput, CompiledRound, compile_round, copy_input, start_values,
}
use herald_of_jams.Store.{Database, Environment, next_id, TemplateRow, active_round}
use herald_of_jams.Game.Control.{activate_round, assert_no_unsettled_terminal_round}
use herald_of_jams.Admin.{get_announcement_defaults, normalized, create_template, get_template}

never-fails :
    (input : RoundTemplateInput) (defaults : AnnouncementTemplates) (c : CompiledRound)
    (error : Error)
    → compile_round input defaults ≡ ok c
    → render_announcement start c.announcements.start_text (start_values c.input.start_at)
      ≡ throw error
    → ⊥
unfolding compile_round copy_input
never-fails input defaults c error h e = ground arith

-- A compilation that succeeds has rendered the start announcement.
compile_round-renders :
    (input : RoundTemplateInput) (defaults : AnnouncementTemplates) (c : CompiledRound)
    → compile_round input defaults ≡ ok c
    → (content : Text) × (render_announcement start c.announcements.start_text
          (start_values c.input.start_at)
        ≡ ok content)
compile_round-renders input defaults c h =
    go (render_announcement start c.announcements.start_text (start_values c.input.start_at)) refl
  where
    go :
        (r : Result Text)
        → render_announcement start c.announcements.start_text (start_values c.input.start_at) ≡ r
        → (content : Text) × (render_announcement start c.announcements.start_text
              (start_values c.input.start_at)
            ≡ ok content)
    go (ok content) e = (content, e)
    go (throw error) e = absurd (never-fails input defaults c error h e)

-- Where no template has the id, a row that is added is the one found.
find?-added :
    (id : ℕ) (rows : List TemplateRow) (row : TemplateRow)
    → row.id ≡ id
    → any (λ (t : TemplateRow). t.id == id) rows ≡ false
    → find? (λ (t : TemplateRow). t.id == id) (rows ++ row ∷ []) ≡ some row
find?-added id [] row e h = ground arith
find?-added id (t ∷ rows) row e h = ground (arith, find?-added id rows row e)

-- What the creation of a template has done.
record IsCreated (input : RoundTemplateInput) (db : Database) (created : ℕ × Database)
    : Type 0 where
  row : TemplateRow
  found : find? (λ t. t.id == created.0) created.1.templates ≡ some row
  given : row.input ≡ normalized input
  rounds : created.1.rounds ≡ db.rounds
  settings : created.1.announcement_settings ≡ db.announcement_settings
  defaults : AnnouncementTemplates
  set : db.announcement_settings ≡ some defaults
  compiled : CompiledRound
  compiles : compile_round (normalized input) defaults ≡ ok compiled

create_template-IsCreated :
    (env : Environment) (now : ℕ) (input : RoundTemplateInput) (db : Database) (id : ℕ)
    (db' : Database)
    → create_template env now input db ≡ ok (id, db')
    → any (λ (t : TemplateRow). t.id == id) db.templates ≡ false
    → IsCreated input db (id, db')
unfolding create_template get_announcement_defaults
create_template-IsCreated env now input db id db' h new =
    let (defaults, set, h1) = >>=-eq-ok (get_announcement_defaults db) _ h in
    let (compiled, done, h2) = >>=-eq-ok (compile_round (normalized input) defaults) _ h1 in
    let stored = ok-injective h2 in
    let same : next_id env db ≡ id = ap (λ (p : ℕ × Database). p.0) stored in
    subst (IsCreated input db) stored (record {
      row = record {
        id = next_id env db;
        input = normalized input;
        created_at = now;
        updated_at = now;
      };
      found =
          find?-added (next_id env db) db.templates _ refl (
            subst (λ id. any (λ (t : TemplateRow). t.id == id) db.templates ≡ false) (sym same)
              new);
      given = refl;
      rounds = refl;
      settings = refl;
      defaults = defaults;
      set = or_throw-eq-ok db.announcement_settings settings_not_found set;
      compiled = compiled;
      compiles = done;
    })

-- A template that was created, under an id of no other template, is read back as the input with its
-- empty overrides removed.
pub get_template-create_template :
    (env : Environment) (now : ℕ) (input : RoundTemplateInput) (db : Database) (id : ℕ)
    (db' : Database)
    → create_template env now input db ≡ ok (id, db')
    → any (λ (t : TemplateRow). t.id == id) db.templates ≡ false
    → get_template id db' ≡ ok (normalized input)
unfolding get_template
get_template-create_template env now input db id db' h new =
    let c = create_template-IsCreated env now input db id db' h new in
    rw (get_template, c.found) (ap ok c.given)

active_round-rounds :
    (db db' : Database) → db'.rounds ≡ db.rounds → active_round db' ≡ active_round db
unfolding active_round
active_round-rounds db db' e = rw e refl

settled-rounds :
    (db db' : Database)
    → db'.rounds ≡ db.rounds
    → assert_no_unsettled_terminal_round db' ≡ assert_no_unsettled_terminal_round db
unfolding assert_no_unsettled_terminal_round
settled-rounds db db' e = rw e refl

-- A template that was created, under an id of no other template, can be activated at any later time
-- in the database that its creation left, where no round was active and every round that was over
-- was settled: nothing is thrown.
pub activate_round-create_template :
    (env : Environment) (now : ℕ) (input : RoundTemplateInput) (db : Database) (id : ℕ)
    (db' : Database)
    → create_template env now input db ≡ ok (id, db')
    → any (λ (t : TemplateRow). t.id == id) db.templates ≡ false
    → active_round db ≡ none
    → assert_no_unsettled_terminal_round db ≡ ok tt
    → (later : ℕ) → (activated : ℕ × Database) × (activate_round env later id db' ≡ ok activated)
unfolding activate_round
activate_round-create_template env now input db id db' h new idle settled later =
    let c = create_template-IsCreated env now input db id db' h new in
    let (content, rendered) =
      compile_round-renders (normalized input) c.defaults c.compiled c.compiles in
    let none_active = active_round-rounds db db' c.rounds ∙ idle in
    let all_settled = settled-rounds db db' c.rounds ∙ settled in
    let known = c.settings ∙ c.set in
    go c none_active all_settled known rendered (activate_round env later id db') refl
  where
    go :
        (c : IsCreated input db (id, db')) {content : Text}
        → active_round db' ≡ none
        → assert_no_unsettled_terminal_round db' ≡ ok tt
        → db'.announcement_settings ≡ some c.defaults
        → render_announcement start c.compiled.announcements.start_text
            (start_values c.compiled.input.start_at)
          ≡ ok content
        → (r : Result (ℕ × Database)) → activate_round env later id db' ≡ r
        → (activated : ℕ × Database) × (activate_round env later id db' ≡ ok activated)
    go c none_active all_settled known rendered (ok activated) e = (activated, e)
    go c none_active all_settled known rendered (throw error) e =
        let f =
          rw
            (
              activate_round, none_active, all_settled, c.found, known, c.given, c.compiles,
              rendered,
            )
            at e in
        absurd (cc f)
