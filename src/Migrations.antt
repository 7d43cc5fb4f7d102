-- ===== src/Migrations.antt =====
-- loadMigrations, appliedVersions and migrate of src/db/database.ts. What a script does to the
-- tables, and whether SQLite then finds a foreign key that points nowhere, are parameters.
use herald_of_jams.Base.{
  ℕ, ◌≤◌, ◌≡◌, refl, sym, ap, ◌∙◌, arith, Bool, true, false, not, ◌&&◌, ◌||◌, Bool-cases, inl, inr,
  List, [], ◌∷◌, ◌++◌, append-nil, append_assoc, map, Text, codes, ltb, if◌then◌else◌, all, select,
  contains, starts_with, Result, ok, ◌>>=◌, ◌>>◌, throw_if, unknown_schema_version,
  foreign_key_violation, constraint_failed, >>=-eq-ok, ok-injective,
}

-- A file of the directory whose name matches /^(\d+)-.+\.sql$/, with its number and its text.
pub record Migration : Type 0 where
  pub version : ℕ
  pub sql : Text
  pub requires_foreign_keys_off : Bool

abbrev pub migration_of : ℕ × Text → Migration
migration_of (version, sql) = record {
  version = version;
  sql = sql;
  requires_foreign_keys_off = starts_with (codes "-- requires-foreign-keys-off") sql;
}

-- .sort((left, right) => left.version - right.version)
abbrev pub insert_migration : Migration → List Migration → List Migration
insert_migration m [] = m ∷ []
insert_migration m (n ∷ ns) =
    if ltb n.version m.version then n ∷ insert_migration m ns else m ∷ n ∷ ns

abbrev pub sort_migrations : List Migration → List Migration
sort_migrations [] = []
sort_migrations (m ∷ ms) = insert_migration m (sort_migrations ms)

unfoldable pub load_migrations : List (ℕ × Text) → List Migration
load_migrations files = sort_migrations (map migration_of files)

-- The other tables, the versions in schema_migrations in the order in which they were recorded, and
-- the pragma foreign_keys.
pub record Schema {ℓ} (Tables : Type ℓ) : Type ℓ where
  pub tables : Tables
  pub applied : List ℕ
  pub foreign_keys : Bool

-- A migration ends with the error of its script, or with the new tables.
module _ {ℓ} {Tables : Type ℓ} (exec : Text → Tables → Result Tables)
    (violates : Tables → Bool) where
  -- The transaction: what throws leaves the tables. The version is the primary key of the rows that
  -- record it.
  abbrev pub apply_migration : Migration → Schema Tables → Result (Schema Tables)
  apply_migration m s = do
    tables ← exec m.sql s.tables
    throw_if (m.requires_foreign_keys_off && violates tables) foreign_key_violation
    throw_if (contains s.applied m.version) constraint_failed
    ok (record {
      tables = tables;
      applied = s.applied ++ m.version ∷ [];
      foreign_keys = m.requires_foreign_keys_off || s.foreign_keys;
    })

  -- The loop; a version that was applied when it began is passed over.
  unfoldable pub apply_all : List ℕ → List Migration → Schema Tables → Result (Schema Tables)
  apply_all before [] s = ok s
  apply_all before (m ∷ ms) s =
      if contains before m.version
      then apply_all before ms s
      else (apply_migration m s >>= λ next. apply_all before ms next)

  unfoldable pub migrate : List (ℕ × Text) → Schema Tables → Result (Schema Tables)
  migrate files s =
      let migrations = load_migrations files in
      let known = map (λ (m : Migration). m.version) migrations in
      throw_if (not (all (contains known) s.applied)) unknown_schema_version
      >> apply_all s.applied migrations s

-- The versions of the migrations that were not applied yet.
abbrev pub pending_versions : List ℕ → List Migration → List ℕ
pending_versions before ms =
    map (λ (m : Migration). m.version)
      (select (λ (m : Migration). not (contains before m.version)) ms)

module _ {ℓ} {Tables : Type ℓ} (exec : Text → Tables → Result Tables)
    (violates : Tables → Bool) where
  apply_migration-applied :
      (m : Migration) (s next : Schema Tables)
      → apply_migration exec violates m s ≡ ok next
      → next.applied ≡ s.applied ++ m.version ∷ []
  apply_migration-applied m s next e =
      let (tables, ran, e1) = >>=-eq-ok (exec m.sql s.tables) _ e in
      let (u, checked, e2) =
        >>=-eq-ok (throw_if (m.requires_foreign_keys_off && violates tables) foreign_key_violation)
          _ e1 in
      let (w, unrecorded, e3) =
        >>=-eq-ok (throw_if (contains s.applied m.version) constraint_failed) _ e2 in
      ap (λ (x : Schema Tables). x.applied) (sym (ok-injective e3))

  apply_all-applied :
      (before : List ℕ) (ms : List Migration) (s t : Schema Tables)
      → apply_all exec violates before ms s ≡ ok t
      → t.applied ≡ s.applied ++ pending_versions before ms
  unfolding apply_all
  apply_all-applied before [] s t e =
      ap (λ (x : Schema Tables). x.applied) (sym (ok-injective e)) ∙ sym (append-nil s.applied)
  apply_all-applied before (m ∷ ms) s t e = elim (Bool-cases (contains before m.version)) [
    | inl done ↦ rw done (apply_all-applied before ms s t (rw done at e))
    | inr fresh ↦
        let (next, one, rest) = >>=-eq-ok (apply_migration exec violates m s) _ (rw fresh at e) in
        rw fresh (
          apply_all-applied before ms next t rest
          ∙ ap (λ vs. vs ++ pending_versions before ms) (apply_migration-applied m s next one)
          ∙ append_assoc s.applied (m.version ∷ []) (pending_versions before ms))
  ]

-- The versions of a list of migrations do not fall.
abbrev pub IsRising : List Migration → Type 0
IsRising [] = Unit {0}
IsRising (m ∷ []) = Unit {0}
IsRising (m ∷ n ∷ ms) = (m.version ≤ n.version) × IsRising (n ∷ ms)

insert_migration-IsRising :
    (m : Migration) (ms : List Migration) → IsRising ms → IsRising (insert_migration m ms)
insert_migration-IsRising m [] h = tt
insert_migration-IsRising m (n ∷ []) h = elim (Bool-cases (ltb n.version m.version)) [
  | inl lower ↦ rw lower (ground arith, tt)
  | inr higher ↦ rw higher (ground arith, tt)
]
insert_migration-IsRising m (n ∷ p ∷ ms) h = elim (Bool-cases (ltb n.version m.version)) [
  | inr higher ↦ rw higher (ground arith, h)
  | inl lower ↦
      let rest = insert_migration-IsRising m (p ∷ ms) h.1 in
      elim (Bool-cases (ltb p.version m.version)) [
        | inl below ↦ rw (lower, below) (h.0, rw below at rest)
        | inr above ↦ rw (lower, above) (ground arith, rw above at rest)
      ]
]

sort_migrations-IsRising : (ms : List Migration) → IsRising (sort_migrations ms)
sort_migrations-IsRising [] = tt
sort_migrations-IsRising (m ∷ ms) = insert_migration-IsRising m _ (sort_migrations-IsRising ms)

known_versions :
    (b : Bool) (u : Unit {0}) → throw_if (not b) unknown_schema_version ≡ ok u → b ≡ true
known_versions true u e = refl
known_versions false u e = cc

-- A database that is brought up to date had no version that the program does not know; the versions
-- of the migrations it lacked are recorded behind those it had, in the order of the migrations,
-- which do not fall.
pub migrate-applied {ℓ} :
    {Tables : Type ℓ} (exec : Text → Tables → Result Tables) (violates : Tables → Bool)
    (files : List (ℕ × Text)) (s t : Schema Tables)
    → migrate exec violates files s ≡ ok t
    → (all (contains (map (λ (m : Migration). m.version) (load_migrations files))) s.applied ≡ true)
      × (t.applied ≡ s.applied ++ pending_versions s.applied (load_migrations files))
      × IsRising (load_migrations files)
unfolding migrate load_migrations
migrate-applied exec violates files s t e =
    let (u, known, applied) = >>=-eq-ok (throw_if _ unknown_schema_version) _ e in
    (
      known_versions _ u known,
      apply_all-applied exec violates s.applied (load_migrations files) s t applied,
      sort_migrations-IsRising (map migration_of files),
    )
