-- ===== src/Tests/Starting.antt =====
-- The theorems on src/runtime, src/config.ts, src/db/database.ts and src/web, applied.
use herald_of_jams.Base.{
  ℕ, suc, ◌≤◌, ◌≡◌, refl, true, false, List, [], ◌∷◌, ◌++◌, map, none, some, Text, codes, all, any,
  contains, arith, ok,
}
use herald_of_jams.Runtime.Launch.{LaunchOptions}
use herald_of_jams.Runtime.Control.{
  new_channel, on_chunks, is_shutdown, split_lines, one_if, on_chunks-requests,
}
use herald_of_jams.Runtime.Config.{
  ParsedEnvironment, IsSafe, config_of, parse_configuration, resolve_config, resolve_config-IsSafe,
}
use herald_of_jams.Migrations.{
  Migration, Schema, load_migrations, apply_all, migrate, pending_versions, IsRising,
  migrate-applied,
}
use herald_of_jams.Web.Login.{attempt_of, verifying, begin_login, first_failure, verifications}
use herald_of_jams.Web.Login.Lockout.{verifications-five}
use herald_of_jams.Web.Login.Race.{finish_failures, finish_failures-one}

on_chunks_example :
    ((on_chunks (codes "shut" ∷ codes "down\nx" ∷ []) new_channel).requests
      ≡ one_if (any is_shutdown (split_lines (codes "shutdown\nx")).0))
    × ((on_chunks (codes "shut" ∷ codes "down\nx" ∷ []) new_channel).buffer
        ≡ (split_lines (codes "shutdown\nx")).1)
on_chunks_example = on_chunks-requests (codes "shut") (codes "down\nx" ∷ [])

abbrev parsed : ParsedEnvironment
parsed = record {
  production = true;
  discord_token = codes "t";
  discord_application_id = codes "12";
  discord_guild_id = codes "34";
  database_path = codes "d";
  admin_host = codes "127.0.0.1";
  admin_port = 3000;
  admin_password_hash = codes "h";
  session_secret = codes "s";
  admin_secure_cookie = false;
  trust_proxy = false;
}

abbrev desktop_options : LaunchOptions
desktop_options = record {
  config_path = none;
  desktop = true;
  smoke_test = false;
  smoke_data_directory = none;
}

resolve_config_example : IsSafe true (config_of true parsed)
unfolding resolve_config parse_configuration
resolve_config_example =
    resolve_config-IsSafe (λ env. ok parsed) (λ text. none) (λ path. none) (λ path. path)
      desktop_options [] (config_of true parsed) refl

abbrev old_schema : Schema ℕ
old_schema = record { tables = 0; applied = 1 ∷ []; foreign_keys = true }

abbrev migration_files : List (ℕ × Text)
migration_files = (2, codes "b") ∷ (1, codes "a") ∷ []

migrate_example :
    (all (contains (map (λ (m : Migration). m.version) (load_migrations migration_files))) (1 ∷ [])
      ≡ true)
    × (1 ∷ 2 ∷ [] ≡ 1 ∷ [] ++ pending_versions (1 ∷ []) (load_migrations migration_files))
    × IsRising (load_migrations migration_files)
unfolding migrate load_migrations apply_all
migrate_example =
    migrate-applied (λ sql n. ok (suc n)) (λ n. false) migration_files old_schema
      (record { tables = 1; applied = 1 ∷ 2 ∷ []; foreign_keys = true }) refl

verifications_example : verifications 9 (1000 ∷ 2000 ∷ 3000 ∷ []) [] ≤ 5
unfolding attempt_of
verifications_example =
    verifications-five 9 1000 (2000 ∷ 3000 ∷ []) [] refl
      ((omega arith, omega arith), ((omega arith, omega arith), tt))

finish_failures_example :
    ((begin : ℕ) → begin_login begin 9 [] ≡ verifying none)
    × (begin_login 1001 9 (finish_failures 9 none (1000 ∷ 1002 ∷ 998 ∷ []) [])
        ≡ verifying (some (first_failure 998 9)))
unfolding attempt_of
finish_failures_example = finish_failures-one 1000 (1002 ∷ 998 ∷ []) 1001 9 [] refl
