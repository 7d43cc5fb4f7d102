-- ===== src/Runtime/Config.antt =====
-- parseConfiguration, loadExplicitEnvironment and resolveConfig of src/config.ts. The schema of the
-- zod library, the parser of node:util and node:path are parameters.
use herald_of_jams.Base.{
  ℕ, ◌≡◌, refl, arith, Bool, true, false, not, ◌&&◌, ◌||◌, List, [], ◌∷◌, Option, none, some, Text,
  codes, text_eq, starts_with, leb, ◌==◌, if◌then◌else◌, any, all, is_empty, contains, drop, map,
  ◌++◌, Error, subst, Result, ok, throw, ◌>>=◌, ◌>>◌, throw_if, or_throw, >>=-eq-ok, ok-injective,
  not_production_desktop, not_decimal_application, not_decimal_guild, not_loopback_desktop,
  trusted_proxy_desktop, secure_cookie_desktop, untrusted_proxy_production, insecure_cookie,
  unreadable_config, nul_byte, malformed_assignment, unparsable_config,
}
use herald_of_jams.Outbox.{is_blank}
use herald_of_jams.Runtime.Launch.{LaunchOptions}
use herald_of_jams.Runtime.Control.{strip_return, split_lines}

-- What the schema makes of the environment.
pub record ParsedEnvironment : Type 0 where
  pub production : Bool
  pub discord_token : Text
  pub discord_application_id : Text
  pub discord_guild_id : Text
  pub database_path : Text
  pub admin_host : Text
  pub admin_port : ℕ
  pub admin_password_hash : Text
  pub session_secret : Text
  pub admin_secure_cookie : Bool
  pub trust_proxy : Bool

-- AppConfig
pub record AppConfig : Type 0 where
  pub token : Text
  pub application_id : Text
  pub guild_id : Text
  pub database_path : Text
  pub host : Text
  pub port : ℕ
  pub password_hash : Text
  pub session_secret : Text
  pub secure_cookie : Bool
  pub trust_proxy : Bool
  pub production : Bool
  pub desktop : Bool

-- /^\d+$/
abbrev pub is_decimal : Text → Bool
is_decimal t = not (is_empty t) && all (λ c. leb b'0' c && leb c b'9') t

abbrev pub is_loopback_host : Text → Bool
is_loopback_host host =
    text_eq host (codes "127.0.0.1")
    || text_eq host (codes "::1")
    || text_eq host (codes "localhost")

abbrev pub check_desktop : ParsedEnvironment → Result (Unit {0})
check_desktop parsed =
    throw_if (not parsed.production) not_production_desktop
    >> throw_if (not (is_decimal parsed.discord_application_id)) not_decimal_application
    >> throw_if (not (is_decimal parsed.discord_guild_id)) not_decimal_guild
    >> throw_if (not (is_loopback_host parsed.admin_host)) not_loopback_desktop
    >> throw_if parsed.trust_proxy trusted_proxy_desktop
    >> throw_if parsed.admin_secure_cookie secure_cookie_desktop

abbrev pub check_server : ParsedEnvironment → Result (Unit {0})
check_server parsed =
    throw_if (parsed.production && not parsed.trust_proxy) untrusted_proxy_production
    >> throw_if
        (not parsed.admin_secure_cookie
          && (parsed.production || not (is_loopback_host parsed.admin_host)))
        insecure_cookie

abbrev pub config_of : Bool → ParsedEnvironment → AppConfig
config_of desktop parsed = record {
  token = parsed.discord_token;
  application_id = parsed.discord_application_id;
  guild_id = parsed.discord_guild_id;
  database_path = parsed.database_path;
  host = parsed.admin_host;
  port = parsed.admin_port;
  password_hash = parsed.admin_password_hash;
  session_secret = parsed.session_secret;
  secure_cookie = parsed.admin_secure_cookie;
  trust_proxy = parsed.trust_proxy;
  production = parsed.production;
  desktop = desktop;
}

unfoldable pub parse_configuration : Result ParsedEnvironment → Bool → Result AppConfig
parse_configuration schema desktop = do
  parsed ← schema
  if desktop then check_desktop parsed else check_server parsed
  ok (config_of desktop parsed)

-- process.env, or what a file assigns.
abbrev pub RawEnvironment : Type 0
RawEnvironment = List (Text × Text)

abbrev pub trim_start : Text → Text
trim_start [] = []
trim_start (c ∷ t) = if is_blank c then trim_start t else c ∷ t

abbrev pub trim_end : Text → Text
trim_end [] = []
trim_end (c ∷ t) = let rest = trim_end t in if is_empty rest && is_blank c then [] else c ∷ rest

abbrev pub is_name_start : ℕ → Bool
is_name_start c = leb b'A' c && leb c b'Z' || leb b'a' c && leb c b'z' || c == b'_'

abbrev pub is_name_part : ℕ → Bool
is_name_part c = is_name_start c || leb b'0' c && leb c b'9'

-- \s*=
abbrev pub after_blanks : Text → Bool
after_blanks [] = false
after_blanks (c ∷ t) = let rest = after_blanks t in if is_blank c then rest else c == b'='

-- [A-Za-z0-9_]*\s*=
abbrev pub after_name : Text → Bool
after_name [] = false
after_name (c ∷ t) =
    let rest = after_name t in if is_name_part c then rest else after_blanks (c ∷ t)

-- /^[A-Za-z_][A-Za-z0-9_]*\s*=/
abbrev pub is_assignment : Text → Bool
is_assignment [] = false
is_assignment (c ∷ t) = is_name_start c && after_name t

unfoldable pub is_malformed : Text → Bool
is_malformed line =
    let trimmed = trim_end (trim_start line) in
    let assignment =
      if starts_with (codes "export ") trimmed then trim_start (drop 7 trimmed) else trimmed in
    not (is_empty trimmed || starts_with (codes "#") trimmed) && not (is_assignment assignment)

-- contents.split(/\r?\n/u)
abbrev pub file_lines : Text → List Text
file_lines contents = map strip_return (split_lines contents).0 ++ (split_lines contents).1 ∷ []

abbrev pub has_key : Text → RawEnvironment → Bool
has_key key [] = false
has_key key ((k, value) ∷ env) = text_eq k key || has_key key env

-- `read` is the file (none where it cannot be read), `parse_env` the parser of node:util.
unfoldable pub load_explicit_environment :
    (Text → Option RawEnvironment) → Option Text → Result RawEnvironment
load_explicit_environment parse_env read = do
  contents ← or_throw read unreadable_config
  throw_if (contains contents 0) nul_byte
  throw_if (any is_malformed (file_lines contents)) malformed_assignment
  or_throw (parse_env contents) unparsable_config

-- fileEnvironment.DATABASE_PATH ??= …
abbrev pub with_database_path : Text → RawEnvironment → RawEnvironment
with_database_path path env =
    if has_key (codes "DATABASE_PATH") env then env else (codes "DATABASE_PATH", path) ∷ env

module _ (schema : RawEnvironment → Result ParsedEnvironment)
    (parse_env : Text → Option RawEnvironment) (files : Text → Option Text)
    (beside : Text → Text) where
  abbrev pub resolve_path : Option Text → Bool → RawEnvironment → Result AppConfig
  resolve_path none desktop env = parse_configuration (schema env) desktop
  resolve_path (some path) desktop env = do
    file_environment ← load_explicit_environment parse_env (files path)
    parse_configuration (schema (with_database_path (beside path) file_environment)) desktop

  unfoldable pub resolve_config : LaunchOptions → RawEnvironment → Result AppConfig
  resolve_config options env = resolve_path options.config_path options.desktop env

-- What a configuration of the desktop program has.
pub record IsDesktopSafe (c : AppConfig) : Type 0 where
  pub production : c.production ≡ true
  pub loopback : is_loopback_host c.host ≡ true
  pub direct : c.trust_proxy ≡ false
  pub plain_cookie : c.secure_cookie ≡ false
  pub decimal_application : is_decimal c.application_id ≡ true
  pub decimal_guild : is_decimal c.guild_id ≡ true

-- What a configuration of a server has.
pub record IsServerSafe (c : AppConfig) : Type 0 where
  pub proxied : (not c.production || c.trust_proxy) ≡ true
  pub secured : (not c.production || c.secure_cookie) ≡ true
  pub local_if_plain : (c.secure_cookie || is_loopback_host c.host) ≡ true

abbrev pub IsSafe : Bool → AppConfig → Type 0
IsSafe true c = (c.desktop ≡ true) × IsDesktopSafe c
IsSafe false c = (c.desktop ≡ false) × IsServerSafe c

throw_if-ok : (b : Bool) (e : Error) (u : Unit {0}) → throw_if b e ≡ ok u → b ≡ false
throw_if-ok true e u h = cc
throw_if-ok false e u h = refl

check_desktop-IsDesktopSafe :
    (parsed : ParsedEnvironment) (u : Unit {0})
    → check_desktop parsed ≡ ok u
    → IsDesktopSafe (config_of true parsed)
check_desktop-IsDesktopSafe parsed u e =
    let (u5, e5, secure) = >>=-eq-ok _ _ e in
    let (u4, e4, proxy) = >>=-eq-ok _ _ e5 in
    let (u3, e3, host) = >>=-eq-ok _ _ e4 in
    let (u2, e2, guild) = >>=-eq-ok _ _ e3 in
    let (u1, production, application) = >>=-eq-ok _ _ e2 in
    record {
      production = not-false (throw_if-ok _ _ u1 production);
      loopback = not-false (throw_if-ok _ _ u4 host);
      direct = throw_if-ok _ _ u5 proxy;
      plain_cookie = throw_if-ok _ _ u secure;
      decimal_application = not-false (throw_if-ok _ _ u2 application);
      decimal_guild = not-false (throw_if-ok _ _ u3 guild);
    }
  where
    not-false : {b : Bool} → not b ≡ false → b ≡ true
    not-false {b = b} h = ground arith

check_server-IsServerSafe :
    (parsed : ParsedEnvironment) (u : Unit {0})
    → check_server parsed ≡ ok u
    → IsServerSafe (config_of false parsed)
check_server-IsServerSafe parsed u e =
    let (u1, proxy, cookie) = >>=-eq-ok _ _ e in
    let p = throw_if-ok _ _ u1 proxy in
    let k = throw_if-ok _ _ u cookie in
    record {
      proxied = proxied parsed.production parsed.trust_proxy p;
      secured = secured parsed.production parsed.admin_secure_cookie _ k;
      local_if_plain = local parsed.production parsed.admin_secure_cookie _ k;
    }
  where
    proxied : (a b : Bool) → (a && not b) ≡ false → (not a || b) ≡ true
    proxied a b h = ground arith

    secured : (a b c : Bool) → (not b && (a || not c)) ≡ false → (not a || b) ≡ true
    secured a b c h = ground arith

    local : (a b c : Bool) → (not b && (a || not c)) ≡ false → (b || c) ≡ true
    local a b c h = ground arith

parse_configuration-IsSafe :
    (schema : Result ParsedEnvironment) (desktop : Bool) (c : AppConfig)
    → parse_configuration schema desktop ≡ ok c
    → IsSafe desktop c
unfolding parse_configuration
parse_configuration-IsSafe (throw error) desktop c e = cc
parse_configuration-IsSafe (ok parsed) true c e =
    let (u, checked, done) = >>=-eq-ok (check_desktop parsed) _ e in
    subst (IsSafe true) (ok-injective done) (refl, check_desktop-IsDesktopSafe parsed u checked)
parse_configuration-IsSafe (ok parsed) false c e =
    let (u, checked, done) = >>=-eq-ok (check_server parsed) _ e in
    subst (IsSafe false) (ok-injective done) (refl, check_server-IsServerSafe parsed u checked)

-- Whatever the program is configured by, the environment or a file: a desktop program is in
-- production, on a loopback address, behind no proxy, with decimal ids; a server in production
-- trusts its proxy and has a secure cookie, and a server without a secure cookie is on a loopback
-- address.
pub resolve_config-IsSafe :
    (schema : RawEnvironment → Result ParsedEnvironment) (parse_env : Text → Option RawEnvironment)
    (files : Text → Option Text) (beside : Text → Text) (options : LaunchOptions)
    (env : RawEnvironment) (c : AppConfig)
    → resolve_config schema parse_env files beside options env ≡ ok c
    → IsSafe options.desktop c
unfolding resolve_config
resolve_config-IsSafe schema parse_env files beside options env c e = by_path options.config_path e
  where
    by_path :
        (path : Option Text)
        → resolve_path schema parse_env files beside path options.desktop env ≡ ok c
        → IsSafe options.desktop c
    by_path none e = parse_configuration-IsSafe (schema env) options.desktop c e
    by_path (some path) e =
        let (file, loaded, done) =
          >>=-eq-ok (load_explicit_environment parse_env (files path)) _ e in
        parse_configuration-IsSafe _ options.desktop c done
