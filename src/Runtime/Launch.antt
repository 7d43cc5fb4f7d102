-- ===== src/Runtime/Launch.antt =====
-- parseLaunchOptions of src/runtime/launch-options.ts. `isAbsolute` of node:path is a parameter.
use herald_of_jams.Base.{
  ◌≡◌, refl, Bool, true, false, not, ◌||◌, List, [], ◌∷◌, ◌++◌, Option, none, some, Text, codes,
  text_eq, starts_with, if◌then◌else◌, Result, ok, throw, ◌>>=◌, ◌>>◌, throw_if, duplicate_argument,
  missing_option_value, path_not_absolute, unknown_argument,
}

pub record LaunchOptions : Type 0 where
  pub config_path : Option Text
  pub desktop : Bool
  pub smoke_test : Bool
  pub smoke_data_directory : Option Text

pub data Argument : Type 0 where
  config_argument desktop_argument smoke_test_argument data_dir_argument : Argument
  other_argument : Argument

abbrev pub argument_of : Text → Argument
argument_of option =
    if text_eq option (codes "--config")
    then config_argument
    else if text_eq option (codes "--desktop")
    then desktop_argument
    else if text_eq option (codes "--smoke-test")
    then smoke_test_argument
    else if text_eq option (codes "--data-dir")
    then data_dir_argument
    else other_argument

-- seen.has(option)
abbrev pub has_seen : List Text → Text → Bool
has_seen [] option = false
has_seen (s ∷ seen) option = text_eq s option || has_seen seen option

abbrev pub next_argument : List Text → Option Text
next_argument [] = none
next_argument (a ∷ rest) = some a

module _ (is_absolute : Text → Bool) where
  abbrev pub path_value : Option Text → Result Text
  path_value none = throw missing_option_value
  path_value (some value) =
      throw_if (starts_with (codes "--") value) missing_option_value
      >> throw_if (not (is_absolute value)) path_not_absolute
      >> ok value

  -- One option, with whether the argument after it is its value.
  abbrev pub read_argument : Argument → Option Text → LaunchOptions → Result (LaunchOptions × Bool)
  read_argument config_argument next o = do
    value ← path_value next
    ok (record o { config_path = some value }, true)
  read_argument desktop_argument next o = ok (record o { desktop = true }, false)
  read_argument smoke_test_argument next o = ok (record o { smoke_test = true }, false)
  read_argument data_dir_argument next o = do
    value ← path_value next
    ok (record o { smoke_data_directory = some value }, true)
  read_argument other_argument next o = throw unknown_argument

  -- The loop over the arguments; `skip` is the step of the index over a value.
  unfoldable pub read_arguments :
      List Text → LaunchOptions → Bool → List Text → Result LaunchOptions
  read_arguments seen o skip [] = ok o
  read_arguments seen o true (value ∷ args) = read_arguments seen o false args
  read_arguments seen o false (option ∷ args) = do
    throw_if (has_seen seen option) duplicate_argument
    (next, skip) ← read_argument (argument_of option) (next_argument args) o
    read_arguments (option ∷ seen) next skip args

  abbrev pub no_options : LaunchOptions
  no_options = record {
    config_path = none;
    desktop = false;
    smoke_test = false;
    smoke_data_directory = none;
  }

  unfoldable pub parse_launch_options : List Text → Result LaunchOptions
  parse_launch_options args = read_arguments [] no_options false args

  -- A path that can be the value of an option.
  abbrev pub IsPath : Option Text → Type 0
  IsPath none = Unit {0}
  IsPath (some path) = (starts_with (codes "--") path ≡ false) × (is_absolute path ≡ true)

abbrev launch_options : Option Text → Bool → Bool → Option Text → LaunchOptions
launch_options config desktop smoke data_dir = record {
  config_path = config;
  desktop = desktop;
  smoke_test = smoke;
  smoke_data_directory = data_dir;
}

-- A command line with the options.
abbrev pub path_arguments : Text → Option Text → List Text
path_arguments name none = []
path_arguments name (some path) = name ∷ path ∷ []

abbrev pub flag_arguments : Text → Bool → List Text
flag_arguments name false = []
flag_arguments name true = name ∷ []

abbrev pub arguments_of : LaunchOptions → List Text
arguments_of o =
    path_arguments (codes "--data-dir") o.smoke_data_directory
    ++ (flag_arguments (codes "--smoke-test") o.smoke_test
        ++ (flag_arguments (codes "--desktop") o.desktop
            ++ path_arguments (codes "--config") o.config_path))

-- A command line that gives each option once, with absolute paths, is read as these options.
pub parse_launch_options-arguments_of :
    (is_absolute : Text → Bool) (o : LaunchOptions)
    → IsPath is_absolute o.config_path
    → IsPath is_absolute o.smoke_data_directory
    → parse_launch_options is_absolute (arguments_of o) ≡ ok o
unfolding parse_launch_options read_arguments
parse_launch_options-arguments_of is_absolute o c d =
    go o.config_path o.desktop o.smoke_test o.smoke_data_directory c d
  where
    go :
        (config : Option Text) (desktop smoke : Bool) (data_dir : Option Text)
        → IsPath is_absolute config
        → IsPath is_absolute data_dir
        → parse_launch_options is_absolute
            (arguments_of (launch_options config desktop smoke data_dir))
          ≡ ok (launch_options config desktop smoke data_dir)
    go none false false none c d = refl
    go none false true none c d = refl
    go none true false none c d = refl
    go none true true none c d = refl
    go (some p) false false none c d = rw (c.0, c.1) refl
    go (some p) false true none c d = rw (c.0, c.1) refl
    go (some p) true false none c d = rw (c.0, c.1) refl
    go (some p) true true none c d = rw (c.0, c.1) refl
    go none false false (some q) c d = rw (d.0, d.1) refl
    go none false true (some q) c d = rw (d.0, d.1) refl
    go none true false (some q) c d = rw (d.0, d.1) refl
    go none true true (some q) c d = rw (d.0, d.1) refl
    go (some p) false false (some q) c d = rw (d.0, d.1, c.0, c.1) refl
    go (some p) false true (some q) c d = rw (d.0, d.1, c.0, c.1) refl
    go (some p) true false (some q) c d = rw (d.0, d.1, c.0, c.1) refl
    go (some p) true true (some q) c d = rw (d.0, d.1, c.0, c.1) refl
