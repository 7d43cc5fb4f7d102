-- ===== src/Tests/Fixtures.antt =====
-- A small round, a database and an environment for the applications of the theorems.
use herald_of_jams.Base.{ℕ, ◌+◌, [], ◌∷◌, none, some, codes, ltb, ◌≡◌, refl, ok}
use herald_of_jams.Numeric.{safe_integer, decimal}
use herald_of_jams.Announcements.{
  no_overrides, default_announcements, resolve_announcements, resolve_kind, validate_template,
  pieces, render_announcement, render_pieces, value_of,
}
use herald_of_jams.Predicates.{divisible_by, matches_predicate}
use herald_of_jams.Rounds.{
  natural, divisible_by_input, RoundTemplateInput, CompiledRound, compile_round, copy_input,
  assert_non_negative_safe_integer, assert_positive_safe_integer, copy_bonus_rules, copy_predicate,
  matches_any, entries_from, bonus_ids,
}
use herald_of_jams.Engine.{RoundState, waiting_for_start, EngineState, EngineInput}
use herald_of_jams.Store.{
  Database, Environment, RoundRow, LeaderboardEntry, OutboxRow, start_announcement, round_payload,
  pending,
}
use herald_of_jams.Game.Submissions.{InboundDiscordMessage}
use herald_of_jams.Game.Acceptance.{Case}

-- Count 1, 2, 3, with a bonus for even numbers.
abbrev pub small_template : RoundTemplateInput
small_template = record {
  name = codes "small";
  notes = none;
  channel_id = 7;
  start_value = natural 1;
  target_value = natural 3;
  step_value = natural 1;
  skip_rules = [];
  bonus_rules = record { id = codes "even"; predicate = divisible_by_input (natural 2) } ∷ [];
  announcements = no_overrides;
}

abbrev pub small_round : CompiledRound
small_round = record {
  input = record {
    name = codes "small";
    notes = none;
    channel_id = 7;
    start_at = 1;
    target = 3;
    step = 1;
    skip_rules = [];
    bonus_rules = record { id = codes "even"; predicate = divisible_by 2 } ∷ [];
    announcements = no_overrides;
  };
  entries =
      record { position = 0; value = 1; bonus_rule_ids = [] }
      ∷ record { position = 1; value = 2; bonus_rule_ids = codes "even" ∷ [] }
      ∷ record { position = 2; value = 3; bonus_rule_ids = [] }
      ∷ [];
  announcements = default_announcements;
}

abbrev pub state_in : RoundState → ℕ → EngineState
state_in state accepted = record {
  round_state = state;
  paused_from = none;
  next_position = accepted;
  previous_accepted_player_id = some 41;
  accepted_count = accepted;
  banned_player_ids = 66 ∷ [];
}

abbrev pub submitted : ℕ → ℕ → EngineInput
submitted player value = record {
  player_id = player;
  parsed = safe_integer ((b'0' + value) ∷ []) value;
  compiled = small_round;
}

abbrev pub small_env : Environment
small_env = record {
  ids = λ n. n + 100;
  nonce = λ id. id ∷ [];
  named_before = λ (a : LeaderboardEntry) (b : LeaderboardEntry). ltb a.player_id b.player_id;
}

abbrev pub empty_database : Database
empty_database = record {
  seasons = [];
  players = [];
  templates = record { id = 5; input = small_template; created_at = 0; updated_at = 0 } ∷ [];
  announcement_settings = some default_announcements;
  rounds = [];
  compiled_entries = [];
  attempts = [];
  submissions = [];
  contributions = [];
  penalties = [];
  bans = [];
  ledger = [];
  outbox = [];
  audits = [];
  issued = 0;
}

abbrev pub active_row : RoundRow
active_row = record {
  id = 101;
  template_id = 5;
  season_id = 100;
  channel_id = 7;
  state = waiting_for_start;
  paused_from_state = none;
  compiled_config = small_round;
  activated_at = 1000;
  completed_at = none;
  cancelled_at = none;
  operationally_settled_at = none;
}

abbrev pub small_message : InboundDiscordMessage
small_message = record {
  id = 900;
  channel_id = 7;
  author_id = 42;
  display_name = codes "Ann";
  content = codes "1";
  created_at = 1999;
}

abbrev pub small_case : Case
small_case = record {
  now = 2000;
  round = active_row;
  message = small_message;
  parsed = safe_integer (codes "1") 1;
}

abbrev pub first_operation : OutboxRow
first_operation = record {
  id = 300;
  channel_id = 7;
  sequence_number = 1;
  predecessor_id = none;
  operation_type = start_announcement;
  payload = round_payload (codes "go") 101;
  nonce = codes "n";
  status = pending;
  attempt_count = 0;
  next_attempt_at = none;
  last_error = none;
  discord_message_id = none;
  created_at = 1000;
  resolved_at = none;
}

abbrev pub queued_database : Database
queued_database = record empty_database { outbox = first_operation ∷ [] }

pub small_template_compiles : compile_round small_template default_announcements ≡ ok small_round
unfolding compile_round copy_input assert_non_negative_safe_integer assert_positive_safe_integer
    copy_bonus_rules copy_predicate resolve_announcements resolve_kind validate_template pieces
    render_announcement render_pieces value_of decimal matches_any entries_from bonus_ids
    matches_predicate
small_template_compiles = refl
