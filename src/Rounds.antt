-- ===== src/Rounds.antt =====
-- src/domain/round-compiler.ts and the round types of src/domain/types.ts: from the administrator's
-- input to the entries that players have to submit. An id of a channel is a number.
pub mod Entries
pub mod Compiling
use herald_of_jams.Base.{
  ℕ, zero, suc, ◌+◌, ◌-◌, ◌*◌, ◌/◌, ◌%◌, Bool, true, false, not, ◌&&◌, ◌||◌, List, [], ◌∷◌, map,
  Option, Text, leb, ltb, ◌==◌, if◌then◌else◌, length, any, select, is_empty, text_eq, Result, ok,
  throw, throw_if, map_result, ◌>>=◌, ◌>>◌, Error, not_safe_integer, step_not_positive,
  target_below_start, target_unreachable, too_many_candidates, too_many_entries, target_skipped,
  divisor_not_positive, range_inverted, empty_rule_id, duplicate_rule_id, none, some,
}
use herald_of_jams.Numeric.{max_safe_integer}
use herald_of_jams.Predicates.{RulePredicate, prime, divisible_by, one_of, range, matches_predicate}
use herald_of_jams.Announcements.{
  AnnouncementTemplates, AnnouncementOverrides, AnnouncementValues, start, resolve_announcements,
  render_announcement,
}

-- A number of the input: a natural number, -(n + 1), or anything else (a fraction, NaN, an infinity).
pub data Number : Type 0 where
  natural : ℕ → Number
  negative : ℕ → Number
  other : Number

-- A predicate as it is given, before its numbers are checked.
pub data PredicateInput : Type 0 where
  prime_input : PredicateInput
  divisible_by_input : (divisor : Number) → PredicateInput
  one_of_input : (values : List Number) → PredicateInput
  range_input : (minimum maximum : Number) → PredicateInput

pub record BonusRuleInput : Type 0 where
  pub id : Text
  pub predicate : PredicateInput

pub record RoundTemplateInput : Type 0 where
  pub name : Text
  pub notes : Option Text
  pub channel_id : ℕ
  pub start_value : Number
  pub target_value : Number
  pub step_value : Number
  pub skip_rules : List PredicateInput
  pub bonus_rules : List BonusRuleInput
  pub announcements : AnnouncementOverrides

pub record BonusRule : Type 0 where
  pub id : Text
  pub predicate : RulePredicate

-- The copy of the input, all of whose numbers are safe integers.
pub record RoundInput : Type 0 where
  pub name : Text
  pub notes : Option Text
  pub channel_id : ℕ
  pub start_at : ℕ
  pub target : ℕ
  pub step : ℕ
  pub skip_rules : List RulePredicate
  pub bonus_rules : List BonusRule
  pub announcements : AnnouncementOverrides

pub record CompiledEntry : Type 0 where
  pub position : ℕ
  pub value : ℕ
  pub bonus_rule_ids : List Text

pub record CompiledRound : Type 0 where
  pub input : RoundInput
  pub entries : List CompiledEntry
  pub announcements : AnnouncementTemplates

abbrev pub max_included_entries : ℕ
max_included_entries = 100000

abbrev pub max_candidate_entries : ℕ
max_candidate_entries = 1000000

-- assertNonNegativeSafeInteger, with the number that passed.
unfoldable pub assert_non_negative_safe_integer : Number → Result ℕ
assert_non_negative_safe_integer (natural n) =
    if ltb max_safe_integer n then throw not_safe_integer else ok n
assert_non_negative_safe_integer _ = throw not_safe_integer

-- if (!Number.isSafeInteger(value) || value <= 0) throw
unfoldable pub assert_positive_safe_integer : Error → Number → Result ℕ
assert_positive_safe_integer e (natural n) =
    if ltb max_safe_integer n || n == 0 then throw e else ok n
assert_positive_safe_integer e _ = throw e

unfoldable pub copy_predicate : PredicateInput → Result RulePredicate
copy_predicate prime_input = ok prime
copy_predicate (divisible_by_input divisor) = do
  d ← assert_positive_safe_integer divisor_not_positive divisor
  ok (divisible_by d)
copy_predicate (one_of_input values) = do
  copied ← map_result assert_non_negative_safe_integer values
  ok (one_of copied)
copy_predicate (range_input minimum maximum) = do
  lowest ← assert_non_negative_safe_integer minimum
  highest ← assert_non_negative_safe_integer maximum
  throw_if (ltb highest lowest) range_inverted
  ok (range lowest highest)

-- `ids` are the ids of the rules above.
unfoldable pub copy_bonus_rules : List Text → List BonusRuleInput → Result (List BonusRule)
copy_bonus_rules ids [] = ok []
copy_bonus_rules ids (rule ∷ rules) = do
  throw_if (is_empty rule.id) empty_rule_id
  throw_if (any (λ id. text_eq id rule.id) ids) duplicate_rule_id
  predicate ← copy_predicate rule.predicate
  copied ← copy_bonus_rules (rule.id ∷ ids) rules
  ok (record { id = rule.id; predicate = predicate } ∷ copied)

-- copyInput, given the three numbers that `compileRound` has checked.
unfoldable pub copy_input : RoundTemplateInput → ℕ → ℕ → ℕ → Result RoundInput
copy_input input start_at target step = do
  skip_rules ← map_result copy_predicate input.skip_rules
  bonus_rules ← copy_bonus_rules [] input.bonus_rules
  ok (record {
    name = input.name;
    notes = input.notes;
    channel_id = input.channel_id;
    start_at = start_at;
    target = target;
    step = step;
    skip_rules = skip_rules;
    bonus_rules = bonus_rules;
    announcements = input.announcements;
  })

abbrev pub value_at : RoundInput → ℕ → ℕ
value_at input index = input.start_at + index * input.step

unfoldable pub matches_any : List RulePredicate → ℕ → Bool
matches_any rules value = any (matches_predicate value) rules

abbrev pub skips : RoundInput → ℕ → Bool
skips input index = ltb 0 index && matches_any input.skip_rules (value_at input index)

unfoldable pub bonus_ids : List BonusRule → ℕ → List Text
bonus_ids rules value =
    map (λ (rule : BonusRule). rule.id)
      (select (λ rule. matches_predicate value rule.predicate) rules)

abbrev pub entry_at : RoundInput → ℕ → ℕ → CompiledEntry
entry_at input position index = record {
  position = position;
  value = value_at input index;
  bonus_rule_ids = bonus_ids input.bonus_rules (value_at input index);
}

-- The loop over the candidates: `rounds` are left, `included` entries have been pushed.
unfoldable pub entries_from : RoundInput → ℕ → ℕ → ℕ → Result (List CompiledEntry)
entries_from input zero index included = ok []
entries_from input (suc rounds) index included =
    let skip = entries_from input rounds (index + 1) included in
    let push : Result (List CompiledEntry) =
      entries_from input rounds (index + 1) (included + 1) >>= λ rest.
      ok (entry_at input included index ∷ rest) in
    if skips input index
    then skip
    else if included == max_included_entries
    then throw too_many_entries
    else push

abbrev pub start_values : ℕ → AnnouncementValues
start_values n = record { player_value = none; bonus_points_value = none; start_value = some n }

unfoldable pub compile_round : RoundTemplateInput → AnnouncementTemplates → Result CompiledRound
compile_round input defaults = do
  start_at ← assert_non_negative_safe_integer input.start_value
  target ← assert_non_negative_safe_integer input.target_value
  step ← assert_positive_safe_integer step_not_positive input.step_value
  throw_if (ltb target start_at) target_below_start
  let distance = target - start_at
  throw_if (not (distance % step == 0)) target_unreachable
  let candidate_count = distance / step + 1
  throw_if (ltb max_candidate_entries candidate_count) too_many_candidates
  copied ← copy_input input start_at target step
  announcements ← resolve_announcements defaults copied.announcements
  rendered ← render_announcement start announcements.start_text (start_values copied.start_at)
  throw_if (not (target == start_at) && matches_any copied.skip_rules target) target_skipped
  entries ← entries_from copied candidate_count 0 0
  ok (record { input = copied; entries = entries; announcements = announcements })
