-- ===== src/Tests/Domain.antt =====
-- The theorems on src/domain, applied.
use herald_of_jams.Base.{
  ◌≤◌, ◌≡◌, ◌↔◌, inr, refl, arith, true, false, length, List, [], ◌∷◌, none, some, Text, codes, All,
  ok, throw, if◌then◌else◌, ltb, rendered_too_long, contains,
}
use herald_of_jams.Base.Int.{negsuc}
use herald_of_jams.Numeric.{parse_numeric_submission, max_safe_integer}
use herald_of_jams.Numeric.Order.{parse_by_value, parse_numeric_submission-by_value}
use herald_of_jams.Predicates.{is_prime}
use herald_of_jams.Predicates.Primality.{IsPrime, is_prime_iff}
use herald_of_jams.Scoring.{Count, penalty_severity}
use herald_of_jams.Scoring.Penalties.{quarter, penalty_severity-quarter}
use herald_of_jams.Scoring.Awards.{award_of, award_balanced}
use herald_of_jams.Announcements.{
  bonus, AnnouncementValues, default_announcements, pieces, validate_template, render_pieces,
  render_announcement, max_discord_message_length,
}
use herald_of_jams.Announcements.Rendering.{render_announcement-total}
use herald_of_jams.Announcements.Resolution.{repeated_player, render_announcement-too_long}
use herald_of_jams.Rounds.Compiling.{
  IsSelection, IsSequence, compile_round-IsSelection, compile_round-IsSequence,
}
use herald_of_jams.Engine.{counting, EngineDecision, accepted, unexpected, evaluate_submission}
use herald_of_jams.Engine.Decisions.{
  IsAccepted, evaluate_submission-accepted, evaluate_submission-accepts, evaluate_submission-broken,
  evaluate_submission-decides,
}
use herald_of_jams.Tests.Fixtures.{
  small_template, small_round, state_in, submitted, small_template_compiles,
}

by_value_example : parse_numeric_submission (codes "0042") ≡ parse_by_value (codes "0042")
by_value_example = parse_numeric_submission-by_value (codes "0042")

is_prime_example : (is_prime 91 ≡ true) ↔ ((91 ≤ max_safe_integer) × IsPrime 91)
is_prime_example = is_prime_iff 91

quarter_example : penalty_severity 7 20 ≡ ok (negsuc (quarter 7 20))
quarter_example = penalty_severity-quarter 7 20 (omega arith, omega arith, omega arith)

abbrev three_counts : List Count
three_counts = (1, 4) ∷ (2, 9) ∷ (3, 7) ∷ []

award_balanced_example :
    (¬ All (λ c. award_of three_counts c ≡ 2) three_counts)
    × (¬ All (λ c. 4 ≤ award_of three_counts c) three_counts)
award_balanced_example =
    award_balanced three_counts
      ((omega arith, omega arith), ((omega arith, omega arith), ((omega arith, omega arith), tt)))
      (λ e. cc)

abbrev ann : AnnouncementValues
ann = record { player_value = some (codes "Ann"); bonus_points_value = some 2; start_value = none }

abbrev short_bonus : Text
short_bonus = codes "{player}: {bonusPoints}"

total_example :
    (rendered : Text) × (render_pieces ann (pieces short_bonus) ≡ ok rendered)
    × (render_announcement bonus short_bonus ann ≡ (
        if ltb max_discord_message_length (length rendered)
        then throw rendered_too_long
        else ok rendered))
unfolding validate_template pieces
total_example = render_announcement-total bonus short_bonus ann refl (refl, refl)

abbrev long_name : Text
long_name = codes "abcdefghijklmnopqrstuvwxyzabcdef"

too_long_example :
    (validate_template bonus (repeated_player 63) ≡ ok tt)
    × (render_announcement bonus (repeated_player 63) (record {
      player_value = some long_name;
      bonus_points_value = some 1;
      start_value = none;
    })
        ≡ throw rendered_too_long)
too_long_example =
    render_announcement-too_long 63 long_name
      (record { player_value = some long_name; bonus_points_value = some 1; start_value = none })
      (omega arith) (omega arith) (omega arith) refl

IsSelection_example : IsSelection small_round
IsSelection_example =
    compile_round-IsSelection small_template default_announcements small_round
      small_template_compiles

IsSequence_example : IsSequence small_round
IsSequence_example =
    compile_round-IsSequence small_template default_announcements small_round
      small_template_compiles

accepted_example : IsAccepted (state_in counting 1) (submitted 42 2) 1 (codes "even" ∷ []) false
unfolding evaluate_submission
accepted_example =
    evaluate_submission-accepted (state_in counting 1) (submitted 42 2) 1 (codes "even" ∷ []) false
      refl

accepts_example :
    evaluate_submission (state_in counting 2) (submitted 42 3) ≡ ok (accepted 2 [] true)
accepts_example =
    evaluate_submission-accepts (state_in counting 2) (submitted 42 3) 2 [] true (record {
      index = 2;
      entry = record { position = 2; value = 3; bonus_rule_ids = [] };
      turn = record { expected = refl; value_matches = refl; not_banned = refl };
      fields = (refl, refl);
      situation = inr (refl, refl, refl);
      last_entry = refl;
    })

broken_example :
    (counting ≡ counting) × (contains (66 ∷ []) 42 ≡ false) × (penalty_severity 1 3 ≡ ok (negsuc 2))
unfolding evaluate_submission penalty_severity
broken_example =
    evaluate_submission-broken (state_in counting 1) (submitted 42 3) unexpected (negsuc 2) refl

decides_example :
    (decision : EngineDecision) × (evaluate_submission (state_in counting 1) (submitted 42 2)
      ≡ ok decision)
decides_example =
    evaluate_submission-decides (state_in counting 1) (submitted 42 2) (λ e. cc, λ e. cc)
      (inr (omega arith, refl, omega arith, omega arith))
