-- ===== src/Game/Recording/Rows.antt =====
-- What the parts of processMessage of src/application/game-service.ts do to the rows of submissions.
use herald_of_jams.Base.{
  ℕ, zero, suc, ◌+◌, ◌≡◌, refl, sym, ap, ◌∙◌, subst, arith, Bool, true, false, List, [], ◌∷◌, ◌++◌,
  Text, ◌==◌, any, find?, is_some, ok, >>=-eq-ok, ok-injective,
}
use herald_of_jams.Base.Int.{ℤ}
use herald_of_jams.Scoring.{Count, participation_awards}
use herald_of_jams.Announcements.{bonus, reset, completion, render_announcement}
use herald_of_jams.Rounds.{CompiledRound, start_values}
use herald_of_jams.Engine.{BreakReason}
use herald_of_jams.Store.{
  Database, Environment, RoundRow, SubmissionRow, ContributionRow, LeaderboardEntry, submission,
}
use herald_of_jams.Game.Outgoing.{audit, enqueue, enqueue_parts, enqueue_canonical}
use herald_of_jams.Game.Submissions.{insert_submission}
use herald_of_jams.Game.Completion.{
  award_for, insert_ledger, insert_reward, insert_rewards, enqueue_pages, close_completed,
  complete_round, contributions_of, counts_of, no_values,
}
use herald_of_jams.Game.Acceptance.{
  Case, add_contribution, set_round_state, record_accepted, bonus_values, announce_bonus,
  finish_accepted,
}
use herald_of_jams.Game.Breaking.{
  set_penalty, charge_penalty, break_attempt, drop_contributions, announce_reset, record_broken,
}

-- A submission of this message is stored.
abbrev pub Stored : ℕ → Database → Type 0
Stored message db = any (λ s. s.message_id == message) db.submissions ≡ true

pub any-last :
    (message : ℕ) (rows : List SubmissionRow) (row : SubmissionRow)
    → row.message_id ≡ message
    → any (λ (s : SubmissionRow). s.message_id == message) (rows ++ row ∷ []) ≡ true
any-last message [] row e = ground arith
any-last message (r ∷ rows) row e = ground (arith, any-last message rows row e)

pub any-find? :
    (message : ℕ) (rows : List SubmissionRow)
    → any (λ (s : SubmissionRow). s.message_id == message) rows ≡ true
    → is_some (find? (λ (s : SubmissionRow). s.message_id == message) rows) ≡ true
any-find? message [] h = cc
any-find? message (r ∷ rows) h = ground (arith, any-find? message rows)

pub enqueue_parts-submissions :
    (env : Environment) (now channel submission part : ℕ) (contents : List Text) (db : Database)
    → (enqueue_parts env now channel submission part contents db).1.submissions ≡ db.submissions
unfolding enqueue_parts enqueue
enqueue_parts-submissions env now channel submission part [] db = refl
enqueue_parts-submissions env now channel submission part (content ∷ contents) db =
    enqueue_parts-submissions env now channel submission (part + 1) contents _

pub enqueue_pages-submissions :
    (env : Environment) (now : ℕ) (round : RoundRow) (entries : List LeaderboardEntry) (page : ℕ)
    (contents : List Text) (db : Database)
    → (enqueue_pages env now round entries page contents db).0.submissions ≡ db.submissions
unfolding enqueue_pages enqueue
enqueue_pages-submissions env now round entries page [] db = refl
enqueue_pages-submissions env now round entries page (content ∷ contents) db =
    enqueue_pages-submissions env now round entries (page + 1) contents _

pub insert_reward-submissions :
    (env : Environment) (now : ℕ) (round : RoundRow) (attempt : ℕ) (c : ContributionRow) (award : ℕ)
    (db : Database)
    → (insert_reward env now round attempt c award db).submissions ≡ db.submissions
unfolding insert_reward insert_ledger
insert_reward-submissions env now round attempt c award db = ground arith

pub insert_rewards-submissions :
    (env : Environment) (now : ℕ) (round : RoundRow) (attempt : ℕ) (awards : List Count)
    (contributions : List ContributionRow) (db db' : Database)
    → insert_rewards env now round attempt awards contributions db ≡ ok db'
    → db'.submissions ≡ db.submissions
unfolding insert_rewards
insert_rewards-submissions env now round attempt awards [] db db' e =
    sym (ap (λ (d : Database). d.submissions) (ok-injective e))
insert_rewards-submissions env now round attempt awards (c ∷ contributions) db db' e =
    let (award, found, e1) = >>=-eq-ok (award_for awards c.player_id) _ e in
    insert_rewards-submissions env now round attempt awards contributions
      (insert_reward env now round attempt c award db) db' e1
    ∙ insert_reward-submissions env now round attempt c award db

pub charge_penalty-submissions :
    (env : Environment) (k : Case) (attempt : ℕ) (severity : ℤ) (db : Database)
    → (charge_penalty env k attempt severity db).submissions ≡ db.submissions
unfolding charge_penalty set_penalty insert_ledger
charge_penalty-submissions env k attempt severity db = ground arith

module _ (env : Environment) where
  pub complete_round-submissions :
      (now : ℕ) (round : RoundRow) (attempt : ℕ) (compiled : CompiledRound) (db : Database)
      (r : Database × List ℕ)
      → complete_round env now round attempt compiled db ≡ ok r
      → r.0.submissions ≡ db.submissions
  unfolding complete_round close_completed audit enqueue
  complete_round-submissions now round attempt compiled db r e =
      let contributions = contributions_of db attempt in
      let (awards, awarded, e1) = >>=-eq-ok (participation_awards (counts_of contributions)) _ e in
      let (rewarded, inserted, e2) =
        >>=-eq-ok (insert_rewards env now round attempt awards contributions db) _ e1 in
      let (content, rendered, e3) =
        >>=-eq-ok (render_announcement completion compiled.announcements.completion_text no_values)
          _ e2 in
      sym (ap (λ (p : Database × List ℕ). p.0.submissions) (ok-injective e3))
      ∙ enqueue_pages-submissions env now round _ 1 _ _
      ∙ insert_rewards-submissions env now round attempt awards contributions db rewarded inserted

  pub add_contribution-submissions :
      (attempt player points : ℕ) (db : Database)
      → (add_contribution attempt player points db).submissions ≡ db.submissions
  unfolding add_contribution
  add_contribution-submissions attempt player points db = ground arith

  pub record_accepted-Stored :
      (k : Case) (attempt position points : ℕ) (db : Database)
      → Stored k.message.id (record_accepted env k attempt position points db).0
  unfolding record_accepted enqueue enqueue_canonical audit set_round_state insert_submission
  record_accepted-Stored k attempt position points db =
      subst (λ rows. any (λ (s : SubmissionRow). s.message_id == k.message.id) rows ≡ true)
        (sym (
          enqueue_parts-submissions env k.now k.round.channel_id k.message.id 1 _ _
          ∙ add_contribution-submissions attempt k.message.author_id points _))
        (any-last k.message.id db.submissions _ refl)

  pub record_broken-Stored :
      (k : Case) (attempt : ℕ) (reason : BreakReason) (severity : ℤ) (db : Database)
      → Stored k.message.id (record_broken env k attempt reason severity db).0
  unfolding record_broken enqueue enqueue_canonical audit set_round_state insert_submission
      drop_contributions break_attempt
  record_broken-Stored k attempt reason severity db =
      subst (λ rows. any (λ (s : SubmissionRow). s.message_id == k.message.id) rows ≡ true)
        (sym (
          enqueue_parts-submissions env k.now k.round.channel_id k.message.id 1 _ _
          ∙ charge_penalty-submissions env k attempt severity _))
        (any-last k.message.id db.submissions _ refl)

  pub announce_bonus-submissions :
      (k : Case) (points : ℕ) (p r : Database × List ℕ)
      → announce_bonus env k points p ≡ ok r
      → r.0.submissions ≡ p.0.submissions
  unfolding announce_bonus enqueue
  announce_bonus-submissions k zero p r e =
      ap (λ (q : Database × List ℕ). q.0.submissions) (sym (ok-injective e))
  announce_bonus-submissions k (suc n) p r e =
      let (content, rendered, e1) =
        >>=-eq-ok
          (render_announcement bonus k.round.compiled_config.announcements.bonus_text
            (bonus_values k.message.display_name (suc n)))
          _ e in
      ap (λ (q : Database × List ℕ). q.0.submissions) (sym (ok-injective e1))

  pub finish_accepted-submissions :
      (k : Case) (attempt : ℕ) (completes : Bool) (p r : Database × List ℕ)
      → finish_accepted env k attempt completes p ≡ ok r
      → r.0.submissions ≡ p.0.submissions
  unfolding finish_accepted
  finish_accepted-submissions k attempt false p r e =
      ap (λ (q : Database × List ℕ). q.0.submissions) (sym (ok-injective e))
  finish_accepted-submissions k attempt true p r e =
      let (finished, done, e1) =
        >>=-eq-ok (complete_round env k.now k.round attempt k.round.compiled_config p.0) _ e in
      ap (λ (q : Database × List ℕ). q.0.submissions) (sym (ok-injective e1))
      ∙ complete_round-submissions k.now k.round attempt k.round.compiled_config p.0 finished done

  pub announce_reset-submissions :
      (k : Case) (deferred : Bool) (p r : Database × List ℕ)
      → announce_reset env k deferred p ≡ ok r
      → r.0.submissions ≡ p.0.submissions
  unfolding announce_reset enqueue
  announce_reset-submissions k true p r e =
      ap (λ (q : Database × List ℕ). q.0.submissions) (sym (ok-injective e))
  announce_reset-submissions k false p r e =
      let (content, rendered, e1) =
        >>=-eq-ok
          (render_announcement reset k.round.compiled_config.announcements.reset_text
            (start_values k.round.compiled_config.input.start_at))
          _ e in
      ap (λ (q : Database × List ℕ). q.0.submissions) (sym (ok-injective e1))
