-- ===== src/Game/Cancelling.antt =====
-- What cancelRound of src/application/game-service.ts discards and what it keeps.
use herald_of_jams.Base.{
  ℕ, ◌≡◌, refl, sym, ◌∙◌, subst, arith, Bool, false, not, ◌&&◌, Bool-cases, inl, inr, List, [], ◌∷◌,
  Option, none, some, ◌==◌, any, select, update_where, ok, >>=-eq-ok, ok-injective,
}
use herald_of_jams.Announcements.{cancellation, render_announcement}
use herald_of_jams.Engine.{cancelled, cancel_round}
use herald_of_jams.Store.{Database, Environment, RoundRow, AttemptRow, is_active, active_attempt_of}
use herald_of_jams.Game.Outgoing.{audit, enqueue}
use herald_of_jams.Game.Completion.{no_values}
use herald_of_jams.Game.Control.{
  require_active_round, bare_state, cancel_attempt, discard_round, is_round_penalty, cancel_active,
}

module _ {A : Type 0} (p : A → Bool) where
  none-selected : (xs : List A) → any p (select (λ x. not (p x)) xs) ≡ false
  none-selected [] = refl
  none-selected (x ∷ xs) = elim (Bool-cases (p x)) [
    | inl h ↦ rw h (none-selected xs)
    | inr h ↦ rw h (rw h (none-selected xs))
  ]

none-active :
    (now round : ℕ) (rounds : List RoundRow)
    → any
        (λ r. r.id == round && is_active r.state)
        (update_where
          (λ r. r.id == round)
          (λ r. record r { state = cancelled; cancelled_at = some now; paused_from_state = none })
          rounds)
      ≡ false
none-active now round [] = refl
none-active now round (r ∷ rounds) = ground (arith, none-active now round rounds)

-- What stands in the database after the round with this id is cancelled.
pub record IsDiscarded (round : ℕ) (db db' : Database) : Type 0 where
  pub inactive : any (λ r. r.id == round && is_active r.state) db'.rounds ≡ false
  pub no_penalties : any (is_round_penalty round) db'.ledger ≡ false
  pub no_severities : any (λ p. p.round_id == round) db'.penalties ≡ false
  pub no_bans : any (λ b. b.round_id == round) db'.bans ≡ false
  pub ledger_kept : db'.ledger ≡ select (λ row. not (is_round_penalty round row)) db.ledger

discard_round-IsDiscarded :
    (now round : ℕ) (attempt : Option AttemptRow) (db : Database)
    → IsDiscarded round db (discard_round now round (cancel_attempt now attempt db))
unfolding discard_round cancel_attempt
discard_round-IsDiscarded now round none db = record {
  inactive = none-active now round db.rounds;
  no_penalties = none-selected (is_round_penalty round) db.ledger;
  no_severities = none-selected (λ p. p.round_id == round) db.penalties;
  no_bans = none-selected (λ b. b.round_id == round) db.bans;
  ledger_kept = refl;
}
discard_round-IsDiscarded now round (some attempt) db = record {
  inactive = none-active now round db.rounds;
  no_penalties = none-selected (is_round_penalty round) db.ledger;
  no_severities = none-selected (λ p. p.round_id == round) db.penalties;
  no_bans = none-selected (λ b. b.round_id == round) db.bans;
  ledger_kept = refl;
}

-- Cancelling leaves the active round in no active state, takes from the ledger the penalties of the
-- round and nothing else, and forgets its worst severities and its bans.
pub cancel_active-IsDiscarded :
    (env : Environment) (now : ℕ) (actor : Option ℕ) (db db' : Database) (round : RoundRow)
    → cancel_active env now actor db ≡ ok db'
    → require_active_round db ≡ ok round
    → IsDiscarded round.id db db'
unfolding cancel_active audit enqueue
cancel_active-IsDiscarded env now actor db db' round e found =
    let (r, found', e1) = >>=-eq-ok (require_active_round db) _ e in
    let (state, changed, e2) = >>=-eq-ok (cancel_round (bare_state r)) _ e1 in
    let (content, rendered, e3) =
      >>=-eq-ok
        (render_announcement cancellation r.compiled_config.announcements.cancellation_text
          no_values)
        _ e2 in
    let d = discard_round-IsDiscarded now r.id (active_attempt_of db r.id) db in
    subst (λ (x : RoundRow). IsDiscarded x.id db db') (ok-injective (sym found' ∙ found))
      (subst (λ (d : Database). IsDiscarded r.id db d) (ok-injective e3)
        (record {
          inactive = d.inactive;
          no_penalties = d.no_penalties;
          no_severities = d.no_severities;
          no_bans = d.no_bans;
          ledger_kept = d.ledger_kept;
        }))
