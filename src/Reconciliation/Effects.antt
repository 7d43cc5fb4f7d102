-- ===== src/Reconciliation/Effects.antt =====
-- What a reconciliation of src/application/reconciliation-service.ts does to the database.
use herald_of_jams.Base.{
  ℕ, ◌≡◌, refl, subst, ◌∙◌, List, some, Result, ok, throw, ok-injective, >>=-eq-ok, Bool-cases, inl,
  inr, throw_if, not, ◌==◌, is_some, any, or_throw, break_not_found,
}
use herald_of_jams.Numeric.{parse_numeric_submission}
use herald_of_jams.Store.{Database, Environment, submission}
use herald_of_jams.Game.Submissions.{InboundDiscordMessage, insert_submission}
use herald_of_jams.Game.Outgoing.{audit, enqueue, ensure_player}
use herald_of_jams.Game.Acceptance.{Case}
use herald_of_jams.Game.Messages.{
  Processed, invalidate_after_reconnect_break, invalidate_in_round, is_chat, breaking_round,
}
use herald_of_jams.Reconciliation.{
  Progress, examine, examine_in, examined, examine_all, map_ok, in_database,
}
use herald_of_jams.Reconciliation.Catching.{examine_all-keeps}

-- Nothing that counts for the game changes.
pub record IsHeld (db db' : Database) : Type 0 where
  pub seasons : db'.seasons ≡ db.seasons
  pub rounds : db'.rounds ≡ db.rounds
  pub attempts : db'.attempts ≡ db.attempts
  pub contributions : db'.contributions ≡ db.contributions
  pub penalties : db'.penalties ≡ db.penalties
  pub ledger : db'.ledger ≡ db.ledger

unchanged : (db : Database) → IsHeld db db
unchanged db = record {
  seasons = refl;
  rounds = refl;
  attempts = refl;
  contributions = refl;
  penalties = refl;
  ledger = refl;
}

invalidate_in_round-IsHeld :
    (env : Environment) (k : Case) (breaking : ℕ) (db : Database)
    → IsHeld db (invalidate_in_round env k breaking db).1
unfolding invalidate_in_round audit enqueue insert_submission ensure_player
invalidate_in_round-IsHeld env k breaking db =
    elim (Bool-cases (any (λ p. p.discord_user_id == k.message.author_id) db.players)) [
      | inl known ↦ rw known (record {
        seasons = refl;
        rounds = refl;
        attempts = refl;
        contributions = refl;
        penalties = refl;
        ledger = refl;
      })
      | inr new ↦ rw new (record {
        seasons = refl;
        rounds = refl;
        attempts = refl;
        contributions = refl;
        penalties = refl;
        ledger = refl;
      })
    ]

invalidate-IsHeld :
    (env : Environment) (now : ℕ) (message : InboundDiscordMessage) (breaking : ℕ) (db : Database)
    (r : Processed)
    → invalidate_after_reconnect_break env now message breaking db ≡ ok r
    → IsHeld db r.1
unfolding invalidate_after_reconnect_break
invalidate-IsHeld env now message breaking db r e =
    elim (Bool-cases (is_some (submission db message.id))) [
      | inl known ↦
          subst (λ (x : Processed). IsHeld db x.1)
            (ok-injective (rw (invalidate_after_reconnect_break, known) at e)) (unchanged db)
      | inr new ↦
          let e0 = rw (invalidate_after_reconnect_break, new) at e in
          let (round, found, e1) =
            >>=-eq-ok (or_throw (breaking_round db breaking) break_not_found) _ e0 in
          let (u, same, e2) =
            >>=-eq-ok (throw_if (not (round.channel_id == message.channel_id)) break_not_found) _
              e1 in
          elim (Bool-cases (is_chat (parse_numeric_submission message.content))) [
            | inl talk ↦
                subst (λ (x : Processed). IsHeld db x.1) (ok-injective (rw talk at e2))
                  (unchanged db)
            | inr number ↦
                subst (λ (x : Processed). IsHeld db x.1) (ok-injective (rw number at e2))
                  (invalidate_in_round-IsHeld env _ breaking db)
          ]
    ]

IsHeld-trans : {a b c : Database} → IsHeld a b → IsHeld b c → IsHeld a c
IsHeld-trans h k = record {
  seasons = k.seasons ∙ h.seasons;
  rounds = k.rounds ∙ h.rounds;
  attempts = k.attempts ∙ h.attempts;
  contributions = k.contributions ∙ h.contributions;
  penalties = k.penalties ∙ h.penalties;
  ledger = k.ledger ∙ h.ledger;
}

abbrev pub IsBroken : ℕ → Database → Progress → Type 0
IsBroken breaking db p = (p.breaking ≡ some breaking) × IsHeld db p.database

examine-IsBroken :
    (env : Environment) (channel breaking : ℕ) (db : Database) (now : ℕ)
    (message : InboundDiscordMessage) (p q : Progress)
    → IsBroken breaking db p
    → examine env now channel message p ≡ ok q
    → IsBroken breaking db q
unfolding examine
examine-IsBroken env channel breaking db now message p q h e = from _ refl (
    subst
      (λ b.
        map_ok (examined now channel message) (examine_in env now message b p.completed p) ≡ ok q)
      h.0 e)
  where
    from :
        (r : Result Processed)
        → invalidate_after_reconnect_break env now message breaking p.database ≡ r
        → map_ok (examined now channel message) (map_ok (in_database p) r) ≡ ok q
        → IsBroken breaking db q
    from (throw error) i e = cc
    from (ok r) i e =
        subst (IsBroken breaking db) (ok-injective e)
          (h.0, IsHeld-trans h.1 (invalidate-IsHeld env now message breaking p.database r i))

-- After a break, the messages of a listing change no season, round, attempt, contribution, penalty
-- or score, and the break stays the same.
pub examine_all-IsBroken :
    (env : Environment) (clock : ℕ → ℕ) (channel breaking : ℕ)
    (messages : List InboundDiscordMessage) (p : Progress)
    → p.breaking ≡ some breaking
    → IsBroken breaking p.database (examine_all env clock channel messages p).0
examine_all-IsBroken env clock channel breaking messages p h =
    examine_all-keeps env clock channel (IsBroken breaking p.database)
      (examine-IsBroken env channel breaking p.database) messages p (h, unchanged p.database)
