-- ===== src/Game/Charging.antt =====
-- The penalty rows and the worst severities that src/application/game-service.ts writes.
use herald_of_jams.Base.{
  ℕ, zero, suc, ◌≡◌, refl, sym, ◌∙◌, ap, subst, arith, Bool, true, false, ◌&&◌, Bool-cases, inl,
  inr, List, [], ◌∷◌, ◌++◌, map, Option, none, some, ◌==◌, ==_self, if◌then◌else◌, any, select,
  find?, update_where,
}
use herald_of_jams.Base.Int.{ℤ, pos, negsuc, ◌+ℤ◌, ◌-ℤ◌, sum_ℤ, int_laws}
use herald_of_jams.Scoring.{additional_penalty}
use herald_of_jams.Store.{
  Database, Environment, LedgerRow, PenaltyRow, penalty, penalty_key, is_penalty,
}
use herald_of_jams.Game.Completion.{insert_ledger}
use herald_of_jams.Game.Acceptance.{Case}
use herald_of_jams.Game.Breaking.{
  worst_severity, severity_or_zero, is_worse, set_penalty, is_zero, charge_penalty,
}

abbrev is_charge : ℕ → ℕ → LedgerRow → Bool
is_charge round player row =
    is_penalty row.entry_type && (row.round_id == round && row.player_id == player)

-- The penalty points of the player in the round.
abbrev pub charged : Database → ℕ → ℕ → ℤ
charged db round player =
    sum_ℤ (map (λ (row : LedgerRow). row.delta) (select (is_charge round player) db.ledger))

-- What the ledger charges is the worst severity that is stored.
abbrev pub IsBalanced : Database → Type 0
IsBalanced db =
    (round player : ℕ) → charged db round player ≡ severity_or_zero (worst_severity db round player)

abbrev matches : ℕ → ℕ → PenaltyRow → Bool
matches round player p = p.round_id == round && p.player_id == player

abbrev stored_worst : Option PenaltyRow → Option ℤ
stored_worst none = none
stored_worst (some p) = some p.worst_severity

-- A severity that is set is the one read back; those of others stay.
set-find :
    (round player : ℕ) (severity : ℤ) (ps : List PenaltyRow)
    → any (matches round player) ps ≡ true
    → stored_worst (
        find?
          (matches round player)
          (update_where (matches round player) (λ p. record p { worst_severity = severity }) ps))
      ≡ some severity
set-find round player severity [] h = cc
set-find round player severity (p ∷ ps) h = ground (arith, set-find round player severity ps)

set-other :
    (round player r q : ℕ) (severity : ℤ) (ps : List PenaltyRow)
    → (round == r && player == q) ≡ false
    → stored_worst (
        find?
          (matches r q)
          (update_where (matches round player) (λ p. record p { worst_severity = severity }) ps))
      ≡ stored_worst (find? (matches r q) ps)
set-other round player r q severity [] h = refl
set-other round player r q severity (p ∷ ps) h =
    ground (arith, set-other round player r q severity ps)

append-find :
    (round player : ℕ) (severity : ℤ) (ps : List PenaltyRow)
    → any (matches round player) ps ≡ false
    → stored_worst (
        find?
          (matches round player)
          (ps ++ record { round_id = round; player_id = player; worst_severity = severity } ∷ []))
      ≡ some severity
append-find round player severity [] h = ground arith
append-find round player severity (p ∷ ps) h = ground (arith, append-find round player severity ps)

append-other :
    (round player r q : ℕ) (severity : ℤ) (ps : List PenaltyRow)
    → (round == r && player == q) ≡ false
    → stored_worst (
        find?
          (matches r q)
          (ps ++ record { round_id = round; player_id = player; worst_severity = severity } ∷ []))
      ≡ stored_worst (find? (matches r q) ps)
append-other round player r q severity [] h = ground arith
append-other round player r q severity (p ∷ ps) h =
    ground (arith, append-other round player r q severity ps)

-- After a severity is set, it is the worst of its player in its round, and the others are the same.
set_penalty-worst :
    (round player : ℕ) (severity : ℤ) (db : Database)
    → worst_severity (set_penalty round player severity db) round player ≡ some severity
unfolding worst_severity set_penalty
set_penalty-worst round player severity db =
    elim (Bool-cases (any (matches round player) db.penalties)) [
      | inl known ↦ rw (set_penalty, known) (set-find round player severity db.penalties known)
      | inr new ↦ rw (set_penalty, new) (append-find round player severity db.penalties new)
    ]

set_penalty-others :
    (round player r q : ℕ) (severity : ℤ) (db : Database)
    → (round == r && player == q) ≡ false
    → worst_severity (set_penalty round player severity db) r q ≡ worst_severity db r q
unfolding worst_severity set_penalty
set_penalty-others round player r q severity db h =
    elim (Bool-cases (any (matches round player) db.penalties)) [
      | inl known ↦ rw (set_penalty, known) (set-other round player r q severity db.penalties h)
      | inr new ↦ rw (set_penalty, new) (append-other round player r q severity db.penalties h)
    ]

-- A new charge adds to the player that it is for, and to no other.
charge-append :
    (round player : ℕ) (row : LedgerRow) (rows : List LedgerRow)
    → sum_ℤ
        (map (λ (row : LedgerRow). row.delta) (select (is_charge round player) (rows ++ row ∷ [])))
      ≡ (sum_ℤ (map (λ (row : LedgerRow). row.delta) (select (is_charge round player) rows))
          +ℤ (if is_charge round player row then row.delta else pos 0))
charge-append round player row [] = elim (Bool-cases (is_charge round player row)) [
  | inl h ↦ rw h (omega int_laws)
  | inr h ↦ rw h (omega int_laws)
]
charge-append round player row (r ∷ rows) = elim (Bool-cases (is_charge round player r)) [
  | inl h ↦ rw (h, charge-append round player row rows) (omega int_laws)
  | inr h ↦ rw h (charge-append round player row rows)
]

set_penalty-ledger :
    (round player : ℕ) (severity : ℤ) (db : Database)
    → (set_penalty round player severity db).ledger ≡ db.ledger
unfolding set_penalty
set_penalty-ledger round player severity db = ground arith

plus-zero : (a : ℤ) → a +ℤ pos 0 ≡ a
plus-zero a = omega int_laws

nothing-charged : (a d : ℤ) (b : Bool) → is_zero d ≡ true → a ≡ (a +ℤ (if b then d else pos 0))
nothing-charged a (pos zero) true z = sym (plus-zero a)
nothing-charged a d false z = sym (plus-zero a)
nothing-charged a (pos (suc n)) true z = cc
nothing-charged a (negsuc n) true z = cc

module _ (env : Environment) (k : Case) (attempt : ℕ) (severity : ℤ) (db : Database) where
  abbrev delta : ℤ
  delta =
      additional_penalty (severity_or_zero (worst_severity db k.round.id k.message.author_id))
        severity

  abbrev marked : Database
  marked =
      if is_worse (worst_severity db k.round.id k.message.author_id) severity
      then set_penalty k.round.id k.message.author_id severity db
      else db

  abbrev is_for : ℕ → ℕ → Bool
  is_for round player = k.round.id == round && k.message.author_id == player

  marked-ledger : marked.ledger ≡ db.ledger
  marked-ledger =
      elim (Bool-cases (is_worse (worst_severity db k.round.id k.message.author_id) severity)) [
        | inl h ↦ rw h (set_penalty-ledger k.round.id k.message.author_id severity db)
        | inr h ↦ rw h refl
      ]

  abbrev new_charge : LedgerRow
  new_charge = record {
    id = env.ids marked.issued;
    season_id = k.round.season_id;
    round_id = k.round.id;
    attempt_id = attempt;
    player_id = k.message.author_id;
    entry_type = penalty;
    delta = delta;
    source_key = penalty_key k.round.id k.message.author_id severity;
    created_at = k.now;
  }

  charge_penalty-ledger :
      (charge_penalty env k attempt severity db).ledger
      ≡ (if is_zero delta then db.ledger else db.ledger ++ new_charge ∷ [])
  unfolding charge_penalty insert_ledger
  charge_penalty-ledger = elim (Bool-cases (is_zero delta)) [
    | inl z ↦ rw (charge_penalty, z) marked-ledger
    | inr z ↦ rw (charge_penalty, z) (ap (λ rows. rows ++ new_charge ∷ []) marked-ledger)
  ]

  charge_penalty-penalties : (charge_penalty env k attempt severity db).penalties ≡ marked.penalties
  unfolding charge_penalty insert_ledger
  charge_penalty-penalties = elim (Bool-cases (is_zero delta)) [
    | inl z ↦ rw (charge_penalty, z) refl
    | inr z ↦ rw (charge_penalty, z) refl
  ]

  charge_penalty-charged :
      (round player : ℕ)
      → charged (charge_penalty env k attempt severity db) round player
        ≡ (charged db round player +ℤ (if is_for round player then delta else pos 0))
  charge_penalty-charged round player = elim (Bool-cases (is_zero delta)) [
    | inl z ↦
        rw (charge_penalty-ledger, z)
          (nothing-charged (charged db round player) delta (is_for round player) z)
    | inr z ↦ rw (charge_penalty-ledger, z) (charge-append round player new_charge db.ledger)
  ]

  charge_penalty-worst :
      (round player : ℕ)
      → worst_severity (charge_penalty env k attempt severity db) round player
        ≡ worst_severity marked round player
  unfolding worst_severity
  charge_penalty-worst round player = rw charge_penalty-penalties refl

  marked-others :
      (round player : ℕ)
      → is_for round player ≡ false
      → worst_severity marked round player ≡ worst_severity db round player
  marked-others round player h =
      elim (Bool-cases (is_worse (worst_severity db k.round.id k.message.author_id) severity)) [
        | inl worse ↦
            rw worse (set_penalty-others k.round.id k.message.author_id round player severity db h)
        | inr better ↦ rw better refl
      ]

  marked-worst : worst_severity marked k.round.id k.message.author_id ≡ (
      if is_worse (worst_severity db k.round.id k.message.author_id) severity
      then some severity
      else worst_severity db k.round.id k.message.author_id)
  marked-worst =
      elim (Bool-cases (is_worse (worst_severity db k.round.id k.message.author_id) severity)) [
        | inl worse ↦ rw worse (set_penalty-worst k.round.id k.message.author_id severity db)
        | inr better ↦ rw better refl
      ]

-- What is added to the worst severity so far.
worst-total :
    (previous : Option ℤ) (n : ℕ)
    → (severity_or_zero previous +ℤ additional_penalty (severity_or_zero previous) (negsuc n))
      ≡ severity_or_zero (if is_worse previous (negsuc n) then some (negsuc n) else previous)
unfolding additional_penalty ◌+ℤ◌ ◌-ℤ◌
worst-total none n = ground arith
worst-total (some s) n = ground arith

abbrev AgreesAt : Database → ℕ → ℕ → Type 0
AgreesAt db round player =
    charged db round player ≡ severity_or_zero (worst_severity db round player)

charge_penalty-own :
    (env : Environment) (k : Case) (attempt n : ℕ) (db : Database)
    → AgreesAt db k.round.id k.message.author_id
    → AgreesAt (charge_penalty env k attempt (negsuc n) db) k.round.id k.message.author_id
charge_penalty-own env k attempt n db h =
    rw
      (
        charge_penalty-charged env k attempt (negsuc n) db k.round.id k.message.author_id,
        charge_penalty-worst env k attempt (negsuc n) db k.round.id k.message.author_id,
        marked-worst env k attempt (negsuc n) db,
        ==_self k.round.id,
        ==_self k.message.author_id,
        h,
      )
      (worst-total (worst_severity db k.round.id k.message.author_id) n)

both : (a b c d : ℕ) → (a == b && c == d) ≡ true → (a ≡ b) × (c ≡ d)
both a b c d h = ground arith

-- Charging a player a negative severity for a break keeps the penalty rows of every player in every
-- round in balance with the worst severity stored: their sum is that severity, or 0 if there is
-- none.
pub charge_penalty-IsBalanced :
    (env : Environment) (k : Case) (attempt n : ℕ) (db : Database)
    → IsBalanced db
    → IsBalanced (charge_penalty env k attempt (negsuc n) db)
charge_penalty-IsBalanced env k attempt n db h round player =
    elim (Bool-cases (is_for env k attempt (negsuc n) db round player)) [
      | inl same ↦
          let own = charge_penalty-own env k attempt n db (h k.round.id k.message.author_id) in
          let (e, f) = both k.round.id round k.message.author_id player same in
          subst (λ r. AgreesAt (charge_penalty env k attempt (negsuc n) db) r player) e
            (subst (AgreesAt (charge_penalty env k attempt (negsuc n) db) k.round.id) f own)
      | inr other ↦
          rw
            (
              charge_penalty-charged env k attempt (negsuc n) db round player,
              charge_penalty-worst env k attempt (negsuc n) db round player,
              marked-others env k attempt (negsuc n) db round player other,
              other,
            )
            (plus-zero (charged db round player) ∙ h round player)
    ]
