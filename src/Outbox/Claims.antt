-- ===== src/Outbox/Claims.antt =====
-- Which operation claimNext of src/db/outbox-repository.ts takes.
use herald_of_jams.Base.{
  ℕ, ◌≤◌, ◌≡◌, ◌⊎◌, inl, inr, refl, subst, sym, ap, ◌∙◌, ◌+◌, arith, Bool, true, false, not, ◌&&◌,
  Bool-cases, Option-cases, List, [], ◌∷◌, none, some, ltb, ◌==◌, any, select, All,
}
use herald_of_jams.Store.{Database, OutboxRow, delivering}
use herald_of_jams.Outbox.{
  is_resolved, lowest, unresolved_in, may_claim, claim_next, update_operation, claimed,
}

unfoldable pub AtLeast : ℕ → OutboxRow → Type 0
AtLeast n o = n ≤ o.sequence_number

pub All-le : (m n : ℕ) (os : List OutboxRow) → m ≤ n → All (AtLeast n) os → All (AtLeast m) os
unfolding AtLeast
All-le m n [] h a = tt
All-le m n (o ∷ os) h a = (omega (arith, a.0), All-le m n os h a.1)

-- The lowest row is one of the rows, and none is below it.
pub record IsLowest (os : List OutboxRow) (r : OutboxRow) : Type 1 where
  pub found : lowest os ≡ some r
  pub least : All (AtLeast r.sequence_number) os
  pub among : (P : OutboxRow → Type 0) → All P os → P r

IsLowest-row : (o : OutboxRow) (os : List OutboxRow) → (r : OutboxRow) × IsLowest (o ∷ os) r
unfolding lowest AtLeast
IsLowest-row o [] = (o, record { found = refl; least = (omega arith, tt); among = λ P a. a.0 })
IsLowest-row o (p ∷ os) =
    let (q, l) = IsLowest-row p os in
    elim (Bool-cases (ltb q.sequence_number o.sequence_number)) [
      | inl less ↦ (
        q,
        record {
          found = rw (l.found, less) refl;
          least = (ground arith, l.least);
          among = λ P a. l.among P a.1;
        },
      )
      | inr greater ↦ (
        o,
        record {
          found = rw (l.found, greater) refl;
          least = (
            omega arith,
            All-le o.sequence_number q.sequence_number (p ∷ os) (ground arith) l.least,
          );
          among = λ P a. a.0;
        },
      )
    ]

pub lowest-IsLowest : (os : List OutboxRow) (r : OutboxRow) → lowest os ≡ some r → IsLowest os r
unfolding lowest
lowest-IsLowest [] r e = cc
lowest-IsLowest (o ∷ os) r e =
    let (q, l) = IsLowest-row o os in subst (IsLowest (o ∷ os)) (cc (l.found, e)) l

-- What the rows that a test passes pass, and the others.
pub All-select : (p : OutboxRow → Bool) (os : List OutboxRow) → All (λ o. p o ≡ true) (select p os)
All-select p [] = tt
All-select p (o ∷ os) = elim (Bool-cases (p o)) [
  | inl h ↦ rw h (h, All-select p os)
  | inr h ↦ rw h (All-select p os)
]

none_below :
    (channel n : ℕ) (os : List OutboxRow)
    → All (AtLeast n) (unresolved_in channel os)
    → any (λ o. o.channel_id == channel && ltb o.sequence_number n && not (is_resolved o.status)) os
      ≡ false
unfolding AtLeast
none_below channel n [] a = refl
none_below channel n (o ∷ os) a =
    elim (Bool-cases (o.channel_id == channel && not (is_resolved o.status))) [
      | inl h ↦ let b = rw h at a in ground (arith, b.0, none_below channel n os b.1)
      | inr h ↦ ground (arith, none_below channel n os (rw h at a))
    ]

-- A claim that takes a row: the lowest unresolved one, which may be claimed.
pub record Claim (now channel : ℕ) (db : Database) (row : OutboxRow) (db' : Database) : Type 1 where
  pub r : OutboxRow
  pub first : lowest (unresolved_in channel db.outbox) ≡ some r
  pub may : may_claim now db r ≡ true
  pub same : record r { status = delivering; attempt_count = r.attempt_count + 1 } ≡ row
  pub stored : update_operation r.id claimed db ≡ db'

pub claim_next-Claim :
    (now channel : ℕ) (db : Database) (row : OutboxRow) (db' : Database)
    → claim_next now channel db ≡ (some row, db')
    → Claim now channel db row db'
unfolding claim_next
claim_next-Claim now channel db row db' e =
    elim (Option-cases (lowest (unresolved_in channel db.outbox))) [
      | inl empty ↦ cc
      | inr (r, found) ↦ elim (Bool-cases (may_claim now db r)) [
        | inr not_yet ↦ cc
        | inl may ↦
            let h = rw (claim_next, found, may) at e in
            record { r = r; first = found; may = may; same = cc; stored = ap (λ p. p.1) h }
      ]
    ]

pub claim_next-none :
    (now channel : ℕ) (db db' : Database) → claim_next now channel db ≡ (none, db') → db ≡ db'
unfolding claim_next
claim_next-none now channel db db' e =
    elim (Option-cases (lowest (unresolved_in channel db.outbox))) [
      | inl empty ↦ ap (λ p. p.1) (rw (claim_next, empty) at e)
      | inr (r, found) ↦ elim (Bool-cases (may_claim now db r)) [
        | inr not_yet ↦ ap (λ p. p.1) (rw (claim_next, found, not_yet) at e)
        | inl may ↦ let h = rw (claim_next, found, may) at e in cc
      ]
    ]

-- A claim takes nothing, or an operation.
pub claim-cases :
    (now channel : ℕ) (db : Database)
    → ((db' : Database) × (claim_next now channel db ≡ (none, db')))
      ⊎ ((row : OutboxRow) × (db' : Database) × (claim_next now channel db ≡ (some row, db')))
claim-cases now channel db = elim (Option-cases (claim_next now channel db).0) [
  | inl nothing ↦
      inl ((claim_next now channel db).1, ap (λ o. (o, (claim_next now channel db).1)) nothing)
  | inr (row, taken) ↦
      inr (row, (claim_next now channel db).1, ap (λ o. (o, (claim_next now channel db).1)) taken)
]

-- A claim that takes an operation takes one of the channel, marks it as being delivered, and no
-- operation of the channel with a smaller number is unresolved.
pub claim_next-takes_first :
    (now channel : ℕ) (db : Database) (row : OutboxRow) (db' : Database)
    → claim_next now channel db ≡ (some row, db')
    → (row.channel_id ≡ channel)
      × (row.status ≡ delivering)
      × (any
            (λ o.
              o.channel_id == channel
              && ltb o.sequence_number row.sequence_number
              && not (is_resolved o.status))
            db.outbox
          ≡ false)
claim_next-takes_first now channel db row db' e =
    let c = claim_next-Claim now channel db row db' e in
    let l = lowest-IsLowest (unresolved_in channel db.outbox) c.r c.first in
    let h =
      l.among _
        (All-select (λ o. o.channel_id == channel && not (is_resolved o.status)) db.outbox) in
    let here : c.r.channel_id ≡ channel = ground (arith, h) in
    (
      ap (λ (o : OutboxRow). o.channel_id) (sym c.same) ∙ here,
      ap (λ (o : OutboxRow). o.status) (sym c.same),
      none_below channel row.sequence_number db.outbox (
          subst (λ n. All (AtLeast n) (unresolved_in channel db.outbox))
            (ap (λ (o : OutboxRow). o.sequence_number) c.same) l.least),
    )
