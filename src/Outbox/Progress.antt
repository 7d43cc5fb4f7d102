-- ===== src/Outbox/Progress.antt =====
-- The predecessor that claimNext of src/db/outbox-repository.ts checks.
use herald_of_jams.Base.{
  ℕ, suc, ◌+◌, ◌≤◌, ◌≡◌, ◌⊎◌, inl, inr, refl, subst, arith, true, false, not, Bool-cases, List, [],
  ◌∷◌, Option, none, some, ==_self, select, All,
}
use herald_of_jams.Store.{Database, OutboxRow, delivering, in_channel}
use herald_of_jams.Outbox.{
  is_resolved, is_claimable, is_early, predecessor_resolved, lowest, unresolved_in, claim_next,
  update_operation, claimed,
}
use herald_of_jams.Outbox.Claims.{AtLeast, All-le, lowest-IsLowest}
use herald_of_jams.Game.Ordering.{Chained, IsOrdered}

abbrev pub unresolved : List OutboxRow → List OutboxRow
unresolved = select (λ o. not (is_resolved o.status))

pub Chained-AtLeast :
    (n : ℕ) (previous : Option ℕ) (os : List OutboxRow)
    → Chained n previous os
    → All (AtLeast (suc n)) (unresolved os)
unfolding AtLeast
Chained-AtLeast n previous [] c = tt
Chained-AtLeast n previous (o ∷ os) c =
    let rest =
      All-le (suc n) (suc (suc n)) (unresolved os) (omega arith)
        (Chained-AtLeast (suc n) (some o.id) os c.2) in
    elim (Bool-cases (is_resolved o.status)) [
      | inl done ↦ rw done rest
      | inr waits ↦ rw waits (omega (arith, c.0), rest)
    ]

-- A row of a chain: its first, or one behind it.
abbrev FirstOr : ℕ → Option ℕ → OutboxRow → Type 0
FirstOr n previous o = (o.predecessor_id ≡ previous) ⊎ (suc (suc n) ≤ o.sequence_number)

All-inr :
    (n : ℕ) (previous : Option ℕ) (os : List OutboxRow)
    → All (AtLeast (suc (suc n))) os
    → All (FirstOr n previous) os
unfolding AtLeast
All-inr n previous [] a = tt
All-inr n previous (o ∷ os) a = (inr a.0, All-inr n previous os a.1)

-- The lowest unresolved row of a chain comes first, or comes after a resolved one.
lowest-follows :
    (n : ℕ) (previous : Option ℕ) (os : List OutboxRow) (r : OutboxRow)
    → Chained n previous os
    → lowest (unresolved os) ≡ some r
    → (r.predecessor_id ≡ previous) ⊎ (predecessor_resolved os r.predecessor_id ≡ true)
unfolding lowest AtLeast
lowest-follows n previous [] r c e = cc
lowest-follows n previous (o ∷ os) r c e = elim (Bool-cases (is_resolved o.status)) [
  | inl done ↦ elim (lowest-follows (suc n) (some o.id) os r c.2 (rw done at e)) [
    | inl after ↦ inr (rw (after, ==_self o.id, done) refl)
    | inr earlier ↦ inr (resolved-cons o os r.predecessor_id earlier)
  ]
  | inr waits ↦
      let e' = rw waits at e in
      let l = lowest-IsLowest (o ∷ unresolved os) r e' in
      let later = Chained-AtLeast (suc n) (some o.id) os c.2 in
      elim (l.among (FirstOr n previous) (inl c.1, All-inr n previous (unresolved os) later)) [
        | inl first ↦ inl first
        | inr behind ↦ absurd (omega (arith, l.least.0, c.0, behind))
      ]
]
  where
    resolved-cons :
        (o : OutboxRow) (os : List OutboxRow) (p : Option ℕ)
        → predecessor_resolved os p ≡ true
        → predecessor_resolved (o ∷ os) p ≡ true
    resolved-cons o os none h = refl
    resolved-cons o os (some id) h = ground arith

pub select-select :
    (channel : ℕ) (os : List OutboxRow)
    → unresolved_in channel os ≡ unresolved (in_channel channel os)
select-select channel [] = refl
select-select channel (o ∷ os) = ground (arith, select-select channel os)

resolved-in_channel :
    (channel : ℕ) (os : List OutboxRow) (p : Option ℕ)
    → predecessor_resolved (in_channel channel os) p ≡ true
    → predecessor_resolved os p ≡ true
resolved-in_channel channel os none h = refl
resolved-in_channel channel [] (some id) h = h
resolved-in_channel channel (o ∷ os) (some id) h =
    ground (arith, resolved-in_channel channel os (some id))

-- Where every channel is ordered, the lowest unresolved operation of a channel is claimed once it
-- is claimable and due: the check of its predecessor never holds it back.
pub claim_next-claims :
    (now channel : ℕ) (db : Database) (row : OutboxRow)
    → IsOrdered db.outbox
    → lowest (unresolved_in channel db.outbox) ≡ some row
    → is_claimable row.status ≡ true
    → is_early now row.next_attempt_at ≡ false
    → claim_next now channel db ≡ (
      some (record row { status = delivering; attempt_count = row.attempt_count + 1 }),
      update_operation row.id claimed db,
    )
unfolding claim_next
claim_next-claims now channel db row h e claimable due =
    let waited : predecessor_resolved db.outbox row.predecessor_id ≡ true =
      elim (lowest-follows 0 none (in_channel channel db.outbox) row (h channel)
        (subst (λ os. lowest os ≡ some row) (select-select channel db.outbox) e)) [
          | inl alone ↦ rw alone refl
          | inr after ↦ resolved-in_channel channel db.outbox row.predecessor_id after
        ] in
    rw (claim_next, e, claimable, due, waited) refl
