-- ===== src/Game/Ordering.antt =====
-- The order of the outbox in each channel, and what enqueue of src/application/game-service.ts does
-- to it.
pub mod Transactions
pub mod Messages
pub mod Control
use herald_of_jams.Base.{
  ℕ, zero, suc, ◌+◌, ◌≤◌, ◌<◌, ◌≡◌, refl, ap, Bool, true, false, not, inl, inr, Bool-cases,
  Option-cases, List, [], ◌∷◌, ◌++◌, Option, none, some, Text, ltb, ◌==◌, ==_iff, ==_self,
  if◌then◌else◌, length, select, arith, Result, ok, throw, ◌>>=◌, >>=-eq-ok,
}
use herald_of_jams.Store.{
  Database, Environment, next_id, OutboxRow, OperationType, canonical_message, Payload, highest,
  in_channel,
}
use herald_of_jams.Game.Outgoing.{
  audit, id_of, sequence_of, new_operation, enqueue, enqueue_parts, enqueue_canonical,
  ensure_player,
}

-- The rows are numbered n + 1, n + 2, …, and each names the one before it as its predecessor.
abbrev pub Chained : ℕ → Option ℕ → List OutboxRow → Type 0
Chained n previous [] = Unit {0}
Chained n previous (o ∷ os) =
    (o.sequence_number ≡ suc n) × (o.predecessor_id ≡ previous) × Chained (suc n) (some o.id) os

-- In every channel the operations are numbered 1, 2, 3, … in the order of insertion, and each waits
-- for the one before it.
abbrev pub IsOrdered : List OutboxRow → Type 0
IsOrdered outbox = (channel : ℕ) → Chained 0 none (in_channel channel outbox)

abbrev previous_id : Option ℕ → List OutboxRow → Option ℕ
previous_id previous [] = previous
previous_id previous (o ∷ os) = previous_id (some o.id) os

abbrev last_sequence : ℕ → List OutboxRow → ℕ
last_sequence n [] = n
last_sequence n (o ∷ os) = last_sequence (suc n) os

last_sequence-le : (n : ℕ) (os : List OutboxRow) → n ≤ last_sequence n os
last_sequence-le n [] = omega arith
last_sequence-le n (o ∷ os) = omega (arith, last_sequence-le (suc n) os)

-- The operation with the highest number is the last one.
record IsLast (n : ℕ) (os : List OutboxRow) (o r : OutboxRow) : Type 0 where
  found : highest (o ∷ os) ≡ some r
  number : r.sequence_number ≡ last_sequence n (o ∷ os)
  identity : some r.id ≡ previous_id none (o ∷ os)

IsLast-operation :
    (n : ℕ) (previous : Option ℕ) (o : OutboxRow) (os : List OutboxRow)
    → Chained n previous (o ∷ os)
    → (r : OutboxRow) × IsLast n os o r
unfolding highest
IsLast-operation n previous o [] h = (o, record { found = refl; number = h.0; identity = refl })
IsLast-operation n previous o (p ∷ os) h =
    let (r, l) = IsLast-operation (suc n) (some o.id) p os h.2 in
    (
      r,
      record {
        found = rw l.found (ground (arith, l.number, last_sequence-le (suc (suc n)) os));
        number = l.number;
        identity = l.identity;
      },
    )

next_in_chain :
    (os : List OutboxRow)
    → Chained 0 none os
    → (sequence_of (highest os) ≡ last_sequence 0 os) × (id_of (highest os) ≡ previous_id none os)
next_in_chain [] h = (highest_empty, id_empty)
  where
    highest_empty : sequence_of (highest []) ≡ 0
    highest_empty = unfold highest in refl

    id_empty : id_of (highest []) ≡ none
    id_empty = unfold highest in refl
next_in_chain (o ∷ os) h =
    let (r, l) = IsLast-operation 0 none o os h in (rw l.found l.number, rw l.found l.identity)

Chained-append :
    (n : ℕ) (previous : Option ℕ) (os : List OutboxRow) (o : OutboxRow)
    → Chained n previous os
    → o.sequence_number ≡ suc (last_sequence n os)
    → o.predecessor_id ≡ previous_id previous os
    → Chained n previous (os ++ o ∷ [])
Chained-append n previous [] o h e p = (e, p, tt)
Chained-append n previous (q ∷ os) o h e p =
    (h.0, h.1, Chained-append (suc n) (some q.id) os o h.2 e p)

in_channel-append :
    (channel : ℕ) (os : List OutboxRow) (o : OutboxRow)
    → in_channel channel (os ++ o ∷ [])
      ≡ (if o.channel_id == channel then in_channel channel os ++ o ∷ [] else in_channel channel os)
in_channel-append channel [] o = refl
in_channel-append channel (p ∷ os) o = ground (arith, in_channel-append channel os o)

-- A new operation goes to the end of its channel.
pub enqueue-IsOrdered :
    (env : Environment) (now channel : ℕ) (type : OperationType) (payload : Payload) (db : Database)
    → IsOrdered db.outbox
    → IsOrdered (enqueue env now channel type payload db).outbox
unfolding enqueue
enqueue-IsOrdered env now channel type payload db h c =
    rw (in_channel-append c db.outbox (new_operation env now channel type payload db))
      (elim (Bool-cases (channel == c)) [
        | inr other ↦ rw other (h c)
        | inl same ↦
            let e : channel ≡ c = (==_iff channel c).0 same in
            let (number, identity) = next_in_chain (in_channel channel db.outbox) (h channel) in
            rw (same, ← e)
              (Chained-append 0 none (in_channel channel db.outbox)
                (new_operation env now channel type payload db) (h channel) (omega (arith, number))
                identity)
      ])

pub enqueue_parts-IsOrdered :
    (env : Environment) (now channel submission part : ℕ) (contents : List Text) (db : Database)
    → IsOrdered db.outbox
    → IsOrdered (enqueue_parts env now channel submission part contents db).1.outbox
unfolding enqueue_parts
enqueue_parts-IsOrdered env now channel submission part [] db h = h
enqueue_parts-IsOrdered env now channel submission part (content ∷ contents) db h =
    enqueue_parts-IsOrdered env now channel submission (part + 1) contents _
      (enqueue-IsOrdered env now channel canonical_message _ db h)
